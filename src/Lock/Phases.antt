-- ===== src/Lock/Phases.antt =====
-- The phases of a simulation lock: hosts wait for it, or some hold it. Every lock request keeps
-- the phase of the lock that it is entered in.
use megastructure.Common.{ℕ, ◌+◌, ◌<◌, ◌≡◌, ◌⊎◌, inl, inr, true, false, none, some, arith}
use megastructure.Lock.State.{
  State, CycleState, SimulationLock, state_is_read, state_is_reading, state_is_write, state_is_done,
  is_reading, get_host_cycle_state, set_host_cycle_state,
}
use megastructure.Lock.Counts.{
  count, state_is_writing, count-set_found, count-set_new, count-get_pos, get-set, is_reading-count,
  is_reading_pos,
}

-- Nobody has held the lock yet.
abbrev pub Fresh : SimulationLock → Type 0
Fresh l =
    (count state_is_reading l ≡ 0) × (count state_is_writing l ≡ 0) × (count state_is_done l ≡ 0)

-- Some hosts wait for the lock, and nobody has held it yet.
abbrev pub Waiting : SimulationLock → Type 0
Waiting l = Fresh l × (0 < count state_is_read l + count state_is_write l)

-- The lock is held by readers, and no reader waits; or by one writer.
abbrev pub Held : SimulationLock → Type 0
Held l =
    ((0 < count state_is_reading l) × (count state_is_writing l ≡ 0) × (count state_is_read l ≡ 0))
    ⊎ ((count state_is_writing l ≡ 1) × (count state_is_reading l ≡ 0))

-- What is left of a held lock once a holder has finished.
abbrev pub Left : SimulationLock → Type 0
Left m =
    ((0 < count state_is_reading m) × (count state_is_writing m ≡ 0) × (count state_is_read m ≡ 0))
    ⊎ ((count state_is_writing m ≡ 0) × (count state_is_reading m ≡ 0))

-- A host that enters the queue of a lock.
abbrev pub IsEntry : State → Type 0
IsEntry s = (s ≡ State.read) ⊎ (s ≡ State.write)

module _ (k h c : ℕ) (l : SimulationLock) where
  pub enter-Waiting :
      (new : State)
      → IsEntry new
      → Fresh l
      → get_host_cycle_state h l ≡ none
      → Waiting (set_host_cycle_state k h c new l).0
  enter-Waiting new n f e = ground (
    arith,
    count-set_new state_is_read k h c new l,
    count-set_new state_is_write k h c new l,
    count-set_new state_is_reading k h c new l,
    count-set_new state_is_writing k h c new l,
    count-set_new state_is_done k h c new l,
  )

  pub upgrade-Waiting :
      (s : CycleState)
      → Waiting l
      → get_host_cycle_state h l ≡ some s
      → s.state ≡ State.read
      → Waiting (set_host_cycle_state k h c State.write l).0
  upgrade-Waiting s f e r = ground (
    arith,
    count-set_found state_is_read k h c State.write l s e,
    count-set_found state_is_write k h c State.write l s e,
    count-set_found state_is_reading k h c State.write l s e,
    count-set_found state_is_writing k h c State.write l s e,
    count-set_found state_is_done k h c State.write l s e,
  )

  pub write-Held :
      Held l → get_host_cycle_state h l ≡ none → Held (set_host_cycle_state k h c State.write l).0
  write-Held f e = ground (
    arith,
    count-set_new state_is_read k h c State.write l e,
    count-set_new state_is_reading k h c State.write l e,
    count-set_new state_is_writing k h c State.write l e,
  )

  pub read-Held :
      Held l
      → get_host_cycle_state h l ≡ none
      → is_reading l ≡ false
      → Held (set_host_cycle_state k h c State.read l).0
  read-Held f e n = ground (
    arith,
    is_reading-count l,
    count-set_new state_is_read k h c State.read l e,
    count-set_new state_is_reading k h c State.read l e,
    count-set_new state_is_writing k h c State.read l e,
  )

  pub reading-Held :
      Held l
      → get_host_cycle_state h l ≡ none
      → is_reading l ≡ true
      → Held (set_host_cycle_state k h c State.reading l).0
  reading-Held f e n = ground (
    arith,
    is_reading_pos l,
    count-set_new state_is_read k h c State.reading l e,
    count-set_new state_is_reading k h c State.reading l e,
    count-set_new state_is_writing k h c State.reading l e,
  )

  pub upgrade_read-Held :
      (s : CycleState)
      → Held l
      → get_host_cycle_state h l ≡ some s
      → s.state ≡ State.read
      → Held (set_host_cycle_state k h c State.write l).0
  upgrade_read-Held s f e r = ground (
    arith,
    count-get_pos state_is_read h l s e,
    count-set_found state_is_reading k h c State.write l s e,
    count-set_found state_is_writing k h c State.write l s e,
    count-set_found state_is_read k h c State.write l s e,
  )

  -- A reader that becomes a waiting writer while others read.
  pub upgrade_reading-Held :
      (s : CycleState)
      → Held l
      → get_host_cycle_state h l ≡ some s
      → s.state ≡ State.reading
      → is_reading (set_host_cycle_state k h c State.write l).0 ≡ true
      → Held (set_host_cycle_state k h c State.write l).0
  upgrade_reading-Held s f e r n = ground (
    arith,
    is_reading_pos (set_host_cycle_state k h c State.write l).0 n,
    count-get_pos state_is_reading h l s e,
    count-set_found state_is_reading k h c State.write l s e,
    count-set_found state_is_writing k h c State.write l s e,
    count-set_found state_is_read k h c State.write l s e,
  )

  -- The only reader becomes the writer at once.
  pub upgrade_only_reader-Held :
      (s : CycleState)
      → Held l
      → get_host_cycle_state h l ≡ some s
      → s.state ≡ State.reading
      → is_reading (set_host_cycle_state k h c State.write l).0 ≡ false
      → Held
          (set_host_cycle_state k h c State.writing (set_host_cycle_state k h c State.write l).0).0
  upgrade_only_reader-Held s f e r n =
      let l' = (set_host_cycle_state k h c State.write l).0 in
      let w : CycleState = record { cycle = c; state = State.write } in
      let e' = get-set k h c State.write l in
      ground (
        arith,
        is_reading-count l' n,
        count-get_pos state_is_reading h l s e,
        count-set_found state_is_writing k h c State.write l s e,
        count-set_found state_is_reading k h c State.writing l' w e',
        count-set_found state_is_writing k h c State.writing l' w e',
      )

  pub finish-Left :
      (s : CycleState)
      → Held l
      → get_host_cycle_state h l ≡ some s
      → (s.state ≡ State.reading) ⊎ (s.state ≡ State.writing)
      → Left (set_host_cycle_state k h c State.finished l).0
  finish-Left s f e (inl r) = ground (
    arith,
    count-get_pos state_is_reading h l s e,
    count-set_found state_is_reading k h c State.finished l s e,
    count-set_found state_is_writing k h c State.finished l s e,
    count-set_found state_is_read k h c State.finished l s e,
  )
  finish-Left s f e (inr w) = ground (
    arith,
    count-get_pos state_is_writing h l s e,
    count-set_found state_is_reading k h c State.finished l s e,
    count-set_found state_is_writing k h c State.finished l s e,
    count-set_found state_is_read k h c State.finished l s e,
  )
