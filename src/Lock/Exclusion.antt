-- ===== src/Lock/Exclusion.antt =====
-- What the simulation lock guarantees: readers and writers exclude one another, the simulation
-- thread does not run while a host holds the lock, and no step of the protocol is refused.
use megastructure.Common.{ℕ, ◌+◌, ◌<◌, ◌≡◌, refl, ◌⊎◌, inl, inr, Bool, true, false, some, arith, ok}
use megastructure.Protocol.{Bytes, Request, EgMsg}
use megastructure.Lock.State.{
  State, CycleState, SimulationLock, state_is_read, state_is_reading, get_host_cycle_state,
  set_host_cycle_state, is_read, is_reading, all_finished,
}
use megastructure.Lock.Component.{Plugin, Component, put_current_lock, release_current_lock}
use megastructure.Lock.Counts.{
  count, state_is_writing, count-set_found, is_reading_pos, all_finished_count, count-start_readers,
  is_read-count,
}
use megastructure.Lock.Outcomes.{IsIdle, IsBusy}
use megastructure.Lock.Starts.{StartsHeld}
use megastructure.Lock.Service.{
  on_read_request-Refused, on_write_request-Refused, on_unlock_request_cases, idle_no-IsHolder,
}
use megastructure.Lock.Manager.{
  simulation_lock_started, on_read_request, on_write_request, start_readers, start_waiting,
}
use megastructure.Lock.Requests.{after_unlock, on_unlock_request}
use megastructure.Lock.System.{System, IsHolder, Reach, initial}
use megastructure.Lock.Invariant.{Agrees, Inv-at, starts-IsBusy, Reach-Inv}

module _ (g : Plugin) where
  open g use {Program}

  -- The lock is held only while the simulation thread waits for it.
  IsBusy-or_IsIdle :
      (bl po re : Bool) (c : Component Program)
      → Agrees g bl po re c
      → IsIdle g c ⊎ (IsBusy g c × (bl ≡ true) × (po ≡ false) × (re ≡ false))
  IsBusy-or_IsIdle false false re c v = inl v
  IsBusy-or_IsIdle false true re c v = absurd v
  IsBusy-or_IsIdle true true re c v = inl v.0
  IsBusy-or_IsIdle true false false c v = inr (v, refl, refl, refl)
  IsBusy-or_IsIdle true false true c v = inl v

  Reach-cases :
      (s : System Program)
      → Reach g (initial g) s
      → IsIdle g s.component
        ⊎ (IsBusy g s.component
            × (s.blocked ≡ true)
            × (s.posted ≡ false)
            × (s.component.current_lock_released ≡ false))
  Reach-cases s r =
      IsBusy-or_IsIdle s.blocked s.posted s.component.current_lock_released s.component
        (Reach-Inv g r)

  -- In every state that the two threads reach from a new component, if the hosts only unlock what
  -- they hold: either no host writes, or exactly one host writes and none reads.
  pub Reach-exclusive :
      (s : System Program) (l : SimulationLock)
      → Reach g (initial g) s
      → s.component.current_lock ≡ some l
      → (count state_is_writing l ≡ 0)
        ⊎ ((count state_is_writing l ≡ 1) × (count state_is_reading l ≡ 0))
  Reach-exclusive s l r e = ground (arith, Reach-cases s r)

  -- In every state that the two threads reach from a new component, if the hosts only unlock what
  -- they hold: while some host reads or writes, the simulation thread is blocked, its lock is
  -- not released, and no start of the lock is pending.
  pub Reach-held_blocked :
      (s : System Program) (l : SimulationLock)
      → Reach g (initial g) s
      → s.component.current_lock ≡ some l
      → 0 < count state_is_reading l + count state_is_writing l
      → (s.blocked ≡ true) × (s.posted ≡ false) × (s.component.current_lock_released ≡ false)
  Reach-held_blocked s l r e h = ground (arith, Reach-cases s r)

  -- In every state that the two threads reach from a new component, if the hosts only unlock what
  -- they hold: a read or a write request that is not refused finds the simulation thread
  -- blocked.
  pub Reach-served_blocked :
      (s : System Program) (m : EgMsg) (value : Bytes) (r : Request) (d : Component Program)
      → Reach g (initial g) s
      → (on_read_request g m r s.component ≡ ok d) ⊎ (on_write_request g value r s.component ≡ ok d)
      → s.blocked ≡ true
  Reach-served_blocked s m value r d h (inl e) =
      ground (arith, Reach-cases s h, on_read_request-Refused g m r s.component)
  Reach-served_blocked s m value r d h (inr e) =
      ground (arith, Reach-cases s h, on_write_request-Refused g value r s.component)

  -- In every state that the two threads reach from a new component, if the hosts only unlock what
  -- they hold: while the start of the lock is pending, the start is not refused, and the lock
  -- is held by readers or by a writer after it.
  pub Reach-start_total :
      (s : System Program)
      → Reach g (initial g) s
      → s.posted ≡ true
      → (d : Component Program) × (simulation_lock_started g s.component ≡ ok d) × IsBusy g d
  Reach-start_total s r q =
      let (d, x, b, f, h) =
        starts-IsBusy g s.blocked s.component.current_lock_released s.component refl
          (Inv-at g s (Reach-Inv g r) refl q refl) in
      (d, x, h)

  -- In every state that the two threads reach from a new component, if the hosts only unlock what
  -- they hold: the unlock by a host that holds the lock is not refused; the lock is released,
  -- or it is held by readers or by a writer after it.
  pub Reach-unlock_total :
      (s : System Program) (cycle : ℕ) (r : Request)
      → Reach g (initial g) s
      → IsHolder g r.host s.component
      → (on_unlock_request g cycle r s.component ≡ ok (release_current_lock s.component))
        ⊎ StartsHeld g s.component (on_unlock_request g cycle r s.component)
  Reach-unlock_total s cycle r h k = elim (Reach-cases s h) [
    | inl i ↦ absurd (idle_no-IsHolder g r.host s.component i k)
    | inr b ↦ on_unlock_request_cases g cycle r s.component b.0 k
  ]

  -- If one host writes, none reads, another waits to read and a third, which waits to write, sends an
  -- unlock, then the unlock is accepted and there are readers while the writer still writes.
  pub unlock_by_waiting_writer :
      (c : Component Program) (l : SimulationLock) (s : CycleState) (cycle : ℕ) (r : Request)
      → c.current_lock ≡ some l
      → get_host_cycle_state r.host l ≡ some s
      → s.state ≡ State.write
      → count state_is_writing l ≡ 1
      → count state_is_reading l ≡ 0
      → 0 < count state_is_read l
      → (d : Component Program) × (l' : SimulationLock) × (on_unlock_request g cycle r c ≡ ok d)
        × (d.current_lock ≡ some l')
        × (count state_is_writing l' ≡ 1)
        × (0 < count state_is_reading l')
  unfolding on_unlock_request after_unlock start_waiting put_current_lock
  unlock_by_waiting_writer c l s cycle r e q w one none_reads waits =
      let m = (set_host_cycle_state r.coordinator r.host cycle State.finished l).0 in
      let reads = count-set_found state_is_read r.coordinator r.host cycle State.finished l s q in
      let writes =
        count-set_found state_is_writing r.coordinator r.host cycle State.finished l s q in
      let readings =
        count-set_found state_is_reading r.coordinator r.host cycle State.finished l s q in
      let left : all_finished m ≡ false = ground (arith, all_finished_count m) in
      let nobody : is_reading m ≡ false = ground (arith, is_reading_pos m) in
      let someone : is_read m ≡ true = ground (arith, is_read-count m) in
      (
        record (start_readers g m c).1 { current_lock = some (start_readers g m c).0 },
        (start_readers g m c).0,
        ground arith,
        refl,
        ground (arith, count-start_readers g state_is_writing m c),
        ground (arith, count-start_readers g state_is_reading m c),
      )
