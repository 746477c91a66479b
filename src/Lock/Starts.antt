-- ===== src/Lock/Starts.antt =====
-- What the start of the waiting hosts does: it is never refused when somebody waits, the lock is
-- held after it, and nothing but the current lock and the messages sent has changed.
use megastructure.Common.{
  ◌+◌, ◌<◌, ◌≡◌, refl, ◌⊎◌, inl, inr, some, arith, Result, ok, Option-cases, Bool-cases, ◌∷◌, [],
}
use megastructure.Lock.State.{
  State, SimulationLock, state_is_read, state_is_reading, state_is_write, is_read, is_reading,
  all_finished,
}
use megastructure.Lock.Component.{
  Plugin, Component, put_current_lock, release_current_lock, send_eg,
}
use megastructure.Lock.Counts.{
  count, state_is_writing, is_read-count, is_read_pos, count-start_readers, start_first_writer-none,
  count-start_first_writer, is_reading_pos, is_reading-count, all_finished_pos,
}
use megastructure.Lock.Phases.{Held, Left}
use megastructure.Lock.Manager.{
  issue_lock_response, with_state, start_readers, start_first_writer, start_waiting,
}
use megastructure.Lock.Requests.{after_unlock}

-- `d` is `c` but for the current lock and the messages sent.
abbrev pub Keeps : {P : Type 0} → Component P → Component P → Type 0
Keeps c d =
    (d.future_lock ≡ c.future_lock)
    × (d.current_lock_released ≡ c.current_lock_released)
    × (d.program ≡ c.program)

module _ (g : Plugin) where
  open g use {Program}

  start_readers-Keeps :
      (l : SimulationLock) (c : Component Program) → Keeps c (start_readers g l c).1
  unfolding start_readers issue_lock_response send_eg
  start_readers-Keeps [] c = (refl, refl, refl)
  start_readers-Keeps (hcs ∷ rest) c = ground (
    arith,
    start_readers-Keeps rest c,
    start_readers-Keeps rest (issue_lock_response g (with_state g hcs State.reading) c),
  )

  start_first_writer-Keeps :
      (l : SimulationLock) (c : Component Program) (l' : SimulationLock) (c' : Component Program)
      → start_first_writer g l c ≡ some (l', c')
      → Keeps c c'
  unfolding start_first_writer issue_lock_response send_eg
  start_first_writer-Keeps [] c l' c' h = ground arith
  start_first_writer-Keeps (hcs ∷ rest) c l' c' h =
      elim (Option-cases (start_first_writer g rest c)) [
        | inl e ↦ ground arith
        | inr ((r, d), e) ↦ ground (arith, start_first_writer-Keeps rest c r d e)
      ]

  -- The result of an operation that was not refused and that left the lock held.
  abbrev pub StartsHeld : Component Program → Result (Component Program) → Type 0
  StartsHeld c r =
      (d : Component Program) × (l : SimulationLock) × (r ≡ ok d)
      × (d.current_lock ≡ some l)
      × Held l
      × Keeps c d

  pub start_waiting-StartsHeld :
      (l : SimulationLock) (c : Component Program)
      → count state_is_reading l ≡ 0
      → count state_is_writing l ≡ 0
      → 0 < count state_is_read l + count state_is_write l
      → StartsHeld c (start_waiting g l c)
  unfolding start_waiting put_current_lock
  start_waiting-StartsHeld l c r w n = elim (Bool-cases (is_read l)) [
    | inl e ↦
        let (l', c') = start_readers g l c in
        (
          record c' { current_lock = some l' },
          l',
          rw (e, start_waiting),
          refl,
          ground (
            arith,
            is_read_pos l e,
            count-start_readers g state_is_reading l c,
            count-start_readers g state_is_writing l c,
            count-start_readers g state_is_read l c,
          ),
          start_readers-Keeps l c,
        )
    | inr e ↦ elim (Option-cases (start_first_writer g l c)) [
      | inl m ↦ absurd (ground (arith, is_read-count l e, start_first_writer-none g l c m))
      | inr ((l', c'), m) ↦ (
        record c' { current_lock = some l' },
        l',
        rw (e, start_waiting, m),
        refl,
        ground (
          arith,
          is_read-count l e,
          count-start_first_writer g state_is_reading l c l' c' m,
          count-start_first_writer g state_is_writing l c l' c' m,
        ),
        start_first_writer-Keeps l c l' c' m,
      )
    ]
  ]

  -- After a holder has finished: the lock is released, or it is held by the next hosts.
  pub after_unlock_cases :
      (l : SimulationLock) (c : Component Program)
      → Left l
      → (after_unlock g l c ≡ ok (release_current_lock c)) ⊎ StartsHeld c (after_unlock g l c)
  unfolding after_unlock put_current_lock release_current_lock
  after_unlock_cases l c f = elim (Bool-cases (all_finished l)) [
    | inl e ↦ inl (rw (e, after_unlock))
    | inr e ↦ elim (Bool-cases (is_reading l)) [
      | inl m ↦ inr (
        record c { current_lock = some l },
        l,
        rw (e, after_unlock, m),
        refl,
        ground (arith, is_reading_pos l m),
        (refl, refl, refl),
      )
      | inr m ↦ inr (
          rw (e, after_unlock, m)
            (start_waiting-StartsHeld l c (is_reading-count l m)
              (ground (arith, is_reading-count l m))
              (ground (arith, is_reading-count l m, all_finished_pos l e))))
    ]
  ]
