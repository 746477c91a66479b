-- ===== src/Lock/Openings.antt =====
-- Lock requests while the current lock of a component is not started, or while it has none.
use megastructure.Common.{
  ℕ, ◌≡◌, refl, ◌⊎◌, inl, inr, none, some, arith, Result, Option-cases, Bool-cases, [], ◌==◌,
}
use megastructure.Protocol.{Request}
use megastructure.Lock.State.{
  State, CycleState, SimulationLock, state_is_reading, is_reading, get_host_cycle_state,
  set_host_cycle_state,
}
use megastructure.Lock.Component.{Plugin, Component, put_current_lock, get_or_create_current_lock}
use megastructure.Lock.Phases.{Fresh, Waiting, enter-Waiting, upgrade-Waiting}
use megastructure.Lock.Outcomes.{
  AllWaiting, Ensures, Ensures-map, FutureOnly, CurrentOnly, IsIdle, Retains,
}
use megastructure.Lock.Entries.{get_nil, lock_future_read-FutureOnly, lock_future_write-FutureOnly}
use megastructure.Lock.Counts.{is_reading_pos, count-get_pos}
use megastructure.Lock.Requests.{
  lock_future_read, lock_new_read, read_lock_in, write_lock_in, on_read_lock_request, upgrade,
  lock_future_write, on_write_lock_request,
}

module _ (g : Plugin) where
  open g use {Program}

  lock_new_read-Waiting :
      (cycle : ℕ) (r : Request) (l : SimulationLock) (c : Component Program)
      → Fresh l
      → get_host_cycle_state r.host l ≡ none
      → CurrentOnly g Waiting c (lock_new_read g cycle r l c)
  unfolding lock_new_read put_current_lock
  lock_new_read-Waiting cycle r l c f n = elim (Bool-cases (is_reading l)) [
    | inl e ↦ absurd (ground (arith, is_reading_pos l))
    | inr e ↦ (
      (set_host_cycle_state r.coordinator r.host cycle State.read l).0,
      rw (e, lock_new_read),
      ground (arith, enter-Waiting r.coordinator r.host cycle l State.read),
      rw (e, lock_new_read),
      rw (e, lock_new_read),
      rw (e, lock_new_read),
    )
  ]

  upgrade-Waiting_current :
      (st : State) (s : CycleState) (cycle : ℕ) (r : Request) (l : SimulationLock)
      (c : Component Program)
      → Waiting l
      → get_host_cycle_state r.host l ≡ some s
      → s.state ≡ st
      → Ensures (CurrentOnly g Waiting c) (upgrade g st cycle r l c)
  unfolding upgrade put_current_lock
  upgrade-Waiting_current State.read s cycle r l c w e q =
      (_, refl, upgrade-Waiting r.coordinator r.host cycle l s w e q, refl, refl, refl)
  upgrade-Waiting_current State.reading s cycle r l c w e q =
      absurd (ground (arith, count-get_pos state_is_reading r.host l s e))
  upgrade-Waiting_current _ s cycle r l c w e q = tt

  -- The same on one whose lock is not started: the future lock or a new one may become current.
  pub with_fresh :
      (Q : Result (Component Program) → Type 0)
      (f : SimulationLock → Component Program → Result (Component Program)) (c : Component Program)
      → IsIdle g c
      → ((l : SimulationLock) (d : Component Program)
          → Fresh l
          → (l ≡ []) ⊎ Waiting l
          → d.current_lock ≡ some l
          → AllWaiting d.future_lock
          → d.current_lock_released ≡ c.current_lock_released
          → d.program ≡ c.program
          → Q (f l d))
      → Q (let (l, c') = get_or_create_current_lock c in f l c')
  unfolding get_or_create_current_lock
  with_fresh Q f c b h = elim (Option-cases c.current_lock) [
    | inl e ↦ elim (Option-cases c.future_lock) [
      | inl m ↦
          let h' =
            h [] (record c { current_lock = some [] }) (omega arith) (inl refl) refl b.1 refl
              refl in
          ground arith
      | inr (l, m) ↦
          let d : Component Program = record c { current_lock = some l; future_lock = none } in
          let h' = h l d (ground arith) (inr (ground arith)) refl tt refl refl in ground arith
    ]
    | inr (l, e) ↦
        let h' = h l c (ground arith) (inr (ground arith)) e b.1 refl refl in ground arith
  ]

module _ (g : Plugin) (r : Request) (l : SimulationLock) (c e : Component g.Program) where
  -- `e` is `c` with `l` as the current lock, not started.
  abbrev IsOpened : Type 0
  IsOpened =
      Fresh l
      × ((l ≡ []) ⊎ Waiting l)
      × (e.current_lock ≡ some l)
      × AllWaiting e.future_lock
      × (e.current_lock_released ≡ c.current_lock_released)
      × (e.program ≡ c.program)

  IsIdle-of_current :
      (d : Component g.Program) → IsOpened → CurrentOnly g Waiting e d → IsIdle g d × Retains g c d
  IsIdle-of_current d o h = ground arith

  IsIdle-of_future :
      (s : CycleState) (d : Component g.Program)
      → IsOpened
      → get_host_cycle_state r.host l ≡ some s
      → FutureOnly g e d
      → IsIdle g d × Retains g c d
  IsIdle-of_future s d o m h = ground (arith, get_nil r.host)

  read_lock_in-IsIdle :
      (cycle : ℕ)
      → IsOpened
      → Ensures (λ d. IsIdle g d × Retains g c d) (read_lock_in g cycle r l e)
  unfolding read_lock_in
  read_lock_in-IsIdle cycle o = elim (Option-cases (get_host_cycle_state r.host l)) [
    | inl n ↦
        rw (n, read_lock_in)
          (IsIdle-of_current (lock_new_read g cycle r l e) o
            (lock_new_read-Waiting g cycle r l e o.0 n))
    | inr (s, m) ↦ elim (Bool-cases (s.cycle == cycle)) [
      | inl q ↦ rw (m, read_lock_in, q) tt
      | inr q ↦
          rw (m, read_lock_in, q)
            (Ensures-map (lock_future_read g cycle r e) (λ d. IsIdle-of_future s d o m)
              (lock_future_read-FutureOnly g cycle r e (ground arith)))
    ]
  ]

  write_lock_in-IsIdle :
      (cycle : ℕ)
      → IsOpened
      → Ensures (λ d. IsIdle g d × Retains g c d) (write_lock_in g cycle r l e)
  unfolding write_lock_in put_current_lock
  write_lock_in-IsIdle cycle o = elim (Option-cases (get_host_cycle_state r.host l)) [
    | inl n ↦
        rw (n, write_lock_in)
          (
            (enter-Waiting r.coordinator r.host cycle l State.write (inr refl) o.0 n, o.3),
            (o.4, o.5, λ q. cc),
          )
    | inr (s, m) ↦ elim (Bool-cases (s.cycle == cycle)) [
      | inl q ↦
          rw (m, write_lock_in, q)
            (Ensures-map (upgrade g s.state cycle r l e) (λ d. IsIdle-of_current d o)
              (upgrade-Waiting_current g s.state s cycle r l e (ground (arith, get_nil r.host)) m
                refl))
      | inr q ↦
          rw (m, write_lock_in, q)
            (Ensures-map (lock_future_write g cycle r e) (λ d. IsIdle-of_future s d o m)
              (lock_future_write-FutureOnly g cycle r e o.3))
    ]
  ]

module _ (g : Plugin) where
  pub on_read_lock_request-IsIdle :
      (cycle : ℕ) (r : Request) (c : Component g.Program)
      → IsIdle g c
      → Ensures (λ d. IsIdle g d × Retains g c d) (on_read_lock_request g cycle r c)
  unfolding on_read_lock_request
  on_read_lock_request-IsIdle cycle r c b =
      with_fresh g (Ensures (λ d. IsIdle g d × Retains g c d)) (read_lock_in g cycle r) c b
        λ l e h0 h1 h2 h3 h4 h5. read_lock_in-IsIdle g r l c e cycle (h0, h1, h2, h3, h4, h5)

  pub on_write_lock_request-IsIdle :
      (cycle : ℕ) (r : Request) (c : Component g.Program)
      → IsIdle g c
      → Ensures (λ d. IsIdle g d × Retains g c d) (on_write_lock_request g cycle r c)
  unfolding on_write_lock_request
  on_write_lock_request-IsIdle cycle r c b =
      with_fresh g (Ensures (λ d. IsIdle g d × Retains g c d)) (write_lock_in g cycle r) c b
        λ l e h0 h1 h2 h3 h4 h5. write_lock_in-IsIdle g r l c e cycle (h0, h1, h2, h3, h4, h5)
