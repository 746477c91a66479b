-- ===== src/Lock/Entries.antt =====
-- Lock requests keep the phases of the two locks of a component: requests for the future lock, and
-- requests while the current lock is held.
use megastructure.Common.{
  ℕ, ◌≡◌, refl, inl, inr, none, some, arith, Result, Option-cases, Bool-cases, [], ◌==◌,
}
use megastructure.Protocol.{Request}
use megastructure.Lock.State.{
  State, CycleState, SimulationLock, is_reading, get_host_cycle_state, set_host_cycle_state,
}
use megastructure.Lock.Component.{
  Plugin, Component, put_current_lock, put_future_lock, get_or_create_current_lock,
  get_or_create_future_lock, send_eg,
}
use megastructure.Lock.Phases.{
  Held, enter-Waiting, upgrade-Waiting, write-Held, read-Held, reading-Held, upgrade_read-Held,
  upgrade_reading-Held, upgrade_only_reader-Held,
}
use megastructure.Lock.Outcomes.{
  AllWaiting, Ensures, Ensures-map, FutureOnly, CurrentOnly, IsBusy, Retains,
}
use megastructure.Lock.Manager.{issue_lock_response}
use megastructure.Lock.Requests.{
  lock_future_read, lock_new_read, read_lock_in, write_lock_in, on_read_lock_request, upgrade,
  upgrade_future, lock_future_write, on_write_lock_request,
}

pub get_nil : (h : ℕ) → get_host_cycle_state h [] ≡ none
unfolding get_host_cycle_state
get_nil h = refl

module _ (g : Plugin) where
  open g use {Program}

  pub lock_future_read-FutureOnly :
      (cycle : ℕ) (r : Request) (c : Component Program)
      → AllWaiting c.future_lock
      → Ensures (FutureOnly g c) (lock_future_read g cycle r c)
  unfolding lock_future_read get_or_create_future_lock put_future_lock
  lock_future_read-FutureOnly cycle r c w = elim (Option-cases c.future_lock) [
    | inl e ↦ ground (arith, enter-Waiting r.coordinator r.host cycle [] State.read)
    | inr (f, e) ↦ ground (arith, enter-Waiting r.coordinator r.host cycle f State.read)
  ]

  pub lock_future_write-FutureOnly :
      (cycle : ℕ) (r : Request) (c : Component Program)
      → AllWaiting c.future_lock
      → Ensures (FutureOnly g c) (lock_future_write g cycle r c)
  unfolding lock_future_write upgrade_future get_or_create_future_lock put_future_lock
  lock_future_write-FutureOnly cycle r c w = elim (Option-cases c.future_lock) [
    | inl e ↦
        ground (arith, enter-Waiting r.coordinator r.host cycle [] State.write, get_nil r.host)
    | inr (f, e) ↦ elim (Option-cases (get_host_cycle_state r.host f)) [
      | inl n ↦ ground (arith, enter-Waiting r.coordinator r.host cycle f State.write)
      | inr (s, m) ↦ ground (arith, upgrade-Waiting r.coordinator r.host cycle f s)
    ]
  ]

  lock_new_read-Held :
      (cycle : ℕ) (r : Request) (l : SimulationLock) (c : Component Program)
      → Held l
      → get_host_cycle_state r.host l ≡ none
      → CurrentOnly g Held c (lock_new_read g cycle r l c)
  unfolding lock_new_read put_current_lock issue_lock_response send_eg
  lock_new_read-Held cycle r l c f n = elim (Bool-cases (is_reading l)) [
    | inl e ↦ (
      (set_host_cycle_state r.coordinator r.host cycle State.reading l).0,
      rw (e, lock_new_read),
      reading-Held r.coordinator r.host cycle l f n e,
      rw (e, lock_new_read),
      rw (e, lock_new_read),
      rw (e, lock_new_read),
    )
    | inr e ↦ (
      (set_host_cycle_state r.coordinator r.host cycle State.read l).0,
      rw (e, lock_new_read),
      read-Held r.coordinator r.host cycle l f n e,
      rw (e, lock_new_read),
      rw (e, lock_new_read),
      rw (e, lock_new_read),
    )
  ]

  upgrade-Held_current :
      (st : State) (s : CycleState) (cycle : ℕ) (r : Request) (l : SimulationLock)
      (c : Component Program)
      → Held l
      → get_host_cycle_state r.host l ≡ some s
      → s.state ≡ st
      → Ensures (CurrentOnly g Held c) (upgrade g st cycle r l c)
  unfolding upgrade put_current_lock issue_lock_response send_eg
  upgrade-Held_current State.read s cycle r l c f e q =
      (_, refl, upgrade_read-Held r.coordinator r.host cycle l s f e q, refl, refl, refl)
  upgrade-Held_current State.reading s cycle r l c f e q =
      elim (Bool-cases
        (is_reading (set_host_cycle_state r.coordinator r.host cycle State.write l).0)) [
          | inl n ↦
              rw (n, upgrade)
                (
                  _,
                  refl,
                  upgrade_reading-Held r.coordinator r.host cycle l s f e q n,
                  refl,
                  refl,
                  refl,
                )
          | inr n ↦
              rw (n, upgrade)
                (
                  _,
                  refl,
                  upgrade_only_reader-Held r.coordinator r.host cycle l s f e q n,
                  refl,
                  refl,
                  refl,
                )
        ]
  upgrade-Held_current _ s cycle r l c f e q = tt

  IsBusy-of_current :
      (c d : Component Program) → IsBusy g c → CurrentOnly g Held c d → IsBusy g d × Retains g c d
  IsBusy-of_current c d b h = ground arith

  -- A handler that takes the current lock, on a component whose lock is held.
  pub with_held :
      (Q : Result (Component Program) → Type 0)
      (f : SimulationLock → Component Program → Result (Component Program)) (c : Component Program)
      → IsBusy g c
      → ((l : SimulationLock) → Held l → c.current_lock ≡ some l → Q (f l c))
      → Q (let (l, c') = get_or_create_current_lock c in f l c')
  unfolding get_or_create_current_lock
  with_held Q f c b h = elim (Option-cases c.current_lock) [
    | inl e ↦ absurd (ground arith)
    | inr (l, e) ↦ let h' = h l (ground arith) e in ground arith
  ]

  pub on_read_lock_request-IsBusy :
      (cycle : ℕ) (r : Request) (c : Component Program)
      → IsBusy g c
      → Ensures (λ d. IsBusy g d × Retains g c d) (on_read_lock_request g cycle r c)
  unfolding on_read_lock_request
  on_read_lock_request-IsBusy cycle r c b =
      with_held (Ensures (λ d. IsBusy g d × Retains g c d)) (read_lock_in g cycle r) c b λ l h e.
        elim (Option-cases (get_host_cycle_state r.host l)) [
          | inl n ↦
              rw (n, read_lock_in)
                (IsBusy-of_current c (lock_new_read g cycle r l c) b
                  (lock_new_read-Held cycle r l c h n))
          | inr (s, m) ↦ ground (arith, lock_future_read-FutureOnly cycle r c b.1)
        ]

  pub on_write_lock_request-IsBusy :
      (cycle : ℕ) (r : Request) (c : Component Program)
      → IsBusy g c
      → Ensures (λ d. IsBusy g d × Retains g c d) (on_write_lock_request g cycle r c)
  unfolding on_write_lock_request put_current_lock
  on_write_lock_request-IsBusy cycle r c b =
      with_held (Ensures (λ d. IsBusy g d × Retains g c d)) (write_lock_in g cycle r) c b λ l h e.
        elim (Option-cases (get_host_cycle_state r.host l)) [
          | inl n ↦
              rw (n, write_lock_in)
                ((write-Held r.coordinator r.host cycle l h n, b.1), (refl, refl, λ q. cc))
          | inr (s, m) ↦ elim (Bool-cases (s.cycle == cycle)) [
            | inl q ↦
                rw (m, write_lock_in, q)
                  (Ensures-map (upgrade g s.state cycle r l c) (λ d. IsBusy-of_current c d b)
                    (upgrade-Held_current s.state s cycle r l c h m refl))
            | inr q ↦
                rw (m, write_lock_in, q)
                  (Ensures-map (lock_future_write g cycle r c) (λ d t. ground arith)
                    (lock_future_write-FutureOnly cycle r c b.1))
          ]
        ]
