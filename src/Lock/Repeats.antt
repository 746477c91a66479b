-- ===== src/Lock/Repeats.antt =====
-- A second lock request under the same host number and cycle.
use megastructure.Common.{
  ℕ, ◌≡◌, refl, ◌⊎◌, inl, inr, some, arith, ok, throws, Option-cases, Bool-cases, ◌==◌, subst, ◌∙◌,
}
use megastructure.Protocol.{Request}
use megastructure.Lock.State.{State, CycleState, SimulationLock, is_reading, get_host_cycle_state}
use megastructure.Lock.Component.{
  Plugin, Component, put_current_lock, put_future_lock, get_or_create_current_lock,
  get_or_create_future_lock, send_eg,
}
use megastructure.Lock.Counts.{get-set}
use megastructure.Lock.Outcomes.{Ensures}
use megastructure.Lock.Manager.{issue_lock_response}
use megastructure.Lock.Requests.{
  lock_future_read, lock_new_read, read_lock_in, on_read_lock_request,
}

module _ (g : Plugin) where
  open g use {Program}

  -- The host has an entry for the cycle in the current lock, or one in each of the two locks.
  abbrev pub Noted : ℕ → ℕ → Component Program → Type 0
  Noted host cycle d =
      (l : SimulationLock) × (s : CycleState) × (d.current_lock ≡ some l)
      × (get_host_cycle_state host l ≡ some s)
      × ((s.cycle ≡ cycle)
          ⊎ ((f : SimulationLock) × (t : CycleState) × (d.future_lock ≡ some f)
              × (get_host_cycle_state host f ≡ some t)))

  lock_new_read-Noted :
      (cycle : ℕ) (r : Request) (l : SimulationLock) (c : Component Program)
      → Noted r.host cycle (lock_new_read g cycle r l c)
  unfolding lock_new_read put_current_lock issue_lock_response send_eg
  lock_new_read-Noted cycle r l c = elim (Bool-cases (is_reading l)) [
    | inl e ↦
        rw (e, lock_new_read)
          (_, _, refl, get-set r.coordinator r.host cycle State.reading l, inl refl)
    | inr e ↦
        rw (e, lock_new_read)
          (_, _, refl, get-set r.coordinator r.host cycle State.read l, inl refl)
  ]

  pub future_keeps :
      (c : Component Program) → (get_or_create_future_lock c).1.current_lock ≡ c.current_lock
  unfolding get_or_create_future_lock
  future_keeps c = ground arith

  lock_future_read-Noted :
      (cycle : ℕ) (r : Request) (l : SimulationLock) (s : CycleState) (c : Component Program)
      → c.current_lock ≡ some l
      → get_host_cycle_state r.host l ≡ some s
      → Ensures (Noted r.host cycle) (lock_future_read g cycle r c)
  unfolding lock_future_read put_future_lock
  lock_future_read-Noted cycle r l s c e q =
      elim (Option-cases (get_host_cycle_state r.host (get_or_create_future_lock c).0)) [
        | inl n ↦
            rw (n, lock_future_read)
              (
                l,
                s,
                future_keeps c ∙ e,
                q,
                inr (_, _, refl, get-set r.coordinator r.host cycle State.read _),
              )
        | inr (t, n) ↦ rw (n, lock_future_read) tt
      ]

  read_lock_in-Noted :
      (cycle : ℕ) (r : Request) (l : SimulationLock) (c : Component Program)
      → c.current_lock ≡ some l
      → Ensures (Noted r.host cycle) (read_lock_in g cycle r l c)
  unfolding read_lock_in
  read_lock_in-Noted cycle r l c e = elim (Option-cases (get_host_cycle_state r.host l)) [
    | inl n ↦ rw (n, read_lock_in) (lock_new_read-Noted cycle r l c)
    | inr (s, n) ↦ elim (Bool-cases (s.cycle == cycle)) [
      | inl q ↦ rw (n, read_lock_in, q) tt
      | inr q ↦ rw (n, read_lock_in, q) (lock_future_read-Noted cycle r l s c e n)
    ]
  ]

  pub current_lock_is :
      (c : Component Program)
      → (get_or_create_current_lock c).1.current_lock ≡ some (get_or_create_current_lock c).0
  unfolding get_or_create_current_lock
  current_lock_is c = ground arith

  -- A read lock request of a host with such an entry is refused.
  pub Noted-refuses :
      (host cycle : ℕ) (r : Request) (d : Component Program)
      → Noted host cycle d
      → r.host ≡ host
      → on_read_lock_request g cycle r d ≡ throws
  unfolding on_read_lock_request get_or_create_current_lock lock_future_read
      get_or_create_future_lock
  Noted-refuses host cycle r d (m, s, x, y, z) q = elim z [
    | inl w ↦ ground arith
    | inr (f, t, u, v) ↦ ground arith
  ]

  -- After a read lock request of a host, another one with the same host number and the same cycle
  -- is refused, also if it comes from a host of another coordinator.
  pub on_read_lock_request_twice :
      (cycle : ℕ) (r r' : Request) (c d : Component Program)
      → on_read_lock_request g cycle r c ≡ ok d
      → r'.host ≡ r.host
      → on_read_lock_request g cycle r' d ≡ throws
  unfolding on_read_lock_request
  on_read_lock_request_twice cycle r r' c d e q =
      let (l, c') = get_or_create_current_lock c in
      Noted-refuses r.host cycle r' d
        (subst (Ensures (Noted r.host cycle)) e
          (read_lock_in-Noted cycle r l c' (current_lock_is c)))
        q
