-- ===== src/Lock/Service.antt =====
-- The handlers of read, write and unlock requests, by the phase of the current lock.
use megastructure.Common.{
  ℕ, ◌≡◌, refl, ◌⊎◌, inl, inr, some, arith, Result, ok, throws, Option-cases,
}
use megastructure.Protocol.{Bytes, Request, EgMsg}
use megastructure.Lock.State.{
  State, CycleState, SimulationLock, state_is_reading, get_host_cycle_state, set_host_cycle_state,
}
use megastructure.Lock.Component.{Plugin, Component, release_current_lock, send_eg}
use megastructure.Lock.Counts.{state_is_writing, count-get_pos}
use megastructure.Lock.Phases.{finish-Left, Waiting}
use megastructure.Lock.Outcomes.{Ensures, IsIdle, IsBusy}
use megastructure.Lock.Entries.{get_nil, with_held}
use megastructure.Lock.Openings.{with_fresh}
use megastructure.Lock.Starts.{StartsHeld, after_unlock_cases}
use megastructure.Lock.Manager.{
  read_in, write_in, read_in_state, on_read_request, write_in_state, on_write_request,
}
use megastructure.Lock.Requests.{on_unlock_request}
use megastructure.Lock.System.{IsHolder}

module _ (g : Plugin) where
  open g use {Program}

  -- Only the program and the messages sent may differ.
  abbrev pub KeepsLocks : Component Program → Component Program → Type 0
  KeepsLocks c d =
      (d.current_lock ≡ c.current_lock)
      × (d.future_lock ≡ c.future_lock)
      × (d.current_lock_released ≡ c.current_lock_released)

  abbrev pub Refused : Result (Component Program) → Type 0
  Refused (ok c) = ⊥
  Refused throws = Unit {0}

  read_in_state-KeepsLocks :
      (st : State) (m : EgMsg) (r : Request) (c : Component Program)
      → Ensures (KeepsLocks c) (read_in_state g st m r c)
  unfolding read_in_state send_eg
  read_in_state-KeepsLocks State.reading m r c = ground arith
  read_in_state-KeepsLocks State.writing m r c = ground arith
  read_in_state-KeepsLocks _ m r c = tt

  write_in_state-KeepsLocks :
      (st : State) (value : Bytes) (c : Component Program)
      → Ensures (KeepsLocks c) (write_in_state g st value c)
  unfolding write_in_state
  write_in_state-KeepsLocks State.writing value c = ground arith
  write_in_state-KeepsLocks _ value c = tt

  read_in_state-Refused :
      (st : State) (s : CycleState) (m : EgMsg) (r : Request) (l : SimulationLock)
      (c : Component Program)
      → Waiting l
      → get_host_cycle_state r.host l ≡ some s
      → s.state ≡ st
      → Refused (read_in_state g st m r c)
  unfolding read_in_state
  read_in_state-Refused State.reading s m r l c w e q =
      absurd (ground (arith, count-get_pos state_is_reading r.host l s e))
  read_in_state-Refused State.writing s m r l c w e q =
      absurd (ground (arith, count-get_pos state_is_writing r.host l s e))
  read_in_state-Refused _ s m r l c w e q = tt

  write_in_state-Refused :
      (st : State) (s : CycleState) (host : ℕ) (value : Bytes) (l : SimulationLock)
      (c : Component Program)
      → Waiting l
      → get_host_cycle_state host l ≡ some s
      → s.state ≡ st
      → Refused (write_in_state g st value c)
  unfolding write_in_state
  write_in_state-Refused State.writing s h value l c w e q =
      absurd (ground (arith, count-get_pos state_is_writing h l s e))
  write_in_state-Refused _ s h value l c w e q = tt

  pub on_read_request-IsBusy :
      (m : EgMsg) (r : Request) (c : Component Program)
      → IsBusy g c
      → Ensures (KeepsLocks c) (on_read_request g m r c)
  unfolding on_read_request
  on_read_request-IsBusy m r c b = with_held g (Ensures (KeepsLocks c)) (read_in g m r) c b λ l h e.
      elim (Option-cases (get_host_cycle_state r.host l)) [
        | inl n ↦ rw (n, read_in) tt
        | inr (s, n) ↦ rw (n, read_in) (read_in_state-KeepsLocks s.state m r c)
      ]

  pub on_write_request-IsBusy :
      (value : Bytes) (r : Request) (c : Component Program)
      → IsBusy g c
      → Ensures (KeepsLocks c) (on_write_request g value r c)
  unfolding on_write_request
  on_write_request-IsBusy value r c b =
      with_held g (Ensures (KeepsLocks c)) (write_in g value r) c b λ l h e.
        elim (Option-cases (get_host_cycle_state r.host l)) [
          | inl n ↦ rw (n, write_in) tt
          | inr (s, n) ↦ rw (n, write_in) (write_in_state-KeepsLocks s.state value c)
        ]

  -- While the lock is not held no host is served.
  pub on_read_request-Refused :
      (m : EgMsg) (r : Request) (c : Component Program)
      → IsIdle g c
      → Refused (on_read_request g m r c)
  unfolding on_read_request
  on_read_request-Refused m r c b = with_fresh g Refused (read_in g m r) c b λ l e f h n w q p.
      elim (Option-cases (get_host_cycle_state r.host l)) [
        | inl n ↦ rw (n, read_in) tt
        | inr (s, n) ↦
            rw (n, read_in)
              (read_in_state-Refused s.state s m r l e (ground (arith, get_nil r.host)) n refl)
      ]

  pub on_write_request-Refused :
      (value : Bytes) (r : Request) (c : Component Program)
      → IsIdle g c
      → Refused (on_write_request g value r c)
  unfolding on_write_request
  on_write_request-Refused value r c b =
      with_fresh g Refused (write_in g value r) c b λ l e f h n w q p.
        elim (Option-cases (get_host_cycle_state r.host l)) [
          | inl n ↦ rw (n, write_in) tt
          | inr (s, n) ↦
              rw (n, write_in)
                (write_in_state-Refused s.state s r.host value l e (ground (arith, get_nil r.host))
                  n refl)
        ]

  -- An unlock by a holder is never refused: it releases the lock, or leaves it held.
  pub on_unlock_request_cases :
      (cycle : ℕ) (r : Request) (c : Component Program)
      → IsBusy g c
      → IsHolder g r.host c
      → (on_unlock_request g cycle r c ≡ ok (release_current_lock c))
        ⊎ StartsHeld g c (on_unlock_request g cycle r c)
  unfolding on_unlock_request release_current_lock
  on_unlock_request_cases cycle r c b (l, s, e, q, a) =
      rw (e, on_unlock_request, q)
        (after_unlock_cases g (set_host_cycle_state r.coordinator r.host cycle State.finished l).0 c
          (finish-Left r.coordinator r.host cycle l s (ground arith) q a))

  -- Nobody holds a lock that is not started.
  pub idle_no-IsHolder : (host : ℕ) (c : Component Program) → IsIdle g c → ¬ IsHolder g host c
  idle_no-IsHolder host c b (l, s, e, q, a) =
      ground (
        arith,
        count-get_pos state_is_reading host l s q,
        count-get_pos state_is_writing host l s q,
      )
