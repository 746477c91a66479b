-- ===== src/Lock/Invariant.antt =====
-- The invariant of the two threads of a component, and that every step keeps it.
use megastructure.Common.{
  ◌≡◌, ◌≢◌, refl, ◌⊎◌, inl, inr, Bool, true, false, Option, none, some, ◌∙◌, subst, arith, ok,
  Option-cases,
}
use megastructure.Protocol.{Operation, Request, Content, EgMsg, Message}
use megastructure.Lock.State.{SimulationLock}
use megastructure.Lock.Component.{Plugin, Component, release_current_lock}
use megastructure.Lock.Outcomes.{Ensures, Ensures-map, IsIdle, IsBusy}
use megastructure.Lock.Entries.{on_read_lock_request-IsBusy, on_write_lock_request-IsBusy}
use megastructure.Lock.Openings.{on_read_lock_request-IsIdle, on_write_lock_request-IsIdle}
use megastructure.Lock.Starts.{start_waiting-StartsHeld}
use megastructure.Lock.Manager.{
  on_read_request, on_write_request, start_waiting, simulation_lock_started,
}
use megastructure.Lock.Requests.{
  on_read_lock_request, on_write_lock_request, on_lock_request, on_request, on_content,
  server_message,
}
use megastructure.Lock.Service.{
  on_read_request-IsBusy, on_write_request-IsBusy, on_read_request-Refused,
  on_write_request-Refused, on_unlock_request_cases, idle_no-IsHolder,
}
use megastructure.Lock.System.{
  System, begin_cycle, end_cycle, OperationConforms, ContentConforms, Conforms, Step, begins, ends,
  loads, starts, receives, here, next, Reach, initial,
}

module _ (g : Plugin) where
  open g use {Program}

  abbrev pub StaysIdle : Component Program → Component Program → Type 0
  StaysIdle c d =
      IsIdle g d
      × (d.current_lock_released ≡ c.current_lock_released)
      × (c.current_lock ≢ none → d.current_lock ≢ none)

  -- The lock stays held, or it is released.
  abbrev pub StaysBusy : Component Program → Component Program → Type 0
  StaysBusy c d =
      (IsBusy g d × (d.current_lock_released ≡ c.current_lock_released))
      ⊎ (IsIdle g d × (d.current_lock_released ≡ true))

  on_request-StaysIdle :
      (o : Operation) (m : EgMsg) (r : Request) (c : Component Program)
      → IsIdle g c
      → OperationConforms g o r.host c
      → Ensures (StaysIdle c) (on_request g o m r c)
  unfolding on_request on_lock_request
  on_request-StaysIdle Operation.read m r c b k = ground (arith, on_read_request-Refused g m r c b)
  on_request-StaysIdle (Operation.write value) m r c b k =
      ground (arith, on_write_request-Refused g value r c b)
  on_request-StaysIdle (Operation.lock true) m r c b k =
      Ensures-map (on_read_lock_request g m.cycle r c) (λ d h. (h.0, h.1.0, λ _. h.1.2))
        (on_read_lock_request-IsIdle g m.cycle r c b)
  on_request-StaysIdle (Operation.lock false) m r c b k =
      Ensures-map (on_write_lock_request g m.cycle r c) (λ d h. (h.0, h.1.0, λ _. h.1.2))
        (on_write_lock_request-IsIdle g m.cycle r c b)
  on_request-StaysIdle Operation.unlock m r c b k = absurd (idle_no-IsHolder g r.host c b k)
  on_request-StaysIdle Operation.unset m r c b k = tt

  on_request-StaysBusy :
      (o : Operation) (m : EgMsg) (r : Request) (c : Component Program)
      → IsBusy g c
      → OperationConforms g o r.host c
      → Ensures (StaysBusy c) (on_request g o m r c)
  unfolding on_request on_lock_request release_current_lock
  on_request-StaysBusy Operation.read m r c b k =
      Ensures-map (on_read_request g m r c) (λ d h. inl (ground arith))
        (on_read_request-IsBusy g m r c b)
  on_request-StaysBusy (Operation.write value) m r c b k =
      Ensures-map (on_write_request g value r c) (λ d h. inl (ground arith))
        (on_write_request-IsBusy g value r c b)
  on_request-StaysBusy (Operation.lock true) m r c b k =
      Ensures-map (on_read_lock_request g m.cycle r c) (λ d h. inl (h.0, h.1.0))
        (on_read_lock_request-IsBusy g m.cycle r c b)
  on_request-StaysBusy (Operation.lock false) m r c b k =
      Ensures-map (on_write_lock_request g m.cycle r c) (λ d h. inl (h.0, h.1.0))
        (on_write_lock_request-IsBusy g m.cycle r c b)
  on_request-StaysBusy Operation.unlock m r c b k =
      elim (on_unlock_request_cases g m.cycle r c b k) [
        | inl e ↦ rw e (inr (ground arith))
        | inr (d, l, e, q, h, f) ↦ rw e (inl (ground arith))
      ]
  on_request-StaysBusy Operation.unset m r c b k = tt

  on_content-StaysIdle :
      (x : Content) (m : EgMsg) (c : Component Program)
      → IsIdle g c
      → ContentConforms g x c
      → Ensures (StaysIdle c) (on_content g x m c)
  unfolding on_content
  on_content-StaysIdle (Content.request r) m c b k = on_request-StaysIdle r.operation m r c b k
  on_content-StaysIdle _ m c b k = (b, refl, λ h. h)

  on_content-StaysBusy :
      (x : Content) (m : EgMsg) (c : Component Program)
      → IsBusy g c
      → ContentConforms g x c
      → Ensures (StaysBusy c) (on_content g x m c)
  unfolding on_content
  on_content-StaysBusy (Content.request r) m c b k = on_request-StaysBusy r.operation m r c b k
  on_content-StaysBusy _ m c b k = inl (b, refl)

  server_message-StaysIdle :
      (m : Message) (c : Component Program)
      → IsIdle g c
      → Conforms g m c
      → Ensures (λ x. StaysIdle c x.0) (server_message g m c)
  unfolding server_message
  server_message-StaysIdle (Message.eg_msg m) c b k =
      ground (arith, on_content-StaysIdle m.content m c b k)
  server_message-StaysIdle _ c b k = (b, refl, λ h. h)

  server_message-StaysBusy :
      (m : Message) (c : Component Program)
      → IsBusy g c
      → Conforms g m c
      → Ensures (λ x. StaysBusy c x.0) (server_message g m c)
  unfolding server_message
  server_message-StaysBusy (Message.eg_msg m) c b k =
      ground (arith, on_content-StaysBusy m.content m c b k)
  server_message-StaysBusy _ c b k = inl (b, refl)

  -- By `blocked`, `posted` and `current_lock_released`.
  abbrev pub Agrees : Bool → Bool → Bool → Component Program → Type 0
  Agrees false false _ c = IsIdle g c
  Agrees false true _ c = ⊥
  Agrees true true released c = IsIdle g c × (released ≡ false) × (c.current_lock ≢ none)
  Agrees true false false c = IsBusy g c
  Agrees true false true c = IsIdle g c

  abbrev pub Inv : System Program → Type 0
  Inv s = Agrees s.blocked s.posted s.component.current_lock_released s.component

  receives-Agrees :
      (bl po re : Bool) (m : Message) (c : Component Program)
      → c.current_lock_released ≡ re
      → Agrees bl po re c
      → Conforms g m c
      → Ensures (λ x. Agrees bl po x.0.current_lock_released x.0) (server_message g m c)
  receives-Agrees false false re m c e v k =
      Ensures-map (server_message g m c) (λ x h. h.0) (server_message-StaysIdle m c v k)
  receives-Agrees false true re m c e v k = absurd v
  receives-Agrees true true re m c e v k =
      Ensures-map (server_message g m c) (λ x h. (h.0, h.1 ∙ (e ∙ v.1), h.2 v.2))
        (server_message-StaysIdle m c v.0 k)
  receives-Agrees true false false m c e v k =
      Ensures-map (server_message g m c) (λ x h. busy x.0 h) (server_message-StaysBusy m c v k)
    where
      busy : (d : Component Program) → StaysBusy c d → Agrees true false d.current_lock_released d
      busy d (inl h) = rw (h.1 ∙ e) h.0
      busy d (inr h) = rw h.1 h.0
  receives-Agrees true false true m c e v k =
      Ensures-map (server_message g m c) (λ x h. rw (h.1 ∙ e) h.0)
        (server_message-StaysIdle m c v k)

  started_at :
      (c : Component Program) (l : SimulationLock)
      → c.current_lock ≡ some l
      → simulation_lock_started g c ≡ start_waiting g l c
  unfolding simulation_lock_started
  started_at c l q = ground arith

  -- The start of the lock, where it is posted, is not refused.
  pub starts-IsBusy :
      (bl re : Bool) (c : Component Program)
      → c.current_lock_released ≡ re
      → Agrees bl true re c
      → (d : Component Program) × (simulation_lock_started g c ≡ ok d)
        × (bl ≡ true)
        × (d.current_lock_released ≡ false)
        × IsBusy g d
  starts-IsBusy false re c e v = absurd v
  starts-IsBusy true re c e v = elim (Option-cases c.current_lock) [
    | inl n ↦ absurd (v.2 n)
    | inr (l, q) ↦
        let (d, l', x, y, h, f) =
          start_waiting-StartsHeld g l c (ground arith) (ground arith) (ground arith) in
        (d, started_at c l q ∙ x, refl, f.1 ∙ (e ∙ v.1), ground arith)
  ]

  begins-Inv :
      (po re : Bool) (s : System Program)
      → s.blocked ≡ false
      → s.posted ≡ po
      → Agrees false po re s.component
      → Inv (begin_cycle g s)
  unfolding begin_cycle
  begins-Inv true re s e q v = absurd v
  begins-Inv false re s e q v = elim (Option-cases s.component.current_lock) [
    | inl n ↦ ground arith
    | inr (l, n) ↦ ground arith
  ]

  ends-Inv :
      (po : Bool) (s : System Program)
      → s.posted ≡ po
      → Agrees true po true s.component
      → Inv (end_cycle g s)
  unfolding end_cycle
  ends-Inv true s q v = ground arith
  ends-Inv false s q v = ground arith

  -- The invariant at the values that the three flags have.
  pub Inv-at :
      (s : System Program) {bl po re : Bool}
      → Inv s
      → s.blocked ≡ bl
      → s.posted ≡ po
      → s.component.current_lock_released ≡ re
      → Agrees bl po re s.component
  Inv-at s {bl} {po} {re} v b p r =
      subst (λ x. Agrees bl po x s.component) r
        (subst (λ x. Agrees bl x s.component.current_lock_released s.component) p
          (subst (λ x. Agrees x s.posted s.component.current_lock_released s.component) b v))

  loads-Agrees :
      (po re : Bool) (c : Component Program) (p : Option Program)
      → Agrees false po re c
      → Agrees false po re (record c { program = p })
  loads-Agrees true re c p v = v
  loads-Agrees false re c p v = v

  posted-Inv :
      (s : System Program) (c : Component Program)
      → Inv s
      → s.posted ≡ true
      → simulation_lock_started g s.component ≡ ok c
      → (s.blocked ≡ true) × (c.current_lock_released ≡ false) × IsBusy g c
  posted-Inv s c v q o =
      let (d, x, b, r, h) =
        starts-IsBusy s.blocked s.component.current_lock_released s.component refl
          (Inv-at s v refl q refl) in
      let same : d ≡ c = cc in
      subst (λ y. (s.blocked ≡ true) × (y.current_lock_released ≡ false) × IsBusy g y) same
        (b, r, h)

  Step-Inv : {s t : System Program} → Step g s t → Inv s → Inv t
  Step-Inv {s} (begins b e) v =
      rw e (begins-Inv s.posted s.component.current_lock_released s b refl (Inv-at s v b refl refl))
  Step-Inv {s} (ends b r e) v = rw e (ends-Inv s.posted s refl (Inv-at s v b refl r))
  Step-Inv {s} (loads p b e) v =
      rw (e, b)
        (loads-Agrees s.posted s.component.current_lock_released s.component p
          (Inv-at s v b refl refl))
  Step-Inv {s} (starts c q o e) v = let (b, r, h) = posted-Inv s c v q o in rw (e, b, r) h
  Step-Inv {s} (receives m c h k o e) v = rw e (
      subst (Ensures (λ x. Agrees s.blocked s.posted x.0.current_lock_released x.0)) o (
        receives-Agrees s.blocked s.posted s.component.current_lock_released m s.component refl v
          k))

  initial-Inv : Inv (initial g)
  unfolding initial
  initial-Inv = (tt, tt)

  pub Reach-Inv : {s : System Program} → Reach g (initial g) s → Inv s
  Reach-Inv here = initial-Inv
  Reach-Inv (next r st) = Step-Inv st (Reach-Inv r)
