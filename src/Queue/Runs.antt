-- ===== src/Queue/Runs.antt =====
-- What holds of the activities over every sequence of posts.
use megastructure.Common.{
  ℕ, ◌+◌, ◌≤◌, ◌≡◌, refl, inl, inr, true, false, not, ◌||◌, List, [], ◌∷◌, ◌++◌, some, ◌==◌,
  if◌then◌else◌, arith, Result, ok, throws, List-cases, Result-cases, subst, Option-cases,
}
use megastructure.Queue.Activities.{
  Behaviour, Queue, has_kind, is_empty, precondition, on_start_activity, complete, start_pending,
  on_activity_complete, Post, starts, completes, step, run, new_queue,
}

module _ {W : Type 0} (b : Behaviour W) where
  open b use {kind, is_exclusive}

  abbrev pub of_kind : ℕ → List ℕ → ℕ
  of_kind k [] = 0
  of_kind k (a ∷ rest) = (if kind a == k then 1 else 0) + of_kind k rest

  of_kind-append : (k : ℕ) (xs ys : List ℕ) → of_kind k (xs ++ ys) ≡ of_kind k xs + of_kind k ys
  of_kind-append k [] ys = omega arith
  of_kind-append k (x ∷ xs) ys = ground (arith, of_kind-append k xs ys)

  of_kind-has_kind : (k : ℕ) (xs : List ℕ) → has_kind b k xs ≡ false → of_kind k xs ≡ 0
  of_kind-has_kind k [] h = refl
  of_kind-has_kind k (x ∷ xs) h = ground (arith, of_kind-has_kind k xs)

  of_kind-complete :
      (k a : ℕ) (xs ys : List ℕ) (w w' : W)
      → complete b a xs w ≡ some (ys, w')
      → of_kind k ys ≤ of_kind k xs
  unfolding complete
  of_kind-complete k a [] ys w w' e = ground arith
  of_kind-complete k a (x ∷ xs) ys w w' e =
      elim (Option-cases (complete b a xs (b.activity_complete x a w).0)) [
        | inl n ↦ ground arith
        | inr ((zs, v), n) ↦ ground (arith, of_kind-complete k a xs zs _ v n)
      ]

  -- Of an exclusive class at most one activity is active.
  abbrev pub IsExclusive : Queue W → Type 0
  IsExclusive q = (k : ℕ) → is_exclusive k ≡ true → of_kind k q.active ≤ 1

  -- No activity is pending while none is active.
  abbrev pub IsLive : Queue W → Type 0
  IsLive q = (is_empty q.pending || not (is_empty q.active)) ≡ true

  append-ne : (xs : List ℕ) (a : ℕ) → is_empty (xs ++ (a ∷ [])) ≡ false
  append-ne [] a = refl
  append-ne (x ∷ xs) a = refl

  precondition-nil : (a : ℕ) → precondition b a [] ≡ true
  unfolding precondition
  precondition-nil a = ground arith

  start-IsLive : (a : ℕ) (q : Queue W) → IsLive q → IsLive (on_start_activity b a q)
  unfolding on_start_activity
  start-IsLive a q h =
      ground (arith, append-ne q.active a, append-ne q.pending a, precondition-nil a)

  start_pending-IsLive : (q : Queue W) → IsLive (start_pending b q)
  unfolding start_pending
  start_pending-IsLive q = elim (List-cases q.pending) [
    | inl e ↦ ground arith
    | inr (a, rest, e) ↦
        ground (arith, append-ne q.active a, precondition-nil a, List-cases q.active)
  ]

  started-of_kind :
      (k a : ℕ) (active : List ℕ)
      → is_exclusive k ≡ true
      → precondition b a active ≡ true
      → of_kind k active ≤ 1
      → of_kind k (active ++ (a ∷ [])) ≤ 1
  unfolding precondition
  started-of_kind k a active x p h =
      ground (arith, of_kind-append k active (a ∷ []), of_kind-has_kind k active)

  start-IsExclusive : (a : ℕ) (q : Queue W) → IsExclusive q → IsExclusive (on_start_activity b a q)
  unfolding on_start_activity
  start-IsExclusive a q h k x = ground (arith, h k x, started-of_kind k a q.active x)

  start_pending-IsExclusive : (q : Queue W) → IsExclusive q → IsExclusive (start_pending b q)
  unfolding start_pending
  start_pending-IsExclusive q h k x = elim (List-cases q.pending) [
    | inl e ↦ ground (arith, h k x)
    | inr (a, rest, e) ↦ ground (arith, h k x, started-of_kind k a q.active x)
  ]

  abbrev Ensures : (Queue W → Type 0) → Result (Queue W) → Type 0
  Ensures P (ok q) = P q
  Ensures P throws = Unit {0}

  complete-IsSound :
      (a : ℕ) (q : Queue W)
      → IsExclusive q
      → Ensures (λ r. IsLive r × IsExclusive r) (on_activity_complete b a q)
  unfolding on_activity_complete
  complete-IsSound a q h = elim (Option-cases (complete b a q.active q.world)) [
    | inl e ↦ rw (e, on_activity_complete) tt
    | inr ((ys, w), e) ↦
        let r : Queue W = record q { active = ys; world = w } in
        rw (e, on_activity_complete)
          (
            start_pending-IsLive r,
            start_pending-IsExclusive r
                (λ k x. omega (arith, h k x, of_kind-complete k a q.active ys q.world w e)),
          )
  ]

  step-IsSound :
      (p : Post) (q : Queue W)
      → IsLive q × IsExclusive q
      → Ensures (λ r. IsLive r × IsExclusive r) (step b p q)
  unfolding step
  step-IsSound (starts a) q h = (start-IsLive a q h.0, start-IsExclusive a q h.1)
  step-IsSound (completes a) q h = complete-IsSound a q h.1

  run-IsSound :
      (ps : List Post) (q r : Queue W)
      → IsLive q × IsExclusive q
      → run b ps q ≡ ok r
      → IsLive r × IsExclusive r
  unfolding run
  run-IsSound [] q r h e = let same : q ≡ r = cc in subst (λ x. IsLive x × IsExclusive x) same h
  run-IsSound (p ∷ ps) q r h e = elim (Result-cases (step b p q)) [
    | inl m ↦ ground arith
    | inr (t, m) ↦
        run-IsSound ps t r (subst (Ensures (λ x. IsLive x × IsExclusive x)) m (step-IsSound p q h))
          (ground arith)
  ]

  -- Whatever is posted to a new queue: an activity is pending only while another is active.
  pub run_new-IsLive :
      (ps : List Post) (w : W) (q : Queue W) → run b ps (new_queue w) ≡ ok q → IsLive q
  unfolding new_queue
  run_new-IsLive ps w q e = (run-IsSound ps (new_queue w) q (refl, λ k x. omega arith) e).0

  -- Whatever is posted to a new queue: of each class that derives from ExclusiveActivity at most
  -- one activity is active.
  pub run_new-at_most_one :
      (ps : List Post) (w : W) (q : Queue W) (k : ℕ)
      → run b ps (new_queue w) ≡ ok q
      → is_exclusive k ≡ true
      → of_kind k q.active ≤ 1
  unfolding new_queue
  run_new-at_most_one ps w q k e x =
      (run-IsSound ps (new_queue w) q (refl, λ k x. omega arith) e).1 k x
