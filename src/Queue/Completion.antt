-- ===== src/Queue/Completion.antt =====
-- In which order activities are started, and which activities hear of a completion.
use megastructure.Common.{
  ℕ, ◌≡◌, ◌∙◌, sym, ap, subst, inl, inr, Bool, false, ◌||◌, List, [], ◌∷◌, ◌++◌, some, ◌==◌, arith,
  ok, Option-cases, List-cases, ==_refl,
}
use mathlib.Core.List.{append_assoc, append-nil}
use megastructure.Queue.Activities.{
  Behaviour, Queue, on_start_activity, complete, start_pending, on_activity_complete, for_each,
  Post, starts, completes, step, run, new_queue,
}

-- The activities that a list of posts asks to start, in order.
abbrev pub requested : List Post → List ℕ
requested [] = []
requested (starts a ∷ ps) = a ∷ requested ps
requested (completes a ∷ ps) = requested ps

-- A world that records which activities are started, over any classes of activities.
abbrev pub recording : (ℕ → ℕ) → (ℕ → Bool) → Behaviour (List ℕ)
recording kind is_exclusive = record {
  kind = kind;
  is_exclusive = is_exclusive;
  keep_alive = λ a w. w;
  start = λ a w. w ++ (a ∷ []);
  activity_complete = λ a c w. (w, false);
  simulation_lock_started = λ a w. w;
}

module _ (kind : ℕ → ℕ) (is_exclusive : ℕ → Bool) where
  start_recorded :
      (a : ℕ) (q : Queue (List ℕ))
      → (let r = on_start_activity (recording kind is_exclusive) a q in r.world ++ r.pending)
        ≡ (q.world ++ q.pending) ++ (a ∷ [])
  unfolding on_start_activity
  start_recorded a q = elim (List-cases q.pending) [
    | inl e ↦ ground (arith, append-nil q.world, append-nil (q.world ++ (a ∷ [])))
    | inr (p, rest, e) ↦ ground (arith, append_assoc q.world q.pending (a ∷ []))
  ]

  start_pending_recorded :
      (q : Queue (List ℕ))
      → (let r = start_pending (recording kind is_exclusive) q in r.world ++ r.pending)
        ≡ q.world ++ q.pending
  unfolding start_pending
  start_pending_recorded q = elim (List-cases q.pending) [
    | inl e ↦ ground arith
    | inr (a, rest, e) ↦ ground (arith, append_assoc q.world (a ∷ []) rest)
  ]

  complete_recorded :
      (a : ℕ) (xs : List ℕ) (w : List ℕ) (ys v : List ℕ)
      → complete (recording kind is_exclusive) a xs w ≡ some (ys, v)
      → v ≡ w
  unfolding complete
  complete_recorded a [] w ys v e = ground arith
  complete_recorded a (x ∷ xs) w ys v e =
      elim (Option-cases (complete (recording kind is_exclusive) a xs w)) [
        | inl n ↦ ground arith
        | inr ((zs, u), n) ↦ ground (arith, complete_recorded a xs w zs u n)
      ]

  run_recorded :
      (ps : List Post) (q r : Queue (List ℕ))
      → run (recording kind is_exclusive) ps q ≡ ok r
      → r.world ++ r.pending ≡ (q.world ++ q.pending) ++ requested ps
  unfolding run step on_activity_complete
  run_recorded [] q r e =
      let same : q ≡ r = cc in
      subst (λ x. x.world ++ x.pending ≡ (q.world ++ q.pending) ++ []) same
        (sym (append-nil (q.world ++ q.pending)))
  run_recorded (starts a ∷ ps) q r e =
      run_recorded ps (on_start_activity (recording kind is_exclusive) a q) r e
      ∙ (ap (λ x. x ++ requested ps) (start_recorded a q)
          ∙ append_assoc (q.world ++ q.pending) (a ∷ []) (requested ps))
  run_recorded (completes a ∷ ps) q r e =
      elim (Option-cases (complete (recording kind is_exclusive) a q.active q.world)) [
        | inl n ↦ absurd (ground arith)
        | inr ((ys, v), n) ↦
            let s : Queue (List ℕ) = record q { active = ys; world = v } in
            let rest : run (recording kind is_exclusive) ps
                  (start_pending (recording kind is_exclusive) s)
                ≡ ok r =
              ground arith in
            run_recorded ps (start_pending (recording kind is_exclusive) s) r rest
            ∙ ap (λ x. x ++ requested ps)
                (start_pending_recorded s
                  ∙ ap (λ x. x ++ q.pending) (complete_recorded a q.active q.world ys v n))
      ]

  -- Whatever is posted to a new queue: the activities that were started and then those that are
  -- pending are, in order, the activities that were asked for. None is lost, started twice or
  -- overtaken, whatever their classes.
  pub run_fifo :
      (ps : List Post) (q : Queue (List ℕ))
      → run (recording kind is_exclusive) ps (new_queue []) ≡ ok q
      → q.world ++ q.pending ≡ requested ps
  unfolding new_queue
  run_fifo ps q e = run_recorded ps (new_queue []) q e

abbrev contains : ℕ → List ℕ → Bool
contains a [] = false
contains a (x ∷ xs) = x == a || contains a xs

-- When an active activity completes, it leaves the queue, and exactly the activities that were
-- started before it hear of it, each once and whatever they answer. Those after it never do.
pub complete_notifies_before :
    {W : Type 0} (b : Behaviour W) (a : ℕ) (before after : List ℕ) (w : W)
    → contains a before ≡ false
    → complete b a (before ++ (a ∷ after)) w
      ≡ some (before ++ after, for_each b (λ i v. (b.activity_complete i a v).0) before w)
unfolding complete for_each
complete_notifies_before b a [] after w h = ground (arith, ==_refl a)
complete_notifies_before b a (x ∷ before) after w h =
    ground (arith, complete_notifies_before b a before after (b.activity_complete x a w).0)
