-- ===== src/Tests/Queue.antt =====
-- Activities 0, 1 and 2, of which 0 and 1 are of the same exclusive class.
use megastructure.Common.{
  ℕ, ◌≡◌, ◌≤◌, refl, Bool, List, [], ◌∷◌, ◌++◌, some, ◌==◌, if◌then◌else◌, ok,
}
use megastructure.Queue.{
  Behaviour, Queue, precondition, on_start_activity, complete, start_pending, on_activity_complete,
  for_each, Post, starts, completes, step, run, new_queue,
}
use megastructure.Queue.Runs.{of_kind, IsLive, run_new-IsLive, run_new-at_most_one}
use megastructure.Queue.Completion.{recording, run_fifo, complete_notifies_before}

abbrev class_of : ℕ → ℕ
class_of a = if a == 2 then 1 else 0

abbrev first_class : ℕ → Bool
first_class k = k == 0

abbrev classes : Behaviour (List ℕ)
classes = recording class_of first_class

abbrev posts : List Post
posts = starts 0 ∷ starts 1 ∷ starts 2 ∷ completes 0 ∷ []

abbrev left : Queue (List ℕ)
left = record { active = 1 ∷ []; pending = 2 ∷ []; world = 0 ∷ 1 ∷ [] }

posts_run : run classes posts (new_queue []) ≡ ok left
unfolding run step on_start_activity precondition complete start_pending on_activity_complete
    new_queue
posts_run = refl

run_new-IsLive_example : IsLive classes left
run_new-IsLive_example = run_new-IsLive classes posts [] left posts_run

run_new-at_most_one_example : of_kind classes 0 (1 ∷ []) ≤ 1
run_new-at_most_one_example = run_new-at_most_one classes posts [] left 0 posts_run refl

run_fifo_example : ◌≡◌ {A = List ℕ} ((0 ∷ 1 ∷ []) ++ (2 ∷ [])) (0 ∷ 1 ∷ 2 ∷ [])
run_fifo_example = run_fifo class_of first_class posts left posts_run

complete_notifies_before_example :
    complete classes 1 (0 ∷ 1 ∷ 2 ∷ []) []
    ≡ some (0 ∷ 2 ∷ [], for_each classes (λ i v. (classes.activity_complete i 1 v).0) (0 ∷ []) [])
complete_notifies_before_example = complete_notifies_before classes 1 (0 ∷ []) (2 ∷ []) [] refl

-- Activity 1 consumes every message.
abbrev log : ℕ → List ℕ → List ℕ × Bool
log a w = (w ++ (a ∷ []), a == 1)
