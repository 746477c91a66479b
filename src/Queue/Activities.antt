-- ===== src/Queue/Activities.antt =====
-- The handlers of class Queue. They run one after the other on the queue's thread. An exception of
-- an activity is printed and ends the process, so the functions of activities return here.
use megastructure.Common.{
  ℕ, Bool, true, false, not, ◌&&◌, ◌||◌, List, [], ◌∷◌, ◌++◌, Option, none, some, ◌==◌,
  if◌then◌else◌, Result, ok, throws,
}

-- An activity is known by a number, its shared pointer. `kind` is its class, and `is_exclusive` says
-- of a class whether it derives from ExclusiveActivity. The other fields are the virtual functions;
-- `W` is what they change: the queue's owner and the activities' own fields. What they post to
-- the queue is handled later, by further calls of the handlers below.
pub record Behaviour (W : Type 0) : Type 0 where
  pub kind : ℕ → ℕ
  pub is_exclusive : ℕ → Bool
  pub keep_alive : ℕ → W → W
  pub start : ℕ → W → W
  pub activity_complete : ℕ → ℕ → W → W × Bool
  pub simulation_lock_started : ℕ → W → W

pub record Queue (W : Type 0) : Type 0 where
  pub active : List ℕ
  pub pending : List ℕ
  pub world : W

abbrev pub is_empty : List ℕ → Bool
is_empty [] = true
is_empty (a ∷ rest) = false

module _ {W : Type 0} where
  -- The loop of OnServerMessage, OnClientMessage and OnJobComplete: `handle` is the virtual
  -- function that is called, and its result says whether the message was consumed. Its `break`
  -- stands inside DO_STUFF_AND_REQUIRE_SEMI_COLON, a macro of the common library of eg, and
  -- `break_leaves` says whether a `break` there leaves the loop around it.
  unfoldable pub deliver : Bool → (ℕ → W → W × Bool) → List ℕ → W → W
  deliver break_leaves handle [] w = w
  deliver break_leaves handle (a ∷ rest) w =
      let (w', consumed) = handle a w in
      let rest_w = deliver break_leaves handle rest w' in
      if consumed && break_leaves then w' else rest_w

module _ {W : Type 0} (b : Behaviour W) where
  open b use {kind, is_exclusive, keep_alive, start, activity_complete, simulation_lock_started}

  abbrev pub has_kind : ℕ → List ℕ → Bool
  has_kind k [] = false
  has_kind k (a ∷ rest) = kind a == k || has_kind k rest

  -- Activity::precondition and ExclusiveActivity::precondition
  unfoldable pub precondition : ℕ → List ℕ → Bool
  precondition a active = if is_exclusive (kind a) then not (has_kind (kind a) active) else true

  unfoldable pub on_start_activity : ℕ → Queue W → Queue W
  unfolding precondition
  on_start_activity a q =
      if is_empty q.pending && precondition a q.active
      then record q { active = q.active ++ (a ∷ []); world = start a q.world }
      else record q { pending = q.pending ++ (a ∷ []) }

  -- The loop of OnKeepAlive and of OnSimulationLockStarted.
  unfoldable pub for_each : (ℕ → W → W) → List ℕ → W → W
  for_each call [] w = w
  for_each call (a ∷ rest) w = for_each call rest (call a w)

  unfoldable pub on_keep_alive : Queue W → Queue W
  unfolding for_each
  on_keep_alive q = record q { world = for_each keep_alive q.active q.world }

  unfoldable pub on_simulation_lock_started : Queue W → Queue W
  unfolding for_each
  on_simulation_lock_started q = record q {
    world = for_each simulation_lock_started q.active q.world;
  }

  -- The loop of OnActivityComplete, which tells the activities before `a` that `a` is complete and
  -- erases `a`. What an activity returns matters only once `a` was found, and then the loop has
  -- ended. `none` if `a` was not found.
  unfoldable pub complete : ℕ → List ℕ → W → Option (List ℕ × W)
  complete a [] w = none
  complete a (i ∷ rest) w = elim (i == a) [
    | true ↦ some (rest, w)
    | false ↦ elim (complete a rest (activity_complete i a w).0) [
      | none ↦ none
      | some (rest', w') ↦ some (i ∷ rest', w')
    ]
  ]

  -- The first pending activity is started if its precondition holds.
  unfoldable pub start_pending : Queue W → Queue W
  unfolding precondition
  start_pending q = elim q.pending [
    | [] ↦ q
    | first ∷ rest ↦
        if precondition first q.active
        then record {
          active = q.active ++ (first ∷ []);
          pending = rest;
          world = start first q.world;
        }
        else q
  ]

  unfoldable pub on_activity_complete : ℕ → Queue W → Result (Queue W)
  unfolding complete start_pending
  on_activity_complete a q = elim (complete a q.active q.world) [
    | none ↦ throws
    | some (active, world) ↦ ok (start_pending (record q { active = active; world = world }))
  ]

-- What is posted to the queue about activities.
pub data Post : Type 0 where
  starts : ℕ → Post
  completes : ℕ → Post

module _ {W : Type 0} (b : Behaviour W) where
  unfoldable pub step : Post → Queue W → Result (Queue W)
  unfolding on_start_activity on_activity_complete
  step (starts a) q = ok (on_start_activity b a q)
  step (completes a) q = on_activity_complete b a q

  unfoldable pub run : List Post → Queue W → Result (Queue W)
  unfolding step
  run [] q = ok q
  run (p ∷ ps) q = elim (step p q) [ ok q' ↦ run ps q' | throws ↦ throws ]

unfoldable pub new_queue : {W : Type 0} → W → Queue W
new_queue w = record { active = []; pending = []; world = w }
