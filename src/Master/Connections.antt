-- ===== src/Master/Connections.antt =====
-- TestClientsActivity of src/master/activities.cpp: the test command of the master, which tests all
-- clients.
use megastructure.Common.{ℕ, Bool, true, false, ◌||◌, List, [], ◌∷◌, ◌++◌, ◌+◌, ◌==◌, if◌then◌else◌}
use megastructure.Master.Clients.{ClientIdMap}
use megastructure.Master.Enroll.{TestClient}
use megastructure.Master.State.{Master, post}
use megastructure.Master.Gather.{is_empty}
use megastructure.Queue.{starts, completes}

-- `activities` has the numbers of the tests that have not completed.
pub record TestClients : Type 0 where
  pub activities : List ℕ

-- The tests that were made, each with its number.
abbrev pub MadeTests : Type 0
MadeTests = List (ℕ × TestClient)

-- The loop over the clients; `next` is the number of the next new activity.
unfoldable pub start_tests :
    ℕ → ClientIdMap → Master → TestClients → Master × TestClients × MadeTests
unfolding post
start_tests next [] s t = (s, t, [])
start_tests next ((name, id) ∷ rest) s t =
    let (s', t', made) =
      start_tests (next + 1) rest (post (starts next) s)
        (record { activities = t.activities ++ (next ∷ []) }) in
    (s', t', (next, record { client_id = id; slave_name = name; success = false }) ∷ made)

-- TestClientsActivity::start of the activity `a`.
unfoldable pub test_clients_start : ℕ → ℕ → Master → TestClients → Master × TestClients × MadeTests
unfolding start_tests post
test_clients_start a next s t =
    let (s', t', made) = start_tests next s.clients s t in
    (if is_empty t'.activities then post (completes a) s' else s', t', made)

abbrev pub has_test : ℕ → List ℕ → Bool
has_test b [] = false
has_test b (x ∷ xs) = (x == b) || has_test b xs

abbrev pub drop_test : ℕ → List ℕ → List ℕ
drop_test b [] = []
drop_test b (x ∷ xs) = let rest = drop_test b xs in if x == b then xs else x ∷ rest

-- TestClientsActivity::activityComplete of the activity `a` for the activity `b`.
unfoldable pub test_clients_activity_complete :
    ℕ → ℕ → Master → TestClients → (Master × TestClients) × Bool
unfolding post
test_clients_activity_complete a b s t =
    let left = drop_test b t.activities in
    if has_test b t.activities
    then ((if is_empty left then post (completes a) s else s, record { activities = left }), true)
    else ((s, t), false)
