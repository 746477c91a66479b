-- ===== src/Tests/Connections.antt =====
-- The test command of a master with three clients, of which one is not reached and one not alive.
use megastructure.Common.{ℕ, ◌≡◌, refl, Bool, [], ◌∷◌, none, ◌==◌, not}
use megastructure.Master.Clients.{get_client_id, remove_client, Distinct}
use megastructure.Master.State.{Master, post, send}
use megastructure.Master.State
use megastructure.Master.Enroll.{test_start, test_client_message, test_answer}
use megastructure.Master.Connections.{
  TestClients, start_tests, test_clients_start, test_clients_activity_complete,
}
use megastructure.Master.Dropping.{run_tests, keep_active, test_clients_drop_inactive}
use megastructure.Queue.{completes}

abbrev three : Master
three = record {
  clients = ("one", 11) ∷ ("two", 12) ∷ ("three", 13) ∷ [];
  active_program_name = "";
  network_address_table = none;
  sent = [];
  posted = [];
}

abbrev no_tests : TestClients
no_tests = record { activities = [] }

abbrev reached : ℕ → Bool
reached id = not (id == 11)

abbrev answering : ℕ → Bool
answering id = not (id == 12)

three-Distinct : Distinct three.clients
unfolding get_client_id
three-Distinct = (refl, (refl, (refl, tt)))

abbrev started : Master
started = (test_clients_start 1 2 three no_tests).0

test_clients_drop_inactive_example :
    get_client_id "two"
      (run_tests reached answering (test_clients_start 1 2 three no_tests).2 started).clients
    ≡ keep_active reached answering (get_client_id "two" three.clients)
test_clients_drop_inactive_example =
    test_clients_drop_inactive reached answering 1 2 three no_tests
      (test_clients_start 1 2 three no_tests).2 "two" three-Distinct (λ id e. e)

-- Only the third client is left.
left_clients :
    (run_tests reached answering (test_clients_start 1 2 three no_tests).2 started).clients
    ≡ (("three", 13) ∷ [])
unfolding test_clients_start start_tests post test_start test_client_message test_answer send
    remove_client State.remove_client
left_clients = refl

-- The command completes with the last of its tests.
last_test :
    (test_clients_activity_complete 1 4 three (record { activities = 4 ∷ [] })).0.0.posted
    ≡ (completes 1 ∷ [])
unfolding test_clients_activity_complete post
last_test = refl
