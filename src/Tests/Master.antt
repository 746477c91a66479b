-- ===== src/Tests/Master.antt =====
-- A master with two clients: a contest for a name, and the load of a program and a configuration.
use megastructure.Common.{
  ℕ, ◌≡◌, ◌≢◌, refl, String, Bool, true, false, [], ◌∷◌, Option, none, some, ok,
}
use megastructure.Protocol.{Config, ConfigStep, Message}
use megastructure.Address.Tree.{Elements}
use megastructure.Master.Clients.{ClientIdMap}
use megastructure.Master.Clients
use megastructure.Master.State.{Master}
use megastructure.Queue.{completes}
use megastructure.Master.Enroll.{Enroller}
use megastructure.Master.Gather.{Gather, load_program_client_message, load_program_start}
use megastructure.Master.Answers.{contains, load_program_answers, load_program_completes}
use megastructure.Master.Asking.{requests, load_program_asks}

abbrev busy : Master
busy = record {
  clients = ("one", 11) ∷ ("two", 12) ∷ [];
  active_program_name = "program";
  network_address_table = none;
  sent = [];
  posted = [];
}

abbrev idle_tests : Enroller
idle_tests = record { tests_map = [] }

-- Both clients are waited for, and client 12 answers twice before client 11.
abbrev both_waited : Gather
both_waited = record { client_ids = 11 ∷ 12 ∷ []; client_failed = false }

abbrev loaded : Config
loaded = Config.load (ConfigStep.sms true)

abbrev no_database : String → Option (Option Elements)
no_database program = some none

load_program_completes_example :
    ((load_program_answers no_database 6 "next" ((12, false) ∷ []) busy both_waited).0 ≡ busy)
    × ((load_program_client_message no_database 6 "next" 11
          (Message.sms_load true)
          (load_program_answers no_database 6 "next" ((12, false) ∷ []) busy both_waited).0
          (load_program_answers no_database 6 "next" ((12, false) ∷ []) busy both_waited).1).0.0
        ≡ record busy { active_program_name = "next"; posted = completes 6 ∷ [] })
load_program_completes_example =
    load_program_completes no_database 6 11 "next" true ((12, false) ∷ []) busy both_waited refl
      refl refl

abbrev nobody : Gather
nobody = record { client_ids = []; client_failed = false }

abbrev all_ids : ℕ → Bool
all_ids id = true

some_clients : busy.clients ≢ []
some_clients = λ e. cc

load_program_asks_example :
    (s' : Master) × (g' : Gather) × (load_program_start all_ids 6 "next" busy nobody ≡ ok (s', g'))
    × (s' ≡ record busy { sent = requests (Message.msq_load "next") busy.clients })
    × (contains 12 g'.client_ids ≡ true)
load_program_asks_example = load_program_asks 6 12 "next" busy nobody some_clients
