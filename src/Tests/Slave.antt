-- ===== src/Tests/Slave.antt =====
-- A slave that is asked for a buffer twice and loads a program on two hosts.
use megastructure.Common.{
  ℕ, ◌≡◌, refl, Bool, true, false, List, [], ◌∷◌, none, some, String, eq_iff, arith, Result, ok,
  throws,
}
use megastructure.Protocol.{Message}
use megastructure.Queue.{starts, completes}
use megastructure.Slave.Hosts.{Host}
use megastructure.Slave.Route.{Sent, to_master}
use megastructure.Slave.Shared.{
  BufferRequest, get_shared_buffer_name, request_all, get_shared_buffer_name_lem,
}
use megastructure.Slave.State.{SlaveState, post}
use megastructure.Slave.Load.{LoadHost, LoadHosts, erase_activity}
use megastructure.Slave.Commands.{LoadProgram}
use megastructure.Slave.Loads.{complete_all, load_hosts_completes, AnsweredBy}
use megastructure.Slave.Loading.{loading, lifecycle, load_program_lifecycle}
use megastructure.Slave.Missing.{load_without_tree, missing_tree_succeeds}

abbrev others : List BufferRequest
others =
    record { unique = "u2"; name = "other"; size = 16 }
    ∷ record { unique = "u3"; name = "shared"; size = 8 }
    ∷ []

other_name : ◌≡◌ {A = String} "other" "shared" → ◌≡◌ {A = ℕ} 16 8
other_name e = let same = (eq_iff "other" "shared").1 e in absurd (ground arith)

same_size : ◌≡◌ {A = String} "shared" "shared" → ◌≡◌ {A = ℕ} 8 8
same_size e = refl

get_shared_buffer_name_lem_example :
    get_shared_buffer_name "u4" "shared" 8
      (request_all others (get_shared_buffer_name "u1" "shared" 8 []).1)
    ≡ (
      (get_shared_buffer_name "u1" "shared" 8 []).0,
      request_all others (get_shared_buffer_name "u1" "shared" 8 []).1,
    )
get_shared_buffer_name_lem_example =
    get_shared_buffer_name_lem "u1" "u4" "shared" 8 others [] (other_name, (same_size, tt))

abbrev host : Host
host = record { process_name = "basic"; unique_id = "a"; mega_client_id = 21; eg_client_id = 31 }

abbrev load : Bool → LoadHost
load success = record { host = host; host_name = "h"; program_name = "p"; success = success }

abbrev idle : SlaveState
idle = record {
  slave = record {
    hosts = record { process_name_map = []; hostname_mapping = [] };
    nat_requests = none;
    sent = [];
  };
  name = "one";
  workspace = "/w";
  active_program_name = "old";
  enrollment = some true;
  shared_buffers = [];
  posted = [];
  next_activity = 20;
}

abbrev two_loads : LoadHosts
two_loads = record { program_name = "p"; load_activities = 8 ∷ 9 ∷ []; success = true }

in_other_order : AnsweredBy ((9, load true) ∷ (8, load false) ∷ []) two_loads.load_activities
unfolding erase_activity
in_other_order = (refl, (refl, refl))

load_hosts_completes_example :
    complete_all 7 ((9, load true) ∷ (8, load false) ∷ []) two_loads idle
    ≡ (record two_loads { load_activities = []; success = false }, post (completes 7) idle)
load_hosts_completes_example =
    load_hosts_completes 7 9 (load true) ((8, load false) ∷ []) two_loads idle in_other_order

abbrev all_delivered : Sent → Bool
all_delivered message = true

abbrev no_load : LoadProgram
no_load = record { currently_loading_program_name = ""; test_hosts = none; load_hosts = none }

all_answers : (success : Bool) → all_delivered (to_master (Message.sms_load success)) ≡ true
all_answers success = refl

load_program_lifecycle_example :
    lifecycle all_delivered "p" ("q" ∷ []) two_loads no_load idle
    ≡ ok (
      (
        loading "" 20 21,
        record idle {
          active_program_name = "p";
          slave = record idle.slave {
            sent = to_master (Message.sms_load false) ∷ to_master (Message.sms_load true) ∷ [];
          };
          posted = starts 20 ∷ [];
          next_activity = 22;
        },
      ),
      true,
    )
load_program_lifecycle_example =
    load_program_lifecycle all_delivered "p" ("q" ∷ []) two_loads no_load idle refl refl all_answers

abbrev no_command : String → Result String
no_command command = throws

abbrev same_slave : SlaveState → SlaveState
same_slave s = s

missing_tree_succeeds_example :
    load_without_tree all_delivered no_command same_slave "p" no_load idle
    ≡ ok (
      (
        loading "" 20 21,
        record idle {
          active_program_name = "p";
          slave = record idle.slave { sent = to_master (Message.sms_load true) ∷ [] };
          posted = starts 20 ∷ starts 21 ∷ completes 21 ∷ [];
          next_activity = 22;
        },
      ),
      true,
    )
missing_tree_succeeds_example =
    missing_tree_succeeds all_delivered no_command same_slave "p" no_load idle refl refl
