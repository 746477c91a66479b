-- ===== src/Slave/Missing.antt =====
-- The load of a program whose project tree cannot be made.
use megastructure.Common.{
  ℕ, ◌≡◌, refl, Bool, true, false, [], ◌∷◌, ◌++◌, Option, none, some, String, ◌==◌, ◌+◌, eq_iff,
  arith, Result, ok, throws, ap, ◌∙◌, ◌>>=◌, ==_refl,
}
use megastructure.Protocol.{Message}
use megastructure.Queue.{starts, completes}
use megastructure.Slave.Route.{Sent, to_master}
use megastructure.Slave.Load.{TestHosts, LoadHosts}
use megastructure.Slave.Program.{load_hosts_start}
use megastructure.Slave.State.{SlaveState, post, new_activity}
use megastructure.Slave.Commands.{
  LoadProgram, load_program_server_message, load_program_activity_complete,
}
use megastructure.Slave.Loading.{loading, new_loads, answered, complete_load, send_answer}

-- The result of a handler of the load command.
abbrev pub Handled : Type 0
Handled = Result ((LoadProgram × SlaveState) × Bool)

-- The load of the hosts that the command has made, the activity `b`, starts without a project tree
-- and completes.
abbrev pub start_and_complete :
    (Sent → Bool) → (String → Result String) → ℕ → LoadHosts → LoadProgram → SlaveState → Handled
start_and_complete delivers process_of b loads l s =
    load_hosts_start process_of b none loads s >>= λ started.
    load_program_activity_complete delivers b (some started.1) l started.2

-- What is left of a load once the command has made its activities: the completion of the test of
-- the hosts, and the load of the hosts without a project tree.
abbrev pub load_made :
    (Sent → Bool)
    → (String → Result String)
    → (SlaveState → SlaveState)
    → ℕ
    → (LoadProgram × SlaveState) × Option (TestHosts × LoadHosts)
    → Handled
load_made delivers process_of tested test (r, none) = throws
load_made delivers process_of tested test (r, some (tests, loads)) =
    load_program_activity_complete delivers test none r.0 (tested r.1) >>= λ q.
    start_and_complete delivers process_of (test + 1) loads q.0.0 q.0.1

-- The load command and what follows, where `tested` says what the test of the hosts does to the
-- slave.
abbrev pub load_without_tree :
    (Sent → Bool)
    → (String → Result String)
    → (SlaveState → SlaveState)
    → String
    → LoadProgram
    → SlaveState
    → Handled
load_without_tree delivers process_of tested program l s =
    load_made delivers process_of tested s.next_activity
      (load_program_server_message delivers (Message.msq_load program) l s).0

-- The slave once the command has made its two activities.
abbrev pub commanded : SlaveState → SlaveState
commanded s = record s {
  posted = s.posted ++ (starts s.next_activity ∷ []);
  next_activity = (s.next_activity + 1) + 1;
}

command_makes :
    (delivers : Sent → Bool) (program : String) (l : LoadProgram) (s : SlaveState)
    → l.currently_loading_program_name ≡ ""
    → (load_program_server_message delivers (Message.msq_load program) l s).0 ≡ (
      (loading program s.next_activity (s.next_activity + 1), commanded s),
      some (record { activities = [] }, new_loads program),
    )
unfolding load_program_server_message new_activity post
command_makes delivers program l s idle =
    rw ((eq_iff l.currently_loading_program_name "").1 idle) refl

test_completes :
    (delivers : Sent → Bool) (program : String) (test load : ℕ) (s : SlaveState)
    → load_program_activity_complete delivers test none (loading program test load) s
      ≡ ok ((loading program test load, post (starts load) s), true)
unfolding load_program_activity_complete
test_completes delivers program test load s = let self = ==_refl test in ground arith

completes_with_success :
    (delivers : Sent → Bool) (process_of : String → Result String) (program : String)
    (test load : ℕ) (s : SlaveState)
    → (test == load) ≡ false
    → delivers (to_master (Message.sms_load true)) ≡ true
    → start_and_complete delivers process_of load (new_loads program) (loading program test load) s
      ≡ ok (
        (
          loading "" test load,
          answered true (record (post (completes load) s) { active_program_name = program }),
        ),
        true,
      )
unfolding load_hosts_start
completes_with_success delivers process_of program test load s differ sent =
    complete_load delivers program test load (new_loads program) (post (completes load) s) differ
    ∙ ap (λ (r : SlaveState). ok ((loading "" test load, r), true))
        (send_answer delivers true
          (record (post (completes load) s) { active_program_name = program }) sent)

-- A project tree that cannot be made does not fail the load: a slave that loads nothing is asked to
-- load a program and tests its hosts; the load of the hosts that the command has made then completes
-- without asking any host, the program becomes the active one, and, if the send is delivered, the
-- master is answered with success.
pub missing_tree_succeeds :
    (delivers : Sent → Bool) (process_of : String → Result String)
    (tested : SlaveState → SlaveState) (program : String) (l : LoadProgram) (s : SlaveState)
    → l.currently_loading_program_name ≡ ""
    → delivers (to_master (Message.sms_load true)) ≡ true
    → let u = tested (commanded s) in
      load_without_tree delivers process_of tested program l s
      ≡ ok (
        (
          loading "" s.next_activity (s.next_activity + 1),
          record u {
            active_program_name = program;
            slave = record u.slave {
              sent = u.slave.sent ++ (to_master (Message.sms_load true) ∷ []);
            };
            posted =
                (u.posted ++ (starts (s.next_activity + 1) ∷ []))
                ++ (completes (s.next_activity + 1) ∷ []);
          },
        ),
        true,
      )
unfolding post
missing_tree_succeeds delivers process_of tested program l s idle sent =
    let test = s.next_activity in
    let load = s.next_activity + 1 in
    let u = tested (commanded s) in
    ap (load_made delivers process_of tested test) (command_makes delivers program l s idle)
    ∙ (ap
          (λ (r : Handled).
            r >>= λ q. start_and_complete delivers process_of load (new_loads program) q.0.0 q.0.1)
          (test_completes delivers program test load u)
        ∙ completes_with_success delivers process_of program test load (post (starts load) u)
            (ground arith) sent)
