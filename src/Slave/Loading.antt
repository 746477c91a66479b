-- ===== src/Slave/Loading.antt =====
-- What a slave answers to the load of a program.
use megastructure.Common.{
  ℕ, ◌≡◌, refl, inl, inr, Bool, true, false, List, [], ◌∷◌, ◌++◌, some, String, ◌==◌, if◌then◌else◌,
  str_eq, eq_iff, Result, ok, ◌+◌, arith, Bool-cases, length, replicate, ==_refl, sym, ap, ◌∙◌,
}
use megastructure.Protocol.{Message}
use megastructure.Queue.{starts}
use megastructure.Slave.Route.{Sent, to_master}
use megastructure.Slave.Route
use megastructure.Slave.Load.{LoadHosts}
use megastructure.Slave.State.{SlaveState, post, new_activity, send_master}
use megastructure.Slave.Commands.{
  LoadProgram, load_program_server_message, load_program_activity_complete, finish_load,
}

-- The load command while it loads a program, and the load of the hosts that it has made.
abbrev pub loading : String → ℕ → ℕ → LoadProgram
loading program test load = record {
  currently_loading_program_name = program;
  test_hosts = some test;
  load_hosts = some load;
}

abbrev pub new_loads : String → LoadHosts
new_loads program = record { program_name = program; load_activities = []; success = true }

abbrev pub answered : Bool → SlaveState → SlaveState
answered success s = record s {
  slave = record s.slave { sent = s.slave.sent ++ (to_master (Message.sms_load success) ∷ []) };
}

pub send_answer :
    (delivers : Sent → Bool) (success : Bool) (s : SlaveState)
    → delivers (to_master (Message.sms_load success)) ≡ true
    → send_master delivers (Message.sms_load success) s ≡ answered success s
unfolding send_master Route.send_master
send_answer delivers success s e = rw (e) refl

-- The load of the hosts has completed.
pub complete_load :
    (delivers : Sent → Bool) (program : String) (test load : ℕ) (loads : LoadHosts) (s : SlaveState)
    → (test == load) ≡ false
    → load_program_activity_complete delivers load (some loads) (loading program test load) s
      ≡ ok (finish_load delivers loads (loading program test load) s, true)
unfolding load_program_activity_complete
complete_load delivers program test load loads s differ = let self = ==_refl load in ground arith

-- Load commands for these programs, one after the other.
abbrev pub load_commands :
    (Sent → Bool) → List String → LoadProgram → SlaveState → LoadProgram × SlaveState
load_commands delivers [] l s = (l, s)
load_commands delivers (program ∷ rest) l s =
    let (l', s') = (load_program_server_message delivers (Message.msq_load program) l s).0.0 in
    load_commands delivers rest l' s'

-- The same answer this often.
abbrev pub answers : ℕ → Bool → List Sent
answers n success = replicate n (to_master (Message.sms_load success))

command_while_loading :
    (delivers : Sent → Bool) (program : String) (l : LoadProgram) (s : SlaveState)
    → str_eq l.currently_loading_program_name "" ≡ false
    → delivers (to_master (Message.sms_load false)) ≡ true
    → (load_program_server_message delivers (Message.msq_load program) l s).0.0
      ≡ (l, answered false s)
unfolding load_program_server_message
command_while_loading delivers program l s busy sent =
    rw (busy) (ap (λ (r : SlaveState). (l, r)) (send_answer delivers false s sent))

append-replicate :
    (sent : List Sent) (n : ℕ) (x : Sent)
    → (sent ++ (x ∷ [])) ++ replicate n x ≡ sent ++ (x ∷ replicate n x)
append-replicate [] n x = refl
append-replicate (y ∷ sent) n x = ap (λ rest. y ∷ rest) (append-replicate sent n x)

append-nil : (sent : List Sent) → sent ++ [] ≡ sent
append-nil [] = refl
append-nil (y ∷ sent) = ap (λ rest. y ∷ rest) (append-nil sent)

-- While a program is loaded, every further load command is answered with failure and changes
-- nothing else.
load_commands_while_loading :
    (delivers : Sent → Bool) (programs : List String) (l : LoadProgram) (s : SlaveState)
    → str_eq l.currently_loading_program_name "" ≡ false
    → delivers (to_master (Message.sms_load false)) ≡ true
    → load_commands delivers programs l s ≡ (
      l,
      record s {
        slave = record s.slave { sent = s.slave.sent ++ answers (length programs) false };
      },
    )
load_commands_while_loading delivers [] l s busy sent =
    ap (λ (x : List Sent). (l, record s { slave = record s.slave { sent = x } }))
      (sym (append-nil s.slave.sent))
load_commands_while_loading delivers (p ∷ programs) l s busy sent =
    ap (λ (r : LoadProgram × SlaveState). load_commands delivers programs r.0 r.1)
      (command_while_loading delivers p l s busy sent)
    ∙ (load_commands_while_loading delivers programs l (answered false s) busy sent
        ∙ ap (λ (x : List Sent). (l, record s { slave = record s.slave { sent = x } }))
            (append-replicate s.slave.sent (length programs) (to_master (Message.sms_load false))))

-- What the slave has sent once the first command, the other commands and the load have passed.
abbrev pub lifecycle :
    (Sent → Bool)
    → String
    → List String
    → LoadHosts
    → LoadProgram
    → SlaveState
    → Result ((LoadProgram × SlaveState) × Bool)
lifecycle delivers program others loads l s =
    let (l', s') = (load_program_server_message delivers (Message.msq_load program) l s).0.0 in
    let (l'', s'') = load_commands delivers others l' s' in
    load_program_activity_complete delivers (s.next_activity + 1) (some loads) l'' s''

first_command :
    (delivers : Sent → Bool) (program : String) (l : LoadProgram) (s : SlaveState)
    → l.currently_loading_program_name ≡ ""
    → (load_program_server_message delivers (Message.msq_load program) l s).0.0 ≡ (
      loading program s.next_activity (s.next_activity + 1),
      record s {
        posted = s.posted ++ (starts s.next_activity ∷ []);
        next_activity = (s.next_activity + 1) + 1;
      },
    )
unfolding load_program_server_message new_activity post
first_command delivers program l s idle =
    rw ((eq_iff l.currently_loading_program_name "").1 idle) refl

finish_load-answered :
    (delivers : Sent → Bool) (program : String) (test load : ℕ) (loads : LoadHosts) (s : SlaveState)
    → ((success : Bool) → delivers (to_master (Message.sms_load success)) ≡ true)
    → finish_load delivers loads (loading program test load) s ≡ (
      loading "" test load,
      answered loads.success (record s {
        active_program_name = if loads.success then program else s.active_program_name;
      }),
    )
finish_load-answered delivers program test load loads s sent = elim (Bool-cases loads.success) [
  | inl e ↦ simp (e) (
      ap (λ (r : SlaveState). (loading "" test load, r))
        (send_answer delivers true (record s { active_program_name = program }) (sent true)))
  | inr e ↦ simp (e) (
      ap (λ (r : SlaveState). (loading "" test load, r))
        (send_answer delivers false s (sent false)))
]

-- A slave that loads nothing is asked to load a program with a name; before the load completes it is
-- asked to load any other programs; then the load completes, with or without success. If the
-- answers are delivered, it has answered each of the other commands with failure and after them the
-- first one with the success of its load; the program is active exactly if the load succeeded, and
-- the slave loads nothing again.
pub load_program_lifecycle :
    (delivers : Sent → Bool) (program : String) (others : List String) (loads : LoadHosts)
    (l : LoadProgram) (s : SlaveState)
    → l.currently_loading_program_name ≡ ""
    → str_eq program "" ≡ false
    → ((success : Bool) → delivers (to_master (Message.sms_load success)) ≡ true)
    → lifecycle delivers program others loads l s
      ≡ ok (
        (
          loading "" s.next_activity (s.next_activity + 1),
          record s {
            active_program_name = if loads.success then program else s.active_program_name;
            slave = record s.slave {
              sent = (s.slave.sent ++ answers (length others) false) ++ answers 1 loads.success;
            };
            posted = s.posted ++ (starts s.next_activity ∷ []);
            next_activity = (s.next_activity + 1) + 1;
          },
        ),
        true,
      )
load_program_lifecycle delivers program others loads l s idle named sent =
    let test = s.next_activity in
    let load = s.next_activity + 1 in
    let l' = loading program test load in
    let s' : SlaveState = record s {
      posted = s.posted ++ (starts test ∷ []);
      next_activity = load + 1;
    } in
    let s'' : SlaveState = record s' {
      slave = record s.slave { sent = s.slave.sent ++ answers (length others) false };
    } in
    ap
      (λ (r : LoadProgram × SlaveState).
        let (m, u) = load_commands delivers others r.0 r.1 in
        load_program_activity_complete delivers load (some loads) m u)
      (first_command delivers program l s idle)
    ∙ (ap
          (λ (r : LoadProgram × SlaveState).
            load_program_activity_complete delivers load (some loads) r.0 r.1)
          (load_commands_while_loading delivers others l' s' named (sent false))
        ∙ (complete_load delivers program test load loads s'' (ground arith)
            ∙ ap (λ (r : LoadProgram × SlaveState). ok (r, true))
                (finish_load-answered delivers program test load loads s'' sent)))
