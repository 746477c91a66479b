-- ===== src/Component/Requests.antt =====
-- What a component answers to the requests to load a program.
use megastructure.Common.{
  ℕ, ◌≡◌, refl, inl, inr, Bool, true, false, not, ◌&&◌, List, [], ◌∷◌, ◌++◌, Option, none, some,
  String, ◌+◌, if◌then◌else◌, str_eq, length, replicate, arith, ==_refl, ap, sym, ◌∙◌, Bool-cases,
}
use megastructure.Protocol.{Message}
use megastructure.Component.State.{
  LoadedProgram, ComponentState, send, start_job, job_complete, set_program,
}
use megastructure.Component.Jobs.{LoadProgramJob, Plugins, load_job_try, load_job_run}
use megastructure.Component.Activities.{
  LoadActivity, new_job, load_server_message, load_job_complete,
}

-- Requests for these hosts and programs, one after the other.
abbrev pub load_requests :
    List (String × String) → LoadActivity → ComponentState → LoadActivity × ComponentState
load_requests [] l c = (l, c)
load_requests ((host, program) ∷ rest) l c =
    let (l', c') = (load_server_message (Message.chq_load host program) l c).0 in
    load_requests rest l' c'

append_one :
    (sent : List Message) (n : ℕ) (m : Message)
    → (sent ++ (m ∷ [])) ++ replicate n m ≡ sent ++ (m ∷ replicate n m)
append_one [] n m = refl
append_one (x ∷ sent) n m = ap (λ rest. x ∷ rest) (append_one sent n m)

append_nothing : (sent : List Message) → sent ++ [] ≡ sent
append_nothing [] = refl
append_nothing (x ∷ sent) = ap (λ rest. x ∷ rest) (append_nothing sent)

denied :
    (requests : List (String × String)) (job : ℕ × LoadProgramJob) (c : ComponentState)
    → load_requests requests (some job) c ≡ (
      some job,
      record c { sent = c.sent ++ replicate (length requests) (Message.hcs_load false) },
    )
unfolding load_server_message send
denied [] job c =
    ap (λ (x : List Message). (some job, record c { sent = x })) (sym (append_nothing c.sent))
denied ((host, program) ∷ rest) job c =
    denied rest job (record c { sent = c.sent ++ (Message.hcs_load false ∷ []) })
    ∙ ap (λ (x : List Message). (some job, record c { sent = x }))
        (append_one c.sent (length rest) (Message.hcs_load false))

-- The program that a request leaves, and whether it succeeds: a request without a host or a program
-- unloads.
abbrev pub requested : Plugins → String → String → Option LoadedProgram
requested plugins host program =
    let new : LoadedProgram = record { host_name = host; program_name = program } in
    if not (str_eq host "") && not (str_eq program "")
    then (if plugins.makes new then some new else none)
    else none

abbrev pub succeeds : Plugins → String → String → Bool
succeeds plugins host program =
    if not (str_eq host "") && not (str_eq program "")
    then plugins.makes (record { host_name = host; program_name = program })
    else true

-- The job that the activity keeps runs and completes.
abbrev pub run_job : Plugins → LoadActivity → ComponentState → LoadActivity × ComponentState
run_job plugins none c = (none, c)
run_job plugins (some (n, job)) c =
    let (job', c') = load_job_run plugins n job c in (load_job_complete n (some (n, job')) c').0

-- A first request, the requests that come while its job waits or runs, the job, and its completion.
abbrev pub load_once :
    Plugins
    → String
    → String
    → List (String × String)
    → ComponentState
    → LoadActivity × ComponentState
load_once plugins host program others c =
    let (l, c') = (load_server_message (Message.chq_load host program) none c).0 in
    let (l', c'') = load_requests others l c' in run_job plugins l' c''

abbrev new_load : String → String → LoadProgramJob
new_load host program = record {
  host_name = host;
  program_name = program;
  new_program = none;
  success = false;
}

tried :
    (plugins : Plugins) (host program : String)
    → load_job_try plugins (new_load host program) ≡ record (new_load host program) {
      new_program = requested plugins host program;
      success = succeeds plugins host program;
    }
unfolding load_job_try
tried plugins host program = elim (Bool-cases (not (str_eq host "") && not (str_eq program ""))) [
  | inr e ↦ rw (e) refl
  | inl e ↦
      let new : LoadedProgram = record { host_name = host; program_name = program } in
      elim (Bool-cases (plugins.makes new)) [ inl m ↦ rw (e, m) refl | inr m ↦ rw (e, m) refl ]
]

completed :
    (n : ℕ) (j : LoadProgramJob) (c : ComponentState)
    → (load_job_complete n (some (n, j)) c).0
      ≡ (none, record c { sent = c.sent ++ (Message.hcs_load j.success ∷ []) })
unfolding load_job_complete send
completed n j c = let self = ==_refl n in ground arith

-- A component that loads nothing is asked to load a program, and before that load completes to load
-- others: it answers each of the others with failure, and then the first request with its success;
-- it runs the program of the first request if that could be made and otherwise none, the former
-- program included; and it loads nothing again.
pub load_once-answers :
    (plugins : Plugins) (host program : String) (others : List (String × String))
    (c : ComponentState)
    → load_once plugins host program others c ≡ (
      none,
      record c {
        program = requested plugins host program;
        sent =
            (c.sent ++ replicate (length others) (Message.hcs_load false))
            ++ (Message.hcs_load (succeeds plugins host program) ∷ []);
        jobs = c.jobs ++ (c.next_job ∷ []);
        completed_jobs = c.completed_jobs ++ (c.next_job ∷ []);
        next_job = c.next_job + 1;
      },
    )
unfolding load_server_message new_job start_job load_job_run job_complete set_program
load_once-answers plugins host program others c =
    let n = c.next_job in
    let started : ComponentState = record c { jobs = c.jobs ++ (n ∷ []); next_job = n + 1 } in
    let waited : ComponentState = record started {
      sent = c.sent ++ replicate (length others) (Message.hcs_load false);
    } in
    ap (λ (r : LoadActivity × ComponentState). run_job plugins r.0 r.1)
      (denied others (n, new_load host program) started)
    ∙ (ap
          (λ (j : LoadProgramJob).
            (load_job_complete n (some (n, j))
              (job_complete n (set_program j.new_program waited))).0)
          (tried plugins host program)
        ∙ completed n
            (record (new_load host program) {
              new_program = requested plugins host program;
              success = succeeds plugins host program;
            })
            (job_complete n (set_program (requested plugins host program) waited)))
