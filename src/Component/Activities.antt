-- ===== src/Component/Activities.antt =====
-- EnrollHostActivity, LoadProgramActivity, BufferActivity and ConfigActivity of src/component/activities.cpp.
use megastructure.Common.{
  ℕ, Bool, true, false, Option, none, some, String, ◌==◌, ◌+◌, if◌then◌else◌, str_eq, Result, ok,
  throws,
}
use megastructure.Protocol.{Message}
use megastructure.Protocol.Helpers.{
  ConfigActivityType, config_load_chq, config_save_chq, config_load_hcs, config_save_hcs,
}
use megastructure.Queue.{completes}
use megastructure.Component.State.{ComponentState, send, send_eg, post, start_job}
use megastructure.Component.Jobs.{LoadProgramJob, ConfigJob}

pub record EnrollHost : Type 0 where
  pub host_program : String
  pub unique : String
  pub workspace : String
  pub slave_name : String

unfoldable pub enroll_start : EnrollHost → ComponentState → ComponentState
unfolding send
enroll_start e c = send (Message.hcq_enroll e.host_program e.unique) c

-- EnrollHostActivity::serverMessage of the activity `a`.
unfoldable pub enroll_server_message :
    ℕ → Message → EnrollHost → ComponentState → (EnrollHost × ComponentState) × Bool
unfolding send_eg post
enroll_server_message a (Message.chs_enroll true workspace slave) e c = (
  (
    record e { workspace = workspace; slave_name = slave },
    send_eg (Message.hcq_enrolleg e.unique) c,
  ),
  true,
)
enroll_server_message a (Message.chs_enroll false workspace slave) e c =
    ((e, post (completes a) c), true)
enroll_server_message a (Message.chs_enrolleg true) e c = (
  (
    e,
    post (completes a) (record c { slave_workspace_path = e.workspace; slave_name = e.slave_name }),
  ),
  true,
)
enroll_server_message a (Message.chs_enrolleg false) e c = ((e, post (completes a) c), true)
enroll_server_message a _ e c = ((e, c), false)

-- AliveTestActivity::serverMessage of src/component/activities.hpp
unfoldable pub alive_server_message : Message → ComponentState → ComponentState × Bool
unfolding send
alive_server_message (Message.chq_alive name) c = (send (Message.hcs_alive true) c, true)
alive_server_message _ c = (c, false)

-- The activities that run a job keep it with its number while it runs.
abbrev pub LoadActivity : Type 0
LoadActivity = Option (ℕ × LoadProgramJob)

abbrev pub ConfigCommand : Type 0
ConfigCommand = Option (ℕ × ConfigJob)

unfoldable pub new_job : ComponentState → ℕ × ComponentState
unfolding start_job
new_job c = (c.next_job, start_job c.next_job (record c { next_job = c.next_job + 1 }))

-- LoadProgramActivity::serverMessage
unfoldable pub load_server_message :
    Message → LoadActivity → ComponentState → (LoadActivity × ComponentState) × Bool
unfolding send new_job
load_server_message (Message.chq_load host program) (some job) c =
    ((some job, send (Message.hcs_load false) c), true)
load_server_message (Message.chq_load host program) none c =
    let (n, c') = new_job c in
    let job : LoadProgramJob = record {
      host_name = host;
      program_name = program;
      new_program = none;
      success = false;
    } in
    ((some (n, job), c'), true)
load_server_message _ l c = ((l, c), false)

-- LoadProgramActivity::jobComplete of the job `n`.
unfoldable pub load_job_complete :
    ℕ → LoadActivity → ComponentState → (LoadActivity × ComponentState) × Bool
unfolding send
load_job_complete n none c = ((none, c), false)
load_job_complete n (some (m, job)) c =
    if m == n
    then ((none, send (Message.hcs_load job.success) c), true)
    else ((some (m, job), c), false)

pub record Buffer : Type 0 where
  pub buffer_name : String
  pub buffer_size : ℕ
  pub result : Option String

unfoldable pub buffer_start : Buffer → ComponentState → ComponentState
unfolding send
buffer_start b c = send (Message.hcq_buffer b.buffer_name b.buffer_size) c

-- BufferActivity::serverMessage. The promise throws when it is set again.
unfoldable pub buffer_server_message :
    ℕ → Message → Buffer → ComponentState → Result ((Buffer × ComponentState) × Bool)
unfolding post
buffer_server_message a (Message.chs_buffer name shared_name) b c =
    elim (str_eq name b.buffer_name) [
      | false ↦ ok ((b, c), false)
      | true ↦ elim b.result [
        | none ↦ ok ((record b { result = some shared_name }, post (completes a) c), true)
        | some _ ↦ throws
      ]
    ]
buffer_server_message a _ b c = ok ((b, c), false)

abbrev pub config_deny : ConfigActivityType → Message
config_deny ConfigActivityType.config_loading = config_load_hcs false
config_deny _ = config_save_hcs false

-- A request of one of the two kinds.
unfoldable pub config_request :
    ConfigActivityType → ConfigCommand → ComponentState → ConfigCommand × ComponentState
unfolding send new_job
config_request type (some job) c = (some job, send (config_deny type) c)
config_request type none c =
    let (n, c') = new_job c in
    let job : ConfigJob = record { activity_type = type; success = false } in (some (n, job), c')

-- ConfigActivity::serverMessage
unfoldable pub config_server_message :
    Message → ConfigCommand → ComponentState → (ConfigCommand × ComponentState) × Bool
unfolding config_request
config_server_message (Message.config_msg m) s c =
    if config_load_chq m
    then (config_request ConfigActivityType.config_loading s c, true)
    else (if config_save_chq m
        then (config_request ConfigActivityType.config_saving s c, true)
        else ((s, c), true))
config_server_message _ s c = ((s, c), false)

abbrev pub config_answer : ConfigActivityType → Bool → Result Message
config_answer ConfigActivityType.config_loading success = ok (config_load_hcs success)
config_answer ConfigActivityType.config_saving success = ok (config_save_hcs success)
config_answer ConfigActivityType.total_config_activity_types success = throws

-- ConfigActivity::jobComplete of the job `n`.
unfoldable pub config_job_complete :
    ℕ → ConfigCommand → ComponentState → Result ((ConfigCommand × ComponentState) × Bool)
unfolding send
config_job_complete n none c = ok ((none, c), false)
config_job_complete n (some (m, job)) c = elim (m == n) [
  | false ↦ ok ((some (m, job), c), false)
  | true ↦ elim (config_answer job.activity_type job.success) [
    | throws ↦ throws
    | ok message ↦ ok ((none, send message c), true)
  ]
]
