-- ===== src/Slave/Commands.antt =====
-- LoadProgramActivity and ConfigActivity of src/slave/activitiesMaster.cpp: what the master asks of a slave.
-- Both test the hosts first.
use megastructure.Common.{
  ℕ, Bool, true, false, [], Option, none, some, String, ◌==◌, if◌then◌else◌, str_eq, Result, ok,
  throws,
}
use megastructure.Protocol.{ConfigStep, Config, Message}
use megastructure.Protocol.Helpers.{
  ConfigActivityType, config_load_sms_reply, config_save_sms_reply,
}
use megastructure.Queue.{starts}
use megastructure.Slave.Route.{Sent}
use megastructure.Slave.Load.{TestHosts, LoadHosts}
use megastructure.Slave.Config.{HostsConfig}
use megastructure.Slave.State.{SlaveState, post, new_activity, send_master}

-- The numbers of the two activities are none before the first load.
pub record LoadProgram : Type 0 where
  pub currently_loading_program_name : String
  pub test_hosts : Option ℕ
  pub load_hosts : Option ℕ

pub record ConfigCommand : Type 0 where
  pub activity_type : ConfigActivityType
  pub test_hosts : Option ℕ
  pub config_hosts : Option ℕ

abbrev pub is_activity : ℕ → Option ℕ → Bool
is_activity a none = false
is_activity a (some b) = b == a

module _ (delivers : Sent → Bool) where
  -- LoadProgramActivity::serverMessage, with the activities that it makes.
  unfoldable pub load_program_server_message :
      Message
      → LoadProgram
      → SlaveState
      → ((LoadProgram × SlaveState) × Option (TestHosts × LoadHosts)) × Bool
  unfolding new_activity post send_master
  load_program_server_message (Message.msq_load program) l s =
      if str_eq l.currently_loading_program_name ""
      then (let (test, s') = new_activity s in
          let (load, s'') = new_activity s' in
          let l' : LoadProgram = record {
            currently_loading_program_name = program;
            test_hosts = some test;
            load_hosts = some load;
          } in
          let tests : TestHosts = record { activities = [] } in
          let loads : LoadHosts = record {
            program_name = program;
            load_activities = [];
            success = true;
          } in
          (((l', post (starts test) s''), some (tests, loads)), true))
      else (((l, send_master delivers (Message.sms_load false) s), none), true)
  load_program_server_message _ l s = (((l, s), none), false)

  abbrev pub finish_load : LoadHosts → LoadProgram → SlaveState → LoadProgram × SlaveState
  finish_load loads l s = (
    record l { currently_loading_program_name = "" },
    if loads.success
        then send_master delivers (Message.sms_load true)
            (record s { active_program_name = l.currently_loading_program_name })
        else send_master delivers (Message.sms_load false) s,
  )

  -- LoadProgramActivity::activityComplete, when `b` has completed; `loads` is `b` if it is a
  -- LoadHostsProgramActivity.
  unfoldable pub load_program_activity_complete :
      ℕ → Option LoadHosts → LoadProgram → SlaveState → Result ((LoadProgram × SlaveState) × Bool)
  unfolding post send_master
  load_program_activity_complete b loads l s = elim (is_activity b l.test_hosts) [
    | true ↦ elim l.load_hosts [ none ↦ throws | some load ↦ ok ((l, post (starts load) s), true) ]
    | false ↦ elim (is_activity b l.load_hosts) [
      | false ↦ ok ((l, s), false)
      | true ↦ elim loads [ none ↦ throws | some done ↦ ok (finish_load done l s, true) ]
    ]
  ]

  -- The kind of configuration activity that a message asks for.
  unfoldable pub new_activity_type : Config → ConfigActivityType
  new_activity_type (Config.load ConfigStep.msq) = ConfigActivityType.config_loading
  new_activity_type (Config.save ConfigStep.msq) = ConfigActivityType.config_saving
  new_activity_type _ = ConfigActivityType.total_config_activity_types

  abbrev pub is_total : ConfigActivityType → Bool
  is_total ConfigActivityType.total_config_activity_types = true
  is_total _ = false

  -- ConfigActivity::serverMessage, with the activities that it makes.
  unfoldable pub config_server_message :
      Message
      → ConfigCommand
      → SlaveState
      → ((ConfigCommand × SlaveState) × Option (TestHosts × HostsConfig)) × Bool
  unfolding new_activity_type new_activity post
  config_server_message (Message.config_msg m) c s =
      let type = new_activity_type m in
      let (test, s') = new_activity s in
      let (config, s'') = new_activity s' in
      let c' : ConfigCommand = record {
        activity_type = type;
        test_hosts = some test;
        config_hosts = some config;
      } in
      let tests : TestHosts = record { activities = [] } in
      let configs : HostsConfig = record {
        activity_type = type;
        load_activities = [];
        success = true;
      } in
      if is_total type
      then (((c, s), none), false)
      else (if is_total c.activity_type
          then (((c', post (starts test) s''), some (tests, configs)), true)
          else (((c, s), none), false))
  config_server_message _ c s = (((c, s), none), false)

  abbrev pub config_reply : ConfigActivityType → Bool → Result Message
  config_reply ConfigActivityType.config_loading success = ok (config_load_sms_reply success)
  config_reply ConfigActivityType.config_saving success = ok (config_save_sms_reply success)
  config_reply ConfigActivityType.total_config_activity_types success = throws

  abbrev pub finish_config :
      HostsConfig → ConfigCommand → SlaveState → Result (ConfigCommand × SlaveState)
  finish_config configs c s = elim (config_reply c.activity_type configs.success) [
    | throws ↦ throws
    | ok message ↦ ok (
      record c { activity_type = ConfigActivityType.total_config_activity_types },
      send_master delivers message s,
    )
  ]

  -- ConfigActivity::activityComplete
  unfoldable pub config_activity_complete :
      ℕ
      → Option HostsConfig
      → ConfigCommand
      → SlaveState
      → Result ((ConfigCommand × SlaveState) × Bool)
  unfolding post send_master
  config_activity_complete b configs c s = elim (is_activity b c.test_hosts) [
    | true ↦ elim c.config_hosts [
      | none ↦ throws
      | some config ↦ ok ((c, post (starts config) s), true)
    ]
    | false ↦ elim (is_activity b c.config_hosts) [
      | false ↦ ok ((c, s), false)
      | true ↦ elim configs [
        | none ↦ throws
        | some done ↦ elim (finish_config done c s) [ throws ↦ throws | ok r ↦ ok (r, true) ]
      ]
    ]
  ]
