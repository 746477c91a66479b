-- ===== src/Slave/Config.antt =====
-- HostConfigActivity and HostsConfigActivity of src/slave/activitiesHost.cpp: all hosts load or save
-- their configuration.
use megastructure.Common.{
  ℕ, Bool, true, false, List, [], ◌∷◌, ◌++◌, Option, none, some, ◌==◌, if◌then◌else◌, Result, ok,
  throws,
}
use megastructure.Protocol.{ConfigStep, Config, Message}
use megastructure.Protocol.Helpers.{
  ConfigActivityType, config_load_chq_request, config_save_chq_request,
}
use megastructure.Queue.{starts, completes}
use megastructure.Slave.Hosts.{Host, HostNameMap}
use megastructure.Slave.Route.{Sent}
use megastructure.Slave.Load.{erase_activity, has_activity, is_empty}
use megastructure.Slave.State.{SlaveState, post, new_activity, send_host}

pub record HostConfig : Type 0 where
  pub host : Host
  pub activity_type : ConfigActivityType
  pub success : Bool

pub record HostsConfig : Type 0 where
  pub activity_type : ConfigActivityType
  pub load_activities : List ℕ
  pub success : Bool

abbrev pub config_request : ConfigActivityType → Result Message
config_request ConfigActivityType.config_loading = ok config_load_chq_request
config_request ConfigActivityType.config_saving = ok config_save_chq_request
config_request ConfigActivityType.total_config_activity_types = throws

module _ (delivers : Sent → Bool) where
  -- HostConfigActivity::start of the activity `a`.
  unfoldable pub host_config_start : ℕ → HostConfig → SlaveState → Result SlaveState
  unfolding send_host post
  host_config_start a c s = elim (config_request c.activity_type) [
    | throws ↦ throws
    | ok message ↦
        let (s', sent) = send_host delivers message c.host.mega_client_id s in
        ok (if sent then s' else post (completes a) s')
  ]

unfoldable pub host_config_answer : ℕ → Bool → HostConfig → SlaveState → HostConfig × SlaveState
unfolding post
host_config_answer a success c s = (record c { success = success }, post (completes a) s)

-- The switch of clientMessage, for a message of the host. `none` goes on to the end of the function.
unfoldable pub host_config_reply : ConfigActivityType → Config → Result (Option Bool)
host_config_reply ConfigActivityType.config_loading (Config.load (ConfigStep.hcs success)) =
    ok (some success)
host_config_reply ConfigActivityType.config_loading _ = ok none
host_config_reply ConfigActivityType.config_saving (Config.save (ConfigStep.hcs success)) =
    ok (some success)
host_config_reply ConfigActivityType.config_saving _ = ok none
host_config_reply ConfigActivityType.total_config_activity_types _ = throws

-- HostConfigActivity::clientMessage
unfoldable pub host_config_client_message :
    ℕ → ℕ → Message → HostConfig → SlaveState → Result ((HostConfig × SlaveState) × Bool)
unfolding host_config_reply host_config_answer
host_config_client_message a client (Message.config_msg m) c s =
    elim (c.host.mega_client_id == client) [
      | false ↦ ok ((c, s), false)
      | true ↦ elim (host_config_reply c.activity_type m) [
        | throws ↦ throws
        | ok none ↦ ok ((c, s), false)
        | ok (some success) ↦ ok (host_config_answer a success c s, true)
      ]
    ]
host_config_client_message a client _ c s = ok ((c, s), false)

-- The loop of HostsConfigActivity::start, with the activities that it makes.
unfoldable pub config_each :
    HostNameMap → HostsConfig → SlaveState → List (ℕ × HostConfig) × HostsConfig × SlaveState
unfolding new_activity post
config_each [] c s = ([], c, s)
config_each ((process, host) ∷ rest) c s =
    let (a, s') = new_activity s in
    let made : HostConfig = record {
      host = host;
      activity_type = c.activity_type;
      success = true;
    } in
    let (later, c', s'') =
      config_each rest (record c { load_activities = c.load_activities ++ (a ∷ []) })
        (post (starts a) s') in
    ((a, made) ∷ later, c', s'')

-- HostsConfigActivity::start
unfoldable pub hosts_config_start :
    ℕ → HostsConfig → SlaveState → List (ℕ × HostConfig) × HostsConfig × SlaveState
unfolding config_each post
hosts_config_start a c s =
    let (made, c', s') = config_each s.slave.hosts.process_name_map c s in
    (made, c', if is_empty c'.load_activities then post (completes a) s' else s')

-- HostsConfigActivity::activityComplete of the activity `a`, when `b` has completed; `done` is `b` if it
-- is a HostConfigActivity.
unfoldable pub hosts_config_activity_complete :
    ℕ → ℕ → Option HostConfig → HostsConfig → SlaveState → (HostsConfig × SlaveState) × Bool
unfolding erase_activity post
hosts_config_activity_complete a b none c s = ((c, s), false)
hosts_config_activity_complete a b (some done) c s =
    if has_activity b c.load_activities
    then (let left = erase_activity b c.load_activities in
        (
          (
            record c {
              load_activities = left;
              success = if done.success then c.success else false;
            },
            if is_empty left then post (completes a) s else s,
          ),
          true,
        ))
    else ((c, s), false)
