-- ===== src/Slave/Load.antt =====
-- TestHostActivity, TestHostsActivity, LoadHostProgramActivity and LoadHostsProgramActivity of
-- src/slave/activitiesHost.cpp: the tests of the hosts and the load of a program by all hosts.
use megastructure.Common.{
  ℕ, Bool, true, false, List, [], ◌∷◌, ◌++◌, Option, none, some, String, ◌==◌, if◌then◌else◌,
}
use megastructure.Protocol.{Message}
use megastructure.Address.Tree.{Elements}
use megastructure.Queue.{starts, completes}
use megastructure.Slave.Hosts.{Host, HostNameMap}
use megastructure.Slave.Route.{Sent}
use megastructure.Slave.State.{SlaveState, post, new_activity, remove_client, send_host}

pub record TestHost : Type 0 where
  pub host : Host
  pub process_name : String
  pub success : Bool

-- The activities that have not completed, by their numbers.
pub record TestHosts : Type 0 where
  pub activities : List ℕ

pub record LoadHost : Type 0 where
  pub host : Host
  pub host_name : String
  pub program_name : String
  pub success : Bool

pub record LoadHosts : Type 0 where
  pub program_name : String
  pub load_activities : List ℕ
  pub success : Bool

-- What the load reads of a project tree: the coordinators with their host names, these with their
-- projects, and the commands of the projects; and the program database, if its file is there.
pub record Project : Type 0 where
  pub name : String
  pub commands : List String

pub record HostName : Type 0 where
  pub name : String
  pub project_names : List Project

pub record Coordinator : Type 0 where
  pub name : String
  pub host_names : List HostName

pub record ProjectTree : Type 0 where
  pub coordinators : List Coordinator
  pub database : Option Elements

unfoldable pub erase_activity : ℕ → List ℕ → List ℕ
erase_activity a [] = []
erase_activity a (b ∷ rest) =
    let later = erase_activity a rest in if b == a then rest else b ∷ later

abbrev pub has_activity : ℕ → List ℕ → Bool
has_activity a [] = false
has_activity a (b ∷ rest) = if b == a then true else has_activity a rest

abbrev pub is_empty {ℓ} : {A : Type ℓ} → List A → Bool
is_empty [] = true
is_empty (x ∷ rest) = false

module _ (delivers : Sent → Bool) where
  -- TestHostActivity::start of the activity `a`.
  unfoldable pub test_host_start : ℕ → TestHost → SlaveState → SlaveState
  unfolding send_host post
  test_host_start a t s =
      let (s', sent) =
        send_host delivers (Message.chq_alive t.process_name) t.host.mega_client_id s in
      if sent then s' else post (completes a) s'

  -- LoadHostProgramActivity::start
  unfoldable pub load_host_start : ℕ → LoadHost → SlaveState → SlaveState
  unfolding send_host post
  load_host_start a l s =
      let (s', sent) =
        send_host delivers (Message.chq_load l.host_name l.program_name) l.host.mega_client_id s in
      if sent then s' else post (completes a) s'

unfoldable pub test_host_answer : ℕ → Bool → TestHost → SlaveState → TestHost × SlaveState
unfolding remove_client post
test_host_answer a true t s = (record t { success = true }, post (completes a) s)
test_host_answer a false t s = (t, post (completes a) (remove_client t.host.mega_client_id s))

-- TestHostActivity::clientMessage
unfoldable pub test_host_client_message :
    ℕ → ℕ → Message → TestHost → SlaveState → (TestHost × SlaveState) × Bool
unfolding test_host_answer
test_host_client_message a client (Message.hcs_alive success) t s =
    if t.host.mega_client_id == client
    then (test_host_answer a success t s, true)
    else ((t, s), false)
test_host_client_message a client _ t s = ((t, s), false)

unfoldable pub load_host_answer : ℕ → Bool → LoadHost → SlaveState → LoadHost × SlaveState
unfolding remove_client post
load_host_answer a true l s = (record l { success = true }, post (completes a) s)
load_host_answer a false l s =
    (record l { success = false }, post (completes a) (remove_client l.host.mega_client_id s))

-- LoadHostProgramActivity::clientMessage
unfoldable pub load_host_client_message :
    ℕ → ℕ → Message → LoadHost → SlaveState → (LoadHost × SlaveState) × Bool
unfolding load_host_answer
load_host_client_message a client (Message.hcs_load success) l s =
    if l.host.mega_client_id == client
    then (load_host_answer a success l s, true)
    else ((l, s), false)
load_host_client_message a client _ l s = ((l, s), false)

-- The loop of TestHostsActivity::start, with the tests that it makes.
unfoldable pub test_each :
    HostNameMap → TestHosts → SlaveState → List (ℕ × TestHost) × TestHosts × SlaveState
unfolding new_activity post
test_each [] t s = ([], t, s)
test_each ((process, host) ∷ rest) t s =
    let (a, s') = new_activity s in
    let test : TestHost = record { host = host; process_name = process; success = false } in
    let (made, t', s'') =
      test_each rest (record { activities = t.activities ++ (a ∷ []) }) (post (starts a) s') in
    ((a, test) ∷ made, t', s'')

-- TestHostsActivity::start
unfoldable pub test_hosts_start :
    ℕ → TestHosts → SlaveState → List (ℕ × TestHost) × TestHosts × SlaveState
unfolding test_each post
test_hosts_start a t s =
    let (made, t', s') = test_each s.slave.hosts.process_name_map t s in
    (made, t', if is_empty t'.activities then post (completes a) s' else s')

-- TestHostsActivity::activityComplete of the activity `a`, when `b` has completed.
unfoldable pub test_hosts_activity_complete :
    ℕ → ℕ → TestHosts → SlaveState → (TestHosts × SlaveState) × Bool
unfolding erase_activity post
test_hosts_activity_complete a b t s =
    if has_activity b t.activities
    then (let left = erase_activity b t.activities in
        ((record { activities = left }, if is_empty left then post (completes a) s else s), true))
    else ((t, s), false)

-- LoadHostsProgramActivity::activityComplete of the activity `a`, when `b` has completed; `done` is `b`
-- if it is a LoadHostProgramActivity.
unfoldable pub load_hosts_activity_complete :
    ℕ → ℕ → Option LoadHost → LoadHosts → SlaveState → (LoadHosts × SlaveState) × Bool
unfolding erase_activity post
load_hosts_activity_complete a b none l s = ((l, s), false)
load_hosts_activity_complete a b (some done) l s =
    if has_activity b l.load_activities
    then (let left = erase_activity b l.load_activities in
        (
          (
            record l {
              load_activities = left;
              success = if done.success then l.success else false;
            },
            if is_empty left then post (completes a) s else s,
          ),
          true,
        ))
    else ((l, s), false)
