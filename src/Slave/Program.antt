-- ===== src/Slave/Program.antt =====
-- LoadHostsProgramActivity::start of src/slave/activitiesHost.cpp: the pairs of process names and host
-- names of a program, and the loads that are started for them.
use megastructure.Common.{
  ℕ, true, false, List, [], ◌∷◌, ◌++◌, Option, none, some, String, if◌then◌else◌, str_eq, Result,
  ok, throws, ◌>>◌, verify,
}
use megastructure.Queue.{starts, completes}
use megastructure.Slave.Hosts.{Host, HostNameMap}
use megastructure.Slave.Remap.{Pairs, remap}
use megastructure.Slave.Load.{
  LoadHost, LoadHosts, Project, HostName, Coordinator, ProjectTree, is_empty,
}
use megastructure.Slave.State.{
  SlaveState, post, new_activity, set_host_map, calculate_network_address_table,
}

-- `process_of` is the file name of a command whose variables are expanded, or an exception.
module _ (process_of : String → Result String) where
  -- The process name of the first project of a host name, if it is the program's.
  unfoldable pub opt_process_name : String → List Project → Result (Option String)
  opt_process_name program [] = throws
  opt_process_name program (p ∷ rest) =
      verify (is_empty rest)
      >> (if str_eq p.name program then first_command p.commands else ok none)
    where
      first_command : List String → Result (Option String)
      first_command [] = throws
      first_command (c ∷ more) =
          verify (is_empty more)
          >> elim (process_of c) [ throws ↦ throws | ok process ↦ ok (some process) ]

  -- The loop over the host names of the coordinator.
  unfoldable pub host_name_pairs : String → List HostName → Pairs → Result Pairs
  unfolding opt_process_name
  host_name_pairs program [] pairs = ok pairs
  host_name_pairs program (h ∷ rest) pairs = elim (opt_process_name program h.project_names) [
    | throws ↦ throws
    | ok none ↦ host_name_pairs program rest pairs
    | ok (some process) ↦ host_name_pairs program rest (pairs ++ ((process, h.name) ∷ []))
  ]

  -- The loop over the coordinators, of which those with the slave's name count.
  unfoldable pub process_name_to_host_name :
      String → String → List Coordinator → Pairs → Result Pairs
  unfolding host_name_pairs
  process_name_to_host_name slave program [] pairs = ok pairs
  process_name_to_host_name slave program (c ∷ rest) pairs = elim (str_eq c.name slave) [
    | false ↦ process_name_to_host_name slave program rest pairs
    | true ↦ elim (host_name_pairs program c.host_names pairs) [
      | throws ↦ throws
      | ok pairs' ↦ process_name_to_host_name slave program rest pairs'
    ]
  ]

-- The loads for the clients without a host name, which unload, and for those with one.
abbrev pub unloads : List Host → List LoadHost
unloads [] = []
unloads (h ∷ rest) =
    record { host = h; host_name = ""; program_name = ""; success = true } ∷ unloads rest

abbrev pub loads : String → HostNameMap → List LoadHost
loads program [] = []
loads program ((name, h) ∷ rest) =
    record { host = h; host_name = name; program_name = program; success = true }
    ∷ loads program rest

-- The loops that start the activities, which are numbered and put in the set.
unfoldable pub start_loads :
    List LoadHost → LoadHosts → SlaveState → List (ℕ × LoadHost) × LoadHosts × SlaveState
unfolding new_activity post
start_loads [] l s = ([], l, s)
start_loads (load ∷ rest) l s =
    let (a, s') = new_activity s in
    let (made, l', s'') =
      start_loads rest (record l { load_activities = l.load_activities ++ (a ∷ []) })
        (post (starts a) s') in
    ((a, load) ∷ made, l', s'')

-- What LoadHostsProgramActivity::start has made: the loads, its fields and the slave.
abbrev pub Started : Type 0
Started = List (ℕ × LoadHost) × LoadHosts × SlaveState

abbrev pub finish_start : ℕ → Started → Started
finish_start a (made, l, s) =
    (made, l, if is_empty l.load_activities then post (completes a) s else s)

module _ (process_of : String → Result String) where
  -- The part of start with a project tree.
  unfoldable pub load_tree : ProjectTree → LoadHosts → SlaveState → Result Started
  unfolding process_name_to_host_name remap start_loads set_host_map calculate_network_address_table
  load_tree tree l s =
      elim (process_name_to_host_name process_of s.name l.program_name tree.coordinators []) [
        | throws ↦ throws
        | ok pairs ↦
            let (mapping, unmapped_clients, unmapped_names) = remap s.slave.hosts pairs in
            let (made, l', s') =
              start_loads
                (unloads unmapped_clients ++ loads l.program_name mapping.hostname_mapping) l s in
            elim (calculate_network_address_table tree.database (set_host_map mapping s')) [
              | throws ↦ throws
              | ok s'' ↦ ok (made, l', s'')
            ]
      ]

  -- LoadHostsProgramActivity::start of the activity `a`; `project_tree` is none if it cannot be made,
  -- which is only logged.
  unfoldable pub load_hosts_start : ℕ → Option ProjectTree → LoadHosts → SlaveState → Result Started
  unfolding load_tree post
  load_hosts_start a project_tree l s = elim project_tree [
    | none ↦ ok (finish_start a ([], l, s))
    | some tree ↦ elim (load_tree tree l s) [
      | throws ↦ throws
      | ok started ↦ ok (finish_start a started)
    ]
  ]
