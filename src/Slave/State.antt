-- ===== src/Slave/State.antt =====
-- class Slave of src/slave/slave.hpp and src/slave/slave.cpp as its activities see it, and
-- HostMap::enroll of src/slave/hostMap.cpp.
use megastructure.Common.{
  ℕ, Bool, true, List, [], ◌∷◌, ◌++◌, Option, none, some, String, ◌+◌, Result, ok, throws,
}
use megastructure.Protocol.{Message}
use megastructure.Address.Tree.{Elements}
use megastructure.Address.Tables.{slave_table}
use megastructure.Queue.{Post}
use megastructure.Slave.Hosts.{Host, HostNameMap, HostMap}
use megastructure.Slave.Hosts
use megastructure.Slave.Route.{Sent, Slave}
use megastructure.Slave.Route
use megastructure.Slave.Shared.{SharedBufferMap}

-- `slave` has the hosts, the table and what was sent; `enrollment` is the promise of the enrolment;
-- `posted` is what was posted to the queue about activities, which are known by numbers, and
-- `next_activity` is the first number that is not in use.
pub record SlaveState : Type 0 where
  pub slave : Slave
  pub name : String
  pub workspace : String
  pub active_program_name : String
  pub enrollment : Option Bool
  pub shared_buffers : SharedBufferMap
  pub posted : List Post
  pub next_activity : ℕ

unfoldable pub post : Post → SlaveState → SlaveState
post p s = record s { posted = s.posted ++ (p ∷ []) }

-- The number of a new activity.
unfoldable pub new_activity : SlaveState → ℕ × SlaveState
new_activity s = (s.next_activity, record s { next_activity = s.next_activity + 1 })

unfoldable pub remove_client : ℕ → SlaveState → SlaveState
remove_client client s = record s {
  slave = record s.slave { hosts = Hosts.remove_client client s.slave.hosts };
}

-- HostMap::enroll. The new entry comes after those of the same process name; its place among the
-- others is not modelled. The source leaves the eg client unset, which is 0 here.
unfoldable pub enroll_host : String → ℕ → String → HostMap → HostMap × Bool
enroll_host process client unique_id m =
    let host : Host = record {
      process_name = process;
      unique_id = unique_id;
      mega_client_id = client;
      eg_client_id = 0;
    } in
    (record m { process_name_map = m.process_name_map ++ ((process, host) ∷ []) }, true)

-- A promise that has a value throws when it is set again.
unfoldable pub set_enrollment : Bool → SlaveState → Result SlaveState
set_enrollment enrolled s = elim s.enrollment [
  | none ↦ ok (record s { enrollment = some enrolled })
  | some _ ↦ throws
]

unfoldable pub set_host_map : HostMap → SlaveState → SlaveState
set_host_map hosts s = record s { slave = record s.slave { hosts = hosts } }

abbrev pub client_map : HostNameMap → List (String × ℕ)
client_map [] = []
client_map ((name, h) ∷ rest) = (name, h.mega_client_id) ∷ client_map rest

-- Slave::calculateNetworkAddressTable; `database` is the program database, if its file is there.
unfoldable pub calculate_network_address_table : Option Elements → SlaveState → Result SlaveState
calculate_network_address_table none s =
    ok (record s { slave = record s.slave { nat_requests = none } })
calculate_network_address_table (some root) s =
    elim (slave_table (some root) (client_map s.slave.hosts.hostname_mapping) s.name) [
      | throws ↦ throws
      | ok table ↦ ok (record s { slave = record s.slave { nat_requests = some table } })
    ]

module _ (delivers : Sent → Bool) where
  unfoldable pub send_master : Message → SlaveState → SlaveState
  send_master message s = record s { slave = Route.send_master delivers message s.slave }

  -- The Boolean is the result.
  unfoldable pub send_host : Message → ℕ → SlaveState → SlaveState × Bool
  send_host message client s = (
    record s { slave = Route.send_host delivers message client s.slave },
    delivers (Route.to_host client message),
  )
