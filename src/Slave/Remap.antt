-- ===== src/Slave/Remap.antt =====
-- The constructor of HostMap in src/slave/hostMap.cpp that maps the enrolled hosts to the host names
-- of a new program. A pair of the new program is a process name and a host name. The range between
-- lower_bound and upper_bound of a process name is the entries with that name, in order.
use megastructure.Common.{
  Bool, true, ◌&&◌, List, [], ◌∷◌, Option, none, some, String, ◌==◌, if◌then◌else◌, str_eq,
}
use megastructure.Slave.Hosts.{Host, HostNameMap, HostMap}

abbrev pub Pairs : Type 0
Pairs = List (String × String)

abbrev pub find_name : String → HostNameMap → Option Host
find_name name [] = none
find_name name ((n, h) ∷ m) = if str_eq n name then some h else find_name name m

unfoldable pub erase_name : String → HostNameMap → HostNameMap
erase_name name [] = []
erase_name name ((n, h) ∷ m) =
    let rest = erase_name name m in if str_eq n name then m else (n, h) ∷ rest

-- `insert` of std::map keeps an entry that is there.
unfoldable pub insert_name : String → Host → HostNameMap → HostNameMap
insert_name name host [] = (name, host) ∷ []
insert_name name host ((n, h) ∷ m) =
    let rest = insert_name name host m in if str_eq n name then (n, h) ∷ m else (n, h) ∷ rest

abbrev keep_entry : String → Host → Option (Host × HostNameMap) → Option (Host × HostNameMap)
keep_entry n h none = none
keep_entry n h (some (found, rest)) = some (found, (n, h) ∷ rest)

-- The first entry with this process name and property, and the entries without it.
unfoldable pub take_first : String → (Host → Bool) → HostNameMap → Option (Host × HostNameMap)
take_first name test [] = none
take_first name test ((n, h) ∷ m) =
    let later = take_first name test m in
    if str_eq n name && test h then some (h, m) else keep_entry n h later

abbrev pub same_client : Host → Host → Bool
same_client a b = b.mega_client_id == a.mega_client_id

-- The client that had the host name, if it is enrolled under the process name.
unfoldable pub reusable : String → String → HostNameMap → HostNameMap → Option (Host × HostNameMap)
unfolding take_first
reusable process host names enrolled = elim (find_name host names) [
  | none ↦ none
  | some old ↦ take_first process (same_client old) enrolled
]

-- The mapping so far, the enrolled hosts that are left, and the pairs that are left.
pub record Remapped : Type 0 where
  pub mapping : HostNameMap
  pub enrolled : HostNameMap
  pub left : Pairs

abbrev pub leave : String → String → Remapped → Remapped
leave process host r = record r { left = (process, host) ∷ r.left }

-- The first loop: host names that the same client keeps.
unfoldable pub reuse : Pairs → HostNameMap → HostNameMap → HostNameMap → Remapped
unfolding reusable erase_name insert_name
reuse [] names enrolled mapping = record { mapping = mapping; enrolled = enrolled; left = [] }
reuse ((process, host) ∷ ps) names enrolled mapping = elim (reusable process host names enrolled) [
  | some (found, rest) ↦ reuse ps (erase_name host names) rest (insert_name host found mapping)
  | none ↦ leave process host (reuse ps names enrolled mapping)
]

abbrev pub any_host : Host → Bool
any_host h = true

-- The second loop: the first client that is left with the process name.
unfoldable pub assign : Pairs → HostNameMap → HostNameMap → Remapped
unfolding take_first insert_name
assign [] enrolled mapping = record { mapping = mapping; enrolled = enrolled; left = [] }
assign ((process, host) ∷ ps) enrolled mapping = elim (take_first process any_host enrolled) [
  | some (found, rest) ↦ assign ps rest (insert_name host found mapping)
  | none ↦ leave process host (assign ps enrolled mapping)
]

abbrev pub hosts_of : HostNameMap → List Host
hosts_of [] = []
hosts_of ((n, h) ∷ m) = h ∷ hosts_of m

abbrev pub host_names_of : Pairs → List String
host_names_of [] = []
host_names_of ((p, h) ∷ ps) = h ∷ host_names_of ps

-- The new map, the clients without a host name and the host names without a client.
unfoldable pub remap : HostMap → Pairs → HostMap × List Host × List String
unfolding reuse assign
remap old pairs =
    let first = reuse pairs old.hostname_mapping old.process_name_map [] in
    let second = assign first.left first.enrolled first.mapping in
    (
      record { process_name_map = old.process_name_map; hostname_mapping = second.mapping },
      hosts_of second.enrolled,
      host_names_of second.left,
    )
