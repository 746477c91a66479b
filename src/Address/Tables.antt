-- ===== src/Address/Tables.antt =====
-- The recursions of src/core/networkAddressTable.cpp over the program tree, and the tables that
-- are built from them.
use megastructure.Common.{
  ℕ, ◌+◌, List, [], ◌∷◌, Option, none, some, String, if◌then◌else◌, str_eq, ltb, replicate, set,
  get_elem?, Result, ok, throws,
}
use megastructure.Address.Tree.{Elements, end, action, element, get_mega_root}
use megastructure.Address.ClientIds.{ClientIdMap, ClientMap, find_client, insert}

abbrev pub unmapped : ℕ
unmapped = 0

abbrev pub master_id : ℕ
master_id = 4294967295

abbrev pub self_id : ℕ
self_id = 4294967294

-- The loop of recurseClient over the children of an action.
unfoldable pub recurse_children : Elements → ℕ → ClientIdMap → ClientIdMap
recurse_children end client m = m
recurse_children (action index identifier is_host children rest) client m =
    recurse_children rest client (recurse_children children client (insert index client m))
recurse_children (element index rest) client m =
    recurse_children rest client (insert index client m)

-- recurseClient on an action of this index and with these children.
unfoldable pub recurse_client : ℕ → Elements → ℕ → ClientIdMap → ClientIdMap
unfolding recurse_children
recurse_client index children client m = recurse_children children client (insert index client m)

abbrev pub client_or_unmapped : Option ℕ → ℕ
client_or_unmapped (some client) = client
client_or_unmapped none = unmapped

unfoldable pub recurse_mapped_clients : Elements → ClientMap → ClientIdMap → ClientIdMap
unfolding recurse_client
recurse_mapped_clients end clients m = m
recurse_mapped_clients (action index identifier is_host children rest) clients m =
    recurse_mapped_clients rest clients
      (recurse_client index children (client_or_unmapped (find_client identifier clients)) m)
recurse_mapped_clients (element index rest) clients m = recurse_mapped_clients rest clients m

unfoldable pub recurse_slave : Elements → ClientMap → String → ClientIdMap → ClientIdMap
unfolding recurse_client recurse_mapped_clients
recurse_slave end clients coordinator m = m
recurse_slave (action index identifier is_host children rest) clients coordinator m =
    recurse_slave rest clients coordinator (
      if str_eq coordinator identifier
      then recurse_mapped_clients children clients (insert index self_id m)
      else recurse_client index children master_id m)
recurse_slave (element index rest) clients coordinator m = recurse_slave rest clients coordinator m

-- recurseHost below the host's own coordinator.
unfoldable pub recurse_host : Elements → String → ClientIdMap → ClientIdMap
unfolding recurse_client
recurse_host end host m = m
recurse_host (action index identifier is_host children rest) host m =
    recurse_host rest host
      (recurse_client index children (if str_eq host identifier then self_id else master_id) m)
recurse_host (element index rest) host m = recurse_host rest host m

-- recurseHost over the coordinators.
unfoldable pub recurse_coordinators : Elements → String → String → ClientIdMap → ClientIdMap
unfolding recurse_client recurse_host
recurse_coordinators end coordinator host m = m
recurse_coordinators (action index identifier is_host children rest) coordinator host m =
    recurse_coordinators rest coordinator host (
      if str_eq coordinator identifier
      then recurse_host children host (insert index master_id m)
      else recurse_client index children master_id m)
recurse_coordinators (element index rest) coordinator host m =
    recurse_coordinators rest coordinator host m

-- Every type below the action of a host's program is mapped to the index of that action.
unfoldable pub recurse_types : Elements → ClientIdMap → ClientIdMap
unfolding recurse_client
recurse_types end m = m
recurse_types (action index identifier is_host children rest) m =
    let own = recurse_client index children index m in
    let nested = recurse_types children m in recurse_types rest (if is_host then own else nested)
recurse_types (element index rest) m = recurse_types rest m

abbrev pub Table : Type 0
Table = List ℕ

unfoldable pub highest : ℕ → ClientIdMap → ℕ
highest h [] = h
highest h ((k, v) ∷ m) = highest (if ltb h k then k else h) m

unfoldable pub fill : ClientIdMap → Table → Table
fill [] t = t
fill ((k, v) ∷ m) t = fill m (set t k v)

unfoldable pub build_table : ClientIdMap → Table
unfolding highest fill
build_table m = fill m (replicate (highest 0 m + 1) unmapped)

-- `none` is an index out of bounds, which the source does not test for.
abbrev pub get_client_for_type : Table → ℕ → Option ℕ
get_client_for_type t type = get_elem? t type

-- The constructors of the tables. `root` holds the elements below the root of the instances; if
-- there is no program database the table stays empty.
unfoldable pub master_table : Option Elements → ClientMap → Result Table
master_table none clients = ok []
master_table (some root) clients = elim (get_mega_root root) [
  | ok tree ↦ ok (build_table (recurse_mapped_clients tree clients []))
  | throws ↦ throws
]

unfoldable pub slave_table : Option Elements → ClientMap → String → Result Table
slave_table none clients coordinator = ok []
slave_table (some root) clients coordinator = elim (get_mega_root root) [
  | ok tree ↦ ok (build_table (recurse_slave tree clients coordinator []))
  | throws ↦ throws
]

unfoldable pub host_table : Option Elements → String → String → Result Table
host_table none coordinator host = ok []
host_table (some root) coordinator host = elim (get_mega_root root) [
  | ok tree ↦ ok (build_table (recurse_coordinators tree coordinator host []))
  | throws ↦ throws
]

unfoldable pub program_type_table : Option Elements → Result Table
program_type_table none = ok []
program_type_table (some root) = elim (get_mega_root root) [
  | ok tree ↦ ok (build_table (recurse_types tree []))
  | throws ↦ throws
]
