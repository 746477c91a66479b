-- ===== src/Tests/Address.antt =====
-- A program with two coordinators, of which the first has two hosts. The type 4 is below the host
-- "h1" of the coordinator "c1".
use megastructure.Common.{◌≡◌, refl, true, false, [], ◌∷◌, some, arith, ok, get_elem?, ◌≤◌}
use megastructure.Address.Tree.{Elements, end, action, element, get_mega_root}
use megastructure.Address.ClientIds.{ClientIdMap, ClientMap, insert, Distinct}
use megastructure.Address.Tables.{
  Table, master_id, get_client_for_type, recurse_children, recurse_client, recurse_mapped_clients,
  recurse_slave, highest, fill, build_table, master_table, slave_table,
}
use megastructure.Address.Owners.{OwnedOnce}
use megastructure.Address.Build.{build_table_equivalent, lookup-le-highest}
use megastructure.Address.Agreement.{master_table-owner, slave_table_host}

abbrev first_hosts : Elements
first_hosts = action 3 "h1" true (element 4 end) (action 5 "h2" true (element 6 end) end)

abbrev second_hosts : Elements
second_hosts = action 8 "h3" true (element 9 end) end

abbrev tree : Elements
tree = action 2 "c1" false first_hosts (action 7 "c2" false second_hosts end)

abbrev root : Elements
root = action 1 "mega" false tree end

abbrev coordinators : ClientMap
coordinators = ("c1", 11) ∷ ("c2", 12) ∷ []

abbrev hosts : ClientMap
hosts = ("h1", 21) ∷ []

abbrev at_master : Table
at_master = 0 ∷ 0 ∷ 11 ∷ 11 ∷ 11 ∷ 11 ∷ 11 ∷ 12 ∷ 12 ∷ 12 ∷ []

abbrev at_slave : Table
at_slave = 0 ∷ 0 ∷ 4294967294 ∷ 21 ∷ 21 ∷ 0 ∷ 0 ∷ master_id ∷ master_id ∷ master_id ∷ []

root_is_mega : get_mega_root root ≡ ok tree
unfolding get_mega_root
root_is_mega = refl

master_built : master_table (some root) coordinators ≡ ok at_master
unfolding master_table get_mega_root recurse_mapped_clients recurse_client recurse_children insert
    build_table fill highest
master_built = refl

slave_built : slave_table (some root) hosts "c1" ≡ ok at_slave
unfolding slave_table get_mega_root recurse_slave recurse_mapped_clients recurse_client
    recurse_children insert build_table fill highest
slave_built = refl

master_table-owner_example : get_client_for_type at_master 4 ≡ some 11
master_table-owner_example =
    master_table-owner 4 root tree coordinators "c1" at_master root_is_mega refl master_built

slave_table_host_example : get_client_for_type at_slave 4 ≡ some 21
slave_table_host_example =
    slave_table_host 4 2 root tree first_hosts hosts "c1" "h1" at_slave root_is_mega refl
      (λ e. omega arith) refl slave_built

type-OwnedOnce : OwnedOnce 4 tree
type-OwnedOnce = (λ e. refl, (λ e. cc, tt))

abbrev entries : ClientIdMap
entries = (3, 21) ∷ (1, 22) ∷ []

entries-Distinct : Distinct entries
entries-Distinct = (refl, (refl, tt))

abbrev entries_table : Table
entries_table = 0 ∷ 22 ∷ 0 ∷ 21 ∷ []

highest_entry : 2 ≤ highest 0 entries
highest_entry = omega (arith, lookup-le-highest 0 3 21 entries refl)

entry_built : get_elem? (build_table entries) 3 ≡ some 21
unfolding build_table fill highest
entry_built = refl

build_table_equivalent_example : get_elem? (build_table entries) 2 ≡ some 0
unfolding highest
build_table_equivalent_example = build_table_equivalent 2 entries entries-Distinct
