-- ===== src/Tests/Owning.antt =====
-- Host 5 of the slave "c1" requests type 9, which is below the host "h3" of the coordinator "c2".
use megastructure.Common.{ℕ, ◌≡◌, refl, true, false, [], ◌∷◌, some, arith, ok}
use megastructure.Protocol.{Operation, Request, Content, EgMsg}
use megastructure.Address.Tree.{Elements, end, action, element, get_mega_root}
use megastructure.Address.ClientIds.{ClientMap, insert}
use megastructure.Address.Tables.{
  Table, master_id, recurse_children, recurse_client, recurse_mapped_clients, recurse_slave,
  highest, fill, build_table, master_table, slave_table, get_client_for_type,
}
use megastructure.Address.Agreement.{slave_table_other}
use megastructure.Master.State.{Master}
use megastructure.Master.Route.{route_client_message}
use megastructure.Slave.Route.{Slave, client_message, server_message}
use megastructure.Routing.{
  request_message, slave_sends, slave_sends_host, master_sends, always_slave, always_master,
}
use megastructure.Routing.Owning.{request_reaches_owning_host}

abbrev below_h3 : Elements
below_h3 = action 8 "h3" true (element 9 end) end

abbrev program_tree : Elements
program_tree =
    action 2 "c1" false (action 3 "h1" true (element 4 end) end) (action 7 "c2" false below_h3 end)

abbrev program_root : Elements
program_root = action 1 "mega" false program_tree end

abbrev enrolled_slaves : ClientMap
enrolled_slaves = ("c1", 11) ∷ ("c2", 12) ∷ []

abbrev hosts_of_c1 : ClientMap
hosts_of_c1 = ("h1", 21) ∷ []

abbrev hosts_of_c2 : ClientMap
hosts_of_c2 = ("h3", 31) ∷ []

abbrev table_of_c1 : Table
table_of_c1 = 0 ∷ 0 ∷ 4294967294 ∷ 21 ∷ 21 ∷ 0 ∷ 0 ∷ master_id ∷ master_id ∷ master_id ∷ []

abbrev table_of_master : Table
table_of_master = 0 ∷ 0 ∷ 11 ∷ 11 ∷ 11 ∷ 0 ∷ 0 ∷ 12 ∷ 12 ∷ 12 ∷ []

abbrev table_of_c2 : Table
table_of_c2 = 0 ∷ 0 ∷ master_id ∷ master_id ∷ master_id ∷ 0 ∷ 0 ∷ 4294967294 ∷ 31 ∷ 31 ∷ []

root_found : get_mega_root program_root ≡ ok program_tree
unfolding get_mega_root
root_found = refl

c1_built : slave_table (some program_root) hosts_of_c1 "c1" ≡ ok table_of_c1
unfolding slave_table get_mega_root recurse_slave recurse_mapped_clients recurse_client
    recurse_children insert build_table fill highest
c1_built = refl

c2_built : slave_table (some program_root) hosts_of_c2 "c2" ≡ ok table_of_c2
unfolding slave_table get_mega_root recurse_slave recurse_mapped_clients recurse_client
    recurse_children insert build_table fill highest
c2_built = refl

master_has_built : master_table (some program_root) enrolled_slaves ≡ ok table_of_master
unfolding master_table get_mega_root recurse_mapped_clients recurse_client recurse_children insert
    build_table fill highest
master_has_built = refl

abbrev slave_of : Table → Slave
slave_of t = record {
  hosts = record { process_name_map = []; hostname_mapping = [] };
  nat_requests = some t;
  sent = [];
}

abbrev running_master : Master
running_master = record {
  clients = enrolled_slaves;
  active_program_name = "program";
  network_address_table = some table_of_master;
  sent = [];
  posted = [];
}

abbrev question : EgMsg
question = record { type = 9; instance_id = 0; cycle = 1; content = Content.unset }

abbrev read_of : ℕ → ℕ → Request
read_of coordinator host = record {
  coordinator = coordinator;
  host = host;
  operation = Operation.read;
}

request_reaches_owning_host_example :
    (client_message always_slave 5 (request_message question (read_of 0 0)) (slave_of table_of_c1)
      ≡ ok (slave_sends (slave_of table_of_c1) (request_message question (read_of 0 5)), true))
    × (route_client_message always_master 11 (request_message question (read_of 0 5)) running_master
        ≡ ok (master_sends running_master 12 (request_message question (read_of 11 5)), true))
    × (server_message always_slave (request_message question (read_of 11 5)) (slave_of table_of_c2)
        ≡ ok (
          slave_sends_host (slave_of table_of_c2) 31 (request_message question (read_of 11 5)),
          true,
        ))
request_reaches_owning_host_example =
    request_reaches_owning_host 5 11 12 31 7 question (read_of 0 0) program_root program_tree
      below_h3 "c1" "c2" "h3" enrolled_slaves hosts_of_c1 hosts_of_c2 (slave_of table_of_c1)
      running_master (slave_of table_of_c2) table_of_c1 table_of_master table_of_c2 root_found refl
      (λ e. omega arith) refl refl refl refl c1_built master_has_built c2_built refl refl refl
      (λ e. omega arith) (λ e. omega arith) (λ e. omega arith, λ e. omega arith, λ e. omega arith)
      (λ e. omega arith, λ e. omega arith, λ e. omega arith)

slave_table_other_example : get_client_for_type table_of_c1 9 ≡ some master_id
slave_table_other_example =
    slave_table_other 9 program_root program_tree hosts_of_c1 "c2" "c1" table_of_c1 root_found refl
      refl c1_built
