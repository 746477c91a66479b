-- ===== src/Tests/Routing.antt =====
-- Host 5 of slave 11 requests type 2, which host 6 of slave 12 owns.
use megastructure.Common.{
  ◌+◌, List, ℕ, ◌≡◌, refl, String, not, ◌==◌, Bool, true, [], ◌∷◌, none, some, arith, ok, inr,
  if◌then◌else◌,
}
use megastructure.Protocol.{Operation, Request, Content, EgMsg, Message}
use megastructure.Address.Tables.{Table, master_id}
use megastructure.Master.State.{Master}
use megastructure.Master.Route.{route_client_message}
use megastructure.Master.Events.{event_reaches_others}
use megastructure.Slave.Hosts.{Host, HostMap}
use megastructure.Slave.Remap.{
  Pairs, find_name, remap, reuse, assign, reusable, take_first, erase_name, insert_name,
}
use megastructure.Slave.Fresh.{entries_of, hosts_with, entries_named, names_with, Fresh}
use megastructure.Slave.Processes.{Serves, remap-Serves}
use megastructure.Slave.Partition.{remap_partition}
use megastructure.Slave.Route.{Slave}
use megastructure.Routing.{request_message, answer_message}
use megastructure.Routing.Network.{Network, from_host, at_host_eg, travel}
use megastructure.Routing.Returns.{response_returns}
use megastructure.Routing.Unmapped.{unmapped_returns}

abbrev host_of : ℕ → String → Host
host_of id unique_id = record {
  process_name = "unreal";
  unique_id = unique_id;
  mega_client_id = id;
  eg_client_id = 0;
}

abbrev two_hosts : HostMap
two_hosts = record {
  process_name_map = ("unreal", host_of 21 "a") ∷ ("unreal", host_of 22 "b") ∷ [];
  hostname_mapping = ("first", host_of 21 "a") ∷ [];
}

abbrev slave_with : Table → Slave
slave_with t = record { hosts = two_hosts; nat_requests = some t; sent = [] }

abbrev master_with : Table → Master
master_with t = record {
  clients = ("one", 11) ∷ ("two", 12) ∷ ("three", 13) ∷ [];
  active_program_name = "program";
  network_address_table = some t;
  sent = [];
  posted = [];
}

abbrev source_table : Table
source_table = 0 ∷ 0 ∷ master_id ∷ []

abbrev table_at_master : Table
table_at_master = 0 ∷ 0 ∷ 12 ∷ []

abbrev owner_table : Table
owner_table = 0 ∷ 0 ∷ 6 ∷ []

abbrev empty_table : Table
empty_table = 0 ∷ 0 ∷ 0 ∷ []

abbrev read_request : Request
read_request = record { coordinator = 0; host = 0; operation = Operation.read }

abbrev came_from : Request
came_from = record { coordinator = 11; host = 5; operation = Operation.read }

abbrev asked : EgMsg
asked = record { type = 2; instance_id = 0; cycle = 1; content = Content.unset }

abbrev network : Network
network = record {
  master = master_with table_at_master;
  slave = λ id. slave_with (if id == 11 then source_table else owner_table);
}

response_returns_example :
    travel 3 network (from_host 12 6 (answer_message asked came_from (some (1 ∷ 2 ∷ []))) ∷ [])
    ≡ ok (at_host_eg 11 5 (answer_message asked came_from (some (1 ∷ 2 ∷ []))) ∷ [])
response_returns_example = response_returns network 12 6 asked came_from (some (1 ∷ 2 ∷ []))

-- The slave 12 has no client for the type.
abbrev without_owner : Network
without_owner = record network {
  slave = λ id. slave_with (if id == 11 then source_table else empty_table);
}

unmapped_returns_example :
    (r' : Request) × (travel 5 without_owner
        (from_host 11 5 (request_message asked read_request) ∷ [])
      ≡ ok (at_host_eg 11 5 (answer_message asked r' none) ∷ []))
unmapped_returns_example =
    unmapped_returns without_owner 11 5 asked read_request (λ e. omega arith) (λ e. omega arith)
      (λ e. omega arith)
      (inr (
        inr (
          refl,
          (
            12,
            refl,
            (λ e. omega arith, λ e. omega arith, λ e. omega arith),
            λ e. omega arith,
            refl,
          ),
        )))

-- The network does not deliver to client 12.
abbrev some_ids : ℕ → Bool
some_ids id = not (id == 12)

abbrev event : Message
event = Message.eg_msg (record asked { content = Content.event (9 ∷ []) })

event_reaches_others_example :
    route_client_message some_ids 11 event (master_with table_at_master)
    ≡ ok (record (master_with table_at_master) { sent = (13, event) ∷ [] }, true)
event_reaches_others_example =
    event_reaches_others some_ids 11 asked (9 ∷ []) (master_with table_at_master)

-- Client 21 keeps its host name, client 22 takes the first name of its process, and the last name is
-- left without a client.
abbrev new_names : Pairs
new_names = ("unreal", "second") ∷ ("unreal", "first") ∷ ("maya", "third") ∷ []

new_names-Fresh : Fresh new_names []
new_names-Fresh = (refl, refl, (refl, refl, (refl, refl, tt)))

remap_partition_example :
    ((remap two_hosts new_names).0.process_name_map ≡ two_hosts.process_name_map)
    × (entries_of 22 two_hosts.process_name_map
        ≡ entries_of 22 (remap two_hosts new_names).0.hostname_mapping
          + hosts_with 22 (remap two_hosts new_names).1)
    × (1
        ≡ entries_named "third" (remap two_hosts new_names).0.hostname_mapping
          + names_with "third" (remap two_hosts new_names).2)
remap_partition_example = remap_partition 22 "third" two_hosts new_names new_names-Fresh

remap_runs : ◌≡◌ {A = List String} (remap two_hosts new_names).2 ("third" ∷ [])
unfolding remap reuse assign reusable take_first erase_name insert_name
remap_runs = refl

second_given :
    find_name "second" (remap two_hosts new_names).0.hostname_mapping ≡ some (host_of 22 "b")
unfolding remap reuse assign reusable take_first erase_name insert_name
second_given = refl

remap-Serves_example : Serves two_hosts.process_name_map new_names "second" (host_of 22 "b")
remap-Serves_example = remap-Serves two_hosts new_names "second" (host_of 22 "b") second_given
