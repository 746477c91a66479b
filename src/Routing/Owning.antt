-- ===== src/Routing/Owning.antt =====
-- The routing with the tables that the master and the slaves build from one program.
use megastructure.Common.{ℕ, ◌≡◌, ◌≢◌, ◌∙◌, ap, true, false, some, String, ok, str_eq}
use megastructure.Protocol.{Request, EgMsg}
use megastructure.Address.Tree.{Elements, get_mega_root}
use megastructure.Address.ClientIds.{ClientMap, find_client}
use megastructure.Address.Tables.{Table, master_id, client_or_unmapped, master_table, slave_table}
use megastructure.Address.Owners.{owner, owning}
use megastructure.Address.Agreement.{
  owner-owning, master_table-owner, slave_table_host, slave_table_other,
}
use megastructure.Master.State.{Master}
use megastructure.Master.Route.{route_client_message}
use megastructure.Slave.Route.{Slave, client_message, server_message}
use megastructure.Routing.{
  IsClient, request_message, slave_sends, slave_sends_host, master_sends, always_slave,
  always_master, request_reaches_owner,
}

-- The master and two slaves have the tables of one program. If the type of a request is below the
-- host `h` of the coordinator `c`, which is not that of the first slave, if clients with ordinary
-- numbers have enrolled as `c` and as `h`, and if every send is delivered, then the handlers bring a
-- request of the eg client `host` of the first slave to the client of `h`, with the first slave as its
-- coordinator and `host` as its host.
pub request_reaches_owning_host :
    (host source target client index : ℕ) (m : EgMsg) (r : Request) (root tree children : Elements)
    (own c h : String) (slaves own_hosts hosts : ClientMap) (a : Slave) (s : Master) (b : Slave)
    (ta ts tb : Table)
    → get_mega_root root ≡ ok tree
    → owning m.type tree ≡ some (index, c, children)
    → index ≢ m.type
    → owner m.type children ≡ some h
    → str_eq own c ≡ false
    → find_client c slaves ≡ some target
    → find_client h hosts ≡ some client
    → slave_table (some root) own_hosts own ≡ ok ta
    → master_table (some root) slaves ≡ ok ts
    → slave_table (some root) hosts c ≡ ok tb
    → a.nat_requests ≡ some ta
    → s.network_address_table ≡ some ts
    → b.nat_requests ≡ some tb
    → host ≢ master_id
    → target ≢ source
    → IsClient target
    → IsClient client
    → let leaving = request_message m (record r { host = host }) in
      let arriving = request_message m (record r { coordinator = source; host = host }) in
      (client_message always_slave host (request_message m r) a ≡ ok (slave_sends a leaving, true))
      × (route_client_message always_master source leaving s
          ≡ ok (master_sends s target arriving, true))
      × (server_message always_slave arriving b ≡ ok (slave_sends_host b client arriving, true))
request_reaches_owning_host host source target client index m r root tree children own c h slaves
      own_hosts hosts a s b ta ts tb hr ho hi hh hn ft fc ea es eb na ns nb nm nt it ic =
    let o : owner m.type tree ≡ some c = owner-owning m.type index tree children c ho in
    request_reaches_owner host source target client m r a s b ta ts tb na ns nb
      (slave_table_other m.type root tree own_hosts c own ta hr o hn ea)
      (master_table-owner m.type root tree slaves c ts hr o es
        ∙ ap (λ x. some (client_or_unmapped x)) ft)
      (slave_table_host m.type index root tree children hosts c h tb hr ho hi hh eb
        ∙ ap (λ x. some (client_or_unmapped x)) fc)
      nm nt it ic
