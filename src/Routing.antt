-- ===== src/Routing.antt =====
-- The eg protocol across the processes: a request of a host through its slave, the master and the
-- slave of the owner, and the answer on its way back. The handlers are those of
-- src/slave/activitiesEG.cpp and src/master/activities.cpp; the answer has the coordinator and the
-- host of the request, as the owner's src/component/activities.cpp writes it.
pub mod Owning
pub mod Network
pub mod Returns
pub mod Unmapped
use megastructure.Common.{ℕ, ◌≡◌, ◌≢◌, Bool, true, [], ◌∷◌, ◌++◌, Option, none, some, arith, ok}
use megastructure.Protocol.{Bytes, Request, Content, EgMsg, Message}
use megastructure.Address.Tables.{Table, unmapped, master_id, self_id, get_client_for_type}
use megastructure.Master.State.{Master}
use megastructure.Master.State
use megastructure.Master.Route.{route_to, route_request, route_content, route_client_message}
use megastructure.Slave.Route.{
  Slave, Sent, to_master, to_host, to_host_eg, send_master, send_host, send_host_eg,
  route_from_master, request_from_master, content_from_master, server_message, route_from_host,
  request_from_host, answer_from_host, content_from_host, client_message,
}

-- An id of a table that stands for a client.
abbrev pub IsClient : ℕ → Type 0
IsClient id = (id ≢ unmapped) × (id ≢ master_id) × (id ≢ self_id)

abbrev pub request_message : EgMsg → Request → Message
request_message m r = Message.eg_msg (record m { content = Content.request r })

-- The answer to a request: a response with a value, or an error.
abbrev pub answer_message : EgMsg → Request → Option Bytes → Message
answer_message m r (some value) = Message.eg_msg (record m {
  content = Content.response (record { coordinator = r.coordinator; host = r.host; value = value });
})
answer_message m r none =
    Message.eg_msg
      (record m { content = Content.error (record { coordinator = r.coordinator; host = r.host }) })

abbrev pub slave_sends : Slave → Message → Slave
slave_sends s message = record s { sent = s.sent ++ (to_master message ∷ []) }

abbrev pub slave_sends_host : Slave → ℕ → Message → Slave
slave_sends_host s id message = record s { sent = s.sent ++ (to_host id message ∷ []) }

abbrev pub master_sends : Master → ℕ → Message → Master
master_sends s id message = record s { sent = s.sent ++ ((id, message) ∷ []) }

abbrev pub always_slave : Sent → Bool
always_slave x = true

abbrev pub always_master : ℕ → Bool
always_master x = true

request_leaves :
    (host : ℕ) (m : EgMsg) (r : Request) (s : Slave) (t : Table)
    → s.nat_requests ≡ some t
    → get_client_for_type t m.type ≡ some master_id
    → host ≢ master_id
    → client_message always_slave host (request_message m r) s
      ≡ ok (slave_sends s (request_message m (record r { host = host })), true)
unfolding client_message content_from_host request_from_host route_from_host send_master
request_leaves host m r s t hs ht hh = ground (arith, hs, ht, hh)

request_crosses :
    (source target : ℕ) (m : EgMsg) (r : Request) (s : Master) (t : Table)
    → s.network_address_table ≡ some t
    → get_client_for_type t m.type ≡ some target
    → IsClient target
    → target ≢ source
    → route_client_message always_master source (request_message m r) s
      ≡ ok (master_sends s target (request_message m (record r { coordinator = source })), true)
unfolding route_client_message route_content route_request route_to State.send
request_crosses source target m r s t hs ht hc hh = ground (arith, hs, ht, hh, hc.0, hc.1, hc.2)

request_arrives :
    (target : ℕ) (m : EgMsg) (r : Request) (s : Slave) (t : Table)
    → s.nat_requests ≡ some t
    → get_client_for_type t m.type ≡ some target
    → IsClient target
    → server_message always_slave (request_message m r) s
      ≡ ok (slave_sends_host s target (request_message m r), true)
unfolding server_message content_from_master request_from_master route_from_master send_host
request_arrives target m r s t hs ht hc = ground (arith, hs, ht, hc.0, hc.1, hc.2)

-- A request of the eg client `host` of a slave whose table sends the type to the master, where the
-- master's table has the client `target` for the type, which is not the slave, and the table of the
-- target's slave has its host `owner`: the three handlers, each given what the one before it has
-- sent, and every send being delivered, bring the request to `owner` with the slave as its
-- coordinator and `host` as its host.
pub request_reaches_owner :
    (host source target owner : ℕ) (m : EgMsg) (r : Request) (a : Slave) (c : Master) (b : Slave)
    (ta tc tb : Table)
    → a.nat_requests ≡ some ta
    → c.network_address_table ≡ some tc
    → b.nat_requests ≡ some tb
    → get_client_for_type ta m.type ≡ some master_id
    → get_client_for_type tc m.type ≡ some target
    → get_client_for_type tb m.type ≡ some owner
    → host ≢ master_id
    → target ≢ source
    → IsClient target
    → IsClient owner
    → let leaving = request_message m (record r { host = host }) in
      let arriving = request_message m (record r { coordinator = source; host = host }) in
      (client_message always_slave host (request_message m r) a ≡ ok (slave_sends a leaving, true))
      × (route_client_message always_master source leaving c
          ≡ ok (master_sends c target arriving, true))
      × (server_message always_slave arriving b ≡ ok (slave_sends_host b owner arriving, true))
request_reaches_owner host source target owner m r a c b ta tc tb ha hc hb la lc lb hh hs it io = (
  request_leaves host m r a ta ha la hh,
  request_crosses source target m (record r { host = host }) c tc hc lc it hs,
  request_arrives owner m (record r { coordinator = source; host = host }) b tb hb lb io,
)
