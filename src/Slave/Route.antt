-- ===== src/Slave/Route.antt =====
-- RouteEGProtocolActivity of src/slave/activitiesEG.cpp, and the sends of class Slave in
-- src/slave/slave.cpp. Whether a send reaches its client is decided by the network.
use megastructure.Common.{
  ℕ, Bool, true, false, not, List, [], ◌∷◌, ◌++◌, Option, none, some, ◌==◌, if◌then◌else◌, Result,
  ok, throws, ◌>>=◌,
}
use megastructure.Protocol.{Request, Content, EgMsg, Message}
use megastructure.Address.Tables.{Table, unmapped, master_id, self_id, get_client_for_type}
use megastructure.Slave.Hosts.{HostNameMap, HostMap, remove_client, has_mega}

-- What the slave sends, with the socket and the client.
pub data Sent : Type 0 where
  to_master : Message → Sent
  to_host : ℕ → Message → Sent
  to_host_eg : ℕ → Message → Sent

pub record Slave : Type 0 where
  pub hosts : HostMap
  pub nat_requests : Option Table
  pub sent : List Sent

abbrev pub copy_request_set_source_host : EgMsg → Request → ℕ → Message
copy_request_set_source_host m r client =
    Message.eg_msg (record m { content = Content.request (record r { host = client }) })

abbrev pub unmapped_error : EgMsg → Request → Message
unmapped_error m r =
    Message.eg_msg
      (record m { content = Content.error (record { coordinator = r.coordinator; host = r.host }) })

module _ (delivers : Sent → Bool) where
  unfoldable pub send_master : Message → Slave → Slave
  send_master message s =
      if delivers (to_master message)
      then record s { sent = s.sent ++ (to_master message ∷ []) }
      else s

  unfoldable pub send_host : Message → ℕ → Slave → Slave
  send_host message client s =
      if delivers (to_host client message)
      then record s { sent = s.sent ++ (to_host client message ∷ []) }
      else record s { hosts = remove_client client s.hosts }

  unfoldable pub send_host_eg : Message → ℕ → Slave → Slave
  send_host_eg message client s =
      if delivers (to_host_eg client message)
      then record s { sent = s.sent ++ (to_host_eg client message ∷ []) }
      else record s { hosts = remove_client client s.hosts }

  -- The loop over the enrolled hosts. A host that a failed send has removed is no longer visited.
  -- The removal of the host that the loop stands on is undefined in the source; here it throws.
  unfoldable pub send_event : (ℕ → Bool) → Message → HostNameMap → Slave → Result Slave
  unfolding send_host_eg
  send_event to message [] s = ok s
  send_event to message ((name, h) ∷ rest) s =
      let skipped = send_event to message rest s in
      let sending = send_event to message rest (send_host_eg message h.eg_client_id s) in
      if has_mega h.mega_client_id s.hosts.process_name_map
      then (if to h.eg_client_id
          then (if delivers (to_host_eg h.eg_client_id message)
              then sending
              else if h.eg_client_id == h.mega_client_id
              then throws
              else sending)
          else skipped)
      else skipped

  unfoldable pub route_from_master : ℕ → EgMsg → Request → Slave → Result Slave
  unfolding send_master send_host
  route_from_master target m r s =
      if target == master_id
      then throws
      else if target == self_id
      then throws
      else if target == unmapped
      then ok (send_master (unmapped_error m r) s)
      else ok (send_host (Message.eg_msg m) target s)

  -- An index out of the bounds of the table is undefined in the source; here it throws.
  unfoldable pub request_from_master : EgMsg → Request → Slave → Result Slave
  unfolding route_from_master
  request_from_master m r s = elim s.nat_requests [
    | none ↦ ok s
    | some table ↦ elim (get_client_for_type table m.type) [
      | none ↦ throws
      | some target ↦ route_from_master target m r s
    ]
  ]

  unfoldable pub content_from_master : Content → EgMsg → Slave → Result Slave
  unfolding request_from_master send_host_eg send_event
  content_from_master (Content.request r) m s = request_from_master m r s
  content_from_master (Content.response r) m s =
      if r.host == 0 then throws else ok (send_host_eg (Message.eg_msg m) r.host s)
  content_from_master (Content.error r) m s =
      if r.host == 0 then throws else ok (send_host_eg (Message.eg_msg m) r.host s)
  content_from_master (Content.event value) m s =
      send_event (λ id. true) (Message.eg_msg m) s.hosts.process_name_map s
  content_from_master Content.unset m s = ok s

  unfoldable pub server_message : Message → Slave → Result (Slave × Bool)
  unfolding content_from_master
  server_message (Message.eg_msg m) s = content_from_master m.content m s >>= λ s'. ok (s', true)
  server_message _ s = ok (s, false)

  unfoldable pub route_from_host : ℕ → ℕ → EgMsg → Request → Slave → Result Slave
  unfolding send_master send_host send_host_eg
  route_from_host target client m r s =
      if target == client
      then throws
      else if target == master_id
      then ok (send_master (copy_request_set_source_host m r client) s)
      else if target == self_id
      then throws
      else if target == unmapped
      then ok (send_host_eg (unmapped_error m r) client s)
      else ok (send_host (copy_request_set_source_host m r client) target s)

  unfoldable pub request_from_host : ℕ → EgMsg → Request → Slave → Result Slave
  unfolding route_from_host
  request_from_host client m r s = elim s.nat_requests [
    | none ↦ ok s
    | some table ↦ elim (get_client_for_type table m.type) [
      | none ↦ throws
      | some target ↦ route_from_host target client m r s
    ]
  ]

  -- A response or an error, with these ids, to a request.
  unfoldable pub answer_from_host : ℕ → ℕ → EgMsg → Slave → Result Slave
  unfolding send_master send_host_eg
  answer_from_host coordinator host m s =
      if coordinator == 0
      then (if host == 0 then throws else ok (send_host_eg (Message.eg_msg m) host s))
      else ok (send_master (Message.eg_msg m) s)

  unfoldable pub content_from_host : Content → ℕ → EgMsg → Slave → Result Slave
  unfolding request_from_host answer_from_host send_master send_event
  content_from_host (Content.request r) client m s = request_from_host client m r s
  content_from_host (Content.response r) client m s = answer_from_host r.coordinator r.host m s
  content_from_host (Content.error r) client m s = answer_from_host r.coordinator r.host m s
  content_from_host (Content.event value) client m s =
      let s' = send_master (Message.eg_msg m) s in
      send_event (λ id. not (id == client)) (Message.eg_msg m) s'.hosts.process_name_map s'
  content_from_host Content.unset client m s = throws

  unfoldable pub client_message : ℕ → Message → Slave → Result (Slave × Bool)
  unfolding content_from_host
  client_message client (Message.eg_msg m) s =
      content_from_host m.content client m s >>= λ s'. ok (s', true)
  client_message client _ s = ok (s, false)
