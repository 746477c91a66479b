-- ===== src/Master/Route.antt =====
-- RouteEGProtocolActivity of src/master/activities.cpp.
use megastructure.Common.{
  ℕ, Bool, true, false, [], ◌∷◌, none, some, ◌==◌, if◌then◌else◌, Result, ok, throws,
}
use megastructure.Protocol.{Request, Content, EgMsg, Message}
use megastructure.Address.Tables.{unmapped, master_id, self_id, get_client_for_type}
use megastructure.Master.Clients.{ClientIdMap}
use megastructure.Master.State.{Master, send}

abbrev pub copy_request_set_source_coordinator : EgMsg → Request → ℕ → Message
copy_request_set_source_coordinator m r client =
    Message.eg_msg (record m { content = Content.request (record r { coordinator = client }) })

-- The error for a request that cannot be routed; its coordinator is not set.
abbrev pub unmapped_error : EgMsg → Request → Message
unmapped_error m r =
    Message.eg_msg
      (record m { content = Content.error (record { coordinator = 0; host = r.host }) })

module _ (delivers : ℕ → Bool) where
  -- The loop over the clients; a failed send is not looked at.
  unfoldable pub broadcast_event : Message → ℕ → ClientIdMap → Master → Master
  broadcast_event message source [] s = s
  broadcast_event message source ((name, id) ∷ rest) s =
      broadcast_event message source rest
        (if id == source then s else (send delivers message id s).0)

  unfoldable pub route_to : ℕ → ℕ → EgMsg → Request → Master → Result Master
  route_to target source m r s =
      if target == master_id
      then throws
      else if target == self_id
      then throws
      else if target == unmapped
      then ok (send delivers (unmapped_error m r) source s).0
      else if target == source
      then throws
      else ok (send delivers (copy_request_set_source_coordinator m r source) target s).0

  -- An index out of the bounds of the table is undefined in the source; here it throws.
  unfoldable pub route_request : ℕ → EgMsg → Request → Master → Result Master
  unfolding route_to
  route_request source m r s = elim s.network_address_table [
    | none ↦ ok s
    | some table ↦ elim (get_client_for_type table m.type) [
      | none ↦ throws
      | some target ↦ route_to target source m r s
    ]
  ]

  unfoldable pub route_content : Content → ℕ → EgMsg → Master → Result Master
  unfolding route_request broadcast_event
  route_content (Content.request r) source m s = route_request source m r s
  route_content (Content.response r) source m s =
      if r.coordinator == 0 then throws else ok (send delivers (Message.eg_msg m) r.coordinator s).0
  route_content (Content.error r) source m s =
      if r.coordinator == 0 then throws else ok (send delivers (Message.eg_msg m) r.coordinator s).0
  route_content (Content.event value) source m s =
      ok (broadcast_event (Message.eg_msg m) source s.clients s)
  route_content Content.unset source m s = ok s

  unfoldable pub route_client_message : ℕ → Message → Master → Result (Master × Bool)
  unfolding route_content
  route_client_message source (Message.eg_msg m) s = elim (route_content m.content source m s) [
    | ok s' ↦ ok (s', true)
    | throws ↦ throws
  ]
  route_client_message source _ s = ok (s, false)
