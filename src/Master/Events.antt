-- ===== src/Master/Events.antt =====
-- The events that RouteEGProtocolActivity of src/master/activities.cpp forwards.
use megastructure.Common.{
  ℕ, ◌≡◌, sym, ap, inl, inr, Bool, true, List, [], ◌∷◌, ◌++◌, arith, ◌==◌, if◌then◌else◌, ok,
  Bool-cases,
}
use megastructure.Protocol.{Bytes, Content, EgMsg, Message}
use megastructure.Master.Clients.{ClientIdMap}
use megastructure.Master.State.{Master, send}
use megastructure.Master.Route.{broadcast_event, route_content, route_client_message}
use mathlib.Core.List.{append_assoc, append-nil}

module _ (delivers : ℕ → Bool) where
  -- One message to each client of the map but the source, as far as the network delivers it.
  abbrev pub event_sends : Message → ℕ → ClientIdMap → List (ℕ × Message)
  event_sends message source [] = []
  event_sends message source ((name, id) ∷ rest) =
      if id == source
      then event_sends message source rest
      else if delivers id
      then (id, message) ∷ event_sends message source rest
      else event_sends message source rest

  broadcast_event-event_sends :
      (message : Message) (source : ℕ) (m : ClientIdMap) (s : Master)
      → broadcast_event delivers message source m s
        ≡ record s { sent = s.sent ++ event_sends message source m }
  unfolding broadcast_event send
  broadcast_event-event_sends message source [] s =
      sym (ap (λ x. record s { sent = x }) (append-nil s.sent))
  broadcast_event-event_sends message source ((name, id) ∷ rest) s =
      elim (Bool-cases (id == source)) [
        | inl e ↦ ground (arith, e, broadcast_event-event_sends message source rest s)
        | inr e ↦ elim (Bool-cases (delivers id)) [
          | inl d ↦ ground (
            arith,
            e,
            d,
            broadcast_event-event_sends message source rest
                (record s { sent = s.sent ++ ((id, message) ∷ []) }),
            append_assoc s.sent ((id, message) ∷ []) (event_sends message source rest),
          )
          | inr d ↦ ground (arith, e, d, broadcast_event-event_sends message source rest s)
        ]
      ]

  -- An event of a client is sent on, unchanged, once for each entry of the client map that is not
  -- of that client, in the order of the map, wherever the network delivers it; nothing else
  -- changes, and a failed send stops neither the loop nor the handler.
  pub event_reaches_others :
      (source : ℕ) (m : EgMsg) (value : Bytes) (s : Master)
      → let message = Message.eg_msg (record m { content = Content.event value }) in
        route_client_message delivers source message s
        ≡ ok (record s { sent = s.sent ++ event_sends message source s.clients }, true)
  unfolding route_client_message route_content
  event_reaches_others source m value s =
      let message = Message.eg_msg (record m { content = Content.event value }) in
      ap (λ x. ok (x, true)) (broadcast_event-event_sends message source s.clients s)
