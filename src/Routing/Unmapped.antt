-- ===== src/Routing/Unmapped.antt =====
-- What becomes of a request for a type that no host owns.
use megastructure.Common.{
  ℕ, ◌≡◌, ◌≢◌, inl, inr, ◌⊎◌, [], ◌∷◌, Option, none, some, arith, ok, Option-cases, ◌∙◌,
}
use megastructure.Protocol.{Request, EgMsg}
use megastructure.Address.Tables.{Table, unmapped, master_id, get_client_for_type}
use megastructure.Master.State
use megastructure.Master.Route.{route_to, route_request, route_content, route_client_message}
use megastructure.Slave.Route.{
  send_master, send_host_eg, route_from_master, request_from_master, content_from_master,
  server_message, route_from_host, request_from_host, content_from_host, client_message,
}
use megastructure.Routing.{IsClient, request_message, answer_message}
use megastructure.Routing.Network.{
  Network, from_host, from_slave, from_master, at_host_eg, hop, travel, travel-hop,
}
use megastructure.Routing.Returns.{hop-answer_from_slave, hop-answer_from_master}

-- What a table has for a type.
abbrev pub target_in : Option Table → ℕ → Option ℕ
target_in none type = none
target_in (some t) type = get_client_for_type t type

abbrev pub by_host : ℕ → Request → Request
by_host host r = record r { host = host }

abbrev pub by_slave : ℕ → Request → Request
by_slave source r = record r { coordinator = source }

-- The type has no client in the table of the host's slave, or it goes to the master and has none
-- in the master's table, or it goes to a slave that has none in its table.
abbrev pub IsUnmapped : Network → ℕ → EgMsg → Type 0
IsUnmapped n source m =
    (target_in (n.slave source).nat_requests m.type ≡ some unmapped)
    ⊎ ((target_in (n.slave source).nat_requests m.type ≡ some master_id)
        × (target_in n.master.network_address_table m.type ≡ some unmapped))
    ⊎ ((target_in (n.slave source).nat_requests m.type ≡ some master_id)
        × ((target : ℕ) × (target_in n.master.network_address_table m.type ≡ some target)
            × IsClient target
            × (target ≢ source)
            × (target_in (n.slave target).nat_requests m.type ≡ some unmapped)))

module _ (n : Network) (source host : ℕ) (m : EgMsg) (r : Request) where
  refused_by_slave :
      target_in (n.slave source).nat_requests m.type ≡ some unmapped
      → host ≢ 0
      → hop n (from_host source host (request_message m r))
        ≡ ok (at_host_eg source host (answer_message m r none) ∷ [])
  unfolding client_message content_from_host request_from_host route_from_host send_host_eg
  refused_by_slave e h = elim (Option-cases (n.slave source).nat_requests) [
    | inl q ↦ absurd (ground (arith, q, e))
    | inr (t, q) ↦ ground (arith, q, e, h)
  ]

  sent_to_master :
      target_in (n.slave source).nat_requests m.type ≡ some master_id
      → host ≢ master_id
      → hop n (from_host source host (request_message m r))
        ≡ ok (from_slave source (request_message m (by_host host r)) ∷ [])
  unfolding client_message content_from_host request_from_host route_from_host send_master
  sent_to_master e h = elim (Option-cases (n.slave source).nat_requests) [
    | inl q ↦ absurd (ground (arith, q, e))
    | inr (t, q) ↦ ground (arith, q, e, h)
  ]

  refused_by_master :
      target_in n.master.network_address_table m.type ≡ some unmapped
      → hop n (from_slave source (request_message m r))
        ≡ ok (from_master source (answer_message m (by_slave 0 r) none) ∷ [])
  unfolding route_client_message route_content route_request route_to State.send
  refused_by_master e = elim (Option-cases n.master.network_address_table) [
    | inl q ↦ absurd (ground (arith, q, e))
    | inr (t, q) ↦ ground (arith, q, e)
  ]

  sent_to_slave :
      (target : ℕ)
      → target_in n.master.network_address_table m.type ≡ some target
      → IsClient target
      → target ≢ source
      → hop n (from_slave source (request_message m r))
        ≡ ok (from_master target (request_message m (by_slave source r)) ∷ [])
  unfolding route_client_message route_content route_request route_to State.send
  sent_to_slave target e c d = elim (Option-cases n.master.network_address_table) [
    | inl q ↦ absurd (ground (arith, q, e))
    | inr (t, q) ↦ ground (arith, q, e, c.0, c.1, c.2, d)
  ]

  refused_by_target :
      (target : ℕ)
      → target_in (n.slave target).nat_requests m.type ≡ some unmapped
      → hop n (from_master target (request_message m r))
        ≡ ok (from_slave target (answer_message m r none) ∷ [])
  unfolding server_message content_from_master request_from_master route_from_master send_master
  refused_by_target target e = elim (Option-cases (n.slave target).nat_requests) [
    | inl q ↦ absurd (ground (arith, q, e))
    | inr (t, q) ↦ ground (arith, q, e)
  ]

module _ (n : Network) (m : EgMsg) where
  error_by_master :
      (a : ℕ) (r : Request)
      → r.coordinator ≢ 0
      → hop n (from_slave a (answer_message m r none))
        ≡ ok (from_master r.coordinator (answer_message m r none) ∷ [])
  error_by_master a r c = hop-answer_from_slave n a m r none ∙ ground (arith, c)

  error_by_slave :
      (a : ℕ) (r : Request)
      → r.host ≢ 0
      → hop n (from_master a (answer_message m r none))
        ≡ ok (at_host_eg a r.host (answer_message m r none) ∷ [])
  error_by_slave a r h = hop-answer_from_master n a m r none ∙ ground (arith, h)

-- A host of a slave, neither of them the client 0 and the host not the number that stands for the
-- master, requests a type that has no client in the table of its slave, or that its slave sends to
-- the master, whose table has no client for it or another slave that has none in its own table. If
-- every send is delivered, what comes of the request is one error, at the host that made it.
pub unmapped_returns :
    (n : Network) (source host : ℕ) (m : EgMsg) (r : Request)
    → source ≢ 0
    → host ≢ 0
    → host ≢ master_id
    → IsUnmapped n source m
    → (r' : Request) × (travel 5 n (from_host source host (request_message m r) ∷ [])
        ≡ ok (at_host_eg source host (answer_message m r' none) ∷ []))
unmapped_returns n source host m r s h hm (inl here) = (
  r,
  travel-hop n 4 (from_host source host (request_message m r))
      (at_host_eg source host (answer_message m r none))
      (refused_by_slave n source host m r here h),
)
unmapped_returns n source host m r s h hm (inr (inl (up, there))) =
    let r₁ = by_host host r in
    let r₂ = by_slave 0 r₁ in
    (
      r₂,
      travel-hop n 4 (from_host source host (request_message m r))
            (from_slave source (request_message m r₁)) (sent_to_master n source host m r up hm)
          ∙ (travel-hop n 3 (from_slave source (request_message m r₁))
                (from_master source (answer_message m r₂ none))
                (refused_by_master n source host m r₁ there)
              ∙ travel-hop n 2 (from_master source (answer_message m r₂ none))
                  (at_host_eg source host (answer_message m r₂ none))
                  (error_by_slave n m source r₂ h)),
    )
unmapped_returns n source host m r s h hm (inr (inr (up, (target, at, c, d, there)))) =
    let r₁ = by_host host r in
    let r₂ = by_slave source r₁ in
    (
      r₂,
      travel-hop n 4 (from_host source host (request_message m r))
            (from_slave source (request_message m r₁)) (sent_to_master n source host m r up hm)
          ∙ (travel-hop n 3 (from_slave source (request_message m r₁))
                (from_master target (request_message m r₂))
                (sent_to_slave n source host m r₁ target at c d)
              ∙ (travel-hop n 2 (from_master target (request_message m r₂))
                    (from_slave target (answer_message m r₂ none))
                    (refused_by_target n source host m r₂ target there)
                  ∙ (travel-hop n 1 (from_slave target (answer_message m r₂ none))
                        (from_master source (answer_message m r₂ none))
                        (error_by_master n m target r₂ s)
                      ∙ travel-hop n 0 (from_master source (answer_message m r₂ none))
                          (at_host_eg source host (answer_message m r₂ none))
                          (error_by_slave n m source r₂ h)))),
    )
