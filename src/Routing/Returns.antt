-- ===== src/Routing/Returns.antt =====
-- How the answers to requests come back to the hosts that made the requests.
use megastructure.Common.{
  ℕ, ◌≡◌, inl, inr, List, [], ◌∷◌, Option, none, some, arith, ◌==◌, if◌then◌else◌, Result, ok,
  throws, Bool-cases, ◌∙◌,
}
use megastructure.Protocol.{Bytes, Request, EgMsg}
use megastructure.Master.State
use megastructure.Master.Route.{route_content, route_client_message}
use megastructure.Slave.Route.{
  send_master, send_host_eg, content_from_master, server_message, answer_from_host,
  content_from_host, client_message,
}
use megastructure.Routing.{answer_message}
use megastructure.Routing.Network.{
  Network, Transit, from_host, from_slave, from_master, at_host_eg, hop, travel, travel-hop,
  travel-hop_throws,
}

-- One of the answers at the eg client of a host, which is not the client 0.
abbrev pub handed : ℕ → EgMsg → Request → Option Bytes → Result (List Transit)
handed a m r value =
    if r.host == 0 then throws else ok (at_host_eg a r.host (answer_message m r value) ∷ [])

hop-answer_from_host :
    (n : Network) (a owner : ℕ) (m : EgMsg) (r : Request) (value : Option Bytes)
    → hop n (from_host a owner (answer_message m r value)) ≡ (
        if r.coordinator == 0
        then handed a m r value
        else ok (from_slave a (answer_message m r value) ∷ []))
unfolding client_message content_from_host answer_from_host send_master send_host_eg
hop-answer_from_host n a owner m r (some x) = ground arith
hop-answer_from_host n a owner m r none = ground arith

pub hop-answer_from_slave :
    (n : Network) (a : ℕ) (m : EgMsg) (r : Request) (value : Option Bytes)
    → hop n (from_slave a (answer_message m r value)) ≡ (
        if r.coordinator == 0
        then throws
        else ok (from_master r.coordinator (answer_message m r value) ∷ []))
unfolding route_client_message route_content State.send
hop-answer_from_slave n a m r (some x) = ground arith
hop-answer_from_slave n a m r none = ground arith

pub hop-answer_from_master :
    (n : Network) (a : ℕ) (m : EgMsg) (r : Request) (value : Option Bytes)
    → hop n (from_master a (answer_message m r value)) ≡ handed a m r value
unfolding server_message content_from_master send_host_eg
hop-answer_from_master n a m r (some x) = ground arith
hop-answer_from_master n a m r none = ground arith

-- If every send is delivered, the answer of a host of the slave `target` to a request, a response or
-- an error, comes unchanged to one host and to no other: to the eg client that is the request's
-- host, of the slave that is the request's coordinator, or of the slave `target` itself if the
-- coordinator is 0. If the host is 0, a slave on the way throws.
pub response_returns :
    (n : Network) (target owner : ℕ) (m : EgMsg) (r : Request) (value : Option Bytes)
    → travel 3 n (from_host target owner (answer_message m r value) ∷ []) ≡ (
        if r.host == 0
        then throws
        else ok (
            at_host_eg
              (if r.coordinator == 0 then target else r.coordinator)
              r.host
              (answer_message m r value)
            ∷ []))
response_returns n target owner m r value =
    let first = from_host target owner (answer_message m r value) in
    let second = from_slave target (answer_message m r value) in
    let third = from_master r.coordinator (answer_message m r value) in
    let leaves = hop-answer_from_host n target owner m r value in
    let crosses = hop-answer_from_slave n target m r value in
    let arrives = hop-answer_from_master n r.coordinator m r value in
    elim (Bool-cases (r.coordinator == 0)) [
      | inl local ↦ elim (Bool-cases (r.host == 0)) [
        | inl nobody ↦ rw (nobody) (travel-hop_throws n 2 first (ground arith))
        | inr client ↦
            rw (client, local)
              (travel-hop n 2 first (at_host_eg target r.host (answer_message m r value))
                (ground arith))
      ]
      | inr remote ↦
          travel-hop n 2 first second (ground arith)
          ∙ (travel-hop n 1 second third (ground arith) ∙ elim (Bool-cases (r.host == 0)) [
            | inl nobody ↦ rw (nobody) (travel-hop_throws n 0 third (ground arith))
            | inr client ↦
                rw (client, remote)
                  (travel-hop n 0 third (at_host_eg r.coordinator r.host (answer_message m r value))
                    (ground arith))
          ])
    ]
