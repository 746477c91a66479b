-- ===== src/Routing/Network.antt =====
-- A network of a master and its slaves that carries the messages of the eg protocol from handler to
-- handler, every send being delivered.
use megastructure.Common.{ℕ, List, [], ◌∷◌, ◌++◌, zero, suc, Result, ok, throws, ◌>>=◌, ◌≡◌, ap}
use megastructure.Protocol.{Message}
use megastructure.Master.State.{Master}
use megastructure.Master.Route.{route_client_message}
use megastructure.Slave.Route.{
  Slave, Sent, to_master, to_host, to_host_eg, client_message, server_message,
}
use megastructure.Routing.{always_slave, always_master}

-- The slave of each client of the master.
pub record Network : Type 0 where
  pub master : Master
  pub slave : ℕ → Slave

-- A message that a host has sent to a slave, a slave to the master, or the master to a slave, or one
-- that has come to the mega or the eg client of a host.
pub data Transit : Type 0 where
  from_host : ℕ → ℕ → Message → Transit
  from_slave : ℕ → Message → Transit
  from_master : ℕ → Message → Transit
  at_host : ℕ → ℕ → Message → Transit
  at_host_eg : ℕ → ℕ → Message → Transit

abbrev pub sent_by_slave : ℕ → List Sent → List Transit
sent_by_slave a [] = []
sent_by_slave a (to_master message ∷ rest) = from_slave a message ∷ sent_by_slave a rest
sent_by_slave a (to_host id message ∷ rest) = at_host a id message ∷ sent_by_slave a rest
sent_by_slave a (to_host_eg id message ∷ rest) = at_host_eg a id message ∷ sent_by_slave a rest

abbrev pub sent_by_master : List (ℕ × Message) → List Transit
sent_by_master [] = []
sent_by_master ((id, message) ∷ rest) = from_master id message ∷ sent_by_master rest

-- What the handler of a message sends; a message that has come to a host stays there.
abbrev pub hop : Network → Transit → Result (List Transit)
hop n (from_host a client message) =
    client_message always_slave client message (record (n.slave a) { sent = [] }) >>= λ r.
    ok (sent_by_slave a r.0.sent)
hop n (from_slave a message) =
    route_client_message always_master a message (record n.master { sent = [] }) >>= λ r.
    ok (sent_by_master r.0.sent)
hop n (from_master a message) =
    server_message always_slave message (record (n.slave a) { sent = [] }) >>= λ r.
    ok (sent_by_slave a r.0.sent)
hop n (at_host a id message) = ok (at_host a id message ∷ [])
hop n (at_host_eg a id message) = ok (at_host_eg a id message ∷ [])

abbrev pub hop_all : Network → List Transit → Result (List Transit)
hop_all n [] = ok []
hop_all n (x ∷ xs) = hop n x >>= λ ys. hop_all n xs >>= λ zs. ok (ys ++ zs)

-- Where messages are after this many hops.
abbrev pub travel : ℕ → Network → List Transit → Result (List Transit)
travel zero n xs = ok xs
travel (suc hops) n xs = hop_all n xs >>= λ ys. travel hops n ys

pub travel-hop :
    (n : Network) (hops : ℕ) (x y : Transit)
    → hop n x ≡ ok (y ∷ [])
    → travel (suc hops) n (x ∷ []) ≡ travel hops n (y ∷ [])
travel-hop n hops x y e =
    ap (λ (r : Result (List Transit)). (r >>= λ ys. ok (ys ++ [])) >>= λ ys. travel hops n ys) e

pub travel-hop_throws :
    (n : Network) (hops : ℕ) (x : Transit)
    → hop n x ≡ throws
    → travel (suc hops) n (x ∷ []) ≡ throws
travel-hop_throws n hops x e =
    ap (λ (r : Result (List Transit)). (r >>= λ ys. ok (ys ++ [])) >>= λ ys. travel hops n ys) e
