-- ===== src/Master/State.antt =====
-- class Master of src/master/master.hpp, and what its activities see of it.
use megastructure.Common.{ℕ, Bool, true, false, List, [], ◌∷◌, ◌++◌, Option, String, if◌then◌else◌}
use megastructure.Protocol.{Message}
use megastructure.Address.Tables.{Table}
use megastructure.Master.Clients.{ClientIdMap}
use megastructure.Master.Clients
use megastructure.Queue.{Post}

-- `sent` is what was sent to clients, oldest first; `posted` is what was posted to the queue about
-- activities. An activity is known by its number.
pub record Master : Type 0 where
  pub clients : ClientIdMap
  pub active_program_name : String
  pub network_address_table : Option Table
  pub sent : List (ℕ × Message)
  pub posted : List Post

unfoldable pub post : Post → Master → Master
post p m = record m { posted = m.posted ++ (p ∷ []) }

unfoldable pub remove_client : ℕ → Master → Master
remove_client id m = record m { clients = Clients.remove_client id m.clients }

unfoldable pub enroll : String → ℕ → Master → Master × Bool
enroll name id m =
    let (clients, success) = Clients.enroll name id m.clients in
    (record m { clients = clients }, success)

-- Whether the server can send to a client is decided by the network.
module _ (delivers : ℕ → Bool) where
  unfoldable pub send : Message → ℕ → Master → Master × Bool
  send message id m =
      if delivers id then (record m { sent = m.sent ++ ((id, message) ∷ []) }, true) else (m, false)

  -- `if( !m_master.send( ... ) ) { m_master.removeClient( ... ); }`
  unfoldable pub send_or_remove : Message → ℕ → Master → Master
  unfolding send remove_client
  send_or_remove message id m =
      let (m', success) = send message id m in if success then m' else remove_client id m'
