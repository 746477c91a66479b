-- ===== src/Master/Gather.antt =====
-- LoadProgram, LoadConfig and SaveConfig of src/master/activities.cpp: a request to all clients, and
-- a completion when each of them has answered.
use megastructure.Common.{
  ℕ, Bool, true, false, not, ◌||◌, List, [], ◌∷◌, Option, none, some, String, ◌==◌, if◌then◌else◌,
  str_eq, Result, ok, throws,
}
use megastructure.Protocol.{Message}
use megastructure.Protocol.Helpers.{
  config_load_msq, config_save_msq, config_load_sms, config_save_sms,
}
use megastructure.Address.Tree.{Elements}
use megastructure.Address.Tables.{master_table}
use megastructure.Master.Clients.{ClientIdMap}
use megastructure.Master.State.{Master, post, send}
use megastructure.Queue.{completes}

-- `client_ids` is the set of the clients that have not answered.
pub record Gather : Type 0 where
  pub client_ids : List ℕ
  pub client_failed : Bool

unfoldable pub insert_id : ℕ → List ℕ → List ℕ
insert_id id [] = id ∷ []
insert_id id (x ∷ xs) = let rest = insert_id id xs in if x == id then x ∷ xs else x ∷ rest

unfoldable pub erase_id : ℕ → List ℕ → List ℕ
erase_id id [] = []
erase_id id (x ∷ xs) = let rest = erase_id id xs in if x == id then rest else x ∷ rest

abbrev pub is_empty {ℓ} : {A : Type ℓ} → List A → Bool
is_empty [] = true
is_empty (x ∷ xs) = false

module _ (delivers : ℕ → Bool) where
  -- The loop over the clients. A failed send removes the entry that the loop stands on, which is
  -- undefined in the source; here it throws.
  unfoldable pub ask_all : Message → ClientIdMap → Master → Gather → Result (Master × Gather)
  unfolding send insert_id
  ask_all message [] s g = ok (s, g)
  ask_all message ((name, id) ∷ rest) s g =
      let later =
        ask_all message rest (send delivers message id s).0
          (record g { client_ids = insert_id id g.client_ids }) in
      if delivers id then later else throws

  unfoldable pub ask_or_complete : ℕ → Message → Master → Gather → Result (Master × Gather)
  unfolding ask_all post
  ask_or_complete a message s g =
      if is_empty s.clients then ok (post (completes a) s, g) else ask_all message s.clients s g

  -- LoadProgram::start of the activity `a`.
  unfoldable pub load_program_start : ℕ → String → Master → Gather → Result (Master × Gather)
  unfolding ask_or_complete
  load_program_start a program s g = ask_or_complete a (Message.msq_load program) s g

  unfoldable pub load_config_start : ℕ → Master → Gather → Result (Master × Gather)
  unfolding ask_or_complete post
  load_config_start a s g =
      if str_eq s.active_program_name ""
      then ok (post (completes a) s, g)
      else ask_or_complete a config_load_msq s g

  unfoldable pub save_config_start : ℕ → Master → Gather → Result (Master × Gather)
  unfolding ask_or_complete post
  save_config_start a s g =
      if str_eq s.active_program_name ""
      then ok (post (completes a) s, g)
      else ask_or_complete a config_save_msq s g

-- The answer of a client, before the test whether it was the last one.
abbrev pub noted : ℕ → Bool → Gather → Gather
noted source success g = record {
  client_ids = erase_id source g.client_ids;
  client_failed = g.client_failed || not success;
}

unfoldable pub config_answer : ℕ → ℕ → Bool → Master → Gather → Master × Gather
unfolding erase_id post
config_answer a source success s g =
    let g' = noted source success g in
    (if is_empty g'.client_ids then post (completes a) s else s, g')

-- LoadConfig::clientMessage
unfoldable pub load_config_client_message :
    ℕ → ℕ → Message → Master → Gather → (Master × Gather) × Bool
unfolding config_answer
load_config_client_message a source (Message.config_msg c) s g =
    (config_answer a source (config_load_sms c) s g, true)
load_config_client_message a source _ s g = ((s, g), false)

-- SaveConfig::clientMessage
unfoldable pub save_config_client_message :
    ℕ → ℕ → Message → Master → Gather → (Master × Gather) × Bool
unfolding config_answer
save_config_client_message a source (Message.config_msg c) s g =
    (config_answer a source (config_save_sms c) s g, true)
save_config_client_message a source _ s g = ((s, g), false)

-- Master::calculateNetworkAddressTable; an exception is caught by the caller. `database` is the
-- program database, if its file is there.
unfoldable pub calculate_network_address_table : Option Elements → Master → Master
calculate_network_address_table none s = record s { network_address_table = none }
calculate_network_address_table (some root) s = elim (master_table (some root) s.clients) [
  | ok table ↦ record s { network_address_table = some table }
  | throws ↦ s
]

-- `project_tree` is the project tree of a program with its database, or none if it cannot be made.
module _ (project_tree : String → Option (Option Elements)) where
  unfoldable pub program_loaded : String → Master → Master
  unfolding calculate_network_address_table
  program_loaded program s = elim (project_tree program) [
    | none ↦ s
    | some database ↦
        calculate_network_address_table database (record s { active_program_name = program })
  ]

  unfoldable pub load_answer : ℕ → String → ℕ → Bool → Master → Gather → Master × Gather
  unfolding erase_id program_loaded post
  load_answer a program source success s g =
      let g' = noted source success g in
      (if is_empty g'.client_ids then post (completes a) (program_loaded program s) else s, g')

  -- LoadProgram::clientMessage
  unfoldable pub load_program_client_message :
      ℕ → String → ℕ → Message → Master → Gather → (Master × Gather) × Bool
  unfolding load_answer
  load_program_client_message a program source (Message.sms_load success) s g =
      (load_answer a program source success s g, true)
  load_program_client_message a program source _ s g = ((s, g), false)
