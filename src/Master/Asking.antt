-- ===== src/Master/Asking.antt =====
-- Whom LoadProgram, LoadConfig and SaveConfig ask.
use mathlib.Core.List.{append_assoc, append-nil}
use megastructure.Common.{
  ℕ, ◌≡◌, ◌≢◌, refl, ◌∙◌, sym, ap, Bool, true, ◌||◌, List, [], ◌∷◌, ◌++◌, String, arith, ◌==◌, ok,
  List-cases,
}
use megastructure.Protocol.{Message}
use megastructure.Master.Clients.{ClientIdMap}
use megastructure.Master.State.{Master, send}
use megastructure.Master.Gather.{Gather, insert_id, ask_all, ask_or_complete, load_program_start}
use megastructure.Master.Answers.{contains}

abbrev everyone : ℕ → Bool
everyone id = true

abbrev pub ids_of : ClientIdMap → List ℕ
ids_of [] = []
ids_of ((name, id) ∷ m) = id ∷ ids_of m

abbrev pub requests : Message → ClientIdMap → List (ℕ × Message)
requests message [] = []
requests message ((name, id) ∷ m) = (id, message) ∷ requests message m

contains-insert_id :
    (x id : ℕ) (xs : List ℕ) → contains x (insert_id id xs) ≡ (id == x || contains x xs)
unfolding insert_id
contains-insert_id x id [] = refl
contains-insert_id x id (y ∷ ys) = ground (arith, contains-insert_id x id ys)

ask_all_lem :
    (x : ℕ) (message : Message) (m : ClientIdMap) (s : Master) (g : Gather)
    → (s' : Master) × (g' : Gather) × (ask_all everyone message m s g ≡ ok (s', g'))
      × (s' ≡ record s { sent = s.sent ++ requests message m })
      × (contains x g'.client_ids ≡ (contains x g.client_ids || contains x (ids_of m)))
unfolding ask_all send
ask_all_lem x message [] s g =
    (s, g, refl, sym (ap (λ l. record s { sent = l }) (append-nil s.sent)), ground arith)
ask_all_lem x message ((name, id) ∷ m) s g =
    let t : Master = record s { sent = s.sent ++ ((id, message) ∷ []) } in
    let h : Gather = record g { client_ids = insert_id id g.client_ids } in
    let (s', g', e, sends, waits) = ask_all_lem x message m t h in
    (
      s',
      g',
      e,
      sends
          ∙ ap (λ l. record s { sent = l })
              (append_assoc s.sent ((id, message) ∷ []) (requests message m)),
      ground (arith, waits, contains-insert_id x id g.client_ids),
    )

-- If the master has clients and every send is delivered, LoadProgram sends one request to each entry
-- of the client map, in its order, changes nothing else, and waits from then on for a client `x` exactly
-- if it did before or `x` has a name.
pub load_program_asks :
    (a x : ℕ) (program : String) (s : Master) (g : Gather)
    → s.clients ≢ []
    → (s' : Master) × (g' : Gather) × (load_program_start everyone a program s g ≡ ok (s', g'))
      × (s' ≡ record s { sent = s.sent ++ requests (Message.msq_load program) s.clients })
      × (contains x g'.client_ids ≡ (contains x g.client_ids || contains x (ids_of s.clients)))
unfolding load_program_start ask_or_complete
load_program_asks a x program s g n =
    let (s', g', e, sends, waits) = ask_all_lem x (Message.msq_load program) s.clients s g in
    (s', g', ground (arith, e, n, List-cases s.clients), sends, waits)
