-- ===== src/Master/Answers.antt =====
-- When LoadProgram, LoadConfig and SaveConfig complete.
use megastructure.Common.{
  ℕ, ◌≡◌, refl, Bool, true, false, not, ◌||◌, ◌&&◌, List, [], ◌∷◌, ◌++◌, Option, none, some, String,
  arith, ◌==◌, inl, inr, ok, throws, Option-cases, Result-cases,
}
use megastructure.Protocol.{Config, Message}
use megastructure.Protocol.Helpers.{config_load_sms}
use megastructure.Address.Tree.{Elements}
use megastructure.Address.Tables.{Table, master_table}
use megastructure.Master.State.{Master, post}
use megastructure.Queue.{completes}
use megastructure.Master.Gather.{
  Gather, erase_id, is_empty, noted, config_answer, load_config_client_message, program_loaded,
  load_answer, load_program_client_message, calculate_network_address_table,
}

abbrev pub contains : ℕ → List ℕ → Bool
contains id [] = false
contains id (x ∷ xs) = x == id || contains id xs

-- All of the clients have answered, or are the one that answers next.
abbrev pub all_but : ℕ → List ℕ → List ℕ → Bool
all_but last [] answered = true
all_but last (x ∷ xs) answered = (x == last || contains x answered) && all_but last xs answered

abbrev pub sources {ℓ} : {A : Type ℓ} → List (ℕ × A) → List ℕ
sources [] = []
sources ((id, answer) ∷ rest) = id ∷ sources rest

contains-erase_id :
    (id other : ℕ) (xs : List ℕ)
    → contains id (erase_id other xs) ≡ (contains id xs && not (other == id))
unfolding erase_id
contains-erase_id id other [] = refl
contains-erase_id id other (x ∷ xs) = ground (arith, contains-erase_id id other xs)

contains_ne : (id : ℕ) (xs : List ℕ) → contains id xs ≡ true → is_empty xs ≡ false
contains_ne id [] e = ground arith
contains_ne id (x ∷ xs) e = refl

all_but-erase_id :
    (last other : ℕ) (xs answered : List ℕ)
    → all_but last xs (other ∷ answered) ≡ true
    → all_but last (erase_id other xs) answered ≡ true
unfolding erase_id
all_but-erase_id last other [] answered e = refl
all_but-erase_id last other (x ∷ xs) answered e =
    ground (arith, all_but-erase_id last other xs answered)

all_but-nil : (last : ℕ) (xs : List ℕ) → all_but last xs [] ≡ true → erase_id last xs ≡ []
unfolding erase_id
all_but-nil last [] e = refl
all_but-nil last (x ∷ xs) e = ground (arith, all_but-nil last xs)

sources-tail :
    (last source : ℕ) (xs : List ℕ) → contains last (source ∷ xs) ≡ false → contains last xs ≡ false
sources-tail last source xs n = ground arith

-- While `last` has not answered, it is still waited for.
erase_id-waits :
    (last source : ℕ) (xs ids : List ℕ)
    → contains last ids ≡ true
    → contains last (source ∷ xs) ≡ false
    → (contains last (erase_id source ids) ≡ true) × (is_empty (erase_id source ids) ≡ false)
erase_id-waits last source xs ids m n =
    let still : contains last (erase_id source ids) ≡ true =
      ground (arith, contains-erase_id last source ids, m, n) in
    (still, contains_ne last (erase_id source ids) still)

-- The answers to LoadConfig, in the order in which they come.
abbrev pub load_config_answers : ℕ → List (ℕ × Config) → Master → Gather → Master × Gather
load_config_answers a [] s g = (s, g)
load_config_answers a ((source, c) ∷ rest) s g =
    let (s', g') = (load_config_client_message a source (Message.config_msg c) s g).0 in
    load_config_answers a rest s' g'

-- If all clients that LoadConfig waits for answer, in any order and however often but `last` last,
-- then the activity completes with the answer of `last` and not before.
pub load_config_completes :
    (a last : ℕ) (c : Config) (rs : List (ℕ × Config)) (s : Master) (g : Gather)
    → contains last g.client_ids ≡ true
    → contains last (sources rs) ≡ false
    → all_but last g.client_ids (sources rs) ≡ true
    → let (s', g') = load_config_answers a rs s g in
      (s' ≡ s)
      × ((load_config_client_message a last (Message.config_msg c) s' g').0.0
          ≡ post (completes a) s)
unfolding load_config_client_message config_answer post
load_config_completes a last c [] s g m n q =
    (refl, ground (arith, all_but-nil last g.client_ids q))
load_config_completes a last c ((source, d) ∷ rest) s g m n q =
    let waits = erase_id-waits last source (sources rest) g.client_ids m n in
    rw (waits.1, load_config_answers)
      (load_config_completes a last c rest s (noted source (config_load_sms d) g) waits.0
        (sources-tail last source (sources rest) n)
        (all_but-erase_id last source g.client_ids (sources rest) q))

-- The answers to LoadProgram, in the order in which they come.
abbrev pub load_program_answers :
    (String → Option (Option Elements))
    → ℕ
    → String
    → List (ℕ × Bool)
    → Master
    → Gather
    → Master × Gather
load_program_answers tree a program [] s g = (s, g)
load_program_answers tree a program ((source, success) ∷ rest) s g =
    let (s', g') =
      (load_program_client_message tree a program source (Message.sms_load success) s g).0 in
    load_program_answers tree a program rest s' g'

-- The table of the master after the load of a program: that of the program's database, none without
-- a database, and the former one if the table cannot be built or there is no project tree.
abbrev pub table_after : Option (Option Elements) → Master → Option Table
table_after none s = s.network_address_table
table_after (some none) s = none
table_after (some (some root)) s = elim (master_table (some root) s.clients) [
  | ok table ↦ some table
  | throws ↦ s.network_address_table
]

abbrev pub program_after : Option (Option Elements) → String → Master → String
program_after none program s = s.active_program_name
program_after (some database) program s = program

-- A master after the load of a program and the completion of the activity.
abbrev pub loaded_master : (String → Option (Option Elements)) → ℕ → String → Master → Master
loaded_master tree a program s = record s {
  active_program_name = program_after (tree program) program s;
  network_address_table = table_after (tree program) s;
  posted = s.posted ++ (completes a ∷ []);
}

post-program_loaded :
    (tree : String → Option (Option Elements)) (a : ℕ) (program : String) (s : Master)
    → post (completes a) (program_loaded tree program s) ≡ loaded_master tree a program s
unfolding post program_loaded calculate_network_address_table
post-program_loaded tree a program s = elim (Option-cases (tree program)) [
  | inl e ↦ ground (arith, e)
  | inr (none, e) ↦ ground (arith, e)
  | inr (some root, e) ↦ elim (Result-cases (master_table (some root) s.clients)) [
    | inl q ↦ ground (arith, e, q)
    | inr (table, q) ↦ ground (arith, e, q)
  ]
]

-- If all clients that LoadProgram waits for answer, in any order and however often but `last` last,
-- then nothing changes before the answer of `last`. With it, whether or not a client failed, the
-- activity completes. If the project tree of the program can be made, the program is the active
-- one, and the table is that of its database, or none without a database, or the former one if the
-- table cannot be built; if the tree cannot be made, the program and the table are the former ones.
pub load_program_completes :
    (tree : String → Option (Option Elements)) (a last : ℕ) (program : String) (success : Bool)
    (rs : List (ℕ × Bool)) (s : Master) (g : Gather)
    → contains last g.client_ids ≡ true
    → contains last (sources rs) ≡ false
    → all_but last g.client_ids (sources rs) ≡ true
    → let (s', g') = load_program_answers tree a program rs s g in
      (s' ≡ s)
      × ((load_program_client_message tree a program last (Message.sms_load success) s' g').0.0
          ≡ loaded_master tree a program s)
unfolding load_program_client_message load_answer
load_program_completes tree a last program success [] s g m n q = (
  refl,
  rw (all_but-nil last g.client_ids q, load_program_client_message, load_answer)
      (post-program_loaded tree a program s),
)
load_program_completes tree a last program success ((source, d) ∷ rest) s g m n q =
    let waits = erase_id-waits last source (sources rest) g.client_ids m n in
    rw (waits.1, load_program_answers)
      (load_program_completes tree a last program success rest s (noted source d g) waits.0
        (sources-tail last source (sources rest) n)
        (all_but-erase_id last source g.client_ids (sources rest) q))
