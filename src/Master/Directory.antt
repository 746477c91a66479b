-- ===== src/Master/Directory.antt =====
-- The client map against a directory: a function from names to clients.
use megastructure.Common.{
  ℕ, ◌≡◌, refl, inl, inr, Bool, true, false, List, [], ◌∷◌, Option, none, some, String,
  if◌then◌else◌, str_eq, arith, Option-cases, ap, ◌∙◌,
}
use megastructure.Master.Clients.{
  ClientIdMap, get_client_id, enroll, remove_client, Distinct, unless, get-enroll,
  get-remove_client, enroll-Distinct, remove_client-Distinct,
}

pub data MapOperation : Type 0 where
  enrolls : String → ℕ → MapOperation
  removes : ℕ → MapOperation

-- The operations on the map, with the results of the enrolments, the last one first.
abbrev pub run_map : List MapOperation → ClientIdMap → List Bool → ClientIdMap × List Bool
run_map [] m results = (m, results)
run_map (enrolls name id ∷ rest) m results =
    run_map rest (enroll name id m).0 ((enroll name id m).1 ∷ results)
run_map (removes id ∷ rest) m results = run_map rest (remove_client id m) results

abbrev pub Directory : Type 0
Directory = String → Option ℕ

abbrev pub is_free : Option ℕ → Bool
is_free none = true
is_free (some _) = false

-- A name is given to a client if it is free.
abbrev pub give : String → ℕ → Directory → Directory
give name id d other =
    if is_free (d name) then (if str_eq name other then some id else d other) else d other

-- The same operations on a directory.
abbrev pub run_directory : List MapOperation → Directory → List Bool → Directory × List Bool
run_directory [] d results = (d, results)
run_directory (enrolls name id ∷ rest) d results =
    run_directory rest (give name id d) (is_free (d name) ∷ results)
run_directory (removes id ∷ rest) d results =
    run_directory rest (λ name. unless id (d name)) results

enroll-give :
    (name : String) (id : ℕ) (m : ClientIdMap) (d : Directory)
    → ((other : String) → get_client_id other m ≡ d other)
    → ((enroll name id m).1 ≡ is_free (d name))
      × ((other : String) → get_client_id other (enroll name id m).0 ≡ give name id d other)
unfolding enroll
enroll-give name id m d same =
    let there = same name in
    let result : (enroll name id m).1 ≡ is_free (d name) =
      elim (Option-cases (get_client_id name m)) [
        | inl e ↦ ground arith
        | inr (i, e) ↦ ground arith
      ] in
    (
      result,
      λ other. let after = get-enroll name other id m in let before = same other in ground arith,
    )

-- A client map without double names is a directory: over every sequence of enrolments and removals,
-- the enrolments have the results that a directory gives, which answers each name like the map at
-- the start, and at the end the two answer each name alike.
pub run_map-refines :
    (ops : List MapOperation) (m : ClientIdMap) (d : Directory) (results : List Bool)
    → Distinct m
    → ((name : String) → get_client_id name m ≡ d name)
    → ((run_map ops m results).1 ≡ (run_directory ops d results).1)
      × ((name : String)
          → get_client_id name (run_map ops m results).0 ≡ (run_directory ops d results).0 name)
run_map-refines [] m d results distinct same = (refl, same)
run_map-refines (enrolls name id ∷ ops) m d results distinct same =
    let (result, after) = enroll-give name id m d same in
    let (results_same, names_same) =
      run_map-refines ops (enroll name id m).0 (give name id d) (is_free (d name) ∷ results)
        (enroll-Distinct name id m distinct) after in
    let step = ap (λ r. run_map ops (enroll name id m).0 (r ∷ results)) result in
    (
      ap (λ (r : ClientIdMap × List Bool). r.1) step ∙ results_same,
      λ other.
          ap (λ (r : ClientIdMap × List Bool). get_client_id other r.0) step ∙ names_same other,
    )
run_map-refines (removes id ∷ ops) m d results distinct same =
    run_map-refines ops (remove_client id m) (λ name. unless id (d name)) results
      (remove_client-Distinct id m distinct)
      (λ name. get-remove_client name id m distinct ∙ ap (unless id) (same name))
