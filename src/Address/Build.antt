-- ===== src/Address/Build.antt =====
-- A table that is built from a map holds its entries, and 0 between them.
use megastructure.Common.{
  ℕ, zero, suc, ◌+◌, ◌≤◌, ◌<◌, ◌≡◌, refl, subst, ◌∙◌, sym, ap, inl, inr, [], ◌∷◌, none, some, arith,
  ◌==◌, ltb, true, if◌then◌else◌, Bool-cases, Option-cases, length, set, get_elem?, replicate,
  length-set, get_elem?-set_self, get_elem?-set_ne, length-replicate, get_elem?-replicate,
}
use megastructure.Address.ClientIds.{ClientIdMap, lookup, Distinct}
use megastructure.Address.Tables.{Table, unmapped, client_or_unmapped, highest, fill, build_table}

highest-le : (h : ℕ) (m : ClientIdMap) → h ≤ highest h m
unfolding highest
highest-le h [] = omega arith
highest-le h ((k, v) ∷ m) = ground (arith, highest-le k m, highest-le h m)

pub lookup-le-highest : (h i v : ℕ) (m : ClientIdMap) → lookup i m ≡ some v → i ≤ highest h m
unfolding highest
lookup-le-highest h i v [] e = ground arith
lookup-le-highest h i v ((k, w) ∷ m) e =
    ground
      (arith, highest-le k m, highest-le h m, lookup-le-highest k i v m, lookup-le-highest h i v m)

fill-none :
    (i : ℕ) (m : ClientIdMap) (t : Table)
    → lookup i m ≡ none
    → get_elem? (fill m t) i ≡ get_elem? t i
unfolding fill
fill-none i [] t e = refl
fill-none i ((k, v) ∷ m) t e = elim (Bool-cases (k == i)) [
  | inl q ↦ absurd (ground arith)
  | inr q ↦ fill-none i m (set t k v) (ground arith) ∙ get_elem?-set_ne t v (ground arith)
]

fill-some :
    (i v : ℕ) (m : ClientIdMap) (t : Table)
    → Distinct m
    → lookup i m ≡ some v
    → i < length t
    → get_elem? (fill m t) i ≡ some v
unfolding fill
fill-some i v [] t d e h = ground arith
fill-some i v ((k, w) ∷ m) t d e h = elim (Bool-cases (k == i)) [
  | inl q ↦
      let same : k ≡ i = ground arith in
      let value : w ≡ v = ground arith in
      fill-none i m (set t k w) (subst (λ x. lookup x m ≡ none) same d.0)
      ∙ (subst (λ x. get_elem? (set t x w) i ≡ some w) (sym same) (get_elem?-set_self t i w h)
          ∙ ap some value)
  | inr q ↦ fill-some i v m (set t k w) d.1 (ground arith) (omega (arith, length-set t k w))
]

-- The table holds at each index up to the highest key the entry of that key, or 0.
pub build_table_lem :
    (i : ℕ) (m : ClientIdMap)
    → Distinct m
    → i ≤ highest 0 m
    → get_elem? (build_table m) i ≡ some (client_or_unmapped (lookup i m))
unfolding build_table
build_table_lem i m d h = elim (Option-cases (lookup i m)) [
  | inl e ↦
      rw (e, client_or_unmapped)
        (fill-none i m (replicate (highest 0 m + 1) unmapped) e
          ∙ get_elem?-replicate (highest 0 m + 1) i unmapped (omega arith))
  | inr (v, e) ↦
      rw (e, client_or_unmapped)
        (fill-some i v m (replicate (highest 0 m + 1) unmapped) d e
          (omega (arith, length-replicate (highest 0 m + 1) unmapped)))
]

length-fill : (m : ClientIdMap) (t : Table) → length (fill m t) ≡ length t
unfolding fill
length-fill [] t = refl
length-fill ((k, v) ∷ m) t = length-fill m (set t k v) ∙ length-set t k v

get_elem?-lt : (t : Table) (i v : ℕ) → get_elem? t i ≡ some v → i < length t
get_elem?-lt [] i v e = ground arith
get_elem?-lt (x ∷ t) zero v e = omega arith
get_elem?-lt (x ∷ t) (suc i) v e = omega (arith, get_elem?-lt t i v e)

-- What a table holds is the entry of the map, or 0.
pub build_table_only :
    (i v : ℕ) (m : ClientIdMap)
    → Distinct m
    → get_elem? (build_table m) i ≡ some v
    → v ≡ client_or_unmapped (lookup i m)
unfolding build_table
build_table_only i v m d e =
    let t = replicate (highest 0 m + 1) unmapped in
    let short : i ≤ highest 0 m = omega (
      arith,
      get_elem?-lt (fill m t) i v e,
      length-fill m t,
      length-replicate (highest 0 m + 1) unmapped,
    ) in
    let found = build_table_lem i m d short in ground arith

ltb-lt : (a b : ℕ) → ltb a b ≡ true → a < b
ltb-lt a b e = ground arith

-- The table of a map without double keys is, as a function of the index, the map up to its highest
-- key, with 0 where the map has no entry, and nothing after that.
pub build_table_equivalent :
    (i : ℕ) (m : ClientIdMap)
    → Distinct m
    → get_elem? (build_table m) i
      ≡ (if ltb (highest 0 m) i then none else some (client_or_unmapped (lookup i m)))
unfolding build_table
build_table_equivalent i m d = elim (Bool-cases (ltb (highest 0 m) i)) [
  | inr e ↦ rw (e) (build_table_lem i m d (ground arith))
  | inl e ↦ elim (Option-cases (get_elem? (build_table m) i)) [
    | inl q ↦ rw (e) q
    | inr (v, q) ↦
        let t = replicate (highest 0 m + 1) unmapped in
        absurd (
          omega (
            arith,
            get_elem?-lt (fill m t) i v q,
            length-fill m t,
            length-replicate (highest 0 m + 1) unmapped,
            ltb-lt (highest 0 m) i e,
          ))
  ]
]
