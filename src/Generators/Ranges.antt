-- ===== src/Generators/Ranges.antt =====
-- The bits of the set of reads: each data member that is read from other processes has a range of
-- its own.
use megastructure.Common.{
  ℕ, ◌≡◌, ◌≢◌, refl, ◌⊎◌, inl, inr, true, false, List, [], ◌∷◌, ◌++◌, Option, none, some, ◌==◌,
  if◌then◌else◌, ◌+◌, ◌^◌, ◌≤◌, ◌<◌, arith, Bool-cases, Option-cases, ==_iff, subst, ◌∙◌, sym, ap,
}
use Prim.Native.Nat.{◌%◌}
use megastructure.Generators.Network.{
  Buffer, BufferRelation, BufferTypes, HashBases, lookup, insert_base, add_member, visit_member,
  visit_members, visit_buffers, get_data_hash_bases,
}

-- Data members with the sizes of their buffers.
abbrev pub Sizes : Type 0
Sizes = List (ℕ × ℕ)

abbrev pub with_size : ℕ → List ℕ → Sizes
with_size size [] = []
with_size size (m ∷ ms) = (m, size) ∷ with_size size ms

abbrev pub sizes_of : Buffer → BufferRelation → Sizes
sizes_of b BufferRelation.component = []
sizes_of b BufferRelation.process = if b.is_simple then [] else with_size b.size b.data_members
sizes_of b BufferRelation.planet = with_size b.size b.data_members
sizes_of b BufferRelation.total_relation_types = []

-- The data members of the buffers that are not in the process, in order.
abbrev pub remote_members : BufferTypes → Sizes
remote_members [] = []
remote_members ((b, r) ∷ rest) = sizes_of b r ++ remote_members rest

abbrev pub total : Sizes → ℕ
total [] = 0
total ((m, s) ∷ rest) = s + total rest

-- The sum of the sizes before the first entry of a data member, from `base`.
abbrev pub base_of : Sizes → ℕ → ℕ → Option ℕ
base_of [] base d = none
base_of ((m, s) ∷ rest) base d = if m == d then some base else base_of rest (base + s) d

-- The same visits over a flat list.
add : ℕ → ℕ → HashBases → HashBases
unfolding insert_base
add m s st = record {
  hash_bases = insert_base m st.hash_total st.hash_bases;
  hash_total = (st.hash_total + s) % 2 ^ 32;
}

run : Sizes → HashBases → HashBases
unfolding add
run [] st = st
run ((m, s) ∷ rest) st = run rest (add m s st)

run-append : (xs ys : Sizes) (st : HashBases) → run (xs ++ ys) st ≡ run ys (run xs st)
unfolding run
run-append [] ys st = refl
run-append ((m, s) ∷ xs) ys st = run-append xs ys (add m s st)

visit_planet :
    (b : Buffer) (ms : List ℕ) (st : HashBases)
    → visit_members b BufferRelation.planet ms st ≡ run (with_size b.size ms) st
unfolding visit_members visit_member add_member run add
visit_planet b [] st = refl
visit_planet b (m ∷ ms) st = visit_planet b ms (add_member b m st)

visit_process_simple :
    (b : Buffer) (ms : List ℕ) (st : HashBases)
    → b.is_simple ≡ true
    → visit_members b BufferRelation.process ms st ≡ st
unfolding visit_members visit_member
visit_process_simple b [] st e = refl
visit_process_simple b (m ∷ ms) st e = rw (e) (visit_process_simple b ms st e)

visit_process_other :
    (b : Buffer) (ms : List ℕ) (st : HashBases)
    → b.is_simple ≡ false
    → visit_members b BufferRelation.process ms st ≡ run (with_size b.size ms) st
unfolding visit_members visit_member add_member run add
visit_process_other b [] st e = refl
visit_process_other b (m ∷ ms) st e = rw (e) (visit_process_other b ms (add_member b m st) e)

visit_process :
    (b : Buffer) (ms : List ℕ) (st : HashBases)
    → visit_members b BufferRelation.process ms st
      ≡ run (if b.is_simple then [] else with_size b.size ms) st
unfolding run
visit_process b ms st = elim (Bool-cases b.is_simple) [
  | inl e ↦ simp (e) (visit_process_simple b ms st e)
  | inr e ↦ simp (e) (visit_process_other b ms st e)
]

visit_none :
    (b : Buffer) (ms : List ℕ) (st : HashBases)
    → (visit_members b BufferRelation.component ms st ≡ st)
      × (visit_members b BufferRelation.total_relation_types ms st ≡ st)
unfolding visit_members visit_member
visit_none b [] st = (refl, refl)
visit_none b (m ∷ ms) st = visit_none b ms st

visit_members-run :
    (b : Buffer) (r : BufferRelation) (st : HashBases)
    → visit_members b r b.data_members st ≡ run (sizes_of b r) st
unfolding run
visit_members-run b BufferRelation.component st = (visit_none b b.data_members st).0
visit_members-run b BufferRelation.process st = visit_process b b.data_members st
visit_members-run b BufferRelation.planet st = visit_planet b b.data_members st
visit_members-run b BufferRelation.total_relation_types st = (visit_none b b.data_members st).1

visit_buffers-run :
    (types : BufferTypes) (st : HashBases) → visit_buffers types st ≡ run (remote_members types) st
unfolding visit_buffers run
visit_buffers-run [] st = refl
visit_buffers-run ((b, r) ∷ rest) st =
    visit_buffers-run rest (visit_members b r b.data_members st)
    ∙ (ap (run (remote_members rest)) (visit_members-run b r st)
        ∙ sym (run-append (sizes_of b r) (remote_members rest) st))

run-hash_total :
    (xs : Sizes) (st : HashBases)
    → st.hash_total + total xs < 2 ^ 31
    → (run xs st).hash_total ≡ st.hash_total + total xs
unfolding run add
run-hash_total [] st h = omega arith
run-hash_total ((m, s) ∷ xs) st h =
    let step : (add m s st).hash_total ≡ st.hash_total + s = omega arith in
    omega (arith, step, run-hash_total xs (add m s st) (omega (arith, step)))

abbrev or_base : Option ℕ → Option ℕ → Option ℕ
or_base none o = o
or_base (some b) o = some b

lookup-insert_base :
    (m v d : ℕ) (bases : List (ℕ × ℕ))
    → lookup d (insert_base m v bases) ≡ or_base (lookup d bases) (if m == d then some v else none)
unfolding lookup insert_base
lookup-insert_base m v d bases = elim (Bool-cases (m == d)) [
  | inl q ↦
      let same : m ≡ d = (==_iff m d).0 q in
      subst
        (λ x.
          lookup x (insert_base m v bases)
          ≡ or_base (lookup x bases) (if m == x then some v else none))
        same (ground arith)
  | inr q ↦ ground arith
]

run-lookup :
    (xs : Sizes) (st : HashBases) (d : ℕ)
    → st.hash_total + total xs < 2 ^ 31
    → lookup d (run xs st).hash_bases
      ≡ or_base (lookup d st.hash_bases) (base_of xs st.hash_total d)
unfolding run add lookup insert_base
run-lookup [] st d h = elim (Option-cases (lookup d st.hash_bases)) [
  | inl e ↦ rw e refl
  | inr (b, e) ↦ rw e refl
]
run-lookup ((m, s) ∷ xs) st d h =
    let step : (add m s st).hash_total ≡ st.hash_total + s = omega arith in
    let later = run-lookup xs (add m s st) d (omega (arith, step)) in
    let first = lookup-insert_base m st.hash_total d st.hash_bases in
    let bound : base_of xs (add m s st).hash_total d ≡ base_of xs (st.hash_total + s) d =
      ap (λ b. base_of xs b d) step in
    ground (arith, later, first, bound)

-- The state of the analysis is that of the flat list of its remote data members.
unfoldable pub Analysed : BufferTypes → HashBases → Type 0
Analysed types st =
    (st.hash_total ≡ total (remote_members types))
    × ((d : ℕ) → lookup d st.hash_bases ≡ base_of (remote_members types) 0 d)

pub get_data_hash_bases-Analysed :
    (types : BufferTypes)
    → total (remote_members types) < 2 ^ 31
    → Analysed types (get_data_hash_bases types)
unfolding Analysed get_data_hash_bases
get_data_hash_bases-Analysed types h =
    let empty : HashBases = record { hash_bases = []; hash_total = 0 } in
    let flat = visit_buffers-run types empty in
    (
      omega (
        arith,
        ap (λ (st : HashBases). st.hash_total) flat,
        run-hash_total (remote_members types) empty (omega arith),
      ),
      λ d.
          ap (λ (st : HashBases). lookup d st.hash_bases) flat
          ∙ run-lookup (remote_members types) empty d (omega arith),
    )

pub base_of-bound :
    (xs : Sizes) (base d b : ℕ)
    → base_of xs base d ≡ some b
    → (size : ℕ) × (lookup d xs ≡ some size) × (base ≤ b) × (b + size ≤ base + total xs)
unfolding lookup
base_of-bound [] base d b e = ground arith
base_of-bound ((m, s) ∷ xs) base d b e = elim (Bool-cases (m == d)) [
  | inl q ↦ (s, ground arith, ground arith, ground arith)
  | inr q ↦
      let (size, found, low, high) = base_of-bound xs (base + s) d b (ground arith) in
      (size, ground arith, omega arith, omega arith)
]

pub base_of-disjoint :
    (xs : Sizes) (base d d' b b' s s' : ℕ)
    → d ≢ d'
    → base_of xs base d ≡ some b
    → lookup d xs ≡ some s
    → base_of xs base d' ≡ some b'
    → lookup d' xs ≡ some s'
    → (b + s ≤ b') ⊎ (b' + s' ≤ b)
unfolding lookup
base_of-disjoint [] base d d' b b' s s' n e f e' f' = ground arith
base_of-disjoint ((m, t) ∷ xs) base d d' b b' s s' n e f e' f' = ground (
  arith,
  base_of-bound xs (base + t) d b,
  base_of-bound xs (base + t) d' b',
  base_of-disjoint xs (base + t) d d' b b' s s' n,
)

pub base_of-found :
    (xs : Sizes) (base d size : ℕ)
    → lookup d xs ≡ some size
    → (b : ℕ) × (base_of xs base d ≡ some b)
unfolding lookup
base_of-found [] base d size e = absurd (ground arith)
base_of-found ((m, s) ∷ xs) base d size e = elim (Bool-cases (m == d)) [
  | inl q ↦ (base, ground arith)
  | inr q ↦ let (b, found) = base_of-found xs (base + s) d size (ground arith) in (b, ground arith)
]
