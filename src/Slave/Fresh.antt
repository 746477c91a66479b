-- ===== src/Slave/Fresh.antt =====
-- Which entries, clients and host names the loops of the constructor of HostMap take.
use megastructure.Common.{
  ℕ, ◌+◌, ◌≡◌, refl, inl, inr, Bool, false, ◌||◌, List, [], ◌∷◌, none, some, String, arith, ◌==◌,
  if◌then◌else◌, str_eq, eq_iff, Option-cases, Bool-cases,
}
use megastructure.Slave.Hosts.{Host, HostNameMap}
use megastructure.Slave.Remap.{
  Pairs, find_name, insert_name, take_first, reusable, Remapped, leave, reuse, assign, erase_name,
  any_host,
}

-- How many entries have this client.
abbrev pub entries_of : ℕ → HostNameMap → ℕ
entries_of id [] = 0
entries_of id ((n, h) ∷ m) = (if h.mega_client_id == id then 1 else 0) + entries_of id m

abbrev pub hosts_with : ℕ → List Host → ℕ
hosts_with id [] = 0
hosts_with id (h ∷ hs) = (if h.mega_client_id == id then 1 else 0) + hosts_with id hs

-- How often a host name stands in pairs, in a mapping and in a list.
abbrev pub pairs_with : String → Pairs → ℕ
pairs_with name [] = 0
pairs_with name ((p, h) ∷ ps) = (if str_eq h name then 1 else 0) + pairs_with name ps

abbrev pub entries_named : String → HostNameMap → ℕ
entries_named name [] = 0
entries_named name ((n, h) ∷ m) = (if str_eq n name then 1 else 0) + entries_named name m

abbrev pub names_with : String → List String → ℕ
names_with name [] = 0
names_with name (n ∷ ns) = (if str_eq n name then 1 else 0) + names_with name ns

abbrev pub has_host : String → Pairs → Bool
has_host name [] = false
has_host name ((p, h) ∷ ps) = str_eq h name || has_host name ps

-- No host name stands twice in the pairs, and none stands in the mapping.
abbrev pub Fresh : Pairs → HostNameMap → Type 0
Fresh [] m = Unit {0}
Fresh ((p, h) ∷ ps) m = (find_name h m ≡ none) × (has_host h ps ≡ false) × Fresh ps m

pub entries_of-insert_name :
    (id : ℕ) (name : String) (host : Host) (m : HostNameMap)
    → find_name name m ≡ none
    → entries_of id (insert_name name host m)
      ≡ entries_of id m + (if host.mega_client_id == id then 1 else 0)
unfolding insert_name
entries_of-insert_name id name host [] e = ground arith
entries_of-insert_name id name host ((n, h) ∷ m) e =
    ground (arith, entries_of-insert_name id name host m)

pub entries_named-insert_name :
    (k name : String) (host : Host) (m : HostNameMap)
    → find_name name m ≡ none
    → entries_named k (insert_name name host m)
      ≡ entries_named k m + (if str_eq name k then 1 else 0)
unfolding insert_name
entries_named-insert_name k name host [] e = ground arith
entries_named-insert_name k name host ((n, h) ∷ m) e =
    ground (arith, entries_named-insert_name k name host m)

pub entries_of-take_first :
    (id : ℕ) (name : String) (test : Host → Bool) (m rest : HostNameMap) (found : Host)
    → take_first name test m ≡ some (found, rest)
    → entries_of id m ≡ entries_of id rest + (if found.mega_client_id == id then 1 else 0)
unfolding take_first
entries_of-take_first id name test [] rest found e = ground arith
entries_of-take_first id name test ((n, h) ∷ m) rest found e =
    elim (Option-cases (take_first name test m)) [
      | inl q ↦ ground arith
      | inr ((f, r), q) ↦ ground (arith, entries_of-take_first id name test m r f q)
    ]

find_name-insert_name :
    (k name : String) (host : Host) (m : HostNameMap)
    → find_name k m ≡ none
    → str_eq name k ≡ false
    → find_name k (insert_name name host m) ≡ none
unfolding insert_name
find_name-insert_name k name host [] e n = ground arith
find_name-insert_name k name host ((j, h) ∷ m) e n =
    ground (arith, find_name-insert_name k name host m)

has_host-apart :
    (name k p : String) (ps : Pairs)
    → has_host name ((p, k) ∷ ps) ≡ false
    → (str_eq k name ≡ false) × (has_host name ps ≡ false)
has_host-apart name k p ps e = ground arith

str_eq-flip : (a b : String) → str_eq a b ≡ false → str_eq b a ≡ false
str_eq-flip a b e = elim (Bool-cases (str_eq b a)) [
  | inl q ↦ ground (arith, eq_iff a b, eq_iff b a)
  | inr q ↦ q
]

pub Fresh-insert_name :
    (ps : Pairs) (name : String) (host : Host) (m : HostNameMap)
    → Fresh ps m
    → has_host name ps ≡ false
    → Fresh ps (insert_name name host m)
Fresh-insert_name [] name host m f n = tt
Fresh-insert_name ((p, k) ∷ ps) name host m f n =
    let (apart, later) = has_host-apart name k p ps n in
    (
      find_name-insert_name k name host m f.0 (str_eq-flip k name apart),
      f.1,
      Fresh-insert_name ps name host m f.2 later,
    )

-- A host name that is in neither the pairs nor the mapping stays out of both.
abbrev pub StaysOut : String → Remapped → Type 0
StaysOut k r = (find_name k r.mapping ≡ none) × (has_host k r.left ≡ false)

leave-StaysOut :
    (k process host : String) (r : Remapped)
    → str_eq host k ≡ false
    → StaysOut k r
    → StaysOut k (leave process host r)
leave-StaysOut k process host r n s = (s.0, ground (arith, s.1, n))

pub reuse-StaysOut :
    (k : String) (ps : Pairs) (names enrolled mapping : HostNameMap)
    → find_name k mapping ≡ none
    → has_host k ps ≡ false
    → StaysOut k (reuse ps names enrolled mapping)
unfolding reuse
reuse-StaysOut k [] names enrolled mapping f n = (f, refl)
reuse-StaysOut k ((p, h) ∷ ps) names enrolled mapping f n =
    let (apart, later) = has_host-apart k h p ps n in
    elim (Option-cases (reusable p h names enrolled)) [
      | inl q ↦
          rw (q, reuse)
            (leave-StaysOut k p h (reuse ps names enrolled mapping) apart
              (reuse-StaysOut k ps names enrolled mapping f later))
      | inr ((x, rest), q) ↦
          rw (q, reuse)
            (reuse-StaysOut k ps (erase_name h names) rest (insert_name h x mapping)
              (find_name-insert_name k h x mapping f apart) later)
    ]

pub assign-StaysOut :
    (k : String) (ps : Pairs) (enrolled mapping : HostNameMap)
    → find_name k mapping ≡ none
    → has_host k ps ≡ false
    → StaysOut k (assign ps enrolled mapping)
unfolding assign
assign-StaysOut k [] enrolled mapping f n = (f, refl)
assign-StaysOut k ((p, h) ∷ ps) enrolled mapping f n =
    let (apart, later) = has_host-apart k h p ps n in
    elim (Option-cases (take_first p any_host enrolled)) [
      | inl q ↦
          rw (q, assign)
            (leave-StaysOut k p h (assign ps enrolled mapping) apart
              (assign-StaysOut k ps enrolled mapping f later))
      | inr ((x, rest), q) ↦
          rw (q, assign)
            (assign-StaysOut k ps rest (insert_name h x mapping)
              (find_name-insert_name k h x mapping f apart) later)
    ]
