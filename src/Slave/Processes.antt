-- ===== src/Slave/Processes.antt =====
-- Which clients the constructor of HostMap gives to which host names.
use megastructure.Common.{
  ◌≡◌, refl, subst, ◌⊎◌, inl, inr, Bool, true, false, ◌&&◌, [], ◌∷◌, some, String, arith, str_eq,
  eq_iff, Option-cases, Bool-cases,
}
use megastructure.Slave.Hosts.{Host, HostNameMap, HostMap}
use megastructure.Slave.Remap.{
  Pairs, find_name, insert_name, take_first, reusable, Remapped, same_client, leave, reuse, assign,
  remap, erase_name, any_host,
}

-- The host `x` stands under the name `p`.
abbrev pub IsUnder : String → Host → HostNameMap → Type 0
IsUnder p x [] = true ≡ false
IsUnder p x ((n, h) ∷ m) = ((n ≡ p) × (h ≡ x)) ⊎ IsUnder p x m

abbrev pub IsPair : String → String → Pairs → Type 0
IsPair p k [] = true ≡ false
IsPair p k ((q, h) ∷ ps) = ((q ≡ p) × (h ≡ k)) ⊎ IsPair p k ps

-- Some pair asks for the host name `k` in a process, and `x` is enrolled as that process.
abbrev pub Serves : HostNameMap → Pairs → String → Host → Type 0
Serves enrolled pairs k x = (p : String) × IsPair p k pairs × IsUnder p x enrolled

find-insert_name :
    (k name : String) (host x : Host) (m : HostNameMap)
    → find_name k (insert_name name host m) ≡ some x
    → (find_name k m ≡ some x) ⊎ ((name ≡ k) × (host ≡ x))
unfolding insert_name
find-insert_name k name host x [] e = elim (Bool-cases (str_eq name k)) [
  | inl q ↦ inr ((eq_iff name k).0 q, ground (arith, q))
  | inr q ↦ absurd (ground (arith, q))
]
find-insert_name k name host x ((n, h) ∷ m) e = ground (arith, find-insert_name k name host x m)

take_first-IsUnder :
    (p : String) (test : Host → Bool) (m rest : HostNameMap) (found : Host)
    → take_first p test m ≡ some (found, rest)
    → IsUnder p found m
unfolding take_first
take_first-IsUnder p test [] rest found e = ground arith
take_first-IsUnder p test ((n, h) ∷ m) rest found e = elim (Option-cases (take_first p test m)) [
  | inl q ↦ ground (arith, eq_iff n p)
  | inr ((f, r), q) ↦ ground (arith, eq_iff n p, take_first-IsUnder p test m r f q)
]

take_first-rest :
    (p : String) (test : Host → Bool) (m rest : HostNameMap) (found : Host) (q : String) (x : Host)
    → take_first p test m ≡ some (found, rest)
    → IsUnder q x rest
    → IsUnder q x m
unfolding take_first
take_first-rest p test [] rest found q x e u = ground arith
take_first-rest p test ((n, h) ∷ m) rest found q x e u = elim (Bool-cases (str_eq n p && test h)) [
  | inl b ↦ let same : rest ≡ m = ground (arith, b) in inr (subst (λ y. IsUnder q x y) same u)
  | inr b ↦ elim (Option-cases (take_first p test m)) [
    | inl z ↦ absurd (ground (arith, b, z))
    | inr ((f, r), z) ↦
        let tail : HostNameMap = (n, h) ∷ r in
        let same : rest ≡ tail = ground (arith, b, z) in
        elim (subst (λ y. IsUnder q x y) same u) [
          | inl here ↦ inl here
          | inr later ↦ inr (take_first-rest p test m r f q x z later)
        ]
  ]
]

reusable-take_first :
    (p h : String) (names enrolled rest : HostNameMap) (found : Host)
    → reusable p h names enrolled ≡ some (found, rest)
    → (test : Host → Bool) × (take_first p test enrolled ≡ some (found, rest))
unfolding reusable
reusable-take_first p h names enrolled rest found e = elim (Option-cases (find_name h names)) [
  | inl q ↦ absurd (ground arith)
  | inr (old, q) ↦ (same_client old, ground (arith, q, e))
]

-- The loops only read the pairs and the enrolled hosts, and their mapping serves.
abbrev Sound : HostNameMap → Pairs → HostNameMap → Type 0
Sound enrolled pairs mapping =
    (k : String) (x : Host) → find_name k mapping ≡ some x → Serves enrolled pairs k x

insert-Sound :
    (enrolled : HostNameMap) (pairs : Pairs) (mapping : HostNameMap) (k : String) (x : Host)
    → Sound enrolled pairs mapping
    → Serves enrolled pairs k x
    → Sound enrolled pairs (insert_name k x mapping)
insert-Sound enrolled pairs mapping k x s v j y e = elim (find-insert_name j k x y mapping e) [
  | inl old ↦ s j y old
  | inr (a, b) ↦ subst (λ i. Serves enrolled pairs i y) a (subst (Serves enrolled pairs k) b v)
]

-- All pairs of the first list are pairs of the second one, and all hosts likewise.
abbrev PairsIn : Pairs → Pairs → Type 0
PairsIn ps pairs = (p k : String) → IsPair p k ps → IsPair p k pairs

abbrev HostsIn : HostNameMap → HostNameMap → Type 0
HostsIn m enrolled = (p : String) (x : Host) → IsUnder p x m → IsUnder p x enrolled

abbrev Outcome : HostNameMap → Pairs → Remapped → Type 0
Outcome enrolled pairs r =
    Sound enrolled pairs r.mapping × PairsIn r.left pairs × HostsIn r.enrolled enrolled

leave-Outcome :
    (enrolled : HostNameMap) (pairs : Pairs) (p h : String) (r : Remapped)
    → IsPair p h pairs
    → Outcome enrolled pairs r
    → Outcome enrolled pairs (leave p h r)
leave-Outcome enrolled pairs p h r i s = (
  s.0,
  λ q k u. elim u [
    | inl (a, b) ↦ subst (λ z. IsPair z k pairs) a (subst (λ z. IsPair p z pairs) b i)
    | inr later ↦ s.1 q k later
  ],
  s.2,
)

reuse-Outcome :
    (enrolled : HostNameMap) (pairs ps : Pairs) (names m mapping : HostNameMap)
    → PairsIn ps pairs
    → HostsIn m enrolled
    → Sound enrolled pairs mapping
    → Outcome enrolled pairs (reuse ps names m mapping)
unfolding reuse
reuse-Outcome enrolled pairs [] names m mapping i u s = (s, λ p k z. absurd cc, u)
reuse-Outcome enrolled pairs ((p, h) ∷ ps) names m mapping i u s =
    let this : IsPair p h pairs = i p h (inl (refl, refl)) in
    let others : PairsIn ps pairs = λ q k z. i q k (inr z) in
    elim (Option-cases (reusable p h names m)) [
      | inl q ↦
          rw (q, reuse)
            (leave-Outcome enrolled pairs p h (reuse ps names m mapping) this
              (reuse-Outcome enrolled pairs ps names m mapping others u s))
      | inr ((x, rest), q) ↦
          let (test, t) = reusable-take_first p h names m rest x q in
          rw (q, reuse)
            (reuse-Outcome enrolled pairs ps (erase_name h names) rest (insert_name h x mapping)
              others (λ j y z. u j y (take_first-rest p test m rest x j y t z))
              (insert-Sound enrolled pairs mapping h x s
                (p, this, u p x (take_first-IsUnder p test m rest x t))))
    ]

assign-Sound :
    (enrolled : HostNameMap) (pairs ps : Pairs) (m mapping : HostNameMap)
    → PairsIn ps pairs
    → HostsIn m enrolled
    → Sound enrolled pairs mapping
    → Sound enrolled pairs (assign ps m mapping).mapping
unfolding assign
assign-Sound enrolled pairs [] m mapping i u s = s
assign-Sound enrolled pairs ((p, h) ∷ ps) m mapping i u s =
    let this : IsPair p h pairs = i p h (inl (refl, refl)) in
    let others : PairsIn ps pairs = λ q k z. i q k (inr z) in
    elim (Option-cases (take_first p any_host m)) [
      | inl q ↦ rw (q, assign) (assign-Sound enrolled pairs ps m mapping others u s)
      | inr ((x, rest), q) ↦
          rw (q, assign)
            (assign-Sound enrolled pairs ps rest (insert_name h x mapping) others
              (λ j y z. u j y (take_first-rest p any_host m rest x j y q z))
              (insert-Sound enrolled pairs mapping h x s
                (p, this, u p x (take_first-IsUnder p any_host m rest x q))))
    ]

-- Every client that the constructor gives to a host name was enrolled, under a process name for
-- which the new program has that host name.
pub remap-Serves :
    (old : HostMap) (pairs : Pairs) (k : String) (x : Host)
    → find_name k (remap old pairs).0.hostname_mapping ≡ some x
    → Serves old.process_name_map pairs k x
unfolding remap
remap-Serves old pairs k x e =
    let names = old.hostname_mapping in
    let enrolled = old.process_name_map in
    let first = reuse pairs names enrolled [] in
    let r =
      reuse-Outcome enrolled pairs pairs names enrolled [] (λ p j z. z) (λ p y z. z)
        (λ j y z. absurd cc) in
    assign-Sound enrolled pairs first.left first.enrolled first.mapping r.1 r.2 r.0 k x e
