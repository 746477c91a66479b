-- ===== src/Client/Once.antt =====
-- Each datum of another component is asked for once in a cycle.
use megastructure.Common.{
  ℕ, ◌≡◌, refl, inl, inr, Bool, true, false, ◌&&◌, ◌||◌, List, [], ◌∷◌, ◌==◌, if◌then◌else◌, ◌+◌,
  ◌<◌, ok, get_elem?, length, arith, subst, sym, ap, ◌∙◌, Bool-cases, Option-cases, Result-cases,
  zero, suc, replicate, length,
}
use megastructure.Client.Traits.{
  Call, NetState, Template, test, take_lock, readlock, readlock_instance,
}
use megastructure.Client.Reads.{
  Access, access, access_all, reads_of, accesses, bit_of, Layout, Follows, AllFollow, Separate,
  Consistent,
}
use megastructure.Client.Consistent.{Adds, take_lock-Consistent, read_and_set-Consistent}

simple-Consistent :
    (answers : List Call → ℕ) (l : Layout) (t : Template) (s s' : NetState)
    → Consistent l s
    → readlock answers t s ≡ ok s'
    → Consistent l s' × (s'.reads ≡ s.reads)
unfolding readlock test
simple-Consistent answers l t s s' k e =
    elim (Option-cases (get_elem? s.host_locks t.component_bit)) [
      | inl q ↦ absurd (ground arith)
      | inr (true, q) ↦
          let same : s ≡ s' = ground arith in
          subst (λ (r : NetState). Consistent l r × (r.reads ≡ s.reads)) same (k, refl)
      | inr (false, q) ↦
          let taken : take_lock answers (Call.asks_readlock t.component_rtt) t s ≡ ok s' =
            ground arith in
          let (kept, same, held) =
            take_lock-Consistent answers l (Call.asks_readlock t.component_rtt) t s s' (λ x. refl) k
              taken in
          (kept, same)
    ]

unread :
    (l : Layout) (t : Template) (i : ℕ) (s : NetState)
    → Follows l (Access.of_instance t i)
    → Consistent l s
    → bit_of t.component_bit s.host_locks ≡ false
    → bit_of (t.hash_base + i) s.reads ≡ false
unread l t i s (lock, base, short) k e = elim (Bool-cases (bit_of (t.hash_base + i) s.reads)) [
  | inl q ↦
      let held = k.locked t.type i short (subst (λ n. bit_of (n + i) s.reads ≡ true) base q) in
      let open_lock = subst (λ n. bit_of n s.host_locks ≡ false) lock e in absurd (ground arith)
  | inr q ↦ q
]

Adds-nothing :
    (l : Layout) (t : Template) (i : ℕ) (s : NetState)
    → Follows l (Access.of_instance t i)
    → bit_of (t.hash_base + i) s.reads ≡ true
    → Adds l (Access.of_instance t i) s s
unfolding Adds
Adds-nothing l t i s (lock, base, short) e type j h = elim (Bool-cases (t.type == type && i == j)) [
  | inl w ↦
      let types : t.type ≡ type = ground arith in
      let instances : i ≡ j = ground arith in
      let at_base = subst (λ n. bit_of (n + i) s.reads ≡ true) base e in
      let at_type = subst (λ n. bit_of (l.base n + i) s.reads ≡ true) types at_base in
      let bit = subst (λ n. bit_of (l.base type + n) s.reads ≡ true) instances at_type in
      ground arith
  | inr w ↦ ground arith
]

instance-Consistent :
    (answers : List Call → ℕ) (l : Layout) (t : Template) (i : ℕ) (s s' : NetState)
    → Separate l
    → Follows l (Access.of_instance t i)
    → Consistent l s
    → readlock_instance answers t i s ≡ ok s'
    → Consistent l s' × Adds l (Access.of_instance t i) s s'
unfolding readlock_instance test Adds
instance-Consistent answers l t i s s' separate f k e =
    elim (Option-cases (get_elem? s.host_locks t.component_bit)) [
      | inl q ↦ absurd (ground arith)
      | inr (false, q) ↦
          elim (Result-cases (take_lock answers (Call.asks_readlock t.component_rtt) t s)) [
            | inl w ↦ absurd (ground arith)
            | inr (r, w) ↦
                let (kept, same, held) =
                  take_lock-Consistent answers l (Call.asks_readlock t.component_rtt) t s r
                    (λ x. refl) k w in
                let unset : bit_of (t.hash_base + i) r.reads ≡ false =
                  subst (λ bits. bit_of (t.hash_base + i) bits ≡ false) (sym same)
                    (unread l t i s f k (ground arith)) in
                let (kept', adds) =
                  read_and_set-Consistent answers l t i r s' separate f kept held unset
                    (ground arith) in
                (
                  kept',
                  λ type j h.
                      adds type j h
                      ∙ ap
                          (λ bits.
                            accesses (type, j) (Access.of_instance t i ∷ [])
                            || bit_of (l.base type + j) bits)
                          same,
                )
          ]
      | inr (true, q) ↦ elim (Option-cases (get_elem? s.reads (t.hash_base + i))) [
        | inl w ↦ absurd (ground arith)
        | inr (true, w) ↦
            let same : s ≡ s' = ground arith in
            subst (λ r. Consistent l r × Adds l (Access.of_instance t i) s r) same
              (k, Adds-nothing l t i s f (ground arith))
        | inr (false, w) ↦
            read_and_set-Consistent answers l t i s s' separate f k (ground arith) (ground arith)
              (ground arith)
      ]
    ]

access-Consistent :
    (answers : List Call → ℕ) (l : Layout) (a : Access) (s s' : NetState)
    → Separate l
    → Follows l a
    → Consistent l s
    → access answers a s ≡ ok s'
    → Consistent l s' × Adds l a s s'
unfolding Adds
access-Consistent answers l (Access.simple t) s s' separate f k e =
    let (kept, same) = simple-Consistent answers l t s s' k e in
    (kept, λ type j h. ap (λ bits. bit_of (l.base type + j) bits) same)
access-Consistent answers l (Access.of_instance t i) s s' separate f k e =
    instance-Consistent answers l t i s s' separate f k e

accesses-cons :
    (x : ℕ × ℕ) (a : Access) (list : List Access)
    → accesses x (a ∷ list) ≡ (accesses x (a ∷ []) || accesses x list)
accesses-cons (type, i) (Access.simple t) list = refl
accesses-cons (type, i) (Access.of_instance t j) list = ground arith

or_step : (a b c : Bool) {d e x : Bool} → d ≡ (a || c) → e ≡ (b || d) → x ≡ (a || b) → e ≡ (x || c)
or_step a b c first later both = ground arith

counted :
    (a : Bool) {n : ℕ} {b c : Bool}
    → n ≡ (if b then 1 else 0)
    → b ≡ (a || c)
    → c ≡ false
    → n ≡ (if a then 1 else 0)
counted a count bit clear = ground arith

access_all-Consistent :
    (answers : List Call → ℕ) (l : Layout) (list : List Access) (s s' : NetState)
    → Separate l
    → AllFollow l list
    → Consistent l s
    → access_all answers list s ≡ ok s'
    → Consistent l s'
      × ((type i : ℕ)
          → i < l.size type
          → bit_of (l.base type + i) s'.reads
            ≡ (accesses (type, i) list || bit_of (l.base type + i) s.reads))
unfolding Adds
access_all-Consistent answers l [] s s' separate f k e =
    let same : s ≡ s' = ground arith in
    subst
      (λ (r : NetState).
        Consistent l r
        × ((type i : ℕ)
            → i < l.size type
            → bit_of (l.base type + i) r.reads ≡ bit_of (l.base type + i) s.reads))
      same (k, λ type i h. refl)
access_all-Consistent answers l (a ∷ list) s s' separate (f, fs) k e =
    elim (Result-cases (access answers a s)) [
      | inl q ↦ absurd (ground arith)
      | inr (r, q) ↦
          let (kept, adds) = access-Consistent answers l a s r separate f k q in
          let (kept', adds') =
            access_all-Consistent answers l list r s' separate fs kept (ground arith) in
          (
            kept',
            λ type j h.
                let first = adds type j h in
                let later = adds' type j h in
                let both = accesses-cons (type, j) a list in
                or_step (accesses (type, j) (a ∷ [])) (accesses (type, j) list)
                  (bit_of (l.base type + j) s.reads) first later both,
          )
    ]

-- The state at the begin of a cycle, once completeSimulationLocks has reset it.
abbrev pub new_cycle : NetState → NetState
new_cycle s = record s {
  host_locks = replicate (length s.host_locks) false;
  reads = replicate (length s.reads) false;
  write_set = [];
  calls = [];
}

pub bit_of-replicate : (n i : ℕ) → bit_of i (replicate n false) ≡ false
bit_of-replicate zero i = refl
bit_of-replicate (suc n) zero = refl
bit_of-replicate (suc n) (suc i) = bit_of-replicate n i

-- A cycle in which the data of other components is only read, with the lock bit and the hash base
-- of each type fixed and no two instances on one bit: if the accesses do not throw, each instance
-- that is accessed is asked for exactly once, and no other is asked for.
pub access_all-once :
    (answers : List Call → ℕ) (l : Layout) (list : List Access) (s s' : NetState) (type i : ℕ)
    → Separate l
    → AllFollow l list
    → access_all answers list (new_cycle s) ≡ ok s'
    → i < l.size type
    → reads_of (type, i) s'.calls ≡ (if accesses (type, i) list then 1 else 0)
access_all-once answers l list s s' type i separate f e h =
    let clear = λ (n : ℕ). bit_of-replicate (length s.reads) n in
    let (kept, bits) =
      access_all-Consistent answers l list (new_cycle s) s' separate f
        (record {
          once = λ type j h. let bit = clear (l.base type + j) in ground arith;
          locked = λ type j h b. let bit = clear (l.base type + j) in absurd (ground arith);
        })
        e in
    counted (accesses (type, i) list) (kept.once type i h) (bits type i h) (clear (l.base type + i))
