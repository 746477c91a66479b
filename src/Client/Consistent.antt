-- ===== src/Client/Consistent.antt =====
-- The bits of the reads and the reads that were asked for agree.
use megastructure.Common.{
  ℕ, ◌≡◌, refl, inl, inr, true, false, ◌&&◌, ◌||◌, List, [], ◌∷◌, ◌++◌, ◌==◌, ◌+◌, ◌<◌, ok, arith,
  subst, ap, ==_iff, ==_refl, Bool-cases, Result-cases,
}
use megastructure.Client.Traits.{
  Call, NetState, Template, set_bit, set_cycle, call, set_read, take_lock, read_and_set,
}
use megastructure.Client.Reads.{
  Access, is_read_of, accesses, bit_of, reads_of-append, Layout, Follows, Separate, Consistent,
  bit_of-set_bit,
}

pub take_lock-Consistent :
    (answers : List Call → ℕ) (l : Layout) (c : Call) (t : Template) (s s' : NetState)
    → ((x : ℕ × ℕ) → is_read_of x c ≡ false)
    → Consistent l s
    → take_lock answers c t s ≡ ok s'
    → Consistent l s' × (s'.reads ≡ s.reads) × (bit_of t.component_bit s'.host_locks ≡ true)
unfolding take_lock call
take_lock-Consistent answers l c t s s' quiet k e =
    elim (Result-cases
      (set_cycle t.component_cycle (answers (s.calls ++ (c ∷ []))) s.host_cycles)) [
        | inl q ↦ absurd (ground arith)
        | inr (cycles, q) ↦ elim (Result-cases (set_bit t.component_bit s.host_locks)) [
          | inl w ↦ absurd (ground arith)
          | inr (locks, w) ↦
              let r : NetState = record (call c s) { host_cycles = cycles; host_locks = locks } in
              let same : r ≡ s' = ground arith in
              let set_locks = λ (j : ℕ). bit_of-set_bit s.host_locks locks t.component_bit j w in
              subst
                (λ (s' : NetState).
                  Consistent l s'
                  × (s'.reads ≡ s.reads)
                  × (bit_of t.component_bit s'.host_locks ≡ true))
                same
                (
                  record {
                    once = λ type i h.
                        let appended = reads_of-append (type, i) s.calls (c ∷ []) in
                        let before = k.once type i h in
                        let nothing = quiet (type, i) in ground arith;
                    locked = λ type i h b.
                        let before = k.locked type i h b in
                        let after = set_locks (l.lock_bit type) in ground arith;
                  },
                  refl,
                  let after = set_locks t.component_bit in ground (arith, ==_refl t.component_bit),
                )
        ]
      ]

-- What an access adds to the bits that are set.
unfoldable pub Adds : Layout → Access → NetState → NetState → Type 0
Adds l a s s' =
    (type i : ℕ)
    → i < l.size type
    → bit_of (l.base type + i) s'.reads
      ≡ (accesses (type, i) (a ∷ []) || bit_of (l.base type + i) s.reads)

same_bit :
    (l : Layout) (t : Template) (i type j : ℕ)
    → Separate l
    → Follows l (Access.of_instance t i)
    → j < l.size type
    → (t.hash_base + i == l.base type + j) ≡ (t.type == type && i == j)
same_bit l t i type j separate (lock, base, short) h =
    elim (Bool-cases (t.hash_base + i == l.base type + j)) [
      | inl q ↦
          let same : l.base t.type + i ≡ l.base type + j = ground arith in
          let (types, instances) = separate t.type type i j short h same in ground arith
      | inr q ↦ elim (Bool-cases (t.type == type && i == j)) [
        | inl w ↦
            let types : t.type ≡ type = ground arith in
            let instances : i ≡ j = ground arith in
            let bases : l.base t.type ≡ l.base type = ap l.base types in absurd (ground arith)
        | inr w ↦ ground arith
      ]
    ]

pub read_and_set-Consistent :
    (answers : List Call → ℕ) (l : Layout) (t : Template) (i : ℕ) (s s' : NetState)
    → Separate l
    → Follows l (Access.of_instance t i)
    → Consistent l s
    → bit_of t.component_bit s.host_locks ≡ true
    → bit_of (t.hash_base + i) s.reads ≡ false
    → read_and_set answers t i s ≡ ok s'
    → Consistent l s' × Adds l (Access.of_instance t i) s s'
unfolding read_and_set set_read call Adds
read_and_set-Consistent answers l t i s s' separate (lock, base, short) k held unset e =
    elim (Result-cases (set_bit (t.hash_base + i) s.reads)) [
      | inl q ↦ absurd (ground arith)
      | inr (bits, q) ↦
          let r : NetState = record (call (Call.asks_read t.type i) s) { reads = bits } in
          let same : r ≡ s' = ground arith in
          let after =
            λ (type j : ℕ). bit_of-set_bit s.reads bits (t.hash_base + i) (l.base type + j) q in
          subst (λ s'. Consistent l s' × Adds l (Access.of_instance t i) s s') same
            (
              record {
                once = λ type j h.
                    let appended =
                      reads_of-append (type, j) s.calls (Call.asks_read t.type i ∷ []) in
                    let before = k.once type j h in
                    let bit = after type j in
                    let here = same_bit l t i type j separate (lock, base, short) h in
                    elim (Bool-cases (t.hash_base + i == l.base type + j)) [
                      | inl w ↦
                          let fresh : bit_of (l.base type + j) s.reads ≡ false =
                            subst (λ n. bit_of n s.reads ≡ false)
                              ((==_iff (t.hash_base + i) (l.base type + j)).0 w) unset in
                          ground arith
                      | inr w ↦ ground arith
                    ];
                locked = λ type j h b.
                    let before = k.locked type j h in
                    let bit = after type j in
                    let here = same_bit l t i type j separate (lock, base, short) h in
                    elim (Bool-cases (t.hash_base + i == l.base type + j)) [
                      | inl w ↦
                          let types : t.type ≡ type = ground arith in
                          subst (λ n. bit_of (l.lock_bit n) s.host_locks ≡ true) types
                            (subst (λ n. bit_of n s.host_locks ≡ true) lock held)
                      | inr w ↦ before (ground arith)
                    ];
              },
              λ type j h.
                  let bit = after type j in
                  let here = same_bit l t i type j separate (lock, base, short) h in ground arith,
            )
    ]
