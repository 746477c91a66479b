-- ===== src/Client/Reads.antt =====
-- How often a program reads the data of other components in a cycle.
use megastructure.Common.{
  ℕ, ◌≡◌, refl, inl, inr, Bool, true, false, ◌&&◌, ◌||◌, List, [], ◌∷◌, ◌++◌, none, some, ◌==◌,
  if◌then◌else◌, ◌+◌, ◌<◌, Result, ok, throws, get_elem?, set, length, arith, subst, ==_iff,
  ==_refl, Bool-cases, Option-cases, get_elem?-set_self, get_elem?-set_ne, zero, suc,
}
use megastructure.Client.Traits.{Call, NetState, Template, set_bit, readlock, readlock_instance}

-- Accesses for reading, in their order: a whole datum, or an instance of it.
pub data Access : Type 0 where
  simple : Template → Access
  of_instance : Template → ℕ → Access

module _ (answers : List Call → ℕ) where
  abbrev pub access : Access → NetState → Result NetState
  access (Access.simple t) s = readlock answers t s
  access (Access.of_instance t instance_id) s = readlock_instance answers t instance_id s

  abbrev pub access_all : List Access → NetState → Result NetState
  access_all [] s = ok s
  access_all (a ∷ rest) s = elim (access a s) [ throws ↦ throws | ok s' ↦ access_all rest s' ]

abbrev pub is_read_of : ℕ × ℕ → Call → Bool
is_read_of (type, instance_id) (Call.asks_read type' instance_id') =
    type' == type && instance_id' == instance_id
is_read_of _ _ = false

abbrev pub reads_of : ℕ × ℕ → List Call → ℕ
reads_of x [] = 0
reads_of x (c ∷ rest) = if is_read_of x c then 1 + reads_of x rest else reads_of x rest

abbrev pub accesses : ℕ × ℕ → List Access → Bool
accesses x [] = false
accesses x (Access.simple t ∷ rest) = accesses x rest
accesses (type, instance_id) (Access.of_instance t instance_id' ∷ rest) =
    (t.type == type && instance_id' == instance_id) || accesses (type, instance_id) rest

abbrev pub bit_of : ℕ → List Bool → Bool
bit_of i bits = elim (get_elem? bits i) [ none ↦ false | some b ↦ b ]

pub reads_of-append :
    (x : ℕ × ℕ) (cs cs' : List Call) → reads_of x (cs ++ cs') ≡ reads_of x cs + reads_of x cs'
reads_of-append x [] cs' = omega arith
reads_of-append x (c ∷ cs) cs' = ground (arith, reads_of-append x cs cs')

-- The layout of the reads: the lock bit, the hash base and the size of each type.
pub record Layout : Type 0 where
  pub lock_bit : ℕ → ℕ
  pub base : ℕ → ℕ
  pub size : ℕ → ℕ

-- An access goes by the layout.
abbrev pub Follows : Layout → Access → Type 0
Follows l (Access.simple t) = Unit {0}
Follows l (Access.of_instance t instance_id) =
    (t.component_bit ≡ l.lock_bit t.type)
    × (t.hash_base ≡ l.base t.type)
    × (instance_id < l.size t.type)

abbrev pub AllFollow : Layout → List Access → Type 0
AllFollow l [] = Unit {0}
AllFollow l (a ∷ rest) = Follows l a × AllFollow l rest

-- Two instances do not share a bit.
abbrev pub Separate : Layout → Type 0
Separate l =
    (type type' i i' : ℕ)
    → i < l.size type
    → i' < l.size type'
    → l.base type + i ≡ l.base type' + i'
    → (type ≡ type') × (i ≡ i')

-- A bit is set exactly for what was read, and only under the lock.
pub record Consistent (l : Layout) (s : NetState) : Type 0 where
  pub once :
      (type i : ℕ)
      → i < l.size type
      → reads_of (type, i) s.calls ≡ (if bit_of (l.base type + i) s.reads then 1 else 0)
  pub locked :
      (type i : ℕ)
      → i < l.size type
      → bit_of (l.base type + i) s.reads ≡ true
      → bit_of (l.lock_bit type) s.host_locks ≡ true

get_elem?-lt : (bits : List Bool) (i : ℕ) (b : Bool) → get_elem? bits i ≡ some b → i < length bits
get_elem?-lt [] i b e = ground arith
get_elem?-lt (x ∷ bits) zero b e = omega arith
get_elem?-lt (x ∷ bits) (suc i) b e = omega (arith, get_elem?-lt bits i b e)

set_bit-ok :
    (bits bits' : List Bool) (i : ℕ)
    → set_bit i bits ≡ ok bits'
    → (i < length bits) × (set bits i true ≡ bits')
unfolding set_bit
set_bit-ok bits bits' i e = elim (Option-cases (get_elem? bits i)) [
  | inl q ↦ absurd (ground arith)
  | inr (b, q) ↦ (get_elem?-lt bits i b q, ground arith)
]

bit_of-set :
    (bits : List Bool) (i j : ℕ)
    → i < length bits
    → bit_of j (set bits i true) ≡ (i == j || bit_of j bits)
bit_of-set bits i j h = elim (Bool-cases (i == j)) [
  | inl q ↦
      subst (λ k. bit_of k (set bits i true) ≡ (i == k || bit_of k bits)) ((==_iff i j).0 q)
        (rw (bit_of, get_elem?-set_self bits i true h, ==_refl i) refl)
  | inr q ↦ rw (bit_of, get_elem?-set_ne bits {i = i} {j = j} true (λ e. ground arith), q) refl
]

pub bit_of-set_bit :
    (bits bits' : List Bool) (i j : ℕ)
    → set_bit i bits ≡ ok bits'
    → bit_of j bits' ≡ (i == j || bit_of j bits)
bit_of-set_bit bits bits' i j e =
    let (short, same) = set_bit-ok bits bits' i e in
    subst (λ b. bit_of j b ≡ (i == j || bit_of j bits)) same (bit_of-set bits i j short)
