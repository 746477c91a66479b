-- ===== src/Generators/Bits.antt =====
-- What the bits of the set of reads stand for, and which buffers are in the process.
use megastructure.Common.{
  ℕ, ◌≡◌, ◌≢◌, refl, ◌⊎◌, inl, inr, ◌&&◌, ◌||◌, List, [], ◌∷◌, Option, none, some, String, ◌==◌,
  if◌then◌else◌, str_eq, ◌+◌, ◌^◌, ◌≤◌, ◌<◌, arith, Option-cases, ok, throws,
}
use megastructure.Generators.Network.{
  Buffer, BufferRelation, BufferTypes, lookup, get_data_hash_bases, get_read_bit_set_size,
  get_data_member_read_hash_base, insert_type, relation_of, get_buffer_types_in, get_buffer_types,
  find_type, in_process, is_buffer_in_process,
}
use megastructure.Generators.Ranges.{
  remote_members, total, base_of, Analysed, get_data_hash_bases-Analysed, base_of-bound,
  base_of-found, base_of-disjoint,
}

read_base-base_of :
    (types : BufferTypes) (member base : ℕ)
    → total (remote_members types) < 2 ^ 31
    → get_data_member_read_hash_base member (get_data_hash_bases types) ≡ ok base
    → base_of (remote_members types) 0 member ≡ some base
unfolding Analysed get_data_member_read_hash_base
read_base-base_of types member base h e =
    let found = (get_data_hash_bases-Analysed types h).1 member in ground arith

-- While the sizes of the remote data members add up to less than 2 ^ 31: the base of a data member
-- is the sum of the sizes of the remote data members before it, and a data member that is not
-- remote has none.
pub read_hash_base_lem :
    (types : BufferTypes) (member : ℕ)
    → total (remote_members types) < 2 ^ 31
    → get_data_member_read_hash_base member (get_data_hash_bases types)
      ≡ elim (base_of (remote_members types) 0 member) [ none ↦ throws | some base ↦ ok base ]
unfolding Analysed get_data_member_read_hash_base
read_hash_base_lem types member h =
    let found = (get_data_hash_bases-Analysed types h).1 member in
    rw (found, get_data_member_read_hash_base) refl

pub read_hash_base-found :
    (types : BufferTypes) (member size : ℕ)
    → total (remote_members types) < 2 ^ 31
    → lookup member (remote_members types) ≡ some size
    → (base : ℕ) × (get_data_member_read_hash_base member (get_data_hash_bases types) ≡ ok base)
read_hash_base-found types member size h e =
    let (base, found) = base_of-found (remote_members types) 0 member size e in
    let answer = read_hash_base_lem types member h in (base, ground arith)

-- While the sizes of the remote data members add up to less than 2 ^ 31: the bits of a data member,
-- as many as the size of its buffer from its base on, lie in the set of reads.
pub read_range-bound :
    (types : BufferTypes) (member base : ℕ)
    → total (remote_members types) < 2 ^ 31
    → get_data_member_read_hash_base member (get_data_hash_bases types) ≡ ok base
    → (size : ℕ) × (lookup member (remote_members types) ≡ some size)
      × (base + size ≤ get_read_bit_set_size (get_data_hash_bases types))
unfolding Analysed get_read_bit_set_size
read_range-bound types member base h e =
    let sum = (get_data_hash_bases-Analysed types h).0 in
    let (size, found, low, high) =
      base_of-bound (remote_members types) 0 member base
        (read_base-base_of types member base h e) in
    (size, found, ground arith)

-- While the sizes of the remote data members add up to less than 2 ^ 31: the bits of two data
-- members do not overlap.
pub read_ranges-disjoint :
    (types : BufferTypes) (member other base base' size size' : ℕ)
    → total (remote_members types) < 2 ^ 31
    → member ≢ other
    → get_data_member_read_hash_base member (get_data_hash_bases types) ≡ ok base
    → lookup member (remote_members types) ≡ some size
    → get_data_member_read_hash_base other (get_data_hash_bases types) ≡ ok base'
    → lookup other (remote_members types) ≡ some size'
    → (base + size ≤ base') ⊎ (base' + size' ≤ base)
read_ranges-disjoint types member other base base' size size' h differ e found e' found' =
    base_of-disjoint (remote_members types) 0 member other base base' size size' differ
      (read_base-base_of types member base h e) found (read_base-base_of types other base' h e')
      found'

-- The last buffer with the index.
abbrev pub last_roots : ℕ → List Buffer → Option (String × String) → Option (String × String)
last_roots index [] before = before
last_roots index (b ∷ rest) before =
    last_roots index rest (if b.index == index then b.roots else before)

find-insert_type :
    (b b' : Buffer) (r : BufferRelation) (types : BufferTypes)
    → find_type b (insert_type b' r types)
      ≡ (if b'.index == b.index then some r else find_type b types)
unfolding find_type insert_type
find-insert_type b b' r [] = refl
find-insert_type b b' r ((c, q) ∷ rest) = ground (arith, find-insert_type b b' r rest)

abbrev relation : String → String → Option (String × String) → Option BufferRelation
relation coordinator host none = none
relation coordinator host (some roots) = some (relation_of coordinator host roots)

find_type-in :
    (coordinator host : String) (b : Buffer) (buffers : List Buffer) (types types' : BufferTypes)
    (before : Option (String × String))
    → find_type b types ≡ relation coordinator host before
    → get_buffer_types_in coordinator host buffers types ≡ ok types'
    → find_type b types' ≡ relation coordinator host (last_roots b.index buffers before)
unfolding get_buffer_types_in
find_type-in coordinator host b [] types types' before e run = ground arith
find_type-in coordinator host b (c ∷ buffers) types types' before e run =
    elim (Option-cases c.roots) [
      | inl q ↦ ground arith
      | inr (roots, q) ↦
          let inserted = find-insert_type b c (relation_of coordinator host roots) types in
          find_type-in coordinator host b buffers
            (insert_type c (relation_of coordinator host roots) types) types'
            (if c.index == b.index then c.roots else before) (ground arith) (ground arith)
    ]

-- Whether a buffer is in the process: it is when it stands below the coordinator of the project
-- and, unless it is simple, below the host name of the project. The test throws for a buffer that
-- the layout does not have.
pub is_buffer_in_process_lem :
    (coordinator host : String) (buffers : List Buffer) (types : BufferTypes) (b : Buffer)
    → get_buffer_types coordinator host buffers ≡ ok types
    → is_buffer_in_process b types ≡ elim (last_roots b.index buffers none) [
      | none ↦ throws
      | some (c, h) ↦ ok (str_eq c coordinator && (str_eq h host || b.is_simple))
    ]
unfolding get_buffer_types is_buffer_in_process in_process relation_of find_type
is_buffer_in_process_lem coordinator host buffers types b run =
    let found = find_type-in coordinator host b buffers [] types none refl run in
    elim (Option-cases (last_roots b.index buffers none)) [
      | inl e ↦ ground arith
      | inr ((c, h), e) ↦ ground arith
    ]
