-- ===== src/Client/Layouts.antt =====
-- The network analysis gives each instance of the data of other components a bit of its own.
use megastructure.Common.{
  ℕ, ◌≡◌, inl, inr, List, if◌then◌else◌, Option, none, some, ◌==◌, ◌+◌, ◌<◌, Result, ok, throws,
  arith, ap, ==_iff, Bool-cases, Option-cases, ◌^◌,
}
use megastructure.Client.Traits.{Call, NetState}
use megastructure.Client.Reads.{Layout, Separate, Access, AllFollow, access_all, reads_of, accesses}
use megastructure.Client.Once.{new_cycle, access_all-once}
use megastructure.Generators.Network.{
  BufferTypes, lookup, get_data_hash_bases, get_data_member_read_hash_base,
}
use megastructure.Generators.Ranges.{remote_members, total}
use megastructure.Generators.Bits.{read_ranges-disjoint, read_hash_base-found}

abbrev base_or : Result ℕ → ℕ
base_or throws = 0
base_or (ok base) = base

abbrev size_or : Option ℕ → ℕ
size_or none = 0
size_or (some size) = size

-- The layout that the network analysis gives: the data member of each type in `member`.
abbrev pub analysed : BufferTypes → (ℕ → ℕ) → (ℕ → ℕ) → Layout
analysed types lock_bit member = record {
  lock_bit = lock_bit;
  base = λ type. base_or (get_data_member_read_hash_base (member type) (get_data_hash_bases types));
  size = λ type. size_or (lookup (member type) (remote_members types));
}

-- The layout of the network analysis gives no two instances of types one bit, while the sizes of
-- the remote data members add up to less than 2 ^ 31 and each type has a data member of its own.
pub analysed-Separate :
    (types : BufferTypes) (lock_bit member : ℕ → ℕ)
    → total (remote_members types) < 2 ^ 31
    → ((type type' : ℕ) → member type ≡ member type' → type ≡ type')
    → Separate (analysed types lock_bit member)
analysed-Separate types lock_bit member h own type type' i i' short short' same =
    elim (Option-cases (lookup (member type) (remote_members types))) [
      | inl e ↦ absurd (ground arith)
      | inr (size, e) ↦ elim (Option-cases (lookup (member type') (remote_members types))) [
        | inl e' ↦ absurd (ground arith)
        | inr (size', e') ↦
            let (base, found) = read_hash_base-found types (member type) size h e in
            let (base', found') = read_hash_base-found types (member type') size' h e' in
            let sums : base + i ≡ base' + i' =
              omega (arith, ap base_or found, ap base_or found', same) in
            let low : i < size = omega (arith, ap size_or e, short) in
            let low' : i' < size' = omega (arith, ap size_or e', short') in
            elim (Bool-cases (member type == member type')) [
              | inl q ↦
                  let members : member type ≡ member type' =
                    (==_iff (member type) (member type')).0 q in
                  let bases =
                    ap (λ m. base_or (get_data_member_read_hash_base m (get_data_hash_bases types)))
                      members in
                  (
                    own type type' members,
                    omega (arith, sums, bases, ap base_or found, ap base_or found'),
                  )
              | inr q ↦
                  let apart =
                    read_ranges-disjoint types (member type) (member type') base base' size size' h
                      (λ w. ground arith) found e found' e' in
                  absurd (ground arith)
            ]
      ]
    ]

-- A cycle in which the data of other components is only read through the bits that the network
-- analysis gives, while the sizes of the remote data members add up to less than 2 ^ 31 and each
-- type has a data member of its own: if the accesses do not throw, each instance that is accessed is
-- asked for exactly once, and no other instance is asked for.
pub analysed_once :
    (answers : List Call → ℕ) (types : BufferTypes) (lock_bit member : ℕ → ℕ) (list : List Access)
    (s s' : NetState) (type i : ℕ)
    → total (remote_members types) < 2 ^ 31
    → ((type type' : ℕ) → member type ≡ member type' → type ≡ type')
    → AllFollow (analysed types lock_bit member) list
    → access_all answers list (new_cycle s) ≡ ok s'
    → i < (analysed types lock_bit member).size type
    → reads_of (type, i) s'.calls ≡ (if accesses (type, i) list then 1 else 0)
analysed_once answers types lock_bit member list s s' type i h own follow e short =
    access_all-once answers (analysed types lock_bit member) list s s' type i
      (analysed-Separate types lock_bit member h own) follow e short
