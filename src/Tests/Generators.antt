-- ===== src/Tests/Generators.antt =====
-- A component of the host "self" of the coordinator "here", with a buffer in each relation to it.
use megastructure.Common.{
  ℕ, ◌≡◌, ◌≢◌, refl, ◌⊎◌, true, false, List, [], ◌∷◌, some, ◌+◌, ◌^◌, ◌≤◌, ◌<◌, arith, Result, ok,
}
use megastructure.Generators.Network.{
  Buffer, BufferRelation, BufferTypes, lookup, get_buffer_types, get_buffer_types_in, insert_type,
  relation_of, get_data_hash_bases, visit_buffers, visit_members, visit_member, add_member,
  insert_base, get_data_member_read_hash_base, get_read_bit_set_size,
}
use megastructure.Generators.Ranges.{remote_members, total}
use megastructure.Generators.Bits.{read_range-bound, read_ranges-disjoint}

abbrev own : Buffer
own = record {
  index = 1;
  roots = some ("here", "self");
  is_simple = false;
  size = 8;
  data_members = 10 ∷ [];
}

abbrev near : Buffer
near = record {
  index = 2;
  roots = some ("here", "other");
  is_simple = false;
  size = 4;
  data_members = 20 ∷ 21 ∷ [];
}

abbrev far : Buffer
far = record {
  index = 3;
  roots = some ("there", "self");
  is_simple = true;
  size = 2;
  data_members = 30 ∷ [];
}

abbrev buffers : List Buffer
buffers = far ∷ own ∷ near ∷ []

abbrev types : BufferTypes
types =
    (own, BufferRelation.component)
    ∷ (near, BufferRelation.process)
    ∷ (far, BufferRelation.planet)
    ∷ []

types_found : get_buffer_types "here" "self" buffers ≡ ok types
unfolding get_buffer_types get_buffer_types_in insert_type relation_of
types_found = refl

small : total (remote_members types) < 2 ^ 31
small = omega arith

abbrev last_member : Result ℕ
last_member = ok 8

base_far : get_data_member_read_hash_base 30 (get_data_hash_bases types) ≡ last_member
unfolding get_data_member_read_hash_base get_data_hash_bases visit_buffers visit_members
    visit_member add_member insert_base lookup
base_far = refl

base_near : get_data_member_read_hash_base 21 (get_data_hash_bases types) ≡ ok 4
unfolding get_data_member_read_hash_base get_data_hash_bases visit_buffers visit_members
    visit_member add_member insert_base lookup
base_near = refl

size_far : lookup 30 (remote_members types) ≡ some 2
unfolding lookup
size_far = refl

size_near : lookup 21 (remote_members types) ≡ some 4
unfolding lookup
size_near = refl

read_range-bound_example :
    (size : ℕ) × (lookup 30 (remote_members types) ≡ some size)
    × (8 + size ≤ get_read_bit_set_size (get_data_hash_bases types))
read_range-bound_example = read_range-bound types 30 8 small base_far

other_member : ◌≢◌ {A = ℕ} 30 21
other_member = λ e. omega arith

read_ranges-disjoint_example : (8 + 2 ≤ 4) ⊎ (4 + 4 ≤ 8)
read_ranges-disjoint_example =
    read_ranges-disjoint types 30 21 8 4 2 4 small other_member base_far size_far base_near
      size_near
