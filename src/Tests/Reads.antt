-- ===== src/Tests/Reads.antt =====
-- A component that reads two instances of one datum of another component.
use megastructure.Common.{ℕ, ◌≡◌, refl, true, false, List, [], ◌∷◌, some, ◌^◌, ◌<◌, arith, ok}
use megastructure.Generators.Network.{
  Buffer, BufferRelation, BufferTypes, lookup, get_data_hash_bases, visit_buffers, visit_members,
  visit_member, add_member, insert_base, get_data_member_read_hash_base,
}
use megastructure.Generators.Ranges.{remote_members, total}
use megastructure.Client.Traits.{
  Call, NetState, Template, test, set_bit, call, set_read, set_cycle, take_lock, readlock,
  read_and_set, readlock_instance,
}
use megastructure.Client.Reads.{Access, AllFollow, access_all, reads_of}
use megastructure.Client.Once.{new_cycle}
use megastructure.Client.Layouts.{analysed, analysed_once}

abbrev buffer : Buffer
buffer = record {
  index = 1;
  roots = some ("there", "other");
  is_simple = true;
  size = 2;
  data_members = 5 ∷ [];
}

abbrev types : BufferTypes
types = (buffer, BufferRelation.planet) ∷ []

abbrev reader : Template
reader = record {
  component_cycle = 0;
  component_bit = 0;
  component_rtt = 40;
  hash_base = 0;
  type = 5;
}

abbrev writer : Template
writer = record {
  component_cycle = 0;
  component_bit = 1;
  component_rtt = 40;
  hash_base = 0;
  type = 5;
}

abbrev state : NetState
state = record {
  host_locks = false ∷ false ∷ [];
  host_cycles = 0 ∷ [];
  reads = false ∷ false ∷ [];
  write_set = [];
  calls = [];
}

abbrev accessed : List Access
accessed =
    Access.of_instance reader 1 ∷ Access.of_instance reader 0 ∷ Access.of_instance reader 1 ∷ []

abbrev answer : List Call → ℕ
answer calls = 7

abbrev one_bit : ℕ → ℕ
one_bit type = 0

abbrev same_number : ℕ → ℕ
same_number type = type

abbrev after_accesses : NetState
after_accesses = record {
  host_locks = true ∷ false ∷ [];
  host_cycles = 7 ∷ [];
  reads = true ∷ true ∷ [];
  write_set = [];
  calls = Call.asks_readlock 40 ∷ Call.asks_read 5 1 ∷ Call.asks_read 5 0 ∷ [];
}

accesses_run : access_all answer accessed (new_cycle state) ≡ ok after_accesses
unfolding readlock_instance readlock test set_bit call set_read set_cycle take_lock read_and_set
accesses_run = refl

follows : AllFollow (analysed types one_bit same_number) accessed
unfolding get_data_member_read_hash_base get_data_hash_bases visit_buffers visit_members
    visit_member add_member insert_base lookup
follows = ((refl, refl, omega arith), ((refl, refl, omega arith), ((refl, refl, omega arith), tt)))

in_range : 1 < (analysed types one_bit same_number).size 5
unfolding lookup
in_range = omega arith

small : total (remote_members types) < 2 ^ 31
small = omega arith

own_member : (type type' : ℕ) → type ≡ type' → type ≡ type'
own_member type type' e = e

analysed_once_example : reads_of (5, 1) after_accesses.calls ≡ 1
analysed_once_example =
    analysed_once answer types one_bit same_number accessed state after_accesses 5 1 small
      own_member follows accesses_run in_range
