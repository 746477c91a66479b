-- ===== src/Generators/Network.antt =====
-- class NetworkAnalysis of src/generators/generator.cpp and api/egcomponent/generator.hpp: how the
-- buffers of the program relate to the component that is generated, and the bits of its reads.
use megastructure.Common.{
  ℕ, Bool, true, false, List, [], ◌∷◌, Option, none, some, String, ◌==◌, if◌then◌else◌, ltb, str_eq,
  ◌+◌, ◌-◌, ◌^◌, Result, ok, throws,
}
use Prim.Native.Nat.{◌%◌}

-- What the analysis reads of a buffer of the layout and of its data members: `roots` are the
-- identifiers of the coordinator and of the host name above it, if getCoordinatorHostname finds them.
pub record Buffer : Type 0 where
  pub index : ℕ
  pub roots : Option (String × String)
  pub is_simple : Bool
  pub size : ℕ
  pub data_members : List ℕ

pub data BufferRelation : Type 0 where
  component process planet total_relation_types : BufferRelation

-- A map that is ordered by the indices of the buffers.
abbrev pub BufferTypes : Type 0
BufferTypes = List (Buffer × BufferRelation)

-- m_bufferTypes[ pBuffer ] = relation, which keeps the key that is there.
unfoldable pub insert_type : Buffer → BufferRelation → BufferTypes → BufferTypes
insert_type b r [] = (b, r) ∷ []
insert_type b r ((b', r') ∷ rest) =
    let later = insert_type b r rest in
    if b'.index == b.index
    then (b', r) ∷ rest
    else (if ltb b.index b'.index then (b, r) ∷ (b', r') ∷ rest else (b', r') ∷ later)

-- The relation of a buffer of the roots `coordinator` and `host`, for a project of `own_coordinator`
-- and `own_host`.
unfoldable pub relation_of : String → String → String × String → BufferRelation
relation_of own_coordinator own_host (coordinator, host) =
    if str_eq coordinator own_coordinator
    then (if str_eq host own_host then BufferRelation.component else BufferRelation.process)
    else BufferRelation.planet

unfoldable pub get_buffer_types_in :
    String → String → List Buffer → BufferTypes → Result BufferTypes
unfolding insert_type relation_of
get_buffer_types_in own_coordinator own_host [] types = ok types
get_buffer_types_in own_coordinator own_host (b ∷ buffers) types = elim b.roots [
  | none ↦ throws
  | some roots ↦
      get_buffer_types_in own_coordinator own_host buffers
        (insert_type b (relation_of own_coordinator own_host roots) types)
]

unfoldable pub get_buffer_types : String → String → List Buffer → Result BufferTypes
unfolding get_buffer_types_in
get_buffer_types own_coordinator own_host buffers =
    get_buffer_types_in own_coordinator own_host buffers []

-- m_hashBases and m_hashTotal. A HashInt is an int32, kept here as its 32 bits.
pub record HashBases : Type 0 where
  pub hash_bases : List (ℕ × ℕ)
  pub hash_total : ℕ

unfoldable pub lookup : ℕ → List (ℕ × ℕ) → Option ℕ
lookup k [] = none
lookup k ((k', v) ∷ rest) = if k' == k then some v else lookup k rest

-- std::map::insert does nothing if the key is there.
unfoldable pub insert_base : ℕ → ℕ → List (ℕ × ℕ) → List (ℕ × ℕ)
unfolding lookup
insert_base k v m = elim (lookup k m) [ none ↦ (k, v) ∷ m | some _ ↦ m ]

unfoldable pub add_member : Buffer → ℕ → HashBases → HashBases
unfolding insert_base
add_member b member s = record {
  hash_bases = insert_base member s.hash_total s.hash_bases;
  hash_total = (s.hash_total + b.size) % 2 ^ 32;
}

-- The switch over the relation, for one data member.
unfoldable pub visit_member : Buffer → BufferRelation → ℕ → HashBases → HashBases
unfolding add_member
visit_member b BufferRelation.component member s = s
visit_member b BufferRelation.process member s = if b.is_simple then s else add_member b member s
visit_member b BufferRelation.planet member s = add_member b member s
visit_member b BufferRelation.total_relation_types member s = s

unfoldable pub visit_members : Buffer → BufferRelation → List ℕ → HashBases → HashBases
unfolding visit_member
visit_members b r [] s = s
visit_members b r (m ∷ ms) s = visit_members b r ms (visit_member b r m s)

unfoldable pub visit_buffers : BufferTypes → HashBases → HashBases
unfolding visit_members
visit_buffers [] s = s
visit_buffers ((b, r) ∷ rest) s = visit_buffers rest (visit_members b r b.data_members s)

unfoldable pub get_data_hash_bases : BufferTypes → HashBases
unfolding visit_buffers
get_data_hash_bases types = visit_buffers types (record { hash_bases = []; hash_total = 0 })

-- `none` stands for the end of the map.
unfoldable pub find_type : Buffer → BufferTypes → Option BufferRelation
find_type b [] = none
find_type b ((b', r) ∷ rest) = if b'.index == b.index then some r else find_type b rest

unfoldable pub get_buffer_relation : Buffer → BufferTypes → Result BufferRelation
unfolding find_type
get_buffer_relation b types = elim (find_type b types) [ none ↦ throws | some r ↦ ok r ]

unfoldable pub in_process : Buffer → BufferRelation → Result Bool
in_process b BufferRelation.component = ok true
in_process b BufferRelation.process = ok b.is_simple
in_process b BufferRelation.planet = ok false
in_process b BufferRelation.total_relation_types = throws

unfoldable pub is_buffer_in_process : Buffer → BufferTypes → Result Bool
unfolding find_type in_process
is_buffer_in_process b types = elim (find_type b types) [ none ↦ throws | some r ↦ in_process b r ]

unfoldable pub get_data_member_read_hash_base : ℕ → HashBases → Result ℕ
unfolding lookup
get_data_member_read_hash_base member s = elim (lookup member s.hash_bases) [
  | none ↦ throws
  | some base ↦ ok base
]

-- The conversion of an int32 to a 64-bit size_t.
unfoldable pub get_read_bit_set_size : HashBases → ℕ
get_read_bit_set_size s =
    if ltb s.hash_total (2 ^ 31) then s.hash_total else s.hash_total + (2 ^ 64 - 2 ^ 32)
