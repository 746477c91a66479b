-- ===== src/Client/Codec.antt =====
-- encode and decode of api/egcomponent/traits.hpp: the values that programs send each other. The packer
-- and the unpacker are those of the msgpack library, a parameter.
use megastructure.Common.{
  ℕ, zero, suc, ◌≡◌, Bool, List, [], ◌∷◌, ◌++◌, Option, none, some, ◌+◌, ◌*◌, ◌^◌, ◌<◌, ◌==◌, ltb,
  if◌then◌else◌, Result, ok, throws,
}
use Prim.Native.Nat.{◌/◌, ◌%◌}
use megastructure.Protocol.{Bytes}

-- What a packer appends for an unsigned number of a width, a Boolean or an array of 32-bit numbers, the
-- next object of an unpacker with the bytes after it, if there is one, and its conversions.
pub record Msgpack : Type 1 where
  pub Object : Type 0
  pub pack_uint : ℕ → ℕ → Bytes
  pub pack_bool : Bool → Bytes
  pub pack_array : List ℕ → Bytes
  pub next : Bytes → Option (Object × Bytes)
  pub convert_uint : ℕ → Object → Result ℕ
  pub convert_bool : Object → Result Bool
  pub convert_array : Object → Result (List ℕ)

abbrev pub AllBelow : ℕ → List ℕ → Type 0
AllBelow bound [] = Unit {0}
AllBelow bound (n ∷ rest) = (n < bound) × AllBelow bound rest

-- What the library documents: an object that was packed is the next one, and converts back.
pub record Lawful (m : Msgpack) : Type 0 where
  pub uint :
      (width n : ℕ) (rest : Bytes)
      → n < 2 ^ width
      → (o : m.Object) × (m.next (m.pack_uint width n ++ rest) ≡ some (o, rest))
        × (m.convert_uint width o ≡ ok n)
  pub bool :
      (b : Bool) (rest : Bytes)
      → (o : m.Object) × (m.next (m.pack_bool b ++ rest) ≡ some (o, rest))
        × (m.convert_bool o ≡ ok b)
  pub array :
      (xs : List ℕ) (rest : Bytes)
      → AllBelow (2 ^ 32) xs
      → (o : m.Object) × (m.next (m.pack_array xs ++ rest) ≡ some (o, rest))
        × (m.convert_array o ≡ ok xs)

-- A reference of eg; its type is an int32 that is never negative.
pub record Reference : Type 0 where
  pub instance_id : ℕ
  pub type : ℕ
  pub timestamp : ℕ

-- A ring allocator: the indices of its head and its tail, whether it is full, and its instances.
pub record Ring : Type 0 where
  pub head : ℕ
  pub tail : ℕ
  pub full : Bool
  pub ring : List ℕ

-- std::bitset::to_ulong of the bits, lowest first, without its overflow.
unfoldable pub to_number : List Bool → ℕ
to_number [] = 0
to_number (b ∷ bits) = (if b then 1 else 0) + 2 * to_number bits

-- The constructor of a std::bitset of a size from a number.
unfoldable pub of_number : ℕ → ℕ → List Bool
of_number zero n = []
of_number (suc size) n = (n % 2 == 1) ∷ of_number size (n / 2)

module _ (m : Msgpack) where
  -- decode, with the conversion to the type of the value.
  unfoldable pub decode : {A : Type 0} → (m.Object → Result A) → Bytes → Result (A × Bytes)
  decode convert bytes = elim (m.next bytes) [
    | none ↦ throws
    | some (o, rest) ↦ elim (convert o) [ throws ↦ throws | ok a ↦ ok (a, rest) ]
  ]

  -- The cast of an eg::ActionState to a std::uint8_t.
  unfoldable pub encode_action_state : ℕ → Bytes
  encode_action_state value = m.pack_uint 8 (value % 2 ^ 8)

  unfoldable pub decode_action_state : Bytes → Result (ℕ × Bytes)
  unfolding decode
  decode_action_state bytes = decode (m.convert_uint 8) bytes

  unfoldable pub encode_reference : Reference → Bytes
  encode_reference r =
      m.pack_uint 32 r.instance_id ++ (m.pack_uint 32 r.type ++ m.pack_uint 32 r.timestamp)

  unfoldable pub decode_reference : Bytes → Result (Reference × Bytes)
  unfolding decode
  decode_reference bytes = elim (decode (m.convert_uint 32) bytes) [
    | throws ↦ throws
    | ok (instance_id, bytes') ↦ elim (decode (m.convert_uint 32) bytes') [
      | throws ↦ throws
      | ok (type, bytes'') ↦ elim (decode (m.convert_uint 32) bytes'') [
        | throws ↦ throws
        | ok (timestamp, rest) ↦
            ok (record { instance_id = instance_id; type = type; timestamp = timestamp }, rest)
      ]
    ]
  ]

  -- DimensionTraits of Bitmask32Allocator and of Bitmask64Allocator, for the width of the two. A
  -- number that does not fit the unsigned long of 64 bits throws.
  unfoldable pub encode_bitmask : ℕ → List Bool → Result Bytes
  unfolding to_number
  encode_bitmask width bits =
      let n = to_number bits in
      if ltb n (2 ^ 64) then ok (m.pack_uint width (n % 2 ^ width)) else throws

  unfoldable pub decode_bitmask : ℕ → ℕ → Bytes → Result (List Bool × Bytes)
  unfolding decode of_number
  decode_bitmask width size bytes = elim (decode (m.convert_uint width) bytes) [
    | throws ↦ throws
    | ok (n, rest) ↦ ok (of_number size n, rest)
  ]

  -- DimensionTraits of RingAllocator.
  unfoldable pub encode_ring : Ring → Bytes
  encode_ring r =
      m.pack_uint 64 r.head
      ++ (m.pack_uint 64 r.tail ++ (m.pack_bool r.full ++ m.pack_array r.ring))

  unfoldable pub decode_ring : Bytes → Result (Ring × Bytes)
  unfolding decode
  decode_ring bytes = elim (decode (m.convert_uint 64) bytes) [
    | throws ↦ throws
    | ok (head, bytes') ↦ elim (decode (m.convert_uint 64) bytes') [
      | throws ↦ throws
      | ok (tail, bytes'') ↦ elim (decode m.convert_bool bytes'') [
        | throws ↦ throws
        | ok (full, bytes''') ↦ elim (decode m.convert_array bytes''') [
          | throws ↦ throws
          | ok (ring, rest) ↦
              ok (record { head = head; tail = tail; full = full; ring = ring }, rest)
        ]
      ]
    ]
  ]
