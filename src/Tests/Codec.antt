-- ===== src/Tests/Codec.antt =====
-- A packer that writes one number, or a length and as many numbers, for each object.
use megastructure.Common.{
  ℕ, zero, suc, ◌≡◌, refl, Bool, true, false, List, [], ◌∷◌, ◌++◌, Option, none, some, ◌≤◌, arith,
  Result, ok, throws, length, if◌then◌else◌, ◌==◌,
}
use megastructure.Protocol.{Bytes}
use megastructure.Client.Codec.{Msgpack, Lawful, encode_bitmask, decode_bitmask}
use megastructure.Client.RoundTrip.{decode-encode_bitmask}

-- The numbers of an object, with their count before them.
abbrev counted : List ℕ → Bytes
counted xs = length xs ∷ xs

abbrev take_numbers : ℕ → Bytes → Option (List ℕ × Bytes)
take_numbers zero bytes = some ([], bytes)
take_numbers (suc n) [] = none
take_numbers (suc n) (b ∷ bytes) = elim (take_numbers n bytes) [
  | none ↦ none
  | some (xs, rest) ↦ some (b ∷ xs, rest)
]

abbrev next_object : Bytes → Option (List ℕ × Bytes)
next_object [] = none
next_object (n ∷ bytes) = take_numbers n bytes

abbrev one_number : ℕ → List ℕ → Result ℕ
one_number width (n ∷ []) = ok n
one_number width _ = throws

abbrev one_bool : List ℕ → Result Bool
one_bool (n ∷ []) = ok (n == 1)
one_bool _ = throws

abbrev plain : Msgpack
plain = record {
  Object = List ℕ;
  pack_uint = λ width n. 1 ∷ n ∷ [];
  pack_bool = λ b. 1 ∷ (if b then 1 else 0) ∷ [];
  pack_array = counted;
  next = next_object;
  convert_uint = one_number;
  convert_bool = one_bool;
  convert_array = λ xs. ok xs;
}

take_counted : (xs rest : Bytes) → take_numbers (length xs) (xs ++ rest) ≡ some (xs, rest)
take_counted [] rest = refl
take_counted (x ∷ xs) rest = let later = take_counted xs rest in rw (take_numbers, later) refl

bool_packed :
    (b : Bool) (rest : Bytes)
    → (o : List ℕ) × (next_object ((1 ∷ (if b then 1 else 0) ∷ []) ++ rest) ≡ some (o, rest))
      × (one_bool o ≡ ok b)
bool_packed true rest = (1 ∷ [], refl, refl)
bool_packed false rest = (0 ∷ [], refl, refl)

plain-Lawful : Lawful plain
plain-Lawful = record {
  uint = λ width n rest h. (n ∷ [], refl, refl);
  bool = bool_packed;
  array = λ xs rest h. (xs, take_counted xs rest, refl);
}

abbrev bits : List Bool
bits = true ∷ false ∷ true ∷ []

mask_fits : length bits ≤ 32
mask_fits = omega arith

narrow : ◌≤◌ 32 64
narrow = omega arith

decode-encode_bitmask_example :
    (bytes : Bytes) × (encode_bitmask plain 32 bits ≡ ok bytes)
    × (decode_bitmask plain 32 3 (bytes ++ (9 ∷ [])) ≡ ok (bits, 9 ∷ []))
decode-encode_bitmask_example =
    decode-encode_bitmask plain plain-Lawful 32 bits (9 ∷ []) narrow mask_fits
