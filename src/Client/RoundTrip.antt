-- ===== src/Client/RoundTrip.antt =====
-- What is decoded is what was encoded.
use megastructure.Common.{
  ℕ, zero, suc, ◌≡◌, refl, Bool, true, false, List, [], ◌∷◌, ◌++◌, ◌+◌, ◌*◌, ◌^◌, ◌≤◌, ◌<◌, ◌==◌,
  ltb, ok, arith, length, ap, ◌∙◌,
}
use Prim.Native.Nat.{◌/◌, ◌%◌}
use megastructure.Protocol.{Bytes}
use megastructure.Client.Codec.{
  Msgpack, Lawful, AllBelow, Reference, Ring, decode, encode_reference, decode_reference, to_number,
  of_number, encode_bitmask, decode_bitmask, encode_ring, decode_ring,
}

append_assoc : (xs ys zs : Bytes) → (xs ++ ys) ++ zs ≡ xs ++ (ys ++ zs)
append_assoc [] ys zs = refl
append_assoc (x ∷ xs) ys zs = ap (λ rest. x ∷ rest) (append_assoc xs ys zs)

module _ (m : Msgpack) (law : Lawful m) where
  decode-uint :
      (width n : ℕ) (rest : Bytes)
      → n < 2 ^ width
      → decode m (m.convert_uint width) (m.pack_uint width n ++ rest) ≡ ok (n, rest)
  unfolding decode
  decode-uint width n rest h = let (o, found, converts) = law.uint width n rest h in ground arith

  decode-bool :
      (b : Bool) (rest : Bytes) → decode m m.convert_bool (m.pack_bool b ++ rest) ≡ ok (b, rest)
  unfolding decode
  decode-bool b rest = let (o, found, converts) = law.bool b rest in ground arith

  decode-array :
      (xs : List ℕ) (rest : Bytes)
      → AllBelow (2 ^ 32) xs
      → decode m m.convert_array (m.pack_array xs ++ rest) ≡ ok (xs, rest)
  unfolding decode
  decode-array xs rest h = let (o, found, converts) = law.array xs rest h in ground arith

  pub decode-encode_reference :
      (r : Reference) (rest : Bytes)
      → r.instance_id < 2 ^ 32
      → r.type < 2 ^ 31
      → r.timestamp < 2 ^ 32
      → decode_reference m (encode_reference m r ++ rest) ≡ ok (r, rest)
  unfolding decode_reference encode_reference
  decode-encode_reference r rest hi ht hs =
      let last = decode-uint 32 r.timestamp rest hs in
      let middle = decode-uint 32 r.type (m.pack_uint 32 r.timestamp ++ rest) (omega arith) in
      let first =
        decode-uint 32 r.instance_id (m.pack_uint 32 r.type ++ (m.pack_uint 32 r.timestamp ++ rest))
          hi in
      let split =
        append_assoc (m.pack_uint 32 r.instance_id)
          (m.pack_uint 32 r.type ++ m.pack_uint 32 r.timestamp) rest
        ∙ ap (λ bs. m.pack_uint 32 r.instance_id ++ bs)
            (append_assoc (m.pack_uint 32 r.type) (m.pack_uint 32 r.timestamp) rest) in
      ap (decode_reference m) split ∙ ground arith

to_number-bound : (bits : List Bool) → to_number bits < 2 ^ length bits
unfolding to_number
to_number-bound [] = omega arith
to_number-bound (true ∷ bits) = let below = to_number-bound bits in grind arith
to_number-bound (false ∷ bits) = let below = to_number-bound bits in grind arith

ap2 : {b c : Bool} {xs ys : List Bool} → b ≡ c → xs ≡ ys → b ∷ xs ≡ c ∷ ys
ap2 p q = cc

odd_digits : (n : ℕ) → (((1 + 2 * n) % 2 == 1) ≡ true) × ((1 + 2 * n) / 2 ≡ n)
odd_digits n = (ground arith, omega arith)

even_digits : (n : ℕ) → (((0 + 2 * n) % 2 == 1) ≡ false) × ((0 + 2 * n) / 2 ≡ n)
even_digits n = (ground arith, omega arith)

of-to_number : (bits : List Bool) → of_number (length bits) (to_number bits) ≡ bits
unfolding to_number of_number
of-to_number [] = refl
of-to_number (true ∷ bits) =
    let (digit, half) = odd_digits (to_number bits) in
    ap2 digit (ap (of_number (length bits)) half ∙ of-to_number bits)
of-to_number (false ∷ bits) =
    let (digit, half) = even_digits (to_number bits) in
    ap2 digit (ap (of_number (length bits)) half ∙ of-to_number bits)

mod_small : (n k : ℕ) → n < k → n % k ≡ n
mod_small n k h = grind arith

ltb-true : (a b : ℕ) → a < b → ltb a b ≡ true
ltb-true a b h = ground arith

power_le : (m n : ℕ) → m ≤ n → 2 ^ m ≤ 2 ^ n
power_le zero zero h = omega arith
power_le zero (suc n) h = let below = power_le zero n (omega arith) in grind arith
power_le (suc m) zero h = absurd (omega arith)
power_le (suc m) (suc n) h = let below = power_le m n (omega arith) in grind arith

-- The bits of an allocator with as many bits as the width of its mask or fewer, which is 32 or 64: they
-- are encoded without an overflow, and decoded as they were, with the bytes that come after them left.
pub decode-encode_bitmask :
    (m : Msgpack) (law : Lawful m) (width : ℕ) (bits : List Bool) (rest : Bytes)
    → width ≤ 64
    → length bits ≤ width
    → (bytes : Bytes) × (encode_bitmask m width bits ≡ ok bytes)
      × (decode_bitmask m width (length bits) (bytes ++ rest) ≡ ok (bits, rest))
unfolding encode_bitmask decode_bitmask
decode-encode_bitmask m law width bits rest h fits =
    let n = to_number bits in
    let bound = to_number-bound bits in
    let wide : 2 ^ length bits ≤ 2 ^ width = power_le (length bits) width fits in
    let short : 2 ^ width ≤ 2 ^ 64 = power_le width 64 h in
    let small : n < 2 ^ width = omega (arith, bound, wide) in
    let kept : n % 2 ^ width ≡ n = mod_small n (2 ^ width) small in
    let accepted : ltb n (2 ^ 64) ≡ true = ltb-true n (2 ^ 64) (omega (arith, small, short)) in
    let decoded = decode-uint m law width n rest small in
    (
      m.pack_uint width n,
      rw (accepted) (ap (λ k. ok (m.pack_uint width k)) kept),
      rw (decode_bitmask, decoded) (ap (λ bs. ok (bs, rest)) (of-to_number bits)),
    )

-- A ring allocator whose indices fit 64 bits and whose instances fit 32 bits is decoded as it was
-- encoded, with the bytes that come after it left.
pub decode-encode_ring :
    (m : Msgpack) (law : Lawful m) (r : Ring) (rest : Bytes)
    → r.head < 2 ^ 64
    → r.tail < 2 ^ 64
    → AllBelow (2 ^ 32) r.ring
    → decode_ring m (encode_ring m r ++ rest) ≡ ok (r, rest)
unfolding decode_ring encode_ring
decode-encode_ring m law r rest hh ht hr =
    let ring = m.pack_array r.ring in
    let full = m.pack_bool r.full in
    let tail = m.pack_uint 64 r.tail in
    let head = m.pack_uint 64 r.head in
    let split =
      append_assoc head (tail ++ (full ++ ring)) rest
      ∙ (ap (λ bs. head ++ bs) (append_assoc tail (full ++ ring) rest)
          ∙ ap (λ bs. head ++ (tail ++ bs)) (append_assoc full ring rest)) in
    let first = decode-uint m law 64 r.head (tail ++ (full ++ (ring ++ rest))) hh in
    let second = decode-uint m law 64 r.tail (full ++ (ring ++ rest)) ht in
    let third = decode-bool m law r.full (ring ++ rest) in
    let fourth = decode-array m law r.ring rest hr in
    ap (decode_ring m) split ∙ rw (decode_ring, first, second, third, fourth) refl
