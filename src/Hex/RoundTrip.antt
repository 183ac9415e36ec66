-- ===== src/Hex/RoundTrip.antt =====
-- Hexadecimal text and bytes, in both directions.
use utreexo_core_rpc.Common.{
  not-eq-false, ℕ, ◌*◌, ◌/◌, ◌%◌, ◌≤◌, ◌≡◌, refl, subst, inl, inr, arith, bit_and, true, ◌||◌, not,
  some, Option-cases, List, [], ◌∷◌, ◌++◌, map, length, ltb, ◌==◌, ==_iff, length-append,
}
use mathlib.Core.List.{reverse, reverse-reverse, reverse-cons}
use utreexo_core_rpc.Result.{ok, refuse-eq-ok, ok-injective}
use utreexo_core_rpc.Wire.Bytes.{Bytes, AllBytes}
use utreexo_core_rpc.Hex.{
  hex_digit, hex_pairs, from_hex, from_bitcoin_hex, to_hex, to_bitcoin_hex, is_hex, nibble,
  decode_pairs, decode_hex,
}
use utreexo_core_rpc.Hex.Digits.{
  lower, hex_digit-hexmap, hex_digit-some, digits-byte, byte-digits, bit_and-digit,
}

length-to_hex : (bytes : Bytes) → length (to_hex bytes) ≡ 2 * length bytes
unfolding to_hex
length-to_hex [] = omega arith
length-to_hex (b ∷ bytes) = omega (arith, length-to_hex bytes)

hex_pairs-to_hex : (bytes : Bytes) → AllBytes bytes → hex_pairs (to_hex bytes) ≡ ok bytes
unfolding hex_pairs to_hex
hex_pairs-to_hex [] h = refl
hex_pairs-to_hex (b ∷ bytes) (small, rest) = rw (
  hex_pairs,
  hex_digit-hexmap (b / 16) (omega arith),
  hex_digit-hexmap (bit_and b 15) (bit_and-digit b),
  hex_pairs-to_hex bytes rest,
  digits-byte b small,
)

append-AllBytes : (xs ys : Bytes) → AllBytes xs → AllBytes ys → AllBytes (xs ++ ys)
append-AllBytes [] ys hx hy = hy
append-AllBytes (x ∷ xs) ys hx hy = (hx.0, append-AllBytes xs ys hx.1 hy)

reverse-AllBytes : (xs : Bytes) → AllBytes xs → AllBytes (reverse xs)
reverse-AllBytes [] h = h
reverse-AllBytes (x ∷ xs) h =
    rw (reverse-cons x xs)
      (append-AllBytes (reverse xs) (x ∷ []) (reverse-AllBytes xs h.1) (h.0, tt))

length-reverse : (xs : Bytes) → length (reverse xs) ≡ length xs
length-reverse [] = refl
length-reverse (x ∷ xs) =
    rw (reverse-cons x xs) (omega (arith, length-append (reverse xs) (x ∷ []), length-reverse xs))

-- `FromBitcoinHex` reads back the hash that `ToBitcoinHex` writes.
pub from_bitcoin_hex-to_bitcoin_hex :
    (hash : Bytes)
    → length hash ≡ 32
    → AllBytes hash
    → from_bitcoin_hex (to_bitcoin_hex hash) ≡ ok hash
unfolding from_bitcoin_hex from_hex to_bitcoin_hex
from_bitcoin_hex-to_bitcoin_hex hash size h =
    let sized : (length (to_hex (reverse hash)) == 64) ≡ true =
      (==_iff (length (to_hex (reverse hash))) 64).1
        (omega (arith, length-to_hex (reverse hash), length-reverse hash)) in
    rw (
      from_bitcoin_hex,
      from_hex,
      sized,
      hex_pairs-to_hex (reverse hash) (reverse-AllBytes hash h),
      reverse-reverse hash,
    )

nibble-some : (c d : ℕ) → hex_digit c ≡ some d → nibble c ≡ d
nibble-some c d h = rw (nibble, h)

is_hex-cons :
    (c : ℕ) (hex : List ℕ)
    → is_hex (c ∷ hex) ≡ true
    → (d : ℕ) × (hex_digit c ≡ some d) × (is_hex hex ≡ true)
is_hex-cons c hex h = elim (Option-cases (hex_digit c)) [
  | inl n ↦ cc (rw (is_hex, n) at h)
  | inr (d, e) ↦ (d, e, rw (is_hex, e) at h)
]

-- What the loops of `DecodeHex` make of the text, where its length is even.
pub record IsDecoded (hex : List ℕ) (bytes : Bytes) : Type 0 where
  pub digits : to_hex bytes ≡ map lower hex
  pub small : AllBytes bytes

decode_pairs-IsDecoded :
    (hex : List ℕ) → length hex % 2 ≡ 0 → is_hex hex ≡ true → IsDecoded hex (decode_pairs hex)
unfolding decode_pairs to_hex
decode_pairs-IsDecoded [] even h = record { digits = refl; small = tt }
decode_pairs-IsDecoded (x ∷ []) even h = absurd (omega arith)
decode_pairs-IsDecoded (x ∷ y ∷ hex) even h =
    let (high, e, h') = is_hex-cons x (y ∷ hex) h in
    let (low, f, h'') = is_hex-cons y hex h' in
    let (high_small, high_char) = hex_digit-some x high e in
    let (low_small, low_char) = hex_digit-some y low f in
    let (small, q, r) = byte-digits high low high_small low_small in
    let rest = decode_pairs-IsDecoded hex (omega arith) h'' in
    rw (nibble-some x high e, nibble-some y low f)
      (record { digits = rw (q, r, high_char, low_char, rest.digits); small = (small, rest.small) })

length-decode_pairs :
    (hex : List ℕ) → length hex % 2 ≡ 0 → length hex ≡ 2 * length (decode_pairs hex)
unfolding decode_pairs
length-decode_pairs [] h = omega arith
length-decode_pairs (x ∷ []) h = absurd (omega arith)
length-decode_pairs (x ∷ y ∷ hex) h = omega (arith, length-decode_pairs hex (omega arith))

-- If `DecodeHex` accepts a text, then the bytes written in hexadecimal give the text again, but for
-- capital digits, and they are as many as half its characters and no more than the limit.
pub decode_hex-IsDecoded :
    (hex : List ℕ) (limit : ℕ) (bytes : Bytes)
    → decode_hex hex limit ≡ ok bytes
    → IsDecoded hex bytes × (length hex ≡ 2 * length bytes) × (length bytes ≤ limit)
unfolding decode_hex
decode_hex-IsDecoded hex limit bytes e =
    let (bounded, e') =
      refuse-eq-ok (not (length hex % 2 == 0) || ltb limit (length hex / 2)) _ _ _ e in
    let (valid, e'') = refuse-eq-ok (not (is_hex hex)) _ _ _ e' in
    let even : length hex % 2 ≡ 0 = ground (arith, bounded) in
    let fits : length hex / 2 ≤ limit = ground (arith, bounded) in
    let decoded = decode_pairs-IsDecoded hex even (not-eq-false (is_hex hex) valid) in
    let size : length hex ≡ 2 * length (decode_pairs hex) = length-decode_pairs hex even in
    subst (λ bs. IsDecoded hex bs × (length hex ≡ 2 * length bs) × (length bs ≤ limit))
      (ok-injective e'') (decoded, size, omega arith)

pub length-to_bitcoin_hex : (bytes : Bytes) → length (to_bitcoin_hex bytes) ≡ 2 * length bytes
unfolding to_bitcoin_hex
length-to_bitcoin_hex bytes = omega (arith, length-to_hex (reverse bytes), length-reverse bytes)
