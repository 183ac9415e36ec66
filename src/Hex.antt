-- ===== src/Hex.antt =====
-- Hexadecimal text: the members of `Hash256` in src/hash.cpp, and `DecodeHex` of
-- src/transaction_relay.cpp, whose lambda `nibble` is the same as `HexDigit`. A text is the list of its characters, a
-- digit -1 is `none`.
pub mod Digits
pub mod RoundTrip
use utreexo_core_rpc.Common.{
  ℕ, ◌+◌, ◌-◌, ◌*◌, ◌/◌, ◌%◌, bit_and, bit_or, Bool, true, false, ◌&&◌, ◌||◌, not, Option, none,
  some, List, [], ◌∷◌, if◌then◌else◌, ◌==◌, ltb, leb, length, get_or,
}
use mathlib.Core.List.{reverse}
use utreexo_core_rpc.Result.{Result, ok, err, ◌>>=◌, ◌>>◌, expect, refuse}
use utreexo_core_rpc.Wire.Bytes.{Bytes}

abbrev pub hexmap : List ℕ
hexmap = 48 ∷ 49 ∷ 50 ∷ 51 ∷ 52 ∷ 53 ∷ 54 ∷ 55 ∷ 56 ∷ 57 ∷ 97 ∷ 98 ∷ 99 ∷ 100 ∷ 101 ∷ 102 ∷ []

unfoldable pub hex_digit : ℕ → Option ℕ
hex_digit c =
    if leb 48 c && leb c 57
    then some (c - 48)
    else if leb 97 c && leb c 102
    then some (c - 97 + 10)
    else if leb 65 c && leb c 70
    then some (c - 65 + 10)
    else none

-- The loop of `FromHex`.
unfoldable pub hex_pairs : List ℕ → Result Bytes
hex_pairs (h ∷ l ∷ hex) = do
  high ← expect "hash contains a non-hex character" (hex_digit h)
  low ← expect "hash contains a non-hex character" (hex_digit l)
  bytes ← hex_pairs hex
  ok (bit_or (high * 16) low % 256 ∷ bytes)
hex_pairs _ = ok []

unfoldable pub from_hex : List ℕ → Result Bytes
from_hex hex = do
  refuse (not (length hex == 64)) "hash must contain exactly 64 hex digits"
  hex_pairs hex

unfoldable pub from_bitcoin_hex : List ℕ → Result Bytes
from_bitcoin_hex hex = do bytes ← from_hex hex; ok (reverse bytes)

unfoldable pub to_hex : Bytes → List ℕ
to_hex [] = []
to_hex (value ∷ bytes) =
    get_or hexmap (value / 16) 0 ∷ get_or hexmap (bit_and value 15) 0 ∷ to_hex bytes

unfoldable pub to_bitcoin_hex : Bytes → List ℕ
to_bitcoin_hex bytes = to_hex (reverse bytes)

abbrev pub is_hex : List ℕ → Bool
is_hex [] = true
is_hex (c ∷ hex) = elim (hex_digit c) [ none ↦ false | some d ↦ is_hex hex ]

-- The digit as a byte; that of -1 is 255.
abbrev pub nibble : ℕ → ℕ
nibble c = elim (hex_digit c) [ none ↦ 255 | some d ↦ d ]

unfoldable pub decode_pairs : List ℕ → Bytes
decode_pairs (h ∷ l ∷ hex) = bit_or (nibble h * 16) (nibble l) % 256 ∷ decode_pairs hex
decode_pairs _ = []

unfoldable pub decode_hex : List ℕ → ℕ → Result Bytes
decode_hex hex limit = do
  refuse (not (length hex % 2 == 0) || ltb limit (length hex / 2))
      "hex data exceeds transaction metadata bounds"
  refuse (not (is_hex hex)) "invalid transaction metadata hex"
  ok (decode_pairs hex)
