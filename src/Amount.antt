-- ===== src/Amount.antt =====
-- `ParseBitcoinAmount` of src/core_rpc.cpp: an amount in coins, as the text of a JSON number, becomes a
-- number of satoshis. A text is the list of its characters.
pub mod Exact
use utreexo_core_rpc.Common.{
  ℕ, zero, suc, ◌+◌, ◌-◌, ◌*◌, ◌%◌, ◌^◌, Bool, true, false, ◌&&◌, ◌||◌, not, Option, none, some,
  List, [], ◌∷◌, if◌then◌else◌, ◌==◌, ltb, leb, length,
}
use utreexo_core_rpc.Result.{Result, ok, err, ◌>>=◌, ◌>>◌, expect, refuse}

-- `21'000'000` coins
abbrev pub max_coins : ℕ
max_coins = 21000000

abbrev pub max_satoshis : ℕ
max_satoshis = 21000000 * 100000000

-- The text before the first point, and that behind it.
unfoldable pub whole_part : List ℕ → List ℕ
whole_part [] = []
whole_part (c ∷ text) = let later = whole_part text in if c == 46 then [] else c ∷ later

unfoldable pub fraction_part : List ℕ → List ℕ
fraction_part [] = []
fraction_part (c ∷ text) = let later = fraction_part text in if c == 46 then text else later

-- `find_first_of("eE+")`
unfoldable pub has_notation : List ℕ → Bool
has_notation [] = false
has_notation (c ∷ text) = (c == 101) || ((c == 69) || ((c == 43) || has_notation text))

-- `std::from_chars` for a 64-bit number, where all of the text must be read: a digit at least,
-- nothing but digits, and no overflow.
unfoldable pub digits_value : List ℕ → ℕ → Option ℕ
digits_value [] value = some value
digits_value (c ∷ text) value =
    let later = digits_value text (value * 10 + (c - 48)) in
    if leb 48 c && leb c 57 then later else none

unfoldable pub from_chars : List ℕ → Option ℕ
from_chars [] = none
from_chars (c ∷ text) = elim (digits_value (c ∷ text) 0) [
  | none ↦ none
  | some value ↦ if ltb value (2 ^ 64) then some value else none
]

unfoldable pub fraction_value : List ℕ → Result ℕ
fraction_value [] = ok 0
fraction_value (c ∷ text) =
    expect "Bitcoin amount has invalid fractional digits" (from_chars (c ∷ text))

-- The loop that scales the fraction, with `n` rounds.
unfoldable pub scale : ℕ → ℕ → ℕ
scale zero fractional = fractional
scale (suc n) fractional = scale n (fractional * 10 % 2 ^ 64)

abbrev pub is_negative : List ℕ → Bool
is_negative [] = true
is_negative (c ∷ text) = c == 45

abbrev pub is_missing : List ℕ → Bool
is_missing [] = true
is_missing (c ∷ text) = false

-- `isNum` and `getValStr` are the JSON library's.
unfoldable pub parse_bitcoin_amount : Bool → List ℕ → Result ℕ
parse_bitcoin_amount is_num text = do
  refuse (not is_num) "Bitcoin amount must be a JSON number"
  refuse (is_negative text) "Bitcoin amount must be non-negative"
  let whole = whole_part text
  let fraction = fraction_part text
  refuse (is_missing whole || (ltb 8 (length fraction) || has_notation text))
      "Bitcoin amount has invalid precision or notation"
  coins ← expect "Bitcoin amount is out of range" (from_chars whole)
  refuse (ltb max_coins coins) "Bitcoin amount is out of range"
  fractional ← fraction_value fraction
  let satoshis = (coins * 100000000 + scale (8 - length fraction) fractional) % 2 ^ 64
  refuse (ltb max_satoshis satoshis) "Bitcoin amount is out of range"
  ok satoshis
