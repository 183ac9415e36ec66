-- ===== src/Amount/Exact.antt =====
-- `ParseBitcoinAmount` of src/core_rpc.cpp gives just the amount that the text writes.
use utreexo_core_rpc.Common.{
  ℕ, zero, suc, ◌+◌, ◌-◌, ◌*◌, ◌%◌, ◌^◌, ◌≤◌, ◌<◌, ◌≡◌, refl, sym, ap, ◌∙◌, subst, inl, inr, ◌⊎◌,
  arith, Bool, false, ◌&&◌, ◌||◌, not, Bool-cases, some, Option-cases, List, [], ◌∷◌, ◌++◌, ◌==◌,
  ltb, leb, length,
}
use native.Mathlib.Nat.{add-zero, mul-le-mul_left, mul-le-mul_right, pow-suc, one-le-pow}
use utreexo_core_rpc.Result.{expect-eq-ok, ok, expect, refuse-eq-ok, >>=-eq-ok, ok-injective}
use utreexo_core_rpc.Amount.{
  max_coins, max_satoshis, whole_part, fraction_part, digits_value, from_chars, fraction_value,
  scale, is_negative, is_missing, has_notation, parse_bitcoin_amount,
}

-- The number that a list of digits writes after the number `value`.
abbrev pub decimal : ℕ → List ℕ → ℕ
decimal value [] = value
decimal value (c ∷ text) = decimal (value * 10 + (c - 48)) text

abbrev pub AllDigits : List ℕ → Type 0
AllDigits [] = Unit
AllDigits (c ∷ text) = ((48 ≤ c) × (c ≤ 57)) × AllDigits text

digits_value-some :
    (text : List ℕ) (value n : ℕ)
    → digits_value text value ≡ some n
    → AllDigits text × (n ≡ decimal value text)
unfolding digits_value
digits_value-some [] value n e = (tt, cc)
digits_value-some (c ∷ text) value n e = elim (Bool-cases (leb 48 c && leb c 57)) [
  | inr n' ↦ cc (rw n' at e)
  | inl y ↦
      let (digits, same) = digits_value-some text (value * 10 + (c - 48)) n (rw y at e) in
      (((ground (arith, y), ground (arith, y)), digits), same)
]

from_chars-some :
    (text : List ℕ) (n : ℕ) → from_chars text ≡ some n → AllDigits text × (n ≡ decimal 0 text)
unfolding from_chars
from_chars-some [] n e = cc
from_chars-some (c ∷ text) n e = elim (Option-cases (digits_value (c ∷ text) 0)) [
  | inl n' ↦ cc (rw (from_chars, n') at e)
  | inr (m, y) ↦ elim (Bool-cases (ltb m (2 ^ 64))) [
    | inr n' ↦ cc (rw (from_chars, y, n') at e)
    | inl small ↦
        let same : m ≡ n = some-eq m n (rw (from_chars, y, small) at e) in
        digits_value-some (c ∷ text) 0 n (y ∙ ap (λ k. some k) same)
  ]
]
  where
    some-eq : (m n : ℕ) → some m ≡ some n → m ≡ n
    some-eq m n e = cc

scaled_ten : (v n : ℕ) → v * 10 ^ suc n ≡ v * 10 * 10 ^ n
scaled_ten v n = omega (arith, ap (λ (t : ℕ). v * t) (pow-suc 10 n))

scaled_lt : (n k v : ℕ) → v < 10 ^ k → v * 10 ^ n < 10 ^ (k + n)
scaled_lt zero k v h = omega (arith, ap (λ (i : ℕ). 10 ^ i) (add-zero k))
scaled_lt (suc n) k v h =
    let more = scaled_lt n (suc k) (v * 10) (omega (arith, pow-suc 10 k)) in
    let same : 10 ^ (suc k + n) ≡ 10 ^ (k + suc n) = ap (λ (i : ℕ). 10 ^ i) (omega arith) in
    omega (arith, scaled_ten v n)

decimal-bound :
    (text : List ℕ) (value : ℕ)
    → AllDigits text
    → decimal value text + 1 ≤ (value + 1) * 10 ^ length text
decimal-bound [] value h = omega arith
decimal-bound (c ∷ text) value h =
    let rest = decimal-bound text (value * 10 + (c - 48)) h.1 in
    let digit : c - 48 ≤ 9 = omega (arith, h.0.1) in
    let wider : (value * 10 + (c - 48) + 1) * 10 ^ length text
        ≤ (value + 1) * 10 * 10 ^ length text =
      mul-le-mul_right (10 ^ length text) (omega arith) in
    let e = scaled_ten (value + 1) (length text) in omega arith

scale-eq : (n v : ℕ) → v * 10 ^ n < 2 ^ 64 → scale n v ≡ v * 10 ^ n
unfolding scale
scale-eq zero v h = omega arith
scale-eq (suc n) v h =
    let e = scaled_ten v n in
    let small : v * 10 < 2 ^ 64 =
      let grown : v * 10 * 1 ≤ v * 10 * 10 ^ n =
        mul-le-mul_left (v * 10) (one-le-pow n 10 (omega arith)) in
      omega arith in
    let same : v * 10 % 2 ^ 64 ≡ v * 10 = omega arith in
    rw same (scale-eq n (v * 10) (omega arith) ∙ sym e)

-- What the text of an amount says: digits, and at most eight of them behind a point.
pub record IsAmount (text : List ℕ) (satoshis : ℕ) : Type 0 where
  pub written :
      (text ≡ whole_part text ++ 46 ∷ fraction_part text)
      ⊎ ((text ≡ whole_part text) × (fraction_part text ≡ []))
  pub whole_digits : AllDigits (whole_part text)
  pub fraction_digits : AllDigits (fraction_part text)
  pub short : length (fraction_part text) ≤ 8
  pub value :
      satoshis
      ≡ decimal 0 (whole_part text) * 100000000
        + decimal 0 (fraction_part text) * 10 ^ (8 - length (fraction_part text))
  pub bounded : satoshis ≤ max_satoshis

parts-text :
    (text : List ℕ)
    → (text ≡ whole_part text ++ 46 ∷ fraction_part text)
      ⊎ ((text ≡ whole_part text) × (fraction_part text ≡ []))
unfolding whole_part fraction_part
parts-text [] = inr (refl, refl)
parts-text (c ∷ text) = elim (Bool-cases (c == 46)) [
  | inl y ↦ let point : c ≡ 46 = ground (arith, y) in rw y (inl (ap (λ k. k ∷ text) point))
  | inr n ↦ rw n (more (parts-text text))
]
  where
    more :
        (text ≡ whole_part text ++ 46 ∷ fraction_part text)
          ⊎ ((text ≡ whole_part text) × (fraction_part text ≡ []))
        → (c ∷ text ≡ c ∷ whole_part text ++ 46 ∷ fraction_part text)
          ⊎ ((c ∷ text ≡ c ∷ whole_part text) × (fraction_part text ≡ []))
    more (inl e) = inl (ap (λ t. c ∷ t) e)
    more (inr (e, f)) = inr (ap (λ t. c ∷ t) e, f)

fraction_value-ok :
    (text : List ℕ) (n : ℕ) → fraction_value text ≡ ok n → AllDigits text × (n ≡ decimal 0 text)
unfolding fraction_value
fraction_value-ok [] n e = (tt, sym (ok-injective e))
fraction_value-ok (c ∷ text) n e = from_chars-some (c ∷ text) n (expect-eq-ok _ _ n e)

total-bound :
    (coins fractional len : ℕ)
    → coins ≤ max_coins
    → len ≤ 8
    → fractional < 10 ^ len
    → (coins * 100000000 + scale (8 - len) fractional) % 2 ^ 64
      ≡ coins * 100000000 + fractional * 10 ^ (8 - len)
total-bound coins fractional len few short h =
    let scaled = scaled_lt (8 - len) len fractional h in
    let whole : len + (8 - len) ≡ 8 = omega arith in
    let eight : 10 ^ (len + (8 - len)) ≡ 100000000 = ap (λ (i : ℕ). 10 ^ i) whole in
    let small : fractional * 10 ^ (8 - len) < 100000000 = omega arith in
    rw (scale-eq (8 - len) fractional (omega arith)) (omega arith)

-- If `ParseBitcoinAmount` accepts a text, then the text is digits, with a point and at most eight
-- digits more or without; the result is exactly the satoshis that it writes, with no overflow, and no
-- more than 21 million coins.
pub parse_bitcoin_amount-IsAmount :
    (is_num : Bool) (text : List ℕ) (satoshis : ℕ)
    → parse_bitcoin_amount is_num text ≡ ok satoshis
    → IsAmount text satoshis
unfolding parse_bitcoin_amount
parse_bitcoin_amount-IsAmount is_num text satoshis e =
    let (_, e₁) = refuse-eq-ok (not is_num) _ _ _ e in
    let (_, e₂) = refuse-eq-ok (is_negative text) _ _ _ e₁ in
    let (formed, e₃) =
      refuse-eq-ok
        (is_missing (whole_part text) || (ltb 8 (length (fraction_part text)) || has_notation text))
        _ _ _ e₂ in
    let (coins, read, e₄) =
      >>=-eq-ok (expect "Bitcoin amount is out of range" (from_chars (whole_part text))) _ _ e₃ in
    let (whole_digits, coins_are) =
      from_chars-some (whole_part text) coins (expect-eq-ok _ _ coins read) in
    let (few, e₅) = refuse-eq-ok (ltb max_coins coins) _ _ _ e₄ in
    let (fractional, read', e₆) = >>=-eq-ok (fraction_value (fraction_part text)) _ _ e₅ in
    let (fraction_digits, fractional_is) =
      fraction_value-ok (fraction_part text) fractional read' in
    let (bounded, e₇) =
      refuse-eq-ok
        (ltb max_satoshis
          ((coins * 100000000 + scale (8 - length (fraction_part text)) fractional) % 2 ^ 64))
        _ _ _ e₆ in
    let short : length (fraction_part text) ≤ 8 =
      short_fraction (is_missing (whole_part text)) (has_notation text) _ formed in
    let small : fractional < 10 ^ length (fraction_part text) =
      omega (arith, decimal-bound (fraction_part text) 0 fraction_digits) in
    let total =
      total-bound coins fractional (length (fraction_part text)) (ground arith) short small in
    let result = ok-injective e₇ in
    let limit : (coins * 100000000 + scale (8 - length (fraction_part text)) fractional) % 2 ^ 64
        ≤ max_satoshis =
      below _ bounded in
    record {
      written = parts-text text;
      whole_digits = whole_digits;
      fraction_digits = fraction_digits;
      short = short;
      value =
          sym result
          ∙ total
          ∙ ap (λ k. k * 100000000 + fractional * 10 ^ (8 - length (fraction_part text))) coins_are
          ∙ ap
              (λ k.
                decimal 0 (whole_part text) * 100000000
                + k * 10 ^ (8 - length (fraction_part text)))
              fractional_is;
      bounded = subst (λ k. k ≤ max_satoshis) result limit;
    }
  where
    short_fraction : (a b : Bool) (n : ℕ) → (a || (ltb 8 n || b)) ≡ false → n ≤ 8
    short_fraction a b n h = ground (arith, h)

    below : (n : ℕ) → ltb max_satoshis n ≡ false → n ≤ max_satoshis
    below n h = ground (arith, h)
