-- ===== src/Hex/Digits.antt =====
-- The digits of src/hash.cpp: each is read back from its character.
use utreexo_core_rpc.Common.{
  and-eq-true, ==_iff, ℕ, zero, suc, ◌+◌, ◌*◌, ◌/◌, ◌%◌, ◌<◌, ◌≡◌, refl, ap, ◌∙◌, inl, inr, arith,
  bit_and, bit_or, Bool, true, ◌&&◌, Bool-cases, some, get_or, leb, ltb, ◌==◌, if◌then◌else◌,
}
use utreexo_core_rpc.Common.Bits.{bit_and-mask}
use utreexo_core_rpc.Hex.{hexmap, hex_digit}

-- A capital digit as a small one.
abbrev pub lower : ℕ → ℕ
lower c = if leb 65 c && leb c 70 then c + 32 else c

-- Whether a test holds of every number below `n`.
abbrev all_below : ℕ → (ℕ → Bool) → Bool
all_below zero test = true
all_below (suc n) test = test n && all_below n test

all_below-at : (n : ℕ) (test : ℕ → Bool) (k : ℕ) → all_below n test ≡ true → k < n → test k ≡ true
all_below-at zero test k e h = absurd (omega arith)
all_below-at (suc n) test k e h =
    let (first, rest) = and-eq-true (test n) (all_below n test) e in
    elim (Bool-cases (k == n)) [
      | inl y ↦ let same : k ≡ n = ground arith in ap test same ∙ first
      | inr d ↦ all_below-at n test k rest (ground arith)
    ]

hexmap_at : (d : ℕ) → d < 16 → get_or hexmap d 0 ≡ (if ltb d 10 then 48 + d else 87 + d)
hexmap_at d h =
    let e : (get_or hexmap d 0 == (if ltb d 10 then 48 + d else 87 + d)) ≡ true =
      all_below-at 16 (λ k. get_or hexmap k 0 == (if ltb k 10 then 48 + k else 87 + k)) d refl h in
    (==_iff (get_or hexmap d 0) (if ltb d 10 then 48 + d else 87 + d)).0 e

pub hex_digit-hexmap : (d : ℕ) → d < 16 → hex_digit (get_or hexmap d 0) ≡ some d
unfolding hex_digit
hex_digit-hexmap d h = rw (hexmap_at d h) (ground arith)

pub hex_digit-some : (c d : ℕ) → hex_digit c ≡ some d → (d < 16) × (get_or hexmap d 0 ≡ lower c)
unfolding hex_digit
hex_digit-some c d h = let (small, c_is) = bounds in (small, hexmap_at d small ∙ c_is)
  where
    bounds : (d < 16) × ((if ltb d 10 then 48 + d else 87 + d) ≡ lower c)
    bounds = (ground (arith, h), ground (arith, h))

pub digits-byte : (b : ℕ) → b < 256 → bit_or (b / 16 * 16) (bit_and b 15) % 256 ≡ b
digits-byte b h =
    (==_iff (bit_or (b / 16 * 16) (bit_and b 15) % 256) b).0
      (all_below-at 256 (λ k. bit_or (k / 16 * 16) (bit_and k 15) % 256 == k) b refl h)

abbrev is_pair : ℕ → ℕ → Bool
is_pair h l = let b = bit_or (h * 16) l % 256 in ltb b 256 && ((b / 16 == h) && (bit_and b 15 == l))

pub byte-digits :
    (h l : ℕ)
    → h < 16
    → l < 16
    → let b = bit_or (h * 16) l % 256 in (b < 256) × (b / 16 ≡ h) × (bit_and b 15 ≡ l)
byte-digits h l h_small l_small =
    let row : all_below 16 (λ k. is_pair h k) ≡ true =
      all_below-at 16 (λ j. all_below 16 (λ k. is_pair j k)) h refl h_small in
    let pair : is_pair h l ≡ true = all_below-at 16 (λ k. is_pair h k) l row l_small in
    read (bit_or (h * 16) l % 256) (bit_or (h * 16) l % 256 / 16)
      (bit_and (bit_or (h * 16) l % 256) 15) pair
  where
    read :
        (b q r : ℕ) → (ltb b 256 && ((q == h) && (r == l))) ≡ true → (b < 256) × (q ≡ h) × (r ≡ l)
    read b q r e = (ground (arith, e), ground (arith, e), ground (arith, e))

pub bit_and-digit : (b : ℕ) → bit_and b 15 < 16
bit_and-digit b = omega (arith, bit_and-mask 4 b)
