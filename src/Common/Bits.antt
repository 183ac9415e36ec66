-- ===== src/Common/Bits.antt =====
-- `&`, `|` and `^` of machine words as arithmetic, at every width.
use Prim.Native.Nat.{
  ℕ, zero, suc, ◌+◌, ◌-◌, ◌*◌, ◌/◌, ◌%◌, ◌^◌, ◌≤◌, ◌<◌, min, max, bit_and, bit_or, bit_xor, digits,
  differ, bit_and-bitwise, bit_or-bitwise, bit_xor-bitwise,
}
use mathlib.Core.Path.{◌≡◌, refl, ap}
use native.Mathlib.Omega.{arith}
use native.Mathlib.Nat.{pow-suc, one-le-pow, le_refl, div-add-mod', mod-lt}

-- The native operations recur with a count of digits to go; any two counts that suffice agree.
counts_agree :
    (blank : ℕ → ℕ) (joined : ℕ → ℕ → ℕ) (n m a b : ℕ)
    → a ≤ n
    → a ≤ m
    → digits blank joined n a b ≡ digits blank joined m a b
counts_agree blank joined (suc n) (suc m) (suc a) b h k =
    ap (λ (t : ℕ). t * 2 + joined (suc a % 2) (b % 2))
      (counts_agree blank joined n m (suc a / 2) (b / 2) (omega arith) (omega arith))
counts_agree blank joined (suc n) (suc m) zero b h k = refl
counts_agree blank joined (suc n) zero zero b h k = refl
counts_agree blank joined (suc n) zero (suc a) b h k = elim k [ ]
counts_agree blank joined zero (suc m) zero b h k = refl
counts_agree blank joined zero zero zero b h k = refl
counts_agree blank joined zero m (suc a) b h k = elim h [ ]

pub bit_and_step : (a b : ℕ) → bit_and a b ≡ bit_and (a / 2) (b / 2) * 2 + min (a % 2) (b % 2)
bit_and_step zero b = omega (arith, bit_and-bitwise 0 b, bit_and-bitwise 0 (b / 2))
bit_and_step (suc a) b = omega (
  arith,
  bit_and-bitwise (suc a) b,
  bit_and-bitwise (suc a / 2) (b / 2),
  counts_agree (λ y. 0) min a (suc a / 2) (suc a / 2) (b / 2) (omega arith) (le_refl _),
)

pub bit_or_step : (a b : ℕ) → bit_or a b ≡ bit_or (a / 2) (b / 2) * 2 + max (a % 2) (b % 2)
bit_or_step zero b = omega (arith, bit_or-bitwise 0 b, bit_or-bitwise 0 (b / 2))
bit_or_step (suc a) b = omega (
  arith,
  bit_or-bitwise (suc a) b,
  bit_or-bitwise (suc a / 2) (b / 2),
  counts_agree (λ y. y) max a (suc a / 2) (suc a / 2) (b / 2) (omega arith) (le_refl _),
)

-- On two digits, `differ` is the sum without carry.
differ-digits : (x y : ℕ) → x < 2 → y < 2 → differ x y ≡ (x + y) % 2
differ-digits zero y h k = omega arith
differ-digits (suc zero) zero h k = refl
differ-digits (suc zero) (suc zero) h k = refl
differ-digits (suc zero) (suc (suc y)) h k = absurd (omega arith)
differ-digits (suc (suc x)) y h k = absurd (omega arith)

pub bit_xor_step : (a b : ℕ) → bit_xor a b ≡ bit_xor (a / 2) (b / 2) * 2 + (a + b) % 2
bit_xor_step zero b = omega (arith, bit_xor-bitwise 0 b, bit_xor-bitwise 0 (b / 2))
bit_xor_step (suc a) b = omega (
  arith,
  differ-digits (suc a % 2) (b % 2) (omega arith) (omega arith),
  bit_xor-bitwise (suc a) b,
  bit_xor-bitwise (suc a / 2) (b / 2),
  counts_agree (λ y. y) differ a (suc a / 2) (suc a / 2) (b / 2) (omega arith) (le_refl _),
)

-- Zero on either side.
bit_and-zero_below : (n a : ℕ) → a ≤ n → bit_and a 0 ≡ 0
bit_and-zero_below n zero h = refl
bit_and-zero_below (suc n) (suc a) h =
    omega (arith, bit_and_step (suc a) 0, bit_and-zero_below n (suc a / 2) (omega arith))
bit_and-zero_below zero (suc a) h = elim h [ ]

pub bit_and-zero : (a : ℕ) → bit_and a 0 ≡ 0
bit_and-zero a = bit_and-zero_below a a (le_refl a)

pub zero-bit_and : (a : ℕ) → bit_and 0 a ≡ 0
zero-bit_and a = bit_and-bitwise 0 a

bit_or-zero_below : (n a : ℕ) → a ≤ n → bit_or a 0 ≡ a
bit_or-zero_below n zero h = refl
bit_or-zero_below (suc n) (suc a) h =
    omega (arith, bit_or_step (suc a) 0, bit_or-zero_below n (suc a / 2) (omega arith))
bit_or-zero_below zero (suc a) h = elim h [ ]

pub bit_or-zero : (a : ℕ) → bit_or a 0 ≡ a
bit_or-zero a = bit_or-zero_below a a (le_refl a)

pub zero-bit_or : (a : ℕ) → bit_or 0 a ≡ a
zero-bit_or a = bit_or-bitwise 0 a

bit_xor-zero_below : (n a : ℕ) → a ≤ n → bit_xor a 0 ≡ a
bit_xor-zero_below n zero h = refl
bit_xor-zero_below (suc n) (suc a) h =
    omega (arith, bit_xor_step (suc a) 0, bit_xor-zero_below n (suc a / 2) (omega arith))
bit_xor-zero_below zero (suc a) h = elim h [ ]

pub bit_xor-zero : (a : ℕ) → bit_xor a 0 ≡ a
bit_xor-zero a = bit_xor-zero_below a a (le_refl a)

-- `2 ^ (k + 1)` as omega reads it.
pub two_pow-suc : (k : ℕ) → 2 ^ suc k ≡ 2 * 2 ^ k
two_pow-suc k = omega (arith, pow-suc 2 k)

pub two_pow-pos : (k : ℕ) → 1 ≤ 2 ^ k
two_pow-pos k = one-le-pow k 2 (omega arith)

pub scaled-suc : (q k : ℕ) → q * 2 ^ suc k ≡ 2 * (q * 2 ^ k)
scaled-suc q k = omega (arith, ap (λ (t : ℕ). q * t) (pow-suc 2 k))

-- A number of `k` low bits below a number of high bits.
pub bit_and_low : (k q r : ℕ) → r < 2 ^ k → bit_and (q * 2 ^ k + r) (2 ^ k - 1) ≡ r
bit_and_low zero q r h = omega (arith, bit_and-zero (q * 1 + r))
bit_and_low (suc k) q r h = ground (
  arith,
  bit_and_step (q * 2 ^ suc k + r) (2 ^ suc k - 1),
  scaled-suc q k,
  two_pow-suc k,
  two_pow-pos k,
  bit_and_low k q (r / 2) (omega (arith, two_pow-suc k)),
)

-- The test of one bit.
pub bit_and_bit : (k q r : ℕ) → r < 2 ^ k → bit_and (q * 2 ^ k + r) (2 ^ k) ≡ q % 2 * 2 ^ k
bit_and_bit zero q r h = omega (arith, bit_and_step (q * 1 + r) 1, bit_and-zero ((q * 1 + r) / 2))
bit_and_bit (suc k) q r h = ground (
  arith,
  bit_and_step (q * 2 ^ suc k + r) (2 ^ suc k),
  scaled-suc q k,
  scaled-suc (q % 2) k,
  two_pow-suc k,
  bit_and_bit k q (r / 2) (omega (arith, two_pow-suc k)),
)

-- `|` of fields that do not meet.
pub bit_or_fields : (k q r : ℕ) → r < 2 ^ k → bit_or r (q * 2 ^ k) ≡ q * 2 ^ k + r
bit_or_fields zero q r h = ground (arith, zero-bit_or (q * 1))
bit_or_fields (suc k) q r h = ground (
  arith,
  bit_or_step r (q * 2 ^ suc k),
  scaled-suc q k,
  two_pow-suc k,
  bit_or_fields k q (r / 2) (omega (arith, two_pow-suc k)),
)

-- The same laws with the fields written as quotient and remainder.
pub bit_and-mask : (k a : ℕ) → bit_and a (2 ^ k - 1) ≡ a % 2 ^ k
bit_and-mask k a = ground (
  arith,
  div-add-mod' a (2 ^ k),
  bit_and_low k (a / 2 ^ k) (a % 2 ^ k) (mod-lt a (two_pow-pos k)),
)

pub bit_and-two_pow : (k a : ℕ) → bit_and a (2 ^ k) ≡ a / 2 ^ k % 2 * 2 ^ k
bit_and-two_pow k a = ground (
  arith,
  div-add-mod' a (2 ^ k),
  bit_and_bit k (a / 2 ^ k) (a % 2 ^ k) (mod-lt a (two_pow-pos k)),
)

pub bit_or-two_pow : (k a : ℕ) → a < 2 ^ k → bit_or a (2 ^ k) ≡ 2 ^ k + a
bit_or-two_pow k a h = ground (arith, bit_or_fields k 1 a h)

pub bit_and-one : (a : ℕ) → bit_and a 1 ≡ a % 2
bit_and-one a = omega (arith, bit_and_step a 1, bit_and-zero (a / 2))

pub bit_or-one : (a : ℕ) → bit_or a 1 ≡ a / 2 * 2 + 1
bit_or-one a = ground (arith, bit_or_step a 1, bit_or-zero (a / 2))

pub bit_xor-one : (a : ℕ) → bit_xor a 1 ≡ a / 2 * 2 + (a + 1) % 2
bit_xor-one a = omega (arith, bit_xor_step a 1, bit_xor-zero (a / 2))
