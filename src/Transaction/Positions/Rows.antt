-- ===== src/Transaction/Positions/Rows.antt =====
-- Wire positions as rows and places in them.
use utreexo_core_rpc.Common.{
  ℕ, zero, suc, ◌+◌, ◌-◌, ◌*◌, ◌/◌, ◌%◌, ◌^◌, ◌≤◌, ◌<◌, bit_xor, ◌≡◌, refl, sym, ap, ◌∙◌, arith,
  ◌==◌, if◌then◌else◌, Bool-cases, inl, inr,
}
use utreexo_core_rpc.Common.Bits.{two_pow-suc, two_pow-pos, bit_xor_step, bit_xor-zero, scaled-suc}
use native.Mathlib.Nat.{div-eq_of_lt-le, mod-eq_of_lt, le_trans}
use utreexo_core_rpc.Position.Rows as Grid
use utreexo_core_rpc.Transaction.Positions.{countl_one, row_start, row_of, wire_position}

two_pow-sum : (w s n : ℕ) → n ≡ w + s → 2 ^ n ≡ 2 ^ s * 2 ^ w
two_pow-sum zero s n h = let e : n ≡ s = omega arith in rw e (omega arith)
two_pow-sum (suc w) s zero h = absurd (omega arith)
two_pow-sum (suc w) s (suc m) h =
    omega (arith, two_pow-suc m, scaled-suc (2 ^ s) w, two_pow-sum w s m (omega arith))

scaled-lt : (k q p : ℕ) → k < q → 1 ≤ p → k * p < p * q
scaled-lt k q p h pos = grind arith

low-digit : (p r : ℕ) → r < p → r / p % 2 ≡ 0
low-digit p r h = grind arith

high-digit : (p r : ℕ) → r < p → ((p + r) / p % 2 ≡ 1) × ((p + r) % p ≡ r)
high-digit p r h = (grind arith, grind arith)

-- A place in row `d` has `d` leading ones.
countl_one-row :
    (w s d k n : ℕ)
    → n ≡ w + s
    → k < Grid.row_size w d
    → countl_one n ((Grid.row_start w d + k) * 2 ^ s) ≡ d
unfolding countl_one
countl_one-row zero s d k n e h = absurd (omega arith)
countl_one-row (suc w) s d k zero e h = absurd (omega arith)
countl_one-row (suc w) s zero k (suc m) e h =
    let small : (0 + k) * 2 ^ s < 2 ^ m =
      rw (two_pow-sum w s m (omega arith))
        (scaled-lt (0 + k) (2 ^ w) (2 ^ s) (omega arith) (two_pow-pos s)) in
    rw (low-digit (2 ^ m) ((0 + k) * 2 ^ s) small) refl
countl_one-row (suc w) s (suc d) k (suc m) e h =
    let low = Grid.row_start w d + k in
    let small : low * 2 ^ s < 2 ^ m =
      rw (two_pow-sum w s m (omega arith))
        (scaled-lt low (2 ^ w) (2 ^ s) (Grid.row-lt_two_pow w d k h) (two_pow-pos s)) in
    let split : (2 ^ w + Grid.row_start w d + k) * 2 ^ s ≡ 2 ^ m + low * 2 ^ s =
      regroup (2 ^ w) (Grid.row_start w d) k (2 ^ s) ∙ rw (two_pow-sum w s m (omega arith)) refl in
    let (top, below) = high-digit (2 ^ m) (low * 2 ^ s) small in
    rw (split, top, below) (ap suc (countl_one-row w s d k m (omega arith) h))
  where
    regroup : (a b c p : ℕ) → (a + b + c) * p ≡ p * a + (b + c) * p
    regroup a b c p = grind arith

row_start-full : (d : ℕ) → Grid.row_start d d ≡ 2 ^ d - 1
row_start-full zero = refl
row_start-full (suc d) = omega (arith, two_pow-suc d, two_pow-pos d, row_start-full d)

-- The ones above a mask.
mask-xor : (d e n : ℕ) → n ≡ d + e → bit_xor (2 ^ n - 1) (2 ^ e - 1) ≡ Grid.row_start n d
mask-xor d zero n h =
    let same : n ≡ d = omega arith in rw same (bit_xor-zero (2 ^ d - 1) ∙ sym (row_start-full d))
mask-xor d (suc e) zero h = absurd (omega arith)
mask-xor d (suc e) (suc n) h =
    let a : (2 ^ suc n - 1) / 2 ≡ 2 ^ n - 1 = omega (arith, two_pow-suc n, two_pow-pos n) in
    let b : (2 ^ suc e - 1) / 2 ≡ 2 ^ e - 1 = omega (arith, two_pow-suc e, two_pow-pos e) in
    let low : (2 ^ suc n - 1 + (2 ^ suc e - 1)) % 2 ≡ 0 =
      omega (arith, two_pow-suc n, two_pow-suc e, two_pow-pos n, two_pow-pos e) in
    bit_xor_step (2 ^ suc n - 1) (2 ^ suc e - 1)
    ∙ rw (a, b, low, mask-xor d e n (omega arith))
        (omega (arith, Grid.row_start-double n d (omega arith)))

-- A mask without its low digits.
mask-shift : (d e n : ℕ) → n ≡ d + e → (2 ^ n - 1) / 2 ^ d ≡ 2 ^ e - 1
mask-shift d e n h =
    rw (two_pow-sum d e n h) (quotient (2 ^ e) (2 ^ d) (two_pow-pos e) (two_pow-pos d))
  where
    quotient : (q p : ℕ) → 1 ≤ q → 1 ≤ p → (q * p - 1) / p ≡ q - 1
    quotient q p h k = div-eq_of_lt-le p (grind arith) (grind arith)

row-le : (w d k : ℕ) → k < Grid.row_size w d → d < w
row-le zero d k h = absurd (omega arith)
row-le (suc w) zero k h = omega arith
row-le (suc w) (suc d) k h = omega (arith, row-le w d k h)

pub mask-rows :
    (rows : ℕ) → (if rows == 63 then 2 ^ 64 - 1 else 2 ^ (rows + 1) - 1) ≡ 2 ^ suc rows - 1
mask-rows rows = elim (Bool-cases (rows == 63)) [
  | inl y ↦ let e : rows ≡ 63 = ground arith in rw e refl
  | inr n ↦ rw n (ap (λ m. 2 ^ m - 1) (omega arith))
]

-- `RowStart` is where a row starts in the numbering.
row_start-grid :
    (rows d : ℕ) → rows ≤ 63 → d ≤ rows → row_start d rows ≡ Grid.row_start (suc rows) d
unfolding row_start
row_start-grid rows d h k = rw (mask-rows rows) (
    ap (bit_xor (2 ^ suc rows - 1)) (mask-shift d (suc rows - d) (suc rows) (omega arith))
    ∙ mask-xor d (suc rows - d) (suc rows) (omega arith))

-- `Row` finds the row of each place.
row_of-grid :
    (rows d k : ℕ)
    → rows ≤ 63
    → k < Grid.row_size (suc rows) d
    → row_of (Grid.row_start (suc rows) d + k) rows ≡ d
unfolding row_of
row_of-grid rows d k h place =
    let pos = Grid.row_start (suc rows) d + k in
    let s = 63 - rows in
    let small : pos * 2 ^ s < 2 ^ 64 = rw (two_pow-sum (suc rows) s 64 (omega arith)) (
      scaled-lt pos (2 ^ suc rows) (2 ^ s) (Grid.row-lt_two_pow (suc rows) d k place)
        (two_pow-pos s)) in
    let kept : pos * 2 ^ s % 2 ^ 64 ≡ pos * 2 ^ s = mod-eq_of_lt small in
    rw kept (countl_one-row (suc rows) s d k 64 (omega arith) place)

pub row_size-grows : (w v d : ℕ) → w ≤ v → Grid.row_size w d ≤ Grid.row_size v d
row_size-grows zero v d h = omega arith
row_size-grows (suc w) zero d h = absurd (omega arith)
row_size-grows (suc w) (suc v) zero h = Grid.two_pow-le w v (omega arith)
row_size-grows (suc w) (suc v) (suc d) h = row_size-grows w v d (omega arith)

-- In a numbering with at most 63 rows, `WirePosition` takes each place of each row to the place of
-- the same number in the same row of the numbering with 63 rows.
pub wire_position-row_start :
    (rows d k : ℕ)
    → rows ≤ 63
    → k < Grid.row_size (suc rows) d
    → wire_position (Grid.row_start (suc rows) d + k) rows ≡ Grid.row_start 64 d + k
unfolding wire_position
wire_position-row_start rows d k h place =
    let below = row-le (suc rows) d k place in
    let start = Grid.row_start (suc rows) d in
    let bound =
      Grid.row-lt_two_pow 64 d k (le_trans place (row_size-grows (suc rows) 64 d (omega arith))) in
    let inside = Grid.row-lt_two_pow (suc rows) d k place in
    let power = Grid.two_pow-le (suc rows) 64 (omega arith) in
    rw
      (
        row_of-grid rows d k h place,
        row_start-grid rows d h (omega arith),
        row_start-grid 63 d (omega arith) (omega arith),
      )
      (offset start k (Grid.row_start 64 d) (omega arith) bound)
  where
    offset :
        (start k target : ℕ)
        → start + k < 2 ^ 64
        → target + k < 2 ^ 64
        → (target + (start + k + 2 ^ 64 - start) % 2 ^ 64) % 2 ^ 64 ≡ target + k
    offset start k target h j = omega arith
