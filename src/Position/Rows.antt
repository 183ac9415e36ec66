-- ===== src/Position/Rows.antt =====
-- Positions as rows and places in them.
use utreexo_core_rpc.Common.{
  ℕ, zero, suc, ◌+◌, ◌-◌, ◌*◌, ◌/◌, ◌%◌, ◌^◌, ◌≤◌, ◌<◌, bit_and, bit_or, ◌≡◌, refl, ap, ◌∙◌, arith,
  true, false, ◌==◌,
}
use utreexo_core_rpc.Common.Bits.{
  scaled-suc, two_pow-suc, two_pow-pos, bit_and_bit, bit_and-mask, bit_or-two_pow,
}
use native.Mathlib.Nat.{add-mod_left, mod-eq_of_lt}
use utreexo_core_rpc.Position.{detect_loop, detect_row, left_child, right_child, parent, row_mask}

-- In a numbering with `width` binary digits, row 0 has the first half, and the rows above it are
-- numbered alike in the second half.
abbrev pub row_start : ℕ → ℕ → ℕ
row_start width zero = 0
row_start zero (suc row) = 0
row_start (suc width) (suc row) = 2 ^ width + row_start width row

abbrev pub row_size : ℕ → ℕ → ℕ
row_size zero row = 0
row_size (suc width) zero = 2 ^ width
row_size (suc width) (suc row) = row_size width row

pub row-lt_two_pow : (w d k : ℕ) → k < row_size w d → row_start w d + k < 2 ^ w
row-lt_two_pow zero d k h = absurd (omega arith)
row-lt_two_pow (suc w) zero k h = omega (arith, two_pow-suc w)
row-lt_two_pow (suc w) (suc d) k h = omega (arith, two_pow-suc w, row-lt_two_pow w d k h)

pub two_pow-le : (a b : ℕ) → a ≤ b → 2 ^ a ≤ 2 ^ b
two_pow-le zero b h = two_pow-pos b
two_pow-le (suc a) zero h = absurd (omega arith)
two_pow-le (suc a) (suc b) h =
    omega (arith, two_pow-suc a, two_pow-suc b, two_pow-le a b (omega arith))

detect_stop :
    (fuel pos marker row : ℕ) → bit_and pos marker ≡ 0 → detect_loop (suc fuel) pos marker row ≡ row
unfolding detect_loop
detect_stop fuel pos marker row h =
    let e : (bit_and pos marker == 0) ≡ true = ground arith in rw e refl

detect_round :
    (fuel pos marker row : ℕ)
    → 0 < bit_and pos marker
    → row + 1 < 256
    → detect_loop (suc fuel) pos marker row ≡ detect_loop fuel pos (marker / 2) (row + 1)
unfolding detect_loop
detect_round fuel pos marker row h small =
    let e : (bit_and pos marker == 0) ≡ false = ground arith in
    let x : (row + 1) % 2 ^ 8 ≡ row + 1 = omega arith in rw (e, x) refl

detect_loop-row :
    (fuel hi w d k row : ℕ)
    → k < row_size (suc w) d
    → suc w ≤ fuel
    → row + suc w < 256
    → detect_loop fuel (hi * 2 ^ suc w + (row_start (suc w) d + k)) (2 ^ w) row ≡ row + d
detect_loop-row zero hi w d k row h enough small = absurd (omega arith)
detect_loop-row (suc fuel) hi w zero k row h enough small =
    let place : hi * 2 ^ suc w + (0 + k) ≡ hi * 2 * 2 ^ w + k = omega (arith, scaled-suc hi w) in
    let clear : bit_and (hi * 2 ^ suc w + (0 + k)) (2 ^ w) ≡ 0 =
      rw place (bit_and_bit w (hi * 2) k h ∙ even (hi * 2) (2 ^ w) (omega arith)) in
    detect_stop fuel (hi * 2 ^ suc w + (0 + k)) (2 ^ w) row clear ∙ omega arith
  where
    even : (m p : ℕ) → m % 2 ≡ 0 → m % 2 * p ≡ 0
    even m p e = rw e (omega arith)
detect_loop-row (suc fuel) hi zero (suc d) k row h enough small = absurd (omega arith)
detect_loop-row (suc fuel) hi (suc w) (suc d) k row h enough small =
    let low = row_start (suc w) d + k in
    let start : row_start (suc (suc w)) (suc d) ≡ 2 ^ suc w + row_start (suc w) d = refl in
    let place : hi * 2 ^ suc (suc w) + (row_start (suc (suc w)) (suc d) + k)
        ≡ (hi * 2 + 1) * 2 ^ suc w + low =
      omega (arith, start, scaled-suc hi (suc w), one_more (hi * 2) (2 ^ suc w)) in
    let under = row-lt_two_pow (suc w) d k h in
    let set : bit_and ((hi * 2 + 1) * 2 ^ suc w + low) (2 ^ suc w) ≡ (hi * 2 + 1) % 2 * 2 ^ suc w =
      bit_and_bit (suc w) (hi * 2 + 1) low under in
    let some_bit : 0 < bit_and ((hi * 2 + 1) * 2 ^ suc w + low) (2 ^ suc w) =
      rw set (odd (hi * 2 + 1) (2 ^ suc w) (omega arith) (two_pow-pos (suc w))) in
    let half : 2 ^ suc w / 2 ≡ 2 ^ w = omega (arith, two_pow-suc w) in
    let rest = detect_loop-row fuel (hi * 2 + 1) w d k (row + 1) h (omega arith) (omega arith) in
    ap (λ x. detect_loop (suc fuel) x (2 ^ suc w) row) place
    ∙ detect_round fuel ((hi * 2 + 1) * 2 ^ suc w + low) (2 ^ suc w) row some_bit (omega arith)
    ∙ ap (λ m. detect_loop fuel ((hi * 2 + 1) * 2 ^ suc w + low) m (row + 1)) half
    ∙ rest
    ∙ omega arith
  where
    one_more : (m p : ℕ) → (m + 1) * p ≡ m * p + p
    one_more m p = omega arith

    odd : (m p : ℕ) → m % 2 ≡ 1 → 1 ≤ p → 0 < m % 2 * p
    odd m p e h = rw e (omega arith)

pub small_power : (r : ℕ) → r ≤ 63 → 2 ^ r % 2 ^ 64 ≡ 2 ^ r
small_power r h = omega (arith, two_pow-le r 63 h)

-- `DetectRow` finds the row of each place of each row of the numbering.
pub detect_row-row_start :
    (forest_rows row k : ℕ)
    → forest_rows ≤ 63
    → k < row_size (suc forest_rows) row
    → detect_row (row_start (suc forest_rows) row + k) forest_rows ≡ row
unfolding detect_row
detect_row-row_start forest_rows row k small h =
    let x : row_start (suc forest_rows) row + k
        ≡ 0 * 2 ^ suc forest_rows + (row_start (suc forest_rows) row + k) =
      omega arith in
    ap (λ p. detect_loop 65 p (2 ^ forest_rows % 2 ^ 64) 0) x
    ∙ ap (λ m. detect_loop 65 (0 * 2 ^ suc forest_rows + (row_start (suc forest_rows) row + k)) m 0)
        (small_power forest_rows small)
    ∙ detect_loop-row 65 0 forest_rows row k 0 h (omega arith) (omega arith)
    ∙ omega arith

-- A row starts at twice the number that it starts at in the numbering with one digit less.
pub row_start-double : (w d : ℕ) → d ≤ w → row_start (suc w) d ≡ 2 * row_start w d
row_start-double w zero h = omega arith
row_start-double zero (suc d) h = absurd (omega arith)
row_start-double (suc w) (suc d) h =
    omega (arith, two_pow-suc w, row_start-double w d (omega arith))

row_size-double : (w d : ℕ) → d < w → row_size (suc w) d ≡ 2 * row_size w d
row_size-double zero d h = absurd (omega arith)
row_size-double (suc w) zero h = omega (arith, two_pow-suc w)
row_size-double (suc w) (suc d) h = row_size-double w d (omega arith)

-- `Parent` leads from a place of a row below the top to half that place in the next row.
pub parent-row_start :
    (forest_rows row k : ℕ)
    → forest_rows ≤ 63
    → row < forest_rows
    → k < row_size (suc forest_rows) row
    → parent (row_start (suc forest_rows) row + k) forest_rows
      ≡ row_start (suc forest_rows) (suc row) + k / 2
unfolding parent
parent-row_start forest_rows row k small below h =
    let double = row_start-double forest_rows row (omega arith) in
    let half : (row_start (suc forest_rows) row + k) / 2 ≡ row_start forest_rows row + k / 2 =
      omega arith in
    let low =
      row-lt_two_pow forest_rows row (k / 2)
        (omega (arith, row_size-double forest_rows row below)) in
    let goal : bit_or (row_start forest_rows row + k / 2) (2 ^ forest_rows)
        ≡ 2 ^ forest_rows + (row_start forest_rows row + k / 2) =
      bit_or-two_pow forest_rows (row_start forest_rows row + k / 2) low in
    rw (half, small_power forest_rows small) (goal ∙ omega arith)

mask-eq : (forest_rows : ℕ) → forest_rows ≤ 62 → row_mask forest_rows ≡ 2 ^ suc forest_rows - 1
mask-eq forest_rows small =
    omega (arith, two_pow-suc forest_rows, two_pow-pos forest_rows, two_pow-le forest_rows 62 small)

-- `LeftChild` and `RightChild` lead from a place of a row above the lowest to the two places of the
-- row below whose parent it is.
pub child-row_start :
    (forest_rows row k : ℕ)
    → forest_rows ≤ 62
    → k < row_size (suc forest_rows) (suc row)
    → row < forest_rows
    → (left_child (row_start (suc forest_rows) (suc row) + k) forest_rows
        ≡ row_start (suc forest_rows) row + 2 * k)
      × (right_child (row_start (suc forest_rows) (suc row) + k) forest_rows
          ≡ row_start (suc forest_rows) row + (2 * k + 1))
unfolding left_child right_child
child-row_start forest_rows row k small h below =
    (rw left_eq refl, rw left_eq (omega (arith, low, two_pow-le forest_rows 62 small, double)))
  where
    low : row_start forest_rows row + k < 2 ^ forest_rows
    low = row-lt_two_pow forest_rows row k h

    double : row_start (suc forest_rows) row ≡ 2 * row_start forest_rows row
    double = row_start-double forest_rows row (omega arith)

    twice :
        (2 ^ forest_rows + row_start forest_rows row + k) * 2 % 2 ^ 64
        ≡ 2 ^ suc forest_rows + (row_start (suc forest_rows) row + 2 * k)
    twice = omega (arith, low, double, two_pow-suc forest_rows, two_pow-le forest_rows 62 small)

    masked :
        bit_and
          (2 ^ suc forest_rows + (row_start (suc forest_rows) row + 2 * k))
          (2 ^ suc forest_rows - 1)
        ≡ row_start (suc forest_rows) row + 2 * k
    masked =
        bit_and-mask (suc forest_rows)
          (2 ^ suc forest_rows + (row_start (suc forest_rows) row + 2 * k))
        ∙ add-mod_left (2 ^ suc forest_rows) (row_start (suc forest_rows) row + 2 * k)
        ∙ mod-eq_of_lt (omega (arith, low, double, two_pow-suc forest_rows))

    left_eq :
        bit_and
          ((2 ^ forest_rows + row_start forest_rows row + k) * 2 % 2 ^ 64)
          (row_mask forest_rows)
        ≡ row_start (suc forest_rows) row + 2 * k
    left_eq = rw (twice, mask-eq forest_rows small) masked
