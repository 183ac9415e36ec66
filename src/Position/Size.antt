-- ===== src/Position/Size.antt =====
-- How many rows a forest needs.
use utreexo_core_rpc.Common.{
  ℕ, zero, suc, ◌-◌, ◌*◌, ◌/◌, ◌^◌, ◌≤◌, ◌<◌, ◌≡◌, refl, inl, inr, arith, true, false, Bool-cases,
  ◌==◌,
}
use utreexo_core_rpc.Common.Bits.{two_pow-suc}
use utreexo_core_rpc.Position.{bit_width, tree_rows}

last_digit : (fuel m : ℕ) → m ≡ 0 → bit_width fuel m ≡ 0
unfolding bit_width
last_digit zero m z = refl
last_digit (suc fuel) m z = let x : (m == 0) ≡ true = ground arith in rw x refl

pub bit_width-bounds :
    (fuel n : ℕ)
    → 0 < n
    → n < 2 ^ fuel
    → (n < 2 ^ bit_width fuel n) × (2 ^ bit_width fuel n ≤ 2 * n)
unfolding bit_width
bit_width-bounds zero n some_digit h = absurd (omega arith)
bit_width-bounds (suc fuel) n some_digit h =
    let e : (n == 0) ≡ false = ground arith in
    elim (Bool-cases (n / 2 == 0)) [
      | inl y ↦
          let one : n ≡ 1 = ground arith in
          rw (e, last_digit fuel (n / 2) (ground arith)) (omega arith, omega arith)
      | inr more ↦
          let (below, above) =
            bit_width-bounds fuel (n / 2) (ground arith) (omega (arith, two_pow-suc fuel)) in
          let p = two_pow-suc (bit_width fuel (n / 2)) in rw e (omega arith, omega arith)
    ]

-- `TreeRows` of a number of leaves is the least number of rows whose lowest row has a place for
-- each of them.
pub tree_rows-bounds :
    (leaves : ℕ)
    → 0 < leaves
    → leaves < 2 ^ 64
    → (leaves ≤ 2 ^ tree_rows leaves) × (2 ^ tree_rows leaves < 2 * leaves)
unfolding tree_rows
tree_rows-bounds leaves some_leaf h =
    let e : (leaves == 0) ≡ false = ground arith in
    elim (Bool-cases (leaves == 1)) [
      | inl y ↦
          let one : leaves ≡ 1 = ground arith in
          rw (e, last_digit 64 (leaves - 1) (omega arith)) (omega arith, omega arith)
      | inr more ↦
          let (below, above) = bit_width-bounds 64 (leaves - 1) (ground arith) (omega arith) in
          rw e (omega arith, omega arith)
    ]
