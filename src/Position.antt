-- ===== src/Position.antt =====
-- src/position.cpp: the numbering of the nodes of a forest. A position is a 64-bit number; shifts of
-- 1 and 2 stay written as powers, reduced to 64 bits.
pub mod Rows
pub mod Size
use utreexo_core_rpc.Common.{
  ℕ, zero, suc, ◌+◌, ◌-◌, ◌*◌, ◌/◌, ◌%◌, ◌^◌, bit_and, bit_or, Bool, true, false, not, ◌&&◌,
  if◌then◌else◌, ◌==◌,
}

-- `(uint64_t{2} << forest_rows) - 1`
abbrev pub row_mask : ℕ → ℕ
row_mask forest_rows = (2 * 2 ^ forest_rows % 2 ^ 64 + 2 ^ 64 - 1) % 2 ^ 64

-- The number of binary digits, `64 - std::countl_zero`.
unfoldable pub bit_width : ℕ → ℕ → ℕ
bit_width zero n = 0
bit_width (suc fuel) n = let more = suc (bit_width fuel (n / 2)) in if n == 0 then 0 else more

unfoldable pub tree_rows : ℕ → ℕ
tree_rows leaves = if leaves == 0 then 0 else bit_width 64 (leaves - 1)

-- The loop of `DetectRow`. The marker is 0 after 64 rounds.
unfoldable pub detect_loop : ℕ → ℕ → ℕ → ℕ → ℕ
detect_loop zero pos marker row = row
detect_loop (suc fuel) pos marker row =
    let rest = detect_loop fuel pos (marker / 2) ((row + 1) % 2 ^ 8) in
    if bit_and pos marker == 0 then row else rest

unfoldable pub detect_row : ℕ → ℕ → ℕ
detect_row pos forest_rows = detect_loop 65 pos (2 ^ forest_rows % 2 ^ 64) 0

unfoldable pub left_child : ℕ → ℕ → ℕ
left_child pos forest_rows = bit_and (pos * 2 % 2 ^ 64) (row_mask forest_rows)

unfoldable pub right_child : ℕ → ℕ → ℕ
right_child pos forest_rows = (left_child pos forest_rows + 1) % 2 ^ 64

unfoldable pub parent : ℕ → ℕ → ℕ
parent pos forest_rows = bit_or (pos / 2) (2 ^ forest_rows % 2 ^ 64)
