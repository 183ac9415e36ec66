-- ===== src/Tests/Positions.antt =====
-- Eight leaves: three rows above them.
use utreexo_core_rpc.Common.{◌^◌, ◌≤◌, ◌<◌, ◌+◌, ◌*◌, ◌/◌, ◌≡◌, arith}
use utreexo_core_rpc.Position.{tree_rows, detect_row, left_child, right_child, parent}
use utreexo_core_rpc.Position.Rows.{
  row_start, detect_row-row_start, parent-row_start, child-row_start,
}
use utreexo_core_rpc.Position.Size.{tree_rows-bounds}

detect_row-row_start_example : detect_row (row_start 4 1 + 2) 3 ≡ 1
detect_row-row_start_example = detect_row-row_start 3 1 2 (omega arith) (omega arith)

parent-row_start_example : parent (row_start 4 1 + 2) 3 ≡ row_start 4 2 + 2 / 2
parent-row_start_example = parent-row_start 3 1 2 (omega arith) (omega arith) (omega arith)

child-row_start_example :
    (left_child (row_start 4 2 + 1) 3 ≡ row_start 4 1 + 2 * 1)
    × (right_child (row_start 4 2 + 1) 3 ≡ row_start 4 1 + (2 * 1 + 1))
child-row_start_example = child-row_start 3 1 1 (omega arith) (omega arith) (omega arith)

tree_rows-bounds_example : (5 ≤ 2 ^ tree_rows 5) × (2 ^ tree_rows 5 < 2 * 5)
tree_rows-bounds_example = tree_rows-bounds 5 (omega arith) (omega arith)
