-- ===== src/Forest/Shapes.antt =====
-- What `Add` does to the trees of a forest, as adding one to a binary number: the specification.

use utreexo_core_rpc.Common.{
  ℕ, zero, suc, ◌+◌, ◌/◌, ◌%◌, ◌≡◌, refl, arith, if◌then◌else◌, ◌==◌, true, Option, none, some,
}
use utreexo_core_rpc.Forest.Tree.{Tree, Shape, fork, shape_of}
use utreexo_core_rpc.Forest.Stands.{Rows}

-- The specification of a carry: the tree of the row, if there is one, becomes the left part.
abbrev pub join_shape : {H : Type 0} → Option (Shape H) → Shape H → Shape H
join_shape none t = t
join_shape (some u) t = fork u t

-- What the rows hold, without the ids.
abbrev pub shape_at : {H : Type 0} → Option (Tree H) → Option (Shape H)
shape_at none = none
shape_at (some t) = some (shape_of t)

abbrev pub shapes : {H : Type 0} → Rows H → ℕ → Option (Shape H)
shapes ts r = shape_at (ts r)

abbrev pub write_shape :
    {H : Type 0} → ℕ → Option (Shape H) → (ℕ → Option (Shape H)) → ℕ → Option (Shape H)
write_shape row t rows r = if row == r then t else rows r

-- Adding one to the number `leaves` carries over each of its low ones: the trees of those rows are
-- joined to the new tree, from the lowest row up, and the result takes the first row that is free.
unfoldable pub insert_shape :
    {H : Type 0} → ℕ → ℕ → ℕ → (ℕ → Option (Shape H)) → Shape H → ℕ → Option (Shape H)
insert_shape zero leaves row rows t = write_shape row (some t) rows
insert_shape (suc fuel) leaves row rows t =
    let rest =
      insert_shape fuel (leaves / 2) (row + 1) (write_shape row none rows)
        (join_shape (rows row) t) in
    if leaves % 2 == 0 then write_shape row (some t) rows else rest

pub insert-even :
    {H : Type 0} (fuel leaves row : ℕ) (rows : ℕ → Option (Shape H)) (t : Shape H)
    → leaves % 2 ≡ 0
    → insert_shape fuel leaves row rows t ≡ write_shape row (some t) rows
unfolding insert_shape
insert-even zero leaves row rows t even = refl
insert-even (suc fuel) leaves row rows t even =
    let e : (leaves % 2 == 0) ≡ true = ground arith in rw e

-- Bit `k` of a number.
abbrev pub bit_at : ℕ → ℕ → ℕ
bit_at n zero = n % 2
bit_at n (suc k) = bit_at (n / 2) k

-- `std::countr_one`.
unfoldable pub trailing_ones : ℕ → ℕ → ℕ
trailing_ones zero n = 0
trailing_ones (suc fuel) n =
    let more = suc (trailing_ones fuel (n / 2)) in if n % 2 == 0 then 0 else more
