-- ===== src/Transaction/Positions.antt =====
-- The positions of src/transaction_wire.cpp: rows by their leading ones, the numbering with 63 rows
-- on the wire, and `NativeProofPositions`. Numbers have 64 bits; a shift stays written as a power.
pub mod Rows
pub mod Places
pub mod Spans
pub mod Siblings
pub mod Proved
use utreexo_core_rpc.Common.{
  ℕ, zero, suc, ◌+◌, ◌-◌, ◌*◌, ◌/◌, ◌%◌, ◌^◌, bit_and, bit_or, bit_xor, Bool, true, false, ◌&&◌,
  ◌||◌, not, ltb, leb, ◌==◌, if◌then◌else◌, List, [], ◌∷◌, ◌++◌, length,
}
use utreexo_core_rpc.Result.{Result, ok, err, ◌>>=◌, ◌>>◌, refuse}
use utreexo_core_rpc.Position.{bit_width}
use utreexo_core_rpc.Udata.{Proof}
use utreexo_core_rpc.Transaction.{max_hashes, sort}

-- `std::countl_one` of a number of `n` bits.
unfoldable pub countl_one : ℕ → ℕ → ℕ
countl_one zero x = 0
countl_one (suc n) x =
    let more = suc (countl_one n (x % 2 ^ n)) in if x / 2 ^ n % 2 == 0 then 0 else more

unfoldable pub row_start : ℕ → ℕ → ℕ
row_start row rows =
    let mask = if rows == 63 then 2 ^ 64 - 1 else 2 ^ (rows + 1) - 1 in
    bit_xor mask (mask / 2 ^ row)

unfoldable pub row_of : ℕ → ℕ → ℕ
row_of pos rows = countl_one 64 (pos * 2 ^ (63 - rows) % 2 ^ 64)

unfoldable pub wire_position : ℕ → ℕ → ℕ
wire_position pos rows =
    let row = row_of pos rows in
    (row_start row 63 + (pos + 2 ^ 64 - row_start row rows) % 2 ^ 64) % 2 ^ 64

-- `num_leaves == 0 ? 0U : std::bit_width(num_leaves - 1)`
unfoldable pub rows_of : ℕ → ℕ
rows_of num_leaves = if num_leaves == 0 then 0 else bit_width 64 (num_leaves - 1)

-- The leaves below a target, the first and the last.
unfoldable pub interval : ℕ → ℕ → ℕ → Result (ℕ × ℕ)
interval rows num_leaves target = do
  refuse (leb (if rows == 63 then 2 ^ 64 - 1 else 2 ^ (rows + 1) - 1) target)
      "target outside forest position space"
  let row = row_of target rows
  let offset = (target + 2 ^ 64 - row_start row rows) % 2 ^ 64
  refuse (leb (num_leaves / 2 ^ row) offset) "target outside populated forest"
  let start = offset * 2 ^ row % 2 ^ 64
  ok (start, (start + (2 ^ row - 1)) % 2 ^ 64)

unfoldable pub intervals : ℕ → ℕ → List ℕ → Result (List (ℕ × ℕ))
intervals rows num_leaves [] = ok []
intervals rows num_leaves (target ∷ targets) = do
  first ← interval rows num_leaves target
  others ← intervals rows num_leaves targets
  ok (first ∷ others)

-- `std::sort` of pairs.
pub insert_interval : ℕ × ℕ → List (ℕ × ℕ) → List (ℕ × ℕ)
insert_interval x [] = x ∷ []
insert_interval (a, b) ((c, d) ∷ ys) =
    if ltb a c || (a == c && leb b d)
    then (a, b) ∷ ((c, d) ∷ ys)
    else (c, d) ∷ insert_interval (a, b) ys

unfoldable pub sort_intervals : List (ℕ × ℕ) → List (ℕ × ℕ)
unfolding insert_interval
sort_intervals [] = []
sort_intervals (x ∷ xs) = insert_interval x (sort_intervals xs)

-- Whether an interval starts before the one ahead of it has ended.
unfoldable pub overlaps : List (ℕ × ℕ) → Bool
overlaps [] = false
overlaps ((a, b) ∷ []) = false
overlaps ((a, b) ∷ ((c, d) ∷ ys)) = leb c b || overlaps ((c, d) ∷ ys)

-- What the loop over the pending positions of a row has made: the next pending positions, and the
-- positions of the siblings that are needed.
pub record Merge : Type 0 where
  pub next : List ℕ
  pub needed : List ℕ

abbrev is_sibling : ℕ → List ℕ → Bool
is_sibling sibling [] = false
is_sibling sibling (q ∷ qs) = sibling == q

abbrev skip_sibling : Bool → List ℕ → List ℕ
skip_sibling true (q ∷ qs) = qs
skip_sibling _ qs = qs

-- A position's sibling is the next pending position, or it is needed.
unfoldable pub need_sibling : ℕ → List ℕ → List ℕ → Result (List ℕ)
need_sibling pos later needed =
    if is_sibling (bit_xor pos 1) later
    then ok needed
    else if leb max_hashes (length needed)
    then err "too many transaction proof hashes"
    else ok (needed ++ bit_xor pos 1 ∷ [])

-- The loop over the pending positions in one row, with fuel for each.
unfoldable pub merge_row : ℕ → ℕ → ℕ → ℕ → List ℕ → Merge → Result Merge
merge_row fuel rows num_leaves row [] m = ok m
merge_row zero rows num_leaves row (pos ∷ later) m = ok m
merge_row (suc fuel) rows num_leaves row (pos ∷ later) m =
    let offset = (pos + 2 ^ 64 - row_start row rows) % 2 ^ 64 in
    let on_row = num_leaves / 2 ^ row in
    let other_row =
      merge_row fuel rows num_leaves row later (record m { next = m.next ++ pos ∷ [] }) in
    let root = merge_row fuel rows num_leaves row later m in
    let merged = (do
      needed ← need_sibling pos later m.needed
      merge_row fuel rows num_leaves row (skip_sibling (is_sibling (bit_xor pos 1) later) later)
          (record { next = m.next ++ bit_or (pos / 2) (2 ^ rows) ∷ []; needed = needed })) in
    if not (row_of pos rows == row)
    then other_row
    else if bit_and on_row 1 == 1 && offset == on_row - 1
    then root
    else merged

-- The loop over the rows, with `n` of them left.
unfoldable pub merge_rows : ℕ → ℕ → ℕ → ℕ → List ℕ → List ℕ → Result (List ℕ)
merge_rows n rows num_leaves row [] needed = ok needed
merge_rows zero rows num_leaves row (p ∷ pending) needed = ok needed
merge_rows (suc n) rows num_leaves row (p ∷ pending) needed = do
  m ←
      merge_row (length (p ∷ pending)) rows num_leaves row (p ∷ pending)
        (record { next = []; needed = needed })
  merge_rows n rows num_leaves (row + 1) (sort m.next) m.needed

unfoldable pub native_proof_positions : Proof → ℕ → Result (List ℕ)
native_proof_positions proof num_leaves = do
  refuse (ltb (2 ^ 63) num_leaves) "unsupported forest leaf count"
  let rows = rows_of num_leaves
  found ← intervals rows num_leaves proof.targets
  refuse (overlaps (sort_intervals found)) "duplicate or overlapping proof targets"
  needed ← merge_rows (rows + 1) rows num_leaves 0 (sort proof.targets) []
  refuse (not (length needed == length proof.hashes)) "full proof hash count does not match targets"
  ok needed
