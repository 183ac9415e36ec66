-- ===== src/Transaction.antt =====
-- The bounds of include/utreexo/transaction_wire.h and src/transaction_wire.cpp, and what the parsers
-- and writers of that file share.
pub mod Unique
pub mod Inventory
pub mod Scan
pub mod Positions
pub mod Prepared
pub mod Decode
use utreexo_core_rpc.Common.{
  ℕ, ◌+◌, ◌-◌, ◌*◌, ◌/◌, ◌^◌, Option, none, some, List, [], ◌∷◌, Bool, true, false, ◌&&◌, ◌||◌, not,
  ltb, leb, ◌==◌, if◌then◌else◌, String,
}
use utreexo_core_rpc.Result.{Result, ok, err}

abbrev pub max_inventory : ℕ
max_inventory = 50000

-- `9 + MAX_INVENTORY * 36`
abbrev pub max_inventory_payload : ℕ
max_inventory_payload = 1800009

abbrev pub max_tx_payload : ℕ
max_tx_payload = 4000000

abbrev pub padding : ℕ
padding = 2 ^ 64 - 1

-- `MAX_TX_PAYLOAD / 41`
abbrev pub max_inputs : ℕ
max_inputs = 97560

-- `MAX_TX_PAYLOAD / Hash256::SIZE`
abbrev pub max_hashes : ℕ
max_hashes = 125000

abbrev pub max_script_bytes : ℕ
max_script_bytes = 10000

-- `std::sort` of positions, by insertion.
pub insert_sorted : ℕ → List ℕ → List ℕ
insert_sorted x [] = x ∷ []
insert_sorted x (y ∷ ys) = if leb x y then x ∷ (y ∷ ys) else y ∷ insert_sorted x ys

unfoldable pub sort : List ℕ → List ℕ
unfolding insert_sorted
sort [] = []
sort (x ∷ xs) = insert_sorted x (sort xs)

-- `std::adjacent_find` finds nothing.
pub no_adjacent : List ℕ → Bool
no_adjacent [] = true
no_adjacent (x ∷ []) = true
no_adjacent (x ∷ (y ∷ ys)) = not (x == y) && no_adjacent (y ∷ ys)

-- `std::find` for `value`.
abbrev pub contains : List ℕ → ℕ → Bool
contains [] value = false
contains (x ∷ xs) value = x == value || contains xs value

unfoldable pub unique_positions : List ℕ → Bool
unfolding no_adjacent sort
unique_positions positions = not (contains positions padding) && no_adjacent (sort positions)
