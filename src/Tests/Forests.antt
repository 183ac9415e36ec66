-- ===== src/Tests/Forests.antt =====
-- Forests over the arena in memory, with numbers as hashes and a list of ids as the leaf index.
use utreexo_core_rpc.Common.{
  subst, sym, ◌∙◌, ◌⊎◌, Among, ℕ, suc, ◌+◌, ◌*◌, ◌≤◌, ◌<◌, inl, inr, ◌≡◌, ◌≢◌, refl, arith, Option,
  none, some, Bool, true, false, if◌then◌else◌, ◌==◌, List, [], ◌∷◌,
}
use utreexo_core_rpc.Result.{Returns}
use utreexo_core_rpc.Arena.{
  no_node, free, leaf, branch, NodeRecord, fresh_record, ArenaOps, IsLawful,
}
use utreexo_core_rpc.Arena.Memory.{Memory}
use utreexo_core_rpc.Arena.Memory.Laws.{memory, memory-IsLawful}
use utreexo_core_rpc.Forest.{IndexOps, Forest, add, recompute, delete_id}
use utreexo_core_rpc.Forest.Tree.{
  Tree, Context, InContext, IsSplit, leaf_at, branch_at, top, left_of, In, id_of, height,
  IsDistinct,
}
use utreexo_core_rpc.Forest.Represents.{Represents, Linked}
use utreexo_core_rpc.Forest.Recompute.{Changed, recompute-Represents}
use utreexo_core_rpc.Forest.Shapes.{bit_at, trailing_ones}
use utreexo_core_rpc.Forest.Stands.{Rows, put}
use utreexo_core_rpc.Forest.Add.{IsForest, Added, add-Added}
use utreexo_core_rpc.Forest.Delete.{Deleted, delete_id-Deleted}

abbrev pair_hash : ℕ → ℕ → ℕ
pair_hash x y = 2 * x + 3 * y + 1

abbrev find_in : Memory ℕ → List ℕ → ℕ → Option ℕ
find_in a [] h = none
find_in a (i ∷ ids) h =
    let later = find_in a ids h in if (a.cell i).hash == h then some i else later

abbrev erase_from : List ℕ → ℕ → List ℕ × Bool
erase_from [] i = ([], false)
erase_from (j ∷ ids) i =
    let later = erase_from ids i in if j == i then (ids, true) else (j ∷ later.0, later.1)

abbrev id_list : IndexOps (memory ℕ)
id_list = record {
  Index = List ℕ;
  find = find_in;
  insert = λ a h i ids. i ∷ ids;
  erase = λ a h i ids. erase_from ids i;
}

-- Four leaves, as four calls of `Add` leave them.
abbrev cell_of : ℕ → NodeRecord ℕ
cell_of i =
    if i == 0
    then record { hash = 10; parent = 2; left = no_node; right = no_node; type = leaf }
    else if i == 1
    then record { hash = 20; parent = 2; left = no_node; right = no_node; type = leaf }
    else if i == 2
    then record { hash = 81; parent = 6; left = 0; right = 1; type = branch }
    else if i == 3
    then record { hash = 30; parent = 5; left = no_node; right = no_node; type = leaf }
    else if i == 4
    then record { hash = 40; parent = 5; left = no_node; right = no_node; type = leaf }
    else if i == 5
    then record { hash = 181; parent = 6; left = 3; right = 4; type = branch }
    else if i == 6
    then record { hash = 706; parent = no_node; left = 2; right = 5; type = branch }
    else fresh_record free 0 no_node no_node

abbrev four : Forest pair_hash (memory ℕ) id_list
four = record {
  arena = record { cell = cell_of; next = 7; free_ids = []; live_count = 7 };
  index = 4 ∷ 3 ∷ 1 ∷ 0 ∷ [];
  roots = λ r. if r == 2 then 6 else no_node;
  num_leaves = 4;
}

abbrev four_tree : Tree ℕ
four_tree =
    branch_at 6 (branch_at 2 (leaf_at 0 10) (leaf_at 1 20))
      (branch_at 5 (leaf_at 3 30) (leaf_at 4 40))

abbrev four_rows : Rows ℕ
four_rows = put 2 (some four_tree) (λ r. none)

row_two : (r : ℕ) (t : Tree ℕ) → four_rows r ≡ some t → (2 ≡ r) × (four_tree ≡ t)
row_two r t e = ground arith

four_ids : (j : ℕ) → In j four_tree → j < 7
four_ids j m = ground arith

four-IsForest : IsForest pair_hash (memory ℕ) id_list four four_rows
four-IsForest = record {
  stands = record {
    valid = record { bounded = omega arith; below = tt; once = tt; counted = refl };
    no_root = λ r e. ground arith;
    root = λ r t e.
        let (x, y) = row_two r t e in
        subst (λ q. four.roots q ≡ id_of t) x (subst (λ u. 6 ≡ id_of u) y refl);
    built =
        λ r t e. subst (λ u. Represents pair_hash cell_of no_node u) (row_two r t e).1 four_built;
    distinct = λ r t e. subst IsDistinct (row_two r t e).1 four_distinct;
    apart = λ r s t u e f j m n. sym (row_two r t e).0 ∙ (row_two s u f).0;
    held = λ r t e j m n.
        let b = four_ids j (subst (λ u. In j u) (sym (row_two r t e).1) m) in not_available j b n;
    small = λ r t e j m.
        let b = four_ids j (subst (λ u. In j u) (sym (row_two r t e).1) m) in omega arith;
  };
  fits = λ r t e.
      let (x, y) = row_two r t e in
      subst (λ q. (bit_at 4 q ≡ 1) × (height t ≤ q)) x
        (refl, subst (λ u. height u ≤ 2) y (omega arith));
  bounded = omega arith;
}
  where
    not_available : (j : ℕ) → j < 7 → ¬ ((7 ≤ j) ⊎ Among j [])
    not_available j b (inl x) = omega arith
    not_available j b (inr x) = absurd x

    four_built : Represents pair_hash cell_of no_node four_tree
    four_built = (
      record { parent_eq = refl; left_eq = refl; right_eq = refl; type_eq = refl },
      refl,
      (
        record { parent_eq = refl; left_eq = refl; right_eq = refl; type_eq = refl },
        refl,
        record {
          hash_eq = refl;
          parent_eq = refl;
          left_eq = refl;
          right_eq = refl;
          type_eq = refl;
        },
        record {
          hash_eq = refl;
          parent_eq = refl;
          left_eq = refl;
          right_eq = refl;
          type_eq = refl;
        },
      ),
      (
        record { parent_eq = refl; left_eq = refl; right_eq = refl; type_eq = refl },
        refl,
        record {
          hash_eq = refl;
          parent_eq = refl;
          left_eq = refl;
          right_eq = refl;
          type_eq = refl;
        },
        record {
          hash_eq = refl;
          parent_eq = refl;
          left_eq = refl;
          right_eq = refl;
          type_eq = refl;
        },
      ),
    )

    four_distinct : IsDistinct four_tree
    four_distinct = (
      (λ m. ground arith),
      (λ m. ground arith),
      (λ j m n. ground arith),
      ((λ m. omega arith), (λ m. omega arith), (λ j m n. omega arith), tt, tt),
      ((λ m. omega arith), (λ m. omega arith), (λ j m n. omega arith), tt, tt),
    )

delete_id-Deleted_example : Returns (delete_id pair_hash (memory ℕ) id_list 0 four) (
    Deleted pair_hash
      (memory ℕ)
      id_list
      four
      four_rows
      2
      (left_of 2 (left_of 6 top (branch_at 5 (leaf_at 3 30) (leaf_at 4 40))) (leaf_at 1 20)))
delete_id-Deleted_example =
    delete_id-Deleted pair_hash (memory ℕ) id_list (memory-IsLawful ℕ) four four_rows 2
      (left_of 2 (left_of 6 top (branch_at 5 (leaf_at 3 30) (leaf_at 4 40))) (leaf_at 1 20)) 0 10
      four-IsForest refl

enough_room : suc (trailing_ones 64 4) ≤ ArenaOps.room (memory ℕ) four.arena
unfolding trailing_ones
enough_room = omega arith

add-Added_example :
    Returns
      (add pair_hash (memory ℕ) id_list 50 four)
      (Added pair_hash (memory ℕ) id_list 50 four four_rows)
add-Added_example =
    add-Added pair_hash (memory ℕ) id_list (memory-IsLawful ℕ) 50 four four_rows four-IsForest
      enough_room (omega arith)

memory-IsLawful_example : IsLawful (memory ℕ)
memory-IsLawful_example = memory-IsLawful ℕ

-- The four leaves with stale hashes above the first two.
abbrev stale : Memory ℕ
stale = record four.arena {
  cell = λ i.
      if i == 2
      then record (cell_of 2) { hash = 0 }
      else if i == 6
      then record (cell_of 6) { hash = 0 }
      else cell_of i;
}

abbrev way : Context ℕ
way = left_of 2 (left_of 6 top (branch_at 5 (leaf_at 3 30) (leaf_at 4 40))) (leaf_at 1 20)

way_nodes : (j : ℕ) → InContext j way → j ≢ no_node
way_nodes j m = ground arith

stale-IsValid : ArenaOps.IsValid (memory ℕ) stale
stale-IsValid = record { bounded = omega arith; below = tt; once = tt; counted = refl }

way-IsSplit : IsSplit way (leaf_at 0 10)
way-IsSplit = record {
  inner = tt;
  outer = (
    (λ m. ground arith),
    (λ m. ground arith),
    (λ j m n. ground arith),
    tt,
    (
      (λ m. ground arith),
      (λ m. m),
      (λ j m n. n),
      ((λ m. omega arith), (λ m. omega arith), (λ j m n. omega arith), tt, tt),
      tt,
    ),
  );
  apart = λ j m n. ground arith;
}

way-Linked : Linked pair_hash stale.cell 0 way
way-Linked = (
  record { parent_eq = refl; left_eq = refl; right_eq = refl; type_eq = refl },
  record { hash_eq = refl; parent_eq = refl; left_eq = refl; right_eq = refl; type_eq = refl },
  (
    record { parent_eq = refl; left_eq = refl; right_eq = refl; type_eq = refl },
    (
      record { parent_eq = refl; left_eq = refl; right_eq = refl; type_eq = refl },
      refl,
      record { hash_eq = refl; parent_eq = refl; left_eq = refl; right_eq = refl; type_eq = refl },
      record { hash_eq = refl; parent_eq = refl; left_eq = refl; right_eq = refl; type_eq = refl },
    ),
    tt,
  ),
)

recompute-Represents_example :
    let a' = recompute pair_hash (memory ℕ) id_list 64 2 stale in
    Represents pair_hash a'.cell no_node four_tree
    × Changed pair_hash (memory ℕ) id_list (memory-IsLawful ℕ) (λ j. InContext j way) stale a'
recompute-Represents_example =
    recompute-Represents pair_hash (memory ℕ) id_list (memory-IsLawful ℕ) 64 way (leaf_at 0 10)
      stale (omega arith) stale-IsValid way_nodes way-IsSplit way-Linked
      record { hash_eq = refl; parent_eq = refl; left_eq = refl; right_eq = refl; type_eq = refl }
