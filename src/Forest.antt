-- ===== src/Forest.antt =====
-- `PackedForest::Impl` of src/forest.cpp over an arena and a leaf index: `Add`, `DeleteId`,
-- `Recompute`. The array `roots` is a function of the row. `parent_hash` is `ParentHash`.
pub mod Tree
pub mod Represents
pub mod Recompute
pub mod Stands
pub mod Join
pub mod Shapes
pub mod Loop
pub mod Add
pub mod Find
pub mod Release
pub mod Pair
pub mod Promote
pub mod Delete
use utreexo_core_rpc.Common.{
  ℕ, zero, suc, ◌+◌, ◌/◌, ◌%◌, ◌^◌, bit_and, Bool, true, false, ◌&&◌, Option, none, some,
  if◌then◌else◌, ◌==◌,
}
use utreexo_core_rpc.Result.{Result, ok, err, ◌>>=◌}
use utreexo_core_rpc.Arena.{
  no_node, NodeType, free, leaf, branch, ArenaOps, set_hash, set_parent, set_left, set_right,
}

-- The leaf index: which live leaf has a given hash. It reads hashes from the arena.
pub record IndexOps {H : Type 0} (ops : ArenaOps H) : Type 1 where
  pub Index : Type 0
  pub find : ops.Arena → Index → H → Option ℕ
  pub insert : ops.Arena → H → ℕ → Index → Index
  pub erase : ops.Arena → H → ℕ → Index → Index × Bool

abbrev pub write_root : ℕ → ℕ → (ℕ → ℕ) → ℕ → ℕ
write_root row node roots r = if row == r then node else roots r

-- `std::ranges::find(roots, id)` over the rows from `row` on, of which `n` are left.
unfoldable pub find_root : ℕ → ℕ → ℕ → (ℕ → ℕ) → Option ℕ
find_root zero row id roots = none
find_root (suc n) row id roots =
    if roots row == id then some row else find_root n (row + 1) id roots

abbrev is_leaf_type : NodeType → Bool
is_leaf_type leaf = true
is_leaf_type _ = false

module _ {H : Type 0} (parent_hash : H → H → H) (ops : ArenaOps H) (ix : IndexOps ops) where
  open ops use {Arena, read, update, allocate, release, live}
  open ix use {Index, find, insert, erase}

  pub record Forest : Type 0 where
    pub arena : Arena
    pub index : Index
    pub roots : ℕ → ℕ
    pub num_leaves : ℕ

  -- One carry of `Add`: the old root of the row, unless it was deleted, becomes the left child of a
  -- new branch over the node.
  unfoldable pub join : ℕ → ℕ → Arena → Result (ℕ × Arena)
  join left node a = if left == no_node then ok (node, a) else (do
    let hash = parent_hash (read a left).hash (read a node).hash
    (parent, a') ← allocate branch hash left node a
    ok (parent, set_parent ops node parent (set_parent ops left parent a')))

  -- The loop of `Add`. After 64 rounds `leaves`, a 64-bit number, is 0.
  unfoldable pub add_loop : ℕ → ℕ → ℕ → ℕ → Arena → (ℕ → ℕ) → Result (ℕ × ℕ × Arena × (ℕ → ℕ))
  add_loop zero leaves row node a roots = ok (row, node, a, roots)
  add_loop (suc fuel) leaves row node a roots =
      let rest = (do
        (node', a') ← join (roots row) node a
        add_loop fuel (leaves / 2) (row + 1) node' a' (write_root row no_node roots)) in
      if bit_and leaves 1 == 0 then ok (row, node, a, roots) else rest

  unfoldable pub add : H → Forest → Result Forest
  add hash f = do
    (node, a) ← allocate leaf hash no_node no_node f.arena
    let index = insert a hash node f.index
    (row, top, a', roots) ← add_loop 64 f.num_leaves 0 node a f.roots
    ok (record {
      arena = a';
      index = index;
      roots = write_root row top roots;
      num_leaves = (f.num_leaves + 1) % 2 ^ 64;
    })

  -- The loop of `Recompute`. A branch has at most 63 ancestors.
  unfoldable pub recompute : ℕ → ℕ → Arena → Arena
  recompute zero node a = a
  recompute (suc fuel) node a =
      let r = read a node in
      let hash = parent_hash (read a r.left).hash (read a r.right).hash in
      let rest = recompute fuel r.parent (set_hash ops node hash a) in
      if node == no_node then a else rest

  unfoldable pub is_leaf : Arena → ℕ → Bool
  is_leaf a i = live a i && is_leaf_type (read a i).type

  -- The end of `DeleteId` where the leaf had a parent.
  unfoldable pub drop_pair : H → ℕ → ℕ → Forest → Forest
  drop_pair hash node parent f = record f {
    index = (erase f.arena hash node f.index).0;
    arena = release parent (release node f.arena);
  }

  -- The parent is a root: the sibling takes its place.
  unfoldable pub promote_to_root : H → ℕ → ℕ → ℕ → Forest → Result Forest
  promote_to_root hash node parent sibling f = elim (find_root 64 0 parent f.roots) [
    | none ↦ err "branch root is not registered"
    | some row ↦ ok (
        drop_pair hash node parent (record f {
          roots = write_root row sibling f.roots;
          arena = set_parent ops sibling no_node f.arena;
        }))
  ]

  -- The sibling takes the parent's place under the grandparent.
  unfoldable pub relink : ℕ → ℕ → ℕ → Arena → Result Arena
  relink parent sibling grandparent a =
      if (read a grandparent).left == parent
      then ok (set_left ops grandparent sibling a)
      else if (read a grandparent).right == parent
      then ok (set_right ops grandparent sibling a)
      else err "parent is detached from grandparent"

  unfoldable pub promote : H → ℕ → ℕ → ℕ → ℕ → Forest → Result Forest
  promote hash node parent sibling grandparent f = do
    a ← relink parent sibling grandparent f.arena
    let a' = recompute 64 grandparent (set_parent ops sibling grandparent a)
    ok (drop_pair hash node parent (record f { arena = a' }))

  unfoldable pub delete_root : H → ℕ → Forest → Result Forest
  delete_root hash node f = elim (find_root 64 0 node f.roots) [
    | none ↦ err "leaf root is not registered"
    | some row ↦ ok (record f {
      roots = write_root row no_node f.roots;
      index = (erase f.arena hash node f.index).0;
      arena = release node f.arena;
    })
  ]

  unfoldable pub delete_id : ℕ → Forest → Result Forest
  delete_id node f =
      let a = f.arena in
      let hash = (read a node).hash in
      let parent = (read a node).parent in
      let sibling =
        (if (read a parent).left == node then (read a parent).right else (read a parent).left) in
      let grandparent = (read a parent).parent in
      if is_leaf a node
      then (if parent == no_node
          then delete_root hash node f
          else if grandparent == no_node
          then promote_to_root hash node parent sibling f
          else promote hash node parent sibling grandparent f)
      else err "node is not a live leaf"
