-- ===== src/Forest/Add.antt =====
-- `Add`: a forest stays one, and its trees are as specified.
use utreexo_core_rpc.Common.{
  ℕ, suc, ◌+◌, ◌^◌, ◌%◌, ◌≤◌, ◌<◌, ◌≡◌, refl, sym, ◌≢◌, subst, arith, some,
}
use utreexo_core_rpc.Result.{ok, Returns}
use utreexo_core_rpc.Arena.{no_node, leaf, fresh_record, ArenaOps, IsLawful, Allocated}
use utreexo_core_rpc.Forest.{IndexOps, Forest, add_loop, add, write_root}
use utreexo_core_rpc.Forest.Tree.{Tree, tip, leaf_at, height, In}
use utreexo_core_rpc.Forest.Stands.{Rows, Stands, Detached, Stands-frame}
use utreexo_core_rpc.Forest.Shapes.{shapes, insert_shape, bit_at, trailing_ones}
use utreexo_core_rpc.Forest.Loop.{Fits, Ended, add_loop-Ended}

module _ {H : Type 0} (parent_hash : H → H → H) (ops : ArenaOps H) (ix : IndexOps ops) where
  open ops use {IsValid, IsAvailable, room}

  -- The arena and the roots stand for the trees. A tree stands only in a row whose bit of
  -- `num_leaves` is set, and is no higher than the row.
  pub record IsForest (f : Forest parent_hash ops ix) (ts : Rows H) : Type 0 where
    pub stands : Stands parent_hash ops f.arena f.roots ts
    pub fits : (r : ℕ) (t : Tree H) → ts r ≡ some t → (bit_at f.num_leaves r ≡ 1) × (height t ≤ r)
    pub bounded : f.num_leaves < 2 ^ 63

  -- The forest after `Add`.
  pub record Added (hash : H) (f : Forest parent_hash ops ix) (ts : Rows H)
      (f' : Forest parent_hash ops ix) : Type 0 where
    pub rows : Rows H
    pub forest : IsForest f' rows
    pub shape : (r : ℕ) → shapes rows r ≡ insert_shape 64 f.num_leaves 0 (shapes ts) (tip hash) r
    pub count : f'.num_leaves ≡ f.num_leaves + 1

  module _ (lawful : IsLawful ops) where
    new_leaf :
        (hash : H) (f : Forest parent_hash ops ix) (ts : Rows H) (i : ℕ) (a : ops.Arena)
        → Stands parent_hash ops f.arena f.roots ts
        → Allocated ops (fresh_record leaf hash no_node no_node) f.arena i a
        → Stands parent_hash ops a f.roots ts × Detached parent_hash ops a ts (leaf_at i hash)
    new_leaf hash f ts i a s al = (
      Stands-frame parent_hash ops s (λ r t e j m. ground (arith, al.reads j, fresh r t e j m))
          (λ r t e j m n. s.held r t e j m (al.others j n)) al.valid,
      record {
        built = rw cell (record {
          hash_eq = refl;
          parent_eq = refl;
          left_eq = refl;
          right_eq = refl;
          type_eq = refl;
        });
        distinct = tt;
        held = λ j e n. al.taken (subst (λ x. IsAvailable a x) (sym e) n);
        small = λ j e. omega (arith, al.small);
        apart = λ r t e j m n. fresh r t e j n m;
      },
    )
      where
        fresh : (r : ℕ) (t : Tree H) → ts r ≡ some t → (j : ℕ) → In j t → i ≢ j
        fresh r t e j m x = s.held r t e j m (subst (λ y. IsAvailable f.arena y) x al.fresh)

        cell : ops.read a i ≡ fresh_record leaf hash no_node no_node
        cell = ground (arith, al.reads i)

    Fits-zero :
        (f : Forest parent_hash ops ix) (ts : Rows H)
        → IsForest f ts
        → Fits parent_hash ops ix lawful 0 f.num_leaves ts
    Fits-zero f ts h k v e = let x : 0 + k ≡ k = omega arith in rw x (h.fits k v (rw x at e))

    -- `Add` from what its two parts gave.
    Added-by :
        (hash : H) (f : Forest parent_hash ops ix) (ts : Rows H) (i : ℕ) (a : ops.Arena)
        (p : ℕ × ℕ × ops.Arena × (ℕ → ℕ))
        → ops.allocate leaf hash no_node no_node f.arena ≡ ok (i, a)
        → add_loop parent_hash ops ix 64 f.num_leaves 0 i a f.roots ≡ ok p
        → Ended parent_hash ops ix lawful 64 f.num_leaves 0 ts (leaf_at i hash) p
        → f.num_leaves + 1 < 2 ^ 63
        → Returns (add parent_hash ops ix hash f) (Added hash f ts)
    unfolding add
    Added-by hash f ts i a p run loop en bound =
        let count : (f.num_leaves + 1) % 2 ^ 64 ≡ f.num_leaves + 1 = omega arith in
        (
          record {
            arena = p.2;
            index = ix.insert a hash i f.index;
            roots = write_root p.0 p.1 p.3;
            num_leaves = (f.num_leaves + 1) % 2 ^ 64;
          },
          rw (run, loop),
          record {
            rows = en.rows;
            forest = record {
              stands = en.stands;
              fits = λ r t e.
                  let x : 0 + r ≡ r = omega arith in rw count (rw x at (en.fits r t (rw x e)));
              bounded = rw count bound;
            };
            shape = en.shape;
            count = count;
          },
        )

    -- `Add` succeeds while the arena has room for the leaf and for a branch for each trailing one of
    -- the number of leaves, and while that number stays below 2 ^ 63. The result is again a forest;
    -- without their ids, its trees are those that adding one to the binary number of leaves gives:
    -- the trees of the trailing ones are joined with the new leaf, and the other rows stay.
    pub add-Added :
        (hash : H) (f : Forest parent_hash ops ix) (ts : Rows H)
        → IsForest f ts
        → suc (trailing_ones 64 f.num_leaves) ≤ room f.arena
        → f.num_leaves + 1 < 2 ^ 63
        → Returns (add parent_hash ops ix hash f) (Added hash f ts)
    add-Added hash f ts h enough bound =
        let ((i, a), run, al) =
          lawful.allocates leaf hash no_node no_node f.arena h.stands.valid (omega arith) in
        let (s, d) = new_leaf hash f ts i a h.stands al in
        let (p, loop, en) =
          add_loop-Ended parent_hash ops ix lawful 64 f.num_leaves 0 ts (leaf_at i hash) a f.roots s
            d (omega arith) (Fits-zero f ts h) (omega (arith, h.bounded))
            (omega (arith, al.less_room)) in
        Added-by hash f ts i a p run loop en bound
