-- ===== src/Forest/Pair.antt =====
-- A leaf of a tree with its parent and its sibling: what `DeleteId` reads before it changes anything.
use utreexo_core_rpc.Common.{
  ℕ, ◌+◌, ◌≤◌, inl, inr, ◌≡◌, ◌≢◌, refl, sym, subst, arith, if◌then◌else◌, ◌==◌,
}
use utreexo_core_rpc.Arena.{no_node, ArenaOps}
use utreexo_core_rpc.Forest.Tree.{
  Tree, leaf_at, branch_at, Context, left_of, right_of, id_of, parent_of, plug, In, In-root,
  In-plug, plug-In, InContext, IsDistinct, IsSplit, plug-IsSplit, height, height-plug_mono, depth,
  depth-le-height,
}
use utreexo_core_rpc.Forest.Represents.{IsLeafRecord, Represents, Linked, unplug}

module _ {H : Type 0} (parent_hash : H → H → H) (ops : ArenaOps H) where
  open ops use {Arena, read}

  -- In the tree `old`, the node `p` has the leaf `i` and the tree `s` below it and the nodes of `c` above.
  pub record Pair (a : Arena) (old : Tree H) (i p : ℕ) (v : H) (s : Tree H) (c : Context H)
      : Type 0 where
    pub leaf_record : IsLeafRecord (read a i) v p
    pub grandparent : (read a p).parent ≡ parent_of c
    pub sibling : (if (read a p).left == i then (read a p).right else (read a p).left) ≡ id_of s
    pub below : Represents parent_hash (read a) p s
    pub above : Linked parent_hash (read a) p c
    pub split : IsSplit c s
    pub i_p : i ≢ p
    pub i_s : ¬ In i s
    pub p_s : ¬ In p s
    pub i_c : ¬ InContext i c
    pub p_c : ¬ InContext p c
    pub i_old : In i old
    pub p_old : In p old
    pub kept : (j : ℕ) → In j (plug c s) → In j old
    pub lower : height (plug c s) ≤ height old
    pub short : depth c + 1 ≤ height old

  module _ (a : Arena) (i p : ℕ) (v : H) (s : Tree H) (c : Context H) where
    pub left-Pair :
        let old = plug (left_of p c s) (leaf_at i v) in
        IsDistinct old → Represents parent_hash (read a) no_node old → Pair a old i p v s c
    left-Pair d b =
        let ((r, below, above), l) = unplug parent_hash (read a) (left_of p c s) (leaf_at i v) b in
        let all = plug-IsSplit (left_of p c s) (leaf_at i v) d in
        let up = plug-IsSplit c (branch_at p (leaf_at i v) s) d in
        record {
          leaf_record = l;
          grandparent = r.parent_eq;
          sibling = ground (arith, r.left_eq, r.right_eq);
          below = below;
          above = above;
          split = record { inner = all.outer.3; outer = all.outer.4; apart = all.outer.2 };
          i_p = λ x. all.apart i refl (inl (sym x));
          i_s = λ m. all.apart i refl (inr (inl m));
          p_s = all.outer.0;
          i_c = λ m. all.apart i refl (inr (inr m));
          p_c = all.outer.1;
          i_old = plug-In i (left_of p c s) (leaf_at i v) (inl refl);
          p_old = plug-In p (left_of p c s) (leaf_at i v) (inr (inl refl));
          kept = λ j m. elim (In-plug j c s m) [
            | inl n ↦ plug-In j (left_of p c s) (leaf_at i v) (inr (inr (inl n)))
            | inr n ↦ plug-In j (left_of p c s) (leaf_at i v) (inr (inr (inr n)))
          ];
          lower = height-plug_mono c s (branch_at p (leaf_at i v) s) (omega arith);
          short = omega (arith, depth-le-height c (branch_at p (leaf_at i v) s));
        }

    pub right-Pair :
        let old = plug (right_of p s c) (leaf_at i v) in
        IsDistinct old → Represents parent_hash (read a) no_node old → Pair a old i p v s c
    right-Pair d b =
        let ((r, below, above), l) = unplug parent_hash (read a) (right_of p s c) (leaf_at i v) b in
        let all = plug-IsSplit (right_of p s c) (leaf_at i v) d in
        let other =
          λ (x : id_of s ≡ i). all.apart i refl (inr (inl (subst (λ y. In y s) x (In-root s)))) in
        record {
          leaf_record = l;
          grandparent = r.parent_eq;
          sibling = ground (arith, r.left_eq, r.right_eq, other);
          below = below;
          above = above;
          split = record { inner = all.outer.3; outer = all.outer.4; apart = all.outer.2 };
          i_p = λ x. all.apart i refl (inl (sym x));
          i_s = λ m. all.apart i refl (inr (inl m));
          p_s = all.outer.0;
          i_c = λ m. all.apart i refl (inr (inr m));
          p_c = all.outer.1;
          i_old = plug-In i (right_of p s c) (leaf_at i v) (inl refl);
          p_old = plug-In p (right_of p s c) (leaf_at i v) (inr (inl refl));
          kept = λ j m. elim (In-plug j c s m) [
            | inl n ↦ plug-In j (right_of p s c) (leaf_at i v) (inr (inr (inl n)))
            | inr n ↦ plug-In j (right_of p s c) (leaf_at i v) (inr (inr (inr n)))
          ];
          lower = height-plug_mono c s (branch_at p s (leaf_at i v)) (omega arith);
          short = omega (arith, depth-le-height c (branch_at p s (leaf_at i v)));
        }
