-- ===== src/Forest/Represents.antt =====
-- The records of an arena stand for a tree.
use utreexo_core_rpc.Common.{ℕ, inl, inr, ◌≡◌, ◌≢◌, refl, sym, subst, arith, if◌then◌else◌, ◌==◌}
use utreexo_core_rpc.Arena.{no_node, leaf, branch, NodeRecord}
use utreexo_core_rpc.Forest.Tree.{
  Tree, leaf_at, branch_at, Context, top, left_of, right_of, id_of, parent_of, plug, In, InContext,
  IsDistinct,
}

module _ {H : Type 0} where
  pub record IsLeafRecord (r : NodeRecord H) (hash : H) (parent : ℕ) : Type 0 where
    pub hash_eq : r.hash ≡ hash
    pub parent_eq : r.parent ≡ parent
    pub left_eq : r.left ≡ no_node
    pub right_eq : r.right ≡ no_node
    pub type_eq : r.type ≡ leaf

  pub record IsBranchRecord (r : NodeRecord H) (parent left right : ℕ) : Type 0 where
    pub parent_eq : r.parent ≡ parent
    pub left_eq : r.left ≡ left
    pub right_eq : r.right ≡ right
    pub type_eq : r.type ≡ branch

module _ {H : Type 0} (parent_hash : H → H → H) where
  abbrev pub hash_of : Tree H → H
  hash_of (leaf_at i h) = h
  hash_of (branch_at i l r) = parent_hash (hash_of l) (hash_of r)

  module _ (cell : ℕ → NodeRecord H) where
    -- The tree stands under the node `p`.
    abbrev pub Represents : ℕ → Tree H → Type 0
    Represents p (leaf_at i h) = IsLeafRecord (cell i) h p
    Represents p (branch_at i l r) =
        IsBranchRecord (cell i) p (id_of l) (id_of r)
        × ((cell i).hash ≡ parent_hash (hash_of l) (hash_of r))
        × Represents i l
        × Represents i r

    -- The nodes of the context are linked, with the node `x` in the hole; their hashes may be stale.
    abbrev pub Linked : ℕ → Context H → Type 0
    Linked x top = Unit
    Linked x (left_of i c s) =
        IsBranchRecord (cell i) (parent_of c) x (id_of s) × Represents i s × Linked i c
    Linked x (right_of i s c) =
        IsBranchRecord (cell i) (parent_of c) (id_of s) x × Represents i s × Linked i c

    pub Represents-hash : (p : ℕ) (t : Tree H) → Represents p t → (cell (id_of t)).hash ≡ hash_of t
    Represents-hash p (leaf_at i h) r = r.hash_eq
    Represents-hash p (branch_at i l r) h = h.1

    pub Represents-parent : (p : ℕ) (t : Tree H) → Represents p t → (cell (id_of t)).parent ≡ p
    Represents-parent p (leaf_at i h) r = r.parent_eq
    Represents-parent p (branch_at i l r) h = h.0.parent_eq

    pub unplug :
        (c : Context H) (t : Tree H)
        → Represents no_node (plug c t)
        → Linked (id_of t) c × Represents (parent_of c) t
    unplug top t h = (tt, h)
    unplug (left_of i c s) t h = let (k, b) = unplug c (branch_at i t s) h in ((b.0, b.3, k), b.2)
    unplug (right_of i s c) t h = let (k, b) = unplug c (branch_at i s t) h in ((b.0, b.2, k), b.3)

  -- A tree is represented as long as its own records stay.
  pub Represents-frame :
      {cell cell' : ℕ → NodeRecord H} (p : ℕ) (t : Tree H)
      → ((j : ℕ) → In j t → cell' j ≡ cell j)
      → Represents cell p t
      → Represents cell' p t
  Represents-frame p (leaf_at i h) same r = rw (same i refl) r
  Represents-frame p (branch_at i l r) same h = (
    rw (same i (inl refl)) h.0,
    rw (same i (inl refl)) h.1,
    Represents-frame i l (λ j m. same j (inr (inl m))) h.2,
    Represents-frame i r (λ j m. same j (inr (inr m))) h.3,
  )

  pub Linked-frame :
      {cell cell' : ℕ → NodeRecord H} (x : ℕ) (c : Context H)
      → ((j : ℕ) → InContext j c → cell' j ≡ cell j)
      → Linked cell x c
      → Linked cell' x c
  Linked-frame x top same h = tt
  Linked-frame x (left_of i c s) same h = (
    rw (same i (inl refl)) h.0,
    Represents-frame i s (λ j m. same j (inr (inl m))) h.1,
    Linked-frame i c (λ j m. same j (inr (inr m))) h.2,
  )
  Linked-frame x (right_of i s c) same h = (
    rw (same i (inl refl)) h.0,
    Represents-frame i s (λ j m. same j (inr (inl m))) h.1,
    Linked-frame i c (λ j m. same j (inr (inr m))) h.2,
  )

  -- The root of the tree gets another parent.
  pub Represents-reparent :
      (cell cell' : ℕ → NodeRecord H) (p q : ℕ) (t : Tree H)
      → IsDistinct t
      → ((j : ℕ)
          → In j t
          → cell' j ≡ (if id_of t == j then record (cell j) { parent = q } else cell j))
      → Represents cell p t
      → Represents cell' q t
  Represents-reparent cell cell' p q (leaf_at i h) d same r = ground (arith, same i refl)
  Represents-reparent cell cell' p q (branch_at i l r) d same h =
      let e : cell' i ≡ record (cell i) { parent = q } = ground (arith, same i (inl refl)) in
      (
        rw e (record {
          parent_eq = refl;
          left_eq = h.0.left_eq;
          right_eq = h.0.right_eq;
          type_eq = h.0.type_eq;
        }),
        rw e h.1,
        Represents-frame i l
            (λ j m. below j (inr (inl m)) (λ k. d.0 (subst (λ x. In x l) (sym k) m))) h.2,
        Represents-frame i r
            (λ j m. below j (inr (inr m)) (λ k. d.1 (subst (λ x. In x r) (sym k) m))) h.3,
      )
    where
      below : (j : ℕ) → In j (branch_at i l r) → i ≢ j → cell' j ≡ cell j
      below j m k = ground (arith, same j m)
