-- ===== src/Forest/Tree.antt =====
-- The trees that a forest's records stand for. Each node carries its id, so that a tree determines
-- the records; a context is the way from a node to the root of its tree.
use utreexo_core_rpc.Common.{ℕ, suc, ◌+◌, ◌≤◌, max, ◌⊎◌, inl, inr, ◌≡◌, refl, sym, subst, arith}
use utreexo_core_rpc.Arena.{no_node}

pub data Tree (H : Type 0) : Type 0 where
  leaf_at : ℕ → H → Tree H
  branch_at : ℕ → Tree H → Tree H → Tree H

-- A tree without its ids.
pub data Shape (H : Type 0) : Type 0 where
  tip : H → Shape H
  fork : Shape H → Shape H → Shape H

-- The hole is the left child of the branch, beside the right child; or the other way round.
pub data Context (H : Type 0) : Type 0 where
  top : Context H
  left_of : ℕ → Context H → Tree H → Context H
  right_of : ℕ → Tree H → Context H → Context H

module _ {H : Type 0} where
  abbrev pub id_of : Tree H → ℕ
  id_of (leaf_at i h) = i
  id_of (branch_at i l r) = i

  abbrev pub shape_of : Tree H → Shape H
  shape_of (leaf_at i h) = tip h
  shape_of (branch_at i l r) = fork (shape_of l) (shape_of r)

  abbrev pub parent_of : Context H → ℕ
  parent_of top = no_node
  parent_of (left_of i c s) = i
  parent_of (right_of i s c) = i

  abbrev pub plug : Context H → Tree H → Tree H
  plug top t = t
  plug (left_of i c s) t = plug c (branch_at i t s)
  plug (right_of i s c) t = plug c (branch_at i s t)

  abbrev pub In : ℕ → Tree H → Type 0
  In j (leaf_at i h) = i ≡ j
  In j (branch_at i l r) = (i ≡ j) ⊎ (In j l ⊎ In j r)

  abbrev pub InContext : ℕ → Context H → Type 0
  InContext j top = ⊥
  InContext j (left_of i c s) = (i ≡ j) ⊎ (In j s ⊎ InContext j c)
  InContext j (right_of i s c) = (i ≡ j) ⊎ (In j s ⊎ InContext j c)

  abbrev pub Apart : Tree H → Tree H → Type 0
  Apart t u = (j : ℕ) → In j t → In j u → ⊥

  -- No id stands twice.
  abbrev pub IsDistinct : Tree H → Type 0
  IsDistinct (leaf_at i h) = Unit
  IsDistinct (branch_at i l r) = (¬ In i l) × (¬ In i r) × Apart l r × IsDistinct l × IsDistinct r

  abbrev pub IsDistinctContext : Context H → Type 0
  IsDistinctContext top = Unit
  IsDistinctContext (left_of i c s) =
      (¬ In i s)
      × (¬ InContext i c)
      × ((j : ℕ) → In j s → InContext j c → ⊥)
      × IsDistinct s
      × IsDistinctContext c
  IsDistinctContext (right_of i s c) =
      (¬ In i s)
      × (¬ InContext i c)
      × ((j : ℕ) → In j s → InContext j c → ⊥)
      × IsDistinct s
      × IsDistinctContext c

  abbrev pub height : Tree H → ℕ
  height (leaf_at i h) = 0
  height (branch_at i l r) = max (height l) (height r) + 1

  abbrev pub depth : Context H → ℕ
  depth top = 0
  depth (left_of i c s) = suc (depth c)
  depth (right_of i s c) = suc (depth c)

  pub In-root : (t : Tree H) → In (id_of t) t
  In-root (leaf_at i h) = refl
  In-root (branch_at i l r) = inl refl

  pub In-plug : (j : ℕ) (c : Context H) (t : Tree H) → In j (plug c t) → In j t ⊎ InContext j c
  In-plug j top t m = inl m
  In-plug j (left_of i c s) t m = elim (In-plug j c (branch_at i t s) m) [
    | inr k ↦ inr (inr (inr k))
    | inl (inl e) ↦ inr (inl e)
    | inl (inr (inl k)) ↦ inl k
    | inl (inr (inr k)) ↦ inr (inr (inl k))
  ]
  In-plug j (right_of i s c) t m = elim (In-plug j c (branch_at i s t) m) [
    | inr k ↦ inr (inr (inr k))
    | inl (inl e) ↦ inr (inl e)
    | inl (inr (inl k)) ↦ inr (inr (inl k))
    | inl (inr (inr k)) ↦ inl k
  ]

  pub plug-In : (j : ℕ) (c : Context H) (t : Tree H) → In j t ⊎ InContext j c → In j (plug c t)
  plug-In j top t (inl m) = m
  plug-In j top t (inr k) = absurd k
  plug-In j (left_of i c s) t (inl m) = plug-In j c (branch_at i t s) (inl (inr (inl m)))
  plug-In j (left_of i c s) t (inr (inl e)) = plug-In j c (branch_at i t s) (inl (inl e))
  plug-In j (left_of i c s) t (inr (inr (inl m))) =
      plug-In j c (branch_at i t s) (inl (inr (inr m)))
  plug-In j (left_of i c s) t (inr (inr (inr k))) = plug-In j c (branch_at i t s) (inr k)
  plug-In j (right_of i s c) t (inl m) = plug-In j c (branch_at i s t) (inl (inr (inr m)))
  plug-In j (right_of i s c) t (inr (inl e)) = plug-In j c (branch_at i s t) (inl (inl e))
  plug-In j (right_of i s c) t (inr (inr (inl m))) =
      plug-In j c (branch_at i s t) (inl (inr (inl m)))
  plug-In j (right_of i s c) t (inr (inr (inr k))) = plug-In j c (branch_at i s t) (inr k)

  -- The parts of a tree with distinct ids have distinct ids and are apart, and the other way round.
  pub record IsSplit (c : Context H) (t : Tree H) : Type 0 where
    pub inner : IsDistinct t
    pub outer : IsDistinctContext c
    pub apart : (j : ℕ) → In j t → InContext j c → ⊥

  pub plug-IsSplit : (c : Context H) (t : Tree H) → IsDistinct (plug c t) → IsSplit c t
  plug-IsSplit top t d = record { inner = d; outer = tt; apart = λ j m k. k }
  plug-IsSplit (left_of i c s) t d =
      let p = plug-IsSplit c (branch_at i t s) d in
      let (it, is, ts, dt, ds) = p.inner in
      record {
        inner = dt;
        outer = (is, p.apart i (inl refl), (λ j m k. p.apart j (inr (inr m)) k), ds, p.outer);
        apart = λ j m k. elim k [
          | inl e ↦ it (subst (λ x. In x t) (sym e) m)
          | inr (inl n) ↦ ts j m n
          | inr (inr n) ↦ p.apart j (inr (inl m)) n
        ];
      }
  plug-IsSplit (right_of i s c) t d =
      let p = plug-IsSplit c (branch_at i s t) d in
      let (is, it, st, ds, dt) = p.inner in
      record {
        inner = dt;
        outer = (is, p.apart i (inl refl), (λ j m k. p.apart j (inr (inl m)) k), ds, p.outer);
        apart = λ j m k. elim k [
          | inl e ↦ it (subst (λ x. In x t) (sym e) m)
          | inr (inl n) ↦ st j n m
          | inr (inr n) ↦ p.apart j (inr (inr m)) n
        ];
      }

  pub IsSplit-left :
      (i : ℕ) (c : Context H) (s t : Tree H)
      → IsSplit (left_of i c s) t
      → IsSplit c (branch_at i t s)
  IsSplit-left i c s t p =
      let (is, ic, sc, ds, dc) = p.outer in
      record {
        inner =
            ((λ m. p.apart i m (inl refl)), is, (λ j m n. p.apart j m (inr (inl n))), p.inner, ds);
        outer = dc;
        apart = λ j m k. elim m [
          | inl e ↦ ic (subst (λ x. InContext x c) (sym e) k)
          | inr (inl n) ↦ p.apart j n (inr (inr k))
          | inr (inr n) ↦ sc j n k
        ];
      }

  pub IsSplit-right :
      (i : ℕ) (s : Tree H) (c : Context H) (t : Tree H)
      → IsSplit (right_of i s c) t
      → IsSplit c (branch_at i s t)
  IsSplit-right i s c t p =
      let (is, ic, sc, ds, dc) = p.outer in
      record {
        inner =
            (is, (λ m. p.apart i m (inl refl)), (λ j m n. p.apart j n (inr (inl m))), ds, p.inner);
        outer = dc;
        apart = λ j m k. elim m [
          | inl e ↦ ic (subst (λ x. InContext x c) (sym e) k)
          | inr (inl n) ↦ sc j n k
          | inr (inr n) ↦ p.apart j n (inr (inr k))
        ];
      }

  pub plug-IsDistinct : (c : Context H) (t : Tree H) → IsSplit c t → IsDistinct (plug c t)
  plug-IsDistinct top t p = p.inner
  plug-IsDistinct (left_of i c s) t p = plug-IsDistinct c _ (IsSplit-left i c s t p)
  plug-IsDistinct (right_of i s c) t p = plug-IsDistinct c _ (IsSplit-right i s c t p)

  -- The height of a tree bounds the way to any of its nodes.
  pub depth-le-height : (c : Context H) (t : Tree H) → depth c + height t ≤ height (plug c t)
  depth-le-height top t = omega arith
  depth-le-height (left_of i c s) t = omega (arith, depth-le-height c (branch_at i t s))
  depth-le-height (right_of i s c) t = omega (arith, depth-le-height c (branch_at i s t))

  -- A smaller tree in the hole makes no higher tree.
  pub height-plug_mono :
      (c : Context H) (t u : Tree H) → height t ≤ height u → height (plug c t) ≤ height (plug c u)
  height-plug_mono top t u h = h
  height-plug_mono (left_of i c s) t u h = height-plug_mono c _ _ (omega arith)
  height-plug_mono (right_of i s c) t u h = height-plug_mono c _ _ (omega arith)
