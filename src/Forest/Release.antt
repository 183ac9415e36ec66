-- ===== src/Forest/Release.antt =====
-- The end of `DeleteId`: the leaf and its parent are released, and another tree stands in the row.
use mathlib.Core.Path.{fun_ext}
use utreexo_core_rpc.Common.{ℕ, ◌+◌, ◌≡◌, ◌≢◌, subst, ◌∙◌, arith, none, some, inl, inr}
use utreexo_core_rpc.Arena.{no_node, ArenaOps, IsLawful, Released}
use utreexo_core_rpc.Forest.{write_root}
use utreexo_core_rpc.Forest.Tree.{Tree, id_of, In, IsDistinct}
use utreexo_core_rpc.Forest.Represents.{Represents, Represents-frame}
use utreexo_core_rpc.Forest.Stands.{
  Rows, put, kept, Stands, Detached, Stands-frame, Stands-clear, Stands-place,
}

module _ {H : Type 0} (parent_hash : H → H → H) (ops : ArenaOps H) (lawful : IsLawful ops) where
  open ops use {Arena, read, IsValid, IsAvailable, room, release}

  -- `a'` has the tree `new` in the place of the tree `old`, whose other nodes are `i` and `p`.
  pub record Replaced (a a' : Arena) (old new : Tree H) (i p : ℕ) : Type 0 where
    pub frame : (j : ℕ) → ¬ In j old → read a' j ≡ read a j
    pub others : (j : ℕ) → IsAvailable a' j → IsAvailable a j
    pub valid : IsValid a'
    pub same_room : room a' ≡ room a
    pub built : Represents parent_hash (read a') no_node new
    pub distinct : IsDistinct new
    pub inside : (j : ℕ) → In j new → In j old × (i ≢ j) × (p ≢ j)

  module _ {a a' : Arena} {roots : ℕ → ℕ} {ts : Rows H} (s : Stands parent_hash ops a roots ts)
      (row : ℕ) (old new : Tree H) (e : ts row ≡ some old) (i p : ℕ) (i_in : In i old)
      (p_in : In p old) (i_p : i ≢ p) (r : Replaced a a' old new i p) where
    first_Released : Released ops a' i (release i a')
    first_Released = lawful.releases i a' r.valid (λ m. s.held row old e i i_in (r.others i m))

    second_Released : Released ops (release i a') p (release p (release i a'))
    second_Released = lawful.releases p (release i a') first_Released.valid (λ m.
        elim (first_Released.others p m) [
          | inl x ↦ i_p x
          | inr n ↦ s.held row old e p p_in (r.others p n)
        ])

    pub release-room : room (release p (release i a')) ≡ room a + 2
    release-room = omega (arith, first_Released.more_room, second_Released.more_room, r.same_room)

    reads : (j : ℕ) → i ≢ j → p ≢ j → read (release p (release i a')) j ≡ read a' j
    reads j x y = second_Released.reads j y ∙ first_Released.reads j x

    available : (j : ℕ) → i ≢ j → p ≢ j → IsAvailable (release p (release i a')) j → IsAvailable a j
    available j x y m = elim (second_Released.others j m) [
      | inl z ↦ absurd (y z)
      | inr n ↦ elim (first_Released.others j n) [ inl z ↦ absurd (x z) | inr k ↦ r.others j k ]
    ]

    -- The other trees are apart from the old one.
    outside : (q : ℕ) (t : Tree H) → put row none ts q ≡ some t → (j : ℕ) → In j t → ¬ In j old
    outside q t g j m n = let (x, y) = kept ts row q g in y (s.apart row q old t e x j n m)

    off : (q : ℕ) (t : Tree H) → put row none ts q ≡ some t → (j : ℕ) → In j t → (i ≢ j) × (p ≢ j)
    off q t g j m = (
      (λ x. outside q t g j m (subst (λ y. In y old) x i_in)),
      (λ x. outside q t g j m (subst (λ y. In y old) x p_in)),
    )

    pub release-Stands :
        Stands parent_hash ops
          (release p (release i a'))
          (write_root row (id_of new) roots)
          (put row (some new) ts)
    release-Stands =
        rw (roots_same, rows_same) at (Stands-place parent_hash ops framed row new place)
      where
        framed :
            Stands parent_hash ops
              (release p (release i a'))
              (write_root row no_node roots)
              (put row none ts)
        framed =
            Stands-frame parent_hash ops (Stands-clear parent_hash ops s row)
              (λ q t g j m.
                let (x, y) = off q t g j m in reads j x y ∙ r.frame j (outside q t g j m))
              (λ q t g j m n.
                let (x, y) = off q t g j m in
                s.held q t (kept ts row q g).0 j m (available j x y n))
              second_Released.valid

        roots_same :
            write_root row (id_of new) (write_root row no_node roots)
            ≡ write_root row (id_of new) roots
        roots_same = fun_ext λ q. ground arith

        rows_same : put row (some new) (put row none ts) ≡ put row (some new) ts
        rows_same = fun_ext λ q. ground arith

        cleared : put row none (put row none ts) ≡ put row none ts
        cleared = fun_ext λ q. ground arith

        place :
            Detached parent_hash ops (release p (release i a')) (put row none (put row none ts)) new
        place = rw cleared (record {
          built =
              Represents-frame parent_hash no_node new
                (λ j m. let (_, x, y) = r.inside j m in reads j x y) r.built;
          distinct = r.distinct;
          held = λ j m n. let (o, x, y) = r.inside j m in s.held row old e j o (available j x y n);
          small = λ j m. s.small row old e j (r.inside j m).0;
          apart = λ q u g j m n. outside q u g j n (r.inside j m).0;
        })
