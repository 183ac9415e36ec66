-- ===== src/Forest/Join.antt =====
-- One carry of `Add`.
use utreexo_core_rpc.Common.{
  ℕ, ◌+◌, ◌≤◌, ◌<◌, inl, inr, ◌≡◌, ◌≢◌, refl, sym, subst, ◌∙◌, arith, if◌then◌else◌, ◌==◌, ==_iff,
  false, none, some, Option-cases,
}
use utreexo_core_rpc.Result.{Returns}
use utreexo_core_rpc.Arena.{
  no_node, branch, fresh_record, ArenaOps, IsLawful, Allocated, set_parent,
}
use utreexo_core_rpc.Forest.{IndexOps, join, write_root}
use utreexo_core_rpc.Forest.Tree.{Tree, branch_at, shape_of, id_of, In, height, In-root}
use utreexo_core_rpc.Forest.Represents.{hash_of, Represents, Represents-hash, Represents-reparent}
use utreexo_core_rpc.Forest.Shapes.{join_shape, shape_at}
use utreexo_core_rpc.Forest.Stands.{Rows, put, Stands, Detached, Stands-frame, Stands-clear, kept}

module _ {H : Type 0} (parent_hash : H → H → H) (ops : ArenaOps H) (ix : IndexOps ops)
    (lawful : IsLawful ops) where
  open ops use {Arena, read, IsValid, IsAvailable, room}

  pub record Joined (a : Arena) (roots : ℕ → ℕ) (ts : Rows H) (row : ℕ) (t : Tree H) (p : ℕ × Arena)
      : Type 0 where
    pub tree : Tree H
    pub top : p.0 ≡ id_of tree
    pub stands : Stands parent_hash ops p.1 (write_root row no_node roots) (put row none ts)
    pub detached : Detached parent_hash ops p.1 (put row none ts) tree
    pub shape : shape_of tree ≡ join_shape (shape_at (ts row)) (shape_of t)
    pub low :
        (n : ℕ)
        → height t ≤ n
        → ((u : Tree H) → ts row ≡ some u → height u ≤ n)
        → height tree ≤ n + 1
    pub enough_room : room a ≤ room p.1 + 1

  module _ {a : Arena} {roots : ℕ → ℕ} {ts : Rows H} (row : ℕ) (t : Tree H)
      (s : Stands parent_hash ops a roots ts) (d : Detached parent_hash ops a ts t) where
    join-none :
        ts row ≡ none
        → Returns (join parent_hash ops ix (roots row) (id_of t) a) (Joined a roots ts row t)
    unfolding join
    join-none e = (
      (id_of t, a),
      ground (arith, s.no_root row e),
      record {
        tree = t;
        top = refl;
        stands = Stands-clear parent_hash ops s row;
        detached = record {
          built = d.built;
          distinct = d.distinct;
          held = d.held;
          small = d.small;
          apart = λ r u f j m n. d.apart r u (ground (arith, ==_iff row r)) j m n;
        };
        shape = rw e refl;
        low = λ n h k. omega arith;
        enough_room = omega arith;
      },
    )

    -- The tree of the row and the carried tree under a new branch.
    module _ (u : Tree H) (e : ts row ≡ some u) (b : ℕ) (a₁ : Arena)
        (al : Allocated ops
          (fresh_record branch
            (parent_hash (hash_of parent_hash u) (hash_of parent_hash t))
            (id_of u)
            (id_of t))
          a
          b
          a₁) where
      abbrev a₂ : Arena
      a₂ = set_parent ops (id_of u) b a₁

      abbrev a₃ : Arena
      a₃ = set_parent ops (id_of t) b a₂

      reads₃ :
          (j : ℕ)
          → j ≢ b
          → read a₃ j ≡ (
              if id_of t == j
              then record (if id_of u == j then record (read a j) { parent = b } else read a j) {
                parent = b;
              }
              else if id_of u == j
              then record (read a j) { parent = b }
              else read a j)
      reads₃ j n =
          let p = lawful.updates (id_of u) (λ r. record r { parent = b }) a₁ al.valid in
          let q = lawful.updates (id_of t) (λ r. record r { parent = b }) a₂ p.valid in
          ground (arith, q.reads j, p.reads j, al.reads j)

      b_fresh : (r : ℕ) (v : Tree H) → ts r ≡ some v → (j : ℕ) → In j v → j ≢ b
      b_fresh r v f j m x = s.held r v f j m (subst (λ y. IsAvailable a y) (sym x) al.fresh)

      b_fresh_t : (j : ℕ) → In j t → j ≢ b
      b_fresh_t j m x = d.held j m (subst (λ y. IsAvailable a y) (sym x) al.fresh)

      u_t : (j : ℕ) → In j u → id_of t ≢ j
      u_t j m x = d.apart row u e j (subst (λ y. In y t) x (In-root t)) m

      t_u : (j : ℕ) → In j t → id_of u ≢ j
      t_u j m x = d.apart row u e j m (subst (λ y. In y u) x (In-root u))

      valid₃ : IsValid a₃
      valid₃ =
          (lawful.updates (id_of t) (λ r. record r { parent = b }) a₂
            (lawful.updates (id_of u) (λ r. record r { parent = b }) a₁ al.valid).valid).valid

      others₃ : (j : ℕ) → IsAvailable a₃ j → IsAvailable a₁ j
      others₃ j m =
          let p = lawful.updates (id_of u) (λ r. record r { parent = b }) a₁ al.valid in
          p.others j
            ((lawful.updates (id_of t) (λ r. record r { parent = b }) a₂ p.valid).others j m)

      room₃ : room a₃ ≡ room a₁
      room₃ =
          let p = lawful.updates (id_of u) (λ r. record r { parent = b }) a₁ al.valid in
          (lawful.updates (id_of t) (λ r. record r { parent = b }) a₂ p.valid).same_room
          ∙ p.same_room

      joined-Stands : Stands parent_hash ops a₃ (write_root row no_node roots) (put row none ts)
      joined-Stands =
          Stands-frame parent_hash ops (Stands-clear parent_hash ops s row)
            (λ r v f j m.
              let (g, n) = kept ts row r f in
              ground (arith, reads₃ j (b_fresh r v g j m), u_row r v n g j m, t_row r v g j m))
            (λ r v f j m n. s.held r v (kept ts row r f).0 j m (al.others j (others₃ j n))) valid₃
        where
          u_row : (r : ℕ) (v : Tree H) → row ≢ r → ts r ≡ some v → (j : ℕ) → In j v → id_of u ≢ j
          u_row r v n g j m x = n (s.apart row r u v e g j (subst (λ y. In y u) x (In-root u)) m)

          t_row : (r : ℕ) (v : Tree H) → ts r ≡ some v → (j : ℕ) → In j v → id_of t ≢ j
          t_row r v g j m x = d.apart r v g j (subst (λ y. In y t) x (In-root t)) m

      read_b :
          read a₃ b
          ≡ fresh_record branch
              (parent_hash (hash_of parent_hash u) (hash_of parent_hash t))
              (id_of u)
              (id_of t)
      read_b =
          let p = lawful.updates (id_of u) (λ r. record r { parent = b }) a₁ al.valid in
          let q = lawful.updates (id_of t) (λ r. record r { parent = b }) a₂ p.valid in
          let nt = b_fresh_t (id_of t) (In-root t) in
          let nu = b_fresh row u e (id_of u) (In-root u) in
          ground (arith, q.reads b, p.reads b, al.reads b)

      joined_built : Represents parent_hash (read a₃) no_node (branch_at b u t)
      joined_built = (
        rw read_b (record { parent_eq = refl; left_eq = refl; right_eq = refl; type_eq = refl }),
        rw read_b refl,
        Represents-reparent parent_hash (read a) (read a₃) no_node b u (s.distinct row u e)
            (λ j m. ground (arith, reads₃ j (b_fresh row u e j m), u_t j m)) (s.built row u e),
        Represents-reparent parent_hash (read a) (read a₃) no_node b t d.distinct
            (λ j m. ground (arith, reads₃ j (b_fresh_t j m), t_u j m)) d.built,
      )

      -- The ids of the new tree, by the place they come from.
      new_ids :
          (P : ℕ → Type 0)
          → P b
          → ((j : ℕ) → In j u → P j)
          → ((j : ℕ) → In j t → P j)
          → (j : ℕ) → In j (branch_at b u t)
          → P j
      new_ids P pb pu pt j (inl x) = subst P x pb
      new_ids P pb pu pt j (inr (inl m)) = pu j m
      new_ids P pb pu pt j (inr (inr m)) = pt j m

      joined-Detached : Detached parent_hash ops a₃ (put row none ts) (branch_at b u t)
      joined-Detached = record {
        built = joined_built;
        distinct = (
          (λ m. b_fresh row u e b m refl),
          (λ m. b_fresh_t b m refl),
          (λ j m n. d.apart row u e j n m),
          s.distinct row u e,
          d.distinct,
        );
        held =
            new_ids (λ j. ¬ IsAvailable a₃ j) (λ m. al.taken (others₃ b m))
              (λ j m n. s.held row u e j m (al.others j (others₃ j n)))
              (λ j m n. d.held j m (al.others j (others₃ j n)));
        small = new_ids (λ j. j ≢ no_node) (λ x. omega (arith, al.small)) (s.small row u e) d.small;
        apart = λ r v f.
            let (g, n) = kept ts row r f in
            new_ids (λ j. In j v → ⊥) (λ m. b_fresh r v g b m refl)
              (λ j m k. n (s.apart row r u v e g j m k)) (λ j m k. d.apart r v g j m k);
      }

    join-some :
        (u : Tree H)
        → ts row ≡ some u
        → 0 < room a
        → Returns (join parent_hash ops ix (roots row) (id_of t) a) (Joined a roots ts row t)
    unfolding join
    join-some u e more =
        let ((b, a₁), run, al) =
          lawful.allocates branch (parent_hash (hash_of parent_hash u) (hash_of parent_hash t))
            (id_of u) (id_of t) a s.valid more in
        let root = s.root row u e in
        let n : (id_of u == no_node) ≡ false =
          ground (arith, s.small row u e (id_of u) (In-root u)) in
        let hu = Represents-hash parent_hash (read a) no_node u (s.built row u e) in
        let ht = Represents-hash parent_hash (read a) no_node t d.built in
        (
          (b, a₃ u e b a₁ al),
          rw (root, n, hu, ht, run),
          record {
            tree = branch_at b u t;
            top = refl;
            stands = joined-Stands u e b a₁ al;
            detached = joined-Detached u e b a₁ al;
            shape = rw e refl;
            low = λ k h g. omega (arith, g u e);
            enough_room = omega (arith, room₃ u e b a₁ al, al.less_room);
          },
        )

    -- A carry gives a tree in no row, of the specified shape, and empties the row.
    pub join-Joined :
        0 < room a
        → Returns (join parent_hash ops ix (roots row) (id_of t) a) (Joined a roots ts row t)
    join-Joined more = elim (Option-cases (ts row)) [
      | inl e ↦ join-none e
      | inr (u, e) ↦ join-some u e more
    ]
