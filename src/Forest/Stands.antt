-- ===== src/Forest/Stands.antt =====
-- A row of trees that the arena and the array of roots stand for, and a tree beside them that is in
-- no row.
use utreexo_core_rpc.Common.{
  ℕ, ◌⊎◌, inl, inr, ◌≡◌, ◌≢◌, sym, subst, ◌∙◌, arith, if◌then◌else◌, ◌==◌, ==_iff, Option, none,
  some,
}
use utreexo_core_rpc.Arena.{no_node, ArenaOps}
use utreexo_core_rpc.Forest.{write_root}
use utreexo_core_rpc.Forest.Tree.{Tree, id_of, In, IsDistinct}
use utreexo_core_rpc.Forest.Represents.{Represents, Represents-frame}

abbrev pub Rows : Type 0 → Type 0
Rows H = ℕ → Option (Tree H)

abbrev pub put : {H : Type 0} → ℕ → Option (Tree H) → Rows H → Rows H
put row t ts r = if row == r then t else ts r

pub kept :
    {H : Type 0} (ts : Rows H) (row r : ℕ) {t : Tree H}
    → put row none ts r ≡ some t
    → (ts r ≡ some t) × (row ≢ r)
kept ts row r e = ground (arith, ==_iff row r)

module _ {H : Type 0} (parent_hash : H → H → H) (ops : ArenaOps H) where
  open ops use {Arena, read, IsValid, IsAvailable}

  pub record Stands (a : Arena) (roots : ℕ → ℕ) (ts : Rows H) : Type 0 where
    pub valid : IsValid a
    pub no_root : (r : ℕ) → ts r ≡ none → roots r ≡ no_node
    pub root : (r : ℕ) (t : Tree H) → ts r ≡ some t → roots r ≡ id_of t
    pub built : (r : ℕ) (t : Tree H) → ts r ≡ some t → Represents parent_hash (read a) no_node t
    pub distinct : (r : ℕ) (t : Tree H) → ts r ≡ some t → IsDistinct t
    pub apart :
        (r s : ℕ) (t u : Tree H) → ts r ≡ some t → ts s ≡ some u → (j : ℕ) → In j t → In j u → r ≡ s
    pub held : (r : ℕ) (t : Tree H) → ts r ≡ some t → (j : ℕ) → In j t → ¬ IsAvailable a j
    pub small : (r : ℕ) (t : Tree H) → ts r ≡ some t → (j : ℕ) → In j t → j ≢ no_node

  pub record Detached (a : Arena) (ts : Rows H) (t : Tree H) : Type 0 where
    pub built : Represents parent_hash (read a) no_node t
    pub distinct : IsDistinct t
    pub held : (j : ℕ) → In j t → ¬ IsAvailable a j
    pub small : (j : ℕ) → In j t → j ≢ no_node
    pub apart : (r : ℕ) (u : Tree H) → ts r ≡ some u → (j : ℕ) → In j t → In j u → ⊥

  module _ {a a' : Arena} {roots : ℕ → ℕ} {ts : ℕ → Option (Tree H)} (s : Stands a roots ts)
      (same : (r : ℕ) (t : Tree H) → ts r ≡ some t → (j : ℕ) → In j t → read a' j ≡ read a j)
      (others : (r : ℕ) (t : Tree H) → ts r ≡ some t → (j : ℕ) → In j t → ¬ IsAvailable a' j)
      (valid : IsValid a') where
    pub Stands-frame : Stands a' roots ts
    Stands-frame = record {
      valid = valid;
      no_root = s.no_root;
      root = s.root;
      built = λ r t e. Represents-frame parent_hash no_node t (same r t e) (s.built r t e);
      distinct = s.distinct;
      apart = s.apart;
      held = others;
      small = s.small;
    }

  module _ {a : Arena} {roots : ℕ → ℕ} {ts : ℕ → Option (Tree H)} (s : Stands a roots ts)
      (row : ℕ) where
    pub Stands-clear : Stands a (write_root row no_node roots) (put row none ts)
    Stands-clear = record {
      valid = s.valid;
      no_root = λ r e. ground (arith, ==_iff row r, s.no_root r);
      root = λ r t e. ground (arith, ==_iff row r, s.root r t);
      built = λ r t e. s.built r t (kept ts row r e).0;
      distinct = λ r t e. s.distinct r t (kept ts row r e).0;
      apart = λ r q t u e f. s.apart r q t u (kept ts row r e).0 (kept ts row q f).0;
      held = λ r t e. s.held r t (kept ts row r e).0;
      small = λ r t e. s.small r t (kept ts row r e).0;
    }

    pub Stands-take : (t : Tree H) → ts row ≡ some t → Detached a (put row none ts) t
    Stands-take t e = record {
      built = s.built row t e;
      distinct = s.distinct row t e;
      held = s.held row t e;
      small = s.small row t e;
      apart = λ r u f j m n. (kept ts row r f).1 (s.apart row r t u e (kept ts row r f).0 j m n);
    }

    placed :
        (t : Tree H) (r : ℕ) (u : Tree H)
        → put row (some t) ts r ≡ some u
        → ((row ≡ r) × (t ≡ u)) ⊎ ((row ≢ r) × (ts r ≡ some u))
    placed t r u e = ground (arith, ==_iff row r)

    other : (r : ℕ) (u : Tree H) → row ≢ r → ts r ≡ some u → put row none ts r ≡ some u
    other r u n e = ground (arith, ==_iff row r)

    pub Stands-place :
        (t : Tree H)
        → Detached a (put row none ts) t
        → Stands a (write_root row (id_of t) roots) (put row (some t) ts)
    Stands-place t d = record {
      valid = s.valid;
      no_root = λ r e. ground (arith, ==_iff row r, s.no_root r);
      root = λ r u e. ground (arith, placed t r u e, s.root r u);
      built = λ r u e. elim (placed t r u e) [
        | inl (_, f) ↦ subst (λ x. Represents parent_hash (read a) no_node x) f d.built
        | inr (_, f) ↦ s.built r u f
      ];
      distinct = λ r u e. elim (placed t r u e) [
        | inl (_, f) ↦ subst IsDistinct f d.distinct
        | inr (_, f) ↦ s.distinct r u f
      ];
      apart = λ r q u v e f j m n. elim (placed t r u e) [
        | inl (er, fr) ↦ elim (placed t q v f) [
          | inl (eq, _) ↦ sym er ∙ eq
          | inr (eq, fq) ↦
              absurd (d.apart q v (other q v eq fq) j (subst (λ x. In j x) (sym fr) m) n)
        ]
        | inr (er, fr) ↦ elim (placed t q v f) [
          | inl (_, fq) ↦
              absurd (d.apart r u (other r u er fr) j (subst (λ x. In j x) (sym fq) n) m)
          | inr (_, fq) ↦ s.apart r q u v fr fq j m n
        ]
      ];
      held = λ r u e j m. elim (placed t r u e) [
        | inl (_, f) ↦ d.held j (subst (λ x. In j x) (sym f) m)
        | inr (_, f) ↦ s.held r u f j m
      ];
      small = λ r u e j m. elim (placed t r u e) [
        | inl (_, f) ↦ d.small j (subst (λ x. In j x) (sym f) m)
        | inr (_, f) ↦ s.small r u f j m
      ];
    }
