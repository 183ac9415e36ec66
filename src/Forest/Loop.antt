-- ===== src/Forest/Loop.antt =====
-- The loop of `Add` against its specification.
use mathlib.Core.Path.{fun_ext}
use utreexo_core_rpc.Common.{
  ℕ, zero, suc, ◌+◌, ◌/◌, ◌%◌, ◌^◌, ◌≤◌, ◌<◌, inl, inr, ◌≡◌, refl, ◌∙◌, arith, ◌==◌, ==_iff, true,
  false, none, some, Bool-cases,
}
use utreexo_core_rpc.Common.Bits.{bit_and-one, two_pow-suc}
use utreexo_core_rpc.Result.{ok, Returns}
use utreexo_core_rpc.Arena.{no_node, ArenaOps, IsLawful}
use utreexo_core_rpc.Forest.{IndexOps, join, add_loop, write_root}
use utreexo_core_rpc.Forest.Tree.{Tree, shape_of, id_of, height}
use utreexo_core_rpc.Forest.Stands.{Rows, put, Stands, Detached, Stands-place, kept}
use utreexo_core_rpc.Forest.Join.{Joined, join-Joined}
use utreexo_core_rpc.Forest.Shapes.{
  shapes, write_shape, insert_shape, insert-even, bit_at, trailing_ones,
}

module _ {H : Type 0} (parent_hash : H → H → H) (ops : ArenaOps H) (ix : IndexOps ops)
    (lawful : IsLawful ops) where
  open ops use {Arena, read, IsValid, IsAvailable, room}

  -- A tree stands only in a row whose bit is set, and is no higher than the row.
  abbrev pub Fits : ℕ → ℕ → Rows H → Type 0
  Fits row leaves ts =
      (k : ℕ) (v : Tree H) → ts (row + k) ≡ some v → (bit_at leaves k ≡ 1) × (height v ≤ row + k)

  pub record Ended (fuel leaves row : ℕ) (ts : Rows H) (t : Tree H) (p : ℕ × ℕ × Arena × (ℕ → ℕ))
      : Type 0 where
    pub rows : Rows H
    pub stands : Stands parent_hash ops p.2 (write_root p.0 p.1 p.3) rows
    pub earlier : (r : ℕ) → r < row → rows r ≡ ts r
    pub fits : Fits row (leaves + 1) rows
    pub shape : (r : ℕ) → shapes rows r ≡ insert_shape fuel leaves row (shapes ts) (shape_of t) r

  module _ (leaves row : ℕ) (ts : Rows H) (t : Tree H) (a : Arena) (roots : ℕ → ℕ)
      (s : Stands parent_hash ops a roots ts) (d : Detached parent_hash ops a ts t)
      (low : height t ≤ row) (fits : Fits row leaves ts) where
    -- the row is free
    last_round : (fuel : ℕ) → leaves % 2 ≡ 0 → Ended fuel leaves row ts t (row, id_of t, a, roots)
    last_round fuel even = record {
      rows = put row (some t) ts;
      stands = Stands-place parent_hash ops s row t (record {
        built = d.built;
        distinct = d.distinct;
        held = d.held;
        small = d.small;
        apart = λ r u f j m n. d.apart r u (kept ts row r f).0 j m n;
      });
      earlier = λ r h. ground (arith, ==_iff row r);
      fits = last_fits;
      shape = λ r. rw (insert-even fuel leaves row (shapes ts) (shape_of t) even) (ground arith);
    }
      where
        last_fits : Fits row (leaves + 1) (put row (some t) ts)
        last_fits zero v e =
            let same : v ≡ t = ground (arith, ==_iff row (row + 0)) in
            (omega arith, rw same (omega arith))
        last_fits (suc k) v e =
            let e' : ts (row + suc k) ≡ some v = ground (arith, ==_iff row (row + suc k)) in
            let half : (leaves + 1) / 2 ≡ leaves / 2 = omega arith in
            (rw half (fits (suc k) v e').0, (fits (suc k) v e').1)

    -- the tree of the row is joined to the new tree, and the loop goes on above it
    carry_round :
        (fuel : ℕ) {q : ℕ × Arena} {p : ℕ × ℕ × Arena × (ℕ → ℕ)}
        → leaves % 2 ≡ 1
        → (j : Joined parent_hash ops ix lawful a roots ts row t q)
        → Ended fuel (leaves / 2) (row + 1) (put row none ts) j.tree p
        → Ended (suc fuel) leaves row ts t p
    unfolding insert_shape
    carry_round fuel odd j en = record {
      rows = en.rows;
      stands = en.stands;
      earlier = λ r h. en.earlier r (omega arith) ∙ ground (arith, ==_iff row r);
      fits = carry_fits;
      shape = λ r. en.shape r ∙ rw (cleared, j.shape, not_even) refl;
    }
      where
        cleared : shapes (put row none ts) ≡ write_shape row none (shapes ts)
        cleared = fun_ext λ r. ground arith

        not_even : (leaves % 2 == 0) ≡ false
        not_even = ground arith

        emptied : en.rows row ≡ none
        emptied = en.earlier row (omega arith) ∙ ground (arith, ==_iff row row)

        carry_fits : Fits row (leaves + 1) en.rows
        carry_fits zero v e =
            let e' : en.rows row ≡ some v = let x : row + 0 ≡ row = omega arith in rw x at e in
            cc (emptied, e')
        carry_fits (suc k) v e =
            let x : row + suc k ≡ row + 1 + k = omega arith in
            let half : (leaves + 1) / 2 ≡ leaves / 2 + 1 = omega arith in
            let f = en.fits k v (rw x at e) in (rw half f.0, omega (arith, f.1))

  Fits-above :
      (row leaves : ℕ) (ts : Rows H)
      → Fits row leaves ts
      → Fits (row + 1) (leaves / 2) (put row none ts)
  Fits-above row leaves ts fits k v e =
      let x : row + 1 + k ≡ row + suc k = omega arith in
      let e' : ts (row + suc k) ≡ some v = rw x at (kept ts row (row + 1 + k) e).0 in
      (((fits (suc k) v e').0), omega (arith, (fits (suc k) v e').1))

  loop_step :
      (fuel leaves row node : ℕ) (a : Arena) (roots : ℕ → ℕ) (q : ℕ × Arena)
      (p : ℕ × ℕ × Arena × (ℕ → ℕ))
      → (leaves % 2 == 0) ≡ false
      → join parent_hash ops ix (roots row) node a ≡ ok q
      → add_loop parent_hash ops ix fuel
          (leaves / 2)
          (row + 1)
          q.0
          q.1
          (write_root row no_node roots)
        ≡ ok p
      → add_loop parent_hash ops ix (suc fuel) leaves row node a roots ≡ ok p
  unfolding add_loop
  loop_step fuel leaves row node a roots q p odd run later = rw (bit_and-one leaves, odd, run) later

  loop_zero :
      (leaves row node : ℕ) (a : Arena) (roots : ℕ → ℕ)
      → add_loop parent_hash ops ix zero leaves row node a roots ≡ ok (row, node, a, roots)
  unfolding add_loop
  loop_zero leaves row node a roots = refl

  loop_end :
      (fuel leaves row node : ℕ) (a : Arena) (roots : ℕ → ℕ)
      → (leaves % 2 == 0) ≡ true
      → add_loop parent_hash ops ix (suc fuel) leaves row node a roots ≡ ok (row, node, a, roots)
  unfolding add_loop
  loop_end fuel leaves row node a roots even = rw (bit_and-one leaves, even)

  -- The loop ends with the new tree's place found, and the rows as specified.
  pub add_loop-Ended :
      (fuel leaves row : ℕ) (ts : Rows H) (t : Tree H) (a : Arena) (roots : ℕ → ℕ)
      → Stands parent_hash ops a roots ts
      → Detached parent_hash ops a ts t
      → height t ≤ row
      → Fits row leaves ts
      → leaves < 2 ^ fuel
      → trailing_ones fuel leaves ≤ room a
      → Returns
          (add_loop parent_hash ops ix fuel leaves row (id_of t) a roots)
          (Ended fuel leaves row ts t)
  unfolding trailing_ones
  add_loop-Ended zero leaves row ts t a roots s d low fits bound enough = (
    _,
    loop_zero leaves row (id_of t) a roots,
    last_round leaves row ts t a roots s d low fits zero (omega arith),
  )
  add_loop-Ended (suc fuel) leaves row ts t a roots s d low fits bound enough =
      elim (Bool-cases (leaves % 2 == 0)) [
        | inl even ↦ (
          _,
          loop_end fuel leaves row (id_of t) a roots even,
          last_round leaves row ts t a roots s d low fits (suc fuel) (ground arith),
        )
        | inr odd ↦
            let ones : suc (trailing_ones fuel (leaves / 2)) ≤ room a = rw odd at enough in
            let (q, run, j) = join-Joined parent_hash ops ix lawful row t s d (omega arith) in
            let carried =
              j.low row low
                (λ u e. let x : row + 0 ≡ row = omega arith in rw x at (fits 0 u (rw x e)).1) in
            let (p, later, en) =
              add_loop-Ended fuel (leaves / 2) (row + 1) (put row none ts) j.tree q.1
                (write_root row no_node roots) j.stands j.detached carried
                (Fits-above row leaves ts fits) (omega (arith, two_pow-suc fuel))
                (omega (arith, j.enough_room)) in
            (
              p,
              loop_step fuel leaves row (id_of t) a roots q p odd run (rw j.top later),
              carry_round leaves row ts t a roots s d low fits fuel (ground arith) j en,
            )
      ]
