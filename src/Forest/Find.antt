-- ===== src/Forest/Find.antt =====
-- The search for a root, and the rows that can hold one.
use utreexo_core_rpc.Common.{
  ℕ, zero, suc, ◌+◌, ◌/◌, ◌^◌, ◌≤◌, ◌<◌, ◌≡◌, ◌≢◌, refl, subst, ◌∙◌, sym, arith, some, Option-cases,
  inl, inr, ◌==◌, true, false, ℕ_discrete,
}
use utreexo_core_rpc.Common.Bits.{two_pow-suc}
use utreexo_core_rpc.Arena.{ArenaOps}
use utreexo_core_rpc.Forest.{IndexOps, Forest, find_root}
use utreexo_core_rpc.Forest.Tree.{Tree, id_of, In, In-root}
use utreexo_core_rpc.Forest.Stands.{Rows}
use utreexo_core_rpc.Forest.Shapes.{bit_at}
use utreexo_core_rpc.Forest.Add.{IsForest}

-- A set bit of a number below 2 ^ k is below k.
bit_at-lt : (r k n : ℕ) → n < 2 ^ k → bit_at n r ≡ 1 → r < k
bit_at-lt r zero n h e =
    let z : n ≡ 0 = omega arith in
    let one : bit_at 0 r ≡ 1 = subst (λ x. bit_at x r ≡ 1) z e in
    absurd (omega (arith, bit_at-zero r))
  where
    bit_at-zero : (r : ℕ) → bit_at 0 r ≡ 0
    bit_at-zero zero = refl
    bit_at-zero (suc r) = bit_at-zero r
bit_at-lt zero (suc k) n h e = omega arith
bit_at-lt (suc r) (suc k) n h e =
    omega (arith, bit_at-lt r k (n / 2) (omega (arith, two_pow-suc k)) e)

find_root-finds :
    (n from row id : ℕ) (roots : ℕ → ℕ)
    → roots row ≡ id
    → from ≤ row
    → row < from + n
    → ((r : ℕ) → r < row → roots r ≢ id)
    → find_root n from id roots ≡ some row
unfolding find_root
find_root-finds zero from row id roots e low high first = absurd (omega arith)
find_root-finds (suc n) from row id roots e low high first = elim (ℕ_discrete from row) [
  | yes same ↦ let x : (roots from == id) ≡ true = ground arith in rw (x, same)
  | no other ↦
      let x : (roots from == id) ≡ false = ground (arith, first from) in
      rw x (find_root-finds n (from + 1) row id roots e (omega arith) (omega arith) first)
]

module _ {H : Type 0} (parent_hash : H → H → H) (ops : ArenaOps H) (ix : IndexOps ops) where
  module _ {f : Forest parent_hash ops ix} {ts : Rows H} (h : IsForest parent_hash ops ix f ts)
      (row : ℕ) (t : Tree H) (e : ts row ≡ some t) where
    pub row-lt : row < 63
    row-lt = bit_at-lt row 63 f.num_leaves h.bounded (h.fits row t e).0

    -- The root of a row is found there.
    pub find_root-row : find_root 64 0 (id_of t) f.roots ≡ some row
    find_root-row =
        find_root-finds 64 0 row (id_of t) f.roots (h.stands.root row t e) (omega arith)
          (omega (arith, row-lt)) first
      where
        first : (r : ℕ) → r < row → f.roots r ≢ id_of t
        first r lt x = elim (Option-cases (ts r)) [
          | inl n ↦ h.stands.small row t e (id_of t) (In-root t) (sym x ∙ h.stands.no_root r n)
          | inr (u, g) ↦
              let same : id_of u ≡ id_of t = sym (h.stands.root r u g) ∙ x in
              omega (
                arith,
                h.stands.apart r row u t g e (id_of u) (In-root u)
                    (subst (λ y. In y t) (sym same) (In-root t)),
              )
        ]
