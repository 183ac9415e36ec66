-- ===== src/Transaction/Positions/Proved.antt =====
-- What `NativeProofPositions` of src/transaction_wire.cpp has checked, and what it gives.
use utreexo_core_rpc.Common.{
  ℕ, zero, suc, ◌+◌, ◌-◌, ◌^◌, ◌≤◌, ◌<◌, ◌≡◌, refl, sym, ap, subst, inl, inr, arith, not,
  Bool-cases, List, [], ◌∷◌, All, Among, Distinct, ltb, ◌==◌, length,
}
use utreexo_core_rpc.Result.{ok, refuse-eq-ok, >>=-eq-ok, ok-injective}
use utreexo_core_rpc.Position.{bit_width}
use utreexo_core_rpc.Position.Rows.{two_pow-le}
use utreexo_core_rpc.Position.Size.{bit_width-bounds}
use utreexo_core_rpc.Udata.{Proof}
use utreexo_core_rpc.Transaction.{sort}
use utreexo_core_rpc.Transaction.Unique.{sort-All}
use utreexo_core_rpc.Transaction.Positions.{
  rows_of, intervals, sort_intervals, overlaps, merge_rows, native_proof_positions,
}
use utreexo_core_rpc.Transaction.Positions.Spans.{intervals-Distinct}
use utreexo_core_rpc.Transaction.Positions.Siblings.{
  IsAncestor, IsSibling, merge_rows-Siblings, targets-Ancestors,
}

-- The positions that a proof in a forest of `num_leaves` leaves needs: one for each hash, each the
-- sibling of a target or of an ancestor of one; and distinct targets inside the forest.
pub record Proved (proof : Proof) (num_leaves : ℕ) (found : List ℕ) : Type 0 where
  pub few : rows_of num_leaves ≤ 63
  pub inside : All (λ t. t + 1 < 2 ^ suc (rows_of num_leaves)) proof.targets
  pub distinct : Distinct proof.targets
  pub siblings : All (IsSibling (rows_of num_leaves) proof.targets) found
  pub counted : length found ≡ length proof.hashes
  pub none_needed : length proof.targets ≡ 0 → length found ≡ 0

rows_of-le : (num_leaves : ℕ) → num_leaves ≤ 2 ^ 63 → rows_of num_leaves ≤ 63
unfolding rows_of bit_width
rows_of-le num_leaves h = elim (Bool-cases (num_leaves == 0)) [
  | inl y ↦ rw y (omega arith)
  | inr n ↦ elim (Bool-cases (num_leaves == 1)) [
    | inl y ↦
        let one : num_leaves - 1 ≡ 0 = ground (arith, y) in
        rw (n, one) (ap_zero (bit_width 64 0) refl)
    | inr more ↦
        let (_, above) =
          bit_width-bounds 64 (num_leaves - 1) (ground (arith, n, more)) (omega arith) in
        rw n (below (bit_width 64 (num_leaves - 1)) (omega arith))
  ]
]
  where
    ap_zero : (b : ℕ) → b ≡ 0 → b ≤ 63
    ap_zero b e = omega arith

    below : (b : ℕ) → 2 ^ b < 2 ^ 64 → b ≤ 63
    below b small = elim (Bool-cases (ltb b 64)) [
      | inl y ↦ ground (arith, y)
      | inr high ↦
          let le : 64 ≤ b = ground (arith, high) in
          let grown = two_pow-le 64 b le in absurd (omega arith)
    ]

All-Among : (ts us : List ℕ) → ((t : ℕ) → Among t ts → Among t us) → All (λ t. Among t us) ts
All-Among [] us within = tt
All-Among (t ∷ ts) us within = (within t (inl refl), All-Among ts us (λ u m. within u (inr m)))

nothing-needed :
    (n rows num_leaves : ℕ) (targets needed : List ℕ)
    → length targets ≡ 0
    → merge_rows n rows num_leaves 0 (sort targets) [] ≡ ok needed
    → length needed ≡ 0
unfolding merge_rows sort
nothing-needed zero rows num_leaves [] needed z e = ap (λ xs. length xs) (sym (ok-injective e))
nothing-needed (suc n) rows num_leaves [] needed z e = ap (λ xs. length xs) (sym (ok-injective e))
nothing-needed n rows num_leaves (t ∷ ts) needed z e = absurd (omega arith)

pub native_proof_positions-Proved :
    (proof : Proof) (num_leaves : ℕ) (found : List ℕ)
    → native_proof_positions proof num_leaves ≡ ok found
    → Proved proof num_leaves found
unfolding native_proof_positions
native_proof_positions-Proved proof num_leaves found e =
    let rows = rows_of num_leaves in
    let (bounded, e₁) = refuse-eq-ok (ltb (2 ^ 63) num_leaves) _ _ _ e in
    let small : num_leaves ≤ 2 ^ 63 = ground (arith, bounded) in
    let few = rows_of-le num_leaves small in
    let (spans, spanned, e₂) = >>=-eq-ok (intervals rows num_leaves proof.targets) _ _ e₁ in
    let (apart, e₃) = refuse-eq-ok (overlaps (sort_intervals spans)) _ _ _ e₂ in
    let (inside, distinct) =
      intervals-Distinct rows num_leaves proof.targets spans small spanned apart in
    let (needed, merged, e₄) =
      >>=-eq-ok (merge_rows (rows + 1) rows num_leaves 0 (sort proof.targets) []) _ _ e₃ in
    let (many, e₅) = refuse-eq-ok (not (length needed == length proof.hashes)) _ _ _ e₄ in
    let ancestors =
      targets-Ancestors rows few proof.targets proof.targets
        (All-Among proof.targets proof.targets (λ t m. m)) in
    subst (Proved proof num_leaves) (ok-injective e₅) (record {
      few = few;
      inside = inside;
      distinct = distinct;
      siblings =
          merge_rows-Siblings rows few proof.targets (rows + 1) num_leaves 0 (sort proof.targets) []
            needed (sort-All (IsAncestor rows proof.targets) proof.targets ancestors) tt merged;
      counted = ground (arith, many);
      none_needed = λ z. nothing-needed (rows + 1) rows num_leaves proof.targets needed z merged;
    })
