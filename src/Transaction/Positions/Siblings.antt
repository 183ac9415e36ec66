-- ===== src/Transaction/Positions/Siblings.antt =====
-- What `NativeProofPositions` of src/transaction_wire.cpp asks for: siblings on the way up from the
-- targets.
use utreexo_core_rpc.Common.{
  ℕ, zero, suc, ◌+◌, ◌-◌, ◌/◌, ◌%◌, ◌^◌, ◌≤◌, ◌≡◌, refl, subst, inl, inr, bit_and, bit_or, bit_xor,
  Bool, true, false, ◌&&◌, not, Bool-cases, List, [], ◌∷◌, ◌++◌, All, All-append, Among, leb, ◌==◌,
  length,
}
use utreexo_core_rpc.Result.{ok, >>=-eq-ok, ok-injective}
use utreexo_core_rpc.Position.{parent}
use utreexo_core_rpc.Position.Rows.{small_power}
use utreexo_core_rpc.Transaction.{max_hashes, sort}
use utreexo_core_rpc.Transaction.Unique.{sort-All}
use utreexo_core_rpc.Transaction.Positions.{
  row_start, row_of, Merge, is_sibling, skip_sibling, need_sibling, merge_row, merge_rows,
}

-- A target, or the parent of an ancestor.
pub data IsAncestor (rows : ℕ) (targets : List ℕ) : ℕ → Type 0 where
  target : (p : ℕ) → Among p targets → IsAncestor rows targets p
  above : (p : ℕ) → IsAncestor rows targets p → IsAncestor rows targets (parent p rows)

-- The other child of an ancestor's parent.
pub record IsSibling (rows : ℕ) (targets : List ℕ) (q : ℕ) : Type 0 where
  pub node : ℕ
  pub ancestor : IsAncestor rows targets node
  pub sibling : q ≡ bit_xor node 1

module _ (rows : ℕ) (few : rows ≤ 63) (targets : List ℕ) where
  abbrev Ancestors : List ℕ → Type 0
  Ancestors = All (IsAncestor rows targets)

  abbrev Siblings : List ℕ → Type 0
  Siblings = All (IsSibling rows targets)

  need_sibling-Siblings :
      (pos : ℕ) (later needed needed' : List ℕ)
      → IsAncestor rows targets pos
      → Siblings needed
      → need_sibling pos later needed ≡ ok needed'
      → Siblings needed'
  unfolding need_sibling
  need_sibling-Siblings pos later needed needed' a s e =
      elim (Bool-cases (is_sibling (bit_xor pos 1) later)) [
        | inl there ↦ subst Siblings (ok-injective (rw there at e)) s
        | inr missing ↦ elim (Bool-cases (leb max_hashes (length needed))) [
          | inl full ↦ let wrong = rw (missing, full) at e in cc
          | inr room ↦ subst Siblings (ok-injective (rw (missing, room) at e)) (
              All-append (IsSibling rows targets) needed (bit_xor pos 1 ∷ []) s
                (record { node = pos; ancestor = a; sibling = refl }, tt))
        ]
      ]

  skip_sibling-Ancestors : (b : Bool) (qs : List ℕ) → Ancestors qs → Ancestors (skip_sibling b qs)
  skip_sibling-Ancestors true [] h = h
  skip_sibling-Ancestors true (q ∷ qs) h = h.1
  skip_sibling-Ancestors false qs h = h

  parent-Ancestor :
      (pos : ℕ)
      → IsAncestor rows targets pos
      → IsAncestor rows targets (bit_or (pos / 2) (2 ^ rows))
  unfolding parent
  parent-Ancestor pos a =
      subst (λ m. IsAncestor rows targets (bit_or (pos / 2) m)) (small_power rows few) (above pos a)

  add-Ancestors :
      (next : List ℕ) (p : ℕ)
      → Ancestors next
      → IsAncestor rows targets p
      → Ancestors (next ++ p ∷ [])
  add-Ancestors next p h a = All-append (IsAncestor rows targets) next (p ∷ []) h (a, tt)

  abbrev Merged : Merge → Type 0
  Merged m = Ancestors m.next × Siblings m.needed

  merge_row-Merged :
      (fuel num_leaves row : ℕ) (pending : List ℕ) (m m' : Merge)
      → Ancestors pending
      → Merged m
      → merge_row fuel rows num_leaves row pending m ≡ ok m'
      → Merged m'
  unfolding merge_row
  merge_row-Merged zero num_leaves row [] m m' h g e = subst Merged (ok-injective e) g
  merge_row-Merged (suc fuel) num_leaves row [] m m' h g e = subst Merged (ok-injective e) g
  merge_row-Merged zero num_leaves row (pos ∷ later) m m' h g e = subst Merged (ok-injective e) g
  merge_row-Merged (suc fuel) num_leaves row (pos ∷ later) m m' (a, h) g e =
      elim (Bool-cases (not (row_of pos rows == row))) [
        | inl other ↦
            merge_row-Merged fuel num_leaves row later (record m { next = m.next ++ pos ∷ [] }) m' h
              (add-Ancestors m.next pos g.0 a, g.1) (rw other at e)
        | inr here ↦
            elim (Bool-cases (
              bit_and (num_leaves / 2 ^ row) 1 == 1
              && (pos + 2 ^ 64 - row_start row rows) % 2 ^ 64 == num_leaves / 2 ^ row - 1)) [
                | inl root ↦
                    merge_row-Merged fuel num_leaves row later m m' h g (rw (here, root) at e)
                | inr inner ↦
                    let (needed, asked, e₁) =
                      >>=-eq-ok (need_sibling pos later m.needed) _ _ (rw (here, inner) at e) in
                    merge_row-Merged fuel num_leaves row
                      (skip_sibling (is_sibling (bit_xor pos 1) later) later)
                      (record {
                        next = m.next ++ bit_or (pos / 2) (2 ^ rows) ∷ [];
                        needed = needed;
                      })
                      m' (skip_sibling-Ancestors (is_sibling (bit_xor pos 1) later) later h)
                      (
                        add-Ancestors m.next (bit_or (pos / 2) (2 ^ rows)) g.0
                            (parent-Ancestor pos a),
                        need_sibling-Siblings pos later m.needed needed a g.1 asked,
                      )
                      e₁
              ]
      ]

  pub merge_rows-Siblings :
      (n num_leaves row : ℕ) (pending needed needed' : List ℕ)
      → Ancestors pending
      → Siblings needed
      → merge_rows n rows num_leaves row pending needed ≡ ok needed'
      → Siblings needed'
  unfolding merge_rows
  merge_rows-Siblings zero num_leaves row [] needed needed' h s e =
      subst Siblings (ok-injective e) s
  merge_rows-Siblings (suc n) num_leaves row [] needed needed' h s e =
      subst Siblings (ok-injective e) s
  merge_rows-Siblings zero num_leaves row (p ∷ pending) needed needed' h s e =
      subst Siblings (ok-injective e) s
  merge_rows-Siblings (suc n) num_leaves row (p ∷ pending) needed needed' h s e =
      let (m, merged, e₁) =
        >>=-eq-ok
          (merge_row (length (p ∷ pending)) rows num_leaves row (p ∷ pending)
            (record { next = []; needed = needed }))
          _ _ e in
      let (next, asked) =
        merge_row-Merged (length (p ∷ pending)) num_leaves row (p ∷ pending)
          (record { next = []; needed = needed }) m h (tt, s) merged in
      merge_rows-Siblings n num_leaves (row + 1) (sort m.next) m.needed needed'
        (sort-All (IsAncestor rows targets) m.next next) asked e₁

  pub targets-Ancestors : (ts : List ℕ) → All (λ t. Among t targets) ts → Ancestors ts
  targets-Ancestors [] h = tt
  targets-Ancestors (t ∷ ts) (m, h) = (target t m, targets-Ancestors ts h)
