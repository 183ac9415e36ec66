-- ===== src/Transaction/Positions/Places.antt =====
-- `WirePosition` of src/transaction_wire.cpp on different positions.
use utreexo_core_rpc.Common.{
  ℕ, zero, suc, ◌+◌, ◌-◌, ◌^◌, ◌≤◌, ◌<◌, ◌≡◌, refl, sym, ap, ◌∙◌, inl, inr, arith, ltb, Bool-cases,
  List, [], ◌∷◌, All, Among, Distinct,
}
use utreexo_core_rpc.Common.Bits.{two_pow-suc, two_pow-pos}
use utreexo_core_rpc.Position.Rows.{row_start, row_size}
use utreexo_core_rpc.Transaction.{padding}
use utreexo_core_rpc.Transaction.Unique.{IsUnique}
use utreexo_core_rpc.Transaction.Positions.{wire_position}
use utreexo_core_rpc.Transaction.Positions.Rows.{wire_position-row_start, row_size-grows}
use utreexo_core_rpc.Transaction.Prepared.{wire_positions}
use native.Mathlib.Nat.{le_trans}

-- A position as a row and a place in it.
record IsPlace (w pos : ℕ) : Type 0 where
  row : ℕ
  k : ℕ
  inside : k < row_size w row
  place : pos ≡ row_start w row + k

find-IsPlace : (w pos : ℕ) → pos + 1 < 2 ^ w → IsPlace w pos
find-IsPlace zero pos h = absurd (omega arith)
find-IsPlace (suc w) pos h = elim (Bool-cases (ltb pos (2 ^ w))) [
  | inl low ↦ record { row = 0; k = pos; inside = ground (arith, low); place = omega arith }
  | inr high ↦
      let le : 2 ^ w ≤ pos = ground (arith, high) in
      let p = find-IsPlace w (pos - 2 ^ w) (omega (arith, two_pow-suc w)) in
      record { row = suc p.row; k = p.k; inside = p.inside; place = omega (arith, p.place) }
]

row_start-last : (w d k : ℕ) → k < row_size w d → row_start w d + k + 1 < 2 ^ w
row_start-last zero d k h = absurd (omega arith)
row_start-last (suc w) zero k h = omega (arith, two_pow-suc w, two_pow-pos w)
row_start-last (suc w) (suc d) k h = omega (arith, two_pow-suc w, row_start-last w d k h)

place_unique :
    (w d e j k : ℕ)
    → j < row_size w d
    → k < row_size w e
    → row_start w d + j ≡ row_start w e + k
    → (d ≡ e) × (j ≡ k)
place_unique zero d e j k h i s = absurd (omega arith)
place_unique (suc w) zero zero j k h i s = (refl, omega arith)
place_unique (suc w) zero (suc e) j k h i s = absurd (omega arith)
place_unique (suc w) (suc d) zero j k h i s = absurd (omega arith)
place_unique (suc w) (suc d) (suc e) j k h i s =
    let (same_row, same_place) = place_unique w d e j k h i (omega arith) in
    (ap suc same_row, same_place)

module _ (rows : ℕ) (few : rows ≤ 63) where
  -- A position of the forest, not the last number.
  abbrev pub IsPosition : ℕ → Type 0
  IsPosition pos = pos + 1 < 2 ^ suc rows

  on_wire :
      (pos : ℕ) (p : IsPlace (suc rows) pos) → wire_position pos rows ≡ row_start 64 p.row + p.k
  on_wire pos p =
      ap (λ q. wire_position q rows) p.place ∙ wire_position-row_start rows p.row p.k few p.inside

  grown : (pos : ℕ) (p : IsPlace (suc rows) pos) → p.k < row_size 64 p.row
  grown pos p = le_trans p.inside (row_size-grows (suc rows) 64 p.row (omega arith))

  wire_position-injective :
      (p q : ℕ) → IsPosition p → IsPosition q → wire_position p rows ≡ wire_position q rows → p ≡ q
  wire_position-injective p q hp hq e =
      let a = find-IsPlace (suc rows) p hp in
      let b = find-IsPlace (suc rows) q hq in
      let (same_row, same_place) =
        place_unique 64 a.row b.row a.k b.k (grown p a) (grown q b)
          (sym (on_wire p a) ∙ e ∙ on_wire q b) in
      a.place
      ∙ ap (λ d. row_start (suc rows) d + a.k) same_row
      ∙ ap (λ k. row_start (suc rows) b.row + k) same_place
      ∙ sym b.place

  wire_position-real : (p : ℕ) → IsPosition p → wire_position p rows + 1 < 2 ^ 64
  wire_position-real p h =
      let a = find-IsPlace (suc rows) p h in
      let last = row_start-last 64 a.row a.k (grown p a) in omega (arith, on_wire p a)

  wire_positions-Among :
      (p : ℕ) (ps : List ℕ)
      → IsPosition p
      → All IsPosition ps
      → Among (wire_position p rows) (wire_positions rows ps)
      → Among p ps
  wire_positions-Among p [] hp hps m = m
  wire_positions-Among p (q ∷ ps) hp (hq, hps) (inl e) = inl (wire_position-injective p q hp hq e)
  wire_positions-Among p (q ∷ ps) hp (hq, hps) (inr m) = inr (wire_positions-Among p ps hp hps m)

  wire_positions-Distinct :
      (ps : List ℕ) → All IsPosition ps → Distinct ps → Distinct (wire_positions rows ps)
  wire_positions-Distinct [] h d = tt
  wire_positions-Distinct (p ∷ ps) (hp, hps) (new, d) =
      (λ m. new (wire_positions-Among p ps hp hps m), wire_positions-Distinct ps hps d)

  wire_positions-real : (ps : List ℕ) → All IsPosition ps → ¬ Among padding (wire_positions rows ps)
  wire_positions-real [] h m = m
  wire_positions-real (p ∷ ps) (hp, hps) (inl e) =
      absurd (omega (arith, wire_position-real p hp, e))
  wire_positions-real (p ∷ ps) (hp, hps) (inr m) = wire_positions-real ps hps m

  -- Different positions of the forest are different on the wire, and none is the padding.
  pub wire_positions-IsUnique :
      (ps : List ℕ) → All IsPosition ps → Distinct ps → IsUnique (wire_positions rows ps)
  wire_positions-IsUnique ps h d = record {
    distinct = wire_positions-Distinct ps h d;
    real = wire_positions-real ps h;
  }
