-- ===== src/Transaction/Positions/Spans.antt =====
-- The intervals of `NativeProofPositions` in src/transaction_wire.cpp: where none overlaps another, the
-- targets are distinct.
use utreexo_core_rpc.Common.{
  ℕ, suc, ◌+◌, ◌-◌, ◌*◌, ◌/◌, ◌%◌, ◌^◌, ◌≤◌, ◌<◌, ◌≡◌, refl, sym, ap, ◌∙◌, subst, inl, inr, arith,
  true, false, ◌&&◌, ◌||◌, Bool-cases, List, [], ◌∷◌, All, Among, Distinct, ltb, leb, ◌==◌,
  if◌then◌else◌,
}
use utreexo_core_rpc.Common.Bits.{two_pow-pos}
use utreexo_core_rpc.Result.{ok, refuse-eq-ok, >>=-eq-ok, ok-injective}
use utreexo_core_rpc.Transaction.Unique.{Sorted, All-weaken, above-not_Among}
use utreexo_core_rpc.Transaction.Positions.{
  row_start, row_of, interval, intervals, insert_interval, sort_intervals, overlaps,
}
use utreexo_core_rpc.Transaction.Positions.Rows.{mask-rows}
use native.Mathlib.Nat.{mul-le-mul_right, div-mul-le_self}

abbrev firsts : List (ℕ × ℕ) → List ℕ
firsts [] = []
firsts (s ∷ ss) = s.0 ∷ firsts ss

abbrev Forward : ℕ × ℕ → Type 0
Forward s = s.0 ≤ s.1

insert_before :
    (a b c d : ℕ) (ys : List (ℕ × ℕ))
    → (ltb a c || (a == c && leb b d)) ≡ true
    → insert_interval (a, b) ((c, d) ∷ ys) ≡ (a, b) ∷ (c, d) ∷ ys
unfolding insert_interval
insert_before a b c d ys h = rw h refl

insert_behind :
    (a b c d : ℕ) (ys : List (ℕ × ℕ))
    → (ltb a c || (a == c && leb b d)) ≡ false
    → insert_interval (a, b) ((c, d) ∷ ys) ≡ (c, d) ∷ insert_interval (a, b) ys
unfolding insert_interval
insert_behind a b c d ys h = rw h refl

insert_interval-Forward :
    (s : ℕ × ℕ) (ys : List (ℕ × ℕ))
    → Forward s
    → All Forward ys
    → All Forward (insert_interval s ys)
unfolding insert_interval
insert_interval-Forward s [] h all = (h, tt)
insert_interval-Forward (a, b) ((c, d) ∷ ys) h (first, later) =
    elim (Bool-cases (ltb a c || (a == c && leb b d))) [
      | inl y ↦ rw (insert_before a b c d ys y) (h, (first, later))
      | inr n ↦ rw (insert_behind a b c d ys n) (first, insert_interval-Forward (a, b) ys h later)
    ]

sort_intervals-Forward : (ss : List (ℕ × ℕ)) → All Forward ss → All Forward (sort_intervals ss)
unfolding sort_intervals
sort_intervals-Forward [] all = tt
sort_intervals-Forward (s ∷ ss) (h, all) =
    insert_interval-Forward s (sort_intervals ss) h (sort_intervals-Forward ss all)

insert_interval-least :
    (e a b : ℕ) (ys : List (ℕ × ℕ))
    → e ≤ a
    → All (λ y. e ≤ y) (firsts ys)
    → All (λ y. e ≤ y) (firsts (insert_interval (a, b) ys))
unfolding insert_interval
insert_interval-least e a b [] h all = (h, tt)
insert_interval-least e a b ((c, d) ∷ ys) h (first, later) =
    elim (Bool-cases (ltb a c || (a == c && leb b d))) [
      | inl y ↦ rw (insert_before a b c d ys y) (h, (first, later))
      | inr n ↦ rw (insert_behind a b c d ys n) (first, insert_interval-least e a b ys h later)
    ]

insert_interval-Sorted :
    (s : ℕ × ℕ) (ys : List (ℕ × ℕ)) → Sorted (firsts ys) → Sorted (firsts (insert_interval s ys))
unfolding insert_interval
insert_interval-Sorted s [] h = (tt, tt)
insert_interval-Sorted (a, b) ((c, d) ∷ ys) (least, h) =
    elim (Bool-cases (ltb a c || (a == c && leb b d))) [
      | inl y ↦
          let le : a ≤ c = ground (arith, y) in
          rw (insert_before a b c d ys y) ((le, All-weaken a c (firsts ys) le least), (least, h))
      | inr n ↦
          let le : c ≤ a = ground (arith, n) in
          rw (insert_behind a b c d ys n)
            (insert_interval-least c a b ys le least, insert_interval-Sorted (a, b) ys h)
    ]

sort_intervals-Sorted : (ss : List (ℕ × ℕ)) → Sorted (firsts (sort_intervals ss))
unfolding sort_intervals
sort_intervals-Sorted [] = tt
sort_intervals-Sorted (s ∷ ss) =
    insert_interval-Sorted s (sort_intervals ss) (sort_intervals-Sorted ss)

-- No interval is lost in sorting.
insert_interval-Among :
    (x : ℕ) (s : ℕ × ℕ) (ys : List (ℕ × ℕ))
    → Among x (s.0 ∷ firsts ys)
    → Among x (firsts (insert_interval s ys))
unfolding insert_interval
insert_interval-Among x s [] m = m
insert_interval-Among x (a, b) ((c, d) ∷ ys) m =
    elim (Bool-cases (ltb a c || (a == c && leb b d))) [
      | inl y ↦ rw (insert_before a b c d ys y) m
      | inr n ↦ rw (insert_behind a b c d ys n) (later (λ k. insert_interval-Among x (a, b) ys k) m)
    ]
  where
    later :
        (Among x (a ∷ firsts ys) → Among x (firsts (insert_interval (a, b) ys)))
        → Among x (a ∷ c ∷ firsts ys)
        → Among x (c ∷ firsts (insert_interval (a, b) ys))
    later go (inl e) = inr (go (inl e))
    later go (inr (inl e)) = inl e
    later go (inr (inr n)) = inr (go (inr n))

Distinct-insert_interval :
    (s : ℕ × ℕ) (ys : List (ℕ × ℕ))
    → Distinct (firsts (insert_interval s ys))
    → Distinct (s.0 ∷ firsts ys)
unfolding insert_interval
Distinct-insert_interval s [] h = h
Distinct-insert_interval (a, b) ((c, d) ∷ ys) h =
    elim (Bool-cases (ltb a c || (a == c && leb b d))) [
      | inl y ↦ rw (insert_before a b c d ys y) at h
      | inr n ↦
          let (c_new, h') = rw (insert_behind a b c d ys n) at h in
          later c_new (Distinct-insert_interval (a, b) ys h')
    ]
  where
    apart :
        ¬ Among c (firsts (insert_interval (a, b) ys))
        → ¬ Among a (firsts ys)
        → ¬ Among a (c ∷ firsts ys)
    apart c_new new (inl e) = c_new (insert_interval-Among c (a, b) ys (inl (sym e)))
    apart c_new new (inr m) = new m

    later :
        ¬ Among c (firsts (insert_interval (a, b) ys))
        → Distinct (a ∷ firsts ys)
        → Distinct (a ∷ c ∷ firsts ys)
    later c_new (new, rest) =
        (apart c_new new, (λ m. c_new (insert_interval-Among c (a, b) ys (inr m)), rest))

sort_intervals-Among :
    (x : ℕ) (ss : List (ℕ × ℕ)) → Among x (firsts ss) → Among x (firsts (sort_intervals ss))
unfolding sort_intervals
sort_intervals-Among x [] m = m
sort_intervals-Among x (s ∷ ss) (inl e) = insert_interval-Among x s (sort_intervals ss) (inl e)
sort_intervals-Among x (s ∷ ss) (inr m) =
    insert_interval-Among x s (sort_intervals ss) (inr (sort_intervals-Among x ss m))

Distinct-sort_intervals :
    (ss : List (ℕ × ℕ)) → Distinct (firsts (sort_intervals ss)) → Distinct (firsts ss)
unfolding sort_intervals
Distinct-sort_intervals [] h = tt
Distinct-sort_intervals (s ∷ ss) h =
    let (new, rest) = Distinct-insert_interval s (sort_intervals ss) h in
    (λ m. new (sort_intervals-Among s.0 ss m), Distinct-sort_intervals ss rest)

no_overlap-Distinct :
    (ss : List (ℕ × ℕ))
    → Sorted (firsts ss)
    → All Forward ss
    → overlaps ss ≡ false
    → Distinct (firsts ss)
unfolding overlaps
no_overlap-Distinct [] s f e = tt
no_overlap-Distinct ((a, b) ∷ []) s f e = (λ m. m, tt)
no_overlap-Distinct ((a, b) ∷ (c, d) ∷ ss) ((le, least), (c_least, s)) (ab, later) e =
    let below : a + 1 ≤ c = ground (arith, e) in
    (
      above-not_Among a (c ∷ firsts ss) (below, All-weaken (a + 1) c (firsts ss) below c_least),
      no_overlap-Distinct ((c, d) ∷ ss) (c_least, s) later (ground (arith, e)),
    )

module _ (rows num_leaves : ℕ) where
  -- The intervals are those of the targets, in their order.
  abbrev Spanned : List ℕ → List (ℕ × ℕ) → Type 0
  Spanned [] [] = Unit
  Spanned (t ∷ ts) (s ∷ ss) = (interval rows num_leaves t ≡ ok s) × Spanned ts ss
  Spanned _ _ = ⊥

  intervals-Spanned :
      (ts : List ℕ) (ss : List (ℕ × ℕ)) → intervals rows num_leaves ts ≡ ok ss → Spanned ts ss
  unfolding intervals
  intervals-Spanned [] ss e = subst (Spanned []) (ok-injective e) tt
  intervals-Spanned (t ∷ ts) ss e =
      let (s, first, e₁) = >>=-eq-ok (interval rows num_leaves t) _ _ e in
      let (others, later, e₂) = >>=-eq-ok (intervals rows num_leaves ts) _ _ e₁ in
      subst (Spanned (t ∷ ts)) (ok-injective e₂) (first, intervals-Spanned ts others later)

  Spanned-Among :
      (t : ℕ) (s : ℕ × ℕ) (ts : List ℕ) (ss : List (ℕ × ℕ))
      → Spanned ts ss
      → interval rows num_leaves t ≡ ok s
      → Among t ts
      → Among s.0 (firsts ss)
  Spanned-Among t s [] [] h e m = m
  Spanned-Among t s [] (x ∷ ss) h e m = absurd h
  Spanned-Among t s (u ∷ ts) [] h e m = h
  Spanned-Among t s (u ∷ ts) (x ∷ ss) (first, h) e (inl same) =
      inl (ap (λ z. z.0) (ok-injective (sym e ∙ ap (interval rows num_leaves) same ∙ first)))
  Spanned-Among t s (u ∷ ts) (x ∷ ss) (first, h) e (inr m) = inr (Spanned-Among t s ts ss h e m)

  Spanned-Distinct :
      (ts : List ℕ) (ss : List (ℕ × ℕ)) → Spanned ts ss → Distinct (firsts ss) → Distinct ts
  Spanned-Distinct [] ss h d = tt
  Spanned-Distinct (t ∷ ts) [] h d = absurd h
  Spanned-Distinct (t ∷ ts) (s ∷ ss) (first, h) (new, d) =
      (λ m. new (Spanned-Among t s ts ss h first m), Spanned-Distinct ts ss h d)

  shift_bound : (q p : ℕ) → q < num_leaves / p → num_leaves ≤ 2 ^ 63 → 1 ≤ p → q * p + p ≤ 2 ^ 63
  shift_bound q p h small pos =
      let whole = div-mul-le_self num_leaves p in
      let more : (q + 1) * p ≤ num_leaves / p * p = mul-le-mul_right p (omega arith) in
      let split : (q + 1) * p ≡ q * p + p = omega arith in omega arith

  interval-Forward :
      (t : ℕ) (s : ℕ × ℕ)
      → num_leaves ≤ 2 ^ 63
      → interval rows num_leaves t ≡ ok s
      → (t + 1 < 2 ^ suc rows) × Forward s
  unfolding interval
  interval-Forward t s small e =
      let (inside, e₁) =
        refuse-eq-ok (leb (if rows == 63 then 2 ^ 64 - 1 else 2 ^ (rows + 1) - 1) t) _ _ _ e in
      let row = row_of t rows in
      let offset = (t + 2 ^ 64 - row_start row rows) % 2 ^ 64 in
      let (populated, e₂) = refuse-eq-ok (leb (num_leaves / 2 ^ row) offset) _ _ _ e₁ in
      let bound =
        shift_bound offset (2 ^ row) (ground (arith, populated)) small (two_pow-pos row) in
      let same = ok-injective e₂ in
      (
        below t _ _ inside (mask-rows rows),
        subst Forward same (ordered (offset * 2 ^ row) (2 ^ row) bound (two_pow-pos row)),
      )
    where
      below : (t m n : ℕ) → leb m t ≡ false → m ≡ n - 1 → t + 1 < n
      below t m n h e = ground (arith, h, e)

      ordered : (x p : ℕ) → x + p ≤ 2 ^ 63 → 1 ≤ p → x % 2 ^ 64 ≤ (x % 2 ^ 64 + (p - 1)) % 2 ^ 64
      ordered x p h pos = omega arith

  Spanned-Forward :
      (ts : List ℕ) (ss : List (ℕ × ℕ))
      → num_leaves ≤ 2 ^ 63
      → Spanned ts ss
      → All (λ t. t + 1 < 2 ^ suc rows) ts × All Forward ss
  Spanned-Forward [] [] small h = (tt, tt)
  Spanned-Forward [] (s ∷ ss) small h = absurd h
  Spanned-Forward (t ∷ ts) [] small h = absurd h
  Spanned-Forward (t ∷ ts) (s ∷ ss) small (first, h) =
      let (inside, forward) = interval-Forward t s small first in
      let (all_inside, all_forward) = Spanned-Forward ts ss small h in
      ((inside, all_inside), (forward, all_forward))

  -- Targets whose intervals do not overlap are positions of the forest, and distinct.
  pub intervals-Distinct :
      (ts : List ℕ) (ss : List (ℕ × ℕ))
      → num_leaves ≤ 2 ^ 63
      → intervals rows num_leaves ts ≡ ok ss
      → overlaps (sort_intervals ss) ≡ false
      → All (λ t. t + 1 < 2 ^ suc rows) ts × Distinct ts
  intervals-Distinct ts ss small e apart =
      let spanned = intervals-Spanned ts ss e in
      let (inside, forward) = Spanned-Forward ts ss small spanned in
      (
        inside,
        Spanned-Distinct ts ss spanned (
            Distinct-sort_intervals ss (
              no_overlap-Distinct (sort_intervals ss) (sort_intervals-Sorted ss)
                (sort_intervals-Forward ss forward) apart)),
      )
