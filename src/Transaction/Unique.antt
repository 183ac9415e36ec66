-- ===== src/Transaction/Unique.antt =====
-- `UniquePositions` of src/transaction_wire.cpp: sorting and looking at neighbours finds just the
-- lists with no number twice and without the padding.
use utreexo_core_rpc.Common.{
  ℕ, ◌+◌, ◌≤◌, ◌≡◌, refl, sym, inl, inr, arith, Bool, true, false, not, Bool-cases, and-eq-true,
  List, [], ◌∷◌, All, Among, Distinct, ◌==◌, leb,
}
use utreexo_core_rpc.Transaction.{
  padding, insert_sorted, sort, no_adjacent, contains, unique_positions,
}

-- No number twice, and none that is the padding.
pub record IsUnique (positions : List ℕ) : Type 0 where
  pub distinct : Distinct positions
  pub real : ¬ Among padding positions

abbrev pub Sorted : List ℕ → Type 0
Sorted [] = Unit
Sorted (x ∷ xs) = All (λ y. x ≤ y) xs × Sorted xs

pub All-weaken : (a b : ℕ) (xs : List ℕ) → a ≤ b → All (λ x. b ≤ x) xs → All (λ x. a ≤ x) xs
All-weaken a b [] h all = tt
All-weaken a b (x ∷ xs) h (first, later) = (omega arith, All-weaken a b xs h later)

pub insert_sorted-All :
    (P : ℕ → Type 0) (x : ℕ) (ys : List ℕ) → P x → All P ys → All P (insert_sorted x ys)
unfolding insert_sorted
insert_sorted-All P x [] p all = (p, tt)
insert_sorted-All P x (y ∷ ys) p (q, later) = elim (Bool-cases (leb x y)) [
  | inl small ↦ rw small (p, (q, later))
  | inr large ↦ rw large (q, insert_sorted-All P x ys p later)
]

pub sort-All : (P : ℕ → Type 0) (xs : List ℕ) → All P xs → All P (sort xs)
unfolding sort
sort-All P [] all = tt
sort-All P (x ∷ xs) (p, later) = insert_sorted-All P x (sort xs) p (sort-All P xs later)

insert_sorted-Sorted : (x : ℕ) (ys : List ℕ) → Sorted ys → Sorted (insert_sorted x ys)
unfolding insert_sorted
insert_sorted-Sorted x [] s = (tt, tt)
insert_sorted-Sorted x (y ∷ ys) (least, s) = elim (Bool-cases (leb x y)) [
  | inl small ↦
      let le : x ≤ y = ground arith in rw small ((le, All-weaken x y ys le least), (least, s))
  | inr large ↦
      let le : y ≤ x = ground arith in
      rw large (insert_sorted-All (λ z. y ≤ z) x ys le least, insert_sorted-Sorted x ys s)
]

sort-Sorted : (xs : List ℕ) → Sorted (sort xs)
unfolding sort
sort-Sorted [] = tt
sort-Sorted (x ∷ xs) = insert_sorted-Sorted x (sort xs) (sort-Sorted xs)

insert_small : (x y : ℕ) (ys : List ℕ) → leb x y ≡ true → insert_sorted x (y ∷ ys) ≡ x ∷ y ∷ ys
unfolding insert_sorted
insert_small x y ys h = rw h refl

insert_large :
    (x y : ℕ) (ys : List ℕ) → leb x y ≡ false → insert_sorted x (y ∷ ys) ≡ y ∷ insert_sorted x ys
unfolding insert_sorted
insert_large x y ys h = rw h refl

-- Insertion adds just the one number.
Among-insert_sorted : (a x : ℕ) (ys : List ℕ) → Among a (insert_sorted x ys) → Among a (x ∷ ys)
unfolding insert_sorted
Among-insert_sorted a x [] m = m
Among-insert_sorted a x (y ∷ ys) m = elim (Bool-cases (leb x y)) [
  | inl small ↦ rw (insert_small x y ys small) at m
  | inr large ↦ later (λ n. Among-insert_sorted a x ys n) (rw (insert_large x y ys large) at m)
]
  where
    swap : Among a (x ∷ ys) → Among a (x ∷ y ∷ ys)
    swap (inl e) = inl e
    swap (inr n) = inr (inr n)

    later :
        (Among a (insert_sorted x ys) → Among a (x ∷ ys))
        → Among a (y ∷ insert_sorted x ys)
        → Among a (x ∷ y ∷ ys)
    later back (inl e) = inr (inl e)
    later back (inr n) = swap (back n)

insert_sorted-Among : (a x : ℕ) (ys : List ℕ) → Among a (x ∷ ys) → Among a (insert_sorted x ys)
unfolding insert_sorted
insert_sorted-Among a x [] m = m
insert_sorted-Among a x (y ∷ ys) m = elim (Bool-cases (leb x y)) [
  | inl small ↦ rw (insert_small x y ys small) m
  | inr large ↦ rw (insert_large x y ys large) (later (λ n. insert_sorted-Among a x ys n) m)
]
  where
    later :
        (Among a (x ∷ ys) → Among a (insert_sorted x ys))
        → Among a (x ∷ y ∷ ys)
        → Among a (y ∷ insert_sorted x ys)
    later go (inl e) = inr (go (inl e))
    later go (inr (inl e)) = inl e
    later go (inr (inr n)) = inr (go (inr n))

insert_sorted-Distinct : (x : ℕ) (ys : List ℕ) → Distinct (x ∷ ys) → Distinct (insert_sorted x ys)
unfolding insert_sorted
insert_sorted-Distinct x [] d = d
insert_sorted-Distinct x (y ∷ ys) (new, (y_new, d)) = elim (Bool-cases (leb x y)) [
  | inl small ↦ rw (insert_small x y ys small) (new, (y_new, d))
  | inr large ↦
      rw (insert_large x y ys large) (
        λ m. apart (Among-insert_sorted y x ys m),
        insert_sorted-Distinct x ys (λ m. new (inr m), d),
      )
]
  where
    apart : ¬ Among y (x ∷ ys)
    apart (inl e) = new (inl (sym e))
    apart (inr n) = y_new n

Distinct-insert_sorted : (x : ℕ) (ys : List ℕ) → Distinct (insert_sorted x ys) → Distinct (x ∷ ys)
unfolding insert_sorted
Distinct-insert_sorted x [] d = d
Distinct-insert_sorted x (y ∷ ys) d = elim (Bool-cases (leb x y)) [
  | inl small ↦ rw (insert_small x y ys small) at d
  | inr large ↦
      let (y_new, d') = rw (insert_large x y ys large) at d in
      later y_new (Distinct-insert_sorted x ys d')
]
  where
    apart : ¬ Among y (insert_sorted x ys) → ¬ Among x ys → ¬ Among x (y ∷ ys)
    apart y_new new (inl e) = y_new (insert_sorted-Among y x ys (inl (sym e)))
    apart y_new new (inr m) = new m

    later : ¬ Among y (insert_sorted x ys) → Distinct (x ∷ ys) → Distinct (x ∷ y ∷ ys)
    later y_new (new, rest) =
        (apart y_new new, (λ m. y_new (insert_sorted-Among y x ys (inr m)), rest))

sort-Among : (a : ℕ) (xs : List ℕ) → Among a xs → Among a (sort xs)
unfolding sort
sort-Among a [] m = m
sort-Among a (x ∷ xs) (inl e) = insert_sorted-Among a x (sort xs) (inl e)
sort-Among a (x ∷ xs) (inr m) = insert_sorted-Among a x (sort xs) (inr (sort-Among a xs m))

Among-sort : (a : ℕ) (xs : List ℕ) → Among a (sort xs) → Among a xs
unfolding sort
Among-sort a [] m = m
Among-sort a (x ∷ xs) m = elim (Among-insert_sorted a x (sort xs) m) [
  | inl e ↦ inl e
  | inr n ↦ inr (Among-sort a xs n)
]

sort-Distinct : (xs : List ℕ) → Distinct xs → Distinct (sort xs)
unfolding sort
sort-Distinct [] d = tt
sort-Distinct (x ∷ xs) (new, d) =
    insert_sorted-Distinct x (sort xs) (λ m. new (Among-sort x xs m), sort-Distinct xs d)

Distinct-sort : (xs : List ℕ) → Distinct (sort xs) → Distinct xs
unfolding sort
Distinct-sort [] d = tt
Distinct-sort (x ∷ xs) d =
    let (new, rest) = Distinct-insert_sorted x (sort xs) d in
    (λ m. new (sort-Among x xs m), Distinct-sort xs rest)

pub above-not_Among : (a : ℕ) (xs : List ℕ) → All (λ x. a + 1 ≤ x) xs → ¬ Among a xs
above-not_Among a [] all m = m
above-not_Among a (x ∷ xs) (first, later) (inl e) = absurd (omega arith)
above-not_Among a (x ∷ xs) (first, later) (inr m) = above-not_Among a xs later m

-- In a sorted list, equal numbers are neighbours.
no_adjacent-Distinct : (xs : List ℕ) → Sorted xs → no_adjacent xs ≡ true → Distinct xs
unfolding no_adjacent
no_adjacent-Distinct [] s e = tt
no_adjacent-Distinct (x ∷ []) s e = (λ m. m, tt)
no_adjacent-Distinct (x ∷ y ∷ ys) ((le, least), (y_least, s)) e =
    let (differ, rest) = and-eq-true (not (x == y)) (no_adjacent (y ∷ ys)) e in
    let below : x + 1 ≤ y = ground (arith, differ) in
    (
      above-not_Among x (y ∷ ys) (below, All-weaken (x + 1) y ys below y_least),
      no_adjacent-Distinct (y ∷ ys) (y_least, s) rest,
    )

Distinct-no_adjacent : (xs : List ℕ) → Distinct xs → no_adjacent xs ≡ true
unfolding no_adjacent
Distinct-no_adjacent [] d = refl
Distinct-no_adjacent (x ∷ []) d = refl
Distinct-no_adjacent (x ∷ y ∷ ys) (new, d) = elim (Bool-cases (x == y)) [
  | inl same ↦ let e : x ≡ y = ground arith in absurd (new (inl e))
  | inr differ ↦ rw differ (Distinct-no_adjacent (y ∷ ys) d)
]

contains-Among : (xs : List ℕ) (v : ℕ) → contains xs v ≡ false → ¬ Among v xs
contains-Among [] v e m = m
contains-Among (x ∷ xs) v e (inl same) = absurd (ground (arith, e, same))
contains-Among (x ∷ xs) v e (inr m) = contains-Among xs v (ground (arith, e)) m

Among-contains : (xs : List ℕ) (v : ℕ) → ¬ Among v xs → contains xs v ≡ false
Among-contains [] v n = refl
Among-contains (x ∷ xs) v n = elim (Bool-cases (x == v)) [
  | inl same ↦ let e : v ≡ x = ground arith in absurd (n (inl e))
  | inr differ ↦ rw differ (Among-contains xs v (λ m. n (inr m)))
]

pub unique_positions-IsUnique :
    (positions : List ℕ) → unique_positions positions ≡ true → IsUnique positions
unfolding unique_positions
unique_positions-IsUnique positions e =
    let (real, apart) =
      and-eq-true (not (contains positions padding)) (no_adjacent (sort positions)) e in
    record {
      distinct =
          Distinct-sort positions
            (no_adjacent-Distinct (sort positions) (sort-Sorted positions) apart);
      real = contains-Among positions padding (not-eq-true (contains positions padding) real);
    }
  where
    not-eq-true : (b : Bool) → not b ≡ true → b ≡ false
    not-eq-true true h = cc
    not-eq-true false h = refl

pub IsUnique-unique_positions :
    (positions : List ℕ) → IsUnique positions → unique_positions positions ≡ true
unfolding unique_positions
IsUnique-unique_positions positions u =
    rw
      (
        Among-contains positions padding u.real,
        Distinct-no_adjacent (sort positions) (sort-Distinct positions u.distinct),
      )
      refl
