-- ===== src/ProofCache/Erase.antt =====
-- `Impl::Erase`, and the calls that consist of it: `Expire`, `Erase` and the eviction in `Publish`.
use utreexo_core_rpc.Common.{
  ℕ, suc, ◌+◌, ◌≤◌, ◌<◌, ◌≡◌, ◌≢◌, refl, sym, ◌∙◌, subst, inl, inr, arith, true, false, Bool-cases,
  none, some, List, [], ◌∷◌, length, ◌==◌,
}
use utreexo_core_rpc.ProofCache.{
  Preparation, Entry, Cache, lookup, erase_key, entry_at, erase_sequence, erase_entry,
}
use utreexo_core_rpc.ProofCache.Valid.{
  keys, total, Held, All, Ascending, Without, IsSingle, IsValid, Erasing,
}

module _ (prep : Preparation) where
  pub Held-All :
      (P : Entry prep → Type 0) (e : Entry prep) (es : List (Entry prep))
      → All prep P es
      → Held prep e es
      → P e
  Held-All P e [] a m = elim m [ ]
  Held-All P e (x ∷ es) a (inl m) = subst P (sym m) a.0
  Held-All P e (x ∷ es) a (inr m) = Held-All P e es a.1 m

  pub Ascending-All :
      (low : ℕ) (es : List (Entry prep))
      → Ascending prep low es
      → All prep (λ e. low < e.sequence) es
  Ascending-All low [] a = tt
  Ascending-All low (e ∷ es) a =
      (a.0, weaker low e.sequence a.0 es (Ascending-All e.sequence es a.1))
    where
      weaker :
          (low high : ℕ)
          → low < high
          → (es : List (Entry prep)) → All prep (λ e. high < e.sequence) es
          → All prep (λ e. low < e.sequence) es
      weaker low high h [] b = tt
      weaker low high h (x ∷ es) b = (omega (arith, b.0), weaker low high h es b.1)

  Ascending-lower :
      (low high : ℕ) (es : List (Entry prep))
      → low ≤ high
      → Ascending prep high es
      → Ascending prep low es
  Ascending-lower low high [] h a = tt
  Ascending-lower low high (e ∷ es) h a = (omega (arith, a.0), a.1)

  erase_sequence-All :
      (P : Entry prep → Type 0) (s : ℕ) (es : List (Entry prep))
      → All prep P es
      → All prep P (erase_sequence prep s es)
  erase_sequence-All P s [] a = tt
  erase_sequence-All P s (e ∷ es) a = elim (Bool-cases (e.sequence == s)) [
    | inl y ↦ rw y a.1
    | inr n ↦ rw n (a.0, erase_sequence-All P s es a.1)
  ]

  erase_sequence-Ascending :
      (low s : ℕ) (es : List (Entry prep))
      → Ascending prep low es
      → Ascending prep low (erase_sequence prep s es)
  erase_sequence-Ascending low s [] a = tt
  erase_sequence-Ascending low s (e ∷ es) a = elim (Bool-cases (e.sequence == s)) [
    | inl y ↦ rw y (Ascending-lower low e.sequence es (omega (arith, a.0)) a.1)
    | inr n ↦ rw n (a.0, erase_sequence-Ascending e.sequence s es a.1)
  ]

  erase_sequence-IsSingle :
      (s : ℕ) (es : List (Entry prep)) → IsSingle prep es → IsSingle prep (erase_sequence prep s es)
  erase_sequence-IsSingle s [] a = tt
  erase_sequence-IsSingle s (e ∷ es) a = elim (Bool-cases (e.sequence == s)) [
    | inl y ↦ rw y a.1
    | inr n ↦ rw n (
      erase_sequence-All (λ x. prep.txid x.proof ≢ prep.txid e.proof) s es a.0,
      erase_sequence-IsSingle s es a.1,
    )
  ]

  -- Erasing an entry that is there.
  record Removed (e : Entry prep) (es : List (Entry prep)) : Type 0 where
    keyed :
        keys prep (erase_sequence prep e.sequence es) ≡ erase_key (prep.txid e.proof) (keys prep es)
    sum : total prep es ≡ e.bytes + total prep (erase_sequence prep e.sequence es)
    shorter : length es ≡ suc (length (erase_sequence prep e.sequence es))
    gone : Without prep (prep.txid e.proof) (erase_sequence prep e.sequence es)

  erase_sequence-Removed :
      (low : ℕ) (e : Entry prep) (es : List (Entry prep))
      → Ascending prep low es
      → IsSingle prep es
      → Held prep e es
      → Removed e es
  erase_sequence-Removed low e [] a s m = elim m [ ]
  erase_sequence-Removed low e (x ∷ es) a s (inl m) =
      let i : e.sequence ≡ x.sequence = rw m refl in
      let t : prep.txid e.proof ≡ prep.txid x.proof = rw m refl in
      let b : e.bytes ≡ x.bytes = rw m refl in
      let y : (x.sequence == x.sequence) ≡ true = ground arith in
      let z : (prep.txid x.proof == prep.txid x.proof) ≡ true = ground arith in
      record {
        keyed = rw (i, t, y, z) refl;
        sum = rw (i, b, y) refl;
        shorter = rw (i, y) refl;
        gone = rw (i, t, y) s.0;
      }
  erase_sequence-Removed low e (x ∷ es) a s (inr m) =
      let r = erase_sequence-Removed x.sequence e es a.1 s.1 m in
      let above =
        Held-All (λ e. x.sequence < e.sequence) e es (Ascending-All x.sequence es a.1) m in
      let other = Held-All (λ y. prep.txid y.proof ≢ prep.txid x.proof) e es s.0 m in
      let n : (x.sequence == e.sequence) ≡ false = ground arith in
      let k : (prep.txid x.proof == prep.txid e.proof) ≡ false = ground (arith, other) in
      record {
        keyed = rw (n, k, r.keyed) refl;
        sum = rw n (omega (arith, r.sum));
        shorter = rw n (omega (arith, r.shorter));
        gone = rw n ((λ y. other (sym y)), r.gone);
      }

  -- What `by_txid` names is in `entries`.
  pub keys-lookup :
      (low t s : ℕ) (es : List (Entry prep))
      → Ascending prep low es
      → lookup t (keys prep es) ≡ some s
      → (e : Entry prep) × Held prep e es
        × (prep.txid e.proof ≡ t)
        × (e.sequence ≡ s)
        × (entry_at prep s es ≡ some e)
  keys-lookup low t s [] a h = cc
  keys-lookup low t s (x ∷ es) a h = elim (Bool-cases (prep.txid x.proof == t)) [
    | inl y ↦
        let q : x.sequence ≡ s = cc (rw y at h) in
        let z : (x.sequence == s) ≡ true = ground arith in (x, inl refl, ground arith, q, rw z refl)
    | inr n ↦
        let (e, m, i, q, f) = keys-lookup x.sequence t s es a.1 (rw n at h) in
        let above =
          Held-All (λ e. x.sequence < e.sequence) e es (Ascending-All x.sequence es a.1) m in
        let z : (x.sequence == s) ≡ false = ground arith in (e, inr m, i, q, rw z f)
  ]

  pub lookup-Without :
      (t : ℕ) (es : List (Entry prep)) → lookup t (keys prep es) ≡ none → Without prep t es
  lookup-Without t [] h = tt
  lookup-Without t (x ∷ es) h = elim (Bool-cases (prep.txid x.proof == t)) [
    | inl y ↦ cc (rw y at h)
    | inr n ↦ (ground arith, lookup-Without t es (rw n at h))
  ]

  pub All-Held :
      (P : Entry prep → Type 0) (es : List (Entry prep))
      → ((e : Entry prep) → Held prep e es → P e)
      → All prep P es
  All-Held P [] h = tt
  All-Held P (x ∷ es) h = (h x (inl refl), All-Held P es (λ e m. h e (inr m)))

  erase_sequence-Held :
      (s : ℕ) (e : Entry prep) (es : List (Entry prep))
      → Held prep e (erase_sequence prep s es)
      → Held prep e es
  erase_sequence-Held s e [] m = m
  erase_sequence-Held s e (x ∷ es) m = elim (Bool-cases (x.sequence == s)) [
    | inl y ↦ inr (rw y at m)
    | inr n ↦ elim (rw n at m) as (λ _. Held prep e (x ∷ es)) [
      | inl k ↦ inl k
      | inr k ↦ inr (erase_sequence-Held s e es k)
    ]
  ]

  pub Erasing-refl : (c : Cache prep) → IsValid prep c → Erasing prep c c
  Erasing-refl c v = record {
    valid = v;
    same_config = refl;
    same_point = refl;
    same_sequence = refl;
    same_epoch = refl;
    same_ready = refl;
    kept = λ e m. m;
  }

  pub Erasing-trans : (a b c : Cache prep) → Erasing prep a b → Erasing prep b c → Erasing prep a c
  Erasing-trans a b c h k = record {
    valid = k.valid;
    same_config = k.same_config ∙ h.same_config;
    same_point = k.same_point ∙ h.same_point;
    same_sequence = k.same_sequence ∙ h.same_sequence;
    same_epoch = k.same_epoch ∙ h.same_epoch;
    same_ready = k.same_ready ∙ h.same_ready;
    kept = λ e m. h.kept e (k.kept e m);
  }

  -- Counters that no invariant speaks of may change.
  module _ (c : Cache prep) (e : Entry prep) (v : IsValid prep c) (m : Held prep e c.entries) where
    removed : Removed e c.entries
    removed = erase_sequence-Removed 0 e c.entries v.ascending v.single m

    erased-IsValid : IsValid prep (erase_entry prep e c)
    unfolding erase_entry
    erased-IsValid = record {
      ascending = erase_sequence-Ascending 0 e.sequence c.entries v.ascending;
      latest = erase_sequence-All (λ x. x.sequence ≤ c.sequence) e.sequence c.entries v.latest;
      indexed = rw v.indexed (sym removed.keyed);
      single = erase_sequence-IsSingle e.sequence c.entries v.single;
      counted = omega (arith, v.counted, removed.sum, v.fits, v.bounded.0);
      fits = omega (arith, v.fits, removed.sum);
      few = omega (arith, v.few, removed.shorter);
      current =
          erase_sequence-All (λ x. (x.epoch ≡ c.stats.epoch) × (c.point ≡ some x.point)) e.sequence
            c.entries v.current;
      idle = λ h. rw (v.idle h) refl;
      bounded = v.bounded;
    }

    pub erase_entry-Erasing : Erasing prep c (erase_entry prep e c)
    unfolding erase_entry
    erase_entry-Erasing = record {
      valid = erased-IsValid;
      same_config = refl;
      same_point = refl;
      same_sequence = refl;
      same_epoch = refl;
      same_ready = refl;
      kept = λ x n. erase_sequence-Held e.sequence x c.entries n;
    }

    pub erase_entry-Without : Without prep (prep.txid e.proof) (erase_entry prep e c).entries
    unfolding erase_entry
    erase_entry-Without = removed.gone

    pub length-erase_entry : length c.entries ≡ suc (length (erase_entry prep e c).entries)
    unfolding erase_entry
    length-erase_entry = removed.shorter
