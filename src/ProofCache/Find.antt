-- ===== src/ProofCache/Find.antt =====
-- What `Find` and `FindMatching` give.
use utreexo_core_rpc.Common.{
  and-eq-true, ℕ, zero, suc, ◌+◌, ◌^◌, ◌≤◌, ◌<◌, ◌≡◌, ◌≢◌, refl, sym, ap, ◌∙◌, subst, inl, inr,
  arith, Bool, true, false, ◌&&◌, Bool-cases, Option, none, some, Option-cases, List, [], ◌∷◌,
  length, if◌then◌else◌, ◌==◌, leb, >>=-eq-some,
}
use utreexo_core_rpc.ProofCache.{
  Preparation, Entry, Cache, Request, lookup, entry_at, erase_sequence, erase_entry, due, expire,
  expire_loop, clear, find, find_matching, wanted_entry,
}
use utreexo_core_rpc.ProofCache.Valid.{keys, Held, Ascending, IsSingle, IsValid}
use utreexo_core_rpc.ProofCache.Erase.{Held-All, Ascending-All, keys-lookup, erase_entry-Erasing}
use utreexo_core_rpc.ProofCache.Expire.{
  expire-Erasing, expired_one, expired_one-Erasing, due-some, expire_stop, expire_round,
  expire_zero,
}
use utreexo_core_rpc.ProofCache.Steps.{Kept, Steps, Steps-Kept, clear-Kept}

module _ (prep : Preparation) where
  -- The entry answers the request and is of the present epoch and chain point.
  pub record Answers (r : Request) (c : Cache prep) (e : Entry prep) : Type 0 where
    pub held : Held prep e c.entries
    pub same_txid : prep.txid e.proof ≡ r.txid
    pub same_epoch : e.epoch ≡ r.epoch
    pub same_digest : e.digest ≡ r.digest
    pub present : c.stats.epoch ≡ r.epoch
    pub same_point : c.point ≡ some e.point

  chosen :
      (b : Bool) (e x : Entry prep) → (if b then some x else none) ≡ some e → (b ≡ true) × (x ≡ e)
  chosen true e x h = (refl, cc)
  chosen false e x h = cc

  guarded :
      (b : Bool) (o : Option (Entry prep)) (e : Entry prep)
      → (if b then o else none) ≡ some e
      → (b ≡ true) × (o ≡ some e)
  guarded true o e h = (refl, h)
  guarded false o e h = cc

  -- An entry that `FindMatching` gives is in the cache, it is of the transaction, the epoch and the
  -- digest that are asked for, and both it and the request are of the present epoch and its chain
  -- point.
  pub find_matching-Answers :
      (now : ℕ) (r : Request) (c : Cache prep) (e : Entry prep)
      → IsValid prep c
      → (find_matching prep now r c).0 ≡ some e
      → Answers r c e
  unfolding find_matching
  find_matching-Answers now r c e v h =
      let x = expire-Erasing prep now c v in
      let c₁ = expire prep now c in
      let (ready, found) = guarded (c₁.stats.ready && (c₁.stats.epoch == r.epoch)) _ e h in
      let (_, same) = and-eq-true c₁.stats.ready (c₁.stats.epoch == r.epoch) ready in
      let (s, f, f') = >>=-eq-some (lookup r.txid (expire prep now c).by_txid) _ found in
      let (y, g, g') = >>=-eq-some (entry_at prep s (expire prep now c).entries) _ f' in
      let (d, z) = chosen ((y.epoch == r.epoch) && (y.digest == r.digest)) e y g' in
      let (p, q) = and-eq-true (y.epoch == r.epoch) (y.digest == r.digest) d in
      let (w, m, t, _, at_s) =
        keys-lookup prep 0 r.txid s (expire prep now c).entries x.valid.ascending
          (rw x.valid.indexed at f) in
      let wy : w ≡ y = cc (at_s, g) in
      let we : w ≡ e = wy ∙ z in
      let here : Held prep e c.entries = subst (λ k. Held prep k c.entries) we (x.kept w m) in
      record {
        held = here;
        same_txid = rw we at t;
        same_epoch = subst (λ (k : Entry prep). k.epoch ≡ r.epoch) z (eq_of p);
        same_digest = subst (λ (k : Entry prep). k.digest ≡ r.digest) z (eq_of q);
        present = sym x.same_epoch ∙ eq_of same;
        same_point =
            (Held-All prep (λ k. (k.epoch ≡ c.stats.epoch) × (c.point ≡ some k.point)) e c.entries
              v.current here).1;
      }
    where
      eq_of : {m n : ℕ} → (m == n) ≡ true → m ≡ n
      eq_of h = ground arith

  -- Once the cache has been invalidated, no request of before is ever answered again, whatever is
  -- published afterwards: not even with the same proof.
  pub find_matching-clear :
      (c d c' : Cache prep) (r : Request) (now : ℕ)
      → IsValid prep c
      → r.epoch ≤ c.stats.epoch
      → Steps prep c d
      → d.stats.epoch + 1 < 2 ^ 64
      → Steps prep (clear prep d) c'
      → (find_matching prep now r c').0 ≡ none
  find_matching-clear c d c' r now v old before h after =
      elim (Option-cases (find_matching prep now r c').0) [
        | inl n ↦ n
        | inr (e, f) ↦ absurd (
            omega
              (arith, k.later, l.1, m.later, (find_matching-Answers now r c' e m.valid f).present))
      ]
    where
      k : Kept prep c d
      k = Steps-Kept prep c d before v

      l : Kept prep d (clear prep d) × ((clear prep d).stats.epoch ≡ d.stats.epoch + 1)
      l = clear-Kept prep d k.valid h

      m : Kept prep (clear prep d) c'
      m = Steps-Kept prep (clear prep d) c' after l.0.valid

  sequence_unique :
      (low : ℕ) (e x : Entry prep) (es : List (Entry prep))
      → Ascending prep low es
      → Held prep e es
      → Held prep x es
      → e.sequence ≡ x.sequence
      → e ≡ x
  sequence_unique low e x [] a m n h = absurd m
  sequence_unique low e x (y ∷ es) a (inl m) (inl n) h = m ∙ sym n
  sequence_unique low e x (y ∷ es) a (inl m) (inr n) h =
      let k =
        Held-All prep (λ z. y.sequence < z.sequence) x es (Ascending-All prep y.sequence es a.1)
          n in
      let i : e.sequence ≡ y.sequence = rw m refl in absurd (omega arith)
  sequence_unique low e x (y ∷ es) a (inr m) (inl n) h =
      let k =
        Held-All prep (λ z. y.sequence < z.sequence) e es (Ascending-All prep y.sequence es a.1)
          m in
      let i : x.sequence ≡ y.sequence = rw n refl in absurd (omega arith)
  sequence_unique low e x (y ∷ es) a (inr m) (inr n) h = sequence_unique y.sequence e x es a.1 m n h

  erase_sequence-keeps :
      (s : ℕ) (e : Entry prep) (es : List (Entry prep))
      → Held prep e es
      → e.sequence ≢ s
      → Held prep e (erase_sequence prep s es)
  erase_sequence-keeps s e [] m n = m
  erase_sequence-keeps s e (x ∷ es) (inl m) n =
      let i : e.sequence ≡ x.sequence = rw m refl in
      let k : (x.sequence == s) ≡ false = ground arith in rw k (inl m)
  erase_sequence-keeps s e (x ∷ es) (inr m) n = elim (Bool-cases (x.sequence == s)) [
    | inl y ↦ rw y m
    | inr k ↦ rw k (inr (erase_sequence-keeps s e es m n))
  ]

  due-late :
      (now : ℕ) (x : Entry prep) (es : List (Entry prep))
      → due prep now es ≡ some x
      → x.expires ≤ now
  due-late now x [] h = cc
  due-late now x (y ∷ es) h =
      let (b, k) = chosen (leb y.expires now) x y h in
      subst (λ (z : Entry prep). z.expires ≤ now) k (ground arith)

  erased_keeps :
      (x e : Entry prep) (c : Cache prep)
      → Held prep e c.entries
      → e.sequence ≢ x.sequence
      → Held prep e (erase_entry prep x c).entries
  unfolding erase_entry
  erased_keeps x e c m n = erase_sequence-keeps x.sequence e c.entries m n

  expire_loop-keeps :
      (fuel now : ℕ) (e : Entry prep) (c : Cache prep)
      → IsValid prep c
      → Held prep e c.entries
      → now < e.expires
      → Held prep e (expire_loop prep fuel now c).entries
  expire_loop-keeps zero now e c v m h = rw (expire_zero prep now c) m
  expire_loop-keeps (suc fuel) now e c v m h = elim (Option-cases (due prep now c.entries)) [
    | inl n ↦ rw (expire_stop prep fuel now c n) m
    | inr (x, d) ↦
        let k = due-some prep now x c.entries d in
        let late = due-late now x c.entries d in
        let other : e.sequence ≢ x.sequence = λ i. absurd (
          omega (
            arith,
            ap (λ (z : Entry prep). z.expires) (sequence_unique 0 e x c.entries v.ascending m k i),
          )) in
        let r =
          expired_one-Erasing prep c (erase_entry prep x c) (erase_entry-Erasing prep c x v k) in
        rw (expire_round prep fuel now c x d) (
          expire_loop-keeps fuel now e (expired_one prep (erase_entry prep x c)) r.valid
            (erased_keeps x e c m other) h)
  ]

  expire-keeps :
      (now : ℕ) (e : Entry prep) (c : Cache prep)
      → IsValid prep c
      → Held prep e c.entries
      → now < e.expires
      → Held prep e (expire prep now c).entries
  unfolding expire
  expire-keeps now e c v m h = expire_loop-keeps (length c.entries) now e c v m h

  lookup-Held :
      (e : Entry prep) (es : List (Entry prep))
      → IsSingle prep es
      → Held prep e es
      → lookup (prep.txid e.proof) (keys prep es) ≡ some e.sequence
  lookup-Held e [] s m = absurd m
  lookup-Held e (x ∷ es) s (inl m) =
      let i : (prep.txid x.proof == prep.txid x.proof) ≡ true = ground arith in rw (m, i) refl
  lookup-Held e (x ∷ es) s (inr m) =
      let other = Held-All prep (λ y. prep.txid y.proof ≢ prep.txid x.proof) e es s.0 m in
      let k : (prep.txid x.proof == prep.txid e.proof) ≡ false = ground (arith, other) in
      rw k (lookup-Held e es s.1 m)

  entry_at-Held :
      (low : ℕ) (e : Entry prep) (es : List (Entry prep))
      → Ascending prep low es
      → Held prep e es
      → entry_at prep e.sequence es ≡ some e
  entry_at-Held low e [] a m = absurd m
  entry_at-Held low e (x ∷ es) a (inl m) =
      let i : (x.sequence == x.sequence) ≡ true = ground arith in rw (m, i) refl
  entry_at-Held low e (x ∷ es) a (inr m) =
      let above =
        Held-All prep (λ y. x.sequence < y.sequence) e es (Ascending-All prep x.sequence es a.1)
          m in
      let k : (x.sequence == e.sequence) ≡ false = ground arith in
      rw k (entry_at-Held x.sequence e es a.1 m)

  nonempty_ready :
      (e : Entry prep) (c : Cache prep)
      → IsValid prep c
      → Held prep e c.entries
      → c.stats.ready ≡ true
  nonempty_ready e c v m = elim (Bool-cases c.stats.ready) [
    | inl y ↦ y
    | inr n ↦ absurd (subst (λ es. Held prep e es) (v.idle n) m)
  ]

  -- The request that a peer makes for an announced entry.
  abbrev pub request_for : Entry prep → Request
  request_for e = record { txid = prep.txid e.proof; epoch = e.epoch; digest = e.digest }

  -- An entry of the cache that has not expired is found, under its transaction and by its identity,
  -- however many older entries expire in the same call.
  pub find-Held :
      (now : ℕ) (e : Entry prep) (c : Cache prep)
      → IsValid prep c
      → Held prep e c.entries
      → now < e.expires
      → ((find prep now (prep.txid e.proof) none c).0 ≡ some e)
        × ((find_matching prep now (request_for e) c).0 ≡ some e)
  unfolding find find_matching wanted_entry
  find-Held now e c v m h =
      let x = expire-Erasing prep now c v in
      let k = expire-keeps now e c v m h in
      let ready = nonempty_ready e (expire prep now c) x.valid k in
      let f : lookup (prep.txid e.proof) (expire prep now c).by_txid ≡ some e.sequence =
        ap (λ ks. lookup (prep.txid e.proof) ks) x.valid.indexed
        ∙ lookup-Held e (expire prep now c).entries x.valid.single k in
      let g = entry_at-Held 0 e (expire prep now c).entries x.valid.ascending k in
      let epoch =
        (Held-All prep
          (λ k.
            (k.epoch ≡ (expire prep now c).stats.epoch)
            × ((expire prep now c).point ≡ some k.point))
          e (expire prep now c).entries x.valid.current k).0 in
      let a : ((expire prep now c).stats.epoch == e.epoch) ≡ true = ground arith in
      let b : (e.epoch == e.epoch) ≡ true = ground arith in
      let d : (e.digest == e.digest) ≡ true = ground arith in
      (rw (ready, f, g) refl, rw (ready, a, f, g, b, d) refl)
