-- ===== src/ProofCache/Insert.antt =====
-- The end of `Publish`: a new entry goes in at the end.
use utreexo_core_rpc.Common.{
  ℕ, ◌+◌, ◌^◌, ◌≤◌, ◌<◌, ◌≡◌, ◌≢◌, refl, sym, ap, ◌∙◌, inl, inr, arith, true, false, some, List, [],
  ◌∷◌, ◌++◌, length, ◌==◌, ltb,
}
use utreexo_core_rpc.ProofCache.{
  Preparation, ChainPoint, Entry, Cache, increment, emplace_key, emplace_entry, insert_entry,
}
use utreexo_core_rpc.ProofCache.Valid.{
  keys, total, Held, All, Ascending, Without, IsSingle, IsValid,
}
use utreexo_core_rpc.ProofCache.Erase.{Held-All, All-Held}
use utreexo_core_rpc.ProofCache.Evict.{HasRoom}

module _ (prep : Preparation) where
  emplace_entry-end :
      (new : Entry prep) (es : List (Entry prep))
      → All prep (λ e. e.sequence < new.sequence) es
      → emplace_entry prep new es ≡ es ++ new ∷ []
  emplace_entry-end new [] a = refl
  emplace_entry-end new (e ∷ es) a =
      let x : ltb new.sequence e.sequence ≡ false = ground (arith, a.0) in
      let y : (new.sequence == e.sequence) ≡ false = ground (arith, a.0) in
      rw (x, y) (ap (λ zs. e ∷ zs) (emplace_entry-end new es a.1))

  emplace_key-end :
      (t s : ℕ) (es : List (Entry prep))
      → Without prep t es
      → emplace_key t s (keys prep es) ≡ keys prep es ++ (t, s) ∷ []
  emplace_key-end t s [] a = refl
  emplace_key-end t s (e ∷ es) a =
      let n : (prep.txid e.proof == t) ≡ false = ground (arith, a.0) in
      rw n (ap (λ zs. (prep.txid e.proof, e.sequence) ∷ zs) (emplace_key-end t s es a.1))

  keys-end :
      (new : Entry prep) (es : List (Entry prep))
      → keys prep (es ++ new ∷ []) ≡ keys prep es ++ (prep.txid new.proof, new.sequence) ∷ []
  keys-end new [] = refl
  keys-end new (e ∷ es) = ap (λ zs. (prep.txid e.proof, e.sequence) ∷ zs) (keys-end new es)

  All-end :
      (P : Entry prep → Type 0) (new : Entry prep) (es : List (Entry prep))
      → All prep P es
      → P new
      → All prep P (es ++ new ∷ [])
  All-end P new [] a p = (p, tt)
  All-end P new (e ∷ es) a p = (a.0, All-end P new es a.1 p)

  Ascending-end :
      (low : ℕ) (new : Entry prep) (es : List (Entry prep))
      → Ascending prep low es
      → All prep (λ e. e.sequence < new.sequence) es
      → low < new.sequence
      → Ascending prep low (es ++ new ∷ [])
  Ascending-end low new [] a b h = (h, tt)
  Ascending-end low new (e ∷ es) a b h = (a.0, Ascending-end e.sequence new es a.1 b.1 b.0)

  IsSingle-end :
      (new : Entry prep) (es : List (Entry prep))
      → IsSingle prep es
      → Without prep (prep.txid new.proof) es
      → IsSingle prep (es ++ new ∷ [])
  IsSingle-end new [] a b = (tt, tt)
  IsSingle-end new (e ∷ es) a b = (
    All-end (λ x. prep.txid x.proof ≢ prep.txid e.proof) new es a.0 (λ x. b.0 (sym x)),
    IsSingle-end new es a.1 b.1,
  )

  total-end :
      (new : Entry prep) (es : List (Entry prep))
      → total prep (es ++ new ∷ []) ≡ total prep es + new.bytes
  total-end new [] = omega arith
  total-end new (e ∷ es) = omega (arith, total-end new es)

  length-end : (new : Entry prep) (es : List (Entry prep)) → length (es ++ new ∷ []) ≡ length es + 1
  length-end new [] = refl
  length-end new (e ∷ es) = omega (arith, length-end new es)

  Held-end : (new : Entry prep) (es : List (Entry prep)) → Held prep new (es ++ new ∷ [])
  Held-end new [] = inl refl
  Held-end new (e ∷ es) = inr (Held-end new es)

  -- The entry that `Publish` makes.
  abbrev pub new_entry : ℕ → ChainPoint → prep.Proof → ℕ → ℕ → Cache prep → Entry prep
  new_entry now p proof bytes digest c = record {
    point = p;
    sequence = increment c.sequence;
    proof = proof;
    expires = now + c.config.lifetime;
    bytes = bytes;
    epoch = c.stats.epoch;
    digest = digest;
  }

  module _ (now : ℕ) (p : ChainPoint) (proof : prep.Proof) (bytes digest : ℕ) (c : Cache prep)
      (v : IsValid prep c) (room : HasRoom prep bytes c)
      (apart : Without prep (prep.txid proof) c.entries) (here : c.point ≡ some p)
      (ready : c.stats.ready ≡ true) (more : c.sequence + 1 < 2 ^ 64) where
    abbrev added : Entry prep
    added = new_entry now p proof bytes digest c

    next : increment c.sequence ≡ c.sequence + 1
    next = omega arith

    below : All prep (λ e. e.sequence < increment c.sequence) c.entries
    below =
        All-Held prep (λ e. e.sequence < increment c.sequence) c.entries
          (λ e m.
            omega
              (arith, next, Held-All prep (λ e. e.sequence ≤ c.sequence) e c.entries v.latest m))

    pub insert_entry-entries :
        (insert_entry prep now p proof bytes digest c).entries ≡ c.entries ++ added ∷ []
    unfolding insert_entry
    insert_entry-entries = emplace_entry-end added c.entries below

    pub insert_entry-IsValid : IsValid prep (insert_entry prep now p proof bytes digest c)
    unfolding insert_entry
    insert_entry-IsValid =
        let e = emplace_entry-end added c.entries below in
        record {
          ascending =
              rw e (Ascending-end 0 added c.entries v.ascending below (omega (arith, next)));
          latest = rw e (
              All-end (λ x. x.sequence ≤ increment c.sequence) added c.entries
                (All-Held prep (λ x. x.sequence ≤ increment c.sequence) c.entries
                  (λ x m. omega (
                    arith,
                    Held-All prep (λ y. y.sequence < increment c.sequence) x c.entries below m,
                  )))
                (omega arith));
          indexed =
              ap (λ k. emplace_key (prep.txid proof) (increment c.sequence) k) v.indexed
              ∙ emplace_key-end (prep.txid proof) (increment c.sequence) c.entries apart
              ∙ sym (keys-end added c.entries)
              ∙ ap (λ es. keys prep es) (sym e);
          single = rw e (IsSingle-end added c.entries v.single apart);
          counted =
              rw e (omega (arith, total-end added c.entries, v.counted, room.fits, v.bounded.0));
          fits = rw e (omega (arith, total-end added c.entries, room.fits));
          few = rw e (omega (arith, length-end added c.entries, room.few));
          current = rw e (
              All-end (λ x. (x.epoch ≡ c.stats.epoch) × (c.point ≡ some x.point)) added c.entries
                v.current (refl, here));
          idle = λ x. cc (ready, x);
          bounded = v.bounded;
        }

    pub insert_entry-Held : Held prep added (insert_entry prep now p proof bytes digest c).entries
    insert_entry-Held = rw insert_entry-entries (Held-end added c.entries)
