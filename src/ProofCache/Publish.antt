-- ===== src/ProofCache/Publish.antt =====
-- `Publish`, `Activate` and `Invalidate` keep a cache in order.
use utreexo_core_rpc.Common.{
  String, ℕ, ◌+◌, ◌^◌, ◌≤◌, ◌<◌, ◌≡◌, ◌≢◌, refl, ap, ◌∙◌, subst, ◌⊎◌, inl, inr, arith, Bool, true,
  false, Bool-cases, some, Option-cases, List, [], ◌∷◌, ◌++◌, length, ltb,
}
use utreexo_core_rpc.Result.{Result-cases, Result, ok, err}
use utreexo_core_rpc.ProofCache.{
  Preparation, Config, ChainPoint, same_point, Entry, Cache, increment, expire, evict_loop,
  erase_txid, insert_entry, anchored, entry_bytes, publish_prepared, publish, digest_of,
}
use utreexo_core_rpc.ProofCache.Valid.{Held, Without, IsValid, Erasing}
use utreexo_core_rpc.ProofCache.Erase.{Held-All, All-Held, Erasing-trans}
use utreexo_core_rpc.ProofCache.Expire.{expire-Erasing}
use utreexo_core_rpc.ProofCache.Evict.{HasRoom, evict_loop-Erasing, erase_txid-Erasing}
use utreexo_core_rpc.ProofCache.Insert.{
  new_entry, insert_entry-entries, insert_entry-IsValid, insert_entry-Held,
}

module _ (prep : Preparation) where
  -- What a call of `Publish` gives.
  pub record Published (p : ChainPoint) (proof : prep.Proof) (c : Cache prep) (r : Result Bool)
      (c' : Cache prep) : Type 0 where
    pub valid : IsValid prep c'
    pub same_epoch : c'.stats.epoch ≡ c.stats.epoch
    pub same_config : c'.config ≡ c.config
    -- only what the call reports as published is new, and that is there
    pub held :
        r ≡ ok true → (e : Entry prep) × Held prep e c'.entries × (e.proof ≡ proof) × (e.point ≡ p)
    pub others :
        (e : Entry prep)
        → Held prep e c'.entries
        → Held prep e c.entries ⊎ ((e.proof ≡ proof) × (e.point ≡ p) × (r ≡ ok true))

  Held-split :
      (e new : Entry prep) (es : List (Entry prep))
      → Held prep e (es ++ new ∷ [])
      → Held prep e es ⊎ (e ≡ new)
  Held-split e new [] (inl m) = inr m
  Held-split e new [] (inr m) = absurd m
  Held-split e new (x ∷ es) (inl m) = inl (inl m)
  Held-split e new (x ∷ es) (inr m) = elim (Held-split e new es m) [
    | inl k ↦ inl (inr k)
    | inr k ↦ inr k
  ]

  pub same_point-eq : (q p : ChainPoint) → same_point q p ≡ true → q ≡ p
  same_point-eq q p h =
      let x : q.height ≡ p.height = ground arith in
      let y : q.block_hash ≡ p.block_hash = ground arith in rw (x, y) refl

  anchored-point :
      (p : ChainPoint) (c : Cache prep)
      → anchored prep p c ≡ true
      → (c.point ≡ some p) × (c.stats.ready ≡ true)
  anchored-point p c h = elim (Option-cases c.point) [
    | inl n ↦ cc (rw n at h)
    | inr (q, e) ↦
        let k = rw e at h in
        let x : same_point q p ≡ true = ground (arith, k) in
        let y : c.stats.ready ≡ true = ground (arith, k) in
        (e ∙ ap (λ z. some z) (same_point-eq q p x), y)
  ]

  module _ (now later : ℕ) (p : ChainPoint) (proof : prep.Proof) (digest : ℕ) (c : Cache prep)
      (v : IsValid prep c) where
    refused : (message : String) → Published p proof c (err message) c
    refused message = record {
      valid = v;
      same_epoch = refl;
      same_config = refl;
      held = λ x. cc;
      others = λ e m. inl m;
    }

    abbrev oversized_one : Cache prep → Cache prep
    oversized_one d = record d {
      stats = record d.stats { oversized = increment d.stats.oversized };
    }

    too_large :
        (c₁ : Cache prep) → Erasing prep c c₁ → Published p proof c (ok false) (oversized_one c₁)
    too_large c₁ r = record {
      valid = record {
        ascending = r.valid.ascending;
        latest = r.valid.latest;
        indexed = r.valid.indexed;
        single = r.valid.single;
        counted = r.valid.counted;
        fits = r.valid.fits;
        few = r.valid.few;
        current = r.valid.current;
        idle = r.valid.idle;
        bounded = r.valid.bounded;
      };
      same_epoch = r.same_epoch;
      same_config = r.same_config;
      held = λ x. cc;
      others = λ e m. inl (r.kept e m);
    }

    -- The cache with room made, before the new entry goes in.
    abbrev roomy : Cache prep
    roomy =
        let c₂ = erase_txid prep (prep.txid proof) (expire prep now c) in
        evict_loop prep (length c₂.entries) (entry_bytes prep proof) c₂

    record Roomy : Type 0 where
      erasing : Erasing prep c roomy
      room : HasRoom prep (entry_bytes prep proof) roomy
      apart : Without prep (prep.txid proof) roomy.entries

    roomy-Roomy : entry_bytes prep proof ≤ c.config.max_bytes → Roomy
    roomy-Roomy h =
        let r₁ = expire-Erasing prep now c v in
        let (r₂, w) = erase_txid-Erasing prep (prep.txid proof) (expire prep now c) r₁.valid in
        let r₁₂ = Erasing-trans prep _ _ _ r₁ r₂ in
        let c₂ = erase_txid prep (prep.txid proof) (expire prep now c) in
        let (r₃, room) =
          evict_loop-Erasing prep (length c₂.entries) (entry_bytes prep proof) c₂ r₂.valid
            (omega arith) (omega (arith, ap (λ (g : Config). g.max_bytes) r₁₂.same_config)) in
        record {
          erasing = Erasing-trans prep _ _ _ r₁₂ r₃;
          room = room;
          apart =
              All-Held prep (λ x. prep.txid x.proof ≢ prep.txid proof) roomy.entries
                (λ x m.
                  Held-All prep (λ y. prep.txid y.proof ≢ prep.txid proof) x c₂.entries w
                    (r₃.kept x m));
        }

    inserted :
        c.point ≡ some p
        → c.stats.ready ≡ true
        → c.sequence + 1 < 2 ^ 64
        → Roomy
        → Published p proof c
            (ok true)
            (insert_entry prep later p proof (entry_bytes prep proof) digest roomy)
    unfolding insert_entry
    inserted here ready more r =
        let bytes = entry_bytes prep proof in
        let e = r.erasing in
        let here' = e.same_point ∙ here in
        let ready' = e.same_ready ∙ ready in
        let more' : roomy.sequence + 1 < 2 ^ 64 = omega (arith, e.same_sequence) in
        record {
          valid =
              insert_entry-IsValid prep later p proof bytes digest roomy e.valid r.room r.apart
                here' ready' more';
          same_epoch = insert_entry-epoch bytes roomy ∙ e.same_epoch;
          same_config = insert_entry-config bytes roomy ∙ e.same_config;
          held = λ x. (
            new_entry prep later p proof bytes digest roomy,
            insert_entry-Held prep later p proof bytes digest roomy e.valid r.room r.apart here'
                ready' more',
            refl,
            refl,
          );
          others = λ x m.
              elim (Held-split x (new_entry prep later p proof bytes digest roomy) roomy.entries (
                subst (λ es. Held prep x es)
                  (insert_entry-entries prep later p proof bytes digest roomy e.valid r.room r.apart
                    here' ready' more')
                  m)) [ inl k ↦ inl (e.kept x k) | inr k ↦ inr (rw k refl, rw k refl, refl) ];
        }
      where
        insert_entry-epoch :
            (bytes : ℕ) (d : Cache prep)
            → (insert_entry prep later p proof bytes digest d).stats.epoch ≡ d.stats.epoch
        insert_entry-epoch bytes d = refl

        insert_entry-config :
            (bytes : ℕ) (d : Cache prep)
            → (insert_entry prep later p proof bytes digest d).config ≡ d.config
        insert_entry-config bytes d = refl

    publish_prepared-Published :
        c.sequence + 1 < 2 ^ 64
        → let q = publish_prepared prep now later p proof digest c in Published p proof c q.0 q.1
    unfolding publish_prepared
    publish_prepared-Published more = elim (Bool-cases (anchored prep p c)) [
      | inr n ↦ rw n (refused "transaction cache anchor changed during preparation")
      | inl y ↦ elim (Bool-cases (ltb c.config.max_bytes (entry_bytes prep proof))) [
        | inl large ↦ rw (y, large) (too_large (expire prep now c) (expire-Erasing prep now c v))
        | inr small ↦
            let (here, ready) = anchored-point p c y in
            rw (y, small) (inserted here ready more (roomy-Roomy (ground arith)))
      ]
    ]

  -- On a cache that is in order and whose sequence counter does not overflow, `Publish` leaves the
  -- cache in order, at whatever times it reads from the clock and whatever it returns: within its bounds in
  -- entries and bytes, with `by_txid` the index of the entries, all of the present epoch and chain
  -- point. If it returns true, the proof is in the cache under the point that was given; otherwise
  -- nothing is added. Every other entry was there before; epoch and settings stay.
  pub publish-Published :
      (now later : ℕ) (p : ChainPoint) (proof : prep.Proof) (c : Cache prep)
      → IsValid prep c
      → c.sequence + 1 < 2 ^ 64
      → let q = publish prep now later p proof c in Published p proof c q.0 q.1
  unfolding publish
  publish-Published now later p proof c v more = elim (Result-cases (prep.serialize proof)) [
    | inl (encoded, e) ↦
        rw (publish, e)
          (publish_prepared-Published now later p proof (digest_of prep encoded proof) c v more)
    | inr (inl (message, e)) ↦ rw (publish, e) (refused now later p proof 0 c v message)
    | inr (inr (message, e)) ↦
        rw (publish, e)
          (record {
            valid = v;
            same_epoch = refl;
            same_config = refl;
            held = λ x. cc;
            others = λ e m. inl m;
          })
  ]
