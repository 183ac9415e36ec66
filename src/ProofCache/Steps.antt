-- ===== src/ProofCache/Steps.antt =====
-- Runs of the cache: calls in any order, at any times.
use utreexo_core_rpc.Common.{
  ℕ, ◌+◌, ◌^◌, ◌≤◌, ◌<◌, ◌≡◌, refl, ap, ◌∙◌, subst, inl, inr, arith, true, false, Bool-cases,
  Option, none, some, Option-cases, List, [], ◌∷◌,
}
use utreexo_core_rpc.ProofCache.{
  Preparation, ChainPoint, Entry, Cache, Request, expire, erase_txid, publish, clear, activate,
  left_point, same_point, find, find_matching,
}
use utreexo_core_rpc.ProofCache.Valid.{All, IsValid, Erasing}
use utreexo_core_rpc.ProofCache.Expire.{expire-Erasing}
use utreexo_core_rpc.ProofCache.Evict.{erase_txid-Erasing}
use utreexo_core_rpc.ProofCache.Publish.{publish-Published, same_point-eq}

module _ (prep : Preparation) where
  -- A call with the mutex held. The counters of calls stay below 2 ^ 64.
  pub data Step : Cache prep → Cache prep → Type 0 where
    invalidating : (c : Cache prep) → c.stats.epoch + 1 < 2 ^ 64 → Step c (clear prep c)
    activating :
        (p : ChainPoint) (c : Cache prep) → c.stats.epoch + 1 < 2 ^ 64 → Step c (activate prep p c)
    publishing :
        (now later : ℕ) (p : ChainPoint) (proof : prep.Proof) (c : Cache prep)
        → c.sequence + 1 < 2 ^ 64
        → Step c (publish prep now later p proof c).1
    erasing : (t : ℕ) (c : Cache prep) → Step c (erase_txid prep t c)
    finding : (now t : ℕ) (wanted : Option ℕ) (c : Cache prep) → Step c (find prep now t wanted c).1
    matching : (now : ℕ) (r : Request) (c : Cache prep) → Step c (find_matching prep now r c).1

  pub data Steps : Cache prep → Cache prep → Type 0 where
    done : (c : Cache prep) → Steps c c
    next_step : {a b c : Cache prep} → Step a b → Steps b c → Steps a c

  -- What a call keeps: the order of the cache, and that the epoch never goes back.
  pub record Kept (c c' : Cache prep) : Type 0 where
    pub valid : IsValid prep c'
    pub later : c.stats.epoch ≤ c'.stats.epoch

  pub clear-Kept :
      (c : Cache prep)
      → IsValid prep c
      → c.stats.epoch + 1 < 2 ^ 64
      → Kept c (clear prep c) × ((clear prep c).stats.epoch ≡ c.stats.epoch + 1)
  unfolding clear
  clear-Kept c v h = (
    record {
      valid = record {
        ascending = tt;
        latest = tt;
        indexed = refl;
        single = tt;
        counted = refl;
        fits = omega arith;
        few = omega arith;
        current = tt;
        idle = λ x. refl;
        bounded = v.bounded;
      };
      later = omega arith;
    },
    omega arith,
  )

  -- `Activate` sets the point again, which an entry already has.
  pointed-IsValid :
      (p : ChainPoint) (c : Cache prep)
      → IsValid prep c
      → All prep (λ e. (e.epoch ≡ c.stats.epoch) × (some p ≡ some e.point)) c.entries
      → IsValid prep (record c { point = some p; stats = record c.stats { ready = true } })
  pointed-IsValid p c v current = record {
    ascending = v.ascending;
    latest = v.latest;
    indexed = v.indexed;
    single = v.single;
    counted = v.counted;
    fits = v.fits;
    few = v.few;
    current = current;
    idle = λ x. cc;
    bounded = v.bounded;
  }

  unpointed :
      (p : ChainPoint) (c : Cache prep) (es : List (Entry prep))
      → c.point ≡ none
      → All prep (λ e. (e.epoch ≡ c.stats.epoch) × (c.point ≡ some e.point)) es
      → All prep (λ e. (e.epoch ≡ c.stats.epoch) × (some p ≡ some e.point)) es
  unpointed p c [] n a = tt
  unpointed p c (e ∷ es) n a = absurd (cc (n, a.0.1))

  activate-Kept :
      (p : ChainPoint) (c : Cache prep)
      → IsValid prep c
      → c.stats.epoch + 1 < 2 ^ 64
      → Kept c (activate prep p c)
  unfolding activate left_point clear
  activate-Kept p c v h = elim (Option-cases c.point) [
    | inl n ↦ rw (first n) (record {
      valid = pointed-IsValid p c v (unpointed p c c.entries n v.current);
      later = omega arith;
    })
    | inr (q, e) ↦ elim (Bool-cases (same_point q p)) [
      | inl y ↦
          let x : c.point ≡ some p = e ∙ ap (λ z. some z) (same_point-eq prep q p y) in
          rw (same q e y) (record {
            valid = pointed-IsValid p c v (
                subst
                  (λ z. All prep (λ e. (e.epoch ≡ c.stats.epoch) × (z ≡ some e.point)) c.entries) x
                  v.current);
            later = omega arith;
          })
      | inr n ↦
          let (k, _) = clear-Kept c v h in
          rw (moved q e n) (record {
            valid = pointed-IsValid p (clear prep c) k.valid (cleared p c);
            later = k.later;
          })
    ]
  ]
    where
      first :
          c.point ≡ none
          → activate prep p c ≡ record c { point = some p; stats = record c.stats { ready = true } }
      first n = rw (activate, n)

      same :
          (q : ChainPoint)
          → c.point ≡ some q
          → same_point q p ≡ true
          → activate prep p c ≡ record c { point = some p; stats = record c.stats { ready = true } }
      same q e y = rw (activate, e, y)

      moved :
          (q : ChainPoint)
          → c.point ≡ some q
          → same_point q p ≡ false
          → activate prep p c ≡ record (clear prep c) {
            point = some p;
            stats = record (clear prep c).stats { ready = true };
          }
      moved q e n = rw (activate, e, n)

      cleared :
          (p : ChainPoint) (c : Cache prep)
          → All prep
              (λ e. (e.epoch ≡ (clear prep c).stats.epoch) × (some p ≡ some e.point))
              (clear prep c).entries
      cleared p c = tt

  Erasing-Kept : (c c' : Cache prep) → Erasing prep c c' → Kept c c'
  Erasing-Kept c c' r = record { valid = r.valid; later = omega (arith, r.same_epoch) }

  find-state :
      (now t : ℕ) (wanted : Option ℕ) (c : Cache prep)
      → (find prep now t wanted c).1 ≡ expire prep now c
  unfolding find
  find-state now t wanted c = refl

  find_matching-state :
      (now : ℕ) (r : Request) (c : Cache prep) → (find_matching prep now r c).1 ≡ expire prep now c
  unfolding find_matching
  find_matching-state now r c = refl

  Step-Kept : (c c' : Cache prep) → Step c c' → IsValid prep c → Kept c c'
  Step-Kept c _ (invalidating _ h) v = (clear-Kept c v h).0
  Step-Kept c _ (activating p _ h) v = activate-Kept p c v h
  Step-Kept c _ (publishing now later p proof _ h) v =
      let q = publish-Published prep now later p proof c v h in
      record { valid = q.valid; later = omega (arith, q.same_epoch) }
  Step-Kept c _ (erasing t _) v = Erasing-Kept c _ (erase_txid-Erasing prep t c v).0
  Step-Kept c _ (finding now t wanted _) v =
      rw (find-state now t wanted c) (Erasing-Kept c _ (expire-Erasing prep now c v))
  Step-Kept c _ (matching now r _) v =
      rw (find_matching-state now r c) (Erasing-Kept c _ (expire-Erasing prep now c v))

  -- A cache stays in order through any calls in any order, at any times, and its epoch never goes
  -- back.
  pub Steps-Kept : (c c' : Cache prep) → Steps c c' → IsValid prep c → Kept c c'
  Steps-Kept c _ (done _) v = record { valid = v; later = omega arith }
  Steps-Kept c c' (next_step {b = b} s rest) v =
      let k = Step-Kept c b s v in
      let l = Steps-Kept b c' rest k.valid in
      record { valid = l.valid; later = omega (arith, k.later, l.later) }
