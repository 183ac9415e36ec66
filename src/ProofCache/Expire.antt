-- ===== src/ProofCache/Expire.antt =====
-- `Impl::Expire` of src/transaction_cache.cpp, and one round of the eviction.
use utreexo_core_rpc.Common.{
  ℕ, zero, suc, ◌≤◌, ◌<◌, ◌≡◌, refl, sym, subst, ◌⊎◌, inl, inr, arith, Bool-cases, none, some,
  Option-cases, List, [], ◌∷◌, length, leb,
}
use utreexo_core_rpc.ProofCache.{
  Preparation, Entry, Cache, due, erase_entry, increment, expire_loop, expire,
}
use utreexo_core_rpc.ProofCache.Valid.{Held, IsValid, Erasing}
use utreexo_core_rpc.ProofCache.Erase.{
  Erasing-refl, Erasing-trans, erase_entry-Erasing, length-erase_entry,
}

List-cases : {A : Type 0} (xs : List A) → (xs ≡ []) ⊎ ((x : A) × (ys : List A) × (xs ≡ x ∷ ys))
List-cases [] = inl refl
List-cases (x ∷ ys) = inr (x, ys, refl)

module _ (prep : Preparation) where
  abbrev pub expired_one : Cache prep → Cache prep
  expired_one c = record c { stats = record c.stats { expired = increment c.stats.expired } }

  abbrev pub evicted_one : Cache prep → Cache prep
  evicted_one c = record c { stats = record c.stats { evicted = increment c.stats.evicted } }

  head-Held :
      (c : Cache prep) (e : Entry prep) (es : List (Entry prep))
      → c.entries ≡ e ∷ es
      → Held prep e c.entries
  head-Held c e es h = rw h (inl refl)

  pub expired_one-Erasing :
      (c c' : Cache prep) → Erasing prep c c' → Erasing prep c (expired_one c')
  expired_one-Erasing c c' r = record {
    valid = record {
      ascending = r.valid.ascending;
      latest = r.valid.latest;
      indexed = r.valid.indexed;
      single = r.valid.single;
      counted = r.valid.counted;
      fits = r.valid.fits;
      few = r.valid.few;
      current = r.valid.current;
      idle = r.valid.idle;
      bounded = r.valid.bounded;
    };
    same_config = r.same_config;
    same_point = r.same_point;
    same_sequence = r.same_sequence;
    same_epoch = r.same_epoch;
    same_ready = r.same_ready;
    kept = r.kept;
  }

  pub evicted_one-Erasing :
      (c c' : Cache prep) → Erasing prep c c' → Erasing prep c (evicted_one c')
  evicted_one-Erasing c c' r = record {
    valid = record {
      ascending = r.valid.ascending;
      latest = r.valid.latest;
      indexed = r.valid.indexed;
      single = r.valid.single;
      counted = r.valid.counted;
      fits = r.valid.fits;
      few = r.valid.few;
      current = r.valid.current;
      idle = r.valid.idle;
      bounded = r.valid.bounded;
    };
    same_config = r.same_config;
    same_point = r.same_point;
    same_sequence = r.same_sequence;
    same_epoch = r.same_epoch;
    same_ready = r.same_ready;
    kept = r.kept;
  }

  -- The oldest entry has not expired.
  abbrev pub IsFresh : ℕ → List (Entry prep) → Type 0
  IsFresh now [] = Unit
  IsFresh now (e ∷ es) = now < e.expires

  due-none : (now : ℕ) (es : List (Entry prep)) → due prep now es ≡ none → IsFresh now es
  due-none now [] h = tt
  due-none now (e ∷ es) h = ground arith

  pub due-some :
      (now : ℕ) (x : Entry prep) (es : List (Entry prep))
      → due prep now es ≡ some x
      → Held prep x es
  due-some now x [] h = cc
  due-some now x (e ∷ es) h = elim (Bool-cases (leb e.expires now)) [
    | inl y ↦ inl (cc (rw y at h))
    | inr n ↦ cc (rw n at h)
  ]

  pub expire_stop :
      (fuel now : ℕ) (c : Cache prep)
      → due prep now c.entries ≡ none
      → expire_loop prep (suc fuel) now c ≡ c
  unfolding expire_loop
  expire_stop fuel now c e = rw (expire_loop, e)

  pub expire_round :
      (fuel now : ℕ) (c : Cache prep) (x : Entry prep)
      → due prep now c.entries ≡ some x
      → expire_loop prep (suc fuel) now c
        ≡ expire_loop prep fuel now (expired_one (erase_entry prep x c))
  unfolding expire_loop
  expire_round fuel now c x e = rw (expire_loop, e)

  pub expire_zero : (now : ℕ) (c : Cache prep) → expire_loop prep zero now c ≡ c
  unfolding expire_loop
  expire_zero now c = refl

  pub no_entries : (es : List (Entry prep)) → length es ≤ 0 → es ≡ []
  no_entries [] h = refl
  no_entries (e ∷ es) h = absurd (omega arith)

  expire_loop-Erasing :
      (fuel now : ℕ) (c : Cache prep)
      → IsValid prep c
      → length c.entries ≤ fuel
      → Erasing prep c (expire_loop prep fuel now c)
        × IsFresh now (expire_loop prep fuel now c).entries
  expire_loop-Erasing zero now c v h =
      rw (expire_zero now c)
        (Erasing-refl prep c v, subst (λ es. IsFresh now es) (sym (no_entries c.entries h)) tt)
  expire_loop-Erasing (suc fuel) now c v h = elim (Option-cases (due prep now c.entries)) [
    | inl e ↦ rw (expire_stop fuel now c e) (Erasing-refl prep c v, due-none now c.entries e)
    | inr (x, e) ↦
        let m = due-some now x c.entries e in
        let r = expired_one-Erasing c (erase_entry prep x c) (erase_entry-Erasing prep c x v m) in
        let (k, f) =
          expire_loop-Erasing fuel now (expired_one (erase_entry prep x c)) r.valid
            (omega (arith, length-erase_entry prep c x v m)) in
        rw (expire_round fuel now c x e)
          (Erasing-trans prep c (expired_one (erase_entry prep x c)) _ r k, f)
  ]

  pub expire-Erasing :
      (now : ℕ) (c : Cache prep) → IsValid prep c → Erasing prep c (expire prep now c)
  unfolding expire
  expire-Erasing now c v = (expire_loop-Erasing (length c.entries) now c v (omega arith)).0

  pub expire-IsFresh :
      (now : ℕ) (c : Cache prep) → IsValid prep c → IsFresh now (expire prep now c).entries
  unfolding expire
  expire-IsFresh now c v = (expire_loop-Erasing (length c.entries) now c v (omega arith)).1
