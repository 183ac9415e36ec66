-- ===== src/ProofCache/Evict.antt =====
-- The loop of `Publish` in src/transaction_cache.cpp that makes room, and `Erase`.
use utreexo_core_rpc.Common.{
  ℕ, zero, suc, ◌+◌, ◌-◌, ◌^◌, ◌≤◌, ◌<◌, ◌≡◌, refl, sym, subst, ap, inl, inr, arith, false, ◌||◌,
  Bool-cases, Option, none, some, Option-cases, List, [], ◌∷◌, length, ltb, leb,
}
use utreexo_core_rpc.ProofCache.{
  Preparation, Config, Entry, Cache, entry_at, crowding, lookup, erase_entry, subtract, evict_loop,
  erase_txid,
}
use utreexo_core_rpc.ProofCache.Valid.{total, Held, Without, IsValid, Erasing}
use utreexo_core_rpc.ProofCache.Erase.{
  keys-lookup, lookup-Without, Erasing-refl, Erasing-trans, erase_entry-Erasing,
  erase_entry-Without, length-erase_entry,
}
use utreexo_core_rpc.ProofCache.Expire.{evicted_one, evicted_one-Erasing, no_entries}

module _ (prep : Preparation) where
  -- There is room for an entry of that size.
  pub record HasRoom (bytes : ℕ) (c : Cache prep) : Type 0 where
    pub fits : total prep c.entries + bytes ≤ c.config.max_bytes
    pub few : length c.entries < c.config.max_entries

  abbrev crowd : ℕ → Cache prep → Option (Entry prep)
  crowd bytes c = crowding prep bytes c.config c.stats.bytes c.entries

  evict_stop :
      (fuel bytes : ℕ) (c : Cache prep)
      → crowd bytes c ≡ none
      → evict_loop prep (suc fuel) bytes c ≡ c
  unfolding evict_loop
  evict_stop fuel bytes c e = rw (evict_loop, e)

  evict_round :
      (fuel bytes : ℕ) (c : Cache prep) (x : Entry prep)
      → crowd bytes c ≡ some x
      → evict_loop prep (suc fuel) bytes c
        ≡ evict_loop prep fuel bytes (evicted_one prep (erase_entry prep x c))
  unfolding evict_loop
  evict_round fuel bytes c x e = rw (evict_loop, e)

  evict_zero : (bytes : ℕ) (c : Cache prep) → evict_loop prep zero bytes c ≡ c
  unfolding evict_loop
  evict_zero bytes c = refl

  crowding-some :
      (bytes : ℕ) (config : Config) (used : ℕ) (x : Entry prep) (es : List (Entry prep))
      → crowding prep bytes config used es ≡ some x
      → Held prep x es
  crowding-some bytes config used x [] h = cc
  crowding-some bytes config used x (e ∷ es) h =
      elim (Bool-cases
        (leb config.max_entries (length (e ∷ es)) || ltb (subtract config.max_bytes used) bytes)) [
          | inl y ↦ inl (cc (rw y at h))
          | inr n ↦ cc (rw n at h)
        ]

  crowding-none :
      (bytes : ℕ) (config : Config) (es : List (Entry prep))
      → crowding prep bytes config (total prep es) es ≡ none
      → total prep es ≤ config.max_bytes
      → bytes ≤ config.max_bytes
      → (config.max_bytes < 2 ^ 64) × (0 < config.max_entries)
      → (total prep es + bytes ≤ config.max_bytes) × (length es < config.max_entries)
  crowding-none bytes config [] h t b k = (omega arith, k.1)
  crowding-none bytes config (e ∷ es) h t b k =
      go config.max_entries (length (e ∷ es)) config.max_bytes (total prep (e ∷ es)) t k.0
        (elim (Bool-cases (
          leb config.max_entries (length (e ∷ es))
          || ltb (subtract config.max_bytes (total prep (e ∷ es))) bytes)) [
            | inl y ↦ cc (rw y at h)
            | inr n ↦ n
          ])
    where
      go :
          (max_entries n max_bytes sum : ℕ)
          → sum ≤ max_bytes
          → max_bytes < 2 ^ 64
          → (leb max_entries n || ltb (subtract max_bytes sum) bytes) ≡ false
          → (sum + bytes ≤ max_bytes) × (n < max_entries)
      go max_entries n max_bytes sum h k x =
          let y : subtract max_bytes sum ≡ max_bytes - sum = omega arith in
          ground (arith, rw y at x)

  enough :
      (bytes : ℕ) (c : Cache prep)
      → IsValid prep c
      → crowd bytes c ≡ none
      → bytes ≤ c.config.max_bytes
      → HasRoom bytes c
  enough bytes c v n b =
      let (fits, few) =
        crowding-none bytes c.config c.entries
          (subst (λ u. crowding prep bytes c.config u c.entries ≡ none) v.counted n) v.fits b
          v.bounded in
      record { fits = fits; few = few }

  empty_room :
      (bytes : ℕ) (c : Cache prep)
      → IsValid prep c
      → c.entries ≡ []
      → bytes ≤ c.config.max_bytes
      → HasRoom bytes c
  empty_room bytes c v e b = record {
    fits = subst (λ es. total prep es + bytes ≤ c.config.max_bytes) (sym e) (omega arith);
    few = subst (λ es. length es < c.config.max_entries) (sym e) v.bounded.1;
  }

  pub evict_loop-Erasing :
      (fuel bytes : ℕ) (c : Cache prep)
      → IsValid prep c
      → length c.entries ≤ fuel
      → bytes ≤ c.config.max_bytes
      → Erasing prep c (evict_loop prep fuel bytes c) × HasRoom bytes (evict_loop prep fuel bytes c)
  evict_loop-Erasing zero bytes c v h b =
      rw (evict_zero bytes c)
        (Erasing-refl prep c v, empty_room bytes c v (no_entries prep c.entries h) b)
  evict_loop-Erasing (suc fuel) bytes c v h b = elim (Option-cases (crowd bytes c)) [
    | inl n ↦ rw (evict_stop fuel bytes c n) (Erasing-refl prep c v, enough bytes c v n b)
    | inr (x, e) ↦
        let m = crowding-some bytes c.config c.stats.bytes x c.entries e in
        let r =
          evicted_one-Erasing prep c (erase_entry prep x c) (erase_entry-Erasing prep c x v m) in
        let (k, f) =
          evict_loop-Erasing fuel bytes (evicted_one prep (erase_entry prep x c)) r.valid
            (omega (arith, length-erase_entry prep c x v m))
            (omega (arith, ap (λ (g : Config). g.max_bytes) r.same_config)) in
        rw (evict_round fuel bytes c x e)
          (Erasing-trans prep c (evicted_one prep (erase_entry prep x c)) _ r k, f)
  ]

  pub erase_txid-Erasing :
      (t : ℕ) (c : Cache prep)
      → IsValid prep c
      → Erasing prep c (erase_txid prep t c) × Without prep t (erase_txid prep t c).entries
  unfolding erase_txid
  erase_txid-Erasing t c v = elim (Option-cases (lookup t c.by_txid)) [
    | inl n ↦
        rw (missing n) (Erasing-refl prep c v, lookup-Without prep t c.entries (rw v.indexed at n))
    | inr (s, f) ↦
        let (e, m, i, q, at_s) = keys-lookup prep 0 t s c.entries v.ascending (rw v.indexed at f) in
        rw (present s e f at_s)
          (erase_entry-Erasing prep c e v m, rw i at (erase_entry-Without prep c e v m))
  ]
    where
      missing : lookup t c.by_txid ≡ none → erase_txid prep t c ≡ c
      missing n = rw (erase_txid, n)

      present :
          (s : ℕ) (e : Entry prep)
          → lookup t c.by_txid ≡ some s
          → entry_at prep s c.entries ≡ some e
          → erase_txid prep t c ≡ erase_entry prep e c
      present s e f g = rw (erase_txid, f, g)
