-- ===== src/Sync/Process.antt =====
-- `ProcessNext`: the chain grows by the block that the forest took, or not at all.
use utreexo_core_rpc.Common.{
  ℕ, suc, ◌-◌, ◌≡◌, ◌≢◌, refl, sym, ap, ◌∙◌, subst, inl, inr, arith, true, false, not, ◌&&◌,
  Bool-cases, Option, some, List, ◌∷◌, ◌==◌, ltb, length, get_or,
}
use utreexo_core_rpc.Result.{Result, ok, err, thrown, >>=-eq-ok, Result-cases}
use utreexo_core_rpc.ProofCache.{ChainPoint}
use utreexo_core_rpc.Sync.{
  BlockDelta, FetchedBlock, Parts, Sync, current_point_of, hash_at, resolve, connected,
  checked_delta, wants_proof, proof_for, prepared, applied, process_next,
}

module _ (parts : Parts) where
  -- What a forest promises, given the hashes of the blocks that it has taken, the last first: a block
  -- is taken or it is not; a rollback gives the point before and forgets one block, or nothing changes.
  pub record IsFaithful (history : parts.Forest → List ℕ) : Type 0 where
    pub modify_ok :
        (added deleted : List ℕ) (p : ChainPoint) (f : parts.Forest)
        → (parts.modify_block added deleted p f).0 ≡ ok tt
        → history (parts.modify_block added deleted p f).1 ≡ p.block_hash ∷ history f
    pub modify_kept :
        (added deleted : List ℕ) (p : ChainPoint) (f : parts.Forest)
        → (parts.modify_block added deleted p f).0 ≢ ok tt
        → history (parts.modify_block added deleted p f).1 ≡ history f
    pub rollback_ok :
        (p : ChainPoint) (f : parts.Forest)
        → (parts.rollback_online_block f).0 ≡ ok p
        → (tip : ℕ) × (history f ≡ tip ∷ history (parts.rollback_online_block f).1)
          × (current_point_of parts (history (parts.rollback_online_block f).1) ≡ some p)
    pub rollback_kept :
        (f : parts.Forest)
        → ((p : ChainPoint) → (parts.rollback_online_block f).0 ≢ ok p)
        → history (parts.rollback_online_block f).1 ≡ history f

  -- The forest has taken just the blocks of the chain.
  abbrev pub IsAligned : (parts.Forest → List ℕ) → Sync parts → Type 0
  IsAligned history s = history s.forest ≡ s.chain_hashes

  -- The block extends the chain.
  pub record Extends (chain : List ℕ) (d : BlockDelta) : Type 0 where
    pub next : d.point.height ≡ length chain
    pub linked : (tip : ℕ) (earlier : List ℕ) → chain ≡ tip ∷ earlier → d.previous_block_hash ≡ tip

  both_equal : (k l m n : ℕ) → ((k == l) && (m == n)) ≡ true → (k ≡ l) × (m ≡ n)
  both_equal k l m n h = (ground (arith, h), ground (arith, h))

  tip_hash :
      (tip : ℕ) (earlier : List ℕ)
      → hash_at parts (length (tip ∷ earlier) - 1) (tip ∷ earlier) ≡ tip
  tip_hash tip earlier =
      let x : length (tip ∷ earlier) - 1 - (length (tip ∷ earlier) - 1) ≡ 0 = omega arith in
      ap (λ k. get_or (tip ∷ earlier) k 0) x

  linked_tip :
      (d : BlockDelta) (tip : ℕ) (earlier : List ℕ)
      → (ltb 0 (length (tip ∷ earlier))
          && not
              (d.previous_block_hash == hash_at parts (length (tip ∷ earlier) - 1) (tip ∷ earlier)))
        ≡ false
      → d.previous_block_hash ≡ tip
  linked_tip d tip earlier h =
      let e : (ltb 0 (suc (length earlier)) && not (d.previous_block_hash == tip)) ≡ false =
        subst (λ k. (ltb 0 (suc (length earlier)) && not (d.previous_block_hash == k)) ≡ false)
          (tip_hash tip earlier) h in
      ground (arith, e)

  connected-Extends :
      (chain : List ℕ) (fetched : FetchedBlock parts.Json) (d d' : BlockDelta)
      → connected parts chain fetched d ≡ ok d'
      → Extends chain d' × (d'.point.block_hash ≡ fetched.hash)
  unfolding connected
  connected-Extends chain fetched d d' h =
      elim (Bool-cases ((d.point.height == length chain) && (d.point.block_hash == fetched.hash))) [
        | inr n ↦ cc (rw n at h)
        | inl y ↦
            elim (Bool-cases (
              ltb 0 (length chain)
              && not (d.previous_block_hash == hash_at parts (length chain - 1) chain))) [
                | inl z ↦ cc (rw (y, z) at h)
                | inr z ↦
                    let e : d ≡ d' = cc (rw (y, z) at h) in
                    let (height, hash) =
                      both_equal d.point.height (length chain) d.point.block_hash fetched.hash y in
                    let x : Extends chain d = record {
                      next = height;
                      linked = λ tip earlier c. linked_tip d tip earlier (
                          subst
                            (λ k.
                              (ltb 0 (length k)
                                && not (d.previous_block_hash == hash_at parts (length k - 1) k))
                              ≡ false)
                            c z);
                    } in
                    subst (λ k. Extends chain k × (k.point.block_hash ≡ fetched.hash)) e (x, hash)
              ]
      ]

  checked_delta-Extends :
      (chain : List ℕ) (fetched : FetchedBlock parts.Json) (d : BlockDelta)
      → checked_delta parts chain fetched ≡ ok d
      → Extends chain d × (d.point.block_hash ≡ fetched.hash)
  unfolding checked_delta
  checked_delta-Extends chain fetched d h = elim (Bool-cases (fetched.height == length chain)) [
    | inr n ↦ cc (rw n at h)
    | inl y ↦
        let (e, _, k) =
          >>=-eq-ok (parts.parse fetched.json (resolve parts chain))
            (λ d. connected parts chain fetched d) d (rw y at h) in
        connected-Extends chain fetched e d k
  ]

  prepared-Extends :
      (fetched : FetchedBlock parts.Json) (s : Sync parts) (p : BlockDelta × Option parts.Proof)
      → prepared parts fetched s ≡ ok p
      → Extends s.chain_hashes p.0 × (p.0.point.block_hash ≡ fetched.hash)
  unfolding prepared
  prepared-Extends fetched s p h =
      let (d, run, k) = >>=-eq-ok (checked_delta parts s.chain_hashes fetched) _ p h in
      let (g, _, l) = >>=-eq-ok (wants_proof parts s.generate_proofs s.proof_policy d) _ p k in
      let (q, _, m) = >>=-eq-ok (proof_for parts g d s.forest) _ p l in
      let e : d ≡ p.0 = ap (λ (z : Result (BlockDelta × Option parts.Proof)). first_of z d) m in
      subst (λ k. Extends s.chain_hashes k × (k.point.block_hash ≡ fetched.hash)) e
        (checked_delta-Extends s.chain_hashes fetched d run)
    where
      first_of : Result (BlockDelta × Option parts.Proof) → BlockDelta → BlockDelta
      first_of (ok z) d = z.0
      first_of (err e) d = d
      first_of (thrown e) d = d

  -- What a call of `ProcessNext` gives.
  pub record Processed (history : parts.Forest → List ℕ) (s : Sync parts)
      (r : Result (BlockDelta × Option parts.Proof)) (s' : Sync parts) : Type 0 where
    pub aligned : IsAligned history s'
    pub grown :
        (p : BlockDelta × Option parts.Proof)
        → r ≡ ok p
        → Extends s.chain_hashes p.0 × (s'.chain_hashes ≡ p.0.point.block_hash ∷ s.chain_hashes)
    pub kept : ((p : BlockDelta × Option parts.Proof) → r ≢ ok p) → s'.chain_hashes ≡ s.chain_hashes

  module _ (history : parts.Forest → List ℕ) (faithful : IsFaithful history) (s : Sync parts)
      (al : IsAligned history s) where
    unchanged :
        (r : Result (BlockDelta × Option parts.Proof))
        → ((p : BlockDelta × Option parts.Proof) → r ≢ ok p)
        → Processed history s r s
    unchanged r n = record { aligned = al; grown = λ p e. absurd (n p e); kept = λ k. refl }

    applied-Processed :
        (hash : ℕ) (p : BlockDelta × Option parts.Proof)
        → Extends s.chain_hashes p.0
        → p.0.point.block_hash ≡ hash
        → Processed history s (applied parts hash p s).0 (applied parts hash p s).1
    unfolding applied
    applied-Processed hash p x h =
        elim (Result-cases (parts.modify_block p.0.additions p.0.deletions p.0.point s.forest).0) [
          | inl (tt, e) ↦
              rw (applied, e)
                (record {
                  aligned =
                      faithful.modify_ok p.0.additions p.0.deletions p.0.point s.forest e
                      ∙ ap (λ k. k ∷ history s.forest) h
                      ∙ ap (λ k. hash ∷ k) al;
                  grown = λ q k.
                      subst
                        (λ z.
                          Extends s.chain_hashes z.0
                          × (hash ∷ s.chain_hashes ≡ z.0.point.block_hash ∷ s.chain_hashes))
                        (ok_eq p q k) (x, ap (λ k. k ∷ s.chain_hashes) (sym h));
                  kept = λ n. absurd (n p refl);
                })
          | inr (inl (message, e)) ↦
              rw (applied, e)
                (record {
                  aligned =
                      faithful.modify_kept p.0.additions p.0.deletions p.0.point s.forest (λ k. cc)
                      ∙ al;
                  grown = λ q k. cc;
                  kept = λ n. refl;
                })
          | inr (inr (what, e)) ↦
              rw (applied, e)
                (record {
                  aligned =
                      faithful.modify_kept p.0.additions p.0.deletions p.0.point s.forest (λ k. cc)
                      ∙ al;
                  grown = λ q k. cc;
                  kept = λ n. refl;
                })
        ]
      where
        ok_eq : (p q : BlockDelta × Option parts.Proof) → ok p ≡ ok q → p ≡ q
        ok_eq p q k = cc

    prepared-Processed :
        (fetched : FetchedBlock parts.Json)
        → (ltb 0xffff_ffff (length s.chain_hashes)) ≡ false
        → let q = process_next parts (ok fetched) s in Processed history s q.0 q.1
    unfolding process_next
    prepared-Processed fetched small = elim (Result-cases (prepared parts fetched s)) [
      | inl (p, e) ↦
          let (x, h) = prepared-Extends fetched s p e in
          rw (process_next, small, e) (applied-Processed fetched.hash p x h)
      | inr (inl (message, e)) ↦ rw (process_next, small, e) (unchanged (err message) (λ p k. cc))
      | inr (inr (what, e)) ↦ rw (process_next, small, e) (unchanged (thrown what) (λ p k. cc))
    ]

  -- Over a forest that keeps its promises and has taken just the blocks of the chain, `ProcessNext`
  -- leaves it so, whatever the source, the parser and the proofs give, exceptions included. If it
  -- succeeds, the block has the next height, it names the old tip as its parent, and the chain has
  -- grown by its hash; otherwise the chain is as before.
  pub process_next-Processed :
      (history : parts.Forest → List ℕ) (s : Sync parts) (source : Result (FetchedBlock parts.Json))
      → IsFaithful history
      → IsAligned history s
      → let q = process_next parts source s in Processed history s q.0 q.1
  unfolding process_next
  process_next-Processed history s (ok fetched) faithful al =
      elim (Bool-cases (ltb 0xffff_ffff (length s.chain_hashes))) [
        | inl y ↦
            rw (process_next, y)
              (unchanged history faithful s al (err "chain height exceeds the sidecar format")
                (λ p k. cc))
        | inr n ↦ prepared-Processed history faithful s al fetched n
      ]
  process_next-Processed history s (err message) faithful al =
      elim (Bool-cases (ltb 0xffff_ffff (length s.chain_hashes))) [
        | inl y ↦
            rw (process_next, y)
              (unchanged history faithful s al (err "chain height exceeds the sidecar format")
                (λ p k. cc))
        | inr n ↦ rw (process_next, n) (unchanged history faithful s al (err message) (λ p k. cc))
      ]
  process_next-Processed history s (thrown what) faithful al =
      elim (Bool-cases (ltb 0xffff_ffff (length s.chain_hashes))) [
        | inl y ↦
            rw (process_next, y)
              (unchanged history faithful s al (err "chain height exceeds the sidecar format")
                (λ p k. cc))
        | inr n ↦ rw (process_next, n) (unchanged history faithful s al (thrown what) (λ p k. cc))
      ]
