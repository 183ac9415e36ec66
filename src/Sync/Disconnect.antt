-- ===== src/Sync/Disconnect.antt =====
-- `ReconcileCurrentPoint` and `RollbackTo`: blocks come off the forest and the chain together.
use utreexo_core_rpc.Common.{
  String, ℕ, suc, ◌+◌, ◌-◌, ◌≡◌, ◌≢◌, refl, sym, ap, ◌∙◌, subst, inl, inr, arith, true, not, ◌&&◌,
  Bool-cases, Option, none, some, Option-cases, List, [], ◌∷◌, ◌==◌, ltb, length, get_or, drop,
}
use utreexo_core_rpc.Result.{Result, ok, err, thrown, Result-cases}
use utreexo_core_rpc.ProofCache.{ChainPoint, same_point}
use utreexo_core_rpc.Sync.{
  Parts, Sync, current_point, current_point_of, hash_at, contiguous, popped, disconnect,
  reconcile_loop, reconcile_current_point, at_point, recovered, rollback_loop, rollback_to,
}
use utreexo_core_rpc.Sync.Process.{IsFaithful, IsAligned}

module _ (parts : Parts) where
  no_contiguous :
      (p : ChainPoint) (tip : ℕ) (earlier : List ℕ)
      → current_point_of parts earlier ≡ some p
      → contiguous parts p (tip ∷ earlier) ≡ true
  unfolding contiguous
  no_contiguous p tip [] e = cc
  no_contiguous p tip (h ∷ hs) e =
      let height : length hs ≡ p.height = ap height_of e in
      let hash : h ≡ p.block_hash = ap hash_of e in
      let place : length (tip ∷ h ∷ hs) - 1 - p.height ≡ 1 = omega arith in
      let at : hash_at parts p.height (tip ∷ h ∷ hs) ≡ h =
        ap (λ k. get_or (tip ∷ h ∷ hs) k 0) place in
      ground (arith, at)
    where
      height_of : Option ChainPoint → ℕ
      height_of none = length hs
      height_of (some q) = q.height

      hash_of : Option ChainPoint → ℕ
      hash_of none = h
      hash_of (some q) = q.block_hash

  -- Where a block comes off, it comes off both; else nothing comes off.
  record Disconnected (history : parts.Forest → List ℕ) (s : Sync parts) (r : Result (Unit {0}))
      (s' : Sync parts) : Type 0 where
    aligned : IsAligned parts history s'
    shorter : r ≡ ok tt → (tip : ℕ) × (s.chain_hashes ≡ tip ∷ s'.chain_hashes)
    kept : r ≢ ok tt → s'.chain_hashes ≡ s.chain_hashes

  module _ (history : parts.Forest → List ℕ) (faithful : IsFaithful parts history) where
    disconnect-Disconnected :
        (s : Sync parts)
        → IsAligned parts history s
        → Disconnected history s (disconnect parts s).0 (disconnect parts s).1
    unfolding disconnect
    disconnect-Disconnected s al = elim (Result-cases (parts.rollback_online_block s.forest).0) [
      | inl (p, e) ↦
          let (tip, old, point) = faithful.rollback_ok p s.forest e in
          let chain : s.chain_hashes ≡ tip ∷ history (parts.rollback_online_block s.forest).1 =
            sym al ∙ old in
          let c : contiguous parts p s.chain_hashes ≡ true =
            subst (λ k. contiguous parts p k ≡ true) (sym chain)
              (no_contiguous p tip (history (parts.rollback_online_block s.forest).1) point) in
          let pop : popped parts s.chain_hashes ≡ history (parts.rollback_online_block s.forest).1 =
            ap (λ k. popped parts k) chain in
          rw (disconnect, e, c)
            (record {
              aligned = sym pop;
              shorter = λ x. (tip, chain ∙ ap (λ k. tip ∷ k) (sym pop));
              kept = λ n. absurd (n refl);
            })
      | inr (inl (message, e)) ↦
          rw (disconnect, e)
            (record {
              aligned = faithful.rollback_kept s.forest (λ p k. cc) ∙ al;
              shorter = λ x. cc;
              kept = λ n. refl;
            })
      | inr (inr (what, e)) ↦
          rw (disconnect, e)
            (record {
              aligned = faithful.rollback_kept s.forest (λ p k. cc) ∙ al;
              shorter = λ x. cc;
              kept = λ n. refl;
            })
    ]

    -- Blocks came off, as many as a successful result counts.
    pub record Shortened (n : ℕ) (chain : List ℕ) (r : Result ℕ) (s' : Sync parts) : Type 0 where
      pub aligned : IsAligned parts history s'
      pub dropped : ℕ
      pub suffix : s'.chain_hashes ≡ drop dropped chain
      pub counted : (m : ℕ) → r ≡ ok m → m ≡ n + dropped

    stays :
        (n : ℕ) (chain : List ℕ) (s : Sync parts) (r : Result ℕ)
        → s.chain_hashes ≡ chain
        → IsAligned parts history s
        → ((m : ℕ) → r ≡ ok m → m ≡ n)
        → Shortened n chain r s
    stays n chain s r e al c = record {
      aligned = al;
      dropped = 0;
      suffix = e;
      counted = λ m k. omega (arith, c m k);
    }

    failed :
        (n tip : ℕ) (earlier : List ℕ) (s : Sync parts) (r : Result ℕ)
        → s.chain_hashes ≡ tip ∷ earlier
        → IsAligned parts history s
        → (disconnect parts s).0 ≢ ok tt
        → ((m : ℕ) → r ≢ ok m)
        → Shortened n (tip ∷ earlier) r (disconnect parts s).1
    failed n tip earlier s r e al differs c =
        let d = disconnect-Disconnected s al in
        record {
          aligned = d.aligned;
          dropped = 0;
          suffix = d.kept differs ∙ e;
          counted = λ m k. absurd (c m k);
        }

    one_more :
        (n tip : ℕ) (earlier : List ℕ) {r : Result ℕ} {s' : Sync parts}
        → Shortened (n + 1) earlier r s'
        → Shortened n (tip ∷ earlier) r s'
    one_more n tip earlier h = record {
      aligned = h.aligned;
      dropped = suc h.dropped;
      suffix = h.suffix;
      counted = λ m k. omega (arith, h.counted m k);
    }

    shorter_chain :
        (tip : ℕ) (earlier : List ℕ) (s : Sync parts)
        → s.chain_hashes ≡ tip ∷ earlier
        → IsAligned parts history s
        → (disconnect parts s).0 ≡ ok tt
        → (disconnect parts s).1.chain_hashes ≡ earlier
    shorter_chain tip earlier s e al done =
        let (t, x) = (disconnect-Disconnected s al).shorter done in
        ap (λ k. popped parts k) (sym x ∙ e)

    -- The tip is on the chain that the source calls active.
    abbrev pub IsActive : (ℕ → ℕ → Result ℕ) → Result ℕ → Sync parts → Type 0
    IsActive active (ok m) s =
        (tip : ℕ) × (earlier : List ℕ) × (s.chain_hashes ≡ tip ∷ earlier)
        × (active m (length earlier) ≡ ok tip)
    IsActive active (err e) s = Unit
    IsActive active (thrown e) s = Unit

    reconcile_loop-Shortened :
        (active : ℕ → ℕ → Result ℕ) (n : ℕ) (chain : List ℕ) (s : Sync parts)
        → s.chain_hashes ≡ chain
        → IsAligned parts history s
        → let q = reconcile_loop parts active n chain s in
          Shortened n chain q.0 q.1 × IsActive active q.0 q.1
    unfolding reconcile_loop
    reconcile_loop-Shortened active n [] s e al =
        (stays n [] s (err "cannot reconcile an empty chain point") e al (λ m k. cc), tt)
    reconcile_loop-Shortened active n (tip ∷ earlier) s e al =
        elim (Result-cases (active n (length earlier))) [
          | inr (inl (message, a)) ↦
              rw (reconcile_loop, a) (stays n (tip ∷ earlier) s (err message) e al (λ m k. cc), tt)
          | inr (inr (what, a)) ↦
              rw (reconcile_loop, a) (stays n (tip ∷ earlier) s (thrown what) e al (λ m k. cc), tt)
          | inl (hash, a) ↦ elim (Bool-cases (hash == tip)) [
            | inl y ↦
                let same : hash ≡ tip = ground arith in
                rw (reconcile_loop, a, y)
                  (
                    stays n (tip ∷ earlier) s (ok n) e al (λ m k. cc),
                    (tip, earlier, e, a ∙ ap (λ z. ok z) same),
                  )
            | inr differs ↦ elim (Bool-cases (parts.is_online s.forest)) [
              | inr off ↦
                  rw (reconcile_loop, a, differs, off)
                    (
                      stays n (tip ∷ earlier) s
                          (err
                            "active-chain reorganization requires online WAL before-images or checkpoint restore")
                          e al (λ m k. cc),
                      tt,
                    )
              | inl on ↦ elim (Result-cases (disconnect parts s).0) [
                | inl (tt, d) ↦
                    let shorter = shorter_chain tip earlier s e al d in
                    let (h, act) =
                      reconcile_loop-Shortened active (n + 1) earlier (disconnect parts s).1 shorter
                        (disconnect-Disconnected s al).aligned in
                    rw (reconcile_loop, a, differs, on, d) (one_more n tip earlier h, act)
                | inr (inl (message, d)) ↦
                    rw (reconcile_loop, a, differs, on, d)
                      (failed n tip earlier s (err message) e al (λ k. cc) (λ m k. cc), tt)
                | inr (inr (what, d)) ↦
                    rw (reconcile_loop, a, differs, on, d)
                      (failed n tip earlier s (thrown what) e al (λ k. cc) (λ m k. cc), tt)
              ]
            ]
          ]
        ]

    rollback_loop-Shortened :
        (height n : ℕ) (chain : List ℕ) (s : Sync parts)
        → s.chain_hashes ≡ chain
        → IsAligned parts history s
        → let q = rollback_loop parts height n chain s in Shortened n chain q.0 q.1
    unfolding rollback_loop
    rollback_loop-Shortened height n [] s e al = stays n [] s (ok n) e al (λ m k. cc)
    rollback_loop-Shortened height n (tip ∷ earlier) s e al =
        elim (Bool-cases (ltb height (length earlier))) [
          | inr low ↦ rw (rollback_loop, low) (stays n (tip ∷ earlier) s (ok n) e al (λ m k. cc))
          | inl high ↦ elim (Result-cases (disconnect parts s).0) [
            | inl (tt, d) ↦
                let shorter = shorter_chain tip earlier s e al d in
                let h =
                  rollback_loop-Shortened height (n + 1) earlier (disconnect parts s).1 shorter
                    (disconnect-Disconnected s al).aligned in
                rw (rollback_loop, high, d) (one_more n tip earlier h)
            | inr (inl (message, d)) ↦
                rw (rollback_loop, high, d)
                  (failed n tip earlier s (err message) e al (λ k. cc) (λ m k. cc))
            | inr (inr (what, d)) ↦
                rw (rollback_loop, high, d)
                  (failed n tip earlier s (thrown what) e al (λ k. cc) (λ m k. cc))
          ]
        ]

    -- A rollback that succeeds stands at its target.
    abbrev pub IsAt : ChainPoint → Result ℕ → Sync parts → Type 0
    IsAt target (ok m) s = current_point parts s ≡ some target
    IsAt target (err e) s = Unit
    IsAt target (thrown e) s = Unit

    same_point-target : (p target : ChainPoint) → same_point p target ≡ true → p ≡ target
    same_point-target p target h =
        let x : p.height ≡ target.height = ground arith in
        let y : p.block_hash ≡ target.block_hash = ground arith in rw (x, y) refl

    at_point-eq :
        (target : ChainPoint) (o : Option ChainPoint)
        → at_point parts target o ≡ true
        → o ≡ some target
    at_point-eq target none h = cc
    at_point-eq target (some p) h = ap (λ k. some k) (same_point-target p target h)

    recovered-Shortened :
        (target : ChainPoint) (chain : List ℕ) (q : Result ℕ × Sync parts)
        → Shortened 0 chain q.0 q.1
        → let z = recovered parts target q in Shortened 0 chain z.0 z.1 × IsAt target z.0 z.1
    unfolding recovered
    recovered-Shortened target chain (err e, s) h = (h, tt)
    recovered-Shortened target chain (thrown e, s) h = (h, tt)
    recovered-Shortened target chain (ok n, s) h =
        elim (Bool-cases (at_point parts target (current_point parts s))) [
          | inl y ↦ rw y (h, at_point-eq target (current_point parts s) y)
          | inr no_match ↦ rw no_match (
            record {
              aligned = h.aligned;
              dropped = h.dropped;
              suffix = h.suffix;
              counted = λ m k. cc;
            },
            tt,
          )
        ]

  -- Over a forest that keeps its promises, `ReconcileCurrentPoint` takes blocks off the forest and
  -- the chain together, from the tip down, and never leaves the two apart, also where it fails. A
  -- successful result counts the blocks taken off, and the tip that is left is then the block that
  -- the source called active when it was last asked. The call always ends.
  pub reconcile_current_point-Shortened :
      (history : parts.Forest → List ℕ) (active : ℕ → ℕ → Result ℕ) (s : Sync parts)
      → (faithful : IsFaithful parts history) → IsAligned parts history s
      → let q = reconcile_current_point parts active s in
        Shortened history faithful 0 s.chain_hashes q.0 q.1
        × IsActive history faithful active q.0 q.1
  unfolding reconcile_current_point
  reconcile_current_point-Shortened history active s faithful al =
      reconcile_loop-Shortened history faithful active 0 s.chain_hashes s refl al

  -- Over a forest that keeps its promises, `RollbackTo` takes blocks off the forest and the chain
  -- together and never leaves the two apart, also where it fails. If it succeeds, the current point
  -- is the target, and the result counts the blocks taken off.
  pub rollback_to-Shortened :
      (history : parts.Forest → List ℕ) (target : ChainPoint) (s : Sync parts)
      → (faithful : IsFaithful parts history) → IsAligned parts history s
      → let q = rollback_to parts target s in
        Shortened history faithful 0 s.chain_hashes q.0 q.1 × IsAt history faithful target q.0 q.1
  unfolding rollback_to
  rollback_to-Shortened history target s faithful al = elim (Option-cases (current_point parts s)) [
    | inl empty ↦ rw (rollback_to, empty) (fails "cannot roll back an empty chain point", tt)
    | inr (current, e) ↦ elim (Bool-cases (ltb current.height target.height)) [
      | inl y ↦ rw (rollback_to, e, y) (fails "rollback target is above the current point", tt)
      | inr low ↦
          elim (Bool-cases (not (parts.is_online s.forest) && not (same_point target current))) [
            | inl y ↦
                rw (rollback_to, e, low, y)
                  (fails "explicit rollback requires online WAL before-images", tt)
            | inr fit ↦
                rw (rollback_to, e, low, fit)
                  (recovered-Shortened history faithful target s.chain_hashes
                    (rollback_loop parts target.height 0 s.chain_hashes s)
                    (rollback_loop-Shortened history faithful target.height 0 s.chain_hashes s refl
                      al))
          ]
    ]
  ]
    where
      fails : (message : String) → Shortened history faithful 0 s.chain_hashes (err message) s
      fails message = stays history faithful 0 s.chain_hashes s (err message) refl al (λ m k. cc)
