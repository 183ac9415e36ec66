-- ===== src/Relay/Verified.antt =====
-- The proof of the confirmed inputs in `Prepare` (src/transaction_relay.cpp).
use utreexo_core_rpc.Common.{not-eq-false, ◌≡◌, ap, ◌∙◌, Bool, true, not, subst, List}
use utreexo_core_rpc.Result.{Result, ok, err, thrown}
use utreexo_core_rpc.Wire.Bytes.{Bytes}
use utreexo_core_rpc.Udata.{Proof}
use utreexo_core_rpc.Relay.Run.{after-lift, refuse-eq-ok, pure}
use utreexo_core_rpc.Relay.Services.{Parts, TransactionRelay}
use utreexo_core_rpc.Relay.Prepare.{is_verified, present_roots, prefixed, prove_inputs}

prefixed-eq-ok :
    (run : Result Proof) (proof : Proof)
    → prefixed "confirmed inputs not provable at Core tip: " run ≡ ok proof
    → run ≡ ok proof
prefixed-eq-ok (ok p) proof e = e
prefixed-eq-ok (err message) proof e = cc
prefixed-eq-ok (thrown what) proof e = cc

is_verified-eq-ok : (run : Result Bool) → is_verified run ≡ ok true → run ≡ ok true
is_verified-eq-ok (ok b) e = e
is_verified-eq-ok (err message) e = cc
is_verified-eq-ok (thrown what) e = cc

module _ (parts : Parts) where
  pub prove_inputs-eq-ok :
      (hashes : List Bytes) (r : TransactionRelay parts) (proof : Proof)
      (r' : TransactionRelay parts)
      → prove_inputs parts hashes r ≡ (ok proof, r')
      → (parts.prove hashes r.world ≡ ok proof)
        × (parts.verify_proof proof hashes
              (present_roots (parts.roots r.world))
              (parts.num_leaves r.world)
            ≡ ok true)
        × (r ≡ r')
  unfolding prove_inputs
  prove_inputs-eq-ok hashes r proof r' e =
      let (p, proved, e₁) =
        after-lift
          (prefixed "confirmed inputs not provable at Core tip: " (parts.prove hashes r.world)) _ r
          proof r' e in
      let (v, verified, e₂) =
        after-lift
          (is_verified (
            parts.verify_proof p hashes (present_roots (parts.roots r.world))
              (parts.num_leaves r.world)))
          _ r proof r' e₁ in
      let (passed, e₃) =
        refuse-eq-ok (not v) "generated transaction proof did not verify" (pure p) r proof r' e₂ in
      let is_true : v ≡ true = not-eq-false v passed in
      let same : p ≡ proof = pure-eq p proof r r' e₃ in
      let here : r ≡ r' = ap (λ q. q.1) e₃ in
      let checked =
        is_verified-eq-ok
          (parts.verify_proof p hashes (present_roots (parts.roots r.world))
            (parts.num_leaves r.world))
          (verified ∙ ap (λ b. ok b) is_true) in
      subst
        (λ q.
          (parts.prove hashes r.world ≡ ok q)
          × (parts.verify_proof q hashes (present_roots (parts.roots r.world))
                (parts.num_leaves r.world)
              ≡ ok true)
          × (r ≡ r'))
        same (prefixed-eq-ok (parts.prove hashes r.world) p proved, checked, here)
    where
      pure-eq : (p q : Proof) (s t : TransactionRelay parts) → pure p s ≡ (ok q, t) → p ≡ q
      pure-eq p q s t e = cc
