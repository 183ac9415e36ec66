-- ===== src/Relay/Current.antt =====
-- The end of `Prepare` (src/transaction_relay.cpp): the tip and the transaction, before a publication.
use utreexo_core_rpc.Common.{
  String, not-eq-false, refl, ◌≡◌, ap, ◌∙◌, Bool, true, false, not, Option-cases, inl, inr, subst,
  List, [], ℕ,
}
use utreexo_core_rpc.Result.{ok}
use utreexo_core_rpc.Wire.Bytes.{Bytes}
use utreexo_core_rpc.Hex.{to_bitcoin_hex}
use utreexo_core_rpc.Transaction.Prepared.{PreparedTransactionProof, same_bytes}
use utreexo_core_rpc.Relay.Run.{after-eq-ok, after-lift, refuse, pure}
use utreexo_core_rpc.Relay.Services.{Point, Parts, TransactionRelay, outside, rpc}
use utreexo_core_rpc.Relay.Calls.{Calls, Replied, rpc-eq-ok, rpc_or_missing-eq-ok}
use utreexo_core_rpc.Relay.Prepare.{
  check_tip, txid_params, rpc_or_missing, is_text, publish_if, publish_current,
}

pub unpublished : {S : Type 0} (s t : S) → ¬ pure false s ≡ (ok true, t)
unpublished s t e = cc

refuse-passed :
    {S : Type 0} (test : Bool) (message : String) (s t : S)
    → refuse test message s ≡ (ok tt, t)
    → (test ≡ false) × (s ≡ t)
refuse-passed true message s t e = cc
refuse-passed false message s t e = (refl, ap (λ q. q.1) e)

module _ (parts : Parts) where
  open parts use {World, Json}

  -- Core's state where a proof is published: after nothing but remote calls since `start` it named the
  -- point's block as its tip, and later it had the transaction, with its witness.
  pub record IsCurrent (start : World) (point : Point) (txid wtxid : Bytes) (w : World)
      : Type 0 where
    pub tip : Json
    pub member : Json
    pub identity : List ℕ
    pub at_tip : Replied parts "getbestblockhash" [] start tip
    pub is_tip : is_text parts tip (to_bitcoin_hex point.block_hash) ≡ ok true
    pub at_member : Replied parts "getmempoolentry" (txid_params txid) at_tip.at member
    pub wtxid_text : parts.get_str (parts.value_at member "wtxid") ≡ ok identity
    pub is_wtxid : same_bytes identity (to_bitcoin_hex wtxid) ≡ true
    pub since : Calls parts at_member.at w

  publish_if-eq-ok :
      (same : Bool) (prepared : PreparedTransactionProof) (point : Point)
      (r r' : TransactionRelay parts)
      → publish_if parts same prepared point r ≡ (ok true, r')
      → (same ≡ true) × (outside parts (parts.publish point prepared) r ≡ (ok true, r'))
  unfolding publish_if
  publish_if-eq-ok true prepared point r r' e = (refl, e)
  publish_if-eq-ok false prepared point r r' e = cc

  publish-eq-ok :
      (prepared : PreparedTransactionProof) (point : Point) (r r' : TransactionRelay parts)
      → outside parts (parts.publish point prepared) r ≡ (ok true, r')
      → parts.publish point prepared r.world ≡ (ok true, r'.world)
  publish-eq-ok prepared point r r' e = ap (λ q. (q.0, q.1.world)) e

  pub publish_current-IsCurrent :
      (start : World) (prepared : PreparedTransactionProof) (point : Point)
      (r r' : TransactionRelay parts)
      → Calls parts start r.world
      → publish_current parts prepared point r ≡ (ok true, r')
      → (w : World) × IsCurrent start point prepared.transaction.txid prepared.transaction.wtxid w
        × (parts.publish point prepared w ≡ (ok true, r'.world))
  unfolding publish_current check_tip publish_if
  publish_current-IsCurrent start prepared point r r' reached e =
      let (_, s, checked, e₁) = after-eq-ok (check_tip parts point r) _ true r' e in
      let (tip, s₀, asked, e₂) = after-eq-ok (rpc parts "getbestblockhash" [] r) _ tt s checked in
      let (reply, moved) = rpc-eq-ok parts "getbestblockhash" [] r s₀ tip asked in
      let (same, is_same, e₃) =
        after-lift (is_text parts tip (to_bitcoin_hex point.block_hash)) _ s₀ tt s e₂ in
      let (differs, here) = refuse-passed (not same) _ s₀ s e₃ in
      let (entry, u, found, e₄) =
        after-eq-ok
          (rpc_or_missing parts "getmempoolentry" (txid_params prepared.transaction.txid) s) _ true
          r' e₁ in
      elim (Option-cases entry) [
        | inl n ↦ absurd (unpublished u r' (rw n at e₄))
        | inr (member, some_entry) ↦
            let (answer, later) =
              rpc_or_missing-eq-ok parts "getmempoolentry" (txid_params prepared.transaction.txid) s
                u member (found ∙ ap (λ q. (ok q, u)) some_entry) in
            let (identity, text, e₅) =
              after-lift (parts.get_str (parts.value_at member "wtxid")) _ u true r'
                (rw some_entry at e₄) in
            let (is_wtxid, published) =
              publish_if-eq-ok (same_bytes identity (to_bitcoin_hex prepared.transaction.wtxid))
                prepared point u r' e₅ in
            (
              u.world,
              record {
                tip = tip;
                member = member;
                identity = identity;
                at_tip = record { at = r.world; reached = reached; reply = reply };
                is_tip = is_same ∙ ap (λ b. ok b) (not-eq-false same differs);
                at_member = record {
                  at = s.world;
                  reached = subst (λ q. Calls parts r.world q.world) here moved;
                  reply = answer;
                };
                wtxid_text = text;
                is_wtxid = is_wtxid;
                since = later;
              },
              publish-eq-ok prepared point u r' published,
            )
      ]
