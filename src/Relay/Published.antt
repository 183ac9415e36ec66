-- ===== src/Relay/Published.antt =====
-- What `Prepare` of src/transaction_relay.cpp has done where it answers that a proof is published.
use utreexo_core_rpc.Common.{
  not-eq-false, ◌≡◌, ap, ◌∙◌, true, not, Option, Option-cases, inl, inr, subst, List, ◌<◌, ◌^◌,
}
use utreexo_core_rpc.Result.{ok}
use utreexo_core_rpc.Wire.Bytes.{Bytes}
use utreexo_core_rpc.Hex.{to_bitcoin_hex}
use utreexo_core_rpc.Leaf.{CompactLeafData}
use utreexo_core_rpc.Udata.{Proof}
use utreexo_core_rpc.Transaction.Scan.{Transaction, OutPoint}
use utreexo_core_rpc.Transaction.Prepared.{PreparedTransactionProof, create}
use utreexo_core_rpc.Relay.Run.{after-eq-ok, after-lift, refuse-eq-ok}
use utreexo_core_rpc.Relay.Services.{Point, Parts, TransactionRelay}
use utreexo_core_rpc.Relay.Calls.{
  Replied, no_call, Coin, Calls, Calls-kept, IsCore, rpc_or_missing-eq-ok,
}
use utreexo_core_rpc.Relay.Spent.{Spends}
use utreexo_core_rpc.Relay.Inputs.{Spent, look_up_all-Spends}
use utreexo_core_rpc.Relay.Prepare.{
  present_roots, txid_params, rpc_or_missing, is_text, look_up_all, prove_inputs, prepare_inputs,
  prepare,
}
use utreexo_core_rpc.Transaction.Prepared.Contents.{IsMadeOf, create-IsMadeOf}
use utreexo_core_rpc.Relay.Verified.{prove_inputs-eq-ok}
use utreexo_core_rpc.Relay.Current.{unpublished, IsCurrent, publish_current-IsCurrent}

module _ (parts : Parts) (coin : Bytes → OutPoint → Coin) where
  open parts use {World, Json}

  -- Core has the transaction in its mempool, with its witness, when it is asked for it.
  pub record IsListed (tx : Transaction) (start : World) : Type 0 where
    pub entry : Json
    pub asked : Replied parts "getmempoolentry" (txid_params tx.txid) start entry
    pub same_witness :
        is_text parts (parts.value_at entry "wtxid") (to_bitcoin_hex tx.wtxid) ≡ ok true

  -- What is published for a transaction, from the state `start`: a preparation of the transaction, with
  -- what its inputs spend and a proof that verifies in the forest of `start`.
  pub record IsPublished (tx : Transaction) (point : Point) (start end : World) : Type 0 where
    pub hashes : List Bytes
    pub leaves : List (Option CompactLeafData)
    pub proof : Proof
    pub prepared : PreparedTransactionProof
    pub w : World
    pub spends : Spends parts coin start point tx.inputs hashes leaves
    pub verified :
        parts.verify_proof proof hashes (present_roots (parts.roots start)) (parts.num_leaves start)
        ≡ ok true
    pub made_of : IsMadeOf tx proof leaves (parts.num_leaves start) prepared
    pub current : IsCurrent parts start point tx.txid tx.wtxid w
    pub published : parts.publish point prepared w ≡ (ok true, end)

  prepare_inputs-IsPublished :
      (core : IsCore parts coin) (start : World) (tx : Transaction) (point : Point)
      (hashes : List Bytes) (leaves : List (Option CompactLeafData)) (r r' : TransactionRelay parts)
      → Spends parts coin start point tx.inputs hashes leaves
      → Calls parts start r.world
      → prepare_inputs parts tx point hashes leaves r ≡ (ok true, r')
      → IsPublished tx point start r'.world
  unfolding prepare_inputs
  prepare_inputs-IsPublished core start tx point hashes leaves r r' spends reached e =
      let (proof, r₁, run, e₁) = after-eq-ok (prove_inputs parts hashes r) _ true r' e in
      let (_, verified, same) = prove_inputs-eq-ok parts hashes r proof r₁ run in
      let (prepared, created, e₂) =
        after-lift (create tx proof leaves (parts.num_leaves r₁.world)) _ r₁ true r' e₁ in
      let here : Calls parts start r₁.world = subst (λ q. Calls parts start q.world) same reached in
      let (w, current, published) =
        publish_current-IsCurrent parts start prepared point r₁ r' here e₂ in
      let made_of = create-IsMadeOf tx proof leaves (parts.num_leaves start) prepared (
        subst (λ n. create tx proof leaves n ≡ ok prepared)
          (Calls-kept parts parts.num_leaves core.same_num_leaves here) created) in
      record {
        hashes = hashes;
        leaves = leaves;
        proof = proof;
        prepared = prepared;
        w = w;
        spends = spends;
        verified =
            subst
              (λ n. parts.verify_proof proof hashes (present_roots (parts.roots start)) n ≡ ok true)
              (Calls-kept parts parts.num_leaves core.same_num_leaves reached)
              (subst
                (λ q.
                  parts.verify_proof proof hashes (present_roots q) (parts.num_leaves r.world)
                  ≡ ok true)
                (Calls-kept parts parts.roots core.same_roots reached) verified);
        made_of = made_of;
        current =
            subst (λ t. IsCurrent parts start point t.txid t.wtxid w) made_of.transaction current;
        published = published;
      }

  -- If `Prepare` answers that a proof is published, then Core had the transaction, with its witness id,
  -- in the mempool. Each input spends an output of the mempool, or a coin that Core has at the point's
  -- block; the leaf hashes and the leaves are those of the coins in the inputs' order, at the height and
  -- with the block hash that the coin's confirmations give in the chain. The proof verifies for these
  -- hashes in the roots of the forest that `Prepare` began with. What is published is the transaction
  -- with these leaves, the proof's hashes, and the proof's targets as positions on the wire. Before it
  -- was published, with nothing but remote calls since the begin, Core named the point's block as its
  -- tip, and after that still had the transaction with its witness id. The point's height fits 32 bits.
  -- Remote calls are taken to leave the forest alone, and a reply of `gettxout` that names a block as
  -- the best one to tell of the coins at that block.
  pub prepare-IsPublished :
      (core : IsCore parts coin) (tx : Transaction) (point : Point) (r r' : TransactionRelay parts)
      → point.height < 2 ^ 32
      → prepare parts tx point r ≡ (ok true, r')
      → IsListed tx r.world × IsPublished tx point r.world r'.world
  unfolding prepare
  prepare-IsPublished core tx point r r' small e =
      let (entry, r₁, member_found, e₁) =
        after-eq-ok (rpc_or_missing parts "getmempoolentry" (txid_params tx.txid) r) _ true r' e in
      elim (Option-cases entry) [
        | inl n ↦ absurd (unpublished r₁ r' (rw n at e₁))
        | inr (member, some_entry) ↦
            let (answer, reached) =
              rpc_or_missing-eq-ok parts "getmempoolentry" (txid_params tx.txid) r r₁ member
                (member_found ∙ ap (λ q. (ok q, r₁)) some_entry) in
            let (same, is_same, e₂) =
              after-lift (is_text parts (parts.value_at member "wtxid") (to_bitcoin_hex tx.wtxid)) _
                r₁ true r' (rw some_entry at e₁) in
            let (differs, e₃) = refuse-eq-ok (not same) _ _ r₁ true r' e₂ in
            let (found, r₂, looked_up, e₄) =
              after-eq-ok (look_up_all parts tx.inputs point r₁) _ true r' e₃ in
            let spent =
              look_up_all-Spends parts coin core r.world tx.inputs point r₁ r₂ found small reached
                looked_up in
            elim (Option-cases found) [
              | inl n ↦ absurd (unpublished r₂ r' (rw n at e₄))
              | inr ((hashes, leaves), all_there) ↦
                  let (spends, here) =
                    subst (λ q. Spent parts coin r.world point tx.inputs q r₂.world) all_there
                      spent in
                  let listed : IsListed tx r.world = record {
                    entry = member;
                    asked = record { at = r.world; reached = no_call r.world; reply = answer };
                    same_witness = is_same ∙ ap (λ b. ok b) (not-eq-false same differs);
                  } in
                  (
                    listed,
                    prepare_inputs-IsPublished core r.world tx point hashes leaves r₂ r' spends here
                        (rw all_there at e₄),
                  )
            ]
      ]
