-- ===== src/Transaction/Prepared/Contents.antt =====
-- What `PreparedTransactionProof::Create` of src/transaction_wire.cpp puts into a preparation, for any
-- transaction.
use utreexo_core_rpc.Common.{
  ℕ, ◌+◌, ◌≡◌, refl, subst, ◌||◌, not, Option, List, ◌==◌, ltb, leb, length,
}
use utreexo_core_rpc.Result.{ok, ok-injective, refuse-eq-ok, >>=-eq-ok}
use utreexo_core_rpc.Wire.Bytes.{compact_size_bytes}
use utreexo_core_rpc.Leaf.{CompactLeafData}
use utreexo_core_rpc.Udata.{Proof}
use utreexo_core_rpc.Transaction.{max_tx_payload}
use utreexo_core_rpc.Transaction.Scan.{Transaction}
use utreexo_core_rpc.Transaction.Positions.{rows_of, native_proof_positions}
use utreexo_core_rpc.Transaction.Prepared.{
  PreparedTransactionProof, is_missing, max_inputs, max_hashes, wire_positions, count_leaves,
  targets_bytes, create,
}

-- The transaction, the leaves and the hashes that were given, and the given targets as positions on
-- the wire.
pub record IsMadeOf (tx : Transaction) (proof : Proof) (leaves : List (Option CompactLeafData))
    (num_leaves : ℕ) (p : PreparedTransactionProof) : Type 0 where
  pub transaction : p.transaction ≡ tx
  pub input_leaves : p.input_leaves ≡ leaves
  pub hashes : p.proof.hashes ≡ proof.hashes
  pub targets : p.proof.targets ≡ wire_positions (rows_of num_leaves) proof.targets

pub create-IsMadeOf :
    (tx : Transaction) (proof : Proof) (leaves : List (Option CompactLeafData)) (num_leaves : ℕ)
    (p : PreparedTransactionProof)
    → create tx proof leaves num_leaves ≡ ok p
    → IsMadeOf tx proof leaves num_leaves p
unfolding create
create-IsMadeOf tx proof leaves num_leaves p e =
    let (_, e₁) =
      refuse-eq-ok
        (is_missing tx.inputs
          || is_missing tx.bytes
          || not (length leaves == length tx.inputs)
          || ltb max_inputs (length proof.targets)
          || ltb max_hashes (length proof.hashes))
        _ _ _ e in
    let ((confirmed, base), _, e₂) =
      >>=-eq-ok
        (count_leaves tx.inputs leaves 0
          (length tx.bytes + compact_size_bytes (length proof.targets)))
        _ _ e₁ in
    let (_, e₃) = refuse-eq-ok (not (confirmed == length proof.targets)) _ _ _ e₂ in
    let (positions, _, e₄) = >>=-eq-ok (native_proof_positions proof num_leaves) _ _ e₃ in
    let targets = wire_positions (rows_of num_leaves) proof.targets in
    let (_, e₅) = refuse-eq-ok (leb max_tx_payload (base + targets_bytes targets)) _ _ _ e₄ in
    subst (λ q. IsMadeOf tx proof leaves num_leaves q) (ok-injective e₅)
      (record { transaction = refl; input_leaves = refl; hashes = refl; targets = refl })
