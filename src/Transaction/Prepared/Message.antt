-- ===== src/Transaction/Prepared/Message.antt =====
-- `Measure` and `Serialize` of src/transaction_wire.cpp: the message, and its size.
use utreexo_core_rpc.Common.{
  ℕ, zero, suc, ◌+◌, ◌*◌, min, ◌≤◌, ◌≡◌, refl, sym, ap, arith, true, false, not, ◌||◌, ltb, Option,
  List, [], ◌∷◌, ◌++◌, All, length, length-append, append_assoc, get_or,
}
use utreexo_core_rpc.Result.{ok, refuse-eq-ok, ok-injective}
use utreexo_core_rpc.Wire.Bytes.{Bytes, compact_size, compact_size_bytes, length-compact_size}
use utreexo_core_rpc.Leaf.{CompactLeafData}
use utreexo_core_rpc.Transaction.{max_tx_payload, unique_positions}
use utreexo_core_rpc.Transaction.Inventory.{TransactionProofRequest, is_request_type}
use utreexo_core_rpc.Transaction.Scan.Encoding.{Tx, concat_map, encode, IsTransaction}
use utreexo_core_rpc.Transaction.Prepared.{
  PreparedTransactionProof, targets_bytes, same_bytes, lower_bound, found_at, all_found, measure,
  serialize,
}
use utreexo_core_rpc.Transaction.Prepared.Written.{
  leaf_parts, requested, proof_part, flagged_tx, message, append_proof-eq, append_leaves-eq,
  length-requested, HasRoom,
}
use utreexo_core_rpc.Transaction.Prepared.State.{IsPrepared, flag_inputs-encode, length-flagged_tx}

length-targets :
    (targets : List ℕ) → length (concat_map compact_size targets) ≡ targets_bytes targets
unfolding targets_bytes
length-targets [] = refl
length-targets (t ∷ ts) = omega (
  arith,
  length-append (compact_size t) (concat_map compact_size ts),
  length-compact_size t,
  length-targets ts,
)

length-hashes :
    (hashes : List Bytes)
    → All (λ hash. length hash ≡ 32) hashes
    → length (concat_map (λ hash. hash) hashes) ≡ length hashes * 32
length-hashes [] h = refl
length-hashes (hash ∷ hashes) (h, all) =
    omega (arith, length-append hash (concat_map (λ x. x) hashes), length-hashes hashes all)

found-below :
    (positions : List ℕ) (hashes : List Bytes) (i pos : ℕ)
    → found_at positions i pos ≡ true
    → length positions ≡ length hashes
    → All (λ hash. length hash ≡ 32) hashes
    → length (get_or hashes i []) ≡ 32
found-below [] hashes i pos e n all = cc
found-below (p ∷ ps) [] i pos e n all = absurd (omega arith)
found-below (p ∷ ps) (hash ∷ hashes) zero pos e n (h, all) = h
found-below (p ∷ ps) (hash ∷ hashes) (suc i) pos e n (h, all) =
    found-below ps hashes i pos e (omega arith) all

pub requested-sizes :
    (p : PreparedTransactionProof) (positions : List ℕ)
    → length p.proof_positions ≡ length p.proof.hashes
    → All (λ hash. length hash ≡ 32) p.proof.hashes
    → all_found p.proof_positions positions ≡ true
    → All (λ hash. length hash ≡ 32) (requested p positions)
unfolding all_found
requested-sizes p [] n all e = tt
requested-sizes p (pos ∷ ps) n all e = (
  found-below p.proof_positions p.proof.hashes (lower_bound p.proof_positions pos) pos
      (ground arith) n all,
  requested-sizes p ps n all (ground arith),
)

-- What `Measure` has checked of a request.
pub record IsMeasured (request : TransactionProofRequest) (max_payload_bytes : ℕ)
    (p : PreparedTransactionProof) (size : ℕ) : Type 0 where
  pub few : length request.proof_positions ≤ length p.proof_positions
  pub fits : size ≤ min max_payload_bytes max_tx_payload
  pub found : all_found p.proof_positions request.proof_positions ≡ true
  pub size_eq :
      size
      ≡ p.base_payload_bytes
        + compact_size_bytes (length request.proof_positions)
        + length request.proof_positions * 32

pub measure-IsMeasured :
    (request : TransactionProofRequest) (max_payload_bytes : ℕ) (p : PreparedTransactionProof)
    (size : ℕ)
    → measure request max_payload_bytes p ≡ ok size
    → IsMeasured request max_payload_bytes p size
unfolding measure
measure-IsMeasured request max_payload_bytes p size e =
    let n = length request.proof_positions in
    let bytes = p.base_payload_bytes + compact_size_bytes n + n * 32 in
    let (_, e₁) =
      refuse-eq-ok
        (not (is_request_type request.inventory_type)
          || not (same_bytes request.txid p.transaction.txid))
        _ _ _ e in
    let (few, e₂) = refuse-eq-ok (ltb (length p.proof_positions) n) _ _ _ e₁ in
    let (fits, e₃) = refuse-eq-ok (ltb (min max_payload_bytes max_tx_payload) bytes) _ _ _ e₂ in
    let (found, e₄) =
      refuse-eq-ok (not (all_found p.proof_positions request.proof_positions)) _ _ _ e₃ in
    let (_, e₅) = refuse-eq-ok (not (unique_positions request.proof_positions)) _ _ _ e₄ in
    let same : bytes ≡ size = ok-injective e₅ in
    record {
      few = ground arith;
      fits = rw same at (within bytes (min max_payload_bytes max_tx_payload) fits);
      found = ground arith;
      size_eq = sym same;
    }
  where
    within : (a b : ℕ) → ltb b a ≡ false → a ≤ b
    within a b h = ground arith

length-message :
    (tx : Tx) (leaves : List (Option CompactLeafData)) (targets : List ℕ) (hashes : List Bytes)
    → IsTransaction tx
    → All HasRoom tx.inputs
    → All (λ hash. length hash ≡ 32) hashes
    → length (message tx leaves targets hashes)
      ≡ compact_size_bytes (length targets)
        + targets_bytes targets
        + compact_size_bytes (length hashes)
        + length hashes * 32
        + length (encode tx)
        + length (leaf_parts leaves)
length-message tx leaves targets hashes valid room sizes =
    let hash_part = concat_map (λ hash. hash) hashes in
    let target_part = concat_map compact_size targets in
    let flagged_bytes = encode (flagged_tx tx leaves) in
    omega (
      arith,
      length-append (proof_part targets hashes) (flagged_bytes ++ leaf_parts leaves),
      length-append flagged_bytes (leaf_parts leaves),
      length-append (compact_size (length targets))
          (target_part ++ (compact_size (length hashes) ++ hash_part)),
      length-append target_part (compact_size (length hashes) ++ hash_part),
      length-append (compact_size (length hashes)) hash_part,
      length-compact_size (length targets),
      length-compact_size (length hashes),
      length-targets targets,
      length-hashes hashes sizes,
      length-flagged_tx tx leaves valid room,
    )

-- A request that `Measure` accepts is answered by `Serialize`: with the targets, the hashes at the
-- requested positions in their order, the transaction with a flag in each output number, and the leaves of
-- the confirmed inputs. The message has just the size that `Measure` announced, which is within the limits.
pub serialize-message :
    (sha256 : Bytes → Bytes) (tx : Tx) (p : PreparedTransactionProof)
    (request : TransactionProofRequest) (max_payload_bytes size : ℕ)
    → IsPrepared sha256 tx p
    → measure request max_payload_bytes p ≡ ok size
    → let bytes = message tx p.input_leaves p.proof.targets (requested p request.proof_positions) in
      (serialize request max_payload_bytes p ≡ ok bytes)
      × (length bytes ≡ size)
      × (size ≤ min max_payload_bytes max_tx_payload)
unfolding serialize
serialize-message sha256 tx p request max_payload_bytes size h e =
    let m = measure-IsMeasured request max_payload_bytes p size e in
    let hashes = requested p request.proof_positions in
    let head = proof_part p.proof.targets hashes in
    let sizes = requested-sizes p request.proof_positions h.counted h.hash_sizes m.found in
    let flagging = flag_inputs-encode tx p.input_leaves head h.valid h.aligned h.indices in
    (
      rw (e, append_proof-eq request p, h.same, flagging, append_leaves-eq)
          (ap (λ x. ok x) (append_assoc head _ _)),
      omega (
        arith,
        m.size_eq,
        h.base,
        length-requested p request.proof_positions,
        ap compact_size_bytes (length-requested p request.proof_positions),
        length-message tx p.input_leaves p.proof.targets hashes h.valid h.indices sizes,
      ),
      m.fits,
    )
