-- ===== src/Transaction/Decode/RoundTrip.antt =====
-- What `Serialize` writes, `ParseUtreexoTransaction` reads.
use utreexo_core_rpc.Common.{
  ℕ, ◌+◌, ◌*◌, ◌/◌, ◌^◌, min, ◌≤◌, ◌<◌, ◌≡◌, refl, sym, ap, ◌∙◌, arith, true, false, not, ◌&&◌,
  ◌||◌, ◌==◌, ltb, if◌then◌else◌, Option, none, some, List, [], ◌∷◌, ◌++◌, All, length,
  length-append, append-nil, take, drop, take-length_append, drop-length_append,
}
use utreexo_core_rpc.Result.{ok, >>=-eq-ok, ok-injective}
use utreexo_core_rpc.Wire.Bytes.{Bytes, little_endian, length-little_endian}
use utreexo_core_rpc.Wire.Reader.{Reader, open_reader, advance, remaining, skip, rest}
use utreexo_core_rpc.Wire.Reader.Reads.{rest-advance, remaining-rest}
use utreexo_core_rpc.Wire.Reader.Next.{skip-next}
use utreexo_core_rpc.Leaf.{CompactLeafData, is_other}
use utreexo_core_rpc.Udata.{script_type_byte}
use utreexo_core_rpc.Transaction.{max_hashes, max_tx_payload, unique_positions}
use utreexo_core_rpc.Transaction.Inventory.{TransactionProofRequest}
use utreexo_core_rpc.Transaction.Inventory.RoundTrip.{unique-real}
use utreexo_core_rpc.Transaction.Scan.{scan_transaction}
use utreexo_core_rpc.Transaction.Scan.Encoding.{sized, Tx, encode, IsTransaction}
use utreexo_core_rpc.Transaction.Scan.Layout.{layout_of, scan_transaction-encode}
use utreexo_core_rpc.Transaction.Scan.Identity.{parse_transaction-encode, transaction_of}
use utreexo_core_rpc.Transaction.Prepared.{PreparedTransactionProof, measure, serialize, is_missing}
use utreexo_core_rpc.Transaction.Prepared.Written.{
  leaf_part, leaf_parts, requested, proof_part, flagged_tx, message, HasRoom, length-requested,
}
use utreexo_core_rpc.Transaction.Prepared.State.{FitsMessage, count_some, IsPrepared}
use utreexo_core_rpc.Transaction.Prepared.Message.{
  measure-IsMeasured, requested-sizes, serialize-message,
}
use utreexo_core_rpc.Transaction.Decode.{read_proof, parse_utreexo_transaction}
use utreexo_core_rpc.Transaction.Decode.Proofs.{read_proof-reads}
use utreexo_core_rpc.Transaction.Decode.Leaves.{count_confirmed-flags, read_leaves-reads}
use utreexo_core_rpc.Transaction.Decode.Restore.{restore_inputs-encode, flagged_tx-IsTransaction}

-- What is asked of the parts of a message that is read.
record IsMessage (tx : Tx) (leaves : List (Option CompactLeafData)) (targets : List ℕ)
    (hashes : List Bytes) : Type 0 where
  valid : IsTransaction tx
  small : length (encode tx) ≤ max_tx_payload
  aligned : length tx.inputs ≡ length leaves
  room : All HasRoom tx.inputs
  fits : All FitsMessage leaves
  confirmed : count_some leaves ≡ length targets
  bounds : All (λ target. target < 2 ^ 64) targets
  distinct : unique_positions targets ≡ true
  hash_bound : length hashes ≤ max_hashes
  hash_sizes : All (λ hash. length hash ≡ 32) hashes
  none_needed : length targets ≡ 0 → length hashes ≡ 0

count_some-le : (leaves : List (Option CompactLeafData)) → count_some leaves ≤ length leaves
count_some-le [] = omega arith
count_some-le (none ∷ leaves) = omega (arith, count_some-le leaves)
count_some-le (some leaf ∷ leaves) = omega (arith, count_some-le leaves)

leaf_parts-least :
    (leaves : List (Option CompactLeafData)) → count_some leaves * 13 ≤ length (leaf_parts leaves)
leaf_parts-least [] = omega arith
leaf_parts-least (none ∷ leaves) = leaf_parts-least leaves
leaf_parts-least (some leaf ∷ leaves) =
    omega (
      arith,
      leaf_parts-least leaves,
      length-append (leaf_part leaf) (leaf_parts leaves),
      least leaf,
    )
  where
    ending : CompactLeafData → Bytes
    ending leaf =
        script_type_byte leaf.script_type
        ∷ (if is_other leaf.script_type then sized leaf.script else [])

    least : (leaf : CompactLeafData) → 13 ≤ length (leaf_part leaf)
    least leaf = omega (
      arith,
      length-append (little_endian 4 leaf.header_code) (little_endian 8 leaf.amount ++ ending leaf),
      length-append (little_endian 8 leaf.amount) (ending leaf),
      length-little_endian 4 leaf.header_code,
      length-little_endian 8 leaf.amount,
    )

module _ (tx : Tx) (leaves : List (Option CompactLeafData)) (targets : List ℕ) (hashes : List Bytes)
    (h : IsMessage tx leaves targets hashes) where
  abbrev head : Bytes
  head = proof_part targets hashes

  abbrev flagged_bytes : Bytes
  flagged_bytes = encode (flagged_tx tx leaves)

  abbrev start : Reader
  start = open_reader (message tx leaves targets hashes)

  abbrev at_tx : Reader
  at_tx = advance (length head) start

  abbrev at_leaves : Reader
  at_leaves = advance (length flagged_bytes) at_tx

  tx-next : rest at_tx ≡ flagged_bytes ++ leaf_parts leaves
  tx-next = rest-advance start head (flagged_bytes ++ leaf_parts leaves) refl

  proof-next : read_proof start ≡ ok (record { targets = targets; hashes = hashes }, at_tx)
  proof-next =
      read_proof-reads targets hashes start (flagged_bytes ++ leaf_parts leaves) refl
        (omega (arith, h.confirmed, h.aligned, count_some-le leaves, h.valid.input_bound))
        (unique-real targets h.distinct h.bounds) h.hash_bound h.hash_sizes

  new-IsTransaction : IsTransaction (flagged_tx tx leaves)
  new-IsTransaction = flagged_tx-IsTransaction tx leaves h.valid h.room

  leaves-next :
      (skip (length flagged_bytes) at_tx ≡ some at_leaves) × (rest at_leaves ≡ leaf_parts leaves)
  leaves-next = skip-next at_tx flagged_bytes (leaf_parts leaves) tx-next

  count-passes :
      (not (count_some leaves == length targets)
        || ltb (remaining at_leaves / 13) (count_some leaves)
        || (count_some leaves == 0 && not (is_missing hashes)))
      ≡ false
  count-passes =
      let left : remaining at_leaves ≡ length (leaf_parts leaves) =
        remaining-rest at_leaves ∙ ap (λ x. length x) leaves-next.1 in
      passes (count_some leaves) (length targets) (remaining at_leaves) hashes h.confirmed
        (omega (arith, leaf_parts-least leaves)) (λ e. h.none_needed (omega (arith, h.confirmed)))
    where
      passes :
          (n t left : ℕ) (hs : List Bytes)
          → n ≡ t
          → n ≤ left / 13
          → (n ≡ 0 → length hs ≡ 0)
          → (not (n == t) || ltb (left / 13) n || (n == 0 && not (is_missing hs))) ≡ false
      passes n t left [] e k z = ground arith
      passes n t left (x ∷ hs) e k z = ground arith

  ends : remaining (advance (length (leaf_parts leaves)) at_leaves) ≡ 0
  ends =
      remaining-rest (advance (length (leaf_parts leaves)) at_leaves)
      ∙ ap (λ x. length x)
          (rest-advance at_leaves (leaf_parts leaves) []
            (leaves-next.1 ∙ sym (append-nil (leaf_parts leaves))))

  parse_utreexo_transaction-message :
      (sha256 : Bytes → Bytes) (max_payload_bytes : ℕ)
      → length (message tx leaves targets hashes) ≤ min max_payload_bytes max_tx_payload
      → parse_utreexo_transaction sha256 (message tx leaves targets hashes) max_payload_bytes
        ≡ ok (record {
          transaction = transaction_of sha256 tx;
          proof = record { targets = targets; hashes = hashes };
          input_leaves = leaves;
        })
  unfolding parse_utreexo_transaction layout_of
  parse_utreexo_transaction-message sha256 max_payload_bytes small =
      let bytes = message tx leaves targets hashes in
      let new = flagged_tx tx leaves in
      let fits : ltb (min max_payload_bytes max_tx_payload) (length bytes) ≡ false =
        within (min max_payload_bytes max_tx_payload) (length bytes) small in
      let offset : 0 + length head ≡ length head = omega arith in
      let cut : drop (0 + length head) bytes ≡ flagged_bytes ++ leaf_parts leaves =
        ap (λ n. drop n bytes) offset
        ∙ drop-length_append head (flagged_bytes ++ leaf_parts leaves) in
      let scan = scan_transaction-encode new new-IsTransaction (leaf_parts leaves) in
      let front : take (length flagged_bytes) (flagged_bytes ++ leaf_parts leaves) ≡ flagged_bytes =
        take-length_append flagged_bytes (leaf_parts leaves) in
      let scan' =
        ap scan_transaction (sym (append-nil flagged_bytes))
        ∙ scan_transaction-encode new new-IsTransaction [] in
      let count = count_confirmed-flags tx.inputs leaves h.aligned h.room in
      let reads =
        read_leaves-reads tx.inputs leaves at_leaves []
          (leaves-next.1 ∙ sym (append-nil (leaf_parts leaves))) h.aligned h.room h.fits in
      let restored = restore_inputs-encode tx leaves h.valid h.aligned h.room in
      let parsed =
        parse_transaction-encode sha256 tx max_tx_payload h.valid (omega (arith, h.small)) in
      rw
        (
          fits, proof-next, cut, scan, front, scan', leaves-next.0, count, count-passes, reads,
          ends, h.distinct, restored, parsed,
        )
        refl
    where
      within : (limit size : ℕ) → size ≤ limit → ltb limit size ≡ false
      within limit size h = ground arith

serialize-measured :
    (request : TransactionProofRequest) (max_payload_bytes : ℕ) (p : PreparedTransactionProof)
    (bytes : Bytes)
    → serialize request max_payload_bytes p ≡ ok bytes
    → (size : ℕ) × (measure request max_payload_bytes p ≡ ok size)
unfolding serialize
serialize-measured request max_payload_bytes p bytes e =
    let (size, measured, _) = >>=-eq-ok (measure request max_payload_bytes p) _ bytes e in
    (size, measured)

-- If `Serialize` answers a request for a prepared proof, then `ParseUtreexoTransaction`, under the same
-- limit, reads from the message the transaction as it was before its output numbers were flagged, with
-- its ids, the targets, the hashes at the requested positions in their order, and for each input its leaf or
-- that it is not confirmed.
pub parse_utreexo_transaction-serialize :
    (sha256 : Bytes → Bytes) (tx : Tx) (p : PreparedTransactionProof)
    (request : TransactionProofRequest) (max_payload_bytes : ℕ) (bytes : Bytes)
    → IsPrepared sha256 tx p
    → serialize request max_payload_bytes p ≡ ok bytes
    → parse_utreexo_transaction sha256 bytes max_payload_bytes
      ≡ ok (record {
        transaction = p.transaction;
        proof = record { targets = p.proof.targets; hashes = requested p request.proof_positions };
        input_leaves = p.input_leaves;
      })
parse_utreexo_transaction-serialize sha256 tx p request max_payload_bytes bytes h e =
    let (size, measured) = serialize-measured request max_payload_bytes p bytes e in
    let (answer, long, fits) =
      serialize-message sha256 tx p request max_payload_bytes size h measured in
    let m = measure-IsMeasured request max_payload_bytes p size measured in
    let hashes = requested p request.proof_positions in
    let n = length-requested p request.proof_positions in
    let same : message tx p.input_leaves p.proof.targets hashes ≡ bytes =
      ok-injective (sym answer ∙ e) in
    let is_message : IsMessage tx p.input_leaves p.proof.targets hashes = record {
      valid = h.valid;
      small = h.small;
      aligned = h.aligned;
      room = h.indices;
      fits = h.leaves;
      confirmed = h.confirmed;
      bounds = h.target_bounds;
      distinct = h.distinct;
      hash_bound = omega (arith, m.few, h.counted, h.hash_bound);
      hash_sizes = requested-sizes p request.proof_positions h.counted h.hash_sizes m.found;
      none_needed = λ z. omega (arith, m.few, h.none_needed z);
    } in
    rw (sym same, h.same)
      (parse_utreexo_transaction-message tx p.input_leaves p.proof.targets hashes is_message sha256
        max_payload_bytes (omega (arith, long, fits)))
