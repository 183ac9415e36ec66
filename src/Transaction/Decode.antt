-- ===== src/Transaction/Decode.antt =====
-- `ParseUtreexoTransaction` of src/transaction_wire.cpp.
pub mod Proofs
pub mod Leaves
pub mod Restore
pub mod RoundTrip
use utreexo_core_rpc.Common.{
  ℕ, zero, suc, ◌+◌, ◌/◌, min, bit_and, Bool, true, false, ◌&&◌, ◌||◌, not, ltb, ◌==◌,
  if◌then◌else◌, Option, none, some, List, [], ◌∷◌, length, take, drop,
}
use utreexo_core_rpc.Result.{Result, ok, ◌>>=◌, ◌>>◌, expect, refuse}
use utreexo_core_rpc.Wire.Bytes.{Bytes}
use utreexo_core_rpc.Wire.Reader.{
  Reader, open_reader, remaining, read_le, read_compact_size, read_hash, skip,
}
use utreexo_core_rpc.Leaf.{
  ScriptPubkeyType, other, pubkey_hash, witness_v0_pubkey_hash, script_hash, witness_v0_script_hash,
  CompactLeafData,
}
use utreexo_core_rpc.Udata.{Proof}
use utreexo_core_rpc.Transaction.{
  padding, max_inputs, max_hashes, max_script_bytes, max_tx_payload, unique_positions,
}
use utreexo_core_rpc.Transaction.Scan.{OutPoint, Transaction, scan_transaction, parse_transaction}
use utreexo_core_rpc.Transaction.Prepared.{leaf_bytes, write_vout, is_missing}

pub record DecodedTransactionProof : Type 0 where
  pub transaction : Transaction
  pub proof : Proof
  pub input_leaves : List (Option CompactLeafData)

unfoldable pub read_targets : ℕ → Reader → Result (List ℕ × Reader)
read_targets zero r = ok ([], r)
read_targets (suc n) r = do
  (target, r₁) ← expect "invalid utreexotx target" (read_compact_size r)
  refuse (target == padding) "invalid utreexotx target"
  (targets, r₂) ← read_targets n r₁
  ok (target ∷ targets, r₂)

unfoldable pub read_hashes : ℕ → Reader → Result (List Bytes × Reader)
read_hashes zero r = ok ([], r)
read_hashes (suc n) r = do
  (hash, r₁) ← expect "truncated utreexotx proof hash" (read_hash r)
  (hashes, r₂) ← read_hashes n r₁
  ok (hash ∷ hashes, r₂)

unfoldable pub read_proof : Reader → Result (Proof × Reader)
read_proof r = do
  (count, r₁) ← expect "invalid utreexotx target count" (read_compact_size r)
  refuse (ltb max_inputs count || ltb (remaining r₁) count) "invalid utreexotx target count"
  (targets, r₂) ← read_targets count r₁
  (count', r₃) ← expect "invalid utreexotx proof hash count" (read_compact_size r₂)
  refuse (ltb max_hashes count' || ltb (remaining r₃ / 32) count')
      "invalid utreexotx proof hash count"
  (hashes, r₄) ← read_hashes count' r₃
  ok (record { targets = targets; hashes = hashes }, r₄)

-- The cast of a byte to the enumeration; `LeafBytes` refuses a byte that is none of its values.
unfoldable pub script_type_of : ℕ → Option ScriptPubkeyType
script_type_of byte =
    if byte == 0
    then some other
    else if byte == 1
    then some pubkey_hash
    else if byte == 2
    then some witness_v0_pubkey_hash
    else if byte == 3
    then some script_hash
    else if byte == 4
    then some witness_v0_script_hash
    else none

unfoldable pub read_other_script : Reader → Result (Bytes × Reader)
read_other_script r = do
  (size, r₁) ← expect "invalid compact leaf script length" (read_compact_size r)
  refuse (ltb max_script_bytes size || ltb (remaining r₁) size) "invalid compact leaf script length"
  r₂ ← expect "truncated compact leaf script" (skip size r₁)
  ok (take size (drop r₁.offset r₁.bytes), r₂)

-- The script of a leaf, which only one of the type `OTHER` has.
unfoldable pub read_script : ℕ → Reader → Result (Bytes × Reader)
read_script type r = if type == 0 then read_other_script r else ok ([], r)

unfoldable pub read_leaf : Reader → Result (CompactLeafData × Reader)
read_leaf r = do
  (header_code, r₁) ← expect "truncated confirmed compact leaf" (read_le 4 r)
  (amount, r₂) ← expect "truncated confirmed compact leaf" (read_le 8 r₁)
  (type, r₃) ← expect "truncated confirmed compact leaf" (read_le 1 r₂)
  (script, r₄) ← read_script type r₃
  script_type ←
      expect "invalid confirmed compact leaf header, amount, or script type" (script_type_of type)
  let leaf : CompactLeafData = record {
    header_code = header_code;
    amount = amount;
    script_type = script_type;
    script = script;
  }
  measured ← leaf_bytes leaf
  ok (leaf, r₄)

unfoldable pub is_confirmed : OutPoint → Bool
is_confirmed input = bit_and input.index 1 == 0

-- The number of confirmed inputs.
unfoldable pub count_confirmed : List OutPoint → ℕ
count_confirmed [] = 0
count_confirmed (input ∷ inputs) =
    if is_confirmed input then suc (count_confirmed inputs) else count_confirmed inputs

-- The leaf of an input, where it is confirmed.
unfoldable pub read_input_leaf : OutPoint → Reader → Result (Option CompactLeafData × Reader)
read_input_leaf input r =
    if is_confirmed input then (do (leaf, r₁) ← read_leaf r; ok (some leaf, r₁)) else ok (none, r)

unfoldable pub read_leaves :
    List OutPoint → Reader → Result (List (Option CompactLeafData) × Reader)
read_leaves [] r = ok ([], r)
read_leaves (input ∷ inputs) r = do
  (leaf, r₁) ← read_input_leaf input r
  (leaves, r₂) ← read_leaves inputs r₁
  ok (leaf ∷ leaves, r₂)

-- The loop that takes the flags out of the output numbers.
unfoldable pub restore_inputs : List OutPoint → List ℕ → Bytes → Bytes
restore_inputs (input ∷ inputs) (offset ∷ offsets) raw =
    restore_inputs inputs offsets (write_vout 4 raw offset (input.index / 2))
restore_inputs _ _ raw = raw

module _ (sha256 : Bytes → Bytes) where
  unfoldable pub parse_utreexo_transaction : Bytes → ℕ → Result DecodedTransactionProof
  parse_utreexo_transaction payload max_payload_bytes = do
    refuse (ltb (min max_payload_bytes max_tx_payload) (length payload))
        "utreexotx payload exceeds maximum"
    (proof, r) ← read_proof (open_reader payload)
    let tx_start = r.offset
    (layout, _, _) ← scan_transaction (drop tx_start payload)
    let flagged_tx = take layout.size (drop tx_start payload)
    (_, inputs, offsets) ← scan_transaction flagged_tx
    r₁ ← expect "truncated utreexotx transaction" (skip layout.size r)
    let confirmed = count_confirmed inputs
    refuse
        (not (confirmed == length proof.targets)
          || ltb (remaining r₁ / 13) confirmed
          || (confirmed == 0 && not (is_missing proof.hashes)))
        "utreexotx confirmed input/proof counts differ"
    (leaves, r₂) ← read_leaves inputs r₁
    refuse (not (remaining r₂ == 0) || not (unique_positions proof.targets))
        "trailing utreexotx bytes or duplicate targets"
    transaction ← parse_transaction sha256 (restore_inputs inputs offsets flagged_tx) max_tx_payload
    ok (record { transaction = transaction; proof = proof; input_leaves = leaves })
