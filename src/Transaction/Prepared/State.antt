-- ===== src/Transaction/Prepared/State.antt =====
-- When a `PreparedTransactionProof` of src/transaction_wire.cpp is in order, and what `Serialize` then
-- makes of its transaction.
use utreexo_core_rpc.Common.{
  ℕ, suc, ◌+◌, ◌^◌, ◌≤◌, ◌<◌, ◌≡◌, refl, ap, ◌∙◌, arith, true, ◌||◌, Option, none, some, List, [],
  ◌∷◌, ◌++◌, All, length, length-append, append_assoc,
}
use utreexo_core_rpc.Wire.Bytes.{Bytes, compact_size, compact_size_bytes, length-compact_size}
use utreexo_core_rpc.Leaf.{CompactLeafData, is_other}
use utreexo_core_rpc.Udata.{is_empty}
use utreexo_core_rpc.Transaction.{max_hashes, max_script_bytes, max_tx_payload, unique_positions}
use utreexo_core_rpc.Transaction.Scan.Encoding.{
  TxIn, Tx, concat_map, input_bytes, output_bytes, stack_bytes, marker, encode, prevouts,
  index_offsets, IsInput, IsTransaction,
}
use utreexo_core_rpc.Transaction.Scan.Layout.{body_start}
use utreexo_core_rpc.Transaction.Scan.Identity.{transaction_of}
use utreexo_core_rpc.Transaction.Prepared.{
  PreparedTransactionProof, targets_bytes, flagged, flag_inputs,
}
use utreexo_core_rpc.Transaction.Prepared.Indices.{
  set_index, set_indices, flags, length-set_index, flag_inputs-set_indices,
}
use utreexo_core_rpc.Transaction.Prepared.Written.{
  leaf_parts, flagged_tx, HasRoom, flags-fit, length-set_indices,
}

-- A leaf that `LeafBytes` accepts.
abbrev pub FitsMessage : Option CompactLeafData → Type 0
FitsMessage none = Unit
FitsMessage (some leaf) =
    (leaf.header_code < 2 ^ 31)
    × (leaf.amount < 2 ^ 63)
    × ((is_other leaf.script_type || is_empty leaf.script) ≡ true)
    × (length leaf.script ≤ max_script_bytes)

abbrev pub count_some : List (Option CompactLeafData) → ℕ
count_some [] = 0
count_some (none ∷ leaves) = count_some leaves
count_some (some leaf ∷ leaves) = suc (count_some leaves)

-- A preparation for a transaction: one leaf for each confirmed input and one target for each leaf, one
-- hash for each proof position, fields within their sizes, and the size of all but the hashes.
pub record IsPrepared (sha256 : Bytes → Bytes) (tx : Tx) (p : PreparedTransactionProof)
    : Type 0 where
  pub valid : IsTransaction tx
  pub small : length (encode tx) ≤ max_tx_payload
  pub same : p.transaction ≡ transaction_of sha256 tx
  pub aligned : length tx.inputs ≡ length p.input_leaves
  pub indices : All HasRoom tx.inputs
  pub leaves : All FitsMessage p.input_leaves
  pub confirmed : count_some p.input_leaves ≡ length p.proof.targets
  pub target_bounds : All (λ target. target < 2 ^ 64) p.proof.targets
  pub distinct : unique_positions p.proof.targets ≡ true
  pub counted : length p.proof_positions ≡ length p.proof.hashes
  pub hash_bound : length p.proof.hashes ≤ max_hashes
  pub hash_sizes : All (λ hash. length hash ≡ 32) p.proof.hashes
  pub none_needed : length p.proof.targets ≡ 0 → length p.proof_positions ≡ 0
  pub base :
      p.base_payload_bytes
      ≡ length (encode tx)
        + compact_size_bytes (length p.proof.targets)
        + targets_bytes p.proof.targets
        + length (leaf_parts p.input_leaves)

-- Flagging leaves the rest of the transaction, and its length, as they are.
pub flag_inputs-encode :
    (tx : Tx) (leaves : List (Option CompactLeafData)) (output : Bytes)
    → IsTransaction tx
    → length tx.inputs ≡ length leaves
    → All HasRoom tx.inputs
    → flag_inputs
        (prevouts tx.inputs)
        (index_offsets (body_start tx + compact_size_bytes (length tx.inputs)) tx.inputs)
        leaves
        (length output)
        (output ++ encode tx)
      ≡ output ++ encode (flagged_tx tx leaves)
unfolding encode
flag_inputs-encode tx leaves output valid aligned room =
    let n = length tx.inputs in
    let pre = output ++ (tx.version ++ (marker tx.stacks ++ compact_size n)) in
    let post =
      (compact_size (length tx.outputs) ++ concat_map output_bytes tx.outputs)
      ++ (concat_map stack_bytes tx.stacks ++ tx.lock_time) in
    let vs = flags tx.inputs leaves in
    let before : output ++ encode tx ≡ pre ++ (concat_map input_bytes tx.inputs ++ post) =
      simp append_assoc refl in
    let after : pre ++ (concat_map input_bytes (set_indices tx.inputs vs) ++ post)
        ≡ output ++ encode (flagged_tx tx leaves) =
      rw (length-set_indices tx.inputs vs) (simp append_assoc refl) in
    let place : length pre
        ≡ length output + (body_start tx + compact_size_bytes (length tx.inputs)) =
      omega (
        arith,
        valid.version_size,
        length-append output (tx.version ++ (marker tx.stacks ++ compact_size n)),
        length-append tx.version (marker tx.stacks ++ compact_size n),
        length-append (marker tx.stacks) (compact_size n),
        length-compact_size n,
      ) in
    ap
      (flag_inputs (prevouts tx.inputs)
        (index_offsets (body_start tx + compact_size_bytes n) tx.inputs) leaves (length output))
      before
    ∙ flag_inputs-set_indices tx.inputs leaves (body_start tx + compact_size_bytes n)
        (length output) pre post aligned place valid.inputs (flags-fit tx.inputs leaves room)
    ∙ after

length-flagged_inputs :
    (inputs : List TxIn) (leaves : List (Option CompactLeafData))
    → All IsInput inputs
    → All HasRoom inputs
    → length (concat_map input_bytes (set_indices inputs (flags inputs leaves)))
      ≡ length (concat_map input_bytes inputs)
length-flagged_inputs [] leaves h room = refl
length-flagged_inputs (input ∷ inputs) [] h room = refl
length-flagged_inputs (input ∷ inputs) (leaf ∷ leaves) (h, all) (room, rooms) =
    let v = flagged input.prevout leaf in
    let fits = (flags-fit (input ∷ []) (leaf ∷ []) (room, tt)).0 in
    omega (
      arith,
      length-append (input_bytes (set_index input v))
          (concat_map input_bytes (set_indices inputs (flags inputs leaves))),
      length-append (input_bytes input) (concat_map input_bytes inputs),
      length-set_index input v h fits,
      length-flagged_inputs inputs leaves all rooms,
    )

pub length-flagged_tx :
    (tx : Tx) (leaves : List (Option CompactLeafData))
    → IsTransaction tx
    → All HasRoom tx.inputs
    → length (encode (flagged_tx tx leaves)) ≡ length (encode tx)
unfolding encode
length-flagged_tx tx leaves valid room =
    let vs = flags tx.inputs leaves in
    let old = concat_map input_bytes tx.inputs in
    let new = concat_map input_bytes (set_indices tx.inputs vs) in
    let outputs = compact_size (length tx.outputs) ++ concat_map output_bytes tx.outputs in
    let count = compact_size (length tx.inputs) in
    let ending = concat_map stack_bytes tx.stacks ++ tx.lock_time in
    rw (length-set_indices tx.inputs vs) (
      omega (
        arith,
        length-append tx.version (marker tx.stacks ++ ((count ++ (new ++ outputs)) ++ ending)),
        length-append tx.version (marker tx.stacks ++ ((count ++ (old ++ outputs)) ++ ending)),
        length-append (marker tx.stacks) ((count ++ (new ++ outputs)) ++ ending),
        length-append (marker tx.stacks) ((count ++ (old ++ outputs)) ++ ending),
        length-append (count ++ (new ++ outputs)) ending,
        length-append (count ++ (old ++ outputs)) ending,
        length-append count (new ++ outputs),
        length-append count (old ++ outputs),
        length-append new outputs,
        length-append old outputs,
        length-flagged_inputs tx.inputs leaves valid.inputs room,
      ))
