-- ===== src/Transaction/Prepared.antt =====
-- `PreparedTransactionProof` and `ParseUtreexoTransaction` of src/transaction_wire.cpp. The sizes that
-- `Create` adds up stay below 2 ^ 64 by its own tests.
pub mod Indices
pub mod Written
pub mod State
pub mod Message
pub mod Create
pub mod Contents
use utreexo_core_rpc.Common.{
  ℕ, zero, suc, ◌+◌, ◌-◌, ◌*◌, ◌/◌, ◌%◌, ◌^◌, min, bit_and, bit_or, Bool, true, false, ◌&&◌, ◌||◌,
  not, ltb, leb, ◌==◌, if◌then◌else◌, Option, none, some, List, [], ◌∷◌, ◌++◌, map, length, get_or,
}
use utreexo_core_rpc.Result.{Result, ok, err, ◌>>=◌, ◌>>◌, expect, refuse}
use utreexo_core_rpc.Wire.Bytes.{Bytes, append_le, append_compact_size, compact_size_bytes}
use utreexo_core_rpc.Leaf.{ScriptPubkeyType, is_other, CompactLeafData}
use utreexo_core_rpc.Udata.{Proof, script_type_byte, is_empty, append_targets}
use utreexo_core_rpc.Transaction.{
  max_inputs, max_hashes, max_script_bytes, max_tx_payload, unique_positions,
}
use utreexo_core_rpc.Transaction.Inventory.{
  TransactionAnnouncement, TransactionProofRequest, is_request_type,
}
use utreexo_core_rpc.Transaction.Scan.{OutPoint, Transaction}
use utreexo_core_rpc.Transaction.Positions.{native_proof_positions, wire_position, rows_of}

pub record PreparedTransactionProof : Type 0 where
  pub transaction : Transaction
  pub proof : Proof
  pub input_leaves : List (Option CompactLeafData)
  pub proof_positions : List ℕ
  pub base_payload_bytes : ℕ

-- `LeafBytes`: the size of a compact leaf in a message.
unfoldable pub leaf_bytes : CompactLeafData → Result ℕ
leaf_bytes leaf =
    if ltb (2 ^ 31 - 1) leaf.header_code || ltb (2 ^ 63 - 1) leaf.amount
    then err "invalid confirmed compact leaf header, amount, or script type"
    else if not (is_other leaf.script_type)
    then (if is_empty leaf.script then ok 13 else err "standard compact leaf contains a script")
    else if ltb max_script_bytes (length leaf.script)
    then err "compact leaf script exceeds maximum"
    else ok (13 + compact_size_bytes (length leaf.script) + length leaf.script)

-- The leaf of one input, counted and measured.
unfoldable pub count_leaf : Option CompactLeafData → ℕ → ℕ → Result (ℕ × ℕ)
count_leaf none confirmed base_bytes = ok (confirmed, base_bytes)
count_leaf (some leaf) confirmed base_bytes = do
  size ← leaf_bytes leaf
  refuse (leb max_tx_payload (base_bytes + size))
      "prepared transaction metadata exceeds payload maximum"
  ok (confirmed + 1, base_bytes + size)

-- The loop of `Create` over the inputs and their leaves, which are as many.
unfoldable pub count_leaves : List OutPoint → List (Option CompactLeafData) → ℕ → ℕ → Result (ℕ × ℕ)
count_leaves (input ∷ inputs) (leaf ∷ leaves) confirmed base_bytes = do
  refuse (ltb (2 ^ 31 - 1) input.index) "transaction vout cannot be losslessly flagged"
  (confirmed', base_bytes') ← count_leaf leaf confirmed base_bytes
  count_leaves inputs leaves confirmed' base_bytes'
count_leaves _ _ confirmed base_bytes = ok (confirmed, base_bytes)

-- What the targets take in a message.
unfoldable pub targets_bytes : List ℕ → ℕ
targets_bytes [] = 0
targets_bytes (target ∷ targets) = compact_size_bytes target + targets_bytes targets

abbrev pub wire_positions : ℕ → List ℕ → List ℕ
wire_positions rows [] = []
wire_positions rows (pos ∷ ps) = wire_position pos rows ∷ wire_positions rows ps

abbrev pub is_missing : {A : Type 0} → List A → Bool
is_missing [] = true
is_missing (x ∷ xs) = false

unfoldable pub create :
    Transaction → Proof → List (Option CompactLeafData) → ℕ → Result PreparedTransactionProof
create transaction proof input_leaves num_leaves = do
  refuse
      (is_missing transaction.inputs
        || is_missing transaction.bytes
        || not (length input_leaves == length transaction.inputs)
        || ltb max_inputs (length proof.targets)
        || ltb max_hashes (length proof.hashes))
      "invalid prepared transaction proof counts"
  (confirmed, base_bytes) ←
      count_leaves transaction.inputs input_leaves 0
        (length transaction.bytes + compact_size_bytes (length proof.targets))
  refuse (not (confirmed == length proof.targets)) "confirmed input and proof target counts differ"
  positions ← native_proof_positions proof num_leaves
  let rows = rows_of num_leaves
  let targets = wire_positions rows proof.targets
  let base_bytes' = base_bytes + targets_bytes targets
  refuse (leb max_tx_payload base_bytes') "prepared transaction targets exceed payload maximum"
  ok (record {
    transaction = transaction;
    proof = record proof { targets = targets };
    input_leaves = input_leaves;
    proof_positions = wire_positions rows positions;
    base_payload_bytes = base_bytes';
  })

unfoldable pub announcement : PreparedTransactionProof → TransactionAnnouncement
announcement p = record { txid = p.transaction.txid; confirmed_targets = p.proof.targets }

unfoldable pub full_request : ℕ → PreparedTransactionProof → TransactionProofRequest
full_request inventory_type p = record {
  txid = p.transaction.txid;
  inventory_type = inventory_type;
  proof_positions = p.proof_positions;
}

-- `==` of hashes.
abbrev pub same_bytes : Bytes → Bytes → Bool
same_bytes [] [] = true
same_bytes (x ∷ xs) (y ∷ ys) = x == y && same_bytes xs ys
same_bytes _ _ = false

-- `std::lower_bound`, as an index: the first position that is not below `pos`.
unfoldable pub lower_bound : List ℕ → ℕ → ℕ
lower_bound [] pos = 0
lower_bound (p ∷ ps) pos = let later = suc (lower_bound ps pos) in if ltb p pos then later else 0

abbrev pub found_at : List ℕ → ℕ → ℕ → Bool
found_at [] i pos = false
found_at (p ∷ ps) zero pos = p == pos
found_at (p ∷ ps) (suc i) pos = found_at ps i pos

unfoldable pub all_found : List ℕ → List ℕ → Bool
all_found proof_positions [] = true
all_found proof_positions (pos ∷ positions) =
    found_at proof_positions (lower_bound proof_positions pos) pos
    && all_found proof_positions positions

unfoldable pub measure : TransactionProofRequest → ℕ → PreparedTransactionProof → Result ℕ
measure request max_payload_bytes p = do
  refuse
      (not (is_request_type request.inventory_type)
        || not (same_bytes request.txid p.transaction.txid))
      "Utreexo transaction request type or txid mismatch"
  let n = length request.proof_positions
  refuse (ltb (length p.proof_positions) n) "too many requested proof positions"
  let bytes = p.base_payload_bytes + compact_size_bytes n + n * 32
  refuse (ltb (min max_payload_bytes max_tx_payload) bytes)
      "utreexotx response exceeds payload maximum"
  refuse (not (all_found p.proof_positions request.proof_positions))
      "requested position is not a transaction proof node"
  refuse (not (unique_positions request.proof_positions)) "duplicate requested proof positions"
  ok bytes

-- The hashes of the requested positions; a position that was measured has an index below their number.
unfoldable pub append_hashes : PreparedTransactionProof → List ℕ → Bytes → Bytes
append_hashes p [] output = output
append_hashes p (pos ∷ positions) output =
    append_hashes p positions
      (output ++ get_or p.proof.hashes (lower_bound p.proof_positions pos) [])

-- An assignment to one byte of a vector.
abbrev pub set : Bytes → ℕ → ℕ → Bytes
set [] i v = []
set (x ∷ xs) zero v = v ∷ xs
set (x ∷ xs) (suc i) v = x ∷ set xs i v

-- The loop of `WriteVout`, with `n` rounds left.
unfoldable pub write_vout : ℕ → Bytes → ℕ → ℕ → Bytes
write_vout zero bytes offset vout = bytes
write_vout (suc n) bytes offset vout =
    write_vout n (set bytes offset (bit_and vout 0xff)) (offset + 1) (vout / 2 ^ 8)

-- The output number of an input, and whether the input is confirmed.
unfoldable pub flagged : OutPoint → Option CompactLeafData → ℕ
flagged input none = bit_or (input.index * 2 % 2 ^ 32) 1
flagged input (some leaf) = bit_or (input.index * 2 % 2 ^ 32) 0

-- The loop that flags the inputs of the transaction that starts at `tx_start`.
unfoldable pub flag_inputs :
    List OutPoint → List ℕ → List (Option CompactLeafData) → ℕ → Bytes → Bytes
flag_inputs (input ∷ inputs) (offset ∷ offsets) (leaf ∷ leaves) tx_start output =
    flag_inputs inputs offsets leaves tx_start
      (write_vout 4 output (tx_start + offset) (flagged input leaf))
flag_inputs _ _ _ tx_start output = output

unfoldable pub append_leaf : CompactLeafData → Bytes → Bytes
append_leaf leaf output =
    let header = append_le 4 leaf.header_code output in
    let fixed = append_le 8 leaf.amount header ++ script_type_byte leaf.script_type ∷ [] in
    if is_other leaf.script_type
    then append_compact_size (length leaf.script) fixed ++ leaf.script
    else fixed

unfoldable pub append_leaves : List (Option CompactLeafData) → Bytes → Bytes
append_leaves [] output = output
append_leaves (none ∷ leaves) output = append_leaves leaves output
append_leaves (some leaf ∷ leaves) output = append_leaves leaves (append_leaf leaf output)

-- The proof in front of the transaction.
unfoldable pub append_proof : TransactionProofRequest → PreparedTransactionProof → Bytes
append_proof request p =
    let counted = append_compact_size (length p.proof.targets) [] in
    let targets = append_targets p.proof.targets counted in
    append_hashes p request.proof_positions
      (append_compact_size (length request.proof_positions) targets)

unfoldable pub serialize : TransactionProofRequest → ℕ → PreparedTransactionProof → Result Bytes
serialize request max_payload_bytes p = do
  measured ← measure request max_payload_bytes p
  let output = append_proof request p
  let with_tx = output ++ p.transaction.bytes
  let flagged_tx =
      flag_inputs p.transaction.inputs p.transaction.vout_offsets p.input_leaves (length output)
        with_tx
  ok (append_leaves p.input_leaves flagged_tx)
