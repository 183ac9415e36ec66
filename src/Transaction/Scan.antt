-- ===== src/Transaction/Scan.antt =====
-- `ScanTransaction` and `Transaction::Parse` of src/transaction_wire.cpp. The scan always gives the
-- inputs and the offsets of their output numbers; a caller that passes null pointers drops them.
pub mod Encoding
pub mod Reads
pub mod Layout
pub mod Identity
use utreexo_core_rpc.Common.{
  ℕ, zero, suc, ◌+◌, ◌-◌, ◌/◌, min, ◌==◌, ltb, Bool, true, false, ◌||◌, not, List, [], ◌∷◌, ◌++◌,
  if◌then◌else◌, length, take, drop,
}
use utreexo_core_rpc.Result.{Result, ok, err, ◌>>=◌, ◌>>◌, expect, refuse}
use utreexo_core_rpc.Wire.Bytes.{Bytes}
use utreexo_core_rpc.Wire.Reader.{
  Reader, open_reader, remaining, read_le, read_compact_size, read_hash, skip,
}
use utreexo_core_rpc.Transaction.{max_inputs, max_tx_payload}

pub record OutPoint : Type 0 where
  pub txid : Bytes
  pub index : ℕ

pub record TransactionLayout : Type 0 where
  pub input_start : ℕ
  pub outputs_end : ℕ
  pub size : ℕ
  pub witness : Bool

-- What the reader has behind the marker of the inputs: their number, whether there is a witness, and
-- where they start.
pub record Header : Type 0 where
  pub input_count : ℕ
  pub witness : Bool
  pub input_start : ℕ
  pub reader : Reader

unfoldable pub scan_header : Reader → Result Header
scan_header r = do
  r₁ ← expect "truncated transaction version or input count" (skip 4 r)
  (count, r₂) ← expect "truncated transaction version or input count" (read_compact_size r₁)
  if count == 0
      then (do
        (flag, r₃) ← expect "invalid transaction witness flag" (read_le 1 r₂)
        refuse (not (flag == 1)) "invalid transaction witness flag"
        (count', r₄) ← expect "invalid witness transaction input count" (read_compact_size r₃)
        ok (record { input_count = count'; witness = true; input_start = r₃.offset; reader = r₄ }))
      else ok (record { input_count = count; witness = false; input_start = 4; reader = r₂ })

-- The loop over the inputs, with `n` of them left.
unfoldable pub scan_inputs : ℕ → Reader → Result (List OutPoint × List ℕ × Reader)
scan_inputs zero r = ok ([], [], r)
scan_inputs (suc n) r = do
  (txid, r₁) ← expect "truncated transaction outpoint hash" (read_hash r)
  (index, r₂) ← expect "invalid transaction input script or sequence" (read_le 4 r₁)
  (script_size, r₃) ← expect "invalid transaction input script or sequence" (read_compact_size r₂)
  r₄ ← expect "invalid transaction input script or sequence" (skip script_size r₃)
  r₅ ← expect "invalid transaction input script or sequence" (skip 4 r₄)
  (inputs, offsets, r₆) ← scan_inputs n r₅
  ok (record { txid = txid; index = index } ∷ inputs, r₁.offset ∷ offsets, r₆)

unfoldable pub scan_outputs : ℕ → Reader → Result Reader
scan_outputs zero r = ok r
scan_outputs (suc n) r = do
  r₁ ← expect "invalid transaction output script" (skip 8 r)
  (script_size, r₂) ← expect "invalid transaction output script" (read_compact_size r₁)
  r₃ ← expect "invalid transaction output script" (skip script_size r₂)
  scan_outputs n r₃

unfoldable pub scan_items : ℕ → Reader → Result Reader
scan_items zero r = ok r
scan_items (suc n) r = do
  (item_size, r₁) ← expect "invalid transaction witness item" (read_compact_size r)
  r₂ ← expect "invalid transaction witness item" (skip item_size r₁)
  scan_items n r₂

unfoldable pub scan_witnesses : ℕ → Bool → Reader → Result (Bool × Reader)
scan_witnesses zero has_witness r = ok (has_witness, r)
scan_witnesses (suc n) has_witness r = do
  (count, r₁) ← expect "invalid transaction witness item count" (read_compact_size r)
  refuse (ltb (remaining r₁) count) "invalid transaction witness item count"
  r₂ ← scan_items count r₁
  scan_witnesses n (has_witness || not (count == 0)) r₂

-- The witnesses, where the transaction has any.
unfoldable pub scan_witness : Bool → ℕ → Reader → Result Reader
scan_witness false input_count r = ok r
scan_witness true input_count r = do
  (has_witness, r₁) ← scan_witnesses input_count false r
  refuse (not has_witness) "superfluous witness serialization"
  ok r₁

unfoldable pub scan_transaction : Bytes → Result (TransactionLayout × List OutPoint × List ℕ)
scan_transaction bytes = do
  h ← scan_header (open_reader bytes)
  refuse
      (h.input_count == 0
        || ltb max_inputs h.input_count
        || ltb (remaining h.reader / 41) h.input_count)
      "invalid transaction input count"
  (inputs, offsets, r) ← scan_inputs h.input_count h.reader
  (count, r₁) ← expect "invalid transaction output count" (read_compact_size r)
  refuse (count == 0 || ltb (remaining r₁ / 9) count) "invalid transaction output count"
  r₂ ← scan_outputs count r₁
  r₃ ← scan_witness h.witness h.input_count r₂
  r₄ ← expect "truncated transaction locktime" (skip 4 r₃)
  ok (
    record {
      input_start = h.input_start;
      outputs_end = r₂.offset;
      size = r₄.offset;
      witness = h.witness;
    },
    inputs,
    offsets,
  )

pub record Transaction : Type 0 where
  pub bytes : Bytes
  pub inputs : List OutPoint
  pub vout_offsets : List ℕ
  pub txid : Bytes
  pub wtxid : Bytes
  pub has_witness : Bool

-- `raw` without its witness: the version, the inputs and outputs, and the lock time.
unfoldable pub strip_witness : TransactionLayout → Bytes → Bytes
strip_witness layout raw =
    take 4 raw
    ++ (take (layout.outputs_end - layout.input_start) (drop layout.input_start raw)
        ++ drop (length raw - 4) raw)

module _ (sha256 : Bytes → Bytes) where
  abbrev pub double_sha256 : Bytes → Bytes
  double_sha256 bytes = sha256 (sha256 bytes)

  unfoldable pub parse_transaction : Bytes → ℕ → Result Transaction
  parse_transaction raw max_payload_bytes = do
    refuse (ltb (min max_payload_bytes max_tx_payload) (length raw))
        "raw transaction payload exceeds maximum"
    (layout, _, _) ← scan_transaction raw
    refuse (not (layout.size == length raw)) "trailing raw transaction bytes"
    (_, inputs, vout_offsets) ← scan_transaction raw
    ok (record {
      bytes = raw;
      inputs = inputs;
      vout_offsets = vout_offsets;
      txid = double_sha256 (if layout.witness then strip_witness layout raw else raw);
      wtxid = double_sha256 raw;
      has_witness = layout.witness;
    })
