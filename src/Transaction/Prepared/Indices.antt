-- ===== src/Transaction/Prepared/Indices.antt =====
-- Output numbers that are written over in the encoding of a transaction.
use utreexo_core_rpc.Common.{
  ℕ, zero, suc, ◌+◌, ◌/◌, ◌%◌, ◌^◌, bit_and, ◌<◌, ◌≡◌, refl, sym, ap, ◌∙◌, arith, Option, List, [],
  ◌∷◌, ◌++◌, All, length, length-append, append_assoc,
}
use utreexo_core_rpc.Common.Bits.{bit_and-mask}
use utreexo_core_rpc.Wire.Bytes.{Bytes, little_endian, length-little_endian}
use utreexo_core_rpc.Leaf.{CompactLeafData}
use utreexo_core_rpc.Transaction.Scan.Encoding.{
  TxIn, concat_map, sized, input_bytes, prevouts, index_offsets, IsInput, length-input_bytes,
}
use utreexo_core_rpc.Transaction.Prepared.{set, write_vout, flagged, flag_inputs}

set-append : (a b : Bytes) (x v : ℕ) → set (a ++ (x ∷ b)) (length a) v ≡ a ++ (v ∷ b)
set-append [] b x v = refl
set-append (y ∷ a) b x v = ap (λ c. y ∷ c) (set-append a b x v)

-- The bytes at the offset are replaced by the digits of the number.
pub write_vout-replaces :
    (n : ℕ) (a old b : Bytes) (offset v : ℕ)
    → length old ≡ n
    → offset ≡ length a
    → write_vout n (a ++ (old ++ b)) offset v ≡ a ++ (little_endian n v ++ b)
unfolding write_vout little_endian
write_vout-replaces zero a [] b offset v size e = refl
write_vout-replaces zero a (x ∷ old) b offset v size e = absurd (omega arith)
write_vout-replaces (suc n) a [] b offset v size e = absurd (omega arith)
write_vout-replaces (suc n) a (x ∷ old) b offset v size e =
    let digit : bit_and v 0xff ≡ v % 256 = bit_and-mask 8 v in
    let first : set (a ++ (x ∷ (old ++ b))) offset (bit_and v 0xff)
        ≡ (a ++ v % 256 ∷ []) ++ (old ++ b) =
      rw (e, digit)
        (set-append a (old ++ b) x (v % 256) ∙ sym (append_assoc a (v % 256 ∷ []) (old ++ b))) in
    rw first (
      write_vout-replaces n (a ++ v % 256 ∷ []) old b (offset + 1) (v / 2 ^ 8) (omega arith)
        (omega (arith, length-append a (v % 256 ∷ [])))
      ∙ append_assoc a (v % 256 ∷ []) (little_endian n (v / 256) ++ b))

-- Inputs with other output numbers.
abbrev pub set_index : TxIn → ℕ → TxIn
set_index input v = record input { prevout = record { txid = input.prevout.txid; index = v } }

pub set_index-IsInput :
    (input : TxIn) (v : ℕ) → IsInput input → v < 2 ^ 32 → IsInput (set_index input v)
set_index-IsInput input v h fits = record {
  txid_size = h.txid_size;
  index_bound = fits;
  script_bound = h.script_bound;
  sequence_size = h.sequence_size;
}

pub length-set_index :
    (input : TxIn) (v : ℕ)
    → IsInput input
    → v < 2 ^ 32
    → length (input_bytes (set_index input v)) ≡ length (input_bytes input)
length-set_index input v h fits =
    length-input_bytes (set_index input v) (set_index-IsInput input v h fits)
    ∙ sym (length-input_bytes input h)

-- One write in an input that stands behind `pre`.
pub write_vout-set_index :
    (input : TxIn) (v offset : ℕ) (pre post : Bytes)
    → length input.prevout.txid ≡ 32
    → offset ≡ length pre + 32
    → write_vout 4 (pre ++ (input_bytes input ++ post)) offset v
      ≡ pre ++ (input_bytes (set_index input v) ++ post)
write_vout-set_index input v offset pre post size e =
    let txid = input.prevout.txid in
    let old = little_endian 4 input.prevout.index in
    let behind = sized input.script ++ input.sequence ++ post in
    let open_up : pre ++ (input_bytes input ++ post) ≡ (pre ++ txid) ++ (old ++ behind) =
      simp append_assoc refl in
    ap (λ xs. write_vout 4 xs offset v) open_up
    ∙ write_vout-replaces 4 (pre ++ txid) old behind offset v
        (length-little_endian 4 input.prevout.index) (omega (arith, length-append pre txid))
    ∙ simp append_assoc refl

abbrev pub set_indices : List TxIn → List ℕ → List TxIn
set_indices [] vs = []
set_indices (input ∷ inputs) [] = input ∷ inputs
set_indices (input ∷ inputs) (v ∷ vs) = set_index input v ∷ set_indices inputs vs

-- The numbers that `Serialize` writes.
abbrev pub flags : List TxIn → List (Option CompactLeafData) → List ℕ
flags (input ∷ inputs) (leaf ∷ leaves) = flagged input.prevout leaf ∷ flags inputs leaves
flags _ _ = []

pub flag_inputs-set_indices :
    (inputs : List TxIn) (leaves : List (Option CompactLeafData)) (start tx_start : ℕ)
    (pre post : Bytes)
    → length inputs ≡ length leaves
    → length pre ≡ tx_start + start
    → All IsInput inputs
    → All (λ v. v < 2 ^ 32) (flags inputs leaves)
    → flag_inputs
        (prevouts inputs)
        (index_offsets start inputs)
        leaves
        tx_start
        (pre ++ (concat_map input_bytes inputs ++ post))
      ≡ pre ++ (concat_map input_bytes (set_indices inputs (flags inputs leaves)) ++ post)
unfolding flag_inputs
flag_inputs-set_indices [] [] start tx_start pre post n e all small = refl
flag_inputs-set_indices [] (leaf ∷ leaves) start tx_start pre post n e all small =
    absurd (omega arith)
flag_inputs-set_indices (input ∷ inputs) [] start tx_start pre post n e all small =
    absurd (omega arith)
flag_inputs-set_indices (input ∷ inputs) (leaf ∷ leaves) start tx_start pre post n e (h, all)
      (fits, small) =
    let v = flagged input.prevout leaf in
    let new = input_bytes (set_index input v) in
    let rest = concat_map input_bytes inputs in
    let written =
      ap (λ xs. write_vout 4 (pre ++ xs) (tx_start + (start + 32)) v)
        (append_assoc (input_bytes input) rest post)
      ∙ write_vout-set_index input v (tx_start + (start + 32)) pre (rest ++ post) h.txid_size
          (omega arith)
      ∙ sym (append_assoc pre new (rest ++ post)) in
    let loop =
      flag_inputs-set_indices inputs leaves (start + length (input_bytes input)) tx_start
        (pre ++ new) post (omega arith)
        (omega (arith, length-append pre new, length-set_index input v h fits)) all small in
    rw (written, loop)
      (append_assoc pre new _ ∙ ap (λ xs. pre ++ xs) (sym (append_assoc new _ post)))
