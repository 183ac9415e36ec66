-- ===== src/Transaction/Scan/Identity.antt =====
-- `Transaction::Parse` on the encoding of a transaction, and the ids that it computes.
use utreexo_core_rpc.Common.{
  ℕ, ◌+◌, ◌-◌, ◌≤◌, ◌≡◌, refl, sym, ap, ◌∙◌, arith, Bool, true, false, ◌==◌, ltb, min, Bool-cases,
  inl, inr, List, [], ◌∷◌, ◌++◌, if◌then◌else◌, length, length-append, append_assoc, append-nil,
  take, drop, take-length_append, drop-length_append,
}
use utreexo_core_rpc.Result.{ok}
use utreexo_core_rpc.Wire.Bytes.{Bytes, compact_size_bytes}
use utreexo_core_rpc.Transaction.{max_tx_payload}
use utreexo_core_rpc.Transaction.Scan.{
  Transaction, strip_witness, scan_transaction, parse_transaction, double_sha256,
}
use utreexo_core_rpc.Transaction.Scan.Encoding.{
  Tx, concat_map, stack_bytes, is_nonempty, marker, body, encode, stripped, prevouts, index_offsets,
  IsTransaction,
}
use utreexo_core_rpc.Transaction.Scan.Layout.{body_start, layout_of, scan_transaction-encode}

take_front : (n : ℕ) (xs ys : Bytes) → length xs ≡ n → take n (xs ++ ys) ≡ xs
take_front n xs ys h = ap (λ m. take m (xs ++ ys)) (sym h) ∙ take-length_append xs ys

drop_front : (n : ℕ) (xs ys : Bytes) → length xs ≡ n → drop n (xs ++ ys) ≡ ys
drop_front n xs ys h = ap (λ m. drop m (xs ++ ys)) (sym h) ∙ drop-length_append xs ys

strip_witness-encode :
    (tx : Tx) → IsTransaction tx → strip_witness (layout_of tx) (encode tx) ≡ encode (stripped tx)
unfolding strip_witness layout_of encode stripped
strip_witness-encode tx valid = rw (first, middle, last) refl
  where
    witness : Bytes
    witness = concat_map stack_bytes tx.stacks

    first : take 4 (encode tx) ≡ tx.version
    first = take_front 4 tx.version _ valid.version_size

    middle :
        take (body_start tx + length (body tx) - body_start tx) (drop (body_start tx) (encode tx))
        ≡ body tx
    middle =
        ap (λ xs. take (body_start tx + length (body tx) - body_start tx) (drop (body_start tx) xs))
          (sym (append_assoc tx.version (marker tx.stacks) (body tx ++ (witness ++ tx.lock_time))))
        ∙ ap (take (body_start tx + length (body tx) - body_start tx)) (
            drop_front (body_start tx) (tx.version ++ marker tx.stacks) _
              (omega (arith, length-append tx.version (marker tx.stacks), valid.version_size)))
        ∙ take_front _ (body tx) _ (omega arith)

    front : Bytes
    front = tx.version ++ (marker tx.stacks ++ (body tx ++ witness))

    joined : encode tx ≡ front ++ tx.lock_time
    joined = simp append_assoc refl

    last : drop (length (encode tx) - 4) (encode tx) ≡ tx.lock_time
    last =
        ap (λ xs. drop (length xs - 4) xs) joined
        ∙ drop_front _ front tx.lock_time
            (omega (arith, length-append front tx.lock_time, valid.lock_time_size))

empty-eq : (stacks : List (List Bytes)) → is_nonempty stacks ≡ false → stacks ≡ []
empty-eq [] h = refl
empty-eq (items ∷ stacks) h = cc

encode-plain : (tx : Tx) → is_nonempty tx.stacks ≡ false → encode tx ≡ encode (stripped tx)
unfolding encode stripped
encode-plain tx n = rw (empty-eq tx.stacks n) refl

-- What is hashed for the id: the transaction without its witness.
hashed-encode :
    (tx : Tx)
    → IsTransaction tx
    → (if is_nonempty tx.stacks then strip_witness (layout_of tx) (encode tx) else encode tx)
      ≡ encode (stripped tx)
hashed-encode tx valid = elim (Bool-cases (is_nonempty tx.stacks)) [
  | inl y ↦ ap choice y ∙ strip_witness-encode tx valid
  | inr n ↦ ap choice n ∙ encode-plain tx n
]
  where
    choice : Bool → Bytes
    choice b = if b then strip_witness (layout_of tx) (encode tx) else encode tx

-- A transaction with its outpoints, where their output numbers stand, and its ids.
abbrev pub transaction_of : (Bytes → Bytes) → Tx → Transaction
transaction_of sha256 tx = record {
  bytes = encode tx;
  inputs = prevouts tx.inputs;
  vout_offsets = index_offsets (body_start tx + compact_size_bytes (length tx.inputs)) tx.inputs;
  txid = double_sha256 sha256 (encode (stripped tx));
  wtxid = double_sha256 sha256 (encode tx);
  has_witness = is_nonempty tx.stacks;
}

-- `Transaction::Parse` accepts the encoding of a well-formed transaction within the limits, and keeps
-- its bytes, its outpoints in their order, and whether there is a witness. Its id is the double hash of the
-- encoding without the witness, so that it does not depend on the witness; the witness id is the
-- double hash of the whole.
pub parse_transaction-encode :
    (sha256 : Bytes → Bytes) (tx : Tx) (max_payload_bytes : ℕ)
    → IsTransaction tx
    → length (encode tx) ≤ min max_payload_bytes max_tx_payload
    → parse_transaction sha256 (encode tx) max_payload_bytes ≡ ok (transaction_of sha256 tx)
unfolding parse_transaction layout_of
parse_transaction-encode sha256 tx max_payload_bytes valid small =
    let scan =
      ap scan_transaction (sym (append-nil (encode tx))) ∙ scan_transaction-encode tx valid [] in
    let fits : ltb (min max_payload_bytes max_tx_payload) (length (encode tx)) ≡ false =
      within _ _ small in
    let whole : (length (encode tx) == length (encode tx)) ≡ true = same (length (encode tx)) in
    rw (fits, scan, whole, hashed-encode tx valid) refl
  where
    within : (limit size : ℕ) → size ≤ limit → ltb limit size ≡ false
    within limit size h = ground arith

    same : (n : ℕ) → (n == n) ≡ true
    same n = ground arith
