-- ===== src/Transaction/Decode/Restore.antt =====
-- The flags taken out of the output numbers again.
use utreexo_core_rpc.Common.{
  ℕ, ◌+◌, ◌/◌, ◌^◌, ◌<◌, ◌≡◌, refl, sym, ap, ◌∙◌, subst, arith, Option, none, some, List, [], ◌∷◌,
  ◌++◌, All, length, length-append, append_assoc,
}
use utreexo_core_rpc.Wire.Bytes.{Bytes, compact_size, compact_size_bytes, length-compact_size}
use utreexo_core_rpc.Leaf.{CompactLeafData}
use utreexo_core_rpc.Transaction.Scan.Encoding.{
  TxIn, Tx, concat_map, input_bytes, output_bytes, stack_bytes, marker, encode, prevouts,
  index_offsets, IsInput, IsTransaction, HasWitness,
}
use utreexo_core_rpc.Transaction.Scan.Layout.{body_start}
use utreexo_core_rpc.Transaction.Prepared.{write_vout, flagged}
use utreexo_core_rpc.Transaction.Prepared.Indices.{
  set_index, set_indices, flags, set_index-IsInput, length-set_index, write_vout-set_index,
}
use utreexo_core_rpc.Transaction.Prepared.Written.{
  flagged_tx, HasRoom, flagged-eq, flags-fit, length-set_indices,
}
use utreexo_core_rpc.Transaction.Decode.{restore_inputs}

flagged-half :
    (input : TxIn) (leaf : Option CompactLeafData)
    → HasRoom input
    → flagged input.prevout leaf / 2 ≡ input.prevout.index
flagged-half input none h = omega (arith, flagged-eq input.prevout none h)
flagged-half input (some leaf) h = omega (arith, flagged-eq input.prevout (some leaf) h)

restore_inputs-flags :
    (inputs : List TxIn) (leaves : List (Option CompactLeafData)) (start : ℕ) (pre post : Bytes)
    → length inputs ≡ length leaves
    → length pre ≡ start
    → All IsInput inputs
    → All HasRoom inputs
    → let new = set_indices inputs (flags inputs leaves) in
      restore_inputs
        (prevouts new)
        (index_offsets start new)
        (pre ++ (concat_map input_bytes new ++ post))
      ≡ pre ++ (concat_map input_bytes inputs ++ post)
unfolding restore_inputs
restore_inputs-flags [] [] start pre post n e all room = refl
restore_inputs-flags [] (leaf ∷ leaves) start pre post n e all room = absurd (omega arith)
restore_inputs-flags (input ∷ inputs) [] start pre post n e all room = absurd (omega arith)
restore_inputs-flags (input ∷ inputs) (leaf ∷ leaves) start pre post n e (h, all) (place, room) =
    let v = flagged input.prevout leaf in
    let new = set_index input v in
    let rest = concat_map input_bytes (set_indices inputs (flags inputs leaves)) in
    let back : set_index new (v / 2) ≡ input =
      ap (set_index input) (flagged-half input leaf place) in
    let written =
      ap (λ xs. write_vout 4 (pre ++ xs) (start + 32) (v / 2))
        (append_assoc (input_bytes new) rest post)
      ∙ write_vout-set_index new (v / 2) (start + 32) pre (rest ++ post) h.txid_size (omega arith)
      ∙ ap (λ i. pre ++ (input_bytes i ++ (rest ++ post))) back
      ∙ sym (append_assoc pre (input_bytes input) (rest ++ post)) in
    let fits = (flags-fit (input ∷ []) (leaf ∷ []) (place, tt)).0 in
    let loop =
      restore_inputs-flags inputs leaves (start + length (input_bytes new))
        (pre ++ input_bytes input) post (omega arith)
        (omega (arith, length-append pre (input_bytes input), length-set_index input v h fits)) all
        room in
    rw (written, loop)
      (append_assoc pre (input_bytes input) _
        ∙ ap (λ xs. pre ++ xs) (sym (append_assoc (input_bytes input) _ post)))

pub restore_inputs-encode :
    (tx : Tx) (leaves : List (Option CompactLeafData))
    → IsTransaction tx
    → length tx.inputs ≡ length leaves
    → All HasRoom tx.inputs
    → let new = flagged_tx tx leaves in
      restore_inputs
        (prevouts new.inputs)
        (index_offsets (body_start new + compact_size_bytes (length new.inputs)) new.inputs)
        (encode new)
      ≡ encode tx
unfolding encode
restore_inputs-encode tx leaves valid aligned room =
    let n = length tx.inputs in
    let pre = tx.version ++ (marker tx.stacks ++ compact_size n) in
    let post =
      (compact_size (length tx.outputs) ++ concat_map output_bytes tx.outputs)
      ++ (concat_map stack_bytes tx.stacks ++ tx.lock_time) in
    let vs = flags tx.inputs leaves in
    let new = set_indices tx.inputs vs in
    let start = body_start tx + compact_size_bytes n in
    let before : encode (flagged_tx tx leaves) ≡ pre ++ (concat_map input_bytes new ++ post) =
      rw (length-set_indices tx.inputs vs) (simp append_assoc refl) in
    let after : pre ++ (concat_map input_bytes tx.inputs ++ post) ≡ encode tx =
      simp append_assoc refl in
    let place : length pre ≡ start = omega (
      arith,
      valid.version_size,
      length-append tx.version (marker tx.stacks ++ compact_size n),
      length-append (marker tx.stacks) (compact_size n),
      length-compact_size n,
    ) in
    ap
      (λ m.
        restore_inputs (prevouts new) (index_offsets (body_start tx + compact_size_bytes m) new)
          (encode (flagged_tx tx leaves)))
      (length-set_indices tx.inputs vs)
    ∙ ap (restore_inputs (prevouts new) (index_offsets start new)) before
    ∙ restore_inputs-flags tx.inputs leaves start pre post aligned place valid.inputs room
    ∙ after

set_indices-AreInputs :
    (inputs : List TxIn) (vs : List ℕ)
    → All IsInput inputs
    → All (λ v. v < 2 ^ 32) vs
    → All IsInput (set_indices inputs vs)
set_indices-AreInputs [] vs h fits = tt
set_indices-AreInputs (input ∷ inputs) [] h fits = h
set_indices-AreInputs (input ∷ inputs) (v ∷ vs) (h, all) (fit, fits) =
    (set_index-IsInput input v h fit, set_indices-AreInputs inputs vs all fits)

pub flagged_tx-IsTransaction :
    (tx : Tx) (leaves : List (Option CompactLeafData))
    → IsTransaction tx
    → All HasRoom tx.inputs
    → IsTransaction (flagged_tx tx leaves)
flagged_tx-IsTransaction tx leaves valid room =
    let n = length-set_indices tx.inputs (flags tx.inputs leaves) in
    record {
      version_size = valid.version_size;
      some_input = omega (arith, valid.some_input);
      input_bound = omega (arith, valid.input_bound);
      inputs =
          set_indices-AreInputs tx.inputs (flags tx.inputs leaves) valid.inputs
            (flags-fit tx.inputs leaves room);
      some_output = valid.some_output;
      output_bound = valid.output_bound;
      outputs = valid.outputs;
      stacks = valid.stacks;
      witness = subst (λ m. HasWitness m tx.stacks) (sym n) valid.witness;
      lock_time_size = valid.lock_time_size;
    }
