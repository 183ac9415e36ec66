-- ===== src/Transaction/Scan/Layout.antt =====
-- `ScanTransaction` on the encoding of a transaction.
use utreexo_core_rpc.Common.{
  some, ℕ, ◌+◌, ◌/◌, ◌^◌, ◌≤◌, ◌<◌, ◌≡◌, refl, sym, ap, ◌∙◌, arith, true, false, ◌||◌, ◌==◌, ltb,
  Bool-cases, inl, inr, List, [], ◌∷◌, ◌++◌, All, length, length-append, append_assoc,
}
use utreexo_core_rpc.Result.{ok}
use utreexo_core_rpc.Wire.Bytes.{
  Bytes, little_endian, compact_size, compact_size_bytes, length-compact_size,
}
use utreexo_core_rpc.Wire.Reader.{
  Reader, open_reader, advance, remaining, read_le, read_compact_size, skip, rest,
}
use utreexo_core_rpc.Wire.Reader.Reads.{rest-advance, remaining-rest}
use utreexo_core_rpc.Wire.Reader.Next.{read_le-next, skip_size-next, read_compact_size-next}
use utreexo_core_rpc.Transaction.{max_inputs}
use utreexo_core_rpc.Transaction.Scan.{
  TransactionLayout, scan_header, scan_witness, scan_transaction,
}
use utreexo_core_rpc.Transaction.Scan.Encoding.{
  Tx, TxIn, TxOut, IsStack, concat_map, input_bytes, output_bytes, stack_bytes, is_nonempty, marker,
  body, encode, prevouts, index_offsets, IsInput, IsOutput, IsTransaction, HasWitness,
  length-input_bytes, length-output_bytes, length-concat_map, compact_size_bytes-pos,
}
use utreexo_core_rpc.Transaction.Scan.Reads.{
  scan_inputs-reads, scan_outputs-reads, scan_witnesses-reads,
}

-- Where the inputs start.
abbrev pub body_start : Tx → ℕ
body_start tx = 4 + length (marker tx.stacks)

unfoldable pub layout_of : Tx → TransactionLayout
layout_of tx = record {
  input_start = body_start tx;
  outputs_end = body_start tx + length (body tx);
  size = length (encode tx);
  witness = is_nonempty tx.stacks;
}

-- The marker of a witness is read as no inputs, and then as the flag.
marker-reads :
    (r : Reader) (later : Bytes)
    → rest r ≡ 0 ∷ (1 ∷ later)
    → (read_compact_size r ≡ some (0, advance 1 r))
      × (read_le 1 (advance 1 r) ≡ some (1, advance 1 (advance 1 r)))
      × (rest (advance 1 (advance 1 r)) ≡ later)
unfolding compact_size compact_size_bytes little_endian
marker-reads r later h =
    let (a, behind) = read_compact_size-next 0 r (1 ∷ later) h (omega arith) in
    let (b, behind₁) = read_le-next 1 1 (advance 1 r) later behind (omega arith) in (a, b, behind₁)

scan_witness-reads :
    (stacks : List (List Bytes)) (inputs : ℕ) (r : Reader) (tail : Bytes)
    → rest r ≡ concat_map stack_bytes stacks ++ tail
    → All IsStack stacks
    → HasWitness inputs stacks
    → scan_witness (is_nonempty stacks) inputs r
      ≡ ok (advance (length (concat_map stack_bytes stacks)) r)
unfolding scan_witness
scan_witness-reads [] inputs r tail h all witness =
    ap (λ o. ok (record r { offset = o })) (omega arith)
scan_witness-reads (items ∷ stacks) inputs r tail h all (count, some_item) =
    rw (sym count, scan_witnesses-reads (items ∷ stacks) false r tail h all, some_item) refl

input-bytes_least : (input : TxIn) → IsInput input → 41 ≤ length (input_bytes input)
input-bytes_least input h =
    omega (arith, length-input_bytes input h, compact_size_bytes-pos (length input.script))

output-bytes_least : (output : TxOut) → IsOutput output → 9 ≤ length (output_bytes output)
output-bytes_least output h =
    omega (arith, length-output_bytes output h, compact_size_bytes-pos (length output.script))

-- The tests of a count pass where there are that many parts of the least size.
count-passes :
    (n limit left size : ℕ)
    → 0 < n
    → n ≤ limit
    → n ≤ left / size
    → (n == 0 || ltb limit n || ltb (left / size) n) ≡ false
count-passes n limit left size some_part bound room = ground arith

module _ (tx : Tx) (valid : IsTransaction tx) (tail : Bytes) where
  -- What stands behind the number of inputs.
  abbrev inputs_on : Bytes
  inputs_on =
      concat_map input_bytes tx.inputs
      ++ (compact_size (length tx.outputs)
          ++ (concat_map output_bytes tx.outputs
              ++ (concat_map stack_bytes tx.stacks ++ (tx.lock_time ++ tail))))

  encode-split :
      encode tx ++ tail
      ≡ tx.version ++ (marker tx.stacks ++ (compact_size (length tx.inputs) ++ inputs_on))
  unfolding encode
  encode-split = simp append_assoc refl

  input_count-fits : length tx.inputs < 2 ^ 64
  input_count-fits = omega (arith, valid.input_bound)

  abbrev start : Reader
  start = open_reader (encode tx ++ tail)

  abbrev at_inputs : Reader
  at_inputs =
      advance (compact_size_bytes (length tx.inputs))
        (advance (length (marker tx.stacks)) (advance 4 start))

  version-next :
      (skip 4 start ≡ some (advance 4 start))
      × (rest (advance 4 start)
          ≡ marker tx.stacks ++ (compact_size (length tx.inputs) ++ inputs_on))
  version-next = skip_size-next 4 start tx.version _ encode-split valid.version_size

  header_plain :
      is_nonempty tx.stacks ≡ false
      → (scan_header start
          ≡ ok (record {
            input_count = length tx.inputs;
            witness = is_nonempty tx.stacks;
            input_start = body_start tx;
            reader = at_inputs;
          }))
        × (rest at_inputs ≡ inputs_on)
  unfolding scan_header
  header_plain e =
      let (a, behind) = version-next in
      let n = length tx.inputs in
      let (b, behind₁) =
        read_compact_size-next n (advance 4 start) inputs_on (rw e at behind) input_count-fits in
      let some_input : (n == 0) ≡ false = positive n valid.some_input in
      (rw (a, b, some_input, e) refl, rw e behind₁)
    where
      positive : (n : ℕ) → 0 < n → (n == 0) ≡ false
      positive n h = ground arith

  header_witness :
      is_nonempty tx.stacks ≡ true
      → (scan_header start
          ≡ ok (record {
            input_count = length tx.inputs;
            witness = is_nonempty tx.stacks;
            input_start = body_start tx;
            reader = at_inputs;
          }))
        × (rest at_inputs ≡ inputs_on)
  unfolding scan_header
  header_witness e =
      let (a, behind) = version-next in
      let n = length tx.inputs in
      let r₁ = advance 4 start in
      let later = compact_size n ++ inputs_on in
      let (b, c, behind₁) = marker-reads r₁ later (rw e at behind) in
      let r₃ = advance 1 (advance 1 r₁) in
      let (d, behind₂) = read_compact_size-next n r₃ inputs_on behind₁ input_count-fits in
      let moved : ◌≡◌ {A = Reader} (advance (compact_size_bytes n) r₃) at_inputs =
        rw e (ap (λ o. record start { offset = o }) (omega arith)) in
      (
        rw (a, b, c, d)
            (ap (λ r. ok (record { input_count = n; witness = true; input_start = 6; reader = r }))
                moved
              ∙ rw e refl),
        ap (λ r. rest r) (sym moved) ∙ behind₂,
      )

  header-reads :
      (scan_header start
        ≡ ok (record {
          input_count = length tx.inputs;
          witness = is_nonempty tx.stacks;
          input_start = body_start tx;
          reader = at_inputs;
        }))
      × (rest at_inputs ≡ inputs_on)
  header-reads = elim (Bool-cases (is_nonempty tx.stacks)) [
    | inl y ↦ header_witness y
    | inr n ↦ header_plain n
  ]

  abbrev outputs_on : Bytes
  outputs_on =
      concat_map output_bytes tx.outputs
      ++ (concat_map stack_bytes tx.stacks ++ (tx.lock_time ++ tail))

  abbrev stacks_on : Bytes
  stacks_on = concat_map stack_bytes tx.stacks ++ (tx.lock_time ++ tail)

  abbrev at_outputs : Reader
  at_outputs =
      advance (compact_size_bytes (length tx.outputs))
        (advance (length (concat_map input_bytes tx.inputs)) at_inputs)

  abbrev at_stacks : Reader
  at_stacks = advance (length (concat_map output_bytes tx.outputs)) at_outputs

  abbrev at_end : Reader
  at_end = advance 4 (advance (length (concat_map stack_bytes tx.stacks)) at_stacks)

  input_count-passes :
      (length tx.inputs == 0
        || ltb max_inputs (length tx.inputs)
        || ltb (remaining at_inputs / 41) (length tx.inputs))
      ≡ false
  input_count-passes =
      let left : remaining at_inputs
          ≡ length (concat_map input_bytes tx.inputs)
            + length (compact_size (length tx.outputs) ++ outputs_on) =
        remaining-rest at_inputs
        ∙ ap (λ x. length x) header-reads.1
        ∙ length-append (concat_map input_bytes tx.inputs) _ in
      count-passes (length tx.inputs) max_inputs (remaining at_inputs) 41 valid.some_input
        valid.input_bound
        (omega (
          arith,
          length-concat_map input_bytes IsInput 41 input-bytes_least tx.inputs valid.inputs,
        ))

  outputs-next :
      (read_compact_size (advance (length (concat_map input_bytes tx.inputs)) at_inputs)
        ≡ some (length tx.outputs, at_outputs))
      × (rest at_outputs ≡ outputs_on)
  outputs-next =
      read_compact_size-next (length tx.outputs)
        (advance (length (concat_map input_bytes tx.inputs)) at_inputs) outputs_on
        (rest-advance at_inputs (concat_map input_bytes tx.inputs) _ header-reads.1)
        valid.output_bound

  output_count-passes :
      (length tx.outputs == 0 || ltb (remaining at_outputs / 9) (length tx.outputs)) ≡ false
  output_count-passes =
      let left : remaining at_outputs
          ≡ length (concat_map output_bytes tx.outputs) + length stacks_on =
        remaining-rest at_outputs
        ∙ ap (λ x. length x) outputs-next.1
        ∙ length-append (concat_map output_bytes tx.outputs) _ in
      passes (length tx.outputs) (remaining at_outputs) valid.some_output (
        omega (
          arith,
          length-concat_map output_bytes IsOutput 9 output-bytes_least tx.outputs valid.outputs,
        ))
    where
      passes : (n left : ℕ) → 0 < n → n ≤ left / 9 → (n == 0 || ltb (left / 9) n) ≡ false
      passes n left some_part room = ground arith

  stacks-next : rest at_stacks ≡ stacks_on
  stacks-next = rest-advance at_outputs (concat_map output_bytes tx.outputs) _ outputs-next.1

  lock_time-next :
      (skip 4 (advance (length (concat_map stack_bytes tx.stacks)) at_stacks) ≡ some at_end)
      × (rest at_end ≡ tail)
  lock_time-next =
      skip_size-next 4 (advance (length (concat_map stack_bytes tx.stacks)) at_stacks) tx.lock_time
        tail (rest-advance at_stacks (concat_map stack_bytes tx.stacks) _ stacks-next)
        valid.lock_time_size

  outputs_end-eq : at_stacks.offset ≡ body_start tx + length (body tx)
  outputs_end-eq = omega (
    arith,
    length-append (compact_size (length tx.inputs)) (
        concat_map input_bytes tx.inputs
        ++ (compact_size (length tx.outputs) ++ concat_map output_bytes tx.outputs)),
    length-append (concat_map input_bytes tx.inputs)
        (compact_size (length tx.outputs) ++ concat_map output_bytes tx.outputs),
    length-append (compact_size (length tx.outputs)) (concat_map output_bytes tx.outputs),
    length-compact_size (length tx.inputs),
    length-compact_size (length tx.outputs),
  )

  size-eq : at_end.offset ≡ length (encode tx)
  unfolding encode
  size-eq = omega (
    arith,
    outputs_end-eq,
    valid.version_size,
    valid.lock_time_size,
    length-append tx.version
        (marker tx.stacks ++ (body tx ++ (concat_map stack_bytes tx.stacks ++ tx.lock_time))),
    length-append (marker tx.stacks)
        (body tx ++ (concat_map stack_bytes tx.stacks ++ tx.lock_time)),
    length-append (body tx) (concat_map stack_bytes tx.stacks ++ tx.lock_time),
    length-append (concat_map stack_bytes tx.stacks) tx.lock_time,
  )

  -- On the encoding of a well-formed transaction, whatever follows it, `ScanTransaction` succeeds: it
  -- gives the transaction's outpoints in their order, where the output number of each stands in the
  -- bytes, where inputs start and outputs end, whether there is a witness, and the encoding's length.
  pub scan_transaction-encode :
      scan_transaction (encode tx ++ tail)
      ≡ ok (
        layout_of tx,
        prevouts tx.inputs,
        index_offsets (body_start tx + compact_size_bytes (length tx.inputs)) tx.inputs,
      )
  unfolding scan_transaction layout_of
  scan_transaction-encode =
      let (a, behind) = header-reads in
      let b = scan_inputs-reads tx.inputs at_inputs _ behind valid.inputs in
      let (c, behind₁) = outputs-next in
      let d = scan_outputs-reads tx.outputs at_outputs _ behind₁ valid.outputs in
      let e =
        scan_witness-reads tx.stacks (length tx.inputs) at_stacks _ stacks-next valid.stacks
          valid.witness in
      let (f, _) = lock_time-next in
      rw
        (
          a,
          input_count-passes,
          b,
          c,
          output_count-passes,
          d,
          e,
          f,
          outputs_end-eq,
          rw outputs_end-eq at size-eq,
        )
        refl
