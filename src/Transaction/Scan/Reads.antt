-- ===== src/Transaction/Scan/Reads.antt =====
-- What the loops of `ScanTransaction` read where the encodings of inputs, outputs and witness stacks
-- stand before the cursor.
use utreexo_core_rpc.Common.{
  ℕ, ◌+◌, ◌^◌, ◌≤◌, ◌<◌, ◌≡◌, refl, sym, ap, ◌∙◌, arith, Bool, true, false, not, ◌||◌, ◌==◌, ltb,
  List, [], ◌∷◌, ◌++◌, All, length, length-append, append_assoc,
}
use utreexo_core_rpc.Result.{ok}
use utreexo_core_rpc.Wire.Bytes.{
  Bytes, little_endian, compact_size, compact_size_bytes, length-compact_size,
}
use utreexo_core_rpc.Wire.Reader.{Reader, advance, remaining, rest}
use utreexo_core_rpc.Wire.Reader.Reads.{rest-advance, remaining-rest}
use utreexo_core_rpc.Wire.Reader.Next.{
  read_le-next, read_hash-next, skip_size-next, read_compact_size-next, read_sized-next,
}
use utreexo_core_rpc.Transaction.Scan.{scan_inputs, scan_outputs, scan_items, scan_witnesses}
use utreexo_core_rpc.Transaction.Scan.Encoding.{
  TxIn, TxOut, concat_map, sized, input_bytes, output_bytes, stack_bytes, is_nonempty, prevouts,
  index_offsets, IsInput, IsOutput, IsStack, has_items, length-sized, length-input_bytes,
  length-output_bytes, length-concat_map, compact_size_bytes-pos,
}

pub at_offset :
    (r : Reader) (m n : ℕ)
    → m ≡ n
    → ◌≡◌ {A = Reader} (record r { offset = m }) (record r { offset = n })
at_offset r m n e = ap (λ o. record r { offset = o }) e

-- Behind a front part, and then behind the next one.
pub advance-append :
    (r : Reader) (xs ys : Bytes)
    → advance (length ys) (advance (length xs) r) ≡ advance (length (xs ++ ys)) r
advance-append r xs ys =
    at_offset r (r.offset + length xs + length ys) (r.offset + length (xs ++ ys))
      (omega (arith, length-append xs ys))

pub scan_inputs-reads :
    (inputs : List TxIn) (r : Reader) (tail : Bytes)
    → rest r ≡ concat_map input_bytes inputs ++ tail
    → All IsInput inputs
    → scan_inputs (length inputs) r
      ≡ ok (
        prevouts inputs,
        index_offsets r.offset inputs,
        advance (length (concat_map input_bytes inputs)) r,
      )
unfolding scan_inputs
scan_inputs-reads [] r tail h all =
    ap (λ r'. ok ([], [], r')) (at_offset r r.offset (r.offset + 0) (omega arith))
scan_inputs-reads (input ∷ inputs) r tail h (is_input, all) =
    let later = concat_map input_bytes inputs ++ tail in
    let script = input.script in
    let index = little_endian 4 input.prevout.index in
    let split : rest r
        ≡ input.prevout.txid ++ (index ++ (sized script ++ (input.sequence ++ later))) =
      h ∙ simp append_assoc refl in
    let (a, behind) = read_hash-next r input.prevout.txid _ split is_input.txid_size in
    let r₁ = advance 32 r in
    let (b, behind₁) = read_le-next 4 input.prevout.index r₁ _ behind is_input.index_bound in
    let r₂ = advance 4 r₁ in
    let (c, d, behind₂) =
      read_sized-next r₂ script (input.sequence ++ later) behind₁ is_input.script_bound in
    let r₄ = advance (length script) (advance (compact_size_bytes (length script)) r₂) in
    let (e, behind₃) = skip_size-next 4 r₄ input.sequence later behind₂ is_input.sequence_size in
    let r₅ = advance (length (input_bytes input)) r in
    let moved : ◌≡◌ {A = Reader} (advance 4 r₄) r₅ =
      at_offset r (r.offset + 32 + 4 + compact_size_bytes (length script) + length script + 4)
        (r.offset + length (input_bytes input))
        (omega (arith, length-input_bytes input is_input)) in
    let loop = scan_inputs-reads inputs r₅ tail (ap (λ x. rest x) (sym moved) ∙ behind₃) all in
    rw (a, b, c, d, e, moved, loop)
      (ap (λ x. ok (prevouts (input ∷ inputs), index_offsets r.offset (input ∷ inputs), x))
        (advance-append r (input_bytes input) (concat_map input_bytes inputs)))

pub scan_outputs-reads :
    (outputs : List TxOut) (r : Reader) (tail : Bytes)
    → rest r ≡ concat_map output_bytes outputs ++ tail
    → All IsOutput outputs
    → scan_outputs (length outputs) r ≡ ok (advance (length (concat_map output_bytes outputs)) r)
unfolding scan_outputs
scan_outputs-reads [] r tail h all =
    ap (λ r'. ok r') (at_offset r r.offset (r.offset + 0) (omega arith))
scan_outputs-reads (output ∷ outputs) r tail h (is_output, all) =
    let later = concat_map output_bytes outputs ++ tail in
    let script = output.script in
    let split : rest r ≡ output.value ++ (sized script ++ later) = h ∙ simp append_assoc refl in
    let (a, behind) = skip_size-next 8 r output.value _ split is_output.value_size in
    let r₁ = advance 8 r in
    let (b, c, behind₁) = read_sized-next r₁ script later behind is_output.script_bound in
    let r₃ = advance (length (output_bytes output)) r in
    let moved : ◌≡◌ {A = Reader}
        (advance (length script) (advance (compact_size_bytes (length script)) r₁)) r₃ =
      at_offset r (r.offset + 8 + compact_size_bytes (length script) + length script)
        (r.offset + length (output_bytes output))
        (omega (arith, length-output_bytes output is_output)) in
    let loop = scan_outputs-reads outputs r₃ tail (ap (λ x. rest x) (sym moved) ∙ behind₁) all in
    rw (a, b, c, moved, loop)
      (ap (λ x. ok x) (advance-append r (output_bytes output) (concat_map output_bytes outputs)))

scan_items-reads :
    (items : List Bytes) (r : Reader) (tail : Bytes)
    → rest r ≡ concat_map sized items ++ tail
    → All (λ item. length item < 2 ^ 64) items
    → scan_items (length items) r ≡ ok (advance (length (concat_map sized items)) r)
unfolding scan_items
scan_items-reads [] r tail h all =
    ap (λ r'. ok r') (at_offset r r.offset (r.offset + 0) (omega arith))
scan_items-reads (item ∷ items) r tail h (fits, all) =
    let later = concat_map sized items ++ tail in
    let split : rest r ≡ sized item ++ later = h ∙ append_assoc (sized item) _ tail in
    let (a, b, behind) = read_sized-next r item later split fits in
    let r₂ = advance (length (sized item)) r in
    let moved : ◌≡◌ {A = Reader}
        (advance (length item) (advance (compact_size_bytes (length item)) r)) r₂ =
      at_offset r (r.offset + compact_size_bytes (length item) + length item)
        (r.offset + length (sized item)) (omega (arith, length-sized item)) in
    let loop = scan_items-reads items r₂ tail (ap (λ x. rest x) (sym moved) ∙ behind) all in
    rw (a, b, moved, loop) (ap (λ x. ok x) (advance-append r (sized item) (concat_map sized items)))

item-one_byte : (item : Bytes) → length item < 2 ^ 64 → 1 ≤ length (sized item)
item-one_byte item h = omega (arith, length-sized item, compact_size_bytes-pos (length item))

not-empty_count : (items : List Bytes) → not (length items == 0) ≡ is_nonempty items
not-empty_count [] = refl
not-empty_count (item ∷ items) = ground arith

or_assoc : (a b c : Bool) → ((a || b) || c) ≡ (a || (b || c))
or_assoc true b c = refl
or_assoc false b c = refl

or-false : (a : Bool) → (a || false) ≡ a
or-false true = refl
or-false false = refl

pub scan_witnesses-reads :
    (stacks : List (List Bytes)) (has_witness : Bool) (r : Reader) (tail : Bytes)
    → rest r ≡ concat_map stack_bytes stacks ++ tail
    → All IsStack stacks
    → scan_witnesses (length stacks) has_witness r
      ≡ ok (has_witness || has_items stacks, advance (length (concat_map stack_bytes stacks)) r)
unfolding scan_witnesses
scan_witnesses-reads [] has_witness r tail h all =
    rw or-false
      (ap (λ r'. ok (has_witness, r')) (at_offset r r.offset (r.offset + 0) (omega arith)))
scan_witnesses-reads (items ∷ stacks) has_witness r tail h ((count_fits, fits), all) =
    let later = concat_map stack_bytes stacks ++ tail in
    let n = length items in
    let split : rest r ≡ compact_size n ++ (concat_map sized items ++ later) =
      h ∙ simp append_assoc refl in
    let (a, behind) = read_compact_size-next n r _ split count_fits in
    let r₁ = advance (compact_size_bytes n) r in
    let left : remaining r₁ ≡ length (concat_map sized items) + length later =
      remaining-rest r₁
      ∙ ap (λ x. length x) behind
      ∙ length-append (concat_map sized items) later in
    let enough : ltb (remaining r₁) n ≡ false = not-below _ _ (
      omega (
        arith,
        length-concat_map sized (λ item. length item < 2 ^ 64) 1 item-one_byte items fits,
      )) in
    let b = scan_items-reads items r₁ later behind fits in
    let r₂ = advance (length (stack_bytes items)) r in
    let moved : ◌≡◌ {A = Reader} (advance (length (concat_map sized items)) r₁) r₂ =
      at_offset r (r.offset + compact_size_bytes n + length (concat_map sized items))
        (r.offset + length (stack_bytes items))
        (omega (
          arith,
          length-append (compact_size n) (concat_map sized items),
          length-compact_size n,
        )) in
    let behind₂ : rest r₂ ≡ later =
      rest-advance r (stack_bytes items) later (h ∙ append_assoc (stack_bytes items) _ tail) in
    let loop = scan_witnesses-reads stacks (has_witness || is_nonempty items) r₂ tail behind₂ all in
    rw (a, enough, b, moved, not-empty_count items, loop, or_assoc)
      (ap (λ x. ok (has_witness || (is_nonempty items || has_items stacks), x))
        (advance-append r (stack_bytes items) (concat_map stack_bytes stacks)))
  where
    not-below : (a b : ℕ) → b ≤ a → ltb a b ≡ false
    not-below a b h = ground arith
