-- ===== src/Transaction/Decode/Leaves.antt =====
-- The leaves of a message, read back by the flags in the output numbers.
use utreexo_core_rpc.Common.{
  ℕ, suc, ◌+◌, ◌*◌, ◌%◌, ◌^◌, ◌-◌, ◌≤◌, ◌<◌, ◌≡◌, refl, ap, ◌∙◌, arith, Bool, true, false, ◌||◌,
  ◌==◌, ltb, Bool-cases, inl, inr, if◌then◌else◌, Option, none, some, List, [], ◌∷◌, ◌++◌, All,
  length, length-append, append_assoc, take, take-length_append,
}
use utreexo_core_rpc.Common.Bits.{bit_and-one}
use utreexo_core_rpc.Result.{ok}
use utreexo_core_rpc.Wire.Bytes.{
  Bytes, little_endian, length-little_endian, compact_size, compact_size_bytes,
}
use utreexo_core_rpc.Wire.Reader.{Reader, advance, remaining, rest}
use utreexo_core_rpc.Wire.Reader.Reads.{rest-advance, remaining-rest}
use utreexo_core_rpc.Wire.Reader.Next.{read_le-next, read_compact_size-next, skip-next}
use utreexo_core_rpc.Leaf.{
  ScriptPubkeyType, other, pubkey_hash, witness_v0_pubkey_hash, script_hash, witness_v0_script_hash,
  CompactLeafData, is_other,
}
use utreexo_core_rpc.Udata.{script_type_byte, is_empty}
use utreexo_core_rpc.Transaction.{max_script_bytes}
use utreexo_core_rpc.Transaction.Scan.{OutPoint}
use utreexo_core_rpc.Transaction.Scan.Encoding.{TxIn, sized, length-sized, prevouts}
use utreexo_core_rpc.Transaction.Scan.Reads.{at_offset, advance-append}
use utreexo_core_rpc.Transaction.Prepared.{leaf_bytes, flagged}
use utreexo_core_rpc.Transaction.Prepared.Indices.{set_indices, flags}
use utreexo_core_rpc.Transaction.Prepared.Written.{leaf_part, leaf_parts, HasRoom, flagged-eq}
use utreexo_core_rpc.Transaction.Prepared.State.{FitsMessage, count_some}
use utreexo_core_rpc.Transaction.Decode.{
  script_type_of, read_other_script, read_script, read_leaf, is_confirmed, count_confirmed,
  read_input_leaf, read_leaves,
}
use utreexo_core_rpc.Transaction.Decode.Proofs.{passes}

script_type_of-byte : (t : ScriptPubkeyType) → script_type_of (script_type_byte t) ≡ some t
unfolding script_type_of script_type_byte
script_type_of-byte other = refl
script_type_of-byte pubkey_hash = refl
script_type_of-byte witness_v0_pubkey_hash = refl
script_type_of-byte script_hash = refl
script_type_of-byte witness_v0_script_hash = refl

byte-is_other : (t : ScriptPubkeyType) → (script_type_byte t == 0) ≡ is_other t
unfolding script_type_byte
byte-is_other other = refl
byte-is_other pubkey_hash = refl
byte-is_other witness_v0_pubkey_hash = refl
byte-is_other script_hash = refl
byte-is_other witness_v0_script_hash = refl

byte-small : (t : ScriptPubkeyType) → script_type_byte t < 256
unfolding script_type_byte
byte-small other = omega arith
byte-small pubkey_hash = omega arith
byte-small witness_v0_pubkey_hash = omega arith
byte-small script_hash = omega arith
byte-small witness_v0_script_hash = omega arith

empty-eq : (s : Bytes) → is_empty s ≡ true → s ≡ []
empty-eq [] h = refl
empty-eq (b ∷ bs) h = cc

leaf_bytes-accepts :
    (leaf : CompactLeafData) → FitsMessage (some leaf) → (size : ℕ) × (leaf_bytes leaf ≡ ok size)
unfolding leaf_bytes
leaf_bytes-accepts leaf (code, amount, plain, short) =
    let bounds : (ltb (2 ^ 31 - 1) leaf.header_code || ltb (2 ^ 63 - 1) leaf.amount) ≡ false =
      within leaf.header_code leaf.amount code amount in
    elim (Bool-cases (is_other leaf.script_type)) [
      | inl y ↦
          let fits : ltb max_script_bytes (length leaf.script) ≡ false =
            below max_script_bytes (length leaf.script) short in
          (
            13 + compact_size_bytes (length leaf.script) + length leaf.script,
            rw (bounds, y, fits) refl,
          )
      | inr n ↦
          let none_there : is_empty leaf.script ≡ true = rw n at plain in
          (13, rw (bounds, n, none_there) refl)
    ]
  where
    within :
        (c a : ℕ) → c < 2 ^ 31 → a < 2 ^ 63 → (ltb (2 ^ 31 - 1) c || ltb (2 ^ 63 - 1) a) ≡ false
    within c a h k = ground arith

    below : (a b : ℕ) → b ≤ a → ltb a b ≡ false
    below a b h = ground arith

-- The bytes of a leaf's script.
abbrev script_bytes : CompactLeafData → Bytes
script_bytes leaf = if is_other leaf.script_type then sized leaf.script else []

read_other_script-reads :
    (script : Bytes) (r : Reader) (tail : Bytes)
    → length script ≤ max_script_bytes
    → rest r ≡ sized script ++ tail
    → read_other_script r ≡ ok (script, advance (length (sized script)) r)
unfolding read_other_script
read_other_script-reads script r tail short h =
    let n = length script in
    let (a, behind) =
      read_compact_size-next n r (script ++ tail) (h ∙ append_assoc (compact_size n) script tail)
        (omega arith) in
    let r₁ = advance (compact_size_bytes n) r in
    let b =
      passes n max_script_bytes (remaining r₁) short
        (omega (arith, remaining-rest r₁, ap (λ x. length x) behind, length-append script tail)) in
    let (c, _) = skip-next r₁ script tail behind in
    let d : take n (rest r₁) ≡ script = ap (take n) behind ∙ take-length_append script tail in
    let moved : ◌≡◌ {A = Reader} (advance n r₁) (advance (length (sized script)) r) =
      at_offset r (r.offset + compact_size_bytes n + n) (r.offset + length (sized script))
        (omega (arith, length-sized script)) in
    rw (a, b, c, d) (ap (λ x. ok (script, x)) moved)

read_script-reads :
    (leaf : CompactLeafData) (r : Reader) (tail : Bytes)
    → FitsMessage (some leaf)
    → rest r ≡ script_bytes leaf ++ tail
    → read_script (script_type_byte leaf.script_type) r
      ≡ ok (leaf.script, advance (length (script_bytes leaf)) r)
unfolding read_script
read_script-reads leaf r tail (code, amount, plain, short) h =
    elim (Bool-cases (is_other leaf.script_type)) [
      | inl y ↦
          rw (byte-is_other leaf.script_type, y)
            (read_other_script-reads leaf.script r tail short (rw y at h))
      | inr n ↦
          let none_there : is_empty leaf.script ≡ true = rw n at plain in
          rw (byte-is_other leaf.script_type, n, empty-eq leaf.script none_there)
            (ap (λ x. ok ([], x)) (at_offset r r.offset (r.offset + 0) (omega arith)))
    ]

read_leaf-reads :
    (leaf : CompactLeafData) (r : Reader) (tail : Bytes)
    → FitsMessage (some leaf)
    → rest r ≡ leaf_part leaf ++ tail
    → read_leaf r ≡ ok (leaf, advance (length (leaf_part leaf)) r)
unfolding read_leaf little_endian
read_leaf-reads leaf r tail fits h =
    let (code, amount, _, _) = fits in
    let byte = script_type_byte leaf.script_type in
    let script = script_bytes leaf in
    let header = little_endian 4 leaf.header_code in
    let value = little_endian 8 leaf.amount in
    let (a, behind) =
      read_le-next 4 leaf.header_code r (value ++ (byte ∷ (script ++ tail)))
        (h
          ∙ append_assoc header (value ++ (byte ∷ script)) tail
          ∙ ap (λ xs. header ++ xs) (append_assoc value (byte ∷ script) tail))
        (omega arith) in
    let r₁ = advance 4 r in
    let (b, behind₁) =
      read_le-next 8 leaf.amount r₁ (byte ∷ (script ++ tail)) behind (omega arith) in
    let r₂ = advance 8 r₁ in
    let kept : byte % 256 ≡ byte = omega (arith, byte-small leaf.script_type) in
    let (c, behind₂) =
      read_le-next 1 byte r₂ (script ++ tail) (rw kept behind₁) (byte-small leaf.script_type) in
    let r₃ = advance 1 r₂ in
    let d = read_script-reads leaf r₃ tail fits behind₂ in
    let (size, e) = leaf_bytes-accepts leaf fits in
    let ending : ◌≡◌ {A = Reader} (advance (length script) r₃)
        (advance (length (leaf_part leaf)) r) =
      at_offset r (r.offset + 4 + 8 + 1 + length script) (r.offset + length (leaf_part leaf)) (
        omega (
          arith,
          length-append header (value ++ (byte ∷ script)),
          length-append value (byte ∷ script),
          length-little_endian 4 leaf.header_code,
          length-little_endian 8 leaf.amount,
        )) in
    rw (a, b, c, d, script_type_of-byte leaf.script_type, e) (ap (λ x. ok (leaf, x)) ending)

-- The flag in an output number says whether the input is confirmed.
abbrev has_leaf : Option CompactLeafData → Bool
has_leaf none = false
has_leaf (some leaf) = true

flagged-is_confirmed :
    (txid : Bytes) (input : OutPoint) (leaf : Option CompactLeafData)
    → input.index < 2 ^ 31
    → is_confirmed (record { txid = txid; index = flagged input leaf }) ≡ has_leaf leaf
unfolding is_confirmed
flagged-is_confirmed txid input none h = rw (bit_and-one, flagged-eq input none h) (odd input.index)
  where
    odd : (n : ℕ) → ((n * 2 + 1) % 2 == 0) ≡ false
    odd n = ground arith
flagged-is_confirmed txid input (some leaf) h =
    rw (bit_and-one, flagged-eq input (some leaf) h) (even input.index)
  where
    even : (n : ℕ) → ((n * 2 + 0) % 2 == 0) ≡ true
    even n = ground arith

pub count_confirmed-flags :
    (inputs : List TxIn) (leaves : List (Option CompactLeafData))
    → length inputs ≡ length leaves
    → All HasRoom inputs
    → count_confirmed (prevouts (set_indices inputs (flags inputs leaves))) ≡ count_some leaves
unfolding count_confirmed
count_confirmed-flags [] [] n room = refl
count_confirmed-flags [] (leaf ∷ leaves) n room = absurd (omega arith)
count_confirmed-flags (input ∷ inputs) [] n room = absurd (omega arith)
count_confirmed-flags (input ∷ inputs) (none ∷ leaves) n (h, all) =
    rw (flagged-is_confirmed input.prevout.txid input.prevout none h)
      (count_confirmed-flags inputs leaves (omega arith) all)
count_confirmed-flags (input ∷ inputs) (some leaf ∷ leaves) n (h, all) =
    rw (flagged-is_confirmed input.prevout.txid input.prevout (some leaf) h)
      (ap suc (count_confirmed-flags inputs leaves (omega arith) all))

pub read_leaves-reads :
    (inputs : List TxIn) (leaves : List (Option CompactLeafData)) (r : Reader) (tail : Bytes)
    → rest r ≡ leaf_parts leaves ++ tail
    → length inputs ≡ length leaves
    → All HasRoom inputs
    → All FitsMessage leaves
    → read_leaves (prevouts (set_indices inputs (flags inputs leaves))) r
      ≡ ok (leaves, advance (length (leaf_parts leaves)) r)
unfolding read_leaves read_input_leaf
read_leaves-reads [] [] r tail h n room fits =
    ap (λ r'. ok ([], r')) (at_offset r r.offset (r.offset + 0) (omega arith))
read_leaves-reads [] (leaf ∷ leaves) r tail h n room fits = absurd (omega arith)
read_leaves-reads (input ∷ inputs) [] r tail h n room fits = absurd (omega arith)
read_leaves-reads (input ∷ inputs) (none ∷ leaves) r tail h n (place, room) (fit, fits) =
    rw
      (
        flagged-is_confirmed input.prevout.txid input.prevout none place,
        read_leaves-reads inputs leaves r tail h (omega arith) room fits,
      )
      refl
read_leaves-reads (input ∷ inputs) (some leaf ∷ leaves) r tail h n (place, room) (fit, fits) =
    let later = leaf_parts leaves ++ tail in
    let split : rest r ≡ leaf_part leaf ++ later = h ∙ append_assoc (leaf_part leaf) _ tail in
    let r₁ = advance (length (leaf_part leaf)) r in
    let loop =
      read_leaves-reads inputs leaves r₁ tail (rest-advance r (leaf_part leaf) later split)
        (omega arith) room fits in
    rw
      (
        flagged-is_confirmed input.prevout.txid input.prevout (some leaf) place,
        read_leaf-reads leaf r later fit split,
        loop,
      )
      (ap (λ x. ok (some leaf ∷ leaves, x)) (advance-append r (leaf_part leaf) (leaf_parts leaves)))
