-- ===== src/Transaction/Decode/Proofs.antt =====
-- The targets and hashes of a message, read back.
use utreexo_core_rpc.Common.{
  ℕ, ◌+◌, ◌*◌, ◌/◌, ◌≤◌, ◌≡◌, refl, sym, ap, ◌∙◌, arith, false, ◌||◌, ◌==◌, ltb, List, [], ◌∷◌,
  ◌++◌, All, length, length-append, append_assoc,
}
use utreexo_core_rpc.Result.{ok}
use utreexo_core_rpc.Wire.Bytes.{Bytes, compact_size, compact_size_bytes, length-compact_size}
use utreexo_core_rpc.Wire.Reader.{Reader, advance, remaining, rest}
use utreexo_core_rpc.Wire.Reader.Reads.{rest-advance, remaining-rest}
use utreexo_core_rpc.Wire.Reader.Next.{read_hash-next, read_compact_size-next}
use utreexo_core_rpc.Transaction.{padding, max_inputs, max_hashes}
use utreexo_core_rpc.Transaction.Inventory.Groups.{IsPosition}
use utreexo_core_rpc.Transaction.Scan.Encoding.{
  concat_map, compact_size_bytes-pos, length-concat_map,
}
use utreexo_core_rpc.Transaction.Scan.Reads.{at_offset, advance-append}
use utreexo_core_rpc.Transaction.Prepared.Written.{proof_part}
use utreexo_core_rpc.Transaction.Decode.{read_targets, read_hashes, read_proof}

read_targets-reads :
    (targets : List ℕ) (r : Reader) (tail : Bytes)
    → rest r ≡ concat_map compact_size targets ++ tail
    → All IsPosition targets
    → read_targets (length targets) r
      ≡ ok (targets, advance (length (concat_map compact_size targets)) r)
unfolding read_targets
read_targets-reads [] r tail h all =
    ap (λ r'. ok ([], r')) (at_offset r r.offset (r.offset + 0) (omega arith))
read_targets-reads (t ∷ ts) r tail h ((fits, differs), all) =
    let later = concat_map compact_size ts ++ tail in
    let (a, behind) =
      read_compact_size-next t r later (h ∙ append_assoc (compact_size t) _ tail) fits in
    let real : (t == padding) ≡ false = ground arith in
    let r₁ = advance (length (compact_size t)) r in
    let moved : ◌≡◌ {A = Reader} (advance (compact_size_bytes t) r) r₁ =
      at_offset r (r.offset + compact_size_bytes t) (r.offset + length (compact_size t))
        (omega (arith, length-compact_size t)) in
    let loop = read_targets-reads ts r₁ tail (ap (λ x. rest x) (sym moved) ∙ behind) all in
    rw (a, real, moved, loop)
      (ap (λ x. ok (t ∷ ts, x)) (advance-append r (compact_size t) (concat_map compact_size ts)))

read_hashes-reads :
    (hashes : List Bytes) (r : Reader) (tail : Bytes)
    → rest r ≡ concat_map (λ hash. hash) hashes ++ tail
    → All (λ hash. length hash ≡ 32) hashes
    → read_hashes (length hashes) r
      ≡ ok (hashes, advance (length (concat_map (λ hash. hash) hashes)) r)
unfolding read_hashes
read_hashes-reads [] r tail h all =
    ap (λ r'. ok ([], r')) (at_offset r r.offset (r.offset + 0) (omega arith))
read_hashes-reads (hash ∷ hashes) r tail h (size, all) =
    let later = concat_map (λ x. x) hashes ++ tail in
    let (a, behind) = read_hash-next r hash later (h ∙ append_assoc hash _ tail) size in
    let r₁ = advance (length hash) r in
    let moved : ◌≡◌ {A = Reader} (advance 32 r) r₁ =
      at_offset r (r.offset + 32) (r.offset + length hash) (omega arith) in
    let loop = read_hashes-reads hashes r₁ tail (ap (λ x. rest x) (sym moved) ∙ behind) all in
    rw (a, moved, loop)
      (ap (λ x. ok (hash ∷ hashes, x)) (advance-append r hash (concat_map (λ x. x) hashes)))

target-byte : (t : ℕ) → IsPosition t → 1 ≤ length (compact_size t)
target-byte t h = omega (arith, length-compact_size t, compact_size_bytes-pos t)

pub passes : (n limit left : ℕ) → n ≤ limit → n ≤ left → (ltb limit n || ltb left n) ≡ false
passes n limit left h k = ground arith

-- Behind the number of parts there are bytes enough for them.
enough :
    {A : Type 0} (f : A → Bytes) (P : A → Type 0) (n : ℕ)
    → ((x : A) → P x → n ≤ length (f x))
    → (xs : List A) (r : Reader) (tail : Bytes) → All P xs
    → rest r ≡ concat_map f xs ++ tail
    → length xs * n ≤ remaining r
enough f P n least xs r tail all h = omega (
  arith,
  remaining-rest r,
  ap (λ x. length x) h,
  length-append (concat_map f xs) tail,
  length-concat_map f P n least xs all,
)

pub read_proof-reads :
    (targets : List ℕ) (hashes : List Bytes) (r : Reader) (tail : Bytes)
    → rest r ≡ proof_part targets hashes ++ tail
    → length targets ≤ max_inputs
    → All IsPosition targets
    → length hashes ≤ max_hashes
    → All (λ hash. length hash ≡ 32) hashes
    → read_proof r
      ≡ ok (
        record { targets = targets; hashes = hashes },
        advance (length (proof_part targets hashes)) r,
      )
unfolding read_proof
read_proof-reads targets hashes r tail h few real few' sizes =
    let t = length targets in
    let n = length hashes in
    let hash_part = concat_map (λ hash. hash) hashes in
    let target_part = concat_map compact_size targets in
    let later = compact_size n ++ (hash_part ++ tail) in
    let (a, behind) =
      read_compact_size-next t r (target_part ++ later) (h ∙ simp append_assoc refl)
        (omega arith) in
    let r₁ = advance (compact_size_bytes t) r in
    let b =
      passes t max_inputs (remaining r₁) few (
        omega (arith, enough compact_size IsPosition 1 target-byte targets r₁ later real behind)) in
    let c = read_targets-reads targets r₁ later behind real in
    let r₂ = advance (length target_part) r₁ in
    let (d, behind₃) =
      read_compact_size-next n r₂ (hash_part ++ tail) (rest-advance r₁ target_part later behind)
        (omega arith) in
    let r₃ = advance (compact_size_bytes n) r₂ in
    let e = passes n max_hashes (remaining r₃ / 32) few' (
      omega (
        arith,
        enough (λ x. x) (λ hash. length hash ≡ 32) 32 (λ x k. omega arith) hashes r₃ tail sizes
            behind₃,
      )) in
    let f = read_hashes-reads hashes r₃ tail behind₃ sizes in
    let ending : ◌≡◌ {A = Reader} (advance (length hash_part) r₃)
        (advance (length (proof_part targets hashes)) r) =
      at_offset r
        (r.offset
          + compact_size_bytes t
          + length target_part
          + compact_size_bytes n
          + length hash_part)
        (r.offset + length (proof_part targets hashes))
        (omega (
          arith,
          length-append (compact_size t) (target_part ++ (compact_size n ++ hash_part)),
          length-append target_part (compact_size n ++ hash_part),
          length-append (compact_size n) hash_part,
          length-compact_size t,
          length-compact_size n,
        )) in
    rw (a, b, c, d, e, f) (ap (λ x. ok (record { targets = targets; hashes = hashes }, x)) ending)
