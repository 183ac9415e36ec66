-- ===== src/Wire/Reader/Next.antt =====
-- What the cursor reads where a number or a hash stands before it, and what is left then.
use utreexo_core_rpc.Common.{
  ℕ, ◌+◌, ◌*◌, ◌^◌, ◌<◌, ◌≡◌, refl, sym, ap, ◌∙◌, arith, some, ◌++◌, false, ltb, length,
  length-append, append_assoc, take, take-length_append,
}
use utreexo_core_rpc.Wire.Bytes.{
  Bytes, little_endian, length-little_endian, compact_size, compact_size_bytes, length-compact_size,
}
use utreexo_core_rpc.Wire.Reader.{
  Reader, advance, remaining, skip, read_le, read_hash, rest, read_compact_size,
}
use utreexo_core_rpc.Wire.CompactSize.{read_compact_size-reads}
use utreexo_core_rpc.Wire.Reader.Reads.{read_le-reads, rest-advance, remaining-rest}

pub read_le-next :
    (n v : ℕ) (r : Reader) (tail : Bytes)
    → rest r ≡ little_endian n v ++ tail
    → v < 2 ^ (8 * n)
    → (read_le n r ≡ some (v, advance n r)) × (rest (advance n r) ≡ tail)
read_le-next n v r tail h fits = (
  read_le-reads n v r tail h fits,
  ap (λ m. rest (advance m r)) (sym (length-little_endian n v))
      ∙ rest-advance r (little_endian n v) tail h,
)

pub skip-next :
    (r : Reader) (xs tail : Bytes)
    → rest r ≡ xs ++ tail
    → (skip (length xs) r ≡ some (advance (length xs) r)) × (rest (advance (length xs) r) ≡ tail)
unfolding skip
skip-next r xs tail h =
    let many : remaining r ≡ length xs + length tail =
      remaining-rest r ∙ ap length h ∙ length-append xs tail in
    let enough : ltb (remaining r) (length xs) ≡ false = ground arith in
    (rw enough refl, rest-advance r xs tail h)

pub read_hash-next :
    (r : Reader) (hash tail : Bytes)
    → rest r ≡ hash ++ tail
    → length hash ≡ 32
    → (read_hash r ≡ some (hash, advance 32 r)) × (rest (advance 32 r) ≡ tail)
unfolding read_hash
read_hash-next r hash tail h size =
    let (skips, behind) = skip-next r hash tail h in
    let many : remaining r ≡ length hash + length tail =
      remaining-rest r ∙ ap length h ∙ length-append hash tail in
    let enough : ltb (remaining r) 32 ≡ false = ground arith in
    let front : take 32 (rest r) ≡ hash =
      ap (λ xs. take 32 xs) h
      ∙ ap (λ n. take n (hash ++ tail)) (sym size)
      ∙ take-length_append hash tail in
    (rw (enough, front) refl, rw size at behind)

pub skip_size-next :
    (n : ℕ) (r : Reader) (xs tail : Bytes)
    → rest r ≡ xs ++ tail
    → length xs ≡ n
    → (skip n r ≡ some (advance n r)) × (rest (advance n r) ≡ tail)
skip_size-next n r xs tail h size =
    let (skips, behind) = skip-next r xs tail h in (rw size at skips, rw size at behind)

pub read_compact_size-next :
    (v : ℕ) (r : Reader) (tail : Bytes)
    → rest r ≡ compact_size v ++ tail
    → v < 2 ^ 64
    → (read_compact_size r ≡ some (v, advance (compact_size_bytes v) r))
      × (rest (advance (compact_size_bytes v) r) ≡ tail)
read_compact_size-next v r tail h fits = (
  read_compact_size-reads v r tail h fits,
  ap (λ m. rest (advance m r)) (sym (length-compact_size v))
      ∙ rest-advance r (compact_size v) tail h,
)

-- Bytes behind their number.
pub read_sized-next :
    (r : Reader) (xs tail : Bytes)
    → rest r ≡ (compact_size (length xs) ++ xs) ++ tail
    → length xs < 2 ^ 64
    → let r₁ = advance (compact_size_bytes (length xs)) r in
      (read_compact_size r ≡ some (length xs, r₁))
      × (skip (length xs) r₁ ≡ some (advance (length xs) r₁))
      × (rest (advance (length xs) r₁) ≡ tail)
read_sized-next r xs tail h fits =
    let (reads, behind) =
      read_compact_size-next (length xs) r (xs ++ tail)
        (h ∙ append_assoc (compact_size (length xs)) xs tail) fits in
    let (skips, behind') = skip-next (advance (compact_size_bytes (length xs)) r) xs tail behind in
    (reads, skips, behind')
