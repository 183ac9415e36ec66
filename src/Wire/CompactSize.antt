-- ===== src/Wire/CompactSize.antt =====
-- CompactSize: what `AppendCompactSize` writes, `Reader::CompactSize` reads, and it reads no other
-- encoding of a number.
use utreexo_core_rpc.Common.{
  >>=-eq-some, lt→ltb, ℕ, ◌+◌, ◌*◌, ◌%◌, ◌^◌, ◌≤◌, ◌<◌, ◌≡◌, ◌∙◌, some, ◌⊎◌, inl, inr, [], ◌∷◌,
  ◌++◌, arith, length, append_assoc, drop-length_append,
}
use utreexo_core_rpc.Wire.Bytes.{
  Bytes, AllBytes, little_endian, compact_size, append_compact_size, compact_size_bytes,
  append_compact_size-eq,
}
use utreexo_core_rpc.Wire.Reader.{Reader, advance, read_le, read_compact_size, read_announced, rest}
use utreexo_core_rpc.Wire.Reader.Reads.{read_le-reads, rest-advance}
use utreexo_core_rpc.Wire.Reader.Sound.{read_le_sound}

read_byte :
    (m : ℕ) (r : Reader) (tail : Bytes)
    → rest r ≡ m ∷ tail
    → m < 256
    → (read_le 1 r ≡ some (m, advance 1 r)) × (rest (advance 1 r) ≡ tail)
unfolding little_endian
read_byte m r tail h fits =
    let e : m % 256 ≡ m = omega arith in
    (read_le-reads 1 m r tail (rw e h) fits, rest-advance r (m ∷ []) tail h)

-- A marker and the number that stands behind it.
read_marked :
    (n m v : ℕ) (r : Reader) (tail : Bytes)
    → rest r ≡ m ∷ little_endian n v ++ tail
    → m < 256
    → v < 2 ^ (8 * n)
    → (read_le 1 r ≡ some (m, advance 1 r))
      × (read_le n (advance 1 r) ≡ some (v, advance n (advance 1 r)))
read_marked n m v r tail h small fits =
    let (lead, behind) = read_byte m r (little_endian n v ++ tail) h small in
    (lead, read_le-reads n v (advance 1 r) tail behind fits)

advance_twice : (n k : ℕ) (r : Reader) → k ≡ n + 1 → advance n (advance 1 r) ≡ advance k r
advance_twice n k r e = ground arith

pub read_compact_size-reads :
    (v : ℕ) (r : Reader) (tail : Bytes)
    → rest r ≡ compact_size v ++ tail
    → v < 2 ^ 64
    → read_compact_size r ≡ some (v, advance (compact_size_bytes v) r)
unfolding compact_size compact_size_bytes read_compact_size
read_compact_size-reads v r tail h fits = ground (
  arith,
  read_byte v r tail,
  read_marked 2 253 v r tail,
  read_marked 4 254 v r tail,
  read_marked 8 255 v r tail,
  advance_twice 2 3 r,
  advance_twice 4 5 r,
  advance_twice 8 9 r,
)

-- Whatever was written before it and whatever follows, a number below 2 ^ 64 that
-- `AppendCompactSize` appends is read back by `CompactSize` from the place where it was appended,
-- and the cursor then stands `CompactSizeBytes` further, behind the encoding.
pub read-append_compact_size :
    (v : ℕ) (before tail : Bytes)
    → v < 2 ^ 64
    → let bytes = append_compact_size v before ++ tail in
      read_compact_size (record { bytes = bytes; offset = length before })
      ≡ some (v, record { bytes = bytes; offset = length before + compact_size_bytes v })
read-append_compact_size v before tail fits =
    read_compact_size-reads v _ tail
      (rw (append_compact_size-eq, append_assoc)
        (drop-length_append before (compact_size v ++ tail)))
      fits

marked_sound :
    (n m v : ℕ) (r : Reader) {r₁ r₂ : Reader}
    → AllBytes r.bytes
    → read_le 1 r ≡ some (m, r₁)
    → read_le n r₁ ≡ some (v, r₂)
    → (rest r ≡ m ∷ little_endian n v ++ rest r₂) × (m < 256) × (v < 2 ^ (8 * n))
unfolding little_endian
marked_sound n m v r {r₁} {r₂} ok first second =
    let (moved, front, small) = read_le_sound 1 r ok first in
    let ok' : AllBytes r₁.bytes = rw moved ok in
    let (_, back, fits) = read_le_sound n r₁ ok' second in
    let e : m % 256 ≡ m = omega arith in (front ∙ rw (e, back), small, fits)

abbrev Announced : ℕ → ℕ → Reader → Reader → Type 0
Announced m v r r' =
    ((m ≡ v) × (v < 253) × (r ≡ r'))
    ⊎ ((m ≡ 253) × (read_le 2 r ≡ some (v, r')) × (253 ≤ v))
    ⊎ ((m ≡ 254) × (read_le 4 r ≡ some (v, r')) × (0xffff < v))
    ⊎ ((254 < m) × (read_le 8 r ≡ some (v, r')) × (0xffff_ffff < v))

read_announced-cases :
    (m v : ℕ) (r r' : Reader) → read_announced m r ≡ some (v, r') → Announced m v r r'
unfolding read_announced
read_announced-cases m v r r' h = ground arith

canonical :
    (m v : ℕ) (r r₁ r' : Reader)
    → AllBytes r.bytes
    → read_le 1 r ≡ some (m, r₁)
    → Announced m v r₁ r'
    → (rest r ≡ compact_size v ++ rest r') × (v < 2 ^ 64)
unfolding compact_size little_endian
canonical m v r r₁ r' ok first (inl (e, small, same)) =
    let (_, front, _) = read_le_sound 1 r ok first in
    let d : m % 256 ≡ v = omega arith in
    (rw (← same, lt→ltb v 253 small) (front ∙ rw d), omega arith)
canonical m v r r₁ r' ok first (inr (inl (e, second, low))) =
    let (front, _, fits) = marked_sound 2 m v r ok first second in
    (front ∙ ground arith, omega arith)
canonical m v r r₁ r' ok first (inr (inr (inl (e, second, low)))) =
    let (front, _, fits) = marked_sound 4 m v r ok first second in
    (front ∙ ground arith, omega arith)
canonical m v r r₁ r' ok first (inr (inr (inr (e, second, low)))) =
    let (front, small, fits) = marked_sound 8 m v r ok first second in
    (front ∙ ground arith, omega arith)

-- `CompactSize` accepts no other encoding than the one that `AppendCompactSize` writes: if it reads
-- `v` from a span of bytes, then the bytes from the old cursor are the encoding of `v` and, behind
-- it, those from the new cursor, and `v` is below 2 ^ 64.
pub read_compact_size-canonical :
    (r : Reader) {v : ℕ} {r' : Reader}
    → AllBytes r.bytes
    → read_compact_size r ≡ some (v, r')
    → (rest r ≡ append_compact_size v [] ++ rest r') × (v < 2 ^ 64)
unfolding read_compact_size
read_compact_size-canonical r {v} {r'} ok h =
    let ((m, r₁), first, second) = >>=-eq-some (read_le 1 r) _ h in
    rw append_compact_size-eq
      (canonical m v r r₁ r' ok first (read_announced-cases m v r₁ r' second))
