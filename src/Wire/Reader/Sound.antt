-- ===== src/Wire/Reader/Sound.antt =====
-- What a read that succeeds tells of the bytes.
use utreexo_core_rpc.Common.{
  ℕ, zero, suc, ◌+◌, ◌*◌, ◌/◌, ◌%◌, ◌^◌, ◌≤◌, ◌<◌, ◌≡◌, refl, sym, ◌∙◌, some, [], ◌∷◌, ◌++◌, arith,
  length, drop, take, length-take, take-append-drop,
}
use utreexo_core_rpc.Wire.Bytes.{Bytes, AllBytes, little_endian}
use utreexo_core_rpc.Wire.Reader.{Reader, remaining, advance, read_le, rest}
use utreexo_core_rpc.Wire.Reader.Reads.{drop-add, two_pow-suc_byte, remaining-rest, read_le-reads}

-- A number that is written in digits below 256 is read from them.
from_bytes : Bytes → ℕ
from_bytes [] = 0
from_bytes (b ∷ bs) = b + 256 * from_bytes bs

little_endian-from_bytes :
    (bs : Bytes) → AllBytes bs → little_endian (length bs) (from_bytes bs) ≡ bs
unfolding little_endian from_bytes
little_endian-from_bytes [] h = refl
little_endian-from_bytes (b ∷ bs) h =
    let low : (b + 256 * from_bytes bs) % 256 ≡ b = omega arith in
    let high : (b + 256 * from_bytes bs) / 256 ≡ from_bytes bs = omega arith in
    rw (low, high, little_endian-from_bytes bs h.1)

from_bytes-lt : (bs : Bytes) → AllBytes bs → from_bytes bs < 2 ^ (8 * length bs)
unfolding from_bytes
from_bytes-lt [] h = omega arith
from_bytes-lt (b ∷ bs) h = omega (arith, from_bytes-lt bs h.1, two_pow-suc_byte (length bs))

AllBytes-drop : (n : ℕ) (bs : Bytes) → AllBytes bs → AllBytes (drop n bs)
AllBytes-drop zero bs h = h
AllBytes-drop (suc n) [] h = tt
AllBytes-drop (suc n) (b ∷ bs) h = AllBytes-drop n bs h.1

AllBytes-take : (n : ℕ) (bs : Bytes) → AllBytes bs → AllBytes (take n bs)
AllBytes-take zero bs h = tt
AllBytes-take (suc n) [] h = tt
AllBytes-take (suc n) (b ∷ bs) h = (h.0, AllBytes-take n bs h.1)

read_le-room :
    (width : ℕ) (r : Reader) {p : ℕ × Reader} → read_le width r ≡ some p → width ≤ remaining r
unfolding read_le
read_le-room width r h = ground arith

-- A read that succeeds has read a number of that width, and moves past its digits.
pub read_le_sound :
    (width : ℕ) (r : Reader) {v : ℕ} {r' : Reader}
    → AllBytes r.bytes
    → read_le width r ≡ some (v, r')
    → (r' ≡ advance width r) × (rest r ≡ little_endian width v ++ rest r') × (v < 2 ^ (8 * width))
read_le_sound width r {v} {r'} ok h =
    let bs = take width (rest r) in
    let tail = drop width (rest r) in
    let w = from_bytes bs in
    let ok' : AllBytes bs = AllBytes-take width (rest r) (AllBytes-drop r.offset r.bytes ok) in
    let size : length bs ≡ width =
      omega (arith, length-take width (rest r), remaining-rest r, read_le-room width r h) in
    let digits : little_endian width w ≡ bs = rw size at (little_endian-from_bytes bs ok') in
    let whole : rest r ≡ little_endian width w ++ tail =
      rw digits (sym (take-append-drop width (rest r))) in
    let fits : w < 2 ^ (8 * width) = rw size at (from_bytes-lt bs ok') in
    let same : some (v, r') ≡ some (w, advance width r) =
      sym h ∙ read_le-reads width w r tail whole fits in
    let e : v ≡ w = cc same in
    let moved : r' ≡ advance width r = cc same in
    (moved, rw (moved, e, drop-add r.offset width r.bytes) whole, rw e fits)
