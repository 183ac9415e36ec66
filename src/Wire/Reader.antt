-- ===== src/Wire/Reader.antt =====
-- `Reader` of src/transaction_wire.cpp: a cursor over a span of bytes. A read that fails is `none`:
-- every caller returns an error then, and the cursor is not used again.
pub mod Reads
pub mod Sound
pub mod Next
use utreexo_core_rpc.Common.{
  ℕ, zero, suc, ◌+◌, ◌-◌, ◌*◌, ◌%◌, ◌^◌, bit_or, Option, none, some, ltb, leb, ◌==◌, if◌then◌else◌,
  ◌>>=◌, length, get_or, drop, take,
}
use utreexo_core_rpc.Wire.Bytes.{Bytes}

pub record Reader : Type 0 where
  pub bytes : Bytes
  pub offset : ℕ

-- `Reader{bytes}`.
abbrev pub open_reader : Bytes → Reader
open_reader bytes = record { bytes = bytes; offset = 0 }

unfoldable pub remaining : Reader → ℕ
remaining r = length r.bytes - r.offset

abbrev pub advance : ℕ → Reader → Reader
advance n r = record r { offset = r.offset + n }

-- The loop of `LE`: round `i` of those that are left takes the byte at the cursor.
unfoldable pub le_loop : ℕ → ℕ → ℕ → Reader → ℕ × Reader
le_loop zero i result r = (result, r)
le_loop (suc n) i result r =
    le_loop n (i + 1) (bit_or result (get_or r.bytes r.offset 0 * 2 ^ (8 * i))) (advance 1 r)

-- `LE<T>` with `sizeof(T)` as `width`.
unfoldable pub read_le : ℕ → Reader → Option (ℕ × Reader)
unfolding remaining
read_le width r =
    if ltb (remaining r) width
    then none
    else (let (result, r') = le_loop width 0 0 r in some (result % 2 ^ (8 * width), r'))

-- `CompactSize`: the number that the first byte announces; an encoding that is longer than the
-- number needs is refused.
unfoldable pub read_announced : ℕ → Reader → Option (ℕ × Reader)
read_announced prefix r =
    if ltb prefix 253
    then some (prefix, r)
    else if prefix == 253
    then (do (number, r') ← read_le 2 r; if ltb number 253 then none else some (number, r'))
    else if prefix == 254
    then (do (number, r') ← read_le 4 r; if leb number 0xffff then none else some (number, r'))
    else (do (value, r') ← read_le 8 r; if ltb 0xffff_ffff value then some (value, r') else none)

unfoldable pub read_compact_size : Reader → Option (ℕ × Reader)
unfolding read_announced
read_compact_size r = do (prefix, r') ← read_le 1 r; read_announced prefix r'

unfoldable pub skip : ℕ → Reader → Option Reader
unfolding remaining
skip size r = if ltb (remaining r) size then none else some (advance size r)

-- `Hash`: 32 bytes.
unfoldable pub read_hash : Reader → Option (Bytes × Reader)
unfolding remaining skip
read_hash r =
    if ltb (remaining r) 32
    then none
    else (do r' ← skip 32 r; some (take 32 (drop r.offset r.bytes), r'))

-- The bytes that are still to be read.
abbrev pub rest : Reader → Bytes
rest r = drop r.offset r.bytes
