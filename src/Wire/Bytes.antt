-- ===== src/Wire/Bytes.antt =====
-- `AppendLE` and `AppendCompactSize` of src/bridge_wire.cpp. A byte is a number below 256, and a
-- vector of bytes a list.
use utreexo_core_rpc.Common.{
  ℕ, zero, suc, ◌/◌, ◌%◌, ◌^◌, ◌<◌, bit_and, ◌≡◌, refl, ap, List, [], ◌∷◌, ◌++◌, append_assoc,
  append-nil, arith, ltb, leb, if◌then◌else◌, length,
}
use utreexo_core_rpc.Common.Bits.{bit_and-mask}

abbrev pub Bytes : Type 0
Bytes = List ℕ

-- The loop of `AppendLE<T>`, with `sizeof(T)` rounds.
unfoldable pub append_le : ℕ → ℕ → Bytes → Bytes
append_le zero accumulator output = output
append_le (suc n) accumulator output =
    append_le n (accumulator / 2 ^ 8) (output ++ bit_and accumulator 0xff ∷ [])

unfoldable pub append_compact_size : ℕ → Bytes → Bytes
append_compact_size size output =
    if ltb size 253
    then output ++ size ∷ []
    else if leb size 0xffff
    then append_le 2 (size % 2 ^ 16) (output ++ 253 ∷ [])
    else if leb size 0xffff_ffff
    then append_le 4 (size % 2 ^ 32) (output ++ 254 ∷ [])
    else append_le 8 size (output ++ 255 ∷ [])

-- `CompactSizeBytes` of src/transaction_wire.cpp.
unfoldable pub compact_size_bytes : ℕ → ℕ
compact_size_bytes value =
    if ltb value 253
    then 1
    else if leb value 0xffff
    then 3
    else if leb value 0xffff_ffff
    then 5
    else 9

-- The encoding on its own: the digits of a number to the base 256, the lowest first.
unfoldable pub little_endian : ℕ → ℕ → Bytes
little_endian zero v = []
little_endian (suc n) v = v % 256 ∷ little_endian n (v / 256)

unfoldable pub compact_size : ℕ → Bytes
compact_size v =
    if ltb v 253
    then v ∷ []
    else if leb v 0xffff
    then 253 ∷ little_endian 2 v
    else if leb v 0xffff_ffff
    then 254 ∷ little_endian 4 v
    else 255 ∷ little_endian 8 v

abbrev pub AllBytes : Bytes → Type 0
AllBytes [] = Unit
AllBytes (b ∷ bs) = (b < 256) × AllBytes bs

pub append_le-eq : (n v : ℕ) (output : Bytes) → append_le n v output ≡ output ++ little_endian n v
unfolding append_le little_endian
append_le-eq zero v output = rw append-nil
append_le-eq (suc n) v output =
    rw (append_le-eq n (v / 2 ^ 8) (output ++ bit_and v 0xff ∷ []), append_assoc, bit_and-mask 8 v)

pub length-little_endian : (n v : ℕ) → length (little_endian n v) ≡ n
unfolding little_endian
length-little_endian zero v = refl
length-little_endian (suc n) v = ap suc (length-little_endian n (v / 256))

append_marked :
    (n marker v w : ℕ) (output : Bytes)
    → w ≡ v
    → append_le n w (output ++ marker ∷ []) ≡ output ++ marker ∷ little_endian n v
append_marked n marker v w output e = rw (append_le-eq n w, append_assoc, e)

pub append_compact_size-eq :
    (v : ℕ) (output : Bytes) → append_compact_size v output ≡ output ++ compact_size v
unfolding append_compact_size compact_size
append_compact_size-eq v output = ground (
  arith,
  append_marked 2 253 v (v % 2 ^ 16) output,
  append_marked 4 254 v (v % 2 ^ 32) output,
  append_marked 8 255 v v output,
)

pub length-compact_size : (v : ℕ) → length (compact_size v) ≡ compact_size_bytes v
unfolding compact_size compact_size_bytes
length-compact_size v =
    ground (arith, length-little_endian 2 v, length-little_endian 4 v, length-little_endian 8 v)
