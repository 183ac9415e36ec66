-- ===== src/Tests/Encodings.antt =====
-- CompactSize at concrete numbers.
use utreexo_core_rpc.Common.{◌+◌, ◌^◌, ◌<◌, ◌≡◌, refl, arith, some, [], ◌∷◌, ◌++◌, length}
use utreexo_core_rpc.Wire.Bytes.{Bytes, append_compact_size, compact_size_bytes}
use utreexo_core_rpc.Wire.Reader.{
  Reader, open_reader, advance, read_compact_size, read_announced, read_le, le_loop, remaining,
  rest,
}
use utreexo_core_rpc.Wire.CompactSize.{read-append_compact_size, read_compact_size-canonical}

abbrev before : Bytes
before = 7 ∷ []

abbrev written : Bytes
written = append_compact_size 70000 before ++ 9 ∷ []

read-append_compact_size_example :
    read_compact_size (record { bytes = written; offset = length before })
    ≡ some (70000, record { bytes = written; offset = length before + compact_size_bytes 70000 })
read-append_compact_size_example = read-append_compact_size 70000 before (9 ∷ []) (omega arith)

abbrev message : Reader
message = open_reader (253 ∷ 44 ∷ 1 ∷ 8 ∷ [])

reads_300 : read_compact_size message ≡ some (300, advance 3 message)
unfolding read_compact_size read_announced read_le le_loop remaining
reads_300 = refl

read_compact_size-canonical_example :
    (rest message ≡ append_compact_size 300 [] ++ rest (advance 3 message)) × (300 < 2 ^ 64)
read_compact_size-canonical_example =
    read_compact_size-canonical message
      (omega arith, (omega arith, (omega arith, (omega arith, tt)))) reads_300
