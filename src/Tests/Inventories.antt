-- ===== src/Tests/Inventories.antt =====
-- A request for five proof positions, and an announcement between other inventory.
use utreexo_core_rpc.Common.{◌≡◌, refl, arith, [], ◌∷◌, All}
use utreexo_core_rpc.Tests.{copies}
use utreexo_core_rpc.Result.{ok, Answers}
use utreexo_core_rpc.Wire.Bytes.{Bytes, append_compact_size, compact_size_bytes}
use utreexo_core_rpc.Transaction.{unique_positions}
use utreexo_core_rpc.Transaction.Inventory.{
  announcements, requests, Group, msg_witness_utreexo_tx, parse_groups, serialize_groups,
  append_groups, count_vectors, all_unique, is_valid_type, is_request_type, positions,
  position_limit, type_of, txid_of,
}
use utreexo_core_rpc.Transaction.Inventory.RoundTrip.{HasSizes, parse_groups-serialize_groups}
use utreexo_core_rpc.Transaction.Inventory.Sound.{IsParsed, parse_groups-Answers}

abbrev request : Group requests
request = record {
  txid = copies 32 5;
  inventory_type = msg_witness_utreexo_tx;
  proof_positions = 9 ∷ 3 ∷ 700 ∷ 2 ∷ 8 ∷ [];
}

abbrev written : Bytes
written = append_groups requests (request ∷ []) (append_compact_size 3 [])

accepted : serialize_groups requests (request ∷ []) 1000 ≡ ok written
unfolding serialize_groups count_vectors all_unique is_valid_type positions position_limit
    compact_size_bytes unique_positions is_request_type
accepted = refl

request-HasSizes : HasSizes requests request
unfolding txid_of type_of positions
request-HasSizes = record {
  txid_size = refl;
  type_bound = omega arith;
  position_bounds = (omega arith, (omega arith, (omega arith, (omega arith, (omega arith, tt)))));
}

parse_groups-serialize_groups_example : parse_groups requests written 1000 ≡ ok (request ∷ [])
parse_groups-serialize_groups_example =
    parse_groups-serialize_groups requests (request ∷ []) 1000 written (request-HasSizes, tt)
      accepted

parse_groups-Answers_example :
    Answers (parse_groups announcements written 1000) (All (IsParsed announcements))
parse_groups-Answers_example = parse_groups-Answers announcements written 1000
