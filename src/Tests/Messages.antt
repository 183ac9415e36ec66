-- ===== src/Tests/Messages.antt =====
-- A transaction with a witness and two inputs, of which the first is confirmed, in a forest of four
-- leaves. The hash function leaves bytes as they are.
use utreexo_core_rpc.Common.{
  ◌+◌, ◌≤◌, ◌^◌, ◌≡◌, refl, arith, min, Option, none, some, List, [], ◌∷◌, length,
}
use utreexo_core_rpc.Tests.{copies}
use utreexo_core_rpc.Result.{ok}
use utreexo_core_rpc.Wire.Bytes.{Bytes, compact_size_bytes, compact_size, little_endian}
use utreexo_core_rpc.Position.{bit_width}
use utreexo_core_rpc.Position.Rows.{row_start}
use utreexo_core_rpc.Leaf.{other, CompactLeafData}
use utreexo_core_rpc.Udata.{Proof}
use utreexo_core_rpc.Transaction.{max_tx_payload, sort, unique_positions}
use utreexo_core_rpc.Transaction.Inventory.{
  TransactionProofRequest, msg_utreexo_tx, is_request_type,
}
use utreexo_core_rpc.Transaction.Scan.{parse_transaction}
use utreexo_core_rpc.Transaction.Scan.Encoding.{Tx, TxIn, encode, stripped, IsTransaction}
use utreexo_core_rpc.Transaction.Scan.Identity.{transaction_of, parse_transaction-encode}
use utreexo_core_rpc.Transaction.Positions.{
  wire_position, row_of, countl_one, rows_of, native_proof_positions, intervals, interval,
  sort_intervals, overlaps, merge_rows, merge_row, need_sibling,
}
use utreexo_core_rpc.Transaction.Positions as Wire
use utreexo_core_rpc.Transaction.Positions.Rows.{wire_position-row_start}
use utreexo_core_rpc.Transaction.Prepared.{
  PreparedTransactionProof, leaf_bytes, count_leaf, count_leaves, targets_bytes, create, measure,
  all_found, lower_bound, serialize,
}
use utreexo_core_rpc.Transaction.Prepared.Written.{message, requested}
use utreexo_core_rpc.Transaction.Prepared.State.{IsPrepared}
use utreexo_core_rpc.Transaction.Prepared.Message.{serialize-message}
use utreexo_core_rpc.Transaction.Prepared.Create.{IsPlaced, create-IsPrepared}
use utreexo_core_rpc.Transaction.Decode.{parse_utreexo_transaction}
use utreexo_core_rpc.Transaction.Decode.RoundTrip.{parse_utreexo_transaction-serialize}

abbrev same : Bytes → Bytes
same bytes = bytes

abbrev confirmed_input : TxIn
confirmed_input = record {
  prevout = record { txid = copies 32 1; index = 3 };
  script = [];
  sequence = copies 4 255;
}

abbrev fresh_input : TxIn
fresh_input = record {
  prevout = record { txid = copies 32 2; index = 0 };
  script = 81 ∷ [];
  sequence = copies 4 255;
}

abbrev tx : Tx
tx = record {
  version = 2 ∷ copies 3 0;
  inputs = confirmed_input ∷ fresh_input ∷ [];
  outputs = record { value = copies 8 1; script = 81 ∷ [] } ∷ [];
  stacks = ((7 ∷ 8 ∷ []) ∷ []) ∷ ([] ∷ []);
  lock_time = copies 4 0;
}

tx-IsTransaction : IsTransaction tx
tx-IsTransaction = record {
  version_size = refl;
  some_input = omega arith;
  input_bound = omega arith;
  inputs = (
    record {
      txid_size = refl;
      index_bound = omega arith;
      script_bound = omega arith;
      sequence_size = refl;
    },
    (
      record {
        txid_size = refl;
        index_bound = omega arith;
        script_bound = omega arith;
        sequence_size = refl;
      },
      tt,
    ),
  );
  some_output = omega arith;
  output_bound = omega arith;
  outputs = (record { value_size = refl; script_bound = omega arith }, tt);
  stacks = ((omega arith, (omega arith, tt)), ((omega arith, tt), tt));
  witness = (refl, refl);
  lock_time_size = refl;
}

tx_small : length (encode tx) ≤ min 1000 max_tx_payload
unfolding encode compact_size little_endian
tx_small = omega arith

parse_transaction-encode_example :
    parse_transaction same (encode tx) 1000 ≡ ok (transaction_of same tx)
parse_transaction-encode_example = parse_transaction-encode same tx 1000 tx-IsTransaction tx_small

wire_position-row_start_example : wire_position (row_start 3 1 + 1) 2 ≡ row_start 64 1 + 1
wire_position-row_start_example = wire_position-row_start 2 1 1 (omega arith) (omega arith)

abbrev leaf : CompactLeafData
leaf = record { header_code = 9; amount = 50; script_type = other; script = 81 ∷ 82 ∷ [] }

abbrev leaves : List (Option CompactLeafData)
leaves = some leaf ∷ none ∷ []

-- The proof of the leaf at position 1: its sibling, and the sibling of its parent.
abbrev proof : Proof
proof = record { targets = 1 ∷ []; hashes = copies 32 10 ∷ copies 32 15 ∷ [] }

abbrev preparation : PreparedTransactionProof
preparation = record {
  transaction = transaction_of same tx;
  proof = proof;
  input_leaves = leaves;
  proof_positions = 0 ∷ (2 ^ 63 + 1) ∷ [];
  base_payload_bytes = 128;
}

created : create (transaction_of same tx) proof leaves 4 ≡ ok preparation
unfolding create count_leaves count_leaf leaf_bytes native_proof_positions rows_of bit_width
    intervals interval row_of countl_one Wire.row_start sort_intervals overlaps sort merge_rows
    merge_row need_sibling wire_position targets_bytes compact_size_bytes encode compact_size
    little_endian
created = refl

create-IsPrepared_example : IsPrepared same tx preparation × IsPlaced proof 4 preparation
create-IsPrepared_example =
    create-IsPrepared same tx proof leaves 4 preparation tx-IsTransaction (refl, (refl, tt)) created

preparation-IsPrepared : IsPrepared same tx preparation
preparation-IsPrepared =
    (create-IsPrepared same tx proof leaves 4 preparation tx-IsTransaction (refl, (refl, tt))
      created).0

-- A request for one of the two hashes.
abbrev request : TransactionProofRequest
request = record {
  txid = preparation.transaction.txid;
  inventory_type = msg_utreexo_tx;
  proof_positions = (2 ^ 63 + 1) ∷ [];
}

measured : measure request 1000 preparation ≡ ok 161
unfolding measure all_found lower_bound compact_size_bytes is_request_type unique_positions encode
    stripped compact_size little_endian
measured = refl

abbrev answer : Bytes
answer = message tx leaves (1 ∷ []) (requested preparation ((2 ^ 63 + 1) ∷ []))

serialize-message_example :
    (serialize request 1000 preparation ≡ ok answer)
    × (length answer ≡ 161)
    × (161 ≤ min 1000 max_tx_payload)
serialize-message_example =
    serialize-message same tx preparation request 1000 161 preparation-IsPrepared measured

answered : serialize request 1000 preparation ≡ ok answer
answered =
    (serialize-message same tx preparation request 1000 161 preparation-IsPrepared measured).0

parse_utreexo_transaction-serialize_example :
    parse_utreexo_transaction same answer 1000
    ≡ ok (record {
      transaction = transaction_of same tx;
      proof = record { targets = 1 ∷ []; hashes = copies 32 15 ∷ [] };
      input_leaves = leaves;
    })
unfolding lower_bound
parse_utreexo_transaction-serialize_example =
    parse_utreexo_transaction-serialize same tx preparation request 1000 answer
      preparation-IsPrepared answered
