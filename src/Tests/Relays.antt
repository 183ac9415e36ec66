-- ===== src/Tests/Relays.antt =====
-- A node with two transactions in its mempool, each with one unconfirmed input. The cache is the list
-- of what was published.
use utreexo_core_rpc.Common.{
  ℕ, zero, suc, ◌*◌, ◌/◌, ◌≤◌, ◌≡◌, refl, arith, Bool, true, false, ◌||◌, none, some, List, [], ◌∷◌,
}
use utreexo_core_rpc.Tests.{copies}
use utreexo_core_rpc.Result.{Result, ok, err}
use utreexo_core_rpc.Wire.Bytes.{Bytes, AllBytes}
use utreexo_core_rpc.Hex.{hex_digit, to_bitcoin_hex, from_bitcoin_hex, decode_hex, decode_pairs}
use utreexo_core_rpc.Hex.RoundTrip.{
  IsDecoded, from_bitcoin_hex-to_bitcoin_hex, decode_hex-IsDecoded,
}
use utreexo_core_rpc.Amount.{
  parse_bitcoin_amount, whole_part, fraction_part, has_notation, digits_value, from_chars,
  fraction_value, scale,
}
use utreexo_core_rpc.Amount.Exact.{IsAmount, parse_bitcoin_amount-IsAmount}
use utreexo_core_rpc.Transaction.Scan.{Transaction}
use utreexo_core_rpc.Transaction.Prepared.{PreparedTransactionProof, same_bytes}
use utreexo_core_rpc.Relay.Services.{Point, Param, Parts, TransactionRelay}
use utreexo_core_rpc.Relay.Poll.{poll}
use utreexo_core_rpc.Relay.Inventory.{read_inventory}
use utreexo_core_rpc.Relay.Withdrawal.{IsForgetful, Polled, poll-Polled}
use utreexo_core_rpc.Relay.Noted.{IsStable}
use utreexo_core_rpc.Relay.Recovery.{inventory_text, Inventoried, read_inventory-Scanned}

small_bytes : (n b : ℕ) → ◌≡◌ {A = ℕ} (b / 256) 0 → AllBytes (copies n b)
small_bytes zero b h = tt
small_bytes (suc n) b h = (omega arith, small_bytes n b h)

from_bitcoin_hex-to_bitcoin_hex_example :
    from_bitcoin_hex (to_bitcoin_hex (copies 32 171)) ≡ ok (copies 32 171)
from_bitcoin_hex-to_bitcoin_hex_example =
    from_bitcoin_hex-to_bitcoin_hex (copies 32 171) refl (small_bytes 32 171 (omega arith))

-- "aB10"
decoded : decode_hex (97 ∷ 66 ∷ 49 ∷ 48 ∷ []) 2 ≡ ok (171 ∷ 16 ∷ [])
unfolding decode_hex decode_pairs hex_digit
decoded = refl

decode_hex-IsDecoded_example :
    IsDecoded (97 ∷ 66 ∷ 49 ∷ 48 ∷ []) (171 ∷ 16 ∷ []) × (4 ≡ 2 * 2) × (2 ≤ 2)
decode_hex-IsDecoded_example =
    decode_hex-IsDecoded (97 ∷ 66 ∷ 49 ∷ 48 ∷ []) 2 (171 ∷ 16 ∷ []) decoded

-- "12.5"
amount : parse_bitcoin_amount true (49 ∷ 50 ∷ 46 ∷ 53 ∷ []) ≡ ok 1250000000
unfolding parse_bitcoin_amount whole_part fraction_part has_notation digits_value from_chars
    fraction_value scale
amount = refl

parse_bitcoin_amount-IsAmount_example : IsAmount (49 ∷ 50 ∷ 46 ∷ 53 ∷ []) 1250000000
parse_bitcoin_amount-IsAmount_example =
    parse_bitcoin_amount-IsAmount true (49 ∷ 50 ∷ 46 ∷ 53 ∷ []) 1250000000 amount

abbrev tip : Point
tip = record { height = 9; block_hash = copies 32 7 }

abbrev tx : Transaction
tx = record {
  bytes = copies 60 1;
  inputs = record { txid = copies 32 3; index = 0 } ∷ [];
  vout_offsets = 37 ∷ [];
  txid = copies 32 1;
  wtxid = copies 32 2;
  has_witness = false;
}

-- JSON is nothing, or a text that every key of it names again.
data Json : Type 0 where
  nothing : Json
  texts : List ℕ → Json

abbrev is_there : Json → Bool
is_there nothing = false
is_there (texts t) = true

abbrev is_nothing : Json → Bool
is_nothing nothing = true
is_nothing (texts t) = false

abbrev text_in : Json → Result (List ℕ)
text_in nothing = err "not a text"
text_in (texts t) = ok t

-- The tip where nothing is asked for, the id of `tx` with its witness for one parameter, no output else.
abbrev reply : List Param → Json
reply [] = texts (to_bitcoin_hex (copies 32 7))
reply (p ∷ []) = texts (to_bitcoin_hex (copies 32 2))
reply (p ∷ q ∷ ps) = nothing

abbrev holds : Bytes → List PreparedTransactionProof → Bool
holds txid [] = false
holds txid (p ∷ ps) = same_bytes p.transaction.txid txid || holds txid ps

abbrev node : Parts
node = record {
  Json = Json;
  World = List PreparedTransactionProof;
  is_str = is_there;
  is_num = λ j. false;
  is_null = is_nothing;
  is_object = λ j. false;
  value_at = λ j key. j;
  get_str = text_in;
  get_uint = λ j. err "not a number";
  get_int = λ j. err "not a number";
  get_bool = λ j. err "not a truth value";
  val_str = λ j. [];
  read = λ t. none;
  call = λ method params w. (ok (reply params), w);
  call_raw = λ method w. (ok (inventory_text (copies 32 1 ∷ copies 32 4 ∷ [])), w);
  current_point = λ w. some tip;
  chain_hashes = λ w. copies 32 7 ∷ [];
  prove = λ hashes w. ok (record { targets = []; hashes = [] });
  roots = λ w. some (copies 32 9) ∷ [];
  num_leaves = λ w. 4;
  verify_proof = λ proof hashes roots n. ok true;
  stats_epoch = λ w. 0;
  activate = λ point w. w;
  find = λ txid w. (holds txid w, w);
  find_matching = λ request w. (false, w);
  publish = λ point prepared w. (ok true, prepared ∷ w);
  take_regeneration = λ w. (none, w);
  complete_regeneration = λ request w. (false, w);
  txids = λ w. [];
  erase = λ txid w. w;
  invalidate = λ w. [];
  sha256 = λ bytes. bytes;
  sha512_256 = λ bytes. bytes;
  utreexo_tag = [];
  request_txid = λ request. [];
  now = λ w. (0, w);
}

abbrev started : TransactionRelay node
started = record {
  config = record { batch_size = 64; recovery_interval = 5 };
  world = [];
  scan_cursor = 0;
  epoch = 0;
  next_recovery = 5;
}

forgetful : IsForgetful node
forgetful = record { forgets = λ w txid. refl }

poll-Polled_example : let q = poll node (tx ∷ []) started in Polled node started q.0 q.1
poll-Polled_example = poll-Polled node forgetful (tx ∷ []) started

abbrev preparation : PreparedTransactionProof
preparation = record {
  transaction = tx;
  proof = record { targets = []; hashes = [] };
  input_leaves = none ∷ [];
  proof_positions = [];
  base_payload_bytes = 61;
}

abbrev finished : TransactionRelay node
finished = record started { world = preparation ∷ [] }

abbrev held : Bytes → Bool
held txid = holds txid (preparation ∷ [])

-- The world in which one proof is published.
abbrev Unchanged : List PreparedTransactionProof → Type 0
Unchanged w = w ≡ preparation ∷ []

stable : IsStable node held Unchanged
stable = record { answer = λ w txid same. rw same refl; kept = λ w txid same. same }

abbrev ids : List Bytes
ids = copies 32 1 ∷ copies 32 4 ∷ []

read_inventory-Scanned_example :
    Inventoried node held Unchanged stable 0 64 ids (copies 32 5 ∷ []) (
      read_inventory node 0
        (inventory_text ids)
        (record { missing = copies 32 5 ∷ []; candidates = []; count = 0; next_cursor = 0 })
        finished)
read_inventory-Scanned_example =
    read_inventory-Scanned node held Unchanged stable 0 64 ids (copies 32 5 ∷ []) finished
      ((refl, small_bytes 32 1 (omega arith)), ((refl, small_bytes 32 4 (omega arith)), tt)) refl
      refl
