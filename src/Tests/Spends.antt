-- ===== src/Tests/Spends.antt =====
-- A node with a transaction in its mempool that spends a coin of the chain and an output of the mempool.
use Prim.Native.String.{find}
use utreexo_core_rpc.Common.{
  String, ℕ, zero, suc, ◌≡◌, refl, ap, subst, arith, Bool, true, false, none, some, List, [], ◌∷◌,
  if◌then◌else◌, ◌==◌, ltb,
}
use utreexo_core_rpc.Tests.{copies}
use utreexo_core_rpc.Result.{Result, ok, err, refuse-eq-ok}
use utreexo_core_rpc.Wire.Bytes.{Bytes, compact_size_bytes}
use utreexo_core_rpc.Position.{bit_width}
use utreexo_core_rpc.Hex.{hex_digit, to_bitcoin_hex, to_hex, decode_hex, decode_pairs}
use utreexo_core_rpc.Amount.{
  parse_bitcoin_amount, whole_part, fraction_part, has_notation, digits_value, from_chars,
  fraction_value, scale,
}
use utreexo_core_rpc.Leaf.{compact_leaf, classify, is_p2pkh, is_p2sh, is_witness_program}
use utreexo_core_rpc.Transaction.{sort}
use utreexo_core_rpc.Transaction.Scan.{Transaction, OutPoint}
use utreexo_core_rpc.Transaction.Positions.{
  rows_of, native_proof_positions, interval, intervals, sort_intervals, overlaps, merge_rows,
  merge_row, need_sibling, row_of, row_start, wire_position, countl_one,
}
use utreexo_core_rpc.Transaction.Prepared.{
  PreparedTransactionProof, count_leaf, count_leaves, leaf_bytes, targets_bytes, create,
}
use utreexo_core_rpc.Relay.Services.{Point, Param, number, Parts, TransactionRelay}
use utreexo_core_rpc.Relay.Prepare.{
  rpc_or_missing, is_text, check_tip, confirmed_leaf, look_up, look_up_all, prove_inputs,
  publish_if, publish_current, prepare_inputs, prepare,
}
use utreexo_core_rpc.Relay.Calls.{Coin, Reports, IsCore}
use utreexo_core_rpc.Relay.Published.{IsListed, IsPublished, prepare-IsPublished}

abbrev tip : Point
tip = record { height = 3; block_hash = copies 32 7 }

-- The first input spends a coin of the chain.
abbrev tx : Transaction
tx = record {
  bytes = copies 100 1;
  inputs = record { txid = copies 32 3; index = 0 } ∷ record { txid = copies 32 4; index = 1 } ∷ [];
  vout_offsets = 37 ∷ 78 ∷ [];
  txid = copies 32 1;
  wtxid = copies 32 2;
  has_witness = false;
}

data Json : Type 0 where
  nothing : Json
  texts : List ℕ → Json
  amount : List ℕ → Json
  count : ℕ → Json
  truth : Bool → Json
  script : Json
  output : Json
  entry : Json

abbrev is_nothing : Json → Bool
is_nothing nothing = true
is_nothing _ = false

abbrev is_texts : Json → Bool
is_texts (texts t) = true
is_texts _ = false

abbrev is_amount : Json → Bool
is_amount (amount t) = true
is_amount _ = false

abbrev is_output : Json → Bool
is_output output = true
is_output _ = false

abbrev characters : Json → List ℕ
characters (amount t) = t
characters (texts t) = t
characters _ = []

abbrev text_in : Json → Result (List ℕ)
text_in (texts t) = ok t
text_in _ = err "not a text"

abbrev count_in : Json → Result ℕ
count_in (count n) = ok n
count_in _ = err "not a number"

abbrev truth_in : Json → Result Bool
truth_in (truth b) = ok b
truth_in _ = err "not a truth value"

-- The members of the objects; the script is "51", and the amount "0.5".
abbrev member : Json → String → Json
member entry key = texts (to_bitcoin_hex (copies 32 2))
member script key = texts (53 ∷ 49 ∷ [])
member output key =
    if find key "bestblock" == 0
    then texts (to_bitcoin_hex (copies 32 7))
    else if find key "confirmations" == 0
    then count 2
    else if find key "value" == 0
    then amount (48 ∷ 46 ∷ 53 ∷ [])
    else if find key "coinbase" == 0
    then truth true
    else script
member _ key = nothing

abbrev output_at : ℕ → Json
output_at zero = output
output_at (suc n) = nothing

-- The tip where nothing is asked for, an entry of the mempool for one parameter, an output for more.
abbrev reply : List Param → Json
reply [] = texts (to_bitcoin_hex (copies 32 7))
reply (p ∷ []) = entry
reply (p ∷ (number n ∷ ps)) = output_at n
reply (p ∷ (q ∷ ps)) = nothing

abbrev chain : List Bytes
chain = copies 32 4 ∷ copies 32 5 ∷ copies 32 6 ∷ copies 32 7 ∷ []

abbrev node : Parts
node = record {
  Json = Json;
  World = List PreparedTransactionProof;
  is_str = is_texts;
  is_num = is_amount;
  is_null = is_nothing;
  is_object = is_output;
  value_at = member;
  get_str = text_in;
  get_uint = count_in;
  get_int = λ j. err "not a number";
  get_bool = truth_in;
  val_str = characters;
  read = λ t. none;
  call = λ method params w. (ok (reply params), w);
  call_raw = λ method w. (ok [], w);
  current_point = λ w. some tip;
  chain_hashes = λ w. chain;
  prove = λ hashes w. ok (record { targets = 0 ∷ []; hashes = [] });
  roots = λ w. some (copies 32 9) ∷ [];
  num_leaves = λ w. 1;
  verify_proof = λ proof hashes roots n. ok true;
  stats_epoch = λ w. 0;
  activate = λ point w. w;
  find = λ txid w. (false, w);
  find_matching = λ request w. (false, w);
  publish = λ point prepared w. (ok true, prepared ∷ w);
  take_regeneration = λ w. (none, w);
  complete_regeneration = λ request w. (false, w);
  txids = λ w. [];
  erase = λ txid w. w;
  invalidate = λ w. [];
  sha256 = λ bytes. bytes;
  sha512_256 = λ bytes. bytes;
  utreexo_tag = [];
  request_txid = λ request. [];
  now = λ w. (0, w);
}

abbrev started : TransactionRelay node
started = record {
  config = record { batch_size = 64; recovery_interval = 5 };
  world = [];
  scan_cursor = 0;
  epoch = 0;
  next_recovery = 5;
}

abbrev the_coin : Bytes → OutPoint → Coin
the_coin block_hash input = record {
  confirmations = 2;
  amount = 50000000;
  script = 0x51 ∷ [];
  coinbase = true;
}

published : (prepare node tx tip started).0 ≡ ok true
unfolding prepare rpc_or_missing is_text look_up_all look_up confirmed_leaf prepare_inputs
    prove_inputs publish_current publish_if check_tip create count_leaves count_leaf
    native_proof_positions interval intervals sort_intervals overlaps merge_rows merge_row
    need_sibling row_of row_start wire_position countl_one targets_bytes compact_size_bytes rows_of
    bit_width to_bitcoin_hex to_hex sort hex_digit decode_hex decode_pairs parse_bitcoin_amount
    whole_part fraction_part has_notation digits_value from_chars fraction_value scale leaf_bytes
    compact_leaf classify is_p2pkh is_p2sh is_witness_program
published = refl

abbrev ended : TransactionRelay node
ended = (prepare node tx tip started).1

there_is_output :
    (n : ℕ) (value : Json)
    → ◌≡◌ {A = Result Json} (ok (output_at n)) (ok value)
    → is_nothing value ≡ false
    → output ≡ value
there_is_output zero value e there = cc
there_is_output (suc n) value e there = absurd (nothing_there value e there)
  where
    nothing_there :
        (value : Json) → ◌≡◌ {A = Result Json} (ok nothing) (ok value) → ¬ is_nothing value ≡ false
    nothing_there value e there = cc

half : parse_bitcoin_amount true (48 ∷ 46 ∷ 53 ∷ []) ≡ ok 50000000
unfolding parse_bitcoin_amount whole_part fraction_part has_notation digits_value from_chars
    fraction_value scale
half = refl

script_bytes :
    (limit : ℕ) (bytes : Bytes) → decode_hex (53 ∷ 49 ∷ []) limit ≡ ok bytes → bytes ≡ 0x51 ∷ []
unfolding decode_hex decode_pairs hex_digit
script_bytes limit bytes e = let (_, e₁) = refuse-eq-ok (ltb limit 1) _ _ bytes e in cc

output-Reports :
    (block_hash : Bytes) (input : OutPoint) → Reports node output (the_coin block_hash input)
output-Reports block_hash input = record {
  confirmations = λ n e. same_count n e;
  amount = λ n e. same_amount n e;
  script = λ hex limit bytes e f.
      script_bytes limit bytes (subst (λ h. decode_hex h limit ≡ ok bytes) (same_hex hex e) f);
  coinbase = λ b e. same_truth b e;
}
  where
    same_count : (n : ℕ) → ◌≡◌ {A = Result ℕ} (ok 2) (ok n) → n ≡ 2
    same_count n e = cc

    same_amount : (n : ℕ) → parse_bitcoin_amount true (48 ∷ 46 ∷ 53 ∷ []) ≡ ok n → n ≡ 50000000
    same_amount n e = let h = half in cc

    same_hex :
        (hex : List ℕ) → ◌≡◌ {A = Result (List ℕ)} (ok (53 ∷ 49 ∷ [])) (ok hex) → hex ≡ 53 ∷ 49 ∷ []
    same_hex hex e = cc

    same_truth : (b : Bool) → ◌≡◌ {A = Result Bool} (ok true) (ok b) → b ≡ true
    same_truth b e = cc

core : IsCore node the_coin
core = record {
  reports = λ input w value block_hash replied there anchored.
      subst (λ v. Reports node v (the_coin block_hash input))
        (there_is_output input.index value replied there) (output-Reports block_hash input);
  same_chain = λ method params w. refl;
  same_roots = λ method params w. refl;
  same_num_leaves = λ method params w. refl;
}

prepare-IsPublished_example :
    IsListed node the_coin tx [] × IsPublished node the_coin tx tip [] ended.world
prepare-IsPublished_example =
    prepare-IsPublished node the_coin core tx tip started ended (omega arith)
      (ap (λ answer. (answer, ended)) published)
