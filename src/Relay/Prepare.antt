-- ===== src/Relay/Prepare.antt =====
-- `CheckTip`, `Prepare` and `PrepareById` of src/transaction_relay.cpp.
use Prim.Native.String.{slice, len, find}
use utreexo_core_rpc.Common.{
  String, ℕ, ◌+◌, ◌-◌, ◌%◌, ◌^◌, Bool, true, false, ◌||◌, ◌&&◌, not, Option, none, some, List, [],
  ◌∷◌, if◌then◌else◌, ◌==◌, ltb, leb, length, get_or,
}
use utreexo_core_rpc.Result.{Result, ok, err, thrown}
use utreexo_core_rpc.Wire.Bytes.{Bytes}
use utreexo_core_rpc.Leaf.{LeafData, CompactLeafData, compact_leaf, serialize_leaf}
use utreexo_core_rpc.Udata.{Proof}
use utreexo_core_rpc.Amount.{parse_bitcoin_amount}
use utreexo_core_rpc.Hex.{to_bitcoin_hex, decode_hex}
use utreexo_core_rpc.Transaction.{max_tx_payload}
use utreexo_core_rpc.Transaction.Scan.{OutPoint, Transaction, parse_transaction}
use utreexo_core_rpc.Transaction.Prepared.{PreparedTransactionProof, same_bytes, create}
use utreexo_core_rpc.Relay.Run.{pure, lift, ◌>>=◌, ◌>>◌, refuse}
use utreexo_core_rpc.Relay.Services.{
  Point, Param, text, number, flag, Parts, TransactionRelay, Relaying, outside, reading, rpc,
}

abbrev pub core_error : String
core_error = "Bitcoin Core RPC error:"

-- Text, as the library's strings.
abbrev pub prefixed : String → Result Proof → Result Proof
prefixed heading (ok proof) = ok proof
prefixed heading (err message) = err (Prim.Native.String.◌++◌ heading message)
prefixed heading (thrown what) = thrown what

abbrev pub is_verified : Result Bool → Result Bool
is_verified (ok verified) = ok verified
is_verified (err message) = ok false
is_verified (thrown what) = thrown what

abbrev pub present_roots : List (Option Bytes) → List Bytes
present_roots [] = []
present_roots (none ∷ roots) = present_roots roots
present_roots (some root ∷ roots) = root ∷ present_roots roots

abbrev pub txid_params : Bytes → List Param
txid_params txid = text (to_bitcoin_hex txid) ∷ []

-- What the leaf of an input is found to be; an input may be of a transaction that is gone.
pub data Input : Type 0 where
  gone : Input
  unconfirmed : Input
  confirmed : Bytes → CompactLeafData → Input

module _ (parts : Parts) where
  open parts use {Json, World}

  unfoldable pub missing_transaction : String → Result Bool
  missing_transaction error =
      if not (find error core_error == 0)
      then ok false
      else elim (parts.read (slice error (len core_error) (len error))) [
        | none ↦ ok false
        | some value ↦
            if not (parts.is_object value) || not (parts.is_num (parts.value_at value "code"))
            then ok false
            else elim (parts.get_int (parts.value_at value "code")) [
              | ok (negative, size) ↦ ok (negative && (size == 5))
              | err message ↦ err message
              | thrown what ↦ thrown what
            ]
      ]

  -- A remote call, where a transaction that Core does not have is no error.
  abbrev pub unless_missing :
      Result Bool → String → TransactionRelay parts → Result (Option Json) × TransactionRelay parts
  unless_missing (ok true) message r = (ok none, r)
  unless_missing (ok false) message r = (err message, r)
  unless_missing (err e) message r = (err e, r)
  unless_missing (thrown what) message r = (thrown what, r)

  abbrev pub entry_of :
      Result Json × TransactionRelay parts → Result (Option Json) × TransactionRelay parts
  entry_of (ok value, r) = (ok (some value), r)
  entry_of (err message, r) = unless_missing (missing_transaction message) message r
  entry_of (thrown what, r) = (thrown what, r)

  unfoldable pub rpc_or_missing : String → List Param → Relaying parts (Option Json)
  rpc_or_missing method params r = entry_of (rpc parts method params r)

  -- `value.isStr() && value.get_str() == expected`
  unfoldable pub is_text : Json → List ℕ → Result Bool
  is_text value expected =
      if parts.is_str value
      then elim (parts.get_str value) [
        | ok actual ↦ ok (same_bytes actual expected)
        | err message ↦ err message
        | thrown what ↦ thrown what
      ]
      else ok false

  unfoldable pub check_tip : Point → Relaying parts (Unit {0})
  check_tip point = do
    tip ← rpc parts "getbestblockhash" []
    same ← lift (is_text tip (to_bitcoin_hex point.block_hash))
    refuse (not same) "Core tip differs from transaction proof accumulator"

  -- The leaf of an output that `gettxout` has found.
  unfoldable pub confirmed_leaf : OutPoint → Json → Point → Relaying parts Input
  confirmed_leaf input value point = do
    refuse (not (parts.is_object value))
        "confirmed input metadata is anchored at a different Core tip"
    same ← lift (is_text (parts.value_at value "bestblock") (to_bitcoin_hex point.block_hash))
    refuse (not same) "confirmed input metadata is anchored at a different Core tip"
    confirmations ← lift (parts.get_uint (parts.value_at value "confirmations"))
    refuse ((confirmations == 0) || ltb (point.height + 1) confirmations)
        "invalid confirmed input height"
    let height = (point.height + 1 - confirmations) % 2 ^ 32
    chain ← reading parts parts.chain_hashes
    refuse (leb (length chain) height) "confirmed input block hash is unavailable"
    amount ← lift (
        parse_bitcoin_amount (parts.is_num (parts.value_at value "value"))
          (parts.val_str (parts.value_at value "value")))
    hex ← lift (parts.get_str (parts.value_at (parts.value_at value "scriptPubKey") "hex"))
    script ← lift (decode_hex hex 10000)
    coinbase ← lift (parts.get_bool (parts.value_at value "coinbase"))
    let leaf : LeafData = record {
      block_hash = get_or chain height [];
      txid = input.txid;
      index = input.index;
      block_height = height;
      coinbase = coinbase;
      value = amount;
      script_pubkey = script;
    }
    pure (confirmed (parts.sha512_256 (serialize_leaf parts.utreexo_tag leaf)) (compact_leaf leaf))

  abbrev pub found_parent : Option Json → Input
  found_parent none = gone
  found_parent (some entry) = unconfirmed

  -- One round of the loop of `Prepare` over the inputs.
  unfoldable pub look_up : OutPoint → Point → Relaying parts Input
  look_up input point = do
    output ←
        rpc parts "gettxout"
          (text (to_bitcoin_hex input.txid) ∷ number input.index ∷ flag false ∷ [])
    if parts.is_null output
        then (do
          entry ← rpc_or_missing "getmempoolentry" (txid_params input.txid)
          pure (found_parent entry))
        else confirmed_leaf input output point

  -- The rounds after an input; none of them where a transaction is gone.
  abbrev pub and_then :
      Input
      → Relaying parts (Option (List Bytes × List (Option CompactLeafData)))
      → Relaying parts (Option (List Bytes × List (Option CompactLeafData)))
  and_then gone rest = pure none
  and_then unconfirmed rest = do
    more ← rest
    pure (elim more [ none ↦ none | some (hashes, leaves) ↦ some (hashes, none ∷ leaves) ])
  and_then (confirmed hash leaf) rest = do
    more ← rest
    pure (elim more [
      | none ↦ none
      | some (hashes, leaves) ↦ some (hash ∷ hashes, some leaf ∷ leaves)
    ])

  unfoldable pub look_up_all :
      List OutPoint → Point → Relaying parts (Option (List Bytes × List (Option CompactLeafData)))
  look_up_all [] point = pure (some ([], []))
  look_up_all (input ∷ inputs) point = do
    first ← look_up input point
    and_then first (look_up_all inputs point)

  -- The proof of the confirmed inputs, verified against the roots of the forest.
  unfoldable pub prove_inputs : List Bytes → Relaying parts Proof
  prove_inputs hashes = do
    proved ← reading parts (parts.prove hashes)
    proof ← lift (prefixed "confirmed inputs not provable at Core tip: " proved)
    roots ← reading parts parts.roots
    num_leaves ← reading parts parts.num_leaves
    verified ← lift (is_verified (parts.verify_proof proof hashes (present_roots roots) num_leaves))
    refuse (not verified) "generated transaction proof did not verify"
    pure proof

  -- Whether the transaction is still the same.
  unfoldable pub publish_if : Bool → PreparedTransactionProof → Point → Relaying parts Bool
  publish_if true prepared point = outside parts (parts.publish point prepared)
  publish_if false prepared point = pure false

  -- The end of `Prepare`: the proof is published if Core still has the transaction, at the same tip.
  unfoldable pub publish_current : PreparedTransactionProof → Point → Relaying parts Bool
  publish_current prepared point = do
    check_tip point
    entry ← rpc_or_missing "getmempoolentry" (txid_params prepared.transaction.txid)
    elim entry [
      | none ↦ pure false
      | some member ↦ do
        wtxid ← lift (parts.get_str (parts.value_at member "wtxid"))
        publish_if (same_bytes wtxid (to_bitcoin_hex prepared.transaction.wtxid)) prepared point
    ]

  -- The middle of `Prepare`, once the inputs are looked up.
  unfoldable pub prepare_inputs :
      Transaction → Point → List Bytes → List (Option CompactLeafData) → Relaying parts Bool
  prepare_inputs tx point hashes leaves = do
    proof ← prove_inputs hashes
    num_leaves ← reading parts parts.num_leaves
    prepared ← lift (create tx proof leaves num_leaves)
    publish_current prepared point

  unfoldable pub prepare : Transaction → Point → Relaying parts Bool
  prepare tx point = do
    entry ← rpc_or_missing "getmempoolentry" (txid_params tx.txid)
    elim entry [
      | none ↦ pure false
      | some member ↦ do
        same ← lift (is_text (parts.value_at member "wtxid") (to_bitcoin_hex tx.wtxid))
        refuse (not same) "Core mempool witness identity differs from relayed transaction"
        found ← look_up_all tx.inputs point
        elim found [
          | none ↦ pure false
          | some (hashes, leaves) ↦ prepare_inputs tx point hashes leaves
        ]
    ]

  -- The transaction that Core gave for an id.
  abbrev pub check_parsed : Bytes → Result Transaction → Result Transaction
  check_parsed txid (ok tx) =
      if same_bytes tx.txid txid then ok tx else err "invalid Core recovery transaction"
  check_parsed txid (err message) = err "invalid Core recovery transaction"
  check_parsed txid (thrown what) = thrown what

  unfoldable pub prepare_by_id : Bytes → Point → Relaying parts Bool
  prepare_by_id txid point = do
    raw ← rpc_or_missing "getrawtransaction" (txid_params txid)
    elim raw [
      | none ↦ pure false
      | some value ↦ do
        hex ← lift (parts.get_str value)
        bytes ← lift (decode_hex hex max_tx_payload)
        tx ← lift (check_parsed txid (parse_transaction parts.sha256 bytes max_tx_payload))
        prepare tx point
    ]
