-- ===== src/Leaf.antt =====
-- src/leaf.cpp: leaf hashes, compact leaves, and the scripts that a client rebuilds from them. The
-- functions `AppendLE` and `AppendCompactSize` of that file are those of src/bridge_wire.cpp. A
-- hash is the list of its bytes.
pub mod Rounds
pub mod Push
pub mod Scripts
pub mod Encoding
use utreexo_core_rpc.Common.{
  ℕ, zero, suc, ◌+◌, ◌-◌, ◌*◌, ◌/◌, ◌%◌, ◌^◌, bit_or, Bool, true, false, ◌&&◌, ◌||◌, Option, none,
  some, List, [], ◌∷◌, ◌++◌, if◌then◌else◌, ◌==◌, ltb, leb, length, get_or, take, drop,
}
use utreexo_core_rpc.Result.{Result, ok, err, ◌>>=◌}
use utreexo_core_rpc.Wire.Bytes.{Bytes, append_le, append_compact_size}

pub record LeafData : Type 0 where
  pub block_hash : Bytes
  -- `outpoint`
  pub txid : Bytes
  pub index : ℕ
  pub block_height : ℕ
  pub coinbase : Bool
  -- `output`
  pub value : ℕ
  pub script_pubkey : Bytes

pub data ScriptPubkeyType : Type 0 where
  other pubkey_hash witness_v0_pubkey_hash script_hash witness_v0_script_hash : ScriptPubkeyType

pub record CompactLeafData : Type 0 where
  pub header_code : ℕ
  pub amount : ℕ
  pub script_type : ScriptPubkeyType
  pub script : Bytes

pub record SpendingInput : Type 0 where
  pub script_sig : Bytes
  pub witness : List Bytes

-- `(leaf.block_height << 1) | (leaf.coinbase ? 1U : 0U)` in 32 bits
abbrev pub header_code_of : LeafData → ℕ
header_code_of leaf = bit_or (leaf.block_height * 2 % 2 ^ 32) (if leaf.coinbase then 1 else 0)

-- What `LeafHash` hashes, given `UTREEXO_TAG_V1`.
unfoldable pub serialize_leaf : Bytes → LeafData → Bytes
serialize_leaf tag leaf =
    let front = [] ++ tag ++ tag ++ leaf.block_hash ++ leaf.txid in
    let numbers =
      append_le 8 leaf.value (append_le 4 (header_code_of leaf) (append_le 4 leaf.index front)) in
    append_compact_size (length leaf.script_pubkey) numbers ++ leaf.script_pubkey

-- The tests of `CompactLeaf`.
unfoldable pub is_p2pkh : Bytes → Bool
is_p2pkh script =
    (length script == 25)
    && ((get_or script 0 0 == 0x76)
        && ((get_or script 1 0 == 0xa9)
            && ((get_or script 2 0 == 0x14)
                && ((get_or script 23 0 == 0x88) && (get_or script 24 0 == 0xac)))))

unfoldable pub is_p2sh : Bytes → Bool
is_p2sh script =
    (length script == 23)
    && ((get_or script 0 0 == 0xa9)
        && ((get_or script 1 0 == 0x14) && (get_or script 22 0 == 0x87)))

unfoldable pub is_witness_program : ℕ → Bytes → Bool
is_witness_program size script =
    (length script == size + 2) && ((get_or script 0 0 == 0) && (get_or script 1 0 == size))

unfoldable pub classify : Bytes → ScriptPubkeyType
classify script =
    if is_p2pkh script
    then pubkey_hash
    else if is_p2sh script
    then script_hash
    else if is_witness_program 20 script
    then witness_v0_pubkey_hash
    else if is_witness_program 32 script
    then witness_v0_script_hash
    else other

abbrev pub is_other : ScriptPubkeyType → Bool
is_other other = true
is_other _ = false

unfoldable pub compact_leaf : LeafData → CompactLeafData
compact_leaf leaf = record {
  header_code = header_code_of leaf;
  amount = leaf.value;
  script_type = classify leaf.script_pubkey;
  script = if is_other (classify leaf.script_pubkey) then leaf.script_pubkey else [];
}

-- The length that a push at the cursor announces, and the cursor behind it.
unfoldable pub push_length : ℕ → ℕ → Bytes → Result (ℕ × ℕ)
push_length opcode cursor script =
    if leb opcode 75
    then ok (opcode, cursor)
    else if opcode == 76
    then (if cursor == length script
        then err "truncated OP_PUSHDATA1"
        else ok (get_or script cursor 0, cursor + 1))
    else if opcode == 77
    then (if ltb (length script - cursor) 2
        then err "truncated OP_PUSHDATA2"
        else ok
            (bit_or (get_or script cursor 0) (get_or script (cursor + 1) 0 * 2 ^ 8), cursor + 2))
    else if ltb (length script - cursor) 4
    then err "truncated OP_PUSHDATA4"
    else ok (
      bit_or
          (bit_or
            (bit_or (bit_or 0 (get_or script cursor 0)) (get_or script (cursor + 1) 0 * 2 ^ 8))
            (get_or script (cursor + 2) 0 * 2 ^ 16))
          (get_or script (cursor + 3) 0 * 2 ^ 24),
      cursor + 4,
    )

-- The loop of `LastScriptPush`; `last_was_push` holds exactly when `last_push` has a value. Each
-- round moves the cursor, so that the length of the script is enough fuel.
unfoldable pub push_loop : ℕ → ℕ → Option Bytes → Bytes → Result (Option Bytes)
push_loop zero cursor last_push script = ok last_push
push_loop (suc fuel) cursor last_push script =
    let opcode = get_or script cursor 0 in
    let skipped = push_loop fuel (cursor + 1) none script in
    let pushed = (do
      (size, start) ← push_length opcode (cursor + 1) script
      let rest = push_loop fuel (start + size) (some (take size (drop start script))) script
      if ltb (length script - start) size then err "push extends past scriptSig" else rest) in
    if ltb cursor (length script) then (if leb opcode 78 then pushed else skipped) else ok last_push

abbrev pub the_push : Option Bytes → Result Bytes
the_push none = err "last scriptSig instruction is not a push"
the_push (some pushed) = ok pushed

unfoldable pub last_script_push : Bytes → Result Bytes
last_script_push [] = err "empty scriptSig stack"
last_script_push (b ∷ bs) = do
  last_push ← push_loop (length (b ∷ bs)) 0 none (b ∷ bs)
  the_push last_push

unfoldable pub p2pkh : Bytes → Bytes
p2pkh hash = (0x76 ∷ 0xa9 ∷ 0x14 ∷ []) ++ hash ++ 0x88 ∷ 0xac ∷ []

unfoldable pub p2sh : Bytes → Bytes
p2sh hash = (0xa9 ∷ 0x14 ∷ []) ++ hash ++ 0x87 ∷ []

unfoldable pub witness_program : Bytes → Bytes
witness_program hash = (0 ∷ length hash % 256 ∷ []) ++ hash

abbrev pub last_item : List Bytes → Option Bytes
last_item [] = none
last_item (x ∷ []) = some x
last_item (x ∷ y ∷ xs) = last_item (y ∷ xs)

-- `Hash160` and `Sha256` are src/hash.cpp's.
module _ (hash160 sha256 : Bytes → Bytes) where
  unfoldable pub witness_script : (Bytes → Bytes) → Option Bytes → Result Bytes
  witness_script hash none = err "empty witness stack"
  witness_script hash (some item) = ok (witness_program (hash item))

  unfoldable pub reconstruct_script_pubkey : CompactLeafData → SpendingInput → Result Bytes
  reconstruct_script_pubkey leaf input = elim leaf.script_type [
    | other ↦ ok leaf.script
    | pubkey_hash ↦ do pushed ← last_script_push input.script_sig; ok (p2pkh (hash160 pushed))
    | script_hash ↦ do pushed ← last_script_push input.script_sig; ok (p2sh (hash160 pushed))
    | witness_v0_pubkey_hash ↦ witness_script hash160 (last_item input.witness)
    | witness_v0_script_hash ↦ witness_script sha256 (last_item input.witness)
  ]

-- `IsProvablyUnspendable`.
unfoldable pub is_provably_unspendable : Bytes → Bool
is_provably_unspendable [] = false
is_provably_unspendable (b ∷ bs) = ltb 10000 (length (b ∷ bs)) || (b == 0x6a)
