-- ===== src/Udata.antt =====
-- `SerializeUData` of src/bridge_wire.cpp: the proof and the compact leaves that follow a block on
-- the wire. A hash is the list of its bytes, and `Proof` is that of src/include/utreexo/forest.h.
pub mod Encoding
pub mod Injective
use utreexo_core_rpc.Common.{ℕ, Bool, true, false, List, [], ◌∷◌, ◌++◌, length, if◌then◌else◌, ◌==◌}
use utreexo_core_rpc.Result.{Result, ok, err, ◌>>=◌}
use utreexo_core_rpc.Wire.Bytes.{Bytes, append_le, append_compact_size}
use utreexo_core_rpc.Leaf.{
  ScriptPubkeyType, other, pubkey_hash, witness_v0_pubkey_hash, script_hash, witness_v0_script_hash,
  is_other, CompactLeafData,
}

pub record Proof : Type 0 where
  pub targets : List ℕ
  pub hashes : List Bytes

-- The values of the enumeration.
unfoldable pub script_type_byte : ScriptPubkeyType → ℕ
script_type_byte other = 0
script_type_byte pubkey_hash = 1
script_type_byte witness_v0_pubkey_hash = 2
script_type_byte script_hash = 3
script_type_byte witness_v0_script_hash = 4

unfoldable pub append_targets : List ℕ → Bytes → Bytes
append_targets [] output = output
append_targets (target ∷ targets) output =
    append_targets targets (append_compact_size target output)

unfoldable pub append_hashes : List Bytes → Bytes → Bytes
append_hashes [] output = output
append_hashes (hash ∷ hashes) output = append_hashes hashes (output ++ hash)

-- `leaf.script.empty()`
abbrev pub is_empty : Bytes → Bool
is_empty [] = true
is_empty (b ∷ bs) = false

unfoldable pub append_leaf : CompactLeafData → Bytes → Result Bytes
append_leaf leaf output =
    let header = append_le 4 leaf.header_code output in
    let output = append_le 8 leaf.amount header ++ script_type_byte leaf.script_type ∷ [] in
    if is_other leaf.script_type
    then ok (append_compact_size (length leaf.script) output ++ leaf.script)
    else if is_empty leaf.script
    then ok output
    else err "standard compact leaf unexpectedly contains a script"

unfoldable pub append_leaves : List CompactLeafData → Bytes → Result Bytes
append_leaves [] output = ok output
append_leaves (leaf ∷ leaves) output = do
  extended ← append_leaf leaf output
  append_leaves leaves extended

unfoldable pub serialize_udata : Proof → List CompactLeafData → Result Bytes
serialize_udata proof leaves =
    if length proof.targets == length leaves
    then (let counted = append_compact_size (length proof.targets) (append_compact_size 0 []) in
        let targets = append_targets proof.targets counted in
        let hashes =
          append_hashes proof.hashes (append_compact_size (length proof.hashes) targets) in
        append_leaves leaves (append_compact_size (length leaves) hashes))
    else err "proof target and compact-leaf counts differ"
