-- ===== src/Tests/Leaves.antt =====
-- A leaf with a script for a public key's hash, where each hash is its own preimage.
use utreexo_core_rpc.Common.{◌≡◌, refl, arith, true, [], ◌∷◌, ◌++◌, map}
use utreexo_core_rpc.Tests.{copies}
use utreexo_core_rpc.Result.{ok, err}
use utreexo_core_rpc.Wire.Bytes.{Bytes, append_le, append_compact_size}
use utreexo_core_rpc.Leaf.{
  other, pubkey_hash, CompactLeafData, LeafData, SpendingInput, is_p2pkh, classify, compact_leaf,
  push_length, push_loop, last_script_push, reconstruct_script_pubkey,
}
use utreexo_core_rpc.Leaf.Push.{direct, push_data1, assemble, last_script_push-assemble}
use utreexo_core_rpc.Leaf.Scripts.{Reveals, reconstruct_script_pubkey-compact_leaf}
use utreexo_core_rpc.Udata.{
  Proof, append_targets, append_hashes, append_leaf, append_leaves, script_type_byte,
  serialize_udata,
}
use utreexo_core_rpc.Udata.Encoding.{udata, serialize_udata-eq, serialize_udata-compact_leaf}
use utreexo_core_rpc.Udata.Injective.{HasSizes, IsSized, serialize_udata-injective}
use utreexo_core_rpc.Leaf.Encoding.{IsEncodable, serialize_leaf-injective}

last_script_push-assemble_example :
    last_script_push (assemble (direct (1 ∷ 2 ∷ []) ∷ push_data1 (7 ∷ 8 ∷ 9 ∷ []) ∷ []))
    ≡ ok (7 ∷ 8 ∷ 9 ∷ [])
last_script_push-assemble_example =
    last_script_push-assemble (direct (1 ∷ 2 ∷ [])) (push_data1 (7 ∷ 8 ∷ 9 ∷ []) ∷ [])
      (omega arith, (omega arith, tt))

abbrev same : Bytes → Bytes
same bytes = bytes

abbrev leaf : LeafData
leaf = record {
  block_hash = copies 32 1;
  txid = copies 32 2;
  index = 3;
  block_height = 800000;
  coinbase = true;
  value = 5000000000;
  script_pubkey = 0x76 ∷ 0xa9 ∷ 0x14 ∷ copies 20 9 ++ 0x88 ∷ 0xac ∷ [];
}

abbrev spending : SpendingInput
spending = record { script_sig = 20 ∷ copies 20 9; witness = [] }

revealed : Reveals same same (classify leaf.script_pubkey) leaf.script_pubkey spending
unfolding classify is_p2pkh last_script_push push_loop push_length
revealed = (copies 20 9, refl, refl)

reconstruct_script_pubkey-compact_leaf_example :
    reconstruct_script_pubkey same same (compact_leaf leaf) spending ≡ ok leaf.script_pubkey
reconstruct_script_pubkey-compact_leaf_example =
    reconstruct_script_pubkey-compact_leaf same same leaf spending revealed

leaf-IsEncodable : IsEncodable leaf
leaf-IsEncodable = record {
  block_hash_size = refl;
  txid_size = refl;
  index_bound = omega arith;
  height_bound = omega arith;
  value_bound = omega arith;
  script_bound = omega arith;
}

serialize_leaf-injective_example : leaf ≡ leaf
serialize_leaf-injective_example =
    serialize_leaf-injective (1 ∷ 2 ∷ []) leaf leaf leaf-IsEncodable leaf-IsEncodable refl

abbrev one_target : Proof
one_target = record { targets = 300 ∷ []; hashes = copies 32 7 ∷ [] }

serialize_udata-compact_leaf_example :
    serialize_udata one_target (map compact_leaf (leaf ∷ []))
    ≡ ok (udata one_target (map compact_leaf (leaf ∷ [])))
serialize_udata-compact_leaf_example = serialize_udata-compact_leaf one_target (leaf ∷ []) refl

-- A leaf of a standard type that brings a script.
abbrev overloaded : CompactLeafData
overloaded = record { header_code = 7; amount = 5; script_type = pubkey_hash; script = 1 ∷ [] }

serialize_udata-eq_example :
    serialize_udata one_target (overloaded ∷ [])
    ≡ err "standard compact leaf unexpectedly contains a script"
serialize_udata-eq_example = serialize_udata-eq one_target (overloaded ∷ [])

abbrev strange : CompactLeafData
strange = record { header_code = 7; amount = 5; script_type = other; script = 8 ∷ 9 ∷ [] }

written :
    serialize_udata (record { targets = 4 ∷ []; hashes = [] }) (strange ∷ [])
    ≡ ok (0 ∷ 1 ∷ 4 ∷ 0 ∷ 1 ∷ 7 ∷ 0 ∷ 0 ∷ 0 ∷ 5 ∷ 0 ∷ 0 ∷ 0 ∷ 0 ∷ 0 ∷ 0 ∷ 0 ∷ 0 ∷ 2 ∷ 8 ∷ 9 ∷ [])
unfolding append_le append_compact_size serialize_udata append_targets append_hashes append_leaf
    append_leaves script_type_byte
written = refl

one_target-IsSized : IsSized one_target
one_target-IsSized = record {
  target_count = omega arith;
  target_bounds = (omega arith, tt);
  hash_count = omega arith;
  hash_sizes = (refl, tt);
}

strange-HasSizes : HasSizes strange
strange-HasSizes = record {
  code_bound = omega arith;
  amount_bound = omega arith;
  script_bound = omega arith;
}

serialize_udata-injective_example : (one_target ≡ one_target) × ((strange ∷ []) ≡ (strange ∷ []))
serialize_udata-injective_example =
    serialize_udata-injective one_target one_target (strange ∷ []) (strange ∷ [])
      (udata one_target (strange ∷ [])) one_target-IsSized one_target-IsSized (strange-HasSizes, tt)
      (strange-HasSizes, tt) (serialize_udata-eq one_target (strange ∷ []))
      (serialize_udata-eq one_target (strange ∷ []))
