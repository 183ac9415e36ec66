-- ===== src/Udata/Encoding.antt =====
-- The bytes of `SerializeUData`, part by part, and when it refuses.
use utreexo_core_rpc.Common.{
  suc, arith, ℕ, ◌≡◌, refl, ap, Bool, true, ◌&&◌, ◌||◌, Bool-cases, inl, inr, List, [], ◌∷◌, ◌++◌,
  map, length, append_assoc, append-nil, if◌then◌else◌, ◌==◌,
}
use utreexo_core_rpc.Result.{Result, ok, err}
use utreexo_core_rpc.Wire.Bytes.{
  Bytes, append_compact_size, little_endian, compact_size, append_le-eq, append_compact_size-eq,
}
use utreexo_core_rpc.Leaf.{CompactLeafData, LeafData, compact_leaf, classify, is_other}
use utreexo_core_rpc.Udata.{
  Proof, script_type_byte, append_targets, append_hashes, is_empty, append_leaf, append_leaves,
  serialize_udata,
}

abbrev pub concat_map : {A : Type 0} → (A → Bytes) → List A → Bytes
concat_map f [] = []
concat_map f (x ∷ xs) = f x ++ concat_map f xs

-- Only a leaf of the type `OTHER` has a script.
abbrev pub is_plain : CompactLeafData → Bool
is_plain leaf = is_other leaf.script_type || is_empty leaf.script

abbrev pub all_plain : List CompactLeafData → Bool
all_plain [] = true
all_plain (leaf ∷ leaves) = is_plain leaf && all_plain leaves

abbrev pub script_part : CompactLeafData → Bytes
script_part leaf =
    if is_other leaf.script_type then compact_size (length leaf.script) ++ leaf.script else []

abbrev pub leaf_bytes : CompactLeafData → Bytes
leaf_bytes leaf =
    little_endian 4 leaf.header_code
    ++ (little_endian 8 leaf.amount ++ (script_type_byte leaf.script_type ∷ script_part leaf))

abbrev pub udata : Proof → List CompactLeafData → Bytes
udata proof leaves =
    compact_size 0
    ++ (compact_size (length proof.targets)
        ++ (concat_map compact_size proof.targets
            ++ (compact_size (length proof.hashes)
                ++ (concat_map (λ hash. hash) proof.hashes
                    ++ (compact_size (length leaves) ++ concat_map leaf_bytes leaves)))))

append_targets-eq :
    (targets : List ℕ) (output : Bytes)
    → append_targets targets output ≡ output ++ concat_map compact_size targets
unfolding append_targets
append_targets-eq [] output = rw append-nil refl
append_targets-eq (t ∷ ts) output =
    rw (append_targets-eq ts, append_compact_size-eq, append_assoc) refl

append_hashes-eq :
    (hashes : List Bytes) (output : Bytes)
    → append_hashes hashes output ≡ output ++ concat_map (λ hash. hash) hashes
unfolding append_hashes
append_hashes-eq [] output = rw append-nil refl
append_hashes-eq (h ∷ hs) output = rw (append_hashes-eq hs, append_assoc) refl

abbrev pub refused : Result Bytes
refused = err "standard compact leaf unexpectedly contains a script"

append_leaf-eq :
    (leaf : CompactLeafData) (output : Bytes)
    → append_leaf leaf output ≡ (if is_plain leaf then ok (output ++ leaf_bytes leaf) else refused)
unfolding append_leaf
append_leaf-eq leaf output = elim (Bool-cases (is_other leaf.script_type)) [
  | inl y ↦
      rw
        (
          y, append_compact_size-eq, append_le-eq, append_le-eq, append_assoc, append_assoc,
          append_assoc, append_assoc,
        )
        refl
  | inr n ↦ elim (Bool-cases (is_empty leaf.script)) [
    | inl e ↦ rw (n, e, append_le-eq, append_le-eq, append_assoc, append_assoc) refl
    | inr e ↦ rw (n, e) refl
  ]
]

append_leaves-eq :
    (leaves : List CompactLeafData) (output : Bytes)
    → append_leaves leaves output
      ≡ (if all_plain leaves then ok (output ++ concat_map leaf_bytes leaves) else refused)
unfolding append_leaves
append_leaves-eq [] output = rw append-nil refl
append_leaves-eq (l ∷ ls) output = elim (Bool-cases (is_plain l)) [
  | inl y ↦ rw (append_leaf-eq l output, y, append_leaves-eq ls, append_assoc) refl
  | inr n ↦ rw (append_leaf-eq l output, n) refl
]

-- `SerializeUData` refuses a proof that has not one target for each leaf, then leaves of which one
-- of a standard type has a script. It writes all others: an empty list of places to remember, the
-- targets, the hashes and the leaves, each after their number as a CompactSize.
pub serialize_udata-eq :
    (proof : Proof) (leaves : List CompactLeafData)
    → serialize_udata proof leaves ≡ (
        if length proof.targets == length leaves
        then (if all_plain leaves then ok (udata proof leaves) else refused)
        else err "proof target and compact-leaf counts differ")
unfolding serialize_udata
serialize_udata-eq proof leaves = rw (append_leaves-eq leaves, written) refl
  where
    written :
        append_compact_size (length leaves) (
            append_hashes proof.hashes (
              append_compact_size (length proof.hashes) (
                append_targets proof.targets
                  (append_compact_size (length proof.targets) (append_compact_size 0 [])))))
          ++ concat_map leaf_bytes leaves
        ≡ udata proof leaves
    written = simp (append_compact_size-eq, append_hashes-eq, append_targets-eq, append_assoc) refl

length-compact_leaf : (leaves : List LeafData) → length (map compact_leaf leaves) ≡ length leaves
length-compact_leaf [] = refl
length-compact_leaf (l ∷ ls) = ap suc (length-compact_leaf ls)

all_plain-compact_leaf : (leaves : List LeafData) → all_plain (map compact_leaf leaves) ≡ true
unfolding compact_leaf
all_plain-compact_leaf [] = refl
all_plain-compact_leaf (l ∷ ls) = elim (Bool-cases (is_other (classify l.script_pubkey))) [
  | inl y ↦ rw (y, all_plain-compact_leaf ls) refl
  | inr n ↦ rw (n, all_plain-compact_leaf ls) refl
]

-- What `CompactLeaf` makes of leaves is never refused: with a proof that has one target for each of
-- them, `SerializeUData` writes them.
pub serialize_udata-compact_leaf :
    (proof : Proof) (leaves : List LeafData)
    → length proof.targets ≡ length leaves
    → serialize_udata proof (map compact_leaf leaves) ≡ ok (udata proof (map compact_leaf leaves))
serialize_udata-compact_leaf proof leaves h =
    let e : (length proof.targets == length (map compact_leaf leaves)) ≡ true =
      ground (arith, length-compact_leaf leaves) in
    rw (serialize_udata-eq, e, all_plain-compact_leaf leaves) refl
