-- ===== src/Transaction/Prepared/Written.antt =====
-- What `Serialize` writes, part by part, and how long it is.
use utreexo_core_rpc.Common.{
  ℕ, suc, ◌+◌, ◌*◌, ◌%◌, ◌^◌, ◌≤◌, ◌<◌, ◌≡◌, refl, ap, arith, Bool-cases, inl, inr, if◌then◌else◌,
  Option, none, some, List, [], ◌∷◌, ◌++◌, All, length, append_assoc, append-nil, get_or,
}
use utreexo_core_rpc.Common.Bits.{bit_or-one, bit_or-zero}
use utreexo_core_rpc.Wire.Bytes.{
  Bytes, little_endian, append_le-eq, compact_size, append_compact_size-eq,
}
use utreexo_core_rpc.Leaf.{CompactLeafData, is_other}
use utreexo_core_rpc.Udata.{script_type_byte, append_targets}
use utreexo_core_rpc.Transaction.Inventory.{TransactionProofRequest}
use utreexo_core_rpc.Transaction.Scan.{OutPoint}
use utreexo_core_rpc.Transaction.Scan.Encoding.{TxIn, Tx, concat_map, sized, encode}
use utreexo_core_rpc.Transaction.Prepared.{
  PreparedTransactionProof, lower_bound, append_hashes, flagged, append_leaf, append_leaves,
  append_proof,
}
use utreexo_core_rpc.Transaction.Prepared.Indices.{set_indices, flags}

-- The bytes of the leaf of a confirmed input.
abbrev pub leaf_part : CompactLeafData → Bytes
leaf_part leaf =
    little_endian 4 leaf.header_code
    ++ (little_endian 8 leaf.amount
        ++ (script_type_byte leaf.script_type
            ∷ (if is_other leaf.script_type then sized leaf.script else [])))

abbrev pub leaf_parts : List (Option CompactLeafData) → Bytes
leaf_parts [] = []
leaf_parts (none ∷ leaves) = leaf_parts leaves
leaf_parts (some leaf ∷ leaves) = leaf_part leaf ++ leaf_parts leaves

abbrev pub requested : PreparedTransactionProof → List ℕ → List Bytes
requested p [] = []
requested p (pos ∷ positions) =
    get_or p.proof.hashes (lower_bound p.proof_positions pos) [] ∷ requested p positions

abbrev pub proof_part : List ℕ → List Bytes → Bytes
proof_part targets hashes =
    compact_size (length targets)
    ++ (concat_map compact_size targets
        ++ (compact_size (length hashes) ++ concat_map (λ hash. hash) hashes))

-- The transaction with a flag in each output number.
abbrev pub flagged_tx : Tx → List (Option CompactLeafData) → Tx
flagged_tx tx leaves = record tx { inputs = set_indices tx.inputs (flags tx.inputs leaves) }

abbrev pub message : Tx → List (Option CompactLeafData) → List ℕ → List Bytes → Bytes
message tx leaves targets hashes =
    proof_part targets hashes ++ (encode (flagged_tx tx leaves) ++ leaf_parts leaves)

append_targets-eq :
    (targets : List ℕ) (output : Bytes)
    → append_targets targets output ≡ output ++ concat_map compact_size targets
unfolding append_targets
append_targets-eq [] output = rw append-nil refl
append_targets-eq (t ∷ ts) output =
    rw (append_targets-eq ts, append_compact_size-eq, append_assoc) refl

append_hashes-eq :
    (p : PreparedTransactionProof) (positions : List ℕ) (output : Bytes)
    → append_hashes p positions output ≡ output ++ concat_map (λ hash. hash) (requested p positions)
unfolding append_hashes
append_hashes-eq p [] output = rw append-nil refl
append_hashes-eq p (pos ∷ ps) output = rw (append_hashes-eq p ps, append_assoc) refl

pub length-requested :
    (p : PreparedTransactionProof) (positions : List ℕ)
    → length (requested p positions) ≡ length positions
length-requested p [] = refl
length-requested p (pos ∷ ps) = ap suc (length-requested p ps)

pub append_proof-eq :
    (request : TransactionProofRequest) (p : PreparedTransactionProof)
    → append_proof request p ≡ proof_part p.proof.targets (requested p request.proof_positions)
unfolding append_proof
append_proof-eq request p =
    rw length-requested
      (simp (append_hashes-eq, append_compact_size-eq, append_targets-eq, append_assoc) refl)

append_leaf-eq :
    (leaf : CompactLeafData) (output : Bytes) → append_leaf leaf output ≡ output ++ leaf_part leaf
unfolding append_leaf
append_leaf-eq leaf output = elim (Bool-cases (is_other leaf.script_type)) [
  | inl y ↦ rw y (simp (append_compact_size-eq, append_le-eq, append_assoc) refl)
  | inr n ↦ rw n (simp (append_le-eq, append_assoc) refl)
]

pub append_leaves-eq :
    (leaves : List (Option CompactLeafData)) (output : Bytes)
    → append_leaves leaves output ≡ output ++ leaf_parts leaves
unfolding append_leaves
append_leaves-eq [] output = rw append-nil refl
append_leaves-eq (none ∷ leaves) output = append_leaves-eq leaves output
append_leaves-eq (some leaf ∷ leaves) output =
    rw (append_leaves-eq leaves, append_leaf-eq, append_assoc) refl

-- A flagged output number has 32 bits where the number has 31, and it is the number with its flag.
abbrev pub flag_of : Option CompactLeafData → ℕ
flag_of none = 1
flag_of (some leaf) = 0

pub flagged-eq :
    (input : OutPoint) (leaf : Option CompactLeafData)
    → input.index < 2 ^ 31
    → flagged input leaf ≡ input.index * 2 + flag_of leaf
unfolding flagged
flagged-eq input none h = omega (arith, bit_or-one (input.index * 2 % 2 ^ 32))
flagged-eq input (some leaf) h = omega (arith, bit_or-zero (input.index * 2 % 2 ^ 32))

abbrev pub HasRoom : TxIn → Type 0
HasRoom input = input.prevout.index < 2 ^ 31

flag_of-le : (leaf : Option CompactLeafData) → flag_of leaf ≤ 1
flag_of-le none = omega arith
flag_of-le (some leaf) = omega arith

pub flags-fit :
    (inputs : List TxIn) (leaves : List (Option CompactLeafData))
    → All HasRoom inputs
    → All (λ v. v < 2 ^ 32) (flags inputs leaves)
flags-fit [] leaves h = tt
flags-fit (input ∷ inputs) [] h = tt
flags-fit (input ∷ inputs) (leaf ∷ leaves) (h, all) =
    (omega (arith, flagged-eq input.prevout leaf h, flag_of-le leaf), flags-fit inputs leaves all)

pub length-set_indices :
    (inputs : List TxIn) (vs : List ℕ) → length (set_indices inputs vs) ≡ length inputs
length-set_indices [] vs = refl
length-set_indices (input ∷ inputs) [] = refl
length-set_indices (input ∷ inputs) (v ∷ vs) = ap suc (length-set_indices inputs vs)
