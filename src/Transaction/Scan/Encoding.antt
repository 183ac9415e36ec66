-- ===== src/Transaction/Scan/Encoding.antt =====
-- Transactions on the wire, written out part by part: what `ScanTransaction` is meant to read.
use utreexo_core_rpc.Common.{
  ℕ, suc, ◌+◌, ◌*◌, ◌^◌, ◌≤◌, ◌<◌, ◌≡◌, arith, Bool, true, false, ◌||◌, List, [], ◌∷◌, ◌++◌, All,
  if◌then◌else◌, length, length-append,
}
use utreexo_core_rpc.Wire.Bytes.{
  Bytes, little_endian, length-little_endian, compact_size, compact_size_bytes, length-compact_size,
}
use utreexo_core_rpc.Transaction.{max_inputs}
use utreexo_core_rpc.Transaction.Scan.{OutPoint}

pub record TxIn : Type 0 where
  pub prevout : OutPoint
  pub script : Bytes
  pub sequence : Bytes

pub record TxOut : Type 0 where
  pub value : Bytes
  pub script : Bytes

-- A transaction; one without a witness has no witness stacks.
pub record Tx : Type 0 where
  pub version : Bytes
  pub inputs : List TxIn
  pub outputs : List TxOut
  pub stacks : List (List Bytes)
  pub lock_time : Bytes

abbrev pub concat_map : {A : Type 0} → (A → Bytes) → List A → Bytes
concat_map f [] = []
concat_map f (x ∷ xs) = f x ++ concat_map f xs

-- Bytes behind their number.
abbrev pub sized : Bytes → Bytes
sized bytes = compact_size (length bytes) ++ bytes

abbrev pub input_bytes : TxIn → Bytes
input_bytes input =
    input.prevout.txid
    ++ (little_endian 4 input.prevout.index ++ (sized input.script ++ input.sequence))

abbrev pub output_bytes : TxOut → Bytes
output_bytes output = output.value ++ sized output.script

abbrev pub stack_bytes : List Bytes → Bytes
stack_bytes items = compact_size (length items) ++ concat_map sized items

abbrev pub is_nonempty : {A : Type 0} → List A → Bool
is_nonempty [] = false
is_nonempty (x ∷ xs) = true

abbrev pub marker : List (List Bytes) → Bytes
marker stacks = if is_nonempty stacks then 0 ∷ (1 ∷ []) else []

-- The number of inputs, the inputs, the number of outputs and the outputs.
abbrev pub body : Tx → Bytes
body tx =
    compact_size (length tx.inputs)
    ++ (concat_map input_bytes tx.inputs
        ++ (compact_size (length tx.outputs) ++ concat_map output_bytes tx.outputs))

unfoldable pub encode : Tx → Bytes
encode tx =
    tx.version
    ++ (marker tx.stacks ++ (body tx ++ (concat_map stack_bytes tx.stacks ++ tx.lock_time)))

-- The transaction without its witness, whose hash is its id.
unfoldable pub stripped : Tx → Tx
stripped tx = record tx { stacks = [] }

abbrev pub prevouts : List TxIn → List OutPoint
prevouts [] = []
prevouts (input ∷ inputs) = input.prevout ∷ prevouts inputs

-- Where the output numbers of inputs stand that start at `start`.
abbrev pub index_offsets : ℕ → List TxIn → List ℕ
index_offsets start [] = []
index_offsets start (input ∷ inputs) =
    (start + 32) ∷ index_offsets (start + length (input_bytes input)) inputs

pub record IsInput (input : TxIn) : Type 0 where
  pub txid_size : length input.prevout.txid ≡ 32
  pub index_bound : input.prevout.index < 2 ^ 32
  pub script_bound : length input.script < 2 ^ 64
  pub sequence_size : length input.sequence ≡ 4

pub record IsOutput (output : TxOut) : Type 0 where
  pub value_size : length output.value ≡ 8
  pub script_bound : length output.script < 2 ^ 64

abbrev pub IsStack : List Bytes → Type 0
IsStack items = (length items < 2 ^ 64) × All (λ item. length item < 2 ^ 64) items

abbrev pub has_items : List (List Bytes) → Bool
has_items [] = false
has_items (items ∷ stacks) = is_nonempty items || has_items stacks

-- No witness at all, or a stack for each input of which one has an item.
abbrev pub HasWitness : ℕ → List (List Bytes) → Type 0
HasWitness inputs [] = Unit
HasWitness inputs (items ∷ stacks) =
    (length (items ∷ stacks) ≡ inputs) × (has_items (items ∷ stacks) ≡ true)

pub record IsTransaction (tx : Tx) : Type 0 where
  pub version_size : length tx.version ≡ 4
  pub some_input : 0 < length tx.inputs
  pub input_bound : length tx.inputs ≤ max_inputs
  pub inputs : All IsInput tx.inputs
  pub some_output : 0 < length tx.outputs
  pub output_bound : length tx.outputs < 2 ^ 64
  pub outputs : All IsOutput tx.outputs
  pub stacks : All IsStack tx.stacks
  pub witness : HasWitness (length tx.inputs) tx.stacks
  pub lock_time_size : length tx.lock_time ≡ 4

pub length-sized :
    (bytes : Bytes) → length (sized bytes) ≡ compact_size_bytes (length bytes) + length bytes
length-sized bytes =
    omega
      (arith, length-append (compact_size (length bytes)) bytes, length-compact_size (length bytes))

pub length-input_bytes :
    (input : TxIn)
    → IsInput input
    → length (input_bytes input)
      ≡ 32 + 4 + compact_size_bytes (length input.script) + length input.script + 4
length-input_bytes input h = omega (
  arith,
  h.txid_size,
  h.sequence_size,
  length-append input.prevout.txid
      (little_endian 4 input.prevout.index ++ (sized input.script ++ input.sequence)),
  length-append (little_endian 4 input.prevout.index) (sized input.script ++ input.sequence),
  length-append (sized input.script) input.sequence,
  length-sized input.script,
  length-little_endian 4 input.prevout.index,
)

pub length-output_bytes :
    (output : TxOut)
    → IsOutput output
    → length (output_bytes output)
      ≡ 8 + compact_size_bytes (length output.script) + length output.script
length-output_bytes output h = omega (
  arith,
  h.value_size,
  length-append output.value (sized output.script),
  length-sized output.script,
)

pub compact_size_bytes-pos : (v : ℕ) → 1 ≤ compact_size_bytes v
unfolding compact_size_bytes
compact_size_bytes-pos v = ground arith

-- As many bytes at least as the reader's checks want for a number of parts.
pub length-concat_map :
    {A : Type 0} (f : A → Bytes) (P : A → Type 0) (n : ℕ)
    → ((x : A) → P x → n ≤ length (f x))
    → (xs : List A) → All P xs
    → length xs * n ≤ length (concat_map f xs)
length-concat_map f P n least [] h = omega arith
length-concat_map f P n least (x ∷ xs) (p, ps) = omega (
  arith,
  least x p,
  length-append (f x) (concat_map f xs),
  length-concat_map f P n least xs ps,
  more (length xs) n,
)
  where
    more : (m n : ℕ) → suc m * n ≡ m * n + n
    more m n = omega arith
