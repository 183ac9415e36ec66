-- ===== src/Transaction/Inventory.antt =====
-- `ParseGroups` and `SerializeGroups` of src/transaction_wire.cpp. Their template parameter, an
-- announcement or a request, is an argument here; the vector of groups is a list with its back
-- first, which the parser turns round at the end.
pub mod Slots
pub mod Vectors
pub mod Groups
pub mod RoundTrip
pub mod Sound
use utreexo_core_rpc.Common.{
  ℕ, zero, suc, ◌+◌, ◌-◌, ◌*◌, ◌/◌, ◌^◌, min, ◌==◌, ltb, leb, Bool, true, false, ◌&&◌, ◌||◌, not,
  List, [], ◌∷◌, ◌++◌, if◌then◌else◌, length, get_or, drop,
}
use mathlib.Core.List.{reverse}
use utreexo_core_rpc.Result.{Result, ok, err, thrown, ◌>>=◌, ◌>>◌, expect, refuse}
use utreexo_core_rpc.Wire.Bytes.{Bytes, append_le, append_compact_size, compact_size_bytes}
use utreexo_core_rpc.Wire.Reader.{
  Reader, open_reader, remaining, read_le, read_compact_size, read_hash,
}
use utreexo_core_rpc.Transaction.{
  max_inventory, max_inventory_payload, padding, max_inputs, max_hashes, unique_positions,
}

abbrev pub msg_tx : ℕ
msg_tx = 1

abbrev pub msg_utreexo_proof_hash : ℕ
msg_utreexo_proof_hash = 6

-- `MSG_TX | (1U << 24)`
abbrev pub msg_utreexo_tx : ℕ
msg_utreexo_tx = 0x1000001

-- `MSG_UTREEXO_TX | (1U << 30)`
abbrev pub msg_witness_utreexo_tx : ℕ
msg_witness_utreexo_tx = 0x41000001

pub record TransactionAnnouncement : Type 0 where
  pub txid : Bytes
  pub confirmed_targets : List ℕ

pub record TransactionProofRequest : Type 0 where
  pub txid : Bytes
  pub inventory_type : ℕ
  pub proof_positions : List ℕ

pub data Kind : Type 0 where
  announcements requests : Kind

abbrev pub Group : Kind → Type 0
Group announcements = TransactionAnnouncement
Group requests = TransactionProofRequest

unfoldable pub is_request_type : ℕ → Bool
is_request_type type = type == msg_utreexo_tx || type == msg_witness_utreexo_tx

unfoldable pub positions : (k : Kind) → Group k → List ℕ
positions announcements group = group.confirmed_targets
positions requests group = group.proof_positions

unfoldable pub position_limit : Kind → ℕ
position_limit announcements = max_inputs
position_limit requests = max_hashes

-- `Positions(group).push_back(pos)`
unfoldable pub push_position : (k : Kind) → ℕ → Group k → Group k
push_position announcements pos group = record group {
  confirmed_targets = group.confirmed_targets ++ pos ∷ [];
}
push_position requests pos group = record group {
  proof_positions = group.proof_positions ++ pos ∷ [];
}

-- Whether an inventory vector of this type starts a group.
unfoldable pub is_attachable : Kind → ℕ → Bool
unfolding is_request_type
is_attachable announcements type = type == msg_tx
is_attachable requests type = is_request_type type

unfoldable pub new_group : (k : Kind) → ℕ → Bytes → Group k
new_group announcements type hash = record { txid = hash; confirmed_targets = [] }
new_group requests type hash = record { txid = hash; inventory_type = type; proof_positions = [] }

pub record Parsing (k : Kind) : Type 0 where
  pub groups : List (Group k)
  pub attachable : Bool
  pub padded : Bool

-- A position that is no padding goes to the last group; without one, `groups.back()` is undefined.
unfoldable pub add_position : (k : Kind) → ℕ → List (Group k) → Result (List (Group k))
add_position k pos [] = thrown "back of an empty vector"
add_position k pos (group ∷ groups) =
    if leb (position_limit k) (length (positions k group))
    then err "too many packed positions"
    else ok (push_position k pos group ∷ groups)

-- What one slot of a packed hash does.
unfoldable pub take_slot : (k : Kind) → ℕ → ℕ → Parsing k → Result (Parsing k)
unfolding add_position
take_slot k slot pos st =
    if pos == padding
    then if slot == 0
      then err "redundant empty proof inventory vector"
      else ok (record st { padded = true })
    else if st.padded
    then err "non-padding position after padding"
    else (do groups ← add_position k pos st.groups; ok (record st { groups = groups }))

-- The loop over the slots of a packed hash, with `n` slots left.
unfoldable pub slot_loop : (k : Kind) → ℕ → ℕ → Reader → Parsing k → Result (Parsing k)
slot_loop k zero slot packed st = ok st
slot_loop k (suc n) slot packed st = do
  (pos, packed') ← expect "truncated packed position" (read_le 8 packed)
  st' ← take_slot k slot pos st
  slot_loop k n (slot + 1) packed' st'

-- What one inventory vector does.
unfoldable pub take_vector : (k : Kind) → ℕ → Bytes → Parsing k → Result (Parsing k)
take_vector k type hash st =
    if type == msg_utreexo_proof_hash
    then if not st.attachable || st.padded
      then err "misplaced or over-padded proof inventory vector"
      else slot_loop k 4 0 (open_reader hash) st
    else ok (record {
      groups = if is_attachable k type then new_group k type hash ∷ st.groups else st.groups;
      attachable = is_attachable k type;
      padded = false;
    })

-- The loop over the inventory vectors, with `n` of them left.
unfoldable pub vector_loop : (k : Kind) → ℕ → Reader → Parsing k → Result (Parsing k)
vector_loop k zero r st = ok st
vector_loop k (suc n) r st = do
  (type, r₁) ← expect "truncated inventory vector" (read_le 4 r)
  (hash, r₂) ← expect "truncated inventory vector" (read_hash r₁)
  st' ← take_vector k type hash st
  vector_loop k n r₂ st'

unfoldable pub all_unique : (k : Kind) → List (Group k) → Bool
all_unique k [] = true
all_unique k (group ∷ groups) = unique_positions (positions k group) && all_unique k groups

abbrev pub no_groups : (k : Kind) → Parsing k
no_groups k = record { groups = []; attachable = false; padded = false }

unfoldable pub parse_groups : (k : Kind) → Bytes → ℕ → Result (List (Group k))
parse_groups k payload max_payload_bytes = do
  refuse (ltb (min max_payload_bytes max_inventory_payload) (length payload))
      "transaction inventory payload exceeds maximum"
  (count, r) ←
      expect "invalid transaction inventory count, length, or CompactSize"
        (read_compact_size (open_reader payload))
  refuse (ltb max_inventory count || not (remaining r == count * 36))
      "invalid transaction inventory count, length, or CompactSize"
  st ← vector_loop k count r (no_groups k)
  let groups = reverse st.groups
  refuse (not (all_unique k groups)) "duplicate packed positions"
  ok groups

unfoldable pub is_valid_type : (k : Kind) → Group k → Bool
is_valid_type announcements group = true
is_valid_type requests group = is_request_type group.inventory_type

-- The first loop of `SerializeGroups`.
unfoldable pub count_vectors : (k : Kind) → List (Group k) → ℕ → Result ℕ
count_vectors k [] count = ok count
count_vectors k (group ∷ groups) count = do
  refuse (not (is_valid_type k group)) "invalid Utreexo transaction request type"
  refuse (ltb (position_limit k) (length (positions k group))) "too many packed positions"
  let count' = count + (1 + (length (positions k group) + 3) / 4)
  refuse (ltb max_inventory count') "too many transaction inventory vectors"
  count_vectors k groups count'

-- The positions from `i` on, four to a vector, with `n` rounds at most.
unfoldable pub append_packed : ℕ → List ℕ → Bytes → Bytes
append_packed n [] output = output
append_packed zero (p ∷ ps) output = output
append_packed (suc n) (p ∷ ps) output =
    let vector = append_le 4 msg_utreexo_proof_hash output in
    let slot₀ = append_le 8 p vector in
    let slot₁ = append_le 8 (get_or ps 0 padding) slot₀ in
    let slot₂ = append_le 8 (get_or ps 1 padding) slot₁ in
    append_packed n (drop 3 ps) (append_le 8 (get_or ps 2 padding) slot₂)

unfoldable pub type_of : (k : Kind) → Group k → ℕ
type_of announcements group = msg_tx
type_of requests group = group.inventory_type

unfoldable pub txid_of : (k : Kind) → Group k → Bytes
txid_of announcements group = group.txid
txid_of requests group = group.txid

unfoldable pub append_groups : (k : Kind) → List (Group k) → Bytes → Bytes
append_groups k [] output = output
append_groups k (group ∷ groups) output =
    let header = append_le 4 (type_of k group) output ++ txid_of k group in
    let ps = positions k group in append_groups k groups (append_packed (length ps) ps header)

unfoldable pub serialize_groups : (k : Kind) → List (Group k) → ℕ → Result Bytes
serialize_groups k groups max_payload_bytes = do
  refuse (ltb max_inventory (length groups)) "too many transaction inventory groups"
  count ← count_vectors k groups 0
  refuse (ltb (min max_payload_bytes max_inventory_payload) (compact_size_bytes count + count * 36))
      "transaction inventory payload exceeds maximum"
  refuse (not (all_unique k groups)) "duplicate or reserved packed position"
  ok (append_groups k groups (append_compact_size count []))
