-- ===== src/Transaction/Inventory/Sound.antt =====
-- What `ParseGroups` makes of any bytes at all.
use utreexo_core_rpc.Common.{
  subst, sym, All-append, ℕ, zero, suc, ◌+◌, ◌*◌, ◌≤◌, ◌≡◌, refl, arith, true, false, not, ◌||◌,
  Bool-cases, inl, inr, List, [], ◌∷◌, All, ◌==◌, ltb, leb, min, length,
}
use mathlib.Core.List.{reverse, reverse-cons}
use utreexo_core_rpc.Result.{
  Result, ok, err, thrown, Answers, >>=-Answers, refuse-Answers, expect-Answers,
}
use utreexo_core_rpc.Wire.Bytes.{Bytes}
use utreexo_core_rpc.Wire.Reader.{
  Reader, open_reader, remaining, read_le, read_hash, read_compact_size,
}
use utreexo_core_rpc.Transaction.{padding, unique_positions, max_inventory, max_inventory_payload}
use utreexo_core_rpc.Transaction.Unique.{IsUnique, unique_positions-IsUnique}
use utreexo_core_rpc.Transaction.Inventory.{
  msg_utreexo_proof_hash, Kind, announcements, requests, Group, positions, position_limit,
  push_position, is_attachable, new_group, is_valid_type, Parsing, add_position, take_slot,
  slot_loop, take_vector, vector_loop, all_unique, no_groups, parse_groups,
}
use utreexo_core_rpc.Transaction.Inventory.Slots.{length-push_position}

abbrev IsBounded : (k : Kind) → Group k → Type 0
IsBounded k group = (is_valid_type k group ≡ true) × (length (positions k group) ≤ position_limit k)

abbrev IsNonempty : {A : Type 0} → List A → Type 0
IsNonempty [] = ⊥
IsNonempty (x ∷ xs) = Unit

-- There is a group to attach positions to where the parser attaches them.
record IsReady (k : Kind) (st : Parsing k) : Type 0 where
  bounded : All (IsBounded k) st.groups
  present : st.attachable ≡ true → IsNonempty st.groups

push_position-valid :
    (k : Kind) (p : ℕ) (group : Group k)
    → is_valid_type k group ≡ true
    → is_valid_type k (push_position k p group) ≡ true
unfolding is_valid_type push_position
push_position-valid announcements p group h = refl
push_position-valid requests p group h = h

add_position-Answers :
    (k : Kind) (p : ℕ) (groups : List (Group k))
    → All (IsBounded k) groups
    → IsNonempty groups
    → Answers (add_position k p groups) (λ gs. All (IsBounded k) gs × IsNonempty gs)
unfolding add_position
add_position-Answers k p [] h some_group = absurd some_group
add_position-Answers k p (group ∷ groups) ((valid, room), later) some_group =
    elim (Bool-cases (leb (position_limit k) (length (positions k group)))) [
      | inl full ↦ rw full tt
      | inr free ↦ rw free (
        (
          (push_position-valid k p group valid, ground (arith, length-push_position k p group)),
          later,
        ),
        tt,
      )
    ]

abbrev HasGroup : (k : Kind) → Parsing k → Type 0
HasGroup k st = All (IsBounded k) st.groups × IsNonempty st.groups

take_slot-Answers :
    (k : Kind) (slot p : ℕ) (st : Parsing k)
    → All (IsBounded k) st.groups
    → IsNonempty st.groups
    → Answers (take_slot k slot p st) (HasGroup k)
unfolding take_slot
take_slot-Answers k slot p st h some_group = elim (Bool-cases (p == padding)) [
  | inl pad ↦ elim (Bool-cases (slot == 0)) [
    | inl first ↦ rw (pad, first) tt
    | inr later ↦ rw (pad, later) (h, some_group)
  ]
  | inr real ↦ elim (Bool-cases st.padded) [
    | inl padded ↦ rw (real, padded) tt
    | inr free ↦
        rw (real, free)
          (>>=-Answers (λ gs. All (IsBounded k) gs × IsNonempty gs) (HasGroup k)
            (add_position k p st.groups) _ (add_position-Answers k p st.groups h some_group)
            (λ gs both. both))
  ]
]

slot_loop-Answers :
    (k : Kind) (n slot : ℕ) (packed : Reader) (st : Parsing k)
    → All (IsBounded k) st.groups
    → IsNonempty st.groups
    → Answers (slot_loop k n slot packed st) (HasGroup k)
unfolding slot_loop
slot_loop-Answers k zero slot packed st h some_group = (h, some_group)
slot_loop-Answers k (suc n) slot packed st h some_group =
    expect-Answers (HasGroup k) "truncated packed position" (read_le 8 packed) _ (λ (p, packed').
      >>=-Answers (HasGroup k) (HasGroup k) (take_slot k slot p st) _
        (take_slot-Answers k slot p st h some_group)
        (λ s both. slot_loop-Answers k n (slot + 1) packed' s both.0 both.1))

new_group-IsBounded :
    (k : Kind) (type : ℕ) (hash : Bytes)
    → is_attachable k type ≡ true
    → IsBounded k (new_group k type hash)
unfolding is_valid_type is_attachable new_group positions
new_group-IsBounded announcements type hash h = (refl, omega arith)
new_group-IsBounded requests type hash h = (h, omega arith)

take_vector-IsReady :
    (k : Kind) (type : ℕ) (hash : Bytes) (st : Parsing k)
    → IsReady k st
    → Answers (take_vector k type hash st) (IsReady k)
unfolding take_vector
take_vector-IsReady k type hash st h = elim (Bool-cases (type == msg_utreexo_proof_hash)) [
  | inl packed ↦ elim (Bool-cases (not st.attachable || st.padded)) [
    | inl misplaced ↦ rw (packed, misplaced) tt
    | inr fine ↦ rw (packed, fine) (packed_slots fine)
  ]
  | inr opens ↦ elim (Bool-cases (is_attachable k type)) [
    | inl y ↦
        rw (opens, y)
          (record { bounded = (new_group-IsBounded k type hash y, h.bounded); present = λ e. tt })
    | inr n ↦ rw (opens, n) (record { bounded = h.bounded; present = λ e. cc })
  ]
]
  where
    weaken : (run : Result (Parsing k)) → Answers run (HasGroup k) → Answers run (IsReady k)
    weaken (ok s) both = record { bounded = both.0; present = λ e. both.1 }
    weaken (err message) both = tt
    weaken (thrown what) both = both

    packed_slots :
        (not st.attachable || st.padded) ≡ false
        → Answers (slot_loop k 4 0 (open_reader hash) st) (IsReady k)
    packed_slots fine =
        weaken (slot_loop k 4 0 (open_reader hash) st)
          (slot_loop-Answers k 4 0 (open_reader hash) st h.bounded (h.present (ground arith)))

vector_loop-IsReady :
    (k : Kind) (n : ℕ) (r : Reader) (st : Parsing k)
    → IsReady k st
    → Answers (vector_loop k n r st) (IsReady k)
unfolding vector_loop
vector_loop-IsReady k zero r st h = h
vector_loop-IsReady k (suc n) r st h =
    expect-Answers (IsReady k) "truncated inventory vector" (read_le 4 r) _ (λ (type, r₁).
      expect-Answers (IsReady k) "truncated inventory vector" (read_hash r₁) _ (λ (hash, r₂).
        >>=-Answers (IsReady k) (IsReady k) (take_vector k type hash st) _
          (take_vector-IsReady k type hash st h) (λ s ready. vector_loop-IsReady k n r₂ s ready)))

-- A group that the parser gives: of a type that starts a group, within the limit on positions, and
-- with no position twice or equal to the padding.
abbrev pub IsParsed : (k : Kind) → Group k → Type 0
IsParsed k group =
    (is_valid_type k group ≡ true)
    × (length (positions k group) ≤ position_limit k)
    × IsUnique (positions k group)

All-reverse : {A : Type 0} (P : A → Type 0) (xs : List A) → All P xs → All P (reverse xs)
All-reverse P [] h = tt
All-reverse P (x ∷ xs) (p, ps) =
    subst (All P) (sym (reverse-cons x xs))
      (All-append P (reverse xs) (x ∷ []) (All-reverse P xs ps) (p, tt))

parsed :
    (k : Kind) (groups : List (Group k))
    → All (IsBounded k) groups
    → not (all_unique k groups) ≡ false
    → All (IsParsed k) groups
unfolding all_unique
parsed k [] h e = tt
parsed k (group ∷ groups) ((valid, room), later) e =
    let first : unique_positions (positions k group) ≡ true = ground arith in
    (
      (valid, room, unique_positions-IsUnique (positions k group) first),
      parsed k groups later (ground arith),
    )

-- On any bytes and under any limit, the parser of announcements or of requests ends normally or with
-- an error, so that it never reaches for the last group where there is none. The groups that it
-- gives have a type that starts a group, no more positions than their limit, and no position that is
-- there twice or is the padding.
pub parse_groups-Answers :
    (k : Kind) (payload : Bytes) (max_payload_bytes : ℕ)
    → Answers (parse_groups k payload max_payload_bytes) (All (IsParsed k))
unfolding parse_groups
parse_groups-Answers k payload max_payload_bytes =
    refuse-Answers (All (IsParsed k))
      (ltb (min max_payload_bytes max_inventory_payload) (length payload))
      "transaction inventory payload exceeds maximum" _
      (λ fits.
        expect-Answers (All (IsParsed k))
          "invalid transaction inventory count, length, or CompactSize"
          (read_compact_size (open_reader payload)) _
          (λ (count, r).
            refuse-Answers (All (IsParsed k))
              (ltb max_inventory count || not (remaining r == count * 36))
              "invalid transaction inventory count, length, or CompactSize" _
              (λ counted.
                >>=-Answers (IsReady k) (All (IsParsed k)) (vector_loop k count r (no_groups k)) _
                  (vector_loop-IsReady k count r (no_groups k)
                    (record { bounded = tt; present = λ e. cc }))
                  (λ st ready.
                    refuse-Answers (All (IsParsed k)) (not (all_unique k (reverse st.groups)))
                      "duplicate packed positions" _
                      (λ unique.
                        parsed k (reverse st.groups)
                          (All-reverse (IsBounded k) st.groups ready.bounded) unique)))))
