-- ===== src/Transaction/Inventory/Groups.antt =====
-- What `ParseGroups` makes of the vectors that `SerializeGroups` writes for groups.
use utreexo_core_rpc.Common.{
  ℕ, zero, suc, ◌+◌, ◌^◌, ◌≤◌, ◌<◌, ◌≡◌, ◌≢◌, refl, sym, ap, ◌∙◌, arith, Bool, true, false, List,
  [], ◌∷◌, ◌++◌, All, All-append, ◌==◌, length, length-append, append_assoc, append-nil,
}
use mathlib.Core.List.{reverse, reverse-cons}
use utreexo_core_rpc.Result.{ok}
use utreexo_core_rpc.Wire.Bytes.{Bytes}
use utreexo_core_rpc.Wire.Reader.{open_reader}
use utreexo_core_rpc.Transaction.{padding}
use utreexo_core_rpc.Transaction.Inventory.{
  msg_utreexo_proof_hash, Kind, announcements, requests, Group, positions, position_limit,
  push_position, is_attachable, is_request_type, is_valid_type, new_group, Parsing, take_vector,
  type_of, txid_of,
}
use utreexo_core_rpc.Transaction.Inventory.Slots.{
  long_list, run_slots, slot_loop-run, push_positions, length-push_position, parsing,
  take_slot-position, take_slot-padding,
}
use utreexo_core_rpc.Transaction.Inventory.Vectors.{
  Vector, run_vectors, packs, vectors_of, all_vectors,
}

abbrev pub IsPosition : ℕ → Type 0
IsPosition p = (p < 2 ^ 64) × (p ≢ padding)

abbrev repeated : ℕ → List ℕ
repeated zero = []
repeated (suc m) = padding ∷ repeated m

take_vector-pack :
    (k : Kind) (vs : List ℕ) (group : Group k) (groups : List (Group k))
    → length vs ≡ 4
    → All (λ v. v < 2 ^ 64) vs
    → take_vector k msg_utreexo_proof_hash (long_list vs) (parsing k group groups false)
      ≡ run_slots k 0 vs (parsing k group groups false)
unfolding take_vector
take_vector-pack k vs group groups four fits = rw (sym four) (
    slot_loop-run k 0 vs (open_reader (long_list vs)) [] (parsing k group groups false)
      (sym (append-nil (long_list vs))) fits)

length-repeated : (m : ℕ) → length (repeated m) ≡ m
length-repeated zero = refl
length-repeated (suc m) = ap suc (length-repeated m)

repeated-fit : (m : ℕ) → All (λ v. v < 2 ^ 64) (repeated m)
repeated-fit zero = tt
repeated-fit (suc m) = (omega arith, repeated-fit m)

positions-fit : (ps : List ℕ) → All IsPosition ps → All (λ v. v < 2 ^ 64) ps
positions-fit [] h = tt
positions-fit (p ∷ ps) ((fits, differs), later) = (fits, positions-fit ps later)

module _ (k : Kind) (groups : List (Group k)) where
  -- Slots that hold positions, and then slots that hold padding.
  run_positions :
      (slot : ℕ) (ps vs : List ℕ) (group : Group k)
      → length (positions k group) + length ps ≤ position_limit k
      → All IsPosition ps
      → run_slots k slot (ps ++ vs) (parsing k group groups false)
        ≡ run_slots k (slot + length ps) vs (parsing k (push_positions k ps group) groups false)
  unfolding run_slots
  run_positions slot [] vs group room real =
      ap (λ n. run_slots k n vs (parsing k group groups false)) (omega arith)
  run_positions slot (p ∷ ps) vs group room ((fits, differs), later) =
      let pushed = push_position k p group in
      let first = take_slot-position k slot p group groups differs (omega arith) in
      let rest =
        run_positions (slot + 1) ps vs pushed (omega (arith, length-push_position k p group))
          later in
      rw first (
        rest
        ∙ ap (λ n. run_slots k n vs (parsing k (push_positions k ps pushed) groups false))
            (omega arith))

  run_padding :
      (slot m : ℕ) (group : Group k)
      → 0 < slot
      → run_slots k slot (repeated m) (parsing k group groups true)
        ≡ ok (parsing k group groups true)
  unfolding run_slots
  run_padding slot zero group h = refl
  run_padding slot (suc m) group h =
      rw (take_slot-padding k slot group groups true h)
        (run_padding (slot + 1) m group (omega arith))

  take_part :
      (ps : List ℕ) (m : ℕ) (group : Group k)
      → length ps + suc m ≡ 4
      → 0 < length ps
      → length (positions k group) + length ps ≤ position_limit k
      → All IsPosition ps
      → take_vector k msg_utreexo_proof_hash
          (long_list (ps ++ repeated (suc m)))
          (parsing k group groups false)
        ≡ ok (parsing k (push_positions k ps group) groups true)
  unfolding run_slots
  take_part ps m group four some_position room real =
      let pushed = push_positions k ps group in
      take_vector-pack k (ps ++ repeated (suc m)) group groups
        (omega (arith, length-append ps (repeated (suc m)), length-repeated m))
        (All-append (λ v. v < 2 ^ 64) ps (repeated (suc m)) (positions-fit ps real)
          (repeated-fit (suc m)))
      ∙ run_positions 0 ps (repeated (suc m)) group room real
      ∙ rw (take_slot-padding k (0 + length ps) pushed groups false (omega arith))
          (run_padding (0 + length ps + 1) m pushed (omega arith))

  take_full :
      (ps : List ℕ) (group : Group k)
      → length ps ≡ 4
      → length (positions k group) + length ps ≤ position_limit k
      → All IsPosition ps
      → take_vector k msg_utreexo_proof_hash (long_list ps) (parsing k group groups false)
        ≡ ok (parsing k (push_positions k ps group) groups false)
  unfolding run_slots
  take_full ps group four room real =
      take_vector-pack k ps group groups four (positions-fit ps real)
      ∙ ap (λ vs. run_slots k 0 vs (parsing k group groups false)) (sym (append-nil ps))
      ∙ run_positions 0 ps [] group room real

  -- The vectors that carry the positions `ps` push them to the group.
  run_packs :
      (n : ℕ) (ps : List ℕ) (group : Group k) (more : List Vector)
      → length ps ≤ n
      → length (positions k group) + length ps ≤ position_limit k
      → All IsPosition ps
      → (padded : Bool) × (run_vectors k (packs n ps ++ more) (parsing k group groups false)
          ≡ run_vectors k more (parsing k (push_positions k ps group) groups padded))
  unfolding run_vectors
  run_packs n [] group more h room real = (false, refl)
  run_packs zero (p ∷ ps) group more h room real = absurd (omega arith)
  run_packs (suc n) (p ∷ []) group more h room real =
      (true, rw (take_part (p ∷ []) 2 group refl (omega arith) room real) refl)
  run_packs (suc n) (p ∷ (q ∷ [])) group more h room real =
      (true, rw (take_part (p ∷ (q ∷ [])) 1 group refl (omega arith) room real) refl)
  run_packs (suc n) (p ∷ (q ∷ (r ∷ []))) group more h room real =
      (true, rw (take_part (p ∷ (q ∷ (r ∷ []))) 0 group refl (omega arith) room real) refl)
  run_packs (suc n) (p ∷ (q ∷ (r ∷ (s ∷ ps)))) group more h room (x, (y, (z, (w, real)))) =
      let four = p ∷ (q ∷ (r ∷ (s ∷ []))) in
      let full = take_full four group refl (omega arith) (x, (y, (z, (w, tt)))) in
      let (padded, rest) =
        run_packs n ps (push_positions k four group) more (omega arith)
          (omega (
            arith,
            length-push_position k p group,
            length-push_position k q (push_position k p group),
            length-push_position k r (push_position k q (push_position k p group)),
            length-push_position k s
                (push_position k r (push_position k q (push_position k p group))),
          ))
          real in
      (padded, rw full rest)

request_type-differs :
    (type : ℕ) → is_request_type type ≡ true → (type == msg_utreexo_proof_hash) ≡ false
unfolding is_request_type
request_type-differs type h = ground arith

-- The type of a group's first vector starts a group.
type_of-opens :
    (k : Kind) (group : Group k)
    → is_valid_type k group ≡ true
    → ((type_of k group == msg_utreexo_proof_hash) ≡ false)
      × (is_attachable k (type_of k group) ≡ true)
unfolding is_valid_type type_of is_attachable
type_of-opens announcements group h = (refl, refl)
type_of-opens requests group h = (request_type-differs group.inventory_type h, h)

rebuilt_announcement :
    (txid : Bytes) (ps qs : List ℕ)
    → push_positions announcements ps (record { txid = txid; confirmed_targets = qs })
      ≡ record { txid = txid; confirmed_targets = qs ++ ps }
unfolding push_position
rebuilt_announcement txid [] qs = rw append-nil refl
rebuilt_announcement txid (p ∷ ps) qs =
    rebuilt_announcement txid ps (qs ++ p ∷ [])
    ∙ ap (λ rs. record { txid = txid; confirmed_targets = rs }) (append_assoc qs (p ∷ []) ps)

rebuilt_request :
    (txid : Bytes) (type : ℕ) (ps qs : List ℕ)
    → push_positions requests ps
        (record { txid = txid; inventory_type = type; proof_positions = qs })
      ≡ record { txid = txid; inventory_type = type; proof_positions = qs ++ ps }
unfolding push_position
rebuilt_request txid type [] qs = rw append-nil refl
rebuilt_request txid type (p ∷ ps) qs =
    rebuilt_request txid type ps (qs ++ p ∷ [])
    ∙ ap (λ rs. record { txid = txid; inventory_type = type; proof_positions = rs })
        (append_assoc qs (p ∷ []) ps)

rebuilt :
    (k : Kind) (group : Group k)
    → push_positions k (positions k group) (new_group k (type_of k group) (txid_of k group)) ≡ group
unfolding positions new_group type_of txid_of
rebuilt announcements group = rebuilt_announcement group.txid group.confirmed_targets []
rebuilt requests group = rebuilt_request group.txid group.inventory_type group.proof_positions []

-- What the checks of `SerializeGroups` say of a group.
pub record IsWritten (k : Kind) (group : Group k) : Type 0 where
  pub valid : is_valid_type k group ≡ true
  pub room : length (positions k group) ≤ position_limit k
  pub real : All IsPosition (positions k group)

positions-new_group :
    (k : Kind) (type : ℕ) (hash : Bytes) → positions k (new_group k type hash) ≡ []
unfolding positions new_group
positions-new_group announcements type hash = refl
positions-new_group requests type hash = refl

run_group :
    (k : Kind) (group : Group k) (st : Parsing k) (more : List Vector)
    → IsWritten k group
    → (padded : Bool) × (run_vectors k (vectors_of k group ++ more) st
        ≡ run_vectors k more (parsing k group st.groups padded))
unfolding run_vectors take_vector vectors_of
run_group k group st more h =
    let (differs, opens) = type_of-opens k group h.valid in
    let ps = positions k group in
    let fresh = new_group k (type_of k group) (txid_of k group) in
    let none_yet : length (positions k fresh) ≡ 0 =
      ap (λ qs. length qs) (positions-new_group k (type_of k group) (txid_of k group)) in
    let (padded, run) =
      run_packs k st.groups (length ps) ps fresh more (omega arith) (omega (arith, h.room))
        h.real in
    (
      padded,
      rw (differs, opens)
          (run ∙ ap (λ g. run_vectors k more (parsing k g st.groups padded)) (rebuilt k group)),
    )

pub run_groups :
    (k : Kind) (groups : List (Group k)) (st : Parsing k)
    → All (IsWritten k) groups
    → (attachable : Bool) × (padded : Bool) × (run_vectors k (all_vectors k groups) st
        ≡ ok (record {
          groups = reverse groups ++ st.groups;
          attachable = attachable;
          padded = padded;
        }))
unfolding all_vectors run_vectors
run_groups k [] st h = (st.attachable, st.padded, refl)
run_groups k (group ∷ groups) st (h, later) =
    let (padded, first) = run_group k group st (all_vectors k groups) h in
    let (a, b, rest) = run_groups k groups (parsing k group st.groups padded) later in
    let turned : reverse (group ∷ groups) ++ st.groups ≡ reverse groups ++ (group ∷ st.groups) =
      ap (λ gs. gs ++ st.groups) (reverse-cons group groups)
      ∙ append_assoc (reverse groups) (group ∷ []) st.groups in
    (
      a,
      b,
      first
          ∙ rest
          ∙ ap (λ gs. ok (record { groups = gs; attachable = a; padded = b })) (sym turned),
    )
