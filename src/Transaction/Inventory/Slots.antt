-- ===== src/Transaction/Inventory/Slots.antt =====
-- The slots of a packed hash, as the positions that they hold.
use utreexo_core_rpc.Common.{
  ℕ, ◌+◌, ◌^◌, ◌<◌, ◌≡◌, ◌≢◌, refl, ap, ◌∙◌, arith, Bool, true, false, List, [], ◌∷◌, ◌++◌, ◌==◌,
  leb, All, length, length-append, append_assoc,
}
use mathlib.Core.Path.{fun_ext}
use utreexo_core_rpc.Result.{Result, ok, ◌>>=◌}
use utreexo_core_rpc.Wire.Bytes.{Bytes, little_endian}
use utreexo_core_rpc.Wire.Reader.{Reader, advance, rest}
use utreexo_core_rpc.Wire.Reader.Next.{read_le-next}
use utreexo_core_rpc.Transaction.{padding}
use utreexo_core_rpc.Transaction.Inventory.{
  Kind, announcements, requests, Group, positions, position_limit, push_position, Parsing,
  add_position, take_slot, slot_loop,
}

abbrev pub long_list : List ℕ → Bytes
long_list [] = []
long_list (v ∷ vs) = little_endian 8 v ++ long_list vs

-- The effect of slots that hold the positions `vs`.
unfoldable pub run_slots : (k : Kind) → ℕ → List ℕ → Parsing k → Result (Parsing k)
run_slots k slot [] st = ok st
run_slots k slot (v ∷ vs) st = do st' ← take_slot k slot v st; run_slots k (slot + 1) vs st'

pub slot_loop-run :
    (k : Kind) (slot : ℕ) (vs : List ℕ) (packed : Reader) (tail : Bytes) (st : Parsing k)
    → rest packed ≡ long_list vs ++ tail
    → All (λ v. v < 2 ^ 64) vs
    → slot_loop k (length vs) slot packed st ≡ run_slots k slot vs st
unfolding slot_loop run_slots
slot_loop-run k slot [] packed tail st h fits = refl
slot_loop-run k slot (v ∷ vs) packed tail st h (fits, later) =
    let (reads, behind) =
      read_le-next 8 v packed (long_list vs ++ tail)
        (h ∙ append_assoc (little_endian 8 v) (long_list vs) tail) fits in
    rw reads (
      ap (λ f. take_slot k slot v st >>= f)
        (fun_ext (λ st'. slot_loop-run k (slot + 1) vs (advance 8 packed) tail st' behind later)))

-- A group to which positions have been pushed.
abbrev pub push_positions : (k : Kind) → List ℕ → Group k → Group k
push_positions k [] group = group
push_positions k (p ∷ ps) group = push_positions k ps (push_position k p group)

pub length-push_position :
    (k : Kind) (p : ℕ) (group : Group k)
    → length (positions k (push_position k p group)) ≡ length (positions k group) + 1
unfolding positions push_position
length-push_position announcements p group = length-append group.confirmed_targets (p ∷ [])
length-push_position requests p group = length-append group.proof_positions (p ∷ [])

abbrev pub parsing : (k : Kind) → Group k → List (Group k) → Bool → Parsing k
parsing k group groups padded = record {
  groups = group ∷ groups;
  attachable = true;
  padded = padded;
}

module _ (k : Kind) (slot p : ℕ) (group : Group k) (groups : List (Group k)) where
  pub take_slot-position :
      p ≢ padding
      → length (positions k group) < position_limit k
      → take_slot k slot p (parsing k group groups false)
        ≡ ok (parsing k (push_position k p group) groups false)
  unfolding take_slot add_position
  take_slot-position real room =
      let e : (p == padding) ≡ false = ground arith in
      let n : leb (position_limit k) (length (positions k group)) ≡ false = ground arith in
      rw (e, n) refl

pub take_slot-padding :
    (k : Kind) (slot : ℕ) (group : Group k) (groups : List (Group k)) (padded : Bool)
    → 0 < slot
    → take_slot k slot padding (parsing k group groups padded) ≡ ok (parsing k group groups true)
unfolding take_slot
take_slot-padding k slot group groups padded h =
    let e : (slot == 0) ≡ false = ground arith in rw e refl
