-- ===== src/Arena/Memory.antt =====
-- `NodeArena` of src/forest.cpp before a forest goes online (`m_mapped` is false). The chunks of
-- structure-of-arrays storage are one function from ids to records, which a fresh chunk fills with
-- free records; `m_next` bounds the ids in use, and the back of the vector `m_free` is the list's head.
pub mod Laws
use utreexo_core_rpc.Common.{
  ℕ, suc, ◌+◌, ◌-◌, ◌^◌, ◌%◌, ◌≤◌, ◌<◌, ◌≡◌, refl, ◌≢◌, ◌⊎◌, inl, inr, Bool, true, false, ◌&&◌,
  if◌then◌else◌, ◌==◌, ltb, arith, ==_iff, List, [], ◌∷◌, length, Among, Distinct,
}
use utreexo_core_rpc.Result.{Result, ok, thrown, Returns}
use utreexo_core_rpc.Arena.{
  no_node, NodeType, free, leaf, branch, NodeRecord, fresh_record, ArenaOps, Allocated, Released,
  Updated, IsLawful,
}

pub record Memory (H : Type 0) : Type 0 where
  pub cell : ℕ → NodeRecord H
  pub next : ℕ
  pub free_ids : List ℕ
  pub live_count : ℕ

-- A new arena, given the hash of 32 zero bytes.
unfoldable pub empty : {H : Type 0} → H → Memory H
empty zero_hash = record {
  cell = λ i. fresh_record free zero_hash no_node no_node;
  next = 0;
  free_ids = [];
  live_count = 0;
}

abbrev is_free : NodeType → Bool
is_free free = true
is_free _ = false

abbrev pub AllBelow : ℕ → List ℕ → Type 0
AllBelow n [] = Unit
AllBelow n (i ∷ ids) = (i < n) × AllBelow n ids

module _ {H : Type 0} where
  -- `Write`, and the assignment to a field through `Get`
  abbrev write : ℕ → NodeRecord H → (ℕ → NodeRecord H) → ℕ → NodeRecord H
  write i r cell j = if i == j then r else cell j

  unfoldable pub update : ℕ → (NodeRecord H → NodeRecord H) → Memory H → Memory H
  update i f a = record a { cell = write i (f (a.cell i)) a.cell }

  place : ℕ → NodeRecord H → Memory H → ℕ × Memory H
  place i r a = (i, record a { cell = write i r a.cell; live_count = (a.live_count + 1) % 2 ^ 64 })

  allocate_from : List ℕ → NodeRecord H → Memory H → Result (ℕ × Memory H)
  unfolding place
  allocate_from (i ∷ ids) r a = ok (place i r (record a { free_ids = ids }))
  allocate_from [] r a =
      if a.next == no_node
      then thrown "packed forest exhausted 32-bit node IDs"
      else ok (place a.next r (record a { next = a.next + 1 }))

  unfoldable pub allocate : NodeType → H → ℕ → ℕ → Memory H → Result (ℕ × Memory H)
  unfolding allocate_from
  allocate type hash left right a = allocate_from a.free_ids (fresh_record type hash left right) a

  unfoldable pub release : ℕ → Memory H → Memory H
  release i a =
      let r = record (a.cell i) {
        parent = no_node;
        left = no_node;
        right = no_node;
        type = free;
      } in
      record a {
        cell = write i r a.cell;
        free_ids = i ∷ a.free_ids;
        live_count = (a.live_count + 2 ^ 64 - 1) % 2 ^ 64;
      }

  unfoldable pub live : Memory H → ℕ → Bool
  live a i = ltb i a.next && (if is_free (a.cell i).type then false else true)

  -- Free ids are in use and stand once on the stack, and the live count leaves out just these.
  pub record IsValid (a : Memory H) : Type 0 where
    pub bounded : a.next ≤ no_node
    pub below : AllBelow a.next a.free_ids
    pub once : Distinct a.free_ids
    pub counted : (a.live_count + length a.free_ids) % 2 ^ 64 ≡ a.next

  abbrev pub IsAvailable : Memory H → ℕ → Type 0
  IsAvailable a i = (a.next ≤ i) ⊎ Among i a.free_ids

  abbrev pub room : Memory H → ℕ
  room a = length a.free_ids + (no_node - a.next)
