-- ===== src/Arena.antt =====
-- The node arena of src/forest.cpp as its clients see it: records under 32-bit node ids, with
-- allocation and release. `Memory` is the arena that a forest in RAM uses.
pub mod Memory
use utreexo_core_rpc.Common.{ℕ, suc, ◌-◌, ◌^◌, ◌<◌, ◌≡◌, ◌≢◌, ◌⊎◌, Bool, true, if◌then◌else◌, ◌==◌}
use utreexo_core_rpc.Result.{Result, Returns}

-- `NO_NODE`.
abbrev pub no_node : ℕ
no_node = 2 ^ 32 - 1

pub data NodeType : Type 0 where
  free leaf branch : NodeType

pub record NodeRecord (H : Type 0) : Type 0 where
  pub hash : H
  pub parent : ℕ
  pub left : ℕ
  pub right : ℕ
  pub type : NodeType

-- The record that `Allocate` writes.
abbrev pub fresh_record : {H : Type 0} → NodeType → H → ℕ → ℕ → NodeRecord H
fresh_record type hash left right = record {
  hash = hash;
  parent = no_node;
  left = left;
  right = right;
  type = type;
}

-- What the forest uses of an arena.
pub record ArenaOps (H : Type 0) : Type 1 where
  pub Arena : Type 0
  pub read : Arena → ℕ → NodeRecord H
  pub update : ℕ → (NodeRecord H → NodeRecord H) → Arena → Arena
  pub allocate : NodeType → H → ℕ → ℕ → Arena → Result (ℕ × Arena)
  pub release : ℕ → Arena → Arena
  pub live : Arena → ℕ → Bool
  -- the bookkeeping is in order
  pub IsValid : Arena → Type 0
  -- no client holds the id
  pub IsAvailable : Arena → ℕ → Type 0
  -- how many allocations are sure to succeed
  pub room : Arena → ℕ

module _ {H : Type 0} (ops : ArenaOps H) where
  open ops use {Arena, read, update, allocate, release, live, IsValid, IsAvailable, room}

  -- `SetHash`, `SetParent`, `SetLeft`, `SetRight`
  abbrev pub set_hash : ℕ → H → Arena → Arena
  set_hash i value = update i (λ r. record r { hash = value })

  abbrev pub set_parent : ℕ → ℕ → Arena → Arena
  set_parent i value = update i (λ r. record r { parent = value })

  abbrev pub set_left : ℕ → ℕ → Arena → Arena
  set_left i value = update i (λ r. record r { left = value })

  abbrev pub set_right : ℕ → ℕ → Arena → Arena
  set_right i value = update i (λ r. record r { right = value })

  -- `Allocate` on the arena `a` gave the id `i` and the arena `a'`.
  pub record Allocated (r : NodeRecord H) (a : Arena) (i : ℕ) (a' : Arena) : Type 0 where
    pub fresh : IsAvailable a i
    pub taken : ¬ IsAvailable a' i
    pub small : i < no_node
    pub reads : (j : ℕ) → read a' j ≡ (if i == j then r else read a j)
    pub others : (j : ℕ) → IsAvailable a' j → IsAvailable a j
    pub valid : IsValid a'
    pub less_room : room a ≡ suc (room a')

  pub record Released (a : Arena) (i : ℕ) (a' : Arena) : Type 0 where
    pub returned : IsAvailable a' i
    pub reads : (j : ℕ) → i ≢ j → read a' j ≡ read a j
    pub others : (j : ℕ) → IsAvailable a' j → (i ≡ j) ⊎ IsAvailable a j
    pub valid : IsValid a'
    pub more_room : room a' ≡ suc (room a)

  pub record Updated (i : ℕ) (f : NodeRecord H → NodeRecord H) (a a' : Arena) : Type 0 where
    pub reads : (j : ℕ) → read a' j ≡ (if i == j then f (read a j) else read a j)
    pub others : (j : ℕ) → IsAvailable a' j → IsAvailable a j
    pub valid : IsValid a'
    pub same_room : room a' ≡ room a

  -- The laws that the forest relies on.
  pub record IsLawful : Type 0 where
    pub allocates :
        (type : NodeType) (hash : H) (left right : ℕ) (a : Arena)
        → IsValid a
        → 0 < room a
        → Returns
            (allocate type hash left right a)
            λ p. Allocated (fresh_record type hash left right) a p.0 p.1
    pub releases : (i : ℕ) (a : Arena) → IsValid a → ¬ IsAvailable a i → Released a i (release i a)
    pub updates :
        (i : ℕ) (f : NodeRecord H → NodeRecord H) (a : Arena)
        → IsValid a
        → Updated i f a (update i f a)
    pub lives :
        (a : Arena) (i : ℕ)
        → IsValid a
        → ¬ IsAvailable a i
        → (read a i).type ≢ free
        → live a i ≡ true
