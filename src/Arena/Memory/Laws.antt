-- ===== src/Arena/Memory/Laws.antt =====
-- The arena in RAM keeps the laws of `Arena`.
use utreexo_core_rpc.Common.{
  ℕ, suc, ◌+◌, ◌^◌, ◌%◌, ◌<◌, ◌≡◌, refl, sym, ap, dec_lt, ◌≢◌, inl, inr, true, arith, ==_iff, List,
  [], ◌∷◌, length, Among, Distinct,
}
use utreexo_core_rpc.Result.{Returns}
use utreexo_core_rpc.Arena.{
  no_node, NodeType, free, NodeRecord, fresh_record, ArenaOps, Allocated, Released, Updated,
  IsLawful,
}
use utreexo_core_rpc.Arena.Memory.{
  Memory, place, allocate_from, allocate, update, release, live, AllBelow, IsValid, IsAvailable,
  room,
}

abbrev pub memory : (H : Type 0) → ArenaOps H
memory H = record {
  Arena = Memory H;
  read = λ a. a.cell;
  update = update;
  allocate = allocate;
  release = release;
  live = live;
  IsValid = IsValid;
  IsAvailable = IsAvailable;
  room = room;
}

Among-lt : {i n : ℕ} (ids : List ℕ) → AllBelow n ids → Among i ids → i < n
Among-lt [] b m = elim m [ ]
Among-lt (x ∷ ids) b (inl e) = omega arith
Among-lt (x ∷ ids) b (inr m) = Among-lt ids b.1 m

AllBelow-next : (n : ℕ) (ids : List ℕ) → AllBelow n ids → AllBelow (n + 1) ids
AllBelow-next n [] b = tt
AllBelow-next n (x ∷ ids) b = (omega arith, AllBelow-next n ids b.1)

module _ {H : Type 0} where
  in_use : (a : Memory H) (i : ℕ) → ¬ IsAvailable a i → i < a.next
  in_use a i h = elim (dec_lt i a.next) [ yes p ↦ p | no p ↦ absurd (h (inl (omega arith))) ]

  updates :
      (i : ℕ) (f : NodeRecord H → NodeRecord H) (a : Memory H)
      → IsValid a
      → Updated (memory H) i f a (update i f a)
  unfolding update
  updates i f a v = record {
    reads = λ j. ground (arith, ==_iff i j);
    others = λ j m. m;
    valid = record { bounded = v.bounded; below = v.below; once = v.once; counted = v.counted };
    same_room = refl;
  }

  releases :
      (i : ℕ) (a : Memory H) → IsValid a → ¬ IsAvailable a i → Released (memory H) a i (release i a)
  unfolding release
  releases i a v h = record {
    returned = inr (inl refl);
    reads = λ j e. ground (arith, ==_iff i j);
    others = λ j m. elim m [
      | inl p ↦ inr (inl p)
      | inr m' ↦ elim m' [ inl e ↦ inl (sym e) | inr m'' ↦ inr (inr m'') ]
    ];
    valid = record {
      bounded = v.bounded;
      below = (in_use a i h, v.below);
      once = (λ m. h (inr m), v.once);
      counted = omega arith;
    };
    more_room = omega arith;
  }

  lives :
      (a : Memory H) (i : ℕ)
      → IsValid a
      → ¬ IsAvailable a i
      → (a.cell i).type ≢ free
      → live a i ≡ true
  unfolding live
  lives a i v h t = ground (arith, in_use a i h)

  allocates_from :
      (ids : List ℕ) (r : NodeRecord H) (a : Memory H)
      → a.free_ids ≡ ids
      → IsValid a
      → 0 < room a
      → Returns (allocate_from ids r a) λ p. Allocated (memory H) r a p.0 p.1
  unfolding allocate_from
  allocates_from (i ∷ ids) r a e v h =
      let below : AllBelow a.next (i ∷ ids) = rw e at v.below in
      let once : Distinct (i ∷ ids) = rw e at v.once in
      let counted : (a.live_count + suc (length ids)) % 2 ^ 64 ≡ a.next = rw e at v.counted in
      (
        _,
        refl,
        record {
          fresh = rw e (inr (inl refl));
          taken = λ m. elim m [ inl p ↦ absurd (omega arith) | inr m' ↦ once.0 m' ];
          small = omega arith;
          reads = λ j. refl;
          others = λ j m. elim m [ inl p ↦ inl p | inr m' ↦ rw e (inr (inr m')) ];
          valid = record {
            bounded = v.bounded;
            below = below.1;
            once = once.1;
            counted = omega arith;
          };
          less_room = rw e (omega arith);
        },
      )
  allocates_from [] r a e v h =
      let none_free = ap length e in
      let smaller : a.next < no_node = omega arith in
      (
        place a.next r (record a { next = a.next + 1 }),
        ground arith,
        record {
          fresh = inl (omega arith);
          taken =
              λ m. elim m [ inl p ↦ omega arith | inr m' ↦ omega (arith, Among-lt _ v.below m') ];
          small = omega arith;
          reads = λ j. refl;
          others = λ j m. elim m [ inl p ↦ inl (omega arith) | inr m' ↦ inr m' ];
          valid = record {
            bounded = omega arith;
            below = AllBelow-next _ _ v.below;
            once = v.once;
            counted = omega arith;
          };
          less_room = omega arith;
        },
      )

  allocates :
      (type : NodeType) (hash : H) (left right : ℕ) (a : Memory H)
      → IsValid a
      → 0 < room a
      → Returns
          (allocate type hash left right a)
          λ p. Allocated (memory H) (fresh_record type hash left right) a p.0 p.1
  unfolding allocate
  allocates type hash left right a v h = allocates_from a.free_ids _ a refl v h

-- The arena in memory keeps its contract on every valid arena: allocation gives a free id below
-- `NO_NODE`, writes just its record and succeeds as long as ids are left; release makes just that id
-- free again; an update changes one record; a record in use that is not free is live.
pub memory-IsLawful : (H : Type 0) → IsLawful (memory H)
memory-IsLawful H = record {
  allocates = allocates;
  releases = releases;
  updates = updates;
  lives = lives;
}
