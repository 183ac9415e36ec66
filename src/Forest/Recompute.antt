-- ===== src/Forest/Recompute.antt =====
-- `Recompute` brings the hashes up to date from a node to its root.
use utreexo_core_rpc.Common.{
  ℕ, zero, suc, ◌<◌, inl, inr, ◌≡◌, ◌≢◌, refl, sym, subst, ◌∙◌, arith, ◌==◌, false,
}
use utreexo_core_rpc.Arena.{no_node, NodeRecord, ArenaOps, IsLawful, set_hash}
use utreexo_core_rpc.Forest.{IndexOps, recompute}
use utreexo_core_rpc.Forest.Tree.{
  Tree, branch_at, Context, top, left_of, right_of, id_of, parent_of, plug, In, InContext, IsSplit,
  IsSplit-left, IsSplit-right, depth,
}
use utreexo_core_rpc.Forest.Represents.{
  IsBranchRecord, hash_of, Represents, Represents-hash, Represents-frame, Linked, Linked-frame,
}

module _ {H : Type 0} (parent_hash : H → H → H) (ops : ArenaOps H) (ix : IndexOps ops)
    (lawful : IsLawful ops) where
  open ops use {Arena, read, IsValid, IsAvailable, room}

  -- An arena after changes to some records: those named by `P`.
  pub record Changed (P : ℕ → Type 0) (a a' : Arena) : Type 0 where
    pub frame : (j : ℕ) → ¬ P j → read a' j ≡ read a j
    pub others : (j : ℕ) → IsAvailable a' j → IsAvailable a j
    pub valid : IsValid a'
    pub same_room : room a' ≡ room a

  abbrev pub Nodes : Context H → Type 0
  Nodes c = (j : ℕ) → InContext j c → j ≢ no_node

  pub Changed-trans :
      (P Q R : ℕ → Type 0) {a b c : Arena}
      → ((j : ℕ) → P j → R j)
      → ((j : ℕ) → Q j → R j)
      → Changed P a b
      → Changed Q b c
      → Changed R a c
  Changed-trans P Q R p q h k = record {
    frame = λ j n. k.frame j (λ m. n (q j m)) ∙ h.frame j (λ m. n (p j m));
    others = λ j m. h.others j (k.others j m);
    valid = k.valid;
    same_room = k.same_room ∙ h.same_room;
  }

  pub Updated-Changed :
      (i : ℕ) (f : NodeRecord H → NodeRecord H) (a : Arena)
      → IsValid a
      → Changed (λ j. i ≡ j) a (ops.update i f a)
  Updated-Changed i f a v =
      let u = lawful.updates i f a v in
      record {
        frame = λ j n. ground (arith, u.reads j);
        others = u.others;
        valid = u.valid;
        same_room = u.same_room;
      }

  -- One round of the loop, at a branch between its two children and the rest of the way.
  record Round (i : ℕ) (c : Context H) (l r : Tree H) (a a' : Arena) : Type 0 where
    built : Represents parent_hash (read a') (parent_of c) (branch_at i l r)
    above : Linked parent_hash (read a') i c
    changed : Changed (λ j. i ≡ j) a a'

  module _ (i : ℕ) (c : Context H) (l r : Tree H) (a : Arena) (v : IsValid a)
      (b : IsBranchRecord (read a i) (parent_of c) (id_of l) (id_of r))
      (hl : Represents parent_hash (read a) i l) (hr : Represents parent_hash (read a) i r) where
    abbrev after : Arena
    after = set_hash ops i (parent_hash (hash_of parent_hash l) (hash_of parent_hash r)) a

    step-Round :
        (¬ In i l)
        → (¬ In i r)
        → (¬ InContext i c)
        → Linked parent_hash (read a) i c
        → Round i c l r a after
    step-Round il ir ic k =
        let ch =
          Updated-Changed i
            (λ x. record x { hash = parent_hash (hash_of parent_hash l) (hash_of parent_hash r) }) a
            v in
        let u =
          lawful.updates i
            (λ x. record x { hash = parent_hash (hash_of parent_hash l) (hash_of parent_hash r) }) a
            v in
        let e : read after i ≡ record (read a i) {
          hash = parent_hash (hash_of parent_hash l) (hash_of parent_hash r);
        } =
          ground (arith, u.reads i) in
        record {
          built = (
            rw e (record {
              parent_eq = b.parent_eq;
              left_eq = b.left_eq;
              right_eq = b.right_eq;
              type_eq = b.type_eq;
            }),
            rw e refl,
            Represents-frame parent_hash i l
                (λ j m. ch.frame j (λ x. il (subst (λ y. In y l) (sym x) m))) hl,
            Represents-frame parent_hash i r
                (λ j m. ch.frame j (λ x. ir (subst (λ y. In y r) (sym x) m))) hr,
          );
          above =
              Linked-frame parent_hash i c
                (λ j m. ch.frame j (λ x. ic (subst (λ y. InContext y c) (sym x) m))) k;
          changed = ch;
        }

    recompute-round :
        (fuel : ℕ)
        → i ≢ no_node
        → recompute parent_hash ops ix (suc fuel) i a
          ≡ recompute parent_hash ops ix fuel (parent_of c) after
    unfolding recompute
    recompute-round fuel n =
        let el = Represents-hash parent_hash (read a) i l hl in
        let er = Represents-hash parent_hash (read a) i r hr in
        let e : (i == no_node) ≡ false = ground arith in
        rw (e, b.left_eq, b.right_eq, b.parent_eq, el, er)

  recompute-no_node : (fuel : ℕ) (a : Arena) → recompute parent_hash ops ix (suc fuel) no_node a ≡ a
  unfolding recompute
  recompute-no_node fuel a = refl

  -- Let the nodes of a context be linked, their hashes perhaps stale, and let a tree whose records
  -- are in order stand in its hole. If the context is no deeper than the fuel, then `Recompute` from
  -- the parent of that tree leaves the whole tree in order, with all its hashes right, and it has
  -- changed only records of the context, neither the bookkeeping of the arena nor its room.
  pub recompute-Represents :
      (fuel : ℕ) (c : Context H) (t : Tree H) (a : Arena)
      → depth c < fuel
      → IsValid a
      → Nodes c
      → IsSplit c t
      → Linked parent_hash (read a) (id_of t) c
      → Represents parent_hash (read a) (parent_of c) t
      → let a' = recompute parent_hash ops ix fuel (parent_of c) a in
        Represents parent_hash (read a') no_node (plug c t) × Changed (λ j. InContext j c) a a'
  recompute-Represents zero c t a room_left v nodes split k h = absurd (omega arith)
  recompute-Represents (suc fuel) top t a room_left v nodes split k h =
      rw (recompute-no_node fuel a)
        (h, record { frame = λ j m. refl; others = λ j m. m; valid = v; same_room = refl })
  recompute-Represents (suc fuel) (left_of i c s) t a room_left v nodes split (b, hs, k) h =
      let (is, ic, _, _, _) = split.outer in
      let it = λ (m : In i t). split.apart i m (inl refl) in
      let round = step-Round i c t s a v b h hs it is ic k in
      let (done, changed) =
        recompute-Represents fuel c (branch_at i t s) (after i c t s a v b h hs) (omega arith)
          round.changed.valid (λ j m. nodes j (inr (inr m))) (IsSplit-left i c s t split)
          round.above round.built in
      rw (recompute-round i c t s a v b h hs fuel (nodes i (inl refl))) (
        done,
        Changed-trans (λ j. i ≡ j) (λ j. InContext j c) _ (λ j e. inl e) (λ j m. inr (inr m))
            round.changed changed,
      )
  recompute-Represents (suc fuel) (right_of i s c) t a room_left v nodes split (b, hs, k) h =
      let (is, ic, _, _, _) = split.outer in
      let it = λ (m : In i t). split.apart i m (inl refl) in
      let round = step-Round i c s t a v b hs h is it ic k in
      let (done, changed) =
        recompute-Represents fuel c (branch_at i s t) (after i c s t a v b hs h) (omega arith)
          round.changed.valid (λ j m. nodes j (inr (inr m))) (IsSplit-right i s c t split)
          round.above round.built in
      rw (recompute-round i c s t a v b hs h fuel (nodes i (inl refl))) (
        done,
        Changed-trans (λ j. i ≡ j) (λ j. InContext j c) _ (λ j e. inl e) (λ j m. inr (inr m))
            round.changed changed,
      )
