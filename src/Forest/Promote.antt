-- ===== src/Forest/Promote.antt =====
-- The sibling of a deleted leaf takes the place of their parent.
use utreexo_core_rpc.Common.{ℕ, ◌<◌, inl, inr, ◌≡◌, ◌≢◌, refl, sym, subst, arith}
use utreexo_core_rpc.Result.{ok}
use utreexo_core_rpc.Arena.{no_node, ArenaOps, IsLawful, set_parent, set_left, set_right}
use utreexo_core_rpc.Forest.{IndexOps, relink, recompute}
use utreexo_core_rpc.Forest.Tree.{
  Tree, id_of, Context, top, left_of, right_of, parent_of, plug, In, In-root, In-plug, plug-In,
  InContext, IsDistinctContext, plug-IsDistinct, depth,
}
use utreexo_core_rpc.Forest.Represents.{
  Represents, Represents-frame, Represents-reparent, Linked, Linked-frame,
}
use utreexo_core_rpc.Forest.Recompute.{
  Changed, Changed-trans, Updated-Changed, Nodes, recompute-Represents,
}
use utreexo_core_rpc.Forest.Release.{Replaced}
use utreexo_core_rpc.Forest.Pair.{Pair}

module _ {H : Type 0} (parent_hash : H → H → H) (ops : ArenaOps H) (ix : IndexOps ops)
    (lawful : IsLawful ops) where
  open ops use {Arena, read, IsValid, IsAvailable, room}

  -- The grandparent `g`, at the end of the context, has another child in the hole.
  pub record Relinked (p g x : ℕ) (c : Context H) (a : Arena) (a' : Arena) : Type 0 where
    pub run : relink parent_hash ops ix p x g a ≡ ok a'
    pub linked : Linked parent_hash (read a') x c
    pub changed : Changed parent_hash ops ix lawful (λ j. g ≡ j) a a'

  module _ (p g x : ℕ) (c : Context H) (u : Tree H) (a : Arena) (v : IsValid a) (g_u : ¬ In g u)
      (g_c : ¬ InContext g c) where
    left-Relinked :
        Linked parent_hash (read a) p (left_of g c u)
        → Relinked p g x (left_of g c u) a (set_left ops g x a)
    unfolding relink
    left-Relinked (r, below, above) =
        let ch = Updated-Changed parent_hash ops ix lawful g (λ r. record r { left = x }) a v in
        let e : read (set_left ops g x a) g ≡ record (read a g) { left = x } =
          ground (arith, (lawful.updates g (λ r. record r { left = x }) a v).reads g) in
        record {
          run = ground (arith, r.left_eq);
          linked = (
            rw e (record {
              parent_eq = r.parent_eq;
              left_eq = refl;
              right_eq = r.right_eq;
              type_eq = r.type_eq;
            }),
            Represents-frame parent_hash g u
                (λ j m. ch.frame j (λ y. g_u (subst (λ z. In z u) (sym y) m))) below,
            Linked-frame parent_hash g c
                (λ j m. ch.frame j (λ y. g_c (subst (λ z. InContext z c) (sym y) m))) above,
          );
          changed = ch;
        }

    right-Relinked :
        id_of u ≢ p
        → Linked parent_hash (read a) p (right_of g u c)
        → Relinked p g x (right_of g u c) a (set_right ops g x a)
    unfolding relink
    right-Relinked other (r, below, above) =
        let ch = Updated-Changed parent_hash ops ix lawful g (λ r. record r { right = x }) a v in
        let e : read (set_right ops g x a) g ≡ record (read a g) { right = x } =
          ground (arith, (lawful.updates g (λ r. record r { right = x }) a v).reads g) in
        record {
          run = ground (arith, r.left_eq, r.right_eq);
          linked = (
            rw e (record {
              parent_eq = r.parent_eq;
              left_eq = r.left_eq;
              right_eq = refl;
              type_eq = r.type_eq;
            }),
            Represents-frame parent_hash g u
                (λ j m. ch.frame j (λ y. g_u (subst (λ z. In z u) (sym y) m))) below,
            Linked-frame parent_hash g c
                (λ j m. ch.frame j (λ y. g_c (subst (λ z. InContext z c) (sym y) m))) above,
          );
          changed = ch;
        }

  pub relinks :
      (p x : ℕ) (c : Context H) (a : Arena)
      → IsValid a
      → c ≢ top
      → IsDistinctContext c
      → ¬ InContext p c
      → Linked parent_hash (read a) p c
      → (a' : Arena) × Relinked p (parent_of c) x c a a'
  relinks p x top a v n d away k = absurd (n refl)
  relinks p x (left_of g c u) a v n d away k = (_, left-Relinked p g x c u a v d.0 d.1 k)
  relinks p x (right_of g u c) a v n d away k = (
    _,
    right-Relinked p g x c u a v d.0 d.1 (λ e. away (inr (inl (subst (λ y. In y u) e (In-root u)))))
        k,
  )

  pub parent_of-In : (c : Context H) → c ≢ top → InContext (parent_of c) c
  parent_of-In top n = absurd (n refl)
  parent_of-In (left_of g c u) n = inl refl
  parent_of-In (right_of g u c) n = inl refl

  module _ {a : Arena} (val : IsValid a) {old : Tree H} {i p : ℕ} {v : H} {s : Tree H} where
    id-In :
        {c : Context H}
        → Pair parent_hash ops a old i p v s c
        → (j : ℕ) → id_of s ≡ j
        → In j (plug c s)
    id-In {c} pr j x = plug-In j c s (inl (subst (λ y. In y s) x (In-root s)))

    inside :
        {c : Context H}
        → Pair parent_hash ops a old i p v s c
        → (j : ℕ) → In j (plug c s)
        → In j old × (i ≢ j) × (p ≢ j)
    inside {c} pr j m = (pr.kept j m, neither i pr.i_s pr.i_c, neither p pr.p_s pr.p_c)
      where
        neither : (q : ℕ) → ¬ In q s → ¬ InContext q c → q ≢ j
        neither q qs qc x = elim (In-plug q c s (subst (λ y. In y (plug c s)) (sym x) m)) [
          | inl k ↦ qs k
          | inr k ↦ qc k
        ]

    -- The parent was the root: the sibling becomes the root.
    pub root-Replaced :
        Pair parent_hash ops a old i p v s top
        → Replaced parent_hash ops lawful a (set_parent ops (id_of s) no_node a) old s i p
    root-Replaced pr =
        let ch =
          Updated-Changed parent_hash ops ix lawful (id_of s) (λ r. record r { parent = no_node }) a
            val in
        record {
          frame = λ j n. ch.frame j (λ x. n (pr.kept j (id-In pr j x)));
          others = ch.others;
          valid = ch.valid;
          same_room = ch.same_room;
          built =
              Represents-reparent parent_hash (read a) (read (set_parent ops (id_of s) no_node a)) p
                no_node s pr.split.inner
                (λ j m.
                  (lawful.updates (id_of s) (λ r. record r { parent = no_node }) a val).reads j)
                pr.below;
          distinct = pr.split.inner;
          inside = inside pr;
        }

    -- Below a grandparent: the sibling becomes its child, and the hashes above are recomputed.
    module _ {c : Context H} (n : c ≢ top) (pr : Pair parent_hash ops a old i p v s c) {a₁ : Arena}
        (re : Relinked p (parent_of c) (id_of s) c a a₁) where
      abbrev reparented : Arena
      reparented = set_parent ops (id_of s) (parent_of c) a₁

      moved : Changed parent_hash ops ix lawful (λ j. id_of s ≡ j) a₁ reparented
      moved =
          Updated-Changed parent_hash ops ix lawful (id_of s)
            (λ r. record r { parent = parent_of c }) a₁ re.changed.valid

      sibling_built : Represents parent_hash (read reparented) (parent_of c) s
      sibling_built =
          Represents-reparent parent_hash (read a₁) (read reparented) p (parent_of c) s
            pr.split.inner
            (λ j m.
              (lawful.updates (id_of s) (λ r. record r { parent = parent_of c }) a₁
                  re.changed.valid).reads
                j)
            (Represents-frame parent_hash p s
              (λ j m.
                re.changed.frame j
                  (λ x. pr.split.apart j m (subst (λ y. InContext y c) x (parent_of-In c n))))
              pr.below)

      context-Linked : Linked parent_hash (read reparented) (id_of s) c
      context-Linked =
          Linked-frame parent_hash (id_of s) c
            (λ j m. moved.frame j (λ x. pr.split.apart j (subst (λ y. In y s) x (In-root s)) m))
            re.linked

      pub inner-Replaced :
          Nodes parent_hash ops ix lawful c
          → depth c < 64
          → Replaced parent_hash ops lawful a
              (recompute parent_hash ops ix 64 (parent_of c) reparented)
              old
              (plug c s)
              i
              p
      inner-Replaced nodes short =
          let (done, ch) =
            recompute-Represents parent_hash ops ix lawful 64 c s reparented short moved.valid nodes
              pr.split context-Linked sibling_built in
          let all =
            Changed-trans parent_hash ops ix lawful (λ j. parent_of c ≡ j) (λ j. In j (plug c s))
              (λ j. In j (plug c s))
              (λ j x. plug-In j c s (inr (subst (λ y. InContext y c) x (parent_of-In c n))))
              (λ j m. m) re.changed
              (Changed-trans parent_hash ops ix lawful (λ j. id_of s ≡ j) (λ j. InContext j c)
                (λ j. In j (plug c s)) (id-In pr) (λ j m. plug-In j c s (inr m)) moved ch) in
          record {
            frame = λ j m. all.frame j (λ k. m (pr.kept j k));
            others = all.others;
            valid = all.valid;
            same_room = all.same_room;
            built = done;
            distinct = plug-IsDistinct c s pr.split;
            inside = inside pr;
          }
