-- ===== src/Forest/Delete.antt =====
-- `DeleteId`: a forest stays one, and loses just the leaf.
use mathlib.Core.Path.{fun_ext}
use utreexo_core_rpc.Common.{
  ℕ, ◌≤◌, ◌<◌, inl, inr, ◌≡◌, ◌≢◌, refl, sym, subst, ◌∙◌, arith, Option, none, some, if◌then◌else◌,
  ◌==◌, ==_iff, true, false, ℕ_discrete,
}
use utreexo_core_rpc.Result.{ok, Returns}
use utreexo_core_rpc.Arena.{no_node, free, leaf, ArenaOps, IsLawful, Released, set_parent}
use utreexo_core_rpc.Forest.{
  IndexOps, Forest, is_leaf, drop_pair, promote_to_root, promote, delete_root, delete_id,
  write_root, find_root, relink, recompute,
}
use utreexo_core_rpc.Forest.Tree.{
  Tree, leaf_at, branch_at, Context, top, left_of, right_of, id_of, parent_of, plug, In, plug-In,
  height,
}
use utreexo_core_rpc.Forest.Stands.{Rows, put, kept, Stands, Stands-frame, Stands-clear}
use utreexo_core_rpc.Forest.Add.{IsForest}
use utreexo_core_rpc.Forest.Shapes.{bit_at}
use utreexo_core_rpc.Forest.Find.{row-lt, find_root-row}
use utreexo_core_rpc.Forest.Release.{Replaced, release-Stands, release-room}
use utreexo_core_rpc.Forest.Recompute.{Nodes}
use utreexo_core_rpc.Forest.Pair.{Pair, left-Pair, right-Pair}
use utreexo_core_rpc.Forest.Promote.{parent_of-In, relinks, root-Replaced, inner-Replaced}

-- What is left of a tree without the leaf at the end of the context: the sibling moves up.
abbrev pub remains : {H : Type 0} → Context H → Option (Tree H)
remains top = none
remains (left_of p c s) = some (plug c s)
remains (right_of p s c) = some (plug c s)

other_node : (g : ℕ) → g ≢ no_node → (g == no_node) ≡ false
other_node g n = ground arith

write_root-same :
    (row node : ℕ) (roots : ℕ → ℕ) → roots row ≡ node → roots ≡ write_root row node roots
write_root-same row node roots e = fun_ext λ q. ground (arith, ==_iff row q)

module _ {H : Type 0} (parent_hash : H → H → H) (ops : ArenaOps H) (ix : IndexOps ops) where
  open ops use {Arena, read, IsValid, IsAvailable, room}

  -- The forest after `DeleteId` of a leaf in that row and context.
  pub record Deleted (f : Forest parent_hash ops ix) (ts : Rows H) (row : ℕ) (c : Context H)
      (f' : Forest parent_hash ops ix) : Type 0 where
    pub forest : IsForest parent_hash ops ix f' (put row (remains c) ts)
    pub count : f'.num_leaves ≡ f.num_leaves
    pub more_room : room f.arena < room f'.arena

  module _ (lawful : IsLawful ops) {f : Forest parent_hash ops ix} {ts : Rows H}
      (h : IsForest parent_hash ops ix f ts) (row : ℕ) where
    lone_Released :
        (i : ℕ) (v : H)
        → ts row ≡ some (leaf_at i v)
        → Released ops f.arena i (ops.release i f.arena)
    lone_Released i v e =
        lawful.releases i f.arena h.stands.valid (h.stands.held row (leaf_at i v) e i refl)

    lone_Stands :
        (i : ℕ) (v : H)
        → ts row ≡ some (leaf_at i v)
        → Stands parent_hash ops
            (ops.release i f.arena)
            (write_root row no_node f.roots)
            (put row none ts)
    lone_Stands i v e =
        Stands-frame parent_hash ops (Stands-clear parent_hash ops h.stands row)
          (λ r t g j m. rel.reads j (other r t g j m))
          (λ r t g j m n. elim (rel.others j n) [
            | inl x ↦ other r t g j m x
            | inr k ↦ h.stands.held r t (kept ts row r g).0 j m k
          ])
          rel.valid
      where
        rel : Released ops f.arena i (ops.release i f.arena)
        rel = lone_Released i v e

        other : (r : ℕ) (t : Tree H) → put row none ts r ≡ some t → (j : ℕ) → In j t → i ≢ j
        other r t g j m x =
            let (k, n) = kept ts row r g in n (h.stands.apart row r (leaf_at i v) t e k j x m)

    -- A leaf that is a whole tree: its row is empty afterwards.
    delete_root-Deleted :
        (i : ℕ) (v : H)
        → ts row ≡ some (leaf_at i v)
        → Returns (delete_root parent_hash ops ix v i f) (Deleted f ts row top)
    unfolding delete_root
    delete_root-Deleted i v e = (
      record f {
        roots = write_root row no_node f.roots;
        index = (ix.erase f.arena v i f.index).0;
        arena = ops.release i f.arena;
      },
      rw (delete_root, find_root-row parent_hash ops ix h row (leaf_at i v) e) refl,
      record {
        forest = record {
          stands = lone_Stands i v e;
          fits = λ r t g. h.fits r t (kept ts row r g).0;
          bounded = h.bounded;
        };
        count = refl;
        more_room = omega (arith, (lone_Released i v e).more_room);
      },
    )

    module _ {old : Tree H} (e : ts row ≡ some old) {i p : ℕ} {v : H} {s : Tree H} {c : Context H}
        (pr : Pair parent_hash ops f.arena old i p v s c) where
      tree_fits :
          (r : ℕ) (t : Tree H)
          → put row (some (plug c s)) ts r ≡ some t
          → (bit_at f.num_leaves r ≡ 1) × (height t ≤ r)
      tree_fits r t g = elim (ℕ_discrete row r) [
        | yes same ↦
            let new : plug c s ≡ t = ground (arith, ==_iff row r) in
            let (bit, high) = h.fits row old e in
            let low : height (plug c s) ≤ row = omega (arith, pr.lower) in
            subst (λ x. (bit_at f.num_leaves x ≡ 1) × (height t ≤ x)) same (bit, rw new at low)
        | no other ↦ h.fits r t (ground (arith, ==_iff row r))
      ]

      abbrev dropped : Arena → (ℕ → ℕ) → Forest parent_hash ops ix
      dropped a roots = drop_pair parent_hash ops ix v i p (record f { arena = a; roots = roots })

      dropped-Deleted :
          (a : Arena) (roots : ℕ → ℕ)
          → roots ≡ write_root row (id_of (plug c s)) f.roots
          → Replaced parent_hash ops lawful f.arena a old (plug c s) i p
          → IsForest parent_hash ops ix (dropped a roots) (put row (some (plug c s)) ts)
            × (room f.arena < room (dropped a roots).arena)
      unfolding drop_pair
      dropped-Deleted a roots same r = (
        record {
          stands = rw (← same) at (
              release-Stands parent_hash ops lawful h.stands row old (plug c s) e i p pr.i_old
                pr.p_old pr.i_p r);
          fits = tree_fits;
          bounded = h.bounded;
        },
        omega (
          arith,
          release-room parent_hash ops lawful h.stands row old (plug c s) e i p pr.i_old pr.p_old
              pr.i_p r,
        ),
      )

      drop_pair-count : (a : Arena) (roots : ℕ → ℕ) → (dropped a roots).num_leaves ≡ f.num_leaves
      unfolding drop_pair
      drop_pair-count a roots = refl

      leaf_is_leaf : is_leaf parent_hash ops ix f.arena i ≡ true
      unfolding is_leaf
      leaf_is_leaf =
          let l =
            lawful.lives f.arena i h.stands.valid (h.stands.held row old e i pr.i_old)
              (λ x. leaf_not_free (sym pr.leaf_record.type_eq ∙ x)) in
          rw (l, pr.leaf_record.type_eq) refl
        where
          leaf_not_free : leaf ≢ free
          leaf_not_free x = cc

      delete_id-pair : delete_id parent_hash ops ix i f ≡ (
          if parent_of c == no_node
          then promote_to_root parent_hash ops ix v i p (id_of s) f
          else promote parent_hash ops ix v i p (id_of s) (parent_of c) f)
      unfolding delete_id
      delete_id-pair =
          let n : (p == no_node) ≡ false = ground (arith, h.stands.small row old e p pr.p_old) in
          rw
            (
              leaf_is_leaf, pr.leaf_record.parent_eq, pr.leaf_record.hash_eq, n, pr.sibling,
              pr.grandparent,
            )
            refl

      promote_to_root-run :
          find_root 64 0 p f.roots ≡ some row
          → promote_to_root parent_hash ops ix v i p (id_of s) f
            ≡ ok (
                dropped
                  (set_parent ops (id_of s) no_node f.arena)
                  (write_root row (id_of s) f.roots))
      unfolding promote_to_root drop_pair
      promote_to_root-run found = rw (promote_to_root, found) refl

      promote-run :
          (g : ℕ) (a₁ : Arena)
          → relink parent_hash ops ix p (id_of s) g f.arena ≡ ok a₁
          → promote parent_hash ops ix v i p (id_of s) g f
            ≡ ok (
                dropped (recompute parent_hash ops ix 64 g (set_parent ops (id_of s) g a₁)) f.roots)
      unfolding promote drop_pair
      promote-run g a₁ run = rw (promote, run) refl

      inner-Deleted :
          c ≢ top
          → id_of (plug c s) ≡ id_of old
          → Returns (delete_id parent_hash ops ix i f) λ f'.
            IsForest parent_hash ops ix f' (put row (some (plug c s)) ts)
            × (f'.num_leaves ≡ f.num_leaves)
            × (room f.arena < room f'.arena)
      inner-Deleted n root =
          let (a₁, re) =
            relinks parent_hash ops ix lawful p (id_of s) c f.arena h.stands.valid n pr.split.outer
              pr.p_c pr.above in
          let r = inner-Replaced parent_hash ops ix lawful h.stands.valid n pr re nodes (
            omega (arith, pr.short, (h.fits row old e).1, row-lt parent_hash ops ix h row old e)) in
          let (forest, more) =
            dropped-Deleted
              (recompute parent_hash ops ix 64 (parent_of c)
                (set_parent ops (id_of s) (parent_of c) a₁))
              f.roots same r in
          (
            _,
            delete_id-pair ∙ rw go (promote-run (parent_of c) a₁ re.run),
            (forest, drop_pair-count _ _, more),
          )
        where
          nodes : Nodes parent_hash ops ix lawful c
          nodes j m = h.stands.small row old e j (pr.kept j (plug-In j c s (inr m)))

          go : (parent_of c == no_node) ≡ false
          go =
              other_node (parent_of c)
                (nodes (parent_of c) (parent_of-In parent_hash ops ix lawful c n))

          same : f.roots ≡ write_root row (id_of (plug c s)) f.roots
          same = write_root-same row (id_of (plug c s)) f.roots (h.stands.root row old e ∙ sym root)

    root-Deleted :
        (i p : ℕ) (v : H) (s old : Tree H)
        → ts row ≡ some old
        → id_of old ≡ p
        → Pair parent_hash ops f.arena old i p v s top
        → Returns (delete_id parent_hash ops ix i f) λ f'.
          IsForest parent_hash ops ix f' (put row (some s) ts)
          × (f'.num_leaves ≡ f.num_leaves)
          × (room f.arena < room f'.arena)
    root-Deleted i p v s old e root pr =
        let r = root-Replaced parent_hash ops ix lawful h.stands.valid pr in
        let (forest, more) =
          dropped-Deleted e pr (set_parent ops (id_of s) no_node f.arena)
            (write_root row (id_of s) f.roots) refl r in
        let found = rw root at (find_root-row parent_hash ops ix h row old e) in
        (
          _,
          delete_id-pair e pr ∙ promote_to_root-run e pr found,
          (forest, drop_pair-count e pr _ _, more),
        )

    delete_id-root :
        (i : ℕ) (v : H)
        → ts row ≡ some (leaf_at i v)
        → delete_id parent_hash ops ix i f ≡ delete_root parent_hash ops ix v i f
    unfolding delete_id is_leaf
    delete_id-root i v e =
        let r = h.stands.built row (leaf_at i v) e in
        let l =
          lawful.lives f.arena i h.stands.valid (h.stands.held row (leaf_at i v) e i refl)
            (λ x. leaf_not_free (sym r.type_eq ∙ x)) in
        rw (l, r.type_eq, r.parent_eq, r.hash_eq) refl
      where
        leaf_not_free : leaf ≢ free
        leaf_not_free x = cc

  id_of-plug :
      (c : Context H) (t u : Tree H) → id_of t ≡ id_of u → id_of (plug c t) ≡ id_of (plug c u)
  id_of-plug top t u e = e
  id_of-plug (left_of i c s) t u e = id_of-plug c (branch_at i t s) (branch_at i u s) refl
  id_of-plug (right_of i s c) t u e = id_of-plug c (branch_at i s t) (branch_at i s u) refl

  below_parent :
      (lawful : IsLawful ops) {f : Forest parent_hash ops ix} {ts : Rows H}
      (h : IsForest parent_hash ops ix f ts) (row i p : ℕ) (v : H) (s old : Tree H) (c : Context H)
      → ts row ≡ some old
      → (c ≡ top → id_of old ≡ p)
      → (c ≢ top → id_of (plug c s) ≡ id_of old)
      → Pair parent_hash ops f.arena old i p v s c
      → Returns (delete_id parent_hash ops ix i f) λ f'.
        IsForest parent_hash ops ix f' (put row (some (plug c s)) ts)
        × (f'.num_leaves ≡ f.num_leaves)
        × (room f.arena < room f'.arena)
  below_parent lawful h row i p v s old top e t o pr =
      root-Deleted lawful h row i p v s old e (t refl) pr
  below_parent lawful h row i p v s old (left_of g c u) e t o pr =
      let n : left_of g c u ≢ top = λ x. cc in inner-Deleted lawful h row e pr n (o n)
  below_parent lawful h row i p v s old (right_of g u c) e t o pr =
      let n : right_of g u c ≢ top = λ x. cc in inner-Deleted lawful h row e pr n (o n)

  top-id : (c : Context H) (t : Tree H) → c ≡ top → id_of (plug c t) ≡ id_of t
  top-id c t e = rw e refl

  inner-id : (c : Context H) (t u : Tree H) → c ≢ top → id_of (plug c t) ≡ id_of (plug c u)
  inner-id top t u n = absurd (n refl)
  inner-id (left_of i c s) t u n = id_of-plug c (branch_at i t s) (branch_at i u s) refl
  inner-id (right_of i s c) t u n = id_of-plug c (branch_at i s t) (branch_at i s u) refl

  -- `DeleteId` succeeds on every leaf of a forest, at whatever place of whatever tree. The result is
  -- again a forest, so that all its hashes are right; in its row, the sibling of the leaf has moved
  -- up to their parent's place, or the row is empty when the leaf was a whole tree; the other rows
  -- and the number of leaves stay, and the arena has more room.
  pub delete_id-Deleted :
      (lawful : IsLawful ops) (f : Forest parent_hash ops ix) (ts : Rows H) (row : ℕ)
      (c : Context H) (i : ℕ) (v : H)
      → IsForest parent_hash ops ix f ts
      → ts row ≡ some (plug c (leaf_at i v))
      → Returns (delete_id parent_hash ops ix i f) (Deleted f ts row c)
  delete_id-Deleted lawful f ts row top i v h e =
      let (f', run, d) = delete_root-Deleted lawful h row i v e in
      (f', delete_id-root lawful h row i v e ∙ run, d)
  delete_id-Deleted lawful f ts row (left_of p c s) i v h e =
      let t = branch_at p (leaf_at i v) s in
      let (f', run, (forest, count, more)) =
        below_parent lawful h row i p v s (plug c t) c e (top-id c t) (inner-id c s t) (
          left-Pair parent_hash ops f.arena i p v s c (h.stands.distinct row _ e)
            (h.stands.built row _ e)) in
      (f', run, record { forest = forest; count = count; more_room = more })
  delete_id-Deleted lawful f ts row (right_of p s c) i v h e =
      let t = branch_at p s (leaf_at i v) in
      let (f', run, (forest, count, more)) =
        below_parent lawful h row i p v s (plug c t) c e (top-id c t) (inner-id c s t) (
          right-Pair parent_hash ops f.arena i p v s c (h.stands.distinct row _ e)
            (h.stands.built row _ e)) in
      (f', run, record { forest = forest; count = count; more_room = more })
