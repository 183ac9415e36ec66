-- ===== src/Relay/Inputs.antt =====
-- The loop of `Prepare` over the inputs (src/transaction_relay.cpp): what each of them is found to spend.
use utreexo_core_rpc.Common.{
  ◌^◌, ◌<◌, ◌≡◌, sym, ap, ◌∙◌, subst, true, Bool-cases, Option, none, some, Option-cases, inl, inr,
  List, [], ◌∷◌,
}
use utreexo_core_rpc.Result.{ok}
use utreexo_core_rpc.Wire.Bytes.{Bytes}
use utreexo_core_rpc.Leaf.{CompactLeafData}
use utreexo_core_rpc.Transaction.Scan.{OutPoint}
use utreexo_core_rpc.Relay.Run.{pure, after-eq-ok}
use utreexo_core_rpc.Relay.Services.{Point, Parts, TransactionRelay, Relaying, rpc}
use utreexo_core_rpc.Relay.Prepare.{
  Input, gone, unconfirmed, confirmed, txid_params, rpc_or_missing, found_parent, look_up, and_then,
  look_up_all,
}
use utreexo_core_rpc.Relay.Calls.{
  Coin, txout_params, Calls, Calls-append, Calls-kept, Replied, IsCore, rpc-eq-ok,
  rpc_or_missing-eq-ok,
}
use utreexo_core_rpc.Relay.Spent.{
  IsUnconfirmed, IsSpent, Spends, no_input, unconfirmed_input, spent_input, pure-eq,
  confirmed_leaf-IsSpent,
}

module _ (parts : Parts) (coin : Bytes → OutPoint → Coin) where
  open parts use {World, Json}

  -- What a round of the loop finds, where the others of the inputs are still of use.
  abbrev Finds : World → Point → OutPoint → Input → World → Type 0
  Finds start point input gone w = Unit
  Finds start point input unconfirmed w = IsUnconfirmed parts start input × Calls parts start w
  Finds start point input (confirmed hash leaf) w =
      IsSpent parts coin (parts.chain_hashes start) point input hash leaf × Calls parts start w

  found_parent-Finds :
      (start : World) (point : Point) (input : OutPoint) (output : Json)
      (r s : TransactionRelay parts) (entry : Option Json)
      → Replied parts "gettxout" (txout_params input) start output
      → parts.is_null output ≡ true
      → Calls parts start r.world
      → rpc_or_missing parts "getmempoolentry" (txid_params input.txid) r ≡ (ok entry, s)
      → Finds start point input (found_parent parts entry) s.world
  found_parent-Finds start point input output r s none asked absent reached run = tt
  found_parent-Finds start point input output r s (some entry) asked absent reached run =
      let (reply, moved) =
        rpc_or_missing-eq-ok parts "getmempoolentry" (txid_params input.txid) r s entry run in
      (
        record {
          output = output;
          entry = entry;
          asked = asked;
          absent = absent;
          member = record { at = r.world; reached = reached; reply = reply };
        },
        Calls-append parts reached moved,
      )

  pub look_up-Finds :
      (core : IsCore parts coin) (start : World) (input : OutPoint) (point : Point)
      (r t : TransactionRelay parts) (found : Input)
      → point.height < 2 ^ 32
      → Calls parts start r.world
      → look_up parts input point r ≡ (ok found, t)
      → Finds start point input found t.world
  unfolding look_up
  look_up-Finds core start input point r t found small reached e =
      let (output, s, asked, e₁) =
        after-eq-ok (rpc parts "gettxout" (txout_params input) r) _ found t e in
      let (reply, moved) = rpc-eq-ok parts "gettxout" (txout_params input) r s output asked in
      let here : Calls parts start s.world = Calls-append parts reached moved in
      elim (Bool-cases (parts.is_null output)) [
        | inl absent ↦
            let (entry, u, run, e₂) =
              after-eq-ok (rpc_or_missing parts "getmempoolentry" (txid_params input.txid) s) _
                found t (rw absent at e₁) in
            let finds =
              found_parent-Finds start point input output s u entry
                (record { at = r.world; reached = reached; reply = reply }) absent here run in
            subst (λ q. Finds start point input q t.world)
              (pure-eq (found_parent parts entry) found u t e₂)
              (subst (λ q. Finds start point input (found_parent parts entry) q.world)
                (ap (λ q. q.1) e₂) finds)
        | inr there ↦
            let (hash, leaf, is, spent, same) =
              confirmed_leaf-IsSpent parts coin input output point s t found
                (core.reports input r.world output point.block_hash reply there) small
                (rw there at e₁) in
            subst (λ q. Finds start point input q t.world) (sym is)
              (
                subst (λ chain. IsSpent parts coin chain point input hash leaf)
                    (Calls-kept parts parts.chain_hashes core.same_chain here) spent,
                subst (λ q. Calls parts start q.world) same here,
              )
      ]

  abbrev pub Spent :
      World
      → Point
      → List OutPoint
      → Option (List Bytes × List (Option CompactLeafData))
      → World
      → Type 0
  Spent start point inputs none w = Unit
  Spent start point inputs (some (hashes, leaves)) w =
      Spends parts coin start point inputs hashes leaves × Calls parts start w

  Spent-pure :
      (start : World) (point : Point) (inputs : List OutPoint)
      (first found : Option (List Bytes × List (Option CompactLeafData)))
      (s t : TransactionRelay parts)
      → pure first s ≡ (ok found, t)
      → Spent start point inputs first s.world
      → Spent start point inputs found t.world
  Spent-pure start point inputs first found s t e spent =
      subst (λ q. Spent start point inputs q t.world) (pure-eq first found s t e)
        (subst (λ q. Spent start point inputs first q.world) (ap (λ q. q.1) e) spent)

  -- The rounds after an input, where they find what they should.
  and_then-Spent :
      (start : World) (point : Point) (input : OutPoint) (inputs : List OutPoint) (first : Input)
      (rest : Relaying parts (Option (List Bytes × List (Option CompactLeafData))))
      (s t : TransactionRelay parts) (found : Option (List Bytes × List (Option CompactLeafData)))
      → Finds start point input first s.world
      → ((u : TransactionRelay parts) (later : Option (List Bytes × List (Option CompactLeafData)))
          → Calls parts start s.world
          → rest s ≡ (ok later, u)
          → Spent start point inputs later u.world)
      → and_then parts first rest s ≡ (ok found, t)
      → Spent start point (input ∷ inputs) found t.world
  and_then-Spent start point input inputs gone rest s t found finds later e =
      Spent-pure start point (input ∷ inputs) none found s t e tt
  and_then-Spent start point input inputs unconfirmed rest s t found (is, here) later e =
      let (more, u, run, e₁) = after-eq-ok (rest s) _ found t e in
      elim (Option-cases more) [
        | inl n ↦ Spent-pure start point (input ∷ inputs) none found u t (rw n at e₁) tt
        | inr ((hashes, leaves), some_more) ↦
            let (spends, reached) =
              later u (some (hashes, leaves)) here (run ∙ ap (λ q. (ok q, u)) some_more) in
            Spent-pure start point (input ∷ inputs) (some (hashes, none ∷ leaves)) found u t
              (rw some_more at e₁) (unconfirmed_input input inputs hashes leaves is spends, reached)
      ]
  and_then-Spent start point input inputs (confirmed hash leaf) rest s t found (is, here) later e =
      let (more, u, run, e₁) = after-eq-ok (rest s) _ found t e in
      elim (Option-cases more) [
        | inl n ↦ Spent-pure start point (input ∷ inputs) none found u t (rw n at e₁) tt
        | inr ((hashes, leaves), some_more) ↦
            let (spends, reached) =
              later u (some (hashes, leaves)) here (run ∙ ap (λ q. (ok q, u)) some_more) in
            Spent-pure start point (input ∷ inputs) (some (hash ∷ hashes, some leaf ∷ leaves)) found
              u t (rw some_more at e₁)
              (spent_input input inputs hash hashes leaf leaves is spends, reached)
      ]

  pub look_up_all-Spends :
      (core : IsCore parts coin) (start : World) (inputs : List OutPoint) (point : Point)
      (r t : TransactionRelay parts) (found : Option (List Bytes × List (Option CompactLeafData)))
      → point.height < 2 ^ 32
      → Calls parts start r.world
      → look_up_all parts inputs point r ≡ (ok found, t)
      → Spent start point inputs found t.world
  unfolding look_up_all
  look_up_all-Spends core start [] point r t found small reached e =
      Spent-pure start point [] (some ([], [])) found r t e (no_input, reached)
  look_up_all-Spends core start (input ∷ inputs) point r t found small reached e =
      let (first, s, run, e₁) = after-eq-ok (look_up parts input point r) _ found t e in
      and_then-Spent start point input inputs first (look_up_all parts inputs point) s t found
        (look_up-Finds core start input point r s first small reached run)
        (λ u later here found_later.
          look_up_all-Spends core start inputs point s u later small here found_later)
        e₁
