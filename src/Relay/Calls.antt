-- ===== src/Relay/Calls.antt =====
-- Remote calls of src/transaction_relay.cpp, and what Core's documentation says of `gettxout`.
use utreexo_core_rpc.Common.{
  String, ℕ, ◌≡◌, refl, ap, ◌∙◌, subst, true, false, Bool, Option, some, List, [], ◌∷◌,
}
use utreexo_core_rpc.Result.{Result, ok, err, thrown}
use utreexo_core_rpc.Wire.Bytes.{Bytes}
use utreexo_core_rpc.Hex.{to_bitcoin_hex, decode_hex}
use utreexo_core_rpc.Amount.{parse_bitcoin_amount}
use utreexo_core_rpc.Transaction.Scan.{OutPoint}
use utreexo_core_rpc.Relay.Services.{Param, text, number, flag, Parts, TransactionRelay, rpc}
use utreexo_core_rpc.Relay.Prepare.{
  is_text, rpc_or_missing, missing_transaction, unless_missing, entry_of,
}

-- An unspent output at a block, as Core knows it.
pub record Coin : Type 0 where
  pub confirmations : ℕ
  pub amount : ℕ
  pub script : Bytes
  pub coinbase : Bool

-- The parameters of `gettxout` for an input, without the mempool.
abbrev pub txout_params : OutPoint → List Param
txout_params input = text (to_bitcoin_hex input.txid) ∷ number input.index ∷ flag false ∷ []

module _ (parts : Parts) where
  open parts use {World, Json}

  -- One remote call after another, and nothing else.
  pub data Calls : World → World → Type 0 where
    no_call : (w : World) → Calls w w
    call_more :
        (method : String) (params : List Param) (w w' : World)
        → Calls w w'
        → Calls w (parts.call method params w').1

  pub Calls-append : {u v w : World} → Calls u v → Calls v w → Calls u w
  Calls-append a (no_call w) = a
  Calls-append a (call_more method params v w b) = call_more method params _ w (Calls-append a b)

  pub one_call :
      (method : String) (params : List Param) (w : World) → Calls w (parts.call method params w).1
  one_call method params w = call_more method params w w (no_call w)

  -- A remote call that was answered, with nothing but remote calls before it.
  pub record Replied (method : String) (params : List Param) (start : World) (value : Json)
      : Type 0 where
    pub at : World
    pub reached : Calls start at
    pub reply : (parts.call method params at).0 ≡ ok value

  -- The fields of a reply of `gettxout`, where they can be read.
  pub record Reports (value : Json) (c : Coin) : Type 0 where
    pub confirmations :
        (n : ℕ) → parts.get_uint (parts.value_at value "confirmations") ≡ ok n → n ≡ c.confirmations
    pub amount :
        (n : ℕ)
        → parse_bitcoin_amount
            (parts.is_num (parts.value_at value "value"))
            (parts.val_str (parts.value_at value "value"))
          ≡ ok n
        → n ≡ c.amount
    pub script :
        (hex : List ℕ) (limit : ℕ) (bytes : Bytes)
        → parts.get_str (parts.value_at (parts.value_at value "scriptPubKey") "hex") ≡ ok hex
        → decode_hex hex limit ≡ ok bytes
        → bytes ≡ c.script
    pub coinbase :
        (b : Bool) → parts.get_bool (parts.value_at value "coinbase") ≡ ok b → b ≡ c.coinbase

  -- What is relied on: a reply of `gettxout` that names a block as its best one tells of the unspent
  -- outputs at that block, and remote calls leave the synchronised forest alone.
  pub record IsCore (coin : Bytes → OutPoint → Coin) : Type 0 where
    pub reports :
        (input : OutPoint) (w : World) (value : Json) (block_hash : Bytes)
        → (parts.call "gettxout" (txout_params input) w).0 ≡ ok value
        → parts.is_null value ≡ false
        → is_text parts (parts.value_at value "bestblock") (to_bitcoin_hex block_hash) ≡ ok true
        → Reports value (coin block_hash input)
    pub same_chain :
        (method : String) (params : List Param) (w : World)
        → parts.chain_hashes (parts.call method params w).1 ≡ parts.chain_hashes w
    pub same_roots :
        (method : String) (params : List Param) (w : World)
        → parts.roots (parts.call method params w).1 ≡ parts.roots w
    pub same_num_leaves :
        (method : String) (params : List Param) (w : World)
        → parts.num_leaves (parts.call method params w).1 ≡ parts.num_leaves w

  -- A function of the state that no remote call changes.
  pub Calls-kept :
      {A : Type 0} (f : World → A)
      → ((method : String) (params : List Param) (w : World)
          → f (parts.call method params w).1 ≡ f w)
      → {v w : World} → Calls v w
      → f w ≡ f v
  Calls-kept f same (no_call w) = refl
  Calls-kept f same (call_more method params v w c) = same method params w ∙ Calls-kept f same c

  pub rpc-eq-ok :
      (method : String) (params : List Param) (r s : TransactionRelay parts) (value : Json)
      → rpc parts method params r ≡ (ok value, s)
      → ((parts.call method params r.world).0 ≡ ok value) × Calls r.world s.world
  rpc-eq-ok method params r s value e =
      let moved : (parts.call method params r.world).1 ≡ s.world = ap (λ q. q.1.world) e in
      (ap (λ q. q.0) e, subst (Calls r.world) moved (one_call method params r.world))

  unless_missing-none :
      (missing : Result Bool) (message : String) (r s : TransactionRelay parts) (value : Json)
      → ¬ unless_missing parts missing message r ≡ (ok (some value), s)
  unless_missing-none (ok true) message r s value e = cc
  unless_missing-none (ok false) message r s value e = cc
  unless_missing-none (err m) message r s value e = cc
  unless_missing-none (thrown what) message r s value e = cc

  entry_of-some :
      (q : Result Json × TransactionRelay parts) (s : TransactionRelay parts) (value : Json)
      → entry_of parts q ≡ (ok (some value), s)
      → q ≡ (ok value, s)
  entry_of-some (ok v, r) s value e =
      let same : v ≡ value = some-eq v value r s e in
      let here : r ≡ s = ap (λ q. q.1) e in ap (λ k. (ok k, r)) same ∙ ap (λ k. (ok value, k)) here
    where
      some-eq :
          (v w : Json) (r s : TransactionRelay parts)
          → ◌≡◌ {A = Result (Option Json) × TransactionRelay parts}
              (ok (some v), r)
              (ok (some w), s)
          → v ≡ w
      some-eq v w r s e = cc
  entry_of-some (err message, r) s value e =
      absurd (unless_missing-none (missing_transaction parts message) message r s value e)
  entry_of-some (thrown what, r) s value e = cc

  -- A transaction that Core is found to have was in its reply.
  pub rpc_or_missing-eq-ok :
      (method : String) (params : List Param) (r s : TransactionRelay parts) (value : Json)
      → rpc_or_missing parts method params r ≡ (ok (some value), s)
      → ((parts.call method params r.world).0 ≡ ok value) × Calls r.world s.world
  unfolding rpc_or_missing
  rpc_or_missing-eq-ok method params r s value e =
      rpc-eq-ok method params r s value (entry_of-some (rpc parts method params r) s value e)
