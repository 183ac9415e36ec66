-- ===== src/Relay/Spent.antt =====
-- A confirmed input in `Prepare` (src/transaction_relay.cpp): its leaf is that of the coin it spends.
use utreexo_core_rpc.Common.{
  ℕ, ◌+◌, ◌-◌, ◌%◌, ◌^◌, ◌≤◌, ◌<◌, ◌≡◌, refl, sym, ap, ◌∙◌, subst, arith, Bool, true, false, ◌||◌,
  not, not-eq-false, Option, none, some, List, [], ◌∷◌, ◌==◌, ltb, leb, tests, length, get_or,
}
use utreexo_core_rpc.Result.{ok}
use utreexo_core_rpc.Wire.Bytes.{Bytes}
use utreexo_core_rpc.Hex.{to_bitcoin_hex, decode_hex}
use utreexo_core_rpc.Amount.{parse_bitcoin_amount}
use utreexo_core_rpc.Leaf.{LeafData, CompactLeafData, compact_leaf, serialize_leaf}
use utreexo_core_rpc.Transaction.Scan.{OutPoint}
use utreexo_core_rpc.Relay.Run.{pure, after-lift, refuse-eq-ok}
use utreexo_core_rpc.Relay.Services.{Point, Parts, TransactionRelay}
use utreexo_core_rpc.Relay.Prepare.{Input, confirmed, txid_params, is_text, confirmed_leaf}
use utreexo_core_rpc.Relay.Calls.{Coin, txout_params, Reports, Replied}

-- The leaf of a coin that a block of the chain made.
abbrev pub coin_leaf : List Bytes → OutPoint → Coin → ℕ → LeafData
coin_leaf chain input c height = record {
  block_hash = get_or chain height [];
  txid = input.txid;
  index = input.index;
  block_height = height;
  coinbase = c.coinbase;
  value = c.amount;
  script_pubkey = c.script;
}

abbrev read_leaf : List Bytes → OutPoint → ℕ → ℕ → Bytes → Bool → LeafData
read_leaf chain input height amount script coinbase =
    coin_leaf chain input
      (record { confirmations = 0; amount = amount; script = script; coinbase = coinbase }) height

read_leaf-same :
    (chain : List Bytes) (input : OutPoint) (c : Coin) (height amount : ℕ) (script : Bytes)
    (coinbase : Bool)
    → amount ≡ c.amount
    → script ≡ c.script
    → coinbase ≡ c.coinbase
    → read_leaf chain input height amount script coinbase ≡ coin_leaf chain input c height
read_leaf-same chain input c height amount script coinbase same_amount same_script same_coinbase =
    ap
      (λ a.
        coin_leaf chain input (record c { amount = a; script = script; coinbase = coinbase })
          height)
      same_amount
    ∙ ap (λ a. coin_leaf chain input (record c { script = a; coinbase = coinbase }) height)
        same_script
    ∙ ap (λ a. coin_leaf chain input (record c { coinbase = a }) height) same_coinbase

height_in_bounds :
    (n c h : ℕ)
    → n < 2 ^ 32
    → ((c == 0) || ltb (n + 1) c) ≡ false
    → h ≡ (n + 1 - c) % 2 ^ 32
    → (h + c ≡ n + 1) × (1 ≤ c)
height_in_bounds n c h small guard e = ground arith

pub pure-eq : {A S : Type 0} (p q : A) (s t : S) → pure p s ≡ (ok q, t) → p ≡ q
pure-eq p q s t e = cc

module _ (parts : Parts) where
  open parts use {World, Json}

  -- An input that spends an output of the mempool.
  pub record IsUnconfirmed (start : World) (input : OutPoint) : Type 0 where
    pub output : Json
    pub entry : Json
    pub asked : Replied parts "gettxout" (txout_params input) start output
    pub absent : parts.is_null output ≡ true
    pub member : Replied parts "getmempoolentry" (txid_params input.txid) start entry

module _ (parts : Parts) (coin : Bytes → OutPoint → Coin) where
  open parts use {World, Json}

  -- An input that spends a coin of the point's block, with the coin's leaf and the leaf's hash.
  pub record IsSpent (chain : List Bytes) (point : Point) (input : OutPoint) (hash : Bytes)
      (leaf : CompactLeafData) : Type 0 where
    pub height : ℕ
    pub aged : height + (coin point.block_hash input).confirmations ≡ point.height + 1
    pub buried : 1 ≤ (coin point.block_hash input).confirmations
    pub in_chain : height < length chain
    pub leaf_hash :
        hash
        ≡ parts.sha512_256 (
            serialize_leaf parts.utreexo_tag
              (coin_leaf chain input (coin point.block_hash input) height))
    pub leaf_data : leaf ≡ compact_leaf (coin_leaf chain input (coin point.block_hash input) height)

  -- The hashes and the leaves of inputs, in their order.
  pub data Spends (start : World) (point : Point)
      : List OutPoint → List Bytes → List (Option CompactLeafData) → Type 0 where
    no_input : Spends start point [] [] []
    unconfirmed_input :
        (input : OutPoint) (inputs : List OutPoint) (hashes : List Bytes)
        (leaves : List (Option CompactLeafData))
        → IsUnconfirmed parts start input
        → Spends start point inputs hashes leaves
        → Spends start point (input ∷ inputs) hashes (none ∷ leaves)
    spent_input :
        (input : OutPoint) (inputs : List OutPoint) (hash : Bytes) (hashes : List Bytes)
        (leaf : CompactLeafData) (leaves : List (Option CompactLeafData))
        → IsSpent (parts.chain_hashes start) point input hash leaf
        → Spends start point inputs hashes leaves
        → Spends start point (input ∷ inputs) (hash ∷ hashes) (some leaf ∷ leaves)

  leaf_height :
      (chain : List Bytes) (point : Point) (n : ℕ)
      → point.height < 2 ^ 32
      → ((n == 0) || ltb (point.height + 1) n) ≡ false
      → leb (length chain) ((point.height + 1 - n) % 2 ^ 32) ≡ false
      → (((point.height + 1 - n) % 2 ^ 32) + n ≡ point.height + 1)
        × (1 ≤ n)
        × ((point.height + 1 - n) % 2 ^ 32 < length chain)
  leaf_height chain point n small guard there =
      let (aged, buried) = height_in_bounds point.height n _ small guard refl in
      (aged, buried, grind tests)

  pub confirmed_leaf-IsSpent :
      (input : OutPoint) (value : Json) (point : Point) (r s : TransactionRelay parts)
      (found : Input)
      → (is_text parts (parts.value_at value "bestblock") (to_bitcoin_hex point.block_hash)
            ≡ ok true
          → Reports parts value (coin point.block_hash input))
      → point.height < 2 ^ 32
      → confirmed_leaf parts input value point r ≡ (ok found, s)
      → (hash : Bytes) × (leaf : CompactLeafData) × (found ≡ confirmed hash leaf)
        × IsSpent (parts.chain_hashes r.world) point input hash leaf
        × (r ≡ s)
  unfolding confirmed_leaf
  confirmed_leaf-IsSpent input value point r s found reports small e =
      let chain = parts.chain_hashes r.world in
      let (_, e₁) = refuse-eq-ok (not (parts.is_object value)) _ _ r found s e in
      let (same, anchored, e₂) =
        after-lift
          (is_text parts (parts.value_at value "bestblock") (to_bitcoin_hex point.block_hash)) _ r
          found s e₁ in
      let (differs, e₃) = refuse-eq-ok (not same) _ _ r found s e₂ in
      let says = reports (anchored ∙ ap (λ b. ok b) (not-eq-false same differs)) in
      let (n, read_n, e₄) =
        after-lift (parts.get_uint (parts.value_at value "confirmations")) _ r found s e₃ in
      let (guard, e₅) = refuse-eq-ok ((n == 0) || ltb (point.height + 1) n) _ _ r found s e₄ in
      let (there, e₆) =
        refuse-eq-ok (leb (length chain) ((point.height + 1 - n) % 2 ^ 32)) _ _ r found s e₅ in
      let (amount, read_amount, e₇) =
        after-lift
          (parse_bitcoin_amount (parts.is_num (parts.value_at value "value"))
            (parts.val_str (parts.value_at value "value")))
          _ r found s e₆ in
      let (hex, read_hex, e₈) =
        after-lift (parts.get_str (parts.value_at (parts.value_at value "scriptPubKey") "hex")) _ r
          found s e₇ in
      let (script, read_script, e₉) = after-lift (decode_hex hex 10000) _ r found s e₈ in
      let (coinbase, read_coinbase, e₁₀) =
        after-lift (parts.get_bool (parts.value_at value "coinbase")) _ r found s e₉ in
      let (aged, buried, in_chain) = leaf_height chain point n small guard there in
      let height = (point.height + 1 - n) % 2 ^ 32 in
      let c = coin point.block_hash input in
      let same_leaf =
        read_leaf-same chain input c height amount script coinbase (says.amount amount read_amount)
          (says.script hex 10000 script read_hex read_script)
          (says.coinbase coinbase read_coinbase) in
      let same_n = says.confirmations n read_n in
      (
        parts.sha512_256 (serialize_leaf parts.utreexo_tag (coin_leaf chain input c height)),
        compact_leaf (coin_leaf chain input c height),
        sym (pure-eq _ found r s e₁₀)
            ∙ ap
                (λ l.
                  confirmed (parts.sha512_256 (serialize_leaf parts.utreexo_tag l))
                    (compact_leaf l))
                same_leaf,
        record {
          height = height;
          aged = subst (λ k. height + k ≡ point.height + 1) same_n aged;
          buried = subst (λ k. 1 ≤ k) same_n buried;
          in_chain = in_chain;
          leaf_hash = refl;
          leaf_data = refl;
        },
        ap (λ q. q.1) e₁₀,
      )
