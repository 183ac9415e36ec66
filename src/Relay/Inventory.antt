-- ===== src/Relay/Inventory.antt =====
-- `RecoveryCandidates` of src/transaction_relay.cpp, which reads Core's inventory as text. The view
-- `json` from `offset` on is a list. The set `missing` is a list; nobody sees its order.
use utreexo_core_rpc.Common.{
  ℕ, zero, suc, ◌+◌, Bool, ◌||◌, ◌&&◌, not, List, [], ◌∷◌, ◌++◌, if◌then◌else◌, ◌==◌, ltb, leb,
  length, get_or, take, drop,
}
use utreexo_core_rpc.Result.{Result, ok, err}
use utreexo_core_rpc.Wire.Bytes.{Bytes}
use utreexo_core_rpc.Hex.{from_bitcoin_hex}
use utreexo_core_rpc.Transaction.Prepared.{same_bytes}
use utreexo_core_rpc.Relay.Run.{pure, lift, fail, ◌>>=◌, ◌>>◌, refuse}
use utreexo_core_rpc.Relay.Services.{Parts, Relaying, outside, asking, telling, reading}

unfoldable pub skip_space : List ℕ → List ℕ
skip_space [] = []
skip_space (c ∷ json) =
    let later = skip_space json in
    if (c == 32) || ((c == 10) || ((c == 13) || (c == 9))) then later else c ∷ json

-- `std::set::erase`
unfoldable pub erase_hash : Bytes → List Bytes → List Bytes
erase_hash txid [] = []
erase_hash txid (x ∷ xs) =
    let later = erase_hash txid xs in if same_bytes x txid then later else x ∷ later

-- The local variables of the loop.
pub record Scan : Type 0 where
  pub missing : List Bytes
  pub candidates : List Bytes
  pub count : ℕ
  pub next_cursor : ℕ

-- Whether an id in quotes does not stand here.
unfoldable pub is_no_id : List ℕ → Bool
is_no_id json =
    ltb (length json) 66 || (not (get_or json 0 0 == 34) || not (get_or json 65 0 == 34))

-- The closing bracket.
unfoldable pub inventory_end : List ℕ → Result (Unit {0})
inventory_end [] = err "truncated Core mempool inventory"
inventory_end (c ∷ json) =
    if not (c == 93)
    then err "truncated Core mempool inventory"
    else if not (length (skip_space json) == 0)
    then err "trailing Core mempool inventory data"
    else ok tt

-- The opening bracket.
unfoldable pub inventory_start : List ℕ → Result (List ℕ)
inventory_start [] = err "Core mempool inventory is not an array"
inventory_start (c ∷ json) =
    if c == 91 then ok (skip_space json) else err "Core mempool inventory is not an array"

module _ (parts : Parts) where
  -- An id beyond the cursor, where the batch has room: a candidate unless the cache has its proof.
  unfoldable pub consider : Bytes → Scan → Relaying parts Scan
  consider txid st = do
    found ← asking parts (parts.find txid)
    let candidates = if found then st.candidates else st.candidates ++ txid ∷ []
    pure (record st { next_cursor = st.count + 1; candidates = candidates })

  -- What the loop does with one id.
  unfoldable pub note : ℕ → Bytes → Scan → Relaying parts Scan
  note cursor txid st r =
      let st' : Scan = record st { missing = erase_hash txid st.missing } in
      let counted : Scan → Relaying parts Scan = λ st. pure (record st { count = st.count + 1 }) in
      if leb cursor st.count && ltb (length st.candidates) r.config.batch_size
      then (consider txid st' >>= counted) r
      else counted st' r

  -- What follows an id: the end of the list, or a comma and more ids.
  unfoldable pub separated :
      List ℕ → Scan → (List ℕ → Relaying parts (Scan × List ℕ)) → Relaying parts (Scan × List ℕ)
  separated [] st more = fail "truncated Core mempool inventory"
  separated (c ∷ json) st more =
      if c == 93
      then pure (st, c ∷ json)
      else if c == 44
      then more (skip_space json)
      else fail "invalid Core mempool inventory separator"

  -- The loop over the ids, from behind a bracket or a comma to the closing bracket. A round reads 66
  -- characters at least, so that the length of the text is enough fuel.
  unfoldable pub inventory_loop : ℕ → ℕ → List ℕ → Scan → Relaying parts (Scan × List ℕ)
  inventory_loop zero cursor json st = fail "invalid Core mempool transaction id"
  inventory_loop (suc fuel) cursor json st = do
    refuse (is_no_id json) "invalid Core mempool transaction id"
    txid ← lift (from_bitcoin_hex (take 64 (drop 1 json)))
    st' ← note cursor txid st
    separated (skip_space (drop 66 json)) st' (λ rest. inventory_loop fuel cursor rest st')

  -- The ids, unless the list is empty.
  unfoldable pub inventory_ids : ℕ → List ℕ → Scan → Relaying parts (Scan × List ℕ)
  inventory_ids cursor [] st = pure (st, [])
  inventory_ids cursor (c ∷ json) st =
      let ids = inventory_loop (length (c ∷ json)) cursor (c ∷ json) st in
      if c == 93 then pure (st, c ∷ json) else ids

  -- The text of the inventory, read to its end.
  unfoldable pub read_inventory : ℕ → List ℕ → Scan → Relaying parts Scan
  read_inventory cursor json st = do
    opened ← lift (inventory_start (skip_space json))
    (st', closing) ← inventory_ids cursor opened st
    lift (inventory_end closing)
    pure st'

  unfoldable pub erase_all : List Bytes → parts.World → parts.World
  erase_all [] w = w
  erase_all (txid ∷ txids) w = erase_all txids (parts.erase txid w)

  abbrev pub set_cursor : ℕ → Relaying parts (Unit {0})
  set_cursor cursor r = (ok tt, record r { scan_cursor = cursor })

  unfoldable pub recovery_candidates : Relaying parts (List Bytes)
  recovery_candidates r =
      (do
        json ← outside parts (parts.call_raw "getrawmempool")
        retained ← reading parts parts.txids
        st ←
            read_inventory r.scan_cursor json (record {
              missing = retained;
              candidates = [];
              count = 0;
              next_cursor = r.scan_cursor;
            })
        set_cursor (if leb st.count st.next_cursor then 0 else st.next_cursor)
        telling parts (erase_all st.missing)
        pure st.candidates)
        r
