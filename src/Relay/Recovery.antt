-- ===== src/Relay/Recovery.antt =====
-- `RecoveryCandidates` of src/transaction_relay.cpp on the text of an inventory.
use utreexo_core_rpc.Common.{
  ◌<◌, ℕ, zero, suc, ◌+◌, ◌-◌, ◌≤◌, ◌≡◌, refl, sym, ap, ◌∙◌, arith, Bool, List, [], ◌∷◌, ◌++◌,
  append-nil, length, take, drop, length-append, All,
}
use utreexo_core_rpc.Result.{Result, ok}
use utreexo_core_rpc.Wire.Bytes.{Bytes, AllBytes}
use utreexo_core_rpc.Hex.{to_bitcoin_hex}
use utreexo_core_rpc.Hex.RoundTrip.{from_bitcoin_hex-to_bitcoin_hex, length-to_bitcoin_hex}
use utreexo_core_rpc.Relay.Run.{lift, ◌>>◌, after, pure}
use utreexo_core_rpc.Relay.Services.{Parts, TransactionRelayConfig, TransactionRelay}
use utreexo_core_rpc.Relay.Candidates.{
  unknown, length-considered, take-considered, take-all, quoted-IsId,
}
use utreexo_core_rpc.Relay.Noted.{IsStable, IsSteady, note-Noted}
use utreexo_core_rpc.Relay.Inventory.{
  Scan, erase_hash, skip_space, separated, inventory_loop, inventory_ids, inventory_end,
  inventory_start, read_inventory,
}

-- An id in quotes, and the ids behind it.
abbrev pub quoted : Bytes → List ℕ
quoted txid = 34 ∷ to_bitcoin_hex txid ++ 34 ∷ []

abbrev pub more_text : List Bytes → List ℕ
more_text [] = 93 ∷ []
more_text (txid ∷ txids) = 44 ∷ quoted txid ++ more_text txids

abbrev pub inventory_text : List Bytes → List ℕ
inventory_text [] = 91 ∷ 93 ∷ []
inventory_text (txid ∷ txids) = 91 ∷ quoted txid ++ more_text txids

abbrev pub erase_hashes : List Bytes → List Bytes → List Bytes
erase_hashes [] missing = missing
erase_hashes (txid ∷ txids) missing = erase_hashes txids (erase_hash txid missing)

abbrev pub IsHash : Bytes → Type 0
IsHash txid = (length txid ≡ 32) × AllBytes txid

length-more_text : (txids : List Bytes) → suc (length txids) ≤ length (more_text txids)
length-more_text [] = omega arith
length-more_text (txid ∷ txids) =
    omega (arith, length-append (quoted txid) (more_text txids), length-more_text txids)

some_more : (txids : List Bytes) → 1 ≤ length (more_text txids)
some_more txids = omega (arith, length-more_text txids)

module _ (parts : Parts) where
  module _ (known : Bytes → Bool) (Stable : parts.World → Type 0)
      (stable : IsStable parts known Stable) (cursor batch : ℕ) where
    abbrev Steady : Scan → Type 0
    Steady = IsSteady parts known Stable stable cursor batch

    -- What the ids that are left do, with the last bracket behind them.
    pub record Scanned (txids : List Bytes) (st : Scan)
        (run : Result (Scan × List ℕ) × TransactionRelay parts) : Type 0 where
      pub st' : Scan
      pub r' : TransactionRelay parts
      pub ended : run ≡ (ok (st', 93 ∷ []), r')
      pub world : Stable r'.world
      pub missing : st'.missing ≡ erase_hashes txids st.missing
      pub count : st'.count ≡ st.count + length txids
      pub candidates :
          st'.candidates
          ≡ take batch (st.candidates ++ unknown known (drop (cursor - st.count) txids))
      pub steady : Steady st → Steady st'

    -- What the inventory of these ids gives.
    pub record Inventoried (txids retained : List Bytes)
        (run : Result Scan × TransactionRelay parts) : Type 0 where
      pub st' : Scan
      pub r' : TransactionRelay parts
      pub ended : run ≡ (ok st', r')
      pub world : Stable r'.world
      pub missing : st'.missing ≡ erase_hashes txids retained
      pub count : st'.count ≡ length txids
      pub candidates : st'.candidates ≡ take batch (unknown known (drop cursor txids))
      pub advances : 0 < batch → cursor < length txids → cursor < st'.next_cursor

    minus_zero : (k : ℕ) → k - 0 ≡ k
    minus_zero k = omega arith

    empty : (k n : ℕ) → take n (unknown known (drop k [])) ≡ []
    empty zero zero = refl
    empty zero (suc n) = refl
    empty (suc k) zero = refl
    empty (suc k) (suc n) = refl

    none_left :
        (cs : List Bytes) (k : ℕ)
        → length cs ≤ batch
        → cs ≡ take batch (cs ++ unknown known (drop k []))
    none_left cs zero room = rw (append-nil cs) (sym (take-all batch cs room))
    none_left cs (suc k) room = rw (append-nil cs) (sym (take-all batch cs room))

    scan_more :
        (fuel : ℕ) (txids : List Bytes) (st : Scan) (r : TransactionRelay parts)
        → length txids ≤ fuel
        → All IsHash txids
        → Stable r.world
        → r.config.batch_size ≡ batch
        → length st.candidates ≤ batch
        → Scanned txids st (
            separated parts
              (skip_space (more_text txids))
              st
              (λ rest. inventory_loop parts fuel cursor rest st)
              r)
    unfolding separated skip_space inventory_loop
    scan_more fuel [] st r enough hashes w size room = record {
      st' = st;
      r' = r;
      ended = refl;
      world = w;
      missing = refl;
      count = omega arith;
      candidates = none_left st.candidates (cursor - st.count) room;
      steady = λ s. s;
    }
    scan_more zero (txid ∷ txids) st r enough hashes w size room = absurd (omega arith)
    scan_more (suc fuel) (txid ∷ txids) st r enough ((len, small), hashes) w size room =
        let at =
          quoted-IsId (to_bitcoin_hex txid) (more_text txids)
            (omega (arith, length-to_bitcoin_hex txid)) (some_more txids) in
        let n = note-Noted parts known Stable stable cursor batch txid st r w size in
        let more =
          scan_more fuel txids n.st' n.r' (omega arith) hashes n.world
            (ap (λ (c : TransactionRelayConfig). c.batch_size) n.config ∙ size)
            (rw n.candidates
              (length-considered known cursor batch st.count txid st.candidates room)) in
        record {
          st' = more.st';
          r' = more.r';
          ended =
              rw
                (
                  inventory_loop,
                  at.valid,
                  at.digits,
                  from_bitcoin_hex-to_bitcoin_hex txid len small,
                  n.run,
                  at.behind,
                )
                more.ended;
          world = more.world;
          missing = more.missing ∙ ap (λ m. erase_hashes txids m) n.missing;
          count = omega (arith, more.count, n.count);
          candidates =
              more.candidates
              ∙ rw (n.candidates, n.count)
                  (take-considered known cursor batch st.count txid txids st.candidates);
          steady = λ s. more.steady (n.steady s);
        }

    -- The text of an inventory of transaction ids is accepted. With a cache whose answers do not change
    -- meanwhile, the candidates are the first ids from the cursor on whose proofs the cache does not
    -- have, as many as a batch holds; of the retained ids those stay that the inventory does not name;
    -- the ids are counted; and if the inventory has ids from the cursor on and the batch holds any, then
    -- the next cursor lies beyond the cursor.
    pub read_inventory-Scanned :
        (txids retained : List Bytes) (r : TransactionRelay parts)
        → All IsHash txids
        → Stable r.world
        → r.config.batch_size ≡ batch
        → Inventoried txids retained (
            read_inventory parts cursor
              (inventory_text txids)
              (record { missing = retained; candidates = []; count = 0; next_cursor = cursor })
              r)
    unfolding read_inventory inventory_start inventory_ids inventory_end inventory_loop separated
        skip_space
    read_inventory-Scanned [] retained r hashes w size = record {
      st' = record { missing = retained; candidates = []; count = 0; next_cursor = cursor };
      r' = r;
      ended = refl;
      world = w;
      missing = refl;
      count = refl;
      candidates = sym (empty cursor batch);
      advances = λ some_room h. absurd (omega arith);
    }
    read_inventory-Scanned (txid ∷ txids) retained r hashes w size =
        let more =
          scan_more (length (quoted txid ++ more_text txids)) (txid ∷ txids)
            (record { missing = retained; candidates = []; count = 0; next_cursor = cursor }) r
            (omega (arith, length-append (quoted txid) (more_text txids), length-more_text txids))
            hashes w size (omega arith) in
        record {
          st' = more.st';
          r' = more.r';
          ended =
              ap (λ q. after q (λ (x : Scan × List ℕ). lift (inventory_end x.1) >> pure x.0))
                more.ended;
          world = more.world;
          missing = more.missing;
          count = omega (arith, more.count);
          candidates =
              more.candidates
              ∙ ap (λ k. take batch (unknown known (drop k (txid ∷ txids)))) (minus_zero cursor);
          advances = λ some_room h.
              let steady =
                more.steady (record { before = λ z. refl; ahead = λ z z'. absurd (omega arith) }) in
              steady.ahead some_room (omega (arith, more.count));
        }
