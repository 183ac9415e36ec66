-- ===== src/Relay/Noted.antt =====
-- What one id of the inventory does, in `RecoveryCandidates` of src/transaction_relay.cpp.
use utreexo_core_rpc.Common.{
  ◌<◌, true, false, ℕ, ◌+◌, ◌≤◌, ◌≡◌, refl, inl, inr, arith, Bool, ◌&&◌, Bool-cases, [], ◌∷◌, ◌++◌,
  if◌then◌else◌, ltb, leb, length,
}
use utreexo_core_rpc.Result.{ok}
use utreexo_core_rpc.Wire.Bytes.{Bytes}
use utreexo_core_rpc.Relay.Services.{Parts, TransactionRelay}
use utreexo_core_rpc.Relay.Candidates.{considered}
use utreexo_core_rpc.Relay.Inventory.{Scan, erase_hash, consider, note}

module _ (parts : Parts) where
  -- While `Stable` holds, the cache gives the same answers, and asking it keeps `Stable`.
  pub record IsStable (known : Bytes → Bool) (Stable : parts.World → Type 0) : Type 0 where
    pub answer : (w : parts.World) (txid : Bytes) → Stable w → (parts.find txid w).0 ≡ known txid
    pub kept : (w : parts.World) (txid : Bytes) → Stable w → Stable (parts.find txid w).1

  module _ (known : Bytes → Bool) (Stable : parts.World → Type 0) (stable : IsStable known Stable)
      (cursor batch : ℕ) where
    -- Behind the cursor nothing is collected, and an id beyond it moves the next cursor.
    pub record IsSteady (st : Scan) : Type 0 where
      pub before : st.count ≤ cursor → length st.candidates ≡ 0
      pub ahead : 0 < batch → cursor < st.count → cursor < st.next_cursor

    -- What one id does.
    pub record Noted (txid : Bytes) (st : Scan) (r : TransactionRelay parts) : Type 0 where
      pub st' : Scan
      pub r' : TransactionRelay parts
      pub run : note parts cursor txid st r ≡ (ok st', r')
      pub config : r'.config ≡ r.config
      pub world : Stable r'.world
      pub missing : st'.missing ≡ erase_hash txid st.missing
      pub count : st'.count ≡ st.count + 1
      pub candidates : st'.candidates ≡ considered known cursor batch st.count txid st.candidates
      pub steady : IsSteady st → IsSteady st'

    passed :
        (st : Scan)
        → (leb cursor st.count && ltb (length st.candidates) batch) ≡ true
        → ¬ st.count + 1 ≤ cursor
    passed st y h = ground (arith, y)

    passed_next :
        (st : Scan)
        → (leb cursor st.count && ltb (length st.candidates) batch) ≡ true
        → cursor < st.count + 1
    passed_next st y = ground (arith, y)

    waiting :
        (st : Scan)
        → (leb cursor st.count && ltb (length st.candidates) batch) ≡ false
        → (st.count ≤ cursor → length st.candidates ≡ 0)
        → 0 < batch
        → cursor < st.count + 1
        → cursor < st.count
    waiting st n before some_room h = elim (Bool-cases (ltb cursor st.count)) [
      | inl y ↦ ground (arith, y)
      | inr behind ↦
          let empty_yet = before (ground (arith, behind)) in
          absurd (
            cannot (leb cursor st.count) (ltb (length st.candidates) batch) (ground arith)
              (ground (arith, empty_yet)) n)
    ]
      where
        cannot : (a b : Bool) → a ≡ true → b ≡ true → ¬ (a && b) ≡ false
        cannot true true x y z = cc
        cannot true false x y z = cc
        cannot false b x y z = cc

    pub note-Noted :
        (txid : Bytes) (st : Scan) (r : TransactionRelay parts)
        → Stable r.world
        → r.config.batch_size ≡ batch
        → Noted txid st r
    unfolding note consider
    note-Noted txid st r w size =
        elim (Bool-cases (leb cursor st.count && ltb (length st.candidates) batch)) [
          | inl y ↦ record {
            st' = record st {
              missing = erase_hash txid st.missing;
              next_cursor = st.count + 1;
              candidates = if known txid then st.candidates else st.candidates ++ txid ∷ [];
              count = st.count + 1;
            };
            r' = record r { world = (parts.find txid r.world).1 };
            run = rw (note, size, y, consider, stable.answer r.world txid w) refl;
            config = refl;
            world = stable.kept r.world txid w;
            missing = refl;
            count = refl;
            candidates = rw y refl;
            steady = λ s. record {
              before = λ h. absurd (passed st y h);
              ahead = λ some_room h. passed_next st y;
            };
          }
          | inr n ↦ record {
            st' = record st { missing = erase_hash txid st.missing; count = st.count + 1 };
            r' = r;
            run = rw (note, size, n) refl;
            config = refl;
            world = w;
            missing = refl;
            count = refl;
            candidates = rw n refl;
            steady = λ s. record {
              before = λ h. s.before (omega arith);
              ahead = λ some_room h. s.ahead some_room (waiting st n (s.before) some_room h);
            };
          }
        ]
