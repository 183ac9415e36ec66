-- ===== src/Relay/Withdrawal.antt =====
-- `Poll` of src/transaction_relay.cpp and the tip: a poll that fails withdraws every proof.
use Prim.Native.String.{◌++◌}
use utreexo_core_rpc.Common.{String, ◌≡◌, refl, inl, inr, false, some, Option-cases, List}
use utreexo_core_rpc.Result.{Result, ok, err, thrown}
use utreexo_core_rpc.Wire.Bytes.{Bytes}
use utreexo_core_rpc.Transaction.Scan.{Transaction}
use utreexo_core_rpc.Relay.Run.{after-eq-ok}
use utreexo_core_rpc.Relay.Services.{Point, Parts, TransactionRelay}
use utreexo_core_rpc.Relay.Prepare.{check_tip}
use utreexo_core_rpc.Relay.Poll.{
  work_at, work, invalidated, caught, poll, regenerate, enter_epoch, prepare_incoming,
  recover_if_due,
}

module _ (parts : Parts) where
  -- What the cache promises of `Invalidate`: it forgets every proof.
  pub record IsForgetful : Type 0 where
    pub forgets :
        (w : parts.World) (txid : Bytes) → (parts.find txid (parts.invalidate w)).0 ≡ false

  -- The tip was the accumulator's point when the poll began and when it ended.
  pub record Anchored (r r' : TransactionRelay parts) : Type 0 where
    pub point : Point
    pub current : parts.current_point r.world ≡ some point
    pub begun : (r₁ : TransactionRelay parts) × (check_tip parts point r ≡ (ok tt, r₁))
    pub ended : (r₂ : TransactionRelay parts) × (check_tip parts point r₂ ≡ (ok tt, r'))

  pub data Polled (r : TransactionRelay parts)
      : Result (Unit {0}) → TransactionRelay parts → Type 0 where
    finished : (r' : TransactionRelay parts) → Anchored r r' → Polled r (ok tt) r'
    withdrawn :
        (message : String) (r' : TransactionRelay parts)
        → ((txid : Bytes) → (parts.find txid r'.world).0 ≡ false)
        → Polled r (err message) r'

  work_at-ends :
      (incoming : List Transaction) (point : Point) (r r' : TransactionRelay parts)
      → work_at parts incoming point r ≡ (ok tt, r')
      → ((r₁ : TransactionRelay parts) × (check_tip parts point r ≡ (ok tt, r₁)))
        × ((r₂ : TransactionRelay parts) × (check_tip parts point r₂ ≡ (ok tt, r')))
  unfolding work_at enter_epoch
  work_at-ends incoming point r r' e =
      let (_, r₁, begun, e₁) = after-eq-ok (check_tip parts point r) _ tt r' e in
      let entered : TransactionRelay parts =
        (enter_epoch parts (parts.stats_epoch r₁.world) r₁).1 in
      let active : TransactionRelay parts = record entered {
        world = parts.activate point entered.world;
      } in
      let (served, r₂, _, e₂) = after-eq-ok (regenerate parts 4 point 0 active) _ tt r' e₁ in
      let (_, r₃, _, e₃) = after-eq-ok (prepare_incoming parts incoming point r₂) _ tt r' e₂ in
      let (_, r₄, _, ended) = after-eq-ok (recover_if_due parts served point r₃) _ tt r' e₃ in
      ((r₁, begun), (r₄, ended))

  work-Anchored :
      (incoming : List Transaction) (r r' : TransactionRelay parts)
      → work parts incoming r ≡ (ok tt, r')
      → Anchored r r'
  unfolding work
  work-Anchored incoming r r' e = elim (Option-cases (parts.current_point r.world)) [
    | inl n ↦ cc (rw n at e)
    | inr (point, known) ↦
        let (begun, ended) = work_at-ends incoming point r r' (rw known at e) in
        record { point = point; current = known; begun = begun; ended = ended }
  ]

  caught-Polled :
      (forgetful : IsForgetful) (r : TransactionRelay parts)
      (q : Result (Unit {0}) × TransactionRelay parts)
      → ((r' : TransactionRelay parts) → q ≡ (ok tt, r') → Anchored r r')
      → Polled r (caught parts q).0 (caught parts q).1
  unfolding caught
  caught-Polled forgetful r (ok tt, r') anchored = finished r' (anchored r' refl)
  caught-Polled forgetful r (err message, r') anchored =
      withdrawn message (invalidated parts r') (forgetful.forgets r'.world)
  caught-Polled forgetful r (thrown what, r') anchored =
      withdrawn ("Core transaction metadata error: " ++ what) (invalidated parts r')
        (forgetful.forgets r'.world)

  -- Over a cache that `Invalidate` empties, `Poll` throws nothing. It returns normally only if the
  -- accumulator has a point, and Core named that point's block as its tip both in the first and in the
  -- last call of the poll; after an error, whatever its cause, the cache gives no proof for any
  -- transaction.
  pub poll-Polled :
      (forgetful : IsForgetful) (incoming : List Transaction) (r : TransactionRelay parts)
      → let q = poll parts incoming r in Polled r q.0 q.1
  unfolding poll
  poll-Polled forgetful incoming r =
      caught-Polled forgetful r (work parts incoming r) (work-Anchored incoming r)
