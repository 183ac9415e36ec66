-- ===== src/Relay/Poll.antt =====
-- The constructor and `Poll` of src/transaction_relay.cpp, without the log.
use Prim.Native.String.{◌++◌}
use utreexo_core_rpc.Common.{
  ℕ, zero, suc, ◌+◌, ◌*◌, true, false, ◌||◌, none, some, List, [], ◌∷◌, if◌then◌else◌, ◌==◌, ltb,
  leb, length,
}
use utreexo_core_rpc.Result.{Result, ok, err, thrown}
use utreexo_core_rpc.Wire.Bytes.{Bytes}
use utreexo_core_rpc.Transaction.Scan.{Transaction}
use utreexo_core_rpc.ProofCache.{Request}
use utreexo_core_rpc.Relay.Run.{pure, fail, ◌>>=◌, ◌>>◌}
use utreexo_core_rpc.Relay.Services.{
  Point, Parts, TransactionRelayConfig, TransactionRelay, Relaying, asking, telling, reading,
}
use utreexo_core_rpc.Relay.Prepare.{check_tip, prepare, prepare_by_id}
use utreexo_core_rpc.Relay.Inventory.{recovery_candidates}

module _ (parts : Parts) where
  -- The constructor; the epoch is `UINT64_MAX`.
  unfoldable pub new_relay : TransactionRelayConfig → parts.World → Result (TransactionRelay parts)
  new_relay config w =
      if (config.batch_size == 0)
        || (ltb 1024 config.batch_size
            || ((config.recovery_interval == 0) || ltb (5 * 60) config.recovery_interval))
      then thrown "invalid Core transaction relay settings"
      else ok (record {
        config = config;
        world = w;
        scan_cursor = 0;
        epoch = 0xffff_ffff_ffff_ffff;
        next_recovery = 0;
      })

  -- Another epoch of the cache starts the recovery afresh.
  unfoldable pub enter_epoch : ℕ → Relaying parts (Unit {0})
  enter_epoch epoch r = (
    ok tt,
    if epoch == r.epoch then r else record r { scan_cursor = 0; next_recovery = 0; epoch = epoch },
  )

  -- A proof is prepared again unless the cache has it.
  unfoldable pub regenerate_one : Request → Point → Relaying parts (Unit {0})
  regenerate_one request point = do
    found ← asking parts (parts.find_matching request)
    elim found [
      | true ↦ pure tt
      | false ↦ do prepared ← prepare_by_id parts (parts.request_txid request) point; pure tt
    ]
    available ← asking parts (parts.complete_regeneration request)
    pure tt

  -- The loop over the requests, with `n` rounds left; it counts those that are served.
  unfoldable pub regenerate : ℕ → Point → ℕ → Relaying parts ℕ
  regenerate zero point regenerated = pure regenerated
  regenerate (suc n) point regenerated = do
    request ← asking parts parts.take_regeneration
    elim request [
      | none ↦ pure regenerated
      | some request ↦ do regenerate_one request point; regenerate n point (regenerated + 1)
    ]

  unfoldable pub prepare_incoming : List Transaction → Point → Relaying parts (Unit {0})
  prepare_incoming [] point = pure tt
  prepare_incoming (tx ∷ incoming) point = do
    found ← asking parts (parts.find tx.txid)
    elim found [
      | true ↦ prepare_incoming incoming point
      | false ↦ do prepared ← prepare parts tx point; prepare_incoming incoming point
    ]

  unfoldable pub prepare_candidates : List Bytes → Point → Relaying parts (Unit {0})
  prepare_candidates [] point = pure tt
  prepare_candidates (txid ∷ candidates) point = do
    prepared ← prepare_by_id parts txid point
    prepare_candidates candidates point

  abbrev schedule : ℕ → Relaying parts (Unit {0})
  schedule time r = (ok tt, record r { next_recovery = time })

  -- A full batch is followed by the next one at the next poll.
  abbrev pause : ℕ → TransactionRelayConfig → ℕ
  pause size config = if size == config.batch_size then 0 else config.recovery_interval

  unfoldable pub recover : Point → Relaying parts (Unit {0})
  recover point = do
    candidates ← recovery_candidates parts
    prepare_candidates candidates point
    now ← asking parts parts.now
    λ r. schedule (now + pause (length candidates) r.config) r

  -- Recovery, if no request was served and it is time; the clock is read only then.
  unfoldable pub recover_if_due : ℕ → Point → Relaying parts (Unit {0})
  recover_if_due (suc regenerated) point = pure tt
  recover_if_due zero point = do
    now ← asking parts parts.now
    λ r. (if leb r.next_recovery now then recover point else pure tt) r

  unfoldable pub work_at : List Transaction → Point → Relaying parts (Unit {0})
  work_at incoming point = do
    check_tip parts point
    epoch ← reading parts parts.stats_epoch
    enter_epoch epoch
    telling parts (parts.activate point)
    regenerated ← regenerate 4 point 0
    prepare_incoming incoming point
    recover_if_due regenerated point
    check_tip parts point

  -- The lambda `work`.
  unfoldable pub work : List Transaction → Relaying parts (Unit {0})
  work incoming = do
    current ← reading parts parts.current_point
    elim current [
      | none ↦ fail "transaction relay requires an accumulator chain point"
      | some point ↦ work_at incoming point
    ]

  abbrev pub invalidated : TransactionRelay parts → TransactionRelay parts
  invalidated r = record r { world = parts.invalidate r.world }

  -- The `try` block; the members that `work` has changed stay changed. What is thrown is an exception of
  -- the standard library: those of UniValue are.
  unfoldable pub caught :
      Result (Unit {0}) × TransactionRelay parts → Result (Unit {0}) × TransactionRelay parts
  caught (ok done, r) = (ok done, r)
  caught (err message, r) = (err message, invalidated r)
  caught (thrown what, r) = (err ("Core transaction metadata error: " ++ what), invalidated r)

  unfoldable pub poll : List Transaction → Relaying parts (Unit {0})
  poll incoming r = caught (work incoming r)
