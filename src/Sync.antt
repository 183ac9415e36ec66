-- ===== src/Sync.antt =====
-- `SequentialSync` of src/sync.cpp without prefetching: it moves a forest along the chain of blocks.
-- The vector `m_chain_hashes` is a list whose head is its back. The forest, the source of blocks and
-- the parser of a block are parameters.
pub mod Process
pub mod Disconnect
use Prim.Native.String.{◌++◌}
use utreexo_core_rpc.Common.{
  String, ℕ, zero, suc, ◌+◌, ◌-◌, ◌^◌, Bool, true, false, not, ◌&&◌, ◌||◌, Option, none, some, List,
  [], ◌∷◌, if◌then◌else◌, ◌==◌, ltb, leb, length, get_or,
}
use utreexo_core_rpc.Result.{Result, ok, err, thrown, ◌>>=◌}
use utreexo_core_rpc.ProofCache.{ChainPoint, same_point}

-- `BlockDelta`, as far as the synchronisation reads it. A hash is a number.
pub record BlockDelta : Type 0 where
  pub point : ChainPoint
  pub previous_block_hash : ℕ
  pub additions : List ℕ
  pub deletions : List ℕ

-- `FetchedBlock`, given the type of a block's text.
pub record FetchedBlock (Json : Type 0) : Type 0 where
  pub height : ℕ
  pub hash : ℕ
  pub json : Json

-- What the synchronisation uses of a forest and of a parser.
pub record Parts : Type 1 where
  pub Forest : Type 0
  pub Proof : Type 0
  pub Json : Type 0
  pub is_online : Forest → Bool
  pub modify_block : List ℕ → List ℕ → ChainPoint → Forest → Result (Unit {0}) × Forest
  pub rollback_online_block : Forest → Result ChainPoint × Forest
  pub prove : List ℕ → Forest → Result Proof
  pub roots : Forest → List (Option ℕ)
  pub num_leaves : Forest → ℕ
  pub verify_proof : Proof → List ℕ → List ℕ → ℕ → Result Bool
  -- `ParseVerboseBlockJson` with its resolver of creation heights
  pub parse : Json → (ℕ → Result ℕ) → Result BlockDelta

module _ (parts : Parts) where
  open parts use {Forest, Proof, Json}

  pub record Sync : Type 0 where
    pub forest : Forest
    pub chain_hashes : List ℕ
    pub generate_proofs : Bool
    pub proof_policy : Option (BlockDelta → Result Bool)
    -- how often the callback before a mutation was called
    pub announced : ℕ

  abbrev pub current_point_of : List ℕ → Option ChainPoint
  current_point_of [] = none
  current_point_of (tip ∷ earlier) = some (record { height = length earlier; block_hash = tip })

  abbrev pub current_point : Sync → Option ChainPoint
  current_point s = current_point_of s.chain_hashes

  -- `m_chain_hashes[height]`
  abbrev pub hash_at : ℕ → List ℕ → ℕ
  hash_at height chain = get_or chain (length chain - 1 - height) 0

  -- The resolver of `ProcessNext`.
  abbrev pub resolve : List ℕ → ℕ → Result ℕ
  resolve chain height =
      if leb (length chain) height
      then err "creation height is not in the processed chain-hash index"
      else ok (hash_at height chain)

  -- The roots, unless one is missing.
  abbrev pub all_roots : List (Option ℕ) → Result (List ℕ)
  all_roots [] = ok []
  all_roots (none ∷ rs) = err "pre-block forest contains a missing root"
  all_roots (some r ∷ rs) = all_roots rs >>= λ later. ok (r ∷ later)

  -- The result of a step, with an error reported under a heading.
  abbrev pub within {ℓ} : {A : Type ℓ} → String → Result A → Result A
  within heading (ok a) = ok a
  within heading (err e) = err (heading ++ e)
  within heading (thrown e) = thrown e

  -- The fetched block parsed, and checked against the tip of the chain.
  unfoldable pub connected : List ℕ → FetchedBlock Json → BlockDelta → Result BlockDelta
  connected chain fetched delta =
      if not ((delta.point.height == length chain) && (delta.point.block_hash == fetched.hash))
      then err "getblock result does not match the requested active-chain block"
      else if ltb 0 (length chain)
          && not (delta.previous_block_hash == hash_at (length chain - 1) chain)
      then err "block does not connect to the sidecar chain tip"
      else ok delta

  unfoldable pub checked_delta : List ℕ → FetchedBlock Json → Result BlockDelta
  checked_delta chain fetched =
      if not (fetched.height == length chain)
      then err "fetched block height does not match the requested height"
      else (parts.parse fetched.json (resolve chain) >>= λ delta. connected chain fetched delta)

  unfoldable pub wants_proof : Bool → Option (BlockDelta → Result Bool) → BlockDelta → Result Bool
  wants_proof generate none delta = ok generate
  wants_proof generate (some policy) delta =
      within "proof-generation policy failed: " (policy delta)

  -- The proof of the block's deletions, verified against the forest before the block.
  unfoldable pub verified_proof : BlockDelta → Forest → Result Proof
  verified_proof delta forest = do
    proof ← within "could not generate pre-block proof: " (parts.prove delta.deletions forest)
    roots ← all_roots (parts.roots forest)
    verified ←
        within "could not verify generated pre-block proof: "
          (parts.verify_proof proof delta.deletions roots (parts.num_leaves forest))
    if verified then ok proof else err "generated pre-block proof does not match forest roots"

  unfoldable pub proof_for : Bool → BlockDelta → Forest → Result (Option Proof)
  proof_for false delta forest = ok none
  proof_for true delta forest = verified_proof delta forest >>= λ proof. ok (some proof)

  -- All that `ProcessNext` does before it changes anything.
  unfoldable pub prepared : FetchedBlock Json → Sync → Result (BlockDelta × Option Proof)
  prepared fetched s = do
    delta ← checked_delta s.chain_hashes fetched
    generate ← wants_proof s.generate_proofs s.proof_policy delta
    proof ← proof_for generate delta s.forest
    ok (delta, proof)

  -- The chain grows first; where the forest refuses the block, the new hash is taken off again.
  unfoldable pub applied :
      ℕ → BlockDelta × Option Proof → Sync → Result (BlockDelta × Option Proof) × Sync
  applied hash p s =
      let grown = record s { chain_hashes = hash ∷ s.chain_hashes; announced = s.announced + 1 } in
      let m = parts.modify_block p.0.additions p.0.deletions p.0.point s.forest in
      elim m.0 [
        | ok _ ↦ (ok p, record grown { forest = m.1 })
        | err e ↦ (
          err ("could not apply block transition: " ++ e),
          record grown { chain_hashes = s.chain_hashes; forest = m.1 },
        )
        | thrown e ↦ (thrown e, record grown { chain_hashes = s.chain_hashes; forest = m.1 })
      ]

  -- `ProcessNext`, given what the source answers for the next height.
  unfoldable pub process_next :
      Result (FetchedBlock Json) → Sync → Result (BlockDelta × Option Proof) × Sync
  process_next source s =
      if ltb 0xffff_ffff (length s.chain_hashes)
      then (err "chain height exceeds the sidecar format", s)
      else elim source [
        | err e ↦ (err e, s)
        | thrown e ↦ (thrown e, s)
        | ok fetched ↦ elim (prepared fetched s) [
          | err e ↦ (err e, s)
          | thrown e ↦ (thrown e, s)
          | ok p ↦ applied fetched.hash p s
        ]
      ]

  -- One block is taken off the forest and the chain.
  unfoldable pub contiguous : ChainPoint → List ℕ → Bool
  contiguous p chain =
      not (ltb (length chain) 2)
      && ((p.height + 1 == length chain - 1) && (hash_at p.height chain == p.block_hash))

  abbrev pub popped : List ℕ → List ℕ
  popped [] = []
  popped (tip ∷ earlier) = earlier

  unfoldable pub disconnect : Sync → Result (Unit {0}) × Sync
  disconnect s =
      let r = parts.rollback_online_block s.forest in
      let moved = record s { announced = s.announced + 1; forest = r.1 } in
      elim r.0 [
        | err e ↦ (err e, moved)
        | thrown e ↦ (thrown e, moved)
        | ok p ↦
            if contiguous p s.chain_hashes
            then (ok tt, record moved { chain_hashes = popped s.chain_hashes })
            else (err "online rollback returned a non-contiguous chain point", moved)
      ]

  -- `ReconcileCurrentPoint`. The source may answer differently each time: `active n` is what it says
  -- after `n` disconnected blocks. The chain, whose copy is the second list, gets shorter each round.
  unfoldable pub reconcile_loop : (ℕ → ℕ → Result ℕ) → ℕ → List ℕ → Sync → Result ℕ × Sync
  reconcile_loop active n [] s = (err "cannot reconcile an empty chain point", s)
  reconcile_loop active n (tip ∷ earlier) s = elim (active n (length earlier)) [
    | err e ↦ (err e, s)
    | thrown e ↦ (thrown e, s)
    | ok hash ↦ elim (hash == tip) [
      | true ↦ (ok n, s)
      | false ↦ elim (parts.is_online s.forest) [
        | false ↦ (
          err "active-chain reorganization requires online WAL before-images or checkpoint restore",
          s,
        )
        | true ↦
            let d = disconnect s in
            elim d.0 [
              | err e ↦ (err e, d.1)
              | thrown e ↦ (thrown e, d.1)
              | ok _ ↦ reconcile_loop active (n + 1) earlier d.1
            ]
      ]
    ]
  ]

  unfoldable pub reconcile_current_point : (ℕ → ℕ → Result ℕ) → Sync → Result ℕ × Sync
  reconcile_current_point active s = reconcile_loop active 0 s.chain_hashes s

  -- The loop of `RollbackTo`.
  unfoldable pub rollback_loop : ℕ → ℕ → List ℕ → Sync → Result ℕ × Sync
  rollback_loop height n [] s = (ok n, s)
  rollback_loop height n (tip ∷ earlier) s = elim (ltb height (length earlier)) [
    | false ↦ (ok n, s)
    | true ↦
        let d = disconnect s in
        elim d.0 [
          | err e ↦ (err e, d.1)
          | thrown e ↦ (thrown e, d.1)
          | ok _ ↦ rollback_loop height (n + 1) earlier d.1
        ]
  ]

  abbrev pub at_point : ChainPoint → Option ChainPoint → Bool
  at_point target none = false
  at_point target (some p) = same_point p target

  -- The end of `RollbackTo`.
  unfoldable pub recovered : ChainPoint → Result ℕ × Sync → Result ℕ × Sync
  recovered target (err e, s) = (err e, s)
  recovered target (thrown e, s) = (thrown e, s)
  recovered target (ok n, s) = (
    if at_point target (current_point s)
        then ok n
        else err "rollback target hash is not in the retained online chain",
    s,
  )

  unfoldable pub rollback_to : ChainPoint → Sync → Result ℕ × Sync
  rollback_to target s = elim (current_point s) [
    | none ↦ (err "cannot roll back an empty chain point", s)
    | some current ↦
        if ltb current.height target.height
        then (err "rollback target is above the current point", s)
        else if not (parts.is_online s.forest) && not (same_point target current)
        then (err "explicit rollback requires online WAL before-images", s)
        else recovered target (rollback_loop target.height 0 s.chain_hashes s)
  ]

  -- `ValidateCurrentPoint`, given the source's answer for a height.
  unfoldable pub validate_current_point : (ℕ → Result ℕ) → Sync → Result (Unit {0})
  validate_current_point active s = elim (current_point s) [
    | none ↦ err "cannot validate an empty chain point"
    | some point ↦ active point.height >>= λ hash.
        if hash == point.block_hash
        then ok tt
        else err
            "active-chain reorganization detected at or below the sidecar tip; restore the last stable checkpoint"
  ]
