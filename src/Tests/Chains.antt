-- ===== src/Tests/Chains.antt =====
-- A forest that is no more than the hashes of its blocks.
use utreexo_core_rpc.Common.{
  ℕ, ◌≡◌, ◌≢◌, refl, ap, Option, true, none, some, List, [], ◌∷◌, length, if◌then◌else◌, ◌==◌,
}
use utreexo_core_rpc.Result.{Result, ok, err, thrown}
use utreexo_core_rpc.ProofCache.{ChainPoint}
use utreexo_core_rpc.Sync.{
  BlockDelta, FetchedBlock, Parts, Sync, current_point_of, process_next, reconcile_current_point,
  rollback_to,
}
use utreexo_core_rpc.Sync.Process.{IsFaithful, Processed, process_next-Processed}
use utreexo_core_rpc.Sync.Disconnect.{
  Shortened, IsActive, IsAt, reconcile_current_point-Shortened, rollback_to-Shortened,
}

abbrev undo : List ℕ → Result ChainPoint × List ℕ
undo [] = (err "empty", [])
undo (x ∷ []) = (err "first block", x ∷ [])
undo (x ∷ y ∷ ys) = (ok (record { height = length ys; block_hash = y }), y ∷ ys)

abbrev hashes_only : Parts
hashes_only = record {
  Forest = List ℕ;
  Proof = ℕ;
  Json = BlockDelta;
  is_online = λ f. true;
  modify_block = λ added deleted p f. (ok tt, p.block_hash ∷ f);
  rollback_online_block = undo;
  prove = λ d f. ok 0;
  roots = λ f. [];
  num_leaves = λ f. 0;
  verify_proof = λ p d r n. ok true;
  parse = λ json resolve. ok json;
}

abbrev taken : List ℕ → List ℕ
taken f = f

hashes_only-IsFaithful : IsFaithful hashes_only taken
hashes_only-IsFaithful = record {
  modify_ok = λ added deleted p f h. refl;
  modify_kept = λ added deleted p f n. absurd (n refl);
  rollback_ok = undone;
  rollback_kept = stays;
}
  where
    point_of : Result ChainPoint → Option ChainPoint
    point_of (ok q) = some q
    point_of (err e) = none
    point_of (thrown e) = none

    undone :
        (p : ChainPoint) (f : List ℕ)
        → (undo f).0 ≡ ok p
        → (tip : ℕ) × (f ≡ tip ∷ (undo f).1) × (current_point_of hashes_only (undo f).1 ≡ some p)
    undone p [] h = cc
    undone p (x ∷ []) h = cc
    undone p (x ∷ y ∷ ys) h = (x, refl, ap point_of h)

    stays : (f : List ℕ) → ((p : ChainPoint) → (undo f).0 ≢ ok p) → (undo f).1 ≡ f
    stays [] n = refl
    stays (x ∷ []) n = refl
    stays (x ∷ y ∷ ys) n = absurd (n _ refl)

abbrev three : Sync hashes_only
three = record {
  forest = 30 ∷ 20 ∷ 10 ∷ [];
  chain_hashes = 30 ∷ 20 ∷ 10 ∷ [];
  generate_proofs = true;
  proof_policy = none;
  announced = 0;
}

abbrev next_block : FetchedBlock BlockDelta
next_block = record {
  height = 3;
  hash = 40;
  json = record {
    point = record { height = 3; block_hash = 40 };
    previous_block_hash = 30;
    additions = 5 ∷ [];
    deletions = 6 ∷ [];
  };
}

process_next-Processed_example :
    let q = process_next hashes_only (ok next_block) three in
    Processed hashes_only taken three q.0 q.1
process_next-Processed_example =
    process_next-Processed hashes_only taken three (ok next_block) hashes_only-IsFaithful refl

-- The source has another third block.
abbrev reorganized : ℕ → ℕ → Result ℕ
reorganized n height = if height == 1 then ok 20 else ok 31

reconcile_current_point-Shortened_example :
    let q = reconcile_current_point hashes_only reorganized three in
    Shortened hashes_only taken hashes_only-IsFaithful 0 (30 ∷ 20 ∷ 10 ∷ []) q.0 q.1
    × IsActive hashes_only taken hashes_only-IsFaithful reorganized q.0 q.1
reconcile_current_point-Shortened_example =
    reconcile_current_point-Shortened hashes_only taken reorganized three hashes_only-IsFaithful
      refl

abbrev oldest : ChainPoint
oldest = record { height = 0; block_hash = 10 }

rollback_to-Shortened_example :
    let q = rollback_to hashes_only oldest three in
    Shortened hashes_only taken hashes_only-IsFaithful 0 (30 ∷ 20 ∷ 10 ∷ []) q.0 q.1
    × IsAt hashes_only taken hashes_only-IsFaithful oldest q.0 q.1
rollback_to-Shortened_example =
    rollback_to-Shortened hashes_only taken oldest three hashes_only-IsFaithful refl
