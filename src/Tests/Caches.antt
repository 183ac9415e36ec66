-- ===== src/Tests/Caches.antt =====
-- A cache of two proofs, which are numbers.
use utreexo_core_rpc.Common.{ℕ, ◌+◌, ◌≡◌, refl, inl, inr, arith, true, none, some, [], ◌∷◌}
use utreexo_core_rpc.Result.{ok}
use utreexo_core_rpc.ProofCache.{
  Preparation, ChainPoint, Entry, Cache, publish, clear, expire, expire_loop, erase_entry, find,
  find_matching,
}
use utreexo_core_rpc.ProofCache.Valid.{IsValid}
use utreexo_core_rpc.ProofCache.Publish.{Published, publish-Published}
use utreexo_core_rpc.ProofCache.Steps.{Kept, publishing, Steps, done, next_step, Steps-Kept}
use utreexo_core_rpc.ProofCache.Find.{
  Answers, find_matching-Answers, find_matching-clear, find-Held, request_for,
}

abbrev numbers : Preparation
numbers = record {
  Proof = ℕ;
  txid = λ p. p;
  memory_usage = λ p. 100;
  serialize = λ p. ok [];
  proof_hashes = λ p. [];
  targets = λ p. 1;
  sha256 = λ b. 0;
  parent_hash = λ a b. a + b;
  entry_size = 44;
}

abbrev tip : ChainPoint
tip = record { height = 5; block_hash = 55 }

abbrev first : Entry numbers
first = record {
  point = tip;
  sequence = 1;
  proof = 7;
  expires = 61;
  bytes = 400;
  epoch = 3;
  digest = 0;
}

abbrev second : Entry numbers
second = record {
  point = tip;
  sequence = 2;
  proof = 9;
  expires = 70;
  bytes = 400;
  epoch = 3;
  digest = 0;
}

abbrev two : Cache numbers
two = record {
  config = record { max_entries = 2; max_bytes = 1000; lifetime = 60; max_regenerations = 8 };
  point = some tip;
  sequence = 2;
  stats = record {
    bytes = 800;
    published = 2;
    evicted = 0;
    expired = 0;
    oversized = 0;
    invalidations = 3;
    epoch = 3;
    ready = true;
  };
  entries = first ∷ second ∷ [];
  by_txid = (7, 1) ∷ (9, 2) ∷ [];
}

two-IsValid : IsValid numbers two
two-IsValid = record {
  ascending = (omega arith, (omega arith, tt));
  latest = (omega arith, (omega arith, tt));
  indexed = refl;
  single = (((λ x. omega arith), tt), (tt, tt));
  counted = refl;
  fits = omega arith;
  few = omega arith;
  current = ((refl, refl), ((refl, refl), tt));
  idle = λ x. cc;
  bounded = (omega arith, omega arith);
}

publish-Published_example :
    let q = publish numbers 20 21 tip 11 two in Published numbers tip 11 two q.0 q.1
publish-Published_example = publish-Published numbers 20 21 tip 11 two two-IsValid (omega arith)

one_more : Steps numbers two (publish numbers 20 21 tip 11 two).1
one_more = next_step (publishing 20 21 tip 11 two (omega arith)) (done _)

Steps-Kept_example : Kept numbers two (publish numbers 20 21 tip 11 two).1
Steps-Kept_example =
    Steps-Kept numbers two (publish numbers 20 21 tip 11 two).1 one_more two-IsValid

found_second : (find_matching numbers 65 (request_for numbers second) two).0 ≡ some second
unfolding find_matching expire expire_loop erase_entry
found_second = refl

find_matching-Answers_example : Answers numbers (request_for numbers second) two second
find_matching-Answers_example =
    find_matching-Answers numbers 65 (request_for numbers second) two second two-IsValid
      found_second

find-Held_example :
    ((find numbers 65 9 none two).0 ≡ some second)
    × ((find_matching numbers 65 (request_for numbers second) two).0 ≡ some second)
find-Held_example = find-Held numbers 65 second two two-IsValid (inr (inl refl)) (omega arith)

find_matching-clear_example :
    (find_matching numbers 20 (request_for numbers second) (clear numbers two)).0 ≡ none
find_matching-clear_example =
    find_matching-clear numbers two two (clear numbers two) (request_for numbers second) 20
      two-IsValid (omega arith) (done two) (omega arith) (done (clear numbers two))
