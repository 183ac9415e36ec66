-- ===== src/Transaction/Inventory/RoundTrip.antt =====
-- What `SerializeGroups` writes, `ParseGroups` reads.
use utreexo_core_rpc.Common.{
  not-eq-false, some, ℕ, zero, suc, ◌+◌, ◌*◌, ◌/◌, ◌^◌, ◌≤◌, ◌<◌, ◌≡◌, refl, sym, ap, ◌∙◌, arith,
  true, false, not, ◌||◌, List, [], ◌∷◌, ◌++◌, All, All-append, ◌==◌, ltb, min, length,
  length-append, append-nil, drop,
}
use mathlib.Core.List.{reverse, reverse-reverse}
use utreexo_core_rpc.Result.{ok, refuse-eq-ok, >>=-eq-ok, ok-injective}
use utreexo_core_rpc.Wire.Bytes.{
  Bytes, compact_size, compact_size_bytes, append_compact_size, append_compact_size-eq,
  length-compact_size, length-little_endian, little_endian,
}
use utreexo_core_rpc.Wire.Reader.{open_reader, remaining, advance, rest, read_compact_size}
use utreexo_core_rpc.Wire.Reader.Reads.{rest-advance, remaining-rest}
use utreexo_core_rpc.Wire.CompactSize.{read_compact_size-reads}
use utreexo_core_rpc.Transaction.{
  padding, contains, unique_positions, max_inventory, max_inventory_payload,
}
use utreexo_core_rpc.Transaction.Inventory.{
  Kind, Group, positions, position_limit, is_valid_type, type_of, txid_of, count_vectors,
  all_unique, append_groups, no_groups, parse_groups, serialize_groups, vector_loop,
}
use utreexo_core_rpc.Transaction.Inventory.Slots.{long_list}
use utreexo_core_rpc.Transaction.Inventory.Vectors.{
  vector_bytes, IsVector, vector_loop-run, pack, packs, length-packs, vectors_of, all_vectors,
  append_groups-eq, length-vector_bytes,
}
use utreexo_core_rpc.Transaction.Inventory.Groups.{IsPosition, IsWritten, run_groups}

-- The sizes of the fields of a group.
pub record HasSizes (k : Kind) (group : Group k) : Type 0 where
  pub txid_size : length (txid_of k group) ≡ 32
  pub type_bound : type_of k group < 2 ^ 32
  pub position_bounds : All (λ p. p < 2 ^ 64) (positions k group)

-- What the first loop of `SerializeGroups` checks of a group.
abbrev IsCounted : (k : Kind) → Group k → Type 0
IsCounted k group = (is_valid_type k group ≡ true) × (length (positions k group) ≤ position_limit k)

count_vectors-Counted :
    (k : Kind) (groups : List (Group k)) (count total : ℕ)
    → count ≤ max_inventory
    → count_vectors k groups count ≡ ok total
    → (total ≡ count + length (all_vectors k groups))
      × (total ≤ max_inventory)
      × All (IsCounted k) groups
unfolding count_vectors all_vectors vectors_of
count_vectors-Counted k [] count total h e =
    let same : count ≡ total = cc in (omega arith, omega arith, tt)
count_vectors-Counted k (group ∷ groups) count total h e =
    let (valid, e₁) = refuse-eq-ok (not (is_valid_type k group)) _ _ _ e in
    let (room, e₂) = refuse-eq-ok (ltb (position_limit k) (length (positions k group))) _ _ _ e₁ in
    let ps = positions k group in
    let count' = count + (1 + (length ps + 3) / 4) in
    let (small, e₃) = refuse-eq-ok (ltb max_inventory count') _ _ _ e₂ in
    let (sum, bound, later) = count_vectors-Counted k groups count' total (ground arith) e₃ in
    (
      omega (
        arith,
        length-append (packs (length ps) ps) (all_vectors k groups),
        length-packs (length ps) ps (omega arith),
      ),
      bound,
      ((not-eq-false (is_valid_type k group) valid, ground arith), later),
    )

contains-differs :
    (ps : List ℕ) → contains ps padding ≡ false → All (λ p. p < 2 ^ 64) ps → All IsPosition ps
contains-differs [] e h = tt
contains-differs (p ∷ ps) e (fits, later) =
    ((fits, ground arith), contains-differs ps (ground arith) later)

pub unique-real :
    (ps : List ℕ) → unique_positions ps ≡ true → All (λ p. p < 2 ^ 64) ps → All IsPosition ps
unfolding unique_positions
unique-real ps e h = contains-differs ps (ground arith) h

groups-IsWritten :
    (k : Kind) (groups : List (Group k))
    → All (HasSizes k) groups
    → All (IsCounted k) groups
    → all_unique k groups ≡ true
    → All (IsWritten k) groups
unfolding all_unique
groups-IsWritten k [] sizes counted e = tt
groups-IsWritten k (group ∷ groups) (size, sizes) ((valid, room), counted) e = (
  record {
    valid = valid;
    room = room;
    real = unique-real (positions k group) (ground arith) size.position_bounds;
  },
  groups-IsWritten k groups sizes counted (ground arith),
)

length-long_list : (vs : List ℕ) → length (long_list vs) ≡ 8 * length vs
length-long_list [] = refl
length-long_list (v ∷ vs) = omega (
  arith,
  length-append (little_endian 8 v) (long_list vs),
  length-little_endian 8 v,
  length-long_list vs,
)

packs-AreVectors : (n : ℕ) (ps : List ℕ) → All IsVector (packs n ps)
packs-AreVectors n [] = tt
packs-AreVectors zero (p ∷ ps) = tt
packs-AreVectors (suc n) (p ∷ ps) =
    ((omega arith, four (pack p ps) refl), packs-AreVectors n (drop 3 ps))
  where
    four : (vs : List ℕ) → length vs ≡ 4 → length (long_list vs) ≡ 32
    four vs h = omega (arith, length-long_list vs)

groups-AreVectors :
    (k : Kind) (groups : List (Group k))
    → All (HasSizes k) groups
    → All IsVector (all_vectors k groups)
unfolding all_vectors vectors_of
groups-AreVectors k [] h = tt
groups-AreVectors k (group ∷ groups) (size, sizes) = (
  (size.type_bound, size.txid_size),
  All-append IsVector (packs (length (positions k group)) (positions k group))
      (all_vectors k groups) (packs-AreVectors (length (positions k group)) (positions k group))
      (groups-AreVectors k groups sizes),
)

-- A run of `SerializeGroups` that succeeds has written the vectors of its groups behind their number,
-- within the limits that `ParseGroups` has.
record Written (k : Kind) (groups : List (Group k)) (max_payload_bytes : ℕ) (bytes : Bytes)
    : Type 0 where
  count_bound : length (all_vectors k groups) ≤ max_inventory
  fits :
      compact_size_bytes (length (all_vectors k groups)) + length (all_vectors k groups) * 36
      ≤ min max_payload_bytes max_inventory_payload
  written :
      bytes ≡ compact_size (length (all_vectors k groups)) ++ vector_bytes (all_vectors k groups)
  unique : all_unique k groups ≡ true
  accepted : All (IsWritten k) groups

serialize_groups-Written :
    (k : Kind) (groups : List (Group k)) (max_payload_bytes : ℕ) (bytes : Bytes)
    → All (HasSizes k) groups
    → serialize_groups k groups max_payload_bytes ≡ ok bytes
    → Written k groups max_payload_bytes bytes
unfolding serialize_groups
serialize_groups-Written k groups max_payload_bytes bytes sizes e =
    let (few, e₁) = refuse-eq-ok (ltb max_inventory (length groups)) _ _ _ e in
    let (total, counts, e₂) = >>=-eq-ok (count_vectors k groups 0) _ _ e₁ in
    let (sum, bound, counted) = count_vectors-Counted k groups 0 total (omega arith) counts in
    let n = length (all_vectors k groups) in
    let same : total ≡ n = omega arith in
    let (fit, e₃) = refuse-eq-ok _ _ _ _ e₂ in
    let (unique, e₄) = refuse-eq-ok (not (all_unique k groups)) _ _ _ e₃ in
    let all = not-eq-false (all_unique k groups) unique in
    let output : append_groups k groups (append_compact_size total []) ≡ bytes = ok-injective e₄ in
    record {
      count_bound = omega arith;
      fits = rw same at (within total _ fit);
      written =
          sym output
          ∙ append_groups-eq k groups (append_compact_size total [])
          ∙ rw (append_compact_size-eq, same) refl;
      unique = all;
      accepted = groups-IsWritten k groups sizes counted all;
    }
  where
    within :
        (count limit : ℕ)
        → ltb limit (compact_size_bytes count + count * 36) ≡ false
        → compact_size_bytes count + count * 36 ≤ limit
    within count limit h = ground arith

-- If `SerializeTransactionAnnouncements` or `SerializeTransactionProofRequests` accepts groups whose
-- fields have their sizes, then the parser of the same kind, under the same limit, reads the groups
-- back from the bytes: all of them in their order, each with its txid, its type and its positions in
-- their order, whatever the padding of the last vectors.
pub parse_groups-serialize_groups :
    (k : Kind) (groups : List (Group k)) (max_payload_bytes : ℕ) (bytes : Bytes)
    → All (HasSizes k) groups
    → serialize_groups k groups max_payload_bytes ≡ ok bytes
    → parse_groups k bytes max_payload_bytes ≡ ok groups
unfolding parse_groups
parse_groups-serialize_groups k groups max_payload_bytes bytes sizes e =
    let w = serialize_groups-Written k groups max_payload_bytes bytes sizes e in
    let vs = all_vectors k groups in
    let n = length vs in
    let vectors = groups-AreVectors k groups sizes in
    let head = compact_size n in
    let r = open_reader (head ++ vector_bytes vs) in
    let r' = advance (compact_size_bytes n) r in
    let size : length bytes ≡ compact_size_bytes n + n * 36 =
      ap (λ xs. length xs) w.written
      ∙ length-append head (vector_bytes vs)
      ∙ omega (arith, length-compact_size n, length-vector_bytes vs vectors) in
    let small : ltb (min max_payload_bytes max_inventory_payload) (length bytes) ≡ false =
      above _ _ (omega (arith, w.fits)) in
    let reads : read_compact_size r ≡ some (n, r') =
      read_compact_size-reads n r (vector_bytes vs) refl (omega (arith, w.count_bound)) in
    let behind : rest r' ≡ vector_bytes vs =
      ap (λ m. rest (advance m r)) (sym (length-compact_size n))
      ∙ rest-advance r head (vector_bytes vs) refl in
    let left : remaining r' ≡ n * 36 =
      remaining-rest r' ∙ ap (λ xs. length xs) behind ∙ length-vector_bytes vs vectors in
    let (a, b, runs) = run_groups k groups (no_groups k) w.accepted in
    let loop : vector_loop k n r' (no_groups k)
        ≡ ok (record { groups = reverse groups ++ []; attachable = a; padded = b }) =
      vector_loop-run k vs r' [] (no_groups k) (behind ∙ sym (append-nil (vector_bytes vs))) vectors
      ∙ runs in
    let exact : (ltb max_inventory n || not (n * 36 == n * 36)) ≡ false = exactly n w.count_bound in
    let order : reverse (reverse groups ++ []) ≡ groups =
      ap (λ gs. reverse gs) (append-nil (reverse groups)) ∙ reverse-reverse groups in
    rw (small, w.written, reads, left, exact, loop, order, w.unique) refl
  where
    above : (limit size : ℕ) → size ≤ limit → ltb limit size ≡ false
    above limit size h = ground arith

    exactly : (n : ℕ) → n ≤ max_inventory → (ltb max_inventory n || not (n * 36 == n * 36)) ≡ false
    exactly n h = ground arith
