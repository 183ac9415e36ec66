-- ===== src/Transaction/Inventory/Vectors.antt =====
-- The inventory vectors of a payload: what `ParseGroups` makes of them, and which ones
-- `SerializeGroups` writes.
use utreexo_core_rpc.Common.{
  ℕ, zero, suc, ◌+◌, ◌*◌, ◌/◌, ◌^◌, ◌≤◌, ◌<◌, ◌≡◌, refl, ap, ◌∙◌, arith, List, [], ◌∷◌, ◌++◌, All,
  length, length-append, length-drop, append_assoc, append-nil, get_or, drop,
}
use mathlib.Core.Path.{fun_ext}
use utreexo_core_rpc.Result.{Result, ok, ◌>>=◌}
use utreexo_core_rpc.Wire.Bytes.{Bytes, append_le-eq, little_endian, length-little_endian}
use utreexo_core_rpc.Wire.Reader.{Reader, advance, rest}
use utreexo_core_rpc.Wire.Reader.Next.{read_le-next, read_hash-next}
use utreexo_core_rpc.Transaction.{padding}
use utreexo_core_rpc.Transaction.Inventory.{
  msg_utreexo_proof_hash, Kind, Group, positions, Parsing, take_vector, vector_loop, type_of,
  txid_of, append_packed, append_groups,
}
use utreexo_core_rpc.Transaction.Inventory.Slots.{long_list}

abbrev pub Vector : Type 0
Vector = ℕ × Bytes

abbrev pub vector_bytes : List Vector → Bytes
vector_bytes [] = []
vector_bytes ((type, hash) ∷ vs) = little_endian 4 type ++ (hash ++ vector_bytes vs)

abbrev pub IsVector : Vector → Type 0
IsVector (type, hash) = (type < 2 ^ 32) × (length hash ≡ 32)

unfoldable pub run_vectors : (k : Kind) → List Vector → Parsing k → Result (Parsing k)
run_vectors k [] st = ok st
run_vectors k ((type, hash) ∷ vs) st = do st' ← take_vector k type hash st; run_vectors k vs st'

pub vector_loop-run :
    (k : Kind) (vs : List Vector) (r : Reader) (tail : Bytes) (st : Parsing k)
    → rest r ≡ vector_bytes vs ++ tail
    → All IsVector vs
    → vector_loop k (length vs) r st ≡ run_vectors k vs st
unfolding vector_loop run_vectors
vector_loop-run k [] r tail st h fits = refl
vector_loop-run k ((type, hash) ∷ vs) r tail st h ((small, size), later) =
    let (first, behind) =
      read_le-next 4 type r (hash ++ vector_bytes vs ++ tail)
        (h ∙ append_assoc (little_endian 4 type) (hash ++ vector_bytes vs) tail) small in
    let (second, behind') =
      read_hash-next (advance 4 r) hash (vector_bytes vs ++ tail)
        (behind ∙ append_assoc hash (vector_bytes vs) tail) size in
    rw (first, second)
      (ap (λ f. take_vector k type hash st >>= f)
        (fun_ext (λ st'. vector_loop-run k vs (advance 32 (advance 4 r)) tail st' behind' later)))

-- The hash in which `p` and the next three positions are packed.
abbrev pub pack : ℕ → List ℕ → List ℕ
pack p ps = p ∷ (get_or ps 0 padding ∷ (get_or ps 1 padding ∷ (get_or ps 2 padding ∷ [])))

abbrev pub packs : ℕ → List ℕ → List Vector
packs n [] = []
packs zero (p ∷ ps) = []
packs (suc n) (p ∷ ps) = (msg_utreexo_proof_hash, long_list (pack p ps)) ∷ packs n (drop 3 ps)

unfoldable pub vectors_of : (k : Kind) → Group k → List Vector
vectors_of k group =
    (type_of k group, txid_of k group) ∷ packs (length (positions k group)) (positions k group)

unfoldable pub all_vectors : (k : Kind) → List (Group k) → List Vector
all_vectors k [] = []
all_vectors k (group ∷ groups) = vectors_of k group ++ all_vectors k groups

pub length-packs : (n : ℕ) (ps : List ℕ) → length ps ≤ n → length (packs n ps) ≡ (length ps + 3) / 4
length-packs n [] h = refl
length-packs zero (p ∷ ps) h = absurd (omega arith)
length-packs (suc n) (p ∷ ps) h =
    omega (arith, length-packs n (drop 3 ps) (omega (arith, length-drop 3 ps)), length-drop 3 ps)

append_packed-eq :
    (n : ℕ) (ps : List ℕ) (output : Bytes)
    → append_packed n ps output ≡ output ++ vector_bytes (packs n ps)
unfolding append_packed
append_packed-eq n [] output = rw append-nil refl
append_packed-eq zero (p ∷ ps) output = rw append-nil refl
append_packed-eq (suc n) (p ∷ ps) output =
    simp (append_packed-eq n (drop 3 ps), append_le-eq, append_assoc, append-nil) refl

vector_bytes-append :
    (vs ws : List Vector) → vector_bytes (vs ++ ws) ≡ vector_bytes vs ++ vector_bytes ws
vector_bytes-append [] ws = refl
vector_bytes-append ((type, hash) ∷ vs) ws = simp (vector_bytes-append vs ws, append_assoc) refl

pub append_groups-eq :
    (k : Kind) (groups : List (Group k)) (output : Bytes)
    → append_groups k groups output ≡ output ++ vector_bytes (all_vectors k groups)
unfolding append_groups all_vectors vectors_of
append_groups-eq k [] output = rw append-nil refl
append_groups-eq k (group ∷ groups) output =
    simp
      (append_groups-eq k groups, append_packed-eq, vector_bytes-append, append_le-eq, append_assoc)
      refl

pub length-vector_bytes :
    (vs : List Vector) → All IsVector vs → length (vector_bytes vs) ≡ length vs * 36
length-vector_bytes [] h = refl
length-vector_bytes ((type, hash) ∷ vs) ((small, size), later) = omega (
  arith,
  length-append (little_endian 4 type) (hash ++ vector_bytes vs),
  length-append hash (vector_bytes vs),
  length-little_endian 4 type,
  length-vector_bytes vs later,
)
