-- ===== src/Udata/Injective.antt =====
-- The bytes of `SerializeUData` determine the proof and the leaves.
use utreexo_core_rpc.Common.{
  All, ℕ, ◌*◌, ◌^◌, ◌<◌, ◌≡◌, refl, sym, ap, ◌∙◌, arith, true, false, Bool-cases, inl, inr, List,
  [], ◌∷◌, ◌++◌, length, append_assoc, append-nil, ◌==◌, ==_iff, if◌then◌else◌,
}
use utreexo_core_rpc.Result.{ok}
use utreexo_core_rpc.Wire.Bytes.{Bytes, little_endian, length-little_endian, compact_size}
use utreexo_core_rpc.Wire.Reader.{open_reader}
use utreexo_core_rpc.Wire.CompactSize.{read_compact_size-reads}
use utreexo_core_rpc.Leaf.{
  ScriptPubkeyType, other, pubkey_hash, witness_v0_pubkey_hash, script_hash, witness_v0_script_hash,
  CompactLeafData, is_other,
}
use utreexo_core_rpc.Leaf.Encoding.{append_same, little_endian-injective}
use utreexo_core_rpc.Udata.{Proof, script_type_byte, is_empty, serialize_udata}
use utreexo_core_rpc.Udata.Encoding.{
  concat_map, is_plain, all_plain, script_part, leaf_bytes, udata, serialize_udata-eq,
}

compact_size-prefix :
    (v w : ℕ) (a b : Bytes)
    → v < 2 ^ 64
    → w < 2 ^ 64
    → compact_size v ++ a ≡ compact_size w ++ b
    → (v ≡ w) × (a ≡ b)
compact_size-prefix v w a b h k e =
    let r = open_reader (compact_size v ++ a) in
    let x = read_compact_size-reads v r a refl h in
    let y = read_compact_size-reads w r b e k in
    let n : v ≡ w = cc in
    let (_, later) =
      append_same (compact_size v) (compact_size w) a b (ap (λ u. length (compact_size u)) n) e in
    (n, later)

little_endian-prefix :
    (n v w : ℕ) (a b : Bytes)
    → v < 2 ^ (8 * n)
    → w < 2 ^ (8 * n)
    → little_endian n v ++ a ≡ little_endian n w ++ b
    → (v ≡ w) × (a ≡ b)
little_endian-prefix n v w a b h k e =
    let (same, later) =
      append_same (little_endian n v) (little_endian n w) a b
        (length-little_endian n v ∙ sym (length-little_endian n w)) e in
    (little_endian-injective n v w h k same, later)

-- Lists of the same length are told apart by encodings of which none is the start of another.
concat_map-prefix :
    {A : Type 0} (f : A → Bytes) (P : A → Type 0)
    → ((x y : A) (a b : Bytes) → P x → P y → f x ++ a ≡ f y ++ b → (x ≡ y) × (a ≡ b))
    → (xs ys : List A) (a b : Bytes) → length xs ≡ length ys
    → All P xs
    → All P ys
    → concat_map f xs ++ a ≡ concat_map f ys ++ b
    → (xs ≡ ys) × (a ≡ b)
concat_map-prefix f P one [] [] a b n p q e = (refl, e)
concat_map-prefix f P one [] (y ∷ ys) a b n p q e = absurd (omega arith)
concat_map-prefix f P one (x ∷ xs) [] a b n p q e = absurd (omega arith)
concat_map-prefix f P one (x ∷ xs) (y ∷ ys) a b n (p, ps) (q, qs) e =
    let (first, later) =
      one x y (concat_map f xs ++ a) (concat_map f ys ++ b) p q (
        sym (append_assoc (f x) (concat_map f xs) a)
        ∙ e
        ∙ append_assoc (f y) (concat_map f ys) b) in
    let (rest, last) = concat_map-prefix f P one xs ys a b (omega arith) ps qs later in
    (rw (first, rest) refl, last)

-- The type of a byte.
abbrev type_of_byte : ℕ → ScriptPubkeyType
type_of_byte n =
    if n == 0
    then other
    else if n == 1
    then pubkey_hash
    else if n == 2
    then witness_v0_pubkey_hash
    else if n == 3
    then script_hash
    else witness_v0_script_hash

type_of_byte-script_type_byte : (s : ScriptPubkeyType) → type_of_byte (script_type_byte s) ≡ s
unfolding script_type_byte
type_of_byte-script_type_byte other = refl
type_of_byte-script_type_byte pubkey_hash = refl
type_of_byte-script_type_byte witness_v0_pubkey_hash = refl
type_of_byte-script_type_byte script_hash = refl
type_of_byte-script_type_byte witness_v0_script_hash = refl

-- The sizes of the fields of a leaf that is written.
pub record HasSizes (leaf : CompactLeafData) : Type 0 where
  pub code_bound : leaf.header_code < 2 ^ 32
  pub amount_bound : leaf.amount < 2 ^ 64
  pub script_bound : length leaf.script < 2 ^ 64

abbrev IsWritable : CompactLeafData → Type 0
IsWritable leaf = HasSizes leaf × (is_plain leaf ≡ true)

empty-eq : (s : Bytes) → is_empty s ≡ true → s ≡ []
empty-eq [] h = refl
empty-eq (b ∷ bs) h = cc

script_part-prefix :
    (l m : CompactLeafData) (a b : Bytes)
    → IsWritable l
    → IsWritable m
    → l.script_type ≡ m.script_type
    → script_part l ++ a ≡ script_part m ++ b
    → (l.script ≡ m.script) × (a ≡ b)
script_part-prefix l m a b (p, plain) (q, plain') t e = elim (Bool-cases (is_other l.script_type)) [
  | inl y ↦
      let y' : is_other m.script_type ≡ true = rw (sym t) y in
      let e' : compact_size (length l.script) ++ (l.script ++ a)
          ≡ compact_size (length m.script) ++ (m.script ++ b) =
        sym (append_assoc (compact_size (length l.script)) l.script a)
        ∙ (rw (y, y') at e)
        ∙ append_assoc (compact_size (length m.script)) m.script b in
      let (n, later) =
        compact_size-prefix (length l.script) (length m.script) (l.script ++ a) (m.script ++ b)
          p.script_bound q.script_bound e' in
      append_same l.script m.script a b n later
  | inr n ↦
      let n' : is_other m.script_type ≡ false = rw (sym t) n in
      let x : l.script ≡ [] = empty-eq l.script (rw n at plain) in
      let y : m.script ≡ [] = empty-eq m.script (rw n' at plain') in (x ∙ sym y, rw (n, n') at e)
]

leaf_bytes-prefix :
    (l m : CompactLeafData) (a b : Bytes)
    → IsWritable l
    → IsWritable m
    → leaf_bytes l ++ a ≡ leaf_bytes m ++ b
    → (l ≡ m) × (a ≡ b)
leaf_bytes-prefix l m a b (p, plain) (q, plain') e =
    let (code, e₁) =
      little_endian-prefix 4 l.header_code m.header_code _ _ p.code_bound q.code_bound
        (sym (regroup l a) ∙ e ∙ regroup m b) in
    let (amount, e₂) =
      little_endian-prefix 8 l.amount m.amount _ _ p.amount_bound q.amount_bound e₁ in
    let byte : script_type_byte l.script_type ≡ script_type_byte m.script_type = cc in
    let type =
      sym (type_of_byte-script_type_byte l.script_type)
      ∙ ap type_of_byte byte
      ∙ type_of_byte-script_type_byte m.script_type in
    let (script, later) = script_part-prefix l m a b (p, plain) (q, plain') type cc in
    (rw (code, amount, type, script) refl, later)
  where
    regroup :
        (k : CompactLeafData) (c : Bytes)
        → leaf_bytes k ++ c
          ≡ little_endian 4 k.header_code
            ++ (little_endian 8 k.amount ++ (script_type_byte k.script_type ∷ (script_part k ++ c)))
    regroup k c =
        append_assoc (little_endian 4 k.header_code) _ c
        ∙ ap (λ r. little_endian 4 k.header_code ++ r)
            (append_assoc (little_endian 8 k.amount)
              (script_type_byte k.script_type ∷ script_part k) c)

-- The numbers of targets, of hashes and of leaves have 64 bits, and so has each target; a hash has
-- 32 bytes.
pub record IsSized (proof : Proof) : Type 0 where
  pub target_count : length proof.targets < 2 ^ 64
  pub target_bounds : All (λ target. target < 2 ^ 64) proof.targets
  pub hash_count : length proof.hashes < 2 ^ 64
  pub hash_sizes : All (λ hash. length hash ≡ 32) proof.hashes

hash-prefix :
    (x y a b : Bytes) → length x ≡ 32 → length y ≡ 32 → x ++ a ≡ y ++ b → (x ≡ y) × (a ≡ b)
hash-prefix x y a b p q e = append_same x y a b (p ∙ sym q) e

-- A run that succeeds has as many targets as leaves, and plain leaves.
serialize_udata-Accepted :
    (proof : Proof) (leaves : List CompactLeafData) (bytes : Bytes)
    → serialize_udata proof leaves ≡ ok bytes
    → (length proof.targets ≡ length leaves)
      × (all_plain leaves ≡ true)
      × (bytes ≡ udata proof leaves)
serialize_udata-Accepted proof leaves bytes e =
    let eq = sym (serialize_udata-eq proof leaves) ∙ e in
    elim (Bool-cases (length proof.targets == length leaves)) [
      | inl y ↦ elim (Bool-cases (all_plain leaves)) [
        | inl p ↦
            let done : ok (udata proof leaves) ≡ ok bytes = rw (y, p) at eq in
            ((==_iff (length proof.targets) (length leaves)).0 y, p, cc)
        | inr n ↦ let no_way = rw (y, n) at eq in cc
      ]
      | inr n ↦ let no_way = rw n at eq in cc
    ]

writable :
    (leaves : List CompactLeafData)
    → All HasSizes leaves
    → all_plain leaves ≡ true
    → All IsWritable leaves
writable [] p e = tt
writable (l ∷ ls) (p, ps) e = elim (Bool-cases (is_plain l)) [
  | inl y ↦ ((p, y), writable ls ps (rw y at e))
  | inr n ↦ let no_way : false ≡ true = rw n at e in cc
]

udata-injective :
    (p q : Proof) (ls ms : List CompactLeafData)
    → IsSized p
    → IsSized q
    → All IsWritable ls
    → All IsWritable ms
    → length p.targets ≡ length ls
    → length q.targets ≡ length ms
    → udata p ls ≡ udata q ms
    → (p ≡ q) × (ls ≡ ms)
udata-injective p q ls ms s t k k' n n' e =
    let (_, e₁) = append_same (compact_size 0) (compact_size 0) _ _ refl e in
    let (count, e₂) =
      compact_size-prefix (length p.targets) (length q.targets) _ _ s.target_count t.target_count
        e₁ in
    let (targets, e₃) =
      concat_map-prefix compact_size (λ v. v < 2 ^ 64)
        (λ v w a b h h' x. compact_size-prefix v w a b h h' x) p.targets q.targets _ _ count
        s.target_bounds t.target_bounds e₂ in
    let (count', e₄) =
      compact_size-prefix (length p.hashes) (length q.hashes) _ _ s.hash_count t.hash_count e₃ in
    let (hashes, e₅) =
      concat_map-prefix (λ hash. hash) (λ hash. length hash ≡ 32) hash-prefix p.hashes q.hashes _ _
        count' s.hash_sizes t.hash_sizes e₄ in
    let same_count : length ls ≡ length ms = sym n ∙ count ∙ n' in
    let (_, e₆) =
      append_same (compact_size (length ls)) (compact_size (length ms)) _ _
        (ap (λ u. length (compact_size u)) same_count) e₅ in
    let (leaves, _) =
      concat_map-prefix leaf_bytes IsWritable leaf_bytes-prefix ls ms [] [] same_count k k' (
        append-nil (concat_map leaf_bytes ls) ∙ e₆ ∙ sym (append-nil (concat_map leaf_bytes ms))) in
    (rw (targets, hashes) refl, leaves)

-- Two proofs with leaves, all of them within their sizes, for which `SerializeUData` succeeds with
-- the same bytes are the same proof and the same leaves.
pub serialize_udata-injective :
    (p q : Proof) (ls ms : List CompactLeafData) (bytes : Bytes)
    → IsSized p
    → IsSized q
    → All HasSizes ls
    → All HasSizes ms
    → serialize_udata p ls ≡ ok bytes
    → serialize_udata q ms ≡ ok bytes
    → (p ≡ q) × (ls ≡ ms)
serialize_udata-injective p q ls ms bytes s t k k' e e' =
    let (n, plain, x) = serialize_udata-Accepted p ls bytes e in
    let (n', plain', x') = serialize_udata-Accepted q ms bytes e' in
    udata-injective p q ls ms s t (writable ls k plain) (writable ms k' plain') n n' (sym x ∙ x')
