-- ===== src/Leaf/Encoding.antt =====
-- What `LeafHash` hashes determines the leaf.
use utreexo_core_rpc.Common.{
  ℕ, zero, suc, ◌+◌, ◌*◌, ◌/◌, ◌%◌, ◌^◌, ◌<◌, ◌≡◌, refl, sym, ap, ◌∙◌, inl, inr, arith, Bool, true,
  false, Bool-cases, [], ◌∷◌, ◌++◌, if◌then◌else◌, length, append_assoc,
}
use utreexo_core_rpc.Common.Bits.{bit_or-one, bit_or-zero}
use utreexo_core_rpc.Wire.Bytes.{
  Bytes, little_endian, length-little_endian, compact_size, append_le-eq, append_compact_size-eq,
}
use utreexo_core_rpc.Wire.Reader.{open_reader}
use utreexo_core_rpc.Wire.Reader.Reads.{two_pow-suc_byte}
use utreexo_core_rpc.Wire.CompactSize.{read_compact_size-reads}
use utreexo_core_rpc.Leaf.{LeafData, header_code_of, serialize_leaf}

-- Parts of the same length can be told apart.
pub append_same :
    (xs ys a b : Bytes) → length xs ≡ length ys → xs ++ a ≡ ys ++ b → (xs ≡ ys) × (a ≡ b)
append_same [] [] a b h e = (refl, e)
append_same [] (y ∷ ys) a b h e = absurd (omega arith)
append_same (x ∷ xs) [] a b h e = absurd (omega arith)
append_same (x ∷ xs) (y ∷ ys) a b h e =
    let (first, later) = cons_same x y (xs ++ a) (ys ++ b) e in
    let (p, q) = append_same xs ys a b (omega arith) later in (rw (first, p) refl, q)
  where
    cons_same : (x y : ℕ) (xs ys : Bytes) → x ∷ xs ≡ y ∷ ys → (x ≡ y) × (xs ≡ ys)
    cons_same x y xs ys e = (cc, cc)

pub little_endian-injective :
    (n v w : ℕ) → v < 2 ^ (8 * n) → w < 2 ^ (8 * n) → little_endian n v ≡ little_endian n w → v ≡ w
unfolding little_endian
little_endian-injective zero v w h k e = omega arith
little_endian-injective (suc n) v w h k e =
    let s = two_pow-suc_byte n in
    let low : v % 256 ≡ w % 256 = cc in
    let high = little_endian-injective n (v / 256) (w / 256) (omega arith) (omega arith) cc in
    omega arith

-- The sizes of the fields.
pub record IsEncodable (leaf : LeafData) : Type 0 where
  pub block_hash_size : length leaf.block_hash ≡ 32
  pub txid_size : length leaf.txid ≡ 32
  pub index_bound : leaf.index < 2 ^ 32
  pub height_bound : leaf.block_height < 2 ^ 31
  pub value_bound : leaf.value < 2 ^ 64
  pub script_bound : length leaf.script_pubkey < 2 ^ 64

abbrev flag : Bool → ℕ
flag b = if b then 1 else 0

header_code-eq :
    (leaf : LeafData)
    → leaf.block_height < 2 ^ 31
    → header_code_of leaf ≡ leaf.block_height * 2 + flag leaf.coinbase
header_code-eq leaf h = elim (Bool-cases leaf.coinbase) [
  | inl y ↦ rw y (bit_or-one (leaf.block_height * 2 % 2 ^ 32) ∙ omega arith)
  | inr n ↦ rw n (bit_or-zero (leaf.block_height * 2 % 2 ^ 32) ∙ omega arith)
]

flag-injective : (h k : ℕ) (a b : Bool) → h * 2 + flag a ≡ k * 2 + flag b → (h ≡ k) × (a ≡ b)
flag-injective h k true true e = (omega arith, refl)
flag-injective h k true false e = absurd (omega arith)
flag-injective h k false true e = absurd (omega arith)
flag-injective h k false false e = (omega arith, refl)

compact_size-same :
    (s t : Bytes)
    → length s < 2 ^ 64
    → length t < 2 ^ 64
    → compact_size (length s) ++ s ≡ compact_size (length t) ++ t
    → s ≡ t
compact_size-same s t h k e =
    let r = open_reader (compact_size (length s) ++ s) in
    let x = read_compact_size-reads (length s) r s refl h in
    let y = read_compact_size-reads (length t) r t e k in
    let n : length s ≡ length t = cc in
    (append_same (compact_size (length s)) (compact_size (length t)) s t
      (ap (λ v. length (compact_size v)) n) e).1

-- The encoding, part by part.
abbrev parts : Bytes → LeafData → Bytes
parts tag l =
    tag
    ++ (tag
        ++ (l.block_hash
            ++ (l.txid
                ++ (little_endian 4 l.index
                    ++ (little_endian 4 (header_code_of l)
                        ++ (little_endian 8 l.value
                            ++ (compact_size (length l.script_pubkey) ++ l.script_pubkey)))))))

serialize_leaf-parts : (tag : Bytes) (l : LeafData) → serialize_leaf tag l ≡ parts tag l
unfolding serialize_leaf
serialize_leaf-parts tag l =
    rw
      (
        append_compact_size-eq, append_le-eq, append_le-eq, append_le-eq, append_assoc,
        append_assoc, append_assoc, append_assoc, append_assoc, append_assoc, append_assoc,
      )
      refl

-- Two leaves whose fields have their sizes and whose heights are below 2 ^ 31 are hashed by
-- `LeafHash` as the same bytes only if they are the same leaf: each field, the coinbase flag beside
-- the height included, can be read off the bytes.
pub serialize_leaf-injective :
    (tag : Bytes) (l m : LeafData)
    → IsEncodable l
    → IsEncodable m
    → serialize_leaf tag l ≡ serialize_leaf tag m
    → l ≡ m
serialize_leaf-injective tag l m p q e =
    let e₀ = sym (serialize_leaf-parts tag l) ∙ e ∙ serialize_leaf-parts tag m in
    let (_, e₁) = append_same tag tag _ _ refl e₀ in
    let (_, e₂) = append_same tag tag _ _ refl e₁ in
    let (bh, e₃) =
      append_same l.block_hash m.block_hash _ _ (p.block_hash_size ∙ sym q.block_hash_size) e₂ in
    let (tx, e₄) = append_same l.txid m.txid _ _ (p.txid_size ∙ sym q.txid_size) e₃ in
    let (ix, e₅) =
      append_same (little_endian 4 l.index) (little_endian 4 m.index) _ _
        (same_length 4 l.index m.index) e₄ in
    let (hc, e₆) =
      append_same (little_endian 4 (header_code_of l)) (little_endian 4 (header_code_of m)) _ _
        (same_length 4 _ _) e₅ in
    let (vl, e₇) =
      append_same (little_endian 8 l.value) (little_endian 8 m.value) _ _
        (same_length 8 l.value m.value) e₆ in
    let script =
      compact_size-same l.script_pubkey m.script_pubkey p.script_bound q.script_bound e₇ in
    let index = little_endian-injective 4 l.index m.index p.index_bound q.index_bound ix in
    let value = little_endian-injective 8 l.value m.value p.value_bound q.value_bound vl in
    let code =
      little_endian-injective 4 (header_code_of l) (header_code_of m) (code_bound l p)
        (code_bound m q) hc in
    let (height, coinbase) =
      flag-injective l.block_height m.block_height l.coinbase m.coinbase
        (sym (header_code-eq l p.height_bound) ∙ code ∙ header_code-eq m q.height_bound) in
    same_leaf bh tx index height coinbase value script
  where
    same_length : (n v w : ℕ) → length (little_endian n v) ≡ length (little_endian n w)
    same_length n v w = length-little_endian n v ∙ sym (length-little_endian n w)

    code_bound : (leaf : LeafData) → IsEncodable leaf → header_code_of leaf < 2 ^ (8 * 4)
    code_bound leaf r = elim (Bool-cases leaf.coinbase) [
      | inl y ↦ omega (arith, header_code-eq leaf r.height_bound, ap flag y, r.height_bound)
      | inr n ↦ omega (arith, header_code-eq leaf r.height_bound, ap flag n, r.height_bound)
    ]

    same_leaf :
        l.block_hash ≡ m.block_hash
        → l.txid ≡ m.txid
        → l.index ≡ m.index
        → l.block_height ≡ m.block_height
        → l.coinbase ≡ m.coinbase
        → l.value ≡ m.value
        → l.script_pubkey ≡ m.script_pubkey
        → l ≡ m
    same_leaf a b c d e f g = rw (a, b, c, d, e, f, g) refl
