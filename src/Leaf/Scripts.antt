-- ===== src/Leaf/Scripts.antt =====
-- `CompactLeaf` and `ReconstructScriptPubkey`: what is left out of a compact leaf is rebuilt.
use utreexo_core_rpc.Common.{
  ℕ, zero, suc, ◌+◌, ◌%◌, ◌≤◌, ◌<◌, ◌≡◌, ◌≢◌, refl, sym, ap, ◌∙◌, ◌⊎◌, inl, inr, arith, true,
  Bool-cases, some, [], ◌∷◌, ◌++◌, length, get_or, take, drop, take-append-drop, length-drop,
  append_assoc,
}
use utreexo_core_rpc.Result.{ok}
use utreexo_core_rpc.Wire.Bytes.{Bytes}
use utreexo_core_rpc.Wire.Reader.Reads.{drop-add}
use utreexo_core_rpc.Leaf.{
  LeafData, ScriptPubkeyType, other, pubkey_hash, witness_v0_pubkey_hash, script_hash,
  witness_v0_script_hash, SpendingInput, is_p2pkh, is_p2sh, is_witness_program, classify,
  compact_leaf, last_script_push, last_item, p2pkh, p2sh, witness_program, witness_script,
  reconstruct_script_pubkey,
}

get_or-drop : (n k : ℕ) (xs : Bytes) → get_or (drop n xs) k 0 ≡ get_or xs (n + k) 0
get_or-drop zero k xs = let x : 0 + k ≡ k = omega arith in rw x refl
get_or-drop (suc n) k [] = refl
get_or-drop (suc n) k (x ∷ xs) =
    let y : suc n + k ≡ suc (n + k) = omega arith in rw y (get_or-drop n k xs)

last_byte : (xs : Bytes) → length xs ≡ 1 → xs ≡ get_or xs 0 0 ∷ []
last_byte [] h = absurd (omega arith)
last_byte (x ∷ []) h = refl
last_byte (x ∷ y ∷ ys) h = absurd (omega arith)

last_bytes : (xs : Bytes) → length xs ≡ 2 → xs ≡ get_or xs 0 0 ∷ get_or xs 1 0 ∷ []
last_bytes [] h = absurd (omega arith)
last_bytes (x ∷ []) h = absurd (omega arith)
last_bytes (x ∷ y ∷ []) h = refl
last_bytes (x ∷ y ∷ z ∷ zs) h = absurd (omega arith)

first_two : (xs : Bytes) → 2 ≤ length xs → take 2 xs ≡ get_or xs 0 0 ∷ get_or xs 1 0 ∷ []
first_two [] h = absurd (omega arith)
first_two (x ∷ []) h = absurd (omega arith)
first_two (x ∷ y ∷ xs) h = refl

first_three :
    (xs : Bytes) → 3 ≤ length xs → take 3 xs ≡ get_or xs 0 0 ∷ get_or xs 1 0 ∷ get_or xs 2 0 ∷ []
first_three [] h = absurd (omega arith)
first_three (x ∷ []) h = absurd (omega arith)
first_three (x ∷ y ∷ []) h = absurd (omega arith)
first_three (x ∷ y ∷ z ∷ xs) h = refl

-- The hash that a script of standard form commits to.
abbrev pub program : ScriptPubkeyType → Bytes → Bytes
program pubkey_hash script = take 20 (drop 3 script)
program script_hash script = take 20 (drop 2 script)
program witness_v0_pubkey_hash script = drop 2 script
program witness_v0_script_hash script = drop 2 script
program other script = []

-- The script of that form for a hash.
abbrev pub script_for : ScriptPubkeyType → Bytes → Bytes
script_for pubkey_hash hash = p2pkh hash
script_for script_hash hash = p2sh hash
script_for witness_v0_pubkey_hash hash = witness_program hash
script_for witness_v0_script_hash hash = witness_program hash
script_for other hash = []

cons_two : {x y v w : ℕ} → x ≡ v → y ≡ w → x ∷ y ∷ [] ≡ v ∷ w ∷ []
cons_two e f = rw (e, f) refl

cons_three : {x y z u v w : ℕ} → x ≡ u → y ≡ v → z ≡ w → x ∷ y ∷ z ∷ [] ≡ u ∷ v ∷ w ∷ []
cons_three e f g = rw (e, f, g) refl

three_parts :
    (n m : ℕ) (s front back : Bytes)
    → take n s ≡ front
    → drop (n + m) s ≡ back
    → (front ++ take m (drop n s)) ++ back ≡ s
three_parts n m s front back f b =
    append_assoc front (take m (drop n s)) back
    ∙ ap (λ ys. front ++ (take m (drop n s) ++ ys)) (sym b ∙ drop-add n m s)
    ∙ ap (λ ys. front ++ ys) (take-append-drop m (drop n s))
    ∙ ap (λ ys. ys ++ drop n s) (sym f)
    ∙ take-append-drop n s

two_parts : (n : ℕ) (s front : Bytes) → take n s ≡ front → front ++ drop n s ≡ s
two_parts n s front f = ap (λ ys. ys ++ drop n s) (sym f) ∙ take-append-drop n s

p2pkh-program :
    (s : Bytes)
    → length s ≡ 25
    → get_or s 0 0 ≡ 0x76
    → get_or s 1 0 ≡ 0xa9
    → get_or s 2 0 ≡ 0x14
    → get_or s 23 0 ≡ 0x88
    → get_or s 24 0 ≡ 0xac
    → p2pkh (take 20 (drop 3 s)) ≡ s
unfolding p2pkh
p2pkh-program s n b₀ b₁ b₂ b₃ b₄ =
    three_parts 3 20 s (0x76 ∷ 0xa9 ∷ 0x14 ∷ []) (0x88 ∷ 0xac ∷ [])
      (first_three s (omega arith) ∙ cons_three b₀ b₁ b₂)
      (last_bytes (drop 23 s) (omega (arith, length-drop 23 s))
        ∙ cons_two (get_or-drop 23 0 s ∙ b₃) (get_or-drop 23 1 s ∙ b₄))

p2sh-program :
    (s : Bytes)
    → length s ≡ 23
    → get_or s 0 0 ≡ 0xa9
    → get_or s 1 0 ≡ 0x14
    → get_or s 22 0 ≡ 0x87
    → p2sh (take 20 (drop 2 s)) ≡ s
unfolding p2sh
p2sh-program s n b₀ b₁ b₂ =
    three_parts 2 20 s (0xa9 ∷ 0x14 ∷ []) (0x87 ∷ []) (first_two s (omega arith) ∙ cons_two b₀ b₁) (
      last_byte (drop 22 s) (omega (arith, length-drop 22 s))
      ∙ ap (λ x. x ∷ []) (get_or-drop 22 0 s ∙ b₂))

witness_program-program :
    (size : ℕ) (s : Bytes)
    → size < 256
    → length s ≡ size + 2
    → get_or s 0 0 ≡ 0
    → get_or s 1 0 ≡ size
    → witness_program (drop 2 s) ≡ s
unfolding witness_program
witness_program-program size s small n b₀ b₁ =
    let l : length (drop 2 s) % 256 ≡ size = omega (arith, length-drop 2 s) in
    rw l (two_parts 2 s (0 ∷ size ∷ []) (first_two s (omega arith) ∙ cons_two b₀ b₁))

is_p2pkh-program : (s : Bytes) → is_p2pkh s ≡ true → p2pkh (take 20 (drop 3 s)) ≡ s
unfolding is_p2pkh
is_p2pkh-program s y =
    p2pkh-program s (ground (arith, y)) (ground (arith, y)) (ground (arith, y)) (ground (arith, y))
      (ground (arith, y)) (ground (arith, y))

is_p2sh-program : (s : Bytes) → is_p2sh s ≡ true → p2sh (take 20 (drop 2 s)) ≡ s
unfolding is_p2sh
is_p2sh-program s y =
    p2sh-program s (ground (arith, y)) (ground (arith, y)) (ground (arith, y)) (ground (arith, y))

is_witness_program-program :
    (size : ℕ) (s : Bytes)
    → size < 256
    → is_witness_program size s ≡ true
    → witness_program (drop 2 s) ≡ s
unfolding is_witness_program
is_witness_program-program size s small y =
    witness_program-program size s small (ground (arith, y)) (ground (arith, y)) (ground (arith, y))

-- A script of a standard form is the one for the hash in it.
script_for-program :
    (s : Bytes) → classify s ≢ other → script_for (classify s) (program (classify s) s) ≡ s
unfolding classify
script_for-program s n = elim (Bool-cases (is_p2pkh s)) [
  | inl y ↦ rw y (is_p2pkh-program s y)
  | inr n₁ ↦ elim (Bool-cases (is_p2sh s)) [
    | inl y ↦ rw (n₁, y) (is_p2sh-program s y)
    | inr n₂ ↦ elim (Bool-cases (is_witness_program 20 s)) [
      | inl y ↦ rw (n₁, n₂, y) (is_witness_program-program 20 s (omega arith) y)
      | inr n₃ ↦ elim (Bool-cases (is_witness_program 32 s)) [
        | inl y ↦ rw (n₁, n₂, n₃, y) (is_witness_program-program 32 s (omega arith) y)
        | inr n₄ ↦ absurd (rw (n₁, n₂, n₃, n₄) at n refl)
      ]
    ]
  ]
]

module _ (hash160 sha256 : Bytes → Bytes) where
  -- What a spending input shows of the script: data whose hash is the one in the script.
  abbrev pub Reveals : ScriptPubkeyType → Bytes → SpendingInput → Type 0
  Reveals other script input = Unit
  Reveals pubkey_hash script input =
      (d : Bytes) × (last_script_push input.script_sig ≡ ok d)
      × (hash160 d ≡ program pubkey_hash script)
  Reveals script_hash script input =
      (d : Bytes) × (last_script_push input.script_sig ≡ ok d)
      × (hash160 d ≡ program script_hash script)
  Reveals witness_v0_pubkey_hash script input =
      (d : Bytes) × (last_item input.witness ≡ some d)
      × (hash160 d ≡ program witness_v0_pubkey_hash script)
  Reveals witness_v0_script_hash script input =
      (d : Bytes) × (last_item input.witness ≡ some d)
      × (sha256 d ≡ program witness_v0_script_hash script)

  reconstructed :
      (type : ScriptPubkeyType) (header amount : ℕ) (script kept : Bytes) (input : SpendingInput)
      → type ≢ other
      → Reveals type script input
      → reconstruct_script_pubkey hash160 sha256
          (record { header_code = header; amount = amount; script_type = type; script = kept })
          input
        ≡ ok (script_for type (program type script))
  unfolding reconstruct_script_pubkey witness_script
  reconstructed other header amount script kept input n r = absurd (n refl)
  reconstructed pubkey_hash header amount script kept input n (d, run, e) = rw (run, e) refl
  reconstructed script_hash header amount script kept input n (d, run, e) = rw (run, e) refl
  reconstructed witness_v0_pubkey_hash header amount script kept input n (d, run, e) =
      rw (run, e) refl
  reconstructed witness_v0_script_hash header amount script kept input n (d, run, e) =
      rw (run, e) refl

  other-cases : (type : ScriptPubkeyType) → (type ≡ other) ⊎ (type ≢ other)
  other-cases other = inl refl
  other-cases pubkey_hash = inr (λ x. cc)
  other-cases script_hash = inr (λ x. cc)
  other-cases witness_v0_pubkey_hash = inr (λ x. cc)
  other-cases witness_v0_script_hash = inr (λ x. cc)

  -- A client that has the compact leaf and the input that spends it rebuilds exactly the script of
  -- the leaf, of whatever form it is, provided that the input reveals what the script commits to.
  pub reconstruct_script_pubkey-compact_leaf :
      (leaf : LeafData) (input : SpendingInput)
      → Reveals (classify leaf.script_pubkey) leaf.script_pubkey input
      → reconstruct_script_pubkey hash160 sha256 (compact_leaf leaf) input ≡ ok leaf.script_pubkey
  unfolding compact_leaf reconstruct_script_pubkey
  reconstruct_script_pubkey-compact_leaf leaf input r =
      elim (other-cases (classify leaf.script_pubkey)) [
        | inl e ↦ rw e refl
        | inr n ↦
            reconstructed (classify leaf.script_pubkey) (compact_leaf leaf).header_code
              (compact_leaf leaf).amount leaf.script_pubkey (compact_leaf leaf).script input n r
            ∙ ap (λ s. ok s) (script_for-program leaf.script_pubkey n)
      ]
