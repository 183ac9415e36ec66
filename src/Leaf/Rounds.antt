-- ===== src/Leaf/Rounds.antt =====
-- Rounds of the loop of `LastScriptPush` of src/leaf.cpp: what it reads behind `before`.
use utreexo_core_rpc.Common.{
  ℕ, zero, suc, ◌+◌, ◌-◌, ◌*◌, ◌/◌, ◌%◌, ◌^◌, ◌≤◌, ◌<◌, bit_or, ◌≡◌, refl, ap, ◌∙◌, arith, true,
  false, Option, none, some, [], ◌∷◌, ◌++◌, ltb, leb, length, get_or, take, drop, length-append,
}
use utreexo_core_rpc.Common.Bits.{bit_or_fields, zero-bit_or}
use utreexo_core_rpc.Result.{ok}
use utreexo_core_rpc.Wire.Bytes.{Bytes}
use utreexo_core_rpc.Leaf.{push_length, push_loop}

get_or-append :
    (before xs : Bytes) (k : ℕ) → get_or (before ++ xs) (length before + k) 0 ≡ get_or xs k 0
get_or-append [] xs k = let x : 0 + k ≡ k = omega arith in rw x
get_or-append (b ∷ bs) xs k =
    let x : suc (length bs) + k ≡ suc (length bs + k) = omega arith in rw x (get_or-append bs xs k)

drop-append : (before xs : Bytes) (k : ℕ) → drop (length before + k) (before ++ xs) ≡ drop k xs
drop-append [] xs k = let x : 0 + k ≡ k = omega arith in rw x
drop-append (b ∷ bs) xs k =
    let x : suc (length bs) + k ≡ suc (length bs + k) = omega arith in rw x (drop-append bs xs k)

byte_at :
    (before xs : Bytes) (k : ℕ)
    → get_or (before ++ xs) (length before + 1 + k) 0 ≡ get_or xs (suc k) 0
byte_at before xs k =
    let x : length before + 1 + k ≡ length before + suc k = omega arith in
    rw x (get_or-append before xs (suc k))

first_byte : (before xs : Bytes) → get_or (before ++ xs) (length before) 0 ≡ get_or xs 0 0
first_byte before xs =
    let x : length before + 0 ≡ length before = omega arith in rw x at (get_or-append before xs 0)

-- Behind `before`, the opcode and the length, in each form of a push.
module _ (before xs : Bytes) where
  abbrev pub script : Bytes
  script = before ++ xs

  abbrev Announced : ℕ → ℕ → Type 0
  Announced size skip =
      (get_or script (length before) 0 ≤ 78)
      × (push_length (get_or script (length before) 0) (length before + 1) script
          ≡ ok (size, length before + skip))

  pub direct-Announced : (n : ℕ) → get_or xs 0 0 ≡ n → n ≤ 75 → Announced n 1
  unfolding push_length
  direct-Announced n e h = ground (arith, first_byte before xs)

  pub push_data1-Announced :
      (n : ℕ) → get_or xs 0 0 ≡ 76 → get_or xs 1 0 ≡ n → 2 ≤ length xs → Announced n 2
  unfolding push_length
  push_data1-Announced n e f h =
      let x : length before + 1 + 0 ≡ length before + 1 = omega arith in
      let b : get_or script (length before + 1) 0 ≡ n = rw x at (byte_at before xs 0) ∙ f in
      ground (arith, first_byte before xs, length-append before xs)

  pub push_data2-Announced :
      (n : ℕ)
      → get_or xs 0 0 ≡ 77
      → get_or xs 1 0 ≡ n % 256
      → get_or xs 2 0 ≡ n / 256 % 256
      → 3 ≤ length xs
      → n < 2 ^ 16
      → Announced n 3
  unfolding push_length
  push_data2-Announced n e f g h small =
      let x : length before + 1 + 0 ≡ length before + 1 = omega arith in
      let b : get_or script (length before + 1) 0 ≡ n % 256 = rw x at (byte_at before xs 0) ∙ f in
      let c : get_or script (length before + 1 + 1) 0 ≡ n / 256 % 256 = byte_at before xs 1 ∙ g in
      let sum : bit_or (n % 256) (n / 256 % 256 * 2 ^ 8) ≡ n =
        bit_or_fields 8 (n / 256 % 256) (n % 256) (omega arith) ∙ omega arith in
      ground (arith, first_byte before xs, length-append before xs)

  pub push_data4-Announced :
      (n : ℕ)
      → get_or xs 0 0 ≡ 78
      → get_or xs 1 0 ≡ n % 256
      → get_or xs 2 0 ≡ n / 256 % 256
      → get_or xs 3 0 ≡ n / 256 / 256 % 256
      → get_or xs 4 0 ≡ n / 256 / 256 / 256 % 256
      → 5 ≤ length xs
      → n < 2 ^ 32
      → Announced n 5
  unfolding push_length
  push_data4-Announced n e f g k l h small =
      let x : length before + 1 + 0 ≡ length before + 1 = omega arith in
      let b₁ : get_or script (length before + 1) 0 ≡ n % 256 = rw x at (byte_at before xs 0) ∙ f in
      let b₂ : get_or script (length before + 1 + 1) 0 ≡ n / 256 % 256 = byte_at before xs 1 ∙ g in
      let b₃ : get_or script (length before + 1 + 2) 0 ≡ n / 256 / 256 % 256 =
        byte_at before xs 2 ∙ k in
      let b₄ : get_or script (length before + 1 + 3) 0 ≡ n / 256 / 256 / 256 % 256 =
        byte_at before xs 3 ∙ l in
      let s₁ : bit_or 0 (n % 256) ≡ n % 256 = zero-bit_or (n % 256) in
      let s₂ : bit_or (n % 256) (n / 256 % 256 * 2 ^ 8) ≡ n % 2 ^ 16 =
        bit_or_fields 8 (n / 256 % 256) (n % 256) (omega arith) ∙ omega arith in
      let s₃ : bit_or (n % 2 ^ 16) (n / 256 / 256 % 256 * 2 ^ 16) ≡ n % 2 ^ 24 =
        bit_or_fields 16 (n / 256 / 256 % 256) (n % 2 ^ 16) (omega arith) ∙ omega arith in
      let s₄ : bit_or (n % 2 ^ 24) (n / 256 / 256 / 256 % 256 * 2 ^ 24) ≡ n =
        bit_or_fields 24 (n / 256 / 256 / 256 % 256) (n % 2 ^ 24) (omega arith) ∙ omega arith in
      (
        omega (arith, first_byte before xs),
        rw (first_byte before xs, e, b₁, b₂, b₃, b₄, s₁, s₂, s₃, s₄)
            (ground (arith, length-append before xs)),
      )

  -- A push is taken, and the loop goes on behind it.
  pub pushed_round :
      (fuel : ℕ) (last_push : Option Bytes) (d : Bytes) (skip : ℕ)
      → Announced (length d) skip
      → 0 < skip
      → skip + length d ≤ length xs
      → take (length d) (drop skip xs) ≡ d
      → push_loop (suc fuel) (length before) last_push script
        ≡ push_loop fuel (length before + (skip + length d)) (some d) script
  unfolding push_loop
  pushed_round fuel last_push d skip (low, reads) some_skip fits data_eq =
      let l = length-append before xs in
      let inside : ltb (length before) (length script) ≡ true = ground arith in
      let push : leb (get_or script (length before) 0) 78 ≡ true = ground arith in
      let whole : ltb (length script - (length before + skip)) (length d) ≡ false = ground arith in
      let body : take (length d) (drop (length before + skip) script) ≡ d =
        ap (λ ys. take (length d) ys) (drop-append before xs skip) ∙ data_eq in
      let place : length before + skip + length d ≡ length before + (skip + length d) =
        omega arith in
      rw (inside, push, reads, whole, body, place) refl

  pub operation_round :
      (fuel : ℕ) (last_push : Option Bytes)
      → 78 < get_or xs 0 0
      → 0 < length xs
      → push_loop (suc fuel) (length before) last_push script
        ≡ push_loop fuel (length before + 1) none script
  unfolding push_loop
  operation_round fuel last_push high some_byte =
      let l = length-append before xs in
      let inside : ltb (length before) (length script) ≡ true = ground arith in
      let no_push : leb (get_or script (length before) 0) 78 ≡ false =
        ground (arith, first_byte before xs) in
      rw (inside, no_push) refl

  pub push_end :
      (fuel : ℕ) (last_push : Option Bytes)
      → xs ≡ []
      → push_loop fuel (length before) last_push script ≡ ok last_push
  unfolding push_loop
  push_end zero last_push e = refl
  push_end (suc fuel) last_push e =
      let l = length-append before xs in
      let n : length xs ≡ 0 = rw e refl in
      let outside : ltb (length before) (length script) ≡ false = ground arith in rw outside refl
