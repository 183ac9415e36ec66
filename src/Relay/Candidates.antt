-- ===== src/Relay/Candidates.antt =====
-- The candidates that `RecoveryCandidates` of src/transaction_relay.cpp collects, as a list; and where
-- an id stands in the text.
use utreexo_core_rpc.Common.{
  ℕ, zero, suc, ◌+◌, ◌-◌, ◌≤◌, ◌<◌, ◌≡◌, refl, sym, ap, ◌∙◌, inl, inr, arith, Bool, false, ◌&&◌,
  Bool-cases, List, [], ◌∷◌, ◌++◌, append_assoc, if◌then◌else◌, ltb, leb, length, get_or, take,
  drop, take-length_append, drop-length_append, length-append,
}
use utreexo_core_rpc.Wire.Bytes.{Bytes}
use utreexo_core_rpc.Relay.Inventory.{is_no_id}

-- The ids whose proofs the cache does not have.
abbrev pub unknown : (Bytes → Bool) → List Bytes → List Bytes
unknown known [] = []
unknown known (txid ∷ txids) =
    let later = unknown known txids in if known txid then later else txid ∷ later

module _ {ℓ} {A : Type ℓ} where
  take-append_full : (n : ℕ) (xs ys : List A) → n ≤ length xs → take n (xs ++ ys) ≡ take n xs
  take-append_full zero xs ys h = refl
  take-append_full (suc n) [] ys h = absurd (omega arith)
  take-append_full (suc n) (x ∷ xs) ys h =
      ap (λ zs. x ∷ zs) (take-append_full n xs ys (omega arith))

  pub take-all : (n : ℕ) (xs : List A) → length xs ≤ n → take n xs ≡ xs
  take-all zero [] h = refl
  take-all zero (x ∷ xs) h = absurd (omega arith)
  take-all (suc n) [] h = refl
  take-all (suc n) (x ∷ xs) h = ap (λ zs. x ∷ zs) (take-all n xs (omega arith))

-- The candidates after an id whose number is `count`.
abbrev pub considered : (Bytes → Bool) → ℕ → ℕ → ℕ → Bytes → List Bytes → List Bytes
considered known cursor batch count txid candidates =
    if leb cursor count && ltb (length candidates) batch
    then (if known txid then candidates else candidates ++ txid ∷ [])
    else candidates

pub length-considered :
    (known : Bytes → Bool) (cursor batch count : ℕ) (txid : Bytes) (cs : List Bytes)
    → length cs ≤ batch
    → length (considered known cursor batch count txid cs) ≤ batch
length-considered known cursor batch count txid cs h =
    elim (Bool-cases (leb cursor count && ltb (length cs) batch)) [
      | inr n ↦ rw n h
      | inl y ↦ elim (Bool-cases (known txid)) [
        | inl k ↦ rw (y, k) h
        | inr u ↦
            let room : length cs < batch = ground (arith, y) in
            rw (y, u) (omega (arith, length-append cs (txid ∷ [])))
      ]
    ]

pub take-considered :
    (known : Bytes → Bool) (cursor batch count : ℕ) (txid : Bytes) (txids cs : List Bytes)
    → take batch (
        considered known cursor batch count txid cs
        ++ unknown known (drop (cursor - (count + 1)) txids))
      ≡ take batch (cs ++ unknown known (drop (cursor - count) (txid ∷ txids)))
take-considered known cursor batch count txid txids cs = elim (Bool-cases (leb cursor count)) [
  | inr n ↦
      let before : cursor - count ≡ suc (cursor - (count + 1)) = ground (arith, n) in
      rw (n, before) refl
  | inl y ↦
      let now : cursor - count ≡ 0 = ground (arith, y) in
      let past : cursor - (count + 1) ≡ 0 = ground (arith, y) in
      elim (Bool-cases (ltb (length cs) batch)) [
        | inr full ↦
            let enough : batch ≤ length cs = ground (arith, full) in
            rw (y, full, now, past)
              (take-append_full batch cs (unknown known txids) enough
                ∙ sym (take-append_full batch cs (unknown known (txid ∷ txids)) enough))
        | inl room ↦ elim (Bool-cases (known txid)) [
          | inl k ↦ rw (y, room, now, past, k) refl
          | inr u ↦
              rw (y, room, now, past, u)
                (ap (λ zs. take batch zs) (append_assoc cs (txid ∷ []) (unknown known txids)))
        ]
      ]
]

get_or-length_append : (xs ys : List ℕ) (n : ℕ) → n ≡ length xs → get_or (xs ++ 34 ∷ ys) n 0 ≡ 34
get_or-length_append [] ys n h = rw h refl
get_or-length_append (x ∷ xs) ys zero h = absurd (omega arith)
get_or-length_append (x ∷ xs) ys (suc n) h = get_or-length_append xs ys n (omega arith)

-- What stands at an id in quotes: the test of the quotes fails, and its digits and the text behind
-- the second quote are found.
pub record IsId (hex json : List ℕ) : Type 0 where
  pub valid : is_no_id (34 ∷ (hex ++ 34 ∷ []) ++ json) ≡ false
  pub digits : take 64 ((hex ++ 34 ∷ []) ++ json) ≡ hex
  pub behind : drop 65 ((hex ++ 34 ∷ []) ++ json) ≡ json

pub quoted-IsId : (hex json : List ℕ) → length hex ≡ 64 → 1 ≤ length json → IsId hex json
unfolding is_no_id
quoted-IsId hex json size some_text =
    let flat : (hex ++ 34 ∷ []) ++ json ≡ hex ++ 34 ∷ json = append_assoc hex (34 ∷ []) json in
    let second : get_or (hex ++ 34 ∷ json) 64 0 ≡ 34 =
      get_or-length_append hex json 64 (sym size) in
    let long : ltb (suc (length (hex ++ 34 ∷ json))) 66 ≡ false =
      ground (arith, length-append hex (34 ∷ json)) in
    let size' : length (hex ++ 34 ∷ []) ≡ 65 = omega (arith, length-append hex (34 ∷ [])) in
    record {
      valid = rw (is_no_id, flat, long, second) refl;
      digits =
          rw flat
            (ap (λ n. take n (hex ++ 34 ∷ json)) (sym size) ∙ take-length_append hex (34 ∷ json));
      behind =
          ap (λ n. drop n ((hex ++ 34 ∷ []) ++ json)) (sym size')
          ∙ drop-length_append (hex ++ 34 ∷ []) json;
    }
