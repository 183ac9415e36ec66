-- ===== src/Wire/Reader/Reads.antt =====
-- What the cursor reads where a number's digits stand before it.
use utreexo_core_rpc.Common.{
  ℕ, zero, suc, ◌+◌, ◌*◌, ◌/◌, ◌%◌, ◌^◌, ◌≤◌, ◌<◌, bit_or, ◌≡◌, refl, sym, ap, ◌∙◌, some, List, [],
  ◌∷◌, ◌++◌, arith, length, get_or, drop, length-drop, length-append, drop-length_append,
}
use native.Mathlib.Numerals.{add-one, towards_suc}
use native.Mathlib.Nat.{mod-eq_of_lt}
use utreexo_core_rpc.Common.Bits.{bit_or_fields}
use utreexo_core_rpc.Wire.Bytes.{Bytes, little_endian, length-little_endian}
use utreexo_core_rpc.Wire.Reader.{Reader, remaining, advance, le_loop, read_le, rest}

module _ {ℓ} {A : Type ℓ} where
  get_or-drop : (n : ℕ) (xs ys : List A) (x d : A) → drop n xs ≡ x ∷ ys → get_or xs n d ≡ x
  get_or-drop zero [] ys x d h = cc
  get_or-drop zero (z ∷ xs) ys x d h = cc
  get_or-drop (suc n) [] ys x d h = cc
  get_or-drop (suc n) (z ∷ xs) ys x d h = get_or-drop n xs ys x d h

  drop-suc : (n : ℕ) (xs ys : List A) (x : A) → drop n xs ≡ x ∷ ys → drop (suc n) xs ≡ ys
  drop-suc zero [] ys x h = cc
  drop-suc zero (z ∷ xs) ys x h = cc
  drop-suc (suc n) [] ys x h = cc
  drop-suc (suc n) (z ∷ xs) ys x h = drop-suc n xs ys x h

  drop-next : (n : ℕ) (xs ys : List A) (x : A) → drop n xs ≡ x ∷ ys → drop (n + 1) xs ≡ ys
  drop-next n xs ys x h = rw add-one (drop-suc n xs ys x h)

two_pow-next_byte : (i : ℕ) → 2 ^ (8 * (i + 1)) ≡ 256 * 2 ^ (8 * i)
two_pow-next_byte i =
    let e : 8 * (i + 1) ≡ 8 * i + 8 = omega arith in rw e (simp towards_suc (omega arith))

byte_split : (v p : ℕ) → v * p ≡ v % 256 * p + v / 256 * (256 * p)
byte_split v p =
    let e : v ≡ v % 256 + v / 256 * 256 = omega arith in omega (arith, ap (λ (t : ℕ). t * p) e)

byte_fits : (b p result : ℕ) → b < 256 → result < p → b * p + result < 256 * p
byte_fits b p result h k = grind arith

pub two_pow-suc_byte : (n : ℕ) → 2 ^ (8 * suc n) ≡ 256 * 2 ^ (8 * n)
two_pow-suc_byte n = rw add-one at (two_pow-next_byte n)

le_loop-reads :
    (n i v result : ℕ) (r : Reader) (tail : Bytes)
    → rest r ≡ little_endian n v ++ tail
    → v < 2 ^ (8 * n)
    → result < 2 ^ (8 * i)
    → le_loop n i result r ≡ (result + v * 2 ^ (8 * i), advance n r)
unfolding le_loop little_endian
le_loop-reads zero i v result r tail h fits small = ground arith
le_loop-reads (suc n) i v result r tail h fits small =
    let p = 2 ^ (8 * i) in
    let b = v % 256 in
    let first : get_or r.bytes r.offset 0 ≡ b = get_or-drop r.offset r.bytes _ b 0 h in
    let joined : bit_or result (b * p) ≡ b * p + result = bit_or_fields (8 * i) b result small in
    let later : le_loop n (i + 1) (b * p + result) (advance 1 r)
        ≡ (b * p + result + v / 256 * 2 ^ (8 * (i + 1)), advance n (advance 1 r)) =
      le_loop-reads n (i + 1) (v / 256) (b * p + result) (advance 1 r) tail
        (drop-next r.offset r.bytes _ b h) (omega (arith, two_pow-suc_byte n))
        (rw two_pow-next_byte (byte_fits b p result (omega arith) small)) in
    rw (first, joined) (later ∙ (ground (arith, two_pow-next_byte i, byte_split v p)))

module _ {ℓ} {A : Type ℓ} where
  drop-nil : (n : ℕ) → drop {A = A} n [] ≡ []
  drop-nil zero = refl
  drop-nil (suc n) = refl

  pub drop-add : (n m : ℕ) (xs : List A) → drop (n + m) xs ≡ drop m (drop n xs)
  drop-add zero m xs = let e : 0 + m ≡ m = omega arith in rw e
  drop-add (suc n) m [] = let e : suc n + m ≡ suc (n + m) = omega arith in rw (e, drop-nil m)
  drop-add (suc n) m (x ∷ xs) =
      let e : suc n + m ≡ suc (n + m) = omega arith in rw e (drop-add n m xs)

-- What stands before the cursor does not matter, nor what follows the part that is read.
pub rest-advance :
    (r : Reader) (xs tail : Bytes) → rest r ≡ xs ++ tail → rest (advance (length xs) r) ≡ tail
rest-advance r xs tail h =
    drop-add r.offset (length xs) r.bytes ∙ ap (drop (length xs)) h ∙ drop-length_append xs tail

pub remaining-rest : (r : Reader) → remaining r ≡ length (rest r)
unfolding remaining
remaining-rest r = sym (length-drop r.offset r.bytes)

pub read_le-reads :
    (width v : ℕ) (r : Reader) (tail : Bytes)
    → rest r ≡ little_endian width v ++ tail
    → v < 2 ^ (8 * width)
    → read_le width r ≡ some (v, advance width r)
unfolding read_le
read_le-reads width v r tail h fits =
    let size : width ≤ remaining r = omega (
      arith,
      remaining-rest r,
      ap length h,
      length-append (little_endian width v) tail,
      length-little_endian width v,
    ) in
    let run : le_loop width 0 0 r ≡ (v, advance width r) =
      le_loop-reads width 0 v 0 r tail h fits (omega arith) ∙ ground arith in
    ground (arith, mod-eq_of_lt fits)
