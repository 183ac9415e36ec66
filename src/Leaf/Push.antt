-- ===== src/Leaf/Push.antt =====
-- `LastScriptPush` against scripts as lists of instructions.
use utreexo_core_rpc.Common.{
  ℕ, zero, suc, ◌+◌, ◌^◌, ◌≤◌, ◌<◌, ◌≡◌, refl, sym, ap, ◌∙◌, arith, Option, none, some, List, [],
  ◌∷◌, ◌++◌, length, append_assoc, length-append, take-length_append,
}
use utreexo_core_rpc.Result.{ok, ◌>>=◌}
use utreexo_core_rpc.Wire.Bytes.{Bytes, little_endian}
use utreexo_core_rpc.Leaf.{push_loop, the_push, last_script_push}
use utreexo_core_rpc.Leaf.Rounds.{
  direct-Announced, push_data1-Announced, push_data2-Announced, push_data4-Announced, pushed_round,
  operation_round, push_end,
}

-- A push in its four forms, or an opcode that pushes no bytes of the script.
pub data Instruction : Type 0 where
  direct push_data1 push_data2 push_data4 : Bytes → Instruction
  operation : ℕ → Instruction

-- The opcode and the length.
abbrev pub head_of : Instruction → Bytes
head_of (direct d) = length d ∷ []
head_of (push_data1 d) = 76 ∷ length d ∷ []
head_of (push_data2 d) = 77 ∷ little_endian 2 (length d)
head_of (push_data4 d) = 78 ∷ little_endian 4 (length d)
head_of (operation o) = o ∷ []

abbrev pub body_of : Instruction → Bytes
body_of (direct d) = d
body_of (push_data1 d) = d
body_of (push_data2 d) = d
body_of (push_data4 d) = d
body_of (operation o) = []

abbrev pub assemble : List Instruction → Bytes
assemble [] = []
assemble (i ∷ is) = head_of i ++ (body_of i ++ assemble is)

abbrev pub IsEncodable : Instruction → Type 0
IsEncodable (direct d) = length d ≤ 75
IsEncodable (push_data1 d) = length d < 2 ^ 8
IsEncodable (push_data2 d) = length d < 2 ^ 16
IsEncodable (push_data4 d) = length d < 2 ^ 32
IsEncodable (operation o) = (78 < o) × (o < 256)

abbrev pub AllEncodable : List Instruction → Type 0
AllEncodable [] = Unit
AllEncodable (i ∷ is) = IsEncodable i × AllEncodable is

abbrev pub pushed_by : Instruction → Option Bytes
pushed_by (operation o) = none
pushed_by (direct d) = some d
pushed_by (push_data1 d) = some d
pushed_by (push_data2 d) = some d
pushed_by (push_data4 d) = some d

-- What the last instruction pushes.
abbrev pub last_pushed : Option Bytes → List Instruction → Option Bytes
last_pushed before [] = before
last_pushed before (i ∷ is) = last_pushed (pushed_by i) is

-- The instruction at the cursor, with any bytes behind it.
instruction_round :
    (i : Instruction) (before tail : Bytes) (fuel : ℕ) (last_push : Option Bytes)
    → IsEncodable i
    → push_loop (suc fuel) (length before) last_push (before ++ (head_of i ++ (body_of i ++ tail)))
      ≡ push_loop fuel
          (length before + (length (head_of i) + length (body_of i)))
          (pushed_by i)
          (before ++ (head_of i ++ (body_of i ++ tail)))
unfolding little_endian
instruction_round (direct d) before tail fuel last_push h =
    let xs = length d ∷ (d ++ tail) in
    pushed_round before xs fuel last_push d 1 (direct-Announced before xs (length d) refl h)
      (omega arith) (omega (arith, length-append d tail)) (take-length_append d tail)
instruction_round (push_data1 d) before tail fuel last_push h =
    let xs = 76 ∷ length d ∷ (d ++ tail) in
    pushed_round before xs fuel last_push d 2
      (push_data1-Announced before xs (length d) refl refl (omega arith)) (omega arith)
      (omega (arith, length-append d tail)) (take-length_append d tail)
instruction_round (push_data2 d) before tail fuel last_push h =
    let xs = 77 ∷ (little_endian 2 (length d) ++ (d ++ tail)) in
    pushed_round before xs fuel last_push d 3
      (push_data2-Announced before xs (length d) refl refl refl (omega arith) h) (omega arith)
      (omega (arith, length-append d tail)) (take-length_append d tail)
instruction_round (push_data4 d) before tail fuel last_push h =
    let xs = 78 ∷ (little_endian 4 (length d) ++ (d ++ tail)) in
    pushed_round before xs fuel last_push d 5
      (push_data4-Announced before xs (length d) refl refl refl refl refl (omega arith) h)
      (omega arith) (omega (arith, length-append d tail)) (take-length_append d tail)
instruction_round (operation o) before tail fuel last_push h =
    operation_round before (o ∷ tail) fuel last_push h.0 (omega arith)

length-instruction : (i : Instruction) → 0 < length (head_of i)
unfolding little_endian
length-instruction (direct d) = omega arith
length-instruction (push_data1 d) = omega arith
length-instruction (push_data2 d) = omega arith
length-instruction (push_data4 d) = omega arith
length-instruction (operation o) = omega arith

push_loop-assemble :
    (is : List Instruction) (before : Bytes) (fuel : ℕ) (last_push : Option Bytes)
    → AllEncodable is
    → length (assemble is) ≤ fuel
    → push_loop fuel (length before) last_push (before ++ assemble is)
      ≡ ok (last_pushed last_push is)
push_loop-assemble [] before fuel last_push h enough = push_end before [] fuel last_push refl
push_loop-assemble (i ∷ is) before zero last_push h enough =
    let e : length (head_of i ++ (body_of i ++ assemble is)) ≤ 0 = enough in
    absurd
      (omega (arith, length-append (head_of i) (body_of i ++ assemble is), length-instruction i))
push_loop-assemble (i ∷ is) before (suc fuel) last_push h enough =
    let tail = assemble is in
    let one = head_of i ++ body_of i in
    let l = length-append (head_of i) (body_of i ++ tail) in
    let k = length-append (body_of i) tail in
    let place : length (before ++ one) ≡ length before + (length (head_of i) + length (body_of i)) =
      omega (arith, length-append before one, length-append (head_of i) (body_of i)) in
    let same : before ++ (head_of i ++ (body_of i ++ tail)) ≡ (before ++ one) ++ tail =
      ap (λ ys. before ++ ys) (sym (append_assoc (head_of i) (body_of i) tail))
      ∙ sym (append_assoc before one tail) in
    let rest =
      push_loop-assemble is (before ++ one) fuel (pushed_by i) h.1
        (omega (arith, length-instruction i)) in
    instruction_round i before tail fuel last_push h.0 ∙ rw (← place, same) rest

last_script_push-some :
    (script : Bytes)
    → 0 < length script
    → last_script_push script ≡ (push_loop (length script) 0 none script >>= the_push)
unfolding last_script_push
last_script_push-some [] h = absurd (omega arith)
last_script_push-some (b ∷ bs) h = refl

-- On every script that is a list of instructions, with pushes in any of their four forms,
-- `LastScriptPush` gives the bytes that the last instruction pushes, and the error for a script
-- that does not end in a push when that instruction is another one.
pub last_script_push-assemble :
    (i : Instruction) (is : List Instruction)
    → AllEncodable (i ∷ is)
    → last_script_push (assemble (i ∷ is)) ≡ the_push (last_pushed none (i ∷ is))
last_script_push-assemble i is h =
    let script = assemble (i ∷ is) in
    let some_bytes : 0 < length script =
      omega (arith, length-append (head_of i) (body_of i ++ assemble is), length-instruction i) in
    last_script_push-some script some_bytes
    ∙ ap (λ r. r >>= the_push) (push_loop-assemble (i ∷ is) [] (length script) none h (omega arith))
