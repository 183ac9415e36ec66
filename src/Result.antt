-- ===== src/Result.antt =====
-- `Result<T>` of include/utreexo/result.h, with a third case for a C++ exception that leaves the
-- function: `thrown` carries the exception's message.
use mathlib.Core.Path.{◌≡◌, refl}
use utreexo_core_rpc.Common.{String, Bool, true, false, Option, none, some, ◌⊎◌, inl, inr}

pub data Result {ℓ} (A : Type ℓ) : Type ℓ where
  ok : A → Result A
  err : String → Result A
  thrown : String → Result A

-- The rest of a run starts only where its first step has ended normally.
infixl 5 ◌>>=◌
abbrev pub ◌>>=◌ {ℓ κ} :
    {A : Type ℓ} {B : Type κ} → (step : Result A) → (rest : A → Result B) → Result B
thrown what >>= rest = thrown what
err message >>= rest = err message
ok value >>= rest = rest value

infixl 5 ◌>>◌
abbrev pub ◌>>◌ {ℓ} : {B : Type ℓ} → (step : Result (Unit {0})) → (rest : Result B) → Result B
step >> rest = step >>= λ done. rest

-- A read that fails makes its caller return an error.
abbrev pub expect {ℓ} : {A : Type ℓ} → String → Option A → Result A
expect message none = err message
expect message (some value) = ok value

-- `if (test) return R::Err(message)`
abbrev pub refuse : Bool → String → Result (Unit {0})
refuse true message = err message
refuse false message = ok tt

pub ok-injective {ℓ} : {A : Type ℓ} {a b : A} → ◌≡◌ {A = Result A} (ok a) (ok b) → a ≡ b
ok-injective e = cc

-- What a test that was passed says, and the rest of the run.
pub refuse-eq-ok {ℓ} :
    {B : Type ℓ} (test : Bool) (message : String) (rest : Result B) (last : B)
    → (refuse test message >> rest) ≡ ok last
    → (test ≡ false) × (rest ≡ ok last)
refuse-eq-ok true message rest last ended = cc
refuse-eq-ok false message rest last ended = (refl, ended)

-- What a run that ends normally tells of its first step.
pub >>=-eq-ok {ℓ κ} :
    {A : Type ℓ} {B : Type κ} (step : Result A) (rest : A → Result B) (last : B)
    → (step >>= rest) ≡ ok last
    → (first : A) × (step ≡ ok first) × (rest first ≡ ok last)
>>=-eq-ok (thrown what) rest last ended = cc
>>=-eq-ok (err message) rest last ended = cc
>>=-eq-ok (ok first) rest last ended = (first, refl, ended)

-- The run ends normally, in a value that satisfies `P`.
abbrev pub Returns {ℓ κ} : {A : Type ℓ} → Result A → (A → Type κ) → Type (ℓ ⊔ κ)
Returns {A} r P = (a : A) × (r ≡ ok a) × P a

-- To split on the result of a run and keep the equation.
pub Result-cases {ℓ} :
    {A : Type ℓ} (run : Result A)
    → ((value : A) × (run ≡ ok value))
      ⊎ (((message : String) × (run ≡ err message)) ⊎ ((what : String) × (run ≡ thrown what)))
Result-cases (ok value) = inl (value, refl)
Result-cases (err message) = inr (inl (message, refl))
Result-cases (thrown what) = inr (inr (what, refl))

-- The run throws nothing, and a value that it ends in satisfies `P`.
abbrev pub Answers {ℓ} : {A : Type ℓ} → Result A → (A → Type 0) → Type 0
Answers (ok a) P = P a
Answers (err message) P = Unit
Answers (thrown what) P = ⊥

pub >>=-Answers {ℓ κ} :
    {A : Type ℓ} {B : Type κ} (P : A → Type 0) (Q : B → Type 0) (step : Result A)
    (rest : A → Result B)
    → Answers step P
    → ((a : A) → P a → Answers (rest a) Q)
    → Answers (step >>= rest) Q
>>=-Answers P Q (ok a) rest h k = k a h
>>=-Answers P Q (err message) rest h k = tt
>>=-Answers P Q (thrown what) rest h k = absurd h

pub refuse-Answers {ℓ} :
    {B : Type ℓ} (Q : B → Type 0) (test : Bool) (message : String) (rest : Result B)
    → (test ≡ false → Answers rest Q)
    → Answers (refuse test message >> rest) Q
refuse-Answers Q true message rest k = tt
refuse-Answers Q false message rest k = k refl

pub expect-Answers {ℓ κ} :
    {A : Type ℓ} {B : Type κ} (Q : B → Type 0) (message : String) (read : Option A)
    (rest : A → Result B)
    → ((a : A) → Answers (rest a) Q)
    → Answers (expect message read >>= rest) Q
expect-Answers Q message none rest k = tt
expect-Answers Q message (some a) rest k = k a

pub expect-eq-ok {ℓ} :
    {A : Type ℓ} (message : String) (read : Option A) (a : A)
    → expect message read ≡ ok a
    → read ≡ some a
expect-eq-ok message none a e = cc
expect-eq-ok message (some b) a e = cc
