-- ===== src/Relay/Run.antt =====
-- Calls that read and change a state, and may fail or throw.

use utreexo_core_rpc.Common.{String, ◌≡◌, refl, Bool, true, false}
use utreexo_core_rpc.Result.{Result, ok, err, thrown}

abbrev pub Run {ℓ κ} : Type ℓ → Type κ → Type (ℓ ⊔ κ)
Run S A = S → Result A × S

abbrev pub pure {ℓ κ} : {S : Type ℓ} {A : Type κ} → A → Run S A
pure a s = (ok a, s)

-- A result that the state has no part in.
abbrev pub lift {ℓ κ} : {S : Type ℓ} {A : Type κ} → Result A → Run S A
lift r s = (r, s)

abbrev pub fail {ℓ κ} : {S : Type ℓ} {A : Type κ} → String → Run S A
fail message s = (err message, s)

-- What follows a call, where it has ended normally.
abbrev pub after {ℓ κ μ} :
    {S : Type ℓ} {A : Type κ} {B : Type μ} → Result A × S → (A → Run S B) → Result B × S
after (ok a, s) rest = rest a s
after (err message, s) rest = (err message, s)
after (thrown what, s) rest = (thrown what, s)

infixl 5 ◌>>=◌
abbrev pub ◌>>=◌ {ℓ κ μ} :
    {S : Type ℓ} {A : Type κ} {B : Type μ} → (step : Run S A) → (rest : A → Run S B) → Run S B
(step >>= rest) s = after (step s) rest

infixl 5 ◌>>◌
abbrev pub ◌>>◌ {ℓ μ} :
    {S : Type ℓ} {B : Type μ} → (step : Run S (Unit {0})) → (rest : Run S B) → Run S B
step >> rest = step >>= λ done. rest

abbrev pub refuse {ℓ} : {S : Type ℓ} → Bool → String → Run S (Unit {0})
refuse true message = fail message
refuse false message = pure tt

-- What a call that has ended normally tells of its first step.
pub after-eq-ok {ℓ κ μ} :
    {S : Type ℓ} {A : Type κ} {B : Type μ} (step : Result A × S) (rest : A → Run S B) (b : B)
    (t : S)
    → after step rest ≡ (ok b, t)
    → (a : A) × (s : S) × (step ≡ (ok a, s)) × (rest a s ≡ (ok b, t))
after-eq-ok (ok a, s) rest b t e = (a, s, refl, e)
after-eq-ok (err message, s) rest b t e = cc
after-eq-ok (thrown what, s) rest b t e = cc

pub refuse-eq-ok {ℓ μ} :
    {S : Type ℓ} {B : Type μ} (test : Bool) (message : String) (rest : Run S B) (s : S) (b : B)
    (t : S)
    → (refuse test message >> rest) s ≡ (ok b, t)
    → (test ≡ false) × (rest s ≡ (ok b, t))
refuse-eq-ok true message rest s b t e = cc
refuse-eq-ok false message rest s b t e = (refl, e)

-- A result that the state had no part in leaves the state as it was.
pub after-lift {ℓ κ μ} :
    {S : Type ℓ} {A : Type κ} {B : Type μ} (run : Result A) (rest : A → Run S B) (s : S) (b : B)
    (t : S)
    → after (lift run s) rest ≡ (ok b, t)
    → (a : A) × (run ≡ ok a) × (rest a s ≡ (ok b, t))
after-lift (ok a) rest s b t e = (a, refl, e)
after-lift (err message) rest s b t e = cc
after-lift (thrown what) rest s b t e = cc
