-- ===== src/Prelude/Results.antt =====
-- A computation that may raise an exception: its value or the error.
use mathlib.Core.Bool.{Bool, true, false}
use mathlib.Core.Path.{◌≡◌, refl}
use mathlib.Core.Logic.{◌⊎◌, inl, inr}

pub data Result {ℓ κ} (E : Type ℓ) (A : Type κ) : Type (ℓ ⊔ κ) where
  error : E → Result E A
  ok : A → Result E A

-- What follows a step runs on the value that the step returns, and an exception skips it.
abbrev pub ◌>>=◌ {ℓ κ μ} :
    {E : Type ℓ} {A : Type κ} {B : Type μ} → Result E A → (A → Result E B) → Result E B
error raised >>= rest = error raised
ok returned >>= rest = rest returned

abbrev pub ◌>>◌ {ℓ κ μ} :
    {E : Type ℓ} {A : Type κ} {B : Type μ} → Result E A → Result E B → Result E B
error raised >> rest = error raised
ok returned >> rest = rest

infixl 5 ◌>>=◌ ◌>>◌
-- `if not test: raise e`
abbrev pub require {ℓ} : {E : Type ℓ} → Bool → E → Result E (Unit {0})
require false raised = error raised
require true raised = ok tt

pub Result-cases {ℓ κ} :
    {E : Type ℓ} {A : Type κ} (r : Result E A) → ((e : E) × (r ≡ error e)) ⊎ ((a : A) × (r ≡ ok a))
Result-cases (error e) = inl (e, refl)
Result-cases (ok a) = inr (a, refl)

-- A sequence that returns came through its first step.
pub returned-first {ℓ κ μ} :
    {E : Type ℓ} {A : Type κ} {B : Type μ} (m : Result E A) (rest : A → Result E B) {b : B}
    → (m >>= rest) ≡ ok b
    → (a : A) × (m ≡ ok a) × (rest a ≡ ok b)
returned-first (error e) rest h = cc
returned-first (ok a) rest h = (a, refl, h)
