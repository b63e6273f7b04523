-- ===== src/Prelude/Tests.antt =====
-- Boolean tests on numbers and texts, and the conditional.
use Prim.Native.Nat.{ℕ, compare, Ordering}
use Prim.Native.String.{String}
use mathlib.Core.Path.{◌≡◌, refl}
use mathlib.Core.Logic.{◌↔◌, ◌⊎◌, inl, inr}
use mathlib.Core.Bool.{Bool, true, false}
use mathlib.Core.Option.{Option, none, some}
use native.Mathlib.Omega.{arith}
use text.Mathlib.Text.{◌==◌ as str_eq}
use text.Mathlib.TextEquality.{eq_iff}

abbrev pub ltb : ℕ → ℕ → Bool
ltb a b = elim (compare a b) [ Ordering.lt ↦ true | _ ↦ false ]

abbrev pub leb : ℕ → ℕ → Bool
leb a b = elim (compare a b) [ Ordering.gt ↦ false | _ ↦ true ]

abbrev pub nat_same : ℕ → ℕ → Bool
nat_same a b = elim (compare a b) [ Ordering.eq ↦ true | _ ↦ false ]

infix 1 if◌then◌else◌
abbrev pub if◌then◌else◌ {ℓ} : {A : Type ℓ} → Bool → A → A → A
if true then x else y = x
if false then x else y = y

pub nat_same_iff : (a b : ℕ) → (nat_same a b ≡ true) ↔ (a ≡ b)
nat_same_iff a b = ground arith

-- Python's `==` on values of one type.
pub record Comparable {ℓ} (A : Type ℓ) : Type ℓ where
  pub same : A → A → Bool
  pub same_iff : (a b : A) → (same a b ≡ true) ↔ (a ≡ b)

infix 50 ◌==◌
abbrev pub ◌==◌ {ℓ} : {A : Type ℓ} ⦃c : Comparable A⦄ → A → A → Bool
◌==◌ ⦃c⦄ = c.same

instance abbrev pub nat_comparable : Comparable ℕ
nat_comparable = record { same = nat_same; same_iff = nat_same_iff }

instance abbrev pub text_comparable : Comparable String
text_comparable = record { same = str_eq; same_iff = eq_iff }

pub same_refl {ℓ} : {A : Type ℓ} ⦃c : Comparable A⦄ (a : A) → (a == a) ≡ true
same_refl ⦃c⦄ a = (c.same_iff a a).1 refl

-- `x is None`, and `x == y` where either may be `None`.
abbrev pub is_none {ℓ} : {A : Type ℓ} → Option A → Bool
is_none none = true
is_none (some a) = false

abbrev pub option_same {ℓ} : {A : Type ℓ} ⦃c : Comparable A⦄ → Option A → Option A → Bool
option_same none none = true
option_same (some a) (some b) = a == b
option_same _ _ = false

pub option_same_iff {ℓ} :
    {A : Type ℓ} ⦃c : Comparable A⦄ (x y : Option A) → (option_same x y ≡ true) ↔ (x ≡ y)
option_same_iff none none = ground arith
option_same_iff none (some b) = ground arith
option_same_iff (some a) none = ground arith
option_same_iff ⦃c⦄ (some a) (some b) = ground (arith, c.same_iff a b)

pub Bool-cases : (b : Bool) → (b ≡ true) ⊎ (b ≡ false)
Bool-cases true = inl refl
Bool-cases false = inr refl

pub Option-cases {ℓ} : {A : Type ℓ} (o : Option A) → (o ≡ none) ⊎ ((a : A) × (o ≡ some a))
Option-cases none = inl refl
Option-cases (some a) = inr (a, refl)
