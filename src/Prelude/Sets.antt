-- ===== src/Prelude/Sets.antt =====
-- Python's `set` as a list: only membership is observed.
use mathlib.Core.Path.{◌≡◌}
use mathlib.Core.Bool.{Bool, false, ◌&&◌, ◌||◌, not}
use mathlib.Core.List.{List, [], ◌∷◌}
use native.Mathlib.Omega.{arith}
use time_weaver.Prelude.Tests.{Comparable, ◌==◌, if◌then◌else◌}

module _ {ℓ} {A : Type ℓ} ⦃c : Comparable A⦄ where
  -- x in s
  unfoldable pub contains : A → List A → Bool
  contains x [] = false
  contains x (y ∷ s) = y == x || contains x s

  -- s.add(x)
  unfoldable pub add : A → List A → List A
  add x s = if contains x s then s else x ∷ s

  -- {y for y in s if p(y)}
  unfoldable pub filter_by : (A → Bool) → List A → List A
  filter_by p [] = []
  filter_by p (y ∷ s) = let rest = filter_by p s in if p y then y ∷ rest else rest

  -- s.discard(x)
  unfoldable pub discard : A → List A → List A
  unfolding filter_by
  discard x s = filter_by (λ y. not (y == x)) s

  pub contains-add : (x y : A) (s : List A) → contains y (add x s) ≡ (x == y || contains y s)
  unfolding add contains
  contains-add x y s = ground (arith, c.same_iff x y)

  pub contains-filter_by :
      (p : A → Bool) (y : A) (s : List A) → contains y (filter_by p s) ≡ (p y && contains y s)
  unfolding filter_by contains
  contains-filter_by p y [] = ground arith
  contains-filter_by p y (x ∷ s) = ground (arith, c.same_iff x y, contains-filter_by p y s)

  pub contains-discard :
      (x y : A) (s : List A) → contains y (discard x s) ≡ (not (y == x) && contains y s)
  unfolding discard
  contains-discard x y s = contains-filter_by (λ z. not (z == x)) y s
