-- ===== src/Prelude/Dicts.antt =====
-- Python's `dict` as its items in insertion order: an assignment to a key that is there keeps its
-- place, and a new key goes last.
use mathlib.Core.Path.{◌≡◌, refl}
use mathlib.Core.Option.{Option, none, some}
use mathlib.Core.List.{List, [], ◌∷◌}
use native.Mathlib.Omega.{arith}
use time_weaver.Prelude.Tests.{Comparable, ◌==◌, if◌then◌else◌, Bool-cases}
use time_weaver.Prelude.Lists.{length}
use Prim.Native.Nat.{ℕ, ◌+◌}
use mathlib.Core.Logic.{inl, inr}

abbrev pub Dict {ℓ κ} : Type ℓ → Type κ → Type (ℓ ⊔ κ)
Dict K V = List (K × V)

module _ {ℓ κ} {K : Type ℓ} {V : Type κ} ⦃c : Comparable K⦄ where
  -- d.get(k)
  unfoldable pub get : K → Dict K V → Option V
  get k [] = none
  get k ((j, v) ∷ d) = if j == k then some v else get k d

  -- d[k] = v
  unfoldable pub put : K → V → Dict K V → Dict K V
  put k v [] = (k, v) ∷ []
  put k v ((j, w) ∷ d) = if j == k then (j, v) ∷ d else (j, w) ∷ put k v d

  -- d.pop(k, None)
  unfoldable pub pop : K → Dict K V → Dict K V
  pop k [] = []
  pop k ((j, w) ∷ d) = let rest = pop k d in if j == k then rest else (j, w) ∷ rest

  pub get-put :
      (k j : K) (v : V) (d : Dict K V) → get j (put k v d) ≡ (if k == j then some v else get j d)
  unfolding get put
  get-put k j v [] = refl
  get-put k j v ((i, w) ∷ d) =
      ground (arith, c.same_iff k j, c.same_iff i k, c.same_iff i j, get-put k j v d)

  pub get-pop : (k j : K) (d : Dict K V) → get j (pop k d) ≡ (if k == j then none else get j d)
  unfolding get pop
  get-pop k j [] = ground arith
  get-pop k j ((i, w) ∷ d) =
      ground (arith, c.same_iff k j, c.same_iff i k, c.same_iff i j, get-pop k j d)

-- No key stands twice, as in every dict.
abbrev pub Distinct {ℓ κ} : {K : Type ℓ} {V : Type κ} ⦃c : Comparable K⦄ → Dict K V → Type κ
Distinct [] = Unit
Distinct ((k, v) ∷ d) = (get k d ≡ none) × Distinct d

module _ {ℓ κ} {K : Type ℓ} {V : Type κ} ⦃c : Comparable K⦄ where
  pub put-Distinct : (k : K) (v : V) (d : Dict K V) → Distinct d → Distinct (put k v d)
  unfolding put get
  put-Distinct k v [] h = (refl, tt)
  put-Distinct k v ((j, w) ∷ d) h = elim (Bool-cases (j == k)) [
    | inl here ↦ rw here h
    | inr other ↦ rw other (
      ground (arith, h.0, get-put k j v d, c.same_iff j k, c.same_iff k j),
      put-Distinct k v d h.1,
    )
  ]

  pub pop-Distinct : (k : K) (d : Dict K V) → Distinct d → Distinct (pop k d)
  unfolding pop get
  pop-Distinct k [] h = tt
  pop-Distinct k ((j, w) ∷ d) h = elim (Bool-cases (j == k)) [
    | inl here ↦ rw here (pop-Distinct k d h.1)
    | inr other ↦ rw other (ground (arith, h.0, get-pop k j d), pop-Distinct k d h.1)
  ]

  pub pop_absent : (k : K) (d : Dict K V) → get k d ≡ none → pop k d ≡ d
  unfolding pop get
  pop_absent k [] h = refl
  pop_absent k ((j, w) ∷ d) h = ground (arith, pop_absent k d)

-- The sizes of the lists that a dict holds.
abbrev pub length_at {ℓ} : {A : Type ℓ} → Option (List A) → ℕ
length_at none = 0
length_at (some q) = length q

module _ {ℓ κ} {K : Type ℓ} {A : Type κ} ⦃c : Comparable K⦄ where
  unfoldable pub total : Dict K (List A) → ℕ
  total [] = 0
  total ((k, q) ∷ d) = length q + total d

  pub total-put :
      (k : K) (q : List A) (d : Dict K (List A))
      → total (put k q d) + length_at (get k d) ≡ total d + length q
  unfolding total put get
  total-put k q [] = omega arith
  total-put k q ((j, w) ∷ d) = ground (arith, total-put k q d)

  pub total-pop :
      (k : K) (d : Dict K (List A)) → Distinct d → total (pop k d) + length_at (get k d) ≡ total d
  unfolding total pop get
  total-pop k [] h = omega arith
  total-pop k ((j, w) ∷ d) h =
      ground (arith, total-pop k d h.1, pop_absent k d, c.same_iff j k, h.0)
