-- ===== src/Prelude/Sorting.antt =====
-- Python's `sorted`, as an insertion sort by a test; on a total order the two agree.
use Prim.Native.String.{String, compare}
use mathlib.Core.Bool.{Bool}
use mathlib.Core.List.{List, [], ◌∷◌}
use text.Mathlib.Text.{is_le}
use time_weaver.Prelude.Tests.{if◌then◌else◌}

module _ {ℓ} {A : Type ℓ} (le : A → A → Bool) where
  unfoldable pub insert_by : A → List A → List A
  insert_by x [] = x ∷ []
  insert_by x (y ∷ ys) = if le x y then x ∷ y ∷ ys else y ∷ insert_by x ys

  unfoldable pub sort_by : List A → List A
  unfolding insert_by
  sort_by [] = []
  sort_by (x ∷ xs) = insert_by x (sort_by xs)

-- Python compares texts by code points, which is the order of their UTF-8 bytes.
abbrev pub text_le : String → String → Bool
text_le s t = is_le (compare s t)
