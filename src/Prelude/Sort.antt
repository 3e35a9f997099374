-- ===== src/Prelude/Sort.antt =====
-- Sorting: `array.sort(compare)` is stable, and puts equal elements in the order in which they stood.
use matrix_flare.Prelude.Tests.{if◌then◌else◌}
use mathlib.Core.Bool.{Bool}
use mathlib.Core.List.{List, [], ◌∷◌}

-- `goes_first left right` says that `compare(left, right)` is at most 0.
module _ {ℓ} {A : Type ℓ} (goes_first : A → A → Bool) where
  unfoldable pub insert : A → List A → List A
  insert x [] = x ∷ []
  insert x (y ∷ ys) = let rest = insert x ys in if goes_first x y then x ∷ y ∷ ys else y ∷ rest

  unfoldable pub sort : List A → List A
  sort [] = []
  sort (x ∷ xs) = insert x (sort xs)
