-- ===== src/Prelude/Finds.antt =====
-- What `find` gives in a list that has grown at its end, or whose elements were replaced in place.
use mathlib.Core.Path.{◌≡◌, refl, ap}
use mathlib.Core.Logic.{inl, inr}
use mathlib.Core.Bool.{Bool}
use mathlib.Core.Option.{none, some}
use mathlib.Core.List.{List, [], ◌∷◌, ◌++◌, map}
use matrix_flare.Prelude.Tests.{Bool-cases}
use matrix_flare.Prelude.Lists.{find}

module _ {ℓ} {A : Type ℓ} (p : A → Bool) where
  pub find-append_some : (xs ys : List A) (x : A) → find p xs ≡ some x → find p (xs ++ ys) ≡ some x
  find-append_some [] ys x h = cc
  find-append_some (y ∷ rest) ys x h = elim (Bool-cases (p y)) [
    | inl e ↦ rw e (rw e at h)
    | inr e ↦ rw e (find-append_some rest ys x (rw e at h))
  ]

  pub find-append_none : (xs ys : List A) → find p xs ≡ none → find p (xs ++ ys) ≡ find p ys
  find-append_none [] ys h = refl
  find-append_none (y ∷ rest) ys h = elim (Bool-cases (p y)) [
    | inl e ↦ let bad : some y ≡ none = rw e at h in cc
    | inr e ↦ rw e (find-append_none rest ys (rw e at h))
  ]

  -- Elements are replaced by ones that the test treats alike.
  pub find-map-some :
      (f : A → A)
      → ((x : A) → p (f x) ≡ p x)
      → (xs : List A) (x : A) → find p xs ≡ some x
      → find p (map f xs) ≡ some (f x)
  find-map-some f same [] x h = cc
  find-map-some f same (y ∷ rest) x h = elim (Bool-cases (p y)) [
    | inl e ↦
        let out : some y ≡ some x = rw e at h in
        let found : y ≡ x = cc in rw (same y, e) (ap (λ z. some (f z)) found)
    | inr e ↦ rw (same y, e) (find-map-some f same rest x (rw e at h))
  ]

  pub find-map-none :
      (f : A → A)
      → ((x : A) → p (f x) ≡ p x)
      → (xs : List A) → find p xs ≡ none
      → find p (map f xs) ≡ none
  find-map-none f same [] h = refl
  find-map-none f same (y ∷ rest) h = elim (Bool-cases (p y)) [
    | inl e ↦ let bad : some y ≡ none = rw e at h in cc
    | inr e ↦ rw (same y, e) (find-map-none f same rest (rw e at h))
  ]
