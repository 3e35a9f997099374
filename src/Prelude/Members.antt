-- ===== src/Prelude/Members.antt =====
-- Membership in a list, of what filtering and sorting leave of it.
use mathlib.Core.Path.{◌≡◌, refl, sym, ap, ◌∙◌, subst}
use mathlib.Core.Logic.{◌⊎◌, inl, inr}
use mathlib.Core.Bool.{Bool, true, false}
use mathlib.Core.Option.{some}
use mathlib.Core.List.{List, [], ◌∷◌, map}
use Prim.Native.Nat.{suc, ◌<◌}
pub use mathlib.Core.List.{Memᴰ as Member}
pub use mathlib.Core.List.Memᴰ.{head, tail, cases_cons}
use native.Mathlib.Omega.{arith}
use matrix_flare.Prelude.Tests.{Bool-cases}
use matrix_flare.Prelude.Lists.{filter, find, All, length, length-filter-le}
use matrix_flare.Prelude.Int.{ℤ, ◌≤ℤ◌}
use matrix_flare.Prelude.Sort.{insert, sort}

module _ {ℓ} {A : Type ℓ} where
  pub All-member {κ} : (P : A → Type κ) (xs : List A) (x : A) → All P xs → Member x xs → P x
  All-member P [] x ps h = elim h [ ]
  All-member P (y ∷ ys) x (p, ps) (head e) = subst P (sym e) p
  All-member P (y ∷ ys) x (p, ps) (tail h) = All-member P ys x ps h

  pub filter-member :
      (p : A → Bool) (xs : List A) (x : A) → Member x (filter p xs) → Member x xs × (p x ≡ true)
  filter-member p [] x h = elim h [ ]
  filter-member p (y ∷ ys) x h = elim (Bool-cases (p y)) [
    | inl e ↦ elim (cases_cons (rw e at h)) [
      | inl same ↦ (head same, ap p same ∙ e)
      | inr m ↦ let (m', t) = filter-member p ys x m in (tail m', t)
    ]
    | inr e ↦ let (m', t) = filter-member p ys x (rw e at h) in (tail m', t)
  ]

  pub member-filter :
      (p : A → Bool) (xs : List A) (x : A) → Member x xs → p x ≡ true → Member x (filter p xs)
  member-filter p [] x h t = elim h [ ]
  member-filter p (y ∷ ys) x (head same) t =
      let kept : p y ≡ true = sym (ap p same) ∙ t in rw kept (head same)
  member-filter p (y ∷ ys) x (tail h) t = elim (Bool-cases (p y)) [
    | inl e ↦ rw e (tail (member-filter p ys x h t))
    | inr e ↦ rw e (member-filter p ys x h t)
  ]

  pub find-member :
      (p : A → Bool) (xs : List A) (x : A) → find p xs ≡ some x → Member x xs × (p x ≡ true)
  find-member p [] x h = cc
  find-member p (y ∷ ys) x h = elim (Bool-cases (p y)) [
    | inl e ↦
        let found : some y ≡ some x = rw e at h in
        let same : y ≡ x = cc in (head (sym same), sym (ap p same) ∙ e)
    | inr e ↦ let (m, t) = find-member p ys x (rw e at h) in (tail m, t)
  ]

  pub member-find :
      (p : A → Bool) (xs : List A) (x : A)
      → Member x xs
      → p x ≡ true
      → (y : A) × (find p xs ≡ some y)
  member-find p [] x m t = elim m [ ]
  member-find p (y ∷ ys) x m t = elim (Bool-cases (p y)) [
    | inl e ↦ (y, rw e refl)
    | inr e ↦ elim (cases_cons m) [
      | inl same ↦ absurd (let bad : true ≡ false = sym t ∙ ap p same ∙ e in cc)
      | inr m' ↦ let (z, found) = member-find p ys x m' t in (z, rw e found)
    ]
  ]

  pub member-map :
      (f : A → A) (xs : List A) (y : A) → Member y (map f xs) → (x : A) × Member x xs × (y ≡ f x)
  member-map f [] y h = elim h [ ]
  member-map f (x ∷ xs) y (head e) = (x, head refl, e)
  member-map f (x ∷ xs) y (tail h) = let (z, m, e) = member-map f xs y h in (z, tail m, e)

  -- One element that fails a test makes the filtered list shorter.
  pub length-filter-lt :
      (test : A → Bool) (xs : List A) (x : A)
      → Member x xs
      → test x ≡ false
      → length (filter test xs) < length xs
  length-filter-lt test [] x h e = elim h [ ]
  length-filter-lt test (y ∷ ys) x (head same) e =
      let fails : test y ≡ false = sym (ap test same) ∙ e in
      rw fails (omega (arith, length-filter-le test ys))
  length-filter-lt test (y ∷ ys) x (tail h) e = ground (arith, length-filter-lt test ys x h e)

  pub length-filter_all :
      (test : A → Bool) (xs : List A)
      → ((x : A) → Member x xs → test x ≡ true)
      → length (filter test xs) ≡ length xs
  length-filter_all test [] h = refl
  length-filter_all test (y ∷ ys) h =
      let ih = length-filter_all test ys (λ x m. h x (tail m)) in rw (h y (head refl)) (ap suc ih)

  pub length-filter-map :
      (test : A → Bool) (f : A → A) (xs : List A)
      → ((x : A) → test (f x) ≡ test x)
      → length (filter test (map f xs)) ≡ length (filter test xs)
  length-filter-map test f [] same = refl
  length-filter-map test f (y ∷ ys) same =
      let ih = length-filter-map test f ys same in
      elim (Bool-cases (test y)) [ inl e ↦ rw (same y, e) (ap suc ih) | inr e ↦ rw (same y, e) ih ]

  module _ (goes_first : A → A → Bool) where
    insert-member :
        (y : A) (xs : List A) (x : A) → Member x (insert goes_first y xs) → (x ≡ y) ⊎ Member x xs
    unfolding insert
    insert-member y [] x h = cases_cons h
    insert-member y (z ∷ zs) x h = elim (Bool-cases (goes_first y z)) [
      | inl e ↦ cases_cons (rw e at h)
      | inr e ↦ elim (cases_cons (rw e at h)) [
        | inl same ↦ inr (head same)
        | inr m ↦ elim (insert-member y zs x m) [ inl s ↦ inl s | inr m' ↦ inr (tail m') ]
      ]
    ]

    pub sort-member : (xs : List A) (x : A) → Member x (sort goes_first xs) → Member x xs
    unfolding sort
    sort-member [] x h = h
    sort-member (y ∷ ys) x h = elim (insert-member y (sort goes_first ys) x h) [
      | inl same ↦ head same
      | inr m ↦ tail (sort-member ys x m)
    ]

    member-insert :
        (y : A) (xs : List A) (x : A) → (x ≡ y) ⊎ Member x xs → Member x (insert goes_first y xs)
    unfolding insert
    member-insert y [] x (inl e) = head e
    member-insert y [] x (inr m) = tail m
    member-insert y (z ∷ zs) x h = elim (Bool-cases (goes_first y z)) [
      | inl e ↦ rw e (elim h [ inl s ↦ head s | inr m ↦ tail m ])
      | inr e ↦ rw e (elim h [
        | inl same ↦ tail (member-insert y zs x (inl same))
        | inr (head s) ↦ head s
        | inr (tail m) ↦ tail (member-insert y zs x (inr m))
      ])
    ]

    pub member-sort : (xs : List A) (x : A) → Member x xs → Member x (sort goes_first xs)
    unfolding sort
    member-sort [] x h = h
    member-sort (y ∷ ys) x (head same) = member-insert y (sort goes_first ys) x (inl same)
    member-sort (y ∷ ys) x (tail m) =
        member-insert y (sort goes_first ys) x (inr (member-sort ys x m))

-- A list in the order of a measure, weakly. Sorting gives it, if the comparison respects the measure.
module _ {ℓ} {A : Type ℓ} (measure : A → ℤ) where
  unfoldable pub IsAscending : List A → Type 0
  IsAscending [] = Unit
  IsAscending (x ∷ xs) = All (λ y. measure x ≤ℤ measure y) xs × IsAscending xs

  module _ (goes_first : A → A → Bool)
      (first_le : (x y : A) → goes_first x y ≡ true → measure x ≤ℤ measure y)
      (last_ge : (x y : A) → goes_first x y ≡ false → measure y ≤ℤ measure x) where
    All-insert :
        (n : ℤ) (x : A) (xs : List A)
        → n ≤ℤ measure x
        → All (λ y. n ≤ℤ measure y) xs
        → All (λ y. n ≤ℤ measure y) (insert goes_first x xs)
    unfolding insert
    All-insert n x [] h hs = (h, tt)
    All-insert n x (y ∷ ys) h (k, ks) = elim (Bool-cases (goes_first x y)) [
      | inl e ↦ rw e (h, (k, ks))
      | inr e ↦ rw e (k, All-insert n x ys h ks)
    ]

    All-le :
        (m n : ℤ) (xs : List A)
        → m ≤ℤ n
        → All (λ y. n ≤ℤ measure y) xs
        → All (λ y. m ≤ℤ measure y) xs
    All-le m n [] h hs = tt
    All-le m n (x ∷ xs) h (k, ks) = (omega arith, All-le m n xs h ks)

    insert-IsAscending :
        (x : A) (xs : List A) → IsAscending xs → IsAscending (insert goes_first x xs)
    unfolding IsAscending insert
    insert-IsAscending x [] a = (tt, tt)
    insert-IsAscending x (y ∷ ys) (h, a) = elim (Bool-cases (goes_first x y)) [
      | inl e ↦
          let le = first_le x y e in rw e ((le, All-le (measure x) (measure y) ys le h), (h, a))
      | inr e ↦ rw e (All-insert (measure y) x ys (last_ge x y e) h, insert-IsAscending x ys a)
    ]

    pub sort-IsAscending : (xs : List A) → IsAscending (sort goes_first xs)
    unfolding IsAscending sort
    sort-IsAscending [] = tt
    sort-IsAscending (x ∷ xs) = insert-IsAscending x (sort goes_first xs) (sort-IsAscending xs)
