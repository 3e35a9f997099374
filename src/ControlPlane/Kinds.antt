-- ===== src/ControlPlane/Kinds.antt =====
-- Which kinds of scope the constraints of an operator's policy let it name.
use matrix_flare.Prelude.{
  String, true, false, ◌||◌, Option, none, some, List, [], ◌∷◌, ◌++◌, str_eq, includes, All, ◌≡◌,
  refl, subst, inl, inr, ◌⊎◌, eq_iff, Bool-cases, ok, >>=-eq-ok, ok_inj,
}
use matrix_flare.Json.{
  Json, null, bool, int, frac, str, arr, obj, Items, Fields, field, end, get, is_true,
}
use matrix_flare.ControlPlane.Constraints.{
  texts_of, Constraints, scope_kinds_in, values_in, add_kind, read_list, read_entry, read_entries,
  constraints_of,
}
use matrix_flare.ControlPlane.Grants.{HasField, Names, texts_of-Names}

-- The constraints name a kind: in the list `allowed_scope_kinds`, as the flag `global`, or by a list of
-- their own under the kind.
abbrev pub IsAllowedKind : Fields → String → Type 0
IsAllowedKind raw kind =
    ((xs : Items) × (get "allowed_scope_kinds" raw ≡ some (arr xs)) × Names xs kind)
    ⊎ ((kind ≡ "global") × HasField "global" (bool true) raw)
    ⊎ ((xs : Items) × HasField kind (arr xs) raw)

abbrev AreAllowedKinds : Fields → List String → Type 0
AreAllowedKinds raw kinds = All (λ k. IsAllowedKind raw k) kinds

listed-AreAllowedKinds :
    (raw : Fields) (xs : Items) (kinds : List String)
    → get "allowed_scope_kinds" raw ≡ some (arr xs)
    → All (λ k. Names xs k) kinds
    → AreAllowedKinds raw kinds
listed-AreAllowedKinds raw xs [] there h = tt
listed-AreAllowedKinds raw xs (k ∷ kinds) there (h, hs) =
    (inl (xs, there, h), listed-AreAllowedKinds raw xs kinds there hs)

append-AreAllowedKinds :
    (raw : Fields) (k : String) (kinds : List String)
    → IsAllowedKind raw k
    → AreAllowedKinds raw kinds
    → AreAllowedKinds raw (kinds ++ k ∷ [])
append-AreAllowedKinds raw k [] new old = (new, tt)
append-AreAllowedKinds raw k (j ∷ kinds) new (one, old) =
    (one, append-AreAllowedKinds raw k kinds new old)

add_kind-AreAllowedKinds :
    (raw : Fields) (k : String) (kinds : List String)
    → IsAllowedKind raw k
    → AreAllowedKinds raw kinds
    → AreAllowedKinds raw (add_kind k kinds)
add_kind-AreAllowedKinds raw k kinds new old = elim (Bool-cases (includes kinds k)) [
  | inl e ↦ rw e old
  | inr e ↦ rw e (append-AreAllowedKinds raw k kinds new old)
]

scope_kinds_in-AreAllowedKinds :
    (raw : Fields) (given : Option Json) (kinds : List String)
    → get "allowed_scope_kinds" raw ≡ given
    → scope_kinds_in given ≡ ok kinds
    → AreAllowedKinds raw kinds
scope_kinds_in-AreAllowedKinds raw (some (arr xs)) kinds there h =
    listed-AreAllowedKinds raw xs kinds there (texts_of-Names xs kinds h)
scope_kinds_in-AreAllowedKinds raw none kinds there h = subst (AreAllowedKinds raw) (ok_inj h) tt
scope_kinds_in-AreAllowedKinds raw (some null) kinds there h =
    subst (AreAllowedKinds raw) (ok_inj h) tt
scope_kinds_in-AreAllowedKinds raw (some (bool b)) kinds there h =
    subst (AreAllowedKinds raw) (ok_inj h) tt
scope_kinds_in-AreAllowedKinds raw (some (int n)) kinds there h =
    subst (AreAllowedKinds raw) (ok_inj h) tt
scope_kinds_in-AreAllowedKinds raw (some (frac n)) kinds there h =
    subst (AreAllowedKinds raw) (ok_inj h) tt
scope_kinds_in-AreAllowedKinds raw (some (str s)) kinds there h =
    subst (AreAllowedKinds raw) (ok_inj h) tt
scope_kinds_in-AreAllowedKinds raw (some (obj fs)) kinds there h =
    subst (AreAllowedKinds raw) (ok_inj h) tt

is_true-eq : (v : Json) → is_true (some v) ≡ true → v ≡ bool true
is_true-eq (bool true) h = refl
is_true-eq (bool false) h = cc
is_true-eq null h = cc
is_true-eq (int n) h = cc
is_true-eq (frac n) h = cc
is_true-eq (str s) h = cc
is_true-eq (arr xs) h = cc
is_true-eq (obj fs) h = cc

read_list-AreAllowedKinds :
    (raw : Fields) (k : String) (v : Json) (c next : Constraints)
    → HasField k v raw
    → AreAllowedKinds raw c.allowed_scope_kinds
    → read_list k v c ≡ ok next
    → AreAllowedKinds raw next.allowed_scope_kinds
read_list-AreAllowedKinds raw k (arr xs) c next there old h =
    let (ts, e1, h1) = >>=-eq-ok (texts_of xs) _ h in
    subst (λ (x : Constraints). AreAllowedKinds raw x.allowed_scope_kinds) (ok_inj h1)
      (add_kind-AreAllowedKinds raw k c.allowed_scope_kinds (inr (inr (xs, there))) old)
read_list-AreAllowedKinds raw k null c next there old h = cc
read_list-AreAllowedKinds raw k (bool b) c next there old h = cc
read_list-AreAllowedKinds raw k (int n) c next there old h = cc
read_list-AreAllowedKinds raw k (frac n) c next there old h = cc
read_list-AreAllowedKinds raw k (str s) c next there old h = cc
read_list-AreAllowedKinds raw k (obj fs) c next there old h = cc

read_entry-AreAllowedKinds :
    (raw : Fields) (k : String) (v : Json) (c next : Constraints)
    → HasField k v raw
    → AreAllowedKinds raw c.allowed_scope_kinds
    → read_entry k v c ≡ ok next
    → AreAllowedKinds raw next.allowed_scope_kinds
unfolding read_entry
read_entry-AreAllowedKinds raw k v c next there old h =
    elim (Bool-cases (str_eq k "allowed_scope_kinds" || str_eq k "allowed_values")) [
      | inl e ↦
          subst (λ (x : Constraints). AreAllowedKinds raw x.allowed_scope_kinds)
            (ok_inj (rw (read_entry, e) at h)) old
      | inr e ↦ elim (Bool-cases (str_eq k "global")) [
        | inl g ↦ elim (Bool-cases (is_true (some v))) [
          | inl t ↦
              let flag : HasField "global" (bool true) raw =
                subst (λ j. HasField j (bool true) raw) ((eq_iff k "global").0 g)
                  (subst (λ w. HasField k w raw) (is_true-eq v t) there) in
              subst (λ (x : Constraints). AreAllowedKinds raw x.allowed_scope_kinds)
                (ok_inj (rw (read_entry, e, g, t) at h))
                (add_kind-AreAllowedKinds raw "global" c.allowed_scope_kinds
                  (inr (inl (refl, flag))) old)
          | inr f ↦
              subst (λ (x : Constraints). AreAllowedKinds raw x.allowed_scope_kinds)
                (ok_inj (rw (read_entry, e, g, f) at h)) old
        ]
        | inr g ↦ read_list-AreAllowedKinds raw k v c next there old (rw (read_entry, e, g) at h)
      ]
    ]

read_entries-AreAllowedKinds :
    (raw rest : Fields) (c out : Constraints)
    → ((k : String) (v : Json) → HasField k v rest → HasField k v raw)
    → AreAllowedKinds raw c.allowed_scope_kinds
    → read_entries rest c ≡ ok out
    → AreAllowedKinds raw out.allowed_scope_kinds
unfolding read_entries
read_entries-AreAllowedKinds raw end c out inside old h =
    subst (λ (x : Constraints). AreAllowedKinds raw x.allowed_scope_kinds) (ok_inj h) old
read_entries-AreAllowedKinds raw (field k v rest) c out inside old h =
    let (next, e1, h1) = >>=-eq-ok (read_entry k v c) _ h in
    read_entries-AreAllowedKinds raw rest next out (λ j w f. inside j w (HasField.later f))
      (read_entry-AreAllowedKinds raw k v c next (inside k v (HasField.first rest)) old e1) h1

pub constraints_of-AreAllowedKinds :
    (raw : Fields) (c : Constraints)
    → constraints_of raw ≡ ok c
    → All (λ k. IsAllowedKind raw k) c.allowed_scope_kinds
constraints_of-AreAllowedKinds raw c h =
    let (kinds, e1, h1) = >>=-eq-ok (scope_kinds_in (get "allowed_scope_kinds" raw)) _ h in
    let (values, e2, h2) = >>=-eq-ok (values_in (get "allowed_values" raw)) _ h1 in
    read_entries-AreAllowedKinds raw raw _ c (λ k v f. f)
      (scope_kinds_in-AreAllowedKinds raw (get "allowed_scope_kinds" raw) kinds refl e1) h2
