-- ===== src/ControlPlane/Grants.antt =====
-- What a request that was authorized rests on.
use matrix_flare.Prelude.{
  String, ◌||◌, Option, none, some, List, [], ◌∷◌, str_eq, trim, is_empty, All, ◌≡◌, refl, sym,
  subst, inl, inr, ◌⊎◌, eq_iff, Bool-cases, ok, >>=-eq-ok, ok_inj,
}
use matrix_flare.Json.{
  Json, null, bool, int, frac, str, arr, obj, Items, nil, cons, Fields, field, end, get, is_true,
  normalize_string, normalize_text,
}
use matrix_flare.ControlPlane.Constraints.{
  texts_of, Values, Constraints, set_values, scope_kinds_in, value_lists, values_in, read_list,
  read_entry, read_entries, constraints_of,
}

pub data HasField (k : String) (v : Json) : Fields → Type 0 where
  first : (rest : Fields) → HasField k v (field k v rest)
  later :
      {j : String} {w : Json} {rest : Fields} → HasField k v rest → HasField k v (field j w rest)

pub data HasItem (v : Json) : Items → Type 0 where
  first : (rest : Items) → HasItem v (cons v rest)
  later : {w : Json} {rest : Items} → HasItem v rest → HasItem v (cons w rest)

-- A list names an id by a text that is the id but for white space around it.
abbrev pub Names : Items → String → Type 0
Names xs id = (text : String) × HasItem (str text) xs × (trim text ≡ id)

-- The constraints name an id of a kind: in the list under the kind, or in that of `allowed_values`.
abbrev pub IsGranted : Fields → String → String → Type 0
IsGranted raw kind id =
    (xs : Items) × ((HasField kind (arr xs) raw)
      ⊎ ((values : Fields) × HasField "allowed_values" (obj values) raw
          × HasField kind (arr xs) values))
    × Names xs id

normalize_string-text :
    (v : Json) (t : String)
    → normalize_string (some v) ≡ ok t
    → (text : String) × (v ≡ str text) × (trim text ≡ t)
unfolding normalize_string normalize_text
normalize_string-text (str s) t h = elim (Bool-cases (is_empty (trim s))) [
  | inl e ↦ let bad = rw (normalize_string, normalize_text, e) at h in cc
  | inr e ↦ (s, refl, ok_inj (rw (normalize_string, normalize_text, e) at h))
]
normalize_string-text null t h = cc
normalize_string-text (bool b) t h = cc
normalize_string-text (int n) t h = cc
normalize_string-text (frac n) t h = cc
normalize_string-text (arr xs) t h = cc
normalize_string-text (obj fs) t h = cc

pub texts_of-Names :
    (xs : Items) (texts : List String) → texts_of xs ≡ ok texts → All (λ id. Names xs id) texts
unfolding texts_of
texts_of-Names nil texts h =
    let same : [] ≡ texts = ok_inj h in subst (All (λ id. Names nil id)) same tt
texts_of-Names (cons x xs) texts h =
    let (t, e1, h1) = >>=-eq-ok (normalize_string (some x)) _ h in
    let (ts, e2, h2) = >>=-eq-ok (texts_of xs) _ h1 in
    let (text, shape, trimmed) = normalize_string-text x t e1 in
    subst (All (λ id. Names (cons x xs) id)) (ok_inj h2) (
      (text, subst (λ v. HasItem (str text) (cons v xs)) (sym shape) (HasItem.first xs), trimmed),
      weaken ts (texts_of-Names xs ts e2),
    )
  where
    weaken : (ts : List String) → All (λ id. Names xs id) ts → All (λ id. Names (cons x xs) id) ts
    weaken [] a = tt
    weaken (t ∷ ts) ((text, there, e), rest) = ((text, HasItem.later there, e), weaken ts rest)

-- Every id of the values is granted.
abbrev pub AreGranted : Fields → Values → Type 0
AreGranted raw values = All (λ entry. All (λ id. IsGranted raw entry.0 id) (entry.1)) values

granted :
    (raw : Fields) (k : String) (xs : Items) (ts : List String)
    → (HasField k (arr xs) raw)
      ⊎ ((values : Fields) × HasField "allowed_values" (obj values) raw
          × HasField k (arr xs) values)
    → All (λ id. Names xs id) ts
    → All (λ id. IsGranted raw k id) ts
granted raw k xs [] where_from a = tt
granted raw k xs (t ∷ ts) where_from (n, rest) =
    ((xs, where_from, n), granted raw k xs ts where_from rest)

set_values-AreGranted :
    (raw : Fields) (k : String) (ts : List String) (values : Values)
    → All (λ id. IsGranted raw k id) ts
    → AreGranted raw values
    → AreGranted raw (set_values k ts values)
unfolding set_values
set_values-AreGranted raw k ts [] new old = (new, tt)
set_values-AreGranted raw k ts ((j, texts) ∷ rest) new (one, old) = elim (Bool-cases (str_eq j k)) [
  | inl e ↦
      let same : k ≡ j = sym ((eq_iff j k).0 e) in
      rw e (subst (λ i. All (λ id. IsGranted raw i id) ts) same new, old)
  | inr e ↦ rw e (one, set_values-AreGranted raw k ts rest new old)
]

value_lists-AreGranted :
    (raw values rest : Fields) (out : Values)
    → HasField "allowed_values" (obj values) raw
    → ((k : String) (xs : Items) → HasField k (arr xs) rest → HasField k (arr xs) values)
    → value_lists rest ≡ ok out
    → AreGranted raw out
unfolding value_lists
value_lists-AreGranted raw values end out there inside h =
    let same : [] ≡ out = ok_inj h in subst (AreGranted raw) same tt
value_lists-AreGranted raw values (field k (arr xs) rest) out there inside h =
    let (ts, e1, h1) = >>=-eq-ok (texts_of xs) _ h in
    let (others, e2, h2) = >>=-eq-ok (value_lists rest) _ h1 in
    subst (AreGranted raw) (ok_inj h2) (
      granted raw k xs ts (inr (values, there, inside k xs (HasField.first rest)))
          (texts_of-Names xs ts e1),
      value_lists-AreGranted raw values rest others there (λ j ys f. inside j ys (HasField.later f))
          e2,
    )
value_lists-AreGranted raw values (field k null rest) out there inside h = cc
value_lists-AreGranted raw values (field k (bool b) rest) out there inside h = cc
value_lists-AreGranted raw values (field k (int n) rest) out there inside h = cc
value_lists-AreGranted raw values (field k (frac n) rest) out there inside h = cc
value_lists-AreGranted raw values (field k (str s) rest) out there inside h = cc
value_lists-AreGranted raw values (field k (obj fs) rest) out there inside h = cc

get-HasField :
    (k : String) (fields : Fields) (v : Json) → get k fields ≡ some v → HasField k v fields
unfolding get
get-HasField k end v h = cc
get-HasField k (field j w rest) v h = elim (Bool-cases (str_eq j k)) [
  | inl e ↦
      let same : j ≡ k = (eq_iff j k).0 e in
      let found : some w ≡ some v = rw (get, e) at h in
      let value : w ≡ v = cc in
      subst (λ i. HasField k v (field i w rest)) (sym same)
        (subst (λ x. HasField k v (field k x rest)) (sym value) (HasField.first rest))
  | inr e ↦ HasField.later (get-HasField k rest v (rw (get, e) at h))
]

values_in-AreGranted :
    (raw : Fields) (found : Option Json) (out : Values)
    → get "allowed_values" raw ≡ found
    → values_in found ≡ ok out
    → AreGranted raw out
values_in-AreGranted raw (some (obj fields)) out there h =
    value_lists-AreGranted raw fields fields out
      (get-HasField "allowed_values" raw (obj fields) there) (λ k xs f. f) h
values_in-AreGranted raw none out there h = subst (AreGranted raw) (ok_inj h) tt
values_in-AreGranted raw (some null) out there h = subst (AreGranted raw) (ok_inj h) tt
values_in-AreGranted raw (some (bool b)) out there h = subst (AreGranted raw) (ok_inj h) tt
values_in-AreGranted raw (some (int n)) out there h = subst (AreGranted raw) (ok_inj h) tt
values_in-AreGranted raw (some (frac n)) out there h = subst (AreGranted raw) (ok_inj h) tt
values_in-AreGranted raw (some (str s)) out there h = subst (AreGranted raw) (ok_inj h) tt
values_in-AreGranted raw (some (arr xs)) out there h = subst (AreGranted raw) (ok_inj h) tt

read_list-AreGranted :
    (raw : Fields) (k : String) (v : Json) (c next : Constraints)
    → HasField k v raw
    → AreGranted raw c.allowed_values
    → read_list k v c ≡ ok next
    → AreGranted raw next.allowed_values
read_list-AreGranted raw k (arr xs) c next there old h =
    let (ts, e1, h1) = >>=-eq-ok (texts_of xs) _ h in
    subst (λ (x : Constraints). AreGranted raw x.allowed_values) (ok_inj h1)
      (set_values-AreGranted raw k ts c.allowed_values
        (granted raw k xs ts (inl there) (texts_of-Names xs ts e1)) old)
read_list-AreGranted raw k null c next there old h = cc
read_list-AreGranted raw k (bool b) c next there old h = cc
read_list-AreGranted raw k (int n) c next there old h = cc
read_list-AreGranted raw k (frac n) c next there old h = cc
read_list-AreGranted raw k (str s) c next there old h = cc
read_list-AreGranted raw k (obj fs) c next there old h = cc

read_entry-AreGranted :
    (raw : Fields) (k : String) (v : Json) (c next : Constraints)
    → HasField k v raw
    → AreGranted raw c.allowed_values
    → read_entry k v c ≡ ok next
    → AreGranted raw next.allowed_values
unfolding read_entry
read_entry-AreGranted raw k v c next there old h =
    elim (Bool-cases (str_eq k "allowed_scope_kinds" || str_eq k "allowed_values")) [
      | inl e ↦
          subst (λ (x : Constraints). AreGranted raw x.allowed_values)
            (ok_inj (rw (read_entry, e) at h)) old
      | inr e ↦ elim (Bool-cases (str_eq k "global")) [
        | inl g ↦ elim (Bool-cases (is_true (some v))) [
          | inl t ↦
              subst (λ (x : Constraints). AreGranted raw x.allowed_values)
                (ok_inj (rw (read_entry, e, g, t) at h)) old
          | inr f ↦
              subst (λ (x : Constraints). AreGranted raw x.allowed_values)
                (ok_inj (rw (read_entry, e, g, f) at h)) old
        ]
        | inr g ↦ read_list-AreGranted raw k v c next there old (rw (read_entry, e, g) at h)
      ]
    ]

read_entries-AreGranted :
    (raw rest : Fields) (c out : Constraints)
    → ((k : String) (v : Json) → HasField k v rest → HasField k v raw)
    → AreGranted raw c.allowed_values
    → read_entries rest c ≡ ok out
    → AreGranted raw out.allowed_values
unfolding read_entries
read_entries-AreGranted raw end c out inside old h =
    subst (λ (x : Constraints). AreGranted raw x.allowed_values) (ok_inj h) old
read_entries-AreGranted raw (field k v rest) c out inside old h =
    let (next, e1, h1) = >>=-eq-ok (read_entry k v c) _ h in
    read_entries-AreGranted raw rest next out (λ j w f. inside j w (HasField.later f))
      (read_entry-AreGranted raw k v c next (inside k v (HasField.first rest)) old e1) h1

pub constraints_of-AreGranted :
    (raw : Fields) (c : Constraints) → constraints_of raw ≡ ok c → AreGranted raw c.allowed_values
constraints_of-AreGranted raw c h =
    let (kinds, e1, h1) = >>=-eq-ok (scope_kinds_in (get "allowed_scope_kinds" raw)) _ h in
    let (values, e2, h2) = >>=-eq-ok (values_in (get "allowed_values" raw)) _ h1 in
    read_entries-AreGranted raw raw _ c (λ k v f. f)
      (values_in-AreGranted raw (get "allowed_values" raw) values refl e2) h2
