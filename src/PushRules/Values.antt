-- ===== src/PushRules/Values.antt =====
-- Client-domain.mjs: the reads of an event that push rules make, and the comparison of JSON values.
use Prim.Native.String.{◌++◌ as append}
use matrix_flare.Prelude.{
  ℕ, zero, suc, ◌≤◌, String, Bool, true, false, ◌&&◌, Option, none, some, List, [], ◌∷◌, length,
  str_eq, if◌then◌else◌, is_empty, ◌==◌, ◌≡◌, refl, arith, inl, inr, Option-cases, is_some,
}
use matrix_flare.Prelude.Int.{ℤ, pos, negsuc}
use matrix_flare.Json.Print.{show_int}
use matrix_flare.Json.{
  Json, null, bool, int, frac, str, arr, obj, Items, nil, cons, Fields, end, field, get,
}
use matrix_flare.Session.Tokens.{split_dot}

-- The inner loop of `readNestedJsonValue`: of the names that the next segments can be joined to,
-- the longest that is a key, with the segments behind it.
unfoldable pub longest_key : String → List String → Fields → Option (Json × List String)
longest_key name [] fields = elim (get name fields) [ none ↦ none | some v ↦ some (v, []) ]
longest_key name (s ∷ ss) fields =
    let longer = longest_key (append name (append "." s)) ss fields in
    let short = get name fields in
    if is_some longer then longer else elim short [ none ↦ none | some v ↦ some (v, s ∷ ss) ]

-- The outer loop, on as much fuel as there are segments.
unfoldable pub read_segments : ℕ → Json → List String → Option Json
read_segments fuel current [] = some current
read_segments zero current (s ∷ ss) = none
read_segments (suc fuel) (obj fields) (s ∷ ss) = elim (longest_key s ss fields) [
  | none ↦ none
  | some (v, rest) ↦ read_segments fuel v rest
]
read_segments (suc fuel) current (s ∷ ss) = none

-- `readNestedJsonValue`
unfoldable pub read_nested_json_value : Json → Option Json → Option Json
read_nested_json_value value (some (str key)) =
    if is_empty key then none else read_segments (length (split_dot key)) value (split_dot key)
read_nested_json_value value _ = none

abbrev pub same_bool : Bool → Bool → Bool
same_bool true b = b
same_bool false true = false
same_bool false false = true

abbrev pub same_int : ℤ → ℤ → Bool
same_int (pos m) (pos n) = m == n
same_int (negsuc m) (negsuc n) = m == n
same_int _ _ = false

abbrev pub count_fields : Fields → ℕ
count_fields end = zero
count_fields (field k v fs) = suc (count_fields fs)

unfoldable mutual
  -- `jsonValueEquals` of two values that are there
  pub same_json : Json → Json → Bool
  same_json null null = true
  same_json (bool a) (bool b) = same_bool a b
  same_json (int a) (int b) = same_int a b
  same_json (frac a) (frac b) = str_eq a b
  same_json (str a) (str b) = str_eq a b
  same_json (arr xs) (arr ys) = same_items xs ys
  same_json (obj fs) (obj gs) = count_fields fs == count_fields gs && fields_agree fs gs
  same_json _ _ = false

  pub same_items : Items → Items → Bool
  same_items nil nil = true
  same_items (cons v vs) (cons w ws) = same_json v w && same_items vs ws
  same_items _ _ = false

  -- Whether every field on the left stands on the right.
  pub fields_agree : Fields → Fields → Bool
  fields_agree end gs = true
  fields_agree (field k v fs) gs =
      (elim (get k gs) [ none ↦ false | some w ↦ same_json v w ]) && fields_agree fs gs

-- `jsonValueEquals`
abbrev pub json_value_equals : Option Json → Option Json → Bool
json_value_equals none none = true
json_value_equals (some v) (some w) = same_json v w
json_value_equals _ _ = false

abbrev mutual
  -- `String(value ?? '')`
  pub text_of : Json → String
  text_of null = ""
  text_of (bool b) = if b then "true" else "false"
  text_of (int n) = show_int n
  text_of (frac s) = s
  text_of (str s) = s
  text_of (arr xs) = join_texts xs
  text_of (obj fs) = "[object Object]"

  pub join_texts : Items → String
  join_texts nil = ""
  join_texts (cons v nil) = text_of v
  join_texts (cons v (cons w ws)) = append (text_of v) (append "," (join_texts (cons w ws)))

longest_key-length :
    (name : String) (ss : List String) (fields : Fields) (v : Json) (rest : List String)
    → longest_key name ss fields ≡ some (v, rest)
    → length rest ≤ length ss
unfolding longest_key
longest_key-length name [] fields v rest h = ground arith
longest_key-length name (s ∷ ss) fields v rest h =
    elim (Option-cases (longest_key (append name (append "." s)) ss fields)) [
      | inl e ↦ let h' = rw e at h in ground arith
      | inr ((w, r), e) ↦
          let same : Path (Option (Json × List String)) (some (w, r)) (some (v, rest)) =
            rw e at h in
          ground (arith, longest_key-length (append name (append "." s)) ss fields w r e)
    ]

-- Each round of the outer loop uses up a segment, so that more fuel changes nothing.
pub read_segments-fuel :
    (fuel more : ℕ) (current : Json) (ss : List String)
    → length ss ≤ fuel
    → length ss ≤ more
    → read_segments fuel current ss ≡ read_segments more current ss
unfolding read_segments
read_segments-fuel fuel more current [] h k = refl
read_segments-fuel zero more current (s ∷ ss) h k = ground arith
read_segments-fuel (suc fuel) zero current (s ∷ ss) h k = ground arith
read_segments-fuel (suc fuel) (suc more) (obj fields) (s ∷ ss) h k =
    elim (Option-cases (longest_key s ss fields)) [
      | inl e ↦ rw (read_segments, e) refl
      | inr ((v, rest), e) ↦
          let used = longest_key-length s ss fields v rest e in
          rw (read_segments, e) (read_segments-fuel fuel more v rest (omega arith) (omega arith))
    ]
read_segments-fuel (suc fuel) (suc more) null (s ∷ ss) h k = refl
read_segments-fuel (suc fuel) (suc more) (bool b) (s ∷ ss) h k = refl
read_segments-fuel (suc fuel) (suc more) (int b) (s ∷ ss) h k = refl
read_segments-fuel (suc fuel) (suc more) (frac b) (s ∷ ss) h k = refl
read_segments-fuel (suc fuel) (suc more) (str b) (s ∷ ss) h k = refl
read_segments-fuel (suc fuel) (suc more) (arr b) (s ∷ ss) h k = refl
