-- ===== src/ControlPlane/Tokens.antt =====
-- The token of a scope is read as the scope.
use Prim.Native.String.{◌++◌ as append}
use Prim.Native.Char.{Char, code}
use text.Mathlib.TextLemmas.{cons-append, nil-append}
use matrix_flare.Prelude.{
  String, Bool, true, false, not, ◌&&◌, Option, none, some, List, str_eq, includes, is_some,
  is_empty, is_space, trim, trim_start, trim_end, ◌==◌, or_else, ◌≡◌, refl, sym, ap, ◌∙◌, subst,
  inl, inr, ◌⊎◌, arith, eq_iff, Bool-cases, ok, ◌>>=◌, ◌>>◌, throw_if, range_error, >>=-eq-ok,
  >>-eq-ok, throw_if-eq-ok, ok_inj,
}
use matrix_flare.Json.{
  Json, null, bool, int, frac, str, arr, obj, get, normalize_string, normalize_text,
}
use matrix_flare.ControlPlane.Scopes.{
  target_scope_kinds, normalize_enum, normalize_optional, normalize_target_scope, token_of,
  scope_to_token, at_colon, scope_json, parse_parts, parse_scope_token,
}
use matrix_flare.ControlPlane.Trims.{trim_end-trim, is_empty-append, trim_end-append, trim_again}

no_colon : String → Bool
no_colon String.[] = true
no_colon (String.◌∷◌ c s) = not (code c == b':') && no_colon s

at_colon-append :
    (k id : String) → no_colon k ≡ true → at_colon (append k (String.◌∷◌ ":" id)) ≡ some (k, id)
unfolding at_colon no_colon
at_colon-append String.[] id h = ap at_colon (nil-append (String.◌∷◌ ":" id)) ∙ refl
at_colon-append (String.◌∷◌ c k) id h =
    let other : (code c == b':') ≡ false = ground arith in
    let rest : no_colon k ≡ true = ground arith in
    ap at_colon (cons-append c k (String.◌∷◌ ":" id)) ∙ rw (other, at_colon-append k id rest) refl

-- What the kinds that are not global have in common.
record IsNamedKind (kind : String) : Type 0 where
  head : Char
  rest : String
  shape : kind ≡ String.◌∷◌ head rest
  solid : is_space (code head) ≡ false
  plain : no_colon kind ≡ true
  listed : normalize_enum (some (str kind)) target_scope_kinds ≡ ok kind
  not_global : str_eq kind "global" ≡ false

append_colon : (id : String) → append ":" id ≡ String.◌∷◌ ":" id
append_colon id = cons-append ":" "" id ∙ ap (String.◌∷◌ ":") (nil-append id)

trim_token :
    (kind id : String)
    → IsNamedKind kind
    → trim_end id ≡ id
    → is_empty id ≡ false
    → trim (append kind (append ":" id)) ≡ append kind (append ":" id)
unfolding trim
trim_token kind id k h ne =
    let ended : trim_end (append ":" id) ≡ append ":" id = trim_end-append ":" id h ne in
    let token = trim_end-append kind (append ":" id) ended (is_empty-append ":" id ne) in
    let open_shape : append kind (append ":" id)
        ≡ String.◌∷◌ k.head (append k.rest (append ":" id)) =
      ap (λ t. append t (append ":" id)) k.shape ∙ cons-append k.head k.rest (append ":" id) in
    ap trim_start token ∙ ap trim_start open_shape ∙ rw (k.solid) (sym open_shape)

normalize_string_trimmed :
    (t : String) → trim t ≡ t → is_empty t ≡ false → normalize_string (some (str t)) ≡ ok t
unfolding normalize_string normalize_text
normalize_string_trimmed t h ne =
    let solid : is_empty (trim t) ≡ false = ap is_empty h ∙ ne in rw solid (ap ok h)

normalize_target_scope_named :
    (kind id : String)
    → IsNamedKind kind
    → trim id ≡ id
    → is_empty id ≡ false
    → normalize_target_scope (scope_json kind id)
      ≡ ok record { scope_kind = kind; scope_id = some id }
unfolding normalize_target_scope normalize_optional get
normalize_target_scope_named kind id k trimmed ne =
    let given = normalize_string_trimmed id trimmed ne in simp (k.not_global, k.listed, given)

parse_scope_token_named :
    (kind id : String)
    → IsNamedKind kind
    → trim id ≡ id
    → is_empty id ≡ false
    → parse_scope_token (some (str (append kind (append ":" id))))
      ≡ ok record { scope_kind = kind; scope_id = some id }
unfolding parse_scope_token
parse_scope_token_named kind id k trimmed ne =
    let ended : trim_end id ≡ id = ap trim_end (sym trimmed) ∙ trim_end-trim id ∙ trimmed in
    let whole = trim_token kind id k ended ne in
    let token_ne : is_empty (append kind (append ":" id)) ≡ false =
      is_empty-append kind (append ":" id) (is_empty-append ":" id ne) in
    let parts : at_colon (append kind (append ":" id)) ≡ some (kind, id) =
      ap (λ t. at_colon (append kind t)) (append_colon id) ∙ at_colon-append kind id k.plain in
    ap (λ m. m >>= (λ normalized. parse_parts (at_colon normalized)))
      (normalize_string_trimmed (append kind (append ":" id)) whole token_ne)
    ∙ ap parse_parts parts
    ∙ normalize_target_scope_named kind id k trimmed ne

-- What a scope in order holds: an id that has been trimmed and is not empty, unless it is global.
normalize_optional_trimmed :
    (value : Option Json) (id : String)
    → normalize_optional value ≡ ok (some id)
    → (trim id ≡ id) × (is_empty id ≡ false)
unfolding normalize_optional normalize_string normalize_text
normalize_optional_trimmed none id h = cc
normalize_optional_trimmed (some null) id h = cc
normalize_optional_trimmed (some (bool b)) id h = cc
normalize_optional_trimmed (some (int n)) id h = cc
normalize_optional_trimmed (some (frac t)) id h = cc
normalize_optional_trimmed (some (arr xs)) id h = cc
normalize_optional_trimmed (some (obj fs)) id h = cc
normalize_optional_trimmed (some (str t)) id h = elim (Bool-cases (is_empty (trim t))) [
  | inl e ↦ let bad = rw (normalize_optional, normalize_string, normalize_text, e) at h in cc
  | inr f ↦
      let out = rw (normalize_optional, normalize_string, normalize_text, f) at h in
      let same' : ◌≡◌ {A = Option String} (some (trim t)) (some id) = ok_inj out in
      let same : trim t ≡ id = cc in
      subst (λ z. (trim z ≡ z) × (is_empty z ≡ false)) same (trim_again t, f)
]

named_kind :
    (kind : String) (c : Char) (rest : String)
    → kind ≡ String.◌∷◌ c rest
    → is_space (code c) ≡ false
    → no_colon kind ≡ true
    → normalize_enum (some (str kind)) target_scope_kinds ≡ ok kind
    → str_eq kind "global" ≡ false
    → IsNamedKind kind
named_kind kind c rest shape solid plain listed other = record {
  head = c;
  rest = rest;
  shape = shape;
  solid = solid;
  plain = plain;
  listed = listed;
  not_global = other;
}

kind_cases : (k : String) → includes target_scope_kinds k ≡ true → (k ≡ "global") ⊎ IsNamedKind k
unfolding no_colon normalize_enum normalize_string normalize_text trim
kind_cases k h = elim (Bool-cases (str_eq "global" k)) [
  | inl t ↦ inl (sym ((eq_iff "global" k).0 t))
  | inr f0 ↦ elim (Bool-cases (str_eq "room_id" k)) [
    | inl t ↦ inr (
        subst IsNamedKind ((eq_iff "room_id" k).0 t)
          (named_kind "room_id" "r" "oom_id" refl refl refl refl refl))
    | inr f1 ↦ elim (Bool-cases (str_eq "user_id" k)) [
      | inl t ↦ inr (
          subst IsNamedKind ((eq_iff "user_id" k).0 t)
            (named_kind "user_id" "u" "ser_id" refl refl refl refl refl))
      | inr f2 ↦ elim (Bool-cases (str_eq "server_name" k)) [
        | inl t ↦ inr (
            subst IsNamedKind ((eq_iff "server_name" k).0 t)
              (named_kind "server_name" "s" "erver_name" refl refl refl refl refl))
        | inr f3 ↦ elim (Bool-cases (str_eq "appservice_id" k)) [
          | inl t ↦ inr (
              subst IsNamedKind ((eq_iff "appservice_id" k).0 t)
                (named_kind "appservice_id" "a" "ppservice_id" refl refl refl refl refl))
          | inr f4 ↦ absurd (ground (arith, h, f0, f1, f2, f3, f4))
        ]
      ]
    ]
  ]
]

normalize_enum_listed :
    (value : Option Json) (allowed : List String) (k : String)
    → normalize_enum value allowed ≡ ok k
    → includes allowed k ≡ true
unfolding normalize_enum
normalize_enum_listed value allowed k h =
    let (n, _, h1) = >>=-eq-ok (normalize_string value) _ h in
    let (passed, out) = >>-eq-ok (throw_if (not (includes allowed n)) range_error) _ h1 in
    let there = throw_if-eq-ok (not (includes allowed n)) range_error passed in
    let same : n ≡ k = ok_inj out in
    subst (λ z. includes allowed z ≡ true) same (ground (arith, there))

-- A scope in order, by whether it is global.
scope_cases :
    (kind : String) (id : Option String) (value : Option Json)
    → (k : (kind ≡ "global") ⊎ IsNamedKind kind) → normalize_optional value ≡ ok id
    → (str_eq kind "global" && is_some id) ≡ false
    → (not (str_eq kind "global") && not (is_some id)) ≡ false
    → parse_scope_token (some (str (append kind (append ":" (or_else id "global")))))
      ≡ ok record { scope_kind = kind; scope_id = id }
unfolding parse_scope_token normalize_target_scope normalize_optional normalize_enum
    normalize_string normalize_text trim at_colon get
scope_cases kind (some i) value (inr named) e f g =
    let (trimmed, ne) = normalize_optional_trimmed value i e in
    parse_scope_token_named kind i named trimmed ne
scope_cases kind none value (inr named) e f g =
    absurd (let bad : true ≡ false = rw named.not_global at g in cc)
scope_cases kind (some i) value (inl global) e f g =
    absurd (let bad : true ≡ false = rw global at f in cc)
scope_cases kind none value (inl global) e f g =
    subst
      (λ k.
        parse_scope_token (some (str (append k (append ":" "global"))))
        ≡ ok record { scope_kind = k; scope_id = none })
      (sym global) refl

-- The token of a scope is read as the scope, as it has been normalized: whatever `scopeToToken`
-- makes of a value, `parseScopeToken` reads as what `normalizeTargetScope` makes of that value.
pub parse_scope_token-scope_to_token :
    (scope : Json) (token : String)
    → scope_to_token scope ≡ ok token
    → parse_scope_token (some (str token)) ≡ normalize_target_scope scope
unfolding scope_to_token normalize_target_scope
parse_scope_token-scope_to_token (obj value) token h =
    let (s, known, out) = >>=-eq-ok (normalize_target_scope (obj value)) _ h in
    let (kind, e1, h1) =
      >>=-eq-ok (normalize_enum (get "scope_kind" value) target_scope_kinds) _ known in
    let (id, e2, h2) = >>=-eq-ok (normalize_optional (get "scope_id" value)) _ h1 in
    let one = throw_if (str_eq kind "global" && is_some id) range_error in
    let two = throw_if (not (str_eq kind "global") && not (is_some id)) range_error in
    let (pq, h4) = >>-eq-ok (one >> two) _ h2 in
    let (p, q) = >>-eq-ok one two pq in
    let read =
      scope_cases kind id (get "scope_id" value)
        (kind_cases kind
          (normalize_enum_listed (get "scope_kind" value) target_scope_kinds kind e1))
        e2 (throw_if-eq-ok (str_eq kind "global" && is_some id) range_error p)
        (throw_if-eq-ok (not (str_eq kind "global") && not (is_some id)) range_error q) in
    let named : token_of record { scope_kind = kind; scope_id = id } ≡ token =
      ap token_of (ok_inj h4) ∙ ok_inj out in
    ap (λ t. parse_scope_token (some (str t))) (sym named) ∙ read ∙ h4 ∙ sym known
parse_scope_token-scope_to_token null token h = cc
parse_scope_token-scope_to_token (bool b) token h = cc
parse_scope_token-scope_to_token (int n) token h = cc
parse_scope_token-scope_to_token (frac t) token h = cc
parse_scope_token-scope_to_token (str t) token h = cc
parse_scope_token-scope_to_token (arr xs) token h = cc
