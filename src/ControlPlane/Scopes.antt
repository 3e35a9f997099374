-- ===== src/ControlPlane/Scopes.antt =====
-- packages/control-plane/src/schemas.mjs: scopes and their tokens; its `normalizeString` is the one of Json.
use Prim.Native.String.{◌++◌ as append}
use Prim.Native.Char.{code}
use matrix_flare.Prelude.{
  String, not, ◌&&◌, Option, none, some, List, [], ◌∷◌, str_eq, if◌then◌else◌, includes, is_some,
  ◌==◌, or_else, Result, ok, throws, ◌>>=◌, ◌>>◌, throw_if, type_error, range_error,
}
use matrix_flare.Json.{Json, null, str, obj, field, end, get, normalize_string}

abbrev pub target_scope_kinds : List String
target_scope_kinds = "global" ∷ "room_id" ∷ "user_id" ∷ "server_name" ∷ "appservice_id" ∷ []

pub record Scope : Type 0 where
  pub scope_kind : String
  pub scope_id : Option String

unfoldable pub normalize_enum : Option Json → List String → Result String
normalize_enum value allowed = do
  normalized ← normalize_string value
  throw_if (not (includes allowed normalized)) range_error >> ok normalized

-- `value == null ? null : normalizeString(value)`
unfoldable pub normalize_optional : Option Json → Result (Option String)
normalize_optional none = ok none
normalize_optional (some null) = ok none
normalize_optional (some value) = normalize_string (some value) >>= (λ text. ok (some text))

unfoldable pub normalize_target_scope : Json → Result Scope
normalize_target_scope (obj value) = do
  kind ← normalize_enum (get "scope_kind" value) target_scope_kinds
  id ← normalize_optional (get "scope_id" value)
  throw_if (str_eq kind "global" && is_some id) range_error
      >> throw_if (not (str_eq kind "global") && not (is_some id)) range_error
      >> ok record { scope_kind = kind; scope_id = id }
normalize_target_scope value = throws type_error

abbrev pub token_of : Scope → String
token_of scope = append scope.scope_kind (append ":" (or_else scope.scope_id "global"))

unfoldable pub scope_to_token : Json → Result String
scope_to_token scope = do normalized ← normalize_target_scope scope; ok (token_of normalized)

-- The text before the first colon, and the text behind it.
unfoldable pub at_colon : String → Option (String × String)
at_colon String.[] = none
at_colon (String.◌∷◌ c s) =
    let rest = at_colon s in
    if code c == b':'
    then some ("", s)
    else elim rest [ none ↦ none | some (before, after) ↦ some (String.◌∷◌ c before, after) ]

-- The object that `parseScopeToken` hands to `normalizeTargetScope`.
abbrev pub scope_json : String → String → Json
scope_json kind id = obj (
    field "scope_kind" (str kind)
      (field "scope_id" (if str_eq kind "global" then null else str id) end))

abbrev pub parse_parts : Option (String × String) → Result Scope
parse_parts none = throws type_error
parse_parts (some (kind, id)) = normalize_target_scope (scope_json kind id)

unfoldable pub parse_scope_token : Option Json → Result Scope
parse_scope_token token =
    normalize_string token >>= (λ normalized. parse_parts (at_colon normalized))
