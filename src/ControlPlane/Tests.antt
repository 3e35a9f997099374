-- ===== src/ControlPlane/Tests.antt =====
-- Tests of packages/control-plane/src/schemas.mjs.
use matrix_flare.Prelude.{String, some, trim, ◌≡◌, refl, ok, throws, type_error, range_error}
use matrix_flare.Json.{Json, str, obj, field, end, get, normalize_string, normalize_text}
use matrix_flare.ControlPlane.Scopes.{
  normalize_enum, normalize_optional, normalize_target_scope, scope_to_token, parse_scope_token,
  at_colon,
}
use matrix_flare.ControlPlane.Tokens.{parse_scope_token-scope_to_token}

abbrev room_scope : Json
room_scope = obj (field "scope_kind" (str "room_id") (field "scope_id" (str " !r:a.org ") end))

abbrev room_token : String
room_token = "room_id:!r:a.org"

room_scope_token : scope_to_token room_scope ≡ ok room_token
unfolding scope_to_token normalize_target_scope normalize_enum normalize_optional normalize_string
    normalize_text trim get
room_scope_token = refl

token_without_colon : parse_scope_token (some (str "room_id")) ≡ throws type_error
unfolding parse_scope_token at_colon normalize_string normalize_text trim
token_without_colon = refl

token_of_unknown_kind : parse_scope_token (some (str "other:x")) ≡ throws range_error
unfolding parse_scope_token at_colon normalize_target_scope normalize_enum normalize_optional
    normalize_string normalize_text trim get
token_of_unknown_kind = refl

parse_scope_token-scope_to_token_example :
    parse_scope_token (some (str room_token)) ≡ normalize_target_scope room_scope
parse_scope_token-scope_to_token_example =
    parse_scope_token-scope_to_token room_scope room_token room_scope_token
