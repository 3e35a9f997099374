-- ===== src/AbuseGuard/Classify.antt =====
-- Abuse-guard.mjs: `classifyGatewayRequest`. A regular expression of the source is a chain of two
-- steps over the path: a fixed text is taken off its front, and a part `[^/]+` is skipped.
use Prim.Native.Char.{code}
use matrix_flare.Prelude.{
  String, Bool, false, ◌||◌, Option, none, some, List, [], ◌∷◌, str_eq, if◌then◌else◌, includes,
  is_some, ◌==◌,
}

pub record Classification : Type 0 where
  pub route_family : String
  pub gateway_policy_id : Option String

-- The rest of a text behind a prefix.
unfoldable pub strip_prefix : String → String → Option String
strip_prefix String.[] s = some s
strip_prefix (String.◌∷◌ c p) String.[] = none
strip_prefix (String.◌∷◌ c p) (String.◌∷◌ d s) =
    let rest = strip_prefix p s in if code c == code d then rest else none

abbrev until_slash : String → String
until_slash String.[] = String.[]
until_slash (String.◌∷◌ c s) =
    let rest = until_slash s in if code c == b'/' then String.◌∷◌ c s else rest

-- The rest of a text behind a part that is not empty and holds no slash.
unfoldable pub skip_part : String → Option String
skip_part String.[] = none
skip_part (String.◌∷◌ c s) = if code c == b'/' then none else some (until_slash s)

abbrev starts : String → String → Bool
starts path prefix = is_some (strip_prefix prefix path)

abbrev starts_with_any : List String → String → Bool
starts_with_any [] path = false
starts_with_any (p ∷ ps) path = starts path p || starts_with_any ps path

-- Whether a path is the prefix, one part and then what a test accepts.
abbrev part_then : String → (String → Bool) → String → Bool
part_then prefix test path = elim (strip_prefix prefix path) [
  | none ↦ false
  | some s ↦ elim (skip_part s) [ none ↦ false | some rest ↦ test rest ]
]

unfoldable pub is_public_entry : String → Bool
is_public_entry path =
    includes
      ("/.well-known/matrix/client" ∷ "/.well-known/matrix/server" ∷ "/_matrix/client/versions"
        ∷ "/_matrix/client/r0/register/available" ∷ "/_matrix/client/v1/register/available"
        ∷ "/_matrix/client/v3/register/available"
        ∷ "/_matrix/client/v1/register/m.login.registration_token/validity" ∷ [])
      path

unfoldable pub is_search : String → Bool
is_search path =
    includes
      ("/_matrix/client/v3/search" ∷ "/_matrix/client/v3/user_directory/search"
        ∷ "/_matrix/client/v3/publicRooms" ∷ [])
      path
    || part_then "/_matrix/client/v3/rooms/" (λ rest. str_eq rest "/hierarchy") path

unfoldable pub is_media : String → Bool
is_media path =
    str_eq path "/_matrix/client/v1/media/config"
    || starts_with_any
        ("/_matrix/client/v1/media/download/" ∷ "/_matrix/client/v1/media/thumbnail/" ∷ []) path
    || part_then "/_matrix/media/"
        (starts_with_any ("/config" ∷ "/create" ∷ "/upload" ∷ "/download" ∷ "/thumbnail" ∷ [])) path

unfoldable pub is_room_write : String → Bool
is_room_write path =
    str_eq path "/_matrix/client/v3/createRoom"
    || part_then "/_matrix/client/v3/join/" (λ rest. str_eq rest "") path
    || part_then "/_matrix/client/v3/knock/" (λ rest. str_eq rest "") path
    || part_then "/_matrix/client/v3/rooms/"
        (starts_with_any (
          "/send" ∷ "/state" ∷ "/redact" ∷ "/join" ∷ "/leave" ∷ "/invite" ∷ "/ban" ∷ "/unban"
          ∷ "/kick" ∷ "/typing" ∷ "/receipt" ∷ []))
        path
    || part_then "/_matrix/client/v3/rooms/" (λ rest. str_eq rest "/forget") path

abbrev class : String → Option String → Classification
class family policy = record { route_family = family; gateway_policy_id = policy }

abbrev pub is_register : String → Bool
is_register path =
    includes
      ("/_matrix/client/r0/register" ∷ "/_matrix/client/v1/register" ∷ "/_matrix/client/v3/register"
        ∷ [])
      path

abbrev pub is_login : String → Bool
is_login path =
    includes
      ("/_matrix/client/r0/login" ∷ "/_matrix/client/v1/login" ∷ "/_matrix/client/v3/login" ∷ [])
      path

-- The tests on paths that no policy limits.
unfoldable pub classify_rest : String → Classification
classify_rest path =
    if str_eq path "/_matrix/client/v3/sync"
    then class "sync" none
    else if starts path "/_matrix/client/"
    then class "client-route" none
    else if starts path "/_matrix/"
    then class "matrix-route" none
    else class "public-edge" none

-- The tests behind those for public entries, registration and login.
unfoldable pub classify_session_route : String → Classification
classify_session_route path =
    if str_eq path "/_matrix/client/v3/refresh"
    then class "refresh" (some "gateway_refresh")
    else if is_search path
    then class "search" (some "gateway_search")
    else if is_media path
    then class "media" (some "gateway_media")
    else if is_room_write path
    then class "room-write" (some "gateway_room_write")
    else classify_rest path

-- `classifyGatewayRequest`
unfoldable pub classify_gateway_request : String → String → Classification
classify_gateway_request method path =
    let get = str_eq method "GET" in
    let post = str_eq method "POST" in
    if is_public_entry path
    then class "public-entry" (if get then some "gateway_public_entry" else none)
    else if is_register path
    then class (if get then "public-entry" else "register") (
        if post then some "gateway_register" else if get then some "gateway_public_entry" else none)
    else if is_login path
    then class (if get then "public-entry" else "login")
        (if post then some "gateway_login" else some "gateway_public_entry")
    else classify_session_route path
