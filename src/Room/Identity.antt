-- ===== src/Room/Identity.antt =====
-- The room version of a request, the identity of a created room and the JSON of an admitted event:
-- `resolveRoomVersionOrThrow` and the middle of `admitEvent` of durable-objects.mjs, with
-- `resolveRequestedRoomVersion` and `deriveCreateRoomIdentity` of room-domain.mjs. The digest of a
-- JSON value, `canonicalJsonHash` of fingerprints.mjs, is a parameter, and a total one: it throws only on
-- what no JSON text with finite numbers yields.
use Prim.Native.String.{◌++◌ as append}
use matrix_flare.Prelude.{
  ℕ, String, Bool, ◌||◌, Option, none, some, List, [], ◌∷◌, str_eq, if◌then◌else◌, includes,
  or_else, Result, ok, throws, ◌>>=◌, internal, range_error,
}
use matrix_flare.Prelude.Int.{ℤ, pos}
use matrix_flare.Json.{
  Json, str, int, arr, obj, Items, nil, cons, Fields, end, field, is_nullish, is_text,
  normalize_string, normalize_text,
}

-- What the room takes from its platform: the digest of a JSON value, the order of texts by
-- `localeCompare`, and a number in decimal digits.
pub record Platform : Type 0 where
  pub canonical_json_hash : Json → String
  pub locale_before : String → String → Bool
  pub show : ℕ → String

abbrev pub supported_room_versions : List String
supported_room_versions = "11" ∷ "12" ∷ []

-- `value ?? null` of a JSON value
abbrev pub non_null : Option Json → Option Json
non_null v = if is_nullish v then none else v

unfoldable pub resolve_requested_room_version : Json → Result String
resolve_requested_room_version value =
    if is_nullish (some value) || is_text (some value) ""
    then ok "12"
    else (normalize_string (some value) >>= λ version.
        if includes supported_room_versions version then ok version else throws range_error)

-- `resolveRoomVersionOrThrow`
unfoldable pub resolve_room_version_or_throw : Option String → Option Json → String → Result String
resolve_room_version_or_throw of_room requested kind =
    let of_room_json : Json = elim of_room [ none ↦ str "12" | some v ↦ str v ] in
    let candidate = or_else (non_null requested) of_room_json in
    (normalize_string (some candidate) >>= λ version.
    if includes supported_room_versions version
    then resolve_requested_room_version candidate
    else throws (
        internal (
          if str_eq kind "federation"
          then "incompatible_room_version"
          else "unsupported_room_version")))

pub record CreateIdentity : Type 0 where
  pub create_event_id : String
  pub room_id : String

-- `deriveCreateRoomIdentity`, of a version that has been resolved
unfoldable pub derive_create_room_identity :
    Platform → String → String → String → String → Result CreateIdentity
derive_create_room_identity x creator version fingerprint server = do
  creator_name ← normalize_text creator
  fingerprint_name ← normalize_text fingerprint
  server_name ← normalize_text server
  let digest = x.canonical_json_hash (
      obj (
        field "kind" (str "create_room") (
          field "creator_user_id" (str creator_name) (
            field "room_version" (str version) (
              field "request_fingerprint" (str fingerprint_name)
                (field "server_name" (str server_name) end))))))
  let room_digest = x.canonical_json_hash (
      obj (
        field "kind" (str "room_id") (
          field "creator_user_id" (str creator) (
            field "room_version" (str version) (
              field "request_fingerprint" (str fingerprint)
                (field "server_name" (str server) end))))))
  ok (record {
    create_event_id = append "$" digest;
    room_id =
        if str_eq version "12"
        then append "!" digest
        else append "!" (append room_digest (append ":" server_name));
  })

abbrev pub texts : List String → Items
texts [] = nil
texts (s ∷ ss) = cons (str s) (texts ss)

-- A field that is written only if it has a value.
abbrev pub optional_field : String → Option Json → Fields → Fields
optional_field name none fields = fields
optional_field name (some value) fields = field name value fields

-- `baseEvent` of `admitEvent`
unfoldable pub base_event :
    String
    → String
    → Fields
    → ℤ
    → List String
    → List String
    → Option String
    → Option String
    → Option String
    → Fields
base_event event_type sender content timestamp prev auth state_key redacts room_id =
    let str_of : Option String → Option Json =
      λ o. elim o [ none ↦ none | some s ↦ some (str s) ] in
    field "type" (str event_type) (
      field "sender" (str sender) (
        field "content" (obj content) (
          field "origin_server_ts" (int timestamp) (
            field "prev_events" (arr (texts prev)) (
              field "auth_events" (arr (texts auth)) (
                optional_field "state_key" (str_of state_key) (
                  optional_field "redacts" (str_of redacts)
                    (optional_field "room_id" (str_of room_id) end))))))))

-- `deriveDeterministicEventId` of a room event
unfoldable pub derive_event_id : Platform → String → String → String → Fields → String
derive_event_id x room_id version fingerprint event = append "$" (
    x.canonical_json_hash (
      obj (
        field "kind" (str "room_event") (
          field "room_id" (str room_id) (
            field "room_version" (str version)
              (field "request_fingerprint" (str fingerprint) (field "event" (obj event) end)))))))

-- The fields that `committedEvent` adds to the base event.
unfoldable pub committed_event : Platform → Fields → String → ℕ → Option Fields → Fields
committed_event x base event_id depth unsigned = add base
  where
    extra : Fields
    extra = field "event_id" (str event_id) (
        field "depth" (int (pos depth)) (
          field "hashes" (obj (field "sha256" (str (x.canonical_json_hash (obj base))) end)) (
            optional_field "unsigned" (elim unsigned [ none ↦ none | some u ↦ some (obj u) ]) end)))

    add : Fields → Fields
    add end = extra
    add (field k v fs) = field k v (add fs)
