-- ===== src/Room/Admission.antt =====
-- Durable-objects.mjs: the checks of `admitEvent`, and the replay of an earlier answer. Delivery to users and derived updates, which follow the transaction, and
-- the metrics are left out.
use Prim.Native.String.{◌++◌ as append}
use matrix_flare.Prelude.{
  ℕ, String, Bool, true, false, ◌&&◌, not, Option, none, some, [], ◌∷◌, str_eq, if◌then◌else◌,
  includes, is_some, is_empty, or_else, or_option, Error, Result, ok, throws, ◌>>=◌, throw_if,
  internal, type_error,
}
use matrix_flare.Json.{
  Json, str, obj, Fields, end, get, as_string, as_int, as_object, is_text, normalize_string,
  normalize_text,
}
use matrix_flare.AbuseGuard.Window.{Verdict, pass}
use matrix_flare.AbuseGuard.Enforce.{enforce_semantic_quota}
use matrix_flare.Room.State.{
  StateEntry, StateMap, get_room_state_map_for_snapshot, get_typed_state_event,
  load_room_event_by_id,
}
use matrix_flare.Room.Authorize.{Shape, validate_candidate_event_shape}
use matrix_flare.Room.Identity.{
  Platform, CreateIdentity, non_null, resolve_room_version_or_throw, derive_create_room_identity,
}
use matrix_flare.Room.Store.{Runtime, succeeded, failed, Dedupe, RoomStore, tables_of, get_metadata}

-- The deployment: its server name and the overrides of its quotas.
pub record RoomEnv : Type 0 where
  pub server_name : String
  pub overrides : Option Json

-- What is asked of the room, and the clock when it is.
pub record Request : Type 0 where
  pub request_kind : Option Json
  pub request_fingerprint : Option Json
  pub candidate_event : Option Json
  pub room_version : Option Json
  pub room_id : Option Json
  pub now : ℕ

pub data Answer : Type 0 where
  accepted : (event_id : Option String) (room_pos : Option ℕ) (snapshot_id : Option String) → Answer
  rate_limited : (retry_after_ms : ℕ) → Answer
  rejected : Error → Answer

-- `normalizeRequestKind`
unfoldable pub normalize_request_kind : Option Json → Result String
normalize_request_kind value = do
  kind ← normalize_string value
  if includes ("client" ∷ "federation" ∷ "repair" ∷ "backfill" ∷ "appservice" ∷ []) kind
      then ok kind
      else throws type_error

-- A request that has passed the checks on it alone.
pub record Prepared : Type 0 where
  pub fingerprint : String
  pub event : Fields
  pub version : String
  pub shape : Shape
  pub identity : Option CreateIdentity
  pub room_id : String

-- `value ?? null` of `candidate.content.room_version` of a create event
abbrev pub created_version : Option Fields → Option Json
created_version none = none
created_version (some event) =
    if is_text (get "type" event) "m.room.create"
    then elim (as_object (get "content" event)) [
      | none ↦ none
      | some content ↦ non_null (get "room_version" content)
    ]
    else none

-- The room id that the request, the event, the identity of a created room or the room names.
abbrev pub named_room : Request → Fields → Option CreateIdentity → Runtime → Option Json
named_room q event identity r = or_option (non_null q.room_id) (
    or_option (non_null (get "room_id" event)) (elim identity [
      | some i ↦ some (str i.room_id)
      | none ↦ elim r.room_id [ none ↦ none | some id ↦ some (str id) ]
    ]))

unfoldable pub prepare : Platform → RoomEnv → Request → Runtime → Result Prepared
prepare x env q r = do
  kind ← normalize_request_kind (some (or_else (non_null q.request_kind) (str "client")))
  fingerprint ← normalize_string q.request_fingerprint
  let candidate = as_object q.candidate_event
  version ←
      resolve_room_version_or_throw r.room_version
        (or_option (non_null q.room_version) (created_version candidate)) kind
  shape ← validate_candidate_event_shape version q.candidate_event
  identity ←
      if str_eq shape.event_type "m.room.create"
      then (derive_create_room_identity x shape.sender version fingerprint env.server_name >>= λ i.
          ok (some i))
      else ok none
  let event = or_else candidate end
  room_id ← normalize_string (named_room q event identity r)
  ok (record {
    fingerprint = fingerprint;
    event = event;
    version = version;
    shape = shape;
    identity = identity;
    room_id = room_id;
  })

-- An object below `unsigned`.
abbrev pub unsigned_object : String → Fields → Option Fields
unsigned_object name event = elim (as_object (get "unsigned" event)) [
  | none ↦ none
  | some u ↦ as_object (get name u)
]

-- `getProfileRefreshInfo(event) != null`
abbrev pub is_profile_refresh : Fields → Bool
is_profile_refresh event = elim (unsigned_object "public" event) [
  | none ↦ false
  | some p ↦
      is_text (get "propagation_kind" p) "profile_refresh"
      && is_some (as_int (get "profile_version" p))
]

-- The quota on sends or on membership events; a profile refresh takes none.
unfoldable pub take_quota : RoomEnv → Prepared → ℕ → RoomStore → Result (Verdict × RoomStore)
take_quota env p now s =
    let member = str_eq p.shape.event_type "m.room.member" in
    if member && is_profile_refresh p.event
    then ok (pass, s)
    else (enforce_semantic_quota env.overrides
          (if member then "roomdo_membership" else "roomdo_send")
          (append p.room_id (append "|" p.shape.sender)) now s.quotas
        >>= λ quota. ok (quota.0, record s { quotas = quota.1 }))

-- The room exists, unless it is created, and is the one that is named.
unfoldable pub check_room : Prepared → Runtime → Result (Unit {0})
check_room p r = elim r.room_id [
  | none ↦ throw_if (not (str_eq p.shape.event_type "m.room.create")) (internal "room_not_found")
  | some bound ↦
      throw_if (not (is_empty bound) && not (str_eq bound p.room_id)) (internal "room_forbidden")
]

-- `getCurrentStateMap`
unfoldable pub get_current_state_map : RoomStore → Result StateMap
get_current_state_map s =
    get_room_state_map_for_snapshot s.state_entries s.runtime.current_snapshot_id

-- The entry of the membership that the event sets.
unfoldable pub current_membership : StateMap → Shape → Result (Option StateEntry)
current_membership m shape =
    if str_eq shape.event_type "m.room.member"
    then elim shape.state_key [
      | none ↦ ok none
      | some user ↦ get_typed_state_event m "m.room.member" user
    ]
    else ok none

abbrev pub joined_by_bars : String → String → String → String → String → String
joined_by_bars user device room route txn = append user (
    append "|"
      (append device (append "|" (append room (append "|" (append route (append "|" txn)))))))

-- The transaction id, or the fingerprint; for a membership event with the event that it follows.
abbrev pub transaction_name : Bool → String → Option StateEntry → String
transaction_name member txn current =
    if member
    then append txn (append "|" (elim current [ none ↦ "none" | some e ↦ e.event_id ]))
    else txn

-- The key of `clientDedupeKey`, of a request with a client context. Its transaction id is a text, or there
-- is none: the gateway sends no other.
unfoldable pub client_dedupe_key : Prepared → Option StateEntry → Result (Option String)
client_dedupe_key p current = elim (unsigned_object "client_context" p.event) [
  | none ↦ ok none
  | some c ↦
      (normalize_string (get "user_id" c) >>= λ user.
      normalize_string (get "device_id" c) >>= λ device.
      normalize_string (get "route_template" c) >>= λ route.
      (if str_eq p.shape.event_type "m.room.member"
        then normalize_text (
            transaction_name true
              (or_else (as_string (get "txn_id_or_request_hash" c)) p.fingerprint) current)
        else normalize_string
            (some (or_else (non_null (get "txn_id_or_request_hash" c)) (str p.fingerprint))))
      >>= λ txn. ok (some (joined_by_bars user device p.room_id route txn)))
]

abbrev pub position_of : RoomStore → Option String → Option ℕ
position_of s none = none
position_of s (some id) = elim (get_metadata id s.metadata) [
  | none ↦ none
  | some m ↦ some m.room_pos
]

-- The answer that an earlier request of the same key was given.
unfoldable pub earlier_answer : String → Dedupe → RoomStore → Result Answer
earlier_answer fingerprint d s =
    if not (str_eq d.request_fingerprint fingerprint)
    then throws (internal "idempotency_conflict")
    else elim d.outcome [
      | failed e ↦ ok (rejected e)
      | succeeded id ↦ ok (accepted id (position_of s id) s.runtime.current_snapshot_id)
    ]

-- Whether the membership event in force is of the same sender and has the same content.
unfoldable pub is_same_membership : Platform → RoomStore → Prepared → StateEntry → Result Bool
is_same_membership x s p current = do
  event ← load_room_event_by_id (tables_of s) current.event_id
  let content_hash : Fields → String =
      λ e. x.canonical_json_hash (or_else (non_null (get "content" e)) (obj end))
  ok (
      is_text (get "sender" event) p.shape.sender
      && str_eq (content_hash event) (content_hash p.event))
