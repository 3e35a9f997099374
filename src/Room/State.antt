-- ===== src/Room/State.antt =====
-- Durable-objects.mjs: the rows that the room keeps of its events and of its state, the state map
-- of a snapshot, and the reads of typed state. `buildRoomStateTupleKey` is that of room-domain.mjs.
use matrix_flare.Prelude.{
  ℕ, String, Bool, true, false, Option, none, some, List, [], ◌∷◌, filter, str_eq, if◌then◌else◌,
  Result, ok, throws, ◌>>=◌, internal,
}
use Prim.Native.String.{◌++◌ as append}
use matrix_flare.Json.{Json, Fields, get, as_string, as_object, normalize_text}

-- What authorization reads of a row of `room_state_entries`.
pub record StateEntry : Type 0 where
  pub snapshot_id : String
  pub event_type : String
  pub state_key : String
  pub event_id : String
  pub membership : Option String
  pub event_room_pos : ℕ

-- A row of `hot_event_json`: what its JSON text parses to, an object, or `none` if it does not parse.
pub record HotEvent : Type 0 where
  pub event_id : String
  pub canonical_json : Option Fields

-- The tables that `loadRoomEventById` reads: the keys of `event_metadata`, and `hot_event_json`.
pub record EventTables : Type 0 where
  pub metadata_ids : List String
  pub hot_events : List HotEvent

abbrev pub has_metadata : List String → String → Bool
has_metadata [] id = false
has_metadata (x ∷ xs) id = if str_eq x id then true else has_metadata xs id

abbrev pub hot_event : List HotEvent → String → Option HotEvent
hot_event [] id = none
hot_event (e ∷ es) id = let rest = hot_event es id in if str_eq e.event_id id then some e else rest

-- The event of `loadRoomEventById`.
unfoldable pub load_room_event_by_id : EventTables → String → Result Fields
load_room_event_by_id t id =
    if has_metadata t.metadata_ids id
    then elim (hot_event t.hot_events id) [
      | none ↦ throws (internal "archive_missing")
      | some e ↦ elim e.canonical_json [
        | none ↦ throws (internal "archive_missing")
        | some event ↦ ok event
      ]
    ]
    else throws (internal "event_not_found")

-- The key of the state map: the type, trimmed, a NUL, and the state key.
unfoldable pub build_room_state_tuple_key : String → String → Result String
build_room_state_tuple_key event_type state_key = do
  name ← normalize_text event_type
  ok (append name (append "\0" state_key))

-- A `Map` from tuple keys to rows; `Map.set` replaces the row of a key.
abbrev pub StateMap : Type 0
StateMap = List (String × StateEntry)

unfoldable pub set_entry : String → StateEntry → StateMap → StateMap
set_entry k e [] = (k, e) ∷ []
set_entry k e ((j, d) ∷ m) =
    let rest = set_entry k e m in if str_eq j k then (j, e) ∷ m else (j, d) ∷ rest

unfoldable pub get_entry : String → StateMap → Option StateEntry
get_entry k [] = none
get_entry k ((j, d) ∷ m) = let rest = get_entry k m in if str_eq j k then some d else rest

-- The loop of `getRoomStateMapForSnapshot` over the rows of the snapshot.
unfoldable pub collect_state_map : List StateEntry → StateMap → Result StateMap
collect_state_map [] m = ok m
collect_state_map (row ∷ rows) m = do
  key ← build_room_state_tuple_key row.event_type row.state_key
  collect_state_map rows (set_entry key row m)

unfoldable pub get_room_state_map_for_snapshot : List StateEntry → Option String → Result StateMap
get_room_state_map_for_snapshot rows none = ok []
get_room_state_map_for_snapshot rows (some id) =
    collect_state_map (filter (λ row. str_eq row.snapshot_id id) rows) []

unfoldable pub get_typed_state_event : StateMap → String → String → Result (Option StateEntry)
get_typed_state_event m event_type state_key = do
  key ← build_room_state_tuple_key event_type state_key
  ok (get_entry key m)

-- The event of a typed state entry: `none` if the map has no such entry.
unfoldable pub typed_state_content : EventTables → Option StateEntry → Result (Option Fields)
typed_state_content t none = ok none
typed_state_content t (some e) = do event ← load_room_event_by_id t e.event_id; ok (some event)

-- `getCreateEventFromStateMap`
unfoldable pub get_create_event : EventTables → StateMap → Result (Option Fields)
get_create_event t m = do
  entry ← get_typed_state_event m "m.room.create" ""
  typed_state_content t entry

-- `event?.content?.[name]` of an event that is an object
abbrev pub content_field : Fields → String → Option Json
content_field event name = elim (as_object (get "content" event)) [
  | none ↦ none
  | some content ↦ get name content
]

-- `getJoinRule`
unfoldable pub get_join_rule : EventTables → StateMap → Result String
get_join_rule t m = do
  entry ← get_typed_state_event m "m.room.join_rules" ""
  event ← typed_state_content t entry
  ok (elim event [
    | none ↦ "invite"
    | some e ↦ elim (as_string (content_field e "join_rule")) [ none ↦ "invite" | some r ↦ r ]
  ])

-- The `membership` of `getMembershipState`: `none` for no state entry, and for a membership that
-- is no text.
unfoldable pub get_membership : EventTables → StateMap → String → Result (Option String)
get_membership t m user = do
  entry ← get_typed_state_event m "m.room.member" user
  event ← typed_state_content t entry
  ok (elim event [ none ↦ none | some e ↦ as_string (content_field e "membership") ])
