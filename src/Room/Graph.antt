-- ===== src/Room/Graph.antt =====
-- Durable-objects.mjs: the place of an admitted event in its room: its position
-- (`reserveRoomPosWithinTransaction`), the events before it, and those that authorize it
-- (`buildAuthEventIds`).
use matrix_flare.Prelude.{
  ℕ, ◌+◌, max, String, Bool, false, ◌&&◌, ◌||◌, not, Option, none, some, List, [], ◌∷◌, ◌++◌, map,
  str_eq, if◌then◌else◌, includes, is_empty, or_else, ltb, Result, ok, ◌>>=◌, ◌>>◌, throw_if,
  internal, ◌==◌,
}
use matrix_flare.Json.{normalize_text}
use matrix_flare.Room.State.{
  StateEntry, EventTables, StateMap, get_typed_state_event, get_membership,
}
use matrix_flare.Room.Identity.{Platform}
use matrix_flare.Room.Store.{Runtime, Extremity, Metadata, get_metadata, delete_extremity, put_edge}

-- Whether the room is bound to another id than the one named.
abbrev pub bound_elsewhere : String → Runtime → Bool
bound_elsewhere name r = elim r.room_id [
  | none ↦ false
  | some bound ↦ not (is_empty bound) && not (str_eq bound name)
]

-- The position that is taken, and the row after it.
abbrev pub take_position : String → String → Runtime → ℕ × Runtime
take_position name version r = (
  max 1 r.next_room_pos,
  record r {
    room_id = some name;
    room_version = some (or_else r.room_version version);
    next_room_pos = max 1 r.next_room_pos + 1;
  },
)

-- `reserveRoomPosWithinTransaction`
unfoldable pub reserve_room_pos : String → String → Runtime → Result (ℕ × Runtime)
reserve_room_pos room_id version r = do
  name ← normalize_text room_id
  throw_if (bound_elsewhere name r) (internal "Error")
  ok (take_position name version r)

-- `forwardExtremities.list().sort(...)`: by position, then by `localeCompare`.
abbrev pub comes_first : Platform → Extremity → Extremity → Bool
comes_first x a b =
    ltb a.room_pos b.room_pos || (a.room_pos == b.room_pos && x.locale_before a.event_id b.event_id)

unfoldable pub insert_extremity : Platform → Extremity → List Extremity → List Extremity
insert_extremity x new [] = new ∷ []
insert_extremity x new (e ∷ es) =
    let rest = insert_extremity x new es in if comes_first x new e then new ∷ e ∷ es else e ∷ rest

unfoldable pub sort_extremities : Platform → List Extremity → List Extremity
sort_extremities x [] = []
sort_extremities x (e ∷ es) = insert_extremity x e (sort_extremities x es)

unfoldable pub prev_event_ids : Platform → List Extremity → List String
prev_event_ids x es = map (λ e. e.event_id) (sort_extremities x es)

-- `previousDepth`
unfoldable pub previous_depth : List Metadata → List String → ℕ
previous_depth ms [] = 0
previous_depth ms (id ∷ ids) =
    max (previous_depth ms ids) (elim (get_metadata id ms) [ none ↦ 0 | some m ↦ m.depth ])

-- `[...new Set(ids.filter(Boolean))]`
unfoldable pub unique_ids : List String → List String → List String
unique_ids seen [] = []
unique_ids seen (id ∷ ids) =
    if is_empty id || includes seen id then unique_ids seen ids else id ∷ unique_ids (id ∷ seen) ids

abbrev pub id_of : Option StateEntry → List String
id_of none = []
id_of (some e) = e.event_id ∷ []

-- The state entry of `getMembershipState`: the event is loaded, and may be missing.
unfoldable pub membership_entry : EventTables → StateMap → String → Result (Option StateEntry)
membership_entry t m user =
    get_membership t m user >>= λ _. get_typed_state_event m "m.room.member" user

-- `buildAuthEventIds`
unfoldable pub build_auth_event_ids :
    EventTables
    → String
    → StateMap
    → (event_type sender : String) → Option String
    → Result (List String)
build_auth_event_ids t version m event_type sender state_key = do
  create ← if str_eq version "11" then get_typed_state_event m "m.room.create" "" else ok none
  of_sender ← membership_entry t m sender
  levels ← get_typed_state_event m "m.room.power_levels" ""
  rules ← get_typed_state_event m "m.room.join_rules" ""
  of_target ← elim state_key [
    | none ↦ ok none
    | some target ↦
        if str_eq event_type "m.room.member" && not (str_eq target sender)
        then membership_entry t m target
        else ok none
  ]
  ok (
      unique_ids []
        (id_of create ++ id_of of_sender ++ id_of levels ++ id_of rules ++ id_of of_target))

-- The loops over the ids of previous and of authorizing events.
unfoldable pub delete_extremities : List String → List Extremity → List Extremity
delete_extremities [] es = es
delete_extremities (id ∷ ids) es = delete_extremities ids (delete_extremity id es)

unfoldable pub put_edges : String → List String → List (String × String) → List (String × String)
put_edges id [] es = es
put_edges id (other ∷ others) es = put_edges id others (put_edge id other es)
