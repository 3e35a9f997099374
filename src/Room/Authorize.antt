-- ===== src/Room/Authorize.antt =====
-- Durable-objects.mjs: `validateCandidateEventShape` and `authorizeCandidateEvent`.
use matrix_flare.Prelude.{
  String, Bool, true, false, ◌&&◌, not, Option, none, some, str_eq, if◌then◌else◌, Result, ok,
  throws, ◌>>=◌, ◌>>◌, throw_if, get_or_throw, is_some, is_empty, or_else, internal,
}
use matrix_flare.Json.{
  Json, null, str, arr, Items, nil, cons, Fields, get, as_string, as_object, is_nullish,
  normalize_string,
}
use matrix_flare.Room.State.{
  EventTables, StateMap, get_typed_state_event, get_membership, load_room_event_by_id,
}
use matrix_flare.Room.Power.{
  finite, level_lt, get_user_power_level, get_current_power_levels_content, required_event_level,
}
use matrix_flare.Room.Membership.{Candidate, is_at, authorize_membership_event, forbidden, allowed}

-- What `validateCandidateEventShape` returns: the trimmed type and sender, and the state key.
pub record Shape : Type 0 where
  pub event_type : String
  pub sender : String
  pub state_key : Option String

-- `array.every((entry) => typeof entry === 'string' && entry.length > 0)`
abbrev pub all_names : Items → Bool
all_names nil = true
all_names (cons (str s) xs) = not (is_empty s) && all_names xs
all_names (cons _ xs) = false

abbrev pub bad_json : Result (Unit {0})
bad_json = throws (internal "bad_json")

-- The checks on `content.additional_creators`.
abbrev pub creators_ok : Option Json → Bool
creators_ok none = true
creators_ok (some null) = true
creators_ok (some (arr xs)) = all_names xs
creators_ok (some _) = false

-- The checks that a create event must pass.
unfoldable pub check_create : String → Fields → Fields → Option String → Result (Unit {0})
check_create version event content state_key =
    if not (is_at state_key "")
    then bad_json
    else if str_eq version "12" && not (is_nullish (get "room_id" event))
    then bad_json
    else if not (creators_ok (get "additional_creators" content))
    then bad_json
    else allowed

-- `validateCandidateEventShape`
unfoldable pub validate_candidate_event_shape : String → Option Json → Result Shape
validate_candidate_event_shape version candidate = do
  event ← get_or_throw (as_object candidate) (internal "bad_json")
  event_type ← normalize_string (get "type" event)
  sender ← normalize_string (get "sender" event)
  content ← get_or_throw (as_object (get "content" event)) (internal "bad_json")
  let state_key = as_string (get "state_key" event)
  throw_if (str_eq event_type "m.room.member" && not (is_some state_key)) (internal "bad_json")
  if str_eq event_type "m.room.create"
      then check_create version event content state_key
      else allowed
  throw_if (str_eq event_type "m.room.redaction" && not (is_some (as_string (get "redacts" event))))
      (internal "bad_json")
  ok (record { event_type = event_type; sender = sender; state_key = state_key })

-- `candidateEvent?.unsigned?.client_context?.route_template`
abbrev pub route_template_of : Fields → Option String
route_template_of event = elim (as_object (get "unsigned" event)) [
  | none ↦ none
  | some u ↦ elim (as_object (get "client_context" u)) [
    | none ↦ none
    | some c ↦ as_string (get "route_template" c)
  ]
]

-- The fields that authorization reads of an event that has passed validation: its type and sender
-- are texts and its content is an object.
unfoldable pub candidate_of : Fields → Candidate
candidate_of event = record {
  event_type = or_else (as_string (get "type" event)) "";
  sender = or_else (as_string (get "sender" event)) "";
  state_key = as_string (get "state_key" event);
  content = or_else (as_object (get "content" event)) Fields.end;
  redacts = as_string (get "redacts" event);
  route_template = route_template_of event;
}

-- The level test that ends `authorizeCandidateEvent`.
unfoldable pub check_event_level : EventTables → String → StateMap → Candidate → Result (Unit {0})
check_event_level t version m c = do
  sender_power ← get_user_power_level t version m c.sender
  levels ← get_current_power_levels_content t m
  if level_lt sender_power
        (finite (required_event_level version levels c.event_type (is_some c.state_key)))
      then forbidden
      else allowed

-- The branch on redactions: outside version 11 an author may redact an event of theirs whatever
-- their level.
unfoldable pub authorize_redaction : EventTables → String → StateMap → Candidate → Result (Unit {0})
authorize_redaction t version m c = do
  target ← load_room_event_by_id t (or_else c.redacts "")
  if not (str_eq version "11") && is_at (as_string (get "sender" target)) c.sender
      then (get_user_power_level t version m c.sender >>= λ _.
          get_current_power_levels_content t m >>= λ _. allowed)
      else check_event_level t version m c

-- `authorizeCandidateEvent`
unfoldable pub authorize_candidate_event :
    EventTables → String → StateMap → Candidate → Result (Unit {0})
authorize_candidate_event t version m c =
    if str_eq c.event_type "m.room.create"
    then (get_typed_state_event m "m.room.create" "" >>= λ create.
        if is_some create then forbidden else allowed)
    else (get_membership t m c.sender >>= λ sender_membership.
        if str_eq c.event_type "m.room.member"
        then authorize_membership_event t version m c (or_else c.state_key "")
        else if not (is_at sender_membership "join")
        then forbidden
        else if str_eq c.event_type "m.room.redaction"
        then authorize_redaction t version m c
        else check_event_level t version m c)
