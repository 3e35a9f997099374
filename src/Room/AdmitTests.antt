-- ===== src/Room/AdmitTests.antt =====
-- A message that is sent to a room, sent again, and sent again with another body.
use matrix_flare.Prelude.{
  ℕ, String, true, Option, none, some, [], ◌∷◌, ◌≡◌, refl, arith, if◌then◌else◌, ◌==◌, or_else,
  internal, Result, ok, throws, trim,
}
use matrix_flare.Json.{str, obj, Fields, end, field, get, as_string, as_object, normalize_text}
use matrix_flare.Room.State.{
  StateMap, get_room_state_map_for_snapshot, collect_state_map, set_entry,
}
use matrix_flare.Room.Authorize.{validate_candidate_event_shape, candidate_of}
use matrix_flare.Room.Identity.{
  Platform, resolve_room_version_or_throw, resolve_requested_room_version, base_event,
  derive_event_id, committed_event,
}
use matrix_flare.Room.Store.{
  Metadata, RoomStore, tables_of, get_metadata, put_metadata, put_hot_event, get_dedupe, put_dedupe,
  delete_extremity, put_extremity, put_edge, put_state_entry,
}
use matrix_flare.Room.Commit.{
  copy_entries, write_snapshot, next_state, commit, project_membership, apply_redaction,
}
use matrix_flare.Room.Graph.{
  reserve_room_pos, insert_extremity, sort_extremities, prev_event_ids, previous_depth, unique_ids,
  membership_entry, build_auth_event_ids, delete_extremities, put_edges,
}
use matrix_flare.Room.Admission.{
  RoomEnv, Request, Answer, accepted, normalize_request_kind, Prepared, prepare, check_room,
  get_current_state_map, current_membership, client_dedupe_key, earlier_answer,
}
use matrix_flare.Room.Admit.{
  redacted_id, build_event, write_event, admit_new, admit_keyed, admit_in_room, failure_key,
  record_failure, admit_event,
}
use matrix_flare.Room.Positions.{IsOrdered}
use matrix_flare.Room.Order.{admit_event-IsOrdered}
use matrix_flare.Room.Frontier.{write_event-extremity}
use matrix_flare.Room.Replay.{retry_same, failure_refuses_earlier}
use matrix_flare.Room.Tests.{entry, tables, room_code, different}

abbrev numeral : ℕ → String
numeral n = if n == 4 then "4" else "5"

-- A stand-in for the platform: the digest of a JSON value is the fingerprint that it names.
abbrev platform : Platform
platform = record {
  canonical_json_hash = λ j. elim (as_object (some j)) [
    | none ↦ "digest"
    | some f ↦ or_else (as_string (get "request_fingerprint" f)) "digest"
  ];
  locale_before = λ a b. true;
  show = numeral;
}

abbrev env : RoomEnv
env = record { server_name = "h"; overrides = none }

abbrev row_of : String → ℕ → String → Option String → Metadata
row_of id position kind key = record {
  event_id = id;
  room_pos = position;
  depth = position;
  event_type = kind;
  state_key = key;
  sender_user_id = "@ada:h";
  redacts_event_id = none;
}

abbrev store : RoomStore
store = record {
  runtime = record {
    room_id = some "!room:h";
    room_version = some "12";
    next_room_pos = 4;
    current_snapshot_id = some "snapshot-4";
  };
  extremities = record { event_id = "$bob"; room_pos = 3 } ∷ [];
  prev_edges = [];
  auth_edges = [];
  state_entries =
      entry "m.room.create" "" "$create" none
      ∷ entry "m.room.member" "@ada:h" "$ada" (some "join")
      ∷ entry "m.room.member" "@bob:h" "$bob" (some "join")
      ∷ [];
  members = [];
  metadata =
      row_of "$create" 1 "m.room.create" (some "")
      ∷ row_of "$ada" 2 "m.room.member" (some "@ada:h")
      ∷ row_of "$bob" 3 "m.room.member" (some "@bob:h")
      ∷ [];
  hot_events = tables.hot_events;
  dedupe = [];
  quotas = [];
}

abbrev context : Fields
context = field "user_id" (str "@bob:h") (
    field "device_id" (str "dev")
      (field "route_template" (str "/send") (field "txn_id_or_request_hash" (str "txn") end)))

abbrev message : Fields
message = field "type" (str "m.room.message") (
    field "sender" (str "@bob:h") (
      field "content" (obj (field "body" (str "hello") end))
        (field "unsigned" (obj (field "client_context" (obj context) end)) end)))

abbrev request : String → Request
request fingerprint = record {
  request_kind = none;
  request_fingerprint = some (str fingerprint);
  candidate_event = some (obj message);
  room_version = none;
  room_id = some (str "!room:h");
  now = 1000;
}

abbrev prepared : String → Prepared
prepared fingerprint = record {
  fingerprint = fingerprint;
  event = message;
  version = "12";
  shape = record { event_type = "m.room.message"; sender = "@bob:h"; state_key = none };
  identity = none;
  room_id = "!room:h";
}

admit_code : Unit {0}
unfolding room_code prepare normalize_request_kind resolve_room_version_or_throw
    resolve_requested_room_version validate_candidate_event_shape candidate_of check_room
    get_current_state_map get_room_state_map_for_snapshot collect_state_map set_entry
    current_membership client_dedupe_key earlier_answer redacted_id build_event prev_event_ids
    sort_extremities insert_extremity previous_depth get_metadata build_auth_event_ids
    membership_entry unique_ids base_event derive_event_id committed_event commit project_membership
    apply_redaction reserve_room_pos next_state write_snapshot copy_entries put_state_entry
    put_extremity delete_extremity delete_extremities put_edges put_edge put_metadata put_hot_event
    put_dedupe get_dedupe tables_of write_event admit_new admit_keyed admit_in_room failure_key
    record_failure
admit_code = tt

prepare_message : prepare platform env (request "first") store.runtime ≡ ok (prepared "first")
unfolding admit_code
prepare_message = refl

-- The room after a request, and its state map.
abbrev store_of : Result (Answer × RoomStore) → RoomStore
store_of (throws e) = store
store_of (ok (a, s)) = s

abbrev state_of : Result StateMap → StateMap
state_of (throws e) = []
state_of (ok m) = m

abbrev sent : RoomStore
sent = store_of (admit_in_room platform store (prepared "first") 1000)

abbrev answer : Answer
answer = accepted (some "$first") (some 4) (some "snapshot-4")

admit_message : admit_in_room platform store (prepared "first") 1000 ≡ ok (answer, sent)
unfolding admit_code
admit_message = refl

read_sent : get_current_state_map sent ≡ ok (state_of (get_current_state_map sent))
unfolding admit_code
read_sent = refl

abbrev message_key : String
message_key = "@bob:h|dev|!room:h|/send|txn"

key_of_message : client_dedupe_key (prepared "first") none ≡ ok (some message_key)
unfolding admit_code
key_of_message = refl

retry_same_example : admit_in_room platform sent (prepared "first") 9000 ≡ ok (answer, sent)
unfolding trim normalize_text
retry_same_example =
    retry_same platform (prepared "first") store sent 1000 9000 message_key
      (state_of (get_current_state_map sent)) answer
      (different "m.room.message" "m.room.member" refl) refl key_of_message read_sent admit_message

-- The same transaction with another body is refused as a conflict.
conflict :
    admit_in_room platform sent (prepared "second") 2000 ≡ throws (internal "idempotency_conflict")
unfolding admit_code
conflict = refl

failing_key : failure_key platform env (request "second") sent ≡ ok (some (message_key, "second"))
unfolding admit_code
failing_key = refl

check_sent : check_room (prepared "first") sent.runtime ≡ ok tt
unfolding admit_code
check_sent = refl

-- After that, the message that had been answered is refused too.
failure_refuses_earlier_example :
    admit_in_room platform
      (record_failure platform env (request "second") (internal "idempotency_conflict") sent)
      (prepared "first")
      9000
    ≡ throws (internal "idempotency_conflict")
failure_refuses_earlier_example =
    failure_refuses_earlier platform (prepared "first") env (request "second")
      (internal "idempotency_conflict") sent (state_of (get_current_state_map sent)) message_key
      "second" 9000 failing_key (different "second" "first" refl)
      (different "m.room.message" "m.room.member" refl) check_sent read_sent key_of_message

store-IsOrdered : IsOrdered store
unfolding IsOrdered
store-IsOrdered = (
  (omega arith, (omega arith, (omega arith, tt))),
  (((λ e. omega arith), ((λ e. omega arith), tt)), (((λ e. omega arith), tt), (tt, tt))),
)

admit_event-IsOrdered_example : IsOrdered (admit_event platform env (request "first") store).1
admit_event-IsOrdered_example =
    admit_event-IsOrdered platform env (request "first") store store-IsOrdered

write_message :
    write_event platform store
      (state_of (get_current_state_map store))
      (prepared "first")
      (some message_key)
      1000
    ≡ ok (answer, sent)
unfolding admit_code
write_message = refl

write_event-extremity_example :
    (id : String) × (pos : ℕ) × (sent.extremities ≡ record { event_id = id; room_pos = pos } ∷ [])
    × (answer ≡ accepted (some id) (some pos) sent.runtime.current_snapshot_id)
write_event-extremity_example =
    write_event-extremity platform store sent (state_of (get_current_state_map store))
      (prepared "first") (some message_key) 1000 answer write_message
