-- ===== src/Room/Admit.antt =====
-- Durable-objects.mjs: `admitEvent`, from the building of the event on: the write, the record of a
-- failure, and the whole.
use matrix_flare.Prelude.{
  ℕ, ◌+◌, String, Bool, false, ◌||◌, not, Option, none, some, str_eq, if◌then◌else◌, is_empty,
  or_else, or_option, Error, Result, ok, throws, ◌>>=◌, ◌>>◌,
}
use matrix_flare.Prelude.Int.{pos}
use matrix_flare.Json.{Fields, end, get, as_string, as_int, as_object, is_text, normalize_string}
use matrix_flare.AbuseGuard.Window.{pass, limited}
use matrix_flare.Room.State.{StateEntry, StateMap, get_typed_state_event}
use matrix_flare.Room.Authorize.{candidate_of, authorize_candidate_event}
use matrix_flare.Room.Identity.{
  Platform, non_null, derive_create_room_identity, base_event, derive_event_id, committed_event,
}
use matrix_flare.Room.Store.{
  succeeded, failed, Dedupe, RoomStore, tables_of, get_dedupe, put_dedupe,
}
use matrix_flare.Room.Commit.{Admitted, commit}
use matrix_flare.Room.Graph.{prev_event_ids, previous_depth, build_auth_event_ids}
use matrix_flare.Room.Admission.{
  RoomEnv, Request, Answer, accepted, rate_limited, rejected, Prepared, prepare, unsigned_object,
  take_quota, check_room, get_current_state_map, current_membership, joined_by_bars,
  transaction_name, client_dedupe_key, position_of, earlier_answer, is_same_membership, named_room,
}

-- `candidateEvent.redacts`, if it is there
unfoldable pub redacted_id : Fields → Result (Option String)
redacted_id event = elim (non_null (get "redacts" event)) [
  | none ↦ ok none
  | some r ↦ normalize_string (some r) >>= λ id. ok (some id)
]

-- The event that is admitted, with its identity and its place in the graph.
unfoldable pub build_event : Platform → RoomStore → StateMap → Prepared → ℕ → Result Admitted
build_event x s m p now = do
  let prev = prev_event_ids x s.extremities
  auth ←
      build_auth_event_ids (tables_of s) p.version m (candidate_of p.event).event_type
        (candidate_of p.event).sender p.shape.state_key
  redacts ← redacted_id p.event
  let creates = str_eq p.shape.event_type "m.room.create"
  let content = or_else (as_object (get "content" p.event)) end
  let base =
      base_event p.shape.event_type p.shape.sender content
        (or_else (as_int (get "origin_server_ts" p.event)) (pos now)) prev auth p.shape.state_key
        redacts (if not creates || not (str_eq p.version "12") then some p.room_id else none)
  let event_id : String = elim p.identity [
    | some i ↦ i.create_event_id
    | none ↦ derive_event_id x p.room_id p.version p.fingerprint base
  ]
  let depth = previous_depth s.metadata prev + 1
  ok (record {
    event_id = event_id;
    event_type = p.shape.event_type;
    sender = p.shape.sender;
    state_key = p.shape.state_key;
    membership =
        if str_eq p.shape.event_type "m.room.member"
        then as_string (get "membership" content)
        else none;
    redacts = redacts;
    redacts_as_sent = or_else (as_string (get "redacts" p.event)) "";
    timestamp = or_else (as_int (get "origin_server_ts" p.event)) (pos now);
    depth = depth;
    prev = prev;
    auth = auth;
    committed = committed_event x base event_id depth (unsigned_object "public" p.event);
  })

-- The end of the transaction: the success is recorded under the key of the request.
abbrev pub record_success : Option String → String → String → RoomStore → RoomStore
record_success none fingerprint id s = s
record_success (some key) fingerprint id s = record s {
  dedupe =
      put_dedupe
        (record {
          txn_dedupe_key = key;
          request_fingerprint = fingerprint;
          outcome = succeeded (some id);
        })
        s.dedupe;
}

-- The transaction, and the answer after it.
unfoldable pub write_event :
    Platform → RoomStore → StateMap → Prepared → Option String → ℕ → Result (Answer × RoomStore)
write_event x s m p key now = do
  e ← build_event x s m p now
  (room_pos, written) ← commit x p.room_id p.version e s
  let after = record_success key p.fingerprint e.event_id written
  ok (accepted (some e.event_id) (some room_pos) after.runtime.current_snapshot_id, after)

-- Whether the membership event in force, if there is one, is the one that is asked for.
abbrev pub repeats_membership : Platform → RoomStore → Prepared → Option StateEntry → Result Bool
repeats_membership x s p none = ok false
repeats_membership x s p (some entry) = is_same_membership x s p entry

-- Authorization, and the write, unless the membership event in force is the same.
unfoldable pub admit_new :
    Platform
    → RoomStore
    → StateMap
    → Prepared
    → Option StateEntry
    → Option String
    → ℕ
    → Result (Answer × RoomStore)
admit_new x s m p current key now =
    authorize_candidate_event (tables_of s) p.version m (candidate_of p.event)
    >> (repeats_membership x s p current >>= λ same. elim (if same then current else none) [
      | none ↦ write_event x s m p key now
      | some entry ↦ ok (
        accepted (some entry.event_id) (position_of s (some entry.event_id))
            s.runtime.current_snapshot_id,
        s,
      )
    ])

abbrev pub earlier_row : Option String → RoomStore → Option Dedupe
earlier_row none s = none
earlier_row (some key) s = get_dedupe key s.dedupe

-- The replay of an earlier answer, or a new admission.
unfoldable pub admit_keyed :
    Platform
    → RoomStore
    → StateMap
    → Prepared
    → Option StateEntry
    → Option String
    → ℕ
    → Result (Answer × RoomStore)
admit_keyed x s m p current key now = elim (earlier_row key s) [
  | some d ↦ earlier_answer p.fingerprint d s >>= λ answer. ok (answer, s)
  | none ↦ admit_new x s m p current key now
]

-- What follows the quota.
unfoldable pub admit_in_room : Platform → RoomStore → Prepared → ℕ → Result (Answer × RoomStore)
admit_in_room x s p now = do
  check_room p s.runtime
  m ← get_current_state_map s
  current ← current_membership m p.shape
  key ← client_dedupe_key p current
  admit_keyed x s m p current key now

-- `clientContext.user_id` in a template, of a text. (The gateway sends no other.)
abbrev pub shown : String → Fields → String
shown name c = or_else (as_string (get name c)) "undefined"

-- The `catch` branch: the failure is recorded under the key of the request, as far as one can be
-- formed.
unfoldable pub failure_key :
    Platform → RoomEnv → Request → RoomStore → Result (Option (String × String))
failure_key x env q s = elim (as_object q.candidate_event) [
  | none ↦ ok none
  | some event ↦ elim (unsigned_object "client_context" event) [
    | none ↦ ok none
    | some c ↦
        let fingerprint = or_else (as_string q.request_fingerprint) "" in
        if is_empty fingerprint
        then ok none
        else let member = is_text (get "type" event) "m.room.member" in
          (get_current_state_map s >>= λ m.
          (elim (as_string (get "state_key" event)) [
            | none ↦ ok none
            | some user ↦ if member then get_typed_state_event m "m.room.member" user else ok none
          ])
          >>= λ current.
              (elim (named_room q event none s.runtime) [
                | some id ↦ ok (or_else (as_string (some id)) "undefined")
                | none ↦
                    derive_create_room_identity x (shown "sender" event)
                      (or_else
                        (as_string (
                          or_option (non_null q.room_version)
                            (elim (as_object (get "content" event)) [
                              | none ↦ none
                              | some content ↦ non_null (get "room_version" content)
                            ])))
                        "12")
                      fingerprint env.server_name
                    >>= λ i. ok i.room_id
              ])
              >>= λ room. ok (
                  some (
                    joined_by_bars (shown "user_id" c) (shown "device_id" c) room
                        (shown "route_template" c)
                        (transaction_name member
                          (or_else (as_string (get "txn_id_or_request_hash" c)) fingerprint)
                          current),
                    fingerprint,
                  )))
  ]
]

unfoldable pub record_failure : Platform → RoomEnv → Request → Error → RoomStore → RoomStore
record_failure x env q error s = elim (failure_key x env q s) [
  | throws e ↦ s
  | ok none ↦ s
  | ok (some (key, fingerprint)) ↦ record s {
    dedupe =
        put_dedupe
          (record {
            txn_dedupe_key = key;
            request_fingerprint = fingerprint;
            outcome = failed error;
          })
          s.dedupe;
  }
]

-- A throw behind the quota; the quota that was taken stays taken.
abbrev pub or_failure :
    Platform → RoomEnv → Request → RoomStore → Result (Answer × RoomStore) → Answer × RoomStore
or_failure x env q s (ok result) = result
or_failure x env q s (throws error) = (rejected error, record_failure x env q error s)

-- `admitEvent`
unfoldable pub admit_event : Platform → RoomEnv → Request → RoomStore → Answer × RoomStore
admit_event x env q s = elim (prepare x env q s.runtime) [
  | throws error ↦ or_failure x env q s (throws error)
  | ok p ↦ elim (take_quota env p q.now s) [
    | throws error ↦ or_failure x env q s (throws error)
    | ok quota ↦ elim (quota.0) [
      | limited wait ↦ (rate_limited wait, quota.1)
      | pass ↦ or_failure x env q (quota.1) (admit_in_room x (quota.1) p q.now)
    ]
  ]
]
