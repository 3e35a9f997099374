-- ===== src/Room/Bans.antt =====
-- What the redaction of a membership event does to the membership: `redactEventForRoomVersion`,
-- written back by `admitEvent`, and `getMembershipState`.
use matrix_flare.Prelude.{
  String, false, none, some, List, [], ◌∷◌, ◌≡◌, arith, eq_refl, ok, Bool-cases, inl, inr,
}
use matrix_flare.Json.{Fields, get, is_text}
use matrix_flare.Room.State.{
  StateEntry, HotEvent, EventTables, StateMap, has_metadata, hot_event, load_room_event_by_id,
  get_typed_state_event, typed_state_content, get_membership,
}
use matrix_flare.Room.Store.{put_hot_event}
use matrix_flare.Room.Redaction.{redact_event_for_room_version, redact-without_membership}

hot-put : (e : HotEvent) (es : List HotEvent) → hot_event (put_hot_event e es) e.event_id ≡ some e
unfolding put_hot_event
hot-put e [] = rw (eq_refl e.event_id)
hot-put e (d ∷ ds) = let rest = hot-put e ds in ground (arith, eq_refl e.event_id)

-- The tables after the event of an id has been rewritten.
abbrev pub rewritten : EventTables → String → Fields → EventTables
rewritten t id event = record t {
  hot_events = put_hot_event (record { event_id = id; canonical_json = some event }) t.hot_events;
}

load-rewritten :
    (t : EventTables) (id : String) (old event : Fields)
    → load_room_event_by_id t id ≡ ok old
    → load_room_event_by_id (rewritten t id event) id ≡ ok event
unfolding load_room_event_by_id
load-rewritten t id old event h = elim (Bool-cases (has_metadata t.metadata_ids id)) [
  | inl known ↦
      rw (known, hot-put (record { event_id = id; canonical_json = some event }) t.hot_events)
  | inr unknown ↦ let h' = rw unknown at h in cc
]

-- Once the membership event in force of a user, a ban too, has been redacted, in either room
-- version, the room reads no membership for that user.
pub redacted_member_forgotten :
    (t : EventTables) (m : StateMap) (version user : String) (entry : StateEntry)
    (event note : Fields)
    → get_typed_state_event m "m.room.member" user ≡ ok (some entry)
    → load_room_event_by_id t entry.event_id ≡ ok event
    → is_text (get "type" event) "m.room.create" ≡ false
    → get_membership
        (rewritten t entry.event_id (redact_event_for_room_version version event note))
        m
        user
      ≡ ok none
unfolding get_membership typed_state_content
redacted_member_forgotten t m version user entry event note found loaded kind = rw (
  found,
  load-rewritten t entry.event_id event (redact_event_for_room_version version event note) loaded,
  redact-without_membership version event note kind,
)
