-- ===== src/Room/Commit.antt =====
-- Durable-objects.mjs: the transaction of `admitEvent`. Left out of it are the row of
-- `state_snapshots`, which holds digests of the state, and the outbox of deltas to users.
use Prim.Native.String.{◌++◌ as append}
use matrix_flare.Prelude.{
  get_or_throw, type_error, ℕ, String, ◌||◌, not, Option, none, some, List, [], ◌∷◌, filter, str_eq,
  if◌then◌else◌, is_some, or_else, Result, ok, ◌>>=◌, internal,
}
use matrix_flare.Json.{str, int, obj, end, field, as_string, Fields, normalize_text}
use matrix_flare.Room.State.{load_room_event_by_id, content_field, StateEntry, HotEvent}
use matrix_flare.Room.Redaction.{redact_event_for_room_version}
use matrix_flare.Prelude.Int.{ℤ}
use matrix_flare.Room.Identity.{Platform}
use matrix_flare.Room.Store.{
  Member, put_member, tables_of, Runtime, Metadata, RoomStore, get_metadata, put_metadata,
  put_hot_event, put_extremity, put_state_entry,
}
use matrix_flare.Room.Graph.{reserve_room_pos, delete_extremities, put_edges}

-- The loop that copies the rows of the snapshot before.
unfoldable pub copy_entries : String → List StateEntry → List StateEntry → List StateEntry
copy_entries id [] entries = entries
copy_entries id (e ∷ es) entries =
    copy_entries id es (put_state_entry (record e { snapshot_id = id }) entries)

-- An admitted event, as the transaction takes it.
pub record Admitted : Type 0 where
  pub event_id : String
  pub event_type : String
  pub sender : String
  pub state_key : Option String
  pub membership : Option String
  pub redacts : Option String
  pub redacts_as_sent : String
  pub timestamp : ℤ
  pub depth : ℕ
  pub prev : List String
  pub auth : List String
  pub committed : Fields

-- The new snapshot: that before, with the event's own row.
unfoldable pub write_snapshot :
    Platform → Admitted → ℕ → Runtime → List StateEntry → Runtime × List StateEntry
write_snapshot x e room_pos r entries =
    let id = append "snapshot-" (x.show room_pos) in
    let copied : List StateEntry = elim r.current_snapshot_id [
      | none ↦ entries
      | some before ↦
          copy_entries id (filter (λ row. str_eq row.snapshot_id before) entries) entries
    ] in
    let written : List StateEntry = elim e.state_key [
      | none ↦ copied
      | some key ↦
          put_state_entry
            (record {
              snapshot_id = id;
              event_type = e.event_type;
              state_key = key;
              event_id = e.event_id;
              membership = e.membership;
              event_room_pos = room_pos;
            })
            copied
    ] in
    (record r { current_snapshot_id = some id }, written)

-- The state rows after the event: a new snapshot for a state event, and for the first event.
unfoldable pub next_state :
    Platform → Admitted → ℕ → Runtime → List StateEntry → Runtime × List StateEntry
next_state x e room_pos r entries =
    if is_some e.state_key || not (is_some r.current_snapshot_id)
    then write_snapshot x e room_pos r entries
    else (r, entries)

-- `mapMembershipVisibilityClass`
unfoldable pub map_membership_visibility_class : String → Option String
map_membership_visibility_class membership =
    if str_eq membership "join"
    then some "joined"
    else if str_eq membership "invite"
    then some "invited"
    else if str_eq membership "knock"
    then some "knocked"
    else if str_eq membership "leave" || str_eq membership "ban"
    then some "left"
    else none

-- The row of the membership projection, of a membership event.
unfoldable pub project_membership : Admitted → ℕ → List Member → Result (List Member)
project_membership e room_pos members =
    if str_eq e.event_type "m.room.member"
    then (get_or_throw e.membership type_error >>= normalize_text >>= λ membership. ok (
        put_member
          (record {
            user_id = or_else e.state_key "";
            membership = membership;
            event_id = e.event_id;
            room_pos = room_pos;
            membership_visibility_class = map_membership_visibility_class membership;
          })
          members))
    else ok members

-- What the redacted event keeps of the redaction, under `redacted_because`.
unfoldable pub redaction_note : String → String → Admitted → Fields
redaction_note room_id version e =
    let tail =
      field "redacts" (str e.redacts_as_sent)
        (field "origin_server_ts" (int e.timestamp) (field "content" (obj end) end)) in
    field "event_id" (str e.event_id) (
      field "sender" (str e.sender) (
        field "type" (str "m.room.redaction")
          (if str_eq version "12" then tail else field "room_id" (str room_id) tail)))

-- The row that a redacted state event gets in the snapshot in force.
abbrev pub redacted_entry : Metadata → Fields → String → StateEntry
redacted_entry target redacted snapshot = record {
  snapshot_id = snapshot;
  event_type = target.event_type;
  state_key = or_else target.state_key "";
  event_id = target.event_id;
  membership =
      if str_eq target.event_type "m.room.member"
      then as_string (content_field redacted "membership")
      else none;
  event_room_pos = target.room_pos;
}

abbrev pub put_redacted_entry :
    Metadata → Fields → Option String → List StateEntry → List StateEntry
put_redacted_entry target redacted none entries = entries
put_redacted_entry target redacted (some snapshot) entries =
    if is_some target.state_key
    then put_state_entry (redacted_entry target redacted snapshot) entries
    else entries

-- The rewriting of the event that a redaction names, and of its state row.
unfoldable pub apply_redaction :
    String
    → String
    → Admitted
    → Option String
    → RoomStore
    → List StateEntry
    → Result (List HotEvent × List StateEntry)
apply_redaction room_id version e snapshot s entries =
    if str_eq e.event_type "m.room.redaction"
    then (load_room_event_by_id (tables_of s) e.redacts_as_sent >>= λ event.
        get_or_throw (get_metadata e.redacts_as_sent s.metadata) (internal "event_not_found")
        >>= λ target.
            let redacted =
              redact_event_for_room_version version event (redaction_note room_id version e) in
            ok (
              put_hot_event
                  (record { event_id = e.redacts_as_sent; canonical_json = some redacted })
                  s.hot_events,
              put_redacted_entry target redacted snapshot entries,
            ))
    else ok (s.hot_events, entries)

-- The store that the transaction leaves.
abbrev pub committed_store :
    Admitted → ℕ → Runtime → List Member → List HotEvent × List StateEntry → RoomStore → RoomStore
committed_store e room_pos runtime members rewritten s = record s {
  runtime = runtime;
  state_entries = rewritten.1;
  members = members;
  extremities =
      put_extremity (record { event_id = e.event_id; room_pos = room_pos })
        (delete_extremities e.prev s.extremities);
  prev_edges = put_edges e.event_id e.prev s.prev_edges;
  auth_edges = put_edges e.event_id e.auth s.auth_edges;
  metadata =
      put_metadata
        (record {
          event_id = e.event_id;
          room_pos = room_pos;
          depth = e.depth;
          event_type = e.event_type;
          state_key = e.state_key;
          sender_user_id = e.sender;
          redacts_event_id = e.redacts;
        })
        s.metadata;
  hot_events =
      put_hot_event (record { event_id = e.event_id; canonical_json = some e.committed })
        rewritten.0;
}

-- The transaction.
unfoldable pub commit : Platform → String → String → Admitted → RoomStore → Result (ℕ × RoomStore)
commit x room_id version e s = do
  (room_pos, runtime) ← reserve_room_pos room_id version s.runtime
  let state = next_state x e room_pos runtime s.state_entries
  members ← project_membership e room_pos s.members
  rewritten ← apply_redaction room_id version e (state.0).current_snapshot_id s state.1
  ok (room_pos, committed_store e room_pos state.0 members rewritten s)
