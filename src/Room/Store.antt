-- ===== src/Room/Store.antt =====
-- Durable-objects.mjs: the tables of the room that admitting an event reads and writes. A `put`
-- replaces the row of its key, or adds one.
use matrix_flare.Prelude.{
  ℕ, String, Bool, ◌&&◌, Option, none, some, List, [], ◌∷◌, map, str_eq, if◌then◌else◌, Error,
}
use matrix_flare.AbuseGuard.Window.{Store}
use matrix_flare.Room.State.{StateEntry, HotEvent, EventTables}

-- The row of `room_runtime_state`.
pub record Runtime : Type 0 where
  pub room_id : Option String
  pub room_version : Option String
  pub next_room_pos : ℕ
  pub current_snapshot_id : Option String

pub record Extremity : Type 0 where
  pub event_id : String
  pub room_pos : ℕ

-- A row of `event_metadata`, with the columns that the models read.
pub record Metadata : Type 0 where
  pub event_id : String
  pub room_pos : ℕ
  pub depth : ℕ
  pub event_type : String
  pub state_key : Option String
  pub sender_user_id : String
  pub redacts_event_id : Option String

-- A row of `membership_projection`, without what it repeats of a profile.
pub record Member : Type 0 where
  pub user_id : String
  pub membership : String
  pub event_id : String
  pub room_pos : ℕ
  pub membership_visibility_class : Option String

-- A row of `client_txn_dedupe`: `succeeded` with the event, or `failed` with the error.
pub data Outcome : Type 0 where
  succeeded : (event_id : Option String) → Outcome
  failed : (error : Error) → Outcome

pub record Dedupe : Type 0 where
  pub txn_dedupe_key : String
  pub request_fingerprint : String
  pub outcome : Outcome

pub record RoomStore : Type 0 where
  pub runtime : Runtime
  pub extremities : List Extremity
  pub prev_edges : List (String × String)
  pub auth_edges : List (String × String)
  pub state_entries : List StateEntry
  pub members : List Member
  pub metadata : List Metadata
  pub hot_events : List HotEvent
  pub dedupe : List Dedupe
  pub quotas : Store

-- The tables as authorization reads them.
unfoldable pub tables_of : RoomStore → EventTables
tables_of r = record { metadata_ids = map (λ m. m.event_id) r.metadata; hot_events = r.hot_events }

unfoldable pub get_metadata : String → List Metadata → Option Metadata
get_metadata id [] = none
get_metadata id (m ∷ ms) =
    let rest = get_metadata id ms in if str_eq m.event_id id then some m else rest

unfoldable pub put_metadata : Metadata → List Metadata → List Metadata
put_metadata new [] = new ∷ []
put_metadata new (m ∷ ms) =
    let rest = put_metadata new ms in if str_eq m.event_id new.event_id then new ∷ ms else m ∷ rest

unfoldable pub put_member : Member → List Member → List Member
put_member new [] = new ∷ []
put_member new (m ∷ ms) =
    let rest = put_member new ms in if str_eq m.user_id new.user_id then new ∷ ms else m ∷ rest

unfoldable pub put_hot_event : HotEvent → List HotEvent → List HotEvent
put_hot_event new [] = new ∷ []
put_hot_event new (e ∷ es) =
    let rest = put_hot_event new es in if str_eq e.event_id new.event_id then new ∷ es else e ∷ rest

unfoldable pub get_dedupe : String → List Dedupe → Option Dedupe
get_dedupe key [] = none
get_dedupe key (d ∷ ds) =
    let rest = get_dedupe key ds in if str_eq d.txn_dedupe_key key then some d else rest

unfoldable pub put_dedupe : Dedupe → List Dedupe → List Dedupe
put_dedupe new [] = new ∷ []
put_dedupe new (d ∷ ds) =
    let rest = put_dedupe new ds in
    if str_eq d.txn_dedupe_key new.txn_dedupe_key then new ∷ ds else d ∷ rest

unfoldable pub delete_extremity : String → List Extremity → List Extremity
delete_extremity id [] = []
delete_extremity id (e ∷ es) =
    let rest = delete_extremity id es in if str_eq e.event_id id then rest else e ∷ rest

unfoldable pub put_extremity : Extremity → List Extremity → List Extremity
put_extremity new [] = new ∷ []
put_extremity new (e ∷ es) =
    let rest = put_extremity new es in if str_eq e.event_id new.event_id then new ∷ es else e ∷ rest

-- An edge is its own key.
unfoldable pub put_edge : String → String → List (String × String) → List (String × String)
put_edge a b [] = (a, b) ∷ []
put_edge a b ((c, d) ∷ es) =
    let rest = put_edge a b es in if str_eq c a && str_eq d b then (c, d) ∷ es else (c, d) ∷ rest

-- A state row's key: the snapshot, the type and the state key.
abbrev pub same_state_key : StateEntry → StateEntry → Bool
same_state_key a b =
    str_eq a.snapshot_id b.snapshot_id
    && str_eq a.event_type b.event_type
    && str_eq a.state_key b.state_key

unfoldable pub put_state_entry : StateEntry → List StateEntry → List StateEntry
put_state_entry new [] = new ∷ []
put_state_entry new (e ∷ es) =
    let rest = put_state_entry new es in if same_state_key e new then new ∷ es else e ∷ rest
