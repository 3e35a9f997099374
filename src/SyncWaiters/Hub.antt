-- ===== src/SyncWaiters/Hub.antt =====
-- Client-domain.mjs: the hub that syncs wait on until something happens to their user. A `Map` is a
-- list; an entry of the map of a user's waiters is the waiter itself, with its user and its key.
-- Timers and metrics are left out: a timer that runs out calls `resolve`.
use Prim.Native.String.{◌++◌ as append}
use matrix_flare.Prelude.{
  ℕ, suc, String, Bool, false, not, ◌&&◌, Option, none, some, List, [], ◌∷◌, length, filter, find,
  any, str_eq, if◌then◌else◌, ◌==◌, is_empty, Result, ok, ◌>>=◌,
}
use matrix_flare.Prelude.Int.{pos}
use matrix_flare.Json.{Json, normalize_string, normalize_integer}

-- A waiter with what its `resolve` has closed over. `number` tells waiters apart, as `===` does.
pub record Waiter : Type 0 where
  pub number : ℕ
  pub user : String
  pub key : String
  pub session_key : String

pub data Reason : Type 0 where
  superseded : Reason
  timeout : Reason
  cancelled : Reason
  wake : (user_stream_pos : ℕ) → Reason

-- The hub, with the numbers given out and the promises that have been resolved.
pub record Hub : Type 0 where
  pub waiters_by_user : List Waiter
  pub waiter_key_by_session : List (String × String)
  pub next_number : ℕ
  pub settled : List (ℕ × Reason)

unfoldable pub ensure_sync_waiter_hub : Option Hub → Hub
ensure_sync_waiter_hub (some hub) = hub
ensure_sync_waiter_hub none = record {
  waiters_by_user = [];
  waiter_key_by_session = [];
  next_number = 0;
  settled = [];
}

abbrev pub is_under : String → String → Waiter → Bool
is_under user key w = str_eq w.user user && str_eq w.key key

abbrev pub get_waiter : String → String → List Waiter → Option Waiter
get_waiter user key waiters = find (is_under user key) waiters

unfoldable pub remove_waiter : String → String → List Waiter → List Waiter
remove_waiter user key waiters = filter (λ w. not (is_under user key w)) waiters

unfoldable pub set_waiter : Waiter → List Waiter → List Waiter
set_waiter w [] = w ∷ []
set_waiter w (v ∷ vs) =
    let rest = set_waiter w vs in if is_under w.user w.key v then w ∷ vs else v ∷ rest

unfoldable pub get_session_key : String → List (String × String) → Option String
get_session_key session [] = none
get_session_key session ((s, key) ∷ more) =
    let rest = get_session_key session more in if str_eq s session then some key else rest

unfoldable pub remove_session : String → List (String × String) → List (String × String)
remove_session session [] = []
remove_session session ((s, key) ∷ more) =
    let rest = remove_session session more in if str_eq s session then rest else (s, key) ∷ rest

-- `map.get(session) === key`
abbrev pub leads_to : String → String → List (String × String) → Bool
leads_to session key sessions = elim (get_session_key session sessions) [
  | none ↦ false
  | some k ↦ str_eq k key
]

unfoldable pub is_settled : ℕ → List (ℕ × Reason) → Bool
is_settled n settled = any (λ entry. entry.0 == n) settled

-- The entry of a waiter is its own, and not that of a later one under the key.
abbrev pub is_same : Option Waiter → Waiter → Bool
is_same none w = false
is_same (some v) w = v.number == w.number

abbrev pub forget_session : Waiter → List (String × String) → List (String × String)
forget_session w sessions =
    if leads_to w.session_key w.key sessions
    then remove_session w.session_key sessions
    else sessions

-- `waiter.resolve(payload)`
unfoldable pub resolve : Waiter → Reason → Hub → Hub
resolve w reason hub = if is_settled w.number hub.settled then hub else record {
  waiters_by_user =
      if is_same (get_waiter w.user w.key hub.waiters_by_user) w
      then remove_waiter w.user w.key hub.waiters_by_user
      else hub.waiters_by_user;
  waiter_key_by_session = forget_session w hub.waiter_key_by_session;
  next_number = hub.next_number;
  settled = (w.number, reason) ∷ hub.settled;
}

-- The waiter of the session that a new one supersedes.
unfoldable pub existing_waiter : String → String → Hub → Option Waiter
existing_waiter user session_key hub =
    elim (get_session_key session_key hub.waiter_key_by_session) [
      | none ↦ none
      | some key ↦ if is_empty key then none else get_waiter user key hub.waiters_by_user
    ]

abbrev pub supersede : Option Waiter → Hub → Hub
supersede none hub = hub
supersede (some w) hub = resolve w superseded hub

abbrev pub session_key_of : String → String → String
session_key_of user session = append user (append "|" session)

abbrev pub new_waiter : String → String → String → Hub → Waiter
new_waiter user session key hub = record {
  number = hub.next_number;
  user = user;
  key = key;
  session_key = session_key_of user session;
}

abbrev pub add_waiter : Waiter → Hub → Hub
add_waiter w hub = record {
  waiters_by_user = set_waiter w hub.waiters_by_user;
  waiter_key_by_session =
      (w.session_key, w.key) ∷ remove_session w.session_key hub.waiter_key_by_session;
  next_number = suc hub.next_number;
  settled = hub.settled;
}

-- `registerSyncWaiter`, of names that have been normalized
unfoldable pub register_waiter : String → String → String → Hub → Waiter × Hub
register_waiter user session key hub =
    let cleared = supersede (existing_waiter user (session_key_of user session) hub) hub in
    (new_waiter user session key cleared, add_waiter (new_waiter user session key cleared) cleared)

unfoldable pub register_sync_waiter :
    Option Json → Option Json → Option Json → Option Json → Hub → Result (Waiter × Hub)
register_sync_waiter user_id session_id waiter_key timeout_ms hub = do
  user ← normalize_string user_id
  session ← normalize_string session_id
  key ← normalize_string waiter_key
  _ ← normalize_integer timeout_ms (pos 0)
  ok (register_waiter user session key hub)

abbrev pub of_user : String → List Waiter → List Waiter
of_user user waiters = filter (λ w. str_eq w.user user) waiters

-- One round of the loop of `wakeSyncWaiters`.
unfoldable pub wake_one : ℕ → Waiter → Hub → Hub
wake_one user_stream_pos w hub = resolve w (wake user_stream_pos) record {
  waiters_by_user = remove_waiter w.user w.key hub.waiters_by_user;
  waiter_key_by_session = forget_session w hub.waiter_key_by_session;
  next_number = hub.next_number;
  settled = hub.settled;
}

unfoldable pub wake_each : ℕ → List Waiter → Hub → Hub
wake_each user_stream_pos [] hub = hub
wake_each user_stream_pos (w ∷ ws) hub =
    wake_each user_stream_pos ws (wake_one user_stream_pos w hub)

-- `wakeSyncWaiters`: how many waiters were woken, and the hub after it
unfoldable pub wake_sync_waiters : String → ℕ → Hub → ℕ × Hub
wake_sync_waiters user user_stream_pos hub =
    let waiters = of_user user hub.waiters_by_user in
    (length waiters, wake_each user_stream_pos waiters hub)
