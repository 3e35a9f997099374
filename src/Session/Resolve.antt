-- ===== src/Session/Resolve.antt =====
-- Durable-objects.mjs: `resolveSession` of `UserDO`, which a request with an access token goes through.
use matrix_flare.Prelude.{
  ℕ, String, Option, none, some, List, [], ◌∷◌, if◌then◌else◌, is_some, is_empty,
}
use matrix_flare.Session.Rows.{Session, Principal, Device, has_hash, get_session, put_session}
use matrix_flare.Session.Usable.{Check, valid, is_session_usable}

-- `findSessionByHashedToken` on the access token
unfoldable pub find_by_access_hash : List Session → String → Option Session
find_by_access_hash [] h = none
find_by_access_hash (s ∷ ss) h =
    let rest = find_by_access_hash ss h in if has_hash s.access_token_hash h then some s else rest

-- The row that the first use of a new access token writes.
abbrev pub without_grace : ℕ → Session → Session
without_grace now s = record s { refresh_grace = none; updated_at = now }

-- The transaction of `resolveSession`: the grace ends, where the row still has one.
abbrev pub end_grace : ℕ → Option Session → List Session → List Session
end_grace now none sessions = sessions
end_grace now (some s) sessions =
    if is_some s.refresh_grace then put_session (without_grace now s) sessions else sessions

abbrev pub device_of : (String → Option Device) → Option Session → Option Device
device_of devices none = none
device_of devices (some s) = if is_empty s.device_id then none else devices s.device_id

-- The session of a valid token is used: its grace ends.
abbrev pub use_session : ℕ → Check → Option Session → List Session → List Session
use_session now valid (some s) sessions =
    if is_some s.refresh_grace
    then end_grace now (get_session sessions s.session_id) sessions
    else sessions
use_session now _ _ sessions = sessions

-- `resolveSession`, of an access token by its hash. A usable session is the one that was found. The
-- user id that it puts into the actor's runtime state, where that has none, is left out.
unfoldable pub resolve_session :
    Option Principal
    → ℕ
    → (String → Option Device)
    → String
    → ℕ
    → List Session
    → (Check × Option Session) × List Session
resolve_session principal epoch devices hash now sessions =
    let found = find_by_access_hash sessions hash in
    let check = is_session_usable found principal epoch (device_of devices found) now in
    ((check, found), use_session now check found sessions)
