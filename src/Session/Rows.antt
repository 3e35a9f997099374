-- ===== src/Session/Rows.antt =====
-- Durable-objects.mjs: the rows of the user actor that sessions rest on.
use matrix_flare.Prelude.{
  ℕ, String, Bool, true, false, Option, none, some, List, [], ◌∷◌, str_eq, if◌then◌else◌, leb, ◌-◌,
}

-- A timestamp column: null, a text that `Date.parse` reads, by its milliseconds, or one that it
-- does not read.
pub data Stamp : Type 0 where
  absent : Stamp
  at : ℕ → Stamp
  unreadable : Stamp

-- `toMillisOrInfinity(stamp) <= now`
abbrev pub is_past : Stamp → ℕ → Bool
is_past absent now = false
is_past (at n) now = leb n now
is_past unreadable now = true

-- `getRemainingTokenLifetimeMs`
unfoldable pub remaining_lifetime : Stamp → ℕ → ℕ
remaining_lifetime absent now = 0
remaining_lifetime (at n) now = n - now
remaining_lifetime unreadable now = 0

pub record Grace : Type 0 where
  pub refresh_token_hash : String
  pub refresh_expires_at : Stamp
  pub issued_at : Option ℕ

-- A row of `sessions`, with the fields of its record that the code reads.
pub record Session : Type 0 where
  pub session_id : String
  pub device_id : String
  pub access_token_hash : Option String
  pub refresh_token_hash : Option String
  pub auth_version : ℕ
  pub session_epoch : ℕ
  pub updated_at : ℕ
  pub expires_at : Stamp
  pub refresh_expires_at : Stamp
  pub revoked_at : Option ℕ
  pub refresh_grace : Option Grace
  pub refreshed_at : Option ℕ
  pub token_revision : Option ℕ
  pub token_root_key_version : Option String

pub record Principal : Type 0 where
  pub user_id : String
  pub auth_version : ℕ
  pub deactivated : Bool

pub record Device : Type 0 where
  pub deleted : Bool

-- `hash === text` of a column that may be null
abbrev pub has_hash : Option String → String → Bool
has_hash none h = false
has_hash (some g) h = str_eq g h

abbrev pub grace_hash : Option Grace → Option String
grace_hash none = none
grace_hash (some g) = some g.refresh_token_hash

-- `findSessionByHashedToken` on the refresh token
unfoldable pub find_by_refresh_hash : List Session → String → Option Session
find_by_refresh_hash [] h = none
find_by_refresh_hash (s ∷ ss) h =
    let rest = find_by_refresh_hash ss h in if has_hash s.refresh_token_hash h then some s else rest

-- `findSessionByGraceRefreshToken`
unfoldable pub find_by_grace_hash : List Session → String → Option Session
find_by_grace_hash [] h = none
find_by_grace_hash (s ∷ ss) h =
    let rest = find_by_grace_hash ss h in
    if has_hash (grace_hash s.refresh_grace) h then some s else rest

-- `sessions.get` and `sessions.put`: a row is replaced by its id.
unfoldable pub get_session : List Session → String → Option Session
get_session [] id = none
get_session (s ∷ ss) id =
    let rest = get_session ss id in if str_eq s.session_id id then some s else rest

unfoldable pub put_session : Session → List Session → List Session
put_session new [] = new ∷ []
put_session new (s ∷ ss) =
    let rest = put_session new ss in
    if str_eq s.session_id new.session_id then new ∷ ss else s ∷ rest
