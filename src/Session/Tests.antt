-- ===== src/Session/Tests.antt =====
-- A session that is refreshed twice, and what logging out leaves of it.
use Prim.Native.String.{◌++◌ as append}
use matrix_flare.Prelude.{
  ℕ, String, false, none, some, [], ◌∷◌, ◌≡◌, refl, ◌≢◌, ◌↔◌, arith, eq_iff, str_eq, ok, trim,
  if◌then◌else◌, ◌==◌,
}
use matrix_flare.Json.{normalize_text}
use matrix_flare.Session.Tokens.{
  Crypto, KeyRing, find_secret, issue_opaque_user_token, get_user_id_hint, split_dot, is_user_id,
  after_colon,
}
use matrix_flare.Session.Rows.{
  at, Session, Principal, Device, remaining_lifetime, get_session, put_session,
  find_by_refresh_hash, find_by_grace_hash,
}
use matrix_flare.Session.Usable.{valid, is_session_usable, check_bound_session}
use matrix_flare.Session.Refresh.{
  Tokens, refreshed, unknown_token, UserState, issue_session_tokens, refuses, next_revision,
  rotated, rotate, select_session, refresh_session, logout_all_sessions, revoke_each,
}
use matrix_flare.Session.Resolve.{without_grace}
use matrix_flare.Session.Handouts.{Rotates, rotate_sound}
use matrix_flare.Session.Rotation.{replay_same, superseded_refused}
use matrix_flare.Session.Validity.{
  Acts, is_session_usable_iff, gives_tokens, no_refresh_after_logout_all,
}

-- Numerals, as far as the tests count.
abbrev numeral : ℕ → String
numeral n = if n == 0 then "0" else if n == 1 then "1" else "2"

-- A stand-in for `node:crypto`: a signature is the key, and a hash is the text behind an `h`.
abbrev crypto : Crypto
crypto = record {
  sign = λ key text. key;
  hash = λ text. append "h" text;
  encode = λ text. text;
  decode = λ text. text;
  show = λ n. numeral n;
}

abbrev ring : KeyRing
ring = record { active_version = "v1"; keys = ("v1", "secret") ∷ [] }

abbrev principal : Principal
principal = record { user_id = "@ada:h"; auth_version = 1; deactivated = false }

abbrev old_hash : String
old_hash = "hrtk.old"

abbrev session : Session
session = record {
  session_id = "sess";
  device_id = "dev";
  access_token_hash = none;
  refresh_token_hash = some old_hash;
  auth_version = 1;
  session_epoch = 0;
  updated_at = 0;
  expires_at = at 3600000;
  refresh_expires_at = at 2592000000;
  revoked_at = none;
  refresh_grace = none;
  refreshed_at = none;
  token_revision = none;
  token_root_key_version = none;
}

-- The code that the tests run.
session_code : Unit {0}
unfolding rotate refuses next_revision issue_session_tokens issue_opaque_user_token find_secret
    normalize_text trim remaining_lifetime is_session_usable check_bound_session
session_code = tt

abbrev access_1 : String
access_1 = "atk.@ada:h.v1.1.secret"

abbrev refresh_1 : String
refresh_1 = "rtk.@ada:h.v1.1.secret"

abbrev tokens_1 : Tokens
tokens_1 = record { access_token = access_1; refresh_token = refresh_1; root_key_version = "v1" }

abbrev session_1 : Session
session_1 = rotated crypto ring session old_hash 1000 1 tokens_1

rotate_once :
    rotate crypto ring principal 0 old_hash 1000 session
    ≡ ok (refreshed access_1 refresh_1 3600000, some session_1)
unfolding session_code
rotate_once = refl

different : (s t : String) → str_eq s t ≡ false → s ≢ t
different s t e same = ground (arith, eq_iff s t)

rotate_sound_example :
    Rotates crypto ring principal 0 old_hash 1000 session access_1 refresh_1 (some session_1)
rotate_sound_example =
    rotate_sound crypto ring principal 0 old_hash 1000 session access_1 refresh_1 3600000
      (some session_1) rotate_once

replay_same_example :
    (rotate crypto ring principal 0 old_hash 1500 session_1
      ≡ ok (refreshed access_1 refresh_1 3599500, none))
    × (rotate crypto ring principal 0 old_hash 1500 (without_grace 1400 session_1)
        ≡ ok (unknown_token, none))
replay_same_example =
    replay_same crypto ring principal 0 old_hash 1000 1500 1400 1500 session access_1 refresh_1
      3600000 session_1 rotate_once (different _ _ refl) (omega arith)

superseded_refused_example :
    rotate crypto ring principal 0 "hrtk.older" 2000 session_1 ≡ ok (unknown_token, none)
superseded_refused_example =
    superseded_refused crypto ring principal 0 old_hash "hrtk.older" 1000 2000 session access_1
      refresh_1 3600000 session_1 rotate_once (different _ _ refl) (different _ _ refl)

abbrev device : Device
device = record { deleted = false }

is_session_usable_iff_example :
    (is_session_usable (some session) (some principal) 0 (some device) 1000 ≡ valid)
    ↔ Acts session principal 0 device 1000
is_session_usable_iff_example = is_session_usable_iff session principal 0 device 1000

-- The session before the logout and its refresh after it.
abbrev user : UserState
user = record { sessions = session_1 ∷ []; quotas = [] }

abbrev user_out : UserState
user_out = record user { sessions = logout_all_sessions 2000 user.sessions }

refused_after_logout :
    refresh_session crypto ring none (some principal) 0 refresh_1 3000 user_out
    ≡ ok (unknown_token, user_out)
unfolding session_code refresh_session logout_all_sessions revoke_each get_session put_session
    get_user_id_hint split_dot is_user_id after_colon select_session find_by_refresh_hash
    find_by_grace_hash
refused_after_logout = refl

no_refresh_after_logout_all_example : gives_tokens unknown_token ≡ false
no_refresh_after_logout_all_example =
    no_refresh_after_logout_all crypto ring none (some principal) 0 refresh_1 2000 3000 user
      user_out unknown_token refused_after_logout
