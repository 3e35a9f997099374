-- ===== src/Session/Usable.antt =====
-- Durable-objects.mjs: `isSessionUsable` and `isSessionRefreshRecoverable`.
use matrix_flare.Prelude.{
  ℕ, String, Bool, true, false, ◌||◌, not, Option, none, some, if◌then◌else◌, ◌==◌, is_some,
}
use matrix_flare.Session.Rows.{Session, Principal, Device, is_past}

-- `!device || device.deleted_at`
abbrev pub is_gone : Option Device → Bool
is_gone none = true
is_gone (some d) = d.deleted

unfoldable pub is_session_refresh_recoverable :
    Session → Principal → (session_epoch : ℕ) → Option Device → ℕ → Bool
is_session_refresh_recoverable s p epoch device now =
    if p.deactivated || is_some s.revoked_at
    then false
    else if not (s.auth_version == p.auth_version) || not (s.session_epoch == epoch)
    then false
    else if is_gone device
    then false
    else not (is_past s.refresh_expires_at now)

pub data Check : Type 0 where
  valid : Check
  invalid : (code : String) → (soft_logout : Bool) → Check

unfoldable pub check_bound_session : Session → Principal → ℕ → Option Device → ℕ → Check
check_bound_session s p epoch device now =
    if p.deactivated
    then invalid "deactivated_account" false
    else if is_past s.expires_at now
    then invalid "expired_session" (is_session_refresh_recoverable s p epoch device now)
    else if not (s.auth_version == p.auth_version) || not (s.session_epoch == epoch)
    then invalid "expired_session" false
    else if is_gone device
    then invalid "unknown_session" false
    else valid

unfoldable pub is_session_usable : Option Session → Option Principal → ℕ → Option Device → ℕ → Check
is_session_usable none principal epoch device now = invalid "invalid_token" false
is_session_usable (some s) principal epoch device now =
    if is_some s.revoked_at then invalid "invalid_token" false else elim principal [
      | none ↦ invalid "unknown_session" false
      | some p ↦ check_bound_session s p epoch device now
    ]
