-- ===== src/Session/Refresh.antt =====
-- Durable-objects.mjs: `refreshSession`, `logoutSession` and `logoutAllSessions` of `UserDO`.
use Prim.Native.String.{◌++◌ as append}
use matrix_flare.Prelude.{
  ℕ, ◌+◌, String, Bool, ◌&&◌, ◌||◌, not, Option, none, some, List, [], ◌∷◌, str_eq, if◌then◌else◌,
  ◌==◌, is_some, or_else, or_option, is_empty, Result, ok, throws, ◌>>=◌,
}
use matrix_flare.Json.{Json}
use matrix_flare.AbuseGuard.Window.{pass, limited, Store}
use matrix_flare.AbuseGuard.Enforce.{enforce_semantic_quota}
use matrix_flare.Session.Tokens.{Crypto, KeyRing, issue_opaque_user_token, get_user_id_hint}
use matrix_flare.Session.Rows.{
  Stamp, at, is_past, remaining_lifetime, Session, Principal, has_hash, grace_hash,
  find_by_refresh_hash, find_by_grace_hash, get_session, put_session,
}

abbrev pub access_token_ttl_ms : ℕ
access_token_ttl_ms = 3600000

abbrev pub refresh_token_ttl_ms : ℕ
refresh_token_ttl_ms = 2592000000

pub record Tokens : Type 0 where
  pub access_token : String
  pub refresh_token : String
  pub root_key_version : String

pub data Response : Type 0 where
  refreshed : (access_token refresh_token : String) → (expires_in_ms : ℕ) → Response
  unknown_token : Response
  rate_limited : (retry_after_ms : ℕ) → Response

-- The expiry that holds for the presented hash: that of the grace record, where it is this one.
abbrev pub presented_expiry : Session → String → Stamp
presented_expiry s h = elim s.refresh_grace [
  | none ↦ s.refresh_expires_at
  | some g ↦ if str_eq g.refresh_token_hash h then g.refresh_expires_at else s.refresh_expires_at
]

-- Whether the presented hash is the session's own, and whether it is the one before.
abbrev pub is_current : String → Session → Bool
is_current h s = has_hash s.refresh_token_hash h

abbrev pub is_prior : String → Session → Bool
is_prior h s = has_hash (grace_hash s.refresh_grace) h

-- The test by which the transaction refuses.
unfoldable pub refuses : Principal → ℕ → String → ℕ → Session → Bool
refuses p epoch h now s =
    is_some s.revoked_at
    || not (s.auth_version == p.auth_version)
    || not (s.session_epoch == epoch)
    || (not (is_current h s) && not (is_prior h s))
    || is_past (presented_expiry s h) now

unfoldable pub next_revision : String → Session → ℕ
next_revision h s =
    if is_current h s then or_else s.token_revision 0 + 1 else or_else s.token_revision 0

-- The part of the user actor's storage that refreshing reads and writes.
pub record UserState : Type 0 where
  pub sessions : List Session
  pub quotas : Store

module _ (x : Crypto) (ring : KeyRing) where
  -- `issueSessionTokens`
  unfoldable pub issue_session_tokens : String → String → ℕ → Option String → Result Tokens
  issue_session_tokens user session revision version? = do
    let version = or_else version? ring.active_version
    access ← issue_opaque_user_token x "atk" user ring session revision (some version)
    refresh ← issue_opaque_user_token x "rtk" user ring session revision (some version)
    ok (record { access_token = access; refresh_token = refresh; root_key_version = version })

  -- The row that a rotation writes.
  abbrev pub rotated : Session → String → ℕ → ℕ → Tokens → Session
  rotated s presented now revision tokens = record s {
    access_token_hash = some (x.hash tokens.access_token);
    refresh_token_hash = some (x.hash tokens.refresh_token);
    updated_at = now;
    expires_at = at (now + access_token_ttl_ms);
    refresh_expires_at = at (now + refresh_token_ttl_ms);
    refresh_grace = some (record {
      refresh_token_hash = presented;
      refresh_expires_at = at (now + refresh_token_ttl_ms);
      issued_at = some now;
    });
    refreshed_at = some now;
    token_revision = some revision;
    token_root_key_version = some tokens.root_key_version;
  }

  -- The body of the transaction, on the session as it is then. A row to be written, or none.
  unfoldable pub rotate : Principal → ℕ → String → ℕ → Session → Result (Response × Option Session)
  rotate p epoch h now s =
      if refuses p epoch h now s
      then ok (unknown_token, none)
      else (issue_session_tokens p.user_id s.session_id (next_revision h s) s.token_root_key_version
          >>= λ tokens.
              if is_prior h s
              then ok (
                refreshed tokens.access_token tokens.refresh_token
                    (remaining_lifetime s.expires_at now),
                none,
              )
              else ok (
                refreshed tokens.access_token tokens.refresh_token
                    (remaining_lifetime (at (now + access_token_ttl_ms)) now),
                some (rotated s h now (next_revision h s) tokens),
              ))

  -- The checks in front of the transaction: the session that the presented hash belongs to.
  unfoldable pub select_session : Principal → ℕ → String → ℕ → List Session → Option Session
  select_session p epoch h now sessions =
      let direct = find_by_refresh_hash sessions h in
      elim (or_option direct (find_by_grace_hash sessions h)) [
        | none ↦ none
        | some s ↦
            let expiry = if is_some direct then s.refresh_expires_at else presented_expiry s h in
            if is_some s.revoked_at
              || is_past expiry now
              || not (s.auth_version == p.auth_version)
              || not (s.session_epoch == epoch)
            then none
            else some s
      ]

  -- The transaction, on the table.
  unfoldable pub rotate_in :
      Principal → ℕ → String → ℕ → String → UserState → Result (Response × UserState)
  rotate_in p epoch h now id u = elim (get_session u.sessions id) [
    | none ↦ ok (unknown_token, u)
    | some s ↦ rotate p epoch h now s >>= λ result. elim (result.1) [
      | none ↦ ok (result.0, u)
      | some new ↦ ok (result.0, record u { sessions = put_session new u.sessions })
    ]
  ]

  -- `refreshSession`
  unfoldable pub refresh_session :
      Option Json → Option Principal → ℕ → String → ℕ → UserState → Result (Response × UserState)
  refresh_session overrides principal epoch token now u =
      if is_empty token then ok (unknown_token, u) else elim (get_user_id_hint x "rtk" token) [
        | throws e ↦ ok (unknown_token, u)
        | ok user ↦ elim principal [
          | none ↦ ok (unknown_token, u)
          | some p ↦
              if not (str_eq p.user_id user) || p.deactivated
              then ok (unknown_token, u)
              else elim (select_session p epoch (x.hash token) now u.sessions) [
                | none ↦ ok (unknown_token, u)
                | some s ↦
                    enforce_semantic_quota overrides "userdo_refresh"
                      (append "refresh:" s.session_id) now u.quotas
                    >>= λ quota. elim (quota.0) [
                      | limited wait ↦ ok (rate_limited wait, record u { quotas = quota.1 })
                      | pass ↦
                          rotate_in p epoch (x.hash token) now s.session_id
                            (record u { quotas = quota.1 })
                    ]
              ]
        ]
      ]

-- `logoutSession`, of a session id that is a text and not empty
unfoldable pub logout_session : String → ℕ → List Session → List Session
logout_session id now sessions = elim (get_session sessions id) [
  | none ↦ sessions
  | some s ↦ put_session (record s { revoked_at = some now; updated_at = now }) sessions
]

-- The loop of `logoutAllSessions`, over the rows that the list held at its start.
unfoldable pub revoke_each : ℕ → List Session → List Session → List Session
revoke_each now [] sessions = sessions
revoke_each now (s ∷ ss) sessions = revoke_each now ss (
    if is_some s.revoked_at
    then sessions
    else put_session (record s { revoked_at = some now; updated_at = now }) sessions)

unfoldable pub logout_all_sessions : ℕ → List Session → List Session
logout_all_sessions now sessions = revoke_each now sessions sessions
