-- ===== src/Session/Validity.antt =====
-- Which sessions may act, and what logging out leaves of them.
use matrix_flare.Prelude.{
  ℕ, String, Bool, true, false, ◌&&◌, ◌||◌, not, Option, none, some, List, [], ◌∷◌, ◌≡◌, refl, ◌↔◌,
  ◌⊎◌, inl, inr, arith, str_eq, eq_iff, if◌then◌else◌, is_some, Bool-cases, Option-cases, Result,
  throws, ◌>>=◌, Result-cases, is_empty, ok,
}
use matrix_flare.Json.{Json}
use matrix_flare.AbuseGuard.Window.{Verdict, pass, limited, Store}
use matrix_flare.Session.Tokens.{Crypto, KeyRing, get_user_id_hint}
use matrix_flare.Session.Rows.{Session, Principal, Device, is_past, get_session, put_session}
use matrix_flare.Session.Usable.{valid, is_session_usable, check_bound_session}
use matrix_flare.Session.Refresh.{
  refuses, rotate, rotate_in, select_session, UserState, refresh_session, Response, refreshed,
  rate_limited, unknown_token, logout_all_sessions, revoke_each,
}

-- What a session that may act has.
pub record Acts (s : Session) (p : Principal) (epoch : ℕ) (d : Device) (now : ℕ) : Type 0 where
  pub live : s.revoked_at ≡ none
  pub active : p.deactivated ≡ false
  pub unexpired : is_past s.expires_at now ≡ false
  pub same_auth : s.auth_version ≡ p.auth_version
  pub same_epoch : s.session_epoch ≡ epoch
  pub kept : d.deleted ≡ false

-- A session of a known principal and device may act if and only if it is not revoked, the account is
-- not deactivated, the session has not expired, it is of the principal's authentication version and
-- of the current epoch, and the device is not deleted.
pub is_session_usable_iff :
    (s : Session) (p : Principal) (epoch : ℕ) (d : Device) (now : ℕ)
    → (is_session_usable (some s) (some p) epoch (some d) now ≡ valid) ↔ Acts s p epoch d now
unfolding is_session_usable check_bound_session
is_session_usable_iff s p epoch d now = (
  λ e. record {
    live = ground arith;
    active = ground arith;
    unexpired = ground arith;
    same_auth = ground arith;
    same_epoch = ground arith;
    kept = ground arith;
  },
  λ a. rw (a.live, a.active, a.unexpired, a.same_auth, a.same_epoch, a.kept) (ground arith),
)

get-put :
    (new : Session) (ss : List Session) (id : String)
    → get_session (put_session new ss) id
      ≡ (if str_eq new.session_id id then some new else get_session ss id)
unfolding get_session put_session
get-put new [] id = refl
get-put new (s ∷ ss) id =
    let rest = get-put new ss id in
    ground
      (arith, eq_iff s.session_id new.session_id, eq_iff new.session_id id, eq_iff s.session_id id)

-- Whether a loop over the rows still has to revoke a session of this id.
pending : String → List Session → Bool
pending id [] = false
pending id (s ∷ ss) = (str_eq s.session_id id && not (is_some s.revoked_at)) || pending id ss

-- The table's session of an id is revoked already, or its turn is to come.
Covered : String → List Session → List Session → Type 0
Covered id rows table =
    (s : Session)
    → get_session table id ≡ some s
    → (is_some s.revoked_at ≡ true) ⊎ (pending id rows ≡ true)

all-Covered : (id : String) (ss : List Session) → Covered id ss ss
unfolding Covered get_session pending
all-Covered id [] s e = cc
all-Covered id (r ∷ rs) s e = let rest = all-Covered id rs s in ground (arith)

revoke_one-covers :
    (now : ℕ) (id : String) (r : Session) (rows table : List Session)
    → Covered id (r ∷ rows) table
    → Covered id rows (
        if is_some r.revoked_at
        then table
        else put_session (record r { revoked_at = some now; updated_at = now }) table)
unfolding Covered pending
revoke_one-covers now id r rows table covered s e = elim (Bool-cases (is_some r.revoked_at)) [
  | inl revoked ↦ let e' = rw revoked at e in let c = covered s e' in ground arith
  | inr live ↦
      let e' =
        rw (live, get-put (record r { revoked_at = some now; updated_at = now }) table id) at e in
      elim (Bool-cases (str_eq r.session_id id)) [
        | inl same ↦ let e'' = rw same at e' in inl (cc)
        | inr other ↦ let e'' = rw other at e' in let c = covered s e'' in ground arith
      ]
]

revoke_each-revokes :
    (now : ℕ) (id : String) (rows table : List Session)
    → Covered id rows table
    → (s : Session) → get_session (revoke_each now rows table) id ≡ some s
    → is_some s.revoked_at ≡ true
unfolding Covered revoke_each pending
revoke_each-revokes now id [] table covered s e = elim (covered s e) [
  | inl done ↦ done
  | inr none_left ↦ cc
]
revoke_each-revokes now id (r ∷ rows) table covered s e =
    revoke_each-revokes now id rows _ (revoke_one-covers now id r rows table covered) s e

revoke_each-keeps :
    (now : ℕ) (id : String) (rows table : List Session)
    → is_some (get_session table id) ≡ true
    → is_some (get_session (revoke_each now rows table) id) ≡ true
unfolding revoke_each
revoke_each-keeps now id [] table e = e
revoke_each-keeps now id (r ∷ rows) table e = revoke_each-keeps now id rows _ (
    let put = get-put (record r { revoked_at = some now; updated_at = now }) table id in
    ground arith)

refuses_revoked :
    (p : Principal) (epoch : ℕ) (h : String) (now : ℕ) (s : Session)
    → is_some s.revoked_at ≡ true
    → refuses p epoch h now s ≡ true
unfolding refuses
refuses_revoked p epoch h now s revoked = rw revoked refl

-- No call of the transaction hands out tokens for a table that `logoutAllSessions` has left.
pub no_rotation_after_logout_all :
    (x : Crypto) (ring : KeyRing) (p : Principal) (epoch : ℕ) (h : String) (now later : ℕ)
    (id : String) (u : UserState)
    → let out : UserState = record u { sessions = logout_all_sessions now u.sessions } in
      rotate_in x ring p epoch h later id out ≡ ok (unknown_token, out)
unfolding rotate_in logout_all_sessions rotate
no_rotation_after_logout_all x ring p epoch h now later id u =
    elim (Option-cases (get_session (revoke_each now u.sessions u.sessions) id)) [
      | inl none_left ↦ rw (none_left, rotate_in) refl
      | inr (s, found) ↦
          let revoked =
            revoke_each-revokes now id u.sessions u.sessions (all-Covered id u.sessions) s found in
          let refused : refuses p epoch h later s ≡ true =
            refuses_revoked p epoch h later s revoked in
          rw (found, rotate_in, refused) refl
    ]

-- Whether a response hands out tokens.
pub gives_tokens : Response → Bool
gives_tokens (refreshed access refresh ttl) = true
gives_tokens unknown_token = false
gives_tokens (rate_limited wait) = false

-- The part of `refreshSession` behind the quota.
quota_then_rotate :
    (x : Crypto) (ring : KeyRing) (p : Principal) (epoch : ℕ) (h : String) (now later : ℕ)
    (id : String) (u u' : UserState) (r : Response) (q : Result (Verdict × Store))
    → (q >>= λ quota. elim (quota.0) as (λ _. Result (Response × UserState)) [
      | limited wait ↦ ok (
        rate_limited wait,
        record { sessions = logout_all_sessions now u.sessions; quotas = quota.1 },
      )
      | pass ↦
          rotate_in x ring p epoch h later id
            (record { sessions = logout_all_sessions now u.sessions; quotas = quota.1 })
    ])
      ≡ ok (r, u')
    → gives_tokens r ≡ false
unfolding gives_tokens
quota_then_rotate x ring p epoch h now later id u u' r (ok (pass, store)) e =
    let same =
      no_rotation_after_logout_all x ring p epoch h now later id (record u { quotas = store }) in
    cc
quota_then_rotate x ring p epoch h now later id u u' r (ok (limited wait, store)) e = cc
quota_then_rotate x ring p epoch h now later id u u' r (throws error) e = cc

-- After `logoutAllSessions`, a refresh that returns hands out no tokens, whatever token is presented,
-- at any time.
pub no_refresh_after_logout_all :
    (x : Crypto) (ring : KeyRing) (overrides : Option Json) (p : Option Principal) (epoch : ℕ)
    (token : String) (now later : ℕ) (u u' : UserState) (r : Response)
    → refresh_session x ring overrides p epoch token later
        (record u { sessions = logout_all_sessions now u.sessions })
      ≡ ok (r, u')
    → gives_tokens r ≡ false
unfolding refresh_session gives_tokens
no_refresh_after_logout_all x ring overrides p epoch token now later u u' r e =
    elim (Bool-cases (is_empty token)) [
      | inl no_token ↦ let e' = rw no_token at e in cc
      | inr some_token ↦
          let e1 = rw some_token at e in
          elim (Result-cases (get_user_id_hint x "rtk" token)) [
            | inl (_, no_hint) ↦ let e2 = rw no_hint at e1 in cc
            | inr (user, hint) ↦
                let e2 = rw hint at e1 in
                elim (Option-cases p) [
                  | inl nobody ↦ let e3 = rw nobody at e2 in cc
                  | inr (q, known) ↦
                      let e3 = rw known at e2 in
                      elim (Bool-cases (not (str_eq q.user_id user) || q.deactivated)) [
                        | inl refused ↦ let e4 = rw refused at e3 in cc
                        | inr permitted ↦
                            let e4 = rw permitted at e3 in
                            elim (Option-cases (
                              select_session x ring q epoch (x.hash token) later
                                (logout_all_sessions now u.sessions))) [
                                  | inl none_found ↦ let e5 = rw none_found at e4 in cc
                                  | inr (s, found) ↦
                                      quota_then_rotate x ring q epoch (x.hash token) now later
                                        s.session_id u u' r _ (rw found at e4)
                                ]
                      ]
                ]
          ]
    ]
