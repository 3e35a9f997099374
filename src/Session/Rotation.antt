-- ===== src/Session/Rotation.antt =====
-- What rotating a refresh token guarantees.
use matrix_flare.Prelude.{
  not-eq, subst, ℕ, ◌+◌, ◌<◌, String, true, false, Option, none, some, ◌≡◌, refl, ◌≢◌, ◌⊎◌, inl,
  inr, arith, str_eq, eq_refl, or_else, ◌-◌, ok, >>=-eq-ok, Bool-cases, sym, ◌∙◌, ap,
}
use matrix_flare.Session.Tokens.{Crypto, KeyRing, issue_opaque_user_token}
use matrix_flare.Session.Rows.{is_past, remaining_lifetime, Session, Principal}
use matrix_flare.Session.Resolve.{without_grace}
use matrix_flare.Session.Refresh.{
  Tokens, refreshed, unknown_token, issue_session_tokens, rotated, presented_expiry, is_current,
  is_prior, refuses, next_revision, rotate, refresh_token_ttl_ms, access_token_ttl_ms,
}

-- What the transaction asks of the session: it is in force, and the hash presented is its own or
-- the one before, not yet expired.
pub record Accepts (p : Principal) (epoch : ℕ) (h : String) (now : ℕ) (s : Session) : Type 0 where
  pub live : s.revoked_at ≡ none
  pub same_auth : s.auth_version ≡ p.auth_version
  pub same_epoch : s.session_epoch ≡ epoch
  pub presented : (is_current h s ≡ true) ⊎ (is_prior h s ≡ true)
  pub unexpired : is_past (presented_expiry s h) now ≡ false

Accepts-of :
    (p : Principal) (epoch : ℕ) (h : String) (now : ℕ) (s : Session)
    → refuses p epoch h now s ≡ false
    → Accepts p epoch h now s
unfolding refuses
Accepts-of p epoch h now s e = record {
  live = ground arith;
  same_auth = ground arith;
  same_epoch = ground arith;
  presented = ground arith;
  unexpired = ground arith;
}

module _ (x : Crypto) (ring : KeyRing) where
  -- The tokens are those of the version that they name.
  issue_again :
      (user id : String) (revision : ℕ) (version? : Option String) (tokens : Tokens)
      → issue_session_tokens x ring user id revision version? ≡ ok tokens
      → issue_session_tokens x ring user id revision (some tokens.root_key_version) ≡ ok tokens
  unfolding issue_session_tokens
  issue_again user id revision version? tokens e =
      let (access, e1, k) =
        >>=-eq-ok
          (issue_opaque_user_token x "atk" user ring id revision
            (some (or_else version? ring.active_version)))
          _ e in
      let (refresh, e2, k2) =
        >>=-eq-ok
          (issue_opaque_user_token x "rtk" user ring id revision
            (some (or_else version? ring.active_version)))
          _ k in
      let same : or_else version? ring.active_version ≡ tokens.root_key_version = cc in
      ap (λ v. issue_session_tokens x ring user id revision (some v)) (sym same) ∙ e

  -- What a refresh that hands out tokens has done.
  abbrev pub Inverts :
      Principal → ℕ → String → ℕ → Session → String → String → Option Session → Type 0
  Inverts p epoch h now s access refresh written =
      (tokens : Tokens) × Accepts p epoch h now s
      × (issue_session_tokens x ring p.user_id s.session_id (next_revision h s)
            s.token_root_key_version
          ≡ ok tokens)
      × (access ≡ tokens.access_token)
      × (refresh ≡ tokens.refresh_token)
      × (((is_prior h s ≡ true) × (written ≡ none))
          ⊎ ((is_prior h s ≡ false)
              × (written ≡ some (rotated x ring s h now (next_revision h s) tokens))))

  pub rotate-Inverts :
      (p : Principal) (epoch : ℕ) (h : String) (now : ℕ) (s : Session) (access refresh : String)
      (ttl : ℕ) (written : Option Session)
      → rotate x ring p epoch h now s ≡ ok (refreshed access refresh ttl, written)
      → Inverts p epoch h now s access refresh written
  unfolding rotate
  rotate-Inverts p epoch h now s access refresh ttl written e =
      elim (Bool-cases (refuses p epoch h now s)) [
        | inl r ↦ let e' = rw r at e in cc
        | inr r ↦
            let e' = rw r at e in
            let (tokens, issued, k) =
              >>=-eq-ok
                (issue_session_tokens x ring p.user_id s.session_id (next_revision h s)
                  s.token_root_key_version)
                _ e' in
            elim (Bool-cases (is_prior h s)) [
              | inl prior ↦
                  let k' = rw prior at k in
                  (tokens, Accepts-of p epoch h now s r, issued, cc, cc, inl (prior, cc))
              | inr new ↦
                  let k' = rw new at k in
                  (tokens, Accepts-of p epoch h now s r, issued, cc, cc, inr (new, cc))
            ]
      ]

  -- The row that a rotation leaves, named by what it was called with.
  Leaves : Principal → ℕ → String → ℕ → Session → String → String → Session → Type 0
  Leaves p epoch h now s access refresh new =
      (tokens : Tokens) × Accepts p epoch h now s
      × (issue_session_tokens x ring p.user_id s.session_id (next_revision h s)
            (some tokens.root_key_version)
          ≡ ok tokens)
      × (access ≡ tokens.access_token)
      × (refresh ≡ tokens.refresh_token)
      × (new ≡ rotated x ring s h now (next_revision h s) tokens)

  rotate-Leaves :
      (p : Principal) (epoch : ℕ) (h : String) (now : ℕ) (s : Session) (access refresh : String)
      (ttl : ℕ) (new : Session)
      → rotate x ring p epoch h now s ≡ ok (refreshed access refresh ttl, some new)
      → Leaves p epoch h now s access refresh new
  unfolding Leaves
  rotate-Leaves p epoch h now s access refresh ttl new e =
      let (tokens, accepts, issued, e1, e2, how) =
        rotate-Inverts p epoch h now s access refresh ttl (some new) e in
      (
        tokens,
        accepts,
        issue_again _ _ _ _ _ issued,
        e1,
        e2,
        (elim how [ inl (_, none_written) ↦ cc | inr (_, written) ↦ cc ]),
      )

  -- What the transaction decides on the row that a rotation has left.
  rotated-Accepts :
      (p : Principal) (epoch : ℕ) (h : String) (now later : ℕ) (s : Session) (tokens : Tokens)
      (revision : ℕ)
      → Accepts p epoch h now s
      → later < now + refresh_token_ttl_ms
      → refuses p epoch h later (rotated x ring s h now revision tokens) ≡ false
  unfolding refuses
  rotated-Accepts p epoch h now later s tokens revision a in_time =
      rw (a.live, a.same_auth, a.same_epoch, eq_refl h) (ground arith)

  rotated-revision :
      (h : String) (now : ℕ) (s : Session) (tokens : Tokens) (revision : ℕ)
      → str_eq (x.hash tokens.refresh_token) h ≡ false
      → next_revision h (rotated x ring s h now revision tokens) ≡ revision
  unfolding next_revision
  rotated-revision h now s tokens revision e = rw e refl

  rotated-refuses :
      (p : Principal) (epoch : ℕ) (h old : String) (now later : ℕ) (s : Session) (tokens : Tokens)
      (revision : ℕ)
      → str_eq h old ≡ false
      → str_eq (x.hash tokens.refresh_token) old ≡ false
      → refuses p epoch old later (rotated x ring s h now revision tokens) ≡ true
  unfolding refuses
  rotated-refuses p epoch h old now later s tokens revision e f = rw (e, f) (ground arith)

  -- Once the grace has ended, the presented hash is refused.
  ended-refuses :
      (p : Principal) (epoch : ℕ) (h : String) (now later used : ℕ) (s : Session) (tokens : Tokens)
      (revision : ℕ)
      → str_eq (x.hash tokens.refresh_token) h ≡ false
      → refuses p epoch h later (without_grace used (rotated x ring s h now revision tokens)) ≡ true
  unfolding refuses
  ended-refuses p epoch h now later used s tokens revision e = rw e (ground arith)

  -- On the row that a rotation has left, where its new refresh token has another hash: the old refresh
  -- token, presented again before the new expiry, yields the same two tokens with what is left of
  -- their time, and nothing is written; and on the row as the first use of the new access token leaves
  -- it, at any time, the old refresh token is refused, and nothing is written.
  pub replay_same :
      (p : Principal) (epoch : ℕ) (h : String) (now later used any : ℕ) (s : Session)
      (access refresh : String) (ttl : ℕ) (new : Session)
      → rotate x ring p epoch h now s ≡ ok (refreshed access refresh ttl, some new)
      → x.hash refresh ≢ h
      → later < now + refresh_token_ttl_ms
      → (rotate x ring p epoch h later new
          ≡ ok (refreshed access refresh (now + access_token_ttl_ms - later), none))
        × (rotate x ring p epoch h any (without_grace used new) ≡ ok (unknown_token, none))
  unfolding Leaves rotate remaining_lifetime
  replay_same p epoch h now later used any s access refresh ttl new e fresh in_time =
      let (tokens, accepts, issued, e1, e2, written) =
        rotate-Leaves p epoch h now s access refresh ttl new e in
      let kept = not-eq _ _ (λ same. fresh (ap x.hash e2 ∙ same)) in
      (
        subst
            (λ n.
              rotate x ring p epoch h later n
              ≡ ok (refreshed access refresh (now + access_token_ttl_ms - later), none))
            (sym written)
            (rw
              (
                rotate,
                rotated-Accepts p epoch h now later s tokens _ accepts in_time,
                rotated-revision h now s tokens _ kept,
                issued,
                eq_refl h,
              )
              (rw (e1, e2) refl)),
        subst (λ n. rotate x ring p epoch h any (without_grace used n) ≡ ok (unknown_token, none))
            (sym written) (rw (rotate, ended-refuses p epoch h now any used s tokens _ kept) refl),
      )

  -- After a rotation, a refresh token whose hash is neither the one presented to it nor that of the
  -- token it handed out is refused, at any time, and nothing is written.
  pub superseded_refused :
      (p : Principal) (epoch : ℕ) (h old : String) (now later : ℕ) (s : Session)
      (access refresh : String) (ttl : ℕ) (new : Session)
      → rotate x ring p epoch h now s ≡ ok (refreshed access refresh ttl, some new)
      → h ≢ old
      → x.hash refresh ≢ old
      → rotate x ring p epoch old later new ≡ ok (unknown_token, none)
  unfolding Leaves rotate
  superseded_refused p epoch h old now later s access refresh ttl new e differs fresh =
      let (tokens, accepts, issued, e1, e2, written) =
        rotate-Leaves p epoch h now s access refresh ttl new e in
      let kept = not-eq _ _ (λ same. fresh (ap x.hash e2 ∙ same)) in
      subst (λ n. rotate x ring p epoch old later n ≡ ok (unknown_token, none)) (sym written)
        (rw (rotate, rotated-refuses p epoch h old now later s tokens _ (not-eq _ _ differs) kept)
          refl)
