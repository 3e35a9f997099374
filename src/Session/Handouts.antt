-- ===== src/Session/Handouts.antt =====
-- What `refreshSession` has checked, issued and written where it hands out tokens.
use matrix_flare.Prelude.{
  ℕ, ◌+◌, String, true, false, Option, none, some, ◌≡◌, refl, ◌≢◌, ◌⊎◌, inl, inr, sym, ap, ◌∙◌,
  str_eq, eq_iff, eq_refl, or_else, ok, >>=-eq-ok, Bool-cases, Option-cases,
}
use matrix_flare.Session.Tokens.{Crypto, KeyRing, issue_opaque_user_token}
use matrix_flare.Session.Rows.{at, is_past, has_hash, Grace, Session, Principal}
use matrix_flare.Session.Refresh.{
  Tokens, refreshed, issue_session_tokens, rotated, presented_expiry, is_current, is_prior,
  next_revision, rotate,
}
use matrix_flare.Session.Rotation.{rotate-Inverts}

-- The hash is the one before, and its time is not over.
abbrev pub IsPrior : String → ℕ → Session → Type 0
IsPrior h now s =
    (g : Grace) × (s.refresh_grace ≡ some g)
    × (g.refresh_token_hash ≡ h)
    × (is_past g.refresh_expires_at now ≡ false)

-- The hash is the session's own, and its time is not over.
abbrev pub IsOwn : String → ℕ → Session → Type 0
IsOwn h now s = (s.refresh_token_hash ≡ some h) × (is_past s.refresh_expires_at now ≡ false)

has_hash-eq : (o : Option String) (h : String) → has_hash o h ≡ true → o ≡ some h
has_hash-eq none h e = absurd (let bad = e in cc)
has_hash-eq (some g) h e = ap some ((eq_iff g h).0 e)

eq-has_hash : (o : Option String) (h : String) → has_hash o h ≡ false → o ≢ some h
eq-has_hash o h e same =
    let bad : has_hash (some h) h ≡ false = ap (λ p. has_hash p h) (sym same) ∙ e in
    let good = eq_refl h in cc

presented_hash :
    (h : String) (now : ℕ) (s : Session)
    → (is_current h s ≡ true) ⊎ (is_prior h s ≡ true)
    → is_past (presented_expiry s h) now ≡ false
    → IsPrior h now s ⊎ IsOwn h now s
presented_hash h now s which time = elim (Option-cases s.refresh_grace) [
  | inl e ↦ elim which [
    | inl own ↦ inr (has_hash-eq _ h own, rw e at time)
    | inr prior ↦ absurd (let bad = rw e at prior in cc)
  ]
  | inr (g, e) ↦ elim (Bool-cases (str_eq g.refresh_token_hash h)) [
    | inl same ↦ inl (g, e, (eq_iff _ h).0 same, rw (e, same) at time)
    | inr other ↦ elim which [
      | inl own ↦ inr (has_hash-eq _ h own, rw (e, other) at time)
      | inr prior ↦ absurd (let bad = rw (e, other) at prior in cc)
    ]
  ]
]

is_prior-IsPrior :
    (h : String) (now : ℕ) (s : Session)
    → is_past (presented_expiry s h) now ≡ false
    → is_prior h s ≡ true
    → IsPrior h now s
is_prior-IsPrior h now s time prior = elim (Option-cases s.refresh_grace) [
  | inl e ↦ absurd (let bad = rw e at prior in cc)
  | inr (g, e) ↦
      let same : str_eq g.refresh_token_hash h ≡ true = rw e at prior in
      (g, e, (eq_iff _ h).0 same, rw (e, same) at time)
]

neither :
    (h : String) (s : Session)
    → (is_current h s ≡ true) ⊎ (is_prior h s ≡ true)
    → is_current h s ≡ false
    → is_prior h s ≡ false
    → ⊥
neither h s (inl own) old other = cc
neither h s (inr prior) old other = cc

module _ (x : Crypto) (ring : KeyRing) where
  -- The two tokens of a session at a revision, under the key version that the session keeps, or else
  -- the active one.
  abbrev pub IsIssued : Principal → Session → ℕ → String → String → Type 0
  IsIssued p s revision access refresh =
      (issue_opaque_user_token x "atk" p.user_id ring s.session_id revision
          (some (or_else s.token_root_key_version ring.active_version))
        ≡ ok access)
      × (issue_opaque_user_token x "rtk" p.user_id ring s.session_id revision
            (some (or_else s.token_root_key_version ring.active_version))
          ≡ ok refresh)

  -- The row after a rotation: the hashes of the new tokens, an hour and thirty days of time, the
  -- presented hash in the grace, the next revision; the session's standing is as it was.
  pub record IsRotated (h : String) (now : ℕ) (s : Session) (access refresh : String)
      (new : Session) : Type 0 where
    pub access_hash : new.access_token_hash ≡ some (x.hash access)
    pub refresh_hash : new.refresh_token_hash ≡ some (x.hash refresh)
    pub access_time : new.expires_at ≡ at (now + 3600000)
    pub refresh_time : new.refresh_expires_at ≡ at (now + 2592000000)
    pub grace : Grace
    pub kept_grace : new.refresh_grace ≡ some grace
    pub prior_hash : grace.refresh_token_hash ≡ h
    pub grace_time : grace.refresh_expires_at ≡ at (now + 2592000000)
    pub revision : new.token_revision ≡ some (or_else s.token_revision 0 + 1)
    pub same_session : new.session_id ≡ s.session_id
    pub same_device : new.device_id ≡ s.device_id
    pub same_auth : new.auth_version ≡ s.auth_version
    pub same_epoch : new.session_epoch ≡ s.session_epoch
    pub same_revocation : new.revoked_at ≡ s.revoked_at

  -- A row is written, or the hash is the one before and none is.
  abbrev pub Handout : Principal → String → ℕ → Session → String → String → Option Session → Type 0
  Handout p h now s access refresh written =
      ((new : Session) × (written ≡ some new)
        × (s.refresh_token_hash ≡ some h)
        × IsIssued p s (or_else s.token_revision 0 + 1) access refresh
        × IsRotated h now s access refresh new)
      ⊎ ((written ≡ none)
          × IsPrior h now s
          × (((s.refresh_token_hash ≡ some h)
                × IsIssued p s (or_else s.token_revision 0 + 1) access refresh)
              ⊎ ((s.refresh_token_hash ≢ some h)
                  × IsIssued p s (or_else s.token_revision 0) access refresh)))

  -- What a refresh that hands out tokens has checked, issued and written.
  pub record Rotates (p : Principal) (epoch : ℕ) (h : String) (now : ℕ) (s : Session)
      (access refresh : String) (written : Option Session) : Type 0 where
    pub live : s.revoked_at ≡ none
    pub same_auth : s.auth_version ≡ p.auth_version
    pub same_epoch : s.session_epoch ≡ epoch
    pub presented : IsPrior h now s ⊎ IsOwn h now s
    pub outcome : Handout p h now s access refresh written

  tokens-IsIssued :
      (p : Principal) (s : Session) (revision : ℕ) (tokens : Tokens)
      → issue_session_tokens x ring p.user_id s.session_id revision s.token_root_key_version
        ≡ ok tokens
      → IsIssued p s revision tokens.access_token tokens.refresh_token
  unfolding issue_session_tokens
  tokens-IsIssued p s revision tokens e =
      let version = some (or_else s.token_root_key_version ring.active_version) in
      let (access, e1, k) =
        >>=-eq-ok (issue_opaque_user_token x "atk" p.user_id ring s.session_id revision version) _
          e in
      let (refresh, e2, k2) =
        >>=-eq-ok (issue_opaque_user_token x "rtk" p.user_id ring s.session_id revision version) _
          k in
      (cc, cc)

  rotated-IsRotated :
      (h : String) (now : ℕ) (s : Session) (tokens : Tokens)
      → IsRotated h now s tokens.access_token tokens.refresh_token
          (rotated x ring s h now (or_else s.token_revision 0 + 1) tokens)
  rotated-IsRotated h now s tokens = record {
    access_hash = refl;
    refresh_hash = refl;
    access_time = refl;
    refresh_time = refl;
    grace = _;
    kept_grace = refl;
    prior_hash = refl;
    grace_time = refl;
    revision = refl;
    same_session = refl;
    same_device = refl;
    same_auth = refl;
    same_epoch = refl;
    same_revocation = refl;
  }

  outcome_of :
      (p : Principal) (h : String) (now : ℕ) (s : Session) (tokens : Tokens)
      (written : Option Session)
      → (is_current h s ≡ true) ⊎ (is_prior h s ≡ true)
      → is_past (presented_expiry s h) now ≡ false
      → issue_session_tokens x ring p.user_id s.session_id
          (next_revision h s)
          s.token_root_key_version
        ≡ ok tokens
      → ((is_prior h s ≡ true) × (written ≡ none))
        ⊎ ((is_prior h s ≡ false)
            × (written ≡ some (rotated x ring s h now (next_revision h s) tokens)))
      → Handout p h now s tokens.access_token tokens.refresh_token written
  unfolding next_revision
  outcome_of p h now s tokens written which time issued done = elim (Bool-cases (is_current h s)) [
    | inl own ↦
        let at_next =
          tokens-IsIssued p s (or_else s.token_revision 0 + 1) tokens (rw own at issued) in
        elim done [
          | inl (prior, unwritten) ↦
              inr
                (unwritten, is_prior-IsPrior h now s time prior, inl (has_hash-eq _ h own, at_next))
          | inr (other, put) ↦
              inl (_, rw own at put, has_hash-eq _ h own, at_next, rotated-IsRotated h now s tokens)
        ]
    | inr old ↦
        let at_same = tokens-IsIssued p s (or_else s.token_revision 0) tokens (rw old at issued) in
        elim done [
          | inl (prior, unwritten) ↦
              inr
                (unwritten, is_prior-IsPrior h now s time prior, inr (eq-has_hash _ h old, at_same))
          | inr (other, put) ↦ absurd (neither h s which old other)
        ]
  ]

  -- Where the transaction hands out tokens, the session is in force, of the principal's authentication
  -- version and of the current epoch, and the presented hash is its current one or the one before,
  -- with time left. The two tokens are issued for the session, at the revision after its own for the
  -- current hash and at its own for the one before. A row is written exactly where the hash is
  -- not the one before: it has the hashes of the two tokens, an hour and thirty days from now as their
  -- times, the presented hash as the one before, the next revision, and the standing of the session.
  pub rotate_sound :
      (p : Principal) (epoch : ℕ) (h : String) (now : ℕ) (s : Session) (access refresh : String)
      (ttl : ℕ) (written : Option Session)
      → rotate x ring p epoch h now s ≡ ok (refreshed access refresh ttl, written)
      → Rotates p epoch h now s access refresh written
  rotate_sound p epoch h now s access refresh ttl written e =
      let (tokens, accepts, issued, e1, e2, how) =
        rotate-Inverts x ring p epoch h now s access refresh ttl written e in
      let presented = presented_hash h now s accepts.presented accepts.unexpired in
      record {
        live = accepts.live;
        same_auth = accepts.same_auth;
        same_epoch = accepts.same_epoch;
        presented = presented;
        outcome =
            rw (e1, e2)
              (outcome_of p h now s tokens written accepts.presented accepts.unexpired issued how);
      }
