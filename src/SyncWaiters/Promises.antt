-- ===== src/SyncWaiters/Promises.antt =====
-- What the hub promises to the syncs that wait.
use matrix_flare.Prelude.{
  ℕ, String, true, false, Option, none, some, List, [], ◌∷◌, is_empty, trim, ◌≡◌, refl, sym, ap,
  ◌∙◌, subst, inl, inr, ◌⊎◌, Bool-cases, ok, ok_inj, >>=-eq-ok,
}
use matrix_flare.Prelude.Int.{pos}
use matrix_flare.Prelude.Members.{Member, cases_cons}
use matrix_flare.Json.{
  Json, null, bool, int, frac, str, arr, obj, normalize_text, normalize_string, normalize_integer,
}
use matrix_flare.SyncWaiters.Hub.{
  Waiter, Reason, superseded, wake, Hub, ensure_sync_waiter_hub, is_settled, resolve, supersede,
  existing_waiter, session_key_of, register_waiter, register_sync_waiter, wake_one, wake_each,
  wake_sync_waiters,
}
use matrix_flare.SyncWaiters.Pending.{IsKeyed}
use matrix_flare.SyncWaiters.Order.{IsInOrder, one_per_session}
use matrix_flare.SyncWaiters.Waking.{Later, resolve-Later, wake_sync_waiters-Later}
use matrix_flare.SyncWaiters.Steps.{register_waiter-Later}

normalize_string-eq-ok :
    (value : Option Json) (s : String) → normalize_string value ≡ ok s → is_empty s ≡ false
unfolding normalize_string normalize_text
normalize_string-eq-ok none s h = cc
normalize_string-eq-ok (some null) s h = cc
normalize_string-eq-ok (some (bool b)) s h = cc
normalize_string-eq-ok (some (int n)) s h = cc
normalize_string-eq-ok (some (frac t)) s h = cc
normalize_string-eq-ok (some (arr xs)) s h = cc
normalize_string-eq-ok (some (obj fs)) s h = cc
normalize_string-eq-ok (some (str t)) s h = elim (Bool-cases (is_empty (trim t))) [
  | inl e ↦ let bad = rw (normalize_text, e) at h in cc
  | inr f ↦
      let same : trim t ≡ s = ok_inj (rw (normalize_text, f) at h) in
      subst (λ z. is_empty z ≡ false) same f
]

module _ (owner session_of : String → String) where
  -- The hubs that calls lead to, with the waiters that registrations have returned. What the gateway
  -- puts into a waiter's key tells its session, and what is in front of the bar of a session's name
  -- its user.
  pub data Reaches : List Waiter → Hub → Type 0 where
    start : Reaches [] (ensure_sync_waiter_hub none)
    registers :
        {issued : List Waiter} {hub hub' : Hub} (u s k t : Option Json) (w : Waiter)
        → Reaches issued hub
        → register_sync_waiter u s k t hub ≡ ok (w, hub')
        → owner w.session_key ≡ w.user
        → session_of w.key ≡ w.session_key
        → Reaches (w ∷ issued) hub'
    resolves :
        {issued : List Waiter} {hub : Hub} (w : Waiter) (reason : Reason)
        → Reaches issued hub
        → Member w issued
        → Reaches issued (resolve w reason hub)
    wakes :
        {issued : List Waiter} {hub : Hub} (user : String) (at : ℕ)
        → Reaches issued hub
        → Reaches issued (wake_sync_waiters user at hub).1

  -- Whoever has registered has been settled or waits.
  abbrev Accounted : List Waiter → Hub → Type 0
  Accounted issued hub =
      (w : Waiter)
      → Member w issued
      → (is_settled w.number hub.settled ≡ true) ⊎ Member w hub.waiters_by_user

  Later-Accounted :
      (issued : List Waiter) (hub hub' : Hub)
      → Accounted issued hub
      → Later owner session_of hub hub'
      → Accounted issued hub'
  Later-Accounted issued hub hub' a l w m = elim (a w m) [
    | inl s ↦ inl (l.keeps w.number s)
    | inr n ↦ l.kept w n
  ]

  start-IsInOrder : IsInOrder owner session_of (ensure_sync_waiter_hub none)
  unfolding ensure_sync_waiter_hub IsKeyed is_settled
  start-IsInOrder = record {
    keyed = tt;
    numbered = λ w m. elim m [ ];
    distinct = λ v w m n e. elim m [ ];
    waits = λ w m. elim m [ ];
    led_to = λ w m. elim m [ ];
    owned = λ w m. elim m [ ];
    in_session = λ w m. elim m [ ];
    named = λ w m. elim m [ ];
    unused = λ n le. refl;
  }

  registered-Later :
      (u s k t : Option Json) (w : Waiter) (hub hub' : Hub)
      → IsInOrder owner session_of hub
      → register_sync_waiter u s k t hub ≡ ok (w, hub')
      → owner w.session_key ≡ w.user
      → session_of w.key ≡ w.session_key
      → Later owner session_of hub hub' × Member w hub'.waiters_by_user
  unfolding register_sync_waiter register_waiter
  registered-Later u s k t w hub hub' o h owns in_session =
      let (user, _, h1) = >>=-eq-ok (normalize_string u) _ h in
      let (session, _, h2) = >>=-eq-ok (normalize_string s) _ h1 in
      let (key, e, h3) = >>=-eq-ok (normalize_string k) _ h2 in
      let (_, _, h4) = >>=-eq-ok (normalize_integer t (pos 0)) _ h3 in
      let done = ok_inj h4 in
      let same = ap (λ (p : Waiter × Hub). p.0) done in
      let users = ap (λ (z : Waiter). z.user) same in
      let keys = ap (λ (z : Waiter). z.key) same in
      let sessions = ap (λ (z : Waiter). z.session_key) same in
      subst (λ (p : Waiter × Hub). Later owner session_of hub p.1 × Member p.0 p.1.waiters_by_user)
        done
        (register_waiter-Later owner session_of hub user session key o
          (ap owner sessions ∙ owns ∙ sym users) (ap session_of keys ∙ in_session ∙ sym sessions)
          (normalize_string-eq-ok k key e))

  reached-Accounted :
      (issued : List Waiter) (hub : Hub)
      → Reaches issued hub
      → IsInOrder owner session_of hub × Accounted issued hub
  reached-Accounted issued hub start = (start-IsInOrder, λ w m. elim m [ ])
  reached-Accounted issued hub' (registers {issued = earlier} {hub} u s k t w r h owns in_session) =
      let (o, a) = reached-Accounted earlier hub r in
      let (l, mine) = registered-Later u s k t w hub hub' o h owns in_session in
      (
        l.in_order,
        λ v m. elim (cases_cons m) [
          | inl e ↦ inr (subst (λ z. Member z hub'.waiters_by_user) (sym e) mine)
          | inr n ↦ Later-Accounted earlier hub hub' a l v n
        ],
      )
  reached-Accounted issued hub' (resolves {hub} w reason r m) =
      let (o, a) = reached-Accounted issued hub r in
      let l = resolve-Later owner session_of hub w reason o (a w m) in
      (l.in_order, Later-Accounted issued hub _ a l)
  reached-Accounted issued hub' (wakes {hub} user at r) =
      let (o, a) = reached-Accounted issued hub r in
      let (l, _) = wake_sync_waiters-Later owner session_of user at hub o in
      (l.in_order, Later-Accounted issued hub _ a l)

  -- In every hub that registrations, timeouts, cancellations and wakes lead to, waking a user leaves
  -- no waiter of the user unsettled that was ever registered: none has been lost. The registrations
  -- are those of a caller whose keys tell the session, and whose names of sessions tell the user.
  pub wake_sync_waiters-settles :
      (issued : List Waiter) (hub : Hub) (user : String) (at : ℕ) (w : Waiter)
      → Reaches issued hub
      → Member w issued
      → w.user ≡ user
      → is_settled w.number (wake_sync_waiters user at hub).1.settled ≡ true
  wake_sync_waiters-settles issued hub user at w r m e =
      let (o, a) = reached-Accounted issued hub r in
      let (l, all) = wake_sync_waiters-Later owner session_of user at hub o in
      elim (a w m) [ inl s ↦ l.keeps w.number s | inr n ↦ all w n e ]

  -- In every hub that calls lead to, no two waiters wait for one session: a registration supersedes
  -- the one before.
  pub one_waiter_per_session :
      (issued : List Waiter) (hub : Hub) (v w : Waiter)
      → Reaches issued hub
      → Member v hub.waiters_by_user
      → Member w hub.waiters_by_user
      → v.session_key ≡ w.session_key
      → v ≡ w
  one_waiter_per_session issued hub v w r m n e =
      one_per_session owner session_of hub (reached-Accounted issued hub r).0 w n superseded v m e

-- No promise is resolved twice.
unfoldable pub IsOnce : List (ℕ × Reason) → Type 0
IsOnce [] = Unit
IsOnce ((n, reason) ∷ before) = (is_settled n before ≡ false) × IsOnce before

resolve-IsOnce :
    (w : Waiter) (reason : Reason) (hub : Hub)
    → IsOnce hub.settled
    → IsOnce (resolve w reason hub).settled
unfolding resolve IsOnce
resolve-IsOnce w reason hub o = elim (Bool-cases (is_settled w.number hub.settled)) [
  | inl t ↦ rw t o
  | inr f ↦ rw f (f, o)
]

wake_each-IsOnce :
    (at : ℕ) (ws : List Waiter) (hub : Hub)
    → IsOnce hub.settled
    → IsOnce (wake_each at ws hub).settled
unfolding wake_each wake_one
wake_each-IsOnce at [] hub o = o
wake_each-IsOnce at (w ∷ ws) hub o =
    wake_each-IsOnce at ws (wake_one at w hub) (resolve-IsOnce w (wake at) _ o)

supersede-IsOnce :
    (w : Option Waiter) (hub : Hub) → IsOnce hub.settled → IsOnce (supersede w hub).settled
supersede-IsOnce none hub o = o
supersede-IsOnce (some w) hub o = resolve-IsOnce w superseded hub o

module _ (owner session_of : String → String) where
  -- In every hub that calls lead to, each promise has been resolved at most once, whatever of a
  -- wake, a timeout, a cancellation and a later registration comes first.
  pub reached-IsOnce :
      (issued : List Waiter) (hub : Hub) → Reaches owner session_of issued hub → IsOnce hub.settled
  unfolding IsOnce ensure_sync_waiter_hub register_sync_waiter register_waiter wake_sync_waiters
  reached-IsOnce issued hub start = tt
  reached-IsOnce issued hub' (registers {issued = earlier} {hub} u s k t w r h owns in_session) =
      let (user, _, h1) = >>=-eq-ok (normalize_string u) _ h in
      let (session, _, h2) = >>=-eq-ok (normalize_string s) _ h1 in
      let (key, _, h3) = >>=-eq-ok (normalize_string k) _ h2 in
      let (_, _, h4) = >>=-eq-ok (normalize_integer t (pos 0)) _ h3 in
      subst (λ (p : Waiter × Hub). IsOnce p.1.settled) (ok_inj h4)
        (supersede-IsOnce (existing_waiter user (session_key_of user session) hub) hub
          (reached-IsOnce earlier hub r))
  reached-IsOnce issued hub' (resolves {hub} w reason r m) =
      resolve-IsOnce w reason hub (reached-IsOnce issued hub r)
  reached-IsOnce issued hub' (wakes {hub} user at r) =
      wake_each-IsOnce at _ hub (reached-IsOnce issued hub r)
