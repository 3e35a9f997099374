-- ===== src/SyncWaiters/Steps.antt =====
-- What a hub goes through: registrations, timeouts and cancellations, and wakes.
use matrix_flare.Prelude.{
  String, false, Option, none, some, is_empty, ◌≡◌, ◌≢◌, sym, ap, ◌∙◌, subst, inl, inr, Bool-cases,
  Option-cases,
}
use matrix_flare.Prelude.Members.{Member, find-member}
use matrix_flare.SyncWaiters.Hub.{
  Waiter, superseded, Hub, is_under, get_session_key, existing_waiter, supersede, session_key_of,
  register_waiter,
}
use matrix_flare.SyncWaiters.Pending.{get_waiter-eq, remove_waiter-member, is_under_eq}
use matrix_flare.SyncWaiters.Order.{IsInOrder, dropped, resolve-eq-dropped, other_waiter}
use matrix_flare.SyncWaiters.Waking.{Later, Later-refl, resolve-Later}
use matrix_flare.SyncWaiters.Registering.{add_waiter-IsInOrder, member-add_waiter}

module _ (owner session_of : String → String) where
  existing_waiter-member :
      (user session_key : String) (hub : Hub) (w : Waiter)
      → existing_waiter user session_key hub ≡ some w
      → Member w hub.waiters_by_user
  unfolding existing_waiter
  existing_waiter-member user session_key hub w h =
      elim (Option-cases (get_session_key session_key hub.waiter_key_by_session)) [
        | inl e ↦
            let bad : ◌≡◌ {A = Option Waiter} none (some w) = rw (existing_waiter, e) at h in cc
        | inr (key, e) ↦ elim (Bool-cases (is_empty key)) [
          | inl t ↦
              let bad : ◌≡◌ {A = Option Waiter} none (some w) = rw (existing_waiter, e, t) at h in
              cc
          | inr f ↦
              (find-member (is_under user key) hub.waiters_by_user w
                (rw (existing_waiter, e, f) at h)).0
        ]
      ]

  -- The waiter of a session is the one that a registration finds.
  existing_waiter-eq :
      (hub : Hub) (v : Waiter)
      → IsInOrder owner session_of hub
      → Member v hub.waiters_by_user
      → existing_waiter v.user v.session_key hub ≡ some v
  unfolding existing_waiter
  existing_waiter-eq hub v o m =
      rw (existing_waiter, o.led_to v m, o.named v m)
        (get_waiter-eq hub.waiters_by_user v o.keyed m)

  -- A registration first settles whoever waits for its session.
  supersede-Later :
      (hub : Hub) (user session_key : String)
      → IsInOrder owner session_of hub
      → owner session_key ≡ user
      → Later owner session_of hub (supersede (existing_waiter user session_key hub) hub)
        × ((v : Waiter)
            → Member v (supersede (existing_waiter user session_key hub) hub).waiters_by_user
            → v.session_key ≢ session_key)
  unfolding dropped
  supersede-Later hub user session_key o owns =
      let found =
        λ (v : Waiter) (m : Member v hub.waiters_by_user) (e : v.session_key ≡ session_key).
          let users : v.user ≡ user = sym (o.owned v m) ∙ ap owner e ∙ owns in
          ap (λ u. existing_waiter u session_key hub) (sym users)
          ∙ ap (λ k. existing_waiter v.user k hub) (sym e)
          ∙ existing_waiter-eq hub v o m in
      elim (Option-cases (existing_waiter user session_key hub)) [
        | inl none_there ↦
            subst
              (λ x.
                Later owner session_of hub (supersede x hub)
                × ((v : Waiter)
                    → Member v (supersede x hub).waiters_by_user
                    → v.session_key ≢ session_key))
              (sym none_there)
              (
                Later-refl owner session_of hub o,
                λ v m e.
                    let bad : ◌≡◌ {A = Option Waiter} none (some v) =
                      sym none_there ∙ found v m e in
                    cc,
              )
        | inr (w, there) ↦
            let m = existing_waiter-member user session_key hub w there in
            let gone = resolve-eq-dropped owner session_of hub o w m superseded in
            subst
              (λ x.
                Later owner session_of hub (supersede x hub)
                × ((v : Waiter)
                    → Member v (supersede x hub).waiters_by_user
                    → v.session_key ≢ session_key))
              (sym there)
              (
                resolve-Later owner session_of hub w superseded o (inr m),
                λ v n e.
                    let n' : Member v (dropped w superseded hub).waiters_by_user =
                      subst (λ (h : Hub). Member v h.waiters_by_user) gone n in
                    let (before, away) =
                      remove_waiter-member w.user w.key hub.waiters_by_user v n' in
                    let same' : ◌≡◌ {A = Option Waiter} (some v) (some w) =
                      sym (found v before e) ∙ there in
                    let same : v ≡ w = cc in
                    other_waiter
                      (is_under_eq w v (ap (λ (z : Waiter). z.user) same)
                        (ap (λ (z : Waiter). z.key) same))
                      away,
              )
      ]

  pub register_waiter-Later :
      (hub : Hub) (user session key : String)
      → IsInOrder owner session_of hub
      → owner (session_key_of user session) ≡ user
      → session_of key ≡ session_key_of user session
      → is_empty key ≡ false
      → Later owner session_of hub (register_waiter user session key hub).1
        × Member
            (register_waiter user session key hub).0
            (register_waiter user session key hub).1.waiters_by_user
  unfolding register_waiter
  register_waiter-Later hub user session key o owns in_session named =
      let (l, free) = supersede-Later hub user (session_key_of user session) o owns in
      let cleared = supersede (existing_waiter user (session_key_of user session) hub) hub in
      let (there, mine) =
        member-add_waiter owner session_of cleared user session key l.in_order free in_session in
      (
        record {
          in_order =
              add_waiter-IsInOrder owner session_of cleared user session key l.in_order free owns
                in_session named;
          keeps = l.keeps;
          kept = λ v m. elim (l.kept v m) [ inl s ↦ inl s | inr n ↦ inr (there v n) ];
        },
        mine,
      )
