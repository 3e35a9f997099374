-- ===== src/SyncWaiters/Order.antt =====
-- A hub in order, and what resolving a waiter does to it.
use matrix_flare.Prelude.{
  ℕ, ◌<◌, ◌≤◌, String, Bool, true, false, some, List, ◌∷◌, ◌==◌, is_empty, ◌≡◌, ◌≢◌, refl, sym, ap,
  ◌∙◌, arith, eq_refl, not-eq,
}
use matrix_flare.Prelude.Members.{Member}
use matrix_flare.SyncWaiters.Hub.{
  Waiter, Reason, wake, Hub, remove_waiter, get_session_key, remove_session, leads_to, is_settled,
  resolve, wake_one,
}
use matrix_flare.SyncWaiters.Pending.{
  IsKeyed, IsKeyed-same, get_session_key-remove_session, get_waiter-eq, filter-IsKeyed,
  remove_waiter-member, get_waiter-remove_waiter, is_under_eq,
}

-- `owner` gives the user of a session's name, and `session_of` the session that a waiter's key
-- belongs to: the gateway puts the user and the session into the key.
pub record IsInOrder (owner session_of : String → String) (hub : Hub) : Type 0 where
  pub keyed : IsKeyed hub.waiters_by_user
  pub numbered : (w : Waiter) → Member w hub.waiters_by_user → w.number < hub.next_number
  pub distinct :
      (v w : Waiter)
      → Member v hub.waiters_by_user
      → Member w hub.waiters_by_user
      → v.number ≡ w.number
      → v ≡ w
  pub waits : (w : Waiter) → Member w hub.waiters_by_user → is_settled w.number hub.settled ≡ false
  pub led_to :
      (w : Waiter)
      → Member w hub.waiters_by_user
      → get_session_key w.session_key hub.waiter_key_by_session ≡ some w.key
  pub owned : (w : Waiter) → Member w hub.waiters_by_user → owner w.session_key ≡ w.user
  pub in_session : (w : Waiter) → Member w hub.waiters_by_user → session_of w.key ≡ w.session_key
  pub named : (w : Waiter) → Member w hub.waiters_by_user → is_empty w.key ≡ false
  pub unused : (n : ℕ) → hub.next_number ≤ n → is_settled n hub.settled ≡ false

-- The hub without a waiter, who has been told the reason.
unfoldable pub dropped : Waiter → Reason → Hub → Hub
dropped w reason hub = record {
  waiters_by_user = remove_waiter w.user w.key hub.waiters_by_user;
  waiter_key_by_session = remove_session w.session_key hub.waiter_key_by_session;
  next_number = hub.next_number;
  settled = (w.number, reason) ∷ hub.settled;
}

pub is_settled_of_other :
    (n m : ℕ) (reason : Reason) (settled : List (ℕ × Reason))
    → m ≢ n
    → is_settled n settled ≡ false
    → is_settled n ((m, reason) ∷ settled) ≡ false
unfolding is_settled
is_settled_of_other n m reason settled ne f = ground arith

pub other_waiter : {b : Bool} → b ≡ true → b ≡ false → ⊥
other_waiter t f = let bad : true ≡ false = sym t ∙ f in cc

module _ (owner session_of : String → String) (hub : Hub) (o : IsInOrder owner session_of hub)
    (w : Waiter) (m : Member w hub.waiters_by_user) (reason : Reason) where
  leads : leads_to w.session_key w.key hub.waiter_key_by_session ≡ true
  leads = rw (leads_to, o.led_to w m) (eq_refl w.key)

  -- Resolving a waiter that waits drops it.
  pub resolve-eq-dropped : resolve w reason hub ≡ dropped w reason hub
  unfolding resolve dropped
  resolve-eq-dropped =
      rw (o.waits w m, get_waiter-eq hub.waiters_by_user w o.keyed m, leads)
        (let same : (w.number == w.number) ≡ true = ground arith in rw same refl)

  forgotten :
      leads_to w.session_key w.key (remove_session w.session_key hub.waiter_key_by_session) ≡ false
  forgotten =
      rw
        (
          leads_to,
          get_session_key-remove_session w.session_key w.session_key hub.waiter_key_by_session,
          eq_refl w.session_key,
        )
        refl

  -- Two that wait for one session are the same.
  pub one_per_session :
      (v : Waiter) → Member v hub.waiters_by_user → v.session_key ≡ w.session_key → v ≡ w
  one_per_session v n e =
      let users : v.user ≡ w.user = sym (o.owned v n) ∙ ap owner e ∙ o.owned w m in
      let keys : some v.key ≡ some w.key =
        sym (o.led_to v n)
        ∙ ap (λ s. get_session_key s hub.waiter_key_by_session) e
        ∙ o.led_to w m in
      IsKeyed-same hub.waiters_by_user v w o.keyed n m users cc

  pub dropped-IsInOrder : IsInOrder owner session_of (dropped w reason hub)
  unfolding dropped remove_waiter
  dropped-IsInOrder =
      let before = λ (v : Waiter) (n : Member v (remove_waiter w.user w.key hub.waiters_by_user)).
        (remove_waiter-member w.user w.key hub.waiters_by_user v n).0 in
      let other =
        λ (v : Waiter) (n : Member v (remove_waiter w.user w.key hub.waiters_by_user))
            (same : v ≡ w).
          let away = (remove_waiter-member w.user w.key hub.waiters_by_user v n).1 in
          let at =
            is_under_eq w v (ap (λ (z : Waiter). z.user) same) (ap (λ (z : Waiter). z.key) same) in
          other_waiter at away in
      record {
        keyed = filter-IsKeyed _ hub.waiters_by_user o.keyed;
        numbered = λ v n. o.numbered v (before v n);
        distinct = λ u v n n'. o.distinct u v (before u n) (before v n');
        waits = λ v n.
            is_settled_of_other v.number w.number reason hub.settled
              (λ e. other v n (sym (o.distinct w v m (before v n) e))) (o.waits v (before v n));
        led_to = λ v n.
            rw
              (
                get_session_key-remove_session w.session_key v.session_key
                    hub.waiter_key_by_session,
                not-eq w.session_key v.session_key
                    (λ e. other v n (one_per_session v (before v n) (sym e))),
              )
              (o.led_to v (before v n));
        owned = λ v n. o.owned v (before v n);
        in_session = λ v n. o.in_session v (before v n);
        named = λ v n. o.named v (before v n);
        unused = λ n le.
            is_settled_of_other n w.number reason hub.settled
              (λ e. let lt = o.numbered w m in omega arith) (o.unused n le);
      }

  -- A round of `wakeSyncWaiters` drops its waiter too.
  pub wake_one-eq-dropped : (pos : ℕ) → wake_one pos w hub ≡ dropped w (wake pos) hub
  unfolding wake_one resolve dropped
  wake_one-eq-dropped pos =
      rw (o.waits w m, leads, get_waiter-remove_waiter w.user w.key hub.waiters_by_user, forgotten)
        refl
