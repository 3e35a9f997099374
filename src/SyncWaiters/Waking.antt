-- ===== src/SyncWaiters/Waking.antt =====
-- What becomes of the waiters of a hub: settling, waking and registering lose none of them.
use matrix_flare.Prelude.{
  ℕ, String, true, false, List, [], ◌∷◌, str_eq, ◌≡◌, refl, sym, subst, inl, inr, ◌⊎◌, arith,
  eq_iff, Bool-cases,
}
use matrix_flare.Prelude.Members.{
  Member, head, tail, cases_cons, All-member, filter-member, member-filter,
}
use matrix_flare.SyncWaiters.Hub.{
  Waiter, Reason, wake, Hub, is_under, is_settled, resolve, wake_each, wake_sync_waiters, of_user,
}
use matrix_flare.SyncWaiters.Pending.{
  IsKeyed, IsKeyed-same, filter-IsKeyed, member-remove_waiter, is_under_iff,
}
use matrix_flare.SyncWaiters.Order.{
  IsInOrder, dropped, resolve-eq-dropped, dropped-IsInOrder, wake_one-eq-dropped,
}

pub is_settled_again :
    (n m : ℕ) (reason : Reason) (settled : List (ℕ × Reason))
    → is_settled n settled ≡ true
    → is_settled n ((m, reason) ∷ settled) ≡ true
unfolding is_settled
is_settled_again n m reason settled h = ground arith

pub is_settled_now :
    (n : ℕ) (reason : Reason) (settled : List (ℕ × Reason))
    → is_settled n ((n, reason) ∷ settled) ≡ true
unfolding is_settled
is_settled_now n reason settled = ground arith

module _ (owner session_of : String → String) where
  -- A hub that comes after another: it is in order, no promise is taken back, and whoever waited
  -- waits on or has been settled.
  pub record Later (hub hub' : Hub) : Type 0 where
    pub in_order : IsInOrder owner session_of hub'
    pub keeps : (n : ℕ) → is_settled n hub.settled ≡ true → is_settled n hub'.settled ≡ true
    pub kept :
        (v : Waiter)
        → Member v hub.waiters_by_user
        → (is_settled v.number hub'.settled ≡ true) ⊎ Member v hub'.waiters_by_user

  pub Later-refl : (hub : Hub) → IsInOrder owner session_of hub → Later hub hub
  Later-refl hub o = record { in_order = o; keeps = λ n h. h; kept = λ v m. inr m }

  pub Later-trans : (a b c : Hub) → Later a b → Later b c → Later a c
  Later-trans a b c l k = record {
    in_order = k.in_order;
    keeps = λ n h. k.keeps n (l.keeps n h);
    kept = λ v m. elim (l.kept v m) [ inl s ↦ inl (k.keeps v.number s) | inr n ↦ k.kept v n ];
  }

  pub dropped-Later :
      (hub : Hub) (w : Waiter) (reason : Reason)
      → IsInOrder owner session_of hub
      → Member w hub.waiters_by_user
      → Later hub (dropped w reason hub)
  unfolding dropped
  dropped-Later hub w reason o m = record {
    in_order = dropped-IsInOrder owner session_of hub o w m reason;
    keeps = λ n h. is_settled_again n w.number reason hub.settled h;
    kept = λ v n. elim (Bool-cases (is_under w.user w.key v)) [
      | inr f ↦ inr (member-remove_waiter w.user w.key hub.waiters_by_user v n f)
      | inl t ↦
          let (users, keys) = is_under_iff w.user w.key v t in
          let same = IsKeyed-same hub.waiters_by_user v w o.keyed n m users keys in
          inl (rw same (is_settled_now w.number reason hub.settled))
    ];
  }

  -- A timeout, a cancellation, or a waiter superseded.
  pub resolve-Later :
      (hub : Hub) (w : Waiter) (reason : Reason)
      → IsInOrder owner session_of hub
      → (is_settled w.number hub.settled ≡ true) ⊎ Member w hub.waiters_by_user
      → Later hub (resolve w reason hub)
  unfolding resolve
  resolve-Later hub w reason o (inl s) = rw s (Later-refl hub o)
  resolve-Later hub w reason o (inr m) =
      rw (resolve-eq-dropped owner session_of hub o w m reason) (dropped-Later hub w reason o m)

  wake_each-Later :
      (pos : ℕ) (ws : List Waiter) (hub : Hub)
      → IsInOrder owner session_of hub
      → IsKeyed ws
      → ((w : Waiter) → Member w ws → Member w hub.waiters_by_user)
      → Later hub (wake_each pos ws hub)
        × ((w : Waiter) → Member w ws → is_settled w.number (wake_each pos ws hub).settled ≡ true)
  unfolding wake_each IsKeyed dropped
  wake_each-Later pos [] hub o k there = (Later-refl hub o, λ w m. elim m [ ])
  wake_each-Later pos (w ∷ ws) hub o (fresh, k) there =
      let m = there w (head refl) in
      let drop_eq = wake_one-eq-dropped owner session_of hub o w m (wake pos) pos in
      let first = dropped-Later hub w (wake pos) o m in
      let (l, all) = wake_each-Later pos ws (dropped w (wake pos) hub) first.in_order k (λ v n.
        member-remove_waiter w.user w.key hub.waiters_by_user v (there v (tail n))
          (All-member (λ z. is_under w.user w.key z ≡ false) ws v fresh n)) in
      let told = l.keeps w.number (is_settled_now w.number (wake pos) hub.settled) in
      subst
        (λ h.
          Later hub (wake_each pos ws h)
          × ((v : Waiter)
              → Member v (w ∷ ws)
              → is_settled v.number (wake_each pos ws h).settled ≡ true))
        (sym drop_eq)
        (
          Later-trans hub (dropped w (wake pos) hub) _ first l,
          λ v n. elim (cases_cons n) [
            | inl same ↦
                subst
                  (λ (z : Waiter).
                    is_settled z.number (wake_each pos ws (dropped w (wake pos) hub)).settled
                    ≡ true)
                  (sym same) told
            | inr n' ↦ all v n'
          ],
        )

  -- Waking a user settles every waiter of that user, and takes back no promise; the others wait on
  -- or have been settled.
  pub wake_sync_waiters-Later :
      (user : String) (pos : ℕ) (hub : Hub)
      → IsInOrder owner session_of hub
      → Later hub (wake_sync_waiters user pos hub).1
        × ((w : Waiter)
            → Member w hub.waiters_by_user
            → w.user ≡ user
            → is_settled w.number (wake_sync_waiters user pos hub).1.settled ≡ true)
  unfolding wake_sync_waiters
  wake_sync_waiters-Later user pos hub o =
      let mine = λ (w : Waiter). str_eq w.user user in
      let (l, all) =
        wake_each-Later pos (of_user user hub.waiters_by_user) hub o
          (filter-IsKeyed mine hub.waiters_by_user o.keyed)
          (λ w m. (filter-member mine hub.waiters_by_user w m).0) in
      (l, λ w m e. all w (member-filter mine hub.waiters_by_user w m ((eq_iff w.user user).1 e)))
