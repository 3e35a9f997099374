-- ===== src/SyncWaiters/Registering.antt =====
-- `registerSyncWaiter`: the waiter that it adds, and the one that it supersedes.
use matrix_flare.Prelude.{
  String, Bool, false, ◌&&◌, some, List, [], ◌∷◌, ◌++◌, All, str_eq, is_empty, ◌≡◌, ◌≢◌, refl, sym,
  ap, ◌∙◌, subst, inl, inr, ◌⊎◌, arith, eq_refl, not-eq,
}
use matrix_flare.Prelude.Members.{Member, head, tail, cases_cons, All-member}
use matrix_flare.SyncWaiters.Hub.{
  Waiter, Hub, is_under, set_waiter, get_session_key, remove_session, is_settled, session_key_of,
  new_waiter, add_waiter,
}
use matrix_flare.SyncWaiters.Pending.{IsKeyed, get_session_key-remove_session, set_waiter-append}
use matrix_flare.SyncWaiters.Order.{IsInOrder}

and_false : (b : Bool) → (b && false) ≡ false
and_false b = ground arith

All-members :
    (P : Waiter → Type 0) (ws : List Waiter) → ((w : Waiter) → Member w ws → P w) → All P ws
All-members P [] f = tt
All-members P (w ∷ ws) f = (f w (head refl), All-members P ws (λ v m. f v (tail m)))

append-member :
    (ws : List Waiter) (w v : Waiter) → Member v (ws ++ (w ∷ [])) → (v ≡ w) ⊎ Member v ws
append-member [] w v m = cases_cons m
append-member (x ∷ xs) w v m = elim (cases_cons m) [
  | inl e ↦ inr (head e)
  | inr n ↦ elim (append-member xs w v n) [ inl e ↦ inl e | inr n' ↦ inr (tail n') ]
]

member-append :
    (ws : List Waiter) (w v : Waiter) → (v ≡ w) ⊎ Member v ws → Member v (ws ++ (w ∷ []))
member-append [] w v (inl e) = head e
member-append [] w v (inr m) = tail m
member-append (x ∷ xs) w v (inl e) = tail (member-append xs w v (inl e))
member-append (x ∷ xs) w v (inr (head e)) = head e
member-append (x ∷ xs) w v (inr (tail m)) = tail (member-append xs w v (inr m))

append-IsKeyed :
    (ws : List Waiter) (w : Waiter)
    → IsKeyed ws
    → ((v : Waiter) → Member v ws → is_under v.user v.key w ≡ false)
    → IsKeyed (ws ++ (w ∷ []))
unfolding IsKeyed
append-IsKeyed [] w k f = (tt, tt)
append-IsKeyed (x ∷ xs) w (fresh, k) f = (
  All-members _ (xs ++ (w ∷ [])) (λ v m. elim (append-member xs w v m) [
    | inl e ↦ rw e (f x (head refl))
    | inr n ↦ All-member (λ z. is_under x.user x.key z ≡ false) xs v fresh n
  ]),
  append-IsKeyed xs w k (λ v m. f v (tail m)),
)

at_other : (user key : String) (w : Waiter) → w.key ≢ key → is_under user key w ≡ false
at_other user key w ne = rw (not-eq w.key key ne) (and_false (str_eq w.user user))

session_first :
    (session key : String) (sessions : List (String × String))
    → get_session_key session ((session, key) ∷ sessions) ≡ some key
unfolding get_session_key
session_first session key sessions = rw (eq_refl session) refl

session_other :
    (session other key : String) (sessions : List (String × String))
    → session ≢ other
    → get_session_key other ((session, key) ∷ remove_session session sessions)
      ≡ get_session_key other sessions
unfolding get_session_key
session_other session other key sessions ne =
    let f = not-eq session other ne in
    rw f (get_session_key-remove_session session other sessions ∙ rw f refl)

module _ (owner session_of : String → String) where
  -- A waiter is added to a hub where nobody waits for its session.
  pub add_waiter-IsInOrder :
      (hub : Hub) (user session key : String)
      → IsInOrder owner session_of hub
      → ((v : Waiter) → Member v hub.waiters_by_user → v.session_key ≢ session_key_of user session)
      → owner (session_key_of user session) ≡ user
      → session_of key ≡ session_key_of user session
      → is_empty key ≡ false
      → IsInOrder owner session_of (add_waiter (new_waiter user session key hub) hub)
  add_waiter-IsInOrder hub user session key o free owns in_session named =
      let w = new_waiter user session key hub in
      let apart = λ (v : Waiter) (m : Member v hub.waiters_by_user) (keys : v.key ≡ key).
        free v m (sym (o.in_session v m) ∙ ap session_of keys ∙ in_session) in
      let away = λ (v : Waiter) (m : Member v hub.waiters_by_user).
        at_other v.user v.key w (λ keys. apart v m (sym keys)) in
      let away' =
        λ (v : Waiter) (m : Member v hub.waiters_by_user). at_other user key v (apart v m) in
      let appended =
        set_waiter-append w hub.waiters_by_user (All-members _ hub.waiters_by_user away') in
      let split = λ (v : Waiter) (m : Member v (set_waiter w hub.waiters_by_user)).
        append-member hub.waiters_by_user w v (subst (Member v) appended m) in
      record {
        keyed = subst IsKeyed (sym appended) (append-IsKeyed hub.waiters_by_user w o.keyed away);
        numbered = λ v m. elim (split v m) [
          | inl e ↦ let same = ap (λ (z : Waiter). z.number) e in omega arith
          | inr n ↦ let lt = o.numbered v n in omega arith
        ];
        distinct = λ u v m m' e. elim (split u m) [
          | inl eu ↦ elim (split v m') [
            | inl ev ↦ eu ∙ sym ev
            | inr n' ↦
                let lt = o.numbered v n' in
                let same = ap (λ (z : Waiter). z.number) eu in absurd (omega arith)
          ]
          | inr n ↦ elim (split v m') [
            | inl ev ↦
                let lt = o.numbered u n in
                let same = ap (λ (z : Waiter). z.number) ev in absurd (omega arith)
            | inr n' ↦ o.distinct u v n n' e
          ]
        ];
        waits = λ v m. elim (split v m) [
          | inl e ↦
              subst (λ (z : Waiter). is_settled z.number hub.settled ≡ false) (sym e)
                (o.unused hub.next_number (omega arith))
          | inr n ↦ o.waits v n
        ];
        led_to = λ v m. elim (split v m) [
          | inl e ↦
              subst
                (λ (z : Waiter).
                  get_session_key z.session_key
                    ((w.session_key, key) ∷ remove_session w.session_key hub.waiter_key_by_session)
                  ≡ some z.key)
                (sym e) (session_first w.session_key key _)
          | inr n ↦
              session_other w.session_key v.session_key key _ (λ e. free v n (sym e)) ∙ o.led_to v n
        ];
        owned = λ v m. elim (split v m) [
          | inl e ↦ subst (λ (z : Waiter). owner z.session_key ≡ z.user) (sym e) owns
          | inr n ↦ o.owned v n
        ];
        in_session = λ v m. elim (split v m) [
          | inl e ↦ subst (λ (z : Waiter). session_of z.key ≡ z.session_key) (sym e) in_session
          | inr n ↦ o.in_session v n
        ];
        named = λ v m. elim (split v m) [
          | inl e ↦ subst (λ (z : Waiter). is_empty z.key ≡ false) (sym e) named
          | inr n ↦ o.named v n
        ];
        unused = λ n le. o.unused n (omega arith);
      }

  -- The waiters that waited still do, and so does the new one.
  pub member-add_waiter :
      (hub : Hub) (user session key : String)
      → IsInOrder owner session_of hub
      → ((v : Waiter) → Member v hub.waiters_by_user → v.session_key ≢ session_key_of user session)
      → session_of key ≡ session_key_of user session
      → ((v : Waiter)
          → Member v hub.waiters_by_user
          → Member v (add_waiter (new_waiter user session key hub) hub).waiters_by_user)
        × Member
            (new_waiter user session key hub)
            (add_waiter (new_waiter user session key hub) hub).waiters_by_user
  member-add_waiter hub user session key o free in_session =
      let w = new_waiter user session key hub in
      let away = λ (v : Waiter) (m : Member v hub.waiters_by_user).
        at_other user key v
          (λ keys. free v m (sym (o.in_session v m) ∙ ap session_of keys ∙ in_session)) in
      let appended =
        set_waiter-append w hub.waiters_by_user (All-members _ hub.waiters_by_user away) in
      (
        λ v m. subst (Member v) (sym appended) (member-append hub.waiters_by_user w v (inr m)),
        subst (Member w) (sym appended) (member-append hub.waiters_by_user w w (inl refl)),
      )
