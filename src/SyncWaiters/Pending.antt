-- ===== src/SyncWaiters/Pending.antt =====
-- The maps of the hub: what a removal and a set leave in them.
use matrix_flare.Prelude.{
  String, Bool, true, false, not, none, some, List, [], ◌∷◌, ◌++◌, filter, All, str_eq,
  if◌then◌else◌, ◌≡◌, refl, sym, ap, ◌∙◌, inl, inr, arith, eq_iff, eq_refl, Bool-cases,
}
use matrix_flare.Prelude.Members.{
  Member, head, tail, All-member, filter-member, member-filter, find-member, member-find,
}
use matrix_flare.SyncWaiters.Hub.{
  Waiter, is_under, get_waiter, remove_waiter, set_waiter, get_session_key, remove_session,
}

-- The sessions after one of them has been removed.
pub get_session_key-remove_session :
    (session other : String) (sessions : List (String × String))
    → get_session_key other (remove_session session sessions)
      ≡ (if str_eq session other then none else get_session_key other sessions)
unfolding get_session_key remove_session
get_session_key-remove_session session other [] = ground arith
get_session_key-remove_session session other ((s, key) ∷ more) = ground (
  arith,
  get_session_key-remove_session session other more,
  eq_iff s session,
  eq_iff s other,
  eq_iff session other,
)

pub is_under_iff :
    (user key : String) (w : Waiter) → is_under user key w ≡ true → (w.user ≡ user) × (w.key ≡ key)
is_under_iff user key w h =
    let users : str_eq w.user user ≡ true = ground arith in
    let keys : str_eq w.key key ≡ true = ground arith in
    ((eq_iff w.user user).0 users, (eq_iff w.key key).0 keys)

pub is_under_eq : (v w : Waiter) → w.user ≡ v.user → w.key ≡ v.key → is_under v.user v.key w ≡ true
is_under_eq v w users keys = rw (users, keys) (rw (eq_refl v.user) (eq_refl v.key))

-- No two waiters wait under a user and a key.
unfoldable pub IsKeyed : List Waiter → Type 0
IsKeyed [] = Unit
IsKeyed (w ∷ ws) = All (λ v. is_under w.user w.key v ≡ false) ws × IsKeyed ws

pub IsKeyed-same :
    (ws : List Waiter) (v w : Waiter)
    → IsKeyed ws
    → Member v ws
    → Member w ws
    → v.user ≡ w.user
    → v.key ≡ w.key
    → v ≡ w
unfolding IsKeyed
IsKeyed-same [] v w k m n users keys = elim m [ ]
IsKeyed-same (x ∷ xs) v w (fresh, k) (head e) (head e') users keys = e ∙ sym e'
IsKeyed-same (x ∷ xs) v w (fresh, k) (tail m) (tail n) users keys =
    IsKeyed-same xs v w k m n users keys
IsKeyed-same (x ∷ xs) v w (fresh, k) (head e) (tail n) users keys =
    let other = All-member (λ z. is_under x.user x.key z ≡ false) xs w fresh n in
    let at =
      is_under_eq x w (sym users ∙ ap (λ (z : Waiter). z.user) e)
        (sym keys ∙ ap (λ (z : Waiter). z.key) e) in
    absurd (let bad : true ≡ false = sym at ∙ other in cc)
IsKeyed-same (x ∷ xs) v w (fresh, k) (tail m) (head e) users keys =
    let other = All-member (λ z. is_under x.user x.key z ≡ false) xs v fresh m in
    let at =
      is_under_eq x v (users ∙ ap (λ (z : Waiter). z.user) e)
        (keys ∙ ap (λ (z : Waiter). z.key) e) in
    absurd (let bad : true ≡ false = sym at ∙ other in cc)

pub get_waiter-eq :
    (ws : List Waiter) (w : Waiter) → IsKeyed ws → Member w ws → get_waiter w.user w.key ws ≡ some w
get_waiter-eq ws w k m =
    let (v, found) = member-find (is_under w.user w.key) ws w m (is_under_eq w w refl refl) in
    let (n, at) = find-member (is_under w.user w.key) ws v found in
    let (users, keys) = is_under_iff w.user w.key v at in
    let same = IsKeyed-same ws v w k n m users keys in found ∙ ap some same

All-filter :
    (user key : String) (p : Waiter → Bool) (ws : List Waiter)
    → All (λ v. is_under user key v ≡ false) ws
    → All (λ v. is_under user key v ≡ false) (filter p ws)
All-filter user key p [] fs = tt
All-filter user key p (w ∷ ws) (f, fs) = elim (Bool-cases (p w)) [
  | inl e ↦ rw e (f, All-filter user key p ws fs)
  | inr e ↦ rw e (All-filter user key p ws fs)
]

pub filter-IsKeyed : (p : Waiter → Bool) (ws : List Waiter) → IsKeyed ws → IsKeyed (filter p ws)
unfolding IsKeyed
filter-IsKeyed p [] k = tt
filter-IsKeyed p (w ∷ ws) (fresh, k) = elim (Bool-cases (p w)) [
  | inl e ↦ rw e (All-filter w.user w.key p ws fresh, filter-IsKeyed p ws k)
  | inr e ↦ rw e (filter-IsKeyed p ws k)
]

-- What waits after a removal waited before, under another user or key.
pub remove_waiter-member :
    (user key : String) (ws : List Waiter) (w : Waiter)
    → Member w (remove_waiter user key ws)
    → Member w ws × (is_under user key w ≡ false)
unfolding remove_waiter
remove_waiter-member user key ws w m =
    let (n, t) = filter-member (λ v. not (is_under user key v)) ws w m in (n, ground arith)

pub member-remove_waiter :
    (user key : String) (ws : List Waiter) (w : Waiter)
    → Member w ws
    → is_under user key w ≡ false
    → Member w (remove_waiter user key ws)
unfolding remove_waiter
member-remove_waiter user key ws w m f =
    member-filter (λ v. not (is_under user key v)) ws w m (rw f refl)

pub get_waiter-remove_waiter :
    (user key : String) (ws : List Waiter) → get_waiter user key (remove_waiter user key ws) ≡ none
unfolding remove_waiter
get_waiter-remove_waiter user key [] = refl
get_waiter-remove_waiter user key (w ∷ ws) = elim (Bool-cases (is_under user key w)) [
  | inl e ↦ rw e (get_waiter-remove_waiter user key ws)
  | inr e ↦ rw (e, e) (get_waiter-remove_waiter user key ws)
]

-- A set where nothing waits under the user and the key adds the waiter behind the others.
pub set_waiter-append :
    (w : Waiter) (ws : List Waiter)
    → All (λ v. is_under w.user w.key v ≡ false) ws
    → set_waiter w ws ≡ ws ++ (w ∷ [])
unfolding set_waiter
set_waiter-append w [] fs = refl
set_waiter-append w (v ∷ vs) (f, fs) = rw f (ap (◌∷◌ v) (set_waiter-append w vs fs))
