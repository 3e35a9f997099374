-- ===== src/Room/Order.antt =====
-- What `admitEvent` keeps of the order of a room's events, on each of its branches.
use Prim.Native.String.{◌++◌ as append}
use matrix_flare.AbuseGuard.Enforce.{enforce_semantic_quota}
use matrix_flare.Prelude.{
  ℕ, String, ◌&&◌, Option, none, some, ◌≡◌, refl, inl, inr, arith, str_eq, if◌then◌else◌, Result,
  ok, throws, >>=-eq-ok, Bool-cases, Option-cases, Result-cases, Error, >>-eq-ok, subst,
}
use matrix_flare.Room.State.{StateEntry, StateMap}
use matrix_flare.AbuseGuard.Window.{Verdict, pass, limited}
use matrix_flare.Room.Store.{RoomStore, tables_of}
use matrix_flare.Room.Identity.{Platform}
use matrix_flare.Room.Commit.{commit}
use matrix_flare.Room.Authorize.{authorize_candidate_event, candidate_of}
use matrix_flare.Room.Admission.{
  check_room, get_current_state_map, current_membership, client_dedupe_key, earlier_answer,
  is_profile_refresh, prepare, RoomEnv, Request, Answer, Prepared, take_quota,
}
use matrix_flare.Room.Admit.{
  admit_new, admit_keyed, repeats_membership, earlier_row, admit_event, admit_in_room, write_event,
  or_failure, record_failure, record_success, build_event,
}
use matrix_flare.Room.Positions.{IsOrdered, commit-Commits, commit-IsOrdered}

success-IsOrdered :
    (key : Option String) (fingerprint id : String) (s : RoomStore)
    → IsOrdered s
    → IsOrdered (record_success key fingerprint id s)
unfolding IsOrdered
success-IsOrdered none fingerprint id s o = o
success-IsOrdered (some key) fingerprint id s o = o

write_event-IsOrdered :
    (x : Platform) (s s' : RoomStore) (m : StateMap) (p : Prepared) (key : Option String) (now : ℕ)
    (a : Answer)
    → write_event x s m p key now ≡ ok (a, s')
    → IsOrdered s
    → IsOrdered s'
unfolding write_event
write_event-IsOrdered x s s' m p key now a h o =
    let (e, _, rest) = >>=-eq-ok (build_event x s m p now) _ h in
    let ((pos, written), committed, done) = >>=-eq-ok (commit x p.room_id p.version e s) _ rest in
    let o' =
      commit-IsOrdered e pos s written
        (commit-Commits x p.room_id p.version e s written pos committed).2 o in
    let same : record_success key p.fingerprint e.event_id written ≡ s' = cc in
    subst IsOrdered same (success-IsOrdered key p.fingerprint e.event_id written o')

unchanged-IsOrdered :
    (answer a : Answer) (s s' : RoomStore)
    → ◌≡◌ {A = Result (Answer × RoomStore)} (ok (answer, s)) (ok (a, s'))
    → IsOrdered s
    → IsOrdered s'
unchanged-IsOrdered answer a s s' h o = let same : s ≡ s' = cc in subst IsOrdered same o

module _ (x : Platform) (s s' : RoomStore) (p : Prepared) (now : ℕ) (a : Answer) where
  admit_new-IsOrdered :
      (m : StateMap) (current : Option StateEntry) (key : Option String)
      → admit_new x s m p current key now ≡ ok (a, s')
      → IsOrdered s
      → IsOrdered s'
  unfolding admit_new
  admit_new-IsOrdered m current key h o =
      let (_, h1) =
        >>-eq-ok (authorize_candidate_event (tables_of s) p.version m (candidate_of p.event)) _ h in
      let (same, _, h2) = >>=-eq-ok (repeats_membership x s p current) _ h1 in
      elim (Option-cases (if same then current else none)) [
        | inl e ↦ write_event-IsOrdered x s s' m p key now a (rw e at h2) o
        | inr (entry, e) ↦ unchanged-IsOrdered _ a s s' (rw e at h2) o
      ]

  admit_keyed-IsOrdered :
      (m : StateMap) (current : Option StateEntry) (key : Option String)
      → admit_keyed x s m p current key now ≡ ok (a, s')
      → IsOrdered s
      → IsOrdered s'
  unfolding admit_keyed
  admit_keyed-IsOrdered m current key h o = elim (Option-cases (earlier_row key s)) [
    | inl e ↦ admit_new-IsOrdered m current key (rw (e, admit_keyed) at h) o
    | inr (d, e) ↦
        let (answer, _, h1) =
          >>=-eq-ok (earlier_answer p.fingerprint d s) _ (rw (e, admit_keyed) at h) in
        unchanged-IsOrdered answer a s s' h1 o
  ]

  admit_in_room-IsOrdered : admit_in_room x s p now ≡ ok (a, s') → IsOrdered s → IsOrdered s'
  unfolding admit_in_room
  admit_in_room-IsOrdered h o =
      let (_, h1) = >>-eq-ok (check_room p s.runtime) _ h in
      let (m, _, h2) = >>=-eq-ok (get_current_state_map s) _ h1 in
      let (current, _, h3) = >>=-eq-ok (current_membership m p.shape) _ h2 in
      let (key, _, h4) = >>=-eq-ok (client_dedupe_key p current) _ h3 in
      admit_keyed-IsOrdered m current key h4 o

record_failure-IsOrdered :
    (x : Platform) (env : RoomEnv) (q : Request) (error : Error) (s : RoomStore)
    → IsOrdered s
    → IsOrdered (record_failure x env q error s)
unfolding record_failure IsOrdered
record_failure-IsOrdered x env q error s o = ground arith

or_failure-IsOrdered :
    (x : Platform) (env : RoomEnv) (q : Request) (s : RoomStore) (r : Result (Answer × RoomStore))
    → ((a : Answer) (s' : RoomStore) → r ≡ ok (a, s') → IsOrdered s')
    → IsOrdered s
    → IsOrdered (or_failure x env q s r).1
or_failure-IsOrdered x env q s (ok (a, s')) keeps o = keeps a s' refl
or_failure-IsOrdered x env q s (throws error) keeps o = record_failure-IsOrdered x env q error s o

take_quota-IsOrdered :
    (env : RoomEnv) (p : Prepared) (now : ℕ) (s s' : RoomStore) (v : Verdict)
    → take_quota env p now s ≡ ok (v, s')
    → IsOrdered s
    → IsOrdered s'
unfolding take_quota
take_quota-IsOrdered env p now s s' v h o =
    let member = str_eq p.shape.event_type "m.room.member" in
    elim (Bool-cases (member && is_profile_refresh p.event)) [
      | inl e ↦ let h1 = rw e at h in let same : s ≡ s' = cc in subst IsOrdered same o
      | inr e ↦
          let h1 = rw e at h in
          let (quota, _, done) =
            >>=-eq-ok
              (enforce_semantic_quota env.overrides
                (if member then "roomdo_membership" else "roomdo_send")
                (append p.room_id (append "|" p.shape.sender)) now s.quotas)
              _ h1 in
          let same : record s { quotas = quota.1 } ≡ s' = cc in
          subst IsOrdered same (unfold IsOrdered in o)
    ]

-- Whatever is asked of a room and whatever it answers, its events keep positions of their own, each
-- below the next position that the room will give.
pub admit_event-IsOrdered :
    (x : Platform) (env : RoomEnv) (q : Request) (s : RoomStore)
    → IsOrdered s
    → IsOrdered (admit_event x env q s).1
unfolding admit_event
admit_event-IsOrdered x env q s o = elim (Result-cases (prepare x env q s.runtime)) [
  | inl (error, e) ↦ rw (e, admit_event) (record_failure-IsOrdered x env q error s o)
  | inr (p, e) ↦
      rw (e, admit_event)
        (elim (Result-cases (take_quota env p q.now s)) [
          | inl (error, f) ↦ rw f (record_failure-IsOrdered x env q error s o)
          | inr ((limited wait, s'), f) ↦
              rw f (take_quota-IsOrdered env p q.now s s' (limited wait) f o)
          | inr ((pass, s'), f) ↦
              let o' = take_quota-IsOrdered env p q.now s s' pass f o in
              rw f (
                or_failure-IsOrdered x env q s' (admit_in_room x s' p q.now)
                  (λ a s'' h. admit_in_room-IsOrdered x s' s'' p q.now a h o') o')
        ])
]
