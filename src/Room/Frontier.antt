-- ===== src/Room/Frontier.antt =====
-- The forward extremities of a room: what the write of `admitEvent` leaves of them.
use matrix_flare.Prelude.{
  ℕ, String, true, ◌||◌, Option, none, some, List, [], ◌∷◌, map, ◌≡◌, refl, ◌∙◌, sym, ap, arith,
  str_eq, eq_iff, eq_refl, includes, ok, >>=-eq-ok, Bool-cases, inl, inr, All,
}
use matrix_flare.Room.State.{StateMap}
use matrix_flare.Room.Authorize.{candidate_of}
use matrix_flare.Room.Store.{Extremity, RoomStore, tables_of, delete_extremity, put_extremity}
use matrix_flare.Room.Identity.{Platform}
use matrix_flare.Room.Graph.{
  comes_first, insert_extremity, sort_extremities, prev_event_ids, delete_extremities,
  build_auth_event_ids, reserve_room_pos,
}
use matrix_flare.Room.Commit.{
  Admitted, commit, committed_store, project_membership, apply_redaction, next_state,
}
use matrix_flare.Room.Admission.{Answer, accepted, Prepared}
use matrix_flare.Room.Admit.{redacted_id, write_event, build_event, record_success}

-- Every extremity is of one of the events.
abbrev pub Among : List String → List Extremity → Type 0
Among ids es = All (λ e. includes ids e.event_id ≡ true) es

delete-Among :
    (id : String) (ids : List String) (es : List Extremity)
    → Among (id ∷ ids) es
    → Among ids (delete_extremity id es)
unfolding delete_extremity
delete-Among id ids [] h = tt
delete-Among id ids (e ∷ es) (here, h) = elim (Bool-cases (str_eq e.event_id id)) [
  | inl same ↦ rw same (delete-Among id ids es h)
  | inr other ↦
      rw other
        (ground (arith, eq_iff e.event_id id, eq_iff id e.event_id), delete-Among id ids es h)
]

delete_extremities-all :
    (ids : List String) (es : List Extremity) → Among ids es → delete_extremities ids es ≡ []
unfolding delete_extremities
delete_extremities-all [] [] h = refl
delete_extremities-all [] (e ∷ es) (here, h) = cc
delete_extremities-all (id ∷ ids) es h =
    delete_extremities-all ids (delete_extremity id es) (delete-Among id ids es h)

includes-insert :
    (x : Platform) (new : Extremity) (es : List Extremity) (id : String)
    → includes (map (λ e. e.event_id) (insert_extremity x new es)) id
      ≡ (str_eq new.event_id id || includes (map (λ e. e.event_id) es) id)
unfolding insert_extremity
includes-insert x new [] id = refl
includes-insert x new (e ∷ es) id =
    let rest = includes-insert x new es id in
    elim (Bool-cases (comes_first x new e)) [
      | inl first ↦ rw first
      | inr later ↦ rw later (ground arith)
    ]

includes-sort :
    (x : Platform) (es : List Extremity) (id : String)
    → includes (map (λ e. e.event_id) (sort_extremities x es)) id
      ≡ includes (map (λ e. e.event_id) es) id
unfolding sort_extremities
includes-sort x [] id = refl
includes-sort x (e ∷ es) id =
    includes-insert x e (sort_extremities x es) id
    ∙ ap (λ b. str_eq e.event_id id || b) (includes-sort x es id)

Among-weaken :
    (id : String) (ids : List String) (es : List Extremity) → Among ids es → Among (id ∷ ids) es
Among-weaken id ids [] h = tt
Among-weaken id ids (e ∷ es) (here, h) = (ground arith, Among-weaken id ids es h)

Among-self : (es : List Extremity) → Among (map (λ e. e.event_id) es) es
Among-self [] = tt
Among-self (e ∷ es) = (
  ground (arith, eq_refl e.event_id),
  Among-weaken e.event_id (map (λ e. e.event_id) es) es (Among-self es),
)

Among-prev :
    (x : Platform) (all es : List Extremity)
    → Among (map (λ e. e.event_id) all) es
    → Among (prev_event_ids x all) es
unfolding prev_event_ids
Among-prev x all [] h = tt
Among-prev x all (e ∷ es) (here, h) = (includes-sort x all e.event_id ∙ here, Among-prev x all es h)

-- The transaction replaces the extremities that the event follows by the event.
commit-extremities :
    (x : Platform) (room version : String) (e : Admitted) (s s' : RoomStore) (p : ℕ)
    → commit x room version e s ≡ ok (p, s')
    → s'.extremities
      ≡ put_extremity
          (record { event_id = e.event_id; room_pos = p })
          (delete_extremities e.prev s.extremities)
unfolding commit
commit-extremities x room version e s s' p h =
    let ((q, r), _, h1) = >>=-eq-ok (reserve_room_pos room version s.runtime) _ h in
    let state = next_state x e q r s.state_entries in
    let (members, _, h2) = >>=-eq-ok (project_membership e q s.members) _ h1 in
    let (rewritten, _, done) =
      >>=-eq-ok (apply_redaction room version e (state.0).current_snapshot_id s state.1) _ h2 in
    let out : committed_store e q (state.0) members rewritten s ≡ s' = cc in
    let same : q ≡ p = cc in rw (← same) (sym (ap (λ t. t.extremities) out))

-- The event follows all the extremities of its room.
build_event-prev :
    (x : Platform) (s : RoomStore) (m : StateMap) (p : Prepared) (now : ℕ) (e : Admitted)
    → build_event x s m p now ≡ ok e
    → e.prev ≡ prev_event_ids x s.extremities
unfolding build_event
build_event-prev x s m p now e h =
    let (auth, _, h1) =
      >>=-eq-ok
        (build_auth_event_ids (tables_of s) p.version m (candidate_of p.event).event_type
          (candidate_of p.event).sender p.shape.state_key)
        _ h in
    let (redacts, _, done) = >>=-eq-ok (redacted_id p.event) _ h1 in cc

success-extremities :
    (key : Option String) (fingerprint id : String) (s : RoomStore)
    → (record_success key fingerprint id s).extremities ≡ s.extremities
success-extremities none fingerprint id s = refl
success-extremities (some key) fingerprint id s = refl

-- After a write, the event that was written is the room's only forward extremity.
pub write_event-extremity :
    (x : Platform) (s s' : RoomStore) (m : StateMap) (p : Prepared) (key : Option String) (now : ℕ)
    (a : Answer)
    → write_event x s m p key now ≡ ok (a, s')
    → (id : String) × (pos : ℕ) × (s'.extremities ≡ record { event_id = id; room_pos = pos } ∷ [])
      × (a ≡ accepted (some id) (some pos) s'.runtime.current_snapshot_id)
unfolding write_event put_extremity
write_event-extremity x s s' m p key now a h =
    let (e, built, rest) = >>=-eq-ok (build_event x s m p now) _ h in
    let ((pos, w), committed, done) = >>=-eq-ok (commit x p.room_id p.version e s) _ rest in
    let after : record_success key p.fingerprint e.event_id w ≡ s' = cc in
    let gone : delete_extremities e.prev s.extremities ≡ [] =
      rw (build_event-prev x s m p now e built) (
        delete_extremities-all (prev_event_ids x s.extremities) s.extremities
          (Among-prev x s.extremities s.extremities (Among-self s.extremities))) in
    let answer : a
        ≡ accepted (some e.event_id) (some pos)
            (record_success key p.fingerprint e.event_id w).runtime.current_snapshot_id =
      cc in
    (
      e.event_id,
      pos,
      ap (λ t. t.extremities) (sym after)
          ∙ success-extremities key p.fingerprint e.event_id w
          ∙ commit-extremities x p.room_id p.version e s w pos committed
          ∙ rw gone,
      rw (← after) answer,
    )
