-- ===== src/Room/Replay.antt =====
-- A request that is repeated: the answer it gets, and what it does to the room.
use matrix_flare.Prelude.{
  ℕ, String, Option, none, some, List, [], ◌∷◌, ◌≡◌, ◌≢◌, inl, inr, arith, eq_refl, not-eq, Error,
  internal, ok, throws, >>=-eq-ok, >>-eq-ok, Option-cases, subst, ◌∙◌,
}
use matrix_flare.Json.{normalize_text}
use matrix_flare.Room.State.{StateEntry, StateMap}
use matrix_flare.Room.Store.{
  Runtime, Metadata, RoomStore, Dedupe, succeeded, failed, tables_of, get_metadata, put_metadata,
  get_dedupe, put_dedupe,
}
use matrix_flare.Room.Identity.{Platform}
use matrix_flare.Room.Commit.{Admitted, commit}
use matrix_flare.Room.Authorize.{authorize_candidate_event, candidate_of}
use matrix_flare.Room.Admission.{
  RoomEnv, Request, Answer, accepted, Prepared, check_room, get_current_state_map,
  current_membership, client_dedupe_key, earlier_answer, position_of,
}
use matrix_flare.Room.Admit.{
  admit_in_room, admit_keyed, admit_new, write_event, build_event, record_success, failure_key,
  record_failure,
}
use matrix_flare.Room.Positions.{Commits, commit-Commits}

get-put_metadata :
    (m : Metadata) (ms : List Metadata) → get_metadata m.event_id (put_metadata m ms) ≡ some m
unfolding get_metadata put_metadata
get-put_metadata m [] = rw (eq_refl m.event_id)
get-put_metadata m (n ∷ ms) = let rest = get-put_metadata m ms in ground (arith, eq_refl m.event_id)

get-put_dedupe :
    (d : Dedupe) (ds : List Dedupe) → get_dedupe d.txn_dedupe_key (put_dedupe d ds) ≡ some d
unfolding get_dedupe put_dedupe
get-put_dedupe d [] = rw (eq_refl d.txn_dedupe_key)
get-put_dedupe d (n ∷ ds) =
    let rest = get-put_dedupe d ds in ground (arith, eq_refl d.txn_dedupe_key)

module _ (x : Platform) (p : Prepared) where
  -- Once the checks have passed, what is left is the admission under the key.
  in_room :
      (s : RoomStore) (now : ℕ) (m : StateMap) (current : Option StateEntry) (key : Option String)
      → check_room p s.runtime ≡ ok tt
      → get_current_state_map s ≡ ok m
      → current_membership m p.shape ≡ ok current
      → client_dedupe_key p current ≡ ok key
      → admit_in_room x s p now ≡ admit_keyed x s m p current key now
  unfolding admit_in_room
  in_room s now m current key e1 e2 e3 e4 = rw (e1, e2, e3, e4)

  no_membership :
      (m : StateMap) → p.shape.event_type ≢ "m.room.member" → current_membership m p.shape ≡ ok none
  unfolding current_membership
  no_membership m other = rw (not-eq _ _ other)

  bound-check : (r : Runtime) → r.room_id ≡ some p.room_id → check_room p r ≡ ok tt
  unfolding check_room
  bound-check r e = rw (e, eq_refl p.room_id) (ground arith)

  -- What the write under a key leaves for the next request of that key.
  record Recorded (key : String) (a : Answer) (s' : RoomStore) : Type 0 where
    row : Dedupe
    found : get_dedupe key s'.dedupe ≡ some row
    answers : earlier_answer p.fingerprint row s' ≡ ok a
    bound : s'.runtime.room_id ≡ some p.room_id

  success-Recorded :
      (key : String) (e : Admitted) (pos : ℕ) (s w : RoomStore)
      → Commits p.room_id e pos s w
      → Recorded key
          (accepted (some e.event_id) (some pos) w.runtime.current_snapshot_id)
          (record_success (some key) p.fingerprint e.event_id w)
  unfolding earlier_answer
  success-Recorded key e pos s w c =
      let row : Dedupe = record {
        txn_dedupe_key = key;
        request_fingerprint = p.fingerprint;
        outcome = succeeded (some e.event_id);
      } in
      let known : get_metadata e.event_id w.metadata ≡ some c.row =
        rw (c.written, ← c.named) (get-put_metadata c.row s.metadata) in
      record {
        row = row;
        found = get-put_dedupe row w.dedupe;
        answers = rw (eq_refl p.fingerprint, position_of, known, c.at_p);
        bound = c.bound;
      }

  write-Recorded :
      (s s' : RoomStore) (m : StateMap) (key : String) (now : ℕ) (a : Answer)
      → normalize_text p.room_id ≡ ok p.room_id
      → write_event x s m p (some key) now ≡ ok (a, s')
      → Recorded key a s'
  unfolding write_event
  write-Recorded s s' m key now a trimmed h =
      let (e, _, rest) = >>=-eq-ok (build_event x s m p now) _ h in
      let ((pos, w), committed, done) = >>=-eq-ok (commit x p.room_id p.version e s) _ rest in
      let (name, is_name, c) = commit-Commits x p.room_id p.version e s w pos committed in
      let same : name ≡ p.room_id = cc in
      let after : record_success (some key) p.fingerprint e.event_id w ≡ s' = cc in
      let answer : accepted (some e.event_id) (some pos) w.runtime.current_snapshot_id ≡ a = cc in
      subst (Recorded key a) after (
        subst (λ b. Recorded key b (record_success (some key) p.fingerprint e.event_id w)) answer
          (success-Recorded key e pos s w (subst (λ n. Commits n e pos s w) same c)))

  new-Recorded :
      (s s' : RoomStore) (m : StateMap) (key : String) (now : ℕ) (a : Answer)
      → normalize_text p.room_id ≡ ok p.room_id
      → admit_new x s m p none (some key) now ≡ ok (a, s')
      → Recorded key a s'
  unfolding admit_new
  new-Recorded s s' m key now a trimmed h =
      let (_, h1) =
        >>-eq-ok (authorize_candidate_event (tables_of s) p.version m (candidate_of p.event)) _ h in
      write-Recorded s s' m key now a trimmed h1

  -- Behind the quota: a request with a client context and a trimmed room id, for an event that is no
  -- membership event, that has been answered without an error gets the same answer when it is
  -- repeated at any time on the state that the first answer left, if the room's state can be read there,
  -- and leaves that state as it is.
  pub retry_same :
      (s s' : RoomStore) (now later : ℕ) (key : String) (m' : StateMap) (a : Answer)
      → p.shape.event_type ≢ "m.room.member"
      → normalize_text p.room_id ≡ ok p.room_id
      → client_dedupe_key p none ≡ ok (some key)
      → get_current_state_map s' ≡ ok m'
      → admit_in_room x s p now ≡ ok (a, s')
      → admit_in_room x s' p later ≡ ok (a, s')
  unfolding admit_in_room admit_keyed
  retry_same s s' now later key m' a other trimmed keyed readable h =
      let (checked, h1) = >>-eq-ok (check_room p s.runtime) _ h in
      let (m, read, h2) = >>=-eq-ok (get_current_state_map s) _ h1 in
      let h3 = rw (no_membership m other, keyed) at h2 in
      elim (Option-cases (get_dedupe key s.dedupe)) [
        | inl e ↦
            let r = new-Recorded s s' m key now a trimmed (rw (e, admit_keyed) at h3) in
            in_room s' later m' none (some key) (bound-check s'.runtime r.bound) readable
              (no_membership m' other) keyed
            ∙ rw (r.found, admit_keyed, r.answers)
        | inr (d, e) ↦
            let (answer, told, done) =
              >>=-eq-ok (earlier_answer p.fingerprint d s) _ (rw (e, admit_keyed) at h3) in
            let same : s ≡ s' = cc in
            let same_answer : answer ≡ a = cc in
            subst (λ t. admit_in_room x t p later ≡ ok (a, t)) same
              (in_room s later m none (some key) checked read (no_membership m other) keyed
                ∙ rw (e, admit_keyed, told, same_answer))
      ]

  -- A failure replaces what was recorded under its key: behind the quota, a request of that key with
  -- another fingerprint, for an event that is no membership event, in a room that is the one it names
  -- and whose state can be read, is refused as a conflict afterwards, even if it had been answered
  -- before.
  pub failure_refuses_earlier :
      (env : RoomEnv) (q : Request) (error : Error) (s : RoomStore) (m : StateMap)
      (key fingerprint : String) (later : ℕ)
      → failure_key x env q s ≡ ok (some (key, fingerprint))
      → fingerprint ≢ p.fingerprint
      → p.shape.event_type ≢ "m.room.member"
      → check_room p s.runtime ≡ ok tt
      → get_current_state_map s ≡ ok m
      → client_dedupe_key p none ≡ ok (some key)
      → admit_in_room x (record_failure x env q error s) p later
        ≡ throws (internal "idempotency_conflict")
  unfolding record_failure get_current_state_map admit_keyed earlier_answer
  failure_refuses_earlier env q error s m key fingerprint later failing differs other checked
        readable keyed =
      let row : Dedupe = record {
        txn_dedupe_key = key;
        request_fingerprint = fingerprint;
        outcome = failed error;
      } in
      let after : RoomStore = record s { dedupe = put_dedupe row s.dedupe } in
      let is_after : record_failure x env q error s ≡ after = rw (failing, record_failure) in
      rw is_after (
        in_room after later m none (some key) checked readable (no_membership m other) keyed
        ∙ rw (get-put_dedupe row s.dedupe, admit_keyed, not-eq _ _ differs, earlier_answer))
