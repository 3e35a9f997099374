-- ===== src/Room/Positions.antt =====
-- The position that the transaction of `admitEvent` gives, and what it keeps of the others.
use matrix_flare.Prelude.{
  ℕ, ◌+◌, ◌≤◌, ◌<◌, max, String, some, List, [], ◌∷◌, ◌≡◌, refl, ◌≢◌, inl, inr, arith, str_eq, ok,
  >>=-eq-ok, Bool-cases, >>-eq-ok, ◌∙◌, All, internal, throw_if, sym, ap,
}
use matrix_flare.Json.{normalize_text}
use matrix_flare.Room.State.{StateEntry}
use matrix_flare.Room.Store.{Runtime, Metadata, RoomStore, put_metadata}
use matrix_flare.Room.Identity.{Platform}
use matrix_flare.Room.Commit.{
  Admitted, next_state, write_snapshot, commit, committed_store, project_membership,
  apply_redaction,
}
use matrix_flare.Room.Graph.{reserve_room_pos, bound_elsewhere, take_position}

-- Every event stands below the next position of its room.
abbrev pub Below : ℕ → List Metadata → Type 0
Below n ms = All (λ m. m.room_pos < n) ms

-- No two events stand at one position.
abbrev pub HasOwnPositions : List Metadata → Type 0
HasOwnPositions [] = Unit
HasOwnPositions (m ∷ ms) = All (λ o. o.room_pos ≢ m.room_pos) ms × HasOwnPositions ms

unfoldable pub IsOrdered : RoomStore → Type 0
IsOrdered s = Below s.runtime.next_room_pos s.metadata × HasOwnPositions s.metadata

put-Below :
    (n p : ℕ) (new : Metadata) (ms : List Metadata)
    → Below n ms
    → n ≤ p
    → new.room_pos ≡ p
    → Below (p + 1) (put_metadata new ms)
unfolding put_metadata
put-Below n p new [] b le e = (omega arith, tt)
put-Below n p new (m ∷ ms) (lt, b) le e = elim (Bool-cases (str_eq m.event_id new.event_id)) [
  | inl same ↦ rw same (omega arith, weaken ms b)
  | inr other ↦ rw other (omega arith, put-Below n p new ms b le e)
]
  where
    weaken : (ms : List Metadata) → Below n ms → Below (p + 1) ms
    weaken [] h = tt
    weaken (m ∷ ms) (lt, h) = (omega arith, weaken ms h)

Below-ne : (n p : ℕ) (ms : List Metadata) → Below n ms → n ≤ p → All (λ o. o.room_pos ≢ p) ms
Below-ne n p [] h le = tt
Below-ne n p (m ∷ ms) (lt, h) le = (λ e. omega arith, Below-ne n p ms h le)

put-ne :
    (q : ℕ) (new : Metadata) (ms : List Metadata)
    → All (λ o. o.room_pos ≢ q) ms
    → new.room_pos ≢ q
    → All (λ o. o.room_pos ≢ q) (put_metadata new ms)
unfolding put_metadata
put-ne q new [] h ne = (ne, tt)
put-ne q new (m ∷ ms) (here, h) ne = elim (Bool-cases (str_eq m.event_id new.event_id)) [
  | inl same ↦ rw same (ne, h)
  | inr other ↦ rw other (here, put-ne q new ms h ne)
]

put-HasOwnPositions :
    (n : ℕ) (new : Metadata) (ms : List Metadata)
    → Below n ms
    → n ≤ new.room_pos
    → HasOwnPositions ms
    → HasOwnPositions (put_metadata new ms)
unfolding put_metadata
put-HasOwnPositions n new [] b le h = (tt, tt)
put-HasOwnPositions n new (m ∷ ms) (lt, b) le (here, h) =
    elim (Bool-cases (str_eq m.event_id new.event_id)) [
      | inl same ↦ rw same (Below-ne n new.room_pos ms b le, h)
      | inr other ↦
          rw other
            (put-ne m.room_pos new ms here (λ e. omega arith), put-HasOwnPositions n new ms b le h)
    ]

reserve_room_pos-next :
    (room version : String) (r r' : Runtime) (p : ℕ)
    → reserve_room_pos room version r ≡ ok (p, r')
    → (name : String) × (normalize_text room ≡ ok name)
      × (r.next_room_pos ≤ p)
      × (r'.next_room_pos ≡ p + 1)
      × (r'.room_id ≡ some name)
unfolding reserve_room_pos
reserve_room_pos-next room version r r' p e =
    let (name, is_name, rest) = >>=-eq-ok (normalize_text room) _ e in
    let (_, done) =
      >>-eq-ok (throw_if (bound_elsewhere name r) (internal "Error"))
        (ok (take_position name version r)) rest in
    let taken : max 1 r.next_room_pos ≡ p = cc in
    let next : max 1 r.next_room_pos + 1 ≡ r'.next_room_pos = cc in
    (name, is_name, ground arith, ground arith, cc)

next_state-keeps :
    (x : Platform) (e : Admitted) (p : ℕ) (r : Runtime) (es : List StateEntry)
    → ((next_state x e p r es).0.next_room_pos ≡ r.next_room_pos)
      × ((next_state x e p r es).0.room_id ≡ r.room_id)
unfolding next_state write_snapshot
next_state-keeps x e p r es = (ground arith, ground arith)

-- What a transaction leaves.
pub record Commits (room : String) (e : Admitted) (p : ℕ) (s s' : RoomStore) : Type 0 where
  pub above : s.runtime.next_room_pos ≤ p
  pub next : s'.runtime.next_room_pos ≡ p + 1
  pub row : Metadata
  pub at_p : row.room_pos ≡ p
  pub named : row.event_id ≡ e.event_id
  pub written : s'.metadata ≡ put_metadata row s.metadata
  pub bound : s'.runtime.room_id ≡ some room

pub commit-Commits :
    (x : Platform) (room version : String) (e : Admitted) (s s' : RoomStore) (p : ℕ)
    → commit x room version e s ≡ ok (p, s')
    → (name : String) × (normalize_text room ≡ ok name) × Commits name e p s s'
unfolding commit
commit-Commits x room version e s s' p h =
    let ((q, r), reserved, h1) = >>=-eq-ok (reserve_room_pos room version s.runtime) _ h in
    let state = next_state x e q r s.state_entries in
    let (members, _, h2) = >>=-eq-ok (project_membership e q s.members) _ h1 in
    let (rewritten, _, done) =
      >>=-eq-ok (apply_redaction room version e (state.0).current_snapshot_id s state.1) _ h2 in
    let (name, is_name, above, next, bound) =
      reserve_room_pos-next room version s.runtime r q reserved in
    let same : q ≡ p = cc in
    let out : committed_store e q (state.0) members rewritten s ≡ s' = cc in
    let after : (state.0) ≡ s'.runtime = ap (λ t. t.runtime) out in
    let (keeps_next, keeps_room) = next_state-keeps x e q r s.state_entries in
    (
      name,
      is_name,
      record {
        above = rw (← same) above;
        next = ap (λ t. t.next_room_pos) (sym after) ∙ keeps_next ∙ rw (← same) next;
        row = record {
          event_id = e.event_id;
          room_pos = q;
          depth = e.depth;
          event_type = e.event_type;
          state_key = e.state_key;
          sender_user_id = e.sender;
          redacts_event_id = e.redacts;
        };
        at_p = same;
        named = refl;
        written = sym (ap (λ t. t.metadata) out);
        bound = ap (λ t. t.room_id) (sym after) ∙ keeps_room ∙ bound;
      },
    )

pub commit-IsOrdered :
    {room : String} (e : Admitted) (p : ℕ) (s s' : RoomStore)
    → Commits room e p s s'
    → IsOrdered s
    → IsOrdered s'
unfolding IsOrdered
commit-IsOrdered e p s s' c (below, own) =
    rw (c.written, c.next)
      (
        put-Below s.runtime.next_room_pos p c.row s.metadata below c.above c.at_p,
        put-HasOwnPositions s.runtime.next_room_pos c.row s.metadata below (rw c.at_p c.above) own,
      )
