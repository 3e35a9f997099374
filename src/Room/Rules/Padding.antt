-- ===== src/Room/Rules/Padding.antt =====
-- Event types with white space around them, which validation trims and authorization does not.
use matrix_flare.Prelude.{
  not-eq, if◌then◌else◌, String, false, ◌&&◌, not, some, ◌≡◌, refl, ◌≢◌, sym, ap, ◌∙◌, arith,
  eq_iff, str_eq, ok, ok_inj, >>=-eq-ok, >>-eq-ok, get_or_throw, throw_if, is_some, or_else, trim,
  internal,
}
use matrix_flare.Json.{
  str, obj, Fields, get, as_string, as_object, normalize_string, normalize_text,
}
use matrix_flare.Room.State.{EventTables, StateMap, get_membership}
use matrix_flare.Room.Power.{finite, required_event_level}
use matrix_flare.Room.Membership.{Candidate, allowed}
use matrix_flare.Room.Authorize.{
  Shape, validate_candidate_event_shape, candidate_of, check_create, authorize_candidate_event,
  check_event_level,
}
use matrix_flare.Room.Rules.Decisions.{level_lt_iff}
use matrix_flare.Room.Rules.Events.{ReachesLevel}

create-trimmed : normalize_text "m.room.create" ≡ ok "m.room.create"
unfolding normalize_text trim
create-trimmed = refl

redaction-trimmed : normalize_text "m.room.redaction" ≡ ok "m.room.redaction"
unfolding normalize_text trim
redaction-trimmed = refl

-- A text that is trimmed to another is not that other.
trimmed_elsewhere :
    (kind name other : String)
    → normalize_text kind ≡ ok name
    → normalize_text other ≡ ok other
    → str_eq other name ≡ false
    → kind ≢ other
trimmed_elsewhere kind name other h k differs same =
    let e : other ≡ name = ok_inj (sym k ∙ ap normalize_text (sym same) ∙ h) in
    ground (arith, eq_iff other name)

shape_type :
    (version : String) (event : Fields) (kind name : String) (shape : Shape)
    → get "type" event ≡ some (str kind)
    → normalize_text kind ≡ ok name
    → validate_candidate_event_shape version (some (obj event)) ≡ ok shape
    → shape.event_type ≡ name
unfolding validate_candidate_event_shape normalize_string
shape_type version event kind name shape typed trimmed h =
    let h1 = rw (typed, trimmed) at h in
    let (sender, e2, h2) = >>=-eq-ok (normalize_string (get "sender" event)) _ h1 in
    let (content, e3, h3) =
      >>=-eq-ok (get_or_throw (as_object (get "content" event)) (internal "bad_json")) _ h2 in
    let state_key = as_string (get "state_key" event) in
    let (_, h4) =
      >>-eq-ok
        (throw_if (str_eq name "m.room.member" && not (is_some state_key)) (internal "bad_json")) _
        h3 in
    let (_, h5) =
      >>-eq-ok
        (if str_eq name "m.room.create"
          then check_create version event content state_key
          else allowed)
        _ h4 in
    let (_, h6) =
      >>-eq-ok
        (throw_if
          (str_eq name "m.room.redaction" && not (is_some (as_string (get "redacts" event))))
          (internal "bad_json"))
        _ h5 in
    ap (λ (s : Shape). s.event_type) (sym (ok_inj h6))

module _ (t : EventTables) (version : String) (m : StateMap) where
  reaches : (c : Candidate) → ReachesLevel t version m c → check_event_level t version m c ≡ allowed
  unfolding check_event_level
  reaches c (level, levels, found, read, enough) =
      let needed = required_event_level version levels c.event_type (is_some c.state_key) in
      let not_below = (level_lt_iff level (finite needed)).1 enough in
      rw (found, read, not_below) refl

  other_allowed :
      (c : Candidate)
      → c.event_type ≢ "m.room.create"
      → c.event_type ≢ "m.room.member"
      → c.event_type ≢ "m.room.redaction"
      → get_membership t m c.sender ≡ ok (some "join")
      → ReachesLevel t version m c
      → authorize_candidate_event t version m c ≡ allowed
  unfolding authorize_candidate_event
  other_allowed c create member redaction joined enough =
      rw (not-eq _ _ create, joined, not-eq _ _ member, not-eq _ _ redaction) (reaches c enough)

  -- A type that is `m.room.member` but for white space around it: an event of that type that passes
  -- validation passes as a membership event, and is authorized, whatever membership its content sets
  -- and for whom, where its sender is joined and reaches the level that the room asks for the type as it
  -- was sent. The membership rules are not applied to it.
  pub padded_member_escapes :
      (event : Fields) (kind : String) (shape : Shape)
      → get "type" event ≡ some (str kind)
      → normalize_text kind ≡ ok "m.room.member"
      → kind ≢ "m.room.member"
      → validate_candidate_event_shape version (some (obj event)) ≡ ok shape
      → get_membership t m (candidate_of event).sender ≡ ok (some "join")
      → ReachesLevel t version m (candidate_of event)
      → (shape.event_type ≡ "m.room.member")
        × (authorize_candidate_event t version m (candidate_of event) ≡ allowed)
  padded_member_escapes event kind shape typed padded differs valid joined enough =
      let same : (candidate_of event).event_type ≡ kind =
        unfold candidate_of in ap (λ o. or_else (as_string o) "") typed in
      let create =
        trimmed_elsewhere kind "m.room.member" "m.room.create" padded create-trimmed refl in
      let redaction =
        trimmed_elsewhere kind "m.room.member" "m.room.redaction" padded redaction-trimmed refl in
      (
        shape_type version event kind "m.room.member" shape typed padded valid,
        other_allowed (candidate_of event) (λ e. create (sym same ∙ e))
            (λ e. differs (sym same ∙ e)) (λ e. redaction (sym same ∙ e)) joined enough,
      )
