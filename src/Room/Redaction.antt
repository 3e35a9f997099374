-- ===== src/Room/Redaction.antt =====
-- Room-domain.mjs: `redactEventForRoomVersion`.
use matrix_flare.Prelude.{
  String, Bool, false, ◌&&◌, ◌||◌, none, some, List, [], ◌∷◌, str_eq, if◌then◌else◌, includes,
  or_else, ◌≡◌, refl, ◌∙◌, arith, eq_iff, eq_refl, Bool-cases, inl, inr,
}
use matrix_flare.Json.{Json, obj, Fields, end, field, get, as_object, is_nullish, is_text}
use matrix_flare.Room.Power.{set_field}
use matrix_flare.Room.State.{content_field}

abbrev pub redaction_top_level_preserve : List String
redaction_top_level_preserve =
    "event_id" ∷ "type" ∷ "room_id" ∷ "sender" ∷ "state_key" ∷ "origin_server_ts" ∷ "unsigned"
    ∷ "prev_events" ∷ "auth_events" ∷ "depth" ∷ "hashes" ∷ "signatures" ∷ "redacts" ∷ "content" ∷ []

-- Whether the loop passes over a name.
abbrev pub is_dropped : String → String → Bool
is_dropped version name =
    str_eq name "content"
    || (str_eq version "11" && includes ("origin" ∷ "membership" ∷ "prev_state" ∷ []) name)

-- The loop over the names to preserve.
unfoldable pub preserve : String → List String → Fields → Fields
preserve version [] source = end
preserve version (name ∷ names) source =
    let rest = preserve version names source in
    if is_dropped version name
    then rest
    else elim (get name source) [ none ↦ rest | some value ↦ field name value rest ]

abbrev pub content_of : Fields → Fields
content_of event = or_else (as_object (get "content" event)) end

-- `content[name] == null ? {} : { [name]: content[name] }`
abbrev pub only_field : String → Fields → Fields
only_field name content = elim (get name content) [
  | none ↦ end
  | some value ↦ if is_nullish (some value) then end else field name value end
]

-- The signed part of a third party invite.
abbrev pub only_signed : Fields → Fields
only_signed content = elim (as_object (get "third_party_invite" content)) [
  | none ↦ end
  | some invite ↦ elim (get "signed" invite) [
    | none ↦ end
    | some signed ↦
        if is_nullish (some signed)
        then end
        else field "third_party_invite" (obj (field "signed" signed end)) end
  ]
]

unfoldable pub get_v11_redacted_content : Fields → Fields
get_v11_redacted_content event =
    if is_text (get "type" event) "m.room.create"
    then content_of event
    else if is_text (get "type" event) "m.room.redaction"
    then only_field "redacts" (content_of event)
    else if is_text (get "type" event) "m.room.power_levels"
    then only_field "invite" (content_of event)
    else if is_text (get "type" event) "m.room.member"
    then only_signed (content_of event)
    else end

unfoldable pub get_v12_redacted_content : Fields → Fields
get_v12_redacted_content event =
    if is_text (get "type" event) "m.room.create" then content_of event else end

abbrev pub redacted_content : String → Fields → Fields
redacted_content version event =
    if str_eq version "11" then get_v11_redacted_content event else get_v12_redacted_content event

-- `redactEventForRoomVersion`, of a version that has been resolved and an event that is an object
unfoldable pub redact_event_for_room_version : String → Fields → Fields → Fields
redact_event_for_room_version version event redacted_by =
    let kept = preserve version redaction_top_level_preserve event in
    let unsigned = or_else (as_object (get "unsigned" event)) end in
    set_field "unsigned" (obj (set_field "redacted_because" (obj redacted_by) unsigned))
      (set_field "content" (obj (redacted_content version event)) kept)

get-set_field : (k : String) (v : Json) (fs : Fields) → get k (set_field k v fs) ≡ some v
unfolding get set_field
get-set_field k v end = rw (eq_refl k)
get-set_field k v (field j w fs) = let rest = get-set_field k v fs in ground (arith, eq_refl k)

get-set_field-other :
    (j k : String) (v : Json) (fs : Fields)
    → str_eq k j ≡ false
    → get j (set_field k v fs) ≡ get j fs
unfolding get set_field
get-set_field-other j k v end e = rw e
get-set_field-other j k v (field i w fs) e =
    let rest = get-set_field-other j k v fs e in ground (arith, eq_iff i k, eq_iff i j, eq_iff k j)

only_signed-membership : (content : Fields) → get "membership" (only_signed content) ≡ none
unfolding get
only_signed-membership content = ground arith

only_field-membership :
    (name : String) (content : Fields)
    → str_eq name "membership" ≡ false
    → get "membership" (only_field name content) ≡ none
unfolding get
only_field-membership name content e = ground arith

v11-without_membership :
    (event : Fields)
    → is_text (get "type" event) "m.room.create" ≡ false
    → get "membership" (get_v11_redacted_content event) ≡ none
unfolding get_v11_redacted_content
v11-without_membership event e =
    let of_redaction = only_field-membership "redacts" (content_of event) refl in
    let of_levels = only_field-membership "invite" (content_of event) refl in
    let of_member = only_signed-membership (content_of event) in
    let of_end : get "membership" end ≡ none = unfold get in refl in
    elim (Bool-cases (is_text (get "type" event) "m.room.redaction")) [
      | inl a ↦ rw (e, a) of_redaction
      | inr a ↦ elim (Bool-cases (is_text (get "type" event) "m.room.power_levels")) [
        | inl b ↦ rw (e, a, b) of_levels
        | inr b ↦ elim (Bool-cases (is_text (get "type" event) "m.room.member")) [
          | inl c ↦ rw (e, a, b, c) of_member
          | inr c ↦ rw (e, a, b, c) of_end
        ]
      ]
    ]

v12-without_membership :
    (event : Fields)
    → is_text (get "type" event) "m.room.create" ≡ false
    → get "membership" (get_v12_redacted_content event) ≡ none
unfolding get_v12_redacted_content get
v12-without_membership event e = rw e

redact-content :
    (version : String) (event redacted_by : Fields)
    → get "content" (redact_event_for_room_version version event redacted_by)
      ≡ some (obj (redacted_content version event))
unfolding redact_event_for_room_version
redact-content version event redacted_by =
    let kept = preserve version redaction_top_level_preserve event in
    let because =
      set_field "redacted_because" (obj redacted_by)
        (or_else (as_object (get "unsigned" event)) end) in
    get-set_field-other "content" "unsigned" (obj because)
      (set_field "content" (obj (redacted_content version event)) kept) refl
    ∙ get-set_field "content" (obj (redacted_content version event)) kept

-- The redaction of an event other than a create event, in either room version, leaves no membership
-- in its content.
pub redact-without_membership :
    (version : String) (event redacted_by : Fields)
    → is_text (get "type" event) "m.room.create" ≡ false
    → content_field (redact_event_for_room_version version event redacted_by) "membership" ≡ none
redact-without_membership version event redacted_by e =
    rw (redact-content version event redacted_by, content_field)
      (elim (Bool-cases (str_eq version "11")) [
        | inl v ↦ rw v (v11-without_membership event e)
        | inr v ↦ rw v (v12-without_membership event e)
      ])
