-- ===== src/Room/Tests.antt =====
-- A room of version 12, and the rules of the room at it.
use matrix_flare.Prelude.{
  String, false, Option, none, some, [], ◌∷◌, ◌≡◌, refl, ◌≢◌, ◌⊎◌, ◌↔◌, inl, arith, eq_iff, str_eq,
  ok, trim,
}
use matrix_flare.Json.{str, obj, Fields, end, field, get, normalize_text, normalize_string}
use matrix_flare.Room.State.{
  StateEntry, EventTables, StateMap, load_room_event_by_id, build_room_state_tuple_key, get_entry,
  get_typed_state_event, typed_state_content, get_create_event, get_join_rule, get_membership,
}
use matrix_flare.Room.Power.{
  infinite, room_creators, creator_names, get_user_power_level, user_level, level_in,
  get_current_power_levels_content, default_power_levels, required_event_level, add_creator_levels,
  set_field,
}
use matrix_flare.Room.Membership.{
  Candidate, MembershipFacts, decide_membership, decide_join, decide_invite, decide_knock,
  decide_ban, decide_leave, gather_facts, authorize_membership_event, allowed, forbidden,
}
use matrix_flare.Room.Authorize.{
  Shape, candidate_of, validate_candidate_event_shape, authorize_candidate_event,
  authorize_redaction, check_event_level,
}
use matrix_flare.Room.Redaction.{redact_event_for_room_version}
use matrix_flare.Room.Bans.{rewritten, redacted_member_forgotten}
use matrix_flare.Room.Rules.Decisions.{MayBan, MayUnban}
use matrix_flare.Room.Rules.Members.{banned_stays, authorize_membership_event_iff, IsPermitted}
use matrix_flare.Room.Rules.Padding.{padded_member_escapes}
use matrix_flare.Room.Rules.Events.{
  RedactsOwn, ReachesLevel, authorize_candidate_event_sound, creator_cannot_be_removed,
}

abbrev pub event_of : String → String → Fields → Fields
event_of kind sender content =
    field "type" (str kind) (field "sender" (str sender) (field "content" (obj content) end))

abbrev pub membership_content : String → Fields
membership_content m = field "membership" (str m) end

abbrev pub entry : String → String → String → Option String → StateEntry
entry kind key id membership = record {
  snapshot_id = "snapshot-4";
  event_type = kind;
  state_key = key;
  event_id = id;
  membership = membership;
  event_room_pos = 1;
}

abbrev pub create_event : Fields
create_event = event_of "m.room.create" "@ada:h" (field "room_version" (str "12") end)

abbrev pub tables : EventTables
tables = record {
  metadata_ids = "$create" ∷ "$ada" ∷ "$bob" ∷ "$eve" ∷ [];
  hot_events =
      record { event_id = "$create"; canonical_json = some create_event }
      ∷ record {
        event_id = "$ada";
        canonical_json = some (event_of "m.room.member" "@ada:h" (membership_content "join"));
      }
      ∷ record {
        event_id = "$bob";
        canonical_json = some (event_of "m.room.member" "@bob:h" (membership_content "join"));
      }
      ∷ record {
        event_id = "$eve";
        canonical_json = some (event_of "m.room.member" "@ada:h" (membership_content "ban"));
      }
      ∷ [];
}

abbrev room : StateMap
room =
    ("m.room.create\0", entry "m.room.create" "" "$create" none)
    ∷ ("m.room.member\0@ada:h", entry "m.room.member" "@ada:h" "$ada" (some "join"))
    ∷ ("m.room.member\0@bob:h", entry "m.room.member" "@bob:h" "$bob" (some "join"))
    ∷ ("m.room.member\0@eve:h", entry "m.room.member" "@eve:h" "$eve" (some "ban"))
    ∷ []

abbrev candidate : String → String → Option String → Fields → Candidate
candidate kind sender key content = record {
  event_type = kind;
  sender = sender;
  state_key = key;
  content = content;
  redacts = none;
  route_template = none;
}

abbrev pub message : Candidate
message = candidate "m.room.message" "@bob:h" none (field "body" (str "hello") end)

abbrev ban_bob : Candidate
ban_bob = candidate "m.room.member" "@ada:h" (some "@bob:h") (membership_content "ban")

abbrev ban_ada : Candidate
ban_ada = candidate "m.room.member" "@bob:h" (some "@ada:h") (membership_content "ban")

-- The code that the tests run.
unfoldable pub room_code : Unit {0}
unfolding authorize_candidate_event get_membership get_typed_state_event build_room_state_tuple_key
    normalize_text normalize_string trim get_entry typed_state_content load_room_event_by_id get
    check_event_level get_user_power_level get_current_power_levels_content required_event_level
    default_power_levels get_create_event user_level level_in room_creators creator_names
    add_creator_levels set_field authorize_membership_event gather_facts decide_membership
    decide_ban decide_join decide_leave decide_invite decide_knock get_join_rule authorize_redaction
room_code = tt

message-allowed : authorize_candidate_event tables "12" room message ≡ allowed
unfolding room_code
message-allowed = refl

ban_allowed : authorize_membership_event tables "12" room ban_bob "@bob:h" ≡ allowed
unfolding room_code
ban_allowed = refl

-- Not even another member of the room may ban its creator.
ban_of_creator_refused : authorize_membership_event tables "12" room ban_ada "@ada:h" ≡ forbidden
unfolding room_code
ban_of_creator_refused = refl

pub different : (s t : String) → str_eq s t ≡ false → s ≢ t
different s t e same = ground (arith, eq_iff s t)

authorize_candidate_event_sound_example :
    (get_membership tables room "@bob:h" ≡ ok (some "join"))
    × (((message.event_type ≡ "m.room.redaction") × RedactsOwn tables "12" room message)
        ⊎ ReachesLevel tables "12" room message)
authorize_candidate_event_sound_example =
    authorize_candidate_event_sound tables "12" room message
      (different "m.room.message" "m.room.create" refl)
      (different "m.room.message" "m.room.member" refl) message-allowed

creator_cannot_be_removed_example :
    authorize_membership_event tables "12" room ban_ada "@ada:h" ≢ allowed
unfolding room_code
creator_cannot_be_removed_example =
    creator_cannot_be_removed tables room ban_ada "@ada:h" (some create_event) "ban" refl refl
      (different "@bob:h" "@ada:h" refl) refl (inl refl)

authorize_membership_event_iff_example :
    (authorize_membership_event tables "12" room ban_bob "@bob:h" ≡ allowed)
    ↔ IsPermitted tables "12" room ban_bob "@bob:h"
authorize_membership_event_iff_example =
    authorize_membership_event_iff tables "12" room ban_bob "@bob:h"

abbrev ban_eve : Candidate
ban_eve = candidate "m.room.member" "@ada:h" (some "@eve:h") (membership_content "ban")

banned_stays_example :
    (membership : String) × (f : MembershipFacts) × (normalize_string
        (get "membership" ban_eve.content)
      ≡ ok membership)
    × (gather_facts tables "12" room ban_eve "@eve:h" ≡ ok f)
    × (((membership ≡ "ban") × MayBan f) ⊎ ((membership ≡ "leave") × MayUnban f))
unfolding room_code
banned_stays_example = banned_stays tables "12" room ban_eve "@eve:h" refl refl

-- A creator's ban of a joined user, with a space behind the type.
abbrev padded : Fields
padded = field "type" (str "m.room.member ") (
    field "sender" (str "@ada:h")
      (field "state_key" (str "@bob:h") (field "content" (obj (membership_content "ban")) end)))

abbrev padded_shape : Shape
padded_shape = record { event_type = "m.room.member"; sender = "@ada:h"; state_key = some "@bob:h" }

padded_member_escapes_example :
    (padded_shape.event_type ≡ "m.room.member")
    × (authorize_candidate_event tables "12" room (candidate_of padded) ≡ allowed)
unfolding room_code candidate_of validate_candidate_event_shape
padded_member_escapes_example =
    padded_member_escapes tables "12" room padded "m.room.member " padded_shape refl refl
      (different "m.room.member " "m.room.member" refl) refl refl (infinite, _, refl, refl, tt)

abbrev eve_banned : Fields
eve_banned = event_of "m.room.member" "@ada:h" (membership_content "ban")

eve_is_banned : get_membership tables room "@eve:h" ≡ ok (some "ban")
unfolding room_code
eve_is_banned = refl

redacted_member_forgotten_example :
    get_membership
      (rewritten tables "$eve" (redact_event_for_room_version "12" eve_banned end))
      room
      "@eve:h"
    ≡ ok none
unfolding room_code
redacted_member_forgotten_example =
    redacted_member_forgotten tables room "12" "@eve:h"
      (entry "m.room.member" "@eve:h" "$eve" (some "ban")) eve_banned end refl refl refl
