-- ===== src/Room/Membership.antt =====
-- Durable-objects.mjs: `authorizeMembershipEvent`. What it reads of the room is gathered in a
-- record; its branches, in the order of the source, are a function of that record.
use matrix_flare.Prelude.{
  String, Bool, false, ◌&&◌, ◌||◌, not, Option, none, some, List, [], ◌∷◌, str_eq, if◌then◌else◌,
  Result, ok, throws, ◌>>=◌, includes, is_some, internal,
}
use matrix_flare.Prelude.Int.{ℤ, pos}
use matrix_flare.Json.{Fields, get, as_string, normalize_string}
use matrix_flare.Room.State.{EventTables, StateMap, get_create_event, get_join_rule, get_membership}
use matrix_flare.Room.Power.{
  Level, finite, level_lt, level_le, get_user_power_level, get_current_power_levels_content, int_or,
}

-- A candidate event whose `sender` and `content` have been found to be a text and an object. The
-- type and the sender are as the request spelled them; `redacts` is the text of the event.
pub record Candidate : Type 0 where
  pub event_type : String
  pub sender : String
  pub state_key : Option String
  pub content : Fields
  pub redacts : Option String
  pub route_template : Option String

pub record MembershipFacts : Type 0 where
  pub sender : String
  pub target : String
  pub sender_membership : Option String
  pub target_membership : Option String
  pub join_rule : String
  pub sender_power : Level
  pub target_power : Level
  pub invite_level : ℤ
  pub ban_level : ℤ
  pub kick_level : ℤ
  pub create_sender : Option String
  pub route_template : Option String

-- `membership === text` of a membership that may be null
abbrev pub is_at : Option String → String → Bool
is_at none s = false
is_at (some t) s = str_eq t s

abbrev pub is_one_of : Option String → List String → Bool
is_one_of none names = false
is_one_of (some t) names = includes names t

abbrev pub forbidden : Result (Unit {0})
forbidden = throws (internal "room_forbidden")

abbrev pub allowed : Result (Unit {0})
allowed = ok tt

unfoldable pub decide_join : MembershipFacts → Result (Unit {0})
decide_join f =
    if not (str_eq f.sender f.target)
    then forbidden
    else if is_at f.target_membership "ban"
    then forbidden
    else if is_at f.target_membership "join"
    then allowed
    else if is_at f.create_sender f.sender && not (is_some f.target_membership)
    then allowed
    else if is_at f.target_membership "invite"
    then allowed
    else if is_at f.target_membership "knock"
    then allowed
    else if str_eq f.join_rule "public"
    then allowed
    else forbidden

unfoldable pub decide_invite : MembershipFacts → Result (Unit {0})
decide_invite f =
    if not (is_at f.sender_membership "join")
    then forbidden
    else if level_lt f.sender_power (finite f.invite_level)
    then forbidden
    else if is_at f.target_membership "ban"
    then forbidden
    else if is_at f.target_membership "join"
    then forbidden
    else allowed

unfoldable pub decide_knock : MembershipFacts → Result (Unit {0})
decide_knock f =
    if not (str_eq f.sender f.target)
    then forbidden
    else if is_at f.target_membership "ban"
    then forbidden
    else if is_one_of f.target_membership ("join" ∷ "invite" ∷ "knock" ∷ [])
    then forbidden
    else if not (str_eq f.join_rule "knock")
    then forbidden
    else allowed

-- `senderPower < level || senderPower <= targetPower`
abbrev pub is_outranked : MembershipFacts → ℤ → Bool
is_outranked f level =
    level_lt f.sender_power (finite level) || level_le f.sender_power f.target_power

unfoldable pub decide_ban : MembershipFacts → Result (Unit {0})
decide_ban f =
    if not (is_at f.sender_membership "join")
    then forbidden
    else if is_outranked f f.ban_level
    then forbidden
    else allowed

abbrev pub unban_route : String
unban_route = "/_matrix/client/v3/rooms/{roomId}/unban"

unfoldable pub decide_leave : MembershipFacts → Result (Unit {0})
decide_leave f =
    if str_eq f.sender f.target
    then (if is_at f.target_membership "ban"
        then forbidden
        else if not (is_one_of f.target_membership ("join" ∷ "invite" ∷ "knock" ∷ "leave" ∷ []))
        then forbidden
        else allowed)
    else if is_at f.route_template unban_route
    then (if not (is_at f.target_membership "ban")
        then forbidden
        else if is_outranked f f.ban_level
        then forbidden
        else allowed)
    else if is_at f.target_membership "ban"
    then forbidden
    else if not (is_at f.sender_membership "join")
    then forbidden
    else if not (is_one_of f.target_membership ("join" ∷ "invite" ∷ "knock" ∷ []))
    then forbidden
    else if is_outranked f f.kick_level
    then forbidden
    else allowed

-- The branches on the normalised membership.
unfoldable pub decide_membership : String → MembershipFacts → Result (Unit {0})
decide_membership membership f =
    if str_eq membership "join"
    then decide_join f
    else if str_eq membership "invite"
    then decide_invite f
    else if str_eq membership "knock"
    then decide_knock f
    else if str_eq membership "ban"
    then decide_ban f
    else if str_eq membership "leave"
    then decide_leave f
    else throws (internal "bad_json")

-- What the method reads, in its order.
unfoldable pub gather_facts :
    EventTables → String → StateMap → Candidate → String → Result MembershipFacts
gather_facts t version m c target = do
  sender_membership ← get_membership t m c.sender
  target_membership ← get_membership t m target
  join_rule ← get_join_rule t m
  sender_power ← get_user_power_level t version m c.sender
  target_power ← get_user_power_level t version m target
  levels ← get_current_power_levels_content t m
  create ← get_create_event t m
  ok (record {
    sender = c.sender;
    target = target;
    sender_membership = sender_membership;
    target_membership = target_membership;
    join_rule = join_rule;
    sender_power = sender_power;
    target_power = target_power;
    invite_level = int_or "invite" levels (pos 0);
    ban_level = int_or "ban" levels (pos 50);
    kick_level = int_or "kick" levels (pos 50);
    create_sender = elim create [ none ↦ none | some e ↦ as_string (get "sender" e) ];
    route_template = c.route_template;
  })

-- `authorizeMembershipEvent`, with the state key that shape validation has required.
unfoldable pub authorize_membership_event :
    EventTables → String → StateMap → Candidate → String → Result (Unit {0})
authorize_membership_event t version m c target = do
  membership ← normalize_string (get "membership" c.content)
  facts ← gather_facts t version m c target
  decide_membership membership facts
