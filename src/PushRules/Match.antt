-- ===== src/PushRules/Match.antt =====
-- Client-domain.mjs: whether a push rule applies to an event.
use text.Mathlib.Text.{starts_with}
use matrix_flare.Prelude.{
  String, Bool, true, false, ◌&&◌, ◌||◌, Option, none, some, str_eq, if◌then◌else◌, is_empty,
  ends_with, contains, drop_first, drop_last, or_else,
}
use matrix_flare.Json.{Json, str, arr, obj, Items, nil, cons, Fields, get, is_text, is_true}
use matrix_flare.PushRules.Rules.{Kind, override, underride, sender, room, content, Rule}
use matrix_flare.PushRules.Values.{read_nested_json_value, json_value_equals, text_of}

-- What `evaluatePushRuleNotification` is told besides the event.
pub record Context : Type 0 where
  pub room_id : Option String
  pub room_member_count : Option Json
  pub sender_notification_permission_room : Option Json

unfoldable pub match_push_rule_pattern : Option Json → Option Json → Bool
match_push_rule_pattern (some (str value)) (some (str pattern)) =
    if str_eq pattern "*"
    then true
    else if ends_with pattern "*"
    then starts_with value (drop_last pattern)
    else str_eq value pattern
match_push_rule_pattern value pattern = false

-- Whether a text has more than two characters: `pattern.length > 2`.
abbrev longer_than_two : String → Bool
longer_than_two pattern = if is_empty (drop_first (drop_first pattern)) then false else true

unfoldable pub match_push_rule_content_pattern : Option Json → Option String → Bool
match_push_rule_content_pattern (some (str body)) (some pattern) =
    if is_empty pattern
    then false
    else if str_eq pattern "*"
    then true
    else if starts_with pattern "*" && ends_with pattern "*" && longer_than_two pattern
    then contains body (drop_last (drop_first pattern))
    else if starts_with pattern "*"
    then ends_with body (drop_first pattern)
    else if ends_with pattern "*"
    then starts_with body (drop_last pattern)
    else contains body pattern
match_push_rule_content_pattern body pattern = false

-- `value.some((entry) => jsonValueEquals(entry, wanted))`
abbrev some_equals : Items → Option Json → Bool
some_equals nil wanted = false
some_equals (cons v vs) wanted = json_value_equals (some v) wanted || some_equals vs wanted

abbrev contains_value : Option Json → Option Json → Bool
contains_value (some (arr xs)) wanted = some_equals xs wanted
contains_value value wanted = false

-- `String(value ?? '')`
abbrev text_or_empty : Option Json → String
text_or_empty none = ""
text_or_empty (some v) = text_of v

-- A condition that is an object.
unfoldable pub match_fields : Fields → Json → Context → Bool
match_fields condition event context =
    if is_text (get "kind" condition) "event_match"
    then match_push_rule_pattern (read_nested_json_value event (get "key" condition))
        (get "pattern" condition)
    else if is_text (get "kind" condition) "event_property_contains"
    then contains_value (read_nested_json_value event (get "key" condition)) (get "value" condition)
    else if is_text (get "kind" condition) "event_property_is"
    then json_value_equals (read_nested_json_value event (get "key" condition))
        (get "value" condition)
    else if is_text (get "kind" condition) "room_member_count"
    then str_eq (text_or_empty context.room_member_count) (text_or_empty (get "is" condition))
    else if is_text (get "kind" condition) "sender_notification_permission"
    then is_text (get "key" condition) "room" && is_true context.sender_notification_permission_room
    else false

abbrev pub match_push_rule_condition : Json → Json → Context → Bool
match_push_rule_condition (obj condition) event context = match_fields condition event context
match_push_rule_condition condition event context = false

abbrev pub every_condition : Items → Json → Context → Bool
every_condition nil event context = true
every_condition (cons c cs) event context =
    match_push_rule_condition c event context && every_condition cs event context

abbrev pub field_of : String → Json → Option Json
field_of name (obj fields) = get name fields
field_of name _ = none

unfoldable pub match_push_rule_by_kind : Kind → Rule → Json → Context → Bool
match_push_rule_by_kind content rule event context =
    match_push_rule_content_pattern (read_nested_json_value event (some (str "content.body")))
      rule.pattern
match_push_rule_by_kind room rule event context = elim context.room_id [
  | none ↦ false
  | some id ↦ str_eq id rule.rule_id
]
match_push_rule_by_kind sender rule event context = is_text (field_of "sender" event) rule.rule_id
match_push_rule_by_kind override rule event context =
    every_condition (or_else rule.conditions nil) event context
match_push_rule_by_kind underride rule event context =
    every_condition (or_else rule.conditions nil) event context
