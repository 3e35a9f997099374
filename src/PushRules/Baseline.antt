-- ===== src/PushRules/Baseline.antt =====
-- Client-domain.mjs: the rules that every user has, and their copy for one user.
use matrix_flare.Prelude.{
  String, true, false, none, some, List, [], ◌∷◌, map, str_eq, if◌then◌else◌,
}
use matrix_flare.Json.{
  Json, null, bool, int, frac, str, arr, obj, Items, nil, cons, Fields, end, field,
}
use matrix_flare.PushRules.Rules.{Kind, override, underride, Rule}

abbrev event_match : String → String → Json
event_match key pattern =
    obj
      (field "kind" (str "event_match") (field "key" (str key) (field "pattern" (str pattern) end)))

-- `event_property_is` and `event_property_contains`
abbrev event_property : String → String → Json → Json
event_property kind key value =
    obj (field "kind" (str kind) (field "key" (str key) (field "value" value end)))

abbrev two_members : Json
two_members = obj (field "kind" (str "room_member_count") (field "is" (str "2") end))

abbrev may_notify_room : Json
may_notify_room =
    obj (field "kind" (str "sender_notification_permission") (field "key" (str "room") end))

abbrev set_tweak : String → Json → Json
set_tweak name value = obj (field "set_tweak" (str name) (field "value" value end))

-- A rule of the baseline with its id, its conditions and its actions; only the first is disabled.
abbrev enabled_rule : String → Items → Items → Rule
enabled_rule id conditions actions = record {
  rule_id = id;
  is_default = true;
  enabled = true;
  conditions = some conditions;
  actions = actions;
  pattern = none;
}

abbrev pub master : Rule
master = record {
  rule_id = ".m.rule.master";
  is_default = true;
  enabled = false;
  conditions = some nil;
  actions = nil;
  pattern = none;
}

abbrev override_rules : List Rule
override_rules =
    enabled_rule ".m.rule.suppress_notices" (cons (event_match "content.msgtype" "m.notice") nil)
      nil
    ∷ enabled_rule ".m.rule.invite_for_me"
        (cons (event_match "type" "m.room.member") (
          cons (event_match "content.membership" "invite")
            (cons (event_match "state_key" "$USER_ID") nil)))
        (cons (str "notify") (cons (set_tweak "sound" (str "default")) nil))
    ∷ enabled_rule ".m.rule.member_event" (cons (event_match "type" "m.room.member") nil) nil
    ∷ enabled_rule ".m.rule.is_user_mention"
        (cons
          (event_property "event_property_contains" "content.m.mentions.user_ids" (str "$USER_ID"))
          nil)
        (cons (str "notify")
          (cons (set_tweak "sound" (str "default")) (cons (set_tweak "highlight" (bool true)) nil)))
    ∷ enabled_rule ".m.rule.is_room_mention"
        (cons (event_property "event_property_is" "content.m.mentions.room" (bool true))
          (cons may_notify_room nil))
        (cons (str "notify") (cons (set_tweak "highlight" (bool true)) nil))
    ∷ enabled_rule ".m.rule.tombstone"
        (cons (event_match "type" "m.room.tombstone") (cons (event_match "state_key" "") nil))
        (cons (str "notify") (cons (set_tweak "highlight" (bool true)) nil))
    ∷ enabled_rule ".m.rule.reaction" (cons (event_match "type" "m.reaction") nil) nil
    ∷ enabled_rule ".m.rule.room.server_acl"
        (cons (event_match "type" "m.room.server_acl") (cons (event_match "state_key" "") nil)) nil
    ∷ enabled_rule ".m.rule.suppress_edits"
        (cons (event_property "event_property_is" "content.m.relates_to.rel_type" (str "m.replace"))
          nil)
        nil
    ∷ []

abbrev underride_rules : List Rule
underride_rules =
    enabled_rule ".m.rule.call" (cons (event_match "type" "m.call.invite") nil)
      (cons (str "notify") (cons (set_tweak "sound" (str "ring")) nil))
    ∷ enabled_rule ".m.rule.encrypted_room_one_to_one"
        (cons two_members (cons (event_match "type" "m.room.encrypted") nil))
        (cons (str "notify") (cons (set_tweak "sound" (str "default")) nil))
    ∷ enabled_rule ".m.rule.room_one_to_one"
        (cons two_members (cons (event_match "type" "m.room.message") nil))
        (cons (str "notify") (cons (set_tweak "sound" (str "default")) nil))
    ∷ enabled_rule ".m.rule.message" (cons (event_match "type" "m.room.message") nil)
        (cons (str "notify") nil)
    ∷ enabled_rule ".m.rule.encrypted" (cons (event_match "type" "m.room.encrypted") nil)
        (cons (str "notify") nil)
    ∷ []

unfoldable pub push_rule_baseline : Kind → List Rule
push_rule_baseline override = master ∷ override_rules
push_rule_baseline underride = underride_rules
push_rule_baseline _ = []

abbrev mutual
  -- `substituteBaselineValue`
  pub substitute_baseline_value : Json → String → Json
  substitute_baseline_value (str s) user = if str_eq s "$USER_ID" then str user else str s
  substitute_baseline_value (arr xs) user = arr (substitute_items xs user)
  substitute_baseline_value (obj fs) user = obj (substitute_fields fs user)
  substitute_baseline_value null user = null
  substitute_baseline_value (bool b) user = bool b
  substitute_baseline_value (int n) user = int n
  substitute_baseline_value (frac s) user = frac s

  pub substitute_items : Items → String → Items
  substitute_items nil user = nil
  substitute_items (cons v vs) user =
      cons (substitute_baseline_value v user) (substitute_items vs user)

  pub substitute_fields : Fields → String → Fields
  substitute_fields end user = end
  substitute_fields (field k v fs) user =
      field k (substitute_baseline_value v user) (substitute_fields fs user)

-- `buildDefaultPushRule`: of the parts of a rule, only its conditions and its actions are values
-- that may hold the placeholder.
unfoldable pub build_default_push_rule : String → Rule → Rule
build_default_push_rule user rule = record {
  rule_id = rule.rule_id;
  is_default = rule.is_default;
  enabled = rule.enabled;
  conditions = elim rule.conditions [ none ↦ none | some cs ↦ some (substitute_items cs user) ];
  actions = substitute_items rule.actions user;
  pattern = rule.pattern;
}

-- `buildDefaultPushRules`, of a user id that has been normalized
unfoldable pub build_default_push_rules : String → Kind → List Rule
build_default_push_rules user kind = map (build_default_push_rule user) (push_rule_baseline kind)
