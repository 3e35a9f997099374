-- ===== src/PushRules/Evaluate.antt =====
-- Client-domain.mjs: `evaluatePushRuleNotification`.
use matrix_flare.Prelude.{
  String, Bool, true, false, not, ◌&&◌, ◌||◌, Option, none, some, List, [], ◌∷◌, if◌then◌else◌,
}
use matrix_flare.Json.{Json, obj, Items, nil, cons, is_text, is_false}
use matrix_flare.PushRules.Rules.{Kind, override, underride, sender, room, content, Rule, Row}
use matrix_flare.PushRules.Match.{Context, match_push_rule_by_kind, field_of}
use matrix_flare.PushRules.View.{build_push_rules_view}

-- `actions.includes('notify')`
abbrev pub has_notify : Items → Bool
has_notify nil = false
has_notify (cons v vs) = is_text (some v) "notify" || has_notify vs

-- The first action that sets the highlight tweak sets it to something other than `false`.
abbrev pub sets_highlight : Items → Bool
sets_highlight nil = false
sets_highlight (cons v vs) =
    let rest = sets_highlight vs in
    if is_text (field_of "set_tweak" v) "highlight"
    then not (is_false (field_of "value" v))
    else rest

pub record Evaluation : Type 0 where
  pub matched : Bool
  pub rule_id : Option String
  pub notify : Bool
  pub highlight : Bool

abbrev pub no_match : Evaluation
no_match = record { matched = false; rule_id = none; notify = false; highlight = false }

abbrev pub decided_by : Rule → Evaluation
decided_by rule = record {
  matched = true;
  rule_id = some rule.rule_id;
  notify = has_notify rule.actions;
  highlight = sets_highlight rule.actions;
}

abbrev pub applies : Json → Context → Kind → Rule → Bool
applies event context kind rule = rule.enabled && match_push_rule_by_kind kind rule event context

-- The loop over the rules of a kind, with its early return, and the loop over the kinds.
unfoldable pub first_of_kind : Json → Context → Kind → List Rule → Option Evaluation
first_of_kind event context kind [] = none
first_of_kind event context kind (rule ∷ rules) =
    let rest = first_of_kind event context kind rules in
    if not rule.enabled || not (match_push_rule_by_kind kind rule event context)
    then rest
    else some (decided_by rule)

unfoldable pub first_of_kinds : Json → Context → (Kind → List Rule) → List Kind → Evaluation
first_of_kinds event context view [] = no_match
first_of_kinds event context view (kind ∷ kinds) =
    let rest = first_of_kinds event context view kinds in
    elim (first_of_kind event context kind (view kind)) [ none ↦ rest | some answer ↦ answer ]

abbrev pub evaluation_order : List Kind
evaluation_order = override ∷ content ∷ room ∷ sender ∷ underride ∷ []

abbrev is_object : Json → Bool
is_object (obj fields) = true
is_object _ = false

module _ (collate : String → String → Bool) where
  -- `evaluatePushRuleNotification`, of a user id that has been normalized
  unfoldable pub evaluate_push_rule_notification : String → List Row → Json → Context → Evaluation
  evaluate_push_rule_notification user rows event context =
      if not (is_object event) || is_text (field_of "sender" event) user
      then no_match
      else first_of_kinds event context (build_push_rules_view collate user rows) evaluation_order
