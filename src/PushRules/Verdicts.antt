-- ===== src/PushRules/Verdicts.antt =====
-- What push rules decide about an event, against an account of it as one list of rules.
use matrix_flare.Prelude.{
  String, Bool, true, false, ◌&&◌, Option, none, some, List, [], ◌∷◌, ◌++◌, map, find,
  if◌then◌else◌, ◌≡◌, refl, sym, ap, ◌∙◌, inl, inr, Bool-cases,
}
use matrix_flare.Json.{Json, obj, Fields, get, is_text}
use matrix_flare.PushRules.Rules.{Kind, override, underride, sender, room, content, Rule, Row}
use matrix_flare.PushRules.Match.{Context, match_push_rule_by_kind}
use matrix_flare.PushRules.View.{build_push_rules_view}
use matrix_flare.PushRules.Evaluate.{
  Evaluation, no_match, has_notify, sets_highlight, first_of_kind, first_of_kinds, evaluation_order,
  evaluate_push_rule_notification,
}

-- The account: the rules of all kinds in one list, each with its kind, and the first that applies.
abbrev pub tagged : Kind → List Rule → List (Kind × Rule)
tagged kind rules = map (λ rule. (kind, rule)) rules

abbrev pub all_in_order : (Kind → List Rule) → List Kind → List (Kind × Rule)
all_in_order view [] = []
all_in_order view (kind ∷ kinds) = tagged kind (view kind) ++ all_in_order view kinds

-- The rule is enabled and its conditions hold, and what it then says.
abbrev pub is_in_force : Json → Context → Kind → Rule → Bool
is_in_force event context kind rule =
    rule.enabled && match_push_rule_by_kind kind rule event context

abbrev pub saying : Rule → Evaluation
saying rule = record {
  matched = true;
  rule_id = some rule.rule_id;
  notify = has_notify rule.actions;
  highlight = sets_highlight rule.actions;
}

-- Nothing is found.
abbrev pub silent : Evaluation
silent = record { matched = false; rule_id = none; notify = false; highlight = false }

-- The kinds, the most important first.
abbrev pub by_importance : List Kind
by_importance = override ∷ content ∷ room ∷ sender ∷ underride ∷ []

abbrev pub first_applies : Json → Context → List (Kind × Rule) → Option (Kind × Rule)
first_applies event context rules = find (λ entry. is_in_force event context entry.0 entry.1) rules

abbrev pub verdict : Option (Kind × Rule) → Evaluation
verdict none = silent
verdict (some (kind, rule)) = saying rule

module _ (event : Json) (context : Context) where
  first_of_kind-find :
      (kind : Kind) (rules : List Rule) (rest : List (Kind × Rule))
      → verdict (first_applies event context (tagged kind rules ++ rest))
        ≡ (elim (first_of_kind event context kind rules) [
          | none ↦ verdict (first_applies event context rest)
          | some answer ↦ answer
        ])
  unfolding first_of_kind
  first_of_kind-find kind [] rest = refl
  first_of_kind-find kind (rule ∷ rules) rest =
      elim (Bool-cases (match_push_rule_by_kind kind rule event context)) [
        | inl t ↦ elim (Bool-cases rule.enabled) [
          | inl e ↦ simp (t, e)
          | inr e ↦ simp (t, e) (first_of_kind-find kind rules rest)
        ]
        | inr f ↦ elim (Bool-cases rule.enabled) [
          | inl e ↦ simp (f, e) (first_of_kind-find kind rules rest)
          | inr e ↦ simp (f, e) (first_of_kind-find kind rules rest)
        ]
      ]

  -- The two loops of the evaluation, with their early returns, decide as the first enabled rule
  -- that matches, over the override, content, room, sender and underride rules in this order; no
  -- rule is found where none of them applies.
  pub first_of_kinds-eq-find :
      (view : Kind → List Rule) (kinds : List Kind)
      → first_of_kinds event context view kinds
        ≡ verdict (first_applies event context (all_in_order view kinds))
  unfolding first_of_kinds
  first_of_kinds-eq-find view [] = refl
  first_of_kinds-eq-find view (kind ∷ kinds) = sym (
      first_of_kind-find kind (view kind) (all_in_order view kinds)
      ∙ ap
          (λ rest. elim (first_of_kind event context kind (view kind)) [
            | none ↦ rest
            | some answer ↦ answer
          ])
          (sym (first_of_kinds-eq-find view kinds)))

-- For an event that is an object, `evaluatePushRuleNotification` finds nothing if the user sent the
-- event, and else decides as the first enabled rule that matches, of the user's override, content,
-- room, sender and underride rules in this order.
pub evaluate_push_rule_notification-eq-find :
    (collate : String → String → Bool) (user : String) (rows : List Row) (fields : Fields)
    (context : Context)
    → evaluate_push_rule_notification collate user rows (obj fields) context ≡ (
        if is_text (get "sender" fields) user
        then silent
        else verdict (
            first_applies
              (obj fields)
              context
              (all_in_order (build_push_rules_view collate user rows) by_importance)))
unfolding evaluate_push_rule_notification
evaluate_push_rule_notification-eq-find collate user rows fields context =
    ap (λ decided. if is_text (get "sender" fields) user then no_match else decided)
      (first_of_kinds-eq-find (obj fields) context (build_push_rules_view collate user rows)
        evaluation_order)
