-- ===== src/PushRules/View.antt =====
-- Client-domain.mjs: the rules that a user sees, and what they decide about an event.
use matrix_flare.Prelude.{
  String, Bool, true, false, not, ◌&&◌, ◌||◌, Option, none, some, List, [], ◌∷◌, ◌++◌, map, filter,
  str_eq, if◌then◌else◌, or_else, or_option,
}
use matrix_flare.Prelude.Int.{ltb_ℤ}
use matrix_flare.Prelude.Sort.{sort}
use matrix_flare.Json.{Items, nil, cons}
use matrix_flare.PushRules.Rules.{Kind, override, underride, content, same_kind, Rule, Row}
use matrix_flare.PushRules.Baseline.{build_default_push_rules}

-- `comparePushRuleOrder` at most 0; `collate a b` says that `a.localeCompare(b)` is at most 0.
abbrev pub compare_push_rule_order : (String → String → Bool) → Row → Row → Bool
compare_push_rule_order collate left right =
    ltb_ℤ left.priority_index right.priority_index
    || (not (ltb_ℤ right.priority_index left.priority_index) && collate left.rule_id right.rule_id)

abbrev pub is_custom : Kind → Row → Bool
is_custom kind row =
    str_eq row.scope "global" && same_kind row.kind kind && not row.details.default_rule

abbrev pub is_override_of : Kind → String → Row → Bool
is_override_of kind id row =
    str_eq row.scope "global"
    && same_kind row.kind kind
    && row.details.default_rule
    && str_eq row.rule_id id

-- `defaultOverrides.get(...)`: of several rows under a key the last.
unfoldable pub default_override : List Row → Kind → String → Option Row
default_override [] kind id = none
default_override (row ∷ rows) kind id =
    or_option (default_override rows kind id)
      (if is_override_of kind id row then some row else none)

-- A rule of the baseline, as the user's row for it has it. (The columns are arrays.)
abbrev pub override_with : Rule → Option Row → Rule
override_with rule none = rule
override_with rule (some row) = record {
  rule_id = rule.rule_id;
  is_default = rule.is_default;
  enabled = row.enabled;
  conditions = rule.conditions;
  actions = row.actions;
  pattern = rule.pattern;
}

abbrev pub overridden : List Row → Kind → Rule → Rule
overridden rows kind rule = override_with rule (default_override rows kind rule.rule_id)

abbrev pub is_nil : Items → Bool
is_nil nil = true
is_nil (cons v vs) = false

-- `rule.conditions` after `normalizePushRuleFromRow` and `buildCustomPushRule`
abbrev custom_conditions : Kind → Items → Option Items
custom_conditions kind conditions =
    if not (is_nil conditions)
    then some conditions
    else if same_kind kind override || same_kind kind underride
    then some nil
    else none

abbrev custom_pattern : Kind → Option String → Option String
custom_pattern kind pattern = if same_kind kind content then some (or_else pattern "") else pattern

unfoldable pub build_custom_push_rule : Row → Rule
build_custom_push_rule row = record {
  rule_id = row.rule_id;
  is_default = row.details.default_rule;
  enabled = row.enabled;
  conditions = custom_conditions row.kind row.conditions;
  actions = row.actions;
  pattern = custom_pattern row.kind row.details.pattern;
}

abbrev pub only_first {ℓ} : {A : Type ℓ} → List A → List A
only_first [] = []
only_first (x ∷ xs) = x ∷ []

abbrev pub all_but_first {ℓ} : {A : Type ℓ} → List A → List A
all_but_first [] = []
all_but_first (x ∷ xs) = xs

-- The custom rules between the master rule and the rest of the defaults, or before the defaults.
abbrev pub arrange : Kind → List Rule → List Rule → List Rule
arrange override defaults custom = only_first defaults ++ custom ++ all_but_first defaults
arrange underride defaults custom = custom ++ defaults
arrange _ defaults custom = custom

module _ (collate : String → String → Bool) where
  unfoldable pub build_push_rules_view : String → List Row → Kind → List Rule
  build_push_rules_view user rows kind =
      arrange kind (map (overridden rows kind) (build_default_push_rules user kind)) (
        map build_custom_push_rule
          (sort (compare_push_rule_order collate) (filter (is_custom kind) rows)))
