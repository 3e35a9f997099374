-- ===== src/PushRules/Records.antt =====
-- Client-domain.mjs: the checks and the rows behind the writes of push rules.
use text.Mathlib.Text.{starts_with}
use Prim.Native.String.{len}
use matrix_flare.Prelude.{
  ℕ, suc, String, Bool, true, false, not, ◌&&◌, ◌||◌, Option, none, some, List, [], ◌∷◌, length,
  filter, find, str_eq, if◌then◌else◌, is_empty, contains, ltb, leb, or_option, is_some, Result, ok,
  throws, ◌>>=◌, ◌>>◌, throw_if, type_error, range_error,
}
use matrix_flare.Prelude.Int.{ℤ, pos, ◌+ℤ◌, ◌-ℤ◌}
use matrix_flare.Prelude.Sort.{sort}
use matrix_flare.Json.{
  Json, null, bool, int, str, arr, obj, Items, nil, cons, end, field, get, normalize_string,
}
use matrix_flare.Json.Print.{stringify}
use matrix_flare.PushRules.Rules.{
  Kind, override, underride, sender, room, content, kind_name, same_kind, Row,
}
use matrix_flare.PushRules.View.{compare_push_rule_order, is_custom}

abbrev max_push_rules_per_user : ℕ
max_push_rules_per_user = 256

abbrev max_push_rule_conditions : ℕ
max_push_rule_conditions = 32

abbrev max_push_rules_bytes : ℕ
max_push_rules_bytes = 65536

unfoldable pub validate_push_rule_kind : Option Json → Result Kind
validate_push_rule_kind (some (str s)) =
    if str_eq s "override"
    then ok override
    else if str_eq s "underride"
    then ok underride
    else if str_eq s "sender"
    then ok sender
    else if str_eq s "room"
    then ok room
    else if str_eq s "content"
    then ok content
    else throws range_error
validate_push_rule_kind _ = throws range_error

-- `validatePushRuleId`, first with `allow_default`
unfoldable pub validate_push_rule_id : Bool → Option Json → Result String
validate_push_rule_id allow_default value = do
  id ← normalize_string value
  if allow_default && starts_with id "."
      then ok id
      else (throw_if (starts_with id ".") range_error
          >> throw_if (contains id "/" || contains id "\\") range_error
          >> ok id)

pub record Body : Type 0 where
  pub actions : Items
  pub conditions : Items
  pub pattern : Option String

abbrev pub count_items : Items → ℕ
count_items nil = 0
count_items (cons v vs) = suc (count_items vs)

abbrev body_actions : Option Json → Result Items
body_actions none = ok nil
body_actions (some (arr xs)) = ok xs
body_actions (some _) = throws type_error

abbrev body_conditions : Option Json → Result Items
body_conditions none = ok nil
body_conditions (some (arr xs)) =
    if ltb max_push_rule_conditions (count_items xs) then throws range_error else ok xs
body_conditions (some _) = throws type_error

abbrev body_pattern : Kind → Option Json → Result (Option String)
body_pattern kind none = if same_kind kind content then throws type_error else ok none
body_pattern kind (some (str s)) = ok (some s)
body_pattern kind (some _) = throws type_error

unfoldable pub normalize_push_rule_body : Kind → Json → Result Body
normalize_push_rule_body kind (obj body) = do
  actions ← body_actions (get "actions" body)
  conditions ← body_conditions (get "conditions" body)
  pattern ← body_pattern kind (get "pattern" body)
  ok record { actions = actions; conditions = conditions; pattern = pattern }
normalize_push_rule_body kind _ = throws type_error

-- `buildPushRuleWriteRecord` with the default scope, and with a kind and an id that have passed the
-- checks which it repeats.
unfoldable pub build_push_rule_write_record : Kind → String → Json → ℤ → String → Result Row
build_push_rule_write_record kind id body priority_index now = do
  normalized ← normalize_push_rule_body kind body
  updated_at ← normalize_string (some (str now))
  ok record {
    scope = "global";
    kind = kind;
    rule_id = id;
    enabled = true;
    priority_class = "user";
    priority_index = priority_index;
    updated_at = updated_at;
    actions = normalized.actions;
    conditions = normalized.conditions;
    details = record { pattern = normalized.pattern; default_rule = false };
  }

abbrev pub with_index : ℤ → Row → Row
with_index index row = record {
  scope = row.scope;
  kind = row.kind;
  rule_id = row.rule_id;
  enabled = row.enabled;
  priority_class = row.priority_class;
  priority_index = index;
  updated_at = row.updated_at;
  actions = row.actions;
  conditions = row.conditions;
  details = row.details;
}

-- `rows.map((row, index) => ({ ...row, priority_index: index }))`, from an index on
unfoldable pub number_from : ℕ → List Row → List Row
number_from n [] = []
number_from n (row ∷ rows) = with_index (pos n) row ∷ number_from (suc n) rows

-- `before ?? after ?? null`, where the empty text counts as nothing
abbrev pub prioritized_against : Option String → Option String → Option String
prioritized_against before after = elim (or_option before after) [
  | none ↦ none
  | some id ↦ if is_empty id then none else some id
]

abbrev pub shifted : Bool → ℤ → ℤ
shifted before index = if before then index -ℤ pos 1 else index +ℤ pos 1

-- The index next to a rule, or in front of all. Of no other rows it is 0, whatever is named.
unfoldable pub index_among : List Row → Option String → Bool → Result ℤ
index_among [] against before = ok (pos 0)
index_among (first ∷ more) none before = ok (first.priority_index -ℤ pos 1)
index_among (first ∷ more) (some against) before =
    elim (find (λ row. str_eq row.rule_id against) (first ∷ more)) [
      | none ↦ throws range_error
      | some match ↦ ok (shifted before match.priority_index)
    ]

module _ (collate : String → String → Bool) where
  abbrev pub sorted_custom : List Row → Kind → List Row
  sorted_custom rows kind = sort (compare_push_rule_order collate) (filter (is_custom kind) rows)

  abbrev pub other_rows : List Row → Kind → String → List Row
  other_rows rows kind id =
      sort (compare_push_rule_order collate)
        (filter (λ row. is_custom kind row && not (str_eq row.rule_id id)) rows)

  -- `computePushRulePriorityIndex`
  unfoldable pub compute_push_rule_priority_index :
      List Row → Kind → Option String → Option String → String → Result ℤ
  compute_push_rule_priority_index rows kind before after id =
      index_among (other_rows rows kind id) (prioritized_against before after) (is_some before)

  unfoldable pub reindex_push_rule_rows : List Row → Kind → List Row
  reindex_push_rule_rows rows kind = number_from 0 (sorted_custom rows kind)

abbrev global_custom : Row → Bool
global_custom row = str_eq row.scope "global" && not row.details.default_rule

abbrev record_json : Row → Json
record_json row = obj (
    field "rule_kind" (str (kind_name row.kind)) (
      field "pattern" (elim row.details.pattern [ none ↦ null | some p ↦ str p ])
        (field "default_rule" (bool row.details.default_rule) end)))

abbrev row_json : Row → Json
row_json row = obj (
    field "scope" (str row.scope) (
      field "kind" (str (kind_name row.kind)) (
        field "rule_id" (str row.rule_id) (
          field "enabled" (bool row.enabled) (
            field "priority_index" (int row.priority_index) (
              field "actions" (arr row.actions) (
                field "conditions" (arr row.conditions)
                  (field "record" (record_json row) end))))))))

abbrev rows_json : List Row → Items
rows_json [] = nil
rows_json (row ∷ rows) = cons (row_json row) (rows_json rows)

abbrev pub stored_bytes : List Row → ℕ
stored_bytes rows =
    len (stringify (arr (rows_json (filter (λ row. str_eq row.scope "global") rows))))

-- Whether `assertPushRulesStorageLimits` answers `{ ok: true }`.
unfoldable pub within_push_rules_storage_limits : List Row → Bool
within_push_rules_storage_limits rows =
    leb (length (filter global_custom rows)) max_push_rules_per_user
    && ltb (stored_bytes rows) max_push_rules_bytes
