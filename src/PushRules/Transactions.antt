-- ===== src/PushRules/Transactions.antt =====
-- Durable-objects.mjs: the transactions of the handlers that write push rules. What one throws is
-- rolled back: the state is the one before.
use matrix_flare.Prelude.{
  ℕ, String, Bool, true, not, List, [], ◌∷◌, or_else, Error, internal, Result, ◌>>=◌, ◌>>◌,
  throw_if,
}
use matrix_flare.Prelude.Int.{pos}
use matrix_flare.Json.{Items, nil}
use matrix_flare.PushRules.Requests.{Request}
use matrix_flare.PushRules.Rules.{Kind, Rule, Row}
use matrix_flare.PushRules.Table.{
  put_row, delete_row, list_rows, UserState, append_user_stream, with_rules,
}
use matrix_flare.PushRules.Records.{
  compute_push_rule_priority_index, with_index, reindex_push_rule_rows,
  within_push_rules_storage_limits,
}

abbrev pub stamped : String → Row → Row
stamped now row = record {
  scope = row.scope;
  kind = row.kind;
  rule_id = row.rule_id;
  enabled = row.enabled;
  priority_class = row.priority_class;
  priority_index = row.priority_index;
  updated_at = now;
  actions = row.actions;
  conditions = row.conditions;
  details = row.details;
}

-- The loop that puts the rows of `reindexPushRuleRows`.
unfoldable pub put_stamped : String → List Row → List Row → List Row
put_stamped now [] rows = rows
put_stamped now (row ∷ more) rows = put_stamped now more (put_row (stamped now row) rows)

-- What `setPushRuleEnabled` and `setPushRuleActions` write.
abbrev pub with_enabled : Bool → Row → Row
with_enabled enabled row = record {
  scope = row.scope;
  kind = row.kind;
  rule_id = row.rule_id;
  enabled = enabled;
  priority_class = row.priority_class;
  priority_index = row.priority_index;
  updated_at = row.updated_at;
  actions = row.actions;
  conditions = row.conditions;
  details = row.details;
}

abbrev pub with_actions : Items → Row → Row
with_actions actions row = record {
  scope = row.scope;
  kind = row.kind;
  rule_id = row.rule_id;
  enabled = row.enabled;
  priority_class = row.priority_class;
  priority_index = row.priority_index;
  updated_at = row.updated_at;
  actions = actions;
  conditions = row.conditions;
  details = row.details;
}

-- The row that a rule of the view has before it is changed: its own, or a new one for a default.
abbrev pub default_row : Kind → String → Rule → Row
default_row kind id rule = record {
  scope = "global";
  kind = kind;
  rule_id = id;
  enabled = rule.enabled;
  priority_class = "default";
  priority_index = pos 0;
  updated_at = "";
  actions = rule.actions;
  conditions = or_else rule.conditions nil;
  details = record { pattern = rule.pattern; default_rule = true };
}

abbrev limit_exceeded : Error
limit_exceeded = internal "M_LIMIT_EXCEEDED"

abbrev pub check_limits : List Row → Result (Unit {0})
check_limits rows =
    throw_if (not (within_push_rules_storage_limits (list_rows rows))) limit_exceeded

module _ (collate : String → String → Bool) where
  abbrev pub renumbered : String → Kind → List Row → List Row
  renumbered now kind rows =
      put_stamped now (reindex_push_rule_rows collate (list_rows rows) kind) rows

  -- The transaction of `putPushRule`.
  unfoldable pub put_transaction :
      String → Kind → String → Row → Request → UserState → Result (ℕ × UserState)
  put_transaction user kind id row q s = do
    index ← compute_push_rule_priority_index collate (list_rows s.rules) kind q.before q.after id
    let rules = renumbered q.now kind (put_row (stamped q.now (with_index index row)) s.rules)
    check_limits rules >> append_user_stream user "push_rules" q.now (with_rules rules s)

  -- The transaction of `deletePushRule`.
  unfoldable pub delete_transaction :
      String → Kind → String → Request → UserState → Result (ℕ × UserState)
  delete_transaction user kind id q s =
      append_user_stream user "push_rules" q.now
        (with_rules (renumbered q.now kind (delete_row kind id s.rules)) s)

  -- The transaction of `setPushRuleEnabled` and of `setPushRuleActions`, with the row to write.
  unfoldable pub set_transaction : String → Row → Request → UserState → Result (ℕ × UserState)
  set_transaction user row q s =
      check_limits (put_row (stamped q.now row) s.rules)
      >> append_user_stream user "push_rules" q.now
          (with_rules (put_row (stamped q.now row) s.rules) s)
