-- ===== src/PushRules/Handlers.antt =====
-- Durable-objects.mjs: the six handlers of push rules in the actor of a user.
use matrix_flare.Prelude.{
  String, Bool, true, false, Option, none, some, find, str_eq, if◌then◌else◌, or_else, Result, ok,
  ◌>>=◌,
}
use matrix_flare.Prelude.Int.{pos}
use matrix_flare.Json.{Json, bool, arr, obj, end, normalize_string}
use matrix_flare.PushRules.Requests.{
  Request, Answer, all_rules, one_rule, updated, matrix_error, refused_user, not_found,
  invalid_param, is_principal, read_key, or_write_error, or_answer,
}
use matrix_flare.PushRules.Transactions.{
  with_enabled, with_actions, default_row, put_transaction, delete_transaction, set_transaction,
}
use matrix_flare.PushRules.Rules.{Kind, Rule, Row}
use matrix_flare.PushRules.View.{build_push_rules_view}
use matrix_flare.PushRules.Table.{get_row, list_rows, UserState}
use matrix_flare.PushRules.Records.{validate_push_rule_kind, build_push_rule_write_record}

module _ (collate : String → String → Bool) where
  abbrev pub find_rule : String → Kind → String → UserState → Option Rule
  find_rule user kind id s =
      find (λ rule. str_eq rule.rule_id id)
        (build_push_rules_view collate user (list_rows s.rules) kind)

  -- The check of the user, which every handler makes.
  abbrev pub as_principal :
      UserState → Request → (String → Result (Answer × UserState)) → Result (Answer × UserState)
  as_principal s q next = do
    user ← normalize_string q.user_id
    if is_principal s user then next user else ok (refused_user, s)

  unfoldable pub get_push_rules : UserState → Request → Result (Answer × UserState)
  get_push_rules s q =
      as_principal s q
        (λ user. ok (all_rules (build_push_rules_view collate user (list_rows s.rules)), s))

  unfoldable pub get_push_rule : UserState → Request → Result (Answer × UserState)
  get_push_rule s q = or_answer invalid_param s (validate_push_rule_kind q.kind) (λ kind.
      normalize_string q.rule_id >>= (λ id. as_principal s q (λ user.
        elim (find_rule user kind id s) [
          | none ↦ ok (not_found, s)
          | some rule ↦ ok (one_rule rule, s)
        ])))

  unfoldable pub put_push_rule : UserState → Request → Result (Answer × UserState)
  put_push_rule s q = as_principal s q (λ user.
      or_answer invalid_param s (read_key false q) (λ (kind, id).
        or_answer invalid_param s
          (build_push_rule_write_record kind id (or_else q.body (obj end)) (pos 0) q.now)
          (λ row. ok (or_write_error s (put_transaction collate user kind id row q s)))))

  -- The deletion of a rule that may not be there, or not be the user's own.
  abbrev pub delete_known :
      UserState → Request → String → Kind → String → Result (Answer × UserState)
  delete_known s q user kind id = elim (get_row kind id s.rules) [
    | none ↦ ok (not_found, s)
    | some row ↦
        if row.details.default_rule
        then ok (not_found, s)
        else (delete_transaction collate user kind id q s
            >>= (λ (wake_pos, s'). ok (updated wake_pos, s')))
  ]

  unfoldable pub delete_push_rule : UserState → Request → Result (Answer × UserState)
  delete_push_rule s q = as_principal s q (λ user.
      or_answer invalid_param s (read_key false q) (λ (kind, id). delete_known s q user kind id))

  -- What the two setters share: the row to change, of the table or of a default rule.
  abbrev pub set_rule :
      UserState → Request → (Row → Row) → String → Kind → String → Result (Answer × UserState)
  set_rule s q change user kind id = elim (get_row kind id s.rules) [
    | some row ↦ ok (or_write_error s (set_transaction collate user (change row) q s))
    | none ↦ elim (find_rule user kind id s) [
      | none ↦ ok (not_found, s)
      | some rule ↦
          ok (
            or_write_error s (set_transaction collate user (change (default_row kind id rule)) q s))
    ]
  ]

  abbrev pub set_enabled :
      UserState → Request → String → Kind → String → Option Json → Result (Answer × UserState)
  set_enabled s q user kind id (some (bool enabled)) =
      set_rule s q (with_enabled enabled) user kind id
  set_enabled s q user kind id value = ok (matrix_error 400 "M_BAD_JSON", s)

  unfoldable pub set_push_rule_enabled : UserState → Request → Result (Answer × UserState)
  set_push_rule_enabled s q = as_principal s q (λ user.
      or_answer invalid_param s (read_key true q)
        (λ (kind, id). set_enabled s q user kind id q.enabled))

  abbrev pub set_actions :
      UserState → Request → String → Kind → String → Option Json → Result (Answer × UserState)
  set_actions s q user kind id (some (arr actions)) =
      set_rule s q (with_actions actions) user kind id
  set_actions s q user kind id value = ok (matrix_error 400 "M_BAD_JSON", s)

  unfoldable pub set_push_rule_actions : UserState → Request → Result (Answer × UserState)
  set_push_rule_actions s q = as_principal s q (λ user.
      or_answer invalid_param s (read_key true q)
        (λ (kind, id). set_actions s q user kind id q.actions))
