-- ===== src/PushRules/Requests.antt =====
-- Durable-objects.mjs: what the handlers of push rules are asked and answer, and their early returns.
use matrix_flare.Prelude.{
  ℕ, String, Bool, false, Option, none, some, List, str_eq, Error, internal, Result, ok, throws,
  ◌>>=◌,
}
use matrix_flare.Json.{Json}
use matrix_flare.PushRules.Rules.{Kind, Rule}
use matrix_flare.PushRules.Table.{UserState}
use matrix_flare.PushRules.Records.{validate_push_rule_kind, validate_push_rule_id}

-- What is asked, with `request.now`, or the clock where it is left out. The placement arrives as
-- texts of a query.
pub record Request : Type 0 where
  pub user_id : Option Json
  pub kind : Option Json
  pub rule_id : Option Json
  pub body : Option Json
  pub before : Option String
  pub after : Option String
  pub enabled : Option Json
  pub actions : Option Json
  pub now : String

-- An answer. `updated` also hands the position of the change to `wakeSyncWaiters`.
pub data Answer : Type 0 where
  all_rules : (view : Kind → List Rule) → Answer
  one_rule : Rule → Answer
  updated : (wake_pos : ℕ) → Answer
  matrix_error : (status : ℕ) (errcode : String) → Answer

abbrev pub refused_user : Answer
refused_user = matrix_error 403 "M_FORBIDDEN"

abbrev pub not_found : Answer
not_found = matrix_error 404 "M_NOT_FOUND"

abbrev pub invalid_param : Answer
invalid_param = matrix_error 400 "M_INVALID_PARAM"

-- `mapPushRuleWriteErrorToMatrixError`: an error whose message is an envelope gives its errcode.
abbrev pub map_push_rule_write_error : Error → Answer
map_push_rule_write_error (internal errcode) = matrix_error 400 errcode
map_push_rule_write_error _ = invalid_param

abbrev pub is_principal : UserState → String → Bool
is_principal s user = elim s.principal [ none ↦ false | some u ↦ str_eq u user ]

-- `validatePushRuleKind` and `validatePushRuleId`, as the handlers call them
abbrev pub read_key : Bool → Request → Result (Kind × String)
read_key allow_default q = do
  kind ← validate_push_rule_kind q.kind
  id ← validate_push_rule_id allow_default q.rule_id
  ok (kind, id)

-- A write that has come to an end: the answer of the transaction, or of what it threw.
abbrev pub or_write_error : UserState → Result (ℕ × UserState) → Answer × UserState
or_write_error s (ok (wake_pos, s')) = (updated wake_pos, s')
or_write_error s (throws e) = (map_push_rule_write_error e, s)

-- A step of a handler whose error becomes an answer.
abbrev pub or_answer {ℓ} :
    {A : Type ℓ}
    → Answer
    → UserState
    → Result A
    → (A → Result (Answer × UserState))
    → Result (Answer × UserState)
or_answer answer s (ok a) next = next a
or_answer answer s (throws e) next = ok (answer, s)
