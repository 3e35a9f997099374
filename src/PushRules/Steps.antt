-- ===== src/PushRules/Steps.antt =====
-- The handlers of push rules as steps of the user's actor, and the states that it reaches.
use matrix_flare.Prelude.{String, Bool, ◌≡◌, ok}
use matrix_flare.PushRules.Table.{UserState}
use matrix_flare.PushRules.Requests.{Request, Answer}
use matrix_flare.PushRules.Handlers.{
  put_push_rule, delete_push_rule, set_push_rule_enabled, set_push_rule_actions,
}
use matrix_flare.PushRules.Numbered.{IsWellKept}
use matrix_flare.PushRules.Invariant.{
  put_push_rule-Kept, delete_push_rule-Kept, set_push_rule_enabled-Kept, set_push_rule_actions-Kept,
}

module _ (collate : String → String → Bool) where
  -- A handler that answers. One that throws leaves the state as it was. The end of the account, which
  -- deletes every row, is left out.
  pub data Step (s s' : UserState) : Type 0 where
    puts : (q : Request) (a : Answer) → put_push_rule collate s q ≡ ok (a, s') → Step s s'
    deletes : (q : Request) (a : Answer) → delete_push_rule collate s q ≡ ok (a, s') → Step s s'
    enables :
        (q : Request) (a : Answer) → set_push_rule_enabled collate s q ≡ ok (a, s') → Step s s'
    acts : (q : Request) (a : Answer) → set_push_rule_actions collate s q ≡ ok (a, s') → Step s s'

  pub data Reaches (s : UserState) : UserState → Type 0 where
    start : Reaches s s
    next : {t s' : UserState} → Reaches s t → Step t s' → Reaches s s'

  Step-IsWellKept : (s s' : UserState) → Step s s' → IsWellKept s.rules → IsWellKept s'.rules
  Step-IsWellKept s s' (puts q a h) kept = put_push_rule-Kept collate s s' q kept a h
  Step-IsWellKept s s' (deletes q a h) kept = delete_push_rule-Kept collate s s' q kept a h
  Step-IsWellKept s s' (enables q a h) kept = set_push_rule_enabled-Kept collate s s' q kept a h
  Step-IsWellKept s s' (acts q a h) kept = set_push_rule_actions-Kept collate s s' q kept a h

  -- In every state that puts, deletions and changes of push rules reach from a table whose rows
  -- have keys of their own, and whose custom rules of a kind have indices of their own, such as the
  -- empty table, the table is still like that.
  pub reached-IsWellKept :
      (s s' : UserState) → Reaches s s' → IsWellKept s.rules → IsWellKept s'.rules
  reached-IsWellKept s s' start kept = kept
  reached-IsWellKept s s' (next {t} before step) kept =
      Step-IsWellKept t s' step (reached-IsWellKept s t before kept)
