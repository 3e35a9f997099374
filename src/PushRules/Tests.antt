-- ===== src/PushRules/Tests.antt =====
-- A user with three rules for words, and what puts, deletions and the master rule make of them.
use Prim.Native.String.{compare}
use text.Mathlib.Text.{is_le}
use matrix_flare.Prelude.{
  ℕ, String, Bool, true, false, Option, none, some, List, [], ◌∷◌, map, ◌≡◌, refl, arith,
  if◌then◌else◌, ok, Result, trim, contains, ends_with, drop_last, eq_iff,
}
use matrix_flare.Prelude.Int.{pos, ◌+ℤ◌, ◌-ℤ◌, ◌<ℤ◌}
use matrix_flare.Prelude.Decimal.{show, print_digits, digit}
use matrix_flare.Prelude.Sort.{insert, sort}
use matrix_flare.Prelude.Members.{head, tail}
use matrix_flare.Json.{
  Json, bool, int, str, obj, nil, cons, Fields, end, field, get, is_text, normalize_string,
  normalize_text,
}
use matrix_flare.Json.Print.{escape_all, stringify}
use matrix_flare.PushRules.Rules.{override, content, Rule, Row}
use matrix_flare.PushRules.Baseline.{
  push_rule_baseline, build_default_push_rule, build_default_push_rules,
}
use matrix_flare.PushRules.Values.{longest_key, read_segments, read_nested_json_value, same_json}
use matrix_flare.PushRules.Match.{
  Context, match_push_rule_pattern, match_push_rule_content_pattern, match_fields,
  match_push_rule_by_kind,
}
use matrix_flare.PushRules.View.{default_override, build_custom_push_rule, build_push_rules_view}
use matrix_flare.PushRules.Evaluate.{first_of_kind, first_of_kinds, evaluate_push_rule_notification}
use matrix_flare.PushRules.Table.{
  get_row, put_row, delete_row, list_rows, UserState, append_user_stream,
}
use matrix_flare.PushRules.Records.{
  validate_push_rule_kind, validate_push_rule_id, normalize_push_rule_body,
  build_push_rule_write_record, index_among, compute_push_rule_priority_index,
  reindex_push_rule_rows, number_from, within_push_rules_storage_limits,
}
use matrix_flare.PushRules.Requests.{Request, Answer, updated, matrix_error, read_key}
use matrix_flare.PushRules.Transactions.{
  put_stamped, put_transaction, delete_transaction, set_transaction,
}
use matrix_flare.PushRules.Handlers.{
  get_push_rules, get_push_rule, put_push_rule, delete_push_rule, set_push_rule_enabled,
  set_push_rule_actions,
}
use matrix_flare.PushRules.Keys.{HasUniqueKeys}
use matrix_flare.PushRules.Numbered.{HasOwnIndices, IsWellKept}
use matrix_flare.PushRules.Reindex.{index}
use matrix_flare.PushRules.Placement.{Placed}
use matrix_flare.PushRules.Order.{put_push_rule-Placed, put_push_rule-keeps_order}
use matrix_flare.PushRules.Steps.{puts, enables, start, next, reached-IsWellKept}
use matrix_flare.PushRules.Verdicts.{
  silent, by_importance, evaluate_push_rule_notification-eq-find, verdict, first_applies,
  all_in_order,
}
use matrix_flare.PushRules.Silence.{master_id}
use matrix_flare.PushRules.Quiet.{set_push_rule_enabled-silences}
use matrix_flare.Session.Tokens.{split_dot}

-- Ids that are plain letters collate by their codes.
abbrev collate : String → String → Bool
collate a b = is_le (compare a b)

abbrev word : String → String → ℕ → Row
word id pattern n = record {
  scope = "global";
  kind = content;
  rule_id = id;
  enabled = true;
  priority_class = "user";
  priority_index = pos n;
  updated_at = "t0";
  actions = cons (str "notify") nil;
  conditions = nil;
  details = record { pattern = some pattern; default_rule = false };
}

abbrev ada : String
ada = "@ada:h"

abbrev three : UserState
three = record {
  principal = some ada;
  bound_user = none;
  next_user_stream_pos = 7;
  stream = [];
  rules = word "a" "tea" 0 ∷ word "b" "rum" 1 ∷ word "c" "gin" 2 ∷ [];
}

abbrev ask : String → String → Option Json → Option String → Option String → Option Json → Request
ask kind id body before after enabled = record {
  user_id = some (str ada);
  kind = some (str kind);
  rule_id = some (str id);
  body = body;
  before = before;
  after = after;
  enabled = enabled;
  actions = none;
  now = "t1";
}

abbrev with_pattern : String → Option Json
with_pattern p = some (obj (field "pattern" (str p) end))

abbrev put_z : Request
put_z = ask "content" "z" (with_pattern "zen") none (some "a") none

abbrev enable_master : Request
enable_master = ask "override" master_id none none none (some (bool true))

abbrev state_of : UserState → Result (Answer × UserState) → UserState
state_of s (ok (answer, s')) = s'
state_of s _ = s

abbrev after_z : UserState
after_z = state_of three (put_push_rule collate three put_z)

abbrev quiet : UserState
quiet = state_of three (set_push_rule_enabled collate three enable_master)

abbrev message : String → Fields
message body =
    field "type" (str "m.room.message")
      (field "sender" (str "@bob:h") (field "content" (obj (field "body" (str body) end)) end))

abbrev here : Context
here = record {
  room_id = some "!r";
  room_member_count = some (int (pos 2));
  sender_notification_permission_room = none;
}

push_rules_code : Unit {0}
unfolding trim contains ends_with drop_last ◌+ℤ◌ ◌-ℤ◌ show print_digits digit insert sort get
    normalize_string normalize_text escape_all stringify push_rule_baseline build_default_push_rule
    build_default_push_rules longest_key read_segments read_nested_json_value same_json
    match_push_rule_pattern match_push_rule_content_pattern match_fields match_push_rule_by_kind
    default_override build_custom_push_rule build_push_rules_view first_of_kind first_of_kinds
    evaluate_push_rule_notification get_row put_row delete_row list_rows append_user_stream
    validate_push_rule_kind validate_push_rule_id normalize_push_rule_body
    build_push_rule_write_record index_among compute_push_rule_priority_index reindex_push_rule_rows
    number_from within_push_rules_storage_limits put_stamped put_transaction delete_transaction
    set_transaction get_push_rules get_push_rule put_push_rule delete_push_rule
    set_push_rule_enabled set_push_rule_actions split_dot HasUniqueKeys
push_rules_code = tt

show_number : show 1207 ≡ "1207"
unfolding push_rules_code
show_number = refl

print_object :
    stringify (obj (message "a\"b"))
    ≡ "{\"type\":\"m.room.message\",\"sender\":\"@bob:h\",\"content\":{\"body\":\"a\\\"b\"}}"
unfolding push_rules_code
print_object = refl

abbrev ids : List Rule → List String
ids rules = map (λ rule. rule.rule_id) rules

-- A rule that is put behind `a` takes the index of `b` and lands behind it: its id collates later.
put_after :
    ids (build_push_rules_view collate ada (list_rows after_z.rules) content)
    ≡ "a" ∷ "b" ∷ "z" ∷ "c" ∷ []
unfolding push_rules_code
put_after = refl

speaks :
    evaluate_push_rule_notification collate ada (list_rows three.rules) (obj (message "gin?")) here
    ≡ record { matched = true; rule_id = some "c"; notify = true; highlight = false }
unfolding push_rules_code
speaks = refl

unknown_rule :
    put_push_rule collate three (ask "content" "z" (with_pattern "zen") (some "q") none none)
    ≡ ok (matrix_error 400 "M_INVALID_PARAM", three)
unfolding push_rules_code
unknown_rule = refl

three-HasUniqueKeys : HasUniqueKeys three.rules
unfolding push_rules_code
three-HasUniqueKeys = ((refl, (refl, tt)), ((refl, tt), (tt, tt)))

reads_z : read_key false put_z ≡ ok (content, "z")
unfolding push_rules_code
reads_z = refl

puts_z : put_push_rule collate three put_z ≡ ok (updated 7, after_z)
unfolding push_rules_code
puts_z = refl

abbrev rule_a : Row
rule_a = word "a" "tea" 0

put_push_rule-Placed_example :
    (x : Row) × (y : Row) × (get_row content "z" after_z.rules ≡ some x)
    × (get_row content "a" after_z.rules ≡ some y)
    × Placed (some "a") false "a" (index x) (index y)
put_push_rule-Placed_example =
    put_push_rule-Placed collate three after_z put_z 7 content "z" three-HasUniqueKeys reads_z
      puts_z rule_a (head refl) refl (λ e. ground (arith, eq_iff "a" "z"))

abbrev rule_b : Row
rule_b = word "b" "rum" 1

put_push_rule-keeps_order_example :
    (x : Row) × (y : Row) × (get_row content "a" after_z.rules ≡ some x)
    × (get_row content "b" after_z.rules ≡ some y)
    × (index x <ℤ index y)
put_push_rule-keeps_order_example =
    put_push_rule-keeps_order collate three after_z put_z 7 content "z" three-HasUniqueKeys reads_z
      puts_z rule_a rule_b (head refl) (tail (head refl)) refl refl
      (λ e. ground (arith, eq_iff "a" "z")) (λ e. ground (arith, eq_iff "b" "z")) (omega arith)

abbrev empty_state : UserState
empty_state = record {
  principal = some ada;
  bound_user = none;
  next_user_stream_pos = 1;
  stream = [];
  rules = [];
}

abbrev one_put : UserState
one_put =
    state_of empty_state
      (put_push_rule collate empty_state (ask "content" "z" (with_pattern "zen") none none none))

abbrev then_quiet : UserState
then_quiet = state_of one_put (set_push_rule_enabled collate one_put enable_master)

puts_first :
    put_push_rule collate empty_state (ask "content" "z" (with_pattern "zen") none none none)
    ≡ ok (updated 1, one_put)
unfolding push_rules_code
puts_first = refl

enables_master : set_push_rule_enabled collate one_put enable_master ≡ ok (updated 2, then_quiet)
unfolding push_rules_code
enables_master = refl

empty-IsWellKept : IsWellKept empty_state.rules
unfolding IsWellKept HasUniqueKeys HasOwnIndices
empty-IsWellKept = (tt, λ kind x y mx my cx cy e. elim mx [ ])

reached-IsWellKept_example : IsWellKept then_quiet.rules
reached-IsWellKept_example =
    reached-IsWellKept collate empty_state then_quiet
      (next (next start (puts _ _ puts_first)) (enables _ _ enables_master)) empty-IsWellKept

evaluate_push_rule_notification-eq-find_example :
    evaluate_push_rule_notification collate ada (list_rows three.rules) (obj (message "gin?")) here
    ≡ (if is_text (get "sender" (message "gin?")) ada
        then silent
        else verdict (
            first_applies (obj (message "gin?")) here (
              all_in_order
                (build_push_rules_view collate ada (list_rows three.rules))
                by_importance)))
evaluate_push_rule_notification-eq-find_example =
    evaluate_push_rule_notification-eq-find collate ada (list_rows three.rules) (message "gin?")
      here

no_master : get_row override master_id three.rules ≡ none
unfolding push_rules_code
no_master = refl

reads_master : read_key true enable_master ≡ ok (override, master_id)
unfolding push_rules_code
reads_master = refl

gets_quiet : set_push_rule_enabled collate three enable_master ≡ ok (updated 7, quiet)
unfolding push_rules_code
gets_quiet = refl

set_push_rule_enabled-silences_example :
    (evaluate_push_rule_notification collate ada
      (list_rows quiet.rules)
      (obj (message "gin?"))
      here).notify
    ≡ false
set_push_rule_enabled-silences_example =
    set_push_rule_enabled-silences collate three quiet enable_master 7 ada (message "gin?") here
      three-HasUniqueKeys no_master reads_master refl gets_quiet
