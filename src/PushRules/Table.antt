-- ===== src/PushRules/Table.antt =====
-- User-persistence.mjs: the table `user_push_rules`, with its primary key and the order in which it
-- is listed, and the stream of a user, which the writers of push rules extend.
use Prim.Native.Nat.{Ordering}
use Prim.Native.String.{compare, then as and_then}
use text.Mathlib.Text.{is_le}
use matrix_flare.Prelude.{
  ℕ, ◌+◌, String, Bool, false, not, ◌&&◌, Option, none, some, List, [], ◌∷◌, ◌++◌, filter, find,
  str_eq, if◌then◌else◌, or_else, Result, ok, throw_if, ◌>>◌, type_error,
}
use matrix_flare.Prelude.Int.{ℤ, ltb_ℤ}
use matrix_flare.Prelude.Sort.{sort}
use matrix_flare.PushRules.Rules.{Kind, same_kind, kind_name, Row}

-- Whether a row has the primary key `('global', kind, rule_id)`: no other scope is written.
abbrev pub has_key : Kind → String → Row → Bool
has_key kind id row = same_kind row.kind kind && str_eq row.rule_id id

unfoldable pub get_row : Kind → String → List Row → Option Row
get_row kind id rows = find (has_key kind id) rows

unfoldable pub put_row : Row → List Row → List Row
put_row row [] = row ∷ []
put_row row (r ∷ rs) =
    let rest = put_row row rs in if has_key row.kind row.rule_id r then row ∷ rs else r ∷ rest

unfoldable pub delete_row : Kind → String → List Row → List Row
delete_row kind id rows = filter (λ row. not (has_key kind id row)) rows

abbrev compare_ℤ : ℤ → ℤ → Ordering
compare_ℤ a b = if ltb_ℤ a b then Ordering.lt else if ltb_ℤ b a then Ordering.gt else Ordering.eq

-- `ORDER BY scope ASC, kind ASC, priority_index ASC, rule_id ASC`
abbrev listed_first : Row → Row → Bool
listed_first l r = is_le (
    and_then (compare l.scope r.scope) (
      and_then (compare (kind_name l.kind) (kind_name r.kind))
        (and_then (compare_ℤ l.priority_index r.priority_index) (compare l.rule_id r.rule_id))))

unfoldable pub list_rows : List Row → List Row
list_rows rows = sort listed_first rows

-- A row of `user_stream`.
pub record StreamEntry : Type 0 where
  pub stream_pos : ℕ
  pub stream_kind : String
  pub created_at : String

-- What the actor of a user keeps, as far as push rules read and write it: the principal's user id,
-- the row of `user_runtime_state`, the stream and the rules.
pub record UserState : Type 0 where
  pub principal : Option String
  pub bound_user : Option String
  pub next_user_stream_pos : ℕ
  pub stream : List StreamEntry
  pub rules : List Row

-- `allocateUserStreamPosWithinTransaction` refuses a user that the actor is not bound to.
abbrev bound_to_other : String → UserState → Bool
bound_to_other user s = elim s.bound_user [ none ↦ false | some u ↦ not (str_eq u user) ]

-- `appendUserStreamWithinTransaction` with no position: one is allocated.
unfoldable pub append_user_stream : String → String → String → UserState → Result (ℕ × UserState)
append_user_stream user kind now s =
    throw_if (bound_to_other user s) type_error
    >> ok (
      s.next_user_stream_pos,
      record {
        principal = s.principal;
        bound_user = some (or_else s.bound_user user);
        next_user_stream_pos = s.next_user_stream_pos + 1;
        stream =
            s.stream
            ++ (record { stream_pos = s.next_user_stream_pos; stream_kind = kind; created_at = now }
                ∷ []);
        rules = s.rules;
      },
    )

abbrev pub with_rules : List Row → UserState → UserState
with_rules rules s = record {
  principal = s.principal;
  bound_user = s.bound_user;
  next_user_stream_pos = s.next_user_stream_pos;
  stream = s.stream;
  rules = rules;
}
