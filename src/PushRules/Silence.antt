-- ===== src/PushRules/Silence.antt =====
-- The master rule: once it is enabled, no event notifies.
use matrix_flare.Prelude.{
  String, Bool, true, false, Option, none, some, List, [], ◌∷◌, str_eq, ◌≡◌, refl, sym, ap, ◌∙◌,
  inl, inr, arith, Bool-cases, Option-cases, eq_iff,
}
use matrix_flare.Prelude.Members.{Member, head, tail}
use matrix_flare.Json.{Json, obj, Fields, get, is_text}
use matrix_flare.PushRules.Rules.{Kind, override, same_kind, Rule, Row}
use matrix_flare.PushRules.Match.{Context, match_push_rule_by_kind}
use matrix_flare.PushRules.Baseline.{
  master, push_rule_baseline, build_default_push_rule, build_default_push_rules,
}
use matrix_flare.PushRules.View.{
  is_custom, is_override_of, default_override, override_with, overridden, build_push_rules_view,
}
use matrix_flare.PushRules.Table.{list_rows}
use matrix_flare.PushRules.Evaluate.{
  Evaluation, has_notify, first_of_kind, first_of_kinds, evaluation_order,
  evaluate_push_rule_notification, decided_by,
}
use matrix_flare.PushRules.Keys.{HasUniqueKeys, same_kind-eq}
use matrix_flare.PushRules.Renumbering.{list_rows-member, member-list_rows}
use matrix_flare.PushRules.Followed.{member-same}

abbrev pub master_id : String
master_id = ".m.rule.master"

pub default_override-member :
    (rows : List Row) (k : Kind) (id : String) (r : Row)
    → default_override rows k id ≡ some r
    → Member r rows × (is_override_of k id r ≡ true)
unfolding default_override
default_override-member [] k id r h = cc
default_override-member (row ∷ rows) k id r h = elim (Option-cases (default_override rows k id)) [
  | inr (r', e) ↦
      let same : ◌≡◌ {A = Option Row} (some r') (some r) = rw (default_override, e) at h in
      let same' : r' ≡ r = cc in
      let found : default_override rows k id ≡ some r = cc in
      let (m, o) = default_override-member rows k id r found in (tail m, o)
  | inl e ↦ elim (Bool-cases (is_override_of k id row)) [
    | inl t ↦
        let same : ◌≡◌ {A = Option Row} (some row) (some r) = rw (default_override, e, t) at h in
        let same' : row ≡ r = cc in (head (sym same'), rw (sym same') t)
    | inr f ↦ let bad : ◌≡◌ {A = Option Row} none (some r) = rw (default_override, e, f) at h in cc
  ]
]

member-default_override :
    (rows : List Row) (k : Kind) (id : String) (r : Row)
    → Member r rows
    → is_override_of k id r ≡ true
    → (r' : Row) × (default_override rows k id ≡ some r')
unfolding default_override
member-default_override [] k id r m o = elim m [ ]
member-default_override (row ∷ rows) k id r (head same) o =
    let t : is_override_of k id row ≡ true = rw (sym same) o in
    elim (Option-cases (default_override rows k id)) [
      | inr (r', e) ↦ (r', rw (default_override, e) refl)
      | inl e ↦ (row, rw (default_override, e, t) refl)
    ]
member-default_override (row ∷ rows) k id r (tail m) o =
    let (r', e) = member-default_override rows k id r m o in (r', rw (default_override, e) refl)

pub is_override_of-key :
    (k : Kind) (id : String) (r : Row)
    → is_override_of k id r ≡ true
    → (r.kind ≡ k) × (r.rule_id ≡ id) × (is_custom k r ≡ false)
is_override_of-key k id r o =
    let kinds : same_kind r.kind k ≡ true = ground arith in
    let ids : str_eq r.rule_id id ≡ true = ground arith in
    (same_kind-eq r.kind k kinds, (eq_iff r.rule_id id).0 ids, ground arith)

-- Under unique keys a row for a default rule is the one that the view finds.
pub default_override-eq :
    (rows : List Row) (k : Kind) (id : String) (r : Row)
    → HasUniqueKeys rows
    → Member r rows
    → is_override_of k id r ≡ true
    → default_override (list_rows rows) k id ≡ some r
default_override-eq rows k id r u m o =
    let (r', e) = member-default_override (list_rows rows) k id r (member-list_rows rows r m) o in
    let (m', o') = default_override-member (list_rows rows) k id r' e in
    let (kinds, ids, _) = is_override_of-key k id r o in
    let (kinds', ids', _) = is_override_of-key k id r' o' in
    let same =
      member-same rows r' r u (list_rows-member rows r' m') m (kinds' ∙ sym kinds)
        (ids' ∙ sym ids) in
    rw (sym same) e

-- The first of the override rules decides, where it is enabled and matches.
first_of_kinds-head :
    (event : Json) (context : Context) (view : Kind → List Rule) (rule : Rule) (rest : List Rule)
    → view override ≡ rule ∷ rest
    → rule.enabled ≡ true
    → match_push_rule_by_kind override rule event context ≡ true
    → first_of_kinds event context view evaluation_order ≡ decided_by rule
unfolding first_of_kinds first_of_kind
first_of_kinds-head event context view rule rest head_rule on applies =
    rw (first_of_kinds, head_rule) (simp (applies, on))

-- The master rule of the view, as the user's row for it has it.
abbrev pub master_of : String → List Row → Rule
master_of user rows = overridden rows override (build_default_push_rule user master)

pub view-master :
    (collate : String → String → Bool) (user : String) (rows : List Row)
    → (rest : List Rule) × (build_push_rules_view collate user rows override
        ≡ master_of user rows ∷ rest)
unfolding build_push_rules_view build_default_push_rules build_default_push_rule push_rule_baseline
view-master collate user rows = (_, refl)

-- A stored master rule that is enabled decides about every event that the user has not sent.
pub evaluate-master :
    (collate : String → String → Bool) (user : String) (rows : List Row) (fields : Fields)
    (context : Context) (row : Row)
    → default_override rows override master_id ≡ some row
    → row.enabled ≡ true
    → is_text (get "sender" fields) user ≡ false
    → (evaluate_push_rule_notification collate user rows (obj fields) context).notify
      ≡ has_notify row.actions
unfolding evaluate_push_rule_notification build_default_push_rule match_push_rule_by_kind
evaluate-master collate user rows fields context row found on foreign =
    let (rest, shape) = view-master collate user rows in
    let enabled : (master_of user rows).enabled ≡ true =
      ap (λ o. (override_with (build_default_push_rule user master) o).enabled) found ∙ on in
    let matches : match_push_rule_by_kind override (master_of user rows) (obj fields) context
        ≡ true =
      ap
        (λ o.
          match_push_rule_by_kind override (override_with (build_default_push_rule user master) o)
            (obj fields) context)
        found in
    let decided =
      first_of_kinds-head (obj fields) context (build_push_rules_view collate user rows)
        (master_of user rows) rest shape enabled matches in
    let actions : has_notify (master_of user rows).actions ≡ has_notify row.actions =
      ap (λ o. has_notify (override_with (build_default_push_rule user master) o).actions) found in
    rw foreign (ap (λ (e : Evaluation). e.notify) decided ∙ actions)
