-- ===== src/PushRules/Quiet.antt =====
-- `setPushRuleEnabled` of the master rule, followed by the evaluation of an event.
use matrix_flare.Prelude.{
  ℕ, String, Bool, true, false, Option, none, some, List, ◌∷◌, find, str_eq, ◌≡◌, refl, sym, ap,
  ◌∙◌, subst, inl, inr, ok, ok_inj, Bool-cases, Option-cases, >>-eq-ok, eq_iff,
}
use matrix_flare.Json.{obj, bool, Fields, get, is_text}
use matrix_flare.PushRules.Rules.{Kind, override, Rule, Row}
use matrix_flare.PushRules.Match.{Context}
use matrix_flare.PushRules.Baseline.{master, build_default_push_rule}
use matrix_flare.PushRules.View.{default_override, override_with}
use matrix_flare.PushRules.Table.{get_row, put_row, list_rows, UserState, with_rules}
use matrix_flare.PushRules.Evaluate.{has_notify, evaluate_push_rule_notification}
use matrix_flare.PushRules.Requests.{Request, updated, read_key}
use matrix_flare.PushRules.Transactions.{
  stamped, default_row, with_enabled, check_limits, set_transaction,
}
use matrix_flare.PushRules.Handlers.{find_rule, set_rule, set_push_rule_enabled, set_enabled}
use matrix_flare.PushRules.Keys.{HasUniqueKeys, put_row-HasUniqueKeys, get_row-member}
use matrix_flare.PushRules.Renumbering.{list_rows-member}
use matrix_flare.PushRules.Followed.{member-put_row-self}
use matrix_flare.PushRules.Puts.{
  append_user_stream-rules, or_answer-updated, or_write_error-updated, as_principal-updated,
}
use matrix_flare.PushRules.Silence.{
  master_id, default_override-member, default_override-eq, is_override_of-key, view-master,
  master_of, evaluate-master,
}

override_with-id : (rule : Rule) (o : Option Row) → (override_with rule o).rule_id ≡ rule.rule_id
override_with-id rule none = refl
override_with-id rule (some row) = refl

first_found :
    (rule : Rule) (rules : List Rule)
    → rule.rule_id ≡ master_id
    → find (λ (r : Rule). str_eq r.rule_id master_id) (rule ∷ rules) ≡ some rule
first_found rule rules e =
    let test : str_eq rule.rule_id master_id ≡ true = (eq_iff rule.rule_id master_id).1 e in
    simp test

module _ (collate : String → String → Bool) where
  pub set_transaction-rules :
      (user : String) (row : Row) (q : Request) (s s' : UserState) (w : ℕ)
      → set_transaction collate user row q s ≡ ok (w, s')
      → s'.rules ≡ put_row (stamped q.now row) s.rules
  unfolding set_transaction
  set_transaction-rules user row q s s' w h =
      let rules = put_row (stamped q.now row) s.rules in
      let (_, h1) = >>-eq-ok (check_limits rules) _ h in
      append_user_stream-rules user "push_rules" q.now (with_rules rules s) s' w h1

  -- A default rule without a row of its own is the one that the view shows.
  no_row :
      (s : UserState)
      → HasUniqueKeys s.rules
      → get_row override master_id s.rules ≡ none
      → default_override (list_rows s.rules) override master_id ≡ none
  no_row s u absent =
      elim (Option-cases (default_override (list_rows s.rules) override master_id)) [
        | inl e ↦ e
        | inr (r, e) ↦
            let (m, o) = default_override-member (list_rows s.rules) override master_id r e in
            let (kinds, ids, _) = is_override_of-key override master_id r o in
            let stored = get_row-member s.rules r u (list_rows-member s.rules r m) in
            let moved : get_row override master_id s.rules ≡ get_row r.kind r.rule_id s.rules =
              rw (kinds, ids) refl in
            let bad : ◌≡◌ {A = Option Row} none (some r) = sym absent ∙ moved ∙ stored in cc
      ]

  find-master :
      (user : String) (s : UserState)
      → find_rule collate user override master_id s ≡ some (master_of user (list_rows s.rules))
  unfolding build_default_push_rule
  find-master user s =
      let (rest, shape) = view-master collate user (list_rows s.rules) in
      let named = override_with-id (build_default_push_rule user master) _ in
      ap (find (λ rule. str_eq rule.rule_id master_id)) shape
      ∙ first_found (master_of user (list_rows s.rules)) rest named

  enabled_row : Request → UserState → String → Row
  enabled_row q s owner =
      stamped q.now
        (with_enabled true (default_row override master_id (master_of owner (list_rows s.rules))))

  enabling-rules :
      (s s' : UserState) (q : Request) (w : ℕ) (owner : String)
      → get_row override master_id s.rules ≡ none
      → set_enabled collate s q owner override master_id (some (bool true)) ≡ ok (updated w, s')
      → s'.rules ≡ put_row (enabled_row q s owner) s.rules
  unfolding enabled_row
  enabling-rules s s' q w owner absent h =
      let found = find-master owner s in
      let row =
        with_enabled true (default_row override master_id (master_of owner (list_rows s.rules))) in
      let done = rw (set_enabled, set_rule, absent, found) at h in
      set_transaction-rules owner row q s s' w
        (or_write_error-updated s s' (set_transaction collate owner row q s) w (ok_inj done))

  -- A user who has no row for the master rule enables it: in the table that this leaves, no event
  -- notifies.
  pub set_push_rule_enabled-silences :
      (s s' : UserState) (q : Request) (w : ℕ) (user : String) (fields : Fields) (context : Context)
      → HasUniqueKeys s.rules
      → get_row override master_id s.rules ≡ none
      → read_key true q ≡ ok (override, master_id)
      → q.enabled ≡ some (bool true)
      → set_push_rule_enabled collate s q ≡ ok (updated w, s')
      → (evaluate_push_rule_notification collate user
          (list_rows s'.rules)
          (obj fields)
          context).notify
        ≡ false
  unfolding set_push_rule_enabled evaluate_push_rule_notification build_default_push_rule
      enabled_row
  set_push_rule_enabled-silences s s' q w user fields context u absent key on h =
      let (owner, h1) = as_principal-updated collate s s' q w _ h in
      let (k, key', h2) = or_answer-updated 400 "M_INVALID_PARAM" s s' (read_key true q) _ w h1 in
      let same : k ≡ (override, master_id) = ok_inj (sym key' ∙ key) in
      let h3 =
        subst
          (λ (k : Kind × String).
            set_enabled collate s q owner k.0 k.1 q.enabled ≡ ok (updated w, s'))
          same h2 in
      let h4 =
        subst (λ v. set_enabled collate s q owner override master_id v ≡ ok (updated w, s')) on
          h3 in
      let rules = enabling-rules s s' q w owner absent h4 in
      let row = enabled_row q s owner in
      let u' = put_row-HasUniqueKeys row s.rules u in
      let stored =
        default_override-eq (put_row row s.rules) override master_id row u'
          (member-put_row-self row s.rules) refl in
      let stored' : default_override (list_rows s'.rules) override master_id ≡ some row =
        ap (λ rs. default_override (list_rows rs) override master_id) rules ∙ stored in
      let quiet : has_notify row.actions ≡ false =
        ap (λ o. has_notify (override_with (build_default_push_rule owner master) o).actions)
          (no_row s u absent) in
      elim (Bool-cases (is_text (get "sender" fields) user)) [
        | inl own ↦ rw own refl
        | inr foreign ↦
            evaluate-master collate user (list_rows s'.rules) fields context row stored' refl
              foreign
            ∙ quiet
      ]
