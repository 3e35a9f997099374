-- ===== src/PushRules/Invariant.antt =====
-- The invariant of the table of push rules, over everything the actor is asked.
use matrix_flare.Prelude.{
  ℕ, String, Bool, true, false, Option, none, some, or_else, ◌≡◌, refl, sym, ap, ◌∙◌, subst, inl,
  inr, arith, Bool-cases, Option-cases, Result, ok, throws, ok_inj, >>=-eq-ok, >>-eq-ok,
}
use matrix_flare.Prelude.Int.{pos}
use matrix_flare.Json.{Json, null, bool, int, frac, str, arr, obj, end, normalize_string}
use matrix_flare.PushRules.Rules.{Kind, Row}
use matrix_flare.PushRules.View.{is_custom}
use matrix_flare.PushRules.Table.{get_row, put_row, delete_row, UserState, with_rules}
use matrix_flare.PushRules.Records.{build_push_rule_write_record, with_index}
use matrix_flare.PushRules.Requests.{
  Request, Answer, matrix_error, invalid_param, read_key, or_answer, or_write_error, is_principal,
}
use matrix_flare.PushRules.Transactions.{
  stamped, renumbered, check_limits, default_row, with_enabled, with_actions, put_transaction,
  delete_transaction, set_transaction,
}
use matrix_flare.PushRules.Handlers.{
  as_principal, set_rule, delete_known, find_rule, put_push_rule, delete_push_rule,
  set_push_rule_enabled, set_push_rule_actions, set_enabled, set_actions,
}
use matrix_flare.PushRules.Followed.{member-get_row}
use matrix_flare.PushRules.Puts.{append_user_stream-rules, put_transaction-rules, written_record}
use matrix_flare.PushRules.Numbered.{
  IsWellKept, put_custom-IsWellKept, delete-IsWellKept, change-IsWellKept, put_default-IsWellKept,
}

-- A property of the state that a handler leaves: it holds where nothing is written, and then where
-- the step that may write keeps it.
module _ (P : UserState → Type 0) (s s' : UserState) (before : P s) where
  or_answer-keeps {ℓ} :
      {A : Type ℓ} (refused answer : Answer) (m : Result A) (next : A → Result (Answer × UserState))
      → ((a : A) → m ≡ ok a → next a ≡ ok (answer, s') → P s')
      → or_answer refused s m next ≡ ok (answer, s')
      → P s'
  or_answer-keeps refused answer (ok a) next keeps h = keeps a refl h
  or_answer-keeps refused answer (throws e) next keeps h =
      subst P (ap (λ (p : Answer × UserState). p.1) (ok_inj h)) before

  or_write_error-keeps :
      (answer : Answer) (m : Result (ℕ × UserState))
      → ((w : ℕ) → m ≡ ok (w, s') → P s')
      → or_write_error s m ≡ (answer, s')
      → P s'
  or_write_error-keeps answer (ok (w, t)) keeps h =
      let states : t ≡ s' = ap (λ (p : Answer × UserState). p.1) h in keeps w (rw states refl)
  or_write_error-keeps answer (throws e) keeps h =
      subst P (ap (λ (p : Answer × UserState). p.1) h) before

  stays :
      (refused answer : Answer)
      → ◌≡◌ {A = Result (Answer × UserState)} (ok (refused, s)) (ok (answer, s'))
      → P s'
  stays refused answer h = subst P (ap (λ (p : Answer × UserState). p.1) (ok_inj h)) before

  as_principal-keeps :
      (collate : String → String → Bool) (q : Request) (answer : Answer)
      (next : String → Result (Answer × UserState))
      → ((user : String) → next user ≡ ok (answer, s') → P s')
      → as_principal collate s q next ≡ ok (answer, s')
      → P s'
  as_principal-keeps collate q answer next keeps h =
      let (user, _, h1) = >>=-eq-ok (normalize_string q.user_id) _ h in
      elim (Bool-cases (is_principal s user)) [
        | inl e ↦ keeps user (rw e at h1)
        | inr e ↦ stays (matrix_error 403 "M_FORBIDDEN") answer (rw e at h1)
      ]

abbrev Kept : UserState → Type 0
Kept s = IsWellKept s.rules

module _ (collate : String → String → Bool) (s s' : UserState) (q : Request) (kept : Kept s) where
  put-Kept :
      (user : String) (kind : Kind) (id : String) (row : Row) (w : ℕ)
      → is_custom kind row ≡ true
      → put_transaction collate user kind id row q s ≡ ok (w, s')
      → Kept s'
  put-Kept user kind id row w custom h =
      let (n, _, rules) = put_transaction-rules collate user kind id row q s s' w h in
      subst IsWellKept (sym rules) (
        put_custom-IsWellKept collate q.now kind (stamped q.now (with_index n row)) s.rules custom
          kept)

  pub put_push_rule-Kept : (answer : Answer) → put_push_rule collate s q ≡ ok (answer, s') → Kept s'
  unfolding put_push_rule
  put_push_rule-Kept answer = as_principal-keeps Kept s s' kept collate q answer _ (λ user.
      or_answer-keeps Kept s s' kept invalid_param answer (read_key false q) _ (λ (kind, id) key.
        or_answer-keeps Kept s s' kept invalid_param answer
          (build_push_rule_write_record kind id (or_else q.body (obj end)) (pos 0) q.now) _
          (λ row made h.
            or_write_error-keeps Kept s s' kept answer
              (put_transaction collate user kind id row q s)
              (λ w. put-Kept user kind id row w (written_record kind id q.now _ row made).0)
              (ok_inj h))))

  delete-Kept :
      (user : String) (kind : Kind) (id : String) (answer : Answer)
      → delete_known collate s q user kind id ≡ ok (answer, s')
      → Kept s'
  unfolding delete_transaction
  delete-Kept user kind id answer h = elim (Option-cases (get_row kind id s.rules)) [
    | inl e ↦ stays Kept s s' kept _ answer (rw (delete_known, e) at h)
    | inr (row, e) ↦ elim (Bool-cases row.details.default_rule) [
      | inl t ↦ stays Kept s s' kept _ answer (rw (delete_known, e, t) at h)
      | inr f ↦
          let ((w, t), done, out) =
            >>=-eq-ok (delete_transaction collate user kind id q s) _
              (rw (delete_known, e, f) at h) in
          let states : t ≡ s' = ap (λ (p : Answer × UserState). p.1) (ok_inj out) in
          let rules = renumbered collate q.now kind (delete_row kind id s.rules) in
          let left =
            append_user_stream-rules user "push_rules" q.now (with_rules rules s) t w done in
          subst Kept states
            (subst IsWellKept (sym left) (delete-IsWellKept collate q.now id kind s.rules kept))
    ]
  ]

  pub delete_push_rule-Kept :
      (answer : Answer) → delete_push_rule collate s q ≡ ok (answer, s') → Kept s'
  unfolding delete_push_rule
  delete_push_rule-Kept answer = as_principal-keeps Kept s s' kept collate q answer _ (λ user.
      or_answer-keeps Kept s s' kept invalid_param answer (read_key false q) _
        (λ (kind, id) key h. delete-Kept user kind id answer h))

  set-Kept :
      (user : String) (row : Row) (w : ℕ)
      → IsWellKept (put_row (stamped q.now row) s.rules)
      → set_transaction collate user row q s ≡ ok (w, s')
      → Kept s'
  unfolding set_transaction
  set-Kept user row w well h =
      let rules = put_row (stamped q.now row) s.rules in
      let (_, h1) = >>-eq-ok (check_limits rules) _ h in
      subst IsWellKept
        (sym (append_user_stream-rules user "push_rules" q.now (with_rules rules s) s' w h1)) well

  set_rule-Kept :
      (change : Row → Row) (user : String) (kind : Kind) (id : String) (answer : Answer)
      → ((r : Row) → (change r).kind ≡ r.kind)
      → ((r : Row) → (change r).rule_id ≡ r.rule_id)
      → ((r : Row) → (change r).priority_index ≡ r.priority_index)
      → ((k : Kind) (r : Row) → is_custom k (change r) ≡ is_custom k r)
      → set_rule collate s q change user kind id ≡ ok (answer, s')
      → Kept s'
  set_rule-Kept change user kind id answer kinds ids indices customs h =
      elim (Option-cases (get_row kind id s.rules)) [
        | inr (row, e) ↦
            or_write_error-keeps Kept s s' kept answer
              (set_transaction collate user (change row) q s)
              (λ w. set-Kept user (change row) w (
                change-IsWellKept row (stamped q.now (change row)) s.rules
                  (member-get_row kind id s.rules row e).0 (kinds row) (ids row) (indices row)
                  (λ k. customs k row) kept))
              (ok_inj (rw (set_rule, e) at h))
        | inl e ↦ elim (Option-cases (find_rule collate user kind id s)) [
          | inl e' ↦ stays Kept s s' kept _ answer (rw (set_rule, e, e') at h)
          | inr (rule, e') ↦
              let row = change (default_row kind id rule) in
              or_write_error-keeps Kept s s' kept answer (set_transaction collate user row q s)
                (λ w. set-Kept user row w (
                  put_default-IsWellKept (stamped q.now row) s.rules
                    (λ k. customs k (default_row kind id rule) ∙ ground arith) kept))
                (ok_inj (rw (set_rule, e, e') at h))
        ]
      ]

  set_enabled-Kept :
      (user : String) (kind : Kind) (id : String) (answer : Answer) (value : Option Json)
      → set_enabled collate s q user kind id value ≡ ok (answer, s')
      → Kept s'
  set_enabled-Kept user kind id answer (some (bool v)) h =
      set_rule-Kept (with_enabled v) user kind id answer (λ r. refl) (λ r. refl) (λ r. refl)
        (λ k r. refl) h
  set_enabled-Kept user kind id answer none h = stays Kept s s' kept _ answer h
  set_enabled-Kept user kind id answer (some null) h = stays Kept s s' kept _ answer h
  set_enabled-Kept user kind id answer (some (int n)) h = stays Kept s s' kept _ answer h
  set_enabled-Kept user kind id answer (some (frac t)) h = stays Kept s s' kept _ answer h
  set_enabled-Kept user kind id answer (some (str t)) h = stays Kept s s' kept _ answer h
  set_enabled-Kept user kind id answer (some (arr xs)) h = stays Kept s s' kept _ answer h
  set_enabled-Kept user kind id answer (some (obj fs)) h = stays Kept s s' kept _ answer h

  pub set_push_rule_enabled-Kept :
      (answer : Answer) → set_push_rule_enabled collate s q ≡ ok (answer, s') → Kept s'
  unfolding set_push_rule_enabled
  set_push_rule_enabled-Kept answer = as_principal-keeps Kept s s' kept collate q answer _ (λ user.
      or_answer-keeps Kept s s' kept invalid_param answer (read_key true q) _
        (λ (kind, id) key. set_enabled-Kept user kind id answer q.enabled))

  set_actions-Kept :
      (user : String) (kind : Kind) (id : String) (answer : Answer) (value : Option Json)
      → set_actions collate s q user kind id value ≡ ok (answer, s')
      → Kept s'
  set_actions-Kept user kind id answer (some (arr v)) h =
      set_rule-Kept (with_actions v) user kind id answer (λ r. refl) (λ r. refl) (λ r. refl)
        (λ k r. refl) h
  set_actions-Kept user kind id answer none h = stays Kept s s' kept _ answer h
  set_actions-Kept user kind id answer (some null) h = stays Kept s s' kept _ answer h
  set_actions-Kept user kind id answer (some (bool b)) h = stays Kept s s' kept _ answer h
  set_actions-Kept user kind id answer (some (int n)) h = stays Kept s s' kept _ answer h
  set_actions-Kept user kind id answer (some (frac t)) h = stays Kept s s' kept _ answer h
  set_actions-Kept user kind id answer (some (str t)) h = stays Kept s s' kept _ answer h
  set_actions-Kept user kind id answer (some (obj fs)) h = stays Kept s s' kept _ answer h

  pub set_push_rule_actions-Kept :
      (answer : Answer) → set_push_rule_actions collate s q ≡ ok (answer, s') → Kept s'
  unfolding set_push_rule_actions
  set_push_rule_actions-Kept answer = as_principal-keeps Kept s s' kept collate q answer _ (λ user.
      or_answer-keeps Kept s s' kept invalid_param answer (read_key true q) _
        (λ (kind, id) key. set_actions-Kept user kind id answer q.actions))
