-- ===== src/PushRules/Puts.antt =====
-- `putPushRule`: its steps on the branch that writes.
use matrix_flare.Prelude.{
  ℕ, String, Bool, true, false, not, none, some, str_eq, or_else, ◌≡◌, refl, sym, ap, subst, inl,
  inr, Bool-cases, Result, ok, throws, >>=-eq-ok, >>-eq-ok, ok_inj, throw_if, type_error,
  range_error, syntax_error, internal,
}
use matrix_flare.Prelude.Int.{ℤ, pos}
use matrix_flare.Json.{Json, obj, end, normalize_string}
use matrix_flare.PushRules.Rules.{Kind, Row}
use matrix_flare.PushRules.View.{is_custom}
use matrix_flare.PushRules.Table.{put_row, list_rows, UserState, append_user_stream, with_rules}
use matrix_flare.PushRules.Records.{
  with_index, compute_push_rule_priority_index, normalize_push_rule_body,
  build_push_rule_write_record,
}
use matrix_flare.PushRules.Requests.{
  Request, Answer, updated, matrix_error, read_key, or_answer, or_write_error, is_principal,
}
use matrix_flare.PushRules.Transactions.{stamped, renumbered, check_limits, put_transaction}
use matrix_flare.PushRules.Handlers.{put_push_rule, as_principal}
use matrix_flare.PushRules.Keys.{same_kind_self}

pub append_user_stream-rules :
    (user kind now : String) (s s' : UserState) (p : ℕ)
    → append_user_stream user kind now s ≡ ok (p, s')
    → s'.rules ≡ s.rules
unfolding append_user_stream
append_user_stream-rules user kind now s s' p h =
    let (_, out) =
      >>-eq-ok
        (throw_if (elim s.bound_user [ none ↦ false | some u ↦ not (str_eq u user) ]) type_error) _
        h in
    sym (ap (λ (r : ℕ × UserState). r.1.rules) (ok_inj out))

-- A record that is written is a custom rule under the key of the request.
pub written_record :
    (kind : Kind) (id now : String) (body : Json) (row : Row)
    → build_push_rule_write_record kind id body (pos 0) now ≡ ok row
    → (is_custom kind row ≡ true) × (row.kind ≡ kind) × (row.rule_id ≡ id)
unfolding build_push_rule_write_record
written_record kind id now body row h =
    let (normalized, _, h1) = >>=-eq-ok (normalize_push_rule_body kind body) _ h in
    let (at, _, out) = >>=-eq-ok (normalize_string _) _ h1 in
    subst (λ (r : Row). (is_custom kind r ≡ true) × (r.kind ≡ kind) × (r.rule_id ≡ id)) (ok_inj out)
      (rw (same_kind_self kind) refl, refl, refl)

module _ (collate : String → String → Bool) where
  pub put_transaction-rules :
      (user : String) (kind : Kind) (id : String) (row : Row) (q : Request) (s s' : UserState)
      (p : ℕ)
      → put_transaction collate user kind id row q s ≡ ok (p, s')
      → (n : ℤ) × (compute_push_rule_priority_index collate
            (list_rows s.rules)
            kind
            q.before
            q.after
            id
          ≡ ok n)
        × (s'.rules
            ≡ renumbered collate q.now kind (put_row (stamped q.now (with_index n row)) s.rules))
  unfolding put_transaction
  put_transaction-rules user kind id row q s s' p h =
      let (n, computed, h1) =
        >>=-eq-ok
          (compute_push_rule_priority_index collate (list_rows s.rules) kind q.before q.after id) _
          h in
      let rules =
        renumbered collate q.now kind (put_row (stamped q.now (with_index n row)) s.rules) in
      let (_, h2) = >>-eq-ok (check_limits rules) _ h1 in
      (n, computed, append_user_stream-rules user "push_rules" q.now (with_rules rules s) s' p h2)

-- An answer that is an error is not the answer of a write.
pub or_answer-updated {ℓ} :
    {A : Type ℓ} (status : ℕ) (errcode : String) (s s' : UserState) (m : Result A)
    (next : A → Result (Answer × UserState)) (w : ℕ)
    → or_answer (matrix_error status errcode) s m next ≡ ok (updated w, s')
    → (a : A) × (m ≡ ok a) × (next a ≡ ok (updated w, s'))
or_answer-updated status errcode s s' (ok a) next w h = (a, refl, h)
or_answer-updated status errcode s s' (throws e) next w h = cc

pub or_write_error-updated :
    (s s' : UserState) (m : Result (ℕ × UserState)) (w : ℕ)
    → or_write_error s m ≡ (updated w, s')
    → m ≡ ok (w, s')
or_write_error-updated s s' (ok (v, t)) w h =
    let positions : updated v ≡ updated w = ap (λ (p : Answer × UserState). p.0) h in
    let states : t ≡ s' = ap (λ (p : Answer × UserState). p.1) h in cc
or_write_error-updated s s' (throws (internal code)) w h =
    let answers : matrix_error 400 code ≡ updated w = ap (λ (p : Answer × UserState). p.0) h in cc
or_write_error-updated s s' (throws type_error) w h =
    let answers : matrix_error 400 "M_INVALID_PARAM" ≡ updated w =
      ap (λ (p : Answer × UserState). p.0) h in
    cc
or_write_error-updated s s' (throws range_error) w h =
    let answers : matrix_error 400 "M_INVALID_PARAM" ≡ updated w =
      ap (λ (p : Answer × UserState). p.0) h in
    cc
or_write_error-updated s s' (throws syntax_error) w h =
    let answers : matrix_error 400 "M_INVALID_PARAM" ≡ updated w =
      ap (λ (p : Answer × UserState). p.0) h in
    cc

module _ (collate : String → String → Bool) (s s' : UserState) (q : Request) (w : ℕ) where
  pub as_principal-updated :
      (next : String → Result (Answer × UserState))
      → as_principal collate s q next ≡ ok (updated w, s')
      → (user : String) × (next user ≡ ok (updated w, s'))
  as_principal-updated next h =
      let (user, _, h1) = >>=-eq-ok (normalize_string q.user_id) _ h in
      elim (Bool-cases (is_principal s user)) [
        | inl e ↦ (user, rw e at h1)
        | inr e ↦ let refused = rw e at h1 in cc
      ]

  pub put_push_rule-updated :
      put_push_rule collate s q ≡ ok (updated w, s')
      → (user : String) × (kind : Kind) × (id : String) × (row : Row) × (read_key false q
          ≡ ok (kind, id))
        × (build_push_rule_write_record kind id (or_else q.body (obj end)) (pos 0) q.now ≡ ok row)
        × (put_transaction collate user kind id row q s ≡ ok (w, s'))
  unfolding put_push_rule
  put_push_rule-updated h =
      let (user, h1) = as_principal-updated _ h in
      let ((kind, id), key, h2) =
        or_answer-updated 400 "M_INVALID_PARAM" s s' (read_key false q) _ w h1 in
      let (row, made, h3) =
        or_answer-updated 400 "M_INVALID_PARAM" s s'
          (build_push_rule_write_record kind id (or_else q.body (obj end)) (pos 0) q.now) _ w h2 in
      let written = put_transaction collate user kind id row q s in
      (user, kind, id, row, key, made, or_write_error-updated s s' written w (ok_inj h3))
