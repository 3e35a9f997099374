-- ===== src/PushRules/Order.antt =====
-- The order of a user's push rules: where a put places its rule, and what puts and deletes leave of
-- the order of the others.
use matrix_flare.Prelude.{
  ℕ, String, Bool, true, false, ◌&&◌, Option, none, some, str_eq, is_some, ◌≡◌, ◌≢◌, refl, sym, ap,
  ◌∙◌, subst, inl, inr, arith, not-eq, Bool-cases, ok, ok_inj,
}
use matrix_flare.Prelude.Int.{ℤ, ◌<ℤ◌}
use matrix_flare.Prelude.Members.{Member}
use matrix_flare.PushRules.Rules.{Kind, same_kind, Row}
use matrix_flare.PushRules.View.{is_custom}
use matrix_flare.PushRules.Table.{get_row, put_row, UserState}
use matrix_flare.PushRules.Records.{with_index, prioritized_against}
use matrix_flare.PushRules.Requests.{Request, updated, read_key}
use matrix_flare.PushRules.Transactions.{stamped, renumbered}
use matrix_flare.PushRules.Handlers.{put_push_rule}
use matrix_flare.PushRules.Keys.{HasUniqueKeys, put_row-HasUniqueKeys, put_stamped-HasUniqueKeys}
use matrix_flare.PushRules.Reindex.{index}
use matrix_flare.PushRules.Placement.{Placed, compute_push_rule_priority_index-Placed}
use matrix_flare.PushRules.Followed.{
  is_custom-kind, order_kept, stored_after, member-put_row-self, member-put_row,
}
use matrix_flare.PushRules.Puts.{put_push_rule-updated, put_transaction-rules, written_record}

-- `Placed` speaks of indices: it holds of the new ones where it holds of the old ones.
Placed-kept :
    (against : Option String) (before : Bool) (other : String) (n m a b : ℤ)
    → (n <ℤ m → a <ℤ b)
    → (m <ℤ n → b <ℤ a)
    → Placed against before other n m
    → Placed against before other a b
Placed-kept none before other n m a b up down p = up p
Placed-kept (some against) before other n m a b up down p =
    elim (Bool-cases (str_eq against other)) [
      | inr f ↦ rw f tt
      | inl t ↦ elim (Bool-cases before) [
        | inl first ↦ rw (t, first) (up (rw (t, first) at p))
        | inr last ↦ rw (t, last) (down (rw (t, last) at p))
      ]
    ]

and-false : (b : Bool) → (b && false) ≡ false
and-false b = ground arith

module _ (collate : String → String → Bool) (s s' : UserState) (q : Request) (w : ℕ) (kind : Kind)
    (id : String) (u : HasUniqueKeys s.rules) (key : read_key false q ≡ ok (kind, id))
    (h : put_push_rule collate s q ≡ ok (updated w, s')) where
  -- What a put leaves: its own rule and the others, in the order of the indices that it computed.
  record PutRules : Type 0 where
    n : ℤ
    new : Row
    new_custom : is_custom kind new ≡ true
    new_id : new.rule_id ≡ id
    new_index : index new ≡ n
    placed :
        (other : Row)
        → Member other s.rules
        → is_custom kind other ≡ true
        → other.rule_id ≢ id
        → Placed
            (prioritized_against q.before q.after)
            (is_some q.before)
            other.rule_id
            n
            (index other)
    rules : s'.rules ≡ renumbered collate q.now kind (put_row new s.rules)

  put_rules : PutRules
  put_rules =
      let (user, kind', id', row, key', made, done) = put_push_rule-updated collate s s' q w h in
      let same : (kind', id') ≡ (kind, id) = ok_inj (sym key' ∙ key) in
      let kinds : kind' ≡ kind = ap (λ (k : Kind × String). k.0) same in
      let ids : id' ≡ id = ap (λ (k : Kind × String). k.1) same in
      let (n, computed, rules) = put_transaction-rules collate user kind' id' row q s s' w done in
      let (custom, _, id_of_row) = written_record kind' id' q.now _ row made in
      record {
        n = n;
        new = stamped q.now (with_index n row);
        new_custom = rw kinds at custom;
        new_id = id_of_row ∙ ids;
        new_index = refl;
        placed = λ other m c ne.
            compute_push_rule_priority_index-Placed collate s.rules kind q.before q.after id n other
              u (rw (kinds, ids) at computed) m c ne;
        rules = rw kinds at rules;
      }

  after-HasUniqueKeys : HasUniqueKeys s'.rules
  after-HasUniqueKeys =
      let p = put_rules in
      subst HasUniqueKeys (sym p.rules) (
        put_stamped-HasUniqueKeys q.now _ (put_row p.new s.rules)
          (put_row-HasUniqueKeys p.new s.rules u))

  -- Another custom rule is still in the table when the new one has been put.
  other_there :
      (p : PutRules) (other : Row)
      → Member other s.rules
      → other.rule_id ≢ id
      → Member other (put_row p.new s.rules)
  other_there p other m ne =
      let different = not-eq p.new.rule_id other.rule_id (λ e. ne (sym e ∙ p.new_id)) in
      member-put_row p.new s.rules other u m
        (rw different (and-false (same_kind p.new.kind other.kind)))

  -- After a put that succeeds the new rule is stored, every other custom rule of its kind is, and
  -- the indices of the two lie as the request asks: the new rule before the rule that `before`
  -- names, else behind the one that `after` names, and before all where neither is given.
  pub put_push_rule-Placed :
      (other : Row)
      → Member other s.rules
      → is_custom kind other ≡ true
      → other.rule_id ≢ id
      → (x : Row) × (y : Row) × (get_row kind id s'.rules ≡ some x)
        × (get_row kind other.rule_id s'.rules ≡ some y)
        × Placed
            (prioritized_against q.before q.after)
            (is_some q.before)
            other.rule_id
            (index x)
            (index y)
  put_push_rule-Placed other m c ne =
      let p = put_rules in
      let u' = put_row-HasUniqueKeys p.new s.rules u in
      let mn = member-put_row-self p.new s.rules in
      let mo = other_there p other m ne in
      let (x, gx) =
        stored_after collate q.now kind _ u' p.new mn (is_custom-kind kind p.new p.new_custom) in
      let (y, gy) = stored_after collate q.now kind _ u' other mo (is_custom-kind kind other c) in
      let up = order_kept collate q.now kind _ u' p.new other x y mn mo p.new_custom c gx gy in
      let down = order_kept collate q.now kind _ u' other p.new y x mo mn c p.new_custom gy gx in
      let placed = rw (sym p.new_index) at p.placed other m c ne in
      (
        x,
        y,
        rw (p.rules, sym p.new_id) gx,
        rw p.rules gy,
        Placed-kept _ _ other.rule_id (index p.new) (index other) (index x) (index y) up down
            placed,
      )

  -- A put that succeeds leaves the order of the other custom rules of the kind as it was.
  pub put_push_rule-keeps_order :
      (a b : Row)
      → Member a s.rules
      → Member b s.rules
      → is_custom kind a ≡ true
      → is_custom kind b ≡ true
      → a.rule_id ≢ id
      → b.rule_id ≢ id
      → index a <ℤ index b
      → (x : Row) × (y : Row) × (get_row kind a.rule_id s'.rules ≡ some x)
        × (get_row kind b.rule_id s'.rules ≡ some y)
        × (index x <ℤ index y)
  put_push_rule-keeps_order a b ma mb ca cb na nb lt =
      let p = put_rules in
      let u' = put_row-HasUniqueKeys p.new s.rules u in
      let ma' = other_there p a ma na in
      let mb' = other_there p b mb nb in
      let (x, gx) = stored_after collate q.now kind _ u' a ma' (is_custom-kind kind a ca) in
      let (y, gy) = stored_after collate q.now kind _ u' b mb' (is_custom-kind kind b cb) in
      (
        x,
        y,
        rw p.rules gx,
        rw p.rules gy,
        order_kept collate q.now kind _ u' a b x y ma' mb' ca cb gx gy lt,
      )
