-- ===== src/PushRules/Keys.antt =====
-- The table of push rules under its primary key: what puts and deletes leave under each key.
use matrix_flare.Prelude.{
  String, Bool, true, false, some, List, [], ◌∷◌, filter, find, All, is_some, str_eq, if◌then◌else◌,
  ◌≡◌, refl, ap, ◌∙◌, subst, inl, inr, ◌⊎◌, arith, eq_iff, eq_refl, Bool-cases,
}
use matrix_flare.Prelude.Members.{Member, head, tail, cases_cons, All-member}
use matrix_flare.PushRules.Rules.{Kind, override, underride, sender, room, content, same_kind, Row}
use matrix_flare.PushRules.Table.{has_key, get_row, put_row}
use matrix_flare.PushRules.Transactions.{stamped, put_stamped}

pub same_kind_self : (k : Kind) → same_kind k k ≡ true
same_kind_self override = refl
same_kind_self underride = refl
same_kind_self sender = refl
same_kind_self room = refl
same_kind_self content = refl

pub same_kind-eq : (k l : Kind) → same_kind k l ≡ true → k ≡ l
same_kind-eq k l h = ground arith

pub has_key_self : (row : Row) → has_key row.kind row.rule_id row ≡ true
has_key_self row = rw (same_kind_self row.kind) (eq_refl row.rule_id)

pub has_key_iff :
    (k : Kind) (id : String) (row : Row)
    → has_key k id row ≡ true
    → (row.kind ≡ k) × (row.rule_id ≡ id)
has_key_iff k id row h =
    let kinds : same_kind row.kind k ≡ true = ground arith in
    let ids : str_eq row.rule_id id ≡ true = ground arith in
    (same_kind-eq row.kind k kinds, (eq_iff row.rule_id id).0 ids)

-- No two rows share a key.
unfoldable pub HasUniqueKeys : List Row → Type 0
HasUniqueKeys [] = Unit
HasUniqueKeys (row ∷ rows) =
    All (λ other. has_key row.kind row.rule_id other ≡ false) rows × HasUniqueKeys rows

-- Rows of one key have the same keys.
pub has_key-eq :
    (k : Kind) (id : String) (row r : Row)
    → has_key row.kind row.rule_id r ≡ true
    → has_key k id r ≡ has_key k id row
has_key-eq k id row r h =
    let (kinds, ids) = has_key_iff row.kind row.rule_id r h in rw (kinds, ids) refl

pub has_key-both :
    (k : Kind) (id : String) (row r : Row)
    → has_key k id row ≡ true
    → has_key k id r ≡ true
    → has_key row.kind row.rule_id r ≡ true
has_key-both k id row r h h' = let (kinds, ids) = has_key_iff k id row h in rw (kinds, ids) h'

-- Two rows of different keys: whoever has the one key does not have the other.
pub has_key-other :
    (k : Kind) (id : String) (row r : Row)
    → has_key row.kind row.rule_id r ≡ false
    → has_key k id r ≡ true
    → has_key k id row ≡ false
has_key-other k id row r e t = elim (Bool-cases (has_key k id row)) [
  | inl t' ↦ let both = has_key-both k id row r t' t in cc
  | inr f ↦ f
]

-- A put gives its row under its own key, and leaves what every other key gives.
pub get_row-put_row :
    (k : Kind) (id : String) (row : Row) (rows : List Row)
    → get_row k id (put_row row rows) ≡ (if has_key k id row then some row else get_row k id rows)
unfolding get_row put_row
get_row-put_row k id row [] = refl
get_row-put_row k id row (r ∷ rs) = elim (Bool-cases (has_key row.kind row.rule_id r)) [
  | inl e ↦
      let same = has_key-eq k id row r e in
      elim (Bool-cases (has_key k id row)) [
        | inl t ↦ rw (e, t) refl
        | inr f ↦ let f' : has_key k id r ≡ false = same ∙ f in rw (e, f, f') refl
      ]
  | inr e ↦ elim (Bool-cases (has_key k id r)) [
    | inl t ↦
        let other : has_key k id row ≡ false = has_key-other k id row r e t in rw (e, t, other) refl
    | inr f ↦ rw (e, f) (get_row-put_row k id row rs)
  ]
]

-- Under unique keys a row that is there is the one that its key gives.
pub get_row-member :
    (rows : List Row) (row : Row)
    → HasUniqueKeys rows
    → Member row rows
    → get_row row.kind row.rule_id rows ≡ some row
unfolding get_row HasUniqueKeys
get_row-member [] row u m = elim m [ ]
get_row-member (r ∷ rs) row (fresh, u) (head e) =
    let own = has_key_self row in
    subst
      (λ x.
        (if has_key row.kind row.rule_id x then some x else find (has_key row.kind row.rule_id) rs)
        ≡ some row)
      e (rw own refl)
get_row-member (r ∷ rs) row (fresh, u) (tail m) =
    let absent : has_key row.kind row.rule_id r ≡ false =
      has_key-other row.kind row.rule_id r row
        (All-member (λ other. has_key r.kind r.rule_id other ≡ false) rs row fresh m)
        (has_key_self row) in
    rw absent (get_row-member rs row u m)

-- What is there after a put is its row, or was there before under another key.
pub put_row-member :
    (row : Row) (rows : List Row) (x : Row)
    → HasUniqueKeys rows
    → Member x (put_row row rows)
    → (x ≡ row) ⊎ (Member x rows × (has_key row.kind row.rule_id x ≡ false))
unfolding put_row HasUniqueKeys
put_row-member row [] x u m = elim (cases_cons m) [ inl same ↦ inl same | inr n ↦ elim n [ ] ]
put_row-member row (r ∷ rs) x (fresh, u) m = elim (Bool-cases (has_key row.kind row.rule_id r)) [
  | inl e ↦ elim (cases_cons (rw e at m)) [
    | inl same ↦ inl same
    | inr m' ↦
        let (kinds, ids) = has_key_iff row.kind row.rule_id r e in
        let absent = All-member (λ other. has_key r.kind r.rule_id other ≡ false) rs x fresh m' in
        inr (tail m', rw (kinds, ids) at absent)
  ]
  | inr e ↦ elim (cases_cons (rw e at m)) [
    | inl same ↦ inr (head same, ap (has_key row.kind row.rule_id) same ∙ e)
    | inr m' ↦ elim (put_row-member row rs x u m') [
      | inl same ↦ inl same
      | inr (m'', f) ↦ inr (tail m'', f)
    ]
  ]
]

All-put_row :
    (k : Kind) (id : String) (row : Row) (rows : List Row)
    → has_key k id row ≡ false
    → All (λ other. has_key k id other ≡ false) rows
    → All (λ other. has_key k id other ≡ false) (put_row row rows)
unfolding put_row
All-put_row k id row [] f fs = (f, fs)
All-put_row k id row (r ∷ rs) f (g, gs) = elim (Bool-cases (has_key row.kind row.rule_id r)) [
  | inl e ↦ rw e (f, gs)
  | inr e ↦ rw e (g, All-put_row k id row rs f gs)
]

pub put_row-HasUniqueKeys :
    (row : Row) (rows : List Row) → HasUniqueKeys rows → HasUniqueKeys (put_row row rows)
unfolding HasUniqueKeys put_row
put_row-HasUniqueKeys row [] u = (tt, tt)
put_row-HasUniqueKeys row (r ∷ rs) (fresh, u) = elim (Bool-cases (has_key row.kind row.rule_id r)) [
  | inl e ↦
      let (kinds, ids) = has_key_iff row.kind row.rule_id r e in rw e (rw (kinds, ids) at fresh, u)
  | inr e ↦
      let other = has_key-other r.kind r.rule_id row r e (has_key_self r) in
      rw e (All-put_row r.kind r.rule_id row rs other fresh, put_row-HasUniqueKeys row rs u)
]

All-filter :
    (p q : Row → Bool) (rows : List Row)
    → All (λ other. p other ≡ false) rows
    → All (λ other. p other ≡ false) (filter q rows)
All-filter p q [] fs = tt
All-filter p q (r ∷ rs) (f, fs) = elim (Bool-cases (q r)) [
  | inl e ↦ rw e (f, All-filter p q rs fs)
  | inr e ↦ rw e (All-filter p q rs fs)
]

pub filter-HasUniqueKeys :
    (q : Row → Bool) (rows : List Row) → HasUniqueKeys rows → HasUniqueKeys (filter q rows)
unfolding HasUniqueKeys
filter-HasUniqueKeys q [] u = tt
filter-HasUniqueKeys q (r ∷ rs) (fresh, u) = elim (Bool-cases (q r)) [
  | inl e ↦ rw e (All-filter (has_key r.kind r.rule_id) q rs fresh, filter-HasUniqueKeys q rs u)
  | inr e ↦ rw e (filter-HasUniqueKeys q rs u)
]

pub put_stamped-HasUniqueKeys :
    (now : String) (new rows : List Row)
    → HasUniqueKeys rows
    → HasUniqueKeys (put_stamped now new rows)
unfolding put_stamped
put_stamped-HasUniqueKeys now [] rows u = u
put_stamped-HasUniqueKeys now (r ∷ rs) rows u =
    put_stamped-HasUniqueKeys now rs (put_row (stamped now r) rows)
      (put_row-HasUniqueKeys (stamped now r) rows u)

-- What is there after the puts of a loop is one of its rows, or was there under a key of none.
pub put_stamped-member :
    (now : String) (new rows : List Row) (x : Row)
    → HasUniqueKeys rows
    → Member x (put_stamped now new rows)
    → ((r : Row) × Member r new × (x ≡ stamped now r))
      ⊎ (Member x rows × All (λ r. has_key r.kind r.rule_id x ≡ false) new)
unfolding put_stamped
put_stamped-member now [] rows x u m = inr (m, tt)
put_stamped-member now (r ∷ rs) rows x u m =
    elim (put_stamped-member now rs (put_row (stamped now r) rows) x
      (put_row-HasUniqueKeys (stamped now r) rows u) m) [
        | inl (r', m', e) ↦ inl (r', tail m', e)
        | inr (m', absent) ↦ elim (put_row-member (stamped now r) rows x u m') [
          | inl same ↦ inl (r, head refl, same)
          | inr (m'', f) ↦ inr (m'', (f, absent))
        ]
      ]

pub is_stored-put_stamped :
    (k : Kind) (id now : String) (new rows : List Row)
    → is_some (get_row k id rows) ≡ true
    → is_some (get_row k id (put_stamped now new rows)) ≡ true
unfolding put_stamped
is_stored-put_stamped k id now [] rows h = h
is_stored-put_stamped k id now (r ∷ rs) rows h =
    is_stored-put_stamped k id now rs (put_row (stamped now r) rows) (
      rw (get_row-put_row k id (stamped now r) rows)
        (elim (Bool-cases (has_key k id (stamped now r))) [ inl e ↦ rw e refl | inr e ↦ rw e h ]))
