-- ===== src/PushRules/Numbered.antt =====
-- The indices of a user's custom rules: no two rules of a kind share one, whatever is asked of the
-- actor. So the order of the rules never hangs on how their ids collate.
use matrix_flare.Prelude.{
  String, Bool, true, false, not, List, ◌≡◌, ◌≢◌, sym, ap, ◌∙◌, inl, inr, arith, Bool-cases,
}
use matrix_flare.Prelude.Int.{pos}
use matrix_flare.Prelude.Members.{Member, filter-member}
use matrix_flare.PushRules.Rules.{Kind, Row}
use matrix_flare.PushRules.View.{is_custom}
use matrix_flare.PushRules.Table.{has_key, put_row, delete_row}
use matrix_flare.PushRules.Transactions.{renumbered}
use matrix_flare.PushRules.Keys.{
  HasUniqueKeys, has_key_self, put_row-member, put_row-HasUniqueKeys, filter-HasUniqueKeys,
  put_stamped-HasUniqueKeys,
}
use matrix_flare.PushRules.Reindex.{index}
use matrix_flare.PushRules.Renumbering.{renumbered-order, renumbered-other}
use matrix_flare.PushRules.Followed.{is_custom-kind}

unfoldable pub HasOwnIndices : List Row → Type 0
HasOwnIndices rows =
    (kind : Kind) (x y : Row)
    → Member x rows
    → Member y rows
    → is_custom kind x ≡ true
    → is_custom kind y ≡ true
    → index x ≡ index y
    → x ≡ y

unfoldable pub IsWellKept : List Row → Type 0
IsWellKept rows = HasUniqueKeys rows × HasOwnIndices rows

-- A row that is custom of one kind is custom of no other.
is_custom_unique :
    (k l : Kind) (row : Row) → is_custom k row ≡ true → is_custom l row ≡ true → k ≡ l
is_custom_unique k l row h h' = sym (is_custom-kind k row h) ∙ is_custom-kind l row h'

pub renumbered-HasOwnIndices :
    (collate : String → String → Bool) (now : String) (kind : Kind) (rows : List Row)
    → HasUniqueKeys rows
    → ((k : Kind) (x y : Row)
        → Member x rows
        → Member y rows
        → is_custom k x ≡ true
        → is_custom k y ≡ true
        → is_custom kind x ≡ false
        → is_custom kind y ≡ false
        → index x ≡ index y
        → x ≡ y)
    → HasOwnIndices (renumbered collate now kind rows)
unfolding HasOwnIndices
renumbered-HasOwnIndices collate now kind rows u others k x y mx my cx cy e =
    elim (Bool-cases (is_custom kind x)) [
      | inl t ↦
          let same = is_custom_unique kind k x t cx in
          let n = renumbered-order collate now kind rows u x y mx my t (rw same cy) in
          let indices : pos n.i ≡ pos n.j = sym (ap index n.x_of_r) ∙ e ∙ ap index n.y_of_s in
          let i_j : n.i ≡ n.j = cc in n.x_of_r ∙ rw (i_j, n.alike i_j) (sym n.y_of_s)
      | inr f ↦ elim (Bool-cases (is_custom kind y)) [
        | inl t ↦
            let same = is_custom_unique kind k y t cy in
            let bad : is_custom kind x ≡ true = rw same cx in absurd (ground (arith, bad, f))
        | inr f' ↦
            others k x y (renumbered-other collate now kind rows u x mx f)
              (renumbered-other collate now kind rows u y my f') cx cy f f' e
      ]
    ]

-- What is there after a put, and is not its row, was there before.
not_put :
    (row : Row) (rows : List Row) (z : Row)
    → HasUniqueKeys rows
    → Member z (put_row row rows)
    → z ≢ row
    → Member z rows
not_put row rows z u m ne = elim (put_row-member row rows z u m) [
  | inl same ↦ absurd (ne same)
  | inr (m', _) ↦ m'
]

-- A put of a custom row, then a renumbering of its kind.
pub put_custom-IsWellKept :
    (collate : String → String → Bool) (now : String) (kind : Kind) (row : Row) (rows : List Row)
    → is_custom kind row ≡ true
    → IsWellKept rows
    → IsWellKept (renumbered collate now kind (put_row row rows))
unfolding IsWellKept HasOwnIndices
put_custom-IsWellKept collate now kind row rows custom (u, own) =
    let u' = put_row-HasUniqueKeys row rows u in
    let before = λ (z : Row) (m : Member z (put_row row rows)) (f : is_custom kind z ≡ false).
      not_put row rows z u m (λ same. ground (arith, ap (is_custom kind) same)) in
    (
      put_stamped-HasUniqueKeys now _ (put_row row rows) u',
      renumbered-HasOwnIndices collate now kind (put_row row rows) u'
          (λ k x y mx my cx cy f f' e. own k x y (before x mx f) (before y my f') cx cy e),
    )

-- A deletion, then a renumbering.
pub delete-IsWellKept :
    (collate : String → String → Bool) (now id : String) (kind : Kind) (rows : List Row)
    → IsWellKept rows
    → IsWellKept (renumbered collate now kind (delete_row kind id rows))
unfolding IsWellKept HasOwnIndices delete_row
delete-IsWellKept collate now id kind rows (u, own) =
    let kept = λ (row : Row). not (has_key kind id row) in
    let u' = filter-HasUniqueKeys kept rows u in
    (
      put_stamped-HasUniqueKeys now _ (delete_row kind id rows) u',
      renumbered-HasOwnIndices collate now kind (delete_row kind id rows) u'
          (λ k x y mx my cx cy f f' e.
            own k x y (filter-member kept rows x mx).0 (filter-member kept rows y my).0 cx cy e),
    )

-- A put that only changes what a stored row holds besides its key and its index.
pub change-IsWellKept :
    (row new : Row) (rows : List Row)
    → Member row rows
    → new.kind ≡ row.kind
    → new.rule_id ≡ row.rule_id
    → index new ≡ index row
    → ((k : Kind) → is_custom k new ≡ is_custom k row)
    → IsWellKept rows
    → IsWellKept (put_row new rows)
unfolding IsWellKept HasOwnIndices
change-IsWellKept row new rows m kinds ids indices customs (u, own) =
    let clash =
      λ (k : Kind) (y : Row) (my : Member y rows) (f : has_key new.kind new.rule_id y ≡ false)
          (c : is_custom k new ≡ true) (cy : is_custom k y ≡ true) (e : index new ≡ index y).
        let same : row ≡ y = own k row y m my (sym (customs k) ∙ c) cy (sym indices ∙ e) in
        let key : has_key new.kind new.rule_id row ≡ true = rw (kinds, ids) (has_key_self row) in
        let key' : has_key new.kind new.rule_id y ≡ true = rw (sym same) key in
        absurd {A = new ≡ y} (ground (arith, key', f)) in
    (
      put_row-HasUniqueKeys new rows u,
      λ k x y mx my cx cy e. elim (put_row-member new rows x u mx) [
        | inl ex ↦ elim (put_row-member new rows y u my) [
          | inl ey ↦ ex ∙ sym ey
          | inr (my', fy) ↦
              ex ∙ clash k y my' fy (sym (ap (is_custom k) ex) ∙ cx) cy (sym (ap index ex) ∙ e)
        ]
        | inr (mx', fx) ↦ elim (put_row-member new rows y u my) [
          | inl ey ↦
              sym (clash k x mx' fx (sym (ap (is_custom k) ey) ∙ cy) cx (sym (ap index ey) ∙ sym e))
              ∙ sym ey
          | inr (my', fy) ↦ own k x y mx' my' cx cy e
        ]
      ],
    )

-- A put of a row that is not custom.
pub put_default-IsWellKept :
    (row : Row) (rows : List Row)
    → ((k : Kind) → is_custom k row ≡ false)
    → IsWellKept rows
    → IsWellKept (put_row row rows)
unfolding IsWellKept HasOwnIndices
put_default-IsWellKept row rows customs (u, own) = (
  put_row-HasUniqueKeys row rows u,
  λ k x y mx my cx cy e.
      own k x y (not_put row rows x u mx (λ same. ground (arith, ap (is_custom k) same, customs k)))
        (not_put row rows y u my (λ same. ground (arith, ap (is_custom k) same, customs k))) cx cy
        e,
)
