-- ===== src/PushRules/Followed.antt =====
-- A stored rule before and after the rules of its kind are reindexed.
use matrix_flare.Prelude.{
  String, Bool, true, false, none, some, List, is_some, ◌≡◌, refl, sym, ap, ◌∙◌, inl, inr, arith,
  Bool-cases, Option-cases,
}
use matrix_flare.Prelude.Int.{pos, ◌<ℤ◌}
use matrix_flare.Prelude.Members.{Member, find-member}
use matrix_flare.PushRules.Rules.{Kind, Row}
use matrix_flare.PushRules.View.{is_custom}
use matrix_flare.PushRules.Table.{has_key, get_row, put_row, list_rows}
use matrix_flare.PushRules.Records.{reindex_push_rule_rows}
use matrix_flare.PushRules.Transactions.{renumbered}
use matrix_flare.PushRules.Keys.{
  HasUniqueKeys, has_key_iff, has_key_self, same_kind-eq, get_row-member, get_row-put_row,
  is_stored-put_stamped,
}
use matrix_flare.PushRules.Reindex.{index}
use matrix_flare.PushRules.Renumbering.{renumbered-order, renumbered-other}

pub member-get_row :
    (k : Kind) (id : String) (rows : List Row) (x : Row)
    → get_row k id rows ≡ some x
    → Member x rows × (x.kind ≡ k) × (x.rule_id ≡ id)
unfolding get_row
member-get_row k id rows x h =
    let (m, key) = find-member (has_key k id) rows x h in
    let (kinds, ids) = has_key_iff k id x key in (m, kinds, ids)

-- Under unique keys there is one row under a key.
pub member-same :
    (rows : List Row) (a b : Row)
    → HasUniqueKeys rows
    → Member a rows
    → Member b rows
    → a.kind ≡ b.kind
    → a.rule_id ≡ b.rule_id
    → a ≡ b
member-same rows a b u ma mb kinds ids =
    let ga = get_row-member rows a u ma in
    let gb = get_row-member rows b u mb in
    let both : some a ≡ some b = sym ga ∙ rw (kinds, ids) gb in cc

pub is_custom-kind : (kind : Kind) (row : Row) → is_custom kind row ≡ true → row.kind ≡ kind
is_custom-kind kind row h = same_kind-eq row.kind kind (ground arith)

module _ (collate : String → String → Bool) (now : String) (kind : Kind) (rows : List Row)
    (u : HasUniqueKeys rows) where
  -- A custom rule of the kind is still one.
  pub custom_after :
      (a x : Row)
      → Member a rows
      → is_custom kind a ≡ true
      → Member x (renumbered collate now kind rows)
      → x.kind ≡ kind
      → x.rule_id ≡ a.rule_id
      → is_custom kind x ≡ true
  custom_after a x ma ca mx kx ids = elim (Bool-cases (is_custom kind x)) [
    | inl t ↦ t
    | inr f ↦
        let there = renumbered-other collate now kind rows u x mx f in
        let same = member-same rows x a u there ma (kx ∙ sym (is_custom-kind kind a ca)) ids in
        ap (is_custom kind) same ∙ ca
  ]

  -- Custom rules keep the order of their old indices, where these differ.
  pub order_kept :
      (a b x y : Row)
      → Member a rows
      → Member b rows
      → is_custom kind a ≡ true
      → is_custom kind b ≡ true
      → get_row kind a.rule_id (renumbered collate now kind rows) ≡ some x
      → get_row kind b.rule_id (renumbered collate now kind rows) ≡ some y
      → index a <ℤ index b
      → index x <ℤ index y
  order_kept a b x y ma mb ca cb gx gy lt =
      let (mx, kx, ix) = member-get_row kind a.rule_id (renumbered collate now kind rows) x gx in
      let (my, ky, iy) = member-get_row kind b.rule_id (renumbered collate now kind rows) y gy in
      let n =
        renumbered-order collate now kind rows u x y mx my (custom_after a x ma ca mx kx ix)
          (custom_after b y mb cb my ky iy) in
      let same_a : n.r ≡ a =
        member-same rows n.r a u n.r_there ma
          (is_custom-kind kind n.r n.r_custom ∙ sym (is_custom-kind kind a ca))
          (sym (ap (λ (row : Row). row.rule_id) n.x_of_r) ∙ ix) in
      let same_b : n.s ≡ b =
        member-same rows n.s b u n.s_there mb
          (is_custom-kind kind n.s n.s_custom ∙ sym (is_custom-kind kind b cb))
          (sym (ap (λ (row : Row). row.rule_id) n.y_of_s) ∙ iy) in
      let lt' = n.in_order (rw (same_a, same_b) lt) in
      let ex : index x ≡ pos n.i = ap index n.x_of_r in
      let ey : index y ≡ pos n.j = ap index n.y_of_s in rw (ex, ey) (omega arith)

  pub stored_after :
      (a : Row)
      → Member a rows
      → a.kind ≡ kind
      → (x : Row) × (get_row kind a.rule_id (renumbered collate now kind rows) ≡ some x)
  stored_after a ma ka =
      let before : get_row kind a.rule_id rows ≡ some a =
        rw (sym ka) (get_row-member rows a u ma) in
      let stored =
        is_stored-put_stamped kind a.rule_id now
          (reindex_push_rule_rows collate (list_rows rows) kind) rows (rw before refl) in
      elim (Option-cases (get_row kind a.rule_id (renumbered collate now kind rows))) [
        | inr found ↦ found
        | inl e ↦ absurd (let none_there : is_some {A = Row} none ≡ true = rw e at stored in cc)
      ]

-- What a put leaves there.
pub member-put_row-self : (row : Row) (rows : List Row) → Member row (put_row row rows)
member-put_row-self row rows =
    let found : get_row row.kind row.rule_id (put_row row rows) ≡ some row =
      rw (get_row-put_row row.kind row.rule_id row rows) (rw (has_key_self row) refl) in
    (member-get_row row.kind row.rule_id (put_row row rows) row found).0

pub member-put_row :
    (row : Row) (rows : List Row) (a : Row)
    → HasUniqueKeys rows
    → Member a rows
    → has_key a.kind a.rule_id row ≡ false
    → Member a (put_row row rows)
member-put_row row rows a u ma f =
    let found : get_row a.kind a.rule_id (put_row row rows) ≡ some a =
      rw (get_row-put_row a.kind a.rule_id row rows) (rw f (get_row-member rows a u ma)) in
    (member-get_row a.kind a.rule_id (put_row row rows) a found).0
