-- ===== src/PushRules/Renumbering.antt =====
-- What the table holds after the rows of a kind have been reindexed and put back.
use matrix_flare.Prelude.{
  ℕ, ◌<◌, String, Bool, true, false, List, filter, ◌≡◌, ap, ◌∙◌, inl, inr, arith,
}
use matrix_flare.Prelude.Int.{pos, ◌<ℤ◌}
use matrix_flare.Prelude.Sort.{sort}
use matrix_flare.Prelude.Members.{
  Member, All-member, filter-member, member-filter, sort-member, member-sort,
}
use matrix_flare.PushRules.Rules.{Kind, Row}
use matrix_flare.PushRules.View.{compare_push_rule_order, is_custom}
use matrix_flare.PushRules.Table.{has_key, list_rows}
use matrix_flare.PushRules.Records.{with_index, reindex_push_rule_rows}
use matrix_flare.PushRules.Transactions.{stamped, renumbered}
use matrix_flare.PushRules.Keys.{HasUniqueKeys, has_key_self, put_stamped-member}
use matrix_flare.PushRules.Reindex.{index, sort-ascends, member-number_from, number_from-order}

pub list_rows-member : (rows : List Row) (x : Row) → Member x (list_rows rows) → Member x rows
unfolding list_rows
list_rows-member rows x m = sort-member _ rows x m

pub member-list_rows : (rows : List Row) (x : Row) → Member x rows → Member x (list_rows rows)
unfolding list_rows
member-list_rows rows x m = member-sort _ rows x m

-- Two custom rows of a kind after the puts: the rows that they come from, and how their new indices
-- lie to each other.
pub record Renumbered (now : String) (kind : Kind) (rows : List Row) (x y : Row) : Type 0 where
  pub i : ℕ
  pub j : ℕ
  pub r : Row
  pub s : Row
  pub r_there : Member r rows
  pub s_there : Member s rows
  pub r_custom : is_custom kind r ≡ true
  pub s_custom : is_custom kind s ≡ true
  pub x_of_r : x ≡ stamped now (with_index (pos i) r)
  pub y_of_s : y ≡ stamped now (with_index (pos j) s)
  pub in_order : index r <ℤ index s → i < j
  pub alike : i ≡ j → r ≡ s

module _ (collate : String → String → Bool) (now : String) (kind : Kind) (rows : List Row)
    (u : HasUniqueKeys rows) where
  sorted-member :
      (r : Row)
      → Member r (sort (compare_push_rule_order collate) (filter (is_custom kind) (list_rows rows)))
      → Member r rows × (is_custom kind r ≡ true)
  sorted-member r m =
      let (m', custom) = filter-member (is_custom kind) (list_rows rows) r (
        sort-member (compare_push_rule_order collate) (filter (is_custom kind) (list_rows rows)) r
          m) in
      (list_rows-member rows r m', custom)

  -- A custom row of the kind has been put by the loop.
  reindexed-member :
      (x : Row)
      → Member x (renumbered collate now kind rows)
      → is_custom kind x ≡ true
      → (r : Row) × Member r (reindex_push_rule_rows collate (list_rows rows) kind)
        × (x ≡ stamped now r)
  unfolding reindex_push_rule_rows
  reindexed-member x m custom =
      elim (put_stamped-member now (reindex_push_rule_rows collate (list_rows rows) kind) rows x u
        m) [
          | inl there ↦ there
          | inr (m', absent) ↦
              let (i, m'') = member-number_from 0 _ x (
                member-sort (compare_push_rule_order collate) _ x
                  (member-filter (is_custom kind) _ x (member-list_rows rows x m') custom)) in
              let missing =
                All-member (λ r. has_key r.kind r.rule_id x ≡ false) _ (with_index (pos i) x) absent
                  m'' in
              let own = has_key_self x in absurd (ground (arith, own, missing))
        ]

  pub renumbered-order :
      (x y : Row)
      → Member x (renumbered collate now kind rows)
      → Member y (renumbered collate now kind rows)
      → is_custom kind x ≡ true
      → is_custom kind y ≡ true
      → Renumbered now kind rows x y
  unfolding reindex_push_rule_rows
  renumbered-order x y m k cx cy =
      let (x', mx, ex) = reindexed-member x m cx in
      let (y', my, ey) = reindexed-member y k cy in
      let n = number_from-order 0 _ x' y' (sort-ascends collate _) mx my in
      let (r_there, r_custom) = sorted-member n.r n.r_there in
      let (s_there, s_custom) = sorted-member n.s n.s_there in
      record {
        i = n.i;
        j = n.j;
        r = n.r;
        s = n.s;
        r_there = r_there;
        s_there = s_there;
        r_custom = r_custom;
        s_custom = s_custom;
        x_of_r = ex ∙ ap (stamped now) n.x_of_r;
        y_of_s = ey ∙ ap (stamped now) n.y_of_s;
        in_order = n.in_order;
        alike = n.alike;
      }

  -- A row that is no custom row of the kind has been left alone.
  pub renumbered-other :
      (x : Row)
      → Member x (renumbered collate now kind rows)
      → is_custom kind x ≡ false
      → Member x rows
  unfolding reindex_push_rule_rows
  renumbered-other x m other =
      elim (put_stamped-member now (reindex_push_rule_rows collate (list_rows rows) kind) rows x u
        m) [
          | inr (m', absent) ↦ m'
          | inl (r, mr, e) ↦
              let n = number_from-order 0 _ r r (sort-ascends collate _) mr mr in
              let (_, custom) = sorted-member n.r n.r_there in
              let same : is_custom kind x ≡ is_custom kind n.r =
                ap (is_custom kind) (e ∙ ap (stamped now) n.x_of_r) in
              absurd (cc)
        ]
