-- ===== src/PushRules/Reindex.antt =====
-- `reindexPushRuleRows` and the loop that puts its rows: where the new indices come from.
use matrix_flare.Prelude.{
  ℕ, suc, ◌≤◌, ◌<◌, String, Bool, true, false, List, [], ◌∷◌, ◌≡◌, refl, ap, arith,
}
use matrix_flare.Prelude.Int.{ℤ, pos, ◌≤ℤ◌, ◌<ℤ◌}
use matrix_flare.Prelude.Sort.{sort}
use matrix_flare.Prelude.Members.{Member, head, tail, All-member, IsAscending, sort-IsAscending}
use matrix_flare.PushRules.Rules.{Row}
use matrix_flare.PushRules.View.{compare_push_rule_order}
use matrix_flare.PushRules.Records.{with_index, number_from}

abbrev pub index : Row → ℤ
index row = row.priority_index

module _ (collate : String → String → Bool) where
  pub compare_push_rule_order-le :
      (l r : Row) → compare_push_rule_order collate l r ≡ true → index l ≤ℤ index r
  compare_push_rule_order-le l r h = ground arith

  pub compare_push_rule_order-ge :
      (l r : Row) → compare_push_rule_order collate l r ≡ false → index r ≤ℤ index l
  compare_push_rule_order-ge l r h = ground arith

  pub sort-ascends :
      (rows : List Row) → IsAscending index (sort (compare_push_rule_order collate) rows)
  sort-ascends rows =
      sort-IsAscending index (compare_push_rule_order collate) compare_push_rule_order-le
        compare_push_rule_order-ge rows

-- The number that a row gets, and the row that it is of.
number_from-member :
    (n : ℕ) (rows : List Row) (x : Row)
    → Member x (number_from n rows)
    → (i : ℕ) × (r : Row) × Member r rows × (x ≡ with_index (pos i) r) × (n ≤ i)
unfolding number_from
number_from-member n [] x m = elim m [ ]
number_from-member n (r ∷ rs) x (head e) = (n, r, head refl, e, omega arith)
number_from-member n (r ∷ rs) x (tail m) =
    let (i, r', m', e, le) = number_from-member (suc n) rs x m in (i, r', tail m', e, omega arith)

pub member-number_from :
    (n : ℕ) (rows : List Row) (r : Row)
    → Member r rows
    → (i : ℕ) × Member (with_index (pos i) r) (number_from n rows)
unfolding number_from
member-number_from n [] r m = elim m [ ]
member-number_from n (y ∷ ys) r (head e) = (n, head (ap (with_index (pos n)) e))
member-number_from n (y ∷ ys) r (tail m) =
    let (i, m') = member-number_from (suc n) ys r m in (i, tail m')

-- Two numbered rows: they are numbered in the order of their old indices, and no two alike.
pub record Numbers (rows : List Row) (x y : Row) : Type 0 where
  pub i : ℕ
  pub j : ℕ
  pub r : Row
  pub s : Row
  pub r_there : Member r rows
  pub s_there : Member s rows
  pub x_of_r : x ≡ with_index (pos i) r
  pub y_of_s : y ≡ with_index (pos j) s
  pub in_order : index r <ℤ index s → i < j
  pub alike : i ≡ j → r ≡ s

pub number_from-order :
    (n : ℕ) (rows : List Row) (x y : Row)
    → IsAscending index rows
    → Member x (number_from n rows)
    → Member y (number_from n rows)
    → Numbers rows x y
unfolding number_from IsAscending
number_from-order n [] x y a m k = elim m [ ]
number_from-order n (r ∷ rs) x y a (head e) (head e') = record {
  i = n;
  j = n;
  r = r;
  s = r;
  r_there = head refl;
  s_there = head refl;
  x_of_r = e;
  y_of_s = e';
  in_order = λ lt. omega arith;
  alike = λ same. refl;
}
number_from-order n (r ∷ rs) x y a (head e) (tail k) =
    let (j, s, k', e', le) = number_from-member (suc n) rs y k in
    record {
      i = n;
      j = j;
      r = r;
      s = s;
      r_there = head refl;
      s_there = tail k';
      x_of_r = e;
      y_of_s = e';
      in_order = λ lt. omega arith;
      alike = λ same. ground arith;
    }
number_from-order n (r ∷ rs) x y (le, a) (tail m) (head e') =
    let (i, s, m', e, later) = number_from-member (suc n) rs x m in
    let above = All-member (λ z. index r ≤ℤ index z) rs s le m' in
    record {
      i = i;
      j = n;
      r = s;
      s = r;
      r_there = tail m';
      s_there = head refl;
      x_of_r = e;
      y_of_s = e';
      in_order = λ lt. omega arith;
      alike = λ same. ground arith;
    }
number_from-order n (r ∷ rs) x y (le, a) (tail m) (tail k) =
    let below = number_from-order (suc n) rs x y a m k in
    record {
      i = below.i;
      j = below.j;
      r = below.r;
      s = below.s;
      r_there = tail below.r_there;
      s_there = tail below.s_there;
      x_of_r = below.x_of_r;
      y_of_s = below.y_of_s;
      in_order = below.in_order;
      alike = below.alike;
    }
