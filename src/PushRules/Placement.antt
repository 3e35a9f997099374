-- ===== src/PushRules/Placement.antt =====
-- `putPushRule`: where a rule that is put stands among the user's rules of its kind.
use matrix_flare.Prelude.{
  String, Bool, true, false, not, ◌&&◌, Option, none, some, List, [], ◌∷◌, find, str_eq,
  if◌then◌else◌, is_some, ◌≡◌, ◌≢◌, refl, sym, ◌∙◌, subst, inl, inr, arith, eq_iff, not-eq,
  Bool-cases, Option-cases, ok,
}
use matrix_flare.Prelude.Int.{ℤ, pos, ◌<ℤ◌, ◌≤ℤ◌, ◌-ℤ◌, ◌+ℤ◌, +ℤ_parts, -ℤ_parts}
use matrix_flare.Prelude.Members.{
  Member, cases_cons, All-member, find-member, filter-member, member-filter, sort-member,
  member-sort, IsAscending,
}
use matrix_flare.PushRules.Rules.{Kind, Row}
use matrix_flare.PushRules.View.{is_custom, compare_push_rule_order}
use matrix_flare.PushRules.Table.{list_rows}
use matrix_flare.PushRules.Records.{
  compute_push_rule_priority_index, prioritized_against, index_among, shifted, other_rows,
}
use matrix_flare.PushRules.Keys.{HasUniqueKeys}
use matrix_flare.PushRules.Followed.{member-same, is_custom-kind}
use matrix_flare.PushRules.Reindex.{index, sort-ascends}
use matrix_flare.PushRules.Renumbering.{list_rows-member, member-list_rows}

-- How the index `n` that a put computes lies to the index of another rule.
abbrev pub Placed : Option String → Bool → String → ℤ → ℤ → Type 0
Placed none before other n index_of_other = n <ℤ index_of_other
Placed (some against) before other n index_of_other =
    if str_eq against other
    then (if before then n <ℤ index_of_other else index_of_other <ℤ n)
    else Unit

minus_one-lt : (a b : ℤ) → a ≤ℤ b → a -ℤ pos 1 <ℤ b
minus_one-lt a b h = let e = -ℤ_parts a (pos 1) in omega arith

plus_one-lt : (a : ℤ) → a <ℤ a +ℤ pos 1
plus_one-lt a = let e = +ℤ_parts a (pos 1) in omega arith

shifted-Placed :
    (before : Bool) (a n : ℤ) → shifted before a ≡ n → (if before then n <ℤ a else a <ℤ n)
shifted-Placed true a n e = subst (λ m. m <ℤ a) e (minus_one-lt a a (omega arith))
shifted-Placed false a n e = subst (λ m. a <ℤ m) e (plus_one-lt a)

index_among-Placed :
    (rows : List Row) (against : Option String) (before : Bool) (n : ℤ) (other : Row)
    → index_among rows against before ≡ ok n
    → IsAscending index rows
    → Member other rows
    → ((m : Row) → Member m rows → m.rule_id ≡ other.rule_id → m ≡ other)
    → Placed against before other.rule_id n (index other)
unfolding index_among IsAscending
index_among-Placed [] against before n other h a m unique = elim m [ ]
index_among-Placed (first ∷ more) none before n other h (le, a) m unique =
    let e : index first -ℤ pos 1 ≡ n = cc in
    let lt : index first -ℤ pos 1 <ℤ index other =
      minus_one-lt (index first) (index other) (elim (cases_cons m) [
        | inl same ↦ rw same (omega arith)
        | inr m' ↦ All-member (λ y. index first ≤ℤ index y) more other le m'
      ]) in
    subst (λ k. k <ℤ index other) e lt
index_among-Placed (first ∷ more) (some against) before n other h a m unique =
    elim (Bool-cases (str_eq against other.rule_id)) [
      | inr f ↦ rw f tt
      | inl t ↦
          rw t
            (elim (Option-cases (find (λ (row : Row). str_eq row.rule_id against) (first ∷ more))) [
              | inl none_there ↦ let bad = rw (index_among, none_there) at h in cc
              | inr (match, found) ↦
                  let (m', id) =
                    find-member (λ (row : Row). str_eq row.rule_id against) (first ∷ more) match
                      found in
                  let same : match ≡ other =
                    unique match m'
                      ((eq_iff match.rule_id against).0 id ∙ (eq_iff against other.rule_id).0 t) in
                  let e = rw (index_among, found) at h in
                  let e' : shifted before match.priority_index ≡ n = cc in
                  shifted-Placed before (index other) n (rw (sym same) e')
            ])
    ]

module _ (collate : String → String → Bool) where
  pub compute_push_rule_priority_index-Placed :
      (rows : List Row) (kind : Kind) (before after : Option String) (id : String) (n : ℤ)
      (other : Row)
      → HasUniqueKeys rows
      → compute_push_rule_priority_index collate (list_rows rows) kind before after id ≡ ok n
      → Member other rows
      → is_custom kind other ≡ true
      → other.rule_id ≢ id
      → Placed (prioritized_against before after) (is_some before) other.rule_id n (index other)
  unfolding compute_push_rule_priority_index
  compute_push_rule_priority_index-Placed rows kind before after id n other u h m custom ne =
      let is_other = λ (row : Row). is_custom kind row && not (str_eq row.rule_id id) in
      let there : is_other other ≡ true = rw (custom, not-eq other.rule_id id ne) refl in
      index_among-Placed (other_rows collate (list_rows rows) kind id) _ (is_some before) n other h
        (sort-ascends collate _)
        (member-sort _ _ other
          (member-filter is_other _ other (member-list_rows rows other m) there))
        (λ x mx same.
          let (mx', t) =
            filter-member is_other (list_rows rows) x
              (sort-member (compare_push_rule_order collate) _ x mx) in
          member-same rows x other u (list_rows-member rows x mx') m
            (is_custom-kind kind x (ground arith) ∙ sym (is_custom-kind kind other custom)) same)
