-- ===== src/ControlPlane/Authorized.antt =====
-- Requests of operators that were authorized.
use matrix_flare.Prelude.{
  String, Bool, true, false, not, Option, none, some, List, [], ◌∷◌, str_eq, includes, or_else, All,
  ◌≡◌, refl, sym, ap, ◌∙◌, subst, inl, inr, ◌⊎◌, is_empty, arith, eq_iff, Bool-cases, Option-cases,
  ok, throw_if, >>=-eq-ok, >>-eq-ok, throw_if-eq-ok, ok_inj, internal, range_error,
}
use matrix_flare.Json.{Json, Fields, obj}
use matrix_flare.ControlPlane.Scopes.{Scope, normalize_target_scope}
use matrix_flare.ControlPlane.Constraints.{
  Values, Constraints, get_values, normalize_target_constraints, includes_id, is_allowed,
  authorize_scope, ops_scope_vocabulary, OperatorPolicy, check_required, check_target,
  authorize_operator_request,
}
use matrix_flare.ControlPlane.Kinds.{IsAllowedKind, constraints_of-AreAllowedKinds}
use matrix_flare.ControlPlane.Grants.{IsGranted, AreGranted, constraints_of-AreGranted}

includes-All {ℓ} :
    (P : String → Type ℓ) (ts : List String) (id : String) → includes ts id ≡ true → All P ts → P id
includes-All P [] id h a = absurd (let bad = h in cc)
includes-All P (t ∷ ts) id h (p, ps) = elim (Bool-cases (str_eq t id)) [
  | inl e ↦ subst P ((eq_iff t id).0 e) p
  | inr e ↦ includes-All P ts id (ground (arith, h, e)) ps
]

get_values-AreGranted :
    (raw : Fields) (kind : String) (values : Values) (ts : List String)
    → AreGranted raw values
    → get_values kind values ≡ some ts
    → All (λ id. IsGranted raw kind id) ts
unfolding get_values
get_values-AreGranted raw kind [] ts a h = absurd (let bad = h in cc)
get_values-AreGranted raw kind ((j, texts) ∷ rest) ts (one, others) h =
    elim (Bool-cases (str_eq j kind)) [
      | inl e ↦
          let found : some texts ≡ some ts = rw (get_values, e) at h in
          let same : texts ≡ ts = cc in
          subst (λ xs. All (λ id. IsGranted raw kind id) xs) same
            (subst (λ k. All (λ id. IsGranted raw k id) texts) ((eq_iff j kind).0 e) one)
      | inr e ↦ get_values-AreGranted raw kind rest ts others (rw (get_values, e) at h)
    ]

is_allowed-IsGranted :
    (raw : Fields) (c : Constraints) (kind : String) (scope_id : Option String)
    → AreGranted raw c.allowed_values
    → is_allowed c record { scope_kind = kind; scope_id = scope_id } ≡ true
    → (kind ≡ "global") ⊎ ((id : String) × (scope_id ≡ some id) × IsGranted raw kind id)
is_allowed-IsGranted raw c kind scope_id a h = elim (Bool-cases (str_eq kind "global")) [
  | inl e ↦ inl ((eq_iff kind "global").0 e)
  | inr named ↦ inr (listed_id scope_id (ground (arith, named, h)))
]
  where
    listed_id :
        (o : Option String)
        → includes_id (or_else (get_values kind c.allowed_values) []) o ≡ true
        → (id : String) × (o ≡ some id) × IsGranted raw kind id
    listed_id none listed = absurd (let bad = listed in cc)
    listed_id (some id) listed = elim (Option-cases (get_values kind c.allowed_values)) [
      | inl e ↦
          let bad : false ≡ true = ap (λ o. includes (or_else o []) id) (sym e) ∙ listed in
          absurd (cc)
      | inr (ts, e) ↦ (
        id,
        refl,
        includes-All (λ i. IsGranted raw kind i) ts id
            (ap (λ o. includes (or_else o []) id) (sym e) ∙ listed)
            (get_values-AreGranted raw kind c.allowed_values ts a e),
      )
    ]

not-false : (b : Bool) → not b ≡ false → b ≡ true
not-false true h = refl
not-false false h = cc

-- A request that was authorized has the scope that its route asks for, one of the vocabulary, among
-- those of the operator's policy; the constraints of the policy allow the kind of its target; and the
-- target is global, or the constraints list its id.
pub authorize_operator_request-IsGranted :
    (allowed_scopes : List String) (raw : Fields) (required : String) (target : Json)
    (scope : Scope)
    → is_empty required ≡ false
    → authorize_operator_request
        record { allowed_scopes = allowed_scopes; target_scope_constraints = some (obj raw) }
        (some required)
        (some target)
      ≡ ok tt
    → normalize_target_scope target ≡ ok scope
    → (includes ops_scope_vocabulary required ≡ true)
      × (includes allowed_scopes required ≡ true)
      × IsAllowedKind raw scope.scope_kind
      × ((scope.scope_kind ≡ "global")
          ⊎ ((id : String) × (scope.scope_id ≡ some id) × IsGranted raw scope.scope_kind id))
unfolding authorize_operator_request authorize_scope normalize_target_constraints
authorize_operator_request-IsGranted allowed_scopes raw required target scope asked h known =
    let policy : OperatorPolicy = record {
      allowed_scopes = allowed_scopes;
      target_scope_constraints = some (obj raw);
    } in
    let (h1, h2) =
      >>-eq-ok (check_required policy (some required)) (check_target policy (some target)) h in
    let (h3, h4) =
      >>-eq-ok (throw_if (not (includes ops_scope_vocabulary required)) range_error)
        (throw_if (not (includes allowed_scopes required)) (internal "forbidden"))
        (rw asked at h1) in
    let worded = throw_if-eq-ok (not (includes ops_scope_vocabulary required)) range_error h3 in
    let has = throw_if-eq-ok (not (includes allowed_scopes required)) (internal "forbidden") h4 in
    let (allowed, e1, h5) = >>=-eq-ok (authorize_scope (some (obj raw)) target) _ h2 in
    let admitted = throw_if-eq-ok (not allowed) (internal "forbidden") h5 in
    let (s, e2, h6) = >>=-eq-ok (normalize_target_scope target) _ e1 in
    let (c, e3, h7) = >>=-eq-ok (normalize_target_constraints (some (obj raw))) _ h6 in
    let same : s ≡ scope = ok_inj (sym e2 ∙ known) in
    let passed : is_allowed c scope ≡ true =
      ap (is_allowed c) (sym same) ∙ ok_inj h7 ∙ not-false allowed admitted in
    let kind : includes c.allowed_scope_kinds scope.scope_kind ≡ true = ground (arith, passed) in
    (
      not-false (includes ops_scope_vocabulary required) worded,
      not-false (includes allowed_scopes required) has,
      includes-All (λ k. IsAllowedKind raw k) c.allowed_scope_kinds scope.scope_kind kind
          (constraints_of-AreAllowedKinds raw c e3),
      is_allowed-IsGranted raw c scope.scope_kind scope.scope_id
          (constraints_of-AreGranted raw c e3) passed,
    )
