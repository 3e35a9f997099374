-- ===== src/ControlPlane/Constraints.antt =====
-- packages/control-plane/src/services.mjs: which scopes an operator's policy lets it name.
use matrix_flare.Prelude.{
  String, Bool, false, not, ◌&&◌, ◌||◌, Option, none, some, List, [], ◌∷◌, ◌++◌, str_eq,
  if◌then◌else◌, includes, is_empty, or_else, Result, ok, throws, ◌>>=◌, ◌>>◌, throw_if, type_error,
  range_error, internal,
}
use matrix_flare.Json.{
  Json, null, arr, obj, Items, nil, cons, Fields, field, end, get, is_true, normalize_string,
}
use matrix_flare.ControlPlane.Scopes.{Scope, normalize_target_scope}

-- `entries.map((entry) => normalizeString(entry))`
unfoldable pub texts_of : Items → Result (List String)
unfolding normalize_string
texts_of nil = ok []
texts_of (cons x xs) = do text ← normalize_string (some x); texts ← texts_of xs; ok (text ∷ texts)

abbrev pub Values : Type 0
Values = List (String × List String)

pub record Constraints : Type 0 where
  pub allowed_scope_kinds : List String
  pub allowed_values : Values

unfoldable pub get_values : String → Values → Option (List String)
get_values k [] = none
get_values k ((j, texts) ∷ rest) =
    let later = get_values k rest in if str_eq j k then some texts else later

unfoldable pub set_values : String → List String → Values → Values
set_values k texts [] = (k, texts) ∷ []
set_values k texts ((j, old) ∷ rest) =
    let later = set_values k texts rest in
    if str_eq j k then (j, texts) ∷ rest else (j, old) ∷ later

-- `value.allowed_scope_kinds`, where it is an array
abbrev pub scope_kinds_in : Option Json → Result (List String)
scope_kinds_in (some (arr xs)) = texts_of xs
scope_kinds_in _ = ok []

-- `Object.fromEntries` over the entries of `value.allowed_values`; every one has to be an array.
unfoldable pub value_lists : Fields → Result Values
unfolding texts_of
value_lists end = ok []
value_lists (field k (arr xs) rest) = do
  texts ← texts_of xs
  others ← value_lists rest
  ok ((k, texts) ∷ others)
value_lists (field k _ rest) = throws type_error

abbrev pub values_in : Option Json → Result Values
values_in (some (obj fields)) = value_lists fields
values_in _ = ok []

abbrev pub add_kind : String → List String → List String
add_kind k kinds = if includes kinds k then kinds else kinds ++ k ∷ []

abbrev pub read_list : String → Json → Constraints → Result Constraints
read_list k (arr xs) c = do
  texts ← texts_of xs
  ok record {
    allowed_scope_kinds = add_kind k c.allowed_scope_kinds;
    allowed_values = set_values k texts c.allowed_values;
  }
read_list k _ c = throws type_error

-- One entry of the constraints: the two named ones are read before, `global` is a flag, and any other is
-- the list of the ids of a kind.
unfoldable pub read_entry : String → Json → Constraints → Result Constraints
unfolding texts_of set_values
read_entry k v c =
    if str_eq k "allowed_scope_kinds" || str_eq k "allowed_values"
    then ok c
    else if str_eq k "global"
    then ok (
        if is_true (some v)
        then record c { allowed_scope_kinds = add_kind "global" c.allowed_scope_kinds }
        else c)
    else read_list k v c

unfoldable pub read_entries : Fields → Constraints → Result Constraints
unfolding read_entry
read_entries end c = ok c
read_entries (field k v rest) c = do next ← read_entry k v c; read_entries rest next

abbrev pub constraints_of : Fields → Result Constraints
constraints_of value = do
  kinds ← scope_kinds_in (get "allowed_scope_kinds" value)
  values ← values_in (get "allowed_values" value)
  read_entries value record { allowed_scope_kinds = kinds; allowed_values = values }

unfoldable pub normalize_target_constraints : Option Json → Result Constraints
unfolding texts_of value_lists read_entries
normalize_target_constraints none = constraints_of end
normalize_target_constraints (some null) = constraints_of end
normalize_target_constraints (some (obj value)) = constraints_of value
normalize_target_constraints (some _) = throws type_error

abbrev pub includes_id : List String → Option String → Bool
includes_id texts none = false
includes_id texts (some id) = includes texts id

abbrev pub is_allowed : Constraints → Scope → Bool
is_allowed c scope =
    includes c.allowed_scope_kinds scope.scope_kind
    && (str_eq scope.scope_kind "global"
        || includes_id (or_else (get_values scope.scope_kind c.allowed_values) []) scope.scope_id)

unfoldable pub authorize_scope : Option Json → Json → Result Bool
unfolding normalize_target_scope normalize_target_constraints get_values
authorize_scope constraints scope = do
  normalized ← normalize_target_scope scope
  c ← normalize_target_constraints constraints
  ok (is_allowed c normalized)

abbrev pub ops_scope_vocabulary : List String
ops_scope_vocabulary =
    "ops.read" ∷ "ops.audit.read" ∷ "ops.export.write" ∷ "ops.restore.write" ∷ "ops.rebuild.write"
    ∷ "ops.repair.write" ∷ "ops.appservice.write" ∷ "ops.schema.write" ∷ []

-- The policy of an operator.
pub record OperatorPolicy : Type 0 where
  pub allowed_scopes : List String
  pub target_scope_constraints : Option Json

-- `if (requiredScope && ...)`, twice
abbrev pub check_required : OperatorPolicy → Option String → Result (Unit {0})
check_required policy none = ok tt
check_required policy (some required) =
    if is_empty required
    then ok tt
    else throw_if (not (includes ops_scope_vocabulary required)) range_error
      >> throw_if (not (includes policy.allowed_scopes required)) (internal "forbidden")

-- `if (targetScope && ...)`: a target that is given is an object, as the routes build them.
abbrev pub check_target : OperatorPolicy → Option Json → Result (Unit {0})
check_target policy none = ok tt
check_target policy (some target) =
    authorize_scope policy.target_scope_constraints target
    >>= (λ allowed. throw_if (not allowed) (internal "forbidden"))

unfoldable pub authorize_operator_request :
    OperatorPolicy → Option String → Option Json → Result (Unit {0})
unfolding authorize_scope
authorize_operator_request policy required target =
    check_required policy required >> check_target policy target
