-- ===== src/AbuseGuard/Policies.antt =====
-- Abuse-guard.mjs: the rate-limit policies, and the overrides of `ABUSE_GUARD_POLICY_JSON`.
use matrix_flare.Prelude.{
  ℕ, String, Option, none, some, List, [], ◌∷◌, str_eq, if◌then◌else◌, leb, Result, ok, throws,
  range_error,
}
use matrix_flare.Prelude.Int.{pos}
use matrix_flare.Json.{Json, Fields, end, get, int, as_object}

pub record Policy : Type 0 where
  pub limit : ℕ
  pub window_ms : ℕ

pub record BindingDefinition : Type 0 where
  pub binding_name : String
  pub limit : ℕ
  pub period_seconds : ℕ

-- A read of a constant table by its key.
unfoldable pub find_key {ℓ} : {A : Type ℓ} → String → List (String × A) → Option A
find_key k [] = none
find_key k ((j, v) ∷ m) = let rest = find_key k m in if str_eq j k then some v else rest

abbrev binding : String → ℕ → ℕ → BindingDefinition
binding name limit period = record { binding_name = name; limit = limit; period_seconds = period }

-- `GATEWAY_RATE_LIMIT_BINDING_DEFINITIONS`, without the namespace ids, which only deployment reads.
abbrev pub gateway_bindings : List (String × BindingDefinition)
gateway_bindings =
    ("gateway_public_entry", binding "GATEWAY_PUBLIC_ENTRY_RATE_LIMITER" 120 60)
    ∷ ("gateway_register", binding "GATEWAY_REGISTER_RATE_LIMITER" 24 60)
    ∷ ("gateway_login", binding "GATEWAY_LOGIN_RATE_LIMITER" 60 60)
    ∷ ("gateway_refresh", binding "GATEWAY_REFRESH_RATE_LIMITER" 120 60)
    ∷ ("gateway_media", binding "GATEWAY_MEDIA_RATE_LIMITER" 180 60)
    ∷ ("gateway_search", binding "GATEWAY_SEARCH_RATE_LIMITER" 60 60)
    ∷ ("gateway_room_write", binding "GATEWAY_ROOM_WRITE_RATE_LIMITER" 240 60)
    ∷ []

abbrev policy : ℕ → ℕ → Policy
policy limit window = record { limit = limit; window_ms = window }

-- `DEFAULT_POLICIES`
abbrev pub default_policies : List (String × Policy)
default_policies =
    ("gateway_public_entry", policy 120 60000)
    ∷ ("gateway_register", policy 24 60000)
    ∷ ("gateway_login", policy 60 60000)
    ∷ ("gateway_refresh", policy 120 60000)
    ∷ ("gateway_media", policy 180 60000)
    ∷ ("gateway_search", policy 60 60000)
    ∷ ("gateway_room_write", policy 240 60000)
    ∷ ("userdo_register", policy 4 60000)
    ∷ ("userdo_login", policy 8 60000)
    ∷ ("userdo_refresh", policy 20 60000)
    ∷ ("userdo_media", policy 8 60000)
    ∷ ("roomdo_send", policy 120 10000)
    ∷ ("roomdo_membership", policy 48 30000)
    ∷ []

-- `Number.isInteger(value) && value >= 1 ? value : base`
abbrev pub positive_or : Option Json → ℕ → ℕ
positive_or (some (int (pos n))) base = if leb 1 n then n else base
positive_or _ base = base

-- `parsePolicyOverrides`, of what `JSON.parse` makes of the trimmed text (`none` for an empty text
-- and for one that does not parse)
unfoldable pub parse_policy_overrides : Option Json → Fields
parse_policy_overrides parsed = elim (as_object parsed) [ none ↦ end | some fs ↦ fs ]

-- `resolveAbusePolicy`
unfoldable pub resolve_abuse_policy : Option Json → String → Result Policy
resolve_abuse_policy overrides policy_id = elim (find_key policy_id default_policies) [
  | none ↦ throws range_error
  | some base ↦ elim (as_object (get policy_id (parse_policy_overrides overrides))) [
    | none ↦ ok base
    | some override ↦ ok (record {
      limit = positive_or (get "limit" override) base.limit;
      window_ms = positive_or (get "window_ms" override) base.window_ms;
    })
  ]
]
