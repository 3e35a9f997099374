-- ===== src/AbuseGuard/Enforce.antt =====
-- Abuse-guard.mjs: `enforceGatewayAbuseGuard` and `enforceSemanticQuota`, with the key of a bucket.
-- The platform's rate limiter is a function from a client address to what its `limit` resolves to.
use Prim.Native.String.{◌++◌ as append}
use Prim.Native.Char.{code}
use matrix_flare.Prelude.{
  ℕ, String, Bool, true, false, ◌||◌, Option, none, some, [], ◌∷◌, if◌then◌else◌, includes,
  is_empty, trim, Result, ok, throws, ◌>>=◌, type_error, internal, ◌==◌,
}
use matrix_flare.Json.{Json}
use matrix_flare.AbuseGuard.Policies.{find_key, gateway_bindings, resolve_abuse_policy}
use matrix_flare.AbuseGuard.Classify.{Classification}
use matrix_flare.AbuseGuard.Window.{Verdict, pass, limited, Store, hit_bucket}

-- `stableString` of a header or variable that may be absent
abbrev pub stable_string : Option String → String
stable_string none = ""
stable_string (some s) = trim s

-- `left || right` on texts
abbrev pub or_text : String → String → String
or_text s t = if is_empty s then t else s

-- `text.split(',')[0]`
unfoldable pub before_comma : String → String
before_comma String.[] = String.[]
before_comma (String.◌∷◌ c s) =
    let rest = before_comma s in if code c == b',' then String.[] else String.◌∷◌ c rest

pub record AddressHeaders : Type 0 where
  pub cf_connecting_ip : Option String
  pub x_forwarded_for : Option String
  pub x_real_ip : Option String

-- `resolveClientAddress`
unfoldable pub resolve_client_address : AddressHeaders → String
resolve_client_address h =
    or_text
      (or_text (stable_string h.cf_connecting_ip) (
        or_text (trim (before_comma (stable_string h.x_forwarded_for)))
          (stable_string h.x_real_ip)))
      "unknown"

pub record GatewayEnv : Type 0 where
  pub overrides : Option Json
  pub environment_name : Option String
  -- `env[binding_name]`: no limiter, or what its `limit` resolves to: `success`, if that is a Boolean
  pub limiter : String → Option (String → Option Bool)

-- `requiresStrictGatewayRateLimitBinding`
unfoldable pub requires_strict_binding : Option String → Bool
requires_strict_binding environment =
    let name = stable_string environment in
    if includes ("ci-integration" ∷ "staging" ∷ "pre-release" ∷ []) name
    then true
    else if is_empty name || includes ("local" ∷ "environment_name-placeholder" ∷ []) name
    then false
    else true

-- `enforceSemanticQuota`
unfoldable pub enforce_semantic_quota :
    Option Json → String → String → ℕ → Store → Result (Verdict × Store)
enforce_semantic_quota overrides policy_id key now store = do
  policy ← resolve_abuse_policy overrides policy_id
  ok (hit_bucket policy (append policy_id (append "|" key)) now store)

-- The local window of `enforceGatewayAbuseGuard`.
unfoldable pub local_window :
    GatewayEnv → String → AddressHeaders → ℕ → Store → Result (Verdict × Store)
local_window env policy_id headers now store = do
  policy ← resolve_abuse_policy env.overrides policy_id
  ok (
      hit_bucket policy (append policy_id (append "|ip:" (resolve_client_address headers))) now
        store)

-- What the platform's limiter decides; it keeps its own counts.
unfoldable pub platform_limit : GatewayEnv → String → Option Bool → Store → Result (Verdict × Store)
platform_limit env policy_id none store = throws type_error
platform_limit env policy_id (some true) store = ok (pass, store)
platform_limit env policy_id (some false) store = do
  policy ← resolve_abuse_policy env.overrides policy_id
  ok (limited policy.window_ms, store)

-- `enforceGatewayAbuseGuard`, of a classified request. A rejected promise is a throw.
unfoldable pub enforce_gateway_abuse_guard :
    GatewayEnv → AddressHeaders → Classification → ℕ → Store → Result (Verdict × Store)
enforce_gateway_abuse_guard env headers c now store = elim c.gateway_policy_id [
  | none ↦ ok (pass, store)
  | some policy_id ↦ elim (find_key policy_id gateway_bindings) [
    | none ↦ local_window env policy_id headers now store
    | some definition ↦ elim (env.limiter definition.binding_name) [
      | some limit ↦ platform_limit env policy_id (limit (resolve_client_address headers)) store
      | none ↦
          if requires_strict_binding env.environment_name
          then throws (internal "missing rate-limit binding")
          else local_window env policy_id headers now store
    ]
  ]
]
