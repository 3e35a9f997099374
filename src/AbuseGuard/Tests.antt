-- ===== src/AbuseGuard/Tests.antt =====
-- Buckets filled by hand, and a request at a gateway with the platform's limiters.
use matrix_flare.Prelude.{
  ℕ, ◌≤◌, String, Bool, true, Option, none, some, List, [], ◌∷◌, ◌≡◌, refl, inr, arith,
  if◌then◌else◌, find, is_some, str_eq, length, trim, ok,
}
use matrix_flare.AbuseGuard.Policies.{Policy, BindingDefinition, gateway_bindings}
use matrix_flare.AbuseGuard.Classify.{classify_gateway_request}
use matrix_flare.AbuseGuard.Window.{
  Verdict, pass, limited, Store, take_hit, recent_hits, retry_after,
}
use matrix_flare.AbuseGuard.Enforce.{
  AddressHeaders, GatewayEnv, resolve_client_address, enforce_gateway_abuse_guard,
}
use matrix_flare.AbuseGuard.Bounds.{run_bucket, last_time, window_bound, retry_admits}
use matrix_flare.AbuseGuard.Totality.{IsKnown, Serves, classify-IsKnown, gateway_guard_total}

abbrev two_per_second : Policy
two_per_second = record { limit = 2; window_ms = 1000 }

abbrev busy : List ℕ
busy = 5000 ∷ 5400 ∷ []

limited_twice : (take_hit two_per_second 5600 busy).0 ≡ limited 400
unfolding take_hit recent_hits retry_after
limited_twice = refl

abbrev times : List ℕ
times = 5000 ∷ 5400 ∷ 5600 ∷ 6000 ∷ []

third_refused : (run_bucket two_per_second [] [] times).1 ≡ 5000 ∷ 5400 ∷ 6000 ∷ []
unfolding run_bucket take_hit recent_hits
third_refused = refl

window_bound_example :
    length (recent_hits two_per_second 6100 (run_bucket two_per_second [] [] times).1) ≤ 2
window_bound_example =
    window_bound two_per_second 5000 times
      (omega arith, (omega arith, (omega arith, (omega arith, tt)))) 6100
      (unfold last_time in omega arith)

retry_admits_example : (take_hit two_per_second 6000 busy).0 ≡ pass
retry_admits_example =
    retry_admits two_per_second 5600 400 busy (omega arith) (omega arith) limited_twice

abbrev headers : AddressHeaders
headers = record { cf_connecting_ip = some "10.0.0.1"; x_forwarded_for = none; x_real_ip = none }

-- A strict environment with the seven bindings and no other; every limiter lets through.
abbrev strict : GatewayEnv
strict = record {
  overrides = none;
  environment_name = some "staging";
  limiter = λ name.
      if is_some (
        find (λ (entry : String × BindingDefinition). str_eq entry.1.binding_name name)
          gateway_bindings)
      then some (λ address. some true)
      else none;
}

abbrev through : String → Option Bool
through address = some true

strict-Serves : Serves strict "10.0.0.1"
strict-Serves = (
  inr (through, true, refl, refl),
  (
    inr (through, true, refl, refl),
    (
      inr (through, true, refl, refl),
      (
        inr (through, true, refl, refl),
        (
          inr (through, true, refl, refl),
          (inr (through, true, refl, refl), (inr (through, true, refl, refl), tt)),
        ),
      ),
    ),
  ),
)

gateway_guard_total_example :
    (r : Verdict × Store) × (enforce_gateway_abuse_guard strict headers
        (classify_gateway_request "POST" "/_matrix/client/v3/login")
        5000
        []
      ≡ ok r)
unfolding resolve_client_address trim
gateway_guard_total_example =
    gateway_guard_total strict headers "POST" "/_matrix/client/v3/login" 5000 [] strict-Serves

classify-IsKnown_example :
    IsKnown none (classify_gateway_request "POST" "/_matrix/client/v3/login").gateway_policy_id
classify-IsKnown_example = classify-IsKnown none "POST" "/_matrix/client/v3/login"
