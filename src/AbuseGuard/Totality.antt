-- ===== src/AbuseGuard/Totality.antt =====
-- No request of the gateway meets an unknown policy, and no policy has an empty budget.
use matrix_flare.Prelude.{
  ℕ, String, Bool, true, false, List, [], ◌∷◌, All, subst, Option, none, some, ◌≡◌, refl, ◌≤◌,
  arith, Result, ok, ◌⊎◌, inl, inr, if◌then◌else◌, str_eq, Bool-cases, Option-cases, is_some,
}
use matrix_flare.Prelude.Int.{pos, negsuc}
use matrix_flare.Json.{Json, null, bool, int, frac, str, arr, obj, as_object, get}
use matrix_flare.AbuseGuard.Policies.{
  Policy, BindingDefinition, find_key, default_policies, gateway_bindings, resolve_abuse_policy,
  positive_or, parse_policy_overrides,
}
use matrix_flare.AbuseGuard.Classify.{
  classify_gateway_request, is_public_entry, is_search, is_media, is_room_write, is_register,
  is_login, classify_rest, classify_session_route, strip_prefix,
}
use matrix_flare.AbuseGuard.Window.{Verdict, Store}
use matrix_flare.AbuseGuard.Enforce.{
  GatewayEnv, AddressHeaders, resolve_client_address, requires_strict_binding, local_window,
  platform_limit, enforce_gateway_abuse_guard,
}

positive_or_pos : (j : Option Json) (base : ℕ) → 1 ≤ base → 1 ≤ positive_or j base
positive_or_pos none base h = h
positive_or_pos (some (int (pos n))) base h = ground arith
positive_or_pos (some (int (negsuc n))) base h = h
positive_or_pos (some null) base h = h
positive_or_pos (some (bool b)) base h = h
positive_or_pos (some (frac s)) base h = h
positive_or_pos (some (str s)) base h = h
positive_or_pos (some (arr xs)) base h = h
positive_or_pos (some (obj fs)) base h = h

-- A policy that the overrides leave a positive budget and window.
abbrev pub HasBudget : Option Json → String → Type 0
HasBudget overrides id =
    (p : Policy) × (resolve_abuse_policy overrides id ≡ ok p) × (1 ≤ p.limit) × (1 ≤ p.window_ms)

resolve_positive :
    (overrides : Option Json) (id : String) (base : Policy)
    → find_key id default_policies ≡ some base
    → 1 ≤ base.limit
    → 1 ≤ base.window_ms
    → HasBudget overrides id
unfolding resolve_abuse_policy
resolve_positive overrides id base found l w =
    elim (Option-cases (as_object (get id (parse_policy_overrides overrides)))) [
      | inl e ↦ (base, rw (found, resolve_abuse_policy, e), l, w)
      | inr (override, e) ↦ (
        record {
          limit = positive_or (get "limit" override) base.limit;
          window_ms = positive_or (get "window_ms" override) base.window_ms;
        },
        rw (found, resolve_abuse_policy, e),
        positive_or_pos (get "limit" override) base.limit l,
        positive_or_pos (get "window_ms" override) base.window_ms w,
      )
    ]

-- What the gateway needs to know of a policy: its platform binding, and a budget.
pub data IsKnown (overrides : Option Json) : Option String → Type 0 where
  unlimited : IsKnown overrides none
  limited_by :
      {id : String} (d : BindingDefinition)
      → find_key id gateway_bindings ≡ some d
      → HasBudget overrides id
      → IsKnown overrides (some id)

module _ (overrides : Option Json) where
  known :
      (id : String) (d : BindingDefinition) (base : Policy)
      → find_key id gateway_bindings ≡ some d
      → find_key id default_policies ≡ some base
      → 1 ≤ base.limit
      → 1 ≤ base.window_ms
      → IsKnown overrides (some id)
  known id d base bound found l w =
      limited_by d bound (resolve_positive overrides id base found l w)

  public_entry : IsKnown overrides (some "gateway_public_entry")
  unfolding find_key
  public_entry = known "gateway_public_entry" _ _ refl refl (omega arith) (omega arith)

  register : IsKnown overrides (some "gateway_register")
  unfolding find_key
  register = known "gateway_register" _ _ refl refl (omega arith) (omega arith)

  login : IsKnown overrides (some "gateway_login")
  unfolding find_key
  login = known "gateway_login" _ _ refl refl (omega arith) (omega arith)

  refresh : IsKnown overrides (some "gateway_refresh")
  unfolding find_key
  refresh = known "gateway_refresh" _ _ refl refl (omega arith) (omega arith)

  search_policy : IsKnown overrides (some "gateway_search")
  unfolding find_key
  search_policy = known "gateway_search" _ _ refl refl (omega arith) (omega arith)

  media : IsKnown overrides (some "gateway_media")
  unfolding find_key
  media = known "gateway_media" _ _ refl refl (omega arith) (omega arith)

  room_write : IsKnown overrides (some "gateway_room_write")
  unfolding find_key
  room_write = known "gateway_room_write" _ _ refl refl (omega arith) (omega arith)

  branch :
      (b : Bool) {x y : Option String}
      → IsKnown overrides x
      → IsKnown overrides y
      → IsKnown overrides (if b then x else y)
  branch true h k = h
  branch false h k = k

  rest_known : (path : String) → IsKnown overrides (classify_rest path).gateway_policy_id
  unfolding classify_rest
  rest_known path = elim (Bool-cases (str_eq path "/_matrix/client/v3/sync")) [
    | inl e ↦ rw e unlimited
    | inr e ↦ elim (Bool-cases (is_some (strip_prefix "/_matrix/client/" path))) [
      | inl f ↦ rw (e, f) unlimited
      | inr f ↦ elim (Bool-cases (is_some (strip_prefix "/_matrix/" path))) [
        | inl g ↦ rw (e, f, g) unlimited
        | inr g ↦ rw (e, f, g) unlimited
      ]
    ]
  ]

  session_route_known :
      (path : String) → IsKnown overrides (classify_session_route path).gateway_policy_id
  unfolding classify_session_route
  session_route_known path = elim (Bool-cases (str_eq path "/_matrix/client/v3/refresh")) [
    | inl a ↦ rw a refresh
    | inr a ↦ elim (Bool-cases (is_search path)) [
      | inl b ↦ rw (a, b) search_policy
      | inr b ↦ elim (Bool-cases (is_media path)) [
        | inl c ↦ rw (a, b, c) media
        | inr c ↦ elim (Bool-cases (is_room_write path)) [
          | inl d ↦ rw (a, b, c, d) room_write
          | inr d ↦ rw (a, b, c, d) (rest_known path)
        ]
      ]
    ]
  ]

  -- Every policy that the classification of a request names has a platform binding, and a budget
  -- and a window of at least one under any overrides.
  pub classify-IsKnown :
      (method path : String)
      → IsKnown overrides (classify_gateway_request method path).gateway_policy_id
  unfolding classify_gateway_request
  classify-IsKnown method path =
      let get = str_eq method "GET" in
      let post = str_eq method "POST" in
      elim (Bool-cases (is_public_entry path)) [
        | inl a ↦ rw a (branch get public_entry unlimited)
        | inr a ↦ elim (Bool-cases (is_register path)) [
          | inl b ↦ rw (a, b) (branch post register (branch get public_entry unlimited))
          | inr b ↦ elim (Bool-cases (is_login path)) [
            | inl c ↦ rw (a, b, c) (branch post login public_entry)
            | inr c ↦ rw (a, b, c) (session_route_known path)
          ]
        ]
      ]

-- Under a name the platform has a limiter that answers a Boolean, or none in an environment that
-- does not require it.
abbrev pub ServesBinding : GatewayEnv → String → String → Type 0
ServesBinding env name address =
    ((env.limiter name ≡ none) × (requires_strict_binding env.environment_name ≡ false))
    ⊎ ((limit : String → Option Bool) × (b : Bool) × (env.limiter name ≡ some limit)
        × (limit address ≡ some b))

-- The platform serves the seven bindings of the gateway.
abbrev pub Serves : GatewayEnv → String → Type 0
Serves env address =
    All (λ (entry : String × BindingDefinition). ServesBinding env entry.1.binding_name address)
      gateway_bindings

find_key-All {ℓ} :
    (P : BindingDefinition → Type ℓ) (id : String) (entries : List (String × BindingDefinition))
    (d : BindingDefinition)
    → find_key id entries ≡ some d
    → All (λ (entry : String × BindingDefinition). P entry.1) entries
    → P d
unfolding find_key
find_key-All P id [] d h all = absurd (let bad = h in cc)
find_key-All P id ((j, e) ∷ rest) d h (one, others) = elim (Bool-cases (str_eq j id)) [
  | inl same ↦ let here : some e ≡ some d = rw (find_key, same) at h in subst P (cc) one
  | inr differs ↦ find_key-All P id rest d (rw (find_key, differs) at h) others
]

module _ (env : GatewayEnv) (headers : AddressHeaders) (now : ℕ) (store : Store) where
  Answers : Result (Verdict × Store) → Type 0
  Answers result = (r : Verdict × Store) × (result ≡ ok r)

  local-Answers :
      (id : String) → HasBudget env.overrides id → Answers (local_window env id headers now store)
  unfolding Answers local_window
  local-Answers id (p, e, _, _) = rw (e, local_window) (_, refl)

  platform-Answers :
      (id : String) (b : Bool)
      → HasBudget env.overrides id
      → Answers (platform_limit env id (some b) store)
  unfolding Answers platform_limit
  platform-Answers id true h = (_, refl)
  platform-Answers id false (p, e, _, _) = rw (e, platform_limit) (_, refl)

  guard_of_known :
      (family : String) {policy : Option String}
      → Serves env (resolve_client_address headers)
      → IsKnown env.overrides policy
      → Answers (
          enforce_gateway_abuse_guard env headers
            (record { route_family = family; gateway_policy_id = policy })
            now
            store)
  unfolding enforce_gateway_abuse_guard
  guard_of_known family serves unlimited = unfold Answers in (_, refl)
  guard_of_known family serves (limited_by {id} d e budget) =
      let address = resolve_client_address headers in
      elim (find_key-All (λ b. ServesBinding env b.binding_name address) id gateway_bindings d e
        serves) [
          | inl (none_there, lax) ↦
              rw (e, enforce_gateway_abuse_guard, none_there, lax) (local-Answers id budget)
          | inr (limit, b, there, answer) ↦
              rw (e, enforce_gateway_abuse_guard, there, answer) (platform-Answers id b budget)
        ]

-- Where the platform serves the seven bindings of the gateway, the gateway's guard comes to a verdict
-- on every request.
pub gateway_guard_total :
    (env : GatewayEnv) (headers : AddressHeaders) (method path : String) (now : ℕ) (store : Store)
    → Serves env (resolve_client_address headers)
    → (r : Verdict × Store) × (enforce_gateway_abuse_guard env headers
          (classify_gateway_request method path)
          now
          store
        ≡ ok r)
gateway_guard_total env headers method path now store serves =
    unfold Answers in
    guard_of_known env headers now store (classify_gateway_request method path).route_family serves
      (classify-IsKnown env.overrides method path)
