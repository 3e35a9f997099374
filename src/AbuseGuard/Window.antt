-- ===== src/AbuseGuard/Window.antt =====
-- Abuse-guard.mjs: the sliding window of one bucket. Times are milliseconds since the epoch; a test
-- `timestamp > now - window` is written as `now < timestamp + window`.
use matrix_flare.Prelude.{
  ℕ, ◌+◌, ◌-◌, max, String, Bool, Option, none, some, List, [], ◌∷◌, ◌++◌, str_eq, if◌then◌else◌,
  ltb, leb, filter, length, head?, or_else,
}
use matrix_flare.AbuseGuard.Policies.{Policy}

-- `timestamp > windowStart`
abbrev pub is_recent : ℕ → ℕ → ℕ → Bool
is_recent window now timestamp = ltb now (timestamp + window)

unfoldable pub recent_hits : Policy → ℕ → List ℕ → List ℕ
recent_hits p now hits = filter (is_recent p.window_ms now) hits

-- `Math.max(1, policy.window_ms - (nowMs - recentHits[0]))`
unfoldable pub retry_after : Policy → ℕ → List ℕ → ℕ
retry_after p now recent = max 1 (p.window_ms + or_else (head? recent) 0 - now)

pub data Verdict : Type 0 where
  pass : Verdict
  limited : (retry_after_ms : ℕ) → Verdict

-- The end of `enforceSemanticQuota` and of `enforceGatewayAbuseGuard`, on the hits of the bucket.
-- `none` for the hits is a bucket that is not written.
unfoldable pub take_hit : Policy → ℕ → List ℕ → Verdict × Option (List ℕ)
take_hit p now hits =
    if leb p.limit (length (recent_hits p now hits))
    then (limited (retry_after p now (recent_hits p now hits)), none)
    else (pass, some (recent_hits p now hits ++ now ∷ []))

-- The `Map` of buckets.
abbrev pub Store : Type 0
Store = List (String × List ℕ)

unfoldable pub bucket : String → Store → List ℕ
bucket k [] = []
bucket k ((j, hits) ∷ m) = let rest = bucket k m in if str_eq j k then hits else rest

unfoldable pub set_bucket : String → List ℕ → Store → Store
set_bucket k hits [] = (k, hits) ∷ []
set_bucket k hits ((j, old) ∷ m) =
    let rest = set_bucket k hits m in if str_eq j k then (j, hits) ∷ m else (j, old) ∷ rest

-- One call on the bucket of a key.
unfoldable pub hit_bucket : Policy → String → ℕ → Store → Verdict × Store
hit_bucket p k now store =
    let (verdict, written) = take_hit p now (bucket k store) in
    elim written [ none ↦ (verdict, store) | some hits ↦ (verdict, set_bucket k hits store) ]
