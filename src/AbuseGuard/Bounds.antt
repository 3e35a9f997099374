-- ===== src/AbuseGuard/Bounds.antt =====
-- The guarantees of the sliding window.
use matrix_flare.Prelude.{
  ℕ, ◌+◌, ◌≤◌, ◌<◌, Bool, none, some, List, [], ◌∷◌, ◌++◌, ◌≡◌, refl, arith, length, filter, inl,
  inr, ◌⊎◌, Bool-cases, leb, or_else, length-append, length-filter-le, ap, ◌∙◌, sym,
}
use matrix_flare.AbuseGuard.Policies.{Policy}
use matrix_flare.AbuseGuard.Window.{
  is_recent, recent_hits, retry_after, Verdict, pass, limited, take_hit,
}

filter-append : (p : ℕ → Bool) (xs ys : List ℕ) → filter p (xs ++ ys) ≡ filter p xs ++ filter p ys
filter-append p [] ys = refl
filter-append p (x ∷ xs) ys = ground (arith, filter-append p xs ys)

-- A later window holds no hit that an earlier one has dropped.
recent-recent :
    (p : Policy) (now later : ℕ) (hits : List ℕ)
    → now ≤ later
    → recent_hits p later (recent_hits p now hits) ≡ recent_hits p later hits
unfolding recent_hits
recent-recent p now later [] le = refl
recent-recent p now later (h ∷ hits) le = ground (arith, recent-recent p now later hits le)

-- The times that were let through, after one more verdict.
abbrev pub let_through : Verdict → ℕ → List ℕ → List ℕ
let_through pass now passed = passed ++ now ∷ []
let_through (limited wait) now passed = passed

-- One bucket over a sequence of requests: the hits kept, and the times that were let through.
unfoldable pub run_bucket : Policy → List ℕ → List ℕ → List ℕ → List ℕ × List ℕ
run_bucket p hits passed [] = (hits, passed)
run_bucket p hits passed (now ∷ times) =
    run_bucket p (or_else (take_hit p now hits).1 hits)
      (let_through (take_hit p now hits).0 now passed) times

-- The times do not go back, from a time on.
abbrev pub Ascending : ℕ → List ℕ → Type 0
Ascending last [] = Unit
Ascending last (t ∷ ts) = (last ≤ t) × Ascending t ts

unfoldable pub last_time : ℕ → List ℕ → ℕ
last_time last [] = last
last_time last (t ∷ ts) = last_time t ts

abbrev Covers : Policy → ℕ → List ℕ → List ℕ → Type 0
Covers p last hits passed =
    (later : ℕ) → last ≤ later → recent_hits p later passed ≡ recent_hits p later hits

length-recent :
    (p : Policy) (now : ℕ) (hits : List ℕ) → length (recent_hits p now hits) ≤ length hits
unfolding recent_hits
length-recent p now hits = length-filter-le (is_recent p.window_ms now) hits

take_hit-cases :
    (p : Policy) (now : ℕ) (hits : List ℕ)
    → ((wait : ℕ) × (take_hit p now hits ≡ (limited wait, none)))
      ⊎ ((length (recent_hits p now hits) < p.limit)
          × (take_hit p now hits ≡ (pass, some (recent_hits p now hits ++ now ∷ []))))
unfolding take_hit
take_hit-cases p now hits = elim (Bool-cases (leb p.limit (length (recent_hits p now hits)))) [
  | inl e ↦ inl (retry_after p now (recent_hits p now hits), rw e refl)
  | inr e ↦ inr (ground arith, rw e refl)
]

recent_hits-append :
    (p : Policy) (now : ℕ) (xs ys : List ℕ)
    → recent_hits p now (xs ++ ys) ≡ recent_hits p now xs ++ recent_hits p now ys
unfolding recent_hits
recent_hits-append p now xs ys = filter-append (is_recent p.window_ms now) xs ys

step-Covers :
    (p : Policy) (last now : ℕ) (hits passed : List ℕ)
    → last ≤ now
    → Covers p last hits passed
    → Covers p now (recent_hits p now hits ++ now ∷ []) (passed ++ now ∷ [])
step-Covers p last now hits passed le covers later le' =
    recent_hits-append p later passed (now ∷ [])
    ∙ ap (λ xs. xs ++ recent_hits p later (now ∷ []))
        (covers later (omega arith) ∙ sym (recent-recent p now later hits le'))
    ∙ sym (recent_hits-append p later (recent_hits p now hits) (now ∷ []))

step-length :
    (p : Policy) (now : ℕ) (hits : List ℕ)
    → length (recent_hits p now hits) < p.limit
    → length (recent_hits p now hits ++ now ∷ []) ≤ p.limit
step-length p now hits few = rw (length-append (recent_hits p now hits) (now ∷ [])) (omega arith)

run_bucket_bound :
    (p : Policy) (last : ℕ) (hits passed times : List ℕ)
    → length hits ≤ p.limit
    → Covers p last hits passed
    → Ascending last times
    → (later : ℕ) → last_time last times ≤ later
    → length (recent_hits p later (run_bucket p hits passed times).1) ≤ p.limit
unfolding run_bucket last_time
run_bucket_bound p last hits passed [] few covers up later le =
    rw (covers later le) (omega (arith, length-recent p later hits))
run_bucket_bound p last hits passed (now ∷ times) few covers (here, up) later le =
    elim (take_hit-cases p now hits) [
      | inl (wait, e) ↦
          rw (e, run_bucket)
            (run_bucket_bound p now hits passed times few (λ t le'. covers t (omega arith)) up later
              le)
      | inr (room, e) ↦
          rw (e, run_bucket)
            (run_bucket_bound p now (recent_hits p now hits ++ now ∷ []) (passed ++ now ∷ []) times
              (step-length p now hits room) (step-Covers p last now hits passed here covers) up
              later le)
    ]

-- However many requests a key makes, at times that do not go back, the window that ends at or after
-- the last of them holds at most `limit` that were let through.
pub window_bound :
    (p : Policy) (start : ℕ) (times : List ℕ)
    → Ascending start times
    → (later : ℕ) → last_time start times ≤ later
    → length (recent_hits p later (run_bucket p [] [] times).1) ≤ p.limit
window_bound p start times up later le =
    run_bucket_bound p start [] [] times (omega arith) (λ t h. refl) up later le

drop_head :
    (p : Policy) (now r h : ℕ) (rest hits : List ℕ)
    → recent_hits p now hits ≡ h ∷ rest
    → p.window_ms + h ≤ now + r
    → length (recent_hits p (now + r) hits) ≤ length rest
unfolding recent_hits
drop_head p now r h rest hits e late =
    rw (← recent-recent p now (now + r) hits (omega arith))
      (rw e (ground (arith, length-filter-le (is_recent p.window_ms (now + r)) rest)))

limited_at :
    (p : Policy) (now r : ℕ) (hits : List ℕ)
    → (take_hit p now hits).0 ≡ limited r
    → (p.limit ≤ length (recent_hits p now hits)) × (r ≡ retry_after p now (recent_hits p now hits))
unfolding take_hit
limited_at p now r hits h = (ground arith, ground arith)

passes_below :
    (p : Policy) (now : ℕ) (hits : List ℕ)
    → length (recent_hits p now hits) < p.limit
    → (take_hit p now hits).0 ≡ pass
unfolding take_hit
passes_below p now hits h = ground arith

late_enough :
    (p : Policy) (now h : ℕ) (rest : List ℕ) → p.window_ms + h ≤ now + retry_after p now (h ∷ rest)
unfolding retry_after
late_enough p now h rest = omega arith

-- The retry delay of a refused request is honest: where the bucket holds no more hits than the
-- limit, which is at least one, the same request is let through once the delay has passed and no
-- other has been let through meanwhile.
pub retry_admits :
    (p : Policy) (now r : ℕ) (hits : List ℕ)
    → 1 ≤ p.limit
    → length hits ≤ p.limit
    → (take_hit p now hits).0 ≡ limited r
    → (take_hit p (now + r) hits).0 ≡ pass
retry_admits p now r hits one few h = go (recent_hits p now hits) refl
  where
    go : (recent : List ℕ) → recent_hits p now hits ≡ recent → (take_hit p (now + r) hits).0 ≡ pass
    go [] e =
        let (full, _) = limited_at p now r hits h in
        let none_left : p.limit ≤ 0 = rw e at full in absurd (omega arith)
    go (x ∷ rest) e =
        let (full, delay) = limited_at p now r hits h in
        let wait : p.window_ms + x ≤ now + r = rw (delay, e) (late_enough p now x rest) in
        let size : length (recent_hits p now hits) ≡ length (x ∷ rest) = ap length e in
        let fits = length-recent p now hits in
        let left = drop_head p now r x rest hits e wait in
        passes_below p (now + r) hits (omega arith)
