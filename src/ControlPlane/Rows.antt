-- ===== src/ControlPlane/Rows.antt =====
-- What a batch leaves of the rows of `request_dedupe_projection`.
use matrix_flare.Prelude.{
  String, true, Option, none, some, List, [], ◌∷◌, is_some, ◌≡◌, refl, subst, ◌∙◌, inl, inr,
  eq_refl, Bool-cases, Option-cases,
}
use matrix_flare.Prelude.Finds.{find-append_some, find-append_none, find-map-some}
use matrix_flare.ControlPlane.Tables.{
  Envelope, DedupeKey, DedupeRow, Plane, same_dedupe_key, find_dedupe, find_job, find_checkpoint,
  Statement, insert_audit_event, insert_dedupe_record, update_dedupe_record, create_job, update_job,
  upsert_job_checkpoint, updated_dedupe, exec, batch,
}

-- A key is taken, by a request with this fingerprint and this job.
abbrev pub IsTaken : DedupeKey → String → Option String → Plane → Type 0
IsTaken k fingerprint job p =
    (row : DedupeRow) × (find_dedupe k p.request_dedupe_projection ≡ some row)
    × (row.request_fingerprint ≡ fingerprint)
    × (row.job_id ≡ job)

pub same_dedupe_key_refl : (k : DedupeKey) → same_dedupe_key k k ≡ true
same_dedupe_key_refl k =
    rw (eq_refl k.operator_principal_id, eq_refl k.idempotency_key, eq_refl k.scope_token) refl

pub updated_dedupe_key :
    (k : DedupeKey) (code : String) (payload : Envelope) (at : String) (j : DedupeKey)
    (r : DedupeRow)
    → same_dedupe_key (updated_dedupe k code payload at r).key j ≡ same_dedupe_key r.key j
updated_dedupe_key k code payload at j r = elim (Bool-cases (same_dedupe_key r.key k)) [
  | inl e ↦ rw e refl
  | inr e ↦ rw e refl
]

pub updated_dedupe_fingerprint :
    (k : DedupeKey) (code : String) (payload : Envelope) (at : String) (r : DedupeRow)
    → (updated_dedupe k code payload at r).request_fingerprint ≡ r.request_fingerprint
updated_dedupe_fingerprint k code payload at r = elim (Bool-cases (same_dedupe_key r.key k)) [
  | inl e ↦ rw e refl
  | inr e ↦ rw e refl
]

pub updated_dedupe_job :
    (k : DedupeKey) (code : String) (payload : Envelope) (at : String) (r : DedupeRow)
    → (updated_dedupe k code payload at r).job_id ≡ r.job_id
updated_dedupe_job k code payload at r = elim (Bool-cases (same_dedupe_key r.key k)) [
  | inl e ↦ rw e refl
  | inr e ↦ rw e refl
]

module _ (k : DedupeKey) (fingerprint : String) (job : Option String) where
  some-IsTaken :
      (p q : Plane) → some p ≡ some q → IsTaken k fingerprint job p → IsTaken k fingerprint job q
  some-IsTaken p q h t = let same : p ≡ q = cc in subst (IsTaken k fingerprint job) same t

  exec-IsTaken :
      (s : Statement) (p q : Plane)
      → IsTaken k fingerprint job p
      → exec s p ≡ some q
      → IsTaken k fingerprint job q
  unfolding exec find_dedupe
  exec-IsTaken (insert_audit_event e) p q t h = some-IsTaken _ q h t
  exec-IsTaken (insert_dedupe_record r) p q (row, found, f, j) h =
      elim (Bool-cases (is_some (find_dedupe r.key p.request_dedupe_projection))) [
        | inl e ↦ let bad : none ≡ some q = rw e at h in cc
        | inr e ↦ some-IsTaken _ q (rw e at h) (
          row,
          find-append_some (λ r. same_dedupe_key r.key k) p.request_dedupe_projection (r ∷ []) row
              found,
          f,
          j,
        )
      ]
  exec-IsTaken (update_dedupe_record k' code payload at) p q (row, found, f, j) h =
      some-IsTaken _ q h (
        updated_dedupe k' code payload at row,
        find-map-some (λ r. same_dedupe_key r.key k) (updated_dedupe k' code payload at)
            (updated_dedupe_key k' code payload at k) p.request_dedupe_projection row found,
        updated_dedupe_fingerprint k' code payload at row ∙ f,
        updated_dedupe_job k' code payload at row ∙ j,
      )
  exec-IsTaken (create_job new) p q t h = elim (Bool-cases (is_some (find_job new.job_id p.jobs))) [
    | inl e ↦ let bad : none ≡ some q = rw e at h in cc
    | inr e ↦ some-IsTaken _ q (rw e at h) t
  ]
  exec-IsTaken (update_job new) p q t h = some-IsTaken _ q h t
  exec-IsTaken (upsert_job_checkpoint row) p q t h =
      elim (Bool-cases (is_some (find_checkpoint row.key p.job_checkpoints))) [
        | inl e ↦ some-IsTaken _ q (rw e at h) t
        | inr e ↦ some-IsTaken _ q (rw e at h) t
      ]

  pub batch-IsTaken :
      (ss : List Statement) (p q : Plane)
      → IsTaken k fingerprint job p
      → batch ss p ≡ some q
      → IsTaken k fingerprint job q
  unfolding batch
  batch-IsTaken [] p q t h = some-IsTaken p q h t
  batch-IsTaken (s ∷ ss) p q t h = elim (Option-cases (exec s p)) [
    | inl e ↦ let bad : ◌≡◌ {A = Option Plane} none (some q) = rw (e, batch) at h in cc
    | inr (p', e) ↦ batch-IsTaken ss p' q (exec-IsTaken s p p' t e) (rw (e, batch) at h)
  ]

insert_takes :
    (row : DedupeRow) (p q : Plane)
    → exec (insert_dedupe_record row) p ≡ some q
    → IsTaken row.key row.request_fingerprint row.job_id q
unfolding exec find_dedupe
insert_takes row p q h = elim (Option-cases (find_dedupe row.key p.request_dedupe_projection)) [
  | inl e ↦
      let out = rw (e, exec) at h in
      some-IsTaken row.key row.request_fingerprint row.job_id _ q out (
        row,
        find-append_none (λ r. same_dedupe_key r.key row.key) p.request_dedupe_projection (row ∷ [])
              e
            ∙ rw (same_dedupe_key_refl row.key) refl,
        refl,
        refl,
      )
  | inr (old, e) ↦ let bad : none ≡ some q = rw (e, exec) at h in cc
]

-- A batch that starts with one statement and then takes a key.
module _ (first : Statement) (row : DedupeRow) (last : List Statement) where
  pub batch_takes :
      (p q : Plane)
      → batch (first ∷ insert_dedupe_record row ∷ last) p ≡ some q
      → IsTaken row.key row.request_fingerprint row.job_id q
  unfolding batch exec find_dedupe
  batch_takes p q h = elim (Option-cases (exec first p)) [
    | inl e ↦ let bad : ◌≡◌ {A = Option Plane} none (some q) = rw (e, batch) at h in cc
    | inr (p1, e) ↦ elim (Option-cases (exec (insert_dedupe_record row) p1)) [
      | inl e' ↦ let bad : ◌≡◌ {A = Option Plane} none (some q) = rw (e, e', batch) at h in cc
      | inr (p2, e') ↦
          batch-IsTaken row.key row.request_fingerprint row.job_id last p2 q
            (insert_takes row p1 p2 e') (rw (e, e', batch) at h)
    ]
  ]

  -- Where the key is taken the whole batch is refused.
  pub batch_refused :
      (fingerprint : String) (job : Option String) (p : Plane)
      → IsTaken row.key fingerprint job p
      → batch (first ∷ insert_dedupe_record row ∷ last) p ≡ none
  unfolding batch exec find_dedupe
  batch_refused fingerprint job p t = elim (Option-cases (exec first p)) [
    | inl e ↦ rw (e, batch) refl
    | inr (p1, e) ↦
        let (held, found, f, j) = exec-IsTaken row.key fingerprint job first p p1 t e in
        let refused : exec (insert_dedupe_record row) p1 ≡ none = rw found refl in
        rw (e, batch) (rw (refused, batch) refl)
  ]
