-- ===== src/ControlPlane/Endings.antt =====
-- Jobs at their end: what messages leave of them, and the messages that fail them.
use matrix_flare.Prelude.{
  ℕ, String, Bool, true, false, not, ◌&&◌, ◌==◌, ◌⊎◌, Result, ok, throws, sym, subst, Option-cases,
  Option, none, some, str_eq, is_some, is_empty, or_else, ◌≡◌, refl, ap, ◌∙◌, inl, inr, arith,
  eq_iff, Bool-cases,
}
use matrix_flare.Json.{Json, null, bool, int, frac, str, arr, obj, Fields, get}
use matrix_flare.ControlPlane.Tables.{
  JobState, Job, Payload, Checkpoint, CheckpointRow, Plane, find_job, find_checkpoint,
  upsert_checkpoint, updated_job,
}
use matrix_flare.ControlPlane.Jobs.{is_terminal, is_cancel_requested, with_state, update_job_state}
use matrix_flare.ControlPlane.Queue.{
  Queue, Attempt, raised, done, Failure, Delivery, is_export, shard_of, is_supported_export,
  is_complete, all_complete, repeat_message, republish, stale_chunk,
}
use matrix_flare.ControlPlane.Process.{
  is_stale, process_staged, process_shard, process_queue_message,
}
use matrix_flare.ControlPlane.Payloads.{
  normalize_count, attempt_of, build_payload, build_versioned, normalize_queue_payload,
}
use matrix_flare.ControlPlane.Worker.{
  is_retryable, body_job_id, failure_update, fail_found, fail_job_for_queue_message, ack,
  settle_failure, settle_payload, handle_message,
}
use matrix_flare.ControlPlane.Shards.{find_job-updated_job}
use matrix_flare.ControlPlane.Completion.{updated_job_state}

-- The jobs and the audit events are as they were.
abbrev pub LeavesJobs : Plane → Plane → Type 0
LeavesJobs p q = (q.jobs ≡ p.jobs) × (q.audit_events ≡ p.audit_events)

upsert_checkpoint-LeavesJobs :
    (row : CheckpointRow) (p : Plane) → LeavesJobs p (upsert_checkpoint row p)
unfolding upsert_checkpoint
upsert_checkpoint-LeavesJobs row p =
    elim (Bool-cases (is_some (find_checkpoint row.key p.job_checkpoints))) [
      | inl e ↦ rw e (refl, refl)
      | inr e ↦ rw e (refl, refl)
    ]

terminal_live : (s : JobState) → is_terminal s ≡ true → is_cancel_requested s ≡ false
terminal_live JobState.completed h = refl
terminal_live JobState.finalized h = refl
terminal_live JobState.failed h = refl
terminal_live JobState.canceled h = refl
terminal_live JobState.pending h = cc
terminal_live JobState.checkpointed h = cc
terminal_live JobState.scanning h = cc
terminal_live JobState.applying h = cc
terminal_live JobState.materializing h = cc
terminal_live JobState.uploading h = cc
terminal_live JobState.validating h = cc
terminal_live JobState.importing h = cc
terminal_live JobState.cutover_ready h = cc
terminal_live JobState.cutover h = cc
terminal_live JobState.verifying h = cc
terminal_live JobState.cancel_requested h = cc

module _ (d : Delivery) where
  republish-LeavesJobs :
      (a : Attempt (Unit {0})) (row : CheckpointRow) (payload : Payload) (p : Plane)
      → LeavesJobs p (republish d a row payload p).1
  republish-LeavesJobs (raised e) row payload p = (refl, refl)
  republish-LeavesJobs (done u) row payload p = upsert_checkpoint-LeavesJobs _ _

  stale_chunk-LeavesJobs :
      (row : CheckpointRow) (payload : Option Payload) (p : Plane)
      → LeavesJobs p (stale_chunk d row payload p).1
  stale_chunk-LeavesJobs row none p = (refl, refl)
  stale_chunk-LeavesJobs row (some payload) p =
      elim (Bool-cases (str_eq (or_else row.checkpoint.queue_delivery_state "") "staged")) [
        | inl e ↦ rw e (republish-LeavesJobs (d.works.send payload) row payload p)
        | inr e ↦ rw e (refl, refl)
      ]

  module _ (m : Payload) (job : Job) (ended : is_terminal job.internal_state ≡ true) where
    repeat_message-LeavesJobs :
        (checkpoint : Checkpoint) (p : Plane) → LeavesJobs p (repeat_message d job checkpoint p).1
    unfolding repeat_message
    repeat_message-LeavesJobs checkpoint p =
        let idle : (all_complete job p && not (is_terminal job.internal_state)) ≡ false =
          ground arith in
        rw idle (refl, refl)

    process_staged-LeavesJobs :
        (row : CheckpointRow) (p : Plane) → LeavesJobs p (process_staged d m job row p).1
    unfolding process_staged
    process_staged-LeavesJobs row p =
        elim (Bool-cases (is_export d.queue && not (is_supported_export row.key))) [
          | inl e ↦ rw e (refl, refl)
          | inr e0 ↦ elim (Bool-cases (is_complete row)) [
            | inl e ↦ rw (e0, e) (repeat_message-LeavesJobs row.checkpoint p)
            | inr e1 ↦ elim (Bool-cases (is_stale d m row)) [
              | inl e ↦ rw (e0, e1, e) (stale_chunk-LeavesJobs row row.checkpoint.queued_payload p)
              | inr e2 ↦ elim (Bool-cases (not (str_eq row.checkpoint.status "queued"))) [
                | inl e ↦ rw (e0, e1, e2, e) (refl, refl)
                | inr e3 ↦ rw (e0, e1, e2, e3, ended) (refl, refl)
              ]
            ]
          ]
        ]

    process_shard-LeavesJobs :
        (row : Option CheckpointRow) (p : Plane) → LeavesJobs p (process_shard d m job row p).1
    process_shard-LeavesJobs none p = (refl, refl)
    process_shard-LeavesJobs (some row) p = process_staged-LeavesJobs row p

  -- No message changes a job at its end: whatever a message of that job comes to, a throw too, the jobs
  -- and the audit events are as they were.
  pub process_queue_message_terminal :
      (m : Payload) (job : Job) (p : Plane)
      → find_job m.job_id p.jobs ≡ some job
      → is_terminal job.internal_state ≡ true
      → LeavesJobs p (process_queue_message d m p).1
  unfolding process_queue_message
  process_queue_message_terminal m job p found ended =
      let live = terminal_live job.internal_state ended in
      rw found (
        rw live (
          process_shard-LeavesJobs m job ended
            (find_checkpoint (shard_of job.job_id m) p.job_checkpoints) p))

-- Whether a failure is one to be retried.
abbrev retries {ℓ} : {A : Type ℓ} → Attempt A → Bool
retries (raised e) = is_retryable e
retries (done a) = false

attempt_of-final {ℓ} : {A : Type ℓ} (r : Result A) → retries (attempt_of r) ≡ false
attempt_of-final (throws e) = refl
attempt_of-final (ok a) = refl

build_versioned-final :
    (queue : Queue) (value : Fields) (version : Result ℕ)
    → retries (build_versioned queue value version) ≡ false
build_versioned-final queue value (throws e) = refl
build_versioned-final queue value (ok version) = elim (Bool-cases (version == 1)) [
  | inl e ↦ rw e (attempt_of-final (build_payload queue value))
  | inr e ↦ rw e refl
]

-- No refusal of a payload is one to be retried.
normalize_queue_payload-final :
    (queue : Queue) (body : Json) → retries (normalize_queue_payload queue body) ≡ false
unfolding normalize_queue_payload
normalize_queue_payload-final queue (obj value) =
    build_versioned-final queue value (normalize_count (get "schema_version" value) 1)
normalize_queue_payload-final queue null = refl
normalize_queue_payload-final queue (bool b) = refl
normalize_queue_payload-final queue (int n) = refl
normalize_queue_payload-final queue (frac n) = refl
normalize_queue_payload-final queue (str s) = refl
normalize_queue_payload-final queue (arr xs) = refl

-- There is no job of that id to be failed: no id, no job, or one at its end.
abbrev pub HasNoneToFail : String → Plane → Type 0
HasNoneToFail id p =
    (is_empty id ≡ true)
    ⊎ (find_job id p.jobs ≡ none)
    ⊎ ((job : Job) × (find_job id p.jobs ≡ some job) × (is_terminal job.internal_state ≡ true))

-- The job of that id was not at its end and is a failed one; its checkpoints and what was sent are as
-- they were.
abbrev pub IsFailedIn : String → Plane → Plane → Type 0
IsFailedIn id p q =
    (job : Job) × (after : Job) × (find_job id p.jobs ≡ some job)
    × (is_terminal job.internal_state ≡ false)
    × (find_job id q.jobs ≡ some after)
    × (after.internal_state ≡ JobState.failed)
    × (q.job_checkpoints ≡ p.job_checkpoints)
    × (q.sent ≡ p.sent)

module _ (d : Delivery) where
  fail_found_job :
      (e : Failure) (id : String) (job : Job) (p : Plane)
      → find_job id p.jobs ≡ some job
      → is_terminal job.internal_state ≡ false
      → IsFailedIn id p (fail_found d e (some job) p)
  unfolding update_job_state with_state
  fail_found_job e id job p found live =
      let new = with_state job (failure_update d e) d.now in
      let same : str_eq job.job_id new.job_id ≡ true = (eq_iff job.job_id job.job_id).1 refl in
      rw live (
        job,
        updated_job new job,
        found,
        live,
        find_job-updated_job id new p.jobs job found,
        updated_job_state new job same,
        refl,
        refl,
      )

  fail_job-cases :
      (body : Json) (e : Failure) (p : Plane)
      → ((fail_job_for_queue_message d body e p ≡ p) × HasNoneToFail (body_job_id body) p)
        ⊎ IsFailedIn (body_job_id body) p (fail_job_for_queue_message d body e p)
  unfolding fail_job_for_queue_message
  fail_job-cases body e p = elim (Bool-cases (is_empty (body_job_id body))) [
    | inl nameless ↦ inl (rw nameless refl, inl nameless)
    | inr named ↦ elim (Option-cases (find_job (body_job_id body) p.jobs)) [
      | inl absent ↦ inl (rw (named, absent) refl, inr (inl absent))
      | inr (job, found) ↦ elim (Bool-cases (is_terminal job.internal_state)) [
        | inl ended ↦ inl (rw (named, found, ended) refl, inr (inr (job, found, ended)))
        | inr live ↦
            let out : fail_job_for_queue_message d body e p ≡ fail_found d e (some job) p =
              rw named (ap (λ j. fail_found d e j p) found) in
            inr (
              subst (λ q. IsFailedIn (body_job_id body) p q) (sym out)
                (fail_found_job e (body_job_id body) job p found live))
      ]
    ]
  ]

  -- A message whose payload is refused, for whatever reason, is acknowledged and never retried. It fails
  -- the job that it names, if there is one that is not at its end, and leaves the checkpoints and the
  -- queues alone; where there is none, it changes no table.
  pub handle_message_unreadable :
      (body : Json) (e : Failure) (p : Plane)
      → normalize_queue_payload d.queue body ≡ raised e
      → ((handle_message d body p).0 ≡ ack)
        × ((((handle_message d body p).1 ≡ p) × HasNoneToFail (body_job_id body) p)
            ⊎ IsFailedIn (body_job_id body) p (handle_message d body p).1)
  unfolding handle_message settle_failure
  handle_message_unreadable body e p refused =
      let final : is_retryable e ≡ false =
        ap retries (sym refused) ∙ normalize_queue_payload-final d.queue body in
      let out : handle_message d body p ≡ (ack, fail_job_for_queue_message d body e p) =
        ap (λ a. settle_payload d body a p) refused ∙ rw final refl in
      rw out (refl, fail_job-cases body e p)
