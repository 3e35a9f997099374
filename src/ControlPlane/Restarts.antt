-- ===== src/ControlPlane/Restarts.antt =====
-- Restarts of failed jobs.
use matrix_flare.Prelude.{
  String, true, ◌&&◌, some, List, [], ◌∷◌, ◌++◌, map, ℕ, ◌⊎◌, str_eq, is_some, length, ◌≡◌, refl,
  sym, ap, ◌∙◌, subst, inl, inr, eq_iff, eq_refl, Bool-cases,
}
use matrix_flare.ControlPlane.Tables.{
  JobState, Job, Payload, CheckpointRow, Plane, find_job, find_checkpoint, updated_job,
  upsert_checkpoint,
}
use matrix_flare.ControlPlane.Jobs.{is_failed, with_state, update_job_state}
use matrix_flare.ControlPlane.Queue.{
  Failure, Attempt, raised, done, Delivery, spread, checkpoint_fields,
}
use matrix_flare.ControlPlane.Worker.{
  staged_row, stage_rows, staged_update, stage_queued_payloads, send_all, published_fields,
  publish_found, mark_queued_payloads_published, after_sends, fan_out_job_tasks, is_staged,
  reset_job, start_job,
}
use matrix_flare.ControlPlane.Shards.{find_job_id, find_job-updated_job}

-- What the row of a job keeps of an earlier failure.
pub record StillFailed (id : String) (job : Job) (p : Plane) : Type 0 where
  pub after : Job
  pub found : find_job id p.jobs ≡ some after
  pub restarted : after.internal_state ≡ JobState.checkpointed
  pub completed_kept : after.completed_at ≡ job.completed_at
  pub error_kept : after.last_error ≡ job.last_error
  pub summary_kept : after.result_summary ≡ job.result_summary

stage_rows_jobs :
    (d : Delivery) (job : Job) (ms : List Payload) (p : Plane)
    → (stage_rows d job ms p).jobs ≡ p.jobs
unfolding stage_rows
stage_rows_jobs d job [] p = refl
stage_rows_jobs d job (m ∷ ms) p =
    stage_rows_jobs d job ms (upsert_checkpoint (staged_row d job m) p)
    ∙ upsert_jobs (staged_row d job m)
  where
    upsert_jobs : (row : CheckpointRow) → (upsert_checkpoint row p).jobs ≡ p.jobs
    upsert_jobs row = elim (Bool-cases (is_some (find_checkpoint row.key p.job_checkpoints))) [
      | inl e ↦ rw (upsert_checkpoint, e) refl
      | inr e ↦ rw (upsert_checkpoint, e) refl
    ]

Attempt-cases {ℓ} :
    {A : Type ℓ} (a : Attempt A) → ((e : Failure) × (a ≡ raised e)) ⊎ ((x : A) × (a ≡ done x))
Attempt-cases (raised e) = inl (e, refl)
Attempt-cases (done x) = inr (x, refl)

-- The columns that a row takes over.
updated_job_same :
    (new r : Job)
    → str_eq r.job_id new.job_id ≡ true
    → ((updated_job new r).internal_state ≡ new.internal_state)
      × ((updated_job new r).completed_at ≡ new.completed_at)
      × ((updated_job new r).last_error ≡ new.last_error)
      × ((updated_job new r).result_summary ≡ new.result_summary)
updated_job_same new r same = rw same (refl, refl, refl, refl)

send_all_jobs : (d : Delivery) (ms : List Payload) (p : Plane) → (send_all d ms p).1.jobs ≡ p.jobs
unfolding send_all
send_all_jobs d [] p = refl
send_all_jobs d (m ∷ ms) p = elim (Attempt-cases (d.works.send m)) [
  | inl (err, e) ↦ rw (e, send_all) refl
  | inr (u, e) ↦ rw (e, send_all) (send_all_jobs d ms record p { sent = p.sent ++ m ∷ [] })
]

module _ (id : String) (job : Job) where
  -- The publication of the messages touches the state of the checkpoints only.
  publish-StillFailed :
      (d : Delivery) (count : ℕ) (p : Plane)
      → StillFailed id job p
      → StillFailed id job (mark_queued_payloads_published d id count p)
  unfolding mark_queued_payloads_published
  publish-StillFailed d count p S =
      let new : Job = record (S.after) {
        checkpoint_state = some (spread (checkpoint_fields S.after) (published_fields d count));
      } in
      let same : str_eq S.after.job_id new.job_id ≡ true = eq_refl S.after.job_id in
      let fields = updated_job_same new S.after same in
      subst (λ o. StillFailed id job (publish_found d count o p)) (sym S.found)
        record {
          after = updated_job new S.after;
          found = find_job-updated_job id new p.jobs S.after S.found;
          restarted = fields.0 ∙ S.restarted;
          completed_kept = fields.1 ∙ S.completed_kept;
          error_kept = fields.2 ∙ S.error_kept;
          summary_kept = fields.3 ∙ S.summary_kept;
        }

  after_sends-StillFailed :
      (d : Delivery) (payloads : List Payload) (out : Attempt (Unit {0}) × Plane)
      → StillFailed id job out.1
      → StillFailed id job (after_sends d id payloads out).1
  after_sends-StillFailed d payloads (raised e, p) S = S
  after_sends-StillFailed d [] (done u, p) S = S
  after_sends-StillFailed d (m ∷ ms) (done u, p) S = publish-StillFailed d (length (m ∷ ms)) p S

  jobs-StillFailed : (p q : Plane) → q.jobs ≡ p.jobs → StillFailed id job p → StillFailed id job q
  jobs-StillFailed p q same S = record {
    after = S.after;
    found = ap (find_job id) same ∙ S.found;
    restarted = S.restarted;
    completed_kept = S.completed_kept;
    error_kept = S.error_kept;
    summary_kept = S.summary_kept;
  }

staged-StillFailed :
    (d : Delivery) (job old : Job) (m : Payload) (ms : List Payload) (p : Plane)
    → find_job job.job_id p.jobs ≡ some old
    → StillFailed job.job_id job (stage_queued_payloads d job (m ∷ ms) p)
unfolding stage_queued_payloads update_job_state with_state
staged-StillFailed d job old m ms p found =
    let new = with_state job (staged_update d (m ∷ ms)) d.now in
    let same : str_eq old.job_id new.job_id ≡ true =
      (eq_iff old.job_id job.job_id).1 (find_job_id job.job_id p.jobs old found) in
    let fields = updated_job_same new old same in
    record {
      after = updated_job new old;
      found =
          find_job-updated_job job.job_id new (stage_rows d job (m ∷ ms) p).jobs old
            (ap (find_job job.job_id) (stage_rows_jobs d job (m ∷ ms) p) ∙ found);
      restarted = fields.0;
      completed_kept = fields.1;
      error_kept = fields.2;
      summary_kept = fields.3;
    }

-- The restart of a failed job whose messages were staged takes back what the reset has cleared: the job is
-- under way again with the completion time, the error and the summary of its failure.
pub start_job-StillFailed :
    (d : Delivery) (job : Job) (m : Payload) (ms : List Payload) (p : Plane)
    → find_job job.job_id p.jobs ≡ some job
    → is_failed job.internal_state ≡ true
    → is_staged job ≡ true
    → StillFailed job.job_id job (start_job d job (done (m ∷ ms)) p).1
unfolding start_job fan_out_job_tasks
start_job-StillFailed d job m ms p found failed staged =
    let reset = record p { jobs = map (updated_job (reset_job job)) p.jobs } in
    let both : (is_failed job.internal_state && is_staged job) ≡ true = rw (failed, staged) refl in
    let q = stage_queued_payloads d job (m ∷ ms) reset in
    let S =
      staged-StillFailed d job (updated_job (reset_job job) job) m ms reset
        (find_job-updated_job job.job_id (reset_job job) p.jobs job found) in
    rw both (
      after_sends-StillFailed job.job_id job d (m ∷ ms) (send_all d (m ∷ ms) q) (
        jobs-StillFailed job.job_id job q (send_all d (m ∷ ms) q).1 (send_all_jobs d (m ∷ ms) q) S))
