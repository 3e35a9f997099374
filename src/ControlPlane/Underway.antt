-- ===== src/ControlPlane/Underway.antt =====
-- A queued shard of a job that is underway, on the queues whose shards are done by one message each.
use matrix_flare.Prelude.{
  String, List, true, false, not, ◌&&◌, some, map, str_eq, ◌≡◌, refl, ap, ◌∙◌, inl, inr, eq_iff,
  Bool-cases,
}
use matrix_flare.Prelude.Members.{Member}
use matrix_flare.ControlPlane.Tables.{
  Job, Payload, Checkpoint, CheckpointRow, Plane, find_job, find_checkpoint, replaced_checkpoint,
  upsert_checkpoint,
}
use matrix_flare.ControlPlane.Jobs.{is_terminal, is_pending, is_cancel_requested, update_job_state}
use matrix_flare.ControlPlane.Queue.{
  done, Finished, finished, Delivery, processed, is_export, is_rebuild, shard_of,
  is_supported_export, is_complete, all_complete, finalize_export,
}
use matrix_flare.ControlPlane.Process.{
  completed_row, completed_update, complete_shard, after_work, after_perform, work_of,
  is_in_running_state, running_job, running_plane, run_shard, is_stale, process_staged,
  process_shard, process_job, process_queue_message,
}
use matrix_flare.ControlPlane.Shards.{find_job_id, find_checkpoint_key, upsert_checkpoint-eq}
use matrix_flare.ControlPlane.Completion.{Asked, asked_of, running_plane_checkpoints}

-- Deliveries of a queue whose shards are neither exported nor rebuilt, to a job of that id and request,
-- where the work for each of the messages succeeds on a queued shard.
pub record IsPlain (d : Delivery) (id : String) (request : Asked) (sent : List Payload)
    : Type 0 where
  pub not_export : is_export d.queue ≡ false
  pub not_rebuild : is_rebuild d.queue ≡ false
  pub performs :
      (p : Plane) (job : Job) (m : Payload) (c : Checkpoint)
      → job.job_id ≡ id
      → asked_of job ≡ request
      → Member m sent
      → str_eq c.status "queued" ≡ true
      → (f : Finished) × (d.works.perform d.queue p job m c ≡ done f)

pub queued_incomplete :
    (row : CheckpointRow) → str_eq row.checkpoint.status "queued" ≡ true → is_complete row ≡ false
unfolding is_complete
queued_incomplete row h =
    ap (λ s. str_eq s "complete") ((eq_iff row.checkpoint.status "queued").0 h)

module _ (d : Delivery) (id : String) (request : Asked) (sent : List Payload)
    (plain : IsPlain d id request sent) where
  pub running_job-same :
      (job : Job)
      → ((running_job d job).job_id ≡ job.job_id) × (asked_of (running_job d job) ≡ asked_of job)
  running_job-same job = elim (Bool-cases (is_in_running_state d job)) [
    | inl e ↦ rw e (refl, refl)
    | inr e ↦ rw e (refl, refl)
  ]

  process_staged_queued :
      (m : Payload) (job : Job) (row : CheckpointRow) (p : Plane)
      → str_eq row.checkpoint.status "queued" ≡ true
      → is_terminal job.internal_state ≡ false
      → is_pending job.internal_state ≡ false
      → process_staged d m job row p ≡ run_shard d m job row p
  unfolding process_staged
  process_staged_queued m job row p queued live begun =
      let e0 : (is_export d.queue && not (is_supported_export row.key)) ≡ false =
        ap (λ b. b && not (is_supported_export row.key)) plain.not_export in
      let e2 : is_stale d m row ≡ false = rw plain.not_rebuild refl in
      rw (e0, queued_incomplete row queued, e2, queued, live, begun) refl

  finalize_export_none : (job : Job) (p : Plane) → finalize_export d job p ≡ done tt
  finalize_export_none job p = rw plain.not_export refl

  complete_shard-eq :
      (row : CheckpointRow) (job : Job) (f : Finished) (p : Plane)
      → complete_shard d row job f p ≡ (
        done processed,
        update_job_state job
            (completed_update d job row f (upsert_checkpoint (completed_row d row f) p))
            d.now
            (upsert_checkpoint (completed_row d row f) p),
      )
  unfolding complete_shard
  complete_shard-eq row job f p =
      elim (Bool-cases (all_complete job (upsert_checkpoint (completed_row d row f) p))) [
        | inl e ↦ rw (complete_shard, e) (rw plain.not_export refl)
        | inr e ↦ rw (complete_shard, e) refl
      ]

  run_shard-eq :
      (m : Payload) (job : Job) (row : CheckpointRow) (p : Plane)
      → job.job_id ≡ id
      → asked_of job ≡ request
      → Member m sent
      → str_eq row.checkpoint.status "queued" ≡ true
      → (f : Finished) × (run_shard d m job row p
          ≡ complete_shard d row (running_job d job) f (running_plane d job p))
  unfolding run_shard
  run_shard-eq m job row p named asked member queued =
      let (same, still) = running_job-same job in
      let (f, work) =
        plain.performs (running_plane d job p) (running_job d job) m row.checkpoint (same ∙ named)
          (still ∙ asked) member queued in
      let worked : work_of d m (running_job d job) row (running_plane d job p) ≡ done (finished f) =
        rw plain.not_rebuild (ap (after_perform d) work) in
      (f, ap (λ a. after_work d a row (running_job d job) (running_plane d job p)) worked)

  -- A message for a queued shard of a job underway is processed, and replaces the shard's checkpoint.
  pub process_queue_message_queued :
      (m : Payload) (job : Job) (row : CheckpointRow) (p : Plane)
      → find_job m.job_id p.jobs ≡ some job
      → find_checkpoint (shard_of m.job_id m) p.job_checkpoints ≡ some row
      → str_eq row.checkpoint.status "queued" ≡ true
      → is_terminal job.internal_state ≡ false
      → is_pending job.internal_state ≡ false
      → is_cancel_requested job.internal_state ≡ false
      → m.job_id ≡ id
      → asked_of job ≡ request
      → Member m sent
      → (f : Finished) × (q : Plane) × (process_queue_message d m p ≡ (done processed, q))
        × (q.job_checkpoints ≡ map (replaced_checkpoint (completed_row d row f)) p.job_checkpoints)
  unfolding process_queue_message update_job_state
  process_queue_message_queued m job row p hj hc queued live begun wanted ours asked member =
      let (f, ran) =
        run_shard-eq m job row p (find_job_id m.job_id p.jobs job hj ∙ ours) asked member queued in
      let p1 = running_plane d job p in
      let p2 = upsert_checkpoint (completed_row d row f) p1 in
      let u = completed_update d (running_job d job) row f p2 in
      let cps1 = running_plane_checkpoints d job p in
      let there : find_checkpoint row.key p1.job_checkpoints ≡ some row =
        ap (find_checkpoint row.key) cps1
        ∙ ap (λ k. find_checkpoint k p.job_checkpoints)
            (find_checkpoint_key _ p.job_checkpoints row hc)
        ∙ hc in
      (
        f,
        update_job_state (running_job d job) u d.now p2,
        ap (λ o. process_job d m o p) hj
            ∙ rw wanted (
                ap (λ i. process_shard d m job (find_checkpoint (shard_of i m) p.job_checkpoints) p)
                  (find_job_id m.job_id p.jobs job hj)
                ∙ ap (λ o. process_shard d m job o p) hc
                ∙ process_staged_queued m job row p queued live begun
                ∙ ran
                ∙ complete_shard-eq row (running_job d job) f p1),
        ap (λ (x : Plane). x.job_checkpoints)
              (upsert_checkpoint-eq (completed_row d row f) row p1 there)
            ∙ ap (map (replaced_checkpoint (completed_row d row f))) cps1,
      )
