-- ===== src/ControlPlane/Redelivery.antt =====
-- A message that comes again after its shard was completed.
use matrix_flare.Prelude.{
  true, false, not, ◌&&◌, Option, none, some, str_eq, or_else, ◌≡◌, ◌≢◌, refl, sym, ap, ◌∙◌, inl,
  inr, Bool-cases,
}
use matrix_flare.Json.{Fields}
use matrix_flare.ControlPlane.Tables.{
  Job, Payload, Checkpoint, CheckpointRow, Plane, find_job, find_checkpoint,
}
use matrix_flare.ControlPlane.Jobs.{is_terminal, is_pending, is_cancel_requested}
use matrix_flare.ControlPlane.Queue.{
  Attempt, raised, done, Finished, Work, continued, finished, Delivery, AnswerReason,
  checkpoint_already_complete, processed, Handled, is_export, shard_of, is_supported_export,
  is_complete, all_complete, finalize_export, after_bundle, repeat_message, republish, stale_chunk,
}
use matrix_flare.ControlPlane.Process.{
  complete_shard, continue_shard, after_send, after_work, work_of, running_job, running_plane,
  run_shard, process_staged, process_shard, process_job, process_queue_message, is_stale,
}
use matrix_flare.ControlPlane.Shards.{find_job_id}

module _ (d : Delivery) (m : Payload) where
  process_job_live :
      (job : Job) (p : Plane)
      → is_cancel_requested job.internal_state ≡ false
      → process_job d m (some job) p
        ≡ process_shard d m job (find_checkpoint (shard_of job.job_id m) p.job_checkpoints) p
  process_job_live job p h = rw h refl

  process_staged_complete :
      (job : Job) (row : CheckpointRow) (p : Plane)
      → (is_export d.queue && not (is_supported_export row.key)) ≡ false
      → is_complete row ≡ true
      → process_staged d m job row p ≡ repeat_message d job row.checkpoint p
  unfolding process_staged
  process_staged_complete job row p h k = rw (h, k) refl

  repeat_message_idle :
      (job : Job) (checkpoint : Checkpoint) (p : Plane)
      → (all_complete job p && not (is_terminal job.internal_state)) ≡ false
      → repeat_message d job checkpoint p ≡ (done checkpoint_already_complete, p)
  unfolding repeat_message
  repeat_message_idle job checkpoint p h = rw h refl

  -- A complete shard of a job that needs no further change.
  pub process_queue_message_complete :
      (job : Job) (row : CheckpointRow) (p : Plane)
      → find_job m.job_id p.jobs ≡ some job
      → is_cancel_requested job.internal_state ≡ false
      → find_checkpoint (shard_of m.job_id m) p.job_checkpoints ≡ some row
      → is_complete row ≡ true
      → (is_export d.queue && not (is_supported_export row.key)) ≡ false
      → (all_complete job p && not (is_terminal job.internal_state)) ≡ false
      → process_queue_message d m p ≡ (done checkpoint_already_complete, p)
  unfolding process_queue_message
  process_queue_message_complete job row p hj live hc complete supported idle =
      ap (λ o. process_job d m o p) hj
      ∙ process_job_live job p live
      ∙ ap (λ i. process_shard d m job (find_checkpoint (shard_of i m) p.job_checkpoints) p)
          (find_job_id m.job_id p.jobs job hj)
      ∙ ap (λ o. process_shard d m job o p) hc
      ∙ process_staged_complete job row p supported complete
      ∙ repeat_message_idle job row.checkpoint p idle

-- Runs that end otherwise.
abbrev pub answer_of : Handled → Attempt AnswerReason
answer_of o = o.0

module _ (d : Delivery) where
  after_bundle-ne-processed :
      (a : Attempt (Unit {0})) (p q : Plane)
      → answer_of (after_bundle d a checkpoint_already_complete p q) ≢ done processed
  after_bundle-ne-processed (raised e) p q k = cc
  after_bundle-ne-processed (done u) p q k = cc

  repeat_message-ne-processed :
      (job : Job) (checkpoint : Checkpoint) (p : Plane)
      → answer_of (repeat_message d job checkpoint p) ≢ done processed
  unfolding repeat_message
  repeat_message-ne-processed job checkpoint p h =
      elim (Bool-cases (all_complete job p && not (is_terminal job.internal_state))) [
        | inl e ↦
            after_bundle-ne-processed (finalize_export d job p) p _ (rw (repeat_message, e) at h)
        | inr e ↦ let bad = rw (repeat_message, e) at h in cc
      ]

  republish-ne-processed :
      (a : Attempt (Unit {0})) (row : CheckpointRow) (payload : Payload) (p : Plane)
      → answer_of (republish d a row payload p) ≢ done processed
  republish-ne-processed (raised e) row payload p k = cc
  republish-ne-processed (done u) row payload p k = cc

  stale_chunk-ne-processed :
      (row : CheckpointRow) (payload : Option Payload) (p : Plane)
      → answer_of (stale_chunk d row payload p) ≢ done processed
  stale_chunk-ne-processed row none p k = cc
  stale_chunk-ne-processed row (some payload) p k =
      elim (Bool-cases (str_eq (or_else row.checkpoint.queue_delivery_state "") "staged")) [
        | inl e ↦ republish-ne-processed (d.works.send payload) row payload p (rw e at k)
        | inr e ↦ let bad = rw e at k in cc
      ]

  after_send-ne-processed :
      (a : Attempt (Unit {0})) (row : CheckpointRow) (job : Job) (queued : Checkpoint)
      (payload : Payload) (fields : Fields) (p : Plane)
      → answer_of (after_send d a row job queued payload fields p) ≢ done processed
  after_send-ne-processed (raised e) row job queued payload fields p k = cc
  after_send-ne-processed (done u) row job queued payload fields p k = cc

  after_work-processed :
      (a : Attempt Work) (row : CheckpointRow) (job : Job) (p : Plane)
      → answer_of (after_work d a row job p) ≡ done processed
      → (f : Finished) × (after_work d a row job p ≡ complete_shard d row job f p)
  unfolding continue_shard
  after_work-processed (raised e) row job p h = absurd (let bad = h in cc)
  after_work-processed (done (finished f)) row job p h = (f, refl)
  after_work-processed (done (continued payload queued fields)) row job p h =
      absurd (after_send-ne-processed (d.works.send payload) row job queued payload fields _ h)

  -- A staged shard that was processed was completed, by a job that was neither pending nor at its end.
  pub process_staged-processed :
      (m : Payload) (job : Job) (row : CheckpointRow) (p : Plane)
      → answer_of (process_staged d m job row p) ≡ done processed
      → ((is_export d.queue && not (is_supported_export row.key)) ≡ false)
        × ((f : Finished) × (process_staged d m job row p
              ≡ complete_shard d row (running_job d job) f (running_plane d job p)))
  unfolding process_staged run_shard
  process_staged-processed m job row p h =
      elim (Bool-cases (is_export d.queue && not (is_supported_export row.key))) [
        | inl e ↦ absurd (let bad = rw (process_staged, e) at h in cc)
        | inr e0 ↦ elim (Bool-cases (is_complete row)) [
          | inl e ↦
              absurd
                (repeat_message-ne-processed job row.checkpoint p (rw (process_staged, e0, e) at h))
          | inr e1 ↦ elim (Bool-cases (is_stale d m row)) [
            | inl e ↦ absurd (
                stale_chunk-ne-processed row row.checkpoint.queued_payload p
                  (rw (process_staged, e0, e1, e) at h))
            | inr e2 ↦ elim (Bool-cases (not (str_eq row.checkpoint.status "queued"))) [
              | inl e ↦ absurd (let bad = rw (process_staged, e0, e1, e2, e) at h in cc)
              | inr e3 ↦ elim (Bool-cases (is_terminal job.internal_state)) [
                | inl e ↦ absurd (let bad = rw (process_staged, e0, e1, e2, e3, e) at h in cc)
                | inr e4 ↦ elim (Bool-cases (is_pending job.internal_state)) [
                  | inl e ↦ absurd (let bad = rw (process_staged, e0, e1, e2, e3, e4, e) at h in cc)
                  | inr e5 ↦
                      let shape : process_staged d m job row p ≡ run_shard d m job row p =
                        rw (e0, e1, e2, e3, e4, e5) refl in
                      let (f, ran) =
                        after_work-processed
                          (work_of d m (running_job d job) row (running_plane d job p)) row
                          (running_job d job) (running_plane d job p)
                          (sym (ap answer_of shape) ∙ h) in
                      (e0, (f, shape ∙ ran))
                ]
              ]
            ]
          ]
        ]
      ]
