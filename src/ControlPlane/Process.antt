-- ===== src/ControlPlane/Process.antt =====
-- `processQueueMessage` of packages/control-plane/src/jobs-handler.mjs, from the job's row to the answer.
use matrix_flare.Prelude.{
  Bool, true, not, ◌&&◌, Option, none, some, str_eq, if◌then◌else◌, or_else, or_option,
}
use matrix_flare.Json.{str, bool, Fields, field, end}
use matrix_flare.ControlPlane.Tables.{
  JobState, Job, Payload, Checkpoint, CheckpointRow, Plane, find_job, find_checkpoint,
  upsert_checkpoint,
}
use matrix_flare.ControlPlane.Jobs.{
  is_terminal, is_pending, is_cancel_requested, state_name, Update, with_state, update_job_state,
}
use matrix_flare.ControlPlane.Queue.{
  plain_error, job_conflict, Attempt, raised, done, Finished, Work, continued, finished, Delivery,
  job_missing, job_terminal, rebuild_continuation_queued, processed, Handled, is_export, is_rebuild,
  running_state, terminal_state, shard_of, is_supported_export, is_complete, all_complete,
  same_rebuild_chunk_cursor, progress_of, spread, checkpoint_fields, message_update,
  terminal_summary, summary_fields, cancel_job, finalize_export, after_bundle, repeat_message,
  published, sent_message, stale_chunk,
}

module _ (d : Delivery) where
  abbrev shard_fields : CheckpointRow → Fields → Fields
  shard_fields row last =
      field "shard_type" (str row.key.shard_type) (field "shard_key" (str row.key.shard_key) last)

  abbrev pub completed_row : CheckpointRow → Finished → CheckpointRow
  completed_row row f = record row {
    checkpoint = record {
      status = "complete";
      checkpoint_id = some f.checkpoint_id;
      queue_name = d.queue_name;
      queue_delivery_state = none;
      queued_payload = none;
      next_chunk_cursor = none;
      details = f.details;
    };
    updated_at = d.now;
  }

  abbrev pub shard_state : Bool → JobState
  shard_state last = if last then terminal_state d.queue else JobState.checkpointed

  -- The change of the job after its shard was completed.
  abbrev pub completed_update : Job → CheckpointRow → Finished → Plane → Update
  completed_update job row f p =
      message_update d (shard_state (all_complete job p)) (shard_fields row end)
        (some (
          spread (checkpoint_fields job) (
            field "last_completed_checkpoint_id" (str f.checkpoint_id)
              (field "queue_name" (str d.queue_name) f.state))))
        (some (progress_of job p))
        (if all_complete job p
          then terminal_summary d (some f.checkpoint_id) (summary_fields d.queue f.summary)
          else none)

  -- The shard's work is done: its checkpoint, the bundle of an export that is complete, and the job.
  unfoldable pub complete_shard : CheckpointRow → Job → Finished → Plane → Handled
  unfolding update_job_state upsert_checkpoint
  complete_shard row job f p1 =
      let p = upsert_checkpoint (completed_row row f) p1 in
      after_bundle d
        (if all_complete job p
          then finalize_export d (or_else (find_job job.job_id p.jobs) job) p
          else done tt)
        processed p (update_job_state job (completed_update job row f p) d.now p)

  abbrev pub continued_update : Job → CheckpointRow → Fields → Plane → Update
  continued_update job row fields p =
      message_update d JobState.checkpointed
        (shard_fields row (field "continuation_queued" (bool true) end))
        (some (spread (checkpoint_fields job) (field "queue_name" (str d.queue_name) fields)))
        (some (progress_of job p)) none

  abbrev pub queued_row : CheckpointRow → Checkpoint → CheckpointRow
  queued_row row queued = record row { checkpoint = queued; updated_at = d.now }

  abbrev pub after_send :
      Attempt (Unit {0}) → CheckpointRow → Job → Checkpoint → Payload → Fields → Plane → Handled
  after_send (raised e) row job queued payload fields p = (raised e, p)
  after_send (done _) row job queued payload fields p1 =
      let p = upsert_checkpoint (published d row queued) (sent_message d payload p1) in
      (
        done rebuild_continuation_queued,
        update_job_state job (continued_update job row fields p) d.now p,
      )

  -- A rebuild that goes on: the checkpoint is staged, the next chunk sent, and the checkpoint published.
  unfoldable pub continue_shard :
      CheckpointRow → Job → Payload → Checkpoint → Fields → Plane → Handled
  unfolding update_job_state upsert_checkpoint
  continue_shard row job payload queued fields p =
      after_send (d.works.send payload) row job queued payload fields
        (upsert_checkpoint (queued_row row queued) p)

  abbrev pub after_work : Attempt Work → CheckpointRow → Job → Plane → Handled
  after_work (raised e) row job p = (raised e, p)
  after_work (done (finished f)) row job p = complete_shard row job f p
  after_work (done (continued payload queued fields)) row job p =
      continue_shard row job payload queued fields p

  abbrev pub after_perform : Attempt Finished → Attempt Work
  after_perform (raised e) = raised e
  after_perform (done f) = done (finished f)

  abbrev pub work_of : Payload → Job → CheckpointRow → Plane → Attempt Work
  work_of m job row p =
      if is_rebuild d.queue
      then d.works.rebuild_shard job m row.checkpoint
      else after_perform (d.works.perform d.queue p job m row.checkpoint)

  abbrev pub is_in_running_state : Job → Bool
  is_in_running_state job =
      str_eq (state_name job.internal_state) (state_name (running_state d.queue))

  abbrev pub running_update : Update
  running_update = message_update d (running_state d.queue) end none none none

  -- The job with the two fields that are copied from its row after the move to the running state.
  abbrev pub running_job : Job → Job
  running_job job = if is_in_running_state job then job else record job {
    internal_state = running_state d.queue;
    started_at = (with_state job running_update d.now).started_at;
  }

  abbrev pub running_plane : Job → Plane → Plane
  running_plane job p =
      if is_in_running_state job then p else update_job_state job running_update d.now p

  unfoldable pub run_shard : Payload → Job → CheckpointRow → Plane → Handled
  unfolding complete_shard continue_shard update_job_state with_state
  run_shard m job row p =
      after_work (work_of m (running_job job) row (running_plane job p)) row (running_job job)
        (running_plane job p)

  abbrev pub is_stale : Payload → CheckpointRow → Bool
  is_stale m row =
      is_rebuild d.queue
      && (str_eq row.checkpoint.status "queued"
          && not (
              same_rebuild_chunk_cursor (or_option row.checkpoint.next_chunk_cursor m.chunk_cursor)
                m.chunk_cursor))

  unfoldable pub process_staged : Payload → Job → CheckpointRow → Plane → Handled
  unfolding run_shard repeat_message is_complete
  process_staged m job row p =
      if is_export d.queue && not (is_supported_export row.key)
      then (raised job_conflict, p)
      else if is_complete row
      then repeat_message d job row.checkpoint p
      else if is_stale m row
      then stale_chunk d row row.checkpoint.queued_payload p
      else if not (str_eq row.checkpoint.status "queued")
      then (raised plain_error, p)
      else if is_terminal job.internal_state
      then (done job_terminal, p)
      else if is_pending job.internal_state
      then (raised plain_error, p)
      else run_shard m job row p

  abbrev pub process_shard : Payload → Job → Option CheckpointRow → Plane → Handled
  process_shard m job none p = (raised plain_error, p)
  process_shard m job (some row) p = process_staged m job row p

  abbrev pub process_job : Payload → Option Job → Plane → Handled
  process_job m none p = (done job_missing, p)
  process_job m (some job) p =
      if is_cancel_requested job.internal_state
      then cancel_job d job p
      else process_shard m job (find_checkpoint (shard_of job.job_id m) p.job_checkpoints) p

  unfoldable pub process_queue_message : Payload → Plane → Handled
  unfolding process_staged find_job find_checkpoint shard_of update_job_state
  process_queue_message m p = process_job m (find_job m.job_id p.jobs) p
