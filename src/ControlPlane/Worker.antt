-- ===== src/ControlPlane/Worker.antt =====
-- packages/control-plane/src/jobs-handler.mjs around `processQueueMessage`: the queue handler with the
-- failure of a job, and the start of a job with its shards' checkpoints and messages. The payloads that a
-- start sends are a parameter: they come from the registry, the archive or the job's own scope.
use matrix_flare.Prelude.{
  ℕ, String, Bool, false, not, ◌&&◌, Option, none, some, List, [], ◌∷◌, ◌++◌, map, str_eq,
  if◌then◌else◌, length, is_empty, trim, or_else,
}
use matrix_flare.Prelude.Int.{pos}
use matrix_flare.Json.{Json, null, str, int, bool, obj, Fields, field, end, get}
use matrix_flare.ControlPlane.Tables.{
  JobState, Job, Payload, CheckpointRow, Plane, find_job, updated_job, upsert_checkpoint,
}
use matrix_flare.ControlPlane.Jobs.{is_terminal, is_pending, is_failed, Update, update_job_state}
use matrix_flare.ControlPlane.Queue.{
  Queue, export, restore, rebuild, repair, Failure, Attempt, raised, done, Delivery, Handled,
  terminal_state, shard_of, spread, checkpoint_fields,
}
use matrix_flare.ControlPlane.Process.{process_queue_message}
use matrix_flare.ControlPlane.Payloads.{normalize_queue_payload}

-- `error.retryable ?? !(error instanceof TypeError || error instanceof RangeError)`
abbrev pub is_retryable : Failure → Bool
is_retryable e = or_else e.retryable (not e.is_argument_error)

abbrev pub has_code : Failure → String → Bool
has_code e code = elim (e.code) [ none ↦ false | some c ↦ str_eq c code ]

-- The ops code of `classifyQueueTerminalFailure`.
abbrev pub classify_queue_terminal_failure : Failure → String
classify_queue_terminal_failure e =
    if has_code e "job_conflict"
    then "precondition_failed"
    else if has_code e "unsupported_schema_version"
    then "validation_failed"
    else if e.is_argument_error
    then "validation_failed"
    else "internal"

abbrev trimmed_text : Json → String
trimmed_text (str s) = trim s
trimmed_text _ = ""

-- The trimmed `job_id` of a message's body, empty where it is no text.
unfoldable pub body_job_id : Json → String
body_job_id (obj fields) = elim (get "job_id" fields) [
  | none ↦ ""
  | some value ↦ trimmed_text value
]
body_job_id _ = ""

abbrev pub failure_update : Delivery → Failure → Update
failure_update d e = record {
  new_state = JobState.failed;
  checkpoint_state = none;
  last_error = some (
      obj (
        field "code" (str (classify_queue_terminal_failure e))
          (field "retryable" (bool false) end)));
  progress = none;
  result_summary = some (obj (field "failure" null end));
  audit_details = some (obj (field "queue_name" (str d.queue_name) end));
  causation_id = d.causation_id;
}

abbrev pub fail_found : Delivery → Failure → Option Job → Plane → Plane
fail_found d e none p = p
fail_found d e (some job) p =
    if is_terminal job.internal_state then p else update_job_state job (failure_update d e) d.now p

unfoldable pub fail_job_for_queue_message : Delivery → Json → Failure → Plane → Plane
unfolding body_job_id update_job_state find_job
fail_job_for_queue_message d body e p =
    if is_empty (body_job_id body) then p else fail_found d e (find_job (body_job_id body) p.jobs) p

pub data Settlement : Type 0 where
  ack retry : Settlement

unfoldable pub settle_failure : Delivery → Json → Failure → Plane → Settlement × Plane
unfolding fail_job_for_queue_message
settle_failure d body e p =
    if is_retryable e then (retry, p) else (ack, fail_job_for_queue_message d body e p)

abbrev pub settle_outcome : Delivery → Json → Handled → Settlement × Plane
settle_outcome d body (raised e, p) = settle_failure d body e p
settle_outcome d body (done reason, p) = (ack, p)

abbrev pub settle_payload : Delivery → Json → Attempt Payload → Plane → Settlement × Plane
settle_payload d body (raised e) p = settle_failure d body e p
settle_payload d body (done m) p = settle_outcome d body (process_queue_message d m p)

-- One message of `createJobsWorkerQueueHandler`.
unfoldable pub handle_message : Delivery → Json → Plane → Settlement × Plane
unfolding settle_failure process_queue_message normalize_queue_payload
handle_message d body p = settle_payload d body (normalize_queue_payload d.queue body) p

-- The batch, each message in the state that the one before has left.
unfoldable pub handle_batch : Delivery → List Json → Plane → List Settlement × Plane
unfolding handle_message
handle_batch d [] p = ([], p)
handle_batch d (body ∷ bodies) p =
    let (settlement, q) = handle_message d body p in
    let (settlements, r) = handle_batch d bodies q in (settlement ∷ settlements, r)

-- The checkpoint that `stageQueuedPayloads` writes for a payload.
abbrev pub staged_row : Delivery → Job → Payload → CheckpointRow
staged_row d job m = record {
  key = shard_of job.job_id m;
  checkpoint = record {
    status = "queued";
    checkpoint_id = none;
    queue_name = d.queue_name;
    queue_delivery_state = none;
    queued_payload = none;
    next_chunk_cursor = none;
    details = obj (field "attempt" (int (pos m.attempt)) end);
  };
  updated_at = d.now;
}

unfoldable pub stage_rows : Delivery → Job → List Payload → Plane → Plane
unfolding upsert_checkpoint shard_of
stage_rows d job [] p = p
stage_rows d job (m ∷ ms) p = stage_rows d job ms (upsert_checkpoint (staged_row d job m) p)

abbrev pub staged_state : Queue → List Payload → JobState
staged_state queue [] = terminal_state queue
staged_state queue (m ∷ ms) = JobState.checkpointed

abbrev pub delivery_state : List Payload → String
delivery_state [] = "not_required"
delivery_state (m ∷ ms) = "staged"

abbrev pub staged_summary : List Payload → Option Json
staged_summary [] = some (obj (field "terminal_state" (str "succeeded") end))
staged_summary (m ∷ ms) = none

abbrev pub start_kind : Queue → String
start_kind export = "start-export"
start_kind restore = "start-restore"
start_kind rebuild = "start-rebuild"
start_kind repair = "start-repair"

abbrev pub staged_update : Delivery → List Payload → Update
staged_update d payloads = record {
  new_state = staged_state d.queue payloads;
  checkpoint_state = some (
      field "queue_ready" (int (pos (length payloads))) (
        field "queue_name" (str d.queue_name)
          (field "queue_delivery_state" (str (delivery_state payloads)) end)));
  last_error = none;
  progress =
      some record { completed_units = 0; total_units = length payloads; unit_name = "shard" };
  result_summary = staged_summary payloads;
  audit_details = some (
      obj (
        field "queue_ready" (int (pos (length payloads)))
          (field "queue_kind" (str (start_kind d.queue)) end)));
  causation_id = none;
}

-- `stageQueuedPayloads`: one transaction, whose statements violate no key.
unfoldable pub stage_queued_payloads : Delivery → Job → List Payload → Plane → Plane
unfolding stage_rows update_job_state
stage_queued_payloads d job payloads p =
    update_job_state job (staged_update d payloads) d.now (stage_rows d job payloads p)

-- `for (const payload of payloads) await sendQueueMessage(...)`; the first throw ends the loop.
unfoldable pub send_all : Delivery → List Payload → Plane → Attempt (Unit {0}) × Plane
send_all d [] p = (done tt, p)
send_all d (m ∷ ms) p = elim (d.works.send m) [
  | raised e ↦ (raised e, p)
  | done u ↦ send_all d ms record p { sent = p.sent ++ m ∷ [] }
]

abbrev pub published_fields : Delivery → ℕ → Fields
published_fields d count = field "queue_ready" (int (pos count)) (
    field "queue_name" (str d.queue_name) (
      field "queue_delivery_state" (str "published")
        (field "queue_published" (int (pos count)) end)))

abbrev pub publish_found : Delivery → ℕ → Option Job → Plane → Plane
publish_found d count none p = p
publish_found d count (some job) p = record p {
  jobs =
      map
        (updated_job record job {
          checkpoint_state = some (spread (checkpoint_fields job) (published_fields d count));
        })
        p.jobs;
}

unfoldable pub mark_queued_payloads_published : Delivery → String → ℕ → Plane → Plane
unfolding find_job spread
mark_queued_payloads_published d job_id count p = publish_found d count (find_job job_id p.jobs) p

abbrev pub after_sends :
    Delivery → String → List Payload → Attempt (Unit {0}) × Plane → Attempt (Unit {0}) × Plane
after_sends d job_id payloads (raised e, p) = (raised e, p)
after_sends d job_id [] (done u, p) = (done u, p)
after_sends d job_id (m ∷ ms) (done u, p) =
    (done u, mark_queued_payloads_published d job_id (length (m ∷ ms)) p)

-- `fanOutJobTasks`, from the payloads on
unfoldable pub fan_out_job_tasks :
    Delivery → Job → Attempt (List Payload) → Plane → Attempt (Unit {0}) × Plane
unfolding stage_queued_payloads send_all mark_queued_payloads_published
fan_out_job_tasks d job (raised e) p = (raised e, p)
fan_out_job_tasks d job (done payloads) p =
    after_sends d job.job_id payloads (send_all d payloads (stage_queued_payloads d job payloads p))

abbrev pub is_staged : Job → Bool
is_staged job = elim (get "queue_delivery_state" (checkpoint_fields job)) [
  | some (str s) ↦ str_eq s "staged"
  | _ ↦ false
]

-- The row of a failed job whose messages were staged, as the restart writes it.
abbrev pub reset_job : Job → Job
reset_job job = record job {
  internal_state = JobState.pending;
  completed_at = none;
  last_error = none;
  result_summary = none;
}

-- `createJobsWorkerFetchHandler` on a job that was found and is of the started kind. The fan-out is handed
-- the row as it was read, before the reset.
unfoldable pub start_job :
    Delivery → Job → Attempt (List Payload) → Plane → Attempt (Unit {0}) × Plane
unfolding fan_out_job_tasks
start_job d job payloads p =
    if is_failed job.internal_state && is_staged job
    then fan_out_job_tasks d job payloads
        record p { jobs = map (updated_job (reset_job job)) p.jobs }
    else if not (is_pending job.internal_state)
    then (done tt, p)
    else fan_out_job_tasks d job payloads p
