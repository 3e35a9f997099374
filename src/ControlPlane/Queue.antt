-- ===== src/ControlPlane/Queue.antt =====
-- `processQueueMessage` of packages/control-plane/src/jobs-handler.mjs: how a message of a shard queue
-- takes its job further. The record `Works` stands for code of the same file that is not modelled, the
-- work on a shard and the manifest of a bundle, and for the queue itself.
use matrix_flare.Prelude.{
  ℕ, String, Bool, true, false, not, ◌&&◌, ◌==◌, Option, none, some, [], ◌∷◌, ◌++◌, str_eq,
  if◌then◌else◌, filter, length, leb, max, or_else,
}
use matrix_flare.Json.{Json, null, str, bool, obj, Fields, field, end}
use matrix_flare.Room.Power.{set_field}
use matrix_flare.ControlPlane.Tables.{
  JobState, Job, ChunkCursor, Payload, Checkpoint, ShardKey, CheckpointRow, Plane,
  list_job_checkpoints, upsert_checkpoint,
}
use matrix_flare.ControlPlane.Jobs.{is_terminal, Progress, Update, update_job_state}

pub data Queue : Type 0 where
  export restore rebuild repair : Queue

-- A thrown error, by its `code`, its `retryable` and whether it is a `TypeError` or a `RangeError`.
pub record Failure : Type 0 where
  pub code : Option String
  pub retryable : Option Bool
  pub is_argument_error : Bool

abbrev pub plain_error : Failure
plain_error = record { code = none; retryable = none; is_argument_error = false }

abbrev pub job_conflict : Failure
job_conflict = record {
  code = some "job_conflict";
  retryable = some false;
  is_argument_error = false;
}

pub data Attempt {ℓ} (A : Type ℓ) : Type ℓ where
  raised : Failure → Attempt A
  done : A → Attempt A

-- What a shard's work comes to: `details` goes into its checkpoint, `state` into the job's.
pub record Finished : Type 0 where
  pub checkpoint_id : String
  pub details : Json
  pub state : Fields
  pub summary : Option Json

pub data Work : Type 0 where
  continued : (continuation : Payload) → (queued : Checkpoint) → (state : Fields) → Work
  finished : Finished → Work

-- What the handler calls: the work for a shard (of a rebuild it may be continued), the manifest of an
-- export bundle, and a send to a queue.
pub record Works : Type 0 where
  pub perform : Queue → Plane → Job → Payload → Checkpoint → Attempt Finished
  pub rebuild_shard : Job → Payload → Checkpoint → Attempt Work
  pub finalize_bundle : Plane → Job → Attempt (Unit {0})
  pub send : Payload → Attempt (Unit {0})

pub data AnswerReason : Type 0 where
  job_missing job_canceled checkpoint_already_complete rebuild_continuation_republished :
      AnswerReason
  stale_rebuild_chunk job_terminal rebuild_continuation_queued processed : AnswerReason

-- A result with the tables as the run has left them: what was written before a throw stays.
abbrev pub Handled : Type 0
Handled = Attempt AnswerReason × Plane

abbrev pub is_export : Queue → Bool
is_export export = true
is_export _ = false

abbrev pub is_rebuild : Queue → Bool
is_rebuild rebuild = true
is_rebuild _ = false

abbrev pub running_state : Queue → JobState
running_state export = JobState.materializing
running_state restore = JobState.validating
running_state rebuild = JobState.scanning
running_state repair = JobState.scanning

-- The field of a summary that a queue's work fills.
abbrev pub summary_name : Queue → String
summary_name repair = "repair_summary"
summary_name rebuild = "rebuild_summary"
summary_name _ = "queue_summary"

abbrev pub summary_fields : Queue → Option Json → Fields
summary_fields queue none = end
summary_fields queue (some summary) = field (summary_name queue) summary end

abbrev pub terminal_state : Queue → JobState
terminal_state export = JobState.finalized
terminal_state _ = JobState.completed

abbrev pub scope_kind_to_shard_type : Option String → String
scope_kind_to_shard_type none = "control-plane"
scope_kind_to_shard_type (some kind) =
    if str_eq kind "room_id"
    then "RoomDO"
    else if str_eq kind "user_id"
    then "UserDO"
    else if str_eq kind "server_name"
    then "RemoteServerDO"
    else "control-plane"

unfoldable pub shard_of : String → Payload → ShardKey
shard_of job_id m = record {
  job_id = job_id;
  shard_type = or_else m.shard_type (scope_kind_to_shard_type m.scope_kind);
  shard_key = or_else m.shard_key (or_else m.scope_id "global");
}

-- `assertSupportedExportMaterializationTarget`
abbrev pub is_supported_export : ShardKey → Bool
is_supported_export k = str_eq k.shard_type "control-plane" && str_eq k.shard_key "ops-core"

unfoldable pub is_complete : CheckpointRow → Bool
is_complete row = str_eq row.checkpoint.status "complete"

unfoldable pub completed_units : String → Plane → ℕ
unfolding list_job_checkpoints is_complete
completed_units job_id p =
    length (filter is_complete (list_job_checkpoints job_id p.job_checkpoints))

-- `Math.max(job.progress_total_units ?? 1, 1)`
abbrev pub total_units : Job → ℕ
total_units job = max job.progress_total_units 1

abbrev pub all_complete : Job → Plane → Bool
all_complete job p = leb (total_units job) (completed_units job.job_id p)

abbrev pub same_rebuild_chunk_cursor : Option ChunkCursor → Option ChunkCursor → Bool
same_rebuild_chunk_cursor none none = true
same_rebuild_chunk_cursor none (some b) = false
same_rebuild_chunk_cursor (some a) none = false
same_rebuild_chunk_cursor (some a) (some b) =
    a.max_room_pos == b.max_room_pos && a.search_row_offset == b.search_row_offset

abbrev pub progress_of : Job → Plane → Progress
progress_of job p = record {
  completed_units = completed_units job.job_id p;
  total_units = total_units job;
  unit_name = "shard";
}

-- `{ ...fields, ...last }`
unfoldable pub spread : Fields → Fields → Fields
unfolding set_field
spread fields end = fields
spread fields (field k v rest) = spread (set_field k v fields) rest

abbrev pub checkpoint_fields : Job → Fields
checkpoint_fields job = or_else job.checkpoint_state end

-- A delivery: the queue and its configured name, the time, and the causation of the task.
pub record Delivery : Type 0 where
  pub works : Works
  pub queue : Queue
  pub queue_name : String
  pub now : String
  pub causation_id : Option String

module _ (d : Delivery) where
  -- An update of the job that this message makes.
  abbrev pub message_update :
      JobState → Fields → Option Fields → Option Progress → Option Json → Update
  message_update state details fields progress summary = record {
    new_state = state;
    checkpoint_state = fields;
    last_error = none;
    progress = progress;
    result_summary = summary;
    audit_details = some (obj (field "queue_name" (str d.queue_name) details));
    causation_id = d.causation_id;
  }

  abbrev pub terminal_summary : Option String → Fields → Option Json
  terminal_summary checkpoint_id more = some (
      obj (
        field "terminal_state" (str "succeeded") (
          field "last_checkpoint_id" (elim checkpoint_id [ none ↦ null | some id ↦ str id ]) more)))

  abbrev pub cancel_job : Job → Plane → Handled
  cancel_job job p = (
    done job_canceled,
    update_job_state job
        (message_update JobState.canceled (field "canceled_from_queue" (bool true) end)
          (some (field "canceled_from_queue" (str d.queue_name) end)) none
          (some (obj (field "canceled" (bool true) end))))
        d.now p,
  )

  -- The bundle of an export is finalized before its job; of other jobs there is none.
  abbrev pub finalize_export : Job → Plane → Attempt (Unit {0})
  finalize_export job p = if is_export d.queue then d.works.finalize_bundle p job else done tt

  abbrev pub after_bundle : Attempt (Unit {0}) → AnswerReason → Plane → Plane → Handled
  after_bundle (raised e) reason before after = (raised e, before)
  after_bundle (done _) reason before after = (done reason, after)

  -- A message whose shard is complete already: what is missing of the job's end is made up for.
  unfoldable pub repeat_message : Job → Checkpoint → Plane → Handled
  unfolding completed_units update_job_state
  repeat_message job checkpoint p =
      if all_complete job p && not (is_terminal job.internal_state)
      then after_bundle (finalize_export job p) checkpoint_already_complete p (
          update_job_state job
            (message_update (terminal_state d.queue)
              (field "replay_from_duplicate_message" (bool true) end)
              (some (
                field "last_completed_checkpoint_id"
                  (elim (checkpoint.checkpoint_id) [ none ↦ null | some id ↦ str id ])
                  (field "queue_name" (str d.queue_name) end)))
              (some (progress_of job p)) (terminal_summary checkpoint.checkpoint_id end))
            d.now p)
      else (done checkpoint_already_complete, p)

  abbrev pub published : CheckpointRow → Checkpoint → CheckpointRow
  published row checkpoint = record row {
    checkpoint = record checkpoint { queue_delivery_state = some "published" };
    updated_at = d.now;
  }

  abbrev pub sent_message : Payload → Plane → Plane
  sent_message payload p = record p { sent = p.sent ++ payload ∷ [] }

  abbrev pub republish : Attempt (Unit {0}) → CheckpointRow → Payload → Plane → Handled
  republish (raised e) row payload p = (raised e, p)
  republish (done _) row payload p = (
    done rebuild_continuation_republished,
    upsert_checkpoint (published row row.checkpoint) (sent_message payload p),
  )

  -- A chunk that its checkpoint does not wait for: its continuation is sent again if it was only staged.
  abbrev pub stale_chunk : CheckpointRow → Option Payload → Plane → Handled
  stale_chunk row none p = (done stale_rebuild_chunk, p)
  stale_chunk row (some payload) p =
      if str_eq (or_else row.checkpoint.queue_delivery_state "") "staged"
      then republish (d.works.send payload) row payload p
      else (done stale_rebuild_chunk, p)
