-- ===== src/ControlPlane/QueueTests.antt =====
-- Tests of packages/control-plane/src/jobs-handler.mjs and of the cancellation in ops-handler.mjs.
use matrix_flare.Prelude.{
  String, true, ◌⊎◌, ◌&&◌, inl, inr, str_eq, if◌then◌else◌, or_else, eq_iff, Option, none, some,
  List, [], ◌∷◌, ◌≡◌, refl, Result, ok, throws, trim,
}
use matrix_flare.Prelude.Int.{pos}
use matrix_flare.Prelude.Members.{Member, head, tail, cases_cons}
use matrix_flare.Json.{
  Json, null, str, int, obj, Fields, field, end, get, normalize_string, normalize_text,
}
use matrix_flare.Room.Power.{set_field}
use matrix_flare.ControlPlane.Tables.{
  JobState, Job, Payload, Plane, find_dedupe, find_job, find_checkpoint, list_job_checkpoints,
  upsert_checkpoint, exec, batch, dedupe_key, bind_audit_event,
}
use matrix_flare.ControlPlane.Jobs.{
  map_internal_job_state_to_public_state, with_state, state_event, update_job_state,
}
use matrix_flare.ControlPlane.Ledger.{
  Write, create_dedupe_scope_token, append_audit_event, write_key, job_statements, reservation,
  reserve_idempotent_write, finalize_reserved_write,
}
use matrix_flare.ControlPlane.Queue.{
  Queue, Attempt, Finished, raised, done, Works, Delivery, checkpoint_already_complete, processed,
  plain_error, shard_of, is_complete, completed_units, spread, terminal_state,
}
use matrix_flare.ControlPlane.Process.{
  complete_shard, run_shard, process_staged, process_queue_message,
}
use matrix_flare.ControlPlane.Payloads.{
  normalize_count, normalize_queue_payload, unsupported_schema_version,
}
use matrix_flare.ControlPlane.Worker.{
  body_job_id, ack, handle_message, stage_rows, stage_queued_payloads, is_staged, start_job,
}
use matrix_flare.ControlPlane.Cancel.{
  CancelAnswer, canceling, accepted_envelope, cancel_job_request,
}
use matrix_flare.ControlPlane.Completion.{process_queue_message_again}
use matrix_flare.ControlPlane.Endings.{
  LeavesJobs, HasNoneToFail, IsFailedIn, process_queue_message_terminal, handle_message_unreadable,
}
use matrix_flare.ControlPlane.Reopening.{cancel_job_request_reopens}
use matrix_flare.ControlPlane.Restarts.{StillFailed, start_job-StillFailed}
use matrix_flare.ControlPlane.Completion.{asked_of}
use matrix_flare.ControlPlane.Underway.{IsPlain}
use matrix_flare.ControlPlane.Deliveries.{deliver}
use matrix_flare.ControlPlane.Staging.{AreDistinct}
use matrix_flare.ControlPlane.Runs.{deliver-stage_queued_payloads}

-- The work of a restore of one job, from a bundle with one checkpoint: a payload with another throws.
abbrev restore_work : Job → Payload → Attempt Finished
restore_work job m =
    if str_eq job.job_id "j1" && str_eq (or_else m.checkpoint_id "") "c1"
    then done record { checkpoint_id = "c1"; details = null; state = end; summary = none }
    else raised plain_error

restore_performs :
    (job : Job) (m : Payload)
    → str_eq job.job_id "j1" ≡ true
    → str_eq (or_else m.checkpoint_id "") "c1" ≡ true
    → (f : Finished) × (restore_work job m ≡ done f)
restore_performs job m named bundled = (
  record { checkpoint_id = "c1"; details = null; state = end; summary = none },
  rw (named, bundled) refl,
)

abbrev works : Works
works = record {
  perform = λ queue p job m c. restore_work job m;
  rebuild_shard = λ job m c. raised plain_error;
  finalize_bundle = λ p job. done tt;
  send = λ m. done tt;
}

abbrev restoring : Delivery
restoring = record {
  works = works;
  queue = Queue.restore;
  queue_name = "matrix-restore-shard-job";
  now = "t2";
  causation_id = none;
}

abbrev job_in : JobState → Option Fields → Job
job_in state fields = record {
  job_id = "j1";
  job_type = "restore";
  internal_state = state;
  scope = record { scope_kind = "global"; scope_id = none };
  operator_principal_id = "ada";
  auth_mechanism = "access";
  idempotency_key = "k0";
  request_fingerprint = "f0";
  accepted_at = "t0";
  created_at = "t0";
  started_at = none;
  completed_at = some "t1";
  canceled_at = none;
  cancel_reason = none;
  spec = obj end;
  checkpoint_state = fields;
  progress_completed_units = 0;
  progress_total_units = 0;
  progress_unit_name = "shard";
  last_error = some (str "lost");
  registry_snapshot_id = none;
  export_epoch = none;
  result_summary = none;
}

abbrev payload_for : String → String → Payload
payload_for shard_type shard_key = record {
  job_id = "j1";
  shard_type = some shard_type;
  shard_key = some shard_key;
  scope_kind = none;
  scope_id = none;
  checkpoint_id = some "c1";
  apply_phase = some "truth-core";
  chunk_cursor = none;
  chunk_limit = none;
  work_kind = none;
  attempt = 0;
}

abbrev room_shard : Payload
room_shard = payload_for "RoomDO" "!r:a.org"

abbrev user_shard : Payload
user_shard = payload_for "UserDO" "@u:a.org"

abbrev shards : List Payload
shards = room_shard ∷ user_shard ∷ []

abbrev plane_with : JobState → Option Fields → Plane
plane_with state fields = record {
  audit_events = [];
  request_dedupe_projection = [];
  jobs = job_in state fields ∷ [];
  job_checkpoints = [];
  sent = [];
}

pending_found :
    find_job "j1" (plane_with JobState.pending none).jobs ≡ some (job_in JobState.pending none)
unfolding find_job
pending_found = refl

-- The messages of the two shards, one of them twice.
abbrev messages : List Payload
messages = user_shard ∷ room_shard ∷ user_shard ∷ []

restoring-IsPlain : IsPlain restoring "j1" (asked_of (job_in JobState.pending none)) messages
restoring-IsPlain = record {
  not_export = refl;
  not_rebuild = refl;
  performs = λ p job m c named asked member queued.
      restore_performs job m ((eq_iff job.job_id "j1").1 named) (message_checkpoint m member);
}
  where
    message_checkpoint :
        (m : Payload) → Member m messages → str_eq (or_else m.checkpoint_id "") "c1" ≡ true
    message_checkpoint m h = elim (cases_cons h) [
      | inl e ↦ rw e refl
      | inr h1 ↦ elim (cases_cons h1) [
        | inl e ↦ rw e refl
        | inr h2 ↦ elim (cases_cons h2) [ inl e ↦ rw e refl | inr none_left ↦ elim none_left [ ] ]
      ]
    ]

distinct_shards : AreDistinct "j1" shards
unfolding shard_of
distinct_shards = ((refl, tt), (tt, tt))

no_checkpoints : list_job_checkpoints "j1" (plane_with JobState.pending none).job_checkpoints ≡ []
unfolding list_job_checkpoints
no_checkpoints = refl

deliver-stage_queued_payloads_example :
    (after : Job) × (find_job "j1"
        (deliver restoring messages (
          stage_queued_payloads restoring
            (job_in JobState.pending none)
            shards
            (plane_with JobState.pending none))).jobs
      ≡ some after)
    × (after.internal_state ≡ terminal_state Queue.restore)
deliver-stage_queued_payloads_example =
    deliver-stage_queued_payloads restoring (job_in JobState.pending none) room_shard
      (user_shard ∷ []) (plane_with JobState.pending none) pending_found distinct_shards
      (λ r h. elim h [ ]) no_checkpoints messages restoring-IsPlain
      (tail (head refl), (head refl, tt)) (refl, (refl, (refl, tt)))

abbrev staged_plane : Plane
staged_plane =
    stage_queued_payloads restoring (job_in JobState.pending none) shards
      (plane_with JobState.pending none)

first_is_processed :
    process_queue_message restoring room_shard staged_plane
    ≡ (done processed, (process_queue_message restoring room_shard staged_plane).1)
unfolding process_queue_message process_staged run_shard complete_shard update_job_state with_state
    state_event map_internal_job_state_to_public_state stage_queued_payloads stage_rows
    upsert_checkpoint find_job find_checkpoint shard_of is_complete completed_units
    list_job_checkpoints spread set_field
first_is_processed = refl

abbrev first_plane : Plane
first_plane = (process_queue_message restoring room_shard staged_plane).1

process_queue_message_again_example :
    process_queue_message record restoring { now = "t9" } room_shard first_plane
    ≡ (done checkpoint_already_complete, first_plane)
process_queue_message_again_example =
    process_queue_message_again restoring room_shard record restoring { now = "t9" } staged_plane
      first_plane refl first_is_processed

completed_found :
    find_job "j1" (plane_with JobState.completed none).jobs ≡ some (job_in JobState.completed none)
unfolding find_job
completed_found = refl

process_queue_message_terminal_example :
    LeavesJobs
      (plane_with JobState.completed none)
      (process_queue_message restoring room_shard (plane_with JobState.completed none)).1
process_queue_message_terminal_example =
    process_queue_message_terminal restoring room_shard (job_in JobState.completed none)
      (plane_with JobState.completed none) completed_found refl

abbrev newer_body : Json
newer_body = obj (field "job_id" (str "j1") (field "schema_version" (int (pos 2)) end))

newer_is_refused :
    normalize_queue_payload Queue.restore newer_body ≡ raised unsupported_schema_version
unfolding normalize_queue_payload normalize_count get
newer_is_refused = refl

handle_message_unreadable_example :
    ((handle_message restoring newer_body (plane_with JobState.validating none)).0 ≡ ack)
    × ((((handle_message restoring newer_body (plane_with JobState.validating none)).1
            ≡ plane_with JobState.validating none)
          × HasNoneToFail (body_job_id newer_body) (plane_with JobState.validating none))
        ⊎ IsFailedIn
            (body_job_id newer_body)
            (plane_with JobState.validating none)
            (handle_message restoring newer_body (plane_with JobState.validating none)).1)
handle_message_unreadable_example =
    handle_message_unreadable restoring newer_body unsupported_schema_version
      (plane_with JobState.validating none) newer_is_refused

abbrev asking : Write
asking = record {
  operator = record { principal_id = "ada"; auth_mechanism = "access" };
  scope = record { scope_kind = "global"; scope_id = none };
  idempotency_key = "k1";
  request_fingerprint = "f1";
  context = record { request_id = "r1"; causation_id = none };
  dedupe_override = none;
  affected_objects = none;
}

abbrev plane_of : Result (CancelAnswer × Plane) → Plane → Plane
plane_of (ok (answer, p)) before = p
plane_of (throws e) before = before

abbrev canceled_plane : Plane
canceled_plane =
    plane_of
      (cancel_job_request asking (job_in JobState.completed none) none "late" "t2"
        (plane_with JobState.completed none))
      (plane_with JobState.completed none)

completed_is_canceled :
    cancel_job_request asking
      (job_in JobState.completed none)
      none
      "late"
      "t2"
      (plane_with JobState.completed none)
    ≡ ok (
      canceling (accepted_envelope (job_in JobState.completed none) "t2" JobState.cancel_requested),
      canceled_plane,
    )
unfolding cancel_job_request reserve_idempotent_write write_key create_dedupe_scope_token
    normalize_string normalize_text trim dedupe_key get reservation append_audit_event
    bind_audit_event job_statements batch exec find_dedupe finalize_reserved_write
    map_internal_job_state_to_public_state
completed_is_canceled = refl

cancel_job_request_reopens_example :
    (asked : Job) × (canceled : Job) × (find_job "j1" canceled_plane.jobs ≡ some asked)
    × (asked.internal_state ≡ JobState.cancel_requested)
    × (find_job "j1" (process_queue_message restoring room_shard canceled_plane).1.jobs
        ≡ some canceled)
    × (canceled.internal_state ≡ JobState.canceled)
cancel_job_request_reopens_example =
    cancel_job_request_reopens asking restoring room_shard (job_in JobState.completed none) "late"
      "t2" (accepted_envelope (job_in JobState.completed none) "t2" JobState.cancel_requested)
      (plane_with JobState.completed none) canceled_plane completed_found refl refl
      completed_is_canceled

abbrev delivery_staged : Option Fields
delivery_staged = some (field "queue_delivery_state" (str "staged") end)

failed_found :
    find_job "j1" (plane_with JobState.failed delivery_staged).jobs
    ≡ some (job_in JobState.failed delivery_staged)
unfolding find_job
failed_found = refl

failed_is_staged : is_staged (job_in JobState.failed delivery_staged) ≡ true
unfolding get
failed_is_staged = refl

start_job-StillFailed_example :
    StillFailed "j1"
      (job_in JobState.failed delivery_staged)
      (start_job restoring
        (job_in JobState.failed delivery_staged)
        (done shards)
        (plane_with JobState.failed delivery_staged)).1
start_job-StillFailed_example =
    start_job-StillFailed restoring (job_in JobState.failed delivery_staged) room_shard
      (user_shard ∷ []) (plane_with JobState.failed delivery_staged) failed_found refl
      failed_is_staged
