-- ===== src/ControlPlane/Jobs.antt =====
-- The states of a job (packages/control-plane/src/schemas.mjs) and `updateJobState` of services.mjs. The
-- texts of a job's row were normalized when it was created, and binding them again leaves them as they are.
use Prim.Native.String.{◌++◌ as append}
use matrix_flare.Prelude.{
  ℕ, String, Bool, true, false, Option, none, some, [], ◌∷◌, if◌then◌else◌, or_option, ◌++◌, map,
}
use matrix_flare.Json.{Json, Fields}
use matrix_flare.ControlPlane.Tables.{JobState, Job, AuditEvent, Plane, updated_job}

pub data PublicState : Type 0 where
  accepted queued running succeeded failed cancel_requested canceled : PublicState

-- `mapInternalJobStateToPublicState`
unfoldable pub map_internal_job_state_to_public_state : JobState → PublicState
map_internal_job_state_to_public_state JobState.pending = PublicState.accepted
map_internal_job_state_to_public_state JobState.checkpointed = PublicState.queued
map_internal_job_state_to_public_state JobState.completed = PublicState.succeeded
map_internal_job_state_to_public_state JobState.finalized = PublicState.succeeded
map_internal_job_state_to_public_state JobState.failed = PublicState.failed
map_internal_job_state_to_public_state JobState.cancel_requested = PublicState.cancel_requested
map_internal_job_state_to_public_state JobState.canceled = PublicState.canceled
map_internal_job_state_to_public_state _ = PublicState.running

abbrev pub is_running : PublicState → Bool
is_running PublicState.running = true
is_running _ = false

-- `TERMINAL_JOB_STATES`
abbrev pub is_terminal : JobState → Bool
is_terminal JobState.completed = true
is_terminal JobState.finalized = true
is_terminal JobState.failed = true
is_terminal JobState.canceled = true
is_terminal _ = false

abbrev pub is_pending : JobState → Bool
is_pending JobState.pending = true
is_pending _ = false

abbrev pub is_cancel_requested : JobState → Bool
is_cancel_requested JobState.cancel_requested = true
is_cancel_requested _ = false

abbrev pub is_canceled : JobState → Bool
is_canceled JobState.canceled = true
is_canceled _ = false

abbrev pub is_failed : JobState → Bool
is_failed JobState.failed = true
is_failed _ = false

abbrev pub state_name : JobState → String
state_name JobState.pending = "pending"
state_name JobState.checkpointed = "checkpointed"
state_name JobState.scanning = "scanning"
state_name JobState.applying = "applying"
state_name JobState.materializing = "materializing"
state_name JobState.uploading = "uploading"
state_name JobState.validating = "validating"
state_name JobState.importing = "importing"
state_name JobState.cutover_ready = "cutover-ready"
state_name JobState.cutover = "cutover"
state_name JobState.verifying = "verifying"
state_name JobState.completed = "completed"
state_name JobState.finalized = "finalized"
state_name JobState.failed = "failed"
state_name JobState.cancel_requested = "cancel_requested"
state_name JobState.canceled = "canceled"

pub record Progress : Type 0 where
  pub completed_units : ℕ
  pub total_units : ℕ
  pub unit_name : String

-- The optional arguments of `updateJobState`, and the details of its audit event.
pub record Update : Type 0 where
  pub new_state : JobState
  pub checkpoint_state : Option Fields
  pub last_error : Option Json
  pub progress : Option Progress
  pub result_summary : Option Json
  pub audit_details : Option Json
  pub causation_id : Option String

abbrev pub completed_units_of : Option Progress → ℕ → ℕ
completed_units_of none n = n
completed_units_of (some progress) n = progress.completed_units

abbrev pub total_units_of : Option Progress → ℕ → ℕ
total_units_of none n = n
total_units_of (some progress) n = progress.total_units

abbrev pub unit_name_of : Option Progress → String → String
unit_name_of none name = name
unit_name_of (some progress) name = progress.unit_name

unfoldable pub with_state : Job → Update → String → Job
unfolding map_internal_job_state_to_public_state
with_state job u now = record job {
  internal_state = u.new_state;
  started_at =
      or_option job.started_at (
        if is_running (map_internal_job_state_to_public_state u.new_state) then some now else none);
  completed_at = if is_terminal u.new_state then some now else job.completed_at;
  canceled_at = if is_canceled u.new_state then some now else job.canceled_at;
  checkpoint_state = or_option u.checkpoint_state job.checkpoint_state;
  progress_completed_units = completed_units_of u.progress job.progress_completed_units;
  progress_total_units = total_units_of u.progress job.progress_total_units;
  progress_unit_name = unit_name_of u.progress job.progress_unit_name;
  last_error = or_option u.last_error job.last_error;
  result_summary = or_option u.result_summary job.result_summary;
}

-- The audit event of a change of state.
unfoldable pub state_event : Job → Update → String → AuditEvent
state_event job u now = record {
  event_type = append job.job_type (append "." (state_name u.new_state));
  occurred_at = now;
  operator_principal_id = job.operator_principal_id;
  auth_mechanism = job.auth_mechanism;
  scope = job.scope;
  request_id = none;
  idempotency_key = some job.idempotency_key;
  request_fingerprint = some job.request_fingerprint;
  job_id = some job.job_id;
  causation_id = or_option u.causation_id (some job.job_id);
  result_code = state_name u.new_state;
  affected_objects = ("job", job.job_id) ∷ [];
  details = u.audit_details;
}

-- `updateJobState` with the audit event that all its callers ask for. The two statements of its
-- transaction violate no key.
unfoldable pub update_job_state : Job → Update → String → Plane → Plane
unfolding with_state state_event
update_job_state job u now p = record p {
  jobs = map (updated_job (with_state job u now)) p.jobs;
  audit_events = p.audit_events ++ state_event job u now ∷ [];
}
