-- ===== src/ControlPlane/Cancel.antt =====
-- The cancellation of a job in packages/control-plane/src/ops-handler.mjs, from the job's row on, for an
-- operator who may cancel it: a write under an idempotency key of the job, its precondition, and the row.
use Prim.Native.String.{◌++◌ as append}
use matrix_flare.Prelude.{
  String, Bool, not, Option, none, some, List, [], ◌∷◌, map, if◌then◌else◌, includes, Result, ok,
  ◌>>=◌,
}
use matrix_flare.Json.{Json, str, obj, field, end}
use matrix_flare.ControlPlane.Tables.{JobState, Job, Envelope, Plane, updated_job}
use matrix_flare.ControlPlane.Jobs.{
  PublicState, map_internal_job_state_to_public_state, is_canceled, state_name,
}
use matrix_flare.ControlPlane.Ledger.{
  Write, WriteOutcome, accepted, replay, conflict, reserve_idempotent_write,
  finalize_reserved_write,
}

abbrev pub public_name : PublicState → String
public_name PublicState.accepted = "accepted"
public_name PublicState.queued = "queued"
public_name PublicState.running = "running"
public_name PublicState.succeeded = "succeeded"
public_name PublicState.failed = "failed"
public_name PublicState.cancel_requested = "cancel_requested"
public_name PublicState.canceled = "canceled"

abbrev pub public_state : Job → String
public_state job = public_name (map_internal_job_state_to_public_state job.internal_state)

-- `['pending', 'checkpointed'].includes(state) ? 'canceled' : 'cancel_requested'`
abbrev pub canceled_state : JobState → JobState
canceled_state JobState.pending = JobState.canceled
canceled_state JobState.checkpointed = JobState.canceled
canceled_state _ = JobState.cancel_requested

abbrev pub accepted_envelope : Job → String → JobState → Envelope
accepted_envelope job now state = record {
  kind = "success";
  status = 202;
  body = obj (
      field "job_id" (str job.job_id) (
        field "previous_state" (str (public_state job)) (
          field "new_state" (str (public_name (map_internal_job_state_to_public_state state)))
            (field "accepted_at" (str now) end))));
}

abbrev pub precondition_envelope : Job → Write → Envelope
precondition_envelope job w = record {
  kind = "error";
  status = 409;
  body = obj (
      field "code" (str "precondition_failed") (
        field "request_id" (str w.context.request_id)
          (field "details" (obj (field "previous_state" (str (public_state job)) end)) end)));
}

abbrev pub state_details : Job → JobState → Json
state_details job state = obj (
    field "previous_state" (str (public_state job))
      (field "new_state" (str (public_name (map_internal_job_state_to_public_state state))) end))

abbrev pub canceled_row : Job → String → String → Job
canceled_row job reason now = record job {
  internal_state = canceled_state job.internal_state;
  canceled_at =
      if is_canceled (canceled_state job.internal_state) then some now else job.canceled_at;
  cancel_reason = some reason;
}

abbrev pub is_precondition_met : Job → Option (List String) → Bool
is_precondition_met job none = Bool.true
is_precondition_met job (some states) = includes states (public_state job)

-- The answer of a cancellation: that of its own run, or what the idempotency key refers to.
pub data CancelAnswer : Type 0 where
  canceling : Envelope → CancelAnswer
  refused : Envelope → CancelAnswer
  earlier : WriteOutcome → CancelAnswer

abbrev pub with_answer : CancelAnswer → Plane → Result (CancelAnswer × Plane)
with_answer answer p = ok (answer, p)

abbrev pub cancel_accepted :
    Write → Job → Option (List String) → String → String → Plane → Result (CancelAnswer × Plane)
cancel_accepted w job if_in_states reason now p =
    if not (is_precondition_met job if_in_states)
    then finalize_reserved_write w (precondition_envelope job w) "precondition_failed"
        (some job.job_id) "job.cancel.precondition_failed"
        (some (obj (field "previous_state" (str (public_state job)) end))) now p
      >>= with_answer (refused (precondition_envelope job w))
    else finalize_reserved_write w (accepted_envelope job now (canceled_state job.internal_state))
        (state_name (canceled_state job.internal_state)) (some job.job_id) "job.cancel.succeeded"
        (some (state_details job (canceled_state job.internal_state))) now
        record p { jobs = map (updated_job (canceled_row job reason now)) p.jobs }
      >>= with_answer (canceling (accepted_envelope job now (canceled_state job.internal_state)))

abbrev pub after_reservation :
    Write
    → Job
    → Option (List String)
    → String
    → String
    → WriteOutcome × Plane
    → Result (CancelAnswer × Plane)
after_reservation w job if_in_states reason now (accepted envelope id, p) =
    cancel_accepted w job if_in_states reason now p
after_reservation w job if_in_states reason now (replay envelope id, p) =
    ok (earlier (replay envelope id), p)
after_reservation w job if_in_states reason now (conflict status code token, p) =
    ok (earlier (conflict status code token), p)

-- The write of a cancellation: its key is the job's.
abbrev pub cancel_write : Write → Job → Write
cancel_write w job = record w {
  scope = job.scope;
  dedupe_override = some (append "job_id:" job.job_id);
  affected_objects = some (("job", job.job_id) ∷ []);
}

unfoldable pub cancel_job_request :
    Write → Job → Option (List String) → String → String → Plane → Result (CancelAnswer × Plane)
unfolding reserve_idempotent_write finalize_reserved_write map_internal_job_state_to_public_state
cancel_job_request w job if_in_states reason now p =
    reserve_idempotent_write (cancel_write w job)
      (accepted_envelope job now JobState.cancel_requested) none "job.cancel.accepted" now p
    >>= after_reservation (cancel_write w job) job if_in_states reason now
