-- ===== src/ControlPlane/Ledger.antt =====
-- packages/control-plane/src/services.mjs: writes under an idempotency key. `reserveIdempotentWrite` takes
-- the key with the audit event and the job that it accepts, and `finalizeReservedWrite` keeps its answer.
use matrix_flare.Prelude.{
  ℕ, String, Option, none, some, List, [], ◌∷◌, str_eq, if◌then◌else◌, or_else, or_option, Result,
  ok, throws, internal, ◌>>=◌,
}
use matrix_flare.Json.{Json, null, str, obj, field, end, normalize_text}
use matrix_flare.ControlPlane.Scopes.{Scope, scope_to_token}
use matrix_flare.ControlPlane.Tables.{
  Job, AuditEvent, Envelope, DedupeKey, DedupeRow, Plane, find_dedupe, Statement,
  insert_audit_event, insert_dedupe_record, update_dedupe_record, batch, dedupe_key,
  bind_audit_event, bind_job,
}

pub record Operator : Type 0 where
  pub principal_id : String
  pub auth_mechanism : String

pub record RequestContext : Type 0 where
  pub request_id : String
  pub causation_id : Option String

-- The JSON of a scope record.
abbrev pub scope_value : Scope → Json
scope_value scope = obj (
    field "scope_kind" (str scope.scope_kind)
      (field "scope_id" (elim (scope.scope_id) [ none ↦ null | some id ↦ str id ]) end))

unfoldable pub create_dedupe_scope_token : Scope → Option String → Result String
unfolding normalize_text scope_to_token
create_dedupe_scope_token scope (some key) = normalize_text key
create_dedupe_scope_token scope none = scope_to_token (scope_value scope)

-- What a write names: who asks, for what scope, under which key and fingerprint.
pub record Write : Type 0 where
  pub operator : Operator
  pub scope : Scope
  pub idempotency_key : String
  pub request_fingerprint : String
  pub context : RequestContext
  pub dedupe_override : Option String
  pub affected_objects : Option (List (String × String))

-- `appendAuditEvent`, as it is bound
unfoldable pub append_audit_event :
    Write
    → String
    → Option String
    → String
    → List (String × String)
    → Option Json
    → String
    → Result AuditEvent
unfolding bind_audit_event
append_audit_event w event_type job_id result_code affected details now = bind_audit_event record {
  event_type = event_type;
  occurred_at = now;
  operator_principal_id = w.operator.principal_id;
  auth_mechanism = w.operator.auth_mechanism;
  scope = w.scope;
  request_id = some w.context.request_id;
  idempotency_key = some w.idempotency_key;
  request_fingerprint = some w.request_fingerprint;
  job_id = job_id;
  causation_id = or_option w.context.causation_id job_id;
  result_code = result_code;
  affected_objects = affected;
  details = details;
}

pub data WriteOutcome : Type 0 where
  accepted : Envelope → Option String → WriteOutcome
  replay : Envelope → Option String → WriteOutcome
  conflict : (status : ℕ) → (code : String) → (scope_token : String) → WriteOutcome

unfoldable pub write_key : Write → Result DedupeKey
unfolding create_dedupe_scope_token dedupe_key
write_key w = do
  token ← create_dedupe_scope_token w.scope w.dedupe_override
  dedupe_key w.operator.principal_id w.idempotency_key token

abbrev pub job_objects : Option String → List (String × String)
job_objects none = []
job_objects (some id) = ("job", id) ∷ []

abbrev pub id_of_job : Option Job → Option String
id_of_job none = none
id_of_job (some job) = some job.job_id

-- `if (jobRecord) await tx.createJob(jobRecord);`
unfoldable pub job_statements : Option Job → Result (List Statement)
unfolding bind_job
job_statements none = ok []
job_statements (some job) = do s ← bind_job job; ok (s ∷ [])

-- The statements of the reservation, in their order.
unfoldable pub reservation :
    Write → DedupeKey → Envelope → Option Job → String → String → Result (List Statement)
unfolding append_audit_event job_statements normalize_text
reservation w key envelope job event_type now = do
  audit ←
      append_audit_event w event_type (id_of_job job) "accepted"
        (or_else w.affected_objects (job_objects (id_of_job job)))
        (some (obj (field "action" (str "accepted") end))) now
  fingerprint ← normalize_text w.request_fingerprint
  last ← job_statements job
  ok (
      insert_audit_event audit
      ∷ insert_dedupe_record record {
        key = key;
        request_fingerprint = fingerprint;
        job_id = id_of_job job;
        result_code = "accepted";
        response_payload = envelope;
        created_at = now;
        updated_at = now;
      }
      ∷ last)

-- The branch that catches a violated key.
abbrev pub answer_existing : Write → DedupeKey → Option DedupeRow → Result WriteOutcome
answer_existing w key none = throws (internal "unique constraint")
answer_existing w key (some row) =
    if str_eq row.request_fingerprint w.request_fingerprint
    then ok (replay row.response_payload row.job_id)
    else ok (conflict 409 "idempotency_conflict" key.scope_token)

-- An outcome that has left the tables alone.
abbrev pub unchanged : Plane → WriteOutcome → Result (WriteOutcome × Plane)
unchanged p outcome = ok (outcome, p)

abbrev pub run_reservation :
    Write → DedupeKey → Envelope → Option Job → Plane → Option Plane → Result (WriteOutcome × Plane)
run_reservation w key envelope job p (some q) = ok (accepted envelope (id_of_job job), q)
run_reservation w key envelope job p none =
    answer_existing w key (find_dedupe key p.request_dedupe_projection) >>= unchanged p

unfoldable pub reserve_idempotent_write :
    Write → Envelope → Option Job → String → String → Plane → Result (WriteOutcome × Plane)
unfolding write_key reservation batch
reserve_idempotent_write w envelope job event_type now p = do
  key ← write_key w
  statements ← reservation w key envelope job event_type now
  run_reservation w key envelope job p (batch statements p)

abbrev pub finished : Option Plane → Result Plane
finished none = throws (internal "unique constraint")
finished (some q) = ok q

unfoldable pub finalize_reserved_write :
    Write → Envelope → String → Option String → String → Option Json → String → Plane → Result Plane
unfolding write_key append_audit_event normalize_text batch
finalize_reserved_write w envelope result_code job_id event_type details now p = do
  key ← write_key w
  code ← normalize_text result_code
  audit ←
      append_audit_event w event_type job_id result_code
        (or_else w.affected_objects (job_objects job_id)) details now
  finished (batch (update_dedupe_record key code envelope now ∷ insert_audit_event audit ∷ []) p)
