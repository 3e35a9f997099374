-- ===== src/ControlPlane/Tables.antt =====
-- packages/control-plane/src/persistence.mjs: the tables of the control plane and the statements that
-- change them. A statement is bound when it is made, with its texts normalized, and runs with its batch.
use matrix_flare.Prelude.{
  ℕ, String, Bool, ◌&&◌, Option, none, some, List, [], ◌∷◌, ◌++◌, map, str_eq, if◌then◌else◌,
  is_some, find, filter, Result, ok, ◌>>=◌,
}
use matrix_flare.Json.{Json, Fields, normalize_text}
use matrix_flare.ControlPlane.Scopes.{Scope}

-- `JOB_INTERNAL_STATES`
pub data JobState : Type 0 where
  pending checkpointed scanning applying materializing uploading validating importing : JobState
  cutover_ready cutover verifying completed finalized failed cancel_requested canceled : JobState

pub record Job : Type 0 where
  pub job_id : String
  pub job_type : String
  pub internal_state : JobState
  pub scope : Scope
  pub operator_principal_id : String
  pub auth_mechanism : String
  pub idempotency_key : String
  pub request_fingerprint : String
  pub accepted_at : String
  pub created_at : String
  pub started_at : Option String
  pub completed_at : Option String
  pub canceled_at : Option String
  pub cancel_reason : Option String
  pub spec : Json
  pub checkpoint_state : Option Fields
  pub progress_completed_units : ℕ
  pub progress_total_units : ℕ
  pub progress_unit_name : String
  pub last_error : Option Json
  pub registry_snapshot_id : Option String
  pub export_epoch : Option String
  pub result_summary : Option Json

pub record AuditEvent : Type 0 where
  pub event_type : String
  pub occurred_at : String
  pub operator_principal_id : String
  pub auth_mechanism : String
  pub scope : Scope
  pub request_id : Option String
  pub idempotency_key : Option String
  pub request_fingerprint : Option String
  pub job_id : Option String
  pub causation_id : Option String
  pub result_code : String
  pub affected_objects : List (String × String)
  pub details : Option Json

-- `serializeEnvelope`
pub record Envelope : Type 0 where
  pub kind : String
  pub status : ℕ
  pub body : Json

-- The primary key of `request_dedupe_projection`, normalized.
pub record DedupeKey : Type 0 where
  pub operator_principal_id : String
  pub idempotency_key : String
  pub scope_token : String

pub record DedupeRow : Type 0 where
  pub key : DedupeKey
  pub request_fingerprint : String
  pub job_id : Option String
  pub result_code : String
  pub response_payload : Envelope
  pub created_at : String
  pub updated_at : String

pub record ChunkCursor : Type 0 where
  pub max_room_pos : ℕ
  pub search_row_offset : ℕ

-- A payload of the shard queues, as `normalizeQueuePayload` leaves it.
pub record Payload : Type 0 where
  pub job_id : String
  pub shard_type : Option String
  pub shard_key : Option String
  pub scope_kind : Option String
  pub scope_id : Option String
  pub checkpoint_id : Option String
  pub apply_phase : Option String
  pub chunk_cursor : Option ChunkCursor
  pub chunk_limit : Option ℕ
  pub work_kind : Option String
  pub attempt : ℕ

-- The parts of a checkpoint that decide how its messages are handled; `details` holds the others.
pub record Checkpoint : Type 0 where
  pub status : String
  pub checkpoint_id : Option String
  pub queue_name : String
  pub queue_delivery_state : Option String
  pub queued_payload : Option Payload
  pub next_chunk_cursor : Option ChunkCursor
  pub details : Json

-- The primary key of `job_checkpoints`.
pub record ShardKey : Type 0 where
  pub job_id : String
  pub shard_type : String
  pub shard_key : String

pub record CheckpointRow : Type 0 where
  pub key : ShardKey
  pub checkpoint : Checkpoint
  pub updated_at : String

-- The tables, and the messages that were sent to the queues.
pub record Plane : Type 0 where
  pub audit_events : List AuditEvent
  pub request_dedupe_projection : List DedupeRow
  pub jobs : List Job
  pub job_checkpoints : List CheckpointRow
  pub sent : List Payload

abbrev pub same_dedupe_key : DedupeKey → DedupeKey → Bool
same_dedupe_key k j =
    str_eq k.operator_principal_id j.operator_principal_id
    && (str_eq k.idempotency_key j.idempotency_key && str_eq k.scope_token j.scope_token)

abbrev pub same_shard : ShardKey → ShardKey → Bool
same_shard k j =
    str_eq k.job_id j.job_id && (str_eq k.shard_type j.shard_type && str_eq k.shard_key j.shard_key)

unfoldable pub find_dedupe : DedupeKey → List DedupeRow → Option DedupeRow
find_dedupe k rows = find (λ r. same_dedupe_key r.key k) rows

unfoldable pub find_job : String → List Job → Option Job
find_job job_id rows = find (λ r. str_eq r.job_id job_id) rows

unfoldable pub find_checkpoint : ShardKey → List CheckpointRow → Option CheckpointRow
find_checkpoint k rows = find (λ r. same_shard r.key k) rows

-- `listJobCheckpoints`; its order is of no consequence to the callers, who count.
unfoldable pub list_job_checkpoints : String → List CheckpointRow → List CheckpointRow
list_job_checkpoints job_id rows = filter (λ r. str_eq r.key.job_id job_id) rows

pub data Statement : Type 0 where
  insert_audit_event : AuditEvent → Statement
  insert_dedupe_record : DedupeRow → Statement
  update_dedupe_record :
      DedupeKey → (result_code : String) → Envelope → (updated_at : String) → Statement
  create_job : Job → Statement
  update_job : Job → Statement
  upsert_job_checkpoint : CheckpointRow → Statement

abbrev pub updated_dedupe : DedupeKey → String → Envelope → String → DedupeRow → DedupeRow
updated_dedupe k code payload at r =
    if same_dedupe_key r.key k
    then record r { result_code = code; response_payload = payload; updated_at = at }
    else r

-- `UPDATE jobs SET ... WHERE job_id = ?`, with the columns that it leaves alone.
abbrev pub updated_job : Job → Job → Job
updated_job job r =
    if str_eq r.job_id job.job_id
    then record job {
      job_id = r.job_id;
      job_type = r.job_type;
      operator_principal_id = r.operator_principal_id;
      auth_mechanism = r.auth_mechanism;
      idempotency_key = r.idempotency_key;
      request_fingerprint = r.request_fingerprint;
      accepted_at = r.accepted_at;
      created_at = r.created_at;
    }
    else r

abbrev pub replaced_checkpoint : CheckpointRow → CheckpointRow → CheckpointRow
replaced_checkpoint row r =
    if same_shard r.key row.key
    then record r { checkpoint = row.checkpoint; updated_at = row.updated_at }
    else r

unfoldable pub upsert_checkpoint : CheckpointRow → Plane → Plane
unfolding find_checkpoint
upsert_checkpoint row p =
    if is_some (find_checkpoint row.key p.job_checkpoints)
    then record p { job_checkpoints = map (replaced_checkpoint row) p.job_checkpoints }
    else record p { job_checkpoints = p.job_checkpoints ++ row ∷ [] }

-- One statement; `none` is a violated primary key.
unfoldable pub exec : Statement → Plane → Option Plane
unfolding find_dedupe find_job upsert_checkpoint
exec (insert_audit_event e) p = some record p { audit_events = p.audit_events ++ e ∷ [] }
exec (insert_dedupe_record r) p =
    if is_some (find_dedupe r.key p.request_dedupe_projection)
    then none
    else some record p { request_dedupe_projection = p.request_dedupe_projection ++ r ∷ [] }
exec (update_dedupe_record k code payload at) p = some record p {
  request_dedupe_projection = map (updated_dedupe k code payload at) p.request_dedupe_projection;
}
exec (create_job j) p =
    if is_some (find_job j.job_id p.jobs) then none else some record p { jobs = p.jobs ++ j ∷ [] }
exec (update_job j) p = some record p { jobs = map (updated_job j) p.jobs }
exec (upsert_job_checkpoint row) p = some (upsert_checkpoint row p)

-- `db.batch`: all statements or none.
unfoldable pub batch : List Statement → Plane → Option Plane
unfolding exec
batch [] p = some p
batch (s ∷ ss) p = elim (exec s p) [ none ↦ none | some q ↦ batch ss q ]

-- The normalization of a key's texts when a statement over `request_dedupe_projection` is bound.
unfoldable pub dedupe_key : String → String → String → Result DedupeKey
unfolding normalize_text
dedupe_key operator key token = do
  operator' ← normalize_text operator
  key' ← normalize_text key
  token' ← normalize_text token
  ok record { operator_principal_id = operator'; idempotency_key = key'; scope_token = token' }

-- The texts of `insertAuditEvent`, as they are bound.
unfoldable pub bind_audit_event : AuditEvent → Result AuditEvent
unfolding normalize_text
bind_audit_event e = do
  event_type ← normalize_text e.event_type
  operator ← normalize_text e.operator_principal_id
  mechanism ← normalize_text e.auth_mechanism
  code ← normalize_text e.result_code
  ok record e {
    event_type = event_type;
    operator_principal_id = operator;
    auth_mechanism = mechanism;
    result_code = code;
  }

-- `createJob`, bound
unfoldable pub bind_job : Job → Result Statement
unfolding normalize_text
bind_job j = do
  job_id ← normalize_text j.job_id
  job_type ← normalize_text j.job_type
  operator ← normalize_text j.operator_principal_id
  mechanism ← normalize_text j.auth_mechanism
  key ← normalize_text j.idempotency_key
  fingerprint ← normalize_text j.request_fingerprint
  ok (
      create_job record j {
        job_id = job_id;
        job_type = job_type;
        operator_principal_id = operator;
        auth_mechanism = mechanism;
        idempotency_key = key;
        request_fingerprint = fingerprint;
      })
