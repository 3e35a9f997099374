-- ===== src/ControlPlane/Payloads.antt =====
-- packages/control-plane/src/schemas.mjs: `normalizeQueuePayload` and the payloads of the shard queues.
-- `work_kind` holds the strategy of an export, the target of a rebuild or the kind of a repair.
use matrix_flare.Prelude.{
  ℕ, String, true, false, not, ◌==◌, leb, Option, none, some, List, [], ◌∷◌, if◌then◌else◌, Result,
  ok, throws, ◌>>=◌, type_error,
}
use matrix_flare.Prelude.Int.{pos}
use matrix_flare.Json.{Json, null, int, obj, Fields, field, end, get, is_nullish, normalize_string}
use matrix_flare.ControlPlane.Scopes.{normalize_enum, normalize_target_scope}
use matrix_flare.ControlPlane.Tables.{ChunkCursor, Payload}
use matrix_flare.ControlPlane.Queue.{
  Queue, export, restore, rebuild, repair, Failure, Attempt, raised, done,
}

abbrev pub checkpoint_strategies : List String
checkpoint_strategies = "reuse_complete" ∷ "force_fresh" ∷ []

abbrev pub rebuild_targets : List String
rebuild_targets =
    "search_index" ∷ "user_directory" ∷ "public_room_directory" ∷ "all_derived"
    ∷ "appservice_projection" ∷ []

abbrev pub restore_apply_phases : List String
restore_apply_phases =
    "truth-core" ∷ "truth-aux" ∷ "ephemeral-current" ∷ "dedupe-and-outbox" ∷ "control-plane" ∷ []

abbrev pub repair_kinds : List String
repair_kinds =
    "room_graph" ∷ "room_user_fanout" ∷ "user_device_keys" ∷ "remote_server_txn_queue"
    ∷ "remote_media_catalog" ∷ "search_reindex" ∷ []

-- `normalizeInteger` of schemas.mjs, for a least value that is not negative
unfoldable pub normalize_count : Option Json → ℕ → Result ℕ
normalize_count (some (int (pos n))) least = if leb least n then ok n else throws type_error
normalize_count _ least = throws type_error

-- A parameter with a default: `undefined` takes it, and `null` does not.
unfoldable pub count_or : Option Json → ℕ → Result ℕ
unfolding normalize_count
count_or none default = ok default
count_or (some value) default = normalize_count (some value) 0

-- `value ?? default`
unfoldable pub nullish_count_or : Option Json → ℕ → Result ℕ
unfolding normalize_count
nullish_count_or value default = if is_nullish value then ok default else normalize_count value 0

unfoldable pub chunk_cursor_in : Option Json → Result (Option ChunkCursor)
unfolding normalize_count nullish_count_or
chunk_cursor_in none = ok none
chunk_cursor_in (some null) = ok none
chunk_cursor_in (some (obj fields)) = do
  max_room_pos ← normalize_count (get "max_room_pos" fields) 0
  search_row_offset ← nullish_count_or (get "search_row_offset" fields) 0
  ok (some record { max_room_pos = max_room_pos; search_row_offset = search_row_offset })
chunk_cursor_in (some _) = throws type_error

unfoldable pub chunk_limit_in : Option Json → Result (Option ℕ)
unfolding normalize_count
chunk_limit_in value =
    if is_nullish value then ok none else normalize_count value 1 >>= (λ n. ok (some n))

abbrev empty_payload : String → ℕ → Payload
empty_payload job_id attempt = record {
  job_id = job_id;
  shard_type = none;
  shard_key = none;
  scope_kind = none;
  scope_id = none;
  checkpoint_id = none;
  apply_phase = none;
  chunk_cursor = none;
  chunk_limit = none;
  work_kind = none;
  attempt = attempt;
}

unfoldable pub build_export_shard_job : Fields → Result Payload
unfolding normalize_string normalize_enum count_or
build_export_shard_job value = do
  job_id ← normalize_string (get "job_id" value)
  export_epoch ← normalize_string (get "export_epoch" value)
  shard_type ← normalize_string (get "shard_type" value)
  shard_key ← normalize_string (get "shard_key" value)
  strategy ← normalize_enum (get "checkpoint_strategy" value) checkpoint_strategies
  attempt ← count_or (get "attempt" value) 0
  ok record (empty_payload job_id attempt) {
    shard_type = some shard_type;
    shard_key = some shard_key;
    work_kind = some strategy;
  }

unfoldable pub build_rebuild_shard_job : Fields → Result Payload
unfolding normalize_string normalize_enum chunk_cursor_in chunk_limit_in count_or
build_rebuild_shard_job value = do
  job_id ← normalize_string (get "job_id" value)
  target ← normalize_enum (get "rebuild_target" value) rebuild_targets
  shard_type ← normalize_string (get "shard_type" value)
  shard_key ← normalize_string (get "shard_key" value)
  cursor ← chunk_cursor_in (get "chunk_cursor" value)
  limit ← chunk_limit_in (get "chunk_limit" value)
  attempt ← count_or (get "attempt" value) 0
  ok record (empty_payload job_id attempt) {
    shard_type = some shard_type;
    shard_key = some shard_key;
    chunk_cursor = cursor;
    chunk_limit = limit;
    work_kind = some target;
  }

unfoldable pub build_restore_shard_job : Fields → Result Payload
unfolding normalize_string normalize_enum count_or
build_restore_shard_job value = do
  job_id ← normalize_string (get "job_id" value)
  checkpoint_id ← normalize_string (get "checkpoint_id" value)
  shard_type ← normalize_string (get "shard_type" value)
  shard_key ← normalize_string (get "shard_key" value)
  phase ← normalize_enum (get "apply_phase" value) restore_apply_phases
  attempt ← count_or (get "attempt" value) 0
  ok record (empty_payload job_id attempt) {
    shard_type = some shard_type;
    shard_key = some shard_key;
    checkpoint_id = some checkpoint_id;
    apply_phase = some phase;
  }

abbrev copy_field : Fields → String → Fields → Fields
copy_field value name rest = elim (get name value) [ none ↦ rest | some v ↦ field name v rest ]

-- The object of the two scope fields of a payload.
abbrev pub scope_fields : Fields → Json
scope_fields value = obj (copy_field value "scope_kind" (copy_field value "scope_id" end))

unfoldable pub build_repair_shard_job : Fields → Result Payload
unfolding normalize_string normalize_enum normalize_target_scope count_or
build_repair_shard_job value = do
  scope ← normalize_target_scope (scope_fields value)
  job_id ← normalize_string (get "job_id" value)
  kind ← normalize_enum (get "repair_kind" value) repair_kinds
  attempt ← count_or (get "attempt" value) 0
  ok record (empty_payload job_id attempt) {
    scope_kind = some scope.scope_kind;
    scope_id = scope.scope_id;
    work_kind = some kind;
  }

abbrev pub argument_error : Failure
argument_error = record { code = none; retryable = none; is_argument_error = true }

abbrev pub unsupported_schema_version : Failure
unsupported_schema_version = record {
  code = some "unsupported_schema_version";
  retryable = some false;
  is_argument_error = true;
}

abbrev pub attempt_of {ℓ} : {A : Type ℓ} → Result A → Attempt A
attempt_of (throws e) = raised argument_error
attempt_of (ok a) = done a

abbrev pub build_payload : Queue → Fields → Result Payload
build_payload export value = build_export_shard_job value
build_payload rebuild value = build_rebuild_shard_job value
build_payload restore value = build_restore_shard_job value
build_payload repair value = build_repair_shard_job value

abbrev pub build_versioned : Queue → Fields → Result ℕ → Attempt Payload
build_versioned queue value (throws e) = raised argument_error
build_versioned queue value (ok version) =
    if not (version == 1)
    then raised unsupported_schema_version
    else attempt_of (build_payload queue value)

unfoldable pub normalize_queue_payload : Queue → Json → Attempt Payload
unfolding normalize_count
normalize_queue_payload queue (obj value) =
    build_versioned queue value (normalize_count (get "schema_version" value) 1)
normalize_queue_payload queue _ = raised argument_error
