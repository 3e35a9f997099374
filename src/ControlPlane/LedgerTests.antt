-- ===== src/ControlPlane/LedgerTests.antt =====
-- Tests of the writes under an idempotency key and of the policies of operators, in
-- packages/control-plane/src/services.mjs.
use matrix_flare.Prelude.{
  ◌⊎◌, String, Option, none, some, List, [], ◌∷◌, ◌≡◌, refl, ok, trim, includes, true,
}
use matrix_flare.Json.{
  Json, str, arr, obj, nil, cons, field, end, get, normalize_string, normalize_text,
}
use matrix_flare.ControlPlane.Scopes.{
  Scope, normalize_enum, normalize_optional, normalize_target_scope, scope_to_token,
}
use matrix_flare.ControlPlane.Tables.{
  AuditEvent, Envelope, DedupeKey, DedupeRow, Plane, find_dedupe, exec, batch, dedupe_key,
  bind_audit_event, insert_audit_event, insert_dedupe_record, Statement,
}
use matrix_flare.ControlPlane.Ledger.{
  Write, WriteOutcome, accepted, replay, create_dedupe_scope_token, append_audit_event, write_key,
  job_statements, reservation, reserve_idempotent_write, finalize_reserved_write,
}
use matrix_flare.ControlPlane.Reservations.{Runs}
use matrix_flare.ControlPlane.Answers.{
  Refers, reserve_idempotent_write_once, reserve_idempotent_write-finalize_reserved_write,
}
use matrix_flare.ControlPlane.Constraints.{
  ops_scope_vocabulary, texts_of, get_values, set_values, value_lists, read_entry, read_entries,
  normalize_target_constraints, authorize_scope, authorize_operator_request,
}
use matrix_flare.ControlPlane.Kinds.{IsAllowedKind}
use matrix_flare.ControlPlane.Grants.{IsGranted}
use matrix_flare.ControlPlane.Authorized.{authorize_operator_request-IsGranted}

abbrev everything : Scope
everything = record { scope_kind = "global"; scope_id = none }

abbrev write_of : String → Write
write_of fingerprint = record {
  operator = record { principal_id = "ada"; auth_mechanism = "access" };
  scope = everything;
  idempotency_key = " k1 ";
  request_fingerprint = fingerprint;
  context = record { request_id = "r1"; causation_id = none };
  dedupe_override = none;
  affected_objects = none;
}

abbrev envelope_of : String → Envelope
envelope_of text = record { kind = "success"; status = 202; body = str text }

abbrev empty_plane : Plane
empty_plane = record {
  audit_events = [];
  request_dedupe_projection = [];
  jobs = [];
  job_checkpoints = [];
  sent = [];
}

abbrev key : DedupeKey
key = record {
  operator_principal_id = "ada";
  idempotency_key = "k1";
  scope_token = "global:global";
}

abbrev event_of : String → String → String → String → Option Json → AuditEvent
event_of fingerprint event_type now code details = record {
  event_type = event_type;
  occurred_at = now;
  operator_principal_id = "ada";
  auth_mechanism = "access";
  scope = everything;
  request_id = some "r1";
  idempotency_key = some " k1 ";
  request_fingerprint = some fingerprint;
  job_id = none;
  causation_id = none;
  result_code = code;
  affected_objects = [];
  details = details;
}

abbrev row_of : String → String → String → String → DedupeRow
row_of fingerprint code text updated = record {
  key = key;
  request_fingerprint = fingerprint;
  job_id = none;
  result_code = code;
  response_payload = envelope_of text;
  created_at = "t1";
  updated_at = updated;
}

abbrev acceptance : Option Json
acceptance = some (obj (field "action" (str "accepted") end))

abbrev reserved_plane : Plane
reserved_plane = record {
  audit_events = event_of "f1" "cancel" "t1" "accepted" acceptance ∷ [];
  request_dedupe_projection = row_of "f1" "accepted" "first" "t1" ∷ [];
  jobs = [];
  job_checkpoints = [];
  sent = [];
}

abbrev finalized_plane : Plane
finalized_plane = record {
  audit_events =
      event_of "f1" "cancel" "t1" "accepted" acceptance
      ∷ event_of "f1" "cancel.done" "t2" "done" none
      ∷ [];
  request_dedupe_projection = row_of "f1" "done" "last" "t2" ∷ [];
  jobs = [];
  job_checkpoints = [];
  sent = [];
}

key_is_normalized : (fingerprint : String) → write_key (write_of fingerprint) ≡ ok key
unfolding write_key create_dedupe_scope_token scope_to_token normalize_target_scope normalize_enum
    normalize_optional normalize_string normalize_text trim dedupe_key get
key_is_normalized fingerprint = refl

print_is_normalized : normalize_text (write_of "f1").request_fingerprint ≡ ok "f1"
unfolding normalize_text trim
print_is_normalized = refl

first_is_accepted :
    reserve_idempotent_write (write_of "f1") (envelope_of "first") none "cancel" "t1" empty_plane
    ≡ ok (accepted (envelope_of "first") none, reserved_plane)
unfolding reserve_idempotent_write write_key create_dedupe_scope_token scope_to_token
    normalize_target_scope normalize_enum normalize_optional normalize_string normalize_text trim
    dedupe_key get reservation append_audit_event bind_audit_event job_statements batch exec
    find_dedupe
first_is_accepted = refl

answer_is_kept :
    finalize_reserved_write
      (write_of "f1")
      (envelope_of "last")
      "done"
      none
      "cancel.done"
      none
      "t2"
      reserved_plane
    ≡ ok finalized_plane
unfolding finalize_reserved_write write_key create_dedupe_scope_token scope_to_token
    normalize_target_scope normalize_enum normalize_optional normalize_string normalize_text trim
    dedupe_key get append_audit_event bind_audit_event batch exec
answer_is_kept = refl

abbrev statements_of : String → List Statement
statements_of fingerprint =
    insert_audit_event (event_of fingerprint "cancel" "t3" "accepted" acceptance)
    ∷ insert_dedupe_record record {
      key = key;
      request_fingerprint = fingerprint;
      job_id = none;
      result_code = "accepted";
      response_payload = envelope_of "again";
      created_at = "t3";
      updated_at = "t3";
    }
    ∷ []

same_is_bound :
    reservation (write_of "f1") key (envelope_of "again") none "cancel" "t3"
    ≡ ok (statements_of "f1")
unfolding reservation append_audit_event bind_audit_event job_statements normalize_text trim
same_is_bound = refl

other_is_bound :
    reservation (write_of "f2") key (envelope_of "again") none "cancel" "t3"
    ≡ ok (statements_of "f2")
unfolding reservation append_audit_event bind_audit_event job_statements normalize_text trim
other_is_bound = refl

reserve_idempotent_write_once_example :
    (o : WriteOutcome) × (reserve_idempotent_write
        (write_of "f2")
        (envelope_of "again")
        none
        "cancel"
        "t3"
        reserved_plane
      ≡ ok (o, reserved_plane))
    × Refers "f1" none (write_of "f2") o
reserve_idempotent_write_once_example =
    reserve_idempotent_write_once (write_of "f1") (write_of "f2") (envelope_of "first")
      (envelope_of "again") (envelope_of "first") none none "cancel" "cancel" "t1" "t3" key "f1"
      none (statements_of "f2") empty_plane reserved_plane reserved_plane (key_is_normalized "f1")
      print_is_normalized first_is_accepted Runs.here (key_is_normalized "f2") other_is_bound

reserve_idempotent_write-finalize_reserved_write_example :
    reserve_idempotent_write
      (write_of "f1")
      (envelope_of "again")
      none
      "cancel"
      "t3"
      finalized_plane
    ≡ ok (replay (envelope_of "last") none, finalized_plane)
reserve_idempotent_write-finalize_reserved_write_example =
    reserve_idempotent_write-finalize_reserved_write (write_of "f1") (write_of "f1")
      (envelope_of "first") (envelope_of "again") (envelope_of "first") none none "cancel" "cancel"
      "t1" "t3" (envelope_of "last") "done" none "cancel.done" "t2" none key "f1" none
      (statements_of "f1") empty_plane reserved_plane finalized_plane (key_is_normalized "f1")
      print_is_normalized first_is_accepted answer_is_kept (key_is_normalized "f1") same_is_bound
      refl

abbrev rooms : Json
rooms = arr (cons (str " !r:a.org ") nil)

abbrev room_target : Json
room_target = obj (field "scope_kind" (str "room_id") (field "scope_id" (str "!r:a.org") end))

room_is_allowed :
    authorize_operator_request
      record {
        allowed_scopes = "ops.rebuild.write" ∷ [];
        target_scope_constraints = some (obj (field "room_id" rooms end));
      }
      (some "ops.rebuild.write")
      (some room_target)
    ≡ ok tt
unfolding authorize_operator_request authorize_scope normalize_target_scope normalize_enum
    normalize_optional normalize_string normalize_text trim get normalize_target_constraints
    texts_of value_lists read_entries read_entry get_values set_values
room_is_allowed = refl

room_is_normalized :
    normalize_target_scope room_target
    ≡ ok record { scope_kind = "room_id"; scope_id = some "!r:a.org" }
unfolding normalize_target_scope normalize_enum normalize_optional normalize_string normalize_text
    trim get
room_is_normalized = refl

authorize_operator_request-IsGranted_example :
    (includes ops_scope_vocabulary "ops.rebuild.write" ≡ true)
    × (includes ("ops.rebuild.write" ∷ []) "ops.rebuild.write" ≡ true)
    × IsAllowedKind (field "room_id" rooms end) "room_id"
    × ((◌≡◌ {A = String} "room_id" "global")
        ⊎ ((id : String) × (◌≡◌ {A = Option String} (some "!r:a.org") (some id))
            × IsGranted (field "room_id" rooms end) "room_id" id))
authorize_operator_request-IsGranted_example =
    authorize_operator_request-IsGranted ("ops.rebuild.write" ∷ []) (field "room_id" rooms end)
      "ops.rebuild.write" room_target record { scope_kind = "room_id"; scope_id = some "!r:a.org" }
      refl room_is_allowed room_is_normalized
