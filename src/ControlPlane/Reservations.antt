-- ===== src/ControlPlane/Reservations.antt =====
-- What a key that was reserved stands for afterwards.
use matrix_flare.Prelude.{
  String, Option, none, some, List, ◌∷◌, str_eq, ◌≡◌, ◌≢◌, sym, ap, ◌∙◌, subst, inl, inr,
  Bool-cases, ok, ◌>>=◌, >>=-eq-ok, ok_inj, or_else,
}
use matrix_flare.Json.{normalize_text, obj, field, str, end}
use matrix_flare.ControlPlane.Tables.{
  Job, Envelope, DedupeKey, DedupeRow, Plane, find_dedupe, Statement, insert_audit_event,
  insert_dedupe_record, batch,
}
use matrix_flare.ControlPlane.Ledger.{
  Write, WriteOutcome, accepted, write_key, reservation, append_audit_event, id_of_job, job_objects,
  job_statements, answer_existing, run_reservation, unchanged, reserve_idempotent_write,
}
use matrix_flare.ControlPlane.Rows.{IsTaken, batch-IsTaken, batch_takes, batch_refused}

-- Any batches, one after another.
pub data Runs (p : Plane) : Plane → Type 0 where
  here : Runs p p
  next : {q r : Plane} → Runs p q → (ss : List Statement) → batch ss q ≡ some r → Runs p r

pub Runs-IsTaken :
    (k : DedupeKey) (fingerprint : String) (job : Option String) {p q : Plane}
    → IsTaken k fingerprint job p
    → Runs p q
    → IsTaken k fingerprint job q
Runs-IsTaken k fingerprint job t here = t
Runs-IsTaken k fingerprint job t (next {q} {r} runs ss e) =
    batch-IsTaken k fingerprint job ss q r (Runs-IsTaken k fingerprint job t runs) e

-- The shape of a reservation: the audit event, the row under the key, and the job.
pub reserved_row : Write → DedupeKey → Envelope → Option Job → String → String → DedupeRow
reserved_row w key envelope job fingerprint now = record {
  key = key;
  request_fingerprint = fingerprint;
  job_id = id_of_job job;
  result_code = "accepted";
  response_payload = envelope;
  created_at = now;
  updated_at = now;
}

pub reservation_parts :
    (w : Write) (key : DedupeKey) (envelope : Envelope) (job : Option Job) (event_type now : String)
    (ss : List Statement)
    → reservation w key envelope job event_type now ≡ ok ss
    → (audit : Statement) × (fingerprint : String) × (last : List Statement) × (normalize_text
          w.request_fingerprint
        ≡ ok fingerprint)
      × (ss ≡ audit ∷ insert_dedupe_record (reserved_row w key envelope job fingerprint now) ∷ last)
unfolding reservation reserved_row
reservation_parts w key envelope job event_type now ss h =
    let (audit, e1, h1) =
      >>=-eq-ok
        (append_audit_event w event_type (id_of_job job) "accepted"
          (or_else w.affected_objects (job_objects (id_of_job job)))
          (some (obj (field "action" (str "accepted") end))) now)
        _ h in
    let (fingerprint, e2, h2) = >>=-eq-ok (normalize_text w.request_fingerprint) _ h1 in
    let (last, e3, h3) = >>=-eq-ok (job_statements job) _ h2 in
    (insert_audit_event audit, fingerprint, last, e2, sym (ok_inj h3))

answer_existing_not_accepted :
    (w : Write) (key : DedupeKey) (found : Option DedupeRow) (e : Envelope) (id : Option String)
    → answer_existing w key found ≢ ok (accepted e id)
answer_existing_not_accepted w key none e id h = cc
answer_existing_not_accepted w key (some row) e id h =
    elim (Bool-cases (str_eq row.request_fingerprint w.request_fingerprint)) [
      | inl t ↦ let bad = rw t at h in cc
      | inr f ↦ let bad = rw f at h in cc
    ]

accepted_inj : {e e' : Envelope} {i i' : Option String} → accepted e i ≡ accepted e' i' → i ≡ i'
accepted_inj h = cc

-- Only a batch that ran accepts.
pub run_reservation-accepted :
    (w : Write) (key : DedupeKey) (e e' : Envelope) (job : Option Job) (id : Option String)
    (p q : Plane) (ran : Option Plane)
    → run_reservation w key e job p ran ≡ ok (accepted e' id, q)
    → (ran ≡ some q) × (id ≡ id_of_job job)
run_reservation-accepted w key e e' job id p q none h =
    let (o, e1, h1) =
      >>=-eq-ok (answer_existing w key (find_dedupe key p.request_dedupe_projection)) _ h in
    let out : (o, p) ≡ (accepted e' id, q) = ok_inj h1 in
    let same : o ≡ accepted e' id = ap (λ t. t.0) out in
    absurd (answer_existing_not_accepted w key _ e' id (e1 ∙ ap ok same))
run_reservation-accepted w key e e' job id p q (some r) h =
    let out : ◌≡◌ {A = WriteOutcome × Plane} (accepted e (id_of_job job), r) (accepted e' id, q) =
      ok_inj h in
    (ap (λ t. some (t.1)) out, sym (accepted_inj (ap (λ t. t.0) out)))

pub reserve_takes :
    (w : Write) (e e' : Envelope) (job : Option Job) (event_type now fingerprint : String)
    (id : Option String) (key : DedupeKey) (p q : Plane)
    → write_key w ≡ ok key
    → normalize_text w.request_fingerprint ≡ ok fingerprint
    → reserve_idempotent_write w e job event_type now p ≡ ok (accepted e' id, q)
    → IsTaken key fingerprint id q
unfolding reserve_idempotent_write reserved_row
reserve_takes w e e' job event_type now fingerprint id key p q known print h =
    let (key', e1, h1) = >>=-eq-ok (write_key w) _ h in
    let (ss, e2, h2) = >>=-eq-ok (reservation w key' e job event_type now) _ h1 in
    let (ran, whose) = run_reservation-accepted w key' e e' job id p q (batch ss p) h2 in
    let (audit, f, last, e3, shape) = reservation_parts w key' e job event_type now ss e2 in
    let same_key : key' ≡ key = ok_inj (sym e1 ∙ known) in
    let same_print : f ≡ fingerprint = ok_inj (sym e3 ∙ print) in
    let taken =
      batch_takes audit (reserved_row w key' e job f now) last p q
        (ap (λ l. batch l p) (sym shape) ∙ ran) in
    subst (λ i. IsTaken key fingerprint i q) (sym whose)
      (subst (λ k. IsTaken k fingerprint (id_of_job job) q) same_key
        (subst (λ g. IsTaken key' g (id_of_job job) q) same_print taken))

-- Under a key that is taken the reservation comes down to the row that is there.
pub refused_reservation :
    (w : Write) (e : Envelope) (job : Option Job) (event_type now : String) (key : DedupeKey)
    (fingerprint : String) (id : Option String) (ss : List Statement) (p : Plane)
    → IsTaken key fingerprint id p
    → write_key w ≡ ok key
    → reservation w key e job event_type now ≡ ok ss
    → reserve_idempotent_write w e job event_type now p
      ≡ (answer_existing w key (find_dedupe key p.request_dedupe_projection) >>= unchanged p)
unfolding reserve_idempotent_write reserved_row
refused_reservation w e job event_type now key fingerprint id ss p taken known bound =
    let (audit, f, last, e3, shape) = reservation_parts w key e job event_type now ss bound in
    let refused : batch ss p ≡ none =
      ap (λ l. batch l p) shape
      ∙ batch_refused audit (reserved_row w key e job f now) last fingerprint id p taken in
    ap
      (λ m. m >>= (λ k.
        reservation w k e job event_type now >>= (λ l. run_reservation w k e job p (batch l p))))
      known
    ∙ ap (λ m. m >>= (λ l. run_reservation w key e job p (batch l p))) bound
    ∙ ap (run_reservation w key e job p) refused
