-- ===== src/ControlPlane/Reopening.antt =====
-- Cancellations of jobs at their end.
use matrix_flare.Prelude.{
  String, true, Option, none, some, List, [], ◌∷◌, map, is_some, or_else, ◌≡◌, refl, sym, ap, ◌∙◌,
  inl, inr, eq_refl, Bool-cases, ok, >>=-eq-ok, ok_inj,
}
use matrix_flare.Json.{Json, field, end, str, obj, normalize_text}
use matrix_flare.ControlPlane.Tables.{
  JobState, Job, Payload, Envelope, DedupeRow, AuditEvent, Plane, insert_audit_event,
  insert_dedupe_record, find_dedupe, find_job, updated_job, batch, exec,
}
use matrix_flare.ControlPlane.Jobs.{
  is_terminal, is_cancel_requested, with_state, update_job_state, state_name,
}
use matrix_flare.ControlPlane.Ledger.{
  Write, WriteOutcome, accepted, replay, conflict, write_key, reservation, append_audit_event,
  job_objects, reserve_idempotent_write, finalize_reserved_write,
}
use matrix_flare.ControlPlane.Reservations.{run_reservation-accepted}
use matrix_flare.ControlPlane.Cancel.{
  CancelAnswer, canceling, earlier, cancel_write, canceled_state, canceled_row, accepted_envelope,
  state_details, after_reservation, cancel_job_request,
}
use matrix_flare.ControlPlane.Queue.{Delivery, message_update}
use matrix_flare.ControlPlane.Process.{process_job, process_queue_message}
use matrix_flare.ControlPlane.Shards.{find_job-updated_job}
use matrix_flare.ControlPlane.Completion.{updated_job_state}

two_rows_jobs :
    (a : AuditEvent) (r : DedupeRow) (p q : Plane)
    → batch (insert_audit_event a ∷ insert_dedupe_record r ∷ []) p ≡ some q
    → q.jobs ≡ p.jobs
unfolding batch exec
two_rows_jobs a r p q h =
    elim (Bool-cases (is_some (find_dedupe r.key p.request_dedupe_projection))) [
      | inl e ↦ let bad : none ≡ some q = rw (batch, exec, e) at h in cc
      | inr e ↦ let out = rw (batch, exec, e) at h in sym (ap jobs_of out)
    ]
  where
    jobs_of : Option Plane → List Job
    jobs_of none = []
    jobs_of (some x) = x.jobs

-- A write that accepts no job leaves the jobs.
reserve_jobs :
    (w : Write) (e e' : Envelope) (event_type now : String) (id : Option String) (p q : Plane)
    → reserve_idempotent_write w e none event_type now p ≡ ok (accepted e' id, q)
    → q.jobs ≡ p.jobs
unfolding reserve_idempotent_write reservation
reserve_jobs w e e' event_type now id p q h =
    let (key, e1, h1) = >>=-eq-ok (write_key w) _ h in
    let (ss, e2, h2) = >>=-eq-ok (reservation w key e none event_type now) _ h1 in
    let (ran, whose) = run_reservation-accepted w key e e' none id p q (batch ss p) h2 in
    let (audit, e3, h3) =
      >>=-eq-ok
        (append_audit_event w event_type none "accepted" (or_else w.affected_objects [])
          (some (obj (field "action" (str "accepted") end))) now)
        _ e2 in
    let (fingerprint, e4, h4) = >>=-eq-ok (normalize_text w.request_fingerprint) _ h3 in
    two_rows_jobs audit _ p q (ap (λ l. batch l p) (ok_inj h4) ∙ ran)

finalize_jobs :
    (w : Write) (final : Envelope) (code : String) (job_id : Option String) (event_type : String)
    (details : Option Json) (now : String) (p q : Plane)
    → finalize_reserved_write w final code job_id event_type details now p ≡ ok q
    → q.jobs ≡ p.jobs
unfolding finalize_reserved_write batch exec
finalize_jobs w final code job_id event_type details now p q h =
    let (key, e1, h1) = >>=-eq-ok (write_key w) _ h in
    let (code', e2, h2) = >>=-eq-ok (normalize_text code) _ h1 in
    let (audit, e3, h3) =
      >>=-eq-ok
        (append_audit_event w event_type job_id code
          (or_else w.affected_objects (job_objects job_id)) details now)
        _ h2 in
    sym (ap (λ (x : Plane). x.jobs) (ok_inj h3))

-- A cancellation that ran without a precondition has written its row.
canceling_jobs :
    (w : Write) (job : Job) (reason now : String) (e : Envelope) (p q : Plane)
    → cancel_job_request w job none reason now p ≡ ok (canceling e, q)
    → q.jobs ≡ map (updated_job (canceled_row job reason now)) p.jobs
unfolding cancel_job_request
canceling_jobs w job reason now e p q h =
    let ((o, p1), e1, h1) =
      >>=-eq-ok
        (reserve_idempotent_write (cancel_write w job)
          (accepted_envelope job now JobState.cancel_requested) none "job.cancel.accepted" now p)
        _ h in
    written o p1 e1 h1
  where
    written :
        (o : WriteOutcome) (p1 : Plane)
        → reserve_idempotent_write
            (cancel_write w job)
            (accepted_envelope job now JobState.cancel_requested)
            none
            "job.cancel.accepted"
            now
            p
          ≡ ok (o, p1)
        → after_reservation (cancel_write w job) job none reason now (o, p1) ≡ ok (canceling e, q)
        → q.jobs ≡ map (updated_job (canceled_row job reason now)) p.jobs
    written (accepted e' id) p1 e1 h1 =
        let (p2, e2, h2) =
          >>=-eq-ok
            (finalize_reserved_write (cancel_write w job)
              (accepted_envelope job now (canceled_state job.internal_state))
              (state_name (canceled_state job.internal_state)) (some job.job_id)
              "job.cancel.succeeded" (some (state_details job (canceled_state job.internal_state)))
              now record p1 { jobs = map (updated_job (canceled_row job reason now)) p1.jobs })
            _ h1 in
        let last : p2 ≡ q = ap (λ (t : CancelAnswer × Plane). t.1) (ok_inj h2) in
        ap (λ (x : Plane). x.jobs) (sym last)
        ∙ finalize_jobs (cancel_write w job)
            (accepted_envelope job now (canceled_state job.internal_state))
            (state_name (canceled_state job.internal_state)) (some job.job_id)
            "job.cancel.succeeded" (some (state_details job (canceled_state job.internal_state)))
            now record p1 { jobs = map (updated_job (canceled_row job reason now)) p1.jobs } p2 e2
        ∙ ap (map (updated_job (canceled_row job reason now))) (
            reserve_jobs (cancel_write w job) (accepted_envelope job now JobState.cancel_requested)
              e' "job.cancel.accepted" now id p p1 e1)
    written (replay e' id) p1 e1 h1 = absurd (
        let bad : ◌≡◌ {A = CancelAnswer} (earlier (replay e' id)) (canceling e) =
          ap (λ (t : CancelAnswer × Plane). t.0) (ok_inj h1) in
        cc)
    written (conflict status code token) p1 e1 h1 = absurd (
        let bad : ◌≡◌ {A = CancelAnswer} (earlier (conflict status code token)) (canceling e) =
          ap (λ (t : CancelAnswer × Plane). t.0) (ok_inj h1) in
        cc)

canceled_state_terminal :
    (s : JobState) → is_terminal s ≡ true → canceled_state s ≡ JobState.cancel_requested
canceled_state_terminal JobState.completed h = refl
canceled_state_terminal JobState.finalized h = refl
canceled_state_terminal JobState.failed h = refl
canceled_state_terminal JobState.canceled h = refl
canceled_state_terminal JobState.pending h = cc
canceled_state_terminal JobState.checkpointed h = cc
canceled_state_terminal JobState.scanning h = refl
canceled_state_terminal JobState.applying h = refl
canceled_state_terminal JobState.materializing h = refl
canceled_state_terminal JobState.uploading h = refl
canceled_state_terminal JobState.validating h = refl
canceled_state_terminal JobState.importing h = refl
canceled_state_terminal JobState.cutover_ready h = refl
canceled_state_terminal JobState.cutover h = refl
canceled_state_terminal JobState.verifying h = refl
canceled_state_terminal JobState.cancel_requested h = refl

-- A message finds its job to be canceled.
process_queue_message_cancel :
    (d : Delivery) (m : Payload) (job : Job) (p : Plane)
    → find_job m.job_id p.jobs ≡ some job
    → job.internal_state ≡ JobState.cancel_requested
    → (after : Job) × (find_job m.job_id (process_queue_message d m p).1.jobs ≡ some after)
      × (after.internal_state ≡ JobState.canceled)
unfolding process_queue_message update_job_state with_state
process_queue_message_cancel d m job p found asked =
    let u =
      message_update d JobState.canceled (field "canceled_from_queue" (Json.bool true) end)
        (some (field "canceled_from_queue" (str d.queue_name) end)) none
        (some (obj (field "canceled" (Json.bool true) end))) in
    let new = with_state job u d.now in
    let flag : is_cancel_requested job.internal_state ≡ true = ap is_cancel_requested asked in
    let jobs : (process_queue_message d m p).1.jobs ≡ map (updated_job new) p.jobs =
      ap (λ o. (process_job d m o p).1.jobs) found ∙ rw flag refl in
    (
      updated_job new job,
      ap (find_job m.job_id) jobs ∙ find_job-updated_job m.job_id new p.jobs job found,
      updated_job_state new job (eq_refl job.job_id),
    )

-- A job at its end, a completed one too, is put to be canceled by a cancellation that names no states,
-- and the next message of the job makes it a canceled one.
pub cancel_job_request_reopens :
    (w : Write) (d : Delivery) (m : Payload) (job : Job) (reason now : String) (e : Envelope)
    (p q : Plane)
    → find_job job.job_id p.jobs ≡ some job
    → is_terminal job.internal_state ≡ true
    → m.job_id ≡ job.job_id
    → cancel_job_request w job none reason now p ≡ ok (canceling e, q)
    → (asked : Job) × (canceled : Job) × (find_job job.job_id q.jobs ≡ some asked)
      × (asked.internal_state ≡ JobState.cancel_requested)
      × (find_job job.job_id (process_queue_message d m q).1.jobs ≡ some canceled)
      × (canceled.internal_state ≡ JobState.canceled)
cancel_job_request_reopens w d m job reason now e p q found ended same h =
    let row = canceled_row job reason now in
    let there : find_job job.job_id q.jobs ≡ some (updated_job row job) =
      ap (find_job job.job_id) (canceling_jobs w job reason now e p q h)
      ∙ find_job-updated_job job.job_id row p.jobs job found in
    let state : (updated_job row job).internal_state ≡ JobState.cancel_requested =
      updated_job_state row job (eq_refl job.job_id)
      ∙ canceled_state_terminal job.internal_state ended in
    let (canceled, after, c) =
      process_queue_message_cancel d m (updated_job row job) q
        (ap (λ i. find_job i q.jobs) same ∙ there) state in
    (
      updated_job row job,
      canceled,
      there,
      state,
      ap (λ i. find_job i (process_queue_message d m q).1.jobs) (sym same) ∙ after,
      c,
    )
