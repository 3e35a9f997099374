-- ===== src/ControlPlane/Answers.antt =====
-- How requests under a key that is taken are answered.
use matrix_flare.Prelude.{
  String, true, Option, some, List, map, str_eq, ◌≡◌, ◌≢◌, refl, sym, ap, ◌∙◌, inl, inr, eq_iff,
  Bool-cases, ok, ◌>>=◌, >>=-eq-ok, ok_inj, or_else,
}
use matrix_flare.Prelude.Finds.{find-map-some}
use matrix_flare.Prelude.Members.{find-member}
use matrix_flare.Json.{Json, normalize_text}
use matrix_flare.ControlPlane.Tables.{
  Job, Envelope, DedupeKey, DedupeRow, Plane, find_dedupe, Statement, batch, exec, same_dedupe_key,
  updated_dedupe,
}
use matrix_flare.ControlPlane.Ledger.{
  Write, WriteOutcome, accepted, replay, conflict, write_key, reservation, append_audit_event,
  job_objects, answer_existing, unchanged, reserve_idempotent_write, finalize_reserved_write,
}
use matrix_flare.ControlPlane.Rows.{
  IsTaken, updated_dedupe_key, updated_dedupe_fingerprint, updated_dedupe_job,
}
use matrix_flare.ControlPlane.Reservations.{Runs, Runs-IsTaken, reserve_takes, refused_reservation}

-- An answer that refers to an earlier request: with its fingerprint a replay that names its job, and
-- with another fingerprint a conflict.
abbrev pub Refers : String → Option String → Write → WriteOutcome → Type 0
Refers fingerprint job w (accepted envelope id) = ⊥
Refers fingerprint job w (replay envelope id) = (w.request_fingerprint ≡ fingerprint) × (id ≡ job)
Refers fingerprint job w (conflict status code token) =
    (w.request_fingerprint ≢ fingerprint) × (status ≡ 409) × (code ≡ "idempotency_conflict")

answer_existing-Refers :
    (fingerprint : String) (job : Option String) (w : Write) (key : DedupeKey) (row : DedupeRow)
    → row.request_fingerprint ≡ fingerprint
    → row.job_id ≡ job
    → (o : WriteOutcome) × (answer_existing w key (some row) ≡ ok o) × Refers fingerprint job w o
answer_existing-Refers fingerprint job w key row f j =
    elim (Bool-cases (str_eq row.request_fingerprint w.request_fingerprint)) [
      | inl t ↦ (
        replay row.response_payload row.job_id,
        rw t refl,
        (sym ((eq_iff row.request_fingerprint w.request_fingerprint).0 t) ∙ f, j),
      )
      | inr t ↦ (
        conflict 409 "idempotency_conflict" key.scope_token,
        rw t refl,
        (
          λ same.
              (let bad = (eq_iff row.request_fingerprint w.request_fingerprint).1 (f ∙ sym same) in
                cc),
          refl,
          refl,
        ),
      )
    ]

replayed :
    (w : Write) (key : DedupeKey) (row : DedupeRow) (p : Plane)
    → str_eq row.request_fingerprint w.request_fingerprint ≡ true
    → (answer_existing w key (some row) >>= unchanged p)
      ≡ ok (replay row.response_payload row.job_id, p)
replayed w key row p t = rw t refl

updated_dedupe_same :
    (k : DedupeKey) (code : String) (payload : Envelope) (at : String) (r : DedupeRow)
    → same_dedupe_key r.key k ≡ true
    → updated_dedupe k code payload at r
      ≡ record r { result_code = code; response_payload = payload; updated_at = at }
updated_dedupe_same k code payload at r e = rw e refl

-- The row under a key that is taken, after its answer was kept.
finalized_row :
    (w : Write) (final : Envelope) (result_code : String) (final_job : Option String)
    (final_type final_now : String) (details : Option Json) (key : DedupeKey) (fingerprint : String)
    (id : Option String) (q r : Plane)
    → write_key w ≡ ok key
    → IsTaken key fingerprint id q
    → finalize_reserved_write w final result_code final_job final_type details final_now q ≡ ok r
    → (row : DedupeRow) × (find_dedupe key r.request_dedupe_projection ≡ some row)
      × (row.request_fingerprint ≡ fingerprint)
      × (row.job_id ≡ id)
      × (row.response_payload ≡ final)
unfolding finalize_reserved_write batch exec find_dedupe
finalized_row w final result_code final_job final_type final_now details key fingerprint id q r
      known taken kept =
    let (key', e1, h1) = >>=-eq-ok (write_key w) _ kept in
    let (code, e2, h2) = >>=-eq-ok (normalize_text result_code) _ h1 in
    let (audit, e3, h3) =
      >>=-eq-ok
        (append_audit_event w final_type final_job result_code
          (or_else w.affected_objects (job_objects final_job)) details final_now)
        _ h2 in
    let same_key : key' ≡ key = ok_inj (sym e1 ∙ known) in
    let out = ok_inj h3 in
    let rows : map (updated_dedupe key code final final_now) q.request_dedupe_projection
        ≡ r.request_dedupe_projection =
      ap (λ k. map (updated_dedupe k code final final_now) q.request_dedupe_projection)
        (sym same_key)
      ∙ ap (λ (x : Plane). x.request_dedupe_projection) out in
    let (row, found, f, j) = taken in
    let (_, ours) =
      find-member (λ r. same_dedupe_key r.key key) q.request_dedupe_projection row found in
    let found' =
      find-map-some (λ r. same_dedupe_key r.key key) (updated_dedupe key code final final_now)
        (updated_dedupe_key key code final final_now key) q.request_dedupe_projection row found in
    let new = updated_dedupe_same key code final final_now row ours in
    (
      updated_dedupe key code final final_now row,
      ap (find_dedupe key) (sym rows) ∙ found',
      updated_dedupe_fingerprint key code final final_now row ∙ f,
      updated_dedupe_job key code final final_now row ∙ j,
      ap (λ (x : DedupeRow). x.response_payload) new,
    )

module _ (w w' : Write) (e e' e0 : Envelope) (job job' : Option Job)
    (event_type event_type' now now' : String) where
  -- A key is accepted once: whatever batches run after a request was accepted under it, a later request
  -- under the same key whose statements can be bound is answered, changes no table, and gets a replay
  -- that names the job of the first if its fingerprint is that of the first, and a conflict if not.
  pub reserve_idempotent_write_once :
      (key : DedupeKey) (fingerprint : String) (id : Option String) (ss : List Statement)
      (p q r : Plane)
      → write_key w ≡ ok key
      → normalize_text w.request_fingerprint ≡ ok fingerprint
      → reserve_idempotent_write w e job event_type now p ≡ ok (accepted e0 id, q)
      → Runs q r
      → write_key w' ≡ ok key
      → reservation w' key e' job' event_type' now' ≡ ok ss
      → (o : WriteOutcome) × (reserve_idempotent_write w' e' job' event_type' now' r ≡ ok (o, r))
        × Refers fingerprint id w' o
  reserve_idempotent_write_once key fingerprint id ss p q r known print first runs known' bound =
      let taken =
        Runs-IsTaken key fingerprint id
          (reserve_takes w e e0 job event_type now fingerprint id key p q known print first) runs in
      let (row, found, f, j) = taken in
      let (o, answered, refers) = answer_existing-Refers fingerprint id w' key row f j in
      (
        o,
        refused_reservation w' e' job' event_type' now' key fingerprint id ss r taken known' bound
            ∙ ap (λ m. answer_existing w' key m >>= unchanged r) found
            ∙ ap (λ m. m >>= unchanged r) answered,
        refers,
      )

  -- Once the answer to the request is kept, a repeated request gets it.
  pub reserve_idempotent_write-finalize_reserved_write :
      (final : Envelope) (result_code : String) (final_job : Option String)
      (final_type final_now : String) (details : Option Json) (key : DedupeKey)
      (fingerprint : String) (id : Option String) (ss : List Statement) (p q r : Plane)
      → write_key w ≡ ok key
      → normalize_text w.request_fingerprint ≡ ok fingerprint
      → reserve_idempotent_write w e job event_type now p ≡ ok (accepted e0 id, q)
      → finalize_reserved_write w final result_code final_job final_type details final_now q ≡ ok r
      → write_key w' ≡ ok key
      → reservation w' key e' job' event_type' now' ≡ ok ss
      → w'.request_fingerprint ≡ fingerprint
      → reserve_idempotent_write w' e' job' event_type' now' r ≡ ok (replay final id, r)
  reserve_idempotent_write-finalize_reserved_write final result_code final_job final_type final_now
        details key fingerprint id ss p q r known print first kept known' bound same =
      let taken =
        reserve_takes w e e0 job event_type now fingerprint id key p q known print first in
      let (row, found, f, j, shown) =
        finalized_row w final result_code final_job final_type final_now details key fingerprint id
          q r known taken kept in
      let equal : str_eq row.request_fingerprint w'.request_fingerprint ≡ true =
        (eq_iff row.request_fingerprint w'.request_fingerprint).1 (f ∙ sym same) in
      refused_reservation w' e' job' event_type' now' key fingerprint id ss r (row, found, f, j)
        known' bound
      ∙ ap (λ m. answer_existing w' key m >>= unchanged r) found
      ∙ replayed w' key row r equal
      ∙ ap (λ o. ok (o, r)) (ap (λ x. replay x row.job_id) shown ∙ ap (replay final) j)
