-- ===== src/ControlPlane/Completion.antt =====
-- What a message that was processed has made of its shard and of its job.
use matrix_flare.Prelude.{
  ℕ, String, Bool, true, false, not, ◌&&◌, none, some, str_eq, leb, max, ◌≡◌, refl, sym, ap, ◌∙◌,
  subst, inl, inr, arith, eq_iff, Bool-cases, Option-cases,
}
use matrix_flare.Json.{Json}
use matrix_flare.ControlPlane.Scopes.{Scope}
use matrix_flare.ControlPlane.Tables.{
  Job, Payload, CheckpointRow, Plane, find_job, find_checkpoint, upsert_checkpoint, updated_job,
}
use matrix_flare.ControlPlane.Jobs.{is_terminal, is_cancel_requested, with_state, update_job_state}
use matrix_flare.ControlPlane.Queue.{
  Queue, export, restore, rebuild, repair, Attempt, raised, done, Finished, Delivery, AnswerReason,
  checkpoint_already_complete, processed, Handled, is_export, terminal_state, shard_of,
  is_supported_export, is_complete, completed_units, total_units, all_complete, after_bundle,
}
use matrix_flare.ControlPlane.Process.{
  completed_row, shard_state, completed_update, complete_shard, is_in_running_state, running_update,
  running_job, running_plane, process_staged, process_shard, process_job, process_queue_message,
}
use matrix_flare.ControlPlane.Shards.{
  find_job_id, find_job-updated_job, find_checkpoint_key, upsert_checkpoint-eq,
  find_checkpoint-upsert_checkpoint,
}
use matrix_flare.ControlPlane.Redelivery.{
  answer_of, process_queue_message_complete, process_staged-processed,
}

module _ (d : Delivery) where
  pub terminal_state_terminal : (queue : Queue) → is_terminal (terminal_state queue) ≡ true
  terminal_state_terminal export = refl
  terminal_state_terminal restore = refl
  terminal_state_terminal rebuild = refl
  terminal_state_terminal repair = refl

  next_state_settled : (last : Bool) → (last && not (is_terminal (shard_state d last))) ≡ false
  next_state_settled true = rw (terminal_state_terminal d.queue) refl
  next_state_settled false = refl

  pub terminal_state_live : (queue : Queue) → is_cancel_requested (terminal_state queue) ≡ false
  terminal_state_live export = refl
  terminal_state_live restore = refl
  terminal_state_live rebuild = refl
  terminal_state_live repair = refl

  next_state_live : (last : Bool) → is_cancel_requested (shard_state d last) ≡ false
  next_state_live true = terminal_state_live d.queue
  next_state_live false = refl

  running_job_id : (job : Job) → (running_job d job).job_id ≡ job.job_id
  running_job_id job = elim (Bool-cases (is_in_running_state d job)) [
    | inl e ↦ rw e refl
    | inr e ↦ rw e refl
  ]

  pub running_job_total : (job : Job) → total_units (running_job d job) ≡ total_units job
  running_job_total job = elim (Bool-cases (is_in_running_state d job)) [
    | inl e ↦ rw e refl
    | inr e ↦ rw e refl
  ]

  pub running_plane_checkpoints :
      (job : Job) (p : Plane) → (running_plane d job p).job_checkpoints ≡ p.job_checkpoints
  unfolding update_job_state
  running_plane_checkpoints job p = elim (Bool-cases (is_in_running_state d job)) [
    | inl e ↦ rw e refl
    | inr e ↦ rw e refl
  ]

  running_plane_job :
      (job : Job) (p : Plane) (id : String)
      → find_job id p.jobs ≡ some job
      → (r : Job) × (find_job id (running_plane d job p).jobs ≡ some r)
  unfolding update_job_state
  running_plane_job job p id h = elim (Bool-cases (is_in_running_state d job)) [
    | inl e ↦ (job, rw e h)
    | inr e ↦ (
      updated_job (with_state job (running_update d) d.now) job,
      rw e (find_job-updated_job id (with_state job (running_update d) d.now) p.jobs job h),
    )
  ]

  after_bundle-processed :
      (a : Attempt (Unit {0})) (before after q : Plane)
      → after_bundle d a processed before after ≡ (done processed, q)
      → after ≡ q
  after_bundle-processed (raised e) before after q h =
      let bad : ◌≡◌ {A = Attempt AnswerReason} (raised e) (done processed) = ap answer_of h in cc
  after_bundle-processed (done u) before after q h = ap (λ (o : Handled). o.1) h

  complete_shard-processed :
      (row : CheckpointRow) (job : Job) (f : Finished) (p q : Plane)
      → complete_shard d row job f p ≡ (done processed, q)
      → update_job_state job
          (completed_update d job row f (upsert_checkpoint (completed_row d row f) p))
          d.now
          (upsert_checkpoint (completed_row d row f) p)
        ≡ q
  unfolding complete_shard
  complete_shard-processed row job f p q h =
      after_bundle-processed _ (upsert_checkpoint (completed_row d row f) p) _ q h

pub max_again : (n : ℕ) → max (max n 1) 1 ≡ max n 1
max_again n = omega arith

-- What the request of a job asked for.
abbrev pub Asked : Type 0
Asked = Scope × Json

abbrev pub asked_of : Job → Asked
asked_of job = (job.scope, job.spec)

module _ (j r : Job) (same : str_eq r.job_id j.job_id ≡ true) where
  pub updated_job_state : (updated_job j r).internal_state ≡ j.internal_state
  updated_job_state = rw same refl

  pub updated_job_total : (updated_job j r).progress_total_units ≡ j.progress_total_units
  updated_job_total = rw same refl

  pub updated_job_asked : asked_of (updated_job j r) ≡ asked_of j
  updated_job_asked = rw same refl

-- The job and the shard after the message: the shard is complete, and the job has the state of a job
-- whose shards are all complete, or not all.
pub record IsDone (d : Delivery) (m : Payload) (row : CheckpointRow) (job : Job) (q : Plane)
    : Type 0 where
  pub after : Job
  pub shard : CheckpointRow
  pub job_found : find_job m.job_id q.jobs ≡ some after
  pub shard_found : find_checkpoint (shard_of m.job_id m) q.job_checkpoints ≡ some shard
  pub shard_complete : is_complete shard ≡ true
  pub shard_key : shard.key ≡ row.key
  pub asked_kept : asked_of after ≡ asked_of job
  pub total_kept : after.progress_total_units ≡ total_units job
  pub state :
      after.internal_state ≡ shard_state d (leb (total_units job) (completed_units m.job_id q))

module _ (d : Delivery) (m : Payload) (job : Job) (row : CheckpointRow) (f : Finished)
    (p q : Plane) where
  complete_shard-IsDone :
      job.job_id ≡ m.job_id
      → ((r : Job) × (find_job m.job_id p.jobs ≡ some r))
      → find_checkpoint (shard_of m.job_id m) p.job_checkpoints ≡ some row
      → complete_shard d row job f p ≡ (done processed, q)
      → IsDone d m row job q
  unfolding completed_units update_job_state is_complete with_state
  complete_shard-IsDone ours (r, found) staged h =
      let new = completed_row d row f in
      let p2 = upsert_checkpoint new p in
      let u = completed_update d job row f p2 in
      let q_eq : update_job_state job u d.now p2 ≡ q = complete_shard-processed d row job f p q h in
      let key : row.key ≡ shard_of m.job_id m =
        find_checkpoint_key _ p.job_checkpoints row staged in
      let there : find_checkpoint row.key p.job_checkpoints ≡ some row =
        ap (λ k. find_checkpoint k p.job_checkpoints) key ∙ staged in
      let jobs2 : p2.jobs ≡ p.jobs =
        ap (λ (x : Plane). x.jobs) (upsert_checkpoint-eq new row p there) in
      let shard = find_checkpoint-upsert_checkpoint new row p there in
      let same : str_eq r.job_id job.job_id ≡ true =
        (eq_iff r.job_id job.job_id).1 (find_job_id m.job_id p.jobs r found ∙ sym ours) in
      let found2 : find_job m.job_id p2.jobs ≡ some r = ap (find_job m.job_id) jobs2 ∙ found in
      subst (IsDone d m row job) q_eq record {
        after = updated_job (with_state job u d.now) r;
        shard = record row { checkpoint = new.checkpoint; updated_at = d.now };
        job_found = find_job-updated_job m.job_id (with_state job u d.now) p2.jobs r found2;
        shard_found = ap (λ k. find_checkpoint k p2.job_checkpoints) (sym key) ∙ shard;
        shard_complete = refl;
        shard_key = refl;
        asked_kept = updated_job_asked (with_state job u d.now) r same;
        total_kept = updated_job_total (with_state job u d.now) r same;
        state =
            updated_job_state (with_state job u d.now) r same
            ∙ ap (λ i. shard_state d (leb (total_units job) (completed_units i p2))) ours;
      }

module _ (d : Delivery) (m : Payload) where
  -- A message that was processed finds its job, which was not to be canceled, and its shard.
  process_queue_message_inversion :
      (p q : Plane)
      → process_queue_message d m p ≡ (done processed, q)
      → (job : Job) × (row : CheckpointRow) × (find_job m.job_id p.jobs ≡ some job)
        × (find_checkpoint (shard_of m.job_id m) p.job_checkpoints ≡ some row)
        × (process_staged d m job row p ≡ (done processed, q))
  unfolding process_queue_message
  process_queue_message_inversion p q h = elim (Option-cases (find_job m.job_id p.jobs)) [
    | inl e ↦ absurd (
        let bad : answer_of (process_job d m none p) ≡ done processed =
          ap answer_of (rw (process_queue_message, e) at h) in
        cc)
    | inr (job, e) ↦
        let h1 : process_job d m (some job) p ≡ (done processed, q) =
          rw (process_queue_message, e) at h in
        elim (Bool-cases (is_cancel_requested job.internal_state)) [
          | inl c ↦ absurd (let bad = ap answer_of (rw c at h1) in cc)
          | inr c ↦
              let ours = find_job_id m.job_id p.jobs job e in
              let h2 : process_shard d m job
                    (find_checkpoint (shard_of m.job_id m) p.job_checkpoints) p
                  ≡ (done processed, q) =
                ap (λ i. process_shard d m job (find_checkpoint (shard_of i m) p.job_checkpoints) p)
                  (sym ours)
                ∙ (rw c at h1) in
              elim (Option-cases (find_checkpoint (shard_of m.job_id m) p.job_checkpoints)) [
                | inl n ↦ absurd (let bad = ap answer_of (rw n at h2) in cc)
                | inr (row, s) ↦ (job, row, e, s, (rw s at h2))
              ]
        ]
  ]

  pub process_queue_message-IsDone :
      (p q : Plane)
      → process_queue_message d m p ≡ (done processed, q)
      → (job : Job) × (row : CheckpointRow) × (find_job m.job_id p.jobs ≡ some job)
        × ((is_export d.queue && not (is_supported_export row.key)) ≡ false)
        × IsDone d m row (running_job d job) q
  process_queue_message-IsDone p q h =
      let (job, row, hj, hc, ran) = process_queue_message_inversion p q h in
      let (supported, (f, shape)) = process_staged-processed d m job row p (ap answer_of ran) in
      (
        job,
        row,
        hj,
        supported,
        complete_shard-IsDone d m (running_job d job) row f (running_plane d job p) q
            (running_job_id d job ∙ find_job_id m.job_id p.jobs job hj)
            (running_plane_job d job p m.job_id hj)
            (ap (find_checkpoint (shard_of m.job_id m)) (running_plane_checkpoints d job p) ∙ hc)
            (sym shape ∙ ran),
      )

  -- A message that is delivered again after it was processed changes nothing, whatever the time of the
  -- second delivery and whatever its work would come to: it is acknowledged as complete already.
  pub process_queue_message_again :
      (again : Delivery) (p q : Plane)
      → again.queue ≡ d.queue
      → process_queue_message d m p ≡ (done processed, q)
      → process_queue_message again m q ≡ (done checkpoint_already_complete, q)
  process_queue_message_again again p q same h =
      let (found, row, hj, supported, D) = process_queue_message-IsDone p q h in
      let job = running_job d found in
      let last = leb (total_units job) (completed_units m.job_id q) in
      let count : all_complete D.after q ≡ last =
        ap (λ t. leb (max t 1) (completed_units D.after.job_id q)) D.total_kept
        ∙ ap (λ t. leb t (completed_units D.after.job_id q)) (max_again job.progress_total_units)
        ∙ ap (λ i. leb (total_units job) (completed_units i q))
            (find_job_id m.job_id q.jobs D.after D.job_found) in
      let idle : (all_complete D.after q && not (is_terminal D.after.internal_state)) ≡ false =
        ap (λ b. b && not (is_terminal D.after.internal_state)) count
        ∙ ap (λ s. last && not (is_terminal s)) D.state
        ∙ next_state_settled d last in
      let allowed : (is_export again.queue && not (is_supported_export D.shard.key)) ≡ false =
        ap (λ k. is_export again.queue && not (is_supported_export k)) D.shard_key
        ∙ ap (λ k. is_export k && not (is_supported_export row.key)) same
        ∙ supported in
      process_queue_message_complete again m D.after D.shard q D.job_found
        (ap is_cancel_requested D.state ∙ next_state_live d last) D.shard_found D.shard_complete
        allowed idle
