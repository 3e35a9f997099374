-- ===== src/ControlPlane/Runs.antt =====
-- A job from the staging of its shards to its end.
use matrix_flare.Prelude.{
  ℕ, suc, ◌+◌, String, true, none, some, List, [], ◌∷◌, All, str_eq, max, length, ◌≡◌, refl, ap,
  ◌∙◌, subst, inl, inr, arith, eq_iff, eq_refl, Option-cases,
}
use matrix_flare.Prelude.Members.{
  Member, head, tail, find-member, member-filter, length-filter-lt, All-member,
}
use matrix_flare.ControlPlane.Tables.{
  Job, Payload, CheckpointRow, ShardKey, Plane, find_job, find_checkpoint, list_job_checkpoints,
  same_shard, updated_job,
}
use matrix_flare.ControlPlane.Jobs.{
  is_terminal, is_pending, is_cancel_requested, with_state, update_job_state,
}
use matrix_flare.ControlPlane.Queue.{
  Delivery, terminal_state, shard_of, is_complete, completed_units,
}
use matrix_flare.ControlPlane.Worker.{stage_rows, staged_update, stage_queued_payloads}
use matrix_flare.ControlPlane.Shards.{find_job-updated_job, find_checkpoint_key}
use matrix_flare.ControlPlane.Completion.{
  asked_of, updated_job_asked, updated_job_state, updated_job_total,
}
use matrix_flare.ControlPlane.Underway.{IsPlain, queued_incomplete}
use matrix_flare.ControlPlane.Deliveries.{IsUnderway, IsCovered, deliver}
use matrix_flare.ControlPlane.Finishing.{deliver_finishes}
use matrix_flare.ControlPlane.Staging.{AreDistinct, AreNew, IsStaged, stage_rows-IsStaged}

-- A job without checkpoints has none for any shard.
none_AreNew :
    (id : String) (rows : List CheckpointRow) (ms : List Payload)
    → list_job_checkpoints id rows ≡ []
    → AreNew id ms rows
unfolding list_job_checkpoints find_checkpoint shard_of
none_AreNew id rows [] h = tt
none_AreNew id rows (m ∷ ms) h = (missing, none_AreNew id rows ms h)
  where
    missing : find_checkpoint (shard_of id m) rows ≡ none
    missing = elim (Option-cases (find_checkpoint (shard_of id m) rows)) [
      | inl e ↦ e
      | inr (r, e) ↦
          let (there, _) = find-member (λ x. same_shard x.key (shard_of id m)) rows r e in
          let ours : str_eq r.key.job_id id ≡ true =
            (eq_iff r.key.job_id id).1
              (ap (λ (k : ShardKey). k.job_id) (find_checkpoint_key (shard_of id m) rows r e)) in
          absurd (
            elim (subst (Member r) h
              (member-filter (λ x. str_eq x.key.job_id id) rows r there ours)) [ ])
    ]

within :
    (all ms : List Payload)
    → ((m : Payload) → Member m ms → Member m all)
    → All (λ m. Member m all) ms
within all [] h = tt
within all (m ∷ ms) h = (h m (head refl), within all ms (λ x k. h x (tail k)))

some_member {ℓ} : {A : Type ℓ} {k : ℕ} (xs : List A) → length xs ≡ suc k → (x : A) × Member x xs
some_member [] h = absurd (omega arith)
some_member (x ∷ xs) h = (x, head refl)

module _ (d : Delivery) (job : Job) (first : Payload) (rest : List Payload) (p : Plane)
    (found : find_job job.job_id p.jobs ≡ some job)
    (distinct : AreDistinct job.job_id (first ∷ rest))
    (keyed : (r : CheckpointRow)
      → Member r p.job_checkpoints
      → find_checkpoint r.key p.job_checkpoints ≡ some r)
    (fresh : list_job_checkpoints job.job_id p.job_checkpoints ≡ []) where
  start_of_run :
      IsStaged job.job_id
        (first ∷ rest)
        (0 + length (first ∷ rest))
        (stage_rows d job (first ∷ rest) p).job_checkpoints
      × ((stage_rows d job (first ∷ rest) p).jobs ≡ p.jobs)
  start_of_run =
      stage_rows-IsStaged d job (first ∷ rest) (first ∷ rest) 0 p
        (within (first ∷ rest) (first ∷ rest) (λ m k. k)) distinct
        (none_AreNew job.job_id p.job_checkpoints (first ∷ rest) fresh)
        record {
          keyed = keyed;
          waiting = λ r h. elim (subst (Member r) fresh h) [ ];
          named = λ r h. elim (subst (Member r) fresh h) [ ];
          size = ap length fresh;
        }

  staged-IsUnderway :
      IsUnderway d job.job_id
        (length (first ∷ rest))
        (asked_of job)
        (stage_queued_payloads d job (first ∷ rest) p)
  unfolding stage_queued_payloads update_job_state with_state completed_units
  staged-IsUnderway =
      let (S, jobs) = start_of_run in
      let new = with_state job (staged_update d (first ∷ rest)) d.now in
      let rows =
        list_job_checkpoints job.job_id (stage_rows d job (first ∷ rest) p).job_checkpoints in
      let size : length rows ≡ suc (length rest) = let s = S.size in omega arith in
      let (r, member) = some_member rows size in
      let fewer =
        length-filter-lt is_complete rows r member (queued_incomplete r (S.waiting r member)) in
      let state = updated_job_state new job (eq_refl job.job_id) in
      record {
        job = updated_job new job;
        asked = updated_job_asked new job (eq_refl job.job_id);
        found =
            find_job-updated_job job.job_id new (stage_rows d job (first ∷ rest) p).jobs job
              (ap (find_job job.job_id) jobs ∙ found);
        total = ap (λ t. max t 1) (updated_job_total new job (eq_refl job.job_id)) ∙ (omega arith);
        size = size;
        keyed = S.keyed;
        known = λ r h. inr (S.waiting r h);
        phase = inr (
          (ground arith),
          ap is_terminal state,
          ap is_pending state,
          ap is_cancel_requested state,
        );
      }

  staged-IsCovered :
      (ms : List Payload)
      → All (λ m. Member m ms) (first ∷ rest)
      → IsCovered job.job_id ms (stage_queued_payloads d job (first ∷ rest) p)
  unfolding stage_queued_payloads update_job_state
  staged-IsCovered ms sent r h =
      let (S, jobs) = start_of_run in
      let (m, there, k) = S.named r h in
      inr (m, All-member (λ m. Member m ms) (first ∷ rest) m sent there, k)

  -- A restore or a repair that has no checkpoints yet is staged with payloads of which no two share a
  -- shard. Any messages of the job with each payload among them, in any order and with any repetitions,
  -- bring it to its end, where the work for each of these messages, for this job and what it was asked,
  -- succeeds on a queued shard.
  pub deliver-stage_queued_payloads :
      (ms : List Payload)
      → IsPlain d job.job_id (asked_of job) ms
      → All (λ m. Member m ms) (first ∷ rest)
      → All (λ m. m.job_id ≡ job.job_id) ms
      → (after : Job) × (find_job job.job_id
            (deliver d ms (stage_queued_payloads d job (first ∷ rest) p)).jobs
          ≡ some after)
        × (after.internal_state ≡ terminal_state d.queue)
  deliver-stage_queued_payloads ms plain sent ours =
      deliver_finishes d job.job_id (length (first ∷ rest)) (asked_of job) ms plain ms
        (stage_queued_payloads d job (first ∷ rest) p) ours (within ms ms (λ m k. k))
        staged-IsUnderway (staged-IsCovered ms sent)
