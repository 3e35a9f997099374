-- ===== src/ControlPlane/Deliveries.antt =====
-- Jobs whose messages are delivered one after another.
use matrix_flare.Prelude.{
  ℕ, String, Bool, true, false, not, ◌&&◌, none, some, List, [], ◌∷◌, map, str_eq, leb, max, length,
  ◌≤◌, ◌≡◌, refl, sym, ap, ◌∙◌, inl, inr, ◌⊎◌, arith, Bool-cases, leb→le,
}
use matrix_flare.Prelude.Members.{
  Member, filter-member, member-filter, member-map, length-filter-lt, length-filter-map,
}
use matrix_flare.Prelude.Finds.{find-map-some}
use matrix_flare.ControlPlane.Tables.{
  Job, Payload, CheckpointRow, Plane, find_job, find_checkpoint, list_job_checkpoints, same_shard,
  replaced_checkpoint,
}
use matrix_flare.ControlPlane.Jobs.{is_terminal, is_pending, is_cancel_requested}
use matrix_flare.ControlPlane.Queue.{
  Delivery, Handled, is_export, terminal_state, shard_of, is_supported_export, is_complete,
  completed_units, all_complete,
}
use matrix_flare.ControlPlane.Process.{process_shard, process_job, process_queue_message}
use matrix_flare.ControlPlane.Shards.{find_job_id, replaced_checkpoint_key}
use matrix_flare.ControlPlane.Redelivery.{process_queue_message_complete}
use matrix_flare.ControlPlane.Completion.{
  Asked, asked_of, terminal_state_terminal, terminal_state_live,
}

and_false : (b : Bool) → (b && false) ≡ false
and_false b = ground arith

-- The checkpoints of the job are `n`, each is the one under its key, and each is queued or complete. The
-- job is at its successful end if all are complete, and else neither there, nor pending, nor canceled.
pub record IsUnderway (d : Delivery) (id : String) (n : ℕ) (request : Asked) (p : Plane)
    : Type 0 where
  pub job : Job
  pub asked : asked_of job ≡ request
  pub found : find_job id p.jobs ≡ some job
  pub total : max job.progress_total_units 1 ≡ n
  pub size : length (list_job_checkpoints id p.job_checkpoints) ≡ n
  pub keyed :
      (r : CheckpointRow)
      → Member r p.job_checkpoints
      → find_checkpoint r.key p.job_checkpoints ≡ some r
  pub known :
      (r : CheckpointRow)
      → Member r (list_job_checkpoints id p.job_checkpoints)
      → (is_complete r ≡ true) ⊎ (str_eq r.checkpoint.status "queued" ≡ true)
  pub phase :
      ((leb n (completed_units id p) ≡ true) × (job.internal_state ≡ terminal_state d.queue))
      ⊎ ((leb n (completed_units id p) ≡ false)
          × (is_terminal job.internal_state ≡ false)
          × (is_pending job.internal_state ≡ false)
          × (is_cancel_requested job.internal_state ≡ false))

-- Each shard of the job is complete or has a message on the way.
abbrev pub IsCovered : String → List Payload → Plane → Type 0
IsCovered id ms p =
    (r : CheckpointRow)
    → Member r (list_job_checkpoints id p.job_checkpoints)
    → (is_complete r ≡ true) ⊎ ((m : Payload) × Member m ms × (shard_of id m ≡ r.key))

-- The messages, each in the state that the one before has left.
unfoldable pub deliver : Delivery → List Payload → Plane → Plane
unfolding process_queue_message
deliver d [] p = p
deliver d (m ∷ ms) p = deliver d ms (process_queue_message d m p).1

module _ (d : Delivery) (plain : is_export d.queue ≡ false) (id : String) (n : ℕ)
    (request : Asked) where
  -- Where a shard waits the job has not come to its end.
  pub unfinished :
      (p : Plane) (U : IsUnderway d id n request p) (r : CheckpointRow)
      → Member r (list_job_checkpoints id p.job_checkpoints)
      → is_complete r ≡ false
      → (is_terminal U.job.internal_state ≡ false)
        × (is_pending U.job.internal_state ≡ false)
        × (is_cancel_requested U.job.internal_state ≡ false)
  unfolding completed_units
  unfinished p U r m e = elim (U.phase) [
    | inr (more, live, begun, wanted) ↦ (live, begun, wanted)
    | inl (all, state) ↦
        let le : n ≤ completed_units id p = leb→le n (completed_units id p) all in
        let lt = length-filter-lt is_complete (list_job_checkpoints id p.job_checkpoints) r m e in
        absurd (let same = U.size in omega arith)
  ]

  -- A complete shard stays as it is.
  pub idle_message :
      (m : Payload) (p : Plane) (U : IsUnderway d id n request p) (row : CheckpointRow)
      → m.job_id ≡ id
      → find_checkpoint (shard_of m.job_id m) p.job_checkpoints ≡ some row
      → is_complete row ≡ true
      → (process_queue_message d m p).1 ≡ p
  idle_message m p U row same hc complete =
      let hj : find_job m.job_id p.jobs ≡ some U.job = ap (λ i. find_job i p.jobs) same ∙ U.found in
      let supported : (is_export d.queue && not (is_supported_export row.key)) ≡ false =
        ap (λ b. b && not (is_supported_export row.key)) plain in
      let count : all_complete U.job p ≡ leb n (completed_units id p) =
        ap (λ t. leb t (completed_units U.job.job_id p)) U.total
        ∙ ap (λ i. leb n (completed_units i p)) (find_job_id id p.jobs U.job U.found) in
      let settled : (is_cancel_requested U.job.internal_state ≡ false)
          × ((all_complete U.job p && not (is_terminal U.job.internal_state)) ≡ false) =
        elim (U.phase) [
          | inl (all, state) ↦ (
            ap is_cancel_requested state ∙ terminal_state_live d d.queue,
            ap (λ s. all_complete U.job p && not (is_terminal s)) state
                ∙ rw (terminal_state_terminal d d.queue) (and_false (all_complete U.job p)),
          )
          | inr (more, live, begun, wanted) ↦
              (wanted, ap (λ b. b && not (is_terminal U.job.internal_state)) (count ∙ more))
        ] in
      ap (λ (o : Handled). o.1)
        (process_queue_message_complete d m U.job row p hj settled.0 hc complete supported
          settled.1)

  -- A message without a shard changes nothing.
  pub stray_message :
      (m : Payload) (p : Plane) (U : IsUnderway d id n request p)
      → m.job_id ≡ id
      → find_checkpoint (shard_of m.job_id m) p.job_checkpoints ≡ none
      → (process_queue_message d m p).1 ≡ p
  unfolding process_queue_message
  stray_message m p U same missing =
      let hj : find_job m.job_id p.jobs ≡ some U.job = ap (λ i. find_job i p.jobs) same ∙ U.found in
      let wanted : is_cancel_requested U.job.internal_state ≡ false = elim (U.phase) [
        | inl (all, state) ↦ ap is_cancel_requested state ∙ terminal_state_live d d.queue
        | inr (more, live, begun, w) ↦ w
      ] in
      ap (λ o. (process_job d m o p).1) hj
      ∙ rw wanted (
          ap (λ i. (process_shard d m U.job (find_checkpoint (shard_of i m) p.job_checkpoints) p).1)
            (find_job_id m.job_id p.jobs U.job hj)
          ∙ ap (λ o. (process_shard d m U.job o p).1) missing)

pub replaced_complete :
    (new : CheckpointRow)
    → str_eq new.checkpoint.status "complete" ≡ true
    → (r : CheckpointRow)
    → (is_complete (replaced_checkpoint new r) ≡ true)
      ⊎ ((replaced_checkpoint new r ≡ r) × (same_shard r.key new.key ≡ false))
unfolding is_complete
replaced_complete new complete r = elim (Bool-cases (same_shard r.key new.key)) [
  | inl e ↦ inl (rw e complete)
  | inr e ↦ inr (rw e refl, e)
]

-- What the replacement of one checkpoint leaves of the rows.
module _ (new : CheckpointRow) (id : String) (xs : List CheckpointRow) where
  pub replaced_member :
      (r' : CheckpointRow)
      → Member r' (list_job_checkpoints id (map (replaced_checkpoint new) xs))
      → (r : CheckpointRow) × Member r (list_job_checkpoints id xs)
        × (r' ≡ replaced_checkpoint new r)
  unfolding list_job_checkpoints
  replaced_member r' h =
      let (m, ours) =
        filter-member (λ r. str_eq r.key.job_id id) (map (replaced_checkpoint new) xs) r' h in
      let (r, m', e) = member-map (replaced_checkpoint new) xs r' m in
      let key : r'.key ≡ r.key =
        ap (λ (x : CheckpointRow). x.key) e ∙ replaced_checkpoint_key new r in
      (
        r,
        member-filter (λ r. str_eq r.key.job_id id) xs r m'
            (ap (λ k. str_eq k.job_id id) (sym key) ∙ ours),
        e,
      )

  pub replaced_size :
      length (list_job_checkpoints id (map (replaced_checkpoint new) xs))
      ≡ length (list_job_checkpoints id xs)
  unfolding list_job_checkpoints
  replaced_size =
      length-filter-map (λ r. str_eq r.key.job_id id) (replaced_checkpoint new) xs
        (λ r. ap (λ k. str_eq k.job_id id) (replaced_checkpoint_key new r))

  pub replaced_keyed :
      ((r : CheckpointRow) → Member r xs → find_checkpoint r.key xs ≡ some r)
      → (r' : CheckpointRow) → Member r' (map (replaced_checkpoint new) xs)
      → find_checkpoint r'.key (map (replaced_checkpoint new) xs) ≡ some r'
  unfolding find_checkpoint
  replaced_keyed keyed r' h =
      let (r, m, e) = member-map (replaced_checkpoint new) xs r' h in
      let key : r'.key ≡ r.key =
        ap (λ (x : CheckpointRow). x.key) e ∙ replaced_checkpoint_key new r in
      ap (λ k. find_checkpoint k (map (replaced_checkpoint new) xs)) key
      ∙ find-map-some (λ x. same_shard x.key r.key) (replaced_checkpoint new)
          (λ x. ap (λ k. same_shard k r.key) (replaced_checkpoint_key new x)) xs r (keyed r m)
      ∙ ap some (sym e)
