-- ===== src/ControlPlane/Finishing.antt =====
-- A job whose shards have all been delivered.
use matrix_flare.Prelude.{
  ℕ, String, Bool, true, false, Option, none, some, List, [], ◌∷◌, map, All, str_eq, leb, max,
  length, ◌≡◌, refl, sym, ap, ◌∙◌, subst, inl, inr, ◌⊎◌, arith, eq_iff, Bool-cases, Option-cases,
}
use matrix_flare.Prelude.Members.{
  Member, cases_cons, find-member, filter-member, member-filter, length-filter_all,
}
use matrix_flare.ControlPlane.Tables.{
  JobState, Job, Payload, CheckpointRow, ShardKey, Plane, find_job, find_checkpoint,
  list_job_checkpoints, same_shard, replaced_checkpoint,
}
use matrix_flare.ControlPlane.Jobs.{is_terminal, is_pending, is_cancel_requested}
use matrix_flare.ControlPlane.Queue.{
  done, Delivery, Finished, processed, terminal_state, shard_of, is_complete, completed_units,
  total_units,
}
use matrix_flare.ControlPlane.Process.{
  completed_row, shard_state, running_job, process_queue_message,
}
use matrix_flare.ControlPlane.Shards.{find_checkpoint_key, same_shard_refl}
use matrix_flare.ControlPlane.Completion.{
  Asked, asked_of, process_queue_message-IsDone, running_job_total, max_again,
}
use matrix_flare.ControlPlane.Underway.{IsPlain, running_job-same, process_queue_message_queued}
use matrix_flare.ControlPlane.Deliveries.{
  IsUnderway, IsCovered, deliver, unfinished, idle_message, stray_message, replaced_complete,
  replaced_member, replaced_size, replaced_keyed,
}

module _ (d : Delivery) where
  next_phase :
      (last : Bool) (s : JobState)
      → s ≡ shard_state d last
      → ((last ≡ true) × (s ≡ terminal_state d.queue))
        ⊎ ((last ≡ false)
            × (is_terminal s ≡ false)
            × (is_pending s ≡ false)
            × (is_cancel_requested s ≡ false))
  next_phase true s e = inl (refl, e)
  next_phase false s e = inr (refl, ap is_terminal e, ap is_pending e, ap is_cancel_requested e)

module _ (d : Delivery) (id : String) (n : ℕ) (request : Asked) (sent : List Payload)
    (plain : IsPlain d id request sent) (m : Payload) (ms : List Payload) (p : Plane)
    (ours : m.job_id ≡ id) (one_sent : Member m sent) where
  -- What a message leaves when it changes nothing.
  kept :
      (q : Plane)
      → q ≡ p
      → IsUnderway d id n request p
      → IsCovered id ms p
      → IsUnderway d id n request q × IsCovered id ms q
  kept q same U C = subst (λ x. IsUnderway d id n request x × IsCovered id ms x) (sym same) (U, C)

  module _ (row : CheckpointRow) (f : Finished) (q : Plane) (U : IsUnderway d id n request p)
      (ran : process_queue_message d m p ≡ (done processed, q))
      (rows : q.job_checkpoints
        ≡ map (replaced_checkpoint (completed_row d row f)) p.job_checkpoints)
      (there : find_checkpoint (shard_of id m) p.job_checkpoints ≡ some row) where
    new_rows : List CheckpointRow
    new_rows = map (replaced_checkpoint (completed_row d row f)) p.job_checkpoints

    advanced-IsUnderway : IsUnderway d id n request q
    unfolding new_rows
    advanced-IsUnderway =
        let (job, row', hj, supported, D) = process_queue_message-IsDone d m p q ran in
        let same_job : job ≡ U.job =
          some_inj (sym hj ∙ ap (λ i. find_job i p.jobs) ours ∙ U.found) in
        let total : total_units (running_job d job) ≡ n =
          running_job_total d job ∙ ap total_units same_job ∙ U.total in
        let state : D.after.internal_state ≡ shard_state d (leb n (completed_units id q)) =
          D.state
          ∙ ap (λ t. shard_state d (leb t (completed_units m.job_id q))) total
          ∙ ap (λ i. shard_state d (leb n (completed_units i q))) ours in
        record {
          job = D.after;
          asked =
              D.asked_kept
              ∙ (running_job-same d id request sent plain job).1
              ∙ ap asked_of same_job
              ∙ U.asked;
          found = ap (λ i. find_job i q.jobs) (sym ours) ∙ D.job_found;
          total =
              ap (λ t. max t 1) (D.total_kept ∙ total)
              ∙ ap (λ t. max t 1) (sym total)
              ∙ max_again (running_job d job).progress_total_units
              ∙ total;
          size =
              ap (λ xs. length (list_job_checkpoints id xs)) rows
              ∙ replaced_size (completed_row d row f) id p.job_checkpoints
              ∙ U.size;
          keyed =
              subst (λ xs. (r : CheckpointRow) → Member r xs → find_checkpoint r.key xs ≡ some r)
                (sym rows) (replaced_keyed (completed_row d row f) id p.job_checkpoints U.keyed);
          known =
              subst
                (λ xs.
                  (r : CheckpointRow)
                  → Member r (list_job_checkpoints id xs)
                  → (is_complete r ≡ true) ⊎ (str_eq r.checkpoint.status "queued" ≡ true))
                (sym rows) known_after;
          phase = next_phase d (leb n (completed_units id q)) D.after.internal_state state;
        }
      where
        some_inj : {x y : Job} → some x ≡ some y → x ≡ y
        some_inj h = cc

        known_after :
            (r' : CheckpointRow)
            → Member r' (
                list_job_checkpoints id
                  (map (replaced_checkpoint (completed_row d row f)) p.job_checkpoints))
            → (is_complete r' ≡ true) ⊎ (str_eq r'.checkpoint.status "queued" ≡ true)
        known_after r' h =
            let (r, member, e) =
              replaced_member (completed_row d row f) id p.job_checkpoints r' h in
            elim (replaced_complete (completed_row d row f) refl r) [
              | inl c ↦ inl (ap is_complete e ∙ c)
              | inr (same, other) ↦
                  subst (λ x. (is_complete x ≡ true) ⊎ (str_eq x.checkpoint.status "queued" ≡ true))
                    (sym (e ∙ same)) (U.known r member)
            ]

    advanced-IsCovered : IsCovered id (m ∷ ms) p → IsCovered id ms q
    advanced-IsCovered C =
        subst
          (λ xs.
            (r : CheckpointRow)
            → Member r (list_job_checkpoints id xs)
            → (is_complete r ≡ true) ⊎ ((m' : Payload) × Member m' ms × (shard_of id m' ≡ r.key)))
          (sym rows) covered
      where
        key : row.key ≡ shard_of id m
        key = find_checkpoint_key (shard_of id m) p.job_checkpoints row there

        covered :
            (r' : CheckpointRow)
            → Member r' (
                list_job_checkpoints id
                  (map (replaced_checkpoint (completed_row d row f)) p.job_checkpoints))
            → (is_complete r' ≡ true) ⊎ ((m' : Payload) × Member m' ms × (shard_of id m' ≡ r'.key))
        covered r' h =
            let (r, member, e) =
              replaced_member (completed_row d row f) id p.job_checkpoints r' h in
            elim (replaced_complete (completed_row d row f) refl r) [
              | inl c ↦ inl (ap is_complete e ∙ c)
              | inr (same, other) ↦ elim (C r member) [
                | inl c ↦ inl (ap is_complete (e ∙ same) ∙ c)
                | inr (m', waits, k) ↦ elim (cases_cons waits) [
                  | inl first ↦
                      let named : r.key ≡ row.key = sym k ∙ ap (shard_of id) first ∙ sym key in
                      absurd (
                        let bad : true ≡ false =
                          sym (same_shard_refl row.key)
                          ∙ ap (λ x. same_shard x row.key) (sym named)
                          ∙ other in
                        cc)
                  | inr later ↦
                      inr (m', later, k ∙ ap (λ (x : CheckpointRow). x.key) (sym (e ∙ same)))
                ]
              ]
            ]

  -- A shard that the message names is that of the checkpoint under its key.
  named_row :
      (r : CheckpointRow)
      → IsUnderway d id n request p
      → Member r (list_job_checkpoints id p.job_checkpoints)
      → shard_of id m ≡ r.key
      → find_checkpoint (shard_of id m) p.job_checkpoints ≡ some r
  unfolding list_job_checkpoints
  named_row r U member k =
      ap (λ x. find_checkpoint x p.job_checkpoints) k
      ∙ U.keyed r (filter-member (λ x. str_eq x.key.job_id id) p.job_checkpoints r member).0

  -- Nothing more is waited for once the shard of the message is missing or complete.
  settled-IsCovered :
      (found : Option CheckpointRow)
      → find_checkpoint (shard_of id m) p.job_checkpoints ≡ found
      → ((r : CheckpointRow) → found ≡ some r → is_complete r ≡ true)
      → IsUnderway d id n request p
      → IsCovered id (m ∷ ms) p
      → IsCovered id ms p
  settled-IsCovered found there complete U C r member = elim (C r member) [
    | inl c ↦ inl c
    | inr (m', waits, k) ↦ elim (cases_cons waits) [
      | inl first ↦
          inl (complete r (sym there ∙ named_row r U member (ap (shard_of id) (sym first) ∙ k)))
      | inr later ↦ inr (m', later, k)
    ]
  ]

  advance :
      IsUnderway d id n request p
      → IsCovered id (m ∷ ms) p
      → IsUnderway d id n request (process_queue_message d m p).1
        × IsCovered id ms (process_queue_message d m p).1
  unfolding list_job_checkpoints shard_of find_checkpoint
  advance U C = elim (Option-cases (find_checkpoint (shard_of id m) p.job_checkpoints)) [
    | inl missing ↦
        kept (process_queue_message d m p).1
          (stray_message d plain.not_export id n request m p U ours
            (ap (λ i. find_checkpoint (shard_of i m) p.job_checkpoints) ours ∙ missing))
          U
          (settled-IsCovered none missing
            (λ r h. (let bad : ◌≡◌ {A = Option CheckpointRow} none (some r) = h in cc)) U C)
    | inr (row, there) ↦
        let there' : find_checkpoint (shard_of m.job_id m) p.job_checkpoints ≡ some row =
          ap (λ i. find_checkpoint (shard_of i m) p.job_checkpoints) ours ∙ there in
        elim (Bool-cases (is_complete row)) [
          | inl complete ↦
              kept (process_queue_message d m p).1
                (idle_message d plain.not_export id n request m p U row ours there' complete) U
                (settled-IsCovered (some row) there
                  (λ r h. ap is_complete (sym (some_row h)) ∙ complete) U C)
          | inr waiting ↦
              let found_in =
                find-member (λ r. same_shard r.key (shard_of id m)) p.job_checkpoints row there in
              let member : Member row (list_job_checkpoints id p.job_checkpoints) =
                member-filter (λ r. str_eq r.key.job_id id) p.job_checkpoints row found_in.0
                  (job_of_shard row
                    (find_checkpoint_key (shard_of id m) p.job_checkpoints row there)) in
              let (live, begun, wanted) =
                unfinished d plain.not_export id n request p U row member waiting in
              let hj : find_job m.job_id p.jobs ≡ some U.job =
                ap (λ i. find_job i p.jobs) ours ∙ U.found in
              let (f, q, ran, rows) =
                process_queue_message_queued d id request sent plain m U.job row p hj there'
                  (after_queued row member waiting U) live begun wanted ours U.asked one_sent in
              let out : q ≡ (process_queue_message d m p).1 = ap (λ o. o.1) (sym ran) in
              subst (λ x. IsUnderway d id n request x × IsCovered id ms x) out
                (
                  advanced-IsUnderway row f q U ran rows there,
                  advanced-IsCovered row f q U ran rows there C,
                )
        ]
  ]
    where
      some_row : {x y : CheckpointRow} → some x ≡ some y → x ≡ y
      some_row h = cc

      job_of_shard :
          (row : CheckpointRow) → row.key ≡ shard_of id m → str_eq row.key.job_id id ≡ true
      job_of_shard row k = (eq_iff row.key.job_id id).1 (ap (λ (x : ShardKey). x.job_id) k)

      after_queued :
          (row : CheckpointRow)
          → Member row (list_job_checkpoints id p.job_checkpoints)
          → is_complete row ≡ false
          → IsUnderway d id n request p
          → str_eq row.checkpoint.status "queued" ≡ true
      after_queued row member waiting U = elim (U.known row member) [
        | inl c ↦ absurd (let bad : true ≡ false = sym c ∙ waiting in cc)
        | inr h ↦ h
      ]

module _ (d : Delivery) (id : String) (n : ℕ) (request : Asked) (sent : List Payload)
    (plain : IsPlain d id request sent) where
  finished_job :
      (p : Plane)
      → IsUnderway d id n request p
      → IsCovered id [] p
      → (job : Job) × (find_job id p.jobs ≡ some job)
        × (job.internal_state ≡ terminal_state d.queue)
  unfolding completed_units
  finished_job p U C =
      let rows = list_job_checkpoints id p.job_checkpoints in
      let all : completed_units id p ≡ n =
        length-filter_all is_complete rows
          (λ r m. elim (C r m) [ inl c ↦ c | inr (m', none_left, k) ↦ elim none_left [ ] ])
        ∙ U.size in
      elim (U.phase) [
        | inl (_, state) ↦ (U.job, U.found, state)
        | inr (more, _, _, _) ↦
            absurd (let bad : leb n n ≡ false = ap (leb n) (sym all) ∙ more in ground arith)
      ]

  -- The messages of a job that is underway bring it to its successful end, in any order and with any
  -- repetitions, once each of its shards is complete or has a message among them.
  pub deliver_finishes :
      (ms : List Payload) (p : Plane)
      → All (λ m. m.job_id ≡ id) ms
      → All (λ m. Member m sent) ms
      → IsUnderway d id n request p
      → IsCovered id ms p
      → (job : Job) × (find_job id (deliver d ms p).jobs ≡ some job)
        × (job.internal_state ≡ terminal_state d.queue)
  unfolding deliver
  deliver_finishes [] p ours known U C = finished_job p U C
  deliver_finishes (m ∷ ms) p (same, ours) (here, known) U C =
      let (U', C') = advance d id n request sent plain m ms p same here U C in
      deliver_finishes ms (process_queue_message d m p).1 ours known U' C'
