-- ===== src/ControlPlane/Staging.antt =====
-- A job whose shards have just been staged.
use matrix_flare.Prelude.{
  ℕ, ◌+◌, String, Bool, true, false, none, some, List, [], ◌∷◌, ◌++◌, All, str_eq, length, filter,
  ◌≡◌, refl, sym, ap, ◌∙◌, subst, inl, inr, ◌⊎◌, arith, eq_iff, length-append,
}
use matrix_flare.Prelude.Members.{Member, head, tail}
use matrix_flare.Prelude.Finds.{find-append_some, find-append_none}
use matrix_flare.ControlPlane.Tables.{
  Job, Payload, CheckpointRow, ShardKey, Plane, find_checkpoint, list_job_checkpoints, same_shard,
  upsert_checkpoint,
}
use matrix_flare.ControlPlane.Queue.{Delivery, shard_of}
use matrix_flare.ControlPlane.Worker.{staged_row, stage_rows}
use matrix_flare.ControlPlane.Shards.{same_shard_refl}

-- The shards of the payloads differ from each other.
abbrev pub AreDistinct : String → List Payload → Type 0
AreDistinct id [] = Unit
AreDistinct id (m ∷ ms) =
    All (λ m'. same_shard (shard_of id m) (shard_of id m') ≡ false) ms × AreDistinct id ms

-- The rows are each the one under its key. Those of the job are `k`, are queued, and are for payloads of `ms`.
pub record IsStaged (id : String) (ms : List Payload) (k : ℕ) (rows : List CheckpointRow)
    : Type 0 where
  pub keyed : (r : CheckpointRow) → Member r rows → find_checkpoint r.key rows ≡ some r
  pub waiting :
      (r : CheckpointRow)
      → Member r (list_job_checkpoints id rows)
      → str_eq r.checkpoint.status "queued" ≡ true
  pub named :
      (r : CheckpointRow)
      → Member r (list_job_checkpoints id rows)
      → (m : Payload) × Member m ms × (shard_of id m ≡ r.key)
  pub size : length (list_job_checkpoints id rows) ≡ k

member-append {ℓ} :
    {A : Type ℓ} (xs ys : List A) (x : A) → Member x (xs ++ ys) → Member x xs ⊎ Member x ys
member-append [] ys x h = inr h
member-append (z ∷ zs) ys x (head e) = inl (head e)
member-append (z ∷ zs) ys x (tail h) = elim (member-append zs ys x h) [
  | inl m ↦ inl (tail m)
  | inr m ↦ inr m
]

filter-append {ℓ} :
    {A : Type ℓ} (test : A → Bool) (xs ys : List A)
    → filter test (xs ++ ys) ≡ filter test xs ++ filter test ys
filter-append test [] ys = refl
filter-append test (z ∷ zs) ys = ground (arith, filter-append test zs ys)

upsert_checkpoint_new :
    (new : CheckpointRow) (p : Plane)
    → find_checkpoint new.key p.job_checkpoints ≡ none
    → upsert_checkpoint new p ≡ record p { job_checkpoints = p.job_checkpoints ++ new ∷ [] }
unfolding upsert_checkpoint
upsert_checkpoint_new new p h = rw h refl

-- The shards of these payloads have no checkpoint.
abbrev pub AreNew : String → List Payload → List CheckpointRow → Type 0
AreNew id ms rows = All (λ m. find_checkpoint (shard_of id m) rows ≡ none) ms

module _ (id : String) (all : List Payload) (new : CheckpointRow) (m : Payload)
    (key : new.key ≡ shard_of id m) (queued : str_eq new.checkpoint.status "queued" ≡ true)
    (rows : List CheckpointRow) where
  appended_list :
      list_job_checkpoints id (rows ++ new ∷ []) ≡ list_job_checkpoints id rows ++ new ∷ []
  unfolding list_job_checkpoints shard_of
  appended_list =
      let ours : str_eq new.key.job_id id ≡ true =
        (eq_iff new.key.job_id id).1 (ap (λ (k : ShardKey). k.job_id) key) in
      filter-append (λ r. str_eq r.key.job_id id) rows (new ∷ []) ∙ rw ours refl

  appended_rows :
      (k : ℕ)
      → Member m all
      → find_checkpoint (shard_of id m) rows ≡ none
      → IsStaged id all k rows
      → IsStaged id all (k + 1) (rows ++ new ∷ [])
  unfolding find_checkpoint
  appended_rows k member missing S = record {
    keyed = λ r h. elim (member-append rows (new ∷ []) r h) [
      | inl old ↦ find-append_some (λ x. same_shard x.key r.key) rows (new ∷ []) r (S.keyed r old)
      | inr (head same) ↦
          ap (λ (x : CheckpointRow). find_checkpoint x.key (rows ++ new ∷ [])) same
          ∙ find-append_none (λ x. same_shard x.key new.key) rows (new ∷ [])
              (ap (λ x. find_checkpoint x rows) key ∙ missing)
          ∙ rw (same_shard_refl new.key) (ap some (sym same))
      | inr (tail none_left) ↦ elim none_left [ ]
    ];
    waiting = λ r h. elim (member-append (list_job_checkpoints id rows) (new ∷ []) r (moved r h)) [
      | inl old ↦ S.waiting r old
      | inr (head same) ↦
          ap (λ (x : CheckpointRow). str_eq x.checkpoint.status "queued") same ∙ queued
      | inr (tail none_left) ↦ elim none_left [ ]
    ];
    named = λ r h. elim (member-append (list_job_checkpoints id rows) (new ∷ []) r (moved r h)) [
      | inl old ↦ S.named r old
      | inr (head same) ↦ (m, member, sym key ∙ ap (λ (x : CheckpointRow). x.key) (sym same))
      | inr (tail none_left) ↦ elim none_left [ ]
    ];
    size =
        ap length appended_list
        ∙ length-append (list_job_checkpoints id rows) (new ∷ [])
        ∙ ap (λ n. n + 1) S.size;
  }
    where
      moved :
          (r : CheckpointRow)
          → Member r (list_job_checkpoints id (rows ++ new ∷ []))
          → Member r (list_job_checkpoints id rows ++ new ∷ [])
      moved r h = subst (Member r) appended_list h

  still_new :
      (ms : List Payload)
      → AreNew id ms rows
      → All (λ m'. same_shard (shard_of id m) (shard_of id m') ≡ false) ms
      → AreNew id ms (rows ++ new ∷ [])
  unfolding find_checkpoint
  still_new [] a b = tt
  still_new (x ∷ xs) (a, as') (b, bs) =
      let other : same_shard new.key (shard_of id x) ≡ false =
        ap (λ k. same_shard k (shard_of id x)) key ∙ b in
      (
        find-append_none (λ r. same_shard r.key (shard_of id x)) rows (new ∷ []) a ∙ rw other refl,
        still_new xs as' bs,
      )

module _ (d : Delivery) (job : Job) (all : List Payload) where
  pub stage_rows-IsStaged :
      (ms : List Payload) (k : ℕ) (p : Plane)
      → All (λ m. Member m all) ms
      → AreDistinct job.job_id ms
      → AreNew job.job_id ms p.job_checkpoints
      → IsStaged job.job_id all k p.job_checkpoints
      → IsStaged job.job_id all (k + length ms) (stage_rows d job ms p).job_checkpoints
        × ((stage_rows d job ms p).jobs ≡ p.jobs)
  unfolding stage_rows
  stage_rows-IsStaged [] k p within distinct new S =
      (subst (λ n. IsStaged job.job_id all n p.job_checkpoints) (omega arith) S, refl)
  stage_rows-IsStaged (m ∷ ms) k p (member, within) (differs, distinct) (missing, new) S =
      let row = staged_row d job m in
      let q = upsert_checkpoint row p in
      let out : q ≡ record p { job_checkpoints = p.job_checkpoints ++ row ∷ [] } =
        upsert_checkpoint_new row p missing in
      let rows : q.job_checkpoints ≡ p.job_checkpoints ++ row ∷ [] =
        ap (λ (x : Plane). x.job_checkpoints) out in
      let S' =
        subst (IsStaged job.job_id all (k + 1)) (sym rows)
          (appended_rows job.job_id all row m refl refl p.job_checkpoints k member missing S) in
      let new' =
        subst (AreNew job.job_id ms) (sym rows)
          (still_new job.job_id all row m refl refl p.job_checkpoints ms new differs) in
      let (S'', jobs) = stage_rows-IsStaged ms (k + 1) q within distinct new' S' in
      (
        subst (λ n. IsStaged job.job_id all n (stage_rows d job ms q).job_checkpoints) (omega arith)
            S'',
        jobs ∙ ap (λ (x : Plane). x.jobs) out,
      )
