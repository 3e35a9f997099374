-- ===== src/ControlPlane/Shards.antt =====
-- What the updates of a message leave of the jobs and the checkpoints.
use matrix_flare.Prelude.{
  String, true, some, List, map, str_eq, ◌≡◌, refl, ap, ◌∙◌, inl, inr, arith, eq_iff, eq_refl,
  Bool-cases,
}
use matrix_flare.Prelude.Members.{find-member}
use matrix_flare.Prelude.Finds.{find-map-some}
use matrix_flare.ControlPlane.Tables.{
  Job, ShardKey, CheckpointRow, Plane, same_shard, find_job, find_checkpoint, updated_job,
  replaced_checkpoint, upsert_checkpoint,
}

pub find_job_id :
    (id : String) (jobs : List Job) (job : Job) → find_job id jobs ≡ some job → job.job_id ≡ id
unfolding find_job
find_job_id id jobs job h =
    (eq_iff job.job_id id).0 (find-member (λ r. str_eq r.job_id id) jobs job h).1

pub updated_job_id : (j r : Job) → (updated_job j r).job_id ≡ r.job_id
updated_job_id j r = elim (Bool-cases (str_eq r.job_id j.job_id)) [
  | inl e ↦ rw e refl
  | inr e ↦ rw e refl
]

pub find_job-updated_job :
    (id : String) (j : Job) (jobs : List Job) (r : Job)
    → find_job id jobs ≡ some r
    → find_job id (map (updated_job j) jobs) ≡ some (updated_job j r)
unfolding find_job
find_job-updated_job id j jobs r h =
    find-map-some (λ r. str_eq r.job_id id) (updated_job j)
      (λ r. ap (λ i. str_eq i id) (updated_job_id j r)) jobs r h

pub same_shard-eq : (a b : ShardKey) → same_shard a b ≡ true → a ≡ b
same_shard-eq a b h = ground (
  arith,
  eq_iff a.job_id b.job_id,
  eq_iff a.shard_type b.shard_type,
  eq_iff a.shard_key b.shard_key,
)

pub same_shard_refl : (k : ShardKey) → same_shard k k ≡ true
same_shard_refl k = rw (eq_refl k.job_id, eq_refl k.shard_type, eq_refl k.shard_key) refl

pub find_checkpoint_key :
    (k : ShardKey) (rows : List CheckpointRow) (row : CheckpointRow)
    → find_checkpoint k rows ≡ some row
    → row.key ≡ k
unfolding find_checkpoint
find_checkpoint_key k rows row h =
    same_shard-eq row.key k (find-member (λ r. same_shard r.key k) rows row h).1

pub replaced_checkpoint_key : (new r : CheckpointRow) → (replaced_checkpoint new r).key ≡ r.key
replaced_checkpoint_key new r = elim (Bool-cases (same_shard r.key new.key)) [
  | inl e ↦ rw e refl
  | inr e ↦ rw e refl
]

-- A row that is there is replaced in place.
pub upsert_checkpoint-eq :
    (new old : CheckpointRow) (p : Plane)
    → find_checkpoint new.key p.job_checkpoints ≡ some old
    → upsert_checkpoint new p
      ≡ record p { job_checkpoints = map (replaced_checkpoint new) p.job_checkpoints }
unfolding upsert_checkpoint
upsert_checkpoint-eq new old p h = rw h refl

pub find_checkpoint-upsert_checkpoint :
    (new old : CheckpointRow) (p : Plane)
    → find_checkpoint new.key p.job_checkpoints ≡ some old
    → find_checkpoint new.key (upsert_checkpoint new p).job_checkpoints
      ≡ some record old { checkpoint = new.checkpoint; updated_at = new.updated_at }
unfolding find_checkpoint
find_checkpoint-upsert_checkpoint new old p h =
    let ours : same_shard old.key new.key ≡ true =
      (find-member (λ r. same_shard r.key new.key) p.job_checkpoints old h).1 in
    let found =
      find-map-some (λ r. same_shard r.key new.key) (replaced_checkpoint new)
        (λ r. ap (λ k. same_shard k new.key) (replaced_checkpoint_key new r)) p.job_checkpoints old
        h in
    ap (λ (x : Plane). find_checkpoint new.key x.job_checkpoints) (upsert_checkpoint-eq new old p h)
    ∙ found
    ∙ ap some (rw ours refl)
