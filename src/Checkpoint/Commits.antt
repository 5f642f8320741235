-- ===== src/Checkpoint/Commits.antt =====
-- What a runner of apps/pipeline/src/runners that starts again reads, after the batches that were committed.
use optio_test.Prelude.{ℕ, ◌+◌, ◌≡◌, refl, ◌∙◌, false, some, List, [], ◌∷◌, arith, or_default}
use optio_test.Prelude.Text.{Text, text_eq}
use optio_test.Types.{Json, ReplicationCheckpoint}
use optio_test.Checkpoint.{
  Checkpoints, select_row, get_checkpoint, CheckpointCommitData, committed, commit_checkpoint,
}
use optio_test.Checkpoint.Laws.{commit_checkpoint_same, select_row-update_rows}

-- The batches that are committed to a pipeline, the first one first, each with its time.
unfoldable pub commit_all : Text → List (CheckpointCommitData × ℕ) → Checkpoints → Checkpoints
commit_all id [] cs = cs
commit_all id ((d, now) ∷ ds) cs = commit_all id ds (commit_checkpoint id d now cs)

abbrev pub sum_of : (CheckpointCommitData → ℕ) → List (CheckpointCommitData × ℕ) → ℕ
sum_of f [] = 0
sum_of f ((d, now) ∷ ds) = f d + sum_of f ds

-- The field of the last batch, or what stood there before the first.
abbrev pub last_of {ℓ} :
    {A : Type ℓ} → (CheckpointCommitData → A) → A → List (CheckpointCommitData × ℕ) → A
last_of f a [] = a
last_of f a ((d, now) ∷ ds) = last_of f (f d) ds

-- The last metadata that a batch gave, or what stood there.
abbrev pub last_metadata : Json → List (CheckpointCommitData × ℕ) → Json
last_metadata m [] = m
last_metadata m ((d, now) ∷ ds) = last_metadata (or_default d.metadata m) ds

-- What the row of a pipeline becomes.
pub record Accumulates (ds : List (CheckpointCommitData × ℕ)) (c c' : ReplicationCheckpoint)
    : Type 0 where
  pub mark : c'.last_processed_id ≡ last_of (λ d. d.last_processed_id) c.last_processed_id ds
  pub time :
      c'.last_processed_timestamp
      ≡ last_of (λ d. d.last_processed_timestamp) c.last_processed_timestamp ds
  pub processed :
      c'.records_processed ≡ c.records_processed + sum_of (λ d. d.batch_success_count) ds
  pub failures : c'.records_failed ≡ c.records_failed + sum_of (λ d. d.batch_failed_count) ds
  pub kept_metadata : c'.metadata ≡ last_metadata c.metadata ds
  pub same_status : c'.status ≡ c.status

commit_all-Accumulates :
    (id : Text) (ds : List (CheckpointCommitData × ℕ)) (cs : Checkpoints)
    (c : ReplicationCheckpoint)
    → select_row id cs ≡ some c
    → (c' : ReplicationCheckpoint) × (select_row id (commit_all id ds cs) ≡ some c')
      × Accumulates ds c c'
unfolding commit_all
commit_all-Accumulates id [] cs c e = (
  c,
  e,
  record {
    mark = refl;
    time = refl;
    processed = omega arith;
    failures = omega arith;
    kept_metadata = refl;
    same_status = refl;
  },
)
commit_all-Accumulates id ((d, now) ∷ ds) cs c e =
    let (c', found, a) =
      commit_all-Accumulates id ds (commit_checkpoint id d now cs) (committed d now c)
        (commit_checkpoint_same id d now cs c e) in
    (
      c',
      found,
      record {
        mark = a.mark;
        time = a.time;
        processed = omega (arith, a.processed);
        failures = omega (arith, a.failures);
        kept_metadata = a.kept_metadata;
        same_status = a.same_status;
      },
    )

commit_all-others :
    (id k : Text) (ds : List (CheckpointCommitData × ℕ)) (cs : Checkpoints)
    → text_eq id k ≡ false
    → select_row k (commit_all id ds cs) ≡ select_row k cs
unfolding commit_all commit_checkpoint
commit_all-others id k [] cs n = refl
commit_all-others id k ((d, now) ∷ ds) cs n =
    commit_all-others id k ds (commit_checkpoint id d now cs) n
    ∙ ground (arith, select_row-update_rows k id (committed d now) cs (λ x. refl))

-- A pipeline that has a row, to which batches are committed, reads back the watermark and timestamp
-- of the last of them, the counts raised by those of all of them, the last metadata that one of them
-- gave, and its status as it was. What any other pipeline has in the table stays.
pub commit_all_lem :
    (id k : Text) (ds : List (CheckpointCommitData × ℕ)) (now : ℕ) (cs : Checkpoints)
    (c : ReplicationCheckpoint)
    → select_row id cs ≡ some c
    → text_eq id k ≡ false
    → ((c' : ReplicationCheckpoint) × ((get_checkpoint id now (commit_all id ds cs)).1 ≡ some c')
        × Accumulates ds c c')
      × (select_row k (commit_all id ds cs) ≡ select_row k cs)
unfolding get_checkpoint
commit_all_lem id k ds now cs c e n =
    let (c', found, a) = commit_all-Accumulates id ds cs c e in
    ((c', rw (found, get_checkpoint) refl, a), commit_all-others id k ds cs n)
