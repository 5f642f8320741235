-- ===== src/Checkpoint/Examples.antt =====
-- A table with the row of another pipeline.
use optio_test.Prelude.{ℕ, List, ◌≡◌, refl, none, some, [], ◌∷◌}
use optio_test.Prelude.Text.{codes, text_eq}
use optio_test.Types.{ReplicationCheckpoint}
use optio_test.Checkpoint.{
  Checkpoints, initial_row, select_row, CheckpointCommitData, update_rows, get_checkpoint,
  commit_checkpoint,
}
use optio_test.Checkpoint.Commits.{Accumulates, commit_all, commit_all_lem}

abbrev table : Checkpoints
table = initial_row (codes "p") 3 ∷ []

abbrev batch : CheckpointCommitData
batch = record {
  last_processed_id = 9;
  last_processed_timestamp = none;
  batch_success_count = 4;
  batch_failed_count = 1;
  metadata = none;
}

abbrev batches : List (CheckpointCommitData × ℕ)
batches = (batch, 8) ∷ (record batch { last_processed_id = 12 }, 9) ∷ []

commit_all_lem_example :
    ((c' : ReplicationCheckpoint) × ((get_checkpoint
          (codes "p")
          10
          (commit_all (codes "p") batches table)).1
        ≡ some c')
      × Accumulates batches (initial_row (codes "p") 3) c')
    × (select_row (codes "q") (commit_all (codes "p") batches table) ≡ select_row (codes "q") table)
unfolding select_row text_eq
commit_all_lem_example =
    commit_all_lem (codes "p") (codes "q") batches 10 table (initial_row (codes "p") 3) refl refl

adds_up :
    (get_checkpoint (codes "p") 10 (commit_all (codes "p") batches table)).1
    ≡ some (record (initial_row (codes "p") 9) {
      last_processed_id = 12;
      records_processed = 8;
      records_failed = 2;
    })
unfolding select_row get_checkpoint commit_all commit_checkpoint update_rows text_eq
adds_up = refl
