-- ===== src/Checkpoint.antt =====
-- apps/pipeline/src/checkpoint/checkpoint.manager.ts: the statements on `replication_checkpoints`.
-- The table is a list of rows; `NOW()` is an argument. The mapping of a row to a checkpoint is the
-- identity here, for the model's rows hold numbers and JSON values and not their texts.
pub mod Laws
pub mod Commits
mod Examples
use optio_test.Prelude.{
  ℕ, ◌+◌, Bool, true, false, Option, none, some, List, [], ◌∷◌, ◌++◌, if◌then◌else◌, or_default,
}
use optio_test.Prelude.Text.{Text, text_eq}
use optio_test.Types.{Json, obj, Fields, PipelineStatus, initialized, ReplicationCheckpoint}

abbrev pub Checkpoints : Type 0
Checkpoints = List ReplicationCheckpoint

-- SELECT … WHERE pipeline_id = $1, and the first row of the answer.
unfoldable pub select_row : Text → Checkpoints → Option ReplicationCheckpoint
select_row id [] = none
select_row id (c ∷ cs) = if text_eq c.pipeline_id id then some c else select_row id cs

-- UPDATE … WHERE pipeline_id = $1
unfoldable pub update_rows :
    Text → (ReplicationCheckpoint → ReplicationCheckpoint) → Checkpoints → Checkpoints
update_rows id f [] = []
update_rows id f (c ∷ cs) = (if text_eq c.pipeline_id id then f c else c) ∷ update_rows id f cs

abbrev pub initial_row : Text → ℕ → ReplicationCheckpoint
initial_row id now = record {
  pipeline_id = id;
  last_processed_id = 0;
  last_processed_timestamp = none;
  status = initialized;
  records_processed = 0;
  records_failed = 0;
  metadata = obj Fields.end;
  updated_at = now;
}

-- INSERT … ON CONFLICT (pipeline_id) DO NOTHING
unfoldable pub insert_missing : Text → ℕ → Checkpoints → Checkpoints
insert_missing id now cs = elim (select_row id cs) [
  | none ↦ cs ++ (initial_row id now ∷ [])
  | some c ↦ cs
]

-- The row is looked up, inserted if it is missing, and looked up again; `none` is the failure on a
-- missing row.
unfoldable pub get_checkpoint : Text → ℕ → Checkpoints → Checkpoints × Option ReplicationCheckpoint
unfolding insert_missing
get_checkpoint id now cs = elim (select_row id cs) [
  | some c ↦ (cs, some c)
  | none ↦ (insert_missing id now cs, select_row id (insert_missing id now cs))
]

pub record CheckpointCommitData : Type 0 where
  pub last_processed_id : ℕ
  pub last_processed_timestamp : Option ℕ
  pub batch_success_count : ℕ
  pub batch_failed_count : ℕ
  pub metadata : Option Json

abbrev pub committed : CheckpointCommitData → ℕ → ReplicationCheckpoint → ReplicationCheckpoint
committed d now c = record c {
  last_processed_id = d.last_processed_id;
  last_processed_timestamp = d.last_processed_timestamp;
  records_processed = c.records_processed + d.batch_success_count;
  records_failed = c.records_failed + d.batch_failed_count;
  metadata = or_default d.metadata c.metadata;
  updated_at = now;
}

unfoldable pub commit_checkpoint : Text → CheckpointCommitData → ℕ → Checkpoints → Checkpoints
commit_checkpoint id d now = update_rows id (committed d now)

abbrev pub with_status : PipelineStatus → ℕ → ReplicationCheckpoint → ReplicationCheckpoint
with_status s now c = record c { status = s; updated_at = now }

unfoldable pub update_status : Text → PipelineStatus → ℕ → Checkpoints → Checkpoints
update_status id s now = update_rows id (with_status s now)

abbrev pub cleared : ℕ → ReplicationCheckpoint → ReplicationCheckpoint
cleared now c = record c {
  last_processed_id = 0;
  last_processed_timestamp = none;
  records_processed = 0;
  records_failed = 0;
  status = initialized;
  updated_at = now;
}

unfoldable pub reset_checkpoint : Text → ℕ → Checkpoints → Checkpoints
reset_checkpoint id now = update_rows id (cleared now)
