-- ===== src/Incremental.antt =====
-- apps/pipeline/src/runners/incremental.runner.ts: the polling loop. What one round of the loop meets
-- is a `Round`, as in Backfill. The sleep between rounds keeps no state that the loop reads, and is
-- left out; the loop goes on until it is told to stop or fails.
pub mod Boots
pub mod Restarts
mod Safety
mod Examples
mod Rounds
pub mod Progress
use optio_test.Prelude.{
  ℕ, ◌+◌, ◌-◌, max, Bool, true, false, Option, none, some, List, [], ◌∷◌, length, get_last?,
  if◌then◌else◌, or_default, or_nonzero,
}
use optio_test.Prelude.Text.{Text, codes}
use optio_test.Prelude.Decimal.{show}
use optio_test.Types.{
  Json, num, obj, field, end, SourceRecord, PipelineStatus, initialized, running, paused, failed,
  ReplicationCheckpoint, BatchResult, record_mutated,
}
use optio_test.Source.{fetch_incremental_batch, get_incremental_lag, IncrementalLag}
use optio_test.Checkpoint.{get_checkpoint, CheckpointCommitData, commit_checkpoint, update_status}
use optio_test.Dlq.{persist_failures}
use optio_test.Runner.{World, Sinks, dispatch, dlq_entries, failed_count, has_any}

pub record IncrementalRunner : Type 0 where
  pub pipeline_id : Text
  pub batch_size : ℕ
  pub poll_interval_ms : ℕ
  pub status : PipelineStatus
  pub last_processed_timestamp : ℕ
  pub last_processed_id : ℕ
  pub total_mutations_processed : ℕ
  pub total_mutations_failed : ℕ
  pub current_lag_records : ℕ
  pub current_lag_ms : ℕ

-- The pipeline's id is `options.pipelineId || 'incremental_pipeline'`; the batch size is
-- `options.batchSize || 500`, at least 1, and the interval `options.pollIntervalMs ?? 1000`.
unfoldable pub new : Text → Option ℕ → Option ℕ → IncrementalRunner
new pipeline_id batch_size poll_interval_ms = record {
  pipeline_id = pipeline_id;
  batch_size = max 1 (or_nonzero batch_size 500);
  poll_interval_ms = or_default poll_interval_ms 1000;
  status = initialized;
  last_processed_timestamp = 0;
  last_processed_id = 0;
  total_mutations_processed = 0;
  total_mutations_failed = 0;
  current_lag_records = 0;
  current_lag_ms = 0;
}

pub record Round : Type 0 where
  pub stopping : Bool
  pub lag_at : ℕ
  pub reads_lag : Bool
  pub fetches : Bool
  pub sinks : Sinks
  pub persists : Bool
  pub commits : Bool
  pub saves_failure : Bool
  pub now : ℕ

-- What a step of the loop leaves: the runner, the world, and whether the loop goes on.
abbrev pub After : Type 0
After = IncrementalRunner × World × Bool

-- The handler of the loop's errors; its own error is ignored.
pub fail : IncrementalRunner → World → Round → After
fail b w r =
    let b' = record b { status = failed } in
    if r.saves_failure
    then (
      b',
      record w { checkpoints = update_status b.pipeline_id failed r.now w.checkpoints },
      false,
    )
    else (b', w, false)

abbrev pub with_lag : IncrementalRunner → IncrementalLag → IncrementalRunner
with_lag b l = record b { current_lag_records = l.lag_records; current_lag_ms = l.lag_ms }

abbrev pub counted : IncrementalRunner → ℕ → ℕ → IncrementalRunner
counted b batch_success_count batch_failed_count = record b {
  total_mutations_processed = b.total_mutations_processed + batch_success_count;
  total_mutations_failed = b.total_mutations_failed + batch_failed_count;
}

pub lag_metadata : IncrementalRunner → Json
lag_metadata b = obj (
    field (codes "lagRecords") (num (show b.current_lag_records))
      (field (codes "lagMs") (num (show b.current_lag_ms)) end))

abbrev pub commit_data : IncrementalRunner → SourceRecord → ℕ → ℕ → CheckpointCommitData
commit_data b last_record batch_success_count batch_failed_count = record {
  last_processed_id = last_record.id;
  last_processed_timestamp = some last_record.updated_at;
  batch_success_count = batch_success_count;
  batch_failed_count = batch_failed_count;
  metadata = some (lag_metadata b);
}

-- The watermark is committed, and then moved in memory.
pub commit : IncrementalRunner → World → Round → SourceRecord → ℕ → ℕ → After
unfolding fail
commit b w r last_record batch_success_count batch_failed_count =
    let b' = counted b batch_success_count batch_failed_count in
    if r.commits
    then (
      record b' {
        last_processed_timestamp = last_record.updated_at;
        last_processed_id = last_record.id;
      },
      record w {
        checkpoints =
            commit_checkpoint b.pipeline_id
              (commit_data b' last_record batch_success_count batch_failed_count) r.now
              w.checkpoints;
      },
      true,
    )
    else fail b' w r

-- The failures go to the queue before the watermark moves.
pub settle :
    IncrementalRunner
    → World
    → Round
    → List SourceRecord
    → SourceRecord
    → BatchResult
    → BatchResult
    → After
unfolding fail commit
settle b w r rs last_record es rmq =
    let failures = dlq_entries rs es rmq in
    let batch_failed_count = failed_count es rmq in
    let go = λ (w' : World).
      commit b w' r last_record (length rs - batch_failed_count) batch_failed_count in
    if has_any failures
    then (if r.persists
        then go (record w { dlq = (persist_failures w.dlq failures r.now).0 })
        else fail b w r)
    else go w

-- An empty batch, or a sink's error: the loop sleeps and goes on, at the same watermark.
pub process : IncrementalRunner → World → Round → List SourceRecord → After
unfolding settle
process b w r rs = elim (get_last? rs) [
  | none ↦ (b, w, true)
  | some last_record ↦
      let (w', results) = dispatch w r.sinks record_mutated rs in
      elim results [ none ↦ (b, w', true) | some (es, rmq) ↦ settle b w' r rs last_record es rmq ]
]

-- The lag is read first.
unfoldable pub iterate : IncrementalRunner → World → Round → After
unfolding fail process
iterate b w r =
    let lag =
      get_incremental_lag w.reader b.last_processed_timestamp b.last_processed_id r.lag_at in
    let seen = with_lag b lag in
    if r.stopping
    then (record b { status = paused }, w, false)
    else if r.reads_lag
    then (if r.fetches
        then process seen w r (
            fetch_incremental_batch w.reader b.last_processed_timestamp b.last_processed_id
              (some b.batch_size))
        else fail seen w r)
    else fail b w r

unfoldable pub loop : IncrementalRunner → World → List Round → IncrementalRunner × World
loop b w [] = (b, w)
loop b w (r ∷ rs) =
    let (b', w', going) = iterate b w r in
    let rest = loop b' w' rs in if going then rest else (b', w')
