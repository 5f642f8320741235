-- ===== src/Backfill.antt =====
-- apps/pipeline/src/runners/backfill.runner.ts: the backfill loop. What one round of the loop meets
-- is a `Round`. A list of rounds that ends before the loop does stands for a process that is cut
-- off there; a failed statement with no status saved stands for one that is cut off within a round.
-- A pause, which another task requests, shows as what the tests of `stopRequested` see.
mod Completion
pub mod Progress
pub mod Control
pub mod Boots
pub mod Restarts
mod Safety
mod Rounds
mod Examples
use optio_test.Prelude.{
  ℕ, suc, ◌+◌, ◌-◌, ◌*◌, ◌/◌, max, Bool, true, false, Option, none, some, List, [], ◌∷◌, ◌++◌, map,
  length, get_last?, if◌then◌else◌, or_nonzero,
}
use optio_test.Prelude.Text.{Text, codes}
use optio_test.Prelude.Decimal.{show}
use optio_test.Types.{
  Json, num, obj, Fields, field, end, SourceRecord, PipelineStatus, initialized, running, paused,
  completed, failed, ReplicationCheckpoint, BatchResult, record_backfilled,
}
use optio_test.Source.{fetch_backfill_batch}
use optio_test.Checkpoint.{get_checkpoint, commit_checkpoint, update_status, CheckpointCommitData}
use optio_test.Dlq.{NewDlqEntry, persist_failures}
use optio_test.Runner.{World, Sinks, dispatch, dlq_entries, failed_count, has_any}

pub record BackfillRunner : Type 0 where
  pub pipeline_id : Text
  pub batch_size : ℕ
  pub status : PipelineStatus
  pub last_processed_id : ℕ
  pub total_processed : ℕ
  pub total_failed : ℕ
  pub current_throughput_eps : ℕ
  pub start_time : Option ℕ

-- The pipeline's id is `options.pipelineId || 'backfill_pipeline'`; the batch size is
-- `options.batchSize || 500`, at least 1.
unfoldable pub new : Text → Option ℕ → BackfillRunner
new pipeline_id batch_size = record {
  pipeline_id = pipeline_id;
  batch_size = max 1 (or_nonzero batch_size 500);
  status = initialized;
  last_processed_id = 0;
  total_processed = 0;
  total_failed = 0;
  current_throughput_eps = 0;
  start_time = none;
}

pub record Round : Type 0 where
  pub stopping : Bool
  pub fetches : Bool
  pub sinks : Sinks
  pub persists : Bool
  pub commits : Bool
  pub completes : Bool
  pub saves_failure : Bool
  pub stopped_late : Bool
  pub now : ℕ

-- What a step of the loop leaves: the runner, the world, and whether the loop goes on.
abbrev pub After : Type 0
After = BackfillRunner × World × Bool

-- The handler of the loop's errors; its own error is ignored.
pub fail : BackfillRunner → World → Round → After
fail b w r =
    let b' = record b { status = failed } in
    if r.saves_failure
    then (
      b',
      record w { checkpoints = update_status b.pipeline_id failed r.now w.checkpoints },
      false,
    )
    else (b', w, false)

-- `Math.round(total / max(0.001, elapsed / 1000))`
pub throughput : ℕ → Option ℕ → ℕ → ℕ
throughput total start now =
    let elapsed_ms = max 1 (now - or_nonzero start now) in
    (2 * (total * 1000) + elapsed_ms) / (2 * elapsed_ms)

pub batch_metadata : ℕ → ℕ → Json
batch_metadata throughput_eps last_batch_size = obj (
    field (codes "throughputEps") (num (show throughput_eps))
      (field (codes "lastBatchSize") (num (show last_batch_size)) end))

-- `this.totalProcessed` and `this.totalFailed` with the counts of the batch.
abbrev pub counted : BackfillRunner → Round → ℕ → ℕ → BackfillRunner
counted b r batch_success_count batch_failed_count = record b {
  total_processed = b.total_processed + batch_success_count;
  total_failed = b.total_failed + batch_failed_count;
  current_throughput_eps = throughput (b.total_processed + batch_success_count) b.start_time r.now;
}

abbrev pub commit_data : BackfillRunner → ℕ → ℕ → ℕ → ℕ → CheckpointCommitData
commit_data b new_last_processed_id batch_length batch_success_count batch_failed_count = record {
  last_processed_id = new_last_processed_id;
  last_processed_timestamp = none;
  batch_success_count = batch_success_count;
  batch_failed_count = batch_failed_count;
  metadata = some (batch_metadata b.current_throughput_eps batch_length);
}

-- The watermark is committed, and then moved in memory.
pub commit : BackfillRunner → World → Round → ℕ → ℕ → ℕ → ℕ → After
unfolding fail
commit b w r new_last_processed_id batch_length batch_success_count batch_failed_count =
    let b' = counted b r batch_success_count batch_failed_count in
    if r.commits
    then (
      record b' { last_processed_id = new_last_processed_id },
      record w {
        checkpoints =
            commit_checkpoint b.pipeline_id
              (commit_data b' new_last_processed_id batch_length batch_success_count
                batch_failed_count)
              r.now w.checkpoints;
      },
      true,
    )
    else fail b' w r

-- The failures go to the queue before the watermark moves.
pub settle :
    BackfillRunner
    → World
    → Round
    → List SourceRecord
    → SourceRecord
    → BatchResult
    → BatchResult
    → After
unfolding fail commit
settle b w r rs last es rmq =
    let failures = dlq_entries rs es rmq in
    let batch_failed_count = failed_count es rmq in
    let go = λ (w' : World).
      commit b w' r last.id (length rs) (length rs - batch_failed_count) batch_failed_count in
    if has_any failures
    then (if r.persists
        then go (record w { dlq = (persist_failures w.dlq failures r.now).0 })
        else fail b w r)
    else go w

-- The end of the table.
pub complete : BackfillRunner → World → Round → After
unfolding fail
complete b w r =
    if r.completes
    then (
      record b { status = if r.stopped_late then paused else completed },
      record w { checkpoints = update_status b.pipeline_id completed r.now w.checkpoints },
      false,
    )
    else fail (record b { status = completed }) w r

pub process : BackfillRunner → World → Round → List SourceRecord → After
unfolding fail settle complete
process b w r rs = elim (get_last? rs) [
  | none ↦ complete b w r
  | some last ↦
      let (w', results) = dispatch w r.sinks record_backfilled rs in
      elim results [ none ↦ fail b w' r | some (es, rmq) ↦ settle b w' r rs last es rmq ]
]

unfoldable pub iterate : BackfillRunner → World → Round → After
unfolding fail process
iterate b w r =
    if r.stopping
    then (record b { status = paused }, w, false)
    else if r.fetches
    then process b w r (fetch_backfill_batch w.reader b.last_processed_id (some b.batch_size))
    else fail b w r

unfoldable pub loop : BackfillRunner → World → List Round → BackfillRunner × World
loop b w [] = (b, w)
loop b w (r ∷ rs) =
    let (b', w', going) = iterate b w r in
    let rest = loop b' w' rs in if going then rest else (b', w')
