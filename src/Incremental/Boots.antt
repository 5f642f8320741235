-- ===== src/Incremental/Boots.antt =====
-- The start of apps/pipeline/src/runners/incremental.runner.ts, the request for a pause and the
-- metrics.
use optio_test.Prelude.{ℕ, Bool, true, false, Option, none, some, List, if◌then◌else◌, or_default}
use optio_test.Prelude.Text.{Text}
use optio_test.Types.{PipelineStatus, running, paused, ReplicationCheckpoint}
use optio_test.Checkpoint.{get_checkpoint, update_status}
use optio_test.Runner.{World}
use optio_test.Incremental.{IncrementalRunner, Round, loop}

-- What the start meets before the loop. Where reading the watermark fails, a missing row may have been
-- inserted before the failure.
pub record Boot : Type 0 where
  pub reads : Bool
  pub inserts : Bool
  pub stopping : Bool
  pub saves_status : Bool
  pub now : ℕ

abbrev pub resume_from : IncrementalRunner → ReplicationCheckpoint → IncrementalRunner
resume_from b c = record b {
  last_processed_id = c.last_processed_id;
  last_processed_timestamp = or_default c.last_processed_timestamp 0;
  total_mutations_processed = c.records_processed;
  total_mutations_failed = c.records_failed;
}

-- What follows the recovery of the watermark. A missing row is an error.
unfoldable pub resume :
    IncrementalRunner
    → World
    → Boot
    → List Round
    → Option ReplicationCheckpoint
    → IncrementalRunner × World
resume b w boot rounds none = (b, w)
resume b w boot rounds (some c) =
    let b' = resume_from b c in
    if boot.stopping
    then (record b' { status = paused }, w)
    else if boot.saves_status
    then loop (record b' { status = running })
        (record w { checkpoints = update_status b.pipeline_id running boot.now w.checkpoints })
        rounds
    else (record b' { status = running }, w)

unfoldable pub start : IncrementalRunner → World → Boot → List Round → IncrementalRunner × World
unfolding resume
start b w boot rounds =
    let (cs, found) = get_checkpoint b.pipeline_id boot.now w.checkpoints in
    let recovered = record w { checkpoints = cs } in
    if boot.reads
    then resume b recovered boot rounds found
    else (b, if boot.inserts then recovered else w)

-- The request for a pause; it also ends a sleep, and the loop ends where it next tests
-- `stopRequested`.
unfoldable pub pause : IncrementalRunner → World → Bool → ℕ → IncrementalRunner × World
pause b w saves_status now = (
  record b { status = paused },
  if saves_status
      then record w { checkpoints = update_status b.pipeline_id paused now w.checkpoints }
      else w,
)

pub record IncrementalMetrics : Type 0 where
  pub pipeline_id : Text
  pub status : PipelineStatus
  pub last_processed_timestamp : ℕ
  pub last_processed_id : ℕ
  pub total_mutations_processed : ℕ
  pub total_mutations_failed : ℕ
  pub lag_records : ℕ
  pub lag_ms : ℕ
  pub is_running : Bool

abbrev is_running_status : PipelineStatus → Bool
is_running_status running = true
is_running_status _ = false

pub get_metrics : IncrementalRunner → IncrementalMetrics
get_metrics b = record {
  pipeline_id = b.pipeline_id;
  status = b.status;
  last_processed_timestamp = b.last_processed_timestamp;
  last_processed_id = b.last_processed_id;
  total_mutations_processed = b.total_mutations_processed;
  total_mutations_failed = b.total_mutations_failed;
  lag_records = b.current_lag_records;
  lag_ms = b.current_lag_ms;
  is_running = is_running_status b.status;
}
