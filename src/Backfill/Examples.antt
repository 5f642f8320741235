-- ===== src/Backfill/Examples.antt =====
-- A table of two rows, one of them corrupted, replicated in batches of one by a process that is cut
-- off after its first round and a second one that finishes.
use optio_test.Prelude.{◌≡◌, refl, inl, inr, true, false, none, some, List, [], ◌∷◌, arith}
use optio_test.Prelude.Order.{order_by, select}
use optio_test.Prelude.Text.{codes, text_eq}
use optio_test.Types.{completed, running, ReplicationCheckpoint}
use optio_test.Source.Payloads.{AreFilled}
use optio_test.Samples.{breaker, world, sinks, sample_row}
use optio_test.Source.{map_row_to_source_record, backfill_rows, fetch_backfill_batch}
use optio_test.Checkpoint.{
  select_row, update_rows, get_checkpoint, commit_checkpoint, update_status,
}
use optio_test.Breaker.{CircuitBreaker, CircuitBreakerOptions, Readings, Draw, healthy}
use optio_test.Breaker
use optio_test.Breaker.Execute.{execute}
use optio_test.Dlq.{persist_failures}
use optio_test.Elastic.{bulk_upsert, parse_bulk_response}
use optio_test.Rabbit.{publish_batch, publish_loop}
use optio_test.Runner.{World, Guard, Sinks, guarded, dispatch}
use optio_test.Backfill.{batch_metadata, throughput, new, Round, iterate, loop}
use optio_test.Backfill.Boots.{Boot, start}
use optio_test.Runner.Accounts.{Holds}
use optio_test.Backfill.Restarts.{Process, processes, no_loss}
use optio_test.Backfill.Completion.{last_process, completed_all}
use optio_test.Backfill.Progress.{IsGood, start_completes}

abbrev good_round : Round
good_round = record {
  stopping = false;
  fetches = true;
  sinks = sinks;
  persists = true;
  commits = true;
  completes = true;
  saves_failure = true;
  stopped_late = false;
  now = 10;
}

abbrev boot : Boot
boot = record {
  reads = true;
  inserts = true;
  stopping = false;
  saves_status = true;
  now = 5;
  started_at = 6;
}

abbrev process : List Round → Process
process rounds = record {
  batch_size = some 1;
  es_breaker = breaker;
  rmq_breaker = breaker;
  boot = boot;
  rounds = rounds;
}

abbrev cut_off : List Process
cut_off = process (good_round ∷ []) ∷ []

abbrev committed_row : ReplicationCheckpoint
committed_row = record {
  pipeline_id = codes "p";
  last_processed_id = 1;
  last_processed_timestamp = none;
  status = running;
  records_processed = 0;
  records_failed = 1;
  metadata = batch_metadata (throughput 0 (some 6) 10) 1;
  updated_at = 10;
}

completes :
    (last_process (codes "p") world cut_off (process (good_round ∷ good_round ∷ []))).0.status
    ≡ completed
unfolding start loop iterate get_checkpoint select_row processes text_eq new fetch_backfill_batch
    backfill_rows order_by select dispatch guarded execute Breaker.new bulk_upsert
    optio_test.Elastic.any_null publish_batch map_row_to_source_record commit_checkpoint update_rows
    update_status persist_failures parse_bulk_response publish_loop optio_test.Runner.add_id
    optio_test.Runner.unique_ids
completes = refl

completed_all_example :
    Holds (last_process (codes "p") world cut_off (process (good_round ∷ good_round ∷ []))).1 1
unfolding select_row
completed_all_example =
    completed_all (codes "p") world cut_off (process (good_round ∷ good_round ∷ []))
      (sample_row 1 true) refl completes (inr (inl refl)) (omega arith)

resumed :
    (select_row (codes "p") (processes (codes "p") world cut_off).checkpoints)
    ≡ some (committed_row)
unfolding start loop iterate get_checkpoint select_row processes text_eq new fetch_backfill_batch
    backfill_rows order_by select dispatch guarded execute Breaker.new bulk_upsert
    optio_test.Elastic.any_null publish_batch map_row_to_source_record commit_checkpoint update_rows
    update_status persist_failures parse_bulk_response publish_loop optio_test.Runner.add_id
    optio_test.Runner.unique_ids
resumed = refl

no_loss_example : Holds (processes (codes "p") world cut_off) 1
unfolding select_row
no_loss_example =
    no_loss (codes "p") world cut_off committed_row (sample_row 1 true) refl resumed
      (inr (inl refl)) (omega arith) (omega arith)

filled : AreFilled world.reader
unfolding map_row_to_source_record
filled r (inl e) = rw e refl
filled r (inr (inl e)) = rw e refl
filled r (inr (inr m)) = elim m [ ]

good : IsGood good_round
good = record {
  runs_on = refl;
  stays_on = refl;
  fetches = refl;
  persists = refl;
  commits = refl;
  completes = refl;
  sinks_good = record { es_healthy = refl; rmq_healthy = refl; answers = λ operations e. cc };
}

start_completes_example :
    (start
      (new (codes "p") (some 1))
      world
      boot
      (good_round ∷ good_round ∷ good_round ∷ [])).0.status
    ≡ completed
start_completes_example =
    start_completes (codes "p") (some 1) world boot (good_round ∷ good_round ∷ good_round ∷ []) refl
      refl refl refl filled (good, (good, (good, tt))) (omega arith)
