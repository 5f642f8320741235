-- ===== src/Incremental/Examples.antt =====
-- A table of two rows, one of them corrupted, polled in batches of one.
use optio_test.Prelude.{
  ℕ, Bool, sym, subst, ◌∙◌, Member, ◌≡◌, refl, inl, inr, true, false, none, some, List, [], ◌∷◌,
  arith,
}
use optio_test.Prelude.Order.{order_by, select}
use optio_test.Prelude.Text.{codes, text_eq}
use optio_test.Types.{running, ReplicationCheckpoint}
use optio_test.Source.Payloads.{AreFilled}
use optio_test.Samples.{breaker, world, sinks, sample_row}
use optio_test.Source.{map_row_to_source_record}
use optio_test.Checkpoint.{
  select_row, update_rows, get_checkpoint, commit_checkpoint, update_status,
}
use optio_test.Breaker.{CircuitBreaker, CircuitBreakerOptions, Readings, Draw, healthy}
use optio_test.Breaker
use optio_test.Breaker.Execute.{execute}
use optio_test.Dlq.{persist_failures}
use optio_test.Elastic.{bulk_upsert, parse_bulk_response}
use optio_test.Rabbit.{publish_batch, publish_loop}
use optio_test.Runner.{World, Guard, Sinks, guarded, dispatch}
use optio_test.Runner.Accounts.{Holds}
use optio_test.Source.{
  SourceRow, is_newer, incremental_rows, fetch_incremental_batch, get_incremental_lag,
}
use optio_test.Source.Incremental.{Aligned, fetch_incremental_batch_complete}
use optio_test.Batches.{ids}
use mathlib.Core.List.{Mem}
use optio_test.Incremental.{new, Round, iterate, loop, with_lag, lag_metadata}
use optio_test.Incremental.Boots.{Boot, start}
use optio_test.Incremental.Progress.{IsGood, start_catches_up}
use mathlib.Core.Option.{some-injective}
use optio_test.Incremental.Safety.{mark_of}
use optio_test.Incremental.Restarts.{Process, KeepsPast, AllKeepPast, processes, no_change_lost}

abbrev good_round : Round
good_round = record {
  stopping = false;
  lag_at = 1500;
  reads_lag = true;
  fetches = true;
  sinks = sinks;
  persists = true;
  commits = true;
  saves_failure = true;
  now = 10;
}

-- A process that polls once.
abbrev polling : List SourceRow → Process
polling table = record {
  table = table;
  batch_size = some 1;
  poll_interval_ms = none;
  es_breaker = breaker;
  rmq_breaker = breaker;
  boot = record { reads = true; inserts = true; stopping = false; saves_status = true; now = 5 };
  rounds = good_round ∷ [];
}

-- A row comes to the table between the two processes.
abbrev grown : List SourceRow
grown = sample_row 3 false ∷ world.reader.table

abbrev polled : List Process
polled = polling world.reader.table ∷ polling grown ∷ []

abbrev row_after : ℕ → ℕ → ReplicationCheckpoint
row_after id good = record {
  pipeline_id = codes "p";
  last_processed_id = id;
  last_processed_timestamp = some 1000;
  status = running;
  records_processed = good;
  records_failed = 1;
  metadata =
      lag_metadata
        (with_lag (new (codes "p") none none) (record { lag_records = 2; lag_ms = 500 }));
  updated_at = 10;
}

abbrev between : World
between = processes (codes "p") world (polling world.reader.table ∷ [])

committed_between : (select_row (codes "p") between.checkpoints) ≡ some (row_after 1 0)
unfolding start loop iterate get_checkpoint select_row processes text_eq new fetch_incremental_batch
    incremental_rows get_incremental_lag order_by select dispatch guarded execute Breaker.new
    bulk_upsert optio_test.Elastic.any_null publish_batch map_row_to_source_record commit_checkpoint
    update_rows update_status persist_failures parse_bulk_response publish_loop
    optio_test.Runner.add_id optio_test.Runner.unique_ids lag_metadata
committed_between = refl

committed_after :
    (select_row (codes "p") (processes (codes "p") world polled).checkpoints) ≡ some (row_after 2 1)
unfolding start loop iterate get_checkpoint select_row processes text_eq new fetch_incremental_batch
    incremental_rows get_incremental_lag order_by select dispatch guarded execute Breaker.new
    bulk_upsert optio_test.Elastic.any_null publish_batch map_row_to_source_record commit_checkpoint
    update_rows update_status persist_failures parse_bulk_response publish_loop
    optio_test.Runner.add_id optio_test.Runner.unique_ids lag_metadata
committed_after = refl

aligned : Aligned world.reader.table
aligned r (inl e) = rw e refl
aligned r (inr (inl e)) = rw e refl
aligned r (inr (inr m)) = elim m [ ]

same_table : between.reader.table ≡ world.reader.table
unfolding start loop iterate get_checkpoint select_row processes text_eq new fetch_incremental_batch
    incremental_rows get_incremental_lag order_by select dispatch guarded execute Breaker.new
    bulk_upsert optio_test.Elastic.any_null publish_batch map_row_to_source_record commit_checkpoint
    update_rows update_status persist_failures parse_bulk_response publish_loop
    optio_test.Runner.add_id optio_test.Runner.unique_ids lag_metadata
same_table = refl

last_table : (processes (codes "p") world polled).reader.table ≡ grown
unfolding start loop iterate get_checkpoint select_row processes text_eq new fetch_incremental_batch
    incremental_rows get_incremental_lag order_by select dispatch guarded execute Breaker.new
    bulk_upsert optio_test.Elastic.any_null publish_batch map_row_to_source_record commit_checkpoint
    update_rows update_status persist_failures parse_bulk_response publish_loop
    optio_test.Runner.add_id optio_test.Runner.unique_ids lag_metadata
last_table = refl

not_behind : is_newer 1000 1 (sample_row 3 false) ≡ true
not_behind = refl

contradiction : {b : Bool} → b ≡ true → ¬ (b ≡ false)
contradiction e n = cc

-- The new row comes after the watermark that the first process committed.
keeps_past : KeepsPast (codes "p") between grown
keeps_past c e z m newer behind =
    let same = some-injective _ _ (sym committed_between ∙ e) in
    let behind' : is_newer 1000 1 z ≡ false =
      subst (λ (x : ReplicationCheckpoint). is_newer (mark_of x) x.last_processed_id z ≡ false)
        (sym same) behind in
    elim m [
      | inl at ↦
          absurd (contradiction not_behind (subst (λ r. is_newer 1000 1 r ≡ false) at behind'))
      | inr old ↦ subst (Member z) (sym same_table) old
    ]

grown-Aligned : Aligned grown
grown-Aligned r (inl e) = rw e refl
grown-Aligned r (inr m) = aligned r m

first_keeps : KeepsPast (codes "p") world world.reader.table
first_keeps c e z m newer behind = m

keeps : AllKeepPast (codes "p") world polled
unfolding AllKeepPast processes
keeps = (aligned, first_keeps, (grown-Aligned, keeps_past, tt))

no_change_lost_example : Holds (processes (codes "p") world polled) 1
unfolding select_row
no_change_lost_example =
    no_change_lost (codes "p") world polled (row_after 2 1) (sample_row 1 true) keeps refl
      committed_after (subst (Member (sample_row 1 true)) (sym last_table) (inr (inr (inl refl))))
      refl refl

fetch_incremental_batch_complete_example :
    Mem 1 (ids (fetch_incremental_batch world.reader 0 0 (some 1)))
unfolding fetch_incremental_batch incremental_rows order_by select map_row_to_source_record
fetch_incremental_batch_complete_example =
    fetch_incremental_batch_complete world.reader aligned 0 0 (some 1) (sample_row 1 true)
      (map_row_to_source_record world.reader.parse (sample_row 1 true)) (inr (inl refl)) refl refl
      refl

abbrev boot : Boot
boot = record { reads = true; inserts = true; stopping = false; saves_status = true; now = 5 }

filled : AreFilled world.reader
unfolding map_row_to_source_record
filled r (inl e) = rw e refl
filled r (inr (inl e)) = rw e refl
filled r (inr (inr m)) = elim m [ ]

good : IsGood good_round
good = record {
  runs_on = refl;
  reads = refl;
  fetched = refl;
  persisted = refl;
  committed = refl;
  sinks_good = record { es_healthy = refl; rmq_healthy = refl; answers = λ operations e. cc };
}

start_catches_up_example :
    let after = start (new (codes "p") (some 1) none) world boot (good_round ∷ good_round ∷ []) in
    let lag =
      get_incremental_lag after.1.reader after.0.last_processed_timestamp after.0.last_processed_id
        99 in
    (lag.lag_records ≡ 0) × (lag.lag_ms ≡ 0)
start_catches_up_example =
    start_catches_up (codes "p") (some 1) none world boot (good_round ∷ good_round ∷ []) 99 refl
      refl refl refl filled (good, (good, tt)) (omega arith)
