-- ===== src/Replayer/Examples.antt =====
-- A queue with one entry for Elasticsearch, replayed by a sink that accepts it.
use optio_test.Prelude.{
  ℕ, ◌+◌, ◌≤◌, ◌<◌, ◌≡◌, ◌⊎◌, refl, inl, inr, true, false, none, some, [], ◌∷◌, Member,
}
use optio_test.Prelude.Order.{order_by, select}
use optio_test.Prelude.Text.{codes}
use optio_test.Samples.{world, sinks}
use optio_test.Types.{Json, DlqEntry, elasticsearch, pending, resolved, json}
use optio_test.Dlq.{get_entry_by_id, get_pending_entries, mark_status}
use optio_test.Elastic.{bulk_upsert, parse_bulk_response}
use optio_test.Runner.{World}
use optio_test.Replayer.Entry.{Attempt, rebuilt}
use optio_test.Replayer.{Progress, retry_entry, retry_all_pending}
use optio_test.Replayer.Settled.{Settled, InSinks}
use optio_test.Replayer.All.{retry_all_pending-Settled}
use optio_test.Replayer.Summary.{retry_all_pending_summary}

abbrev entry : DlqEntry
entry = record {
  id = 1;
  record_id = some 6;
  record_uuid = none;
  sink_target = elasticsearch;
  payload = json Json.null;
  error_code = codes "400";
  error_message = codes "bad";
  stack_trace = none;
  retry_count = 0;
  status = pending;
  created_at = 3;
  last_retried_at = none;
}

abbrev queued : World
queued = record world { dlq = record { rows = entry ∷ []; next_id = 2 } }

abbrev accepting : ℕ → Attempt
accepting i = record {
  number = λ j. none;
  fresh_uuid = codes "u";
  now = 20;
  thrown = codes "x";
  es_client = sinks.es_client;
  rmq_broker = sinks.rmq_broker;
  reads = true;
  marks = true;
  records = true;
  records_after_error = true;
}

abbrev drained : Progress
drained = retry_all_pending accepting (λ i. true) queued

drains : (drained.summary.resolved_count ≡ 1) × (drained.world.es_written ≡ 6 ∷ [])
unfolding retry_all_pending retry_entry get_pending_entries order_by select get_entry_by_id
    bulk_upsert optio_test.Elastic.any_null parse_bulk_response rebuilt mark_status
drains = (refl, refl)

queued-Settled : Settled queued
queued-Settled = record { keyed = keyed; in_sinks = open_entry }
  where
    keyed : (x y : DlqEntry) → Member x (entry ∷ []) → Member y (entry ∷ []) → x.id ≡ y.id → x ≡ y
    keyed x y (inl a) (inl b) e = cc
    keyed x y (inl a) (inr b) e = elim b [ ]
    keyed x y (inr a) m e = elim a [ ]

    open_entry : (e : DlqEntry) → Member e (entry ∷ []) → e.status ≡ resolved → InSinks queued e
    open_entry e (inl a) r = cc
    open_entry e (inr a) r = elim a [ ]

retry_all_pending-Settled_example : Settled drained.world
retry_all_pending-Settled_example =
    retry_all_pending-Settled accepting (λ i. true) queued queued-Settled

retry_all_pending_summary_example :
    (drained.summary.retried ≤ 5000)
    × ((drained.summary.retried ≤ 100) ⊎ (0 < drained.summary.resolved_count))
    × (((drained.has_thrown ≡ false)
          × (drained.summary.retried
              ≡ drained.summary.resolved_count + drained.summary.failed_count))
        ⊎ ((drained.has_thrown ≡ true)
            × (drained.summary.resolved_count + drained.summary.failed_count
                ≤ drained.summary.retried)
            × (drained.summary.retried
                ≤ drained.summary.resolved_count + drained.summary.failed_count + 1)))
retry_all_pending_summary_example = retry_all_pending_summary accepting (λ i. true) queued
