-- ===== src/Replayer.antt =====
-- apps/pipeline/src/dlq/dlq.replayer.ts: the replay of one entry of the dead letter queue, and of all
-- that are pending.
pub mod Entry
pub mod Settled
pub mod All
pub mod Summary
mod Examples
use optio_test.Prelude.{
  ℕ, zero, suc, ◌+◌, Bool, true, false, ◌&&◌, ◌||◌, not, Option, none, some, List, [], ◌∷◌, ◌++◌,
  length, leb, ◌==◌, if◌then◌else◌, or_default, or_nonzero,
}
use optio_test.Prelude.Text.{Text, codes, text_eq, or_text}
use optio_test.Prelude.Decimal.{show}
use optio_test.Types.{
  Json, null, bool, num, text, arr, obj, Items, Fields, SourceRecord, active, SinkTarget,
  elasticsearch, rabbitmq, all_sinks, resolved, retrying, RawItem, no_item, of_record, of_item,
  DlqPayload, json, raw_item, DlqEntry, BatchResult, FailureEntry, record_mutated, DlqStatus,
  pending, abandoned,
}
use optio_test.Dlq.{
  DlqTable, get_entry_by_id, get_pending_entries, mark_status, record_retry_failure,
}
use optio_test.Elastic.{Client, bulk_upsert}
use optio_test.Rabbit.{Broker, publish_batch}
use optio_test.Runner.{World, is_truthy, first_part, reported}
use optio_test.Replayer.Entry.{replay_id, Attempt, rebuilt, to_elasticsearch, to_rabbitmq}

-- `success`, with the error where it is false, or an exception.
pub data RetryResult : Type 0 where
  succeeded : RetryResult
  failed : Text → RetryResult
  threw : RetryResult

pub first_reason : List FailureEntry → Option Text
first_reason [] = none
first_reason (f ∷ fs) = some f.error_reason

-- The handler of what is thrown in the `try`.
pub on_error : World → Attempt → ℕ → World × RetryResult
on_error w a id =
    if a.records_after_error
    then (record w { dlq = record_retry_failure w.dlq id a.now }, failed a.thrown)
    else (w, threw)

-- A sink rejected the record.
pub give_up : World → Attempt → ℕ → Text → World × RetryResult
unfolding on_error
give_up w a id reason =
    if a.records
    then (record w { dlq = record_retry_failure w.dlq id a.now }, failed reason)
    else on_error w a id

pub finish : World → Attempt → ℕ → World × RetryResult
unfolding on_error
finish w a id =
    if a.marks
    then (record w { dlq = mark_status w.dlq id resolved a.now }, succeeded)
    else on_error w a id

-- RabbitMQ comes second, and only where Elasticsearch did not reject the record.
pub publish_entry : World → Attempt → ℕ → DlqEntry → World × RetryResult
unfolding on_error give_up finish first_reason
publish_entry w a id e =
    if to_rabbitmq e.sink_target
    then elim (first_part
        (publish_batch w.rmq_sink a.rmq_broker (rebuilt a e ∷ []) record_mutated)) [
          | none ↦ on_error w a id
          | some res ↦
              let w' = record w { rmq_confirmed = w.rmq_confirmed ++ res.successful_ids } in
              elim (first_reason res.failures) [
                | some reason ↦ give_up w' a id reason
                | none ↦ finish w' a id
              ]
        ]
    else finish w a id

pub replay : World → Attempt → ℕ → DlqEntry → World × RetryResult
unfolding on_error give_up publish_entry first_reason
replay w a id e =
    if to_elasticsearch e.sink_target
    then elim (bulk_upsert a.es_client w.es_index (rebuilt a e ∷ [])) [
      | none ↦ on_error w a id
      | some res ↦
          let w' = record w { es_written = w.es_written ++ res.successful_ids } in
          elim (first_reason res.failures) [
            | some reason ↦ give_up w' a id reason
            | none ↦ publish_entry w' a id e
          ]
    ]
    else publish_entry w a id e

abbrev pub is_resolved : DlqStatus → Bool
is_resolved resolved = true
is_resolved _ = false

unfoldable pub retry_entry : World → Attempt → ℕ → World × RetryResult
unfolding replay
retry_entry w a id =
    if a.reads
    then elim (get_entry_by_id w.dlq id) [
      | none ↦ (w, failed (codes "DLQ entry " ++ (show id ++ codes " not found")))
      | some e ↦ if is_resolved e.status then (w, succeeded) else replay w a id e
    ]
    else (w, threw)

pub record RetrySummary : Type 0 where
  pub retried : ℕ
  pub resolved_count : ℕ
  pub failed_count : ℕ

abbrev pub empty_summary : RetrySummary
empty_summary = record { retried = 0; resolved_count = 0; failed_count = 0 }

abbrev pub count_result : RetrySummary → RetryResult → RetrySummary
count_result s succeeded = record s {
  retried = s.retried + 1;
  resolved_count = s.resolved_count + 1;
}
count_result s other = record s { retried = s.retried + 1; failed_count = s.failed_count + 1 }

-- The loops leave the world and the summary, and whether something was thrown. The attempts are
-- numbered by the items tried before.
pub record Progress : Type 0 where
  pub world : World
  pub summary : RetrySummary
  pub has_thrown : Bool

-- What one replay leaves of the loop: it goes on unless something was thrown.
abbrev pub next_progress : World → RetrySummary → RetryResult → Progress → Progress
next_progress w s threw rest = record {
  world = w;
  summary = record s { retried = s.retried + 1 };
  has_thrown = true;
}
next_progress w s succeeded rest = rest
next_progress w s (failed e) rest = rest

pub retry_items : (ℕ → Attempt) → World → RetrySummary → List DlqEntry → Progress
retry_items attempts w s [] = record { world = w; summary = s; has_thrown = false }
retry_items attempts w s (e ∷ es) =
    let (w', res) = retry_entry w (attempts s.retried) e.id in
    next_progress w' s res (retry_items attempts w' (count_result s res) es)

-- The test at the end of an iteration, on the counts of all iterations so far.
abbrev pub all_failed : RetrySummary → ℕ → Bool
all_failed s pending_count = leb pending_count s.failed_count && s.resolved_count == 0

-- At most `n` iterations; `fetches i` says whether the read of the i-th iteration succeeds.
pub retry_rounds : (ℕ → Attempt) → (ℕ → Bool) → ℕ → ℕ → World → RetrySummary → Progress
unfolding retry_items
retry_rounds attempts fetches zero i w s = record { world = w; summary = s; has_thrown = false }
retry_rounds attempts fetches (suc n) i w s =
    let items = get_pending_entries w.dlq 100 in
    let p = retry_items attempts w s items in
    let rest = retry_rounds attempts fetches n (suc i) p.world p.summary in
    if not (fetches i)
    then record { world = w; summary = s; has_thrown = true }
    else if length items == 0
    then record { world = w; summary = s; has_thrown = false }
    else if p.has_thrown || all_failed p.summary (length items)
    then p
    else rest

unfoldable pub retry_all_pending : (ℕ → Attempt) → (ℕ → Bool) → World → Progress
unfolding retry_rounds
retry_all_pending attempts fetches w = retry_rounds attempts fetches 50 0 w empty_summary
