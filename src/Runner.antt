-- ===== src/Runner.antt =====
-- What the two runners of apps/pipeline/src/runners share: the state outside the process, a call of
-- a sink through its breaker, and the entries for the dead letter queue.
pub mod Guarded
pub mod Answers
pub mod Accounts
use optio_test.Prelude.{
  ℕ, Bool, true, false, not, ◌||◌, Option, none, some, List, [], ◌∷◌, ◌++◌, map, length, ◌==◌,
  if◌then◌else◌,
}
use optio_test.Prelude.Text.{Text, codes, text_eq}
use optio_test.Types.{
  Json, null, bool, num, text, arr, obj, Fields, SourceRecord, ReplicationEventType, SinkTarget,
  RawItem, no_item, DlqPayload, json, raw_item, FailureEntry, BatchResult,
}
use optio_test.Breaker.{CircuitBreaker, ProbeResult, Readings}
use optio_test.Breaker.Execute.{OperationResult, returned, threw, Call, Outcome, value, execute}
use optio_test.Source.{SourceReader}
use optio_test.Checkpoint.{Checkpoints}
use optio_test.Dlq.{NewDlqEntry, DlqTable}
use optio_test.Elastic.{Client, bulk_upsert}
use optio_test.Rabbit.{RabbitMqSink, Broker, Message, publish_batch}

-- The tables, the breakers, and the ids that the sinks have reported as written and as confirmed.
-- The last two are kept by no variable of the program; they record what the sinks hold.
pub record World : Type 0 where
  pub reader : SourceReader
  pub checkpoints : Checkpoints
  pub dlq : DlqTable
  pub es_breaker : CircuitBreaker
  pub rmq_breaker : CircuitBreaker
  pub es_index : Text
  pub rmq_sink : RabbitMqSink
  pub es_written : List ℕ
  pub rmq_confirmed : List ℕ

-- What a guarded call meets in the breaker.
pub record Guard : Type 0 where
  pub entered_at : ℕ
  pub probe : ProbeResult
  pub finished_at : ℕ
  pub readings : Readings

abbrev attempt : Guard → Option BatchResult → OperationResult BatchResult
attempt g none = threw g.readings
attempt g (some v) = returned v g.finished_at

pub result_of : Outcome BatchResult → Option BatchResult
result_of (value v) = some v
result_of _ = none

-- `breaker.execute(() => …)`, where the operation would give `o`.
unfoldable pub guarded :
    CircuitBreaker → Guard → Option BatchResult → CircuitBreaker × Option BatchResult
unfolding result_of
guarded b g o =
    let (b', out) =
      execute b (record { entered_at = g.entered_at; probe = g.probe; operation = attempt g o }) in
    (b', result_of out)

-- The ids of a result that was returned.
abbrev pub reported : Option BatchResult → List ℕ
reported none = []
reported (some res) = res.successful_ids

abbrev pub both : Option BatchResult → Option BatchResult → Option (BatchResult × BatchResult)
both (some a) (some b) = some (a, b)
both _ _ = none

abbrev pub first_part : Option (BatchResult × List Message) → Option BatchResult
first_part none = none
first_part (some (res, msgs)) = some res

-- What one dispatch meets: the breakers, the client and the channel.
pub record Sinks : Type 0 where
  pub es_guard : Guard
  pub es_client : Client
  pub rmq_guard : Guard
  pub rmq_broker : Broker

-- `Promise.all` over both sinks: it gives both results, or throws when either throws; what the
-- other sink did stays done.
unfoldable pub dispatch :
    World
    → Sinks
    → ReplicationEventType
    → List SourceRecord
    → World × Option (BatchResult × BatchResult)
dispatch w s t rs =
    let (eb, es) = guarded w.es_breaker s.es_guard (bulk_upsert s.es_client w.es_index rs) in
    let (rb, rmq) =
      guarded w.rmq_breaker s.rmq_guard (first_part (publish_batch w.rmq_sink s.rmq_broker rs t)) in
    (
      record w {
        es_breaker = eb;
        rmq_breaker = rb;
        es_written = w.es_written ++ reported es;
        rmq_confirmed = w.rmq_confirmed ++ reported rmq;
      },
      both es rmq,
    )

-- `recordMap.get(id)`: the last record of the batch with the id.
unfoldable pub find_record : ℕ → List SourceRecord → Option SourceRecord
find_record id [] = none
find_record id (r ∷ rs) = elim (find_record id rs) [
  | some q ↦ some q
  | none ↦ if r.id == id then some r else none
]

abbrev pub is_truthy : Json → Bool
is_truthy null = false
is_truthy (bool b) = b
is_truthy (num n) = not (text_eq n (codes "0"))
is_truthy (text []) = false
is_truthy (text (c ∷ s)) = true
is_truthy (arr xs) = true
is_truthy (obj fs) = true

or_raw : RawItem → DlqPayload
or_raw no_item = json (obj Fields.end)
or_raw item = raw_item item

-- `source?.payload || f.rawItem || {}`
unfoldable pub entry_payload : Option SourceRecord → RawItem → DlqPayload
unfolding or_raw
entry_payload none item = or_raw item
entry_payload (some r) item = if is_truthy r.payload then json r.payload else or_raw item

abbrev uuid_of : Option SourceRecord → Option Text
uuid_of none = none
uuid_of (some r) = if text_eq r.uuid [] then none else some r.uuid

unfoldable pub dlq_entry : SinkTarget → List SourceRecord → FailureEntry → NewDlqEntry
unfolding find_record entry_payload
dlq_entry target rs f = record {
  record_id = some f.record_id;
  record_uuid = uuid_of (find_record f.record_id rs);
  sink_target = target;
  payload = some (entry_payload (find_record f.record_id rs) f.raw_item);
  error_code = f.error_code;
  error_message = f.error_reason;
  stack_trace = none;
}

abbrev pub dlq_entries : List SourceRecord → BatchResult → BatchResult → List NewDlqEntry
dlq_entries rs es rmq =
    map (dlq_entry SinkTarget.elasticsearch rs) es.failures
    ++ map (dlq_entry SinkTarget.rabbitmq rs) rmq.failures

abbrev pub has_any : List NewDlqEntry → Bool
has_any [] = false
has_any (f ∷ fs) = true

-- The `Set` of the failed ids.
unfoldable pub add_id : ℕ → List ℕ → List ℕ
add_id x [] = x ∷ []
add_id x (y ∷ ys) = if x == y then y ∷ ys else y ∷ add_id x ys

unfoldable pub unique_ids : List ℕ → List ℕ → List ℕ
unfolding add_id
unique_ids seen [] = seen
unique_ids seen (x ∷ xs) = unique_ids (add_id x seen) xs

abbrev pub failed_count : BatchResult → BatchResult → ℕ
failed_count es rmq = length (
    unique_ids [] (
      map (λ (f : FailureEntry). f.record_id) es.failures
      ++ map (λ (f : FailureEntry). f.record_id) rmq.failures))
