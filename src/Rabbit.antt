-- ===== src/Rabbit.antt =====
-- apps/pipeline/src/sinks/rabbitmq/rabbitmq.sink.ts: the event stream sink. The channel's answers
-- and the random event ids are the parameter `Broker`.
pub mod Batch
pub mod Described
pub mod Connection
pub mod Poison
pub mod Keys
mod Examples
use optio_test.Prelude.{
  ℕ, suc, ◌+◌, Bool, true, false, Option, none, some, List, [], ◌∷◌, ◌++◌, map, length,
  if◌then◌else◌, or_default,
}
use optio_test.Prelude.Text.{Text, codes}
use optio_test.Prelude.Decimal.{show}
use optio_test.Types.{
  SourceRecord, ReplicationEvent, ReplicationEventType, record_backfilled, record_mutated,
  record_deleted, FailureEntry, of_record, no_item, BatchResult, empty_result,
}

pub record RabbitMqSink : Type 0 where
  pub exchange_name : Text
  pub pipeline_id : Text
  pub has_channel : Bool

-- Building and publishing one message: it was handed to the channel, or something threw. A full
-- socket makes the loop wait for the drain before it goes on, and changes nothing else.
pub data PublishOutcome : Type 0 where
  sent : PublishOutcome
  threw : Text → PublishOutcome

-- What a batch meets, by position in the batch; `confirms` is the error of `waitForConfirms`.
pub record Broker : Type 0 where
  pub outcome : ℕ → PublishOutcome
  pub event_id : ℕ → Text
  pub timestamp : ℕ → ℕ
  pub confirms : Option Text

pub record Message : Type 0 where
  pub exchange : Text
  pub routing_key : Text
  pub message_id : Text
  pub event : ReplicationEvent

unfoldable pub transform_record :
    RabbitMqSink → SourceRecord → ReplicationEventType → Text → ℕ → ℕ → ReplicationEvent
transform_record s r event_type event_id timestamp batch_sequence = record {
  event_id = event_id;
  event_type = event_type;
  timestamp = timestamp;
  source_id = r.id;
  source_uuid = r.uuid;
  version = r.version;
  tenant_id = r.tenant_id;
  payload = r.payload;
  pipeline_id = s.pipeline_id;
  batch_sequence = batch_sequence;
}

unfoldable pub message_id : ℕ → ℕ → Text
message_id id version = codes "rec_" ++ (show id ++ (codes "_v" ++ show version))

abbrev pub routing_key : ReplicationEventType → Text
routing_key record_backfilled = codes "record.backfilled"
routing_key record_mutated = codes "record.mutated"
routing_key record_deleted = codes "record.mutated"

abbrev pub payload_corrupted : Text
payload_corrupted = codes "AMQP_PAYLOAD_CORRUPTED"

abbrev pub publish_exception : Text
publish_exception = codes "AMQP_PUBLISH_EXCEPTION"

abbrev pub broker_nack : Text
broker_nack = codes "AMQP_BROKER_NACK"

abbrev pub poison_failure : SourceRecord → FailureEntry
poison_failure r = record {
  record_id = r.id;
  error_reason = codes "Synthetic poison pill detected on source record ID " ++ show r.id;
  error_code = payload_corrupted;
  raw_item = of_record r;
}

abbrev exception_failure : SourceRecord → Text → FailureEntry
exception_failure r error = record {
  record_id = r.id;
  error_reason = codes "Serialization/publish error: " ++ error;
  error_code = publish_exception;
  raw_item = of_record r;
}

abbrev nack_failure : Text → ℕ → FailureEntry
nack_failure error id = record {
  record_id = id;
  error_reason = codes "Broker NACK on batch confirm: " ++ error;
  error_code = broker_nack;
  raw_item = no_item;
}

-- What the publishing loop leaves: the failures, the ids in flight, and the messages published.
pub record Loop : Type 0 where
  pub failures : List FailureEntry
  pub in_flight_ids : List ℕ
  pub published : List Message

abbrev message : RabbitMqSink → Broker → ReplicationEventType → ℕ → SourceRecord → Message
message s b t i r = record {
  exchange = s.exchange_name;
  routing_key = routing_key t;
  message_id = message_id r.id r.version;
  event = transform_record s r t (b.event_id i) (b.timestamp i) (i + 1);
}

-- One record on top of what the later ones leave.
publish_one :
    RabbitMqSink → Broker → ReplicationEventType → ℕ → SourceRecord → PublishOutcome → Loop → Loop
publish_one s b t i r outcome rest =
    if r.is_corrupted
    then record rest { failures = poison_failure r ∷ rest.failures }
    else elim outcome [
      | sent ↦ record rest {
        in_flight_ids = r.id ∷ rest.in_flight_ids;
        published = message s b t i r ∷ rest.published;
      }
      | threw e ↦ record rest { failures = exception_failure r e ∷ rest.failures }
    ]

unfoldable pub publish_loop :
    RabbitMqSink → Broker → ReplicationEventType → ℕ → List SourceRecord → Loop
unfolding publish_one
publish_loop s b t i [] = record { failures = []; in_flight_ids = []; published = [] }
publish_loop s b t i (r ∷ rs) = publish_one s b t i r (b.outcome i) (publish_loop s b t (suc i) rs)

-- The confirms come for the whole batch, or fail for the whole batch. Nothing in flight: no wait.
confirmed_ids : List ℕ → Option Text → List ℕ
confirmed_ids ids none = ids
confirmed_ids ids (some e) = []

nacked : List ℕ → Option Text → List FailureEntry
nacked ids none = []
nacked ids (some e) = map (nack_failure e) ids

unfoldable pub confirm : Loop → Option Text → BatchResult
unfolding confirmed_ids nacked
confirm l confirms =
    let successful = confirmed_ids l.in_flight_ids confirms in
    let failures = l.failures ++ nacked l.in_flight_ids confirms in
    record {
      success_count = length successful;
      failed_count = length failures;
      successful_ids = successful;
      failures = failures;
    }

-- `none` is the error for a sink with no channel. The second part is what was published.
unfoldable pub publish_batch :
    RabbitMqSink
    → Broker
    → List SourceRecord
    → ReplicationEventType
    → Option (BatchResult × List Message)
unfolding publish_loop confirm
publish_batch s b [] t = some (empty_result, [])
publish_batch s b (r ∷ rs) t =
    if s.has_channel
    then some (
      confirm (publish_loop s b t 0 (r ∷ rs)) b.confirms,
      (publish_loop s b t 0 (r ∷ rs)).published,
    )
    else none
