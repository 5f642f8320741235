-- ===== src/Consumer.antt =====
-- apps/consumer/src/consumer.service.ts, the handling of messages. What `JSON.parse` gives for a
-- text is a parameter, `parse`. A reply stands for the call on the channel; `acked_new` marks the
-- acknowledgement that follows the business processing.
pub mod Counts
pub mod Once
pub mod Origins
pub mod Supervision
mod Examples
use optio_test.Prelude.{
  ℕ, ◌+◌, Bool, true, false, not, ◌||◌, ◌&&◌, Option, none, some, List, [], ◌∷◌, ◌++◌,
  if◌then◌else◌,
}
use optio_test.Prelude.Text.{Text, codes, or_text, includes}
use optio_test.Dedup
use optio_test.Dedup.{DeduplicationStore}

-- The fields of an event that the consumer reads; `source_id` and `version` as a template prints
-- them, so "undefined" where they are missing.
pub record ReplicationEvent : Type 0 where
  pub event_id : Option Text
  pub source_id : Text
  pub version : Text

-- `JSON.parse` throws, gives no object, or gives an object.
pub data Parsed : Type 0 where
  malformed not_object : Parsed
  event : ReplicationEvent → Parsed

pub record ConsumeMessage : Type 0 where
  pub content : Text
  pub message_id : Option Text

pub record EventConsumerService : Type 0 where
  pub total_received : ℕ
  pub unique_processed : ℕ
  pub duplicates_prevented : ℕ
  pub dead_lettered : ℕ
  pub last_processed_at : Option ℕ
  pub deduplication_store : DeduplicationStore
  pub has_channel : Bool

pub data Reply : Type 0 where
  ignored no_channel nacked : Reply
  acked_duplicate : Text → Reply
  acked_new : Text → Reply

unfoldable pub new : DeduplicationStore → EventConsumerService
new store = record {
  total_received = 0;
  unique_processed = 0;
  duplicates_prevented = 0;
  dead_lettered = 0;
  last_processed_at = none;
  deduplication_store = store;
  has_channel = false;
}

unfoldable pub is_marked : Text → Bool
is_marked raw =
    includes (codes "\"is_corrupted\":true") raw || includes (codes "\"is_corrupted\": true") raw

abbrev pub is_falsy : Option Text → Bool
is_falsy none = true
is_falsy (some []) = true
is_falsy (some (c ∷ s)) = false

-- The event, where the validation lets the text through.
unfoldable pub validate : (Text → Parsed) → Text → Option ReplicationEvent
unfolding is_marked
validate parse raw = if is_marked raw then none else elim (parse raw) [
  | malformed ↦ none
  | not_object ↦ none
  | event e ↦ if is_falsy e.event_id then none else some e
]

unfoldable pub dedup_id : ConsumeMessage → ReplicationEvent → Text
dedup_id m e =
    or_text
      (some (or_text m.message_id (codes "rec_" ++ (e.source_id ++ (codes "_v" ++ e.version)))))
      (or_text e.event_id [])

reject : EventConsumerService → EventConsumerService × Reply
reject c = (record c { dead_lettered = c.dead_lettered + 1 }, nacked)

-- The duplicate check and what follows it.
pub accept : EventConsumerService → Text → ℕ → EventConsumerService × Reply
accept c id now =
    if Dedup.is_duplicate c.deduplication_store id
    then (record c { duplicates_prevented = c.duplicates_prevented + 1 }, acked_duplicate id)
    else (
      record c {
        deduplication_store = Dedup.record_id c.deduplication_store id;
        unique_processed = c.unique_processed + 1;
        last_processed_at = some now;
      },
      acked_new id,
    )

-- A message that came over a channel.
pub receive :
    (Text → Parsed) → EventConsumerService → ConsumeMessage → ℕ → EventConsumerService × Reply
unfolding reject accept
receive parse c m now =
    let received = record c { total_received = c.total_received + 1 } in
    elim (validate parse m.content) [
      | none ↦ reject received
      | some e ↦ accept received (dedup_id m e) now
    ]

-- `override` says whether a channel was passed.
unfoldable pub handle_message :
    (Text → Parsed)
    → EventConsumerService
    → Option ConsumeMessage
    → Bool
    → ℕ
    → EventConsumerService × Reply
unfolding receive
handle_message parse c none override now = (c, ignored)
handle_message parse c (some m) override now =
    if override || c.has_channel then receive parse c m now else (c, no_channel)

unfoldable pub reset_metrics : EventConsumerService → EventConsumerService
reset_metrics c = record c {
  total_received = 0;
  unique_processed = 0;
  duplicates_prevented = 0;
  dead_lettered = 0;
  last_processed_at = none;
  deduplication_store = Dedup.clear c.deduplication_store;
}

pub record ConsumerMetrics : Type 0 where
  pub total_received : ℕ
  pub unique_processed : ℕ
  pub duplicates_prevented : ℕ
  pub dead_lettered : ℕ
  pub dedup_store_size : ℕ
  pub last_processed_at : Option ℕ

unfoldable pub get_metrics : EventConsumerService → ConsumerMetrics
get_metrics c = record {
  total_received = c.total_received;
  unique_processed = c.unique_processed;
  duplicates_prevented = c.duplicates_prevented;
  dead_lettered = c.dead_lettered;
  dedup_store_size = Dedup.size c.deduplication_store;
  last_processed_at = c.last_processed_at;
}
