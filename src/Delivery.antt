-- ===== src/Delivery.antt =====
-- From the sink of apps/pipeline/src/sinks/rabbitmq/rabbitmq.sink.ts to the consumer of
-- apps/consumer/src/consumer.service.ts, over a broker that may deliver a message again. `print`
-- stands for `JSON.stringify`, `parse` for `JSON.parse`.
mod Examples
use mathlib.Core.Option.{some-injective}
use optio_test.Prelude.{
  ℕ, ◌≤◌, ◌≡◌, refl, sym, ap, ◌∙◌, subst, inl, inr, true, false, Option, none, some, List, [], ◌∷◌,
  ◌++◌, length, Member, Member-append, Option-cases,
}
use optio_test.Prelude.Text.{Text, codes, or_text, not_empty}
use optio_test.Prelude.Decimal.{show}
use optio_test.Types.{SourceRecord, ReplicationEvent, ReplicationEventType, BatchResult}
use optio_test.Rabbit.{RabbitMqSink, Broker, Message, message_id, publish_batch}
use optio_test.Rabbit.Poison.{IsMessageOf, publish_batch_poison, publish_batch_named}
use optio_test.Consumer
use optio_test.Consumer.{
  Parsed, event, is_marked, is_falsy, ConsumeMessage, EventConsumerService, new, validate, dedup_id,
  accept, receive, handle_message,
}
use optio_test.Consumer.Once.{processed, delivered_id, deliver, effectively_once}
use optio_test.Consumer.Origins.{processed_from}
use optio_test.Dedup
use optio_test.Dedup.{contains}
use optio_test.Dedup.Laws.{Distinct}

-- The delivery of a published message.
abbrev pub wire : (ReplicationEvent → Text) → Message → ConsumeMessage
wire print p = record { content = print p.event; message_id = some p.message_id }

-- Every delivery is one of a published message.
abbrev pub OnlyPublished :
    (ReplicationEvent → Text) → List Message → List (ConsumeMessage × ℕ) → Type 0
OnlyPublished print msgs ms =
    (m : ConsumeMessage) (now : ℕ)
    → Member (m, now) ms
    → (p : Message) × Member p msgs × (m ≡ wire print p)

-- Every published message is delivered at some time.
abbrev pub AllDelivered :
    (ReplicationEvent → Text) → List Message → List (ConsumeMessage × ℕ) → Type 0
AllDelivered print msgs ms =
    (p : Message) → Member p msgs → (now : ℕ) × Member (wire print p, now) ms

-- The fields of a published event that the consumer reads.
abbrev pub read_event : ReplicationEvent → Consumer.ReplicationEvent
read_event e = record {
  event_id = some e.event_id;
  source_id = show e.source_id;
  version = show e.version;
}

-- What JSON.parse and JSON.stringify promise of the messages: the one reads what the other printed.
abbrev pub RoundTrips : (ReplicationEvent → Text) → (Text → Parsed) → List Message → Type 0
RoundTrips print parse msgs =
    (p : Message) → Member p msgs → parse (print p.event) ≡ event (read_event p.event)

-- No printed message holds the text by which the consumer knows a poison pill, as a field of a
-- payload might.
abbrev pub Unmarked : (ReplicationEvent → Text) → List Message → Type 0
Unmarked print msgs = (p : Message) → Member p msgs → is_marked (print p.event) ≡ false

not_falsy : (t : Text) → not_empty t ≡ true → is_falsy (some t) ≡ false
not_falsy [] h = cc
not_falsy (c ∷ t) h = refl

readable :
    (print : ReplicationEvent → Text) (parse : Text → Parsed) (p : Message)
    → parse (print p.event) ≡ event (read_event p.event)
    → is_marked (print p.event) ≡ false
    → not_empty p.event.event_id ≡ true
    → validate parse (print p.event) ≡ some (read_event p.event)
unfolding validate
readable print parse p trip clean named =
    rw (clean, trip, not_falsy p.event.event_id named, validate) refl

keyed_id :
    (print : ReplicationEvent → Text) (p : Message) (r : SourceRecord)
    (e : Consumer.ReplicationEvent)
    → p.message_id ≡ message_id r.id r.version
    → dedup_id (wire print p) e ≡ message_id r.id r.version
unfolding dedup_id message_id
keyed_id print p r e k = rw k refl

-- A readable message is handled under its own id.
wire_id :
    (print : ReplicationEvent → Text) (parse : Text → Parsed) (p : Message) (r : SourceRecord)
    (e : Consumer.ReplicationEvent)
    → p.message_id ≡ message_id r.id r.version
    → validate parse (print p.event) ≡ some e
    → delivered_id parse (wire print p) ≡ some p.message_id
wire_id print parse p r e k read =
    rw (read, delivered_id) (ap some (keyed_id print p r e k ∙ sym k))

-- A batch is published, and a new consumer handles deliveries of its messages, each of them at least
-- once and any of them again, in any order. If the messages are parsed as they were printed, the ids
-- drawn for events are not empty, no printed message holds the text that marks a poison pill, and the
-- consumer processes no more ids than its window holds, then no id is processed twice, every id
-- processed is that of a version of a record of the batch that is no poison pill, and the id of every
-- published message is processed.
pub published_once :
    (s : RabbitMqSink) (b : Broker) (rs : List SourceRecord) (t : ReplicationEventType)
    (print : ReplicationEvent → Text) (parse : Text → Parsed) (capacity : ℕ)
    (ms : List (ConsumeMessage × ℕ)) (res : BatchResult) (msgs : List Message)
    → publish_batch s b rs t ≡ some (res, msgs)
    → OnlyPublished print msgs ms
    → AllDelivered print msgs ms
    → RoundTrips print parse msgs
    → ((i : ℕ) → not_empty (b.event_id i) ≡ true)
    → Unmarked print msgs
    → length (processed (deliver parse (new (Dedup.new capacity)) ms).1) ≤ capacity
    → Distinct (processed (deliver parse (new (Dedup.new capacity)) ms).1)
      × ((id : Text)
          → Member id (processed (deliver parse (new (Dedup.new capacity)) ms).1)
          → (r : SourceRecord) × Member r rs
            × (r.is_corrupted ≡ false)
            × (id ≡ message_id r.id r.version))
      × ((p : Message)
          → Member p msgs
          → contains p.message_id (processed (deliver parse (new (Dedup.new capacity)) ms).1)
            ≡ true)
published_once s b rs t print parse capacity ms res msgs e only every trips drawn clean h =
    let once = effectively_once parse capacity ms h in
    let origin = publish_batch_poison s b rs t e in
    let own_id : (p : Message)
        → Member p msgs
        → delivered_id parse (wire print p) ≡ some p.message_id =
      λ p at.
        let (r, in_rs, of) = origin.0 p at in
        let (j, named) = publish_batch_named s b rs t e p at in
        wire_id print parse p r (read_event p.event) of.keyed
          (readable print parse p (trips p at) (clean p at) (ap not_empty named ∙ drawn j)) in
    (
      once.0,
      λ id at.
          let (m, now, in_ms, d) = processed_from parse (new (Dedup.new capacity)) ms id at in
          let (p, in_msgs, same) = only m now in_ms in
          let (r, in_rs, of) = origin.0 p in_msgs in
          (
            r,
            in_rs,
            of.sound,
            some-injective _ _ (sym d ∙ (ap (delivered_id parse) same ∙ own_id p in_msgs))
                ∙ of.keyed,
          ),
      λ p at.
          let (now, in_ms) = every p at in
          once.1 (wire print p) now p.message_id in_ms (own_id p at),
    )
