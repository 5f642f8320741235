-- ===== src/Delivery/Examples.antt =====
-- A batch of a sound record and a poison pill: one message, delivered twice.
use optio_test.Prelude.{
  ℕ, ◌≡◌, refl, ap, inl, inr, true, false, none, some, List, [], ◌∷◌, ◌++◌, ◌==◌, if◌then◌else◌,
  arith,
}
use optio_test.Prelude.Text.{Text, codes, text_eq, includes, starts_with}
use optio_test.Prelude.Decimal.{show}
use optio_test.Types.{ReplicationEvent, record_mutated, BatchResult}
use optio_test.Samples.{sample, sound_and_poison, sinks}
use optio_test.Rabbit.{
  RabbitMqSink, Message, Loop, confirm, publish_loop, publish_batch, message_id,
}
use optio_test.Consumer.{
  Parsed, event, ConsumeMessage, new, handle_message, is_marked, validate, dedup_id,
}
use optio_test.Consumer.Once.{deliver, processed}
use optio_test.Dedup
use optio_test.Dedup.Laws.{Distinct}
use optio_test.Delivery.{wire, OnlyPublished, AllDelivered, RoundTrips, Unmarked, published_once}

abbrev sink : RabbitMqSink
sink = record { exchange_name = codes "x"; pipeline_id = codes "p"; has_channel = true }

abbrev looped : Loop
looped = publish_loop sink sinks.rmq_broker record_mutated 0 sound_and_poison

-- The fields that the consumer reads, with a stroke between them.
abbrev print : ReplicationEvent → Text
print e = e.event_id ++ (codes "/" ++ (show e.source_id ++ (codes "/" ++ show e.version)))

-- The text before the first stroke, and the text after it.
cut : Text → Text × Text
cut [] = ([], [])
cut (c ∷ s) = let (before, behind) = cut s in if c == 47 then ([], s) else (c ∷ before, behind)

parse : Text → Parsed
unfolding cut
parse raw =
    let (id, rest) = cut raw in
    let (source, version) = cut rest in
    event (record { event_id = some id; source_id = source; version = version })

abbrev only_message : Message
only_message = record {
  exchange = codes "x";
  routing_key = codes "record.mutated";
  message_id = message_id 5 2;
  event = record {
    event_id = codes "e";
    event_type = record_mutated;
    timestamp = 7;
    source_id = 5;
    source_uuid = codes "u";
    version = 2;
    tenant_id = codes "t";
    payload = (sample 5 false).payload;
    pipeline_id = codes "p";
    batch_sequence = 1;
  };
}

abbrev twice : List (ConsumeMessage × ℕ)
twice = (wire print only_message, 1) ∷ (wire print only_message, 2) ∷ []

abbrev result : BatchResult
result = confirm looped none

publishes :
    publish_batch sink sinks.rmq_broker sound_and_poison record_mutated
    ≡ some (result, only_message ∷ [])
unfolding publish_batch publish_loop optio_test.Rabbit.transform_record
publishes = refl

only_published : OnlyPublished print (only_message ∷ []) twice
only_published m now (inl e) = (only_message, inl refl, cc)
only_published m now (inr (inl e)) = (only_message, inl refl, cc)
only_published m now (inr (inr e)) = elim e [ ]

all_delivered : AllDelivered print (only_message ∷ []) twice
all_delivered p (inl e) = (1, inl (ap (λ x. (wire print x, 1)) e))
all_delivered p (inr e) = elim e [ ]

trips : RoundTrips print parse (only_message ∷ [])
unfolding parse show
trips p (inl e) = rw e refl
trips p (inr e) = elim e [ ]

clean : Unmarked print (only_message ∷ [])
unfolding is_marked includes starts_with show
clean p (inl e) = rw e refl
clean p (inr e) = elim e [ ]

processed_once : processed (deliver parse (new (Dedup.new 10)) twice).1 ≡ message_id 5 2 ∷ []
unfolding deliver handle_message validate includes starts_with text_eq dedup_id new Dedup.new
    Dedup.is_duplicate Dedup.contains Dedup.record_id message_id show is_marked parse
processed_once = refl

published_once_example : Distinct (processed (deliver parse (new (Dedup.new 10)) twice).1)
published_once_example =
    (published_once sink sinks.rmq_broker sound_and_poison record_mutated print parse 10 twice
      result (only_message ∷ []) publishes only_published all_delivered trips (λ i. refl) clean
      (rw processed_once (omega arith))).0
