-- ===== src/Rabbit/Examples.antt =====
-- A batch of a sound record and a poison pill, confirmed by the broker.
use optio_test.Prelude.{◌≡◌, refl, inl, inr, true, false, some, none, [], ◌∷◌, Member}
use optio_test.Prelude.Text.{codes}
use optio_test.Types.{record_mutated, BatchResult}
use optio_test.Batches.{IsPartition, failed_ids}
use optio_test.Samples.{sample, sound_and_poison}
use optio_test.Rabbit.{
  RabbitMqSink, Broker, sent, Loop, publish_loop, confirm, publish_batch, poison_failure,
}
use optio_test.Rabbit.Batch.{publish_batch-IsPartition}
use optio_test.Rabbit.Poison.{publish_batch_poison}
use optio_test.Coordinator.{rmq_health_check}
use optio_test.Rabbit.Connection.{
  Connection, connection_closed, channel_closed, on_event, run_events, is_usable, has_channel,
  closed_lem,
}

abbrev sink : RabbitMqSink
sink = record { exchange_name = codes "x"; pipeline_id = codes "p"; has_channel = true }

abbrev confirming : Broker
confirming = record {
  outcome = λ i. sent;
  event_id = λ i. codes "e";
  timestamp = λ i. 7;
  confirms = none;
}

abbrev batch_loop : Loop
batch_loop = publish_loop sink confirming record_mutated 0 sound_and_poison

abbrev batch_result : BatchResult
batch_result = confirm batch_loop none

batch_splits : (batch_result.successful_ids ≡ 5 ∷ []) × (failed_ids batch_result.failures ≡ 6 ∷ [])
unfolding publish_loop confirm
batch_splits = (refl, refl)

publish_batch-IsPartition_example : IsPartition sound_and_poison batch_result
unfolding publish_batch
publish_batch-IsPartition_example =
    publish_batch-IsPartition sink confirming sound_and_poison record_mutated
      {msgs = batch_loop.published} refl

publish_batch_poison_example : Member (poison_failure (sample 6 true)) batch_result.failures
unfolding publish_batch
publish_batch_poison_example =
    (publish_batch_poison sink confirming sound_and_poison record_mutated
        {msgs = batch_loop.published} refl).1
      (sample 6 true) (inr (inl refl)) refl

-- The connection of a sink that was open closes, and then its channel.
abbrev was_open : Connection
was_open = record { connection = some 1; channel = some 1; is_connected = true }

closed_lem_example :
    let after = run_events (on_event was_open connection_closed) (channel_closed ∷ []) in
    ((rmq_health_check (is_usable after) true 1 2).is_healthy ≡ false)
    × (publish_batch
          (record sink { has_channel = has_channel after })
          confirming
          (sample 5 false ∷ [])
          record_mutated
        ≡ none)
closed_lem_example =
    closed_lem was_open (channel_closed ∷ []) true 1 2 sink confirming (sample 5 false) []
      record_mutated (tt, tt)
