-- ===== src/Consumer/Counts.antt =====
-- The counters of the consumer account for every message.
use optio_test.Prelude.{ℕ, ◌+◌, ◌≡◌, refl, Bool, Option, none, some, List, [], ◌∷◌, arith}
use optio_test.Prelude.Text.{Text}
use optio_test.Consumer.{
  Parsed, ConsumeMessage, EventConsumerService, handle_message, reset_metrics,
}

-- What the broker and the operators do to the consumer.
pub data Event : Type 0 where
  delivered : Option ConsumeMessage → Bool → ℕ → Event
  was_reset : Event

abbrev pub Accounted : EventConsumerService → Type 0
Accounted c = c.total_received ≡ c.unique_processed + c.duplicates_prevented + c.dead_lettered

module _ (parse : Text → Parsed) where
  unfoldable pub step : EventConsumerService → Event → EventConsumerService
  step c (delivered m override now) = (handle_message parse c m override now).0
  step c was_reset = reset_metrics c

  unfoldable pub run : EventConsumerService → List Event → EventConsumerService
  unfolding step
  run c [] = c
  run c (e ∷ es) = run (step c e) es

  step-Accounted : (c : EventConsumerService) (e : Event) → Accounted c → Accounted (step c e)
  unfolding step handle_message reset_metrics
  step-Accounted c (delivered none override now) h = h
  step-Accounted c (delivered (some m) override now) h = ground arith
  step-Accounted c was_reset h = refl

  -- After any deliveries and resets, every message received was processed once, dropped as a
  -- duplicate, or dead-lettered.
  pub run-Accounted :
      (c : EventConsumerService) (es : List Event) → Accounted c → Accounted (run c es)
  unfolding run
  run-Accounted c [] h = h
  run-Accounted c (e ∷ es) h = run-Accounted (step c e) es (step-Accounted c e h)
