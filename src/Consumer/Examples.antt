-- ===== src/Consumer/Examples.antt =====
-- The consumer on a short stream: an event, its redelivery, a corrupted text and a second event.
use optio_test.Prelude.{ℕ, ◌≡◌, refl, true, none, some, List, [], ◌∷◌, arith, if◌then◌else◌}
use optio_test.Prelude.Text.{Text, codes, text_eq, includes}
use optio_test.Dedup
use optio_test.Dedup.Laws.{Distinct}
use optio_test.Consumer.{
  Parsed, malformed, event, ReplicationEvent, ConsumeMessage, new, handle_message, validate,
  dedup_id,
}
use optio_test.Consumer.Counts.{delivered, was_reset, Accounted, run, run-Accounted}
use optio_test.Consumer.Once.{deliver, processed, effectively_once}

abbrev first_event : ReplicationEvent
first_event = record { event_id = some (codes "e1"); source_id = codes "5"; version = codes "2" }

parse : Text → Parsed
parse raw = if text_eq raw (codes "x") then event first_event else malformed

abbrev keyed : ConsumeMessage
keyed = record { content = codes "x"; message_id = some (codes "rec_5_v2") }

abbrev unkeyed : ConsumeMessage
unkeyed = record { content = codes "x"; message_id = none }

abbrev broken : ConsumeMessage
broken = record { content = codes "y"; message_id = none }

abbrev stream : List (ConsumeMessage × ℕ)
stream = (keyed, 1) ∷ (unkeyed, 2) ∷ (broken, 3) ∷ []

stream_processes_one :
    processed (deliver parse (new (Dedup.new 10)) stream).1 ≡ codes "rec_5_v2" ∷ []
unfolding deliver handle_message parse validate includes text_eq dedup_id new Dedup.new
    Dedup.is_duplicate Dedup.contains Dedup.record_id
stream_processes_one = refl

effectively_once_example : Distinct (processed (deliver parse (new (Dedup.new 10)) stream).1)
effectively_once_example =
    (effectively_once parse 10 stream (rw stream_processes_one (omega arith))).0

run-Accounted_example :
    Accounted (run parse (new (Dedup.new 10)) (delivered (some keyed) true 1 ∷ was_reset ∷ []))
unfolding new
run-Accounted_example =
    run-Accounted parse (new (Dedup.new 10)) (delivered (some keyed) true 1 ∷ was_reset ∷ []) refl
