-- ===== src/Runner/Answers.antt =====
-- The sinks of apps/pipeline/src/runners/*.ts when nothing fails: both answer every batch.
use mathlib.Core.Path.{ap₂}
use optio_test.Prelude.{
  ◌≡◌, ◌≢◌, refl, ap, ◌∙◌, inl, inr, true, false, none, some, List, [], ◌∷◌, arith, Option-cases,
}
use optio_test.Prelude.Text.{Text}
use optio_test.Types.{SourceRecord, ReplicationEventType, BatchResult}
use optio_test.Breaker.{CircuitBreaker, healthy}
use optio_test.Breaker.Execute.{execute}
use optio_test.Elastic
use optio_test.Elastic.{Operation, any_null, bulk_upsert}
use optio_test.Rabbit.{RabbitMqSink, Broker, confirm, publish_loop, publish_batch}
use optio_test.Runner.{World, Guard, Sinks, guarded, dispatch, first_part, both}

-- The probes report healthy sinks, and the client answers every request, with whatever rejections.
pub record AreGood (s : Sinks) : Type 0 where
  pub es_healthy : s.es_guard.probe ≡ healthy
  pub rmq_healthy : s.rmq_guard.probe ≡ healthy
  pub answers : (operations : List Operation) → s.es_client operations ≢ none

guarded_healthy :
    (b : CircuitBreaker) (g : Guard) (v : BatchResult)
    → g.probe ≡ healthy
    → (guarded b g (some v)).1 ≡ some v
unfolding guarded execute
guarded_healthy b g v h = ground arith

upsert_answers :
    (client : Elastic.Client) (index : Text) (rs : List SourceRecord)
    → ((operations : List Operation) → client operations ≢ none)
    → any_null rs ≡ false
    → (v : BatchResult) × (bulk_upsert client index rs ≡ some v)
unfolding bulk_upsert any_null
upsert_answers client index [] h filled = (_, refl)
upsert_answers client index (r ∷ rs) h filled =
    elim (Option-cases (client (Elastic.operations index (r ∷ rs)))) [
      | inl none_given ↦ absurd (h _ none_given)
      | inr (response, given) ↦
          (Elastic.parse_bulk_response (r ∷ rs) response, rw (filled, given, bulk_upsert) refl)
    ]

publish_answers :
    (s : RabbitMqSink) (broker : Broker) (rs : List SourceRecord) (t : ReplicationEventType)
    → s.has_channel ≡ true
    → (v : BatchResult) × (first_part (publish_batch s broker rs t) ≡ some v)
unfolding publish_batch
publish_answers s broker [] t h = (_, refl)
publish_answers s broker (r ∷ rs) t h =
    (confirm (publish_loop s broker t 0 (r ∷ rs)) broker.confirms, rw h)

pub dispatch_answers :
    (w : World) (s : Sinks) (t : ReplicationEventType) (rs : List SourceRecord)
    → w.rmq_sink.has_channel ≡ true
    → AreGood s
    → any_null rs ≡ false
    → (es : BatchResult) × (rmq : BatchResult) × ((dispatch w s t rs).1 ≡ some (es, rmq))
unfolding dispatch
dispatch_answers w s t rs connected good filled =
    let (es, upserted) = upsert_answers s.es_client w.es_index rs good.answers filled in
    let (rmq, published) = publish_answers w.rmq_sink s.rmq_broker rs t connected in
    let e =
      ap (λ o. (guarded w.es_breaker s.es_guard o).1) upserted
      ∙ guarded_healthy w.es_breaker s.es_guard es good.es_healthy in
    let m =
      ap (λ o. (guarded w.rmq_breaker s.rmq_guard o).1) published
      ∙ guarded_healthy w.rmq_breaker s.rmq_guard rmq good.rmq_healthy in
    (es, rmq, ap₂ both e m)
