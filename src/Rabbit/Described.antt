-- ===== src/Rabbit/Described.antt =====
-- sinks/rabbitmq/rabbitmq.sink.ts: what a batch says of the records that it rejects.
use optio_test.Prelude.{
  ℕ, suc, ◌≡◌, refl, subst, inl, inr, true, Option, none, some, List, [], ◌∷◌, map, Bool-cases,
}
use optio_test.Prelude.Text.{Text}
use optio_test.Types.{SourceRecord, ReplicationEventType, BatchResult}
use optio_test.Batches.{all_described, all_described-append}
use optio_test.Rabbit.{
  RabbitMqSink, Broker, PublishOutcome, sent, threw, Message, Loop, publish_one, publish_loop,
  nack_failure, confirm, publish_batch,
}
use optio_test.Rabbit.Batch.{publish_batch-eq}

nacked-described : (e : Text) (xs : List ℕ) → all_described (map (nack_failure e) xs) ≡ true
unfolding all_described
nacked-described e [] = refl
nacked-described e (x ∷ xs) = nacked-described e xs

module _ (s : RabbitMqSink) (b : Broker) (t : ReplicationEventType) where
  publish_one-described :
      (i : ℕ) (r : SourceRecord) (o : PublishOutcome) (l : Loop)
      → all_described l.failures ≡ true
      → all_described (publish_one s b t i r o l).failures ≡ true
  unfolding publish_one all_described
  publish_one-described i r sent l p = elim (Bool-cases r.is_corrupted) [
    | inl e ↦ rw e p
    | inr e ↦ rw e p
  ]
  publish_one-described i r (threw x) l p = elim (Bool-cases r.is_corrupted) [
    | inl e ↦ rw e p
    | inr e ↦ rw e p
  ]

  publish_loop-described :
      (i : ℕ) (rs : List SourceRecord) → all_described (publish_loop s b t i rs).failures ≡ true
  unfolding publish_loop all_described
  publish_loop-described i [] = refl
  publish_loop-described i (r ∷ rs) =
      publish_one-described i r (b.outcome i) _ (publish_loop-described (suc i) rs)

confirm-described :
    (l : Loop) (c : Option Text)
    → all_described l.failures ≡ true
    → all_described (confirm l c).failures ≡ true
unfolding confirm all_described
confirm-described l none p = all_described-append l.failures [] p refl
confirm-described l (some e) p =
    all_described-append l.failures _ p (nacked-described e l.in_flight_ids)

-- Every rejection of a published batch comes with a code and a reason.
pub publish_batch-described :
    (s : RabbitMqSink) (b : Broker) (rs : List SourceRecord) (t : ReplicationEventType)
    {res : BatchResult} {msgs : List Message}
    → publish_batch s b rs t ≡ some (res, msgs)
    → all_described res.failures ≡ true
publish_batch-described s b rs t e =
    subst (λ (q : BatchResult). all_described q.failures ≡ true) (publish_batch-eq s b rs t e).0
      (confirm-described (publish_loop s b t 0 rs) b.confirms (publish_loop-described s b t 0 rs))
