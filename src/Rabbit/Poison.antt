-- ===== src/Rabbit/Poison.antt =====
-- Poison pills stay out of the stream, and what is in it carries its record's key.
use optio_test.Prelude.{
  ℕ, suc, ◌≡◌, refl, sym, subst, ◌⊎◌, inl, inr, true, false, Option, some, List, [], ◌∷◌, arith,
  Member, Member-append_left,
}
use optio_test.Prelude.Text.{Text}
use optio_test.Types.{SourceRecord, ReplicationEventType, FailureEntry, BatchResult}
use optio_test.Rabbit.Batch.{publish_batch-eq}
use optio_test.Rabbit.{
  RabbitMqSink, Broker, PublishOutcome, sent, threw, Message, Loop, message_id, publish_one,
  publish_loop, confirm, nacked, publish_batch, poison_failure, transform_record,
}

-- A message of the record `r`, which is no poison pill.
pub record IsMessageOf (m : Message) (r : SourceRecord) : Type 0 where
  pub sound : r.is_corrupted ≡ false
  pub keyed : m.message_id ≡ message_id r.id r.version
  pub source : m.event.source_id ≡ r.id
  pub versioned : m.event.version ≡ r.version

module _ (s : RabbitMqSink) (b : Broker) (t : ReplicationEventType) where
  published_one :
      (i : ℕ) (r : SourceRecord) (o : PublishOutcome) (l : Loop) (m : Message)
      → Member m (publish_one s b t i r o l).published
      → IsMessageOf m r ⊎ Member m l.published
  unfolding publish_one transform_record
  published_one i r sent l m h = ground arith
  published_one i r (threw x) l m h = ground arith

  published_loop :
      (i : ℕ) (rs : List SourceRecord) (m : Message)
      → Member m (publish_loop s b t i rs).published
      → (r : SourceRecord) × Member r rs × IsMessageOf m r
  unfolding publish_loop
  published_loop i [] m h = elim h [ ]
  published_loop i (r ∷ rs) m h =
      elim (published_one i r (b.outcome i) (publish_loop s b t (suc i) rs) m h) [
        | inl here ↦ (r, inl refl, here)
        | inr later ↦ let (q, at, of) = published_loop (suc i) rs m later in (q, inr at, of)
      ]

  poison_one_self :
      (i : ℕ) (q r : SourceRecord) (o : PublishOutcome) (l : Loop)
      → r ≡ q
      → r.is_corrupted ≡ true
      → Member (poison_failure r) (publish_one s b t i q o l).failures
  unfolding publish_one
  poison_one_self i q r o l e c =
      subst (λ z. Member (poison_failure r) (publish_one s b t i z o l).failures) e
        (rw (c, publish_one) (inl refl))

  poison_one :
      (f : FailureEntry) (i : ℕ) (q : SourceRecord) (o : PublishOutcome) (l : Loop)
      → Member f l.failures
      → Member f (publish_one s b t i q o l).failures
  unfolding publish_one
  poison_one f i q sent l h = ground arith
  poison_one f i q (threw x) l h = ground arith

  poison_loop :
      (i : ℕ) (rs : List SourceRecord) (r : SourceRecord)
      → Member r rs
      → r.is_corrupted ≡ true
      → Member (poison_failure r) (publish_loop s b t i rs).failures
  unfolding publish_loop
  poison_loop i [] r h c = elim h [ ]
  poison_loop i (q ∷ rs) r (inl e) c =
      poison_one_self i q r (b.outcome i) (publish_loop s b t (suc i) rs) e c
  poison_loop i (q ∷ rs) r (inr h) c =
      poison_one (poison_failure r) i q (b.outcome i) (publish_loop s b t (suc i) rs)
        (poison_loop (suc i) rs r h c)

confirm_keeps :
    (l : Loop) (c : Option Text) (f : FailureEntry)
    → Member f l.failures
    → Member f (confirm l c).failures
unfolding confirm
confirm_keeps l c f h = Member-append_left f l.failures (nacked l.in_flight_ids c) h

module _ (s : RabbitMqSink) (b : Broker) (t : ReplicationEventType) where
  named_one :
      (i : ℕ) (r : SourceRecord) (o : PublishOutcome) (l : Loop) (m : Message)
      → Member m (publish_one s b t i r o l).published
      → (m.event.event_id ≡ b.event_id i) ⊎ Member m l.published
  unfolding publish_one transform_record
  named_one i r sent l m h = ground arith
  named_one i r (threw x) l m h = ground arith

  named_loop :
      (i : ℕ) (rs : List SourceRecord) (m : Message)
      → Member m (publish_loop s b t i rs).published
      → (j : ℕ) × (m.event.event_id ≡ b.event_id j)
  unfolding publish_loop
  named_loop i [] m h = elim h [ ]
  named_loop i (r ∷ rs) m h =
      elim (named_one i r (b.outcome i) (publish_loop s b t (suc i) rs) m h) [
        | inl e ↦ (i, e)
        | inr later ↦ named_loop (suc i) rs m later
      ]

-- The event of a published message has an id that was drawn for it.
pub publish_batch_named :
    (s : RabbitMqSink) (b : Broker) (rs : List SourceRecord) (t : ReplicationEventType)
    {res : BatchResult} {msgs : List Message}
    → publish_batch s b rs t ≡ some (res, msgs)
    → (m : Message) → Member m msgs
    → (j : ℕ) × (m.event.event_id ≡ b.event_id j)
publish_batch_named s b rs t e m h =
    named_loop s b t 0 rs m (subst (Member m) (sym (publish_batch-eq s b rs t e).1) h)

-- When a batch returns, no poison pill was published: every message is of a record of the batch
-- that is not corrupted, under that record's key. And every corrupted record of the batch is among
-- the failures, with the code for a corrupted payload, whatever the broker answers.
pub publish_batch_poison :
    (s : RabbitMqSink) (b : Broker) (rs : List SourceRecord) (t : ReplicationEventType)
    {res : BatchResult} {msgs : List Message}
    → publish_batch s b rs t ≡ some (res, msgs)
    → ((m : Message) → Member m msgs → (r : SourceRecord) × Member r rs × IsMessageOf m r)
      × ((r : SourceRecord)
          → Member r rs
          → r.is_corrupted ≡ true
          → Member (poison_failure r) res.failures)
publish_batch_poison s b rs t e =
    let eq = publish_batch-eq s b rs t e in
    (
      λ m h. published_loop s b t 0 rs m (subst (Member m) (sym eq.1) h),
      λ r h c.
          subst (λ res'. Member (poison_failure r) res'.failures) eq.0
            (confirm_keeps (publish_loop s b t 0 rs) b.confirms (poison_failure r)
              (poison_loop s b t 0 rs r h c)),
    )
