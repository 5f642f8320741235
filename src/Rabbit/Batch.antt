-- ===== src/Rabbit/Batch.antt =====
-- What a batch does with each of its records.
use mathlib.Core.List.{Perm, perm_middle, map-append}
use mathlib.Core.List.Perm
use mathlib.Core.Option.{some-injective}
use optio_test.Prelude.{
  ℕ, suc, ◌≡◌, refl, sym, ap, subst, ◌∙◌, inl, inr, Option, none, some, List, [], ◌∷◌, ◌++◌, map,
  append-nil, Bool-cases,
}
use optio_test.Prelude.Perms.{Perm-append_comm}
use optio_test.Prelude.Text.{Text}
use optio_test.Types.{SourceRecord, ReplicationEventType, BatchResult, empty_result}
use optio_test.Batches.{ids, failed_ids, IsPartition, partition}
use optio_test.Rabbit.{
  RabbitMqSink, Broker, PublishOutcome, sent, threw, Message, Loop, publish_one, publish_loop,
  nack_failure, confirm, publish_batch,
}

failed_ids-nacked : (e : Text) (xs : List ℕ) → failed_ids (map (nack_failure e) xs) ≡ xs
failed_ids-nacked e [] = refl
failed_ids-nacked e (x ∷ xs) = ap (◌∷◌ x) (failed_ids-nacked e xs)

module _ (s : RabbitMqSink) (b : Broker) (t : ReplicationEventType) where
  publish_one-perm :
      (i : ℕ) (r : SourceRecord) (o : PublishOutcome) (l : Loop) (xs : List ℕ)
      → Perm (l.in_flight_ids ++ failed_ids l.failures) xs
      → let l' = publish_one s b t i r o l in
        Perm (l'.in_flight_ids ++ failed_ids l'.failures) (r.id ∷ xs)
  unfolding publish_one
  publish_one-perm i r sent l xs p = elim (Bool-cases r.is_corrupted) [
    | inl e ↦ rw e (Perm.trans (perm_middle _ _) (Perm.cons r.id p))
    | inr e ↦ rw e (Perm.cons r.id p)
  ]
  publish_one-perm i r (threw x) l xs p = elim (Bool-cases r.is_corrupted) [
    | inl e ↦ rw e (Perm.trans (perm_middle _ _) (Perm.cons r.id p))
    | inr e ↦ rw e (Perm.trans (perm_middle _ _) (Perm.cons r.id p))
  ]

  publish_loop-perm :
      (i : ℕ) (rs : List SourceRecord)
      → let l = publish_loop s b t i rs in Perm (l.in_flight_ids ++ failed_ids l.failures) (ids rs)
  unfolding publish_loop
  publish_loop-perm i [] = Perm.refl []
  publish_loop-perm i (r ∷ rs) =
      publish_one-perm i r (b.outcome i) (publish_loop s b t (suc i) rs) (ids rs)
        (publish_loop-perm (suc i) rs)

confirm-perm :
    (l : Loop) (c : Option Text) (xs : List ℕ)
    → Perm (l.in_flight_ids ++ failed_ids l.failures) xs
    → Perm ((confirm l c).successful_ids ++ failed_ids (confirm l c).failures) xs
unfolding confirm
confirm-perm l none xs p =
    subst (λ fs. Perm (l.in_flight_ids ++ failed_ids fs) xs) (sym (append-nil l.failures)) p
confirm-perm l (some e) xs p =
    let parts =
      map-append _ l.failures (map (nack_failure e) l.in_flight_ids)
      ∙ ap (◌++◌ (failed_ids l.failures)) (failed_ids-nacked e l.in_flight_ids) in
    subst (λ ys. Perm ys xs) (sym parts)
      (Perm.trans (Perm-append_comm (failed_ids l.failures) l.in_flight_ids) p)

confirm-IsPartition :
    (l : Loop) (c : Option Text) (rs : List SourceRecord)
    → Perm (l.in_flight_ids ++ failed_ids l.failures) (ids rs)
    → IsPartition rs (confirm l c)
unfolding confirm
confirm-IsPartition l c rs p = partition rs (confirm l c) (confirm-perm l c (ids rs) p) refl refl

no_result : {p : BatchResult × List Message} → ¬ (none ≡ some p)
no_result h = cc

confirm_nothing :
    (c : Option Text)
    → confirm (record { failures = []; in_flight_ids = []; published = [] }) c ≡ empty_result
unfolding confirm
confirm_nothing none = refl
confirm_nothing (some e) = refl

-- A batch that returns has gone through its loop and its confirms.
pub publish_batch-eq :
    (s : RabbitMqSink) (b : Broker) (rs : List SourceRecord) (t : ReplicationEventType)
    {res : BatchResult} {msgs : List Message}
    → publish_batch s b rs t ≡ some (res, msgs)
    → let l = publish_loop s b t 0 rs in (confirm l b.confirms ≡ res) × (l.published ≡ msgs)
unfolding publish_batch
publish_batch-eq s b [] t {res} {msgs} e =
    let e' : some (empty_result, []) ≡ some (res, msgs) = e in
    let p = some-injective _ _ e' in (confirm_nothing b.confirms ∙ ap (λ q. q.0) p, ap (λ q. q.1) p)
publish_batch-eq s b (r ∷ rs) t {res} {msgs} e = elim (Bool-cases s.has_channel) [
  | inl h ↦
      let l = publish_loop s b t 0 (r ∷ rs) in
      let e' : some (confirm l b.confirms, l.published) ≡ some (res, msgs) =
        rw (h, publish_batch) at e in
      let p = some-injective _ _ e' in (ap (λ q. q.0) p, ap (λ q. q.1) p)
  | inr h ↦ let e' : none ≡ some (res, msgs) = rw (h, publish_batch) at e in absurd (no_result e')
]

-- Whatever the channel answers, a batch that returns reports every record once, as published and
-- confirmed or as failed, with the counts of the two lists.
pub publish_batch-IsPartition :
    (s : RabbitMqSink) (b : Broker) (rs : List SourceRecord) (t : ReplicationEventType)
    {res : BatchResult} {msgs : List Message}
    → publish_batch s b rs t ≡ some (res, msgs)
    → IsPartition rs res
publish_batch-IsPartition s b rs t e =
    subst (IsPartition rs) (publish_batch-eq s b rs t e).0
      (confirm-IsPartition (publish_loop s b t 0 rs) b.confirms rs (publish_loop-perm s b t 0 rs))
