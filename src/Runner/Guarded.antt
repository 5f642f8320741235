-- ===== src/Runner/Guarded.antt =====
-- What a dispatch and the entries it leads to account for.
use mathlib.Core.List.{Mem, Mem-prop, mem-append, mem-append_left, mem-append_right}
use mathlib.Core.Logic.Or
use mathlib.Core.Path.{ap₂}
use mathlib.Core.Option.{some-injective}
use optio_test.Prelude.{
  ℕ, suc, ◌≡◌, refl, ap, ◌∙◌, Option, none, some, List, [], ◌∷◌, ◌++◌, map, append-nil, arith,
  if◌then◌else◌,
}
use optio_test.Types.{
  SourceRecord, ReplicationEventType, SinkTarget, elasticsearch, rabbitmq, FailureEntry,
  BatchResult,
}
use optio_test.Batches.{failed_ids, IsPartition}
use optio_test.Breaker.{CircuitBreaker}
use optio_test.Breaker.Execute.{execute}
use optio_test.Dlq.{NewDlqEntry, stored_from}
use optio_test.Dlq.Laws.{quarantined, same_target}
use optio_test.Elastic.{bulk_upsert}
use optio_test.Elastic.Response.{bulk_upsert-IsPartition}
use optio_test.Rabbit.{Message, publish_batch}
use optio_test.Rabbit.Batch.{publish_batch-IsPartition}
use optio_test.Runner.{
  World, Guard, guarded, reported, both, first_part, Sinks, dispatch, dlq_entry, dlq_entries,
}

-- A value comes out of the breaker only where the operation gave it.
guarded_value :
    (b : CircuitBreaker) (g : Guard) (o : Option BatchResult) (v : BatchResult)
    → (guarded b g o).1 ≡ some v
    → o ≡ some v
unfolding guarded execute
guarded_value b g none v e = ground arith
guarded_value b g (some x) v e = ground arith

pub first_part_lem :
    (o : Option (BatchResult × List Message)) (res : BatchResult)
    → first_part o ≡ some res
    → (msgs : List Message) × (o ≡ some (res, msgs))
first_part_lem none res e = cc
first_part_lem (some (r, msgs)) res e = (msgs, ap (λ z. some (z, msgs)) (some-injective _ _ e))

both_lem :
    (a b : Option BatchResult) (x y : BatchResult)
    → both a b ≡ some (x, y)
    → (a ≡ some x) × (b ≡ some y)
both_lem none b x y e = cc
both_lem (some a) none x y e = cc
both_lem (some a) (some b) x y e =
    let p = some-injective _ _ e in (ap (λ q. some q.0) p, ap (λ q. some q.1) p)

-- What a dispatch that returns has done.
pub record Dispatched (w w' : World) (rs : List SourceRecord) (es rmq : BatchResult) : Type 0 where
  pub es_partition : IsPartition rs es
  pub rmq_partition : IsPartition rs rmq
  pub es_grown : w'.es_written ≡ w.es_written ++ es.successful_ids
  pub rmq_grown : w'.rmq_confirmed ≡ w.rmq_confirmed ++ rmq.successful_ids

module _ (w : World) (s : Sinks) (t : ReplicationEventType) (rs : List SourceRecord) where
  pub dispatch-Dispatched :
      (es rmq : BatchResult)
      → (dispatch w s t rs).1 ≡ some (es, rmq)
      → Dispatched w (dispatch w s t rs).0 rs es rmq
  unfolding dispatch
  dispatch-Dispatched es rmq e =
      let upsert = bulk_upsert s.es_client w.es_index rs in
      let publish = publish_batch w.rmq_sink s.rmq_broker rs t in
      let parts = both_lem _ _ es rmq e in
      let (msgs, published) =
        first_part_lem publish rmq
          (guarded_value w.rmq_breaker s.rmq_guard (first_part publish) rmq parts.1) in
      record {
        es_partition =
            bulk_upsert-IsPartition s.es_client w.es_index rs
              (guarded_value w.es_breaker s.es_guard upsert es parts.0);
        rmq_partition = publish_batch-IsPartition w.rmq_sink s.rmq_broker rs t published;
        es_grown = ap (λ o. w.es_written ++ reported o) parts.0;
        rmq_grown = ap (λ o. w.rmq_confirmed ++ reported o) parts.1;
      }

-- The records that new entries are about, for one sink.
wanted : SinkTarget → List NewDlqEntry → List ℕ
wanted s [] = []
wanted s (f ∷ fs) =
    if same_target f.sink_target s
    then elim f.record_id [ none ↦ wanted s fs | some id ↦ id ∷ wanted s fs ]
    else wanted s fs

wanted-append :
    (s : SinkTarget) (xs ys : List NewDlqEntry) → wanted s (xs ++ ys) ≡ wanted s xs ++ wanted s ys
unfolding wanted
wanted-append s [] ys = refl
wanted-append s (x ∷ xs) ys = ground (arith, wanted-append s xs ys)

quarantined-stored_from :
    (s : SinkTarget) (fs : List NewDlqEntry) (id now : ℕ)
    → quarantined s (stored_from fs id now) ≡ wanted s fs
unfolding wanted quarantined stored_from
quarantined-stored_from s [] id now = refl
quarantined-stored_from s (f ∷ fs) id now =
    ground (arith, quarantined-stored_from s fs (suc id) now)

wanted-es :
    (rs : List SourceRecord) (fs : List FailureEntry)
    → (wanted elasticsearch (map (dlq_entry elasticsearch rs) fs) ≡ failed_ids fs)
      × (wanted rabbitmq (map (dlq_entry elasticsearch rs) fs) ≡ [])
unfolding wanted dlq_entry
wanted-es rs [] = (refl, refl)
wanted-es rs (f ∷ fs) = let rest = wanted-es rs fs in (ap (◌∷◌ f.record_id) rest.0, rest.1)

wanted-rmq :
    (rs : List SourceRecord) (fs : List FailureEntry)
    → (wanted rabbitmq (map (dlq_entry rabbitmq rs) fs) ≡ failed_ids fs)
      × (wanted elasticsearch (map (dlq_entry rabbitmq rs) fs) ≡ [])
unfolding wanted dlq_entry
wanted-rmq rs [] = (refl, refl)
wanted-rmq rs (f ∷ fs) = let rest = wanted-rmq rs fs in (ap (◌∷◌ f.record_id) rest.0, rest.1)

module _ (rs : List SourceRecord) (es rmq : BatchResult) (id now : ℕ) where
  -- The entries stored for a batch hold the failures of each sink.
  pub quarantined-es :
      quarantined elasticsearch (stored_from (dlq_entries rs es rmq) id now)
      ≡ failed_ids es.failures
  quarantined-es =
      quarantined-stored_from elasticsearch (dlq_entries rs es rmq) id now
      ∙ (wanted-append elasticsearch (map (dlq_entry elasticsearch rs) es.failures) _
          ∙ (ap₂ ◌++◌ (wanted-es rs es.failures).0 (wanted-rmq rs rmq.failures).1 ∙ append-nil _))

  pub quarantined-rmq :
      quarantined rabbitmq (stored_from (dlq_entries rs es rmq) id now) ≡ failed_ids rmq.failures
  quarantined-rmq =
      quarantined-stored_from rabbitmq (dlq_entries rs es rmq) id now
      ∙ (wanted-append rabbitmq (map (dlq_entry elasticsearch rs) es.failures) _
          ∙ ap₂ ◌++◌ (wanted-es rs es.failures).1 (wanted-rmq rs rmq.failures).0)

-- An id that was accounted for stays so when both lists grow.
pub Mem-grow : (x : ℕ) (a b c d : List ℕ) → Mem x (a ++ c) → Mem x ((a ++ b) ++ (c ++ d))
Mem-grow x a b c d m =
    Or.elim Mem-prop (mem-append.0 m) (λ l. mem-append_left (c ++ d) (mem-append_left b l))
      (λ r. mem-append_right (a ++ b) (mem-append_left d r))

pub Mem-new : (x : ℕ) (a b c d : List ℕ) → Mem x (b ++ d) → Mem x ((a ++ b) ++ (c ++ d))
Mem-new x a b c d m =
    Or.elim Mem-prop (mem-append.0 m) (λ l. mem-append_left (c ++ d) (mem-append_right a l))
      (λ r. mem-append_right (a ++ b) (mem-append_right c r))
