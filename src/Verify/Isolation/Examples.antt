-- ===== src/Verify/Isolation/Examples.antt =====
-- A run of scripts/verify/gate4.js over 500 records, of which both sinks reject the first three.
use optio_test.Prelude.{
  ℕ, zero, suc, ◌≡◌, refl, subst, inl, inr, Bool, true, false, none, some, List, [], ◌∷◌, ◌++◌, leb,
  Member,
}
use optio_test.Prelude.Text.{codes, text_eq}
use optio_test.Types.{Json, Fields, SourceRecord, BatchResult, record_backfilled}
use optio_test.Batches.{failed_ids}
use optio_test.Dlq.{DlqTable}
use optio_test.Elastic.{Item, BulkResponse, Client, parse_bulk_response, bulk_upsert}
use optio_test.Rabbit.{RabbitMqSink, Broker, sent, Loop, publish_loop, confirm, publish_batch}
use optio_test.Samples.{sample}
use optio_test.Verify.Isolation.{run_gate4}
use optio_test.Verify.Isolation.Contexts.{all_fields}
use optio_test.Verify.Isolation.Passing.{answers, run_gate4_lem}

abbrev filled : ℕ → Bool → SourceRecord
filled id corrupted = record (sample id corrupted) {
  payload = Json.obj (Fields.field (codes "customer_id") (Json.text (codes "c")) Fields.end);
}

-- The records n to 1.
batch : ℕ → List SourceRecord
batch zero = []
batch (suc n) = filled (suc n) (leb (suc n) 3) ∷ batch n

item_of : Bool → Item
item_of true = some ((codes "update", some (record { status = some 400; error = none })) ∷ [])
item_of false = some ((codes "update", some (record { status = some 200; error = none })) ∷ [])

items_of : ℕ → List Item
unfolding item_of
items_of zero = []
items_of (suc n) = item_of (leb (suc n) 3) ∷ items_of n

numbers : ℕ → List ℕ
numbers zero = []
numbers (suc n) = suc n ∷ numbers n

abbrev client : Client
client operations = some (record { errors = true; items = some (items_of 500) })

abbrev sink : RabbitMqSink
sink = record { exchange_name = codes "x"; pipeline_id = codes "p"; has_channel = true }

abbrev broker : Broker
broker = record { outcome = λ i. sent; event_id = λ i. []; timestamp = λ i. 0; confirms = none }

abbrev written : BatchResult
written = parse_bulk_response (batch 500) (record { errors = true; items = some (items_of 500) })

abbrev in_loop : Loop
in_loop = publish_loop sink broker record_backfilled 0 (batch 500)

abbrev published : BatchResult
published = confirm in_loop none

abbrev table : DlqTable
table = record { rows = []; next_id = 8 }

twice : (x : ℕ) → Member x (3 ∷ 2 ∷ 1 ∷ 3 ∷ 2 ∷ 1 ∷ []) → Member x (3 ∷ 2 ∷ 1 ∷ [])
twice x (inl e) = inl e
twice x (inr (inl e)) = inr (inl e)
twice x (inr (inr (inl e))) = inr (inr (inl e))
twice x (inr (inr (inr m))) = m

rejected : failed_ids written.failures ++ failed_ids published.failures ≡ 3 ∷ 2 ∷ 1 ∷ 3 ∷ 2 ∷ 1 ∷ []
unfolding batch items_of parse_bulk_response optio_test.Elastic.action_item
    optio_test.Elastic.status_of text_eq publish_loop confirm
rejected = refl

all_inside :
    (x : ℕ)
    → Member x (failed_ids written.failures ++ failed_ids published.failures)
    → Member x (3 ∷ 2 ∷ 1 ∷ [])
all_inside x m = twice x (subst (Member x) rejected m)

run_gate4_lem_example :
    (run_gate4
      (λ s. none)
      none
      none
      (answers table
        (batch 500)
        written
        published
        9
        true
        40
        (numbers 500)
        (3 ∷ 2 ∷ 1 ∷ [])
        [])).result.passed
    ≡ true
unfolding batch items_of parse_bulk_response optio_test.Elastic.action_item
    optio_test.Elastic.status_of text_eq publish_loop confirm bulk_upsert
    optio_test.Elastic.any_null publish_batch numbers optio_test.Runner.unique_ids
    optio_test.Runner.add_id all_fields optio_test.Runner.dlq_entry
run_gate4_lem_example =
    run_gate4_lem (λ s. none) client (codes "i") sink broker record_backfilled (batch 500)
      {es = written} {rmq = published} {msgs = in_loop.published} table 9 true 40 (numbers 500)
      (3 ∷ 2 ∷ 1 ∷ []) [] refl refl refl refl refl all_inside refl
