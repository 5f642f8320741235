-- ===== src/Elastic/Described.antt =====
-- sinks/elasticsearch/elasticsearch.sink.ts: what a bulk upsert says of the records that it rejects.
use mathlib.Core.Option.{some-injective}
use optio_test.Prelude.{
  ◌≡◌, refl, subst, inl, inr, true, some, List, [], ◌∷◌, Bool-cases, or_default,
}
use optio_test.Prelude.Text.{Text, or_text-not_empty}
use optio_test.Types.{SourceRecord, BatchResult, empty_result}
use optio_test.Batches.{is_described, all_described}
use optio_test.Elastic.{
  Item, BulkResponse, action_item, status_of, is_success, next_item, later_items, error_of,
  reason_of, type_of, failure, decompose, parse_bulk_response, Client, bulk_upsert,
}
use optio_test.Elastic.Response.{bulk_upsert-eq}

failure-described : (r : SourceRecord) (i : Item) → is_described (failure r (action_item i)) ≡ true
unfolding failure
failure-described r i =
    let a = action_item i in
    rw
      (
        or_text-not_empty (type_of (error_of a)) _ refl,
        or_text-not_empty (reason_of (error_of a)) _ refl,
      )
      refl

decompose-described :
    (rs : List SourceRecord) (items : List Item) → all_described (decompose rs items).1 ≡ true
unfolding decompose all_described
decompose-described [] items = refl
decompose-described (r ∷ rs) items =
    let later = decompose-described rs (later_items items) in
    let item = next_item items in
    elim (Bool-cases (is_success (status_of (action_item item)))) [
      | inl e ↦ rw (e, decompose) later
      | inr e ↦ rw (e, decompose, failure-described r item) later
    ]

parse_bulk_response-described :
    (rs : List SourceRecord) (response : BulkResponse)
    → all_described (parse_bulk_response rs response).failures ≡ true
unfolding parse_bulk_response all_described
parse_bulk_response-described rs response = elim (Bool-cases response.errors) [
  | inl e ↦ rw e (decompose-described rs (or_default response.items []))
  | inr e ↦ rw e refl
]

-- Every rejection of a bulk upsert comes with a code and a reason.
pub bulk_upsert-described :
    (client : Client) (index : Text) (rs : List SourceRecord) {res : BatchResult}
    → bulk_upsert client index rs ≡ some res
    → all_described res.failures ≡ true
unfolding bulk_upsert all_described
bulk_upsert-described client index [] {res} e =
    let e' : some empty_result ≡ some res = e in
    subst (λ (q : BatchResult). all_described q.failures ≡ true) (some-injective _ _ e') refl
bulk_upsert-described client index (r ∷ rs) {res} e =
    let (response, h) = bulk_upsert-eq client index r rs e in
    subst (λ (q : BatchResult). all_described q.failures ≡ true) h
      (parse_bulk_response-described (r ∷ rs) response)
