-- ===== src/Elastic/Response.antt =====
-- The decomposition of a bulk response.
use mathlib.Core.List.{Perm, perm_middle}
use mathlib.Core.List.Perm
use mathlib.Core.Option.{some-injective}
use optio_test.Prelude.{
  ◌≡◌, refl, ap, subst, inl, inr, true, none, some, List, [], ◌∷◌, ◌++◌, append-nil, length, drop,
  Member, Bool-cases, Option-cases, or_default,
}
use optio_test.Prelude.Text.{Text}
use optio_test.Types.{SourceRecord, BatchResult, empty_result}
use optio_test.Batches.{ids, failed_ids, IsPartition, partition}
use optio_test.Elastic.{
  Item, BulkResponse, action_item, status_of, is_success, next_item, later_items, decompose,
  all_ids, parse_bulk_response, Client, any_null, bulk_upsert, operations,
}

decompose-perm :
    (rs : List SourceRecord) (items : List Item)
    → Perm ((decompose rs items).0 ++ failed_ids (decompose rs items).1) (ids rs)
unfolding decompose
decompose-perm [] items = Perm.refl []
decompose-perm (r ∷ rs) items =
    let later = decompose-perm rs (later_items items) in
    elim (Bool-cases (is_success (status_of (action_item (next_item items))))) [
      | inl e ↦ rw (e, decompose) (Perm.cons r.id later)
      | inr e ↦ rw (e, decompose) (Perm.trans (perm_middle _ _) (Perm.cons r.id later))
    ]

all_ids-eq : (rs : List SourceRecord) → all_ids rs ≡ ids rs
unfolding all_ids
all_ids-eq [] = refl
all_ids-eq (r ∷ rs) = ap (◌∷◌ r.id) (all_ids-eq rs)

-- Whatever the response holds, every record is reported once, as written or as failed, with the
-- counts of the two lists.
pub parse_bulk_response-IsPartition :
    (rs : List SourceRecord) (response : BulkResponse)
    → IsPartition rs (parse_bulk_response rs response)
unfolding parse_bulk_response
parse_bulk_response-IsPartition rs response = elim (Bool-cases response.errors) [
  | inl e ↦ rw e (partition rs _ (decompose-perm rs (or_default response.items [])) refl refl)
  | inr e ↦ rw e (partition rs _ (rw (all_ids-eq rs, append-nil) (Perm.refl _)) refl refl)
]

no_result : {r : BatchResult} → ¬ (none ≡ some r)
no_result h = cc

-- A bulk upsert of some records that returns has read a response.
pub bulk_upsert-eq :
    (client : Client) (index : Text) (r : SourceRecord) (rs : List SourceRecord) {res : BatchResult}
    → bulk_upsert client index (r ∷ rs) ≡ some res
    → (response : BulkResponse) × (parse_bulk_response (r ∷ rs) response ≡ res)
unfolding bulk_upsert any_null
bulk_upsert-eq client index r rs {res} e = elim (Bool-cases (any_null (r ∷ rs))) [
  | inl n ↦ let e' : none ≡ some res = rw (n, bulk_upsert) at e in absurd (no_result e')
  | inr n ↦ elim (Option-cases (client (operations index (r ∷ rs)))) [
    | inl h ↦ let e' : none ≡ some res = rw (n, h, bulk_upsert) at e in absurd (no_result e')
    | inr (response, h) ↦
        let e' : some (parse_bulk_response (r ∷ rs) response) ≡ some res =
          rw (n, h, bulk_upsert) at e in
        (response, some-injective _ _ e')
  ]
]

-- A bulk upsert for which the client does not throw reports every record of the batch once, as
-- written or as failed, with the counts of the two lists.
pub bulk_upsert-IsPartition :
    (client : Client) (index : Text) (rs : List SourceRecord) {res : BatchResult}
    → bulk_upsert client index rs ≡ some res
    → IsPartition rs res
unfolding bulk_upsert any_null
bulk_upsert-IsPartition client index [] {res} e =
    let e' : some empty_result ≡ some res = e in
    subst (IsPartition []) (some-injective _ _ e') (partition [] _ (Perm.refl []) refl refl)
bulk_upsert-IsPartition client index (r ∷ rs) {res} e =
    let (response, h) = bulk_upsert-eq client index r rs e in
    subst (IsPartition (r ∷ rs)) h (parse_bulk_response-IsPartition (r ∷ rs) response)

decompose-missing :
    (rs : List SourceRecord) (items : List Item) (r : SourceRecord)
    → Member r (drop (length items) rs)
    → Member r.id (decompose rs items).0
unfolding decompose action_item status_of
decompose-missing [] [] r h = elim h [ ]
decompose-missing [] (i ∷ is) r h = elim h [ ]
decompose-missing (q ∷ rs) [] r (inl e) = inl (ap (λ z. z.id) e)
decompose-missing (q ∷ rs) [] r (inr h) = inr (decompose-missing rs [] r h)
decompose-missing (q ∷ rs) (i ∷ is) r h =
    let later = decompose-missing rs is r h in
    elim (Bool-cases (is_success (status_of (action_item i)))) [
      | inl e ↦ rw (e, decompose) (inr later)
      | inr e ↦ rw (e, decompose) later
    ]

-- A response that reports errors but has fewer items than the batch has records: every record
-- beyond the last item is reported as written.
pub parse_bulk_response-missing :
    (rs : List SourceRecord) (response : BulkResponse) (items : List Item) (r : SourceRecord)
    → response.errors ≡ true
    → response.items ≡ some items
    → Member r (drop (length items) rs)
    → Member r.id (parse_bulk_response rs response).successful_ids
unfolding parse_bulk_response
parse_bulk_response-missing rs response items r e i h = rw (e, i) (decompose-missing rs items r h)
