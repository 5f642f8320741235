-- ===== src/Elastic.antt =====
-- apps/pipeline/src/sinks/elasticsearch/elasticsearch.sink.ts: the bulk upserts and the reading of
-- the bulk response. The client is a parameter: what `client.bulk` answers for the operations.
pub mod Response
pub mod Described
pub mod Document
mod Examples
use optio_test.Prelude.{
  ℕ, suc, Bool, true, false, not, ◌&&◌, ◌||◌, Option, none, some, List, [], ◌∷◌, ◌++◌, length, leb,
  ltb, if◌then◌else◌, or_default,
}
use optio_test.Prelude.Text.{Text, codes, text_eq, or_text}
use optio_test.Prelude.Decimal.{show}
use optio_test.Types.{
  Json, null, SourceRecord, ErrorInfo, ActionItem, RawItem, FailureEntry, of_item, no_item,
  BatchResult, empty_result,
}

-- One element of `items`: the properties of the wrapper in order, `none` for a falsy value. A
-- missing element is `none` itself.
abbrev pub Item : Type 0
Item = Option (List (Text × Option ActionItem))

pub record BulkResponse : Type 0 where
  pub errors : Bool
  pub items : Option (List Item)

lookup_action : Text → List (Text × Option ActionItem) → Option ActionItem
lookup_action k [] = none
lookup_action k ((j, a) ∷ w) = if text_eq k j then a else lookup_action k w

abbrev first_value : List (Text × Option ActionItem) → Option ActionItem
first_value [] = none
first_value ((k, a) ∷ w) = a

abbrev or_else : Option ActionItem → Option ActionItem → Option ActionItem
or_else none b = b
or_else (some a) b = some a

-- `update || index || create || Object.values(wrapper)[0]`
unfoldable pub action_item : Item → Option ActionItem
unfolding lookup_action
action_item none = none
action_item (some w) = or_else (lookup_action (codes "update") w) (
    or_else (lookup_action (codes "index") w)
      (or_else (lookup_action (codes "create") w) (first_value w)))

-- `actionItem?.status ?? 200`
unfoldable pub status_of : Option ActionItem → ℕ
status_of none = 200
status_of (some a) = or_default a.status 200

abbrev pub is_success : ℕ → Bool
is_success status = leb 200 status && ltb status 300

abbrev reason_of : Option ErrorInfo → Option Text
reason_of none = none
reason_of (some e) = e.reason

abbrev type_of : Option ErrorInfo → Option Text
type_of none = none
type_of (some e) = e.error_type

abbrev error_of : Option ActionItem → Option ErrorInfo
error_of none = none
error_of (some a) = a.error

abbrev raw : Option ActionItem → RawItem
raw none = no_item
raw (some a) = of_item a

pub failure : SourceRecord → Option ActionItem → FailureEntry
failure r a = record {
  record_id = r.id;
  error_reason =
      or_text (reason_of (error_of a))
        (codes "Elasticsearch HTTP " ++ (show (status_of a) ++ codes " rejection"));
  error_code = or_text (type_of (error_of a)) (codes "ES_STATUS_" ++ show (status_of a));
  raw_item = raw a;
}

abbrev pub next_item : List Item → Item
next_item [] = none
next_item (i ∷ is) = i

abbrev pub later_items : List Item → List Item
later_items [] = []
later_items (i ∷ is) = is

-- The loop over the records and the items beside them.
pub decompose : List SourceRecord → List Item → List ℕ × List FailureEntry
unfolding failure
decompose [] items = ([], [])
decompose (r ∷ rs) items =
    let (good, bad) = decompose rs (later_items items) in
    let a = action_item (next_item items) in
    if is_success (status_of a) then (r.id ∷ good, bad) else (good, failure r a ∷ bad)

all_ids : List SourceRecord → List ℕ
all_ids [] = []
all_ids (r ∷ rs) = r.id ∷ all_ids rs

result : List ℕ × List FailureEntry → BatchResult
result (good, bad) = record {
  success_count = length good;
  failed_count = length bad;
  successful_ids = good;
  failures = bad;
}

unfoldable pub parse_bulk_response : List SourceRecord → BulkResponse → BatchResult
unfolding decompose all_ids result
parse_bulk_response rs response =
    if not response.errors
    then result (all_ids rs, [])
    else result (decompose rs (or_default response.items []))

-- The two lines that a record adds to the bulk request: the action with its id, and the document.
pub record Operation : Type 0 where
  pub index_name : Text
  pub document_id : Text
  pub doc_as_upsert : Bool
  pub source : SourceRecord

abbrev operation : Text → SourceRecord → Operation
operation index r = record {
  index_name = index;
  document_id = show r.id;
  doc_as_upsert = true;
  source = r;
}

unfoldable pub operations : Text → List SourceRecord → List Operation
operations index [] = []
operations index (r ∷ rs) = operation index r ∷ operations index rs

-- What the client answers; `none` is an error that it throws.
abbrev pub Client : Type 0
Client = List Operation → Option BulkResponse

abbrev pub is_null : Json → Bool
is_null null = true
is_null other = false

-- `transformRecord` throws on a payload that is null, before anything is sent.
unfoldable pub any_null : List SourceRecord → Bool
any_null [] = false
any_null (r ∷ rs) = is_null r.payload || any_null rs

unfoldable pub bulk_upsert : Client → Text → List SourceRecord → Option BatchResult
unfolding parse_bulk_response operations any_null
bulk_upsert client index [] = some empty_result
bulk_upsert client index (r ∷ rs) =
    let answer : Option BatchResult = elim (client (operations index (r ∷ rs))) [
      | none ↦ none
      | some response ↦ some (parse_bulk_response (r ∷ rs) response)
    ] in
    if any_null (r ∷ rs) then none else answer
