-- ===== src/Elastic/Document.antt =====
-- The search document of a record: `transformRecord` of
-- apps/pipeline/src/sinks/elasticsearch/elasticsearch.sink.ts, and its type in
-- packages/shared/src/types/search.ts. `print` stands for a value in a template, `trim` for the method
-- of texts. A field of the payload that is missing is `none`.
use optio_test.Prelude.{ℕ, if◌then◌else◌, Option, none, some, [], ◌++◌}
use optio_test.Prelude.Text.{Text, codes}
use optio_test.Prelude.Decimal.{show}
use optio_test.Elastic.{is_null}
use optio_test.Types.{Json, text, arr, Items, nil, SourceRecord, RecordStatus, json}
use optio_test.Replayer.Entry.{payload_field, or_json}

pub record SearchDocument : Type 0 where
  pub id : Text
  pub source_uuid : Text
  pub tenant_id : Text
  pub customer_id : Option Json
  pub full_name : Text
  pub email : Option Json
  pub account_tier : Option Json
  pub balance : Option Json
  pub status : RecordStatus
  pub version : ℕ
  pub tags : Items
  pub country : Text
  pub source_created_at : ℕ
  pub source_updated_at : ℕ
  pub synced_at : ℕ

-- `Array.isArray(v) ? v : []`
tags_of : Option Json → Items
tags_of (some (arr items)) = items
tags_of other = nil

-- `typeof v === 'string' ? v : ''`
country_of : Option Json → Text
country_of (some (text s)) = s
country_of other = []

-- `metadata?.k`
metadata_field : Json → Text → Option Json
metadata_field payload k = elim (payload_field (json payload) (codes "metadata")) [
  | none ↦ none
  | some m ↦ payload_field (json m) k
]

document : (Json → Text) → (Text → Text) → SourceRecord → ℕ → SearchDocument
unfolding metadata_field tags_of country_of
document print trim r now =
    let field = payload_field (json r.payload) in
    let first_name = print (or_json (field (codes "first_name")) (text [])) in
    let last_name = print (or_json (field (codes "last_name")) (text [])) in
    record {
      id = show r.id;
      source_uuid = r.uuid;
      tenant_id = r.tenant_id;
      customer_id = field (codes "customer_id");
      full_name = trim (first_name ++ (codes " " ++ last_name));
      email = field (codes "email");
      account_tier = field (codes "account_tier");
      balance = field (codes "balance");
      status = r.status;
      version = r.version;
      tags = tags_of (metadata_field r.payload (codes "tags"));
      country = country_of (metadata_field r.payload (codes "country"));
      source_created_at = r.created_at;
      source_updated_at = r.updated_at;
      synced_at = now;
    }

-- `none` is the error on a payload that is null.
unfoldable pub transform_record :
    (Json → Text) → (Text → Text) → SourceRecord → ℕ → Option SearchDocument
unfolding document
transform_record print trim r now =
    if is_null r.payload then none else some (document print trim r now)
