-- ===== src/Source.antt =====
-- apps/pipeline/src/source/source.reader.ts: the queries on `source_records`. A statement is read as
-- WHERE, ORDER BY and LIMIT on the list of rows. A timestamp of a row is in microseconds; a `Date`
-- is in milliseconds. What `JSON.parse` gives for a text is a parameter.
pub mod Backfill
pub mod Payloads
pub mod Incremental
mod Examples
use optio_test.Prelude.{
  ℕ, suc, ◌+◌, ◌-◌, ◌/◌, max, Bool, true, false, ◌&&◌, ◌||◌, Option, none, some, List, [], ◌∷◌, map,
  length, take, ltb, leb, ◌==◌, if◌then◌else◌, or_default, or_nonzero,
}
use optio_test.Prelude.Order.{select, order_by}
use optio_test.Prelude.Text.{Text}
use optio_test.Types.{Json, obj, text, Fields, SourceRecord, RecordStatus}

pub record SourceRow : Type 0 where
  pub id : ℕ
  pub uuid : Text
  pub tenant_id : Text
  pub payload : Json
  pub version : ℕ
  pub status : RecordStatus
  pub is_corrupted : Bool
  pub created_at_us : ℕ
  pub updated_at_us : ℕ

-- A JSONB column that holds a string reaches the code as a text, and is parsed once more.
pub row_payload : (Text → Option Json) → Json → Json
row_payload parse (text s) = or_default (parse s) (obj Fields.end)
row_payload parse other = other

unfoldable pub map_row_to_source_record : (Text → Option Json) → SourceRow → SourceRecord
unfolding row_payload
map_row_to_source_record parse r = record {
  id = r.id;
  uuid = r.uuid;
  tenant_id = r.tenant_id;
  payload = row_payload parse r.payload;
  version = r.version;
  status = r.status;
  is_corrupted = r.is_corrupted;
  created_at = r.created_at_us / 1000;
  updated_at = r.updated_at_us / 1000;
}

abbrev pub id_order : SourceRow → SourceRow → Bool
id_order a b = leb a.id b.id

-- WHERE id > $1 ORDER BY id ASC LIMIT $2
unfoldable pub backfill_rows : List SourceRow → ℕ → ℕ → List SourceRow
backfill_rows table last_processed_id limit =
    take limit (order_by id_order (select (λ r. ltb last_processed_id r.id) table))

pub record SourceReader : Type 0 where
  pub table : List SourceRow
  pub batch_size : ℕ
  pub parse : Text → Option Json

-- `Math.max(1, options.batchSize || 500)`
abbrev pub new : List SourceRow → (Text → Option Json) → Option ℕ → SourceReader
new table parse batch_size = record {
  table = table;
  batch_size = max 1 (or_nonzero batch_size 500);
  parse = parse;
}

unfoldable pub fetch_backfill_batch : SourceReader → ℕ → Option ℕ → List SourceRecord
fetch_backfill_batch s last_processed_id limit =
    map (map_row_to_source_record s.parse)
      (backfill_rows s.table last_processed_id (or_default limit s.batch_size))

-- date_trunc('millisecond', updated_at)
abbrev pub updated_ms : SourceRow → ℕ
updated_ms r = r.updated_at_us / 1000

-- The condition of the incremental queries.
abbrev pub is_newer : ℕ → ℕ → SourceRow → Bool
is_newer last_timestamp last_processed_id r =
    ltb last_timestamp (updated_ms r)
    || (updated_ms r == last_timestamp && ltb last_processed_id r.id)

-- ORDER BY updated_at ASC, id ASC
abbrev pub update_order : SourceRow → SourceRow → Bool
update_order a b =
    ltb a.updated_at_us b.updated_at_us || (a.updated_at_us == b.updated_at_us && leb a.id b.id)

unfoldable pub incremental_rows : List SourceRow → ℕ → ℕ → ℕ → List SourceRow
incremental_rows table last_timestamp last_processed_id limit =
    take limit (order_by update_order (select (is_newer last_timestamp last_processed_id) table))

unfoldable pub fetch_incremental_batch : SourceReader → ℕ → ℕ → Option ℕ → List SourceRecord
fetch_incremental_batch s last_timestamp last_processed_id limit =
    map (map_row_to_source_record s.parse)
      (incremental_rows s.table last_timestamp last_processed_id (or_default limit s.batch_size))

pub record SourceMetadata : Type 0 where
  pub max_id : ℕ
  pub total_count : ℕ

-- COALESCE(MAX(id), 0)
largest_id : List SourceRow → ℕ
largest_id [] = 0
largest_id (r ∷ rs) = max r.id (largest_id rs)

unfoldable pub get_source_metadata : SourceReader → SourceMetadata
unfolding largest_id
get_source_metadata s = record { max_id = largest_id s.table; total_count = length s.table }

pub record IncrementalLag : Type 0 where
  pub lag_records : ℕ
  pub lag_ms : ℕ

newest_update : List SourceRow → Option ℕ
newest_update [] = none
newest_update (r ∷ rs) = some (max (updated_ms r) (or_default (newest_update rs) 0))

-- `Math.max(0, now - newest)`, or 0 where no row is newer.
unfoldable pub get_incremental_lag : SourceReader → ℕ → ℕ → ℕ → IncrementalLag
unfolding newest_update
get_incremental_lag s last_timestamp last_processed_id now =
    let newer = select (is_newer last_timestamp last_processed_id) s.table in
    record {
      lag_records = length newer;
      lag_ms = elim (newest_update newer) [ none ↦ 0 | some newest ↦ now - newest ];
    }
