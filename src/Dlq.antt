-- ===== src/Dlq.antt =====
-- apps/pipeline/src/dlq/dlq.store.ts: the statements on `dead_letter_queue`. The table is the list of
-- its rows, the oldest first, with the next value of its BIGSERIAL key.
pub mod Laws
pub mod Keys
mod Examples
use optio_test.Prelude.{
  ℕ, suc, ◌+◌, Bool, true, false, ◌&&◌, Option, none, some, List, [], ◌∷◌, ◌++◌, map, length, take,
  leb, ◌==◌, if◌then◌else◌, or_default,
}
use optio_test.Prelude.Order.{select, order_by}
use optio_test.Prelude.Text.{Text}
use optio_test.Types.{
  obj, Fields, DlqPayload, json, SinkTarget, DlqStatus, pending, retrying, resolved, abandoned,
  DlqEntry,
}

pub record NewDlqEntry : Type 0 where
  pub record_id : Option ℕ
  pub record_uuid : Option Text
  pub sink_target : SinkTarget
  pub payload : Option DlqPayload
  pub error_code : Text
  pub error_message : Text
  pub stack_trace : Option Text

pub record DlqTable : Type 0 where
  pub rows : List DlqEntry
  pub next_id : ℕ

abbrev pub stored : NewDlqEntry → ℕ → ℕ → DlqEntry
stored f id now = record {
  id = id;
  record_id = f.record_id;
  record_uuid = f.record_uuid;
  sink_target = f.sink_target;
  payload = or_default f.payload (json (obj Fields.end));
  error_code = f.error_code;
  error_message = f.error_message;
  stack_trace = f.stack_trace;
  retry_count = 0;
  status = pending;
  created_at = now;
  last_retried_at = none;
}

-- The VALUES of one statement, numbered from the next key.
unfoldable pub stored_from : List NewDlqEntry → ℕ → ℕ → List DlqEntry
stored_from [] id now = []
stored_from (f ∷ fs) id now = stored f id now ∷ stored_from fs (suc id) now

-- One INSERT for the batch, RETURNING the keys.
unfoldable pub persist_failures : DlqTable → List NewDlqEntry → ℕ → DlqTable × List ℕ
unfolding stored_from
persist_failures t [] now = (t, [])
persist_failures t (f ∷ fs) now =
    let added = stored_from (f ∷ fs) t.next_id now in
    (
      record { rows = t.rows ++ added; next_id = t.next_id + length added },
      map (λ (e : DlqEntry). e.id) added,
    )

abbrev pub is_pending : DlqStatus → Bool
is_pending pending = true
is_pending _ = false

unfoldable pub get_pending_count : DlqTable → ℕ
get_pending_count t = length (select (λ e. is_pending e.status) t.rows)

abbrev age_order : DlqEntry → DlqEntry → Bool
age_order a b = leb a.created_at b.created_at

unfoldable pub get_pending_entries : DlqTable → ℕ → List DlqEntry
get_pending_entries t limit =
    take limit (order_by age_order (select (λ e. is_pending e.status) t.rows))

-- SELECT … WHERE id = $1
find_entry : ℕ → List DlqEntry → Option DlqEntry
find_entry id [] = none
find_entry id (e ∷ es) = if e.id == id then some e else find_entry id es

unfoldable pub get_entry_by_id : DlqTable → ℕ → Option DlqEntry
unfolding find_entry
get_entry_by_id t id = find_entry id t.rows

-- UPDATE … WHERE id = …
update_entry : ℕ → (DlqEntry → DlqEntry) → List DlqEntry → List DlqEntry
update_entry id f [] = []
update_entry id f (e ∷ es) = (if e.id == id then f e else e) ∷ update_entry id f es

abbrev pub marked : DlqStatus → ℕ → DlqEntry → DlqEntry
marked s now e = record e { status = s; last_retried_at = some now }

unfoldable pub mark_status : DlqTable → ℕ → DlqStatus → ℕ → DlqTable
unfolding update_entry
mark_status t id s now = record t { rows = update_entry id (marked s now) t.rows }

abbrev pub retried : ℕ → DlqEntry → DlqEntry
retried now e = record e { retry_count = e.retry_count + 1; last_retried_at = some now }

unfoldable pub record_retry_failure : DlqTable → ℕ → ℕ → DlqTable
unfolding update_entry
record_retry_failure t id now = record t { rows = update_entry id (retried now) t.rows }
