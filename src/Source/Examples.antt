-- ===== src/Source/Examples.antt =====
-- Batches of a table of two rows.
use mathlib.Core.List.{Mem}
use optio_test.Prelude.{◌≡◌, refl, inl, inr, true, false, none, some, [], ◌∷◌, arith}
use optio_test.Batches.{ids}
use optio_test.Samples.{sample_row}
use optio_test.Prelude.Order.{order_by, select}
use optio_test.Source.{
  backfill_rows, incremental_rows, SourceReader, new, map_row_to_source_record,
  fetch_backfill_batch, fetch_incremental_batch, get_incremental_lag,
}
use optio_test.Source.Backfill.{fetch_backfill_batch_complete}

-- The rows are stored out of order.
abbrev reader : SourceReader
reader = new (sample_row 7 false ∷ sample_row 3 true ∷ []) (λ s. none) none

incremental_batch : ids (fetch_incremental_batch reader 0 0 none) ≡ 3 ∷ 7 ∷ []
unfolding fetch_incremental_batch incremental_rows order_by select map_row_to_source_record
incremental_batch = refl

lag : (get_incremental_lag reader 0 0 50).lag_records ≡ 2
unfolding get_incremental_lag select
lag = refl

fetch_backfill_batch_complete_example : Mem 3 (ids (fetch_backfill_batch reader 0 (some 1)))
unfolding fetch_backfill_batch backfill_rows order_by select map_row_to_source_record
fetch_backfill_batch_complete_example =
    fetch_backfill_batch_complete reader 0 (some 1) (sample_row 3 true)
      (map_row_to_source_record reader.parse (sample_row 3 true)) (inr (inl refl)) (omega arith)
      refl (omega arith)
