-- ===== src/Source/Payloads.antt =====
-- The payloads of the records that a batch holds.
use optio_test.Prelude.{
  ℕ, ◌≡◌, refl, inl, inr, false, Bool, Option, List, [], ◌∷◌, map, take, Member, Member-take,
}
use optio_test.Prelude.Order.{select, select-Member, order_by, order_by-Member}
use optio_test.Types.{SourceRecord}
use optio_test.Elastic.{is_null, any_null}
use optio_test.Source.{
  SourceRow, SourceReader, id_order, update_order, backfill_rows, incremental_rows,
  map_row_to_source_record, fetch_backfill_batch, fetch_incremental_batch,
}

-- No row of the table is read with a payload that is null.
abbrev pub AreFilled : SourceReader → Type 0
AreFilled s =
    (z : SourceRow)
    → Member z s.table
    → is_null (map_row_to_source_record s.parse z).payload ≡ false

any_null-map :
    (f : SourceRow → SourceRecord) (rows : List SourceRow)
    → ((z : SourceRow) → Member z rows → is_null (f z).payload ≡ false)
    → any_null (map f rows) ≡ false
unfolding any_null
any_null-map f [] h = refl
any_null-map f (r ∷ rs) h = rw (h r (inl refl)) (any_null-map f rs (λ z m. h z (inr m)))

-- A limited, ordered selection of a table holds rows of it.
chosen-Member :
    (limit : ℕ) (before : SourceRow → SourceRow → Bool) (p : SourceRow → Bool)
    (table : List SourceRow) (z : SourceRow)
    → Member z (take limit (order_by before (select p table)))
    → Member z table
chosen-Member limit before p table z m =
    (select-Member p z table
      (order_by-Member before z (select p table) (Member-take limit z _ m))).0

module _ (s : SourceReader) (filled : AreFilled s) where
  pub backfill_filled :
      (last : ℕ) (limit : Option ℕ) → any_null (fetch_backfill_batch s last limit) ≡ false
  unfolding fetch_backfill_batch backfill_rows
  backfill_filled last limit =
      any_null-map (map_row_to_source_record s.parse) _
        (λ z m. filled z (chosen-Member _ id_order _ s.table z m))

  pub incremental_filled :
      (at id : ℕ) (limit : Option ℕ) → any_null (fetch_incremental_batch s at id limit) ≡ false
  unfolding fetch_incremental_batch incremental_rows
  incremental_filled at id limit =
      any_null-map (map_row_to_source_record s.parse) _
        (λ z m. filled z (chosen-Member _ update_order _ s.table z m))
