-- ===== src/Source/Backfill.antt =====
-- A backfill batch is a complete stretch of the table.
use mathlib.Core.List.{Mem, mem-cons_self, mem-cons_of_mem}
use optio_test.Prelude.{
  zero, get_last?-map, Bool-cases, ℕ, suc, ◌≤◌, ◌<◌, ◌≡◌, refl, sym, ap, subst, ◌⊎◌, inl, inr, true,
  Option, some, List, [], ◌∷◌, map, arith, take, get_last?, Member, Member-take, Member-last,
  Member-map, ltb, or_default,
}
use optio_test.Prelude.Order.{
  select, order_by, Member-select, select-Member, Member-order_by, order_by-Member,
  order_by-IsSorted, take-last,
}
use optio_test.Types.{SourceRecord}
use optio_test.Batches.{ids}
use optio_test.Source.{
  SourceRow, SourceReader, id_order, backfill_rows, map_row_to_source_record, fetch_backfill_batch,
}

id_order_total : (a b : SourceRow) → (id_order a b ≡ true) ⊎ (id_order b a ≡ true)
id_order_total a b = ground arith

id_order_trans :
    (a b c : SourceRow) → id_order a b ≡ true → id_order b c ≡ true → id_order a c ≡ true
id_order_trans a b c h k = ground arith

module _ (table : List SourceRow) (last limit : ℕ) where
  -- A row above the watermark and not above the batch's last row shares its id with a row of the
  -- batch.
  rows_complete :
      (z l : SourceRow)
      → Member z table
      → last < z.id
      → get_last? (backfill_rows table last limit) ≡ some l
      → z.id ≤ l.id
      → (y : SourceRow) × Member y (backfill_rows table last limit) × (z.id ≡ y.id)
  unfolding backfill_rows
  rows_complete z l m h e le =
      let newer = λ (r : SourceRow). ltb last r.id in
      let chosen = Member-select newer z table m (ground arith) in
      let sorted = Member-order_by id_order z (select newer table) chosen in
      elim (take-last id_order id_order_total id_order_trans limit z l
        (order_by id_order (select newer table))
        (order_by-IsSorted id_order id_order_total id_order_trans (select newer table)) sorted e) [
          | inl within ↦ (z, within, refl)
          | inr above ↦ (
            l,
            Member-last l (take limit (order_by id_order (select newer table))) e,
            ground arith,
          )
        ]

  -- Every row of the batch stands in the table, above the watermark.
  rows_above :
      (z : SourceRow) → Member z (backfill_rows table last limit) → Member z table × (last < z.id)
  unfolding backfill_rows
  rows_above z m =
      let newer = λ (r : SourceRow). ltb last r.id in
      let within =
        select-Member newer z table
          (order_by-Member id_order z (select newer table) (Member-take limit z _ m)) in
      (within.0, ground arith)

pub Mem-Member : (x : ℕ) (xs : List ℕ) → Member x xs → Mem x xs
Mem-Member x [] m = elim m [ ]
Mem-Member x (y ∷ ys) (inl e) = subst (λ z. Mem x (z ∷ ys)) e mem-cons_self
Mem-Member x (y ∷ ys) (inr m) = mem-cons_of_mem y (Mem-Member x ys m)

-- The id of a row is the id of its record.
pub ids-map :
    (s : SourceReader) (rows : List SourceRow)
    → ids (map (map_row_to_source_record s.parse) rows) ≡ map (λ (r : SourceRow). r.id) rows
unfolding map_row_to_source_record
ids-map s [] = refl
ids-map s (r ∷ rs) = ap (◌∷◌ r.id) (ids-map s rs)

module _ (s : SourceReader) (last : ℕ) (limit : Option ℕ) where
  -- The keyset seek skips nothing: every row of the table above the watermark and not above the
  -- last record of the batch is in the batch.
  pub fetch_backfill_batch_complete :
      (z : SourceRow) (l : SourceRecord)
      → Member z s.table
      → last < z.id
      → get_last? (fetch_backfill_batch s last limit) ≡ some l
      → z.id ≤ l.id
      → Mem z.id (ids (fetch_backfill_batch s last limit))
  unfolding fetch_backfill_batch map_row_to_source_record
  fetch_backfill_batch_complete z l m h e le =
      let rows = backfill_rows s.table last (or_default limit s.batch_size) in
      let (x, ex, same) = get_last?-map (map_row_to_source_record s.parse) l rows e in
      let (y, my, ids_agree) =
        rows_complete s.table last (or_default limit s.batch_size) z x m h ex
          (subst (λ (r : SourceRecord). z.id ≤ r.id) same le) in
      subst (λ k. Mem k (ids (map (map_row_to_source_record s.parse) rows))) (sym ids_agree)
        (subst (Mem y.id) (sym (ids-map s rows)) (
          Mem-Member y.id (map (λ (r : SourceRow). r.id) rows)
            (Member-map (λ (r : SourceRow). r.id) y rows my)))

  -- The batch moves the watermark up.
  pub fetch_backfill_batch-lt :
      (l : SourceRecord) → get_last? (fetch_backfill_batch s last limit) ≡ some l → last < l.id
  unfolding fetch_backfill_batch map_row_to_source_record
  fetch_backfill_batch-lt l e =
      let rows = backfill_rows s.table last (or_default limit s.batch_size) in
      let (x, ex, same) = get_last?-map (map_row_to_source_record s.parse) l rows e in
      subst (λ (r : SourceRecord). last < r.id) (sym same)
        (rows_above s.table last (or_default limit s.batch_size) x (Member-last x rows ex)).1

  -- The last record of a batch is a row of the table, above the watermark.
  pub fetch_backfill_batch_last :
      (l : SourceRecord)
      → get_last? (fetch_backfill_batch s last limit) ≡ some l
      → (y : SourceRow) × Member y s.table × (y.id ≡ l.id) × (last < y.id)
  unfolding fetch_backfill_batch map_row_to_source_record
  fetch_backfill_batch_last l e =
      let rows = backfill_rows s.table last (or_default limit s.batch_size) in
      let (x, ex, same) = get_last?-map (map_row_to_source_record s.parse) l rows e in
      let (at, above) =
        rows_above s.table last (or_default limit s.batch_size) x (Member-last x rows ex) in
      (x, at, subst (λ (r : SourceRecord). x.id ≡ r.id) (sym same) refl, above)

  -- An empty batch means that no row is left above the watermark.
  pub fetch_backfill_batch_empty :
      (z : SourceRow)
      → 0 < or_default limit s.batch_size
      → fetch_backfill_batch s last limit ≡ []
      → Member z s.table
      → z.id ≤ last
  unfolding fetch_backfill_batch backfill_rows
  fetch_backfill_batch_empty z p e m = elim (Bool-cases (ltb last z.id)) [
    | inr h ↦ ground arith
    | inl h ↦
        let newer = λ (r : SourceRow). ltb last r.id in
        let chosen = Member-select newer z s.table m h in
        let sorted = Member-order_by id_order z (select newer s.table) chosen in
        absurd (
          nothing (or_default limit s.batch_size) (order_by id_order (select newer s.table)) p e
            sorted)
  ]
    where
      nothing :
          (n : ℕ) (xs : List SourceRow)
          → 0 < n
          → map (map_row_to_source_record s.parse) (take n xs) ≡ []
          → Member z xs
          → ⊥
      nothing zero xs p e m = omega arith
      nothing (suc n) [] p e m = m
      nothing (suc n) (x ∷ xs) p e m = cc
