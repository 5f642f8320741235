-- ===== src/Source/Incremental.antt =====
-- An incremental batch is a complete stretch of the table in the order of (updated_at, id). The
-- column is TIMESTAMPTZ(3), in docker/postgres/init/01_init_schema.sql, so a row's timestamp is a
-- whole number of milliseconds.
use mathlib.Core.List.{Mem}
use optio_test.Prelude.{
  zero, suc, ◌≤◌, ◌<◌, none, [], ◌∷◌, length, ap, false, ℕ, ◌*◌, ◌≡◌, ◌⊎◌, refl, sym, subst, inl,
  inr, true, Option, some, List, map, arith, take, get_last?, get_last?-map, Member, Member-take,
  Member-last, Member-map, or_default,
}
use optio_test.Prelude.Order.{
  select, order_by, Member-select, select-Member, Member-order_by, order_by-Member,
  order_by-IsSorted, take-last,
}
use optio_test.Types.{SourceRecord}
use optio_test.Batches.{ids}
use optio_test.Source.{
  SourceRow, SourceReader, is_newer, updated_ms, update_order, incremental_rows,
  map_row_to_source_record, fetch_incremental_batch,
}
use optio_test.Source.Backfill.{Mem-Member, ids-map}

-- The timestamps of the table are whole milliseconds.
abbrev pub Aligned : List SourceRow → Type 0
Aligned table = (r : SourceRow) → Member r table → r.updated_at_us ≡ 1000 * updated_ms r

update_order_total : (a b : SourceRow) → (update_order a b ≡ true) ⊎ (update_order b a ≡ true)
update_order_total a b = ground arith

update_order_trans :
    (a b c : SourceRow)
    → update_order a b ≡ true
    → update_order b c ≡ true
    → update_order a c ≡ true
update_order_trans a b c h k = ground arith

-- Of two rows that are not newer than each other, neither by the order of the batch nor by the
-- condition of the query, the ids are the same.
same_place :
    (z l : SourceRow)
    → z.updated_at_us ≡ 1000 * updated_ms z
    → l.updated_at_us ≡ 1000 * updated_ms l
    → update_order l z ≡ true
    → is_newer (updated_ms l) l.id z ≡ false
    → z.id ≡ l.id
same_place z l az al o n = ground arith

module _ (table : List SourceRow) (aligned : Aligned table) (at id limit : ℕ) where
  incremental_rows_complete :
      (z l : SourceRow)
      → Member z table
      → is_newer at id z ≡ true
      → get_last? (incremental_rows table at id limit) ≡ some l
      → is_newer (updated_ms l) l.id z ≡ false
      → (y : SourceRow) × Member y (incremental_rows table at id limit) × (z.id ≡ y.id)
  unfolding incremental_rows
  incremental_rows_complete z l m h e n =
      let newer = is_newer at id in
      let rows = order_by update_order (select newer table) in
      let sorted =
        Member-order_by update_order z (select newer table) (Member-select newer z table m h) in
      let l_in = Member-last l (take limit rows) e in
      let in_table =
        select-Member newer l table
          (order_by-Member update_order l (select newer table) (Member-take limit l _ l_in)) in
      elim (take-last update_order update_order_total update_order_trans limit z l rows
        (order_by-IsSorted update_order update_order_total update_order_trans (select newer table))
        sorted e) [
          | inl within ↦ (z, within, refl)
          | inr above ↦ (l, l_in, same_place z l (aligned z m) (aligned l in_table.0) above n)
        ]

module _ (s : SourceReader) (aligned : Aligned s.table) (at id : ℕ) (limit : Option ℕ) where
  -- The composite keyset seek skips nothing, in a table whose timestamps are whole milliseconds:
  -- every row of the table after the watermark, by timestamp and then by id, and not after the last
  -- record of the batch is in the batch.
  pub fetch_incremental_batch_complete :
      (z : SourceRow) (l : SourceRecord)
      → Member z s.table
      → is_newer at id z ≡ true
      → get_last? (fetch_incremental_batch s at id limit) ≡ some l
      → is_newer l.updated_at l.id z ≡ false
      → Mem z.id (ids (fetch_incremental_batch s at id limit))
  unfolding fetch_incremental_batch map_row_to_source_record
  fetch_incremental_batch_complete z l m h e n =
      let rows = incremental_rows s.table at id (or_default limit s.batch_size) in
      let (x, ex, same) = get_last?-map (map_row_to_source_record s.parse) l rows e in
      let (y, my, ids_agree) =
        incremental_rows_complete s.table aligned at id (or_default limit s.batch_size) z x m h ex
          (subst (λ (r : SourceRecord). is_newer r.updated_at r.id z ≡ false) same n) in
      subst (λ k. Mem k (ids (map (map_row_to_source_record s.parse) rows))) (sym ids_agree)
        (subst (Mem y.id) (sym (ids-map s rows)) (
          Mem-Member y.id (map (λ (r : SourceRow). r.id) rows)
            (Member-map (λ (r : SourceRow). r.id) y rows my)))

-- The rows that a composite watermark leaves.
abbrev pub remaining : List SourceRow → ℕ → ℕ → ℕ
remaining table at id = length (select (is_newer at id) table)

remaining-le :
    (table : List SourceRow) (at id : ℕ) (y : SourceRow)
    → is_newer at id y ≡ true
    → remaining table (updated_ms y) y.id ≤ remaining table at id
unfolding select
remaining-le [] at id y h = omega arith
remaining-le (r ∷ rs) at id y h = ground (arith, remaining-le rs at id y h)

-- A watermark that moves to a row after it leaves fewer.
pub remaining-lt :
    (table : List SourceRow) (at id : ℕ) (y : SourceRow)
    → Member y table
    → is_newer at id y ≡ true
    → remaining table (updated_ms y) y.id < remaining table at id
unfolding select
remaining-lt [] at id y m h = elim m [ ]
remaining-lt (r ∷ rs) at id y (inl e) h =
    ground (arith, ap (λ (x : SourceRow). x.id) e, ap updated_ms e, remaining-le rs at id y h)
remaining-lt (r ∷ rs) at id y (inr m) h = ground (arith, remaining-lt rs at id y m h)

pub remaining-le-length :
    (table : List SourceRow) (at id : ℕ) → remaining table at id ≤ length table
unfolding select
remaining-le-length [] at id = omega arith
remaining-le-length (r ∷ rs) at id = ground (arith, remaining-le-length rs at id)

nothing_last : {A : Type 0} (xs : List A) → get_last? xs ≡ none → xs ≡ []
nothing_last [] e = refl
nothing_last (x ∷ []) e = cc
nothing_last (x ∷ y ∷ xs) e = cc (nothing_last (y ∷ xs) e)

nothing_taken :
    (f : SourceRow → SourceRecord) (n : ℕ) (x : SourceRow) (xs : List SourceRow)
    → 0 < n
    → map f (take n xs) ≡ []
    → Member x xs
    → ⊥
nothing_taken f zero x xs p e m = omega arith
nothing_taken f (suc n) x [] p e m = elim m [ ]
nothing_taken f (suc n) x (y ∷ xs) p e m = cc

none_left :
    (table : List SourceRow) (at id : ℕ)
    → ((x : SourceRow) → Member x (select (is_newer at id) table) → ⊥)
    → remaining table at id ≡ 0
none_left table at id h = go (select (is_newer at id) table) h
  where
    go : (xs : List SourceRow) → ((x : SourceRow) → Member x xs → ⊥) → length xs ≡ 0
    go [] h = refl
    go (x ∷ xs) h = absurd (h x (inl refl))

module _ (s : SourceReader) (at id : ℕ) (limit : Option ℕ) where
  -- The last record of a batch is a row of the table, after the watermark.
  pub fetch_incremental_batch_last :
      (l : SourceRecord)
      → get_last? (fetch_incremental_batch s at id limit) ≡ some l
      → (y : SourceRow) × Member y s.table
        × (updated_ms y ≡ l.updated_at)
        × (y.id ≡ l.id)
        × (is_newer at id y ≡ true)
  unfolding fetch_incremental_batch incremental_rows map_row_to_source_record
  fetch_incremental_batch_last l e =
      let newer = is_newer at id in
      let n = or_default limit s.batch_size in
      let sorted = order_by update_order (select newer s.table) in
      let (x, ex, same) = get_last?-map (map_row_to_source_record s.parse) l (take n sorted) e in
      let (in_table, above) = select-Member newer x s.table (
        order_by-Member update_order x (select newer s.table)
          (Member-take n x sorted (Member-last x (take n sorted) ex))) in
      (
        x,
        in_table,
        ap (λ (r : SourceRecord). r.updated_at) (sym same),
        ap (λ (r : SourceRecord). r.id) (sym same),
        above,
      )

  -- An empty batch means that no row is left after the watermark.
  pub fetch_incremental_batch_empty :
      0 < or_default limit s.batch_size
      → get_last? (fetch_incremental_batch s at id limit) ≡ none
      → remaining s.table at id ≡ 0
  unfolding fetch_incremental_batch incremental_rows
  fetch_incremental_batch_empty p e =
      let newer = is_newer at id in
      let n = or_default limit s.batch_size in
      let empty = nothing_last (fetch_incremental_batch s at id limit) e in
      none_left s.table at id (λ x m.
        nothing_taken (map_row_to_source_record s.parse) n x
          (order_by update_order (select newer s.table)) p empty
          (Member-order_by update_order x (select newer s.table) m))
