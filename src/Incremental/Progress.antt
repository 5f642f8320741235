-- ===== src/Incremental/Progress.antt =====
-- The incremental replication catches up: a start and enough rounds in which nothing fails leave no
-- row after the watermark.
use mathlib.Core.Path.{ap₂}
use optio_test.Prelude.{
  ℕ, ◌-◌, ◌≤◌, ◌<◌, ◌≡◌, refl, sym, subst, ap, ◌∙◌, inl, inr, true, false, Option, some, List, [],
  ◌∷◌, arith, length, All, Member, get_last?, Bool-cases, Option-cases,
}
use optio_test.Prelude.Order.{select}
use optio_test.Prelude.Text.{Text}
use optio_test.Types.{SourceRecord, BatchResult, record_mutated}
use optio_test.Source.{
  SourceRow, SourceReader, is_newer, updated_ms, fetch_incremental_batch, get_incremental_lag,
}
use optio_test.Source.Payloads.{AreFilled, incremental_filled}
use optio_test.Source.Incremental.{
  remaining, remaining-lt, remaining-le-length, fetch_incremental_batch_last,
  fetch_incremental_batch_empty,
}
use optio_test.Checkpoint.Laws.{get_checkpoint_row}
use optio_test.Dlq.{persist_failures}
use optio_test.Rabbit.{RabbitMqSink}
use optio_test.Runner.{World, dispatch, dlq_entries, failed_count, has_any}
use optio_test.Runner.Answers.{AreGood, dispatch_answers}
use optio_test.Incremental.{
  IncrementalRunner, Round, new, with_lag, commit, settle, process, iterate, loop,
}
use optio_test.Incremental.Boots.{Boot, resume, start}

-- A round in which nothing fails: no stop is requested, every statement on the database succeeds, and
-- both sinks answer.
pub record IsGood (r : Round) : Type 0 where
  pub runs_on : r.stopping ≡ false
  pub reads : r.reads_lag ≡ true
  pub fetched : r.fetches ≡ true
  pub persisted : r.persists ≡ true
  pub committed : r.commits ≡ true
  pub sinks_good : AreGood r.sinks

-- The rows that the watermark of a runner leaves.
abbrev left : IncrementalRunner → World → ℕ
left b w = remaining w.reader.table b.last_processed_timestamp b.last_processed_id

-- What a good round does: it leaves fewer rows, or none if none were left.
record Move (b b' : IncrementalRunner) (w w' : World) : Type 0 where
  less : left b' w' ≤ left b w - 1
  same_batch : b'.batch_size ≡ b.batch_size
  same_reader : w'.reader ≡ w.reader
  same_sink : w'.rmq_sink ≡ w.rmq_sink

module _ (b : IncrementalRunner) (w : World) (r : Round) (last : SourceRecord) (y : SourceRow)
    (in_table : Member y w.reader.table) (same_time : updated_ms y ≡ last.updated_at)
    (same_id : y.id ≡ last.id)
    (after : is_newer b.last_processed_timestamp b.last_processed_id y ≡ true)
    (good : IsGood r) where
  commit_good :
      (w' : World) (ok bad : ℕ)
      → w'.reader ≡ w.reader
      → w'.rmq_sink ≡ w.rmq_sink
      → ((commit b w' r last ok bad).2 ≡ true)
        × Move b (commit b w' r last ok bad).0 w (commit b w' r last ok bad).1
  unfolding commit
  commit_good w' ok bad reader sink =
      let fewer =
        remaining-lt w.reader.table b.last_processed_timestamp b.last_processed_id y in_table
          after in
      let moved = ap₂ (λ t k. remaining w.reader.table t k) same_time same_id in
      let same = ap (λ (s : SourceReader). remaining s.table last.updated_at last.id) reader in
      rw (good.committed, commit)
        (
          refl,
          record {
            less = omega (arith, fewer, moved, same);
            same_batch = refl;
            same_reader = reader;
            same_sink = sink;
          },
        )

  settle_good :
      (w' : World) (rs : List SourceRecord) (es rmq : BatchResult)
      → w'.reader ≡ w.reader
      → w'.rmq_sink ≡ w.rmq_sink
      → ((settle b w' r rs last es rmq).2 ≡ true)
        × Move b (settle b w' r rs last es rmq).0 w (settle b w' r rs last es rmq).1
  unfolding settle
  settle_good w' rs es rmq reader sink =
      let bad = failed_count es rmq in
      elim (Bool-cases (has_any (dlq_entries rs es rmq))) [
        | inl h ↦
            rw (h, good.persisted, settle)
              (commit_good
                (record w' { dlq = (persist_failures w'.dlq (dlq_entries rs es rmq) r.now).0 })
                (length rs - bad) bad reader sink)
        | inr h ↦ rw (h, settle) (commit_good w' (length rs - bad) bad reader sink)
      ]

module _ (b : IncrementalRunner) (w : World) (r : Round) (connected : w.rmq_sink.has_channel ≡ true)
    (size : 0 < b.batch_size) (filled : AreFilled w.reader) (good : IsGood r) where
  iterate_good : ((iterate b w r).2 ≡ true) × Move b (iterate b w r).0 w (iterate b w r).1
  unfolding iterate process dispatch
  iterate_good =
      let t = b.last_processed_timestamp in
      let k = b.last_processed_id in
      let rs = fetch_incremental_batch w.reader t k (some b.batch_size) in
      let seen = with_lag b (get_incremental_lag w.reader t k r.lag_at) in
      elim (Option-cases (get_last? rs)) [
        | inl e ↦
            let nothing = fetch_incremental_batch_empty w.reader t k (some b.batch_size) size e in
            rw (good.runs_on, good.reads, good.fetched, iterate)
              (rw (e, process)
                (
                  refl,
                  record {
                    less = omega (arith, nothing);
                    same_batch = refl;
                    same_reader = refl;
                    same_sink = refl;
                  },
                ))
        | inr (last, e) ↦
            let (y, at, same_time, same_id, after) =
              fetch_incremental_batch_last w.reader t k (some b.batch_size) last e in
            let (es, rmq, given) =
              dispatch_answers w r.sinks record_mutated rs connected good.sinks_good
                (incremental_filled w.reader filled t k (some b.batch_size)) in
            let (going, m) =
              settle_good seen w r last y at same_time same_id after good
                (dispatch w r.sinks record_mutated rs).0 rs es rmq refl refl in
            rw (good.runs_on, good.reads, good.fetched, iterate)
              (rw (e, given, process)
                (
                  going,
                  record {
                    less = m.less;
                    same_batch = m.same_batch;
                    same_reader = m.same_reader;
                    same_sink = m.same_sink;
                  },
                ))
      ]

loop_good :
    (b : IncrementalRunner) (w : World) (rounds : List Round)
    → w.rmq_sink.has_channel ≡ true
    → 0 < b.batch_size
    → AreFilled w.reader
    → All IsGood rounds
    → left b w ≤ length rounds
    → left (loop b w rounds).0 (loop b w rounds).1 ≡ 0
unfolding loop
loop_good b w [] connected size filled good enough = omega (arith, enough)
loop_good b w (r ∷ rs) connected size filled (g, gs) enough =
    let (going, m) = iterate_good b w r connected size filled g in
    rw (going, loop)
      (loop_good (iterate b w r).0 (iterate b w r).1 rs
        (ap (λ (s : RabbitMqSink). s.has_channel) m.same_sink ∙ connected)
        (omega (arith, size, m.same_batch)) (subst AreFilled (sym m.same_reader) filled) gs
        (omega (arith, m.less, enough)))

no_rows : (rs : List SourceRow) → length rs ≡ 0 → rs ≡ []
no_rows [] h = refl
no_rows (r ∷ rs) h = absurd (omega (arith, h))

lag_none :
    (s : SourceReader) (at id now : ℕ)
    → remaining s.table at id ≡ 0
    → ((get_incremental_lag s at id now).lag_records ≡ 0)
      × ((get_incremental_lag s at id now).lag_ms ≡ 0)
unfolding get_incremental_lag
lag_none s at id now h =
    let none_newer = no_rows (select (is_newer at id) s.table) h in
    rw (none_newer, get_incremental_lag) (refl, refl)

-- A new runner is started with its channel to RabbitMQ connected, its checkpoint can be read and its
-- status saved, no stop is requested, no row of the table is read with a payload that is null (on
-- which the bulk upsert throws), and the loop is given at least as many rounds as the table has
-- rows. If no round fails (every statement succeeds, the probes report healthy sinks, and the
-- Elasticsearch client answers every request, with whatever rejections), then no row of the
-- table, which does not change meanwhile, is left after the watermark: the lag that is read then, at any time, is of no records and 0 ms.
pub start_catches_up :
    (id : Text) (batch_size poll_interval_ms : Option ℕ) (w : World) (boot : Boot)
    (rounds : List Round) (now : ℕ)
    → boot.reads ≡ true
    → boot.stopping ≡ false
    → boot.saves_status ≡ true
    → w.rmq_sink.has_channel ≡ true
    → AreFilled w.reader
    → All IsGood rounds
    → length w.reader.table ≤ length rounds
    → let after = start (new id batch_size poll_interval_ms) w boot rounds in
      let lag =
        get_incremental_lag after.1.reader after.0.last_processed_timestamp
          after.0.last_processed_id now in
      (lag.lag_records ≡ 0) × (lag.lag_ms ≡ 0)
unfolding start resume new
start_catches_up id batch_size poll_interval_ms w boot rounds now reads runs saves connected filled
      good enough =
    let (c, read, found, origin, others) = get_checkpoint_row id boot.now w.checkpoints in
    rw (reads, read, start)
      (rw (runs, saves, resume)
        (lag_none _ _ _ now (
          loop_good _ _ rounds connected (omega arith) filled good
            (omega (arith, remaining-le-length w.reader.table _ _, enough)))))
