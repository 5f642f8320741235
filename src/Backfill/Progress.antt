-- ===== src/Backfill/Progress.antt =====
-- The backfill ends: a start and enough rounds in which nothing fails reach COMPLETED.
use optio_test.Prelude.{
  ℕ, ◌-◌, ◌≤◌, ◌<◌, ◌≡◌, refl, sym, subst, ap, ◌∙◌, ◌⊎◌, inl, inr, true, false, Option, some, List,
  [], ◌∷◌, arith, length, All, Member, get_last?, ltb, Bool-cases, Option-cases,
}
use optio_test.Prelude.Order.{select}
use optio_test.Prelude.Text.{Text}
use optio_test.Types.{SourceRecord, BatchResult, record_backfilled, completed}
use optio_test.Source.{SourceRow, SourceReader, fetch_backfill_batch}
use optio_test.Source.Payloads.{AreFilled, backfill_filled}
use optio_test.Source.Backfill.{fetch_backfill_batch_last}
use optio_test.Checkpoint.Laws.{get_checkpoint_row}
use optio_test.Dlq.{persist_failures}
use optio_test.Rabbit.{RabbitMqSink}
use optio_test.Runner.Answers.{AreGood, dispatch_answers}
use optio_test.Runner.{World, dispatch, dlq_entries, failed_count, has_any}
use optio_test.Backfill.{
  BackfillRunner, Round, new, commit, settle, complete, process, iterate, loop,
}
use optio_test.Backfill.Boots.{Boot, resume, start}

-- The rows of a table that a watermark leaves.
abbrev pub remaining : List SourceRow → ℕ → ℕ
remaining table mark = length (select (λ r. ltb mark r.id) table)

remaining-le : (table : List SourceRow) (a b : ℕ) → a ≤ b → remaining table b ≤ remaining table a
unfolding select
remaining-le [] a b h = omega arith
remaining-le (r ∷ rs) a b h = ground (arith, remaining-le rs a b h)

-- A watermark that passes a row leaves fewer.
remaining-lt :
    (table : List SourceRow) (a b : ℕ) (y : SourceRow)
    → Member y table
    → a < y.id
    → y.id ≤ b
    → remaining table b < remaining table a
unfolding select
remaining-lt [] a b y m h k = elim m [ ]
remaining-lt (r ∷ rs) a b y (inl e) h k =
    ground (arith, ap (λ (x : SourceRow). x.id) e, remaining-le rs a b (omega arith))
remaining-lt (r ∷ rs) a b y (inr m) h k = ground (arith, remaining-lt rs a b y m h k)

remaining-le-length : (table : List SourceRow) (a : ℕ) → remaining table a ≤ length table
unfolding select
remaining-le-length [] a = omega arith
remaining-le-length (r ∷ rs) a = ground (arith, remaining-le-length rs a)

-- A round in which nothing fails: no stop is requested, every statement on the database succeeds, the
-- probes report healthy sinks, and the client answers every request.
pub record IsGood (r : Round) : Type 0 where
  pub runs_on : r.stopping ≡ false
  pub stays_on : r.stopped_late ≡ false
  pub fetches : r.fetches ≡ true
  pub persists : r.persists ≡ true
  pub commits : r.commits ≡ true
  pub completes : r.completes ≡ true
  pub sinks_good : AreGood r.sinks

-- What a good round does: it ends the loop as completed, or moves past a row and goes on.
record Advance (b b' : BackfillRunner) (w w' : World) : Type 0 where
  row : SourceRow
  in_table : Member row w.reader.table
  above : b.last_processed_id < row.id
  passed : row.id ≤ b'.last_processed_id
  same_status : b'.status ≡ b.status
  same_batch : b'.batch_size ≡ b.batch_size
  same_reader : w'.reader ≡ w.reader
  same_sink : w'.rmq_sink ≡ w.rmq_sink

commit_good :
    (b : BackfillRunner) (w w' : World) (r : Round) (last : SourceRecord) (n ok bad : ℕ)
    (y : SourceRow)
    → r.commits ≡ true
    → Member y w.reader.table
    → y.id ≡ last.id
    → b.last_processed_id < y.id
    → w'.reader ≡ w.reader
    → w'.rmq_sink ≡ w.rmq_sink
    → ((commit b w' r last.id n ok bad).2 ≡ true)
      × Advance b (commit b w' r last.id n ok bad).0 w (commit b w' r last.id n ok bad).1
unfolding commit
commit_good b w w' r last n ok bad y k at same above reader sink =
    rw (k, commit)
      (
        refl,
        record {
          row = y;
          in_table = at;
          above = above;
          passed = omega (arith, same);
          same_status = refl;
          same_batch = refl;
          same_reader = reader;
          same_sink = sink;
        },
      )

settle_good :
    (b : BackfillRunner) (w w' : World) (r : Round) (rs : List SourceRecord) (last : SourceRecord)
    (es rmq : BatchResult) (y : SourceRow)
    → r.persists ≡ true
    → r.commits ≡ true
    → Member y w.reader.table
    → y.id ≡ last.id
    → b.last_processed_id < y.id
    → w'.reader ≡ w.reader
    → w'.rmq_sink ≡ w.rmq_sink
    → ((settle b w' r rs last es rmq).2 ≡ true)
      × Advance b (settle b w' r rs last es rmq).0 w (settle b w' r rs last es rmq).1
unfolding settle
settle_good b w w' r rs last es rmq y p k at same above reader sink =
    let bad = failed_count es rmq in
    elim (Bool-cases (has_any (dlq_entries rs es rmq))) [
      | inl h ↦
          rw (h, p, settle)
            (commit_good b w
              (record w' { dlq = (persist_failures w'.dlq (dlq_entries rs es rmq) r.now).0 }) r last
              (length rs) (length rs - bad) bad y k at same above reader sink)
      | inr h ↦
          rw (h, settle)
            (commit_good b w w' r last (length rs) (length rs - bad) bad y k at same above reader
              sink)
    ]

module _ (b : BackfillRunner) (w : World) (r : Round) (connected : w.rmq_sink.has_channel ≡ true)
    (filled : AreFilled w.reader) (good : IsGood r) where
  iterate_good :
      (((iterate b w r).2 ≡ false) × ((iterate b w r).0.status ≡ completed))
      ⊎ (((iterate b w r).2 ≡ true) × Advance b (iterate b w r).0 w (iterate b w r).1)
  unfolding iterate process complete dispatch
  iterate_good =
      let rs = fetch_backfill_batch w.reader b.last_processed_id (some b.batch_size) in
      elim (Option-cases (get_last? rs)) [
        | inl e ↦
            rw (good.runs_on, good.fetches, iterate)
              (rw (e, good.completes, good.stays_on, process) (inl (refl, refl)))
        | inr (last, e) ↦
            let (y, at, same, above) =
              fetch_backfill_batch_last w.reader b.last_processed_id (some b.batch_size) last e in
            let (es, rmq, given) =
              dispatch_answers w r.sinks record_backfilled rs connected good.sinks_good
                (backfill_filled w.reader filled b.last_processed_id (some b.batch_size)) in
            rw (good.runs_on, good.fetches, iterate)
              (rw (e, given, process)
                (inr (
                  settle_good b w (dispatch w r.sinks record_backfilled rs).0 r rs last es rmq y
                    good.persists good.commits at same above refl refl)))
      ]

loop_good :
    (b : BackfillRunner) (w : World) (rounds : List Round)
    → w.rmq_sink.has_channel ≡ true
    → AreFilled w.reader
    → All IsGood rounds
    → remaining w.reader.table b.last_processed_id < length rounds
    → (loop b w rounds).0.status ≡ completed
unfolding loop
loop_good b w [] connected filled good enough = absurd (omega (arith, enough))
loop_good b w (r ∷ rs) connected filled (g, gs) enough =
    elim (iterate_good b w r connected filled g) [
      | inl (ended, done) ↦ rw (ended, loop) done
      | inr (going, a) ↦
          let b' = (iterate b w r).0 in
          let w' = (iterate b w r).1 in
          let fewer =
            remaining-lt w.reader.table b.last_processed_id b'.last_processed_id a.row a.in_table
              a.above a.passed in
          let same =
            ap (λ (s : SourceReader). remaining s.table b'.last_processed_id) a.same_reader in
          rw (going, loop)
            (loop_good b' w' rs (ap (λ (s : RabbitMqSink). s.has_channel) a.same_sink ∙ connected)
              (subst AreFilled (sym a.same_reader) filled) gs (omega (arith, fewer, same, enough)))
    ]

-- A new runner is started with its channel to RabbitMQ connected, its checkpoint can be read and
-- its status saved, no stop is requested, no row of the table is read with a payload that is null
-- (on which the bulk upsert throws), and the loop is given more rounds than the table has rows.
-- If no round fails (every statement succeeds, the probes report healthy sinks, and the Elasticsearch
-- client answers every request, with whatever rejections), then the runner ends as COMPLETED.
pub start_completes :
    (id : Text) (batch_size : Option ℕ) (w : World) (boot : Boot) (rounds : List Round)
    → boot.reads ≡ true
    → boot.stopping ≡ false
    → boot.saves_status ≡ true
    → w.rmq_sink.has_channel ≡ true
    → AreFilled w.reader
    → All IsGood rounds
    → length w.reader.table < length rounds
    → (start (new id batch_size) w boot rounds).0.status ≡ completed
unfolding start resume new
start_completes id batch_size w boot rounds reads runs saves connected filled good enough =
    let (c, read, found, origin, others) = get_checkpoint_row id boot.now w.checkpoints in
    let few = remaining-le-length w.reader.table c.last_processed_id in
    rw (reads, read, start)
      (rw (runs, saves, resume)
        (loop_good _ _ rounds connected filled good (omega (arith, few, enough))))
