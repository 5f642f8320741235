-- ===== src/Incremental/Restarts.antt =====
-- The pipeline process is started any number of times, each time with a new runner.
use optio_test.Prelude.{
  true, false, ℕ, ◌≡◌, refl, sym, ap, subst, ◌∙◌, ◌⊎◌, inl, inr, Option, none, some, List, [], ◌∷◌,
  Member, Bool-cases,
}
use optio_test.Prelude.Text.{Text}
use optio_test.Types.{PipelineStatus, running, paused, ReplicationCheckpoint}
use optio_test.Checkpoint.{select_row, get_checkpoint, initial_row}
use optio_test.Checkpoint.Laws.{get_checkpoint_row}
use optio_test.Breaker.{CircuitBreaker}
use optio_test.Source.{SourceRow, SourceReader, is_newer}
use optio_test.Source.Incremental.{Aligned}
use optio_test.Runner.{World}
use optio_test.Incremental.{IncrementalRunner, Round, new}
use optio_test.Incremental.Boots.{Boot, resume_from, resume, start}
use optio_test.Runner.Accounts.{Holds}
use optio_test.Incremental.Safety.{
  mark_of, Durable, Synced, Synced-Durable, Synced-status, Synced-runner,
}
use optio_test.Incremental.Rounds.{loop-Synced}

-- One process: its breakers are new, and so is its runner. `table` is what the source table holds
-- while it runs.
pub record Process : Type 0 where
  pub table : List SourceRow
  pub batch_size : Option ℕ
  pub poll_interval_ms : Option ℕ
  pub es_breaker : CircuitBreaker
  pub rmq_breaker : CircuitBreaker
  pub boot : Boot
  pub rounds : List Round

abbrev pub restarted : World → Process → World
restarted w p = record w {
  reader = record w.reader { table = p.table };
  es_breaker = p.es_breaker;
  rmq_breaker = p.rmq_breaker;
}

-- One process after the other on the same database and sinks.
unfoldable pub processes : Text → World → List Process → World
processes id w [] = w
processes id w (p ∷ ps) =
    processes id (start (new id p.batch_size p.poll_interval_ms) (restarted w p) p.boot p.rounds).1
      ps

no_row : {c : ReplicationCheckpoint} → none ≡ some c → ⊥
no_row e = cc

nothing_before :
    (c : ReplicationCheckpoint) {id : Text} {now : ℕ}
    → c ≡ initial_row id now
    → (z : SourceRow) → is_newer 0 0 z ≡ true
    → is_newer (mark_of c) c.last_processed_id z ≡ false
    → ⊥
nothing_before c fresh z p n =
    let n' =
      subst (λ (x : ReplicationCheckpoint). is_newer (mark_of x) x.last_processed_id z ≡ false)
        fresh n in
    cc

module _ {id : Text} {source : SourceReader} (aligned : Aligned source.table) where
  resume-Synced :
      (b : IncrementalRunner) (w : World) (boot : Boot) (rounds : List Round)
      (c : ReplicationCheckpoint)
      → Synced id source (resume_from b c) w
      → Synced id source (resume b w boot rounds (some c)).0 (resume b w boot rounds (some c)).1
  unfolding resume
  resume-Synced b w boot rounds c s =
      let set = λ (status : PipelineStatus).
        Synced-runner (resume_from b c) (record (resume_from b c) { status = status }) w refl refl
          refl s in
      elim (Bool-cases boot.stopping) [
        | inl k ↦ rw (k, resume) (set paused)
        | inr k ↦ elim (Bool-cases boot.saves_status) [
          | inl j ↦
              let b' = record (resume_from b c) { status = running } in
              rw (k, j, resume)
                (loop-Synced aligned b' _ rounds (
                  Synced-status b' w running boot.now
                    (Synced-runner (resume_from b c) b' w refl refl refl s)))
          | inr j ↦ rw (k, j, resume) (set running)
        ]
      ]

  -- The row that the start recovers covers accounted rows only.
  pub recovered-Synced :
      (b : IncrementalRunner) (w : World) (boot : Boot) (c : ReplicationCheckpoint)
      → b.pipeline_id ≡ id
      → Durable id source w
      → select_row b.pipeline_id (get_checkpoint b.pipeline_id boot.now w.checkpoints).0 ≡ some c
      → (select_row b.pipeline_id w.checkpoints ≡ some c) ⊎ (c ≡ initial_row b.pipeline_id boot.now)
      → Synced id source
          (resume_from b c)
          (record w { checkpoints = (get_checkpoint b.pipeline_id boot.now w.checkpoints).0 })
  recovered-Synced b w boot c key d found origin = record {
    key = key;
    reader = d.reader;
    row = c;
    found = found;
    agrees = refl;
    agrees_at = refl;
    accounted = elim origin [
      | inl old ↦ d.safe c (ap (λ t. select_row t w.checkpoints) (sym key) ∙ old)
      | inr fresh ↦ λ z m p le. absurd (nothing_before c fresh z p le)
    ];
  }

  start-Durable :
      (b : IncrementalRunner) (w : World) (boot : Boot) (rounds : List Round)
      → b.pipeline_id ≡ id
      → Durable id source w
      → Durable id source (start b w boot rounds).1
  unfolding start
  start-Durable b w boot rounds key d =
      let (c, read, found, origin, others) =
        get_checkpoint_row b.pipeline_id boot.now w.checkpoints in
      let s = recovered-Synced b w boot c key d found origin in
      elim (Bool-cases boot.reads) [
        | inl k ↦ rw (k, read, start) (Synced-Durable _ _ (resume-Synced b _ boot rounds c s))
        | inr k ↦ elim (Bool-cases boot.inserts) [
          | inl j ↦ rw (k, j, start) (Synced-Durable _ _ s)
          | inr j ↦ rw (k, j, start) d
        ]
      ]

pub fresh-Durable :
    (id : Text) (w : World) → select_row id w.checkpoints ≡ none → Durable id w.reader w
fresh-Durable id w fresh = record { reader = refl; safe = λ x e. absurd (no_row (sym fresh ∙ e)) }

-- Between two processes the table changed after the committed watermark only: a row that it does
-- not leave behind stood there before, as it is.
abbrev pub KeepsPast : Text → World → List SourceRow → Type 0
KeepsPast id w table =
    (c : ReplicationCheckpoint)
    → select_row id w.checkpoints ≡ some c
    → (z : SourceRow) → Member z table
    → is_newer 0 0 z ≡ true
    → is_newer (mark_of c) c.last_processed_id z ≡ false
    → Member z w.reader.table

-- So it did before every process, with timestamps that are whole milliseconds.
unfoldable pub AllKeepPast : Text → World → List Process → Type 0
AllKeepPast id w [] = Unit
AllKeepPast id w (p ∷ ps) =
    Aligned p.table
    × KeepsPast id w p.table
    × AllKeepPast id
        (start (new id p.batch_size p.poll_interval_ms) (restarted w p) p.boot p.rounds).1 ps

restarted-Durable :
    (id : Text) (w : World) (p : Process)
    → KeepsPast id w p.table
    → Durable id w.reader w
    → Durable id (restarted w p).reader (restarted w p)
restarted-Durable id w p keeps d = record {
  reader = refl;
  safe = λ c e z m newer behind. d.safe c e z (keeps c e z m newer behind) newer behind;
}

pub processes-Durable :
    (id : Text) (w : World) (ps : List Process)
    → AllKeepPast id w ps
    → Durable id w.reader w
    → Durable id (processes id w ps).reader (processes id w ps)
unfolding processes new AllKeepPast
processes-Durable id w [] k d = d
processes-Durable id w (p ∷ ps) (aligned, keeps, later) d =
    let b = new id p.batch_size p.poll_interval_ms in
    let ended =
      start-Durable aligned b (restarted w p) p.boot p.rounds refl
        (restarted-Durable id w p keeps d) in
    processes-Durable id (start b (restarted w p) p.boot p.rounds).1 ps later
      (record { reader = refl; safe = ended.safe })

-- Let any number of processes poll for a pipeline, one after the other, each meeting whatever
-- failures and cut off wherever, on a table whose timestamps are whole milliseconds. The table may
-- change between two processes, where every row that is new or changed comes after the watermark
-- committed by then, and does not change while a process runs. If the database had no checkpoint of
-- the pipeline before them, then every row that the table holds at the end, and that comes after the
-- epoch and not after the timestamp and the id of the watermark committed at the end, is, for each of
-- the two sinks, by its id among those that the sink has reported as written or in an entry of the
-- dead letter queue for that sink.
pub no_change_lost :
    (id : Text) (w : World) (ps : List Process) (c : ReplicationCheckpoint) (z : SourceRow)
    → AllKeepPast id w ps
    → select_row id w.checkpoints ≡ none
    → select_row id (processes id w ps).checkpoints ≡ some c
    → Member z (processes id w ps).reader.table
    → is_newer 0 0 z ≡ true
    → is_newer (mark_of c) c.last_processed_id z ≡ false
    → Holds (processes id w ps) z.id
no_change_lost id w ps c z keeps fresh found m p n =
    (processes-Durable id w ps keeps (fresh-Durable id w fresh)).safe c found z m p n
