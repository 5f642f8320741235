-- ===== src/Backfill/Restarts.antt =====
-- The pipeline process is started any number of times, each time with a new runner.
use optio_test.Prelude.{
  ℕ, ◌≤◌, ◌<◌, ◌≡◌, refl, sym, ap, subst, ◌∙◌, ◌⊎◌, inl, inr, Option, none, some, List, [], ◌∷◌,
  arith, Member, Bool-cases,
}
use optio_test.Prelude.Text.{Text}
use optio_test.Types.{PipelineStatus, running, paused, ReplicationCheckpoint}
use optio_test.Checkpoint.{select_row, get_checkpoint, initial_row}
use optio_test.Checkpoint.Laws.{get_checkpoint_row}
use optio_test.Breaker.{CircuitBreaker}
use optio_test.Source.{SourceRow, SourceReader}
use optio_test.Runner.{World}
use optio_test.Backfill.{BackfillRunner, Round, new}
use optio_test.Backfill.Boots.{Boot, resume_from, resume, start}
use optio_test.Runner.Accounts.{Holds}
use optio_test.Backfill.Safety.{Durable, Synced, Synced-Durable, Synced-status, Synced-runner}
use optio_test.Backfill.Rounds.{loop-Synced}

-- One process: its breakers are new, and so is its runner.
pub record Process : Type 0 where
  pub batch_size : Option ℕ
  pub es_breaker : CircuitBreaker
  pub rmq_breaker : CircuitBreaker
  pub boot : Boot
  pub rounds : List Round

abbrev pub restarted : World → Process → World
restarted w p = record w { es_breaker = p.es_breaker; rmq_breaker = p.rmq_breaker }

-- One process after the other on the same database and sinks.
unfoldable pub processes : Text → World → List Process → World
processes id w [] = w
processes id w (p ∷ ps) =
    processes id (start (new id p.batch_size) (restarted w p) p.boot p.rounds).1 ps

no_row : {c : ReplicationCheckpoint} → none ≡ some c → ⊥
no_row e = cc

nothing_below :
    (c : ReplicationCheckpoint) {id : Text} {now : ℕ}
    → c ≡ initial_row id now
    → (z : SourceRow) → 0 < z.id
    → z.id ≤ c.last_processed_id
    → ⊥
nothing_below c fresh z p le =
    let zero_mark = ap (λ (x : ReplicationCheckpoint). x.last_processed_id) fresh in omega arith

module _ {id : Text} {source : SourceReader} where
  resume-Synced :
      (b : BackfillRunner) (w : World) (boot : Boot) (rounds : List Round)
      (c : ReplicationCheckpoint)
      → Synced id source (resume_from b c) w
      → Synced id source (resume b w boot rounds (some c)).0 (resume b w boot rounds (some c)).1
  unfolding resume
  resume-Synced b w boot rounds c s =
      let set = λ (status : PipelineStatus).
        Synced-runner (resume_from b c) (record (resume_from b c) { status = status }) w refl refl
          s in
      elim (Bool-cases boot.stopping) [
        | inl k ↦ rw (k, resume) (set paused)
        | inr k ↦ elim (Bool-cases boot.saves_status) [
          | inl j ↦
              let b' = record (resume_from b c) {
                status = running;
                start_time = some boot.started_at;
              } in
              rw (k, j, resume)
                (loop-Synced b' _ rounds (
                  Synced-status b' w running boot.now
                    (Synced-runner (resume_from b c) b' w refl refl s)))
          | inr j ↦ rw (k, j, resume) (set running)
        ]
      ]

  -- The row that the start recovers covers accounted rows only.
  pub recovered-Synced :
      (b : BackfillRunner) (w : World) (boot : Boot) (c : ReplicationCheckpoint)
      → b.pipeline_id ≡ id
      → Durable id source w
      → select_row b.pipeline_id (get_checkpoint b.pipeline_id boot.now w.checkpoints).0 ≡ some c
      → (select_row b.pipeline_id w.checkpoints ≡ some c) ⊎ (c ≡ initial_row b.pipeline_id boot.now)
      → Synced id source
          (resume_from b c)
          (record w { checkpoints = (get_checkpoint b.pipeline_id boot.now w.checkpoints).0 })
  recovered-Synced b w boot c key d found origin = record {
    key = key;
    reader = d.reader;
    row = c;
    found = found;
    agrees = refl;
    accounted = elim origin [
      | inl old ↦ d.safe c (ap (λ t. select_row t w.checkpoints) (sym key) ∙ old)
      | inr fresh ↦ λ z m p le. absurd (nothing_below c fresh z p le)
    ];
  }

  start-Durable :
      (b : BackfillRunner) (w : World) (boot : Boot) (rounds : List Round)
      → b.pipeline_id ≡ id
      → Durable id source w
      → Durable id source (start b w boot rounds).1
  unfolding start
  start-Durable b w boot rounds key d =
      let (c, read, found, origin, others) =
        get_checkpoint_row b.pipeline_id boot.now w.checkpoints in
      let s = recovered-Synced b w boot c key d found origin in
      elim (Bool-cases boot.reads) [
        | inl k ↦ rw (k, read, start) (Synced-Durable _ _ (resume-Synced b _ boot rounds c s))
        | inr k ↦ elim (Bool-cases boot.inserts) [
          | inl j ↦ rw (k, j, start) (Synced-Durable _ _ s)
          | inr j ↦ rw (k, j, start) d
        ]
      ]

pub fresh-Durable :
    (id : Text) (w : World) → select_row id w.checkpoints ≡ none → Durable id w.reader w
fresh-Durable id w fresh = record { reader = refl; safe = λ x e. absurd (no_row (sym fresh ∙ e)) }

pub processes-Durable :
    (id : Text) (source : SourceReader) (w : World) (ps : List Process)
    → Durable id source w
    → Durable id source (processes id w ps)
unfolding processes new
processes-Durable id source w [] d = d
processes-Durable id source w (p ∷ ps) d =
    processes-Durable id source (start (new id p.batch_size) (restarted w p) p.boot p.rounds).1 ps (
      start-Durable (new id p.batch_size) (restarted w p) p.boot p.rounds refl
        (record { reader = d.reader; safe = d.safe }))

-- Let any number of processes run a pipeline's backfill, one after the other, each meeting whatever
-- failures and cut off wherever. If the database had no checkpoint of the pipeline before them, then
-- every row of the table whose id is from 1 to the watermark committed at the end is, for each of
-- the two sinks, among the ids that the sink has reported as written or in an entry of the dead
-- letter queue for that sink.
pub no_loss :
    (id : Text) (w : World) (ps : List Process) (c : ReplicationCheckpoint) (z : SourceRow)
    → select_row id w.checkpoints ≡ none
    → select_row id (processes id w ps).checkpoints ≡ some c
    → Member z w.reader.table
    → 0 < z.id
    → z.id ≤ c.last_processed_id
    → Holds (processes id w ps) z.id
no_loss id w ps c z fresh found m p le =
    let d = processes-Durable id w.reader w ps (fresh-Durable id w fresh) in
    d.safe c found z (subst (λ s. Member z s.table) (sym d.reader) m) p le
