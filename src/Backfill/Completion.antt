-- ===== src/Backfill/Completion.antt =====
-- What the status COMPLETED of the runner means.
use optio_test.Prelude.{
  ℕ, ◌<◌, ◌≡◌, refl, sym, subst, ◌∙◌, inl, inr, Bool, true, none, some, List, [], ◌∷◌, arith,
  length, Member, get_last?, Bool-cases, Option-cases, ◌-◌,
}
use optio_test.Prelude.Text.{Text}
use optio_test.Types.{
  SourceRecord, initialized, running, ReplicationCheckpoint, completed, BatchResult,
  record_backfilled,
}
use optio_test.Source.{SourceRow, SourceReader, fetch_backfill_batch}
use optio_test.Source.Backfill.{fetch_backfill_batch_empty}
use optio_test.Runner.{has_any, World, dispatch, dlq_entries, failed_count}
use optio_test.Dlq.{persist_failures}
use optio_test.Backfill.{
  BackfillRunner, Round, fail, commit, settle, complete, process, iterate, loop, counted, new,
}
use optio_test.Backfill.Boots.{Boot, resume_from, resume, start}
use optio_test.Runner.Accounts.{Holds}
use optio_test.Backfill.Safety.{Durable, Synced, Synced-status, Synced-runner}
use optio_test.Backfill.Rounds.{iterate-Synced}
use optio_test.Backfill.Restarts.{
  Process, processes, processes-Durable, restarted, recovered-Synced, fresh-Durable,
}
use optio_test.Checkpoint.{select_row}
use optio_test.Checkpoint.Laws.{get_checkpoint_row}

-- A step either leaves the loop running with its batch size, or ends it; it says COMPLETED only at
-- the end of the table, in a world that accounts for as much as before.
record Step (b b' : BackfillRunner) (w w' : World) (going : Bool) : Type 0 where
  continues : going ≡ true → (b'.status ≡ running) × (b'.batch_size ≡ b.batch_size)
  ends :
      b'.status ≡ completed
      → (fetch_backfill_batch w.reader b.last_processed_id (some b.batch_size) ≡ [])
        × ((id : ℕ) → Holds w id → Holds w' id)

module _ (b : BackfillRunner) (w : World) (r : Round) (active : b.status ≡ running) where
  fail-Step :
      (b' : BackfillRunner) (w' : World)
      → Step b (fail b' w' r).0 w (fail b' w' r).1 (fail b' w' r).2
  unfolding fail
  fail-Step b' w' = elim (Bool-cases r.saves_failure) [
    | inl k ↦ rw (k, fail) (record { continues = λ e. cc; ends = λ e. cc })
    | inr k ↦ rw (k, fail) (record { continues = λ e. cc; ends = λ e. cc })
  ]

  commit-Step :
      (w' : World) (mark n good bad : ℕ)
      → Step b
          (commit b w' r mark n good bad).0
          w
          (commit b w' r mark n good bad).1
          (commit b w' r mark n good bad).2
  unfolding commit
  commit-Step w' mark n good bad = elim (Bool-cases r.commits) [
    | inl k ↦ rw (k, commit) (record { continues = λ e. (active, refl); ends = λ e. cc })
    | inr k ↦ rw (k, commit) (fail-Step (counted b r good bad) w')
  ]

  settle-Step :
      (w' : World) (rs : List SourceRecord) (last : SourceRecord) (es rmq : BatchResult)
      → Step b
          (settle b w' r rs last es rmq).0
          w
          (settle b w' r rs last es rmq).1
          (settle b w' r rs last es rmq).2
  unfolding settle
  settle-Step w' rs last es rmq = elim (Bool-cases (has_any (dlq_entries rs es rmq))) [
    | inl h ↦ elim (Bool-cases r.persists) [
      | inl k ↦
          rw (h, k, settle)
            (commit-Step
              (record w' { dlq = (persist_failures w'.dlq (dlq_entries rs es rmq) r.now).0 })
              last.id (length rs) (length rs - failed_count es rmq) (failed_count es rmq))
      | inr k ↦ rw (h, k, settle) (fail-Step b w')
    ]
    | inr h ↦
        rw (h, settle)
          (commit-Step w' last.id (length rs) (length rs - failed_count es rmq)
            (failed_count es rmq))
  ]

nothing_last : (rs : List SourceRecord) → get_last? rs ≡ none → rs ≡ []
nothing_last [] e = refl
nothing_last (r ∷ []) e = cc
nothing_last (r ∷ q ∷ rs) e = cc (nothing_last (q ∷ rs) e)

module _ (b : BackfillRunner) (w : World) (r : Round) (active : b.status ≡ running) where
  process-Step :
      (rs : List SourceRecord)
      → rs ≡ fetch_backfill_batch w.reader b.last_processed_id (some b.batch_size)
      → Step b (process b w r rs).0 w (process b w r rs).1 (process b w r rs).2
  unfolding process complete
  process-Step rs fetched = elim (Option-cases (get_last? rs)) [
    | inl e ↦ elim (Bool-cases r.completes) [
      | inl k ↦
          rw (e, k, process)
            (record {
              continues = λ x. cc;
              ends = λ x. (sym fetched ∙ nothing_last rs e, λ id h. h);
            })
      | inr k ↦ rw (e, k, process) (fail-Step b w r active (record b { status = completed }) w)
    ]
    | inr (last, e) ↦
        let w' = (dispatch w r.sinks record_backfilled rs).0 in
        elim (Option-cases (dispatch w r.sinks record_backfilled rs).1) [
          | inl thrown ↦ rw (e, thrown, process) (fail-Step b w r active b w')
          | inr ((es, rmq), given) ↦
              rw (e, given, process) (settle-Step b w r active w' rs last es rmq)
        ]
  ]

  iterate-Step : Step b (iterate b w r).0 w (iterate b w r).1 (iterate b w r).2
  unfolding iterate
  iterate-Step = elim (Bool-cases r.stopping) [
    | inl k ↦ rw (k, iterate) (record { continues = λ e. cc; ends = λ e. cc })
    | inr k ↦ elim (Bool-cases r.fetches) [
      | inl f ↦ rw (k, f, iterate) (process-Step _ refl)
      | inr f ↦ rw (k, f, iterate) (fail-Step b w r active b w)
    ]
  ]

module _ {id : Text} {source : SourceReader} where
  loop-completed :
      (b : BackfillRunner) (w : World) (rounds : List Round) (z : SourceRow)
      → Synced id source b w
      → b.status ≡ running
      → 0 < b.batch_size
      → (loop b w rounds).0.status ≡ completed
      → Member z source.table
      → 0 < z.id
      → Holds (loop b w rounds).1 z.id
  unfolding loop
  loop-completed b w [] z s active size e m p = cc
  loop-completed b w (r ∷ rs) z s active size e m p =
      let step = iterate-Step b w r active in
      elim (Bool-cases (iterate b w r).2) [
        | inl k ↦
            let (still, same) = step.continues k in
            rw (k, loop)
              (loop-completed (iterate b w r).0 (iterate b w r).1 rs z (iterate-Synced b w r s)
                still (subst (λ n. 0 < n) (sym same) size) (rw (k, loop) at e) m p)
        | inr k ↦
            let (empty, kept) = step.ends (rw (k, loop) at e) in
            let within = subst (λ t. Member z t.table) (sym s.reader) m in
            let below =
              fetch_backfill_batch_empty w.reader b.last_processed_id (some b.batch_size) z size
                empty within in
            rw (k, loop) (kept z.id (s.accounted z within p (omega (arith, below, s.agrees))))
      ]

  resume-completed :
      (b : BackfillRunner) (w : World) (boot : Boot) (rounds : List Round)
      (c : ReplicationCheckpoint) (z : SourceRow)
      → Synced id source (resume_from b c) w
      → 0 < b.batch_size
      → (resume b w boot rounds (some c)).0.status ≡ completed
      → Member z source.table
      → 0 < z.id
      → Holds (resume b w boot rounds (some c)).1 z.id
  unfolding resume
  resume-completed b w boot rounds c z s size e m p = elim (Bool-cases boot.stopping) [
    | inl k ↦ cc (rw (k, resume) at e)
    | inr k ↦ elim (Bool-cases boot.saves_status) [
      | inl j ↦
          let b' = record (resume_from b c) {
            status = running;
            start_time = some boot.started_at;
          } in
          rw (k, j, resume)
            (loop-completed b' _ rounds z
              (Synced-status b' w running boot.now
                (Synced-runner (resume_from b c) b' w refl refl s))
              refl size (rw (k, j, resume) at e) m p)
      | inr j ↦ cc (rw (k, j, resume) at e)
    ]
  ]

  start-completed :
      (b : BackfillRunner) (w : World) (boot : Boot) (rounds : List Round) (z : SourceRow)
      → b.pipeline_id ≡ id
      → b.status ≡ initialized
      → 0 < b.batch_size
      → Durable id source w
      → (start b w boot rounds).0.status ≡ completed
      → Member z source.table
      → 0 < z.id
      → Holds (start b w boot rounds).1 z.id
  unfolding start
  start-completed b w boot rounds z key idle size d e m p = elim (Bool-cases boot.reads) [
    | inr k ↦ let never = rw (k, start) at e in cc
    | inl k ↦
        let (c, read, found, origin, others) =
          get_checkpoint_row b.pipeline_id boot.now w.checkpoints in
        rw (k, read, start)
          (resume-completed b _ boot rounds c z (recovered-Synced b w boot c key d found origin)
            size (rw (k, read, start) at e) m p)
  ]

-- The process that runs after others have.
abbrev pub last_process : Text → World → List Process → Process → BackfillRunner × World
last_process id w ps p =
    start (new id p.batch_size) (restarted (processes id w ps) p) p.boot p.rounds

-- Let a pipeline's backfill be run by one process after the other, as in `no_loss`, on a database
-- that had no checkpoint of it. If the runner of the last process ends with the status COMPLETED,
-- then every row of the table with a positive id is, for each of the two sinks, among the ids that
-- the sink has reported as written or in an entry of the dead letter queue for that sink.
pub completed_all :
    (id : Text) (w : World) (ps : List Process) (p : Process) (z : SourceRow)
    → select_row id w.checkpoints ≡ none
    → (last_process id w ps p).0.status ≡ completed
    → Member z w.reader.table
    → 0 < z.id
    → Holds (last_process id w ps p).1 z.id
unfolding new
completed_all id w ps p z fresh e m pos =
    let d = processes-Durable id w.reader w ps (fresh-Durable id w fresh) in
    start-completed (new id p.batch_size) (restarted (processes id w ps) p) p.boot p.rounds z refl
      refl (omega arith) (record { reader = d.reader; safe = d.safe }) e m pos
