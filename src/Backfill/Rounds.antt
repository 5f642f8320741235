-- ===== src/Backfill/Rounds.antt =====
-- A round of the backfill loop keeps the invariant, whatever fails in it.
use mathlib.Core.List.{Mem}
use optio_test.Prelude.{
  ℕ, ◌-◌, ◌<◌, ◌≡◌, refl, sym, ap, subst, ◌∙◌, inl, inr, Option, some, List, [], ◌∷◌, arith, length,
  get_last?, ltb, ltb→lt, Bool-cases, Option-cases, if◌then◌else◌,
}
use optio_test.Prelude.Text.{Text}
use optio_test.Types.{SourceRecord, BatchResult, record_backfilled, completed, paused}
use optio_test.Batches.{ids}
use optio_test.Source.{SourceReader, fetch_backfill_batch}
use optio_test.Source.Backfill.{fetch_backfill_batch_complete}
use optio_test.Checkpoint.{committed}
use optio_test.Checkpoint.Laws.{commit_checkpoint_same}
use optio_test.Dlq.{persist_failures}
use optio_test.Runner.{has_any, World, dispatch, dlq_entries, failed_count}
use optio_test.Runner.Guarded.{Dispatched, dispatch-Dispatched}
use optio_test.Backfill.{
  BackfillRunner, Round, commit, settle, complete, process, iterate, loop, counted, commit_data,
}
use optio_test.Runner.Accounts.{
  no_entries, Holds, dispatch-Widened, quarantine, quarantine-Widened, quarantine-Holds,
}
use optio_test.Backfill.Safety.{Synced, Synced-Widened, Synced-status, Synced-runner, fail-Synced}

module _ {id : Text} {source : SourceReader} where
  -- What a batch has added to the accounts is enough to move the watermark to its last record.
  commit-Synced :
      (b : BackfillRunner) (w : World) (r : Round) (limit : Option ℕ) (last : SourceRecord)
      (n good bad : ℕ)
      → Synced id source b w
      → get_last? (fetch_backfill_batch w.reader b.last_processed_id limit) ≡ some last
      → ((x : ℕ)
          → Mem x (ids (fetch_backfill_batch w.reader b.last_processed_id limit))
          → Holds w x)
      → Synced id source (commit b w r last.id n good bad).0 (commit b w r last.id n good bad).1
  unfolding commit
  commit-Synced b w r limit last n good bad s e h = elim (Bool-cases r.commits) [
    | inl k ↦
        rw (k, commit)
          (record {
            key = s.key;
            reader = s.reader;
            row = committed (commit_data (counted b r good bad) last.id n good bad) r.now s.row;
            found =
                commit_checkpoint_same b.pipeline_id
                  (commit_data (counted b r good bad) last.id n good bad) r.now w.checkpoints s.row
                  s.found;
            agrees = refl;
            accounted = λ z m p le. elim (Bool-cases (ltb s.row.last_processed_id z.id)) [
              | inl above ↦ h z.id (
                  fetch_backfill_batch_complete w.reader b.last_processed_id limit z last m
                    (subst (λ k. k < z.id) s.agrees (ltb→lt _ _ above)) e le)
              | inr below ↦ s.accounted z m p (ground arith)
            ];
          })
    | inr k ↦
        rw (k, commit)
          (fail-Synced (counted b r good bad) w r
            (Synced-runner b (counted b r good bad) w refl refl s))
  ]

  settle-Synced :
      (b : BackfillRunner) (w w' : World) (r : Round) (rs : List SourceRecord) (limit : Option ℕ)
      (last : SourceRecord) (es rmq : BatchResult)
      → Synced id source b w'
      → rs ≡ fetch_backfill_batch w'.reader b.last_processed_id limit
      → get_last? rs ≡ some last
      → Dispatched w w' rs es rmq
      → Synced id source (settle b w' r rs last es rmq).0 (settle b w' r rs last es rmq).1
  unfolding settle persist_failures
  settle-Synced b w w' r rs limit last es rmq s fetched e d =
      let fs = dlq_entries rs es rmq in
      let stored = quarantine w' fs r.now in
      let bad = failed_count es rmq in
      let moved =
        commit-Synced b stored r limit last (length rs) (length rs - bad) bad
          (Synced-Widened b w' stored (quarantine-Widened w' fs r.now) s)
          (ap get_last? (sym fetched) ∙ e)
          (λ x m.
            quarantine-Holds w w' rs es rmq r.now x d
              (subst (λ l. Mem x (ids l)) (sym fetched) m)) in
      elim (Bool-cases (has_any fs)) [
        | inl h ↦ elim (Bool-cases r.persists) [
          | inl k ↦ rw (h, k, settle) moved
          | inr k ↦ rw (h, k, settle) (fail-Synced b w' r s)
        ]
        | inr h ↦
            let same = ap (λ l. quarantine w' l r.now) (no_entries fs h) in
            rw (h, settle)
              (subst
                (λ (x : World).
                  Synced id source (commit b x r last.id (length rs) (length rs - bad) bad).0
                    (commit b x r last.id (length rs) (length rs - bad) bad).1)
                same moved)
      ]

  process-Synced :
      (b : BackfillRunner) (w : World) (r : Round) (rs : List SourceRecord) (limit : Option ℕ)
      → Synced id source b w
      → rs ≡ fetch_backfill_batch w.reader b.last_processed_id limit
      → Synced id source (process b w r rs).0 (process b w r rs).1
  unfolding process complete dispatch
  process-Synced b w r rs limit s fetched = elim (Option-cases (get_last? rs)) [
    | inl e ↦ elim (Bool-cases r.completes) [
      | inl k ↦
          rw (e, k, process)
            (Synced-status (record b { status = if r.stopped_late then paused else completed }) w
              completed r.now
              (Synced-runner b (record b { status = if r.stopped_late then paused else completed })
                w refl refl s))
      | inr k ↦
          rw (e, k, process)
            (fail-Synced (record b { status = completed }) w r
              (Synced-runner b (record b { status = completed }) w refl refl s))
    ]
    | inr (last, e) ↦
        let wide =
          Synced-Widened b w (dispatch w r.sinks record_backfilled rs).0
            (dispatch-Widened w r.sinks record_backfilled rs) s in
        elim (Option-cases (dispatch w r.sinks record_backfilled rs).1) [
          | inl none_left ↦
              rw (e, none_left, process)
                (fail-Synced b (dispatch w r.sinks record_backfilled rs).0 r wide)
          | inr ((es, rmq), both_ok) ↦
              rw (e, both_ok, process)
                (settle-Synced b w (dispatch w r.sinks record_backfilled rs).0 r rs limit last es
                  rmq wide fetched e
                  (dispatch-Dispatched w r.sinks record_backfilled rs es rmq both_ok))
        ]
  ]

  pub iterate-Synced :
      (b : BackfillRunner) (w : World) (r : Round)
      → Synced id source b w
      → Synced id source (iterate b w r).0 (iterate b w r).1
  unfolding iterate
  iterate-Synced b w r s = elim (Bool-cases r.stopping) [
    | inl k ↦ rw (k, iterate) (Synced-runner b (record b { status = paused }) w refl refl s)
    | inr k ↦ elim (Bool-cases r.fetches) [
      | inl f ↦
          rw (k, f, iterate)
            (process-Synced b w r
              (fetch_backfill_batch w.reader b.last_processed_id (some b.batch_size))
              (some b.batch_size) s refl)
      | inr f ↦ rw (k, f, iterate) (fail-Synced b w r s)
    ]
  ]

  pub loop-Synced :
      (b : BackfillRunner) (w : World) (rounds : List Round)
      → Synced id source b w
      → Synced id source (loop b w rounds).0 (loop b w rounds).1
  unfolding loop
  loop-Synced b w [] s = s
  loop-Synced b w (r ∷ rs) s =
      let next = iterate-Synced b w r s in
      elim (Bool-cases (iterate b w r).2) [
        | inl k ↦ rw (k, loop) (loop-Synced (iterate b w r).0 (iterate b w r).1 rs next)
        | inr k ↦ rw (k, loop) next
      ]
