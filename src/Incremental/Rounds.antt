-- ===== src/Incremental/Rounds.antt =====
-- A round of the polling loop keeps the invariant, whatever fails in it.
use mathlib.Core.List.{Mem}
use optio_test.Source.Incremental.{Aligned, fetch_incremental_batch_complete}
use optio_test.Prelude.{
  ℕ, ◌-◌, ◌≡◌, refl, sym, ap, subst, ◌∙◌, inl, inr, false, Option, some, List, [], ◌∷◌, length,
  get_last?, Bool-cases, Option-cases,
}
use optio_test.Prelude.Text.{Text}
use optio_test.Types.{SourceRecord, BatchResult, record_mutated, paused}
use optio_test.Batches.{ids}
use optio_test.Source.{SourceReader, is_newer, fetch_incremental_batch, get_incremental_lag}
use optio_test.Checkpoint.{committed}
use optio_test.Checkpoint.Laws.{commit_checkpoint_same}
use optio_test.Dlq.{persist_failures}
use optio_test.Runner.{has_any, World, dispatch, dlq_entries, failed_count}
use optio_test.Runner.Guarded.{Dispatched, dispatch-Dispatched}
use optio_test.Incremental.{
  IncrementalRunner, Round, commit, settle, process, iterate, with_lag, loop, counted, commit_data,
}
use optio_test.Runner.Accounts.{
  no_entries, Holds, dispatch-Widened, quarantine, quarantine-Widened, quarantine-Holds,
}
use optio_test.Incremental.Safety.{mark_of, Synced, Synced-Widened, Synced-runner, fail-Synced}

module _ {id : Text} {source : SourceReader} (aligned : Aligned source.table) where
  commit-Synced :
      (b : IncrementalRunner) (w : World) (r : Round) (limit : Option ℕ) (last : SourceRecord)
      (good bad : ℕ)
      → Synced id source b w
      → get_last?
          (fetch_incremental_batch w.reader b.last_processed_timestamp b.last_processed_id limit)
        ≡ some last
      → ((x : ℕ)
          → Mem x (
              ids (
                fetch_incremental_batch w.reader b.last_processed_timestamp b.last_processed_id
                  limit))
          → Holds w x)
      → Synced id source (commit b w r last good bad).0 (commit b w r last good bad).1
  unfolding commit
  commit-Synced b w r limit last good bad s e h = elim (Bool-cases r.commits) [
    | inl k ↦
        let d = commit_data (counted b good bad) last good bad in
        rw (k, commit)
          (record {
            key = s.key;
            reader = s.reader;
            row = committed d r.now s.row;
            found = commit_checkpoint_same b.pipeline_id d r.now w.checkpoints s.row s.found;
            agrees = refl;
            agrees_at = refl;
            accounted = λ z m p le.
                elim (Bool-cases (is_newer b.last_processed_timestamp b.last_processed_id z)) [
                  | inl above ↦ h z.id (
                      fetch_incremental_batch_complete w.reader
                        (subst (λ (x : SourceReader). Aligned x.table) (sym s.reader) aligned)
                        b.last_processed_timestamp b.last_processed_id limit z last m above e le)
                  | inr below ↦ s.accounted z m p (
                      subst (λ n. is_newer (mark_of s.row) n z ≡ false) (sym s.agrees)
                        (subst (λ n. is_newer n b.last_processed_id z ≡ false) (sym s.agrees_at)
                          below))
                ];
          })
    | inr k ↦
        rw (k, commit)
          (fail-Synced (counted b good bad) w r
            (Synced-runner b (counted b good bad) w refl refl refl s))
  ]

  settle-Synced :
      (b : IncrementalRunner) (w w' : World) (r : Round) (rs : List SourceRecord) (limit : Option ℕ)
      (last : SourceRecord) (es rmq : BatchResult)
      → Synced id source b w'
      → rs ≡ fetch_incremental_batch w'.reader b.last_processed_timestamp b.last_processed_id limit
      → get_last? rs ≡ some last
      → Dispatched w w' rs es rmq
      → Synced id source (settle b w' r rs last es rmq).0 (settle b w' r rs last es rmq).1
  unfolding settle persist_failures
  settle-Synced b w w' r rs limit last es rmq s fetched e d =
      let fs = dlq_entries rs es rmq in
      let stored = quarantine w' fs r.now in
      let bad = failed_count es rmq in
      let moved =
        commit-Synced b stored r limit last (length rs - bad) bad
          (Synced-Widened b w' stored (quarantine-Widened w' fs r.now) s)
          (ap get_last? (sym fetched) ∙ e)
          (λ x m.
            quarantine-Holds w w' rs es rmq r.now x d
              (subst (λ l. Mem x (ids l)) (sym fetched) m)) in
      elim (Bool-cases (has_any fs)) [
        | inl h ↦ elim (Bool-cases r.persists) [
          | inl k ↦ rw (h, k, settle) moved
          | inr k ↦ rw (h, k, settle) (fail-Synced b w' r s)
        ]
        | inr h ↦
            let same = ap (λ l. quarantine w' l r.now) (no_entries fs h) in
            rw (h, settle)
              (subst
                (λ (x : World).
                  Synced id source (commit b x r last (length rs - bad) bad).0
                    (commit b x r last (length rs - bad) bad).1)
                same moved)
      ]

  process-Synced :
      (b : IncrementalRunner) (w : World) (r : Round) (rs : List SourceRecord) (limit : Option ℕ)
      → Synced id source b w
      → rs ≡ fetch_incremental_batch w.reader b.last_processed_timestamp b.last_processed_id limit
      → Synced id source (process b w r rs).0 (process b w r rs).1
  unfolding process dispatch
  process-Synced b w r rs limit s fetched = elim (Option-cases (get_last? rs)) [
    | inl e ↦ rw (e, process) s
    | inr (last, e) ↦
        let w' = (dispatch w r.sinks record_mutated rs).0 in
        let wide = Synced-Widened b w w' (dispatch-Widened w r.sinks record_mutated rs) s in
        elim (Option-cases (dispatch w r.sinks record_mutated rs).1) [
          | inl thrown ↦ rw (e, thrown, process) wide
          | inr ((es, rmq), given) ↦
              rw (e, given, process)
                (settle-Synced b w w' r rs limit last es rmq wide fetched e
                  (dispatch-Dispatched w r.sinks record_mutated rs es rmq given))
        ]
  ]

  iterate-Synced :
      (b : IncrementalRunner) (w : World) (r : Round)
      → Synced id source b w
      → Synced id source (iterate b w r).0 (iterate b w r).1
  unfolding iterate
  iterate-Synced b w r s =
      let lag =
        get_incremental_lag w.reader b.last_processed_timestamp b.last_processed_id r.lag_at in
      let seen = Synced-runner b (with_lag b lag) w refl refl refl s in
      elim (Bool-cases r.stopping) [
        | inl k ↦
            rw (k, iterate) (Synced-runner b (record b { status = paused }) w refl refl refl s)
        | inr k ↦ elim (Bool-cases r.reads_lag) [
          | inr l ↦ rw (k, l, iterate) (fail-Synced b w r s)
          | inl l ↦ elim (Bool-cases r.fetches) [
            | inl f ↦
                rw (k, l, f, iterate)
                  (process-Synced (with_lag b lag) w r _ (some b.batch_size) seen refl)
            | inr f ↦ rw (k, l, f, iterate) (fail-Synced (with_lag b lag) w r seen)
          ]
        ]
      ]

  pub loop-Synced :
      (b : IncrementalRunner) (w : World) (rounds : List Round)
      → Synced id source b w
      → Synced id source (loop b w rounds).0 (loop b w rounds).1
  unfolding loop
  loop-Synced b w [] s = s
  loop-Synced b w (r ∷ rs) s =
      let next = iterate-Synced b w r s in
      elim (Bool-cases (iterate b w r).2) [
        | inl k ↦ rw (k, loop) (loop-Synced (iterate b w r).0 (iterate b w r).1 rs next)
        | inr k ↦ rw (k, loop) next
      ]
