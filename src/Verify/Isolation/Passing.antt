-- ===== src/Verify/Isolation/Passing.antt =====
-- scripts/verify/gate4.js over a batch that the pipeline took: the sinks of apps/pipeline/src/sinks, and
-- the dead letter queue of apps/pipeline/src/dlq with the entries of apps/pipeline/src/runners.
use mathlib.Core.List.{Mem, mem-append_right}
use mathlib.Core.List.Perm
use optio_test.Prelude.{
  ltb, le→leb, ◌-◌, ℕ, zero, suc, ◌+◌, ◌≡◌, refl, sym, ap, subst, ◌∙◌, inl, inr, Bool, true, false,
  ◌&&◌, Option, none, some, List, [], ◌∷◌, ◌++◌, map, length, arith, leb, ◌==◌, ==_iff, Bool-cases,
  Member, Member-append_left, Member-append_right,
}
use optio_test.Prelude.Order.{select, select-append}
use optio_test.Prelude.Text.{Text}
use optio_test.Prelude.Int.{pos, sub_ℕ}
use optio_test.Types.{
  Json, SourceRecord, ReplicationEventType, SinkTarget, FailureEntry, BatchResult, DlqEntry,
}
use optio_test.Batches.{ids, failed_ids, IsPartition}
use optio_test.Dlq.{NewDlqEntry, DlqTable, stored_from, persist_failures}
use optio_test.Dlq.Laws.{rows-persist_failures}
use optio_test.Elastic.{Client, bulk_upsert}
use optio_test.Elastic.Response.{bulk_upsert-IsPartition}
use optio_test.Elastic.Described.{bulk_upsert-described}
use optio_test.Rabbit.{RabbitMqSink, Broker, Message, publish_batch}
use optio_test.Rabbit.Batch.{publish_batch-IsPartition}
use optio_test.Rabbit.Described.{publish_batch-described}
use optio_test.Runner.{dlq_entry, dlq_entries, failed_count, has_any}
use optio_test.Source.Backfill.{Mem-Member}
use optio_test.Verify.Sinks.{evaluate_gate4_partial_failure}
use optio_test.Verify.Isolation.{
  has_id, get_dlq_entries_for_records, emptied, unique_dlq_records, all_context, replied, Poll,
  Answers, last_entries, reconcile, observe, inject, failed_run, run_gate4, Gate4Run,
}
use optio_test.Verify.Isolation.Contexts.{all_fields, left, split-left, unique-left, left-context}

among : (xs : List ℕ) (x : ℕ) → Member x xs → has_id xs (some x) ≡ true
among [] x m = elim m [ ]
among (y ∷ ys) x (inl e) = ground (arith, ==_iff y x)
among (y ∷ ys) x (inr m) = ground (arith, among ys x m)

abbrev is_asked : List ℕ → DlqEntry → Bool
is_asked corrupted e = has_id corrupted e.record_id

select-stored :
    (target : SinkTarget) (rs : List SourceRecord) (corrupted : List ℕ) (fs : List FailureEntry)
    (id now : ℕ)
    → ((x : ℕ) → Member x (failed_ids fs) → Member x corrupted)
    → let rows = stored_from (map (dlq_entry target rs) fs) id now in
      select (is_asked corrupted) rows ≡ rows
unfolding select stored_from dlq_entry
select-stored target rs corrupted [] id now h = refl
select-stored target rs corrupted (f ∷ fs) id now h =
    rw
      (
        among corrupted f.record_id (h f.record_id (inl refl)),
        select-stored target rs corrupted fs (suc id) now (λ x m. h x (inr m)),
      )
      refl

split_written : (n initial : ℕ) → sub_ℕ (initial + n) initial ≡ pos n
split_written n initial =
    let below : leb initial (initial + n) ≡ true = le→leb initial (initial + n) (omega arith) in
    let rest : initial + n - initial ≡ n = omega arith in rw (sub_ℕ, below, rest) refl

not_zero : (n : ℕ) → (suc n == 0) ≡ false
not_zero n = ground arith

positive : (n : ℕ) → ltb 0 (suc n) ≡ true
positive n = ground arith

reconcile_lem :
    (parse : Text → Option Json) (initial n : ℕ) (quiesced : Bool) (rows : List DlqEntry)
    → all_context parse rows ≡ true
    → (reconcile parse initial 3 quiesced (initial + n) rows).result.passed
      ≡ ((n == 497) && (unique_dlq_records rows == 3))
unfolding reconcile evaluate_gate4_partial_failure failed_run
reconcile_lem parse initial zero quiesced rows e = rw (split_written 0 initial) refl
reconcile_lem parse initial (suc n) quiesced rows e =
    elim (Bool-cases (unique_dlq_records rows == 3)) [
      | inl u ↦ rw (split_written (suc n) initial, u, e, not_zero n, positive n) refl
      | inr u ↦ rw (split_written (suc n) initial, u, not_zero n, positive n) refl
    ]

last_entries_lem :
    (fs : List NewDlqEntry) (id now : ℕ) (seen : List DlqEntry)
    → has_any fs ≡ true
    → last_entries (some (stored_from fs id now)) seen ≡ stored_from fs id now
unfolding stored_from
last_entries_lem [] id now seen e = cc
last_entries_lem (f ∷ fs) id now seen e = refl

-- The queue after a batch, which found it emptied.
abbrev quarantine : DlqTable → List SourceRecord → BatchResult → BatchResult → ℕ → DlqTable
quarantine table rs es rmq now = (persist_failures (emptied table) (dlq_entries rs es rmq) now).0

-- What the gate is answered when the pipeline took the batch and nothing else.
abbrev pub answers :
    DlqTable
    → List SourceRecord
    → BatchResult
    → BatchResult
    → ℕ
    → Bool
    → ℕ
    → List ℕ
    → List ℕ
    → List Poll
    → Answers
answers table rs es rmq now quiesced initial inserted corrupted polls = record {
  quiesced = replied quiesced;
  initial_count = replied (some initial);
  seeded = replied (inserted, corrupted);
  polls = polls;
  final_count = some (initial + length es.successful_ids);
  final_entries = some (get_dlq_entries_for_records (quarantine table rs es rmq now) corrupted);
}

module _ (parse : Text → Option Json) (table : DlqTable) (rs : List SourceRecord)
    (es rmq : BatchResult) (now : ℕ) (corrupted : List ℕ)
    (inside : (x : ℕ)
      → Member x (failed_ids es.failures ++ failed_ids rmq.failures)
      → Member x corrupted) where
  -- The query for the corrupted ids finds every row that the batch left.
  quarantine-rows :
      get_dlq_entries_for_records (quarantine table rs es rmq now) corrupted
      ≡ left rs es rmq table.next_id now
  unfolding get_dlq_entries_for_records
  quarantine-rows =
      ap (select (is_asked corrupted))
        (rows-persist_failures (emptied table) (dlq_entries rs es rmq) now)
      ∙ subst (λ q. select (is_asked corrupted) q ≡ q)
          (sym (split-left rs es rmq table.next_id now))
          (select-append (is_asked corrupted)
              (stored_from (map (dlq_entry SinkTarget.elasticsearch rs) es.failures) table.next_id
                now)
              (stored_from (map (dlq_entry SinkTarget.rabbitmq rs) rmq.failures)
                (table.next_id + length (map (dlq_entry SinkTarget.elasticsearch rs) es.failures))
                now)
            ∙ rw
                (
                  select-stored SinkTarget.elasticsearch rs corrupted es.failures table.next_id now
                      (λ x m. inside x (Member-append_left x _ _ m)),
                  select-stored SinkTarget.rabbitmq rs corrupted rmq.failures
                      (table.next_id
                        + length (map (dlq_entry SinkTarget.elasticsearch rs) es.failures))
                      now (λ x m. inside x (Member-append_right x _ _ m)),
                )
                refl)

  answered :
      (quiesced : Bool) (initial : ℕ) (inserted : List ℕ) (polls : List Poll)
      → length inserted ≡ 500
      → length corrupted ≡ 3
      → has_any (dlq_entries rs es rmq) ≡ true
      → run_gate4 parse none none
          (answers table rs es rmq now quiesced initial inserted corrupted polls)
        ≡ reconcile parse initial 3 quiesced
            (initial + length es.successful_ids)
            (left rs es rmq table.next_id now)
  unfolding run_gate4 inject observe
  answered quiesced initial inserted polls all_seeded poisoned some_failed =
      rw
        (
          all_seeded,
          poisoned,
          quarantine-rows,
          last_entries_lem (dlq_entries rs es rmq) table.next_id now _ some_failed,
        )
        refl

inside_es :
    (rs : List SourceRecord) (res : BatchResult)
    → IsPartition rs res
    → (x : ℕ) → Member x (failed_ids res.failures)
    → Mem x (ids rs)
inside_es rs res p x m =
    ((Perm.mem_iff p.split).0 (mem-append_right res.successful_ids (Mem-Member x _ m)))

-- The fourth gate, over a batch of 500 rows of which three are corrupted, where the pipeline took the
-- batch and nothing else: both sinks answered, only corrupted records failed and at least one did,
-- the index grew by the records that the bulk upsert reports as written, the failures were put in the
-- queue, and every payload is an object with a property. Whatever the polls saw, the gate passes
-- exactly if the bulk upsert reports 497 records as written and the runner counts 3 as failed.
pub run_gate4_lem :
    (parse : Text → Option Json) (client : Client) (index : Text) (sink : RabbitMqSink)
    (broker : Broker) (t : ReplicationEventType) (rs : List SourceRecord) {es rmq : BatchResult}
    {msgs : List Message} (table : DlqTable) (now : ℕ) (quiesced : Bool) (initial : ℕ)
    (inserted corrupted : List ℕ) (polls : List Poll)
    → bulk_upsert client index rs ≡ some es
    → publish_batch sink broker rs t ≡ some (rmq, msgs)
    → all_fields rs ≡ true
    → length inserted ≡ 500
    → length corrupted ≡ 3
    → ((x : ℕ) → Member x (failed_ids es.failures ++ failed_ids rmq.failures) → Member x corrupted)
    → has_any (dlq_entries rs es rmq) ≡ true
    → (run_gate4 parse none none
        (answers table rs es rmq now quiesced initial inserted corrupted polls)).result.passed
      ≡ ((length es.successful_ids == 497) && (failed_count es rmq == 3))
run_gate4_lem parse client index sink broker t rs {es} {rmq} table now quiesced initial inserted
      corrupted polls written published fields seeded poisoned inside some_failed =
    let id = table.next_id in
    let said =
      left-context rs es rmq id now parse fields
        (inside_es rs es (bulk_upsert-IsPartition client index rs written))
        (inside_es rs rmq (publish_batch-IsPartition sink broker rs t published))
        (bulk_upsert-described client index rs written)
        (publish_batch-described sink broker rs t published) in
    ap (λ (r : Gate4Run). r.result.passed)
      (answered parse table rs es rmq now corrupted inside quiesced initial inserted polls seeded
        poisoned some_failed)
    ∙ (reconcile_lem parse initial (length es.successful_ids) quiesced (left rs es rmq id now) said
        ∙ ap (λ u. (length es.successful_ids == 497) && (u == 3)) (unique-left rs es rmq id now))
