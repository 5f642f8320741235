-- ===== src/Replayer/Settled.antt =====
-- An entry is marked RESOLVED only for what the sinks have reported.
use mathlib.Core.List.{Mem, mem-append_left, mem-append_right, mem-cons_self}
use mathlib.Core.List.Perm
use mathlib.Core.List.{Perm}
use optio_test.Prelude.{
  ℕ, ◌≡◌, refl, sym, subst, inl, inr, Bool, true, false, ◌==◌, none, some, List, [], ◌∷◌, ◌++◌,
  arith, append-nil, Member, Bool-cases, Option-cases, if◌then◌else◌,
}
use optio_test.Prelude.Text.{Text}
use optio_test.Types.{DlqEntry, FailureEntry, BatchResult, record_mutated, resolved}
use optio_test.Batches.{failed_ids}
use optio_test.Dlq.{get_entry_by_id, marked, retried, mark_status, record_retry_failure}
use optio_test.Dlq.Keys.{
  Keyed, Member-mark_status, Member-record_retry_failure, mark_status-Keyed,
  record_retry_failure-Keyed, get_entry_by_id-Member,
}
use optio_test.Elastic.{bulk_upsert}
use optio_test.Elastic.Response.{bulk_upsert-IsPartition}
use optio_test.Rabbit.{publish_batch}
use optio_test.Rabbit.Batch.{publish_batch-IsPartition}
use optio_test.Runner.{World, first_part}
use optio_test.Runner.Guarded.{first_part_lem}
use optio_test.Replayer.Entry.{Attempt, replay_id, rebuilt, to_elasticsearch, to_rabbitmq}
use optio_test.Replayer.{first_reason, on_error, give_up, finish, publish_entry, replay}

abbrev pub InSinks : World → DlqEntry → Type 0
InSinks w e =
    (to_elasticsearch e.sink_target ≡ true → Mem (replay_id e) w.es_written)
    × (to_rabbitmq e.sink_target ≡ true → Mem (replay_id e) w.rmq_confirmed)

-- Each resolved entry's record is in what the sinks that the entry is for have reported.
pub record Settled (w : World) : Type 0 where
  pub keyed : Keyed w.dlq.rows
  pub in_sinks : (e : DlqEntry) → Member e w.dlq.rows → e.status ≡ resolved → InSinks w e

abbrev InSinksOnceResolved : World → DlqEntry → Type 0
InSinksOnceResolved w e = e.status ≡ resolved → InSinks w e

one_of_two :
    (P : DlqEntry → Type 0) (b : Bool) (e y y' : DlqEntry)
    → e ≡ (if b then y' else y)
    → (b ≡ true → P y')
    → P y
    → P e
one_of_two P true e y y' same changed kept = subst P (sym same) (changed refl)
one_of_two P false e y y' same changed kept = subst P (sym same) kept

-- What the sinks report only grows.
Settled-es :
    (w : World) (ids' : List ℕ)
    → Settled w
    → Settled (record w { es_written = w.es_written ++ ids' })
Settled-es w ids' s = record {
  keyed = s.keyed;
  in_sinks = λ e m r. (λ t. mem-append_left ids' ((s.in_sinks e m r).0 t), (s.in_sinks e m r).1);
}

Settled-rmq :
    (w : World) (ids' : List ℕ)
    → Settled w
    → Settled (record w { rmq_confirmed = w.rmq_confirmed ++ ids' })
Settled-rmq w ids' s = record {
  keyed = s.keyed;
  in_sinks = λ e m r. ((s.in_sinks e m r).0, λ t. mem-append_left ids' ((s.in_sinks e m r).1 t));
}

retried-Settled :
    (w : World) (id now : ℕ)
    → Settled w
    → Settled (record w { dlq = record_retry_failure w.dlq id now })
retried-Settled w id now s = record {
  keyed = record_retry_failure-Keyed w.dlq id now s.keyed;
  in_sinks = λ e m.
      let (y, at, same) = Member-record_retry_failure w.dlq id now e m in
      one_of_two (InSinksOnceResolved w) (y.id == id) e y (retried now y) same
        (λ k. s.in_sinks y at) (s.in_sinks y at);
}

-- The entry may be marked once the sinks that it is for have reported its record.
marked-Settled :
    (w : World) (id now : ℕ) (x : DlqEntry)
    → get_entry_by_id w.dlq id ≡ some x
    → InSinks w x
    → Settled w
    → Settled (record w { dlq = mark_status w.dlq id resolved now })
marked-Settled w id now x found has s = record {
  keyed = mark_status-Keyed w.dlq id now resolved s.keyed;
  in_sinks = λ e m.
      let (y, at, same) = Member-mark_status w.dlq id now resolved e m in
      let (x_at, x_id) = get_entry_by_id-Member w.dlq id x found in
      one_of_two (InSinksOnceResolved w) (y.id == id) e y (marked resolved now y) same
        (λ k r. subst (InSinks w) (s.keyed x y x_at at (ground arith)) has) (s.in_sinks y at);
}

-- A batch of one record without a failure has reported its id.
reported_alone :
    (id : ℕ) (res : BatchResult)
    → Perm (res.successful_ids ++ failed_ids res.failures) (id ∷ [])
    → first_reason res.failures ≡ none
    → Mem id res.successful_ids
unfolding first_reason
reported_alone id res p e =
    let empty : res.failures ≡ [] = no_reason res.failures e in
    let plain =
      subst (λ (fs : List FailureEntry). Perm (res.successful_ids ++ failed_ids fs) (id ∷ [])) empty
        p in
    subst (Mem id) (append-nil res.successful_ids) ((Perm.mem_iff plain).1 (mem-cons_self))
  where
    no_reason : (fs : List FailureEntry) → first_reason fs ≡ none → fs ≡ []
    no_reason [] h = refl
    no_reason (f ∷ fs) h = cc

module _ (a : Attempt) (id : ℕ) where
  on_error-Settled : (w : World) → Settled w → Settled (on_error w a id).0
  unfolding on_error
  on_error-Settled w s = elim (Bool-cases a.records_after_error) [
    | inl k ↦ rw (k, on_error) (retried-Settled w id a.now s)
    | inr k ↦ rw (k, on_error) s
  ]

  give_up-Settled : (w : World) (reason : Text) → Settled w → Settled (give_up w a id reason).0
  unfolding give_up
  give_up-Settled w reason s = elim (Bool-cases a.records) [
    | inl k ↦ rw (k, give_up) (retried-Settled w id a.now s)
    | inr k ↦ rw (k, give_up) (on_error-Settled w s)
  ]

  module _ (e : DlqEntry) where
    finish-Settled :
        (w : World)
        → get_entry_by_id w.dlq id ≡ some e
        → InSinks w e
        → Settled w
        → Settled (finish w a id).0
    unfolding finish
    finish-Settled w found has s = elim (Bool-cases a.marks) [
      | inl k ↦ rw (k, finish) (marked-Settled w id a.now e found has s)
      | inr k ↦ rw (k, finish) (on_error-Settled w s)
    ]

    publish_entry-Settled :
        (w : World)
        → get_entry_by_id w.dlq id ≡ some e
        → (to_elasticsearch e.sink_target ≡ true → Mem (replay_id e) w.es_written)
        → Settled w
        → Settled (publish_entry w a id e).0
    unfolding publish_entry rebuilt
    publish_entry-Settled w found written s =
        let answer = publish_batch w.rmq_sink a.rmq_broker (rebuilt a e ∷ []) record_mutated in
        elim (Bool-cases (to_rabbitmq e.sink_target)) [
          | inr k ↦ rw (k, publish_entry) (finish-Settled w found (written, λ t. cc) s)
          | inl k ↦ elim (Option-cases (first_part answer)) [
            | inl thrown ↦ rw (k, thrown, publish_entry) (on_error-Settled w s)
            | inr (res, given) ↦
                let (msgs, sent) = first_part_lem answer res given in
                let parts =
                  publish_batch-IsPartition w.rmq_sink a.rmq_broker (rebuilt a e ∷ [])
                    record_mutated sent in
                let grown = Settled-rmq w res.successful_ids s in
                elim (Option-cases (first_reason res.failures)) [
                  | inr (reason, bad) ↦
                      rw (k, given, bad, publish_entry) (give_up-Settled _ reason grown)
                  | inl good ↦
                      rw (k, given, good, publish_entry)
                        (finish-Settled _ found
                          (
                            written,
                            λ t.
                                mem-append_right w.rmq_confirmed
                                  (reported_alone (replay_id e) res parts.split good),
                          )
                          grown)
                ]
          ]
        ]

    pub replay-Settled :
        (w : World) → get_entry_by_id w.dlq id ≡ some e → Settled w → Settled (replay w a id e).0
    unfolding replay rebuilt
    replay-Settled w found s =
        let answer = bulk_upsert a.es_client w.es_index (rebuilt a e ∷ []) in
        elim (Bool-cases (to_elasticsearch e.sink_target)) [
          | inr k ↦ rw (k, replay) (publish_entry-Settled w found (λ t. cc) s)
          | inl k ↦ elim (Option-cases answer) [
            | inl thrown ↦ rw (k, thrown, replay) (on_error-Settled w s)
            | inr (res, given) ↦
                let parts =
                  bulk_upsert-IsPartition a.es_client w.es_index (rebuilt a e ∷ []) given in
                let grown = Settled-es w res.successful_ids s in
                elim (Option-cases (first_reason res.failures)) [
                  | inr (reason, bad) ↦ rw (k, given, bad, replay) (give_up-Settled _ reason grown)
                  | inl good ↦
                      rw (k, given, good, replay)
                        (publish_entry-Settled _ found
                          (λ t.
                            mem-append_right w.es_written
                              (reported_alone (replay_id e) res parts.split good))
                          grown)
                ]
          ]
        ]
