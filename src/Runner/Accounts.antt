-- ===== src/Runner/Accounts.antt =====
-- What the sinks and the dead letter queue hold of the rows, as a dispatch and an insert into the
-- queue change it.
use mathlib.Core.List.{Mem, Mem-prop, mem-append, mem-append_left, mem-append_right}
use mathlib.Core.List.Perm
use mathlib.Core.Logic.Or
use mathlib.Core.Path.{ap₂}
use optio_test.Prelude.{false, [], ◌∷◌, ℕ, ◌≡◌, refl, sym, ap, subst, ◌∙◌, List, ◌++◌}
use optio_test.Types.{SourceRecord, ReplicationEventType, elasticsearch, rabbitmq, BatchResult}
use optio_test.Batches.{ids}
use optio_test.Dlq.{NewDlqEntry, persist_failures, stored_from}
use optio_test.Dlq.Laws.{quarantined, quarantined-append, rows-persist_failures}
use optio_test.Runner.{has_any, World, Sinks, dispatch, dlq_entries}
use optio_test.Runner.Guarded.{Dispatched, quarantined-es, quarantined-rmq, Mem-new}

-- What a sink reported for good, and what the queue holds for it.
abbrev pub es_accounted : World → List ℕ
es_accounted w = w.es_written ++ quarantined elasticsearch w.dlq.rows

abbrev pub rmq_accounted : World → List ℕ
rmq_accounted w = w.rmq_confirmed ++ quarantined rabbitmq w.dlq.rows

abbrev pub Holds : World → ℕ → Type 0
Holds w id = Mem id (es_accounted w) × Mem id (rmq_accounted w)

-- The same tables, and at least as much accounted for.
pub record Widened (w w' : World) : Type 0 where
  pub reader : w'.reader ≡ w.reader
  pub marks : w'.checkpoints ≡ w.checkpoints
  pub more : (id : ℕ) → Holds w id → Holds w' id

Mem-wider : (x : ℕ) (a b c : List ℕ) → Mem x (a ++ c) → Mem x ((a ++ b) ++ c)
Mem-wider x a b c m =
    Or.elim Mem-prop (mem-append.0 m) (λ l. mem-append_left c (mem-append_left b l))
      (λ r. mem-append_right (a ++ b) r)

pub dispatch-Widened :
    (w : World) (s : Sinks) (t : ReplicationEventType) (rs : List SourceRecord)
    → Widened w (dispatch w s t rs).0
unfolding dispatch
dispatch-Widened w s t rs = record {
  reader = refl;
  marks = refl;
  more = λ id h. (Mem-wider id w.es_written _ _ h.0, Mem-wider id w.rmq_confirmed _ _ h.1);
}

abbrev pub quarantine : World → List NewDlqEntry → ℕ → World
quarantine w fs now = record w { dlq = (persist_failures w.dlq fs now).0 }

Mem-later : (x : ℕ) (a c d : List ℕ) → Mem x (a ++ c) → Mem x (a ++ (c ++ d))
Mem-later x a c d m =
    Or.elim Mem-prop (mem-append.0 m) (λ l. mem-append_left (c ++ d) l)
      (λ r. mem-append_right a (mem-append_left d r))

module _ (w : World) (fs : List NewDlqEntry) (now : ℕ) where
  es_rows :
      quarantined elasticsearch (quarantine w fs now).dlq.rows
      ≡ quarantined elasticsearch w.dlq.rows
        ++ quarantined elasticsearch (stored_from fs w.dlq.next_id now)
  es_rows =
      ap (quarantined elasticsearch) (rows-persist_failures w.dlq fs now)
      ∙ quarantined-append elasticsearch w.dlq.rows _

  rmq_rows :
      quarantined rabbitmq (quarantine w fs now).dlq.rows
      ≡ quarantined rabbitmq w.dlq.rows ++ quarantined rabbitmq (stored_from fs w.dlq.next_id now)
  rmq_rows =
      ap (quarantined rabbitmq) (rows-persist_failures w.dlq fs now)
      ∙ quarantined-append rabbitmq w.dlq.rows _

  pub quarantine-Widened : Widened w (quarantine w fs now)
  quarantine-Widened = record {
    reader = refl;
    marks = refl;
    more = λ id h. (
      subst (λ q. Mem id (w.es_written ++ q)) (sym es_rows) (Mem-later id w.es_written _ _ h.0),
      subst (λ q. Mem id (w.rmq_confirmed ++ q)) (sym rmq_rows)
          (Mem-later id w.rmq_confirmed _ _ h.1),
    );
  }

-- Every record of a batch that was dispatched is held once its failures are in the queue.
pub quarantine-Holds :
    (w w' : World) (rs : List SourceRecord) (es rmq : BatchResult) (now id : ℕ)
    → Dispatched w w' rs es rmq
    → Mem id (ids rs)
    → Holds (quarantine w' (dlq_entries rs es rmq) now) id
quarantine-Holds w w' rs es rmq now id d m =
    let fs = dlq_entries rs es rmq in
    let es_queue =
      es_rows w' fs now
      ∙ ap (◌++◌ (quarantined elasticsearch w'.dlq.rows))
          (quarantined-es rs es rmq w'.dlq.next_id now) in
    let rmq_queue =
      rmq_rows w' fs now
      ∙ ap (◌++◌ (quarantined rabbitmq w'.dlq.rows))
          (quarantined-rmq rs es rmq w'.dlq.next_id now) in
    (
      subst (Mem id) (sym (ap₂ ◌++◌ d.es_grown es_queue))
          (Mem-new id w.es_written es.successful_ids _ _ ((Perm.mem_iff d.es_partition.split).1 m)),
      subst (Mem id) (sym (ap₂ ◌++◌ d.rmq_grown rmq_queue)) (
          Mem-new id w.rmq_confirmed rmq.successful_ids _ _
            ((Perm.mem_iff d.rmq_partition.split).1 m)),
    )

-- A batch without a failure needs no entry.
pub no_entries : (fs : List NewDlqEntry) → has_any fs ≡ false → fs ≡ []
no_entries [] e = refl
no_entries (f ∷ fs) e = cc
