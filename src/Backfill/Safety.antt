-- ===== src/Backfill/Safety.antt =====
-- The invariant of the backfill loop, and what leaves it as it is.
use mathlib.Core.Option.{some-injective}
use optio_test.Prelude.{
  ℕ, ◌<◌, ◌≤◌, Member, ◌≡◌, refl, sym, ap, subst, ◌∙◌, inl, inr, some, Bool-cases,
}
use optio_test.Prelude.Text.{Text}
use optio_test.Types.{PipelineStatus, ReplicationCheckpoint, failed}
use optio_test.Source.{SourceRow, SourceReader}
use optio_test.Checkpoint.{select_row, with_status, update_status}
use optio_test.Checkpoint.Laws.{update_status_lem}
use optio_test.Runner.{World}
use optio_test.Backfill.{BackfillRunner, Round, fail}
use optio_test.Runner.Accounts.{Widened, Holds}

-- Every row with an id from 1 to `mark` is accounted for, at both sinks.
abbrev pub Accounted : World → ℕ → Type 0
Accounted w mark = (z : SourceRow) → Member z w.reader.table → 0 < z.id → z.id ≤ mark → Holds w z.id

pub Accounted-Widened :
    (w w' : World) (mark : ℕ) → Widened w w' → Accounted w mark → Accounted w' mark
Accounted-Widened w w' mark g a z m p le =
    g.more z.id (a z (subst (λ s. Member z s.table) g.reader m) p le)

-- What the database holds is safe: a committed watermark covers accounted rows only.
pub record Durable (pipeline_id : Text) (source : SourceReader) (w : World) : Type 0 where
  pub reader : w.reader ≡ source
  pub safe :
      (c : ReplicationCheckpoint)
      → select_row pipeline_id w.checkpoints ≡ some c
      → Accounted w c.last_processed_id

-- A running loop has its pipeline's row, at its own watermark.
pub record Synced (pipeline_id : Text) (source : SourceReader) (b : BackfillRunner) (w : World)
    : Type 0 where
  pub key : b.pipeline_id ≡ pipeline_id
  pub reader : w.reader ≡ source
  pub row : ReplicationCheckpoint
  pub found : select_row b.pipeline_id w.checkpoints ≡ some row
  pub agrees : row.last_processed_id ≡ b.last_processed_id
  pub accounted : Accounted w row.last_processed_id

module _ {id : Text} {source : SourceReader} where
  pub Synced-Durable : (b : BackfillRunner) (w : World) → Synced id source b w → Durable id source w
  Synced-Durable b w s = record {
    reader = s.reader;
    safe = λ c e.
        let same = sym s.found ∙ (ap (λ k. select_row k w.checkpoints) s.key ∙ e) in
        subst (Accounted w) (ap (λ x. x.last_processed_id) (some-injective _ _ same)) s.accounted;
  }

  pub Synced-Widened :
      (b : BackfillRunner) (w w' : World)
      → Widened w w'
      → Synced id source b w
      → Synced id source b w'
  Synced-Widened b w w' g s = record {
    key = s.key;
    reader = g.reader ∙ s.reader;
    row = s.row;
    found = ap (select_row b.pipeline_id) g.marks ∙ s.found;
    agrees = s.agrees;
    accounted = Accounted-Widened w w' s.row.last_processed_id g s.accounted;
  }

  -- A status leaves the watermark where it is.
  pub Synced-status :
      (b : BackfillRunner) (w : World) (status : PipelineStatus) (now : ℕ)
      → Synced id source b w
      → Synced id source b
          (record w { checkpoints = update_status b.pipeline_id status now w.checkpoints })
  Synced-status b w status now s = record {
    key = s.key;
    reader = s.reader;
    row = with_status status now s.row;
    found = update_status_lem b.pipeline_id status now w.checkpoints s.row s.found;
    agrees = s.agrees;
    accounted = s.accounted;
  }

  -- The other fields of the runner do not matter.
  pub Synced-runner :
      (b b' : BackfillRunner) (w : World)
      → b'.pipeline_id ≡ b.pipeline_id
      → b'.last_processed_id ≡ b.last_processed_id
      → Synced id source b w
      → Synced id source b' w
  Synced-runner b b' w p l s = record {
    key = p ∙ s.key;
    reader = s.reader;
    row = s.row;
    found = ap (λ k. select_row k w.checkpoints) p ∙ s.found;
    agrees = s.agrees ∙ sym l;
    accounted = s.accounted;
  }

  pub fail-Synced :
      (b : BackfillRunner) (w : World) (r : Round)
      → Synced id source b w
      → Synced id source (fail b w r).0 (fail b w r).1
  unfolding fail
  fail-Synced b w r s = elim (Bool-cases r.saves_failure) [
    | inl e ↦
        rw (e, fail)
          (Synced-status (record b { status = failed }) w failed r.now
            (Synced-runner b (record b { status = failed }) w refl refl s))
    | inr e ↦ rw (e, fail) (Synced-runner b (record b { status = failed }) w refl refl s)
  ]
