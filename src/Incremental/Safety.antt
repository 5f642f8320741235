-- ===== src/Incremental/Safety.antt =====
-- The invariant of the polling loop, and what leaves it as it is.
use mathlib.Core.Option.{some-injective}
use optio_test.Prelude.{
  true, false, or_default, ℕ, Member, ◌≡◌, refl, sym, ap, subst, ◌∙◌, inl, inr, some, Bool-cases,
}
use optio_test.Prelude.Text.{Text}
use optio_test.Types.{PipelineStatus, ReplicationCheckpoint, failed}
use optio_test.Source.{SourceRow, SourceReader, is_newer}
use optio_test.Checkpoint.{select_row, with_status, update_status}
use optio_test.Checkpoint.Laws.{update_status_lem}
use optio_test.Runner.{World}
use optio_test.Incremental.{IncrementalRunner, Round, fail}
use optio_test.Runner.Accounts.{Widened, Holds}

-- The timestamp of a committed watermark; a new one starts at the epoch.
abbrev pub mark_of : ReplicationCheckpoint → ℕ
mark_of c = or_default c.last_processed_timestamp 0

-- Every row after the epoch and not after the watermark is accounted for, at both sinks.
abbrev pub Accounted : World → ℕ → ℕ → Type 0
Accounted w at mark =
    (z : SourceRow)
    → Member z w.reader.table
    → is_newer 0 0 z ≡ true
    → is_newer at mark z ≡ false
    → Holds w z.id

pub Accounted-Widened :
    (w w' : World) (at mark : ℕ) → Widened w w' → Accounted w at mark → Accounted w' at mark
Accounted-Widened w w' at mark g a z m p le =
    g.more z.id (a z (subst (λ s. Member z s.table) g.reader m) p le)

-- What the database holds is safe: a committed watermark covers accounted rows only.
pub record Durable (pipeline_id : Text) (source : SourceReader) (w : World) : Type 0 where
  pub reader : w.reader ≡ source
  pub safe :
      (c : ReplicationCheckpoint)
      → select_row pipeline_id w.checkpoints ≡ some c
      → Accounted w (mark_of c) c.last_processed_id

-- A running loop has its pipeline's row, at its own watermark.
pub record Synced (pipeline_id : Text) (source : SourceReader) (b : IncrementalRunner) (w : World)
    : Type 0 where
  pub key : b.pipeline_id ≡ pipeline_id
  pub reader : w.reader ≡ source
  pub row : ReplicationCheckpoint
  pub found : select_row b.pipeline_id w.checkpoints ≡ some row
  pub agrees : row.last_processed_id ≡ b.last_processed_id
  pub agrees_at : mark_of row ≡ b.last_processed_timestamp
  pub accounted : Accounted w (mark_of row) row.last_processed_id

module _ {id : Text} {source : SourceReader} where
  pub Synced-Durable :
      (b : IncrementalRunner) (w : World) → Synced id source b w → Durable id source w
  Synced-Durable b w s = record {
    reader = s.reader;
    safe = λ c e.
        let same = sym s.found ∙ (ap (λ k. select_row k w.checkpoints) s.key ∙ e) in
        subst (λ x. Accounted w (mark_of x) x.last_processed_id) (some-injective _ _ same)
          s.accounted;
  }

  pub Synced-Widened :
      (b : IncrementalRunner) (w w' : World)
      → Widened w w'
      → Synced id source b w
      → Synced id source b w'
  Synced-Widened b w w' g s = record {
    key = s.key;
    reader = g.reader ∙ s.reader;
    row = s.row;
    found = ap (select_row b.pipeline_id) g.marks ∙ s.found;
    agrees = s.agrees;
    agrees_at = s.agrees_at;
    accounted = Accounted-Widened w w' (mark_of s.row) s.row.last_processed_id g s.accounted;
  }

  -- A status leaves the watermark where it is.
  pub Synced-status :
      (b : IncrementalRunner) (w : World) (status : PipelineStatus) (now : ℕ)
      → Synced id source b w
      → Synced id source b
          (record w { checkpoints = update_status b.pipeline_id status now w.checkpoints })
  Synced-status b w status now s = record {
    key = s.key;
    reader = s.reader;
    row = with_status status now s.row;
    found = update_status_lem b.pipeline_id status now w.checkpoints s.row s.found;
    agrees = s.agrees;
    agrees_at = s.agrees_at;
    accounted = s.accounted;
  }

  -- The other fields of the runner do not matter.
  pub Synced-runner :
      (b b' : IncrementalRunner) (w : World)
      → b'.pipeline_id ≡ b.pipeline_id
      → b'.last_processed_id ≡ b.last_processed_id
      → b'.last_processed_timestamp ≡ b.last_processed_timestamp
      → Synced id source b w
      → Synced id source b' w
  Synced-runner b b' w p l t s = record {
    key = p ∙ s.key;
    reader = s.reader;
    row = s.row;
    found = ap (λ k. select_row k w.checkpoints) p ∙ s.found;
    agrees = s.agrees ∙ sym l;
    agrees_at = s.agrees_at ∙ sym t;
    accounted = s.accounted;
  }

  pub fail-Synced :
      (b : IncrementalRunner) (w : World) (r : Round)
      → Synced id source b w
      → Synced id source (fail b w r).0 (fail b w r).1
  unfolding fail
  fail-Synced b w r s = elim (Bool-cases r.saves_failure) [
    | inl e ↦
        rw (e, fail)
          (Synced-status (record b { status = failed }) w failed r.now
            (Synced-runner b (record b { status = failed }) w refl refl refl s))
    | inr e ↦ rw (e, fail) (Synced-runner b (record b { status = failed }) w refl refl refl s)
  ]
