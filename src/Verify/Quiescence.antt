-- ===== src/Verify/Quiescence.antt =====
-- scripts/verify/common.js, waitForPipelineQuiescence: the wait for a pipeline at rest. A list of looks
-- that ends before the wait stands for one that still waits. The progress that is shown is left out.
mod Examples
use optio_test.Prelude.{
  ℕ, ◌+◌, ◌-◌, ◌/◌, min, ◌≡◌, refl, inl, inr, Bool, true, false, ◌&&◌, ◌||◌, not, Option, none,
  some, List, [], ◌∷◌, ◌++◌, leb, ◌==◌, if◌then◌else◌, or_default, Bool-cases, Option-cases, subst,
}
use optio_test.Prelude.Text.{Text, codes, text_eq}
use optio_test.Prelude.Decimal.{show}
use optio_test.Prelude.Int.{ℤ, sub_ℕ}

-- The two fields of a telemetry that are read; `none` for a status that is missing, and for a lag
-- that is no number.
pub record Rest : Type 0 where
  pub backfill_status : Option Text
  pub incremental_lag_records : Option ℕ

pub record QuiescenceOptions : Type 0 where
  pub timeout_ms : Option ℕ
  pub unreachable_grace_ms : Option ℕ
  pub require_backfill_complete : Bool

-- One round: the telemetry, `none` where the request threw, and the clock where the round reads it.
pub record Look : Type 0 where
  pub telemetry : Option Rest
  pub missed_at : ℕ
  pub compared_at : ℕ
  pub ended_at : ℕ
  pub elapsed_at : ℕ

pub record Quiescence : Type 0 where
  pub quiesced : Bool
  pub telemetry : Option Rest
  pub elapsed_ms : ℤ
  pub reason : Option Text

abbrev pub timeout : QuiescenceOptions → ℕ
timeout o = or_default o.timeout_ms 60000

abbrev grace : QuiescenceOptions → ℕ
grace o = min (timeout o) (or_default o.unreachable_grace_ms 15000)

is_completed : Option Text → Bool
is_completed none = false
is_completed (some s) = text_eq s (codes "COMPLETED")

is_drained : Option ℕ → Bool
is_drained none = true
is_drained (some n) = n == 0

unfoldable pub is_quiescent : QuiescenceOptions → Rest → Bool
unfolding is_completed is_drained
is_quiescent o t =
    (not o.require_backfill_complete || is_completed t.backfill_status)
    && is_drained t.incremental_lag_records

abbrev unreachable : Text
unreachable = codes "telemetry unreachable"

shown_lag : Option ℕ → Text
shown_lag none = codes "n/a"
shown_lag (some n) = show n

-- `Math.round(elapsed / 1000)` is the quotient with half of the divisor added.
timeout_reason : Option Rest → ℕ → Text
unfolding shown_lag
timeout_reason none elapsed = unreachable
timeout_reason (some t) elapsed =
    codes "backfill_status="
    ++ (or_default t.backfill_status (codes "n/a")
        ++ (codes ", incremental_lag_records="
            ++ (shown_lag t.incremental_lag_records
                ++ (codes " after " ++ (show ((elapsed + 500) / 1000) ++ codes "s")))))

abbrev pub rests : QuiescenceOptions → Option Rest → Bool
unfolding is_quiescent
rests o none = false
rests o (some t) = is_quiescent o t

-- `unreachableSince` after a round.
abbrev since_after : Option ℕ → ℕ → Option Rest → Option ℕ
since_after since now none = some (or_default since now)
since_after since now (some t) = none

abbrev has_given_up : ℕ → ℕ → Option ℕ → Bool
has_given_up grace now none = false
has_given_up grace now (some s) = leb (s + grace) now

-- The result of a round, if it is the last, with the time since when nothing was reached.
unfoldable pub look_once : QuiescenceOptions → ℕ → Option ℕ → Look → Option Quiescence × Option ℕ
unfolding is_quiescent timeout_reason
look_once o start since l =
    let since' = since_after since l.missed_at l.telemetry in
    let at_rest = rests o l.telemetry in
    let given_up = has_given_up (grace o) l.compared_at since' in
    let result =
      if at_rest
      then some (record {
        quiesced = true;
        telemetry = l.telemetry;
        elapsed_ms = sub_ℕ l.ended_at start;
        reason = none;
      })
      else if given_up
      then some (record {
        quiesced = false;
        telemetry = none;
        elapsed_ms = sub_ℕ l.ended_at start;
        reason = some unreachable;
      })
      else if leb (start + timeout o) l.elapsed_at
      then some (record {
        quiesced = false;
        telemetry = l.telemetry;
        elapsed_ms = sub_ℕ l.elapsed_at start;
        reason = some (timeout_reason l.telemetry (l.elapsed_at - start));
      })
      else none in
    (result, since')

unfoldable pub wait_for_pipeline_quiescence :
    QuiescenceOptions → ℕ → Option ℕ → List Look → Option Quiescence
unfolding look_once
wait_for_pipeline_quiescence o start since [] = none
wait_for_pipeline_quiescence o start since (l ∷ ls) =
    let (result, since') = look_once o start since l in
    let rest = wait_for_pipeline_quiescence o start since' ls in
    elim result [ none ↦ rest | some r ↦ some r ]

-- Some round reads the clock when the time allowed is over.
unfoldable pub is_over : QuiescenceOptions → ℕ → List Look → Bool
is_over o start [] = false
is_over o start (l ∷ ls) = leb (start + timeout o) l.elapsed_at || is_over o start ls

abbrev has_reason : Option Text → Bool
has_reason none = false
has_reason (some why) = true

-- A result says that the pipeline is at rest exactly if its telemetry does, and gives a reason
-- exactly if it does not.
pub record Tells (o : QuiescenceOptions) (r : Quiescence) : Type 0 where
  pub at_rest : r.quiesced ≡ rests o r.telemetry
  pub explained : has_reason r.reason ≡ not r.quiesced

-- What a round can leave.
abbrev Ended : QuiescenceOptions → ℕ → Look → Option Quiescence → Type 0
Ended o start l none = leb (start + timeout o) l.elapsed_at ≡ false
Ended o start l (some r) = Tells o r

look_once-Ended :
    (o : QuiescenceOptions) (start : ℕ) (since : Option ℕ) (l : Look)
    → Ended o start l (look_once o start since l).0
unfolding look_once
look_once-Ended o start since l = elim (Bool-cases (rests o l.telemetry)) [
  | inl q ↦ rw (q, look_once) (record { at_rest = rw q refl; explained = refl })
  | inr q ↦
      elim (Bool-cases
        (has_given_up (grace o) l.compared_at (since_after since l.missed_at l.telemetry))) [
          | inl g ↦ rw (q, g, look_once) (record { at_rest = refl; explained = refl })
          | inr g ↦ elim (Bool-cases (leb (start + timeout o) l.elapsed_at)) [
            | inl t ↦ rw (q, g, t, look_once) (record { at_rest = rw q refl; explained = refl })
            | inr t ↦ rw (q, g, t, look_once) t
          ]
        ]
]

never : ¬ (false ≡ true)
never e = cc

-- Where some round reads the clock once the time allowed is over, the wait ends, whatever the rounds
-- before it met; its result says that the pipeline is at rest exactly if the last telemetry does,
-- and gives a reason exactly if it does not.
pub wait_for_pipeline_quiescence_lem :
    (o : QuiescenceOptions) (start : ℕ) (since : Option ℕ) (ls : List Look)
    → is_over o start ls ≡ true
    → (r : Quiescence) × (wait_for_pipeline_quiescence o start since ls ≡ some r) × Tells o r
unfolding is_over wait_for_pipeline_quiescence
wait_for_pipeline_quiescence_lem o start since [] h = absurd (never h)
wait_for_pipeline_quiescence_lem o start since (l ∷ ls) h =
    let ended = look_once-Ended o start since l in
    let since' = (look_once o start since l).1 in
    elim (Option-cases (look_once o start since l).0) [
      | inr (r, e) ↦ (r, rw (wait_for_pipeline_quiescence, e) refl, subst (Ended o start l) e ended)
      | inl e ↦
          let early : leb (start + timeout o) l.elapsed_at ≡ false =
            subst (Ended o start l) e ended in
          let later : is_over o start ls ≡ true = rw (early, is_over) at h in
          let (r, eq, tells) = wait_for_pipeline_quiescence_lem o start since' ls later in
          (r, rw (wait_for_pipeline_quiescence, e) eq, tells)
    ]
