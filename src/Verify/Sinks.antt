-- ===== src/Verify/Sinks.antt =====
-- scripts/verify/common.js: the verdicts of the gates on an outage of a sink and on a partial failure.
-- `print` stands for a number in a template, `print_seconds` for one given in tenths.
use optio_test.Prelude.{
  ℕ, suc, Bool, true, false, ◌&&◌, ◌||◌, not, List, [], ◌∷◌, ◌++◌, ltb, ◌==◌, if◌then◌else◌,
}
use optio_test.Prelude.Text.{Text, codes}
use optio_test.Prelude.Decimal.{show}
use optio_test.Prelude.Int.{ℤ, pos, negsuc}
use optio_test.Verify.{format_gate_result, verdict, join, reason_unless}

abbrev pub is_zero : ℤ → Bool
is_zero (pos n) = n == 0
is_zero (negsuc n) = false

abbrev pub is_natural : ℤ → Bool
is_natural (pos n) = true
is_natural (negsuc n) = false

pub record Gate3Result : Type 0 where
  pub passed : Bool
  pub downtime_sec : ℕ
  pub lost_records : ℤ
  pub recovery_time : ℤ
  pub anti_busy_loop_verified : Bool
  pub formatted_time : Text
  pub details : Text
  pub output : Text

pub gate3_reasons : (ℤ → Text) → ℕ → ℤ → ℤ → Bool → List Text
gate3_reasons print downtime_sec lost_records recovery_time anti_busy_loop_verified =
    reason_unless (ltb 0 downtime_sec)
      (codes "zero downtime simulated (" ++ (show downtime_sec ++ codes "s)"))
    ++ (reason_unless (is_zero lost_records)
          (print lost_records ++ codes " records lost during outage")
        ++ (reason_unless (is_natural recovery_time) (codes "recovery timed out or failed")
            ++ reason_unless anti_busy_loop_verified
                (codes "circuit breaker never opened (no throttling observed)")))

-- The time to recovery is a number, in tenths of a second, that `print_seconds` prints.
unfoldable pub evaluate_gate3_outage : (ℤ → Text) → (ℤ → Text) → ℕ → ℤ → ℤ → Bool → Gate3Result
unfolding gate3_reasons
evaluate_gate3_outage print print_seconds downtime_sec lost_records recovery_time
      anti_busy_loop_verified =
    let passed =
      ltb 0 downtime_sec
      && (is_zero lost_records && (is_natural recovery_time && anti_busy_loop_verified)) in
    let details =
      if passed
      then show downtime_sec
        ++ (codes "s down, "
            ++ (print lost_records
                ++ (codes " lost, recovered in " ++ (print_seconds recovery_time ++ codes "s"))))
      else join
          (gate3_reasons print downtime_sec lost_records recovery_time anti_busy_loop_verified) in
    record {
      passed = passed;
      downtime_sec = downtime_sec;
      lost_records = lost_records;
      recovery_time = recovery_time;
      anti_busy_loop_verified = anti_busy_loop_verified;
      formatted_time = show downtime_sec ++ codes "s";
      details = details;
      output = format_gate_result (codes "G3 sink outage") (verdict passed) details;
    }

-- The count of the index can fall below the first one that a run read.
abbrev pub show_int : ℤ → Text
show_int (pos n) = show n
show_int (negsuc n) = codes "-" ++ show (suc n)

-- `z === n`
abbrev pub equals : ℤ → ℕ → Bool
equals (pos m) n = m == n
equals (negsuc m) n = false

abbrev is_positive : ℤ → Bool
is_positive (pos n) = ltb 0 n
is_positive (negsuc n) = false

pub record Gate4Result : Type 0 where
  pub passed : Bool
  pub written_count : ℤ
  pub dlq_count : ℕ
  pub batch_rolled_back : Bool
  pub context_sufficient : Bool
  pub details : Text
  pub output : Text

pub gate4_reasons : ℤ → ℕ → Bool → Bool → List Text
gate4_reasons written_count dlq_count batch_rolled_back context_sufficient =
    (if batch_rolled_back || is_zero written_count
      then (codes "batch was rolled back (" ++ (show_int written_count ++ codes " written)")) ∷ []
      else reason_unless (equals written_count 497)
          (show_int written_count ++ codes " written (expected 497)"))
    ++ (reason_unless (dlq_count == 3) (show dlq_count ++ codes " in DLQ (expected 3)")
        ++ reason_unless context_sufficient (codes "insufficient DLQ retry context"))

unfoldable pub evaluate_gate4_partial_failure : ℤ → ℕ → Bool → Bool → Gate4Result
unfolding gate4_reasons
evaluate_gate4_partial_failure written_count dlq_count batch_rolled_back context_sufficient =
    let not_rolled_back = not batch_rolled_back && is_positive written_count in
    let passed =
      not_rolled_back && ((equals written_count 497) && ((dlq_count == 3) && context_sufficient)) in
    let details =
      if passed
      then show_int written_count ++ (codes " written, " ++ (show dlq_count ++ codes " in DLQ"))
      else join (gate4_reasons written_count dlq_count batch_rolled_back context_sufficient) in
    record {
      passed = passed;
      written_count = written_count;
      dlq_count = dlq_count;
      batch_rolled_back = batch_rolled_back;
      context_sufficient = context_sufficient;
      details = details;
      output = format_gate_result (codes "G4 partial batch failure") (verdict passed) details;
    }
