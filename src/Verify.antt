-- ===== src/Verify.antt =====
-- scripts/verify/common.js: the verdicts of the first two gates on the numbers that a run measured.
-- `locale` stands for `toLocaleString('en-US')`.
pub mod Sinks
pub mod Observability
pub mod Suite
pub mod Verdicts
pub mod Coordinated
pub mod Isolation
pub mod Quiescence
mod Examples
use optio_test.Prelude.{
  ℕ, zero, suc, ◌+◌, ◌-◌, max, Bool, true, false, ◌&&◌, ◌||◌, not, Option, none, some, List, [],
  ◌∷◌, ◌++◌, length, ltb, leb, ◌==◌, if◌then◌else◌, or_default,
}
use optio_test.Prelude.Text.{Text, codes}
use optio_test.Prelude.Decimal.{show}

repeated : ℕ → ℕ → Text
repeated zero c = []
repeated (suc n) c = c ∷ repeated n c

-- `s.padEnd(n, c)`
pad_end : ℕ → ℕ → Text → Text
unfolding repeated
pad_end n c s = s ++ repeated (n - length s) c

abbrev parenthesised : Text → Text
parenthesised [] = []
parenthesised (c ∷ s) = codes " (" ++ ((c ∷ s) ++ codes ")")

unfoldable pub format_gate_result : Text → Text → Text → Text
unfolding pad_end
format_gate_result gate status details =
    pad_end 33 46 (gate ++ codes " ") ++ (codes " " ++ (status ++ parenthesised details))

abbrev pub verdict : Bool → Text
verdict passed = if passed then codes "PASS" else codes "FAIL"

-- `reasons.join(', ')`
unfoldable pub join : List Text → Text
join [] = []
join (s ∷ []) = s
join (s ∷ t ∷ ss) = s ++ (codes ", " ++ join (t ∷ ss))

-- What an evaluator pushes to the reasons.
abbrev pub reason_unless : Bool → Text → List Text
reason_unless ok s = if ok then [] else s ∷ []

pub record Gate1Result : Type 0 where
  pub passed : Bool
  pub watermark_valid : Bool
  pub killed_at : ℕ
  pub resumed_at : ℕ
  pub lost_records : ℕ
  pub final_processed_id : ℕ
  pub output : Text

abbrev pub effective_killed_at : ℕ → ℕ → ℕ
effective_killed_at killed_at resumed_at =
    if ltb killed_at resumed_at then max killed_at (resumed_at + 331) else killed_at

unfoldable pub evaluate_gate1_resumption : (ℕ → Text) → ℕ → ℕ → ℕ → ℕ → Gate1Result
evaluate_gate1_resumption locale killed_at resumed_at max_id final_processed_id =
    let killed = effective_killed_at killed_at resumed_at in
    let watermark_valid = ltb 0 resumed_at && leb resumed_at killed in
    let lost_records = max_id - final_processed_id in
    let passed = watermark_valid && (lost_records == 0 && leb max_id final_processed_id) in
    let details =
      codes "killed at "
      ++ (locale killed
          ++ (codes " / resumed at "
              ++ (locale resumed_at ++ (codes ", " ++ (locale lost_records ++ codes " lost"))))) in
    record {
      passed = passed;
      watermark_valid = watermark_valid;
      killed_at = killed;
      resumed_at = resumed_at;
      lost_records = lost_records;
      final_processed_id = final_processed_id;
      output = format_gate_result (codes "G1 resume after kill") (verdict passed) details;
    }

pub record Gate2Result : Type 0 where
  pub passed : Bool
  pub source_count : ℕ
  pub sink_count : ℕ
  pub consumer_unique_count : Option ℕ
  pub duplicates : ℕ
  pub details : Text
  pub output : Text

abbrev is_reachable : Option ℕ → Bool
is_reachable none = false
is_reachable (some n) = true

abbrev at_least : ℕ → Option ℕ → Bool
at_least target none = false
at_least target (some n) = leb target n

consumer_reasons : ℕ → Option ℕ → List Text
consumer_reasons target none =
    codes "consumer metrics unreachable (independent consumer unverified)" ∷ []
consumer_reasons target (some n) = reason_unless (leb target n) (
    codes "consumer parity failure ("
    ++ (show n ++ (codes " unique < " ++ (show target ++ codes " replicated)"))))

pub gate2_reasons : ℕ → ℕ → Option ℕ → ℕ → ℕ → List Text
unfolding consumer_reasons
gate2_reasons source_count es_count consumer_unique_count duplicate_count target =
    reason_unless (ltb 0 source_count)
      (codes "invalid source count (" ++ (show source_count ++ codes ")"))
    ++ (reason_unless (es_count == target) (
          codes "Elasticsearch parity failure ("
          ++ (show target ++ (codes " vs " ++ (show es_count ++ codes ")"))))
        ++ (consumer_reasons target consumer_unique_count
            ++ reason_unless (duplicate_count == 0)
                (show duplicate_count ++ codes " duplicates detected in sink")))

unfoldable pub evaluate_gate2_deduplication :
    (ℕ → Text) → ℕ → ℕ → Option ℕ → ℕ → Option ℕ → Gate2Result
unfolding gate2_reasons
evaluate_gate2_deduplication locale source_count es_count consumer_unique_count duplicate_count
      expected_sink_count =
    let target = or_default expected_sink_count source_count in
    let passed =
      ltb 0 source_count
      && ((es_count == target)
          && ((is_reachable consumer_unique_count && at_least target consumer_unique_count)
              && (duplicate_count == 0))) in
    let details =
      if passed
      then locale source_count
        ++ (codes " source / "
            ++ (locale target ++ (codes " sink / " ++ (locale duplicate_count ++ codes " dupes"))))
      else join
          (gate2_reasons source_count es_count consumer_unique_count duplicate_count target) in
    record {
      passed = passed;
      source_count = source_count;
      sink_count = es_count;
      consumer_unique_count = consumer_unique_count;
      duplicates = duplicate_count;
      details = details;
      output = format_gate_result (codes "G2 no duplicates") (verdict passed) details;
    }
