-- ===== src/Verify/Observability.antt =====
-- scripts/verify/common.js: the verdict of the fifth gate on a telemetry payload.
use optio_test.Prelude.{
  Bool, true, false, ◌&&◌, Option, none, some, List, [], ◌∷◌, ◌++◌, if◌then◌else◌,
}
use optio_test.Prelude.Text.{Text, codes, text_eq}
use optio_test.Prelude.Int.{ℤ}
use optio_test.Verify.{format_gate_result, verdict, join, reason_unless}
use optio_test.Verify.Sinks.{is_natural}

-- A field of the payload; `absent` also stands for what is neither a number nor a text.
pub data Value : Type 0 where
  number : ℤ → Value
  written : Text → Value
  absent : Value

-- A component is given by its `status`, and missing where the payload has nothing truthy.
pub record Health : Type 0 where
  pub overall : Value
  pub postgres : Option Value
  pub elasticsearch : Option Value
  pub rabbitmq : Option Value

pub record Telemetry : Type 0 where
  pub backfill_cursor : Value
  pub backfill_completion_pct : Value
  pub current_throughput_eps : Value
  pub incremental_lag_records : Value
  pub incremental_lag_ms : Value
  pub dlq_pending_count : Value
  pub health : Option Health

abbrev pub is_number : Value → Bool
is_number (number n) = true
is_number _ = false

abbrev pub is_count : Value → Bool
is_count (number n) = is_natural n
is_count _ = false

abbrev pub is_written : Option Value → Bool
is_written (some (written s)) = true
is_written _ = false

unfoldable pub includes_text : List Text → Value → Bool
includes_text [] v = false
includes_text (s ∷ ss) (written t) = if text_eq s t then true else includes_text ss (written t)
includes_text (s ∷ ss) (number n) = false
includes_text (s ∷ ss) absent = false

abbrev pub health_states : List Text
health_states = codes "HEALTHY" ∷ codes "DEGRADED" ∷ codes "DOWN" ∷ []

unfoldable pub is_health_valid : Option Health → Bool
unfolding includes_text
is_health_valid none = false
is_health_valid (some h) =
    includes_text health_states h.overall
    && (is_written h.postgres && (is_written h.elasticsearch && is_written h.rabbitmq))

pub record Answers : Type 0 where
  pub backfill_position : Text
  pub throughput_eps : Text
  pub incremental_lag : Text
  pub dlq_pending : Text
  pub system_health : Text

pub record Gate5Result : Type 0 where
  pub passed : Bool
  pub answers : Option Answers
  pub details : Text
  pub output : Text

abbrev print_value : (ℤ → Text) → Value → Text
print_value print (number n) = print n
print_value print (written s) = s
print_value print absent = codes "undefined"

abbrev overall_value : Option Health → Value
overall_value none = absent
overall_value (some h) = h.overall

pub answers_of : (ℤ → Text) → Telemetry → Answers
answers_of print t =
    let shown = print_value print in
    record {
      backfill_position =
          codes "cursor: "
          ++ (shown t.backfill_cursor
              ++ (codes " (" ++ (shown t.backfill_completion_pct ++ codes "%)")));
      throughput_eps = shown t.current_throughput_eps ++ codes " eps";
      incremental_lag =
          shown t.incremental_lag_records
          ++ (codes " records (" ++ (shown t.incremental_lag_ms ++ codes "ms)"));
      dlq_pending = shown t.dlq_pending_count ++ codes " pending";
      system_health = shown (overall_value t.health);
    }

pub is_position_valid : Telemetry → Bool
is_position_valid t = is_number t.backfill_cursor && is_number t.backfill_completion_pct

pub is_lag_valid : Telemetry → Bool
is_lag_valid t = is_count t.incremental_lag_records && is_count t.incremental_lag_ms

pub gate5_reasons : Telemetry → List Text
unfolding is_position_valid is_lag_valid is_health_valid
gate5_reasons t =
    reason_unless (is_position_valid t)
      (codes "missing or invalid backfill position (cursor / completion pct)")
    ++ (reason_unless (is_count t.current_throughput_eps)
          (codes "missing or negative throughput_eps")
        ++ (reason_unless (is_lag_valid t) (codes "missing or invalid incremental lag metrics")
            ++ (reason_unless (is_count t.dlq_pending_count)
                  (codes "missing or negative dlq_pending_count")
                ++ reason_unless (is_health_valid t.health)
                    (codes "missing or invalid health status structure"))))

-- `none` is a payload that is no object. `print` stands for a number in a template.
unfoldable pub evaluate_gate5_observability : (ℤ → Text) → Option Telemetry → Gate5Result
unfolding is_position_valid is_lag_valid is_health_valid gate5_reasons answers_of
evaluate_gate5_observability print none = record {
  passed = false;
  answers = none;
  details = codes "no telemetry payload received";
  output =
      format_gate_result (codes "G5 observability") (codes "FAIL")
        (codes "no telemetry payload received");
}
evaluate_gate5_observability print (some t) =
    let passed =
      is_position_valid t
      && (is_count t.current_throughput_eps
          && (is_lag_valid t && (is_count t.dlq_pending_count && is_health_valid t.health))) in
    let details = join (gate5_reasons t) in
    record {
      passed = passed;
      answers = if passed then some (answers_of print t) else none;
      details = details;
      output = format_gate_result (codes "G5 observability") (verdict passed) details;
    }
