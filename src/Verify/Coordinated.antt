-- ===== src/Verify/Coordinated.antt =====
-- The telemetry that apps/pipeline/src/coordinator/pipeline.coordinator.ts gives, as the fifth gate of
-- scripts/verify/common.js reads it from the server's answer.
use optio_test.Prelude.{ℕ, ◌≡◌, refl, true, some}
use optio_test.Prelude.Text.{Text, codes, text_eq}
use optio_test.Prelude.Int.{ℤ, pos}
use optio_test.Runner.{World}
use optio_test.Backfill.{BackfillRunner}
use optio_test.Incremental.{IncrementalRunner}
use optio_test.Coordinator.{
  CoordinatorStatus, ComponentStatus, up, down, degraded, Overall, healthy, degraded_overall,
  down_overall, PipelineTelemetry, Probes, SystemHealth, get_telemetry,
}
use optio_test.Verify.Observability.{
  number, written, Health, Telemetry, includes_text, health_states, is_health_valid,
  evaluate_gate5_observability, answers_of,
}

abbrev status_text : ComponentStatus → Text
status_text up = codes "UP"
status_text down = codes "DOWN"
status_text degraded = codes "DEGRADED"

abbrev overall_text : Overall → Text
overall_text healthy = codes "HEALTHY"
overall_text degraded_overall = codes "DEGRADED"
overall_text down_overall = codes "DOWN"

abbrev health_payload : SystemHealth → Health
health_payload h = record {
  overall = written (overall_text h.overall);
  postgres = some (written (status_text h.postgres.status));
  elasticsearch = some (written (status_text h.elasticsearch.status));
  rabbitmq = some (written (status_text h.rabbitmq.status));
}

-- The JSON of a telemetry; `percent` stands for the number of a count of hundredths.
abbrev pub payload : (ℕ → ℤ) → PipelineTelemetry → Telemetry
payload percent t = record {
  backfill_cursor = number (pos t.backfill_cursor);
  backfill_completion_pct = number (percent t.backfill_completion_hundredths);
  current_throughput_eps = number (pos t.current_throughput_eps);
  incremental_lag_records = number (pos t.incremental_lag_records);
  incremental_lag_ms = number (pos t.incremental_lag_ms);
  dlq_pending_count = number (pos t.dlq_pending_count);
  health = some (health_payload t.health);
}

overall_includes : (o : Overall) → includes_text health_states (written (overall_text o)) ≡ true
unfolding includes_text text_eq
overall_includes healthy = refl
overall_includes degraded_overall = refl
overall_includes down_overall = refl

payload_valid : (h : SystemHealth) → is_health_valid (some (health_payload h)) ≡ true
unfolding is_health_valid
payload_valid h = rw (overall_includes h.overall) refl

-- Whatever the state of the pipeline and of the sinks, and whichever reads fail, the fifth gate
-- passes on the telemetry that the coordinator gives, and answers with its cursor, throughput, lag,
-- pending entries and health.
pub get_telemetry_observable :
    (print : ℤ → Text) (percent : ℕ → ℤ) (s : CoordinatorStatus) (b : BackfillRunner)
    (i : IncrementalRunner) (w : World) (p : Probes)
    → let t = payload percent (get_telemetry s b i w p) in
      ((evaluate_gate5_observability print (some t)).passed ≡ true)
      × ((evaluate_gate5_observability print (some t)).answers ≡ some (answers_of print t))
unfolding evaluate_gate5_observability
get_telemetry_observable print percent s b i w p =
    let t = get_telemetry s b i w p in rw (payload_valid t.health) (refl, refl)
