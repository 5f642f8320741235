-- ===== src/Coordinator.antt =====
-- apps/pipeline/src/coordinator/pipeline.coordinator.ts: the telemetry, with the health checks of the
-- two sinks that it asks. A percentage is in hundredths of a percent, and the quotient that is
-- rounded is exact. The messages of a component are left out.
pub mod Health
pub mod Lifecycle
mod Examples
use optio_test.Prelude.{
  ℕ, ◌+◌, ◌-◌, ◌*◌, ◌/◌, min, Bool, true, false, not, ◌&&◌, ◌||◌, Option, none, some, ltb, ◌==◌,
  if◌then◌else◌, or_default,
}
use optio_test.Prelude.Text.{Text, codes}
use optio_test.Types.{PipelineStatus}
use optio_test.Breaker.{CircuitBreakerMetrics}
use optio_test.Breaker
use optio_test.Source.{SourceMetadata}
use optio_test.Runner.{World}
use optio_test.Backfill.{BackfillRunner}
use optio_test.Backfill
use optio_test.Incremental.{IncrementalRunner}
use optio_test.Incremental

pub data ComponentStatus : Type 0 where
  up down degraded : ComponentStatus

pub record ComponentHealth : Type 0 where
  pub status : ComponentStatus
  pub latency_ms : ℕ

pub data Overall : Type 0 where
  healthy degraded_overall down_overall : Overall

pub record SystemHealth : Type 0 where
  pub overall : Overall
  pub postgres : ComponentHealth
  pub elasticsearch : ComponentHealth
  pub rabbitmq : ComponentHealth

pub data CoordinatorStatus : Type 0 where
  initialized running stopped : CoordinatorStatus

-- What a health check gives back, but for its texts.
pub record CheckResult : Type 0 where
  pub is_healthy : Bool
  pub latency_ms : ℕ

pub data ClusterStatus : Type 0 where
  green yellow red : ClusterStatus

abbrev is_red : ClusterStatus → Bool
is_red red = true
is_red _ = false

-- elasticsearch.sink.ts: `none` is a request that threw.
unfoldable pub es_health_check : Option ClusterStatus → ℕ → ℕ → CheckResult
es_health_check none started now = record { is_healthy = false; latency_ms = now - started }
es_health_check (some s) started now = record {
  is_healthy = not (is_red s);
  latency_ms = now - started;
}

-- rabbitmq.sink.ts: an answer of `checkExchange` counts only on a connected channel.
unfoldable pub rmq_health_check : Bool → Bool → ℕ → ℕ → CheckResult
rmq_health_check connected responds started now =
    if connected
    then record { is_healthy = responds; latency_ms = now - started }
    else record { is_healthy = false; latency_ms = 0 }

abbrev status_from : Bool → ComponentStatus
status_from true = up
status_from false = down

pub component : CheckResult → ComponentHealth
component c = record { status = status_from c.is_healthy; latency_ms = c.latency_ms }

abbrev pub is_up : ComponentStatus → Bool
is_up up = true
is_up _ = false

abbrev pub is_down : ComponentStatus → Bool
is_down down = true
is_down _ = false

pub overall_health : ComponentStatus → ComponentStatus → ComponentStatus → Overall
overall_health pg es rmq =
    let all_up = is_up pg && (is_up es && is_up rmq) in
    let any_down = is_down pg || (is_down es || is_down rmq) in
    if all_up then healthy else if any_down then down_overall else degraded_overall

-- `Math.min(100, Math.round((cursor / max_id) * 10000) / 100)`
unfoldable pub completion_hundredths : SourceMetadata → ℕ → ℕ
completion_hundredths m cursor =
    if ltb 0 m.max_id
    then min 10000 ((2 * (cursor * 10000) + m.max_id) / (2 * m.max_id))
    else if m.total_count == 0
    then 10000
    else 0

pub record PipelineTelemetry : Type 0 where
  pub status : CoordinatorStatus
  pub backfill_status : PipelineStatus
  pub incremental_status : PipelineStatus
  pub backfill_cursor : ℕ
  pub backfill_total_records : ℕ
  pub backfill_completion_hundredths : ℕ
  pub current_throughput_eps : ℕ
  pub incremental_lag_records : ℕ
  pub incremental_lag_ms : ℕ
  pub dlq_pending_count : ℕ
  pub health : SystemHealth
  pub es_breaker : CircuitBreakerMetrics
  pub rmq_breaker : CircuitBreakerMetrics
  pub timestamp : ℕ

-- What the telemetry reads besides the state; a read that throws gives `none`.
pub record Probes : Type 0 where
  pub postgres : CheckResult
  pub elasticsearch : CheckResult
  pub rabbitmq : CheckResult
  pub metadata : Option SourceMetadata
  pub pending : Option ℕ
  pub now : ℕ

pub health_of : Probes → SystemHealth
unfolding component overall_health
health_of p =
    let pg = component p.postgres in
    let es = component p.elasticsearch in
    let rmq = component p.rabbitmq in
    record {
      overall = overall_health pg.status es.status rmq.status;
      postgres = pg;
      elasticsearch = es;
      rabbitmq = rmq;
    }

abbrev no_metadata : SourceMetadata
no_metadata = record { max_id = 0; total_count = 0 }

unfoldable pub get_telemetry :
    CoordinatorStatus → BackfillRunner → IncrementalRunner → World → Probes → PipelineTelemetry
unfolding health_of
get_telemetry s b i w p =
    let backfill = Backfill.Boots.get_metrics b in
    let incremental = Incremental.Boots.get_metrics i in
    let metadata = or_default p.metadata no_metadata in
    record {
      status = s;
      backfill_status = backfill.status;
      incremental_status = incremental.status;
      backfill_cursor = backfill.last_processed_id;
      backfill_total_records = metadata.total_count;
      backfill_completion_hundredths = completion_hundredths metadata backfill.last_processed_id;
      current_throughput_eps = backfill.current_throughput_eps;
      incremental_lag_records = incremental.lag_records;
      incremental_lag_ms = incremental.lag_ms;
      dlq_pending_count = or_default p.pending 0;
      health = health_of p;
      es_breaker = Breaker.get_metrics w.es_breaker;
      rmq_breaker = Breaker.get_metrics w.rmq_breaker;
      timestamp = p.now;
    }
