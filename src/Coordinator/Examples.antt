-- ===== src/Coordinator/Examples.antt =====
-- A dashboard with one sink down and a cursor at a third of the table.
use optio_test.Prelude.{◌+◌, ◌*◌, ◌≤◌, ◌<◌, ◌≡◌, ◌⊎◌, refl, true, false, ◌&&◌, none, some, arith}
use optio_test.Prelude.Text.{codes}
use optio_test.Samples.{world}
use optio_test.Source.{SourceMetadata}
use optio_test.Backfill
use optio_test.Incremental
use optio_test.Coordinator.{
  running, healthy, down_overall, Probes, red, es_health_check, rmq_health_check, get_telemetry,
  completion_hundredths,
}
use optio_test.Coordinator.Health.{overall_lem, completion_lem}

abbrev table : SourceMetadata
table = record { max_id = 3; total_count = 2 }

third : completion_hundredths table 1 ≡ 3333
unfolding completion_hundredths
third = refl

abbrev probes : Probes
probes = record {
  postgres = record { is_healthy = true; latency_ms = 1 };
  elasticsearch = es_health_check (some red) 10 12;
  rabbitmq = rmq_health_check true true 10 15;
  metadata = some table;
  pending = none;
  now = 20;
}

overall_lem_example :
    let all_healthy =
      probes.postgres.is_healthy
      && (probes.elasticsearch.is_healthy && probes.rabbitmq.is_healthy) in
    let overall =
      (get_telemetry running
        (Backfill.new (codes "b") none)
        (Incremental.new (codes "i") none none)
        world
        probes).health.overall in
    ((overall ≡ healthy) × (all_healthy ≡ true))
    ⊎ ((overall ≡ down_overall) × (all_healthy ≡ false))
overall_lem_example =
    overall_lem running (Backfill.new (codes "b") none) (Incremental.new (codes "i") none none)
      world probes

completion_lem_example :
    let shown = completion_hundredths table 1 in
    ((3 ≤ 1) × (shown ≡ 10000))
    ⊎ ((1 < 3)
        × (shown ≤ 10000)
        × (2 * (3 * shown) ≤ 2 * (1 * 10000) + 3)
        × (2 * (1 * 10000) < 2 * (3 * shown) + 3))
completion_lem_example = completion_lem table 1 (omega arith)
