-- ===== src/Coordinator/Lifecycle.antt =====
-- The start, the shutdown and the requests for a pause of
-- apps/pipeline/src/coordinator/pipeline.coordinator.ts. The loops of the runners that a start or a
-- resumption launches run on their own (Backfill/Boots, Incremental/Boots).
use optio_test.Prelude.{ℕ, Bool, List}
use optio_test.Runner.{World}
use optio_test.Backfill.{BackfillRunner}
use optio_test.Backfill
use optio_test.Incremental.{IncrementalRunner}
use optio_test.Incremental
use optio_test.Rabbit.Connection.{Connection, Event, disconnected, run_events}
use optio_test.Coordinator.{CoordinatorStatus, initialized, running, stopped}

pub record PipelineCoordinator : Type 0 where
  pub status : CoordinatorStatus
  pub backfill_runner : BackfillRunner
  pub incremental_runner : IncrementalRunner
  pub connection : Connection
  pub world : World

unfoldable pub new : BackfillRunner → IncrementalRunner → Connection → World → PipelineCoordinator
new backfill_runner incremental_runner connection world = record {
  status = initialized;
  backfill_runner = backfill_runner;
  incremental_runner = incremental_runner;
  connection = connection;
  world = world;
}

-- The start up to the launch of both loops. The events are those of the connection to RabbitMQ; that
-- it fails, or the provisioning of the index, is only a warning.
unfoldable pub start : PipelineCoordinator → List Event → PipelineCoordinator
start c events = record c { status = running; connection = run_events c.connection events }

unfoldable pub pause_backfill : PipelineCoordinator → Bool → ℕ → PipelineCoordinator
pause_backfill c saves_status now =
    let (b, w) = Backfill.Boots.pause c.backfill_runner c.world saves_status now in
    record c { backfill_runner = b; world = w }

unfoldable pub pause_incremental : PipelineCoordinator → Bool → ℕ → PipelineCoordinator
pause_incremental c saves_status now =
    let (i, w) = Incremental.Boots.pause c.incremental_runner c.world saves_status now in
    record c { incremental_runner = i; world = w }

-- The shutdown goes on whichever of its parts fails.
unfoldable pub stop : PipelineCoordinator → Bool → Bool → ℕ → PipelineCoordinator
unfolding pause_backfill pause_incremental
stop c saves_backfill saves_incremental now =
    let stopping = record c { status = stopped } in
    let both =
      pause_incremental (pause_backfill stopping saves_backfill now) saves_incremental now in
    record both { connection = disconnected }
