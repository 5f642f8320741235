-- ===== src/Lib.antt =====
-- Verification of the replication platform: a pipeline (apps/pipeline) that copies the rows of a
-- PostgreSQL table into Elasticsearch and RabbitMQ, and a consumer (apps/consumer) of the events.
--
-- The parts, and the files that model them:
--
--   Types       packages/shared/src/types: the records that the parts exchange.
--   Breaker     apps/pipeline/src/resilience/circuit-breaker.ts. `execute` is cut at its awaits:
--               `wait_ms`, `on_probe`, `on_success` and `on_failure` are its synchronous blocks. Any
--               order of blocks, timers and operator calls is a list of events (Breaker/Invariant);
--               one call with nothing else on the breaker is `execute` (Breaker/Execute).
--   Dedup       apps/consumer/src/deduplication.ts. The Map is the list of its keys in insertion
--               order.
--   Consumer    apps/consumer/src/consumer.service.ts: `handleMessage` and the metrics;
--               Consumer/Supervision is the supervised connection, cut at its awaits, as a step
--               relation.
--   Replayer    apps/pipeline/src/dlq/dlq.replayer.ts: the replay of one entry of the dead letter
--               queue (Replayer/Entry has the record it rebuilds), and of all that are pending.
--   Verify      scripts/verify/common.js, the verdicts of the five gates, and scripts/verify/index.js
--               (Verify/Suite), the arguments and the run of the suite; scripts/verify/gate4.js
--               (Verify/Isolation), the run of the fourth gate on what it is answered; Verify/Quiescence
--               is waitForPipelineQuiescence of common.js.
--   Elastic     apps/pipeline/src/sinks/elasticsearch/elasticsearch.sink.ts, `bulkUpsert` and
--               `parseBulkResponse`; Elastic/Document has `transformRecord`.
--   Rabbit      apps/pipeline/src/sinks/rabbitmq/rabbitmq.sink.ts: `publishBatch`, and in
--               Rabbit/Connection the state of the connection.
--   Delivery    the way of a message from the rabbit sink to the consumer.
--   Search      apps/pipeline/src/search/search.service.ts (Search/Pages names what it relies on of
--               Elasticsearch, with the window of 10,000 results), and
--   Chaos       apps/pipeline/src/simulation/chaos.service.ts.
--   Seed        scripts/seed.js.
--   Ui          apps/ui/src/hooks: useMetricHistory.ts and useActionLog.ts; Ui/Polling is
--               useTelemetry.ts there, Ui/Format apps/ui/src/lib/format.ts, and Ui/Client
--               apps/ui/src/api/client.ts.
--   Source      apps/pipeline/src/source/source.reader.ts. A query is a selection, an order and a limit
--               on the list of the table's rows.
--   Checkpoint  apps/pipeline/src/checkpoint/checkpoint.manager.ts, and
--   Dlq         apps/pipeline/src/dlq/dlq.store.ts: each statement as a function on the rows.
--   Runner      what apps/pipeline/src/runners/*.ts share: the state outside the process, a sink's
--               call through its breaker, and the entries for the dead letter queue.
--   Backfill    apps/pipeline/src/runners/backfill.runner.ts. `iterate` is one round of the loop of
--               `start`, `settle` and `commit` are the round after both sinks have answered, and
--               Backfill/Boots has the start itself. Backfill/Safety states the invariant.
--   Incremental apps/pipeline/src/runners/incremental.runner.ts, in the same form; Source/Incremental
--               has the batches that it reads.
--   Coordinator apps/pipeline/src/coordinator/pipeline.coordinator.ts, `getTelemetry`, with the health
--               checks of both sinks; Coordinator/Lifecycle has the start and the shutdown.
--   Backfill/Control is the runner's flags and the phases of its loops, as calls of start, pause
--               and resume come between their awaits.
--   Batches     what both sinks promise of a batch's result.
--   Prelude     shared tests, lists, texts, decimal numbers, orders and permutations; Samples has
--               records for the examples.
--
-- The runner calls both sinks through one breaker each; a sink's result names every record once,
-- and the events that the rabbit sink publishes are what the consumer handles.
--
-- A list of rounds that ends before the loop does stands for a process that is cut off there, and
-- a failed statement with no status saved for one that is cut off within a round. Each statement
-- on the database is done as a whole or not at all. The lists `es_written` and `rmq_confirmed` of
-- a World are the ids in the sinks' answers, which no variable of the program keeps. The rows of
-- the table do not change while a process of Backfill/Restarts or Incremental/Restarts runs, and for
-- Backfill/Restarts not between two of them either; a round's two calls of the sinks both end before
-- the next statement on the database, also where one of them throws; and a pipeline has one loop at a
-- time but in Backfill/Control. `Operation.source` of Elastic is the
-- record that Elastic/Document maps to the search document. A payload in the dead letter queue is
-- kept as the value that was given.
--
-- How the source is read. A mutated object is a record that each operation returns anew. Numbers
-- of the source that are counts, ids, versions and milliseconds are natural numbers; a difference
-- of clock readings is an integer. Texts are lists of code points. Readings of the clock, random
-- draws, the answers of PostgreSQL, Elasticsearch, RabbitMQ and `JSON.parse` are arguments. A
-- random draw is a fraction below 1, and its product with the jitter is exact, so the rounding of
-- floating-point products is not modelled. There is fuel in Prelude/Decimal, where printing a
-- number n has n + 1 rounds for its digits (enough, by the injectivity lemma there), and in Seed,
-- where as many rounds as there are rows are enough, since each generates one at least. The 50 rounds
-- of the Replayer are the source's own.
--
-- Not modelled: the topology on the broker and the index of Elasticsearch, the panels of the user
-- interface and its timestamps, the measuring scripts of the gates but the fourth, the migration
-- and probing scripts, the HTTP servers, logging and process start-up.
pub mod Prelude
pub mod Breaker
pub mod Dedup
pub mod Consumer
pub mod Types
pub mod Ui
pub mod Verify
pub mod Samples
pub mod Batches
pub mod Elastic
pub mod Rabbit
pub mod Search
pub mod Seed
pub mod Source
pub mod Chaos
pub mod Checkpoint
pub mod Delivery
pub mod Dlq
pub mod Runner
pub mod Backfill
pub mod Incremental
pub mod Coordinator
pub mod Replayer
