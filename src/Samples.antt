-- ===== src/Samples.antt =====
-- Records for the examples of the other modules.
use optio_test.Prelude.{ℕ, Bool, true, false, none, some, List, [], ◌∷◌, arith}
use optio_test.Prelude.Text.{codes}
use optio_test.Types.{Json, Fields, SourceRecord, active}
use optio_test.Source.{SourceRow}
use optio_test.Source
use optio_test.Breaker.{CircuitBreaker, Readings, healthy}
use optio_test.Breaker
use optio_test.Rabbit.{sent}
use optio_test.Runner.{World, Guard, Sinks}

abbrev pub sample : ℕ → Bool → SourceRecord
sample id corrupted = record {
  id = id;
  uuid = codes "u";
  tenant_id = codes "t";
  payload = Json.obj Fields.end;
  version = 2;
  status = active;
  is_corrupted = corrupted;
  created_at = 1;
  updated_at = 1000;
}

abbrev pub sound_and_poison : List SourceRecord
sound_and_poison = sample 5 false ∷ sample 6 true ∷ []

abbrev pub sample_row : ℕ → Bool → SourceRow
sample_row id corrupted = record {
  id = id;
  uuid = codes "u";
  tenant_id = codes "t";
  payload = Json.obj Fields.end;
  version = 2;
  status = active;
  is_corrupted = corrupted;
  created_at_us = 1000;
  updated_at_us = 1000000;
}

-- A closed breaker, an empty database but for two rows, and sinks that accept.
abbrev pub breaker : CircuitBreaker
breaker = Breaker.new (record {
  name = codes "es";
  failure_threshold = none;
  base_backoff_ms = none;
  max_backoff_ms = none;
  jitter_ms = none;
  half_open_success_threshold = none;
  has_probe = true;
})

abbrev pub world : World
world = record {
  reader = Source.new (sample_row 2 false ∷ sample_row 1 true ∷ []) (λ s. none) none;
  checkpoints = [];
  dlq = record { rows = []; next_id = 1 };
  es_breaker = breaker;
  rmq_breaker = breaker;
  es_index = codes "i";
  rmq_sink = record { exchange_name = codes "x"; pipeline_id = codes "p"; has_channel = true };
  es_written = [];
  rmq_confirmed = [];
}

abbrev pub readings : Readings
readings = record {
  failed_at = 9;
  outage_at = 9;
  backoff_at = 9;
  draw = record { num = 0; den = 1; below_one = omega arith };
}

abbrev pub guard : Guard
guard = record { entered_at = 8; probe = healthy; finished_at = 9; readings = readings }

abbrev pub sinks : Sinks
sinks = record {
  es_guard = guard;
  es_client = λ operations. some (record { errors = false; items = none });
  rmq_guard = guard;
  rmq_broker = record {
    outcome = λ i. sent;
    event_id = λ i. codes "e";
    timestamp = λ i. 7;
    confirms = none;
  };
}
