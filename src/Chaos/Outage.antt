-- ===== src/Chaos/Outage.antt =====
-- What a simulated outage does to the calls of the sinks.
use optio_test.Prelude.{ℕ, ◌+◌, ◌≤◌, ◌≡◌, refl, arith, or_default}
use optio_test.Breaker.{CircuitBreaker, Readings, opened, trip}
use optio_test.Breaker.Execute.{Call, slept_ms}
use optio_test.Chaos.{Breakers, OutageTarget, elasticsearch, rabbitmq, simulate_sink_outage}

abbrev pub breaker_of : OutageTarget → Breakers → CircuitBreaker
breaker_of elasticsearch b = b.es_circuit_breaker
breaker_of rabbitmq b = b.rmq_circuit_breaker

abbrev pub other : OutageTarget → OutageTarget
other elasticsearch = rabbitmq
other rabbitmq = elasticsearch

-- A simulated outage of a sink opens that sink's breaker and no other. The next call of the sink,
-- made at that time or later and before any timer, does nothing before the reported duration, at least
-- 100 ms and as long as was asked for, has passed: what is missing of it, the call sleeps.
pub simulate_sink_outage_lem :
    {T : Type 0} (b : Breakers) (target : OutageTarget) (duration_ms : ℕ) (r : Readings)
    (c : Call T)
    → r.backoff_at ≤ c.entered_at
    → let after = simulate_sink_outage b target duration_ms r in
      ((breaker_of target after.0).state ≡ opened)
      × (breaker_of (other target) after.0 ≡ breaker_of (other target) b)
      × (100 ≤ after.2)
      × (duration_ms ≤ after.2)
      × (r.backoff_at + after.2
          ≤ c.entered_at + or_default (slept_ms (breaker_of target after.0) c) 0)
unfolding simulate_sink_outage trip slept_ms
simulate_sink_outage_lem b elasticsearch duration_ms r c h =
    (refl, refl, omega arith, omega arith, ground arith)
simulate_sink_outage_lem b rabbitmq duration_ms r c h =
    (refl, refl, omega arith, omega arith, ground arith)
