-- ===== src/Breaker/Examples.antt =====
-- The breaker on concrete readings.
use optio_test.Prelude.{ℕ, ◌+◌, ◌≤◌, ◌≡◌, refl, true, none, some, List, [], ◌∷◌, arith, or_default}
use optio_test.Prelude.Text.{codes}
use optio_test.Breaker.{
  CircuitBreaker, CircuitBreakerOptions, Draw, Readings, healthy, probe_threw, new,
  calculate_backoff_ms, on_failure, trip,
}
use optio_test.Breaker.Backoff.{capped_ms}
use optio_test.Breaker.Invariant.{
  Inv, Event, probed, succeeded, threw, tripped, timer_fired, was_reset, run, run-new-Inv,
}
use optio_test.Breaker.Execute
use optio_test.Breaker.Execute.{Call, execute, slept_ms, execute_refused, throttled, refused}
use optio_test.Breaker.Healing.{run_calls, Healed, successes_heal}

abbrev options : CircuitBreakerOptions
options = record {
  name = codes "es";
  failure_threshold = none;
  base_backoff_ms = none;
  max_backoff_ms = none;
  jitter_ms = none;
  half_open_success_threshold = none;
  has_probe = true;
}

abbrev half : Draw
half = record { num = 1; den = 2; below_one = omega arith }

abbrev readings : Readings
readings = record { failed_at = 100; outage_at = 100; backoff_at = 101; draw = half }

abbrev failing : Call ℕ
failing = record { entered_at = 100; probe = healthy; operation = Execute.threw readings }

abbrev succeeding : Call ℕ
succeeding = record { entered_at = 9000; probe = healthy; operation = Execute.returned 7 9001 }

abbrev unprobed : Call ℕ
unprobed = record {
  entered_at = 200;
  probe = probe_threw 201 half;
  operation = Execute.returned 7 202;
}

-- 1000 ms doubled twice, and half of the 500 ms jitter.
backoff_third : calculate_backoff_ms (new options) 3 half ≡ 4250
unfolding calculate_backoff_ms new
backoff_third = refl

abbrev events : List Event
events =
    threw readings
    ∷ threw readings
    ∷ threw readings
    ∷ probed healthy
    ∷ succeeded 9000
    ∷ tripped (some 50) readings
    ∷ timer_fired
    ∷ succeeded 9100
    ∷ succeeded 9200
    ∷ was_reset
    ∷ []

run-new-Inv_example : Inv (run (new options) events)
unfolding new
run-new-Inv_example = run-new-Inv options events (omega arith) (omega arith)

abbrev tripped_breaker : CircuitBreaker
tripped_breaker = trip (new options) none readings

execute_refused_example : (execute tripped_breaker unprobed).1 ≡ refused
unfolding trip new
execute_refused_example = (execute_refused tripped_breaker unprobed refl refl tt).0

abbrev two_failures : CircuitBreaker
two_failures = record (new options) { consecutive_failures = 2 }

throttled_example :
    101 + capped_ms two_failures 3
    ≤ 200 + or_default (slept_ms (on_failure two_failures readings) unprobed) 0
unfolding on_failure new slept_ms calculate_backoff_ms
throttled_example = throttled {T = ℕ} two_failures readings unprobed refl refl (omega arith)

successes_heal_example : Healed (run_calls tripped_breaker (succeeding ∷ succeeding ∷ []))
unfolding trip new
successes_heal_example =
    successes_heal tripped_breaker succeeding (succeeding ∷ []) (λ e. cc)
      ((refl, refl), ((refl, refl), tt)) refl
