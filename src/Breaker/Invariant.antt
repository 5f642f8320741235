-- ===== src/Breaker/Invariant.antt =====
-- What holds of a breaker whatever calls, probes, timers and operators interleave on it.
use optio_test.Prelude.{ℕ, ◌<◌, ◌≡◌, Bool, true, false, Option, none, some, List, [], ◌∷◌, arith}
use optio_test.Breaker.{
  CircuitBreaker, CircuitBreakerOptions, closed, opened, half_open, Readings, ProbeResult, new,
  on_probe, on_success, on_failure, trip, on_timer, reset,
}

-- One synchronous block of the class: what runs between two awaits of any of its callers.
pub data Event : Type 0 where
  probed : ProbeResult → Event
  succeeded : ℕ → Event
  threw : Readings → Event
  tripped : Option ℕ → Readings → Event
  timer_fired : Event
  was_reset : Event

unfoldable pub step : CircuitBreaker → Event → CircuitBreaker
unfolding on_probe on_success on_failure trip on_timer reset
step b (probed p) = (on_probe b p).0
step b (succeeded t) = on_success b t
step b (threw r) = on_failure b r
step b (tripped ms r) = trip b ms r
step b timer_fired = on_timer b
step b was_reset = reset b

unfoldable pub run : CircuitBreaker → List Event → CircuitBreaker
run b [] = b
run b (e ∷ es) = run (step b e) es

abbrev pub is_some : Option ℕ → Bool
is_some none = false
is_some (some t) = true

pub record Inv (b : CircuitBreaker) : Type 0 where
  pub thresholds : (0 < b.failure_threshold) × (0 < b.half_open_success_threshold)
  pub closed_below : b.state ≡ closed → b.consecutive_failures < b.failure_threshold
  pub closed_no_outage : b.state ≡ closed → b.outage_start_time ≡ none
  pub opened_outage : b.state ≡ opened → is_some b.outage_start_time ≡ true
  pub opened_scheduled : b.state ≡ opened → is_some b.next_attempt_time ≡ true
  pub opened_tripped : b.state ≡ opened → 0 < b.total_trips
  pub half_open_below :
      b.state ≡ half_open → b.consecutive_successes < b.half_open_success_threshold

pub step-Inv : (b : CircuitBreaker) (e : Event) → Inv b → Inv (step b e)
unfolding step
step-Inv b (probed p) v = ground arith
step-Inv b (succeeded t) v = ground arith
step-Inv b (threw r) v = ground arith
step-Inv b (tripped ms r) v = ground arith
step-Inv b timer_fired v = ground arith
step-Inv b was_reset v = ground arith

run-Inv : (b : CircuitBreaker) (es : List Event) → Inv b → Inv (run b es)
unfolding run
run-Inv b [] v = v
run-Inv b (e ∷ es) v = run-Inv (step b e) es (step-Inv b e v)

new-Inv :
    (o : CircuitBreakerOptions)
    → 0 < (new o).failure_threshold
    → 0 < (new o).half_open_success_threshold
    → Inv (new o)
unfolding new
new-Inv o f s = ground arith

-- From a new breaker with positive thresholds, after any sequence of events: while CLOSED, the
-- failures stay below the threshold and no outage is being timed; while OPEN, an outage is being
-- timed, a next attempt is scheduled and a trip was counted; while HALF_OPEN, the successes stay
-- below their threshold.
pub run-new-Inv :
    (o : CircuitBreakerOptions) (es : List Event)
    → 0 < (new o).failure_threshold
    → 0 < (new o).half_open_success_threshold
    → Inv (run (new o) es)
run-new-Inv o es f s = run-Inv (new o) es (new-Inv o f s)
