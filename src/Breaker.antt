-- ===== src/Breaker.antt =====
-- apps/pipeline/src/resilience/circuit-breaker.ts: the circuit breaker around one sink.
-- `execute` is cut at its awaits: `wait_ms` (the sleep), `on_probe` (the health probe and the move
-- to HALF_OPEN), then `on_success` or `on_failure` for the protected operation. Readings of
-- `Date.now()` and `Math.random()` are arguments. The sleep function and the probe are parameters.
pub mod Backoff
pub mod Invariant
pub mod Execute
pub mod Healing
mod Examples
use optio_test.Prelude.{
  ℕ, zero, suc, ◌+◌, ◌-◌, ◌*◌, ◌/◌, ◌^◌, ◌<◌, min, max, Bool, true, false, not, ◌||◌, Option, none,
  some, List, [], ◌∷◌, leb, ltb, ◌==◌, if◌then◌else◌, or_default,
}
use optio_test.Prelude.Int.{ℤ, pos, sub_ℕ, ◌+ℤ◌}
use optio_test.Prelude.Text.{Text}

-- packages/shared: `'CLOSED' | 'OPEN' | 'HALF_OPEN'`.
pub data CircuitBreakerState : Type 0 where
  closed opened half_open : CircuitBreakerState

pub record CircuitBreakerOptions : Type 0 where
  pub name : Text
  pub failure_threshold : Option ℕ
  pub base_backoff_ms : Option ℕ
  pub max_backoff_ms : Option ℕ
  pub jitter_ms : Option ℕ
  pub half_open_success_threshold : Option ℕ
  pub has_probe : Bool

pub record CircuitBreaker : Type 0 where
  pub name : Text
  pub failure_threshold : ℕ
  pub base_backoff_ms : ℕ
  pub max_backoff_ms : ℕ
  pub jitter_ms : ℕ
  pub half_open_success_threshold : ℕ
  pub has_probe : Bool
  pub state : CircuitBreakerState
  pub consecutive_failures : ℕ
  pub consecutive_successes : ℕ
  pub last_failure_time : Option ℕ
  pub next_attempt_time : Option ℕ
  pub current_backoff_ms : ℕ
  pub total_trips : ℕ
  pub outage_start_time : Option ℕ
  pub total_downtime_ms : ℤ

unfoldable pub new : CircuitBreakerOptions → CircuitBreaker
new o = record {
  name = o.name;
  failure_threshold = or_default o.failure_threshold 3;
  base_backoff_ms = or_default o.base_backoff_ms 1000;
  max_backoff_ms = or_default o.max_backoff_ms 30000;
  jitter_ms = or_default o.jitter_ms 500;
  half_open_success_threshold = or_default o.half_open_success_threshold 2;
  has_probe = o.has_probe;
  state = closed;
  consecutive_failures = 0;
  consecutive_successes = 0;
  last_failure_time = none;
  next_attempt_time = none;
  current_backoff_ms = 0;
  total_trips = 0;
  outage_start_time = none;
  total_downtime_ms = pos 0;
}

-- One result of `Math.random()`: the fraction `num / den`, below 1.
pub record Draw : Type 0 where
  pub num : ℕ
  pub den : ℕ
  pub below_one : num < den

-- `Math.round(capped + random * jitterMs)`, halves upwards.
unfoldable pub calculate_backoff_ms : CircuitBreaker → ℕ → Draw → ℕ
calculate_backoff_ms b failures r =
    let exponent = max 0 (failures - 1) in
    let exponential = b.base_backoff_ms * 2 ^ exponent in
    let capped = min b.max_backoff_ms exponential in
    (2 * (capped * r.den + r.num * b.jitter_ms) + r.den) / (2 * r.den)

-- The readings of a failing or tripping block, in the order it takes them.
pub record Readings : Type 0 where
  pub failed_at : ℕ
  pub outage_at : ℕ
  pub backoff_at : ℕ
  pub draw : Draw

abbrev pub is_opened : CircuitBreakerState → Bool
is_opened opened = true
is_opened _ = false

abbrev pub is_half_open : CircuitBreakerState → Bool
is_half_open half_open = true
is_half_open _ = false

-- The sleep before a call on an open breaker, if there is one.
pub wait_ms : CircuitBreaker → ℕ → Option ℕ
wait_ms b now = elim b.next_attempt_time [
  | none ↦ none
  | some next ↦ if ltb now next then some (max 1 (next - now)) else none
]

-- A probe that is unhealthy or fails moves the next attempt.
pub postpone : CircuitBreaker → ℕ → Draw → CircuitBreaker
postpone b now r =
    let backoff = calculate_backoff_ms b b.consecutive_failures r in
    record b { current_backoff_ms = backoff; next_attempt_time = some (now + backoff) }

-- What the health probe gives. The throw for an unhealthy sink is caught by the same block, so
-- there the backoff is set twice, with a second clock reading and a second draw.
pub data ProbeResult : Type 0 where
  healthy : ProbeResult
  unhealthy : ℕ → Draw → ℕ → Draw → ProbeResult
  probe_threw : ℕ → Draw → ProbeResult

pub enter_half_open : CircuitBreaker → CircuitBreaker
enter_half_open b = record b { state = half_open; consecutive_successes = 0 }

-- The flag says whether the operation is tried. Without a probe the call goes straight on.
pub on_probe : CircuitBreaker → ProbeResult → CircuitBreaker × Bool
unfolding postpone enter_half_open
on_probe b healthy = (enter_half_open b, true)
on_probe b (unhealthy t₁ r₁ t₂ r₂) =
    if b.has_probe then (postpone (postpone b t₁ r₁) t₂ r₂, false) else (enter_half_open b, true)
on_probe b (probe_threw t r) =
    if b.has_probe then (postpone b t r, false) else (enter_half_open b, true)

add_downtime : ℤ → ℕ → Option ℕ → ℤ
add_downtime total now none = total
add_downtime total now (some start) = total +ℤ sub_ℕ now start

-- The block after the operation has succeeded.
pub on_success : CircuitBreaker → ℕ → CircuitBreaker
unfolding add_downtime
on_success b now = elim b.state [
  | half_open ↦
      let successes = b.consecutive_successes + 1 in
      if leb b.half_open_success_threshold successes
      then record b {
        consecutive_successes = successes;
        state = closed;
        total_downtime_ms = add_downtime b.total_downtime_ms now b.outage_start_time;
        outage_start_time = none;
        consecutive_failures = 0;
        current_backoff_ms = 0;
        next_attempt_time = none;
      }
      else record b { consecutive_successes = successes }
  | closed ↦ record b { consecutive_failures = 0; current_backoff_ms = 0 }
  | opened ↦ b
]

abbrev pub first_some : Option ℕ → ℕ → Option ℕ
first_some none t = some t
first_some (some s) t = some s

-- The block after the operation has thrown.
pub on_failure : CircuitBreaker → Readings → CircuitBreaker
on_failure b r =
    let failures = b.consecutive_failures + 1 in
    let failed = record b {
      consecutive_failures = failures;
      consecutive_successes = 0;
      last_failure_time = some r.failed_at;
    } in
    let backoff = calculate_backoff_ms b failures r.draw in
    if is_half_open b.state || leb b.failure_threshold failures
    then record failed {
      total_trips = b.total_trips + 1;
      outage_start_time = first_some b.outage_start_time r.outage_at;
      state = opened;
      current_backoff_ms = backoff;
      next_attempt_time = some (r.backoff_at + backoff);
    }
    else failed

unfoldable pub reset : CircuitBreaker → CircuitBreaker
reset b = record b {
  state = closed;
  consecutive_failures = 0;
  consecutive_successes = 0;
  last_failure_time = none;
  next_attempt_time = none;
  current_backoff_ms = 0;
  outage_start_time = none;
}

-- The body of `trip`; its timer is the event of `on_timer`.
unfoldable pub trip : CircuitBreaker → Option ℕ → Readings → CircuitBreaker
trip b duration_ms r =
    let failures = max b.consecutive_failures b.failure_threshold in
    let backoff = or_default duration_ms (calculate_backoff_ms b failures r.draw) in
    record b {
      state = opened;
      total_trips = b.total_trips + 1;
      consecutive_failures = failures;
      last_failure_time = some r.failed_at;
      outage_start_time = first_some b.outage_start_time r.outage_at;
      current_backoff_ms = backoff;
      next_attempt_time = some (r.backoff_at + backoff);
    }

-- `trip` sets a timer for a positive duration only.
unfoldable pub sets_timer : Option ℕ → Bool
sets_timer none = false
sets_timer (some ms) = ltb 0 ms

pub on_timer : CircuitBreaker → CircuitBreaker
on_timer b =
    if is_opened b.state then record b { state = half_open; consecutive_successes = 0 } else b

pub record CircuitBreakerMetrics : Type 0 where
  pub name : Text
  pub state : CircuitBreakerState
  pub consecutive_failures : ℕ
  pub consecutive_successes : ℕ
  pub total_trips : ℕ
  pub current_backoff_ms : ℕ
  pub total_downtime_ms : ℤ
  pub is_throttling : Bool

abbrev is_closed : CircuitBreakerState → Bool
is_closed closed = true
is_closed _ = false

unfoldable pub get_metrics : CircuitBreaker → CircuitBreakerMetrics
get_metrics b = record {
  name = b.name;
  state = b.state;
  consecutive_failures = b.consecutive_failures;
  consecutive_successes = b.consecutive_successes;
  total_trips = b.total_trips;
  current_backoff_ms = b.current_backoff_ms;
  total_downtime_ms = b.total_downtime_ms;
  is_throttling = not (is_closed b.state);
}
