-- ===== src/Breaker/Execute.antt =====
-- `execute` of circuit-breaker.ts as one call, with nothing else on the breaker between its awaits.
use optio_test.Prelude.{
  ℕ, ◌+◌, ◌≤◌, ◌≡◌, refl, Bool, true, false, Option, none, some, arith, if◌then◌else◌, or_default,
}
use optio_test.Breaker.Backoff.{capped_ms, backoff_bounds}
use optio_test.Breaker.{
  CircuitBreaker, opened, Readings, ProbeResult, healthy, unhealthy, probe_threw, is_opened,
  calculate_backoff_ms, wait_ms, postpone, on_probe, on_success, on_failure,
}

-- The operation returns a value, or throws; with the clock readings of the block that follows.
pub data OperationResult (T : Type 0) : Type 0 where
  returned : T → ℕ → OperationResult T
  threw : Readings → OperationResult T

-- What one call of `execute` meets.
pub record Call (T : Type 0) : Type 0 where
  pub entered_at : ℕ
  pub probe : ProbeResult
  pub operation : OperationResult T

-- What the caller sees: the operation's value, its error, or the error of the probe.
pub data Outcome (T : Type 0) : Type 0 where
  value : T → Outcome T
  failed : Outcome T
  refused : Outcome T

pub run_operation : {T : Type 0} → CircuitBreaker → OperationResult T → CircuitBreaker × Outcome T
run_operation b (returned v t) = (on_success b t, value v)
run_operation b (threw r) = (on_failure b r, failed)

pub after_probe :
    {T : Type 0} → CircuitBreaker × Bool → OperationResult T → CircuitBreaker × Outcome T
after_probe (b, true) o = run_operation b o
after_probe (b, false) o = (b, refused)

unfoldable pub execute : {T : Type 0} → CircuitBreaker → Call T → CircuitBreaker × Outcome T
unfolding run_operation after_probe on_probe on_success on_failure
execute b c =
    if is_opened b.state
    then after_probe (on_probe b c.probe) c.operation
    else run_operation b c.operation

-- The sleep of a call, before anything else it does.
unfoldable pub slept_ms : {T : Type 0} → CircuitBreaker → Call T → Option ℕ
unfolding wait_ms
slept_ms b c = if is_opened b.state then wait_ms b c.entered_at else none

abbrev pub Refuses : ProbeResult → Type 0
Refuses healthy = ⊥
Refuses (unhealthy t₁ r₁ t₂ r₂) = Unit
Refuses (probe_threw t r) = Unit

-- The last reading and draw of a probe that refuses.
abbrev pub refused_at : ProbeResult → ℕ
refused_at healthy = 0
refused_at (unhealthy t₁ r₁ t₂ r₂) = t₂
refused_at (probe_threw t r) = t

on_probe-Refuses :
    (b : CircuitBreaker) (p : ProbeResult)
    → b.has_probe ≡ true
    → Refuses p
    → let (b', go) = on_probe b p in
      (go ≡ false)
      × (b'.state ≡ b.state)
      × (b'.consecutive_failures ≡ b.consecutive_failures)
      × (b'.total_trips ≡ b.total_trips)
      × (b'.next_attempt_time ≡ some (refused_at p + b'.current_backoff_ms))
      × (capped_ms b b.consecutive_failures ≤ b'.current_backoff_ms)
unfolding on_probe calculate_backoff_ms
on_probe-Refuses b healthy h r = elim r [ ]
on_probe-Refuses b (unhealthy t₁ r₁ t₂ r₂) h r =
    let first = backoff_bounds (postpone b t₁ r₁) b.consecutive_failures r₂ in
    rw (h, on_probe) (refl, refl, refl, refl, refl, first.0)
on_probe-Refuses b (probe_threw t d) h r =
    rw (h, on_probe) (refl, refl, refl, refl, refl, (backoff_bounds b b.consecutive_failures d).0)

-- On an open breaker whose probe does not report a healthy sink, the operation is not tried,
-- whatever it would have done: the call is refused, the breaker stays OPEN with its counters, and
-- the next attempt is put off by the new backoff, which has at least the capped base delay.
pub execute_refused :
    {T : Type 0} (b : CircuitBreaker) (c : Call T)
    → b.state ≡ opened
    → b.has_probe ≡ true
    → Refuses c.probe
    → let b' = (execute b c).0 in
      ((execute b c).1 ≡ refused)
      × (b'.state ≡ opened)
      × (b'.consecutive_failures ≡ b.consecutive_failures)
      × (b'.total_trips ≡ b.total_trips)
      × (b'.next_attempt_time ≡ some (refused_at c.probe + b'.current_backoff_ms))
      × (capped_ms b b.consecutive_failures ≤ b'.current_backoff_ms)
unfolding execute
execute_refused b c o h r = ground (arith, on_probe-Refuses b c.probe h r)

-- When a failure trips the breaker, the next call, made at that time or later, does nothing before
-- the capped base delay has passed since the trip: what is missing of it, the call sleeps.
pub throttled :
    {T : Type 0} (b : CircuitBreaker) (r : Readings) (c : Call T)
    → is_opened b.state ≡ false
    → (on_failure b r).state ≡ opened
    → r.backoff_at ≤ c.entered_at
    → r.backoff_at + capped_ms b (b.consecutive_failures + 1)
      ≤ c.entered_at + or_default (slept_ms (on_failure b r) c) 0
unfolding on_failure slept_ms
throttled b r c n o h = ground (arith, backoff_bounds b (b.consecutive_failures + 1) r.draw)
