-- ===== src/Breaker/Healing.antt =====
-- How the breaker opens under failing calls and closes again under successful ones.
use optio_test.Prelude.{
  ℕ, ◌+◌, ◌<◌, ◌≡◌, ◌≢◌, Bool, true, false, none, List, [], ◌∷◌, arith, length, All,
}
use optio_test.Breaker.{CircuitBreaker, closed, opened, half_open, healthy}
use optio_test.Breaker.Execute.{OperationResult, returned, threw, Call, execute}

-- The successes that count towards closing: an OPEN breaker starts from none.
abbrev pub counted : CircuitBreaker → ℕ
counted b = elim b.state [ half_open ↦ b.consecutive_successes | _ ↦ 0 ]

counted_half_open : (b : CircuitBreaker) → b.state ≡ half_open → counted b ≡ b.consecutive_successes
counted_half_open b h = ground arith

pub record Healed (b : CircuitBreaker) : Type 0 where
  pub is_closed : b.state ≡ closed
  pub no_failures : b.consecutive_failures ≡ 0
  pub no_backoff : b.current_backoff_ms ≡ 0
  pub no_schedule : b.next_attempt_time ≡ none
  pub no_outage : b.outage_start_time ≡ none

module _ {T : Type 0} where
  -- Calls one after another.
  unfoldable pub run_calls : CircuitBreaker → List (Call T) → CircuitBreaker
  run_calls b [] = b
  run_calls b (c ∷ cs) = run_calls (execute b c).0 cs

  abbrev pub throws : OperationResult T → Bool
  throws (returned v t) = false
  throws (threw r) = true

  abbrev pub Throws : Call T → Type 0
  Throws c = throws c.operation ≡ true

  execute-Throws :
      (b : CircuitBreaker) (c : Call T)
      → b.state ≡ closed
      → Throws c
      → let b' = (execute b c).0 in
        (b'.failure_threshold ≡ b.failure_threshold)
        × (b'.consecutive_failures ≡ b.consecutive_failures + 1)
        × (b.consecutive_failures + 1 < b.failure_threshold
            → (b'.state ≡ closed) × (b'.total_trips ≡ b.total_trips))
        × (b.consecutive_failures + 1 ≡ b.failure_threshold
            → (b'.state ≡ opened) × (b'.total_trips ≡ b.total_trips + 1))
  unfolding execute
  execute-Throws b c s t = ground arith

  -- A closed breaker is opened by exactly as many failing calls as its threshold still allows, and
  -- counts one trip.
  pub failures_open :
      (b : CircuitBreaker) (c : Call T) (cs : List (Call T))
      → b.state ≡ closed
      → All Throws (c ∷ cs)
      → b.consecutive_failures + length (c ∷ cs) ≡ b.failure_threshold
      → ((run_calls b (c ∷ cs)).state ≡ opened)
        × ((run_calls b (c ∷ cs)).total_trips ≡ b.total_trips + 1)
  unfolding run_calls
  failures_open b c [] s t n = (execute-Throws b c s t.0).3 (omega arith)
  failures_open b c (d ∷ ds) s t n =
      let step = execute-Throws b c s t.0 in
      let stay = step.2 (omega arith) in
      let rest = failures_open (execute b c).0 d ds stay.0 t.1 (omega arith) in
      (rest.0, omega arith)

  -- The probe reports a healthy sink and the operation returns.
  abbrev pub Succeeds : Call T → Type 0
  Succeeds c = (c.probe ≡ healthy) × (throws c.operation ≡ false)

  execute-Succeeds :
      (b : CircuitBreaker) (c : Call T)
      → b.state ≢ closed
      → Succeeds c
      → let b' = (execute b c).0 in
        (b'.half_open_success_threshold ≡ b.half_open_success_threshold)
        × (counted b + 1 < b.half_open_success_threshold
            → (b'.state ≡ half_open) × (b'.consecutive_successes ≡ counted b + 1))
        × (counted b + 1 ≡ b.half_open_success_threshold → Healed b')
  unfolding execute
  execute-Succeeds b c s t = ground arith

  -- A breaker that is not CLOSED is closed, with failures, backoff, schedule and outage cleared, by
  -- exactly as many calls with a healthy probe and a successful operation as its threshold asks.
  pub successes_heal :
      (b : CircuitBreaker) (c : Call T) (cs : List (Call T))
      → b.state ≢ closed
      → All Succeeds (c ∷ cs)
      → counted b + length (c ∷ cs) ≡ b.half_open_success_threshold
      → Healed (run_calls b (c ∷ cs))
  unfolding run_calls
  successes_heal b c [] s t n = (execute-Succeeds b c s t.0).2 (omega arith)
  successes_heal b c (d ∷ ds) s t n =
      let step = execute-Succeeds b c s t.0 in
      let pending = step.1 (omega arith) in
      successes_heal (execute b c).0 d ds (λ e. cc) t.1
        (omega (arith, counted_half_open (execute b c).0 pending.0))
