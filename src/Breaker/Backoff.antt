-- ===== src/Breaker/Backoff.antt =====
-- The range of the jittered backoff.
use native.Mathlib.Nat.{le-div_iff_mul-le, div-lt_iff_lt-mul}
use optio_test.Prelude.{ℕ, ◌+◌, ◌-◌, ◌*◌, ◌/◌, ◌^◌, ◌≤◌, ◌<◌, min, max, ◌≡◌, arith}
use optio_test.Breaker.{CircuitBreaker, Draw, calculate_backoff_ms}

round_low : (c j n d : ℕ) → n < d → c * (2 * d) ≤ 2 * (c * d + n * j) + d
round_low c j n d h = grind arith

round_high : (c j n d : ℕ) → n < d → 2 * (c * d + n * j) + d < (c + j + 1) * (2 * d)
round_high c j n d h = grind arith

below : {q : ℕ} (m : ℕ) → q < m + 1 → q ≤ m
below m h = omega arith

-- A fraction of `j` added to `c` and rounded lies between `c` and `c + j`.
round_bounds :
    (c j n d : ℕ)
    → n < d
    → (c ≤ (2 * (c * d + n * j) + d) / (2 * d)) × ((2 * (c * d + n * j) + d) / (2 * d) ≤ c + j)
round_bounds c j n d h = (
  (le-div_iff_mul-le (omega arith)).1 (round_low c j n d h),
  below (c + j) ((div-lt_iff_lt-mul (omega arith)).1 (round_high c j n d h)),
)

exponent : (n : ℕ) → max 0 n ≡ n
exponent n = omega arith

abbrev pub capped_ms : CircuitBreaker → ℕ → ℕ
capped_ms b failures = min b.max_backoff_ms (b.base_backoff_ms * 2 ^ (failures - 1))

-- The backoff lies between the base delay, doubled with each failure after the first and capped at
-- the maximum, and that delay with the whole jitter added.
pub backoff_bounds :
    (b : CircuitBreaker) (failures : ℕ) (r : Draw)
    → (capped_ms b failures ≤ calculate_backoff_ms b failures r)
      × (calculate_backoff_ms b failures r ≤ capped_ms b failures + b.jitter_ms)
unfolding calculate_backoff_ms
backoff_bounds b failures r =
    rw (exponent (failures - 1))
      (round_bounds (capped_ms b failures) b.jitter_ms r.num r.den r.below_one)
