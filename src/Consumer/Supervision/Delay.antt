-- ===== src/Consumer/Supervision/Delay.antt =====
-- The delay before the consumer connects again.
use native.Mathlib.Nat.{mul-le-mul_right, le-div_iff_mul-le, div-lt_iff_lt-mul}
use optio_test.Prelude.{ℕ, ◌+◌, ◌*◌, ◌/◌, ◌≤◌, ◌<◌, arith}
use optio_test.Breaker.{Draw}
use optio_test.Consumer.Supervision.{delay_ms}

half_low : (c h n d : ℕ) → n < d → 2 * h ≤ c + 1 → h * (2 * d) ≤ c * d + n * c + d
half_low c h n d k e = grind (arith, mul-le-mul_right d e)

half_high : (c n d : ℕ) → n < d → c * d + n * c + d < (c + 1) * (2 * d)
half_high c n d k = grind arith

below : {q : ℕ} (m : ℕ) → q < m + 1 → q ≤ m
below m h = omega arith

doubled : {q : ℕ} (c : ℕ) → (c + 1) / 2 ≤ q → c ≤ 2 * q
doubled c h = omega arith

-- The delay before a reconnect is at least half of the cap and at most the cap.
pub delay_ms_bounds : (cap : ℕ) (r : Draw) → (cap ≤ 2 * delay_ms cap r) × (delay_ms cap r ≤ cap)
unfolding delay_ms
delay_ms_bounds cap r = (
  doubled cap (
      (le-div_iff_mul-le (omega (arith, r.below_one))).1
        (half_low cap ((cap + 1) / 2) r.num r.den r.below_one (omega arith))),
  below cap
      ((div-lt_iff_lt-mul (omega (arith, r.below_one))).1 (half_high cap r.num r.den r.below_one)),
)
