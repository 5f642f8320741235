-- ===== src/Coordinator/Health.antt =====
-- What the dashboard is told of the health and of the progress.
use native.Mathlib.Nat.{div-lt_iff_lt-mul, le-div_iff_mul-le, mul-div-le, lt-mul-div-succ}
use optio_test.Prelude.{
  ℕ, ◌+◌, ◌*◌, ◌/◌, ◌≤◌, ◌<◌, ◌≡◌, inl, inr, ◌⊎◌, true, false, ◌&&◌, arith, ltb, ltb→lt, Bool-cases,
}
use optio_test.Source.{SourceMetadata}
use optio_test.Runner.{World}
use optio_test.Backfill.{BackfillRunner}
use optio_test.Incremental.{IncrementalRunner}
use optio_test.Coordinator.{
  CoordinatorStatus, healthy, down_overall, Probes, component, overall_health, health_of,
  get_telemetry, completion_hundredths,
}

-- The overall health of the telemetry is HEALTHY where all three checks were healthy and DOWN where
-- one was not; it is never DEGRADED.
pub overall_lem :
    (s : CoordinatorStatus) (b : BackfillRunner) (i : IncrementalRunner) (w : World) (p : Probes)
    → let all_healthy =
        p.postgres.is_healthy && (p.elasticsearch.is_healthy && p.rabbitmq.is_healthy) in
      let overall = (get_telemetry s b i w p).health.overall in
      ((overall ≡ healthy) × (all_healthy ≡ true))
      ⊎ ((overall ≡ down_overall) × (all_healthy ≡ false))
unfolding get_telemetry health_of component overall_health
overall_lem s b i w p = elim (Bool-cases p.postgres.is_healthy) [
  | inr e ↦ ground arith
  | inl e ↦ ground arith
]

-- The rounded quotient of a share by a positive whole: within half a unit, and no more than the
-- whole's.
rounded :
    (n c : ℕ)
    → 0 < n
    → let q = (2 * (c * 10000) + n) / (2 * n) in
      (2 * (n * q) ≤ 2 * (c * 10000) + n) × (2 * (c * 10000) < 2 * (n * q) + n)
rounded n c p =
    let a = 2 * (c * 10000) + n in
    let below = mul-div-le a (2 * n) in
    let above = lt-mul-div-succ a {b = 2 * n} (omega arith) in (grind arith, grind arith)

at_most : (n c : ℕ) → 0 < n → c < n → (2 * (c * 10000) + n) / (2 * n) < 10001
at_most n c p lt = (div-lt_iff_lt-mul {k = 2 * n} (omega arith)).1 (omega arith)

at_least : (n c : ℕ) → 0 < n → n ≤ c → 10000 ≤ (2 * (c * 10000) + n) / (2 * n)
at_least n c p le = (le-div_iff_mul-le {k = 2 * n} (omega arith)).1 (omega arith)

-- On a table with a positive highest id, the completion is 100 percent once the cursor has reached
-- it; before that it is the cursor's share of the highest id, to the nearest hundredth of a percent,
-- and at most 100 percent.
pub completion_lem :
    (m : SourceMetadata) (cursor : ℕ)
    → 0 < m.max_id
    → let shown = completion_hundredths m cursor in
      ((m.max_id ≤ cursor) × (shown ≡ 10000))
      ⊎ ((cursor < m.max_id)
          × (shown ≤ 10000)
          × (2 * (m.max_id * shown) ≤ 2 * (cursor * 10000) + m.max_id)
          × (2 * (cursor * 10000) < 2 * (m.max_id * shown) + m.max_id))
unfolding completion_hundredths
completion_lem m cursor p =
    let quotient = (2 * (cursor * 10000) + m.max_id) / (2 * m.max_id) in
    elim (Bool-cases (ltb cursor m.max_id)) [
      | inr e ↦
          let reached = at_least m.max_id cursor p (ground arith) in
          inl (ground arith, ground arith)
      | inl e ↦
          let small = at_most m.max_id cursor p (ltb→lt _ _ e) in
          let same : completion_hundredths m cursor ≡ quotient = ground arith in
          inr (
            ltb→lt _ _ e,
            rw same (omega arith),
            rw same (rounded m.max_id cursor p).0,
            rw same (rounded m.max_id cursor p).1,
          )
    ]
