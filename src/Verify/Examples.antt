-- ===== src/Verify/Examples.antt =====
-- Runs of the gates, and the arguments of the suite.
use optio_test.Prelude.{
  not, ◌==◌, ◌-◌, ◌≤◌, ◌<◌, ◌≡◌, ◌↔◌, ◌⊎◌, refl, true, false, Option, none, some, List, [], ◌∷◌,
  length, All, ℕ,
}
use optio_test.Prelude.Text.{Text, codes, text_eq, starts_with}
use optio_test.Prelude.Int.{ℤ, pos, negsuc}
use optio_test.Prelude.Decimal.{show}
use optio_test.Verify.{join, evaluate_gate1_resumption, evaluate_gate2_deduplication}
use optio_test.Verify.Verdicts.{gate1_lem}
use optio_test.Verify.Sinks.{evaluate_gate4_partial_failure}
use optio_test.Verify.Suite.{
  Outcome, returned, Options, Report, has_passed, target_gates, run_verification, run_gates,
  parse_args,
}
use optio_test.Verify.Suite.Tallies.{run_verification_lem}
use optio_test.Coordinator.{Probes}

-- Nothing could be read, and no sink was healthy.
abbrev probes : Probes
probes = record {
  postgres = record { is_healthy = false; latency_ms = 1 };
  elasticsearch = record { is_healthy = false; latency_ms = 1 };
  rabbitmq = record { is_healthy = false; latency_ms = 1 };
  metadata = none;
  pending = none;
  now = 20;
}

abbrev print : ℤ → Text
print (pos n) = show n
print (negsuc n) = codes "-"

gate1_lem_example :
    ((evaluate_gate1_resumption show 400 900 1000 1000).passed ≡ true) ↔ ((0 < 900) × (1000 ≤ 1000))
gate1_lem_example = gate1_lem show 400 900 1000 1000

passes : (evaluate_gate2_deduplication show 500 497 (some 600) 0 (some 497)).passed ≡ true
unfolding evaluate_gate2_deduplication
passes = refl

names_the_loss :
    (evaluate_gate4_partial_failure (pos 496) 4 false true).details
    ≡ codes "496 written (expected 497), 4 in DLQ (expected 3)"
unfolding evaluate_gate4_partial_failure join show
names_the_loss = refl

-- The third gate fails, and the others pass.
abbrev runners : ℕ → Outcome
runners g = returned (not (g == 3)) none

abbrev bailed : Report
bailed = run_verification runners none true

run_verification_lem_example :
    ((bailed.success ≡ true)
      × All (λ g. has_passed (runners g) ≡ true) (target_gates none)
      × (bailed.passed_count ≡ length (target_gates none))
      × (bailed.total_count ≡ length (target_gates none)))
    ⊎ ((bailed.success ≡ false) × (bailed.passed_count < bailed.total_count))
run_verification_lem_example = run_verification_lem runners none true

stops_at_three : (bailed.passed_count ≡ 2) × (bailed.total_count ≡ 3)
unfolding run_verification run_gates
stops_at_three = (refl, refl)

abbrev defaults : Options
defaults = record { gate = none; quick = false; bail = false; help = false }

abbrev parse_int : Text → Option ℕ
parse_int [] = none
parse_int (c ∷ s) = some (c - 48)

abbrev args : List Text
args = codes "--gate" ∷ codes "4" ∷ codes "-q" ∷ []

abbrev parsed : Options
parsed = record { gate = some 4; quick = true; bail = false; help = false }

parses : parse_args parse_int defaults args ≡ some parsed
unfolding parse_args text_eq starts_with
parses = refl
