-- ===== src/Verify/Quiescence/Examples.antt =====
-- A wait that ends with its time, on a telemetry with a lag.
use optio_test.Prelude.{◌≡◌, refl, true, none, some, List, [], ◌∷◌}
use optio_test.Prelude.Text.{codes, text_eq}
use optio_test.Verify.Quiescence.{
  Rest, QuiescenceOptions, Look, Quiescence, Tells, wait_for_pipeline_quiescence, is_over,
  is_quiescent, wait_for_pipeline_quiescence_lem,
}

abbrev options : QuiescenceOptions
options = record {
  timeout_ms = some 30000;
  unreachable_grace_ms = none;
  require_backfill_complete = true;
}

abbrev behind : Rest
behind = record { backfill_status = some (codes "COMPLETED"); incremental_lag_records = some 7 }

abbrev looks : List Look
looks =
    record {
      telemetry = none;
      missed_at = 1000;
      compared_at = 1000;
      ended_at = 1000;
      elapsed_at = 1000;
    }
    ∷ record {
      telemetry = some behind;
      missed_at = 31500;
      compared_at = 31500;
      ended_at = 31500;
      elapsed_at = 31500;
    }
    ∷ []

wait_for_pipeline_quiescence_lem_example :
    (r : Quiescence) × (wait_for_pipeline_quiescence options 1000 none looks ≡ some r)
    × Tells options r
unfolding is_over
wait_for_pipeline_quiescence_lem_example =
    wait_for_pipeline_quiescence_lem options 1000 none looks refl

abbrev at_rest : Rest
at_rest = record { backfill_status = some (codes "COMPLETED"); incremental_lag_records = some 0 }

rests_now : is_quiescent options at_rest ≡ true
unfolding is_quiescent text_eq
rests_now = refl
