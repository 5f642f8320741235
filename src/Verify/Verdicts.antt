-- ===== src/Verify/Verdicts.antt =====
-- What the verdict of the first gate means.
use optio_test.Prelude.{ℕ, ◌≤◌, ◌<◌, ◌≡◌, ◌↔◌, true, arith}
use optio_test.Prelude.Text.{Text}
use optio_test.Verify.{evaluate_gate1_resumption}

-- The first gate passes exactly if the process resumed from a positive id and ended at the highest
-- id or beyond. The id at which it was killed plays no part: an id of the resumption above it is
-- taken to be below a later kill.
pub gate1_lem :
    (locale : ℕ → Text) (killed_at resumed_at max_id final_processed_id : ℕ)
    → ((evaluate_gate1_resumption locale killed_at resumed_at max_id final_processed_id).passed
        ≡ true)
      ↔ ((0 < resumed_at) × (max_id ≤ final_processed_id))
unfolding evaluate_gate1_resumption
gate1_lem locale killed_at resumed_at max_id final_processed_id = ground arith
