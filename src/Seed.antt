-- ===== src/Seed.antt =====
-- scripts/seed.js: the sizes, the rows that a batch generates, and the loop over the batches. What
-- `Math.random()` picks from a pool, and the tier that it decides, are given by the index of the row.
pub mod Chunks
mod Examples
use optio_test.Prelude.{
  ℕ, zero, suc, ◌+◌, ◌-◌, ◌*◌, ◌%◌, min, max, ltb, Bool, true, false, List, [], ◌∷◌, ◌++◌, length,
  if◌then◌else◌,
}
use optio_test.Prelude.Text.{Text, codes}
use optio_test.Prelude.Decimal.{show}
use optio_test.Types.{Json, num, text, obj, end, field, RecordStatus, active}
use optio_test.Breaker.{Draw}

-- `Math.max(1, …)` and `Math.min(5000, Math.max(500, …))` of the numbers parsed.
unfoldable pub total_count : ℕ → ℕ
total_count n = max 1 n

unfoldable pub batch_size : ℕ → ℕ
batch_size n = min 5000 (max 500 n)

-- `rand < 0.70`, `rand < 0.95`
get_account_tier : Draw → Text
get_account_tier r =
    if ltb (100 * r.num) (70 * r.den)
    then codes "STANDARD"
    else if ltb (100 * r.num) (95 * r.den)
    then codes "PREMIUM"
    else codes "ENTERPRISE"

tenant : ℕ → Text
tenant zero = codes "tenant_alpha"
tenant (suc zero) = codes "tenant_beta"
tenant (suc (suc zero)) = codes "tenant_gamma"
tenant (suc (suc (suc zero))) = codes "tenant_delta"
tenant (suc (suc (suc (suc n)))) = codes "tenant_epsilon"

-- What is drawn for one row; `balance` and `created_at` as they are stored.
pub record Picks : Type 0 where
  pub tier : Draw
  pub first_name : Text
  pub last_name : Text
  pub balance : Text
  pub created_at : ℕ
  pub uuid : Text
  pub metadata : Json

pub record SeedRow : Type 0 where
  pub uuid : Text
  pub tenant_id : Text
  pub payload : Json
  pub version : ℕ
  pub status : RecordStatus
  pub is_corrupted : Bool
  pub created_at : ℕ
  pub updated_at : ℕ

pub seed_row : ℕ → Picks → SeedRow
unfolding get_account_tier tenant
seed_row global_id p =
    let number = show (1000000 + global_id) in
    record {
      uuid = p.uuid;
      tenant_id = tenant (global_id % 5);
      payload = obj (
          field (codes "customer_id") (text (codes "CUST-" ++ number)) (
            field (codes "first_name") (text p.first_name) (
              field (codes "last_name") (text p.last_name) (
                field (codes "email")
                  (text (codes "user." ++ (number ++ codes "@example-corp.com")))
                  (field (codes "account_tier") (text (get_account_tier p.tier)) (
                    field (codes "balance") (num p.balance)
                      (field (codes "metadata") p.metadata end)))))));
      version = 1;
      status = active;
      is_corrupted = false;
      created_at = p.created_at;
      updated_at = p.created_at;
    }

unfoldable pub generate_batch : (ℕ → Picks) → ℕ → ℕ → List SeedRow
unfolding seed_row
generate_batch picks start_index zero = []
generate_batch picks start_index (suc count) =
    seed_row start_index (picks start_index) ∷ generate_batch picks (suc start_index) count

-- The statements of the loop, each with its rows, where every one succeeds. At most `rounds` are run;
-- each generates a row at least.
unfoldable pub run_seeder : (ℕ → Picks) → ℕ → ℕ → ℕ → ℕ → List (List SeedRow)
run_seeder picks total size zero records_generated = []
run_seeder picks total size (suc rounds) records_generated =
    let current_batch_size = min size (total - records_generated) in
    let chunk = generate_batch picks (records_generated + 1) current_batch_size in
    let rest = run_seeder picks total size rounds (records_generated + current_batch_size) in
    if ltb records_generated total then chunk ∷ rest else []

-- The parameters that a statement binds.
abbrev pub bound_parameters : List SeedRow → ℕ
bound_parameters chunk = 8 * length chunk
