-- ===== src/Seed/Examples.antt =====
-- Three rows, in one statement.
use optio_test.Prelude.{ℕ, ◌≤◌, ◌≡◌, refl, List, length, All, arith}
use optio_test.Prelude.Text.{codes}
use optio_test.Types.{obj, end}
use optio_test.Seed.{
  Picks, SeedRow, total_count, batch_size, generate_batch, run_seeder, bound_parameters,
}
use optio_test.Seed.Chunks.{joined, run_seeder_lem}

abbrev picks : ℕ → Picks
picks i = record {
  tier = record { num = 9; den = 10; below_one = omega arith };
  first_name = codes "Nino";
  last_name = codes "Weber";
  balance = codes "12.5";
  created_at = i;
  uuid = codes "u";
  metadata = obj end;
}

abbrev statements : List (List SeedRow)
statements = run_seeder picks (total_count 3) (batch_size 2) (total_count 3) 0

one_statement : length statements ≡ 1
unfolding run_seeder total_count batch_size
one_statement = refl

run_seeder_lem_example :
    (joined statements ≡ generate_batch picks 1 (total_count 3))
    × (length (joined statements) ≡ total_count 3)
    × All (λ chunk. bound_parameters chunk ≤ 40000) statements
run_seeder_lem_example = run_seeder_lem picks 3 2
