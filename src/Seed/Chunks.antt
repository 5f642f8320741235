-- ===== src/Seed/Chunks.antt =====
-- The statements of the seeding together hold the rows asked for.
use optio_test.Prelude.{
  ℕ, zero, suc, ◌+◌, ◌-◌, ◌≤◌, ◌<◌, ◌≡◌, refl, ap, ◌∙◌, inl, inr, min, ltb, List, [], ◌∷◌, ◌++◌,
  length, All, arith, Bool-cases,
}
use mathlib.Core.Path.{ap₂}
use optio_test.Seed.{
  Picks, SeedRow, total_count, batch_size, generate_batch, run_seeder, bound_parameters, seed_row,
}

pub joined : List (List SeedRow) → List SeedRow
joined [] = []
joined (c ∷ cs) = c ++ joined cs

generate_batch-length :
    (picks : ℕ → Picks) (from count : ℕ) → length (generate_batch picks from count) ≡ count
unfolding generate_batch
generate_batch-length picks from zero = omega arith
generate_batch-length picks from (suc count) =
    omega (arith, generate_batch-length picks (suc from) count)

same_batch :
    (picks : ℕ → Picks) {i j m n : ℕ}
    → i ≡ j
    → m ≡ n
    → generate_batch picks i m ≡ generate_batch picks j n
same_batch picks e f = ap₂ (λ i m. generate_batch picks i m) e f

generate_batch-plus :
    (picks : ℕ → Picks) (from m n : ℕ)
    → generate_batch picks from m ++ generate_batch picks (from + m) n
      ≡ generate_batch picks from (m + n)
unfolding generate_batch
generate_batch-plus picks from zero n = same_batch picks (omega arith) (omega arith)
generate_batch-plus picks from (suc m) n =
    ap (λ rs. seed_row from (picks from) ∷ rs)
      (ap (λ rs. generate_batch picks (suc from) m ++ rs)
          (same_batch picks {i = from + suc m} {j = suc from + m} (omega arith) refl)
        ∙ generate_batch-plus picks (suc from) m n)
    ∙ same_batch picks {m = suc (m + n)} {n = suc m + n} refl (omega arith)

-- With rounds enough, the statements from a number of records on hold the rows that are missing.
run_seeder-joined :
    (picks : ℕ → Picks) (total size rounds done : ℕ)
    → 0 < size
    → total ≤ done + rounds
    → joined (run_seeder picks total size rounds done)
      ≡ generate_batch picks (done + 1) (total - done)
unfolding run_seeder joined generate_batch
run_seeder-joined picks total size zero done p h =
    same_batch picks {i = done + 1} {m = 0} refl (omega (arith, h))
run_seeder-joined picks total size (suc rounds) done p h =
    let now = min size (total - done) in
    elim (Bool-cases (ltb done total)) [
      | inl more ↦
          let left : done < total = ground arith in
          rw (more, run_seeder)
            (ap (λ rs. generate_batch picks (done + 1) now ++ rs)
                (run_seeder-joined picks total size rounds (done + now) p
                    (omega (arith, left, p, h))
                  ∙ same_batch picks {i = done + now + 1} {j = done + 1 + now} (omega arith) refl)
              ∙ (generate_batch-plus picks (done + 1) now (total - (done + now))
                  ∙ same_batch picks refl (omega arith)))
      | inr none_left ↦
          rw (none_left, run_seeder) (same_batch picks {i = done + 1} {m = 0} refl (ground arith))
    ]

run_seeder-sizes :
    (picks : ℕ → Picks) (total size rounds done : ℕ)
    → All (λ chunk. length chunk ≤ size) (run_seeder picks total size rounds done)
unfolding run_seeder
run_seeder-sizes picks total size zero done = tt
run_seeder-sizes picks total size (suc rounds) done =
    let now = min size (total - done) in
    let fits = generate_batch-length picks (done + 1) now in
    elim (Bool-cases (ltb done total)) [
      | inl more ↦
          rw (more, run_seeder)
            (omega (arith, fits), run_seeder-sizes picks total size rounds (done + now))
      | inr none_left ↦ rw (none_left, run_seeder) tt
    ]

few_parameters :
    (size : ℕ) (chunks : List (List SeedRow))
    → size ≤ 5000
    → All (λ chunk. length chunk ≤ size) chunks
    → All (λ chunk. bound_parameters chunk ≤ 40000) chunks
few_parameters size [] h a = tt
few_parameters size (c ∷ cs) h (a, as') = (omega (arith, h, a), few_parameters size cs h as')

-- The seeding ends after as many batches as rows were asked for, or fewer: its statements together
-- hold the rows with the numbers from 1 to the total, in order, whatever the batch size, and none
-- binds more than 40,000 parameters.
pub run_seeder_lem :
    (picks : ℕ → Picks) (count size : ℕ)
    → let total = total_count count in
      let statements = run_seeder picks total (batch_size size) total 0 in
      (joined statements ≡ generate_batch picks 1 total)
      × (length (joined statements) ≡ total)
      × All (λ chunk. bound_parameters chunk ≤ 40000) statements
unfolding batch_size
run_seeder_lem picks count size =
    let total = total_count count in
    let all =
      run_seeder-joined picks total (batch_size size) total 0 (omega arith) (omega arith)
      ∙ same_batch picks (omega arith) (omega arith) in
    (
      all,
      ap length all ∙ generate_batch-length picks 1 total,
      few_parameters (batch_size size) (run_seeder picks total (batch_size size) total 0)
          (omega arith) (run_seeder-sizes picks total (batch_size size) total 0),
    )
