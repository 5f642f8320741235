-- ===== src/Chaos/Examples.antt =====
-- An outage of Elasticsearch, and a burst on a table of two rows.
use optio_test.Prelude.{
  ℕ, ◌+◌, ◌/◌, ◌≤◌, ◌<◌, ◌≡◌, ◌⊎◌, refl, inl, inr, true, false, Option, none, some, List, [], ◌∷◌,
  Member, arith, or_default,
}
use optio_test.Prelude.Text.{codes}
use optio_test.Types.{Json}
use optio_test.Samples.{breaker, readings, sample_row}
use optio_test.Source.{SourceRow, is_newer}
use optio_test.Breaker.{opened, healthy}
use optio_test.Breaker.Execute.{Call, returned, slept_ms}
use optio_test.Chaos.{
  Stamp, Breakers, elasticsearch, simulate_sink_outage, generate_source_mutations, candidates,
  is_among, mutated,
}
use optio_test.Chaos.Outage.{breaker_of, other, simulate_sink_outage_lem}
use optio_test.Chaos.Burst.{Throws, generate_source_mutations_lem}

abbrev breakers : Breakers
breakers = record { es_circuit_breaker = breaker; rmq_circuit_breaker = breaker }

abbrev call : Call ℕ
call = record { entered_at = 9; probe = healthy; operation = returned 1 900 }

abbrev table : List SourceRow
table = sample_row 1 false ∷ sample_row 2 false ∷ []

abbrev stamps : ℕ → Stamp
stamps i = record {
  id = i + 10;
  uuid = codes "u";
  now_us = 5000000;
  date_now = 5000;
  iso = codes "d";
}

-- The text of a balance is no number here.
abbrev raised : Json → Option Json
raised (Json.text s) = none
raised j = some j

abbrev burst : List SourceRow × Option ℕ
burst = generate_source_mutations (λ rs. rs) raised stamps 5000000 1 table

first_is_drawn : burst.1 ≡ some 1
unfolding generate_source_mutations optio_test.Prelude.Order.select
first_is_drawn = refl

generate_source_mutations_lem_example :
    let ids = candidates (λ rs. rs) 1 table in
    let f = mutated raised 5000000 in
    ((burst.1 ≡ none) × (burst.0 ≡ table) × Throws f ids table)
    ⊎ ((n : ℕ) × (burst.1 ≡ some n)
        × (((is_among ids 1 ≡ true)
              × ((q : SourceRow) × (f (sample_row 1 false) ≡ some q)
                  × Member q burst.0
                  × (q.version ≡ 3)
                  × (is_newer 4999 7 q ≡ true)))
            ⊎ ((is_among ids 1 ≡ false) × Member (sample_row 1 false) burst.0)))
generate_source_mutations_lem_example =
    generate_source_mutations_lem (λ rs. rs) raised stamps 5000000 1 table (sample_row 1 false) 4999
      7 (inl refl) (omega arith)

abbrev poisoned : List SourceRow × Option ℕ
poisoned = generate_source_mutations (λ rs. rs) (λ j. none) stamps 5000000 1 table

leaves_the_table : (poisoned.1 ≡ none) × (poisoned.0 ≡ table)
unfolding generate_source_mutations
leaves_the_table = (refl, refl)

simulate_sink_outage_lem_example :
    let after = simulate_sink_outage breakers elasticsearch 30 readings in
    ((breaker_of elasticsearch after.0).state ≡ opened)
    × (breaker_of (other elasticsearch) after.0 ≡ breaker_of (other elasticsearch) breakers)
    × (100 ≤ after.2)
    × (30 ≤ after.2)
    × (9 + after.2 ≤ 9 + or_default (slept_ms (breaker_of elasticsearch after.0) call) 0)
simulate_sink_outage_lem_example =
    simulate_sink_outage_lem breakers elasticsearch 30 readings call (omega arith)
