-- ===== src/Chaos.antt =====
-- apps/pipeline/src/simulation/chaos.service.ts: the rows that it writes, and the outages of the sinks
-- that it simulates. What the statements draw is a parameter: a new id, uuid and time, the order by
-- RANDOM(), and the sum of `jsonb_set`, which may throw.
pub mod Outage
pub mod Burst
mod Examples
use optio_test.Prelude.{
  ℕ, zero, suc, ◌+◌, ◌*◌, max, Bool, true, false, Option, none, some, List, [], ◌∷◌, ◌++◌, map,
  length, take, ◌==◌, if◌then◌else◌,
}
use optio_test.Prelude.Order.{select}
use optio_test.Prelude.Text.{Text, codes, or_text}
use optio_test.Prelude.Decimal.{show}
use optio_test.Types.{Json, bool, num, text, obj, Fields, end, field, active}
use optio_test.Source.{SourceRow}
use optio_test.Breaker.{CircuitBreaker, Readings, trip}

-- What an INSERT draws: the id and uuid of the row and NOW(), with the clock of the process as
-- `Date.now()` and as an ISO text.
pub record Stamp : Type 0 where
  pub id : ℕ
  pub uuid : Text
  pub now_us : ℕ
  pub date_now : ℕ
  pub iso : Text

new_row : Stamp → Text → Json → Bool → SourceRow
new_row s tenant_id payload is_corrupted = record {
  id = s.id;
  uuid = s.uuid;
  tenant_id = tenant_id;
  payload = payload;
  version = 1;
  status = active;
  is_corrupted = is_corrupted;
  created_at_us = s.now_us;
  updated_at_us = s.now_us;
}

corrupted_payload : Stamp → Json
corrupted_payload s = obj (
    field (codes "customer_id") (text (codes "corrupted_cust_" ++ show s.date_now)) (
      field (codes "first_name") (text (codes "Poison")) (
        field (codes "last_name") (text (codes "Pill")) (
          field (codes "email") (text (codes "malformed-email-address")) (
            field (codes "account_tier") (text (codes "UNSUPPORTED_TIER_TYPE")) (
              field (codes "balance") (text (codes "NOT_A_VALID_NUMERIC_BALANCE")) (
                field (codes "metadata")
                  (obj (
                    field (codes "corrupted") (bool true) (
                      field (codes "injected_by") (text (codes "chaos_service"))
                        (field (codes "timestamp") (text s.iso) end))))
                  end)))))))

-- The table with the poison pill, and its id and uuid.
unfoldable pub inject_corrupted_record :
    List SourceRow → Option Text → Stamp → List SourceRow × ℕ × Text
unfolding new_row corrupted_payload
inject_corrupted_record table tenant_id s = (
  table ++ (new_row s (or_text tenant_id (codes "tenant_chaos")) (corrupted_payload s) true ∷ []),
  s.id,
  s.uuid,
)

pub is_among : List ℕ → ℕ → Bool
is_among [] id = false
is_among (x ∷ xs) id = if x == id then true else is_among xs id

-- SET version = version + 1, payload = jsonb_set(…), updated_at = NOW()
pub with_payload : ℕ → SourceRow → Json → SourceRow
with_payload now_us r payload = record r {
  version = r.version + 1;
  payload = payload;
  updated_at_us = now_us;
}

-- `none` is the error on a balance that the cast to numeric refuses, or on a payload that
-- `jsonb_set` does not take.
pub mutated : (Json → Option Json) → ℕ → SourceRow → Option SourceRow
mutated add_balance now_us r = elim (add_balance r.payload) [
  | none ↦ none
  | some payload ↦ some (with_payload now_us r payload)
]

abbrev pub put_row : Option SourceRow → Option (List SourceRow) → Option (List SourceRow)
put_row none rest = none
put_row (some r) none = none
put_row (some r) (some rs) = some (r ∷ rs)

-- The UPDATE of the rows that were drawn; where one row throws, none is changed.
update_rows : (SourceRow → Option SourceRow) → List ℕ → List SourceRow → Option (List SourceRow)
unfolding is_among
update_rows f ids [] = some []
update_rows f ids (r ∷ rs) =
    let rest = update_rows f ids rs in
    let row = if is_among ids r.id then f r else some r in put_row row rest

mutation_payload : Stamp → ℕ → Json
mutation_payload s i = obj (
    field (codes "customer_id")
      (text (codes "mutation_" ++ (show s.date_now ++ (codes "_" ++ show i))))
      (field (codes "first_name") (text (codes "Mutation")) (
        field (codes "last_name") (text (codes "User" ++ show i)) (
          field (codes "email") (text (codes "mutation_" ++ (show i ++ codes "@example.com"))) (
            field (codes "account_tier") (text (codes "STANDARD")) (
              field (codes "balance") (num (show (200 + i * 10))) (
                field (codes "metadata")
                  (obj (
                    field (codes "tag") (text (codes "chaos_burst"))
                      (field (codes "generated_at") (text s.iso) end)))
                  end)))))))

-- The rows that the fallback inserts, from the i-th on.
inserted_rows : (ℕ → Stamp) → ℕ → ℕ → List SourceRow
unfolding new_row mutation_payload
inserted_rows stamps zero i = []
inserted_rows stamps (suc n) i =
    new_row (stamps i) (codes "tenant_chaos") (mutation_payload (stamps i) i) false
    ∷ inserted_rows stamps n (suc i)

-- ORDER BY RANDOM() LIMIT $1
pub candidates : (List SourceRow → List SourceRow) → ℕ → List SourceRow → List ℕ
candidates by_random count table =
    map (λ (r : SourceRow). r.id) (take (max 1 count) (by_random table))

-- The table, and `mutatedCount`, `none` where the UPDATE throws.
unfoldable pub generate_source_mutations :
    (List SourceRow → List SourceRow)
    → (Json → Option Json)
    → (ℕ → Stamp)
    → ℕ
    → ℕ
    → List SourceRow
    → List SourceRow × Option ℕ
unfolding candidates update_rows is_among inserted_rows mutated with_payload
generate_source_mutations by_random add_balance stamps now_us count table =
    let ids = candidates by_random count table in
    let mutated_count = length (select (λ r. is_among ids r.id) table) in
    elim (update_rows (mutated add_balance now_us) ids table) [
      | none ↦ (table, none)
      | some updated ↦
          if mutated_count == 0
          then (updated ++ inserted_rows stamps (max 1 count) 0, some (max 1 count))
          else (updated, some mutated_count)
    ]

pub data OutageTarget : Type 0 where
  elasticsearch rabbitmq : OutageTarget

pub record Breakers : Type 0 where
  pub es_circuit_breaker : CircuitBreaker
  pub rmq_circuit_breaker : CircuitBreaker

-- The breakers, and the duration of the outage.
unfoldable pub simulate_sink_outage :
    Breakers → OutageTarget → ℕ → Readings → Breakers × OutageTarget × ℕ
simulate_sink_outage b elasticsearch duration_ms r =
    let duration = max 100 duration_ms in
    (
      record b { es_circuit_breaker = trip b.es_circuit_breaker (some duration) r },
      elasticsearch,
      duration,
    )
simulate_sink_outage b rabbitmq duration_ms r =
    let duration = max 100 duration_ms in
    (
      record b { rmq_circuit_breaker = trip b.rmq_circuit_breaker (some duration) r },
      rabbitmq,
      duration,
    )
