-- ===== src/Verify/Isolation.antt =====
-- scripts/verify/gate4.js: the run of the fourth gate. What the pipeline, the database and the index
-- answer is given by `Answers`. A BIGINT column arrives as its text, which is truthy, the zero too.
pub mod Contexts
pub mod Passing
mod Examples
use optio_test.Prelude.{
  ℕ, ◌+◌, Bool, true, false, ◌&&◌, ◌||◌, not, Option, none, some, List, [], ◌∷◌, map, length, leb,
  ◌==◌, if◌then◌else◌, or_default, or_nonzero, ◌++◌,
}
use optio_test.Prelude.Order.{select}
use optio_test.Prelude.Text.{Text, codes, not_empty}
use optio_test.Prelude.Decimal.{show}
use optio_test.Prelude.Int.{ℤ, pos, sub_ℕ}
use optio_test.Types.{
  Json, null, bool, num, text, arr, obj, Items, Fields, RawItem, no_item, of_record, of_item,
  DlqPayload, json, raw_item, DlqEntry,
}
use optio_test.Dlq.{DlqTable, is_pending}
use optio_test.Runner.{unique_ids}
use optio_test.Verify.{format_gate_result}
use optio_test.Verify.Sinks.{Gate4Result, is_zero, evaluate_gate4_partial_failure}

abbrev pub has_id : List ℕ → Option ℕ → Bool
has_id [] id = false
has_id (x ∷ xs) none = false
has_id (x ∷ xs) (some id) = (x == id) || has_id xs (some id)

-- The rows of the table stand in the order of their keys.
unfoldable pub get_dlq_entries_for_records : DlqTable → List ℕ → List DlqEntry
get_dlq_entries_for_records t ids = select (λ (e : DlqEntry). has_id ids e.record_id) t.rows

-- DELETE FROM dead_letter_queue
abbrev pub emptied : DlqTable → DlqTable
emptied t = record t { rows = [] }

-- `r.record_id || r.id`
abbrev pub record_key : DlqEntry → ℕ
record_key e = or_default e.record_id e.id

unfoldable pub unique_dlq_records : List DlqEntry → ℕ
unique_dlq_records rows = length (unique_ids [] (map record_key rows))

abbrev pub has_keys : Json → Bool
has_keys null = false
has_keys (bool b) = true
has_keys (num n) = true
has_keys (text s) = true
has_keys (arr Items.nil) = false
has_keys (arr (Items.cons x xs)) = true
has_keys (obj Fields.end) = false
has_keys (obj (Fields.field k v fs)) = true

-- `parse` stands for JSON.parse, with `none` for what it throws on.
abbrev pub parsed_payload : (Text → Option Json) → Json → Json
parsed_payload parse (text s) = or_default (parse s) (text s)
parsed_payload parse null = null
parsed_payload parse (bool b) = bool b
parsed_payload parse (num n) = num n
parsed_payload parse (arr xs) = arr xs
parsed_payload parse (obj fs) = obj fs

abbrev is_given {ℓ} : {A : Type ℓ} → Option A → Bool
is_given none = false
is_given (some x) = true

-- Of an item of a bulk response only the properties that the sink reads are counted.
unfoldable pub has_payload : (Text → Option Json) → DlqPayload → Bool
has_payload parse (json j) = has_keys (parsed_payload parse j)
has_payload parse (raw_item no_item) = false
has_payload parse (raw_item (of_record r)) = true
has_payload parse (raw_item (of_item a)) = is_given a.status || is_given a.error

unfoldable pub has_context : (Text → Option Json) → DlqEntry → Bool
has_context parse e =
    has_payload parse e.payload
    && (not_empty e.error_code && (not_empty e.error_message && is_pending e.status))

unfoldable pub all_context : (Text → Option Json) → List DlqEntry → Bool
unfolding has_context
all_context parse [] = true
all_context parse (e ∷ es) = if has_context parse e then all_context parse es else false

-- A value, or the message of what was thrown.
pub data Answer {ℓ} (A : Type ℓ) : Type ℓ where
  replied : A → Answer A
  failed : Text → Answer A

-- One round of the wait: the count, `none` for null, and the rows, `none` where the query threw.
pub record Poll : Type 0 where
  pub count : Option ℕ
  pub entries : Option (List DlqEntry)

-- `quiesced` is the wait for quiescence and the DELETE; `seeded` the ids inserted and those of the
-- corrupted; `polls` the rounds for which the time allowed lasts.
pub record Answers : Type 0 where
  pub quiesced : Answer Bool
  pub initial_count : Answer (Option ℕ)
  pub seeded : Answer (List ℕ × List ℕ)
  pub polls : List Poll
  pub final_count : Option ℕ
  pub final_entries : Option (List DlqEntry)

pub record Seen : Type 0 where
  pub current_es_count : ℕ
  pub rows : List DlqEntry

abbrev after_poll : Poll → Seen → Seen
after_poll p s = record {
  current_es_count = or_default p.count s.current_es_count;
  rows = or_default p.entries s.rows;
}

-- `writtenToEs >= expectedWritten`, with both differences moved to the other side.
abbrev has_settled : ℕ → ℕ → ℕ → Seen → Bool
has_settled initial total target s =
    leb (total + initial) (s.current_es_count + target) && leb target (unique_dlq_records s.rows)

unfoldable pub await_ingestion : ℕ → ℕ → ℕ → Seen → List Poll → Seen
await_ingestion initial total target s [] = s
await_ingestion initial total target s (p ∷ ps) =
    let s' = after_poll p s in
    let rest = await_ingestion initial total target s' ps in
    if has_settled initial total target s' then s' else rest

-- The last look at the rows counts only if it found some.
abbrev last_entries : Option (List DlqEntry) → List DlqEntry → List DlqEntry
last_entries none seen = seen
last_entries (some []) seen = seen
last_entries (some (e ∷ es)) seen = e ∷ es

pub record Gate4Run : Type 0 where
  pub result : Gate4Result
  pub quiesced : Option Bool
  pub error : Option Text

failed_run : Text → Gate4Run
failed_run error = record {
  result = record {
    passed = false;
    written_count = pos 0;
    dlq_count = 0;
    batch_rolled_back = true;
    context_sufficient = false;
    details = error;
    output = format_gate_result (codes "G4 partial batch failure") (codes "FAIL") error;
  };
  quiesced = none;
  error = some error;
}

abbrev rolled_back : Text
rolled_back =
    codes "Total batch rollback detected: 0 records written out of 500 due to poison pill errors."

-- Steps 4 to 6.
pub reconcile : (Text → Option Json) → ℕ → ℕ → Bool → ℕ → List DlqEntry → Gate4Run
unfolding failed_run
reconcile parse initial target quiesced count rows =
    let written = sub_ℕ count initial in
    let dlq_count = unique_dlq_records rows in
    if is_zero written then failed_run rolled_back else record {
      result =
          evaluate_gate4_partial_failure written dlq_count false
            ((dlq_count == target) && all_context parse rows);
      quiesced = some quiesced;
      error = none;
    }

seed_error : ℕ → ℕ → List ℕ → List ℕ → Text
seed_error total target inserted corrupted =
    codes "Failed to seed exact test batch: expected "
    ++ (show total
        ++ (codes " total ("
            ++ (show target
                ++ (codes " poisoned), got "
                    ++ (show (length inserted)
                        ++ (codes " inserted ("
                            ++ (show (length corrupted) ++ codes " poisoned)")))))))

-- Steps 3 to 6, with the batch in the source.
pub observe : (Text → Option Json) → Answers → ℕ → ℕ → ℕ → Bool → Gate4Run
unfolding reconcile
observe parse a initial total target quiesced =
    let start : Seen = record { current_es_count = initial; rows = [] } in
    let seen = await_ingestion initial total target start a.polls in
    reconcile parse initial target quiesced (or_default a.final_count seen.current_es_count)
      (last_entries a.final_entries seen.rows)

-- Step 2, the check of the batch.
inject : (Text → Option Json) → Answers → ℕ → ℕ → ℕ → Bool → Answer (List ℕ × List ℕ) → Gate4Run
unfolding failed_run seed_error observe
inject parse a initial total target quiesced (failed e) = failed_run e
inject parse a initial total target quiesced (replied (inserted, corrupted)) =
    if (length inserted == total) && (length corrupted == target)
    then observe parse a initial total target quiesced
    else failed_run (seed_error total target inserted corrupted)

abbrev with_count : (ℕ → Gate4Run) → Answer (Option ℕ) → Gate4Run
unfolding failed_run
with_count k (failed e) = failed_run e
with_count k (replied n) = k (or_default n 0)

abbrev with_quiescence : (Bool → Gate4Run) → Answer Bool → Gate4Run
unfolding failed_run
with_quiescence k (failed e) = failed_run e
with_quiescence k (replied q) = k q

-- `batch_total` and `corrupted_count` are the options, with `none` for one left out.
unfoldable pub run_gate4 : (Text → Option Json) → Option ℕ → Option ℕ → Answers → Gate4Run
unfolding inject
run_gate4 parse batch_total corrupted_count a =
    let total = or_nonzero batch_total 500 in
    let target = or_nonzero corrupted_count 3 in
    with_quiescence
      (λ q. with_count (λ n. inject parse a n total target q a.seeded) a.initial_count) a.quiesced
