-- ===== src/Batches.antt =====
-- The contract of both sinks of apps/pipeline/src/sinks: what the result of a batch reports.
use mathlib.Core.List.{Perm}
use optio_test.Prelude.{
  Bool, true, ◌&&◌, [], ◌∷◌, ℕ, ◌+◌, ◌≡◌, List, ◌++◌, map, arith, length, length-append, length-map,
}
use optio_test.Prelude.Text.{not_empty}
use optio_test.Prelude.Perms.{length-perm}
use optio_test.Types.{SourceRecord, FailureEntry, BatchResult}

abbrev pub failed_ids : List FailureEntry → List ℕ
failed_ids = map λ f. f.record_id

abbrev pub ids : List SourceRecord → List ℕ
ids = map λ r. r.id

-- Every record of the batch is in one of the two lists of the result, once, and the counts are the
-- lists' lengths.
pub record IsPartition (rs : List SourceRecord) (res : BatchResult) : Type 0 where
  pub split : Perm (res.successful_ids ++ failed_ids res.failures) (ids rs)
  pub successes : res.success_count ≡ length res.successful_ids
  pub rejections : res.failed_count ≡ length res.failures
  pub total : res.success_count + res.failed_count ≡ length rs

length-split :
    (rs : List SourceRecord) (good : List ℕ) (bad : List FailureEntry)
    → Perm (good ++ failed_ids bad) (ids rs)
    → length good + length bad ≡ length rs
length-split rs good bad p = omega (
  arith,
  length-perm p,
  length-append good (failed_ids bad),
  length-map bad (λ (f : FailureEntry). f.record_id),
  length-map rs (λ (r : SourceRecord). r.id),
)

pub partition :
    (rs : List SourceRecord) (res : BatchResult)
    → Perm (res.successful_ids ++ failed_ids res.failures) (ids rs)
    → res.success_count ≡ length res.successful_ids
    → res.failed_count ≡ length res.failures
    → IsPartition rs res
partition rs res p s f = record {
  split = p;
  successes = s;
  rejections = f;
  total = omega (arith, length-split rs res.successful_ids res.failures p);
}

-- What a sink says of a record that it rejects has a code and a reason.
abbrev pub is_described : FailureEntry → Bool
is_described f = not_empty f.error_code && not_empty f.error_reason

unfoldable pub all_described : List FailureEntry → Bool
all_described [] = true
all_described (f ∷ fs) = is_described f && all_described fs

pub all_described-append :
    (xs ys : List FailureEntry)
    → all_described xs ≡ true
    → all_described ys ≡ true
    → all_described (xs ++ ys) ≡ true
unfolding all_described
all_described-append [] ys p q = q
all_described-append (x ∷ xs) ys p q = ground (arith, all_described-append xs ys)
