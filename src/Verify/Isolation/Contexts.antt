-- ===== src/Verify/Isolation/Contexts.antt =====
-- scripts/verify/gate4.js on the entries that apps/pipeline/src/runners put in the dead letter queue.
use mathlib.Core.List.{map-append, Mem, not-mem-nil, eq-or-mem_of_mem-cons}
use mathlib.Core.Logic.Or
use mathlib.Core.HLevel.{⊥_prop}
use optio_test.Prelude.{
  ◌+◌, ℕ, suc, ◌≡◌, refl, sym, ap, subst, ◌∙◌, inl, inr, ◌⊎◌, Bool, true, false, ◌&&◌, Option, none,
  some, List, [], ◌∷◌, ◌++◌, map, length, arith, ◌==◌, ==_iff, Bool-cases, both_true, Member,
}
use optio_test.Prelude.Text.{Text, not_empty}
use optio_test.Types.{
  Json, null, bool, num, text, arr, obj, Fields, SourceRecord, SinkTarget, RawItem, FailureEntry,
  BatchResult, DlqEntry, json,
}
use optio_test.Batches.{ids, failed_ids, is_described, all_described}
use optio_test.Dlq.{NewDlqEntry, stored, stored_from}
use optio_test.Runner.{
  is_truthy, find_record, entry_payload, dlq_entry, dlq_entries, failed_count, unique_ids,
}
use optio_test.Verify.Isolation.{
  has_payload, has_context, all_context, record_key, unique_dlq_records,
}

-- The payload of a source record is an object with a property.
abbrev pub has_fields : Json → Bool
has_fields (obj (Fields.field k v fs)) = true
has_fields _ = false

unfoldable pub all_fields : List SourceRecord → Bool
all_fields [] = true
all_fields (r ∷ rs) = has_fields r.payload && all_fields rs

no_fields : ¬ (false ≡ true)
no_fields e = cc

module _ (parse : Text → Option Json) where
  fields-kept :
      (j : Json) → has_fields j ≡ true → (is_truthy j ≡ true) × (has_payload parse (json j) ≡ true)
  unfolding has_payload
  fields-kept null e = absurd (no_fields e)
  fields-kept (bool b) e = absurd (no_fields e)
  fields-kept (num n) e = absurd (no_fields e)
  fields-kept (text s) e = absurd (no_fields e)
  fields-kept (arr xs) e = absurd (no_fields e)
  fields-kept (obj Fields.end) e = absurd (no_fields e)
  fields-kept (obj (Fields.field k v fs)) e = (refl, refl)

  payload-kept :
      (r : SourceRecord) (item : RawItem)
      → has_fields r.payload ≡ true
      → has_payload parse (entry_payload (some r) item) ≡ true
  unfolding entry_payload
  payload-kept r item e = let (truthy, kept) = fields-kept r.payload e in rw truthy kept

different : (a b : ℕ) → a ≡ b → ¬ ((a == b) ≡ false)
different a b e = ground (arith, ==_iff a b)

-- A record of the batch is found, and has a payload.
find_record_lem :
    (rs : List SourceRecord) (id : ℕ)
    → all_fields rs ≡ true
    → ((find_record id rs ≡ none) × ¬ (Mem id (ids rs)))
      ⊎ ((q : SourceRecord) × (find_record id rs ≡ some q) × (has_fields q.payload ≡ true))
unfolding find_record all_fields
find_record_lem [] id e = inl (refl, not-mem-nil)
find_record_lem (r ∷ rs) id e =
    let (first, others) = both_true _ _ e in
    elim (find_record_lem rs id others) [
      | inr (q, h, f) ↦ inr (q, rw (find_record, h) refl, f)
      | inl (h, m) ↦ elim (Bool-cases (r.id == id)) [
        | inl same ↦ inr (r, rw (find_record, h, same) refl, first)
        | inr other ↦ inl (
          rw (find_record, h, other) refl,
          λ k. Or.elim ⊥_prop (eq-or-mem_of_mem-cons k) (λ eq. different r.id id (sym eq) other) m,
        )
      ]
    ]

module _ (parse : Text → Option Json) (rs : List SourceRecord) (fields : all_fields rs ≡ true) where
  entry_payload-kept :
      (id : ℕ) (item : RawItem)
      → Mem id (ids rs)
      → has_payload parse (entry_payload (find_record id rs) item) ≡ true
  entry_payload-kept id item m = elim (find_record_lem rs id fields) [
    | inl (h, n) ↦ absurd (n m)
    | inr (q, h, f) ↦ rw h (payload-kept parse q item f)
  ]

  -- Every entry made of the failures of a batch has what a replay needs.
  entries-context :
      (target : SinkTarget) (fs : List FailureEntry) (id now : ℕ)
      → ((x : ℕ) → Member x (failed_ids fs) → Mem x (ids rs))
      → all_described fs ≡ true
      → all_context parse (stored_from (map (dlq_entry target rs) fs) id now) ≡ true
  unfolding all_context has_context all_described stored_from dlq_entry
  entries-context target [] id now inside e = refl
  entries-context target (f ∷ fs) id now inside e =
      let (first, others) = both_true (is_described f) (all_described fs) e in
      let (code, reason) = both_true (not_empty f.error_code) (not_empty f.error_reason) first in
      rw (entry_payload-kept f.record_id f.raw_item (inside f.record_id (inl refl)), code, reason)
        (entries-context target fs (suc id) now (λ x m. inside x (inr m)) others)

all_context-append :
    (parse : Text → Option Json) (xs ys : List DlqEntry)
    → all_context parse xs ≡ true
    → all_context parse ys ≡ true
    → all_context parse (xs ++ ys) ≡ true
unfolding all_context
all_context-append parse [] ys p q = q
all_context-append parse (x ∷ xs) ys p q = elim (Bool-cases (has_context parse x)) [
  | inl e ↦
      let p' : all_context parse xs ≡ true = rw (e, all_context) at p in
      rw e (all_context-append parse xs ys p' q)
  | inr e ↦ let p' : false ≡ true = rw (e, all_context) at p in absurd (no_fields p')
]

stored_from-append :
    (fs gs : List NewDlqEntry) (id now : ℕ)
    → stored_from (fs ++ gs) id now ≡ stored_from fs id now ++ stored_from gs (id + length fs) now
unfolding stored_from
stored_from-append [] gs id now = ap (λ n. stored_from gs n now) (omega arith)
stored_from-append (f ∷ fs) gs id now = ap (◌∷◌ (stored f id now)) (
    stored_from-append fs gs (suc id) now
    ∙ ap (λ n. stored_from fs (suc id) now ++ stored_from gs n now) (omega arith))

keys-stored_from :
    (target : SinkTarget) (rs : List SourceRecord) (fs : List FailureEntry) (id now : ℕ)
    → map record_key (stored_from (map (dlq_entry target rs) fs) id now) ≡ failed_ids fs
unfolding stored_from dlq_entry
keys-stored_from target rs [] id now = refl
keys-stored_from target rs (f ∷ fs) id now =
    ap (◌∷◌ f.record_id) (keys-stored_from target rs fs (suc id) now)

-- The rows that the failures of both sinks leave.
module _ (rs : List SourceRecord) (es rmq : BatchResult) (id now : ℕ) where
  abbrev pub left : List DlqEntry
  left = stored_from (dlq_entries rs es rmq) id now

  pub split-left :
      left
      ≡ stored_from (map (dlq_entry SinkTarget.elasticsearch rs) es.failures) id now
        ++ stored_from
            (map (dlq_entry SinkTarget.rabbitmq rs) rmq.failures)
            (id + length (map (dlq_entry SinkTarget.elasticsearch rs) es.failures))
            now
  split-left = stored_from-append (map (dlq_entry SinkTarget.elasticsearch rs) es.failures) _ id now

  pub keys-left : map record_key left ≡ failed_ids es.failures ++ failed_ids rmq.failures
  keys-left =
      ap (map record_key) split-left
      ∙ map-append record_key
          (stored_from (map (dlq_entry SinkTarget.elasticsearch rs) es.failures) id now) _
      ∙ rw
          (
            keys-stored_from SinkTarget.elasticsearch rs es.failures id now,
            keys-stored_from SinkTarget.rabbitmq rs rmq.failures _ now,
          )
          refl

  -- The gate counts the records that the runner counts as failed.
  pub unique-left : unique_dlq_records left ≡ failed_count es rmq
  unfolding unique_dlq_records
  unique-left = ap (λ ks. length (unique_ids [] ks)) keys-left

  pub left-context :
      (parse : Text → Option Json)
      → all_fields rs ≡ true
      → ((x : ℕ) → Member x (failed_ids es.failures) → Mem x (ids rs))
      → ((x : ℕ) → Member x (failed_ids rmq.failures) → Mem x (ids rs))
      → all_described es.failures ≡ true
      → all_described rmq.failures ≡ true
      → all_context parse left ≡ true
  left-context parse fields es_inside rmq_inside es_said rmq_said =
      subst (λ q. all_context parse q ≡ true) (sym split-left)
        (all_context-append parse _ _
          (entries-context parse rs fields SinkTarget.elasticsearch es.failures id now es_inside
            es_said)
          (entries-context parse rs fields SinkTarget.rabbitmq rmq.failures _ now rmq_inside
            rmq_said))
