-- ===== src/Replayer/All.antt =====
-- The replay of all pending entries: what it keeps, and what it counts.
use optio_test.Prelude.{
  ℕ, zero, suc, inl, inr, Bool, not, ◌||◌, ◌==◌, List, [], ◌∷◌, length, Bool-cases, Option-cases,
}
use optio_test.Types.{DlqEntry}
use optio_test.Dlq.{get_entry_by_id, get_pending_entries}
use optio_test.Runner.{World}
use optio_test.Replayer.Entry.{Attempt}
use optio_test.Replayer.{
  RetryResult, succeeded, failed, threw, is_resolved, retry_entry, RetrySummary, count_result,
  empty_summary, all_failed, Progress, next_progress, retry_items, retry_rounds, retry_all_pending,
}
use optio_test.Replayer.Settled.{Settled, replay-Settled}

retry_entry-Settled :
    (w : World) (a : Attempt) (id : ℕ) → Settled w → Settled (retry_entry w a id).0
unfolding retry_entry
retry_entry-Settled w a id s = elim (Bool-cases a.reads) [
  | inr k ↦ rw (k, retry_entry) s
  | inl k ↦ elim (Option-cases (get_entry_by_id w.dlq id)) [
    | inl missing ↦ rw (k, missing, retry_entry) s
    | inr (e, found) ↦ elim (Bool-cases (is_resolved e.status)) [
      | inl done ↦ rw (k, found, done, retry_entry) s
      | inr open_entry ↦ rw (k, found, open_entry, retry_entry) (replay-Settled a id e w found s)
    ]
  ]
]

module _ (attempts : ℕ → Attempt) where
  retry_items-Settled :
      (es : List DlqEntry) (w : World) (s : RetrySummary)
      → Settled w
      → Settled (retry_items attempts w s es).world
  unfolding retry_items
  retry_items-Settled [] w s v = v
  retry_items-Settled (e ∷ es) w s v =
      let (w', res) = retry_entry w (attempts s.retried) e.id in
      let v' = retry_entry-Settled w (attempts s.retried) e.id v in
      branch res (retry_items attempts w' (count_result s res) es) v'
        (retry_items-Settled es w' (count_result s res) v')
    where
      branch :
          (res : RetryResult) (rest : Progress)
          → Settled (retry_entry w (attempts s.retried) e.id).0
          → Settled rest.world
          → Settled (next_progress (retry_entry w (attempts s.retried) e.id).0 s res rest).world
      branch succeeded rest v' r = r
      branch (failed t) rest v' r = r
      branch threw rest v' r = v'

  retry_rounds-Settled :
      (fetches : ℕ → Bool) (n i : ℕ) (w : World) (s : RetrySummary)
      → Settled w
      → Settled (retry_rounds attempts fetches n i w s).world
  unfolding retry_rounds
  retry_rounds-Settled fetches zero i w s v = v
  retry_rounds-Settled fetches (suc n) i w s v =
      let items = get_pending_entries w.dlq 100 in
      let p = retry_items attempts w s items in
      let v' = retry_items-Settled items w s v in
      elim (Bool-cases (not (fetches i))) [
        | inl k ↦ rw (k, retry_rounds) v
        | inr k ↦ elim (Bool-cases (length items == 0)) [
          | inl none_left ↦ rw (k, none_left, retry_rounds) v
          | inr more ↦ elim (Bool-cases (p.has_thrown || all_failed p.summary (length items))) [
            | inl stop ↦ rw (k, more, stop, retry_rounds) v'
            | inr go ↦
                rw (k, more, go, retry_rounds)
                  (retry_rounds-Settled fetches n (suc i) p.world p.summary v')
          ]
        ]
      ]

-- The replay of all pending entries keeps the keys of the queue unique and every RESOLVED entry
-- true: where each resolved entry's record was among the ids that the sinks of the entry have
-- reported, that holds again after it, whatever the sinks and the database did.
pub retry_all_pending-Settled :
    (attempts : ℕ → Attempt) (fetches : ℕ → Bool) (w : World)
    → Settled w
    → Settled (retry_all_pending attempts fetches w).world
unfolding retry_all_pending
retry_all_pending-Settled attempts fetches w v =
    retry_rounds-Settled attempts fetches 50 0 w empty_summary v
