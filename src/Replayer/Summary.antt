-- ===== src/Replayer/Summary.antt =====
-- The summary of a replay of all pending entries, and the bound on its work.
use optio_test.Prelude.{
  ℕ, zero, suc, ◌+◌, ◌*◌, ◌≤◌, ◌<◌, ◌≡◌, ◌⊎◌, inl, inr, Bool, true, false, not, ◌||◌, ◌==◌, List,
  [], ◌∷◌, arith, length, length-take, Bool-cases,
}
use optio_test.Types.{DlqEntry}
use optio_test.Dlq.{DlqTable, get_pending_entries}
use optio_test.Runner.{World}
use optio_test.Replayer.Entry.{Attempt}
use optio_test.Replayer.{
  RetryResult, succeeded, failed, threw, retry_entry, RetrySummary, count_result, empty_summary,
  all_failed, Progress, next_progress, retry_items, retry_rounds, retry_all_pending,
}

abbrev Balanced : RetrySummary → Type 0
Balanced s = s.retried ≡ s.resolved_count + s.failed_count

-- What a stretch of the loops that tries at most `n` entries does to a balanced summary.
record Tally (s : RetrySummary) (n : ℕ) (p : Progress) : Type 0 where
  most : p.summary.retried ≤ s.retried + n
  grows : s.resolved_count ≤ p.summary.resolved_count
  counted : p.summary.resolved_count + p.summary.failed_count ≤ p.summary.retried
  nearly : p.summary.retried ≤ p.summary.resolved_count + p.summary.failed_count + 1
  exact : p.has_thrown ≡ false → Balanced p.summary

widen : (s : RetrySummary) (m n : ℕ) (p : Progress) → m ≤ n → Tally s m p → Tally s n p
widen s m n p le t = record {
  most = omega (arith, t.most);
  grows = t.grows;
  counted = t.counted;
  nearly = t.nearly;
  exact = t.exact;
}

chain :
    (s : RetrySummary) (m n : ℕ) (p q : Progress)
    → Tally s m p
    → Tally p.summary n q
    → Tally s (m + n) q
chain s m n p q t u = record {
  most = omega (arith, t.most, u.most);
  grows = omega (arith, t.grows, u.grows);
  counted = u.counted;
  nearly = u.nearly;
  exact = u.exact;
}

count_result-Balanced :
    (s : RetrySummary) (res : RetryResult) → Balanced s → Balanced (count_result s res)
count_result-Balanced s succeeded b = omega arith
count_result-Balanced s (failed e) b = omega arith
count_result-Balanced s threw b = omega arith

next-Tally :
    (w : World) (s : RetrySummary) (res : RetryResult) (rest : Progress) (n : ℕ)
    → Balanced s
    → Tally (count_result s res) n rest
    → Tally s (suc n) (next_progress w s res rest)
next-Tally w s succeeded rest n b t = ground arith
next-Tally w s (failed e) rest n b t = ground arith
next-Tally w s threw rest n b t = ground arith

next_all :
    (w : World) (s : RetrySummary) (res : RetryResult) (rest : Progress) (n : ℕ)
    → (rest.has_thrown ≡ false → rest.summary.retried ≡ (count_result s res).retried + n)
    → (next_progress w s res rest).has_thrown ≡ false
    → (next_progress w s res rest).summary.retried ≡ s.retried + suc n
next_all w s succeeded rest n h e = omega (arith, h e)
next_all w s (failed t) rest n h e = omega (arith, h e)
next_all w s threw rest n h e = cc

module _ (attempts : ℕ → Attempt) where
  retry_items-Tally :
      (es : List DlqEntry) (w : World) (s : RetrySummary)
      → Balanced s
      → Tally s (length es) (retry_items attempts w s es)
  unfolding retry_items
  retry_items-Tally [] w s b = ground arith
  retry_items-Tally (e ∷ es) w s b =
      let (w', res) = retry_entry w (attempts s.retried) e.id in
      next-Tally w' s res (retry_items attempts w' (count_result s res) es) (length es) b
        (retry_items-Tally es w' (count_result s res) (count_result-Balanced s res b))

  retry_items_all :
      (es : List DlqEntry) (w : World) (s : RetrySummary)
      → (retry_items attempts w s es).has_thrown ≡ false
      → (retry_items attempts w s es).summary.retried ≡ s.retried + length es
  unfolding retry_items
  retry_items_all [] w s e = omega arith
  retry_items_all (x ∷ es) w s e =
      let (w', res) = retry_entry w (attempts s.retried) x.id in
      next_all w' s res (retry_items attempts w' (count_result s res) es) (length es)
        (retry_items_all es w' (count_result s res)) e

  length-pending : (t : DlqTable) (n : ℕ) → length (get_pending_entries t n) ≤ n
  unfolding get_pending_entries
  length-pending t n = omega (arith, length-take {0} n _)

  retry_rounds-Tally :
      (fetches : ℕ → Bool) (n i : ℕ) (w : World) (s : RetrySummary)
      → Balanced s
      → Tally s (n * 100) (retry_rounds attempts fetches n i w s)
  unfolding retry_rounds
  retry_rounds-Tally fetches zero i w s b = ground arith
  retry_rounds-Tally fetches (suc n) i w s b =
      let items = get_pending_entries w.dlq 100 in
      let p = retry_items attempts w s items in
      let t = retry_items-Tally items w s b in
      let few = length-pending w.dlq 100 in
      elim (Bool-cases (not (fetches i))) [
        | inl k ↦ rw (k, retry_rounds) (ground arith)
        | inr k ↦ elim (Bool-cases (length items == 0)) [
          | inl none_left ↦ rw (k, none_left, retry_rounds) (ground arith)
          | inr more ↦ elim (Bool-cases (p.has_thrown || all_failed p.summary (length items))) [
            | inl stop ↦
                rw (k, more, stop, retry_rounds)
                  (widen s (length items) (suc n * 100) p (omega (arith, few)) t)
            | inr go ↦
                let on : p.has_thrown ≡ false = ground arith in
                let rest = retry_rounds-Tally fetches n (suc i) p.world p.summary (t.exact on) in
                rw (k, more, go, retry_rounds)
                  (widen s (length items + n * 100) (suc n * 100) _ (omega (arith, few))
                    (chain s (length items) (n * 100) p _ t rest))
          ]
        ]
      ]

  -- A first round that resolves nothing is the last.
  first_round :
      (fetches : ℕ → Bool) (n i : ℕ) (w : World)
      → let s = (retry_rounds attempts fetches (suc n) i w empty_summary).summary in
        (s.retried ≤ 100) ⊎ (0 < s.resolved_count)
  unfolding retry_rounds
  first_round fetches n i w =
      let items = get_pending_entries w.dlq 100 in
      let p = retry_items attempts w empty_summary items in
      let t = retry_items-Tally items w empty_summary (omega arith) in
      let few = length-pending w.dlq 100 in
      elim (Bool-cases (not (fetches i))) [
        | inl k ↦ rw (k, retry_rounds) (inl (omega arith))
        | inr k ↦ elim (Bool-cases (length items == 0)) [
          | inl none_left ↦ rw (k, none_left, retry_rounds) (inl (omega arith))
          | inr more ↦ elim (Bool-cases (p.has_thrown || all_failed p.summary (length items))) [
            | inl stop ↦ rw (k, more, stop, retry_rounds) (inl (omega (arith, few, t.most)))
            | inr go ↦
                let on : p.has_thrown ≡ false = ground arith in
                let tried = retry_items_all items w empty_summary on in
                let balanced = t.exact on in
                let some_resolved : 0 < p.summary.resolved_count = ground arith in
                let rest = retry_rounds-Tally fetches n (suc i) p.world p.summary balanced in
                rw (k, more, go, retry_rounds) (inr (omega (arith, rest.grows, some_resolved)))
          ]
        ]
      ]

-- A replay of all pending entries ends after at most 5000 single replays, and after at most 100
-- where none of them succeeded. Unless a statement on the database threw, each single replay is
-- counted once, as resolved or as failed; where one threw, at most one is in neither count.
pub retry_all_pending_summary :
    (attempts : ℕ → Attempt) (fetches : ℕ → Bool) (w : World)
    → let p = retry_all_pending attempts fetches w in
      (p.summary.retried ≤ 5000)
      × ((p.summary.retried ≤ 100) ⊎ (0 < p.summary.resolved_count))
      × (((p.has_thrown ≡ false)
            × (p.summary.retried ≡ p.summary.resolved_count + p.summary.failed_count))
          ⊎ ((p.has_thrown ≡ true)
              × (p.summary.resolved_count + p.summary.failed_count ≤ p.summary.retried)
              × (p.summary.retried ≤ p.summary.resolved_count + p.summary.failed_count + 1)))
unfolding retry_all_pending
retry_all_pending_summary attempts fetches w =
    let p = retry_rounds attempts fetches 50 0 w empty_summary in
    let t = retry_rounds-Tally attempts fetches 50 0 w empty_summary (omega arith) in
    (
      omega (arith, t.most),
      first_round attempts fetches 49 0 w,
      elim (Bool-cases p.has_thrown) [
        | inl k ↦ inr (k, t.counted, t.nearly)
        | inr k ↦ inl (k, t.exact k)
      ],
    )
