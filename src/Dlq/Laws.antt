-- ===== src/Dlq/Laws.antt =====
-- What the queue holds of the records it was given.
use optio_test.Prelude.{
  ℕ, suc, ◌+◌, ◌≡◌, refl, sym, ap, ◌∙◌, Bool, true, false, none, some, List, [], ◌∷◌, ◌++◌,
  append-nil, arith, length, length-append, length-map, if◌then◌else◌,
}
use optio_test.Prelude.Order.{select, select-append}
use optio_test.Types.{SinkTarget, elasticsearch, rabbitmq, all_sinks, DlqEntry}
use optio_test.Dlq.{
  NewDlqEntry, DlqTable, stored_from, persist_failures, is_pending, get_pending_count,
}

abbrev pub same_target : SinkTarget → SinkTarget → Bool
same_target elasticsearch elasticsearch = true
same_target rabbitmq rabbitmq = true
same_target all_sinks all_sinks = true
same_target _ _ = false

-- The records that the queue holds an entry of for a sink.
unfoldable pub quarantined : SinkTarget → List DlqEntry → List ℕ
quarantined s [] = []
quarantined s (e ∷ es) =
    if same_target e.sink_target s
    then elim e.record_id [ none ↦ quarantined s es | some id ↦ id ∷ quarantined s es ]
    else quarantined s es

pub quarantined-append :
    (s : SinkTarget) (xs ys : List DlqEntry)
    → quarantined s (xs ++ ys) ≡ quarantined s xs ++ quarantined s ys
unfolding quarantined
quarantined-append s [] ys = refl
quarantined-append s (e ∷ es) ys = ground (arith, quarantined-append s es ys)

pub rows-persist_failures :
    (t : DlqTable) (fs : List NewDlqEntry) (now : ℕ)
    → (persist_failures t fs now).0.rows ≡ t.rows ++ stored_from fs t.next_id now
unfolding persist_failures
rows-persist_failures t [] now = sym (append-nil t.rows)
rows-persist_failures t (f ∷ fs) now = refl

stored_from-pending :
    (fs : List NewDlqEntry) (id now : ℕ)
    → length (select (λ (e : DlqEntry). is_pending e.status) (stored_from fs id now)) ≡ length fs
unfolding stored_from select
stored_from-pending [] id now = refl
stored_from-pending (f ∷ fs) id now = ap suc (stored_from-pending fs (suc id) now)

length-stored_from :
    (fs : List NewDlqEntry) (id now : ℕ) → length (stored_from fs id now) ≡ length fs
unfolding stored_from
length-stored_from [] id now = refl
length-stored_from (f ∷ fs) id now = ap suc (length-stored_from fs (suc id) now)

-- Persisting a batch of failures adds one pending entry for each, and returns one key for each.
pub get_pending_count-persist_failures :
    (t : DlqTable) (fs : List NewDlqEntry) (now : ℕ)
    → (get_pending_count (persist_failures t fs now).0 ≡ get_pending_count t + length fs)
      × (length (persist_failures t fs now).1 ≡ length fs)
unfolding persist_failures get_pending_count
get_pending_count-persist_failures t [] now = (omega arith, refl)
get_pending_count-persist_failures t (f ∷ fs) now =
    let added = stored_from (f ∷ fs) t.next_id now in
    let open_entries = λ (e : DlqEntry). is_pending e.status in
    (
      ap length (select-append open_entries t.rows added)
          ∙ (length-append (select open_entries t.rows) (select open_entries added)
              ∙ ap (λ n. length (select open_entries t.rows) + n)
                  (stored_from-pending (f ∷ fs) t.next_id now)),
      length-map added (λ (e : DlqEntry). e.id) ∙ length-stored_from (f ∷ fs) t.next_id now,
    )
