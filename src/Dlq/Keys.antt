-- ===== src/Dlq/Keys.antt =====
-- The key of `dead_letter_queue` is one, and the statements on one row reach that row alone.
use mathlib.Core.Option.{some-injective}
use optio_test.Prelude.{
  ℕ, ◌≡◌, refl, sym, ap, subst, ◌∙◌, inl, inr, ◌==◌, some, List, [], ◌∷◌, arith, Member, Bool-cases,
  if◌then◌else◌,
}
use optio_test.Types.{DlqStatus, DlqEntry}
use optio_test.Dlq.{
  DlqTable, find_entry, get_entry_by_id, update_entry, marked, mark_status, retried,
  record_retry_failure,
}

abbrev pub Keyed : List DlqEntry → Type 0
Keyed rows = (x y : DlqEntry) → Member x rows → Member y rows → x.id ≡ y.id → x ≡ y

Member-update :
    (x : DlqEntry) (id : ℕ) (f : DlqEntry → DlqEntry) (rows : List DlqEntry)
    → Member x (update_entry id f rows)
    → (y : DlqEntry) × Member y rows × (x ≡ (if y.id == id then f y else y))
unfolding update_entry
Member-update x id f [] m = elim m [ ]
Member-update x id f (r ∷ rows) (inl e) = (r, inl refl, e)
Member-update x id f (r ∷ rows) (inr m) =
    let (y, at, e) = Member-update x id f rows m in (y, inr at, e)

-- An update that keeps the keys.
update-Keyed :
    (id : ℕ) (f : DlqEntry → DlqEntry) (rows : List DlqEntry)
    → ((e : DlqEntry) → (f e).id ≡ e.id)
    → Keyed rows
    → Keyed (update_entry id f rows)
update-Keyed id f rows keep k x y mx my e =
    let (x', ax, ex) = Member-update x id f rows mx in
    let (y', ay, ey) = Member-update y id f rows my in
    let same = k x' y' ax ay (ground (arith, keep x', keep y')) in
    ex ∙ (ap (λ (z : DlqEntry). if z.id == id then f z else z) same ∙ sym ey)

module _ (t : DlqTable) (id now : ℕ) where
  pub Member-mark_status :
      (s : DlqStatus) (x : DlqEntry)
      → Member x (mark_status t id s now).rows
      → (y : DlqEntry) × Member y t.rows × (x ≡ (if y.id == id then marked s now y else y))
  unfolding mark_status
  Member-mark_status s x m = Member-update x id (marked s now) t.rows m

  pub Member-record_retry_failure :
      (x : DlqEntry)
      → Member x (record_retry_failure t id now).rows
      → (y : DlqEntry) × Member y t.rows × (x ≡ (if y.id == id then retried now y else y))
  unfolding record_retry_failure
  Member-record_retry_failure x m = Member-update x id (retried now) t.rows m

  pub mark_status-Keyed : (s : DlqStatus) → Keyed t.rows → Keyed (mark_status t id s now).rows
  unfolding mark_status
  mark_status-Keyed s k = update-Keyed id (marked s now) t.rows (λ e. refl) k

  pub record_retry_failure-Keyed : Keyed t.rows → Keyed (record_retry_failure t id now).rows
  unfolding record_retry_failure
  record_retry_failure-Keyed k = update-Keyed id (retried now) t.rows (λ e. refl) k

find_entry-Member :
    (id : ℕ) (rows : List DlqEntry) (e : DlqEntry)
    → find_entry id rows ≡ some e
    → Member e rows × (e.id ≡ id)
unfolding find_entry
find_entry-Member id [] e h = cc
find_entry-Member id (r ∷ rows) e h = elim (Bool-cases (r.id == id)) [
  | inl k ↦
      let same = some-injective _ _ (rw (k, find_entry) at h) in
      (inl (sym same), subst (λ (x : DlqEntry). x.id ≡ id) same (ground arith))
  | inr k ↦ let (m, same) = find_entry-Member id rows e (rw (k, find_entry) at h) in (inr m, same)
]

pub get_entry_by_id-Member :
    (t : DlqTable) (id : ℕ) (e : DlqEntry)
    → get_entry_by_id t id ≡ some e
    → Member e t.rows × (e.id ≡ id)
unfolding get_entry_by_id
get_entry_by_id-Member t id e h = find_entry-Member id t.rows e h
