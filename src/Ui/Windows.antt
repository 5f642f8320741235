-- ===== src/Ui/Windows.antt =====
-- What the bounded lists of the user interface show: the latest samples, and the latest actions.
use optio_test.Prelude.{
  ℕ, zero, suc, ◌+◌, ◌-◌, ◌≤◌, ◌<◌, ◌≡◌, refl, sym, ap, ◌∙◌, Option, none, List, [], ◌∷◌, ◌++◌,
  length, length-append, leb, if◌then◌else◌, drop, or_default, arith, Bool-cases, append_assoc,
  append-nil, inl, inr,
}
use optio_test.Prelude.Text.{Text}
use optio_test.Prelude.Int.{ℤ, pos}
use optio_test.Ui.{MetricHistory, no_history, push_sample, is_repeated, on_snapshot}

module _ {ℓ} {A : Type ℓ} where
  abbrev pub last_n : ℕ → List A → List A
  last_n n xs = drop (length xs - n) xs

  length-drop : (k : ℕ) (xs : List A) → length (drop k xs) ≡ length xs - k
  length-drop zero xs = omega arith
  length-drop (suc k) [] = omega arith
  length-drop (suc k) (x ∷ xs) = omega (arith, length-drop k xs)

  drop-append : (k : ℕ) (xs ys : List A) → k ≤ length xs → drop k (xs ++ ys) ≡ drop k xs ++ ys
  drop-append zero xs ys h = refl
  drop-append (suc k) [] ys h = absurd (omega arith)
  drop-append (suc k) (x ∷ xs) ys h = drop-append k xs ys (omega arith)

  same_drop : {j k : ℕ} (xs : List A) → j ≡ k → drop j xs ≡ drop k xs
  same_drop xs e = ap (λ n. drop n xs) e

  drop_nil : (k : ℕ) → drop {A = A} k [] ≡ []
  drop_nil zero = refl
  drop_nil (suc k) = refl

  drop-drop : (j k : ℕ) (xs : List A) → drop j (drop k xs) ≡ drop (k + j) xs
  drop-drop j zero xs = same_drop xs (omega arith)
  drop-drop j (suc k) [] = drop_nil j ∙ sym (drop_nil (suc k + j))
  drop-drop j (suc k) (x ∷ xs) =
      drop-drop j k xs ∙ same_drop {j = suc (k + j)} {k = suc k + j} (x ∷ xs) (omega arith)

-- One push onto the latest samples of a list leaves the latest of the longer list.
push_sample-last_n :
    (capacity : ℕ) (all : List ℤ) (sample : ℤ)
    → 0 < capacity
    → push_sample capacity (last_n capacity all) sample ≡ last_n capacity (all ++ (sample ∷ []))
unfolding push_sample
push_sample-last_n capacity all sample h =
    let kept = length-drop (length all - capacity) all in
    let longer = length-append all (sample ∷ []) in
    let now = length all - capacity in
    let later = length (all ++ (sample ∷ [])) - capacity in
    elim (Bool-cases (leb capacity (length (last_n capacity all)))) [
      | inl full ↦
          let enough : capacity ≤ length all = ground (arith, kept) in
          let over = length (last_n capacity all) - capacity + 1 in
          let moved : now + over ≡ later = omega (arith, kept, longer, enough) in
          rw (full, push_sample)
            (ap (λ xs. xs ++ (sample ∷ [])) (drop-drop over now all)
              ∙ (sym (drop-append (now + over) all (sample ∷ []) (omega (arith, kept)))
                  ∙ same_drop (all ++ (sample ∷ [])) moved))
      | inr room ↦
          let few : length all < capacity = ground (arith, kept) in
          let start : now ≡ 0 = omega (arith, few) in
          let still : 0 ≡ later = omega (arith, few, longer) in
          rw (room, push_sample)
            (ap (λ n. drop n all ++ (sample ∷ [])) start ∙ same_drop (all ++ (sample ∷ [])) still)
    ]

-- The effects of a list of snapshots.
unfoldable pub run_history : ℕ → MetricHistory → List (Option ℤ × Option Text) → MetricHistory
run_history capacity h [] = h
run_history capacity h ((value, stamp) ∷ rest) =
    run_history capacity (on_snapshot capacity h value stamp) rest

-- The samples of the snapshots whose stamp is not that of the one recorded before.
pub fresh_samples : Option Text → List (Option ℤ × Option Text) → List ℤ
fresh_samples last [] = []
fresh_samples last ((value, stamp) ∷ rest) =
    let skipped = fresh_samples last rest in
    let taken = fresh_samples stamp rest in
    if is_repeated stamp last then skipped else or_default value (pos 0) ∷ taken

run_history-last_n :
    (capacity : ℕ) (h : MetricHistory) (all : List ℤ) (snapshots : List (Option ℤ × Option Text))
    → 0 < capacity
    → h.history ≡ last_n capacity all
    → (run_history capacity h snapshots).history
      ≡ last_n capacity (all ++ fresh_samples h.last_stamp snapshots)
unfolding run_history fresh_samples on_snapshot
run_history-last_n capacity h all [] p e = e ∙ ap (last_n capacity) (sym (append-nil all))
run_history-last_n capacity h all ((value, stamp) ∷ rest) p e =
    let sample = or_default value (pos 0) in
    elim (Bool-cases (is_repeated stamp h.last_stamp)) [
      | inl k ↦
          rw (k, run_history, on_snapshot, fresh_samples)
            (run_history-last_n capacity h all rest p e)
      | inr k ↦
          rw (k, run_history, on_snapshot, fresh_samples)
            (run_history-last_n capacity
                (record { history = push_sample capacity h.history sample; last_stamp = stamp })
                (all ++ (sample ∷ [])) rest p
                (ap (λ xs. push_sample capacity xs sample) e
                  ∙ push_sample-last_n capacity all sample p)
              ∙ ap (last_n capacity) (append_assoc all (sample ∷ []) (fresh_samples stamp rest)))
    ]

-- A history with a positive capacity shows, after any list of snapshots, the latest samples of those
-- whose stamp was new, as many as the capacity: a snapshot is skipped if it has no stamp or that of
-- the last one recorded, and a value that is no finite number counts as 0.
pub history_lem :
    (capacity : ℕ) (snapshots : List (Option ℤ × Option Text))
    → 0 < capacity
    → (run_history capacity no_history snapshots).history
      ≡ last_n capacity (fresh_samples none snapshots)
history_lem capacity snapshots p =
    run_history-last_n capacity no_history [] snapshots p (sym (drop_nil (0 - capacity)))
