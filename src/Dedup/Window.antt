-- ===== src/Dedup/Window.antt =====
-- How long the window remembers an id.
use optio_test.Prelude.{
  ℕ, ◌+◌, ◌≤◌, ◌<◌, ◌≡◌, refl, sym, ◌∙◌, subst, true, false, List, [], ◌∷◌, inl, inr, arith, length,
  length-append, Bool-cases, leb, leb→le, if◌then◌else◌,
}
use optio_test.Prelude.Text.{Text, text_eq, text_eq→eq, text_eq_self}
use optio_test.Dedup.{DeduplicationStore, contains, remove, push, evict, record_id, is_duplicate}
use optio_test.Dedup.Laws.{
  Distinct, Inv, record_id-Inv, contains-append, contains-remove_ne, contains-remove_self,
  evict-tail, evict-contains,
}

-- The number of keys behind `k`: those recorded since it was.
after : Text → List Text → ℕ
after k [] = 0
after k (x ∷ xs) = if text_eq k x then length xs else after k xs

after-push :
    (k j : Text) (xs : List Text) → contains k xs ≡ true → after k (push j xs) ≡ after k xs + 1
unfolding contains after
after-push k j [] h = cc
after-push k j (x ∷ xs) h = ground (arith, length-append xs (j ∷ []), after-push k j xs)

after-remove :
    (k j : Text) (xs : List Text) → text_eq k j ≡ false → after k (remove j xs) ≤ after k xs
unfolding after remove
after-remove k j [] n = omega arith
after-remove k j (x ∷ xs) n = elim (Bool-cases (text_eq j x)) [
  | inl e ↦ ground (arith, text_eq→eq j x e, after-remove k j xs n)
  | inr e ↦ ground (arith, after-remove k j xs n, length-remove-le j xs)
]
  where
    length-remove-le : (j : Text) (xs : List Text) → length (remove j xs) ≤ length xs
    length-remove-le j [] = omega arith
    length-remove-le j (x ∷ xs) = ground (arith, length-remove-le j xs)

after-push_self : (k : Text) (xs : List Text) → contains k xs ≡ false → after k (push k xs) ≡ 0
unfolding contains after
after-push_self k [] h = ground (arith, text_eq_self k)
after-push_self k (x ∷ xs) h = ground (arith, after-push_self k xs)

-- A full window whose oldest key has `length - 1` keys behind it evicts no younger one.
after-evict :
    (k : Text) (xs : List Text)
    → contains k xs ≡ true
    → after k xs + 1 < length xs
    → (contains k (evict xs) ≡ true) × (after k (evict xs) ≡ after k xs)
unfolding contains after
after-evict k [] h n = cc
after-evict k (x ∷ xs) h n = rw (evict-tail x xs) (ground arith)

contains-push : (k j : Text) (xs : List Text) → contains k xs ≡ true → contains k (push j xs) ≡ true
contains-push k j xs h = ground (arith, contains-append k xs (j ∷ []))

contains-push_self : (k : Text) (xs : List Text) → contains k (push k xs) ≡ true
unfolding contains
contains-push_self k [] = ground (arith, text_eq_self k)
contains-push_self k (x ∷ xs) = ground (arith, contains-push_self k xs)

push-after :
    (k j : Text) (xs : List Text) (n : ℕ)
    → contains k xs ≡ true
    → after k xs ≤ n
    → (contains k (push j xs) ≡ true) × (after k (push j xs) ≤ n + 1)
push-after k j xs n h b = (contains-push k j xs h, omega (arith, after-push k j xs h))

refresh-after :
    (k j : Text) (xs : List Text)
    → Distinct xs
    → contains k xs ≡ true
    → (contains k (push j (remove j xs)) ≡ true) × (after k (push j (remove j xs)) ≤ after k xs + 1)
refresh-after k j xs d h = elim (Bool-cases (text_eq k j)) [
  | inl e ↦
      let gone = contains-remove_self j xs d in
      let same = text_eq→eq k j e in
      subst
        (λ z.
          (contains z (push j (remove j xs)) ≡ true)
          × (after z (push j (remove j xs)) ≤ after k xs + 1))
        (sym same)
        (contains-push_self j (remove j xs), omega (arith, after-push_self j (remove j xs) gone))
  | inr n ↦
      push-after k j (remove j xs) (after k xs) (contains-remove_ne k j xs n ∙ h)
        (after-remove k j xs n)
]

-- One record moves an id by at most one place towards the end of the window.
record_id-after :
    (s : DeduplicationStore) (k j : Text)
    → Inv s
    → contains k s.cache ≡ true
    → after k s.cache + 1 < s.max_capacity
    → (contains k (record_id s j).cache ≡ true)
      × (after k (record_id s j).cache ≤ after k s.cache + 1)
      × ((record_id s j).max_capacity ≡ s.max_capacity)
unfolding record_id
record_id-after s k j v h n = elim (Bool-cases (contains j s.cache)) [
  | inl old ↦
      let moved = refresh-after k j s.cache v.distinct h in
      rw (old, record_id) (moved.0, moved.1, refl)
  | inr new_id ↦ elim (Bool-cases (leb s.max_capacity (length s.cache))) [
    | inl full ↦
        let kept = after-evict k s.cache h (ground (arith, leb→le _ _ full)) in
        let moved =
          push-after k j (evict s.cache) (after k s.cache) kept.0 (omega (arith, kept.1)) in
        rw (new_id, full, record_id) (moved.0, moved.1, refl)
    | inr free ↦
        let moved = push-after k j s.cache (after k s.cache) h (omega arith) in
        rw (new_id, free, record_id) (moved.0, moved.1, refl)
  ]
]

unfoldable pub record_all : DeduplicationStore → List Text → DeduplicationStore
record_all s [] = s
record_all s (j ∷ js) = record_all (record_id s j) js

record_all-after :
    (s : DeduplicationStore) (k : Text) (js : List Text)
    → Inv s
    → contains k s.cache ≡ true
    → after k s.cache + length js < s.max_capacity
    → contains k (record_all s js).cache ≡ true
unfolding record_all
record_all-after s k [] v h n = h
record_all-after s k (j ∷ js) v h n =
    let moved = record_id-after s k j v h (omega arith) in
    record_all-after (record_id s j) k js (record_id-Inv s j v).0 moved.0
      (omega (arith, moved.1, moved.2))

record_id-newest :
    (s : DeduplicationStore) (k : Text)
    → Inv s
    → (after k (record_id s k).cache ≡ 0) × ((record_id s k).max_capacity ≡ s.max_capacity)
unfolding record_id
record_id-newest s k v = elim (Bool-cases (contains k s.cache)) [
  | inl old ↦
      rw (old, record_id)
        (after-push_self k (remove k s.cache) (contains-remove_self k s.cache v.distinct), refl)
  | inr new_id ↦ elim (Bool-cases (leb s.max_capacity (length s.cache))) [
    | inl full ↦
        rw (new_id, full, record_id)
          (after-push_self k (evict s.cache) (evict-contains k s.cache new_id), refl)
    | inr free ↦ rw (new_id, free, record_id) (after-push_self k s.cache new_id, refl)
  ]
]

-- An id that was recorded still counts as a duplicate after any further records, as long as these
-- are fewer than the capacity.
pub record_id-remembered :
    (s : DeduplicationStore) (k : Text) (js : List Text)
    → Inv s
    → length js < s.max_capacity
    → is_duplicate (record_all (record_id s k) js) k ≡ true
unfolding is_duplicate
record_id-remembered s k js v n =
    let stored = record_id-Inv s k v in
    let newest = record_id-newest s k v in
    record_all-after (record_id s k) k js stored.0 stored.1 (omega (arith, newest.0, newest.1))
