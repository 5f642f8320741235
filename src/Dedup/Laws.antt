-- ===== src/Dedup/Laws.antt =====
-- The keys stay distinct and within the capacity.
use optio_test.Prelude.{
  ℕ, ◌+◌, ◌≤◌, ◌<◌, ◌≡◌, refl, subst, leb, leb→le, true, false, List, [], ◌∷◌, ◌++◌, inl, inr,
  arith, length, length-append, Bool-cases, ◌||◌,
}
use optio_test.Prelude.Text.{Text, text_eq, text_eq→eq, text_eq_self}
use optio_test.Dedup.{
  DeduplicationStore, contains, remove, push, new, evict, record_id, is_duplicate,
}

abbrev pub Distinct : List Text → Type 0
Distinct [] = Unit
Distinct (x ∷ xs) = (contains x xs ≡ false) × Distinct xs

pub contains-append :
    (k : Text) (xs ys : List Text) → contains k (xs ++ ys) ≡ (contains k xs || contains k ys)
unfolding contains
contains-append k [] ys = refl
contains-append k (x ∷ xs) ys = ground (arith, contains-append k xs ys)

contains_sym : (x k : Text) → text_eq x k ≡ true → text_eq k x ≡ true
contains_sym x k e = subst (λ z. text_eq z x ≡ true) (text_eq→eq x k e) (text_eq_self x)

pub text_eq_comm : (x k : Text) → text_eq x k ≡ text_eq k x
text_eq_comm x k = ground (arith, contains_sym x k, contains_sym k x)

pub Distinct-push :
    (k : Text) (xs : List Text) → Distinct xs → contains k xs ≡ false → Distinct (push k xs)
unfolding contains
Distinct-push k [] d n = (refl, tt)
Distinct-push k (x ∷ xs) d n =
    ground (arith, contains-append x xs (k ∷ []), text_eq_comm k x, Distinct-push k xs d.1)

-- Deleting a key keeps the others.
pub contains-remove_ne :
    (j k : Text) (xs : List Text) → text_eq j k ≡ false → contains j (remove k xs) ≡ contains j xs
unfolding contains remove
contains-remove_ne j k [] n = refl
contains-remove_ne j k (x ∷ xs) n = elim (Bool-cases (text_eq k x)) [
  | inl e ↦ ground (arith, contains-remove_ne j k xs n, text_eq→eq k x e)
  | inr e ↦ ground (arith, contains-remove_ne j k xs n)
]

pub contains-remove_self :
    (k : Text) (xs : List Text) → Distinct xs → contains k (remove k xs) ≡ false
unfolding contains remove
contains-remove_self k [] d = refl
contains-remove_self k (x ∷ xs) d = elim (Bool-cases (text_eq k x)) [
  | inl e ↦ ground (arith, text_eq→eq k x e)
  | inr e ↦ ground (arith, contains-remove_self k xs d.1)
]

contains-remove_le :
    (j k : Text) (xs : List Text) → contains j xs ≡ false → contains j (remove k xs) ≡ false
unfolding contains remove
contains-remove_le j k [] n = refl
contains-remove_le j k (x ∷ xs) n = ground (arith, contains-remove_le j k xs)

pub Distinct-remove : (k : Text) (xs : List Text) → Distinct xs → Distinct (remove k xs)
unfolding remove
Distinct-remove k [] d = tt
Distinct-remove k (x ∷ xs) d =
    ground (arith, Distinct-remove k xs d.1, contains-remove_le x k xs d.0)

pub length-remove :
    (k : Text) (xs : List Text) → contains k xs ≡ true → length (remove k xs) + 1 ≡ length xs
unfolding contains remove
length-remove k [] c = cc
length-remove k (x ∷ xs) c = ground (arith, length-remove k xs)

pub evict-tail : (x : Text) (xs : List Text) → evict (x ∷ xs) ≡ xs
unfolding evict remove
evict-tail x xs = ground (arith, text_eq_self x)

pub record Inv (s : DeduplicationStore) : Type 0 where
  pub distinct : Distinct s.cache
  pub bounded : length s.cache ≤ s.max_capacity
  pub positive : 1 ≤ s.max_capacity

pub new-Inv : (capacity : ℕ) → Inv (new capacity)
unfolding new
new-Inv capacity = record { distinct = tt; bounded = omega arith; positive = omega arith }

evict-Distinct : (xs : List Text) → Distinct xs → Distinct (evict xs)
evict-Distinct [] d = unfold evict in tt
evict-Distinct (x ∷ xs) d = rw (evict-tail x xs) d.1

pub evict-contains :
    (k : Text) (xs : List Text) → contains k xs ≡ false → contains k (evict xs) ≡ false
unfolding contains
evict-contains k [] n = unfold evict in refl
evict-contains k (x ∷ xs) n = rw (evict-tail x xs) (ground arith)

pub length-evict : (xs : List Text) → 1 ≤ length xs → length (evict xs) + 1 ≡ length xs
length-evict [] h = absurd (omega arith)
length-evict (x ∷ xs) h = rw (evict-tail x xs) (omega arith)

push-Inv :
    (s : DeduplicationStore) (id : Text) (xs : List Text)
    → Distinct xs
    → contains id xs ≡ false
    → length xs + 1 ≤ s.max_capacity
    → Inv (record s { cache = push id xs }) × (contains id (push id xs) ≡ true)
push-Inv s id xs d n h = (
  record {
    distinct = Distinct-push id xs d n;
    bounded = omega (arith, length-append xs (id ∷ []));
    positive = omega arith;
  },
  unfold contains in ground (arith, contains-append id xs (id ∷ []), text_eq_self id),
)

-- `record` keeps the keys distinct and their number within the capacity, and afterwards the id
-- counts as a duplicate.
pub record_id-Inv :
    (s : DeduplicationStore) (id : Text)
    → Inv s
    → Inv (record_id s id) × (is_duplicate (record_id s id) id ≡ true)
unfolding record_id is_duplicate
record_id-Inv s id v = elim (Bool-cases (contains id s.cache)) [
  | inl old ↦
      rw (old, record_id)
        (push-Inv s id (remove id s.cache) (Distinct-remove id s.cache v.distinct)
          (contains-remove_self id s.cache v.distinct)
          (omega (arith, length-remove id s.cache old, v.bounded)))
  | inr new_id ↦ elim (Bool-cases (leb s.max_capacity (length s.cache))) [
    | inl full ↦
        rw (new_id, full, record_id)
          (push-Inv s id (evict s.cache) (evict-Distinct s.cache v.distinct)
            (evict-contains id s.cache new_id)
            (room s.max_capacity s.cache v.positive (leb→le _ _ full) v.bounded))
    | inr free ↦
        rw (new_id, free, record_id) (push-Inv s id s.cache v.distinct new_id (ground arith))
  ]
]
  where
    room :
        (cap : ℕ) (xs : List Text)
        → 1 ≤ cap
        → cap ≤ length xs
        → length xs ≤ cap
        → length (evict xs) + 1 ≤ cap
    room cap xs p f b = omega (arith, length-evict xs)

-- A new id with room left is appended.
pub record_id-push :
    (s : DeduplicationStore) (id : Text)
    → is_duplicate s id ≡ false
    → length s.cache < s.max_capacity
    → record_id s id ≡ record s { cache = push id s.cache }
unfolding record_id is_duplicate
record_id-push s id n h = rw n (ground arith)
