-- ===== src/Prelude/Order.antt =====
-- WHERE, ORDER BY and LIMIT as list operations, and what a limited, ordered selection holds.
use Prim.Native.Nat.{ℕ, zero, suc}
use mathlib.Core.Path.{◌≡◌, refl, subst}
use mathlib.Core.Logic.{◌⊎◌, inl, inr}
use mathlib.Core.Bool.{Bool, true, false}
use mathlib.Core.List.{List, [], ◌∷◌, ◌++◌}
use mathlib.Core.Option.{some, some-injective}
use native.Mathlib.Omega.{arith}
use optio_test.Prelude.Tests.{if◌then◌else◌, Bool-cases}
use optio_test.Prelude.Lists.{take, get_last?, Member, All}

module _ {A : Type 0} where
  unfoldable pub select : (A → Bool) → List A → List A
  select p [] = []
  select p (x ∷ xs) = if p x then x ∷ select p xs else select p xs

  pub Member-select :
      (p : A → Bool) (x : A) (xs : List A) → Member x xs → p x ≡ true → Member x (select p xs)
  unfolding select
  Member-select p x [] m h = elim m [ ]
  Member-select p x (y ∷ ys) m h = ground (arith, Member-select p x ys)

  -- What a selection holds stands in the table and passes the test.
  pub select-Member :
      (p : A → Bool) (x : A) (xs : List A) → Member x (select p xs) → Member x xs × (p x ≡ true)
  unfolding select
  select-Member p x [] m = elim m [ ]
  select-Member p x (y ∷ ys) m = elim (Bool-cases (p y)) [
    | inl e ↦ ground (arith, select-Member p x ys)
    | inr e ↦ ground (arith, select-Member p x ys)
  ]

  pub select-append :
      (p : A → Bool) (xs ys : List A) → select p (xs ++ ys) ≡ select p xs ++ select p ys
  unfolding select
  select-append p [] ys = refl
  select-append p (x ∷ xs) ys = ground (arith, select-append p xs ys)

  module _ (le : A → A → Bool) where
    unfoldable pub insert : A → List A → List A
    insert x [] = x ∷ []
    insert x (y ∷ ys) = if le x y then x ∷ y ∷ ys else y ∷ insert x ys

    unfoldable pub order_by : List A → List A
    unfolding insert
    order_by [] = []
    order_by (x ∷ xs) = insert x (order_by xs)

    abbrev pub IsSorted : List A → Type 0
    IsSorted [] = Unit
    IsSorted (x ∷ xs) = All (λ y. le x y ≡ true) xs × IsSorted xs

    pub Member-insert_self : (x : A) (xs : List A) → Member x (insert x xs)
    unfolding insert
    Member-insert_self x [] = inl refl
    Member-insert_self x (y ∷ ys) = ground (arith, Member-insert_self x ys)

    pub Member-insert : (z x : A) (xs : List A) → Member z xs → Member z (insert x xs)
    unfolding insert
    Member-insert z x [] m = elim m [ ]
    Member-insert z x (y ∷ ys) m = ground (arith, Member-insert z x ys)

    pub insert-Member : (z x : A) (xs : List A) → Member z (insert x xs) → (z ≡ x) ⊎ Member z xs
    unfolding insert
    insert-Member z x [] m = m
    insert-Member z x (y ∷ ys) m = ground (arith, insert-Member z x ys)

    pub Member-order_by : (z : A) (xs : List A) → Member z xs → Member z (order_by xs)
    unfolding order_by
    Member-order_by z [] m = m
    Member-order_by z (x ∷ xs) (inl e) = rw e (Member-insert_self x (order_by xs))
    Member-order_by z (x ∷ xs) (inr m) = Member-insert z x (order_by xs) (Member-order_by z xs m)

    pub order_by-Member : (z : A) (xs : List A) → Member z (order_by xs) → Member z xs
    unfolding order_by
    order_by-Member z [] m = m
    order_by-Member z (x ∷ xs) m = elim (insert-Member z x (order_by xs) m) [
      | inl e ↦ inl e
      | inr r ↦ inr (order_by-Member z xs r)
    ]

    All-Member : (x z : A) (xs : List A) → All (λ y. le x y ≡ true) xs → Member z xs → le x z ≡ true
    All-Member x z [] a m = elim m [ ]
    All-Member x z (y ∷ ys) a (inl e) = rw e a.0
    All-Member x z (y ∷ ys) a (inr m) = All-Member x z ys a.1 m

    -- The order is total and transitive.
    module _ (total : (x y : A) → (le x y ≡ true) ⊎ (le y x ≡ true))
        (trans : (x y z : A) → le x y ≡ true → le y z ≡ true → le x z ≡ true) where
      All-insert :
          (w x : A) (ys : List A)
          → le w x ≡ true
          → All (λ y. le w y ≡ true) ys
          → All (λ y. le w y ≡ true) (insert x ys)
      unfolding insert
      All-insert w x [] h a = (h, tt)
      All-insert w x (y ∷ ys) h a = ground (arith, All-insert w x ys)

      All-trans :
          (w x : A) (ys : List A)
          → le w x ≡ true
          → All (λ y. le x y ≡ true) ys
          → All (λ y. le w y ≡ true) ys
      All-trans w x [] h a = tt
      All-trans w x (y ∷ ys) h a = (trans w x y h a.0, All-trans w x ys h a.1)

      insert-IsSorted : (x : A) (xs : List A) → IsSorted xs → IsSorted (insert x xs)
      unfolding insert
      insert-IsSorted x [] s = (tt, tt)
      insert-IsSorted x (y ∷ ys) s = elim (Bool-cases (le x y)) [
        | inl e ↦ rw e ((e, All-trans x y ys e s.0), s)
        | inr e ↦ rw e (All-insert y x ys (below (total x y) e) s.0, insert-IsSorted x ys s.1)
      ]
        where
          below : (le x y ≡ true) ⊎ (le y x ≡ true) → le x y ≡ false → le y x ≡ true
          below (inl a) b = cc
          below (inr a) b = a

      pub order_by-IsSorted : (xs : List A) → IsSorted (order_by xs)
      unfolding order_by
      order_by-IsSorted [] = tt
      order_by-IsSorted (x ∷ xs) = insert-IsSorted x (order_by xs) (order_by-IsSorted xs)

      -- A row of a sorted list that a LIMIT leaves out stands at or above the last one it keeps.
      pub take-last :
          (n : ℕ) (z l : A) (xs : List A)
          → IsSorted xs
          → Member z xs
          → get_last? (take n xs) ≡ some l
          → Member z (take n xs) ⊎ (le l z ≡ true)
      take-last zero z l xs s m e = cc
      take-last (suc n) z l [] s m e = cc
      take-last (suc zero) z l (x ∷ xs) s (inl h) e = inl (inl h)
      take-last (suc zero) z l (x ∷ xs) s (inr h) e =
          inr (subst (λ w. le w z ≡ true) (some-injective _ _ e) (All-Member x z xs s.0 h))
      take-last (suc (suc n)) z l (x ∷ []) s m e = inl m
      take-last (suc (suc n)) z l (x ∷ y ∷ ys) s (inl h) e = inl (inl h)
      take-last (suc (suc n)) z l (x ∷ y ∷ ys) s (inr m) e =
          elim (take-last (suc n) z l (y ∷ ys) s.1 m e) [ inl h ↦ inl (inr h) | inr h ↦ inr h ]
