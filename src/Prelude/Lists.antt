-- ===== src/Prelude/Lists.antt =====
-- Lists measured by native numbers, and membership by recursion.
use Prim.Native.Nat.{ℕ, zero, suc, ◌+◌, min}
use mathlib.Core.Path.{◌≡◌, refl, sym, ap}
use mathlib.Core.Logic.{◌⊎◌, inl, inr}
use mathlib.Core.List.{List, [], ◌∷◌, ◌++◌, map}
use mathlib.Core.Option.{Option, none, some, some-injective}
use native.Mathlib.Omega.{arith}

module _ {ℓ} {A : Type ℓ} where
  abbrev pub length : List A → ℕ
  length [] = 0
  length (x ∷ xs) = suc (length xs)

  abbrev pub take : ℕ → List A → List A
  take zero xs = []
  take (suc n) [] = []
  take (suc n) (x ∷ xs) = x ∷ take n xs

  abbrev pub drop : ℕ → List A → List A
  drop zero xs = xs
  drop (suc n) [] = []
  drop (suc n) (x ∷ xs) = drop n xs

  -- `xs[xs.length - 1]`, which the empty list lacks.
  abbrev pub get_last? : List A → Option A
  get_last? [] = none
  get_last? (x ∷ []) = some x
  get_last? (x ∷ y ∷ ys) = get_last? (y ∷ ys)

  abbrev pub All {κ} : (A → Type κ) → List A → Type κ
  All P [] = Unit
  All P (x ∷ xs) = P x × All P xs

  pub length-append : (xs ys : List A) → length (xs ++ ys) ≡ length xs + length ys
  length-append [] ys = omega arith
  length-append (x ∷ xs) ys = omega (arith, length-append xs ys)

  pub length-take : (n : ℕ) (xs : List A) → length (take n xs) ≡ min n (length xs)
  length-take zero xs = omega arith
  length-take (suc n) [] = omega arith
  length-take (suc n) (x ∷ xs) = omega (arith, length-take n xs)

module _ {A : Type 0} where
  abbrev pub Member : A → List A → Type 0
  Member x [] = ⊥
  Member x (y ∷ ys) = (x ≡ y) ⊎ Member x ys

  pub Member-append_left : (x : A) (xs ys : List A) → Member x xs → Member x (xs ++ ys)
  Member-append_left x (z ∷ xs) ys (inl e) = inl e
  Member-append_left x (z ∷ xs) ys (inr m) = inr (Member-append_left x xs ys m)
  Member-append_left x [] ys m = elim m [ ]

  pub Member-append_right : (x : A) (xs ys : List A) → Member x ys → Member x (xs ++ ys)
  Member-append_right x [] ys m = m
  Member-append_right x (z ∷ xs) ys m = inr (Member-append_right x xs ys m)

  pub Member-append : (x : A) (xs ys : List A) → Member x (xs ++ ys) → Member x xs ⊎ Member x ys
  Member-append x [] ys m = inr m
  Member-append x (z ∷ xs) ys (inl e) = inl (inl e)
  Member-append x (z ∷ xs) ys (inr m) = elim (Member-append x xs ys m) [
    | inl l ↦ inl (inr l)
    | inr r ↦ inr r
  ]

  pub Member-take : (n : ℕ) (x : A) (xs : List A) → Member x (take n xs) → Member x xs
  Member-take zero x xs m = elim m [ ]
  Member-take (suc n) x [] m = elim m [ ]
  Member-take (suc n) x (z ∷ xs) (inl e) = inl e
  Member-take (suc n) x (z ∷ xs) (inr m) = inr (Member-take n x xs m)

  pub Member-last : (x : A) (xs : List A) → get_last? xs ≡ some x → Member x xs
  Member-last x [] e = cc
  Member-last x (y ∷ []) e = inl (cc)
  Member-last x (y ∷ z ∷ zs) e = inr (Member-last x (z ∷ zs) e)

module _ {ℓ κ} {A : Type ℓ} {B : Type κ} where
  pub length-map : (xs : List A) (f : A → B) → length (map f xs) ≡ length xs
  length-map [] f = omega arith
  length-map (x ∷ xs) f = ap suc (length-map xs f)

module _ {A B : Type 0} (f : A → B) where
  pub Member-map : (x : A) (xs : List A) → Member x xs → Member (f x) (map f xs)
  Member-map x [] m = elim m [ ]
  Member-map x (y ∷ ys) (inl e) = inl (ap f e)
  Member-map x (y ∷ ys) (inr m) = inr (Member-map x ys m)

  pub get_last?-map :
      (y : B) (xs : List A)
      → get_last? (map f xs) ≡ some y
      → (x : A) × (get_last? xs ≡ some x) × (y ≡ f x)
  get_last?-map y [] e = cc
  get_last?-map y (x ∷ []) e = (x, refl, sym (some-injective _ _ e))
  get_last?-map y (x ∷ z ∷ zs) e = get_last?-map y (z ∷ zs) e
