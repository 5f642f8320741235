-- ===== src/Rabbit/Keys.antt =====
-- The deduplication key of a message tells the records and their versions apart.
use mathlib.Core.List.{head-eq_of_cons-eq, tail-eq_of_cons-eq}
use mathlib.Core.Path.{ap₂}
use optio_test.Prelude.{ℕ, ◌<◌, ◌≡◌, refl, [], ◌∷◌, ◌++◌, arith, All}
use optio_test.Prelude.Text.{Text}
use optio_test.Prelude.Decimal.{show, show-injective, show-IsDigit, IsDigit}
use optio_test.Rabbit.{message_id}

-- Two runs of digits before the same other character are the same.
split_digits :
    (a b x y : Text) (c : ℕ)
    → All IsDigit a
    → All IsDigit b
    → 57 < c
    → a ++ (c ∷ x) ≡ b ++ (c ∷ y)
    → (a ≡ b) × (x ≡ y)
split_digits [] [] x y c da db h e = (refl, tail-eq_of_cons-eq e)
split_digits [] (k ∷ b) x y c da db h e = absurd (omega (arith, head-eq_of_cons-eq e))
split_digits (k ∷ a) [] x y c da db h e = absurd (omega (arith, head-eq_of_cons-eq e))
split_digits (k ∷ a) (l ∷ b) x y c da db h e =
    let rest = split_digits a b x y c da.1 db.1 h (tail-eq_of_cons-eq e) in
    (ap₂ ◌∷◌ (head-eq_of_cons-eq e) rest.0, rest.1)

drop_four : (x y : Text) (a b c d : ℕ) → a ∷ b ∷ c ∷ d ∷ x ≡ a ∷ b ∷ c ∷ d ∷ y → x ≡ y
drop_four x y a b c d e =
    tail-eq_of_cons-eq (tail-eq_of_cons-eq (tail-eq_of_cons-eq (tail-eq_of_cons-eq e)))

-- Two messages have the same key only for the same version of the same record.
pub message_id-injective :
    (id version id' version' : ℕ)
    → message_id id version ≡ message_id id' version'
    → (id ≡ id') × (version ≡ version')
unfolding message_id
message_id-injective i v j w e =
    let tails : show i ++ (95 ∷ 118 ∷ show v) ≡ show j ++ (95 ∷ 118 ∷ show w) =
      drop_four _ _ 114 101 99 95 e in
    let parts =
      split_digits (show i) (show j) (118 ∷ show v) (118 ∷ show w) 95 (show-IsDigit i)
        (show-IsDigit j) (omega arith) tails in
    (show-injective i j parts.0, show-injective v w (tail-eq_of_cons-eq parts.1))
