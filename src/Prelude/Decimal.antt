-- ===== src/Prelude/Decimal.antt =====
-- Numbers printed in decimal, as `String(n)` and templates do.
use Prim.Native.Nat.{ℕ, zero, suc, ◌+◌, ◌-◌, ◌*◌, ◌/◌, ◌%◌, ◌≤◌, ◌<◌}
use mathlib.Core.Path.{◌≡◌, sym, ap, ◌∙◌}
use mathlib.Core.Logic.{inl, inr}
use mathlib.Core.List.{[], ◌∷◌}
use native.Mathlib.Omega.{arith}
use optio_test.Prelude.Tests.{ltb, ltb→lt, Bool-cases, if◌then◌else◌}
use optio_test.Prelude.Lists.{All}
use optio_test.Prelude.Text.{Text}

-- The fuel is above the number, and so above the number of its digits.
show_digits : ℕ → ℕ → Text → Text
show_digits zero n acc = acc
show_digits (suc fuel) n acc =
    let rest = show_digits fuel (n / 10) ((48 + n % 10) ∷ acc) in
    if ltb n 10 then (48 + n % 10) ∷ acc else rest

unfoldable pub show : ℕ → Text
unfolding show_digits
show n = show_digits (suc n) n []

value_from : ℕ → Text → ℕ
value_from v [] = v
value_from v (c ∷ cs) = value_from (10 * v + (c - 48)) cs

last_digit : (n : ℕ) → n < 10 → 10 * 0 + (48 + n % 10 - 48) ≡ n
last_digit n h = omega arith

next_digit : (n : ℕ) → 10 * (n / 10) + (48 + n % 10 - 48) ≡ n
next_digit n = omega arith

value_from-show_digits :
    (fuel n : ℕ) (acc : Text) → n < fuel → value_from 0 (show_digits fuel n acc) ≡ value_from n acc
unfolding show_digits value_from
value_from-show_digits zero n acc h = absurd (omega arith)
value_from-show_digits (suc fuel) n acc h = elim (Bool-cases (ltb n 10)) [
  | inl e ↦ rw e (ap (λ v. value_from v acc) (last_digit n (ltb→lt n 10 e)))
  | inr e ↦ rw e (
      value_from-show_digits fuel (n / 10) ((48 + n % 10) ∷ acc) (ground arith)
      ∙ ap (λ v. value_from v acc) (next_digit n))
]

pub show-injective : (m n : ℕ) → show m ≡ show n → m ≡ n
unfolding show value_from
show-injective m n e =
    sym (value_from-show_digits (suc m) m [] (omega arith))
    ∙ (ap (value_from 0) e ∙ value_from-show_digits (suc n) n [] (omega arith))

abbrev pub IsDigit : ℕ → Type 0
IsDigit c = (48 ≤ c) × (c ≤ 57)

show_digits-IsDigit :
    (fuel n : ℕ) (acc : Text) → All IsDigit acc → All IsDigit (show_digits fuel n acc)
unfolding show_digits
show_digits-IsDigit zero n acc h = h
show_digits-IsDigit (suc fuel) n acc h =
    ground (
      arith,
      show_digits-IsDigit fuel (n / 10) ((48 + n % 10) ∷ acc) ((omega arith, omega arith), h),
    )

pub show-IsDigit : (n : ℕ) → All IsDigit (show n)
unfolding show
show-IsDigit n = show_digits-IsDigit (suc n) n [] tt
