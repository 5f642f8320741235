-- ===== src/Ui/Format.antt =====
-- apps/ui/src/lib/format.ts, but for the timestamps. `fixed` stands for `(n / 1000).toFixed(1)`,
-- `format` for the number formats of `Intl`, `none` for what is missing or not finite. The lengths
-- are those of texts without surrogate pairs.
use optio_test.Prelude.{
  ℕ, ◌-◌, ◌/◌, ◌%◌, ◌≤◌, ◌<◌, Option, none, some, [], ◌∷◌, ◌++◌, length, length-append, length-take,
  take, ltb, if◌then◌else◌, arith, Bool-cases, inl, inr,
}
use optio_test.Prelude.Text.{Text, codes}
use optio_test.Prelude.Decimal.{show}

-- An em dash.
abbrev missing : Text
missing = 8212 ∷ []

-- `fmtInt`, `fmtDecimal` and `fmtMoney`, each with its format.
fmt_number : {N : Type 0} → (N → Text) → Option N → Text
fmt_number format none = missing
fmt_number format (some n) = format n

-- `s.padStart(2, '0')` of a number.
pad2 : ℕ → Text
pad2 n = if ltb (length (show n)) 2 then 48 ∷ show n else show n

unfoldable pub fmt_duration : (ℕ → Text) → Option ℕ → Text
unfolding pad2
fmt_duration fixed none = missing
fmt_duration fixed (some ms) =
    if ltb ms 1000
    then show ms ++ codes "ms"
    else if ltb ms 60000
    then fixed ms ++ codes "s"
    else if ltb ms 3600000
    then show (ms / 60000) ++ (codes "m" ++ (pad2 (ms % 60000 / 1000) ++ codes "s"))
    else show (ms / 3600000) ++ (codes "h" ++ (pad2 (ms % 3600000 / 60000) ++ codes "m"))

unfoldable pub truncate : Option Text → ℕ → Text
truncate none limit = missing
truncate (some []) limit = missing
truncate (some (c ∷ s)) limit =
    if ltb limit (length (c ∷ s)) then take (limit - 1) (c ∷ s) ++ (8230 ∷ []) else c ∷ s

unfoldable pub short_id : Option Text → Text
short_id none = missing
short_id (some []) = missing
short_id (some (c ∷ s)) = if ltb 8 (length (c ∷ s)) then take 8 (c ∷ s) ++ (8230 ∷ []) else c ∷ s

-- A truncated text is no longer than the limit, if that is positive.
truncate_bounds :
    (value : Option Text) (limit : ℕ) → 0 < limit → length (truncate value limit) ≤ limit
unfolding truncate
truncate_bounds none limit h = omega arith
truncate_bounds (some []) limit h = omega arith
truncate_bounds (some (c ∷ s)) limit h =
    let kept = length-take (limit - 1) (c ∷ s) in
    let joined = length-append (take (limit - 1) (c ∷ s)) (8230 ∷ []) in
    elim (Bool-cases (ltb limit (length (c ∷ s)))) [
      | inl e ↦ rw (e, truncate) (omega (arith, kept, joined, h))
      | inr e ↦ rw (e, truncate) (ground arith)
    ]
