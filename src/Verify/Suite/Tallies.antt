-- ===== src/Verify/Suite/Tallies.antt =====
-- What the report of the gates says of their runs, and which gate the arguments choose.
use optio_test.Prelude.{
  ℕ, ◌≤◌, ◌<◌, ◌≡◌, ◌⊎◌, inl, inr, refl, Bool, true, false, Option, none, some, List, [], ◌∷◌,
  length, arith, Bool-cases, Option-cases, All,
}
use optio_test.Prelude.Text.{Text}
use optio_test.Verify.Suite.{
  Outcome, returned, threw, has_passed, gate_result, Tally, run_gates, count_passed, target_gates,
  run_verification, Options, set_gate, set_flag, digit_gate, takes_value, assigns, assigned_gate,
  parse_args,
}

-- What the tally of a list of gates tells.
record Tallied (runners : ℕ → Outcome) (gates : List ℕ) (t : Tally) : Type 0 where
  passes : t.1 ≡ true → All (λ g. has_passed (runners g) ≡ true) gates
  full : t.1 ≡ true → (count_passed t.0 ≡ length gates) × (length t.0 ≡ length gates)
  fails : t.1 ≡ false → count_passed t.0 < length t.0

recorded : (g : ℕ) (o : Outcome) → (gate_result g o).passed ≡ has_passed o
unfolding gate_result
recorded g (returned p o) = refl
recorded g (threw e) = refl

module _ (runners : ℕ → Outcome) where
  run_gates-Tallied :
      (bail : Bool) (gates : List ℕ) → Tallied runners gates (run_gates runners bail gates)
  unfolding run_gates count_passed
  run_gates-Tallied bail [] = record { passes = λ e. tt; full = λ e. (refl, refl); fails = λ e. cc }
  run_gates-Tallied bail (g ∷ gs) =
      let rest = run_gates-Tallied bail gs in
      let same = recorded g (runners g) in ground (arith, rest.passes, rest.full, rest.fails, same)

  -- The suite reports success only if every gate that was asked for passed, and then counts each of
  -- them as run and as passed; otherwise it counts fewer gates as passed than it ran.
  pub run_verification_lem :
      (gate : Option ℕ) (bail : Bool)
      → ((((run_verification runners gate bail).success ≡ true)
          × All (λ g. has_passed (runners g) ≡ true) (target_gates gate)
          × ((run_verification runners gate bail).passed_count ≡ length (target_gates gate))
          × ((run_verification runners gate bail).total_count ≡ length (target_gates gate))))
        ⊎ (((run_verification runners gate bail).success ≡ false)
            × ((run_verification runners gate bail).passed_count
                < (run_verification runners gate bail).total_count))
  unfolding run_verification
  run_verification_lem gate bail =
      let t = run_gates-Tallied bail (target_gates gate) in
      elim (Bool-cases (run_gates runners bail (target_gates gate)).1) [
        | inl e ↦ inl (e, t.passes e, (t.full e).0, (t.full e).1)
        | inr e ↦ inr (e, t.fails e)
      ]

-- No gate was chosen, or one from 1 to 5.
abbrev pub IsInRange : Option ℕ → Type 0
IsInRange none = Unit {0}
IsInRange (some n) = (1 ≤ n) × (n ≤ 5)

set_gate-IsInRange : (o o' : Options) (n : Option ℕ) → set_gate o n ≡ some o' → IsInRange o'.gate
unfolding set_gate
set_gate-IsInRange o o' none e = cc
set_gate-IsInRange o o' (some n) e = ground arith

digit_gate-IsInRange : (arg : Text) → IsInRange (digit_gate arg)
unfolding digit_gate
digit_gate-IsInRange [] = tt
digit_gate-IsInRange (c ∷ []) = ground arith
digit_gate-IsInRange (c ∷ d ∷ s) = tt

set_flag-IsInRange : (o : Options) (arg : Text) → IsInRange o.gate → IsInRange (set_flag o arg).gate
unfolding set_flag
set_flag-IsInRange o arg h = elim (Option-cases (digit_gate arg)) [
  | inl e ↦ rw (e, set_flag) (ground arith)
  | inr (n, e) ↦ rw (e, set_flag) (rw e at (digit_gate-IsInRange arg))
]

-- The gate that the arguments choose is one from 1 to 5: where the arguments are parsed without an
-- error from options with no gate or such a gate, so are the options that come out.
pub parse_args-IsInRange :
    (parse_int : Text → Option ℕ) (o o' : Options) (args : List Text)
    → IsInRange o.gate
    → parse_args parse_int o args ≡ some o'
    → IsInRange o'.gate
unfolding parse_args
parse_args-IsInRange parse_int o o' [] h e = ground arith
parse_args-IsInRange parse_int o o' (arg ∷ []) h e =
    ground (arith, set_gate-IsInRange o o', set_flag-IsInRange o arg h)
parse_args-IsInRange parse_int o o' (arg ∷ val ∷ args) h e = elim (Bool-cases (takes_value arg)) [
  | inl k ↦ elim (Option-cases (set_gate o (parse_int val))) [
    | inl n ↦ absurd (cc (rw (k, n, parse_args) at e))
    | inr (x, n) ↦
        parse_args-IsInRange parse_int x o' args (set_gate-IsInRange o x (parse_int val) n)
          (rw (k, n, parse_args) at e)
  ]
  | inr k ↦ elim (Bool-cases (assigns arg)) [
    | inl a ↦ elim (Option-cases (set_gate o (assigned_gate parse_int arg))) [
      | inl n ↦ absurd (cc (rw (k, a, n, parse_args) at e))
      | inr (x, n) ↦
          parse_args-IsInRange parse_int x o' (val ∷ args)
            (set_gate-IsInRange o x (assigned_gate parse_int arg) n) (rw (k, a, n, parse_args) at e)
    ]
    | inr a ↦
        parse_args-IsInRange parse_int (set_flag o arg) o' (val ∷ args) (set_flag-IsInRange o arg h)
          (rw (k, a, parse_args) at e)
  ]
]
