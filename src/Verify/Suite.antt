-- ===== src/Verify/Suite.antt =====
-- scripts/verify/index.js: the arguments, and the run of the gates. The runner of a gate is a
-- parameter, given by what it comes to; the start of the daemon before each gate, the options that a
-- runner is given, the banner and the timing are left out.
pub mod Tallies
use optio_test.Prelude.{
  ℕ, suc, ◌+◌, ◌-◌, ◌||◌, Bool, true, false, ◌&&◌, Option, none, some, List, [], ◌∷◌, ◌++◌, length,
  ltb, leb, ◌==◌, if◌then◌else◌, or_nonzero,
}
use optio_test.Prelude.Text.{Text, codes, text_eq, starts_with, or_text}
use optio_test.Prelude.Decimal.{show}
use optio_test.Verify.{format_gate_result, verdict}

-- What a runner comes to: a result, with its output where it has one, or an error with its message.
pub data Outcome : Type 0 where
  returned : Bool → Option Text → Outcome
  threw : Option Text → Outcome

pub record GateResult : Type 0 where
  pub gate : ℕ
  pub passed : Bool
  pub output : Text

abbrev pub gate_name : ℕ → Text
gate_name g =
    if g == 1
    then codes "G1 resume after kill"
    else if g == 2
    then codes "G2 no duplicates"
    else if g == 3
    then codes "G3 sink outage"
    else if g == 4
    then codes "G4 partial batch failure"
    else codes "G5 observability"

abbrev pub has_passed : Outcome → Bool
has_passed (returned passed output) = passed
has_passed (threw message) = false

pub gate_result : ℕ → Outcome → GateResult
gate_result g (returned passed output) = record {
  gate = g;
  passed = passed;
  output = or_text output (format_gate_result (gate_name g) (verdict passed) []);
}
gate_result g (threw message) = record {
  gate = g;
  passed = false;
  output = format_gate_result (gate_name g) (codes "FAIL") (or_text message (codes "runner error"));
}

-- The results, and the variable `allPassed`.
abbrev pub Tally : Type 0
Tally = List GateResult × Bool

-- The loop over the gates: `bail` ends it after the first that fails.
unfoldable pub run_gates : (ℕ → Outcome) → Bool → List ℕ → Tally
unfolding gate_result
run_gates runners bail [] = ([], true)
run_gates runners bail (g ∷ gs) =
    let (rest, all_passed) = run_gates runners bail gs in
    let res = gate_result g (runners g) in
    if has_passed (runners g)
    then (res ∷ rest, all_passed)
    else if bail
    then (res ∷ [], false)
    else (res ∷ rest, false)

abbrev all_gates : List ℕ
all_gates = 1 ∷ 2 ∷ 3 ∷ 4 ∷ 5 ∷ []

-- `options.gate ? [options.gate] : [1, 2, 3, 4, 5]`
abbrev pub target_gates : Option ℕ → List ℕ
target_gates none = all_gates
target_gates (some g) = if g == 0 then all_gates else g ∷ []

pub count_passed : List GateResult → ℕ
count_passed [] = 0
count_passed (r ∷ rs) = if r.passed then suc (count_passed rs) else count_passed rs

pub record Report : Type 0 where
  pub success : Bool
  pub passed_count : ℕ
  pub total_count : ℕ
  pub results : List GateResult
  pub summary_title : Text

pub title : Bool → ℕ → ℕ → ℕ → Text
title success passed_count total_count first =
    if success
    then (if total_count == 1
        then codes "GATE " ++ (show first ++ codes " RESILIENCE GATE PASSED [1/1]")
        else codes "ALL RESILIENCE GATES PASSED ["
          ++ (show passed_count ++ (codes "/" ++ (show total_count ++ codes "]"))))
    else codes "VERIFICATION FAILED ["
      ++ (show passed_count ++ (codes "/" ++ (show total_count ++ codes " passed]")))

unfoldable pub run_verification : (ℕ → Outcome) → Option ℕ → Bool → Report
unfolding run_gates count_passed title
run_verification runners gate bail =
    let (results, all_passed) = run_gates runners bail (target_gates gate) in
    record {
      success = all_passed;
      passed_count = count_passed results;
      total_count = length results;
      results = results;
      summary_title = title all_passed (count_passed results) (length results) (or_nonzero gate 1);
    }

pub record Options : Type 0 where
  pub gate : Option ℕ
  pub quick : Bool
  pub bail : Bool
  pub help : Bool

abbrev is_gate : ℕ → Bool
is_gate n = leb 1 n && leb n 5

set_gate : Options → Option ℕ → Option Options
set_gate o none = none
set_gate o (some n) = if is_gate n then some (record o { gate = some n }) else none

-- `/^[1-5]$/`
digit_gate : Text → Option ℕ
digit_gate [] = none
digit_gate (c ∷ []) = if leb 49 c && leb c 53 then some (c - 48) else none
digit_gate (c ∷ d ∷ s) = none

abbrev pub is_either : Text → Text → Text → Bool
is_either arg long short = text_eq arg long || text_eq arg short

set_flag : Options → Text → Options
unfolding digit_gate
set_flag o arg = elim (digit_gate arg) [
  | some n ↦ record o { gate = some n }
  | none ↦
      if is_either arg (codes "--quick") (codes "-q")
      then record o { quick = true }
      else if text_eq arg (codes "--bail")
      then record o { bail = true }
      else if is_either arg (codes "--help") (codes "-h")
      then record o { help = true }
      else o
]

take_until : ℕ → Text → Text
take_until c [] = []
take_until c (d ∷ s) = let rest = take_until c s in if c == d then [] else d ∷ rest

after_prefix : Text → Text → Text
after_prefix [] s = s
after_prefix (p ∷ ps) [] = []
after_prefix (p ∷ ps) (c ∷ s) = after_prefix ps s

-- The gate of an argument `--gate=`.
pub assigned_gate : (Text → Option ℕ) → Text → Option ℕ
unfolding take_until after_prefix
assigned_gate parse_int arg = parse_int (take_until 61 (after_prefix (codes "--gate=") arg))

abbrev pub takes_value : Text → Bool
takes_value arg = is_either arg (codes "--gate") (codes "-g")

abbrev pub assigns : Text → Bool
assigns arg = starts_with (codes "--gate=") arg

-- `parse_int` stands for `parseInt`, `none` for what is no natural number; an invalid gate throws,
-- which is `none`.
unfoldable pub parse_args : (Text → Option ℕ) → Options → List Text → Option Options
unfolding set_gate set_flag digit_gate assigned_gate
parse_args parse_int o [] = some o
parse_args parse_int o (arg ∷ []) =
    if takes_value arg
    then none
    else if assigns arg
    then set_gate o (assigned_gate parse_int arg)
    else some (set_flag o arg)
parse_args parse_int o (arg ∷ val ∷ args) =
    if takes_value arg
    then elim (set_gate o (parse_int val)) [ none ↦ none | some o' ↦ parse_args parse_int o' args ]
    else if assigns arg
    then elim (set_gate o (assigned_gate parse_int arg)) [
      | none ↦ none
      | some o' ↦ parse_args parse_int o' (val ∷ args)
    ]
    else parse_args parse_int (set_flag o arg) (val ∷ args)
