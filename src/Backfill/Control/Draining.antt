-- ===== src/Backfill/Control/Draining.antt =====
-- A pause that no start follows: the loops in flight come to an end.
use optio_test.Prelude.{
  ℕ, zero, suc, ◌+◌, ◌*◌, ◌≤◌, ◌≡◌, refl, Bool, true, false, ◌&&◌, Option, none, some, List, [],
  ◌∷◌, length, both_true, ltb, ltb→lt, lt→ltb, ◌<◌, arith,
}
use optio_test.Types.{PipelineStatus}
use optio_test.Backfill.Control.{
  Phase, recovering, saving, fetching, working, completing, failing, Ending, threw, no_records,
  answered, Control, Event, started, pause_requested, advanced, loop_test, after_break,
  after_checkpoint, advance, kept, advance_at, on_control, run_control,
}

-- The awaits that a loop has before it, once it was asked to stop.
abbrev awaits : Phase → ℕ
awaits recovering = 1
awaits saving = 1
awaits fetching = 3
awaits working = 2
awaits completing = 2
awaits failing = 1

all_awaits : List Phase → ℕ
all_awaits [] = 0
all_awaits (p ∷ ps) = awaits p + all_awaits ps

abbrev left_awaits : Option Phase → ℕ
left_awaits none = 0
left_awaits (some p) = awaits p

-- Only loops in flight go on, and nothing starts one.
abbrev goes_on : Control → Event → Bool
goes_on c started = false
goes_on c pause_requested = true
goes_on c (advanced i e) = ltb i (length c.loops)

unfoldable pub only_goes_on : Control → List Event → Bool
unfolding on_control
only_goes_on c [] = true
only_goes_on c (e ∷ es) = goes_on c e && only_goes_on (on_control c e) es

unfoldable pub steps : List Event → ℕ
steps [] = 0
steps (started ∷ es) = steps es
steps (pause_requested ∷ es) = steps es
steps (advanced i e ∷ es) = suc (steps es)

advance-awaits :
    (s : PipelineStatus) (p : Phase) (e : Ending)
    → suc (left_awaits (advance true s p e).1) ≤ awaits p
unfolding advance loop_test after_break after_checkpoint
advance-awaits s recovering threw = omega arith
advance-awaits s recovering no_records = omega arith
advance-awaits s recovering answered = omega arith
advance-awaits s saving threw = omega arith
advance-awaits s saving no_records = omega arith
advance-awaits s saving answered = omega arith
advance-awaits s fetching threw = omega arith
advance-awaits s fetching no_records = omega arith
advance-awaits s fetching answered = omega arith
advance-awaits s working threw = omega arith
advance-awaits s working no_records = omega arith
advance-awaits s working answered = omega arith
advance-awaits s completing threw = omega arith
advance-awaits s completing no_records = omega arith
advance-awaits s completing answered = omega arith
advance-awaits s failing e = omega arith

kept-awaits :
    (p : Option Phase) (ps : List Phase) → all_awaits (kept p ps) ≡ left_awaits p + all_awaits ps
unfolding all_awaits
kept-awaits none ps = omega arith
kept-awaits (some p) ps = refl

none_below : (i : ℕ) → ¬ (i < 0)
none_below i h = omega arith

advance_at-awaits :
    (s : PipelineStatus) (ps : List Phase) (i : ℕ) (e : Ending)
    → ltb i (length ps) ≡ true
    → suc (all_awaits (advance_at true s ps i e).1) ≤ all_awaits ps
unfolding advance_at all_awaits
advance_at-awaits s [] i e h = absurd (none_below i (ltb→lt i 0 h))
advance_at-awaits s (p ∷ ps) zero e h =
    omega (arith, advance-awaits s p e, kept-awaits (advance true s p e).1 ps)
advance_at-awaits s (p ∷ ps) (suc i) e h =
    let later =
      advance_at-awaits s ps i e
        (lt→ltb i (length ps) (omega (arith, ltb→lt (suc i) (suc (length ps)) h))) in
    omega (arith, later)

awaits-bounds : (p : Phase) → (1 ≤ awaits p) × (awaits p ≤ 3)
awaits-bounds recovering = (omega arith, omega arith)
awaits-bounds saving = (omega arith, omega arith)
awaits-bounds fetching = (omega arith, omega arith)
awaits-bounds working = (omega arith, omega arith)
awaits-bounds completing = (omega arith, omega arith)
awaits-bounds failing = (omega arith, omega arith)

loops-awaits : (ps : List Phase) → (length ps ≤ all_awaits ps) × (all_awaits ps ≤ 3 * length ps)
unfolding all_awaits
loops-awaits [] = (omega arith, omega arith)
loops-awaits (p ∷ ps) =
    let (low, high) = awaits-bounds p in
    let (l, h) = loops-awaits ps in (omega (arith, low, l), omega (arith, high, h))

no_start : ¬ (false ≡ true)
no_start e = cc

drained :
    (c : Control) (es : List Event)
    → c.stop_requested ≡ true
    → only_goes_on c es ≡ true
    → steps es + all_awaits (run_control c es).loops ≤ all_awaits c.loops
unfolding only_goes_on steps run_control on_control
drained c [] stop h = omega arith
drained c (started ∷ es) stop h = absurd (no_start h)
drained c (pause_requested ∷ es) stop h = drained (on_control c pause_requested) es refl h
drained c (advanced i e ∷ es) stop h =
    let (inside, rest) =
      both_true (ltb i (length c.loops)) (only_goes_on (on_control c (advanced i e)) es) h in
    let one : suc (all_awaits (advance_at c.stop_requested c.status c.loops i e).1)
        ≤ all_awaits c.loops =
      rw stop (advance_at-awaits c.status c.loops i e inside) in
    let later = drained (on_control c (advanced i e)) es stop rest in omega (arith, one, later)

-- Once a pause was requested and while nothing starts the runner, the loops in flight end, however
-- their awaits end and in any order: together they go on at most three times each, and where they
-- have done so none is left. So whatever calls of pause come between, a run in which a loop goes on
-- at every step comes to an end with no loop in flight.
pub paused_drains :
    (c : Control) (es : List Event)
    → c.stop_requested ≡ true
    → only_goes_on c es ≡ true
    → steps es + length (run_control c es).loops ≤ 3 * length c.loops
paused_drains c es stop h =
    let few = (loops-awaits (run_control c es).loops).0 in
    let many = (loops-awaits c.loops).1 in omega (arith, drained c es stop h, few, many)
