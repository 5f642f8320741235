-- ===== src/Backfill/Control/Doubled.antt =====
-- A pause that a call of resume overtakes.
use optio_test.Prelude.{
  ℕ, zero, suc, ◌≡◌, refl, ap, ◌∙◌, Bool, true, false, ◌&&◌, some, List, [], ◌∷◌, ◌++◌, length,
  both_true,
}
use optio_test.Types.{PipelineStatus}
use optio_test.Backfill.Control.{
  Phase, recovering, saving, fetching, working, completing, failing, threw, no_records, answered,
  Control, Event, started, pause_requested, advanced, loop_test, after_checkpoint, advance,
  advance_at, on_control, run_control,
}

-- A loop that has neither reached the end of the table nor failed.
abbrev streams : Phase → Bool
streams completing = false
streams failing = false
streams _ = true

unfoldable pub all_stream : List Phase → Bool
all_stream [] = true
all_stream (p ∷ ps) = streams p && all_stream ps

-- Any loop goes on, its await answered.
abbrev is_answer : Event → Bool
is_answer (advanced i answered) = true
is_answer _ = false

unfoldable pub only_answers : List Event → Bool
only_answers [] = true
only_answers (e ∷ es) = is_answer e && only_answers es

both_hold : (a b : Bool) → a ≡ true → b ≡ true → (a && b) ≡ true
both_hold true b x y = y
both_hold false b x y = cc

all_stream-started :
    (ps : List Phase)
    → all_stream ps ≡ true
    → (all_stream (ps ++ (recovering ∷ [])) ≡ true)
      × (length (ps ++ (recovering ∷ [])) ≡ suc (length ps))
unfolding all_stream
all_stream-started [] h = (refl, refl)
all_stream-started (p ∷ ps) h =
    let (first, rest) = both_true (streams p) (all_stream ps) h in
    let (later, more) = all_stream-started ps rest in
    (both_hold (streams p) (all_stream (ps ++ (recovering ∷ []))) first later, ap suc more)

-- With the request withdrawn, a streaming loop whose await is answered streams on.
streams_on :
    (s : PipelineStatus) (p : Phase)
    → streams p ≡ true
    → (q : Phase) × ((advance false s p answered).1 ≡ some q) × (streams q ≡ true)
unfolding advance loop_test after_checkpoint
streams_on s recovering h = (saving, refl, refl)
streams_on s saving h = (fetching, refl, refl)
streams_on s fetching h = (working, refl, refl)
streams_on s working h = (fetching, refl, refl)
streams_on s completing h = cc
streams_on s failing h = cc

advance_at-streams :
    (s : PipelineStatus) (ps : List Phase) (i : ℕ)
    → all_stream ps ≡ true
    → let ps' = (advance_at false s ps i answered).1 in
      (all_stream ps' ≡ true) × (length ps' ≡ length ps)
unfolding advance_at all_stream
advance_at-streams s [] i h = (refl, refl)
advance_at-streams s (p ∷ ps) zero h =
    let (first, rest) = both_true (streams p) (all_stream ps) h in
    let (q, on, still) = streams_on s p first in
    rw (on, advance_at) (both_hold (streams q) (all_stream ps) still rest, refl)
advance_at-streams s (p ∷ ps) (suc i) h =
    let (first, rest) = both_true (streams p) (all_stream ps) h in
    let (later, same) = advance_at-streams s ps i rest in
    (
      both_hold (streams p) (all_stream (advance_at false s ps i answered).1) first later,
      ap suc same,
    )

run_control-streams :
    (c : Control) (es : List Event)
    → c.stop_requested ≡ false
    → all_stream c.loops ≡ true
    → only_answers es ≡ true
    → (length (run_control c es).loops ≡ length c.loops)
      × (all_stream (run_control c es).loops ≡ true)
      × ((run_control c es).stop_requested ≡ false)
unfolding run_control on_control only_answers
run_control-streams c [] runs h o = (refl, h, runs)
run_control-streams c (started ∷ es) runs h o = cc
run_control-streams c (pause_requested ∷ es) runs h o = cc
run_control-streams c (advanced i threw ∷ es) runs h o = cc
run_control-streams c (advanced i no_records ∷ es) runs h o = cc
run_control-streams c (advanced i answered ∷ es) runs h o =
    let c' = on_control c (advanced i answered) in
    let moved : (all_stream (advance_at c.stop_requested c.status c.loops i answered).1 ≡ true)
        × (length (advance_at c.stop_requested c.status c.loops i answered).1 ≡ length c.loops) =
      rw runs (advance_at-streams c.status c.loops i h) in
    let (same, streaming, open_flag) = run_control-streams c' es runs moved.0 o in
    (same ∙ moved.1, streaming, open_flag)

-- Where a pause is requested while loops are in flight, none of which has failed or reached the end
-- of the table, and the runner is resumed before one of them goes on, the pause is lost: however
-- often and in whatever order the awaits of the old loops and of the new one are answered, all of
-- them stream on, one more than before the pause.
pub resume_doubles :
    (c : Control) (es : List Event)
    → all_stream c.loops ≡ true
    → only_answers es ≡ true
    → let c' = run_control c (pause_requested ∷ started ∷ es) in
      (length c'.loops ≡ suc (length c.loops))
      × (all_stream c'.loops ≡ true)
      × (c'.stop_requested ≡ false)
unfolding run_control on_control
resume_doubles c es h o =
    let (streaming, more) = all_stream-started c.loops h in
    let resumed = on_control (on_control c pause_requested) started in
    let (same, on, withdrawn) = run_control-streams resumed es refl streaming o in
    (same ∙ more, on, withdrawn)
