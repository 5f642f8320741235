-- ===== src/Backfill/Control/Single.antt =====
-- Calls of start that come only while no loop is in flight.
use optio_test.Prelude.{
  ℕ, zero, suc, ◌≡◌, refl, Bool, true, false, ◌&&◌, ◌||◌, List, [], ◌∷◌, ◌++◌, both_true,
}
use optio_test.Types.{PipelineStatus, running, paused, completed, failed}
use optio_test.Backfill.Control.{
  Phase, recovering, saving, fetching, working, completing, failing, Ending, threw, no_records,
  answered, Control, Event, started, pause_requested, advanced, idle, loop_test, after_break,
  after_checkpoint, advance, kept, advance_at, on_control, run_control,
}

abbrev is_idle : List Phase → Bool
is_idle [] = true
is_idle (p ∷ ps) = false

abbrev waits : Control → Event → Bool
waits c started = is_idle c.loops
waits c pause_requested = true
waits c (advanced i e) = true

-- Every call of start finds no loop in flight.
unfoldable pub starts_when_idle : Control → List Event → Bool
unfolding on_control
starts_when_idle c [] = true
starts_when_idle c (e ∷ es) = waits c e && starts_when_idle (on_control c e) es

abbrev is_running : PipelineStatus → Bool
is_running running = true
is_running _ = false

abbrev is_paused : PipelineStatus → Bool
is_paused paused = true
is_paused _ = false

abbrev shows_completed : PipelineStatus → Bool
shows_completed completed = true
shows_completed _ = false

abbrev is_failed : PipelineStatus → Bool
is_failed failed = true
is_failed _ = false

abbrev is_busy : Bool → PipelineStatus → Bool
is_busy true s = is_paused s
is_busy false s = is_running s

-- The status that the metrics show fits the phase of a loop.
abbrev pub fits : Bool → PipelineStatus → Phase → Bool
fits stop s recovering = true
fits stop s saving = is_busy stop s
fits stop s fetching = is_busy stop s
fits stop s working = is_busy stop s
fits stop s completing = shows_completed s || (stop && is_paused s)
fits stop s failing = is_failed s || (stop && is_paused s)

abbrev pub all_fit : Bool → PipelineStatus → List Phase → Bool
all_fit stop s [] = true
all_fit stop s (p ∷ []) = fits stop s p
all_fit stop s (p ∷ q ∷ ps) = false

-- There is one loop at most, and the status fits it.
abbrev pub IsSingle : Control → Type 0
IsSingle c = all_fit c.stop_requested c.status c.loops ≡ true

advance-fits :
    (stop : Bool) (s : PipelineStatus) (p : Phase) (e : Ending)
    → fits stop s p ≡ true
    → let (s', p') = advance stop s p e in all_fit stop s' (kept p' []) ≡ true
unfolding advance loop_test after_break after_checkpoint
advance-fits stop s recovering threw h = refl
advance-fits true s recovering no_records h = refl
advance-fits false s recovering no_records h = refl
advance-fits true s recovering answered h = refl
advance-fits false s recovering answered h = refl
advance-fits stop s saving threw h = refl
advance-fits true s saving no_records h = refl
advance-fits false s saving no_records h = h
advance-fits true s saving answered h = refl
advance-fits false s saving answered h = h
advance-fits stop s fetching threw h = refl
advance-fits stop s fetching no_records h = refl
advance-fits stop s fetching answered h = h
advance-fits stop s working threw h = refl
advance-fits true s working no_records h = refl
advance-fits false s working no_records h = h
advance-fits true s working answered h = refl
advance-fits false s working answered h = h
advance-fits stop s completing threw h = refl
advance-fits stop s completing no_records h = refl
advance-fits stop s completing answered h = refl
advance-fits stop s failing e h = refl

advance_at-fits :
    (stop : Bool) (s : PipelineStatus) (ps : List Phase) (i : ℕ) (e : Ending)
    → all_fit stop s ps ≡ true
    → let (s', ps') = advance_at stop s ps i e in all_fit stop s' ps' ≡ true
unfolding advance_at
advance_at-fits stop s [] i e h = refl
advance_at-fits stop s (p ∷ []) zero e h = advance-fits stop s p e h
advance_at-fits stop s (p ∷ []) (suc i) e h = h
advance_at-fits stop s (p ∷ q ∷ ps) i e h = cc

pause-fits :
    (stop : Bool) (s : PipelineStatus) (ps : List Phase)
    → all_fit stop s ps ≡ true
    → all_fit true paused ps ≡ true
pause-fits stop s [] h = refl
pause-fits stop s (recovering ∷ []) h = refl
pause-fits stop s (saving ∷ []) h = refl
pause-fits stop s (fetching ∷ []) h = refl
pause-fits stop s (working ∷ []) h = refl
pause-fits stop s (completing ∷ []) h = refl
pause-fits stop s (failing ∷ []) h = refl
pause-fits stop s (p ∷ q ∷ ps) h = cc

start-fits :
    (s : PipelineStatus) (ps : List Phase)
    → is_idle ps ≡ true
    → all_fit false s (ps ++ (recovering ∷ [])) ≡ true
start-fits s [] h = refl
start-fits s (p ∷ ps) h = cc

run-fits :
    (c : Control) (es : List Event)
    → IsSingle c
    → starts_when_idle c es ≡ true
    → IsSingle (run_control c es)
unfolding starts_when_idle run_control on_control
run-fits c [] single h = single
run-fits c (started ∷ es) single h =
    let (alone, rest) =
      both_true (is_idle c.loops) (starts_when_idle (on_control c started) es) h in
    run-fits (on_control c started) es (start-fits c.status c.loops alone) rest
run-fits c (pause_requested ∷ es) single h =
    run-fits (on_control c pause_requested) es (pause-fits c.stop_requested c.status c.loops single)
      h
run-fits c (advanced i e ∷ es) single h =
    run-fits (on_control c (advanced i e)) es
      (advance_at-fits c.stop_requested c.status c.loops i e single) h

-- As long as every call of start or resume finds no loop in flight, a new runner has one loop at
-- most, whatever its awaits end with and whenever a pause is requested; and the status fits the
-- phase of the loop: RUNNING while it saves that, fetches and works, COMPLETED or FAILED while it
-- saves that, or PAUSED once a pause was requested.
pub run_control-IsSingle :
    (es : List Event) → starts_when_idle idle es ≡ true → IsSingle (run_control idle es)
run_control-IsSingle es h = run-fits idle es refl h
