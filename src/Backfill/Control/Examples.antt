-- ===== src/Backfill/Control/Examples.antt =====
-- Runs of the backfill runner with a pause in between.
use optio_test.Prelude.{◌+◌, ◌*◌, ◌≤◌, ◌≡◌, suc, refl, true, false, List, [], ◌∷◌, length}
use optio_test.Types.{paused, running}
use optio_test.Backfill.Control.{
  fetching, working, Control, Event, started, pause_requested, advanced, answered, no_records, idle,
  run_control, on_control, advance, advance_at, loop_test, after_break, after_checkpoint,
}
use optio_test.Backfill.Control.Draining.{steps, only_goes_on, paused_drains}
use optio_test.Backfill.Control.Doubled.{all_stream, only_answers, resume_doubles}
use optio_test.Backfill.Control.Single.{starts_when_idle, IsSingle, run_control-IsSingle}

-- A loop that works on a batch, and one that fetches, asked to stop.
abbrev stopping : Control
stopping = record { stop_requested = true; status = paused; loops = working ∷ fetching ∷ [] }

abbrev ends : List Event
ends = advanced 1 no_records ∷ advanced 0 answered ∷ advanced 0 answered ∷ []

paused_drains_example : steps ends + length (run_control stopping ends).loops ≤ 3 * 2
unfolding only_goes_on advance advance_at loop_test after_break
paused_drains_example = paused_drains stopping ends refl refl

none_left : (run_control stopping ends).loops ≡ []
unfolding run_control on_control advance advance_at loop_test after_break
none_left = refl

abbrev restarts : List Event
restarts =
    started
    ∷ advanced 0 answered
    ∷ pause_requested
    ∷ advanced 0 answered
    ∷ started
    ∷ advanced 0 answered
    ∷ []

run_control-IsSingle_example : IsSingle (run_control idle restarts)
unfolding starts_when_idle on_control advance_at advance loop_test after_checkpoint
run_control-IsSingle_example = run_control-IsSingle restarts refl

abbrev at_work : Control
at_work = record { stop_requested = false; status = running; loops = working ∷ [] }

abbrev schedule : List Event
schedule =
    advanced 0 answered ∷ advanced 1 answered ∷ advanced 1 answered ∷ advanced 0 answered ∷ []

resume_doubles_example :
    let c' = run_control at_work (pause_requested ∷ started ∷ schedule) in
    (length c'.loops ≡ suc 1) × (all_stream c'.loops ≡ true) × (c'.stop_requested ≡ false)
unfolding all_stream only_answers
resume_doubles_example = resume_doubles at_work schedule refl refl
