-- ===== src/Backfill/Control.antt =====
-- apps/pipeline/src/runners/backfill.runner.ts: the flags and the loops in flight, as calls of start,
-- pause and resume come between the awaits of the loops. A phase is an await of `start`.
pub mod Draining
pub mod Single
pub mod Doubled
mod Examples
use optio_test.Prelude.{
  ℕ, zero, suc, Bool, true, false, ◌&&◌, Option, none, some, List, [], ◌∷◌, ◌++◌,
}
use optio_test.Types.{PipelineStatus, initialized, running, paused, completed, failed}

-- The read of the checkpoint, the three saves of a status, the fetch, and the work on a batch from
-- the dispatch to the commit.
pub data Phase : Type 0 where
  recovering saving fetching working completing failing : Phase

-- How an await ends. `no_records` and `answered` differ for the fetch only.
pub data Ending : Type 0 where
  threw no_records answered : Ending

pub record Control : Type 0 where
  pub stop_requested : Bool
  pub status : PipelineStatus
  pub loops : List Phase

pub data Event : Type 0 where
  started : Event
  pause_requested : Event
  advanced : ℕ → Ending → Event

abbrev pub idle : Control
idle = record { stop_requested = false; status = initialized; loops = [] }

-- The test of the loop, and what follows the loop if the test ends it.
unfoldable pub loop_test : Bool → PipelineStatus → PipelineStatus × Option Phase
loop_test true s = (paused, none)
loop_test false s = (s, some fetching)

-- What follows the loop after a `break`.
unfoldable pub after_break : Bool → PipelineStatus → PipelineStatus
after_break true s = paused
after_break false s = s

unfoldable pub after_checkpoint : Bool → PipelineStatus × Option Phase
after_checkpoint true = (paused, none)
after_checkpoint false = (running, some saving)

-- One loop goes on from its await to the next.
unfoldable pub advance : Bool → PipelineStatus → Phase → Ending → PipelineStatus × Option Phase
unfolding loop_test after_break after_checkpoint
advance stop s recovering threw = (s, none)
advance stop s recovering no_records = after_checkpoint stop
advance stop s recovering answered = after_checkpoint stop
advance stop s saving threw = (s, none)
advance stop s saving no_records = loop_test stop s
advance stop s saving answered = loop_test stop s
advance stop s fetching threw = (failed, some failing)
advance stop s fetching no_records = (completed, some completing)
advance stop s fetching answered = (s, some working)
advance stop s working threw = (failed, some failing)
advance stop s working no_records = loop_test stop s
advance stop s working answered = loop_test stop s
advance stop s completing threw = (failed, some failing)
advance stop s completing no_records = (after_break stop s, none)
advance stop s completing answered = (after_break stop s, none)
advance stop s failing e = (s, none)

abbrev kept : Option Phase → List Phase → List Phase
kept none ps = ps
kept (some p) ps = p ∷ ps

-- The loop at a place goes on; a place with no loop changes nothing.
unfoldable pub advance_at :
    Bool → PipelineStatus → List Phase → ℕ → Ending → PipelineStatus × List Phase
unfolding advance
advance_at stop s [] i e = (s, [])
advance_at stop s (p ∷ ps) zero e = let (s', p') = advance stop s p e in (s', kept p' ps)
advance_at stop s (p ∷ ps) (suc i) e = let (s', ps') = advance_at stop s ps i e in (s', p ∷ ps')

-- `resume` clears the flag and calls `start`, which clears it again.
unfoldable pub on_control : Control → Event → Control
unfolding advance_at
on_control c started = record c { stop_requested = false; loops = c.loops ++ (recovering ∷ []) }
on_control c pause_requested = record c { stop_requested = true; status = paused }
on_control c (advanced i e) =
    let (s, ps) = advance_at c.stop_requested c.status c.loops i e in
    record c { status = s; loops = ps }

unfoldable pub run_control : Control → List Event → Control
unfolding on_control
run_control c [] = c
run_control c (e ∷ es) = run_control (on_control c e) es
