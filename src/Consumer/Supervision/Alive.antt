-- ===== src/Consumer/Supervision/Alive.antt =====
-- What holds of the supervised connection whatever the broker does.
use optio_test.Prelude.{Option, ℕ, ◌<◌, ◌≡◌, ◌⊎◌, true, false, none, arith}
use optio_test.Consumer.Supervision.{
  System, Step, Reachable, is_set, new_supervisor, run_supervised, attempt_start, on_timer,
  on_connected, on_channel, on_consuming, on_start_error, on_close, on_stop, on_stopped,
  schedule_reconnect, runs, fires, connects, opens, consumes, fails, gives_up, closes, stops_now,
  stopped, launched, next,
}

pub record Inv (m : System) : Type 0 where
  pub alive :
      m.service.stopping ≡ false
      → (m.service.is_running ≡ true)
        ⊎ ((0 < m.starting) ⊎ (is_set m.service.reconnect_timer ≡ true))
  pub quiet : m.service.stopping ≡ true → m.service.reconnect_timer ≡ none
  pub settled : m.service.stopping ≡ false → m.stops ≡ 0

-- A step that is no call of `runSupervised` while a stop waits for the broker.
abbrev pub IsOrderly : {m m' : System} → Step m m' → Type 0
IsOrderly {m} runs = m.stops ≡ 0
IsOrderly _ = Unit

-- A history with such steps only.
abbrev pub AreOrderly : {base cap : Option ℕ} {m : System} → Reachable base cap m → Type 0
AreOrderly launched = Unit
AreOrderly (next r s) = IsOrderly s × AreOrderly r

Step-Inv : (m m' : System) (s : Step m m') → IsOrderly s → Inv m → Inv m'
unfolding run_supervised attempt_start on_timer on_connected on_channel on_consuming on_start_error
    on_close on_stop on_stopped schedule_reconnect
Step-Inv m m' runs h v = ground arith
Step-Inv m m' (fires d h) o v = ground arith
Step-Inv m m' (connects c h) o v = ground arith
Step-Inv m m' (opens c h) o v = ground arith
Step-Inv m m' (consumes tag h) o v = ground arith
Step-Inv m m' (fails h) o v = ground arith
Step-Inv m m' (gives_up r h) o v = ground arith
Step-Inv m m' (closes r) o v = ground arith
Step-Inv m m' stops_now o v = ground arith
Step-Inv m m' (stopped h) o v = ground arith

-- However attempts, timers, dropped connections, runs and stops interleave, provided that no call of
-- `runSupervised` comes while a stop waits for the broker: unless it was stopped, the service is
-- consuming, or trying to start, or has a reconnect scheduled; once it was stopped, no reconnect is
-- scheduled, so it starts no attempt by itself.
pub supervised-Inv :
    (base cap : Option ℕ) (m : System) (r : Reachable base cap m) → AreOrderly r → Inv m
unfolding run_supervised attempt_start new_supervisor
supervised-Inv base cap m launched o = ground arith
supervised-Inv base cap m (next {m = m'} r s) (o, os) =
    Step-Inv m' m s o (supervised-Inv base cap m' r os)
