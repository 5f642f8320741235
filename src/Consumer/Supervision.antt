-- ===== src/Consumer/Supervision.antt =====
-- The supervised connection of apps/consumer/src/consumer.service.ts: `runSupervised`, `attemptStart`,
-- `scheduleReconnect`, `start`, the handler of a closed connection, `stop` and `healthCheck`. Each
-- function is what runs between two awaits. A connection and its channel are named by a number.
pub mod Delay
pub mod Alive
mod Samples
use optio_test.Prelude.{
  ℕ, zero, suc, ◌+◌, ◌-◌, ◌*◌, ◌/◌, ◌^◌, ◌<◌, ◌≡◌, Bool, true, false, ◌&&◌, ◌||◌, not, Option, none,
  some, if◌then◌else◌, min, or_default,
}
use optio_test.Prelude.Text.{Text}
use optio_test.Breaker.{Draw}

-- The fields that the supervision reads and writes.
pub record Supervisor : Type 0 where
  pub base_backoff_ms : ℕ
  pub max_backoff_ms : ℕ
  pub connection : Option ℕ
  pub channel : Option ℕ
  pub consumer_tag : Option Text
  pub is_running : Bool
  pub stopping : Bool
  pub reconnect_attempts : ℕ
  pub reconnect_timer : Option ℕ

unfoldable pub new_supervisor : Option ℕ → Option ℕ → Supervisor
new_supervisor base_backoff_ms max_backoff_ms = record {
  base_backoff_ms = or_default base_backoff_ms 1000;
  max_backoff_ms = or_default max_backoff_ms 30000;
  connection = none;
  channel = none;
  consumer_tag = none;
  is_running = false;
  stopping = false;
  reconnect_attempts = 0;
  reconnect_timer = none;
}

abbrev pub is_set : Option ℕ → Bool
is_set none = false
is_set (some t) = true

abbrev pub cap_ms : Supervisor → ℕ
cap_ms s = min s.max_backoff_ms (s.base_backoff_ms * 2 ^ s.reconnect_attempts)

-- `Math.round(cap / 2 + Math.random() * (cap / 2))`
unfoldable pub delay_ms : ℕ → Draw → ℕ
delay_ms cap r = (cap * r.den + r.num * cap + r.den) / (2 * r.den)

unfoldable pub schedule_reconnect : Supervisor → Draw → Supervisor
schedule_reconnect s r = if s.stopping || is_set s.reconnect_timer then s else record s {
  reconnect_attempts = s.reconnect_attempts + 1;
  reconnect_timer = some (delay_ms (cap_ms s) r);
}

-- `attemptStart` up to the first await of `start`, and whether it waits there for a connection. A
-- start that is already running returns at once.
unfoldable pub attempt_start : Supervisor → Supervisor × Bool
attempt_start s =
    if s.stopping
    then (s, false)
    else if s.is_running
    then (record s { reconnect_attempts = 0 }, false)
    else (s, true)

unfoldable pub run_supervised : Supervisor → Supervisor × Bool
run_supervised s = attempt_start (record s { stopping = false })

-- The callback of the timer.
unfoldable pub on_timer : Supervisor → Supervisor × Bool
on_timer s = attempt_start (record s { reconnect_timer = none })

unfoldable pub on_connected : Supervisor → ℕ → Supervisor
on_connected s conn = record s { connection = some conn }

unfoldable pub on_channel : Supervisor → ℕ → Supervisor
on_channel s ch = record s { channel = some ch }

-- The broker consumes: the end of `start`, and of the attempt.
unfoldable pub on_consuming : Supervisor → Text → Supervisor
on_consuming s tag = record s { consumer_tag = some tag; is_running = true; reconnect_attempts = 0 }

-- Whatever throws in `start` is caught, and thrown on once the connection is closed.
unfoldable pub on_start_error : Supervisor → Supervisor
on_start_error s = record s { channel = none; connection = none; is_running = false }

-- The event `close` of a connection.
unfoldable pub on_close : Supervisor → Draw → Supervisor
on_close s r =
    let dropped = record s { is_running = false; channel = none; connection = none } in
    if s.is_running && not s.stopping then schedule_reconnect dropped r else dropped

-- `stop` up to its first await, and its `finally`.
unfoldable pub on_stop : Supervisor → Supervisor
on_stop s = record s { stopping = true; reconnect_timer = none }

unfoldable pub on_stopped : Supervisor → Supervisor
on_stopped s = record s { channel = none; connection = none; is_running = false }

unfoldable pub is_healthy : Supervisor → Bool
is_healthy s = s.is_running && is_set s.channel

-- The service, with the numbers of the attempts and of the stops that wait for the broker.
pub record System : Type 0 where
  pub service : Supervisor
  pub starting : ℕ
  pub stops : ℕ

abbrev pub begun : System → Supervisor × Bool → System
begun m (s, waits) = record m {
  service = s;
  starting = if waits then m.starting + 1 else m.starting;
}

-- What may happen next. Any attempt in progress may get its connection, its channel or its consumer,
-- or fail; any connection may close, and the service may be run and stopped, at any time.
pub data Step (m : System) : System → Type 0 where
  runs : Step m (begun m (run_supervised m.service))
  fires : (d : ℕ) → m.service.reconnect_timer ≡ some d → Step m (begun m (on_timer m.service))
  connects : (c : ℕ) → 0 < m.starting → Step m (record m { service = on_connected m.service c })
  opens : (c : ℕ) → 0 < m.starting → Step m (record m { service = on_channel m.service c })
  consumes :
      (tag : Text)
      → 0 < m.starting
      → Step m (record m { service = on_consuming m.service tag; starting = m.starting - 1 })
  fails : 0 < m.starting → Step m (record m { service = on_start_error m.service })
  gives_up :
      (r : Draw)
      → 0 < m.starting
      → Step m (record m { service = schedule_reconnect m.service r; starting = m.starting - 1 })
  closes : (r : Draw) → Step m (record m { service = on_close m.service r })
  stops_now : Step m (record m { service = on_stop m.service; stops = m.stops + 1 })
  stopped : 0 < m.stops → Step m (record m { service = on_stopped m.service; stops = m.stops - 1 })

-- What a service that was run under supervision can become.
pub data Reachable (base cap : Option ℕ) : System → Type 0 where
  launched : Reachable base cap (
      begun
        (record { service = new_supervisor base cap; starting = 0; stops = 0 })
        (run_supervised (new_supervisor base cap)))
  next : {m m' : System} → Reachable base cap m → Step m m' → Reachable base cap m'
