-- ===== src/Ui/Polling.antt =====
-- apps/ui/src/hooks/useTelemetry.ts: the polling of the telemetry. Each function is what runs between
-- two awaits. The timers only decide when a poll starts, so they are left out.
use optio_test.Prelude.{
  ℕ, ◌+◌, ◌-◌, ◌<◌, ◌≡◌, Bool, true, false, Option, none, some, if◌then◌else◌, arith,
}
use optio_test.Prelude.Text.{Text}
use optio_test.Coordinator.{PipelineTelemetry}

-- What the hook returns, and its references `inFlightRef` and `mountedRef`.
pub record TelemetryState : Type 0 where
  pub telemetry : Option PipelineTelemetry
  pub loading : Bool
  pub is_connected : Bool
  pub last_updated : Option ℕ
  pub error : Option Text
  pub in_flight : Bool
  pub mounted : Bool

abbrev pub initial_state : TelemetryState
initial_state = record {
  telemetry = none;
  loading = true;
  is_connected = false;
  last_updated = none;
  error = none;
  in_flight = false;
  mounted = true;
}

-- `poll` up to the request, and whether it sends one.
unfoldable pub on_poll : TelemetryState → TelemetryState × Bool
on_poll s = if s.in_flight then (s, false) else (record s { in_flight = true }, true)

-- `finally`
settled : TelemetryState → TelemetryState
settled s = record s { in_flight = false; loading = if s.mounted then false else s.loading }

unfoldable pub on_telemetry : TelemetryState → PipelineTelemetry → ℕ → TelemetryState
unfolding settled
on_telemetry s t now = settled (
    if s.mounted
    then record s { telemetry = some t; is_connected = true; error = none; last_updated = some now }
    else s)

unfoldable pub on_failure : TelemetryState → Text → TelemetryState
unfolding settled
on_failure s message =
    settled (if s.mounted then record s { is_connected = false; error = some message } else s)

-- The state, and the number of requests that wait for an answer.
pub record Polling : Type 0 where
  pub state : TelemetryState
  pub requests : ℕ

abbrev polled : Polling → TelemetryState × Bool → Polling
polled m (s, sends) = record { state = s; requests = if sends then m.requests + 1 else m.requests }

-- What may happen next: a poll, by a timer or by the operator, at any time; an answer to a request; and
-- the end or the start of the effect.
pub data Step (m : Polling) : Polling → Type 0 where
  polls : Step m (polled m (on_poll m.state))
  answers :
      (t : PipelineTelemetry) (now : ℕ)
      → 0 < m.requests
      → Step m (record { state = on_telemetry m.state t now; requests = m.requests - 1 })
  fails :
      (message : Text)
      → 0 < m.requests
      → Step m (record { state = on_failure m.state message; requests = m.requests - 1 })
  unmounts : Step m (record m { state = record m.state { mounted = false } })
  mounts : Step m (record m { state = record m.state { mounted = true } })

pub data Reachable : Polling → Type 0 where
  launched : Reachable (record { state = initial_state; requests = 0 })
  next : {m m' : Polling} → Reachable m → Step m m' → Reachable m'

abbrev pub is_given : Option PipelineTelemetry → Bool
is_given none = false
is_given (some t) = true

pub record Inv (m : Polling) : Type 0 where
  pub alone : m.requests ≡ (if m.state.in_flight then 1 else 0)
  pub shown : m.state.is_connected ≡ true → is_given m.state.telemetry ≡ true
  pub clean : m.state.is_connected ≡ true → m.state.error ≡ none
  pub first : m.state.loading ≡ true → m.state.is_connected ≡ false

Step-Inv : (m m' : Polling) → Step m m' → Inv m → Inv m'
unfolding on_poll on_telemetry on_failure settled
Step-Inv m m' polls v = ground arith
Step-Inv m m' (answers t now h) v = ground arith
Step-Inv m m' (fails message h) v = ground arith
Step-Inv m m' unmounts v = ground arith
Step-Inv m m' mounts v = ground arith

-- However polls, answers, failures and the mounting of the component interleave: at most one request
-- waits for an answer, exactly if the flag says so; and while the state says that it is connected, it
-- has a snapshot, shows no error and is not loading.
pub polling-Inv : (m : Polling) → Reachable m → Inv m
polling-Inv m launched = ground arith
polling-Inv m (next {m = m'} r s) = Step-Inv m' m s (polling-Inv m' r)
