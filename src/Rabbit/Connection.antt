-- ===== src/Rabbit/Connection.antt =====
-- The connection of apps/pipeline/src/sinks/rabbitmq/rabbitmq.sink.ts: `connect`, cut at its awaits, the
-- handlers of its events, and `disconnect`. A connection and its channel are named by a number.
use optio_test.Prelude.{
  ℕ, ◌≡◌, refl, ap, Bool, true, false, ◌&&◌, Option, none, some, List, [], ◌∷◌, All,
}
use optio_test.Types.{SourceRecord, ReplicationEventType}
use optio_test.Rabbit.{RabbitMqSink, Broker, publish_batch}
use optio_test.Coordinator.{rmq_health_check}

pub record Connection : Type 0 where
  pub connection : Option ℕ
  pub channel : Option ℕ
  pub is_connected : Bool

abbrev pub disconnected : Connection
disconnected = record { connection = none; channel = none; is_connected = false }

abbrev pub is_open : Option ℕ → Bool
is_open none = false
is_open (some c) = true

-- The sink may publish on its channel.
abbrev pub has_channel : Connection → Bool
has_channel c = is_open c.channel

-- `isConnected && channel`, on which `connect` returns at once and the health check goes on.
abbrev pub is_usable : Connection → Bool
is_usable c = c.is_connected && is_open c.channel

-- The blocks of `connect` after the broker has answered (`connected`, `opened` and, with the topology,
-- `declared`), and what else changes the state.
pub data Event : Type 0 where
  connected opened : ℕ → Event
  declared : Event
  connection_failed connection_closed channel_closed was_disconnected : Event

unfoldable pub on_event : Connection → Event → Connection
on_event c (connected k) = record c { connection = some k }
on_event c (opened k) = record c { channel = some k }
on_event c declared = record c { is_connected = true }
on_event c connection_failed = record c { is_connected = false }
on_event c connection_closed = record c { is_connected = false; channel = none }
on_event c channel_closed = record c { channel = none }
on_event c was_disconnected = disconnected

unfoldable pub run_events : Connection → List Event → Connection
run_events c [] = c
run_events c (e ∷ es) = run_events (on_event c e) es

-- An event that no call of `connect` is part of.
abbrev pub IsPassive : Event → Type 0
IsPassive (connected k) = ⊥
IsPassive (opened k) = ⊥
IsPassive declared = ⊥
IsPassive other = Unit {0}

stays_closed :
    (c : Connection) (es : List Event)
    → c.channel ≡ none
    → All IsPassive es
    → (run_events c es).channel ≡ none
unfolding run_events on_event
stays_closed c [] h p = h
stays_closed c (connected k ∷ es) h (p, ps) = elim p [ ]
stays_closed c (opened k ∷ es) h (p, ps) = elim p [ ]
stays_closed c (declared ∷ es) h (p, ps) = elim p [ ]
stays_closed c (connection_failed ∷ es) h (p, ps) = stays_closed _ es h ps
stays_closed c (connection_closed ∷ es) h (p, ps) = stays_closed _ es refl ps
stays_closed c (channel_closed ∷ es) h (p, ps) = stays_closed _ es refl ps
stays_closed c (was_disconnected ∷ es) h (p, ps) = stays_closed _ es refl ps

-- Once the connection was closed, nothing but another call of `connect` opens the sink again: whatever
-- other events follow, the health check reports the sink as unhealthy, whatever the broker would
-- answer, and the publishing of a batch that is not empty throws.
pub closed_lem :
    (c : Connection) (es : List Event) (responds : Bool) (started now : ℕ) (s : RabbitMqSink)
    (b : Broker) (r : SourceRecord) (rs : List SourceRecord) (t : ReplicationEventType)
    → All IsPassive es
    → let after = run_events (on_event c connection_closed) es in
      ((rmq_health_check (is_usable after) responds started now).is_healthy ≡ false)
      × (publish_batch (record s { has_channel = has_channel after }) b (r ∷ rs) t ≡ none)
unfolding rmq_health_check publish_batch on_event
closed_lem c es responds started now s b r rs t p =
    let after = run_events (on_event c connection_closed) es in
    let shut = stays_closed (on_event c connection_closed) es refl p in
    let unusable : is_usable after ≡ false = rw shut (unopened after.is_connected) in
    (rw (unusable, rmq_health_check) refl, rw (ap is_open shut, publish_batch) refl)
  where
    unopened : (b : Bool) → (b && false) ≡ false
    unopened true = refl
    unopened false = refl
