-- ===== src/Consumer/Supervision/Samples.antt =====
-- A service that starts, loses its connection and waits for its timer; and one that is then stopped.
use optio_test.Prelude.{◌≡◌, refl, false, none, some, arith}
use optio_test.Prelude.Text.{codes}
use optio_test.Breaker.{Draw}
use optio_test.Consumer.Supervision.{
  Supervisor, System, Reachable, new_supervisor, run_supervised, attempt_start, on_connected,
  on_channel, on_consuming, on_close, schedule_reconnect, delay_ms, connects, opens, consumes,
  closes, launched, next,
}
use optio_test.Consumer.Supervision.Alive.{Inv, supervised-Inv}

abbrev half : Draw
half = record { num = 1; den = 2; below_one = omega arith }

waits : delay_ms 1000 half ≡ 750
unfolding delay_ms
waits = refl

abbrev service : Supervisor
service = record {
  base_backoff_ms = 1000;
  max_backoff_ms = 30000;
  connection = none;
  channel = none;
  consumer_tag = some (codes "t");
  is_running = false;
  stopping = false;
  reconnect_attempts = 1;
  reconnect_timer = some 750;
}

abbrev waiting : System
waiting = record { service = service; starting = 0; stops = 0 }

waiting-Reachable : Reachable none none waiting
unfolding new_supervisor run_supervised attempt_start on_connected on_channel on_consuming on_close
    schedule_reconnect delay_ms
waiting-Reachable =
    next
      (next (next (next launched (connects 1 (omega arith))) (opens 1 (omega arith)))
        (consumes (codes "t") (omega arith)))
      (closes half)

supervised-Inv_example : Inv waiting
unfolding waiting-Reachable
supervised-Inv_example =
    supervised-Inv none none waiting waiting-Reachable (tt, (tt, (tt, (tt, tt))))
