-- ===== src/Ui/Examples.antt =====
-- A history of two samples that is given three snapshots, one of them twice.
use optio_test.Prelude.{true, false, ◌≡◌, refl, none, some, List, [], ◌∷◌, Option, arith}
use optio_test.Prelude.Text.{Text, codes, text_eq}
use optio_test.Prelude.Int.{ℤ, pos}
use optio_test.Ui.{no_history, on_snapshot}
use optio_test.Ui.Polling.{
  Polling, Reachable, on_poll, on_failure, launched, next, polls, fails, Inv, polling-Inv,
}
use optio_test.Ui.Windows.{run_history, fresh_samples, last_n, history_lem}

abbrev snapshots : List (Option ℤ × Option Text)
snapshots =
    (some (pos 5), some (codes "a"))
    ∷ (some (pos 5), some (codes "a"))
    ∷ (none, some (codes "b"))
    ∷ (some (pos 7), some (codes "c"))
    ∷ []

keeps_two : (run_history 2 no_history snapshots).history ≡ pos 0 ∷ pos 7 ∷ []
unfolding run_history on_snapshot text_eq
keeps_two = refl

history_lem_example :
    (run_history 2 no_history snapshots).history ≡ last_n 2 (fresh_samples none snapshots)
history_lem_example = history_lem 2 snapshots (omega arith)

-- A poll that fails, while a second one is asked for and not sent.
abbrev offline : Polling
offline = record {
  state = record {
    telemetry = none;
    loading = false;
    is_connected = false;
    last_updated = none;
    error = some (codes "x");
    in_flight = false;
    mounted = true;
  };
  requests = 0;
}

offline-Reachable : Reachable offline
unfolding on_poll on_failure
offline-Reachable = next (next (next launched polls) polls) (fails (codes "x") (omega arith))

polling-Inv_example : Inv offline
polling-Inv_example = polling-Inv offline offline-Reachable
