-- ===== src/Dlq/Examples.antt =====
-- Two failures of one record, one for each sink.
use optio_test.Prelude.{◌≡◌, refl, none, some, List, [], ◌∷◌}
use optio_test.Prelude.Text.{codes}
use optio_test.Types.{elasticsearch, rabbitmq, SinkTarget}
use optio_test.Dlq.{NewDlqEntry, DlqTable, persist_failures, get_pending_count}

abbrev rejected : SinkTarget → NewDlqEntry
rejected target = record {
  record_id = some 6;
  record_uuid = none;
  sink_target = target;
  payload = none;
  error_code = codes "400";
  error_message = codes "bad";
  stack_trace = none;
}

abbrev table : DlqTable
table = record { rows = []; next_id = 1 }

abbrev both : List NewDlqEntry
both = rejected elasticsearch ∷ rejected rabbitmq ∷ []

keys : (persist_failures table both 4).1 ≡ 1 ∷ 2 ∷ []
unfolding persist_failures
keys = refl

waiting : get_pending_count (persist_failures table both 4).0 ≡ 2
unfolding persist_failures get_pending_count optio_test.Prelude.Order.select
waiting = refl
