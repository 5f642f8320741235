-- ===== src/Replayer/Entry.antt =====
-- apps/pipeline/src/dlq/dlq.replayer.ts: the record that a replay makes of an entry of the queue. What
-- `Number` gives for a JSON value that is no number is a parameter, `none` for NaN.
use optio_test.Prelude.{
  ℕ, Bool, true, false, Option, none, some, [], ◌++◌, if◌then◌else◌, or_default, or_nonzero,
}
use optio_test.Prelude.Text.{Text, codes, text_eq, or_text}
use optio_test.Prelude.Decimal.{show}
use optio_test.Types.{
  Json, num, text, arr, obj, Items, Fields, SourceRecord, active, SinkTarget, elasticsearch,
  rabbitmq, RawItem, of_record, DlqPayload, json, raw_item, DlqEntry,
}
use optio_test.Elastic.{Client}
use optio_test.Rabbit.{Broker}
use optio_test.Runner.{is_truthy}

-- `o[k]`; an object of the database has each key once.
find_field : Text → Fields → Option Json
find_field k Fields.end = none
find_field k (Fields.field j v fs) = if text_eq k j then some v else find_field k fs

-- The fields of a raw item that the replay can meet: those of a source record, or of an item of a
-- bulk response, which has none of them.
raw_field : RawItem → Text → Option Json
raw_field (of_record r) k = if text_eq k (codes "tenant_id") then some (text r.tenant_id) else none
raw_field other k = none

-- `payloadObj[k]`, where anything but an object stands for `{}`.
unfoldable pub payload_field : DlqPayload → Text → Option Json
unfolding find_field raw_field
payload_field (json (obj fs)) k = find_field k fs
payload_field (json other) k = none
payload_field (raw_item item) k = raw_field item k

-- `a || b`
unfoldable pub or_json : Option Json → Json → Json
or_json none d = d
or_json (some j) d = if is_truthy j then j else d

abbrev is_text : Text → Option Json → Bool
is_text s (some (text t)) = text_eq s t
is_text s other = false

-- A tier that the payload may keep, or STANDARD.
unfoldable pub account_tier : Option Json → Json
account_tier tier =
    if is_text (codes "PREMIUM") tier
    then text (codes "PREMIUM")
    else if is_text (codes "ENTERPRISE") tier
    then text (codes "ENTERPRISE")
    else text (codes "STANDARD")

-- `isNaN(b) ? 0 : b`
unfoldable pub balance : (Option Json → Option Text) → Option Json → Json
balance number (some (num n)) = num n
balance number other = num (or_default (number other) (codes "0"))

default_metadata : Json
default_metadata = obj (
    Fields.field (codes "signup_channel") (text (codes "WEB")) (
      Fields.field (codes "country") (text (codes "US")) (
        Fields.field (codes "tags") (arr (Items.cons (text (codes "dlq_replayed")) Items.nil))
          Fields.end)))

-- `entry.record_id || dlqId`
abbrev pub replay_id : DlqEntry → ℕ
replay_id e = or_nonzero e.record_id e.id

reconstructed_payload : (Option Json → Option Text) → DlqEntry → Json
unfolding default_metadata
reconstructed_payload number e =
    let get = λ (k : Text). payload_field e.payload k in
    obj (
      Fields.field (codes "customer_id")
        (or_json (get (codes "customer_id")) (text (codes "cust_dlq_" ++ show (replay_id e))))
        (Fields.field (codes "first_name")
          (or_json (get (codes "first_name")) (text (codes "Replayed")))
          (Fields.field (codes "last_name")
            (or_json (get (codes "last_name")) (text (codes "Customer")))
            (Fields.field (codes "email")
              (or_json (get (codes "email"))
                (text (codes "replayed_" ++ (show (replay_id e) ++ codes "@test.com"))))
              (Fields.field (codes "account_tier") (account_tier (get (codes "account_tier"))) (
                Fields.field (codes "balance") (balance number (get (codes "balance"))) (
                  Fields.field (codes "metadata")
                    (or_json (get (codes "metadata")) default_metadata) Fields.end)))))))

-- A tenant that is no text stands as the empty one.
tenant_text : Json → Text
tenant_text (text t) = t
tenant_text other = []

-- What one replay meets: `Number`, a fresh uuid, the clock, the text of an error that is thrown, the
-- sinks, and whether each statement on
-- the database succeeds. The last two are the statements of the `try` and of the `catch`.
pub record Attempt : Type 0 where
  pub number : Option Json → Option Text
  pub fresh_uuid : Text
  pub now : ℕ
  pub thrown : Text
  pub es_client : Client
  pub rmq_broker : Broker
  pub reads : Bool
  pub marks : Bool
  pub records : Bool
  pub records_after_error : Bool

unfoldable pub rebuilt : Attempt → DlqEntry → SourceRecord
unfolding reconstructed_payload tenant_text
rebuilt a e = record {
  id = replay_id e;
  uuid = or_text e.record_uuid a.fresh_uuid;
  tenant_id =
      tenant_text
        (or_json (payload_field e.payload (codes "tenant_id")) (text (codes "tenant_default")));
  payload = reconstructed_payload a.number e;
  version = 1;
  status = active;
  is_corrupted = false;
  created_at = e.created_at;
  updated_at = a.now;
}

abbrev pub to_elasticsearch : SinkTarget → Bool
to_elasticsearch rabbitmq = false
to_elasticsearch _ = true

abbrev pub to_rabbitmq : SinkTarget → Bool
to_rabbitmq elasticsearch = false
to_rabbitmq _ = true
