-- ===== src/Types.antt =====
-- packages/shared/src/types: the records that the parts exchange. An ISO timestamp stands as its
-- milliseconds since the epoch; a payload, which the database stores as JSON, as its value.
use optio_test.Prelude.{ℕ, Bool, Option, List, []}
use optio_test.Prelude.Text.{Text}

-- A number stands as its text. The lists of a value are declared in the block.
mutual
  pub data Json : Type 0 where
    null : Json
    bool : Bool → Json
    num : Text → Json
    text : Text → Json
    arr : Items → Json
    obj : Fields → Json

  pub data Items : Type 0 where
    nil : Items
    cons : Json → Items → Items

  pub data Fields : Type 0 where
    end : Fields
    field : Text → Json → Fields → Fields

pub data RecordStatus : Type 0 where
  active suspended archived : RecordStatus

pub record SourceRecord : Type 0 where
  pub id : ℕ
  pub uuid : Text
  pub tenant_id : Text
  pub payload : Json
  pub version : ℕ
  pub status : RecordStatus
  pub is_corrupted : Bool
  pub created_at : ℕ
  pub updated_at : ℕ

pub data ReplicationEventType : Type 0 where
  record_backfilled record_mutated record_deleted : ReplicationEventType

pub record ReplicationEvent : Type 0 where
  pub event_id : Text
  pub event_type : ReplicationEventType
  pub timestamp : ℕ
  pub source_id : ℕ
  pub source_uuid : Text
  pub version : ℕ
  pub tenant_id : Text
  pub payload : Json
  pub pipeline_id : Text
  pub batch_sequence : ℕ

pub data PipelineStatus : Type 0 where
  initialized running paused completed failed : PipelineStatus

pub data DlqStatus : Type 0 where
  pending retrying resolved abandoned : DlqStatus

pub data SinkTarget : Type 0 where
  elasticsearch rabbitmq all_sinks : SinkTarget

pub record ReplicationCheckpoint : Type 0 where
  pub pipeline_id : Text
  pub last_processed_id : ℕ
  pub last_processed_timestamp : Option ℕ
  pub status : PipelineStatus
  pub records_processed : ℕ
  pub records_failed : ℕ
  pub metadata : Json
  pub updated_at : ℕ

-- The part of an item of a bulk response that elasticsearch.sink.ts reads.
pub record ErrorInfo : Type 0 where
  pub reason : Option Text
  pub error_type : Option Text

pub record ActionItem : Type 0 where
  pub status : Option ℕ
  pub error : Option ErrorInfo

-- `rawItem`: left out, a source record, or an item of a bulk response.
pub data RawItem : Type 0 where
  no_item : RawItem
  of_record : SourceRecord → RawItem
  of_item : ActionItem → RawItem

-- What is kept of a rejected record: a JSON value, or the sink's raw item.
pub data DlqPayload : Type 0 where
  json : Json → DlqPayload
  raw_item : RawItem → DlqPayload

pub record DlqEntry : Type 0 where
  pub id : ℕ
  pub record_id : Option ℕ
  pub record_uuid : Option Text
  pub sink_target : SinkTarget
  pub payload : DlqPayload
  pub error_code : Text
  pub error_message : Text
  pub stack_trace : Option Text
  pub retry_count : ℕ
  pub status : DlqStatus
  pub created_at : ℕ
  pub last_retried_at : Option ℕ

-- One rejected record of a batch, as both sinks report it.
pub record FailureEntry : Type 0 where
  pub record_id : ℕ
  pub error_reason : Text
  pub error_code : Text
  pub raw_item : RawItem

-- What both sinks return for a batch.
pub record BatchResult : Type 0 where
  pub success_count : ℕ
  pub failed_count : ℕ
  pub successful_ids : List ℕ
  pub failures : List FailureEntry

abbrev pub empty_result : BatchResult
empty_result = record { success_count = 0; failed_count = 0; successful_ids = []; failures = [] }
