-- ===== src/Warehouse/Tables.antt =====
-- The tables of schema.py, one record for each row type. Timestamps are instants, dates the days
-- from 0001-01-01; a nullable column is an `Option`.
use power_market_data_platfo.Base.{ℕ, Bool, List, Option, Text}
use power_market_data_platfo.Identity.Decimal.{Decimal}
use power_market_data_platfo.Warehouse.Request.{Product}

-- The columns that only one product has.
pub data Values : Type 0 where
  lmp : Text → Text → Decimal → Decimal → Decimal → Decimal → Values
  load : Text → Decimal → Values

-- One observation as a row, before it is persisted.
pub record Row : Type 0 where
  pub content_id : Text
  pub logical_key : Text
  pub content_hash : Text
  pub logical_key_schema : Text
  pub content_hash_schema : Text
  pub source : Text
  pub product : Text
  pub source_dataset : Text
  pub market_date : ℕ
  pub interval_start_utc : ℕ
  pub interval_end_utc : ℕ
  pub unit : Text
  pub retrieved_at_utc : ℕ
  pub source_url : Text
  pub source_method : Text
  pub library_version : Text
  pub values : Values

-- A row of `lmp_contents` or `load_contents`.
pub record Content : Type 0 where
  pub row : Row
  pub open row use *
  pub first_run_id : Text
  pub first_seen_at : Option ℕ

-- A row of `lmp_state_transitions` or `load_state_transitions`.
pub record Transition : Type 0 where
  pub transition_id : Text
  pub run_id : Text
  pub logical_key : Text
  pub content_id : Text
  pub content_hash : Text
  pub logical_key_schema : Text
  pub content_hash_schema : Text
  pub market_date : ℕ
  pub interval_start_utc : ℕ
  pub ordinal : ℕ
  pub commit_sequence : ℕ
  pub retrieved_at_utc : ℕ
  pub known_at : Option ℕ

pub data Status : Type 0 where
  started committed succeeded failed : Status

-- A row of `ingestion_runs`.
pub record Run : Type 0 where
  pub run_id : Text
  pub request_id : Text
  pub source : Text
  pub product : Product
  pub requested_date : ℕ
  pub started_at : ℕ
  pub status : Status
  pub commit_completed : Bool
  pub package_version : Text
  pub library_version : Text
  pub warehouse_schema : Text
  pub logical_key_schema : Text
  pub content_hash_schema : Text
  pub requested_location : Option Text
  pub completed_at : Option ℕ
  pub knowledge_at : Option ℕ
  pub rows_fetched : Option ℕ
  pub rows_normalized : Option ℕ
  pub rows_accepted : Option ℕ
  pub rows_rejected : Option ℕ
  pub new_contents : Option ℕ
  pub new_transitions : Option ℕ
  pub batch_hash : Option Text
  pub error_class : Option Text
  pub error_message : Option Text
  pub commit_job_id : Option Text
  pub commit_sequence : Option ℕ
  pub query_bytes_processed : Option ℕ
  pub query_bytes_billed : Option ℕ
  pub code_revision : Option Text

-- A row of `warehouse_control`.
pub record Control : Type 0 where
  pub singleton : ℕ
  pub sequence : ℕ
  pub warehouse_schema : Text
  pub active_run_id : Option Text

-- The contents and transitions of one product.
pub record Facts : Type 0 where
  pub contents : List Content
  pub transitions : List Transition

pub record Database : Type 0 where
  pub warehouse_control : List Control
  pub ingestion_runs : List Run
  pub lmp : Facts
  pub load : Facts
