-- ===== src/Protocol/Result.antt =====
-- protocol/v1/result.go: outcomes, refusal and failure codes, statistics, results and events.
use retentionops_connector.Prelude.{String, Bool, Option, List}
use retentionops_connector.Prelude.Int.{ℤ}
use retentionops_connector.Prelude.Text.{Time}
use retentionops_connector.Protocol.Job.{Operation}

pub data Status : Type 0 where
  completed denied failed plan_stale cancelled partial : Status

pub data DenialCode : Type 0 where
  by_local_policy unknown_source unknown_operation target_not_allowed : DenialCode
  column_not_allowed row_limit batch_limit approval_required approval_expired : DenialCode
  signature_invalid job_expired nonce_replayed wrong_connector wrong_org : DenialCode
  protocol_version : DenialCode

pub data FailureCode : Type 0 where
  unreachable tls authentication secret permission statement_timeout : FailureCode
  lock_timeout target_changed internal : FailureCode

pub record Reference : Type 0 where
  pub schema : String
  pub table : String
  pub column : String

pub record Column : Type 0 where
  pub name : String
  pub type_name : String
  pub nullable : Bool
  pub primary_key : Bool
  pub references : Option Reference

pub record Table : Type 0 where
  pub schema : String
  pub table : String
  pub estimated_rows : ℤ
  pub columns : List Column

pub record Statistics : Type 0 where
  pub candidate_rows : ℤ
  pub resource_rows : ℤ
  pub blocked_hold_rows : ℤ
  pub estimated_bytes : ℤ
  pub oldest : Option Time
  pub newest : Option Time
  pub rows_deleted : ℤ
  pub batches : ℤ
  pub errors : ℤ
  pub observed_rows : ℤ
  pub database_version : String
  pub tls_mode : String
  pub reader_validated : Bool
  pub executor_validated : Bool
  pub tables : List Table

pub record JobResult : Type 0 where
  pub version : String
  pub job_id : String
  pub organization_id : String
  pub connector_id : String
  pub data_source_id : String
  pub operation : Operation
  pub status : Status
  pub denial_code : Option DenialCode
  pub failure_code : Option FailureCode
  pub started_at : Time
  pub completed_at : Time
  pub connector_version : String
  pub plan_digest : String
  pub approval_id : String
  pub policy_digest : String
  pub statistics : Option Statistics
  pub result_digest : String
  pub signature : String

pub data EventType : Type 0 where
  accepted batch_committed paused resumed aborted : EventType

pub record JobEvent : Type 0 where
  pub version : String
  pub job_id : String
  pub organization_id : String
  pub connector_id : String
  pub sequence : ℤ
  pub event_type : EventType
  pub occurred_at : Time
  pub affected_rows : ℤ
  pub cumulative_rows : ℤ
  pub duration_ms : ℤ
