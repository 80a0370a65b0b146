-- ===== src/Evidence.antt =====
-- internal/evidence/evidence.go: the signed record of each outcome, and the drift test.
pub mod Spec
use retentionops_connector.Prelude.{
  String, Bool, true, false, not, ◌&&◌, if◌then◌else◌, Option, none, some, [],
}
use retentionops_connector.Prelude.Int.{ℤ, pos, ltb_ℤ, eqb_ℤ, ◌-ℤ◌, ◌*ℤ◌, wrap64}
use retentionops_connector.Prelude.Text.{Time}
use retentionops_connector.Prelude.Result.{Result}
use retentionops_connector.Protocol.Job
use retentionops_connector.Protocol.Job.{JobEnvelope, Approval, wire_version}
use retentionops_connector.Protocol.Result.{JobResult, Status, DenialCode, FailureCode, Statistics}
use retentionops_connector.Protocol.Signing.{Sealer, SealError, seal}

pub record Builder : Type 0 where
  pub organization_id : String
  pub connector_id : String
  pub version : String
  pub policy_digest : String

abbrev pub approval_id : Option Approval → String
approval_id none = ""
approval_id (some a) = a.id

-- `completed_at` is the clock's answer when the record is made.
unfoldable pub base : Builder → JobEnvelope → Status → Time → Time → JobResult
base b j status started_at completed_at = record {
  version = wire_version;
  job_id = j.job_id;
  organization_id = b.organization_id;
  connector_id = b.connector_id;
  data_source_id = j.data_source_id;
  operation = j.operation;
  status = status;
  denial_code = none;
  failure_code = none;
  started_at = started_at;
  completed_at = completed_at;
  connector_version = b.version;
  plan_digest = j.plan_digest;
  approval_id = approval_id j.approval;
  policy_digest = b.policy_digest;
  statistics = none;
  result_digest = "";
  signature = "";
}

abbrev pub no_statistics : Statistics
no_statistics = record {
  candidate_rows = pos 0;
  resource_rows = pos 0;
  blocked_hold_rows = pos 0;
  estimated_bytes = pos 0;
  oldest = none;
  newest = none;
  rows_deleted = pos 0;
  batches = pos 0;
  errors = pos 0;
  observed_rows = pos 0;
  database_version = "";
  tls_mode = "";
  reader_validated = false;
  executor_validated = false;
  tables = [];
}

module _ (b : Builder) (sealer : Sealer) (j : JobEnvelope) (started_at completed_at : Time) where
  unfoldable pub refusal : DenialCode → Result SealError JobResult
  refusal code =
      seal sealer
        (record (base b j Status.denied started_at completed_at) { denial_code = some code })

  unfoldable pub failure : FailureCode → Result SealError JobResult
  failure code =
      seal sealer
        (record (base b j Status.failed started_at completed_at) { failure_code = some code })

  unfoldable pub stale : ℤ → Result SealError JobResult
  stale observed = seal sealer (record (base b j Status.plan_stale started_at completed_at) {
    statistics = some (record no_statistics { observed_rows = observed });
  })

  unfoldable pub success : Option Statistics → Bool → Result SealError JobResult
  success statistics complete =
      seal sealer
        (record (base b j (if complete then Status.completed else Status.partial) started_at
          completed_at) { statistics = statistics })

  unfoldable pub cancelled : Option Statistics → Result SealError JobResult
  cancelled statistics =
      seal sealer
        (record (base b j Status.cancelled started_at completed_at) { statistics = statistics })

-- `if difference < 0 { difference = -difference }`, in int64
abbrev pub magnitude : ℤ → ℤ
magnitude z = if ltb_ℤ z (pos 0) then wrap64 (pos 0 -ℤ z) else z

unfoldable pub drift_exceeded : Option Job.Drift → ℤ → Bool
drift_exceeded none observed = true
drift_exceeded (some d) observed =
    let difference = magnitude (wrap64 (observed -ℤ d.expected_rows)) in
    if eqb_ℤ d.max_rows (pos 0) && eqb_ℤ d.max_basis_points (pos 0)
    then not (eqb_ℤ difference (pos 0))
    else if ltb_ℤ (pos 0) d.max_rows && ltb_ℤ d.max_rows difference
    then true
    else ltb_ℤ (pos 0) d.max_basis_points
      && (ltb_ℤ (pos 0) d.expected_rows
          && ltb_ℤ (wrap64 (d.expected_rows *ℤ d.max_basis_points))
              (wrap64 (difference *ℤ pos 10_000)))
