-- ===== src/Protocol/Envelope.antt =====
-- protocol/v1/job.go: `JobEnvelope.Validate` with its helpers, `Limits.validate` and
-- `Drift.validate`. The source walks a Go map over the four identities, so which of them an error
-- names is not fixed: the model has one error for all.
pub mod Ceilings
pub mod Operands
use retentionops_connector.Prelude.{
  ℕ, String, Bool, true, false, not, ◌&&◌, ◌||◌, List, [], ◌∷◌, is_nil, Option, none, some, any,
  if◌then◌else◌,
}
use retentionops_connector.Prelude.Int.{ℤ, pos, ltb_ℤ}
use retentionops_connector.Prelude.Text.{◌==◌, is_zero, after}
use retentionops_connector.Prelude.Result.{Result, Check, ok, err, ◌>>=◌, ◌>>◌, refuse_if}
use retentionops_connector.Protocol.Formats.{
  is_uuid, is_digest, is_signature, is_identifier, is_nonce,
}
use retentionops_connector.Protocol.Error
use retentionops_connector.Protocol.Error.{ProtocolError}
use retentionops_connector.Protocol.Job
use retentionops_connector.Protocol.Job.{
  Operation, Limits, Drift, Approval, Target, Predicate, Condition, JobEnvelope, wire_version,
  known, known_predicate_type, same_operation, destructive,
}
use retentionops_connector.Protocol.Condition.{validate_condition}

-- `value < low || value > high`
abbrev pub outside : ℤ → ℕ → ℕ → Bool
outside value low high = ltb_ℤ value (pos low) || ltb_ℤ (pos high) value

unfoldable pub validate_limits : Limits → Check ProtocolError
validate_limits l = do
  refuse_if (outside batch_size 1 50000) ProtocolError.batch_size_range
  refuse_if (outside max_rows 1 100_000_000) ProtocolError.max_rows_range
  refuse_if (outside statement_timeout_seconds 1 3600) ProtocolError.statement_timeout_range
  refuse_if (outside lock_timeout_seconds 0 600) ProtocolError.lock_timeout_range
  refuse_if (outside max_duration_seconds 0 86400) ProtocolError.max_duration_range
  refuse_if (outside pause_between_batches_ms 0 60000) ProtocolError.pause_range
  refuse_if (ltb_ℤ max_rows batch_size) ProtocolError.batch_exceeds_rows
  where
    open l use {
      batch_size, max_rows, statement_timeout_seconds, lock_timeout_seconds, max_duration_seconds,
      pause_between_batches_ms,
    }

unfoldable pub validate_drift : Drift → Check ProtocolError
validate_drift d = do
  refuse_if (outside d.expected_rows 0 100_000_000) ProtocolError.expected_rows_range
  refuse_if (outside d.max_rows 0 100_000_000) ProtocolError.drift_rows_range
  refuse_if (outside d.max_basis_points 0 10_000) ProtocolError.basis_points_range

unfoldable pub validate_holds : List Condition → ℕ → Check ProtocolError
validate_holds [] budget = ok tt
validate_holds (hold ∷ rest) budget =
    validate_condition hold budget 0 >>= λ spent. validate_holds rest spent

abbrev pub validate_root : Option Condition → Result ProtocolError ℕ
validate_root none = ok 0
validate_root (some c) = validate_condition c 0 0

-- the operands once all three are there
unfoldable pub validate_target : Target → Predicate → Limits → JobEnvelope → Check ProtocolError
validate_target target predicate limits j = do
  refuse_if (not (is_identifier target.schema) || not (is_identifier target.table))
      ProtocolError.bad_target
  refuse_if (not (is_identifier predicate.column)) ProtocolError.bad_predicate_column
  refuse_if (not (known_predicate_type predicate.type_name)) ProtocolError.unknown_predicate_type
  refuse_if (is_zero predicate.value) ProtocolError.missing_predicate_value
  budget ← validate_root j.condition
  refuse_if (is_nil j.holds) ProtocolError.no_holds
  validate_holds j.holds budget
  validate_limits limits

unfoldable pub present_operands :
    Option Target → Option Predicate → Option Limits → JobEnvelope → Check ProtocolError
present_operands (some target) (some predicate) (some limits) j =
    validate_target target predicate limits j
present_operands _ _ _ j = err ProtocolError.missing_operands

unfoldable pub validate_operands : JobEnvelope → Check ProtocolError
unfolding same_operation
validate_operands j =
    if same_operation j.operation Job.count || same_operation j.operation Job.delete
    then present_operands j.target j.predicate j.limits j
    else ok tt

unfoldable pub validate_approval : Option Approval → Check ProtocolError
validate_approval none = err ProtocolError.no_approval
validate_approval (some a) = do
  refuse_if (not (is_uuid a.id)) ProtocolError.bad_approval_id
  refuse_if (is_zero a.approved_at || is_zero a.expires_at) ProtocolError.missing_approval_window
  refuse_if (not (after a.expires_at a.approved_at)) ProtocolError.inverted_approval

abbrev pub validate_drift_operand : Option Drift → Check ProtocolError
validate_drift_operand none = err ProtocolError.no_drift
validate_drift_operand (some d) = validate_drift d

unfoldable pub validate_destructive_operands : JobEnvelope → Check ProtocolError
unfolding destructive
validate_destructive_operands j = if not (destructive j.operation) then ok tt else do
  refuse_if (not (is_digest j.plan_digest)) ProtocolError.no_plan_digest
  validate_drift_operand j.drift
  validate_approval j.approval

unfoldable pub validate_job : JobEnvelope → Check ProtocolError
unfolding known
validate_job j = do
  refuse_if (not (version == wire_version)) ProtocolError.unsupported_version
  refuse_if
      (any (λ id. not (is_uuid id)) (job_id ∷ organization_id ∷ connector_id ∷ data_source_id ∷ []))
      ProtocolError.not_a_uuid
  refuse_if (not (known operation)) ProtocolError.unknown_operation
  refuse_if (not (is_nonce nonce)) ProtocolError.malformed_nonce
  refuse_if (not (is_signature signature)) ProtocolError.malformed_signature
  refuse_if (is_zero issued_at || is_zero expires_at) ProtocolError.missing_validity
  refuse_if (not (after expires_at issued_at)) ProtocolError.inverted_validity
  validate_operands j
  validate_destructive_operands j
  where
    open j use {
      version, job_id, organization_id, connector_id, data_source_id, operation, nonce, signature,
      issued_at, expires_at,
    }
