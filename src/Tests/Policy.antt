-- ===== src/Tests/Policy.antt =====
-- internal/policy, internal/evidence and internal/config: the theorems at the toy deployment.
use retentionops_connector.Prelude.{ℕ, ◌≡◌, ◌↔◌, refl, inr, none, some, true, false, arith}
use retentionops_connector.Prelude.Int.{pos, pos_part, wrap64, ◌-ℤ◌, ◌<ℤ◌}
use retentionops_connector.Prelude.Text.{contains}
use retentionops_connector.Prelude.Result.{ok}
use retentionops_connector.Protocol.Job
use retentionops_connector.Protocol.Job.{Operation}
use retentionops_connector.Protocol.Formats.{is_identifier}
use retentionops_connector.Protocol.Envelope.Ceilings.{DriftInRange}
use retentionops_connector.Policy.{
  authorize, authorize_operands, schema_allowed, find_rule, authorize_rule, allows, same_action,
  allows_column, check_ceilings, smallest_positive, check_approval, check_drift, grants_delete,
  drift_refusal,
}
use retentionops_connector.Policy.Columns.{condition_columns, columns}
use retentionops_connector.Policy.Permitted.{Permitted, authorize-Permitted, DriftAllowed}
use retentionops_connector.Policy.Validate.{
  validate_safety, validate_drift_policy, validate_table, validate_tables, validate_delete_rule,
}
use retentionops_connector.Policy.Drift.{drift_row_limit_escaped}
use retentionops_connector.Evidence.{drift_exceeded}
use retentionops_connector.Evidence.Spec.{distance, WithinTolerance, drift_exceeded_iff}
use retentionops_connector.Config.{
  validate_source, validate_configured, validate_mode, validate_credential, validate_executor,
  validate_reach, pending,
}
use retentionops_connector.Config.Separated.{DeletesSafely, validate_source-DeletesSafely}
use retentionops_connector.Tests.Data.{at, job, safety, drift, source}

granted : (authorize safety job at.authorized).allowed ≡ true
unfolding authorize authorize_operands schema_allowed contains find_rule authorize_rule allows
    same_action allows_column condition_columns columns check_ceilings smallest_positive
    check_approval check_drift
granted = refl

authorize-Permitted_example : Permitted safety job at.authorized
authorize-Permitted_example = authorize-Permitted safety job at.authorized (inr refl) granted

drift_in_range : DriftInRange drift
drift_in_range = omega arith

drift_exceeded_iff_example :
    (drift_exceeded (some drift) (pos 33) ≡ false) ↔ WithinTolerance drift 33
drift_exceeded_iff_example = drift_exceeded_iff drift 33 drift_in_range (omega arith)

drift_allowed : DriftAllowed safety.drift drift
drift_allowed = inr (refl, omega arith, omega arith, omega arith)

still_planned : drift_exceeded (some drift) (pos 33) ≡ false
unfolding drift_exceeded wrap64 ◌-ℤ◌
still_planned = refl

drift_policy_valid : validate_drift_policy safety.drift ≡ ok tt
unfolding validate_drift_policy
drift_policy_valid = refl

drift_row_limit_escaped_example :
    (d : Job.Drift) × (observed : ℕ) × DriftInRange d
    × (drift_refusal safety.drift (some d) ≡ none)
    × (drift_exceeded (some d) (pos observed) ≡ false)
    × (safety.drift.max_rows <ℤ pos (distance observed (pos_part d.expected_rows)))
drift_row_limit_escaped_example =
    drift_row_limit_escaped safety.drift drift_policy_valid refl (omega arith) (omega arith)

source_valid : validate_source source ≡ ok tt
unfolding validate_source pending validate_configured validate_mode grants_delete
    validate_credential validate_executor validate_reach validate_safety is_identifier
    validate_tables validate_table schema_allowed contains validate_delete_rule allows same_action
    validate_drift_policy
source_valid = refl

source_deletes : grants_delete source.safety ≡ true
unfolding grants_delete allows same_action
source_deletes = refl

validate_source-DeletesSafely_example : DeletesSafely source
validate_source-DeletesSafely_example =
    validate_source-DeletesSafely source source_valid source_deletes
