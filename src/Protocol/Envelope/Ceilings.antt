-- ===== src/Protocol/Envelope/Ceilings.antt =====
-- `Limits.validate` and `Drift.validate` against the ranges that they stand for.
use retentionops_connector.Prelude.{ℕ, ◌≡◌, ◌↔◌, arith}
use retentionops_connector.Prelude.Int.{ℤ, pos, ◌≤ℤ◌}
use retentionops_connector.Prelude.Result.{ok}
use retentionops_connector.Protocol.Job.{Limits, Drift}
use retentionops_connector.Protocol.Envelope.{validate_limits, validate_drift}

abbrev pub Between : ℤ → ℕ → ℕ → Type 0
Between value low high = (pos low ≤ℤ value) × (value ≤ℤ pos high)

pub record LimitsInRange (l : Limits) : Type 0 where
  pub batch_size : Between l.batch_size 1 50000
  pub max_rows : Between l.max_rows 1 100_000_000
  pub statement_timeout : Between l.statement_timeout_seconds 1 3600
  pub lock_timeout : Between l.lock_timeout_seconds 0 600
  pub max_duration : Between l.max_duration_seconds 0 86400
  pub pause : Between l.pause_between_batches_ms 0 60000
  pub batch_fits : l.batch_size ≤ℤ l.max_rows

pub record DriftInRange (d : Drift) : Type 0 where
  pub expected_rows : Between d.expected_rows 0 100_000_000
  pub max_rows : Between d.max_rows 0 100_000_000
  pub max_basis_points : Between d.max_basis_points 0 10_000

pub validate_limits_sound : (l : Limits) → validate_limits l ≡ ok tt → LimitsInRange l
unfolding validate_limits
validate_limits_sound l h = ground arith

pub validate_limits_complete : (l : Limits) → LimitsInRange l → validate_limits l ≡ ok tt
unfolding validate_limits
validate_limits_complete l h = ground arith

-- Limits are accepted exactly when each lies in its protocol range and a batch is no larger than
-- the job.
pub validate_limits_iff : (l : Limits) → (validate_limits l ≡ ok tt) ↔ LimitsInRange l
validate_limits_iff l = (validate_limits_sound l, validate_limits_complete l)

pub validate_drift_sound : (d : Drift) → validate_drift d ≡ ok tt → DriftInRange d
unfolding validate_drift
validate_drift_sound d h = ground arith
