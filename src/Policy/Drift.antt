-- ===== src/Policy/Drift.antt =====
-- The local drift policy (internal/policy/policy.go, `checkDrift`) together with the drift test that
-- runs after the recount (internal/evidence/evidence.go, `DriftExceeded`).
use retentionops_connector.Prelude.{ℕ, ◌*◌, ◌≤◌, ◌<◌, ◌≡◌, ◌⊎◌, true, false, none, some, arith}
use retentionops_connector.Prelude.Int.{pos, pos_part, ◌≤ℤ◌, ◌<ℤ◌}
use retentionops_connector.Protocol.Job
use retentionops_connector.Protocol.Envelope.Ceilings.{DriftInRange}
use retentionops_connector.Policy.{DriftPolicy, DriftMode, is_strict, drift_refusal}
use retentionops_connector.Prelude.Result.{ok}
use retentionops_connector.Policy.Validate.{validate_drift_policy}
use retentionops_connector.Policy.Permitted.{DriftAllowed}
use retentionops_connector.Evidence.{drift_exceeded}
use retentionops_connector.Evidence.Spec.{
  distance, max_observed, WithinTolerance, drift_exceeded_iff, mul_below,
}

-- What a local drift policy means for a recount.
pub record LocalDrift (policy : DriftPolicy) (d : Job.Drift) (observed : ℕ) : Type 0 where
  pub exact :
      (is_strict policy.mode ≡ true) ⊎ (d.expected_rows <ℤ policy.exact_match_below_rows)
      → observed ≡ pos_part d.expected_rows
  pub rows :
      pos 0 <ℤ d.max_rows → pos (distance observed (pos_part d.expected_rows)) ≤ℤ policy.max_rows
  pub share :
      pos 0 <ℤ d.max_basis_points
      → 0 < pos_part d.expected_rows
      → distance observed (pos_part d.expected_rows) * 10_000
        ≤ pos_part d.expected_rows * pos_part policy.max_basis_points

bounded_share : (x e b m : ℕ) → x ≤ e * b → b ≤ m → x ≤ e * m
bounded_share x e b m h k = omega (arith, mul_below e b e m (omega arith) k)

local_drift :
    (policy : DriftPolicy) (d : Job.Drift) (o : ℕ)
    → DriftAllowed policy d
    → WithinTolerance d o
    → LocalDrift policy d o
local_drift policy d o allowed w = record {
  exact = λ strict. ground arith;
  rows = λ set. ground arith;
  share = λ set some_rows.
      bounded_share _ (pos_part d.expected_rows) (pos_part d.max_basis_points)
        (pos_part policy.max_basis_points) (w.share set some_rows) (ground arith);
}

-- A recount that is accepted under an allowed drift is the planned one where the policy is strict
-- or the plan is below its threshold; and each tolerance that the job sets holds it within the
-- policy's own figure.
pub drift_exceeded-LocalDrift :
    (policy : DriftPolicy) (d : Job.Drift) (observed : ℕ)
    → DriftInRange d
    → observed ≤ max_observed
    → DriftAllowed policy d
    → drift_exceeded (some d) (pos observed) ≡ false
    → LocalDrift policy d observed
drift_exceeded-LocalDrift policy d o r ho allowed h =
    local_drift policy d o allowed ((drift_exceeded_iff d o r ho).0 h)

-- One basis point of a large plan, and no row tolerance.
abbrev pub share_only : Job.Drift
share_only = record { expected_rows = pos 100_000_000; max_rows = pos 0; max_basis_points = pos 1 }

share_only-InRange : DriftInRange share_only
share_only-InRange = omega arith

share_only_within : WithinTolerance share_only 100_010_000
share_only_within = record {
  exact = λ a b. cc;
  rows = λ a. omega arith;
  share = λ a b. omega arith;
}

-- A job that sets no row tolerance escapes the row tolerance of a bounded policy: under every valid
-- policy with fewer than 10 000 rows of tolerance and an exact-match threshold of at most 10^8
-- rows, some drift in range is let through by the policy, and some recount is accepted under it
-- that is further from the plan than the policy's `max_rows`.
pub drift_row_limit_escaped :
    (policy : DriftPolicy)
    → validate_drift_policy policy ≡ ok tt
    → policy.mode ≡ DriftMode.bounded
    → policy.max_rows <ℤ pos 10_000
    → policy.exact_match_below_rows ≤ℤ pos 100_000_000
    → (d : Job.Drift) × (observed : ℕ) × DriftInRange d
      × (drift_refusal policy (some d) ≡ none)
      × (drift_exceeded (some d) (pos observed) ≡ false)
      × (policy.max_rows <ℤ pos (distance observed (pos_part d.expected_rows)))
unfolding validate_drift_policy
drift_row_limit_escaped policy valid mode few exact = (
  share_only,
  100_010_000,
  share_only-InRange,
  ground arith,
  (drift_exceeded_iff share_only 100_010_000 share_only-InRange (omega arith)).1 share_only_within,
  omega arith,
)
