-- ===== src/Policy/Effective.antt =====
-- internal/policy/policy.go: the ceiling that a decision that allows leaves in force.
use retentionops_connector.Prelude.{
  ◌≡◌, refl, inl, inr, true, Option, none, some, arith, Option-cases,
}
use retentionops_connector.Prelude.Text.{Time}
use retentionops_connector.Protocol.Job.{Target, Predicate, Limits, JobEnvelope}
use retentionops_connector.Policy.{
  Safety, allow, authorize_operands, authorize_rule, find_rule, effective_limits, schema_allowed,
}
use retentionops_connector.Policy.Permitted.{authorize_rule-passed, authorize_rule-allows}
use retentionops_connector.Policy.Ceilings.{effective_limits-LimitsLowered}

pub some_eq : (a b : Limits) {o : Option Limits} → o ≡ some a → o ≡ some b → a ≡ b
some_eq a b h k = cc

-- A decision that allows is on the limits of the job, and keeps their ceiling.
pub operands-effective :
    (s : Safety) (j : JobEnvelope) (now : Time) (t : Option Target) (p : Option Predicate)
    (l : Option Limits)
    → (authorize_operands s j now t p l).allowed ≡ true
    → (limits : Limits) × (l ≡ some limits)
      × ((authorize_operands s j now t p l).effective.max_rows ≡ limits.max_rows)
unfolding authorize_operands
operands-effective s j now none p l h = cc
operands-effective s j now (some t) none l h = cc
operands-effective s j now (some t) (some p) none h = cc
operands-effective s j now (some t) (some p) (some l) h =
    elim (Option-cases (find_rule s.tables t)) [
      | inl e ↦ absurd (ground arith)
      | inr (rule, e) ↦
          let allowed : authorize_rule s j now p l rule ≡ allow (effective_limits s l) =
            authorize_rule-allows s j now p l rule
              (authorize_rule-passed s j now p l rule (ground arith)) in
          let listed : schema_allowed s t.schema ≡ true = ground arith in
          (l, refl, rw (listed, e, allowed) ((effective_limits-LimitsLowered s l).max_rows))
    ]
