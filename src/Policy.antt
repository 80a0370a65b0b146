-- ===== src/Policy.antt =====
-- internal/policy/policy.go: the local safety policy of one data source. `Decision.Reason`, which
-- goes to the local log alone, is left out.
pub mod Columns
pub mod Ceilings
pub mod Validate
pub mod Permitted
pub mod Effective
pub mod Granted
pub mod Drift
use retentionops_connector.Prelude.{
  String, Bool, true, false, not, ◌&&◌, ◌||◌, List, [], ◌∷◌, any, length, if◌then◌else◌, Option,
  none, some, ℕ,
}
use retentionops_connector.Prelude.Int.{ℤ, pos, ltb_ℤ, leb_ℤ, eqb_ℤ}
use retentionops_connector.Prelude.Text.{Time, ◌==◌, contains, before}
use retentionops_connector.Protocol.Job
use retentionops_connector.Protocol.Job.{
  Operation, Target, Predicate, Limits, Approval, JobEnvelope, destructive,
}
use retentionops_connector.Protocol.Result.{DenialCode}
use Columns.{condition_columns}

pub data Action : Type 0 where
  inspect delete : Action
  other : String → Action

unfoldable pub same_action : Action → Action → Bool
same_action Action.inspect Action.inspect = true
same_action Action.delete Action.delete = true
same_action (Action.other a) (Action.other b) = a == b
same_action _ _ = false

pub record TableRule : Type 0 where
  pub schema : String
  pub table : String
  pub actions : List Action
  pub retention_columns : List String
  pub max_delete_rows : ℤ
  pub max_batch_size : ℤ

pub data DriftMode : Type 0 where
  strict bounded : DriftMode
  other : String → DriftMode

pub record DriftPolicy : Type 0 where
  pub mode : DriftMode
  pub exact_match_below_rows : ℤ
  pub max_rows : ℤ
  pub max_basis_points : ℤ

pub record Safety : Type 0 where
  pub allowed_schemas : List String
  pub require_approval : Bool
  pub drift : DriftPolicy
  pub max_delete_rows : ℤ
  pub max_batch_size : ℤ
  pub statement_timeout_seconds : ℤ
  pub lock_timeout_seconds : ℤ
  pub max_duration_seconds : ℤ
  pub tables : List TableRule

pub record Decision : Type 0 where
  pub allowed : Bool
  pub code : Option DenialCode
  pub effective : Limits

-- `protocolv1.Limits{}`
abbrev pub no_limits : Limits
no_limits = record {
  batch_size = pos 0;
  max_rows = pos 0;
  statement_timeout_seconds = pos 0;
  lock_timeout_seconds = pos 0;
  max_duration_seconds = pos 0;
  pause_between_batches_ms = pos 0;
}

abbrev pub allow : Limits → Decision
allow effective = record { allowed = true; code = none; effective = effective }

abbrev pub deny : DenialCode → Decision
deny code = record { allowed = false; code = some code; effective = no_limits }

unfoldable pub schema_allowed : Safety → String → Bool
schema_allowed s schema = contains schema s.allowed_schemas

unfoldable pub allows : TableRule → Action → Bool
allows r action = any (λ candidate. same_action candidate action) r.actions

unfoldable pub allows_column : TableRule → String → Bool
allows_column r column = contains column r.retention_columns

unfoldable pub grants_delete : Safety → Bool
grants_delete s = any (λ r. allows r Action.delete) s.tables

unfoldable pub allowed_table_count : Safety → ℕ
allowed_table_count s = length s.tables

-- the loop of `Rule`: the first entry for the target
unfoldable pub find_rule : List TableRule → Target → Option TableRule
find_rule [] target = none
find_rule (r ∷ rs) target =
    if r.schema == target.schema && r.table == target.table then some r else find_rule rs target

-- The tighter of two ceilings, where 0 or less means "not configured".
unfoldable pub smallest_positive : ℤ → ℤ → ℤ
smallest_positive left right =
    if leb_ℤ left (pos 0)
    then right
    else if leb_ℤ right (pos 0)
    then left
    else if ltb_ℤ left right
    then left
    else right

-- `ceiling > 0 && requested > ceiling`
abbrev pub exceeds : ℤ → ℤ → Bool
exceeds requested ceiling = ltb_ℤ (pos 0) ceiling && ltb_ℤ ceiling requested

-- The checks return the refusal, if there is one.
unfoldable pub check_ceilings : Safety → Limits → TableRule → Option Decision
check_ceilings s limits rule =
    if exceeds limits.max_rows (smallest_positive rule.max_delete_rows s.max_delete_rows)
    then some (deny DenialCode.row_limit)
    else if exceeds limits.batch_size (smallest_positive rule.max_batch_size s.max_batch_size)
    then some (deny DenialCode.batch_limit)
    else none

abbrev pub approval_refusal : Option Approval → Time → Option Decision
approval_refusal none now = some (deny DenialCode.approval_required)
approval_refusal (some a) now =
    if not (before now a.expires_at) then some (deny DenialCode.approval_expired) else none

unfoldable pub check_approval : Safety → JobEnvelope → Time → Option Decision
unfolding destructive
check_approval s j now =
    if not (destructive j.operation) || not s.require_approval
    then none
    else approval_refusal j.approval now

abbrev pub is_strict : DriftMode → Bool
is_strict DriftMode.strict = true
is_strict _ = false

abbrev pub drift_refusal : DriftPolicy → Option Job.Drift → Option Decision
drift_refusal policy none = some (deny DenialCode.by_local_policy)
drift_refusal policy (some d) =
    if is_strict policy.mode || ltb_ℤ d.expected_rows policy.exact_match_below_rows
    then (if eqb_ℤ d.max_rows (pos 0) && eqb_ℤ d.max_basis_points (pos 0)
        then none
        else some (deny DenialCode.by_local_policy))
    else if ltb_ℤ policy.max_rows d.max_rows || ltb_ℤ policy.max_basis_points d.max_basis_points
    then some (deny DenialCode.by_local_policy)
    else none

unfoldable pub check_drift : Safety → JobEnvelope → Option Decision
unfolding destructive
check_drift s j = if not (destructive j.operation) then none else drift_refusal s.drift j.drift

-- `if local > 0 { effective = smallestPositive(effective, local) }`
abbrev pub lowered : ℤ → ℤ → ℤ
lowered requested ceiling =
    if ltb_ℤ (pos 0) ceiling then smallest_positive requested ceiling else requested

unfoldable pub effective_limits : Safety → Limits → Limits
unfolding smallest_positive
effective_limits s l = record l {
  statement_timeout_seconds = lowered l.statement_timeout_seconds s.statement_timeout_seconds;
  lock_timeout_seconds = lowered l.lock_timeout_seconds s.lock_timeout_seconds;
  max_duration_seconds = lowered l.max_duration_seconds s.max_duration_seconds;
}

-- `if decision, refused := check; refused { return decision }`
abbrev pub unless_refused : Option Decision → Decision → Decision
unless_refused none next = next
unless_refused (some decision) next = decision

abbrev pub required_action : Operation → Action
required_action Operation.delete = Action.delete
required_action _ = Action.inspect

-- the part of `Authorize` behind the lookup of the rule
unfoldable pub authorize_rule :
    Safety → JobEnvelope → Time → Predicate → Limits → TableRule → Decision
authorize_rule s j now predicate limits rule =
    if not (allows rule (required_action j.operation))
    then deny DenialCode.target_not_allowed
    else if not (allows_column rule predicate.column)
    then deny DenialCode.column_not_allowed
    else if any (λ column. not (allows_column rule column)) (condition_columns j.condition j.holds)
    then deny DenialCode.column_not_allowed
    else unless_refused (check_ceilings s limits rule) (
        unless_refused (check_approval s j now)
          (unless_refused (check_drift s j) (allow (effective_limits s limits))))

abbrev pub authorize_found :
    Safety → JobEnvelope → Time → Predicate → Limits → Option TableRule → Decision
authorize_found s j now p l none = deny DenialCode.target_not_allowed
authorize_found s j now p l (some rule) = authorize_rule s j now p l rule

-- the part behind the test of the operands
unfoldable pub authorize_operands :
    Safety → JobEnvelope → Time → Option Target → Option Predicate → Option Limits → Decision
authorize_operands s j now (some t) (some p) (some l) =
    if not (schema_allowed s t.schema)
    then deny DenialCode.target_not_allowed
    else authorize_found s j now p l (find_rule s.tables t)
authorize_operands s j now _ _ _ = deny DenialCode.by_local_policy

unfoldable pub authorize_as : Operation → Safety → JobEnvelope → Time → Decision
authorize_as Operation.test_connection s j now = allow no_limits
authorize_as Operation.discover s j now = allow no_limits
authorize_as (Operation.unknown name) s j now = deny DenialCode.unknown_operation
authorize_as _ s j now = authorize_operands s j now j.target j.predicate j.limits

unfoldable pub authorize : Safety → JobEnvelope → Time → Decision
unfolding authorize_as
authorize s j now = authorize_as j.operation s j now
