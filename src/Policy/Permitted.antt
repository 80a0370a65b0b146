-- ===== src/Policy/Permitted.antt =====
-- internal/policy/policy.go: `Authorize` against what the local policy permits.
use retentionops_connector.Prelude.{
  ◌≡◌, refl, sym, ap, subst, ◌⊎◌, inl, inr, String, true, false, not, ◌&&◌, List, [], ◌∷◌, any,
  Option, none, some, All, In, here, there, arith, Bool-cases, Option-cases,
}
use retentionops_connector.Prelude.Int.{pos, ◌≤ℤ◌, ◌<ℤ◌}
use retentionops_connector.Prelude.Text.{Time, ◌==◌, eq_iff, contains-In}
use retentionops_connector.Protocol.Job
use retentionops_connector.Protocol.Job.{
  Operation, Target, Predicate, Limits, Approval, JobEnvelope, destructive, same_operation,
}
use retentionops_connector.Policy.{
  Safety, allow, TableRule, Action, DriftPolicy, Decision, same_action, allows, allows_column,
  schema_allowed, find_rule, required_action, check_ceilings, check_approval, check_drift,
  drift_refusal, approval_refusal, is_strict, authorize, authorize_as, authorize_rule,
  authorize_operands, effective_limits,
}
use retentionops_connector.Policy.Columns.{condition_columns}
use retentionops_connector.Policy.Ceilings.{WithinCeilings, check_ceilings_sound}

-- A destructive job that the policy wants approved has an approval that has not expired.
abbrev pub Approved : Option Approval → Time → Type 0
Approved none now = ⊥
Approved (some a) now = now <ℤ a.expires_at

-- The drift that a job allows: none where the policy is strict or the plan is small, and otherwise
-- no figure above the local one.
abbrev pub DriftAllowed : DriftPolicy → Job.Drift → Type 0
DriftAllowed policy d =
    ((d.max_rows ≡ pos 0) × (d.max_basis_points ≡ pos 0))
    ⊎ ((is_strict policy.mode ≡ false)
        × (policy.exact_match_below_rows ≤ℤ d.expected_rows)
        × (d.max_rows ≤ℤ policy.max_rows)
        × (d.max_basis_points ≤ℤ policy.max_basis_points))

pub record Permitted (s : Safety) (j : JobEnvelope) (now : Time) : Type 0 where
  pub target : Target
  pub predicate : Predicate
  pub limits : Limits
  pub rule : TableRule
  pub has_target : j.target ≡ some target
  pub has_predicate : j.predicate ≡ some predicate
  pub has_limits : j.limits ≡ some limits
  pub schema_listed : In target.schema s.allowed_schemas
  pub rule_listed : In rule s.tables
  pub rule_schema : rule.schema ≡ target.schema
  pub rule_table : rule.table ≡ target.table
  pub action_granted : In (required_action j.operation) rule.actions
  pub column_listed : In predicate.column rule.retention_columns
  pub conditions_listed :
      All (λ column. In column rule.retention_columns) (condition_columns j.condition j.holds)
  pub within : WithinCeilings s rule limits
  pub approved :
      destructive j.operation ≡ true → s.require_approval ≡ true → Approved j.approval now
  pub drift_allowed :
      destructive j.operation ≡ true → (d : Job.Drift) × (j.drift ≡ some d) × DriftAllowed s.drift d

same_action-eq : (a b : Action) → same_action a b ≡ true → a ≡ b
unfolding same_action
same_action-eq Action.inspect Action.inspect h = refl
same_action-eq Action.delete Action.delete h = refl
same_action-eq (Action.other a) (Action.other b) h = ap Action.other ((eq_iff a b).0 h)
same_action-eq _ _ h = cc

allows-In : (a : Action) (xs : List Action) → any (λ x. same_action x a) xs ≡ true → In a xs
allows-In a [] h = cc
allows-In a (x ∷ xs) h = elim (Bool-cases (same_action x a)) [
  | inl e ↦ subst (λ y. In a (y ∷ xs)) (sym (same_action-eq x a e)) here
  | inr e ↦ there (allows-In a xs (ground arith))
]

columns-All :
    (rule : TableRule) (cs : List String)
    → any (λ column. not (allows_column rule column)) cs ≡ false
    → All (λ column. In column rule.retention_columns) cs
unfolding allows_column
columns-All rule [] h = tt
columns-All rule (c ∷ cs) h =
    (contains-In c rule.retention_columns (ground arith), columns-All rule cs (ground arith))

find_rule-In :
    (rs : List TableRule) (t : Target) {r : TableRule}
    → find_rule rs t ≡ some r
    → In r rs × (r.schema ≡ t.schema) × (r.table ≡ t.table)
unfolding find_rule
find_rule-In [] t h = cc
find_rule-In (x ∷ xs) t {r} h = elim (Bool-cases (x.schema == t.schema && x.table == t.table)) [
  | inl e ↦
      let found : x ≡ r = ground arith in
      subst (λ y. In y (x ∷ xs) × (y.schema ≡ t.schema) × (y.table ≡ t.table)) found
        (here, ground (arith, eq_iff x.schema t.schema), ground (arith, eq_iff x.table t.table))
  | inr e ↦
      let (i, schemas, tables) = find_rule-In xs t {r = r} (ground arith) in
      (there i, schemas, tables)
]

approval_sound : (a : Option Approval) (now : Time) → approval_refusal a now ≡ none → Approved a now
approval_sound none now h = cc
approval_sound (some a) now h = ground arith

drift_sound :
    (policy : DriftPolicy) (d : Option Job.Drift)
    → drift_refusal policy d ≡ none
    → (drift : Job.Drift) × (d ≡ some drift) × DriftAllowed policy drift
drift_sound policy none h = cc
drift_sound policy (some d) h = (d, refl, ground arith)

-- The tests that `authorize_rule` makes, all passed.
pub record RulePassed (s : Safety) (j : JobEnvelope) (now : Time) (p : Predicate) (l : Limits)
    (rule : TableRule) : Type 0 where
  pub action : allows rule (required_action j.operation) ≡ true
  pub column : allows_column rule p.column ≡ true
  pub conditions :
      any (λ c. not (allows_column rule c)) (condition_columns j.condition j.holds) ≡ false
  pub ceilings : check_ceilings s l rule ≡ none
  pub approval : check_approval s j now ≡ none
  pub drift : check_drift s j ≡ none

-- A check that refuses returns a denial.
abbrev Denies : Option Decision → Type 0
Denies none = Unit
Denies (some d) = d.allowed ≡ false

ceilings-Denies : (s : Safety) (l : Limits) (rule : TableRule) → Denies (check_ceilings s l rule)
unfolding check_ceilings
ceilings-Denies s l rule = ground arith

approval-Denies : (s : Safety) (j : JobEnvelope) (now : Time) → Denies (check_approval s j now)
unfolding check_approval
approval-Denies s j now = ground arith

drift-Denies : (s : Safety) (j : JobEnvelope) → Denies (check_drift s j)
unfolding check_drift
drift-Denies s j = ground arith

module _ (s : Safety) (j : JobEnvelope) (now : Time) (p : Predicate) (l : Limits)
    (rule : TableRule) where
  pub authorize_rule-passed :
      (authorize_rule s j now p l rule).allowed ≡ true → RulePassed s j now p l rule
  unfolding authorize_rule
  authorize_rule-passed h =
      ground (arith, ceilings-Denies s l rule, approval-Denies s j now, drift-Denies s j)

  pub authorize_rule-allows :
      RulePassed s j now p l rule → authorize_rule s j now p l rule ≡ allow (effective_limits s l)
  unfolding authorize_rule
  authorize_rule-allows h = ground arith

approval_demanded :
    (s : Safety) (j : JobEnvelope) (now : Time)
    → check_approval s j now ≡ none
    → destructive j.operation ≡ true
    → s.require_approval ≡ true
    → Approved j.approval now
unfolding check_approval
approval_demanded s j now h d r = approval_sound j.approval now (ground arith)

drift_demanded :
    (s : Safety) (j : JobEnvelope)
    → check_drift s j ≡ none
    → destructive j.operation ≡ true
    → (d : Job.Drift) × (j.drift ≡ some d) × DriftAllowed s.drift d
unfolding check_drift
drift_demanded s j h d = drift_sound s.drift j.drift (ground arith)

authorize_operands_sound :
    (s : Safety) (j : JobEnvelope) (now : Time) (t : Option Target) (p : Option Predicate)
    (l : Option Limits)
    → j.target ≡ t
    → j.predicate ≡ p
    → j.limits ≡ l
    → (authorize_operands s j now t p l).allowed ≡ true
    → Permitted s j now
unfolding authorize_operands
authorize_operands_sound s j now none p l ht hp hl h = cc
authorize_operands_sound s j now (some t) none l ht hp hl h = cc
authorize_operands_sound s j now (some t) (some p) none ht hp hl h = cc
authorize_operands_sound s j now (some t) (some p) (some l) ht hp hl h =
    elim (Option-cases (find_rule s.tables t)) [
      | inl e ↦ absurd (ground arith)
      | inr (rule, e) ↦
          let (listed, schemas, tables) = find_rule-In s.tables t {r = rule} e in
          let passed = authorize_rule-passed s j now p l rule (ground arith) in
          record {
            target = t;
            predicate = p;
            limits = l;
            rule = rule;
            has_target = ht;
            has_predicate = hp;
            has_limits = hl;
            schema_listed =
                contains-In t.schema s.allowed_schemas (unfold schema_allowed in ground arith);
            rule_listed = listed;
            rule_schema = schemas;
            rule_table = tables;
            action_granted =
                allows-In (required_action j.operation) rule.actions
                  (unfold allows in passed.action);
            column_listed =
                contains-In p.column rule.retention_columns (unfold allows_column in passed.column);
            conditions_listed =
                columns-All rule (condition_columns j.condition j.holds) passed.conditions;
            within = check_ceilings_sound s l rule passed.ceilings;
            approved = approval_demanded s j now passed.approval;
            drift_allowed = drift_demanded s j passed.drift;
          }
    ]

pub authorize_operation :
    (o : Operation) (s : Safety) (j : JobEnvelope) (now : Time)
    → (o ≡ Operation.count) ⊎ (o ≡ Operation.delete)
    → authorize_as o s j now ≡ authorize_operands s j now j.target j.predicate j.limits
unfolding authorize_as
authorize_operation Operation.count s j now h = refl
authorize_operation Operation.delete s j now h = refl
authorize_operation _ s j now h = ground arith

-- A count or a delete that the policy allows is one that the policy permits: its schema is on the
-- allow-list, a rule of the policy names its table and grants the action it needs, every column of
-- its predicate, condition and holds is a retention column of that rule, its rows and its batch
-- respect the ceilings of the rule and of the source, and a delete has the approval that the
-- policy demands, not yet expired, and a drift no wider than the local figures.
pub authorize-Permitted :
    (s : Safety) (j : JobEnvelope) (now : Time)
    → (j.operation ≡ Operation.count) ⊎ (j.operation ≡ Operation.delete)
    → (authorize s j now).allowed ≡ true
    → Permitted s j now
unfolding authorize
authorize-Permitted s j now o h =
    authorize_operands_sound s j now j.target j.predicate j.limits refl refl refl
      (ground (arith, authorize_operation j.operation s j now o))
