-- ===== src/Protocol/Envelope/Operands.antt =====
-- What `JobEnvelope.Validate` guarantees of a job.
use retentionops_connector.Prelude.Text.{eq_iff}
use retentionops_connector.Prelude.{
  inr, ◌⊎◌, ℕ, ◌+◌, ◌≤◌, ◌≡◌, refl, true, Option, none, some, List, [], ◌∷◌, arith, ◌≢◌,
}
use retentionops_connector.Prelude.Int.{pos, ◌<ℤ◌}
use retentionops_connector.Prelude.Result.{ok, >>=-eq-ok}
use retentionops_connector.Protocol.Formats.{
  is_uuid, is_digest, is_signature, is_identifier, is_nonce,
}
use retentionops_connector.Protocol.Job.{
  Condition, Limits, Drift, Target, Predicate, Approval, JobEnvelope, count, delete, known,
  wire_version, known_predicate_type,
}
use retentionops_connector.Protocol.Condition.{validate_condition}
use retentionops_connector.Protocol.Condition.Measure.{size}
use retentionops_connector.Protocol.Condition.Bounds.{Within, condition-Within}
use retentionops_connector.Protocol.Envelope.{
  validate_job, validate_operands, validate_destructive_operands, validate_holds, validate_root,
  validate_drift_operand, validate_approval, validate_target, present_operands,
}
use retentionops_connector.Protocol.Envelope.Ceilings.{
  LimitsInRange, DriftInRange, validate_limits_sound, validate_drift_sound,
}

-- The nodes of a job's condition and holds together.
abbrev pub root_size : Option Condition → ℕ
root_size none = 0
root_size (some c) = size c

abbrev pub holds_size : List Condition → ℕ
holds_size [] = 0
holds_size (h ∷ hs) = size h + holds_size hs

-- The operands of a job that counts or deletes.
pub record OperandsValid (target : Target) (predicate : Predicate) (limits : Limits)
    (j : JobEnvelope) : Type 0 where
  pub schema_name : is_identifier target.schema ≡ true
  pub table_name : is_identifier target.table ≡ true
  pub column_name : is_identifier predicate.column ≡ true
  pub comparison : known_predicate_type predicate.type_name ≡ true
  pub cutoff : predicate.value ≢ pos 0
  pub held : j.holds ≢ []
  pub complexity : root_size j.condition + holds_size j.holds ≤ 500
  pub ceilings : LimitsInRange limits

root-Within : (c : Option Condition) → Within (validate_root c) 0 (root_size c) 0 0
root-Within none = ground arith
root-Within (some c) = ground (arith, condition-Within c 0 0)

holds_budget :
    (hs : List Condition) (b : ℕ) → validate_holds hs b ≡ ok tt → b ≤ 500 → b + holds_size hs ≤ 500
unfolding validate_holds
holds_budget [] b h le = omega arith
holds_budget (c ∷ cs) b h le =
    let (spent, first, rest) = >>=-eq-ok (validate_condition c b 0) (validate_holds cs) h in
    ground (arith, condition-Within c b 0, first, holds_budget cs spent rest)

validate_target_sound :
    (t : Target) (p : Predicate) (l : Limits) (j : JobEnvelope)
    → validate_target t p l j ≡ ok tt
    → OperandsValid t p l j
unfolding validate_target
validate_target_sound t p l j h = ground (
  arith,
  root-Within j.condition,
  holds_budget j.holds (root_size j.condition),
  validate_limits_sound l,
)

-- What holds of every accepted job.
pub record HeaderValid (j : JobEnvelope) : Type 0 where
  pub version : j.version ≡ wire_version
  pub job_id : is_uuid j.job_id ≡ true
  pub organization_id : is_uuid j.organization_id ≡ true
  pub connector_id : is_uuid j.connector_id ≡ true
  pub data_source_id : is_uuid j.data_source_id ≡ true
  pub operation : known j.operation ≡ true
  pub nonce : is_nonce j.nonce ≡ true
  pub signature : is_signature j.signature ≡ true
  pub lifetime : j.issued_at <ℤ j.expires_at

-- What holds besides of an accepted destructive job.
pub record DeleteValid (j : JobEnvelope) : Type 0 where
  pub target : Target
  pub predicate : Predicate
  pub limits : Limits
  pub drift : Drift
  pub approval : Approval
  pub has_target : j.target ≡ some target
  pub has_predicate : j.predicate ≡ some predicate
  pub has_limits : j.limits ≡ some limits
  pub has_drift : j.drift ≡ some drift
  pub has_approval : j.approval ≡ some approval
  pub operands : OperandsValid target predicate limits j
  pub drift_range : DriftInRange drift
  pub plan : is_digest j.plan_digest ≡ true
  pub approval_id : is_uuid approval.id ≡ true
  pub approval_window : approval.approved_at <ℤ approval.expires_at

-- An accepted job has version 1, four UUIDs, an operation of the closed set, a well-formed nonce
-- and signature, and expires after it was issued.
pub validate_job_header : (j : JobEnvelope) → validate_job j ≡ ok tt → HeaderValid j
unfolding validate_job
validate_job_header j h = ground (arith, eq_iff j.version wire_version)

operands_of_job :
    (j : JobEnvelope)
    → validate_job j ≡ ok tt
    → (validate_operands j ≡ ok tt) × (validate_destructive_operands j ≡ ok tt)
unfolding validate_job
operands_of_job j h = ground arith

present_operands_sound :
    (t : Option Target) (p : Option Predicate) (l : Option Limits) (j : JobEnvelope)
    → present_operands t p l j ≡ ok tt
    → (target : Target) × (predicate : Predicate) × (limits : Limits) × (t ≡ some target)
      × (p ≡ some predicate)
      × (l ≡ some limits)
      × OperandsValid target predicate limits j
unfolding present_operands
present_operands_sound none p l j h = cc
present_operands_sound (some t) none l j h = cc
present_operands_sound (some t) (some p) none j h = cc
present_operands_sound (some t) (some p) (some l) j h =
    (t, p, l, refl, refl, refl, validate_target_sound t p l j h)

-- Whatever counts or deletes, and is accepted, has its operands, and they are valid.
pub validate_operands_sound :
    (j : JobEnvelope)
    → validate_job j ≡ ok tt
    → (j.operation ≡ count) ⊎ (j.operation ≡ delete)
    → (target : Target) × (predicate : Predicate) × (limits : Limits) × (j.target ≡ some target)
      × (j.predicate ≡ some predicate)
      × (j.limits ≡ some limits)
      × OperandsValid target predicate limits j
unfolding validate_operands
validate_operands_sound j h o =
    present_operands_sound j.target j.predicate j.limits j (ground (arith, operands_of_job j h))

drift_operand_sound :
    (d : Option Drift)
    → validate_drift_operand d ≡ ok tt
    → (drift : Drift) × (d ≡ some drift) × DriftInRange drift
drift_operand_sound none h = cc
drift_operand_sound (some d) h = (d, refl, validate_drift_sound d h)

approval_sound :
    (a : Option Approval)
    → validate_approval a ≡ ok tt
    → (approval : Approval) × (a ≡ some approval)
      × (is_uuid approval.id ≡ true)
      × (approval.approved_at <ℤ approval.expires_at)
unfolding validate_approval
approval_sound none h = cc
approval_sound (some a) h = (a, refl, ground arith, ground arith)

-- An accepted delete carries a target, a predicate, limits in range, a drift policy in range, a
-- plan digest and an approval with a UUID whose window is not empty, names only plain identifiers,
-- has at least one hold, and its conditions have at most 500 nodes together.
pub validate_job_deletion :
    (j : JobEnvelope) → validate_job j ≡ ok tt → j.operation ≡ delete → DeleteValid j
unfolding validate_destructive_operands
validate_job_deletion j h o =
    let (t, p, l, ht, hp, hl, valid) = validate_operands_sound j h (inr o) in
    let both : (is_digest j.plan_digest ≡ true)
        × (validate_drift_operand j.drift ≡ ok tt)
        × (validate_approval j.approval ≡ ok tt) =
      (
        ground (arith, operands_of_job j h),
        ground (arith, operands_of_job j h),
        ground (arith, operands_of_job j h),
      ) in
    let (d, hd, in_range) = drift_operand_sound j.drift both.1 in
    let (a, ha, id, window) = approval_sound j.approval both.2 in
    record {
      target = t;
      predicate = p;
      limits = l;
      drift = d;
      approval = a;
      has_target = ht;
      has_predicate = hp;
      has_limits = hl;
      has_drift = hd;
      has_approval = ha;
      operands = valid;
      drift_range = in_range;
      plan = both.0;
      approval_id = id;
      approval_window = window;
    }
