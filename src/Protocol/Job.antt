-- ===== src/Protocol/Job.antt =====
-- protocol/v1/job.go: the instruction set. A Go string type with named constants is a data type
-- with a constructor for each constant and `unknown` for any other string.
use retentionops_connector.Prelude.{String, Bool, true, false, Option, List, [], ◌∷◌, any}
use retentionops_connector.Prelude.Int.{ℤ}
use retentionops_connector.Prelude.Text.{Time, ◌==◌}
use retentionops_connector.Protocol.Json.{Json}

abbrev pub wire_version : String
wire_version = "1"

pub data Operation : Type 0 where
  test_connection discover count delete : Operation
  unknown : String → Operation

unfoldable pub same_operation : Operation → Operation → Bool
same_operation test_connection test_connection = true
same_operation discover discover = true
same_operation count count = true
same_operation delete delete = true
same_operation (unknown a) (unknown b) = a == b
same_operation _ _ = false

abbrev pub operations : List Operation
operations = test_connection ∷ discover ∷ count ∷ delete ∷ []

unfoldable pub destructive : Operation → Bool
unfolding same_operation
destructive o = same_operation o delete

unfoldable pub known : Operation → Bool
unfolding same_operation
known o = any (λ candidate. same_operation candidate o) operations

pub data PredicateType : Type 0 where
  before_type on_or_before_type : PredicateType
  unknown_type : String → PredicateType

unfoldable pub known_predicate_type : PredicateType → Bool
known_predicate_type (unknown_type s) = false
known_predicate_type _ = true

pub record Target : Type 0 where
  pub schema : String
  pub table : String

pub record Predicate : Type 0 where
  pub type_name : PredicateType
  pub column : String
  pub value : Time

-- A node has a column, an operator, a value (`none` where the member is absent), its `all` and
-- `any` groups, and the operand of `not`.
mutual
  pub data Condition : Type 0 where
    node : String → String → Option Json → Conditions → Conditions → Negated → Condition

  pub data Conditions : Type 0 where
    nil : Conditions
    cons : Condition → Conditions → Conditions

  pub data Negated : Type 0 where
    absent : Negated
    present : Condition → Negated

pub record Limits : Type 0 where
  pub batch_size : ℤ
  pub max_rows : ℤ
  pub statement_timeout_seconds : ℤ
  pub lock_timeout_seconds : ℤ
  pub max_duration_seconds : ℤ
  pub pause_between_batches_ms : ℤ

pub record Drift : Type 0 where
  pub expected_rows : ℤ
  pub max_rows : ℤ
  pub max_basis_points : ℤ

pub record Approval : Type 0 where
  pub id : String
  pub approved_at : Time
  pub expires_at : Time

pub record JobEnvelope : Type 0 where
  pub version : String
  pub job_id : String
  pub organization_id : String
  pub connector_id : String
  pub data_source_id : String
  pub operation : Operation
  pub target : Option Target
  pub predicate : Option Predicate
  pub condition : Option Condition
  pub holds : List Condition
  pub limits : Option Limits
  pub drift : Option Drift
  pub plan_digest : String
  pub approval : Option Approval
  pub issued_at : Time
  pub expires_at : Time
  pub nonce : String
  pub signature : String
