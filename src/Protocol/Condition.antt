-- ===== src/Protocol/Condition.antt =====
-- protocol/v1/job.go: `Condition.validate` and `validatePredicate`. The budget that the source
-- counts through a pointer is passed on as the result.
pub mod Measure
pub mod Bounds
use retentionops_connector.Prelude.{
  ℕ, suc, ◌+◌, String, Bool, true, false, not, ◌&&◌, ◌||◌, List, [], ◌∷◌, ltb, eqb, length, is_nil,
  if◌then◌else◌, Option, none, some,
}
use retentionops_connector.Prelude.Text.{is_empty, contains}
use retentionops_connector.Prelude.Result.{Result, Check, ok, err, ◌>>=◌, ◌>>◌, refuse_if}
use retentionops_connector.Protocol.Json.{Json}
use retentionops_connector.Protocol.Formats.{is_identifier}
use retentionops_connector.Protocol.Job
use retentionops_connector.Protocol.Job.{Condition, Conditions, Negated, node, absent, present}
use retentionops_connector.Protocol.Values.{
  ConditionValue, scalar, sequence, decode_condition_value,
}
use retentionops_connector.Protocol.Error.{
  ProtocolError, too_complex, not_one_form, group_too_large, bad_condition_column, unknown_operator,
  unexpected_value, missing_value, bad_sequence_length, not_a_scalar,
}

abbrev pub valueless_operators : List String
valueless_operators = "isNull" ∷ "isNotNull" ∷ "beforeCutoff" ∷ "afterCutoff" ∷ []

abbrev pub sequence_operators : List String
sequence_operators = "in" ∷ "notIn" ∷ []

abbrev pub condition_operators : List String
condition_operators =
    "eq" ∷ "neq" ∷ "lt" ∷ "lte" ∷ "gt" ∷ "gte" ∷ "in" ∷ "notIn" ∷ "isNull" ∷ "isNotNull"
    ∷ "beforeCutoff" ∷ "afterCutoff" ∷ []

abbrev pub is_some {ℓ} : {A : Type ℓ} → Option A → Bool
is_some none = false
is_some (some a) = true

abbrev pub bad_length : ConditionValue → Bool
bad_length (scalar s) = true
bad_length (sequence items) = is_nil items || ltb 100 (length items)

abbrev pub is_sequence : ConditionValue → Bool
is_sequence (scalar s) = false
is_sequence (sequence items) = true

-- the part of `validatePredicate` behind `len(c.Value) == 0`
unfoldable pub validate_value : Bool → Option Json → Check ProtocolError
validate_value wants_sequence none = ok tt
validate_value wants_sequence (some raw) = do
  value ← decode_condition_value raw
  refuse_if (wants_sequence && bad_length value) bad_sequence_length
  refuse_if (not wants_sequence && is_sequence value) not_a_scalar

unfoldable pub validate_predicate : String → String → Option Json → Check ProtocolError
validate_predicate column operator value = do
  refuse_if (not (is_identifier column)) bad_condition_column
  let valueless = contains operator valueless_operators
  refuse_if (not (contains operator condition_operators)) unknown_operator
  refuse_if (valueless && is_some value) unexpected_value
  refuse_if (not valueless && not (is_some value)) missing_value
  validate_value (contains operator sequence_operators) value

abbrev pub conditions_empty : Conditions → Bool
conditions_empty Conditions.nil = true
conditions_empty (Conditions.cons c cs) = false

abbrev pub conditions_length : Conditions → ℕ
conditions_length Conditions.nil = 0
conditions_length (Conditions.cons c cs) = suc (conditions_length cs)

abbrev pub is_present : Negated → Bool
is_present absent = false
is_present (present c) = true

abbrev pub one_if : Bool → ℕ
one_if true = 1
one_if false = 0

-- `c.Column != "" || c.Operator != "" || len(c.Value) > 0`
abbrev pub is_leaf : String → String → Option Json → Bool
is_leaf column operator value = not (is_empty column) || (not (is_empty operator) || is_some value)

unfoldable mutual
  -- `budget` counts the nodes of the whole job, `depth` the groups around this one.
  pub validate_condition : Condition → ℕ → ℕ → Result ProtocolError ℕ
  validate_condition (node column operator value every some_of negated) budget depth =
      let leaf = is_leaf column operator value in
      let forms =
        one_if leaf
        + one_if (not (conditions_empty every))
        + one_if (not (conditions_empty some_of))
        + one_if (is_present negated) in
      let in_every = validate_conditions every (suc budget) (suc depth) in
      let in_some = validate_conditions some_of (suc budget) (suc depth) in
      let children =
        if conditions_empty some_of then conditions_length every else conditions_length some_of in
      refuse_if (ltb 500 (suc budget) || ltb 16 depth) too_complex
      >> (refuse_if (not (eqb forms 1)) not_one_form
          >> (if leaf
              then (validate_predicate column operator value >> ok (suc budget))
              else (refuse_if (ltb 100 children) group_too_large
                  >> ((if conditions_empty some_of then in_every else in_some) >>= λ spent.
                      validate_negated negated spent (suc depth)))))

  pub validate_conditions : Conditions → ℕ → ℕ → Result ProtocolError ℕ
  validate_conditions Conditions.nil budget depth = ok budget
  validate_conditions (Conditions.cons c cs) budget depth =
      validate_condition c budget depth >>= λ spent. validate_conditions cs spent depth

  pub validate_negated : Negated → ℕ → ℕ → Result ProtocolError ℕ
  validate_negated absent budget depth = ok budget
  validate_negated (present c) budget depth = validate_condition c budget depth
