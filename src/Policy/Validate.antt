-- ===== src/Policy/Validate.antt =====
-- internal/policy/policy.go: `Safety.Validate` with `validateTable` and `DriftPolicy.validate`.
pub mod Distinct
use Prim.Native.String.{◌++◌ as append_text}
use retentionops_connector.Prelude.{
  String, Bool, true, false, not, ◌&&◌, ◌||◌, List, [], ◌∷◌, is_nil, any, if◌then◌else◌,
}
use retentionops_connector.Prelude.Int.{ℤ, pos, ltb_ℤ, leb_ℤ, eqb_ℤ}
use retentionops_connector.Prelude.Text.{◌==◌, contains}
use retentionops_connector.Prelude.Result.{Result, Check, ok, err, ◌>>=◌, ◌>>◌, refuse_if, for_each}
use retentionops_connector.Protocol.Formats.{is_identifier}
use retentionops_connector.Policy.{
  Safety, TableRule, DriftPolicy, DriftMode, Action, allows, schema_allowed, is_strict,
}

pub data PolicyError : Type 0 where
  no_schemas bad_schema bad_table schema_not_allowed no_action unknown_action : PolicyError
  bad_retention_column no_retention_column no_row_ceiling duplicate_table : PolicyError
  negative_ceiling bad_drift_mode drift_range strict_with_tolerance : PolicyError
  bounded_without_tolerance : PolicyError

abbrev pub is_bounded : DriftMode → Bool
is_bounded DriftMode.bounded = true
is_bounded _ = false

unfoldable pub validate_drift_policy : DriftPolicy → Check PolicyError
validate_drift_policy d = do
  refuse_if (not (is_strict d.mode) && not (is_bounded d.mode)) bad_drift_mode
  refuse_if
      (ltb_ℤ d.exact_match_below_rows (pos 0)
        || (ltb_ℤ d.max_rows (pos 0)
            || (ltb_ℤ d.max_basis_points (pos 0) || ltb_ℤ (pos 10_000) d.max_basis_points)))
      drift_range
  refuse_if
      (is_strict d.mode
        && (not (eqb_ℤ d.exact_match_below_rows (pos 0))
            || (not (eqb_ℤ d.max_rows (pos 0)) || not (eqb_ℤ d.max_basis_points (pos 0)))))
      strict_with_tolerance
  refuse_if
      (is_bounded d.mode
        && (eqb_ℤ d.exact_match_below_rows (pos 0)
            || (eqb_ℤ d.max_rows (pos 0) || eqb_ℤ d.max_basis_points (pos 0))))
      bounded_without_tolerance

abbrev pub is_known_action : Action → Bool
is_known_action (Action.other name) = false
is_known_action _ = true

unfoldable pub validate_delete_rule : Safety → TableRule → Check PolicyError
validate_delete_rule s r = if not (allows r Action.delete) then ok tt else do
  refuse_if (is_nil r.retention_columns) no_retention_column
  refuse_if (leb_ℤ r.max_delete_rows (pos 0) && leb_ℤ s.max_delete_rows (pos 0)) no_row_ceiling

unfoldable pub validate_table : Safety → TableRule → Check PolicyError
validate_table s r = do
  refuse_if (not (is_identifier r.schema) || not (is_identifier r.table)) bad_table
  refuse_if (not (schema_allowed s r.schema)) schema_not_allowed
  refuse_if (is_nil r.actions) no_action
  refuse_if (any (λ a. not (is_known_action a)) r.actions) unknown_action
  refuse_if (any (λ c. not (is_identifier c)) r.retention_columns) bad_retention_column
  validate_delete_rule s r

abbrev pub table_key : TableRule → String
table_key r = append_text r.schema (append_text "." r.table)

-- the loop over the tables, with the keys that it has seen
unfoldable pub validate_tables : Safety → List String → List TableRule → Check PolicyError
validate_tables s seen [] = ok tt
validate_tables s seen (r ∷ rs) = do
  validate_table s r
  refuse_if (contains (table_key r) seen) duplicate_table
  validate_tables s (table_key r ∷ seen) rs

unfoldable pub validate_safety : Safety → Check PolicyError
validate_safety s = do
  refuse_if (is_nil s.allowed_schemas) no_schemas
  refuse_if (any (λ schema. not (is_identifier schema)) s.allowed_schemas) bad_schema
  validate_tables s [] s.tables
  refuse_if (ltb_ℤ s.max_delete_rows (pos 0) || ltb_ℤ s.max_batch_size (pos 0)) negative_ceiling
  validate_drift_policy s.drift
