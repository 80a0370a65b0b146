-- ===== src/Protocol/Error.antt =====
-- The errors of protocol/v1/job.go, one constructor for each message.
pub data ProtocolError : Type 0 where
  unsupported_version not_a_uuid unknown_operation malformed_nonce : ProtocolError
  malformed_signature missing_validity inverted_validity : ProtocolError
  missing_operands bad_target bad_predicate_column unknown_predicate_type : ProtocolError
  missing_predicate_value no_holds : ProtocolError
  too_complex not_one_form group_too_large : ProtocolError
  bad_condition_column unknown_operator unexpected_value missing_value : ProtocolError
  bad_sequence_length not_a_scalar : ProtocolError
  float_value integer_out_of_range nested_value unsupported_value : ProtocolError
  no_plan_digest no_drift expected_rows_range drift_rows_range basis_points_range : ProtocolError
  no_approval bad_approval_id missing_approval_window inverted_approval : ProtocolError
  batch_size_range max_rows_range statement_timeout_range lock_timeout_range : ProtocolError
  max_duration_range pause_range batch_exceeds_rows : ProtocolError
