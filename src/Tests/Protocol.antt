-- ===== src/Tests/Protocol.antt =====
-- protocol/v1, internal/jobs and the byte estimate: the theorems at the toy deployment.
use retentionops_connector.Prelude.{false, String, ℕ, ◌≡◌, ◌≢◌, refl, List, [], ◌∷◌, none, arith}
use retentionops_connector.Prelude.Int.{pos, ◌≤ℤ◌, ◌+ℤ◌}
use retentionops_connector.Prelude.Text.{contains, codes}
use retentionops_connector.Prelude.Result.{ok}
use retentionops_connector.Protocol.Job.{known_predicate_type, destructive, known, same_operation}
use retentionops_connector.Protocol.Formats.{
  is_uuid, is_digest, is_identifier, is_nonce, is_signature, matches,
}
use retentionops_connector.Protocol.Result.{JobResult, Status}
use retentionops_connector.Protocol.Signing.{signing_payload, seal}
use retentionops_connector.Protocol.Condition.{
  validate_condition, validate_predicate, validate_value,
}
use retentionops_connector.Protocol.Envelope.{
  validate_job, validate_limits, validate_operands, present_operands, validate_target,
  validate_holds, validate_destructive_operands, validate_drift, validate_approval,
}
use retentionops_connector.Jobs.Replay.{Entry, consume, has_entry, prune_entries}
use retentionops_connector.Jobs.Replay
use retentionops_connector.Jobs.Verifier.{
  verify, verify_decoded, verify_signature, checks, accepted,
}
use retentionops_connector.Jobs.Verifier.Sound.{Accepted, verify-Accepted}
use retentionops_connector.Jobs.Verifier.Once.{start, pruned, verify_once}
use retentionops_connector.Postgres.Count.{estimated_bytes}
use retentionops_connector.Postgres.Count.Bytes.{estimated_bytes_wraps}
use retentionops_connector.Postgres.Session.{CatalogRow}
use retentionops_connector.Postgres.Reads.{add_rows}
use retentionops_connector.Postgres.Reads.Grouped.{
  Keyed, table_columns, row_columns, add_rows-Keyed,
}
use retentionops_connector.Postgres.Sql.{
  count_statement, held_count_statement, delete_batch_statement,
}
use retentionops_connector.Postgres.Sql.Bound.{Bound, Compiles}
use retentionops_connector.Postgres.Sql.Predicates.{Succeeds}
use retentionops_connector.Postgres.Sql.Accepted.{statements-Succeed}
use retentionops_connector.Postgres.Sql.Statements.{BatchBound, statements-Bound}
use retentionops_connector.Tests.Data.{
  table, before_cutoff, job, limits, hold, codec, identity, ledger, sound_disk, sound_prune, sealer,
  digest, signature,
}

job_valid : validate_job job ≡ ok tt
unfolding validate_job is_uuid is_nonce is_signature matches validate_operands present_operands
    validate_target is_identifier known_predicate_type validate_holds validate_condition
    validate_predicate contains validate_value validate_limits validate_destructive_operands
    is_digest validate_drift validate_approval destructive known same_operation
job_valid = refl

hold_valid : validate_condition hold 0 0 ≡ ok 1
unfolding validate_condition validate_predicate is_identifier contains validate_value
hold_valid = refl

pub verified : (verify codec identity sound_disk (pos 1000) job ledger).0 ≡ accepted job
unfolding verify checks verify_decoded verify_signature consume has_entry signing_payload ◌+ℤ◌
    validate_job is_uuid is_nonce is_signature matches validate_operands present_operands
    validate_target is_identifier known_predicate_type validate_holds validate_condition
    validate_predicate contains validate_value validate_limits validate_destructive_operands
    is_digest validate_drift validate_approval destructive known same_operation
verified = refl

verify-Accepted_example :
    Accepted codec identity job job
      (pos 1000)
      ledger
      (verify codec identity sound_disk (pos 1000) job ledger).1
verify-Accepted_example =
    verify-Accepted codec identity sound_disk (pos 1000) job job ledger verified

-- A second later, after a prune.
verify_once_example :
    (verify codec identity sound_disk
      (pos 1700)
      job
      (Replay.prune sound_prune
        (pos 1600)
        (verify codec identity sound_disk (pos 1000) job ledger).1).1).0
    ≢ accepted job
unfolding ◌+ℤ◌
verify_once_example =
    verify_once codec identity job job (pos 1000) (pos 1600) (pos 1700) job sound_disk sound_disk
      ledger _ verified (omega arith) (pruned (pos 1600) sound_prune start (omega arith))
      (omega arith)

abbrev young : Entry
young = record { name = "b"; modified = pos 500 }

abbrev entries : List Entry
entries = record { name = "a"; modified = pos 10 } ∷ young ∷ []

abbrev signed_body : List ℕ
signed_body = codes digest

abbrev draft : JobResult
draft = record {
  version = "1";
  job_id = job.job_id;
  organization_id = job.organization_id;
  connector_id = job.connector_id;
  data_source_id = job.data_source_id;
  operation = job.operation;
  status = Status.completed;
  denial_code = none;
  failure_code = none;
  started_at = pos 1000;
  completed_at = pos 1001;
  connector_version = "1.0.0";
  plan_digest = job.plan_digest;
  approval_id = "";
  policy_digest = digest;
  statistics = none;
  result_digest = "";
  signature = "";
}

abbrev sealed : JobResult
sealed = record draft { result_digest = digest; signature = signature }

seals : seal sealer draft ≡ ok sealed
unfolding seal
seals = refl

-- Two tebibytes and five million candidates.
estimated_bytes_wraps_example :
    estimated_bytes (pos 2_199_023_255_552) (pos 5_000_000) (pos 10_000_000) ≤ℤ pos 0
estimated_bytes_wraps_example =
    estimated_bytes_wraps 2_199_023_255_552 5_000_000 10_000_000 (omega arith) (omega arith)

statements-Bound_example :
    Compiles Bound 1 (count_statement table before_cutoff none (hold ∷ []))
    × Compiles Bound 1 (held_count_statement table before_cutoff none (hold ∷ []))
    × Compiles BatchBound 1 (delete_batch_statement table before_cutoff none (hold ∷ []))
statements-Bound_example = statements-Bound table before_cutoff none (hold ∷ [])

abbrev column_row : String → String → CatalogRow
column_row table_name column = record {
  schema = "app";
  table = table_name;
  column = column;
  data_type = "text";
  nullable = false;
  primary = false;
}

abbrev catalog : List CatalogRow
catalog = column_row "events" "id" ∷ column_row "users" "id" ∷ column_row "events" "at" ∷ []

add_rows-Keyed_example :
    Keyed (add_rows [] catalog)
    × (table_columns "app.events" (add_rows [] catalog) ≡ row_columns "app.events" catalog)
add_rows-Keyed_example = add_rows-Keyed "app.events" catalog

target_valid : validate_target table before_cutoff limits job ≡ ok tt
unfolding validate_target is_identifier known_predicate_type validate_holds validate_condition
    validate_predicate contains validate_value validate_limits
target_valid = refl

statements-Succeed_example :
    Succeeds (count_statement table before_cutoff none (hold ∷ []))
    × Succeeds (held_count_statement table before_cutoff none (hold ∷ []))
    × Succeeds (delete_batch_statement table before_cutoff none (hold ∷ []))
statements-Succeed_example = statements-Succeed table before_cutoff limits job target_valid
