-- ===== src/Tests/Sealed.antt =====
-- internal/sealedconfig: the theorems at the toy deployment.
use retentionops_connector.Prelude.{
  ℕ, ◌≡◌, refl, String, true, false, List, [], ◌∷◌, some, arith, Bool-cases, inl, inr,
}
use retentionops_connector.Prelude.Int.{ℤ, pos, ◌+ℤ◌}
use retentionops_connector.Prelude.Text.{codes, contains, ◌==◌}
use retentionops_connector.Prelude.Result.{ok}
use retentionops_connector.Protocol.Formats.{is_uuid, is_identifier, matches}
use retentionops_connector.Policy.{grants_delete, allows, same_action, schema_allowed}
use retentionops_connector.Policy.Validate.{
  validate_safety, validate_tables, validate_table, validate_delete_rule, validate_drift_policy,
}
use retentionops_connector.Config.{
  replace_source, Source, find_source, pending, validate_source, validate_configured, validate_mode,
  validate_credential, validate_executor, validate_reach,
}
use retentionops_connector.Sealed.{
  Envelope, SourceConfiguration, Opener, open_envelope, prepare, proposed, configuration_valid,
}
use retentionops_connector.Sealed.Framed.{frame-Short}
use retentionops_connector.Sealed.Narrow.{Narrow, prepare-Narrow}
use retentionops_connector.Sealed.Apply.{
  Configured, Failures, applied, managed_entry, open_and_apply, apply_one,
}
use retentionops_connector.Sealed.Effective.{InForce, effective}
use retentionops_connector.Sealed.Restart.{open_and_apply-InForce, executor_reverts}
use retentionops_connector.Config.Managed.{ManagedSource, managed}
use retentionops_connector.Sealed.Apply.Once.{Unchanged, at_once, behind, apply_one-Unchanged}
use retentionops_connector.Tests.Data.{uuid, source, identity}

abbrev pub console : SourceConfiguration
console = record {
  host = "replica.internal";
  port = pos 5433;
  database = "app";
  reader_role = "console_reader";
  executor_role = "console_executor";
  tls_mode = "verify-ca";
}

abbrev sources : List (String × Source)
sources = (uuid, source) ∷ []

abbrev pub envelope : Envelope
envelope = record {
  version = pos 1;
  envelope_id = "envelope-1";
  organization_id = uuid;
  source_id = uuid;
  connector_id = uuid;
  issued_at = "2026-01-01T00:00:00Z";
  ephemeral_key = "key";
  expires_at = "2026-01-02T00:00:00Z";
  nonce = "nonce-twelve";
  ciphertext = "sealed";
}

abbrev pub opener : Opener
opener = record {
  parse_time = λ s. some (pos 1000);
  decode = λ s. some (codes s);
  valid_key = λ k. true;
  open_sealed = λ k n c a. some c;
  decode_configuration = λ p. some console;
}

abbrev pub version_text : ℤ → String
version_text v = "1"

abbrev pub same : String → String
same s = s

abbrev pub sound : Failures
sound = record {
  ledger = false;
  key = false;
  overlay_read = false;
  overlay_write = false;
  entry_create = false;
  entry_write = false;
  entry_close = false;
}

abbrev pub configured : Configured
configured = record { sources = sources; overlay = []; outcomes = []; acknowledged = [] }

abbrev fields : List (List ℕ)
fields = codes "a" ∷ codes "bc" ∷ []

frame-Short_example : fields ≡ fields
frame-Short_example = frame-Short fields fields (omega arith) (omega arith) refl

abbrev prepared : Source
prepared = record source {
  host = "replica.internal";
  port = pos 5433;
  tls = record { mode = "verify-ca"; ca_file = "" };
  reader = record { username = "console_reader"; password = source.reader.password };
  executor = record { username = "console_executor"; password = source.executor.password };
}

prepares : prepare true sources uuid console ≡ ok prepared
unfolding prepare find_source proposed replace_source configuration_valid is_uuid matches
    validate_source contains pending validate_configured validate_mode grants_delete allows
    same_action validate_credential is_identifier validate_executor validate_reach validate_safety
    validate_tables validate_table schema_allowed validate_delete_rule validate_drift_policy
prepares = refl

prepare-Narrow_example :
    (before : Source) × (find_source sources uuid ≡ some before) × Narrow before prepared
prepare-Narrow_example = prepare-Narrow true sources uuid console prepared prepares

abbrev handled : Configured → Configured
handled c = apply_one opener version_text same identity true sound (pos 1000) envelope c

-- Another envelope comes in between.
abbrev second : Envelope
second = record envelope { envelope_id = "envelope-2" }

abbrev since : Configured
since =
    apply_one opener version_text same identity true sound (pos 1500) second (handled configured)

apply_one-Unchanged_example :
    Unchanged since (handled since) × ((handled since).outcomes ≡ since.outcomes)
apply_one-Unchanged_example =
    apply_one-Unchanged opener opener version_text same identity true true sound sound (pos 1000)
      (pos 1000) envelope configured since refl refl
      (behind opener true sound (pos 1500) second at_once)

-- The console has set the executor before, and now names none.
abbrev before : ManagedSource
before = managed_entry console

abbrev unnamed : SourceConfiguration
unnamed = record console { executor_role = "" }

abbrev silent_opener : Opener
silent_opener = record opener { decode_configuration = λ p. some unnamed }

abbrev running : Configured
running = record {
  sources = (uuid, prepared) ∷ [];
  overlay = (uuid, some before) ∷ [];
  outcomes = [];
  acknowledged = [];
}

configured-InForce : InForce sources configured
unfolding find_source
configured-InForce key = elim (Bool-cases (uuid == key)) [
  | inl at ↦ rw at refl
  | inr elsewhere ↦ rw elsewhere refl
]

running-InForce : InForce sources running
unfolding find_source managed
running-InForce key = elim (Bool-cases (uuid == key)) [
  | inl at ↦ rw at refl
  | inr elsewhere ↦ rw elsewhere refl
]

opens :
    open_envelope silent_opener version_text envelope identity.connector_id identity.organization_id
      (pos 1000)
    ≡ ok unnamed
unfolding open_envelope ◌+ℤ◌
opens = refl

open_and_apply-InForce_example :
    InForce sources
      (open_and_apply opener version_text same identity true sound (pos 1000) envelope configured).1
open_and_apply-InForce_example =
    open_and_apply-InForce opener version_text same identity true sound (pos 1000) sources envelope
      configured configured-InForce (λ o h. tt)

abbrev after : Configured
after =
    (open_and_apply silent_opener version_text same identity true sound (pos 1000) envelope
      running).1

goes :
    (open_and_apply silent_opener version_text same identity true sound
      (pos 1000)
      envelope
      running).0
    ≡ applied
unfolding open_and_apply open_envelope ◌+ℤ◌ prepare find_source proposed replace_source
    configuration_valid is_uuid matches validate_source contains pending validate_configured
    validate_mode grants_delete allows same_action validate_credential is_identifier
    validate_executor validate_reach validate_safety validate_tables validate_table schema_allowed
    validate_delete_rule validate_drift_policy
goes = refl

declared : find_source sources uuid ≡ some source
unfolding find_source
declared = refl

executor_reverts_example :
    (now : Source) × (restarted : Source) × (find_source after.sources uuid ≡ some now)
    × (effective sources after.overlay uuid ≡ some restarted)
    × (now.executor.username ≡ "console_executor")
    × (restarted.executor.username ≡ "retention_executor")
executor_reverts_example =
    executor_reverts silent_opener version_text same identity true sound (pos 1000) sources envelope
      running before source unnamed running-InForce refl declared refl opens refl goes
