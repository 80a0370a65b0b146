-- ===== src/Tests/Operator.antt =====
-- internal/config, internal/scope and internal/execution: the theorems at the toy deployment.
use retentionops_connector.Prelude.{
  ◌≡◌, refl, ◌↔◌, String, true, false, List, [], ◌∷◌, Option, none, some,
}
use retentionops_connector.Prelude.Int.{pos}
use retentionops_connector.Prelude.Text.{codes, contains}
use retentionops_connector.Prelude.Result.{Result, ok}
use retentionops_connector.Protocol.Formats.{is_uuid, is_identifier, matches}
use retentionops_connector.Policy.{grants_delete, allows, same_action, schema_allowed}
use retentionops_connector.Policy.Validate.{
  validate_safety, validate_tables, validate_table, validate_delete_rule, validate_drift_policy,
}
use retentionops_connector.Config.{
  replace_source, Source, find_source, pending, validate_source, validate_configured, validate_mode,
  validate_credential, validate_executor, validate_reach,
}
use retentionops_connector.Config.Managed.{
  ManagedSource, Entries, Overlay, LoadError, FileRead, read, managed, apply_overlay, load_overlay,
}
use retentionops_connector.Config.Load.{
  FileConfig, Config, default_source, default_sources, apply_defaults, validate_entry,
  validate_control_plane, validate, decoded, load,
}
use retentionops_connector.Config.Loaded.{Loaded, load-Loaded}
use retentionops_connector.Scope
use retentionops_connector.Scope.{Disk}
use retentionops_connector.Scope.Chosen.{Settles, set-Settles}
use retentionops_connector.Execution
use retentionops_connector.Execution.{
  PrepareOptions, Table, Bundle, Host, enabled, propose, parse_table,
}
use retentionops_connector.Execution.Enabled.{Enabled, propose-Enabled}
use retentionops_connector.Execution.Reviewed.{Reviewed, apply-Reviewed}
use retentionops_connector.Execution.Tables.{Spells, parse_table_iff}
use retentionops_connector.Tests.Data.{uuid, source, safety, rule}

abbrev sources : List (String × Source)
sources = (uuid, source) ∷ []

abbrev file : FileConfig
file = record {
  control_plane = record {
    url = "https://retentionops.example";
    poll_wait_seconds = pos 0;
    heartbeat_seconds = pos 60;
    ca_file = "";
  };
  identity_directory = "/var/lib/retentionops/identity";
  state_directory = "/var/lib/retentionops/state";
  telemetry = record { metrics_address = ""; log_format = ""; log_level = "" };
  sources = (uuid, some source) ∷ [];
}

abbrev entry : ManagedSource
entry = record {
  host = "replica.internal";
  port = pos 5433;
  database = "app";
  reader_role = "console_reader";
  executor_role = "console_executor";
  tls_mode = "verify-ca";
}

abbrev entries : Entries
entries = (uuid, some entry) ∷ []

abbrev parse_url : String → Option (String × String)
parse_url url = some ("https", "retentionops.example")

-- A file is its decoded content, and the overlay beside it is `entries`.
abbrev overlay : FileConfig → Option Overlay
overlay f = some (record { version = pos 1; sources = some entries })

abbrev here_is : String → FileRead FileConfig
here_is state = read file

abbrev replica : Source
replica = record source {
  host = "replica.internal";
  port = pos 5433;
  tls = record { mode = "verify-ca"; ca_file = "" };
  reader = record { username = "console_reader"; password = source.reader.password };
  executor = record { username = "console_executor"; password = source.executor.password };
}

abbrev configuration : Config
configuration = record {
  control_plane = record file.control_plane { poll_wait_seconds = pos 30 };
  identity_directory = file.identity_directory;
  state_directory = file.state_directory;
  telemetry = record { metrics_address = ""; log_format = "json"; log_level = "info" };
  sources = (uuid, replica) ∷ [];
}

loads : load parse_url some overlay here_is (read file) ≡ ok configuration
unfolding load apply_defaults default_sources default_source load_overlay apply_overlay find_source
    replace_source managed validate validate_control_plane validate_entry is_uuid matches
    validate_source contains pending validate_configured validate_mode grants_delete allows
    same_action validate_credential is_identifier validate_executor validate_reach validate_safety
    validate_tables validate_table schema_allowed validate_delete_rule validate_drift_policy
loads = refl

found : find_source configuration.sources uuid ≡ some replica
unfolding find_source
found = refl

load-Loaded_example : (f : FileConfig) × (decoded some (read file) ≡ ok f) × Loaded f uuid replica
load-Loaded_example =
    load-Loaded parse_url some overlay here_is (read file) configuration uuid replica loads found

merges : apply_overlay entries sources ≡ ok ((uuid, replica) ∷ [])
unfolding apply_overlay find_source replace_source managed
merges = refl

abbrev render : Config → Option Config
render = some

abbrev scope_disk : Disk Config
scope_disk = record { file = configuration; backups = [] }

abbrev sound_scope : Scope.Faults
sound_scope = record {
  file_read = false;
  backup_write = false;
  file_write = false;
  directory_sync = false;
}

set-Settles_example :
    Settles parse_url render configuration uuid ("app" ∷ []) ("app" ∷ "public" ∷ []) scope_disk (
      Scope.set parse_url render sound_scope configuration uuid
        ("app" ∷ [])
        ("app" ∷ "public" ∷ [])
        scope_disk)
set-Settles_example =
    set-Settles parse_url render sound_scope configuration uuid ("app" ∷ []) ("app" ∷ "public" ∷ [])
      scope_disk

parse_table_iff_example :
    (parse_table (codes "app.events:created_at")
      ≡ ok (record {
        schema = codes "app";
        name = codes "events";
        retention_column = codes "created_at";
      }))
    ↔ Spells (codes "app.events:created_at") (record {
      schema = codes "app";
      name = codes "events";
      retention_column = codes "created_at";
    })
parse_table_iff_example =
    parse_table_iff (codes "app.events:created_at") (record {
      schema = codes "app";
      name = codes "events";
      retention_column = codes "created_at";
    })

abbrev idle : Source
idle = record source { mode = "discovery_only"; safety = record safety { tables = [] } }

abbrev options : PrepareOptions
options = record {
  source_id = uuid;
  executor_role = "retention_executor";
  executor_secret_ref = "/etc/retentionops/executor";
  tables = record { schema = "app"; name = "events"; retention_column = "created_at" } ∷ [];
  max_delete_rows = pos 100;
  max_batch_size = pos 50;
}

abbrev discovering : Config
discovering = record configuration { sources = (uuid, idle) ∷ [] }

abbrev executing : Config
executing = record configuration {
  sources =
      (
        uuid,
        record idle {
          mode = "execution";
          executor = record {
            username = "retention_executor";
            password = record { provider = "file"; ref = "/etc/retentionops/executor" };
          };
          safety = record idle.safety {
            tables = record rule { retention_columns = "created_at" ∷ [] } ∷ [];
          };
        },
      )
      ∷ [];
}

proposes : propose parse_url options discovering ≡ ok executing
unfolding propose enabled find_source replace_source validate validate_control_plane validate_entry
    is_uuid matches validate_source contains pending validate_configured validate_mode grants_delete
    allows same_action validate_credential is_identifier validate_executor validate_reach
    validate_safety validate_tables validate_table schema_allowed validate_delete_rule
    validate_drift_policy
proposes = refl

propose-Enabled_example : Enabled options discovering executing
propose-Enabled_example = propose-Enabled parse_url options discovering executing proposes

-- Files that are texts, and their own digests.
abbrev as_is : String → String
as_is s = s

abbrev text_of : Config → Option String
text_of c = some "pending"

abbrev read_text : String → Result LoadError Config
read_text s = ok executing

abbrev bundle : Bundle String
bundle = record {
  marked = true;
  manifest = some (record {
    version = pos 1;
    source_id = uuid;
    base_config_digest = "base";
    pending_config_digest = "pending";
  });
  pending = some "pending";
}

prepares :
    Execution.prepare as_is parse_url text_of options discovering true (some "base") true
    ≡ ok bundle
unfolding Execution.prepare propose enabled find_source replace_source validate
    validate_control_plane validate_entry is_uuid matches validate_source contains pending
    validate_configured validate_mode grants_delete allows same_action validate_credential
    is_identifier validate_executor validate_reach validate_safety validate_tables validate_table
    schema_allowed validate_delete_rule validate_drift_policy
prepares = refl

abbrev sound_host : Execution.Faults
sound_host = record {
  secret_write = false;
  backup_write = false;
  config_write = false;
  protect = false;
}

abbrev host : Host String
host = record { config = "base"; backups = []; secret = none }

apply-Reviewed_example :
    Reviewed as_is
      (λ x y h. h)
      read_text
      parse_url
      text_of
      options
      discovering
      "base"
      host
      (Execution.apply as_is read_text sound_host bundle (codes "secret") none host).1
apply-Reviewed_example =
    apply-Reviewed as_is (λ x y h. h) read_text parse_url text_of options discovering true true
      "base" bundle bundle sound_host (codes "secret") none host prepares refl
