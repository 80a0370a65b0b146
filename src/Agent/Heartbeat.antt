-- ===== src/Agent/Heartbeat.antt =====
-- internal/agent/agent.go: `sendHeartbeat`, and protocol/v1/result.go: what it sends.
pub mod Discloses
use retentionops_connector.Prelude.{
  ℕ, String, Bool, true, false, List, [], ◌∷◌, if◌then◌else◌, Option, none, some, map,
}
use retentionops_connector.Prelude.Text.{Time}
use retentionops_connector.Protocol.Job.{Operation, operations, wire_version}
use retentionops_connector.Policy.{allowed_table_count}
use retentionops_connector.Config.{Source, pending}
use retentionops_connector.Evidence.{Builder}

pub data SourceState : Type 0 where
  ready degraded unconfigured failed : SourceState

-- The members that a connector fills in.
pub record SourceStatus : Type 0 where
  pub data_source_id : String
  pub type_name : String
  pub status : SourceState
  pub tls_mode : String
  pub allowed_tables : ℕ

pub record Heartbeat : Type 0 where
  pub version : String
  pub organization_id : String
  pub connector_id : String
  pub connector_version : String
  pub occurred_at : Time
  pub platform : String
  pub capabilities : List Operation
  pub encryption_key : String
  pub policy_digest : String
  pub sources : List SourceStatus

-- One round of the loop over the sources.
unfoldable pub source_status : String × Source → SourceStatus
source_status (id, s) = record {
  data_source_id = id;
  type_name = s.type_name;
  status = if pending s then unconfigured else ready;
  tls_mode = if pending s then "" else s.tls.mode;
  allowed_tables = allowed_table_count s.safety;
}

-- A key that cannot be derived is left out.
abbrev pub key_or_empty : Option String → String
key_or_empty none = ""
key_or_empty (some key) = key

unfoldable pub heartbeat :
    Builder → String → Option String → Time → List (String × Source) → Heartbeat
unfolding source_status
heartbeat b platform key now sources = record {
  version = wire_version;
  organization_id = b.organization_id;
  connector_id = b.connector_id;
  connector_version = b.version;
  occurred_at = now;
  platform = platform;
  capabilities = operations;
  encryption_key = key_or_empty key;
  policy_digest = b.policy_digest;
  sources = map source_status sources;
}
