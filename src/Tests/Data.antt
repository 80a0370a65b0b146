-- ===== src/Tests/Data.antt =====
-- A toy deployment: one table, a policy, a delete of 30 rows, and a database that counts.
use retentionops_connector.Prelude.{
  ℕ, ◌+◌, ◌-◌, String, true, false, List, [], ◌∷◌, Option, none, some, ltb, if◌then◌else◌,
}
use retentionops_connector.Prelude.Int.{ℤ, pos, negsuc}
use retentionops_connector.Prelude.Text.{◌==◌}
use retentionops_connector.Prelude.Result.{Result, ok, err}
use retentionops_connector.Protocol.Job
use retentionops_connector.Protocol.Job.{
  Operation, Target, Predicate, PredicateType, Limits, Approval, JobEnvelope, Condition, Conditions,
  Negated, node,
}
use retentionops_connector.Protocol.Control.{ExecutionControl, ControlAction}
use retentionops_connector.Protocol.Signing.{Sealer}
use retentionops_connector.Policy.{Safety, TableRule, Action, DriftMode}
use retentionops_connector.Evidence.{Builder}
use retentionops_connector.Jobs.Replay.{Ledger, OpenFaults, PruneFaults}
use retentionops_connector.Jobs.Verifier.{Codec, Identity}
use retentionops_connector.ControlPlane.{AnswerCodec}
use retentionops_connector.Config.{Source, Credential}
use retentionops_connector.Postgres.Errors.{DriverError, other}
use retentionops_connector.Postgres.Session.{Session}
use retentionops_connector.Postgres.Delete.{Surroundings}
use retentionops_connector.Agent.Checkpoint.{Gate, Context}
use retentionops_connector.Agent.Handle.{Readings, Connector, Outside}

abbrev pub uuid : String
uuid = "0a1b2c3d-0000-4000-8000-00000000000f"

abbrev pub digest : String
digest = "sha256:0123456789abcdef0123456789abcdef0123456789abcdef0123456789abcdef"

abbrev pub signature : String
signature =
    "ed25519:AAAAAAAAAAAAAAAAAAAAAAAAAAAAAAAAAAAAAAAAAAAAAAAAAAAAAAAAAAAAAAAAAAAAAAAAAAAAAAAAAAAAAA=="

abbrev pub nonce : String
nonce = "abcdefghijklmnopqrstuv"

abbrev pub table : Target
table = record { schema = "app"; table = "events" }

abbrev pub before_cutoff : Predicate
before_cutoff = record {
  type_name = PredicateType.before_type;
  column = "created_at";
  value = pos 50;
}

abbrev pub limits : Limits
limits = record {
  batch_size = pos 20;
  max_rows = pos 30;
  statement_timeout_seconds = pos 60;
  lock_timeout_seconds = pos 5;
  max_duration_seconds = pos 0;
  pause_between_batches_ms = pos 0;
}

abbrev pub hold : Condition
hold = node "legal_hold" "isNull" none Conditions.nil Conditions.nil Negated.absent

abbrev pub drift : Job.Drift
drift = record { expected_rows = pos 30; max_rows = pos 5; max_basis_points = pos 0 }

abbrev pub approval : Approval
approval = record { id = uuid; approved_at = pos 100; expires_at = pos 5000 }

abbrev pub job : JobEnvelope
job = record {
  version = "1";
  job_id = uuid;
  organization_id = uuid;
  connector_id = uuid;
  data_source_id = uuid;
  operation = Operation.delete;
  target = some table;
  predicate = some before_cutoff;
  condition = none;
  holds = hold ∷ [];
  limits = some limits;
  drift = some drift;
  plan_digest = digest;
  approval = some approval;
  issued_at = pos 200;
  expires_at = pos 2000;
  nonce = nonce;
  signature = signature;
}

abbrev pub rule : TableRule
rule = record {
  schema = "app";
  table = "events";
  actions = Action.inspect ∷ Action.delete ∷ [];
  retention_columns = "created_at" ∷ "legal_hold" ∷ [];
  max_delete_rows = pos 100;
  max_batch_size = pos 50;
}

abbrev pub safety : Safety
safety = record {
  allowed_schemas = "app" ∷ [];
  require_approval = true;
  drift = record {
    mode = DriftMode.bounded;
    exact_match_below_rows = pos 10;
    max_rows = pos 5;
    max_basis_points = pos 10;
  };
  max_delete_rows = pos 1000;
  max_batch_size = pos 100;
  statement_timeout_seconds = pos 30;
  lock_timeout_seconds = pos 5;
  max_duration_seconds = pos 600;
  tables = rule ∷ [];
}

abbrev pub credential : String → Credential
credential name = record { username = name; password = record { provider = "env"; ref = name } }

abbrev pub source : Source
source = record {
  type_name = "postgresql";
  mode = "execution";
  configured_by = "local";
  host = "db.internal";
  port = pos 5432;
  database = "app";
  tls = record { mode = "verify-full"; ca_file = "" };
  reader = credential "retention_reader";
  executor = credential "retention_executor";
  safety = safety;
}

abbrev pub control : ControlAction → ℤ → ExecutionControl
control action version = record {
  version = "1";
  job_id = uuid;
  organization_id = uuid;
  connector_id = uuid;
  action = action;
  execution_version = version;
  issued_at = pos 300;
  expires_at = pos 2000;
  request_nonce = nonce;
  signature = signature;
}

-- The documents are the jobs themselves, and one signature is valid.
abbrev pub codec : Codec JobEnvelope
codec = record {
  decode_job = some;
  canonicalize_without_signature = λ j. some [];
  nonce_digest = λ s. s;
}

abbrev pub answers : AnswerCodec ExecutionControl
answers = record { decode_control = some; canonicalize_without_signature = λ c. some [] }

abbrev pub identity : Identity
identity = record {
  organization_id = uuid;
  connector_id = uuid;
  verify_control_plane = λ payload s. s == signature;
}

abbrev pub builder : Builder
builder = record {
  organization_id = uuid;
  connector_id = uuid;
  version = "1.0.0";
  policy_digest = digest;
}

abbrev pub sealer : Sealer
sealer = record { digest_of = λ r. ok digest; sign = λ payload. ok signature }

abbrev pub connector : Connector JobEnvelope
connector = record {
  codec = codec;
  identity = identity;
  builder = builder;
  sealer = sealer;
  sources = (uuid, source) ∷ [];
}

abbrev pub ledger : Ledger
ledger = record { entries = []; retention = pos 2000 }

abbrev pub sound_disk : OpenFaults
sound_disk = record { open_fails = false; close_fails = false }

abbrev pub sound_prune : PruneFaults
sound_prune = record {
  read_fails = false;
  info_fails = λ name. false;
  remove_fails = λ name. false;
}

-- The candidates in the table, those that the transaction has deleted, and those that are gone.
pub record Rows : Type 0 where
  pub stored : ℕ
  pub pending : ℕ
  pub gone : ℕ

abbrev pub min : ℕ → ℕ → ℕ
min a b = if ltb a b then a else b

abbrev pub delete_some : ℤ → Rows → Result DriverError ℕ × Rows
delete_some (pos size) d = (ok (min size d.stored), record d { pending = min size d.stored })
delete_some (negsuc n) d = (err other, d)

abbrev pub session : Session Rows
session = record {
  resolve_secret = λ role d. (true, d);
  parse_settings = λ role. true;
  dial = λ role d. (ok tt, d);
  begin = λ d. (ok tt, d);
  begin_read_only = λ d. (ok tt, d);
  set_local = λ setting d. (ok tt, d);
  count_candidates = λ d. (ok (record { rows = pos d.stored; oldest = none; newest = none }), d);
  count_resource = λ d. (ok (pos d.stored), d);
  count_held = λ d. (ok (pos 0), d);
  relation_size = λ d. (ok (pos 1000, pos d.stored), d);
  read_version = λ d. (ok ("16.3", true), d);
  read_catalog = λ d. (ok [], d);
  read_references = λ d. (ok [], d);
  delete_rows = delete_some;
  commit = λ d. (
    ok tt,
    record { stored = d.stored - d.pending; pending = d.pending; gone = d.gone + d.pending },
  );
  rollback = λ d. d;
  close = λ d. d;
  now = λ d. pos 0;
  compiles = true;
}

abbrev pub full : Rows
full = record { stored = 30; pending = 0; gone = 0 }

-- A checkpoint that passes, and a wait that is not interrupted.
abbrev pub quiet : Surroundings Rows
quiet = record { observe = λ n total t d. some (ok tt, d); pause = λ ms d. (false, d) }

abbrev pub waiting : List (Option ExecutionControl) → Gate Rows
waiting polls = record {
  sequence = 0;
  highest_version = pos 0;
  polls = polls;
  events = [];
  database = full;
}

-- A request that fails, a pause, and three answers to go on.
abbrev pub polls : List (Option ExecutionControl)
polls =
    none
    ∷ some (control ControlAction.pause (pos 2))
    ∷ some (control ControlAction.run (pos 3))
    ∷ some (control ControlAction.run (pos 3))
    ∷ some (control ControlAction.run (pos 3))
    ∷ []

-- A context that is not done while the job runs.
abbrev pub context : Context
context = record { event_time = pos; lives = true }

abbrev pub outside : Outside Rows
outside = record { session = λ j s. session; pause = λ ms d. (false, d); context = context }

abbrev pub at : Readings
at = record { started = pos 999; verified = pos 1000; authorized = pos 1001; completed = pos 1100 }
