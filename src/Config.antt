-- ===== src/Config.antt =====
-- internal/config/config.go: a source, its validation, and the bounds of the control plane. The
-- parsed URL is an argument.
pub mod Separated
pub mod Managed
pub mod Load
pub mod Local
pub mod Loaded
use retentionops_connector.Prelude.{
  String, Bool, true, false, not, ◌&&◌, ◌||◌, List, [], ◌∷◌, is_nil, if◌then◌else◌, Option, none,
  some,
}
use retentionops_connector.Prelude.Int.{ℤ, pos, ltb_ℤ}
use retentionops_connector.Prelude.Text.{◌==◌, contains}
use retentionops_connector.Prelude.Result.{Result, Check, ok, err, ◌>>=◌, ◌>>◌, refuse_if}
use retentionops_connector.Protocol.Formats.{is_identifier}
use retentionops_connector.Policy.{Safety, grants_delete}
use retentionops_connector.Policy.Validate.{PolicyError, validate_safety}

pub record SecretRef : Type 0 where
  pub provider : String
  pub ref : String

pub record Credential : Type 0 where
  pub username : String
  pub password : SecretRef

pub record Tls : Type 0 where
  pub mode : String
  pub ca_file : String

pub record Source : Type 0 where
  pub type_name : String
  pub mode : String
  pub configured_by : String
  pub host : String
  pub port : ℤ
  pub database : String
  pub tls : Tls
  pub reader : Credential
  pub executor : Credential
  pub safety : Safety

abbrev pub discovery_only : String
discovery_only = "discovery_only"

abbrev pub execution : String
execution = "execution"

abbrev pub by_local : String
by_local = "local"

abbrev pub by_retentionops : String
by_retentionops = "retentionops"

abbrev pub empty : String → Bool
empty s = s == ""

unfoldable pub pending : Source → Bool
pending s = s.configured_by == by_retentionops && (empty s.host || empty s.database)

-- The map of the sources, in some order, with one entry for an identifier.
unfoldable pub find_source : List (String × Source) → String → Option Source
find_source [] id = none
find_source ((name, source) ∷ rest) id = if name == id then some source else find_source rest id

-- `c.Sources[id] = &source`, and an assignment to a source that is there.
unfoldable pub replace_source : List (String × Source) → String → Source → List (String × Source)
replace_source [] id s = []
replace_source ((name, old) ∷ rest) id s =
    let others = replace_source rest id s in
    if name == id then (name, s) ∷ rest else (name, old) ∷ others

pub data SourceError : Type 0 where
  type_name configured_by no_host port_range grants_in_discovery no_grant mode tls_mode :
      SourceError
  bad_username no_password same_role no_executor pending_grants pending_execution : SourceError
  safety : PolicyError → SourceError

abbrev pub no_reference : SecretRef → Bool
no_reference r = empty r.provider || empty r.ref

unfoldable pub validate_credential : Credential → Check SourceError
validate_credential c = do
  refuse_if (not (is_identifier c.username)) bad_username
  refuse_if (no_reference c.password) no_password

abbrev pub as_source_error : Check PolicyError → Check SourceError
as_source_error (ok u) = ok u
as_source_error (err e) = err (safety e)

unfoldable pub validate_pending : Source → Check SourceError
validate_pending s = do
  refuse_if (grants_delete s.safety) pending_grants
  refuse_if (s.mode == execution) pending_execution
  refuse_if (no_reference s.reader.password) no_password
  if is_nil s.safety.allowed_schemas then ok tt else as_source_error (validate_safety s.safety)

unfoldable pub validate_mode : Source → Check SourceError
validate_mode s =
    if s.mode == discovery_only
    then refuse_if (grants_delete s.safety) grants_in_discovery
    else if s.mode == execution
    then refuse_if (not (grants_delete s.safety)) no_grant
    else err mode

unfoldable pub validate_executor : Source → Check SourceError
validate_executor s =
    if not (empty s.executor.username)
      || (not (empty s.executor.password.provider) || not (empty s.executor.password.ref))
    then validate_credential s.executor
      >> refuse_if (s.executor.username == s.reader.username) same_role
    else refuse_if (grants_delete s.safety) no_executor

-- The policy, which may reach nothing yet where the console configures the source.
unfoldable pub validate_reach : Source → Check SourceError
validate_reach s =
    if is_nil s.safety.allowed_schemas
      && (s.configured_by == by_retentionops && not (grants_delete s.safety))
    then ok tt
    else as_source_error (validate_safety s.safety)

unfoldable pub validate_configured : Source → Check SourceError
validate_configured s = do
  refuse_if (empty s.host || empty s.database) no_host
  refuse_if (ltb_ℤ s.port (pos 1) || ltb_ℤ (pos 65535) s.port) port_range
  validate_mode s
  refuse_if (not (contains s.tls.mode ("verify-full" ∷ "verify-ca" ∷ "require" ∷ []))) tls_mode
  validate_credential s.reader
  validate_executor s
  validate_reach s

unfoldable pub validate_source : Source → Check SourceError
validate_source s = do
  refuse_if (not (s.type_name == "postgresql")) type_name
  refuse_if (not (contains s.configured_by ("" ∷ by_local ∷ by_retentionops ∷ []))) configured_by
  if pending s then validate_pending s else validate_configured s
