-- ===== src/Config/Load.antt =====
-- internal/config/config.go: `Load`, which reads the operator's file, fills in the defaults, merges the
-- managed overlay and validates. Files, YAML and the parsing of a URL are arguments.
use retentionops_connector.Prelude.{
  String, not, ◌||◌, List, [], ◌∷◌, is_nil, if◌then◌else◌, Option, none, some,
}
use retentionops_connector.Prelude.Int.{ℤ, pos, ltb_ℤ, eqb_ℤ}
use retentionops_connector.Prelude.Text.{◌==◌}
use retentionops_connector.Prelude.Result.{Result, Check, ok, err, ◌>>=◌, ◌>>◌, refuse_if, for_each}
use retentionops_connector.Protocol.Formats.{is_uuid}
use retentionops_connector.Policy.{DriftPolicy, DriftMode, grants_delete}
use retentionops_connector.Config.{
  Source, SourceError, empty, discovery_only, execution, validate_source,
}
use retentionops_connector.Config.Managed.{
  Overlay, LoadError, FileRead, absent, failed, read, unreadable, malformed, panicked, bad_url,
  plaintext, poll_range, heartbeat_range, no_identity, no_state, no_source, bad_key, bad_source,
  load_overlay, apply_overlay,
}

pub record ControlPlane : Type 0 where
  pub url : String
  pub poll_wait_seconds : ℤ
  pub heartbeat_seconds : ℤ
  pub ca_file : String

pub record Telemetry : Type 0 where
  pub metrics_address : String
  pub log_format : String
  pub log_level : String

-- The file as it decodes: a source that the file names and leaves empty is null.
pub record FileConfig : Type 0 where
  pub control_plane : ControlPlane
  pub identity_directory : String
  pub state_directory : String
  pub telemetry : Telemetry
  pub sources : List (String × Option Source)

pub record Config : Type 0 where
  pub control_plane : ControlPlane
  pub identity_directory : String
  pub state_directory : String
  pub telemetry : Telemetry
  pub sources : List (String × Source)

abbrev pub or_number : ℤ → ℤ → ℤ
or_number value default = if eqb_ℤ value (pos 0) then default else value

abbrev pub or_text : String → String → String
or_text value default = if empty value then default else value

abbrev pub default_mode : Source → String
default_mode s =
    if empty s.mode then (if grants_delete s.safety then execution else discovery_only) else s.mode

abbrev pub default_drift : DriftPolicy → DriftPolicy
default_drift d = elim d.mode [
  | DriftMode.other name ↦
      if empty name
      then record {
        mode = DriftMode.bounded;
        exact_match_below_rows = pos 1000;
        max_rows = pos 100;
        max_basis_points = pos 50;
      }
      else d
  | _ ↦ d
]

-- The loop of `applyDefaults` for one source.
unfoldable pub default_source : Source → Source
default_source s = record s {
  port = or_number s.port (pos 5432);
  tls = record s.tls { mode = or_text s.tls.mode "verify-full" };
  mode = default_mode s;
  safety = record s.safety { drift = default_drift s.safety.drift };
}

unfoldable pub default_sources :
    List (String × Option Source) → Result LoadError (List (String × Source))
default_sources [] = ok []
default_sources ((id, none) ∷ rest) = err panicked
default_sources ((id, some s) ∷ rest) = do
  others ← default_sources rest
  ok ((id, default_source s) ∷ others)

unfoldable pub apply_defaults : FileConfig → Result LoadError Config
apply_defaults file = do
  sources ← default_sources file.sources
  ok (record {
    control_plane = record file.control_plane {
      poll_wait_seconds = or_number file.control_plane.poll_wait_seconds (pos 30);
      heartbeat_seconds = or_number file.control_plane.heartbeat_seconds (pos 30);
    };
    identity_directory = file.identity_directory;
    state_directory = file.state_directory;
    telemetry = record file.telemetry {
      log_format = or_text file.telemetry.log_format "json";
      log_level = or_text file.telemetry.log_level "info";
    };
    sources = sources;
  })

-- A URL as `url.Parse` takes it apart: its scheme and its host.
abbrev pub check_url : Option (String × String) → Check LoadError
check_url none = err bad_url
check_url (some (scheme, host)) = refuse_if (not (scheme == "https") || empty host) plaintext

abbrev pub as_load_error : Check SourceError → Check LoadError
as_load_error (ok u) = ok u
as_load_error (err e) = err bad_source

unfoldable pub validate_entry : String × Source → Check LoadError
validate_entry (id, s) = do refuse_if (not (is_uuid id)) bad_key; as_load_error (validate_source s)

abbrev pub decoded :
    {Raw : Type 0} → (Raw → Option FileConfig) → FileRead Raw → Result LoadError FileConfig
decoded decode absent = err unreadable
decoded decode failed = err unreadable
decoded decode (read raw) = elim (decode raw) [ none ↦ err malformed | some file ↦ ok file ]

module _ (parse_url : String → Option (String × String)) where
  unfoldable pub validate_control_plane : ControlPlane → Check LoadError
  validate_control_plane c = do
    check_url (parse_url c.url)
    refuse_if (ltb_ℤ c.poll_wait_seconds (pos 1) || ltb_ℤ (pos 300) c.poll_wait_seconds) poll_range
    refuse_if (ltb_ℤ c.heartbeat_seconds (pos 5) || ltb_ℤ (pos 3600) c.heartbeat_seconds)
        heartbeat_range

  unfoldable pub validate : Config → Check LoadError
  validate c = do
    validate_control_plane c.control_plane
    refuse_if (empty c.identity_directory) no_identity
    refuse_if (empty c.state_directory) no_state
    refuse_if (is_nil c.sources) no_source
    for_each c.sources validate_entry

  module _ {Raw : Type 0} (decode : Raw → Option FileConfig) (decode_overlay : Raw → Option Overlay)
      (overlay_at : String → FileRead Raw) where
    unfoldable pub load : FileRead Raw → Result LoadError Config
    load raw = do
      file ← decoded decode raw
      base ← apply_defaults file
      entries ← load_overlay decode_overlay (overlay_at base.state_directory)
      merged ← apply_overlay entries base.sources
      let config = record base { sources = merged }
      validate config
      ok config
