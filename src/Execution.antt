-- ===== src/Execution.antt =====
-- internal/execution/enable.go: the two steps by which an operator lets a source delete: a bundle that
-- is prepared for review, and its installation. YAML, digests and the disk are arguments; the paths of
-- the files and the SQL for the executor role are left out.
pub mod Tables
pub mod Enabled
pub mod Reviewed
use retentionops_connector.Prelude.{
  ℕ, String, Bool, true, false, not, ◌&&◌, ◌||◌, List, [], ◌∷◌, ◌++◌, is_nil, length, ltb, eqb, map,
  if◌then◌else◌, Option, none, some,
}
use retentionops_connector.Prelude.Int.{ℤ, pos, leb_ℤ, eqb_ℤ}
use retentionops_connector.Prelude.Text.{◌==◌}
use retentionops_connector.Prelude.Result.{Result, Check, ok, err, ◌>>=◌, ◌>>◌, refuse_if}
use retentionops_connector.Policy.{Safety, TableRule, Action, grants_delete}
use retentionops_connector.Config.{
  Source, SecretRef, Credential, discovery_only, execution, find_source, replace_source,
}
use retentionops_connector.Config.Managed.{LoadError}
use retentionops_connector.Config.Load.{Config, validate}

-- Its texts are lists of code points where they are parsed.
pub record Table (A : Type 0) : Type 0 where
  pub schema : A
  pub name : A
  pub retention_column : A

pub data EnableError : Type 0 where
  no_table ceilings absent not_discovery_only invalid bad_output not_rendered : EnableError
  no_base not_written : EnableError
  no_bundle bad_manifest policy_changed no_pending pending_changed : EnableError
  not_loadable not_enabled secret_empty secret_unreadable secret_too_large : EnableError
  not_installed not_protected bad_table : EnableError

-- `strings.Cut(s, sep)` for a separator of one character.
unfoldable pub cut : ℕ → List ℕ → Option (List ℕ × List ℕ)
cut sep [] = none
cut sep (c ∷ s) =
    let rest = cut sep s in
    if eqb c sep
    then some ([], s)
    else elim rest [ none ↦ none | some (before, after) ↦ some (c ∷ before, after) ]

abbrev pub cut_or_refuse : Option (List ℕ × List ℕ) → Result EnableError (List ℕ × List ℕ)
cut_or_refuse none = err bad_table
cut_or_refuse (some parts) = ok parts

-- `ParseTable`
unfoldable pub parse_table : List ℕ → Result EnableError (Table (List ℕ))
unfolding cut
parse_table value = do
  (target, column) ← cut_or_refuse (cut b':' value)
  (schema, table) ← cut_or_refuse (cut b'.' target)
  refuse_if (is_nil schema || (is_nil table || is_nil column)) bad_table
  ok (record { schema = schema; name = table; retention_column = column })

pub record PrepareOptions : Type 0 where
  pub source_id : String
  pub executor_role : String
  pub executor_secret_ref : String
  pub tables : List (Table String)
  pub max_delete_rows : ℤ
  pub max_batch_size : ℤ

-- The rule of the policy that is added for a table.
abbrev pub table_rule : PrepareOptions → Table String → TableRule
table_rule o t = record {
  schema = t.schema;
  table = t.name;
  actions = Action.inspect ∷ Action.delete ∷ [];
  retention_columns = t.retention_column ∷ [];
  max_delete_rows = o.max_delete_rows;
  max_batch_size = o.max_batch_size;
}

-- The assignments to the source.
unfoldable pub enabled : PrepareOptions → Source → Source
enabled o s = record s {
  mode = execution;
  executor = record {
    username = o.executor_role;
    password = record { provider = "file"; ref = o.executor_secret_ref };
  };
  safety = record s.safety { tables = s.safety.tables ++ map (table_rule o) o.tables };
}

abbrev pub declared_or_absent : Option Source → Result EnableError Source
declared_or_absent none = err absent
declared_or_absent (some s) = ok s

abbrev pub valid_or_invalid : Check LoadError → Check EnableError
valid_or_invalid (ok u) = ok u
valid_or_invalid (err e) = err invalid

-- `Prepare` up to the configuration that it proposes.
unfoldable pub propose :
    (String → Option (String × String)) → PrepareOptions → Config → Result EnableError Config
propose parse_url o c = do
  refuse_if (is_nil o.tables) no_table
  refuse_if (leb_ℤ o.max_delete_rows (pos 0) || leb_ℤ o.max_batch_size (pos 0)) ceilings
  s ← declared_or_absent (find_source c.sources o.source_id)
  refuse_if (not (s.mode == discovery_only) || grants_delete s.safety) not_discovery_only
  let proposed = record c { sources = replace_source c.sources o.source_id (enabled o s) }
  valid_or_invalid (validate parse_url proposed)
  ok proposed

pub record Manifest : Type 0 where
  pub version : ℤ
  pub source_id : String
  pub base_config_digest : String
  pub pending_config_digest : String

-- The files of a bundle; a manifest that does not decode is none.
pub record Bundle (Raw : Type 0) : Type 0 where
  pub marked : Bool
  pub manifest : Option Manifest
  pub pending : Option Raw

abbrev pub present : {A : Type 0} → EnableError → Option A → Result EnableError A
present e none = err e
present e (some a) = ok a

-- The configuration file and its copies, and the executor's secret.
pub record Host (Raw : Type 0) : Type 0 where
  pub config : Raw
  pub backups : List Raw
  pub secret : Option (List ℕ)

-- What `os.Stat` and `os.ReadFile` say of a secret's file.
pub record SecretFile : Type 0 where
  pub private_mode : Bool
  pub content : List ℕ

pub record Faults : Type 0 where
  pub secret_write : Bool
  pub backup_write : Bool
  pub config_write : Bool
  pub protect : Bool

abbrev pub line_end : ℕ → Bool
line_end c = eqb c 10 || eqb c 13

-- `bytes.TrimRight(raw, "\r\n")`
unfoldable pub trim_right : List ℕ → List ℕ
trim_right [] = []
trim_right (c ∷ s) = let rest = trim_right s in if is_nil rest && line_end c then [] else c ∷ rest

-- `readPrivate`
abbrev pub read_private : SecretFile → Result EnableError (List ℕ)
read_private f = do
  refuse_if (not f.private_mode) secret_unreadable
  refuse_if (is_nil (trim_right f.content)) secret_empty
  ok (trim_right f.content)

-- The secret that was given, or that of the file; an outer none is a path that is not given.
abbrev pub secret_from : List ℕ → Option (Option SecretFile) → Result EnableError (List ℕ)
secret_from given file =
    if not (is_nil (trim_right given)) then ok (trim_right given) else elim file [
      | none ↦ err secret_empty
      | some none ↦ err secret_unreadable
      | some (some f) ↦ read_private f
    ]

-- The pending source must be able to execute.
unfoldable pub check_enabled : String → Result LoadError Config → Check EnableError
check_enabled id (err e) = err not_loadable
check_enabled id (ok c) = do
  s ← present not_enabled (find_source c.sources id)
  refuse_if (not (s.mode == execution)) not_enabled

module _ {Raw : Type 0} (digest : Raw → String) where
  -- The rest of `Prepare`, with what the files gave: the output directory, the rendering, and the
  -- second reading of the operator's file.
  unfoldable pub prepare :
      (String → Option (String × String))
      → (Config → Option Raw)
      → PrepareOptions
      → Config
      → (output_ready : Bool) → Option Raw
      → (written : Bool) → Result EnableError (Bundle Raw)
  prepare parse_url render o c output_ready base_read written = do
    proposed ← propose parse_url o c
    refuse_if (not output_ready) bad_output
    pending ← present not_rendered (render proposed)
    base ← present no_base base_read
    refuse_if (not written) not_written
    ok (record {
      marked = true;
      manifest = some (record {
        version = pos 1;
        source_id = o.source_id;
        base_config_digest = digest base;
        pending_config_digest = digest pending;
      });
      pending = some pending;
    })

  -- The checks of `Apply` on the files of the bundle and the file in force.
  unfoldable pub check_files : Bundle Raw → Raw → Result EnableError (Manifest × Raw)
  check_files b current = do
    refuse_if (not b.marked) no_bundle
    document ← present bad_manifest b.manifest
    refuse_if (not (eqb_ℤ document.version (pos 1))) bad_manifest
    refuse_if (not (digest current == document.base_config_digest)) policy_changed
    pending ← present no_pending b.pending
    refuse_if (not (digest pending == document.pending_config_digest)) pending_changed
    ok (document, pending)

  -- The configuration to install and the secret.
  unfoldable pub check_bundle :
      (Raw → Result LoadError Config)
      → Bundle Raw
      → Raw
      → List ℕ
      → Option (Option SecretFile)
      → Result EnableError (Raw × List ℕ)
  check_bundle load b current given file = do
    (document, pending) ← check_files b current
    check_enabled document.source_id (load pending)
    secret ← secret_from given file
    refuse_if (ltb 65536 (length secret)) secret_too_large
    ok (pending, secret)

-- The writes of `Apply` in their order: the secret, the copy, the file, and the owners.
unfoldable pub install :
    {Raw : Type 0} → Faults → Raw → List ℕ → Host Raw → Check EnableError × Host Raw
install faults pending secret h =
    if faults.secret_write
    then (err not_installed, h)
    else if faults.backup_write
    then (err not_installed, record h { secret = some secret })
    else if faults.config_write
    then (err not_installed, record h { secret = some secret; backups = h.config ∷ h.backups })
    else (
      (if faults.protect then err not_protected else ok tt),
      record { config = pending; backups = h.config ∷ h.backups; secret = some secret },
    )

abbrev pub install_checked :
    {Raw : Type 0}
    → Faults
    → Host Raw
    → Result EnableError (Raw × List ℕ)
    → Check EnableError × Host Raw
install_checked faults h (err e) = (err e, h)
install_checked faults h (ok (pending, secret)) = install faults pending secret h

unfoldable pub apply :
    {Raw : Type 0}
    → (Raw → String)
    → (Raw → Result LoadError Config)
    → Faults
    → Bundle Raw
    → List ℕ
    → Option (Option SecretFile)
    → Host Raw
    → Check EnableError × Host Raw
apply digest load faults b given file h =
    install_checked faults h (check_bundle digest load b h.config given file)
