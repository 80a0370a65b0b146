-- ===== src/Config/Managed.antt =====
-- internal/config/managed.go: what a console may set on a source, the overlay on disk, and its merge
-- into the sources that the operator's file declares.
use retentionops_connector.Prelude.{String, not, List, [], ◌∷◌, if◌then◌else◌, Option, none, some}
use retentionops_connector.Prelude.Int.{ℤ, pos, eqb_ℤ}
use retentionops_connector.Prelude.Result.{Result, ok, err, ◌>>=◌, ◌>>◌, refuse_if}
use retentionops_connector.Config.{Source, empty, find_source, replace_source}

pub record ManagedSource : Type 0 where
  pub host : String
  pub port : ℤ
  pub database : String
  pub reader_role : String
  pub executor_role : String
  pub tls_mode : String

-- A map of the entries; an entry may be null.
abbrev pub Entries : Type 0
Entries = List (String × Option ManagedSource)

pub record Overlay : Type 0 where
  pub version : ℤ
  pub sources : Option Entries

-- `panicked` is the dereference of a null source, which no error value reports.
pub data LoadError : Type 0 where
  unreadable malformed panicked bad_overlay overlay_version unknown_source : LoadError
  bad_url plaintext poll_range heartbeat_range no_identity no_state : LoadError
  no_source bad_key bad_source : LoadError

-- What reading a file gives.
pub data FileRead (Raw : Type 0) : Type 0 where
  absent : FileRead Raw
  failed : FileRead Raw
  read : Raw → FileRead Raw

abbrev pub entries_or_none : Option Entries → Entries
entries_or_none none = []
entries_or_none (some entries) = entries

abbrev pub checked_overlay : Option Overlay → Result LoadError Entries
checked_overlay none = err bad_overlay
checked_overlay (some overlay) = do
  refuse_if (not (eqb_ℤ overlay.version (pos 1))) overlay_version
  ok (entries_or_none overlay.sources)

-- `LoadManagedOverlay`
unfoldable pub load_overlay :
    {Raw : Type 0} → (Raw → Option Overlay) → FileRead Raw → Result LoadError Entries
load_overlay decode absent = ok []
load_overlay decode failed = err bad_overlay
load_overlay decode (read raw) = checked_overlay (decode raw)

-- The assignments to a source that has an entry.
unfoldable pub managed : ManagedSource → Source → Source
managed m s = record s {
  host = m.host;
  port = m.port;
  database = m.database;
  tls = record s.tls { mode = m.tls_mode };
  reader = record s.reader { username = m.reader_role };
  executor =
      if empty m.executor_role
      then s.executor
      else record s.executor { username = m.executor_role };
}

abbrev pub with_entry : Option ManagedSource → Source → Source
with_entry none s = s
with_entry (some m) s = managed m s

-- One round of the loop of `ApplyManagedOverlay`.
abbrev pub apply_entry :
    Option Source
    → String
    → Option ManagedSource
    → List (String × Source)
    → Result LoadError (List (String × Source))
apply_entry none id entry sources = err unknown_source
apply_entry (some s) id entry sources = ok (replace_source sources id (with_entry entry s))

unfoldable pub apply_overlay :
    Entries → List (String × Source) → Result LoadError (List (String × Source))
apply_overlay [] sources = ok sources
apply_overlay ((id, entry) ∷ rest) sources = do
  changed ← apply_entry (find_source sources id) id entry sources
  apply_overlay rest changed
