-- ===== src/Scope.antt =====
-- internal/scope/scope.go: the schemas that a source may enter, chosen on its host. YAML and the disk
-- are arguments.
pub mod Chosen
use retentionops_connector.Prelude.{
  ℕ, String, Bool, true, false, not, List, [], ◌∷◌, is_nil, if◌then◌else◌, Option, none, some,
}
use retentionops_connector.Prelude.Text.{codes, ◌==◌, contains}
use retentionops_connector.Prelude.Result.{Result, Check, ok, err, ◌>>=◌, ◌>>◌, refuse_if, for_each}
use retentionops_connector.Config.{Source, find_source, replace_source, pending}
use retentionops_connector.Config.Managed.{LoadError}
use retentionops_connector.Config.Load.{Config, validate}
use retentionops_connector.Protocol.Canonical.{less_units}

pub data ScopeError : Type 0 where
  not_declared not_configured none_chosen outside_grants not_usable not_rendered : ScopeError
  no_backup not_written not_synced : ScopeError

-- Go compares texts by their bytes, which in UTF-8 is by code points.
abbrev pub text_before : String → String → Bool
text_before a b = less_units (codes a) (codes b)

unfoldable pub insert_text : String → List String → List String
insert_text s [] = s ∷ []
insert_text s (x ∷ xs) = if text_before s x then s ∷ x ∷ xs else x ∷ insert_text s xs

-- `slices.Sort`
unfoldable pub sort_texts : List String → List String
sort_texts [] = []
sort_texts (s ∷ rest) = insert_text s (sort_texts rest)

-- `slices.Compact`: of equal neighbours the first stays.
unfoldable pub compact_after : String → List String → List String
compact_after last [] = []
compact_after last (s ∷ rest) =
    let kept = compact_after s rest in if s == last then kept else s ∷ kept

unfoldable pub compact : List String → List String
unfolding compact_after
compact [] = []
compact (s ∷ rest) = s ∷ compact_after s rest

-- The file and the copies of it that were kept.
pub record Disk (Raw : Type 0) : Type 0 where
  pub file : Raw
  pub backups : List Raw

pub record Faults : Type 0 where
  pub file_read : Bool
  pub backup_write : Bool
  pub file_write : Bool
  pub directory_sync : Bool

abbrev pub with_schemas : Source → List String → Source
with_schemas s schemas = record s { safety = record s.safety { allowed_schemas = schemas } }

-- The checks before anything is changed.
unfoldable pub check_choice : Source → List String → List String → Check ScopeError
check_choice s chosen reachable = do
  refuse_if (pending s) not_configured
  refuse_if (is_nil chosen) none_chosen
  for_each chosen λ name. refuse_if (not (contains name reachable)) outside_grants

abbrev pub changed_config : Config → String → Source → List String → Config
changed_config c id s chosen = record c {
  sources = replace_source c.sources id (with_schemas s (compact (sort_texts chosen)));
}

module _ (parse_url : String → Option (String × String)) {Raw : Type 0}
    (render : Config → Option Raw) (faults : Faults) where
  -- `keepPrevious`, and the replacement of the file, which is atomic. Behind it the directory is opened
  -- and synchronised; an error of that leaves the new file.
  unfoldable pub install : Raw → Disk Raw → Check ScopeError × Disk Raw
  install content d =
      if faults.file_read
      then (err no_backup, d)
      else if faults.backup_write
      then (err no_backup, d)
      else if faults.file_write
      then (err not_written, record d { backups = d.file ∷ d.backups })
      else if faults.directory_sync
      then (err not_synced, record { file = content; backups = d.file ∷ d.backups })
      else (ok tt, record { file = content; backups = d.file ∷ d.backups })

  abbrev pub rendered : Config → Option Raw → Disk Raw → Check ScopeError × Config × Disk Raw
  rendered c none d = (err not_rendered, c, d)
  rendered c (some content) d = let (outcome, d') = install content d in (outcome, c, d')

  -- A configuration that does not validate is put back.
  abbrev pub validated :
      Config → Config → Check LoadError → Disk Raw → Check ScopeError × Config × Disk Raw
  validated before c (err e) d = (err not_usable, before, d)
  validated before c (ok u) d = rendered c (render c) d

  abbrev pub checked :
      Config
      → String
      → Source
      → List String
      → Check ScopeError
      → Disk Raw
      → Check ScopeError × Config × Disk Raw
  checked c id s chosen (err e) d = (err e, c, d)
  checked c id s chosen (ok u) d =
      validated c (changed_config c id s chosen) (validate parse_url (changed_config c id s chosen))
        d

  abbrev pub set_found :
      Config
      → String
      → List String
      → List String
      → Option Source
      → Disk Raw
      → Check ScopeError × Config × Disk Raw
  set_found c id chosen reachable none d = (err not_declared, c, d)
  set_found c id chosen reachable (some s) d =
      checked c id s chosen (check_choice s chosen reachable) d

  -- `Set`: the outcome, the configuration in memory, and the disk.
  unfoldable pub set :
      Config → String → List String → List String → Disk Raw → Check ScopeError × Config × Disk Raw
  set c id chosen reachable d = set_found c id chosen reachable (find_source c.sources id) d
