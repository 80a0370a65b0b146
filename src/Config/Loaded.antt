-- ===== src/Config/Loaded.antt =====
-- internal/config/config.go: where the parts of a loaded configuration come from.
use retentionops_connector.Prelude.{
  ◌≡◌, refl, sym, subst, String, is_nil, not, List, [], ◌∷◌, Option, none, some, In, here, there,
  arith, Bool-cases, inl, inr,
}
use retentionops_connector.Prelude.Text.{◌==◌, eq_iff}
use retentionops_connector.Prelude.Result.{Check, ok, err, >>=-eq-ok, for_each, refuse_if}
use retentionops_connector.Protocol.Formats.{is_uuid}
use retentionops_connector.Config.{Source, SourceError, empty, find_source, validate_source}
use retentionops_connector.Config.Managed.{
  bad_key, no_identity, no_state, no_source, Entries, Overlay, FileRead, apply_overlay,
  load_overlay,
}
use retentionops_connector.Config.Load.{
  FileConfig, Config, default_source, default_sources, apply_defaults, validate_entry,
  validate_control_plane, validate, as_load_error, decoded, load,
}
use retentionops_connector.Config.Local.{KeepsLocal, apply_overlay-AllKept}

default_sources-In :
    (file : List (String × Option Source)) (base : List (String × Source)) (key : String)
    (d : Source)
    → default_sources file ≡ ok base
    → find_source base key ≡ some d
    → (declared : Source) × In (key, some declared) file × (d ≡ default_source declared)
unfolding default_sources find_source
default_sources-In [] base key d h found = absurd (cc (h, found))
default_sources-In ((id, none) ∷ file) base key d h found = absurd (cc h)
default_sources-In ((id, some s) ∷ file) base key d h found =
    let (others, defaulted, done) = >>=-eq-ok (default_sources file) _ h in
    let whole : ((id, default_source s) ∷ others) ≡ base = cc in
    let at : find_source ((id, default_source s) ∷ others) key ≡ some d =
      subst (λ b. find_source b key ≡ some d) (sym whole) found in
    elim (Bool-cases (id == key)) [
      | inl same ↦ (
        s,
        subst (λ k. In (k, some s) ((id, some s) ∷ file)) ((eq_iff id key).0 same) here,
        cc (rw same at at),
      )
      | inr other ↦
          let (declared, i, eq) = default_sources-In file others key d defaulted (rw other at at) in
          (declared, there i, eq)
    ]

as_load_error-ok : (c : Check SourceError) → as_load_error c ≡ ok tt → c ≡ ok tt
as_load_error-ok (ok u) h = refl
as_load_error-ok (err e) h = absurd (cc h)

validate_entry-valid :
    (name : String) (x : Source) {r : Unit {0}}
    → validate_entry (name, x) ≡ ok r
    → validate_source x ≡ ok tt
unfolding validate_entry
validate_entry-valid name x h =
    let (_, _, valid) = >>=-eq-ok (refuse_if (not (is_uuid name)) bad_key) _ h in
    as_load_error-ok (validate_source x) valid

find-valid :
    (sources : List (String × Source)) (key : String) (s : Source)
    → for_each sources validate_entry ≡ ok tt
    → find_source sources key ≡ some s
    → validate_source s ≡ ok tt
unfolding find_source
find-valid [] key s h found = absurd (cc found)
find-valid ((name, x) ∷ rest) key s h found =
    let (_, first, others) = >>=-eq-ok (validate_entry (name, x)) _ h in
    elim (Bool-cases (name == key)) [
      | inl same ↦
          let one : x ≡ s = cc (rw same at found) in
          subst (λ u. validate_source u ≡ ok tt) one (validate_entry-valid name x first)
      | inr other ↦ find-valid rest key s others (rw other at found)
    ]

-- Every source of a valid configuration is valid.
pub validate-find :
    (parse_url : String → Option (String × String)) (c : Config) (key : String) (s : Source)
    → validate parse_url c ≡ ok tt
    → find_source c.sources key ≡ some s
    → validate_source s ≡ ok tt
unfolding validate
validate-find parse_url c key s valid found =
    let (_, _, v1) = >>=-eq-ok (validate_control_plane parse_url c.control_plane) _ valid in
    let (_, _, v2) = >>=-eq-ok (refuse_if (empty c.identity_directory) no_identity) _ v1 in
    let (_, _, v3) = >>=-eq-ok (refuse_if (empty c.state_directory) no_state) _ v2 in
    let (_, _, v4) = >>=-eq-ok (refuse_if (is_nil c.sources) no_source) _ v3 in
    find-valid c.sources key s v4 found

-- A source of a loaded configuration, beside its declaration in the operator's file.
pub record Loaded (file : FileConfig) (key : String) (s : Source) : Type 0 where
  pub declared : Source
  pub in_file : In (key, some declared) file.sources
  pub kept : KeepsLocal (default_source declared) s
  pub valid : validate_source s ≡ ok tt

base-sources :
    (file : FileConfig) (base : Config)
    → apply_defaults file ≡ ok base
    → default_sources file.sources ≡ ok base.sources
unfolding apply_defaults
base-sources file base h =
    let (sources, defaulted, done) = >>=-eq-ok (default_sources file.sources) _ h in
    ground (arith, defaulted, done)

merged-Loaded :
    (parse_url : String → Option (String × String)) (file : FileConfig) (base : Config)
    (entries : Entries) (merged : List (String × Source)) (key : String) (s : Source)
    → apply_defaults file ≡ ok base
    → apply_overlay entries base.sources ≡ ok merged
    → validate parse_url (record base { sources = merged }) ≡ ok tt
    → find_source merged key ≡ some s
    → Loaded file key s
merged-Loaded parse_url file base entries merged key s defaulted applied valid found =
    let (d, at_base, kept) =
      apply_overlay-AllKept entries base.sources merged applied key s found in
    let (declared, i, eq) =
      default_sources-In file.sources base.sources key d (base-sources file base defaulted)
        at_base in
    record {
      declared = declared;
      in_file = i;
      kept = subst (λ b. KeepsLocal b s) eq kept;
      valid = validate-find parse_url (record base { sources = merged }) key s valid found;
    }

module _ (parse_url : String → Option (String × String)) {Raw : Type 0}
    (decode : Raw → Option FileConfig) (decode_overlay : Raw → Option Overlay)
    (overlay_at : String → FileRead Raw) where
  -- Every source of a configuration that loads is declared in the operator's file, has from that
  -- file, with its defaults, the safety policy, the mode, the kind, the certificate file and both
  -- secret references, whatever the overlay of the console says, and is valid.
  pub load-Loaded :
      (raw : FileRead Raw) (c : Config) (key : String) (s : Source)
      → load parse_url decode decode_overlay overlay_at raw ≡ ok c
      → find_source c.sources key ≡ some s
      → (file : FileConfig) × (decoded decode raw ≡ ok file) × Loaded file key s
  unfolding load
  load-Loaded raw c key s h found =
      let (file, reads, h1) = >>=-eq-ok (decoded decode raw) _ h in
      let (base, defaulted, h2) = >>=-eq-ok (apply_defaults file) _ h1 in
      let (entries, overlaid, h3) =
        >>=-eq-ok (load_overlay decode_overlay (overlay_at base.state_directory)) _ h2 in
      let (merged, applied, h4) = >>=-eq-ok (apply_overlay entries base.sources) _ h3 in
      let (_, valid, done) =
        >>=-eq-ok (validate parse_url (record base { sources = merged })) _ h4 in
      let same : record base { sources = merged } ≡ c = cc done in
      let at : find_source merged key ≡ some s =
        subst (λ c'. find_source c'.sources key ≡ some s) (sym same) found in
      (
        file,
        reads,
        merged-Loaded parse_url file base entries merged key s defaulted applied valid at,
      )
