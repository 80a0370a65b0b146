-- ===== src/Sealed/Narrow.antt =====
-- internal/sealedconfig/apply.go: what an envelope may change of a source.
use retentionops_connector.Prelude.{
  ◌≡◌, refl, sym, subst, String, Bool, true, false, List, [], ◌∷◌, all, Option, none, some, arith,
  Bool-cases, inl, inr,
}
use retentionops_connector.Prelude.Text.{◌==◌}
use retentionops_connector.Prelude.Result.{Check, ok, err}
use retentionops_connector.Config.{
  replace_source, Source, SourceError, find_source, validate_source,
}
use retentionops_connector.Config.Managed.{managed}
use retentionops_connector.Config.Local.{KeepsLocal, managed-KeepsLocal}
use retentionops_connector.Sealed.Apply.{managed_entry}
use retentionops_connector.Sealed.{
  SourceConfiguration, proposed, is_ok, entry_valid, configuration_valid, judged, prepare,
  prepare_found,
}

-- A source with another connection alone, which is valid.
pub record Narrow (before after : Source) : Type 0 where
  pub kept : KeepsLocal before after
  pub valid : validate_source after ≡ ok tt

is_ok-true : (c : Check SourceError) → is_ok c ≡ true → c ≡ ok tt
is_ok-true (ok u) h = refl
is_ok-true (err e) h = cc

replaced-valid :
    (sources : List (String × Source)) (id : String) (s old : Source)
    → find_source sources id ≡ some old
    → all entry_valid (replace_source sources id s) ≡ true
    → validate_source s ≡ ok tt
unfolding find_source replace_source
replaced-valid [] id s old f h = cc
replaced-valid ((name, x) ∷ rest) id s old f h = elim (Bool-cases (name == id)) [
  | inl same ↦ is_ok-true (validate_source s) (ground arith)
  | inr other ↦ replaced-valid rest id s old (ground arith) (ground arith)
]

-- What an envelope proposes is what its entry in the overlay makes of the source.
pub proposed-managed :
    (s : Source) (o : SourceConfiguration) → proposed s o ≡ managed (managed_entry o) s
unfolding proposed managed
proposed-managed s o = refl

pub proposed-KeepsLocal : (s : Source) (o : SourceConfiguration) → KeepsLocal s (proposed s o)
proposed-KeepsLocal s o =
    subst (KeepsLocal s) (sym (proposed-managed s o)) (managed-KeepsLocal (managed_entry o) s)

judged-ok : (b : Bool) (s t : Source) → judged b s ≡ ok t → (b ≡ true) × (s ≡ t)
judged-ok true s t h = (refl, cc)
judged-ok false s t h = cc

found-Narrow :
    (rest : Bool) (sources : List (String × Source)) (id : String) (o : SourceConfiguration)
    (after : Source) (found : Option Source)
    → find_source sources id ≡ found
    → prepare_found rest sources id o found ≡ ok after
    → (before : Source) × (find_source sources id ≡ some before) × Narrow before after
unfolding configuration_valid
found-Narrow rest sources id o after none f h = cc
found-Narrow rest sources id o after (some before) f h =
    let (valid, same) = judged-ok _ (proposed before o) after h in
    (
      before,
      f,
      subst (λ s. Narrow before s) same
          (record {
            kept = proposed-KeepsLocal before o;
            valid = replaced-valid sources id (proposed before o) before f (ground arith);
          }),
    )

-- What an envelope prepares is a source that the local configuration declares, with the safety
-- policy, the mode, the kind, the certificate file and both secret references as they were, and it
-- passes validation: an envelope says where to connect and as whom, and widens nothing.
pub prepare-Narrow :
    (rest : Bool) (sources : List (String × Source)) (id : String) (o : SourceConfiguration)
    (after : Source)
    → prepare rest sources id o ≡ ok after
    → (before : Source) × (find_source sources id ≡ some before) × Narrow before after
unfolding prepare
prepare-Narrow rest sources id o after h =
    found-Narrow rest sources id o after (find_source sources id) refl h
