-- ===== src/Sealed/Moves.antt =====
-- internal/agent/configuration.go: what one envelope changes of the sources in force and of the
-- overlay on disk.
use retentionops_connector.Prelude.{
  ◌≡◌, ◌≢◌, refl, ◌⊎◌, inl, inr, String, Bool, true, false, List, Option, none, some, Bool-cases,
}
use retentionops_connector.Prelude.Int.{ℤ}
use retentionops_connector.Prelude.Text.{Time}
use retentionops_connector.Prelude.Result.{Result, ok, err}
use retentionops_connector.Jobs.Verifier.{Identity}
use retentionops_connector.Config.{Source, find_source, replace_source}
use retentionops_connector.Sealed.{
  Envelope, SourceConfiguration, Opener, open_envelope, prepare, prepare_found, proposed, judged,
  PrepareError, OpenError,
}
use retentionops_connector.Sealed.Apply.{
  Configured, Failures, Outcome, applied, managed_entry, set_entry, open_and_apply, apply_opened,
  activate,
}
use retentionops_connector.Sealed.Apply.Once.{Unchanged, open_outcome-refuses}

judged-ok : (b : Bool) (s t : Source) → judged b s ≡ ok t → s ≡ t
judged-ok true s t h = cc h
judged-ok false s t h = absurd (cc h)

prepared_found :
    (rest : Bool) (sources : List (String × Source)) (id : String) (o : SourceConfiguration)
    (after : Source) (found : Option Source)
    → find_source sources id ≡ found
    → prepare_found rest sources id o found ≡ ok after
    → (before : Source) × (find_source sources id ≡ some before) × (proposed before o ≡ after)
prepared_found rest sources id o after none f h = absurd (cc h)
prepared_found rest sources id o after (some before) f h =
    (before, f, judged-ok _ (proposed before o) after h)

module _ (opener : Opener) (version_text : ℤ → String) (digest : String → String)
    (identity : Identity) (rest_valid : Bool) (failures : Failures) (now : Time) (e : Envelope)
    (c : Configured) where
  -- What changed, if anything did: the source of the envelope and its entry.
  abbrev pub Changed : Configured → Type 0
  Changed d =
      (o : SourceConfiguration) × (before : Source) × (open_envelope opener version_text e
          identity.connector_id identity.organization_id now
        ≡ ok o)
      × (find_source c.sources e.source_id ≡ some before)
      × (d.sources ≡ replace_source c.sources e.source_id (proposed before o))
      × (d.overlay ≡ set_entry c.overlay e.source_id (managed_entry o))

  abbrev pub Moves : Outcome × Configured → Type 0
  Moves (outcome, d) = ((outcome ≢ applied) × Unchanged c d) ⊎ ((outcome ≡ applied) × Changed d)

  activate-Moves :
      (o : SourceConfiguration) (p : Result PrepareError Source)
      → open_envelope opener version_text e identity.connector_id identity.organization_id now
        ≡ ok o
      → prepare rest_valid c.sources e.source_id o ≡ p
      → Moves (activate opener version_text digest identity rest_valid failures now e o p c)
  unfolding prepare
  activate-Moves o (err x) opened prepared = inl (λ h. cc, (refl, refl))
  activate-Moves o (ok source) opened prepared =
      let (before, found, same) =
        prepared_found rest_valid c.sources e.source_id o source (find_source c.sources e.source_id)
          refl prepared in
      elim (Bool-cases failures.overlay_read) [
        | inl bad ↦ rw bad (inl (λ h. cc, (refl, refl)))
        | inr fine ↦ elim (Bool-cases failures.overlay_write) [
          | inl bad ↦ rw (fine, bad) (inl (λ h. cc, (refl, refl)))
          | inr done ↦ rw (fine, done, ← same) (inr (refl, (o, before, opened, found, refl, refl)))
        ]
      ]

  opened-Moves :
      (r : Result OpenError SourceConfiguration)
      → open_envelope opener version_text e identity.connector_id identity.organization_id now ≡ r
      → Moves (apply_opened opener version_text digest identity rest_valid failures now e r c)
  opened-Moves (err x) opened = inl (
    open_outcome-refuses opener version_text digest identity rest_valid failures now x,
    (refl, refl),
  )
  opened-Moves (ok o) opened = activate-Moves o _ opened refl

  pub open_and_apply-Moves :
      Moves (open_and_apply opener version_text digest identity rest_valid failures now e c)
  unfolding open_and_apply
  open_and_apply-Moves = elim (Bool-cases failures.key) [
    | inl bad ↦ rw bad (inl (λ h. cc, (refl, refl)))
    | inr fine ↦ rw fine (opened-Moves _ refl)
  ]
