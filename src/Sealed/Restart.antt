-- ===== src/Sealed/Restart.antt =====
-- internal/agent/configuration.go beside internal/config: whether the sources in force are those of
-- the next start.
use retentionops_connector.Prelude.{
  ◌≡◌, refl, sym, ap, subst, ◌∙◌, inl, inr, String, Bool, true, false, List, some,
}
use retentionops_connector.Prelude.Int.{ℤ}
use retentionops_connector.Prelude.Text.{Time}
use retentionops_connector.Prelude.Result.{ok}
use retentionops_connector.Jobs.Verifier.{Identity}
use retentionops_connector.Config.{Source, empty, find_source, replace_source}
use retentionops_connector.Config.Managed.{ManagedSource, managed}
use retentionops_connector.Config.Local.{find-replace_same}
use retentionops_connector.Sealed.{Envelope, SourceConfiguration, Opener, open_envelope, proposed}
use retentionops_connector.Sealed.Narrow.{proposed-managed}
use retentionops_connector.Sealed.Apply.{
  Configured, Failures, applied, managed_entry, open_and_apply,
}
use retentionops_connector.Sealed.Apply.Once.{Unchanged}
use retentionops_connector.Sealed.Effective.{
  find_entry, effective, KeepsRole, InForce, replaced-effective, find-set_entry_same,
}
use retentionops_connector.Sealed.Moves.{Changed, open_and_apply-Moves}

-- A change of an envelope keeps the sources in force those of the next start.
pub UnChanged-InForce :
    (base : List (String × Source)) (c d : Configured)
    → Unchanged c d
    → InForce base c
    → InForce base d
UnChanged-InForce base c d (same, disk) force key =
    subst (λ s. find_source s key ≡ effective base d.overlay key) (sym same)
      (subst (λ o. find_source c.sources key ≡ effective base o key) (sym disk) (force key))

silent_executor :
    (o : SourceConfiguration) (s : Source)
    → empty o.executor_role ≡ true
    → (managed (managed_entry o) s).executor.username ≡ s.executor.username
unfolding managed
silent_executor o s h = rw h refl

named_executor :
    (m : ManagedSource) (s : Source)
    → empty m.executor_role ≡ false
    → (managed m s).executor.username ≡ m.executor_role
unfolding managed
named_executor m s h = rw h refl

module _ (opener : Opener) (version_text : ℤ → String) (digest : String → String)
    (identity : Identity) (rest_valid : Bool) (failures : Failures) (now : Time)
    (base : List (String × Source)) (e : Envelope) (c : Configured) where
  Changed-InForce :
      (d : Configured)
      → InForce base c
      → ((o : SourceConfiguration)
          → open_envelope opener version_text e identity.connector_id identity.organization_id now
            ≡ ok o
          → KeepsRole o (find_entry c.overlay e.source_id))
      → Changed opener version_text digest identity rest_valid failures now e c d
      → InForce base d
  Changed-InForce d force keeps (o, before, opened, found, sources, overlay) key =
      subst (λ s. find_source s key ≡ effective base d.overlay key) (sym sources)
        (subst
          (λ ov.
            find_source (replace_source c.sources e.source_id (proposed before o)) key
            ≡ effective base ov key)
          (sym overlay)
          (replaced-effective base c e.source_id key o before force (keeps o opened) found))

  -- An envelope is applied to the running connector as the next start will read it: if the sources in
  -- force are those that the operator's file and the overlay give, they are so again after any
  -- envelope, applied or refused, that names an executor or replaces an entry that named none.
  pub open_and_apply-InForce :
      InForce base c
      → ((o : SourceConfiguration)
          → open_envelope opener version_text e identity.connector_id identity.organization_id now
            ≡ ok o
          → KeepsRole o (find_entry c.overlay e.source_id))
      → InForce base
          (open_and_apply opener version_text digest identity rest_valid failures now e c).1
  open_and_apply-InForce force keeps =
      let d = (open_and_apply opener version_text digest identity rest_valid failures now e c).1 in
      elim (open_and_apply-Moves opener version_text digest identity rest_valid failures now e c) [
        | inl refused ↦ UnChanged-InForce base c d refused.1 force
        | inr moved ↦ Changed-InForce d force keeps moved.1
      ]

  -- An envelope that names no executor, and replaces an entry that named another than the operator's
  -- file, leaves the executor of that entry in force, and the next start takes the operator's.
  pub executor_reverts :
      (m : ManagedSource) (s : Source) (o : SourceConfiguration)
      → InForce base c
      → find_entry c.overlay e.source_id ≡ some m
      → find_source base e.source_id ≡ some s
      → empty m.executor_role ≡ false
      → open_envelope opener version_text e identity.connector_id identity.organization_id now
        ≡ ok o
      → empty o.executor_role ≡ true
      → (open_and_apply opener version_text digest identity rest_valid failures now e c).0 ≡ applied
      → let d =
          (open_and_apply opener version_text digest identity rest_valid failures now e c).1 in
        (running : Source) × (restarted : Source) × (find_source d.sources e.source_id
          ≡ some running)
        × (effective base d.overlay e.source_id ≡ some restarted)
        × (running.executor.username ≡ m.executor_role)
        × (restarted.executor.username ≡ s.executor.username)
  executor_reverts m s o force entry declared named opens unnamed went =
      elim (open_and_apply-Moves opener version_text digest identity rest_valid failures now e c) [
        | inl refused ↦ absurd (refused.0 went)
        | inr moved ↦
            let (o', before, opens', found, sources, overlay) = moved.1 in
            let one : o' ≡ o = cc (opens, opens') in
            let silent : empty o'.executor_role ≡ true =
              subst (λ x. empty x.executor_role ≡ true) (sym one) unnamed in
            let as_entered : before ≡ managed m s =
              cc (rw (entry, declared) at (force e.source_id), found) in
            (
              proposed before o',
              managed (managed_entry o') s,
              ap (λ ss. find_source ss e.source_id) sources
                  ∙ find-replace_same c.sources e.source_id (proposed before o') before found,
              ap (λ ov. effective base ov e.source_id) overlay
                  ∙ (rw (find-set_entry_same c.overlay e.source_id (managed_entry o'), declared)
                      refl),
              ap (λ x. x.executor.username) (proposed-managed before o')
                  ∙ silent_executor o' before silent
                  ∙ ap (λ x. x.executor.username) as_entered
                  ∙ named_executor m s named,
              silent_executor o' s silent,
            )
      ]
