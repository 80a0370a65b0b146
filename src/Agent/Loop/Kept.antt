-- ===== src/Agent/Loop/Kept.antt =====
-- internal/agent/configuration.go: what the sealed configurations that arrive while the agent runs
-- leave of the sources that it started with.
use retentionops_connector.Prelude.{
  Bool, ◌≡◌, refl, sym, subst, inl, inr, String, List, [], ◌∷◌, Option, none, some, Bool-cases,
}
use retentionops_connector.Prelude.Int.{ℤ}
use retentionops_connector.Prelude.Text.{Time}
use retentionops_connector.Jobs.Verifier.{Identity}
use retentionops_connector.Config.{Source}
use retentionops_connector.Config.Local.{
  AllKept, KeepsLocal-refl, KeepsLocal-trans, replace-AllKept,
}
use retentionops_connector.Sealed.{Envelope, Opener}
use retentionops_connector.Sealed.Narrow.{proposed-KeepsLocal}
use retentionops_connector.Sealed.Apply.{
  Configured, Failures, Outcome, find_outcome, open_and_apply, record_outcome, after_lookup,
  apply_one,
}
use retentionops_connector.Sealed.Moves.{Moves, open_and_apply-Moves}
use retentionops_connector.Agent.Loop.{Fixed, Delivered, apply_all, apply_pending}

pub AllKept-refl : (a : List (String × Source)) → AllKept a a
AllKept-refl a key s found = (s, found, KeepsLocal-refl s)

pub AllKept-trans : (a b c : List (String × Source)) → AllKept a b → AllKept b c → AllKept a c
AllKept-trans a b c p q key s found =
    let (d, at_b, kept) = q key s found in
    let (e, at_a, kept0) = p key d at_b in (e, at_a, KeepsLocal-trans kept0 kept)

module _ (opener : Opener) (version_text : ℤ → String) (digest : String → String)
    (identity : Identity) (rest_valid : Bool) (failures : Failures) (now : Time) (e : Envelope)
    (c : Configured) where
  moved-AllKept :
      (r : Outcome × Configured)
      → Moves opener version_text digest identity rest_valid failures now e c r
      → AllKept c.sources r.1.sources
  moved-AllKept (outcome, d) (inl (other, (same, overlay))) =
      subst (AllKept c.sources) (sym same) (AllKept-refl c.sources)
  moved-AllKept (outcome, d) (inr (done, (o, before, opened, found, same, overlay))) =
      subst (AllKept c.sources) (sym same)
        (replace-AllKept c.sources e.source_id _ before found (proposed-KeepsLocal before o))

  recorded_sources :
      (id : String) (r : Outcome × Configured)
      → (record_outcome opener version_text digest identity rest_valid failures now id r).sources
        ≡ r.1.sources
  recorded_sources id (outcome, d) = elim (Bool-cases failures.entry_create) [
    | inl bad ↦ rw bad refl
    | inr made ↦ elim (Bool-cases failures.entry_write) [
      | inl bad ↦ rw (made, bad) refl
      | inr written ↦ elim (Bool-cases failures.entry_close) [
        | inl bad ↦ rw (made, written, bad) refl
        | inr closed ↦ rw (made, written, closed) refl
      ]
    ]
  ]

  looked_up-AllKept :
      (previous : Option Outcome)
      → AllKept c.sources
          (after_lookup opener version_text digest identity rest_valid failures now e previous
            c).sources
  looked_up-AllKept (some previous) = AllKept-refl c.sources
  looked_up-AllKept none =
      let r = open_and_apply opener version_text digest identity rest_valid failures now e c in
      subst (AllKept c.sources) (sym (recorded_sources e.envelope_id r)) (
        moved-AllKept r
          (open_and_apply-Moves opener version_text digest identity rest_valid failures now e c))

  apply_one-AllKept :
      AllKept c.sources
        (apply_one opener version_text digest identity rest_valid failures now e c).sources
  unfolding apply_one
  apply_one-AllKept = elim (Bool-cases failures.ledger) [
    | inl bad ↦ rw bad (AllKept-refl c.sources)
    | inr fine ↦ simp fine (looked_up-AllKept (find_outcome c.outcomes (digest e.envelope_id)))
  ]

module _ {Raw : Type 0} (fixed : Fixed Raw) where
  apply_all-AllKept :
      (documents : List (Option Delivered)) (c : Configured)
      → AllKept c.sources (apply_all fixed documents c).sources
  unfolding apply_all
  apply_all-AllKept [] c = AllKept-refl c.sources
  apply_all-AllKept (none ∷ rest) c = apply_all-AllKept rest c
  apply_all-AllKept (some d ∷ rest) c =
      AllKept-trans _ _ _
        (apply_one-AllKept fixed.opener fixed.version_text fixed.digest fixed.identity d.rest_valid
          d.failures d.now d.envelope c)
        (apply_all-AllKept rest _)

  pub apply_pending-AllKept :
      (pending : Option (List (Option Delivered))) (c : Configured)
      → AllKept c.sources (apply_pending fixed pending c).sources
  unfolding apply_pending
  apply_pending-AllKept none c = AllKept-refl c.sources
  apply_pending-AllKept (some documents) c = apply_all-AllKept documents c
