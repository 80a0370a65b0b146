-- ===== src/Sealed/Apply/Once.antt =====
-- internal/agent/configuration.go: an envelope is applied once, and a refusal changes nothing.
use retentionops_connector.Prelude.{
  List, ◌∷◌, sym, subst, if◌then◌else◌, ◌≡◌, ◌≢◌, refl, ◌⊎◌, inl, inr, String, Bool, false, Option,
  none, some, Bool-cases,
}
use retentionops_connector.Prelude.Int.{ℤ}
use retentionops_connector.Prelude.Text.{Time, ◌==◌, eq_refl}
use retentionops_connector.Prelude.Result.{Result, ok, err}
use retentionops_connector.Config.{Source}
use retentionops_connector.Jobs.Verifier.{Identity}
use retentionops_connector.Sealed.{
  Envelope, SourceConfiguration, OpenError, Opener, PrepareError, open_envelope, prepare, malformed,
  wrong_recipient, expired, not_yet_valid, too_large, unsupported_version,
}
use retentionops_connector.Sealed.Apply.{
  truncated, Outcome, applied, Configured, Failures, find_outcome, open_outcome, activate,
  apply_opened, open_and_apply, record_outcome, after_lookup, apply_one,
}

-- The configuration in force and the one on disk.
abbrev pub Unchanged : Configured → Configured → Type 0
Unchanged c d = (d.sources ≡ c.sources) × (d.overlay ≡ c.overlay)

module _ (opener : Opener) (version_text : ℤ → String) (digest : String → String)
    (identity : Identity) (rest_valid : Bool) (failures : Failures) (now : Time) where
  -- The envelope opened, what it says was prepared, and it is in force.
  abbrev pub Applies : Envelope → Configured → Outcome × Configured → Type 0
  Applies e c r =
      (r.0 ≡ applied)
      × (opened : SourceConfiguration) × (source : Source) × (open_envelope opener version_text e
            identity.connector_id identity.organization_id now
          ≡ ok opened)
      × (prepare rest_valid c.sources e.source_id opened ≡ ok source)

  abbrev pub Refuses : Configured → Outcome × Configured → Type 0
  Refuses c r = (r.0 ≢ applied) × (r.1 ≡ c)

  activated :
      (e : Envelope) (c : Configured) (opened : SourceConfiguration)
      (p : Result PrepareError Source)
      → open_envelope opener version_text e identity.connector_id identity.organization_id now
        ≡ ok opened
      → prepare rest_valid c.sources e.source_id opened ≡ p
      → Applies e c
          (activate opener version_text digest identity rest_valid failures now e opened p c)
        ⊎ Refuses c
            (activate opener version_text digest identity rest_valid failures now e opened p c)
  activated e c opened (err x) o p = inr (λ h. cc, refl)
  activated e c opened (ok source) o p = elim (Bool-cases failures.overlay_read) [
    | inl bad ↦ rw bad (inr (λ h. cc, refl))
    | inr fine ↦ elim (Bool-cases failures.overlay_write) [
      | inl bad ↦ rw (fine, bad) (inr (λ h. cc, refl))
      | inr done ↦ rw (fine, done) (inl (refl, opened, source, o, p))
    ]
  ]

  pub open_outcome-refuses : (x : OpenError) → open_outcome x ≢ applied
  unfolding open_outcome
  open_outcome-refuses wrong_recipient h = cc
  open_outcome-refuses expired h = cc
  open_outcome-refuses not_yet_valid h = cc
  open_outcome-refuses too_large h = cc
  open_outcome-refuses unsupported_version h = cc
  open_outcome-refuses malformed h = cc

  opened_outcome :
      (e : Envelope) (c : Configured) (r : Result OpenError SourceConfiguration)
      → open_envelope opener version_text e identity.connector_id identity.organization_id now ≡ r
      → Applies e c (apply_opened opener version_text digest identity rest_valid failures now e r c)
        ⊎ Refuses c (apply_opened opener version_text digest identity rest_valid failures now e r c)
  opened_outcome e c (err x) o = inr (open_outcome-refuses x, refl)
  opened_outcome e c (ok opened) o = activated e c opened _ o refl

  -- An envelope either opens, prepares a valid source and is reported as applied, or it is refused and
  -- nothing has changed: not the sources in force, nor the overlay, nor the ledger.
  pub open_and_apply-Applies :
      (e : Envelope) (c : Configured)
      → Applies e c (open_and_apply opener version_text digest identity rest_valid failures now e c)
        ⊎ Refuses c (open_and_apply opener version_text digest identity rest_valid failures now e c)
  unfolding open_and_apply
  open_and_apply-Applies e c = elim (Bool-cases failures.key) [
    | inl bad ↦ rw bad (inr (λ h. cc, refl))
    | inr fine ↦ rw fine (opened_outcome e c _ refl)
  ]

  -- After an envelope was handled, with a ledger that works, its outcome is in the ledger.
  recorded_after :
      (e : Envelope) (r : Outcome × Configured)
      → failures.entry_create ≡ false
      → (o : Outcome) × (find_outcome
            (record_outcome opener version_text digest identity rest_valid failures now
              e.envelope_id r).outcomes
            (digest e.envelope_id)
          ≡ some o)
  unfolding find_outcome
  recorded_after e (o, c) fine = elim (Bool-cases failures.entry_write) [
    | inl bad ↦ (truncated, rw (fine, bad, eq_refl (digest e.envelope_id)) refl)
    | inr done ↦ elim (Bool-cases failures.entry_close) [
      | inl bad ↦ (o, rw (fine, done, bad, eq_refl (digest e.envelope_id)) refl)
      | inr closed ↦ (o, rw (fine, done, closed, eq_refl (digest e.envelope_id)) refl)
    ]
  ]

  looked_up :
      (e : Envelope) (c : Configured) (found : Option Outcome)
      → find_outcome c.outcomes (digest e.envelope_id) ≡ found
      → failures.entry_create ≡ false
      → (o : Outcome) × (find_outcome
            (after_lookup opener version_text digest identity rest_valid failures now e found
              c).outcomes
            (digest e.envelope_id)
          ≡ some o)
  looked_up e c (some previous) f fine = (previous, f)
  looked_up e c none f fine =
      recorded_after e
        (open_and_apply opener version_text digest identity rest_valid failures now e c) fine

  handled_once :
      (e : Envelope) (c : Configured)
      → failures.ledger ≡ false
      → failures.entry_create ≡ false
      → (o : Outcome) × (find_outcome
            (apply_one opener version_text digest identity rest_valid failures now e c).outcomes
            (digest e.envelope_id)
          ≡ some o)
  unfolding apply_one open_and_apply
  handled_once e c fine recorded = rw fine (looked_up e c _ refl recorded)

  seen_before :
      (e : Envelope) (c : Configured) {o : Outcome}
      → find_outcome c.outcomes (digest e.envelope_id) ≡ some o
      → Unchanged c (apply_one opener version_text digest identity rest_valid failures now e c)
        × ((apply_one opener version_text digest identity rest_valid failures now e c).outcomes
            ≡ c.outcomes)
  unfolding apply_one
  seen_before e c h = elim (Bool-cases failures.ledger) [
    | inl bad ↦ rw bad ((refl, refl), refl)
    | inr fine ↦ rw (fine, h) ((refl, refl), refl)
  ]

  activated_outcomes :
      (e : Envelope) (opened : SourceConfiguration) (p : Result PrepareError Source)
      (c : Configured)
      → (activate opener version_text digest identity rest_valid failures now e opened p
          c).1.outcomes
        ≡ c.outcomes
  activated_outcomes e opened (err x) c = refl
  activated_outcomes e opened (ok source) c = elim (Bool-cases failures.overlay_read) [
    | inl bad ↦ simp bad refl
    | inr fine ↦ elim (Bool-cases failures.overlay_write) [
      | inl bad ↦ simp (fine, bad) refl
      | inr done ↦ simp (fine, done) refl
    ]
  ]

  opened_outcomes :
      (e : Envelope) (r : Result OpenError SourceConfiguration) (c : Configured)
      → (apply_opened opener version_text digest identity rest_valid failures now e r c).1.outcomes
        ≡ c.outcomes
  opened_outcomes e (err x) c = refl
  opened_outcomes e (ok opened) c = activated_outcomes e opened _ c

  applied_outcomes :
      (e : Envelope) (c : Configured)
      → (open_and_apply opener version_text digest identity rest_valid failures now e c).1.outcomes
        ≡ c.outcomes
  unfolding open_and_apply
  applied_outcomes e c = elim (Bool-cases failures.key) [
    | inl bad ↦ simp bad refl
    | inr fine ↦ simp fine (opened_outcomes e _ c)
  ]

  -- One entry more keeps an entry, of whichever name.
  entered :
      (name entry : String) (o : Outcome) (outcomes : List (String × Outcome)) {p : Outcome}
      → find_outcome outcomes name ≡ some p
      → (q : Outcome) × (find_outcome ((entry, o) ∷ outcomes) name ≡ some q)
  unfolding find_outcome
  entered name entry o outcomes {p} h = elim (Bool-cases (entry == name)) [
    | inl same ↦ (o, rw same refl)
    | inr other ↦ (p, rw other h)
  ]

  recorded_persists :
      (name id : String) (r : Outcome × Configured) {p : Outcome}
      → find_outcome r.1.outcomes name ≡ some p
      → (q : Outcome) × (find_outcome
            (record_outcome opener version_text digest identity rest_valid failures now id
              r).outcomes
            name
          ≡ some q)
  recorded_persists name id (o, c) {p} h = elim (Bool-cases failures.entry_create) [
    | inl bad ↦ simp bad (p, h)
    | inr made ↦ elim (Bool-cases failures.entry_write) [
      | inl bad ↦ simp (made, bad) (entered name (digest id) truncated c.outcomes h)
      | inr written ↦ elim (Bool-cases failures.entry_close) [
        | inl bad ↦ simp (made, written, bad) (entered name (digest id) o c.outcomes h)
        | inr closed ↦ simp (made, written, closed) (entered name (digest id) o c.outcomes h)
      ]
    ]
  ]

  lookup_persists :
      (name : String) (e : Envelope) (found : Option Outcome) (c : Configured) {p : Outcome}
      → find_outcome c.outcomes name ≡ some p
      → (q : Outcome) × (find_outcome
            (after_lookup opener version_text digest identity rest_valid failures now e found
              c).outcomes
            name
          ≡ some q)
  lookup_persists name e (some previous) c {p} h = (p, h)
  lookup_persists name e none c {p} h =
      recorded_persists name e.envelope_id
        (open_and_apply opener version_text digest identity rest_valid failures now e c)
        (subst (λ os. find_outcome os name ≡ some p) (sym (applied_outcomes e c)) h)

  -- No envelope makes the ledger forget another.
  outcome_persists :
      (name : String) (e : Envelope) (c : Configured) {p : Outcome}
      → find_outcome c.outcomes name ≡ some p
      → (q : Outcome) × (find_outcome
            (apply_one opener version_text digest identity rest_valid failures now e c).outcomes
            name
          ≡ some q)
  unfolding apply_one
  outcome_persists name e c {p} h = elim (Bool-cases failures.ledger) [
    | inl bad ↦ simp bad (p, h)
    | inr fine ↦
        subst
          (λ b.
            (q : Outcome) × (find_outcome
                (if b
                  then c
                  else after_lookup opener version_text digest identity rest_valid failures now e
                      (find_outcome c.outcomes (digest e.envelope_id)) c).outcomes
                name
              ≡ some q))
          (sym fine) (lookup_persists name e (find_outcome c.outcomes (digest e.envelope_id)) c h)
  ]

module _ (version_text : ℤ → String) (digest : String → String) (identity : Identity) where
  -- From one configuration to another by any envelopes, each with a clock, a key and a disk of its own.
  pub data Later : Configured → Configured → Type 0 where
    at_once : {c : Configured} → Later c c
    behind :
        {c d : Configured} (opener : Opener) (rest_valid : Bool) (failures : Failures) (now : Time)
        (e : Envelope)
        → Later c d
        → Later c (apply_one opener version_text digest identity rest_valid failures now e d)

  later_persists :
      (name : String) {c d : Configured} {p : Outcome}
      → Later c d
      → find_outcome c.outcomes name ≡ some p
      → (q : Outcome) × (find_outcome d.outcomes name ≡ some q)
  later_persists name {p = p} at_once h = (p, h)
  later_persists name (behind {d = d} opener rest_valid failures now e before) h =
      let (q, found) = later_persists name before h in
      outcome_persists opener version_text digest identity rest_valid failures now name e d found

-- An envelope that comes again is not applied again: once it was handled with a ledger that could be
-- read and an entry that could be made, and whatever envelopes were handled since, a later delivery,
-- whatever the key, the clock, the configuration's rest or the disk are then, changes neither the
-- sources in force, nor the overlay, nor the recorded outcomes.
pub apply_one-Unchanged :
    (opener later_opener : Opener) (version_text : ℤ → String) (digest : String → String)
    (identity : Identity) (rest_valid later_rest : Bool) (failures later : Failures)
    (now then_now : Time) (e : Envelope) (c d : Configured)
    → failures.ledger ≡ false
    → failures.entry_create ≡ false
    → Later version_text digest identity
        (apply_one opener version_text digest identity rest_valid failures now e c)
        d
    → let d' = apply_one later_opener version_text digest identity later_rest later then_now e d in
      Unchanged d d' × (d'.outcomes ≡ d.outcomes)
apply_one-Unchanged opener later_opener version_text digest identity rest_valid later_rest failures
      later now then_now e c d fine recorded since =
    let (o, found) =
      handled_once opener version_text digest identity rest_valid failures now e c fine recorded in
    let (q, still) =
      later_persists version_text digest identity (digest e.envelope_id) since found in
    seen_before later_opener version_text digest identity later_rest later then_now e d still
