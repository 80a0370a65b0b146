-- ===== src/Jobs/Verifier/Sound.antt =====
-- internal/jobs/verifier.go: what an accepted job has passed, and what a refusal leaves alone.
use retentionops_connector.Prelude.{
  ℕ, ◌≡◌, refl, subst, ◌∷◌, ◌⊎◌, true, false, List, Option, none, some, arith, inl, inr,
}
use retentionops_connector.Prelude.Int.{◌≤ℤ◌, ◌<ℤ◌, ◌+ℤ◌}
use retentionops_connector.Prelude.Text.{Time, eq_iff, codes}
use retentionops_connector.Prelude.Result.{ok, Check-cases}
use retentionops_connector.Protocol.Job.{JobEnvelope}
use retentionops_connector.Protocol.Envelope.{validate_job}
use retentionops_connector.Protocol.Signing.{signing_payload, job_domain}
use retentionops_connector.Jobs.Replay.{Ledger, OpenFaults, consume, has_entry}
use retentionops_connector.Jobs.Verifier.{
  Codec, Identity, accepted, clock_skew, checks, verify, verify_decoded, verify_signature,
  verify_canonical, after_consume,
}

module _ {Raw : Type 0} (codec : Codec Raw) (identity : Identity) where
  -- The document was signed by the control plane, as a job.
  pub record Signed (raw : Raw) (job : JobEnvelope) : Type 0 where
    pub canonical : List ℕ
    pub is_canonical : codec.canonicalize_without_signature raw ≡ some canonical
    pub verifies :
        identity.verify_control_plane (signing_payload (codes job_domain) canonical) job.signature
        ≡ true

  pub record Authentic (raw : Raw) (job : JobEnvelope) (now : Time) : Type 0 where
    pub valid : validate_job job ≡ ok tt
    pub organization : job.organization_id ≡ identity.organization_id
    pub connector : job.connector_id ≡ identity.connector_id
    pub not_expired : now <ℤ job.expires_at
    pub issued : job.issued_at ≤ℤ (now +ℤ clock_skew)
    pub signed : Signed raw job

  canonical-Signed :
      (c : Option (List ℕ)) (raw : Raw) (job : JobEnvelope)
      → codec.canonicalize_without_signature raw ≡ c
      → verify_canonical codec identity c job.signature ≡ ok tt
      → Signed raw job
  canonical-Signed none raw job e h = cc
  canonical-Signed (some c) raw job e h = record {
    canonical = c;
    is_canonical = e;
    verifies = ground arith;
  }

  checks-Authentic :
      (raw : Raw) (job : JobEnvelope) (now : Time)
      → checks codec identity raw job now ≡ ok tt
      → Authentic raw job now
  unfolding checks
  checks-Authentic raw job now h = record {
    valid = ground arith;
    organization = ground (arith, eq_iff job.organization_id identity.organization_id);
    connector = ground (arith, eq_iff job.connector_id identity.connector_id);
    not_expired = ground arith;
    issued = ground arith;
    signed =
        canonical-Signed (codec.canonicalize_without_signature raw) raw job refl
          (unfold verify_signature in ground arith);
  }

  -- The ledger with the nonce of a job recorded at an instant.
  abbrev pub recorded : JobEnvelope → Time → Ledger → Ledger
  recorded job now l = record l {
    entries = record { name = codec.nonce_digest job.nonce; modified = now } ∷ l.entries;
  }

  pub record Accepted (raw : Raw) (job : JobEnvelope) (now : Time) (l after : Ledger) : Type 0 where
    pub decoded : codec.decode_job raw ≡ some job
    pub authentic : Authentic raw job now
    pub fresh : has_entry (codec.nonce_digest job.nonce) l.entries ≡ false
    pub remembered : after ≡ recorded job now l

  consumed :
      (faults : OpenFaults) (now : Time) (job j : JobEnvelope) (l : Ledger)
      → after_consume codec identity job (consume codec.nonce_digest faults now job.nonce l).0
        ≡ accepted j
      → (job ≡ j)
        × (has_entry (codec.nonce_digest job.nonce) l.entries ≡ false)
        × ((consume codec.nonce_digest faults now job.nonce l).1 ≡ recorded job now l)
  unfolding consume
  consumed faults now job j l h = ground arith

  decoded_accepted :
      (faults : OpenFaults) (now : Time) (raw : Raw) (job : JobEnvelope) (l : Ledger)
      (d : Option JobEnvelope)
      → codec.decode_job raw ≡ d
      → (verify_decoded codec identity faults now raw d l).0 ≡ accepted job
      → Accepted raw job now l (verify_decoded codec identity faults now raw d l).1
  unfolding verify_decoded
  decoded_accepted faults now raw job l none e h = cc
  decoded_accepted faults now raw job l (some d) e h =
      elim (Check-cases (checks codec identity raw d now)) [
        | inl p ↦
            let (same, new, kept) = consumed faults now d job l (rw p at h) in
            rw p (
              subst (λ j. Accepted raw j now l (consume codec.nonce_digest faults now d.nonce l).1)
                same
                (record {
                  decoded = e;
                  authentic = checks-Authentic raw d now p;
                  fresh = new;
                  remembered = kept;
                }))
        | inr (code, p) ↦ absurd (ground arith)
      ]

  -- An accepted job was decoded from the document, is valid, addressed to this connector in its
  -- organization, not expired and not issued beyond the skew, is signed as a job by the pinned
  -- key, and its nonce was not in the ledger before and is recorded there, at this instant, after.
  pub verify-Accepted :
      (faults : OpenFaults) (now : Time) (raw : Raw) (job : JobEnvelope) (l : Ledger)
      → (verify codec identity faults now raw l).0 ≡ accepted job
      → Accepted raw job now l (verify codec identity faults now raw l).1
  unfolding verify
  verify-Accepted faults now raw job l h =
      decoded_accepted faults now raw job l (codec.decode_job raw) refl h

  consume-entries :
      (faults : OpenFaults) (now : Time) (job : JobEnvelope) (l : Ledger)
      → let after = (consume codec.nonce_digest faults now job.nonce l).1 in
        (after ≡ l) ⊎ (after ≡ recorded job now l)
  unfolding consume
  consume-entries faults now job l = ground arith

  decoded_ledger :
      (faults : OpenFaults) (now : Time) (raw : Raw) (l : Ledger) (d : Option JobEnvelope)
      → codec.decode_job raw ≡ d
      → let after = (verify_decoded codec identity faults now raw d l).1 in
        (after ≡ l)
        ⊎ ((job : JobEnvelope) × (codec.decode_job raw ≡ some job)
            × Authentic raw job now
            × (after ≡ recorded job now l))
  unfolding verify_decoded
  decoded_ledger faults now raw l none e = inl refl
  decoded_ledger faults now raw l (some d) e =
      elim (Check-cases (checks codec identity raw d now)) [
        | inl p ↦ rw p (elim (consume-entries faults now d l) [
          | inl q ↦ inl q
          | inr q ↦ inr (d, e, checks-Authentic raw d now p, q)
        ])
        | inr (code, p) ↦ rw p (inl refl)
      ]

  -- A document leaves the ledger as it was, or it was signed by the control plane, and passed every
  -- other check, and its nonce alone was added: an unsigned flood cannot fill the ledger.
  pub verify-ledger :
      (faults : OpenFaults) (now : Time) (raw : Raw) (l : Ledger)
      → let after = (verify codec identity faults now raw l).1 in
        (after ≡ l)
        ⊎ ((job : JobEnvelope) × (codec.decode_job raw ≡ some job)
            × Authentic raw job now
            × (after ≡ recorded job now l))
  unfolding verify
  verify-ledger faults now raw l = decoded_ledger faults now raw l (codec.decode_job raw) refl
