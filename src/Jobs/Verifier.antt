-- ===== src/Jobs/Verifier.antt =====
-- internal/jobs/verifier.go: `Verify`. Decoding with `encoding/json`, the canonical bytes of what
-- arrived, the digest of a nonce and the check against the pinned key are arguments; the clock is
-- read once, and no skew makes an instant overflow.
pub mod Sound
pub mod Once
use retentionops_connector.Prelude.{
  ℕ, String, Bool, true, false, not, List, if◌then◌else◌, Option, none, some,
}
use retentionops_connector.Prelude.Int.{ℤ, pos, ◌+ℤ◌}
use retentionops_connector.Prelude.Text.{Time, ◌==◌, before, after, codes}
use retentionops_connector.Prelude.Result.{Result, Check, ok, err, ◌>>=◌, ◌>>◌, refuse_if}
use retentionops_connector.Protocol.Error.{ProtocolError}
use retentionops_connector.Protocol.Job.{JobEnvelope}
use retentionops_connector.Protocol.Result.{DenialCode}
use retentionops_connector.Protocol.Envelope.{validate_job}
use retentionops_connector.Protocol.Signing.{signing_payload, job_domain}
use retentionops_connector.Jobs.Replay.{
  Ledger, LedgerError, OpenFaults, replayed, disk_error, consume,
}

-- Two minutes, in nanoseconds.
abbrev pub clock_skew : ℤ
clock_skew = pos 120_000_000_000

-- The enrolled identity, with the check of a signature against the pinned control-plane key.
pub record Identity : Type 0 where
  pub organization_id : String
  pub connector_id : String
  pub verify_control_plane : List ℕ → String → Bool

-- What the standard library makes of a document, and the digest that names a ledger entry.
pub record Codec (Raw : Type 0) : Type 0 where
  pub decode_job : Raw → Option JobEnvelope
  pub canonicalize_without_signature : Raw → Option (List ℕ)
  pub nonce_digest : String → String

-- `broken` is the ledger failing: an error that is no refusal.
pub data Verdict : Type 0 where
  accepted : JobEnvelope → Verdict
  refused : Option JobEnvelope → DenialCode → Verdict
  broken : JobEnvelope → Verdict

abbrev pub as_denial : DenialCode → Check ProtocolError → Check DenialCode
as_denial code (ok u) = ok u
as_denial code (err e) = err code

module _ {Raw : Type 0} (codec : Codec Raw) (identity : Identity) where
  abbrev pub verify_canonical : Option (List ℕ) → String → Check DenialCode
  verify_canonical none signature = err DenialCode.signature_invalid
  verify_canonical (some canonical) signature =
      refuse_if
        (not
          (identity.verify_control_plane (signing_payload (codes job_domain) canonical) signature))
        DenialCode.signature_invalid

  unfoldable pub verify_signature : Raw → String → Check DenialCode
  verify_signature raw signature =
      verify_canonical (codec.canonicalize_without_signature raw) signature

  -- Every check that comes before the ledger, in order.
  unfoldable pub checks : Raw → JobEnvelope → Time → Check DenialCode
  checks raw job now = do
    as_denial DenialCode.protocol_version (validate_job job)
    refuse_if (not (job.organization_id == identity.organization_id)) DenialCode.wrong_org
    refuse_if (not (job.connector_id == identity.connector_id)) DenialCode.wrong_connector
    refuse_if (not (before now job.expires_at)) DenialCode.job_expired
    refuse_if (after job.issued_at (now +ℤ clock_skew)) DenialCode.job_expired
    verify_signature raw job.signature

  abbrev pub after_consume : JobEnvelope → Check LedgerError → Verdict
  after_consume job (ok u) = accepted job
  after_consume job (err replayed) = refused (some job) DenialCode.nonce_replayed
  after_consume job (err disk_error) = broken job

  abbrev pub consume_if_ok :
      OpenFaults → Time → JobEnvelope → Check DenialCode → Ledger → Verdict × Ledger
  consume_if_ok faults now job (err code) l = (refused (some job) code, l)
  consume_if_ok faults now job (ok u) l =
      let (result, l') = consume codec.nonce_digest faults now job.nonce l in
      (after_consume job result, l')

  unfoldable pub verify_decoded :
      OpenFaults → Time → Raw → Option JobEnvelope → Ledger → Verdict × Ledger
  verify_decoded faults now raw none l = (refused none DenialCode.protocol_version, l)
  verify_decoded faults now raw (some job) l = consume_if_ok faults now job (checks raw job now) l

  unfoldable pub verify : OpenFaults → Time → Raw → Ledger → Verdict × Ledger
  unfolding verify_decoded
  verify faults now raw l = verify_decoded faults now raw (codec.decode_job raw) l
