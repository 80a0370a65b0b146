-- ===== src/Agent/Handle/Concerns.antt =====
-- internal/agent/agent.go: the records that `handle` reports are of the job at hand.
use retentionops_connector.Prelude.{◌≡◌, refl, String, Bool, Option, none, some}
use retentionops_connector.Prelude.Text.{codes}
use retentionops_connector.Prelude.Result.{Result, ok, err, ◌>>=◌}
use retentionops_connector.Protocol.Job.{JobEnvelope}
use retentionops_connector.Protocol.Result.{Statistics, JobResult, DenialCode}
use retentionops_connector.Protocol.Signing.{
  Sealer, SealError, seal, unsealed, signing_payload, evidence_domain,
}
use retentionops_connector.Postgres.Errors.{
  RunError, operational, unclassified, context_done, control_cancelled, stale_plan,
}
use retentionops_connector.Evidence.{base, refusal, failure, stale, success, cancelled}
use retentionops_connector.Agent.Handle.{
  Readings, Connector, Outside, report_refusal, report_error, report_end, report_denied,
}

-- A record of this job, or none where it could not be sealed.
abbrev pub Concerns : JobEnvelope → Result SealError JobResult → Type 0
Concerns job (err e) = Unit
Concerns job (ok r) = (r.job_id ≡ job.job_id) × (r.plan_digest ≡ job.plan_digest)

seal-Concerns :
    (sealer : Sealer) (job : JobEnvelope) (r : JobResult)
    → r.job_id ≡ job.job_id
    → r.plan_digest ≡ job.plan_digest
    → Concerns job (seal sealer r)
unfolding seal
seal-Concerns sealer job r id plan = digested (sealer.digest_of (unsealed r))
  where
    signed :
        (digest : String) (s : Result SealError String)
        → Concerns job
            (s >>= λ signature. ok (record r { result_digest = digest; signature = signature }))
    signed digest (ok s) = (id, plan)
    signed digest (err e) = tt

    digested :
        (d : Result SealError String)
        → Concerns job (
            d >>= λ digest.
            sealer.sign (signing_payload (codes evidence_domain) (codes digest)) >>= λ signature.
            ok (record r { result_digest = digest; signature = signature }))
    digested (ok d) = signed d (sealer.sign (signing_payload (codes evidence_domain) (codes d)))
    digested (err e) = tt

module _ {Raw D : Type 0} (c : Connector Raw) (outside : Outside D) (at : Readings)
    (job : JobEnvelope) where
  pub refusal-Concerns : (code : DenialCode) → Concerns job (report_refusal c outside at job code)
  unfolding refusal base
  refusal-Concerns code = seal-Concerns c.sealer job _ refl refl

  pub error-Concerns :
      (st : Option Statistics) (e : RunError) → Concerns job (report_error c outside at job st e)
  unfolding report_error failure stale cancelled base
  error-Concerns st (operational code) = seal-Concerns c.sealer job _ refl refl
  error-Concerns st unclassified = seal-Concerns c.sealer job _ refl refl
  error-Concerns st context_done = seal-Concerns c.sealer job _ refl refl
  error-Concerns st control_cancelled = seal-Concerns c.sealer job _ refl refl
  error-Concerns st (stale_plan n) = seal-Concerns c.sealer job _ refl refl

  pub end-Concerns :
      (st : Option Statistics) (complete : Bool) (e : Option RunError)
      → Concerns job (report_end c outside at job st complete e)
  unfolding success base
  end-Concerns st complete none = seal-Concerns c.sealer job _ refl refl
  end-Concerns st complete (some e) = error-Concerns st e

  pub denied-Concerns :
      (code : Option DenialCode) → Concerns job (report_denied c outside at job code)
  denied-Concerns none = refusal-Concerns DenialCode.by_local_policy
  denied-Concerns (some code) = refusal-Concerns code
