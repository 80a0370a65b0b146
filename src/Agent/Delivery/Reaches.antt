-- ===== src/Agent/Delivery/Reaches.antt =====
-- internal/agent/agent.go: from a document to the delivery of its record.
use retentionops_connector.Prelude.{◌≡◌, refl, ◌⊎◌, inl, inr, ℕ, ◌≤◌, ◌<◌, true, Option, none, some}
use retentionops_connector.Prelude.Result.{Result, ok, err}
use retentionops_connector.Protocol.Job.{JobEnvelope}
use retentionops_connector.Protocol.Result.{JobResult, DenialCode}
use retentionops_connector.Protocol.Signing.{SealError}
use retentionops_connector.Config.{Source}
use retentionops_connector.Jobs.Replay.{Ledger, OpenFaults}
use retentionops_connector.Jobs.Verifier.{Verdict, accepted, refused, verify}
use retentionops_connector.Postgres.Delete.Bounds.{HonoursLimit}
use retentionops_connector.Agent.Checkpoint.{Gate, Context}
use retentionops_connector.Agent.Handle.{Connector, Outside, Readings, Handled, handle}
use retentionops_connector.Agent.Handle.Answered.{Answered, Reports, Waits, handle-Answered}
use retentionops_connector.Agent.Delivery.{Wire, delivered, report}
use retentionops_connector.Agent.Delivery.Persists.{Retried, report-Delivers}

-- The document is a job, accepted or refused.
pub data IsAbout (job : JobEnvelope) : Verdict → Type 0 where
  taken : IsAbout job (accepted job)
  turned_down : (code : DenialCode) → IsAbout job (refused (some job) code)

abbrev pub Undelivered : Option (Result SealError JobResult) → Type 0
Undelivered r = (e : SealError) × (r ≡ some (err e))

-- The n-th attempt delivers a record of the job.
abbrev pub DeliveredAt : Wire → ℕ → JobEnvelope → Option (Result SealError JobResult) → Type 0
DeliveredAt wire n job r =
    (s : JobResult) × (r ≡ some (ok s))
    × (report wire (ok s) ≡ delivered s n)
    × (s.job_id ≡ job.job_id)
    × (s.plan_digest ≡ job.plan_digest)

about-Reports :
    {D : Type 0} (job : JobEnvelope) (v : Verdict) (context : Context) (h : Option (Handled D))
    → IsAbout job v
    → Answered v context h
    → Reports job context h
about-Reports job v context none taken answered = answered
about-Reports job v context none (turned_down code) answered = absurd answered
about-Reports job v context (some h) taken answered = answered
about-Reports job v context (some h) (turned_down code) answered = answered

reported-DeliveredAt :
    {D : Type 0} (wire : Wire) (n : ℕ) (job : JobEnvelope) (context : Context)
    (h : Option (Handled D))
    → 1 ≤ n
    → n < 6
    → wire.accepts n ≡ true
    → ((m : ℕ) → 1 ≤ m → m < n → Retried wire m)
    → Reports job context h
    → ((h ≡ none) × Waits job context)
      ⊎ ((left : Handled D) × (h ≡ some left)
          × (Undelivered left.reported ⊎ DeliveredAt wire n job left.reported))
reported-DeliveredAt wire n job context none low high got before r = inl (refl, r)
reported-DeliveredAt wire n job context (some left) low high got before (err e, was, concerns) =
    inr (left, refl, inl (e, was))
reported-DeliveredAt wire n job context (some left) low high got before (ok s, was, concerns) =
    inr (
      left,
      refl,
      inr (
        s,
        was,
        (report-Delivers wire (ok s) s n).1 refl low high got before,
        concerns.0,
        concerns.1,
      ),
    )

-- Every document that is a job, accepted or refused, is handled to the end, unless it is a deletion
-- that has no result yet while the context lives; and a record of the job and its plan is delivered
-- by the n-th attempt, unless the record could not be sealed: if a batch affects no more rows than its
-- `LIMIT`, the n-th attempt is the first of the five that succeeds, and the context and the waits
-- before it were not cut short.
pub handle-DeliveredAt :
    {Raw D : Type 0} (c : Connector Raw) (outside : Outside D) (at : Readings)
    (law : (job : JobEnvelope) (source : Source) → HonoursLimit (outside.session job source))
    (faults : OpenFaults) (raw : Raw) (l : Ledger) (g : Gate D) (wire : Wire) (n : ℕ)
    (job : JobEnvelope)
    → IsAbout job (verify c.codec c.identity faults at.verified raw l).0
    → 1 ≤ n
    → n < 6
    → wire.accepts n ≡ true
    → ((m : ℕ) → 1 ≤ m → m < n → Retried wire m)
    → ((handle c outside at faults raw l g ≡ none) × Waits job outside.context)
      ⊎ ((left : Handled D) × (handle c outside at faults raw l g ≡ some left)
          × (Undelivered left.reported ⊎ DeliveredAt wire n job left.reported))
handle-DeliveredAt c outside at law faults raw l g wire n job about low high got before =
    reported-DeliveredAt wire n job outside.context (handle c outside at faults raw l g) low high
      got before
      (about-Reports job _ outside.context (handle c outside at faults raw l g) about
        (handle-Answered c outside at law faults raw l g))
