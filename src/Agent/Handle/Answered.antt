-- ===== src/Agent/Handle/Answered.antt =====
-- internal/agent/agent.go: what comes of a document that is handled.
use retentionops_connector.Prelude.{
  ◌≡◌, refl, inl, inr, true, ◌&&◌, Option, none, some, arith, Bool-cases, subst,
}
use retentionops_connector.Prelude.Int.{ℤ, pos, ◌≤ℤ◌}
use retentionops_connector.Prelude.Text.{◌==◌}
use retentionops_connector.Prelude.Result.{Result, ok, err}
use retentionops_connector.Protocol.Job.{Operation, Limits, JobEnvelope, destructive}
use retentionops_connector.Protocol.Result.{Statistics, JobResult, DenialCode}
use retentionops_connector.Protocol.Signing.{SealError}
use retentionops_connector.Protocol.Envelope.{validate_job}
use retentionops_connector.Protocol.Envelope.Operands.{validate_job_deletion}
use retentionops_connector.Jobs.Replay.{Ledger, OpenFaults}
use retentionops_connector.Jobs.Verifier.{Verdict, accepted, refused, broken, verify}
use retentionops_connector.Jobs.Verifier.Sound.{verify-Accepted}
use retentionops_connector.Policy.{authorize}
use retentionops_connector.Policy.Permitted.{authorize_operation}
use retentionops_connector.Config.{Source, pending, discovery_only}
use retentionops_connector.Postgres.Errors.{RunError}
use retentionops_connector.Postgres.Delete.Bounds.{HonoursLimit}
use retentionops_connector.Agent.Checkpoint.{Gate, Context}
use retentionops_connector.Agent.Run.{RunResult, run, run_as, read_result}
use retentionops_connector.Agent.Run.Ceiling.{EndsWithin, delete-EndsWithin}
use retentionops_connector.Agent.Handle.{
  Readings, Connector, Outside, Handled, dispatch, decided, execute, handle, handle_verdict,
  report_run,
}
use retentionops_connector.Agent.Handle.Concerns.{
  Concerns, refusal-Concerns, end-Concerns, denied-Concerns,
}
use retentionops_connector.Policy.Effective.{some_eq, operands-effective}

-- A deletion whose checkpoint waits in a context that lives.
abbrev pub Waits : JobEnvelope → Context → Type 0
Waits job context = (job.operation ≡ Operation.delete) × (context.lives ≡ true)

-- A record of the job is reported, or it is a deletion that waits.
abbrev pub Reports : {D : Type 0} → JobEnvelope → Context → Option (Handled D) → Type 0
Reports job context none = Waits job context
Reports job context (some h) =
    (r : Result SealError JobResult) × (h.reported ≡ some r) × Concerns job r

-- What comes of a document, by what verification says of it.
abbrev pub Answered : {D : Type 0} → Verdict → Context → Option (Handled D) → Type 0
Answered (accepted job) context none = Waits job context
Answered (refused j code) context none = ⊥
Answered (broken job) context none = ⊥
Answered (accepted job) context (some h) = Reports job context (some h)
Answered (refused (some job) code) context (some h) = Reports job context (some h)
Answered (refused none code) context (some h) = h.reported ≡ none
Answered (broken job) context (some h) = h.reported ≡ none

-- A run that ends, whatever the result, or that waits.
abbrev Ends : {D : Type 0} → Operation → Context → Option (RunResult × Gate D) → Type 0
Ends o context none = (o ≡ Operation.delete) × (context.lives ≡ true)
Ends o context (some r) = Unit

read_result-Ends :
    {D : Type 0} (o : Operation) (context : Context) (r : Result RunError Statistics × Gate D)
    → Ends o context (read_result r)
read_result-Ends o context (ok st, g) = tt
read_result-Ends o context (err e, g) = tt

within-Ends :
    {D : Type 0} (context : Context) (ceiling : ℤ) (r : Option (RunResult × Gate D))
    → EndsWithin context ceiling r
    → Ends Operation.delete context r
within-Ends context ceiling none h = (refl, h)
within-Ends context ceiling (some r) h = tt

module _ {Raw D : Type 0} (c : Connector Raw) (outside : Outside D) (at : Readings)
    (law : (job : JobEnvelope) (source : Source) → HonoursLimit (outside.session job source)) where
  -- An accepted delete has a ceiling of at least 1, which the policy leaves.
  delete_sane :
      (job : JobEnvelope) (source : Source)
      → validate_job job ≡ ok tt
      → job.operation ≡ Operation.delete
      → (authorize source.safety job at.authorized).allowed ≡ true
      → pos 0 ≤ℤ (authorize source.safety job at.authorized).effective.max_rows
  unfolding authorize
  delete_sane job source valid o h =
      let d = validate_job_deletion job valid o in
      let same = authorize_operation job.operation source.safety job at.authorized (inr o) in
      let (limits, has, kept) =
        operands-effective source.safety job at.authorized job.target job.predicate job.limits
          (subst (λ x. x.allowed ≡ true) same h) in
      let its_own : d.limits ≡ limits = some_eq d.limits limits d.has_limits has in
      let at_least : pos 1 ≤ℤ limits.max_rows =
        subst (λ (l : Limits). pos 1 ≤ℤ l.max_rows) its_own d.operands.ceilings.max_rows.0 in
      rw (same, kept) (omega (arith, at_least))

  run-Ends :
      (job : JobEnvelope) (source : Source) (o : Operation) (limits : Limits) (g : Gate D)
      → (o ≡ Operation.delete → pos 0 ≤ℤ limits.max_rows)
      → Ends o outside.context (
          run_as c.builder outside.context
            (outside.session job source)
            outside.pause
            source
            job
            o
            limits
            g)
  unfolding run_as
  run-Ends job source Operation.test_connection limits g sane = read_result-Ends _ outside.context _
  run-Ends job source Operation.discover limits g sane = read_result-Ends _ outside.context _
  run-Ends job source Operation.count limits g sane = read_result-Ends _ outside.context _
  run-Ends job source Operation.delete limits g sane =
      within-Ends outside.context limits.max_rows _ (
        delete-EndsWithin c.builder outside.context (outside.session job source) outside.pause job
          limits (sane refl) (law job source) g)
  run-Ends job source (Operation.unknown name) limits g sane = tt

  report_run-Reports :
      (job : JobEnvelope) (l : Ledger) (r : Option (RunResult × Gate D))
      → Ends job.operation outside.context r
      → Reports job outside.context (report_run c outside at job l r)
  report_run-Reports job l none h = h
  report_run-Reports job l (some (r, g)) h =
      (_, refl, end-Concerns c outside at job r.statistics r.complete r.error)

  execute-Reports :
      (job : JobEnvelope) (source : Source) (l : Ledger) (g : Gate D)
      → validate_job job ≡ ok tt
      → (authorize source.safety job at.authorized).allowed ≡ true
      → Reports job outside.context (
          execute c outside at job source (authorize source.safety job at.authorized).effective l g)
  unfolding execute run
  execute-Reports job source l g valid h =
      report_run-Reports job l _
        (run-Ends job source job.operation _ g (λ o. delete_sane job source valid o h))

  decided-Reports :
      (job : JobEnvelope) (source : Source) (l : Ledger) (g : Gate D)
      → validate_job job ≡ ok tt
      → Reports job outside.context
          (decided c outside at job source (authorize source.safety job at.authorized) l g)
  decided-Reports job source l g valid =
      elim (Bool-cases (authorize source.safety job at.authorized).allowed) [
        | inl granted ↦ rw granted (execute-Reports job source l g valid granted)
        | inr denied ↦ rw denied (_, refl, denied-Concerns c outside at job _)
      ]

  dispatch-Reports :
      (job : JobEnvelope) (found : Option Source) (l : Ledger) (g : Gate D)
      → validate_job job ≡ ok tt
      → Reports job outside.context (dispatch c outside at job found l g)
  unfolding dispatch
  dispatch-Reports job none l g valid =
      (_, refl, refusal-Concerns c outside at job DenialCode.unknown_source)
  dispatch-Reports job (some source) l g valid = elim (Bool-cases (pending source)) [
    | inl p ↦ rw p (_, refl, refusal-Concerns c outside at job DenialCode.unknown_source)
    | inr p ↦ elim (Bool-cases (destructive job.operation && source.mode == discovery_only)) [
      | inl off ↦
          rw (p, off) (_, refl, refusal-Concerns c outside at job DenialCode.by_local_policy)
      | inr on ↦ rw (p, on) (decided-Reports job source l g valid)
    ]
  ]

  verdict-Answered :
      (v : Verdict) (l : Ledger) (g : Gate D)
      → ((job : JobEnvelope) → v ≡ accepted job → validate_job job ≡ ok tt)
      → Answered v outside.context (handle_verdict c outside at (v, l) g)
  unfolding handle_verdict
  verdict-Answered (accepted job) l g valid =
      reported job _ (dispatch-Reports job _ l g (valid job refl))
    where
      reported :
          (job : JobEnvelope) (h : Option (Handled D))
          → Reports job outside.context h
          → Answered (accepted job) outside.context h
      reported job none r = r
      reported job (some h) r = r
  verdict-Answered (refused (some job) code) l g valid =
      (_, refl, refusal-Concerns c outside at job code)
  verdict-Answered (refused none code) l g valid = refl
  verdict-Answered (broken job) l g valid = refl

  -- If a batch affects no more rows than its `LIMIT`, `handle` returns, whatever the databases and the
  -- control plane do, unless the document is an accepted deletion and the context lives: then one of
  -- its checkpoints may wait. Where it returns, every document that is a job, accepted or refused,
  -- leaves one record to be reported, which names the job and its plan, unless it cannot be sealed.
  -- Nothing is reported only where the document is no job, or where the ledger's disk fails.
  pub handle-Answered :
      (faults : OpenFaults) (raw : Raw) (l : Ledger) (g : Gate D)
      → Answered
          (verify c.codec c.identity faults at.verified raw l).0
          outside.context
          (handle c outside at faults raw l g)
  unfolding handle
  handle-Answered faults raw l g =
      let r = verify c.codec c.identity faults at.verified raw l in
      verdict-Answered r.0 r.1 g (λ job e.
        (verify-Accepted c.codec c.identity faults at.verified raw job l e).authentic.valid)
