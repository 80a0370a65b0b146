-- ===== src/Agent/Handle.antt =====
-- internal/agent/agent.go: `handle` and `execute`, from a document to the record that is reported.
-- What a job sees of the outside is an argument: the clock at each reading, the session of the
-- source it names, and the disk under the ledger. It is `none` while a checkpoint of the job waits.
pub mod Guarded
pub mod Concerns
pub mod Answered
use retentionops_connector.Prelude.{
  ℕ, String, Bool, true, false, ◌&&◌, List, Option, none, some, if◌then◌else◌,
}
use retentionops_connector.Prelude.Int.{ℤ}
use retentionops_connector.Prelude.Text.{Time, ◌==◌}
use retentionops_connector.Prelude.Result.{Result, ok, err}
use retentionops_connector.Protocol.Job.{Operation, Limits, JobEnvelope, destructive}
use retentionops_connector.Protocol.Result.{JobResult, Statistics, DenialCode}
use retentionops_connector.Protocol.Signing.{Sealer, SealError}
use retentionops_connector.Evidence.{Builder, refusal, failure, stale, success, cancelled}
use retentionops_connector.Jobs.Replay.{Ledger, OpenFaults}
use retentionops_connector.Jobs.Verifier.{
  Codec, Identity, Verdict, accepted, refused, broken, verify,
}
use retentionops_connector.Policy.{Decision, authorize}
use retentionops_connector.Config.{Source, find_source, pending, discovery_only}
use retentionops_connector.Postgres.Errors.{RunError, control_cancelled, stale_plan, failure_class}
use retentionops_connector.Postgres.Session.{Session}
use retentionops_connector.Agent.Checkpoint.{Gate, Context}
use retentionops_connector.Agent.Run.{RunResult, run}

-- The readings of the clock: at the start, in `Verify`, in `Authorize`, and when the record is made.
pub record Readings : Type 0 where
  pub started : Time
  pub verified : Time
  pub authorized : Time
  pub completed : Time

-- The connector: its identity and configuration, and what the standard library gives it.
pub record Connector (Raw : Type 0) : Type 0 where
  pub codec : Codec Raw
  pub identity : Identity
  pub builder : Builder
  pub sealer : Sealer
  pub sources : List (String × Source)

-- The outside of the databases: a session for a job and its source, the wait between batches, and the
-- context of the job.
pub record Outside (D : Type 0) : Type 0 where
  pub session : JobEnvelope → Source → Session D
  pub pause : ℤ → D → Bool × D
  pub context : Context

-- What is left after a document: the record that `report` delivers, if there is a job to report on,
-- the ledger, and everything that the run has touched.
pub record Handled (D : Type 0) : Type 0 where
  pub reported : Option (Result SealError JobResult)
  pub ledger : Ledger
  pub gate : Gate D

module _ {Raw D : Type 0} (c : Connector Raw) (outside : Outside D) (at : Readings)
    (job : JobEnvelope) where
  abbrev pub report_refusal : DenialCode → Result SealError JobResult
  report_refusal code = refusal c.builder c.sealer job at.started at.completed code

  -- The record of an error, by its kind.
  unfoldable pub report_error : Option Statistics → RunError → Result SealError JobResult
  report_error st control_cancelled = cancelled c.builder c.sealer job at.started at.completed st
  report_error st (stale_plan observed) =
      stale c.builder c.sealer job at.started at.completed observed
  report_error st e = failure c.builder c.sealer job at.started at.completed (failure_class e)

  abbrev pub report_end : Option Statistics → Bool → Option RunError → Result SealError JobResult
  report_end st complete none = success c.builder c.sealer job at.started at.completed st complete
  report_end st complete (some e) = report_error st e

  abbrev pub report_run : Ledger → Option (RunResult × Gate D) → Option (Handled D)
  report_run l none = none
  report_run l (some (r, g)) = some (record {
    reported = some (report_end r.statistics r.complete r.error);
    ledger = l;
    gate = g;
  })

  abbrev pub refuse : DenialCode → Ledger → Gate D → Option (Handled D)
  refuse code l g = some (record { reported = some (report_refusal code); ledger = l; gate = g })

  unfoldable pub execute : Source → Limits → Ledger → Gate D → Option (Handled D)
  execute source limits l g =
      report_run l (
        run c.builder outside.context (outside.session job source) outside.pause source job limits
          g)

  -- Every denial of the policy carries a code.
  abbrev pub report_denied : Option DenialCode → Result SealError JobResult
  report_denied none = report_refusal DenialCode.by_local_policy
  report_denied (some code) = report_refusal code

  abbrev pub decided : Source → Decision → Ledger → Gate D → Option (Handled D)
  decided source decision l g =
      if decision.allowed
      then execute source decision.effective l g
      else some (record { reported = some (report_denied decision.code); ledger = l; gate = g })

  -- The source that the job names, and what refuses the job before the policy is asked.
  unfoldable pub dispatch : Option Source → Ledger → Gate D → Option (Handled D)
  dispatch none l g = refuse DenialCode.unknown_source l g
  dispatch (some source) l g =
      if pending source
      then refuse DenialCode.unknown_source l g
      else if destructive job.operation && source.mode == discovery_only
      then refuse DenialCode.by_local_policy l g
      else decided source (authorize source.safety job at.authorized) l g

module _ {Raw D : Type 0} (c : Connector Raw) (outside : Outside D) (at : Readings) where
  -- An acknowledgement that fails is logged, and the job goes on.
  unfoldable pub handle_verdict : Verdict × Ledger → Gate D → Option (Handled D)
  handle_verdict (accepted job, l) g =
      dispatch c outside at job (find_source c.sources job.data_source_id) l g
  handle_verdict (refused (some job) code, l) g = refuse c outside at job code l g
  handle_verdict (refused none code, l) g = some (record { reported = none; ledger = l; gate = g })
  handle_verdict (broken job, l) g = some (record { reported = none; ledger = l; gate = g })

  unfoldable pub handle : OpenFaults → Raw → Ledger → Gate D → Option (Handled D)
  unfolding handle_verdict
  handle faults raw l g = handle_verdict (verify c.codec c.identity faults at.verified raw l) g
