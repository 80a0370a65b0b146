-- ===== src/Agent/Checkpoint.antt =====
-- internal/agent/agent.go: `emit` and `awaitControl`. The answers of the control plane are the list
-- `polls`, with `none` for a failed request. Where it ends, either the context is cancelled, which fails
-- the request and the sleep after it, or the context lives and the checkpoint still waits: then it has
-- no result, and is `none`.
pub mod Obeyed
use retentionops_connector.Prelude.{
  ℕ, zero, suc, ◌+◌, String, Bool, true, false, List, [], ◌∷◌, if◌then◌else◌, Option, none, some,
  length,
}
use retentionops_connector.Prelude.Int.{ℤ, pos, ltb_ℤ}
use retentionops_connector.Prelude.Text.{Time}
use retentionops_connector.Prelude.Result.{Result, Check, ok, err}
use retentionops_connector.Protocol.Job.{JobEnvelope, wire_version}
use retentionops_connector.Protocol.Result.{JobEvent, EventType}
use retentionops_connector.Protocol.Control.{ExecutionControl, ControlAction}
use retentionops_connector.Postgres.Errors.{RunError, context_done, control_cancelled}
use retentionops_connector.Postgres.Count.{quotient}
use retentionops_connector.Evidence.{Builder}

-- The variables that `delete` shares with its checkpoints, what is left of the answers, the events
-- sent so far, the newest first, and everything else outside.
pub record Gate (D : Type 0) : Type 0 where
  pub sequence : ℕ
  pub highest_version : ℤ
  pub polls : List (Option ExecutionControl)
  pub events : List JobEvent
  pub database : D

-- The time of the n-th event, and whether the context still lives when the answers are used up.
pub record Context : Type 0 where
  pub event_time : ℕ → Time
  pub lives : Bool

-- What comes of a checkpoint that has an end.
abbrev pub Wait : Type 0 → Type 0
Wait D = Option (Check RunError × Gate D)

-- `elapsed.Milliseconds()`
abbrev pub milliseconds : ℤ → ℤ
milliseconds elapsed = quotient elapsed 1_000_000

-- `agent` names the connector.
module _ {D : Type 0} (agent : Builder) (context : Context) (job : JobEnvelope) where
  -- An event that is not delivered is not sent again here.
  unfoldable pub emit : EventType → ℕ → ℤ → ℤ → ℤ → Gate D → Gate D
  emit kind sequence affected cumulative elapsed g = record g {
    events =
        record {
          version = wire_version;
          job_id = job.job_id;
          organization_id = agent.organization_id;
          connector_id = agent.connector_id;
          sequence = pos sequence;
          event_type = kind;
          occurred_at = context.event_time (length g.events);
          affected_rows = affected;
          cumulative_rows = cumulative;
          duration_ms = milliseconds elapsed;
        }
        ∷ g.events;
  }

  -- `*sequence++` and an event of that number
  abbrev pub emit_next : EventType → ℤ → Gate D → Gate D
  emit_next kind cumulative g =
      emit kind (suc g.sequence) (pos 0) cumulative (pos 0) (record g { sequence = suc g.sequence })

  -- A pause counts one event, which is sent at each poll.
  abbrev pub emit_paused : Bool → ℤ → Gate D → Gate D
  emit_paused true cumulative g = emit EventType.paused g.sequence (pos 0) cumulative (pos 0) g
  emit_paused false cumulative g = emit_next EventType.paused cumulative g

  abbrev pub emit_resumed : Bool → ℤ → Gate D → Gate D
  emit_resumed true cumulative g = emit_next EventType.resumed cumulative g
  emit_resumed false cumulative g = g

  -- The switch over the action; `next` is the next round, with `paused`.
  unfoldable pub act_on : (Bool → Gate D → Wait D) → ℤ → ControlAction → Bool → Gate D → Wait D
  act_on next cumulative ControlAction.run paused g = some (ok tt, emit_resumed paused cumulative g)
  act_on next cumulative ControlAction.cancel paused g = some (err control_cancelled, g)
  act_on next cumulative ControlAction.pause paused g = next true (emit_paused paused cumulative g)
  act_on next cumulative (ControlAction.unknown s) paused g = next paused g

  unfoldable pub consider :
      (Bool → Gate D → Wait D) → ℤ → Option ExecutionControl → Bool → Gate D → Wait D
  consider next cumulative none paused g = next paused g
  consider next cumulative (some control) paused g =
      if ltb_ℤ control.execution_version g.highest_version
      then next paused g
      else act_on next cumulative control.action paused
          (record g { highest_version = control.execution_version })

  unfoldable pub await_polls : List (Option ExecutionControl) → ℤ → Bool → Gate D → Wait D
  await_polls [] cumulative paused g =
      if context.lives then none else some (err context_done, record g { polls = [] })
  await_polls (answer ∷ later) cumulative paused g =
      consider (await_polls later cumulative) cumulative answer paused (record g { polls = later })

  unfoldable pub await_control : ℤ → Gate D → Wait D
  await_control cumulative g = await_polls g.polls cumulative false g
