-- ===== src/Agent/Loop.antt =====
-- internal/agent/agent.go: `Run`, the loop that polls for documents, and what it does between them;
-- internal/agent/configuration.go: `applyPendingConfigurations`. What a turn of the loop meets is an
-- argument. `pruneLoop` runs beside it: its prunes come before the poll of a turn.
pub mod Kept
pub mod Permitted
pub mod GoesOn
use retentionops_connector.Prelude.{
  ℕ, zero, suc, String, Bool, true, false, List, [], ◌∷◌, Option, none, some, if◌then◌else◌,
}
use retentionops_connector.Prelude.Int.{ℤ, pos}
use retentionops_connector.Prelude.Text.{Time}
use retentionops_connector.Prelude.Result.{Result, ok, err}
use retentionops_connector.Protocol.Control.{ExecutionControl}
use retentionops_connector.Protocol.Result.{JobEvent, JobResult}
use retentionops_connector.Protocol.Signing.{Sealer, SealError}
use retentionops_connector.Evidence.{Builder}
use retentionops_connector.Jobs.Replay.{Ledger, OpenFaults, PruneFaults, prune}
use retentionops_connector.Jobs.Verifier.{Codec, Identity}
use retentionops_connector.Sealed.{Envelope, Opener}
use retentionops_connector.Sealed.Apply.{Configured, Failures, apply_one}
use retentionops_connector.Agent.Checkpoint.{Gate}
use retentionops_connector.Agent.Delivery.{backoff}
use retentionops_connector.Agent.Handle.{Readings, Connector, Outside, Handled, handle}

-- What `NextJob` brings: no work, an error, or a document.
pub data Poll (Raw : Type 0) : Type 0 where
  idle failed : Poll Raw
  work : Raw → Poll Raw

-- A sealed configuration that is waiting, and what the applying of it meets.
pub record Delivered : Type 0 where
  pub envelope : Envelope
  pub rest_valid : Bool
  pub failures : Failures
  pub now : Time

-- `cancelled` is the context at the head of a turn, `cancelled_after` behind a failed poll; `wakes`
-- says that the timer ends a wait; `pending` is `none` where the collecting fails, and holds a `none`
-- for a document that does not decode.
pub record Turn (Raw D : Type 0) : Type 0 where
  pub cancelled : Bool
  pub prunes : List (PruneFaults × Time)
  pub poll : Poll Raw
  pub cancelled_after : Bool
  pub wakes : Bool
  pub random : ℕ → ℕ
  pub pending : Option (List (Option Delivered))
  pub faults : OpenFaults
  pub outside : Outside D
  pub at : Readings
  pub polls : List (Option ExecutionControl)

-- What does not change while the agent runs.
pub record Fixed (Raw : Type 0) : Type 0 where
  pub codec : Codec Raw
  pub identity : Identity
  pub builder : Builder
  pub sealer : Sealer
  pub opener : Opener
  pub version_text : ℤ → String
  pub digest : String → String

-- The configuration, the ledger, the polls that failed in a row, the records handed to `report`, the
-- waits and the events, each the newest first, and the databases.
pub record AgentState (D : Type 0) : Type 0 where
  pub configured : Configured
  pub ledger : Ledger
  pub failures : ℕ
  pub reports : List (Result SealError JobResult)
  pub waits : List ℕ
  pub events : List JobEvent
  pub database : D

-- The loop goes on, or the context is done, or it is held by a job one of whose checkpoints waits.
pub data Next (D : Type 0) : Type 0 where
  go_on halted : AgentState D → Next D
  held : Next D

abbrev pub pruned : List (PruneFaults × Time) → Ledger → Ledger
pruned [] l = l
pruned ((faults, now) ∷ rest) l = pruned rest (prune faults now l).1

abbrev pub reported : {A : Type 0} → Option A → List A → List A
reported none rs = rs
reported (some r) rs = r ∷ rs

module _ {Raw : Type 0} (fixed : Fixed Raw) where
  abbrev pub connector_of : Configured → Connector Raw
  connector_of configured = record {
    codec = fixed.codec;
    identity = fixed.identity;
    builder = fixed.builder;
    sealer = fixed.sealer;
    sources = configured.sources;
  }

  unfoldable pub apply_all : List (Option Delivered) → Configured → Configured
  apply_all [] c = c
  apply_all (none ∷ rest) c = apply_all rest c
  apply_all (some d ∷ rest) c = apply_all rest (
      apply_one fixed.opener fixed.version_text fixed.digest fixed.identity d.rest_valid d.failures
        d.now d.envelope c)

  unfoldable pub apply_pending : Option (List (Option Delivered)) → Configured → Configured
  apply_pending none c = c
  apply_pending (some documents) c = apply_all documents c

unfoldable pub handled : {D : Type 0} → AgentState D → Option (Handled D) → Next D
handled s none = held
handled s (some h) = go_on (record s {
  failures = zero;
  ledger = h.ledger;
  reports = reported h.reported s.reports;
  events = h.gate.events;
  database = h.gate.database;
})

module _ {Raw D : Type 0} where
  -- A job counts its events and its answers from the start.
  abbrev pub gate_of : Turn Raw D → AgentState D → Gate D
  gate_of t s = record {
    sequence = zero;
    highest_version = pos zero;
    polls = t.polls;
    events = s.events;
    database = s.database;
  }

  unfoldable pub after_failure : Turn Raw D → AgentState D → Next D
  after_failure t s =
      if t.cancelled_after
      then halted s
      else let waiting = record s {
        failures = suc s.failures;
        waits = backoff t.random (suc s.failures) ∷ s.waits;
      } in
        if t.wakes then go_on waiting else halted waiting

abbrev pub and_then : {D : Type 0} → Next D → (AgentState D → Next D) → Next D
and_then (go_on s) rest = rest s
and_then (halted s) rest = halted s
and_then held rest = held

module _ {Raw D : Type 0} (fixed : Fixed Raw) where
  unfoldable pub polled : Turn Raw D → Poll Raw → AgentState D → Next D
  polled t idle s =
      go_on (record s { failures = zero; configured = apply_pending fixed t.pending s.configured })
  polled t failed s = after_failure t s
  polled t (work raw) s =
      handled s (
        handle (connector_of fixed s.configured) t.outside t.at t.faults raw s.ledger (gate_of t s))

  unfoldable pub turn : Turn Raw D → AgentState D → Next D
  turn t s =
      if t.cancelled
      then halted s
      else polled t t.poll (record s { ledger = pruned t.prunes s.ledger })

  -- The turns that are given; the loop itself has no end but the context.
  unfoldable pub run_loop : List (Turn Raw D) → AgentState D → Next D
  run_loop [] s = go_on s
  run_loop (t ∷ ts) s = and_then (turn t s) (run_loop ts)
