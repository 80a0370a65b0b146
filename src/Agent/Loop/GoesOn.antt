-- ===== src/Agent/Loop/GoesOn.antt =====
-- internal/agent/agent.go: how the loop goes on, what may hold it, and its waits.
use retentionops_connector.Prelude.{◌≡◌, ℕ, ◌+◌, ◌≤◌, ◌<◌, true, false, List, none, All}
use retentionops_connector.Protocol.Job.{Operation, JobEnvelope}
use retentionops_connector.Jobs.Verifier.{accepted, verify}
use retentionops_connector.Config.{Source}
use retentionops_connector.Postgres.Delete.Bounds.{HonoursLimit}
use retentionops_connector.Agent.Delivery.{second, minute}
use retentionops_connector.Agent.Handle.Answered.{Answered}
use retentionops_connector.Agent.Loop.Permitted.{GetsTo, ended}
use retentionops_connector.Agent.Loop.{
  Fixed, Turn, AgentState, Next, Poll, work, go_on, halted, held,
}

-- The context is not done, also while a job runs, the timers end the waits, the random numbers are below their bound, and a
-- batch affects no more rows than its `LIMIT`.
pub record Undisturbed {Raw D : Type 0} (t : Turn Raw D) : Type 0 where
  pub live : t.cancelled ≡ false
  pub live_within : t.outside.context.lives ≡ true
  pub live_after : t.cancelled_after ≡ false
  pub woken : t.wakes ≡ true
  pub below : (n : ℕ) → t.random (n + 1) < n + 1
  pub limited : (job : JobEnvelope) (source : Source) → HonoursLimit (t.outside.session job source)

-- From a second to a minute.
abbrev pub Bounded : ℕ → Type 0
Bounded wait = (second ≤ wait) × (wait ≤ minute)

-- The loop goes on, or it is held, and of this `H` says more.
abbrev pub GoesOn : {D : Type 0} → Type 0 → Next D → Type 0
GoesOn H (go_on s) = All Bounded s.waits
GoesOn H (halted s) = ⊥
GoesOn H held = H

module _ {Raw D : Type 0} (fixed : Fixed Raw) where
  -- The document is an accepted deletion one of whose checkpoints still waits.
  abbrev pub HeldBy : Turn Raw D → AgentState D → Raw → Type 0
  HeldBy t s raw =
      (job : JobEnvelope) × ((verify fixed.codec fixed.identity t.faults t.at.verified raw
          s.ledger).0
        ≡ accepted job)
      × (job.operation ≡ Operation.delete)
      × (ended fixed t s raw ≡ none)

  -- The loop gets to such a document.
  abbrev pub HeldIn : List (Turn Raw D) → AgentState D → Type 0
  HeldIn ts s =
      (raw : Raw) × (t : Turn Raw D) × (s' : AgentState D) × GetsTo fixed ts s raw t s'
      × HeldBy t s' raw

  abbrev HeldAt : Turn Raw D → Poll Raw → AgentState D → Type 0
  HeldAt t p s = (raw : Raw) × (p ≡ work raw) × HeldBy t s raw
