-- ===== src/Tests/Loop.antt =====
-- internal/agent: the theorems about the loop, at three turns of the toy deployment: a poll that
-- fails, an idle one that brings a sealed configuration, and a job.
use retentionops_connector.Prelude.{refl, ◌⊎◌, false, true, List, [], ◌∷◌, some}
use retentionops_connector.Protocol.Job.{JobEnvelope}
use retentionops_connector.Agent.Handle.Guarded.{Untouched}
use retentionops_connector.Agent.Loop.{
  Fixed, Turn, AgentState, Poll, idle, failed, work, gate_of, after_failure, polled, turn,
}
use retentionops_connector.Agent.Loop.Kept.{AllKept-refl}
use retentionops_connector.Agent.Loop.Permitted.{
  GetsTo, now, later, PermittedBy, ended, GetsTo-PermittedBy,
}
use retentionops_connector.Agent.Loop.GoesOn.{GoesOn}
use retentionops_connector.Tests.Data.{
  Rows, codec, identity, builder, sealer, ledger, sound_disk, outside, at, polls, full, job,
}
use retentionops_connector.Tests.Sealed.{opener, version_text, same, envelope, sound, configured}
use retentionops_connector.Prelude.Int.{pos}

abbrev fixed : Fixed JobEnvelope
fixed = record {
  codec = codec;
  identity = identity;
  builder = builder;
  sealer = sealer;
  opener = opener;
  version_text = version_text;
  digest = same;
}

abbrev turn_of : Poll JobEnvelope → Turn JobEnvelope Rows
turn_of poll = record {
  cancelled = false;
  prunes = [];
  poll = poll;
  cancelled_after = false;
  wakes = true;
  random = λ n. 0;
  pending = some (
      some (record { envelope = envelope; rest_valid = true; failures = sound; now = pos 2000 })
      ∷ []);
  faults = sound_disk;
  outside = outside;
  at = at;
  polls = polls;
}

abbrev started : AgentState Rows
started = record {
  configured = configured;
  ledger = ledger;
  failures = 0;
  reports = [];
  waits = [];
  events = [];
  database = full;
}

abbrev turns : List (Turn JobEnvelope Rows)
turns = turn_of failed ∷ turn_of idle ∷ turn_of (work job) ∷ []

reached : (s : AgentState Rows) × GetsTo fixed turns started job (turn_of (work job)) s
unfolding turn polled after_failure
reached = (
  _,
  later (turn_of failed) refl (later (turn_of idle) refl (now (turn_of (work job)) refl refl)),
)

GetsTo-PermittedBy_example :
    Untouched
      (gate_of (turn_of (work job)) reached.0)
      (ended fixed (turn_of (work job)) reached.0 job)
    ⊎ PermittedBy fixed configured.sources job (turn_of (work job)) reached.0
GetsTo-PermittedBy_example =
    GetsTo-PermittedBy fixed configured.sources (AllKept-refl configured.sources) reached.1
