-- ===== src/Agent/Run/Gated.antt =====
-- internal/agent/agent.go: what has to hold before `delete` uses the executor.
use retentionops_connector.Prelude.{
  ◌≡◌, refl, ◌⊎◌, inl, inr, Bool, false, Option, none, some, Bool-cases,
}
use retentionops_connector.Prelude.Int.{ℤ, pos}
use retentionops_connector.Prelude.Result.{Result, ok, err}
use retentionops_connector.Protocol.Job.{Limits, JobEnvelope}
use retentionops_connector.Protocol.Result.{Statistics, EventType}
use retentionops_connector.Protocol.Control.{ControlAction}
use retentionops_connector.Evidence.{Builder, drift_exceeded}
use retentionops_connector.Postgres.Errors.{RunError}
use retentionops_connector.Postgres.Session.{Session}
use retentionops_connector.Postgres.Count
use retentionops_connector.Agent.Checkpoint.{Gate, Context, Wait, emit}
use retentionops_connector.Agent.Checkpoint.Obeyed.{Decided, Obeys, await_control-Obeys}
use retentionops_connector.Agent.Run.{
  RunResult, lifted, delete, after_recount, after_control, first_checkpoint,
}

-- What a job has to pass: a recount that the plan still covers, and a RUN.
pub record Passed {D : Type 0} (job : JobEnvelope) (recount : Result RunError Statistics × Gate D)
    (checkpoint : Wait D) : Type 0 where
  pub measured : Statistics
  pub counted : recount.0 ≡ ok measured
  pub still_planned : drift_exceeded job.drift measured.candidate_rows ≡ false
  pub gate : Gate D
  pub obeyed : checkpoint ≡ some (ok tt, gate)
  pub released : Decided (pos 0) recount.1.polls ControlAction.run gate

abbrev pub LeavesDatabase : {D : Type 0} → D → Option (RunResult × Gate D) → Type 0
LeavesDatabase d none = ⊥
LeavesDatabase d (some (r, g)) = g.database ≡ d

module _ {D : Type 0} (agent : Builder) (context : Context) (session : Session D)
    (pause : ℤ → D → Bool × D) (job : JobEnvelope) where
  pub checkpoint-Obeys :
      (g : Gate D)
      → Obeys agent context job
          (pos 0)
          g.polls
          g.database
          (first_checkpoint agent context session pause job g)
  unfolding emit
  checkpoint-Obeys g = await_control-Obeys agent context job (pos 0) (
      emit agent context job EventType.accepted 0 (pos 0) (pos 0) (pos 0)
        (record g { sequence = 0; highest_version = pos 0 }))

  controlled :
      (limits : Limits) (measured : Statistics) (g : Gate D) (r : Wait D)
      → drift_exceeded job.drift measured.candidate_rows ≡ false
      → Obeys agent context job (pos 0) g.polls g.database r
      → LeavesDatabase g.database (after_control agent context session pause job limits measured r)
        ⊎ ((r ≡ none) × (after_control agent context session pause job limits measured r ≡ none))
        ⊎ Passed job (ok measured, g) r
  controlled limits measured g none within waits = inr (inl (refl, refl))
  controlled limits measured g (some (ok u, g1)) within (decided, kept) = inr (
      inr (record {
        measured = measured;
        counted = refl;
        still_planned = within;
        gate = g1;
        obeyed = refl;
        released = decided;
      }))
  controlled limits measured g (some (err e, g1)) within (decided, kept) = inl kept

  recounted :
      (limits : Limits) (r : Result RunError Statistics × Gate D)
      → LeavesDatabase r.1.database (after_recount agent context session pause job limits r)
        ⊎ ((first_checkpoint agent context session pause job r.1 ≡ none)
            × (after_recount agent context session pause job limits r ≡ none))
        ⊎ Passed job r (first_checkpoint agent context session pause job r.1)
  unfolding after_recount
  recounted limits (err e, g) = inl refl
  recounted limits (ok measured, g) =
      elim (Bool-cases (drift_exceeded job.drift measured.candidate_rows)) [
        | inl stale ↦ rw stale (inl refl)
        | inr within ↦ rw within (
            controlled limits measured g (first_checkpoint agent context session pause job g) within
              (checkpoint-Obeys g))
      ]

  -- After the recount, `delete` leaves the database alone, unless the recount succeeded, the drift
  -- test passed on its figure, and the first checkpoint obeyed a RUN; or it waits at that checkpoint
  -- and has no result yet. A stale plan, a failed recount, a cancel, or a control plane that
  -- never answers, deletes nothing.
  pub delete-Passed :
      (limits : Limits) (g : Gate D)
      → let recount = Count.count (lifted session) limits g in
        LeavesDatabase recount.1.database (delete agent context session pause job limits g)
        ⊎ ((first_checkpoint agent context session pause job recount.1 ≡ none)
            × (delete agent context session pause job limits g ≡ none))
        ⊎ Passed job recount (first_checkpoint agent context session pause job recount.1)
  unfolding delete
  delete-Passed limits g = recounted limits (Count.count (lifted session) limits g)
