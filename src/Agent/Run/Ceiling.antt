-- ===== src/Agent/Run/Ceiling.antt =====
-- internal/agent/agent.go: that `run` ends, and the rows that it reports.
use retentionops_connector.Prelude.{
  ◌≡◌, List, true, inl, inr, Bool, false, Option, none, some, Bool-cases,
}
use retentionops_connector.Prelude.Int.{ℤ, pos, ◌≤ℤ◌}
use retentionops_connector.Prelude.Result.{Result, ok, err}
use retentionops_connector.Protocol.Job.{Limits, JobEnvelope}
use retentionops_connector.Protocol.Result.{Statistics}
use retentionops_connector.Protocol.Control.{ExecutionControl}
use retentionops_connector.Evidence.{Builder, drift_exceeded}
use retentionops_connector.Postgres.Errors.{RunError}
use retentionops_connector.Postgres.Session.{Session}
use retentionops_connector.Postgres.Count
use retentionops_connector.Postgres.Delete.{Outcome}
use retentionops_connector.Postgres.Delete.Bounds.{
  HonoursLimit, Hangs, WithinCeiling, delete-WithinCeiling,
}
use retentionops_connector.Agent.Checkpoint.{Gate, Context, Wait}
use retentionops_connector.Agent.Checkpoint.Obeyed.{Obeys, await_control-Obeys}
use retentionops_connector.Agent.Run.Gated.{checkpoint-Obeys}
use retentionops_connector.Agent.Run.{
  RunResult, lifted, observe, around, conclude, merge, statistics_rows, delete, after_recount,
  after_control, first_checkpoint,
}

lifted-HonoursLimit :
    {D : Type 0} (session : Session D) → HonoursLimit session → HonoursLimit (lifted session)
lifted-HonoursLimit session law = record { limited = λ size n g h. law.limited size n g.database h }

-- The run ends, and reports no more rows than a ceiling, or the context lives.
abbrev pub EndsWithin : {D : Type 0} → Context → ℤ → Option (RunResult × Gate D) → Type 0
EndsWithin context ceiling none = context.lives ≡ true
EndsWithin context ceiling (some (r, g)) = statistics_rows r.statistics ≤ℤ ceiling

module _ {D : Type 0} (agent : Builder) (context : Context) (session : Session D)
    (pause : ℤ → D → Bool × D) (job : JobEnvelope) (limits : Limits)
    (sane : pos 0 ≤ℤ limits.max_rows) where
  concluded :
      (st : Option Statistics) (complete : Bool) (e : Option RunError) (g : Gate D)
      → statistics_rows st ≤ℤ limits.max_rows
      → statistics_rows (conclude agent context session pause job st complete e g).0.statistics
        ≤ℤ limits.max_rows
  concluded st complete none g h = h
  concluded st complete (some e) g h = h

  merged :
      (measured : Statistics) (r : Result RunError Outcome) (g : Gate D)
      → WithinCeiling limits r
      → EndsWithin context limits.max_rows
          (merge agent context session pause job measured (some (r, g)))
  unfolding merge
  merged measured (err e) g h = concluded none false (some e) g sane
  merged measured (ok o) g h = concluded _ _ o.error g h

  -- A checkpoint without an end has a context that lives.
  open_lives :
      (highest : ℤ) (polls : List (Option ExecutionControl)) (d : D) (w : Wait D)
      → Obeys agent context job highest polls d w
      → w ≡ none
      → context.lives ≡ true
  open_lives highest polls d none (lives, over) e = lives
  open_lives highest polls d (some r) obeyed e = absurd (cc e)

  observer_lives :
      Hangs (lifted session) (around agent context session pause job) limits → context.lives ≡ true
  unfolding observe
  observer_lives (k, rows, t, g, hangs) =
      open_lives _ _ _ _ (await_control-Obeys agent context job (pos rows) _) hangs

  controlled :
      HonoursLimit session
      → (measured : Statistics) (g : Gate D) (r : Wait D)
      → Obeys agent context job (pos 0) g.polls g.database r
      → EndsWithin context limits.max_rows
          (after_control agent context session pause job limits measured r)
  unfolding merge
  controlled law measured g0 none (lives, over) = lives
  controlled law measured g0 (some (err e, g)) obeys = sane
  controlled law measured g0 (some (ok u, g)) obeys =
      elim (delete-WithinCeiling (lifted session) (around agent context session pause job) limits
        (lifted-HonoursLimit session law) sane g) [
          | inl (r, g1, done, within) ↦ rw done (merged measured r g1 within)
          | inr (open_end, hangs) ↦ rw open_end (observer_lives hangs)
        ]

  recounted :
      HonoursLimit session
      → (r : Result RunError Statistics × Gate D)
      → EndsWithin context limits.max_rows (after_recount agent context session pause job limits r)
  unfolding after_recount
  recounted law (err e, g) = sane
  recounted law (ok measured, g) =
      elim (Bool-cases (drift_exceeded job.drift measured.candidate_rows)) [
        | inl stale ↦ rw stale sane
        | inr within ↦ rw within (
            controlled law measured g (first_checkpoint agent context session pause job g)
              (checkpoint-Obeys agent context session pause job g))
      ]

  -- The run of a deletion ends, unless a checkpoint of it waits in a context that lives, and the rows
  -- that it reports are no more than the ceiling of its limits, if a batch affects no more rows than
  -- its `LIMIT`.
  pub delete-EndsWithin :
      HonoursLimit session
      → (g : Gate D)
      → EndsWithin context limits.max_rows (delete agent context session pause job limits g)
  unfolding delete
  delete-EndsWithin law g = recounted law (Count.count (lifted session) limits g)
