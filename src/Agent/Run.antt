-- ===== src/Agent/Run.antt =====
-- internal/agent/agent.go: `delete` and `run`. The database is reached through the adapter's
-- session. A run is `none` while a checkpoint of it waits.
pub mod Gated
pub mod Ceiling
use retentionops_connector.Prelude.{
  ℕ, zero, suc, ◌+◌, String, Bool, true, false, ◌||◌, if◌then◌else◌, Option, none, some,
}
use retentionops_connector.Prelude.Int.{ℤ, pos, leb_ℤ}
use retentionops_connector.Prelude.Text.{Time}
use retentionops_connector.Prelude.Result.{Result, Check, ok, err}
use retentionops_connector.Protocol.Job.{Operation, Limits, JobEnvelope}
use retentionops_connector.Protocol.Result.{Statistics, EventType}
use retentionops_connector.Evidence.{Builder, drift_exceeded, no_statistics}
use retentionops_connector.Postgres.Errors.{RunError, unclassified, stale_plan}
use retentionops_connector.Postgres.Session.{Session, Action, Setting}
use retentionops_connector.Config.{Source}
use retentionops_connector.Postgres.Reads.{test_connection, discover}
use retentionops_connector.Postgres.Count
use retentionops_connector.Postgres.Delete
use retentionops_connector.Postgres.Delete.{Outcome, Surroundings}
use retentionops_connector.Agent.Checkpoint.{Gate, Context, Wait, emit, await_control}

-- What `run` returns: statistics, whether they are complete, and an error.
pub record RunResult : Type 0 where
  pub statistics : Option Statistics
  pub complete : Bool
  pub error : Option RunError

abbrev pub failed : RunError → RunResult
failed e = record { statistics = none; complete = false; error = some e }

abbrev pub statistics_rows : Option Statistics → ℤ
statistics_rows none = pos 0
statistics_rows (some st) = st.rows_deleted

-- The figures of the recount, which stand in for those that the deletion left out.
abbrev pub with_recount : Statistics → Statistics → Statistics
with_recount measured st = record st {
  observed_rows = measured.candidate_rows;
  candidate_rows = measured.candidate_rows;
  resource_rows = measured.resource_rows;
  blocked_hold_rows = measured.blocked_hold_rows;
  estimated_bytes = measured.estimated_bytes;
  oldest = measured.oldest;
  newest = measured.newest;
}

-- The statistics of the adapter's `Delete`.
abbrev pub deletion : Outcome → Statistics
deletion o = record no_statistics { rows_deleted = pos o.rows_deleted; batches = pos o.batches }

module _ {D : Type 0} where
  abbrev pub on_database : {A : Type 0} → (D → A × D) → Gate D → A × Gate D
  on_database call g = let (a, d) = call g.database in (a, record g { database = d })

  abbrev pub within_database : (D → D) → Gate D → Gate D
  within_database call g = record g { database = call g.database }

  -- A session of the database, as one of everything that a run has.
  abbrev pub lifted : Session D → Session (Gate D)
  lifted s = record {
    resolve_secret = λ role. on_database (s.resolve_secret role);
    parse_settings = s.parse_settings;
    dial = λ role. on_database (s.dial role);
    begin = on_database s.begin;
    begin_read_only = on_database s.begin_read_only;
    set_local = λ setting. on_database (s.set_local setting);
    count_candidates = on_database s.count_candidates;
    count_resource = on_database s.count_resource;
    count_held = on_database s.count_held;
    relation_size = on_database s.relation_size;
    read_version = on_database s.read_version;
    read_catalog = on_database s.read_catalog;
    read_references = on_database s.read_references;
    delete_rows = λ size. on_database (s.delete_rows size);
    commit = on_database s.commit;
    rollback = within_database s.rollback;
    close = within_database s.close;
    now = λ g. s.now g.database;
    compiles = s.compiles;
  }

module _ {D : Type 0} (agent : Builder) (context : Context) (session : Session D)
    (pause : ℤ → D → Bool × D) (job : JobEnvelope) where
  -- `observer`: the event of the batch, and then a checkpoint.
  unfoldable pub observe : ℕ → ℕ → ℤ → Gate D → Wait D
  observe affected cumulative elapsed g = await_control agent context job (pos cumulative) (
      emit agent context job EventType.batch_committed (suc g.sequence) (pos affected)
        (pos cumulative) elapsed (record g { sequence = suc g.sequence }))

  abbrev pub around : Surroundings (Gate D)
  around = record { observe = observe; pause = λ ms. on_database (pause ms) }

  -- The last part: `complete` where every candidate is gone, and an event where it failed.
  abbrev pub conclude : Option Statistics → Bool → Option RunError → Gate D → RunResult × Gate D
  conclude st complete none g = (record { statistics = st; complete = complete; error = none }, g)
  conclude st complete (some e) g = (
    record { statistics = st; complete = false; error = some e },
    emit agent context job EventType.aborted (suc g.sequence) (pos 0) (statistics_rows st) (pos 0)
        g,
  )

  unfoldable pub merge :
      Statistics → Option (Result RunError Outcome × Gate D) → Option (RunResult × Gate D)
  merge measured none = none
  merge measured (some (err e, g)) = some (conclude none false (some e) g)
  merge measured (some (ok o, g)) = some (
      conclude (some (with_recount measured (deletion o)))
        (leb_ℤ measured.candidate_rows (pos o.rows_deleted) || o.complete) o.error g)

  abbrev pub after_control : Limits → Statistics → Wait D → Option (RunResult × Gate D)
  after_control limits measured none = none
  after_control limits measured (some (err e, g)) = some (
    record {
      statistics = some (with_recount measured no_statistics);
      complete = false;
      error = some e;
    },
    g,
  )
  after_control limits measured (some (ok u, g)) =
      merge measured (Delete.delete (lifted session) around limits g)

  -- The first event and the first checkpoint, with the counters at their start.
  abbrev pub first_checkpoint : Gate D → Wait D
  first_checkpoint g = await_control agent context job (pos 0) (
      emit agent context job EventType.accepted 0 (pos 0) (pos 0) (pos 0)
        (record g { sequence = 0; highest_version = pos 0 }))

  unfoldable pub after_recount :
      Limits → Result RunError Statistics × Gate D → Option (RunResult × Gate D)
  after_recount limits (err e, g) = some (failed e, g)
  after_recount limits (ok measured, g) =
      if drift_exceeded job.drift measured.candidate_rows
      then some (failed (stale_plan measured.candidate_rows), g)
      else after_control limits measured (first_checkpoint g)

  unfoldable pub delete : Limits → Gate D → Option (RunResult × Gate D)
  delete limits g = after_recount limits (Count.count (lifted session) limits g)

-- `return statistics, true, err`
abbrev pub read_result : {S : Type 0} → Result RunError Statistics × S → Option (RunResult × S)
read_result (ok st, s) = some (record { statistics = some st; complete = true; error = none }, s)
read_result (err e, s) = some (record { statistics = none; complete = true; error = some e }, s)

module _ {D : Type 0} (agent : Builder) (context : Context) (session : Session D)
    (pause : ℤ → D → Bool × D) (source : Source) (job : JobEnvelope) where
  unfoldable pub run_as : Operation → Limits → Gate D → Option (RunResult × Gate D)
  run_as Operation.test_connection limits g =
      read_result (test_connection (lifted session) source g)
  run_as Operation.discover limits g = read_result (discover (lifted session) g)
  run_as Operation.count limits g = read_result (Count.count (lifted session) limits g)
  run_as Operation.delete limits g = delete agent context session pause job limits g
  run_as (Operation.unknown name) limits g = some (failed unclassified, g)

  unfoldable pub run : Limits → Gate D → Option (RunResult × Gate D)
  unfolding run_as
  run limits g = run_as job.operation limits g
