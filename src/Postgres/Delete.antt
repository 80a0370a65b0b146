-- ===== src/Postgres/Delete.antt =====
-- adapters/postgres/adapter.go: `deleteOneBatch` and `Delete`. The loop takes fuel. `none` means that
-- the fuel ran out, of which Delete/Bounds shows how much is enough, or that an observer did not return.
pub mod Bounds
pub mod Accounting
use retentionops_connector.Prelude.{
  ℕ, zero, suc, ◌+◌, Bool, true, false, ◌&&◌, if◌then◌else◌, Option, none, some, eqb,
}
use retentionops_connector.Prelude.Int.{ℤ, pos, pos_part, ◌+ℤ◌, ◌-ℤ◌, ◌*ℤ◌, ltb_ℤ, leb_ℤ}
use retentionops_connector.Prelude.Text.{Time}
use retentionops_connector.Prelude.Result.{Result, Check, ok, err}
use retentionops_connector.Protocol.Job.{Limits}
use retentionops_connector.Postgres.Errors.{RunError, unclassified, context_done}
use retentionops_connector.Postgres.Session.{
  Session, Action, executor, connect, set_all, timeout_statements, driver, finally, ◌>>=◌, ◌>>◌,
}

-- The rows and the batches that were committed, whether the candidates ran out, and the error that
-- ended the run, if one did.
pub record Outcome : Type 0 where
  pub rows_deleted : ℕ
  pub batches : ℕ
  pub complete : Bool
  pub error : Option RunError

-- What surrounds a batch: the observer that is told of it, with its rows, the rows so far and the
-- time it took, `none` where it does not return; and the wait between batches, which the end of the
-- context interrupts.
pub record Surroundings (S : Type 0) : Type 0 where
  pub observe : ℕ → ℕ → ℤ → S → Option (Check RunError × S)
  pub pause : ℤ → S → Bool × S

-- The variables of the loop.
pub record Progress : Type 0 where
  pub rows_deleted : ℕ
  pub batches : ℕ
  pub active_started : Time

-- A second, in nanoseconds.
abbrev pub second : ℤ
second = pos 1_000_000_000

-- The rest of the allowance, if it is smaller than a batch.
abbrev pub batch_limit : Limits → ℕ → ℤ
batch_limit l rows =
    let remaining = l.max_rows -ℤ pos rows in
    if ltb_ℤ remaining l.batch_size then remaining else l.batch_size

abbrev pub stopped : Progress → Bool → Option RunError → Outcome
stopped p complete error = record {
  rows_deleted = p.rows_deleted;
  batches = p.batches;
  complete = complete;
  error = error;
}

-- Each round deletes a row at least.
abbrev pub enough_fuel : Limits → ℕ
enough_fuel limits = suc (pos_part limits.max_rows)

abbrev pub fresh : Time → Progress
fresh now = record { rows_deleted = 0; batches = 0; active_started = now }

module _ {S : Type 0} (session : Session S) where
  -- the batch statement and its commit
  unfoldable pub remove_rows : ℤ → Time → Action S (ℕ × ℤ)
  remove_rows size started = driver (session.delete_rows size) >>= λ affected.
      driver session.commit >> λ s. (ok (affected, session.now s -ℤ started), s)

  -- The rows that one committed transaction removed, and the time that it took.
  unfoldable pub delete_one_batch : Limits → ℤ → Action S (ℕ × ℤ)
  delete_one_batch limits size s =
      (driver session.begin
          >> finally session.rollback
              (set_all session (timeout_statements limits) >> remove_rows size (session.now s)))
        s

module _ {S : Type 0} (session : Session S) (around : Surroundings S) where
  -- `limits.MaxDurationSeconds > 0 && time.Since(activeStarted) >= ...`
  abbrev pub out_of_time : Limits → Time → Time → Bool
  out_of_time limits active_started now =
      ltb_ℤ (pos 0) limits.max_duration_seconds
      && leb_ℤ (limits.max_duration_seconds *ℤ second) (now -ℤ active_started)

  abbrev pub wait : Limits → S → Bool × S
  wait limits s =
      if ltb_ℤ (pos 0) limits.pause_between_batches_ms
      then around.pause limits.pause_between_batches_ms s
      else (false, s)

  abbrev pub advanced : Progress → ℕ → S → S → Progress
  advanced p affected before_checkpoint after_checkpoint = record {
    rows_deleted = p.rows_deleted + affected;
    batches = p.batches + 1;
    active_started =
        p.active_started +ℤ (session.now after_checkpoint -ℤ session.now before_checkpoint);
  }

  -- The rest of the loop's body, from the end backwards; `next` is the next round.
  abbrev pub after_pause :
      (Progress → S → Option (Outcome × S)) → Progress → Bool × S → Option (Outcome × S)
  after_pause next q (true, s) = some (stopped q false (some context_done), s)
  after_pause next q (false, s) = next q s

  unfoldable pub after_checkpoint :
      (Progress → S → Option (Outcome × S))
      → Limits
      → Progress
      → ℕ
      → S
      → Option (Check RunError × S)
      → Option (Outcome × S)
  after_checkpoint next limits p affected s1 none = none
  after_checkpoint next limits p affected s1 (some (err e, s)) =
      some (stopped (advanced p affected s1 s) false (some e), s)
  after_checkpoint next limits p affected s1 (some (ok u, s)) =
      if out_of_time limits (advanced p affected s1 s).active_started (session.now s)
      then some (stopped (advanced p affected s1 s) false none, s)
      else after_pause next (advanced p affected s1 s) (wait limits s)

  unfoldable pub after_batch :
      (Progress → S → Option (Outcome × S))
      → Limits
      → Progress
      → Result RunError (ℕ × ℤ) × S
      → Option (Outcome × S)
  after_batch next limits p (err e, s) = some (stopped p false (some e), s)
  after_batch next limits p (ok (zero, elapsed), s) = some (stopped p true none, s)
  after_batch next limits p (ok (suc k, elapsed), s) =
      after_checkpoint next limits p (suc k) s
        (around.observe (suc k) (p.rows_deleted + suc k) elapsed s)

  unfoldable pub delete_loop : ℕ → Limits → Progress → S → Option (Outcome × S)
  delete_loop zero limits p s = none
  delete_loop (suc fuel) limits p s =
      if ltb_ℤ (pos p.rows_deleted) limits.max_rows
      then after_batch (delete_loop fuel limits) limits p
          (delete_one_batch session limits (batch_limit limits p.rows_deleted) s)
      else some (stopped p false none, s)

  abbrev pub run_loop : Limits → S → Option (Outcome × S)
  run_loop limits s = delete_loop (enough_fuel limits) limits (fresh (session.now s)) s

  abbrev pub closed : Option (Outcome × S) → Option (Result RunError Outcome × S)
  closed none = none
  closed (some (o, s)) = some (ok o, session.close s)

  abbrev pub delete_compiled : Bool → Limits → S → Option (Result RunError Outcome × S)
  delete_compiled false limits s = some (err unclassified, session.close s)
  delete_compiled true limits s = closed (run_loop limits s)

  abbrev pub delete_connected :
      Limits → Result RunError (Unit {0}) × S → Option (Result RunError Outcome × S)
  delete_connected limits (err e, s) = some (err e, s)
  delete_connected limits (ok u, s) = delete_compiled session.compiles limits s

  -- `err` is an error with which `Delete` returns no statistics.
  unfoldable pub delete : Limits → S → Option (Result RunError Outcome × S)
  delete limits s = delete_connected limits (connect session executor s)
