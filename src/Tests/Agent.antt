-- ===== src/Tests/Agent.antt =====
-- internal/agent and internal/controlplane: the theorems at the toy deployment.
use retentionops_connector.Prelude.{
  sym, subst, ℕ, ◌≤◌, ◌<◌, eqb, true, false, none, [], ◌∷◌, ◌≡◌, refl, ◌⊎◌, inr, some, String,
  arith,
}
use retentionops_connector.Prelude.Int.{ℤ, pos, negsuc, ◌≤ℤ◌, ◌+ℤ◌}
use retentionops_connector.Prelude.Result.{Result, ok, err}
use retentionops_connector.Protocol.Control.{
  ExecutionControl, ControlAction, known_action, validate_control,
}
use retentionops_connector.Protocol.Formats.{is_nonce, is_signature, matches}
use retentionops_connector.Protocol.Signing.{signing_payload}
use retentionops_connector.Jobs.Verifier.{verify}
use retentionops_connector.ControlPlane
use retentionops_connector.ControlPlane.{accept_answer}
use retentionops_connector.ControlPlane.Genuine.{Genuine, control-Genuine}
use retentionops_connector.Postgres.Errors.{DriverError, other}
use retentionops_connector.Postgres.Count.{count, measure}
use retentionops_connector.Postgres.Session.{Session, connect, set_all, timeout_statements}
use retentionops_connector.Postgres.Delete
use retentionops_connector.Postgres.Delete.{Outcome}
use retentionops_connector.Postgres.Delete.Bounds.{
  HonoursLimit, Hangs, WithinCeiling, delete-WithinCeiling,
}
use retentionops_connector.Postgres.Delete.Accounting.{
  Transactional, Outside as Apart, Accounted, delete-Accounted,
}
use retentionops_connector.Postgres.Errors.{RunError}
use retentionops_connector.Agent.Checkpoint.{Wait, await_control}
use retentionops_connector.Agent.Checkpoint.Obeyed.{Obeys, await_control-Obeys}
use retentionops_connector.Agent.Run
use retentionops_connector.Agent.Run.{lifted, first_checkpoint}
use retentionops_connector.Agent.Run.Gated.{Passed, LeavesDatabase, delete-Passed}
use retentionops_connector.Agent.Handle.{Handled, handle}
use retentionops_connector.Agent.Delivery.{Wire}
use retentionops_connector.Agent.Delivery.Persists.{Retried}
use retentionops_connector.Agent.Delivery.Reaches.{
  IsAbout, taken, Undelivered, DeliveredAt, handle-DeliveredAt,
}
use retentionops_connector.Agent.Heartbeat.{heartbeat}
use retentionops_connector.Agent.Heartbeat.Discloses.{
  SameOutline, one_source, no_source, heartbeat-SameOutlines,
}
use retentionops_connector.Config.{Source, pending}
use retentionops_connector.Agent.Handle.Guarded.{Untouched, Cleared, handle-Cleared}
use retentionops_connector.Agent.Handle.Answered.{Answered, Waits, handle-Answered}
use retentionops_connector.Tests.Protocol.{verified}
use retentionops_connector.Tests.Data.{
  source, Rows, connector, outside, at, sound_disk, ledger, job, waiting, polls, codec, identity,
  context, session, limits, quiet, full, builder, delete_some, control, answers, nonce, uuid,
}

ok_eq : (a b : ℕ) {r : Result DriverError ℕ} → r ≡ ok a → r ≡ ok b → a ≡ b
ok_eq a b h k = cc

delete_some-limit : (size : ℤ) (n : ℕ) (d : Rows) → (delete_some size d).0 ≡ ok n → pos n ≤ℤ size
delete_some-limit (pos k) n d h = ground arith
delete_some-limit (negsuc k) n d h = cc

pub session-HonoursLimit : HonoursLimit session
session-HonoursLimit = record { limited = delete_some-limit }

handle-Cleared_example :
    Untouched (waiting polls) (handle connector outside at sound_disk job ledger (waiting polls))
    ⊎ Cleared connector at job ledger (verify codec identity sound_disk at.verified job ledger).1
handle-Cleared_example = handle-Cleared connector outside at sound_disk job ledger (waiting polls)

handle-Answered_example :
    Answered
      (verify codec identity sound_disk at.verified job ledger).0
      context
      (handle connector outside at sound_disk job ledger (waiting polls))
handle-Answered_example =
    handle-Answered connector outside at (λ j s. session-HonoursLimit) sound_disk job ledger
      (waiting polls)

abbrev recounted_checkpoint : Wait Rows
recounted_checkpoint =
    first_checkpoint builder outside.context session outside.pause job
      (count (lifted session) limits (waiting polls)).1

delete-Passed_example :
    LeavesDatabase full
      (Run.delete builder outside.context session outside.pause job limits (waiting polls))
    ⊎ ((recounted_checkpoint ≡ none)
        × (Run.delete builder outside.context session outside.pause job limits (waiting polls)
            ≡ none))
    ⊎ Passed job (count (lifted session) limits (waiting polls)) recounted_checkpoint
unfolding count connect measure set_all timeout_statements
delete-Passed_example =
    delete-Passed builder outside.context session outside.pause job limits (waiting polls)

await_control-Obeys_example :
    Obeys builder outside.context job
      (pos 0)
      polls
      full
      (await_control builder outside.context job (pos 0) (waiting polls))
await_control-Obeys_example =
    await_control-Obeys builder outside.context job (pos 0) (waiting polls)

delete-WithinCeiling_example :
    ((r : Result RunError Outcome) × (d : Rows) × (Delete.delete session quiet limits full
        ≡ some (r, d))
      × WithinCeiling limits r)
    ⊎ ((Delete.delete session quiet limits full ≡ none) × Hangs session quiet limits)
delete-WithinCeiling_example =
    delete-WithinCeiling session quiet limits session-HonoursLimit (omega arith) full

delete_some-pending :
    (size : ℤ) (n : ℕ) (d : Rows)
    → (delete_some size d).0 ≡ ok n
    → (delete_some size d).1.pending ≡ n
delete_some-pending (pos k) n d h = ok_eq _ n refl h
delete_some-pending (negsuc k) n d h = cc

delete_some-gone : (size : ℤ) (d : Rows) → (delete_some size d).1.gone ≡ d.gone
delete_some-gone (pos k) d = refl
delete_some-gone (negsuc k) d = refl

-- The commit takes effect, and its reply is lost.
abbrev lossy : Session Rows
lossy = record session { commit = λ d. (err other, (session.commit d).1) }

lossy-Transactional : Transactional lossy
lossy-Transactional = record {
  removed = λ d. d.gone;
  pending = λ d. d.pending;
  begins = λ d. refl;
  sets = λ x d. refl;
  deletes = delete_some-gone;
  affects = delete_some-pending;
  commits = λ d h. cc;
  fails = λ d e h. inr refl;
  resolves = λ r d. refl;
  dials = λ r d. refl;
  closes = λ d. refl;
  rolls_back = λ d. refl;
}

quiet-Apart : Apart quiet lossy-Transactional.removed
quiet-Apart = record { observes = λ k n t d. refl; pauses = λ ms d. refl }

delete-Accounted_example :
    Accounted lossy lossy-Transactional quiet quiet-Apart limits
      (lossy-Transactional.removed full)
      (Delete.delete lossy quiet limits full)
delete-Accounted_example = delete-Accounted lossy lossy-Transactional quiet quiet-Apart limits full

answered :
    ControlPlane.control answers identity uuid
      (some nonce)
      (λ n. some (control ControlAction.run (pos 1)))
      (pos 1000)
    ≡ ok (control ControlAction.run (pos 1))
unfolding ControlPlane.control accept_answer validate_control known_action is_nonce is_signature
    matches signing_payload ◌+ℤ◌
answered = refl

control-Genuine_example :
    (n : String) × (raw : ExecutionControl) × (some nonce ≡ some n)
    × (some (control ControlAction.run (pos 1)) ≡ some raw)
    × Genuine answers identity uuid n (pos 1000) raw (control ControlAction.run (pos 1))
control-Genuine_example =
    control-Genuine answers identity uuid (some nonce)
      (λ n. some (control ControlAction.run (pos 1))) (pos 1000) (control ControlAction.run (pos 1))
      answered

-- The second attempt is the first that succeeds.
abbrev wire : Wire
wire = record { accepts = λ n. eqb n 2; stopped = λ n. false; wakes = λ n. true }

first_fails : (m : ℕ) → 1 ≤ m → m < 2 → Retried wire m
first_fails m low high = (ground arith, refl, refl)

job_taken : IsAbout job (verify codec identity sound_disk at.verified job ledger).0
job_taken = subst (IsAbout job) (sym verified) taken

handle-DeliveredAt_example :
    ((handle connector outside at sound_disk job ledger (waiting polls) ≡ none)
      × Waits job outside.context)
    ⊎ ((left : Handled Rows) × (handle connector outside at sound_disk job ledger (waiting polls)
          ≡ some left)
        × (Undelivered left.reported ⊎ DeliveredAt wire 2 job left.reported))
handle-DeliveredAt_example =
    handle-DeliveredAt connector outside at (λ j s. session-HonoursLimit) sound_disk job ledger
      (waiting polls) wire 2 job job_taken (omega arith) (omega arith) refl first_fails

abbrev moved : Source
moved = record source { host = "elsewhere.internal"; database = "other" }

outline : SameOutline source moved
unfolding pending
outline = record { type_name = refl; waiting = refl; tls_mode = λ p. refl; tables = refl }

heartbeat-SameOutlines_example :
    heartbeat builder "linux/amd64" none (pos 1000) ((uuid, source) ∷ [])
    ≡ heartbeat builder "linux/amd64" none (pos 1000) ((uuid, moved) ∷ [])
heartbeat-SameOutlines_example =
    heartbeat-SameOutlines builder "linux/amd64" none (pos 1000) ((uuid, source) ∷ [])
      ((uuid, moved) ∷ []) (one_source outline no_source)
