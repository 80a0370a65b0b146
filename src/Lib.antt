-- ===== src/Lib.antt =====
-- RetentionOps connector: a model of the program that executes signed retention jobs on a customer's
-- PostgreSQL databases, and the theorems that make it safe to give it delete rights.
--
-- How the program works. The run loop (internal/agent) polls for a document, verifies it
-- (internal/jobs) against the wire contract (protocol/v1) and a ledger of nonces, asks the local
-- safety policy of the source it names (internal/policy, internal/config), and runs it through the
-- adapter (adapters/postgres). A delete recounts first; each batch waits for a signed answer of the
-- control plane (internal/controlplane). What happened is reported as a sealed record
-- (internal/evidence).
--
-- Files and sources.
--   Protocol      protocol/v1/job.go, result.go, control.go, canonical.go: the documents (Job, Result,
--                 Control), the patterns (Formats), condition values (Values), conditions and envelopes
--                 with their Validate (Condition, Envelope), signed bytes and Seal (Signing), the
--                 canonical JSON writer and the bytes of a request (Canonical).
--   Policy        internal/policy/policy.go: Authorize, its checks and the effective limits; Validate
--                 holds Safety.Validate, Columns holds conditionColumns.
--   Evidence      internal/evidence/evidence.go: the builder and DriftExceeded.
--   Jobs          internal/jobs/replay.go (Replay) and verifier.go (Verifier).
--   ControlPlane  internal/controlplane/client.go: Control; one call with its signature and its outcome
--                 (Client), and the operations that make the calls (Calls).
--   Identity      internal/identity/identity.go: Sign and VerifySignature, with base64 written out
--                 (Base64), and the files of the directory: the pending attempt, Save and Load (Store).
--   Enrollment    internal/enrollment/enrollment.go: Run, from a token to an installed identity.
--   Postgres      adapters/postgres/adapter.go: classify (Errors), connect and the session (Session),
--                 Count, TestConnection and Discover (Reads), and Delete with deleteOneBatch;
--                 adapters/postgres/sql.go: the statements of a job (Sql).
--   Config        internal/config/config.go: Source, its validate, and the lookup; Load with its
--                 defaults (Load); internal/config/managed.go: the overlay and its merge (Managed).
--   Sealed        internal/sealedconfig/sealedconfig.go and apply.go: AdditionalData, Open, Prepare;
--                 ledger.go and internal/agent/configuration.go: one envelope (Apply), and what the
--                 next start makes of it (Effective, Moves, Restart).
--   Scope         internal/scope/scope.go: the schemas that an operator chooses for a source.
--   Execution     internal/execution/enable.go: the bundle that lets a source delete: Prepare, Apply and
--                 ParseTable.
--   Agent         internal/agent/agent.go: awaitControl and emit (Checkpoint), delete and run (Run),
--                 handle and execute (Handle), report with its retries (Delivery), sendHeartbeat
--                 (Heartbeat), Run with its polls, waits and prunes, and between jobs the sealed
--                 configurations of internal/agent/configuration.go (Loop).
--   Prelude       numbers, lists, text and results that the others share.
--   Tests         a toy deployment, and the theorems at it.
--
-- How code becomes definitions. An int64 is an integer whose wrap-around is written out where the code
-- multiplies, adds or negates without a bound (wrap64); an instant is its nanoseconds since Go's zero
-- time. An error result is `err`, and an action on the outside takes and returns its state. The
-- database, the clock, the disk under the ledger, JSON decoding, digests and signatures are arguments:
-- records of functions, about which a theorem assumes no more than its statement says. Text for logs
-- and metrics is left out.
--
-- Loops. The batches of Delete run on fuel, one more than the ceiling, since each round that goes
-- on deletes a row; a theorem shows that this is enough. A checkpoint waits for as long as the control
-- plane lets it, without a bound: its answers so far are a list, and where they are used up either the
-- context is cancelled, and the checkpoint returns its error, or the context lives, and the
-- checkpoint, its deletion and the loop have no result (`none`). The loop of Run takes the turns that
-- it is to make as a list. The digits of a number take fuel, one more than the number; the reader of
-- canonical text, which is a specification and no code of the program, takes one unit for each
-- character and is shown to have enough. The rest is structural.
--
-- Not modelled: HTTP and TLS, secrets and their providers, the two database roles, metrics and logs, the
-- timer of the heartbeat, the interactive set-up, the installer, the package builder and the command
-- line: they are calls of the system and the standard library, or text for an operator.
pub mod Prelude
pub mod Protocol
pub mod Policy
pub mod Evidence
pub mod Jobs
pub mod ControlPlane
pub mod Postgres
pub mod Config
pub mod Sealed
pub mod Agent
pub mod Tests
pub mod Scope
pub mod Execution
pub mod Identity
pub mod Enrollment
