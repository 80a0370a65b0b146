-- ===== src/Sealed/Apply.antt =====
-- internal/sealedconfig/ledger.go and internal/agent/configuration.go: the ledger of outcomes, and what
-- the agent does with one envelope. What the disk may refuse is an argument.
pub mod Once
use retentionops_connector.Prelude.{
  String, Bool, true, false, List, [], ◌∷◌, if◌then◌else◌, Option, none, some,
}
use retentionops_connector.Prelude.Text.{Time, ◌==◌}
use retentionops_connector.Prelude.Result.{Result, ok, err}
use retentionops_connector.Config.{replace_source, Source}
use retentionops_connector.Config.Managed.{ManagedSource, Entries}
use retentionops_connector.Sealed.{
  Envelope, SourceConfiguration, OpenError, Opener, PrepareError, wrong_recipient, expired,
  not_yet_valid, too_large, unsupported_version, malformed, open_envelope, prepare,
}
use retentionops_connector.Jobs.Verifier.{Identity}
use retentionops_connector.Prelude.Int.{ℤ}

-- `truncated` is what an entry says whose writing failed: no code.
pub data Outcome : Type 0 where
  applied already_applied refused_unreadable refused_expired refused_invalid : Outcome
  truncated : Outcome

-- The sources in force, the overlay on disk, the outcomes recorded, and the answers sent, the newest
-- first.
pub record Configured : Type 0 where
  pub sources : List (String × Source)
  pub overlay : Entries
  pub outcomes : List (String × Outcome)
  pub acknowledged : List (String × Outcome)

-- What fails: the reading of the ledger, the key, the reading and the writing of the overlay, and of
-- an entry of the ledger the making, the writing and the closing.
pub record Failures : Type 0 where
  pub ledger : Bool
  pub key : Bool
  pub overlay_read : Bool
  pub overlay_write : Bool
  pub entry_create : Bool
  pub entry_write : Bool
  pub entry_close : Bool

-- An entry is named by the digest of the envelope's identifier.
unfoldable pub find_outcome : List (String × Outcome) → String → Option Outcome
find_outcome [] name = none
find_outcome ((entry, outcome) ∷ rest) name =
    if entry == name then some outcome else find_outcome rest name

-- `OutcomeFor`
unfoldable pub open_outcome : OpenError → Outcome
open_outcome wrong_recipient = refused_unreadable
open_outcome expired = refused_expired
open_outcome not_yet_valid = refused_expired
open_outcome too_large = refused_unreadable
open_outcome unsupported_version = refused_unreadable
open_outcome malformed = refused_invalid

-- The answer to an envelope that was seen before.
abbrev pub replayed_outcome : Outcome → Outcome
replayed_outcome applied = already_applied
replayed_outcome o = o

abbrev pub managed_entry : SourceConfiguration → ManagedSource
managed_entry o = record {
  host = o.host;
  port = o.port;
  database = o.database;
  reader_role = o.reader_role;
  executor_role = o.executor_role;
  tls_mode = o.tls_mode;
}

-- The overlay is a map: the entry of the source is replaced.
unfoldable pub set_entry : Entries → String → ManagedSource → Entries
set_entry [] id m = (id, some m) ∷ []
set_entry ((name, old) ∷ rest) id m =
    let others = set_entry rest id m in
    if name == id then (name, some m) ∷ rest else (name, old) ∷ others

module _ (opener : Opener) (version_text : ℤ → String) (digest : String → String)
    (identity : Identity) (rest_valid : Bool) (failures : Failures) (now : Time) where
  abbrev pub activate :
      Envelope
      → SourceConfiguration
      → Result PrepareError Source
      → Configured
      → Outcome × Configured
  activate e opened (err x) c = (refused_invalid, c)
  activate e opened (ok source) c =
      if failures.overlay_read
      then (refused_invalid, c)
      else if failures.overlay_write
      then (refused_invalid, c)
      else (
        applied,
        record c {
          overlay = set_entry c.overlay e.source_id (managed_entry opened);
          sources = replace_source c.sources e.source_id source;
        },
      )

  abbrev pub apply_opened :
      Envelope → Result OpenError SourceConfiguration → Configured → Outcome × Configured
  apply_opened e (err x) c = (open_outcome x, c)
  apply_opened e (ok opened) c =
      activate e opened (prepare rest_valid c.sources e.source_id opened) c

  unfoldable pub open_and_apply : Envelope → Configured → Outcome × Configured
  open_and_apply e c =
      if failures.key
      then (refused_unreadable, c)
      else apply_opened e
          (open_envelope opener version_text e identity.connector_id identity.organization_id now) c

  -- An answer that is not delivered is sent again when the envelope comes back.
  abbrev pub acknowledge : String → Outcome → Configured → Configured
  acknowledge id outcome c = record c { acknowledged = (id, outcome) ∷ c.acknowledged }

  abbrev pub noted : String → Outcome → Configured → Configured
  noted id outcome c = record c { outcomes = (digest id, outcome) ∷ c.outcomes }

  -- The outcome is recorded before it is answered; if that fails, it is not answered.
  abbrev pub record_outcome : String → Outcome × Configured → Configured
  record_outcome id (outcome, c) =
      if failures.entry_create
      then c
      else if failures.entry_write
      then noted id truncated c
      else if failures.entry_close
      then noted id outcome c
      else acknowledge id outcome (noted id outcome c)

  abbrev pub after_lookup : Envelope → Option Outcome → Configured → Configured
  after_lookup e (some previous) c = acknowledge e.envelope_id (replayed_outcome previous) c
  after_lookup e none c = record_outcome e.envelope_id (open_and_apply e c)

  -- An envelope whose document decodes.
  unfoldable pub apply_one : Envelope → Configured → Configured
  apply_one e c =
      if failures.ledger
      then c
      else after_lookup e (find_outcome c.outcomes (digest e.envelope_id)) c
