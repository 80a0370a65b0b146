-- ===== src/ControlPlane.antt =====
-- internal/controlplane/client.go: `Control`, the question before a batch. The transport, decoding
-- and the canonical bytes of the answer are arguments; the challenge is the nonce just drawn.
pub mod Genuine
pub mod Client
pub mod Calls
use retentionops_connector.Prelude.{ℕ, String, Bool, not, ◌||◌, List, Option, none, some}
use retentionops_connector.Prelude.Int.{◌+ℤ◌}
use retentionops_connector.Prelude.Text.{Time, before, after, codes}
use retentionops_connector.Prelude.Result.{Result, Check, ok, err, refuse_if, ◌>>=◌, ◌>>◌}
use retentionops_connector.Protocol.Control.{ExecutionControl, ControlError, validate_control}
use retentionops_connector.Protocol.Signing.{signing_payload, control_domain}
use retentionops_connector.Jobs.Verifier.{Identity, clock_skew}

pub data AskError : Type 0 where
  no_challenge no_answer undecodable outside_window not_canonical bad_signature : AskError
  invalid : ControlError → AskError

-- What the standard library makes of an answer.
pub record AnswerCodec (Raw : Type 0) : Type 0 where
  pub decode_control : Raw → Option ExecutionControl
  pub canonicalize_without_signature : Raw → Option (List ℕ)

abbrev pub required : {A : Type 0} → Option A → AskError → Result AskError A
required none e = err e
required (some a) e = ok a

abbrev pub validated : Check ControlError → Check AskError
validated (ok u) = ok u
validated (err e) = err (invalid e)

module _ {Raw : Type 0} (codec : AnswerCodec Raw) (identity : Identity) where
  -- `now` is the clock after the answer has come.
  unfoldable pub accept_answer : String → String → Time → Raw → Result AskError ExecutionControl
  accept_answer job_id challenge now raw = do
    control ← required (codec.decode_control raw) undecodable
    validated
        (validate_control control job_id identity.organization_id identity.connector_id challenge)
    refuse_if (not (before now control.expires_at) || after control.issued_at (now +ℤ clock_skew))
        outside_window
    canonical ← required (codec.canonicalize_without_signature raw) not_canonical
    refuse_if
        (not (
          identity.verify_control_plane (signing_payload (codes control_domain) canonical)
            control.signature))
        bad_signature
    ok control

  -- `challenge` and `raw` are `none` where the nonce or the answer failed.
  unfoldable pub control :
      String → Option String → (String → Option Raw) → Time → Result AskError ExecutionControl
  control job_id challenge ask now = do
    nonce ← required challenge no_challenge
    raw ← required (ask nonce) no_answer
    accept_answer job_id nonce now raw
