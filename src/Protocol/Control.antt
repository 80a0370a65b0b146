-- ===== src/Protocol/Control.antt =====
-- protocol/v1/control.go: the signed decision at a checkpoint, and what makes one well formed.
use retentionops_connector.Prelude.{String, Bool, true, false, not, ◌||◌}
use retentionops_connector.Prelude.Int.{ℤ, pos, ltb_ℤ}
use retentionops_connector.Prelude.Text.{Time, ◌==◌, is_zero, after}
use retentionops_connector.Prelude.Result.{Check, refuse_if, ◌>>◌}
use retentionops_connector.Protocol.Job.{wire_version}
use retentionops_connector.Protocol.Formats.{is_nonce, is_signature}

pub data ControlAction : Type 0 where
  run pause cancel : ControlAction
  unknown : String → ControlAction

unfoldable pub known_action : ControlAction → Bool
known_action (ControlAction.unknown s) = false
known_action _ = true

pub record ExecutionControl : Type 0 where
  pub version : String
  pub job_id : String
  pub organization_id : String
  pub connector_id : String
  pub action : ControlAction
  pub execution_version : ℤ
  pub issued_at : Time
  pub expires_at : Time
  pub request_nonce : String
  pub signature : String

pub data ControlError : Type 0 where
  control_version misaddressed action_unknown version_not_positive : ControlError
  other_request validity_window malformed : ControlError

-- The identities are those of the request.
unfoldable pub validate_control :
    ExecutionControl → String → String → String → String → Check ControlError
validate_control c job_id organization_id connector_id request_nonce = do
  refuse_if (not (c.version == wire_version)) control_version
  refuse_if
      (not (c.job_id == job_id)
        || (not (c.organization_id == organization_id) || not (c.connector_id == connector_id)))
      misaddressed
  refuse_if (not (known_action c.action)) action_unknown
  refuse_if (ltb_ℤ c.execution_version (pos 1)) version_not_positive
  refuse_if (not (c.request_nonce == request_nonce) || not (is_nonce c.request_nonce)) other_request
  refuse_if (is_zero c.issued_at || (is_zero c.expires_at || not (after c.expires_at c.issued_at)))
      validity_window
  refuse_if (not (is_signature c.signature)) malformed
