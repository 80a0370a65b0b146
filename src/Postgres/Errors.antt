-- ===== src/Postgres/Errors.antt =====
-- adapters/postgres/adapter.go: `classify` and `Classify`, from an error to the class that the
-- control plane is told.
use retentionops_connector.Prelude.{
  ℕ, String, Bool, false, ◌&&◌, ◌||◌, List, ◌∷◌, if◌then◌else◌, eqb, length,
}
use retentionops_connector.Prelude.Int.{ℤ}
use retentionops_connector.Prelude.Text.{◌==◌, codes}
use retentionops_connector.Protocol.Result.{FailureCode}

-- What the driver and the TLS stack return, as far as `errors.As` tells errors apart: an SQLSTATE,
-- a certificate that does not verify, chain or match, and anything else.
pub data DriverError : Type 0 where
  sqlstate : String → DriverError
  certificate : DriverError
  other : DriverError

-- `code[:2] == "28"` of a code of five characters
abbrev pub is_authentication : List ℕ → Bool
is_authentication (a ∷ b ∷ rest) = eqb a b'2' && (eqb b b'8' && eqb (length (a ∷ b ∷ rest)) 5)
is_authentication _ = false

unfoldable pub classify : DriverError → FailureCode
classify (sqlstate code) =
    if code == "57014"
    then FailureCode.statement_timeout
    else if code == "55P03"
    then FailureCode.lock_timeout
    else if code == "42501"
    then FailureCode.permission
    else if code == "42P01" || (code == "42703" || code == "3D000")
    then FailureCode.target_changed
    else if is_authentication (codes code)
    then FailureCode.authentication
    else FailureCode.unreachable
classify certificate = FailureCode.tls
classify other = FailureCode.unreachable

-- The errors that a run can end with: an `OperationError`, another error of the adapter, the end
-- of the context, and the agent's two own errors.
pub data RunError : Type 0 where
  operational : FailureCode → RunError
  unclassified : RunError
  context_done : RunError
  control_cancelled : RunError
  stale_plan : ℤ → RunError

-- `Classify`: the class of an `OperationError`, and the internal class of any other error.
unfoldable pub failure_class : RunError → FailureCode
failure_class (operational code) = code
failure_class _ = FailureCode.internal
