-- ===== src/Enrollment.antt =====
-- internal/enrollment/enrollment.go: the exchange of a token for an identity, which may be run again. The
-- X25519 key behind a seed and `json.Marshal` are arguments. The text of `explainTrust` is left out.
pub mod Resumes
use retentionops_connector.Prelude.{
  ℕ, String, Bool, true, false, not, List, [], ◌∷◌, Option, none, some, if◌then◌else◌,
}
use retentionops_connector.Prelude.Text.{◌==◌, codes}
use retentionops_connector.Prelude.Result.{Result, Check, ok, err, ◌>>=◌, ◌>>◌, refuse_if}
use retentionops_connector.Identity.Base64.{std_encode}
use retentionops_connector.Identity.{
  IdentityError, Crypto, Identity, EnrollmentAttempt, Enrollment, Files, Directory, Faults,
  owner_only, required,
}
use retentionops_connector.Identity.Store.{load_or_create, complete_attempt, save, load}
use retentionops_connector.ControlPlane.Client.{CallError, Client, Transport}
use retentionops_connector.ControlPlane.Calls.{EnrollmentResponse, Answers, enroll}

-- `protocolv1.EnrollmentRequest`, with the version of the protocol written out.
pub record EnrollmentRequest : Type 0 where
  pub organization_id : String
  pub token : List ℕ
  pub public_key : List ℕ
  pub encryption_key : List ℕ
  pub connector_version : List ℕ
  pub platform : List ℕ

-- `Request`, the random bytes of a new attempt, and the client, `none` where its certificates cannot
-- be read.
pub record Request : Type 0 where
  pub organization_id : String
  pub token : List ℕ
  pub version : List ℕ
  pub platform : List ℕ
  pub seed : Option (List ℕ)
  pub random : Option (List ℕ)
  pub client : Option Client

pub data EnrollmentError : Type 0 where
  identity_error : IdentityError → EnrollmentError
  no_client no_encryption_key not_a_directory wide_directory : EnrollmentError
  call_error : CallError → EnrollmentError
  answered_for : String → EnrollmentError

pub record Toolkit (Document : Type 0) : Type 0 where
  pub crypto : Crypto
  pub files : Files
  pub encryption_key : List ℕ → Option (List ℕ)
  pub marshal : EnrollmentRequest → Option (List ℕ)
  pub answers : Answers Document

abbrev pub called : {A : Type 0} → Result CallError A → Result EnrollmentError A
called (ok a) = ok a
called (err e) = err (EnrollmentError.call_error e)

abbrev pub lifted : {A : Type 0} → Result IdentityError A → Result EnrollmentError A
lifted (ok a) = ok a
lifted (err e) = err (EnrollmentError.identity_error e)

-- `config.RequireDirectoryIsPrivate`
unfoldable pub require_private : Bool → Directory → Check EnrollmentError
require_private stat_fails d = do
  refuse_if stat_fails EnrollmentError.not_a_directory
  mode ← required d.mode EnrollmentError.not_a_directory
  refuse_if (not (owner_only mode)) EnrollmentError.wide_directory

abbrev pub enrollment_of : EnrollmentResponse → Enrollment
enrollment_of response = record {
  connector_id = response.connector_id;
  organization_id = response.organization_id;
  control_plane_public_key = codes response.control_plane_public_key;
  issued_at = response.issued_at;
}

module _ {Document : Type 0} (kit : Toolkit Document) (faults : Faults) (transport : Transport)
    (request : Request) where
  abbrev pub request_of : EnrollmentAttempt → List ℕ → EnrollmentRequest
  request_of a encryption = record {
    organization_id = request.organization_id;
    token = request.token;
    public_key = std_encode (kit.crypto.public_of a.private);
    encryption_key = std_encode encryption;
    connector_version = request.version;
    platform = request.platform;
  }

  -- From the attempt to the answer of the control plane.
  unfoldable pub exchange : EnrollmentAttempt → Result EnrollmentError EnrollmentResponse
  exchange a = do
    client ← required request.client EnrollmentError.no_client
    encryption ← required (kit.encryption_key a.private) EnrollmentError.no_encryption_key
    response ← called (enroll kit.answers client transport (kit.marshal (request_of a encryption)))
    refuse_if (not (response.organization_id == request.organization_id))
        (EnrollmentError.answered_for response.organization_id)
    ok response

  abbrev pub completed :
      Check IdentityError × Directory → Result EnrollmentError Identity × Directory
  completed (err e, d) = (err (EnrollmentError.identity_error e), d)
  completed (ok u, d) = (require_private faults.stat d >>= λ v. lifted (load kit.files faults d), d)

  abbrev pub saved : Check IdentityError × Directory → Result EnrollmentError Identity × Directory
  saved (err e, d) = (err (EnrollmentError.identity_error e), d)
  saved (ok u, d) = completed (complete_attempt kit.files faults d)

  abbrev pub answered_with :
      EnrollmentAttempt
      → Result EnrollmentError EnrollmentResponse
      → Directory
      → Result EnrollmentError Identity × Directory
  answered_with a (err e) d = (err e, d)
  answered_with a (ok response) d =
      saved (save kit.files faults a.private (enrollment_of response) d)

  abbrev pub attempted :
      Result IdentityError EnrollmentAttempt × Directory
      → Result EnrollmentError Identity × Directory
  attempted (err e, d) = (err (EnrollmentError.identity_error e), d)
  attempted (ok a, d) = answered_with a (exchange a) d

  unfoldable pub run : Directory → Result EnrollmentError Identity × Directory
  run d =
      attempted
        (load_or_create kit.files faults request.organization_id request.seed request.random d)
