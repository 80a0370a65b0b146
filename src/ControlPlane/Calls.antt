-- ===== src/ControlPlane/Calls.antt =====
-- internal/controlplane/client.go: the operations of the client, but for `Control`. A document goes
-- out as the bytes that `json.Marshal` makes of it, `none` where it fails; what the standard library
-- makes of an answer is an argument.
use retentionops_connector.Prelude.{
  ℕ, String, Bool, true, false, not, List, [], ◌++◌, Option, none, some,
}
use retentionops_connector.Prelude.Int.{pos}
use retentionops_connector.Prelude.Text.{◌==◌, codes, Time}
use retentionops_connector.Prelude.Result.{Result, Check, ok, err, ◌>>=◌, ◌>>◌, refuse_if}
use retentionops_connector.Protocol.Canonical.{format_int}
use retentionops_connector.Identity.{decode_public}
use retentionops_connector.ControlPlane.Client.{CallError, Client, Transport, required, call}

-- `protocolv1.EnrollmentResponse`
pub record EnrollmentResponse : Type 0 where
  pub protocol_version : String
  pub connector_id : String
  pub organization_id : String
  pub control_plane_public_key : String
  pub issued_at : Time

-- `DecodeStrict` of an enrollment, the list of the sealed configurations, and
-- `url.PathEscape`.
pub record Answers (Document : Type 0) : Type 0 where
  pub decode_enrollment : List ℕ → Option EnrollmentResponse
  pub decode_pending : List ℕ → Option (List Document)
  pub path_escape : String → List ℕ

abbrev pub get : List ℕ
get = codes "GET"

abbrev pub post : List ℕ
post = codes "POST"

abbrev pub jobs_path : String → List ℕ
jobs_path rest = codes "/connector/v1/jobs/" ++ codes rest

abbrev pub job_path : String → List ℕ → List ℕ
job_path job_id suffix = jobs_path job_id ++ suffix

unfoldable pub accept_no_content : Result CallError (List ℕ) → Check CallError
accept_no_content (ok body) = ok tt
accept_no_content (err CallError.no_work) = ok tt
accept_no_content (err e) = err e

abbrev pub without_body : Result CallError (List ℕ) → Check CallError
without_body (ok body) = ok tt
without_body (err e) = err e

module _ {Document : Type 0} (answers : Answers Document) where
  abbrev pub pending_documents : Result CallError (List ℕ) → Result CallError (List Document)
  pending_documents (ok raw) = required (answers.decode_pending raw) CallError.malformed
  pending_documents (err CallError.no_work) = ok []
  pending_documents (err e) = err e

  unfoldable pub enrolled : List ℕ → Result CallError EnrollmentResponse
  enrolled raw = do
    response ← required (answers.decode_enrollment raw) CallError.malformed
    refuse_if (not (response.protocol_version == "1")) CallError.other_version
    key ← required (decode_public (codes response.control_plane_public_key)) CallError.bad_key
    ok response

module _ (client : Client) (transport : Transport) where
  abbrev pub post_document : List ℕ → Option (List ℕ) → Bool → Result CallError (List ℕ)
  post_document path document signed = do
    body ← required document CallError.unencodable
    call client transport post path (some body) signed

  -- The wait is in whole seconds.
  unfoldable pub next_job : ℕ → Result CallError (List ℕ)
  next_job wait =
      call client transport get (jobs_path "next?wait=" ++ format_int (pos wait)) none true

  unfoldable pub acknowledge : String → Check CallError
  acknowledge job_id =
      accept_no_content
        (call client transport post (job_path job_id (codes "/ack")) (some (codes "{}")) true)

  unfoldable pub event : String → Option (List ℕ) → Check CallError
  event job_id document =
      accept_no_content (post_document (job_path job_id (codes "/events")) document true)

  unfoldable pub complete : String → Option (List ℕ) → Check CallError
  complete job_id document =
      without_body (post_document (job_path job_id (codes "/complete")) document true)

  unfoldable pub heartbeat : Option (List ℕ) → Check CallError
  heartbeat document =
      accept_no_content (post_document (codes "/connector/v1/heartbeat") document true)

module _ {Document : Type 0} (answers : Answers Document) (client : Client)
    (transport : Transport) where
  unfoldable pub enroll : Option (List ℕ) → Result CallError EnrollmentResponse
  enroll document = do
    raw ← post_document client transport (codes "/connector/v1/enroll") document false
    enrolled answers raw

  unfoldable pub pending_configurations : Result CallError (List Document)
  pending_configurations =
      pending_documents answers
        (call client transport get (codes "/connector/v1/configurations/pending") none true)

  unfoldable pub acknowledge_configuration : String → Option (List ℕ) → Check CallError
  acknowledge_configuration envelope_id document = accept_no_content (
      post_document client transport
        (codes "/connector/v1/configurations/" ++ answers.path_escape envelope_id ++ codes "/ack")
        document true)
