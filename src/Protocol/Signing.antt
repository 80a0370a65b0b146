-- ===== src/Protocol/Signing.antt =====
-- protocol/v1/canonical.go and result.go: the domains, the bytes that are signed, and `Seal`.
pub mod Domains
use retentionops_connector.Prelude.{ℕ, String, List, [], ◌∷◌, ◌++◌}
use retentionops_connector.Prelude.Text.{codes}
use retentionops_connector.Prelude.Result.{Result, ok, err, ◌>>=◌}
use retentionops_connector.Protocol.Result.{JobResult}

abbrev pub job_domain : String
job_domain = "RetentionOps-Job-v1"

abbrev pub evidence_domain : String
evidence_domain = "RetentionOps-Evidence-v1"

abbrev pub control_domain : String
control_domain = "RetentionOps-Control-v1"

abbrev pub request_domain : String
request_domain = "RetentionOps-Request-v1"

abbrev pub newline : ℕ
newline = 10

-- `SigningPayload`: the domain, a newline, and the bytes attested.
unfoldable pub signing_payload : List ℕ → List ℕ → List ℕ
signing_payload domain body = domain ++ (newline ∷ body)

pub data SealError : Type 0 where
  not_canonical no_private_key : SealError

-- What the standard library gives a sealer: the SHA-256 digest of a result's canonical JSON, and an
-- Ed25519 signature by the connector's key. Both may fail.
pub record Sealer : Type 0 where
  pub digest_of : JobResult → Result SealError String
  pub sign : List ℕ → Result SealError String

-- `DigestOf` leaves out the members that carry the digest and the signature.
abbrev pub unsealed : JobResult → JobResult
unsealed r = record r { result_digest = ""; signature = "" }

unfoldable pub seal : Sealer → JobResult → Result SealError JobResult
seal sealer r = do
  digest ← sealer.digest_of (unsealed r)
  signature ← sealer.sign (signing_payload (codes evidence_domain) (codes digest))
  ok (record r { result_digest = digest; signature = signature })
