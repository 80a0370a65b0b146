-- ===== src/Enrollment/Resumes.antt =====
-- internal/enrollment/enrollment.go: the key of an enrollment that is run over a pending attempt.
use retentionops_connector.Prelude.{◌≡◌, ℕ, List}
use retentionops_connector.Prelude.Result.{Result, ok, err}
use retentionops_connector.Identity.Base64.{std_encode}
use retentionops_connector.Identity.{IdentityError, EnrollmentAttempt, Faults}
use retentionops_connector.ControlPlane.Client.{Transport}
use retentionops_connector.Enrollment.{Request, Toolkit, request_of}

module _ {Document : Type 0} (kit : Toolkit Document) (faults : Faults) (transport : Transport)
    (request : Request) (seed : List ℕ) where
  -- The attempt that a run goes on with carries the public key of the seed.
  abbrev pub SameKey : Result IdentityError EnrollmentAttempt → Type 0
  SameKey (ok a) =
      (encryption : List ℕ)
      → (request_of kit faults transport request a encryption).public_key
        ≡ std_encode (kit.crypto.public_of seed)
  SameKey (err e) = Unit
