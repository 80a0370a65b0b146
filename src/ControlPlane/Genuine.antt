-- ===== src/ControlPlane/Genuine.antt =====
-- internal/controlplane/client.go: what an answer that `Control` accepts is.
use retentionops_connector.Prelude.{
  ℕ, ◌≡◌, refl, String, true, not, ◌||◌, List, Option, none, some, arith, subst,
}
use retentionops_connector.Prelude.Int.{pos, ◌<ℤ◌, ◌≤ℤ◌, ◌+ℤ◌}
use retentionops_connector.Prelude.Text.{Time, before, after, eq_iff, codes}
use retentionops_connector.Prelude.Result.{Result, ok, >>=-eq-ok, refuse_if, refuse_if-eq-ok}
use retentionops_connector.Protocol.Control.{ExecutionControl, validate_control, known_action}
use retentionops_connector.Protocol.Signing.{signing_payload, control_domain}
use retentionops_connector.Jobs.Verifier.{Identity, clock_skew}
use retentionops_connector.ControlPlane.{
  AskError, outside_window, bad_signature, AnswerCodec, required, validated, accept_answer, control,
}

-- The control is this job's and this connector's, it answers this challenge, it is in force, and
-- the pinned key signed it for a checkpoint.
pub record Genuine {Raw : Type 0} (codec : AnswerCodec Raw) (identity : Identity)
    (job_id challenge : String) (now : Time) (raw : Raw) (c : ExecutionControl) : Type 0 where
  pub decoded : codec.decode_control raw ≡ some c
  pub same_job : c.job_id ≡ job_id
  pub same_organization : c.organization_id ≡ identity.organization_id
  pub same_connector : c.connector_id ≡ identity.connector_id
  pub known : known_action c.action ≡ true
  pub version_positive : pos 1 ≤ℤ c.execution_version
  pub answers : c.request_nonce ≡ challenge
  pub in_force : now <ℤ c.expires_at
  pub not_from_the_future : c.issued_at ≤ℤ (now +ℤ clock_skew)
  pub canonical : List ℕ
  pub canonical_bytes : codec.canonicalize_without_signature raw ≡ some canonical
  pub signed :
      identity.verify_control_plane (signing_payload (codes control_domain) canonical) c.signature
      ≡ true

ok_eq :
    (a b : ExecutionControl) {r : Result AskError ExecutionControl} → r ≡ ok a → r ≡ ok b → a ≡ b
ok_eq a b h k = cc

required-ok : {A : Type 0} (o : Option A) (e : AskError) {a : A} → required o e ≡ ok a → o ≡ some a
required-ok none e h = cc
required-ok (some a) e h = cc

-- The identities that `validate_control` compares.
record Addressed (c : ExecutionControl) (job_id organization_id connector_id nonce : String)
    : Type 0 where
  same_job : c.job_id ≡ job_id
  same_organization : c.organization_id ≡ organization_id
  same_connector : c.connector_id ≡ connector_id
  known : known_action c.action ≡ true
  version_positive : pos 1 ≤ℤ c.execution_version
  answers : c.request_nonce ≡ nonce

validate_control-Addressed :
    (c : ExecutionControl) (job_id organization_id connector_id nonce : String)
    → validated (validate_control c job_id organization_id connector_id nonce) ≡ ok tt
    → Addressed c job_id organization_id connector_id nonce
unfolding validate_control
validate_control-Addressed c j o k n h = ground (
  arith,
  eq_iff c.job_id j,
  eq_iff c.organization_id o,
  eq_iff c.connector_id k,
  eq_iff c.request_nonce n,
)

module _ {Raw : Type 0} (codec : AnswerCodec Raw) (identity : Identity) where
  accept_answer-Genuine :
      (job_id challenge : String) (now : Time) (raw : Raw) (c : ExecutionControl)
      → accept_answer codec identity job_id challenge now raw ≡ ok c
      → Genuine codec identity job_id challenge now raw c
  unfolding accept_answer
  accept_answer-Genuine job_id challenge now raw c h =
      let (d, decoded, h1) = >>=-eq-ok (required (codec.decode_control raw) _) _ h in
      let (u, valid, h2) =
        >>=-eq-ok
          (validated
            (validate_control d job_id identity.organization_id identity.connector_id challenge))
          _ h1 in
      let late = not (before now d.expires_at) || after d.issued_at (now +ℤ clock_skew) in
      let (v, timely, h3) = >>=-eq-ok (refuse_if late outside_window) _ h2 in
      let (bytes, bytes_of, h4) =
        >>=-eq-ok (required (codec.canonicalize_without_signature raw) _) _ h3 in
      let forged = not (
        identity.verify_control_plane (signing_payload (codes control_domain) bytes) d.signature) in
      let (w, signed, h5) = >>=-eq-ok (refuse_if forged bad_signature) _ h4 in
      let a =
        validate_control-Addressed d job_id identity.organization_id identity.connector_id challenge
          valid in
      let same : d ≡ c = ok_eq d c refl h5 in
      subst (λ x. Genuine codec identity job_id challenge now raw x) same
        (record {
          decoded = required-ok (codec.decode_control raw) _ decoded;
          same_job = a.same_job;
          same_organization = a.same_organization;
          same_connector = a.same_connector;
          known = a.known;
          version_positive = a.version_positive;
          answers = a.answers;
          in_force = ground (arith, refuse_if-eq-ok late outside_window timely);
          not_from_the_future = ground (arith, refuse_if-eq-ok late outside_window timely);
          canonical = bytes;
          canonical_bytes = required-ok (codec.canonicalize_without_signature raw) _ bytes_of;
          signed = ground (arith, refuse_if-eq-ok forged bad_signature signed);
        })

  asked :
      (job_id : String) (challenge : Option String) (ask : String → Option Raw) (now : Time)
      (c : ExecutionControl)
      → control codec identity job_id challenge ask now ≡ ok c
      → (nonce : String) × (raw : Raw) × (challenge ≡ some nonce)
        × (ask nonce ≡ some raw)
        × (accept_answer codec identity job_id nonce now raw ≡ ok c)
  unfolding control
  asked job_id challenge ask now c h =
      let (nonce, drawn, h1) = >>=-eq-ok (required challenge _) _ h in
      let (raw, came, h2) = >>=-eq-ok (required (ask nonce) _) _ h1 in
      (nonce, raw, required-ok challenge _ drawn, required-ok (ask nonce) _ came, h2)

  -- A decision that `Control` returns answers the challenge just drawn, is addressed to this job
  -- and this connector, names a known action and a positive version, has not expired, was not
  -- issued beyond the skew, and is signed by the pinned key under the domain of checkpoints.
  pub control-Genuine :
      (job_id : String) (challenge : Option String) (ask : String → Option Raw) (now : Time)
      (c : ExecutionControl)
      → control codec identity job_id challenge ask now ≡ ok c
      → (nonce : String) × (raw : Raw) × (challenge ≡ some nonce)
        × (ask nonce ≡ some raw)
        × Genuine codec identity job_id nonce now raw c
  control-Genuine job_id challenge ask now c h =
      let (nonce, raw, drawn, came, accepted) = asked job_id challenge ask now c h in
      (nonce, raw, drawn, came, accept_answer-Genuine job_id nonce now raw c accepted)
