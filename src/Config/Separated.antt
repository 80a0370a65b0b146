-- ===== src/Config/Separated.antt =====
-- internal/config/config.go: what a valid source that grants a delete is.
use retentionops_connector.Prelude.{◌≡◌, ◌≢◌, refl, inl, inr, true, false, arith, Bool-cases}
use retentionops_connector.Prelude.Int.{pos, ◌≤ℤ◌}
use retentionops_connector.Prelude.Text.{eq_iff}
use retentionops_connector.Prelude.Result.{ok, err}
use retentionops_connector.Protocol.Formats.{is_identifier}
use retentionops_connector.Policy.{grants_delete}
use retentionops_connector.Policy.Validate.{validate_safety}
use retentionops_connector.Config.{
  Source, Credential, execution, pending, no_reference, as_source_error, validate_credential,
  validate_mode, validate_executor, validate_configured, validate_reach, validate_pending,
  validate_source,
}

pub record CredentialValid (c : Credential) : Type 0 where
  pub username : is_identifier c.username ≡ true
  pub password : no_reference c.password ≡ false

-- A source that deletes: configured, in the mode that says so, as two different roles, under a
-- valid policy.
pub record DeletesSafely (s : Source) : Type 0 where
  pub configured : pending s ≡ false
  pub mode : s.mode ≡ execution
  pub port : (pos 1 ≤ℤ s.port) × (s.port ≤ℤ pos 65535)
  pub reader : CredentialValid s.reader
  pub executor : CredentialValid s.executor
  pub two_roles : s.executor.username ≢ s.reader.username
  pub safety : validate_safety s.safety ≡ ok tt

validate_credential_sound : (c : Credential) → validate_credential c ≡ ok tt → CredentialValid c
unfolding validate_credential
validate_credential_sound c h = record { username = ground arith; password = ground arith }

pending-no_grant : (s : Source) → validate_pending s ≡ ok tt → grants_delete s.safety ≡ false
unfolding validate_pending
pending-no_grant s h = ground arith

mode-execution :
    (s : Source) → validate_mode s ≡ ok tt → grants_delete s.safety ≡ true → s.mode ≡ execution
unfolding validate_mode
mode-execution s h g = ground (arith, eq_iff s.mode execution)

executor-separate :
    (s : Source)
    → validate_executor s ≡ ok tt
    → grants_delete s.safety ≡ true
    → CredentialValid s.executor × (s.executor.username ≢ s.reader.username)
unfolding validate_executor
executor-separate s h g = (
  ground (arith, validate_credential_sound s.executor),
  λ e. ground (arith, (eq_iff s.executor.username s.reader.username).1 e),
)

as_source_error-ok : (c : _) → as_source_error c ≡ ok tt → c ≡ ok tt
as_source_error-ok (ok u) h = refl
as_source_error-ok (err e) h = cc

reach-valid :
    (s : Source)
    → validate_reach s ≡ ok tt
    → grants_delete s.safety ≡ true
    → validate_safety s.safety ≡ ok tt
unfolding validate_reach
reach-valid s h g = ground (arith, as_source_error-ok (validate_safety s.safety))

configured-safe :
    (s : Source)
    → pending s ≡ false
    → validate_configured s ≡ ok tt
    → grants_delete s.safety ≡ true
    → DeletesSafely s
unfolding validate_configured
configured-safe s p h g = record {
  configured = p;
  mode = ground (arith, mode-execution s);
  port = ground arith;
  reader = ground (arith, validate_credential_sound s.reader);
  executor = ground (arith, executor-separate s);
  two_roles = ground (arith, executor-separate s);
  safety = ground (arith, reach-valid s);
}

-- A valid source whose policy grants any delete is configured, is in mode execution, has a reader
-- and an executor that are both plain identifiers with a secret reference, under two different
-- names, and its policy is valid.
pub validate_source-DeletesSafely :
    (s : Source) → validate_source s ≡ ok tt → grants_delete s.safety ≡ true → DeletesSafely s
unfolding validate_source
validate_source-DeletesSafely s h g = elim (Bool-cases (pending s)) [
  | inl p ↦ absurd (ground (arith, pending-no_grant s))
  | inr p ↦ configured-safe s p (ground arith) g
]
