-- ===== src/Tests/Client.antt =====
-- internal/controlplane: the theorems about a call, with a toy signature that is the payload itself.
use retentionops_connector.Prelude.{
  ◌≡◌, refl, ℕ, String, Bool, true, false, ◌&&◌, List, [], ◌∷◌, Option, none, some, eqb, arith,
}
use retentionops_connector.Prelude.Text.{codes}
use retentionops_connector.ControlPlane.Client.{
  Headers, Request, Response, Credentials, Client, Transport, call,
}
use retentionops_connector.ControlPlane.Client.Signed.{header, Verifies, call-Authentic}
use retentionops_connector.ControlPlane.Client.Bounded.{Bounded, call-Bounded}
use retentionops_connector.Tests.Data.{uuid}

abbrev pub same_bytes : List ℕ → List ℕ → Bool
same_bytes [] [] = true
same_bytes [] (b ∷ bs) = false
same_bytes (a ∷ xs) [] = false
same_bytes (a ∷ xs) (b ∷ bs) = eqb a b && same_bytes xs bs

pub same_bytes_refl : (xs : List ℕ) → same_bytes xs xs ≡ true
same_bytes_refl [] = refl
same_bytes_refl (x ∷ xs) = ground (arith, same_bytes_refl xs)

abbrev id : Credentials
id = record { organization_id = uuid; connector_id = uuid; sign = λ p. some p }

abbrev pub client : Client
client = record {
  base_url = codes "https://console.example";
  version = codes "1.0";
  identity = some id;
}

abbrev refusal : Request → Option Response
refusal r = some (record { status = 403; body = codes "REVOKED"; breaks = false })

abbrev pub transport : Transport
transport = record {
  random = some (0 ∷ 255 ∷ 7 ∷ 9 ∷ []);
  timestamp = codes "2026-01-01T00:00:00Z";
  digest = λ b. b;
  parses = λ u. true;
  send = refusal;
  error_code = λ b. some b;
}

makes_genuine : Verifies client transport id same_bytes id
makes_genuine payload signature h =
    let same : payload ≡ signature = cc in rw same (same_bytes_refl signature)

-- A server that does not answer a request without headers.
abbrev unless_bare : Headers → Option Response → Option Response
unless_bare [] response = none
unless_bare (h ∷ hs) response = response

abbrev strict : Request → Option Response
strict r = unless_bare r.headers (refusal r)

named :
    (h : Headers) (name : String) (value : List ℕ) (response : Option Response)
    → header name h ≡ some value
    → response ≡ unless_bare h response
named [] name value response has = cc
named (h ∷ hs) name value response has = refl

call-Authentic_example :
    call client transport (codes "GET") (codes "/connector/v1/jobs/next?wait=30") none true
    ≡ call client
        (record transport { send = strict })
        (codes "GET")
        (codes "/connector/v1/jobs/next?wait=30")
        none
        true
call-Authentic_example =
    call-Authentic client transport id same_bytes (codes "GET")
      (codes "/connector/v1/jobs/next?wait=30") none strict refl makes_genuine
      (λ r authentic. named r.headers "X-RetentionOps-Connector" _ (refusal r) authentic.names)

call-Bounded_example :
    Bounded transport
      (call client transport (codes "POST") (codes "/connector/v1/heartbeat") (some []) true)
call-Bounded_example =
    call-Bounded client transport (codes "POST") (codes "/connector/v1/heartbeat") (some []) true
