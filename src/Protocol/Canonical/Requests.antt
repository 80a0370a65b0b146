-- ===== src/Protocol/Canonical/Requests.antt =====
-- What a connector signs for a call tells the call from every other.
use retentionops_connector.Prelude.{◌≡◌, ℕ, List, arith}
use retentionops_connector.Prelude.Text.{codes}
use retentionops_connector.Protocol.Signing.{request_domain, signing_payload}
use retentionops_connector.Protocol.Signing.Domains.{OneLine, signing_payload-injective}
use retentionops_connector.Protocol.Canonical.{request_signing_payload}

request_domain-OneLine : OneLine (codes request_domain)
request_domain-OneLine = omega arith

-- The bytes that sign a call determine its method, path, timestamp, nonce and body digest, if none
-- of the first four has a line break: a signature serves for no other call.
pub request_signing_payload-injective :
    (method path timestamp nonce body_digest : List ℕ)
    (method' path' timestamp' nonce' body_digest' : List ℕ)
    → OneLine method
    → OneLine path
    → OneLine timestamp
    → OneLine nonce
    → OneLine method'
    → OneLine path'
    → OneLine timestamp'
    → OneLine nonce'
    → request_signing_payload method path timestamp nonce body_digest
      ≡ request_signing_payload method' path' timestamp' nonce' body_digest'
    → (method ≡ method')
      × (path ≡ path')
      × (timestamp ≡ timestamp')
      × (nonce ≡ nonce')
      × (body_digest ≡ body_digest')
unfolding request_signing_payload signing_payload
request_signing_payload-injective m p t n b m' p' t' n' b' hm hp ht hn hm' hp' ht' hn' h =
    let (_, lines) =
      signing_payload-injective (codes request_domain) (codes request_domain) _ _
        request_domain-OneLine request_domain-OneLine h in
    let (same_m, l1) = signing_payload-injective m m' _ _ hm hm' lines in
    let (same_p, l2) = signing_payload-injective p p' _ _ hp hp' l1 in
    let (same_t, l3) = signing_payload-injective t t' _ _ ht ht' l2 in
    let (same_n, same_b) = signing_payload-injective n n' b b' hn hn' l3 in
    (same_m, same_p, same_t, same_n, same_b)
