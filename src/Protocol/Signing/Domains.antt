-- ===== src/Protocol/Signing/Domains.antt =====
-- A signature made in one domain is not one in another; a sealed result checks against itself.
use retentionops_connector.Prelude.{ℕ, ◌≡◌, ◌≢◌, refl, subst, List, [], ◌∷◌, ◌++◌, All, arith}
use retentionops_connector.Prelude.Text.{codes}
use retentionops_connector.Prelude.Result.{ok, >>=-eq-ok}
use retentionops_connector.Protocol.Result.{JobResult}
use retentionops_connector.Protocol.Signing.{
  signing_payload, newline, Sealer, seal, unsealed, evidence_domain, job_domain,
}

abbrev pub OneLine : List ℕ → Type 0
OneLine = All (λ c. c ≢ newline)

split_at_newline :
    (d e b c : List ℕ)
    → OneLine d
    → OneLine e
    → (d ++ (newline ∷ b)) ≡ (e ++ (newline ∷ c))
    → (d ≡ e) × (b ≡ c)
split_at_newline [] [] b c hd he p = (refl, cc)
split_at_newline [] (y ∷ e) b c hd he p = absurd (he.0 (cc))
split_at_newline (x ∷ d) [] b c hd he p = absurd (hd.0 (cc))
split_at_newline (x ∷ d) (y ∷ e) b c hd he p =
    let (same, rest) = split_at_newline d e b c hd.1 he.1 (cc) in (cc, rest)

-- Two signed payloads with domains of one line are equal only if the domains are and the bodies
-- are: no signature of one domain is a signature of another.
pub signing_payload-injective :
    (d e b c : List ℕ)
    → OneLine d
    → OneLine e
    → signing_payload d b ≡ signing_payload e c
    → (d ≡ e) × (b ≡ c)
unfolding signing_payload
signing_payload-injective d e b c hd he p = split_at_newline d e b c hd he p

pub job_domain-OneLine : OneLine (codes job_domain)
job_domain-OneLine = omega arith

pub evidence_domain-OneLine : OneLine (codes evidence_domain)
evidence_domain-OneLine = omega arith

pub record Attested (sealer : Sealer) (r sealed : JobResult) : Type 0 where
  pub content : unsealed sealed ≡ unsealed r
  pub digest : sealer.digest_of (unsealed sealed) ≡ ok sealed.result_digest
  pub signature :
      sealer.sign (signing_payload (codes evidence_domain) (codes sealed.result_digest))
      ≡ ok sealed.signature

-- A sealed result differs from the one it was made of in its digest and its signature alone; its
-- digest is that of its own content, and its signature signs that digest in the evidence domain.
pub seal-verifies :
    (sealer : Sealer) (r sealed : JobResult) → seal sealer r ≡ ok sealed → Attested sealer r sealed
unfolding seal
seal-verifies sealer r sealed h =
    let (digest, digested, rest) = >>=-eq-ok (sealer.digest_of (unsealed r)) _ h in
    let (signature, signed, done) =
      >>=-eq-ok (sealer.sign (signing_payload (codes evidence_domain) (codes digest))) _ rest in
    let same : record r { result_digest = digest; signature = signature } ≡ sealed = cc in
    subst (Attested sealer r) same
      (record { content = refl; digest = digested; signature = signed })
