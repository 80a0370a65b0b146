-- ===== src/ControlPlane/Client/Signed.antt =====
-- internal/controlplane/client.go: what a server sees of a signed call.
use retentionops_connector.Prelude.{
  ◌≡◌, ◌≢◌, refl, sym, subst, inl, inr, ℕ, String, Bool, true, false, List, [], ◌∷◌, ◌++◌, Option,
  none, some, if◌then◌else◌, arith, Bool-cases, ap, ◌∙◌,
}
use retentionops_connector.Prelude.Text.{◌==◌, codes, eq_iff, eq_refl}
use retentionops_connector.Prelude.Result.{Result, ok, err, ◌>>=◌, >>=-eq-ok}
use retentionops_connector.Protocol.Signing.Domains.{OneLine}
use retentionops_connector.Protocol.Canonical.{request_signing_payload}
use retentionops_connector.ControlPlane.Client.{
  letter, raw_url, CallError, Headers, set_header, Request, Response, Credentials, Client,
  Transport, required, body_bytes, new_nonce, sign, signed_headers, plain_request, outcome,
  response_error, call,
}

-- The value of a header.
abbrev pub header : String → Headers → Option (List ℕ)
header name [] = none
header name ((key, value) ∷ rest) = if key == name then some value else header name rest

header-set_same :
    (name : String) (value : List ℕ) (h : Headers)
    → header name (set_header name value h) ≡ some value
unfolding set_header
header-set_same name value [] = rw (eq_refl name) refl
header-set_same name value ((key, old) ∷ rest) = ground (arith, header-set_same name value rest)

header-set_other :
    (name other : String) (value : List ℕ) (h : Headers)
    → (other == name) ≡ false
    → header name (set_header other value h) ≡ header name h
unfolding set_header
header-set_other name other value [] d = rw d refl
header-set_other name other value ((key, old) ∷ rest) d = ground (
  arith,
  header-set_other name other value rest d,
  eq_iff other name,
  eq_iff key name,
  eq_iff key other,
)

letter-visible : (n : ℕ) → letter n ≢ 10
unfolding letter
letter-visible n = ground arith

pub raw_url-OneLine : (bytes : List ℕ) → OneLine (raw_url bytes)
unfolding raw_url
raw_url-OneLine [] = tt
raw_url-OneLine (a ∷ []) = (letter-visible _, (letter-visible _, tt))
raw_url-OneLine (a ∷ b ∷ []) = (letter-visible _, (letter-visible _, (letter-visible _, tt)))
raw_url-OneLine (a ∷ b ∷ c ∷ rest) = (
  letter-visible _,
  (letter-visible _, (letter-visible _, (letter-visible _, raw_url-OneLine rest))),
)

-- A request whose headers name the connector and carry a signature of exactly this request: its
-- method, its path behind the base URL, its body, and the time and nonce of its headers.
pub record Authentic (verify : List ℕ → List ℕ → Bool) (digest : List ℕ → List ℕ)
    (base_url : List ℕ) (id : Credentials) (r : Request) : Type 0 where
  pub path : List ℕ
  pub timestamp : List ℕ
  pub nonce : List ℕ
  pub signature : List ℕ
  pub located : r.url ≡ base_url ++ path
  pub names : header "X-RetentionOps-Connector" r.headers ≡ some (codes id.connector_id)
  pub organization :
      header "X-RetentionOps-Organization" r.headers ≡ some (codes id.organization_id)
  pub timed : header "X-RetentionOps-Timestamp" r.headers ≡ some timestamp
  pub fresh : header "X-RetentionOps-Nonce" r.headers ≡ some nonce
  pub signed : header "X-RetentionOps-Signature" r.headers ≡ some signature
  pub one_line : OneLine nonce
  pub genuine :
      verify
        (request_signing_payload r.method path timestamp nonce (digest (body_bytes r.body)))
        signature
      ≡ true

required-ok : {A : Type 0} (o : Option A) (e : CallError) {a : A} → required o e ≡ ok a → o ≡ some a
required-ok none e h = absurd (cc h)
required-ok (some b) e h = cc

module _ (client : Client) (transport : Transport) (id : Credentials) where
  signed-Authentic :
      (verify : List ℕ → List ℕ → Bool) (path nonce signature : List ℕ) (r : Request)
      → r.url ≡ client.base_url ++ path
      → OneLine nonce
      → verify
          (request_signing_payload r.method path transport.timestamp nonce
            (transport.digest (body_bytes r.body)))
          signature
        ≡ true
      → Authentic verify transport.digest client.base_url id
          (record r { headers = signed_headers transport id nonce signature r.headers })
  signed-Authentic verify path nonce signature r located line genuine =
      let h1 = set_header "X-RetentionOps-Connector" (codes id.connector_id) r.headers in
      let h2 = set_header "X-RetentionOps-Organization" (codes id.organization_id) h1 in
      let h3 = set_header "X-RetentionOps-Timestamp" transport.timestamp h2 in
      let h4 = set_header "X-RetentionOps-Nonce" nonce h3 in
      record {
        path = path;
        timestamp = transport.timestamp;
        nonce = nonce;
        signature = signature;
        located = located;
        names =
            header-set_other "X-RetentionOps-Connector" "X-RetentionOps-Signature" signature h4 refl
            ∙ header-set_other "X-RetentionOps-Connector" "X-RetentionOps-Nonce" nonce h3 refl
            ∙ header-set_other "X-RetentionOps-Connector" "X-RetentionOps-Timestamp"
                transport.timestamp h2 refl
            ∙ header-set_other "X-RetentionOps-Connector" "X-RetentionOps-Organization"
                (codes id.organization_id) h1 refl
            ∙ header-set_same "X-RetentionOps-Connector" _ r.headers;
        organization =
            header-set_other "X-RetentionOps-Organization" "X-RetentionOps-Signature" signature h4
              refl
            ∙ header-set_other "X-RetentionOps-Organization" "X-RetentionOps-Nonce" nonce h3 refl
            ∙ header-set_other "X-RetentionOps-Organization" "X-RetentionOps-Timestamp"
                transport.timestamp h2 refl
            ∙ header-set_same "X-RetentionOps-Organization" _ h1;
        timed =
            header-set_other "X-RetentionOps-Timestamp" "X-RetentionOps-Signature" signature h4 refl
            ∙ header-set_other "X-RetentionOps-Timestamp" "X-RetentionOps-Nonce" nonce h3 refl
            ∙ header-set_same "X-RetentionOps-Timestamp" _ h2;
        fresh =
            header-set_other "X-RetentionOps-Nonce" "X-RetentionOps-Signature" signature h4 refl
            ∙ header-set_same "X-RetentionOps-Nonce" _ h3;
        signed = header-set_same "X-RetentionOps-Signature" _ h4;
        one_line = line;
        genuine = genuine;
      }

unwrapped : {A : Type 0} {a b : A} {r : Result CallError A} → r ≡ ok a → r ≡ ok b → a ≡ b
unwrapped h k = cc

module _ (client : Client) (transport : Transport) (id : Credentials)
    (verify : List ℕ → List ℕ → Bool) where
  -- A signature that was made verifies.
  abbrev pub Verifies : Credentials → Type 0
  Verifies who =
      (payload signature : List ℕ)
      → who.sign payload ≡ some signature
      → verify payload signature ≡ true

  sign-Authentic :
      (path : List ℕ) (r signed : Request)
      → client.identity ≡ some id
      → Verifies id
      → r.url ≡ client.base_url ++ path
      → sign client transport path r ≡ ok signed
      → Authentic verify transport.digest client.base_url id signed
  unfolding sign new_nonce
  sign-Authentic path r signed has law located h =
      let (who, its, h1) = >>=-eq-ok (required client.identity CallError.no_identity) _ h in
      let same : who ≡ id = cc (required-ok client.identity _ its, has) in
      let (nonce, drawn, h2) = >>=-eq-ok (new_nonce transport) _ h1 in
      let (bytes, random, coded) =
        >>=-eq-ok (required transport.random CallError.no_random) _ drawn in
      let (signature, made, h3) = >>=-eq-ok _ _ h2 in
      let line : OneLine nonce = subst OneLine (unwrapped refl coded) (raw_url-OneLine bytes) in
      let its_law : Verifies who = subst Verifies (sym same) law in
      subst (λ w. Authentic verify transport.digest client.base_url w signed) same
        (subst (Authentic verify transport.digest client.base_url who) (unwrapped refl h3) (
          signed-Authentic client transport who verify path nonce signature r located line
            (its_law _ signature (required-ok _ _ made))))

  exchange-Authentic :
      (other : Request → Option Response) (s : Result CallError Request)
      → ((r : Request) → s ≡ ok r → transport.send r ≡ other r)
      → (s >>= λ r. required (transport.send r) CallError.unreachable >>= outcome transport)
        ≡ (s >>= λ r. required (other r) CallError.unreachable >>= outcome transport)
  exchange-Authentic other (err e) agree = refl
  exchange-Authentic other (ok r) agree =
      ap (λ o. required o CallError.unreachable >>= outcome transport) (agree r refl)

  -- A signed call asks the server nothing but requests that are authentic: two servers that answer
  -- those alike cannot be told apart, whatever they answer to others. Each names the connector and
  -- its organization, and carries a signature of its own method, path, time, nonce and body, where
  -- the nonce has no line break.
  pub call-Authentic :
      (method path : List ℕ) (body : Option (List ℕ)) (other : Request → Option Response)
      → client.identity ≡ some id
      → Verifies id
      → ((r : Request)
          → Authentic verify transport.digest client.base_url id r
          → transport.send r ≡ other r)
      → call client transport method path body true
        ≡ call client (record transport { send = other }) method path body true
  unfolding call sign new_nonce outcome response_error plain_request
  call-Authentic method path body other has law agree =
      elim (Bool-cases (transport.parses (client.base_url ++ path))) [
        | inl fine ↦ simp fine (
            exchange-Authentic other
              (sign client transport path (plain_request client method path body))
              (λ r h.
                agree r
                  (sign-Authentic path (plain_request client method path body) r has law refl h)))
        | inr bad ↦ simp bad refl
      ]
