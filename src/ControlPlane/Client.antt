-- ===== src/ControlPlane/Client.antt =====
-- internal/controlplane/client.go: one call, from the request to its outcome. The transport, the
-- digest, the random bytes and the formatted clock are arguments. A header's name is written as in
-- the source. Partial bytes beside an error are left out.
pub mod Signed
pub mod Bounded
use retentionops_connector.Prelude.{
  ℕ, zero, suc, String, Bool, true, false, not, ◌&&◌, ◌||◌, List, [], ◌∷◌, ◌++◌, Option, none, some,
  if◌then◌else◌, ltb, eqb, all, length, is_nil, ◌+◌, ◌-◌, ◌*◌, ◌/◌, ◌%◌,
}
use retentionops_connector.Prelude.Text.{◌==◌, codes}
use retentionops_connector.Prelude.Result.{Result, Check, ok, err, ◌>>=◌, ◌>>◌, refuse_if}
use retentionops_connector.Protocol.Canonical.{request_signing_payload}

-- A letter of `base64.RawURLEncoding`.
unfoldable pub letter : ℕ → ℕ
letter n =
    if ltb n 26
    then b'A' + n
    else if ltb n 52
    then b'a' + (n - 26)
    else if ltb n 62
    then b'0' + (n - 52)
    else if eqb n 62
    then b'-'
    else b'_'

unfoldable pub raw_url : List ℕ → List ℕ
raw_url [] = []
raw_url (a ∷ []) = letter (a / 4) ∷ letter (a % 4 * 16) ∷ []
raw_url (a ∷ b ∷ []) = letter (a / 4) ∷ letter (a % 4 * 16 + b / 16) ∷ letter (b % 16 * 4) ∷ []
raw_url (a ∷ b ∷ c ∷ rest) =
    letter (a / 4)
    ∷ letter (a % 4 * 16 + b / 16)
    ∷ letter (b % 16 * 4 + c / 64)
    ∷ letter (c % 64)
    ∷ raw_url rest

pub data CallError : Type 0 where
  unencodable bad_request no_identity no_random unsigned unreachable no_work unread : CallError
  malformed other_version bad_key : CallError
  -- A status, and the code of the error if it may be shown.
  answered : ℕ → Option (List ℕ) → CallError

abbrev pub Headers : Type 0
Headers = List (String × List ℕ)

-- `Header.Set`
unfoldable pub set_header : String → List ℕ → Headers → Headers
set_header name value [] = (name, value) ∷ []
set_header name value ((key, old) ∷ rest) =
    let others = set_header name value rest in
    if key == name then (key, value) ∷ rest else (key, old) ∷ others

pub record Request : Type 0 where
  pub method : List ℕ
  pub url : List ℕ
  pub headers : Headers
  pub body : Option (List ℕ)

-- The bytes of a body that arrive, and whether the stream then ends in an error.
pub record Response : Type 0 where
  pub status : ℕ
  pub body : List ℕ
  pub breaks : Bool

-- What the client uses of an identity.
pub record Credentials : Type 0 where
  pub organization_id : String
  pub connector_id : String
  pub sign : List ℕ → Option (List ℕ)

pub record Client : Type 0 where
  pub base_url : List ℕ
  pub version : List ℕ
  pub identity : Option Credentials

-- What a call meets: sixteen random bytes, the clock in RFC 3339, whether the URL parses, the server,
-- and the code in an error document, `none` where that does not decode.
pub record Transport : Type 0 where
  pub random : Option (List ℕ)
  pub timestamp : List ℕ
  pub digest : List ℕ → List ℕ
  pub parses : List ℕ → Bool
  pub send : Request → Option Response
  pub error_code : List ℕ → Option (List ℕ)

abbrev pub max_response_bytes : ℕ
max_response_bytes = 1_048_576

abbrev pub required : {A : Type 0} → Option A → CallError → Result CallError A
required none e = err e
required (some a) e = ok a

abbrev pub body_bytes : Option (List ℕ) → List ℕ
body_bytes none = []
body_bytes (some b) = b

abbrev pub first_bytes : ℕ → List ℕ → List ℕ
first_bytes zero bytes = []
first_bytes (suc n) [] = []
first_bytes (suc n) (b ∷ bytes) = b ∷ first_bytes n bytes

-- `io.ReadAll` of an `io.LimitReader`, which asks for no byte behind the limit.
unfoldable pub read_limited : ℕ → Response → Option (List ℕ)
read_limited limit r =
    if ltb (length r.body) limit
    then if r.breaks then none else some r.body
    else some (first_bytes limit r.body)

-- A byte of a character that is not ASCII is refused, as the character is.
abbrev pub code_character : ℕ → Bool
code_character c =
    not ((ltb c b'A' || ltb b'Z' c) && (ltb c b'0' || ltb b'9' c) && not (eqb c b'_'))

unfoldable pub valid_error_code : List ℕ → Bool
valid_error_code code =
    if is_nil code || ltb 80 (length code) then false else all code_character code

abbrev pub content_type : Option (List ℕ) → Headers → Headers
content_type none headers = headers
content_type (some body) headers = set_header "Content-Type" (codes "application/json") headers

unfoldable pub plain_request : Client → (method path : List ℕ) → Option (List ℕ) → Request
plain_request client method path body = record {
  method = method;
  url = client.base_url ++ path;
  headers = content_type body (
      set_header "X-RetentionOps-Protocol" (codes "1") (
        set_header "Accept" (codes "application/json")
          (set_header "User-Agent" (codes "retentionops-connector/" ++ client.version) [])));
  body = body;
}

module _ (transport : Transport) where
  abbrev pub shown_code : Option (List ℕ) → Option (List ℕ)
  shown_code none = none
  shown_code (some code) = if valid_error_code code then some code else none

  abbrev pub decoded_code : Option (List ℕ) → Option (List ℕ)
  decoded_code none = none
  decoded_code (some body) = shown_code (transport.error_code body)

  unfoldable pub response_error : Response → CallError
  response_error r = answered r.status (decoded_code (read_limited max_response_bytes r))

  unfoldable pub outcome : Response → Result CallError (List ℕ)
  outcome r =
      if eqb r.status 204
      then err no_work
      else if eqb r.status 200 || eqb r.status 201 || eqb r.status 202
      then required (read_limited max_response_bytes r) unread
      else err (response_error r)

  unfoldable pub new_nonce : Result CallError (List ℕ)
  new_nonce = do bytes ← required transport.random no_random; ok (raw_url bytes)

  abbrev pub signed_headers : Credentials → List ℕ → List ℕ → Headers → Headers
  signed_headers id nonce signature headers =
      let h1 = set_header "X-RetentionOps-Connector" (codes id.connector_id) headers in
      let h2 = set_header "X-RetentionOps-Organization" (codes id.organization_id) h1 in
      let h3 = set_header "X-RetentionOps-Timestamp" transport.timestamp h2 in
      let h4 = set_header "X-RetentionOps-Nonce" nonce h3 in
      set_header "X-RetentionOps-Signature" signature h4

module _ (client : Client) (transport : Transport) where
  unfoldable pub sign : List ℕ → Request → Result CallError Request
  sign path request = do
    id ← required client.identity no_identity
    nonce ← new_nonce transport
    signature ←
        required
          (id.sign (
            request_signing_payload request.method path transport.timestamp nonce
              (transport.digest (body_bytes request.body))))
          unsigned
    ok (record request { headers = signed_headers transport id nonce signature request.headers })

  abbrev pub signed_or_plain : Bool → List ℕ → Request → Result CallError Request
  signed_or_plain true path request = sign path request
  signed_or_plain false path request = ok request

  -- `do`
  unfoldable pub call : (method path : List ℕ) → Option (List ℕ) → Bool → Result CallError (List ℕ)
  call method path body signed = do
    refuse_if (not (transport.parses (client.base_url ++ path))) bad_request
    request ← signed_or_plain signed path (plain_request client method path body)
    response ← required (transport.send request) unreachable
    outcome transport response
