-- ===== src/ControlPlane/Client/Bounded.antt =====
-- internal/controlplane/client.go: what a call may bring in from outside.
use retentionops_connector.Prelude.{
  ◌≡◌, ◌≢◌, refl, ◌⊎◌, inl, inr, ℕ, zero, suc, Bool, true, false, ◌||◌, List, [], ◌∷◌, ◌++◌, Option,
  none, some, All, arith, Bool-cases, ltb, eqb, all, length, ◌≤◌, ap,
}
use retentionops_connector.Prelude.Result.{Result, ok, err, ◌>>=◌}
use retentionops_connector.Protocol.Canonical.{request_signing_payload}
use retentionops_connector.ControlPlane.Client.{
  CallError, Request, Response, Client, Credentials, raw_url, body_bytes, signed_headers, Transport,
  required, first_bytes, read_limited, max_response_bytes, code_character, valid_error_code,
  shown_code, decoded_code, response_error, outcome, new_nonce, sign, plain_request,
  signed_or_plain, call,
}

-- A stable code: 1 to 80 capital letters, digits and underscores.
abbrev pub IsCodeCharacter : ℕ → Type 0
IsCodeCharacter c = ((b'A' ≤ c) × (c ≤ b'Z')) ⊎ ((b'0' ≤ c) × (c ≤ b'9')) ⊎ (c ≡ b'_')

abbrev pub IsCode : List ℕ → Type 0
IsCode code = (1 ≤ length code) × (length code ≤ 80) × All IsCodeCharacter code

abbrev pub Discloses : Option (List ℕ) → Type 0
Discloses none = Unit
Discloses (some code) = IsCode code

abbrev pub IsSuccess : ℕ → Type 0
IsSuccess status = (status ≡ 200) ⊎ (status ≡ 201) ⊎ (status ≡ 202)

-- The start of a body, at most a mebibyte of it.
abbrev pub StartOf : List ℕ → List ℕ → Type 0
StartOf whole part = (length part ≤ max_response_bytes) × (rest : List ℕ) × (whole ≡ part ++ rest)

-- A result that came from a response of the server, or from none.
abbrev pub OutcomeOf : Response → Result CallError (List ℕ) → Type 0
OutcomeOf response (ok body) = IsSuccess response.status × StartOf response.body body
OutcomeOf response (err (CallError.answered status code)) =
    (response.status ≡ status) × ¬ IsSuccess status × (status ≢ 204) × Discloses code
OutcomeOf response (err CallError.no_work) = response.status ≡ 204
OutcomeOf response (err CallError.unread) = IsSuccess response.status × (response.breaks ≡ true)
OutcomeOf response (err e) = ⊥

-- An error from before there is a response.
abbrev pub IsLocal : CallError → Type 0
IsLocal CallError.bad_request = Unit
IsLocal CallError.no_identity = Unit
IsLocal CallError.no_random = Unit
IsLocal CallError.unsigned = Unit
IsLocal CallError.unreachable = Unit
IsLocal e = ⊥

pub data Bounded (transport : Transport) (r : Result CallError (List ℕ)) : Type 0 where
  answered :
      (request : Request) (response : Response)
      → transport.send request ≡ some response
      → OutcomeOf response r
      → Bounded transport r
  unanswered : (e : CallError) → r ≡ err e → IsLocal e → Bounded transport r

code_character-IsCodeCharacter : (c : ℕ) → code_character c ≡ true → IsCodeCharacter c
code_character-IsCodeCharacter c h = ground arith

all-All : (code : List ℕ) → all code_character code ≡ true → All IsCodeCharacter code
all-All [] h = tt
all-All (c ∷ code) h = elim (Bool-cases (code_character c)) [
  | inl good ↦ (code_character-IsCodeCharacter c good, all-All code (ground arith))
  | inr bad ↦ absurd (ground arith)
]

pub valid_error_code-IsCode : (code : List ℕ) → valid_error_code code ≡ true → IsCode code
unfolding valid_error_code
valid_error_code-IsCode [] h = absurd (cc h)
valid_error_code-IsCode (c ∷ code) h = elim (Bool-cases (ltb 80 (length (c ∷ code)))) [
  | inl long ↦ absurd (ground arith)
  | inr short ↦ (ground arith, ground arith, all-All (c ∷ code) (ground arith))
]

first-StartOf :
    (limit : ℕ) (bytes : List ℕ)
    → (length (first_bytes limit bytes) ≤ limit)
      × (rest : List ℕ) × (bytes ≡ first_bytes limit bytes ++ rest)
first-StartOf zero bytes = (omega arith, bytes, refl)
first-StartOf (suc n) [] = (omega arith, [], refl)
first-StartOf (suc n) (b ∷ bytes) =
    let (short, rest, whole) = first-StartOf n bytes in (omega arith, rest, ap (λ l. b ∷ l) whole)

append-nil : (xs : List ℕ) → xs ≡ xs ++ []
append-nil [] = refl
append-nil (x ∷ xs) = ap (λ l. x ∷ l) (append-nil xs)

-- What `read_limited` brings is the start of the body; it fails only on a stream that breaks.
abbrev ReadOf : Response → Option (List ℕ) → Type 0
ReadOf r none = r.breaks ≡ true
ReadOf r (some bytes) = StartOf r.body bytes

read_limited-ReadOf : (r : Response) → ReadOf r (read_limited max_response_bytes r)
unfolding read_limited
read_limited-ReadOf r = elim (Bool-cases (ltb (length r.body) max_response_bytes)) [
  | inl short ↦ elim (Bool-cases r.breaks) [
    | inl cut ↦ simp (short, cut) refl
    | inr whole ↦ simp (short, whole) (ground arith, [], append-nil r.body)
  ]
  | inr long ↦ simp long (first-StartOf max_response_bytes r.body)
]

module _ (transport : Transport) where
  shown-Discloses : (code : Option (List ℕ)) → Discloses (shown_code transport code)
  shown-Discloses none = tt
  shown-Discloses (some code) = elim (Bool-cases (valid_error_code code)) [
    | inl valid ↦ rw valid (valid_error_code-IsCode code valid)
    | inr other ↦ rw other tt
  ]

  decoded-Discloses : (body : Option (List ℕ)) → Discloses (decoded_code transport body)
  decoded-Discloses none = tt
  decoded-Discloses (some body) = shown-Discloses (transport.error_code body)

  required-OutcomeOf :
      (r : Response) (bytes : Option (List ℕ))
      → IsSuccess r.status
      → ReadOf r bytes
      → OutcomeOf r (required bytes CallError.unread)
  required-OutcomeOf r none good read = (good, read)
  required-OutcomeOf r (some bytes) good read = (good, read)

  is_success : (n : ℕ) → (eqb n 200 || eqb n 201 || eqb n 202) ≡ true → IsSuccess n
  is_success n h = ground arith

  outcome-OutcomeOf : (r : Response) → OutcomeOf r (outcome transport r)
  unfolding outcome response_error
  outcome-OutcomeOf r = elim (Bool-cases (eqb r.status 204)) [
    | inl empty ↦ simp empty (ground arith)
    | inr some_status ↦
        elim (Bool-cases (eqb r.status 200 || eqb r.status 201 || eqb r.status 202)) [
          | inl good ↦
              simp (some_status, good)
                (required-OutcomeOf r _ (is_success r.status good) (read_limited-ReadOf r))
          | inr bad ↦
              simp (some_status, bad) (refl, ground arith, ground arith, decoded-Discloses _)
        ]
  ]

  sent-Bounded :
      (request : Request) (response : Option Response)
      → transport.send request ≡ response
      → Bounded transport (required response CallError.unreachable >>= outcome transport)
  sent-Bounded request none h = unanswered CallError.unreachable refl tt
  sent-Bounded request (some response) h = answered request response h (outcome-OutcomeOf response)

  -- A request that cannot be made is a local error.
  abbrev Made : Result CallError Request → Type 0
  Made (ok request) = Unit
  Made (err e) = IsLocal e

  Made-Bounded :
      (request : Result CallError Request)
      → Made request
      → Bounded transport
          (request >>= λ q. required (transport.send q) CallError.unreachable >>= outcome transport)
  Made-Bounded (ok request) made = sent-Bounded request _ refl
  Made-Bounded (err e) made = unanswered e refl made

  signature-Made :
      (q : List ℕ → Request) (signature : Option (List ℕ))
      → Made (required signature CallError.unsigned >>= λ s. ok (q s))
  signature-Made q none = tt
  signature-Made q (some s) = tt

  signing-Made :
      (payload : List ℕ → List ℕ) (q : Credentials → List ℕ → List ℕ → Request)
      (identity : Option Credentials) (bytes : Option (List ℕ))
      → Made (
          required identity CallError.no_identity >>= λ id.
          ((required bytes CallError.no_random >>= λ b. ok (raw_url b)) >>= λ nonce.
          (required (id.sign (payload nonce)) CallError.unsigned >>= λ s. ok (q id nonce s))))
  signing-Made payload q none bytes = tt
  signing-Made payload q (some id) none = tt
  signing-Made payload q (some id) (some bytes) =
      signature-Made (q id (raw_url bytes)) (id.sign (payload (raw_url bytes)))

module _ (client : Client) (transport : Transport) where
  signed_or_plain-Made :
      (signed : Bool) (path : List ℕ) (q : Request)
      → Made transport (signed_or_plain client transport signed path q)
  unfolding sign new_nonce
  signed_or_plain-Made true path q =
      signing-Made transport
        (λ nonce.
          request_signing_payload q.method path transport.timestamp nonce
            (transport.digest (body_bytes q.body)))
        (λ id nonce s. record q { headers = signed_headers transport id nonce s q.headers })
        client.identity transport.random
  signed_or_plain-Made false path q = tt

  -- A call, signed or not, ends in an error of its own before there is a response, or by the response
  -- alone. Bytes come only with status 200, 201 or 202: they are the start of the body, at most 2^20
  -- of it. Status 204 is the error that says that there is no work. Any other status is an error that
  -- holds the status and at most a code of 1 to 80 capital letters, digits and underscores, and no
  -- other text of the response.
  pub call-Bounded :
      (method path : List ℕ) (body : Option (List ℕ)) (signed : Bool)
      → Bounded transport (call client transport method path body signed)
  unfolding call
  call-Bounded method path body signed =
      elim (Bool-cases (transport.parses (client.base_url ++ path))) [
        | inl fine ↦ simp fine (
            Made-Bounded transport _
              (signed_or_plain-Made signed path (plain_request client method path body)))
        | inr bad ↦ simp bad (unanswered CallError.bad_request refl tt)
      ]
