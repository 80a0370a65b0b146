-- ===== src/Identity.antt =====
-- internal/identity/identity.go: the key files, and the signatures. Ed25519, X25519 and the decoding of
-- the files are arguments, base64 is written out. A file is the bits of its mode and its bytes.
pub mod Base64
pub mod Store
pub mod Signed
use retentionops_connector.Prelude.{
  ℕ, String, Bool, true, false, not, ◌||◌, List, [], ◌∷◌, ◌++◌, Option, none, some, if◌then◌else◌,
  eqb, leb, length, ◌%◌,
}
use retentionops_connector.Prelude.Text.{◌==◌, Time, codes}
use retentionops_connector.Prelude.Result.{Result, Check, ok, err, ◌>>=◌, ◌>>◌, refuse_if}
use retentionops_connector.Identity.Base64.{std_encode, std_decode}

pub data IdentityError : Type 0 where
  not_created not_protected not_readable not_encodable no_random : IdentityError
  unparsed unusable_attempt not_written not_installed not_removed absent : IdentityError
  wide_mode other_version unusable_key bad_public : IdentityError
  other_organization : String → IdentityError

pub data SignatureError : Type 0 where
  not_ed25519 not_base64 wrong_size does_not_verify : SignatureError

-- The key pair of a seed. A private key is its seed here.
pub record Crypto : Type 0 where
  pub public_of : List ℕ → List ℕ
  pub sign_with : List ℕ → List ℕ → List ℕ
  pub verifies : List ℕ → List ℕ → List ℕ → Bool

pub record Identity : Type 0 where
  pub connector_id : String
  pub organization_id : String
  pub private : List ℕ
  pub control_plane_key : List ℕ
  pub enrolled_at : Time

pub record Stored : Type 0 where
  pub version : ℕ
  pub connector_id : String
  pub organization_id : String
  pub private_key_seed : List ℕ
  pub control_plane_public_key : List ℕ
  pub enrolled_at : Time

pub record StoredAttempt : Type 0 where
  pub version : ℕ
  pub attempt_id : List ℕ
  pub organization_id : String
  pub private_key_seed : List ℕ

pub record EnrollmentAttempt : Type 0 where
  pub id : List ℕ
  pub organization_id : String
  pub private : List ℕ

pub record Enrollment : Type 0 where
  pub connector_id : String
  pub organization_id : String
  pub control_plane_public_key : List ℕ
  pub issued_at : Time

-- `encoding/json` on the two files.
pub record Files : Type 0 where
  pub render : Stored → Option (List ℕ)
  pub parse : List ℕ → Option Stored
  pub render_attempt : StoredAttempt → Option (List ℕ)
  pub parse_attempt : List ℕ → Option StoredAttempt

pub record File : Type 0 where
  pub mode : ℕ
  pub content : List ℕ

-- The directory, with the mode it has, if it is there.
pub record Directory : Type 0 where
  pub mode : Option ℕ
  pub identity : Option File
  pub temporary : Option File
  pub attempt : Option File

-- A write succeeds, fails before it changes anything, or stops behind some bytes.
pub data Write : Type 0 where
  done refused : Write
  cut : List ℕ → Write

-- What fails, call by call; `clean_up` is the removal of a file behind a
-- failed write, and `mkdir_again` is the call of `Save`.
pub record Faults : Type 0 where
  pub mkdir : Bool
  pub chmod : Bool
  pub read_attempt : Bool
  pub create : Bool
  pub write_attempt : Write
  pub close : Bool
  pub clean_up : Bool
  pub mkdir_again : Bool
  pub write : Write
  pub rename : Bool
  pub remove : Bool
  pub read : Bool
  pub stat : Bool

-- `mode & 0o077 == 0`
abbrev pub owner_only : ℕ → Bool
owner_only mode = eqb (mode % 64) 0

abbrev pub required : {E A : Type 0} → Option A → E → Result E A
required none e = err e
required (some a) e = ok a

module _ (crypto : Crypto) where
  unfoldable pub sign : List ℕ → List ℕ → List ℕ
  sign seed payload = codes "ed25519:" ++ std_encode (crypto.sign_with seed payload)

  -- The text behind `ed25519:`, if that is how it begins and there is more.
  abbrev pub behind : List ℕ → List ℕ → Option (List ℕ)
  behind [] [] = none
  behind [] (c ∷ rest) = some (c ∷ rest)
  behind (p ∷ prefix) [] = none
  behind (p ∷ prefix) (c ∷ rest) = if eqb p c then behind prefix rest else none

  unfoldable pub verify_signature : (key payload signature : List ℕ) → Check SignatureError
  verify_signature key payload signature = do
    encoded ← required (behind (codes "ed25519:") signature) not_ed25519
    raw ← required (std_decode encoded) not_base64
    refuse_if (not (eqb (length raw) 64)) wrong_size
    refuse_if (not (crypto.verifies key payload raw)) does_not_verify

-- Exactly 32 bytes.
abbrev pub sized : Option (List ℕ) → Option (List ℕ)
sized none = none
sized (some raw) = if eqb (length raw) 32 then some raw else none

unfoldable pub decode_public : List ℕ → Option (List ℕ)
decode_public encoded = sized (std_decode encoded)

abbrev pub decode_seed : List ℕ → Option (List ℕ)
decode_seed encoded = decode_public encoded
