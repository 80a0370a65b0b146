-- ===== src/Sealed.antt =====
-- internal/sealedconfig and internal/agent/configuration.go: a source configuration that a console
-- sealed to this connector: the bytes that are authenticated, the checks of `Open`, `Prepare`, the
-- ledger of outcomes, and what the agent does with an envelope. Base64, RFC 3339, X25519 and AES-GCM
-- are arguments, and so is the disk.
pub mod Framed
pub mod Narrow
pub mod Apply
pub mod Restart
pub mod Effective
pub mod Moves
use retentionops_connector.Prelude.{
  ℕ, zero, suc, ◌+◌, ◌/◌, ◌%◌, String, Bool, true, false, not, is_nil, all, ◌||◌, ◌&&◌, List, [],
  ◌∷◌, ◌++◌, length, if◌then◌else◌, Option, none, some, ltb,
}
use retentionops_connector.Prelude.Int.{ℤ, pos, eqb_ℤ, ◌+ℤ◌}
use retentionops_connector.Prelude.Text.{Time, ◌==◌, after, codes}
use retentionops_connector.Prelude.Result.{Result, Check, ok, err, ◌>>=◌, ◌>>◌, refuse_if, for_each}
use retentionops_connector.Protocol.Formats.{is_uuid}
use retentionops_connector.Config.{
  Source, SourceError, find_source, replace_source, validate_source,
}

pub record Envelope : Type 0 where
  pub version : ℤ
  pub envelope_id : String
  pub organization_id : String
  pub source_id : String
  pub connector_id : String
  pub issued_at : String
  pub ephemeral_key : String
  pub expires_at : String
  pub nonce : String
  pub ciphertext : String

pub record SourceConfiguration : Type 0 where
  pub host : String
  pub port : ℤ
  pub database : String
  pub reader_role : String
  pub executor_role : String
  pub tls_mode : String

-- `binary.BigEndian.AppendUint16(out, uint16(n))`
abbrev pub big_endian : ℕ → List ℕ
big_endian n = n % 65536 / 256 ∷ n % 256 ∷ []

-- the loop over the fields: each is a length and its bytes
unfoldable pub frame : List (List ℕ) → List ℕ
frame [] = []
frame (field ∷ fields) = big_endian (length field) ++ (field ++ frame fields)

abbrev pub domain : String
domain = "retentionops/sealed-config/v1"

-- `version_text` is the version in decimal.
unfoldable pub additional_data : String → Envelope → List ℕ
unfolding frame
additional_data version_text e = frame (
    codes domain
    ∷ codes version_text
    ∷ codes e.envelope_id
    ∷ codes e.organization_id
    ∷ codes e.source_id
    ∷ codes e.connector_id
    ∷ codes e.issued_at
    ∷ codes e.expires_at
    ∷ [])

pub data OpenError : Type 0 where
  wrong_recipient expired not_yet_valid too_large unsupported_version malformed : OpenError

-- What the standard library makes of an envelope: its instants, its ciphertext, whether its nonce
-- has twelve bytes and its key is one of X25519, and the plaintext that opens under the
-- connector's key with the bytes that are authenticated.
pub record Opener : Type 0 where
  pub parse_time : String → Option Time
  pub decode : String → Option (List ℕ)
  pub valid_key : List ℕ → Bool
  pub open_sealed : List ℕ → List ℕ → List ℕ → List ℕ → Option (List ℕ)
  pub decode_configuration : List ℕ → Option SourceConfiguration

abbrev pub required : {A : Type 0} → Option A → OpenError → Result OpenError A
required none e = err e
required (some a) e = ok a

abbrev pub max_ciphertext_bytes : ℕ
max_ciphertext_bytes = 16384

-- Five minutes, in nanoseconds.
abbrev pub sealing_skew : ℤ
sealing_skew = pos 300_000_000_000

abbrev pub twelve : List ℕ → Bool
twelve bytes = not (ltb (length bytes) 12) && not (ltb 12 (length bytes))

module _ (opener : Opener) (version_text : ℤ → String) where
  unfoldable pub open_envelope :
      Envelope → String → String → Time → Result OpenError SourceConfiguration
  open_envelope e connector_id organization_id now = do
    refuse_if (not (eqb_ℤ e.version (pos 1))) unsupported_version
    refuse_if (not (e.connector_id == connector_id) || not (e.organization_id == organization_id))
        wrong_recipient
    issued ← required (opener.parse_time e.issued_at) malformed
    expires ← required (opener.parse_time e.expires_at) malformed
    refuse_if (after now (expires +ℤ sealing_skew)) expired
    refuse_if (after issued (now +ℤ sealing_skew)) not_yet_valid
    ciphertext ← required (opener.decode e.ciphertext) malformed
    refuse_if (ltb max_ciphertext_bytes (length ciphertext)) too_large
    nonce ← required (opener.decode e.nonce) malformed
    refuse_if (not (twelve nonce)) malformed
    ephemeral ← required (opener.decode e.ephemeral_key) malformed
    refuse_if (not (opener.valid_key ephemeral)) malformed
    plaintext ←
        required
          (opener.open_sealed ephemeral nonce ciphertext
            (additional_data (version_text e.version) e))
          wrong_recipient
    required (opener.decode_configuration plaintext) malformed

-- The source as the envelope proposes it.
unfoldable pub proposed : Source → SourceConfiguration → Source
proposed s o = record s {
  host = o.host;
  port = o.port;
  database = o.database;
  tls = record s.tls { mode = o.tls_mode };
  reader = record s.reader { username = o.reader_role };
  executor =
      if o.executor_role == ""
      then s.executor
      else record s.executor { username = o.executor_role };
}

pub data PrepareError : Type 0 where
  unknown_source invalid_configuration : PrepareError

-- `Config.Validate`; `rest` says whether the control plane and the two directories, which no envelope
-- touches, pass.
abbrev pub is_ok : Check SourceError → Bool
is_ok (ok u) = true
is_ok (err e) = false

abbrev pub entry_valid : String × Source → Bool
entry_valid (id, s) = is_uuid id && is_ok (validate_source s)

unfoldable pub configuration_valid : Bool → List (String × Source) → Bool
configuration_valid rest sources = rest && (not (is_nil sources) && all entry_valid sources)

abbrev pub judged : Bool → Source → Result PrepareError Source
judged true s = ok s
judged false s = err invalid_configuration

abbrev pub prepare_found :
    Bool
    → List (String × Source)
    → String
    → SourceConfiguration
    → Option Source
    → Result PrepareError Source
prepare_found rest sources id o none = err unknown_source
prepare_found rest sources id o (some s) =
    judged (configuration_valid rest (replace_source sources id (proposed s o))) (proposed s o)

unfoldable pub prepare :
    Bool → List (String × Source) → String → SourceConfiguration → Result PrepareError Source
prepare rest sources id o = prepare_found rest sources id o (find_source sources id)
