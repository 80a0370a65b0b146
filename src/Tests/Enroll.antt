-- ===== src/Tests/Enroll.antt =====
-- internal/identity and internal/enrollment: the theorems at a directory with one attempt, for a control
-- plane that answers for another organization.
use retentionops_connector.Prelude.{◌≡◌, refl, ℕ, false, List, [], ◌∷◌, ◌++◌, none, some, arith}
use retentionops_connector.Prelude.Int.{pos}
use retentionops_connector.Prelude.Text.{codes}
use retentionops_connector.Prelude.Result.{ok}
use retentionops_connector.Identity.Base64.{std_encode}
use retentionops_connector.Identity.{
  Crypto, Stored, StoredAttempt, Files, Directory, Faults, done, sign, verify_signature,
}
use retentionops_connector.Identity.Signed.{Signs, verify-sign}
use retentionops_connector.Enrollment.{Request, Toolkit}
use retentionops_connector.Tests.Client.{client, same_bytes}
use retentionops_connector.Tests.Data.{uuid}

abbrev repeated : ℕ → List ℕ → List ℕ
repeated b [] = []
repeated b (x ∷ xs) = b ∷ repeated b xs

abbrev seed : List ℕ
seed = codes "0123456789abcdef0123456789abcdef"

-- A signature that is twice the seed, whatever the payload.
abbrev crypto : Crypto
crypto = record {
  public_of = λ s. s;
  sign_with = λ s p. s ++ s;
  verifies = λ k p s. same_bytes (k ++ k) s;
}

seed-Signs : Signs crypto seed (codes "payload")
seed-Signs = record { size = refl; bytes = omega arith; verified = refl }

verify-sign_example :
    verify_signature crypto
      (crypto.public_of seed)
      (codes "payload")
      (sign crypto seed (codes "payload"))
    ≡ ok tt
verify-sign_example = verify-sign crypto seed (codes "payload") seed-Signs

abbrev attempt : StoredAttempt
attempt = record {
  version = 1;
  attempt_id = codes "attempt";
  organization_id = uuid;
  private_key_seed = std_encode seed;
}

-- Identity files that hold the seed alone, for one connector of one organization.
abbrev stored : List ℕ → Stored
stored bytes = record {
  version = 1;
  connector_id = uuid;
  organization_id = uuid;
  private_key_seed = bytes;
  control_plane_public_key = [];
  enrolled_at = pos 0;
}

abbrev files : Files
files = record {
  render = λ s. some s.private_key_seed;
  parse = λ b. some (stored b);
  render_attempt = λ a. some a.private_key_seed;
  parse_attempt = λ b. some attempt;
}

abbrev kit : Toolkit (List ℕ)
kit = record {
  crypto = crypto;
  files = files;
  encryption_key = λ s. some s;
  marshal = λ r. some r.token;
  answers = record {
    decode_enrollment = λ b. some (record {
      protocol_version = "1";
      connector_id = uuid;
      organization_id = "another";
      control_plane_public_key = "";
      issued_at = pos 0;
    });
    decode_pending = λ b. none;
    path_escape = codes;
  };
}

abbrev faults : Faults
faults = record {
  mkdir = false;
  chmod = false;
  read_attempt = false;
  create = false;
  write_attempt = done;
  close = false;
  clean_up = false;
  mkdir_again = false;
  write = done;
  rename = false;
  remove = false;
  read = false;
  stat = false;
}

abbrev directory : Directory
directory = record {
  mode = some 448;
  identity = none;
  temporary = none;
  attempt = some (record { mode = 384; content = [] });
}

abbrev request : Request
request = record {
  organization_id = uuid;
  token = codes "token";
  version = codes "1.0";
  platform = codes "linux/amd64";
  seed = none;
  random = none;
  client = some (record client { identity = none });
}
