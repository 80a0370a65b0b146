-- ===== src/Identity/Store.antt =====
-- internal/identity/identity.go: `LoadOrCreateEnrollmentAttempt`, `CompleteEnrollmentAttempt`, `Save`
-- and `Load`, on a directory whose calls may fail.
pub mod Held
use retentionops_connector.Prelude.{
  ℕ, String, Bool, true, false, not, ◌||◌, List, [], ◌∷◌, Option, none, some, if◌then◌else◌, eqb,
}
use retentionops_connector.Prelude.Text.{◌==◌}
use retentionops_connector.Prelude.Result.{Result, Check, ok, err, ◌>>=◌, ◌>>◌, refuse_if}
use retentionops_connector.ControlPlane.Client.{raw_url}
use retentionops_connector.Identity.Base64.{std_encode}
use retentionops_connector.Identity.{
  IdentityError, Identity, Stored, StoredAttempt, EnrollmentAttempt, Enrollment, Files, File,
  Directory, Faults, Write, done, refused, cut, owner_only, required, decode_public, decode_seed,
}

-- A mode of 0700 and one of 0600.
abbrev pub directory_mode : ℕ
directory_mode = 448

abbrev pub file_mode : ℕ
file_mode = 384

abbrev pub with_mode : Option ℕ → Directory → Directory
with_mode none d = record d { mode = some directory_mode }
with_mode (some m) d = d

-- `os.MkdirAll` with 0700
abbrev pub made_directory : Directory → Directory
made_directory d = with_mode d.mode d

-- `os.WriteFile` with 0600, which leaves the mode of a file that is there.
abbrev pub overwritten : Option File → List ℕ → File
overwritten none bytes = record { mode = file_mode; content = bytes }
overwritten (some old) bytes = record { mode = old.mode; content = bytes }

module _ (files : Files) (faults : Faults) where
  -- What is left of an attempt whose writing failed.
  abbrev pub failed_attempt :
      IdentityError → List ℕ → Directory → Result IdentityError EnrollmentAttempt × Directory
  failed_attempt e bytes d =
      if faults.clean_up
      then (err e, record d { attempt = some (record { mode = file_mode; content = bytes }) })
      else (err e, d)

  abbrev pub written_attempt :
      Write
      → List ℕ
      → EnrollmentAttempt
      → Directory
      → Result IdentityError EnrollmentAttempt × Directory
  written_attempt refused bytes a d = failed_attempt IdentityError.not_written [] d
  written_attempt (cut got) bytes a d = failed_attempt IdentityError.not_written got d
  written_attempt done bytes a d =
      if faults.close
      then failed_attempt IdentityError.not_written bytes d
      else (ok a, record d { attempt = some (record { mode = file_mode; content = bytes }) })

  abbrev pub encoded_attempt :
      Option (List ℕ)
      → EnrollmentAttempt
      → Directory
      → Result IdentityError EnrollmentAttempt × Directory
  encoded_attempt none a d = (err IdentityError.not_encodable, d)
  encoded_attempt (some bytes) a d =
      if faults.create
      then (err IdentityError.not_created, d)
      else written_attempt faults.write_attempt bytes a d

  -- The seed and the sixteen bytes are random.
  unfoldable pub create_attempt :
      String
      → Option (List ℕ)
      → Option (List ℕ)
      → Directory
      → Result IdentityError EnrollmentAttempt × Directory
  create_attempt organization none random d = (err IdentityError.no_random, d)
  create_attempt organization (some seed) none d = (err IdentityError.no_random, d)
  create_attempt organization (some seed) (some random) d =
      encoded_attempt
        (files.render_attempt (record {
          version = 1;
          attempt_id = raw_url random;
          organization_id = organization;
          private_key_seed = std_encode seed;
        }))
        (record { id = raw_url random; organization_id = organization; private = seed }) d

  unfoldable pub resume_attempt : String → File → Result IdentityError EnrollmentAttempt
  resume_attempt organization f = do
    document ← required (files.parse_attempt f.content) IdentityError.unparsed
    seed ← required (decode_seed document.private_key_seed) IdentityError.unusable_attempt
    refuse_if (not (eqb document.version 1)) IdentityError.unusable_attempt
    refuse_if (not (document.organization_id == organization))
        (IdentityError.other_organization document.organization_id)
    ok (record { id = document.attempt_id; organization_id = organization; private = seed })

  abbrev pub found_attempt :
      String
      → Option (List ℕ)
      → Option (List ℕ)
      → Option File
      → Directory
      → Result IdentityError EnrollmentAttempt × Directory
  found_attempt organization seed random none d = create_attempt organization seed random d
  found_attempt organization seed random (some f) d = (resume_attempt organization f, d)

  unfoldable pub load_or_create :
      String
      → Option (List ℕ)
      → Option (List ℕ)
      → Directory
      → Result IdentityError EnrollmentAttempt × Directory
  load_or_create organization seed random d =
      let protected = record d { mode = some directory_mode } in
      if faults.mkdir
      then (err IdentityError.not_created, d)
      else if faults.chmod
      then (err IdentityError.not_protected, made_directory d)
      else if faults.read_attempt
      then (err IdentityError.not_readable, protected)
      else found_attempt organization seed random d.attempt protected

  unfoldable pub complete_attempt : Directory → Check IdentityError × Directory
  complete_attempt d =
      if faults.remove
      then (err IdentityError.not_removed, d)
      else (ok tt, record d { attempt = none })

  abbrev pub renamed : Directory → Check IdentityError × Directory
  renamed d =
      if faults.rename
      then (err IdentityError.not_installed, d)
      else (ok tt, record d { identity = d.temporary; temporary = none })

  abbrev pub save_bytes : Write → Option (List ℕ) → Directory → Check IdentityError × Directory
  save_bytes w none d = (err IdentityError.not_encodable, d)
  save_bytes refused (some bytes) d = (err IdentityError.not_written, d)
  save_bytes (cut got) (some bytes) d =
      (err IdentityError.not_written, record d { temporary = some (overwritten d.temporary got) })
  save_bytes done (some bytes) d =
      renamed (record d { temporary = some (overwritten d.temporary bytes) })

  abbrev pub stored_of : List ℕ → Enrollment → Stored
  stored_of private e = record {
    version = 1;
    connector_id = e.connector_id;
    organization_id = e.organization_id;
    private_key_seed = std_encode private;
    control_plane_public_key = e.control_plane_public_key;
    enrolled_at = e.issued_at;
  }

  unfoldable pub save : List ℕ → Enrollment → Directory → Check IdentityError × Directory
  save private e d =
      if faults.mkdir_again
      then (err IdentityError.not_created, d)
      else save_bytes faults.write (files.render (stored_of private e)) (made_directory d)

  abbrev pub load_file : File → Result IdentityError Identity
  load_file f = do
    refuse_if (not (owner_only f.mode)) IdentityError.wide_mode
    refuse_if faults.read IdentityError.not_readable
    document ← required (files.parse f.content) IdentityError.unparsed
    refuse_if (not (eqb document.version 1)) IdentityError.other_version
    seed ← required (decode_seed document.private_key_seed) IdentityError.unusable_key
    key ← required (decode_public document.control_plane_public_key) IdentityError.bad_public
    ok (record {
      connector_id = document.connector_id;
      organization_id = document.organization_id;
      private = seed;
      control_plane_key = key;
      enrolled_at = document.enrolled_at;
    })

  unfoldable pub load : Directory → Result IdentityError Identity
  load d = required d.identity IdentityError.absent >>= load_file
