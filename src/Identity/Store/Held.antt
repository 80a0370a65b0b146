-- ===== src/Identity/Store/Held.antt =====
-- internal/identity/identity.go: the key that the files of a directory hold, through the calls that
-- read and write them.
use retentionops_connector.Prelude.{
  ◌≡◌, refl, sym, subst, ap, ◌∙◌, ◌⊎◌, inl, inr, ℕ, String, Bool, true, false, not, List, Option,
  none, some, All, arith, Bool-cases, eqb, length,
}
use retentionops_connector.Prelude.Text.{◌==◌}
use retentionops_connector.Prelude.Result.{Result, Check, ok, err, ◌>>◌, >>=-eq-ok, refuse_if}
use retentionops_connector.Identity.Base64.{std_encode}
use retentionops_connector.Identity.Base64.RoundTrip.{IsByte, decode-encode}
use retentionops_connector.Identity.{
  IdentityError, Stored, StoredAttempt, EnrollmentAttempt, Enrollment, Files, File, Directory,
  Faults, Write, done, refused, cut, decode_seed, decode_public, required, sized,
}
use retentionops_connector.Identity.Store.{
  load_or_create, resume_attempt, save, save_bytes, renamed, overwritten, made_directory, with_mode,
  stored_of,
}

-- The file of the attempt holds the seed of a private key.
abbrev pub AttemptHolds : Files → List ℕ → Directory → Type 0
AttemptHolds files seed d =
    (f : File) × (a : StoredAttempt) × (d.attempt ≡ some f)
    × (files.parse_attempt f.content ≡ some a)
    × (decode_seed a.private_key_seed ≡ some seed)

-- The file of the identity does.
abbrev pub IdentityHolds : Files → List ℕ → Directory → Type 0
IdentityHolds files seed d =
    (f : File) × (s : Stored) × (d.identity ≡ some f)
    × (files.parse f.content ≡ some s)
    × (decode_seed s.private_key_seed ≡ some seed)

abbrev pub Holds : Files → List ℕ → Directory → Type 0
Holds files seed d = AttemptHolds files seed d ⊎ IdentityHolds files seed d

-- What is rendered as an identity file is parsed to a document with the same seed.
abbrev pub Rereads : Files → Type 0
Rereads files =
    (s : Stored) (b : List ℕ)
    → files.render s ≡ some b
    → (t : Stored) × (files.parse b ≡ some t) × (t.private_key_seed ≡ s.private_key_seed)

-- A key is 32 bytes.
abbrev pub IsSeed : List ℕ → Type 0
IsSeed seed = (length seed ≡ 32) × All IsByte seed

pub decode_seed-encode : (seed : List ℕ) → IsSeed seed → decode_seed (std_encode seed) ≡ some seed
unfolding decode_public
decode_seed-encode seed (size, bytes) =
    let fits : eqb (length seed) 32 ≡ true = ground arith in
    ap sized (decode-encode seed bytes) ∙ rw fits refl

required-ok : {E A : Type 0} (o : Option A) (e : E) {a : A} → required o e ≡ ok a → o ≡ some a
required-ok none e h = absurd (cc h)
required-ok (some b) e h = cc

some_eq : {A : Type 0} {a b : A} (o : Option A) → o ≡ some a → o ≡ some b → a ≡ b
some_eq o h k = cc

behind_checks :
    {A : Type 0} (b c : Bool) (e f : IdentityError) {x y : A}
    → (refuse_if b e >> (refuse_if c f >> ok x)) ≡ ok y
    → x ≡ y
behind_checks true c e f h = absurd (cc h)
behind_checks false true e f h = absurd (cc h)
behind_checks false false e f h = cc

made-attempt : (m : Option ℕ) (d : Directory) → (with_mode m d).attempt ≡ d.attempt
made-attempt none d = refl
made-attempt (some m) d = refl

made-identity : (m : Option ℕ) (d : Directory) → (with_mode m d).identity ≡ d.identity
made-identity none d = refl
made-identity (some m) d = refl

module _ (files : Files) (faults : Faults) (seed : List ℕ) where
  -- An attempt that is there is the one that goes on, or there is an error.
  abbrev pub Resumes : Result IdentityError EnrollmentAttempt → Type 0
  Resumes (ok a) = a.private ≡ seed
  Resumes (err e) = Unit

  resumed-private :
      (organization : String) (f : File) (a : StoredAttempt) (b : EnrollmentAttempt)
      → files.parse_attempt f.content ≡ some a
      → decode_seed a.private_key_seed ≡ some seed
      → resume_attempt files faults organization f ≡ ok b
      → b.private ≡ seed
  unfolding resume_attempt
  resumed-private organization f a b p s h =
      let (document, parsed, h1) = >>=-eq-ok (required (files.parse_attempt f.content) _) _ h in
      let same : document ≡ a = some_eq _ (required-ok _ _ parsed) p in
      let (found, decoded, h2) =
        >>=-eq-ok (required (decode_seed document.private_key_seed) _) _ h1 in
      let at_a : decode_seed a.private_key_seed ≡ some found =
        subst (λ (x : StoredAttempt). decode_seed x.private_key_seed ≡ some found) same
          (required-ok _ _ decoded) in
      let checks =
        behind_checks (not (eqb document.version 1))
          (not (document.organization_id == organization)) IdentityError.unusable_attempt
          (IdentityError.other_organization document.organization_id) h2 in
      let its_own : b.private ≡ found = ap (λ (x : EnrollmentAttempt). x.private) (sym checks) in
      its_own ∙ some_eq _ at_a s

  resumed-Resumes :
      (organization : String) (f : File) (a : StoredAttempt)
      (r : Result IdentityError EnrollmentAttempt)
      → files.parse_attempt f.content ≡ some a
      → decode_seed a.private_key_seed ≡ some seed
      → resume_attempt files faults organization f ≡ r
      → Resumes r
  resumed-Resumes organization f a (err e) p s h = tt
  resumed-Resumes organization f a (ok b) p s h = resumed-private organization f a b p s h

  -- What `load_or_create` makes of a directory with an attempt.
  abbrev pub Continues : Directory → Result IdentityError EnrollmentAttempt × Directory → Type 0
  Continues d r = Resumes r.0 × (r.1.attempt ≡ d.attempt)

  pub load_or_create-Continues :
      (organization : String) (fresh random : Option (List ℕ)) (d : Directory)
      → AttemptHolds files seed d
      → Continues d (load_or_create files faults organization fresh random d)
  unfolding load_or_create
  load_or_create-Continues organization fresh random d (f, a, there, p, s) =
      elim (Bool-cases faults.mkdir) [
        | inl bad ↦ simp bad (tt, refl)
        | inr made ↦ elim (Bool-cases faults.chmod) [
          | inl bad ↦ simp (made, bad) (tt, made-attempt d.mode d)
          | inr safe ↦ elim (Bool-cases faults.read_attempt) [
            | inl bad ↦ simp (made, safe, bad) (tt, refl)
            | inr read ↦
                simp (made, safe, read, there) (resumed-Resumes organization f a _ p s refl, refl)
          ]
        ]
      ]

  -- The write of an identity fails, and the attempt is as it was, or the identity holds the key.
  abbrev pub Saves : Directory → Check IdentityError × Directory → Type 0
  Saves d (err e, after) = after.attempt ≡ d.attempt
  Saves d (ok u, after) = IdentityHolds files seed after

  renamed-Saves :
      (d0 d : Directory) (f : File) (s : Stored)
      → d.temporary ≡ some f
      → files.parse f.content ≡ some s
      → decode_seed s.private_key_seed ≡ some seed
      → d.attempt ≡ d0.attempt
      → Saves d0 (renamed files faults d)
  renamed-Saves d0 d f s written parsed decoded same = elim (Bool-cases faults.rename) [
    | inl bad ↦ simp bad same
    | inr fine ↦ simp fine (f, s, written, parsed, decoded)
  ]

  save_bytes-Saves :
      (e : Enrollment) (w : Write) (bytes : Option (List ℕ)) (d0 d : Directory)
      → IsSeed seed
      → Rereads files
      → files.render (stored_of files faults seed e) ≡ bytes
      → d.attempt ≡ d0.attempt
      → Saves d0 (save_bytes files faults w bytes d)
  save_bytes-Saves e w none d0 d key law r same = same
  save_bytes-Saves e refused (some bytes) d0 d key law r same = same
  save_bytes-Saves e (cut got) (some bytes) d0 d key law r same = same
  save_bytes-Saves e done (some bytes) d0 d key law r same =
      let (t, parsed, its_seed) = law (stored_of files faults seed e) bytes r in
      renamed-Saves d0 (record d { temporary = some (overwritten d.temporary bytes) })
        (overwritten d.temporary bytes) t refl (overwritten-content d.temporary bytes parsed)
        (ap decode_seed its_seed ∙ decode_seed-encode seed key) same
    where
      overwritten-content :
          (old : Option File) (bytes : List ℕ) {o : Option Stored}
          → files.parse bytes ≡ o
          → files.parse (overwritten old bytes).content ≡ o
      overwritten-content none bytes h = h
      overwritten-content (some old) bytes h = h

  pub save-Saves :
      (e : Enrollment) (d : Directory)
      → IsSeed seed
      → Rereads files
      → Saves d (save files faults seed e d)
  unfolding save
  save-Saves e d key law = elim (Bool-cases faults.mkdir_again) [
    | inl bad ↦ simp bad refl
    | inr made ↦ simp made (
        save_bytes-Saves e faults.write _ d (made_directory d) key law refl (made-attempt d.mode d))
  ]
