-- ===== src/Execution/Reviewed.antt =====
-- internal/execution/enable.go: what is installed is what was prepared and reviewed.
use retentionops_connector.Prelude.{
  ◌≡◌, refl, sym, ap, subst, ◌∙◌, ◌⊎◌, inl, inr, ℕ, ◌≤◌, String, Bool, false, not, List, ◌∷◌,
  length, ltb, Option, none, some, arith, Bool-cases,
}
use retentionops_connector.Prelude.Int.{pos, eqb_ℤ}
use retentionops_connector.Prelude.Text.{◌==◌, eq_iff}
use retentionops_connector.Prelude.Result.{Result, ok, err, >>=-eq-ok, refuse_if, refuse_if-eq-ok}
use retentionops_connector.Config.Managed.{LoadError}
use retentionops_connector.Config.Load.{Config}
use retentionops_connector.Execution.{
  PrepareOptions, EnableError, Manifest, Bundle, Host, SecretFile, Faults, present, no_bundle,
  bad_manifest, policy_changed, no_pending, pending_changed, secret_too_large, bad_output,
  not_rendered, not_written, propose, prepare, secret_from, check_bundle, install, install_checked,
  apply, check_files, check_enabled,
}

present-ok : {A : Type 0} (e : EnableError) (o : Option A) (a : A) → present e o ≡ ok a → o ≡ some a
present-ok e none a h = absurd (cc h)
present-ok e (some b) a h = cc h

ok_eq : {A : Type 0} (a b : A) → ◌≡◌ {A = Result EnableError A} (ok a) (ok b) → a ≡ b
ok_eq a b h = cc h

same_text : (a b : String) → not (a == b) ≡ false → a ≡ b
same_text a b h = (eq_iff a b).0 (ground (arith, h))

module _ {Raw : Type 0} (digest : Raw → String) (load : Raw → Result LoadError Config) where
  -- A bundle that may be installed over `current`, with this configuration and secret.
  pub record Installable (b : Bundle Raw) (current pending : Raw) (secret : List ℕ) : Type 0 where
    pub document : Manifest
    pub manifest : b.manifest ≡ some document
    pub current_digest : digest current ≡ document.base_config_digest
    pub pending_file : b.pending ≡ some pending
    pub pending_digest : digest pending ≡ document.pending_config_digest
    pub secret_fits : length secret ≤ 65536
    pub enabled : check_enabled document.source_id (load pending) ≡ ok tt

  check_files_sound :
      (b : Bundle Raw) (current : Raw) (document : Manifest) (pending : Raw)
      → check_files digest b current ≡ ok (document, pending)
      → (b.manifest ≡ some document)
        × (digest current ≡ document.base_config_digest)
        × (b.pending ≡ some pending)
        × (digest pending ≡ document.pending_config_digest)
  unfolding check_files
  check_files_sound b current document pending h =
      let (_, _, h1) = >>=-eq-ok (refuse_if (not b.marked) no_bundle) _ h in
      let (m, has_m, h2) = >>=-eq-ok (present bad_manifest b.manifest) _ h1 in
      let (_, _, h3) = >>=-eq-ok (refuse_if (not (eqb_ℤ m.version (pos 1))) bad_manifest) _ h2 in
      let (_, base_same, h4) =
        >>=-eq-ok (refuse_if (not (digest current == m.base_config_digest)) policy_changed) _ h3 in
      let (p, has_p, h5) = >>=-eq-ok (present no_pending b.pending) _ h4 in
      let (_, pending_same, done) =
        >>=-eq-ok (refuse_if (not (digest p == m.pending_config_digest)) pending_changed) _ h5 in
      let same_m : m ≡ document = cc done in
      let same_p : p ≡ pending = cc done in
      (
        present-ok bad_manifest b.manifest m has_m ∙ ap some same_m,
        same_text _ _ (refuse_if-eq-ok _ policy_changed base_same)
            ∙ ap (λ x. x.base_config_digest) same_m,
        present-ok no_pending b.pending p has_p ∙ ap some same_p,
        ap digest (sym same_p)
            ∙ same_text _ _ (refuse_if-eq-ok _ pending_changed pending_same)
            ∙ ap (λ x. x.pending_config_digest) same_m,
      )

  check_bundle_sound :
      (b : Bundle Raw) (current : Raw) (given : List ℕ) (file : Option (Option SecretFile))
      (pending : Raw) (secret : List ℕ)
      → check_bundle digest load b current given file ≡ ok (pending, secret)
      → Installable b current pending secret
  unfolding check_bundle
  check_bundle_sound b current given file pending secret h =
      let ((document, p), files, h1) = >>=-eq-ok (check_files digest b current) _ h in
      let (_, on, h2) = >>=-eq-ok (check_enabled document.source_id (load p)) _ h1 in
      let (s, _, h3) = >>=-eq-ok (secret_from given file) _ h2 in
      let (_, fits, done) = >>=-eq-ok (refuse_if (ltb 65536 (length s)) secret_too_large) _ h3 in
      let (manifest, current_digest, pending_file, pending_digest) =
        check_files_sound b current document p files in
      let same_p : p ≡ pending = cc done in
      let same_s : s ≡ secret = cc done in
      let small : length s ≤ 65536 = ground (arith, refuse_if-eq-ok _ secret_too_large fits) in
      record {
        document = document;
        manifest = manifest;
        current_digest = current_digest;
        pending_file = pending_file ∙ ap some same_p;
        pending_digest = ap digest (sym same_p) ∙ pending_digest;
        secret_fits = subst (λ x. length x ≤ 65536) same_s small;
        enabled = subst (λ x. check_enabled document.source_id (load x) ≡ ok tt) same_p on;
      }

  -- What a host has been given: nothing in the file that is in force, or a configuration that was
  -- checked, with the file before it kept.
  abbrev pub Installs : Bundle Raw → Host Raw → Host Raw → Type 0
  Installs b h h' =
      (h'.config ≡ h.config)
      ⊎ ((secret : List ℕ) × Installable b h.config h'.config secret
          × (h'.secret ≡ some secret)
          × (h'.backups ≡ h.config ∷ h.backups))

  install-Installs :
      (faults : Faults) (b : Bundle Raw) (h : Host Raw) (pending : Raw) (secret : List ℕ)
      → Installable b h.config pending secret
      → Installs b h (install faults pending secret h).1
  unfolding install
  install-Installs faults b h pending secret fit = elim (Bool-cases faults.secret_write) [
    | inl bad ↦ rw bad (inl refl)
    | inr s ↦ elim (Bool-cases faults.backup_write) [
      | inl bad ↦ rw (s, bad) (inl refl)
      | inr k ↦ elim (Bool-cases faults.config_write) [
        | inl bad ↦ rw (s, k, bad) (inl refl)
        | inr w ↦ rw (s, k, w) (inr (secret, fit, refl, refl))
      ]
    ]
  ]

  checked-Installs :
      (faults : Faults) (b : Bundle Raw) (h : Host Raw) (r : Result EnableError (Raw × List ℕ))
      → ((pending : Raw) (secret : List ℕ)
          → r ≡ ok (pending, secret)
          → Installable b h.config pending secret)
      → Installs b h (install_checked faults h r).1
  checked-Installs faults b h (err e) fit = inl refl
  checked-Installs faults b h (ok (pending, secret)) fit =
      install-Installs faults b h pending secret (fit pending secret refl)

  apply-Installs :
      (faults : Faults) (b : Bundle Raw) (given : List ℕ) (file : Option (Option SecretFile))
      (h : Host Raw)
      → Installs b h (apply digest load faults b given file h).1
  unfolding apply
  apply-Installs faults b given file h =
      checked-Installs faults b h (check_bundle digest load b h.config given file)
        (check_bundle_sound b h.config given file)

-- The manifest of a bundle names the digests of the file read at its preparation and of what is
-- proposed.
prepare-manifest :
    {Raw : Type 0} (digest : Raw → String) (parse_url : String → Option (String × String))
    (render : Config → Option Raw) (o : PrepareOptions) (c : Config) (ready : Bool) (base : Raw)
    (written : Bool) (b : Bundle Raw)
    → prepare digest parse_url render o c ready (some base) written ≡ ok b
    → (proposed : Config) × (reviewed : Raw) × (document : Manifest) × (propose parse_url o c
        ≡ ok proposed)
      × (render proposed ≡ some reviewed)
      × (b.manifest ≡ some document)
      × (document.base_config_digest ≡ digest base)
      × (document.pending_config_digest ≡ digest reviewed)
unfolding prepare
prepare-manifest digest parse_url render o c ready base written b h =
    let (proposed, does, h1) = >>=-eq-ok (propose parse_url o c) _ h in
    let (_, _, h2) = >>=-eq-ok (refuse_if (not ready) bad_output) _ h1 in
    let (reviewed, shown, h3) = >>=-eq-ok (present not_rendered (render proposed)) _ h2 in
    let (_, _, done) = >>=-eq-ok (refuse_if (not written) not_written) _ h3 in
    (
      proposed,
      reviewed,
      record {
        version = pos 1;
        source_id = o.source_id;
        base_config_digest = digest base;
        pending_config_digest = digest reviewed;
      },
      does,
      present-ok not_rendered (render proposed) reviewed shown,
      ap (λ x. x.manifest) (sym (ok_eq _ b done)),
      refl,
      refl,
    )

module _ {Raw : Type 0} (digest : Raw → String)
    (digest_injective : (x y : Raw) → digest x ≡ digest y → x ≡ y)
    (load : Raw → Result LoadError Config) (parse_url : String → Option (String × String))
    (render : Config → Option Raw) where
  -- The file in force is as it was; or it was the file that the preparation read, and it is now the
  -- rendering of the configuration that was proposed then, with the file before it kept.
  abbrev pub Reviewed : PrepareOptions → Config → Raw → Host Raw → Host Raw → Type 0
  Reviewed o c base h h' =
      (h'.config ≡ h.config)
      ⊎ ((proposed : Config) × (propose parse_url o c ≡ ok proposed)
          × (render proposed ≡ some h'.config)
          × (h.config ≡ base)
          × (h'.backups ≡ base ∷ h.backups))

  -- Whatever is installed from a bundle with the manifest of a preparation is what that preparation
  -- rendered for review, over the file that it read: a bundle or a file that was changed in between
  -- is refused, and the file in force stays. Digests are assumed to differ where contents do.
  pub apply-Reviewed :
      (o : PrepareOptions) (c : Config) (ready written : Bool) (base : Raw) (b b' : Bundle Raw)
      (faults : Faults) (given : List ℕ) (file : Option (Option SecretFile)) (h : Host Raw)
      → prepare digest parse_url render o c ready (some base) written ≡ ok b
      → b'.manifest ≡ b.manifest
      → Reviewed o c base h (apply digest load faults b' given file h).1
  apply-Reviewed o c ready written base b b' faults given file h made same =
      let (proposed, reviewed, document, does, shown, has, base_digest, pending_digest) =
        prepare-manifest digest parse_url render o c ready base written b made in
      elim (apply-Installs digest load faults b' given file h) [
        | inl kept ↦ inl kept
        | inr (secret, fit, _, backups) ↦
            let one : fit.document ≡ document = cc (fit.manifest, same, has) in
            let before : h.config ≡ base =
              digest_injective _ _
                (fit.current_digest ∙ ap (λ x. x.base_config_digest) one ∙ base_digest) in
            let after : (apply digest load faults b' given file h).1.config ≡ reviewed =
              digest_injective _ _
                (fit.pending_digest ∙ ap (λ x. x.pending_config_digest) one ∙ pending_digest) in
            inr (
              proposed,
              does,
              shown ∙ ap some (sym after),
              before,
              backups ∙ ap (λ x. x ∷ h.backups) before,
            )
      ]
