-- ===== src/Scope/Chosen.antt =====
-- internal/scope/scope.go: what a choice of schemas changes.
use retentionops_connector.Prelude.{
  ◌≡◌, ◌≢◌, refl, sym, ap, ◌∙◌, ◌||◌, inl, inr, String, true, not, List, [], ◌∷◌, is_nil, Option,
  none, some, arith, Bool-cases,
}
use retentionops_connector.Prelude.Text.{◌==◌, eq_iff, contains}
use retentionops_connector.Prelude.Result.{Check, ok, err, >>=-eq-ok, refuse_if, for_each}
use retentionops_connector.Config.{Source, find_source, replace_source, pending}
use retentionops_connector.Config.Managed.{LoadError}
use retentionops_connector.Config.Load.{Config, validate}
use retentionops_connector.Scope.{
  ScopeError, not_synced, not_configured, none_chosen, outside_grants, insert_text, sort_texts,
  compact_after, compact, Disk, Faults, with_schemas, check_choice, changed_config, install,
  rendered, validated, checked, set_found, set,
}

contains-insert_text :
    (s x : String) (xs : List String) → contains s (insert_text x xs) ≡ contains s (x ∷ xs)
unfolding contains insert_text
contains-insert_text s x [] = refl
contains-insert_text s x (y ∷ ys) = ground (arith, contains-insert_text s x ys)

contains-sort_texts : (s : String) (xs : List String) → contains s (sort_texts xs) ≡ contains s xs
unfolding contains sort_texts
contains-sort_texts s [] = refl
contains-sort_texts s (x ∷ xs) =
    contains-insert_text s x (sort_texts xs) ∙ ap (λ b. x == s || b) (contains-sort_texts s xs)

contains-compact_after :
    (s last : String) (xs : List String)
    → contains s (last ∷ compact_after last xs) ≡ contains s (last ∷ xs)
unfolding contains compact_after
contains-compact_after s last [] = refl
contains-compact_after s last (x ∷ xs) = elim (Bool-cases (x == last)) [
  | inl same ↦
      let e = (eq_iff x last).0 same in
      rw same (ground (arith, contains-compact_after s x xs, eq_iff x s, eq_iff last s))
  | inr other ↦ rw other (ground (arith, contains-compact_after s x xs))
]

contains-compact : (s : String) (xs : List String) → contains s (compact xs) ≡ contains s xs
unfolding compact
contains-compact s [] = refl
contains-compact s (x ∷ xs) = contains-compact_after s x xs

-- A choice that was made: the schemas of the source are the chosen, all of them within reach, and
-- nothing else of the source or of another is changed; the file is the new configuration, and the old
-- file was kept.
pub record Set {Raw : Type 0} (parse_url : String → Option (String × String))
    (render : Config → Option Raw) (c c' : Config) (id : String) (chosen reachable : List String)
    (d d' : Disk Raw) : Type 0 where
  pub before : Source
  pub schemas : List String
  pub declared : find_source c.sources id ≡ some before
  pub changed :
      c' ≡ record c { sources = replace_source c.sources id (with_schemas before schemas) }
  pub as_chosen : (s : String) → contains s schemas ≡ contains s chosen
  pub reached : (s : String) → contains s schemas ≡ true → contains s reachable ≡ true
  pub valid : validate parse_url c' ≡ ok tt
  pub written : render c' ≡ some d'.file
  pub kept : d'.backups ≡ d.file ∷ d.backups

chosen-reached :
    (reachable chosen : List String) (s : String)
    → for_each chosen (λ name. refuse_if (not (contains name reachable)) outside_grants) ≡ ok tt
    → contains s chosen ≡ true
    → contains s reachable ≡ true
unfolding contains
chosen-reached reachable [] s h i = absurd (cc i)
chosen-reached reachable (x ∷ xs) s h i = ground (arith, chosen-reached reachable xs s, eq_iff x s)

-- No check of a choice is about the disk.
each_settled :
    (reachable xs : List String)
    → for_each xs (λ name. refuse_if (not (contains name reachable)) outside_grants)
      ≢ err not_synced
each_settled reachable [] h = cc
each_settled reachable (x ∷ xs) h = elim (Bool-cases (contains x reachable)) [
  | inl inside ↦ each_settled reachable xs (rw inside at h)
  | inr beyond ↦ cc (rw beyond at h)
]

choice_settled :
    (reachable : List String) (s : Source) (chosen : List String)
    → check_choice s chosen reachable ≢ err not_synced
unfolding check_choice
choice_settled reachable s chosen h = elim (Bool-cases (pending s)) [
  | inl waits ↦ cc (rw waits at h)
  | inr ready ↦ elim (Bool-cases (is_nil chosen)) [
    | inl none_given ↦ cc (rw (ready, none_given) at h)
    | inr given ↦ each_settled reachable chosen (rw (ready, given) at h)
  ]
]

-- The outcome of a choice: it was made, or the file is as it was; where the directory could not be
-- synchronised, there is an error although it was made.
abbrev pub Settles :
    {Raw : Type 0}
    → (String → Option (String × String))
    → (Config → Option Raw)
    → Config
    → String
    → List String
    → List String
    → Disk Raw
    → Check ScopeError × Config × Disk Raw
    → Type 0
Settles parse_url render c id chosen reachable d (ok u, c', d') =
    Set parse_url render c c' id chosen reachable d d'
Settles parse_url render c id chosen reachable d (err not_synced, c', d') =
    Set parse_url render c c' id chosen reachable d d'
Settles parse_url render c id chosen reachable d (err e, c', d') = d'.file ≡ d.file

module _ (parse_url : String → Option (String × String)) {Raw : Type 0}
    (render : Config → Option Raw) (faults : Faults) (c : Config) (id : String)
    (chosen reachable : List String) (d : Disk Raw) where
  abbrev Good : Check ScopeError × Config × Disk Raw → Type 0
  Good = Settles parse_url render c id chosen reachable d

  install-Good :
      (s : Source) (content : Raw)
      → find_source c.sources id ≡ some s
      → check_choice s chosen reachable ≡ ok tt
      → validate parse_url (changed_config c id s chosen) ≡ ok tt
      → render (changed_config c id s chosen) ≡ some content
      → Good (rendered parse_url render faults (changed_config c id s chosen) (some content) d)
  unfolding install check_choice
  install-Good s content found allowed valid shown = elim (Bool-cases faults.file_read) [
    | inl bad ↦ rw bad refl
    | inr r ↦ elim (Bool-cases faults.backup_write) [
      | inl bad ↦ rw (r, bad) refl
      | inr b ↦ elim (Bool-cases faults.file_write) [
        | inl bad ↦ rw (r, b, bad) refl
        | inr w ↦
            let (_, _, a1) = >>=-eq-ok (refuse_if (pending s) not_configured) _ allowed in
            let (_, _, each) = >>=-eq-ok (refuse_if (is_nil chosen) none_chosen) _ a1 in
            let same = λ (x : String).
              contains-compact x (sort_texts chosen) ∙ contains-sort_texts x chosen in
            let made : Set parse_url render c (changed_config c id s chosen) id chosen reachable d
                (record { file = content; backups = d.file ∷ d.backups }) =
              record {
                before = s;
                schemas = compact (sort_texts chosen);
                declared = found;
                changed = refl;
                as_chosen = same;
                reached = λ x i. chosen-reached reachable chosen x each (sym (same x) ∙ i);
                valid = valid;
                written = shown;
                kept = refl;
              } in
            elim (Bool-cases faults.directory_sync) [
              | inl bad ↦ rw (r, b, w, bad) made
              | inr done ↦ rw (r, b, w, done) made
            ]
      ]
    ]
  ]

  rendered-Good :
      (s : Source) (shown : Option Raw)
      → find_source c.sources id ≡ some s
      → check_choice s chosen reachable ≡ ok tt
      → validate parse_url (changed_config c id s chosen) ≡ ok tt
      → render (changed_config c id s chosen) ≡ shown
      → Good (rendered parse_url render faults (changed_config c id s chosen) shown d)
  rendered-Good s none found allowed valid e = refl
  rendered-Good s (some content) found allowed valid e =
      install-Good s content found allowed valid e

  validated-Good :
      (s : Source) (v : Check LoadError)
      → find_source c.sources id ≡ some s
      → check_choice s chosen reachable ≡ ok tt
      → validate parse_url (changed_config c id s chosen) ≡ v
      → Good (validated parse_url render faults c (changed_config c id s chosen) v d)
  validated-Good s (err e) found allowed v = refl
  validated-Good s (ok u) found allowed v = rendered-Good s _ found allowed v refl

  checked-Good :
      (s : Source) (v : Check ScopeError)
      → find_source c.sources id ≡ some s
      → check_choice s chosen reachable ≡ v
      → Good (checked parse_url render faults c id s chosen v d)
  checked-Good s (err not_synced) found v = absurd (choice_settled reachable s chosen v)
  checked-Good s (err e) found v = refl
  checked-Good s (ok u) found v = validated-Good s _ found v refl

  found-Good :
      (found : Option Source)
      → find_source c.sources id ≡ found
      → Good (set_found parse_url render faults c id chosen reachable found d)
  found-Good none f = refl
  found-Good (some s) f = checked-Good s _ f refl

  -- A choice of schemas that is made changes the schemas of that source alone, to exactly the chosen,
  -- all of which the reader can reach; the configuration that results is valid, it is what the file
  -- then holds, and the file before it was kept. A choice that fails leaves the file
  -- as it was, unless it fails at the synchronisation of the directory: then it was made all the same.
  pub set-Settles :
      Settles parse_url render c id chosen reachable d
        (set parse_url render faults c id chosen reachable d)
  unfolding set
  set-Settles = found-Good (find_source c.sources id) refl
