-- ===== src/Sealed/Effective.antt =====
-- internal/config/managed.go: the sources that the operator's file and the overlay on disk give after
-- a restart.
use retentionops_connector.Prelude.{
  ◌≡◌, refl, sym, ap, subst, ◌∙◌, ◌⊎◌, inl, inr, String, Bool, true, false, List, [], ◌∷◌, Option,
  none, some, if◌then◌else◌, arith, Bool-cases, Option-cases,
}
use retentionops_connector.Prelude.Text.{◌==◌, eq_iff, eq_refl}
use retentionops_connector.Prelude.Result.{ok, >>=-eq-ok}
use retentionops_connector.Config.{Source, empty, find_source, replace_source}
use retentionops_connector.Config.Managed.{
  ManagedSource, Entries, managed, with_entry, apply_entry, apply_overlay,
}
use retentionops_connector.Config.Local.{find-replace_same, find-replace_other}
use retentionops_connector.Sealed.{SourceConfiguration, proposed}
use retentionops_connector.Sealed.Narrow.{proposed-managed}
use retentionops_connector.Sealed.Apply.{Configured, managed_entry, set_entry}

-- The entry of a source in the overlay, if it has one that is not null.
abbrev pub find_entry : Entries → String → Option ManagedSource
find_entry [] key = none
find_entry ((name, entry) ∷ rest) key = if name == key then entry else find_entry rest key

abbrev has_entry : Entries → String → Bool
has_entry [] key = false
has_entry ((name, entry) ∷ rest) key = if name == key then true else has_entry rest key

-- A map has one entry for a key.
abbrev pub DistinctKeys : Entries → Type 0
DistinctKeys [] = Unit {0}
DistinctKeys ((name, entry) ∷ rest) = (has_entry rest name ≡ false) × DistinctKeys rest

abbrev pub merged_with : Option ManagedSource → Option Source → Option Source
merged_with entry none = none
merged_with entry (some s) = some (with_entry entry s)

-- The source under a key after a restart: the operator's, with the entry of the overlay.
abbrev pub effective : List (String × Source) → Entries → String → Option Source
effective base entries key = merged_with (find_entry entries key) (find_source base key)

no_entry :
    (rest : Entries) (name : String) → has_entry rest name ≡ false → find_entry rest name ≡ none
no_entry [] name h = refl
no_entry ((other, entry) ∷ rest) name h = ground (arith, no_entry rest name)

merged_with-none : (o : Option Source) → o ≡ merged_with none o
merged_with-none none = refl
merged_with-none (some s) = refl

-- One entry.
entry-effective :
    (id key : String) (entry : Option ManagedSource) (rest : Entries)
    (base changed : List (String × Source)) (found : Option Source)
    → find_source base id ≡ found
    → apply_entry found id entry base ≡ ok changed
    → has_entry rest id ≡ false
    → effective changed rest key ≡ effective base ((id, entry) ∷ rest) key
entry-effective id key entry rest base changed none f h d = absurd (cc h)
entry-effective id key entry rest base changed (some s) f h d =
    let same : replace_source base id (with_entry entry s) ≡ changed = cc h in
    elim (Bool-cases (id == key)) [
      | inl eq ↦
          let at_key = (eq_iff id key).0 eq in
          rw (
            eq,
            ← same,
            ← at_key,
            f,
            find-replace_same base id (with_entry entry s) s f,
            no_entry rest id d,
          )
      | inr ne ↦ rw (ne, ← same, find-replace_other base id key (with_entry entry s) ne)
    ]

-- What `Load` merges is, under each key, the operator's source with its entry of the overlay.
pub apply_overlay-effective :
    (entries : Entries) (base merged : List (String × Source)) (key : String)
    → DistinctKeys entries
    → apply_overlay entries base ≡ ok merged
    → find_source merged key ≡ effective base entries key
unfolding apply_overlay
apply_overlay-effective [] base merged key d h =
    let same : base ≡ merged = cc h in
    subst (λ m. find_source m key ≡ effective base [] key) same (merged_with-none _)
apply_overlay-effective ((id, entry) ∷ rest) base merged key d h =
    let (changed, one, others) = >>=-eq-ok (apply_entry (find_source base id) id entry base) _ h in
    apply_overlay-effective rest changed merged key d.1 others
    ∙ entry-effective id key entry rest base changed (find_source base id) refl one d.0

pub find-set_entry_same :
    (entries : Entries) (id : String) (m : ManagedSource)
    → find_entry (set_entry entries id m) id ≡ some m
unfolding set_entry
find-set_entry_same [] id m = rw (eq_refl id) refl
find-set_entry_same ((name, old) ∷ rest) id m = ground (arith, find-set_entry_same rest id m)

find-set_entry_other :
    (entries : Entries) (id key : String) (m : ManagedSource)
    → (id == key) ≡ false
    → find_entry (set_entry entries id m) key ≡ find_entry entries key
unfolding set_entry
find-set_entry_other [] id key m h = rw h refl
find-set_entry_other ((name, old) ∷ rest) id key m h =
    ground
      (arith, find-set_entry_other rest id key m h, eq_iff name id, eq_iff name key, eq_iff id key)

-- A configuration names an executor, or replaces one that named none.
abbrev pub KeepsRole : SourceConfiguration → Option ManagedSource → Type 0
KeepsRole o none = Unit {0}
KeepsRole o (some m) = (empty o.executor_role ≡ false) ⊎ (empty m.executor_role ≡ true)

managed_over :
    (o : SourceConfiguration) (previous : Option ManagedSource) (s : Source)
    → KeepsRole o previous
    → managed (managed_entry o) (with_entry previous s) ≡ managed (managed_entry o) s
unfolding managed
managed_over o none s h = refl
managed_over o (some m) s (inl named) = elim (Bool-cases (empty m.executor_role)) [
  | inl none_before ↦ rw (named, none_before) refl
  | inr one_before ↦ rw (named, one_before) refl
]
managed_over o (some m) s (inr unnamed) = rw unnamed refl

-- The sources in force are those that a restart gives, where `base` is the operator's file with its
-- defaults.
abbrev pub InForce : List (String × Source) → Configured → Type 0
InForce base c = (key : String) → find_source c.sources key ≡ effective base c.overlay key

-- The source that the entry of an envelope makes of the operator's is the one that is activated.
pub replaced-effective :
    (base : List (String × Source)) (c : Configured) (id key : String) (o : SourceConfiguration)
    (before : Source)
    → InForce base c
    → KeepsRole o (find_entry c.overlay id)
    → find_source c.sources id ≡ some before
    → find_source (replace_source c.sources id (proposed before o)) key
      ≡ effective base (set_entry c.overlay id (managed_entry o)) key
replaced-effective base c id key o before force keeps found = elim (Bool-cases (id == key)) [
  | inl eq ↦ elim (Option-cases (find_source base id)) [
    | inl absent ↦ absurd (cc (rw absent at (force id), found))
    | inr (s, at_base) ↦
        let now : with_entry (find_entry c.overlay id) s ≡ before =
          cc (rw at_base at (force id), found) in
        let new : proposed before o ≡ managed (managed_entry o) s =
          proposed-managed before o
          ∙ ap (managed (managed_entry o)) (sym now)
          ∙ managed_over o (find_entry c.overlay id) s keeps in
        rw (
          ← ((eq_iff id key).0 eq),
          find-replace_same c.sources id (proposed before o) before found,
          find-set_entry_same c.overlay id (managed_entry o),
          at_base,
          new,
        )
  ]
  | inr ne ↦
      rw
        (
          find-replace_other c.sources id key (proposed before o) ne,
          find-set_entry_other c.overlay id key (managed_entry o) ne,
        )
        (force key)
]
