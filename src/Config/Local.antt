-- ===== src/Config/Local.antt =====
-- internal/config: what stays the operator's when a configuration is loaded.
use retentionops_connector.Prelude.{
  ◌≡◌, refl, sym, subst, ◌∙◌, String, false, List, [], ◌∷◌, Option, none, some, arith, Bool-cases,
  inl, inr,
}
use retentionops_connector.Prelude.Text.{◌==◌, eq_iff}
use retentionops_connector.Prelude.Result.{ok, >>=-eq-ok}
use retentionops_connector.Config.{Source, empty, find_source, replace_source}
use retentionops_connector.Config.Managed.{
  ManagedSource, Entries, managed, with_entry, apply_entry, apply_overlay,
}

-- Another connection alone.
pub record KeepsLocal (before after : Source) : Type 0 where
  pub safety : after.safety ≡ before.safety
  pub mode : after.mode ≡ before.mode
  pub type_name : after.type_name ≡ before.type_name
  pub configured_by : after.configured_by ≡ before.configured_by
  pub ca_file : after.tls.ca_file ≡ before.tls.ca_file
  pub reader_password : after.reader.password ≡ before.reader.password
  pub executor_password : after.executor.password ≡ before.executor.password

pub KeepsLocal-refl : (s : Source) → KeepsLocal s s
KeepsLocal-refl s = record {
  safety = refl;
  mode = refl;
  type_name = refl;
  configured_by = refl;
  ca_file = refl;
  reader_password = refl;
  executor_password = refl;
}

pub KeepsLocal-trans : {a b c : Source} → KeepsLocal a b → KeepsLocal b c → KeepsLocal a c
KeepsLocal-trans p q = record {
  safety = q.safety ∙ p.safety;
  mode = q.mode ∙ p.mode;
  type_name = q.type_name ∙ p.type_name;
  configured_by = q.configured_by ∙ p.configured_by;
  ca_file = q.ca_file ∙ p.ca_file;
  reader_password = q.reader_password ∙ p.reader_password;
  executor_password = q.executor_password ∙ p.executor_password;
}

managed-password :
    (m : ManagedSource) (s : Source) → (managed m s).executor.password ≡ s.executor.password
unfolding managed
managed-password m s = elim (Bool-cases (empty m.executor_role)) [
  | inl none_named ↦ rw none_named refl
  | inr named ↦ rw named refl
]

pub managed-KeepsLocal : (m : ManagedSource) (s : Source) → KeepsLocal s (managed m s)
unfolding managed
managed-KeepsLocal m s = record {
  safety = refl;
  mode = refl;
  type_name = refl;
  configured_by = refl;
  ca_file = refl;
  reader_password = refl;
  executor_password = managed-password m s;
}

with_entry-KeepsLocal : (o : Option ManagedSource) (s : Source) → KeepsLocal s (with_entry o s)
with_entry-KeepsLocal none s = KeepsLocal-refl s
with_entry-KeepsLocal (some m) s = managed-KeepsLocal m s

pub find-replace_same :
    (sources : List (String × Source)) (id : String) (s old : Source)
    → find_source sources id ≡ some old
    → find_source (replace_source sources id s) id ≡ some s
unfolding find_source replace_source
find-replace_same [] id s old h = cc
find-replace_same ((name, x) ∷ rest) id s old h = ground (arith, find-replace_same rest id s old)

pub find-replace_other :
    (sources : List (String × Source)) (id key : String) (s : Source)
    → (id == key) ≡ false
    → find_source (replace_source sources id s) key ≡ find_source sources key
unfolding find_source replace_source
find-replace_other [] id key s h = refl
find-replace_other ((name, x) ∷ rest) id key s h =
    ground
      (arith, find-replace_other rest id key s h, eq_iff name id, eq_iff name key, eq_iff id key)

-- Every source of `after` is one of `before` with another connection.
abbrev pub AllKept : List (String × Source) → List (String × Source) → Type 0
AllKept before after =
    (key : String) (s : Source)
    → find_source after key ≡ some s
    → (d : Source) × (find_source before key ≡ some d) × KeepsLocal d s

pub replace-AllKept :
    (sources : List (String × Source)) (id : String) (s old : Source)
    → find_source sources id ≡ some old
    → KeepsLocal old s
    → AllKept sources (replace_source sources id s)
replace-AllKept sources id s old found kept key t h = elim (Bool-cases (id == key)) [
  | inl same ↦
      let at_id : find_source sources key ≡ some old =
        subst (λ k. find_source sources k ≡ some old) ((eq_iff id key).0 same) found in
      let new : find_source (replace_source sources id s) key ≡ some s =
        subst (λ k. find_source (replace_source sources id s) k ≡ some s) ((eq_iff id key).0 same)
          (find-replace_same sources id s old found) in
      let one : s ≡ t = cc in (old, at_id, subst (λ u. KeepsLocal old u) one kept)
  | inr other ↦ (t, sym (find-replace_other sources id key s other) ∙ h, KeepsLocal-refl t)
]

entry-AllKept :
    (id : String) (entry : Option ManagedSource) (sources changed : List (String × Source))
    (found : Option Source)
    → find_source sources id ≡ found
    → apply_entry found id entry sources ≡ ok changed
    → AllKept sources changed
entry-AllKept id entry sources changed none f h = absurd (cc h)
entry-AllKept id entry sources changed (some s) f h =
    let same : replace_source sources id (with_entry entry s) ≡ changed = cc in
    subst (AllKept sources) same
      (replace-AllKept sources id (with_entry entry s) s f (with_entry-KeepsLocal entry s))

pub apply_overlay-AllKept :
    (entries : Entries) (sources merged : List (String × Source))
    → apply_overlay entries sources ≡ ok merged
    → AllKept sources merged
unfolding apply_overlay
apply_overlay-AllKept [] sources merged h key s found = (s, cc (h, found), KeepsLocal-refl s)
apply_overlay-AllKept ((id, entry) ∷ rest) sources merged h key s found =
    let (changed, applied, others) =
      >>=-eq-ok (apply_entry (find_source sources id) id entry sources) _ h in
    let (d, at_changed, kept) = apply_overlay-AllKept rest changed merged others key s found in
    let (d0, at_sources, kept0) =
      entry-AllKept id entry sources changed (find_source sources id) refl applied key d
        at_changed in
    (d0, at_sources, KeepsLocal-trans kept0 kept)
