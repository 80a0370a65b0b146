-- ===== src/Execution/Enabled.antt =====
-- internal/execution/enable.go: what the preparation of a bundle proposes.
use retentionops_connector.Prelude.{
  ◌≡◌, refl, subst, ◌⊎◌, inl, inr, String, Bool, true, false, not, ◌||◌, List, [], ◌∷◌, ◌++◌,
  is_nil, any, map, Option, none, some, In, here, there, arith, or-eq-false,
}
use retentionops_connector.Prelude.Int.{pos, leb_ℤ}
use retentionops_connector.Prelude.Text.{◌==◌, eq_iff}
use retentionops_connector.Prelude.Result.{Check, ok, err, >>=-eq-ok, refuse_if, refuse_if-eq-ok}
use retentionops_connector.Policy.{TableRule, Action, allows, same_action, grants_delete}
use retentionops_connector.Config.{Source, discovery_only, find_source, replace_source}
use retentionops_connector.Config.Separated.{DeletesSafely, validate_source-DeletesSafely}
use retentionops_connector.Config.Managed.{LoadError}
use retentionops_connector.Config.Load.{Config, validate}
use retentionops_connector.Config.Local.{find-replace_same, find-replace_other}
use retentionops_connector.Config.Loaded.{validate-find}
use retentionops_connector.Execution.{
  PrepareOptions, Table, no_table, ceilings, not_discovery_only, table_rule, enabled,
  declared_or_absent, valid_or_invalid, propose,
}

-- A source that could not delete, and can delete what the operator named.
pub record Enabled (o : PrepareOptions) (c c' : Config) : Type 0 where
  pub before : Source
  pub declared : find_source c.sources o.source_id ≡ some before
  pub discovery : before.mode ≡ discovery_only
  pub no_grant : grants_delete before.safety ≡ false
  pub after : find_source c'.sources o.source_id ≡ some (enabled o before)
  pub safe : DeletesSafely (enabled o before)
  pub granted :
      (r : TableRule)
      → In r (enabled o before).safety.tables
      → allows r Action.delete ≡ true
      → In r (map (table_rule o) o.tables)
  pub others :
      (id : String)
      → (o.source_id == id) ≡ false
      → find_source c'.sources id ≡ find_source c.sources id

any-In :
    {r : TableRule} {rs : List TableRule}
    → In r rs
    → any (λ x. allows x Action.delete) rs ≡ false
    → allows r Action.delete ≡ false
any-In here h = ground arith
any-In (there i) h = any-In i (ground arith)

In-append : {A : Type 0} (xs ys : List A) {a : A} → In a (xs ++ ys) → In a xs ⊎ In a ys
In-append [] ys i = inr i
In-append (x ∷ xs) ys here = inl here
In-append (x ∷ xs) ys (there i) = elim (In-append xs ys i) [ inl l ↦ inl (there l) | inr r ↦ inr r ]

enabled-granted :
    (o : PrepareOptions) (s : Source) (r : TableRule)
    → grants_delete s.safety ≡ false
    → In r (enabled o s).safety.tables
    → allows r Action.delete ≡ true
    → In r (map (table_rule o) o.tables)
unfolding enabled grants_delete
enabled-granted o s r no_grant i allowed =
    elim (In-append s.safety.tables (map (table_rule o) o.tables) i) [
      | inl old ↦ absurd (cc (any-In old no_grant, allowed))
      | inr new ↦ new
    ]

any-append-right :
    (p : TableRule → Bool) (xs ys : List TableRule) → any p ys ≡ true → any p (xs ++ ys) ≡ true
any-append-right p [] ys h = h
any-append-right p (x ∷ xs) ys h = ground (arith, any-append-right p xs ys h)

new-grants :
    (o : PrepareOptions) (ts : List (Table String))
    → is_nil ts ≡ false
    → any (λ r. allows r Action.delete) (map (table_rule o) ts) ≡ true
unfolding allows same_action
new-grants o [] h = absurd (cc h)
new-grants o (t ∷ ts) h = refl

enabled-grants :
    (o : PrepareOptions) (s : Source)
    → is_nil o.tables ≡ false
    → grants_delete (enabled o s).safety ≡ true
unfolding enabled grants_delete
enabled-grants o s some_table =
    any-append-right (λ r. allows r Action.delete) s.safety.tables (map (table_rule o) o.tables)
      (new-grants o o.tables some_table)

declared-ok : (f : Option Source) (s : Source) → declared_or_absent f ≡ ok s → f ≡ some s
declared-ok none s h = absurd (cc h)
declared-ok (some t) s h = cc h

valid-ok : (v : Check LoadError) {r : Unit {0}} → valid_or_invalid v ≡ ok r → v ≡ ok tt
valid-ok (ok u) h = refl
valid-ok (err e) h = absurd (cc h)

-- A configuration is proposed for a declared source that is in mode discovery and grants no delete;
-- in it the source is in mode execution with a valid policy and an executor that is not the reader,
-- the only tables that it may delete from are those the operator named, and the other sources are
-- unchanged.
pub propose-Enabled :
    (parse_url : String → Option (String × String)) (o : PrepareOptions) (c c' : Config)
    → propose parse_url o c ≡ ok c'
    → Enabled o c c'
unfolding propose
propose-Enabled parse_url o c c' h =
    let (_, named, h1) = >>=-eq-ok (refuse_if (is_nil o.tables) no_table) _ h in
    let (_, _, h2) =
      >>=-eq-ok
        (refuse_if (leb_ℤ o.max_delete_rows (pos 0) || leb_ℤ o.max_batch_size (pos 0)) ceilings) _
        h1 in
    let (s, there_is, h3) =
      >>=-eq-ok (declared_or_absent (find_source c.sources o.source_id)) _ h2 in
    let (_, was, h4) =
      >>=-eq-ok
        (refuse_if (not (s.mode == discovery_only) || grants_delete s.safety) not_discovery_only) _
        h3 in
    let proposed = record c { sources = replace_source c.sources o.source_id (enabled o s) } in
    let (_, passed, done) = >>=-eq-ok (valid_or_invalid (validate parse_url proposed)) _ h4 in
    let found = declared-ok _ s there_is in
    let (in_discovery, no_grant) =
      or-eq-false (not (s.mode == discovery_only)) (grants_delete s.safety)
        (refuse_if-eq-ok _ not_discovery_only was) in
    let after = find-replace_same c.sources o.source_id (enabled o s) s found in
    let same : proposed ≡ c' = cc done in
    let some_table = refuse_if-eq-ok (is_nil o.tables) no_table named in
    subst (Enabled o c) same (record {
      before = s;
      declared = found;
      discovery = (eq_iff s.mode discovery_only).0 (ground (arith, in_discovery));
      no_grant = no_grant;
      after = after;
      safe =
          validate_source-DeletesSafely (enabled o s)
            (validate-find parse_url proposed o.source_id (enabled o s) (valid-ok _ passed) after)
            (enabled-grants o s some_table);
      granted = λ r i allowed. enabled-granted o s r no_grant i allowed;
      others = λ id other. find-replace_other c.sources o.source_id id (enabled o s) other;
    })
