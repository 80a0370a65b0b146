-- ===== src/Policy/Validate/Distinct.antt =====
-- A validated policy has one rule for a table, so that the rule a lookup finds is the only one.
use retentionops_connector.Prelude.{
  ◌≡◌, inl, inr, String, true, false, ◌&&◌, List, [], ◌∷◌, some, In, here, there, arith, Bool-cases,
  and-eq-true,
}
use retentionops_connector.Prelude.Text.{◌==◌, eq_iff, eq_refl, contains, contains-cons_false}
use retentionops_connector.Prelude.Result.{ok}
use retentionops_connector.Protocol.Job.{Target}
use retentionops_connector.Policy.{Safety, TableRule, find_rule}
use retentionops_connector.Policy.Validate.{validate_safety, validate_tables, table_key}

abbrev pub target_of : TableRule → Target
target_of r = record { schema = r.schema; table = r.table }

same_key :
    (x r : TableRule)
    → (x.schema == r.schema && x.table == r.table) ≡ true
    → (table_key x == table_key r) ≡ true
same_key x r h =
    let (schemas, tables) = and-eq-true (x.schema == r.schema) (x.table == r.table) h in
    rw ((eq_iff x.schema r.schema).0 schemas, (eq_iff x.table r.table).0 tables)
      (eq_refl (table_key r))

tables_step :
    (s : Safety) (seen : List String) (x : TableRule) (xs : List TableRule)
    → validate_tables s seen (x ∷ xs) ≡ ok tt
    → (contains (table_key x) seen ≡ false) × (validate_tables s (table_key x ∷ seen) xs ≡ ok tt)
unfolding validate_tables
tables_step s seen x xs h = ground arith

tables_distinct :
    (s : Safety) (seen : List String) (rs : List TableRule) (r : TableRule)
    → validate_tables s seen rs ≡ ok tt
    → In r rs
    → (contains (table_key r) seen ≡ false) × (find_rule rs (target_of r) ≡ some r)
unfolding find_rule
tables_distinct s seen [] r h i = elim i [ ]
tables_distinct s seen (x ∷ xs) r h here =
    ((tables_step s seen r xs h).0, rw (eq_refl r.schema, eq_refl r.table))
tables_distinct s seen (x ∷ xs) r h (there i) =
    let (fresh, rest) = tables_step s seen x xs h in
    let (unseen, found) = tables_distinct s (table_key x ∷ seen) xs r rest i in
    let (differ, unseen_before) = contains-cons_false (table_key r) (table_key x) seen unseen in
    elim (Bool-cases (x.schema == r.schema && x.table == r.table)) [
      | inl same ↦ absurd (cc (same_key x r same))
      | inr other ↦ (unseen_before, rw other found)
    ]

-- In a policy that passes validation each entry is the one that a lookup of its table returns, so
-- that no entry is hidden by another.
pub validate_safety-find_rule :
    (s : Safety) (r : TableRule)
    → validate_safety s ≡ ok tt
    → In r s.tables
    → find_rule s.tables (target_of r) ≡ some r
unfolding validate_safety
validate_safety-find_rule s r h i = (tables_distinct s [] s.tables r (ground arith) i).1
