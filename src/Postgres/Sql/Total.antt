-- ===== src/Postgres/Sql/Total.antt =====
-- adapters/postgres/sql.go: a condition that validation accepts compiles.
use retentionops_connector.Prelude.{
  ℕ, suc, ◌≡◌, refl, ap, String, true, false, List, Option, arith, Bool-cases, inl, inr,
  if◌then◌else◌,
}
use retentionops_connector.Prelude.Text.{is_empty, eq_iff}
use retentionops_connector.Prelude.Result.{ok, err, ◌>>=◌, >>=-eq-ok}
use retentionops_connector.Protocol.Json.{Json}
use retentionops_connector.Protocol.Formats.{is_identifier}
use retentionops_connector.Protocol.Job.{Condition, Conditions, Negated, node, absent, present}
use retentionops_connector.Protocol.Condition.{
  validate_predicate, validate_condition, validate_conditions, validate_negated, is_leaf,
  conditions_empty,
}
use retentionops_connector.Postgres.Sql.{
  Piece, Argument, Compiled, any_given, joined, compile_condition, compile_negated, compile_clauses,
}
use retentionops_connector.Postgres.Sql.Predicates.{Succeeds, predicate-Succeeds}

-- A leaf that passes has a column, and its predicate passes.
leaf_passed :
    (column operator : String) (value : Option Json) (every some_of : Conditions)
    (negated : Negated) (budget depth : ℕ) {spent : ℕ}
    → validate_condition (node column operator value every some_of negated) budget depth ≡ ok spent
    → is_leaf column operator value ≡ true
    → validate_predicate column operator value ≡ ok tt
unfolding validate_condition
leaf_passed column operator value every some_of negated budget depth h leaf = ground arith

empty_no_identifier : is_identifier "" ≡ false
unfolding is_identifier
empty_no_identifier = refl

column_given :
    (column operator : String) (value : Option Json)
    → validate_predicate column operator value ≡ ok tt
    → is_empty column ≡ false
unfolding validate_predicate
column_given column operator value h = elim (Bool-cases (is_empty column)) [
  | inl e ↦
      let plain : is_identifier column ≡ true = ground arith in
      absurd (cc (plain, ap is_identifier ((eq_iff column "").0 e), empty_no_identifier))
  | inr e ↦ e
]

group_passed :
    (column operator : String) (value : Option Json) (every some_of : Conditions)
    (negated : Negated) (budget depth : ℕ) {spent : ℕ}
    → validate_condition (node column operator value every some_of negated) budget depth ≡ ok spent
    → is_leaf column operator value ≡ false
    → (inner : ℕ) × ((if conditions_empty some_of
          then validate_conditions every (suc budget) (suc depth)
          else validate_conditions some_of (suc budget) (suc depth))
        ≡ ok inner)
      × (validate_negated negated inner (suc depth) ≡ ok spent)
unfolding validate_condition
group_passed column operator value every some_of negated budget depth {spent} h group =
    >>=-eq-ok
      (if conditions_empty some_of
        then validate_conditions every (suc budget) (suc depth)
        else validate_conditions some_of (suc budget) (suc depth))
      (λ inner. validate_negated negated inner (suc depth)) (ground arith)

group_column :
    (column operator : String) (value : Option Json)
    → is_leaf column operator value ≡ false
    → is_empty column ≡ true
group_column column operator value h = ground arith

-- The group that is compiled is the one that was validated.
group-Succeeds :
    (every some_of : Conditions) (n d inner : ℕ) (a b : Compiled (List Piece))
    → (if conditions_empty some_of
        then validate_conditions every n d
        else validate_conditions some_of n d)
      ≡ ok inner
    → (validate_conditions every n d ≡ ok inner → Succeeds a)
    → (validate_conditions some_of n d ≡ ok inner → Succeeds b)
    → Succeeds (if any_given some_of then b else a)
group-Succeeds every Conditions.nil n d inner a b h in_every in_some = in_every h
group-Succeeds every (Conditions.cons c cs) n d inner a b h in_every in_some = in_some h

joined-Succeeds :
    (joiner : String) (r : Compiled (List (List Piece))) → Succeeds r → Succeeds (joined joiner r)
joined-Succeeds joiner (err e) h = h
joined-Succeeds joiner (ok r) h = tt

pub then-Succeeds :
    {A B : Type 0} (r : Compiled A) (k : A × List Argument → Compiled B)
    → Succeeds r
    → ((x : A × List Argument) → Succeeds (k x))
    → Succeeds (r >>= k)
then-Succeeds (err e) k h next = absurd h
then-Succeeds (ok x) k h next = next x

mutual
  unfolding compile_condition compile_negated compile_clauses validate_conditions

  pub condition-Succeeds :
      (c : Condition) (budget depth : ℕ) {spent : ℕ} (arguments : List Argument)
      → validate_condition c budget depth ≡ ok spent
      → Succeeds (compile_condition c arguments)
  condition-Succeeds (node column operator value every some_of negated) budget depth arguments h =
      elim (Bool-cases (is_leaf column operator value)) [
        | inl leaf ↦
            let passed =
              leaf_passed column operator value every some_of negated budget depth h leaf in
            rw (column_given column operator value passed)
              (predicate-Succeeds column operator value arguments passed)
        | inr group ↦
            let (inner, grouped, rest) =
              group_passed column operator value every some_of negated budget depth h group in
            rw (group_column column operator value group) (
              negated-Succeeds negated inner (suc depth) _ arguments rest (
                group-Succeeds every some_of (suc budget) (suc depth) inner _ _ grouped
                  (λ e.
                    joined-Succeeds " AND " _
                      (clauses-Succeeds every (suc budget) (suc depth) arguments e))
                  (λ e.
                    joined-Succeeds " OR " _
                      (clauses-Succeeds some_of (suc budget) (suc depth) arguments e))))
      ]

  negated-Succeeds :
      (c : Negated) (budget depth : ℕ) {spent : ℕ} (group : Compiled (List Piece))
      (arguments : List Argument)
      → validate_negated c budget depth ≡ ok spent
      → Succeeds group
      → Succeeds (compile_negated c group arguments)
  negated-Succeeds absent budget depth group arguments h g = g
  negated-Succeeds (present c) budget depth group arguments h g =
      then-Succeeds (compile_condition c arguments) _
        (condition-Succeeds c budget depth arguments h) (λ x. tt)

  clauses-Succeeds :
      (cs : Conditions) (budget depth : ℕ) {spent : ℕ} (arguments : List Argument)
      → validate_conditions cs budget depth ≡ ok spent
      → Succeeds (compile_clauses cs arguments)
  clauses-Succeeds Conditions.nil budget depth arguments h = tt
  clauses-Succeeds (Conditions.cons c cs) budget depth arguments h =
      let (spent, first, rest) = >>=-eq-ok (validate_condition c budget depth) _ h in
      then-Succeeds (compile_condition c arguments) _
        (condition-Succeeds c budget depth arguments first)
        (λ x.
          then-Succeeds (compile_clauses cs x.1) _ (clauses-Succeeds cs spent depth x.1 rest)
            (λ y. tt))
