-- ===== src/Postgres/Sql/Accepted.antt =====
-- adapters/postgres/sql.go: every statement of an accepted job compiles.
use retentionops_connector.Prelude.{ℕ, ◌≡◌, refl, true, List, [], ◌∷◌, Option, none, some, arith}
use retentionops_connector.Prelude.Result.{Result, ok, err, >>=-eq-ok}
use retentionops_connector.Protocol.Formats.{is_identifier}
use retentionops_connector.Protocol.Job.{Condition, Target, Predicate, Limits, JobEnvelope}
use retentionops_connector.Protocol.Condition.{validate_condition}
use retentionops_connector.Protocol.Envelope.{validate_target, validate_holds, validate_root}
use retentionops_connector.Postgres.Sql.{
  Piece, Argument, quote_identifier, qualified, compile_condition, compile_conditions,
  with_condition, eligibility_where, candidate_where, count_statement, held_count_statement,
  delete_batch_statement,
}
use retentionops_connector.Postgres.Sql.Predicates.{Succeeds}
use retentionops_connector.Postgres.Sql.Total.{then-Succeeds, condition-Succeeds}

-- What the statements need of the operands.
record Compilable (t : Target) (p : Predicate) (condition : Option Condition)
    (holds : List Condition) : Type 0 where
  schema : is_identifier t.schema ≡ true
  table : is_identifier t.table ≡ true
  column : is_identifier p.column ≡ true
  budget : ℕ
  root : validate_root condition ≡ ok budget
  held : validate_holds holds budget ≡ ok tt

root_accepted :
    (r : Result _ ℕ) (t : Target) (p : Predicate) (l : Limits) (j : JobEnvelope)
    → validate_root j.condition ≡ r
    → validate_target t p l j ≡ ok tt
    → (budget : ℕ) × (r ≡ ok budget) × (validate_holds j.holds budget ≡ ok tt)
unfolding validate_target
root_accepted (ok budget) t p l j e h = (budget, refl, ground arith)
root_accepted (err x) t p l j e h = absurd (ground arith)

target-Compilable :
    (t : Target) (p : Predicate) (l : Limits) (j : JobEnvelope)
    → validate_target t p l j ≡ ok tt
    → Compilable t p j.condition j.holds
unfolding validate_target
target-Compilable t p l j h =
    let (budget, root, held) = root_accepted (validate_root j.condition) t p l j refl h in
    record {
      schema = ground arith;
      table = ground arith;
      column = ground arith;
      budget = budget;
      root = root;
      held = held;
    }

holds-Succeed :
    (cs : List Condition) (budget : ℕ) (arguments : List Argument)
    → validate_holds cs budget ≡ ok tt
    → Succeeds (compile_conditions cs arguments)
unfolding compile_conditions validate_holds
holds-Succeed [] budget arguments h = tt
holds-Succeed (c ∷ cs) budget arguments h =
    let (spent, first, rest) = >>=-eq-ok (validate_condition c budget 0) _ h in
    then-Succeeds (compile_condition c arguments) _ (condition-Succeeds c budget 0 arguments first)
      (λ x. then-Succeeds (compile_conditions cs x.1) _ (holds-Succeed cs spent x.1 rest) (λ y. tt))

root-Succeeds :
    (part : List Piece) (condition : Option Condition) (budget : ℕ) (arguments : List Argument)
    → validate_root condition ≡ ok budget
    → Succeeds (with_condition part condition arguments)
root-Succeeds part none budget arguments h = tt
root-Succeeds part (some c) budget arguments h =
    then-Succeeds (compile_condition c arguments) _ (condition-Succeeds c 0 0 arguments h) (λ x. tt)

module _ (t : Target) (p : Predicate) (condition : Option Condition) (holds : List Condition)
    (given : Compilable t p condition holds) where
  eligibility-Succeeds : Succeeds (eligibility_where p condition)
  unfolding eligibility_where quote_identifier
  eligibility-Succeeds = rw given.column (root-Succeeds _ condition given.budget _ given.root)

  candidate-Succeeds : Succeeds (candidate_where p condition holds)
  unfolding candidate_where
  candidate-Succeeds = then-Succeeds (eligibility_where p condition) _ eligibility-Succeeds (λ x.
      then-Succeeds (compile_conditions holds x.1) _
        (holds-Succeed holds given.budget x.1 given.held) (λ y. tt))

  count-Succeeds : Succeeds (count_statement t p condition holds)
  unfolding count_statement qualified quote_identifier
  count-Succeeds =
      rw (given.column, given.schema, given.table)
        (then-Succeeds (candidate_where p condition holds) _ candidate-Succeeds (λ x. tt))

  held-Succeeds : Succeeds (held_count_statement t p condition holds)
  unfolding held_count_statement qualified quote_identifier
  held-Succeeds =
      rw (given.schema, given.table)
        (then-Succeeds (eligibility_where p condition) _ eligibility-Succeeds (λ x.
          then-Succeeds (compile_conditions holds x.1) _
            (holds-Succeed holds given.budget x.1 given.held) (λ y. tt)))

  batch-Succeeds : Succeeds (delete_batch_statement t p condition holds)
  unfolding delete_batch_statement qualified quote_identifier
  batch-Succeeds =
      rw (given.schema, given.table, given.column)
        (then-Succeeds (candidate_where p condition holds) _ candidate-Succeeds (λ x. tt))

-- The statements of a job whose operands are accepted compile, all of them: no identifier makes the
-- quoting panic, every literal decodes, and every operator is one that the compiler knows.
pub statements-Succeed :
    (t : Target) (p : Predicate) (l : Limits) (j : JobEnvelope)
    → validate_target t p l j ≡ ok tt
    → Succeeds (count_statement t p j.condition j.holds)
      × Succeeds (held_count_statement t p j.condition j.holds)
      × Succeeds (delete_batch_statement t p j.condition j.holds)
statements-Succeed t p l j h =
    let given = target-Compilable t p l j h in
    (
      count-Succeeds t p j.condition j.holds given,
      held-Succeeds t p j.condition j.holds given,
      batch-Succeeds t p j.condition j.holds given,
    )
