-- ===== src/Postgres/Sql.antt =====
-- adapters/postgres/sql.go: the statements that a job is compiled to. A statement is the sequence of
-- its pieces: text of the source, with white space as one space, an identifier that is written in
-- quotes, and a placeholder `$n`.
pub mod Bound
pub mod Statements
pub mod Predicates
pub mod Total
pub mod Accepted
use retentionops_connector.Prelude.{
  ℕ, ◌+◌, String, Bool, true, false, List, [], ◌∷◌, ◌++◌, length, is_nil, if◌then◌else◌, Option,
  none, some,
}
use retentionops_connector.Prelude.Text.{Time, ◌==◌, is_empty}
use retentionops_connector.Prelude.Result.{Result, ok, err, ◌>>=◌}
use retentionops_connector.Protocol.Json.{Json}
use retentionops_connector.Protocol.Formats.{is_identifier}
use retentionops_connector.Protocol.Job.{
  Condition, Conditions, Negated, node, absent, present, Target, Predicate, PredicateType,
}
use retentionops_connector.Protocol.Error.{ProtocolError}
use retentionops_connector.Protocol.Values.{
  Scalar, ConditionValue, scalar, sequence, decode_condition_value,
}

pub data Piece : Type 0 where
  raw name : String → Piece
  placeholder : ℕ → Piece

-- An argument that is bound: the cutoff, or a literal of a condition.
pub data Argument : Type 0 where
  cutoff : Time → Argument
  literal : Scalar → Argument

-- `panicked` is the panic of `quoteIdentifier`.
pub data SqlError : Type 0 where
  panicked undecodable unsupported_operator : SqlError

abbrev pub Compiled : Type 0 → Type 0
Compiled A = Result SqlError (A × List Argument)

-- `strings.Join`
abbrev pub join : String → List (List Piece) → List Piece
join separator [] = []
join separator (clause ∷ []) = clause
join separator (clause ∷ rest) = clause ++ (raw separator ∷ join separator rest)

abbrev pub in_parentheses : List Piece → List Piece
in_parentheses clause = raw "(" ∷ (clause ++ (raw ")" ∷ []))

unfoldable pub quote_identifier : String → Result SqlError Piece
quote_identifier s = if is_identifier s then ok (name s) else err panicked

unfoldable pub qualified : Target → Result SqlError (List Piece)
unfolding quote_identifier
qualified t = do
  schema ← quote_identifier t.schema
  table ← quote_identifier t.table
  ok (schema ∷ raw "." ∷ table ∷ [])

unfoldable pub comparison : PredicateType → String
comparison PredicateType.on_or_before_type = "<="
comparison _ = "<"

-- One argument for each literal, and its placeholder.
unfoldable pub bind_items : List Scalar → List Argument → List (List Piece) × List Argument
bind_items [] arguments = ([], arguments)
bind_items (x ∷ xs) arguments =
    let bound = arguments ++ (literal x ∷ []) in
    let (rest, all_bound) = bind_items xs bound in
    ((placeholder (length bound) ∷ []) ∷ rest, all_bound)

abbrev pub comparison_operator : String → Option String
comparison_operator operator =
    if operator == "eq"
    then some "="
    else if operator == "neq"
    then some "<>"
    else if operator == "lt"
    then some "<"
    else if operator == "lte"
    then some "<="
    else if operator == "gt"
    then some ">"
    else if operator == "gte"
    then some ">="
    else none

abbrev pub compile_scalar : Piece → Option String → Scalar → List Argument → Compiled (List Piece)
compile_scalar column none value arguments = err unsupported_operator
compile_scalar column (some operator) value arguments =
    let bound = arguments ++ (literal value ∷ []) in
    ok (column ∷ raw " " ∷ raw operator ∷ raw " " ∷ placeholder (length bound) ∷ [], bound)

abbrev pub compile_sequence :
    Piece → String → List (List Piece) × List Argument → Compiled (List Piece)
compile_sequence column operator (items, bound) = ok (
  column
      ∷ raw (if operator == "notIn" then " NOT IN " else " IN ")
      ∷ in_parentheses (join ", " items),
  bound,
)

abbrev pub compile_value :
    Piece → String → Result ProtocolError ConditionValue → List Argument → Compiled (List Piece)
compile_value column operator (err e) arguments = err undecodable
compile_value column operator (ok (sequence items)) arguments =
    compile_sequence column operator (bind_items items arguments)
compile_value column operator (ok (scalar value)) arguments =
    compile_scalar column (comparison_operator operator) value arguments

-- An absent value does not decode.
abbrev pub compile_literal : Piece → String → Option Json → List Argument → Compiled (List Piece)
compile_literal column operator none arguments = err undecodable
compile_literal column operator (some json) arguments =
    compile_value column operator (decode_condition_value json) arguments

unfoldable pub compile_operator :
    Piece → String → Option Json → List Argument → Compiled (List Piece)
compile_operator column operator value arguments =
    if operator == "isNull"
    then ok (column ∷ raw " IS NULL" ∷ [], arguments)
    else if operator == "isNotNull"
    then ok (column ∷ raw " IS NOT NULL" ∷ [], arguments)
    else if operator == "beforeCutoff"
    then ok (column ∷ raw " < " ∷ placeholder 1 ∷ [], arguments)
    else if operator == "afterCutoff"
    then ok (column ∷ raw " >= " ∷ placeholder 1 ∷ [], arguments)
    else compile_literal column operator value arguments

unfoldable pub compile_predicate :
    String → String → Option Json → List Argument → Compiled (List Piece)
compile_predicate column operator value arguments = do
  quoted ← quote_identifier column
  compile_operator quoted operator value arguments

abbrev pub any_given : Conditions → Bool
any_given Conditions.nil = false
any_given (Conditions.cons c cs) = true

abbrev pub joined : String → Compiled (List (List Piece)) → Compiled (List Piece)
joined joiner clauses = clauses >>= λ r. ok (join joiner r.0, r.1)

-- A group is joined by AND, or by OR where `any` has members; `not` comes before both.
unfoldable mutual
  pub compile_condition : Condition → List Argument → Compiled (List Piece)
  compile_condition (node column operator value every some_of negated) arguments =
      let every_clause = joined " AND " (compile_clauses every arguments) in
      let some_clause = joined " OR " (compile_clauses some_of arguments) in
      if is_empty column
      then compile_negated negated (if any_given some_of then some_clause else every_clause)
          arguments
      else compile_predicate column operator value arguments

  pub compile_negated : Negated → Compiled (List Piece) → List Argument → Compiled (List Piece)
  compile_negated absent group arguments = group
  compile_negated (present c) group arguments =
      compile_condition c arguments >>= λ r. ok (raw "NOT " ∷ in_parentheses r.0, r.1)

  pub compile_clauses : Conditions → List Argument → Compiled (List (List Piece))
  compile_clauses Conditions.nil arguments = ok ([], arguments)
  compile_clauses (Conditions.cons c cs) arguments = compile_condition c arguments >>= λ r.
      compile_clauses cs r.1 >>= λ rest. ok (in_parentheses r.0 ∷ rest.0, rest.1)

-- `compileConditions`, over the holds
unfoldable pub compile_conditions : List Condition → List Argument → Compiled (List (List Piece))
compile_conditions [] arguments = ok ([], arguments)
compile_conditions (c ∷ cs) arguments = compile_condition c arguments >>= λ r.
    compile_conditions cs r.1 >>= λ rest. ok (in_parentheses r.0 ∷ rest.0, rest.1)

abbrev pub with_condition :
    List Piece → Option Condition → List Argument → Compiled (List (List Piece))
with_condition part none arguments = ok (part ∷ [], arguments)
with_condition part (some c) arguments =
    compile_condition c arguments >>= λ r. ok (part ∷ in_parentheses r.0 ∷ [], r.1)

unfoldable pub eligibility_where : Predicate → Option Condition → Compiled (List (List Piece))
eligibility_where p condition = do
  column ← quote_identifier p.column
  with_condition (column ∷ raw " " ∷ raw (comparison p.type_name) ∷ raw " " ∷ placeholder 1 ∷ [])
      condition (cutoff p.value ∷ [])

abbrev pub excluding : List (List Piece) → List (List Piece)
excluding [] = []
excluding (clause ∷ rest) = (raw "NOT " ∷ in_parentheses (join " OR " (clause ∷ rest))) ∷ []

unfoldable pub candidate_where :
    Predicate → Option Condition → List Condition → Compiled (List Piece)
candidate_where p condition holds = eligibility_where p condition >>= λ parts.
    compile_conditions holds parts.1 >>= λ held.
    ok (join " AND " (parts.0 ++ excluding held.0), held.1)

unfoldable pub count_statement :
    Target → Predicate → Option Condition → List Condition → Compiled (List Piece)
count_statement t p condition holds = quote_identifier p.column >>= λ column.
    candidate_where p condition holds >>= λ where_clause. qualified t >>= λ table. ok (
      raw "SELECT count(*)::bigint, min("
          ∷ column
          ∷ raw "), max("
          ∷ column
          ∷ raw ") FROM "
          ∷ (table ++ (raw " WHERE " ∷ where_clause.0)),
      where_clause.1,
    )

unfoldable pub held_count_statement :
    Target → Predicate → Option Condition → List Condition → Compiled (List Piece)
held_count_statement t p condition holds = eligibility_where p condition >>= λ parts.
    compile_conditions holds parts.1 >>= λ held. qualified t >>= λ table. ok (
      raw "SELECT count(*)::bigint FROM "
          ∷ (table
              ++ (raw " WHERE "
                  ∷ join " AND " (parts.0 ++ (in_parentheses (join " OR " held.0) ∷ [])))),
      held.1,
    )

unfoldable pub resource_count_statement : Target → Result SqlError (List Piece)
resource_count_statement t =
    qualified t >>= λ table. ok (raw "SELECT count(*)::bigint FROM " ∷ table)

-- The size of the batch is one more argument, bound by the caller.
unfoldable pub delete_batch_statement :
    Target → Predicate → Option Condition → List Condition → Compiled (List Piece)
delete_batch_statement t p condition holds = qualified t >>= λ table.
    quote_identifier p.column >>= λ column. candidate_where p condition holds >>= λ where_clause.
    ok (
      raw "WITH doomed AS (SELECT ctid FROM "
          ∷ (table
              ++ (raw " WHERE "
                  ∷ (where_clause.0
                      ++ (raw " ORDER BY "
                          ∷ column
                          ∷ raw " LIMIT "
                          ∷ placeholder (length where_clause.1 + 1)
                          ∷ raw ") DELETE FROM "
                          ∷ (table
                              ++ (raw " WHERE ctid IN (SELECT ctid FROM doomed) AND "
                                  ∷ where_clause.0)))))),
      where_clause.1,
    )
