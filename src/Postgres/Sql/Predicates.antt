-- ===== src/Postgres/Sql/Predicates.antt =====
-- adapters/postgres/sql.go: a predicate that validation accepts compiles.
use retentionops_connector.Prelude.{
  ◌≡◌, refl, ◌⊎◌, In, here, there, String, true, false, not, ◌&&◌, List, Option, none, some, arith,
  Bool-cases, inl, inr,
}
use retentionops_connector.Prelude.Text.{contains, contains-In}
use retentionops_connector.Prelude.Result.{Result, ok, err, ◌>>=◌, ◌>>◌, refuse_if}
use retentionops_connector.Protocol.Json.{Json}
use retentionops_connector.Protocol.Formats.{is_identifier}
use retentionops_connector.Protocol.Error.{ProtocolError, bad_sequence_length, not_a_scalar}
use retentionops_connector.Protocol.Values.{
  ConditionValue, scalar, sequence, decode_condition_value,
}
use retentionops_connector.Protocol.Condition.{
  validate_predicate, validate_value, bad_length, is_sequence, is_some, condition_operators,
  valueless_operators, sequence_operators,
}
use retentionops_connector.Postgres.Sql.{
  Piece, name, Argument, Compiled, quote_identifier, comparison_operator, compile_value,
  compile_literal, compile_operator, compile_predicate,
}

abbrev pub Succeeds : {A : Type 0} → Compiled A → Type 0
Succeeds (err e) = ⊥
Succeeds (ok r) = Unit

-- A literal that validation has seen: one value where one is wanted, and otherwise a sequence.
scalar_value-Succeeds :
    (column : Piece) (operator : String) (r : Result ProtocolError ConditionValue)
    (arguments : List Argument) (symbol : String)
    → (r >>= λ value.
        refuse_if (false && bad_length value) bad_sequence_length
        >> refuse_if (not false && is_sequence value) not_a_scalar)
      ≡ ok tt
    → comparison_operator operator ≡ some symbol
    → Succeeds (compile_value column operator r arguments)
scalar_value-Succeeds column operator (err e) arguments symbol h k = cc
scalar_value-Succeeds column operator (ok (scalar v)) arguments symbol h k = rw k tt
scalar_value-Succeeds column operator (ok (sequence vs)) arguments symbol h k = cc

sequence_value-Succeeds :
    (column : Piece) (operator : String) (r : Result ProtocolError ConditionValue)
    (arguments : List Argument)
    → (r >>= λ value.
        refuse_if (true && bad_length value) bad_sequence_length
        >> refuse_if (not true && is_sequence value) not_a_scalar)
      ≡ ok tt
    → Succeeds (compile_value column operator r arguments)
sequence_value-Succeeds column operator (err e) arguments h = cc
sequence_value-Succeeds column operator (ok (scalar v)) arguments h = cc
sequence_value-Succeeds column operator (ok (sequence vs)) arguments h = tt

scalar-Succeeds :
    (column : Piece) (operator : String) (value : Option Json) (arguments : List Argument)
    (symbol : String)
    → is_some value ≡ true
    → validate_value false value ≡ ok tt
    → comparison_operator operator ≡ some symbol
    → Succeeds (compile_literal column operator value arguments)
unfolding validate_value
scalar-Succeeds column operator none arguments symbol given h k = cc
scalar-Succeeds column operator (some j) arguments symbol given h k =
    scalar_value-Succeeds column operator (decode_condition_value j) arguments symbol h k

sequence-Succeeds :
    (column : Piece) (operator : String) (value : Option Json) (arguments : List Argument)
    → is_some value ≡ true
    → validate_value true value ≡ ok tt
    → Succeeds (compile_literal column operator value arguments)
unfolding validate_value
sequence-Succeeds column operator none arguments given h = cc
sequence-Succeeds column operator (some j) arguments given h =
    sequence_value-Succeeds column operator (decode_condition_value j) arguments h

by_scalar :
    (column : Piece) (operator : String) (value : Option Json) (arguments : List Argument)
    (symbol : String)
    → comparison_operator operator ≡ some symbol
    → (false ≡ true) ⊎ ((is_some value ≡ true) × (validate_value false value ≡ ok tt))
    → Succeeds (compile_literal column operator value arguments)
by_scalar column operator value arguments symbol k (inl e) = cc
by_scalar column operator value arguments symbol k (inr (given, valid)) =
    scalar-Succeeds column operator value arguments symbol given valid k

by_sequence :
    (column : Piece) (operator : String) (value : Option Json) (arguments : List Argument)
    → (false ≡ true) ⊎ ((is_some value ≡ true) × (validate_value true value ≡ ok tt))
    → Succeeds (compile_literal column operator value arguments)
by_sequence column operator value arguments (inl e) = cc
by_sequence column operator value arguments (inr (given, valid)) =
    sequence-Succeeds column operator value arguments given valid

-- The twelve operators.
operator-Succeeds :
    (column : Piece) (operator : String) (value : Option Json) (arguments : List Argument)
    → In operator condition_operators
    → contains operator valueless_operators ≡ true
      ⊎ ((is_some value ≡ true)
          × (validate_value (contains operator sequence_operators) value ≡ ok tt))
    → Succeeds (compile_operator column operator value arguments)
unfolding compile_operator contains
operator-Succeeds column _ value arguments here h = by_scalar column "eq" value arguments "=" refl h
operator-Succeeds column _ value arguments (there here) h =
    by_scalar column "neq" value arguments "<>" refl h
operator-Succeeds column _ value arguments (there (there here)) h =
    by_scalar column "lt" value arguments "<" refl h
operator-Succeeds column _ value arguments (there (there (there here))) h =
    by_scalar column "lte" value arguments "<=" refl h
operator-Succeeds column _ value arguments (there (there (there (there here)))) h =
    by_scalar column "gt" value arguments ">" refl h
operator-Succeeds column _ value arguments (there (there (there (there (there here))))) h =
    by_scalar column "gte" value arguments ">=" refl h
operator-Succeeds column _ value arguments (there (there (there (there (there (there here)))))) h =
    by_sequence column "in" value arguments h
operator-Succeeds column _ value arguments
      (there (there (there (there (there (there (there here))))))) h =
    by_sequence column "notIn" value arguments h
operator-Succeeds column _ value arguments
      (there (there (there (there (there (there (there (there here)))))))) h =
    tt
operator-Succeeds column _ value arguments
      (there (there (there (there (there (there (there (there (there here))))))))) h =
    tt
operator-Succeeds column _ value arguments
      (there (there (there (there (there (there (there (there (there (there here)))))))))) h =
    tt
operator-Succeeds column _ value arguments
      (there (there (there (there (there (there (there (there (there (there (there here)))))))))))
      h =
    tt
operator-Succeeds column operator value arguments
      (there
        (there (there (there (there (there (there (there (there (there (there (there x))))))))))))
      h =
    elim x [ ]

pub predicate-Succeeds :
    (column operator : String) (value : Option Json) (arguments : List Argument)
    → validate_predicate column operator value ≡ ok tt
    → Succeeds (compile_predicate column operator value arguments)
unfolding validate_predicate compile_predicate quote_identifier
predicate-Succeeds column operator value arguments h =
    let plain : is_identifier column ≡ true = ground arith in
    let known : contains operator condition_operators ≡ true = ground arith in
    rw plain (
      operator-Succeeds (name column) operator value arguments
        (contains-In operator condition_operators known)
        (elim (Bool-cases (contains operator valueless_operators)) [
          | inl valueless ↦ inl valueless
          | inr valued ↦ inr (ground arith, ground arith)
        ]))
