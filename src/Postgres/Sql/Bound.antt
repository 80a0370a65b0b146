-- ===== src/Postgres/Sql/Bound.antt =====
-- adapters/postgres/sql.go: what stands in a compiled statement.
use retentionops_connector.Prelude.{
  ℕ, ◌+◌, ◌≤◌, ◌≡◌, refl, String, Bool, true, false, List, [], ◌∷◌, ◌++◌, length, Option, none,
  some, All, arith, any, Bool-cases, inl, inr, if◌then◌else◌,
}
use retentionops_connector.Prelude.Text.{◌==◌, is_empty}
use retentionops_connector.Prelude.Result.{Result, ok, err, ◌>>=◌}
use retentionops_connector.Protocol.Json.{Json}
use retentionops_connector.Protocol.Formats.{is_identifier}
use retentionops_connector.Protocol.Job.{Condition, Conditions, Negated, node, absent, present}
use retentionops_connector.Protocol.Error.{ProtocolError}
use retentionops_connector.Protocol.Values.{
  Scalar, ConditionValue, scalar, sequence, decode_condition_value,
}
use retentionops_connector.Postgres.Sql.{
  Piece, raw, name, placeholder, Argument, literal, Compiled, join, in_parentheses,
  quote_identifier, bind_items, comparison_operator, compile_scalar, compile_value, compile_literal,
  compile_operator, compile_predicate, any_given, joined, compile_condition, compile_negated,
  compile_clauses,
}

-- The texts of SQL that a statement is written with, none of which comes from a job.
abbrev pub fragments : List String
fragments =
    "(" ∷ ")" ∷ "." ∷ " " ∷ " IS NULL" ∷ " IS NOT NULL" ∷ " < " ∷ " >= " ∷ "NOT "
    ∷ "SELECT count(*)::bigint, min(" ∷ "), max(" ∷ ") FROM " ∷ " WHERE "
    ∷ "SELECT count(*)::bigint FROM " ∷ "WITH doomed AS (SELECT ctid FROM " ∷ " ORDER BY "
    ∷ " LIMIT " ∷ ") DELETE FROM " ∷ " WHERE ctid IN (SELECT ctid FROM doomed) AND " ∷ " NOT IN "
    ∷ " IN " ∷ "=" ∷ "<>" ∷ "<" ∷ "<=" ∷ ">" ∷ ">=" ∷ " AND " ∷ " OR " ∷ ", " ∷ []

abbrev pub is_fragment : String → Bool
is_fragment s = any (λ f. s == f) fragments

-- With `n` arguments: a text is one of these, an identifier is a plain one, and a placeholder has an
-- argument.
abbrev pub PieceBound : ℕ → Piece → Type 0
PieceBound n (raw s) = is_fragment s ≡ true
PieceBound n (name s) = is_identifier s ≡ true
PieceBound n (placeholder k) = (1 ≤ k) × (k ≤ n)

abbrev pub Bound : ℕ → List Piece → Type 0
Bound n pieces = All (PieceBound n) pieces

abbrev pub AllBound : ℕ → List (List Piece) → Type 0
AllBound n clauses = All (Bound n) clauses

-- A compilation from `n` arguments: it keeps them, and what it makes is bound by what it returns.
abbrev pub Compiles : {A : Type 0} → (ℕ → A → Type 0) → ℕ → Compiled A → Type 0
Compiles P n (err e) = Unit
Compiles P n (ok (a, arguments)) = (n ≤ length arguments) × P (length arguments) a

-- A predicate that more arguments keep.
abbrev Grows : {A : Type 0} → (ℕ → A → Type 0) → Type 0
Grows {A} P = (m n : ℕ) (a : A) → m ≤ n → P m a → P n a

grown : {A : Type 0} (P : ℕ → A → Type 0) → Grows P → Grows (λ n xs. All (P n) xs)
grown P grows m n [] le h = tt
grown P grows m n (x ∷ xs) le h = (grows m n x le h.0, grown P grows m n xs le h.1)

PieceBound-grows : Grows PieceBound
PieceBound-grows m n (raw s) le h = h
PieceBound-grows m n (name s) le h = h
PieceBound-grows m n (placeholder k) le h = omega arith

pub Bound-grows : Grows Bound
Bound-grows = grown PieceBound PieceBound-grows

pub AllBound-grows : Grows AllBound
AllBound-grows = grown Bound Bound-grows

pub All-++ : {A : Type 0} (P : A → Type 0) (xs ys : List A) → All P xs → All P ys → All P (xs ++ ys)
All-++ P [] ys h k = k
All-++ P (x ∷ xs) ys h k = (h.0, All-++ P xs ys h.1 k)

pub parentheses-Bound : (n : ℕ) (ps : List Piece) → Bound n ps → Bound n (in_parentheses ps)
parentheses-Bound n ps h = (refl, All-++ (PieceBound n) ps (raw ")" ∷ []) h (refl, tt))

pub join-Bound :
    (n : ℕ) (s : String) (cs : List (List Piece))
    → is_fragment s ≡ true
    → AllBound n cs
    → Bound n (join s cs)
join-Bound n s [] fixed h = tt
join-Bound n s (c ∷ []) fixed h = h.0
join-Bound n s (c ∷ d ∷ cs) fixed h =
    All-++ (PieceBound n) c _ h.0 (fixed, join-Bound n s (d ∷ cs) fixed h.1)

length-++ : {A : Type 0} (xs : List A) (x : A) → length (xs ++ (x ∷ [])) ≡ length xs + 1
length-++ [] x = refl
length-++ (y ∷ xs) x = omega (arith, length-++ xs x)

-- One compilation after another.
pub then-Compiles :
    {A B : Type 0} (P : ℕ → A → Type 0) (Q : ℕ → B → Type 0) (n : ℕ) (r : Compiled A)
    (k : A × List Argument → Compiled B)
    → Compiles P n r
    → ((a : A) (arguments : List Argument)
        → n ≤ length arguments
        → P (length arguments) a
        → Compiles Q (length arguments) (k (a, arguments)))
    → Compiles Q n (r >>= k)
then-Compiles P Q n (err e) k h next = tt
then-Compiles {B = B} P Q n (ok (a, arguments)) k h next =
    lower (k (a, arguments)) (next a arguments h.0 h.1)
  where
    lower : (r : Compiled B) → Compiles Q (length arguments) r → Compiles Q n r
    lower (err e) g = tt
    lower (ok (b, more)) g = (omega (arith, h.0, g.0), g.1)

pub quote-Bound :
    {B : Type 0} (Q : ℕ → B → Type 0) (n : ℕ) (s : String) (k : Piece → Compiled B)
    → ((p : Piece) → ((m : ℕ) → PieceBound m p) → Compiles Q n (k p))
    → Compiles Q n (quote_identifier s >>= k)
unfolding quote_identifier
quote-Bound Q n s k next = elim (Bool-cases (is_identifier s)) [
  | inl plain ↦ rw plain (next (name s) (λ m. plain))
  | inr bad ↦ rw bad tt
]

-- A column is bound whatever the arguments.
abbrev pub Plain : Piece → Type 0
Plain p = (m : ℕ) → PieceBound m p

bind_items-Bound :
    (xs : List Scalar) (arguments : List Argument)
    → (length arguments ≤ length (bind_items xs arguments).1)
      × AllBound (length (bind_items xs arguments).1) (bind_items xs arguments).0
unfolding bind_items
bind_items-Bound [] arguments = (omega arith, tt)
bind_items-Bound (x ∷ xs) arguments =
    let more = length-++ arguments (literal x) in
    let (le, rest) = bind_items-Bound xs (arguments ++ (literal x ∷ [])) in
    (omega (arith, more, le), (((omega (arith, more), le), tt), rest))

if_fragment :
    (b : Bool) (x y : String)
    → is_fragment x ≡ true
    → is_fragment y ≡ true
    → is_fragment (if b then x else y) ≡ true
if_fragment true x y h k = h
if_fragment false x y h k = k

abbrev AreFragments : Option String → Type 0
AreFragments none = Unit
AreFragments (some s) = is_fragment s ≡ true

if-AreFragments :
    (b : Bool) (x y : Option String)
    → AreFragments x
    → AreFragments y
    → AreFragments (if b then x else y)
if-AreFragments true x y h k = h
if-AreFragments false x y h k = k

operator-AreFragments : (operator : String) → AreFragments (comparison_operator operator)
operator-AreFragments operator = if-AreFragments (operator == "eq") _ _ refl (
    if-AreFragments (operator == "neq") _ _ refl (
      if-AreFragments (operator == "lt") _ _ refl (
        if-AreFragments (operator == "lte") _ _ refl (
          if-AreFragments (operator == "gt") _ _ refl
            (if-AreFragments (operator == "gte") _ _ refl tt)))))

scalar-Bound :
    (column : Piece) (operator : Option String) (value : Scalar) (arguments : List Argument)
    → Plain column
    → AreFragments operator
    → Compiles Bound (length arguments) (compile_scalar column operator value arguments)
scalar-Bound column none value arguments plain fixed = tt
scalar-Bound column (some operator) value arguments plain fixed =
    let more = length-++ arguments (literal value) in
    (
      omega (arith, more),
      (plain _, (refl, (fixed, (refl, ((omega (arith, more), omega arith), tt))))),
    )

value-Bound :
    (column : Piece) (operator : String) (value : Result ProtocolError ConditionValue)
    (arguments : List Argument)
    → Plain column
    → Compiles Bound (length arguments) (compile_value column operator value arguments)
value-Bound column operator (err e) arguments plain = tt
value-Bound column operator (ok (sequence items)) arguments plain =
    let (le, bound) = bind_items-Bound items arguments in
    (
      le,
      (
        plain _,
        (
          if_fragment (operator == "notIn") _ _ refl refl,
          parentheses-Bound _ _ (join-Bound _ ", " _ refl bound),
        ),
      ),
    )
value-Bound column operator (ok (scalar value)) arguments plain =
    scalar-Bound column (comparison_operator operator) value arguments plain
      (operator-AreFragments operator)

literal-Bound :
    (column : Piece) (operator : String) (value : Option Json) (arguments : List Argument)
    → Plain column
    → Compiles Bound (length arguments) (compile_literal column operator value arguments)
literal-Bound column operator none arguments plain = tt
literal-Bound column operator (some json) arguments plain =
    value-Bound column operator (decode_condition_value json) arguments plain

if-Compiles :
    (b : Bool) (n : ℕ) (r k : Compiled (List Piece))
    → Compiles Bound n r
    → Compiles Bound n k
    → Compiles Bound n (if b then r else k)
if-Compiles true n r k h g = h
if-Compiles false n r k h g = g

operator-Bound :
    (column : Piece) (operator : String) (value : Option Json) (arguments : List Argument)
    → Plain column
    → 1 ≤ length arguments
    → Compiles Bound (length arguments) (compile_operator column operator value arguments)
unfolding compile_operator
operator-Bound column operator value arguments plain some_argument =
    if-Compiles (operator == "isNull") _ _ _ (omega arith, (plain _, (refl, tt)))
      (if-Compiles (operator == "isNotNull") _ _ _ (omega arith, (plain _, (refl, tt)))
        (if-Compiles (operator == "beforeCutoff") _ _ _
          (omega arith, (plain _, (refl, ((omega arith, some_argument), tt))))
          (if-Compiles (operator == "afterCutoff") _ _ _
            (omega arith, (plain _, (refl, ((omega arith, some_argument), tt))))
            (literal-Bound column operator value arguments plain))))

predicate-Bound :
    (column operator : String) (value : Option Json) (arguments : List Argument)
    → 1 ≤ length arguments
    → Compiles Bound (length arguments) (compile_predicate column operator value arguments)
unfolding compile_predicate
predicate-Bound column operator value arguments some_argument =
    quote-Bound Bound (length arguments) column _
      (λ p plain. operator-Bound p operator value arguments plain some_argument)

joined-Bound :
    (n : ℕ) (s : String) (r : Compiled (List (List Piece)))
    → is_fragment s ≡ true
    → Compiles AllBound n r
    → Compiles Bound n (joined s r)
joined-Bound n s (err e) fixed h = tt
joined-Bound n s (ok (cs, arguments)) fixed h = (h.0, join-Bound _ s cs fixed h.1)

mutual
  unfolding compile_condition compile_negated compile_clauses

  pub condition-Bound :
      (c : Condition) (arguments : List Argument)
      → 1 ≤ length arguments
      → Compiles Bound (length arguments) (compile_condition c arguments)
  condition-Bound (node column operator value every some_of negated) arguments h =
      if-Compiles (is_empty column) _ _ _
        (negated-Bound negated _ arguments h (
          if-Compiles (any_given some_of) _ _ _
            (joined-Bound _ " OR " _ refl (clauses-Bound some_of arguments h))
            (joined-Bound _ " AND " _ refl (clauses-Bound every arguments h))))
        (predicate-Bound column operator value arguments h)

  negated-Bound :
      (c : Negated) (group : Compiled (List Piece)) (arguments : List Argument)
      → 1 ≤ length arguments
      → Compiles Bound (length arguments) group
      → Compiles Bound (length arguments) (compile_negated c group arguments)
  negated-Bound absent group arguments h g = g
  negated-Bound (present c) group arguments h g =
      then-Compiles Bound Bound (length arguments) (compile_condition c arguments) _
        (condition-Bound c arguments h)
        (λ ps more le bound. (omega arith, (refl, parentheses-Bound _ ps bound)))

  clauses-Bound :
      (cs : Conditions) (arguments : List Argument)
      → 1 ≤ length arguments
      → Compiles AllBound (length arguments) (compile_clauses cs arguments)
  clauses-Bound Conditions.nil arguments h = (omega arith, tt)
  clauses-Bound (Conditions.cons c cs) arguments h =
      then-Compiles Bound AllBound (length arguments) (compile_condition c arguments) _
        (condition-Bound c arguments h)
        (λ ps more le bound.
          then-Compiles AllBound AllBound (length more) (compile_clauses cs more) _
            (clauses-Bound cs more (omega (arith, h, le)))
            (λ rest last le2 bounds.
              (omega arith, (parentheses-Bound _ ps (Bound-grows _ _ ps le2 bound), bounds))))
