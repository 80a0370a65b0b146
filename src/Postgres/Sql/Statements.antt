-- ===== src/Postgres/Sql/Statements.antt =====
-- adapters/postgres/sql.go: the three statements of a job.
use retentionops_connector.Prelude.{
  ℕ, ◌+◌, ◌≤◌, ◌≡◌, refl, true, List, [], ◌∷◌, ◌++◌, length, Option, none, some, arith, Bool-cases,
  inl, inr,
}
use retentionops_connector.Prelude.Result.{◌>>=◌}
use retentionops_connector.Protocol.Formats.{is_identifier}
use retentionops_connector.Protocol.Job.{Condition, Target, Predicate, PredicateType}
use retentionops_connector.Postgres.Sql.{
  Piece, raw, name, placeholder, Argument, cutoff, Compiled, qualified, compile_condition,
  compile_conditions, comparison, with_condition, eligibility_where, excluding, candidate_where,
  count_statement, held_count_statement, delete_batch_statement,
}
use retentionops_connector.Postgres.Sql.Bound.{
  is_fragment, PieceBound, Bound, AllBound, Compiles, Plain, All-++, Bound-grows, AllBound-grows,
  parentheses-Bound, join-Bound, then-Compiles, quote-Bound, condition-Bound,
}

conditions-Bound :
    (cs : List Condition) (arguments : List Argument)
    → 1 ≤ length arguments
    → Compiles AllBound (length arguments) (compile_conditions cs arguments)
unfolding compile_conditions
conditions-Bound [] arguments h = (omega arith, tt)
conditions-Bound (c ∷ cs) arguments h =
    then-Compiles Bound AllBound (length arguments) (compile_condition c arguments) _
      (condition-Bound c arguments h)
      (λ ps more le bound.
        then-Compiles AllBound AllBound (length more) (compile_conditions cs more) _
          (conditions-Bound cs more (omega (arith, h, le)))
          (λ rest last le2 bounds.
            (omega arith, (parentheses-Bound _ ps (Bound-grows _ _ ps le2 bound), bounds))))

with_condition-Bound :
    (part : List Piece) (condition : Option Condition) (arguments : List Argument)
    → 1 ≤ length arguments
    → ((n : ℕ) → 1 ≤ n → Bound n part)
    → Compiles AllBound (length arguments) (with_condition part condition arguments)
with_condition-Bound part none arguments h bound = (omega arith, (bound _ h, tt))
with_condition-Bound part (some c) arguments h bound =
    then-Compiles Bound AllBound (length arguments) (compile_condition c arguments) _
      (condition-Bound c arguments h)
      (λ ps more le g.
        (omega arith, (bound _ (omega (arith, h, le)), (parentheses-Bound _ ps g, tt))))

comparison-fragment : (t : PredicateType) → is_fragment (comparison t) ≡ true
unfolding comparison
comparison-fragment PredicateType.on_or_before_type = refl
comparison-fragment _ = refl

eligibility-Bound :
    (p : Predicate) (condition : Option Condition)
    → Compiles AllBound 1 (eligibility_where p condition)
unfolding eligibility_where
eligibility-Bound p condition = quote-Bound AllBound 1 p.column _ (λ column plain.
    with_condition-Bound _ condition (cutoff p.value ∷ []) (omega arith)
      (λ n h. (plain n, (refl, (comparison-fragment p.type_name, (refl, ((omega arith, h), tt)))))))

excluding-Bound : (n : ℕ) (cs : List (List Piece)) → AllBound n cs → AllBound n (excluding cs)
excluding-Bound n [] h = tt
excluding-Bound n (c ∷ cs) h =
    ((refl, parentheses-Bound n _ (join-Bound n " OR " (c ∷ cs) refl h)), tt)

candidate-Bound :
    (p : Predicate) (condition : Option Condition) (holds : List Condition)
    → Compiles Bound 1 (candidate_where p condition holds)
unfolding candidate_where
candidate-Bound p condition holds =
    then-Compiles AllBound Bound 1 (eligibility_where p condition) _ (eligibility-Bound p condition)
      (λ parts arguments le bounds.
        then-Compiles AllBound Bound (length arguments) (compile_conditions holds arguments) _
          (conditions-Bound holds arguments le)
          (λ held last le2 held_bounds. (
            omega arith,
            join-Bound _ " AND " _ refl (
                All-++ (Bound _) parts (excluding held) (AllBound-grows _ _ parts le2 bounds)
                  (excluding-Bound _ held held_bounds)),
          )))

-- A table name is bound whatever the arguments.
qualified-Bound :
    {B : Type 0} (Q : ℕ → B → Type 0) (n : ℕ) (t : Target) (k : List Piece → Compiled B)
    → ((ps : List Piece) → ((m : ℕ) → Bound m ps) → Compiles Q n (k ps))
    → Compiles Q n (qualified t >>= k)
unfolding qualified
qualified-Bound Q n t k next = elim (Bool-cases (is_identifier t.schema)) [
  | inl schema ↦ elim (Bool-cases (is_identifier t.table)) [
    | inl table ↦
        rw (schema, table)
          (next (name t.schema ∷ raw "." ∷ name t.table ∷ []) (λ m. (schema, (refl, (table, tt)))))
    | inr bad ↦ rw (schema, bad) tt
  ]
  | inr bad ↦ rw bad tt
]

-- What a deletion is bound by: the size of the batch is one argument more.
abbrev pub BatchBound : ℕ → List Piece → Type 0
BatchBound n ps = Bound (n + 1) ps

module _ (t : Target) (p : Predicate) (condition : Option Condition) (holds : List Condition) where
  count-Bound : Compiles Bound 1 (count_statement t p condition holds)
  unfolding count_statement
  count-Bound = quote-Bound Bound 1 p.column _ (λ column plain.
      then-Compiles Bound Bound 1 (candidate_where p condition holds) _
        (candidate-Bound p condition holds)
        (λ w arguments le bound. qualified-Bound Bound (length arguments) t _ (λ table table_plain.
          (
            omega arith,
            (
              refl,
              (
                plain _,
                (
                  refl,
                  (plain _, (refl, All-++ (PieceBound _) table _ (table_plain _) (refl, bound))),
                ),
              ),
            ),
          ))))

  held-Bound : Compiles Bound 1 (held_count_statement t p condition holds)
  unfolding held_count_statement
  held-Bound =
      then-Compiles AllBound Bound 1 (eligibility_where p condition) _
        (eligibility-Bound p condition)
        (λ parts arguments le bounds.
          then-Compiles AllBound Bound (length arguments) (compile_conditions holds arguments) _
            (conditions-Bound holds arguments le)
            (λ held last le2 held_bounds.
              qualified-Bound Bound (length last) t _ (λ table table_plain. (
                omega arith,
                (
                  refl,
                  All-++ (PieceBound _) table _ (table_plain _) (
                    refl,
                    join-Bound _ " AND " _ refl (
                        All-++ (Bound _) parts _ (AllBound-grows _ _ parts le2 bounds)
                          (parentheses-Bound _ _ (join-Bound _ " OR " held refl held_bounds), tt)),
                  ),
                ),
              ))))

  batch-Bound : Compiles BatchBound 1 (delete_batch_statement t p condition holds)
  unfolding delete_batch_statement
  batch-Bound = qualified-Bound BatchBound 1 t _ (λ table table_plain.
      quote-Bound BatchBound 1 p.column _ (λ column plain.
        then-Compiles Bound BatchBound 1 (candidate_where p condition holds) _
          (candidate-Bound p condition holds)
          (λ w arguments le bound. (
            omega arith,
            deletion arguments table table_plain column plain w
                (Bound-grows _ _ w (omega arith) bound),
          ))))
    where
      deletion :
          (arguments : List Argument) (table : List Piece) (table_plain : (m : ℕ) → Bound m table)
          (column : Piece) (plain : Plain column) (w : List Piece)
          → BatchBound (length arguments) w
          → BatchBound (length arguments) (
              raw "WITH doomed AS (SELECT ctid FROM "
              ∷ (table
                  ++ (raw " WHERE "
                      ∷ (w
                          ++ (raw " ORDER BY "
                              ∷ column
                              ∷ raw " LIMIT "
                              ∷ placeholder (length arguments + 1)
                              ∷ raw ") DELETE FROM "
                              ∷ (table
                                  ++ (raw " WHERE ctid IN (SELECT ctid FROM doomed) AND " ∷ w)))))))
      deletion arguments table table_plain column plain w bound = (
        refl,
        All-++ (PieceBound _) table _ (table_plain _) (
          refl,
          All-++ (PieceBound _) w _ bound (
            refl,
            (
              plain _,
              (
                refl,
                (
                  (omega arith, omega arith),
                  (refl, All-++ (PieceBound _) table _ (table_plain _) (refl, bound)),
                ),
              ),
            ),
          ),
        ),
      )

  -- Each statement of a job that compiles is written with the fixed texts of `fragments` and with plain
  -- identifiers in quotes, so that no other text of a job gets into it, and each of its placeholders
  -- is the number of an argument: of those returned with the two counts, and of these and the size of
  -- the batch with the deletion.
  pub statements-Bound :
      Compiles Bound 1 (count_statement t p condition holds)
      × Compiles Bound 1 (held_count_statement t p condition holds)
      × Compiles BatchBound 1 (delete_batch_statement t p condition holds)
  statements-Bound = (count-Bound, held-Bound, batch-Bound)
