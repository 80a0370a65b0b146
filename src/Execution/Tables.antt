-- ===== src/Execution/Tables.antt =====
-- internal/execution/enable.go: the texts that name a table.
use retentionops_connector.Prelude.{
  ◌≡◌, refl, ap, subst, ◌∙◌, ◌↔◌, ℕ, false, List, [], ◌∷◌, ◌++◌, is_nil, ◌||◌, eqb, All, Option,
  none, some, arith, Bool-cases, Option-cases, inl, inr,
}
use retentionops_connector.Prelude.Result.{ok, >>=-eq-ok, refuse_if, refuse_if-eq-ok}
use retentionops_connector.Execution.{Table, bad_table, cut, cut_or_refuse, parse_table}

-- No character of the text is `c`.
abbrev pub Lacks : ℕ → List ℕ → Type 0
Lacks c = All (λ d. eqb d c ≡ false)

pub cut-append :
    (sep : ℕ) (before after : List ℕ)
    → Lacks sep before
    → cut sep (before ++ sep ∷ after) ≡ some (before, after)
unfolding cut
cut-append sep [] after h = ground arith
cut-append sep (c ∷ s) after h = rw (h.0, cut-append sep s after h.1) refl

pub cut_sound :
    (sep : ℕ) (s before after : List ℕ)
    → cut sep s ≡ some (before, after)
    → (s ≡ before ++ sep ∷ after) × Lacks sep before
unfolding cut
cut_sound sep [] before after h = absurd (cc h)
cut_sound sep (c ∷ s) before after h = elim (Bool-cases (eqb c sep)) [
  | inl at ↦
      let parts : ◌≡◌ {A = List ℕ × List ℕ} ([], s) (before, after) = cc (rw at at h) in
      subst (λ p. ((c ∷ s) ≡ p.0 ++ sep ∷ p.1) × Lacks sep p.0) parts
        (ap (λ d. d ∷ s) (ground arith), tt)
  | inr past ↦ elim (Option-cases (cut sep s)) [
    | inl nowhere ↦ absurd (cc (rw (past, nowhere) at h))
    | inr ((first, last), found) ↦
        let parts : ◌≡◌ {A = List ℕ × List ℕ} (c ∷ first, last) (before, after) =
          cc (rw (past, found) at h) in
        let (same, lacks) = cut_sound sep s first last found in
        subst (λ p. ((c ∷ s) ≡ p.0 ++ sep ∷ p.1) × Lacks sep p.0) parts
          (ap (◌∷◌ c) same, (past, lacks))
  ]
]

Lacks-append : (c : ℕ) (xs ys : List ℕ) → Lacks c xs → Lacks c ys → Lacks c (xs ++ ys)
Lacks-append c [] ys p q = q
Lacks-append c (x ∷ xs) ys p q = (p.0, Lacks-append c xs ys p.1 q)

Lacks-parts : (c : ℕ) (xs ys : List ℕ) → Lacks c (xs ++ ys) → Lacks c xs × Lacks c ys
Lacks-parts c [] ys p = (tt, p)
Lacks-parts c (x ∷ xs) ys p = let (left, right) = Lacks-parts c xs ys p.1 in ((p.0, left), right)

-- `value` is `schema.name:column`, split at the first colon and at the first dot before it.
pub record Spells (value : List ℕ) (t : Table (List ℕ)) : Type 0 where
  pub spelled : value ≡ (t.schema ++ b'.' ∷ t.name) ++ b':' ∷ t.retention_column
  pub schema_dot : Lacks b'.' t.schema
  pub schema_colon : Lacks b':' t.schema
  pub name_colon : Lacks b':' t.name
  pub schema : is_nil t.schema ≡ false
  pub name : is_nil t.name ≡ false
  pub column : is_nil t.retention_column ≡ false

Spells-parse : (value : List ℕ) (t : Table (List ℕ)) → Spells value t → parse_table value ≡ ok t
unfolding parse_table
Spells-parse value t w =
    let target = t.schema ++ b'.' ∷ t.name in
    let no_colon = Lacks-append b':' t.schema (b'.' ∷ t.name) w.schema_colon (refl, w.name_colon) in
    rw
      (
        w.spelled,
        cut-append b':' target t.retention_column no_colon,
        cut-append b'.' t.schema t.name w.schema_dot,
        w.schema,
        w.name,
        w.column,
      )
      refl

cut_or_refuse-ok :
    (o : Option (List ℕ × List ℕ)) (p : List ℕ × List ℕ) → cut_or_refuse o ≡ ok p → o ≡ some p
cut_or_refuse-ok none p h = absurd (cc h)
cut_or_refuse-ok (some q) p h = cc h

parse-Spells : (value : List ℕ) (t : Table (List ℕ)) → parse_table value ≡ ok t → Spells value t
unfolding parse_table
parse-Spells value t h =
    let ((target, column), cut1, h1) = >>=-eq-ok (cut_or_refuse (cut b':' value)) _ h in
    let ((schema, name), cut2, h2) = >>=-eq-ok (cut_or_refuse (cut b'.' target)) _ h1 in
    let (_, kept, done) =
      >>=-eq-ok (refuse_if (is_nil schema || (is_nil name || is_nil column)) bad_table) _ h2 in
    let (whole, no_colon) = cut_sound b':' value target column (cut_or_refuse-ok _ _ cut1) in
    let (inner, no_dot) = cut_sound b'.' target schema name (cut_or_refuse-ok _ _ cut2) in
    let full = refuse_if-eq-ok (is_nil schema || (is_nil name || is_nil column)) bad_table kept in
    let parts = Lacks-parts b':' schema (b'.' ∷ name) (subst (Lacks b':') inner no_colon) in
    let same : record { schema = schema; name = name; retention_column = column } ≡ t = cc done in
    subst (Spells value) same (record {
      spelled = whole ∙ ap (λ x. x ++ b':' ∷ column) inner;
      schema_dot = no_dot;
      schema_colon = parts.0;
      name_colon = parts.1.1;
      schema = ground (arith, full);
      name = ground (arith, full);
      column = ground (arith, full);
    })

-- A text names a table exactly if it is a schema, a dot, a table, a colon and a column, none of them
-- empty, with no colon in the schema or the table and no dot in the schema; the result has these three.
pub parse_table_iff :
    (value : List ℕ) (t : Table (List ℕ)) → (parse_table value ≡ ok t) ↔ Spells value t
parse_table_iff value t = (parse-Spells value t, Spells-parse value t)
