-- ===== src/Postgres/Reads/Grouped.antt =====
-- adapters/postgres/adapter.go: how `Discover` groups the rows of the catalogue.
use retentionops_connector.Prelude.{
  ◌≡◌, refl, sym, ap, subst, ◌∙◌, String, false, List, [], ◌∷◌, ◌++◌, All, Bool-cases, inl, inr,
  if◌then◌else◌,
}
use retentionops_connector.Prelude.Text.{◌==◌, eq_iff}
use retentionops_connector.Protocol.Result.{Table, Column}
use retentionops_connector.Postgres.Session.{CatalogRow}
use retentionops_connector.Postgres.Reads.{key_of, table_key, column_of, add_row, add_rows}

abbrev pub row_key : CatalogRow → String
row_key r = key_of r.schema r.table

-- The columns of the tables with a key, and of the rows with a key, in order.
abbrev pub table_columns : String → List Table → List Column
table_columns key [] = []
table_columns key (t ∷ ts) = (if table_key t == key then t.columns else []) ++ table_columns key ts

abbrev pub row_columns : String → List CatalogRow → List Column
row_columns key [] = []
row_columns key (r ∷ rs) = (if row_key r == key then column_of r ∷ [] else []) ++ row_columns key rs

-- No two tables have the same key.
abbrev pub Keyed : List Table → Type 0
Keyed [] = Unit
Keyed (t ∷ ts) = All (λ u. (table_key u == table_key t) ≡ false) ts × Keyed ts

append_nil : (xs : List Column) → xs ++ [] ≡ xs
append_nil [] = refl
append_nil (x ∷ xs) = ap (λ ys. x ∷ ys) (append_nil xs)

append_assoc : (xs ys zs : List Column) → (xs ++ ys) ++ zs ≡ xs ++ (ys ++ zs)
append_assoc [] ys zs = refl
append_assoc (x ∷ xs) ys zs = ap (λ ws. x ∷ ws) (append_assoc xs ys zs)

add_row-All :
    (key : String) (ts : List Table) (r : CatalogRow)
    → All (λ u. (table_key u == key) ≡ false) ts
    → (row_key r == key) ≡ false
    → All (λ u. (table_key u == key) ≡ false) (add_row ts r)
unfolding add_row
add_row-All key [] r h k = (k, tt)
add_row-All key (t ∷ ts) r h k = elim (Bool-cases (table_key t == row_key r)) [
  | inl same ↦ rw same h
  | inr other ↦ rw other (h.0, add_row-All key ts r h.1 k)
]

add_row-Keyed : (ts : List Table) (r : CatalogRow) → Keyed ts → Keyed (add_row ts r)
unfolding add_row
add_row-Keyed [] r h = (tt, tt)
add_row-Keyed (t ∷ ts) r h = elim (Bool-cases (table_key t == row_key r)) [
  | inl same ↦ rw same h
  | inr other ↦
      rw other (add_row-All (table_key t) ts r h.0 (flipped other), add_row-Keyed ts r h.1)
]
  where
    flipped : (table_key t == row_key r) ≡ false → (row_key r == table_key t) ≡ false
    flipped other = elim (Bool-cases (row_key r == table_key t)) [
      | inl same ↦ absurd (
          cc (
            other,
            (eq_iff (table_key t) (row_key r)).1 (sym ((eq_iff (row_key r) (table_key t)).0 same)),
          ))
      | inr apart ↦ apart
    ]

absent_columns :
    (key : String) (ts : List Table)
    → All (λ u. (table_key u == key) ≡ false) ts
    → table_columns key ts ≡ []
absent_columns key [] h = refl
absent_columns key (t ∷ ts) h = rw h.0 (absent_columns key ts h.1)

-- A row of the first table.
first_columns :
    (key : String) (t : Table) (ts : List Table) (r : CatalogRow)
    → Keyed (t ∷ ts)
    → table_key t ≡ row_key r
    → (if table_key t == key then t.columns ++ (column_of r ∷ []) else []) ++ table_columns key ts
      ≡ ((if table_key t == key then t.columns else []) ++ table_columns key ts)
        ++ (if row_key r == key then column_of r ∷ [] else [])
first_columns key t ts r h same = elim (Bool-cases (table_key t == key)) [
  | inl e ↦
      let none_later : table_columns key ts ≡ [] = absent_columns key ts (
        subst (λ k. All (λ u. (table_key u == k) ≡ false) ts) ((eq_iff (table_key t) key).0 e)
          h.0) in
      rw (sym same, e, none_later)
        (append_nil _ ∙ ap (λ cs. cs ++ (column_of r ∷ [])) (sym (append_nil t.columns)))
  | inr e ↦ rw (sym same, e) (sym (append_nil (table_columns key ts)))
]

add_row-columns :
    (key : String) (ts : List Table) (r : CatalogRow)
    → Keyed ts
    → table_columns key (add_row ts r)
      ≡ table_columns key ts ++ (if row_key r == key then column_of r ∷ [] else [])
unfolding add_row
add_row-columns key [] r h = append_nil _
add_row-columns key (t ∷ ts) r h = elim (Bool-cases (table_key t == row_key r)) [
  | inl same ↦ rw same (first_columns key t ts r h ((eq_iff (table_key t) (row_key r)).0 same))
  | inr other ↦ rw other (
      ap (λ cs. (if table_key t == key then t.columns else []) ++ cs) (add_row-columns key ts r h.1)
      ∙ sym (append_assoc _ (table_columns key ts) _))
]

add_rows-grouped :
    (key : String) (ts : List Table) (rows : List CatalogRow)
    → Keyed ts
    → Keyed (add_rows ts rows)
      × (table_columns key (add_rows ts rows) ≡ table_columns key ts ++ row_columns key rows)
unfolding add_rows
add_rows-grouped key ts [] h = (h, sym (append_nil (table_columns key ts)))
add_rows-grouped key ts (r ∷ rs) h =
    let (keyed, same) = add_rows-grouped key (add_row ts r) rs (add_row-Keyed ts r h) in
    (
      keyed,
      same
          ∙ (ap (λ cs. cs ++ row_columns key rs) (add_row-columns key ts r h)
              ∙ append_assoc (table_columns key ts) _ _),
    )

-- Discovery has one table for each name in the catalogue, and the columns under a name are those of
-- its rows, in the order of the catalogue.
pub add_rows-Keyed :
    (key : String) (rows : List CatalogRow)
    → Keyed (add_rows [] rows) × (table_columns key (add_rows [] rows) ≡ row_columns key rows)
add_rows-Keyed key rows = add_rows-grouped key [] rows tt
