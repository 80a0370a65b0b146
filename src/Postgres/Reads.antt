-- ===== src/Postgres/Reads.antt =====
-- adapters/postgres/adapter.go: `TestConnection` and `Discover` with `attachReferences`.
pub mod Grouped
use Prim.Native.String.{◌++◌ as append_text}
use retentionops_connector.Prelude.{
  String, Bool, true, false, not, ◌&&◌, List, [], ◌∷◌, ◌++◌, any, if◌then◌else◌, Option, none, some,
}
use retentionops_connector.Prelude.Int.{pos}
use retentionops_connector.Prelude.Text.{◌==◌}
use retentionops_connector.Prelude.Result.{Result, ok, err}
use retentionops_connector.Protocol.Result.{Statistics, Table, Column, Reference, FailureCode}
use retentionops_connector.Evidence.{no_statistics}
use retentionops_connector.Config.{Source}
use retentionops_connector.Policy.{grants_delete}
use retentionops_connector.Postgres.Errors.{RunError, operational}
use retentionops_connector.Postgres.Session.{
  Session, Action, CatalogRow, ReferenceRow, reader, executor, connect, driver, finally, ◌>>=◌,
  ◌>>◌,
}

-- `schema + "." + table`
abbrev pub key_of : String → String → String
key_of schema table = append_text schema (append_text "." table)

abbrev pub table_key : Table → String
table_key t = key_of t.schema t.table

abbrev pub column_of : CatalogRow → Column
column_of r = record {
  name = r.column;
  type_name = r.data_type;
  nullable = r.nullable;
  primary_key = r.primary;
  references = none;
}

-- One row of the catalogue: its column goes to the table of its key, or to a new table at the end.
unfoldable pub add_row : List Table → CatalogRow → List Table
add_row [] r =
    record {
      schema = r.schema;
      table = r.table;
      estimated_rows = pos 0;
      columns = column_of r ∷ [];
    }
    ∷ []
add_row (t ∷ ts) r =
    let rest = add_row ts r in
    if table_key t == key_of r.schema r.table
    then record t { columns = t.columns ++ (column_of r ∷ []) } ∷ ts
    else t ∷ rest

unfoldable pub add_rows : List Table → List CatalogRow → List Table
unfolding add_row
add_rows ts [] = ts
add_rows ts (r ∷ rs) = add_rows (add_row ts r) rs

-- the inner loop of `attachReferences`: the first column of the name
abbrev pub refer_column : String → Reference → List Column → List Column
refer_column name reference [] = []
refer_column name reference (c ∷ cs) =
    let rest = refer_column name reference cs in
    if c.name == name then record c { references = some reference } ∷ cs else c ∷ rest

abbrev pub refer_table : String → String → Reference → List Table → List Table
refer_table key name reference [] = []
refer_table key name reference (t ∷ ts) =
    let rest = refer_table key name reference ts in
    if table_key t == key
    then record t { columns = refer_column name reference t.columns } ∷ ts
    else t ∷ rest

-- A foreign key between two tables of the catalogue.
unfoldable pub attach_reference : List Table → ReferenceRow → List Table
attach_reference ts r =
    if any (λ t. table_key t == key_of r.target_schema r.target_table) ts
    then refer_table (key_of r.source_schema r.source_table) r.source_column
        (record { schema = r.target_schema; table = r.target_table; column = r.target_column }) ts
    else ts

unfoldable pub attach_references : List Table → List ReferenceRow → List Table
unfolding attach_reference
attach_references ts [] = ts
attach_references ts (r ∷ rs) = attach_references (attach_reference ts r) rs

module _ {S : Type 0} (session : Session S) where
  unfoldable pub discover : Action S Statistics
  discover =
      connect session reader
      >> finally session.close (
          driver session.read_catalog >>= λ rows. driver session.read_references >>= λ references.
          λ s. (
            ok (record no_statistics { tables = attach_references (add_rows [] rows) references }),
            s,
          ))

  abbrev pub reached : Source → String → Statistics
  reached source version = record no_statistics {
    tls_mode = source.tls.mode;
    database_version = version;
    reader_validated = true;
  }

  -- The executor's connection fails, and the statistics say so, or it is closed at once.
  abbrev pub with_executor :
      Statistics → Result RunError (Unit {0}) × S → Result RunError Statistics × S
  with_executor st (err e, s) = (ok st, s)
  with_executor st (ok u, s) = (ok (record st { executor_validated = true }), session.close s)

  abbrev pub validated : Source → String × Bool → Action S Statistics
  validated source (version, encrypted) s =
      if not encrypted && not (source.tls.mode == "require")
      then (err (operational FailureCode.tls), s)
      else if grants_delete source.safety
      then with_executor (reached source version) (connect session executor s)
      else (ok (reached source version), s)

  unfoldable pub test_connection : Source → Action S Statistics
  test_connection source =
      connect session reader
      >> finally session.close (driver session.read_version >>= validated source)
