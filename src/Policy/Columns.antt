-- ===== src/Policy/Columns.antt =====
-- internal/policy/policy.go, `conditionColumns`: the columns that a job's conditions name.
use retentionops_connector.Prelude.{String, Option, none, some, List, [], ◌∷◌, ◌++◌, if◌then◌else◌}
use retentionops_connector.Prelude.Text.{is_empty}
use retentionops_connector.Protocol.Job.{Condition, Conditions, Negated, node, absent, present}

-- `if node.Column != "" { columns = append(columns, node.Column) }`
abbrev pub own_column : String → List String
own_column column = if is_empty column then [] else column ∷ []

unfoldable mutual
  pub columns : Condition → List String
  columns (node column operator value every some_of negated) =
      own_column column
      ++ (columns_of_all every ++ (columns_of_all some_of ++ columns_of_negated negated))

  pub columns_of_all : Conditions → List String
  columns_of_all Conditions.nil = []
  columns_of_all (Conditions.cons c cs) = columns c ++ columns_of_all cs

  pub columns_of_negated : Negated → List String
  columns_of_negated absent = []
  columns_of_negated (present c) = columns c

abbrev pub root_columns : Option Condition → List String
root_columns none = []
root_columns (some c) = columns c

abbrev pub hold_columns : List Condition → List String
hold_columns [] = []
hold_columns (h ∷ hs) = columns h ++ hold_columns hs

unfoldable pub condition_columns : Option Condition → List Condition → List String
condition_columns condition holds = root_columns condition ++ hold_columns holds
