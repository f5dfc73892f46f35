-- ===== src/Examples/Tables.antt =====
-- The plan of bulk rows at a concrete table.
use data_spark.Prelude.{All, ℕ, true, false, none, List, [], ◌∷◌, ◌≡◌, refl, length, ◌<◌}
use data_spark.Prelude.Outcome.{ok}
use data_spark.Schema.Column.{DataType, ArrowField}
use data_spark.SqlServer.{ColumnType, create_table_ddl}
use data_spark.Prelude.Int.{pos}
use data_spark.LoadMode.{LoadMode}
use data_spark.SqlServer.Table.{TableColumn, validate, HasColumn, IsFilled, validate-Takes}
use data_spark.SqlServer.Plan.{
  BulkRowPlan, Reads, positions, column_names, is_planned, new, new-IsOneToOne,
}

abbrev dataset : List ArrowField
dataset =
    record { name = "id"; data_type = DataType.int64; nullable = false }
    ∷ record { name = "a]b"; data_type = DataType.decimal128 10 2; nullable = true }
    ∷ []

table_ddl :
    create_table_ddl (λ t. "") dataset "dbo" "rows"
    ≡ ok "CREATE TABLE [dbo].[rows] ([id] BIGINT NOT NULL, [a]]b] DECIMAL(10,2) NULL)"
unfolding create_table_ddl
table_ddl = refl

abbrev table_plan : BulkRowPlan
table_plan = record {
  dataset = dataset;
  columns =
      record {
        name = "a]b";
        field_index = 1;
        wire_type = none;
        column_type = ColumnType.decimal 10 2;
      }
      ∷ record { name = "id"; field_index = 0; wire_type = none; column_type = ColumnType.big_int }
      ∷ [];
}

table_planned : new (λ t. "") dataset ("a]b" ∷ "id" ∷ []) ≡ ok table_plan
unfolding new
table_planned = refl

new-IsOneToOne_example :
    (column_names table_plan ≡ "a]b" ∷ "id" ∷ [])
    × Reads (λ t. "") dataset [] table_plan.columns
    × ((i : ℕ)
        → i < length dataset
        → is_planned i (positions (λ t. "") dataset table_plan.columns) ≡ true)
new-IsOneToOne_example =
    new-IsOneToOne (λ t. "") dataset ("a]b" ∷ "id" ∷ []) table_plan table_planned

abbrev table_columns : List TableColumn
table_columns =
    record {
      name = "key";
      type_name = "bigint";
      precision = 19;
      scale = 0;
      max_length = pos 8;
      nullable = false;
      identity = true;
      has_default = false;
    }
    ∷ record {
      name = "id";
      type_name = "int";
      precision = 10;
      scale = 0;
      max_length = pos 4;
      nullable = false;
      identity = false;
      has_default = false;
    }
    ∷ record {
      name = "a]b";
      type_name = "numeric";
      precision = 12;
      scale = 2;
      max_length = pos 9;
      nullable = true;
      identity = false;
      has_default = false;
    }
    ∷ []

table_accepted : validate (λ t. "") table_columns LoadMode.append [] false dataset ≡ ok tt
unfolding validate
table_accepted = refl

validate-Takes_example :
    All (HasColumn (λ t. "") table_columns LoadMode.append [] false) dataset
    × All (IsFilled (λ t. "") table_columns LoadMode.append [] false dataset) table_columns
validate-Takes_example =
    validate-Takes (λ t. "") table_columns LoadMode.append [] false dataset table_accepted
