-- ===== src/SqlServer.antt =====
-- The rendering of a dataset schema for SQL Server, in src/sqlserver.rs: `create_table_ddl`,
-- `ColumnType` and the planning half of `BulkRowPlan`. How Arrow displays a type is a parameter.
pub mod Plan
pub mod Table
use data_spark.Prelude.{
  ℕ, zero, suc, ◌+◌, String, Bool, true, false, not, ◌&&◌, ◌||◌, Option, none, some, List, [], ◌∷◌,
  ◌++◌, map, length, leb, ◌==◌, str_eq, if◌then◌else◌,
}
use data_spark.Prelude.Outcome.{Result, ok, err, ◌>>=◌}
use data_spark.Prelude.Text.{show, join}
use data_spark.Failure.{LoadFailure}
use data_spark.Schema.Column.{DataType, ArrowField}

unfoldable pub sql_write_failure : String → LoadFailure
sql_write_failure message = record { code = "destination_write_failed"; message = message }

-- `name.replace(']', "]]")`
unfoldable pub escape : String → String
escape String.[] = ""
escape (String.◌∷◌ c s) =
    let rest = escape s in
    if str_eq (String.◌∷◌ c "") "]" then String.◌∷◌ c (String.◌∷◌ c rest) else String.◌∷◌ c rest

unfoldable pub quote_identifier : String → String
unfolding escape join
quote_identifier name = join "" ("[" ∷ escape name ∷ "]" ∷ [])

pub data ColumnType : Type 0 where
  big_int float53 bit nvarchar_max date_time2_micros : ColumnType
  decimal : ℕ → ℕ → ColumnType

unfoldable pub ddl : ColumnType → String
unfolding show join
ddl ColumnType.big_int = "BIGINT"
ddl ColumnType.float53 = "FLOAT(53)"
ddl ColumnType.bit = "BIT"
ddl ColumnType.nvarchar_max = "NVARCHAR(MAX)"
ddl ColumnType.date_time2_micros = "DATETIME2(6)"
ddl (ColumnType.decimal precision scale) =
    join "" ("DECIMAL(" ∷ show precision ∷ "," ∷ show scale ∷ ")" ∷ [])

-- The position of the first field of that name, with the field: `Schema::schema_index_of`, `Schema::field`.
unfoldable pub schema_index_of : List ArrowField → String → Option (ℕ × ArrowField)
schema_index_of [] name = none
schema_index_of (field ∷ fields) name =
    let later = schema_index_of fields name in
    if str_eq field.name name
    then some (0, field)
    else elim later [ none ↦ none | some (index, found) ↦ some (suc index, found) ]

module _ (display : DataType → String) where
  abbrev unmapped : ArrowField → Result LoadFailure ColumnType
  unmapped field = err (
      sql_write_failure (
        join "" (
          "dataset field "
          ∷ field.name
          ∷ " has no SQL Server column type mapping: "
          ∷ display field.data_type
          ∷ [])))

  unfoldable pub from_arrow : ArrowField → Result LoadFailure ColumnType
  unfolding join sql_write_failure
  from_arrow field = elim field.data_type [
    | DataType.int64 ↦ ok ColumnType.big_int
    | DataType.float64 ↦ ok ColumnType.float53
    | DataType.boolean ↦ ok ColumnType.bit
    | DataType.utf8 ↦ ok ColumnType.nvarchar_max
    | DataType.timestamp none ↦ ok ColumnType.date_time2_micros
    | DataType.timestamp (some zone) ↦
        if str_eq zone "UTC" then ok ColumnType.date_time2_micros else unmapped field
    | DataType.decimal128 precision scale ↦
        if leb 1 precision && leb precision 38 && leb scale precision
        then ok (ColumnType.decimal precision scale)
        else unmapped field
  ]

  abbrev nullability : Bool → String
  nullability true = "NULL"
  nullability false = "NOT NULL"

  unfoldable pub column_ddl : ArrowField → Result LoadFailure String
  unfolding from_arrow quote_identifier ddl join
  column_ddl field = from_arrow field >>= λ column_type.
      ok
        (join " " (quote_identifier field.name ∷ ddl column_type ∷ nullability field.nullable ∷ []))

  -- The columns, up to the first that fails.
  unfoldable pub column_ddls : List ArrowField → Result LoadFailure (List String)
  unfolding column_ddl
  column_ddls [] = ok []
  column_ddls (field ∷ fields) =
      column_ddl field >>= λ column. column_ddls fields >>= λ columns. ok (column ∷ columns)

  unfoldable pub create_table_ddl : List ArrowField → String → String → Result LoadFailure String
  unfolding column_ddls quote_identifier join sql_write_failure
  create_table_ddl [] schema_name table_name = err (
      sql_write_failure (
        join "" (
          "cannot create SQL Server table "
          ∷ quote_identifier schema_name
          ∷ "."
          ∷ quote_identifier table_name
          ∷ ": the dataset schema has no fields"
          ∷ [])))
  create_table_ddl (field ∷ fields) schema_name table_name =
      column_ddls (field ∷ fields) >>= λ columns. ok (
        join "" (
          "CREATE TABLE "
          ∷ quote_identifier schema_name
          ∷ "."
          ∷ quote_identifier table_name
          ∷ " ("
          ∷ join ", " columns
          ∷ ")"
          ∷ []))
