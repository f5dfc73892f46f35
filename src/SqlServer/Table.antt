-- ===== src/SqlServer/Table.antt =====
-- The validation of an existing table, in src/sqlserver/table.rs: `TableShape::validate`.
use data_spark.Prelude.{
  ℕ, ◌+◌, String, Bool, true, false, not, ◌&&◌, ◌||◌, Option, none, some, List, [], ◌∷◌, ◌++◌, leb,
  ◌==◌, str_eq, if◌then◌else◌, ◌≡◌, refl, arith, inl, inr, Option-cases, All,
}
use data_spark.Prelude.Int.{ℤ, pos, negsuc}
use data_spark.Prelude.Names.{contains}
use data_spark.Prelude.Outcome.{Result, ok, err}
use data_spark.Prelude.Text.{show, join}
use data_spark.Failure.{LoadFailure}
use data_spark.LoadMode.{LoadMode, same_mode}
use data_spark.Schema.Column.{DataType, ArrowField}
use data_spark.SqlServer.{ColumnType, from_arrow, schema_index_of}

pub record TableColumn : Type 0 where
  pub name : String
  pub type_name : String
  pub precision : ℕ
  pub scale : ℕ
  pub max_length : ℤ
  pub nullable : Bool
  pub identity : Bool
  pub has_default : Bool

unfoldable pub find_column_named : List TableColumn → String → Option TableColumn
find_column_named [] name = none
find_column_named (column ∷ columns) name =
    let later = find_column_named columns name in
    if str_eq column.name name then some column else later

-- `match ColumnType::from_arrow(field)`
unfoldable pub accepted : Bool → Result LoadFailure ColumnType → TableColumn → Bool
accepted rounding (ok ColumnType.big_int) column =
    str_eq column.type_name "bigint"
    || str_eq column.type_name "int"
    || str_eq column.type_name "smallint"
    || str_eq column.type_name "tinyint"
accepted rounding (ok ColumnType.float53) column =
    str_eq column.type_name "float" && column.precision == 53
accepted rounding (ok ColumnType.bit) column = str_eq column.type_name "bit"
accepted rounding (ok ColumnType.nvarchar_max) column = str_eq column.type_name "nvarchar"
accepted rounding (ok (ColumnType.decimal precision scale)) column =
    (str_eq column.type_name "decimal" || str_eq column.type_name "numeric")
    && column.scale == scale
accepted rounding (ok ColumnType.date_time2_micros) column =
    if str_eq column.type_name "datetime2"
    then leb 6 column.scale || rounding
    else str_eq column.type_name "datetime" && rounding
accepted rounding (err failure) column = false

abbrev show_bool : Bool → String
show_bool true = "true"
show_bool false = "false"

abbrev show_int : ℤ → String
show_int (pos n) = show n
show_int (negsuc n) = join "" ("-" ∷ show (n + 1) ∷ [])

-- The message, where the test holds.
unfoldable pub when : Bool → String → List String
when true message = message ∷ []
when false message = []

abbrev about : TableColumn → String → String
about column message = join "" ("column " ∷ column.name ∷ ": " ∷ message ∷ [])

module _ (display : DataType → String) (columns : List TableColumn) (mode : LoadMode)
    (merge_keys : List String) (accept_datetime_rounding : Bool) where
  abbrev incompatible : ArrowField → TableColumn → String
  incompatible field column = join "" (
      "column "
      ∷ column.name
      ∷ ": "
      ∷ column.type_name
      ∷ " is incompatible with "
      ∷ display field.data_type
      ∷ " (precision="
      ∷ show column.precision
      ∷ ", scale="
      ∷ show column.scale
      ∷ ", max_length="
      ∷ show_int column.max_length
      ∷ "; accept_datetime_rounding="
      ∷ show_bool accept_datetime_rounding
      ∷ ")"
      ∷ [])

  -- The violations of a field whose column is found.
  unfoldable pub column_violations : ArrowField → TableColumn → List String
  unfolding accepted from_arrow contains show join when
  column_violations field column =
      when (not (accepted accept_datetime_rounding (from_arrow display field) column))
        (incompatible field column)
      ++ when (field.nullable && not column.nullable)
          (about column "NOT NULL cannot receive a nullable dataset field")
      ++ when
          (column.identity && not (same_mode mode LoadMode.merge && contains field.name merge_keys))
          (about column "mapped IDENTITY is allowed only as a merge key in merge mode")
      ++ when (column.has_default && field.nullable && not (same_mode mode LoadMode.merge))
          (about column "DEFAULT would replace explicit NULL in append or full refresh")

  unfoldable pub field_violations : ArrowField → List String
  unfolding find_column_named column_violations join
  field_violations field = elim (find_column_named columns field.name) [
    | none ↦
        join ""
          ("column " ∷ field.name ∷ ": missing destination column (names must match exactly)" ∷ [])
        ∷ []
    | some column ↦ column_violations field column
  ]

  unfoldable pub dataset_violations : List ArrowField → List String
  unfolding field_violations
  dataset_violations [] = []
  dataset_violations (field ∷ fields) = field_violations field ++ dataset_violations fields

  abbrev pub is_extra : List ArrowField → String → Bool
  is_extra dataset name = elim (schema_index_of dataset name) [ none ↦ true | some found ↦ false ]

  unfoldable pub extra_violations : List ArrowField → List TableColumn → List String
  unfolding schema_index_of join when
  extra_violations dataset [] = []
  extra_violations dataset (column ∷ rest) =
      when
        (is_extra dataset column.name
          && not column.nullable
          && not column.identity
          && not column.has_default)
        (about column "extra NOT NULL column has neither IDENTITY nor DEFAULT")
      ++ extra_violations dataset rest

  abbrev judge_violations : List String → Result LoadFailure Unit
  judge_violations [] = ok tt
  judge_violations (violation ∷ violations) = err (record {
    code = "incompatible_destination_table";
    message = join "; " (violation ∷ violations);
  })

  -- `TableShape::validate`
  unfoldable pub validate : List ArrowField → Result LoadFailure Unit
  unfolding dataset_violations extra_violations
  validate dataset =
      judge_violations (dataset_violations dataset ++ extra_violations dataset columns)

  -- A column takes the field's type and its nulls, and its identity and default are of no harm.
  abbrev pub Takes : ArrowField → TableColumn → Type 0
  Takes field column =
      (accepted accept_datetime_rounding (from_arrow display field) column ≡ true)
      × (field.nullable && not column.nullable ≡ false)
      × (column.identity && not (same_mode mode LoadMode.merge && contains field.name merge_keys)
          ≡ false)
      × (column.has_default && field.nullable && not (same_mode mode LoadMode.merge) ≡ false)

  abbrev pub HasColumn : ArrowField → Type 0
  HasColumn field =
      (column : TableColumn) × (find_column_named columns field.name ≡ some column)
      × Takes field column

  append-empty : (xs ys : List String) → xs ++ ys ≡ [] → (xs ≡ []) × (ys ≡ [])
  append-empty [] ys h = (refl, h)
  append-empty (z ∷ zs) ys h = absurd (cc h)

  when-empty : (b : Bool) (message : String) → when b message ≡ [] → b ≡ false
  unfolding when
  when-empty false message h = refl
  when-empty true message h = absurd (cc h)

  not-false : (b : Bool) → not b ≡ false → b ≡ true
  not-false true h = refl
  not-false false h = absurd (cc h)

  column_violations-empty :
      (field : ArrowField) (column : TableColumn)
      → column_violations field column ≡ []
      → Takes field column
  unfolding column_violations
  column_violations-empty field column h =
      let (first_three, default) = append-empty _ _ h in
      let (first_two, identity) = append-empty _ _ first_three in
      let (fits, nulls) = append-empty _ _ first_two in
      (
        not-false _ (when-empty _ _ fits),
        when-empty _ _ nulls,
        when-empty _ _ identity,
        when-empty _ _ default,
      )

  field_violations-empty : (field : ArrowField) → field_violations field ≡ [] → HasColumn field
  unfolding field_violations
  field_violations-empty field h = elim (Option-cases (find_column_named columns field.name)) [
    | inl e ↦ absurd (ground (arith, e, h))
    | inr (column, e) ↦ (column, e, column_violations-empty field column (ground (arith, e, h)))
  ]

  dataset_violations-empty :
      (dataset : List ArrowField) → dataset_violations dataset ≡ [] → All HasColumn dataset
  unfolding dataset_violations
  dataset_violations-empty [] h = tt
  dataset_violations-empty (field ∷ fields) h =
      let (here, later) = append-empty (field_violations field) _ h in
      (field_violations-empty field here, dataset_violations-empty fields later)

  -- No value is missing for a column that no field is mapped to.
  abbrev pub IsFilled : List ArrowField → TableColumn → Type 0
  IsFilled dataset column =
      is_extra dataset column.name
        && not column.nullable
        && not column.identity
        && not column.has_default
      ≡ false

  extra_violations-empty :
      (dataset : List ArrowField) (rest : List TableColumn)
      → extra_violations dataset rest ≡ []
      → All (IsFilled dataset) rest
  unfolding extra_violations
  extra_violations-empty dataset [] h = tt
  extra_violations-empty dataset (column ∷ rest) h =
      let (here, later) = append-empty (when _ _) _ h in
      (when-empty _ _ here, extra_violations-empty dataset rest later)

  judge_violations-ok :
      (violations : List String) → judge_violations violations ≡ ok tt → violations ≡ []
  judge_violations-ok [] h = refl
  judge_violations-ok (violation ∷ violations) h = absurd (cc h)

  -- A table that is accepted for a dataset has, for each of its fields, a column of that name that takes its type and its nulls, is no identity unless it is a merge key of a merge load, and has no default that would replace a null; and each column that no field is mapped to is nullable, an identity or has a default.
  pub validate-Takes :
      (dataset : List ArrowField)
      → validate dataset ≡ ok tt
      → All HasColumn dataset × All (IsFilled dataset) columns
  unfolding validate
  validate-Takes dataset h =
      let (fields, extras) =
        append-empty (dataset_violations dataset) _ (judge_violations-ok _ h) in
      (dataset_violations-empty dataset fields, extra_violations-empty dataset columns extras)
