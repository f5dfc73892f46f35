-- ===== src/Schema/Column.antt =====
-- The Arrow columns of src/schema.rs: `FieldType::data_type`, `coercion_failure`,
-- `build_text_array` and its helpers. A column is its slots, with `none` for a null slot; a float is
-- its 64-bit pattern. Arrow's own checks are parameters.
pub mod Json
pub mod Fit
pub mod FitJson
use data_spark.Prelude.{ℕ, ◌+◌, String, Bool, true, false, Option, none, some, List, [], ◌∷◌, map}
use data_spark.Prelude.Int.{ℤ}
use data_spark.Prelude.Text.{show, join}
use data_spark.Prelude.Outcome.{Result, ok, err, ◌>>=◌}
use data_spark.Failure.{LoadFailure}
use data_spark.Json.{Number}
use data_spark.Schema.Externals.{Externals}
use data_spark.Schema.TypeName.{Bytes}
use data_spark.Schema.Types.{FieldType}
use data_spark.Schema.Observe.{utf8 as text_bytes, parse_bool, parse_i64}
use data_spark.Schema.Decimal.{parse_decimal_scaled}
use data_spark.Schema.Timestamp.{parse_timestamp_micros, parse_timestamptz_micros}
use data_spark.Schema.Misfit.{type_text}
use data_spark.Schema.Record.{TextRecord}
use data_spark.Schema.Check.{cell_at}

-- `arrow_schema::DataType`, the types that are used; a timestamp counts microseconds.
pub data DataType : Type 0 where
  boolean int64 float64 utf8 : DataType
  timestamp : Option String → DataType
  decimal128 : ℕ → ℕ → DataType

unfoldable pub data_type : FieldType → DataType
data_type FieldType.boolean = DataType.boolean
data_type FieldType.int64 = DataType.int64
data_type FieldType.float64 = DataType.float64
data_type FieldType.utf8 = DataType.utf8
data_type FieldType.timestamp = DataType.timestamp none
data_type FieldType.timestamptz = DataType.timestamp (some "UTC")
data_type (FieldType.decimal precision scale) = DataType.decimal128 precision scale

-- `ArrayRef`
pub data Column : Type 0 where
  boolean : List (Option Bool) → Column
  int64 : List (Option ℤ) → Column
  float64 : List (Option ℕ) → Column
  utf8 : List (Option String) → Column
  timestamp : Option String → List (Option ℤ) → Column
  decimal128 : ℕ → ℕ → List (Option ℤ) → Column

-- `arrow_schema::Field`
pub record ArrowField : Type 0 where
  pub name : String
  pub data_type : DataType
  pub nullable : Bool

-- What the columns take from the standard library, serde_json and Arrow.
pub record Arrow : Type 0 where
  -- The bits of the float that a text spells.
  pub f64_bits : Bytes → ℕ
  -- `Number::as_f64`, by its bits
  pub as_f64 : Number → Option ℕ
  -- The error of `with_precision_and_scale`, of `RecordBatch::try_new`, if any.
  pub decimal_error : ℕ → ℕ → Option String
  pub batch_error : List ArrowField → List Column → Option String

-- A builder's loop over the records, which a failing value ends.
unfoldable pub build_cells :
    {C B : Type 0}
    → (C → Result LoadFailure (Option B))
    → List C
    → Result LoadFailure (List (Option B))
build_cells cell [] = ok []
build_cells cell (c ∷ cs) = cell c >>= λ slot. build_cells cell cs >>= λ slots. ok (slot ∷ slots)

-- `timestamp_array`
unfoldable pub timestamp_array : List (Option ℤ) → FieldType → Column
timestamp_array values FieldType.timestamptz = Column.timestamp (some "UTC") values
timestamp_array values _ = Column.timestamp none values

module _ (x : Externals) (a : Arrow) where
  unfoldable pub coercion_failure : ℕ → String → String → LoadFailure
  coercion_failure column_index value type_name = record {
    code = "schema_coercion_failed";
    message = join "" (
        "failed to coerce column "
        ∷ show (column_index + 1)
        ∷ " value "
        ∷ x.quoted value
        ∷ " to "
        ∷ type_name
        ∷ []);
  }

  unfoldable pub parse_declared_timestamp : Bytes → FieldType → Option ℤ
  parse_declared_timestamp value FieldType.timestamp = parse_timestamp_micros x value
  parse_declared_timestamp value FieldType.timestamptz = parse_timestamptz_micros x value
  parse_declared_timestamp value _ = none

  -- `value.parse::<f64>().ok().filter(|value| value.is_finite())`
  unfoldable pub parse_finite_f64 : Bytes → Option ℕ
  parse_finite_f64 value = elim (x.is_finite_f64 value) [
    | true ↦ some (a.f64_bits value)
    | false ↦ none
  ]

  unfoldable pub decimal_array : List (Option ℤ) → ℕ → ℕ → ℕ → Result LoadFailure Column
  unfolding coercion_failure
  decimal_array values precision scale column_index = elim (a.decimal_error precision scale) [
    | none ↦ ok (Column.decimal128 precision scale values)
    | some error ↦
        err (coercion_failure column_index error (type_text (FieldType.decimal precision scale)))
  ]

  -- What a builder appends for a cell.
  unfoldable pub text_slot :
      {B : Type 0} → (Bytes → Option B) → ℕ → String → Option String → Result LoadFailure (Option B)
  unfolding coercion_failure
  text_slot parse column_index type_name none = ok none
  text_slot parse column_index type_name (some value) = elim (parse (text_bytes value)) [
    | none ↦ err (coercion_failure column_index value type_name)
    | some parsed ↦ ok (some parsed)
  ]

  unfoldable pub cells_at : List TextRecord → ℕ → List (Option String)
  cells_at records column_index = map (λ row. cell_at row.cells column_index) records

  unfoldable pub build_text_array : FieldType → List TextRecord → ℕ → Result LoadFailure Column
  unfolding build_cells timestamp_array parse_declared_timestamp parse_finite_f64 decimal_array
      text_slot cells_at
  build_text_array FieldType.utf8 records i = ok (Column.utf8 (cells_at records i))
  build_text_array FieldType.boolean records i =
      build_cells (text_slot parse_bool i "boolean") (cells_at records i) >>= λ slots.
      ok (Column.boolean slots)
  build_text_array FieldType.int64 records i =
      build_cells (text_slot parse_i64 i "int64") (cells_at records i) >>= λ slots.
      ok (Column.int64 slots)
  build_text_array FieldType.float64 records i =
      build_cells (text_slot parse_finite_f64 i "float64") (cells_at records i) >>= λ slots.
      ok (Column.float64 slots)
  build_text_array FieldType.timestamp records i =
      build_cells
        (text_slot (λ text. parse_declared_timestamp text FieldType.timestamp) i
          (type_text FieldType.timestamp))
        (cells_at records i)
      >>= λ values. ok (timestamp_array values FieldType.timestamp)
  build_text_array FieldType.timestamptz records i =
      build_cells
        (text_slot (λ text. parse_declared_timestamp text FieldType.timestamptz) i
          (type_text FieldType.timestamptz))
        (cells_at records i)
      >>= λ values. ok (timestamp_array values FieldType.timestamptz)
  build_text_array (FieldType.decimal precision scale) records i =
      build_cells
        (text_slot (λ text. parse_decimal_scaled text precision scale) i
          (type_text (FieldType.decimal precision scale)))
        (cells_at records i)
      >>= λ values. decimal_array values precision scale i
