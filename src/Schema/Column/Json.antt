-- ===== src/Schema/Column/Json.antt =====
-- The Arrow columns of JSONL records, in src/schema.rs: `build_json_array` and
-- `json_scalar_to_string`.
use data_spark.Prelude.{ℕ, String, Bool, true, false, Option, none, some, List, map}
use data_spark.Prelude.Int.{ℤ, pos, negsuc}
use data_spark.Prelude.Outcome.{Result, ok, err, ◌>>=◌}
use data_spark.Failure.{LoadFailure}
use data_spark.Json.{Number, Value}
use data_spark.Schema.Externals.{Externals}
use data_spark.Schema.Types.{FieldType}
use data_spark.Schema.Observe.{utf8, is_i64}
use data_spark.Schema.Decimal.{parse_decimal_scaled, rescale_decimal_integer, json_integer}
use data_spark.Schema.Misfit.{type_text}
use data_spark.Schema.Record.{JsonRecord, SourceAddress, json_value}
use data_spark.Schema.Column.{
  Arrow, Column, build_cells, timestamp_array, coercion_failure, parse_declared_timestamp,
  decimal_array,
}

-- `Number::as_i64`
unfoldable pub as_i64 : Number → Option ℤ
as_i64 (Number.pos n) = elim (is_i64 (Number.pos n)) [ true ↦ some (pos n) | false ↦ none ]
as_i64 (Number.neg n) = some (negsuc n)
as_i64 (Number.float bits) = none

-- `json_integer(number).and_then(|integer| rescale_decimal_integer(integer, precision, scale))`
unfoldable pub json_decimal : ℕ → ℕ → Number → Option ℤ
json_decimal precision scale number = elim (json_integer number) [
  | none ↦ none
  | some integer ↦ rescale_decimal_integer integer precision scale
]

module _ (x : Externals) (a : Arrow) where
  unfoldable pub json_scalar_to_string : Option Value → Option String
  json_scalar_to_string none = none
  json_scalar_to_string (some Value.null) = none
  json_scalar_to_string (some (Value.string text)) = some text
  json_scalar_to_string (some (Value.bool true)) = some "true"
  json_scalar_to_string (some (Value.bool false)) = some "false"
  json_scalar_to_string (some other) = some (x.render other)

  abbrev failed : {B : Type 0} → ℕ → Value → String → Result LoadFailure B
  failed i value type_name = err (coercion_failure x a i (x.render value) type_name)

  -- What a builder appends for a value.
  unfoldable pub boolean_slot : ℕ → Option Value → Result LoadFailure (Option Bool)
  boolean_slot i none = ok none
  boolean_slot i (some Value.null) = ok none
  boolean_slot i (some (Value.bool flag)) = ok (some flag)
  boolean_slot i (some other) = failed i other "boolean"

  unfoldable pub number_slot :
      {B : Type 0} → (Number → Option B) → ℕ → String → Option Value → Result LoadFailure (Option B)
  number_slot read i type_name none = ok none
  number_slot read i type_name (some Value.null) = ok none
  number_slot read i type_name (some (Value.number number)) = elim (read number) [
    | some value ↦ ok (some value)
    | none ↦ failed i (Value.number number) type_name
  ]
  number_slot read i type_name (some other) = failed i other type_name

  unfoldable pub timestamp_slot : ℕ → FieldType → Option Value → Result LoadFailure (Option ℤ)
  unfolding parse_declared_timestamp
  timestamp_slot i field_type none = ok none
  timestamp_slot i field_type (some Value.null) = ok none
  timestamp_slot i field_type (some (Value.string text)) =
      elim (parse_declared_timestamp x a (utf8 text) field_type) [
        | some value ↦ ok (some value)
        | none ↦ err (coercion_failure x a i text (type_text field_type))
      ]
  timestamp_slot i field_type (some other) = failed i other (type_text field_type)

  unfoldable pub decimal_slot : ℕ → ℕ → ℕ → Option Value → Result LoadFailure (Option ℤ)
  unfolding json_decimal
  decimal_slot i precision scale none = ok none
  decimal_slot i precision scale (some Value.null) = ok none
  decimal_slot i precision scale (some (Value.string text)) =
      elim (parse_decimal_scaled (utf8 text) precision scale) [
        | some value ↦ ok (some value)
        | none ↦ err (coercion_failure x a i text (type_text (FieldType.decimal precision scale)))
      ]
  decimal_slot i precision scale (some (Value.number number)) =
      elim (json_decimal precision scale number) [
        | some value ↦ ok (some value)
        | none ↦ failed i (Value.number number) (type_text (FieldType.decimal precision scale))
      ]
  decimal_slot i precision scale (some other) =
      failed i other (type_text (FieldType.decimal precision scale))

  unfoldable pub values_at : List JsonRecord → SourceAddress → List (Option Value)
  values_at records source = map (λ row. json_value source row.entries) records

  unfoldable pub build_json_array :
      FieldType → List JsonRecord → SourceAddress → ℕ → Result LoadFailure Column
  unfolding build_cells timestamp_array decimal_array boolean_slot number_slot timestamp_slot
      decimal_slot values_at json_scalar_to_string as_i64
  build_json_array FieldType.utf8 records source i =
      ok (Column.utf8 (map json_scalar_to_string (values_at records source)))
  build_json_array FieldType.boolean records source i =
      build_cells (boolean_slot i) (values_at records source) >>= λ slots. ok (Column.boolean slots)
  build_json_array FieldType.int64 records source i =
      build_cells (number_slot as_i64 i "int64") (values_at records source) >>= λ slots.
      ok (Column.int64 slots)
  build_json_array FieldType.float64 records source i =
      build_cells (number_slot a.as_f64 i "float64") (values_at records source) >>= λ slots.
      ok (Column.float64 slots)
  build_json_array FieldType.timestamp records source i =
      build_cells (timestamp_slot i FieldType.timestamp) (values_at records source) >>= λ values.
      ok (timestamp_array values FieldType.timestamp)
  build_json_array FieldType.timestamptz records source i =
      build_cells (timestamp_slot i FieldType.timestamptz) (values_at records source) >>= λ values.
      ok (timestamp_array values FieldType.timestamptz)
  build_json_array (FieldType.decimal precision scale) records source i =
      build_cells (decimal_slot i precision scale) (values_at records source) >>= λ values.
      decimal_array x a values precision scale i
