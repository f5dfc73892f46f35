-- ===== src/Schema/Misfit.antt =====
-- The cause that a `type_coercion_failed` message names: `text_misfit_cause`, `json_misfit_cause`
-- and their helpers in src/schema.rs.
use data_spark.Prelude.{
  ℕ, ◌-◌, String, Bool, false, not, ◌&&◌, ◌||◌, Option, none, some, [], ◌∷◌, ◌++◌, ltb, ◌==◌,
  if◌then◌else◌, length, take, drop,
}
use data_spark.Prelude.Int.{ℤ}
use data_spark.Prelude.Text.{show, join}
use data_spark.Json.{Value}
use data_spark.Schema.Types.{FieldType}
use data_spark.Schema.TypeName.{Bytes, bytes, all_digits}
use data_spark.Schema.Decimal.{split_plain_decimal, json_integer}
use data_spark.Schema.Timestamp.{
  byte_is, count_digits, is_empty, parse_datetime_prefix, parse_offset_seconds,
  parse_timestamp_micros,
}
use data_spark.Schema.Observe.{utf8}
use data_spark.Schema.Fit.{is_some}
use data_spark.Schema.Externals.{Externals}

-- `FieldType::name` as the text of a message
unfoldable pub type_text : FieldType → String
unfolding show join
type_text FieldType.boolean = "boolean"
type_text FieldType.int64 = "int64"
type_text FieldType.float64 = "float64"
type_text FieldType.utf8 = "utf8"
type_text FieldType.timestamp = "timestamp"
type_text FieldType.timestamptz = "timestamptz"
type_text (FieldType.decimal precision scale) =
    join "" ("decimal(" ∷ show precision ∷ "," ∷ show scale ∷ ")" ∷ [])

-- `value.contains(c)` of an ASCII character
unfoldable pub contains_byte : ℕ → Bytes → Bool
contains_byte c [] = false
contains_byte c (b ∷ rest) = b == c || contains_byte c rest

-- `value.replace(c, "")`
unfoldable pub without_byte : ℕ → Bytes → Bytes
without_byte c [] = []
without_byte c (b ∷ rest) = if b == c then without_byte c rest else b ∷ without_byte c rest

unfoldable pub decimal_overflow_cause : ℕ → ℕ → String
unfolding show join
decimal_overflow_cause precision scale = join "" (
    "the value overflows decimal("
    ∷ show precision
    ∷ ","
    ∷ show scale
    ∷ "): the integer part allows at most "
    ∷ show (precision - scale)
    ∷ " digits"
    ∷ [])

unfoldable pub json_kind : Value → String
json_kind Value.null = "null"
json_kind (Value.bool _) = "boolean"
json_kind (Value.number _) = "number"
json_kind (Value.string _) = "string"
json_kind (Value.array _) = "array"
json_kind (Value.object _) = "object"

module _ (x : Externals) where
  unfoldable pub fraction_exceeds_six_digits : Bytes → Bool
  unfolding count_digits
  fraction_exceeds_six_digits value =
      byte_is 19 b'.' value
      && (ltb 6 (count_digits (drop 20 value))
          && is_some (parse_timestamp_micros x (take 19 value)))

  unfoldable pub clock_misfit_cause : Bytes → String
  unfolding all_digits fraction_exceeds_six_digits
  clock_misfit_cause value =
      if not (is_empty value) && all_digits value
      then "epoch numbers are not accepted as timestamp text"
      else if is_some (parse_timestamp_micros x (value ++ bytes " 00:00:00"))
      then "date-only text has no time part"
      else if fraction_exceeds_six_digits value
      then "the fraction has more than 6 digits and is never truncated"
      else "the text does not match YYYY-MM-DD HH:MM:SS with an optional fraction of 1 to 6 digits"

  unfoldable pub decimal_misfit_cause : Bytes → ℕ → ℕ → String
  unfolding decimal_overflow_cause contains_byte without_byte
  decimal_misfit_cause value precision scale = elim (split_plain_decimal value) [
    | some (negative, integer_digits, fraction_digits) ↦
        if ltb scale (length fraction_digits)
        then join "" (
            "the value has "
            ∷ show (length fraction_digits)
            ∷ " fractional digits, more than scale "
            ∷ show scale
            ∷ " allows; values are never rounded"
            ∷ [])
        else decimal_overflow_cause precision scale
    | none ↦
        if (contains_byte b'e' value || contains_byte b'E' value) && x.parses_f64 value
        then "exponent notation is not accepted as decimal text"
        else if contains_byte b',' value && is_some (split_plain_decimal (without_byte b',' value))
        then "thousands separators are not accepted as decimal text"
        else "the text is not plain decimal digits with an optional sign and decimal point"
  ]

  -- The cause that a wall-clock timestamp's prefix decides.
  abbrev wall_clock_cause : Bytes → Option (ℤ × Bytes) → String
  wall_clock_cause value none = clock_misfit_cause value
  wall_clock_cause value (some (micros, offset_text)) =
      if is_empty offset_text
      then clock_misfit_cause value
      else if is_some (parse_offset_seconds offset_text)
      then "the text carries a UTC offset, which wall-clock timestamp text must not"
      else "the text continues after the clock reading, which wall-clock timestamp text must not"

  -- The cause that an instant's prefix decides.
  abbrev instant_cause : Bytes → Option (ℤ × Bytes) → String
  instant_cause value none = clock_misfit_cause value
  instant_cause value (some (micros, offset_text)) =
      if is_empty offset_text
      then "the text is missing its mandatory UTC offset (Z or ±hh:mm)"
      else if not (is_some (parse_offset_seconds offset_text))
      then "the UTC offset is malformed; an instant timestamp needs Z, z, or ±hh:mm"
      else clock_misfit_cause value

  unfoldable pub text_misfit_cause : Bytes → FieldType → Option String
  text_misfit_cause value FieldType.timestamp =
      some (wall_clock_cause value (parse_datetime_prefix x value))
  text_misfit_cause value FieldType.timestamptz =
      some (instant_cause value (parse_datetime_prefix x value))
  text_misfit_cause value (FieldType.decimal precision scale) =
      some (decimal_misfit_cause value precision scale)
  text_misfit_cause value _ = none

  -- A JSON value against a declared timestamp type.
  abbrev timestamp_cause : Value → FieldType → Option String
  timestamp_cause (Value.string text) expected = text_misfit_cause (utf8 text) expected
  timestamp_cause (Value.number _) expected = some (
      join "" (
        "JSON numbers do not fit a declared "
        ∷ type_text expected
        ∷ " field: epoch numbers are not accepted"
        ∷ []))
  timestamp_cause other expected = some (
      join "" (
        "JSON "
        ∷ json_kind other
        ∷ " values do not fit a declared "
        ∷ type_text expected
        ∷ " field; only JSON strings parse as timestamps"
        ∷ []))

  -- A JSON value against a declared decimal.
  abbrev decimal_cause : Value → ℕ → ℕ → String
  decimal_cause (Value.string text) precision scale =
      decimal_misfit_cause (utf8 text) precision scale
  decimal_cause (Value.number number) precision scale = elim (json_integer number) [
    | some integer ↦ decimal_overflow_cause precision scale
    | none ↦
        "JSON floats do not fit a declared decimal field: their exact digits were already lost to IEEE parsing"
  ]
  decimal_cause other precision scale = join "" (
      "JSON "
      ∷ json_kind other
      ∷ " values do not fit a declared decimal field; only JSON strings and integers fit"
      ∷ [])

  unfoldable pub json_misfit_cause : Value → FieldType → Option String
  json_misfit_cause value FieldType.timestamp = timestamp_cause value FieldType.timestamp
  json_misfit_cause value FieldType.timestamptz = timestamp_cause value FieldType.timestamptz
  json_misfit_cause value (FieldType.decimal precision scale) =
      some (decimal_cause value precision scale)
  json_misfit_cause value _ = none
