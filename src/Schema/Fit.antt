-- ===== src/Schema/Fit.antt =====
-- Whether a value fits the type that a schema expects, in src/schema.rs.
use data_spark.Prelude.{ℕ, Bool, true, false, Option, none, some}
use data_spark.Json.{Value}
use data_spark.Schema.Types.{FieldType, fits_expected_type}
use data_spark.Schema.TypeName.{Bytes}
use data_spark.Schema.Decimal.{parse_decimal_scaled, rescale_decimal_integer, json_integer}
use data_spark.Schema.Timestamp.{parse_timestamp_micros, parse_timestamptz_micros}
use data_spark.Schema.Observe.{utf8, infer_text_type, infer_json_type}
use data_spark.Schema.Externals.{Externals}
use data_spark.Prelude.Int.{ℤ}

abbrev pub is_some : {A : Type 0} → Option A → Bool
is_some none = false
is_some (some a) = true

module _ (x : Externals) where
  unfoldable pub text_value_fits : Bytes → FieldType → Bool
  unfolding fits_expected_type
  text_value_fits value FieldType.timestamp = is_some (parse_timestamp_micros x value)
  text_value_fits value FieldType.timestamptz = is_some (parse_timestamptz_micros x value)
  text_value_fits value (FieldType.decimal precision scale) =
      is_some (parse_decimal_scaled value precision scale)
  text_value_fits value expected = fits_expected_type (infer_text_type x value) expected

  abbrev integer_fits : Option ℤ → ℕ → ℕ → Bool
  integer_fits none precision scale = false
  integer_fits (some integer) precision scale =
      is_some (rescale_decimal_integer integer precision scale)

  -- A JSON value against a declared decimal.
  abbrev pub decimal_value_fits : Value → ℕ → ℕ → Bool
  decimal_value_fits (Value.string text) precision scale =
      is_some (parse_decimal_scaled (utf8 text) precision scale)
  decimal_value_fits (Value.number number) precision scale =
      integer_fits (json_integer number) precision scale
  decimal_value_fits _ precision scale = false

  abbrev pub string_fits : Value → (Bytes → Bool) → Bool
  string_fits (Value.string text) test = test (utf8 text)
  string_fits _ test = false

  unfoldable pub json_value_fits : Value → FieldType → Bool
  unfolding fits_expected_type
  json_value_fits value FieldType.timestamp =
      string_fits value (λ text. is_some (parse_timestamp_micros x text))
  json_value_fits value FieldType.timestamptz =
      string_fits value (λ text. is_some (parse_timestamptz_micros x text))
  json_value_fits value (FieldType.decimal precision scale) =
      decimal_value_fits value precision scale
  json_value_fits value expected = fits_expected_type (infer_json_type value) expected
