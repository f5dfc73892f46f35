-- ===== src/Schema/Externals.antt =====
-- What src/schema.rs takes from code outside the repository: the calendar of chrono, the float
-- parser and the debug rendering of the standard library, and the rendering of serde_json.
use data_spark.Prelude.{ℕ, String, Bool, Option}
use data_spark.Prelude.Int.{ℤ}
use data_spark.Json.{Value}
use data_spark.Schema.TypeName.{Bytes}

pub record Externals : Type 0 where
  -- `NaiveDate::from_ymd_opt`, `NaiveTime::from_hms_micro_opt` and `timestamp_micros` of the two:
  -- year, month, day, hour, minute, second, microsecond.
  pub timestamp_micros : ℕ → ℕ → ℕ → ℕ → ℕ → ℕ → ℕ → Option ℤ
  -- `str::parse::<f64>` succeeds; it succeeds with a finite value.
  pub parses_f64 : Bytes → Bool
  pub is_finite_f64 : Bytes → Bool
  -- `format!("{value}")` of a JSON value, `format!("{text:?}")` of a text
  pub render : Value → String
  pub quoted : String → String
