-- ===== src/Examples/Values.antt =====
-- The parsers, the inference lattice and the load modes at concrete values.
use data_spark.Prelude.{
  ◌+◌, ◌*◌, ◌^◌, true, false, none, some, List, [], ◌∷◌, ◌≡◌, refl, ◌↔◌, ◌⊎◌, arith, All, ltb,
  if◌then◌else◌,
}
use mathlib.Core.List.{Permᴰ}
use data_spark.Prelude.Int.{pos, negsuc, magnitude, times_ℕ}
use data_spark.Prelude.Outcome.{ok, err}
use data_spark.Failure.{LoadFailure}
use data_spark.LoadMode.{
  LoadMode, validate_mode, validate_mode_lem, Listed, full_refresh_and_append,
}
use data_spark.Schema.Externals.{Externals}
use data_spark.Schema.Types.{
  InferredType, FieldType, fits_expected_type, observe_column, field_type,
}
use data_spark.Schema.Types.Lattice.{fits-observe_column, observed-fits, observe_column-eq_of_perm}
use data_spark.Schema.TypeName.{bytes, name, parse_type_name, ◌>>=◌}
use data_spark.Schema.TypeName.RoundTrip.{IsDeclarable, parse_type_name_iff}
use data_spark.Schema.Decimal.{parse_decimal_scaled, rescale_decimal_integer, split_plain_decimal}
use data_spark.Schema.Decimal.Exact.{
  exact_value, parse_decimal_scaled-eq_exact, rescale_decimal_integer-eq_exact,
}
use data_spark.Schema.Timestamp.{
  parse_timestamp_micros, parse_timestamptz_micros, parse_offset_seconds,
}
use data_spark.Schema.Timestamp.Discipline.{timestamps_exclusive}

-- A calendar that knows the time of day alone.
abbrev clock : Externals
clock = record {
  timestamp_micros = λ year month day hour minute second micros.
      some (pos (((hour * 60 + minute) * 60 + second) * 1000000 + micros));
  parses_f64 = λ text. false;
  is_finite_f64 = λ text. false;
  render = λ value. "";
  quoted = λ text. text;
}

parse_decimal_scaled-eq_exact_example :
    parse_decimal_scaled (bytes "-12.5") 5 2
    ≡ (split_plain_decimal (bytes "-12.5") >>= λ parts. exact_value parts.0 parts.1 parts.2 5 2)
parse_decimal_scaled-eq_exact_example =
    parse_decimal_scaled-eq_exact (bytes "-12.5") 5 2 (omega arith)

rescale_decimal_integer-eq_exact_example : rescale_decimal_integer (pos 12) 5 2 ≡ (
    if ltb (magnitude (pos 12) * 10 ^ 2) (10 ^ 5) then some (times_ℕ (pos 12) (10 ^ 2)) else none)
rescale_decimal_integer-eq_exact_example =
    rescale_decimal_integer-eq_exact (pos 12) 5 2 (omega arith) (omega arith)

abbrev column : List InferredType
column = InferredType.int64 ∷ InferredType.null ∷ InferredType.float64 ∷ []

fits-observe_column_example :
    (fits_expected_type (observe_column InferredType.null column) FieldType.float64 ≡ true) ↔ (
      (fits_expected_type InferredType.null FieldType.float64 ≡ true)
      × All (λ t. fits_expected_type t FieldType.float64 ≡ true) column)
fits-observe_column_example = fits-observe_column FieldType.float64 InferredType.null column

observed-fits_example :
    All
      (λ t. fits_expected_type t (field_type (observe_column InferredType.null column)) ≡ true)
      column
observed-fits_example = observed-fits column

observe_column-eq_of_perm_example :
    observe_column InferredType.null (InferredType.int64 ∷ InferredType.float64 ∷ [])
    ≡ observe_column InferredType.null (InferredType.float64 ∷ InferredType.int64 ∷ [])
observe_column-eq_of_perm_example = observe_column-eq_of_perm ∣ Permᴰ.swap refl refl ∣₁

parse_type_name_iff_example :
    (parse_type_name (bytes "decimal(10,2)") ≡ some (FieldType.decimal 10 2)) ↔ (
      (name (FieldType.decimal 10 2) ≡ bytes "decimal(10,2)")
      × IsDeclarable (FieldType.decimal 10 2))
parse_type_name_iff_example = parse_type_name_iff (bytes "decimal(10,2)") (FieldType.decimal 10 2)

reads_noon : parse_timestamp_micros clock (bytes "2024-02-29 12:00:00") ≡ some (pos 43200000000)
unfolding parse_timestamp_micros
reads_noon = refl

timestamps_exclusive_example : parse_timestamptz_micros clock (bytes "2024-02-29 12:00:00") ≡ none
timestamps_exclusive_example =
    timestamps_exclusive clock (bytes "2024-02-29 12:00:00") (pos 43200000000) reads_noon

reads_offset : parse_offset_seconds (bytes "-05:30") ≡ some (negsuc 19799)
unfolding parse_offset_seconds
reads_offset = refl

validate_mode_lem_example :
    ((validate_mode "parquet" full_refresh_and_append LoadMode.merge ≡ ok tt)
      ↔ Listed LoadMode.merge full_refresh_and_append)
    × ((validate_mode "parquet" full_refresh_and_append LoadMode.merge ≡ ok tt)
        ⊎ ((f : LoadFailure) × (validate_mode "parquet" full_refresh_and_append LoadMode.merge
              ≡ err f)
            × (f.code ≡ "unsupported_load_mode_for_destination")))
validate_mode_lem_example = validate_mode_lem "parquet" full_refresh_and_append LoadMode.merge
