-- ===== src/Schema/Column/FitJson.antt =====
-- Which slots the columns of src/schema.rs get from JSON values that fit their type.
use data_spark.Prelude.{
  ℕ, String, Bool, true, false, Option, none, some, List, [], ◌∷◌, map, ◌≡◌, refl, All, All-imp,
  ◌⊎◌, inl, inr, Option-cases, arith,
}
use data_spark.Prelude.Outcome.{ok}
use data_spark.Json.{Number, Value}
use data_spark.Schema.Externals.{Externals}
use data_spark.Schema.TypeName.RoundTrip.{IsDeclarable}
use data_spark.Schema.Types.{FieldType, fits_expected_type, lattice_type, merge}
use data_spark.Schema.Observe.{utf8, infer_json_type}
use data_spark.Schema.Decimal.{parse_decimal_scaled}
use data_spark.Schema.Fit.{is_some, json_value_fits}
use data_spark.Schema.Record.{JsonRecord, SourceAddress}
use data_spark.Schema.Column.{Arrow, Column, data_type, timestamp_array, parse_declared_timestamp}
use data_spark.Schema.Column.Json.{
  as_i64, json_decimal, json_scalar_to_string, boolean_slot, number_slot, timestamp_slot,
  decimal_slot, values_at, build_json_array,
}
use data_spark.Schema.Column.Fit.{
  is_none, column_type, nulls, Appends, IsFaithful, IsColumn, slots-IsColumn,
  decimal_array-IsColumn,
}

-- A missing value, or a null.
abbrev pub is_null : Option Value → Bool
is_null none = true
is_null (some Value.null) = true
is_null (some _) = false

module _ (x : Externals) (a : Arrow) where
  abbrev pub FitsJson : FieldType → Option Value → Type 0
  FitsJson t none = Unit
  FitsJson t (some Value.null) = Unit
  FitsJson t (some value) = json_value_fits x value t ≡ true

  boolean_slot-Appends :
      (i : ℕ) (value : Option Value)
      → FitsJson FieldType.boolean value
      → Appends (boolean_slot x a i) is_null value
  unfolding boolean_slot json_value_fits fits_expected_type lattice_type merge infer_json_type
  boolean_slot-Appends i none h = (none, refl, refl)
  boolean_slot-Appends i (some Value.null) h = (none, refl, refl)
  boolean_slot-Appends i (some (Value.bool b)) h = (some b, refl, refl)
  boolean_slot-Appends i (some (Value.number n)) h = absurd (ground arith)
  boolean_slot-Appends i (some (Value.string s)) h = absurd (ground arith)
  boolean_slot-Appends i (some (Value.array v)) h = absurd (ground arith)
  boolean_slot-Appends i (some (Value.object f)) h = absurd (ground arith)

  number-Appends :
      {B : Type 0} (read : Number → Option B) (i : ℕ) (type_name : String) (n : Number)
      → is_some (read n) ≡ true
      → Appends (number_slot x a read i type_name) is_null (some (Value.number n))
  unfolding number_slot
  number-Appends read i type_name n h = elim (Option-cases (read n)) [
    | inl e ↦ absurd (ground (arith, h))
    | inr (b, e) ↦ (some b, rw (e, number_slot) refl, refl)
  ]

  as_i64-fits :
      (n : Number)
      → json_value_fits x (Value.number n) FieldType.int64 ≡ true
      → is_some (as_i64 n) ≡ true
  unfolding as_i64 json_value_fits fits_expected_type lattice_type merge infer_json_type
  as_i64-fits (Number.pos n) h = ground arith
  as_i64-fits (Number.neg n) h = refl
  as_i64-fits (Number.float n) h = absurd (ground arith)

  -- A loop over numbers, for a type that only numbers fit.
  number_slot-Appends :
      {B : Type 0} (read : Number → Option B) (i : ℕ) (type_name : String) (t : FieldType)
      → ((t ≡ FieldType.int64) ⊎ (t ≡ FieldType.float64))
      → ((n : Number) → json_value_fits x (Value.number n) t ≡ true → is_some (read n) ≡ true)
      → (value : Option Value) → FitsJson t value
      → Appends (number_slot x a read i type_name) is_null value
  unfolding number_slot json_value_fits fits_expected_type lattice_type merge infer_json_type
  number_slot-Appends read i type_name t numeric fit none h = (none, refl, refl)
  number_slot-Appends read i type_name t numeric fit (some Value.null) h = (none, refl, refl)
  number_slot-Appends read i type_name t numeric fit (some (Value.number n)) h =
      number-Appends read i type_name n (fit n h)
  number_slot-Appends read i type_name t numeric fit (some (Value.bool b)) h =
      absurd (ground (arith, h, numeric))
  number_slot-Appends read i type_name t numeric fit (some (Value.string s)) h =
      absurd (ground (arith, h, numeric))
  number_slot-Appends read i type_name t numeric fit (some (Value.array v)) h =
      absurd (ground (arith, h, numeric))
  number_slot-Appends read i type_name t numeric fit (some (Value.object f)) h =
      absurd (ground (arith, h, numeric))

  parse_declared-fits :
      (t : FieldType) (s : String)
      → ((t ≡ FieldType.timestamp) ⊎ (t ≡ FieldType.timestamptz))
      → json_value_fits x (Value.string s) t ≡ true
      → is_some (parse_declared_timestamp x a (utf8 s) t) ≡ true
  unfolding json_value_fits parse_declared_timestamp
  parse_declared-fits FieldType.timestamp s declared h = h
  parse_declared-fits FieldType.timestamptz s declared h = h
  parse_declared-fits FieldType.boolean s declared h = absurd (ground (arith, declared))
  parse_declared-fits FieldType.int64 s declared h = absurd (ground (arith, declared))
  parse_declared-fits FieldType.float64 s declared h = absurd (ground (arith, declared))
  parse_declared-fits FieldType.utf8 s declared h = absurd (ground (arith, declared))
  parse_declared-fits (FieldType.decimal p q) s declared h = absurd (ground (arith, declared))

  timestamp_slot-Appends :
      (i : ℕ) (t : FieldType)
      → ((t ≡ FieldType.timestamp) ⊎ (t ≡ FieldType.timestamptz))
      → (value : Option Value) → FitsJson t value
      → Appends (timestamp_slot x a i t) is_null value
  unfolding timestamp_slot json_value_fits parse_declared_timestamp
  timestamp_slot-Appends i t declared none h = (none, refl, refl)
  timestamp_slot-Appends i t declared (some Value.null) h = (none, refl, refl)
  timestamp_slot-Appends i t declared (some (Value.string s)) h =
      elim (Option-cases (parse_declared_timestamp x a (utf8 s) t)) [
        | inl e ↦ absurd (ground (arith, parse_declared-fits t s declared h))
        | inr (v, e) ↦ (some v, rw (e, timestamp_slot) refl, refl)
      ]
  timestamp_slot-Appends i t declared (some (Value.bool b)) h = absurd (ground (arith, h, declared))
  timestamp_slot-Appends i t declared (some (Value.number n)) h =
      absurd (ground (arith, h, declared))
  timestamp_slot-Appends i t declared (some (Value.array v)) h =
      absurd (ground (arith, h, declared))
  timestamp_slot-Appends i t declared (some (Value.object f)) h =
      absurd (ground (arith, h, declared))

  decimal_slot-Appends :
      (i precision scale : ℕ) (value : Option Value)
      → FitsJson (FieldType.decimal precision scale) value
      → Appends (decimal_slot x a i precision scale) is_null value
  unfolding decimal_slot json_value_fits json_decimal
  decimal_slot-Appends i precision scale none h = (none, refl, refl)
  decimal_slot-Appends i precision scale (some Value.null) h = (none, refl, refl)
  decimal_slot-Appends i precision scale (some (Value.string s)) h =
      elim (Option-cases (parse_decimal_scaled (utf8 s) precision scale)) [
        | inl e ↦ absurd (ground (arith, h))
        | inr (v, e) ↦ (some v, rw (e, decimal_slot) refl, refl)
      ]
  decimal_slot-Appends i precision scale (some (Value.number n)) h =
      elim (Option-cases (json_decimal precision scale n)) [
        | inl e ↦ absurd (ground (arith, h))
        | inr (v, e) ↦ (some v, rw (e, decimal_slot) refl, refl)
      ]
  decimal_slot-Appends i precision scale (some (Value.bool b)) h = absurd (ground arith)
  decimal_slot-Appends i precision scale (some (Value.array v)) h = absurd (ground arith)
  decimal_slot-Appends i precision scale (some (Value.object f)) h = absurd (ground arith)

  scalar-null : (value : Option Value) → is_none (json_scalar_to_string x a value) ≡ is_null value
  unfolding json_scalar_to_string
  scalar-null none = refl
  scalar-null (some Value.null) = refl
  scalar-null (some (Value.bool true)) = refl
  scalar-null (some (Value.bool false)) = refl
  scalar-null (some (Value.number n)) = refl
  scalar-null (some (Value.string s)) = refl
  scalar-null (some (Value.array v)) = refl
  scalar-null (some (Value.object f)) = refl

  scalars-null :
      (values : List (Option Value))
      → map is_none (map (json_scalar_to_string x a) values) ≡ map is_null values
  scalars-null [] = refl
  scalars-null (v ∷ values) = rw (scalar-null v, scalars-null values) refl

module _ (x : Externals) (a : Arrow) (faithful : IsFaithful x a) where
  pub build_json_array-IsColumn :
      (t : FieldType) (records : List JsonRecord) (source : SourceAddress) (i : ℕ)
      → IsDeclarable t
      → All (FitsJson x a t) (values_at x a records source)
      → (column : Column) × (build_json_array x a t records source i ≡ ok column)
        × IsColumn t (map is_null (values_at x a records source)) column
  unfolding build_json_array column_type nulls data_type timestamp_array
  build_json_array-IsColumn FieldType.utf8 records source i d h = (
    Column.utf8 (map (json_scalar_to_string x a) (values_at x a records source)),
    refl,
    (refl, scalars-null x a (values_at x a records source)),
  )
  build_json_array-IsColumn FieldType.boolean records source i d h =
      slots-IsColumn (boolean_slot x a i) is_null (values_at x a records source) _ FieldType.boolean
        (All-imp (FitsJson x a FieldType.boolean) _ (values_at x a records source)
          (boolean_slot-Appends x a i) h)
        (λ slots. (Column.boolean slots, refl, (refl, refl)))
  build_json_array-IsColumn FieldType.int64 records source i d h =
      slots-IsColumn (number_slot x a as_i64 i "int64") is_null (values_at x a records source) _
        FieldType.int64
        (All-imp (FitsJson x a FieldType.int64) _ (values_at x a records source)
          (number_slot-Appends x a as_i64 i "int64" FieldType.int64 (inl refl) (as_i64-fits x a)) h)
        (λ slots. (Column.int64 slots, refl, (refl, refl)))
  build_json_array-IsColumn FieldType.float64 records source i d h =
      slots-IsColumn (number_slot x a a.as_f64 i "float64") is_null (values_at x a records source) _
        FieldType.float64
        (All-imp (FitsJson x a FieldType.float64) _ (values_at x a records source)
          (number_slot-Appends x a a.as_f64 i "float64" FieldType.float64 (inr refl)
            (λ n fits. faithful.numbers_have_f64 n))
          h)
        (λ slots. (Column.float64 slots, refl, (refl, refl)))
  build_json_array-IsColumn FieldType.timestamp records source i d h =
      slots-IsColumn (timestamp_slot x a i FieldType.timestamp) is_null
        (values_at x a records source) _ FieldType.timestamp
        (All-imp (FitsJson x a FieldType.timestamp) _ (values_at x a records source)
          (timestamp_slot-Appends x a i FieldType.timestamp (inl refl)) h)
        (λ slots. (Column.timestamp none slots, refl, (refl, refl)))
  build_json_array-IsColumn FieldType.timestamptz records source i d h =
      slots-IsColumn (timestamp_slot x a i FieldType.timestamptz) is_null
        (values_at x a records source) _ FieldType.timestamptz
        (All-imp (FitsJson x a FieldType.timestamptz) _ (values_at x a records source)
          (timestamp_slot-Appends x a i FieldType.timestamptz (inr refl)) h)
        (λ slots. (Column.timestamp (some "UTC") slots, refl, (refl, refl)))
  build_json_array-IsColumn (FieldType.decimal precision scale) records source i d h =
      slots-IsColumn (decimal_slot x a i precision scale) is_null (values_at x a records source) _
        (FieldType.decimal precision scale)
        (All-imp (FitsJson x a (FieldType.decimal precision scale)) _ (values_at x a records source)
          (decimal_slot-Appends x a i precision scale) h)
        (decimal_array-IsColumn x a faithful precision scale i d)
