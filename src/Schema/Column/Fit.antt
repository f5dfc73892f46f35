-- ===== src/Schema/Column/Fit.antt =====
-- Which slots the columns of src/schema.rs get from values that fit their type.
use data_spark.Prelude.{
  ℕ, String, Bool, true, false, Option, none, some, List, [], ◌∷◌, map, ◌≡◌, refl, ◌∙◌, inl, inr,
  All, Option-cases, arith,
}
use data_spark.Prelude.Int.{ℤ}
use data_spark.Prelude.Outcome.{Result, ok, ◌>>=◌}
use data_spark.Failure.{LoadFailure}
use data_spark.Json.{Number}
use data_spark.Schema.Externals.{Externals}
use data_spark.Schema.TypeName.{Bytes}
use data_spark.Schema.TypeName.RoundTrip.{IsDeclarable}
use data_spark.Schema.Misfit.{type_text}
use data_spark.Schema.Record.{TextRecord}
use data_spark.Schema.Types.{FieldType, fits_expected_type, lattice_type, merge}
use data_spark.Schema.Observe.{
  utf8 as text_bytes, infer_text_type, parse_bool, parses_i64, parse_i64,
}
use data_spark.Schema.Fit.{is_some, text_value_fits}
use data_spark.Schema.Column.{
  DataType, data_type, Column, Arrow, build_cells, text_slot, parse_finite_f64, decimal_array,
  build_text_array, cells_at, timestamp_array, parse_declared_timestamp,
}

abbrev pub is_none : {A : Type 0} → Option A → Bool
is_none none = true
is_none (some a) = false

-- The type of a column, and which of its slots are null.
unfoldable pub column_type : Column → DataType
column_type (Column.boolean slots) = DataType.boolean
column_type (Column.int64 slots) = DataType.int64
column_type (Column.float64 slots) = DataType.float64
column_type (Column.utf8 slots) = DataType.utf8
column_type (Column.timestamp tz slots) = DataType.timestamp tz
column_type (Column.decimal128 precision scale slots) = DataType.decimal128 precision scale

unfoldable pub nulls : Column → List Bool
nulls (Column.boolean slots) = map is_none slots
nulls (Column.int64 slots) = map is_none slots
nulls (Column.float64 slots) = map is_none slots
nulls (Column.utf8 slots) = map is_none slots
nulls (Column.timestamp tz slots) = map is_none slots
nulls (Column.decimal128 precision scale slots) = map is_none slots

-- The builder appends a slot for the cell, null where the cell is.
abbrev pub Appends : {C B : Type 0} → (C → Result LoadFailure (Option B)) → (C → Bool) → C → Type 0
Appends {C} {B} cell null c = (slot : Option B) × (cell c ≡ ok slot) × (is_none slot ≡ null c)

pub build_cells-ok :
    {C B : Type 0} (cell : C → Result LoadFailure (Option B)) (null : C → Bool) (cs : List C)
    → All (Appends cell null) cs
    → (slots : List (Option B)) × (build_cells cell cs ≡ ok slots)
      × (map is_none slots ≡ map null cs)
unfolding build_cells
build_cells-ok cell null [] h = ([], refl, refl)
build_cells-ok cell null (c ∷ cs) ((slot, e, n), h) =
    let (slots, f, m) = build_cells-ok cell null cs h in
    (slot ∷ slots, rw (e, f) refl, rw (n, m) refl)

module _ (x : Externals) (a : Arrow) where
  abbrev pub FitsText : FieldType → Option String → Type 0
  FitsText t none = Unit
  FitsText t (some value) = text_value_fits x (text_bytes value) t ≡ true

  boolean-fits :
      (value : Bytes)
      → text_value_fits x value FieldType.boolean ≡ true
      → is_some (parse_bool value) ≡ true
  unfolding text_value_fits fits_expected_type lattice_type merge infer_text_type
  boolean-fits value h = ground arith

  int64-fits :
      (value : Bytes)
      → text_value_fits x value FieldType.int64 ≡ true
      → is_some (parse_i64 value) ≡ true
  unfolding text_value_fits fits_expected_type lattice_type merge infer_text_type parse_i64
  int64-fits value h = ground arith

  float64-fits :
      ((text : Bytes) → parses_i64 text ≡ true → x.is_finite_f64 text ≡ true)
      → (value : Bytes) → text_value_fits x value FieldType.float64 ≡ true
      → is_some (parse_finite_f64 x a value) ≡ true
  unfolding text_value_fits fits_expected_type lattice_type merge infer_text_type parse_finite_f64
  float64-fits finite value h = ground (arith, finite value)

  text_slot-Appends :
      {B : Type 0} (parse : Bytes → Option B) (i : ℕ) (type_name : String) (value : String)
      → is_some (parse (text_bytes value)) ≡ true
      → Appends (text_slot x a parse i type_name) is_none (some value)
  unfolding text_slot
  text_slot-Appends parse i type_name value h = elim (Option-cases (parse (text_bytes value))) [
    | inl e ↦ absurd (ground (arith, h))
    | inr (b, e) ↦ (some b, rw (e, text_slot) refl, refl)
  ]

  text_cells-Appends :
      {B : Type 0} (parse : Bytes → Option B) (i : ℕ) (type_name : String) (t : FieldType)
      (cells : List (Option String))
      → ((value : Bytes) → text_value_fits x value t ≡ true → is_some (parse value) ≡ true)
      → All (FitsText t) cells
      → All (Appends (text_slot x a parse i type_name) is_none) cells
  unfolding text_slot
  text_cells-Appends parse i type_name t [] fit h = tt
  text_cells-Appends parse i type_name t (none ∷ cells) fit (h, hs) =
      ((none, refl, refl), text_cells-Appends parse i type_name t cells fit hs)
  text_cells-Appends parse i type_name t (some value ∷ cells) fit (h, hs) = (
    text_slot-Appends parse i type_name value (fit (text_bytes value) h),
    text_cells-Appends parse i type_name t cells fit hs,
  )

-- What the sources read from other code holds: the text of an integer is that of a finite float, a
-- JSON number has a float value, and Arrow takes the decimals that a schema can declare.
pub record IsFaithful (x : Externals) (a : Arrow) : Type 0 where
  pub integers_finite : (text : Bytes) → parses_i64 text ≡ true → x.is_finite_f64 text ≡ true
  pub numbers_have_f64 : (number : Number) → is_some (a.as_f64 number) ≡ true
  pub decimals_accepted :
      (precision scale : ℕ)
      → IsDeclarable (FieldType.decimal precision scale)
      → a.decimal_error precision scale ≡ none

-- A column of the type, with these null slots.
abbrev pub IsColumn : FieldType → List Bool → Column → Type 0
IsColumn t ns column = (column_type column ≡ data_type t) × (nulls column ≡ ns)

-- The slots of a loop, as a column.
pub slots-IsColumn :
    {C B : Type 0} (cell : C → Result LoadFailure (Option B)) (null : C → Bool) (cs : List C)
    (make : List (Option B) → Result LoadFailure Column) (t : FieldType)
    → All (Appends cell null) cs
    → ((slots : List (Option B))
        → (column : Column) × (make slots ≡ ok column) × IsColumn t (map is_none slots) column)
    → (column : Column) × ((build_cells cell cs >>= make) ≡ ok column)
      × IsColumn t (map null cs) column
slots-IsColumn cell null cs make t h made =
    let (slots, e, n) = build_cells-ok cell null cs h in
    let (column, f, is) = made slots in (column, rw e f, (is.0, is.1 ∙ n))

module _ (x : Externals) (a : Arrow) (ok_code : IsFaithful x a) where
  pub decimal_array-IsColumn :
      (precision scale i : ℕ)
      → IsDeclarable (FieldType.decimal precision scale)
      → (slots : List (Option ℤ))
      → (column : Column) × (decimal_array x a slots precision scale i ≡ ok column)
        × IsColumn (FieldType.decimal precision scale) (map is_none slots) column
  unfolding decimal_array column_type nulls data_type
  decimal_array-IsColumn precision scale i h slots = (
    Column.decimal128 precision scale slots,
    rw (ok_code.decimals_accepted precision scale h, decimal_array) refl,
    (refl, refl),
  )

  pub build_text_array-IsColumn :
      (t : FieldType) (records : List TextRecord) (i : ℕ)
      → IsDeclarable t
      → All (FitsText x a t) (cells_at x a records i)
      → (column : Column) × (build_text_array x a t records i ≡ ok column)
        × IsColumn t (map is_none (cells_at x a records i)) column
  unfolding build_text_array column_type nulls data_type timestamp_array text_value_fits
      parse_declared_timestamp
  build_text_array-IsColumn FieldType.utf8 records i d h =
      (Column.utf8 (cells_at x a records i), refl, (refl, refl))
  build_text_array-IsColumn FieldType.boolean records i d h =
      slots-IsColumn _ is_none (cells_at x a records i) _ FieldType.boolean
        (text_cells-Appends x a parse_bool i "boolean" FieldType.boolean (cells_at x a records i)
          (boolean-fits x a) h)
        (λ slots. (Column.boolean slots, refl, (refl, refl)))
  build_text_array-IsColumn FieldType.int64 records i d h =
      slots-IsColumn _ is_none (cells_at x a records i) _ FieldType.int64
        (text_cells-Appends x a parse_i64 i "int64" FieldType.int64 (cells_at x a records i)
          (int64-fits x a) h)
        (λ slots. (Column.int64 slots, refl, (refl, refl)))
  build_text_array-IsColumn FieldType.float64 records i d h =
      slots-IsColumn _ is_none (cells_at x a records i) _ FieldType.float64
        (text_cells-Appends x a (parse_finite_f64 x a) i "float64" FieldType.float64
          (cells_at x a records i) (float64-fits x a ok_code.integers_finite) h)
        (λ slots. (Column.float64 slots, refl, (refl, refl)))
  build_text_array-IsColumn FieldType.timestamp records i d h =
      slots-IsColumn _ is_none (cells_at x a records i) _ FieldType.timestamp
        (text_cells-Appends x a _ i (type_text FieldType.timestamp) FieldType.timestamp
          (cells_at x a records i) (λ value fits. fits) h)
        (λ slots. (Column.timestamp none slots, refl, (refl, refl)))
  build_text_array-IsColumn FieldType.timestamptz records i d h =
      slots-IsColumn _ is_none (cells_at x a records i) _ FieldType.timestamptz
        (text_cells-Appends x a _ i (type_text FieldType.timestamptz) FieldType.timestamptz
          (cells_at x a records i) (λ value fits. fits) h)
        (λ slots. (Column.timestamp (some "UTC") slots, refl, (refl, refl)))
  build_text_array-IsColumn (FieldType.decimal precision scale) records i d h =
      slots-IsColumn _ is_none (cells_at x a records i) _ (FieldType.decimal precision scale)
        (text_cells-Appends x a _ i (type_text (FieldType.decimal precision scale))
          (FieldType.decimal precision scale) (cells_at x a records i) (λ value fits. fits) h)
        (decimal_array-IsColumn precision scale i d)
