-- ===== src/Schema/Chunk/Builds.antt =====
-- Which chunks the plan of src/schema.rs builds from records that passed the validation.
use data_spark.Prelude.{
  ℕ, String, Bool, true, false, not, Option, none, some, List, [], ◌∷◌, map, ◌≡◌, ◌≢◌, refl, ap,
  ◌∙◌, sym, subst, ◌⊎◌, inl, inr, All, All-imp, All-on_map, length, length-map, Bool-cases,
  Option-cases, arith,
}
use data_spark.Prelude.Outcome.{ok}
use data_spark.Schema.Externals.{Externals}
use data_spark.Schema.TypeName.RoundTrip.{IsDeclarable}
use data_spark.Schema.Record.{TextRecord, TypeOrigin, FieldCheck}
use data_spark.Json.{Value}
use data_spark.Schema.Check.{validate_text_record, check_text, cell_at, text_record_json}
use data_spark.Schema.Directive.{PlannedField, pinned_checks, required_if}
use data_spark.Schema.Column.{Arrow, ArrowField, Column, build_text_array, cells_at}
use data_spark.Schema.Column.Fit.{
  is_none, column_type, nulls, IsFaithful, IsColumn, FitsText, build_text_array-IsColumn,
}
use data_spark.Schema.Chunk.{arrow_field, chunk_plan, text_columns, assemble, build_text_chunk}

-- A column for a field: of its type, of this many slots, none of them null if the field forbids it.
abbrev pub Holds : ℕ → ArrowField → Column → Type 0
Holds n field column =
    (column_type column ≡ field.data_type)
    × (length (nulls column) ≡ n)
    × ((field.nullable ≡ true) ⊎ All (λ null. null ≡ false) (nulls column))

-- The columns of a schema, one for each field.
pub data Conforms (n : ℕ) : List ArrowField → List Column → Type 0 where
  done : Conforms n [] []
  next :
      (field : ArrowField) (column : Column) (schema : List ArrowField) (columns : List Column)
      → Holds n field column
      → Conforms n schema columns
      → Conforms n (field ∷ schema) (column ∷ columns)

-- `RecordBatch::try_new` takes the columns of a schema that has any.
abbrev pub TakesBatches : Arrow → Type 0
TakesBatches a =
    (n : ℕ) (schema : List ArrowField) (columns : List Column)
    → Conforms n schema columns
    → schema ≢ []
    → a.batch_error schema columns ≡ none

-- The slots of a column whose null slots are those of the cells.
pub column-Holds :
    {C : Type 0} (null : C → Bool) (planned : PlannedField) (cells : List C) (column : Column)
    (n : ℕ)
    → length cells ≡ n
    → All (λ cell. (planned.nullable ≡ true) ⊎ (null cell ≡ false)) cells
    → IsColumn planned.materialized_type (map null cells) column
    → Holds n (arrow_field planned) column
unfolding arrow_field
column-Holds null planned cells column n count h (typed, ns) = (
  typed,
  ap length ns ∙ (length-map null cells ∙ count),
  elim (Bool-cases planned.nullable) [
    | inl e ↦ inl e
    | inr f ↦ inr (
        subst (λ bs. All (λ b. b ≡ false) bs) (sym ns)
          (All-on_map (λ b. b ≡ false) null cells
            (All-imp (λ cell. (planned.nullable ≡ true) ⊎ (null cell ≡ false)) _ cells
              (λ cell either. elim either [ inl e ↦ absurd (cc (e, f)) | inr e ↦ e ]) h)))
  ],
)

pub map-nonempty : {A B : Type 0} (f : A → B) (xs : List A) → xs ≢ [] → map f xs ≢ []
map-nonempty f [] h e = h refl
map-nonempty f (v ∷ xs) h e = cc e

module _ (x : Externals) (a : Arrow) where
  -- What a passed record's cell is to a planned field.
  abbrev pub Suits : PlannedField → Option String → Type 0
  Suits planned cell =
      FitsText x a planned.materialized_type cell
      × ((planned.nullable ≡ true) ⊎ (is_none cell ≡ false))

  abbrev Passes : List String → List PlannedField → TextRecord → Type 0
  Passes names fields row = validate_text_record x row (pinned_checks fields) names ≡ none

  abbrev pub check_of : PlannedField → FieldCheck
  check_of planned = record {
    name = planned.name;
    source = planned.source;
    observed_index = planned.observed_index;
    expected_type = some (planned.materialized_type, TypeOrigin.pinned);
    required = required_if (not planned.nullable);
  }

  check-Suits :
      (planned : PlannedField) (line : ℕ) (content : Value) (cell : Option String)
      → check_text x line (check_of planned) content cell ≡ none
      → Suits planned cell
  unfolding check_text
  check-Suits planned line content none h = (tt, inl (ground arith))
  check-Suits planned line content (some value) h = (ground arith, inr refl)

  first_check :
      (names : List String) (planned : PlannedField) (fields : List PlannedField) (row : TextRecord)
      → Passes names (planned ∷ fields) row
      → Suits planned (cell_at row.cells planned.observed_index) × Passes names fields row
  unfolding validate_text_record pinned_checks
  first_check names planned fields row h =
      let content = text_record_json names row.cells in
      let cell = cell_at row.cells planned.observed_index in
      elim (Option-cases (check_text x row.line (check_of planned) content cell)) [
        | inl e ↦ (check-Suits planned row.line content cell e, ground arith)
        | inr (r, e) ↦ absurd (ground arith)
      ]

module _ (x : Externals) (a : Arrow) (faithful : IsFaithful x a) (names : List String)
    (records : List TextRecord) where
  text_column-Holds :
      (planned : PlannedField)
      → IsDeclarable planned.materialized_type
      → All (λ row. Suits x a planned (cell_at row.cells planned.observed_index)) records
      → (column : Column) × (build_text_array x a planned.materialized_type records
            planned.observed_index
          ≡ ok column)
        × Holds (length records) (arrow_field planned) column
  unfolding cells_at
  text_column-Holds planned d h =
      let cells = cells_at x a records planned.observed_index in
      let suits =
        All-on_map (Suits x a planned) (λ row. cell_at row.cells planned.observed_index) records
          h in
      let (column, e, is) =
        build_text_array-IsColumn x a faithful planned.materialized_type records
          planned.observed_index d (All-imp (Suits x a planned) _ cells (λ cell s. s.0) suits) in
      (
        column,
        e,
        column-Holds is_none planned cells column (length records)
            (length-map (λ row. cell_at row.cells planned.observed_index) records)
            (All-imp (Suits x a planned) _ cells (λ cell s. s.1) suits) is,
      )

  text_columns-Conforms :
      (fields : List PlannedField)
      → All (λ planned. IsDeclarable planned.materialized_type) fields
      → All (Passes x a names fields) records
      → (columns : List Column) × (text_columns x a fields records ≡ ok columns)
        × Conforms (length records) (map arrow_field fields) columns
  unfolding text_columns
  text_columns-Conforms [] d h = ([], refl, Conforms.done)
  text_columns-Conforms (planned ∷ fields) (d, ds) h =
      let both =
        All-imp _
          (λ row.
            Suits x a planned (cell_at row.cells planned.observed_index)
            × Passes x a names fields row)
          records (first_check x a names planned fields) h in
      let (column, e, holds) =
        text_column-Holds planned d (All-imp _ _ records (λ row p. p.0) both) in
      let (columns, f, conforms) =
        text_columns-Conforms fields ds (All-imp _ _ records (λ row p. p.1) both) in
      (
        column ∷ columns,
        rw (e, f) refl,
        Conforms.next (arrow_field planned) column (map arrow_field fields) columns holds conforms,
      )

  -- CSV records that pass the checks of a plan's fields, at least one field and each of a declarable type, build into a batch: no coercion fails, and the batch has the plan's schema and for each field a column of its type with a slot for every record, none of them null where the field forbids nulls. Arrow is taken to accept such columns.
  pub build_text_chunk-builds :
      (fields : List PlannedField)
      → TakesBatches a
      → fields ≢ []
      → All (λ planned. IsDeclarable planned.materialized_type) fields
      → All (λ row. validate_text_record x row (pinned_checks fields) names ≡ none) records
      → (columns : List Column) × (build_text_chunk x a (chunk_plan fields) records
          ≡ ok (record { schema = map arrow_field fields; columns = columns }))
        × Conforms (length records) (map arrow_field fields) columns
  unfolding build_text_chunk chunk_plan assemble
  build_text_chunk-builds fields takes some_field d h =
      let (columns, e, conforms) = text_columns-Conforms fields d h in
      (
        columns,
        rw
            (
              e,
              takes (length records) (map arrow_field fields) columns conforms
                  (map-nonempty arrow_field fields some_field),
              assemble,
            )
            refl,
        conforms,
      )
