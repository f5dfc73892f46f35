-- ===== src/Schema/Chunk/BuildsJson.antt =====
-- Which chunks the plan of src/schema.rs builds from JSONL records that passed the validation.
use data_spark.Prelude.{
  ℕ, suc, true, false, Option, none, some, List, [], ◌∷◌, map, ◌≡◌, ◌≢◌, refl, ◌⊎◌, inl, inr, All,
  All-imp, All-on_map, length, length-map, Option-cases, arith,
}
use data_spark.Prelude.Outcome.{ok}
use data_spark.Json.{Value}
use data_spark.Schema.Externals.{Externals}
use data_spark.Schema.TypeName.RoundTrip.{IsDeclarable}
use data_spark.Schema.Record.{JsonRecord, json_value}
use data_spark.Schema.Check.{validate_json_record, check_json}
use data_spark.Schema.Directive.{PlannedField, pinned_checks}
use data_spark.Schema.Column.{Arrow, Column}
use data_spark.Schema.Column.Json.{build_json_array, values_at}
use data_spark.Schema.Column.Fit.{IsFaithful}
use data_spark.Schema.Column.FitJson.{is_null, FitsJson, build_json_array-IsColumn}
use data_spark.Schema.Chunk.{arrow_field, chunk_plan, json_columns, assemble, build_json_chunk}
use data_spark.Schema.Chunk.Builds.{
  Holds, Conforms, TakesBatches, column-Holds, map-nonempty, check_of,
}

module _ (x : Externals) (a : Arrow) where
  -- What a passed record's value is to a planned field.
  abbrev Suits : PlannedField → Option Value → Type 0
  Suits planned value =
      FitsJson x a planned.materialized_type value
      × ((planned.nullable ≡ true) ⊎ (is_null value ≡ false))

  abbrev Passes : List PlannedField → JsonRecord → Type 0
  Passes fields row = validate_json_record x row (pinned_checks fields) ≡ none

  check-Suits :
      (planned : PlannedField) (line : ℕ) (content : Value) (value : Option Value)
      → check_json x line (check_of x a planned) content value ≡ none
      → Suits planned value
  unfolding check_json
  check-Suits planned line content none h = (tt, inl (ground arith))
  check-Suits planned line content (some Value.null) h = (tt, inl (ground arith))
  check-Suits planned line content (some (Value.bool b)) h = (ground arith, inr refl)
  check-Suits planned line content (some (Value.number n)) h = (ground arith, inr refl)
  check-Suits planned line content (some (Value.string s)) h = (ground arith, inr refl)
  check-Suits planned line content (some (Value.array v)) h = (ground arith, inr refl)
  check-Suits planned line content (some (Value.object f)) h = (ground arith, inr refl)

  first_check :
      (planned : PlannedField) (fields : List PlannedField) (row : JsonRecord)
      → Passes (planned ∷ fields) row
      → Suits planned (json_value planned.source row.entries) × Passes fields row
  unfolding validate_json_record pinned_checks
  first_check planned fields row h =
      let content = Value.object row.entries in
      let value = json_value planned.source row.entries in
      elim (Option-cases (check_json x row.line (check_of x a planned) content value)) [
        | inl e ↦ (check-Suits planned row.line content value e, ground arith)
        | inr (r, e) ↦ absurd (ground arith)
      ]

module _ (x : Externals) (a : Arrow) (faithful : IsFaithful x a) (records : List JsonRecord) where
  json_column-Holds :
      (i : ℕ) (planned : PlannedField)
      → IsDeclarable planned.materialized_type
      → All (λ row. Suits x a planned (json_value planned.source row.entries)) records
      → (column : Column) × (build_json_array x a planned.materialized_type records planned.source i
          ≡ ok column)
        × Holds (length records) (arrow_field planned) column
  unfolding values_at
  json_column-Holds i planned d h =
      let values = values_at x a records planned.source in
      let suits =
        All-on_map (Suits x a planned) (λ row. json_value planned.source row.entries) records h in
      let (column, e, is) =
        build_json_array-IsColumn x a faithful planned.materialized_type records planned.source i d
          (All-imp (Suits x a planned) _ values (λ value s. s.0) suits) in
      (
        column,
        e,
        column-Holds is_null planned values column (length records)
            (length-map (λ row. json_value planned.source row.entries) records)
            (All-imp (Suits x a planned) _ values (λ value s. s.1) suits) is,
      )

  json_columns-Conforms :
      (i : ℕ) (fields : List PlannedField)
      → All (λ planned. IsDeclarable planned.materialized_type) fields
      → All (Passes x a fields) records
      → (columns : List Column) × (json_columns x a i fields records ≡ ok columns)
        × Conforms (length records) (map arrow_field fields) columns
  unfolding json_columns
  json_columns-Conforms i [] d h = ([], refl, Conforms.done)
  json_columns-Conforms i (planned ∷ fields) (d, ds) h =
      let both =
        All-imp _
          (λ row. Suits x a planned (json_value planned.source row.entries) × Passes x a fields row)
          records (first_check x a planned fields) h in
      let (column, e, holds) =
        json_column-Holds i planned d (All-imp _ _ records (λ row p. p.0) both) in
      let (columns, f, conforms) =
        json_columns-Conforms (suc i) fields ds (All-imp _ _ records (λ row p. p.1) both) in
      (
        column ∷ columns,
        rw (e, f) refl,
        Conforms.next (arrow_field planned) column (map arrow_field fields) columns holds conforms,
      )

  -- JSONL records that pass the checks of a plan's fields, at least one field and each of a declarable type, build into a batch: the coercion arms are not reached, and the batch has the plan's schema and for each field a column of its type with a slot for every record, none of them null where the field forbids nulls. Arrow is taken to accept such columns.
  pub build_json_chunk-builds :
      (fields : List PlannedField)
      → TakesBatches a
      → fields ≢ []
      → All (λ planned. IsDeclarable planned.materialized_type) fields
      → All (λ row. validate_json_record x row (pinned_checks fields) ≡ none) records
      → (columns : List Column) × (build_json_chunk x a (chunk_plan fields) records
          ≡ ok (record { schema = map arrow_field fields; columns = columns }))
        × Conforms (length records) (map arrow_field fields) columns
  unfolding build_json_chunk chunk_plan assemble
  build_json_chunk-builds fields takes some_field d h =
      let (columns, e, conforms) = json_columns-Conforms 0 fields d h in
      (
        columns,
        rw
            (
              e,
              takes (length records) (map arrow_field fields) columns conforms
                  (map-nonempty arrow_field fields some_field),
              assemble,
            )
            refl,
        conforms,
      )
