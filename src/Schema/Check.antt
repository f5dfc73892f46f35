-- ===== src/Schema/Check.antt =====
-- The per-record validation of src/schema.rs: `validate_text_record`, `validate_json_record`,
-- `json_record_violates` and the rejections that they build.
pub mod Verdict
use data_spark.Prelude.{
  ℕ, String, Bool, true, false, not, ◌||◌, Option, none, some, List, [], ◌∷◌, if◌then◌else◌,
  get_elem?,
}
use data_spark.Prelude.Text.{join}
use data_spark.Json.{Value, Fields, insert}
use data_spark.Schema.Types.{FieldType}
use data_spark.Schema.Observe.{utf8}
use data_spark.Schema.Fit.{text_value_fits, json_value_fits}
use data_spark.Schema.Misfit.{type_text, text_misfit_cause, json_misfit_cause}
use data_spark.Schema.Record.{
  TextRecord, JsonRecord, FieldCheck, NonNullRequirement, TypeOrigin, RejectedRecord, json_value,
  source_field, wording,
}
use data_spark.Schema.Externals.{Externals}

abbrev cell_value : Option String → Value
cell_value none = Value.null
cell_value (some text) = Value.string text

-- `field_names.iter().zip(cells)`, collected into a map after the entries so far: a name that occurs
-- again replaces the value of its entry.
unfoldable pub zip_cells : Fields → List String → List (Option String) → Fields
unfolding insert
zip_cells entries (name ∷ names) (cell ∷ cells) =
    zip_cells (insert name (cell_value cell) entries) names cells
zip_cells entries _ _ = entries

unfoldable pub text_record_json : List String → List (Option String) → Value
unfolding zip_cells
text_record_json field_names cells = Value.object (zip_cells Fields.no_fields field_names cells)

-- `record.cells[i]`; an index out of range panics in the source.
abbrev pub cell_at : List (Option String) → ℕ → Option String
cell_at cells i = elim (get_elem? cells i) [ none ↦ none | some cell ↦ cell ]

module _ (x : Externals) where
  unfoldable pub null_value_rejection : ℕ → FieldCheck → NonNullRequirement → Value → RejectedRecord
  unfolding source_field
  null_value_rejection line check NonNullRequirement.schema content = record {
    line = line;
    code = "missing_required_field";
    field = some check.name;
    source_field = source_field check;
    message = (join "" ("required field " ∷ x.quoted check.name ∷ " is null" ∷ []));
    content = content;
  }
  null_value_rejection line check NonNullRequirement.merge_key content = record {
    line = line;
    code = "null_merge_key";
    field = some check.name;
    source_field = source_field check;
    message = (join "" ("merge key " ∷ x.quoted check.name ∷ " is null" ∷ []));
    content = content;
  }

  abbrev cause_suffix : Option String → String
  cause_suffix none = ""
  cause_suffix (some cause) = join "" (": " ∷ cause ∷ [])

  unfoldable pub type_rejection :
      ℕ → FieldCheck → FieldType → TypeOrigin → Value → Option String → Value → RejectedRecord
  unfolding source_field wording
  type_rejection line check expected_type origin value cause content = record {
    line = line;
    code = "type_coercion_failed";
    field = some check.name;
    source_field = source_field check;
    message = join "" (
        "value "
        ∷ x.render value
        ∷ " does not fit "
        ∷ wording origin
        ∷ " type "
        ∷ type_text expected_type
        ∷ " for field "
        ∷ x.quoted check.name
        ∷ cause_suffix cause
        ∷ []);
    content = content;
  }

  abbrev required_rejection : ℕ → FieldCheck → Value → Option RejectedRecord
  required_rejection line check content = elim check.required [
    | none ↦ none
    | some requirement ↦ some (null_value_rejection line check requirement content)
  ]

  -- One turn of the loop of `validate_text_record`.
  unfoldable pub check_text : ℕ → FieldCheck → Value → Option String → Option RejectedRecord
  check_text line check content none = required_rejection line check content
  check_text line check content (some value) = elim check.expected_type [
    | none ↦ none
    | some (expected_type, origin) ↦
        if text_value_fits x (utf8 value) expected_type
        then none
        else some (
            type_rejection line check expected_type origin (Value.string value)
              (text_misfit_cause x (utf8 value) expected_type) content)
  ]

  unfoldable pub validate_text_record :
      TextRecord → List FieldCheck → List String → Option RejectedRecord
  unfolding check_text
  validate_text_record row [] field_names = none
  validate_text_record row (check ∷ checks) field_names =
      elim (check_text row.line check (text_record_json field_names row.cells)
        (cell_at row.cells check.observed_index)) [
          | some rejection ↦ some rejection
          | none ↦ validate_text_record row checks field_names
        ]

  abbrev check_json_type : ℕ → FieldCheck → Value → Value → Option RejectedRecord
  check_json_type line check content value = elim check.expected_type [
    | none ↦ none
    | some (expected_type, origin) ↦
        if json_value_fits x value expected_type
        then none
        else some (
            type_rejection line check expected_type origin value
              (json_misfit_cause x value expected_type) content)
  ]

  -- One turn of the loop of `validate_json_record`.
  unfoldable pub check_json : ℕ → FieldCheck → Value → Option Value → Option RejectedRecord
  check_json line check content none = required_rejection line check content
  check_json line check content (some Value.null) = required_rejection line check content
  check_json line check content (some value) = check_json_type line check content value

  unfoldable pub validate_json_record : JsonRecord → List FieldCheck → Option RejectedRecord
  unfolding check_json
  validate_json_record row [] = none
  validate_json_record row (check ∷ checks) =
      elim (check_json row.line check (Value.object row.entries)
        (json_value check.source row.entries)) [
          | some rejection ↦ some rejection
          | none ↦ validate_json_record row checks
        ]

  abbrev is_required : FieldCheck → Bool
  is_required check = elim check.required [ none ↦ false | some requirement ↦ true ]

  abbrev misfits : FieldCheck → Value → Bool
  misfits check value = elim check.expected_type [
    | none ↦ false
    | some (expected_type, origin) ↦ not (json_value_fits x value expected_type)
  ]

  -- The closure that `json_record_violates` gives to `any`.
  unfoldable pub violates : FieldCheck → Option Value → Bool
  violates check none = is_required check
  violates check (some Value.null) = is_required check
  violates check (some value) = misfits check value

  unfoldable pub json_record_violates : JsonRecord → List FieldCheck → Bool
  unfolding violates
  json_record_violates row [] = false
  json_record_violates row (check ∷ checks) =
      violates check (json_value check.source row.entries) || json_record_violates row checks
