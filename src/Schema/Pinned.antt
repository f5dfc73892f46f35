-- ===== src/Schema/Pinned.antt =====
-- The pinned schema file of src/schema.rs: `PinnedSchema::from_yaml` and `to_yaml`. serde_yaml is a
-- parameter between the text of a file, of a type `Text`, and the raw file.
pub mod Contract
use data_spark.Prelude.{
  ℕ, String, Bool, true, false, Option, none, some, List, [], ◌∷◌, map, if◌then◌else◌, ◌==◌,
}
use data_spark.Prelude.Names.{contains}
use data_spark.Prelude.Text.{show, join}
use data_spark.Prelude.Outcome.{Result, ok, err, ◌>>=◌, map_err}
use data_spark.Failure.{LoadFailure}
use data_spark.Schema.Externals.{Externals}
use data_spark.Schema.TypeName.{parse_type_name}
use data_spark.Schema.Observe.{utf8}
use data_spark.Schema.Misfit.{type_text}
use data_spark.Schema.Directive.{PinnedField}

pub record PinnedFieldFile : Type 0 where
  pub name : String
  pub field_type : String
  pub nullable : Option Bool

pub record PinnedSchemaFile : Type 0 where
  pub version : Option ℕ
  pub fields : Option (List PinnedFieldFile)

-- `serde_yaml::from_str`, with its error's text, and `serde_yaml::to_string`
pub record Yaml (Text : Type 0) : Type 0 where
  pub from_str : Text → Result String PinnedSchemaFile
  pub to_string : PinnedSchemaFile → Text

-- `PINNED_SCHEMA_VERSION`
abbrev pub pinned_schema_version : ℕ
pinned_schema_version = 1

unfoldable pub invalid_pinned_schema : String → LoadFailure
invalid_pinned_schema message = record { code = "invalid_pinned_schema"; message = message }

abbrev pub is_no_fields : List PinnedFieldFile → Bool
is_no_fields [] = true
is_no_fields (raw ∷ fields) = false

-- `unwrap_or_default`
abbrev pub raw_fields : Option (List PinnedFieldFile) → List PinnedFieldFile
raw_fields none = []
raw_fields (some fields) = fields

-- `nullable.unwrap_or(true)`
abbrev pub nullable_or_true : Option Bool → Bool
nullable_or_true none = true
nullable_or_true (some nullable) = nullable

abbrev pub check_version : {A : Type 0} → Option ℕ → Result LoadFailure A → Result LoadFailure A
check_version none rest = err (invalid_pinned_schema "pinned schema version is required")
check_version (some version) rest =
    if version == pinned_schema_version
    then rest
    else err (
        invalid_pinned_schema (join "" ("unsupported pinned schema version: " ∷ show version ∷ [])))

module _ {Text : Type 0} (x : Externals) (yaml : Yaml Text) where
  -- One turn of the loop over the fields, after the test of its name.
  unfoldable pub read_field : PinnedFieldFile → Result LoadFailure PinnedField
  unfolding invalid_pinned_schema
  read_field raw = elim (parse_type_name (utf8 raw.field_type)) [
    | none ↦ err (
        invalid_pinned_schema
          (join "" ("unsupported pinned schema field type: " ∷ raw.field_type ∷ [])))
    | some field_type ↦ ok (record {
      name = raw.name;
      field_type = field_type;
      nullable = nullable_or_true raw.nullable;
    })
  ]

  unfoldable pub read_fields :
      List String → List PinnedFieldFile → Result LoadFailure (List PinnedField)
  unfolding contains invalid_pinned_schema read_field
  read_fields seen_names [] = ok []
  read_fields seen_names (raw ∷ fields) =
      let rest = read_fields (raw.name ∷ seen_names) fields in
      if contains raw.name seen_names
      then err (
          invalid_pinned_schema (
            join ""
              ("pinned schema field " ∷ x.quoted raw.name ∷ " is declared more than once" ∷ [])))
      else (read_field raw >>= λ field. rest >>= λ others. ok (field ∷ others))

  -- `from_yaml`, once the text is parsed.
  unfoldable pub validate_file : PinnedSchemaFile → Result LoadFailure (List PinnedField)
  unfolding invalid_pinned_schema read_fields
  validate_file file = check_version file.version (
      if is_no_fields (raw_fields file.fields)
      then err (invalid_pinned_schema "pinned schema must declare at least one field")
      else read_fields [] (raw_fields file.fields))

  unfoldable pub from_yaml : Text → Result LoadFailure (List PinnedField)
  unfolding invalid_pinned_schema validate_file
  from_yaml text =
      map_err
        (λ error. invalid_pinned_schema (join "" ("failed to parse pinned schema: " ∷ error ∷ [])))
        (yaml.from_str text)
      >>= validate_file

  unfoldable pub field_file : PinnedField → PinnedFieldFile
  unfolding type_text
  field_file field = record {
    name = field.name;
    field_type = type_text field.field_type;
    nullable = some field.nullable;
  }

  unfoldable pub to_yaml : List PinnedField → Text
  unfolding field_file
  to_yaml fields =
      yaml.to_string
        (record { version = some pinned_schema_version; fields = some (map field_file fields) })
