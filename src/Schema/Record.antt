-- ===== src/Schema/Record.antt =====
-- Records positioned at their source line, the addresses that columns read from, the checks on a
-- field, and rejected records: `TextRecord`, `JsonRecord`, `SourceAddress`, `FieldCheck` of
-- src/schema.rs and `RejectedRecord` of src/rejection.rs.
use data_spark.Prelude.{ℕ, String, Option, none, some, List, [], ◌∷◌, str_eq, if◌then◌else◌}
use data_spark.Prelude.Text.{join}
use data_spark.Json.{Value, Fields, get, uint}
use data_spark.Schema.Types.{FieldType}

pub record TextRecord : Type 0 where
  pub line : ℕ
  pub cells : List (Option String)

pub record JsonRecord : Type 0 where
  pub line : ℕ
  pub entries : Fields

pub data SourceAddress : Type 0 where
  field : String → SourceAddress
  path : List String → SourceAddress

unfoldable pub as_written : SourceAddress → String
unfolding join
as_written (SourceAddress.field name) = name
as_written (SourceAddress.path segments) = join "." segments

-- The walk over the segments after the first.
unfoldable pub descend : List String → Value → Option Value
unfolding get
descend [] value = some value
descend (segment ∷ segments) (Value.object inner) = elim (get segment inner) [
  | none ↦ none
  | some value ↦ descend segments value
]
descend (segment ∷ segments) _ = none

-- An address has at least one segment: indexing an empty path panics in the source.
unfoldable pub json_path_value : List String → Fields → Option Value
unfolding get descend
json_path_value [] entries = none
json_path_value (segment ∷ segments) entries = elim (get segment entries) [
  | none ↦ none
  | some value ↦ descend segments value
]

unfoldable pub json_value : SourceAddress → Fields → Option Value
unfolding get json_path_value
json_value (SourceAddress.field name) entries = get name entries
json_value (SourceAddress.path segments) entries = json_path_value segments entries

pub data NonNullRequirement : Type 0 where
  schema merge_key : NonNullRequirement

pub data TypeOrigin : Type 0 where
  pinned overridden : TypeOrigin

unfoldable pub wording : TypeOrigin → String
wording TypeOrigin.pinned = "pinned"
wording TypeOrigin.overridden = "overridden"

pub record FieldCheck : Type 0 where
  pub name : String
  pub source : SourceAddress
  pub observed_index : ℕ
  pub expected_type : Option (FieldType × TypeOrigin)
  pub required : Option NonNullRequirement

unfoldable pub source_field : FieldCheck → Option String
unfolding as_written
source_field check = elim check.source [
  | SourceAddress.field source_name ↦
      if str_eq check.name source_name then none else some source_name
  | SourceAddress.path segments ↦ some (as_written (SourceAddress.path segments))
]

pub record RejectedRecord : Type 0 where
  pub line : ℕ
  pub code : String
  pub field : Option String
  pub source_field : Option String
  pub message : String
  pub content : Value

abbrev option_value : Option String → Value
option_value none = Value.null
option_value (some text) = Value.string text

-- The JSON object that `artifact_line` renders.
unfoldable pub artifact_value : RejectedRecord → Value
artifact_value rejected = Value.object (
    Fields.field "line" (uint rejected.line) (
      Fields.field "code" (Value.string rejected.code) (
        Fields.field "field" (option_value rejected.field) (
          Fields.field "source_field" (option_value rejected.source_field) (
            Fields.field "message" (Value.string rejected.message)
              (Fields.field "record" rejected.content Fields.no_fields))))))
