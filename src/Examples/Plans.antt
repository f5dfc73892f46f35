-- ===== src/Examples/Plans.antt =====
-- The schema configuration, the resolution and the chunks at concrete inputs.
use data_spark.Prelude.{
  true, false, none, some, List, [], ◌∷◌, map, ◌≡◌, refl, inl, inr, All, length, arith, str_eq,
}
use data_spark.Prelude.Names.{Distinct, contains}
use data_spark.Prelude.Outcome.{ok, err}
use data_spark.Json.{Value, Fields, Number}
use data_spark.Schema.Externals.{Externals}
use data_spark.Schema.Types.{FieldType, InferredType, lattice_type}
use data_spark.Schema.TypeName.{parse_type_name}
use data_spark.Schema.Observe.{utf8, infer_text_type, infer_json_type}
use data_spark.Schema.Record.{TextRecord, JsonRecord, SourceAddress, json_value}
use data_spark.Schema.Check.{validate_text_record, validate_json_record}
use data_spark.Schema.Directive.{
  PinnedField, FieldOverride, SchemaTransform, SchemaDirective, DriftPolicy, PlannedField,
  DatasetColumn, pinned_checks,
}
use data_spark.Schema.Fit.{text_value_fits, json_value_fits}
use data_spark.Schema.Override.{OverrideEntry, from_entries}
use data_spark.Schema.Override.Accepted.{IsEffective, override_names, from_entries-IsEffective}
use data_spark.Schema.Transform.{TransformConfig, from_config}
use data_spark.Schema.Transform.Accepted.{IsAccepted, from_config-IsAccepted}
use data_spark.Schema.Pinned.{Yaml, PinnedSchemaFile, from_yaml, to_yaml}
use data_spark.Schema.Pinned.Contract.{IsPin, from_yaml-to_yaml, from_yaml-IsPin}
use data_spark.Schema.Shape.{match_shape, ShapeMatch}
use data_spark.Schema.Shape.Matched.{IsMatched, match_shape-IsMatched}
use data_spark.Schema.Resolve.{Resolution, resolve_plan}
use data_spark.Schema.Resolve.Pinned.{KeepsPin, resolve_plan-KeepsPin}
use data_spark.Schema.Column.{Arrow, Column}
use data_spark.Schema.Column.Fit.{IsFaithful}
use data_spark.Schema.Chunk.{build_text_chunk, build_json_chunk, chunk_plan, arrow_field}
use data_spark.Schema.Chunk.Builds.{Conforms, build_text_chunk-builds}
use data_spark.Schema.Chunk.BuildsJson.{build_json_chunk-builds}

abbrev pub codes : Externals
codes = record {
  timestamp_micros = λ year month day hour minute second micros. none;
  parses_f64 = λ text. true;
  is_finite_f64 = λ text. true;
  render = λ value. "null";
  quoted = λ text. text;
}

-- A file is its own text.
abbrev pub plain_yaml : Yaml PinnedSchemaFile
plain_yaml = record { from_str = λ file. ok file; to_string = λ file. file }

abbrev id_field : PinnedField
id_field = record { name = "id"; field_type = FieldType.int64; nullable = false }

abbrev total_field : PinnedField
total_field = record { name = "total"; field_type = FieldType.decimal 10 2; nullable = true }

abbrev pin : List PinnedField
pin = id_field ∷ total_field ∷ []

pin-IsPin : IsPin pin
unfolding contains
pin-IsPin = (λ e. cc e, (refl, (refl, tt)), (tt, ((omega arith, omega arith, omega arith), tt)))

from_yaml-to_yaml_example : from_yaml codes plain_yaml (to_yaml codes plain_yaml pin) ≡ ok pin
from_yaml-to_yaml_example = from_yaml-to_yaml codes plain_yaml pin (λ file. refl) pin-IsPin

abbrev pin_file : PinnedSchemaFile
pin_file = record {
  version = some 1;
  fields = some (
      record { name = "id"; field_type = "int64"; nullable = some false }
      ∷ record { name = "total"; field_type = "decimal(10,2)"; nullable = none }
      ∷ []);
}

pin_file_reads : from_yaml codes plain_yaml pin_file ≡ ok pin
unfolding from_yaml parse_type_name utf8
pin_file_reads = refl

from_yaml-IsPin_example : IsPin pin
from_yaml-IsPin_example = from_yaml-IsPin codes plain_yaml pin_file pin pin_file_reads

abbrev entries : List OverrideEntry
entries =
    record { name = "total"; field_type = some "decimal(10,2)"; nullable = none }
    ∷ record { name = "note"; field_type = none; nullable = some false }
    ∷ []

abbrev overrides : List FieldOverride
overrides =
    record { name = "total"; field_type = some (FieldType.decimal 10 2); nullable = none }
    ∷ record { name = "note"; field_type = none; nullable = some false }
    ∷ []

overrides_read : from_entries codes entries ≡ ok overrides
unfolding from_entries parse_type_name utf8
overrides_read = refl

from_entries-IsEffective_example :
    (override_names overrides ≡ map (λ entry. entry.name) entries)
    × Distinct (override_names overrides)
    × All IsEffective overrides
from_entries-IsEffective_example = from_entries-IsEffective codes entries overrides overrides_read

abbrev renaming : TransformConfig
renaming = record {
  flatten = none;
  select = some ("id" ∷ "sum" ∷ "note" ∷ []);
  rename = some (("sum", "total") ∷ []);
}

abbrev transform : SchemaTransform
transform = record {
  flatten = [];
  select = some ("id" ∷ "sum" ∷ "note" ∷ []);
  rename = ("sum", "total") ∷ [];
}

transform_read : from_config codes (λ text. str_eq text "") renaming "csv" ≡ ok transform
unfolding from_config
transform_read = refl

from_config-IsAccepted_example : IsAccepted transform
from_config-IsAccepted_example =
    from_config-IsAccepted codes (λ text. str_eq text "") renaming "csv" transform transform_read

abbrev columns : List DatasetColumn
columns =
    record { dataset_name = "id"; source = SourceAddress.field "id"; observed_index = 1 }
    ∷ record { dataset_name = "total"; source = SourceAddress.field "sum"; observed_index = 0 }
    ∷ record { dataset_name = "note"; source = SourceAddress.field "note"; observed_index = 2 }
    ∷ []

abbrev planned_id : PlannedField
planned_id = record {
  name = "id";
  source = SourceAddress.field "id";
  materialized_type = FieldType.int64;
  nullable = false;
  observed_index = 1;
}

abbrev planned_total : PlannedField
planned_total = record {
  name = "total";
  source = SourceAddress.field "sum";
  materialized_type = FieldType.decimal 10 2;
  nullable = true;
  observed_index = 0;
}

abbrev shape : ShapeMatch
shape = record {
  matched = planned_id ∷ planned_total ∷ [];
  added =
      record { dataset_name = "note"; source = SourceAddress.field "note"; observed_index = 2 }
      ∷ [];
}

shape_matches :
    match_shape codes "pin.yaml" pin DriftPolicy.allow_additive_nullable columns ≡ ok shape
unfolding match_shape
shape_matches = refl

match_shape-IsMatched_example : IsMatched pin DriftPolicy.allow_additive_nullable columns shape
match_shape-IsMatched_example =
    match_shape-IsMatched codes "pin.yaml" pin DriftPolicy.allow_additive_nullable columns shape
      shape_matches

abbrev pub directive : SchemaDirective
directive =
    SchemaDirective.pinned "pin.yaml" pin DriftPolicy.allow_additive_nullable transform overrides

abbrev types : List InferredType
types = InferredType.float64 ∷ InferredType.int64 ∷ InferredType.utf8 ∷ []

abbrev pub unresolved : Resolution PinnedSchemaFile
unresolved = record {
  plan = record { fields = []; schema = [] };
  checks = [];
  decision = Value.null;
  pinned_schema_write = none;
}

unfoldable resolved : Resolution PinnedSchemaFile
resolved =
    elim (resolve_plan codes plain_yaml directive ("id" ∷ []) ("sum" ∷ "id" ∷ "note" ∷ []) types
      types) [ ok resolution ↦ resolution | err failed ↦ unresolved ]

resolved_ok :
    resolve_plan codes plain_yaml directive ("id" ∷ []) ("sum" ∷ "id" ∷ "note" ∷ []) types types
    ≡ ok resolved
unfolding resolve_plan resolved lattice_type
resolved_ok = refl

overrides-IsEffective : All IsEffective overrides
overrides-IsEffective =
    ((inl (λ e. cc e), (omega arith, omega arith, omega arith)), ((inr (λ e. cc e), tt), tt))

resolve_plan-KeepsPin_example :
    KeepsPin codes plain_yaml pin DriftPolicy.allow_additive_nullable resolved
resolve_plan-KeepsPin_example =
    resolve_plan-KeepsPin codes plain_yaml "pin.yaml" pin DriftPolicy.allow_additive_nullable
      transform overrides ("id" ∷ []) ("sum" ∷ "id" ∷ "note" ∷ []) types types resolved
      (λ file. refl) pin-IsPin overrides-IsEffective resolved_ok

abbrev plain_arrow : Arrow
plain_arrow = record {
  f64_bits = λ text. 0;
  as_f64 = λ number. some 0;
  decimal_error = λ precision scale. none;
  batch_error = λ schema columns. none;
}

plain_arrow-IsFaithful : IsFaithful codes plain_arrow
plain_arrow-IsFaithful = record {
  integers_finite = λ text h. refl;
  numbers_have_f64 = λ number. refl;
  decimals_accepted = λ precision scale d. refl;
}

abbrev planned_score : PlannedField
planned_score = record {
  name = "score";
  source = SourceAddress.path ("stats" ∷ "score" ∷ []);
  materialized_type = FieldType.float64;
  nullable = true;
  observed_index = 0;
}

abbrev planned_fields : List PlannedField
planned_fields = planned_id ∷ planned_score ∷ []

abbrev text_rows : List TextRecord
text_rows =
    record { line = 2; cells = some "1.5" ∷ some "7" ∷ [] }
    ∷ record { line = 3; cells = none ∷ some "8" ∷ [] }
    ∷ []

text_rows_pass :
    All
      (λ row.
        validate_text_record codes row (pinned_checks planned_fields) ("score" ∷ "id" ∷ []) ≡ none)
      text_rows
unfolding validate_text_record pinned_checks text_value_fits infer_text_type utf8
text_rows_pass = (refl, (refl, tt))

build_text_chunk-builds_example :
    (columns : List Column) × (build_text_chunk codes plain_arrow
        (chunk_plan planned_fields)
        text_rows
      ≡ ok (record { schema = map arrow_field planned_fields; columns = columns }))
    × Conforms (length text_rows) (map arrow_field planned_fields) columns
build_text_chunk-builds_example =
    build_text_chunk-builds codes plain_arrow plain_arrow-IsFaithful ("score" ∷ "id" ∷ []) text_rows
      planned_fields (λ n schema columns conforms some_field. refl) (λ e. cc e) (tt, (tt, tt))
      text_rows_pass

abbrev json_rows : List JsonRecord
json_rows =
    record {
      line = 1;
      entries = Fields.field "id" (Value.number (Number.neg 4)) (
          Fields.field "stats"
            (Value.object (Fields.field "score" (Value.number (Number.pos 3)) Fields.no_fields))
            Fields.no_fields);
    }
    ∷ record {
      line = 2;
      entries = Fields.field "id" (Value.number (Number.pos 9)) Fields.no_fields;
    }
    ∷ []

json_rows_pass :
    All (λ row. validate_json_record codes row (pinned_checks planned_fields) ≡ none) json_rows
unfolding validate_json_record pinned_checks json_value_fits infer_json_type json_value
json_rows_pass = (refl, (refl, tt))

build_json_chunk-builds_example :
    (columns : List Column) × (build_json_chunk codes plain_arrow
        (chunk_plan planned_fields)
        json_rows
      ≡ ok (record { schema = map arrow_field planned_fields; columns = columns }))
    × Conforms (length json_rows) (map arrow_field planned_fields) columns
build_json_chunk-builds_example =
    build_json_chunk-builds codes plain_arrow plain_arrow-IsFaithful json_rows planned_fields
      (λ n schema columns conforms some_field. refl) (λ e. cc e) (tt, (tt, tt)) json_rows_pass
