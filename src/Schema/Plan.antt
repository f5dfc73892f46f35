-- ===== src/Schema/Plan.antt =====
-- The field plans of src/schema.rs: `inferred_plan`, `planned_added_fields`, `assemble_pinned_plan`
-- and the decisions that reports carry.
use data_spark.Prelude.{
  ℕ, String, Bool, true, Option, none, some, List, [], ◌∷◌, ◌++◌, map, get_elem?,
}
use data_spark.Json.{Value, Fields, items_of}
use data_spark.Execution.{ExecutionFailure, pre_materialization_failure}
use data_spark.Prelude.Text.{join}
use data_spark.Schema.Externals.{Externals}
use data_spark.Schema.Types.{FieldType, InferredType, field_type}
use data_spark.Schema.Misfit.{type_text}
use data_spark.Schema.Directive.{
  PinnedField, FieldOverride, DatasetColumn, PlannedField, SchemaDirective, get_override,
}
use data_spark.Schema.Pinned.{Yaml, to_yaml, nullable_or_true}

pub record PinnedSchemaWrite (Text : Type 0) : Type 0 where
  pub pinned_path : String
  pub yaml : Text

pub record FieldPlan (Text : Type 0) : Type 0 where
  pub fields : List PlannedField
  pub decision : Value
  pub pinned_schema_write : Option (PinnedSchemaWrite Text)

-- `json!({ "name": .., "type": .., "nullable": .. })`
unfoldable pub field_json : String → FieldType → Bool → Value
field_json name t nullable = Value.object (
    Fields.field "name" (Value.string name) (
      Fields.field "type" (Value.string (type_text t))
        (Fields.field "nullable" (Value.bool nullable) Fields.no_fields)))

unfoldable pub pinned_fields_json : List PinnedField → Value
unfolding field_json items_of
pinned_fields_json pin =
    Value.array (items_of (map (λ f. field_json f.name f.field_type f.nullable) pin))

unfoldable pub fields_json : List PlannedField → Value
unfolding field_json items_of
fields_json fields =
    Value.array (items_of (map (λ f. field_json f.name f.materialized_type f.nullable) fields))

-- The pin of planned fields.
unfoldable pub pin_of_planned : PlannedField → PinnedField
pin_of_planned planned = record {
  name = planned.name;
  field_type = planned.materialized_type;
  nullable = planned.nullable;
}

-- `observed_types[index].field_type()`; an index out of range panics in the source.
unfoldable pub type_at : List InferredType → ℕ → FieldType
unfolding field_type
type_at types i = elim (get_elem? types i) [ none ↦ FieldType.utf8 | some t ↦ field_type t ]

abbrev type_of : Option FieldOverride → Option FieldType
type_of none = none
type_of (some over) = over.field_type

abbrev nullable_of : Option FieldOverride → Option Bool
nullable_of none = none
nullable_of (some over) = over.nullable

-- `unwrap_or_else(|| observed_types[index].field_type())`
abbrev type_or_observed : Option FieldType → List InferredType → ℕ → FieldType
type_or_observed none types i = type_at types i
type_or_observed (some t) types i = t

-- The closure of `inferred_plan`, which is that of `planned_added_fields`.
unfoldable pub plan_column : List FieldOverride → List InferredType → DatasetColumn → PlannedField
unfolding get_override type_at
plan_column overrides types column =
    let over = get_override overrides column.dataset_name in
    record {
      name = column.dataset_name;
      source = column.source;
      materialized_type = type_or_observed (type_of over) types column.observed_index;
      nullable = nullable_or_true (nullable_of over);
      observed_index = column.observed_index;
    }

unfoldable pub planned_added_fields :
    List DatasetColumn → List InferredType → List FieldOverride → List PlannedField
unfolding plan_column
planned_added_fields added survivor_types overrides =
    map (plan_column overrides survivor_types) added

abbrev pub text_field : String → String → Fields → Fields
text_field key text rest = Fields.field key (Value.string text) rest

module _ {Text : Type 0} (x : Externals) (yaml : Yaml Text) where
  unfoldable pub pin_yaml : List PlannedField → Text
  unfolding to_yaml pin_of_planned
  pin_yaml fields = to_yaml x yaml (map pin_of_planned fields)

  unfoldable pub inferred_plan :
      List DatasetColumn → List InferredType → Option String → List FieldOverride → FieldPlan Text
  unfolding plan_column fields_json pin_yaml
  inferred_plan columns observed_types pinned_path overrides =
      let fields = map (plan_column overrides observed_types) columns in
      elim pinned_path [
        | none ↦ record {
          fields = fields;
          decision = Value.object (
              text_field "mode" "inferred" (
                Fields.field "fields" (fields_json fields)
                  (text_field "drift_status" "not_applicable" Fields.no_fields)));
          pinned_schema_write = none;
        }
        | some path ↦ record {
          fields = fields;
          decision = Value.object (
              text_field "mode" "inferred" (
                Fields.field "fields" (fields_json fields) (
                  text_field "drift_status" "not_applicable" (
                    text_field "pinned_schema_path" path (
                      Fields.field "pinned_schema_persisted" (Value.bool true)
                        Fields.no_fields)))));
          pinned_schema_write = some (record { pinned_path = path; yaml = pin_yaml fields });
        }
      ]

  unfoldable pub assemble_pinned_plan :
      String → List PlannedField → List PlannedField → FieldPlan Text
  unfolding fields_json pin_yaml
  assemble_pinned_plan pinned_path matched [] = record {
    fields = matched;
    decision = Value.object (
        text_field "mode" "pinned" (
          Fields.field "fields" (fields_json matched) (
            text_field "drift_status" "none"
              (text_field "pinned_schema_path" pinned_path Fields.no_fields))));
    pinned_schema_write = none;
  }
  assemble_pinned_plan pinned_path matched (a ∷ added) = record {
    fields = matched ++ a ∷ added;
    decision = Value.object (
        text_field "mode" "pinned" (
          Fields.field "fields" (fields_json (matched ++ a ∷ added)) (
            text_field "drift_status" "additive_fields_added" (
              Fields.field "added_fields" (fields_json (a ∷ added)) (
                text_field "pinned_schema_path" pinned_path
                  (Fields.field "pinned_schema_persisted" (Value.bool true) Fields.no_fields))))));
    pinned_schema_write =
        some (record { pinned_path = pinned_path; yaml = pin_yaml (matched ++ a ∷ added) });
  }

unfoldable pub configured_posture_decision : SchemaDirective → Value
unfolding pinned_fields_json
configured_posture_decision (SchemaDirective.inferred transform overrides) =
    Value.object
      (text_field "mode" "inferred" (text_field "drift_status" "not_applicable" Fields.no_fields))
configured_posture_decision (SchemaDirective.pin_inferred path transform overrides) = Value.object (
    text_field "mode" "inferred" (
      text_field "drift_status" "not_applicable"
        (text_field "pinned_schema_path" path Fields.no_fields)))
configured_posture_decision (SchemaDirective.pinned path pin policy transform overrides) =
    Value.object (
      text_field "mode" "pinned" (
        Fields.field "fields" (pinned_fields_json pin) (
          text_field "drift_status" "not_applicable"
            (text_field "pinned_schema_path" path Fields.no_fields))))

unfoldable pub drift_failure : String → List PinnedField → String → Value → ExecutionFailure
unfolding pinned_fields_json pre_materialization_failure
drift_failure pinned_path pin detail drift =
    pre_materialization_failure
      (record {
        code = "schema_drift";
        message =
            join "" ("schema drift against pinned schema " ∷ pinned_path ∷ ": " ∷ detail ∷ []);
      })
      (Value.object (
        text_field "mode" "pinned" (
          Fields.field "fields" (pinned_fields_json pin) (
            text_field "drift_status" "failed_on_drift" (
              Fields.field "drift" drift
                (text_field "pinned_schema_path" pinned_path Fields.no_fields))))))
