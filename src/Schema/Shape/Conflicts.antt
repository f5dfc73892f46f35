-- ===== src/Schema/Shape/Conflicts.antt =====
-- The overrides against a pin, in src/schema.rs: `check_override_conflicts` and
-- `check_declared_type_overrides`.
use data_spark.Prelude.{
  String, Bool, true, false, not, ◌&&◌, ◌==◌, Option, none, some, List, [], ◌∷◌, ◌++◌, map,
  if◌then◌else◌, str_eq,
}
use data_spark.Prelude.Text.{join}
use data_spark.Prelude.Outcome.{Result, ok, err}
use data_spark.Json.{Value, Fields, items_of}
use data_spark.Execution.{ExecutionFailure, pre_materialization_failure}
use data_spark.Schema.Externals.{Externals}
use data_spark.Schema.Types.{FieldType, InferredType, lattice_type}
use data_spark.Schema.Misfit.{type_text}
use data_spark.Schema.Directive.{PinnedField, FieldOverride, PlannedField, get_override}
use data_spark.Schema.Override.{type_field, nullable_field}
use data_spark.Schema.Plan.{pinned_fields_json, drift_failure, text_field, type_at}

-- `pin.fields.iter().find(..)`
unfoldable pub find_pin : String → List PinnedField → Option PinnedField
find_pin name [] = none
find_pin name (field ∷ pin) =
    let later = find_pin name pin in if str_eq field.name name then some field else later

-- `==` of the derived `PartialEq`
unfoldable pub same_field_type : FieldType → FieldType → Bool
same_field_type FieldType.boolean FieldType.boolean = true
same_field_type FieldType.int64 FieldType.int64 = true
same_field_type FieldType.float64 FieldType.float64 = true
same_field_type FieldType.utf8 FieldType.utf8 = true
same_field_type FieldType.timestamp FieldType.timestamp = true
same_field_type FieldType.timestamptz FieldType.timestamptz = true
same_field_type (FieldType.decimal p s) (FieldType.decimal q t) = p == q && s == t
same_field_type _ _ = false

abbrev bool_text : Bool → String
bool_text true = "true"
bool_text false = "false"

abbrev same_bool : Bool → Bool → Bool
same_bool true b = b
same_bool false b = not b

unfoldable pub type_conflict : FieldType → Option FieldType → List String
unfolding same_field_type
type_conflict pinned none = []
type_conflict pinned (some t) =
    if same_field_type t pinned
    then []
    else join "" ("pinned type " ∷ type_text pinned ∷ ", override type " ∷ type_text t ∷ []) ∷ []

unfoldable pub nullable_conflict : Bool → Option Bool → List String
nullable_conflict pinned none = []
nullable_conflict pinned (some nullable) =
    if same_bool nullable pinned
    then []
    else join ""
        ("pinned nullable " ∷ bool_text pinned ∷ ", override nullable " ∷ bool_text nullable ∷ [])
      ∷ []

-- How an override contradicts the field that the pin has of its name, if it has one.
unfoldable pub conflicts : Option PinnedField → FieldOverride → List String
unfolding type_conflict nullable_conflict
conflicts none over = []
conflicts (some pin_field) over =
    type_conflict pin_field.field_type over.field_type
    ++ nullable_conflict pin_field.nullable over.nullable

abbrev pinned_json : Option PinnedField → Value
pinned_json none = Value.null
pinned_json (some field) = Value.object (
    text_field "type" (type_text field.field_type)
      (Fields.field "nullable" (Value.bool field.nullable) Fields.no_fields))

abbrev declared_only : FieldType → Bool
declared_only t = elim (lattice_type t) [ none ↦ true | some l ↦ false ]

abbrev has_type : Option FieldOverride → Bool
has_type none = false
has_type (some over) = elim over.field_type [ none ↦ false | some t ↦ true ]

-- The fields pinned at a declared-only type that no override declares again.
unfoldable pub undeclared_fields : List PlannedField → List FieldOverride → List PlannedField
unfolding get_override
undeclared_fields [] overrides = []
undeclared_fields (planned ∷ matched) overrides =
    let rest = undeclared_fields matched overrides in
    if declared_only planned.materialized_type
      && not (has_type (get_override overrides planned.name))
    then planned ∷ rest
    else rest

module _ (x : Externals) where
  unfoldable pub conflict_failure :
      String → List PinnedField → FieldOverride → List String → ExecutionFailure
  unfolding find_pin pre_materialization_failure pinned_fields_json
  conflict_failure pinned_path pin over segments =
      pre_materialization_failure
        (record {
          code = "schema_override_conflict";
          message = join "" (
              "schema override for field "
              ∷ x.quoted over.name
              ∷ " contradicts pinned schema "
              ∷ pinned_path
              ∷ ": "
              ∷ join "; " segments
              ∷ []);
        })
        (Value.object (
          text_field "mode" "pinned" (
            Fields.field "fields" (pinned_fields_json pin) (
              text_field "drift_status" "not_applicable" (
                Fields.field "conflict"
                  (Value.object (
                    text_field "field" over.name (
                      Fields.field "pinned" (pinned_json (find_pin over.name pin)) (
                        Fields.field "override"
                          (Value.object (type_field over.field_type (nullable_field over.nullable)))
                          Fields.no_fields))))
                  (text_field "pinned_schema_path" pinned_path Fields.no_fields))))))

  unfoldable pub check_override_conflicts :
      String → List PinnedField → List FieldOverride → Result ExecutionFailure Unit
  unfolding conflicts find_pin conflict_failure
  check_override_conflicts pinned_path pin [] = ok tt
  check_override_conflicts pinned_path pin (over ∷ overrides) =
      let rest = check_override_conflicts pinned_path pin overrides in
      elim (conflicts (find_pin over.name pin) over) [
        | [] ↦ rest
        | segment ∷ segments ↦ err (conflict_failure pinned_path pin over (segment ∷ segments))
      ]

  abbrev undeclared_text : List InferredType → PlannedField → String
  undeclared_text types planned = join "" (
      "field "
      ∷ x.quoted planned.name
      ∷ " is pinned as "
      ∷ type_text planned.materialized_type
      ∷ " but its effective type is "
      ∷ type_text (type_at types planned.observed_index)
      ∷ [])

  abbrev undeclared_json : List InferredType → PlannedField → Value
  undeclared_json types planned = Value.object (
      text_field "name" planned.name (
        text_field "pinned_type" (type_text planned.materialized_type) (
          text_field "effective_type" (type_text (type_at types planned.observed_index))
            Fields.no_fields)))

  unfoldable pub check_declared_type_overrides :
      String
      → List PinnedField
      → List PlannedField
      → List FieldOverride
      → List InferredType
      → Result ExecutionFailure Unit
  unfolding undeclared_fields drift_failure
  check_declared_type_overrides pinned_path pin matched overrides observed_types =
      elim (undeclared_fields matched overrides) [
        | [] ↦ ok tt
        | planned ∷ undeclared ↦ err (
            drift_failure pinned_path pin
              (join "" (
                join "; " (map (undeclared_text observed_types) (planned ∷ undeclared))
                ∷ "; declared types take effect only through schema.overrides — the override may be missing"
                ∷ []))
              (Value.object (
                Fields.field "undeclared_fields"
                  (Value.array
                    (items_of (map (undeclared_json observed_types) (planned ∷ undeclared))))
                  Fields.no_fields)))
      ]
