-- ===== src/Schema/Shape.antt =====
-- The dataset shape against a pin, in src/schema.rs: `match_shape`. Conflicts has
-- `check_override_conflicts` and `check_declared_type_overrides`.
pub mod Conflicts
pub mod Matched
use data_spark.Prelude.{
  ℕ, String, Bool, true, false, not, ◌&&◌, ◌||◌, ◌==◌, Option, none, some, List, [], ◌∷◌, ◌++◌, map,
  if◌then◌else◌, str_eq,
}
use data_spark.Prelude.Names.{contains}
use data_spark.Prelude.Text.{join}
use data_spark.Prelude.Outcome.{Result, ok, err, ◌>>=◌}
use data_spark.Json.{Value, Fields, items_of}
use data_spark.Execution.{ExecutionFailure, pre_materialization_failure}
use data_spark.Schema.Externals.{Externals}
use data_spark.Schema.Types.{FieldType, InferredType, lattice_type}
use data_spark.Schema.Misfit.{type_text}
use data_spark.Schema.Directive.{
  PinnedField, FieldOverride, DatasetColumn, PlannedField, DriftPolicy, get_override,
}
use data_spark.Schema.Override.{type_field, nullable_field}
use data_spark.Schema.Plan.{pinned_fields_json, drift_failure, text_field, type_at}
use data_spark.Schema.Columns.{find_column, dataset_names}

pub record ShapeMatch : Type 0 where
  pub matched : List PlannedField
  pub added : List DatasetColumn

-- The first column whose name an earlier one has.
unfoldable pub first_duplicate : List String → List DatasetColumn → Option DatasetColumn
unfolding contains
first_duplicate seen [] = none
first_duplicate seen (column ∷ columns) =
    let later = first_duplicate (column.dataset_name ∷ seen) columns in
    if contains column.dataset_name seen then some column else later

abbrev pub planned_from : PinnedField → DatasetColumn → PlannedField
planned_from pin_field column = record {
  name = pin_field.name;
  source = column.source;
  materialized_type = pin_field.field_type;
  nullable = pin_field.nullable;
  observed_index = column.observed_index;
}

-- The loop over the pin's fields: those that a column matches, and the names of the others.
unfoldable pub match_fields :
    List PinnedField → List DatasetColumn → List PlannedField × List String
unfolding find_column
match_fields [] columns = ([], [])
match_fields (pin_field ∷ pin) columns =
    let rest = match_fields pin columns in
    elim (find_column pin_field.name columns) [
      | some column ↦ (planned_from pin_field column ∷ rest.0, rest.1)
      | none ↦ (rest.0, pin_field.name ∷ rest.1)
    ]

abbrev pub pin_names : List PinnedField → List String
pin_names pin = map (λ field. field.name) pin

-- The columns that the pin does not name.
unfoldable pub unpinned_columns : List String → List DatasetColumn → List DatasetColumn
unfolding contains
unpinned_columns pinned_names [] = []
unpinned_columns pinned_names (column ∷ columns) =
    let rest = unpinned_columns pinned_names columns in
    if contains column.dataset_name pinned_names then rest else column ∷ rest

abbrev pub additive_allowed : DriftPolicy → Bool
additive_allowed DriftPolicy.fail = false
additive_allowed DriftPolicy.allow_additive_nullable = true

abbrev pub is_nil : {A : Type 0} → List A → Bool
is_nil [] = true
is_nil (v ∷ vs) = false

abbrev segment : String → List String → List String
segment title [] = []
segment title (name ∷ names) = join "" (title ∷ join ", " (name ∷ names) ∷ []) ∷ []

abbrev pub texts_json : List String → Value
texts_json names = Value.array (items_of (map (λ name. Value.string name) names))

unfoldable pub shape_drift :
    String → List PinnedField → List String → List String → ExecutionFailure
unfolding drift_failure
shape_drift pinned_path pin missing_fields added_names =
    drift_failure pinned_path pin
      (join "; "
        (segment "missing fields: " missing_fields ++ segment "added fields: " added_names))
      (Value.object (
        Fields.field "missing_fields" (texts_json missing_fields)
          (Fields.field "added_fields" (texts_json added_names) Fields.no_fields)))

module _ (x : Externals) where
  unfoldable pub match_shape :
      String
      → List PinnedField
      → DriftPolicy
      → List DatasetColumn
      → Result ExecutionFailure ShapeMatch
  unfolding first_duplicate match_fields unpinned_columns shape_drift drift_failure
  match_shape pinned_path pin drift_policy columns =
      let found = match_fields pin columns in
      let added = unpinned_columns (pin_names pin) columns in
      elim (first_duplicate [] columns) [
        | some column ↦ err (
            drift_failure pinned_path pin
              (join "" (
                "source field "
                ∷ x.quoted column.dataset_name
                ∷ " appears more than once, so records cannot be validated against the pinned schema"
                ∷ []))
              (Value.object (
                Fields.field "duplicate_fields" (texts_json (column.dataset_name ∷ []))
                  Fields.no_fields)))
        | none ↦
            if not (is_nil found.1) || (not (is_nil added) && not (additive_allowed drift_policy))
            then err (shape_drift pinned_path pin found.1 (dataset_names added))
            else ok (record { matched = found.0; added = added })
      ]
