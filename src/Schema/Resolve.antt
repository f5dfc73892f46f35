-- ===== src/Schema/Resolve.antt =====
-- The whole-input resolution of src/schema.rs: `resolve_plan` and what it composes.
pub mod Extended
pub mod Pinned
use data_spark.Prelude.{ℕ, String, Option, none, some, List, [], ◌∷◌, ◌++◌}
use data_spark.Prelude.Outcome.{Result, ok, err, ◌>>=◌, ◌>>◌}
use data_spark.Json.{Value}
use data_spark.Execution.{ExecutionFailure}
use data_spark.Schema.Externals.{Externals}
use data_spark.Schema.Types.{InferredType}
use data_spark.Schema.Record.{FieldCheck}
use data_spark.Schema.Directive.{
  PinnedField, FieldOverride, SchemaTransform, SchemaDirective, DatasetColumn, DriftPolicy,
  transform_of, overrides_of, pinned_checks, override_checks,
}
use data_spark.Schema.Override.{stamp_overrides}
use data_spark.Schema.Transform.{stamp_transform}
use data_spark.Schema.Pinned.{Yaml}
use data_spark.Schema.Plan.{
  PinnedSchemaWrite, FieldPlan, inferred_plan, planned_added_fields, assemble_pinned_plan,
}
use data_spark.Schema.Columns.{resolve_transform, check_override_names, merge_key_checks}
use data_spark.Schema.Shape.{ShapeMatch, match_shape}
use data_spark.Schema.Shape.Conflicts.{check_override_conflicts, check_declared_type_overrides}
use data_spark.Schema.Chunk.{ChunkPlan, chunk_plan}

pub record Resolution (Text : Type 0) : Type 0 where
  pub plan : ChunkPlan
  pub checks : List FieldCheck
  pub decision : Value
  pub pinned_schema_write : Option (PinnedSchemaWrite Text)

-- `SchemaDirective::stamp`
unfoldable pub stamp : SchemaDirective → Value → Value
unfolding stamp_transform stamp_overrides transform_of overrides_of
stamp directive decision =
    stamp_transform (transform_of directive) (stamp_overrides (overrides_of directive) decision)

abbrev stamp_failure : SchemaDirective → ExecutionFailure → ExecutionFailure
stamp_failure directive failed = elim failed.schema_decision [
  | none ↦ failed
  | some decision ↦ record failed { schema_decision = some (stamp directive decision) }
]

unfoldable pub stamped_resolution :
    {Text : Type 0}
    → SchemaDirective
    → Result ExecutionFailure (Resolution Text)
    → Result ExecutionFailure (Resolution Text)
unfolding stamp
stamped_resolution directive (ok resolution) =
    ok (record resolution { decision = stamp directive resolution.decision })
stamped_resolution directive (err failed) = err (stamp_failure directive failed)

unfoldable pub resolution_of : {Text : Type 0} → List FieldCheck → FieldPlan Text → Resolution Text
unfolding chunk_plan
resolution_of checks plan = record {
  plan = chunk_plan plan.fields;
  checks = checks;
  decision = plan.decision;
  pinned_schema_write = plan.pinned_schema_write;
}

module _ {Text : Type 0} (x : Externals) (yaml : Yaml Text) where
  unfoldable pub inferred_resolution :
      List DatasetColumn → List InferredType → Option String → List FieldOverride → Resolution Text
  unfolding override_checks inferred_plan resolution_of
  inferred_resolution columns survivor_types pinned_path overrides =
      resolution_of (override_checks overrides columns)
        (inferred_plan x yaml columns survivor_types pinned_path overrides)

  -- The arm of a pinned directive, once the shape is matched.
  unfoldable pub pinned_resolution :
      String → ShapeMatch → List InferredType → List FieldOverride → Resolution Text
  unfolding pinned_checks override_checks planned_added_fields assemble_pinned_plan resolution_of
  pinned_resolution pinned_path shape survivor_types overrides =
      resolution_of (pinned_checks shape.matched ++ override_checks overrides shape.added) (
        assemble_pinned_plan x yaml pinned_path shape.matched
          (planned_added_fields shape.added survivor_types overrides))

  -- The `match` on the directive.
  unfoldable pub resolve_directive :
      SchemaDirective
      → List DatasetColumn
      → List InferredType
      → List InferredType
      → Result ExecutionFailure (Resolution Text)
  unfolding inferred_resolution pinned_resolution match_shape check_override_conflicts
      check_declared_type_overrides
  resolve_directive (SchemaDirective.inferred transform overrides) columns all_types
        survivor_types =
      ok (inferred_resolution columns survivor_types none overrides)
  resolve_directive (SchemaDirective.pin_inferred path transform overrides) columns all_types
        survivor_types =
      ok (inferred_resolution columns survivor_types (some path) overrides)
  resolve_directive (SchemaDirective.pinned path pin policy transform overrides) columns all_types
        survivor_types =
      check_override_conflicts x path pin overrides
      >> (match_shape x path pin policy columns >>= λ shape.
          check_declared_type_overrides x path pin shape.matched overrides all_types
          >> ok (pinned_resolution path shape survivor_types overrides))

  unfoldable pub resolve_plan :
      SchemaDirective
      → List String
      → List String
      → List InferredType
      → List InferredType
      → Result ExecutionFailure (Resolution Text)
  unfolding resolve_transform check_override_names merge_key_checks resolve_directive
      stamped_resolution
  resolve_plan directive merge_keys field_names all_types survivor_types =
      stamped_resolution directive (
        resolve_transform x directive field_names >>= λ columns.
        check_override_names directive columns
        >> (merge_key_checks directive merge_keys columns >>= λ merge_checks.
            resolve_directive directive columns all_types survivor_types >>= λ resolution.
            ok (record resolution { checks = merge_checks ++ resolution.checks })))
