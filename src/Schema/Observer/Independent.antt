-- ===== src/Schema/Observer/Independent.antt =====
-- The checks that `resolve_plan` of src/schema.rs resolves do not depend on the observed types.
use data_spark.Prelude.{String, List, ◌++◌, ◌≡◌, refl, ap, sym, ◌∙◌, arith}
use data_spark.Prelude.Outcome.{ok, bind-ok, ok-injective}
use data_spark.Schema.Externals.{Externals}
use data_spark.Schema.Types.{InferredType}
use data_spark.Schema.Directive.{
  SchemaDirective, DatasetColumn, PlannedField, PinnedField, FieldOverride,
}
use data_spark.Schema.Pinned.{Yaml}
use data_spark.Schema.Shape.{match_shape}
use data_spark.Schema.Shape.Conflicts.{check_override_conflicts, check_declared_type_overrides}
use data_spark.Schema.Resolve.{
  Resolution, resolve_plan, resolve_directive, stamped_resolution, inferred_resolution,
  pinned_resolution, resolution_of,
}
use data_spark.Schema.Resolve.Pinned.{resolve_plan-steps}

declared_type_overrides-types :
    (x : Externals) (path : String) (pin : List PinnedField) (matched : List PlannedField)
    (overrides : List FieldOverride) (types others : List InferredType)
    → check_declared_type_overrides x path pin matched overrides types ≡ ok tt
    → check_declared_type_overrides x path pin matched overrides others ≡ ok tt
unfolding check_declared_type_overrides
declared_type_overrides-types x path pin matched overrides types others h = ground (arith, h)

module _ {Text : Type 0} (x : Externals) (yaml : Yaml Text) where
  resolve_directive-types :
      (directive : SchemaDirective) (columns : List DatasetColumn)
      (all_types survivor_types other_all other_survivors : List InferredType) (r : Resolution Text)
      → resolve_directive x yaml directive columns all_types survivor_types ≡ ok r
      → (s : Resolution Text) × (resolve_directive x yaml directive columns other_all
            other_survivors
          ≡ ok s)
        × (s.checks ≡ r.checks)
  unfolding resolve_directive inferred_resolution pinned_resolution resolution_of
  resolve_directive-types (SchemaDirective.inferred transform overrides) columns a b c d r h =
      (_, refl, ap (λ r. r.checks) (ok-injective _ r h))
  resolve_directive-types (SchemaDirective.pin_inferred path transform overrides) columns a b c d r
        h =
      (_, refl, ap (λ r. r.checks) (ok-injective _ r h))
  resolve_directive-types (SchemaDirective.pinned path pin policy transform overrides) columns a b c
        d r h =
      let (u, f1, h1) = bind-ok (check_override_conflicts x path pin overrides) _ r h in
      let (shape, f2, h2) = bind-ok (match_shape x path pin policy columns) _ r h1 in
      let (v, f3, h3) =
        bind-ok (check_declared_type_overrides x path pin shape.matched overrides a) _ r h2 in
      (
        pinned_resolution x yaml path shape d overrides,
        rw (f1, f2, declared_type_overrides-types x path pin shape.matched overrides a c f3) refl,
        ap (λ r. r.checks) (ok-injective _ r h3),
      )

  pub resolve_plan-types :
      (directive : SchemaDirective) (keys names : List String)
      (all_types survivor_types other_all other_survivors : List InferredType) (r : Resolution Text)
      → resolve_plan x yaml directive keys names all_types survivor_types ≡ ok r
      → (s : Resolution Text) × (resolve_plan x yaml directive keys names other_all other_survivors
          ≡ ok s)
        × (s.checks ≡ r.checks)
  unfolding resolve_plan stamped_resolution
  resolve_plan-types directive keys names a b c d r h =
      let (columns, key_checks, inner, e1, e2, e3, e4, plan, write, checks) =
        resolve_plan-steps x yaml directive keys names a b r h in
      let (s, f, same) = resolve_directive-types directive columns a b c d inner e4 in
      rw (e1, e2, e3, f, resolve_plan) (_, refl, ap (λ cs. key_checks ++ cs) same ∙ sym checks)
