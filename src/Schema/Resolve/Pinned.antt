-- ===== src/Schema/Resolve/Pinned.antt =====
-- What the resolution of src/schema.rs makes of a pinned directive.
use data_spark.Prelude.{
  String, true, none, some, List, [], ◌∷◌, ◌++◌, map, ◌≡◌, ◌≢◌, refl, ap, sym, subst, ◌∙◌, ◌⊎◌, inl,
  inr, All,
}
use mathlib.Core.List.{map-append, append-nil}
use data_spark.Prelude.Outcome.{Result, ok, err, bind-ok, ok-injective}
use data_spark.Execution.{ExecutionFailure}
use data_spark.Schema.Externals.{Externals}
use data_spark.Schema.Types.{InferredType}
use data_spark.Schema.Directive.{
  PinnedField, FieldOverride, DatasetColumn, PlannedField, DriftPolicy, SchemaTransform,
  SchemaDirective, pinned_checks, override_checks,
}
use data_spark.Schema.Override.Accepted.{IsEffective}
use data_spark.Schema.Pinned.{Yaml, PinnedSchemaFile, from_yaml}
use data_spark.Schema.Pinned.Contract.{IsPin, from_yaml-to_yaml}
use data_spark.Schema.Plan.{
  PinnedSchemaWrite, pin_of_planned, planned_added_fields, assemble_pinned_plan, pin_yaml,
}
use data_spark.Schema.Columns.{resolve_transform, check_override_names, merge_key_checks}
use data_spark.Schema.Shape.{ShapeMatch, match_shape, additive_allowed}
use data_spark.Schema.Shape.Conflicts.{check_override_conflicts, check_declared_type_overrides}
use data_spark.Schema.Shape.Matched.{IsMatched, match_shape-IsMatched}
use data_spark.Schema.Chunk.{chunk_plan}
use data_spark.Schema.Record.{FieldCheck}
use data_spark.Schema.Resolve.{
  Resolution, resolve_plan, resolve_directive, stamped_resolution, pinned_resolution, resolution_of,
}
use data_spark.Schema.Resolve.Extended.{extended-IsPin}

module _ {Text : Type 0} (x : Externals) (yaml : Yaml Text) where
  -- What a resolution makes of a pin: its fields first, then those added, which only the additive
  -- policy allows; a schema file is written exactly if there are added fields, and it is read back as
  -- the whole.
  abbrev pub KeepsPin : List PinnedField → DriftPolicy → Resolution Text → Type 0
  KeepsPin pin policy resolution =
      (added : List PinnedField) × (map pin_of_planned resolution.plan.fields ≡ pin ++ added)
      × ((added ≡ []) ⊎ (additive_allowed policy ≡ true))
      × ((added ≡ []) → resolution.pinned_schema_write ≡ none)
      × ((added ≢ [])
          → (write : PinnedSchemaWrite Text) × (resolution.pinned_schema_write ≡ some write)
            × (from_yaml x yaml write.yaml ≡ ok (pin ++ added)))

  assembled-KeepsPin :
      (path : String) (pin : List PinnedField) (policy : DriftPolicy) (checks : List FieldCheck)
      (matched planned : List PlannedField)
      → ((file : PinnedSchemaFile) → yaml.from_str (yaml.to_string file) ≡ ok file)
      → (map pin_of_planned matched ≡ pin)
      → ((planned ≡ []) ⊎ (additive_allowed policy ≡ true))
      → IsPin (pin ++ map pin_of_planned planned)
      → KeepsPin pin policy
          (resolution_of checks (assemble_pinned_plan x yaml path matched planned))
  unfolding resolution_of chunk_plan assemble_pinned_plan pin_yaml
  assembled-KeepsPin path pin policy checks matched [] back same allowed is =
      ([], same ∙ sym (append-nil pin), inl refl, λ e. refl, λ n. absurd (n refl))
  assembled-KeepsPin path pin policy checks matched (p ∷ planned) back same allowed is =
      let added = map pin_of_planned (p ∷ planned) in
      let whole : map pin_of_planned (matched ++ p ∷ planned) ≡ pin ++ added =
        map-append pin_of_planned matched (p ∷ planned) ∙ ap (λ front. front ++ added) same in
      (
        added,
        whole,
        elim allowed [ inl e ↦ absurd (cc e) | inr e ↦ inr e ],
        λ e. absurd (cc e),
        λ n. (
          record { pinned_path = path; yaml = pin_yaml x yaml (matched ++ p ∷ planned) },
          refl,
          rw whole (from_yaml-to_yaml x yaml (pin ++ added) back is),
        ),
      )

  pinned_resolution-KeepsPin :
      (path : String) (pin : List PinnedField) (policy : DriftPolicy) (shape : ShapeMatch)
      (columns : List DatasetColumn) (types : List InferredType) (overrides : List FieldOverride)
      → ((file : PinnedSchemaFile) → yaml.from_str (yaml.to_string file) ≡ ok file)
      → IsPin pin
      → All IsEffective overrides
      → IsMatched pin policy columns shape
      → KeepsPin pin policy (pinned_resolution x yaml path shape types overrides)
  unfolding pinned_resolution planned_added_fields
  pinned_resolution-KeepsPin path pin policy shape columns types overrides back is es matched =
      let planned = planned_added_fields shape.added types overrides in
      let (distinct, same, found, outside, allowed) = matched in
      assembled-KeepsPin path pin policy
        (pinned_checks shape.matched ++ override_checks overrides shape.added) shape.matched planned
        back same (elim allowed [ inl e ↦ inl (rw (e, planned_added_fields) refl) | inr e ↦ inr e ])
        (extended-IsPin pin policy columns shape overrides types is es matched)

  stamped-ok :
      (directive : SchemaDirective) (m : Result ExecutionFailure (Resolution Text))
      (r : Resolution Text)
      → stamped_resolution directive m ≡ ok r
      → (r0 : Resolution Text) × (m ≡ ok r0)
        × (r.plan ≡ r0.plan)
        × (r.pinned_schema_write ≡ r0.pinned_schema_write)
        × (r.checks ≡ r0.checks)
  unfolding stamped_resolution
  stamped-ok directive (ok r0) r h = (
    r0,
    refl,
    sym (ap (λ r. r.plan) (ok-injective _ r h)),
    sym (ap (λ r. r.pinned_schema_write) (ok-injective _ r h)),
    sym (ap (λ r. r.checks) (ok-injective _ r h)),
  )
  stamped-ok directive (err e) r h = absurd (cc h)

  KeepsPin-same :
      (r s : Resolution Text) (pin : List PinnedField) (policy : DriftPolicy)
      → r.plan ≡ s.plan
      → r.pinned_schema_write ≡ s.pinned_schema_write
      → KeepsPin pin policy r
      → KeepsPin pin policy s
  KeepsPin-same r s pin policy p w kept =
      subst
        (λ plan.
          KeepsPin pin policy
            (record r { plan = plan; pinned_schema_write = s.pinned_schema_write }))
        p (subst (λ write. KeepsPin pin policy (record r { pinned_schema_write = write })) w kept)

  -- The steps of a resolution that succeeds.
  pub resolve_plan-steps :
      (directive : SchemaDirective) (keys names : List String)
      (all_types survivor_types : List InferredType) (r : Resolution Text)
      → resolve_plan x yaml directive keys names all_types survivor_types ≡ ok r
      → (columns : List DatasetColumn) × (key_checks : List FieldCheck) × (inner : Resolution Text)
        × (resolve_transform x directive names ≡ ok columns)
        × (check_override_names directive columns ≡ ok tt)
        × (merge_key_checks directive keys columns ≡ ok key_checks)
        × (resolve_directive x yaml directive columns all_types survivor_types ≡ ok inner)
        × (r.plan ≡ inner.plan)
        × (r.pinned_schema_write ≡ inner.pinned_schema_write)
        × (r.checks ≡ key_checks ++ inner.checks)
  unfolding resolve_plan
  resolve_plan-steps directive keys names all_types survivor_types r h =
      let (r0, e, plan, write, checks) = stamped-ok directive _ r h in
      let (columns, e1, h1) = bind-ok (resolve_transform x directive names) _ r0 e in
      let (u, e2, h2) = bind-ok (check_override_names directive columns) _ r0 h1 in
      let (key_checks, e3, h3) = bind-ok (merge_key_checks directive keys columns) _ r0 h2 in
      let (inner, e4, h4) =
        bind-ok (resolve_directive x yaml directive columns all_types survivor_types) _ r0 h3 in
      let same = sym (ok-injective _ r0 h4) in
      (
        columns,
        key_checks,
        inner,
        e1,
        e2,
        e3,
        e4,
        plan ∙ ap (λ s. s.plan) same,
        write ∙ ap (λ s. s.pinned_schema_write) same,
        checks ∙ ap (λ s. s.checks) same,
      )

  -- A load under a pin that resolves materializes the pin: the fields of its plan are the pin's, with their names, types, nullability and order, followed by added fields, of which there are none unless the drift policy allows them. A pinned schema file is written exactly if there are added fields, and its text is read back as all the fields. The pin is one that a file can hold, the overrides are effective ones, and YAML text is read back as the file it was written from.
  pub resolve_plan-KeepsPin :
      (path : String) (pin : List PinnedField) (policy : DriftPolicy) (transform : SchemaTransform)
      (overrides : List FieldOverride) (keys names : List String)
      (all_types survivor_types : List InferredType) (resolution : Resolution Text)
      → ((file : PinnedSchemaFile) → yaml.from_str (yaml.to_string file) ≡ ok file)
      → IsPin pin
      → All IsEffective overrides
      → resolve_plan x yaml
          (SchemaDirective.pinned path pin policy transform overrides)
          keys
          names
          all_types
          survivor_types
        ≡ ok resolution
      → KeepsPin pin policy resolution
  unfolding resolve_directive
  resolve_plan-KeepsPin path pin policy transform overrides keys names all_types survivor_types
        resolution back is es h =
      let (columns, key_checks, inner, e1, e2, e3, e4, plan, write, checks) =
        resolve_plan-steps (SchemaDirective.pinned path pin policy transform overrides) keys names
          all_types survivor_types resolution h in
      let (u, f1, h1) = bind-ok (check_override_conflicts x path pin overrides) _ inner e4 in
      let (shape, f2, h2) = bind-ok (match_shape x path pin policy columns) _ inner h1 in
      let (v, f3, h3) =
        bind-ok (check_declared_type_overrides x path pin shape.matched overrides all_types) _ inner
          h2 in
      let kept =
        pinned_resolution-KeepsPin path pin policy shape columns survivor_types overrides back is es
          (match_shape-IsMatched x path pin policy columns shape f2) in
      let same = ok-injective _ inner h3 in
      KeepsPin-same (pinned_resolution x yaml path shape survivor_types overrides) resolution pin
        policy (ap (λ r. r.plan) same ∙ sym plan) (ap (λ r. r.pinned_schema_write) same ∙ sym write)
        kept
