-- ===== src/Schema/Resolve/Extended.antt =====
-- The fields that a pinned load adds, in src/schema.rs: with the pin they are a pin.
use data_spark.Prelude.{
  String, false, some, List, [], ◌∷◌, ◌++◌, map, ◌≡◌, ◌≢◌, refl, ap, sym, subst, ◌∙◌, inl, inr, All,
  All-append, Bool-cases, Option-cases, arith, str_eq, get_elem?,
}
use mathlib.Core.List.{map-append}
use data_spark.Prelude.Names.{contains, Distinct, Fresh, Fresh-cons}
use data_spark.Schema.Types.{InferredType, field_type}
use data_spark.Schema.TypeName.RoundTrip.{IsDeclarable}
use data_spark.Schema.Directive.{
  PinnedField, FieldOverride, DatasetColumn, DriftPolicy, get_override,
}
use data_spark.Schema.Override.Accepted.{IsEffective, Declared}
use data_spark.Schema.Pinned.Contract.{IsPin, names_of}
use data_spark.Schema.Plan.{pin_of_planned, plan_column, type_at, planned_added_fields}
use data_spark.Schema.Columns.{dataset_names}
use data_spark.Schema.Shape.{ShapeMatch, pin_names, unpinned_columns}
use data_spark.Schema.Shape.Matched.{IsMatched, unpinned_columns-Distinct}

contains-append :
    (name : String) (front back : List String)
    → contains name front ≡ false
    → contains name back ≡ false
    → contains name (front ++ back) ≡ false
unfolding contains
contains-append name [] back h k = k
contains-append name (other ∷ front) back h k = ground (arith, contains-append name front back)

Distinct-append :
    (front back : List String)
    → Distinct front
    → Distinct back
    → Fresh front back
    → Distinct (front ++ back)
Distinct-append [] back h k fresh = k
Distinct-append (name ∷ front) back (once, h) k fresh =
    let (new, rest) = (Fresh-cons name front back).0 fresh in
    (contains-append name front back once new, Distinct-append front back h k rest)

unpinned-contains :
    (names : List String) (name : String) (columns : List DatasetColumn)
    → contains name (dataset_names columns) ≡ false
    → contains name (dataset_names (unpinned_columns names columns)) ≡ false
unfolding contains unpinned_columns
unpinned-contains names name [] h = refl
unpinned-contains names name (column ∷ columns) h =
    ground (arith, unpinned-contains names name columns)

unpinned-names_Distinct :
    (names : List String) (columns : List DatasetColumn)
    → Distinct (dataset_names columns)
    → Distinct (dataset_names (unpinned_columns names columns))
unfolding unpinned_columns
unpinned-names_Distinct names [] h = tt
unpinned-names_Distinct names (column ∷ columns) (once, h) =
    elim (Bool-cases (contains column.dataset_name names)) [
      | inl e ↦ rw (e, unpinned_columns) (unpinned-names_Distinct names columns h)
      | inr e ↦
          rw (e, unpinned_columns)
            (
              unpinned-contains names column.dataset_name columns once,
              unpinned-names_Distinct names columns h,
            )
    ]

Fresh-unpinned :
    (names : List String) (columns : List DatasetColumn)
    → All (λ column. contains column.dataset_name names ≡ false) columns
    → Fresh names (dataset_names columns)
Fresh-unpinned names [] h = tt
Fresh-unpinned names (column ∷ columns) (new, h) = (new, Fresh-unpinned names columns h)

get_override-Declared :
    (overrides : List FieldOverride) (name : String) (over : FieldOverride)
    → All IsEffective overrides
    → get_override overrides name ≡ some over
    → Declared over.field_type
unfolding get_override
get_override-Declared [] name over h e = absurd (cc e)
get_override-Declared (o ∷ overrides) name over (d, h) e = elim (Bool-cases (str_eq o.name name)) [
  | inl t ↦ let same : o ≡ over = ground arith in subst (λ v. Declared v.field_type) same d.1
  | inr f ↦ get_override-Declared overrides name over h (ground arith)
]

field_type-IsDeclarable : (t : InferredType) → IsDeclarable (field_type t)
unfolding field_type
field_type-IsDeclarable InferredType.null = tt
field_type-IsDeclarable InferredType.boolean = tt
field_type-IsDeclarable InferredType.int64 = tt
field_type-IsDeclarable InferredType.float64 = tt
field_type-IsDeclarable InferredType.utf8 = tt

plan_column-IsDeclarable :
    (overrides : List FieldOverride) (types : List InferredType) (column : DatasetColumn)
    → All IsEffective overrides
    → IsDeclarable (plan_column overrides types column).materialized_type
unfolding plan_column type_at
plan_column-IsDeclarable overrides types column h =
    let i = column.observed_index in
    let observed : IsDeclarable (type_at types i) = elim (Option-cases (get_elem? types i)) [
      | inl e ↦ rw (e, type_at) tt
      | inr (t, e) ↦ rw (e, type_at) (field_type-IsDeclarable t)
    ] in
    elim (Option-cases (get_override overrides column.dataset_name)) [
      | inl e ↦ rw (e, plan_column) observed
      | inr (over, e) ↦
          let declared = get_override-Declared overrides column.dataset_name over h e in
          elim (Option-cases over.field_type) [
            | inl f ↦ rw (e, f, plan_column) observed
            | inr (t, f) ↦ rw (e, f, plan_column) (subst Declared f declared)
          ]
    ]

added-IsDeclarable :
    (overrides : List FieldOverride) (types : List InferredType) (columns : List DatasetColumn)
    → All IsEffective overrides
    → All
        (λ field. IsDeclarable field.field_type)
        (map pin_of_planned (planned_added_fields columns types overrides))
unfolding planned_added_fields pin_of_planned
added-IsDeclarable overrides types [] h = tt
added-IsDeclarable overrides types (column ∷ columns) h = (
  plan_column-IsDeclarable overrides types column h,
  added-IsDeclarable overrides types columns h,
)

added-names :
    (overrides : List FieldOverride) (types : List InferredType) (columns : List DatasetColumn)
    → names_of (map pin_of_planned (planned_added_fields columns types overrides))
      ≡ dataset_names columns
unfolding planned_added_fields pin_of_planned plan_column
added-names overrides types [] = refl
added-names overrides types (column ∷ columns) =
    ap (λ names. column.dataset_name ∷ names) (added-names overrides types columns)

nonempty-append : {A : Type 0} (front back : List A) → front ≢ [] → front ++ back ≢ []
nonempty-append [] back h e = h refl
nonempty-append (v ∷ front) back h e = cc e

-- The pin with the fields that a matched shape adds to it is a pin.
pub extended-IsPin :
    (pin : List PinnedField) (policy : DriftPolicy) (columns : List DatasetColumn)
    (shape : ShapeMatch) (overrides : List FieldOverride) (types : List InferredType)
    → IsPin pin
    → All IsEffective overrides
    → IsMatched pin policy columns shape
    → IsPin (pin ++ map pin_of_planned (planned_added_fields shape.added types overrides))
extended-IsPin pin policy columns shape overrides types (some_field, once, ds) es
      (distinct, pinned, found, outside, allowed) =
    let added = map pin_of_planned (planned_added_fields shape.added types overrides) in
    let names : names_of added ≡ dataset_names (unpinned_columns (pin_names pin) columns) =
      added-names overrides types shape.added ∙ ap dataset_names outside in
    (
      nonempty-append pin added some_field,
      subst Distinct (sym (map-append (λ field. field.name) pin added)) (
          Distinct-append (names_of pin) (names_of added) once
            (subst Distinct (sym names) (unpinned-names_Distinct (pin_names pin) columns distinct))
            (subst (Fresh (names_of pin)) (sym names) (
              Fresh-unpinned (pin_names pin) (unpinned_columns (pin_names pin) columns)
                (unpinned_columns-Distinct (pin_names pin) columns)))),
      All-append (λ field. IsDeclarable field.field_type) pin added ds
          (added-IsDeclarable overrides types shape.added es),
    )
