-- ===== src/Schema/Shape/Matched.antt =====
-- What a shape that `match_shape` of src/schema.rs accepts guarantees.
use mathlib.Core.List.{Mem, mem-cons_self, mem-cons_of_mem}
use text.Mathlib.TextEquality.{eq_iff}
use data_spark.Prelude.{
  String, true, false, str_eq, ◌||◌, none, some, List, [], ◌∷◌, map, ◌≡◌, refl, sym, subst, ◌⊎◌,
  inl, inr, All, Bool-cases, Option-cases, arith,
}
use data_spark.Prelude.Names.{contains, Distinct, Fresh, Fresh-cons}
use data_spark.Prelude.Outcome.{ok}
use data_spark.Schema.Externals.{Externals}
use data_spark.Schema.Directive.{PinnedField, DatasetColumn, PlannedField, DriftPolicy}
use data_spark.Schema.Columns.{find_column, dataset_names}
use data_spark.Schema.Plan.{pin_of_planned}
use data_spark.Schema.Shape.{
  ShapeMatch, first_duplicate, match_fields, pin_names, unpinned_columns, additive_allowed, is_nil,
  match_shape,
}

first_duplicate-Distinct :
    (seen : List String) (columns : List DatasetColumn)
    → first_duplicate seen columns ≡ none
    → Fresh seen (dataset_names columns) × Distinct (dataset_names columns)
unfolding first_duplicate
first_duplicate-Distinct seen [] h = (tt, tt)
first_duplicate-Distinct seen (column ∷ columns) h =
    elim (Bool-cases (contains column.dataset_name seen)) [
      | inl e ↦ absurd (ground arith)
      | inr new ↦
          let (fresh, distinct) =
            first_duplicate-Distinct (column.dataset_name ∷ seen) columns (ground arith) in
          let (once, free) =
            (Fresh-cons column.dataset_name seen (dataset_names columns)).0 fresh in
          ((new, free), (once, distinct))
    ]

find_column-Mem :
    (name : String) (columns : List DatasetColumn) (column : DatasetColumn)
    → find_column name columns ≡ some column
    → Mem column columns × (column.dataset_name ≡ name)
unfolding find_column
find_column-Mem name [] column h = absurd (cc h)
find_column-Mem name (first ∷ columns) column h =
    elim (Bool-cases (str_eq first.dataset_name name)) [
      | inl e ↦
          let same : first ≡ column = ground (arith, e, h) in
          subst (λ c. Mem c (first ∷ columns) × (c.dataset_name ≡ name)) same
            (mem-cons_self, (eq_iff first.dataset_name name).0 e)
      | inr e ↦
          let (later, named) = find_column-Mem name columns column (ground (arith, e, h)) in
          (mem-cons_of_mem first later, named)
    ]

-- The planned field reads what a column of its name reads.
abbrev pub IsFromColumn : List DatasetColumn → PlannedField → Type 0
IsFromColumn columns planned =
    (column : DatasetColumn) × Mem column columns
    × (column.dataset_name ≡ planned.name)
    × (planned.source ≡ column.source)
    × (planned.observed_index ≡ column.observed_index)

-- Every field of the pin is matched, in the pin's order, by a column of its name.
match_fields_complete :
    (pin : List PinnedField) (columns : List DatasetColumn)
    → (match_fields pin columns).1 ≡ []
    → (map pin_of_planned (match_fields pin columns).0 ≡ pin)
      × All (IsFromColumn columns) (match_fields pin columns).0
unfolding match_fields pin_of_planned
match_fields_complete [] columns h = (refl, tt)
match_fields_complete (field ∷ pin) columns h =
    elim (Option-cases (find_column field.name columns)) [
      | inl e ↦ absurd (ground arith)
      | inr (column, e) ↦
          let (same, found) = match_fields_complete pin columns (ground arith) in
          let (listed, named) = find_column-Mem field.name columns column e in
          (
            rw (e, same, match_fields) refl,
            rw (e, match_fields) ((column, listed, named, refl, refl), found),
          )
    ]

pub unpinned_columns-Distinct :
    (names : List String) (columns : List DatasetColumn)
    → All (λ column. contains column.dataset_name names ≡ false) (unpinned_columns names columns)
unfolding unpinned_columns
unpinned_columns-Distinct names [] = tt
unpinned_columns-Distinct names (column ∷ columns) =
    elim (Bool-cases (contains column.dataset_name names)) [
      | inl e ↦ rw (e, unpinned_columns) (unpinned_columns-Distinct names columns)
      | inr e ↦ rw (e, unpinned_columns) (e, unpinned_columns-Distinct names columns)
    ]

-- The names of the columns differ, the matched fields are the pin's in its order, each with the
-- source and the observed index of a column of its name, and columns outside the pin are there only if the policy allows them.
abbrev pub IsMatched : List PinnedField → DriftPolicy → List DatasetColumn → ShapeMatch → Type 0
IsMatched pin policy columns shape =
    Distinct (dataset_names columns)
    × (map pin_of_planned shape.matched ≡ pin)
    × All (IsFromColumn columns) shape.matched
    × (shape.added ≡ unpinned_columns (pin_names pin) columns)
    × ((shape.added ≡ []) ⊎ (additive_allowed policy ≡ true))

module _ (x : Externals) (pinned_path : String) where
  -- A shape that matches a pin has columns of distinct names, materializes every field of the pin, with its type and nullability and in the pin's order, from the source and at the observed index of the column of that name, and adds exactly the columns outside the pin, none of them unless the drift policy allows additions.
  pub match_shape-IsMatched :
      (pin : List PinnedField) (policy : DriftPolicy) (columns : List DatasetColumn)
      (shape : ShapeMatch)
      → match_shape x pinned_path pin policy columns ≡ ok shape
      → IsMatched pin policy columns shape
  unfolding match_shape
  match_shape-IsMatched pin policy columns shape h =
      let added = unpinned_columns (pin_names pin) columns in
      elim (Option-cases (first_duplicate [] columns)) [
        | inr (column, e) ↦ absurd (ground arith)
        | inl e ↦
            let none_missing : is_nil (match_fields pin columns).1 ≡ true = ground arith in
            let allowed : (is_nil added || additive_allowed policy) ≡ true = ground arith in
            let same : shape ≡ record { matched = (match_fields pin columns).0; added = added } =
              ground arith in
            let (pinned, found) = match_fields_complete pin columns (ground arith) in
            subst (IsMatched pin policy columns) (sym same)
              ((first_duplicate-Distinct [] columns e).1, pinned, found, refl, ground arith)
      ]
