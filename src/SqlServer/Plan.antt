-- ===== src/SqlServer/Plan.antt =====
-- `BulkRowPlan` of src/sqlserver.rs: which field of a dataset each column of a table reads.
use data_spark.Prelude.{
  ℕ, zero, suc, ◌+◌, String, Bool, true, false, ◌||◌, Option, none, some, List, [], ◌∷◌, map, ◌==◌,
  if◌then◌else◌, ◌≡◌, refl, ap, sym, ◌⊎◌, arith, inl, inr, Option-cases, Bool-cases, length, ◌<◌,
}
use data_spark.Prelude.Outcome.{Result, ok, err, ◌>>=◌, bind-ok, ok-injective}
use data_spark.Prelude.Text.{join}
use data_spark.Failure.{LoadFailure}
use data_spark.Schema.Column.{DataType, ArrowField}
use data_spark.SqlServer.{sql_write_failure, ColumnType, schema_index_of, from_arrow}

pub record PlannedColumn : Type 0 where
  pub name : String
  pub field_index : ℕ
  pub wire_type : Option (String × ℕ)
  pub column_type : ColumnType

pub record BulkRowPlan : Type 0 where
  pub dataset : List ArrowField
  pub columns : List PlannedColumn

-- Whether the field at a position is planned; the flags that are set are a list of positions.
unfoldable pub is_planned : ℕ → List ℕ → Bool
is_planned index [] = false
is_planned index (seen ∷ planned) = seen == index || is_planned index planned

zero-or-suc : (i : ℕ) → (i ≡ 0) ⊎ ((j : ℕ) × (i ≡ suc j))
zero-or-suc zero = inl refl
zero-or-suc (suc i) = inr (i, refl)

-- The first of the fields that is not planned, the first of them being at a position.
unfoldable pub first_unplanned : ℕ → List ℕ → List ArrowField → Option ArrowField
unfolding is_planned
first_unplanned index planned [] = none
first_unplanned index planned (field ∷ fields) =
    let later = first_unplanned (suc index) planned fields in
    if is_planned index planned then later else some field

unfoldable pub column_names : BulkRowPlan → List String
column_names plan = map (λ column. column.name) plan.columns

module _ (display : DataType → String) (dataset : List ArrowField) where
  abbrev no_field : String → LoadFailure
  no_field name =
      sql_write_failure
        (join "" ("SQL Server table column " ∷ name ∷ " has no dataset field of that name" ∷ []))

  abbrev listed_twice : String → LoadFailure
  listed_twice name =
      sql_write_failure
        (join "" ("SQL Server table column " ∷ name ∷ " is listed more than once" ∷ []))

  abbrev planned_column : String → ℕ → ColumnType → PlannedColumn
  planned_column name index column_type = record {
    name = name;
    field_index = index;
    wire_type = none;
    column_type = column_type;
  }

  -- The loop of `new`, with the positions that are planned.
  unfoldable pub planned_columns : List ℕ → List String → Result LoadFailure (List PlannedColumn)
  unfolding schema_index_of is_planned from_arrow sql_write_failure join
  planned_columns planned [] = ok []
  planned_columns planned (name ∷ names) = elim (schema_index_of dataset name) [
    | none ↦ err (no_field name)
    | some (index, field) ↦
        let rest = planned_columns (index ∷ planned) names in
        elim (is_planned index planned) [
          | true ↦ err (listed_twice name)
          | false ↦ from_arrow display field >>= λ column_type.
              rest >>= λ columns. ok (planned_column name index column_type ∷ columns)
        ]
  ]

  abbrev pub positions : List PlannedColumn → List ℕ
  positions columns = map (λ column. column.field_index) columns

  abbrev pub complete : List PlannedColumn → Option ArrowField → Result LoadFailure BulkRowPlan
  complete columns (some field) = err (
      sql_write_failure
        (join "" ("dataset field " ∷ field.name ∷ " has no SQL Server table column" ∷ [])))
  complete columns none = ok (record { dataset = dataset; columns = columns })

  -- `BulkRowPlan::new`
  unfoldable pub new : List String → Result LoadFailure BulkRowPlan
  unfolding planned_columns first_unplanned
  new table_columns = planned_columns [] table_columns >>= λ columns.
      complete columns (first_unplanned 0 (positions columns) dataset)

  -- Each column reads the dataset's field of its name, at a position that no other one reads.
  abbrev pub Reads : List ℕ → List PlannedColumn → Type 0
  Reads planned [] = Unit
  Reads planned (column ∷ columns) =
      ((field : ArrowField) × (schema_index_of dataset column.name
          ≡ some (column.field_index, field))
        × (from_arrow display field ≡ ok column.column_type))
      × (is_planned column.field_index planned ≡ false)
      × Reads (column.field_index ∷ planned) columns

  planned_columns-Reads :
      (planned : List ℕ) (names : List String) (columns : List PlannedColumn)
      → planned_columns planned names ≡ ok columns
      → (map (λ column. column.name) columns ≡ names) × Reads planned columns
  unfolding planned_columns
  planned_columns-Reads planned [] columns h = rw (sym (ok-injective _ _ h)) (refl, tt)
  planned_columns-Reads planned (name ∷ names) columns h =
      elim (Option-cases (schema_index_of dataset name)) [
        | inl e ↦ absurd (ground (arith, e, h))
        | inr ((index, field), e) ↦ elim (Bool-cases (is_planned index planned)) [
          | inl f ↦ absurd (ground (arith, e, f, h))
          | inr f ↦
              let chain : (from_arrow display field >>= λ column_type.
              planned_columns (index ∷ planned) names >>= λ columns.
              ok (planned_column name index column_type ∷ columns))
                  ≡ ok columns =
                ground (arith, e, f, h) in
              let (column_type, g, h1) = bind-ok (from_arrow display field) _ columns chain in
              let (rest, k, h2) = bind-ok (planned_columns (index ∷ planned) names) _ columns h1 in
              let (same, reads) = planned_columns-Reads (index ∷ planned) names rest k in
              rw (sym (ok-injective _ columns h2))
                (ap (λ ns. name ∷ ns) same, ((field, e, g), f, reads))
        ]
      ]

  first_unplanned-none :
      (start : ℕ) (planned : List ℕ) (fields : List ArrowField)
      → first_unplanned start planned fields ≡ none
      → (i : ℕ) → i < length fields
      → is_planned (start + i) planned ≡ true
  unfolding first_unplanned
  first_unplanned-none start planned [] h i b = absurd (omega (arith, b))
  first_unplanned-none start planned (field ∷ fields) h i b =
      elim (Bool-cases (is_planned start planned)) [
        | inr f ↦ absurd (ground (arith, f, h))
        | inl f ↦ elim (zero-or-suc i) [
          | inl e ↦ let here : start + i ≡ start = omega (arith, e) in rw here f
          | inr (j, e) ↦
              let there : start + i ≡ suc start + j = omega (arith, e) in
              rw there (
                first_unplanned-none (suc start) planned fields (ground (arith, f, h)) j
                  (omega (arith, e, b)))
        ]
      ]

  complete-ok :
      (columns : List PlannedColumn) (missing : Option ArrowField) (plan : BulkRowPlan)
      → complete columns missing ≡ ok plan
      → (missing ≡ none) × (plan.columns ≡ columns)
  complete-ok columns none plan h = (refl, ap (λ p. p.columns) (sym (ok-injective _ plan h)))
  complete-ok columns (some field) plan h = absurd (cc h)

  -- If bulk rows are planned for columns of a table, the plan has those columns in their order, each reads the dataset's field of its name at a position that no other one reads, with the type that it maps to, and every field of the dataset is read.
  pub new-IsOneToOne :
      (table_columns : List String) (plan : BulkRowPlan)
      → new table_columns ≡ ok plan
      → (column_names plan ≡ table_columns)
        × Reads [] plan.columns
        × ((i : ℕ) → i < length dataset → is_planned i (positions plan.columns) ≡ true)
  unfolding new column_names
  new-IsOneToOne table_columns plan h =
      let (columns, e, h1) = bind-ok (planned_columns [] table_columns) _ plan h in
      let (none_missing, same) =
        complete-ok columns (first_unplanned 0 (positions columns) dataset) plan h1 in
      let (names, reads) = planned_columns-Reads [] table_columns columns e in
      let covered = first_unplanned-none 0 (positions columns) dataset none_missing in
      rw same (names, reads, λ i b. let at : i ≡ 0 + i = omega arith in rw at (covered i b))
