-- ===== src/Schema/Columns.antt =====
-- The dataset columns of src/schema.rs: `resolve_transform`, `check_override_names` and
-- `merge_key_checks`.
use data_spark.Prelude.{
  ℕ, suc, ◌+◌, String, Bool, false, ◌&&◌, ◌||◌, Option, none, some, List, [], ◌∷◌, ◌++◌, map, ltb,
  if◌then◌else◌, str_eq, length,
}
use data_spark.Prelude.Names.{contains}
use data_spark.Prelude.Text.{join}
use data_spark.Prelude.Outcome.{Result, ok, err}
use data_spark.Execution.{ExecutionFailure, pre_materialization_failure}
use data_spark.Schema.Externals.{Externals}
use data_spark.Schema.Record.{FieldCheck, SourceAddress, NonNullRequirement, as_written}
use data_spark.Schema.Directive.{
  FlattenEntry, SchemaTransform, SchemaDirective, DatasetColumn, transform_of, overrides_of,
  dataset_name, name_changed,
}
use data_spark.Schema.Override.{unknown_names}
use data_spark.Schema.Transform.{entry_path, outputs_of, sources_of}
use data_spark.Schema.Plan.{configured_posture_decision}

-- The names that are in none of the sets, each once, after those listed already.
unfoldable pub collect_unknown : List String → List String → List String → List String
unfolding contains
collect_unknown known unknown [] = unknown
collect_unknown known unknown (name ∷ names) =
    let skipped = collect_unknown known unknown names in
    let listed = collect_unknown known (unknown ++ name ∷ []) names in
    if contains name known || contains name unknown then skipped else listed

-- A path is not empty: indexing an empty one panics in the source.
abbrev first_segment : List String → String
first_segment [] = ""
first_segment (segment ∷ segments) = segment

unfoldable pub collect_unknown_paths : List String → List String → List FlattenEntry → List String
unfolding contains entry_path
collect_unknown_paths observed unknown [] = unknown
collect_unknown_paths observed unknown (entry ∷ flatten) =
    let skipped = collect_unknown_paths observed unknown flatten in
    let listed = collect_unknown_paths observed (unknown ++ entry_path entry ∷ []) flatten in
    if contains (first_segment entry.segments) observed || contains (entry_path entry) unknown
    then skipped
    else listed

abbrev pub select_names : Option (List String) → List String
select_names none = []
select_names (some select) = select

unfoldable pub unknown_fields : SchemaTransform → List String → List String
unfolding collect_unknown collect_unknown_paths
unknown_fields transform observed_names =
    collect_unknown_paths observed_names
      (collect_unknown (observed_names ++ outputs_of transform.flatten) []
        (select_names transform.select ++ sources_of transform.rename))
      transform.flatten

-- `observed_indexes`: the first position of a name, from a first index on. A name that is not listed
-- panics where the source indexes by it.
unfoldable pub index_of : String → ℕ → List String → ℕ
index_of name i [] = i
index_of name i (other ∷ names) =
    let later = index_of name (suc i) names in if str_eq other name then i else later

-- `flatten_positions`: the last entry with this output, with its position from a first one on.
unfoldable pub find_flatten : String → ℕ → List FlattenEntry → Option (ℕ × FlattenEntry)
find_flatten name i [] = none
find_flatten name i (entry ∷ flatten) = elim (find_flatten name (suc i) flatten) [
  | some found ↦ some found
  | none ↦ if str_eq entry.output name then some (i, entry) else none
]

module _ (transform : SchemaTransform) (observed_names : List String) where
  unfoldable pub flatten_column : ℕ → FlattenEntry → DatasetColumn
  unfolding dataset_name
  flatten_column position entry = record {
    dataset_name = dataset_name transform.rename entry.output;
    source = SourceAddress.path entry.segments;
    observed_index = length observed_names + position;
  }

  unfoldable pub field_column : ℕ → String → DatasetColumn
  unfolding dataset_name
  field_column observed_index source_name = record {
    dataset_name = dataset_name transform.rename source_name;
    source = SourceAddress.field source_name;
    observed_index = observed_index;
  }

  unfoldable pub selected_column : String → DatasetColumn
  unfolding flatten_column field_column find_flatten index_of
  selected_column source_name = elim (find_flatten source_name 0 transform.flatten) [
    | some (position, entry) ↦ flatten_column position entry
    | none ↦ field_column (index_of source_name 0 observed_names) source_name
  ]

  -- The columns of names, and of flatten entries, from a position on.
  unfoldable pub field_columns : ℕ → List String → List DatasetColumn
  unfolding field_column
  field_columns i [] = []
  field_columns i (name ∷ names) = field_column i name ∷ field_columns (suc i) names

  unfoldable pub flatten_columns : ℕ → List FlattenEntry → List DatasetColumn
  unfolding flatten_column
  flatten_columns i [] = []
  flatten_columns i (entry ∷ flatten) = flatten_column i entry ∷ flatten_columns (suc i) flatten

  unfoldable pub columns_of : Option (List String) → List DatasetColumn
  unfolding selected_column field_columns flatten_columns
  columns_of (some select) = map selected_column select
  columns_of none = field_columns 0 observed_names ++ flatten_columns 0 transform.flatten

-- The columns of a dataset name, in dataset order.
unfoldable pub columns_named : String → List DatasetColumn → List DatasetColumn
columns_named name [] = []
columns_named name (column ∷ columns) =
    let rest = columns_named name columns in
    if str_eq column.dataset_name name then column ∷ rest else rest

unfoldable pub any_changed : List DatasetColumn → Bool
unfolding name_changed
any_changed [] = false
any_changed (column ∷ columns) = name_changed column || any_changed columns

-- The first column, in dataset order, whose name another column has by a change of the transform.
unfoldable pub first_collision : List DatasetColumn → List DatasetColumn → Option DatasetColumn
unfolding columns_named any_changed
first_collision all [] = none
first_collision all (column ∷ columns) =
    let later = first_collision all columns in
    let colliding = columns_named column.dataset_name all in
    if ltb 1 (length colliding) && any_changed colliding then some column else later

unfoldable pub first_shadow : List String → List FlattenEntry → Option FlattenEntry
unfolding contains
first_shadow observed_names [] = none
first_shadow observed_names (entry ∷ flatten) =
    let later = first_shadow observed_names flatten in
    if contains entry.output observed_names then some entry else later

module _ (x : Externals) where
  abbrev posture_failure : SchemaDirective → String → List String → ExecutionFailure
  posture_failure directive code parts =
      pre_materialization_failure (record { code = code; message = join "" parts })
        (configured_posture_decision directive)

  -- `resolve_transform` once the unknown fields are known.
  unfoldable pub resolve_known :
      SchemaDirective → List String → List String → Result ExecutionFailure (List DatasetColumn)
  unfolding first_shadow columns_of first_collision columns_named entry_path as_written transform_of
  resolve_known directive observed_names [] =
      let transform = transform_of directive in
      let columns = columns_of transform observed_names transform.select in
      elim (first_shadow observed_names transform.flatten) [
        | some entry ↦ err (
            posture_failure directive "transform_name_collision" (
              "transform flatten collides on dataset field "
              ∷ x.quoted entry.output
              ∷ ": source path "
              ∷ entry_path entry
              ∷ " shadows an observed source field"
              ∷ []))
        | none ↦ elim (first_collision columns columns) [
          | none ↦ ok columns
          | some column ↦ err (
              posture_failure directive "transform_name_collision" (
                "transform rename collides on dataset field "
                ∷ x.quoted column.dataset_name
                ∷ ": source fields "
                ∷ join ", " (
                    map (λ other. as_written other.source)
                      (columns_named column.dataset_name columns))
                ∷ " map to the same name"
                ∷ []))
        ]
      ]
  resolve_known directive observed_names (name ∷ unknown) = err (
      posture_failure directive "unknown_transform_field" (
        "transform selects, renames, or flattens fields absent from the observed source shape: "
        ∷ join ", " (name ∷ unknown)
        ∷ []))

  unfoldable pub resolve_transform :
      SchemaDirective → List String → Result ExecutionFailure (List DatasetColumn)
  unfolding resolve_known unknown_fields transform_of
  resolve_transform directive observed_names =
      resolve_known directive observed_names
        (unknown_fields (transform_of directive) observed_names)

abbrev pub dataset_names : List DatasetColumn → List String
dataset_names columns = map (λ column. column.dataset_name) columns

unfoldable pub fail_unknown : SchemaDirective → String → String → List String → ExecutionFailure
unfolding configured_posture_decision pre_materialization_failure
fail_unknown directive code message unknown =
    pre_materialization_failure
      (record { code = code; message = join "" (message ∷ join ", " unknown ∷ []) })
      (configured_posture_decision directive)

unfoldable pub check_override_names :
    SchemaDirective → List DatasetColumn → Result ExecutionFailure Unit
unfolding unknown_names overrides_of fail_unknown
check_override_names directive columns =
    elim (unknown_names (overrides_of directive) (dataset_names columns)) [
      | [] ↦ ok tt
      | name ∷ unknown ↦ err (
          fail_unknown directive "unknown_override_field"
            "schema overrides name fields absent from the observed source shape: " (name ∷ unknown))
    ]

-- The first column with this dataset name.
unfoldable pub find_column : String → List DatasetColumn → Option DatasetColumn
find_column name [] = none
find_column name (column ∷ columns) =
    let later = find_column name columns in
    if str_eq column.dataset_name name then some column else later

abbrev pub column_key_check : DatasetColumn → FieldCheck
column_key_check column = record {
  name = column.dataset_name;
  source = column.source;
  observed_index = column.observed_index;
  expected_type = none;
  required = some NonNullRequirement.merge_key;
}

-- The loop over the keys: the checks of those with a column, and the others.
unfoldable pub key_columns : List String → List DatasetColumn → List FieldCheck × List String
unfolding find_column
key_columns [] columns = ([], [])
key_columns (key ∷ keys) columns =
    let rest = key_columns keys columns in
    elim (find_column key columns) [
      | some column ↦ (column_key_check column ∷ rest.0, rest.1)
      | none ↦ (rest.0, key ∷ rest.1)
    ]

unfoldable pub merge_key_checks :
    SchemaDirective → List String → List DatasetColumn → Result ExecutionFailure (List FieldCheck)
unfolding key_columns fail_unknown
merge_key_checks directive keys columns = elim (key_columns keys columns).1 [
  | [] ↦ ok (key_columns keys columns).0
  | key ∷ unknown ↦ err (
      fail_unknown directive "unknown_merge_key_field"
        "merge keys name fields absent from the resolved dataset schema: " (key ∷ unknown))
]
