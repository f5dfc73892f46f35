-- ===== src/Schema/Transform.antt =====
-- The transform of a load definition in src/schema.rs: `SchemaTransform::from_config` and its echo.
pub mod Accepted
use Prim.Native.Char.{Char, code}
use data_spark.Prelude.{
  ℕ, String, Bool, true, false, not, ◌||◌, Option, none, some, List, [], ◌∷◌, map, ltb, ◌==◌,
  if◌then◌else◌, str_eq, length,
}
use data_spark.Prelude.Names.{contains}
use data_spark.Prelude.Text.{join}
use data_spark.Prelude.Outcome.{Result, ok, err, ◌>>=◌, ◌>>◌}
use data_spark.Failure.{LoadFailure}
use data_spark.Json.{Value, Fields, items_of, insert, set}
use data_spark.Schema.Externals.{Externals}
use data_spark.Schema.Directive.{FlattenEntry, SchemaTransform, dataset_name}

-- The mappings of the block, as the pairs of their entries in declaration order.
pub record TransformConfig : Type 0 where
  pub flatten : Option (List (String × String))
  pub select : Option (List String)
  pub rename : Option (List (String × String))

-- `split('.')`
unfoldable pub add_char : Char → List String → List String
add_char c [] = String.◌∷◌ c String.[] ∷ []
add_char c (segment ∷ segments) = String.◌∷◌ c segment ∷ segments

unfoldable pub split_dots : String → List String
unfolding add_char
split_dots String.[] = String.[] ∷ []
split_dots (String.◌∷◌ c s) =
    let rest = split_dots s in if code c == 46 then String.[] ∷ rest else add_char c rest

unfoldable pub invalid : List String → LoadFailure
invalid parts = record { code = "invalid_transform_config"; message = join "" parts }

abbrev pub fail_when : Bool → List String → Result LoadFailure Unit
fail_when true parts = err (invalid parts)
fail_when false parts = ok tt

abbrev pub sources_of : List (String × String) → List String
sources_of rename = map (λ pair. pair.0) rename

abbrev pub outputs_of : List FlattenEntry → List String
outputs_of flatten = map (λ entry. entry.output) flatten

-- Whether a declared select list leaves the name out.
abbrev pub unselected : Option (List String) → String → Bool
unselected none name = false
unselected (some select) name = not (contains name select)

-- The targets of renames whose key is no flatten output.
unfoldable pub other_targets : List String → List (String × String) → List String
unfolding contains
other_targets outputs [] = []
other_targets outputs ((source, target) ∷ rename) =
    let rest = other_targets outputs rename in
    if contains source outputs then rest else target ∷ rest

module _ (x : Externals) (is_blank : String → Bool) where
  -- The loop over the flatten mapping, with the outputs seen so far.
  unfoldable pub flatten_entries :
      List String → List (String × String) → Result LoadFailure (List FlattenEntry)
  unfolding contains split_dots invalid
  flatten_entries seen_outputs [] = ok []
  flatten_entries seen_outputs ((path, output) ∷ pairs) =
      let rest = flatten_entries (output ∷ seen_outputs) pairs in
      fail_when (ltb (length (split_dots path)) 2) (
        "transform.flatten path "
        ∷ x.quoted path
        ∷ " must have at least two dot-separated segments"
        ∷ [])
      >> (fail_when (contains "" (split_dots path))
            ("transform.flatten path " ∷ x.quoted path ∷ " must not contain empty segments" ∷ [])
          >> (fail_when (is_blank output) (
                "transform.flatten output name for path "
                ∷ x.quoted path
                ∷ " must not be empty"
                ∷ [])
              >> (fail_when (contains output seen_outputs)
                    ("transform.flatten maps more than one path to " ∷ x.quoted output ∷ [])
                  >> (rest >>= λ entries.
                      ok (record { segments = split_dots path; output = output } ∷ entries)))))

  unfoldable pub config_flatten :
      Option (List (String × String)) → String → Result LoadFailure (List FlattenEntry)
  unfolding flatten_entries invalid
  config_flatten none source_format = ok []
  config_flatten (some pairs) source_format =
      if str_eq source_format "csv"
      then err (
          invalid (
            "transform.flatten requires a JSONL source format; the resolved source format is csv"
            ∷ []))
      else elim pairs [
        | [] ↦ err (invalid ("transform.flatten must map at least one path" ∷ []))
        | p ∷ ps ↦ flatten_entries [] (p ∷ ps)
      ]

  -- The loop over the select list, with the names seen so far.
  unfoldable pub check_unique : List String → List String → Result LoadFailure Unit
  unfolding contains invalid
  check_unique seen_entries [] = ok tt
  check_unique seen_entries (name ∷ select) =
      let rest = check_unique (name ∷ seen_entries) select in
      fail_when (contains name seen_entries)
        ("transform.select names field " ∷ x.quoted name ∷ " more than once" ∷ [])
      >> rest

  unfoldable pub check_select : Option (List String) → Result LoadFailure Unit
  unfolding check_unique invalid
  check_select none = ok tt
  check_select (some []) = err (invalid ("transform.select must name at least one field" ∷ []))
  check_select (some (name ∷ select)) = check_unique [] (name ∷ select)

  unfoldable pub config_rename :
      Option (List (String × String)) → Result LoadFailure (List (String × String))
  unfolding invalid
  config_rename none = ok []
  config_rename (some []) = err (invalid ("transform.rename must map at least one field" ∷ []))
  config_rename (some (pair ∷ pairs)) = ok (pair ∷ pairs)

  -- The loop over the renames, with the targets seen so far.
  unfoldable pub check_renames :
      List String → Option (List String) → List (String × String) → Result LoadFailure Unit
  unfolding contains invalid
  check_renames seen_targets select [] = ok tt
  check_renames seen_targets select ((source, target) ∷ rename) =
      let rest = check_renames (target ∷ seen_targets) select rename in
      fail_when (is_blank target)
        ("transform.rename target for field " ∷ x.quoted source ∷ " must not be empty" ∷ [])
      >> (fail_when (str_eq source target)
            ("transform.rename maps field " ∷ x.quoted source ∷ " to itself" ∷ [])
          >> (fail_when (contains target seen_targets)
                ("transform.rename maps more than one field to " ∷ x.quoted target ∷ [])
              >> (fail_when (unselected select source)
                    ("transform.rename key " ∷ x.quoted source ∷ " is not in transform.select" ∷ [])
                  >> rest)))

  unfoldable pub check_outputs_selected : List String → List FlattenEntry → Result LoadFailure Unit
  unfolding contains invalid
  check_outputs_selected select [] = ok tt
  check_outputs_selected select (entry ∷ flatten) =
      let rest = check_outputs_selected select flatten in
      fail_when (not (contains entry.output select))
        ("transform.flatten output " ∷ x.quoted entry.output ∷ " is not in transform.select" ∷ [])
      >> rest

  -- The loop over names, with the dataset names seen so far; the message names the two blocks.
  unfoldable pub check_dataset_names :
      String → List (String × String) → List String → List String → Result LoadFailure Unit
  unfolding contains dataset_name invalid
  check_dataset_names blocks rename seen_dataset_names [] = ok tt
  check_dataset_names blocks rename seen_dataset_names (source ∷ sources) =
      let name = dataset_name rename source in
      let rest = check_dataset_names blocks rename (name ∷ seen_dataset_names) sources in
      fail_when (contains name seen_dataset_names)
        (blocks ∷ " map more than one field to the dataset name " ∷ x.quoted name ∷ [])
      >> rest

  unfoldable pub check_names :
      Option (List String) → List FlattenEntry → List (String × String) → Result LoadFailure Unit
  unfolding check_outputs_selected check_dataset_names other_targets
  check_names (some select) flatten rename =
      check_outputs_selected select flatten
      >> check_dataset_names "transform.select and transform.rename" rename [] select
  check_names none flatten rename =
      check_dataset_names "transform.flatten and transform.rename" rename
        (other_targets (outputs_of flatten) rename) (outputs_of flatten)

  abbrev is_unset : TransformConfig → Bool
  is_unset config = elim config.flatten [
    | some f ↦ false
    | none ↦ elim config.select [
      | some s ↦ false
      | none ↦ elim config.rename [ some r ↦ false | none ↦ true ]
    ]
  ]

  unfoldable pub from_config : TransformConfig → String → Result LoadFailure SchemaTransform
  unfolding config_flatten check_select config_rename check_renames check_names invalid
  from_config config source_format =
      fail_when (is_unset config)
        ("a transform block must set transform.flatten, transform.select, or transform.rename" ∷ [])
      >> (config_flatten config.flatten source_format >>= λ flatten.
          check_select config.select
          >> (config_rename config.rename >>= λ rename.
              check_renames [] config.select rename
              >> (check_names config.select flatten rename
                  >> ok (record { flatten = flatten; select = config.select; rename = rename }))))

-- `FlattenEntry::path`
unfoldable pub entry_path : FlattenEntry → String
unfolding join
entry_path entry = join "." entry.segments

-- `transform.is_empty()`
unfoldable pub is_empty_transform : SchemaTransform → Bool
is_empty_transform transform = elim transform.flatten [
  | entry ∷ entries ↦ false
  | [] ↦ elim transform.select [
    | some s ↦ false
    | none ↦ elim transform.rename [ [] ↦ true | pair ∷ pairs ↦ false ]
  ]
]

-- An object collected from pairs; of a repeated key the last value is kept.
unfoldable pub text_object : List (String × String) → Fields → Fields
unfolding insert
text_object [] fields = fields
text_object ((key, value) ∷ pairs) fields =
    text_object pairs (insert key (Value.string value) fields)

abbrev flatten_echo : List FlattenEntry → Fields → Fields
flatten_echo [] rest = rest
flatten_echo (entry ∷ entries) rest =
    Fields.field "flatten"
      (Value.object
        (text_object (map (λ e. (entry_path e, e.output)) (entry ∷ entries)) Fields.no_fields))
      rest

abbrev select_echo : Option (List String) → Fields → Fields
select_echo none rest = rest
select_echo (some select) rest =
    Fields.field "select" (Value.array (items_of (map (λ name. Value.string name) select))) rest

abbrev rename_echo : List (String × String) → Fields
rename_echo [] = Fields.no_fields
rename_echo (pair ∷ pairs) =
    Fields.field "rename" (Value.object (text_object (pair ∷ pairs) Fields.no_fields))
      Fields.no_fields

unfoldable pub transform_echo : SchemaTransform → Value
unfolding text_object entry_path
transform_echo transform =
    Value.object
      (flatten_echo transform.flatten (select_echo transform.select (rename_echo transform.rename)))

-- `SchemaTransform::stamp`
unfoldable pub stamp_transform : SchemaTransform → Value → Value
unfolding set transform_echo is_empty_transform
stamp_transform transform decision =
    if is_empty_transform transform
    then decision
    else set "transform" (transform_echo transform) decision
