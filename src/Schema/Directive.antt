-- ===== src/Schema/Directive.antt =====
-- The checks that a load imposes on its records, in src/schema.rs: `directive_checks` from the
-- configuration alone, `pinned_checks` and `override_checks` from the resolved columns.
pub mod Sources
use data_spark.Prelude.{
  ℕ, String, Bool, true, false, not, ◌||◌, Option, none, some, List, [], ◌∷◌, ◌++◌, str_eq, map,
  if◌then◌else◌,
}
use data_spark.Schema.Types.{FieldType}
use data_spark.Schema.Record.{FieldCheck, SourceAddress, NonNullRequirement, TypeOrigin}

pub record PinnedField : Type 0 where
  pub name : String
  pub field_type : FieldType
  pub nullable : Bool

pub record FieldOverride : Type 0 where
  pub name : String
  pub field_type : Option FieldType
  pub nullable : Option Bool

pub record FlattenEntry : Type 0 where
  pub segments : List String
  pub output : String

pub record SchemaTransform : Type 0 where
  pub flatten : List FlattenEntry
  pub select : Option (List String)
  pub rename : List (String × String)

pub data DriftPolicy : Type 0 where
  fail allow_additive_nullable : DriftPolicy

pub data SchemaDirective : Type 0 where
  inferred : (transform : SchemaTransform) (overrides : List FieldOverride) → SchemaDirective
  pin_inferred :
      (pinned_path : String) (transform : SchemaTransform) (overrides : List FieldOverride)
      → SchemaDirective
  pinned :
      (pinned_path : String) (pin : List PinnedField) (drift_policy : DriftPolicy)
      (transform : SchemaTransform) (overrides : List FieldOverride)
      → SchemaDirective

unfoldable pub transform_of : SchemaDirective → SchemaTransform
transform_of (SchemaDirective.inferred transform overrides) = transform
transform_of (SchemaDirective.pin_inferred path transform overrides) = transform
transform_of (SchemaDirective.pinned path pin policy transform overrides) = transform

unfoldable pub overrides_of : SchemaDirective → List FieldOverride
overrides_of (SchemaDirective.inferred transform overrides) = overrides
overrides_of (SchemaDirective.pin_inferred path transform overrides) = overrides
overrides_of (SchemaDirective.pinned path pin policy transform overrides) = overrides

abbrev pub pin_of : SchemaDirective → List PinnedField
pin_of (SchemaDirective.pinned path pin policy transform overrides) = pin
pin_of _ = []

-- `SchemaTransform::dataset_name`
unfoldable pub dataset_name : List (String × String) → String → String
dataset_name [] source_name = source_name
dataset_name ((source, target) ∷ rename) source_name =
    let later = dataset_name rename source_name in
    if str_eq source source_name then target else later

-- The first flatten entry whose output has this dataset name.
unfoldable pub flattened :
    List (String × String) → List FlattenEntry → String → Option (List String)
unfolding dataset_name
flattened rename [] name = none
flattened rename (entry ∷ entries) name =
    let later = flattened rename entries name in
    if str_eq (dataset_name rename entry.output) name then some entry.segments else later

-- The first rename whose target is this name.
unfoldable pub renamed_from : List (String × String) → String → Option String
renamed_from [] name = none
renamed_from ((source, target) ∷ rename) name =
    let later = renamed_from rename name in if str_eq target name then some source else later

unfoldable pub json_source_address : SchemaTransform → String → SourceAddress
unfolding flattened renamed_from
json_source_address transform name = elim (flattened transform.rename transform.flatten name) [
  | some segments ↦ SourceAddress.path segments
  | none ↦ elim (renamed_from transform.rename name) [
    | some source ↦ SourceAddress.field source
    | none ↦ SourceAddress.field name
  ]
]

-- `condition.then_some(NonNullRequirement::Schema)`
abbrev pub required_if : Bool → Option NonNullRequirement
required_if true = some NonNullRequirement.schema
required_if false = none

-- `nullable == Some(false)`
abbrev pub is_not_null : Option Bool → Bool
is_not_null (some false) = true
is_not_null _ = false

abbrev pub overridden_type : Option FieldType → Option (FieldType × TypeOrigin)
overridden_type none = none
overridden_type (some field_type) = some (field_type, TypeOrigin.overridden)

-- The set of the pin's names.
unfoldable pub names_pinned : List PinnedField → String → Bool
names_pinned [] name = false
names_pinned (field ∷ fields) name = str_eq field.name name || names_pinned fields name

module _ (transform : SchemaTransform) where
  abbrev pub key_check : String → FieldCheck
  key_check key = record {
    name = key;
    source = json_source_address transform key;
    observed_index = 0;
    expected_type = none;
    required = some NonNullRequirement.merge_key;
  }

  abbrev pub pin_check : PinnedField → FieldCheck
  pin_check field = record {
    name = field.name;
    source = json_source_address transform field.name;
    observed_index = 0;
    expected_type = some (field.field_type, TypeOrigin.pinned);
    required = required_if (not field.nullable);
  }

  abbrev pub override_check : FieldOverride → FieldCheck
  override_check over = record {
    name = over.name;
    source = json_source_address transform over.name;
    observed_index = 0;
    expected_type = overridden_type over.field_type;
    required = required_if (is_not_null over.nullable);
  }

  -- The loop over the overrides, which passes over those that the pin names.
  unfoldable pub unpinned_checks : List PinnedField → List FieldOverride → List FieldCheck
  unfolding names_pinned
  unpinned_checks pin [] = []
  unpinned_checks pin (over ∷ overrides) =
      let rest = unpinned_checks pin overrides in
      if names_pinned pin over.name then rest else override_check over ∷ rest

unfoldable pub directive_checks : SchemaDirective → List String → List FieldCheck
unfolding transform_of overrides_of unpinned_checks
directive_checks directive keys =
    map (key_check (transform_of directive)) keys
    ++ (map (pin_check (transform_of directive)) (pin_of directive)
        ++ unpinned_checks (transform_of directive) (pin_of directive) (overrides_of directive))

pub record DatasetColumn : Type 0 where
  pub dataset_name : String
  pub source : SourceAddress
  pub observed_index : ℕ

unfoldable pub name_changed : DatasetColumn → Bool
name_changed column = elim column.source [
  | SourceAddress.field source_name ↦ not (str_eq column.dataset_name source_name)
  | SourceAddress.path segments ↦ true
]

pub record PlannedField : Type 0 where
  pub name : String
  pub source : SourceAddress
  pub materialized_type : FieldType
  pub nullable : Bool
  pub observed_index : ℕ

unfoldable pub pinned_checks : List PlannedField → List FieldCheck
pinned_checks [] = []
pinned_checks (planned ∷ matched) =
    record {
      name = planned.name;
      source = planned.source;
      observed_index = planned.observed_index;
      expected_type = some (planned.materialized_type, TypeOrigin.pinned);
      required = required_if (not planned.nullable);
    }
    ∷ pinned_checks matched

-- `SchemaOverrides::get`
unfoldable pub get_override : List FieldOverride → String → Option FieldOverride
get_override [] name = none
get_override (over ∷ overrides) name =
    let later = get_override overrides name in if str_eq over.name name then some over else later

unfoldable pub override_checks : List FieldOverride → List DatasetColumn → List FieldCheck
unfolding get_override
override_checks overrides [] = []
override_checks overrides (column ∷ columns) = elim (get_override overrides column.dataset_name) [
  | none ↦ override_checks overrides columns
  | some over ↦
      record {
        name = column.dataset_name;
        source = column.source;
        observed_index = column.observed_index;
        expected_type = overridden_type over.field_type;
        required = required_if (is_not_null over.nullable);
      }
      ∷ override_checks overrides columns
]
