-- ===== src/Schema/Override.antt =====
-- The overrides of a load definition in src/schema.rs: `SchemaOverrides` and its operations.
pub mod Accepted
use data_spark.Prelude.{
  ℕ, String, Bool, true, false, Option, none, some, List, [], ◌∷◌, map, if◌then◌else◌, str_eq,
}
use data_spark.Prelude.Names.{contains}
use data_spark.Prelude.Text.{join}
use data_spark.Prelude.Outcome.{Result, ok, err, ◌>>=◌}
use data_spark.Failure.{LoadFailure}
use data_spark.Json.{Value, Fields, items_of, set}
use data_spark.Schema.Externals.{Externals}
use data_spark.Schema.Types.{FieldType}
use data_spark.Schema.TypeName.{parse_type_name}
use data_spark.Schema.Observe.{utf8}
use data_spark.Schema.Misfit.{type_text}
use data_spark.Schema.Directive.{FieldOverride}

pub record OverrideEntry : Type 0 where
  pub name : String
  pub field_type : Option String
  pub nullable : Option Bool

-- `is_none` of both properties
abbrev pub sets_nothing : Option String → Option Bool → Bool
sets_nothing none none = true
sets_nothing _ _ = false

module _ (x : Externals) where
  abbrev override_failure : String → List String → LoadFailure
  override_failure code parts = record { code = code; message = join "" parts }

  -- `map(..).transpose()` over the type's name
  unfoldable pub override_type : String → Option String → Result LoadFailure (Option FieldType)
  override_type name none = ok none
  override_type name (some type_name) = elim (parse_type_name (utf8 type_name)) [
    | some field_type ↦ ok (some field_type)
    | none ↦ err (
        override_failure "unsupported_override_type"
          ("unsupported schema override type for field " ∷ x.quoted name ∷ ": " ∷ type_name ∷ []))
  ]

  -- The loop over the entries, with the names seen so far.
  unfoldable pub override_entries :
      List String → List OverrideEntry → Result LoadFailure (List FieldOverride)
  unfolding contains override_type
  override_entries seen_names [] = ok []
  override_entries seen_names (entry ∷ entries) =
      let rest = override_entries (entry.name ∷ seen_names) entries in
      if contains entry.name seen_names
      then err (
          override_failure "invalid_schema_config" (
            "schema override for field "
            ∷ x.quoted entry.name
            ∷ " is declared more than once"
            ∷ []))
      else if sets_nothing entry.field_type entry.nullable
      then err (
          override_failure "invalid_schema_config" (
            "schema override for field "
            ∷ x.quoted entry.name
            ∷ " must set at least one of type or nullable"
            ∷ []))
      else (override_type entry.name entry.field_type >>= λ field_type. rest >>= λ overrides. ok (
          record { name = entry.name; field_type = field_type; nullable = entry.nullable }
          ∷ overrides))

  -- `SchemaOverrides::from_entries`
  unfoldable pub from_entries : List OverrideEntry → Result LoadFailure (List FieldOverride)
  unfolding override_entries
  from_entries entries = override_entries [] entries

-- `unknown_names`
unfoldable pub unknown_names : List FieldOverride → List String → List String
unfolding contains
unknown_names [] dataset_names = []
unknown_names (over ∷ overrides) dataset_names =
    let rest = unknown_names overrides dataset_names in
    if contains over.name dataset_names then rest else over.name ∷ rest

abbrev pub type_field : Option FieldType → Fields → Fields
type_field none rest = rest
type_field (some field_type) rest = Fields.field "type" (Value.string (type_text field_type)) rest

abbrev pub nullable_field : Option Bool → Fields
nullable_field none = Fields.no_fields
nullable_field (some nullable) = Fields.field "nullable" (Value.bool nullable) Fields.no_fields

unfoldable pub override_echo : FieldOverride → Value
override_echo over = Value.object (
    Fields.field "name" (Value.string over.name)
      (type_field over.field_type (nullable_field over.nullable)))

-- `SchemaOverrides::stamp`, with its echo
unfoldable pub stamp_overrides : List FieldOverride → Value → Value
unfolding set override_echo items_of
stamp_overrides [] decision = decision
stamp_overrides (over ∷ overrides) decision =
    set "overrides" (Value.array (items_of (map override_echo (over ∷ overrides)))) decision
