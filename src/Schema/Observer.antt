-- ===== src/Schema/Observer.antt =====
-- The observers of the first pass in src/schema.rs: `TextObserver` and `JsonObserver`.
pub mod Independent
pub mod Agrees
use data_spark.Prelude.{
  ℕ, zero, suc, ◌+◌, String, Bool, true, false, Option, none, some, List, [], ◌∷◌, ◌++◌, map,
  if◌then◌else◌, str_eq, length, get_elem?,
}
use data_spark.Prelude.Outcome.{Result, ok, err}
use data_spark.Execution.{ExecutionFailure}
use data_spark.Json.{Value, Fields}
use data_spark.Schema.Externals.{Externals}
use data_spark.Schema.Types.{InferredType, merge}
use data_spark.Schema.Observe.{utf8, infer_text_type, infer_json_type}
use data_spark.Schema.Record.{TextRecord, JsonRecord, FieldCheck, RejectedRecord, json_path_value}
use data_spark.Schema.Check.{validate_text_record, json_record_violates}
use data_spark.Schema.Directive.{FlattenEntry, SchemaDirective, transform_of, directive_checks}
use data_spark.Schema.Pinned.{Yaml}
use data_spark.Schema.Resolve.{Resolution, resolve_plan}

-- `vec![InferredType::Null; n]`
unfoldable pub all_null : ℕ → List InferredType
all_null zero = []
all_null (suc n) = InferredType.null ∷ all_null n

-- A text record's observer. The directive, the keys and the field names that it borrows are
-- arguments of its operations.
pub record TextObserver : Type 0 where
  pub checks : Option (List FieldCheck)
  pub all_types : List InferredType
  pub survivor_types : List InferredType

abbrev checks_of :
    {Text : Type 0} → Result ExecutionFailure (Resolution Text) → Option (List FieldCheck)
checks_of (ok resolution) = some resolution.checks
checks_of (err failed) = none

module _ {Text : Type 0} (x : Externals) (yaml : Yaml Text) where
  abbrev observed_cell : Option String → InferredType → InferredType
  observed_cell none seen = seen
  observed_cell (some value) seen = merge seen (infer_text_type x (utf8 value))

  -- The types and the cells, column by column; a cell past the types panics in the source.
  unfoldable pub merge_cells : List InferredType → List (Option String) → List InferredType
  unfolding merge infer_text_type utf8
  merge_cells (seen ∷ types) (cell ∷ cells) = observed_cell cell seen ∷ merge_cells types cells
  merge_cells types _ = types

  unfoldable pub merge_text_observations : List InferredType → TextRecord → List InferredType
  unfolding merge_cells
  merge_text_observations types row = merge_cells types row.cells

  module _ (directive : SchemaDirective) (merge_keys field_names : List String) where
    unfoldable pub new_text_observer : TextObserver
    unfolding all_null resolve_plan
    new_text_observer =
        let placeholder = all_null (length field_names) in
        record {
          checks =
              checks_of
                (resolve_plan x yaml directive merge_keys field_names placeholder placeholder);
          all_types = placeholder;
          survivor_types = placeholder;
        }

    unfoldable pub observe_text : TextObserver → TextRecord → Option RejectedRecord × TextObserver
    unfolding merge_text_observations validate_text_record
    observe_text observer row =
        let seen = record observer { all_types = merge_text_observations observer.all_types row } in
        elim observer.checks [
          | none ↦ (none, seen)
          | some checks ↦ elim (validate_text_record x row checks field_names) [
            | some rejection ↦ (some rejection, seen)
            | none ↦ (
              none,
              record seen { survivor_types = merge_text_observations observer.survivor_types row },
            )
          ]
        ]

    -- The reader's loop over the records, with the outcome of each.
    unfoldable pub observe_texts :
        TextObserver → List TextRecord → List (Option RejectedRecord) × TextObserver
    unfolding observe_text
    observe_texts observer [] = ([], observer)
    observe_texts observer (row ∷ rows) =
        let rest = observe_texts (observe_text observer row).1 rows in
        ((observe_text observer row).0 ∷ rest.0, rest.1)

    unfoldable pub finish_text : TextObserver → Result ExecutionFailure (Resolution Text)
    unfolding resolve_plan
    finish_text observer =
        resolve_plan x yaml directive merge_keys field_names observer.all_types
          observer.survivor_types

-- A `HashMap` from names to types, as its entries.
pub record JsonObserver : Type 0 where
  pub checks : List FieldCheck
  pub all_types : List (String × InferredType)
  pub survivor_types : List (String × InferredType)
  pub flatten_all : List InferredType
  pub flatten_survivors : List InferredType

pub data JsonOutcome : Type 0 where
  survived rejected : JsonOutcome

-- `entry(name).or_insert(Null)`, then the merge
unfoldable pub merge_entry :
    List (String × InferredType) → String → InferredType → List (String × InferredType)
unfolding merge
merge_entry [] name observed = (name, merge InferredType.null observed) ∷ []
merge_entry ((other, seen) ∷ types) name observed =
    let later = merge_entry types name observed in
    if str_eq other name then (other, merge seen observed) ∷ types else (other, seen) ∷ later

unfoldable pub merge_fields : List (String × InferredType) → Fields → List (String × InferredType)
unfolding merge_entry infer_json_type
merge_fields types Fields.no_fields = types
merge_fields types (Fields.field name value rest) =
    merge_fields (merge_entry types name (infer_json_type value)) rest

abbrev observed_path : Option Value → InferredType → InferredType
observed_path none seen = seen
observed_path (some value) seen = merge seen (infer_json_type value)

unfoldable pub merge_paths : List InferredType → List FlattenEntry → Fields → List InferredType
unfolding json_path_value merge infer_json_type
merge_paths (seen ∷ types) (entry ∷ flatten) entries =
    observed_path (json_path_value entry.segments entries) seen ∷ merge_paths types flatten entries
merge_paths types _ entries = types

unfoldable pub type_named : String → List (String × InferredType) → InferredType
type_named name [] = InferredType.null
type_named name ((other, seen) ∷ types) =
    let later = type_named name types in if str_eq other name then seen else later

module _ {Text : Type 0} (x : Externals) (yaml : Yaml Text) (directive : SchemaDirective)
    (merge_keys : List String) where
  unfoldable pub new_json_observer : JsonObserver
  unfolding directive_checks all_null transform_of
  new_json_observer =
      let flatten_count = length (transform_of directive).flatten in
      record {
        checks = directive_checks directive merge_keys;
        all_types = [];
        survivor_types = [];
        flatten_all = all_null flatten_count;
        flatten_survivors = all_null flatten_count;
      }

  unfoldable pub observe_json : JsonObserver → JsonRecord → JsonOutcome × JsonObserver
  unfolding merge_fields merge_paths json_record_violates transform_of
  observe_json observer row =
      let flatten = (transform_of directive).flatten in
      let seen = record observer {
        all_types = merge_fields observer.all_types row.entries;
        flatten_all = merge_paths observer.flatten_all flatten row.entries;
      } in
      if json_record_violates x row observer.checks then (JsonOutcome.rejected, seen) else (
        JsonOutcome.survived,
        record seen {
          survivor_types = merge_fields observer.survivor_types row.entries;
          flatten_survivors = merge_paths observer.flatten_survivors flatten row.entries;
        },
      )

  unfoldable pub finish_json :
      JsonObserver → List String → Result ExecutionFailure (Resolution Text)
  unfolding resolve_plan type_named
  finish_json observer field_names =
      resolve_plan x yaml directive merge_keys field_names
        (map (λ name. type_named name observer.all_types) field_names ++ observer.flatten_all)
        (map (λ name. type_named name observer.survivor_types) field_names
          ++ observer.flatten_survivors)
