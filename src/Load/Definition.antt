-- ===== src/Load/Definition.antt =====
-- `execute_load_definition` of src/lib.rs, and the `ReportableFailure` that it fails with.
use mathlib.Core.Option
use data_spark.Prelude.{ℕ, String, Bool, Option, none, some, [], ◌∷◌, ◌==◌, if◌then◌else◌}
use data_spark.Prelude.Text.{show, join}
use data_spark.Prelude.Outcome.{Result, err, map_err}
use data_spark.Json.{Value, Fields}
use data_spark.Failure.{DestinationWriteFacts, not_applicable}
use data_spark.Execution.{ExecutionFailure, CommittedExecution}
use data_spark.Schema.Externals.{Externals}
use data_spark.Schema.Pinned.{Yaml}
use data_spark.Load.Config.{
  LoadDefinition, SourceDefinition, DestinationDefinition, source_json, destination_json,
  merge_json, or_default,
}
use data_spark.Load.Directive.{Files}
use data_spark.Load.Run.{execute_supported_load, mode_text}
use data_spark.Load.Ports.{Ports, ExecutionDetails, LoadEnd, ended}

pub record ReportableFailure : Type 0 where
  pub source_summary : Value
  pub destination_summary : Value
  pub dataset : Option String
  pub load_mode : String
  pub merge : Value
  pub schema_decision : Value
  pub source_rows : ℕ
  pub written_records : ℕ
  pub rejected_count : ℕ
  pub committed_execution : Option CommittedExecution
  pub retry : Option Value
  pub destination_write : DestinationWriteFacts
  pub code : String
  pub message : String

unfoldable pub not_evaluated_schema_decision : Value
not_evaluated_schema_decision =
    Value.object (Fields.field "mode" (Value.string "not_evaluated") Fields.no_fields)

abbrev empty_object : Value
empty_object = Value.object Fields.no_fields

unfoldable pub without_context : String → String → ReportableFailure
unfolding not_applicable not_evaluated_schema_decision
without_context code message = record {
  source_summary = empty_object;
  destination_summary = empty_object;
  dataset = none;
  load_mode = "full_refresh";
  merge = Value.null;
  schema_decision = not_evaluated_schema_decision;
  source_rows = 0;
  written_records = 0;
  rejected_count = 0;
  committed_execution = none;
  retry = none;
  destination_write = not_applicable;
  code = code;
  message = message;
}

abbrev source_or_empty : Option SourceDefinition → Value
source_or_empty none = empty_object
source_or_empty (some d) = source_json d

abbrev destination_or_empty : Option DestinationDefinition → Value
destination_or_empty none = empty_object
destination_or_empty (some d) = destination_json d

abbrev value_or : Option Value → Value → Value
value_or none default = default
value_or (some v) default = v

-- A failure with the context that the definition gives.
unfoldable pub version_failure : LoadDefinition → String → String → ReportableFailure
unfolding not_applicable not_evaluated_schema_decision source_json destination_json merge_json
version_failure definition code message = record {
  source_summary = source_or_empty definition.source;
  destination_summary = destination_or_empty definition.destination;
  dataset = definition.dataset;
  load_mode = mode_text definition.load_mode;
  merge = merge_json definition.merge;
  schema_decision = not_evaluated_schema_decision;
  source_rows = 0;
  written_records = 0;
  rejected_count = 0;
  committed_execution = none;
  retry = none;
  destination_write = not_applicable;
  code = code;
  message = message;
}

unfoldable pub reportable : LoadDefinition → ExecutionFailure → ReportableFailure
unfolding not_evaluated_schema_decision source_json destination_json merge_json
reportable definition failed = record {
  source_summary = source_or_empty definition.source;
  destination_summary = destination_or_empty definition.destination;
  dataset = definition.dataset;
  load_mode = mode_text definition.load_mode;
  merge = merge_json definition.merge;
  schema_decision = value_or failed.schema_decision not_evaluated_schema_decision;
  source_rows = or_default failed.source_rows 0;
  written_records = failed.written_records;
  rejected_count = failed.rejected_count;
  committed_execution = failed.committed_execution;
  retry = failed.retry;
  destination_write = failed.destination_write;
  code = failed.failure.code;
  message = failed.failure.message;
}

-- `SUPPORTED_LOAD_DEFINITION_VERSION`
abbrev supported_load_definition_version : ℕ
supported_load_definition_version = 1

-- How the execution of a definition ends.
pub data DefinitionEnd (S Panic : Type 0) : Type 0 where
  concluded : Result ReportableFailure ExecutionDetails → S → DefinitionEnd S Panic
  panicked : Panic → DefinitionEnd S Panic

abbrev conclude_load : {S Panic : Type 0} → LoadDefinition → LoadEnd S Panic → DefinitionEnd S Panic
conclude_load definition (ended result s) = concluded (map_err (reportable definition) result) s
conclude_load definition (LoadEnd.panicked payload) = DefinitionEnd.panicked payload

abbrev at_version : {A : Type 0} → Option ℕ → A → (String → String → A) → A
at_version none supported fail =
    fail "missing_load_definition_version" "load definition version is required"
at_version (some version) supported fail =
    if version == supported_load_definition_version
    then supported
    else fail "unsupported_load_definition_version"
        (join "" ("unsupported load definition version: " ∷ show version ∷ []))

module _ {S Batch Panic Text : Type 0} (x : Externals) (yaml : Yaml Text) (is_blank : String → Bool)
    (files : Files S Text) (ports : Ports S Batch Panic Text) where
  unfoldable pub execute_load_definition : LoadDefinition → S → Option (DefinitionEnd S Panic)
  unfolding execute_supported_load version_failure reportable
  execute_load_definition definition s =
      at_version definition.version
        (Option.map (conclude_load definition)
          (execute_supported_load x yaml is_blank files ports definition s))
        (λ code message. some (concluded (err (version_failure definition code message)) s))
