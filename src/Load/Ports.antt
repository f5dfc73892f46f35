-- ===== src/Load/Ports.antt =====
-- What src/lib.rs exchanges with the connectors of src/connector.rs, and what a load ends with. The
-- connectors are an interface. `S` is the state of the outside world, with the rejected-records
-- artifact, `Batch` an Arrow record batch and `Text` the text of a YAML file.
use data_spark.Prelude.{ℕ, String, Option, List}
use data_spark.Prelude.Outcome.{Result}
use data_spark.Json.{Value}
use data_spark.Failure.{LoadFailure, DestinationWriteFailure, DestinationWriteFacts}
use data_spark.Execution.{ExecutionFailure}
use data_spark.LoadMode.{LoadMode}
use data_spark.Dispatch.Session.{Writer}
use data_spark.Dispatch.Window.{Dispatcher, SlotCompletion}
use data_spark.Schema.Directive.{SchemaDirective}
use data_spark.Schema.Plan.{PinnedSchemaWrite}
use data_spark.Load.Config.{SourceDefinition, DestinationDefinition}

-- connector.rs, `SourceRead`; the chunks are the items that the source's lazy iterator yields.
pub record SourceRead (Batch Text : Type 0) : Type 0 where
  pub schema_decision : Value
  pub pinned_schema_write : Option (PinnedSchemaWrite Text)
  pub source_bytes : ℕ
  pub source_rows : ℕ
  pub rejected_count : ℕ
  pub chunks : List (Result LoadFailure Batch)

-- connector.rs, `trait Source`, and of `trait Destination` what a load calls
pub record Source (S Batch Text : Type 0) : Type 0 where
  pub read :
      SchemaDirective → List String → ℕ → S → Result ExecutionFailure (SourceRead Batch Text) × S

pub record Destination (S Batch : Type 0) : Type 0 where
  pub validate_mode : LoadMode → Result LoadFailure (Unit {0})
  pub parallelism_limit : LoadMode → ℕ
  pub begin : LoadMode → S → Result DestinationWriteFailure (Writer S Batch) × S

-- connector.rs, `source_connector`, `destination_connector` and `resolved_source_format`; the waits
-- of the retry engine, and the order in which a session's workers complete their chunks.
pub record Ports (S Batch Panic Text : Type 0) : Type 0 where
  pub source_connector : SourceDefinition → Result LoadFailure (Source S Batch Text)
  pub destination_connector :
      DestinationDefinition → Option String → List String → Result LoadFailure (Destination S Batch)
  pub resolved_source_format : String → Option String → String
  pub sleep_ms : ℕ → S → S
  pub next_completion : Writer S Batch → Dispatcher Batch Panic → S → SlotCompletion Panic × S

pub record ByteCounts : Type 0 where
  pub source : Option ℕ
  pub destination : Option ℕ

pub record RowCounts : Type 0 where
  pub source : ℕ
  pub written : ℕ
  pub rejected : ℕ

pub record ExecutionDetails : Type 0 where
  pub source_summary : Value
  pub destination_summary : Value
  pub dataset : Option String
  pub load_mode : String
  pub merge : Value
  pub schema_decision : Value
  pub row_counts : RowCounts
  pub byte_counts : ByteCounts
  pub rejected_count : ℕ
  pub destination_write : DestinationWriteFacts
  pub execution : Value

-- What the validation of a definition hands to the read and the write.
pub record Setup (S Batch Panic Text : Type 0) : Type 0 where
  pub source : SourceDefinition
  pub destination : DestinationDefinition
  pub load_mode : String
  pub mode : LoadMode
  pub merge_keys : List String
  pub source_port : Source S Batch Text
  pub destination_port : Destination S Batch
  pub directive : SchemaDirective

-- How a load ends: it returns in a state of the world, or it re-raises a writer's panic.
pub data LoadEnd (S Panic : Type 0) : Type 0 where
  ended : Result ExecutionFailure ExecutionDetails → S → LoadEnd S Panic
  panicked : Panic → LoadEnd S Panic
