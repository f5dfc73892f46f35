-- ===== src/Examples/Loads.antt =====
-- A load at concrete inputs: a source of three records, one of them rejected, and a destination that
-- counts the chunks it takes.
use data_spark.Prelude.{
  ℕ, suc, ◌≤◌, String, Bool, Option, none, some, [], ◌∷◌, ◌≡◌, ◌↔◌, refl, ap, sym, arith, str_eq,
}
use data_spark.Prelude.Outcome.{ok, err, ok-injective}
use data_spark.Json.{Value}
use data_spark.Failure.{best_effort, not_applicable}
use data_spark.Execution.{ExecutionFailure}
use data_spark.LoadMode.{LoadMode}
use data_spark.Dispatch.Session.{Writer}
use data_spark.Schema.Pinned.{PinnedSchemaFile}
use data_spark.Schema.Directive.{SchemaDirective}
use data_spark.Load.Config.{
  LoadDefinition, DestinationDefinition, MergeConfig, validate_merge_config, resolve_retry_policy,
  resolve_parallelism,
}
use data_spark.Retry.{run_unit}
use data_spark.Dispatch.Serial.{run_serial_write_phase, commit_session}
use data_spark.Load.Config.Keys.{IsKeys, validate_merge_config_iff}
use data_spark.Load.Directive.{Files, ReadError}
use data_spark.Load.Ports.{SourceRead, Source, Destination, Ports, Setup, ExecutionDetails, ended}
use data_spark.Load.Run.{limit, execute_supported_load, validate_definition, success_details}
use data_spark.Load.Run.Gate.{
  Reads, threshold, IsUnwritten, Wrote, execute_supported_load-stops, execute_supported_load-Wrote,
  IsCounted,
}
use data_spark.Load.Run.Ends.{Ends, execute_supported_load-Ends}
use data_spark.Examples.Plans.{codes, plain_yaml}

-- The state of the world: how many chunks the destination has.
abbrev World : Type 0
World = ℕ

abbrev no_files : Files World PinnedSchemaFile
no_files = record {
  read_to_string = λ path s. err ReadError.not_found;
  create_dir_all = λ path s. (ok tt, s);
  write = λ path text s. (ok tt, s);
  parent = λ path. none;
}

abbrev read_three : SourceRead String PinnedSchemaFile
read_three = record {
  schema_decision = Value.null;
  pinned_schema_write = none;
  source_bytes = 30;
  source_rows = 3;
  rejected_count = 1;
  chunks = ok "1,2" ∷ [];
}

abbrev three : Source World String PinnedSchemaFile
three = record { read = λ directive keys chunk_rows s. (ok read_three, s) }

abbrev counting : Writer World String
counting = record {
  write_chunk = λ batch s. (ok tt, suc s);
  commit = λ s. (ok (record { bytes_written = some 8; facts = best_effort "rename" }), s);
  abandon = λ s. (record { committed_chunks = 0; written_records = 0; facts = not_applicable }, s);
}

abbrev counter : Destination World String
counter = record {
  validate_mode = λ mode. ok tt;
  parallelism_limit = λ mode. 1;
  begin = λ mode s. (ok counting, s);
}

abbrev ports : Ports World String ℕ PinnedSchemaFile
ports = record {
  source_connector = λ definition. ok three;
  destination_connector = λ definition dataset keys. ok counter;
  resolved_source_format = λ path format. "csv";
  sleep_ms = λ ms s. s;
  next_completion = λ writer d s. (record { chunk_index = 0; outcome = ok tt; attempts = [] }, s);
}

abbrev definition_at : Option ℕ → LoadDefinition
definition_at reject_threshold = record {
  version = some 1;
  source = some (record { connector = "local_file"; path = "in.csv"; format = none });
  destination = some (DestinationDefinition.file (record { connector = "parquet"; path = "out" }));
  dataset = none;
  load_mode = none;
  merge = none;
  transform = none;
  schema = none;
  artifacts = none;
  execution = some (record { chunk_rows = some 2; parallelism = some 4; retry = none });
  reject_threshold = reject_threshold;
}

abbrev is_blank : String → Bool
is_blank text = str_eq text ""

unfoldable setup_of : Option ℕ → Setup World String ℕ PinnedSchemaFile
setup_of reject_threshold = record {
  source = record { connector = "local_file"; path = "in.csv"; format = none };
  destination = DestinationDefinition.file (record { connector = "parquet"; path = "out" });
  load_mode = "full_refresh";
  mode = LoadMode.full_refresh;
  merge_keys = [];
  source_port = three;
  destination_port = counter;
  directive = SchemaDirective.inferred (record { flatten = []; select = none; rename = [] }) [];
}

strict_is_valid :
    validate_definition codes plain_yaml is_blank no_files ports (definition_at none) 5
    ≡ ok (setup_of none)
unfolding validate_definition setup_of
strict_is_valid = refl

execute_supported_load-stops_example :
    (f : ExecutionFailure) × (execute_supported_load codes plain_yaml is_blank no_files ports
        (definition_at none)
        5
      ≡ some (ended (err f) 5))
    × IsUnwritten codes plain_yaml is_blank no_files ports
        (definition_at none)
        (setup_of none)
        "reject_threshold_exceeded"
        1
        f
unfolding setup_of
execute_supported_load-stops_example =
    execute_supported_load-stops codes plain_yaml is_blank no_files ports (definition_at none)
      (setup_of none) 5 5 read_three strict_is_valid refl (omega arith)

unfoldable loaded : ExecutionDetails
loaded =
    success_details codes plain_yaml is_blank no_files ports (definition_at (some 1))
      (setup_of (some 1)) read_three
      (record { bytes_written = some 8; facts = best_effort "rename"; chunk_count = 1 }) []

loads :
    execute_supported_load codes plain_yaml is_blank no_files ports (definition_at (some 1)) 5
    ≡ some (ended (ok loaded) 6)
unfolding execute_supported_load loaded run_unit resolve_retry_policy resolve_parallelism
    run_serial_write_phase commit_session setup_of
loads = refl

execute_supported_load-Wrote_example :
    (setup : Setup World String ℕ PinnedSchemaFile) × (read : SourceRead String PinnedSchemaFile)
    × (s1 : World) × (s2 : World) × (validate_definition codes plain_yaml is_blank no_files ports
          (definition_at (some 1))
          5
        ≡ ok setup)
    × Reads codes plain_yaml is_blank no_files ports (definition_at (some 1)) setup 5 read s1
    × (read.rejected_count
        ≤ threshold codes plain_yaml is_blank no_files ports (definition_at (some 1)) setup)
    × Wrote codes plain_yaml is_blank no_files ports (definition_at (some 1)) setup read s2 loaded 6
    × IsCounted read loaded.row_counts
execute_supported_load-Wrote_example =
    execute_supported_load-Wrote codes plain_yaml is_blank no_files ports (definition_at (some 1)) 5
      6 loaded loads

one_at_a_time :
    (setup : Setup World String ℕ PinnedSchemaFile)
    → validate_definition codes plain_yaml is_blank no_files ports (definition_at (some 1)) 5
      ≡ ok setup
    → limit codes plain_yaml is_blank no_files ports (definition_at (some 1)) setup ≡ 1
unfolding validate_definition
one_at_a_time setup h =
    ap (λ s. s.destination_port.parallelism_limit s.mode) (sym (ok-injective _ setup h))

execute_supported_load-Ends_example :
    Ends
      (execute_supported_load codes plain_yaml is_blank no_files ports (definition_at (some 1)) 5)
execute_supported_load-Ends_example =
    execute_supported_load-Ends codes plain_yaml is_blank no_files ports (definition_at (some 1)) 5
      (omega arith, omega arith, tt) one_at_a_time

abbrev two_keys : MergeConfig
two_keys = record { keys = "id" ∷ "day" ∷ [] }

validate_merge_config_iff_example :
    (validate_merge_config codes LoadMode.merge (some two_keys) ≡ ok ("id" ∷ "day" ∷ []))
    ↔ IsKeys LoadMode.merge (some two_keys) ("id" ∷ "day" ∷ [])
validate_merge_config_iff_example =
    validate_merge_config_iff codes LoadMode.merge (some two_keys) ("id" ∷ "day" ∷ [])
