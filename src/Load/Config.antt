-- ===== src/Load/Config.antt =====
-- The load definition of src/lib.rs, and `validate_merge_config`, `resolve_chunk_rows`,
-- `resolve_retry_policy` and `resolve_parallelism`.
pub mod Keys
use data_spark.Prelude.{
  ℕ, min, String, Bool, true, false, not, Option, none, some, List, [], ◌∷◌, map, if◌then◌else◌,
}
use data_spark.Prelude.Names.{contains}
use data_spark.Prelude.Text.{join}
use data_spark.Prelude.Outcome.{Result, ok, err, ◌>>=◌}
use data_spark.Json.{Value, Fields, items_of, uint}
use data_spark.Failure.{LoadFailure}
use data_spark.LoadMode.{LoadMode, same_mode}
use data_spark.Retry.{RetryPolicy, default_policy}
use data_spark.Schema.Externals.{Externals}
use data_spark.Schema.Override.{OverrideEntry}
use data_spark.Schema.Transform.{TransformConfig}

-- A `NonZeroU64` is a number that parsing has found to be at least 1.
pub record RetryConfig : Type 0 where
  pub max_attempts : Option ℕ
  pub initial_delay_ms : Option ℕ
  pub max_delay_ms : Option ℕ

pub record ExecutionConfig : Type 0 where
  pub chunk_rows : Option ℕ
  pub parallelism : Option ℕ
  pub retry : Option RetryConfig

pub record MergeConfig : Type 0 where
  pub keys : List String

pub record SchemaConfig : Type 0 where
  pub pinned_path : Option String
  pub drift_policy : Option String
  pub overrides : Option (List OverrideEntry)

pub record ArtifactsConfig : Type 0 where
  pub dir : Option String

pub record SourceDefinition : Type 0 where
  pub connector : String
  pub path : String
  pub format : Option String

pub record FileDestinationDefinition : Type 0 where
  pub connector : String
  pub path : String

pub record SqlServerDestinationDefinition : Type 0 where
  pub connector : String
  pub host : Option String
  pub port : Option ℕ
  pub database : Option String
  pub schema : Option String
  pub user : Option String
  pub password_env : Option String
  pub encryption : Option String
  pub trust_server_certificate : Option Bool
  pub accept_datetime_rounding : Option Bool

pub data DestinationDefinition : Type 0 where
  file : FileDestinationDefinition → DestinationDefinition
  sql_server : SqlServerDestinationDefinition → DestinationDefinition

pub record LoadDefinition : Type 0 where
  pub version : Option ℕ
  pub source : Option SourceDefinition
  pub destination : Option DestinationDefinition
  pub dataset : Option String
  pub load_mode : Option String
  pub merge : Option MergeConfig
  pub transform : Option TransformConfig
  pub schema : Option SchemaConfig
  pub artifacts : Option ArtifactsConfig
  pub execution : Option ExecutionConfig
  pub reject_threshold : Option ℕ

-- What the derived `Serialize` writes for an optional field.
abbrev text_or_null : Option String → Value
text_or_null none = Value.null
text_or_null (some text) = Value.string text

abbrev number_or_null : Option ℕ → Value
number_or_null none = Value.null
number_or_null (some n) = uint n

abbrev flag_or_null : Option Bool → Value
flag_or_null none = Value.null
flag_or_null (some b) = Value.bool b

-- `to_json`, which writes the fields of a definition in their order
unfoldable pub source_json : SourceDefinition → Value
source_json d = Value.object (
    Fields.field "connector" (Value.string d.connector) (
      Fields.field "path" (Value.string d.path)
        (Fields.field "format" (text_or_null d.format) Fields.no_fields)))

unfoldable pub destination_json : DestinationDefinition → Value
destination_json (DestinationDefinition.file d) = Value.object (
    Fields.field "connector" (Value.string d.connector)
      (Fields.field "path" (Value.string d.path) Fields.no_fields))
destination_json (DestinationDefinition.sql_server d) = Value.object (
    Fields.field "connector" (Value.string d.connector) (
      Fields.field "host" (text_or_null d.host) (
        Fields.field "port" (number_or_null d.port) (
          Fields.field "database" (text_or_null d.database) (
            Fields.field "schema" (text_or_null d.schema) (
              Fields.field "user" (text_or_null d.user) (
                Fields.field "password_env" (text_or_null d.password_env) (
                  Fields.field "encryption" (text_or_null d.encryption) (
                    Fields.field "trust_server_certificate"
                      (flag_or_null d.trust_server_certificate)
                      (Fields.field "accept_datetime_rounding"
                        (flag_or_null d.accept_datetime_rounding) Fields.no_fields))))))))))

unfoldable pub merge_json : Option MergeConfig → Value
unfolding items_of
merge_json none = Value.null
merge_json (some merge) = Value.object (
    Fields.field "keys" (Value.array (items_of (map (λ key. Value.string key) merge.keys)))
      Fields.no_fields)

module _ (x : Externals) where
  abbrev invalid_merge_config : List String → LoadFailure
  invalid_merge_config parts = record { code = "invalid_merge_config"; message = join "" parts }

  -- The loop over the keys, with those seen so far.
  unfoldable pub check_keys : List String → List String → Result LoadFailure Unit
  unfolding contains
  check_keys seen [] = ok tt
  check_keys seen (key ∷ keys) =
      let rest = check_keys (key ∷ seen) keys in
      if contains key seen
      then err
          (invalid_merge_config ("merge.keys names field " ∷ x.quoted key ∷ " more than once" ∷ []))
      else rest

  abbrev usable_keys : List String → Result LoadFailure (List String)
  usable_keys [] =
      err (invalid_merge_config ("merge.keys must name at least one dataset field" ∷ []))
  usable_keys (key ∷ keys) = check_keys [] (key ∷ keys) >>= λ _. ok (key ∷ keys)

  unfoldable pub validate_merge_config :
      LoadMode → Option MergeConfig → Result LoadFailure (List String)
  unfolding check_keys
  validate_merge_config mode none =
      if same_mode mode LoadMode.merge
      then err (record {
        code = "missing_merge_keys";
        message = "load definition merge.keys is required when load_mode is merge";
      })
      else ok []
  validate_merge_config mode (some merge) =
      if not (same_mode mode LoadMode.merge)
      then err (invalid_merge_config ("a merge block requires load_mode: merge" ∷ []))
      else usable_keys merge.keys

abbrev pub or_default : Option ℕ → ℕ → ℕ
or_default none default = default
or_default (some n) default = n

-- `DEFAULT_CHUNK_ROWS`
abbrev pub default_chunk_rows : ℕ
default_chunk_rows = 65536

unfoldable pub resolve_chunk_rows : Option ExecutionConfig → ℕ
resolve_chunk_rows none = default_chunk_rows
resolve_chunk_rows (some execution) = or_default execution.chunk_rows default_chunk_rows

abbrev policy_of : Option RetryConfig → RetryPolicy
policy_of none = default_policy
policy_of (some config) = record {
  max_attempts = or_default config.max_attempts default_policy.max_attempts;
  initial_delay_ms = or_default config.initial_delay_ms default_policy.initial_delay_ms;
  max_delay_ms = or_default config.max_delay_ms default_policy.max_delay_ms;
}

unfoldable pub resolve_retry_policy : Option ExecutionConfig → RetryPolicy
resolve_retry_policy none = default_policy
resolve_retry_policy (some execution) = policy_of execution.retry

abbrev capped : Option ℕ → ℕ → ℕ
capped none limit = limit
capped (some configured) limit = min configured limit

unfoldable pub resolve_parallelism : Option ExecutionConfig → ℕ → ℕ
resolve_parallelism none connector_parallelism_limit = connector_parallelism_limit
resolve_parallelism (some execution) connector_parallelism_limit =
    capped execution.parallelism connector_parallelism_limit
