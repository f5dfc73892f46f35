-- ===== src/Schema/Chunk.antt =====
-- The chunks of src/schema.rs: `ChunkPlan` and the batches that it builds from surviving records.
pub mod Builds
pub mod BuildsJson
use data_spark.Prelude.{ℕ, suc, List, [], ◌∷◌, Option, none, some, map}
use data_spark.Prelude.Text.{join}
use data_spark.Prelude.Outcome.{Result, ok, err, ◌>>=◌}
use data_spark.Failure.{LoadFailure}
use data_spark.Schema.Externals.{Externals}
use data_spark.Schema.Record.{TextRecord, JsonRecord}
use data_spark.Schema.Directive.{PlannedField}
use data_spark.Schema.Column.{Arrow, ArrowField, Column, data_type, build_text_array}
use data_spark.Schema.Column.Json.{build_json_array}

pub record ChunkPlan : Type 0 where
  pub fields : List PlannedField
  pub schema : List ArrowField

unfoldable pub arrow_field : PlannedField → ArrowField
unfolding data_type
arrow_field planned = record {
  name = planned.name;
  data_type = data_type planned.materialized_type;
  nullable = planned.nullable;
}

-- `ChunkPlan::new`
unfoldable pub chunk_plan : List PlannedField → ChunkPlan
unfolding arrow_field
chunk_plan fields = record { fields = fields; schema = map arrow_field fields }

pub record RecordBatch : Type 0 where
  pub schema : List ArrowField
  pub columns : List Column

module _ (x : Externals) (a : Arrow) where
  unfoldable pub assemble : ChunkPlan → List Column → Result LoadFailure RecordBatch
  assemble plan columns = elim (a.batch_error plan.schema columns) [
    | none ↦ ok (record { schema = plan.schema; columns = columns })
    | some error ↦ err (record {
      code = "record_batch_creation_failed";
      message = join "" ("failed to create Arrow record batch: " ∷ error ∷ []);
    })
  ]

  -- The columns of planned fields, the first that fails ending it.
  unfoldable pub text_columns :
      List PlannedField → List TextRecord → Result LoadFailure (List Column)
  unfolding build_text_array
  text_columns [] records = ok []
  text_columns (planned ∷ fields) records =
      build_text_array x a planned.materialized_type records planned.observed_index >>= λ column.
      text_columns fields records >>= λ columns. ok (column ∷ columns)

  unfoldable pub build_text_chunk : ChunkPlan → List TextRecord → Result LoadFailure RecordBatch
  unfolding text_columns assemble
  build_text_chunk plan records =
      text_columns plan.fields records >>= λ columns. assemble plan columns

  -- The columns of planned fields from a position on, which `enumerate` counts.
  unfoldable pub json_columns :
      ℕ → List PlannedField → List JsonRecord → Result LoadFailure (List Column)
  unfolding build_json_array
  json_columns column_index [] records = ok []
  json_columns column_index (planned ∷ fields) records =
      build_json_array x a planned.materialized_type records planned.source column_index
      >>= λ column.
          json_columns (suc column_index) fields records >>= λ columns. ok (column ∷ columns)

  unfoldable pub build_json_chunk : ChunkPlan → List JsonRecord → Result LoadFailure RecordBatch
  unfolding json_columns assemble
  build_json_chunk plan records =
      json_columns 0 plan.fields records >>= λ columns. assemble plan columns
