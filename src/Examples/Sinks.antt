-- ===== src/Examples/Sinks.antt =====
-- The rejection sink at concrete rejections.
use mathlib.Core.List.{filter_map}
use data_spark.Prelude.{ℕ, Option, none, some, [], ◌∷◌, ◌++◌, ◌≡◌, refl, arith}
use data_spark.Json.{Value, Fields}
use data_spark.Schema.Record.{JsonRecord, RejectedRecord, artifact_value}
use data_spark.Rejection.{
  RejectionSink, ValidationSpill, fresh, record_rejection, merge_spill, line_of,
}
use data_spark.Rejection.Order.{
  IsFaithful, record_rejection-IsFaithful, merge_spill-IsFaithful, IsMerged,
}

abbrev rejected_at : ℕ → RejectedRecord
rejected_at line = record {
  line = line;
  code = "malformed_jsonl_record";
  field = none;
  source_field = none;
  message = "each JSONL record must be a JSON object";
  content = Value.null;
}

fresh-IsFaithful : IsFaithful fresh
fresh-IsFaithful = (refl, refl, ([], refl, tt, refl))

record_rejection-IsFaithful_example :
    IsFaithful (record_rejection none (rejected_at 4) fresh)
    × ((record_rejection none (rejected_at 4) fresh).lines ≡ [] ++ 4 ∷ [])
record_rejection-IsFaithful_example =
    record_rejection-IsFaithful (rejected_at 4) fresh fresh-IsFaithful

-- The rejections of lines 4 and 9 are streamed, and those of lines 2 and 6 are spilled.
abbrev streamed : RejectionSink
streamed = record {
  artifact = some (artifact_value (rejected_at 4) ∷ artifact_value (rejected_at 9) ∷ []);
  count = 2;
  lines = 4 ∷ 9 ∷ [];
  io_error = none;
}

streamed-IsFaithful : IsFaithful streamed
unfolding line_of artifact_value
streamed-IsFaithful = (
  refl,
  refl,
  (
    (4, artifact_value (rejected_at 4)) ∷ (9, artifact_value (rejected_at 9)) ∷ [],
    refl,
    (refl, (refl, tt)),
    refl,
  ),
)

abbrev row_at : ℕ → JsonRecord
row_at line = record { line = line; entries = Fields.no_fields }

abbrev spilled : ValidationSpill
spilled = record { written = row_at 2 ∷ row_at 6 ∷ []; entries = 2; io_error = none }

abbrev render : JsonRecord → Option RejectedRecord
render row = some (rejected_at row.line)

merge_spill-IsFaithful_example :
    IsMerged
      (rejected_at 2 ∷ rejected_at 6 ∷ [])
      streamed
      (merge_spill none none render spilled streamed)
unfolding filter_map
merge_spill-IsFaithful_example =
    merge_spill-IsFaithful render spilled streamed streamed-IsFaithful refl refl
      (omega arith, (omega arith, tt)) (omega arith, (omega arith, tt))
