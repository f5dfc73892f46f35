-- ===== src/Examples/Streams.antt =====
-- The validation of records and the second pass at concrete records.
use data_spark.Prelude.{true, false, none, some, List, [], ◌∷◌, ◌≡◌, refl, All, arith}
use data_spark.Prelude.Outcome.{ok}
use data_spark.Json.{Value, Fields}
use data_spark.Schema.Externals.{Externals}
use data_spark.Schema.Types.{FieldType}
use data_spark.Schema.Fit.{is_some, json_value_fits}
use data_spark.Schema.Observe.{infer_json_type}
use data_spark.Schema.Misfit.{type_text, json_misfit_cause}
use data_spark.Schema.Record.{
  TextRecord, JsonRecord, FieldCheck, SourceAddress, NonNullRequirement, TypeOrigin, RejectedRecord,
  json_value,
}
use data_spark.Schema.Check.{
  type_rejection, null_value_rejection, text_record_json, validate_text_record,
  validate_json_record, json_record_violates,
}
use data_spark.Schema.Directive.{
  SchemaDirective, DriftPolicy, transform_of, pin_of, overrides_of, directive_checks,
}
use data_spark.Schema.Directive.Sources.{IsJustified, IsComplete, directive_checks-IsJustified}
use data_spark.Schema.Check.Verdict.{
  IsFirst, json_finding, text_finding, violates-eq_validate, validate_json_record-IsFirst,
  validate_text_record-IsFirst,
}
use data_spark.Connector.Chunks.{ChunkPhase, Stream, PassOneExpectations, drain}
use data_spark.Connector.Source.{CsvRead}
use data_spark.Connector.Hash.{update, fnv_offset_basis}
use data_spark.Connector.Chunks.Turns.{CsvFile, csv_chunks}
use data_spark.Schema.TypeName.{Bytes, bytes}
use data_spark.Connector.Chunks.Layout.{drain_lem, laid_out}

abbrev plain : Externals
plain = record {
  timestamp_micros = λ year month day hour minute second micros. none;
  parses_f64 = λ text. false;
  is_finite_f64 = λ text. false;
  render = λ value. "null";
  quoted = λ text. text;
}

-- The key `id` must not be null, and `age` must be an integer.
abbrev checks : List FieldCheck
checks =
    record {
      name = "id";
      source = SourceAddress.field "id";
      observed_index = 0;
      expected_type = none;
      required = some NonNullRequirement.merge_key;
    }
    ∷ record {
      name = "age";
      source = SourceAddress.path ("person" ∷ "age" ∷ []);
      observed_index = 1;
      expected_type = some (FieldType.int64, TypeOrigin.pinned);
      required = none;
    }
    ∷ []

abbrev person : JsonRecord
person = record {
  line = 7;
  entries = Fields.field "id" (Value.string "a") (
      Fields.field "person" (Value.object (Fields.field "age" (Value.bool true) Fields.no_fields))
        Fields.no_fields);
}

violates-eq_validate_example :
    json_record_violates plain person checks ≡ is_some (validate_json_record plain person checks)
violates-eq_validate_example = violates-eq_validate plain person checks

-- A pin of one field, which an override names too, beside one of another field.
abbrev pinned_ages : SchemaDirective
pinned_ages =
    SchemaDirective.pinned "people.pin.yml"
      (record { name = "age"; field_type = FieldType.int64; nullable = false } ∷ [])
      DriftPolicy.fail (record { flatten = []; select = none; rename = ("years", "age") ∷ [] })
      (record { name = "age"; field_type = some FieldType.int64; nullable = none }
        ∷ record { name = "born"; field_type = some FieldType.timestamp; nullable = none }
        ∷ [])

directive_checks-IsJustified_example :
    All
      (IsJustified
        (transform_of pinned_ages)
        ("id" ∷ [])
        (pin_of pinned_ages)
        (overrides_of pinned_ages))
      (directive_checks pinned_ages ("id" ∷ []))
    × IsComplete
        (transform_of pinned_ages)
        ("id" ∷ [])
        (pin_of pinned_ages)
        (overrides_of pinned_ages)
        (directive_checks pinned_ages ("id" ∷ []))
directive_checks-IsJustified_example = directive_checks-IsJustified pinned_ages ("id" ∷ [])

abbrev json_rejection : RejectedRecord
json_rejection = record {
  line = 7;
  code = "type_coercion_failed";
  field = some "age";
  source_field = some "person.age";
  message = "value null does not fit pinned type int64 for field age";
  content = Value.object person.entries;
}

rejects_person : validate_json_record plain person checks ≡ some json_rejection
unfolding validate_json_record json_value json_value_fits infer_json_type type_rejection type_text
    json_misfit_cause
rejects_person = refl

validate_json_record-IsFirst_example :
    IsFirst plain (json_finding plain person) 7 checks json_rejection
validate_json_record-IsFirst_example =
    validate_json_record-IsFirst plain person checks json_rejection rejects_person

abbrev row : TextRecord
row = record { line = 3; cells = none ∷ some "x" ∷ [] }

abbrev text_rejection : RejectedRecord
text_rejection = record {
  line = 3;
  code = "null_merge_key";
  field = some "id";
  source_field = none;
  message = "merge key id is null";
  content =
      Value.object
        (Fields.field "id" Value.null (Fields.field "age" (Value.string "x") Fields.no_fields));
}

rejects_row : validate_text_record plain row checks ("id" ∷ "age" ∷ []) ≡ some text_rejection
unfolding validate_text_record null_value_rejection text_record_json
rejects_row = refl

validate_text_record-IsFirst_example :
    IsFirst plain (text_finding plain row ("id" ∷ "age" ∷ [])) 3 checks text_rejection
validate_text_record-IsFirst_example =
    validate_text_record-IsFirst plain row checks ("id" ∷ "age" ∷ []) text_rejection rejects_row

-- A file of four records, of which the first has no key and the last has three fields, in chunks of
-- two records.
abbrev people : CsvFile
people = record {
  header_bytes = bytes "id,age\n";
  header = some ("id" ∷ "age" ∷ []);
  reads =
      (CsvRead.row (some 2) ("" ∷ "3" ∷ []), bytes ",3\n")
      ∷ (CsvRead.row (some 3) ("a" ∷ "4" ∷ []), bytes "a,4\n")
      ∷ (CsvRead.row (some 4) ("b" ∷ "5" ∷ []), bytes "b,5\n")
      ∷ (CsvRead.row (some 5) ("c" ∷ "6" ∷ "7" ∷ []), bytes "c,6,7\n")
      ∷ [];
}

abbrev expectations : PassOneExpectations
expectations = record { rejected_lines = 2 ∷ 5 ∷ []; records = 4; hash = 99 }

abbrev people_chunks : Stream (CsvRead × Bytes) TextRecord (List TextRecord)
people_chunks =
    csv_chunks plain "people.csv" checks expectations ("id" ∷ "age" ∷ []) 2 ok (ok people)

drain_lem_example :
    drain people_chunks 6 ChunkPhase.not_started
    ≡ laid_out people_chunks people.reads (update fnv_offset_basis people.header_bytes) 0 false []
unfolding csv_chunks
drain_lem_example =
    drain_lem people_chunks people.reads (update fnv_offset_basis people.header_bytes) 6 refl
      (omega arith) (omega arith)
