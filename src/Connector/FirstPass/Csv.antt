-- ===== src/Connector/FirstPass/Csv.antt =====
-- What the first pass over a CSV source, in src/connector.rs, counts and rejects.
use data_spark.Prelude.{append_nil}
use data_spark.Prelude.{
  ℕ, ◌+◌, String, Option, none, some, List, [], ◌∷◌, ◌++◌, length, ◌≡◌, refl, ap, sym, ◌∙◌, arith,
  ◌⊎◌, inl, inr, Option-cases,
}
use data_spark.Prelude.Outcome.{ok, Result-cases}
use data_spark.Rejection.{RejectionSink, record_rejection}
use data_spark.Connector.Source.{CsvRead, CsvItem, csv_item}
use data_spark.Connector.FirstPass.{
  open_source_file, read_csv_header, CsvFile, CsvPass, observe_csv, observe_csvs, run_csv, end_csv,
  ended_csv, start_csv, read_csv, judged, FirstRead,
}
use data_spark.Schema.TypeName.{Bytes}
use data_spark.Schema.Types.{InferredType}
use data_spark.Schema.Resolve.{Resolution, resolve_plan}
use data_spark.Schema.Externals.{Externals}
use data_spark.Schema.Record.{TextRecord, FieldCheck, RejectedRecord}
use data_spark.Schema.Check.{validate_text_record}
use data_spark.Schema.Directive.{SchemaDirective}
use data_spark.Schema.Pinned.{Yaml}
use data_spark.Schema.Observer.{observe_text, new_text_observer, finish_text, all_null}
use data_spark.Schema.Observer.Independent.{resolve_plan-types}

record_rejection-lines :
    (fault : Option String) (r : RejectedRecord) (sink : RejectionSink)
    → ((record_rejection fault r sink).lines ≡ sink.lines ++ r.line ∷ [])
      × ((record_rejection fault r sink).count ≡ sink.count + 1)
unfolding record_rejection
record_rejection-lines fault r sink = elim (Option-cases sink.io_error) [
  | inl e ↦ elim (Option-cases fault) [
    | inl f ↦ rw (e, f) (refl, refl)
    | inr (error, f) ↦ rw (e, f) (refl, refl)
  ]
  | inr (error, e) ↦ rw e (refl, refl)
]

CsvItem-cases :
    (i : CsvItem)
    → ((row : TextRecord) × (i ≡ CsvItem.text row))
      ⊎ ((r : RejectedRecord) × (i ≡ CsvItem.rejected r))
CsvItem-cases (CsvItem.text row) = inl (row, refl)
CsvItem-cases (CsvItem.rejected rejection) = inr (rejection, refl)

module _ {Text : Type 0} (x : Externals) (yaml : Yaml Text) (directive : SchemaDirective)
    (merge_keys : List String) (path : String) (faults : ℕ → Option String)
    (field_names : List String) where
  -- What a record's own bytes and the checks make of it.
  abbrev pub verdict : List FieldCheck → CsvRead → Option RejectedRecord
  verdict checks item = elim (csv_item item (length field_names)) [
    | CsvItem.rejected rejection ↦ some rejection
    | CsvItem.text row ↦ validate_text_record x row checks field_names
  ]

  abbrev pub listed : Option RejectedRecord → List ℕ → List ℕ
  listed none lines = lines
  listed (some rejection) lines = rejection.line ∷ lines

  -- The lines of the records that are rejected, in the source's order.
  abbrev pub rejected_lines : List FieldCheck → List CsvRead → List ℕ
  rejected_lines checks [] = []
  rejected_lines checks (item ∷ items) = listed (verdict checks item) (rejected_lines checks items)

  judged-lines :
      (o : Option RejectedRecord) (sink : RejectionSink)
      → ((judged x yaml directive merge_keys path faults o sink).lines ≡ sink.lines ++ listed o [])
        × ((judged x yaml directive merge_keys path faults o sink).count
            ≡ sink.count + length (listed o []))
  judged-lines none sink = (sym (append_nil sink.lines), omega arith)
  judged-lines (some r) sink = record_rejection-lines (faults sink.count) r sink

  abbrev Turned : List FieldCheck → CsvPass → CsvRead → CsvPass → Type 0
  Turned checks pass item next =
      (next.observer.checks ≡ some checks)
      × (next.sink.lines ≡ pass.sink.lines ++ listed (verdict checks item) [])
      × (next.sink.count ≡ pass.sink.count + length (listed (verdict checks item) []))
      × (next.parsed_records + next.parse_rejected
          ≡ (pass.parsed_records + pass.parse_rejected) + 1)

  observe_csv-Turned :
      (checks : List FieldCheck) (pass : CsvPass) (item : CsvRead)
      → pass.observer.checks ≡ some checks
      → Turned checks pass item
          (observe_csv x yaml directive merge_keys path faults field_names pass item)
  unfolding observe_csv observe_text
  observe_csv-Turned checks pass item h =
      elim (CsvItem-cases (csv_item item (length field_names))) [
        | inl (row, e) ↦ elim (Option-cases (validate_text_record x row checks field_names)) [
          | inl v ↦
              let (lines, count) = judged-lines none pass.sink in
              rw (e, observe_csv, h, observe_text, verdict, v) (h, lines, count, omega arith)
          | inr (r, v) ↦
              let (lines, count) = judged-lines (some r) pass.sink in
              rw (e, observe_csv, h, observe_text, verdict, v) (h, lines, count, omega arith)
        ]
        | inr (rejection, e) ↦
            let (lines, count) = judged-lines (some rejection) pass.sink in
            rw (e, observe_csv, verdict) (h, lines, count, omega arith)
      ]

  abbrev Turns : List FieldCheck → CsvPass → List CsvRead → CsvPass → Type 0
  Turns checks pass items last =
      (last.sink.lines ≡ pass.sink.lines ++ rejected_lines checks items)
      × (last.sink.count ≡ pass.sink.count + length (rejected_lines checks items))
      × (last.parsed_records + last.parse_rejected
          ≡ (pass.parsed_records + pass.parse_rejected) + length items)

  listed-append :
      (o : Option RejectedRecord) (lines rest : List ℕ)
      → (lines ++ listed o []) ++ rest ≡ lines ++ listed o rest
  listed-append none lines rest = ap (λ ls. ls ++ rest) (append_nil lines)
  listed-append (some r) [] rest = refl
  listed-append (some r) (line ∷ lines) rest =
      ap (λ ls. line ∷ ls) (listed-append (some r) lines rest)

  length-listed :
      (o : Option RejectedRecord) (rest : List ℕ)
      → length (listed o rest) ≡ length (listed o []) + length rest
  length-listed none rest = omega arith
  length-listed (some r) rest = omega arith

  observe_csvs-Turns :
      (checks : List FieldCheck) (pass : CsvPass) (items : List CsvRead)
      → pass.observer.checks ≡ some checks
      → Turns checks pass items
          (observe_csvs x yaml directive merge_keys path faults field_names pass items)
  unfolding observe_csvs
  observe_csvs-Turns checks pass [] h = (sym (append_nil pass.sink.lines), omega arith, omega arith)
  observe_csvs-Turns checks pass (item ∷ items) h =
      let (kept, lines, count, rows) = observe_csv-Turned checks pass item h in
      let (later, count_later, rows_later) =
        observe_csvs-Turns checks
          (observe_csv x yaml directive merge_keys path faults field_names pass item) items kept in
      let longer = length-listed (verdict checks item) (rejected_lines checks items) in
      (
        later
            ∙ ap (λ ls. ls ++ rejected_lines checks items) lines
            ∙ listed-append (verdict checks item) pass.sink.lines (rejected_lines checks items),
        omega (arith, count, count_later, longer),
        omega (arith, rows, rows_later),
      )

  -- The checks that a pass starts with are those of the resolution at its end.
  run_csv-checks :
      (file : CsvFile) (sink : RejectionSink) (types survivor_types : List InferredType)
      (s : Resolution Text)
      → resolve_plan x yaml directive merge_keys field_names types survivor_types ≡ ok s
      → (new_text_observer x yaml directive merge_keys field_names).checks ≡ some s.checks
  unfolding new_text_observer
  run_csv-checks file sink types survivor_types s e =
      let placeholder = all_null (length field_names) in
      let (probed, probe, same) =
        resolve_plan-types x yaml directive merge_keys field_names types survivor_types placeholder
          placeholder s e in
      rw probe (ap some same)

  abbrev pub Rejects : CsvFile → RejectionSink → FirstRead Text → Type 0
  Rejects file sink r =
      (r.expectations.rejected_lines
        ≡ sink.lines ++ rejected_lines r.resolution.checks file.records)
      × (r.rejected_count ≡ sink.count + length (rejected_lines r.resolution.checks file.records))
      × (r.source_rows ≡ length file.records)
      × (r.expectations.records ≡ length file.records)

  end_csv-ok :
      (source_bytes : ℕ) (content : Bytes) (pass : CsvPass) (r : FirstRead Text)
      → (end_csv x yaml directive merge_keys path faults field_names source_bytes content pass).0
        ≡ ok r
      → (s : Resolution Text) × (finish_text x yaml directive merge_keys field_names pass.observer
          ≡ ok s)
        × (r
            ≡ ended_csv x yaml directive merge_keys path faults field_names source_bytes content
                pass s)
  unfolding end_csv
  end_csv-ok source_bytes content pass r h =
      elim (Result-cases (finish_text x yaml directive merge_keys field_names pass.observer)) [
        | inr (failed, e) ↦ absurd (ground (arith, e))
        | inl (s, e) ↦ (s, e, sym (ground (arith, e, h)))
      ]

  end_csv-Rejects :
      (source_bytes : ℕ) (content : Bytes) (file : CsvFile) (sink : RejectionSink)
      (r : FirstRead Text)
      → (end_csv x yaml directive merge_keys path faults field_names source_bytes content
          (run_csv x yaml directive merge_keys path faults field_names file sink)).0
        ≡ ok r
      → (r.field_names ≡ field_names) × Rejects file sink r
  unfolding run_csv finish_text
  end_csv-Rejects source_bytes content file sink r h =
      let pass = run_csv x yaml directive merge_keys path faults field_names file sink in
      let (s, e, whole) = end_csv-ok source_bytes content pass r h in
      let (lines, count, rows) =
        observe_csvs-Turns s.checks
          (start_csv x yaml directive merge_keys path faults field_names sink) file.records
          (run_csv-checks file sink pass.observer.all_types pass.observer.survivor_types s e) in
      rw whole (refl, (lines, count, omega (arith, rows), omega (arith, rows)))

module _ {Text : Type 0} (x : Externals) (yaml : Yaml Text) (directive : SchemaDirective)
    (merge_keys : List String) (path : String) (faults : ℕ → Option String) where
  -- If the first pass over a CSV source returns, the lines that it recorded as rejected, for the second pass and in the sink's count, are, in order, those of the records that the csv crate, their length or the resolved checks reject, and the rows that it counts, for both, are all the records.
  pub read_csv-Rejects :
      (file : CsvFile) (sink : RejectionSink) (r : FirstRead Text)
      → (read_csv x yaml directive merge_keys path faults file sink).0 ≡ ok r
      → Rejects x yaml directive merge_keys path faults r.field_names file sink r
  unfolding read_csv
  read_csv-Rejects file sink r h = elim (Result-cases (open_source_file path "CSV" file.size)) [
    | inr (failure, e) ↦ absurd (ground (arith, e))
    | inl (bytes, e) ↦ elim (Result-cases (read_csv_header path file.header)) [
      | inr (failure, f) ↦ absurd (ground (arith, e, f))
      | inl (names, f) ↦
          let ends : (end_csv x yaml directive merge_keys path faults names bytes file.content
                (run_csv x yaml directive merge_keys path faults names file sink)).0
              ≡ ok r =
            ground (arith, e, f, h) in
          let (same, rejects) =
            end_csv-Rejects x yaml directive merge_keys path faults names bytes file.content file
              sink r ends in
          rw same rejects
    ]
  ]
