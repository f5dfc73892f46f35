-- ===== src/Connector/FirstPass/Jsonl/Artifact.antt =====
-- What the first pass over a JSONL source, in src/connector.rs, leaves in the rejected-records
-- artifact.
use mathlib.Core.List.{Perm, filter_map}
use data_spark.Prelude.{
  ℕ, String, Option, none, some, List, [], ◌∷◌, ◌++◌, map, ◌≡◌, refl, ap, sym, subst, ◌∙◌, arith,
  ◌⊎◌, inl, inr, Option-cases,
}
use data_spark.Prelude.Outcome.{Result, ok, err, Result-cases}
use data_spark.Rejection.{RejectionSink, contents, merge_spill, fresh, fresh_spill}
use data_spark.Rejection.Order.{
  IsFaithful, IsOrderedFrom, rejected_lines_of, merge_spill-IsFaithful,
}
use data_spark.Failure.{LoadFailure}
use data_spark.Execution.{ExecutionFailure}
use data_spark.Connector.Hash.{fnv_offset_basis}
use data_spark.Connector.Source.{LineReader}
use data_spark.Connector.FirstPass.{open_source_file, FirstRead}
use data_spark.Connector.FirstPass.Jsonl.{
  JsonFile, JsonPass, parsed_rows, first_read, after_lines, end_jsonl, read_jsonl, rejection_for,
}
use data_spark.Schema.Externals.{Externals}
use data_spark.Schema.Record.{JsonRecord, RejectedRecord, artifact_value}
use data_spark.Schema.Check.{validate_json_record}
use data_spark.Schema.Check.Verdict.{validate_json_record-IsFirst}
use data_spark.Schema.Directive.{SchemaDirective, directive_checks}
use data_spark.Schema.Pinned.{Yaml}
use data_spark.Schema.Resolve.{Resolution}
use data_spark.Schema.Observer.{finish_json, new_json_observer}
use data_spark.Connector.FirstPass.Jsonl.Spill.{row_lines, IsOrderedFrom-from}
use data_spark.Connector.FirstPass.Jsonl.Lines.{
  unparsed, violators, rows, IsInOrder, lines_after, observe_lines-IsInOrder,
}

filter_map-IsOrderedFrom :
    (render : JsonRecord → Option RejectedRecord) (low : ℕ) (rows : List JsonRecord)
    → ((row : JsonRecord) (r : RejectedRecord) → render row ≡ some r → r.line ≡ row.line)
    → IsOrderedFrom low (row_lines rows)
    → IsOrderedFrom low (rejected_lines_of (filter_map render rows))
unfolding filter_map
filter_map-IsOrderedFrom render low [] at h = tt
filter_map-IsOrderedFrom render low (row ∷ rows) at h =
    let later = filter_map-IsOrderedFrom render row.line rows at h.1 in
    elim (Option-cases (render row)) [
      | inl e ↦ rw (e, filter_map) (IsOrderedFrom-from low row.line _ h.0 later)
      | inr (r, e) ↦
          let same = at row r e in
          rw (e, filter_map)
            (
              omega (arith, same, h.0),
              subst (λ n. IsOrderedFrom n (rejected_lines_of (filter_map render rows))) (sym same)
                  later,
            )
    ]

List-cases : {A : Type 0} (xs : List A) → (xs ≡ []) ⊎ ((v : A) × (vs : List A) × (xs ≡ v ∷ vs))
List-cases [] = inl refl
List-cases (v ∷ vs) = inr (v, vs, refl)

module _ {Text : Type 0} (x : Externals) (yaml : Yaml Text) (reader : LineReader)
    (directive : SchemaDirective) (merge_keys : List String) (path : String) where
  abbrev ends : ℕ → JsonPass → Result ExecutionFailure (FirstRead Text) × RejectionSink
  ends = end_jsonl x yaml reader directive merge_keys path (λ n. none) (λ n. none) none none

  abbrev after :
      ℕ
      → Result LoadFailure Unit × JsonPass
      → Result ExecutionFailure (FirstRead Text) × RejectionSink
  after = after_lines x yaml reader directive merge_keys path (λ n. none) (λ n. none) none none

  abbrev rendered : Resolution Text → JsonRecord → Option RejectedRecord
  rendered = rejection_for x yaml reader directive merge_keys path (λ n. none) (λ n. none) none none

  abbrev merged_into : Resolution Text → JsonPass → RejectionSink
  merged_into s pass = merge_spill none none (rendered s) pass.spill pass.sink

  abbrev handed_on : ℕ → JsonPass → Resolution Text → FirstRead Text
  handed_on source_bytes pass s =
      first_read x yaml reader directive merge_keys path (λ n. none) (λ n. none) none none
        source_bytes pass (merged_into s pass) s

  end_jsonl-ok :
      (source_bytes : ℕ) (pass : JsonPass) (r : FirstRead Text)
      → (ends source_bytes pass).0 ≡ ok r
      → (s : Resolution Text) × ((ends source_bytes pass).1 ≡ merged_into s pass)
        × (r ≡ handed_on source_bytes pass s)
  unfolding end_jsonl
  end_jsonl-ok source_bytes pass r h = elim (List-cases pass.field_names) [
    | inl e ↦ absurd (ground (arith, e, h))
    | inr (name, names, e) ↦
        elim (Result-cases
          (finish_json x yaml directive merge_keys pass.observer pass.field_names)) [
            | inr (failed, f) ↦ absurd (ground (arith, e, f, h))
            | inl (s, f) ↦ (s, ground (arith, e, f), sym (ground (arith, e, f, h)))
          ]
  ]

  after_lines-ok :
      (source_bytes : ℕ) (m : Result LoadFailure Unit × JsonPass) (r : FirstRead Text)
      → (after source_bytes m).0 ≡ ok r
      → (m.0 ≡ ok tt) × (after source_bytes m ≡ ends source_bytes m.1)
  after_lines-ok source_bytes (err failure, pass) r h = absurd (cc h)
  after_lines-ok source_bytes (ok done, pass) r h = (refl, refl)

  rejection_for-line :
      (s : Resolution Text) (row : JsonRecord) (r : RejectedRecord)
      → rendered s row ≡ some r
      → r.line ≡ row.line
  unfolding rejection_for
  rejection_for-line s row r h =
      let (before, check, after, split, passed, found, at, named) =
        validate_json_record-IsFirst x row s.checks r h in
      at

  -- What a first pass leaves in an artifact that was empty: exactly the lines that are no records,
  -- and the records that violate the directive's checks as the resolved checks reject them.
  abbrev pub Leaves : JsonFile → FirstRead Text → RejectionSink → Type 0
  Leaves file r sink =
      let checks = directive_checks directive merge_keys in
      IsFaithful sink
      × IsOrderedFrom 0 sink.lines
      × Perm (contents sink.artifact) (
          map artifact_value (unparsed reader 0 file.lines)
          ++ map artifact_value (
              filter_map (λ row. validate_json_record x row r.resolution.checks)
                (violators x reader checks 0 file.lines)))
      × (r.expectations.rejected_lines ≡ sink.lines)
      × (r.rejected_count ≡ sink.count)
      × (r.source_rows ≡ rows reader 0 file.lines)

  merged-Leaves :
      (file : JsonFile) (source_bytes : ℕ) (s : Resolution Text) (last : JsonPass)
      → IsInOrder x reader (directive_checks directive merge_keys) last
      → contents last.sink.artifact ≡ map artifact_value (unparsed reader 0 file.lines)
      → last.spill.written ≡ violators x reader (directive_checks directive merge_keys) 0 file.lines
      → parsed_rows last ≡ rows reader 0 file.lines
      → Leaves file (handed_on source_bytes last s) (merged_into s last)
  unfolding rejection_for
  merged-Leaves file source_bytes s last
        (faithful, lines, below, (clean, counted, spilled_lines, spilled_below), same) held written
        count =
      let (merged, in_order, all, number) =
        merge_spill-IsFaithful (rendered s) last.spill last.sink faithful clean counted lines (
          filter_map-IsOrderedFrom (rendered s) 0 last.spill.written (rejection_for-line s)
            spilled_lines) in
      (
        merged,
        in_order,
        subst
            (λ rows. Perm (contents (merged_into s last).artifact) (
              map artifact_value (unparsed reader 0 file.lines)
              ++ map artifact_value (filter_map (rendered s) rows)))
            written
            (subst
              (λ values.
                Perm (contents (merged_into s last).artifact)
                  (values ++ map artifact_value (filter_map (rendered s) last.spill.written)))
              held all),
        refl,
        refl,
        count,
      )

  -- If the first pass over a JSONL source returns, with a fresh artifact and a file system that refuses nothing, the artifact has exactly the rejections of the lines that are no records and those that the resolved checks give for the records that violate the directive's checks, in source-line order and in step with the counters; the lines and the count that are handed on are the sink's, and the rows are the lines that are not blank.
  pub read_jsonl-Leaves :
      (file : JsonFile) (r : FirstRead Text)
      → (read_jsonl x yaml reader directive merge_keys path
          (λ n. none)
          (λ n. none)
          none
          none
          file
          fresh).0
        ≡ ok r
      → Leaves file r
          (read_jsonl x yaml reader directive merge_keys path
            (λ n. none)
            (λ n. none)
            none
            none
            file
            fresh).1
  unfolding read_jsonl new_json_observer
  read_jsonl-Leaves file r h = elim (Result-cases (open_source_file path "JSONL" file.size)) [
    | inr (failure, e) ↦ absurd (ground (arith, e, h))
    | inl (source_bytes, e) ↦
        let checks = directive_checks directive merge_keys in
        let start : JsonPass = record {
          observer = new_json_observer x yaml directive merge_keys;
          sink = fresh;
          spill = fresh_spill;
          field_names = [];
          parsed_records = 0;
          parse_rejected = 0;
          line_number = 0;
          hash = fnv_offset_basis;
        } in
        let run = lines_after x reader checks yaml directive merge_keys path start file.lines in
        let whole : read_jsonl x yaml reader directive merge_keys path (λ n. none) (λ n. none) none
              none file fresh
            ≡ after source_bytes run =
          rw (e, read_jsonl) refl in
        let (all_read, same) = after_lines-ok source_bytes run r (ap (λ m. m.0) (sym whole) ∙ h) in
        let (s, sink, handed) =
          end_jsonl-ok source_bytes run.1 r (ap (λ m. m.0) (sym (whole ∙ same)) ∙ h) in
        let (ordered, (held, written, count)) =
          observe_lines-IsInOrder x reader checks yaml directive merge_keys path start file.lines
            ((refl, refl, ([], refl, tt, refl)), tt, tt, (refl, refl, tt, tt), refl) all_read in
        subst (Leaves file r) (sym (ap (λ m. m.1) (whole ∙ same) ∙ sink)) (
          subst (λ read. Leaves file read (merged_into s run.1)) (sym handed)
            (merged-Leaves file source_bytes s run.1 ordered held written (omega (arith, count))))
  ]
