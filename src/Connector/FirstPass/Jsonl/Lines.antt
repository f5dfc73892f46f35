-- ===== src/Connector/FirstPass/Jsonl/Lines.antt =====
-- The loop over the lines of a JSONL source, in src/connector.rs: what it streams to the sink and
-- what it spills, in line order.
use data_spark.Prelude.{append_assoc, map-append, append_nil}
use data_spark.Prelude.{
  ℕ, ◌+◌, ◌≤◌, String, Bool, true, false, none, List, [], ◌∷◌, ◌++◌, map, ◌≡◌, refl, ap, sym, subst,
  ◌∙◌, arith, inl, inr, All, All-append, All-imp, Bool-cases, if◌then◌else◌,
}
use data_spark.Prelude.Outcome.{Result, ok, err}
use data_spark.Rejection.{ValidationSpill, contents}
use data_spark.Rejection.Order.{
  IsFaithful, IsOrderedFrom, record_rejection-IsFaithful, record_rejection-clean,
}
use data_spark.Failure.{LoadFailure}
use data_spark.Connector.Hash.{update}
use data_spark.Connector.Source.{JsonlLine, LineReader, jsonl_line_record}
use data_spark.Connector.FirstPass.Jsonl.{
  JsonPass, parsed_rows, spilled, line_turn, observe_line, observe_lines,
}
use data_spark.Schema.Externals.{Externals}
use data_spark.Schema.TypeName.{Bytes}
use data_spark.Schema.Record.{JsonRecord, RejectedRecord, FieldCheck, artifact_value}
use data_spark.Schema.Check.{json_record_violates}
use data_spark.Schema.Directive.{SchemaDirective}
use data_spark.Schema.Pinned.{Yaml}
use data_spark.Schema.Observer.{JsonObserver, JsonOutcome, observe_json}
use data_spark.Connector.FirstPass.Jsonl.Spill.{
  IsOrderedFrom-append, row_lines, HasLine, jsonl_line_record-HasLine, SpillIsInOrder,
  spill_record-IsInOrder,
}

-- The rejection of a line that is no record, and whether a line counts as a row.
abbrev pub rejection_of : JsonlLine → List RejectedRecord
rejection_of JsonlLine.blank = []
rejection_of (JsonlLine.json row) = []
rejection_of (JsonlLine.rejected rejection) = rejection ∷ []

abbrev pub rows_of : JsonlLine → ℕ
rows_of JsonlLine.blank = 0
rows_of (JsonlLine.json row) = 1
rows_of (JsonlLine.rejected rejection) = 1

module _ (reader : LineReader) where
  -- Of the lines after a number of lines: the rejections of those that are no records, and how many
  -- are not blank.
  abbrev pub unparsed : ℕ → List (Result String Bytes) → List RejectedRecord
  unparsed n [] = []
  unparsed n (err error ∷ lines) = []
  unparsed n (ok line ∷ lines) =
      rejection_of (jsonl_line_record reader line (n + 1)) ++ unparsed (n + 1) lines

  abbrev pub rows : ℕ → List (Result String Bytes) → ℕ
  rows n [] = 0
  rows n (err error ∷ lines) = 0
  rows n (ok line ∷ lines) = rows_of (jsonl_line_record reader line (n + 1)) + rows (n + 1) lines

module _ (x : Externals) (reader : LineReader) (checks : List FieldCheck) where
  abbrev pub violator_of : JsonlLine → List JsonRecord
  violator_of JsonlLine.blank = []
  violator_of (JsonlLine.json row) = if json_record_violates x row checks then row ∷ [] else []
  violator_of (JsonlLine.rejected rejection) = []

  -- The records among them that violate the checks.
  abbrev pub violators : ℕ → List (Result String Bytes) → List JsonRecord
  violators n [] = []
  violators n (err error ∷ lines) = []
  violators n (ok line ∷ lines) =
      violator_of (jsonl_line_record reader line (n + 1)) ++ violators (n + 1) lines

  -- The streamed rejections and the spilled records come in line order, up to the line read last.
  abbrev pub IsInOrder : JsonPass → Type 0
  IsInOrder pass =
      IsFaithful pass.sink
      × IsOrderedFrom 0 pass.sink.lines
      × All (λ line. line ≤ pass.line_number) pass.sink.lines
      × SpillIsInOrder pass.line_number pass.spill
      × (pass.observer.checks ≡ checks)

  abbrev Added : JsonPass → List RejectedRecord → List JsonRecord → ℕ → JsonPass → Type 0
  Added pass rejections spilled_rows count last =
      (contents last.sink.artifact ≡ contents pass.sink.artifact ++ map artifact_value rejections)
      × (last.spill.written ≡ pass.spill.written ++ spilled_rows)
      × (parsed_rows last ≡ parsed_rows pass + count)

  module _ {Text : Type 0} (yaml : Yaml Text) (directive : SchemaDirective)
      (merge_keys : List String) (path : String) where
    abbrev turn : JsonPass → JsonlLine → JsonPass
    turn = line_turn x yaml reader directive merge_keys path (λ n. none) (λ n. none) none none

    abbrev spilled_by : JsonOutcome → JsonRecord → ValidationSpill → ValidationSpill
    spilled_by = spilled x yaml reader directive merge_keys path (λ n. none) (λ n. none) none none

    abbrev outcome_if : Bool → JsonOutcome
    outcome_if true = JsonOutcome.rejected
    outcome_if false = JsonOutcome.survived

    observe_json-judges :
        (observer : JsonObserver) (row : JsonRecord)
        → ((observe_json x yaml directive merge_keys observer row).0
            ≡ outcome_if (json_record_violates x row observer.checks))
          × ((observe_json x yaml directive merge_keys observer row).1.checks ≡ observer.checks)
    unfolding observe_json
    observe_json-judges observer row =
        elim (Bool-cases (json_record_violates x row observer.checks)) [
          | inl e ↦ rw (e, observe_json) (refl, refl)
          | inr e ↦ rw (e, observe_json) (refl, refl)
        ]

    spilled-IsInOrder :
        (violates : Bool) (row : JsonRecord) (spill : ValidationSpill) (last : ℕ)
        → row.line ≡ last
        → SpillIsInOrder last spill
        → SpillIsInOrder last (spilled_by (outcome_if violates) row spill)
          × ((spilled_by (outcome_if violates) row spill).written
              ≡ spill.written ++ (if violates then row ∷ [] else []))
    spilled-IsInOrder true row spill last at h = spill_record-IsInOrder row spill last at h
    spilled-IsInOrder false row spill last at h = (h, sym (append_nil spill.written))

    turn-IsInOrder :
        (pass : JsonPass) (line : JsonlLine)
        → HasLine pass.line_number line
        → IsInOrder pass
        → IsInOrder (turn pass line)
          × Added pass (rejection_of line) (violator_of line) (rows_of line) (turn pass line)
    turn-IsInOrder pass JsonlLine.blank at ordered = (
      ordered,
      (
        sym (append_nil (contents pass.sink.artifact)),
        sym (append_nil pass.spill.written),
        omega arith,
      ),
    )
    turn-IsInOrder pass (JsonlLine.rejected rejection) at (faithful, lines, below, spill, same) =
        let (still, added) = record_rejection-IsFaithful rejection pass.sink faithful in
        let whole = record_rejection-clean rejection pass.sink faithful.0 in
        let bound : rejection.line ≤ pass.line_number = omega (arith, at) in
        (
          (
            still,
            subst (IsOrderedFrom 0) (sym added) (
                IsOrderedFrom-append 0 pass.sink.lines rejection.line lines
                  (subst (λ n. All (λ line. line ≤ n) pass.sink.lines) (sym at) below)
                  (omega arith)),
            subst (All (λ line. line ≤ pass.line_number)) (sym added)
                (All-append _ pass.sink.lines (rejection.line ∷ []) below (bound, tt)),
            spill,
            same,
          ),
          (
            ap (λ sink. contents sink.artifact) whole,
            sym (append_nil pass.spill.written),
            omega arith,
          ),
        )
    turn-IsInOrder pass (JsonlLine.json row) at (faithful, lines, below, spill, same) =
        let (judged, kept) = observe_json-judges pass.observer row in
        let outcome = judged ∙ ap (λ cs. outcome_if (json_record_violates x row cs)) same in
        let (still, written) =
          spilled-IsInOrder (json_record_violates x row checks) row pass.spill pass.line_number at
            spill in
        (
          (
            faithful,
            lines,
            below,
            subst (λ o. SpillIsInOrder pass.line_number (spilled_by o row pass.spill)) (sym outcome)
                still,
            kept ∙ same,
          ),
          (
            sym (append_nil (contents pass.sink.artifact)),
            ap (λ o. (spilled_by o row pass.spill).written) outcome ∙ written,
            omega arith,
          ),
        )

    turn-line_number :
        (pass : JsonPass) (line : JsonlLine) → (turn pass line).line_number ≡ pass.line_number
    turn-line_number pass JsonlLine.blank = refl
    turn-line_number pass (JsonlLine.json row) = refl
    turn-line_number pass (JsonlLine.rejected rejection) = refl

    -- A pass is in order as one that has read a line more.
    IsInOrder-later :
        (pass : JsonPass) (hash : ℕ)
        → IsInOrder pass
        → IsInOrder (record pass { line_number = pass.line_number + 1; hash = hash })
    IsInOrder-later pass hash (faithful, lines, below, (clean, counted, rows, rows_below), same) = (
      faithful,
      lines,
      All-imp _ _ pass.sink.lines (λ line b. omega (arith, b)) below,
      (
        clean,
        counted,
        rows,
        All-imp _ _ (row_lines pass.spill.written) (λ line b. omega (arith, b)) rows_below,
      ),
      same,
    )

    abbrev pub lines_after :
        JsonPass → List (Result String Bytes) → Result LoadFailure Unit × JsonPass
    lines_after =
        observe_lines x yaml reader directive merge_keys path (λ n. none) (λ n. none) none none

    -- What two passes add in turn.
    Added-trans :
        (a b c : JsonPass) (rejections more : List RejectedRecord) (spills others : List JsonRecord)
        (m n : ℕ)
        → Added a rejections spills m b
        → Added b more others n c
        → Added a (rejections ++ more) (spills ++ others) (m + n) c
    Added-trans a b c rejections more spills others m n (held, written, counted)
          (held', written', counted') =
        (
          held'
              ∙ ap (λ values. values ++ map artifact_value more) held
              ∙ append_assoc (contents a.sink.artifact) (map artifact_value rejections)
                  (map artifact_value more)
              ∙ ap (λ values. contents a.sink.artifact ++ values)
                  (sym (map-append artifact_value rejections more)),
          written'
              ∙ ap (λ rows. rows ++ others) written
              ∙ append_assoc a.spill.written spills others,
          omega (arith, counted, counted'),
        )

    observe_line-IsInOrder :
        (pass : JsonPass) (line : Bytes)
        → IsInOrder pass
        → let n = pass.line_number + 1 in
          let next =
            observe_line x yaml reader directive merge_keys path
              (λ n. none)
              (λ n. none)
              none
              none
              pass
              line in
          let read = jsonl_line_record reader line n in
          IsInOrder next
          × Added pass (rejection_of read) (violator_of read) (rows_of read) next
          × (next.line_number ≡ n)
    unfolding observe_line
    observe_line-IsInOrder pass line ordered =
        let read = jsonl_line_record reader line (pass.line_number + 1) in
        let bumped : JsonPass = record pass {
          line_number = pass.line_number + 1;
          hash = update pass.hash line;
        } in
        let (still, added) =
          turn-IsInOrder bumped read (jsonl_line_record-HasLine reader line (pass.line_number + 1))
            (IsInOrder-later pass (update pass.hash line) ordered) in
        (still, added, turn-line_number bumped read)

    pub observe_lines-IsInOrder :
        (pass : JsonPass) (lines : List (Result String Bytes))
        → IsInOrder pass
        → (lines_after pass lines).0 ≡ ok tt
        → let last = (lines_after pass lines).1 in
          IsInOrder last
          × Added pass
              (unparsed reader pass.line_number lines)
              (violators pass.line_number lines)
              (rows reader pass.line_number lines)
              last
    unfolding observe_lines
    observe_lines-IsInOrder pass [] ordered h = (
      ordered,
      (
        sym (append_nil (contents pass.sink.artifact)),
        sym (append_nil pass.spill.written),
        omega arith,
      ),
    )
    observe_lines-IsInOrder pass (err error ∷ lines) ordered h = absurd (cc h)
    observe_lines-IsInOrder pass (ok line ∷ lines) ordered h =
        let next =
          observe_line x yaml reader directive merge_keys path (λ n. none) (λ n. none) none none
            pass line in
        let read = jsonl_line_record reader line (pass.line_number + 1) in
        let (still, added, number) = observe_line-IsInOrder pass line ordered in
        let (last, later) = observe_lines-IsInOrder next lines still h in
        (
          last,
          Added-trans pass next (lines_after next lines).1 (rejection_of read)
              (unparsed reader (pass.line_number + 1) lines) (violator_of read)
              (violators (pass.line_number + 1) lines) (rows_of read)
              (rows reader (pass.line_number + 1) lines) added
              (subst
                (λ n.
                  Added next (unparsed reader n lines) (violators n lines) (rows reader n lines)
                    (lines_after next lines).1)
                number later),
        )
