-- ===== src/Load/Run/Gate.antt =====
-- What stops a load of src/lib.rs before it writes, and what a load that succeeds counts.
use mathlib.Core.Option
use data_spark.Prelude.{
  ℕ, ◌+◌, ◌-◌, ◌^◌, ◌⊎◌, sym, subst, ◌≤◌, ◌<◌, String, Bool, true, Option, none, some, [], ◌≡◌,
  refl, ap, ◌∙◌, ltb, inl, inr, Bool-cases, Option-cases, arith,
}
use data_spark.Prelude.Outcome.{Result, ok, err, Result-cases}
use data_spark.Failure.{not_applicable}
use data_spark.Execution.{ExecutionFailure, reject_threshold_failure}
use data_spark.Schema.Externals.{Externals}
use data_spark.Schema.Pinned.{Yaml}
use data_spark.Load.Config.{LoadDefinition, resolve_chunk_rows}
use data_spark.Load.Directive.{Files, persist_pinned_schema}
use data_spark.Dispatch.Window.Loop.{Ended, returned, raised}
use data_spark.Dispatch.Session.{PhaseRun, WritePhaseOutcome}
use data_spark.Dispatch.Phase.{run_write_phase}
use data_spark.Load.Run.{
  validate_definition, execute_supported_load, read_and_write, gate_and_write, persist_and_write,
  write_read, success_details, resolved_pre_write_failure, reject_threshold, policy, parallelism,
  end_of, wrapping_sub,
}
use data_spark.Load.Ports.{SourceRead, Ports, Setup, ExecutionDetails, RowCounts, ended}

map-some :
    {A B : Type 0} (f : A → B) (o : Option A) (b : B)
    → Option.map f o ≡ some b
    → (a : A) × (o ≡ some a) × (f a ≡ b)
map-some f none b h = absurd (cc h)
map-some f (some a) b h = (a, refl, ground (arith, h))

module _ {S Batch Panic Text : Type 0} (x : Externals) (yaml : Yaml Text) (is_blank : String → Bool)
    (files : Files S Text) (ports : Ports S Batch Panic Text) (definition : LoadDefinition)
    (setup : Setup S Batch Panic Text) where
  abbrev pub threshold : ℕ
  threshold = reject_threshold x yaml is_blank files ports definition setup

  abbrev pub Reads : S → SourceRead Batch Text → S → Type 0
  Reads s read s' =
      setup.source_port.read setup.directive setup.merge_keys
        (resolve_chunk_rows definition.execution) s
      ≡ (ok read, s')

  -- The failure of a load that is stopped with this code: nothing is written, and nothing committed.
  abbrev pub IsUnwritten : String → ℕ → ExecutionFailure → Type 0
  IsUnwritten code rejected f =
      (f.failure.code ≡ code)
      × (f.written_records ≡ 0)
      × (f.committed_execution ≡ none)
      × (f.destination_write ≡ not_applicable)
      × (f.rejected_count ≡ rejected)

  -- A load whose definition is valid and whose source rejects more records than the threshold, by default none, ends in the state of the world that the read left, with no pin persisted and no destination session opened: it fails as `reject_threshold_exceeded`, with no record written and the rejections counted.
  pub execute_supported_load-stops :
      (s s' : S) (read : SourceRead Batch Text)
      → validate_definition x yaml is_blank files ports definition s ≡ ok setup
      → Reads s read s'
      → threshold < read.rejected_count
      → (f : ExecutionFailure) × (execute_supported_load x yaml is_blank files ports definition s
          ≡ some (ended (err f) s'))
        × IsUnwritten "reject_threshold_exceeded" read.rejected_count f
  unfolding execute_supported_load read_and_write gate_and_write resolved_pre_write_failure
      reject_threshold_failure
  execute_supported_load-stops s s' read valid reads over =
      let over_b : ltb threshold read.rejected_count ≡ true = ground (arith, over) in
      (
        resolved_pre_write_failure
            (reject_threshold_failure read.rejected_count read.source_rows threshold)
            read.schema_decision read.source_rows read.rejected_count,
        rw
            (
              valid,
              ap (λ p. p.0) reads,
              over_b,
              ap (λ p. p.1) reads,
              execute_supported_load,
              read_and_write,
              gate_and_write,
            )
            refl,
        (refl, refl, refl, refl, refl),
      )

  -- The write phase that a load ran, and how it returned.
  abbrev pub Wrote : SourceRead Batch Text → S → ExecutionDetails → S → Type 0
  Wrote read s details s' =
      (run : PhaseRun S) × (outcome : WritePhaseOutcome) × (run_write_phase
          (policy x yaml is_blank files ports definition setup) ports.sleep_ms
          setup.destination_port.begin ports.next_completion setup.mode
          (parallelism x yaml is_blank files ports definition setup) read.chunks [] s
        ≡ some (returned run))
      × (run.result ≡ ok outcome)
      × (run.state ≡ s')
      × (details
          ≡ success_details x yaml is_blank files ports definition setup read outcome run.attempts)

  end_of-ok :
      (read : SourceRead Batch Text) (e : Ended S Panic) (details : ExecutionDetails) (s' : S)
      → end_of x yaml is_blank files ports definition setup read e ≡ ended (ok details) s'
      → (run : PhaseRun S) × (outcome : WritePhaseOutcome) × (e ≡ returned run)
        × (run.result ≡ ok outcome)
        × (run.state ≡ s')
        × (details
            ≡ success_details x yaml is_blank files ports definition setup read outcome
                run.attempts)
  end_of-ok read (raised payload) details s' h = absurd (cc h)
  end_of-ok read (returned run) details s' h = elim (Result-cases run.result) [
    | inl (outcome, e) ↦ (run, outcome, refl, e, ground (arith, h, e), ground (arith, h, e))
    | inr (failed, e) ↦ absurd (ground (arith, h, e))
  ]

  write_read-Wrote :
      (read : SourceRead Batch Text) (s s' : S) (details : ExecutionDetails)
      → write_read x yaml is_blank files ports definition setup read s
        ≡ some (ended (ok details) s')
      → Wrote read s details s'
  unfolding write_read
  write_read-Wrote read s s' details h =
      let (e, ran, ends) =
        map-some (end_of x yaml is_blank files ports definition setup read) _ _ h in
      let (run, outcome, same, result, state, counted) = end_of-ok read e details s' ends in
      (run, outcome, ran ∙ ap some same, result, state, counted)

  persist_and_write-Wrote :
      (read : SourceRead Batch Text) (s s' : S) (details : ExecutionDetails)
      → persist_and_write x yaml is_blank files ports definition setup read s
        ≡ some (ended (ok details) s')
      → (s1 : S) × Wrote read s1 details s'
  unfolding persist_and_write
  persist_and_write-Wrote read s s' details h = elim (Option-cases read.pinned_schema_write) [
    | inl e ↦ (s, write_read-Wrote read s s' details (ground (arith, e)))
    | inr (write, e) ↦
        let (persisted, s1) = persist_pinned_schema x yaml is_blank files write s in
        elim (Result-cases persisted) [
          | inl (u, f) ↦ (s1, write_read-Wrote read s1 s' details (ground (arith, e, f)))
          | inr (failed, f) ↦ absurd (ground (arith, e, f))
        ]
  ]

  gate_and_write-Wrote :
      (read : SourceRead Batch Text) (s s' : S) (details : ExecutionDetails)
      → gate_and_write x yaml is_blank files ports definition setup read s
        ≡ some (ended (ok details) s')
      → (read.rejected_count ≤ threshold) × (s1 : S) × Wrote read s1 details s'
  unfolding gate_and_write
  gate_and_write-Wrote read s s' details h = elim (Bool-cases (ltb threshold read.rejected_count)) [
    | inl e ↦ absurd (ground (arith, e))
    | inr e ↦
        let (s1, wrote) = persist_and_write-Wrote read s s' details (ground (arith, e)) in
        (ground (arith, e), s1, wrote)
  ]

  after_read :
      (result : Result ExecutionFailure (SourceRead Batch Text)) (s s1 s' : S)
      (details : ExecutionDetails)
      → setup.source_port.read setup.directive setup.merge_keys
          (resolve_chunk_rows definition.execution)
          s
        ≡ (result, s1)
      → read_and_write x yaml is_blank files ports definition setup s ≡ some (ended (ok details) s')
      → (read : SourceRead Batch Text) × (s1 : S) × (s2 : S) × Reads s read s1
        × (read.rejected_count ≤ threshold)
        × Wrote read s2 details s'
  unfolding read_and_write
  after_read (ok read) s s1 s' details reads h =
      let (bound, s2, wrote) =
        gate_and_write-Wrote read s1 s' details
          (ground (arith, h, ap (λ p. p.0) reads, ap (λ p. p.1) reads)) in
      (read, s1, s2, reads, bound, wrote)
  after_read (err failed) s s1 s' details reads h = absurd (ground (arith, h, ap (λ p. p.0) reads))

-- The records of the source, those rejected, and the difference as written, modulo 2^64.
abbrev pub IsCounted : {Batch Text : Type 0} → SourceRead Batch Text → RowCounts → Type 0
IsCounted read counts =
    (counts.source ≡ read.source_rows)
    × (counts.rejected ≡ read.rejected_count)
    × (((read.rejected_count ≤ read.source_rows)
          × (counts.written ≡ read.source_rows - read.rejected_count))
        ⊎ ((read.source_rows < read.rejected_count)
            × (counts.written ≡ read.source_rows + 2 ^ 64 - read.rejected_count)))

counts-IsCounted :
    {Batch Text : Type 0} (read : SourceRead Batch Text)
    → IsCounted read (record {
      source = read.source_rows;
      written = wrapping_sub read.source_rows read.rejected_count;
      rejected = read.rejected_count;
    })
unfolding wrapping_sub
counts-IsCounted read = (
  refl,
  refl,
  elim (Bool-cases (ltb read.source_rows read.rejected_count)) [
    | inl e ↦ inr (ground (arith, e), rw e refl)
    | inr e ↦ inl (ground (arith, e), rw e refl)
  ],
)

module _ {S Batch Panic Text : Type 0} (x : Externals) (yaml : Yaml Text) (is_blank : String → Bool)
    (files : Files S Text) (ports : Ports S Batch Panic Text) (definition : LoadDefinition) where
  -- A load that succeeds had a valid definition and a read that rejected no more records than the threshold; its write phase ran over exactly the chunks of that read and returned successfully, in the state of the world in which the load ends, and the report counts the source's records, those rejected, and the difference as written, which wraps at 2^64 if more are rejected than the source has.
  pub execute_supported_load-Wrote :
      (s s' : S) (details : ExecutionDetails)
      → execute_supported_load x yaml is_blank files ports definition s
        ≡ some (ended (ok details) s')
      → (setup : Setup S Batch Panic Text) × (read : SourceRead Batch Text) × (s1 : S) × (s2 : S)
        × (validate_definition x yaml is_blank files ports definition s ≡ ok setup)
        × Reads x yaml is_blank files ports definition setup s read s1
        × (read.rejected_count ≤ threshold x yaml is_blank files ports definition setup)
        × Wrote x yaml is_blank files ports definition setup read s2 details s'
        × IsCounted read details.row_counts
  unfolding execute_supported_load success_details
  execute_supported_load-Wrote s s' details h =
      elim (Result-cases (validate_definition x yaml is_blank files ports definition s)) [
        | inr (failed, e) ↦ absurd (ground (arith, e))
        | inl (setup, e) ↦
            let (read, s1, s2, reads, bound, wrote) =
              after_read x yaml is_blank files ports definition setup _ s _ s' details refl
                (ground (arith, e)) in
            let (run, outcome, ran, result, state, counted) = wrote in
            (
              setup,
              read,
              s1,
              s2,
              e,
              reads,
              bound,
              wrote,
              subst (IsCounted read) (sym (ap (λ d. d.row_counts) counted)) (counts-IsCounted read),
            )
      ]
