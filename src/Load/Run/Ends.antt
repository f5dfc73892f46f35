-- ===== src/Load/Run/Ends.antt =====
-- That a load of src/lib.rs ends.
use data_spark.Prelude.{
  String, Bool, Option, some, ◌≡◌, refl, inl, inr, Option-cases, arith, ltb, Bool-cases,
}
use data_spark.Prelude.Outcome.{Result, ok, Result-cases}
use data_spark.Execution.{ExecutionFailure}
use data_spark.Schema.Externals.{Externals}
use data_spark.Schema.Pinned.{Yaml}
use data_spark.Load.Config.{LoadDefinition, resolve_chunk_rows}
use data_spark.Load.Config.Keys.{IsParsed, resolve_bounds}
use data_spark.Load.Directive.{Files, persist_pinned_schema}
use data_spark.Dispatch.Phase.LogOrder.{serial_log_order}
use data_spark.Load.Run.{
  validate_definition, execute_supported_load, read_and_write, gate_and_write, persist_and_write,
  write_read, limit, policy, parallelism, reject_threshold,
}
use data_spark.Load.Ports.{SourceRead, Ports, Setup, ExecutionDetails, LoadEnd, ended}

-- It returns, with a result and in a state of the world.
abbrev pub Ends : {S Panic : Type 0} → Option (LoadEnd S Panic) → Type 0
Ends {S} {Panic} o =
    (result : Result ExecutionFailure ExecutionDetails) × (s' : S) × (o ≡ some (ended result s'))

module _ {S Batch Panic Text : Type 0} (x : Externals) (yaml : Yaml Text) (is_blank : String → Bool)
    (files : Files S Text) (ports : Ports S Batch Panic Text) (definition : LoadDefinition) where
  module _ (parsed : IsParsed definition.execution) (setup : Setup S Batch Panic Text)
      (one : limit x yaml is_blank files ports definition setup ≡ 1) where
    write_read-Ends :
        (read : SourceRead Batch Text) (s : S)
        → Ends (write_read x yaml is_blank files ports definition setup read s)
    unfolding write_read
    write_read-Ends read s =
        let (attempts, rows, low, high) =
          resolve_bounds definition.execution 1 parsed (omega arith) in
        let serial : parallelism x yaml is_blank files ports definition setup ≡ 1 =
          rw one (omega arith) in
        let (run, e, sorted) =
          serial_log_order (policy x yaml is_blank files ports definition setup) ports.sleep_ms
            setup.destination_port.begin ports.next_completion setup.mode read.chunks s attempts in
        rw (serial, e) (_, run.state, refl)

    persist_and_write-Ends :
        (read : SourceRead Batch Text) (s : S)
        → Ends (persist_and_write x yaml is_blank files ports definition setup read s)
    unfolding persist_and_write
    persist_and_write-Ends read s = elim (Option-cases read.pinned_schema_write) [
      | inl e ↦ rw (e, persist_and_write) (write_read-Ends read s)
      | inr (write, e) ↦
          let persisted = persist_pinned_schema x yaml is_blank files write s in
          elim (Result-cases persisted.0) [
            | inl (u, f) ↦ rw (e, f, persist_and_write) (write_read-Ends read persisted.1)
            | inr (failed, f) ↦ rw (e, f, persist_and_write) (_, persisted.1, refl)
          ]
    ]

    read_and_write-Ends :
        (s : S) → Ends (read_and_write x yaml is_blank files ports definition setup s)
    unfolding read_and_write gate_and_write
    read_and_write-Ends s =
        let read =
          setup.source_port.read setup.directive setup.merge_keys
            (resolve_chunk_rows definition.execution) s in
        elim (Result-cases read.0) [
          | inr (failed, e) ↦ rw (e, read_and_write) (_, read.1, refl)
          | inl (r, e) ↦
              elim (Bool-cases (
                ltb (reject_threshold x yaml is_blank files ports definition setup)
                  r.rejected_count)) [
                    | inl f ↦ rw (e, f, read_and_write, gate_and_write) (_, read.1, refl)
                    | inr f ↦
                        rw (e, f, read_and_write, gate_and_write) (persist_and_write-Ends r read.1)
                  ]
        ]

  -- A load ends with a result, whatever the source and the destination do, if the destination's parallelism limit is 1 and every number set in the execution block is at least 1: no retry goes on for ever, and no session stays open for want of fuel.
  pub execute_supported_load-Ends :
      (s : S)
      → IsParsed definition.execution
      → ((setup : Setup S Batch Panic Text)
          → validate_definition x yaml is_blank files ports definition s ≡ ok setup
          → limit x yaml is_blank files ports definition setup ≡ 1)
      → Ends (execute_supported_load x yaml is_blank files ports definition s)
  unfolding execute_supported_load
  execute_supported_load-Ends s parsed one =
      elim (Result-cases (validate_definition x yaml is_blank files ports definition s)) [
        | inr (failed, e) ↦ rw (e, execute_supported_load) (_, s, refl)
        | inl (setup, e) ↦
            rw (e, execute_supported_load) (read_and_write-Ends parsed setup (one setup e) s)
      ]
