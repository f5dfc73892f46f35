-- ===== src/Examples/Writes.antt =====
-- The retry engine and the write phase at concrete policies, destinations and streams.
use data_spark.Prelude.{
  ℕ, ◌+◌, ◌≤◌, ◌<◌, false, none, some, List, [], ◌∷◌, ◌++◌, ◌≡◌, refl, arith, inl, inr, ◌==◌,
  if◌then◌else◌, length, Bool-cases,
}
use mathlib.Core.List.{Permᴰ}
use data_spark.Prelude.Outcome.{Result, ok, err, map_err}
use data_spark.Failure.{LoadFailure, DestinationWriteFailure, DestinationWrite, terminal, transient}
use data_spark.LoadMode.{LoadMode}
use data_spark.Retry.{
  RetryAttempt, UnitRun, begin, write_chunk, default_policy, delay_before_attempt_ms, run_unit,
}
use data_spark.Retry.Run.{
  retries, AllRetried, world_before, settled, IsNumberedFrom, run_unit_lem, run_unit-IsNumbered,
}
use data_spark.Retry.Backoff.{backoff, delay-eq-backoff}
use data_spark.Retry.Sort.{sort}
use data_spark.Retry.Report.{attempt_le, report_value, report_value-eq_of_perm}
use data_spark.Dispatch.Session.{Writer, PhaseRun}
use data_spark.Dispatch.Serial.{run_serial_write_phase}
use data_spark.Dispatch.Serial.Laws
use data_spark.Dispatch.Phase.{run_write_phase}
use data_spark.Dispatch.Phase.LogOrder.{serial_log_order}
use data_spark.Dispatch.Window.{Dispatcher, SlotCompletion, write}
use data_spark.Dispatch.Window.Loop.{returned, run_windowed_write_phase, is_empty}
use data_spark.Dispatch.Window.Scan.{first_failure}
use data_spark.Dispatch.Window.Members.{Has}
use data_spark.Dispatch.Window.Order

abbrev disk_full : DestinationWriteFailure
disk_full = record {
  failure = record { code = "duckdb_write_failed"; message = "disk full" };
  facts = record { atomicity = "atomic"; strategy = some "transaction"; merge = none };
  written_records = 0;
  committed_chunks = 0;
  transience = terminal;
}

abbrev locked : DestinationWriteFailure
locked = record disk_full { transience = transient }

-- A world that counts calls: the first two find the database locked.
abbrev flaky : ℕ → Result DestinationWriteFailure Unit × ℕ
flaky calls =
    (if calls == 0 then err locked else if calls == 1 then err locked else ok tt, calls + 1)

abbrev no_wait : ℕ → ℕ → ℕ
no_wait delay_ms calls = calls

run_unit_lem_example :
    (k : ℕ) × (k < 3)
    × AllRetried default_policy begin no_wait flaky 1 k 0
    × (retries default_policy
          (1 + k)
          (flaky (world_before default_policy begin no_wait flaky 1 k 0)).0
        ≡ false)
    × (run_unit default_policy begin no_wait flaky [] 0
        ≡ some (settled default_policy begin no_wait flaky 1 k [] 0))
run_unit_lem_example = run_unit_lem default_policy begin no_wait flaky [] 0 (omega arith)

run_unit-IsNumbered_example :
    (u : UnitRun ℕ Unit) × (log : List RetryAttempt) × (run_unit default_policy begin no_wait flaky
        [] 0
      ≡ some u)
    × (u.attempts ≡ [] ++ log)
    × IsNumberedFrom begin 1 log
    × (length log ≤ 3)
run_unit-IsNumbered_example =
    run_unit-IsNumbered default_policy begin no_wait flaky [] 0 (omega arith)

delay-eq-backoff_example : delay_before_attempt_ms default_policy 6 ≡ backoff default_policy 6
delay-eq-backoff_example = delay-eq-backoff default_policy 6 (omega arith)

abbrev first_retry : RetryAttempt
first_retry = record {
  unit = write_chunk 1;
  attempt = 1;
  code = "duckdb_write_failed";
  message = "disk full";
  delay_before_retry_ms = some 200;
}

abbrev second_retry : RetryAttempt
second_retry = record first_retry { unit = write_chunk 0 }

report_value-eq_of_perm_example :
    report_value default_policy (first_retry ∷ second_retry ∷ [])
    ≡ report_value default_policy (second_retry ∷ first_retry ∷ [])
unfolding attempt_le
report_value-eq_of_perm_example =
    report_value-eq_of_perm default_policy ∣ Permᴰ.swap refl refl ∣₁
      (((λ p q. ground arith), tt), (tt, tt))

-- A writer that fails on the batch 7, and commits otherwise.
abbrev commits : DestinationWrite
commits = record { bytes_written = some 4096; facts = disk_full.facts }

abbrev outcome_of : ℕ → ℕ → Result DestinationWriteFailure Unit
outcome_of i batch = if batch == 7 then err disk_full else ok tt

abbrev picky : Writer ℕ ℕ
picky = record {
  write_chunk = λ batch s. (outcome_of 0 batch, s + 1);
  commit = λ s. (ok commits, s + 1);
  abandon =
      λ s. (record { committed_chunks = 0; written_records = 0; facts = disk_full.facts }, s + 1);
}

abbrev batches : List (Result LoadFailure ℕ)
batches = ok 5 ∷ ok 7 ∷ ok 7 ∷ ok 6 ∷ []

picky-IsDeterministic : Laws.IsDeterministic default_policy no_wait picky outcome_of
unfolding run_unit
picky-IsDeterministic i batch attempts s run e = elim (Bool-cases (batch == 7)) [
  | inl t ↦ ground arith
  | inr f ↦ ground arith
]

serial_lem_example :
    (run : PhaseRun ℕ) × (run_serial_write_phase default_policy no_wait picky batches [] 0
      ≡ some run)
    × Laws.Ends default_policy no_wait picky outcome_of
        (length batches)
        (first_failure outcome_of 0 batches)
        run
serial_lem_example =
    Laws.serial_lem default_policy no_wait picky outcome_of batches [] 0 (omega arith)
      picky-IsDeterministic

-- The schedule completes the chunk dispatched last first.
abbrev newest : Dispatcher ℕ Unit → ℕ → SlotCompletion Unit × ℕ
newest d s = elim d.in_flight [
  | [] ↦ (record { chunk_index = 0; attempts = []; outcome = ok tt }, s)
  | slot ∷ slots ↦ (
    record {
      chunk_index = slot.0;
      attempts = [];
      outcome = map_err write (outcome_of slot.0 slot.1);
    },
    s + 1,
  )
]

newest-IsDeterministic : Order.IsDeterministic 2 newest picky outcome_of batches
newest-IsDeterministic d s h = found d.in_flight h
  where
    found :
        (slots : List (ℕ × ℕ))
        → is_empty slots ≡ false
        → let c = (newest (record d { in_flight = slots }) s).0 in
          (batch : ℕ) × Has c.chunk_index batch slots
          × (c.outcome ≡ map_err write (outcome_of c.chunk_index batch))
    found [] h = absurd (ground arith)
    found (slot ∷ slots) h = (slot.1, inl (refl, refl), refl)

windowed_lem_example :
    (log : List RetryAttempt) × (s : ℕ) × (run_windowed_write_phase 2 newest picky batches [] 0
      ≡ some (
          Order.closing 2 newest picky outcome_of batches
            (first_failure outcome_of 0 batches)
            log
            s))
windowed_lem_example =
    Order.windowed_lem 2 newest picky outcome_of batches [] 0 (omega arith) newest-IsDeterministic

serial_log_order_example :
    (run : PhaseRun ℕ) × (run_write_phase default_policy no_wait
        (λ mode calls. (ok picky, calls + 1))
        (λ writer. newest)
        LoadMode.append
        1
        batches
        []
        0
      ≡ some (returned run))
    × (sort attempt_le run.attempts ≡ run.attempts)
serial_log_order_example =
    serial_log_order default_policy no_wait (λ mode calls. (ok picky, calls + 1)) (λ writer. newest)
      LoadMode.append batches 0 (omega arith)
