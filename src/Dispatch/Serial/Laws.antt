-- ===== src/Dispatch/Serial/Laws.antt =====
-- How the sequential phase of src/dispatch.rs ends.
use data_spark.Prelude.{
  ℕ, suc, ◌+◌, ◌≤◌, Option, none, some, List, [], ◌∷◌, ◌≡◌, refl, arith, length,
}
use native.Mathlib.Nat.{add-zero}
use Prim.Native.Nat.add
use data_spark.Prelude.Outcome.{Result, ok, err}
use data_spark.Failure.{LoadFailure, DestinationWriteFailure}
use data_spark.Retry.{RetryPolicy, RetryAttempt, UnitRun, write_chunk, run_unit}
use data_spark.Retry.Run.{run_unit_lem}
use data_spark.Dispatch.Session.{Writer, PhaseRun, WritePhaseFailure, WritePhaseOutcome, in_session}
use data_spark.Dispatch.Serial.{
  commit_session, abandon_session, serial_loop, run_serial_write_phase,
}
use data_spark.Dispatch.Window.Scan.{first_failure}

-- The phase failed in its session, with this failure.
abbrev pub FailsInSession : Result WritePhaseFailure WritePhaseOutcome → LoadFailure → Type 0
FailsInSession r failure =
    (f : DestinationWriteFailure) × (r ≡ err (in_session f)) × (f.failure ≡ failure)

module _ {S Batch : Type 0} (policy : RetryPolicy) (sleep_ms : ℕ → S → S) (writer : Writer S Batch)
    (write_outcome : ℕ → Batch → Result DestinationWriteFailure (Unit {0})) where
  -- What a unit comes to, after its retries, depends on its chunk alone.
  abbrev pub IsDeterministic : Type 0
  IsDeterministic =
      (i : ℕ) (batch : Batch) (attempts : List RetryAttempt) (s : S) (run : UnitRun S (Unit {0}))
      → run_unit policy (write_chunk i) sleep_ms (writer.write_chunk batch) attempts s ≡ some run
      → run.result ≡ write_outcome i batch

  -- How the phase ends, given the failure that the stream comes to.
  abbrev pub Ends : ℕ → Option LoadFailure → PhaseRun S → Type 0
  Ends n none run =
      (log : List RetryAttempt) × (s : S) × (run ≡ commit_session n log (writer.commit s))
  Ends n (some failure) run = FailsInSession run.result failure

  serial_loop-Ends :
      (chunks : List (Result LoadFailure Batch)) (i : ℕ) (attempts : List RetryAttempt) (s : S)
      → 1 ≤ policy.max_attempts
      → IsDeterministic
      → (run : PhaseRun S) × (serial_loop policy sleep_ms writer chunks i attempts s ≡ some run)
        × Ends (i + length chunks) (first_failure write_outcome i chunks) run
  unfolding serial_loop
  serial_loop-Ends [] i attempts s pos det =
      (commit_session i attempts (writer.commit s), refl, (attempts, s, rw add-zero))
  serial_loop-Ends (err failure ∷ chunks) i attempts s pos det =
      (abandon_session writer failure attempts s, refl, unfold abandon_session in (_, refl, refl))
  serial_loop-Ends (ok batch ∷ chunks) i attempts s pos det =
      let (k, bound, all, last, e) =
        run_unit_lem policy (write_chunk i) sleep_ms (writer.write_chunk batch) attempts s pos in
      after _ e (write_outcome i batch) (det i batch attempts s _ e) refl
        (serial_loop-Ends chunks (i + 1) _ _ pos det)
    where
      after :
          (run : UnitRun S (Unit {0}))
          → run_unit policy (write_chunk i) sleep_ms (writer.write_chunk batch) attempts s
            ≡ some run
          → (r : Result DestinationWriteFailure (Unit {0})) → run.result ≡ r
          → write_outcome i batch ≡ r
          → ((result : PhaseRun S) × (serial_loop policy sleep_ms writer chunks
                  (i + 1)
                  run.attempts
                  run.state
                ≡ some result)
              × Ends (i + 1 + length chunks) (first_failure write_outcome (i + 1) chunks) result)
          → (result : PhaseRun S) × (serial_loop policy sleep_ms writer
                (ok batch ∷ chunks)
                i
                attempts
                s
              ≡ some result)
            × Ends
                (i + suc (length chunks))
                (first_failure write_outcome i (ok batch ∷ chunks))
                result
      after run e (ok _) q w (result, rest, ends) =
          let shift : i + suc (length chunks) ≡ i + 1 + length chunks = omega arith in
          (result, rw (e, serial_loop) (rw q rest), rw (shift, w, first_failure) ends)
      after run e (err f) q w (result, rest, ends) = (
        record { result = err (in_session f); attempts = run.attempts; state = run.state },
        rw (e, serial_loop) (rw q),
        rw (w, first_failure) (f, refl, refl),
      )

  -- The sequential phase over units whose results, after their retries, depend on their chunks
  -- alone, under a policy of at least one attempt: it returns. If the stream ends and every chunk
  -- is written, it is a commit that states the number of chunks of the stream; otherwise it fails
  -- in its session with the failure at the lowest position of the stream.
  pub serial_lem :
      (chunks : List (Result LoadFailure Batch)) (attempts : List RetryAttempt) (s : S)
      → 1 ≤ policy.max_attempts
      → IsDeterministic
      → (run : PhaseRun S) × (run_serial_write_phase policy sleep_ms writer chunks attempts s
          ≡ some run)
        × Ends (length chunks) (first_failure write_outcome 0 chunks) run
  unfolding run_serial_write_phase
  serial_lem chunks attempts s pos det =
      rw add.zero at (serial_loop-Ends chunks 0 attempts s pos det)
