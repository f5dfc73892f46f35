-- ===== src/Dispatch/Phase/LogOrder.antt =====
-- The order of the attempt log that a sequential write phase of src/dispatch.rs leaves.
use data_spark.Prelude.{
  ℕ, ◌+◌, ◌≤◌, ◌<◌, true, Option, some, List, [], ◌∷◌, ◌++◌, ◌≡◌, refl, arith, All, All-append,
}
use data_spark.Prelude.Outcome.{Result, ok, err}
use data_spark.Failure.{LoadFailure, DestinationWriteFailure, DestinationWrite}
use data_spark.LoadMode.{LoadMode}
use data_spark.Retry.{RetryPolicy, RetryUnit, RetryAttempt, UnitRun, begin, write_chunk, run_unit}
use data_spark.Retry.Run.{IsNumberedFrom, run_unit-IsNumbered}
use data_spark.Retry.Sort.{IsSorted, sort, sort-eq_of_IsSorted}
use data_spark.Retry.Report.{attempt_le}
use data_spark.Dispatch.Session.{Writer, PhaseRun, in_session, before_session}
use data_spark.Dispatch.Serial.{
  commit_session, abandon_session, serial_loop, run_serial_write_phase,
}
use data_spark.Dispatch.Window.{Dispatcher, SlotCompletion}
use data_spark.Dispatch.Window.Loop.{returned}
use data_spark.Dispatch.Phase.{run_write_phase}

-- The entry is of the begin call, or of a chunk before chunk n.
abbrev pub IsBefore : ℕ → RetryAttempt → Type 0
IsBefore n e = elim e.unit [ begin ↦ Unit | write_chunk i ↦ i < n ]

-- The log up to chunk n: in report order, with no entry of a later chunk.
abbrev pub IsLogUpTo : ℕ → List RetryAttempt → Type 0
IsLogUpTo n log = IsSorted attempt_le log × All (IsBefore n) log

IsSorted-append :
    (xs ys : List RetryAttempt)
    → IsSorted attempt_le xs
    → IsSorted attempt_le ys
    → All (λ x. All (λ y. attempt_le x y ≡ true) ys) xs
    → IsSorted attempt_le (xs ++ ys)
IsSorted-append [] ys sx sy h = sy
IsSorted-append (x ∷ xs) ys sx sy h =
    (All-append _ xs ys sx.0 h.0, IsSorted-append xs ys sx.1 sy h.1)

numbered_above :
    (unit : RetryUnit) (x : RetryAttempt) (n : ℕ) (log : List RetryAttempt)
    → x.unit ≡ unit
    → x.attempt < n
    → IsNumberedFrom unit n log
    → All (λ y. attempt_le x y ≡ true) log
unfolding attempt_le
numbered_above unit x n [] e lt h = tt
numbered_above begin x n (y ∷ log) e lt h =
    (ground arith, numbered_above begin x (n + 1) log e (omega arith) h.2)
numbered_above (write_chunk i) x n (y ∷ log) e lt h =
    (ground arith, numbered_above (write_chunk i) x (n + 1) log e (omega arith) h.2)

numbered-IsSorted :
    (unit : RetryUnit) (n : ℕ) (log : List RetryAttempt)
    → IsNumberedFrom unit n log
    → IsSorted attempt_le log
numbered-IsSorted unit n [] h = tt
numbered-IsSorted unit n (x ∷ log) h = (
  numbered_above unit x (n + 1) log h.1 (omega arith) h.2,
  numbered-IsSorted unit (n + 1) log h.2,
)

-- Entries of chunk n come after all that is before chunk n.
chunk_above :
    (n k : ℕ) (x : RetryAttempt) (log : List RetryAttempt)
    → IsBefore n x
    → IsNumberedFrom (write_chunk n) k log
    → All (λ y. attempt_le x y ≡ true) log
unfolding attempt_le
chunk_above n k x [] b h = tt
chunk_above n k x (y ∷ log) b h = (ground arith, chunk_above n (k + 1) x log b h.2)

All-chunk_above :
    (n k : ℕ) (xs log : List RetryAttempt)
    → All (IsBefore n) xs
    → IsNumberedFrom (write_chunk n) k log
    → All (λ x. All (λ y. attempt_le x y ≡ true) log) xs
All-chunk_above n k [] log b h = tt
All-chunk_above n k (x ∷ xs) log b h =
    (chunk_above n k x log b.0 h, All-chunk_above n k xs log b.1 h)

IsBefore-suc : (n : ℕ) (xs : List RetryAttempt) → All (IsBefore n) xs → All (IsBefore (n + 1)) xs
IsBefore-suc n [] h = tt
IsBefore-suc n (x ∷ xs) h = (ground arith, IsBefore-suc n xs h.1)

own-IsBefore :
    (n k : ℕ) (log : List RetryAttempt)
    → IsNumberedFrom (write_chunk n) k log
    → All (IsBefore (n + 1)) log
own-IsBefore n k [] h = tt
own-IsBefore n k (x ∷ log) h = (ground arith, own-IsBefore n (k + 1) log h.2)

begin-IsBefore :
    (n k : ℕ) (log : List RetryAttempt) → IsNumberedFrom begin k log → All (IsBefore n) log
begin-IsBefore n k [] h = tt
begin-IsBefore n k (x ∷ log) h = (ground arith, begin-IsBefore n (k + 1) log h.2)

extend :
    (n : ℕ) (xs log : List RetryAttempt)
    → IsLogUpTo n xs
    → IsNumberedFrom (write_chunk n) 1 log
    → IsLogUpTo (n + 1) (xs ++ log)
extend n xs log (sorted, before) h = (
  IsSorted-append xs log sorted (numbered-IsSorted (write_chunk n) 1 log h)
      (All-chunk_above n 1 xs log before h),
  All-append _ xs log (IsBefore-suc n xs before) (own-IsBefore n 1 log h),
)

attempts-commit_session :
    {S : Type 0} (n : ℕ) (attempts : List RetryAttempt)
    (r : Result DestinationWriteFailure DestinationWrite × S)
    → (commit_session n attempts r).attempts ≡ attempts
unfolding commit_session
attempts-commit_session n attempts (ok write, s) = refl
attempts-commit_session n attempts (err failure, s) = refl

module _ {S Batch : Type 0} (policy : RetryPolicy) (sleep_ms : ℕ → S → S)
    (writer : Writer S Batch) where
  -- The loop returns with its log in report order.
  abbrev ReturnsSorted : Option (PhaseRun S) → Type 0
  ReturnsSorted r = (run : PhaseRun S) × (r ≡ some run) × IsSorted attempt_le run.attempts

  serial_loop-IsSorted :
      (chunks : List (Result LoadFailure Batch)) (n : ℕ) (attempts : List RetryAttempt) (s : S)
      → 1 ≤ policy.max_attempts
      → IsLogUpTo n attempts
      → ReturnsSorted (serial_loop policy sleep_ms writer chunks n attempts s)
  unfolding serial_loop
  serial_loop-IsSorted [] n attempts s pos h =
      (_, refl, rw (attempts-commit_session n attempts (writer.commit s)) h.0)
  serial_loop-IsSorted (err failure ∷ chunks) n attempts s pos h =
      (_, refl, unfold abandon_session in h.0)
  serial_loop-IsSorted (ok batch ∷ chunks) n attempts s pos h =
      let (u, log, e, p, numbered, short) =
        run_unit-IsNumbered policy (write_chunk n) sleep_ms (writer.write_chunk batch) attempts s
          pos in
      let grown : IsLogUpTo (n + 1) u.attempts = rw p (extend n attempts log h numbered) in
      after u e u.result refl grown.0
        (serial_loop-IsSorted chunks (n + 1) u.attempts u.state pos grown)
    where
      after :
          (u : UnitRun S (Unit {0}))
          → run_unit policy (write_chunk n) sleep_ms (writer.write_chunk batch) attempts s ≡ some u
          → (r : Result DestinationWriteFailure (Unit {0})) → u.result ≡ r
          → IsSorted attempt_le u.attempts
          → ReturnsSorted (serial_loop policy sleep_ms writer chunks (n + 1) u.attempts u.state)
          → ReturnsSorted (serial_loop policy sleep_ms writer (ok batch ∷ chunks) n attempts s)
      after u e (ok _) q sorted (run, rest, end) = (run, rw (e, serial_loop) (rw q rest), end)
      after u e (err f) q sorted rest = (
        record { result = err (in_session f); attempts = u.attempts; state = u.state },
        rw (e, serial_loop) (rw q),
        sorted,
      )

module _ {S Batch Panic : Type 0} (policy : RetryPolicy) (sleep_ms : ℕ → S → S)
    (begin_session : LoadMode → S → Result DestinationWriteFailure (Writer S Batch) × S)
    (next_completion : Writer S Batch → Dispatcher Batch Panic → S → SlotCompletion Panic × S) where
  -- At parallelism 1, under a policy of at least one attempt and from an empty log, the write phase
  -- returns for every destination and every stream, and the log that it leaves, of the begin call
  -- and of the chunks, is already in the order in which the report lists it.
  pub serial_log_order :
      (mode : LoadMode) (chunks : List (Result LoadFailure Batch)) (s : S)
      → 1 ≤ policy.max_attempts
      → (run : PhaseRun S) × (run_write_phase policy sleep_ms begin_session next_completion mode 1
            chunks [] s
          ≡ some (returned run))
        × (sort attempt_le run.attempts ≡ run.attempts)
  unfolding run_write_phase run_serial_write_phase
  serial_log_order mode chunks s pos =
      let (u, log, e, p, numbered, short) =
        run_unit-IsNumbered policy begin sleep_ms (begin_session mode) [] s pos in
      let start : IsLogUpTo 0 u.attempts =
        rw p (numbered-IsSorted begin 1 log numbered, begin-IsBefore 0 1 log numbered) in
      opened u e u.result refl start
    where
      opened :
          (u : UnitRun S (Writer S Batch))
          → run_unit policy begin sleep_ms (begin_session mode) [] s ≡ some u
          → (r : Result DestinationWriteFailure (Writer S Batch)) → u.result ≡ r
          → IsLogUpTo 0 u.attempts
          → (run : PhaseRun S) × (run_write_phase policy sleep_ms begin_session next_completion mode
                1 chunks [] s
              ≡ some (returned run))
            × (sort attempt_le run.attempts ≡ run.attempts)
      opened u e (ok writer) q h =
          let (run, rest, sorted) =
            serial_loop-IsSorted policy sleep_ms writer chunks 0 u.attempts u.state pos h in
          (
            run,
            rw (e, run_write_phase) (rw q (rw (rest, run_serial_write_phase) refl)),
            sort-eq_of_IsSorted attempt_le run.attempts sorted,
          )
      opened u e (err f) q h = (
        record { result = err (before_session f); attempts = u.attempts; state = u.state },
        rw (e, run_write_phase) (rw q),
        sort-eq_of_IsSorted attempt_le u.attempts h.0,
      )
