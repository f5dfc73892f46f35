-- ===== src/Dispatch/Window.antt =====
-- `run_windowed_write_phase` of src/dispatch.rs: up to `window` chunk writes in flight at once.
-- Which slot completes next, with what, and what the world looks like then is an argument,
-- `next_completion`: a schedule. The model follows the dispatching thread between two receives.
pub mod Loop
pub mod Members
pub mod Progress
pub mod Scan
pub mod Invariant
pub mod Order
use data_spark.Prelude.{
  ℕ, zero, suc, ◌+◌, Bool, true, false, not, ◌&&◌, Option, none, some, List, [], ◌∷◌, ◌++◌, ltb,
  leb, ◌==◌, if◌then◌else◌, length,
}
use data_spark.Prelude.Outcome.{Result, ok, err}
use data_spark.Failure.{LoadFailure, DestinationWriteFailure}
use data_spark.Retry.{RetryAttempt}

-- `SlotFailure`; `Panic` is the payload of a caught panic.
pub data SlotFailure (Panic : Type 0) : Type 0 where
  write : DestinationWriteFailure → SlotFailure Panic
  panicked : Panic → SlotFailure Panic

pub record SlotCompletion (Panic : Type 0) : Type 0 where
  pub chunk_index : ℕ
  pub attempts : List RetryAttempt
  pub outcome : Result (SlotFailure Panic) (Unit {0})

-- The locals of the dispatching thread, with what the source still yields. `in_flight` lists the
-- slots that run; the code counts them.
pub record Dispatcher (Batch Panic : Type 0) : Type 0 where
  pub chunks : List (Result LoadFailure Batch)
  pub dispatched : ℕ
  pub in_flight : List (ℕ × Batch)
  pub source_done : Bool
  pub halted : Bool
  pub source_failure : Option LoadFailure
  pub writer_panic : Option Panic
  pub write_failures : List (ℕ × DestinationWriteFailure)
  pub retry_attempts : List RetryAttempt

-- The slot of chunk i is free again.
unfoldable pub remove : {Batch : Type 0} → ℕ → List (ℕ × Batch) → List (ℕ × Batch)
remove i [] = []
remove i ((j, batch) ∷ slots) = if j == i then slots else (j, batch) ∷ remove i slots

abbrev keep_first : {Panic : Type 0} → Option Panic → Panic → Option Panic
keep_first none payload = some payload
keep_first (some first) payload = some first

module _ {Batch Panic : Type 0} where
  abbrev pub start : List (Result LoadFailure Batch) → List RetryAttempt → Dispatcher Batch Panic
  start chunks attempts = record {
    chunks = chunks;
    dispatched = 0;
    in_flight = [];
    source_done = false;
    halted = false;
    source_failure = none;
    writer_panic = none;
    write_failures = [];
    retry_attempts = attempts;
  }

  -- The condition of the inner `while`.
  abbrev pub can_pull : ℕ → Dispatcher Batch Panic → Bool
  can_pull window d = not d.halted && (not d.source_done && ltb (length d.in_flight) window)

  -- A pulled chunk occupies a slot at once.
  abbrev pub dispatch :
      Batch → List (Result LoadFailure Batch) → Dispatcher Batch Panic → Dispatcher Batch Panic
  dispatch batch rest d = record d {
    chunks = rest;
    dispatched = d.dispatched + 1;
    in_flight = (d.dispatched, batch) ∷ d.in_flight;
  }

  -- The inner `while`, along what the source still yields.
  unfoldable pub fill :
      ℕ → List (Result LoadFailure Batch) → Dispatcher Batch Panic → Dispatcher Batch Panic
  fill window [] d = if can_pull window d then record d { source_done = true } else d
  fill window (ok batch ∷ rest) d =
      let more = fill window rest (dispatch batch rest d) in if can_pull window d then more else d
  fill window (err failure ∷ rest) d =
      if can_pull window d
      then record d { chunks = rest; source_failure = some failure; halted = true }
      else d

  -- What the code does with a completion's outcome.
  abbrev pub settle :
      ℕ → Result (SlotFailure Panic) (Unit {0}) → Dispatcher Batch Panic → Dispatcher Batch Panic
  settle i (ok _) d = d
  settle i (err (write failure)) d = record d {
    write_failures = d.write_failures ++ (i, failure) ∷ [];
    halted = true;
  }
  settle i (err (panicked payload)) d = record d {
    writer_panic = keep_first d.writer_panic payload;
    halted = true;
  }

  unfoldable pub receive : SlotCompletion Panic → Dispatcher Batch Panic → Dispatcher Batch Panic
  unfolding remove
  receive c d = settle c.chunk_index c.outcome (record d {
    in_flight = remove c.chunk_index d.in_flight;
    retry_attempts = d.retry_attempts ++ c.attempts;
  })

-- `min_by_key` on the chunk index: the first of the least.
unfoldable pub lowest : List (ℕ × DestinationWriteFailure) → Option (ℕ × DestinationWriteFailure)
lowest [] = none
lowest ((i, failure) ∷ rest) = elim (lowest rest) [
  | none ↦ some (i, failure)
  | some (j, other) ↦ if leb i j then some (i, failure) else some (j, other)
]

-- `.map(|(_, failure)| failure.failure).or(source_failure)`
unfoldable pub surfaced :
    List (ℕ × DestinationWriteFailure) → Option LoadFailure → Option LoadFailure
unfolding lowest
surfaced write_failures source_failure = elim (lowest write_failures) [
  | none ↦ source_failure
  | some (i, failure) ↦ some failure.failure
]
