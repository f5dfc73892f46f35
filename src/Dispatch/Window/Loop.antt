-- ===== src/Dispatch/Window/Loop.antt =====
-- The outer `loop` of `run_windowed_write_phase`, and what follows the drain.
use data_spark.Prelude.{
  ℕ, zero, suc, Bool, true, false, ◌&&◌, Option, none, some, List, [], ◌∷◌, if◌then◌else◌, length,
}
use data_spark.Prelude.Outcome.{Result}
use data_spark.Failure.{LoadFailure}
use data_spark.Retry.{RetryAttempt}
use data_spark.Dispatch.Session.{Writer, PhaseRun}
use data_spark.Dispatch.Serial.{commit_session, abandon_session}
use data_spark.Dispatch.Window.{Dispatcher, SlotCompletion, start, fill, receive, surfaced}

-- How the phase ends: it returns, or it re-raises a writer's panic.
pub data Ended (S Panic : Type 0) : Type 0 where
  returned : PhaseRun S → Ended S Panic
  raised : Panic → Ended S Panic

abbrev pub is_empty : {A : Type 0} → List A → Bool
is_empty [] = true
is_empty (x ∷ xs) = false

module _ {S Batch Panic : Type 0} (window : ℕ)
    (next_completion : Dispatcher Batch Panic → S → SlotCompletion Panic × S) where
  -- One round for each unit of fuel: fill the window, then wait for one completion.
  unfoldable pub window_loop : ℕ → Dispatcher Batch Panic → S → Option (Dispatcher Batch Panic × S)
  window_loop zero d s = none
  window_loop (suc fuel) d s =
      let filled = fill window d.chunks d in
      let (completion, s') = next_completion filled s in
      let rest = window_loop fuel (receive completion filled) s' in
      if is_empty filled.in_flight then some (filled, s) else rest

abbrev is_none : {A : Type 0} → Option A → Bool
is_none none = true
is_none (some a) = false

-- After the scope: a panic first, then the commit if nothing failed, or the lowest failure. `none`
-- is the code's `expect("a halted window holds a failure")`.
unfoldable pub conclude :
    {S Batch Panic : Type 0} → Writer S Batch → Dispatcher Batch Panic → S → Option (Ended S Panic)
unfolding surfaced commit_session abandon_session
conclude writer d s = elim d.writer_panic [
  | some payload ↦ some (raised payload)
  | none ↦
      if is_empty d.write_failures && is_none d.source_failure
      then some (returned (commit_session d.dispatched d.retry_attempts (writer.commit s)))
      else elim (surfaced d.write_failures d.source_failure) [
        | none ↦ none
        | some failure ↦ some (returned (abandon_session writer failure d.retry_attempts s))
      ]
]

-- The whole phase. A round for each chunk and one more is enough fuel.
unfoldable pub run_windowed_write_phase :
    {S Batch Panic : Type 0}
    → ℕ
    → (Dispatcher Batch Panic → S → SlotCompletion Panic × S)
    → Writer S Batch
    → List (Result LoadFailure Batch)
    → List RetryAttempt
    → S
    → Option (Ended S Panic)
unfolding window_loop conclude
run_windowed_write_phase window next_completion writer chunks attempts s =
    elim (window_loop window next_completion (suc (length chunks)) (start chunks attempts) s) [
      | none ↦ none
      | some (d, s') ↦ conclude writer d s'
    ]
