-- ===== src/Dispatch/Window/Scan.antt =====
-- The failure that a write phase has to surface, read off the stream in order: a description that
-- knows neither slots nor schedules.
use data_spark.Prelude.{
  ℕ, zero, suc, ◌+◌, ◌<◌, Option, none, some, List, [], ◌∷◌, ◌≡◌, sym, arith, get_elem?,
}
use native.Mathlib.Nat.{add-zero}
use data_spark.Prelude.Outcome.{Result, ok, err}
use data_spark.Failure.{LoadFailure, DestinationWriteFailure}

module _ {Batch : Type 0}
    (write_outcome : ℕ → Batch → Result DestinationWriteFailure (Unit {0})) where
  -- The failure at the lowest position of the stream, positions counted from i: a failed pull, or
  -- a chunk whose write fails.
  abbrev pub first_failure : ℕ → List (Result LoadFailure Batch) → Option LoadFailure
  first_failure i [] = none
  first_failure i (err failure ∷ chunks) = some failure
  first_failure i (ok batch ∷ chunks) = elim (write_outcome i batch) [
    | ok _ ↦ first_failure (i + 1) chunks
    | err failure ↦ some failure.failure
  ]

  -- The chunk at position j is there and its write succeeds.
  abbrev pub Passes : ℕ → List (Result LoadFailure Batch) → ℕ → Type 0
  Passes i chunks j =
      (batch : Batch) × (get_elem? chunks j ≡ some (ok batch))
      × (write_outcome (i + j) batch ≡ ok tt)

  -- What stands at a position ends the stream, or fails with `r`.
  abbrev pub Stops : ℕ → Option (Result LoadFailure Batch) → Option LoadFailure → Type 0
  Stops n none r = r ≡ none
  Stops n (some (err failure)) r = r ≡ some failure
  Stops n (some (ok batch)) r =
      (failure : DestinationWriteFailure) × (write_outcome n batch ≡ err failure)
      × (r ≡ some failure.failure)

  pub first_failure-of_Stops :
      (m i : ℕ) (chunks : List (Result LoadFailure Batch)) (r : Option LoadFailure)
      → ((j : ℕ) → j < m → Passes i chunks j)
      → Stops (i + m) (get_elem? chunks m) r
      → first_failure i chunks ≡ r
  first_failure-of_Stops zero i [] r pass stop = cc
  first_failure-of_Stops zero i (err failure ∷ chunks) r pass stop = cc
  first_failure-of_Stops zero i (ok batch ∷ chunks) r pass (f, e, p) =
      rw (rw (add-zero i) at e, first_failure) (sym p)
  first_failure-of_Stops (suc m) i [] r pass stop = ground (arith, pass 0)
  first_failure-of_Stops (suc m) i (err failure ∷ chunks) r pass stop = ground (arith, pass 0)
  first_failure-of_Stops (suc m) i (ok batch ∷ chunks) r pass stop =
      let (b, e, o) = pass 0 (omega arith) in
      let same : write_outcome i batch ≡ ok tt = ground (arith, add-zero i) in
      let shift : i + suc m ≡ i + 1 + m = omega arith in
      rw (same, first_failure)
        (first_failure-of_Stops m (i + 1) chunks r (λ j h. later j (pass (suc j) (omega arith)))
          (rw shift at stop))
    where
      later : (j : ℕ) → Passes i (ok batch ∷ chunks) (suc j) → Passes (i + 1) chunks j
      later j (b, e, o) = let shift : i + suc j ≡ i + 1 + j = omega arith in (b, e, rw shift at o)
