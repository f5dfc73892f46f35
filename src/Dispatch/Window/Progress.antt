-- ===== src/Dispatch/Window/Progress.antt =====
-- The filling of the window in src/dispatch.rs, and a rule for invariants of the dispatching loop.
use data_spark.Prelude.{
  ℕ, zero, suc, ◌+◌, ◌≤◌, ◌<◌, true, false, Option, some, List, [], ◌∷◌, ◌≡◌, refl, ◌⊎◌, inl, inr,
  arith, length, Bool-cases, ap,
}
use data_spark.Prelude.Outcome.{Result, ok, err}
use data_spark.Failure.{LoadFailure}
use data_spark.Dispatch.Window.{
  Dispatcher, SlotCompletion, can_pull, dispatch, fill, receive, remove,
}
use data_spark.Dispatch.Window.Loop.{window_loop, is_empty}
use data_spark.Dispatch.Window.Members.{Has, length-remove}

module _ {Batch Panic : Type 0} (window : ℕ) where
  -- Filling keeps the chunks in flight within the window, where they were within it, and does not raise
  -- the number of chunks that are at the source or in flight.
  fill_bounds :
      (chunks : List (Result LoadFailure Batch)) (d : Dispatcher Batch Panic)
      → d.chunks ≡ chunks
      → length d.in_flight ≤ window
      → let filled = fill window chunks d in
        (length filled.in_flight ≤ window)
        × (length filled.chunks + length filled.in_flight ≤ length chunks + length d.in_flight)
  unfolding fill
  fill_bounds [] d e h = ground arith
  fill_bounds (ok batch ∷ rest) d e h =
      ground (arith, fill_bounds rest (dispatch batch rest d) refl)
  fill_bounds (err failure ∷ rest) d e h = ground arith

  -- It stops because the phase is halted, the source has ended or the window is full.
  pub fill_stops :
      (chunks : List (Result LoadFailure Batch)) (d : Dispatcher Batch Panic)
      → can_pull window (fill window chunks d) ≡ false
  unfolding fill
  fill_stops [] d = ground arith
  fill_stops (ok batch ∷ rest) d = ground (arith, fill_stops rest (dispatch batch rest d))
  fill_stops (err failure ∷ rest) d = ground arith

module _ {Batch Panic : Type 0} where
  -- A receive frees the slot of its chunk and touches no other.
  pub in_flight-receive :
      (c : SlotCompletion Panic) (d : Dispatcher Batch Panic)
      → ((receive c d).in_flight ≡ remove c.chunk_index d.in_flight)
        × ((receive c d).chunks ≡ d.chunks)
  unfolding receive
  in_flight-receive c d = ground arith

-- The phase has drained, and no chunk could be pulled.
abbrev pub IsDrained : {Batch Panic : Type 0} → Dispatcher Batch Panic → Type 0
IsDrained d = (d.in_flight ≡ []) × ((d.halted ≡ true) ⊎ (d.source_done ≡ true))

module _ {S Batch Panic : Type 0} (window : ℕ)
    (next_completion : Dispatcher Batch Panic → S → SlotCompletion Panic × S) where
  -- A schedule completes only chunks that are in flight.
  abbrev pub IsSchedule : Type 0
  IsSchedule =
      (d : Dispatcher Batch Panic) (s : S)
      → is_empty d.in_flight ≡ false
      → (batch : Batch) × Has (next_completion d s).0.chunk_index batch d.in_flight

  -- Filling and receiving keep `P`.
  abbrev pub Keeps : (Dispatcher Batch Panic → Type 0) → Type 0
  Keeps P =
      ((d : Dispatcher Batch Panic) → P d → P (fill window d.chunks d))
      × ((d : Dispatcher Batch Panic) (s : S)
          → P d
          → is_empty d.in_flight ≡ false
          → P (receive (next_completion d s).0 d))

  abbrev pub Ends : (Dispatcher Batch Panic → Type 0) → Option (Dispatcher Batch Panic × S) → Type 0
  Ends P r = (d : Dispatcher Batch Panic) × (s : S) × (r ≡ some (d, s)) × P d × IsDrained d

  drained :
      (d : Dispatcher Batch Panic)
      → 1 ≤ window
      → can_pull window d ≡ false
      → is_empty d.in_flight ≡ true
      → IsDrained d
  drained d pos stop e = ground arith

  pub window_loop_inv :
      (P : Dispatcher Batch Panic → Type 0)
      → 1 ≤ window
      → IsSchedule
      → Keeps P
      → (fuel : ℕ) (d : Dispatcher Batch Panic) (s : S)
      → length d.chunks + length d.in_flight < fuel
      → length d.in_flight ≤ window
      → P d
      → Ends P (window_loop window next_completion fuel d s)
  unfolding window_loop
  window_loop_inv P pos sched keeps zero d s m b h = absurd (omega arith)
  window_loop_inv P pos sched (keep_fill, keep_receive) (suc fuel) d s m b h =
      let filled = fill window d.chunks d in
      let (bounded, shrinks) = fill_bounds window d.chunks d refl b in
      elim (Bool-cases (is_empty filled.in_flight)) [
        | inl e ↦
            (filled, s, rw (e), keep_fill d h, drained filled pos (fill_stops window d.chunks d) e)
        | inr e ↦
            let c = (next_completion filled s).0 in
            let (batch, has) = sched filled s e in
            let (flight, source) = in_flight-receive c filled in
            let gone = length-remove c.chunk_index batch filled.in_flight has in
            let fewer : length (receive c filled).in_flight + 1 ≡ length filled.in_flight =
              rw flight gone in
            let same : length (receive c filled).chunks ≡ length filled.chunks = ap length source in
            rw e (
              window_loop_inv P pos sched (keep_fill, keep_receive) fuel (receive c filled)
                (next_completion filled s).1 (omega arith) (omega arith)
                (keep_receive filled s (keep_fill d h) e))
      ]
