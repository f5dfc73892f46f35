-- ===== src/Dispatch/Window/Order.antt =====
-- How the windowed phase of src/dispatch.rs ends, against the scan of its stream.
use data_spark.Prelude.{
  ℕ, zero, suc, ◌≤◌, ◌<◌, true, false, Option, none, some, List, [], ◌∷◌, ◌≡◌, refl, sym, inl, inr,
  arith, get_elem?, length, Option-cases, subst,
}
use native.Mathlib.Nat.{add-zero}
use Prim.Native.Nat.add
use data_spark.Prelude.Outcome.{Result, ok, err, map_err}
use data_spark.Failure.{LoadFailure, DestinationWriteFailure}
use data_spark.Retry.{RetryAttempt}
use data_spark.Dispatch.Session.{Writer}
use data_spark.Dispatch.Serial.{commit_session, abandon_session}
use data_spark.Dispatch.Window.{Dispatcher, SlotCompletion, write, start, surfaced}
use data_spark.Dispatch.Window.Loop.{Ended, returned, is_empty, conclude, run_windowed_write_phase}
use data_spark.Dispatch.Window.Members.{Has, lowest-IsLowest}
use data_spark.Dispatch.Window.Progress.{IsDrained, window_loop_inv}
use data_spark.Dispatch.Window.Scan.{first_failure, Passes, Stops, first_failure-of_Stops}
use data_spark.Dispatch.Window.Invariant.{Inv, fill-Inv, receive-Inv, start-Inv}

-- A list whose elements below n are there, and none at n, has n elements.
length_of_end :
    {A B : Type 0} (n : ℕ) (xs : List (Result A B))
    → ((i : ℕ) → i < n → (b : B) × (get_elem? xs i ≡ some (ok b)))
    → get_elem? xs n ≡ none
    → n ≡ length xs
length_of_end zero [] h e = refl
length_of_end zero (x ∷ xs) h e = cc
length_of_end (suc n) [] h e = ground (arith, h 0)
length_of_end (suc n) (x ∷ xs) h e =
    omega (arith, length_of_end n xs (λ i lt. h (suc i) (omega arith)) e)

module _ {Batch Panic : Type 0}
    (write_outcome : ℕ → Batch → Result DestinationWriteFailure (Unit {0}))
    (stream : List (Result LoadFailure Batch)) where
  -- A chunk that is neither in flight nor among the failures has passed.
  passes :
      (d : Dispatcher Batch Panic) (i : ℕ)
      → Inv write_outcome stream d
      → d.in_flight ≡ []
      → i < d.dispatched
      → ((f : DestinationWriteFailure) → Has i f d.write_failures → ⊥)
      → Passes write_outcome 0 stream i
  passes d i v e lt clean =
      let (b, q) = v.pulled i lt in
      elim (v.located i b lt q) [
        | inl m ↦ absurd (subst (Has i b) e m)
        | inr (inl o) ↦ (b, q, rw add.zero o)
        | inr (inr (f, o, m)) ↦ absurd (clean f m)
      ]

  -- With nothing recorded as failed, the stream stops where the pulls stopped.
  clean_stop :
      (d : Dispatcher Batch Panic)
      → Inv write_outcome stream d
      → IsDrained d
      → d.write_failures ≡ []
      → Stops write_outcome d.dispatched (get_elem? stream d.dispatched) d.source_failure
  clean_stop d v (e, stop) w = elim (Option-cases d.source_failure) [
    | inr (f, q) ↦ rw (v.failed_pull f q, q) refl
    | inl q ↦
        let finished : d.source_done ≡ true = elim stop [
          | inl h ↦ absurd (v.halting h q w)
          | inr h ↦ h
        ] in
        let at_end : get_elem? stream d.dispatched ≡ none =
          rw add-zero at (rw ((v.ended finished).0) at (v.rest q 0)) in
        rw (at_end, q) refl
  ]

  -- A drained window surfaces the failure at the lowest position of the stream.
  surfaced-eq_first_failure :
      (d : Dispatcher Batch Panic)
      → Inv write_outcome stream d
      → IsDrained d
      → surfaced d.write_failures d.source_failure ≡ first_failure write_outcome 0 stream
  unfolding surfaced
  surfaced-eq_first_failure d v drained = elim (lowest-IsLowest d.write_failures) [
    | inl (w, e) ↦
        rw (e, surfaced)
          (sym (
            first_failure-of_Stops write_outcome d.dispatched 0 stream d.source_failure
              (λ i lt. passes d i v drained.0 lt (λ f m. subst (Has i f) w m))
              (rw add.zero (clean_stop d v drained w))))
    | inr (i, f, e, (m, least)) ↦
        let (b, lt, q, o) = v.fails i f m in
        rw (e, surfaced)
          (sym (
            first_failure-of_Stops write_outcome i 0 stream (some f.failure)
              (λ j below. passes d j v drained.0 (omega arith) (λ g h. omega (arith, least j g h)))
              (rw (add.zero, q) (f, o, refl))))
  ]

  -- A commit is reached only with every chunk of the stream written.
  all_dispatched :
      (d : Dispatcher Batch Panic)
      → Inv write_outcome stream d
      → IsDrained d
      → d.write_failures ≡ []
      → d.source_failure ≡ none
      → d.dispatched ≡ length stream
  all_dispatched d v drained w q =
      length_of_end d.dispatched stream v.pulled (at_end (clean_stop d v drained w))
    where
      no_failure :
          (o : Option (Result LoadFailure Batch))
          → Stops write_outcome d.dispatched o none
          → o ≡ none
      no_failure none stop = refl
      no_failure (some (err f)) stop = cc
      no_failure (some (ok b)) (f, e, p) = cc

      at_end :
          Stops write_outcome d.dispatched (get_elem? stream d.dispatched) d.source_failure
          → get_elem? stream d.dispatched ≡ none
      at_end stop =
          no_failure (get_elem? stream d.dispatched)
            (subst (Stops write_outcome d.dispatched _) q stop)

module _ {S Batch Panic : Type 0} (window : ℕ)
    (next_completion : Dispatcher Batch Panic → S → SlotCompletion Panic × S)
    (writer : Writer S Batch)
    (write_outcome : ℕ → Batch → Result DestinationWriteFailure (Unit {0}))
    (stream : List (Result LoadFailure Batch)) where
  -- Whichever slot in flight the schedule completes, it hands in what the write of its chunk comes
  -- to, `write_outcome`.
  abbrev pub IsDeterministic : Type 0
  IsDeterministic =
      (d : Dispatcher Batch Panic) (s : S)
      → is_empty d.in_flight ≡ false
      → let c = (next_completion d s).0 in
        (batch : Batch) × Has c.chunk_index batch d.in_flight
        × (c.outcome ≡ map_err write (write_outcome c.chunk_index batch))

  -- How the session ends, given the failure that the stream comes to.
  abbrev pub closing : Option LoadFailure → List RetryAttempt → S → Ended S Panic
  closing none log s = returned (commit_session (length stream) log (writer.commit s))
  closing (some failure) log s = returned (abandon_session writer failure log s)

  conclude_lem :
      (d : Dispatcher Batch Panic) (s : S)
      → Inv write_outcome stream d
      → IsDrained d
      → conclude writer d s
        ≡ some (closing (first_failure write_outcome 0 stream) d.retry_attempts s)
  unfolding conclude
  conclude_lem d s v drained = ground (
    arith,
    surfaced-eq_first_failure write_outcome stream d v drained,
    all_dispatched write_outcome stream d v drained,
    lowest-IsLowest d.write_failures,
  )

  -- The windowed phase over slots whose results depend on their chunks alone: it returns, for every
  -- schedule and every window of at least one slot. If the stream ends and every chunk is written,
  -- it commits and states the number of chunks of the stream; otherwise it abandons the session and
  -- surfaces the failure at the lowest position of the stream, whichever slot completed first.
  pub windowed_lem :
      (attempts : List RetryAttempt) (s : S)
      → 1 ≤ window
      → IsDeterministic
      → (log : List RetryAttempt) × (s' : S) × (run_windowed_write_phase window next_completion
            writer stream attempts s
          ≡ some (closing (first_failure write_outcome 0 stream) log s'))
  unfolding run_windowed_write_phase
  windowed_lem attempts s pos det =
      let (d, s', e, v, drained) =
        window_loop_inv window next_completion (Inv write_outcome stream) pos
          (λ d s ne. let (b, h, _) = det d s ne in (b, h))
          (
            (λ d v. fill-Inv write_outcome stream window d.chunks d refl v),
            λ d s v ne.
                let (b, h, o) = det d s ne in
                receive-Inv write_outcome stream (next_completion d s).0 b d h o v,
          )
          (suc (length stream)) (start stream attempts) s (omega arith) (omega arith)
          (start-Inv write_outcome stream attempts) in
      (d.retry_attempts, s', rw (e, run_windowed_write_phase) (conclude_lem d s' v drained))
