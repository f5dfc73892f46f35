-- ===== src/Dispatch/Window/Invariant.antt =====
-- The state of the dispatching thread against the stream it reads, when what a chunk's write comes
-- to depends on the chunk alone.
use data_spark.Prelude.{
  ℕ, suc, ◌+◌, ◌<◌, true, false, none, some, List, [], ◌∷◌, ◌++◌, ◌≡◌, ◌≢◌, refl, ◌⊎◌, inl, inr,
  arith, get_elem?, Bool-cases, subst,
}
use Prim.Native.Nat.add
use data_spark.Retry.{RetryAttempt}
use native.Mathlib.Nat.{add-zero}
use native.Mathlib.Decide.{ℕ_discrete}
use data_spark.Prelude.Outcome.{Result, ok, err, map_err}
use data_spark.Failure.{LoadFailure, DestinationWriteFailure}
use data_spark.Dispatch.Window.{
  Dispatcher, SlotCompletion, write, start, can_pull, dispatch, fill, settle, receive, remove,
}
use data_spark.Dispatch.Window.Members.{
  Has, Has-append, Has-last, Has-snoc, Has-remove, Has-of_remove,
}

module _ {Batch Panic : Type 0}
    (write_outcome : ℕ → Batch → Result DestinationWriteFailure (Unit {0}))
    (stream : List (Result LoadFailure Batch)) where
  -- Where chunk i is: in flight, written, or recorded as failed.
  abbrev pub Located : Dispatcher Batch Panic → ℕ → Batch → Type 0
  Located d i batch =
      Has i batch d.in_flight
      ⊎ (write_outcome i batch ≡ ok tt)
      ⊎ ((f : DestinationWriteFailure) × (write_outcome i batch ≡ err f) × Has i f d.write_failures)

  pub record Inv (d : Dispatcher Batch Panic) : Type 0 where
    pub rest :
        d.source_failure ≡ none
        → (k : ℕ) → get_elem? stream (d.dispatched + k) ≡ get_elem? d.chunks k
    pub failed_pull :
        (f : LoadFailure) → d.source_failure ≡ some f → get_elem? stream d.dispatched ≡ some (err f)
    pub ended : d.source_done ≡ true → (d.chunks ≡ []) × (d.source_failure ≡ none)
    pub pulled : (i : ℕ) → i < d.dispatched → (b : Batch) × (get_elem? stream i ≡ some (ok b))
    pub located :
        (i : ℕ) (b : Batch) → i < d.dispatched → get_elem? stream i ≡ some (ok b) → Located d i b
    pub flight :
        (i : ℕ) (b : Batch)
        → Has i b d.in_flight
        → (i < d.dispatched) × (get_elem? stream i ≡ some (ok b))
    pub fails :
        (i : ℕ) (f : DestinationWriteFailure)
        → Has i f d.write_failures
        → (b : Batch) × (i < d.dispatched)
          × (get_elem? stream i ≡ some (ok b))
          × (write_outcome i b ≡ err f)
    pub calm : d.writer_panic ≡ none
    pub running : d.halted ≡ false → (d.source_failure ≡ none) × (d.write_failures ≡ [])
    pub halting : d.halted ≡ true → d.source_failure ≡ none → d.write_failures ≢ []

  dispatch-Inv :
      (batch : Batch) (chunks : List (Result LoadFailure Batch)) (d : Dispatcher Batch Panic)
      → d.chunks ≡ ok batch ∷ chunks
      → d.halted ≡ false
      → d.source_done ≡ false
      → Inv d
      → Inv (dispatch batch chunks d)
  dispatch-Inv batch chunks d e h n v = record {
    rest = λ q k.
        let shift : d.dispatched + 1 + k ≡ d.dispatched + suc k = omega arith in
        rw shift (rw e at (v.rest q (suc k)));
    failed_pull = λ f q. cc ((v.running h).0);
    ended = λ q. cc;
    pulled = λ i lt. elim (ℕ_discrete i d.dispatched) [
      | yes p ↦ (batch, rw p this)
      | no p ↦ v.pulled i (omega arith)
    ];
    located = λ i b lt q. elim (ℕ_discrete i d.dispatched) [
      | yes p ↦ inl (inl (p, ground (arith, this)))
      | no p ↦ keep i b (v.located i b (omega arith) q)
    ];
    flight = λ i b m. elim m [
      | inl (p, q) ↦ (omega arith, rw (p, q) this)
      | inr m' ↦ (omega (arith, (v.flight i b m').0), (v.flight i b m').1)
    ];
    fails = λ i f m. let (b, lt, q, o) = v.fails i f m in (b, omega arith, q, o);
    calm = v.calm;
    running = v.running;
    halting = v.halting;
  }
    where
      this : get_elem? stream d.dispatched ≡ some (ok batch)
      this = rw add-zero at (rw e at (v.rest (v.running h).0 0))

      keep : (i : ℕ) (b : Batch) → Located d i b → Located (dispatch batch chunks d) i b
      keep i b (inl m) = inl (inr m)
      keep i b (inr m) = inr m

  done-Inv :
      (d : Dispatcher Batch Panic)
      → d.chunks ≡ []
      → d.halted ≡ false
      → Inv d
      → Inv (record d { source_done = true })
  done-Inv d e h v = record {
    rest = v.rest;
    failed_pull = v.failed_pull;
    ended = λ q. (e, (v.running h).0);
    pulled = v.pulled;
    located = v.located;
    flight = v.flight;
    fails = v.fails;
    calm = v.calm;
    running = v.running;
    halting = v.halting;
  }

  failed_pull-Inv :
      (failure : LoadFailure) (chunks : List (Result LoadFailure Batch))
      (d : Dispatcher Batch Panic)
      → d.chunks ≡ err failure ∷ chunks
      → d.halted ≡ false
      → d.source_done ≡ false
      → Inv d
      → Inv (record d { chunks = chunks; source_failure = some failure; halted = true })
  failed_pull-Inv failure chunks d e h n v = record {
    rest = λ q. cc;
    failed_pull = λ f q. ground (arith, this);
    ended = λ q. cc;
    pulled = v.pulled;
    located = v.located;
    flight = v.flight;
    fails = v.fails;
    calm = v.calm;
    running = λ q. cc;
    halting = λ q r. cc;
  }
    where
      this : get_elem? stream d.dispatched ≡ some (err failure)
      this = rw add-zero at (rw e at (v.rest (v.running h).0 0))

  pub fill-Inv :
      (window : ℕ) (chunks : List (Result LoadFailure Batch)) (d : Dispatcher Batch Panic)
      → d.chunks ≡ chunks
      → Inv d
      → Inv (fill window chunks d)
  unfolding fill
  fill-Inv window [] d e v = elim (Bool-cases (can_pull window d)) [
    | inl t ↦ rw t (done-Inv d e (ground arith) v)
    | inr t ↦ rw t v
  ]
  fill-Inv window (ok batch ∷ rest) d e v = elim (Bool-cases (can_pull window d)) [
    | inl t ↦ rw t (
        fill-Inv window rest (dispatch batch rest d) refl
          (dispatch-Inv batch rest d e (ground arith) (ground arith) v))
    | inr t ↦ rw t v
  ]
  fill-Inv window (err failure ∷ rest) d e v = elim (Bool-cases (can_pull window d)) [
    | inl t ↦ rw t (failed_pull-Inv failure rest d e (ground arith) (ground arith) v)
    | inr t ↦ rw t v
  ]

  -- The state after a slot has handed in what its chunk's write comes to.
  abbrev freed : ℕ → List RetryAttempt → Dispatcher Batch Panic → Dispatcher Batch Panic
  freed i attempts d = record d {
    in_flight = remove i d.in_flight;
    retry_attempts = d.retry_attempts ++ attempts;
  }

  settle-Inv :
      (i : ℕ) (batch : Batch) (attempts : List RetryAttempt)
      (r : Result DestinationWriteFailure (Unit {0})) (d : Dispatcher Batch Panic)
      → Has i batch d.in_flight
      → write_outcome i batch ≡ r
      → Inv d
      → Inv (settle i (map_err write r) (freed i attempts d))
  settle-Inv i batch attempts (ok _) d m o v = record {
    rest = v.rest;
    failed_pull = v.failed_pull;
    ended = v.ended;
    pulled = v.pulled;
    located = λ j b lt q. elim (ℕ_discrete j i) [
      | yes p ↦ inr (inl (written j b p q))
      | no p ↦ keep j b p (v.located j b lt q)
    ];
    flight = λ j b h. v.flight j b (Has-of_remove i j b d.in_flight h);
    fails = v.fails;
    calm = v.calm;
    running = v.running;
    halting = v.halting;
  }
    where
      written :
          (j : ℕ) (b : Batch) → j ≡ i → get_elem? stream j ≡ some (ok b) → write_outcome j b ≡ ok tt
      written j b p q = ground (arith, (v.flight i batch m).1)

      keep : (j : ℕ) (b : Batch) → j ≢ i → Located d j b → Located (freed i attempts d) j b
      keep j b p (inl h) = inl (Has-remove i j b d.in_flight p h)
      keep j b p (inr h) = inr h
  settle-Inv i batch attempts (err failure) d m o v = record {
    rest = v.rest;
    failed_pull = v.failed_pull;
    ended = v.ended;
    pulled = v.pulled;
    located = λ j b lt q. elim (ℕ_discrete j i) [
      | yes p ↦ inr (inr (here j b p q))
      | no p ↦ keep j b p (v.located j b lt q)
    ];
    flight = λ j b h. v.flight j b (Has-of_remove i j b d.in_flight h);
    fails = λ j f h. elim (Has-snoc j i f failure d.write_failures h) [
      | inl old ↦ v.fails j f old
      | inr (p, q) ↦ new j f p q
    ];
    calm = v.calm;
    running = λ q. cc;
    halting = λ q r e. absurd (subst (Has i failure) e (Has-last i failure d.write_failures));
  }
    where
      here :
          (j : ℕ) (b : Batch)
          → j ≡ i
          → get_elem? stream j ≡ some (ok b)
          → (f : DestinationWriteFailure) × (write_outcome j b ≡ err f)
            × Has j f (d.write_failures ++ (i, failure) ∷ [])
      here j b p q = (
        failure,
        ground (arith, (v.flight i batch m).1),
        rw p (Has-last i failure d.write_failures),
      )

      new :
          (j : ℕ) (f : DestinationWriteFailure)
          → j ≡ i
          → f ≡ failure
          → (b : Batch) × (j < d.dispatched)
            × (get_elem? stream j ≡ some (ok b))
            × (write_outcome j b ≡ err f)
      new j f p q = rw (p, q) (batch, (v.flight i batch m).0, (v.flight i batch m).1, o)

      keep :
          (j : ℕ) (b : Batch)
          → j ≢ i
          → Located d j b
          → Located (settle i (err (write failure)) (freed i attempts d)) j b
      keep j b p (inl h) = inl (Has-remove i j b d.in_flight p h)
      keep j b p (inr (inl w)) = inr (inl w)
      keep j b p (inr (inr (f, w, h))) = inr (inr (f, w, Has-append j f d.write_failures _ h))

  pub receive-Inv :
      (c : SlotCompletion Panic) (batch : Batch) (d : Dispatcher Batch Panic)
      → Has c.chunk_index batch d.in_flight
      → c.outcome ≡ map_err write (write_outcome c.chunk_index batch)
      → Inv d
      → Inv (receive c d)
  unfolding receive
  receive-Inv c batch d m e v =
      rw e
        (settle-Inv c.chunk_index batch c.attempts (write_outcome c.chunk_index batch) d m refl v)

  pub start-Inv : (attempts : List RetryAttempt) → Inv (start stream attempts)
  start-Inv attempts = record {
    rest = λ q k. rw add.zero;
    failed_pull = λ f q. cc;
    ended = λ q. cc;
    pulled = λ i lt. absurd (omega arith);
    located = λ i b lt q. absurd (omega arith);
    flight = λ i b m. absurd m;
    fails = λ i f m. absurd m;
    calm = refl;
    running = λ q. (refl, refl);
    halting = λ q. cc;
  }
