-- ===== src/Connector/Chunks/Layout.antt =====
-- What a whole second pass gives: the survivors cut into chunks, then how the pass ends.
use data_spark.Prelude.{
  ℕ, zero, suc, ◌+◌, ◌≤◌, ◌<◌, Bool, true, false, ◌&&◌, Option, none, some, List, [], ◌∷◌, ◌++◌,
  ◌≡◌, refl, ap, ◌∙◌, length, ◌==◌, if◌then◌else◌, arith, Bool-cases, inl, inr,
}
use data_spark.Prelude.Outcome.{Result, ok, err}
use data_spark.Failure.{LoadFailure}
use data_spark.Connector.Hash.{update}
use data_spark.Connector.Chunks.Cut.{cut, not_full}
use data_spark.Connector.Chunks.{
  Turn, Reading, ChunkPhase, Filled, Stream, is_empty, item_of, no_batch, some_batch, filled_chunk,
  opened_chunk, fill, next_chunk, drain, verify_end_of_input,
}

-- What is read before the first failure: the survivors, how many records count, and the failure.
unfoldable pub scan : {R : Type 0} → List (Turn R) → List R × ℕ × Option LoadFailure
scan [] = ([], 0, none)
scan (Turn.broken failure ∷ turns) = ([], 0, some failure)
scan (Turn.blank ∷ turns) = scan turns
scan (Turn.counted (err failure) ∷ turns) = ([], 0, some failure)
scan (Turn.counted (ok none) ∷ turns) =
    let (survivors, count, failure) = scan turns in (survivors, suc count, failure)
scan (Turn.counted (ok (some r)) ∷ turns) =
    let (survivors, count, failure) = scan turns in (r ∷ survivors, suc count, failure)

<→≠ : (a b : ℕ) → a < b → (a == b) ≡ false
<→≠ a b h = ground arith

+-zero : (a : ℕ) → a + 0 ≡ a
+-zero a = omega arith

+-suc : (a b : ℕ) → a + suc b ≡ suc a + b
+-suc a b = omega arith

module _ {I R B : Type 0} (s : Stream I R B) where
  -- A failed chunk is the last result.
  abbrev pub followed_by :
      Result LoadFailure B → List (Result LoadFailure B) → List (Result LoadFailure B)
  followed_by (ok b) rest = ok b ∷ rest
  followed_by (err failure) rest = err failure ∷ []

  -- The results after the whole chunks: those of an incomplete chunk are lost to a failure; else it
  -- goes out, or an empty one where none has, and then the verdict of the end of the input.
  abbrev pub close :
      List R → Bool → Option LoadFailure → List (Result LoadFailure B) → List (Result LoadFailure B)
  close left yielded_any (some failure) verdict = err failure ∷ []
  close left yielded_any none verdict =
      if is_empty left && yielded_any then verdict else followed_by (s.build left) verdict

  unfoldable pub layout :
      List (List R)
      → List R
      → Bool
      → Option LoadFailure
      → List (Result LoadFailure B)
      → List (Result LoadFailure B)
  layout [] left yielded_any failure verdict = close left yielded_any failure verdict
  layout (chunk ∷ chunks) left yielded_any failure verdict =
      followed_by (s.build chunk) (layout chunks left true failure verdict)

  abbrev verdict_of : Result LoadFailure Unit → List (Result LoadFailure B)
  verdict_of (ok _) = []
  verdict_of (err failure) = err failure ∷ []

  -- What the end of the input gives, from the records and the bytes of the whole source.
  abbrev pub verdict : ℕ → ℕ → List (Result LoadFailure B)
  verdict seen hash = verdict_of (verify_end_of_input s.path s.expectations seen hash)

  unfoldable pub turns : List I → List (Turn R)
  turns [] = []
  turns (i ∷ items) = s.turn i ∷ turns items

  unfoldable pub hash_all : ℕ → List I → ℕ
  hash_all hash [] = hash
  hash_all hash (i ∷ items) = hash_all (update hash (s.raw i)) items

  drain-done : (fuel : ℕ) → drain s fuel ChunkPhase.done ≡ []
  unfolding drain
  drain-done zero = refl
  drain-done (suc fuel) = refl

  -- What the stream gives after an inner loop.
  abbrev emitted : ℕ → Filled I R → List (Result LoadFailure B)
  emitted fuel (Filled.stopped failure) = err failure ∷ []
  emitted fuel (Filled.full survivors rest) =
      followed_by (s.build survivors) (drain s fuel (ChunkPhase.streaming rest))
  emitted fuel (Filled.ended survivors rest) =
      if is_empty survivors && rest.yielded_any
      then verdict rest.seen rest.hash
      else followed_by (s.build survivors)
          (drain s fuel (ChunkPhase.final_check (record rest { yielded_any = true })))

  -- What the consumer gets from a result of `next_chunk` on.
  abbrev drained : ℕ → Result LoadFailure (Option B) × ChunkPhase I → List (Result LoadFailure B)
  drained fuel m =
      let (item, rest) = item_of s m in
      elim item [ none ↦ [] | some result ↦ result ∷ drain s fuel rest ]

  drain-drained :
      (fuel : ℕ) (phase : ChunkPhase I)
      → drain s (suc fuel) phase ≡ drained fuel (next_chunk s phase)
  unfolding drain
  drain-drained fuel phase = refl

  drained-verdict :
      (fuel : ℕ) (v : Result LoadFailure Unit)
      → drained fuel (no_batch s v, ChunkPhase.done) ≡ verdict_of v
  drained-verdict fuel (ok _) = refl
  drained-verdict fuel (err failure) = ap (λ rest. err failure ∷ rest) (drain-done fuel)

  drained-batch :
      (fuel : ℕ) (built : Result LoadFailure B) (phase : ChunkPhase I)
      → drained fuel (some_batch s built, phase) ≡ followed_by built (drain s fuel phase)
  drained-batch fuel (ok b) phase = refl
  drained-batch fuel (err failure) phase = ap (λ rest. err failure ∷ rest) (drain-done fuel)

  drain-final_check :
      (fuel : ℕ) (rest : Reading I)
      → drain s (suc fuel) (ChunkPhase.final_check rest) ≡ verdict rest.seen rest.hash
  unfolding next_chunk
  drain-final_check fuel rest =
      drain-drained fuel (ChunkPhase.final_check rest)
      ∙ drained-verdict fuel (verify_end_of_input s.path s.expectations rest.seen rest.hash)

  drained-filled :
      (fuel : ℕ) (r : Reading I) (f : Filled I R)
      → drained fuel (filled_chunk s r f) ≡ emitted fuel f
  drained-filled fuel r (Filled.stopped failure) = ap (λ rest. err failure ∷ rest) (drain-done fuel)
  drained-filled fuel r (Filled.full survivors rest) =
      drained-batch fuel (s.build survivors) (ChunkPhase.streaming rest)
  drained-filled fuel r (Filled.ended survivors rest) =
      elim (Bool-cases (is_empty survivors && rest.yielded_any)) [
        | inl t ↦
            rw
              (
                t,
                drained-verdict fuel
                    (verify_end_of_input s.path s.expectations rest.seen rest.hash),
              )
              refl
        | inr f ↦
            rw
              (
                f,
                drained-batch fuel (s.build survivors)
                    (ChunkPhase.final_check (record rest { yielded_any = true })),
              )
              refl
      ]

  drain-streaming :
      (fuel : ℕ) (r : Reading I)
      → drain s (suc fuel) (ChunkPhase.streaming r)
        ≡ emitted fuel (fill s r.items r.hash r.seen r.yielded_any [])
  unfolding next_chunk
  drain-streaming fuel r =
      drain-drained fuel (ChunkPhase.streaming r)
      ∙ drained-filled fuel r (fill s r.items r.hash r.seen r.yielded_any [])

  -- The layout of what is still to be read.
  abbrev pub laid_out : List I → ℕ → ℕ → Bool → List R → List (Result LoadFailure B)
  laid_out items hash seen yielded_any survivors =
      let (found, count, failure) = scan (turns items) in
      let (chunks, left) = cut s.chunk_rows survivors found in
      layout chunks left yielded_any failure (verdict (seen + count) (hash_all hash items))

  abbrev IsLaidOut : List I → Type 0
  IsLaidOut items =
      (hash seen : ℕ) (yielded_any : Bool) (survivors : List R) (fuel : ℕ)
      → length items + 1 ≤ fuel
      → length survivors < s.chunk_rows
      → emitted fuel (fill s items hash seen yielded_any survivors)
        ≡ laid_out items hash seen yielded_any survivors

  emitted-nil : IsLaidOut []
  unfolding fill scan turns cut layout hash_all
  emitted-nil hash seen yielded_any survivors zero h short = absurd (omega arith)
  emitted-nil hash seen yielded_any survivors (suc fuel) h short = rw (+-zero seen) (
      ap
        (λ rest.
          if is_empty survivors && yielded_any
          then verdict seen hash
          else followed_by (s.build survivors) rest)
        (drain-final_check fuel
          (record { items = []; hash = hash; seen = seen; yielded_any = true })))

  after_full :
      (items : List I) (hash seen fuel : ℕ)
      → IsLaidOut items
      → length items + 2 ≤ fuel
      → 0 < s.chunk_rows
      → drain s fuel (
          ChunkPhase.streaming
            (record { items = items; hash = hash; seen = seen; yielded_any = true }))
        ≡ laid_out items hash seen true []
  after_full items hash seen zero ih h positive = absurd (omega arith)
  after_full items hash seen (suc fuel) ih h positive =
      drain-streaming fuel (record { items = items; hash = hash; seen = seen; yielded_any = true })
      ∙ ih hash seen true [] fuel (omega arith) positive

  emitted-cons :
      (i : I) (items : List I) (t : Turn R) → s.turn i ≡ t → IsLaidOut items → IsLaidOut (i ∷ items)
  unfolding fill scan turns cut layout hash_all
  emitted-cons i items (Turn.broken failure) e ih hash seen yielded_any survivors fuel h short =
      rw (e, fill, scan) refl
  emitted-cons i items Turn.blank e ih hash seen yielded_any survivors fuel h short =
      rw (e, fill, scan, <→≠ (length survivors) s.chunk_rows short)
        (ih (update hash (s.raw i)) seen yielded_any survivors fuel (omega arith) short)
  emitted-cons i items (Turn.counted (err failure)) e ih hash seen yielded_any survivors fuel h
        short =
      rw (e, fill, scan) refl
  emitted-cons i items (Turn.counted (ok none)) e ih hash seen yielded_any survivors fuel h short =
      rw
        (
          e,
          fill,
          scan,
          <→≠ (length survivors) s.chunk_rows short,
          +-suc seen (scan (turns items)).1,
        )
        (ih (update hash (s.raw i)) (suc seen) yielded_any survivors fuel (omega arith) short)
  emitted-cons i items (Turn.counted (ok (some r))) e ih hash seen yielded_any survivors fuel h
        short =
      elim (Bool-cases (length (survivors ++ r ∷ []) == s.chunk_rows)) [
        | inl t ↦
            rw (e, fill, scan, cut, t, +-suc seen (scan (turns items)).1)
              (ap (λ rest. followed_by (s.build (survivors ++ r ∷ [])) rest)
                (after_full items (update hash (s.raw i)) (suc seen) fuel ih (omega arith)
                  (omega arith)))
        | inr f ↦
            rw (e, fill, scan, cut, f, +-suc seen (scan (turns items)).1)
              (ih (update hash (s.raw i)) (suc seen) yielded_any (survivors ++ r ∷ []) fuel
                (omega arith) (not_full survivors r s.chunk_rows short f))
      ]

  emitted-all : (items : List I) → IsLaidOut items
  emitted-all [] = emitted-nil
  emitted-all (i ∷ items) = emitted-cons i items (s.turn i) refl (emitted-all items)

  -- Draining a second pass whose source opens gives exactly the survivors before the first failure,
  -- cut into chunks of `chunk_rows`, each built; then the failure, or else the incomplete chunk (an
  -- empty one where no chunk went out) and the verdict on the records and the bytes of the whole
  -- source. A chunk that cannot be built is the last result. Two calls more than there are items are
  -- enough to get all of it. The chunk size is positive.
  pub drain_lem :
      (items : List I) (hash fuel : ℕ)
      → s.opened ≡ ok (record { items = items; hash = hash; seen = 0; yielded_any = false })
      → 0 < s.chunk_rows
      → length items + 2 ≤ fuel
      → drain s fuel ChunkPhase.not_started ≡ laid_out items hash 0 false []
  unfolding next_chunk
  drain_lem items hash zero e positive h = absurd (omega arith)
  drain_lem items hash (suc fuel) e positive h =
      drain-drained fuel ChunkPhase.not_started
      ∙ ap (λ o. drained fuel (opened_chunk s o)) e
      ∙ drained-filled fuel (record { items = items; hash = hash; seen = 0; yielded_any = false })
          (fill s items hash 0 false [])
      ∙ emitted-all items hash 0 false [] fuel (omega arith) positive
