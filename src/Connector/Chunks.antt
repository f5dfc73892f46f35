-- ===== src/Connector/Chunks.antt =====
-- The second pass over a source, in src/connector.rs: `PassOneExpectations`, and the chunk iterators
-- `CsvChunks` and `JsonlChunks`, whose loops differ in the body of a turn alone (Turns).
pub mod Cut
pub mod Layout
pub mod Turns
use data_spark.Prelude.{
  ℕ, zero, suc, ◌+◌, String, Bool, true, false, not, ◌&&◌, ◌||◌, Option, none, some, List, [], ◌∷◌,
  ◌++◌, length, ◌==◌, if◌then◌else◌,
}
use data_spark.Prelude.Outcome.{Result, ok, err}
use data_spark.Prelude.Text.{show, join}
use data_spark.Failure.{LoadFailure}
use data_spark.Schema.TypeName.{Bytes}
use data_spark.Connector.Hash.{update}

unfoldable pub source_changed : String → String → LoadFailure
unfolding join
source_changed path detail = record {
  code = "source_changed_during_load";
  message = join "" ("source " ∷ path ∷ " changed during the load: " ∷ detail ∷ []);
}

pub data RecordDisposition : Type 0 where
  survives skips : RecordDisposition

-- What the first pass saw; the set of rejected lines is a list.
pub record PassOneExpectations : Type 0 where
  pub rejected_lines : List ℕ
  pub records : ℕ
  pub hash : ℕ

unfoldable pub contains_line : ℕ → List ℕ → Bool
contains_line line [] = false
contains_line line (l ∷ lines) = l == line || contains_line line lines

module _ (path : String) (expectations : PassOneExpectations) where
  abbrev disposition : ℕ → Bool → Bool → Result LoadFailure RecordDisposition
  disposition line true true = ok RecordDisposition.skips
  disposition line false false = ok RecordDisposition.survives
  disposition line _ _ = err (
      source_changed path (
        join ""
          ("the record at line " ∷ show line ∷ " no longer matches its first-pass outcome" ∷ [])))

  unfoldable pub cross_check : ℕ → Bool → Result LoadFailure RecordDisposition
  unfolding contains_line
  cross_check line rejected_now =
      disposition line rejected_now (contains_line line expectations.rejected_lines)

  unfoldable pub verify_end_of_input : ℕ → ℕ → Result LoadFailure Unit
  unfolding show join
  verify_end_of_input seen hash =
      if not (seen == expectations.records)
      then err (
          source_changed path (
            join "" (
              "it now has " ∷ show seen ∷ " records instead of " ∷ show expectations.records ∷ [])))
      else if not (hash == expectations.hash)
      then err (source_changed path "its bytes no longer match the first pass")
      else ok tt

-- What the body of the reading loop makes of one item: a read error, a blank line, or a record that
-- counts, with its cross check: a failure, nothing, or a survivor.
pub data Turn (R : Type 0) : Type 0 where
  broken : LoadFailure → Turn R
  blank : Turn R
  counted : Result LoadFailure (Option R) → Turn R

-- The items to read, the hash of the bytes read, the records seen, and whether a chunk has gone out.
pub record Reading (I : Type 0) : Type 0 where
  pub items : List I
  pub hash : ℕ
  pub seen : ℕ
  pub yielded_any : Bool

-- `ChunkPhase`, with the reading that the stream holds in that phase
pub data ChunkPhase (I : Type 0) : Type 0 where
  not_started done : ChunkPhase I
  streaming final_check : Reading I → ChunkPhase I

-- How the reading of one chunk's survivors ends.
pub data Filled (I R : Type 0) : Type 0 where
  stopped : LoadFailure → Filled I R
  full ended : List R → Reading I → Filled I R

-- The survivors and the records seen after one turn.
abbrev pub after_turn : {R : Type 0} → ℕ → List R → Turn R → Result LoadFailure (ℕ × List R)
after_turn seen survivors (Turn.broken failure) = err failure
after_turn seen survivors Turn.blank = ok (seen, survivors)
after_turn seen survivors (Turn.counted (err failure)) = err failure
after_turn seen survivors (Turn.counted (ok none)) = ok (suc seen, survivors)
after_turn seen survivors (Turn.counted (ok (some r))) = ok (suc seen, survivors ++ r ∷ [])

abbrev pub is_empty : {R : Type 0} → List R → Bool
is_empty [] = true
is_empty (r ∷ rs) = false

-- A stream: the bytes of an item, the body of a turn, the building of a chunk's batch, what opening
-- the source gives, what the first pass expects, and the rows of a chunk.
pub record Stream (I R B : Type 0) : Type 0 where
  pub raw : I → Bytes
  pub turn : I → Turn R
  pub build : List R → Result LoadFailure B
  pub opened : Result LoadFailure (Reading I)
  pub path : String
  pub expectations : PassOneExpectations
  pub chunk_rows : ℕ

module _ {I R B : Type 0} (s : Stream I R B) where
  -- The inner loop of `next_chunk`.
  unfoldable pub fill : List I → ℕ → ℕ → Bool → List R → Filled I R
  unfolding update
  fill [] hash seen yielded_any survivors =
      Filled.ended survivors
        (record { items = []; hash = hash; seen = seen; yielded_any = yielded_any })
  fill (i ∷ items) hash seen yielded_any survivors = elim (after_turn seen survivors (s.turn i)) [
    | err failure ↦ Filled.stopped failure
    | ok (now_seen, now_survivors) ↦ elim (length now_survivors == s.chunk_rows) [
      | true ↦ Filled.full now_survivors (record {
        items = items;
        hash = update hash (s.raw i);
        seen = now_seen;
        yielded_any = true;
      })
      | false ↦ fill items (update hash (s.raw i)) now_seen yielded_any now_survivors
    ]
  ]

  -- `map(Some)`
  abbrev pub some_batch : Result LoadFailure B → Result LoadFailure (Option B)
  some_batch (ok b) = ok (some b)
  some_batch (err failure) = err failure

  -- The verdict of the end of the input, with `?` and `Ok(None)`.
  abbrev pub no_batch : Result LoadFailure Unit → Result LoadFailure (Option B)
  no_batch (ok _) = ok none
  no_batch (err failure) = err failure

  abbrev pub batch : List R → Result LoadFailure (Option B)
  batch survivors = some_batch (s.build survivors)

  -- The turn of `next_chunk` in its final check.
  abbrev pub checked : Reading I → Result LoadFailure (Option B)
  checked reading = no_batch (verify_end_of_input s.path s.expectations reading.seen reading.hash)

  -- The turn of `next_chunk` after its inner loop.
  abbrev pub filled_chunk : Reading I → Filled I R → Result LoadFailure (Option B) × ChunkPhase I
  filled_chunk reading (Filled.stopped failure) = (err failure, ChunkPhase.streaming reading)
  filled_chunk reading (Filled.full survivors rest) = (batch survivors, ChunkPhase.streaming rest)
  filled_chunk reading (Filled.ended survivors rest) =
      if is_empty survivors && rest.yielded_any
      then (checked rest, ChunkPhase.done)
      else (batch survivors, ChunkPhase.final_check (record rest { yielded_any = true }))

  abbrev pub stream_chunk : Reading I → Result LoadFailure (Option B) × ChunkPhase I
  stream_chunk reading =
      filled_chunk reading (fill reading.items reading.hash reading.seen reading.yielded_any [])

  -- The turn of `next_chunk` that opens the source, and the one after it.
  abbrev pub opened_chunk :
      Result LoadFailure (Reading I) → Result LoadFailure (Option B) × ChunkPhase I
  opened_chunk (err failure) = (err failure, ChunkPhase.not_started)
  opened_chunk (ok reading) = stream_chunk reading

  unfoldable pub next_chunk : ChunkPhase I → Result LoadFailure (Option B) × ChunkPhase I
  unfolding fill
  next_chunk ChunkPhase.done = (ok none, ChunkPhase.done)
  next_chunk ChunkPhase.not_started = opened_chunk s.opened
  next_chunk (ChunkPhase.final_check reading) = (checked reading, ChunkPhase.done)
  next_chunk (ChunkPhase.streaming reading) = stream_chunk reading

  -- What the iterator gives for a result of `next_chunk`: a failure ends the stream.
  abbrev pub item_of :
      Result LoadFailure (Option B) × ChunkPhase I → Option (Result LoadFailure B) × ChunkPhase I
  item_of (ok (some b), phase) = (some (ok b), phase)
  item_of (ok none, phase) = (none, phase)
  item_of (err failure, phase) = (some (err failure), ChunkPhase.done)

  -- `Iterator::next`
  unfoldable pub next : ChunkPhase I → Option (Result LoadFailure B) × ChunkPhase I
  unfolding next_chunk
  next phase = item_of (next_chunk phase)

  -- What a consumer gets that calls `next` until it returns `None`, at most `fuel` times.
  unfoldable pub drain : ℕ → ChunkPhase I → List (Result LoadFailure B)
  unfolding next
  drain zero phase = []
  drain (suc fuel) phase =
      let (item, rest) = next phase in
      elim item [ none ↦ [] | some result ↦ result ∷ drain fuel rest ]
