-- ===== src/Rejection/Order.antt =====
-- The artifact file, the counters and the line order of the rejection sink of src/rejection.rs.
use mathlib.Core.List.Permᴰ
use mathlib.Core.List.{Perm, Permᴰ, filter_map}
use data_spark.Prelude.{map-append}
use data_spark.Prelude.{
  ℕ, ◌+◌, ◌≤◌, true, false, Option, none, some, List, [], ◌∷◌, ◌++◌, map, ◌≡◌, refl, sym, ap, ◌∙◌,
  subst, All, All-append, leb, ◌==◌, length, length-map, length-append, arith, Bool-cases,
  Option-cases, inl, inr,
}
use data_spark.Prelude.Outcome.{ok}
use data_spark.Json.{Value}
use data_spark.Schema.Record.{JsonRecord, RejectedRecord, artifact_value}
use data_spark.Rejection.{
  RejectionSink, ValidationSpill, contents, record_rejection, line_of, artifact_lines,
  spill_rejections, entry_of, merge_loop, installed, merge_spill, merged_file,
}

-- The lines do not decrease, from `low` on.
abbrev pub IsOrderedFrom : ℕ → List ℕ → Type 0
IsOrderedFrom low [] = Unit
IsOrderedFrom low (line ∷ lines) = (low ≤ line) × IsOrderedFrom line lines

abbrev pub lines_of : List (ℕ × Value) → List ℕ
lines_of entries = map (λ l. l.0) entries

abbrev pub rejected_lines_of : List RejectedRecord → List ℕ
rejected_lines_of [] = []
rejected_lines_of (r ∷ rs) = r.line ∷ rejected_lines_of rs

merge_loop-IsOrderedFrom :
    (low : ℕ) (artifact : List (ℕ × Value)) (spill : List RejectedRecord)
    → IsOrderedFrom low (lines_of artifact)
    → IsOrderedFrom low (rejected_lines_of spill)
    → IsOrderedFrom low (lines_of (merge_loop artifact spill))
unfolding merge_loop
merge_loop-IsOrderedFrom low [] [] ha hs = tt
merge_loop-IsOrderedFrom low (a ∷ artifact) [] ha hs =
    (ha.0, merge_loop-IsOrderedFrom a.0 artifact [] ha.1 tt)
merge_loop-IsOrderedFrom low [] (r ∷ spill) ha hs =
    (hs.0, merge_loop-IsOrderedFrom r.line [] spill tt hs.1)
merge_loop-IsOrderedFrom low (a ∷ artifact) (r ∷ spill) ha hs = elim (Bool-cases (leb a.0 r.line)) [
  | inl t ↦
      rw (t, merge_loop)
        (ha.0, merge_loop-IsOrderedFrom a.0 artifact (r ∷ spill) ha.1 (ground arith, hs.1))
  | inr f ↦
      rw (f, merge_loop)
        (hs.0, merge_loop-IsOrderedFrom r.line (a ∷ artifact) spill (ground arith, ha.1) hs.1)
]

-- Each entry has the line number that its value states.
abbrev IsPositioned : ℕ × Value → Type 0
IsPositioned entry = line_of entry.1 ≡ some entry.0

entry_of-IsPositioned : (r : RejectedRecord) → IsPositioned (entry_of r)
unfolding line_of artifact_value
entry_of-IsPositioned r = refl

merge_loop-Positioned :
    (artifact : List (ℕ × Value)) (spill : List RejectedRecord)
    → All IsPositioned artifact
    → All IsPositioned (merge_loop artifact spill)
unfolding merge_loop
merge_loop-Positioned [] [] h = tt
merge_loop-Positioned (a ∷ artifact) [] h = (h.0, merge_loop-Positioned artifact [] h.1)
merge_loop-Positioned [] (r ∷ spill) h = (entry_of-IsPositioned r, merge_loop-Positioned [] spill h)
merge_loop-Positioned (a ∷ artifact) (r ∷ spill) h = elim (Bool-cases (leb a.0 r.line)) [
  | inl t ↦ rw (t, merge_loop) (h.0, merge_loop-Positioned artifact (r ∷ spill) h.1)
  | inr f ↦
      rw (f, merge_loop) (entry_of-IsPositioned r, merge_loop-Positioned (a ∷ artifact) spill h)
]

artifact_lines-of :
    (entries : List (ℕ × Value))
    → All IsPositioned entries
    → artifact_lines (map (λ l. l.1) entries) ≡ ok entries
unfolding artifact_lines
artifact_lines-of [] h = refl
artifact_lines-of (entry ∷ entries) h = rw (h.0, artifact_lines-of entries h.1, artifact_lines) refl

-- The sink has no error, its artifact holds the entries of its lines, and it counts them.
abbrev pub IsFaithful : RejectionSink → Type 0
IsFaithful sink =
    (sink.io_error ≡ none)
    × (sink.count ≡ length sink.lines)
    × ((entries : List (ℕ × Value)) × (contents sink.artifact ≡ map (λ l. l.1) entries)
        × All IsPositioned entries
        × (lines_of entries ≡ sink.lines))

-- What a clean sink is after a rejection that the file system takes.
abbrev pub recorded : RejectedRecord → RejectionSink → RejectionSink
recorded rejected sink = record {
  artifact = some (contents sink.artifact ++ artifact_value rejected ∷ []);
  count = sink.count + 1;
  lines = sink.lines ++ rejected.line ∷ [];
  io_error = none;
}

pub record_rejection-clean :
    (rejected : RejectedRecord) (sink : RejectionSink)
    → sink.io_error ≡ none
    → record_rejection none rejected sink ≡ recorded rejected sink
unfolding record_rejection
record_rejection-clean rejected sink clean = ground arith

-- Recording a rejection that the file system takes keeps the artifact in step with the counters, and
-- adds the rejection's line as the last one.
pub record_rejection-IsFaithful :
    (rejected : RejectedRecord) (sink : RejectionSink)
    → IsFaithful sink
    → IsFaithful (record_rejection none rejected sink)
      × ((record_rejection none rejected sink).lines ≡ sink.lines ++ rejected.line ∷ [])
unfolding record_rejection
record_rejection-IsFaithful rejected sink (clean, counted, (entries, held, positioned, lines)) =
    rw (record_rejection-clean rejected sink clean) (
      (
        refl,
        omega (arith, length-append sink.lines (rejected.line ∷ [])),
        (
          entries ++ entry_of rejected ∷ [],
          ap (λ values. values ++ artifact_value rejected ∷ []) held
              ∙ sym (map-append (λ l. l.1) entries (entry_of rejected ∷ [])),
          All-append IsPositioned entries (entry_of rejected ∷ []) positioned
              (entry_of-IsPositioned rejected, tt),
          map-append (λ l. l.0) entries (entry_of rejected ∷ [])
              ∙ ap (λ seen. seen ++ rejected.line ∷ []) lines,
        ),
      ),
      refl,
    )

merge_loop-length :
    (artifact : List (ℕ × Value)) (spill : List RejectedRecord)
    → length (merge_loop artifact spill) ≡ length artifact + length spill
unfolding merge_loop
merge_loop-length [] [] = omega arith
merge_loop-length (a ∷ artifact) [] = omega (arith, merge_loop-length artifact [])
merge_loop-length [] (r ∷ spill) = omega (arith, merge_loop-length [] spill)
merge_loop-length (a ∷ artifact) (r ∷ spill) = elim (Bool-cases (leb a.0 r.line)) [
  | inl t ↦ rw (t, merge_loop) (omega (arith, merge_loop-length artifact (r ∷ spill)))
  | inr f ↦ rw (f, merge_loop) (omega (arith, merge_loop-length (a ∷ artifact) spill))
]

contents-merged_file :
    (merged : List (ℕ × Value)) → contents (merged_file merged) ≡ map (λ l. l.1) merged
contents-merged_file [] = refl
contents-merged_file (m ∷ merged) = refl

installed-IsFaithful :
    (sink : RejectionSink) (merged : List (ℕ × Value))
    → sink.io_error ≡ none
    → All IsPositioned merged
    → IsFaithful (installed merged sink)
unfolding installed
installed-IsFaithful sink merged clean positioned = (
  clean,
  sym (length-map (λ l. l.0) merged),
  (merged, contents-merged_file merged, positioned, refl),
)

-- What the merge makes of a clean sink that holds these entries.
merge_spill-clean :
    (render : JsonRecord → Option RejectedRecord) (spill : ValidationSpill) (sink : RejectionSink)
    (entries : List (ℕ × Value))
    → sink.io_error ≡ none
    → spill.io_error ≡ none
    → (spill.entries == 0) ≡ false
    → artifact_lines (contents sink.artifact) ≡ ok entries
    → merge_spill none none render spill sink
      ≡ installed (merge_loop entries (spill_rejections render spill.written)) sink
unfolding merge_spill
merge_spill-clean render spill sink entries clean whole busy read = ground arith

merge_spill-idle :
    (render : JsonRecord → Option RejectedRecord) (spill : ValidationSpill) (sink : RejectionSink)
    → sink.io_error ≡ none
    → spill.io_error ≡ none
    → (spill.entries == 0) ≡ true
    → merge_spill none none render spill sink ≡ record sink { io_error = none }
unfolding merge_spill
merge_spill-idle render spill sink clean whole idle = ground arith

-- What the entries of the spill are rendered to.
spill_rejections-eq_filter_map :
    (render : JsonRecord → Option RejectedRecord) (rows : List JsonRecord)
    → filter_map render rows ≡ spill_rejections render rows
unfolding spill_rejections filter_map
spill_rejections-eq_filter_map render [] = refl
spill_rejections-eq_filter_map render (row ∷ rows) = elim (Option-cases (render row)) [
  | inl e ↦ rw (e, filter_map, spill_rejections) (spill_rejections-eq_filter_map render rows)
  | inr (rejection, e) ↦
      rw (e, filter_map, spill_rejections)
        (ap (λ rest. rejection ∷ rest) (spill_rejections-eq_filter_map render rows))
]

-- Merging leaves out no line and adds none.
merge_loop-Permᴰ :
    (artifact : List (ℕ × Value)) (spill : List RejectedRecord)
    → Permᴰ
        (map (λ l. l.1) (merge_loop artifact spill))
        (map (λ l. l.1) artifact ++ map artifact_value spill)
unfolding merge_loop
merge_loop-Permᴰ [] [] = Permᴰ.nil
merge_loop-Permᴰ (a ∷ artifact) [] = Permᴰ.cons refl (merge_loop-Permᴰ artifact [])
merge_loop-Permᴰ [] (r ∷ spill) = Permᴰ.cons refl (merge_loop-Permᴰ [] spill)
merge_loop-Permᴰ (a ∷ artifact) (r ∷ spill) = elim (Bool-cases (leb a.0 r.line)) [
  | inl t ↦ rw (t, merge_loop) (Permᴰ.cons refl (merge_loop-Permᴰ artifact (r ∷ spill)))
  | inr f ↦
      rw (f, merge_loop)
        (Permᴰ.trans (Permᴰ.cons refl (merge_loop-Permᴰ (a ∷ artifact) spill)) (
          Permᴰ.symm (
            Permᴰ.middle (artifact_value r) (map (λ l. l.1) (a ∷ artifact))
              (map artifact_value spill))))
]

nothing_written :
    (render : JsonRecord → Option RejectedRecord) (rows : List JsonRecord)
    → length rows ≡ 0
    → spill_rejections render rows ≡ []
unfolding spill_rejections
nothing_written render [] h = refl
nothing_written render (row ∷ rows) h = absurd (omega arith)

-- The sink after a merge: it is in step with its artifact, which has the lines of both, in the
-- order of the source.
abbrev pub IsMerged : List RejectedRecord → RejectionSink → RejectionSink → Type 0
IsMerged rejections sink merged =
    IsFaithful merged
    × IsOrderedFrom 0 merged.lines
    × Perm (contents merged.artifact) (contents sink.artifact ++ map artifact_value rejections)
    × (merged.count ≡ sink.count + length rejections)

merge_spill-IsMerged :
    (render : JsonRecord → Option RejectedRecord) (spill : ValidationSpill) (sink : RejectionSink)
    → IsFaithful sink
    → spill.io_error ≡ none
    → spill.entries ≡ length spill.written
    → IsOrderedFrom 0 sink.lines
    → IsOrderedFrom 0 (rejected_lines_of (spill_rejections render spill.written))
    → IsMerged
        (spill_rejections render spill.written)
        sink
        (merge_spill none none render spill sink)
merge_spill-IsMerged render spill sink (clean, counted, (entries, held, positioned, lines)) whole
      all ordered_sink ordered_spill =
    let rejections = spill_rejections render spill.written in
    elim (Bool-cases (spill.entries == 0)) [
      | inl idle ↦
          let nothing = nothing_written render spill.written (ground arith) in
          rw (merge_spill-idle render spill sink clean whole idle, nothing)
            (
              (refl, counted, (entries, held, positioned, lines)),
              ordered_sink,
              ∣ Permᴰ.symm (Permᴰ.append-nil (contents sink.artifact)) ∣₁,
              omega arith,
            )
      | inr busy ↦
          let merged = merge_loop entries rejections in
          let read : artifact_lines (contents sink.artifact) ≡ ok entries =
            ap artifact_lines held ∙ artifact_lines-of entries positioned in
          rw (merge_spill-clean render spill sink entries clean whole busy read) (
            installed-IsFaithful sink merged clean
                (merge_loop-Positioned entries rejections positioned),
            unfold installed in
                merge_loop-IsOrderedFrom 0 entries rejections
                  (subst (IsOrderedFrom 0) (sym lines) ordered_sink) ordered_spill,
            unfold installed in
                rw (contents-merged_file merged, held) (∣ merge_loop-Permᴰ entries rejections ∣₁),
            unfold installed in
                omega (
                  arith,
                  merge_loop-length entries rejections,
                  length-map (λ l. l.0) entries,
                  ap length lines,
                ),
          )
    ]

-- Merging a spill whose writes succeeded, where the file system refuses nothing, if the streamed rejections and those that the spill's records are rendered to each came in source-line order: the artifact then has exactly the lines of both, in source-line order, and stays in step with the counters, and the count is that of both together.
pub merge_spill-IsFaithful :
    (render : JsonRecord → Option RejectedRecord) (spill : ValidationSpill) (sink : RejectionSink)
    → IsFaithful sink
    → spill.io_error ≡ none
    → spill.entries ≡ length spill.written
    → IsOrderedFrom 0 sink.lines
    → IsOrderedFrom 0 (rejected_lines_of (filter_map render spill.written))
    → IsMerged (filter_map render spill.written) sink (merge_spill none none render spill sink)
merge_spill-IsFaithful render spill sink faithful whole all ordered_sink ordered_spill =
    let same = spill_rejections-eq_filter_map render spill.written in
    rw same (
      merge_spill-IsMerged render spill sink faithful whole all ordered_sink
        (subst (λ rs. IsOrderedFrom 0 (rejected_lines_of rs)) same ordered_spill))
