-- ===== src/Schema/Timestamp/Discipline.antt =====
-- The offsets of the two timestamp types of src/schema.rs.
use data_spark.Prelude.{ℕ, ◌<◌, none, some, [], ◌∷◌, ◌≡◌, refl, arith, inl, inr, Option-cases}
use data_spark.Prelude.Int.{ℤ, magnitude}
use data_spark.Schema.TypeName.{Bytes}
use data_spark.Schema.Externals.{Externals}
use data_spark.Schema.Timestamp.{
  parse_datetime_prefix, parse_offset_seconds, parse_timestamp_micros, parse_timestamptz_micros,
}

no_offset : parse_offset_seconds [] ≡ none
unfolding parse_offset_seconds
no_offset = refl

-- A prefix that an offset does not follow is no instant.
no_instant :
    (x : Externals) (text : Bytes) (micros : ℤ)
    → parse_datetime_prefix x text ≡ some (micros, [])
    → parse_timestamptz_micros x text ≡ none
unfolding parse_timestamptz_micros
no_instant x text micros e = rw (e, no_offset, parse_timestamptz_micros)

-- A wall-clock reading that something follows fails.
nothing_follows :
    (x : Externals) (text : Bytes) (micros : ℤ) (b : ℕ) (rest : Bytes)
    → parse_datetime_prefix x text ≡ some (micros, b ∷ rest)
    → parse_timestamp_micros x text ≡ none
unfolding parse_timestamp_micros
nothing_follows x text micros b rest e = rw (e, parse_timestamp_micros)

no_wall_clock :
    (x : Externals) (text : Bytes)
    → parse_datetime_prefix x text ≡ none
    → parse_timestamp_micros x text ≡ none
unfolding parse_timestamp_micros
no_wall_clock x text e = rw (e, parse_timestamp_micros)

-- A text that reads as a wall-clock timestamp never reads as an instant, whatever the calendar: an
-- instant needs the offset that a wall-clock reading must not carry.
pub timestamps_exclusive :
    (x : Externals) (text : Bytes) (micros : ℤ)
    → parse_timestamp_micros x text ≡ some micros
    → parse_timestamptz_micros x text ≡ none
timestamps_exclusive x text micros h = elim (Option-cases (parse_datetime_prefix x text)) [
  | inl e ↦ cc (no_wall_clock x text e, h)
  | inr ((seen, []), e) ↦ no_instant x text seen e
  | inr ((seen, b ∷ rest), e) ↦ cc (nothing_follows x text seen b rest e, h)
]

-- An accepted offset is less than a day.
offset_bound :
    (text : Bytes) (seconds : ℤ)
    → parse_offset_seconds text ≡ some seconds
    → magnitude seconds < 86400
unfolding parse_offset_seconds
offset_bound text seconds h = ground arith
