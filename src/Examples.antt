-- ===== src/Examples.antt =====
-- The theorems at concrete inputs: Writes has the retry engine and the write phase, Values the
-- schema's values, Plans the schema configuration, the resolution and the chunks, Passes the first pass, Tables the SQL Server side, Loads a whole load,
-- Sinks the rejection sink, and Streams the second pass, the checks that a load imposes and the
-- validation of records.
mod Writes
mod Values
pub mod Plans
mod Loads
mod Streams
mod Sinks
mod Passes
mod Tables
