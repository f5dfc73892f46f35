-- ===== src/Schema.antt =====
-- The schema module of src/schema.rs: Types has the inference lattice and the field types, TypeName
-- their spelling, Decimal and Timestamp the parsers of declared types, Observe the type that a value
-- shows, Fit and Misfit whether and why a value does not fit, Record the records and the checks on
-- their fields, Check the per-record validation, and Directive the checks that a load imposes.
-- Column and Chunk build the columns of surviving records.
-- Externals is what the module takes from other code.
pub mod Externals
pub mod Types
pub mod TypeName
pub mod Decimal
pub mod Timestamp
pub mod Observe
pub mod Fit
pub mod Misfit
pub mod Record
pub mod Check
pub mod Directive
pub mod Pinned
pub mod Override
pub mod Transform
pub mod Plan
pub mod Columns
pub mod Shape
pub mod Resolve
pub mod Observer
pub mod Column
pub mod Chunk
